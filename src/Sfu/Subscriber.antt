-- ===== src/Sfu/Subscriber.antt =====
-- pkg/sfu/subscriber.go: the down tracks of a subscriber, and the reports on them.
-- The map from stream ids to tracks is a list of entries, each id once; its order is the one in which
-- Go goes over the map. Tracks are named by numbers. The peer connection is the WebRTC library's.
pub mod Chunks
pub mod Removal
pub mod Swap
mod Tests
use ion_sfu.Prelude.{
  ℕ, zero, suc, ◌+◌, ◌-◌, ◌*◌, Bool, List, [], ◌∷◌, ◌++◌, Option, none, some, ltb, leb, ◌==◌,
  if◌then◌else◌, length, get_or, set, take, drop,
}

pub record Entry : Type 0 where
  pub stream_id : ℕ
  pub down_tracks : List ℕ

-- `s.tracks[streamID]`, nil where there is no entry.
unfoldable pub get_down_tracks : List Entry → ℕ → List ℕ
get_down_tracks [] stream_id = []
get_down_tracks (e ∷ es) stream_id =
    let rest = get_down_tracks es stream_id in
    if e.stream_id == stream_id then e.down_tracks else rest

unfoldable pub add_down_track : List Entry → (stream_id down_track : ℕ) → List Entry
add_down_track [] stream_id down_track =
    record { stream_id = stream_id; down_tracks = down_track ∷ [] } ∷ []
add_down_track (e ∷ es) stream_id down_track =
    let rest = add_down_track es stream_id down_track in
    if e.stream_id == stream_id
    then record e { down_tracks = e.down_tracks ++ (down_track ∷ []) } ∷ es
    else e ∷ rest

-- The loop for `idx`, `none` for -1.
unfoldable pub index_of : List ℕ → (down_track i : ℕ) → Option ℕ
index_of [] down_track i = none
index_of (dt ∷ dts) down_track i =
    let later = index_of dts down_track (i + 1) in if dt == down_track then some i else later

-- The last track takes the place of the one that goes.
unfoldable pub without : List ℕ → ℕ → List ℕ
without dts down_track = elim (index_of dts down_track 0) [
  | none ↦ dts
  | some idx ↦ take (length dts - 1) (set dts idx (get_or dts (length dts - 1) 0))
]

unfoldable pub remove_down_track : List Entry → (stream_id down_track : ℕ) → List Entry
remove_down_track [] stream_id down_track = []
remove_down_track (e ∷ es) stream_id down_track =
    let rest = remove_down_track es stream_id down_track in
    if e.stream_id == stream_id
    then record e { down_tracks = without e.down_tracks down_track } ∷ es
    else e ∷ rest

-- `DownTracks`
unfoldable pub all_down_tracks : List Entry → List ℕ
all_down_tracks [] = []
all_down_tracks (e ∷ es) = e.down_tracks ++ all_down_tracks es

-- `sd[from:to]`
abbrev pub slice {ℓ} : {C : Type ℓ} → List C → (from to : ℕ) → List C
slice sd from to = take (to - from) (drop from sd)

module _ {R C : Type 0} where
  -- What `downTracksReports` collects: of the bound tracks the sender reports, where there are any, and
  -- the source descriptions, two of a track.
  unfoldable pub collect_reports :
      (ℕ → Bool) → (ℕ → Option R) → (ℕ → List C) → List ℕ → List R × List C
  collect_reports bound report describe [] = ([], [])
  collect_reports bound report describe (dt ∷ dts) =
      let (r, sd) = collect_reports bound report describe dts in
      let with_report : List R = elim (report dt) [ none ↦ r | some sr ↦ sr ∷ r ] in
      if bound dt then (with_report, describe dt ++ sd) else (r, sd)

  -- A write, and those behind it.
  unfoldable pub with_write :
      List R × List C → Option (List (List R × List C)) → Option (List (List R × List C))
  with_write w none = none
  with_write w (some ws) = some (w ∷ ws)

  -- The loop over the chunks: what it writes, the reports that wait and some descriptions. `ends` says
  -- of a round whether its write fails with `io.EOF` or `io.ErrClosedPipe`; `none` is out of fuel.
  unfoldable pub write_chunks :
      (fuel : ℕ) → (ℕ → Bool) → List C → (i j : ℕ) → List R → Option (List (List R × List C))
  write_chunks zero ends sd i j r = none
  write_chunks (suc fuel) ends sd i j r =
      let next = if leb (length sd) ((j + 1) * 15) then length sd else (j + 1) * 15 in
      let written : List R × List C = (r, slice sd (j * 15) next) in
      let rest = write_chunks fuel ends sd next (j + 1) [] in
      if ltb i (length sd)
      then (if ends j then some (written ∷ []) else with_write written rest)
      else some []

module _ {C : Type 0} where
  -- The source descriptions of the bound tracks.
  unfoldable pub describe_bound : (ℕ → Bool) → (ℕ → List C) → List ℕ → List C
  describe_bound bound describe [] = []
  describe_bound bound describe (dt ∷ dts) =
      let sd = describe_bound bound describe dts in if bound dt then describe dt ++ sd else sd

  -- The loop that writes the same descriptions again, until `i > 5`; `none` is out of fuel.
  unfoldable pub send_seven_times : (fuel i : ℕ) → List C → Option (List (List C))
  send_seven_times zero i sd = none
  send_seven_times (suc fuel) i sd =
      let rest = send_seven_times fuel (i + 1) sd in
      if ltb 5 i then some (sd ∷ []) else elim rest [ none ↦ none | some ws ↦ some (sd ∷ ws) ]

  -- `sendStreamDownTracksReports`: what it writes. An error of a write is only logged.
  unfoldable pub send_stream_reports :
      (ℕ → Bool) → (ℕ → List C) → List Entry → (stream_id : ℕ) → Option (List (List C))
  send_stream_reports bound describe es stream_id =
      let sd = describe_bound bound describe (get_down_tracks es stream_id) in
      if length sd == 0 then some [] else send_seven_times 7 0 sd
