-- ===== src/Sfu/AudioObserver.antt =====
-- pkg/sfu/audioobserver.go: who speaks. A stream's id is a number, as the code only compares ids;
-- `sort` stands for `sort.Slice` by falling `total` and then by rising `sum`. The lock is left out.
mod Tests
use ion_sfu.Prelude.{
  ℕ, zero, suc, ◌+◌, ◌-◌, ◌*◌, ◌/◌, Bool, true, false, ◌&&◌, not, List, [], ◌∷◌, ◌++◌, Option, none,
  some, ltb, leb, ◌==◌, if◌then◌else◌, length, set, take, get_or, map,
}

pub record AudioStream : Type 0 where
  pub id : ℕ
  pub sum : ℕ
  pub total : ℕ

pub record AudioObserver : Type 0 where
  pub streams : List AudioStream
  pub expected : ℕ
  pub threshold : ℕ
  pub previous : List ℕ

-- `interval` is not negative; a negative filter counts as 0 in the source.
unfoldable pub new_audio_observer : (threshold interval filter : ℕ) → AudioObserver
new_audio_observer threshold interval filter = record {
  streams = [];
  expected = interval * (if ltb 100 filter then 100 else filter) / 2000;
  threshold = if ltb 127 threshold then 127 else threshold;
  previous = [];
}

unfoldable pub add_stream : AudioObserver → (stream_id : ℕ) → AudioObserver
add_stream a stream_id = record a {
  streams = a.streams ++ (record { id = stream_id; sum = 0; total = 0 } ∷ []);
}

-- The loop for the place of a stream.
unfoldable pub index_of : ℕ → List AudioStream → Option ℕ
index_of stream_id [] = none
index_of stream_id (s ∷ ss) =
    let rest : Option ℕ = elim (index_of stream_id ss) [ none ↦ none | some i ↦ some (suc i) ] in
    if s.id == stream_id then some 0 else rest

-- The last stream takes the place of the removed one.
unfoldable pub remove_stream : AudioObserver → (stream_id : ℕ) → AudioObserver
remove_stream a stream_id = elim (index_of stream_id a.streams) [
  | none ↦ a
  | some i ↦
      let n = length a.streams in
      let last = get_or a.streams (n - 1) (record { id = 0; sum = 0; total = 0 }) in
      record a { streams = take (n - 1) (set a.streams i last) }
]

-- The loop of `observe`: the first stream of that id.
unfoldable pub observe_in : (threshold stream_id d_bov : ℕ) → List AudioStream → List AudioStream
observe_in threshold stream_id d_bov [] = []
observe_in threshold stream_id d_bov (s ∷ ss) =
    let rest = observe_in threshold stream_id d_bov ss in
    let heard : AudioStream = record s { sum = s.sum + d_bov; total = s.total + 1 } in
    if s.id == stream_id then (if leb d_bov threshold then heard else s) ∷ ss else s ∷ rest

unfoldable pub observe : AudioObserver → (stream_id d_bov : ℕ) → AudioObserver
observe a stream_id d_bov = record a { streams = observe_in a.threshold stream_id d_bov a.streams }

unfoldable pub speakers : (expected : ℕ) → List AudioStream → List ℕ
speakers expected [] = []
speakers expected (s ∷ ss) =
    let rest = speakers expected ss in if leb expected s.total then s.id ∷ rest else rest

unfoldable pub same_ids : List ℕ → List ℕ → Bool
same_ids [] [] = true
same_ids [] (y ∷ ys) = false
same_ids (x ∷ xs) [] = false
same_ids (x ∷ xs) (y ∷ ys) = (x == y) && same_ids xs ys

abbrev pub silent : AudioStream → AudioStream
silent s = record s { sum = 0; total = 0 }

-- `Calc`; `none` is the nil of an unchanged result.
unfoldable pub calc :
    (List AudioStream → List AudioStream) → AudioObserver → Option (List ℕ) × AudioObserver
calc sort a =
    let sorted = sort a.streams in
    let stream_ids = speakers a.expected sorted in
    let cleared : List AudioStream = map silent sorted in
    if same_ids a.previous stream_ids
    then (none, record a { streams = cleared })
    else (some stream_ids, record a { streams = cleared; previous = stream_ids })
