-- ===== src/Sfu/DownTrack/Continuity.antt =====
-- The sequence numbers that a track without layers sends, over mutes and switches of the source.
use ion_sfu.Prelude.{
  ◌==◌, ℕ, suc, ◌+◌, ◌<◌, ◌≡◌, refl, ◌∙◌, ap, Bool, true, false, not, ◌&&◌, List, [], ◌∷◌, length,
  add16, arith, inl, inr, Bool-cases, if◌then◌else◌, ◌||◌, sym,
}
use ion_sfu.Sfu.DownTrack.{
  DownTrack, simple_down_track, ExtPacket, Effect, nothing, update_stats, mute, re_synced,
  forward_simple, write_simple_rtp,
}
use ion_sfu.Sfu.DownTrack.Numbers.{sent, count16, length-count16}
use ion_sfu.Sfu.DownTrack.Simulcast.{write_rtp}
use ion_sfu.Sfu.DownTrack.Steps.{
  Event, packet, muted, happen, sent_numbers, InOrder, Follows, write_waits, write_switches,
  write_forwards, mute-Follows, mute-keeps, packet-Moves,
}

-- How many packets go out: those that arrive while the track is enabled, except that a video track
-- that waits for a switch passes over the packets in front of the next key frame.
unfoldable pub passed : (enabled waits video : Bool) → List Event → ℕ
passed enabled waits video [] = 0
passed enabled waits video (packet p ∷ es) =
    let rest = passed enabled waits video es in
    let next = suc (passed enabled false video es) in
    if enabled then (if waits && video && not p.key_frame then rest else next) else rest
passed enabled waits video (muted val ∷ es) =
    let rest = passed enabled waits video es in
    let switched = passed (not val) (val || waits) video es in
    if (enabled && not val) || (not enabled && val) then rest else switched

-- The fields that decide whether a packet goes out.
record Gates (d d' : DownTrack) (w : Bool) : Type 0 where
  is_simple : d'.track_type ≡ d.track_type
  is_bound : d'.bound ≡ d.bound
  enabled : d'.enabled ≡ d.enabled
  video : d'.is_video ≡ d.is_video
  waits : d'.re_sync ≡ w

forward-Gates : (d : DownTrack) (p : ExtPacket) → Gates d (forward_simple d p).1 d.re_sync
unfolding forward_simple update_stats
forward-Gates d p = elim (Bool-cases p.head) [
  | inl h ↦
      rw h
        (record { is_simple = refl; is_bound = refl; enabled = refl; video = refl; waits = refl })
  | inr h ↦
      rw h
        (record { is_simple = refl; is_bound = refl; enabled = refl; video = refl; waits = refl })
]

forward-sends :
    (d : DownTrack) (p : ExtPacket) (ns : List ℕ)
    → length (sent (forward_simple d p).0 ns) ≡ suc (length ns)
unfolding forward_simple sent
forward-sends d p ns = refl

re_synced-Gates : (d : DownTrack) (p : ExtPacket) → Gates d (re_synced d p) false
unfolding re_synced
re_synced-Gates d p = elim (Bool-cases (d.last_sn == 0)) [
  | inl h ↦
      rw h
        (record { is_simple = refl; is_bound = refl; enabled = refl; video = refl; waits = refl })
  | inr h ↦
      rw h
        (record { is_simple = refl; is_bound = refl; enabled = refl; video = refl; waits = refl })
]

mute-Gates :
    (d : DownTrack) (val : Bool)
    → (d.enabled && not val) || (not d.enabled && val) ≡ false
    → let e = mute d val in
      (e.track_type ≡ d.track_type)
      × (e.bound ≡ d.bound)
      × (e.enabled ≡ not val)
      × (e.is_video ≡ d.is_video)
      × (e.re_sync ≡ (val || d.re_sync))
unfolding mute
mute-Gates d val h = ground (arith, h)

same-passed :
    (es : List Event) {e e' w w' v v' : Bool}
    → e ≡ e'
    → w ≡ w'
    → v ≡ v'
    → passed e w v es ≡ passed e' w' v' es
same-passed es p q r = rw (p, q, r) refl

length-sent_numbers :
    (d : DownTrack) (es : List Event)
    → d.track_type ≡ simple_down_track
    → d.bound ≡ true
    → length (sent_numbers d es) ≡ passed d.enabled d.re_sync d.is_video es
unfolding sent_numbers passed happen sent mute write_rtp
length-sent_numbers d [] s b = refl
length-sent_numbers d (muted val ∷ es) s b =
    elim (Bool-cases ((d.enabled && not val) || (not d.enabled && val))) [
      | inl e ↦
          let same : mute d val ≡ d = simp e in
          ap (λ x. length (sent_numbers x es)) same ∙ length-sent_numbers d es s b ∙ rw e refl
      | inr e ↦
          let (t, bd, en, vi, re) = mute-Gates d val e in
          let rest = length-sent_numbers (mute d val) es (t ∙ s) (bd ∙ b) in
          rest ∙ same-passed es en re vi ∙ rw e refl
    ]
length-sent_numbers d (packet p ∷ es) s b = elim (Bool-cases d.enabled) [
  | inl en ↦
      let go : write_rtp d p 0 ≡ write_simple_rtp d p = simp (en, b, s) in
      elim (Bool-cases (d.re_sync && d.is_video && not p.key_frame)) [
        | inl r ↦
            let f = go ∙ write_waits d p (ground arith) (ground arith) in
            ap (λ (x : Effect × DownTrack). length (sent x.0 (sent_numbers x.1 es))) f
            ∙ length-sent_numbers d es s b
            ∙ simp (en, r)
        | inr r ↦ elim (Bool-cases d.re_sync) [
          | inl w ↦
              let f = go ∙ write_switches d p w (ground arith) in
              let g = re_synced-Gates d p in
              let k = forward-Gates (re_synced d p) p in
              let rest =
                length-sent_numbers (forward_simple (re_synced d p) p).1 es
                  (k.is_simple ∙ g.is_simple ∙ s) (k.is_bound ∙ g.is_bound ∙ b) in
              ap (λ (x : Effect × DownTrack). length (sent x.0 (sent_numbers x.1 es))) f
              ∙ forward-sends (re_synced d p) p _
              ∙ ap suc (
                  rest
                  ∙ same-passed es (k.enabled ∙ g.enabled) (k.waits ∙ g.waits) (k.video ∙ g.video))
              ∙ simp (en, r)
          | inr w ↦
              let f = go ∙ write_forwards d p w in
              let g = forward-Gates d p in
              let rest =
                length-sent_numbers (forward_simple d p).1 es (g.is_simple ∙ s) (g.is_bound ∙ b) in
              ap (λ (x : Effect × DownTrack). length (sent x.0 (sent_numbers x.1 es))) f
              ∙ forward-sends d p _
              ∙ ap suc (rest ∙ same-passed es g.enabled (g.waits ∙ w) g.video)
              ∙ simp (en, r)
        ]
      ]
  | inr en ↦
      let stop : write_rtp d p 0 ≡ (nothing, d) = simp en in
      ap (λ (x : Effect × DownTrack). length (sent x.0 (sent_numbers x.1 es))) stop
      ∙ length-sent_numbers d es s b
      ∙ simp en
]

-- The numbers are consecutive; how many there are is another matter.
consecutive_numbers :
    (d : DownTrack) (src : ℕ) (es : List Event)
    → Follows d src
    → 0 < d.last_sn
    → d.last_sn + length es < 65536
    → InOrder d src es
    → (k : ℕ) × (sent_numbers d es ≡ count16 (add16 d.last_sn 1) k)
unfolding sent_numbers count16 happen sent
consecutive_numbers d src [] v pos lt o = (0, refl)
consecutive_numbers d src (muted val ∷ es) v pos lt o =
    let l = mute-keeps d val in
    let (k, e) =
      consecutive_numbers (mute d val) src es (mute-Follows d src val v) (omega (arith, l))
        (omega (arith, l)) o in
    (k, e ∙ ap (λ t. count16 (add16 t 1) k) l)
consecutive_numbers d src (packet p ∷ es) v pos lt (h, pin, ordered, o) =
    let m = packet-Moves d src p v pos (omega arith) h pin ordered in
    elim m.number [
      | inl (q, l) ↦
          let (k, e) =
            consecutive_numbers (write_rtp d p 0).1 p.sequence_number es m.follows
              (omega (arith, l)) (omega (arith, l)) o in
          (k, q _ ∙ e ∙ ap (λ t. count16 (add16 t 1) k) l)
      | inr (q, l) ↦
          let (k, e) =
            consecutive_numbers (write_rtp d p 0).1 p.sequence_number es m.follows
              (omega (arith, l)) (omega (arith, l)) o in
          (suc k, q _ ∙ ap (λ ns. add16 d.last_sn 1 ∷ ns) (e ∙ ap (λ t. count16 (add16 t 1) k) l))
    ]

-- Over mutes and switches of the source, a track without layers sends every packet that arrives while
-- it is enabled and does not wait for a key frame, and numbers what it sends consecutively after its
-- last number: whatever the source's numbers are, the subscriber sees no gap. The packets arrive in
-- order except where a switch is awaited, the track has sent a packet before, and its numbers do not
-- reach the wrap, at which the source takes 0 for none sent.
pub sent_numbers_count :
    (d : DownTrack) (src : ℕ) (es : List Event)
    → Follows d src
    → 0 < d.last_sn
    → d.last_sn + length es < 65536
    → InOrder d src es
    → sent_numbers d es ≡ count16 (add16 d.last_sn 1) (passed d.enabled d.re_sync d.is_video es)
sent_numbers_count d src es v pos lt o =
    let (k, e) = consecutive_numbers d src es v pos lt o in
    let many = sym (length-count16 (add16 d.last_sn 1) k) ∙ sym (ap length e) in
    let all = many ∙ length-sent_numbers d es v.is_simple v.is_bound in
    e ∙ ap (count16 (add16 d.last_sn 1)) all
