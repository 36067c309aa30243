-- ===== src/Sfu/DownTrack/Steps.antt =====
-- What one event does to the sequence numbers of a track without layers.
use ion_sfu.Prelude.{
  ℕ, ◌<◌, ◌≡◌, ◌⊎◌, refl, ◌∙◌, Bool, true, false, not, ◌&&◌, List, [], ◌∷◌, sub16, sub32, add16,
  arith, inl, inr, Bool-cases,
}
use ion_sfu.Sfu.DownTrack.{
  DownTrack, simple_down_track, ExtPacket, Effect, nothing, pli, update_stats, mute, re_synced,
  forward_simple, write_simple_rtp,
}
use ion_sfu.Sfu.DownTrack.Numbers.{sent}
use ion_sfu.Sfu.DownTrack.Simulcast.{write_rtp}

-- What happens to a track: a packet of the source arrives, or the client mutes or unmutes it.
pub data Event : Type 0 where
  packet : ExtPacket → Event
  muted : Bool → Event

unfoldable pub happen : DownTrack → Event → Effect × DownTrack
happen d (packet p) = write_rtp d p 0
happen d (muted val) = (nothing, mute d val)

-- The numbers of the packets that a run sends.
unfoldable pub sent_numbers : DownTrack → List Event → List ℕ
sent_numbers d [] = []
sent_numbers d (e ∷ es) =
    let (out, d') = happen d e in let rest = sent_numbers d' es in sent out rest

-- Except where the track waits for a switch, each packet is the next one of the source after `src`.
abbrev pub InOrder : DownTrack → ℕ → List Event → Type 0
InOrder d src [] = Unit
InOrder d src (packet p ∷ es) =
    (p.head ≡ true)
    × (p.sequence_number < 65536)
    × (d.re_sync ≡ false → p.sequence_number ≡ add16 src 1)
    × InOrder (happen d (packet p)).1 p.sequence_number es
InOrder d src (muted val ∷ es) = InOrder (mute d val) src es

-- The last number sent is the one of the source's last packet.
pub record Follows (d : DownTrack) (src : ℕ) : Type 0 where
  pub is_simple : d.track_type ≡ simple_down_track
  pub is_bound : d.bound ≡ true
  pub gated : d.enabled ≡ false → d.re_sync ≡ true
  pub src_in : src < 65536
  pub offset_in : d.sn_offset < 65536
  pub same : d.re_sync ≡ false → sub16 src d.sn_offset ≡ d.last_sn

-- A step either sends nothing and leaves the last number, or sends the next one.
pub record Moves (last : ℕ) (out : Effect) (d' : DownTrack) (src : ℕ) : Type 0 where
  pub follows : Follows d' src
  pub number :
      ((ns : List ℕ) → sent out ns ≡ ns) × (d'.last_sn ≡ last)
      ⊎ ((ns : List ℕ) → sent out ns ≡ add16 last 1 ∷ ns) × (d'.last_sn ≡ add16 last 1)

pub forward-Moves :
    (d : DownTrack) (last : ℕ) (p : ExtPacket)
    → d.track_type ≡ simple_down_track
    → d.bound ≡ true
    → d.enabled ≡ true
    → p.head ≡ true
    → p.sequence_number < 65536
    → d.sn_offset < 65536
    → sub16 p.sequence_number d.sn_offset ≡ add16 last 1
    → Moves last (forward_simple d p).0 (forward_simple d p).1 p.sequence_number
unfolding forward_simple update_stats sent
forward-Moves d last p simple bd en h pin oin e = rw h (record {
  follows = record {
    is_simple = simple;
    is_bound = bd;
    gated = λ f. absurd (ground arith);
    src_in = pin;
    offset_in = oin;
    same = λ _. refl;
  };
  number = inr (λ ns. rw e refl, e);
})

-- A call that sends no packet and leaves the numbers.
pub quiet-Moves :
    (d : DownTrack) (out : Effect) (src : ℕ)
    → Follows d src
    → ((ns : List ℕ) → sent out ns ≡ ns)
    → Moves d.last_sn out d src
quiet-Moves d out src v q = record { follows = v; number = inl (q, refl) }

-- While the track waits for a switch, the source's numbers are free.
pub waits-Follows :
    (d : DownTrack) (src sn : ℕ) → Follows d src → d.re_sync ≡ true → sn < 65536 → Follows d sn
waits-Follows d src sn v w h = record {
  is_simple = v.is_simple;
  is_bound = v.is_bound;
  gated = v.gated;
  src_in = h;
  offset_in = v.offset_in;
  same = λ r. absurd (ground arith);
}

-- The three cases of `writeSimpleRTP`.
pub write_waits :
    (d : DownTrack) (p : ExtPacket)
    → d.re_sync ≡ true
    → d.is_video && not p.key_frame ≡ true
    → write_simple_rtp d p ≡ (pli d.ssrc p.ssrc, d)
unfolding write_simple_rtp
write_waits d p r k = simp (r, k)

pub write_switches :
    (d : DownTrack) (p : ExtPacket)
    → d.re_sync ≡ true
    → d.is_video && not p.key_frame ≡ false
    → write_simple_rtp d p ≡ forward_simple (re_synced d p) p
unfolding write_simple_rtp
write_switches d p r k = simp (r, k)

pub write_forwards :
    (d : DownTrack) (p : ExtPacket) → d.re_sync ≡ false → write_simple_rtp d p ≡ forward_simple d p
unfolding write_simple_rtp
write_forwards d p r = simp r

-- A switch goes on from the last number and the last timestamp.
pub re_synced_lem :
    (d : DownTrack) (p : ExtPacket)
    → 0 < d.last_sn
    → let e = re_synced d p in
      (e.track_type ≡ d.track_type)
      × (e.bound ≡ d.bound)
      × (e.enabled ≡ d.enabled)
      × (e.sn_offset ≡ sub16 (sub16 p.sequence_number d.last_sn) 1)
      × (e.ts_offset ≡ sub32 (sub32 p.timestamp d.last_ts) 1)
      × (e.last_sn ≡ d.last_sn)
unfolding re_synced
re_synced_lem d p pos = ground arith

pub simple-Moves :
    (d : DownTrack) (src : ℕ) (p : ExtPacket)
    → Follows d src
    → 0 < d.last_sn
    → d.last_sn < 65536
    → d.enabled ≡ true
    → p.head ≡ true
    → p.sequence_number < 65536
    → (d.re_sync ≡ false → p.sequence_number ≡ add16 src 1)
    → Moves d.last_sn (write_simple_rtp d p).0 (write_simple_rtp d p).1 p.sequence_number
unfolding sent
simple-Moves d src p v pos lt en h pin ordered = elim (Bool-cases d.re_sync) [
  | inl r ↦ elim (Bool-cases (d.is_video && not p.key_frame)) [
    | inl k ↦
        let e = write_waits d p r k in
        let q = quiet-Moves d (pli d.ssrc p.ssrc) _ (waits-Follows d src _ v r pin) (λ ns. refl) in
        rw e q
    | inr k ↦
        let e = write_switches d p r k in
        let (t, bd, ee, o, _, l) = re_synced_lem d p pos in
        rw e (
          forward-Moves (re_synced d p) d.last_sn p (t ∙ v.is_simple) (bd ∙ v.is_bound) (ee ∙ en) h
            pin (omega (arith, o)) (omega (arith, o)))
  ]
  | inr r ↦
      let e = write_forwards d p r in
      let o = ordered r in
      let same = v.same r in
      let inn = v.offset_in in
      let sin = v.src_in in
      rw e (forward-Moves d d.last_sn p v.is_simple v.is_bound en h pin v.offset_in (ground arith))
]

pub mute-Follows : (d : DownTrack) (src : ℕ) (val : Bool) → Follows d src → Follows (mute d val) src
unfolding mute
mute-Follows d src val v = record {
  is_simple = ground (arith, v.is_simple);
  is_bound = ground (arith, v.is_bound);
  gated = ground (arith, v.gated);
  src_in = v.src_in;
  offset_in = ground (arith, v.offset_in);
  same = ground (arith, v.same);
}

pub mute-keeps : (d : DownTrack) (val : Bool) → (mute d val).last_sn ≡ d.last_sn
unfolding mute
mute-keeps d val = ground arith

pub packet-Moves :
    (d : DownTrack) (src : ℕ) (p : ExtPacket)
    → Follows d src
    → 0 < d.last_sn
    → d.last_sn < 65536
    → p.head ≡ true
    → p.sequence_number < 65536
    → (d.re_sync ≡ false → p.sequence_number ≡ add16 src 1)
    → Moves d.last_sn (write_rtp d p 0).0 (write_rtp d p 0).1 p.sequence_number
unfolding write_rtp sent
packet-Moves d src p v pos lt h pin ordered = elim (Bool-cases d.enabled) [
  | inl en ↦
      let e : write_rtp d p 0 ≡ write_simple_rtp d p = simp (en, v.is_bound, v.is_simple) in
      rw e (simple-Moves d src p v pos lt en h pin ordered)
  | inr en ↦
      let e : write_rtp d p 0 ≡ (nothing, d) = simp en in
      rw e (quiet-Moves d nothing _ (waits-Follows d src _ v (v.gated en) pin) (λ ns. refl))
]
