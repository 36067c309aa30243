-- ===== src/Sfu/DownTrack/Simulcast/Gapless.antt =====
-- Dropped frames leave no gap in the numbers of a layered track.
use ion_sfu.Prelude.{
  ℕ, suc, ◌<◌, ◌≡◌, ◌⊎◌, refl, ◌∙◌, ap, true, false, ◌&&◌, List, [], ◌∷◌, ◌==◌, sub16, add16, arith,
  inl, inr, Bool-cases, Option-cases,
}
use ion_sfu.Sfu.DownTrack.{DownTrack, ExtPacket, Effect, nothing, forward, Forwarded, update_stats}
use ion_sfu.Sfu.DownTrack.Numbers.{sent, count16}
use ion_sfu.Sfu.DownTrack.Simulcast.{
  write_simulcast_rtp, forward_simulcast, send_simulcast, set_vp8_temporal_layer, finish_switch,
  adjust_offsets, Rewritten,
}

send-sends :
    (d : DownTrack) (p : ExtPacket) (csl new_sn new_ts : ℕ) (r : Rewritten)
    → p.head ≡ true
    → let (e, d') = send_simulcast d p csl new_sn new_ts r in
      (e
        ≡ forward (record {
          payload_type = d.payload_type;
          timestamp = new_ts;
          sequence_number = new_sn;
          ssrc = d.ssrc;
          payload = r.buf;
        }))
      × (d'.sn_offset ≡ d.sn_offset)
      × (d'.last_sn ≡ new_sn)
      × (d'.last_ssrc ≡ d.last_ssrc)
      × (d'.re_sync ≡ d.re_sync)
      × (d'.simulcast.l_ts_calc ≡ p.arrival)
      × (d'.current_spatial_layer ≡ d.current_spatial_layer)
unfolding send_simulcast update_stats
send-sends d p csl new_sn new_ts r h = ground arith

layer-keeps :
    (d : DownTrack) (p : ExtPacket)
    → let (r, d') = set_vp8_temporal_layer p d in
      (d'.sn_offset ≡ d.sn_offset)
      × (d'.last_sn ≡ d.last_sn)
      × (d'.last_ssrc ≡ d.last_ssrc)
      × (d'.re_sync ≡ d.re_sync)
      × (d'.simulcast.l_ts_calc ≡ d.simulcast.l_ts_calc)
      × (d'.current_spatial_layer ≡ d.current_spatial_layer)
unfolding set_vp8_temporal_layer finish_switch
layer-keeps d p = elim (Option-cases p.vp8) [
  | inl e ↦ rw e (refl, refl, refl, refl, refl, refl)
  | inr (v, e) ↦ rw e (ground arith)
]

-- A track that is in step with its source: `src` is the number of the last packet it got.
pub record InStep (d : DownTrack) (src : ℕ) : Type 0 where
  pub src_in : src < 65536
  pub offset_in : d.sn_offset < 65536
  pub same : sub16 src d.sn_offset ≡ d.last_sn
  pub synced : d.re_sync ≡ false
  pub timed : 0 < d.simulcast.l_ts_calc

-- The packet after `src`, from the same source and layer.
pub record Next (d : DownTrack) (src : ℕ) (p : ExtPacket) : Type 0 where
  pub is_head : p.head ≡ true
  pub number : p.sequence_number ≡ add16 src 1
  pub same_source : p.ssrc ≡ d.last_ssrc
  pub timed : 0 < p.arrival

-- A step sends the next number, or drops the packet and keeps the last number; it leaves the source
-- and the layer as they are.
pub record StepsOn (d : DownTrack) (p : ExtPacket) (out : Effect) (d' : DownTrack) : Type 0 where
  pub in_step : InStep d' p.sequence_number
  pub same_source : d'.last_ssrc ≡ d.last_ssrc
  pub same_layer : d'.current_spatial_layer ≡ d.current_spatial_layer
  pub number :
      (out ≡ nothing) × (d'.last_sn ≡ d.last_sn)
      ⊎ (f : Forwarded) × (out ≡ forward f)
        × (f.sequence_number ≡ add16 d.last_sn 1)
        × (d'.last_sn ≡ add16 d.last_sn 1)

send-StepsOn :
    (d e : DownTrack) (p : ExtPacket) (src csl new_ts : ℕ) (r : Rewritten)
    → InStep d src
    → Next d src p
    → (e.sn_offset ≡ d.sn_offset)
      × (e.last_sn ≡ d.last_sn)
      × (e.last_ssrc ≡ d.last_ssrc)
      × (e.re_sync ≡ d.re_sync)
      × (e.simulcast.l_ts_calc ≡ d.simulcast.l_ts_calc)
      × (e.current_spatial_layer ≡ d.current_spatial_layer)
    → let (out, d') = send_simulcast e p csl (sub16 p.sequence_number d.sn_offset) new_ts r in
      StepsOn d p out d'
send-StepsOn d e p src csl new_ts r v n (ko, kl, ks, kr, kt, kc) =
    let (sf, so, sl, ss, sr, st, sc) =
      send-sends e p csl (sub16 p.sequence_number d.sn_offset) new_ts r n.is_head in
    let next : sub16 p.sequence_number d.sn_offset ≡ add16 d.last_sn 1 =
      omega (arith, v.src_in, v.offset_in, v.same, n.number) in
    record {
      in_step = record {
        src_in = omega (arith, n.number);
        offset_in = omega (arith, so, ko, v.offset_in);
        same = omega (arith, so, ko, sl);
        synced = sr ∙ kr ∙ v.synced;
        timed = omega (arith, st, n.timed);
      };
      same_source = ss ∙ ks;
      same_layer = sc ∙ kc;
      number = inr (_, sf, next, sl ∙ next);
    }

drop-StepsOn :
    (d e : DownTrack) (p : ExtPacket) (src : ℕ)
    → InStep d src
    → Next d src p
    → (e.sn_offset ≡ d.sn_offset)
      × (e.last_sn ≡ d.last_sn)
      × (e.last_ssrc ≡ d.last_ssrc)
      × (e.re_sync ≡ d.re_sync)
      × (e.simulcast.l_ts_calc ≡ d.simulcast.l_ts_calc)
      × (e.current_spatial_layer ≡ d.current_spatial_layer)
    → StepsOn d p nothing (record e { sn_offset = add16 e.sn_offset 1 })
drop-StepsOn d e p src v n (ko, kl, ks, kr, kt, kc) = record {
  in_step = record {
    src_in = omega (arith, n.number);
    offset_in = omega arith;
    same = omega (arith, ko, kl, v.same, n.number, v.src_in, v.offset_in);
    synced = kr ∙ v.synced;
    timed = omega (arith, kt, v.timed);
  };
  same_source = ks;
  same_layer = kc;
  number = inl (refl, kl);
}

forward-StepsOn :
    (d : DownTrack) (p : ExtPacket) (src csl : ℕ)
    → InStep d src
    → Next d src p
    → StepsOn d p (forward_simulcast d p csl).0 (forward_simulcast d p csl).1
unfolding forward_simulcast
forward-StepsOn d p src csl v n =
    let keeps = layer-keeps d p in
    elim (Bool-cases (d.simulcast.temporal_supported && d.is_vp8_mime)) [
      | inl t ↦ elim (Bool-cases (set_vp8_temporal_layer p d).0.drop) [
        | inl r ↦ rw (t, r) (drop-StepsOn d _ p src v n keeps)
        | inr r ↦ rw (t, r) (send-StepsOn d _ p src csl _ _ v n keeps)
      ]
      | inr t ↦ rw t (send-StepsOn d d p src csl _ _ v n (refl, refl, refl, refl, refl, refl))
    ]

-- Without a change of the source the offsets stay.
pub steady_write :
    (d : DownTrack) (p : ExtPacket) (src : ℕ)
    → InStep d src
    → Next d src p
    → write_simulcast_rtp d p d.current_spatial_layer
      ≡ forward_simulcast d p d.current_spatial_layer
unfolding write_simulcast_rtp adjust_offsets
steady_write d p src v n =
    let own : d.last_ssrc == p.ssrc ≡ true = ground (arith, n.same_source) in
    let started : d.simulcast.l_ts_calc == 0 ≡ false = ground (arith, v.timed) in
    let layer : d.current_spatial_layer == d.current_spatial_layer ≡ true = ground arith in
    simp (own, v.synced, started, layer)

pub steady-StepsOn :
    (d : DownTrack) (p : ExtPacket) (src : ℕ)
    → InStep d src
    → Next d src p
    → let (out, d') = write_simulcast_rtp d p d.current_spatial_layer in StepsOn d p out d'
steady-StepsOn d p src v n = rw (steady_write d p src v n) (forward-StepsOn d p src _ v n)

-- The packets arrive at the track one after the other.
unfoldable pub simulcast_numbers : DownTrack → List ExtPacket → List ℕ
simulcast_numbers d [] = []
simulcast_numbers d (p ∷ ps) =
    let (out, d') = write_simulcast_rtp d p d.current_spatial_layer in
    let rest = simulcast_numbers d' ps in sent out rest

-- They are consecutive packets of one source after `src`.
abbrev pub Stream : DownTrack → ℕ → List ExtPacket → Type 0
Stream d src [] = Unit
Stream d src (p ∷ ps) =
    Next d src p × Stream (write_simulcast_rtp d p d.current_spatial_layer).1 p.sequence_number ps

-- The numbers are consecutive; how many there are is another matter.
pub consecutive_frames :
    (d : DownTrack) (src : ℕ) (ps : List ExtPacket)
    → InStep d src
    → Stream d src ps
    → (k : ℕ) × (simulcast_numbers d ps ≡ count16 (add16 d.last_sn 1) k)
unfolding simulcast_numbers count16 sent
consecutive_frames d src [] v s = (0, refl)
consecutive_frames d src (p ∷ ps) v (n, s) =
    let m = steady-StepsOn d p src v n in
    let (k, e) =
      consecutive_frames (write_simulcast_rtp d p d.current_spatial_layer).1 p.sequence_number ps
        m.in_step s in
    elim m.number [
      | inl (q, l) ↦ (k, rw q (e ∙ ap (λ t. count16 (add16 t 1) k) l))
      | inr (f, q, c, l) ↦ (
        suc k,
        rw (q, c) (ap (λ ns. add16 d.last_sn 1 ∷ ns) (e ∙ ap (λ t. count16 (add16 t 1) k) l)),
      )
    ]
