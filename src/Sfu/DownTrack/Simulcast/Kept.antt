-- ===== src/Sfu/DownTrack/Simulcast/Kept.antt =====
-- How many frames of a layered source a track sends.
use ion_sfu.Prelude.{
  ℕ, suc, ◌%◌, ◌≡◌, refl, sym, ◌∙◌, ap, Bool, true, false, ◌&&◌, List, [], ◌∷◌, none, some, ltb,
  ◌==◌, if◌then◌else◌, length, add16, arith, inl, inr, Bool-cases, Option-cases,
}
use ion_sfu.Sfu.DownTrack.{DownTrack, ExtPacket, Effect, update_stats}
use ion_sfu.Sfu.DownTrack.Numbers.{sent, count16, length-count16}
use ion_sfu.Sfu.DownTrack.Simulcast.{
  write_simulcast_rtp, forward_simulcast, send_simulcast, set_vp8_temporal_layer, finish_switch,
  drops, Rewritten, current_layer, current_target_layer,
}
use ion_sfu.Sfu.DownTrack.Simulcast.Gapless.{
  InStep, Stream, simulcast_numbers, steady_write, steady-StepsOn, consecutive_frames,
}

-- Whether a frame is above the temporal layer of a track that rewrites VP8.
unfoldable pub above_layer : (rewrites : Bool) (layer : ℕ) → ExtPacket → Bool
above_layer rewrites layer p =
    let above : Bool = elim p.vp8 [ none ↦ false | some v ↦ ltb layer v.tid ] in rewrites && above

-- The frames that are not above it.
unfoldable pub kept_frames : (rewrites : Bool) (layer : ℕ) → List ExtPacket → ℕ
kept_frames rewrites layer [] = 0
kept_frames rewrites layer (p ∷ ps) =
    let rest = kept_frames rewrites layer ps in
    if above_layer rewrites layer p then rest else suc rest

abbrev pub rewrites : DownTrack → Bool
rewrites d = d.simulcast.temporal_supported && d.is_vp8_mime

-- No switch of the temporal layer is under way.
abbrev pub Settled : DownTrack → Type 0
Settled d = (current_target_layer d == current_layer d) ≡ true

record Steady (d d' : DownTrack) : Type 0 where
  layer : d'.temporal_layer ≡ d.temporal_layer
  vp8 : rewrites d' ≡ rewrites d

send-Steady :
    (d : DownTrack) (p : ExtPacket) (csl new_sn new_ts : ℕ) (r : Rewritten)
    → Steady d (send_simulcast d p csl new_sn new_ts r).1
unfolding send_simulcast update_stats
send-Steady d p csl new_sn new_ts r = record { layer = ground arith; vp8 = ground arith }

dropped_frame :
    (d : DownTrack) (p : ExtPacket)
    → Settled d
    → (rewrites d && (set_vp8_temporal_layer p d).0.drop)
      ≡ above_layer (rewrites d) (current_layer d % 256) p
unfolding set_vp8_temporal_layer drops above_layer
dropped_frame d p h = elim (Option-cases p.vp8) [
  | inl e ↦ rw e refl
  | inr (v, e) ↦ rw e (ground (arith, h))
]

set_vp8_temporal_layer-Steady :
    (d : DownTrack) (p : ExtPacket) → Settled d → Steady d (set_vp8_temporal_layer p d).1
unfolding set_vp8_temporal_layer finish_switch
set_vp8_temporal_layer-Steady d p h = elim (Option-cases p.vp8) [
  | inl e ↦ rw e (record { layer = refl; vp8 = refl })
  | inr (v, e) ↦ rw e (record { layer = ground (arith, h); vp8 = ground (arith, h) })
]

forward_count :
    (d : DownTrack) (p : ExtPacket) (csl : ℕ) (ns : List ℕ)
    → Settled d
    → length (sent (forward_simulcast d p csl).0 ns)
      ≡ (if above_layer (rewrites d) (current_layer d % 256) p then length ns else suc (length ns))
unfolding forward_simulcast send_simulcast sent
forward_count d p csl ns h =
    let dropped = dropped_frame d p h in
    rw⁻¹ dropped (elim (Bool-cases (rewrites d)) [
      | inl t ↦ elim (Bool-cases (set_vp8_temporal_layer p d).0.drop) [
        | inl r ↦ rw (t, r) refl
        | inr r ↦ rw (t, r) refl
      ]
      | inr t ↦ rw t refl
    ])

forward-Steady :
    (d : DownTrack) (p : ExtPacket) (csl : ℕ) → Settled d → Steady d (forward_simulcast d p csl).1
unfolding forward_simulcast
forward-Steady d p csl h =
    let s = set_vp8_temporal_layer-Steady d p h in
    elim (Bool-cases (rewrites d)) [
      | inl t ↦ elim (Bool-cases (set_vp8_temporal_layer p d).0.drop) [
        | inl r ↦ rw (t, r) (record { layer = s.layer; vp8 = s.vp8 })
        | inr r ↦
            let k = send-Steady (set_vp8_temporal_layer p d).1 p csl _ _ _ in
            rw (t, r) (record { layer = k.layer ∙ s.layer; vp8 = k.vp8 ∙ s.vp8 })
      ]
      | inr t ↦ let k = send-Steady d p csl _ _ _ in rw t (record { layer = k.layer; vp8 = k.vp8 })
    ]

same-kept :
    (ps : List ExtPacket) {r r' : Bool} {l l' : ℕ}
    → r ≡ r'
    → l ≡ l'
    → kept_frames r l ps ≡ kept_frames r' l' ps
same-kept ps p q = rw (p, q) refl

length-simulcast_numbers :
    (d : DownTrack) (src : ℕ) (ps : List ExtPacket)
    → InStep d src
    → Stream d src ps
    → Settled d
    → length (simulcast_numbers d ps) ≡ kept_frames (rewrites d) (current_layer d % 256) ps
unfolding simulcast_numbers kept_frames
length-simulcast_numbers d src [] v s h = refl
length-simulcast_numbers d src (p ∷ ps) v (n, s) h =
    let e = write_simulcast_rtp d p d.current_spatial_layer in
    let m = steady-StepsOn d p src v n in
    let go = steady_write d p src v n in
    let k = forward-Steady d p d.current_spatial_layer h in
    let layer : e.1.temporal_layer ≡ d.temporal_layer =
      ap (λ (x : Effect × DownTrack). x.1.temporal_layer) go ∙ k.layer in
    let vp8 : rewrites e.1 ≡ rewrites d =
      ap (λ (x : Effect × DownTrack). rewrites x.1) go ∙ k.vp8 in
    let rest =
      length-simulcast_numbers (write_simulcast_rtp d p d.current_spatial_layer).1 p.sequence_number
        ps m.in_step s (rw layer h)
      ∙ same-kept ps vp8 (ap (λ t. t % 65536 % 256) layer) in
    ap (λ (x : Effect × DownTrack). length (sent x.0 (simulcast_numbers e.1 ps))) go
    ∙ forward_count d p d.current_spatial_layer _ h
    ∙ rw rest refl

-- A layered track in step with its source, no switch of the temporal layer under way, sends exactly the
-- frames that are not above its temporal layer, while the packets of that source arrive in order, and
-- numbers them consecutively after its last number: the frames that it drops leave no gap.
pub simulcast_numbers_count :
    (d : DownTrack) (src : ℕ) (ps : List ExtPacket)
    → InStep d src
    → Stream d src ps
    → Settled d
    → simulcast_numbers d ps
      ≡ count16 (add16 d.last_sn 1) (kept_frames (rewrites d) (current_layer d % 256) ps)
simulcast_numbers_count d src ps v s h =
    let (k, e) = consecutive_frames d src ps v s in
    let many = sym (length-count16 (add16 d.last_sn 1) k) ∙ sym (ap length e) in
    e ∙ ap (count16 (add16 d.last_sn 1)) (many ∙ length-simulcast_numbers d src ps v s h)
