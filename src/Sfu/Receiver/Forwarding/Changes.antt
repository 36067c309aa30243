-- ===== src/Sfu/Receiver/Forwarding/Changes.antt =====
-- pkg/sfu/receiver.go and pkg/sfu/downtrack.go: what the wish of a track for a layer changes.
use ion_sfu.Prelude.{
  ℕ, ◌≡◌, ◌⊎◌, refl, sym, ap, ◌∙◌, Bool, true, false, not, ◌||◌, List, [], ◌∷◌, ◌++◌, Option, none,
  some, inl, inr, ◌==◌, get_or, set, if◌then◌else◌, has, arith, Bool-cases, eqb→eq, if_both,
  get_or-set-cases,
}
use ion_sfu.Sfu.Receiver.{WebRtcReceiver, listed, with_down}
use ion_sfu.Sfu.DownTrack.{DownTrack, DownTrackType, simple_down_track, simulcast_down_track}
use ion_sfu.Sfu.DownTrack.Layers.{
  Receiver, SwitchError, spatial_layer_busy, spatial_not_supported, switch_down_track,
  switch_spatial_layer,
}
use ion_sfu.Sfu.Receiver.Forwarding.{is_stored}
use ion_sfu.Sfu.Receiver.Forwarding.Placement.{layer_at, IsPlaced, layer_kept}
use ion_sfu.Sfu.Receiver.Forwarding.Switching.{has-snoc}

-- What a wish for a layer may change: the track's target, and the tracks that wait for the layer.
pub record IsWish (d : DownTrack) (w : Receiver) (t layer : ℕ)
    (r : Option SwitchError × DownTrack × Receiver) : Type 0 where
  pub same_layer : r.1.current_spatial_layer ≡ d.current_spatial_layer
  pub same_available : r.2.available ≡ w.available
  pub waiting :
      (r.2.pending_tracks ≡ w.pending_tracks)
      ⊎ (r.2.pending_tracks
          ≡ set w.pending_tracks layer (get_or w.pending_tracks layer [] ++ (t ∷ [])))

unchanged-IsWish :
    (d : DownTrack) (w : Receiver) (t layer : ℕ) (e : Option SwitchError)
    → IsWish d w t layer (e, d, w)
unchanged-IsWish d w t layer e = record {
  same_layer = refl;
  same_available = refl;
  waiting = inl refl;
}

-- The receiver's part, whether it accepts the wish or not.
accepted-IsWish :
    (d d' : DownTrack) (w : Receiver) (t layer : ℕ) (e : Option SwitchError)
    → d'.current_spatial_layer ≡ d.current_spatial_layer
    → IsWish d w t layer (e, d', (switch_down_track w t layer).1)
unfolding switch_down_track
accepted-IsWish d d' w t layer e h =
    elim (Bool-cases (w.closed || not (get_or w.available layer false))) [
      | inl r ↦ record { same_layer = h; same_available = rw r refl; waiting = inl (rw r refl) }
      | inr r ↦ record { same_layer = h; same_available = rw r refl; waiting = inr (rw r refl) }
    ]

by_type-IsWish :
    (d : DownTrack) (w : Receiver) (t layer : ℕ) (ty : DownTrackType)
    (x y : Option SwitchError × DownTrack × Receiver)
    → IsWish d w t layer x
    → IsWish d w t layer y
    → IsWish d w t layer (elim ty as (λ z. Option SwitchError × DownTrack × Receiver) [
      | simple_down_track ↦ x
      | simulcast_down_track ↦ y
    ])
by_type-IsWish d w t layer simple_down_track x y hx hy = hx
by_type-IsWish d w t layer simulcast_down_track x y hx hy = hy

pub switch-IsWish :
    (d : DownTrack) (w : Receiver) (t layer : ℕ) (b : Bool)
    → IsWish d w t layer (switch_spatial_layer d w t layer b)
unfolding switch_spatial_layer
switch-IsWish d w t layer b =
    let P = IsWish d w t layer in
    let (accepted, w') = switch_down_track w t layer in
    let aimed = record d { target_spatial_layer = layer } in
    let limited = if b then record aimed { max_spatial_layer = layer } else aimed in
    let same : limited.current_spatial_layer ≡ d.current_spatial_layer = ground arith in
    let busy = unchanged-IsWish d w t layer (some spatial_layer_busy) in
    let csl = d.current_spatial_layer in
    let answered = if accepted then (none, limited, w') else (none, d, w') in
    by_type-IsWish d w t layer d.track_type (some spatial_not_supported, d, w)
      (if not (csl == d.target_spatial_layer) || (csl == layer)
        then (some spatial_layer_busy, d, w)
        else answered)
      (unchanged-IsWish d w t layer (some spatial_not_supported))
      (if_both P (not (csl == d.target_spatial_layer) || (csl == layer))
        (some spatial_layer_busy, d, w) answered busy
        (if_both P accepted (none, limited, w') (none, d, w')
          (accepted-IsWish d limited w t layer none same)
          (accepted-IsWish d d w t layer none refl)))

-- A track that waits for a layer is one that waited before, or the one that asked.
waits_or_asked :
    (ps qs : List (List ℕ)) (layer t l t' : ℕ)
    → (qs ≡ ps) ⊎ (qs ≡ set ps layer (get_or ps layer [] ++ (t ∷ [])))
    → has t' (get_or qs l []) ≡ true
    → (has t' (get_or ps l []) ≡ true) ⊎ (t ≡ t')
waits_or_asked ps qs layer t l t' (inl e) h =
    inl (sym (ap (λ (zs : List (List ℕ)). has t' (get_or zs l [])) e) ∙ h)
waits_or_asked ps qs layer t l t' (inr e) h =
    let xs = get_or ps layer [] ++ (t ∷ []) in
    let h' = sym (ap (λ (zs : List (List ℕ)). has t' (get_or zs l [])) e) ∙ h in
    elim (get_or-set-cases ps layer l xs []) [
      | inr c ↦ inl (sym (ap (has t') c) ∙ h')
      | inl c ↦ elim (Bool-cases (t == t')) [
        | inl e' ↦ inr (eqb→eq t t' e')
        | inr e' ↦ inl (
            rw⁻¹ c.1
              (ground (arith, e', has-snoc t' t (get_or ps layer []), sym (ap (has t') c.0) ∙ h')))
      ]
    ]

-- A wish leaves the lists and the layers of the tracks as they are.
pub wish-IsPlaced :
    (w : WebRtcReceiver) (t : ℕ) (d : DownTrack) (gate : Receiver) (layer : ℕ)
    (e : Option SwitchError)
    → IsWish (w.tracks t).down w.gate t layer (e, d, gate)
    → is_stored w (layer_at w t) ≡ true
    → IsPlaced w
    → IsPlaced (with_down (record w { gate = gate }) t d)
unfolding with_down listed is_stored
wish-IsPlaced w t d gate layer e r h s = record {
  once = s.once;
  on_its_layer = λ l t' a.
      layer_kept w.tracks t (record (w.tracks t) { down = d }) t' r.same_layer
      ∙ s.on_its_layer l t' a;
  available_stored = λ l a.
      s.available_stored l (sym (ap (λ (zs : List Bool). get_or zs l false) r.same_available) ∙ a);
  waiting_stored = λ l t' a.
      ap (is_stored w) (layer_kept w.tracks t (record (w.tracks t) { down = d }) t' r.same_layer)
      ∙ elim (waits_or_asked w.gate.pending_tracks gate.pending_tracks layer t l t' r.waiting a) [
        | inl b ↦ s.waiting_stored l t' b
        | inr b ↦ ap (λ (i : ℕ). is_stored w (layer_at w i)) (sym b) ∙ h
      ];
}
