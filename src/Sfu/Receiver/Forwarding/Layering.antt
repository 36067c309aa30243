-- ===== src/Sfu/Receiver/Forwarding/Layering.antt =====
-- pkg/sfu/receiver.go: the tracks stay placed when a layer comes, and when a track is added.
use mathlib.Core.Bool.{false≢true}
use ion_sfu.Prelude.{
  ℕ, ◌≡◌, refl, sym, ap, ◌∙◌, Bool, true, false, not, ◌&&◌, ◌||◌, List, [], ◌∷◌, Option, none, some,
  inl, inr, ◌==◌, get_or, set, if◌then◌else◌, has, Distinct, arith, Bool-cases, eqb_refl, if_both,
  get_or-set-cases,
}
use ion_sfu.Sfu.Receiver.{
  WebRtcReceiver, Rid, layer_of, listed, with_down, switch_track, switch_tracks, switch_layers,
  lower_layers, higher_layers, open_layer, add_up_track, pick_layer,
}
use ion_sfu.Sfu.DownTrack.{DownTrack}
use ion_sfu.Sfu.DownTrack.Layers.{switch_spatial_layer, set_initial_layers}
use ion_sfu.Sfu.Receiver.Forwarding.{
  is_stored, with_list, add_down_track, store_down_track, joined, chosen_layer,
}
use ion_sfu.Sfu.Receiver.Forwarding.Placement.{layer_at, IsPlaced, layer_kept}
use ion_sfu.Sfu.Receiver.Forwarding.Switching.{join, join-IsPlaced, IsAbsent}
use ion_sfu.Sfu.Receiver.Forwarding.Changes.{switch-IsWish, wish-IsPlaced}
use ion_sfu.Sfu.Receiver.Forwarding.Finishing.{AllStored}

-- The lists and the layers of the tracks are the same.
record IsAlike (w w' : WebRtcReceiver) : Type 0 where
  layers : (t : ℕ) → layer_at w' t ≡ layer_at w t
  lists : w'.down_tracks ≡ w.down_tracks

pub same_stored :
    (w w' : WebRtcReceiver) (l : ℕ)
    → w'.down_tracks ≡ w.down_tracks
    → is_stored w' l ≡ is_stored w l
unfolding is_stored
same_stored w w' l h = rw h refl

alike-AllStored :
    (w w' : WebRtcReceiver) (ts : List ℕ) → IsAlike w w' → AllStored w ts → AllStored w' ts
alike-AllStored w w' [] a h = tt
alike-AllStored w w' (t ∷ ts) a h = (
  same_stored w w' (layer_at w' t) a.lists ∙ ap (is_stored w) (a.layers t) ∙ h.0,
  alike-AllStored w w' ts a h.1,
)

pub switch_track-IsPlaced :
    (w : WebRtcReceiver) (t layer : ℕ) (b : Bool)
    → is_stored w (layer_at w t) ≡ true
    → IsPlaced w
    → IsPlaced (switch_track w t layer b)
unfolding switch_track
switch_track-IsPlaced w t layer b h s =
    let (e, d, gate) = switch_spatial_layer (w.tracks t).down w.gate t layer b in
    wish-IsPlaced w t d gate layer e (switch-IsWish (w.tracks t).down w.gate t layer b) h s

switch_track-IsAlike :
    (w : WebRtcReceiver) (t layer : ℕ) (b : Bool) → IsAlike w (switch_track w t layer b)
unfolding switch_track with_down
switch_track-IsAlike w t layer b =
    let r = switch-IsWish (w.tracks t).down w.gate t layer b in
    let d = (switch_spatial_layer (w.tracks t).down w.gate t layer b).1 in
    record {
      layers = λ t'. layer_kept w.tracks t (record (w.tracks t) { down = d }) t' r.same_layer;
      lists = refl;
    }

IsAlike-trans : (u v w : WebRtcReceiver) → IsAlike u v → IsAlike v w → IsAlike u w
IsAlike-trans u v w a b = record {
  layers = λ t. b.layers t ∙ a.layers t;
  lists = b.lists ∙ a.lists;
}

switch_tracks-IsPlaced :
    (ts : List ℕ) (layer : ℕ) (w : WebRtcReceiver)
    → AllStored w ts
    → IsPlaced w
    → IsPlaced (switch_tracks ts layer w) × IsAlike w (switch_tracks ts layer w)
unfolding switch_tracks
switch_tracks-IsPlaced [] layer w h s = (s, record { layers = λ t. refl; lists = refl })
switch_tracks-IsPlaced (t ∷ ts) layer w h s =
    let v = switch_track w t layer false in
    let a = switch_track-IsAlike w t layer false in
    let r =
      switch_tracks-IsPlaced ts layer v (alike-AllStored w v ts a h.1)
        (switch_track-IsPlaced w t layer false h.0 s) in
    (r.0, IsAlike-trans w v (switch_tracks ts layer v) a r.1)

stored_if :
    (o : Option (List ℕ)) (t : ℕ)
    → has t (elim o as (λ z. List ℕ) [ none ↦ [] | some ts ↦ ts ]) ≡ true
    → (elim o as (λ z. Bool) [ none ↦ false | some ts ↦ true ]) ≡ true
stored_if none t h = absurd (false≢true h)
stored_if (some ts) t h = refl

-- A track that stands on a layer stands on one with a list.
stored_of_has : (w : WebRtcReceiver) (l t : ℕ) → has t (listed w l) ≡ true → is_stored w l ≡ true
unfolding listed is_stored
stored_of_has w l t h = stored_if (w.down_tracks l) t h

pub AllStored-of-has :
    (w : WebRtcReceiver) (ts : List ℕ)
    → ((t : ℕ) → has t ts ≡ true → is_stored w (layer_at w t) ≡ true)
    → AllStored w ts
AllStored-of-has w [] h = tt
AllStored-of-has w (t ∷ ts) h =
    (h t (rw (eqb_refl t) refl), AllStored-of-has w ts (λ t' a. h t' (ground (arith, a))))

AllStored-listed : (w : WebRtcReceiver) (l : ℕ) → IsPlaced w → AllStored w (listed w l)
AllStored-listed w l s =
    AllStored-of-has w (listed w l)
      (λ t h. ap (is_stored w) (s.on_its_layer l t h) ∙ stored_of_has w l t h)

switch_layers-IsPlaced :
    (ls : List ℕ) (layer : ℕ) (w : WebRtcReceiver)
    → IsPlaced w
    → IsPlaced (switch_layers ls layer w)
unfolding switch_layers
switch_layers-IsPlaced [] layer w s = s
switch_layers-IsPlaced (l ∷ ls) layer w s =
    switch_layers-IsPlaced ls layer (switch_tracks (listed w l) layer w)
      (switch_tracks-IsPlaced (listed w l) layer w (AllStored-listed w l s) s).0

listed-open_layer :
    (w : WebRtcReceiver) (layer s l : ℕ)
    → listed (open_layer w layer s) l ≡ (if layer == l then [] else listed w l)
unfolding open_layer listed
listed-open_layer w layer s l = ground arith

is_stored-open_layer :
    (w : WebRtcReceiver) (layer s l : ℕ)
    → is_stored (open_layer w layer s) l ≡ (if layer == l then true else is_stored w l)
unfolding open_layer is_stored
is_stored-open_layer w layer s l = ground arith

open_once :
    (w : WebRtcReceiver) (layer s l : ℕ)
    → Distinct (listed w l)
    → Distinct (listed (open_layer w layer s) l)
open_once w layer s l h =
    rw (listed-open_layer w layer s l) (if_both Distinct (layer == l) [] (listed w l) tt h)

open_fewer :
    (w : WebRtcReceiver) (layer s l t : ℕ)
    → has t (listed (open_layer w layer s) l) ≡ true
    → has t (listed w l) ≡ true
open_fewer w layer s l t = rw (listed-open_layer w layer s l) (
    if_both (λ (ts : List ℕ). has t ts ≡ true → has t (listed w l) ≡ true) (layer == l) []
      (listed w l) (λ h. absurd (false≢true h)) (λ h. h))

open_stored :
    (w : WebRtcReceiver) (layer s l : ℕ)
    → is_stored w l ≡ true
    → is_stored (open_layer w layer s) l ≡ true
open_stored w layer s l h = rw (is_stored-open_layer w layer s l) (ground (arith, h))

open_available :
    (w : WebRtcReceiver) (layer s l : ℕ)
    → (get_or w.gate.available l false ≡ true → is_stored w l ≡ true)
    → get_or (set w.gate.available layer true) l false ≡ true
    → is_stored (open_layer w layer s) l ≡ true
open_available w layer s l h a = elim (get_or-set-cases w.gate.available layer l true false) [
  | inl c ↦ rw (is_stored-open_layer w layer s l, c.1, eqb_refl l) refl
  | inr c ↦ open_stored w layer s l (h (sym c ∙ a))
]

open_waiting :
    (ps : List (List ℕ)) (layer l t : ℕ)
    → has t (get_or (set ps layer []) l []) ≡ true
    → has t (get_or ps l []) ≡ true
open_waiting ps layer l t a = elim (get_or-set-cases ps layer l [] []) [
  | inl c ↦ absurd (false≢true (sym (ap (has t) c.0) ∙ a))
  | inr c ↦ sym (ap (has t) c) ∙ a
]

-- An empty list for a layer, which is available from now on.
open_layer-IsPlaced :
    (w : WebRtcReceiver) (layer s : ℕ) → IsPlaced w → IsPlaced (open_layer w layer s)
unfolding open_layer
open_layer-IsPlaced w layer s p = record {
  once = λ l. open_once w layer s l (p.once l);
  on_its_layer = λ l t a. p.on_its_layer l t (open_fewer w layer s l t a);
  available_stored = λ l. open_available w layer s l (p.available_stored l);
  waiting_stored = λ l t a.
      open_stored w layer s (layer_at w t)
        (p.waiting_stored l t (open_waiting w.gate.pending_tracks layer l t a));
}

pub add_up_track-IsPlaced :
    (w : WebRtcReceiver) (rid : Rid) (s : ℕ) (best : Bool)
    → IsPlaced w
    → IsPlaced (add_up_track w rid s best)
unfolding add_up_track
add_up_track-IsPlaced w rid s best p =
    let layer = layer_of rid in
    let opened = open_layer w layer s in
    let lower = switch_layers (lower_layers rid) layer opened in
    let higher = switch_layers (higher_layers rid) layer opened in
    let wants_best = best && (not (get_or opened.gate.available 2 false) || (layer == 2)) in
    let wants_low = not best && (not (get_or opened.gate.available 0 false) || (layer == 0)) in
    let lowered = if wants_low then higher else opened in
    let switched = if wants_best then lower else lowered in
    let o = open_layer-IsPlaced w layer s p in
    if_both IsPlaced w.gate.closed w (if not w.is_simulcast then opened else switched) p (
      if_both IsPlaced (not w.is_simulcast) opened switched o (
        if_both IsPlaced wants_best lower lowered
          (switch_layers-IsPlaced (lower_layers rid) layer opened o)
          (if_both IsPlaced wants_low higher opened
            (switch_layers-IsPlaced (higher_layers rid) layer opened o) o)))

joined_layer :
    (b : Bool) (d x y : DownTrack) (n : ℕ)
    → x.current_spatial_layer ≡ (if b then n else 0)
    → y.current_spatial_layer ≡ 0
    → (if b then x else y).current_spatial_layer ≡ (if b then n else 0)
joined_layer true d x y n hx hy = hx
joined_layer false d x y n hx hy = hy

joined-layer :
    (w : WebRtcReceiver) (best : Bool) (d : DownTrack)
    → (joined w (chosen_layer w best) d).current_spatial_layer ≡ chosen_layer w best
unfolding joined chosen_layer set_initial_layers
joined-layer w best d =
    joined_layer w.is_simulcast d _ _ (pick_layer w.gate.available 0 0 best) refl refl

store-join :
    (w : WebRtcReceiver) (layer t : ℕ) (d : DownTrack)
    → is_stored w layer ≡ true
    → store_down_track (with_down w t d) layer t ≡ some (join w layer t d)
unfolding store_down_track with_down listed is_stored with_list
store-join w layer t d h = rw h refl

pub add_down_track-IsPlaced :
    (w : WebRtcReceiver) (t : ℕ) (best : Bool)
    → IsPlaced w
    → IsAbsent w t
    → is_stored w (chosen_layer w best) ≡ true
    → (w' : WebRtcReceiver) × (add_down_track w t best ≡ some w') × IsPlaced w'
unfolding add_down_track
add_down_track-IsPlaced w t best p h hs = elim (Bool-cases w.gate.closed) [
  | inl e ↦ (w, rw e refl, p)
  | inr e ↦ (
    join w (chosen_layer w best) t (joined w (chosen_layer w best) (w.tracks t).down),
    simp (
      e,
      hs,
      h (chosen_layer w best),
      store-join w (chosen_layer w best) t (joined w (chosen_layer w best) (w.tracks t).down) hs,
    ),
    join-IsPlaced w (chosen_layer w best) t (joined w (chosen_layer w best) (w.tracks t).down)
        (joined-layer w best (w.tracks t).down) hs p h,
  )
]
