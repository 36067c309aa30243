-- ===== src/Sfu/Receiver/Forwarding/Switching.antt =====
-- pkg/sfu/receiver.go: a track joins a layer, at its subscription or at the end of a switch.
use mathlib.Core.Bool.{false≢true}
use ion_sfu.Prelude.{
  ℕ, ◌≡◌, refl, sym, ap, ◌∙◌, Bool, true, false, ◌||◌, List, [], ◌∷◌, ◌++◌, some, inl, inr, ◌==◌,
  if◌then◌else◌, has, Distinct, arith, Bool-cases, eqb→eq, eqb_refl,
}
use ion_sfu.Sfu.Receiver.{WebRtcReceiver, Track, with_down, listed, with_down}
use ion_sfu.Sfu.DownTrack.{DownTrack}
use ion_sfu.Sfu.DownTrack.Layers.{switch_spatial_layer_done}
use ion_sfu.Sfu.Receiver.Forwarding.{is_stored, with_list, store_down_track, finish_one}
use ion_sfu.Sfu.Receiver.Forwarding.Closing.{id_of}
use ion_sfu.Sfu.Receiver.Forwarding.Placement.{
  layer_at, IsPlaced, IsWithin-IsPlaced, IsDeleted, delete-IsDeleted, has-kept,
}

-- A track at the end of a list.
pub has-snoc : (t x : ℕ) (xs : List ℕ) → has t (xs ++ (x ∷ [])) ≡ has t xs || (x == t)
has-snoc t x [] = ground arith
has-snoc t x (y ∷ xs) = ground (arith, has-snoc t x xs)

Distinct-snoc : (x : ℕ) (xs : List ℕ) → has x xs ≡ false → Distinct xs → Distinct (xs ++ (x ∷ []))
Distinct-snoc x [] h d = (refl, tt)
Distinct-snoc x (y ∷ xs) h d =
    (rw (has-snoc y x xs, d.0) (ground (arith, h)), Distinct-snoc x xs (ground (arith, h)) d.1)

-- The receiver after a track, `d` from now on, has joined a layer.
abbrev pub join : WebRtcReceiver → (layer t : ℕ) → DownTrack → WebRtcReceiver
join v layer t d = with_list (with_down v t d) layer (listed v layer ++ (t ∷ []))

pub listed-join :
    (v : WebRtcReceiver) (layer t : ℕ) (d : DownTrack) (l : ℕ)
    → listed (join v layer t d) l ≡ (if layer == l then listed v layer ++ (t ∷ []) else listed v l)
unfolding with_down with_list listed
listed-join v layer t d l = ground arith

layer-if :
    (b : Bool) (x y : Track)
    → (if b then x else y).down.current_spatial_layer
      ≡ (if b then x.down.current_spatial_layer else y.down.current_spatial_layer)
layer-if true x y = refl
layer-if false x y = refl

pub layer_at-join :
    (v : WebRtcReceiver) (layer t : ℕ) (d : DownTrack) (t' : ℕ)
    → layer_at (join v layer t d) t' ≡ (if t == t' then d.current_spatial_layer else layer_at v t')
unfolding with_down with_list
layer_at-join v layer t d t' = layer-if (t == t') (record (v.tracks t) { down = d }) (v.tracks t')

is_stored-join :
    (v : WebRtcReceiver) (layer t : ℕ) (d : DownTrack) (l : ℕ)
    → is_stored v l ≡ true
    → is_stored (join v layer t d) l ≡ true
unfolding with_down with_list is_stored
is_stored-join v layer t d l h = ground (arith, h)

-- On no layer.
abbrev pub IsAbsent : WebRtcReceiver → ℕ → Type 0
IsAbsent v t = (l : ℕ) → has t (listed v l) ≡ false

join_layer :
    (v : WebRtcReceiver) (layer t : ℕ) (d : DownTrack)
    → d.current_spatial_layer ≡ layer
    → IsPlaced v
    → IsAbsent v t
    → (l t' : ℕ) → has t' (listed (join v layer t d) l) ≡ true
    → layer_at (join v layer t d) t' ≡ l
join_layer v layer t d hd s h l t' =
    rw (layer_at-join v layer t d t', listed-join v layer t d l)
      (elim (Bool-cases (t == t')) [
        | inl e ↦ elim (Bool-cases (layer == l)) [
          | inl e' ↦ rw (e, e') (λ a. hd ∙ eqb→eq layer l e')
          | inr e' ↦
              rw (e, e')
                (λ a.
                  absurd (
                    false≢true
                      (sym (h l) ∙ ap (λ (i : ℕ). has i (listed v l)) (eqb→eq t t' e) ∙ a)))
        ]
        | inr e ↦ elim (Bool-cases (layer == l)) [
          | inl e' ↦
              rw (e, e', has-snoc t' t (listed v layer))
                (λ a. s.on_its_layer layer t' (ground (arith, a, e)) ∙ eqb→eq layer l e')
          | inr e' ↦ rw (e, e') (s.on_its_layer l t')
        ]
      ])

join_once :
    (v : WebRtcReceiver) (layer t : ℕ) (d : DownTrack)
    → IsPlaced v
    → IsAbsent v t
    → (l : ℕ) → Distinct (listed (join v layer t d) l)
join_once v layer t d s h l = rw (listed-join v layer t d l) (elim (Bool-cases (layer == l)) [
  | inl e ↦ rw e (Distinct-snoc t (listed v layer) (h layer) (s.once layer))
  | inr e ↦ rw e (s.once l)
])

join_stored :
    (v : WebRtcReceiver) (layer t : ℕ) (d : DownTrack) (t' : ℕ)
    → d.current_spatial_layer ≡ layer
    → is_stored v layer ≡ true
    → is_stored v (layer_at v t') ≡ true
    → is_stored (join v layer t d) (layer_at (join v layer t d) t') ≡ true
join_stored v layer t d t' hd hs h =
    rw (layer_at-join v layer t d t') (elim (Bool-cases (t == t')) [
      | inl e ↦ rw e (is_stored-join v layer t d d.current_spatial_layer (rw hd hs))
      | inr e ↦ rw e (is_stored-join v layer t d (layer_at v t') h)
    ])

pub join-IsPlaced :
    (v : WebRtcReceiver) (layer t : ℕ) (d : DownTrack)
    → d.current_spatial_layer ≡ layer
    → is_stored v layer ≡ true
    → IsPlaced v
    → IsAbsent v t
    → IsPlaced (join v layer t d)
unfolding with_down with_list
join-IsPlaced v layer t d hd hs s h = record {
  once = join_once v layer t d s h;
  on_its_layer = join_layer v layer t d hd s h;
  available_stored = λ l a. is_stored-join v layer t d l (s.available_stored l a);
  waiting_stored = λ l t' a. join_stored v layer t d t' hd hs (s.waiting_stored l t' a);
}

not_here : {l m : ℕ} (b : Bool) → (b ≡ true → m ≡ l) → (m == l) ≡ false → b ≡ false
not_here true h e = ground (arith, h refl, e)
not_here false h e = refl

-- A track that left its layer is on none.
left-IsAbsent :
    (w left : WebRtcReceiver) (t : ℕ)
    → IsPlaced w
    → IsDeleted w left (layer_at w t) (id_of w t)
    → IsAbsent left t
left-IsAbsent w left t s del l = rw (del.lists l) (elim (Bool-cases (layer_at w t == l)) [
  | inl e ↦
      rw (e, has-kept (id_of w) (id_of w t) t (listed w (layer_at w t)), eqb_refl (id_of w t))
        (ground arith)
  | inr e ↦ rw e (not_here (has t (listed w l)) (s.on_its_layer l t) e)
])

-- The end of a switch: the track is on the new layer.
pub record IsMoved (w w' : WebRtcReceiver) (layer t : ℕ) : Type 0 where
  pub placed : IsPlaced w'
  pub here : has t (listed w' layer) ≡ true
  pub now_at : layer_at w' t ≡ layer
  pub others : (t' : ℕ) → (t == t') ≡ false → layer_at w' t' ≡ layer_at w t'
  pub stored : (l : ℕ) → is_stored w l ≡ true → is_stored w' l ≡ true
  pub still_here :
      (t' : ℕ)
      → (layer_at w t == layer) ≡ false
      → has t' (listed w layer) ≡ true
      → has t' (listed w' layer) ≡ true

pub finish_one-IsMoved :
    (w : WebRtcReceiver) (layer t : ℕ)
    → IsPlaced w
    → is_stored w layer ≡ true
    → is_stored w (layer_at w t) ≡ true
    → (w' : WebRtcReceiver) × (finish_one w layer t ≡ some w') × IsMoved w w' layer t
unfolding finish_one store_down_track switch_spatial_layer_done with_list with_down
finish_one-IsMoved w layer t s hs ht =
    let (left, e, del) = delete-IsDeleted w (layer_at w t) (id_of w t) ht in
    let d = record (left.tracks t).down { current_spatial_layer = layer } in
    let away = left-IsAbsent w left t s del in
    let here = del.within.stored layer hs in
    (
      join left layer t d,
      rw (e, here) refl,
      record {
        placed =
            join-IsPlaced left layer t d refl here (IsWithin-IsPlaced w left del.within s) away;
        here =
            rw
              (
                listed-join left layer t d layer,
                eqb_refl layer,
                has-snoc t t (listed left layer),
                eqb_refl t,
              )
              (ground arith);
        now_at = rw (layer_at-join left layer t d t, eqb_refl t) refl;
        others = λ t' h. rw (layer_at-join left layer t d t', h) (del.within.same_layer t');
        stored = λ l h. is_stored-join left layer t d l (del.within.stored l h);
        still_here = λ t' h h'.
            rw
              (
                listed-join left layer t d layer,
                eqb_refl layer,
                has-snoc t' t (listed left layer),
                del.lists layer,
                h,
                h',
              )
              refl;
      },
    )
