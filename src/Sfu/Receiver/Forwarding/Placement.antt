-- ===== src/Sfu/Receiver/Forwarding/Placement.antt =====
-- Where the tracks of a receiver stand: the invariant, and the calls that add nothing to a layer.
use ion_sfu.Prelude.{
  ℕ, ◌≡◌, refl, sym, ap, ◌∙◌, true, false, not, ◌&&◌, List, [], ◌∷◌, ◌++◌, some, inl, inr, ◌==◌,
  get_or, if◌then◌else◌, has, update, Distinct, arith, Bool-cases, eqb→eq,
}
use ion_sfu.Sfu.Receiver.{
  WebRtcReceiver, Track, Event, closed_track, emit, with_down, close, listed,
}
use ion_sfu.Sfu.DownTrack.{DownTrack}
use ion_sfu.Sfu.Receiver.Forwarding.Closing.{
  id_of, is_closed, close-down_tracks, close-id, delete_loop-closes,
}
use ion_sfu.Sfu.Receiver.Forwarding.{is_stored, with_list, delete_loop, delete_down_track}

-- The layer that a track forwards.
abbrev pub layer_at : WebRtcReceiver → ℕ → ℕ
layer_at w t = (w.tracks t).down.current_spatial_layer

-- A track stands at most once on a layer, only on the layer that it forwards; an available layer has
-- a list, and so has the layer of a track that waits for a switch.
pub record IsPlaced (w : WebRtcReceiver) : Type 0 where
  pub once : (l : ℕ) → Distinct (listed w l)
  pub on_its_layer : (l t : ℕ) → has t (listed w l) ≡ true → layer_at w t ≡ l
  pub available_stored : (l : ℕ) → get_or w.gate.available l false ≡ true → is_stored w l ≡ true
  pub waiting_stored :
      (l t : ℕ)
      → has t (get_or w.gate.pending_tracks l []) ≡ true
      → is_stored w (layer_at w t) ≡ true

-- `w'` has no track on a layer, and none that waits, that `w` has not.
pub record IsWithin (w w' : WebRtcReceiver) : Type 0 where
  pub same_layer : (t : ℕ) → layer_at w' t ≡ layer_at w t
  pub fewer : (l t : ℕ) → has t (listed w' l) ≡ true → has t (listed w l) ≡ true
  pub still_once : (l : ℕ) → Distinct (listed w l) → Distinct (listed w' l)
  pub stored : (l : ℕ) → is_stored w l ≡ true → is_stored w' l ≡ true
  pub available :
      (l : ℕ) → get_or w'.gate.available l false ≡ true → get_or w.gate.available l false ≡ true
  pub fewer_wait :
      (l t : ℕ)
      → has t (get_or w'.gate.pending_tracks l []) ≡ true
      → has t (get_or w.gate.pending_tracks l []) ≡ true

pub IsWithin-refl : (w : WebRtcReceiver) → IsWithin w w
IsWithin-refl w = record {
  same_layer = λ t. refl;
  fewer = λ l t h. h;
  still_once = λ l h. h;
  stored = λ l h. h;
  available = λ l h. h;
  fewer_wait = λ l t h. h;
}

pub IsWithin-trans : (u v w : WebRtcReceiver) → IsWithin u v → IsWithin v w → IsWithin u w
IsWithin-trans u v w a b = record {
  same_layer = λ t. b.same_layer t ∙ a.same_layer t;
  fewer = λ l t h. a.fewer l t (b.fewer l t h);
  still_once = λ l h. b.still_once l (a.still_once l h);
  stored = λ l h. b.stored l (a.stored l h);
  available = λ l h. a.available l (b.available l h);
  fewer_wait = λ l t h. a.fewer_wait l t (b.fewer_wait l t h);
}

pub IsWithin-IsPlaced : (w w' : WebRtcReceiver) → IsWithin w w' → IsPlaced w → IsPlaced w'
IsWithin-IsPlaced w w' a s = record {
  once = λ l. a.still_once l (s.once l);
  on_its_layer = λ l t h. a.same_layer t ∙ s.on_its_layer l t (a.fewer l t h);
  available_stored = λ l h. a.stored l (s.available_stored l (a.available l h));
  waiting_stored = λ l t h.
      rw (a.same_layer t) (a.stored (layer_at w t) (s.waiting_stored l t (a.fewer_wait l t h)));
}

-- The layers of the tracks say whether a receiver is within one with the same lists and gate.
pub same_lists :
    (w : WebRtcReceiver) (tracks : ℕ → Track) (es : List Event) (last_pli : ℕ)
    → ((t : ℕ) → (tracks t).down.current_spatial_layer ≡ layer_at w t)
    → IsWithin w (record w { tracks = tracks; events = es; last_pli = last_pli })
unfolding listed is_stored
same_lists w tracks es last_pli h = record {
  same_layer = h;
  fewer = λ l t h. h;
  still_once = λ l h. h;
  stored = λ l h. h;
  available = λ l h. h;
  fewer_wait = λ l t h. h;
}

pub emit-IsWithin : (w : WebRtcReceiver) (e : Event) → IsWithin w (emit w e)
unfolding emit
emit-IsWithin w e = same_lists w w.tracks (w.events ++ (e ∷ [])) w.last_pli (λ t. refl)

-- A write to the heap that keeps the layer of the track.
pub layer_kept :
    (f : ℕ → Track) (t : ℕ) (v : Track) (t' : ℕ)
    → v.down.current_spatial_layer ≡ (f t).down.current_spatial_layer
    → (update f t v t').down.current_spatial_layer ≡ (f t').down.current_spatial_layer
layer_kept f t v t' h = elim (Bool-cases (t == t')) [
  | inl e ↦ rw e (h ∙ ap (λ (i : ℕ). (f i).down.current_spatial_layer) (eqb→eq t t' e))
  | inr e ↦ rw e refl
]

pub with_down-IsWithin :
    (w : WebRtcReceiver) (t : ℕ) (d : DownTrack)
    → d.current_spatial_layer ≡ layer_at w t
    → IsWithin w (with_down w t d)
unfolding with_down
with_down-IsWithin w t d h =
    same_lists w (with_down w t d).tracks w.events w.last_pli
      (λ t'. layer_kept w.tracks t (record (w.tracks t) { down = d }) t' h)

pub close-IsWithin : (w : WebRtcReceiver) (t : ℕ) → IsWithin w (close w t)
unfolding close emit
close-IsWithin w t = elim (Bool-cases (w.tracks t).is_closed) [
  | inl e ↦ rw e (IsWithin-refl w)
  | inr e ↦ rw e (
      same_lists w (update w.tracks t (record (w.tracks t) { is_closed = true }))
        (w.events ++ (closed_track t ∷ [])) w.last_pli
        (λ t'. layer_kept w.tracks t (record (w.tracks t) { is_closed = true }) t' refl))
]

-- The tracks of a list without an id.
abbrev pub kept : (ℕ → ℕ) → ℕ → List ℕ → List ℕ
kept id_of id [] = []
kept id_of id (t ∷ ts) = let rest = kept id_of id ts in if id_of t == id then rest else t ∷ rest

pub has-kept :
    (f : ℕ → ℕ) (id t : ℕ) (ts : List ℕ) → has t (kept f id ts) ≡ has t ts && not (f t == id)
has-kept f id t [] = refl
has-kept f id t (x ∷ ts) = elim (Bool-cases (x == t)) [
  | inl e ↦ rw (eqb→eq x t e) (ground (arith, has-kept f id t ts))
  | inr e ↦ ground (arith, e, has-kept f id t ts)
]

has-of-kept : (f : ℕ → ℕ) (id t : ℕ) (ts : List ℕ) → has t (kept f id ts) ≡ true → has t ts ≡ true
has-of-kept f id t ts h = ground (arith, h, has-kept f id t ts)

kept-Distinct : (f : ℕ → ℕ) (id : ℕ) (ts : List ℕ) → Distinct ts → Distinct (kept f id ts)
kept-Distinct f id [] h = h
kept-Distinct f id (x ∷ ts) h = elim (Bool-cases (f x == id)) [
  | inl e ↦ rw e (kept-Distinct f id ts h.1)
  | inr e ↦ rw e (rw (has-kept f id x ts, h.0) refl, kept-Distinct f id ts h.1)
]

kept-same :
    (f g : ℕ → ℕ) (id : ℕ) (ts : List ℕ) → ((t : ℕ) → f t ≡ g t) → kept f id ts ≡ kept g id ts
kept-same f g id [] h = refl
kept-same f g id (t ∷ ts) h = rw (h t, kept-same f g id ts h) refl

pub delete_loop_kept :
    (ts : List ℕ) (id : ℕ) (w : WebRtcReceiver) → (delete_loop ts id w).0 ≡ kept (id_of w) id ts
unfolding delete_loop
delete_loop_kept [] id w = refl
delete_loop_kept (t ∷ ts) id w = elim (Bool-cases ((w.tracks t).id == id)) [
  | inl e ↦ rw e (
      delete_loop_kept ts id (close w t)
      ∙ kept-same (id_of (close w t)) (id_of w) id ts (close-id w t))
  | inr e ↦ rw e (ap (λ (xs : List ℕ). t ∷ xs) (delete_loop_kept ts id w))
]

delete_loop-down_tracks :
    (ts : List ℕ) (id : ℕ) (w : WebRtcReceiver)
    → (delete_loop ts id w).1.down_tracks ≡ w.down_tracks
unfolding delete_loop
delete_loop-down_tracks [] id w = refl
delete_loop-down_tracks (t ∷ ts) id w = elim (Bool-cases ((w.tracks t).id == id)) [
  | inl e ↦ rw e (delete_loop-down_tracks ts id (close w t) ∙ close-down_tracks w t)
  | inr e ↦ rw e (delete_loop-down_tracks ts id w)
]

pub delete_loop-IsWithin :
    (ts : List ℕ) (id : ℕ) (w : WebRtcReceiver) → IsWithin w (delete_loop ts id w).1
unfolding delete_loop
delete_loop-IsWithin [] id w = IsWithin-refl w
delete_loop-IsWithin (t ∷ ts) id w = elim (Bool-cases ((w.tracks t).id == id)) [
  | inl e ↦ rw e (
      IsWithin-trans w (close w t) (delete_loop ts id (close w t)).1 (close-IsWithin w t)
        (delete_loop-IsWithin ts id (close w t)))
  | inr e ↦ rw e (delete_loop-IsWithin ts id w)
]

-- The list of a layer after a write, and whether there is one.
pub listed-with_list :
    (w : WebRtcReceiver) (l : ℕ) (ts : List ℕ) (l' : ℕ)
    → listed (with_list w l ts) l' ≡ (if l == l' then ts else listed w l')
unfolding with_list listed
listed-with_list w l ts l' = ground arith

pub is_stored-with_list :
    (w : WebRtcReceiver) (l : ℕ) (ts : List ℕ) (l' : ℕ)
    → is_stored (with_list w l ts) l' ≡ (if l == l' then true else is_stored w l')
unfolding with_list is_stored
is_stored-with_list w l ts l' = ground arith

-- A shorter list for one layer.
with_list-fewer :
    (w : WebRtcReceiver) (l : ℕ) (ts : List ℕ)
    → ((t : ℕ) → has t ts ≡ true → has t (listed w l) ≡ true)
    → (l' t : ℕ) → has t (listed (with_list w l ts) l') ≡ true
    → has t (listed w l') ≡ true
with_list-fewer w l ts sub l' t = elim (Bool-cases (l == l')) [
  | inl e ↦ rw (listed-with_list w l ts l', e, sym (eqb→eq l l' e)) (sub t)
  | inr e ↦ rw (listed-with_list w l ts l', e) (λ h. h)
]

with_list-Distinct :
    (w : WebRtcReceiver) (l : ℕ) (ts : List ℕ)
    → (Distinct (listed w l) → Distinct ts)
    → (l' : ℕ) → Distinct (listed w l')
    → Distinct (listed (with_list w l ts) l')
with_list-Distinct w l ts dis l' = elim (Bool-cases (l == l')) [
  | inl e ↦ rw (listed-with_list w l ts l', e, sym (eqb→eq l l' e)) dis
  | inr e ↦ rw (listed-with_list w l ts l', e) (λ h. h)
]

with_list-stored :
    (w : WebRtcReceiver) (l : ℕ) (ts : List ℕ) (l' : ℕ)
    → is_stored w l' ≡ true
    → is_stored (with_list w l ts) l' ≡ true
with_list-stored w l ts l' h = rw (is_stored-with_list w l ts l') (ground (arith, h))

with_list-IsWithin :
    (w : WebRtcReceiver) (l : ℕ) (ts : List ℕ)
    → ((t : ℕ) → has t ts ≡ true → has t (listed w l) ≡ true)
    → (Distinct (listed w l) → Distinct ts)
    → IsWithin w (with_list w l ts)
unfolding with_list
with_list-IsWithin w l ts sub dis = record {
  same_layer = λ t. refl;
  fewer = with_list-fewer w l ts sub;
  still_once = with_list-Distinct w l ts dis;
  stored = with_list-stored w l ts;
  available = λ l' h. h;
  fewer_wait = λ l' t h. h;
}

pub same_listed :
    (w v : WebRtcReceiver) (l : ℕ) → w.down_tracks ≡ v.down_tracks → listed w l ≡ listed v l
unfolding listed
same_listed w v l h = rw h refl

abbrev after_loop : WebRtcReceiver → (l id : ℕ) → WebRtcReceiver
after_loop w l id = (delete_loop (listed w l) id w).1

abbrev kept_by : WebRtcReceiver → (l id : ℕ) → List ℕ
kept_by w l id = (delete_loop (listed w l) id w).0

listed-after_loop : (w : WebRtcReceiver) (l id l' : ℕ) → listed (after_loop w l id) l' ≡ listed w l'
listed-after_loop w l id l' =
    same_listed (after_loop w l id) w l' (delete_loop-down_tracks (listed w l) id w)

kept_fewer :
    (w : WebRtcReceiver) (l id t : ℕ)
    → has t (kept_by w l id) ≡ true
    → has t (listed (after_loop w l id) l) ≡ true
kept_fewer w l id t =
    rw (listed-after_loop w l id l, delete_loop_kept (listed w l) id w)
      (has-of-kept (id_of w) id t (listed w l))

kept_once :
    (w : WebRtcReceiver) (l id : ℕ)
    → Distinct (listed (after_loop w l id) l)
    → Distinct (kept_by w l id)
kept_once w l id =
    rw (listed-after_loop w l id l, delete_loop_kept (listed w l) id w)
      (kept-Distinct (id_of w) id (listed w l))

kept_lists :
    (w : WebRtcReceiver) (l id l' : ℕ)
    → listed (with_list (after_loop w l id) l (kept_by w l id)) l'
      ≡ (if l == l' then kept (id_of w) id (listed w l) else listed w l')
kept_lists w l id l' =
    rw
      (
        listed-with_list (after_loop w l id) l (kept_by w l id) l',
        listed-after_loop w l id l',
        delete_loop_kept (listed w l) id w,
      )
      refl

-- A delete where there is a list: the tracks without the id stay.
pub record IsDeleted (w w' : WebRtcReceiver) (l id : ℕ) : Type 0 where
  pub within : IsWithin w w'
  pub lists :
      (l' : ℕ) → listed w' l' ≡ (if l == l' then kept (id_of w) id (listed w l) else listed w l')
  pub closes : (t : ℕ) → has t (listed w l) ≡ true → id_of w t ≡ id → is_closed w' t ≡ true

pub delete-IsDeleted :
    (w : WebRtcReceiver) (l id : ℕ)
    → is_stored w l ≡ true
    → (w' : WebRtcReceiver) × (delete_down_track w l id ≡ some w') × IsDeleted w w' l id
unfolding delete_down_track with_list
delete-IsDeleted w l id h =
    let v = (delete_loop (listed w l) id w).1 in
    let ts = (delete_loop (listed w l) id w).0 in
    (
      with_list v l ts,
      rw h refl,
      record {
        within =
            IsWithin-trans w v (with_list v l ts) (delete_loop-IsWithin (listed w l) id w)
              (with_list-IsWithin v l ts (kept_fewer w l id) (kept_once w l id));
        lists = λ l'. kept_lists w l id l';
        closes = delete_loop-closes (listed w l) id w;
      },
    )
