-- ===== src/Sfu/Receiver/Forwarding/Closing.antt =====
-- pkg/sfu/receiver.go and pkg/sfu/downtrack.go: what a close changes.
use mathlib.Core.Bool.{false≢true}
use ion_sfu.Prelude.{
  ℕ, ◌≡◌, refl, sym, ap, ◌∙◌, Bool, true, List, [], ◌∷◌, inl, inr, ◌==◌, if◌then◌else◌, if_both,
  has, update, arith, Bool-cases, eqb→eq, eqb_refl,
}
use ion_sfu.Sfu.Receiver.{WebRtcReceiver, Track, closed_track, emit, close}
use ion_sfu.Sfu.Receiver.Forwarding.{delete_loop, close_all}

abbrev pub id_of : WebRtcReceiver → ℕ → ℕ
id_of w t = (w.tracks t).id

-- A close changes neither the lists nor the ids.
pub close-down_tracks : (w : WebRtcReceiver) (t : ℕ) → (close w t).down_tracks ≡ w.down_tracks
unfolding close emit
close-down_tracks w t = ground arith

pub close-id : (w : WebRtcReceiver) (t t' : ℕ) → ((close w t).tracks t').id ≡ (w.tracks t').id
unfolding close emit
close-id w t t' = elim (Bool-cases (w.tracks t).is_closed) [
  | inl e ↦ rw e refl
  | inr e ↦ rw e (elim (Bool-cases (t == t')) [
    | inl e' ↦ rw e' (ap (λ (i : ℕ). (w.tracks i).id) (eqb→eq t t' e'))
    | inr e' ↦ rw e' refl
  ])
]

abbrev pub is_closed : WebRtcReceiver → ℕ → Bool
is_closed w t = (w.tracks t).is_closed

-- `w'` has the lists of `w`, and its closed tracks among its own.
pub record IsCloser (w w' : WebRtcReceiver) : Type 0 where
  pub lists : w'.down_tracks ≡ w.down_tracks
  pub gate : w'.gate ≡ w.gate
  pub still_closed : (t : ℕ) → is_closed w t ≡ true → is_closed w' t ≡ true

pub IsCloser-refl : (w : WebRtcReceiver) → IsCloser w w
IsCloser-refl w = record { lists = refl; gate = refl; still_closed = λ t h. h }

pub IsCloser-trans : (u v w : WebRtcReceiver) → IsCloser u v → IsCloser v w → IsCloser u w
IsCloser-trans u v w a b = record {
  lists = b.lists ∙ a.lists;
  gate = b.gate ∙ a.gate;
  still_closed = λ t h. b.still_closed t (a.still_closed t h);
}

close-gate : (w : WebRtcReceiver) (t : ℕ) → (close w t).gate ≡ w.gate
unfolding close emit
close-gate w t = ground arith

closed_if :
    (b : Bool) (x y : Track)
    → x.is_closed ≡ true
    → y.is_closed ≡ true
    → (if b then x else y).is_closed ≡ true
closed_if b x y hx hy = if_both (λ (z : Track). z.is_closed ≡ true) b x y hx hy

close-closed :
    (w : WebRtcReceiver) (t t' : ℕ) → is_closed w t' ≡ true → is_closed (close w t) t' ≡ true
unfolding close emit
close-closed w t t' h =
    if_both (λ (v : WebRtcReceiver). is_closed v t' ≡ true) (w.tracks t).is_closed w
      (emit (record w { tracks = update w.tracks t (record (w.tracks t) { is_closed = true }) })
        (closed_track t))
      h (closed_if (t == t') (record (w.tracks t) { is_closed = true }) (w.tracks t') refl h)

closed_here :
    (f : ℕ → Track) (t : ℕ) → (update f t (record (f t) { is_closed = true }) t).is_closed ≡ true
closed_here f t = rw (eqb_refl t) refl

pub close_itself : (w : WebRtcReceiver) (t : ℕ) → is_closed (close w t) t ≡ true
unfolding close emit
close_itself w t = elim (Bool-cases (w.tracks t).is_closed) [
  | inl e ↦ rw e e
  | inr e ↦ rw e (closed_here w.tracks t)
]

pub close-IsCloser : (w : WebRtcReceiver) (t : ℕ) → IsCloser w (close w t)
close-IsCloser w t = record {
  lists = close-down_tracks w t;
  gate = close-gate w t;
  still_closed = close-closed w t;
}

delete_loop-IsCloser :
    (ts : List ℕ) (id : ℕ) (w : WebRtcReceiver) → IsCloser w (delete_loop ts id w).1
unfolding delete_loop
delete_loop-IsCloser [] id w = IsCloser-refl w
delete_loop-IsCloser (t ∷ ts) id w = elim (Bool-cases ((w.tracks t).id == id)) [
  | inl e ↦ rw e (
      IsCloser-trans w (close w t) (delete_loop ts id (close w t)).1 (close-IsCloser w t)
        (delete_loop-IsCloser ts id (close w t)))
  | inr e ↦ rw e (delete_loop-IsCloser ts id w)
]

pub delete_loop-closes :
    (ts : List ℕ) (id : ℕ) (w : WebRtcReceiver) (t' : ℕ)
    → has t' ts ≡ true
    → id_of w t' ≡ id
    → is_closed (delete_loop ts id w).1 t' ≡ true
unfolding delete_loop
delete_loop-closes [] id w t' h e = absurd (false≢true h)
delete_loop-closes (t ∷ ts) id w t' h e = elim (Bool-cases (t == t')) [
  | inl a ↦
      let first : ((w.tracks t).id == id) ≡ true =
        rw (ap (id_of w) (eqb→eq t t' a) ∙ e) (eqb_refl id) in
      rw first (
        (delete_loop-IsCloser ts id (close w t)).still_closed t'
          (ap (is_closed (close w t)) (sym (eqb→eq t t' a)) ∙ close_itself w t))
  | inr a ↦ elim (Bool-cases ((w.tracks t).id == id)) [
    | inl b ↦
        rw b (delete_loop-closes ts id (close w t) t' (ground (arith, h, a)) (close-id w t t' ∙ e))
    | inr b ↦ rw b (delete_loop-closes ts id w t' (ground (arith, h, a)) e)
  ]
]

pub close_all-IsCloser : (ts : List ℕ) (w : WebRtcReceiver) → IsCloser w (close_all ts w)
unfolding close_all
close_all-IsCloser [] w = IsCloser-refl w
close_all-IsCloser (t ∷ ts) w =
    IsCloser-trans w (close w t) (close_all ts (close w t)) (close-IsCloser w t)
      (close_all-IsCloser ts (close w t))

pub close_all-closes :
    (ts : List ℕ) (w : WebRtcReceiver) (t' : ℕ)
    → has t' ts ≡ true
    → is_closed (close_all ts w) t' ≡ true
unfolding close_all
close_all-closes [] w t' h = absurd (false≢true h)
close_all-closes (t ∷ ts) w t' h = elim (Bool-cases (t == t')) [
  | inl a ↦
      (close_all-IsCloser ts (close w t)).still_closed t'
        (ap (is_closed (close w t)) (sym (eqb→eq t t' a)) ∙ close_itself w t)
  | inr a ↦ close_all-closes ts (close w t) t' (ground (arith, h, a))
]
