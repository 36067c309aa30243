-- ===== src/Sfu/Receiver/Forwarding/Removal.antt =====
-- pkg/sfu/receiver.go: which tracks are removed and closed, one by one or at the end of the source.
use ion_sfu.Prelude.{
  ℕ, suc, zero, ◌+◌, ◌≡◌, refl, sym, ap, ◌∙◌, Bool, true, false, not, ◌&&◌, List, [], ◌∷◌, some,
  inl, inr, ◌==◌, get_or, if◌then◌else◌, has, arith, Bool-cases, eqb→eq,
}
use mathlib.Core.Bool.{false≢true}
use ion_sfu.Sfu.DownTrack.Layers.{Receiver}
use ion_sfu.Sfu.Receiver.{WebRtcReceiver, closed_receiver, emit, listed}
use ion_sfu.Sfu.Receiver.Forwarding.{
  is_stored, delete_down_track, close_all, close_layers, close_tracks, on_eof,
}
use ion_sfu.Sfu.Receiver.Forwarding.Closing.{
  id_of, is_closed, IsCloser, IsCloser-refl, IsCloser-trans, close_all-IsCloser, close_all-closes,
}
use ion_sfu.Sfu.Receiver.Forwarding.Placement.{
  IsPlaced, kept, has-kept, delete-IsDeleted, same_listed,
}
use ion_sfu.Sfu.Receiver.Forwarding.Layering.{same_stored}

has_left :
    (w : WebRtcReceiver) (l l' id t : ℕ)
    → has t (if l == l' then kept (id_of w) id (listed w l) else listed w l')
      ≡ has t (listed w l') && not ((l == l') && (id_of w t == id))
has_left w l l' id t = elim (Bool-cases (l == l')) [
  | inl e ↦ rw (e, sym (eqb→eq l l' e)) (has-kept (id_of w) id t (listed w l))
  | inr e ↦ rw e (ground arith)
]

-- `deleteDownTrack` on a layer with a list: the tracks of the layer with the id leave it, and all of
-- them are closed; the other tracks, and the other layers, stay.
pub delete_down_track-removes :
    (w : WebRtcReceiver) (l id : ℕ)
    → is_stored w l ≡ true
    → (w' : WebRtcReceiver) × (delete_down_track w l id ≡ some w')
      × ((l' t : ℕ)
          → has t (listed w' l') ≡ has t (listed w l') && not ((l == l') && (id_of w t == id)))
      × ((t : ℕ) → has t (listed w l) ≡ true → id_of w t ≡ id → is_closed w' t ≡ true)
delete_down_track-removes w l id h =
    let (w', e, del) = delete-IsDeleted w l id h in
    (w', e, λ l' t. ap (has t) (del.lists l') ∙ has_left w l l' id t, del.closes)

-- The loop over the layers, each of which has a list if it is available.
close_layers-closes :
    (bs : List Bool) (i : ℕ) (w : WebRtcReceiver)
    → ((j : ℕ) → get_or bs j false ≡ true → is_stored w (i + j) ≡ true)
    → (w' : WebRtcReceiver) × (close_layers bs i w ≡ some w')
      × IsCloser w w'
      × ((j t : ℕ)
          → get_or bs j false ≡ true
          → has t (listed w (i + j)) ≡ true
          → is_closed w' t ≡ true)
unfolding close_layers
close_layers-closes [] i w h = (w, refl, IsCloser-refl w, λ j t a. absurd (false≢true a))
close_layers-closes (false ∷ bs) i w h =
    let (w', e, a, c) =
      close_layers-closes bs (i + 1) w (λ j b. ap (is_stored w) (omega arith) ∙ h (suc j) b) in
    (
      w',
      e,
      a,
      λ j t.
          elim j
            as (λ n.
              get_or (false ∷ bs) n false ≡ true
              → has t (listed w (i + n)) ≡ true
              → is_closed w' t ≡ true) [
                | zero ↦ λ g m. absurd (false≢true g)
                | suc k ↦ λ g m. c k t g (ap (λ (l : ℕ). has t (listed w l)) (omega arith) ∙ m)
              ],
    )
close_layers-closes (true ∷ bs) i w h =
    let v = close_all (listed w i) w in
    let b = close_all-IsCloser (listed w i) w in
    let (w', e, a, c) =
      close_layers-closes bs (i + 1) v (λ j g.
        same_stored w v (i + 1 + j) b.lists ∙ ap (is_stored w) (omega arith) ∙ h (suc j) g) in
    let st : is_stored w i ≡ true = ap (is_stored w) (omega arith) ∙ h 0 refl in
    (
      w',
      rw st e,
      IsCloser-trans w v w' b a,
      λ j t.
          elim j
            as (λ n.
              get_or (true ∷ bs) n false ≡ true
              → has t (listed w (i + n)) ≡ true
              → is_closed w' t ≡ true) [
                | zero ↦ λ g m. a.still_closed t (
                    close_all-closes (listed w i) w t
                      (ap (λ (l : ℕ). has t (listed w l)) (omega arith) ∙ m))
                | suc k ↦ λ g m. c k t g (
                    ap (has t) (same_listed v w (i + 1 + k) b.lists)
                    ∙ ap (λ (l : ℕ). has t (listed w l)) (omega arith)
                    ∙ m)
              ],
    )

close_tracks-closes :
    (w : WebRtcReceiver)
    → ((l : ℕ) → get_or w.gate.available l false ≡ true → is_stored w l ≡ true)
    → (w' : WebRtcReceiver) × (close_tracks w ≡ some w')
      × (w'.gate ≡ w.gate)
      × ((l t : ℕ)
          → get_or w.gate.available l false ≡ true
          → has t (listed w l) ≡ true
          → is_closed w' t ≡ true)
unfolding close_tracks emit
close_tracks-closes w h =
    let (v, e, a, c) =
      close_layers-closes w.gate.available 0 w (λ j b. ap (is_stored w) (omega arith) ∙ h j b) in
    (
      emit v closed_receiver,
      rw e refl,
      a.gate,
      λ l t g m. c l t g (ap (λ (i : ℕ). has t (listed w i)) (omega arith) ∙ m),
    )

-- The end of the source, the first time: the call returns, the receiver is closed, and so is every
-- track on an available layer.
pub on_eof-closes :
    (w : WebRtcReceiver)
    → IsPlaced w
    → w.gate.closed ≡ false
    → (w' : WebRtcReceiver) × (on_eof w ≡ some w')
      × (w'.gate.closed ≡ true)
      × ((l t : ℕ)
          → get_or w.gate.available l false ≡ true
          → has t (listed w l) ≡ true
          → is_closed w' t ≡ true)
unfolding on_eof listed is_stored
on_eof-closes w s h =
    let w1 = record w { gate = record w.gate { closed = true } } in
    let (w', e, g, c) = close_tracks-closes w1 s.available_stored in
    (w', simp (h, e), ap (λ (r : Receiver). r.closed) g, c)
