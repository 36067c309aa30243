-- ===== src/Sfu/Receiver/Forwarding/Calls.antt =====
-- pkg/sfu/receiver.go: what happens to a receiver, in any order.
use ion_sfu.Prelude.{
  ℕ, suc, ◌+◌, ◌≡◌, ◌<◌, leb, refl, ap, ◌∙◌, Bool, true, false, not, ◌&&◌, List, [], ◌∷◌, Option,
  some, get_or, if◌then◌else◌, arith, if_both, ◌>>=◌,
}
use ion_sfu.Sfu.DownTrack.Simulcast.Panics.{Fits}
use ion_sfu.Sfu.DownTrack.{ExtPacket, Forwarded}
use ion_sfu.Sfu.Receiver.{
  WebRtcReceiver, Rid, closed_receiver, picture_loss_indication, ssrc, emit, close, listed,
  switch_track, switch_to, switch_panics, add_up_track,
}
use ion_sfu.Sfu.Receiver.Forwarding.{
  WriteResult, is_stored, chosen_layer, add_down_track, delete_subscriber, delete_down_track,
  finish_pending, none_pending, send_rtcp, finish_all, deliver, on_packet, close_all, close_layers,
  close_tracks, on_eof,
}
use ion_sfu.Sfu.Receiver.Forwarding.Placement.{
  layer_at, IsPlaced, IsWithin, IsWithin-refl, IsWithin-trans, IsWithin-IsPlaced, close-IsWithin,
  emit-IsWithin,
}
use ion_sfu.Sfu.Receiver.Forwarding.Delivery.{
  ReturnsWithin, then_within, delete-ReturnsWithin, deliver-ReturnsWithin, send_rtcp-IsWithin,
  none_pending-IsWithin,
}
use ion_sfu.Sfu.Receiver.Forwarding.Switching.{IsAbsent}
use ion_sfu.Sfu.Receiver.Forwarding.Finishing.{AllStored, finish_all-IsAllMoved}
use ion_sfu.Sfu.Receiver.Forwarding.Layering.{
  add_up_track-IsPlaced, add_down_track-IsPlaced, switch_track-IsPlaced, AllStored-of-has,
}

-- What the streams, the router, the clients and the source do with a receiver.
pub data Call : Type 0 where
  up_track : Rid → (ssrc : ℕ) → (best_quality_first : Bool) → Call
  down_track : (t : ℕ) → (best_quality_first : Bool) → Call
  wish : (t layer : ℕ) → (set_as_max : Bool) → Call
  delete : (layer id : ℕ) → Call
  packet : (now sender layer : ℕ) → ExtPacket → Call
  eof : Call

unfoldable pub answer :
    (ℕ → Forwarded → WriteResult) → WebRtcReceiver → Call → Option WebRtcReceiver
answer write w (up_track rid s best) = some (add_up_track w rid s best)
answer write w (down_track t best) = add_down_track w t best
answer write w (wish t layer set_as_max) = switch_to w t layer set_as_max
answer write w (delete layer id) = delete_subscriber w layer id
answer write w (packet now sender layer p) = on_packet write now sender layer p w
answer write w eof = on_eof w

-- What the callers see to: a new track is on no layer, and its receiver has a layer for it; a track
-- that wishes for a layer was added before, and the layer is an index of the arrays of three, outside
-- of which `SwitchDownTrack` panics; a layer is only named after its `AddUpTrack`; a payload fits a
-- slice of `packetFactory`, and its descriptor was read from it.
abbrev pub Allowed : WebRtcReceiver → Call → Type 0
Allowed w (up_track rid s best) = Unit
Allowed w (down_track t best) = IsAbsent w t × (is_stored w (chosen_layer w best) ≡ true)
Allowed w (wish t layer set_as_max) = (layer < 3) × (is_stored w (layer_at w t) ≡ true)
Allowed w (delete layer id) = is_stored w layer ≡ true
Allowed w (packet now sender layer p) = (is_stored w layer ≡ true) × Fits p
Allowed w eof = Unit

-- A wish for one of the three layers does not panic.
switch_to-returns :
    (w : WebRtcReceiver) (t layer : ℕ) (b : Bool)
    → layer < 3
    → switch_to w t layer b ≡ some (switch_track w t layer b)
unfolding switch_to switch_panics
switch_to-returns w t layer b h = let one : leb 3 layer ≡ false = ground (arith, h) in rw one refl

-- A call that returns, with every track in its place.
abbrev pub ReturnsPlaced : Option WebRtcReceiver → Type 0
ReturnsPlaced o = (w : WebRtcReceiver) × (o ≡ some w) × IsPlaced w

placed_of_within :
    (w : WebRtcReceiver) (o : Option WebRtcReceiver)
    → IsPlaced w
    → ReturnsWithin w o
    → ReturnsPlaced o
placed_of_within w o s (v, e, a) = (v, e, IsWithin-IsPlaced w v a s)

-- The block on the pending tracks, for a packet of a layer with a list.
pub record IsAfterPending (w w' : WebRtcReceiver) : Type 0 where
  pub placed : IsPlaced w'
  pub stored : (l : ℕ) → is_stored w l ≡ true → is_stored w' l ≡ true

pub waiting-AllStored :
    (w : WebRtcReceiver) (layer : ℕ)
    → IsPlaced w
    → AllStored w (get_or w.gate.pending_tracks layer [])
waiting-AllStored w layer s =
    AllStored-of-has w (get_or w.gate.pending_tracks layer []) (s.waiting_stored layer)

-- The switches of a layer, and no more of them.
abbrev finished : WebRtcReceiver → (layer : ℕ) → Option WebRtcReceiver
finished w layer =
    finish_all (get_or w.gate.pending_tracks layer []) layer w >>= λ v. some (none_pending v layer)

finished-IsAfterPending :
    (w : WebRtcReceiver) (layer : ℕ)
    → IsPlaced w
    → is_stored w layer ≡ true
    → (w' : WebRtcReceiver) × (finished w layer ≡ some w') × IsAfterPending w w'
finished-IsAfterPending w layer s h =
    let ts = get_or w.gate.pending_tracks layer [] in
    let (v, e, r) = finish_all-IsAllMoved ts layer w s h (waiting-AllStored w layer s) in
    let none_left = none_pending-IsWithin v layer in
    (
      none_pending v layer,
      rw e refl,
      record {
        placed = IsWithin-IsPlaced v (none_pending v layer) none_left r.placed;
        stored = λ l a. none_left.stored l (r.stored l a);
      },
    )

finish_pending-IsPlaced :
    (w : WebRtcReceiver) (now sender layer : ℕ) (p : ExtPacket)
    → IsPlaced w
    → is_stored w layer ≡ true
    → (w' : WebRtcReceiver) × (finish_pending w now sender layer p ≡ some w') × IsAfterPending w w'
unfolding finish_pending
finish_pending-IsPlaced w now sender layer p s h =
    let asked = send_rtcp-IsWithin w now (picture_loss_indication sender (ssrc w layer)) in
    let P =
      λ (o : Option WebRtcReceiver). (w' : WebRtcReceiver) × (o ≡ some w') × IsAfterPending w w' in
    if_both P (not (w.is_simulcast && get_or w.gate.pending layer false)) (some w)
      (if p.key_frame
        then finished w layer
        else send_rtcp w now (picture_loss_indication sender (ssrc w layer) ∷ []))
      (w, refl, record { placed = s; stored = λ l a. a })
      (if_both P p.key_frame (finished w layer)
        (send_rtcp w now (picture_loss_indication sender (ssrc w layer) ∷ []))
        (finished-IsAfterPending w layer s h)
        (
          asked.0,
          asked.1,
          record { placed = IsWithin-IsPlaced w asked.0 asked.2 s; stored = asked.2.stored },
        ))

on_packet-IsPlaced :
    (write : ℕ → Forwarded → WriteResult) (w : WebRtcReceiver) (now sender layer : ℕ)
    (p : ExtPacket)
    → IsPlaced w
    → is_stored w layer ≡ true
    → Fits p
    → ReturnsPlaced (on_packet write now sender layer p w)
unfolding on_packet
on_packet-IsPlaced write w now sender layer p s h f =
    let (v, e, a) = finish_pending-IsPlaced w now sender layer p s h in
    rw e (
      placed_of_within v (deliver write (listed v layer) now layer p v) a.placed
        (deliver-ReturnsWithin write (listed v layer) v now layer p (a.stored layer h) f))

close_all-IsWithin : (ts : List ℕ) (w : WebRtcReceiver) → IsWithin w (close_all ts w)
unfolding close_all
close_all-IsWithin [] w = IsWithin-refl w
close_all-IsWithin (t ∷ ts) w =
    IsWithin-trans w (close w t) (close_all ts (close w t)) (close-IsWithin w t)
      (close_all-IsWithin ts (close w t))

-- Each available layer has a list.
close_layers-ReturnsWithin :
    (bs : List Bool) (i : ℕ) (w : WebRtcReceiver)
    → ((j : ℕ) → get_or bs j false ≡ true → is_stored w (i + j) ≡ true)
    → ReturnsWithin w (close_layers bs i w)
unfolding close_layers
close_layers-ReturnsWithin [] i w h = (w, refl, IsWithin-refl w)
close_layers-ReturnsWithin (false ∷ bs) i w h =
    close_layers-ReturnsWithin bs (i + 1) w (λ j a. ap (is_stored w) (omega arith) ∙ h (suc j) a)
close_layers-ReturnsWithin (true ∷ bs) i w h =
    let v = close_all (listed w i) w in
    let a = close_all-IsWithin (listed w i) w in
    let st : is_stored w i ≡ true = ap (is_stored w) (omega arith) ∙ h 0 refl in
    rw st (
      then_within w v (close_layers bs (i + 1) v) a (
        close_layers-ReturnsWithin bs (i + 1) v
          (λ j b. a.stored (i + 1 + j) (ap (is_stored w) (omega arith) ∙ h (suc j) b))))

closed-IsPlaced :
    (w : WebRtcReceiver)
    → IsPlaced w
    → IsPlaced (record w { gate = record w.gate { closed = true } })
unfolding listed is_stored
closed-IsPlaced w s = record {
  once = s.once;
  on_its_layer = s.on_its_layer;
  available_stored = s.available_stored;
  waiting_stored = s.waiting_stored;
}

close_tracks-IsPlaced : (w : WebRtcReceiver) → IsPlaced w → ReturnsPlaced (close_tracks w)
unfolding close_tracks
close_tracks-IsPlaced w s =
    let (v, e, a) =
      close_layers-ReturnsWithin w.gate.available 0 w
        (λ j b. ap (is_stored w) (omega arith) ∙ s.available_stored j b) in
    (
      emit v closed_receiver,
      rw e refl,
      IsWithin-IsPlaced v (emit v closed_receiver) (emit-IsWithin v closed_receiver)
          (IsWithin-IsPlaced w v a s),
    )

on_eof-IsPlaced : (w : WebRtcReceiver) → IsPlaced w → ReturnsPlaced (on_eof w)
unfolding on_eof
on_eof-IsPlaced w s =
    let w' = record w { gate = record w.gate { closed = true } } in
    if_both ReturnsPlaced w.gate.closed (some w) (close_tracks w') (w, refl, s)
      (close_tracks-IsPlaced w' (closed-IsPlaced w s))

delete-IsPlaced :
    (w : WebRtcReceiver) (layer id : ℕ)
    → IsPlaced w
    → is_stored w layer ≡ true
    → ReturnsPlaced (delete_subscriber w layer id)
unfolding delete_subscriber
delete-IsPlaced w layer id s h =
    if_both ReturnsPlaced w.gate.closed (some w) (delete_down_track w layer id) (w, refl, s)
      (placed_of_within w (delete_down_track w layer id) s (delete-ReturnsWithin w layer id h))

-- A call of a kind that the callers allow returns without a panic, and every track stays at most
-- once on a layer, on the layer that it forwards.
pub answer-IsPlaced :
    (write : ℕ → Forwarded → WriteResult) (w : WebRtcReceiver) (c : Call)
    → IsPlaced w
    → Allowed w c
    → ReturnsPlaced (answer write w c)
unfolding answer
answer-IsPlaced write w (up_track rid s best) p a =
    (add_up_track w rid s best, refl, add_up_track-IsPlaced w rid s best p)
answer-IsPlaced write w (down_track t best) p a = add_down_track-IsPlaced w t best p a.0 a.1
answer-IsPlaced write w (wish t layer b) p a = (
  switch_track w t layer b,
  switch_to-returns w t layer b a.0,
  switch_track-IsPlaced w t layer b a.1 p,
)
answer-IsPlaced write w (delete layer id) p a = delete-IsPlaced w layer id p a
answer-IsPlaced write w (packet now sender layer x) p a =
    on_packet-IsPlaced write w now sender layer x p a.0 a.1
answer-IsPlaced write w eof p a = on_eof-IsPlaced w p
