-- ===== src/Sfu/Receiver/Forwarding/Delivery.antt =====
-- pkg/sfu/receiver.go: the forwarding of a packet adds no track to a layer.
use mathlib.Core.Bool.{false≢true}
use ion_sfu.Prelude.{
  ℕ, ◌-◌, ◌≡◌, refl, sym, ap, ◌∙◌, true, List, [], ◌∷◌, Option, some, inl, inr, ltb, has,
  Bool-cases, get_or-set-cases,
}
use ion_sfu.Sfu.Receiver.{
  WebRtcReceiver, rtcp, wrote, RtcpPacket, picture_loss_indication, emit, with_down, listed,
}
use ion_sfu.Sfu.DownTrack.{ExtPacket, Effect, nothing, pli, forward, Forwarded}
use ion_sfu.Sfu.DownTrack.Simulcast.{write_rtp}
use ion_sfu.Sfu.DownTrack.Simulcast.Stays.{write_rtp-layer}
use ion_sfu.Sfu.DownTrack.Simulcast.Panics.{Fits, write_panics-Fits}
use ion_sfu.Sfu.Receiver.Forwarding.{
  is_stored, delete_down_track, send_rtcp, none_pending, is_pli, WriteResult, written,
  stream_closed, write_failed, after_result, after_write, deliver_one, deliver,
}
use ion_sfu.Sfu.Receiver.Forwarding.Placement.{
  IsWithin, IsWithin-refl, IsWithin-trans, same_lists, emit-IsWithin, with_down-IsWithin,
  delete-IsDeleted, with_down-IsWithin,
}

-- The outcome of a call is within what was there.
pub send_rtcp-IsWithin :
    (w : WebRtcReceiver) (now : ℕ) (p : RtcpPacket)
    → (w' : WebRtcReceiver) × (send_rtcp w now (p ∷ []) ≡ some w') × IsWithin w w'
unfolding send_rtcp
send_rtcp-IsWithin w now p = elim (Bool-cases (is_pli p)) [
  | inl e ↦ rw e (elim (Bool-cases (ltb (now - w.last_pli) 500000000)) [
    | inl e' ↦ rw e' (w, refl, IsWithin-refl w)
    | inr e' ↦ rw e' (
      emit (record w { last_pli = now }) (rtcp (p ∷ [])),
      refl,
      IsWithin-trans w (record w { last_pli = now })
          (emit (record w { last_pli = now }) (rtcp (p ∷ [])))
          (same_lists w w.tracks w.events now (λ t. refl))
          (emit-IsWithin (record w { last_pli = now }) (rtcp (p ∷ []))),
    )
  ])
  | inr e ↦ rw e (emit w (rtcp (p ∷ [])), refl, emit-IsWithin w (rtcp (p ∷ [])))
]

pub none_pending-IsWithin : (w : WebRtcReceiver) (l : ℕ) → IsWithin w (none_pending w l)
unfolding none_pending listed is_stored
none_pending-IsWithin w l = record {
  same_layer = λ t. refl;
  fewer = λ l' t h. h;
  still_once = λ l' h. h;
  stored = λ l' h. h;
  available = λ l' h. h;
  fewer_wait = λ l' t h. elim (get_or-set-cases w.gate.pending_tracks l l' [] []) [
    | inl e ↦ absurd (false≢true (sym (ap (has t) e.0) ∙ h))
    | inr e ↦ sym (ap (has t) e) ∙ h
  ];
}

-- A call that returns, with no more on the layers than there was.
abbrev pub ReturnsWithin : WebRtcReceiver → Option WebRtcReceiver → Type 0
ReturnsWithin w o = (w' : WebRtcReceiver) × (o ≡ some w') × IsWithin w w'

pub delete-ReturnsWithin :
    (w : WebRtcReceiver) (l id : ℕ)
    → is_stored w l ≡ true
    → ReturnsWithin w (delete_down_track w l id)
delete-ReturnsWithin w l id h =
    let (w', e, deleted) = delete-IsDeleted w l id h in (w', e, deleted.within)

after_result-ReturnsWithin :
    (r : WriteResult) (w : WebRtcReceiver) (layer t : ℕ) (f : Forwarded)
    → is_stored w layer ≡ true
    → ReturnsWithin w (after_result r w layer t f)
unfolding after_result
after_result-ReturnsWithin written w layer t f h =
    (emit w (wrote t f), refl, emit-IsWithin w (wrote t f))
after_result-ReturnsWithin stream_closed w layer t f h =
    delete-ReturnsWithin w layer (w.tracks t).id h
after_result-ReturnsWithin write_failed w layer t f h = (w, refl, IsWithin-refl w)

after_write-ReturnsWithin :
    (write : ℕ → Forwarded → WriteResult) (w : WebRtcReceiver) (now layer t : ℕ) (out : Effect)
    → is_stored w layer ≡ true
    → ReturnsWithin w (after_write write w now layer t out)
unfolding after_write
after_write-ReturnsWithin write w now layer t nothing h = (w, refl, IsWithin-refl w)
after_write-ReturnsWithin write w now layer t (pli s m) h =
    send_rtcp-IsWithin w now (picture_loss_indication s m)
after_write-ReturnsWithin write w now layer t (forward f) h =
    after_result-ReturnsWithin (write t f) w layer t f h

-- A call after another one.
pub then_within :
    (u v : WebRtcReceiver) (o : Option WebRtcReceiver)
    → IsWithin u v
    → ReturnsWithin v o
    → ReturnsWithin u o
then_within u v o a (w, e, b) = (w, e, IsWithin-trans u v w a b)

deliver_one-ReturnsWithin :
    (write : ℕ → Forwarded → WriteResult) (w : WebRtcReceiver) (now layer : ℕ) (p : ExtPacket)
    (t : ℕ)
    → is_stored w layer ≡ true
    → Fits p
    → ReturnsWithin w (deliver_one write w now layer p t)
unfolding deliver_one
deliver_one-ReturnsWithin write w now layer p t h f =
    let (out, d) = write_rtp (w.tracks t).down p layer in
    let moved = with_down-IsWithin w t d (write_rtp-layer (w.tracks t).down p layer) in
    rw (write_panics-Fits (w.tracks t).down p layer f) (
      then_within w (with_down w t d) (after_write write (with_down w t d) now layer t out) moved
        (after_write-ReturnsWithin write (with_down w t d) now layer t out (moved.stored layer h)))

-- A packet goes to all tracks of the layer without a panic.
pub deliver-ReturnsWithin :
    (write : ℕ → Forwarded → WriteResult) (ts : List ℕ) (w : WebRtcReceiver) (now layer : ℕ)
    (p : ExtPacket)
    → is_stored w layer ≡ true
    → Fits p
    → ReturnsWithin w (deliver write ts now layer p w)
unfolding deliver
deliver-ReturnsWithin write [] w now layer p h f = (w, refl, IsWithin-refl w)
deliver-ReturnsWithin write (t ∷ ts) w now layer p h f =
    let (v, e, a) = deliver_one-ReturnsWithin write w now layer p t h f in
    rw e (
      then_within w v (deliver write ts now layer p v) a
        (deliver-ReturnsWithin write ts v now layer p (a.stored layer h) f))
