-- ===== src/Sfu/Receiver/Forwarding/Runs.antt =====
-- pkg/sfu/receiver.go: the calls of a receiver one after another, from its creation.
use mathlib.Core.Bool.{false≢true}
use mathlib.Core.Path.{subst}
use ion_sfu.Prelude.{
  ℕ, ◌≡◌, refl, sym, ap, ◌∙◌, Bool, true, false, List, [], ◌∷◌, Option, none, some, get_or,
  get_or-set-default, get_or-replicate, Bool-cases, inl, inr, has, Distinct, ◌>>=◌,
}
use ion_sfu.Sfu.DownTrack.{ExtPacket, Forwarded}
use ion_sfu.Sfu.DownTrack.Simulcast.Panics.{Fits}
use ion_sfu.Sfu.Receiver.{WebRtcReceiver, Track, new_receiver, listed}
use ion_sfu.Sfu.Receiver.Forwarding.{
  WriteResult, is_stored, finish_pending, none_pending, finish_all, on_packet, deliver,
}
use ion_sfu.Sfu.Receiver.Forwarding.Placement.{layer_at, IsPlaced, IsWithin}
use ion_sfu.Sfu.Receiver.Forwarding.Delivery.{deliver-ReturnsWithin, none_pending-IsWithin}
use ion_sfu.Sfu.Receiver.Forwarding.Finishing.{AllElsewhere, finish_all-IsAllMoved}
use ion_sfu.Sfu.Receiver.Forwarding.Calls.{
  Call, answer, Allowed, answer-IsPlaced, waiting-AllStored,
}

unfoldable pub run :
    (ℕ → Forwarded → WriteResult) → WebRtcReceiver → List Call → Option WebRtcReceiver
run write w [] = some w
run write w (c ∷ cs) = do w' ← answer write w c; run write w' cs

-- What holds of the receiver after a call that returns.
abbrev pub Then : Option WebRtcReceiver → (WebRtcReceiver → Type 0) → Type 0
Then none P = Unit
Then (some w) P = P w

-- Each call is allowed where it is made.
abbrev pub AllowedRun : (ℕ → Forwarded → WriteResult) → WebRtcReceiver → List Call → Type 0
AllowedRun write w [] = Unit
AllowedRun write w (c ∷ cs) = Allowed w c × Then (answer write w c) (λ w'. AllowedRun write w' cs)

pub new_receiver-IsPlaced :
    (tracks : ℕ → Track) (has_rid : Bool) → IsPlaced (new_receiver tracks has_rid)
unfolding new_receiver listed is_stored
new_receiver-IsPlaced tracks has_rid = record {
  once = λ l. tt;
  on_its_layer = λ l t a. absurd (false≢true a);
  available_stored = λ l a. absurd (false≢true (sym (get_or-replicate 3 l false) ∙ a));
  waiting_stored = λ l t a. absurd (false≢true (sym (ap (has t) (get_or-replicate 3 l [])) ∙ a));
}

-- A run of allowed calls from a receiver whose tracks are placed panics in none of them, and ends
-- with every track placed: at most once on a layer, and only on the layer that it forwards. A call is
-- allowed where a layer that is named has a list of tracks, a layer that is wished for is one of the
-- three, a new track is on no layer, and a packet's payload fits the 1460 bytes of a slice of the pool
-- and has the descriptor that was read from it.
pub run-IsPlaced :
    (write : ℕ → Forwarded → WriteResult) (cs : List Call) (w : WebRtcReceiver)
    → IsPlaced w
    → AllowedRun write w cs
    → (w' : WebRtcReceiver) × (run write w cs ≡ some w') × IsPlaced w'
unfolding run
run-IsPlaced write [] w s a = (w, refl, s)
run-IsPlaced write (c ∷ cs) w s a =
    let (v, e, s') = answer-IsPlaced write w c s a.0 in
    let next = subst (λ (o : Option WebRtcReceiver). Then o (λ u. AllowedRun write u cs)) e a.1 in
    rw e (run-IsPlaced write cs v s' next)

-- The tracks that wait for a layer.
abbrev pub waiting : WebRtcReceiver → ℕ → List ℕ
waiting w layer = get_or w.gate.pending_tracks layer []

nobody_waits :
    (w v : WebRtcReceiver) (layer t : ℕ)
    → IsWithin (none_pending w layer) v
    → has t (waiting v layer) ≡ false
unfolding none_pending
nobody_waits w v layer t a = elim (Bool-cases (has t (waiting v layer))) [
  | inl b ↦ absurd (
      false≢true (
        sym (ap (has t) (get_or-set-default w.gate.pending_tracks layer []))
        ∙ a.fewer_wait layer t b))
  | inr b ↦ b
]

finish_at_key :
    (w v : WebRtcReceiver) (now sender layer : ℕ) (p : ExtPacket)
    → w.is_simulcast ≡ true
    → get_or w.gate.pending layer false ≡ true
    → p.key_frame ≡ true
    → finish_all (waiting w layer) layer w ≡ some v
    → finish_pending w now sender layer p ≡ some (none_pending v layer)
unfolding finish_pending
finish_at_key w v now sender layer p sim pend key e = simp (sim, pend, key, e)

-- What is on a layer stays on its list when the pending switches are cleared.
listed-none_pending :
    (v : WebRtcReceiver) (layer t : ℕ)
    → has t (listed v layer) ≡ true
    → has t (listed (none_pending v layer) layer) ≡ true
unfolding none_pending listed
listed-none_pending v layer t h = h

-- A key frame of a layer, whose payload fits a slice of the pool and has the descriptor that was read
-- from it, where a switch is under way and no waiting track is on the layer yet or waits twice: the call returns; the block on the pending tracks puts all tracks that waited on the
-- list of the layer, to whose tracks the packet is then written; they end on that layer, and no track
-- waits for it any more.
pub on_packet-completes :
    (write : ℕ → Forwarded → WriteResult) (w : WebRtcReceiver) (now sender layer : ℕ)
    (p : ExtPacket)
    → IsPlaced w
    → is_stored w layer ≡ true
    → w.is_simulcast ≡ true
    → get_or w.gate.pending layer false ≡ true
    → p.key_frame ≡ true
    → Fits p
    → AllElsewhere w layer (waiting w layer)
    → Distinct (waiting w layer)
    → (v : WebRtcReceiver) × (w' : WebRtcReceiver) × (finish_pending w now sender layer p ≡ some v)
      × (deliver write (listed v layer) now layer p v ≡ some w')
      × (on_packet write now sender layer p w ≡ some w')
      × ((t : ℕ)
          → has t (waiting w layer) ≡ true
          → (has t (listed v layer) ≡ true) × (layer_at v t ≡ layer) × (layer_at w' t ≡ layer))
      × ((t : ℕ) → has t (waiting w' layer) ≡ false)
unfolding on_packet
on_packet-completes write w now sender layer p s h sim pend key fits away d =
    let (v, e, r) =
      finish_all-IsAllMoved (waiting w layer) layer w s h (waiting-AllStored w layer s) in
    let u = none_pending v layer in
    let none_left = none_pending-IsWithin v layer in
    let (w', e', a) =
      deliver-ReturnsWithin write (listed u layer) u now layer p
        (none_left.stored layer (r.stored layer h)) fits in
    let there = λ (t : ℕ) (b : has t (waiting w layer) ≡ true). (r.finished away d).arrived t b in
    let done = finish_at_key w v now sender layer p sim pend key e in
    (
      u,
      w',
      done,
      e',
      rw done e',
      λ t b. (
        listed-none_pending v layer t (there t b).0,
        none_left.same_layer t ∙ (there t b).1,
        a.same_layer t ∙ none_left.same_layer t ∙ (there t b).1,
      ),
      λ t. nobody_waits v w' layer t a,
    )
