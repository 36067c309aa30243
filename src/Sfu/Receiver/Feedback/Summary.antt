-- ===== src/Sfu/Receiver/Feedback/Summary.antt =====
-- pkg/sfu/downtrack.go: what handleRTCP makes of the reports of one datagram.
use mathlib.Core.Path.{subst}
use ion_sfu.Prelude.{
  ℕ, ◌+◌, ◌<◌, ◌≡◌, refl, ap, ◌∙◌, Bool, true, false, List, [], ◌∷◌, Option, none, some, inl, inr,
  if◌then◌else◌, All, length, arith, Option-cases,
}
use ion_sfu.Buffer.Stream.{RtpPacket}
use ion_sfu.Buffer.Stream.Lifecycle.{Endpoint}
use ion_sfu.Sfu.DownTrack.{Forwarded}
use ion_sfu.Sfu.Receiver.{WebRtcReceiver, RtcpPacket}
use ion_sfu.Sfu.Receiver.Forwarding.{WriteResult}
use ion_sfu.Sfu.Receiver.Feedback.{
  Gathered, nothing_gathered, gather, asks_for, answer_packet, handle_packets, gather_all,
}
use ion_sfu.Sfu.Receiver.Feedback.Measures.{
  fractions, bitrates, maximum, lowest_of, gather_all-loss, gather_all-bitrate,
}
use ion_sfu.Sfu.Receiver.Feedback.Once.{has_pli, has_fir, one_if, requests, gather_all-IsForwarded}

-- What the loop gathers, where it comes to its end.
abbrev pub Gathers : Gathered → Option (Bool × Gathered × WebRtcReceiver) → Type 0
Gathers target none = Unit
Gathers target (some (true, g, w)) = Unit
Gathers target (some (false, g, w)) = g ≡ target

module _ {F : Type 0} (buffers : ℕ → Option (Endpoint F)) (read_packet : List ℕ → Option RtpPacket)
    (write : ℕ → Forwarded → WriteResult) (ref_time : ℕ) where
  next_Gathers :
      (target g : Gathered) (w : WebRtcReceiver) (returns : Bool)
      (rest : Option (Bool × Gathered × WebRtcReceiver))
      → Gathers target rest
      → Gathers target (if returns then some (true, g, w) else rest)
  next_Gathers target g w true rest h = tt
  next_Gathers target g w false rest h = h

  handle_packets-Gathers :
      (ps : List RtcpPacket) (own ssrc t : ℕ) (g : Gathered) (w : WebRtcReceiver)
      → Gathers
          (gather_all own ssrc g ps)
          (handle_packets buffers read_packet write ref_time ps own ssrc t g w)
  unfolding handle_packets gather_all
  handle_packets-Gathers [] own ssrc t g w = refl
  handle_packets-Gathers (p ∷ ps) own ssrc t g w =
      let (returns, answered) = answer_packet buffers read_packet write ref_time w t (asks_for p) in
      elim (Option-cases answered) [
        | inl e ↦ rw e tt
        | inr (w', e) ↦ rw e (
            next_Gathers (gather_all own ssrc (gather own ssrc g p) ps) g w' returns
              (handle_packets buffers read_packet write ref_time ps own ssrc t (gather own ssrc g p)
                w')
              (handle_packets-Gathers ps own ssrc t (gather own ssrc g p) w'))
      ]

  -- A datagram whose packets handleRTCP goes through to the end, where no bitrate is 0: the loss is
  -- the greatest one reported, the bitrate the least one (0 where there is none), and one picture loss
  -- indication and one full intra request are passed on, from the track to its source, each if there
  -- is one at all.
  pub handle_packets-summary :
      (ps : List RtcpPacket) (own ssrc t : ℕ) (w w' : WebRtcReceiver) (g : Gathered)
      → handle_packets buffers read_packet write ref_time ps own ssrc t nothing_gathered w
        ≡ some (false, g, w')
      → All (λ (b : ℕ). 0 < b) (bitrates ps)
      → (g.max_rate_packet_loss ≡ maximum (fractions ps))
        × (g.expected_min_bitrate ≡ lowest_of (bitrates ps))
        × ((requests own ssrc g.fwd_pkts).0 ≡ one_if (has_pli ps))
        × ((requests own ssrc g.fwd_pkts).1 ≡ one_if (has_fir ps))
        × (length g.fwd_pkts ≡ one_if (has_pli ps) + one_if (has_fir ps))
  handle_packets-summary ps own ssrc t w w' g e h =
      let same : g ≡ gather_all own ssrc nothing_gathered ps =
        subst (Gathers (gather_all own ssrc nothing_gathered ps)) e
          (handle_packets-Gathers ps own ssrc t nothing_gathered w) in
      let f = gather_all-IsForwarded own ssrc nothing_gathered ps in
      (
        ap (λ (x : Gathered). x.max_rate_packet_loss) same
            ∙ gather_all-loss own ssrc nothing_gathered ps
            ∙ omega arith,
        ap (λ (x : Gathered). x.expected_min_bitrate) same
            ∙ gather_all-bitrate own ssrc nothing_gathered ps h,
        ap (λ (x : Gathered). (requests own ssrc x.fwd_pkts).0) same ∙ f.plis ∙ omega arith,
        ap (λ (x : Gathered). (requests own ssrc x.fwd_pkts).1) same ∙ f.firs ∙ omega arith,
        ap (λ (x : Gathered). length x.fwd_pkts) same ∙ f.no_more ∙ omega arith,
      )
