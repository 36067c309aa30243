-- ===== src/Sfu/Receiver/Feedback.antt =====
-- pkg/sfu/downtrack.go: handleRTCP, what a subscriber reports on a track.
-- `rtcp.Unmarshal` is left out: `pkts` are the packets that it returned. `ref_time` is the time of
-- the sequencer, in milliseconds; `c` has the clock and what the receiver measures.
pub mod Measures
pub mod Once
pub mod Summary
mod Tests
use ion_sfu.Prelude.{
  ℕ, Bool, true, false, not, ◌&&◌, ◌||◌, List, [], ◌∷◌, ◌++◌, Option, none, some, ltb, ◌==◌,
  if◌then◌else◌, ◌>>=◌,
}
use ion_sfu.Buffer.Stream.{RtpPacket}
use ion_sfu.Buffer.Stream.Lifecycle.{Endpoint}
use ion_sfu.Sfu.Sequencer.{Sequencer, PacketMeta, get_seq_no_pairs}
use ion_sfu.Sfu.DownTrack.{
  DownTrack, DownTrackType, simple_down_track, simulcast_down_track, Forwarded,
}
use ion_sfu.Sfu.DownTrack.Layers.{Conditions, handle_layer_change}
use ion_sfu.Sfu.Receiver.{
  WebRtcReceiver, RtcpPacket, picture_loss_indication, full_intra_request,
  receiver_estimated_maximum_bitrate, receiver_report, transport_layer_nack, other_packet,
  with_down,
}
use ion_sfu.Sfu.Receiver.Forwarding.{WriteResult, send_rtcp}
use ion_sfu.Sfu.Receiver.Retransmission.{retransmit_packets}

-- The variables of the loop: `fwdPkts`, `pliOnce`, `firOnce`, `maxRatePacketLoss` and
-- `expectedMinBitrate`.
pub record Gathered : Type 0 where
  pub fwd_pkts : List RtcpPacket
  pub pli_once : Bool
  pub fir_once : Bool
  pub max_rate_packet_loss : ℕ
  pub expected_min_bitrate : ℕ

abbrev pub nothing_gathered : Gathered
nothing_gathered = record {
  fwd_pkts = [];
  pli_once = true;
  fir_once = true;
  max_rate_packet_loss = 0;
  expected_min_bitrate = 0;
}

-- The loop over the reports of a receiver report.
unfoldable pub max_loss : ℕ → List ℕ → ℕ
max_loss loss [] = loss
max_loss loss (r ∷ rs) = max_loss (if (loss == 0) || ltb loss r then r else loss) rs

unfoldable pub min_bitrate : ℕ → ℕ → ℕ
min_bitrate expected bitrate = if (expected == 0) || ltb bitrate expected then bitrate else expected

-- A round of the loop, for all but the nacks; `d` is the track, `ssrc` its `lastSSRC`.
unfoldable pub gather : (own ssrc : ℕ) → Gathered → RtcpPacket → Gathered
gather own ssrc g (picture_loss_indication s m) =
    if g.pli_once
    then record g {
      fwd_pkts = g.fwd_pkts ++ (picture_loss_indication own ssrc ∷ []);
      pli_once = false;
    }
    else g
gather own ssrc g (full_intra_request s m) =
    if g.fir_once
    then record g { fwd_pkts = g.fwd_pkts ++ (full_intra_request own ssrc ∷ []); fir_once = false }
    else g
gather own ssrc g (receiver_estimated_maximum_bitrate b) = record g {
  expected_min_bitrate = min_bitrate g.expected_min_bitrate b;
}
gather own ssrc g (receiver_report fractions) = record g {
  max_rate_packet_loss = max_loss g.max_rate_packet_loss fractions;
}
gather own ssrc g (transport_layer_nack nacks) = g
gather own ssrc g other_packet = g

-- The loop over the pairs of a nack: the packets to send again, in order.
unfoldable pub nacked_packets : ℕ → Sequencer → List (List ℕ) → List PacketMeta × Sequencer
nacked_packets ref_time n [] = ([], n)
nacked_packets ref_time n (pair ∷ pairs) =
    let (ms, n') = get_seq_no_pairs ref_time n pair in
    let (rest, n'') = nacked_packets ref_time n' pairs in (ms ++ rest, n'')

-- The rounds one after another.
unfoldable pub gather_all : (own ssrc : ℕ) → Gathered → List RtcpPacket → Gathered
gather_all own ssrc g [] = g
gather_all own ssrc g (p ∷ ps) = gather_all own ssrc (gather own ssrc g p) ps

-- The numbers that a packet asks for, `none` if it is no nack.
unfoldable pub asks_for : RtcpPacket → Option (List (List ℕ))
asks_for (transport_layer_nack nacks) = some nacks
asks_for other = none

module _ {F : Type 0} (buffers : ℕ → Option (Endpoint F)) (read_packet : List ℕ → Option RtpPacket)
    (write : ℕ → Forwarded → WriteResult) (ref_time : ℕ) where
  -- The branch for a nack: whether `handleRTCP` returns, as the receiver is closed, and the receiver.
  unfoldable pub answer_nack : WebRtcReceiver → ℕ → List (List ℕ) → Bool × Option WebRtcReceiver
  answer_nack w t nacks = elim (w.tracks t).down.sequencer [
    | none ↦ (false, some w)
    | some n ↦
        let (ms, n') = nacked_packets ref_time n nacks in
        retransmit_packets buffers read_packet write
          (with_down w t (record (w.tracks t).down { sequencer = some n' })) t ms
  ]

  -- The branch, for every packet.
  unfoldable pub answer_packet :
      WebRtcReceiver → ℕ → Option (List (List ℕ)) → Bool × Option WebRtcReceiver
  answer_packet w t none = (false, some w)
  answer_packet w t (some nacks) = answer_nack w t nacks

  -- The loop: whether `handleRTCP` returns in it, what it gathered, and the receiver.
  unfoldable pub handle_packets :
      List RtcpPacket
      → (own ssrc t : ℕ) → Gathered
      → WebRtcReceiver
      → Option (Bool × Gathered × WebRtcReceiver)
  handle_packets [] own ssrc t g w = some (false, g, w)
  handle_packets (p ∷ ps) own ssrc t g w =
      let (returns, answered) = answer_packet w t (asks_for p) in
      answered >>= λ w'.
      (let rest = handle_packets ps own ssrc t (gather own ssrc g p) w' in
        if returns then some (true, g, w') else rest)

  -- `handleLayerChange`, where it is called.
  unfoldable pub change_layer : Conditions → Gathered → ℕ → WebRtcReceiver → WebRtcReceiver
  change_layer c g t w =
      let d = (w.tracks t).down in
      let measured = record c {
        max_rate_packet_loss = g.max_rate_packet_loss;
        expected_min_bitrate = g.expected_min_bitrate;
      } in
      let (d', gate) = handle_layer_change measured t d w.gate in
      let changed = with_down (record w { gate = gate }) t d' in
      elim d.track_type [
        | simple_down_track ↦ w
        | simulcast_down_track ↦
            if not (g.max_rate_packet_loss == 0) || not (g.expected_min_bitrate == 0)
            then changed
            else w
      ]

  -- What follows the loop.
  unfoldable pub after_packets :
      Conditions → ℕ → Bool × Gathered × WebRtcReceiver → Option WebRtcReceiver
  after_packets c t (true, g, w) = some w
  after_packets c t (false, g, w) =
      let changed = change_layer c g t w in
      elim g.fwd_pkts [ [] ↦ some changed | p ∷ ps ↦ send_rtcp changed c.now (p ∷ ps) ]

  unfoldable pub handle_rtcp :
      Conditions → ℕ → List RtcpPacket → WebRtcReceiver → Option WebRtcReceiver
  handle_rtcp c t pkts w =
      let d = (w.tracks t).down in
      let handled =
        handle_packets pkts d.ssrc d.last_ssrc t nothing_gathered w >>= after_packets c t in
      if not d.enabled || (d.last_ssrc == 0) then some w else handled
