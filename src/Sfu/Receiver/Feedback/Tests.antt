-- ===== src/Sfu/Receiver/Feedback/Tests.antt =====
-- A datagram of reports.
use ion_sfu.Prelude.{ℕ, ◌+◌, ◌≡◌, refl, true, false, List, [], ◌∷◌, none, length, arith, Option}
use ion_sfu.Buffer.Stream.{RtpPacket}
use ion_sfu.Buffer.Stream.Lifecycle.{Endpoint}
use ion_sfu.Sfu.DownTrack.{DownTrack, simulcast_down_track, SimulcastTrackHelpers, Forwarded}
use ion_sfu.Sfu.Receiver.{
  WebRtcReceiver, Track, RtcpPacket, picture_loss_indication, full_intra_request,
  receiver_estimated_maximum_bitrate, receiver_report, transport_layer_nack, new_receiver,
}
use ion_sfu.Sfu.Receiver.Forwarding.{WriteResult, written}
use ion_sfu.Sfu.Receiver.Feedback.{
  Gathered, max_loss, min_bitrate, gather, asks_for, answer_nack, answer_packet, handle_packets,
}
use ion_sfu.Sfu.Receiver.Feedback.Measures.{fractions, bitrates, maximum, lowest_of}
use ion_sfu.Sfu.Receiver.Feedback.Once.{has_pli, has_fir, one_if, requests}
use ion_sfu.Sfu.Receiver.Feedback.Summary.{handle_packets-summary}

abbrev helpers : SimulcastTrackHelpers
helpers = record {
  switch_delay = 0;
  temporal_supported = false;
  l_ts_calc = 0;
  p_ref_pic_id = 0;
  ref_pic_id = 0;
  l_pic_id = 0;
  p_ref_tlz_idx = 0;
  ref_tlz_idx = 0;
  l_tlz_idx = 0;
}

-- A subscriber's track, on layer 0.
abbrev subscribed : DownTrack
subscribed = record {
  bound = true;
  is_vp8_mime = true;
  is_video = true;
  ssrc = 77;
  payload_type = 96;
  sequencer = none;
  track_type = simulcast_down_track;
  current_spatial_layer = 0;
  target_spatial_layer = 0;
  temporal_layer = 0;
  enabled = true;
  re_sync = true;
  sn_offset = 0;
  ts_offset = 0;
  last_ssrc = 10;
  last_sn = 0;
  last_ts = 0;
  simulcast = helpers;
  max_spatial_layer = 2;
  max_temporal_layer = 2;
  octet_count = 0;
  packet_count = 0;
}

-- Every track has the id of the receiver's track.
abbrev heap : ℕ → Track
heap t = record { id = 5; down = subscribed; is_closed = false }

abbrev source : WebRtcReceiver
source = new_receiver heap true

abbrev reports : List RtcpPacket
reports =
    picture_loss_indication 1 77
    ∷ receiver_report (3 ∷ 9 ∷ 4 ∷ [])
    ∷ receiver_estimated_maximum_bitrate 500000
    ∷ picture_loss_indication 1 77
    ∷ transport_layer_nack ((20 ∷ 21 ∷ []) ∷ [])
    ∷ receiver_estimated_maximum_bitrate 300000
    ∷ full_intra_request 1 77
    ∷ []

abbrev gathered : Gathered
gathered = record {
  fwd_pkts = picture_loss_indication 77 10 ∷ full_intra_request 77 10 ∷ [];
  pli_once = false;
  fir_once = false;
  max_rate_packet_loss = 9;
  expected_min_bitrate = 300000;
}

abbrev no_buffers : ℕ → Option (Endpoint ℕ)
no_buffers layer = none

abbrev unreadable : List ℕ → Option RtpPacket
unreadable bytes = none

abbrev all_written : ℕ → Forwarded → WriteResult
all_written t f = written

handle_packets-summary_example :
    (gathered.max_rate_packet_loss ≡ maximum (fractions reports))
    × (gathered.expected_min_bitrate ≡ lowest_of (bitrates reports))
    × ((requests 77 10 gathered.fwd_pkts).0 ≡ one_if (has_pli reports))
    × ((requests 77 10 gathered.fwd_pkts).1 ≡ one_if (has_fir reports))
    × (length gathered.fwd_pkts ≡ one_if (has_pli reports) + one_if (has_fir reports))
unfolding handle_packets answer_packet answer_nack asks_for gather max_loss min_bitrate new_receiver
handle_packets-summary_example =
    handle_packets-summary no_buffers unreadable all_written 0 reports 77 10 1 source source
      gathered refl (omega arith, (omega arith, tt))
