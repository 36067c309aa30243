-- ===== src/Sfu/Receiver/Retransmission/Tests.antt =====
-- A VP8 frame that a subscriber asks for again.
use ion_sfu.Prelude.{ℕ, ◌≡◌, refl, arith, false, true, List, [], ◌∷◌, some}
use ion_sfu.Buffer.Vp8.{
  Vp8, unmarshal, read_extended, read_picture_id, read_tl0_pic_idx, read_tid, read_end,
  read_key_frame,
}
use ion_sfu.Sfu.Sequencer.{Sequencer, PacketMeta, new_sequencer, get_seq_no_pairs}
use ion_sfu.Sfu.Sequencer.Lookup.{new_sequencer-IsValid}
use ion_sfu.Sfu.DownTrack.{
  DownTrack, simulcast_down_track, SimulcastTrackHelpers, ExtPacket, forward,
}
use ion_sfu.Sfu.DownTrack.Simulcast.{drops, rewrite_panics, forward_simulcast}
use ion_sfu.Sfu.Receiver.Retransmission.{payload_again, sent_again}
use ion_sfu.Sfu.Receiver.Retransmission.Same.{sent_again-forward}

abbrev helpers : SimulcastTrackHelpers
helpers = record {
  switch_delay = 0;
  temporal_supported = true;
  l_ts_calc = 0;
  p_ref_pic_id = 0;
  ref_pic_id = 0;
  l_pic_id = 0;
  p_ref_tlz_idx = 0;
  ref_tlz_idx = 0;
  l_tlz_idx = 0;
}

-- A track with all temporal layers, and a sequencer of eight entries.
abbrev subscribed : DownTrack
subscribed = record {
  bound = true;
  is_vp8_mime = true;
  is_video = true;
  ssrc = 77;
  payload_type = 96;
  sequencer = some (new_sequencer 8);
  track_type = simulcast_down_track;
  current_spatial_layer = 0;
  target_spatial_layer = 0;
  temporal_layer = 131074;
  enabled = true;
  re_sync = true;
  sn_offset = 500;
  ts_offset = 0;
  last_ssrc = 10;
  last_sn = 0;
  last_ts = 0;
  simulcast = helpers;
  max_spatial_layer = 2;
  max_temporal_layer = 2;
  octet_count = 0;
  packet_count = 0;
}

abbrev frame : List ℕ
frame = 144 ∷ 224 ∷ 146 ∷ 52 ∷ 5 ∷ 128 ∷ 16 ∷ 2 ∷ []

abbrev descriptor : Vp8
descriptor = record {
  temporal_supported = true;
  picture_id = 4660;
  pic_id_idx = 2;
  m_bit = true;
  tl0_pic_idx = 5;
  tlz_idx = 4;
  tid = 2;
  is_key_frame = true;
}

abbrev source_packet : ExtPacket
source_packet = record {
  head = true;
  arrival = 1040000000;
  key_frame = true;
  vp8 = some descriptor;
  ssrc = 10;
  sequence_number = 521;
  timestamp = 50000;
  payload = frame;
}

sent_again-forward_example :
    let (out, e) = forward_simulcast subscribed source_packet 0 in
    (n' : Sequencer) × (m : PacketMeta) × (buf : List ℕ) × (e.sequencer ≡ some n')
    × ((get_seq_no_pairs 40 n' (21 ∷ [])).0 ≡ m ∷ [])
    × (rewrite_panics source_packet descriptor ≡ false)
    × (m.source_seq_no ≡ 521)
    × (m.layer ≡ 0)
    × (payload_again e m source_packet.payload ≡ some buf)
    × (out ≡ forward (sent_again e m buf))
unfolding unmarshal read_extended read_picture_id read_tl0_pic_idx read_tid read_end read_key_frame
    drops new_sequencer
sent_again-forward_example =
    sent_again-forward subscribed source_packet descriptor 0 40 (new_sequencer 8) refl refl refl
      refl refl (omega arith) refl refl (new_sequencer-IsValid 8 (omega arith)) (omega arith)
