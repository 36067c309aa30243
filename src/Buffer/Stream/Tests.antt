-- ===== src/Buffer/Stream/Tests.antt =====
-- Runs of the stream buffer, with numbers in place of Go's floating-point values.
use ion_sfu.Prelude.{
  Option, none, ok, List, ℕ, ◌+◌, ◌-◌, ◌*◌, ◌/◌, ◌≡◌, ◌<◌, refl, true, false, [], ◌∷◌, arith, inl,
  ltb,
}
use ion_sfu.Buffer.Nack.{new_nack_queue}
use ion_sfu.Buffer.Bucket.{Bucket}
use ion_sfu.Buffer.H264.{is_h264_keyframe, any_sps}
use ion_sfu.Buffer.Stream.{
  RtpPacket, Buffer, Stats, Mime, FloatOps, ext_sn_of, track, build_reception_report,
}
use ion_sfu.Buffer.Stream.Lifecycle.{
  Endpoint, Parameters, CodecType, Uri, RtcpFeedback, new_buffer, bind, write,
}
use ion_sfu.Buffer.Stream.Replay.{then_write, bind-write}
use ion_sfu.Buffer.Stream.Tracking.{IsTracking, push_below, unwrapped, track-missing}
use ion_sfu.Buffer.Stream.Reports.{IsReporting, build_reception_report-lost}

abbrev ops : FloatOps ℕ
ops = record {
  next_jitter = λ negative d j. (15 * j + d) / 16;
  ratio = λ a b. 100 * a / b;
  below_2_percent = λ r. ltb r 2;
  above_10_percent = λ r. ltb 10 r;
  raised = λ r. r * 109 / 100;
  lowered = λ r l. r * (200 - l) / 200;
  whole = λ r. r;
}

abbrev slots : Bucket
slots = record { buf = λ j. 0; size = 3000; init = true; step = 0; head_sn = 10; max_steps = 1 }

abbrev counts : Stats ℕ
counts = record {
  last_expected = 2;
  last_received = 2;
  lost_rate = 0;
  packet_count = 5;
  jitter = 0;
  total_byte = 0;
}

abbrev stream : Buffer ℕ
stream = record {
  bucket = slots;
  nacker = new_nack_queue;
  ext_packets = [];
  media_ssrc = 1;
  clock_rate = 90000;
  max_bitrate = 1000000;
  last_report = 0;
  twcc_ext = 0;
  audio_ext = 0;
  mime = Mime.vp8;
  remb = true;
  nack = true;
  twcc = false;
  audio_level = false;
  on_audio_level = false;
  min_packet_probe = 0;
  max_temporal_layer = 0;
  bitrate = 0;
  bitrate_helper = 0;
  last_sr_ntp_time = 0;
  last_sr_rtp_time = 0;
  last_sr_recv = 0;
  base_sn = 1;
  cycles = 0;
  last_transit = 0;
  max_seq_no = 10;
  stats = counts;
  latest_timestamp = 0;
  latest_timestamp_time = 0;
}

stream-IsTracking : IsTracking 0 stream
stream-IsTracking = record {
  some_packets = refl;
  asks = refl;
  round = refl;
  bound = omega arith;
  room = omega arith;
}

track-missing_example :
    ((track stream 13 0).nacker ≡ push_below 2 13 new_nack_queue)
    × (unwrapped (track stream 13 0) ≡ 13)
track-missing_example =
    track-missing 0 stream 13 0 stream-IsTracking (omega arith) (omega arith) (omega arith)
      (inl (omega arith))

abbrev ending : Buffer ℕ
ending = record stream { max_seq_no = 65533 }

-- A missing number just above the middle is taken for one of the round before.
middle_missed : ext_sn_of 65536 32766 32769 ≡ 32769
unfolding ext_sn_of
middle_missed = refl

stream-IsReporting : IsReporting stream
stream-IsReporting = record {
  first = omega arith;
  small = omega arith;
  more_expected = omega arith;
  more_received = omega arith;
  no_more = omega arith;
  in_all = omega arith;
}

build_reception_report-lost_example :
    let (r, b') = build_reception_report ops stream 0 in
    (r.total_lost ≡ 5)
    × (r.fraction_lost ≡ 5 * 256 / 8)
    × (5 * 256 / 8 < 256)
    × (b'.stats.last_expected ≡ 10)
    × (b'.stats.last_received ≡ 5)
build_reception_report-lost_example = build_reception_report-lost ops stream 0 stream-IsReporting

-- Three packets for two numbers, one of them late: half of the packets are reported as lost.
late_reported_lost :
    (build_reception_report ops
      (record stream { stats = record counts { last_expected = 8 } })
      0).0.fraction_lost
    ≡ 128
unfolding build_reception_report
late_reported_lost = refl

-- An aggregation packet with a unit of type 7.
sps_found : is_h264_keyframe (24 ∷ (0 ∷ (1 ∷ (6 ∷ (0 ∷ (2 ∷ (7 ∷ (9 ∷ [])))))))) ≡ true
unfolding is_h264_keyframe any_sps
sps_found = refl

abbrev unbound : Endpoint ℕ
unbound = new_buffer slots 0 7

abbrev settings : Parameters
settings = record {
  clock_rate = 90000;
  codec_type = CodecType.video;
  mime = Mime.vp8;
  rtcp_feedback = RtcpFeedback.nack_feedback ∷ [];
  header_extensions = (Uri.transport_cc, 3) ∷ [];
  max_bitrate = 1000000;
}

abbrev no_reader : List ℕ → Option RtpPacket
no_reader l = none

abbrev no_level : List ℕ → Option ℕ
no_level l = none

abbrev four_bytes : List ℕ
four_bytes = 128 ∷ (96 ∷ (0 ∷ (9 ∷ [])))

bind-write_example :
    (write ops no_reader no_level unbound four_bytes 5 6
      ≡ ok ([], record unbound { pending = record { arrival_time = 5; packet = four_bytes } ∷ [] }))
    × (bind ops no_reader no_level slots
          (record unbound { pending = record { arrival_time = 5; packet = four_bytes } ∷ [] })
          settings
          8
        ≡ then_write ops no_reader no_level
            (bind ops no_reader no_level slots unbound settings 8)
            four_bytes
            5
            8)
unfolding new_buffer
bind-write_example =
    bind-write ops no_reader no_level slots unbound settings four_bytes 5 6 8 refl refl
