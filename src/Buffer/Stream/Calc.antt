-- ===== src/Buffer/Stream/Calc.antt =====
-- pkg/buffer/buffer.go: `calc`, a packet's way through the buffer, and the tests on timestamps.
-- `calc` runs on a bound buffer. `read_packet` stands for `rtp.Packet.Unmarshal`, `read_level` for
-- `rtp.AudioLevelExtension.Unmarshal`; both are none on an error.
use ion_sfu.Prelude.{
  ℕ, ◌+◌, ◌-◌, ◌*◌, ◌/◌, ◌%◌, ◌^◌, Bool, false, not, ◌&&◌, ◌||◌, List, [], ◌∷◌, ◌++◌, Option, none,
  some, ltb, leb, ◌==◌, if◌then◌else◌, length, get_or, be16, sub32, bit_and, ok, err, panic,
}
use ion_sfu.Buffer.Bucket.{add_packet}
use ion_sfu.Buffer.Vp8.{Vp8, zero_vp8, unmarshal}
use ion_sfu.Buffer.H264.{is_h264_keyframe}
use ion_sfu.Buffer.Stream.{
  Buffer, Mime, FloatOps, RtpPacket, ExtPacket, Packet, track, build_nack_packet, get_rtcp,
}

-- The mask is the source's.
unfoldable pub is_timestamp_wrap_around : (timestamp1 timestamp2 : ℕ) → Bool
is_timestamp_wrap_around timestamp1 timestamp2 =
    (bit_and timestamp1 201326592 == 0) && (bit_and timestamp2 201326592 == 201326592)

unfoldable pub is_later_timestamp : (timestamp1 timestamp2 : ℕ) → Bool
is_later_timestamp timestamp1 timestamp2 =
    if ltb timestamp2 timestamp1
    then not (is_timestamp_wrap_around timestamp2 timestamp1)
    else is_timestamp_wrap_around timestamp1 timestamp2

-- What `calc` hands to the callbacks.
pub data Signal : Type 0 where
  feedback : List Packet → Signal
  feedback_twcc : (sn arrival_time : ℕ) → (marker : Bool) → Signal
  audio_level_of : ℕ → Signal

-- The payload's descriptor and whether it begins a key frame; none if it cannot be read.
unfoldable pub read_payload : Mime → List ℕ → Option (Option Vp8 × Bool)
read_payload Mime.vp8 payload =
    let (failed, v) = unmarshal zero_vp8 (some payload) in
    elim failed [ none ↦ some (some v, v.is_key_frame) | some e ↦ none ]
read_payload Mime.h264 payload = some (none, is_h264_keyframe payload)
read_payload Mime.other payload = some (none, false)

module _ {F : Type 0} where
  -- The first 25 packets may lower the first number and raise the highest layer.
  unfoldable pub probe : Buffer F → (sn : ℕ) → Option Vp8 → Buffer F
  probe b sn descriptor =
      let layer : ℕ = elim descriptor [
        | none ↦ b.max_temporal_layer
        | some v ↦ if ltb b.max_temporal_layer v.tid then v.tid else b.max_temporal_layer
      ] in
      if ltb b.min_packet_probe 25
      then record b {
        base_sn = if ltb sn b.base_sn then sn else b.base_sn;
        max_temporal_layer = layer;
        min_packet_probe = b.min_packet_probe + 1;
      }
      else b

  unfoldable pub note_timestamp : Buffer F → (timestamp arrival_time : ℕ) → Buffer F
  note_timestamp b timestamp arrival_time =
      if (b.latest_timestamp_time == 0) || is_later_timestamp timestamp b.latest_timestamp
      then record b { latest_timestamp = timestamp; latest_timestamp_time = arrival_time }
      else b

  -- The signals of the packet's header extensions.
  unfoldable pub extension_signals :
      (List ℕ → Option ℕ) → Buffer F → RtpPacket → (arrival_time : ℕ) → List Signal
  extension_signals read_level b p arrival_time =
      let congestion : List Signal = elim (p.extension b.twcc_ext) [
        | none ↦ []
        | some ext ↦
            if ltb 1 (length ext)
            then feedback_twcc (be16 (get_or ext 0 0) (get_or ext 1 0)) arrival_time p.marker ∷ []
            else []
      ] in
      let level : List Signal = elim (p.extension b.audio_ext) [
        | none ↦ []
        | some ext ↦ elim (read_level ext) [ none ↦ [] | some l ↦ audio_level_of l ∷ [] ]
      ] in
      (if b.twcc then congestion else [])
      ++ (if b.audio_level && b.on_audio_level then level else [])

module _ {F : Type 0} (f : FloatOps F) where
  -- The interarrival jitter; a difference of -2^31 keeps its sign.
  unfoldable pub note_jitter : Buffer F → (timestamp arrival_time : ℕ) → Buffer F
  note_jitter b timestamp arrival_time =
      let arrival = arrival_time / 1000000 * (b.clock_rate / 1000) % 2 ^ 32 in
      let transit = sub32 arrival timestamp in
      let d = sub32 transit b.last_transit in
      let size = if ltb d (2 ^ 31) then d else 2 ^ 32 - d in
      record b {
        stats =
            if b.last_transit == 0
            then b.stats
            else record b.stats { jitter = f.next_jitter (d == 2 ^ 31) size b.stats.jitter };
        last_transit = transit;
      }

  -- The feedback at the end: NACKs, and once a second a report.
  unfoldable pub send_feedback : Buffer F → (arrival_time now : ℕ) → List Signal × Buffer F
  send_feedback b arrival_time now =
      let diff = arrival_time - b.last_report in
      let (asks, asked) = if b.nack then build_nack_packet b else ([], b) in
      let nacks : List Signal = elim asks [ [] ↦ [] | p ∷ ps ↦ feedback (p ∷ ps) ∷ [] ] in
      let rated : Buffer F = record asked {
        bitrate = 8 * asked.bitrate_helper * 1000000000 % 2 ^ 64 / diff;
      } in
      let (reports, reported) = get_rtcp f rated now in
      if leb 1000000000 diff
      then (
        nacks ++ (feedback reports ∷ []),
        record reported { last_report = arrival_time; bitrate_helper = 0 },
      )
      else (nacks, asked)

  -- A packet that the bucket has taken, of `size` bytes.
  unfoldable pub take_packet :
      (List ℕ → Option ℕ)
      → Buffer F
      → RtpPacket
      → (sn size arrival_time now : ℕ) → List Signal × Buffer F
  take_packet read_level b p sn size arrival_time now =
      let counted : Buffer F = record b {
        stats = record b.stats {
          total_byte = (b.stats.total_byte + size) % 2 ^ 64;
          packet_count = (b.stats.packet_count + 1) % 2 ^ 32;
        };
        bitrate_helper = (b.bitrate_helper + size) % 2 ^ 64;
      } in
      elim (read_payload b.mime p.payload) [
        | none ↦ ([], counted)
        | some (descriptor, key_frame) ↦
            let ext : ExtPacket = record {
              head = sn == counted.max_seq_no;
              cycle = counted.cycles;
              arrival = arrival_time;
              packet = p;
              payload = descriptor;
              key_frame = key_frame;
            } in
            let probed = probe counted sn descriptor in
            let queued : Buffer F = record probed {
              ext_packets = probed.ext_packets ++ (ext ∷ []);
            } in
            let timed =
              note_jitter (note_timestamp queued p.timestamp arrival_time) p.timestamp
                arrival_time in
            let (sent, b') = send_feedback timed arrival_time now in
            (extension_signals read_level timed p arrival_time ++ sent, b')
      ]

  -- `none` is a panic.
  unfoldable pub calc :
      (List ℕ → Option RtpPacket)
      → (List ℕ → Option ℕ)
      → Buffer F
      → (pkt : List ℕ) → (arrival_time now : ℕ) → Option (List Signal × Buffer F)
  calc read_packet read_level b pkt arrival_time now =
      let sn = be16 (get_or pkt 2 0) (get_or pkt 3 0) in
      let tracked = track b sn arrival_time in
      let (reply, bucket) = add_packet tracked.bucket pkt sn (sn == tracked.max_seq_no) in
      let stored : Buffer F = record tracked { bucket = bucket } in
      if ltb (length pkt) 4 then none else elim reply [
        | panic ↦ none
        | err e ↦ some ([], stored)
        | ok pb ↦ elim (read_packet pb) [
          | none ↦ some ([], stored)
          | some p ↦ some (take_packet read_level stored p sn (length pkt) arrival_time now)
        ]
      ]
