-- ===== src/Buffer/Stream.antt =====
-- pkg/buffer/buffer.go: the numbers of an incoming stream, its statistics and the reports on it.
-- The lock and the logger are left out, and atomic fields are fields. `nacker` is nil where `nack`
-- is false. What Go computes in floating point is a parameter (`FloatOps`), as is what pion/rtp
-- reads from a packet (`Reader`). Times are positive numbers.
pub mod Calc
pub mod Tracking
pub mod Reports
pub mod Lifecycle
pub mod Replay
mod Tests
use ion_sfu.Prelude.{
  ℕ, zero, suc, ◌+◌, ◌-◌, ◌*◌, ◌/◌, ◌%◌, ◌^◌, Bool, true, false, not, ◌&&◌, ◌||◌, List, [], ◌∷◌,
  ◌++◌, Option, none, some, ltb, leb, ◌==◌, if◌then◌else◌, bit_or, add32, sub32, sub16,
}
use ion_sfu.Buffer.Nack.{NackQueue, NackPair, push, remove, pairs}
use ion_sfu.Buffer.Bucket.{Bucket}
use ion_sfu.Buffer.Vp8.{Vp8}

-- The floating-point expressions: the next jitter for the sign and the size of a difference, a
-- quotient, its two tests, `uint64(float64(br)*1.09)`, `uint64(float64(br)*float64(1-0.5*rate))`,
-- and the conversion to uint32.
pub record FloatOps (F : Type 0) : Type 0 where
  pub next_jitter : Bool → ℕ → F → F
  pub ratio : ℕ → ℕ → F
  pub below_2_percent : F → Bool
  pub above_10_percent : F → Bool
  pub raised : ℕ → ℕ
  pub lowered : ℕ → F → ℕ
  pub whole : F → ℕ

pub record Stats (F : Type 0) : Type 0 where
  pub last_expected : ℕ
  pub last_received : ℕ
  pub lost_rate : F
  pub packet_count : ℕ
  pub jitter : F
  pub total_byte : ℕ

-- The names that the code compares `mime` with.
pub data Mime : Type 0 where
  vp8 h264 other : Mime

-- `rtp.Packet`, with `GetExtension`.
pub record RtpPacket : Type 0 where
  pub timestamp : ℕ
  pub marker : Bool
  pub payload : List ℕ
  pub extension : ℕ → Option (List ℕ)

pub record ExtPacket : Type 0 where
  pub head : Bool
  pub cycle : ℕ
  pub arrival : ℕ
  pub packet : RtpPacket
  pub payload : Option Vp8
  pub key_frame : Bool

pub record Buffer (F : Type 0) : Type 0 where
  pub bucket : Bucket
  pub nacker : NackQueue
  pub ext_packets : List ExtPacket
  pub media_ssrc : ℕ
  pub clock_rate : ℕ
  pub max_bitrate : ℕ
  pub last_report : ℕ
  pub twcc_ext : ℕ
  pub audio_ext : ℕ
  pub mime : Mime
  pub remb : Bool
  pub nack : Bool
  pub twcc : Bool
  pub audio_level : Bool
  pub on_audio_level : Bool
  pub min_packet_probe : ℕ
  pub max_temporal_layer : ℕ
  pub bitrate : ℕ
  pub bitrate_helper : ℕ
  pub last_sr_ntp_time : ℕ
  pub last_sr_rtp_time : ℕ
  pub last_sr_recv : ℕ
  pub base_sn : ℕ
  pub cycles : ℕ
  pub last_transit : ℕ
  pub max_seq_no : ℕ
  pub stats : Stats F
  pub latest_timestamp : ℕ
  pub latest_timestamp_time : ℕ

-- The cycles of a number, from the highest number so far, and the number.
unfoldable pub ext_sn_of : (cycles max_seq_no sn : ℕ) → ℕ
ext_sn_of cycles max_seq_no sn =
    if ltb max_seq_no sn && leb 32768 sn && ltb max_seq_no 32768
    then bit_or (sub32 cycles 65536) sn
    else bit_or cycles sn

-- `for i := uint16(1); i < diff; i++`: `n` rounds from `i` on.
unfoldable pub push_missing : (n i cycles max_seq_no sn : ℕ) → NackQueue → NackQueue
push_missing zero i cycles max_seq_no sn q = q
push_missing (suc n) i cycles max_seq_no sn q =
    push_missing n (i + 1) cycles max_seq_no sn (push q (ext_sn_of cycles max_seq_no (sub16 sn i)))

module _ {F : Type 0} where
  -- The first part of `calc`: the highest number, its cycles and the missing numbers.
  unfoldable pub track : Buffer F → (sn arrival_time : ℕ) → Buffer F
  track b sn arrival_time =
      let diff = sub16 sn b.max_seq_no in
      let cycles = if ltb sn b.max_seq_no then add32 b.cycles 65536 else b.cycles in
      if b.stats.packet_count == 0
      then record b { base_sn = sn; max_seq_no = sn; last_report = arrival_time }
      else if ltb diff 32768
      then record b {
        cycles = cycles;
        nacker =
            if b.nack then push_missing (diff - 1) 1 cycles b.max_seq_no sn b.nacker else b.nacker;
        max_seq_no = sn;
      }
      else if b.nack
      then record b { nacker = remove b.nacker (ext_sn_of b.cycles b.max_seq_no sn) }
      else b

-- `rtcp.ReceptionReport`
pub record ReceptionReport : Type 0 where
  pub ssrc : ℕ
  pub fraction_lost : ℕ
  pub total_lost : ℕ
  pub last_sequence_number : ℕ
  pub jitter : ℕ
  pub last_sender_report : ℕ
  pub delay : ℕ

-- The packets of pion/rtcp that the buffer sends.
pub data Packet : Type 0 where
  transport_layer_nack : (ssrc : ℕ) → List NackPair → Packet
  picture_loss_indication : (ssrc : ℕ) → Packet
  receiver_report : ReceptionReport → Packet
  remb_packet : (bitrate ssrc : ℕ) → Packet

abbrev pub ext_max_seq : {F : Type 0} → Buffer F → ℕ
ext_max_seq b = bit_or b.cycles b.max_seq_no

module _ {F : Type 0} where
  -- The packets, none of which is sent for an empty list, and the buffer after it.
  unfoldable pub build_nack_packet : Buffer F → List Packet × Buffer F
  build_nack_packet b =
      let (nacks, ask_keyframe, nacker) = pairs b.nacker (ext_max_seq b) in
      let asks : List Packet = elim nacks [
        | [] ↦ []
        | n ∷ ns ↦ transport_layer_nack b.media_ssrc (n ∷ ns) ∷ []
      ] in
      (
        asks ++ (if ask_keyframe then picture_loss_indication b.media_ssrc ∷ [] else []),
        record b { nacker = nacker },
      )

module _ {F : Type 0} (f : FloatOps F) where
  unfoldable pub build_remb_packet : Buffer F → Packet × Buffer F
  build_remb_packet b =
      let rate = b.stats.lost_rate in
      let up = if f.below_2_percent rate then (f.raised b.bitrate + 2000) % 2 ^ 64 else b.bitrate in
      let down = if f.above_10_percent rate then f.lowered up rate else up in
      let capped = if ltb b.max_bitrate down then b.max_bitrate else down in
      (
        remb_packet (if ltb capped 100000 then 100000 else capped) b.media_ssrc,
        record b { stats = record b.stats { total_byte = 0 } },
      )

  -- `now` is the clock's reading.
  unfoldable pub build_reception_report : Buffer F → (now : ℕ) → ReceptionReport × Buffer F
  build_reception_report b now =
      let expected = add32 (sub32 (ext_max_seq b) b.base_sn) 1 in
      let count = b.stats.packet_count in
      let expected_interval = sub32 expected b.stats.last_expected in
      let received_interval = sub32 count b.stats.last_received in
      let lost_interval = sub32 expected_interval received_interval in
      let delay_ms = (now - b.last_sr_recv) / 1000000 % 2 ^ 32 in
      (
        record {
          ssrc = b.media_ssrc;
          fraction_lost =
              if not (expected_interval == 0) && ltb 0 lost_interval
              then lost_interval * 256 % 2 ^ 32 / expected_interval % 256
              else 0;
          total_lost = if ltb count expected && not (count == 0) then sub32 expected count else 0;
          last_sequence_number = ext_max_seq b;
          jitter = f.whole b.stats.jitter;
          last_sender_report = b.last_sr_ntp_time / 2 ^ 16 % 2 ^ 32;
          delay =
              if b.last_sr_recv == 0
              then 0
              else bit_or (delay_ms / 1000 * 2 ^ 16 % 2 ^ 32)
                  (delay_ms % 1000 * 65536 % 2 ^ 32 / 1000);
        },
        record b {
          stats = record b.stats {
            last_expected = expected;
            last_received = count;
            lost_rate = f.ratio lost_interval expected_interval;
          };
        },
      )

  unfoldable pub get_rtcp : Buffer F → (now : ℕ) → List Packet × Buffer F
  get_rtcp b now =
      let (report, b') = build_reception_report b now in
      let (estimate, b'') = build_remb_packet b' in
      if b'.remb && not b'.twcc
      then (receiver_report report ∷ (estimate ∷ []), b'')
      else (receiver_report report ∷ [], b')

  unfoldable pub set_sender_report_data : Buffer F → (rtp_time ntp_time now : ℕ) → Buffer F
  set_sender_report_data b rtp_time ntp_time now = record b {
    last_sr_ntp_time = ntp_time;
    last_sr_rtp_time = rtp_time;
    last_sr_recv = now;
  }
