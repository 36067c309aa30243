-- ===== src/Sfu/Receiver/Retransmission.antt =====
-- pkg/sfu/receiver.go: RetransmitPackets, the packets that a subscriber asks for again.
-- `buffers` has the buffers of the layers, `none` for nil; the layers are below 3. `read_packet`
-- stands for `rtp.Packet.Unmarshal`, `none` on an error. The worker's jobs run at once, and it is
-- stopped when the receiver is closed.
pub mod Same
mod Tests
use ion_sfu.Prelude.{
  ℕ, Bool, true, false, ◌&&◌, List, [], ◌∷◌, Option, none, some, if◌then◌else◌, length, Outcome, ok,
  err, panic,
}
use ion_sfu.Buffer.Vp8.{Parsed, zero_vp8, unmarshal, modify_vp8_temporal_payload}
use ion_sfu.Buffer.Stream.{RtpPacket}
use ion_sfu.Buffer.Stream.Lifecycle.{Endpoint, ReadError, get_packet_of}
use ion_sfu.Sfu.Sequencer.{PacketMeta, get_vp8_payload_meta}
use ion_sfu.Sfu.DownTrack.{DownTrack, Forwarded, update_stats}
use ion_sfu.Sfu.Receiver.{WebRtcReceiver, wrote, emit, with_down}
use ion_sfu.Sfu.Receiver.Forwarding.{WriteResult, written, stream_closed, write_failed}

-- What one look for a packet finds: nothing, which ends the loop; nothing usable, which ends the
-- round; a panic; the size and the payload of the packet.
pub data Fetched : Type 0 where
  ends skips panics : Fetched
  packet : (size : ℕ) → (payload : List ℕ) → Fetched

-- The size of the slices of `packetFactory`.
abbrev pub slice_size : ℕ
slice_size = 1460

-- The end of the branch for VP8: the error of its `Unmarshal` skips the packet.
unfoldable pub with_meta : PacketMeta → List ℕ → Parsed → Option (List ℕ)
with_meta m payload (some e, v) = none
with_meta m payload (none, v) =
    let (tlz_idx, pic_id) = get_vp8_payload_meta m in
    some (modify_vp8_temporal_payload payload v.pic_id_idx v.tlz_idx pic_id tlz_idx v.m_bit)

-- The payload to send again, `none` where the packet is skipped.
unfoldable pub payload_again : DownTrack → PacketMeta → List ℕ → Option (List ℕ)
payload_again d m payload =
    if d.simulcast.temporal_supported && d.is_vp8_mime
    then with_meta m payload (unmarshal zero_vp8 (some payload))
    else some payload

unfoldable pub sent_again : DownTrack → PacketMeta → List ℕ → Forwarded
sent_again d m buf = record {
  payload_type = d.payload_type;
  timestamp = m.timestamp;
  sequence_number = m.target_seq_no;
  ssrc = d.ssrc;
  payload = buf;
}

-- How a round ends: the loop goes on, it ends, or the code panics.
pub data Round : Type 0 where
  goes_on ended : WebRtcReceiver → Round
  panicked : Round

-- A write that fails is only logged.
pub count_written : WriteResult → WebRtcReceiver → (t size : ℕ) → Forwarded → WebRtcReceiver
count_written written w t size f =
    emit (with_down w t (update_stats (w.tracks t).down size)) (wrote t f)
count_written stream_closed w t size f = w
count_written write_failed w t size f = w

pub write_again :
    (ℕ → Forwarded → WriteResult)
    → WebRtcReceiver
    → (t size : ℕ) → PacketMeta
    → Option (List ℕ)
    → Round
write_again write w t size m none = goes_on w
write_again write w t size m (some buf) =
    let f = sent_again (w.tracks t).down m buf in goes_on (count_written (write t f) w t size f)

pub round_of : (ℕ → Forwarded → WriteResult) → WebRtcReceiver → ℕ → PacketMeta → Fetched → Round
round_of write w t m ends = ended w
round_of write w t m skips = goes_on w
round_of write w t m panics = panicked
round_of write w t m (packet size payload) =
    write_again write w t size m (payload_again (w.tracks t).down m payload)

module _ {F : Type 0} (buffers : ℕ → Option (Endpoint F))
    (read_packet : List ℕ → Option RtpPacket) where
  unfoldable pub read_bytes : Outcome ReadError (List ℕ) → Fetched
  read_bytes (ok bytes) = elim (read_packet bytes) [
    | none ↦ skips
    | some p ↦ packet (length bytes) p.payload
  ]
  read_bytes (err ReadError.eof) = ends
  read_bytes (err e) = skips
  read_bytes panic = panics

  unfoldable pub fetch : PacketMeta → Fetched
  fetch m = elim (buffers m.layer) [
    | none ↦ ends
    | some e ↦ read_bytes (get_packet_of e slice_size m.source_seq_no)
  ]

  -- The job of the worker; `none` is a panic.
  unfoldable pub send_again :
      (ℕ → Forwarded → WriteResult) → List PacketMeta → ℕ → WebRtcReceiver → Option WebRtcReceiver
  send_again write [] t w = some w
  send_again write (m ∷ ms) t w = elim (round_of write w t m (fetch m)) [
    | goes_on w' ↦ send_again write ms t w'
    | ended w' ↦ some w'
    | panicked ↦ none
  ]

  -- Whether it returns `io.ErrClosedPipe`, and the receiver after the job.
  unfoldable pub retransmit_packets :
      (ℕ → Forwarded → WriteResult)
      → WebRtcReceiver
      → ℕ
      → List PacketMeta
      → Bool × Option WebRtcReceiver
  retransmit_packets write w t packets =
      let sent = send_again write packets t w in
      if w.gate.closed then (true, some w) else (false, sent)
