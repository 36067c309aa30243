-- ===== src/Sfu/DownTrack.antt =====
-- pkg/sfu/downtrack.go: a track that is sent to a subscriber, and how it forwards a packet of a
-- source without layers; pkg/sfu/simulcast.go: the state for the others.
-- Atomic fields are fields: each call runs alone. An int32 that may be negative, `temporalLayer`,
-- is the uint32 with the same bits; the spatial layers are never negative. `is_video` stands for
-- `d.Kind()`, `is_vp8_mime` for `d.mime == "video/vp8"`. What a call sends is its result.
pub mod Numbers
pub mod Layers
pub mod Binding
pub mod Simulcast
pub mod Steps
pub mod Continuity
mod Tests
use ion_sfu.Prelude.{
  ℕ, ◌+◌, ◌*◌, ◌%◌, Bool, true, false, not, ◌&&◌, ◌||◌, List, Option, none, some, ◌==◌,
  if◌then◌else◌, length, sub16, sub32, add32,
}
use ion_sfu.Sfu.Sequencer.{Sequencer}
use ion_sfu.Buffer.Vp8.{Vp8}

pub data DownTrackType : Type 0 where
  simple_down_track simulcast_down_track : DownTrackType

-- `simulcastTrackHelpers` without the two fields that nothing reads; times in nanoseconds.
pub record SimulcastTrackHelpers : Type 0 where
  pub switch_delay : ℕ
  pub temporal_supported : Bool
  pub l_ts_calc : ℕ
  pub p_ref_pic_id : ℕ
  pub ref_pic_id : ℕ
  pub l_pic_id : ℕ
  pub p_ref_tlz_idx : ℕ
  pub ref_tlz_idx : ℕ
  pub l_tlz_idx : ℕ

-- `DownTrack` without its ids, the callbacks and the objects of the WebRTC library.
pub record DownTrack : Type 0 where
  pub bound : Bool
  pub is_vp8_mime : Bool
  pub is_video : Bool
  pub ssrc : ℕ
  pub payload_type : ℕ
  pub sequencer : Option Sequencer
  pub track_type : DownTrackType
  pub current_spatial_layer : ℕ
  pub target_spatial_layer : ℕ
  pub temporal_layer : ℕ
  pub enabled : Bool
  pub re_sync : Bool
  pub sn_offset : ℕ
  pub ts_offset : ℕ
  pub last_ssrc : ℕ
  pub last_sn : ℕ
  pub last_ts : ℕ
  pub simulcast : SimulcastTrackHelpers
  pub max_spatial_layer : ℕ
  pub max_temporal_layer : ℕ
  pub octet_count : ℕ
  pub packet_count : ℕ

-- `buffer.ExtPacket` with the fields of its RTP packet; `vp8` is its parsed payload, if it is one.
pub record ExtPacket : Type 0 where
  pub head : Bool
  pub arrival : ℕ
  pub key_frame : Bool
  pub vp8 : Option Vp8
  pub ssrc : ℕ
  pub sequence_number : ℕ
  pub timestamp : ℕ
  pub payload : List ℕ

-- The fields of the RTP header that a track sets, and the payload.
pub record Forwarded : Type 0 where
  pub payload_type : ℕ
  pub timestamp : ℕ
  pub sequence_number : ℕ
  pub ssrc : ℕ
  pub payload : List ℕ

-- What a call sends: nothing, a picture loss indication to the source, or a packet.
pub data Effect : Type 0 where
  nothing : Effect
  pli : (sender_ssrc media_ssrc : ℕ) → Effect
  forward : Forwarded → Effect

pub update_stats : DownTrack → ℕ → DownTrack
update_stats d packet_len = record d {
  octet_count = add32 d.octet_count (packet_len % 4294967296);
  packet_count = add32 d.packet_count 1;
}

pub mute : DownTrack → Bool → DownTrack
mute d val =
    if (d.enabled && not val) || (not d.enabled && val)
    then d
    else let e = record d { enabled = not val } in if val then record e { re_sync = true } else e

-- The new offsets of `writeSimpleRTP` at a switch, and the end of the switch.
pub re_synced : DownTrack → ExtPacket → DownTrack
re_synced d p =
    let moved =
      if not (d.last_sn == 0)
      then record d {
        sn_offset = sub16 (sub16 p.sequence_number d.last_sn) 1;
        ts_offset = sub32 (sub32 p.timestamp d.last_ts) 1;
      }
      else d in
    record moved { last_ssrc = p.ssrc; re_sync = false }

-- `d.sequencer.push`, where there is a sequencer.
pub push_meta : Option Sequencer → (sn new_sn new_ts layer : ℕ) → Bool → Option ℕ × Option Sequencer
push_meta none sn new_sn new_ts layer head = (none, none)
push_meta (some n) sn new_sn new_ts layer head =
    let (m, n') = ion_sfu.Sfu.Sequencer.push n sn new_sn new_ts layer head in (m, some n')

-- `writeSimpleRTP` behind the switch.
pub forward_simple : DownTrack → ExtPacket → Effect × DownTrack
forward_simple d p =
    let new_sn = sub16 p.sequence_number d.sn_offset in
    let new_ts = sub32 p.timestamp d.ts_offset in
    let counted = update_stats d (length p.payload) in
    let (m, n) = push_meta d.sequencer p.sequence_number new_sn new_ts 0 p.head in
    let pushed = record counted { sequencer = n } in
    (
      forward (record {
        payload_type = d.payload_type;
        timestamp = new_ts;
        sequence_number = new_sn;
        ssrc = d.ssrc;
        payload = p.payload;
      }),
      if p.head then record pushed { last_sn = new_sn; last_ts = new_ts } else pushed,
    )

pub write_simple_rtp : DownTrack → ExtPacket → Effect × DownTrack
write_simple_rtp d p =
    if d.re_sync
    then (if d.is_video && not p.key_frame
        then (pli d.ssrc p.ssrc, d)
        else forward_simple (re_synced d p) p)
    else forward_simple d p
