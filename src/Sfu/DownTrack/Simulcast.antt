-- ===== src/Sfu/DownTrack/Simulcast.antt =====
-- pkg/sfu/downtrack.go and pkg/sfu/helpers.go: how a packet of a layered source is forwarded.
-- `d.payload` is a scratch slice: only the bytes copied to it count. It is from a pool of 1460
-- bytes; `write_panics` says where the code panics on a payload that does not fit.
pub mod Gapless
pub mod Kept
pub mod Switch
pub mod Stays
pub mod Noted
pub mod Panics
use ion_sfu.Prelude.{
  ℕ, ◌+◌, ◌-◌, ◌*◌, ◌/◌, ◌%◌, Bool, true, false, not, ◌&&◌, ◌||◌, List, [], Option, none, some, ltb,
  leb, ◌==◌, if◌then◌else◌, length, get_or, set, add8, sub8, add16, sub16, add32, sub32, low16,
  bit_or,
}
use ion_sfu.Buffer.Vp8.{Vp8, modify_vp8_temporal_payload}
use ion_sfu.Sfu.Sequencer.{Sequencer, zero_meta, set_vp8_payload_meta}
use ion_sfu.Sfu.DownTrack.{
  DownTrack, DownTrackType, simple_down_track, simulcast_down_track, SimulcastTrackHelpers,
  ExtPacket, Effect, nothing, pli, forward, Forwarded, push_meta, update_stats, write_simple_rtp,
}

-- `uint16(layer)` and `uint16(layer >> 16)`
abbrev pub current_layer : DownTrack → ℕ
current_layer d = low16 d.temporal_layer

abbrev pub current_target_layer : DownTrack → ℕ
current_target_layer d = d.temporal_layer / 65536

-- A frame at or below the target ends a switch of the temporal layer.
unfoldable pub finish_switch : DownTrack → Vp8 → DownTrack
finish_switch d v =
    let target = current_target_layer d in
    if not (target == current_layer d) && leb v.tid (target % 256)
    then record d { temporal_layer = bit_or (target * 65536) target }
    else d

-- `(TID > uint8(currentLayer))`, looked at only when no switch is under way.
unfoldable pub drops : DownTrack → Vp8 → Bool
drops d v = (current_target_layer d == current_layer d) && ltb (current_layer d % 256) v.tid

-- The picture id and the TL0PICIDX under which a frame is sent.
unfoldable pub new_pic_id : SimulcastTrackHelpers → Vp8 → ℕ
new_pic_id h v = add16 (add16 (sub16 v.picture_id h.ref_pic_id) h.p_ref_pic_id) 1

unfoldable pub new_tlz_idx : SimulcastTrackHelpers → Vp8 → ℕ
new_tlz_idx h v = add8 (add8 (sub8 v.tl0_pic_idx h.ref_tlz_idx) h.p_ref_tlz_idx) 1

-- The results of `setVP8TemporalLayer`.
pub record Rewritten : Type 0 where
  pub buf : List ℕ
  pub pic_id : ℕ
  pub tlz_idx : ℕ
  pub drop : Bool

unfoldable pub set_vp8_temporal_layer : ExtPacket → DownTrack → Rewritten × DownTrack
set_vp8_temporal_layer p d = elim p.vp8 [
  | none ↦ (record { buf = []; pic_id = 0; tlz_idx = 0; drop = false }, d)
  | some v ↦
      let d' = finish_switch d v in
      let pic_id = new_pic_id d.simulcast v in
      let tlz_idx = new_tlz_idx d.simulcast v in
      if drops d v then (record { buf = []; pic_id = 0; tlz_idx = 0; drop = true }, d) else (
        record {
          buf = modify_vp8_temporal_payload p.payload v.pic_id_idx v.tlz_idx pic_id tlz_idx v.m_bit;
          pic_id = pic_id;
          tlz_idx = tlz_idx;
          drop = false;
        },
        if p.head
            then record d' {
              simulcast = record d'.simulcast { l_pic_id = pic_id; l_tlz_idx = tlz_idx };
            }
            else d',
      )
]

-- The new references for picture ids at a change of the source.
pub new_references : SimulcastTrackHelpers → Vp8 → SimulcastTrackHelpers
new_references h v = record h {
  p_ref_pic_id = h.l_pic_id;
  ref_pic_id = v.picture_id;
  p_ref_tlz_idx = h.l_tlz_idx;
  ref_tlz_idx = v.tl0_pic_idx;
}

-- The first block of `writeSimulcastRTP`, behind the wait for a key frame.
unfoldable pub re_sync_source : DownTrack → ExtPacket → DownTrack
re_sync_source d p =
    let h = d.simulcast in
    let timed =
      if d.re_sync && not (h.l_ts_calc == 0) then record h { l_ts_calc = p.arrival } else h in
    let refs : SimulcastTrackHelpers = elim p.vp8 [
      | none ↦ timed
      | some v ↦ if timed.temporal_supported && d.is_vp8_mime then new_references timed v else timed
    ] in
    record d { simulcast = refs; re_sync = false }

-- `(extPkt.Arrival - lTSCalc) / 1e6`, the milliseconds, times 90 and over 1000, as uint32: a thousandth
-- of the 90 kHz ticks that have passed; Go's division cuts
-- towards 0, so that a negative time is the negative of its positive.
unfoldable pub ticks : ℕ → ℕ → ℕ
ticks arrival before =
    let t = λ (ns : ℕ). ns / 1000000 * 90 / 1000 % 4294967296 in
    if leb before arrival then t (arrival - before) else sub32 0 (t (before - arrival))

-- The new offsets at a change of the source, and the first values of a track.
unfoldable pub adjust_offsets : DownTrack → ExtPacket → DownTrack
adjust_offsets d p =
    let h = d.simulcast in
    let t = ticks p.arrival h.l_ts_calc in
    let td = if t == 0 then 1 else t in
    let first = record d { last_ts = p.timestamp; last_sn = p.sequence_number } in
    if not (h.l_ts_calc == 0) && not (d.last_ssrc == p.ssrc)
    then record d {
      last_ssrc = p.ssrc;
      ts_offset = sub32 p.timestamp (add32 d.last_ts td);
      sn_offset = sub16 (sub16 p.sequence_number d.last_sn) 1;
    }
    else if h.l_ts_calc == 0
    then elim p.vp8 [
      | none ↦ first
      | some v ↦
          if d.is_vp8_mime
          then record first { simulcast = record h { temporal_supported = v.temporal_supported } }
          else first
    ]
    else d

-- `meta.setVP8PayloadMeta` through the pointer that `push` returned.
pub mark_payload_meta : Option ℕ → (tlz_idx pic_id : ℕ) → Option Sequencer → Option Sequencer
mark_payload_meta (some i) tlz_idx pic_id (some n) = some (record n {
  seq = set n.seq i (set_vp8_payload_meta (get_or n.seq i zero_meta) tlz_idx pic_id);
})
mark_payload_meta (some i) tlz_idx pic_id none = none
mark_payload_meta none tlz_idx pic_id n = n

-- The end of `writeSimulcastRTP`, with the payload to send.
unfoldable pub send_simulcast :
    DownTrack → ExtPacket → (csl new_sn new_ts : ℕ) → Rewritten → Effect × DownTrack
send_simulcast d p csl new_sn new_ts r =
    let (m, n) = push_meta d.sequencer p.sequence_number new_sn new_ts (csl % 256) p.head in
    let marked =
      if d.simulcast.temporal_supported && d.is_vp8_mime
      then mark_payload_meta m r.tlz_idx r.pic_id n
      else n in
    let counted = update_stats (record d { sequencer = marked }) (length p.payload) in
    let last = if p.head then record counted { last_sn = new_sn; last_ts = new_ts } else counted in
    (
      forward (record {
        payload_type = d.payload_type;
        timestamp = new_ts;
        sequence_number = new_sn;
        ssrc = d.ssrc;
        payload = r.buf;
      }),
      record last { simulcast = record last.simulcast { l_ts_calc = p.arrival } },
    )

-- `writeSimulcastRTP` behind the offsets: the temporal layer decides.
unfoldable pub forward_simulcast : DownTrack → ExtPacket → ℕ → Effect × DownTrack
forward_simulcast d p csl =
    let new_sn = sub16 p.sequence_number d.sn_offset in
    let new_ts = sub32 p.timestamp d.ts_offset in
    let (r, d') = set_vp8_temporal_layer p d in
    let plain : Rewritten = record { buf = p.payload; pic_id = 0; tlz_idx = 0; drop = false } in
    if d.simulcast.temporal_supported && d.is_vp8_mime
    then (if r.drop
        then (nothing, record d' { sn_offset = add16 d'.sn_offset 1 })
        else send_simulcast d' p csl new_sn new_ts r)
    else send_simulcast d p csl new_sn new_ts plain

-- The test of `writeSimulcastRTP` compares with the SSRC that the track had at the start of the
-- call; only the second block changes it.
unfoldable pub write_simulcast_rtp : DownTrack → ExtPacket → ℕ → Effect × DownTrack
write_simulcast_rtp d p layer =
    let changed = not (d.last_ssrc == p.ssrc) || d.re_sync in
    let synced = if changed then re_sync_source d p else d in
    if not (d.current_spatial_layer == layer)
    then (nothing, d)
    else if d.re_sync && not p.key_frame
    then (pli d.ssrc p.ssrc, d)
    else forward_simulcast (adjust_offsets synced p) p d.current_spatial_layer

-- Where `setVP8TemporalLayer` and `modifyVP8TemporalPayload` panic on a frame: it is longer than the
-- slice of the pool, or an index of its descriptor is not in it.
unfoldable pub rewrite_panics : ExtPacket → Vp8 → Bool
rewrite_panics p v =
    ltb 1460 (length p.payload)
    || leb (length p.payload) v.pic_id_idx
    || (v.m_bit && leb (length p.payload) (v.pic_id_idx + 1))
    || leb (length p.payload) v.tlz_idx

unfoldable pub is_layered : DownTrackType → Bool
is_layered simple_down_track = false
is_layered simulcast_down_track = true

-- Whether `WriteRTP` comes to such a panic: a frame of a VP8 track with temporal layers that it would
-- forward.
unfoldable pub write_panics : DownTrack → ExtPacket → ℕ → Bool
write_panics d p layer =
    let changed = not (d.last_ssrc == p.ssrc) || d.re_sync in
    let ready = adjust_offsets (if changed then re_sync_source d p else d) p in
    let reaches =
      d.enabled
      && d.bound
      && is_layered d.track_type
      && (d.current_spatial_layer == layer)
      && not (d.re_sync && not p.key_frame)
      && ready.simulcast.temporal_supported
      && ready.is_vp8_mime in
    elim p.vp8 [ none ↦ false | some v ↦ rewrite_panics p v && not (drops ready v) && reaches ]

-- Its outcome where it does not panic.
unfoldable pub write_rtp : DownTrack → ExtPacket → ℕ → Effect × DownTrack
write_rtp d p layer = if not d.enabled || not d.bound then (nothing, d) else elim d.track_type [
  | simple_down_track ↦ write_simple_rtp d p
  | simulcast_down_track ↦ write_simulcast_rtp d p layer
]
