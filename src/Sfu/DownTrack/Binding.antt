-- ===== src/Sfu/DownTrack/Binding.antt =====
-- pkg/sfu/downtrack.go: NewDownTrack, Bind, Unbind, and the reports on a track.
-- The context of the WebRTC library gives `context_ssrc` and the codecs that were agreed on; the RTCP
-- reader and the callback of Bind are left out. `is_vp8` says whether a MIME type is video/vp8.
pub mod Reports
mod Tests
use ion_sfu.Prelude.{
  ℕ, ◌+◌, ◌-◌, ◌*◌, ◌/◌, ◌%◌, Bool, true, false, Option, none, some, List, [], ◌∷◌, ◌==◌,
  if◌then◌else◌, add32,
}
use ion_sfu.Sfu.Sequencer.{new_sequencer}
use ion_sfu.Sfu.Helpers.{Codec, codec_parameters_fuzzy_search, duration, to_ntp_time}
use ion_sfu.Sfu.DownTrack.{DownTrack, simple_down_track, SimulcastTrackHelpers}

-- The zero value of the track, which has a kind from its codec.
unfoldable pub new_down_track : (is_video : Bool) → DownTrack
new_down_track is_video = record {
  bound = false;
  is_vp8_mime = false;
  is_video = is_video;
  ssrc = 0;
  payload_type = 0;
  sequencer = none;
  track_type = simple_down_track;
  current_spatial_layer = 0;
  target_spatial_layer = 0;
  temporal_layer = 0;
  enabled = false;
  re_sync = false;
  sn_offset = 0;
  ts_offset = 0;
  last_ssrc = 0;
  last_sn = 0;
  last_ts = 0;
  simulcast = record {
    switch_delay = 0;
    temporal_supported = false;
    l_ts_calc = 0;
    p_ref_pic_id = 0;
    ref_pic_id = 0;
    l_pic_id = 0;
    p_ref_tlz_idx = 0;
    ref_tlz_idx = 0;
    l_tlz_idx = 0;
  };
  max_spatial_layer = 0;
  max_temporal_layer = 0;
  octet_count = 0;
  packet_count = 0;
}

-- The branch of Bind with a codec.
unfoldable pub bound_to :
    (is_vp8 : ℕ → Bool) → DownTrack → (context_ssrc max_track : ℕ) → Codec → DownTrack
bound_to is_vp8 d context_ssrc max_track codec = record d {
  ssrc = context_ssrc;
  payload_type = codec.payload_type % 256;
  is_vp8_mime = is_vp8 codec.mime;
  re_sync = true;
  enabled = true;
  sequencer = if d.is_video then some (new_sequencer max_track) else d.sequencer;
  bound = true;
}

-- The codec that it returns, `none` for `ErrUnsupportedCodec`, and the track.
unfoldable pub bind :
    (is_vp8 : ℕ → Bool)
    → DownTrack
    → Codec
    → (context_ssrc max_track : ℕ) → List Codec
    → Option Codec × DownTrack
bind is_vp8 d own context_ssrc max_track agreed = elim (codec_parameters_fuzzy_search own agreed) [
  | none ↦ (none, d)
  | some codec ↦ (some codec, bound_to is_vp8 d context_ssrc max_track codec)
]

unfoldable pub unbind : DownTrack → DownTrack
unbind d = record d { bound = false }

pub record SenderReport : Type 0 where
  pub ssrc : ℕ
  pub ntp_time : ℕ
  pub rtp_time : ℕ
  pub packet_count : ℕ
  pub octet_count : ℕ

-- `diff`: the difference of the times is an int64, which becomes a uint64, and so does the product.
-- The test whether it is negative never holds.
unfoldable pub elapsed_ticks : (now sent clock_rate : ℕ) → ℕ
elapsed_ticks now sent clock_rate =
    (now + 18446744073709551616 - sent)
    % 18446744073709551616
    * clock_rate
    % 18446744073709551616
    / 1000000000

-- `now` is in nanoseconds since 1900; `sr_rtp` and `sr_ntp` are from the source's last sender report.
unfoldable pub create_sender_report :
    DownTrack → (now clock_rate sr_rtp sr_ntp : ℕ) → Option SenderReport
create_sender_report d now clock_rate sr_rtp sr_ntp =
    let report : SenderReport = record {
      ssrc = d.ssrc;
      ntp_time = to_ntp_time now;
      rtp_time = add32 sr_rtp (elapsed_ticks now (duration sr_ntp) clock_rate % 4294967296);
      packet_count = d.packet_count;
      octet_count = d.octet_count;
    } in
    if d.bound then (if sr_rtp == 0 then none else some report) else none

-- The two chunks of `CreateSourceDescriptionChunks`: the SSRC, the type of the item, and the text, the
-- stream's id and then the transceiver's mid.
unfoldable pub create_source_description_chunks : DownTrack → (stream_id mid : ℕ) → List (ℕ × ℕ × ℕ)
create_source_description_chunks d stream_id mid =
    if d.bound then (d.ssrc, 1, stream_id) ∷ (d.ssrc, 15, mid) ∷ [] else []
