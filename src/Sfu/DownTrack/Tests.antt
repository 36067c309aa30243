-- ===== src/Sfu/DownTrack/Tests.antt =====
-- Tracks on concrete packets.
use ion_sfu.Prelude.{
  ℕ, ◌≤◌, ◌<◌, ◌≡◌, ◌⊎◌, refl, true, false, List, [], ◌∷◌, arith, none, some, add32, All,
}
use ion_sfu.Buffer.Vp8.{zero_vp8, modify_vp8_temporal_payload}
use ion_sfu.Sfu.DownTrack.{
  DownTrack, simple_down_track, simulcast_down_track, SimulcastTrackHelpers, ExtPacket, forward,
  Forwarded, mute, write_simple_rtp, forward_simple, update_stats, push_meta,
}
use ion_sfu.Sfu.DownTrack.Numbers.{count16}
use ion_sfu.Sfu.DownTrack.Steps.{Event, packet, muted, sent_numbers, happen, Follows, InOrder}
use ion_sfu.Sfu.DownTrack.Continuity.{passed, sent_numbers_count}
use ion_sfu.Sfu.DownTrack.Simulcast.{
  write_simulcast_rtp, write_rtp, finish_switch, drops, adjust_offsets, forward_simulcast,
  set_vp8_temporal_layer, ticks,
}
use ion_sfu.Sfu.DownTrack.Simulcast.Gapless.{InStep, Stream, simulcast_numbers}
use ion_sfu.Sfu.DownTrack.Simulcast.Kept.{simulcast_numbers_count, kept_frames, above_layer}
use ion_sfu.Sfu.DownTrack.Simulcast.Switch.{Switches, switch_goes_on, step_of}
use ion_sfu.Sfu.DownTrack.Layers.{
  Receiver, Conditions, wanted_layer, handle_layer_change, raise_temporal, raise_spatial,
  after_raise, switch_spatial_layer, switch_down_track, switch_temporal_layer,
}
use ion_sfu.Sfu.DownTrack.Layers.Steering.{
  wanted_layer_lem, SpatialMove, handle_layer_change-SpatialMove, has,
}
use ion_sfu.Sfu.DownTrack.Layers.Loss.{loss_opens_all_layers}

abbrev helpers : SimulcastTrackHelpers
helpers = record {
  switch_delay = 0;
  temporal_supported = true;
  l_ts_calc = 1000000000;
  p_ref_pic_id = 0;
  ref_pic_id = 0;
  l_pic_id = 30;
  p_ref_tlz_idx = 0;
  ref_tlz_idx = 0;
  l_tlz_idx = 4;
}

-- A layered track that has sent number 20 for number 520 of source 1.
abbrev layered : DownTrack
layered = record {
  bound = true;
  is_vp8_mime = true;
  is_video = true;
  ssrc = 77;
  payload_type = 96;
  sequencer = none;
  track_type = simulcast_down_track;
  current_spatial_layer = 0;
  target_spatial_layer = 0;
  temporal_layer = 0;
  enabled = true;
  re_sync = false;
  sn_offset = 500;
  ts_offset = 0;
  last_ssrc = 1;
  last_sn = 20;
  last_ts = 9000;
  simulcast = helpers;
  max_spatial_layer = 2;
  max_temporal_layer = 2;
  octet_count = 0;
  packet_count = 0;
}

-- The same for a source without layers.
abbrev plain : DownTrack
plain = record layered { track_type = simple_down_track; is_video = false }

abbrev from_source : (source sn tid : ℕ) → ExtPacket
from_source source sn tid = record {
  head = true;
  arrival = 1040000000;
  key_frame = true;
  vp8 = some (record zero_vp8 {
    temporal_supported = true;
    picture_id = 700;
    tid = tid;
    pic_id_idx = 2;
    m_bit = true;
    tlz_idx = 4;
  });
  ssrc = source;
  sequence_number = sn;
  timestamp = 50000;
  payload = 144 ∷ 224 ∷ 130 ∷ 188 ∷ 1 ∷ 64 ∷ [];
}

abbrev receiver : Receiver
receiver = record {
  closed = false;
  available = true ∷ true ∷ false ∷ [];
  pending = false ∷ false ∷ false ∷ [];
  pending_tracks = [] ∷ [] ∷ [] ∷ [];
}

abbrev lossy : Conditions
lossy = record {
  now = 5000000000;
  bitrates = 100000 ∷ 400000 ∷ 0 ∷ [];
  max_temporal_layers = 2 ∷ 2 ∷ 0 ∷ [];
  max_rate_packet_loss = 30;
  expected_min_bitrate = 50000;
}

plain-Follows : Follows plain 520
plain-Follows = record {
  is_simple = refl;
  is_bound = refl;
  gated = λ e. ground arith;
  src_in = omega arith;
  offset_in = omega arith;
  same = λ _. refl;
}

layered-InStep : InStep layered 520
layered-InStep = record {
  src_in = omega arith;
  offset_in = omega arith;
  same = refl;
  synced = refl;
  timed = omega arith;
}

-- Muted, unmuted, and going on with another number.
abbrev muted_run : List Event
muted_run =
    packet (from_source 1 521 0) ∷ muted true ∷ muted false ∷ packet (from_source 1 9 0) ∷ []

wanted_layer_lem_example :
    let target = wanted_layer (0 ∷ 2 ∷ 1 ∷ []) 1 in
    (target ≤ 1)
    × ((target ≡ 0) ⊎ (has target (0 ∷ 2 ∷ 1 ∷ []) ≡ true))
    × All (λ t. (1 < t) ⊎ (t ≤ target)) (0 ∷ 2 ∷ 1 ∷ [])
wanted_layer_lem_example = wanted_layer_lem (0 ∷ 2 ∷ 1 ∷ []) 1

-- Little loss, twice the bitrate of layer 0, and no temporal layer above.
abbrev fine : Conditions
fine = record lossy {
  max_temporal_layers = 0 ∷ 2 ∷ 0 ∷ [];
  max_rate_packet_loss = 2;
  expected_min_bitrate = 200000;
}

handle_layer_change-SpatialMove_example :
    SpatialMove fine layered receiver
      (handle_layer_change fine 0 layered receiver).0.target_spatial_layer
handle_layer_change-SpatialMove_example = handle_layer_change-SpatialMove fine 0 layered receiver

goes_up : (handle_layer_change fine 0 layered receiver).0.target_spatial_layer ≡ 1
unfolding handle_layer_change raise_temporal raise_spatial after_raise switch_spatial_layer
    switch_down_track switch_temporal_layer
goes_up = refl

-- 40 milliseconds are 3600 ticks of 90 kHz.
forty_milliseconds : ticks 1040000000 1000000000 ≡ 3
unfolding ticks
forty_milliseconds = refl

loss_opens_all_layers_example :
    let e = finish_switch (handle_layer_change lossy 0 layered receiver).0 zero_vp8 in
    (e.temporal_layer ≡ 4294967295)
    × (drops e (record zero_vp8 { tid = 3 }) ≡ false)
    × (handle_layer_change lossy 0 e receiver ≡ (e, receiver))
loss_opens_all_layers_example =
    loss_opens_all_layers lossy lossy 0 layered receiver receiver zero_vp8
      (record zero_vp8 { tid = 3 }) refl refl refl refl (omega arith) (omega arith) (omega arith)
      (omega arith)

muted_run-InOrder : InOrder plain 520 muted_run
unfolding happen write_rtp write_simple_rtp forward_simple update_stats push_meta mute
muted_run-InOrder = (refl, omega arith, (λ _. refl), (refl, omega arith, (λ e. ground arith), tt))

sent_numbers_count_example : sent_numbers plain muted_run ≡ 21 ∷ 22 ∷ []
unfolding count16 passed
sent_numbers_count_example =
    sent_numbers_count plain 520 muted_run plain-Follows (omega arith) (omega arith)
      muted_run-InOrder

layered-Switches : Switches layered (from_source 2 90 0) (record zero_vp8 {
  temporal_supported = true;
  picture_id = 700;
  pic_id_idx = 2;
  m_bit = true;
  tlz_idx = 4;
})
unfolding drops
layered-Switches = record {
  is_vp8 = refl;
  vp8_track = refl;
  other_source = omega arith;
  timed = omega arith;
  arrived = omega arith;
  key = refl;
  kept = refl;
  sn_in = omega arith;
  last_in = omega arith;
  ts_in = omega arith;
  last_ts_in = omega arith;
  pic_in = omega arith;
  last_pic_in = omega arith;
  tlz_in = omega arith;
  last_tlz_in = omega arith;
}

switch_goes_on_example :
    let (out, d) = write_simulcast_rtp layered (from_source 2 90 0) 0 in
    (f : Forwarded) × (out ≡ forward f)
    × (f.sequence_number ≡ 21)
    × (f.timestamp ≡ add32 9000 (step_of 1040000000 1000000000))
    × (f.payload ≡ modify_vp8_temporal_payload (144 ∷ 224 ∷ 130 ∷ 188 ∷ 1 ∷ 64 ∷ []) 2 4 31 5 true)
switch_goes_on_example = switch_goes_on layered (from_source 2 90 0) _ layered-Switches

dropped_run-Stream : Stream layered 520 (from_source 1 521 1 ∷ from_source 1 522 0 ∷ [])
unfolding write_simulcast_rtp adjust_offsets forward_simulcast set_vp8_temporal_layer finish_switch
    drops
dropped_run-Stream = (
  record { is_head = refl; number = refl; same_source = refl; timed = omega arith },
  (record { is_head = refl; number = refl; same_source = refl; timed = omega arith }, tt),
)

simulcast_numbers_count_example :
    simulcast_numbers layered (from_source 1 521 1 ∷ from_source 1 522 0 ∷ []) ≡ 21 ∷ []
unfolding count16 kept_frames above_layer
simulcast_numbers_count_example =
    simulcast_numbers_count layered 520 (from_source 1 521 1 ∷ from_source 1 522 0 ∷ [])
      layered-InStep dropped_run-Stream refl
