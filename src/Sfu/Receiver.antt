-- ===== src/Sfu/Receiver.antt =====
-- pkg/sfu/receiver.go: a source with up to three layers, and the down tracks that its packets are
-- forwarded to.
-- `tracks` is the heap of down tracks, under the numbers that stand for their pointers; an id is a
-- number, as the code only compares ids. `down_tracks` holds `none` for a layer where nothing was
-- stored yet. What the calls do outside the receiver is appended to `events`. `none` as a result is
-- a panic. The clock `now` is in nanoseconds. Each call runs alone: the lock is left out.
pub mod Forwarding
pub mod Retransmission
pub mod Feedback
use ion_sfu.Prelude.{
  ℕ, ◌+◌, ◌-◌, Bool, true, false, not, ◌&&◌, ◌||◌, List, [], ◌∷◌, ◌++◌, Option, none, some, ltb,
  leb, ◌==◌, if◌then◌else◌, get_or, set, replicate, update,
}
use ion_sfu.Sfu.DownTrack.{
  DownTrack, simple_down_track, simulcast_down_track, ExtPacket, Effect, nothing, pli, forward,
  Forwarded,
}
use ion_sfu.Sfu.DownTrack.Layers.{
  Receiver, set_initial_layers, switch_spatial_layer, switch_spatial_layer_done,
}
use ion_sfu.Sfu.DownTrack.Simulcast.{is_layered}

-- A `DownTrack` with its id, and whether its `closeOnce` is spent.
pub record Track : Type 0 where
  pub id : ℕ
  pub down : DownTrack
  pub is_closed : Bool

-- The kinds of RTCP packets that the code tells apart. A nack holds, pair by pair, the numbers of
-- its `PacketList`.
pub data RtcpPacket : Type 0 where
  picture_loss_indication full_intra_request : (sender_ssrc media_ssrc : ℕ) → RtcpPacket
  receiver_estimated_maximum_bitrate : (bitrate : ℕ) → RtcpPacket
  receiver_report : (fractions_lost : List ℕ) → RtcpPacket
  transport_layer_nack : (nacks : List (List ℕ)) → RtcpPacket
  other_packet : RtcpPacket

-- Packets put on `rtcpCh`, a packet written to a track's stream, a close handler that was called:
-- a track's, or the receiver's.
pub data Event : Type 0 where
  rtcp : List RtcpPacket → Event
  wrote : (track : ℕ) → Forwarded → Event
  closed_track : (track : ℕ) → Event
  closed_receiver : Event

-- `WebRTCReceiver`; `gate` is the part that `SwitchDownTrack` uses. `up_tracks` has the SSRCs.
-- `closeOnce` is spent when `gate.closed` is set.
pub record WebRtcReceiver : Type 0 where
  pub gate : Receiver
  pub is_simulcast : Bool
  pub last_pli : ℕ
  pub up_tracks : ℕ → Option ℕ
  pub down_tracks : ℕ → Option (List ℕ)
  pub tracks : ℕ → Track
  pub events : List Event

-- `NewWebRTCReceiver`, where the heap holds `tracks`: no layer, no list, no request for a key frame.
unfoldable pub new_receiver : (ℕ → Track) → (has_rid : Bool) → WebRtcReceiver
new_receiver tracks has_rid = record {
  gate = record {
    closed = false;
    available = replicate 3 false;
    pending = replicate 3 false;
    pending_tracks = replicate 3 [];
  };
  is_simulcast = has_rid;
  last_pli = 0;
  up_tracks = λ layer. none;
  down_tracks = λ layer. none;
  tracks = tracks;
  events = [];
}

-- The RID of a remote track.
pub data Rid : Type 0 where
  full_resolution half_resolution other_rid : Rid

unfoldable pub layer_of : Rid → ℕ
layer_of full_resolution = 2
layer_of half_resolution = 1
layer_of other_rid = 0

unfoldable pub emit : WebRtcReceiver → Event → WebRtcReceiver
emit w e = record w { events = w.events ++ (e ∷ []) }

unfoldable pub with_down : WebRtcReceiver → ℕ → DownTrack → WebRtcReceiver
with_down w t d = record w { tracks = update w.tracks t (record (w.tracks t) { down = d }) }

unfoldable pub ssrc : WebRtcReceiver → ℕ → ℕ
ssrc w layer = elim (w.up_tracks layer) [ none ↦ 0 | some s ↦ s ]

-- `DownTrack.Close`
unfoldable pub close : WebRtcReceiver → ℕ → WebRtcReceiver
close w t =
    let closed_now = record w {
      tracks = update w.tracks t (record (w.tracks t) { is_closed = true });
    } in
    if (w.tracks t).is_closed then w else emit closed_now (closed_track t)

-- `dt.SwitchSpatialLayer(layer, set_as_max)`, where the track's receiver is this one and the layer is one
-- of the three.
unfoldable pub switch_track : WebRtcReceiver → (t layer : ℕ) → Bool → WebRtcReceiver
switch_track w t layer set_as_max =
    let (e, d, gate) = switch_spatial_layer (w.tracks t).down w.gate t layer set_as_max in
    with_down (record w { gate = gate }) t d

-- `w.available[layer]` of `SwitchDownTrack` panics for a layer that is not one of the three, where the
-- call gets there.
unfoldable pub switch_panics : WebRtcReceiver → (t layer : ℕ) → Bool
switch_panics w t layer =
    let d = (w.tracks t).down in
    leb 3 layer
    && is_layered d.track_type
    && (d.current_spatial_layer == d.target_spatial_layer)
    && not (d.current_spatial_layer == layer)
    && not w.gate.closed

-- The same call, with any layer; `none` is the panic.
unfoldable pub switch_to : WebRtcReceiver → (t layer : ℕ) → Bool → Option WebRtcReceiver
switch_to w t layer set_as_max =
    let switched = switch_track w t layer set_as_max in
    if switch_panics w t layer then none else some switched

unfoldable pub switch_tracks : List ℕ → ℕ → WebRtcReceiver → WebRtcReceiver
switch_tracks [] layer w = w
switch_tracks (t ∷ ts) layer w = switch_tracks ts layer (switch_track w t layer false)

unfoldable pub listed : WebRtcReceiver → ℕ → List ℕ
listed w l = elim (w.down_tracks l) [ none ↦ [] | some ts ↦ ts ]

-- The loops over `downTracks` of `subBestQuality` and `subLowestQuality`: the layers in turn.
unfoldable pub switch_layers : List ℕ → ℕ → WebRtcReceiver → WebRtcReceiver
switch_layers [] layer w = w
switch_layers (l ∷ ls) layer w = switch_layers ls layer (switch_tracks (listed w l) layer w)

-- `for l := 0; l < targetLayer; l++` and `for l := 2; l != targetLayer; l--`
unfoldable pub lower_layers : Rid → List ℕ
lower_layers full_resolution = 0 ∷ 1 ∷ []
lower_layers half_resolution = 0 ∷ []
lower_layers other_rid = []

pub higher_layers : Rid → List ℕ
higher_layers full_resolution = []
higher_layers half_resolution = 2 ∷ []
higher_layers other_rid = 2 ∷ 1 ∷ []

-- The locked part of `AddUpTrack`.
unfoldable pub open_layer : WebRtcReceiver → (layer ssrc : ℕ) → WebRtcReceiver
open_layer w layer ssrc = record w {
  up_tracks = update w.up_tracks layer (some ssrc);
  down_tracks = update w.down_tracks layer (some []);
  gate = record w.gate {
    available = set w.gate.available layer true;
    pending_tracks = set w.gate.pending_tracks layer [];
  };
}

unfoldable pub add_up_track : WebRtcReceiver → Rid → ℕ → Bool → WebRtcReceiver
add_up_track w rid ssrc best_quality_first =
    let layer = layer_of rid in
    let opened = open_layer w layer ssrc in
    if w.gate.closed
    then w
    else if not w.is_simulcast
    then opened
    else if best_quality_first && (not (get_or opened.gate.available 2 false) || (layer == 2))
    then switch_layers (lower_layers rid) layer opened
    else if not best_quality_first && (not (get_or opened.gate.available 0 false) || (layer == 0))
    then switch_layers (higher_layers rid) layer opened
    else opened

-- The first available layer, or the last one.
unfoldable pub pick_layer : List Bool → (i layer : ℕ) → Bool → ℕ
pick_layer [] i layer best_quality_first = layer
pick_layer (false ∷ ts) i layer best_quality_first = pick_layer ts (i + 1) layer best_quality_first
pick_layer (true ∷ ts) i layer best_quality_first =
    let last = pick_layer ts (i + 1) i true in if best_quality_first then last else i
