-- ===== src/Sfu/DownTrack/Layers.antt =====
-- pkg/sfu/downtrack.go: the choice of layers, by the client, by the source, and by the loss and
-- the bitrate that the subscriber reports; pkg/sfu/receiver.go: the receiver's part in it.
pub mod Steering
pub mod Loss
use ion_sfu.Prelude.{
  ℕ, zero, suc, ◌+◌, ◌-◌, ◌*◌, ◌/◌, ◌%◌, Bool, true, false, not, ◌&&◌, ◌||◌, List, [], ◌∷◌, ◌++◌,
  Option, none, some, ltb, leb, ◌==◌, if◌then◌else◌, get_or, set, low16, bit_or,
}
use ion_sfu.Sfu.DownTrack.{
  DownTrack, DownTrackType, simple_down_track, simulcast_down_track, SimulcastTrackHelpers,
}

-- The part of `WebRTCReceiver` that `SwitchDownTrack` reads and writes; a pending track is named by
-- its place among the tracks. The model is for layers below 3, the length of the arrays: the code
-- panics at `w.available[layer]` for others, and its callers name none. (The API names 0, 1 and 2, the
-- reports raise a layer to 2 at most, and a track's layer is one of the receiver's.)
pub record Receiver : Type 0 where
  pub closed : Bool
  pub available : List Bool
  pub pending : List Bool
  pub pending_tracks : List (List ℕ)

-- Whether it returns nil, and the receiver after it.
unfoldable pub switch_down_track : Receiver → (track layer : ℕ) → Bool × Receiver
switch_down_track w track layer =
    if w.closed || not (get_or w.available layer false) then (false, w) else (
      true,
      record w {
        pending = set w.pending layer true;
        pending_tracks =
            set w.pending_tracks layer (get_or w.pending_tracks layer [] ++ (track ∷ []));
      },
    )

pub data SwitchError : Type 0 where
  spatial_layer_busy spatial_not_supported : SwitchError

unfoldable pub set_initial_layers : DownTrack → (spatial temporal : ℕ) → DownTrack
set_initial_layers d spatial temporal = record d {
  current_spatial_layer = spatial;
  target_spatial_layer = spatial;
  temporal_layer = bit_or (temporal * 65536 % 4294967296) temporal;
}

-- A nil error is `none`; `track` names the track for the receiver.
unfoldable pub switch_spatial_layer :
    DownTrack
    → Receiver
    → (track target_layer : ℕ) → Bool
    → Option SwitchError × DownTrack × Receiver
switch_spatial_layer d w track target_layer set_as_max =
    let csl = d.current_spatial_layer in
    let (accepted, w') = switch_down_track w track target_layer in
    let aimed = record d { target_spatial_layer = target_layer } in
    let limited = if set_as_max then record aimed { max_spatial_layer = target_layer } else aimed in
    elim d.track_type [
      | simple_down_track ↦ (some spatial_not_supported, d, w)
      | simulcast_down_track ↦
          if not (csl == d.target_spatial_layer) || (csl == target_layer)
          then (some spatial_layer_busy, d, w)
          else if accepted
          then (none, limited, w')
          else (none, d, w')
    ]

unfoldable pub switch_spatial_layer_done : DownTrack → ℕ → DownTrack
switch_spatial_layer_done d layer = record d { current_spatial_layer = layer }

-- `target_layer` is the uint32 with the bits of the int32.
unfoldable pub switch_temporal_layer : DownTrack → ℕ → Bool → DownTrack
switch_temporal_layer d target_layer set_as_max =
    let current = low16 d.temporal_layer in
    let switched = record d {
      temporal_layer = bit_or (target_layer * 65536 % 4294967296) current;
    } in
    elim d.track_type [
      | simple_down_track ↦ d
      | simulcast_down_track ↦
          if not (current == d.temporal_layer / 65536)
          then d
          else if set_as_max
          then record switched { max_temporal_layer = target_layer }
          else switched
    ]

-- The loop of `UptrackLayersChange`: `maxFound`, `layerFound` and `minFound`.
pub find_layer : List ℕ → (max_layer max_found : ℕ) → Bool → ℕ → ℕ × Bool × ℕ
find_layer [] max_layer max_found layer_found min_found = (max_found, layer_found, min_found)
find_layer (target ∷ ts) max_layer max_found layer_found min_found =
    let higher = leb target max_layer && ltb max_found target in
    let lower = not (leb target max_layer) && ltb target min_found in
    find_layer ts max_layer (if higher then target else max_found) (higher || layer_found)
      (if lower then target else min_found)

pub wanted_layer : List ℕ → ℕ → ℕ
wanted_layer available_layers max_layer =
    let (max_found, layer_found, min_found) = find_layer available_layers max_layer 0 false 0 in
    if layer_found then max_found else min_found

-- The target layer, `none` for -1, and the error of the switch; `none` for the second stands for the
-- error of a track without layers where there is no target.
pub uptrack_layers_change :
    DownTrack → Receiver → ℕ → List ℕ → (Option ℕ × Option SwitchError) × DownTrack × Receiver
uptrack_layers_change d w track available_layers =
    let target = wanted_layer available_layers (low16 d.max_spatial_layer) in
    let (e, d', w') = switch_spatial_layer d w track target false in
    elim d.track_type [
      | simple_down_track ↦ ((none, none), d, w)
      | simulcast_down_track ↦
          if low16 d.current_spatial_layer == target
          then ((some target, none), d, w)
          else ((some target, e), d', w')
    ]

-- What `handleLayerChange` reads of the world: the clock in nanoseconds, at each of its calls the
-- same, and the receiver's `GetBitrate` and `GetMaxTemporalLayer`.
pub record Conditions : Type 0 where
  pub now : ℕ
  pub bitrates : List ℕ
  pub max_temporal_layers : List ℕ
  pub max_rate_packet_loss : ℕ
  pub expected_min_bitrate : ℕ

abbrev pub seconds : ℕ → ℕ
seconds n = n * 1000000000

abbrev pub delayed : DownTrack → ℕ → DownTrack
delayed d until = record d { simulcast = record d.simulcast { switch_delay = until } }

-- `temporalLayer & 0x0f`
abbrev pub current_temporal : DownTrack → ℕ
current_temporal d = d.temporal_layer % 16

-- `temporalLayer >> 16` keeps the sign.
abbrev pub target_temporal : DownTrack → ℕ
target_temporal d =
    if ltb d.temporal_layer 2147483648
    then d.temporal_layer / 65536
    else d.temporal_layer / 65536 + 4294901760

-- Little loss: the next temporal layer.
unfoldable pub raise_temporal : Conditions → (cbr mctl ctl : ℕ) → DownTrack → DownTrack
raise_temporal c cbr mctl ctl d =
    if ltb ctl mctl
      && leb (ctl + 1) d.max_temporal_layer
      && leb (3 * cbr / 4) c.expected_min_bitrate
    then delayed (switch_temporal_layer d (ctl + 1) false) (c.now + seconds 3)
    else d

-- `err == nil`: the new spatial layer begins at its lowest temporal layer.
unfoldable pub after_raise : Option SwitchError → DownTrack → DownTrack
after_raise none d = switch_temporal_layer d 0 false
after_raise (some e) d = d

-- Little loss, and no temporal layer above: the next spatial layer.
unfoldable pub raise_spatial :
    Conditions → (track cbr mctl ctl csl : ℕ) → DownTrack → Receiver → DownTrack × Receiver
raise_spatial c track cbr mctl ctl csl d w =
    let (e, d', w') = switch_spatial_layer d w track (csl + 1) false in
    if leb mctl ctl
      && leb (3 * cbr / 2) c.expected_min_bitrate
      && leb (csl + 1) d.max_spatial_layer
      && leb (csl + 1) 2
    then (delayed (after_raise e d') (c.now + seconds 5), w')
    else (d, w)

-- `currentTemporalLayer-1` on int32
abbrev pub one_below : ℕ → ℕ
one_below ctl = (ctl + 4294967295) % 4294967296

-- `err != nil`: the highest temporal layer of the spatial layer below.
unfoldable pub after_lower : Option SwitchError → DownTrack → ℕ → DownTrack
after_lower none d layer = d
after_lower (some e) d layer = switch_temporal_layer d layer false

-- Much loss: the spatial layer below, or the temporal layer below.
unfoldable pub lower_layer :
    Conditions → (track cbr ctl csl : ℕ) → DownTrack → Receiver → DownTrack × Receiver
lower_layer c track cbr ctl csl d w =
    let (e, d', w') = switch_spatial_layer d w track (csl - 1) false in
    let best = after_lower e d' (get_or c.max_temporal_layers (csl - 1) 0) in
    if (leb c.expected_min_bitrate (5 * cbr / 8) || (ctl == 0))
      && ltb 0 csl
      && not (get_or c.bitrates (csl - 1) 0 == 0)
    then (delayed best (c.now + seconds 10), w')
    else (delayed (switch_temporal_layer d (one_below ctl) false) (c.now + seconds 5), w)

unfoldable pub handle_layer_change : Conditions → ℕ → DownTrack → Receiver → DownTrack × Receiver
handle_layer_change c track d w =
    let csl = d.current_spatial_layer in
    let ctl = current_temporal d in
    let cbr = get_or c.bitrates csl 0 in
    let mctl = get_or c.max_temporal_layers csl 0 in
    let (d', w') =
      if leb c.max_rate_packet_loss 5
      then raise_spatial c track cbr mctl ctl csl (raise_temporal c cbr mctl ctl d) w
      else (d, w) in
    if (d.target_spatial_layer == csl)
      && (ctl == target_temporal d)
      && ltb d.simulcast.switch_delay c.now
    then (if leb 25 c.max_rate_packet_loss then lower_layer c track cbr ctl csl d' w' else (d', w'))
    else (d, w)
