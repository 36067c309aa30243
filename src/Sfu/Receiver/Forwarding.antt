-- ===== src/Sfu/Receiver/Forwarding.antt =====
-- pkg/sfu/receiver.go: the subscriptions, and the loop that forwards the packets of a layer.
-- The streams of the tracks are the WebRTC library's: `write` says how the write of a packet to a
-- track's stream ends. `sender` stands for the random sender SSRC of `writeRTP`.
pub mod Closing
pub mod Placement
pub mod Delivery
pub mod Switching
pub mod Finishing
pub mod Changes
pub mod Layering
pub mod Calls
pub mod Runs
pub mod Removal
pub mod Requests
mod Tests
use ion_sfu.Prelude.{
  ℕ, ◌+◌, ◌-◌, Bool, true, false, not, ◌&&◌, List, [], ◌∷◌, ◌++◌, Option, none, some, ltb, ◌==◌,
  if◌then◌else◌, get_or, set, update, has, ◌>>=◌,
}
use ion_sfu.Sfu.DownTrack.{
  DownTrack, simple_down_track, simulcast_down_track, ExtPacket, Effect, nothing, pli, forward,
  Forwarded,
}
use ion_sfu.Sfu.DownTrack.Layers.{set_initial_layers, switch_spatial_layer_done}
use ion_sfu.Sfu.DownTrack.Simulcast.{write_rtp, write_panics}
use ion_sfu.Sfu.Receiver.{
  WebRtcReceiver, RtcpPacket, picture_loss_indication, rtcp, wrote, closed_receiver, emit,
  with_down, ssrc, close, listed, pick_layer,
}

unfoldable pub is_stored : WebRtcReceiver → ℕ → Bool
is_stored w l = elim (w.down_tracks l) [ none ↦ false | some ts ↦ true ]

unfoldable pub with_list : WebRtcReceiver → ℕ → List ℕ → WebRtcReceiver
with_list w l ts = record w { down_tracks = update w.down_tracks l (some ts) }

pub store_down_track : WebRtcReceiver → (layer t : ℕ) → Option WebRtcReceiver
store_down_track w layer t =
    if is_stored w layer then some (with_list w layer (listed w layer ++ (t ∷ []))) else none

-- The loop of `deleteDownTrack`: what it keeps, and the receiver after the closes.
pub delete_loop : List ℕ → ℕ → WebRtcReceiver → List ℕ × WebRtcReceiver
delete_loop [] id w = ([], w)
delete_loop (t ∷ ts) id w =
    let same = (w.tracks t).id == id in
    let (kept, w') = delete_loop ts id (if same then close w t else w) in
    (if same then kept else t ∷ kept, w')

pub delete_down_track : WebRtcReceiver → (layer id : ℕ) → Option WebRtcReceiver
delete_down_track w layer id =
    let (kept, w') = delete_loop (listed w layer) id w in
    if is_stored w layer then some (with_list w' layer kept) else none

-- `DeleteDownTrack`
pub delete_subscriber : WebRtcReceiver → (layer id : ℕ) → Option WebRtcReceiver
delete_subscriber w layer id = if w.gate.closed then some w else delete_down_track w layer id

pub joined : WebRtcReceiver → (layer : ℕ) → DownTrack → DownTrack
joined w layer d =
    if w.is_simulcast
    then record (set_initial_layers d layer 2) {
      max_spatial_layer = 2;
      max_temporal_layer = 2;
      last_ssrc = ssrc w layer;
      track_type = simulcast_down_track;
    }
    else record (set_initial_layers d 0 0) { track_type = simple_down_track }

-- The layer of a new subscription.
unfoldable pub chosen_layer : WebRtcReceiver → Bool → ℕ
chosen_layer w best_quality_first =
    if w.is_simulcast then pick_layer w.gate.available 0 0 best_quality_first else 0

pub add_down_track : WebRtcReceiver → ℕ → Bool → Option WebRtcReceiver
add_down_track w t best_quality_first =
    let layer = chosen_layer w best_quality_first in
    let with_layers = with_down w t (joined w layer (w.tracks t).down) in
    if w.gate.closed
    then some w
    else if not (is_stored w layer)
    then none
    else if has t (listed w layer)
    then some w
    else store_down_track with_layers layer t

unfoldable pub is_pli : RtcpPacket → Bool
is_pli (picture_loss_indication s m) = true
is_pli other = false

-- `p[0]` of no packets is a panic.
pub send_rtcp : WebRtcReceiver → (now : ℕ) → List RtcpPacket → Option WebRtcReceiver
send_rtcp w now [] = none
send_rtcp w now (p ∷ ps) =
    if is_pli p && ltb (now - w.last_pli) 500000000
    then some w
    else some (emit (if is_pli p then record w { last_pli = now } else w) (rtcp (p ∷ ps)))

-- The end of a switch: the track leaves the layer that it is on, for the new one.
pub finish_one : WebRtcReceiver → (layer t : ℕ) → Option WebRtcReceiver
finish_one w layer t = do
  let d = (w.tracks t).down
  left ← delete_down_track w d.current_spatial_layer (w.tracks t).id
  here ← store_down_track left layer t
  some (with_down here t (switch_spatial_layer_done (here.tracks t).down layer))

pub finish_all : List ℕ → (layer : ℕ) → WebRtcReceiver → Option WebRtcReceiver
finish_all [] layer w = some w
finish_all (t ∷ ts) layer w = do w' ← finish_one w layer t; finish_all ts layer w'

pub none_pending : WebRtcReceiver → ℕ → WebRtcReceiver
none_pending w layer = record w {
  gate = record w.gate {
    pending_tracks = set w.gate.pending_tracks layer [];
    pending = set w.gate.pending layer false;
  };
}

-- The block on `w.pending[layer]`.
pub finish_pending : WebRtcReceiver → (now sender layer : ℕ) → ExtPacket → Option WebRtcReceiver
finish_pending w now sender layer p =
    let asked = send_rtcp w now (picture_loss_indication sender (ssrc w layer) ∷ []) in
    let finished = do
      w' ← finish_all (get_or w.gate.pending_tracks layer []) layer w
      some (none_pending w' layer)
    in if not (w.is_simulcast && get_or w.gate.pending layer false)
      then some w
      else if p.key_frame
      then finished
      else asked

-- How a write to a stream ends: well, with `io.EOF` or `io.ErrClosedPipe`, or with another error.
pub data WriteResult : Type 0 where
  written stream_closed write_failed : WriteResult

pub after_result : WriteResult → WebRtcReceiver → (layer t : ℕ) → Forwarded → Option WebRtcReceiver
after_result written w layer t f = some (emit w (wrote t f))
after_result stream_closed w layer t f = delete_down_track w layer (w.tracks t).id
after_result write_failed w layer t f = some w

-- What follows `dt.WriteRTP`, from what it sent. Another error is logged.
pub after_write :
    (ℕ → Forwarded → WriteResult)
    → WebRtcReceiver
    → (now layer t : ℕ) → Effect
    → Option WebRtcReceiver
after_write write w now layer t nothing = some w
after_write write w now layer t (pli s m) = send_rtcp w now (picture_loss_indication s m ∷ [])
after_write write w now layer t (forward f) = after_result (write t f) w layer t f

pub deliver_one :
    (ℕ → Forwarded → WriteResult)
    → WebRtcReceiver
    → (now layer : ℕ) → ExtPacket
    → ℕ
    → Option WebRtcReceiver
deliver_one write w now layer p t =
    let (out, d) = write_rtp (w.tracks t).down p layer in
    let written_on = after_write write (with_down w t d) now layer t out in
    if write_panics (w.tracks t).down p layer then none else written_on

-- The loop over the tracks that the layer had when it began.
pub deliver :
    (ℕ → Forwarded → WriteResult)
    → List ℕ
    → (now layer : ℕ) → ExtPacket
    → WebRtcReceiver
    → Option WebRtcReceiver
deliver write [] now layer p w = some w
deliver write (t ∷ ts) now layer p w = do
  w' ← deliver_one write w now layer p t
  deliver write ts now layer p w'

-- The body of the loop of `writeRTP`, for a packet.
pub on_packet :
    (ℕ → Forwarded → WriteResult)
    → (now sender layer : ℕ) → ExtPacket
    → WebRtcReceiver
    → Option WebRtcReceiver
on_packet write now sender layer p w = do
  w' ← finish_pending w now sender layer p
  deliver write (listed w' layer) now layer p w'

-- `dt.Close()` of all, and `closeTracks` with its loop over the layers.
pub close_all : List ℕ → WebRtcReceiver → WebRtcReceiver
close_all [] w = w
close_all (t ∷ ts) w = close_all ts (close w t)

pub close_layers : List Bool → (i : ℕ) → WebRtcReceiver → Option WebRtcReceiver
close_layers [] i w = some w
close_layers (false ∷ available) i w = close_layers available (i + 1) w
close_layers (true ∷ available) i w =
    let rest = close_layers available (i + 1) (close_all (listed w i) w) in
    if is_stored w i then rest else none

pub close_tracks : WebRtcReceiver → Option WebRtcReceiver
close_tracks w = do w' ← close_layers w.gate.available 0 w; some (emit w' closed_receiver)

-- `ReadExtended` returned `io.EOF`: the loop ends, and the first to end closes the receiver.
pub on_eof : WebRtcReceiver → Option WebRtcReceiver
on_eof w =
    if w.gate.closed
    then some w
    else close_tracks (record w { gate = record w.gate { closed = true } })
