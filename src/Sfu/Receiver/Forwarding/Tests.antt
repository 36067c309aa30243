-- ===== src/Sfu/Receiver/Forwarding/Tests.antt =====
-- Receivers with two layers and three subscribers.
use mathlib.Core.Option.{none-ne-some}
use ion_sfu.Prelude.{
  ℕ, ◌≡◌, refl, true, false, not, ◌&&◌, List, [], ◌∷◌, Option, none, some, ◌==◌, get_or, has,
  if_both, if◌then◌else◌, arith, length, ◌+◌,
}
use ion_sfu.Sfu.DownTrack.{
  DownTrack, simulcast_down_track, SimulcastTrackHelpers, ExtPacket, Forwarded,
}
use ion_sfu.Sfu.Receiver.{
  WebRtcReceiver, Track, picture_loss_indication, full_intra_request, full_resolution, other_rid,
  layer_of, new_receiver, listed, add_up_track, open_layer, with_down, switch_track, switch_tracks,
  switch_layers, switch_to, switch_panics, lower_layers, pick_layer, emit, close,
}
use ion_sfu.Sfu.DownTrack.Simulcast.{is_layered}
use ion_sfu.Sfu.DownTrack.Layers.{set_initial_layers, switch_spatial_layer, switch_down_track}
use ion_sfu.Sfu.Receiver.Forwarding.{
  WriteResult, written, is_stored, with_list, on_packet, finish_pending, deliver, on_eof,
  delete_down_track, chosen_layer, store_down_track, joined, add_down_track, delete_subscriber,
  delete_loop, close_tracks, close_layers, close_all, send_rtcp, is_pli,
}
use ion_sfu.Sfu.Receiver.Forwarding.Closing.{id_of, is_closed}
use ion_sfu.Sfu.Receiver.Forwarding.Placement.{layer_at, IsPlaced}
use ion_sfu.Sfu.Receiver.Forwarding.Switching.{join, join-IsPlaced}
use ion_sfu.Sfu.Receiver.Forwarding.Layering.{add_up_track-IsPlaced, switch_track-IsPlaced}
use ion_sfu.Sfu.DownTrack.Simulcast.Panics.{Fits}
use ion_sfu.Sfu.Receiver.Forwarding.Calls.{
  Call, up_track, down_track, wish, delete, packet, eof, answer,
}
use ion_sfu.Sfu.Receiver.Forwarding.Runs.{
  run, run-IsPlaced, new_receiver-IsPlaced, waiting, on_packet-completes,
}
use ion_sfu.Sfu.Receiver.Forwarding.Removal.{delete_down_track-removes, on_eof-closes}
use ion_sfu.Sfu.Receiver.Forwarding.Requests.{
  Request, asked, asked_all, sent_at, led_at, others, throttled, Apart, sent_at-Apart,
}

abbrev helpers : SimulcastTrackHelpers
helpers = record {
  switch_delay = 0;
  temporal_supported = false;
  l_ts_calc = 0;
  p_ref_pic_id = 0;
  ref_pic_id = 0;
  l_pic_id = 0;
  p_ref_tlz_idx = 0;
  ref_tlz_idx = 0;
  l_tlz_idx = 0;
}

-- A subscriber's track, on layer 0.
abbrev subscribed : DownTrack
subscribed = record {
  bound = true;
  is_vp8_mime = true;
  is_video = true;
  ssrc = 77;
  payload_type = 96;
  sequencer = none;
  track_type = simulcast_down_track;
  current_spatial_layer = 0;
  target_spatial_layer = 0;
  temporal_layer = 0;
  enabled = true;
  re_sync = true;
  sn_offset = 0;
  ts_offset = 0;
  last_ssrc = 10;
  last_sn = 0;
  last_ts = 0;
  simulcast = helpers;
  max_spatial_layer = 2;
  max_temporal_layer = 2;
  octet_count = 0;
  packet_count = 0;
}

-- Every track has the id of the receiver's track.
abbrev heap : ℕ → Track
heap t = record { id = 5; down = subscribed; is_closed = false }

abbrev all_written : ℕ → Forwarded → WriteResult
all_written t f = written

abbrev frame : ExtPacket
frame = record {
  head = true;
  arrival = 1000;
  key_frame = true;
  vp8 = none;
  ssrc = 12;
  sequence_number = 300;
  timestamp = 9000;
  payload = 1 ∷ 2 ∷ [];
}

frame-Fits : Fits frame
frame-Fits = record { short = omega arith; parsed = λ v e. absurd (none-ne-some v e) }

-- Layer 0, then layer 2.
abbrev two_layers : WebRtcReceiver
two_layers =
    add_up_track (add_up_track (new_receiver heap true) other_rid 10 true) full_resolution 12 true

two_layers-IsPlaced : IsPlaced two_layers
two_layers-IsPlaced =
    add_up_track-IsPlaced (add_up_track (new_receiver heap true) other_rid 10 true) full_resolution
      12 true
      (add_up_track-IsPlaced (new_receiver heap true) other_rid 10 true
        (new_receiver-IsPlaced heap true))

-- No track 1 on a list, or where there is none.
abbrev Lacks1 : Option (List ℕ) → Type 0
Lacks1 o = has 1 (elim o as (λ z. List ℕ) [ none ↦ [] | some ts ↦ ts ]) ≡ false

two_layers-empty : (l : ℕ) → has 1 (listed two_layers l) ≡ false
unfolding listed add_up_track open_layer new_receiver switch_layers switch_tracks lower_layers
    layer_of
two_layers-empty l =
    if_both Lacks1 (2 == l) (some []) (if 0 == l then some [] else none) refl
      (if_both Lacks1 (0 == l) (some []) none refl refl)

-- Track 1 on layer 0.
abbrev one_track : WebRtcReceiver
one_track = join two_layers 0 1 subscribed

one_track-IsPlaced : IsPlaced one_track
unfolding listed is_stored add_up_track open_layer new_receiver switch_layers switch_tracks
    lower_layers layer_of
one_track-IsPlaced =
    join-IsPlaced two_layers 0 1 subscribed refl refl two_layers-IsPlaced two_layers-empty

abbrev waits : WebRtcReceiver
waits = switch_track one_track 1 2 false

waits-IsPlaced : IsPlaced waits
unfolding listed is_stored add_up_track open_layer new_receiver switch_layers switch_tracks
    lower_layers layer_of with_list with_down
waits-IsPlaced = switch_track-IsPlaced one_track 1 2 false refl one_track-IsPlaced

on_packet-completes_example :
    (v : WebRtcReceiver) × (w' : WebRtcReceiver) × (finish_pending waits 0 9 2 frame ≡ some v)
    × (deliver all_written (listed v 2) 0 2 frame v ≡ some w')
    × (on_packet all_written 0 9 2 frame waits ≡ some w')
    × ((t : ℕ)
        → has t (waiting waits 2) ≡ true
        → (has t (listed v 2) ≡ true) × (layer_at v t ≡ 2) × (layer_at w' t ≡ 2))
    × ((t : ℕ) → has t (waiting w' 2) ≡ false)
unfolding listed is_stored add_up_track open_layer new_receiver switch_layers switch_tracks
    lower_layers layer_of with_list with_down switch_track switch_spatial_layer switch_down_track
on_packet-completes_example =
    on_packet-completes all_written waits 0 9 2 frame waits-IsPlaced refl refl refl refl frame-Fits
      (refl, tt) (refl, tt)

delete_down_track-removes_example :
    (w' : WebRtcReceiver) × (delete_down_track one_track 0 5 ≡ some w')
    × ((l' t : ℕ)
        → has t (listed w' l')
          ≡ has t (listed one_track l') && not ((0 == l') && (id_of one_track t == 5)))
    × ((t : ℕ) → has t (listed one_track 0) ≡ true → id_of one_track t ≡ 5 → is_closed w' t ≡ true)
unfolding listed is_stored add_up_track open_layer new_receiver switch_layers switch_tracks
    lower_layers layer_of with_list with_down
delete_down_track-removes_example = delete_down_track-removes one_track 0 5 refl

on_eof-closes_example :
    (w' : WebRtcReceiver) × (on_eof one_track ≡ some w')
    × (w'.gate.closed ≡ true)
    × ((l t : ℕ)
        → get_or one_track.gate.available l false ≡ true
        → has t (listed one_track l) ≡ true
        → is_closed w' t ≡ true)
unfolding listed is_stored add_up_track open_layer new_receiver switch_layers switch_tracks
    lower_layers layer_of with_list with_down
on_eof-closes_example = on_eof-closes one_track one_track-IsPlaced refl

-- Requests every 300 ms, and a FIR between them: every second PLI passes.
abbrev requests : List Request
requests =
    pli_at 1000000000
    ∷ pli_at 1300000000
    ∷ record { now = 1400000000; first = full_intra_request 9 10; more = [] }
    ∷ pli_at 1600000000
    ∷ pli_at 1900000000
    ∷ []
  where
    pli_at : ℕ → Request
    pli_at now = record { now = now; first = picture_loss_indication 9 10; more = [] }

sent_at-Apart_example :
    let w = new_receiver heap true in
    (sent_at w requests ≡ throttled w.last_pli (led_at requests))
    × Apart w.last_pli (sent_at w requests)
    × (length (asked_all w requests).events
        ≡ length w.events + length (sent_at w requests) + others requests)
sent_at-Apart_example = sent_at-Apart requests (new_receiver heap true)

two_of_four : sent_at (new_receiver heap true) requests ≡ 1000000000 ∷ 1600000000 ∷ []
unfolding sent_at asked send_rtcp is_pli emit new_receiver
two_of_four = refl

abbrev calls : List Call
calls =
    up_track other_rid 10 true
    ∷ packet 0 9 0 frame
    ∷ up_track full_resolution 12 true
    ∷ down_track 1 true
    ∷ wish 1 0 false
    ∷ delete 2 5
    ∷ eof
    ∷ []

run-IsPlaced_example :
    (w' : WebRtcReceiver) × (run all_written (new_receiver heap true) calls ≡ some w') × IsPlaced w'
unfolding listed is_stored add_up_track open_layer new_receiver switch_layers switch_tracks
    lower_layers layer_of with_list with_down switch_track switch_spatial_layer switch_down_track
    answer on_packet finish_pending deliver chosen_layer pick_layer add_down_track joined
    set_initial_layers store_down_track switch_to switch_panics is_layered delete_subscriber
    delete_down_track delete_loop close emit on_eof close_tracks close_layers close_all
run-IsPlaced_example =
    run-IsPlaced all_written calls (new_receiver heap true) (new_receiver-IsPlaced heap true) (
      tt,
      (
        (refl, frame-Fits),
        (tt, ((two_layers-empty, refl), ((omega arith, refl), (refl, (tt, tt))))),
      ),
    )
