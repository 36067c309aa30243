-- ===== src/Sfu/DownTrack/Layers/Loss.antt =====
-- Much loss on the lowest layers.
use ion_sfu.Prelude.{
  ℕ, ◌+◌, ◌-◌, ◌*◌, ◌/◌, ◌≤◌, ◌<◌, ◌≡◌, refl, true, false, not, ◌&&◌, ◌||◌, ltb, leb, ◌==◌, get_or,
  arith,
}
use ion_sfu.Buffer.Vp8.{Vp8}
use ion_sfu.Sfu.DownTrack.{DownTrack, simulcast_down_track}
use ion_sfu.Sfu.DownTrack.Simulcast.{finish_switch, drops}
use ion_sfu.Sfu.DownTrack.Layers.{
  Receiver, switch_temporal_layer, Conditions, handle_layer_change, lower_layer, delayed, one_below,
  seconds, current_temporal, target_temporal,
}

lowest_switch :
    (d : DownTrack)
    → d.track_type ≡ simulcast_down_track
    → d.temporal_layer ≡ 0
    → (switch_temporal_layer d (one_below 0) false).temporal_layer ≡ 4294901760
unfolding switch_temporal_layer
lowest_switch d s z = rw (s, z) refl

lower_at_lowest :
    (c : Conditions) (track cbr ctl csl : ℕ) (d : DownTrack) (w : Receiver)
    → ctl ≡ 0
    → csl ≡ 0
    → lower_layer c track cbr ctl csl d w
      ≡ (delayed (switch_temporal_layer d (one_below 0) false) (c.now + seconds 5), w)
unfolding lower_layer
lower_at_lowest c track cbr ctl csl d w z y =
    let top : ltb 0 csl ≡ false = ground arith in
    let none_below : (leb c.expected_min_bitrate (5 * cbr / 8) || (ctl == 0))
          && ltb 0 csl
          && not (get_or c.bitrates (csl - 1) 0 == 0)
        ≡ false =
      ground (arith, top) in
    rw (none_below, z) refl

handle_at_lowest :
    (c : Conditions) (track : ℕ) (d : DownTrack) (w : Receiver)
    → d.track_type ≡ simulcast_down_track
    → d.current_spatial_layer ≡ 0
    → d.target_spatial_layer ≡ 0
    → d.temporal_layer ≡ 0
    → d.simulcast.switch_delay < c.now
    → 25 ≤ c.max_rate_packet_loss
    → (handle_layer_change c track d w).0.temporal_layer ≡ 4294901760
unfolding handle_layer_change
handle_at_lowest c track d w s cs ts tl del many =
    let ready : (d.target_spatial_layer == d.current_spatial_layer)
          && (current_temporal d == target_temporal d)
          && ltb d.simulcast.switch_delay c.now
        ≡ true =
      ground arith in
    let few : leb c.max_rate_packet_loss 5 ≡ false = ground arith in
    let much : leb 25 c.max_rate_packet_loss ≡ true = ground arith in
    let low : current_temporal d ≡ 0 = omega (arith, tl) in
    let lower =
      lower_at_lowest c track (get_or c.bitrates d.current_spatial_layer 0) (current_temporal d)
        d.current_spatial_layer d w low cs in
    simp (ready, few, much, lower) (lowest_switch d s tl)

opened :
    (d : DownTrack) (v : Vp8)
    → d.temporal_layer ≡ 4294901760
    → v.tid < 256
    → (finish_switch d v).temporal_layer ≡ 4294967295
unfolding finish_switch
opened d v t h = let fits : leb v.tid 255 ≡ true = ground arith in rw (t, fits) refl

open_drops :
    (e : DownTrack) (u : Vp8) → e.temporal_layer ≡ 4294967295 → u.tid < 256 → drops e u ≡ false
unfolding drops
open_drops e u t h = ground arith

open_stays :
    (c : Conditions) (track : ℕ) (e : DownTrack) (w : Receiver)
    → e.temporal_layer ≡ 4294967295
    → handle_layer_change c track e w ≡ (e, w)
unfolding handle_layer_change
open_stays c track e w t =
    let busy : (e.target_spatial_layer == e.current_spatial_layer)
          && (current_temporal e == target_temporal e)
          && ltb e.simulcast.switch_delay c.now
        ≡ false =
      ground arith in
    simp busy

-- Much loss while a subscriber is at the lowest spatial and temporal layers sets the target of the
-- temporal layer to -1. The next frame ends that switch with all 32 bits set; from then on the
-- track drops no frame of any temporal layer, and no report moves its layers again.
pub loss_opens_all_layers :
    (c c' : Conditions) (track : ℕ) (d : DownTrack) (w w' : Receiver) (v u : Vp8)
    → d.track_type ≡ simulcast_down_track
    → d.current_spatial_layer ≡ 0
    → d.target_spatial_layer ≡ 0
    → d.temporal_layer ≡ 0
    → d.simulcast.switch_delay < c.now
    → 25 ≤ c.max_rate_packet_loss
    → v.tid < 256
    → u.tid < 256
    → let e = finish_switch (handle_layer_change c track d w).0 v in
      (e.temporal_layer ≡ 4294967295)
      × (drops e u ≡ false)
      × (handle_layer_change c' track e w' ≡ (e, w'))
loss_opens_all_layers c c' track d w w' v u s cs ts tl del many h k =
    let e = finish_switch (handle_layer_change c track d w).0 v in
    let low = handle_at_lowest c track d w s cs ts tl del many in
    let t = opened (handle_layer_change c track d w).0 v low h in
    (t, open_drops e u t k, open_stays c' track e w' t)
