-- ===== src/Sfu/DownTrack/Simulcast/Stays.antt =====
-- pkg/sfu/downtrack.go: a packet moves no track to another layer.
use ion_sfu.Prelude.{
  ℕ, Bool, true, false, if◌then◌else◌, sub16, sub32, add16, ◌≡◌, refl, ◌∙◌, Option-cases, inl, inr,
  arith, ◌&&◌, ◌||◌, not, ◌==◌,
}
use ion_sfu.Sfu.DownTrack.{
  DownTrack, ExtPacket, Effect, nothing, pli, DownTrackType, simple_down_track,
  simulcast_down_track, re_synced, forward_simple, write_simple_rtp, update_stats,
}
use ion_sfu.Sfu.DownTrack.Simulcast.{
  finish_switch, set_vp8_temporal_layer, re_sync_source, adjust_offsets, send_simulcast,
  forward_simulcast, write_simulcast_rtp, write_rtp, Rewritten,
}

-- Both branches of a test keep the layer.
either :
    (b : Bool) (x y : Effect × DownTrack) (n : ℕ)
    → x.1.current_spatial_layer ≡ n
    → y.1.current_spatial_layer ≡ n
    → (if b then x else y).1.current_spatial_layer ≡ n
either true x y n hx hy = hx
either false x y n hx hy = hy

write_simple-layer :
    (d : DownTrack) (p : ExtPacket)
    → (write_simple_rtp d p).1.current_spatial_layer ≡ d.current_spatial_layer
unfolding write_simple_rtp forward_simple re_synced update_stats
write_simple-layer d p = ground arith

set_vp8-layer :
    (p : ExtPacket) (d : DownTrack)
    → (set_vp8_temporal_layer p d).1.current_spatial_layer ≡ d.current_spatial_layer
unfolding set_vp8_temporal_layer finish_switch
set_vp8-layer p d = elim (Option-cases p.vp8) [
  | inl e ↦ rw e refl
  | inr (v, e) ↦ rw e (ground arith)
]

send-layer :
    (d : DownTrack) (p : ExtPacket) (csl new_sn new_ts : ℕ) (r : Rewritten)
    → (send_simulcast d p csl new_sn new_ts r).1.current_spatial_layer ≡ d.current_spatial_layer
unfolding send_simulcast update_stats
send-layer d p csl new_sn new_ts r = ground arith

adjust-layer :
    (d : DownTrack) (p : ExtPacket)
    → (adjust_offsets d p).current_spatial_layer ≡ d.current_spatial_layer
unfolding adjust_offsets
adjust-layer d p = elim (Option-cases p.vp8) [
  | inl e ↦ rw e (ground arith)
  | inr (v, e) ↦ rw e (ground arith)
]

synced-layer :
    (b : Bool) (d : DownTrack) (p : ExtPacket)
    → (if b then re_sync_source d p else d).current_spatial_layer ≡ d.current_spatial_layer
unfolding re_sync_source
synced-layer true d p = refl
synced-layer false d p = refl

forward-layer :
    (d : DownTrack) (p : ExtPacket) (csl : ℕ)
    → (forward_simulcast d p csl).1.current_spatial_layer ≡ d.current_spatial_layer
unfolding forward_simulcast
forward-layer d p csl =
    let (r, d') = set_vp8_temporal_layer p d in
    let sn = sub16 p.sequence_number d.sn_offset in
    let ts = sub32 p.timestamp d.ts_offset in
    let plain : Rewritten = record { buf = p.payload; pic_id = 0; tlz_idx = 0; drop = false } in
    let n = d.current_spatial_layer in
    either (d.simulcast.temporal_supported && d.is_vp8_mime)
      (if r.drop
        then (nothing, record d' { sn_offset = add16 d'.sn_offset 1 })
        else send_simulcast d' p csl sn ts r)
      (send_simulcast d p csl sn ts plain) n
      (either r.drop (nothing, record d' { sn_offset = add16 d'.sn_offset 1 })
        (send_simulcast d' p csl sn ts r) n (set_vp8-layer p d)
        (send-layer d' p csl sn ts r ∙ set_vp8-layer p d))
      (send-layer d p csl sn ts plain)

write_simulcast-layer :
    (d : DownTrack) (p : ExtPacket) (layer : ℕ)
    → (write_simulcast_rtp d p layer).1.current_spatial_layer ≡ d.current_spatial_layer
unfolding write_simulcast_rtp
write_simulcast-layer d p layer =
    let synced = if not (d.last_ssrc == p.ssrc) || d.re_sync then re_sync_source d p else d in
    let sent = forward_simulcast (adjust_offsets synced p) p d.current_spatial_layer in
    let n = d.current_spatial_layer in
    either (not (d.current_spatial_layer == layer)) (nothing, d)
      (if d.re_sync && not p.key_frame then (pli d.ssrc p.ssrc, d) else sent) n refl
      (either (d.re_sync && not p.key_frame) (pli d.ssrc p.ssrc, d) sent n refl
        (forward-layer (adjust_offsets synced p) p n
          ∙ adjust-layer synced p
          ∙ synced-layer (not (d.last_ssrc == p.ssrc) || d.re_sync) d p))

by_type :
    (t : DownTrackType) (d : DownTrack) (p : ExtPacket) (layer : ℕ)
    → (elim t as (λ x. Effect × DownTrack) [
      | simple_down_track ↦ write_simple_rtp d p
      | simulcast_down_track ↦ write_simulcast_rtp d p layer
    ]).1.current_spatial_layer
      ≡ d.current_spatial_layer
by_type simple_down_track d p layer = write_simple-layer d p
by_type simulcast_down_track d p layer = write_simulcast-layer d p layer

pub write_rtp-layer :
    (d : DownTrack) (p : ExtPacket) (layer : ℕ)
    → (write_rtp d p layer).1.current_spatial_layer ≡ d.current_spatial_layer
unfolding write_rtp
write_rtp-layer d p layer =
    either (not d.enabled || not d.bound) (nothing, d)
      (elim d.track_type as (λ x. Effect × DownTrack) [
        | simple_down_track ↦ write_simple_rtp d p
        | simulcast_down_track ↦ write_simulcast_rtp d p layer
      ])
      d.current_spatial_layer refl (by_type d.track_type d p layer)
