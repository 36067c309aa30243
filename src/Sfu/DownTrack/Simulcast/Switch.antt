-- ===== src/Sfu/DownTrack/Simulcast/Switch.antt =====
-- A switch to another source goes on where the last one ended.
use ion_sfu.Prelude.{
  ℕ, ◌<◌, ◌≡◌, ◌≢◌, refl, ◌∙◌, ap, true, false, not, ◌&&◌, some, ◌==◌, if◌then◌else◌, sub16, sub32,
  add16, add32, add8, sub8, arith,
}
use ion_sfu.Buffer.Vp8.{Vp8, modify_vp8_temporal_payload}
use ion_sfu.Sfu.DownTrack.{DownTrack, ExtPacket, Effect, forward, Forwarded}
use ion_sfu.Sfu.DownTrack.Simulcast.{
  write_simulcast_rtp, forward_simulcast, send_simulcast, set_vp8_temporal_layer, finish_switch,
  drops, re_sync_source, adjust_offsets, Rewritten, ticks, new_pic_id, new_tlz_idx, new_references,
}

-- The first VP8 packet of another source of a track that has sent one: a key frame, if the track
-- waits for one, of the highest layer the subscriber takes.
pub record Switches (d : DownTrack) (p : ExtPacket) (v : Vp8) : Type 0 where
  pub is_vp8 : p.vp8 ≡ some v
  pub vp8_track : d.simulcast.temporal_supported && d.is_vp8_mime ≡ true
  pub other_source : p.ssrc ≢ d.last_ssrc
  pub timed : 0 < d.simulcast.l_ts_calc
  pub arrived : 0 < p.arrival
  pub key : d.re_sync && not p.key_frame ≡ false
  pub kept : drops d v ≡ false
  pub sn_in : p.sequence_number < 65536
  pub last_in : d.last_sn < 65536
  pub ts_in : p.timestamp < 4294967296
  pub last_ts_in : d.last_ts < 4294967296
  pub pic_in : v.picture_id < 65536
  pub last_pic_in : d.simulcast.l_pic_id < 65536
  pub tlz_in : v.tl0_pic_idx < 256
  pub last_tlz_in : d.simulcast.l_tlz_idx < 256

-- The time between two packets as the source's clock counts it, at least one tick.
abbrev pub step_of : ℕ → ℕ → ℕ
step_of arrival before = let t = ticks arrival before in if t == 0 then 1 else t

re_sync_source_lem :
    (d : DownTrack) (p : ExtPacket) (v : Vp8)
    → p.vp8 ≡ some v
    → d.simulcast.temporal_supported && d.is_vp8_mime ≡ true
    → 0 < d.simulcast.l_ts_calc
    → 0 < p.arrival
    → let e = re_sync_source d p in
      (e.simulcast.p_ref_pic_id ≡ d.simulcast.l_pic_id)
      × (e.simulcast.ref_pic_id ≡ v.picture_id)
      × (e.simulcast.p_ref_tlz_idx ≡ d.simulcast.l_tlz_idx)
      × (e.simulcast.ref_tlz_idx ≡ v.tl0_pic_idx)
      × (e.simulcast.temporal_supported && e.is_vp8_mime ≡ true)
      × (0 < e.simulcast.l_ts_calc)
      × (e.last_sn ≡ d.last_sn)
      × (e.last_ts ≡ d.last_ts)
      × (e.last_ssrc ≡ d.last_ssrc)
      × (drops e v ≡ drops d v)
      × (e.simulcast.l_ts_calc ≡ (if d.re_sync then p.arrival else d.simulcast.l_ts_calc))
unfolding re_sync_source new_references drops
re_sync_source_lem d p v e t h a = simp e (ground (arith, t))

adjust_offsets_lem :
    (d : DownTrack) (p : ExtPacket)
    → p.ssrc ≢ d.last_ssrc
    → 0 < d.simulcast.l_ts_calc
    → let e = adjust_offsets d p in
      (e.sn_offset ≡ sub16 (sub16 p.sequence_number d.last_sn) 1)
      × (e.ts_offset
          ≡ sub32 p.timestamp (add32 d.last_ts (step_of p.arrival d.simulcast.l_ts_calc)))
      × (e.simulcast ≡ d.simulcast)
      × (e.is_vp8_mime ≡ d.is_vp8_mime)
      × ((v : Vp8) → drops e v ≡ drops d v)
unfolding adjust_offsets drops
adjust_offsets_lem d p o h =
    let other : d.last_ssrc == p.ssrc ≡ false = ground arith in
    let started : d.simulcast.l_ts_calc == 0 ≡ false = ground arith in
    simp (other, started) (refl, refl, refl, refl, λ v. refl)

-- The frame that is forwarded, from the state behind the offsets.
rewritten_frame :
    (e : DownTrack) (p : ExtPacket) (v : Vp8)
    → p.vp8 ≡ some v
    → drops e v ≡ false
    → let (r, e') = set_vp8_temporal_layer p e in
      (r.drop ≡ false)
      × (r.buf
          ≡ modify_vp8_temporal_payload p.payload v.pic_id_idx v.tlz_idx
              (new_pic_id e.simulcast v)
              (new_tlz_idx e.simulcast v)
              v.m_bit)
      × (e'.ssrc ≡ e.ssrc)
      × (e'.payload_type ≡ e.payload_type)
unfolding set_vp8_temporal_layer finish_switch
rewritten_frame e p v vp8 k = rw vp8 (ground (arith, k))

send-forwards :
    (d : DownTrack) (p : ExtPacket) (csl new_sn new_ts : ℕ) (r : Rewritten)
    → (send_simulcast d p csl new_sn new_ts r).0
      ≡ forward (record {
        payload_type = d.payload_type;
        timestamp = new_ts;
        sequence_number = new_sn;
        ssrc = d.ssrc;
        payload = r.buf;
      })
unfolding send_simulcast
send-forwards d p csl new_sn new_ts r = refl

forward-sends :
    (e : DownTrack) (p : ExtPacket) (csl : ℕ)
    → e.simulcast.temporal_supported && e.is_vp8_mime ≡ true
    → (set_vp8_temporal_layer p e).0.drop ≡ false
    → forward_simulcast e p csl
      ≡ send_simulcast
          (set_vp8_temporal_layer p e).1
          p
          csl
          (sub16 p.sequence_number e.sn_offset)
          (sub32 p.timestamp e.ts_offset)
          (set_vp8_temporal_layer p e).0
unfolding forward_simulcast
forward-sends e p csl t k = rw (t, k) refl

write_changed :
    (d : DownTrack) (p : ExtPacket)
    → p.ssrc ≢ d.last_ssrc
    → d.re_sync && not p.key_frame ≡ false
    → write_simulcast_rtp d p d.current_spatial_layer
      ≡ forward_simulcast (adjust_offsets (re_sync_source d p) p) p d.current_spatial_layer
unfolding write_simulcast_rtp
write_changed d p o k =
    let other : d.last_ssrc == p.ssrc ≡ false = ground arith in
    let layer : d.current_spatial_layer == d.current_spatial_layer ≡ true = ground arith in
    simp (other, layer, k)

-- At a switch the track forwards the packet, if it fits the slices of the pool, under the number after the last one sent and, in the
-- rewritten VP8 descriptor, under the picture id and the TL0PICIDX after the last ones. Its timestamp
-- is later than the last one by what the code computes: 90 for 1000 milliseconds between the two
-- arrivals, rounded down (a thousandth of the time in 90 kHz ticks), but at least 1, and 1 where a key
-- frame was awaited.
pub switch_goes_on :
    (d : DownTrack) (p : ExtPacket) (v : Vp8)
    → Switches d p v
    → let before = if d.re_sync then p.arrival else d.simulcast.l_ts_calc in
      let (out, d') = write_simulcast_rtp d p d.current_spatial_layer in
      (f : Forwarded) × (out ≡ forward f)
      × (f.sequence_number ≡ add16 d.last_sn 1)
      × (f.timestamp ≡ add32 d.last_ts (step_of p.arrival before))
      × (f.payload
          ≡ modify_vp8_temporal_payload p.payload v.pic_id_idx v.tlz_idx
              (add16 d.simulcast.l_pic_id 1)
              (add8 d.simulcast.l_tlz_idx 1)
              v.m_bit)
unfolding new_pic_id new_tlz_idx
switch_goes_on d p v s =
    let s1 = re_sync_source d p in
    let (r1, r2, r3, r4, r5, r6, sn, ts, src, dr, before) =
      re_sync_source_lem d p v s.is_vp8 s.vp8_track s.timed s.arrived in
    let s2 = adjust_offsets s1 p in
    let (a1, a2, a3, a4, a5) = adjust_offsets_lem s1 p (λ x. s.other_source (x ∙ src)) r6 in
    let t : s2.simulcast.temporal_supported && s2.is_vp8_mime ≡ true = rw (a3, a4) r5 in
    let (k1, k2, _, _) = rewritten_frame s2 p v s.is_vp8 (a5 v ∙ dr ∙ s.kept) in
    let csl = d.current_spatial_layer in
    let pic : add16 (add16 (sub16 v.picture_id v.picture_id) d.simulcast.l_pic_id) 1
        ≡ add16 d.simulcast.l_pic_id 1 =
      omega (arith, s.pic_in) in
    let tlz : add8 (add8 (sub8 v.tl0_pic_idx v.tl0_pic_idx) d.simulcast.l_tlz_idx) 1
        ≡ add8 d.simulcast.l_tlz_idx 1 =
      omega (arith, s.tlz_in) in
    let go = write_changed d p s.other_source s.key ∙ forward-sends s2 p csl t k1 in
    (
      _,
      ap (λ (x : Effect × DownTrack). x.0) go ∙ send-forwards _ p csl _ _ _,
      omega (arith, a1, sn, s.sn_in, s.last_in),
      rw (a2, ts, before) (omega (arith, s.ts_in, s.last_ts_in)),
      k2 ∙ rw (a3, r1, r2, r3, r4) (rw (pic, tlz) refl),
    )
