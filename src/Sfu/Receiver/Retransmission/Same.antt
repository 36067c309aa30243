-- ===== src/Sfu/Receiver/Retransmission/Same.antt =====
-- pkg/sfu/receiver.go and pkg/sfu/downtrack.go: a packet that is sent again is the packet that was sent.
use mathlib.Core.Path.{subst}
use ion_sfu.Prelude.{
  ℕ, ◌%◌, ◌<◌, ◌≡◌, refl, sym, ◌∙◌, true, false, List, [], ◌∷◌, ◌≤◌, length, none, some, arith,
  sub16, sub32,
}
use ion_sfu.Buffer.Vp8.{Vp8, zero_vp8, unmarshal, modify_vp8_temporal_payload}
use ion_sfu.Sfu.Sequencer.{
  PacketMeta, Sequencer, new_meta, may_resend, get_seq_no_pairs, set_vp8_payload_meta,
  get_vp8_payload_meta,
}
use ion_sfu.Sfu.Sequencer.Lookup.{IsValid, HasHead, marked, written, lookup_one, resend_one-head}
use ion_sfu.Buffer.Vp8.Rewrite.{InRange, ParsedInRange, unmarshal-InRange}
use ion_sfu.Sfu.DownTrack.Simulcast.Panics.{rewrites}
use ion_sfu.Sfu.DownTrack.Simulcast.Noted.{IsSameKind, send-HasHead}
use ion_sfu.Sfu.Sequencer.Late.{vp8_payload_meta_lem}
use ion_sfu.Sfu.DownTrack.{DownTrack, SimulcastTrackHelpers, ExtPacket, forward}
use ion_sfu.Sfu.DownTrack.Simulcast.{
  Rewritten, rewrite_panics, drops, new_pic_id, new_tlz_idx, set_vp8_temporal_layer, send_simulcast,
  forward_simulcast, finish_switch,
}
use ion_sfu.Sfu.Receiver.Retransmission.{with_meta, payload_again, sent_again}

-- What a frame that is not dropped becomes.
record IsRewritten (p : ExtPacket) (d : DownTrack) (v : Vp8) (x : Rewritten × DownTrack)
    : Type 0 where
  buf :
      x.0.buf
      ≡ modify_vp8_temporal_payload p.payload v.pic_id_idx v.tlz_idx
          (new_pic_id d.simulcast v)
          (new_tlz_idx d.simulcast v)
          v.m_bit
  pic_id : x.0.pic_id ≡ new_pic_id d.simulcast v
  tlz_idx : x.0.tlz_idx ≡ new_tlz_idx d.simulcast v
  drop : x.0.drop ≡ false
  kind : IsSameKind d x.1
  sequencer : x.1.sequencer ≡ d.sequencer

set_vp8-IsRewritten :
    (p : ExtPacket) (d : DownTrack) (v : Vp8)
    → p.vp8 ≡ some v
    → drops d v ≡ false
    → IsRewritten p d v (set_vp8_temporal_layer p d)
unfolding set_vp8_temporal_layer finish_switch
set_vp8-IsRewritten p d v e h = record {
  buf = rw e (rw h refl);
  pic_id = rw e (rw h refl);
  tlz_idx = rw e (rw h refl);
  drop = rw e (rw h refl);
  kind = record {
    payload_type = rw e (rw h (ground arith));
    ssrc = rw e (rw h (ground arith));
    is_vp8 = rw e (rw h (ground arith));
    supported = rw e (rw h (ground arith));
  };
  sequencer = rw e (rw h (ground arith));
}

pic_id_bound : (h : SimulcastTrackHelpers) (v : Vp8) → new_pic_id h v < 65536
unfolding new_pic_id
pic_id_bound h v = ground arith

tlz_bound : (h : SimulcastTrackHelpers) (v : Vp8) → new_tlz_idx h v < 256
unfolding new_tlz_idx
tlz_bound h v = ground arith

vp8_again :
    (d : DownTrack) (m : PacketMeta) (payload : List ℕ) (v : Vp8) (tlz_idx pic_id : ℕ)
    → d.simulcast.temporal_supported ≡ true
    → d.is_vp8_mime ≡ true
    → unmarshal zero_vp8 (some payload) ≡ (none, v)
    → get_vp8_payload_meta m ≡ (tlz_idx, pic_id)
    → payload_again d m payload
      ≡ some (modify_vp8_temporal_payload payload v.pic_id_idx v.tlz_idx pic_id tlz_idx v.m_bit)
unfolding payload_again with_meta
vp8_again d m payload v tlz_idx pic_id ht hm hu hg = simp (ht, hm, hu, hg)

forward_kept :
    (d : DownTrack) (p : ExtPacket) (csl : ℕ)
    → d.simulcast.temporal_supported ≡ true
    → d.is_vp8_mime ≡ true
    → (set_vp8_temporal_layer p d).0.drop ≡ false
    → forward_simulcast d p csl
      ≡ send_simulcast
          (set_vp8_temporal_layer p d).1
          p
          csl
          (sub16 p.sequence_number d.sn_offset)
          (sub32 p.timestamp d.ts_offset)
          (set_vp8_temporal_layer p d).0
unfolding forward_simulcast
forward_kept d p csl ht hm h = simp (ht, hm, h)

send-forward :
    (d' d : DownTrack) (p : ExtPacket) (csl new_sn new_ts : ℕ) (r : Rewritten) (m : PacketMeta)
    → d'.payload_type ≡ d.payload_type
    → d'.ssrc ≡ d.ssrc
    → m.target_seq_no ≡ new_sn
    → m.timestamp ≡ new_ts
    → (send_simulcast d' p csl new_sn new_ts r).0 ≡ forward (sent_again d m r.buf)
unfolding send_simulcast sent_again
send-forward d' d p csl new_sn new_ts r m ht hs hn hm = simp (ht, hs, hn, hm)

-- What the sequencer returns for a packet that was just sent is what was noted, marked with the time.
nacked_head :
    (t : ℕ) (n : Sequencer) (at sn : ℕ) (m : PacketMeta)
    → HasHead n at sn m
    → m.last_nack ≡ 0
    → (get_seq_no_pairs t n (sn ∷ [])).0 ≡ marked t m ∷ []
nacked_head t n at sn m h never =
    let may : may_resend t m ≡ true = rw never refl in
    rw (lookup_one t n sn, resend_one-head t n at sn m h, may) refl

-- A frame in order of a VP8 track with temporal layers and a sequencer, which is not dropped and fits a
-- slice of 1460 bytes: its descriptor is rewritten without a panic; behind the call that forwards it, a NACK for the number under which it was sent gets one entry from the
-- sequencer, with the number and the layer of the source's packet; and what is sent again from this
-- entry and the source's payload is the packet that was forwarded: type, timestamp, number, SSRC and
-- payload.
pub sent_again-forward :
    (d : DownTrack) (p : ExtPacket) (v : Vp8) (csl t : ℕ) (n : Sequencer)
    → d.simulcast.temporal_supported ≡ true
    → d.is_vp8_mime ≡ true
    → p.vp8 ≡ some v
    → unmarshal zero_vp8 (some p.payload) ≡ (none, v)
    → drops d v ≡ false
    → length p.payload ≤ 1460
    → p.head ≡ true
    → d.sequencer ≡ some n
    → IsValid n
    → 2 ≤ n.max
    → let (out, e) = forward_simulcast d p csl in
      (n' : Sequencer) × (m : PacketMeta) × (buf : List ℕ) × (e.sequencer ≡ some n')
      × ((get_seq_no_pairs t n' (sub16 p.sequence_number d.sn_offset ∷ [])).0 ≡ m ∷ [])
      × (rewrite_panics p v ≡ false)
      × (m.source_seq_no ≡ p.sequence_number)
      × (m.layer ≡ csl % 256)
      × (payload_again e m p.payload ≡ some buf)
      × (out ≡ forward (sent_again e m buf))
unfolding set_vp8_payload_meta get_vp8_payload_meta
sent_again-forward d p v csl t n ht hm hv hu hd hl hh hn valid two =
    let x = set_vp8_temporal_layer p d in
    let r = set_vp8-IsRewritten p d v hv hd in
    let new_sn = sub16 p.sequence_number d.sn_offset in
    let new_ts = sub32 p.timestamp d.ts_offset in
    let plain = new_meta p.sequence_number new_sn new_ts (csl % 256) in
    let noted = set_vp8_payload_meta plain x.0.tlz_idx x.0.pic_id in
    let (n', e, h, k) =
      send-HasHead x.1 p csl new_sn new_ts x.0 n (r.sequencer ∙ hn) (r.kind.supported ∙ ht)
        (r.kind.is_vp8 ∙ hm) hh valid two (omega arith) in
    let fields =
      vp8_payload_meta_lem (marked t plain) x.0.tlz_idx x.0.pic_id
        (rw r.tlz_idx (tlz_bound d.simulcast v)) (rw r.pic_id (pic_id_bound d.simulcast v)) in
    let inside : InRange p.payload v =
      subst (ParsedInRange p.payload) hu (unmarshal-InRange p.payload) in
    let sent = forward_kept d p csl ht hm r.drop in
    let m = marked t noted in
    let e' = (send_simulcast x.1 p csl new_sn new_ts x.0).1 in
    rw sent (
      n',
      m,
      x.0.buf,
      e,
      nacked_head t n' (written n new_sn) new_sn noted h refl,
      rewrites p v hl inside,
      refl,
      refl,
      vp8_again e' m p.payload v x.0.tlz_idx x.0.pic_id (k.supported ∙ r.kind.supported ∙ ht)
            (k.is_vp8 ∙ r.kind.is_vp8 ∙ hm) hu fields
          ∙ rw (r.buf, r.pic_id, r.tlz_idx) refl,
      send-forward x.1 e' p csl new_sn new_ts x.0 m (sym k.payload_type) (sym k.ssrc) refl refl,
    )
