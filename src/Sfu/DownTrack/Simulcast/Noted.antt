-- ===== src/Sfu/DownTrack/Simulcast/Noted.antt =====
-- pkg/sfu/downtrack.go: what the sequencer notes of a packet that writeSimulcastRTP sends.
use ion_sfu.Prelude.{ℕ, ◌%◌, ◌≤◌, ◌<◌, ◌≡◌, refl, true, some, set}
use ion_sfu.Sfu.Sequencer.{Sequencer, new_meta, push, set_vp8_payload_meta}
use ion_sfu.Sfu.Sequencer.Lookup.{
  IsValid, HasHead, written, pushed_at, pushed-HasHead, replaced-HasHead,
}
use ion_sfu.Sfu.Sequencer.Late.{number_of}
use ion_sfu.Sfu.DownTrack.{DownTrack, ExtPacket, push_meta, update_stats}
use ion_sfu.Sfu.DownTrack.Simulcast.{Rewritten, mark_payload_meta, send_simulcast}

-- Two states of a track that agree in what a packet that is sent again is made of.
pub record IsSameKind (d e : DownTrack) : Type 0 where
  pub payload_type : e.payload_type ≡ d.payload_type
  pub ssrc : e.ssrc ≡ d.ssrc
  pub is_vp8 : e.is_vp8_mime ≡ d.is_vp8_mime
  pub supported : e.simulcast.temporal_supported ≡ d.simulcast.temporal_supported

-- A push in order, and the VP8 fields written through its pointer.
mark-HasHead :
    (n : Sequencer) (sn off_sn timestamp layer tlz_idx pic_id : ℕ)
    → IsValid n
    → 2 ≤ n.max
    → off_sn < 65536
    → let (i, o) = push_meta (some n) sn off_sn timestamp layer true in
      (n' : Sequencer) × (mark_payload_meta i tlz_idx pic_id o ≡ some n')
      × HasHead n'
          (written n off_sn)
          off_sn
          (set_vp8_payload_meta (new_meta sn off_sn timestamp layer) tlz_idx pic_id)
unfolding push_meta mark_payload_meta
mark-HasHead n sn off_sn timestamp layer tlz_idx pic_id v two b =
    let pushed = (push n sn off_sn timestamp layer true).1 in
    let at = written n off_sn in
    let m = new_meta sn off_sn timestamp layer in
    let h = pushed-HasHead n sn off_sn timestamp layer v two b in
    let m' = set_vp8_payload_meta m tlz_idx pic_id in
    (
      record pushed { seq = set pushed.seq at m' },
      rw (pushed_at n sn off_sn timestamp layer, h.entry) refl,
      replaced-HasHead pushed at off_sn m m' h (number_of m tlz_idx pic_id),
    )

-- The packet that a VP8 track with temporal layers sends in order is the head of its sequencer, with
-- its picture id and its TL0PICIDX.
pub send-HasHead :
    (d : DownTrack) (p : ExtPacket) (csl new_sn new_ts : ℕ) (r : Rewritten) (n : Sequencer)
    → d.sequencer ≡ some n
    → d.simulcast.temporal_supported ≡ true
    → d.is_vp8_mime ≡ true
    → p.head ≡ true
    → IsValid n
    → 2 ≤ n.max
    → new_sn < 65536
    → let e = (send_simulcast d p csl new_sn new_ts r).1 in
      (n' : Sequencer) × (e.sequencer ≡ some n')
      × HasHead n' (written n new_sn) new_sn (
          set_vp8_payload_meta
            (new_meta p.sequence_number new_sn new_ts (csl % 256))
            r.tlz_idx
            r.pic_id)
      × IsSameKind d e
unfolding send_simulcast update_stats
send-HasHead d p csl new_sn new_ts r n hn ht hm hp v two b =
    let (n', e, h) =
      mark-HasHead n p.sequence_number new_sn new_ts (csl % 256) r.tlz_idx r.pic_id v two b in
    (
      n',
      rw (hn, hp, ht, hm) e,
      h,
      record {
        payload_type = rw hp refl;
        ssrc = rw hp refl;
        is_vp8 = rw hp refl;
        supported = rw hp refl;
      },
    )
