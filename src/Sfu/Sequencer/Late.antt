-- ===== src/Sfu/Sequencer/Late.antt =====
-- Packets that are sent out of order, and the VP8 fields of an entry.
use ion_sfu.Prelude.{
  ℕ, ◌+◌, ◌*◌, ◌%◌, ◌^◌, ◌<◌, ◌≡◌, ◌≢◌, refl, ◌∙◌, true, false, [], ◌∷◌, some, ◌==◌, get_or, set,
  sub16, arith, get_or-set,
}
use ion_sfu.Prelude.Bits.{bit_or-add}
use ion_sfu.Sfu.Sequencer.{
  PacketMeta, zero_meta, Sequencer, advance, store, new_meta, too_old, push, may_resend, resend_one,
  resend_at, get_seq_no_pairs, entry_of, set_vp8_payload_meta, get_vp8_payload_meta,
}
use ion_sfu.Sfu.Sequencer.Lookup.{HasHead, lookup_one, resend_one-head}

-- The VP8 fields leave the number and the timestamp as they are.
pub number_of :
    (p : PacketMeta) (tlz0_idx pic_id : ℕ)
    → (set_vp8_payload_meta p tlz0_idx pic_id).target_seq_no ≡ p.target_seq_no
unfolding set_vp8_payload_meta
number_of p tlz0_idx pic_id = refl

pub time_of :
    (p : PacketMeta) (tlz0_idx pic_id : ℕ)
    → (set_vp8_payload_meta p tlz0_idx pic_id).timestamp ≡ p.timestamp
unfolding set_vp8_payload_meta
time_of p tlz0_idx pic_id = refl

-- The VP8 fields that are packed into `misc` come back.
pub vp8_payload_meta_lem :
    (p : PacketMeta) (tlz0_idx pic_id : ℕ)
    → tlz0_idx < 256
    → pic_id < 65536
    → get_vp8_payload_meta (set_vp8_payload_meta p tlz0_idx pic_id) ≡ (tlz0_idx, pic_id)
unfolding get_vp8_payload_meta set_vp8_payload_meta
vp8_payload_meta_lem p tlz0_idx pic_id h k =
    let fits : tlz0_idx * 2 ^ 16 % 2 ^ 32 ≡ tlz0_idx * 2 ^ 16 = omega arith in
    rw (fits, bit_or-add 16 tlz0_idx pic_id k) (ground arith)

pushed_late :
    (n : Sequencer) (sn off_sn timestamp layer : ℕ)
    → n.init ≡ true
    → too_old n off_sn ≡ false
    → (push n sn off_sn timestamp layer false).1 ≡ record n {
      seq = set n.seq n.step (new_meta sn off_sn timestamp layer);
      step = advance n.max n.step;
    }
unfolding push store
pushed_late n sn off_sn timestamp layer on recent = simp (on, recent)

-- A late packet that is accepted takes the entry after the head's and moves `step` on, so that a
-- NACK for the head, answered before, looks at the late packet's entry and is not answered.
pub late_push_hides_head :
    (n : Sequencer) (at head sn off_sn timestamp layer t : ℕ) (m : PacketMeta)
    → HasHead n at head m
    → n.init ≡ true
    → off_sn ≢ head
    → too_old n off_sn ≡ false
    → may_resend t m ≡ true
    → ((get_seq_no_pairs t n (head ∷ [])).0 ≡ record m { last_nack = t } ∷ [])
      × ((get_seq_no_pairs t (push n sn off_sn timestamp layer false).1 (head ∷ [])).0 ≡ [])
unfolding entry_of resend_one resend_at
late_push_hides_head n at head sn off_sn timestamp layer t m h on ne recent may = (before, after)
  where
    late : PacketMeta
    late = new_meta sn off_sn timestamp layer

    stored : Sequencer
    stored = record n { seq = set n.seq n.step late; step = advance n.max n.step }

    at-step : entry_of stored head ≡ some n.step
    at-step =
        let v = h.valid in
        let one : sub16 n.head_sn head + 1 ≡ 1 = omega (arith, h.head, v.head_in) in
        let s = v.step_in in let k = h.two in rw (entry_of, one) (ground arith)

    entry : get_or stored.seq n.step zero_meta ≡ late
    entry =
        let same : (n.step == n.step) ≡ true = ground arith in
        get_or-set n.seq n.step n.step late zero_meta (omega (arith, h.valid.full, h.valid.step_in))
        ∙ rw same refl

    hidden : resend_one t stored head ≡ ([], stored)
    hidden =
        let other : (off_sn == head) ≡ false = ground arith in
        rw (at-step, resend_one, resend_at, entry, other) refl

    before : (get_seq_no_pairs t n (head ∷ [])).0 ≡ record m { last_nack = t } ∷ []
    before = rw (lookup_one t n head, resend_one-head t n at head m h, may) refl

    after : (get_seq_no_pairs t (push n sn off_sn timestamp layer false).1 (head ∷ [])).0 ≡ []
    after =
        rw (pushed_late n sn off_sn timestamp layer on recent, lookup_one t stored head, hidden)
          refl
