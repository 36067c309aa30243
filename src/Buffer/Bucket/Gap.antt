-- ===== src/Buffer/Bucket/Gap.antt =====
-- A gap in the numbers that crosses the end of the ring. `push` wraps after slot `max_steps`, the
-- loop of `AddPacket` before it, so that the ring of the loop has one slot less.
use ion_sfu.Prelude.{
  ℕ, zero, suc, ◌+◌, ◌-◌, ◌*◌, ◌≤◌, ◌<◌, ◌≡◌, ◌≢◌, refl, ◌∙◌, false, List, arith, leb, ◌==◌,
  if◌then◌else◌, inl, inr, Bool-cases, ok, none, some, sub16, length, ge→ltb,
}
use ion_sfu.Prelude.Bytes.{read16}
use ion_sfu.Buffer.Bucket.{Bucket, skip, add_latest, read_slot, get, write_slot}
use ion_sfu.Buffer.Bucket.Slots.{Carries, write_slot_above}
use ion_sfu.Buffer.Bucket.Valid.{IsValid, back_pos, slot_pos_within}
use ion_sfu.Buffer.Bucket.Lookup.{
  pushed, moved, moved-IsValid, pushed-IsValid, add_latest_fits, landing, Stored, get-Stored,
}

skip_straight : (n max_steps step : ℕ) → step + n < max_steps → skip n max_steps step ≡ step + n
unfolding skip
skip_straight zero max_steps step h = omega arith
skip_straight (suc n) max_steps step h =
    let on : (if leb max_steps (step + 1) then 0 else step + 1) ≡ step + 1 = ground arith in
    rw on (skip_straight n max_steps (step + 1) (omega arith) ∙ omega arith)

skip_wrap :
    (n max_steps step : ℕ)
    → step ≤ max_steps
    → max_steps ≤ step + n
    → 0 < n
    → step + n < max_steps + max_steps
    → skip n max_steps step ≡ (if step == max_steps then n - 1 else step + n - max_steps)
unfolding skip
skip_wrap zero max_steps step s h p q = absurd (omega arith)
skip_wrap (suc n) max_steps step s h p q = elim (Bool-cases (leb max_steps (step + 1))) [
  | inl wrap ↦ rw wrap (skip_straight n max_steps 0 (ground arith) ∙ ground arith)
  | inr on ↦ rw on (
      skip_wrap n max_steps (step + 1) (ground arith) (omega arith) (ground arith) (omega arith)
      ∙ ground arith)
]

-- A write to an earlier slot does not reach the number of a later one.
number_kept :
    (b : Bucket) (pos other : ℕ) (pkt : List ℕ)
    → pos < other
    → length pkt ≤ 1498
    → read16 (write_slot b.buf (pos * 1500) pkt) (other * 1500 + 4)
      ≡ read16 b.buf (other * 1500 + 4)
number_kept b pos other pkt h fit =
    rw
      (
        write_slot_above b.buf (pos * 1500) pkt (other * 1500 + 4) (omega arith),
        write_slot_above b.buf (pos * 1500) pkt (other * 1500 + 4 + 1) (omega arith),
      )
      refl

read_slot-other :
    (b : Bucket) (pos sn : ℕ)
    → IsValid b
    → pos ≤ b.max_steps
    → read16 b.buf (pos * 1500 + 4) ≢ sn
    → read_slot b pos sn ≡ ok none
unfolding read_slot
read_slot-other b pos sn v le ne =
    let differs : (read16 b.buf (pos * 1500 + 4) == sn) ≡ false = ground arith in
    rw
      (
        ge→ltb b.size (pos * 1500) (omega arith),
        ge→ltb b.size (pos * 1500 + 6) (omega arith),
        differs,
      )
      refl

-- A latest packet whose gap to the head is shorter than the ring, and whose skipped numbers cross
-- the ring's end from a slot before the last: the packet that was at the head, found before, is
-- looked for one slot too far and not found (unless that slot happens to carry the head's number).
pub gap_loses_head :
    (b : Bucket) (sn : ℕ) (pkt p : List ℕ)
    → IsValid b
    → sn < 65536
    → Carries sn pkt
    → Stored b b.head_sn p
    → b.step < b.max_steps
    → sub16 sn b.head_sn ≤ b.max_steps
    → b.max_steps < b.step + sub16 sn b.head_sn
    → read16 b.buf (b.step * 1500 + 4) ≢ b.head_sn
    → (get b b.head_sn ≡ ok (some p)) × (get (add_latest b pkt sn).1 b.head_sn ≡ ok none)
unfolding get
gap_loses_head b sn pkt p v lt c s before short crosses ne =
    (get-Stored b b.head_sn p v s, rw (add_latest_fits b sn pkt v lt c) lost)
  where
    g : ℕ
    g = sub16 sn b.head_sn

    after : Bucket
    after = pushed (moved b sn) pkt

    lands : landing b sn ≡ b.step + (g - 1) - b.max_steps
    lands =
        skip_wrap (g - 1) b.max_steps b.step v.step_in (omega arith) (omega arith) (omega arith)
        ∙ ground arith

    after-IsValid : IsValid after
    after-IsValid = pushed-IsValid (moved b sn) pkt (moved-IsValid b sn v lt)

    looked_at : back_pos b.max_steps after.step g ≡ b.step
    looked_at = rw lands (ground arith)

    number : read16 after.buf (b.step * 1500 + 4) ≢ b.head_sn
    number = rw (number_kept b (landing b sn) b.step pkt (omega (arith, lands)) c.fits) ne

    lost : get after b.head_sn ≡ ok none
    lost =
        rw (slot_pos_within after b.head_sn after-IsValid short, get, looked_at)
          (read_slot-other after b.step b.head_sn after-IsValid v.step_in number)
