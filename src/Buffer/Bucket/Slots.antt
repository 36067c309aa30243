-- ===== src/Buffer/Bucket/Slots.antt =====
-- What a slot of the bucket holds, and how a write to one slot leaves the others alone.
use mathlib.Core.Path.{ap₂}
use ion_sfu.Prelude.{
  ℕ, ◌+◌, ◌-◌, ◌*◌, ◌≤◌, ◌<◌, ◌≡◌, ◌≢◌, ◌∙◌, le→leb, lt→ltb, List, arith, ltb, length, get_or, be16,
  inl, inr, Bool-cases,
}
use ion_sfu.Prelude.Bytes.{Bytes, read16, slice, slice_of, slice_agree}
use ion_sfu.Buffer.Bucket.{write_slot}

-- A packet as the bucket expects it: at least the first four bytes of an RTP header, at most a slot
-- less the length field, and the sequence number in its bytes 2 and 3.
pub record Carries (sn : ℕ) (pkt : List ℕ) : Type 0 where
  pub header : 4 ≤ length pkt
  pub fits : length pkt ≤ 1498
  pub number : be16 (get_or pkt 2 0) (get_or pkt 3 0) ≡ sn

-- The slot at `pos` holds the packet.
pub record Holds (m : Bytes) (pos sn : ℕ) (pkt : List ℕ) : Type 0 where
  pub size : read16 m (pos * 1500) ≡ length pkt
  pub number : read16 m (pos * 1500 + 4) ≡ sn
  pub bytes : slice m (pos * 1500 + 2) (length pkt) ≡ pkt

module _ (m : Bytes) (off : ℕ) (pkt : List ℕ) where
  -- A byte of the packet in the slot.
  write_slot-at : (k : ℕ) → k < length pkt → write_slot m off pkt (off + 2 + k) ≡ get_or pkt k 0
  unfolding write_slot
  write_slot-at k h =
      let here : off + 2 + k - (off + 2) ≡ k = omega arith in
      rw (le→leb (off + 2) (off + 2 + k) (omega arith), here)
        (rw (lt→ltb (off + 2 + k) (off + 2 + length pkt) (omega arith)))

  write_slot_below : (j : ℕ) → j < off → write_slot m off pkt j ≡ m j
  unfolding write_slot
  write_slot_below j h = ground arith

  pub write_slot_above : (j : ℕ) → off + 2 + length pkt ≤ j → write_slot m off pkt j ≡ m j
  unfolding write_slot
  write_slot_above j h = ground arith

  write_slot-length : length pkt < 65536 → read16 (write_slot m off pkt) off ≡ length pkt
  unfolding write_slot
  write_slot-length h = ground arith

pub write_slot-Holds :
    (m : Bytes) (pos sn : ℕ) (pkt : List ℕ)
    → Carries sn pkt
    → Holds (write_slot m (pos * 1500) pkt) pos sn pkt
write_slot-Holds m pos sn pkt c = record {
  size = write_slot-length m off pkt (omega arith);
  number =
      rw (three, two)
        (ap₂ be16 (write_slot-at m off pkt 2 (omega arith))
          (write_slot-at m off pkt 3 (omega arith)))
      ∙ c.number;
  bytes = slice_of _ (off + 2) pkt (write_slot-at m off pkt);
}
  where
    off : ℕ
    off = pos * 1500

    two : off + 4 ≡ off + 2 + 2
    two = omega arith

    three : off + 4 + 1 ≡ off + 2 + 3
    three = omega arith

-- A write to one slot leaves what another slot holds.
pub Holds-frame :
    (m : Bytes) (pos other sn : ℕ) (pkt p : List ℕ)
    → pos ≢ other
    → 4 ≤ length p
    → length p ≤ 1498
    → length pkt ≤ 1498
    → Holds m pos sn p
    → Holds (write_slot m (other * 1500) pkt) pos sn p
Holds-frame m pos other sn pkt p ne lo fit fit' h = record {
  size =
      rw
        (
          same (pos * 1500) (omega arith) (omega arith),
          same (pos * 1500 + 1) (omega arith) (omega arith),
        )
        h.size;
  number =
      rw
        (
          same (pos * 1500 + 4) (omega arith) (omega arith),
          same (pos * 1500 + 4 + 1) (omega arith) (omega arith),
        )
        h.number;
  bytes =
      slice_agree _ m (pos * 1500 + 2) (length p) (λ j a b. same j (omega arith) (omega arith))
      ∙ h.bytes;
}
  where
    same :
        (j : ℕ) → pos * 1500 ≤ j → j < pos * 1500 + 1500 → write_slot m (other * 1500) pkt j ≡ m j
    same j a b = elim (Bool-cases (ltb pos other)) [
      | inl e ↦ write_slot_below m (other * 1500) pkt j (ground arith)
      | inr e ↦ write_slot_above m (other * 1500) pkt j (ground arith)
    ]
