-- ===== src/Buffer/Bucket/Lookup.antt =====
-- What was stored is found: `AddPacket` followed by `get`, and what later packets overwrite.
use ion_sfu.Prelude.{
  ℕ, ◌+◌, ◌-◌, ◌*◌, ◌≤◌, ◌<◌, ◌≡◌, refl, Bool, true, false, List, arith, ltb, leb, ◌==◌,
  if◌then◌else◌, length, inl, inr, Bool-cases, ok, err, panic, some, sub16, low16, le→leb, ge→ltb,
}
use ion_sfu.Prelude.Bytes.{Bytes, read16}
use ion_sfu.Buffer.Bucket.{
  Bucket, Reply, packet_too_old, rtx_packet, write_slot, push, write_late, set, skip, started,
  add_latest, add_packet, read_slot, get,
}
use ion_sfu.Buffer.Bucket.Slots.{Carries, Holds, write_slot-Holds}
use ion_sfu.Buffer.Bucket.Valid.{
  IsValid, back_pos, slot_pos_within, back_pos-le, skip-le, started-IsValid,
}

-- The bucket holds the packet where it looks for its number.
pub record Stored (b : Bucket) (sn : ℕ) (pkt : List ℕ) : Type 0 where
  pub near : sub16 b.head_sn sn ≤ b.max_steps
  pub held : Holds b.buf (back_pos b.max_steps b.step (sub16 b.head_sn sn)) sn pkt
  pub header : 4 ≤ length pkt
  pub fits : length pkt ≤ 1498

read_slot-Holds :
    (b : Bucket) (pos sn : ℕ) (pkt : List ℕ)
    → IsValid b
    → pos ≤ b.max_steps
    → length pkt ≤ 1498
    → Holds b.buf pos sn pkt
    → read_slot b pos sn ≡ ok (some pkt)
unfolding read_slot
read_slot-Holds b pos sn pkt v le fit h =
    let found : (read16 b.buf (pos * 1500 + 4) == sn) ≡ true = rw h.number (ground arith) in
    rw
      (
        ge→ltb b.size (pos * 1500) (omega arith),
        ge→ltb b.size (pos * 1500 + 6) (omega arith),
        found,
      )
      (rw h.size (rw (ge→ltb b.size (pos * 1500 + 2 + length pkt) (omega arith), h.bytes) refl))

pub get-Stored :
    (b : Bucket) (sn : ℕ) (pkt : List ℕ) → IsValid b → Stored b sn pkt → get b sn ≡ ok (some pkt)
unfolding get
get-Stored b sn pkt v s =
    rw (slot_pos_within b sn v s.near, get)
      (read_slot-Holds b _ sn pkt v (back_pos-le b.max_steps b.step _ v.step_in s.near) s.fits
        s.held)

-- The slot after `step`.
abbrev pub next_step : ℕ → ℕ → ℕ
next_step max_steps step = if ltb max_steps (step + 1) then 0 else step + 1

-- The bucket after a push.
abbrev pub pushed : Bucket → List ℕ → Bucket
pushed b pkt = record b {
  buf = write_slot b.buf (b.step * 1500) pkt;
  step = next_step b.max_steps b.step;
}

push_fits :
    (b : Bucket) (sn : ℕ) (pkt : List ℕ)
    → IsValid b
    → Carries sn pkt
    → push b pkt ≡ (ok pkt, pushed b pkt)
unfolding push
push_fits b sn pkt v c =
    rw
      (
        le→leb (b.step * 1500 + 2 + length pkt) b.size (omega arith),
        (write_slot-Holds b.buf b.step sn pkt c).bytes,
      )
      refl

-- The position that the skipped numbers lead to.
abbrev pub landing : Bucket → ℕ → ℕ
landing b sn = skip (sub16 sn b.head_sn - 1) b.max_steps b.step

abbrev pub moved : Bucket → ℕ → Bucket
moved b sn = record b { head_sn = sn; step = landing b sn }

pub moved-IsValid : (b : Bucket) (sn : ℕ) → IsValid b → sn < 65536 → IsValid (moved b sn)
moved-IsValid b sn v h = record {
  room = v.room;
  step_in = skip-le (sub16 sn b.head_sn - 1) b.max_steps b.step v.step_in;
  head_in = h;
  few = v.few;
}

pub add_latest_fits :
    (b : Bucket) (sn : ℕ) (pkt : List ℕ)
    → IsValid b
    → sn < 65536
    → Carries sn pkt
    → add_latest b pkt sn ≡ (ok pkt, pushed (moved b sn) pkt)
unfolding add_latest
add_latest_fits b sn pkt v h c = push_fits (moved b sn) sn pkt (moved-IsValid b sn v h) c

pub pushed-Stored :
    (b : Bucket) (sn : ℕ) (pkt : List ℕ)
    → IsValid b
    → b.head_sn ≡ sn
    → Carries sn pkt
    → Stored (pushed b pkt) sn pkt
pushed-Stored b sn pkt v e c =
    let d : sub16 b.head_sn sn ≡ 0 = rw e (omega arith) in
    let here : back_pos b.max_steps (next_step b.max_steps b.step) 0 ≡ b.step = ground arith in
    record {
      near = omega arith;
      held = rw (d, here) (write_slot-Holds b.buf b.step sn pkt c);
      header = c.header;
      fits = c.fits;
    }

-- The slot of a number that is at most `max_steps` behind the head.
abbrev pub slot_of : Bucket → ℕ → ℕ
slot_of b sn = back_pos b.max_steps b.step (sub16 b.head_sn sn)

-- A packet that is not the latest is refused as too old when it is more than `max_steps` behind the
-- head, as a retransmission when its slot shows its number already, and else written to its slot.
pub late_outcome :
    (b : Bucket) (sn : ℕ) (pkt : List ℕ)
    → IsValid b
    → Carries sn pkt
    → set b sn pkt ≡ (
        if ltb b.max_steps (sub16 b.head_sn sn)
        then (err packet_too_old, b)
        else if read16 b.buf (slot_of b sn * 1500 + 4) == sn
        then (err rtx_packet, b)
        else (ok pkt, record b { buf = write_slot b.buf (slot_of b sn * 1500) pkt }))
unfolding set write_late
late_outcome b sn pkt v c = elim (Bool-cases (ltb b.max_steps (sub16 b.head_sn sn))) [
  | inl old ↦
      let refused : leb (low16 (b.max_steps + 1)) (sub16 b.head_sn sn) ≡ true = ground arith in
      rw (old, refused) refl
  | inr near ↦
      let p = slot_of b sn in
      let close : sub16 b.head_sn sn ≤ b.max_steps = ground arith in
      let le : p ≤ b.max_steps = back_pos-le b.max_steps b.step _ v.step_in close in
      let kept : leb (low16 (b.max_steps + 1)) (sub16 b.head_sn sn) ≡ false = ground arith in
      rw (near, kept, slot_pos_within b sn v close)
        (rw
          (
            ge→ltb b.size (p * 1500) (omega arith),
            ge→ltb b.size (p * 1500 + 6) (omega arith),
            le→leb (p * 1500 + 2 + length pkt) b.size (omega arith),
            (write_slot-Holds b.buf p sn pkt c).bytes,
          )
          refl)
]

-- What a call that accepted the packet returned satisfies `P`; no call panicked.
abbrev pub Accepted : Reply → (List ℕ → Bucket → Type 0) → Type 0
Accepted (ok p, b) P = P p b
Accepted (err e, b) P = Unit
Accepted (panic, b) P = ⊥

late-Stored :
    (b : Bucket) (sn : ℕ) (pkt : List ℕ)
    → sub16 b.head_sn sn ≤ b.max_steps
    → Carries sn pkt
    → Stored (record b { buf = write_slot b.buf (slot_of b sn * 1500) pkt }) sn pkt
late-Stored b sn pkt h c = record {
  near = h;
  held = write_slot-Holds b.buf (slot_of b sn) sn pkt c;
  header = c.header;
  fits = c.fits;
}

pub late-IsValid : (b : Bucket) (m : Bytes) → IsValid b → IsValid (record b { buf = m })
late-IsValid b m v = record { room = v.room; step_in = v.step_in; head_in = v.head_in; few = v.few }

pub pushed-IsValid : (b : Bucket) (pkt : List ℕ) → IsValid b → IsValid (pushed b pkt)
pushed-IsValid b pkt v = record {
  room = v.room;
  step_in = ground arith;
  head_in = v.head_in;
  few = v.few;
}

late_get :
    (b : Bucket) (sn : ℕ) (pkt : List ℕ)
    → IsValid b
    → Carries sn pkt
    → Accepted (set b sn pkt) (λ p b'. (p ≡ pkt) × (get b' sn ≡ ok (some pkt)))
late_get b sn pkt v c =
    rw (late_outcome b sn pkt v c) (elim (Bool-cases (ltb b.max_steps (sub16 b.head_sn sn))) [
      | inl old ↦ rw old tt
      | inr near ↦ rw near (elim (Bool-cases (read16 b.buf (slot_of b sn * 1500 + 4) == sn)) [
        | inl dup ↦ rw dup tt
        | inr new ↦
            rw new (
              refl,
              get-Stored _ sn pkt (late-IsValid b _ v) (late-Stored b sn pkt (ground arith) c),
            )
      ])
    ])

-- A packet that the bucket accepts is returned as it was, and found under its number.
pub get-add_packet :
    (b : Bucket) (sn : ℕ) (pkt : List ℕ) (latest : Bool)
    → IsValid b
    → sn < 65536
    → Carries sn pkt
    → Accepted (add_packet b pkt sn latest) (λ p b'. (p ≡ pkt) × (get b' sn ≡ ok (some pkt)))
unfolding add_packet
get-add_packet b sn pkt true v h c =
    let w = started-IsValid b sn v in
    let m = moved-IsValid (started b sn) sn w h in
    rw (add_latest_fits (started b sn) sn pkt w h c) (
      refl,
      get-Stored _ sn pkt (pushed-IsValid _ pkt m)
          (pushed-Stored (moved (started b sn) sn) sn pkt m refl c),
    )
get-add_packet b sn pkt false v h c = late_get (started b sn) sn pkt (started-IsValid b sn v) c
