-- ===== src/Buffer/Bucket/Valid.antt =====
-- The bucket's invariant; no packet that fits a slot makes `AddPacket` panic.
use ion_sfu.Prelude.{
  ℕ, zero, suc, ◌+◌, ◌-◌, ◌*◌, ◌≤◌, ◌<◌, ◌≡◌, Bool, true, false, List, arith, ltb, leb, ◌==◌,
  if◌then◌else◌, length, inl, inr, Bool-cases, Outcome, ok, err, panic, some, sub16, low16, le→leb,
  ge→ltb,
}
use ion_sfu.Prelude.Bytes.{Bytes, read16}
use ion_sfu.Buffer.Bucket.{
  Bucket, new_bucket, push, slot_pos, write_late, set, skip, started, add_latest, add_packet,
  steps_back,
}

pub record IsValid (b : Bucket) : Type 0 where
  pub room : (b.max_steps + 1) * 1500 ≤ b.size
  pub step_in : b.step ≤ b.max_steps
  pub head_in : b.head_sn < 65536
  pub few : b.max_steps + 1 < 65536

pub new_bucket-IsValid :
    (buf : Bytes) (size : ℕ) {b : Bucket}
    → size < 65536 * 1500
    → new_bucket buf size ≡ some b
    → IsValid b
unfolding new_bucket
new_bucket-IsValid buf size h e = grind arith

-- The slot `d + 1` places before `step` on the ring of `max_steps + 1` slots.
abbrev pub back_pos : ℕ → ℕ → ℕ → ℕ
back_pos max_steps step d =
    if ltb step (d + 1) then max_steps + 1 - (d + 1 - step) else step - (d + 1)

pub slot_pos_within :
    (b : Bucket) (sn : ℕ)
    → IsValid b
    → sub16 b.head_sn sn ≤ b.max_steps
    → slot_pos b sn ≡ some (back_pos b.max_steps b.step (sub16 b.head_sn sn))
unfolding slot_pos
slot_pos_within b sn v h =
    let back : steps_back b sn ≡ sub16 b.head_sn sn + 1 = omega arith in rw back (ground arith)

pub back_pos-le :
    (max_steps step d : ℕ)
    → step ≤ max_steps
    → d ≤ max_steps
    → back_pos max_steps step d ≤ max_steps
back_pos-le max_steps step d h k = ground arith

pub skip-le : (n max_steps step : ℕ) → step ≤ max_steps → skip n max_steps step ≤ max_steps
unfolding skip
skip-le zero max_steps step h = h
skip-le (suc n) max_steps step h = skip-le n max_steps _ (ground arith)

pub started-IsValid : (b : Bucket) (sn : ℕ) → IsValid b → IsValid (started b sn)
started-IsValid b sn v = ground arith

-- The call returned, with a value or an error.
abbrev pub Returned {ℓ κ} : {E : Type κ} {A : Type ℓ} → Outcome E A → Type 0
Returned (ok a) = Unit
Returned (err e) = Unit
Returned panic = ⊥

push-IsValid :
    (b : Bucket) (pkt : List ℕ)
    → IsValid b
    → length pkt ≤ 1498
    → Returned (push b pkt).0 × IsValid (push b pkt).1
unfolding push
push-IsValid b pkt v h =
    rw (le→leb (b.step * 1500 + 2 + length pkt) b.size (omega arith))
      (tt, record { room = v.room; step_in = ground arith; head_in = v.head_in; few = v.few })

-- At a slot of the ring `set` neither runs out of the slice nor breaks the invariant.
write_late-IsValid :
    (b : Bucket) (pos sn : ℕ) (pkt : List ℕ)
    → IsValid b
    → length pkt ≤ 1498
    → pos ≤ b.max_steps
    → Returned (write_late b pos sn pkt).0 × IsValid (write_late b pos sn pkt).1
unfolding write_late
write_late-IsValid b pos sn pkt v h le =
    rw (ge→ltb b.size (pos * 1500) (omega arith), ge→ltb b.size (pos * 1500 + 6) (omega arith))
      (elim (Bool-cases (read16 b.buf (pos * 1500 + 4) == sn)) [
        | inl e ↦ rw e (tt, v)
        | inr e ↦
            rw (e, le→leb (pos * 1500 + 2 + length pkt) b.size (omega arith))
              (tt, record { room = v.room; step_in = v.step_in; head_in = v.head_in; few = v.few })
      ])

set-IsValid :
    (b : Bucket) (sn : ℕ) (pkt : List ℕ)
    → IsValid b
    → length pkt ≤ 1498
    → Returned (set b sn pkt).0 × IsValid (set b sn pkt).1
unfolding set
set-IsValid b sn pkt v h = elim (Bool-cases (leb (low16 (b.max_steps + 1)) (sub16 b.head_sn sn))) [
  | inl e ↦ rw e (tt, v)
  | inr e ↦
      let near : sub16 b.head_sn sn ≤ b.max_steps = ground arith in
      rw (e, slot_pos_within b sn v near)
        (write_late-IsValid b _ sn pkt v h (back_pos-le b.max_steps b.step _ v.step_in near))
]

-- On a well-formed bucket `AddPacket` returns, with a packet or an error, and leaves the bucket well
-- formed, for every packet that fits a slot.
pub add_packet-IsValid :
    (b : Bucket) (sn : ℕ) (pkt : List ℕ) (latest : Bool)
    → IsValid b
    → sn < 65536
    → length pkt ≤ 1498
    → Returned (add_packet b pkt sn latest).0 × IsValid (add_packet b pkt sn latest).1
unfolding add_packet add_latest
add_packet-IsValid b sn pkt true v s h =
    let w = started-IsValid b sn v in
    push-IsValid _ pkt
      (record {
        room = w.room;
        step_in = skip-le _ (started b sn).max_steps (started b sn).step w.step_in;
        head_in = s;
        few = w.few;
      })
      h
add_packet-IsValid b sn pkt false v s h =
    set-IsValid (started b sn) sn pkt (started-IsValid b sn v) h
