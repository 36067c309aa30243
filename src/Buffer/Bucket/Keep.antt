-- ===== src/Buffer/Bucket/Keep.antt =====
-- Packets that stay in the bucket while others arrive.
use ion_sfu.Prelude.{
  ℕ, suc, ◌+◌, ◌-◌, ◌*◌, ◌≤◌, ◌<◌, ◌≡◌, ◌≢◌, refl, ◌∙◌, ap, true, List, [], ◌∷◌, arith, ltb, ◌==◌,
  if◌then◌else◌, length, inl, inr, Bool-cases, ok, some, add16, sub16,
}
use ion_sfu.Prelude.Bytes.{read16}
use ion_sfu.Buffer.Bucket.{
  Bucket, Reply, write_slot, set, skip, started, add_latest, add_packet, get,
}
use ion_sfu.Buffer.Bucket.Slots.{Carries, Holds-frame}
use ion_sfu.Buffer.Bucket.Valid.{IsValid, back_pos, started-IsValid}
use ion_sfu.Buffer.Bucket.Lookup.{
  Stored, get-Stored, next_step, pushed, moved, moved-IsValid, pushed-IsValid, add_latest_fits,
  pushed-Stored, slot_of, late_outcome, late-IsValid,
}

-- The slots of the last `max_steps + 1` numbers differ.
back_pos-ne :
    (max_steps step d e : ℕ)
    → step ≤ max_steps
    → d ≤ max_steps
    → e ≤ max_steps
    → d ≢ e
    → back_pos max_steps step d ≢ back_pos max_steps step e
back_pos-ne max_steps step d e s hd he ne = ground arith

-- One step of the ring moves every slot one place back.
back_pos-next :
    (max_steps step d : ℕ)
    → step ≤ max_steps
    → d < max_steps
    → back_pos max_steps (next_step max_steps step) (suc d) ≡ back_pos max_steps step d
back_pos-next max_steps step d s h = ground arith

back_pos-ne-step :
    (max_steps step d : ℕ) → step ≤ max_steps → d < max_steps → back_pos max_steps step d ≢ step
back_pos-ne-step max_steps step d s h = ground arith

-- The bucket after the next number in order.
abbrev advanced : Bucket → List ℕ → Bucket
advanced b pkt = record b {
  buf = write_slot b.buf (b.step * 1500) pkt;
  step = next_step b.max_steps b.step;
  head_sn = add16 b.head_sn 1;
}

next-advanced :
    (b : Bucket) (pkt : List ℕ)
    → b.head_sn < 65536
    → pushed (moved b (add16 b.head_sn 1)) pkt ≡ advanced b pkt
unfolding skip
next-advanced b pkt h =
    let one : sub16 (add16 b.head_sn 1) b.head_sn - 1 ≡ 0 = omega arith in rw one refl

advanced-IsValid : (b : Bucket) (pkt : List ℕ) → IsValid b → IsValid (advanced b pkt)
advanced-IsValid b pkt v = record {
  room = v.room;
  step_in = ground arith;
  head_in = omega arith;
  few = v.few;
}

advanced-Stored :
    (b : Bucket) (sn : ℕ) (p pkt : List ℕ)
    → IsValid b
    → sn < 65536
    → length pkt ≤ 1498
    → sub16 b.head_sn sn < b.max_steps
    → Stored b sn p
    → Stored (advanced b pkt) sn p
advanced-Stored b sn p pkt v lt fit h s =
    let d = sub16 b.head_sn sn in
    let far : sub16 (add16 b.head_sn 1) sn ≡ suc d = omega arith in
    record {
      near = rw far h;
      held =
          rw (far, back_pos-next b.max_steps b.step d v.step_in h)
            (Holds-frame b.buf _ b.step sn pkt p (back_pos-ne-step b.max_steps b.step d v.step_in h)
              s.header s.fits fit s.held);
      header = s.header;
      fits = s.fits;
    }

-- In a valid bucket, a late packet of at most 1498 bytes with its number in its header, accepted or
-- refused, leaves every other stored packet in its place. (A longer one runs over the two bytes of the next slot's size, in the code too.)
pub late_keeps :
    (b : Bucket) (sn other : ℕ) (pkt p : List ℕ)
    → IsValid b
    → sn < 65536
    → other < 65536
    → sn ≢ other
    → Carries sn pkt
    → Stored b other p
    → get (set b sn pkt).1 other ≡ ok (some p)
late_keeps b sn other pkt p v h h' ne c s =
    rw (late_outcome b sn pkt v c) (elim (Bool-cases (ltb b.max_steps (sub16 b.head_sn sn))) [
      | inl old ↦ rw old (get-Stored b other p v s)
      | inr near ↦ rw near (elim (Bool-cases (read16 b.buf (slot_of b sn * 1500 + 4) == sn)) [
        | inl dup ↦ rw dup (get-Stored b other p v s)
        | inr new ↦
            let d = sub16 b.head_sn sn in
            let e = sub16 b.head_sn other in
            let apart : e ≢ d = λ q. ne (omega arith) in
            rw new (
              get-Stored _ other p (late-IsValid b _ v) (record {
                near = s.near;
                held =
                    Holds-frame b.buf _ (slot_of b sn) other pkt p
                      (back_pos-ne b.max_steps b.step e d v.step_in s.near (ground arith) apart)
                      s.header s.fits c.fits s.held;
                header = s.header;
                fits = s.fits;
              }))
      ])
    ])

-- Packets that arrive in order, each with the number after the head's.
unfoldable pub add_run : Bucket → List (List ℕ) → Bucket
add_run b [] = b
add_run b (p ∷ ps) = add_run (add_packet b p (add16 b.head_sn 1) true).1 ps

abbrev pub InOrder : ℕ → List (List ℕ) → Type 0
InOrder sn [] = Unit
InOrder sn (p ∷ ps) = Carries (add16 sn 1) p × InOrder (add16 sn 1) ps

add_next :
    (b : Bucket) (p : List ℕ)
    → IsValid b
    → b.init ≡ true
    → Carries (add16 b.head_sn 1) p
    → (add_packet b p (add16 b.head_sn 1) true).1 ≡ advanced b p
unfolding add_packet
add_next b p v i c =
    let sn = add16 b.head_sn 1 in
    ap (λ t. (add_latest (if t then b else record b { head_sn = sub16 sn 1; init = true }) p sn).1)
      i
    ∙ (ap (λ (r : Reply). r.1) (add_latest_fits b sn p v (omega arith) c)
        ∙ next-advanced b p v.head_in)

run_keeps :
    (b : Bucket) (sn : ℕ) (p : List ℕ) (ps : List (List ℕ))
    → IsValid b
    → b.init ≡ true
    → sn < 65536
    → Stored b sn p
    → InOrder b.head_sn ps
    → sub16 b.head_sn sn + length ps ≤ b.max_steps
    → get (add_run b ps) sn ≡ ok (some p)
unfolding add_run
run_keeps b sn p [] v i lt s o h = get-Stored b sn p v s
run_keeps b sn p (q ∷ ps) v i lt s o h = rw (add_next b q v i o.0) (
    run_keeps (advanced b q) sn p ps (advanced-IsValid b q v) i lt
      (advanced-Stored b sn p q v lt o.0.fits (omega arith) s) o.1 (omega arith))

-- In a valid bucket, a packet of at most 1498 bytes with its number in its header stays available while
-- up to `max_steps` such packets follow it in order.
pub get-add_run :
    (b : Bucket) (sn : ℕ) (p : List ℕ) (ps : List (List ℕ))
    → IsValid b
    → sn < 65536
    → Carries sn p
    → InOrder sn ps
    → length ps ≤ b.max_steps
    → get (add_run (add_packet b p sn true).1 ps) sn ≡ ok (some p)
unfolding add_packet
get-add_run b sn p ps v lt c o h =
    let w = started b sn in
    let vw = started-IsValid b sn v in
    let m = moved-IsValid w sn vw lt in
    let on : w.init ≡ true = ground arith in
    let h' : length ps ≤ w.max_steps = ground arith in
    rw (add_latest_fits w sn p vw lt c) (
      run_keeps (pushed (moved w sn) p) sn p ps (pushed-IsValid (moved w sn) p m) on lt
        (pushed-Stored (moved w sn) sn p m refl c) o
        (let none_between : sub16 sn sn ≡ 0 = omega arith in rw none_between (omega (arith, h'))))
