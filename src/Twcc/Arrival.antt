-- ===== src/Twcc/Arrival.antt =====
-- How Push counts the 16-bit numbers of the packets on.
use ion_sfu.Prelude.{
  ℕ, ◌+◌, ◌*◌, ◌/◌, ◌%◌, ◌^◌, ◌≤◌, ◌<◌, ◌≡◌, refl, ap, ◌∙◌, true, false, ◌&&◌, List, [], ◌∷◌, ◌++◌,
  ltb, arith, bit_or, Bool-cases, inl, inr,
}
use ion_sfu.Prelude.Bits.{bit_or-add}
use ion_sfu.Twcc.{RtpExtInfo, Responder}
use ion_sfu.Twcc.Feedback.{note}

-- The extended number of the last packet.
abbrev pub unwrapped : Responder → ℕ
unwrapped t = t.cycles + t.last_sn

-- The counter holds `c` rounds of the 16-bit numbers, and has room for one more.
pub record IsCounting (c : ℕ) (t : Responder) : Type 0 where
  pub rounds : t.cycles ≡ c * 65536
  pub room : (c + 1) * 65536 < 2 ^ 32
  pub bound : t.last_sn < 65536

-- The entry of a packet.
abbrev pub entry : (ext time_ns : ℕ) → RtpExtInfo
entry ext time_ns = record { ext_tsn = ext; timestamp = time_ns / 1000 }

note-same :
    (c : ℕ) (t : Responder) (sn time_ns : ℕ)
    → IsCounting c t
    → sn < 65536
    → (ltb sn 4095 && ltb 61440 t.last_sn) ≡ false
    → ((note t sn time_ns).ext_info ≡ t.ext_info ++ (entry (t.cycles + sn) time_ns ∷ []))
      × ((note t sn time_ns).cycles ≡ t.cycles)
unfolding note
note-same c t sn time_ns i s e =
    let joined : bit_or t.cycles sn ≡ t.cycles + sn = rw i.rounds (bit_or-add 16 c sn s) in
    simp (e) (ap (λ (x : ℕ). t.ext_info ++ (entry x time_ns ∷ [])) joined, refl)

note-wrap :
    (c : ℕ) (t : Responder) (sn time_ns : ℕ)
    → IsCounting c t
    → sn < 65536
    → (ltb sn 4095 && ltb 61440 t.last_sn) ≡ true
    → ((note t sn time_ns).ext_info ≡ t.ext_info ++ (entry (t.cycles + 65536 + sn) time_ns ∷ []))
      × ((note t sn time_ns).cycles ≡ t.cycles + 65536)
unfolding note
note-wrap c t sn time_ns i s e =
    let next : (t.cycles + 65536) % 2 ^ 32 ≡ (c + 1) * 65536 = omega (arith, i.rounds, i.room) in
    let joined : bit_or ((t.cycles + 65536) % 2 ^ 32) sn ≡ t.cycles + 65536 + sn =
      rw next (bit_or-add 16 (c + 1) sn s ∙ omega (arith, i.rounds)) in
    simp (e)
      (ap (λ (x : ℕ). t.ext_info ++ (entry x time_ns ∷ [])) joined, omega (arith, next, i.rounds))

note-last_sn : (t : Responder) (sn time_ns : ℕ) → (note t sn time_ns).last_sn ≡ sn
unfolding note
note-last_sn t sn time_ns = refl

-- A packet that is at most 4095 numbers ahead of the last one is noted that many numbers further
-- on, also where the 16-bit number wraps around, and the counter keeps up with it.
pub note-unwrapped :
    (c : ℕ) (t : Responder) (d time_ns : ℕ)
    → IsCounting c t
    → 0 < d
    → d ≤ 4095
    → ((note t ((t.last_sn + d) % 65536) time_ns).ext_info
        ≡ t.ext_info ++ (entry (unwrapped t + d) time_ns ∷ []))
      × (unwrapped (note t ((t.last_sn + d) % 65536) time_ns) ≡ unwrapped t + d)
note-unwrapped c t d time_ns i p q =
    let sn = (t.last_sn + d) % 65536 in
    let last = note-last_sn t sn time_ns in
    elim (Bool-cases (ltb (t.last_sn + d) 65536)) [
      | inl e ↦
          let value : sn ≡ t.last_sn + d = ground arith in
          let stays : (ltb sn 4095 && ltb 61440 t.last_sn) ≡ false = ground arith in
          let (noted, cycles) = note-same c t sn time_ns i (omega arith) stays in
          let ext : t.cycles + sn ≡ unwrapped t + d = omega (arith, value) in
          (
            noted ∙ ap (λ (x : ℕ). t.ext_info ++ (entry x time_ns ∷ [])) ext,
            omega (arith, cycles, last, value),
          )
      | inr e ↦
          let value : sn + 65536 ≡ t.last_sn + d = ground (arith, i.bound) in
          let wraps : (ltb sn 4095 && ltb 61440 t.last_sn) ≡ true = ground (arith, i.bound) in
          let (noted, cycles) = note-wrap c t sn time_ns i (omega arith) wraps in
          let ext : t.cycles + 65536 + sn ≡ unwrapped t + d = omega (arith, value) in
          (
            noted ∙ ap (λ (x : ℕ). t.ext_info ++ (entry x time_ns ∷ [])) ext,
            omega (arith, cycles, last, value),
          )
    ]

-- A late packet from before the wrap-around: behind a packet whose number is below 4094 comes one
-- from the end of the round before, above 61440. It is noted 65536 numbers too far, in the round
-- that has just begun, and the next packet in order is noted 65536 numbers too far as well.
pub note-late_wrap :
    (c : ℕ) (t : Responder) (late time_ns time_ns' : ℕ)
    → IsCounting c t
    → t.last_sn < 4094
    → 61440 < late
    → late < 65536
    → (note (note t late time_ns) (t.last_sn + 1) time_ns').ext_info
      ≡ (t.ext_info ++ (entry (t.cycles + late) time_ns ∷ []))
        ++ (entry (t.cycles + 65536 + (t.last_sn + 1)) time_ns' ∷ [])
note-late_wrap c t late time_ns time_ns' i l p q =
    let stays : (ltb late 4095 && ltb 61440 t.last_sn) ≡ false = ground arith in
    let (noted, cycles) = note-same c t late time_ns i q stays in
    let t' = note t late time_ns in
    let last : t'.last_sn ≡ late = note-last_sn t late time_ns in
    let i' : IsCounting c t' = record {
      rounds = cycles ∙ i.rounds;
      room = i.room;
      bound = omega (arith, last);
    } in
    let wraps : (ltb (t.last_sn + 1) 4095 && ltb 61440 t'.last_sn) ≡ true = ground (arith, last) in
    let (noted', cycles') = note-wrap c t' (t.last_sn + 1) time_ns' i' (omega arith) wraps in
    noted'
    ∙ ap (λ (x : ℕ). t'.ext_info ++ (entry (x + 65536 + (t.last_sn + 1)) time_ns' ∷ [])) cycles
    ∙ ap (λ (l : List RtpExtInfo). l ++ (entry (t.cycles + 65536 + (t.last_sn + 1)) time_ns' ∷ []))
        noted
