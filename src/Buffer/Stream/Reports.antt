-- ===== src/Buffer/Stream/Reports.antt =====
-- What the receiver reports say of the losses.
use native.Mathlib.Nat.{div-lt_iff_lt-mul}
use ion_sfu.Prelude.{
  ℕ, ◌+◌, ◌-◌, ◌*◌, ◌/◌, ◌%◌, ◌^◌, ◌≤◌, ◌<◌, ◌≡◌, refl, sym, Bool-cases, inl, inr, false, not, ◌&&◌,
  ltb, ◌==◌, if◌then◌else◌, arith, sub32, add32,
}
use ion_sfu.Buffer.Stream.{Buffer, FloatOps, ext_max_seq, build_reception_report}

module _ {F : Type 0} where
  -- The numbers from the first to the highest one.
  abbrev pub expected_of : Buffer F → ℕ
  expected_of b = ext_max_seq b - b.base_sn + 1

  -- Between two reports: packets and numbers have come, not more packets than numbers.
  pub record IsReporting (b : Buffer F) : Type 0 where
    pub first : b.base_sn ≤ ext_max_seq b
    pub small : ext_max_seq b < 2 ^ 24
    pub more_expected : b.stats.last_expected ≤ expected_of b
    pub more_received : b.stats.last_received < b.stats.packet_count
    pub no_more :
        b.stats.packet_count - b.stats.last_received ≤ expected_of b - b.stats.last_expected
    pub in_all : b.stats.packet_count ≤ expected_of b

-- The quotient of a loss that is smaller than what was expected.
fraction-lt : (lost expected : ℕ) → lost < expected → lost * 256 / expected < 256
fraction-lt lost expected h = (div-lt_iff_lt-mul {k = expected} (omega arith)).1 (omega arith)

small_mod : (x : ℕ) → x < 256 → x % 256 ≡ x
small_mod x h = omega arith

nothing_lost : (expected : ℕ) → 0 < expected → 0 / expected ≡ 0
nothing_lost expected h =
    let least : 0 / expected < 1 = (div-lt_iff_lt-mul {k = expected} h).1 (omega arith) in
    omega arith

fraction-value :
    (lost expected : ℕ)
    → lost < expected
    → expected ≤ 2 ^ 24
    → (if not (expected == 0) && ltb 0 lost then lost * 256 % 2 ^ 32 / expected % 256 else 0)
      ≡ lost * 256 / expected
fraction-value lost expected h k =
    let some_expected : (expected == 0) ≡ false = ground arith in
    elim (Bool-cases (ltb 0 lost)) [
      | inl e ↦
          let fits : lost * 256 % 2 ^ 32 ≡ lost * 256 = omega arith in
          rw (some_expected, e, fits)
            (small_mod (lost * 256 / expected) (fraction-lt lost expected h))
      | inr e ↦
          let none_lost : lost ≡ 0 = ground arith in
          rw (some_expected, e, none_lost) (sym (nothing_lost expected (omega arith)))
    ]

module _ {F : Type 0} (f : FloatOps F) where
  -- A reception report is exact: for a buffer whose numbers stay below 2^24, which got packets
  -- since the last report, and not more than there were numbers, since then and in all, the total
  -- is the numbers without a packet, the fraction is the loss since the last report in 256ths,
  -- which fits in a byte, and the next report counts on from here.
  pub build_reception_report-lost :
      (b : Buffer F) (now : ℕ)
      → IsReporting b
      → let (r, b') = build_reception_report f b now in
        let expected = expected_of b - b.stats.last_expected in
        let lost = expected - (b.stats.packet_count - b.stats.last_received) in
        (r.total_lost ≡ expected_of b - b.stats.packet_count)
        × (r.fraction_lost ≡ lost * 256 / expected)
        × (lost * 256 / expected < 256)
        × (b'.stats.last_expected ≡ expected_of b)
        × (b'.stats.last_received ≡ b.stats.packet_count)
  unfolding build_reception_report
  build_reception_report-lost b now i =
      let count = b.stats.packet_count in
      let since = expected_of b - b.stats.last_expected in
      let all : add32 (sub32 (ext_max_seq b) b.base_sn) 1 ≡ expected_of b =
        omega (arith, i.first, i.small) in
      let interval : sub32 (expected_of b) b.stats.last_expected ≡ since =
        omega (arith, i.first, i.small, i.more_expected) in
      let received : sub32 count b.stats.last_received ≡ count - b.stats.last_received =
        omega (arith, i.first, i.small, i.more_received, i.in_all) in
      let lost : sub32 since (count - b.stats.last_received)
          ≡ since - (count - b.stats.last_received) =
        omega (arith, i.first, i.small, i.no_more) in
      let less : since - (count - b.stats.last_received) < since =
        omega (arith, i.more_received, i.no_more) in
      let missing : (if ltb count (expected_of b) && not (count == 0)
            then sub32 (expected_of b) count
            else 0)
          ≡ expected_of b - count =
        ground (arith, i.in_all, i.first, i.small, i.more_received) in
      rw (all, interval, received, lost)
        (
          missing,
          fraction-value (since - (count - b.stats.last_received)) since less
              (omega (arith, i.first, i.small)),
          fraction-lt (since - (count - b.stats.last_received)) since less,
          refl,
          refl,
        )
