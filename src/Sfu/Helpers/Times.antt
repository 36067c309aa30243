-- ===== src/Sfu/Helpers/Times.antt =====
-- pkg/sfu/helpers.go: how exact the conversions of times are.
use ion_sfu.Prelude.{ℕ, ◌+◌, ◌-◌, ◌*◌, ◌/◌, ◌%◌, ◌<◌, ◌≡◌, refl, ap, ◌∙◌, leb, if◌then◌else◌, arith}
use ion_sfu.Prelude.Bits.{bit_or-add}
use ion_sfu.Sfu.Helpers.{ntp_to_millis_since_epoch, duration, to_ntp_time}

-- The fraction of a second that stands for some nanoseconds, and back.
rounds_back :
    (r x f y : ℕ)
    → r < 1000000000
    → x ≡ r * 4294967296
    → f ≡ (if leb 500000000 (x % 1000000000) then x / 1000000000 + 1 else x / 1000000000)
    → y ≡ f * 1000000000
    → (f < 4294967296)
      × ((if leb 2147483648 (y % 4294967296) then y / 4294967296 + 1 else y / 4294967296) ≡ r)
rounds_back r x f y h hx hf hy = ground arith

-- The fraction that `toNtpTime` computes, of the nanoseconds of a second.
abbrev fraction : ℕ → ℕ
fraction r =
    let x = r * 4294967296 in
    if leb 500000000 (x % 1000000000) then x / 1000000000 + 1 else x / 1000000000

to_ntp_fields :
    (n : ℕ)
    → n < 4294967296 * 1000000000
    → to_ntp_time n ≡ n / 1000000000 * 4294967296 + fraction (n % 1000000000)
unfolding to_ntp_time
to_ntp_fields n h =
    let r = n % 1000000000 in
    let f = fraction r in
    let bound =
      (rounds_back r (r * 4294967296) f (f * 1000000000) (omega arith) refl refl refl).0 in
    let rest : n - n / 1000000000 * 1000000000 ≡ n % 1000000000 = omega arith in
    let fits : n / 1000000000 * 4294967296 % 18446744073709551616 ≡ n / 1000000000 * 4294967296 =
      omega (arith, h) in
    rw (rest, fits) (bit_or-add 32 (n / 1000000000) f bound)

-- A time up to the year 2036, put into the format of NTP and back, is the same to the nanosecond.
pub duration-to_ntp_time :
    (nsec : ℕ) → nsec < 4294967296 * 1000000000 → duration (to_ntp_time nsec) ≡ nsec
unfolding duration
duration-to_ntp_time n h =
    let r = n % 1000000000 in
    let f = fraction r in
    let back = rounds_back r (r * 4294967296) f (f * 1000000000) (omega arith) refl refl refl in
    let e = to_ntp_fields n h in
    let high : to_ntp_time n / 4294967296 ≡ n / 1000000000 = omega (arith, e, back.0) in
    let low : to_ntp_time n % 4294967296 ≡ f = omega (arith, e, back.0) in
    rw (high, low) (ap (λ (z : ℕ). n / 1000000000 * 1000000000 + z) back.1 ∙ omega arith)

-- The milliseconds of a time in the format of NTP are exact, rounded down.
pub ntp_to_millis_lem : (ntp : ℕ) → ntp_to_millis_since_epoch ntp ≡ ntp * 1000 / 4294967296
unfolding ntp_to_millis_since_epoch
ntp_to_millis_lem ntp = omega arith
