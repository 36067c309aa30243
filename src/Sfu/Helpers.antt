-- ===== src/Sfu/Helpers.antt =====
-- pkg/sfu/helpers.go: times in the format of NTP, distances of timestamps, and the search for a codec.
-- A time is the nanoseconds since 1900 that `t.Sub(ntpEpoch)` gives. Strings are numbers: `mime`
-- stands for a MIME type up to `strings.EqualFold`.
pub mod Times
mod Tests
use ion_sfu.Prelude.{
  ℕ, ◌+◌, ◌-◌, ◌*◌, ◌/◌, ◌%◌, ◌^◌, Bool, true, false, ◌&&◌, List, [], ◌∷◌, Option, none, some, ltb,
  leb, ◌==◌, if◌then◌else◌, bit_or, sub32,
}
use ion_sfu.Buffer.Stream.Calc.{is_timestamp_wrap_around}

unfoldable pub ntp_to_millis_since_epoch : ℕ → ℕ
ntp_to_millis_since_epoch ntp = ntp % 4294967296 * 1000 / 4294967296 + ntp / 4294967296 * 1000

-- `ntpTime.Duration`, in nanoseconds.
pub duration : ℕ → ℕ
duration t =
    let frac = t % 4294967296 * 1000000000 in
    let nsec = frac / 4294967296 in
    t / 4294967296 * 1000000000 + (if leb 2147483648 (frac % 4294967296) then nsec + 1 else nsec)

-- `sec<<32 | frac` on uint64.
pub to_ntp_time : ℕ → ℕ
to_ntp_time nsec =
    let sec = nsec / 1000000000 in
    let rest = (nsec - sec * 1000000000) * 4294967296 in
    let frac = rest / 1000000000 in
    bit_or (sec * 2 ^ 32 % 18446744073709551616)
      (if leb 500000000 (rest % 1000000000) then frac + 1 else frac)

unfoldable pub fast_forward_timestamp_amount : (newest reference : ℕ) → ℕ
fast_forward_timestamp_amount newest reference =
    if is_timestamp_wrap_around newest reference
    then (newest + 4294967296 - reference) % 4294967296
    else if ltb newest reference
    then 0
    else newest - reference

-- The fields of `webrtc.RTPCodecParameters` that are read here.
pub record Codec : Type 0 where
  pub mime : ℕ
  pub sdp_fmtp_line : ℕ
  pub payload_type : ℕ

unfoldable pub same_line : Codec → Codec → Bool
same_line needle c = (c.mime == needle.mime) && (c.sdp_fmtp_line == needle.sdp_fmtp_line)

unfoldable pub same_mime : Codec → Codec → Bool
same_mime needle c = c.mime == needle.mime

-- A loop that returns the first codec that passes.
unfoldable pub first_that : (Codec → Bool) → List Codec → Option Codec
first_that passes [] = none
first_that passes (c ∷ cs) = let later = first_that passes cs in if passes c then some c else later

-- `none` is `ErrCodecNotFound`.
unfoldable pub codec_parameters_fuzzy_search : Codec → List Codec → Option Codec
codec_parameters_fuzzy_search needle haystack = elim (first_that (same_line needle) haystack) [
  | some c ↦ some c
  | none ↦ first_that (same_mime needle) haystack
]
