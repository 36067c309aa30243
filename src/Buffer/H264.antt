-- ===== src/Buffer/H264.antt =====
-- pkg/buffer/helpers.go: isH264Keyframe. Each read stands behind the source's length check, so the
-- default of `get_or` is never seen; a log message is left out.
use ion_sfu.Prelude.{
  ℕ, zero, suc, ◌+◌, ◌%◌, ◌≤◌, ◌≡◌, refl, arith, Bool, true, false, not, ◌&&◌, ◌||◌, List, ltb, leb,
  ◌==◌, if◌then◌else◌, length, get_or, be16,
}

-- `b & 0x1F`
abbrev pub unit_type : List ℕ → ℕ → ℕ
unit_type payload i = get_or payload i 0 % 32

-- The timestamp offset in front of a unit of an MTAP.
abbrev pub unit_offset : ℕ → ℕ
unit_offset nalu = if nalu == 26 then 3 else if nalu == 27 then 4 else 0

-- The loop over the units of an aggregation packet; each round moves on by two bytes or more, so
-- the payload's length is enough fuel.
unfoldable pub any_sps : (fuel nalu : ℕ) → List ℕ → (i : ℕ) → Bool
any_sps zero nalu payload i = false
any_sps (suc fuel) nalu payload i =
    let size = be16 (get_or payload i 0) (get_or payload (i + 1) 0) in
    let rest = any_sps fuel nalu payload (i + 2 + size) in
    if leb (length payload) i
    then false
    else if ltb (length payload) (i + 2)
        || ltb (length payload) (i + 2 + size)
        || leb size (unit_offset nalu)
    then false
    else if unit_type payload (i + 2 + unit_offset nalu) == 7
    then true
    else rest

unfoldable pub is_h264_keyframe : List ℕ → Bool
is_h264_keyframe payload =
    let nalu = unit_type payload 0 in
    if ltb (length payload) 1 || (nalu == 0)
    then false
    else if leb nalu 23
    then nalu == 5
    else if leb nalu 27
    then any_sps (length payload) nalu payload (if nalu == 24 then 1 else 3)
    else if leb nalu 29
    then not (ltb (length payload) 2) && leb 128 (get_or payload 1 0) && (unit_type payload 1 == 7)
    else false

-- More fuel than the rest of the payload changes nothing.
pub any_sps_fuel :
    (fuel more nalu : ℕ) (payload : List ℕ) (i : ℕ)
    → length payload ≤ fuel + i
    → any_sps (fuel + more) nalu payload i ≡ any_sps fuel nalu payload i
unfolding any_sps
any_sps_fuel zero zero nalu payload i h = refl
any_sps_fuel zero (suc more) nalu payload i h =
    let first : 0 + suc more ≡ suc more = omega arith in
    let over : leb (length payload) i ≡ true = ground arith in rw (first, over) refl
any_sps_fuel (suc fuel) more nalu payload i h =
    let size = be16 (get_or payload i 0) (get_or payload (i + 1) 0) in
    let next : suc fuel + more ≡ suc (fuel + more) = omega arith in
    rw (next, any_sps_fuel fuel more nalu payload (i + 2 + size) (omega arith)) refl
