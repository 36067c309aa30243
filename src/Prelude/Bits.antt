-- ===== src/Prelude/Bits.antt =====
-- `|` on words whose set bits do not overlap, as a sum. The native operation is a recursion on
-- binary digits with fuel; the first lemmas take the fuel away.
use Prim.Native.Nat.{
  ℕ, zero, suc, ◌+◌, ◌*◌, ◌/◌, ◌%◌, ◌^◌, ◌≤◌, ◌<◌, max, bit_or, digits, bit_or-bitwise,
}
use mathlib.Core.Path.{◌≡◌, refl, ap, ◌∙◌}
use native.Mathlib.Nat.{pow-suc}
use native.Mathlib.Omega.{arith}

abbrev or_digits : ℕ → ℕ → ℕ → ℕ
or_digits n a b = digits (λ y. y) max n a b

enough_fuel : (f g x y : ℕ) → (x ≤ f) × (x ≤ g) → or_digits f x y ≡ or_digits g x y
enough_fuel (suc f) (suc g) (suc x) y (u, v) =
    let half = suc x / 2 in omega (arith, enough_fuel f g half (y / 2) (omega arith, omega arith))
enough_fuel (suc f) (suc g) zero y u = refl
enough_fuel (suc f) zero zero y u = refl
enough_fuel zero (suc g) zero y u = refl
enough_fuel zero zero zero y u = refl
enough_fuel f zero (suc x) y (u, v) = absurd (omega arith)
enough_fuel zero g (suc x) y (u, v) = absurd (omega arith)

zero-bit_or : (b : ℕ) → bit_or 0 b ≡ b
zero-bit_or b = bit_or-bitwise 0 b

-- The lowest digit, and the rest.
pub bit_or_halves : (a b : ℕ) → bit_or a b ≡ bit_or (a / 2) (b / 2) * 2 + max (a % 2) (b % 2)
bit_or_halves zero b = let rest = zero-bit_or (b / 2) in omega (arith, rest, zero-bit_or b)
bit_or_halves (suc a) b =
    let half = suc a / 2 in
    let same = enough_fuel half a half (b / 2) (omega arith, omega arith) in
    let whole = bit_or-bitwise (suc a) b in omega (arith, same, whole, bit_or-bitwise half (b / 2))

-- Setting a bit above all that are set.
pub bit_or-pow : (k m : ℕ) → m < 2 ^ k → bit_or m (2 ^ k) ≡ m + 2 ^ k
bit_or-pow zero zero h = zero-bit_or 1
bit_or-pow zero (suc m) h = absurd (omega arith)
bit_or-pow (suc k) m h =
    let half : 2 ^ suc k / 2 ≡ 2 ^ k = omega (arith, pow-suc 2 k) in
    let low : bit_or m (2 ^ suc k) ≡ bit_or (m / 2) (2 ^ k) * 2 + max (m % 2) (2 ^ suc k % 2) =
      rw half at (bit_or_halves m (2 ^ suc k)) in
    omega (arith, low, pow-suc 2 k, bit_or-pow k (m / 2) (omega (arith, pow-suc 2 k)))

-- `x | 0`
or_nothing : (bound x : ℕ) → x ≤ bound → bit_or x 0 ≡ x
or_nothing (suc bound) (suc x) le =
    let rest = or_nothing bound (suc x / 2) (omega arith) in
    omega (arith, rest, bit_or_halves (suc x) 0)
or_nothing bound zero le = zero-bit_or 0
or_nothing zero (suc x) le = absurd (omega arith)

pub double : (q k : ℕ) → q * 2 ^ suc k ≡ q * 2 ^ k + q * 2 ^ k
double q k = omega (arith, ap (λ (t : ℕ). q * t) (pow-suc 2 k))

-- A field above another one of `k` bits.
pub bit_or-add : (k q r : ℕ) → r < 2 ^ k → bit_or (q * 2 ^ k) r ≡ q * 2 ^ k + r
bit_or-add zero q zero h =
    let e : q * 2 ^ 0 ≡ q = omega arith in rw e (or_nothing q q (omega arith) ∙ omega arith)
bit_or-add zero q (suc r) h = absurd (omega arith)
bit_or-add (suc k) q r h =
    let half : q * 2 ^ suc k / 2 ≡ q * 2 ^ k = omega (arith, double q k) in
    let low : bit_or (q * 2 ^ suc k) r
        ≡ bit_or (q * 2 ^ k) (r / 2) * 2 + max (q * 2 ^ suc k % 2) (r % 2) =
      rw half at (bit_or_halves (q * 2 ^ suc k) r) in
    omega (arith, low, double q k, pow-suc 2 k, bit_or-add k q (r / 2) (omega (arith, pow-suc 2 k)))

pub bit_or-zero : (x : ℕ) → bit_or x 0 ≡ x
bit_or-zero x = or_nothing x x (omega arith)

-- Setting a bit between a field above it and one below it.
pub bit_or-gap :
    (k q r : ℕ) → r < 2 ^ k → bit_or (q * 2 ^ suc k + r) (2 ^ k) ≡ q * 2 ^ suc k + r + 2 ^ k
bit_or-gap zero q zero h =
    let low : bit_or (q * 2 + 0) 1 ≡ bit_or ((q * 2 + 0) / 2) 0 * 2 + max ((q * 2 + 0) % 2) 1 =
      bit_or_halves (q * 2 + 0) 1 in
    let half : (q * 2 + 0) / 2 ≡ q = omega arith in
    let rest : bit_or ((q * 2 + 0) / 2) 0 ≡ q = rw half (bit_or-zero q) in omega (arith, low, rest)
bit_or-gap zero q (suc r) h = absurd (omega arith)
bit_or-gap (suc k) q r h =
    let p = pow-suc 2 k in
    let x = q * 2 ^ suc (suc k) + r in
    let whole = double q (suc k) in
    let half : 2 ^ suc k / 2 ≡ 2 ^ k = omega (arith, p) in
    let rest : x / 2 ≡ q * 2 ^ suc k + r / 2 = omega (arith, whole) in
    let low : bit_or x (2 ^ suc k)
        ≡ bit_or (q * 2 ^ suc k + r / 2) (2 ^ k) * 2 + max (x % 2) (2 ^ suc k % 2) =
      rw (half, rest) at (bit_or_halves x (2 ^ suc k)) in
    omega (arith, low, p, whole, bit_or-gap k q (r / 2) (omega (arith, p)))
