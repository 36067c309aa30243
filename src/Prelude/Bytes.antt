-- ===== src/Prelude/Bytes.antt =====
-- A Go byte slice that is written in place: a function from index to byte. Its length is kept
-- beside it by the code that owns it, which checks the bounds.
use Prim.Native.Nat.{ℕ, zero, suc, ◌+◌, ◌-◌, ◌<◌, ◌≤◌}
use mathlib.Core.Path.{◌≡◌, refl, ap₂}
use mathlib.Core.Bool.{◌&&◌}
use mathlib.Core.List.{List, [], ◌∷◌}
use native.Mathlib.Omega.{arith}
use ion_sfu.Prelude.Tests.{ltb, leb, ◌==◌, if◌then◌else◌}
use ion_sfu.Prelude.Lists.{length, get_or}
use ion_sfu.Prelude.Words.{hi_byte, lo_byte, be16}

abbrev pub Bytes : Type 0
Bytes = ℕ → ℕ

-- `binary.BigEndian.PutUint16(b[off:], v)`
abbrev pub put16 : Bytes → ℕ → ℕ → Bytes
put16 m off v j = if j == off then hi_byte v else if j == off + 1 then lo_byte v else m j

-- `binary.BigEndian.Uint16(b[off:])`
abbrev pub read16 : Bytes → ℕ → ℕ
read16 m off = be16 (m off) (m (off + 1))

-- `copy(b[off:], xs)` where it fits.
abbrev pub copy_at : Bytes → ℕ → List ℕ → Bytes
copy_at m off xs j = if leb off j && ltb j (off + length xs) then get_or xs (j - off) 0 else m j

-- The bytes of `b[off : off+n]`.
pub slice : Bytes → ℕ → ℕ → List ℕ
slice m off zero = []
slice m off (suc n) = m off ∷ slice m (off + 1) n

pub slice_of :
    (m : Bytes) (off : ℕ) (xs : List ℕ)
    → ((k : ℕ) → k < length xs → m (off + k) ≡ get_or xs k 0)
    → slice m off (length xs) ≡ xs
unfolding slice
slice_of m off [] h = refl
slice_of m off (x ∷ xs) h =
    let first : off + 0 ≡ off = omega arith in
    ap₂ ◌∷◌ (rw first at (h 0 (omega arith))) (
      slice_of m (off + 1) xs λ k lt.
        let next : off + suc k ≡ off + 1 + k = omega arith in rw next at (h (suc k) (omega arith)))

pub slice_agree :
    (m m' : Bytes) (off n : ℕ)
    → ((j : ℕ) → off ≤ j → j < off + n → m j ≡ m' j)
    → slice m off n ≡ slice m' off n
unfolding slice
slice_agree m m' off zero h = refl
slice_agree m m' off (suc n) h =
    ap₂ ◌∷◌ (h off (omega arith) (omega arith))
      (slice_agree m m' (off + 1) n λ j p q. h j (omega arith) (omega arith))
