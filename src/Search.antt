-- ===== src/Search.antt =====
-- `sort.Search` of Go's standard library: the binary search that package buffer's NACK queue uses.
use ion_sfu.Prelude.{
  ℕ, zero, suc, ◌+◌, ◌/◌, ◌≤◌, ◌<◌, ◌≡◌, Bool, true, false, inl, inr, arith, ltb, if◌then◌else◌,
  Bool-cases, ltb→lt,
}

-- The loop `for i < j`. One round lowers `j - i`, so a fuel of `j - i` is enough.
search_loop : ℕ → (ℕ → Bool) → ℕ → ℕ → ℕ
search_loop zero f i j = i
search_loop (suc fuel) f i j =
    let h = (i + j) / 2 in
    let rest : ℕ = elim (f h) [
      | true ↦ search_loop fuel f i h
      | false ↦ search_loop fuel f (h + 1) j
    ] in
    if ltb i j then rest else i

unfoldable pub search : ℕ → (ℕ → Bool) → ℕ
unfolding search_loop
search n f = search_loop n f 0 n

-- `r` is the least index below `n` at which `f` holds, and `n` where there is none.
pub record IsFirst (f : ℕ → Bool) (n r : ℕ) : Type 0 where
  pub bound : r ≤ n
  pub below : (k : ℕ) → k < r → f k ≡ false
  pub found : r < n → f r ≡ true

abbrev pub Monotone : (ℕ → Bool) → ℕ → Type 0
Monotone f n = (a b : ℕ) → a ≤ b → b < n → f a ≡ true → f b ≡ true

pub IsFirst-unique : (f : ℕ → Bool) (n r s : ℕ) → IsFirst f n r → IsFirst f n s → r ≡ s
IsFirst-unique f n r s p q = grind (arith, p.below s, q.below r, p.found, q.found, p.bound, q.bound)

-- Below an index where a monotone test fails it fails too.
fails_below :
    (f : ℕ → Bool) (n h k : ℕ) → Monotone f n → h < n → f h ≡ false → k < h + 1 → f k ≡ false
fails_below f n h k m hn e lt = elim (Bool-cases (f k)) [
  | inl t ↦ ground (arith, m k h (omega arith) hn t)
  | inr ff ↦ ff
]

search_loop-IsFirst :
    (fuel : ℕ) (f : ℕ → Bool) (n i j : ℕ)
    → Monotone f n
    → i ≤ j
    → j ≤ n
    → j ≤ i + fuel
    → ((k : ℕ) → k < i → f k ≡ false)
    → (j < n → f j ≡ true)
    → IsFirst f n (search_loop fuel f i j)
unfolding search_loop
search_loop-IsFirst zero f n i j m hij hjn hf lo hi =
    let e : i ≡ j = omega arith in record { bound = omega arith; below = lo; found = rw e hi }
search_loop-IsFirst (suc fuel) f n i j m hij hjn hf lo hi = elim (Bool-cases (ltb i j)) [
  | inr done ↦
      let e : i ≡ j = ground arith in
      rw done (record { bound = omega arith; below = lo; found = rw e hi })
  | inl more ↦
      let p = ltb→lt i j more in
      let h = (i + j) / 2 in
      elim (Bool-cases (f h)) [
        | inl yes' ↦
            rw (more, yes')
              (search_loop-IsFirst fuel f n i h m (omega arith) (omega arith) (omega arith) lo
                (λ _. yes'))
        | inr no' ↦
            rw (more, no')
              (search_loop-IsFirst fuel f n (h + 1) j m (omega arith) hjn (omega arith)
                (λ k lt. fails_below f n h k m (omega arith) no' lt) hi)
      ]
]

-- The binary search ends within its fuel, at the least index where a monotone test holds.
pub search-IsFirst : (n : ℕ) (f : ℕ → Bool) → Monotone f n → IsFirst f n (search n f)
unfolding search
search-IsFirst n f m =
    search_loop-IsFirst n f n 0 n m (omega arith) (omega arith) (omega arith)
      (λ k lt. absurd (omega arith)) (λ lt. absurd (omega arith))
