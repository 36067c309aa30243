-- ===== src/Twcc/Format.antt =====
-- The status chunks of the feedback format, read as the source's comments describe them.
use ion_sfu.Prelude.{
  ℕ, zero, suc, ◌+◌, ◌*◌, ◌/◌, ◌%◌, ◌^◌, ◌≤◌, ◌<◌, ◌≡◌, refl, ap, true, false, List, [], ◌∷◌, ◌++◌,
  ltb, if◌then◌else◌, length, replicate, be16, All, arith,
}

-- The `n` lowest bits of a word, the highest of them first, and what is above them.
unfoldable pub low_bits : ℕ → ℕ → List ℕ × ℕ
low_bits zero w = ([], w)
low_bits (suc n) w = let (bits, above) = low_bits n w in ((above % 2) ∷ bits, above / 2)

-- Two bits a symbol.
unfoldable pub symbols : List ℕ → List ℕ
symbols [] = []
symbols (x ∷ []) = []
symbols (x ∷ y ∷ bits) = (x * 2 + y) ∷ symbols bits

-- A run-length chunk, or a chunk of 14 symbols of one bit or 7 of two.
unfoldable pub decode_word : ℕ → List ℕ
decode_word w =
    if ltb w (2 ^ 15)
    then replicate (w % 2 ^ 13) (w / 2 ^ 13)
    else if ltb w (2 ^ 15 + 2 ^ 14)
    then (low_bits 14 w).0
    else symbols (low_bits 14 w).0

unfoldable pub decode_chunks : List ℕ → List ℕ
decode_chunks [] = []
decode_chunks (x ∷ []) = []
decode_chunks (x ∷ y ∷ bytes) = decode_word (be16 x y) ++ decode_chunks bytes

-- The number whose bits below `c` are given, the highest first.
unfoldable pub number : ℕ → List ℕ → ℕ
number c [] = c
number c (b ∷ bs) = number (c * 2 + b) bs

abbrev pub IsBits : List ℕ → Type 0
IsBits = All (λ b. b < 2)

low_bits-number : (c : ℕ) (bs : List ℕ) → IsBits bs → low_bits (length bs) (number c bs) ≡ (bs, c)
unfolding low_bits number
low_bits-number c [] h = refl
low_bits-number c (b ∷ bs) h =
    let last : (c * 2 + b) % 2 ≡ b = omega (arith, h.0) in
    let rest : (c * 2 + b) / 2 ≡ c = omega (arith, h.0) in
    rw (low_bits-number (c * 2 + b) bs h.1, last, rest) refl

-- `d`, doubled `n` times.
unfoldable pub doubled : ℕ → ℕ → ℕ
doubled zero d = d
doubled (suc n) d = doubled n (d * 2)

number-add : (c d : ℕ) (bs : List ℕ) → number (c + d) bs ≡ number c bs + doubled (length bs) d
unfolding number doubled
number-add c d [] = refl
number-add c d (b ∷ bs) =
    let e : (c + d) * 2 + b ≡ c * 2 + b + d * 2 = omega arith in
    rw e (number-add (c * 2 + b) (d * 2) bs)

doubled-le : (n a b : ℕ) → a ≤ b → doubled n a ≤ doubled n b
unfolding doubled
doubled-le zero a b h = h
doubled-le (suc n) a b h = doubled-le n (a * 2) (b * 2) (omega arith)

pub number-lt : (c : ℕ) (bs : List ℕ) → IsBits bs → number c bs < doubled (length bs) (c + 1)
unfolding number doubled
number-lt c [] h = omega arith
number-lt c (b ∷ bs) h = omega (
  arith,
  number-lt (c * 2 + b) bs h.1,
  doubled-le (length bs) (c * 2 + b + 1) ((c + 1) * 2) (omega (arith, h.0)),
)

-- Fourteen bits below the type and the size of a chunk.
pub fourteen_bits :
    (top : ℕ) (bs : List ℕ)
    → IsBits bs
    → length bs ≡ 14
    → (number 0 bs < 2 ^ 14) × ((low_bits 14 (number 0 bs + top * 2 ^ 14)).0 ≡ bs)
unfolding doubled
fourteen_bits top bs h l =
    let lt = number-lt 0 bs h in
    let small : doubled (length bs) 1 ≡ 2 ^ 14 = rw l refl in
    let shift : doubled (length bs) top ≡ top * 2 ^ 14 = rw l (omega arith) in
    let from_top : 0 + top ≡ top = omega arith in
    let added : number top bs ≡ number 0 bs + doubled (length bs) top =
      rw from_top at (number-add 0 top bs) in
    let all : number 0 bs + top * 2 ^ 14 ≡ number top bs = omega (arith, added, shift) in
    let read = low_bits-number top bs h in
    let read' : low_bits 14 (number top bs) ≡ (bs, top) = rw l at read in
    (omega (arith, lt, small), rw all (ap (λ (x : List ℕ × ℕ). x.0) read'))

pub decode-run :
    (symbol n : ℕ)
    → symbol < 4
    → n < 2 ^ 13
    → decode_word (symbol * 2 ^ 13 + n) ≡ replicate n symbol
unfolding decode_word
decode-run symbol n h k =
    let short : ltb (symbol * 2 ^ 13 + n) (2 ^ 15) ≡ true = ground arith in
    let count : (symbol * 2 ^ 13 + n) % 2 ^ 13 ≡ n = omega arith in
    let which : (symbol * 2 ^ 13 + n) / 2 ^ 13 ≡ symbol = omega arith in
    rw (short, count, which) refl

pub decode-bits :
    (bs : List ℕ) → IsBits bs → length bs ≡ 14 → decode_word (number 0 bs + 2 * 2 ^ 14) ≡ bs
unfolding decode_word
decode-bits bs h l =
    let (lt, read) = fourteen_bits 2 bs h l in
    let long : ltb (number 0 bs + 2 * 2 ^ 14) (2 ^ 15) ≡ false = ground arith in
    let one : ltb (number 0 bs + 2 * 2 ^ 14) (2 ^ 15 + 2 ^ 14) ≡ true = ground arith in
    rw (long, one) read

pub decode-pairs :
    (bs : List ℕ) → IsBits bs → length bs ≡ 14 → decode_word (number 0 bs + 3 * 2 ^ 14) ≡ symbols bs
unfolding decode_word
decode-pairs bs h l =
    let (lt, read) = fourteen_bits 3 bs h l in
    let long : ltb (number 0 bs + 3 * 2 ^ 14) (2 ^ 15) ≡ false = ground arith in
    let two : ltb (number 0 bs + 3 * 2 ^ 14) (2 ^ 15 + 2 ^ 14) ≡ false = ground arith in
    rw (long, two) (ap symbols read)
