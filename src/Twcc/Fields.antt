-- ===== src/Twcc/Fields.antt =====
-- What the chunk writers put into a word.
use native.Mathlib.Nat.{mul-lt-mul_of_pos_right}
use ion_sfu.Prelude.{
  ℕ, zero, suc, ◌+◌, ◌-◌, ◌*◌, ◌/◌, ◌%◌, ◌^◌, ◌≤◌, ◌<◌, ◌≡◌, refl, ap, ◌∙◌, false, List, [], ◌∷◌,
  ◌++◌, ltb, length, replicate, All, arith, length-append, All-append, length-replicate,
}
use ion_sfu.Prelude.Bits.{double, bit_or-add}
use ion_sfu.Twcc.{Responder, set_n_bits_of_uint16, create_status_symbol_chunk, one_bit, two_bit}
use ion_sfu.Twcc.Status.{create_chunk}
use ion_sfu.Twcc.Format.{IsBits, number, decode_word, decode-bits, decode-pairs, symbols}

power-pos : (e : ℕ) → 0 < 2 ^ e
power-pos zero = omega arith
power-pos (suc e) = omega (arith, power-pos e, double 1 e)

-- A field below the next higher one.
field-lt : (s n e : ℕ) → s < n → s * 2 ^ e < n * 2 ^ e
field-lt s n e h = mul-lt-mul_of_pos_right h (power-pos e)

set-one :
    (h s i e : ℕ)
    → s < 2
    → i + e ≡ 13
    → set_n_bits_of_uint16 (h * 2 ^ suc e) 1 (1 * i + 2) s ≡ (h * 2 + s) * 2 ^ e
unfolding set_n_bits_of_uint16
set-one h s i e l m =
    let fits : ltb 16 (1 * i + 2 + 1) ≡ false = ground arith in
    let place : 16 - 1 - (1 * i + 2) ≡ e = omega arith in
    let same : s % 2 ^ 1 ≡ s = omega arith in
    let small : s * 2 ^ e < 2 ^ suc e = omega (arith, field-lt s 2 e l, double 1 e) in
    rw (fits, place, same) (bit_or-add (suc e) h (s * 2 ^ e) small ∙ omega (arith, double h e))

set-two :
    (h s i e : ℕ)
    → s < 4
    → i + i + e ≡ 12
    → set_n_bits_of_uint16 (h * 2 ^ suc (suc e)) 2 (2 * i + 2) s
      ≡ ((h * 2 + s / 2) * 2 + s % 2) * 2 ^ e
unfolding set_n_bits_of_uint16
set-two h s i e l m =
    let fits : ltb 16 (2 * i + 2 + 2) ≡ false = ground arith in
    let place : 16 - 2 - (2 * i + 2) ≡ e = omega arith in
    let same : s % 2 ^ 2 ≡ s = omega arith in
    let small : s * 2 ^ e < 2 ^ suc (suc e) =
      omega (arith, field-lt s 4 e l, double 1 e, double 1 (suc e)) in
    let whole : (h * 2 + s / 2) * 2 + s % 2 ≡ h * 4 + s = omega arith in
    rw (fits, place, same, whole)
      (bit_or-add (suc (suc e)) h (s * 2 ^ e) small ∙ omega (arith, double h e, double h (suc e)))

pub fill-one :
    (t : Responder) (ss : List ℕ) (h i e : ℕ)
    → IsBits ss
    → i + length ss + e ≡ 14
    → create_chunk (record t { chunk = h * 2 ^ (length ss + e) }) one_bit ss i
      ≡ record t { chunk = number h ss * 2 ^ e }
unfolding create_chunk create_status_symbol_chunk number
fill-one t [] h i e b m = let zero_left : 0 + e ≡ e = omega arith in rw zero_left refl
fill-one t (a ∷ ss) h i e b m =
    let room : suc (length ss) + e ≡ suc (length ss + e) = omega arith in
    rw (room, set-one h a i (length ss + e) b.0 (omega arith))
      (fill-one t ss (h * 2 + a) (i + 1) e b.1 (omega arith))

unfoldable pub pair_bits : List ℕ → List ℕ
pair_bits [] = []
pair_bits (a ∷ ss) = (a / 2) ∷ ((a % 2) ∷ pair_bits ss)

pub fill-two :
    (t : Responder) (ss : List ℕ) (h i e : ℕ)
    → All (λ a. a < 4) ss
    → i + i + (length ss + length ss) + e ≡ 14
    → create_chunk (record t { chunk = h * 2 ^ (length ss + length ss + e) }) two_bit ss i
      ≡ record t { chunk = number h (pair_bits ss) * 2 ^ e }
unfolding create_chunk create_status_symbol_chunk number pair_bits
fill-two t [] h i e b m = let zero_left : 0 + 0 + e ≡ e = omega arith in rw zero_left refl
fill-two t (a ∷ ss) h i e b m =
    let room : suc (length ss) + suc (length ss) + e ≡ suc (suc (length ss + length ss + e)) =
      omega arith in
    rw (room, set-two h a i (length ss + length ss + e) b.0 (omega arith))
      (fill-two t ss ((h * 2 + a / 2) * 2 + a % 2) (i + 1) e b.1 (omega arith))

pub number-zeros :
    (c : ℕ) (bs : List ℕ) (e : ℕ) → number c (bs ++ replicate e 0) ≡ number c bs * 2 ^ e
unfolding number
number-zeros c [] zero = omega arith
number-zeros c [] (suc e) = omega (arith, number-zeros (c * 2 + 0) [] e, double c e)
number-zeros c (b ∷ bs) e = number-zeros (c * 2 + b) bs e

-- The symbols that a chunk of `n` of them holds.
abbrev pub padded : ℕ → List ℕ → List ℕ
padded n ss = ss ++ replicate (n - length ss) 0

pub pair_bits-zeros :
    (ss : List ℕ) (k : ℕ) → pair_bits (ss ++ replicate k 0) ≡ pair_bits ss ++ replicate (k + k) 0
unfolding pair_bits
pair_bits-zeros [] zero = refl
pair_bits-zeros [] (suc k) =
    let two : suc k + suc k ≡ suc (suc (k + k)) = omega arith in
    rw two (ap (λ (l : List ℕ). 0 ∷ (0 ∷ l)) (pair_bits-zeros [] k))
pair_bits-zeros (a ∷ ss) k = ap (λ (l : List ℕ). (a / 2) ∷ ((a % 2) ∷ l)) (pair_bits-zeros ss k)

abbrev pub word_one : List ℕ → ℕ
word_one ss = number 0 (padded 14 ss) + 2 * 2 ^ 14

abbrev pub word_two : List ℕ → ℕ
word_two ss = number 0 (pair_bits (padded 7 ss)) + 3 * 2 ^ 14

IsBits-zeros : (n : ℕ) → IsBits (replicate n 0)
IsBits-zeros zero = tt
IsBits-zeros (suc n) = (omega arith, IsBits-zeros n)

pub padded-IsBits : (n : ℕ) (ss : List ℕ) → IsBits ss → IsBits (padded n ss)
padded-IsBits n ss h = All-append (λ b. b < 2) ss (replicate (n - length ss) 0) h (IsBits-zeros _)

pub length-padded : (n : ℕ) (ss : List ℕ) → length ss ≤ n → length (padded n ss) ≡ n
length-padded n ss h = omega (
  arith,
  length-append ss (replicate (n - length ss) 0),
  length-replicate {A = ℕ} (n - length ss) 0,
)

pub decode-one :
    (ss : List ℕ) → IsBits ss → length ss ≤ 14 → decode_word (word_one ss) ≡ padded 14 ss
decode-one ss h l = decode-bits (padded 14 ss) (padded-IsBits 14 ss h) (length-padded 14 ss l)

pub pair_bits-IsBits : (ss : List ℕ) → All (λ a. a < 4) ss → IsBits (pair_bits ss)
unfolding pair_bits
pair_bits-IsBits [] h = tt
pair_bits-IsBits (a ∷ ss) h = (omega (arith, h.0), (omega arith, pair_bits-IsBits ss h.1))

pub length-pair_bits : (ss : List ℕ) → length (pair_bits ss) ≡ length ss + length ss
unfolding pair_bits
length-pair_bits [] = omega arith
length-pair_bits (a ∷ ss) = omega (arith, length-pair_bits ss)

symbols-pair_bits : (ss : List ℕ) → symbols (pair_bits ss) ≡ ss
unfolding symbols pair_bits
symbols-pair_bits [] = refl
symbols-pair_bits (a ∷ ss) =
    let back : a / 2 * 2 + a % 2 ≡ a = omega arith in rw (back, symbols-pair_bits ss) refl

pub zeros-below : (n : ℕ) → All (λ a. a < 4) (replicate n 0)
zeros-below zero = tt
zeros-below (suc n) = (omega arith, zeros-below n)

pub decode-two :
    (ss : List ℕ) → All (λ a. a < 4) ss → length ss ≤ 7 → decode_word (word_two ss) ≡ padded 7 ss
decode-two ss h l =
    let below = All-append (λ a. a < 4) ss (replicate (7 - length ss) 0) h (zeros-below _) in
    let long : length (pair_bits (padded 7 ss)) ≡ 14 =
      omega (arith, length-pair_bits (padded 7 ss), length-padded 7 ss l) in
    decode-pairs _ (pair_bits-IsBits (padded 7 ss) below) long ∙ symbols-pair_bits (padded 7 ss)
