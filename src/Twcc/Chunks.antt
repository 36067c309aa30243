-- ===== src/Twcc/Chunks.antt =====
-- The words that the chunk writers put into the payload.
use ion_sfu.Prelude.{
  ℕ, suc, ◌+◌, ◌-◌, ◌*◌, ◌/◌, ◌^◌, ◌≤◌, ◌<◌, ◌≡◌, refl, sym, ap, ◌∙◌, List, [], ◌∷◌, ltb, length,
  take, replicate, All, arith, bit_or, All-append, Bool-cases, inl, inr,
}
use ion_sfu.Prelude.Bits.{bit_or-pow, bit_or-gap, bit_or-zero}
use ion_sfu.Twcc.{
  Responder, set_n_bits_of_uint16, create_status_symbol_chunk, write_status_symbol_chunk,
  write_word, one_bit, two_bit,
}
use ion_sfu.Twcc.Status.{create_chunk, drain_chunk}
use ion_sfu.Twcc.Format.{IsBits, number, fourteen_bits}
use ion_sfu.Twcc.Fields.{
  pair_bits, padded, word_one, word_two, fill-one, fill-two, number-zeros, pair_bits-zeros,
  padded-IsBits, length-padded, pair_bits-IsBits, length-pair_bits, zeros-below,
}

-- The bits of a chunk with `k` unused places are those of the padded one.
padded_bits :
    (ss : List ℕ) → length ss ≤ 14 → number 0 ss * 2 ^ (14 - length ss) ≡ number 0 (padded 14 ss)
padded_bits ss l = sym (number-zeros 0 ss (14 - length ss))

padded_pairs :
    (ss : List ℕ)
    → length ss ≤ 7
    → number 0 (pair_bits ss) * 2 ^ (14 - (length ss + length ss))
      ≡ number 0 (pair_bits (padded 7 ss))
padded_pairs ss l =
    let k : 7 - length ss + (7 - length ss) ≡ 14 - (length ss + length ss) = omega arith in
    rw (pair_bits-zeros ss (7 - length ss), k)
      (sym (number-zeros 0 (pair_bits ss) (14 - (length ss + length ss))))

typed_one :
    (n : ℕ)
    → n < 2 ^ 14
    → set_n_bits_of_uint16 (set_n_bits_of_uint16 n 1 0 1) 1 1 one_bit ≡ n + 2 * 2 ^ 14
unfolding set_n_bits_of_uint16
typed_one n h =
    let top : bit_or n (2 ^ 15) ≡ n + 2 ^ 15 = bit_or-pow 15 n (omega arith) in
    rw (top, bit_or-zero (n + 2 ^ 15)) (omega arith)

typed_two :
    (n : ℕ)
    → n < 2 ^ 14
    → set_n_bits_of_uint16 (set_n_bits_of_uint16 n 1 0 1) 1 1 two_bit ≡ n + 3 * 2 ^ 14
unfolding set_n_bits_of_uint16
typed_two n h =
    let top : bit_or n (2 ^ 15) ≡ 1 * 2 ^ 15 + n = bit_or-pow 15 n (omega arith) ∙ omega arith in
    rw top (bit_or-gap 14 1 n h ∙ omega arith)

number-small : (bs : List ℕ) → IsBits bs → length bs ≡ 14 → number 0 bs < 2 ^ 14
number-small bs h l = (fourteen_bits 0 bs h l).0

pub word_one-lt : (ss : List ℕ) → IsBits ss → length ss ≤ 14 → word_one ss < 65536
word_one-lt ss h l =
    omega (arith, number-small (padded 14 ss) (padded-IsBits 14 ss h) (length-padded 14 ss l))

pub word_two-lt : (ss : List ℕ) → All (λ a. a < 4) ss → length ss ≤ 7 → word_two ss < 65536
word_two-lt ss h l =
    let below = All-append (λ a. a < 4) ss (replicate (7 - length ss) 0) h (zeros-below _) in
    let long : length (pair_bits (padded 7 ss)) ≡ 14 =
      omega (arith, length-pair_bits (padded 7 ss), length-padded 7 ss l) in
    omega
      (arith, number-small (pair_bits (padded 7 ss)) (pair_bits-IsBits (padded 7 ss) below) long)

empty_chunk : (t : Responder) → t.chunk ≡ 0 → (e : ℕ) → record t { chunk = 0 * 2 ^ e } ≡ t
empty_chunk t z e = ap (λ (n : ℕ). record t { chunk = n }) (omega arith)

clear_first :
    (t : Responder) (size : ℕ) (ss : List ℕ)
    → t.chunk ≡ 0
    → (e : ℕ) → create_chunk t size ss 0 ≡ create_chunk (record t { chunk = 0 * 2 ^ e }) size ss 0
clear_first t size ss z e =
    ap (λ (u : Responder). create_chunk u size ss 0) (sym (empty_chunk t z e))

pub write_chunk-one :
    (t : Responder) (ss : List ℕ)
    → t.chunk ≡ 0
    → IsBits ss
    → length ss ≤ 14
    → write_status_symbol_chunk (create_chunk t one_bit ss 0) one_bit ≡ write_word t (word_one ss)
unfolding write_status_symbol_chunk
write_chunk-one t ss z h l =
    let room : length ss + (14 - length ss) ≡ 14 = omega arith in
    let filled =
      clear_first t one_bit ss z _ ∙ fill-one t ss 0 0 (14 - length ss) h (omega arith) in
    let small = number-small (padded 14 ss) (padded-IsBits 14 ss h) (length-padded 14 ss l) in
    rw (filled, padded_bits ss l, typed_one _ small)
      (ap (λ (u : Responder). write_word u (word_one ss)) (empty_chunk t z 0))

pub write_chunk-two :
    (t : Responder) (ss : List ℕ)
    → t.chunk ≡ 0
    → All (λ a. a < 4) ss
    → length ss ≤ 7
    → write_status_symbol_chunk (create_chunk t two_bit ss 0) two_bit ≡ write_word t (word_two ss)
unfolding write_status_symbol_chunk
write_chunk-two t ss z h l =
    let filled =
      clear_first t two_bit ss z _
      ∙ fill-two t ss 0 0 (14 - (length ss + length ss)) h (omega arith) in
    let below = All-append (λ a. a < 4) ss (replicate (7 - length ss) 0) h (zeros-below _) in
    let long : length (pair_bits (padded 7 ss)) ≡ 14 =
      omega (arith, length-pair_bits (padded 7 ss), length-padded 7 ss l) in
    let small =
      number-small (pair_bits (padded 7 ss)) (pair_bits-IsBits (padded 7 ss) below) long in
    rw (filled, padded_pairs ss l, typed_two _ small)
      (ap (λ (u : Responder). write_word u (word_two ss)) (empty_chunk t z 0))

pub drain_chunk-half :
    (t : Responder) (size : ℕ) (ss : List ℕ) (i : ℕ)
    → drain_chunk t size ss i ≡ create_chunk t size (take ((length ss + 1 - i) / 2) ss) i
unfolding drain_chunk create_chunk
drain_chunk-half t size [] i =
    let none_left : (0 + 1 - i) / 2 ≡ 0 = omega arith in rw none_left refl
drain_chunk-half t size (s ∷ ss) i = elim (Bool-cases (ltb i (length (s ∷ ss)))) [
  | inl e ↦
      let half : (length (s ∷ ss) + 1 - i) / 2 ≡ suc ((length ss + 1 - (i + 1)) / 2) =
        ground arith in
      rw (e, half) (drain_chunk-half (create_status_symbol_chunk t size s i) size ss (i + 1))
  | inr e ↦ let half : (length (s ∷ ss) + 1 - i) / 2 ≡ 0 = ground arith in rw (e, half) refl
]
