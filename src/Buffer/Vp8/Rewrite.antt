-- ===== src/Buffer/Vp8/Rewrite.antt =====
-- Reading a descriptor after it was rewritten.
use ion_sfu.Prelude.{
  ℕ, zero, suc, ◌+◌, ◌%◌, ◌≤◌, ◌<◌, ◌≡◌, refl, Bool, true, false, ◌&&◌, ◌||◌, List, ◌∷◌, none, some,
  ltb, leb, ◌==◌, length, be16, hi_byte, lo_byte, bit_or, arith, inl, inr, Bool-cases, ge→ltb,
}
use ion_sfu.Buffer.Vp8.{
  Vp8, zero_vp8, Parsed, bit, at, unmarshal, modify_vp8_temporal_payload, read_tid,
  read_tl0_pic_idx, read_picture_id, read_extended, read_end, read_key_frame,
}

-- The indices that rewriting writes to are in range.
pub record InRange (payload : List ℕ) (p : Vp8) : Type 0 where
  pub pic_id_in : p.pic_id_idx < length payload
  pub second_in : p.m_bit ≡ true → p.pic_id_idx + 1 < length payload
  pub tlz_in : p.tlz_idx < length payload

-- What a successful parse promises.
abbrev pub ParsedInRange : List ℕ → Parsed → Type 0
ParsedInRange payload (none, p) = InRange payload p
ParsedInRange payload (some e, p) = Unit

module _ (payload : List ℕ) (s k l : Bool) where
  key_frame-InRange :
      (p : Vp8) (idx : ℕ)
      → InRange payload p
      → ParsedInRange payload (read_key_frame p payload idx s)
  unfolding read_key_frame
  key_frame-InRange p idx v = elim (Bool-cases (ltb (length payload) (idx + 1))) [
    | inl e ↦ rw e tt
    | inr e ↦ rw e (record { pic_id_in = v.pic_id_in; second_in = v.second_in; tlz_in = v.tlz_in })
  ]

  end-InRange :
      (p : Vp8) (idx : ℕ) → InRange payload p → ParsedInRange payload (read_end p payload idx s)
  unfolding read_end
  end-InRange p idx v = elim (Bool-cases (leb (length payload) idx)) [
    | inl e ↦ rw e tt
    | inr e ↦ rw e (key_frame-InRange p (idx + 1) v)
  ]

  tid-InRange :
      (p : Vp8) (idx : ℕ) → InRange payload p → ParsedInRange payload (read_tid p payload idx s k)
  unfolding read_tid
  tid-InRange p idx v = elim (Bool-cases (p.temporal_supported || k)) [
    | inl t ↦ rw t (elim (Bool-cases (ltb (length payload) (idx + 1 + 1))) [
      | inl e ↦ rw e tt
      | inr e ↦ rw e (
          end-InRange _ (idx + 1)
            (record { pic_id_in = v.pic_id_in; second_in = v.second_in; tlz_in = v.tlz_in }))
    ])
    | inr t ↦ rw t (end-InRange p idx v)
  ]

  tl0-InRange :
      (p : Vp8) (idx : ℕ)
      → InRange payload p
      → ParsedInRange payload (read_tl0_pic_idx p payload idx s k l)
  unfolding read_tl0_pic_idx
  tl0-InRange p idx v = elim (Bool-cases l) [
    | inl t ↦ rw t (elim (Bool-cases (ltb (length payload) (idx + 1 + 1))) [
      | inl e ↦ rw e tt
      | inr e ↦ rw e (
          tid-InRange _ (idx + 1)
            (record { pic_id_in = v.pic_id_in; second_in = v.second_in; tlz_in = ground arith }))
    ])
    | inr t ↦ rw t (tid-InRange p idx v)
  ]

  picture_id-InRange :
      (p : Vp8) (idx : ℕ)
      → idx < length payload
      → p.tlz_idx < length payload
      → p.m_bit ≡ false
      → ParsedInRange payload (read_picture_id p payload idx s k l)
  unfolding read_picture_id
  picture_id-InRange p idx h z m = elim (Bool-cases (bit 7 (at payload idx))) [
    | inl t ↦ rw t (elim (Bool-cases (ltb (length payload) (idx + 1 + 1))) [
      | inl e ↦ rw e tt
      | inr e ↦ rw e (
          tl0-InRange _ (idx + 1)
            (record { pic_id_in = h; second_in = λ _. ground arith; tlz_in = z }))
    ])
    | inr t ↦
        rw t
          (tl0-InRange _ idx (record { pic_id_in = h; second_in = λ b. ground arith; tlz_in = z }))
  ]

extended-InRange :
    (payload : List ℕ) (s : Bool)
    → 1 < length payload
    → ParsedInRange payload (read_extended zero_vp8 payload s)
unfolding read_extended
extended-InRange payload s h = elim (Bool-cases (bit 7 (at payload 1))) [
  | inl t ↦ rw t (elim (Bool-cases (ltb (length payload) 3)) [
    | inl e ↦ rw e tt
    | inr e ↦ rw e (picture_id-InRange payload s _ _ _ 2 (ground arith) (omega arith) refl)
  ])
  | inr t ↦ rw t (
      tl0-InRange payload s _ _ _ 1
        (record { pic_id_in = omega arith; second_in = λ b. ground arith; tlz_in = omega arith }))
]

-- The indices that a successful parse leaves are in range, so that `modifyVP8TemporalPayload` on the
-- same payload writes inside it.
pub unmarshal-InRange :
    (payload : List ℕ) → ParsedInRange payload (unmarshal zero_vp8 (some payload))
unfolding unmarshal
unmarshal-InRange payload = elim (Bool-cases (ltb (length payload) 1)) [
  | inl e ↦ rw e tt
  | inr e ↦ rw e (elim (Bool-cases (bit 7 (at payload 0))) [
    | inl x ↦ rw x (elim (Bool-cases (ltb (length payload) 2)) [
      | inl f ↦ rw f tt
      | inr f ↦ rw f (extended-InRange payload _ (ground arith))
    ])
    | inr x ↦ rw x (
        key_frame-InRange payload _ true true zero_vp8 1 (record {
          pic_id_in = ground arith;
          second_in = λ b. ground arith;
          tlz_in = ground arith;
        }))
  ])
]

-- A descriptor with a 15-bit picture id and a TL0PICIDX.
abbrev pub full_descriptor : ℕ → ℕ → ℕ → ℕ → ℕ → List ℕ → List ℕ
full_descriptor x flags hi lo tl0 rest = x ∷ flags ∷ hi ∷ lo ∷ tl0 ∷ rest

full-parse :
    (x flags hi lo tl0 : ℕ) (rest : List ℕ)
    → bit 7 x ≡ true
    → bit 7 flags ≡ true
    → bit 6 flags ≡ true
    → bit 7 hi ≡ true
    → unmarshal zero_vp8 (some (full_descriptor x flags hi lo tl0 rest))
      ≡ read_tid
          (record zero_vp8 {
            temporal_supported = bit 5 flags;
            pic_id_idx = 2;
            m_bit = true;
            picture_id = be16 (hi % 128) lo;
            tlz_idx = 4;
            tl0_pic_idx = tl0;
          })
          (full_descriptor x flags hi lo tl0 rest)
          4
          (bit 4 x)
          (bit 4 flags)
unfolding unmarshal read_extended read_picture_id read_tl0_pic_idx
full-parse x flags hi lo tl0 rest a b c d =
    let long = λ (k : ℕ) (h : k ≤ 5). ge→ltb (5 + length rest) k (omega arith) in
    let five : suc (suc (suc (suc (suc (length rest))))) ≡ 5 + length rest = omega arith in
    rw
      (
        five,
        long 1 (omega arith),
        a,
        long 2 (omega arith),
        b,
        long 3 (omega arith),
        d,
        long 4 (omega arith),
        c,
        long 5 (omega arith),
      )
      refl

-- Whether a test holds of every byte value up to a number, found by trying them all.
tried : (ℕ → Bool) → ℕ → Bool
tried test zero = test 0
tried test (suc n) = test (suc n) && tried test n

tried-holds : (test : ℕ → Bool) (n b : ℕ) → b ≤ n → tried test n ≡ true → test b ≡ true
unfolding tried
tried-holds test zero zero le all = all
tried-holds test zero (suc b) le all = absurd (omega arith)
tried-holds test (suc n) b le all = elim (Bool-cases (b == suc n)) [
  | inl e ↦ let same : b ≡ suc n = ground arith in rw same (ground arith)
  | inr e ↦ tried-holds test n b (ground arith) (ground arith)
]

all_bytes : tried (λ b. bit_or b 128 == b % 128 + 128) 255 ≡ true
unfolding tried
all_bytes = refl

high_bit : (b : ℕ) → b < 256 → bit_or b 128 ≡ b % 128 + 128
high_bit b h =
    let e = tried-holds (λ b. bit_or b 128 == b % 128 + 128) 255 b (omega arith) all_bytes in
    ground arith

-- What lies behind the TL0PICIDX is read the same way whatever the ids are.
tid-ids :
    (p : Vp8) (x flags hi lo tl0 hi' lo' tl0' pic : ℕ) (rest : List ℕ) (s k : Bool)
    → let (e, q) = read_tid p (full_descriptor x flags hi lo tl0 rest) 4 s k in
      read_tid
        (record p { picture_id = pic; tl0_pic_idx = tl0' })
        (full_descriptor x flags hi' lo' tl0' rest)
        4
        s
        k
      ≡ (e, record q { picture_id = pic; tl0_pic_idx = tl0' })
unfolding read_tid read_end read_key_frame
tid-ids p x flags hi lo tl0 hi' lo' tl0' pic rest s k = ground arith

-- `read_tid` leaves what `modifyVP8TemporalPayload` takes.
tid-indices :
    (p : Vp8) (payload : List ℕ) (idx : ℕ) (s k : Bool)
    → let (e, q) = read_tid p payload idx s k in
      (q.pic_id_idx ≡ p.pic_id_idx) × (q.tlz_idx ≡ p.tlz_idx) × (q.m_bit ≡ p.m_bit)
unfolding read_tid read_end read_key_frame
tid-indices p payload idx s k = ground arith

rewritten :
    (x flags hi lo tl0 pic tlz : ℕ) (rest : List ℕ) (i z : ℕ) (m : Bool)
    → (i ≡ 2) × (z ≡ 4) × (m ≡ true)
    → modify_vp8_temporal_payload (full_descriptor x flags hi lo tl0 rest) i z pic tlz m
      ≡ full_descriptor x flags (hi_byte pic % 128 + 128) (lo_byte pic) tlz rest
unfolding modify_vp8_temporal_payload
rewritten x flags hi lo tl0 pic tlz rest i z m (hi2, hz, hm) =
    rw (hi2, hz, hm, high_bit (hi_byte pic) (omega arith)) refl

new_id : (pic : ℕ) → be16 ((hi_byte pic % 128 + 128) % 128) (lo_byte pic) ≡ pic % 32768
new_id pic = omega arith

-- Rewriting a descriptor that has a 15-bit picture id and a TL0PICIDX changes just these two for a
-- reader: the id to the new one's lower 15 bits, TL0PICIDX to the new one.
pub rewrite_round_trip :
    (x flags hi lo tl0 pic tlz : ℕ) (rest : List ℕ)
    → bit 7 x ≡ true
    → bit 7 flags ≡ true
    → bit 6 flags ≡ true
    → bit 7 hi ≡ true
    → let payload = full_descriptor x flags hi lo tl0 rest in
      let (e, p) = unmarshal zero_vp8 (some payload) in
      unmarshal zero_vp8
        (some (modify_vp8_temporal_payload payload p.pic_id_idx p.tlz_idx pic tlz p.m_bit))
      ≡ (e, record p { picture_id = pic % 32768; tl0_pic_idx = tlz })
rewrite_round_trip x flags hi lo tl0 pic tlz rest a b c d =
    let e = full-parse x flags hi lo tl0 rest a b c d in
    let new =
      full-parse x flags (hi_byte pic % 128 + 128) (lo_byte pic) tlz rest a b c (ground arith) in
    let kept =
      tid-indices
        (record zero_vp8 {
          temporal_supported = bit 5 flags;
          pic_id_idx = 2;
          m_bit = true;
          picture_id = be16 (hi % 128) lo;
          tlz_idx = 4;
          tl0_pic_idx = tl0;
        })
        (full_descriptor x flags hi lo tl0 rest) 4 (bit 4 x) (bit 4 flags) in
    rw (e, rewritten x flags hi lo tl0 pic tlz rest _ _ _ kept, new, new_id pic)
      (tid-ids _ x flags hi lo tl0 (hi_byte pic % 128 + 128) (lo_byte pic) tlz (pic % 32768) rest _
        _)
