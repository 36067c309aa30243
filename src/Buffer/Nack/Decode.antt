-- ===== src/Buffer/Nack/Decode.antt =====
-- What the NACK pairs of `pairs` ask for, read back by the rule of RFC 4585: a packet id, and the
-- ids after it whose bit in the bitmap is set.
use ion_sfu.Prelude.{
  ℕ, zero, suc, ◌+◌, ◌-◌, ◌*◌, ◌/◌, ◌%◌, ◌^◌, ◌≤◌, ◌<◌, ◌≡◌, refl, Bool, true, false, ◌||◌, List,
  [], ◌∷◌, ◌++◌, arith, ltb, leb, ◌==◌, if◌then◌else◌, length, inl, inr, Bool-cases, ap, sym, ◌∙◌,
  bit_or, lt→ltb, low16, add16, sub16,
}
use ion_sfu.Prelude.Bits.{bit_or-pow}
use native.Mathlib.Nat.{pow-suc, pow-le-pow_right}
use mathlib.Core.List.{append_assoc, append-nil}
use ion_sfu.Buffer.Nack.{
  Nack, NackQueue, NackPair, max_nack_times, PairsState, current, shl16, add_to_pair, pairs_step,
  pairs_loop, pairs_start, flush, pairs,
}
use ion_sfu.Buffer.Nack.Rounds.{too_recent, asked, no_entries}

-- The ids whose bits are set, from the lowest of `n` bits on.
unfoldable pub bits : ℕ → ℕ → ℕ → List ℕ
bits zero id mask = []
bits (suc n) id mask =
    if mask % 2 == 1 then low16 id ∷ bits n (id + 1) (mask / 2) else bits n (id + 1) (mask / 2)

abbrev pub decode : NackPair → List ℕ
decode p = p.packet_id ∷ bits 16 (p.packet_id + 1) p.lost_packets

unfoldable pub decode_all : List NackPair → List ℕ
decode_all [] = []
decode_all (p ∷ ps) = decode p ++ decode_all ps

-- The packets that a round asks for: neither given up nor too recent.
unfoldable pub asked_ids : ℕ → List Nack → List ℕ
asked_ids h [] = []
asked_ids h (n ∷ ns) =
    if leb max_nack_times n.nacked || too_recent h n
    then asked_ids h ns
    else low16 n.sn ∷ asked_ids h ns

-- The numbers rise above `lo` and stay in cycle `c`, past its first number, whose low half is 0.
abbrev pub Rising : ℕ → ℕ → List Nack → Type 0
Rising c lo [] = Unit
Rising c lo (n ∷ ns) = (lo < n.sn) × (n.sn < c * 65536 + 65536) × Rising c n.sn ns

pub bits-zero : (n id : ℕ) → bits n id 0 ≡ []
unfolding bits
bits-zero zero id = refl
bits-zero (suc n) id = bits-zero n (id + 1)

-- A bit above all the others adds its id at the end.
bits_top :
    (n k id mask : ℕ)
    → k < n
    → mask < 2 ^ k
    → bits n id (mask + 2 ^ k) ≡ bits n id mask ++ low16 (id + k) ∷ []
unfolding bits
bits_top zero k id mask h m = absurd (omega arith)
bits_top (suc n) zero id zero h m = rw (bits-zero n (id + 1)) (ap (λ k. low16 k ∷ []) (omega arith))
bits_top (suc n) zero id (suc mask) h m = absurd (omega arith)
bits_top (suc n) (suc k) id mask h m =
    let p = pow-suc 2 k in
    let half : (mask + 2 ^ suc k) / 2 ≡ mask / 2 + 2 ^ k = omega (arith, p) in
    let odd : (mask + 2 ^ suc k) % 2 ≡ mask % 2 = omega (arith, p) in
    let next : id + 1 + k ≡ id + suc k = omega arith in
    rw (half, odd, bits_top n k (id + 1) (mask / 2) (omega arith) (omega (arith, p)), next)
      (ground arith)

decode_all-append :
    (ps : List NackPair) (p : NackPair) → decode_all (ps ++ p ∷ []) ≡ decode_all ps ++ decode p
unfolding decode_all
decode_all-append [] p = append-nil (decode p)
decode_all-append (r ∷ ps) p =
    rw (decode_all-append ps p) (sym (append_assoc (decode r) (decode_all ps) (decode p)))

-- The pairs so far stand for the ids `ids`, of which `last` is the last.
data Covers (s : PairsState) (last : ℕ) (ids : List ℕ) : Type 0 where
  idle : s.packet_id ≡ 0 → s.out ≡ [] → ids ≡ [] → Covers s last ids
  open_pair :
      0 < s.packet_id
      → s.packet_id ≤ last
      → last < 65536
      → last ≤ s.packet_id + 16
      → s.lost_packets < 2 ^ (last - s.packet_id)
      → decode_all (s.out ++ current s ∷ []) ≡ ids
      → Covers s last ids

Covers-flush :
    (s : PairsState) (last : ℕ) (ids : List ℕ) → Covers s last ids → decode_all (flush s) ≡ ids
unfolding flush decode_all
Covers-flush s last ids (idle p o e) = rw (p, o) (sym e)
Covers-flush s last ids (open_pair p _ _ _ _ e) = ground arith

no_bits : (id : ℕ) → 0 < 2 ^ (id - id)
no_bits id = let e : id - id ≡ 0 = omega arith in rw e (omega arith)

-- The bit of an id within reach of the pair lies above all bits that are set.
module _ (pid last id mask : ℕ) (le : pid ≤ last) (h : last < id) (b : id < 65536)
    (near : id ≤ pid + 16) (m : mask < 2 ^ (last - pid)) where
  abbrev offset : ℕ
  offset = id - pid - 1

  mask_below : mask < 2 ^ offset
  mask_below =
      omega
        (arith, pow-le-pow_right {n = 2} (omega arith) {i = last - pid} {j = offset} (omega arith))

  shl16-offset : shl16 (sub16 (sub16 id pid) 1) ≡ 2 ^ offset
  shl16-offset =
      let e : sub16 (sub16 id pid) 1 ≡ offset = omega arith in
      rw (e, lt→ltb offset 16 (omega arith))

  mask_set : bit_or mask (shl16 (sub16 (sub16 id pid) 1)) ≡ mask + 2 ^ offset
  mask_set = rw shl16-offset (bit_or-pow offset mask mask_below)

  mask_fits : mask + 2 ^ offset < 2 ^ (id - pid)
  mask_fits =
      let e : id - pid ≡ suc offset = omega arith in
      omega (arith, ap (λ (t : ℕ). 2 ^ t) e, pow-suc 2 offset, mask_below)

  decode_set :
      decode (record { packet_id = pid; lost_packets = mask + 2 ^ offset })
      ≡ decode (record { packet_id = pid; lost_packets = mask }) ++ id ∷ []
  decode_set =
      let e : low16 (pid + 1 + offset) ≡ id = omega arith in
      rw (bits_top 16 offset (pid + 1) mask (omega arith) mask_below, e)

set_bit_decodes :
    (s : PairsState) (last : ℕ) (ids : List ℕ) (id : ℕ)
    → decode_all (s.out ++ current s ∷ []) ≡ ids
    → s.packet_id ≤ last
    → last < id
    → id < 65536
    → id ≤ s.packet_id + 16
    → s.lost_packets < 2 ^ (last - s.packet_id)
    → decode_all (
        s.out
        ++ record {
          packet_id = s.packet_id;
          lost_packets = s.lost_packets + 2 ^ (id - s.packet_id - 1);
        }
          ∷ [])
      ≡ ids ++ id ∷ []
set_bit_decodes s last ids id e le h b near m =
    rw (decode_all-append s.out _, decode_set s.packet_id last id s.lost_packets le h b near m)
      (sym (append_assoc (decode_all s.out) (decode (current s)) (id ∷ []))
        ∙ ap (λ t. t ++ id ∷ []) (sym (decode_all-append s.out (current s)) ∙ e))

add-Covers :
    (s : PairsState) (last : ℕ) (ids : List ℕ) (id : ℕ)
    → last < id
    → id < 65536
    → Covers s last ids
    → Covers (add_to_pair s id) id (ids ++ id ∷ [])
unfolding add_to_pair
add-Covers s last ids id h b (idle p o e) =
    let first : (s.packet_id == 0) ≡ true = ground arith in
    rw first (
      open_pair (omega arith) (omega arith) b (omega arith) (no_bits id)
        (rw (o, e) (unfold decode_all in rw (bits-zero 16 (id + 1)))))
add-Covers s last ids id h b (open_pair p le top near m e) =
    let opened : (s.packet_id == 0) ≡ false = ground arith in
    elim (Bool-cases (ltb (add16 s.packet_id 16) id)) [
      | inl far ↦
          rw (opened, far)
            (open_pair (omega arith) (omega arith) b (omega arith) (no_bits id) (
              decode_all-append (s.out ++ current s ∷ [])
                (record { packet_id = id; lost_packets = 0 })
              ∙ rw (e, bits-zero 16 (id + 1)) refl))
      | inr close ↦
          let near' : id ≤ s.packet_id + 16 = ground arith in
          rw (opened, close, mask_set s.packet_id last id s.lost_packets le h b near' m)
            (open_pair p (omega arith) b near'
              (mask_fits s.packet_id last id s.lost_packets le h b near' m)
              (set_bit_decodes s last ids id e le h b near' m))
    ]

-- The pairs do not depend on the queue that the loop keeps.
recast :
    (s : PairsState) (last : ℕ) (ids : List ℕ) (kept : List Nack) (kf : ℕ) (ask : Bool)
    → Covers s last ids
    → Covers (record s { kept = kept; kf_sn = kf; ask_kf = ask }) last ids
recast s last ids kept kf ask (idle p o e) = idle p o e
recast s last ids kept kf ask (open_pair p le top near m e) = open_pair p le top near m e

Rising-weaken : (c lo hi : ℕ) (ns : List Nack) → lo ≤ hi → Rising c hi ns → Rising c lo ns
Rising-weaken c lo hi [] h r = tt
Rising-weaken c lo hi (n ∷ ns) h r = (omega arith, r.1, r.2)

skip-Covers :
    (h last : ℕ) (n : Nack) (s : PairsState) (ids : List ℕ)
    → (leb max_nack_times n.nacked || too_recent h n) ≡ true
    → Covers s last ids
    → Covers (pairs_step h s n) last ids
unfolding pairs_step
skip-Covers h last n s ids skip v = elim (Bool-cases (leb max_nack_times n.nacked)) [
  | inl e ↦ rw e (elim (Bool-cases (ltb s.kf_sn n.sn)) [
    | inl k ↦ rw k (recast s last ids s.kept n.sn true v)
    | inr k ↦ rw k v
  ])
  | inr e ↦
      let r : too_recent h n ≡ true = ground arith in
      rw (e, r) (recast s last ids (s.kept ++ (n ∷ [])) s.kf_sn s.ask_kf v)
]

pub step_asked :
    (h : ℕ) (n : Nack) (s : PairsState)
    → (leb max_nack_times n.nacked || too_recent h n) ≡ false
    → pairs_step h s n ≡ add_to_pair (asked s n) (low16 n.sn)
unfolding pairs_step
step_asked h n s e = ground arith

-- What a round asks for is appended to what the pairs stand for.
loop-Covers :
    (c h last : ℕ) (ns : List Nack) (s : PairsState) (ids : List ℕ)
    → last < 65536
    → Rising c (c * 65536 + last) ns
    → Covers s last ids
    → decode_all (flush (pairs_loop h s ns)) ≡ ids ++ asked_ids h ns
unfolding pairs_loop asked_ids
loop-Covers c h last [] s ids b r v = Covers-flush s last ids v ∙ sym (append-nil ids)
loop-Covers c h last (n ∷ ns) s ids b r v =
    elim (Bool-cases (leb max_nack_times n.nacked || too_recent h n)) [
      | inl skip ↦ rw skip (
          loop-Covers c h last ns (pairs_step h s n) ids b
            (Rising-weaken c (c * 65536 + last) n.sn ns (omega arith) r.2)
            (skip-Covers h last n s ids skip v))
      | inr ask ↦
          let id = low16 n.sn in
          let low : c * 65536 + id ≡ n.sn = omega arith in
          let next = asked s n in
          rw (ask, step_asked h n s ask)
            (loop-Covers c h id ns (add_to_pair next id) (ids ++ id ∷ []) (omega arith) (rw low r.2)
                (add-Covers next last ids id (omega arith) (omega arith)
                  (recast s last ids next.kept s.kf_sn s.ask_kf v))
              ∙ append_assoc ids (id ∷ []) (asked_ids h ns))
    ]

-- When the lost packets lie in one cycle and none has the id 0, the pairs ask for exactly the
-- packets that are neither given up nor too recent, each once and in order.
pub pairs_ask :
    (q : NackQueue) (h c : ℕ)
    → Rising c (c * 65536) q.nacks
    → decode_all (pairs q h).0 ≡ asked_ids h q.nacks
unfolding pairs
pairs_ask q h c r = elim (Bool-cases (length q.nacks == 0)) [
  | inl e ↦ rw (e, no_entries q.nacks e) (unfold decode_all asked_ids in refl)
  | inr e ↦
      let from : c * 65536 + 0 ≡ c * 65536 = omega arith in
      rw e (
        loop-Covers c h 0 q.nacks (pairs_start q) [] (omega arith) (rw from r)
          (idle refl refl refl))
]
