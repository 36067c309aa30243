-- ===== src/Buffer/Nack/Wrap.antt =====
-- Lost packets on both sides of a wrap of the 16-bit sequence number, and packets with the id 0.
use ion_sfu.Prelude.{
  ℕ, ◌+◌, ◌≤◌, ◌<◌, ◌≡◌, refl, true, false, ◌||◌, [], ◌∷◌, arith, ltb, leb, ◌==◌, ap, low16, add16,
  sub16, bit_or,
}
use ion_sfu.Buffer.Nack.{
  Nack, NackQueue, max_nack_times, PairsState, shl16, add_to_pair, pairs_step, pairs_loop,
  pairs_start, flush, pairs,
}
use ion_sfu.Buffer.Nack.Rounds.{too_recent, asked}
use ion_sfu.Buffer.Nack.Decode.{asked_ids, decode_all, step_asked, bits-zero}

-- The packet is asked for in this round.
abbrev pub IsAsked : ℕ → Nack → Type 0
IsAsked h n = (leb max_nack_times n.nacked || too_recent h n) ≡ false

add_to_pair-first :
    (s : PairsState) (id : ℕ)
    → s.packet_id ≡ 0
    → add_to_pair s id ≡ record s { packet_id = id; lost_packets = 0 }
unfolding add_to_pair
add_to_pair-first s id h = let e : (s.packet_id == 0) ≡ true = ground arith in rw e refl

-- An id far behind the pair's shifts its bit out of the bitmap.
add_to_pair_behind :
    (s : PairsState) (id : ℕ)
    → 0 < s.packet_id
    → s.packet_id + 16 < 65536
    → id ≤ s.packet_id
    → s.packet_id + 16 < id + 65536
    → s.lost_packets ≡ 0
    → add_to_pair s id ≡ s
unfolding add_to_pair
add_to_pair_behind s id p fit behind far z =
    let opened : (s.packet_id == 0) ≡ false = ground arith in
    let close : ltb (add16 s.packet_id 16) id ≡ false = ground arith in
    let shifted_out : shl16 (sub16 (sub16 id s.packet_id) 1) ≡ 0 = ground arith in
    let same : bit_or s.lost_packets 0 ≡ s.lost_packets = rw z refl in
    rw (opened, close, shifted_out) (ap (λ t. record s { lost_packets = t }) same)

-- Two lost packets on both sides of a wrap, the second more than 16 after the first in the extended
-- numbering: both are counted as asked for, and the pairs name only the first.
pub pairs_miss_wrapped :
    (h kf : ℕ) (n m : Nack)
    → IsAsked h n
    → IsAsked h m
    → 0 < low16 n.sn
    → low16 n.sn + 16 < 65536
    → low16 m.sn ≤ low16 n.sn
    → low16 n.sn + 16 < low16 m.sn + 65536
    → let q : NackQueue = record { nacks = n ∷ m ∷ []; kf_sn = kf } in
      (decode_all (pairs q h).0 ≡ low16 n.sn ∷ [])
      × (asked_ids h q.nacks ≡ low16 n.sn ∷ low16 m.sn ∷ [])
unfolding pairs pairs_loop
pairs_miss_wrapped h kf n m an am p fit behind far = (decoded, unfold asked_ids in rw (an, am) refl)
  where
    start : PairsState
    start = pairs_start (record { nacks = n ∷ m ∷ []; kf_sn = kf })

    -- The pair that the first packet opens.
    opened : PairsState
    opened = record (asked start n) { packet_id = low16 n.sn; lost_packets = 0 }

    first : pairs_step h start n ≡ opened
    first = rw (step_asked h n start an) (add_to_pair-first (asked start n) (low16 n.sn) refl)

    second : pairs_step h opened m ≡ asked opened m
    second =
        rw (step_asked h m opened am)
          (add_to_pair_behind (asked opened m) (low16 m.sn) p fit behind far refl)

    set' : (low16 n.sn == 0) ≡ false
    set' = ground arith

    decoded : decode_all (flush (pairs_step h (pairs_step h start n) m)) ≡ low16 n.sn ∷ []
    decoded =
        rw (first, second) (unfold flush decode_all in rw (set', bits-zero 16 (low16 n.sn + 1)))

-- A lost packet whose id is 0 opens no pair: alone in the queue it is counted and not asked for.
pub pairs_miss_zero :
    (h kf : ℕ) (n : Nack)
    → IsAsked h n
    → low16 n.sn ≡ 0
    → let q : NackQueue = record { nacks = n ∷ []; kf_sn = kf } in
      ((pairs q h).0 ≡ []) × (asked_ids h q.nacks ≡ 0 ∷ [])
unfolding pairs pairs_loop asked_ids
pairs_miss_zero h kf n an z =
    let s = pairs_start (record { nacks = n ∷ []; kf_sn = kf }) in
    (
      rw (step_asked h n s an, add_to_pair-first (asked s n) (low16 n.sn) refl)
          (unfold flush in rw z),
      rw (an, z),
    )
