-- ===== src/Buffer/Nack/Tests.antt =====
-- The NACK queue on concrete losses.
use ion_sfu.Prelude.{ℕ, zero, suc, ◌≡◌, true, [], ◌∷◌, arith, replicate}
use ion_sfu.Buffer.Nack.{Nack, NackQueue, push, remove, pairs}
use ion_sfu.Buffer.Nack.Order.{IsSorted, IsSortedFrom}
use ion_sfu.Buffer.Nack.Queue.{push_refines, remove_refines, contains, insert, erase}
use ion_sfu.Buffer.Nack.Contents.{AllBelow}
use ion_sfu.Buffer.Nack.Rounds.{pairs_rounds, survivors, given_up}
use ion_sfu.Buffer.Nack.Decode.{pairs_ask, decode_all, asked_ids}
use ion_sfu.Buffer.Nack.Valid.{operations_keep-IsValid, IsValid}

abbrev entry : ℕ → ℕ → Nack
entry sn nacked = record { sn = sn; nacked = nacked }

abbrev lost : NackQueue
lost = record { nacks = entry 10 0 ∷ entry 12 1 ∷ entry 40 3 ∷ []; kf_sn = 0 }

-- 99 losses, one more than the limit leaves room for.
abbrev many : NackQueue
many = record { nacks = replicate 99 (entry 5 0); kf_sn = 0 }

lost-IsSorted : IsSorted lost.nacks
lost-IsSorted = (omega arith, (omega arith, (omega arith, tt)))

lost-IsValid : IsValid lost
lost-IsValid = record {
  sorted = lost-IsSorted;
  thrice = (omega arith, (omega arith, (omega arith, tt)));
}

push_refines_example :
    push lost 11 ≡ record lost { nacks = entry 10 0 ∷ entry 11 0 ∷ entry 12 1 ∷ entry 40 3 ∷ [] }
unfolding contains insert
push_refines_example = push_refines lost 11 lost-IsSorted

remove_refines_example : remove lost 12 ≡ record lost { nacks = entry 10 0 ∷ entry 40 3 ∷ [] }
unfolding erase
remove_refines_example = remove_refines lost 12 lost-IsSorted

pairs_rounds_example :
    let (_, ask, q) = pairs lost 50 in
    (q.nacks ≡ entry 10 1 ∷ entry 12 2 ∷ []) × (q.kf_sn ≡ 40) × (ask ≡ true)
unfolding survivors given_up
pairs_rounds_example = pairs_rounds lost 50

pairs_ask_example : decode_all (pairs lost 50).0 ≡ 10 ∷ 12 ∷ []
unfolding asked_ids
pairs_ask_example =
    pairs_ask lost 50 0
      (omega arith, omega arith, (omega arith, omega arith, (omega arith, omega arith, tt)))

operations_keep-IsValid_example :
    IsValid (push lost 11) × IsValid (remove lost 11) × IsValid (pairs lost 50).2
operations_keep-IsValid_example = operations_keep-IsValid lost 11 50 lost-IsValid

repeated-AllBelow : (k : ℕ) → AllBelow 6 (replicate k (entry 5 0))
repeated-AllBelow zero = tt
repeated-AllBelow (suc k) = (omega arith, repeated-AllBelow k)

repeated-IsSorted : (k : ℕ) → IsSortedFrom 5 (replicate k (entry 5 0))
repeated-IsSorted zero = tt
repeated-IsSorted (suc k) = (omega arith, repeated-IsSorted k)

many-IsSorted : IsSorted many.nacks
many-IsSorted = (omega arith, repeated-IsSorted 98)
