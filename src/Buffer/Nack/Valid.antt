-- ===== src/Buffer/Nack/Valid.antt =====
-- The invariant of the NACK queue, and that every operation keeps it.
use ion_sfu.Prelude.{
  ℕ, zero, suc, ◌-◌, ◌≤◌, List, [], ◌∷◌, arith, ltb, leb, ◌==◌, if◌then◌else◌, inl, inr, Bool-cases,
  All, All-append, length, drop,
}
use ion_sfu.Buffer.Nack.{Nack, NackQueue, max_nack_times, push, remove, pairs, shift_down}
use ion_sfu.Buffer.Nack.Order.{IsSorted, IsSortedFrom}
use ion_sfu.Buffer.Nack.Queue.{contains, insert, erase, trim, push_inserts, remove_refines}
use ion_sfu.Buffer.Nack.Contents.{IsSorted-preserved, weaken}
use ion_sfu.Buffer.Nack.Rounds.{survivors, too_recent, pairs_rounds}

abbrev pub AskedAtMostThrice : List Nack → Type 0
AskedAtMostThrice = All (λ n. n.nacked ≤ max_nack_times)

-- Sorted, and no packet was asked for more than three times.
pub record IsValid (q : NackQueue) : Type 0 where
  pub sorted : IsSorted q.nacks
  pub thrice : AskedAtMostThrice q.nacks

insert_thrice : (x : ℕ) (ns : List Nack) → AskedAtMostThrice ns → AskedAtMostThrice (insert x ns)
unfolding insert
insert_thrice x [] a = (omega arith, tt)
insert_thrice x (n ∷ ns) a = elim (Bool-cases (ltb n.sn x)) [
  | inl e ↦ rw e (a.0, insert_thrice x ns a.1)
  | inr e ↦ rw e (omega arith, a)
]

erase_thrice : (x : ℕ) (ns : List Nack) → AskedAtMostThrice ns → AskedAtMostThrice (erase x ns)
unfolding erase
erase_thrice x [] a = tt
erase_thrice x (n ∷ ns) a = elim (Bool-cases (n.sn == x)) [
  | inl e ↦ rw e a.1
  | inr e ↦ rw e (a.0, erase_thrice x ns a.1)
]

drop_thrice : (k : ℕ) (ns : List Nack) → AskedAtMostThrice ns → AskedAtMostThrice (drop k ns)
drop_thrice zero ns a = a
drop_thrice (suc k) [] a = tt
drop_thrice (suc k) (n ∷ ns) a = drop_thrice k ns a.1

trim_thrice : (ns : List Nack) → AskedAtMostThrice ns → AskedAtMostThrice (trim ns)
unfolding shift_down
trim_thrice ns a = elim (Bool-cases (leb 100 (length ns))) [
  | inl e ↦
      rw e (All-append _ (drop 1 ns) _ (drop_thrice 1 ns a) (drop_thrice (length ns - 1) ns a))
  | inr e ↦ rw e a
]

survivors_thrice :
    (h : ℕ) (ns : List Nack) → AskedAtMostThrice ns → AskedAtMostThrice (survivors h ns)
unfolding survivors
survivors_thrice h [] a = tt
survivors_thrice h (n ∷ ns) a = elim (Bool-cases (leb max_nack_times n.nacked)) [
  | inl e ↦ rw e (survivors_thrice h ns a.1)
  | inr e ↦ rw e (elim (Bool-cases (too_recent h n)) [
    | inl r ↦ rw r (a.0, survivors_thrice h ns a.1)
    | inr r ↦ rw r (ground arith, survivors_thrice h ns a.1)
  ])
]

survivors-IsSortedFrom :
    (h lo : ℕ) (ns : List Nack) → IsSortedFrom lo ns → IsSortedFrom lo (survivors h ns)
unfolding survivors
survivors-IsSortedFrom h lo [] s = tt
survivors-IsSortedFrom h lo (n ∷ ns) s = elim (Bool-cases (leb max_nack_times n.nacked)) [
  | inl e ↦ rw e (survivors-IsSortedFrom h lo ns (weaken lo n.sn ns s.0 s.1))
  | inr e ↦ rw e (elim (Bool-cases (too_recent h n)) [
    | inl r ↦ rw r (s.0, survivors-IsSortedFrom h n.sn ns s.1)
    | inr r ↦ rw r (s.0, survivors-IsSortedFrom h n.sn ns s.1)
  ])
]

-- A push, a remove and a round of pairs each keep the queue sorted and no packet asked for more
-- than three times.
pub operations_keep-IsValid :
    (q : NackQueue) (x h : ℕ)
    → IsValid q
    → IsValid (push q x) × IsValid (remove q x) × IsValid (pairs q h).2
operations_keep-IsValid q x h v =
    let keep = IsSorted-preserved q x v.sorted in
    let round = (pairs_rounds q h).0 in
    (
      record { sorted = keep.0; thrice = rw (push_inserts q x v.sorted) pushed },
      record {
        sorted = keep.1;
        thrice = rw (remove_refines q x v.sorted) (erase_thrice x q.nacks v.thrice);
      },
      record {
        sorted = rw round (survivors-IsSortedFrom h 0 q.nacks v.sorted);
        thrice = rw round (survivors_thrice h q.nacks v.thrice);
      },
    )
  where
    pushed :
        AskedAtMostThrice
          (if contains x q.nacks then q else record q { nacks = trim (insert x q.nacks) }).nacks
    pushed = elim (Bool-cases (contains x q.nacks)) [
      | inl e ↦ rw e v.thrice
      | inr e ↦ rw e (trim_thrice (insert x q.nacks) (insert_thrice x q.nacks v.thrice))
    ]
