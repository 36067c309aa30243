-- ===== src/Buffer/Nack/Contents.antt =====
-- Which numbers the NACK queue holds after a push or a remove, in what order, and how many.
use ion_sfu.Prelude.{
  ℕ, suc, ◌+◌, ◌-◌, ◌≤◌, ◌<◌, ◌≡◌, refl, true, false, not, ◌&&◌, ◌||◌, List, [], ◌∷◌, ◌++◌, arith,
  ltb, leb, ◌==◌, if◌then◌else◌, length, drop, inl, inr, Bool-cases, ap, sym, ◌∙◌, All, lt→ltb,
  le→leb, length-append,
}
use mathlib.Core.Path.{subst}
use mathlib.Core.List.{append_assoc}
use ion_sfu.Buffer.Nack.{Nack, NackQueue, remove, push, shift_down, max_nack_cache}
use ion_sfu.Buffer.Nack.Order.{IsSortedFrom, IsSorted}
use ion_sfu.Buffer.Nack.Queue.{
  fresh, contains, contains_below, insert, erase, trim, push_inserts, remove_refines,
}

insert-IsSortedFrom :
    (x lo : ℕ) (ns : List Nack) → lo ≤ x → IsSortedFrom lo ns → IsSortedFrom lo (insert x ns)
unfolding insert
insert-IsSortedFrom x lo [] h s = (h, tt)
insert-IsSortedFrom x lo (n ∷ ns) h s = elim (Bool-cases (ltb n.sn x)) [
  | inl e ↦ rw e (s.0, insert-IsSortedFrom x n.sn ns (ground arith) s.1)
  | inr e ↦ rw e (h, (ground arith, s.1))
]

pub weaken : (lo hi : ℕ) (ns : List Nack) → lo ≤ hi → IsSortedFrom hi ns → IsSortedFrom lo ns
weaken lo hi [] h s = tt
weaken lo hi (n ∷ ns) h s = (omega arith, s.1)

erase-IsSortedFrom : (x lo : ℕ) (ns : List Nack) → IsSortedFrom lo ns → IsSortedFrom lo (erase x ns)
unfolding erase
erase-IsSortedFrom x lo [] s = tt
erase-IsSortedFrom x lo (n ∷ ns) s = elim (Bool-cases (n.sn == x)) [
  | inl e ↦ rw e (weaken lo n.sn ns s.0 s.1)
  | inr e ↦ rw e (s.0, erase-IsSortedFrom x n.sn ns s.1)
]

-- The last element, as a list.
abbrev last_part : List Nack → List Nack
last_part ns = drop (length ns - 1) ns

last_part-cons : (n m : Nack) (ns : List Nack) → last_part (n ∷ m ∷ ns) ≡ last_part (m ∷ ns)
last_part-cons n m ns =
    let e : suc (suc (length ns)) - 1 ≡ suc (suc (length ns) - 1) = omega arith in
    ap (λ k. drop k (n ∷ m ∷ ns)) e

shift_down-cons :
    (n m : Nack) (ns : List Nack) → shift_down (n ∷ m ∷ ns) ≡ (m ∷ ns) ++ last_part (m ∷ ns)
unfolding shift_down
shift_down-cons n m ns = ap (λ t. (m ∷ ns) ++ t) (last_part-cons n m ns)

repeat_last-IsSortedFrom :
    (lo : ℕ) (ns : List Nack) → IsSortedFrom lo ns → IsSortedFrom lo (ns ++ last_part ns)
repeat_last-IsSortedFrom lo [] s = tt
repeat_last-IsSortedFrom lo (n ∷ []) s = (s.0, (omega arith, tt))
repeat_last-IsSortedFrom lo (n ∷ m ∷ ns) s =
    rw (last_part-cons n m ns) (s.0, repeat_last-IsSortedFrom n.sn (m ∷ ns) s.1)

shift_down-IsSortedFrom :
    (lo : ℕ) (ns : List Nack) → IsSortedFrom lo ns → IsSortedFrom lo (shift_down ns)
unfolding shift_down
shift_down-IsSortedFrom lo [] s = tt
shift_down-IsSortedFrom lo (n ∷ []) s = s
shift_down-IsSortedFrom lo (n ∷ m ∷ ns) s =
    subst (IsSortedFrom lo) (sym (shift_down-cons n m ns))
      (repeat_last-IsSortedFrom lo (m ∷ ns) (weaken lo n.sn (m ∷ ns) s.0 s.1))

-- A push keeps the queue sorted, at the cache limit too, and so does a remove.
pub IsSorted-preserved :
    (q : NackQueue) (x : ℕ)
    → IsSorted q.nacks
    → IsSorted (push q x).nacks × IsSorted (remove q x).nacks
IsSorted-preserved q x s =
    (rw (push_inserts q x s) pushed, rw (remove_refines q x s) (erase-IsSortedFrom x 0 q.nacks s))
  where
    grown : IsSorted (insert x q.nacks)
    grown = insert-IsSortedFrom x 0 q.nacks (omega arith) s

    trimmed : IsSorted (trim (insert x q.nacks))
    trimmed = elim (Bool-cases (leb max_nack_cache (length (insert x q.nacks)))) [
      | inl e ↦ rw e (shift_down-IsSortedFrom 0 (insert x q.nacks) grown)
      | inr e ↦ rw e grown
    ]

    pushed :
        IsSorted
          (if contains x q.nacks then q else record q { nacks = trim (insert x q.nacks) }).nacks
    pushed = elim (Bool-cases (contains x q.nacks)) [ inl e ↦ rw e s | inr e ↦ rw e trimmed ]

length-insert : (x : ℕ) (ns : List Nack) → length (insert x ns) ≡ length ns + 1
unfolding insert
length-insert x [] = omega arith
length-insert x (n ∷ ns) = ground (arith, length-insert x ns)

length-last_part : (n : Nack) (ns : List Nack) → length (last_part (n ∷ ns)) ≡ 1
length-last_part n [] = refl
length-last_part n (m ∷ ns) = rw (last_part-cons n m ns) (length-last_part m ns)

length-shift_down : (ns : List Nack) → length (shift_down ns) ≡ length ns
unfolding shift_down
length-shift_down [] = refl
length-shift_down (n ∷ []) = refl
length-shift_down (n ∷ m ∷ ns) =
    ap length (shift_down-cons n m ns)
    ∙ (omega (arith, length-append {0} (m ∷ ns) (last_part (m ∷ ns)), length-last_part m ns))

-- A push of a number that is not queued makes the queue one longer, however long it is: the copy
-- at the cache limit overwrites the lowest number and shortens nothing.
pub length-push :
    (q : NackQueue) (x : ℕ)
    → IsSorted q.nacks
    → contains x q.nacks ≡ false
    → length (push q x).nacks ≡ length q.nacks + 1
length-push q x s h =
    rw (push_inserts q x s, h)
      (ground (arith, length-insert x q.nacks, length-shift_down (insert x q.nacks)))

contains-append :
    (y : ℕ) (ns ms : List Nack) → contains y (ns ++ ms) ≡ (contains y ns || contains y ms)
unfolding contains
contains-append y [] ms = refl
contains-append y (n ∷ ns) ms = ground (arith, contains-append y ns ms)

contains-repeat_last : (y : ℕ) (ns : List Nack) → contains y (ns ++ last_part ns) ≡ contains y ns
unfolding contains
contains-repeat_last y [] = refl
contains-repeat_last y (n ∷ []) = ground arith
contains-repeat_last y (n ∷ m ∷ ns) =
    rw (last_part-cons n m ns) (ground (arith, contains-repeat_last y (m ∷ ns)))

contains-shift_down :
    (y : ℕ) (ns : List Nack) → 2 ≤ length ns → contains y (shift_down ns) ≡ contains y (drop 1 ns)
contains-shift_down y [] h = absurd (omega arith)
contains-shift_down y (n ∷ []) h = absurd (omega arith)
contains-shift_down y (n ∷ m ∷ ns) h = rw (shift_down-cons n m ns) (contains-repeat_last y (m ∷ ns))

contains-insert :
    (x y : ℕ) (ns : List Nack) → contains y (insert x ns) ≡ ((x == y) || contains y ns)
unfolding insert contains
contains-insert x y [] = refl
contains-insert x y (n ∷ ns) = ground (arith, contains-insert x y ns)

-- What a push leaves in a sorted queue: the numbers that were there and the new one, and from 99
-- numbers on without the lowest.
pub contains-push :
    (q : NackQueue) (x y : ℕ)
    → IsSorted q.nacks
    → contains x q.nacks ≡ false
    → contains y (push q x).nacks ≡ (
        if leb 99 (length q.nacks)
        then contains y (drop 1 (insert x q.nacks))
        else (x == y) || contains y q.nacks)
contains-push q x y s h =
    rw (push_inserts q x s, h)
      (ground (
        arith,
        length-insert x q.nacks,
        contains-shift_down y (insert x q.nacks),
        contains-insert x y q.nacks,
      ))

-- The sequence numbers rise.
abbrev pub IsStrictFrom : ℕ → List Nack → Type 0
IsStrictFrom lo [] = Unit
IsStrictFrom lo (n ∷ ns) = (lo ≤ n.sn) × IsStrictFrom (n.sn + 1) ns

pub IsStrictFrom-IsSortedFrom : (lo : ℕ) (ns : List Nack) → IsStrictFrom lo ns → IsSortedFrom lo ns
IsStrictFrom-IsSortedFrom lo [] s = tt
IsStrictFrom-IsSortedFrom lo (n ∷ ns) s =
    (s.0, weaken n.sn (n.sn + 1) ns (omega arith) (IsStrictFrom-IsSortedFrom (n.sn + 1) ns s.1))

contains-erase :
    (x y lo : ℕ) (ns : List Nack)
    → IsStrictFrom lo ns
    → contains y (erase x ns) ≡ (not (x == y) && contains y ns)
unfolding erase contains
contains-erase x y lo [] s = ground arith
contains-erase x y lo (n ∷ ns) s =
    let sorted = IsStrictFrom-IsSortedFrom (n.sn + 1) ns s.1 in
    elim (Bool-cases (n.sn == x)) [
      | inl e ↦ rw e (ground (arith, contains_below y (n.sn + 1) ns sorted))
      | inr e ↦ rw e (ground (arith, contains-erase x y (n.sn + 1) ns s.1))
    ]

-- After a remove from a queue without repeated numbers the number is gone and the others are there.
pub contains-remove :
    (q : NackQueue) (x y : ℕ)
    → IsStrictFrom 0 q.nacks
    → contains y (remove q x).nacks ≡ (not (x == y) && contains y q.nacks)
contains-remove q x y s =
    rw (remove_refines q x (IsStrictFrom-IsSortedFrom 0 q.nacks s)) (contains-erase x y 0 q.nacks s)

erase_one_of_two :
    (x : ℕ) (ns : List Nack) → contains x (erase x (ns ++ fresh x ∷ fresh x ∷ [])) ≡ true
unfolding erase contains
erase_one_of_two x [] = elim (Bool-cases (x == x)) [ inl e ↦ rw (e, e) refl | inr e ↦ ground arith ]
erase_one_of_two x (n ∷ ns) = elim (Bool-cases (n.sn == x)) [
  | inl e ↦ rw e (ground (arith, contains-append x ns (fresh x ∷ fresh x ∷ [])))
  | inr e ↦ rw e (ground (arith, erase_one_of_two x ns))
]

-- All numbers are below `x`.
abbrev pub AllBelow : ℕ → List Nack → Type 0
AllBelow x ns = All (λ n. n.sn < x) ns

insert_above : (x : ℕ) (ns : List Nack) → AllBelow x ns → insert x ns ≡ ns ++ fresh x ∷ []
unfolding insert
insert_above x [] h = refl
insert_above x (n ∷ ns) h = rw (lt→ltb n.sn x h.0) (ap (◌∷◌ n) (insert_above x ns h.1))

absent_above : (x : ℕ) (ns : List Nack) → AllBelow x ns → contains x ns ≡ false
unfolding contains
absent_above x [] h = refl
absent_above x (n ∷ ns) h = ground (arith, absent_above x ns h.1)

last_part-append : (x : ℕ) (ns : List Nack) → last_part (ns ++ fresh x ∷ []) ≡ fresh x ∷ []
last_part-append x [] = refl
last_part-append x (n ∷ []) = refl
last_part-append x (n ∷ m ∷ ns) =
    last_part-cons n m (ns ++ fresh x ∷ []) ∙ last_part-append x (m ∷ ns)

-- At the limit a new highest number is held twice.
trim-append :
    (x : ℕ) (ns : List Nack)
    → 99 ≤ length ns
    → trim (ns ++ fresh x ∷ []) ≡ drop 1 ns ++ fresh x ∷ fresh x ∷ []
trim-append x [] h = absurd (omega arith)
trim-append x (n ∷ []) h = absurd (omega arith)
trim-append x (n ∷ m ∷ ns) h =
    rw
      (le→leb 100 (length (n ∷ m ∷ ns ++ fresh x ∷ []))
        (omega (arith, length-append {0} ns (fresh x ∷ []))))
      (shift_down-cons n m (ns ++ fresh x ∷ [])
        ∙ (ap (λ t. (m ∷ ns ++ fresh x ∷ []) ++ t) (last_part-append x (m ∷ ns))
            ∙ append_assoc (m ∷ ns) (fresh x ∷ []) (fresh x ∷ [])))

-- At the limit the copy leaves the newest number twice, so that one remove does not take it away.
pub remove_after_limit :
    (q : NackQueue) (x : ℕ)
    → IsSorted q.nacks
    → AllBelow x q.nacks
    → 99 ≤ length q.nacks
    → contains x (remove (push q x) x).nacks ≡ true
remove_after_limit q x s h n =
    let pushed : (push q x).nacks ≡ drop 1 q.nacks ++ fresh x ∷ fresh x ∷ [] =
      rw (push_inserts q x s, absent_above x q.nacks h, insert_above x q.nacks h)
        (trim-append x q.nacks n) in
    rw (remove_refines (push q x) x (IsSorted-preserved q x s).0, pushed)
      (erase_one_of_two x (drop 1 q.nacks))
