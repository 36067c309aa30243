-- ===== src/Buffer/Nack/Queue.antt =====
-- `push` and `remove` against a plain sorted list, with no search and no copying.
use ion_sfu.Prelude.{
  ℕ, suc, ◌+◌, ◌-◌, ◌<◌, ◌≡◌, refl, ◌∙◌, Bool, true, false, ◌&&◌, ◌||◌, List, [], ◌∷◌, ◌++◌, arith,
  ltb, leb, ◌==◌, if◌then◌else◌, length, get_or, take, drop, inl, inr, Bool-cases, ap,
}
use ion_sfu.Buffer.Nack.{Nack, NackQueue, zero_nack, remove, push, shift_down, max_nack_cache}
use ion_sfu.Buffer.Nack.Order.{IsSortedFrom, IsSorted, rank, position-eq-rank}

abbrev pub fresh : ℕ → Nack
fresh x = record { sn = x; nacked = 0 }

unfoldable pub contains : ℕ → List Nack → Bool
contains x [] = false
contains x (n ∷ ns) = (n.sn == x) || contains x ns

-- A new entry in front of the first one that is not below it.
unfoldable pub insert : ℕ → List Nack → List Nack
insert x [] = fresh x ∷ []
insert x (n ∷ ns) = if ltb n.sn x then n ∷ insert x ns else fresh x ∷ n ∷ ns

-- The first entry with that number taken out.
unfoldable pub erase : ℕ → List Nack → List Nack
erase x [] = []
erase x (n ∷ ns) = if n.sn == x then ns else n ∷ erase x ns

-- What the code does at the cache limit.
abbrev pub trim : List Nack → List Nack
trim ns = if leb max_nack_cache (length ns) then shift_down ns else ns

pub contains_below :
    (x lo : ℕ) (ns : List Nack) → IsSortedFrom lo ns → x < lo → contains x ns ≡ false
unfolding contains
contains_below x lo [] s h = refl
contains_below x lo (n ∷ ns) s h = ground (arith, contains_below x n.sn ns s.1)

-- The test of `push` and `remove` at the rank asks whether the number is there.
found-at-rank :
    (x lo : ℕ) (ns : List Nack)
    → IsSortedFrom lo ns
    → (ltb (rank x ns) (length ns) && ((get_or ns (rank x ns) zero_nack).sn == x)) ≡ contains x ns
unfolding rank contains
found-at-rank x lo [] s = refl
found-at-rank x lo (n ∷ ns) s = elim (Bool-cases (ltb n.sn x)) [
  | inl e ↦ rw e (ground (arith, found-at-rank x n.sn ns s.1))
  | inr e ↦ rw e (ground (arith, contains_below x n.sn ns s.1))
]

insert-at-rank :
    (x : ℕ) (ns : List Nack) → take (rank x ns) ns ++ fresh x ∷ drop (rank x ns) ns ≡ insert x ns
unfolding rank insert
insert-at-rank x [] = refl
insert-at-rank x (n ∷ ns) = elim (Bool-cases (ltb n.sn x)) [
  | inl e ↦ rw e (ap (◌∷◌ n) (insert-at-rank x ns))
  | inr e ↦ rw e refl
]

erase-at-rank :
    (x lo : ℕ) (ns : List Nack)
    → IsSortedFrom lo ns
    → contains x ns ≡ true
    → take (rank x ns) ns ++ drop (suc (rank x ns)) ns ≡ erase x ns
unfolding rank erase contains
erase-at-rank x lo [] s h = ground arith
erase-at-rank x lo (n ∷ ns) s h = elim (Bool-cases (ltb n.sn x)) [
  | inl e ↦ rw e (ground (arith, erase-at-rank x n.sn ns s.1))
  | inr e ↦ rw e (ground (arith, contains_below x n.sn ns s.1))
]

erase_absent : (x : ℕ) (ns : List Nack) → contains x ns ≡ false → erase x ns ≡ ns
unfolding erase contains
erase_absent x [] h = refl
erase_absent x (n ∷ ns) h = ground (arith, erase_absent x ns)

insert_at_end : (x : ℕ) (ns : List Nack) → rank x ns ≡ length ns → ns ++ fresh x ∷ [] ≡ insert x ns
unfolding rank insert
insert_at_end x [] h = refl
insert_at_end x (n ∷ ns) h = elim (Bool-cases (ltb n.sn x)) [
  | inl e ↦ rw e (ap (◌∷◌ n) (insert_at_end x ns (ground arith)))
  | inr e ↦ ground arith
]

grown-eq-insert :
    (x : ℕ) (ns : List Nack)
    → (if rank x ns == length ns
        then ns ++ (fresh x ∷ [])
        else take (rank x ns) ns ++ (fresh x ∷ drop (rank x ns) ns))
      ≡ insert x ns
grown-eq-insert x ns = ground (arith, insert_at_end x ns, insert-at-rank x ns)

-- A push on a sorted queue, up to what the code does at the limit.
pub push_inserts :
    (q : NackQueue) (x : ℕ)
    → IsSorted q.nacks
    → push q x ≡ (if contains x q.nacks then q else record q { nacks = trim (insert x q.nacks) })
unfolding push
push_inserts q x s =
    rw (position-eq-rank q.nacks x s, push)
      (rw (found-at-rank x 0 q.nacks s, grown-eq-insert x q.nacks))

-- The last element stands twice.
unfoldable pub last_twice : List Nack → List Nack
last_twice [] = []
last_twice (n ∷ []) = n ∷ n ∷ []
last_twice (n ∷ m ∷ ns) = n ∷ last_twice (m ∷ ns)

-- The lowest entry is lost, and the newest one stands twice; an entry alone stays.
unfoldable pub lose_lowest : List Nack → List Nack
lose_lowest [] = []
lose_lowest (n ∷ []) = n ∷ []
lose_lowest (n ∷ m ∷ ns) = last_twice (m ∷ ns)

with_last : (n : Nack) (ns : List Nack) → n ∷ ns ++ drop (length ns) (n ∷ ns) ≡ last_twice (n ∷ ns)
unfolding last_twice
with_last n [] = refl
with_last n (m ∷ ns) = ap (◌∷◌ n) (with_last m ns)

shift_down-loses : (ns : List Nack) → shift_down ns ≡ lose_lowest ns
unfolding shift_down lose_lowest
shift_down-loses [] = refl
shift_down-loses (n ∷ []) = refl
shift_down-loses (n ∷ m ∷ ns) =
    let e : suc (suc (length ns)) - 1 ≡ suc (length ns) = omega arith in rw e (with_last m ns)

at_limit : (ns : List Nack) → trim ns ≡ (if ltb (length ns) 100 then ns else lose_lowest ns)
at_limit ns = elim (Bool-cases (ltb (length ns) 100)) [
  | inl e ↦ let few : leb 100 (length ns) ≡ false = ground (arith, e) in rw (e, few) refl
  | inr e ↦
      let many : leb 100 (length ns) ≡ true = ground (arith, e) in
      rw (e, many) (shift_down-loses ns)
]

-- A push on a sorted queue leaves it as it is where the number is there. Else the number is inserted
-- in its place; where the queue has 100 entries then, it keeps its length: the lowest entry is lost,
-- and the newest one stands twice.
pub push_refines :
    (q : NackQueue) (x : ℕ)
    → IsSorted q.nacks
    → let grown = insert x q.nacks in
      push q x ≡ (
        if contains x q.nacks
        then q
        else record q { nacks = if ltb (length grown) 100 then grown else lose_lowest grown })
push_refines q x s =
    push_inserts q x s
    ∙ ap (λ (ns : List Nack). if contains x q.nacks then q else record q { nacks = ns })
        (at_limit (insert x q.nacks))

-- A remove on a sorted queue takes out the first entry of that number, if there is one.
pub remove_refines :
    (q : NackQueue) (x : ℕ) → IsSorted q.nacks → remove q x ≡ record q { nacks = erase x q.nacks }
unfolding remove
remove_refines q x s =
    let ns = q.nacks in
    let next : rank x ns + 1 ≡ suc (rank x ns) = omega arith in
    rw (position-eq-rank ns x s, remove, next)
      (ground (arith, found-at-rank x 0 ns s, erase-at-rank x 0 ns s, erase_absent x ns))
