-- ===== src/Buffer/Nack/Order.antt =====
-- The NACK queue stays sorted, and the binary search finds its place.
use ion_sfu.Prelude.{
  ℕ, zero, suc, ◌≤◌, ◌<◌, ◌≡◌, List, [], ◌∷◌, arith, ltb, if◌then◌else◌, length, get_or,
}
use ion_sfu.Search.{IsFirst, IsFirst-unique, Monotone, search-IsFirst}
use ion_sfu.Buffer.Nack.{Nack, zero_nack, reaches, position}

-- The sequence numbers do not fall, and none is below `lo`.
abbrev pub IsSortedFrom : ℕ → List Nack → Type 0
IsSortedFrom lo [] = Unit
IsSortedFrom lo (n ∷ ns) = (lo ≤ n.sn) × IsSortedFrom n.sn ns

abbrev pub IsSorted : List Nack → Type 0
IsSorted ns = IsSortedFrom 0 ns

-- How many entries come before `x`, counted from the front.
unfoldable pub rank : ℕ → List Nack → ℕ
rank x [] = 0
rank x (n ∷ ns) = if ltb n.sn x then suc (rank x ns) else 0

lo-le-get_or :
    (lo : ℕ) (ns : List Nack) (k : ℕ)
    → IsSortedFrom lo ns
    → k < length ns
    → lo ≤ (get_or ns k zero_nack).sn
lo-le-get_or lo [] k s h = absurd (omega arith)
lo-le-get_or lo (n ∷ ns) zero s h = s.0
lo-le-get_or lo (n ∷ ns) (suc k) s h = omega (arith, lo-le-get_or n.sn ns k s.1)

get_or_mono :
    (lo : ℕ) (ns : List Nack) (a b : ℕ)
    → IsSortedFrom lo ns
    → a ≤ b
    → b < length ns
    → (get_or ns a zero_nack).sn ≤ (get_or ns b zero_nack).sn
get_or_mono lo [] a b s h hb = absurd (omega arith)
get_or_mono lo (n ∷ ns) zero zero s h hb = omega arith
get_or_mono lo (n ∷ ns) zero (suc b) s h hb = lo-le-get_or n.sn ns b s.1 (omega arith)
get_or_mono lo (n ∷ ns) (suc a) zero s h hb = absurd (omega arith)
get_or_mono lo (n ∷ ns) (suc a) (suc b) s h hb =
    get_or_mono n.sn ns a b s.1 (omega arith) (omega arith)

reaches-Monotone : (ns : List Nack) (x : ℕ) → IsSorted ns → Monotone (reaches ns x) (length ns)
reaches-Monotone ns x s a b h hb e = ground (arith, get_or_mono 0 ns a b s h hb)

rank-le : (x : ℕ) (ns : List Nack) → rank x ns ≤ length ns
unfolding rank
rank-le x [] = omega arith
rank-le x (n ∷ ns) = ground (arith, rank-le x ns)

rank_below : (x : ℕ) (ns : List Nack) (k : ℕ) → k < rank x ns → (get_or ns k zero_nack).sn < x
unfolding rank
rank_below x [] k h = absurd (omega arith)
rank_below x (n ∷ ns) zero h = ground arith
rank_below x (n ∷ ns) (suc k) h = ground (arith, rank_below x ns k)

rank_found :
    (x : ℕ) (ns : List Nack) → rank x ns < length ns → x ≤ (get_or ns (rank x ns) zero_nack).sn
unfolding rank
rank_found x [] h = absurd (omega arith)
rank_found x (n ∷ ns) h = ground (arith, rank_found x ns)

rank-IsFirst : (x : ℕ) (ns : List Nack) → IsFirst (reaches ns x) (length ns) (rank x ns)
rank-IsFirst x ns = record {
  bound = rank-le x ns;
  below = λ k h. ground (arith, rank_below x ns k h);
  found = λ h. ground (arith, rank_found x ns h);
}

-- On a sorted queue the binary search returns the rank.
pub position-eq-rank : (ns : List Nack) (x : ℕ) → IsSorted ns → position ns x ≡ rank x ns
unfolding position
position-eq-rank ns x s =
    IsFirst-unique (reaches ns x) (length ns) _ _
      (search-IsFirst (length ns) (reaches ns x) (reaches-Monotone ns x s)) (rank-IsFirst x ns)
