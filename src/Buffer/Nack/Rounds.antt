-- ===== src/Buffer/Nack/Rounds.antt =====
-- What a call of `pairs` does to the queue: which entries stay, how often each was asked for, and
-- when a key frame is asked for.
use ion_sfu.Prelude.{
  ℕ, ◌+◌, ◌≤◌, ◌≡◌, refl, Bool, true, ◌&&◌, ◌||◌, List, [], ◌∷◌, ◌++◌, arith, ltb, leb, ◌==◌,
  if◌then◌else◌, length, inl, inr, Bool-cases, ap, sym, ◌∙◌, sub32, low16, add8,
}
use mathlib.Core.List.{append_assoc, append-nil}
use ion_sfu.Buffer.Nack.{
  Nack, NackQueue, max_nack_times, PairsState, add_to_pair, pairs_step, pairs_loop, pairs_start,
  pairs,
}

-- A packet so close to the head that it may only be late is left alone.
abbrev pub too_recent : ℕ → Nack → Bool
too_recent head_sn n = leb (sub32 head_sn 2) n.sn

-- The entries that stay: those asked for three times go, and the others that are not too recent
-- are asked for once more.
unfoldable pub survivors : ℕ → List Nack → List Nack
survivors head_sn [] = []
survivors head_sn (n ∷ ns) =
    if leb max_nack_times n.nacked
    then survivors head_sn ns
    else (if too_recent head_sn n then n else record n { nacked = n.nacked + 1 })
      ∷ survivors head_sn ns

-- The highest of `kf` and the numbers given up.
unfoldable pub given_up : ℕ → List Nack → ℕ
given_up kf [] = kf
given_up kf (n ∷ ns) = given_up (if leb max_nack_times n.nacked && ltb kf n.sn then n.sn else kf) ns

add_to_pair-fields :
    (s : PairsState) (id : ℕ)
    → let t = add_to_pair s id in (t.kept ≡ s.kept) × (t.kf_sn ≡ s.kf_sn) × (t.ask_kf ≡ s.ask_kf)
unfolding add_to_pair
add_to_pair-fields s id = ground arith

-- The loop's state with the packet counted as asked for once more.
abbrev pub asked : PairsState → Nack → PairsState
asked s n = record s { kept = s.kept ++ (record n { nacked = add8 n.nacked 1 } ∷ []) }

step_kept :
    (h : ℕ) (n : Nack) (s : PairsState) → (pairs_step h s n).kept ≡ s.kept ++ survivors h (n ∷ [])
unfolding pairs_step survivors
step_kept h n s = elim (Bool-cases (leb max_nack_times n.nacked)) [
  | inl e ↦ rw e (ground (arith, append-nil s.kept))
  | inr e ↦ rw e (elim (Bool-cases (too_recent h n)) [
    | inl r ↦ rw r refl
    | inr r ↦
        let once_more : add8 n.nacked 1 ≡ n.nacked + 1 = ground arith in
        rw (r, once_more)
          (add_to_pair-fields
            (record s { kept = s.kept ++ (record n { nacked = n.nacked + 1 } ∷ []) })
            (low16 n.sn)).0
  ])
]

survivors-cons :
    (h : ℕ) (n : Nack) (ns : List Nack)
    → survivors h (n ∷ ns) ≡ survivors h (n ∷ []) ++ survivors h ns
unfolding survivors
survivors-cons h n ns = ground arith

loop_kept :
    (h : ℕ) (ns : List Nack) (s : PairsState) → (pairs_loop h s ns).kept ≡ s.kept ++ survivors h ns
unfolding pairs_loop
loop_kept h [] s = unfold survivors in sym (append-nil s.kept)
loop_kept h (n ∷ ns) s =
    rw (loop_kept h ns (pairs_step h s n), step_kept h n s, survivors-cons h n ns)
      (append_assoc s.kept (survivors h (n ∷ [])) (survivors h ns))

step_kf :
    (h : ℕ) (n : Nack) (s : PairsState)
    → (pairs_step h s n).kf_sn
      ≡ (if leb max_nack_times n.nacked && ltb s.kf_sn n.sn then n.sn else s.kf_sn)
unfolding pairs_step
step_kf h n s = ground (arith, add_to_pair-fields (asked s n) (low16 n.sn))

step_ask :
    (h : ℕ) (n : Nack) (s : PairsState)
    → (pairs_step h s n).ask_kf ≡ (s.ask_kf || (leb max_nack_times n.nacked && ltb s.kf_sn n.sn))
unfolding pairs_step
step_ask h n s = ground (arith, add_to_pair-fields (asked s n) (low16 n.sn))

given_up-ge : (kf : ℕ) (ns : List Nack) → kf ≤ given_up kf ns
unfolding given_up
given_up-ge kf [] = omega arith
given_up-ge kf (n ∷ ns) = ground (arith, given_up-ge kf ns, given_up-ge n.sn ns)

loop_kf :
    (h : ℕ) (ns : List Nack) (s : PairsState) → (pairs_loop h s ns).kf_sn ≡ given_up s.kf_sn ns
unfolding pairs_loop given_up
loop_kf h [] s = refl
loop_kf h (n ∷ ns) s = loop_kf h ns (pairs_step h s n) ∙ ap (λ k. given_up k ns) (step_kf h n s)

loop_ask :
    (h : ℕ) (ns : List Nack) (s : PairsState)
    → (pairs_loop h s ns).ask_kf ≡ (s.ask_kf || ltb s.kf_sn (given_up s.kf_sn ns))
unfolding pairs_loop given_up
loop_ask h [] s = ground arith
loop_ask h (n ∷ ns) s =
    rw (loop_ask h ns (pairs_step h s n), step_ask h n s, step_kf h n s)
      (ground (arith, given_up-ge n.sn ns, given_up-ge s.kf_sn ns))

pub no_entries : (ns : List Nack) → (length ns == 0) ≡ true → ns ≡ []
no_entries [] e = refl
no_entries (n ∷ ns) e = ground arith

-- A call of `pairs` drops the packets that were asked for three times, counts one more request for
-- each other packet that is not too recent, and keeps the order. The key-frame mark becomes the
-- highest number given up so far, and a key frame is asked for exactly when the mark rises.
pub pairs_rounds :
    (q : NackQueue) (h : ℕ)
    → let (_, ask, q') = pairs q h in
      (q'.nacks ≡ survivors h q.nacks)
      × (q'.kf_sn ≡ given_up q.kf_sn q.nacks)
      × (ask ≡ ltb q.kf_sn (given_up q.kf_sn q.nacks))
unfolding pairs
pairs_rounds q h = elim (Bool-cases (length q.nacks == 0)) [
  | inl e ↦
      let empty : q.nacks ≡ [] = no_entries q.nacks e in
      rw e (rw empty (unfold survivors given_up in (refl, refl, ground arith)))
  | inr e ↦ rw e (loop_kept h q.nacks start, loop_kf h q.nacks start, loop_ask h q.nacks start)
]
  where
    start : PairsState
    start = pairs_start q
