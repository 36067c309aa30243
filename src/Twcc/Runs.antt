-- ===== src/Twcc/Runs.antt =====
-- The run of equal statuses that the queue of buildTransportCCPacket may hold.
use mathlib.Core.Bool.{false≢true}
use ion_sfu.Prelude.{
  ℕ, zero, suc, ◌≤◌, ◌<◌, ◌≡◌, refl, ap, ◌∙◌, Bool, true, false, not, ◌&&◌, ◌||◌, List, [], ◌∷◌,
  ◌++◌, ltb, ◌==◌, if◌then◌else◌, length, replicate, All, arith, length-append, All-append,
  Bool-cases, inl, inr,
}
use ion_sfu.Twcc.Status.{StatusQueue, reconsider}

-- What the loop's variables say of the statuses `l`.
pub record Scan (same : Bool) (last max : ℕ) (l : List ℕ) : Type 0 where
  pub statuses : All (λ s. s < 3) l
  pub below : All (λ s. s ≤ max) l
  pub small : max < 3
  pub run : same ≡ true → l ≡ replicate (length l) last

pub replicate-snoc : (n s : ℕ) → replicate n s ++ (s ∷ []) ≡ replicate (suc n) s
replicate-snoc zero s = refl
replicate-snoc (suc n) s = ap (λ (l : List ℕ). s ∷ l) (replicate-snoc n s)

run-snoc :
    (l : List ℕ) (s : ℕ)
    → l ≡ replicate (length l) s
    → l ++ (s ∷ []) ≡ replicate (length (l ++ (s ∷ []))) s
run-snoc l s e =
    let n : length (l ++ (s ∷ [])) ≡ suc (length l) = omega (arith, length-append l (s ∷ [])) in
    rw n (ap (λ (k : List ℕ). k ++ (s ∷ [])) e ∙ replicate-snoc (length l) s)

below-weaken : (l : List ℕ) (m k : ℕ) → m ≤ k → All (λ s. s ≤ m) l → All (λ s. s ≤ k) l
below-weaken [] m k h a = tt
below-weaken (x ∷ xs) m k h a = (omega (arith, h, a.0), below-weaken xs m k h a.1)

pub nothing_run : (l : List ℕ) → All (λ s. s < 3) l → l ≡ replicate (length l) 3 → l ≡ []
nothing_run [] a e = refl
nothing_run (x ∷ xs) a e =
    let head : x ≡ 3 = ap (λ (k : List ℕ). elim k [ [] ↦ 0 | y ∷ ys ↦ y ]) e in
    let bound : x < 3 = a.0 in absurd (omega (arith, head, bound))

-- A status `s` that ends no run, or that ends it.
abbrev pub goes_on : Bool → (last s : ℕ) → Bool
goes_on same last s = same && ((s == last) || (last == 3))

turn_run :
    (last s : ℕ) (l : List ℕ)
    → All (λ x. x < 3) l
    → l ≡ replicate (length l) last
    → ((s == last) || (last == 3)) ≡ true
    → l ≡ replicate (length l) s
turn_run last s l a r h = elim (Bool-cases (s == last)) [
  | inl e ↦ let same : last ≡ s = ground arith in rw same at r
  | inr e ↦
      let three : last ≡ 3 = ground arith in
      let whole : l ≡ replicate (length l) 3 = rw three at r in rw (nothing_run l a whole) refl
]

turn_with :
    (same : Bool) (last s : ℕ) (l : List ℕ)
    → All (λ x. x < 3) l
    → (same ≡ true → l ≡ replicate (length l) last)
    → goes_on same last s ≡ true
    → l ≡ replicate (length l) s
turn_with true last s l a r h = turn_run last s l a (r refl) h
turn_with false last s l a r h = absurd (false≢true h)

pub turn :
    (same : Bool) (last max s : ℕ) (l : List ℕ)
    → Scan same last max l
    → Scan (goes_on same last s) s max l
turn same last max s l h = record {
  statuses = h.statuses;
  below = h.below;
  small = h.small;
  run = turn_with same last s l h.statuses h.run;
}

pub push-Scan :
    (same : Bool) (max s : ℕ) (l : List ℕ)
    → s < 3
    → Scan same s max l
    → Scan same s (if ltb max s then s else max) (l ++ (s ∷ []))
push-Scan same max s l k h =
    let new = if ltb max s then s else max in
    let least : max ≤ new = ground arith in
    let least' : s ≤ new = ground arith in
    let top : new < 3 = ground (arith, h.small) in
    record {
      statuses = All-append (λ x. x < 3) l (s ∷ []) h.statuses (k, tt);
      below =
          All-append (λ x. x ≤ new) l (s ∷ []) (below-weaken l max new least h.below) (least', tt);
      small = top;
      run = λ e. run-snoc l s (h.run e);
    }

-- The condition of the source for the end of a run.
pub run_ends :
    (same new ends : Bool)
    → (if same && not new && not ends then false else same) ≡ (same && (ends || new))
run_ends true true true = refl
run_ends true true false = refl
run_ends true false true = refl
run_ends true false false = refl
run_ends false new ends = refl

pub append-nil : (l : List ℕ) → l ++ [] ≡ l
append-nil [] = refl
append-nil (x ∷ l) = ap (λ (m : List ℕ). x ∷ m) (append-nil l)

pub append-snoc : (l k : List ℕ) (s : ℕ) → (l ++ (s ∷ [])) ++ k ≡ l ++ (s ∷ k)
append-snoc [] k s = refl
append-snoc (x ∷ l) k s = ap (λ (m : List ℕ). x ∷ m) (append-snoc l k s)

abbrev pub QueueScan : StatusQueue → List ℕ → Type 0
QueueScan q l = Scan q.same q.last_status q.max_status l

pub reconsider-Scan :
    (ss : List ℕ) (q : StatusQueue) (l : List ℕ)
    → All (λ x. x < 3) ss
    → QueueScan q l
    → QueueScan (reconsider q ss) (l ++ ss)
unfolding reconsider
reconsider-Scan [] q l a h = rw (append-nil l) h
reconsider-Scan (s ∷ ss) q l a h =
    let turned = turn q.same q.last_status q.max_status s l h in
    let pushed = push-Scan _ q.max_status s l a.0 turned in
    let ends = run_ends q.same (q.last_status == 3) (s == q.last_status) in
    let moved : Scan
        (if q.same && not (q.last_status == 3) && not (s == q.last_status) then false else q.same) s
        (if ltb q.max_status s then s else q.max_status) (l ++ (s ∷ [])) =
      rw ends pushed in
    let rest : QueueScan (reconsider q (s ∷ ss)) ((l ++ (s ∷ [])) ++ ss) =
      reconsider-Scan ss _ (l ++ (s ∷ [])) a.1 moved in
    rw (append-snoc l ss s) at rest

pub reconsider-status_list :
    (ss : List ℕ) (q : StatusQueue) → (reconsider q ss).status_list ≡ q.status_list
unfolding reconsider
reconsider-status_list [] q = refl
reconsider-status_list (s ∷ ss) q = reconsider-status_list ss _

pub empty-Scan : Scan true 3 0 []
empty-Scan = record { statuses = tt; below = tt; small = omega arith; run = λ e. refl }
