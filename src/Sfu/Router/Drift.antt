-- ===== src/Sfu/Router/Drift.antt =====
-- pkg/sfu/router.go: the times between which the drift is taken.
use ion_sfu.Prelude.{
  ℕ, ◌≤◌, ◌||◌, List, [], ◌∷◌, Option, none, some, ltb, ◌==◌, if◌then◌else◌, arith, if_both,
}
use ion_sfu.Sfu.Router.{Source, latest_time, extremes, latest_min_max}

-- A pair of times in order, or the panic.
abbrev pub IsOrdered : Option (ℕ × ℕ) → Type 0
IsOrdered none = Unit
IsOrdered (some times) = times.0 ≤ times.1

next_times :
    (t lo hi : ℕ)
    → lo ≤ hi
    → (if (lo == 0) || ltb t lo then t else lo) ≤ (if (hi == 0) || ltb hi t then t else hi)
next_times t lo hi h = ground arith

module _ {F : Type 0} where
  extremes-IsOrdered :
      (cname : ℕ) (ss : List (Source F)) (lo hi : ℕ) → lo ≤ hi → IsOrdered (extremes cname ss lo hi)
  unfolding extremes
  extremes-IsOrdered cname [] lo hi h = h
  extremes-IsOrdered cname (s ∷ ss) lo hi h =
      if_both IsOrdered (s.stream.cname == cname)
        (elim (latest_time s) [
          | none ↦ none
          | some t ↦
              extremes cname ss (if (lo == 0) || ltb t lo then t else lo)
                (if (hi == 0) || ltb hi t then t else hi)
        ])
        (extremes cname ss lo hi)
        (elim (latest_time s)
          as (λ o. IsOrdered (elim o [
            | none ↦ none
            | some t ↦
                extremes cname ss (if (lo == 0) || ltb t lo then t else lo)
                  (if (hi == 0) || ltb hi t then t else hi)
          ])) [ none ↦ tt | some t ↦ extremes-IsOrdered cname ss _ _ (next_times t lo hi h) ])
        (extremes-IsOrdered cname ss lo hi h)

  -- The least time is not above the greatest one, so that their difference does not wrap.
  pub latest_min_max-IsOrdered :
      (cname : ℕ) (ss : List (Source F)) → IsOrdered (latest_min_max cname ss)
  unfolding latest_min_max
  latest_min_max-IsOrdered cname ss =
      if_both IsOrdered (cname == 0) (some (0, 0)) (extremes cname ss 0 0) (omega arith)
        (extremes-IsOrdered cname ss 0 0 (omega arith))
