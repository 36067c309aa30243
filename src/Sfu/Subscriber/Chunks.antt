-- ===== src/Sfu/Subscriber/Chunks.antt =====
-- pkg/sfu/subscriber.go: what downTracksReports writes.
use mathlib.Core.List.{append-nil}
use ion_sfu.Prelude.{
  ℕ, zero, suc, ◌+◌, ◌-◌, ◌*◌, ◌/◌, ◌<◌, ◌≤◌, min, ◌≡◌, ◌⊎◌, refl, sym, ap, ◌∙◌, false, List, [],
  ◌∷◌, ◌++◌, some, inl, inr, leb, if◌then◌else◌, length, take, drop, length-take, All, arith,
  Bool-cases, ge→ltb, lt→ltb,
}
use ion_sfu.Sfu.Subscriber.{slice, with_write, write_chunks}

module _ {ℓ} {C : Type ℓ} where
  take-drop : (n : ℕ) (xs : List C) → take n xs ++ drop n xs ≡ xs
  take-drop zero xs = refl
  take-drop (suc n) [] = refl
  take-drop (suc n) (x ∷ xs) = ap (λ (ys : List C). x ∷ ys) (take-drop n xs)

  drop-nil : (n : ℕ) → drop {A = C} n [] ≡ []
  drop-nil zero = refl
  drop-nil (suc n) = refl

  drop-drop : (n m : ℕ) (xs : List C) → drop n (drop m xs) ≡ drop (m + n) xs
  drop-drop n zero xs = ap (λ (k : ℕ). drop k xs) (omega arith)
  drop-drop n (suc m) [] = drop-nil n ∙ sym (drop-nil (suc m + n))
  drop-drop n (suc m) (x ∷ xs) =
      let e : suc m + n ≡ suc (m + n) = omega arith in
      drop-drop n m xs ∙ sym (ap (λ (k : ℕ). drop k (x ∷ xs)) e)

  drop-all : (n : ℕ) (xs : List C) → length xs ≤ n → drop n xs ≡ []
  drop-all n [] h = drop-nil n
  drop-all zero (x ∷ xs) h = absurd (omega arith)
  drop-all (suc n) (x ∷ xs) h = drop-all n xs (omega arith)

  -- A chunk, and what is behind it.
  slice_then :
      (sd : List C) (a next b : ℕ)
      → a ≤ next
      → (next ≡ b) ⊎ (length sd ≤ next) × (length sd ≤ b)
      → slice sd a next ++ drop b sd ≡ drop a sd
  slice_then sd a next b h (inl e) =
      ap (λ (ys : List C). slice sd a next ++ ys)
        (sym (drop-drop (next - a) a sd ∙ ap (λ (k : ℕ). drop k sd) (omega arith)))
      ∙ take-drop (next - a) (drop a sd)
  slice_then sd a next b h (inr e) =
      ap (λ (ys : List C). slice sd a next ++ ys)
        (drop-all b sd e.1
          ∙ sym (drop-drop (next - a) a sd ∙ drop-all (a + (next - a)) sd (omega arith)))
      ∙ take-drop (next - a) (drop a sd)

  short_slice : (sd : List C) (a next : ℕ) → next ≤ a + 15 → length (slice sd a next) ≤ 15
  short_slice sd a next h = omega (arith, length-take (next - a) (drop a sd))

end_cases : (n b next : ℕ) → next ≡ min b n → (next ≡ b) ⊎ (n ≤ next) × (n ≤ b)
end_cases n b next h = elim (Bool-cases (leb b n)) [
  | inl e ↦ inl (ground (arith, e, h))
  | inr e ↦ inr (ground (arith, e, h), ground (arith, e))
]

module _ {R C : Type 0} where
  -- The descriptions of some writes, one after the other, and the reports.
  abbrev pub descriptions : List (List R × List C) → List C
  descriptions [] = []
  descriptions (w ∷ ws) = w.1 ++ descriptions ws

  abbrev pub reports : List (List R × List C) → List R
  reports [] = []
  reports (w ∷ ws) = w.0 ++ reports ws

  -- From round `j` on: the descriptions that are left, at most 15 in a write, and the reports once.
  record IsWritten (sd : List C) (j : ℕ) (r : List R) (ws : List (List R × List C)) : Type 0 where
    all_descriptions : descriptions ws ≡ drop (j * 15) sd
    at_most_15 : All (λ (w : List R × List C). length w.1 ≤ 15) ws
    all_reports : (reports ws ≡ r) ⊎ (length sd ≤ j * 15) × (reports ws ≡ [])

  no_reports :
      (sd : List C) (j : ℕ) (ws : List (List R × List C)) → IsWritten sd j [] ws → reports ws ≡ []
  no_reports sd j ws w = elim w.all_reports [ inl e ↦ e | inr e ↦ e.1 ]

  more_IsWritten :
      (sd : List C) (j : ℕ) (r : List R) (ws : List (List R × List C)) (next : ℕ)
      → j * 15 < length sd
      → next ≡ min ((j + 1) * 15) (length sd)
      → IsWritten sd (j + 1) [] ws
      → IsWritten sd j r ((r, slice sd (j * 15) next) ∷ ws)
  more_IsWritten sd j r ws next h e w = record {
    all_descriptions =
        ap (λ (ys : List C). slice sd (j * 15) next ++ ys) w.all_descriptions
        ∙ slice_then sd (j * 15) next ((j + 1) * 15) (omega (arith, e))
            (end_cases (length sd) ((j + 1) * 15) next e);
    at_most_15 = (short_slice sd (j * 15) next (omega (arith, e)), w.at_most_15);
    all_reports = inl (ap (λ (rs : List R). r ++ rs) (no_reports sd (j + 1) ws w) ∙ append-nil r);
  }

  -- The loop, behind `j` rounds, with fuel for the rest of the descriptions.
  write_chunks-IsWritten :
      (f : ℕ) (sd : List C) (i j : ℕ) (r : List R)
      → i ≡ min (j * 15) (length sd)
      → length sd ≤ j * 15 + f * 15
      → (ws : List (List R × List C)) × (write_chunks (suc f) (λ k. false) sd i j r ≡ some ws)
        × IsWritten sd j r ws
  unfolding write_chunks with_write
  write_chunks-IsWritten zero sd i j r e h = (
    [],
    rw (ge→ltb i (length sd) (omega (arith, e))) refl,
    record {
      all_descriptions = sym (drop-all (j * 15) sd (omega arith));
      at_most_15 = tt;
      all_reports = inr (omega arith, refl);
    },
  )
  write_chunks-IsWritten (suc f) sd i j r e h = elim (Bool-cases (leb (length sd) (j * 15))) [
    | inl done ↦ (
      [],
      rw (ge→ltb i (length sd) (ground (arith, e, done))) refl,
      record {
        all_descriptions = sym (drop-all (j * 15) sd (ground (arith, done)));
        at_most_15 = tt;
        all_reports = inr (ground (arith, done), refl);
      },
    )
    | inr more ↦
        let next = if leb (length sd) ((j + 1) * 15) then length sd else (j + 1) * 15 in
        let ends : next ≡ min ((j + 1) * 15) (length sd) = ground arith in
        let (ws, e', w) = write_chunks-IsWritten f sd next (j + 1) [] ends (omega arith) in
        (
          (r, slice sd (j * 15) next) ∷ ws,
          rw (lt→ltb i (length sd) (ground (arith, e, more)))
              (ap (with_write (r, slice sd (j * 15) next)) e'),
          more_IsWritten sd j r ws next (ground (arith, more)) ends w,
        )
  ]

-- Where no write fails for good, and there are descriptions: with fuel for two rounds more than
-- there are full chunks of them the loop ends, it has written all descriptions in order, at most 15 at a
-- time, and all reports once.
pub write_chunks_lem :
    {R C : Type 0} (sd : List C) (r : List R)
    → 0 < length sd
    → (ws : List (List R × List C)) × (write_chunks (suc (length sd / 15 + 1)) (λ k. false) sd 0 0 r
        ≡ some ws)
      × (descriptions ws ≡ sd)
      × (reports ws ≡ r)
      × All (λ (w : List R × List C). length w.1 ≤ 15) ws
write_chunks_lem sd r h =
    let (ws, e, w) =
      write_chunks-IsWritten (length sd / 15 + 1) sd 0 0 r (omega arith) (omega arith) in
    (
      ws,
      e,
      w.all_descriptions,
      elim w.all_reports [ inl a ↦ a | inr a ↦ absurd (omega arith) ],
      w.at_most_15,
    )
