-- ===== src/Twcc/Gaps.antt =====
-- Which packets a report is about: the sorted entries with the lost packets between them.
use ion_sfu.Prelude.{
  ℕ, zero, suc, ◌+◌, ◌-◌, ◌≤◌, ◌<◌, ◌≡◌, refl, sym, ap, ◌∙◌, true, false, List, [], ◌∷◌, ◌++◌, ltb,
  ◌==◌, if◌then◌else◌, All, arith,
}
use ion_sfu.Twcc.{RtpExtInfo}
use ion_sfu.Twcc.Feedback.{lost, collect}

-- The numbers `n`, `n + 1` and so on.
abbrev pub IsNumbered : ℕ → List RtpExtInfo → Type 0
IsNumbered n [] = Unit
IsNumbered n (e ∷ es) = (e.ext_tsn ≡ n) × IsNumbered (n + 1) es

-- Each number is above the one before it, the first one above `n`.
abbrev pub IsRising : ℕ → List RtpExtInfo → Type 0
IsRising n [] = Unit
IsRising n (e ∷ es) = (n < e.ext_tsn) × IsRising e.ext_tsn es

-- The last number, or `n` if there is none.
abbrev pub last_number : ℕ → List RtpExtInfo → ℕ
last_number n [] = n
last_number n (e ∷ es) = last_number e.ext_tsn es

-- The packets that arrived, of those a report is about.
abbrev pub arrivals : List RtpExtInfo → List RtpExtInfo
arrivals [] = []
arrivals (e ∷ es) = if e.timestamp == 0 then arrivals es else e ∷ arrivals es

abbrev pub HasArrived : RtpExtInfo → Type 0
HasArrived e = 0 < e.timestamp

lost-IsNumbered :
    (k n : ℕ) (es : List RtpExtInfo) → IsNumbered (k + n) es → IsNumbered k (lost k n ++ es)
unfolding lost
lost-IsNumbered k zero es h = let same : k + 0 ≡ k = omega arith in rw same at h
lost-IsNumbered k (suc n) es h =
    let next : k + suc n ≡ k + 1 + n = omega arith in
    (refl, lost-IsNumbered (k + 1) n es (rw next at h))

arrivals-lost : (k n : ℕ) (es : List RtpExtInfo) → arrivals (lost k n ++ es) ≡ arrivals es
unfolding lost
arrivals-lost k zero es = refl
arrivals-lost k (suc n) es = arrivals-lost (k + 1) n es

collect-later :
    (n : ℕ) (e : RtpExtInfo) (es : List RtpExtInfo)
    → 0 < n
    → n ≤ e.ext_tsn
    → collect n (e ∷ es) ≡ (
      lost (n + 1) (e.ext_tsn - (n + 1)) ++ (e ∷ (collect e.ext_tsn es).0),
      (collect e.ext_tsn es).1,
    )
unfolding collect
collect-later n e es p h =
    let new : ltb e.ext_tsn n ≡ false = ground arith in
    let after : (n == 0) ≡ false = ground arith in rw (new, after) refl

collect-none : (n : ℕ) → collect n [] ≡ ([], n)
unfolding collect
collect-none n = refl

collect-rising :
    (es : List RtpExtInfo) (n : ℕ)
    → 0 < n
    → IsRising n es
    → All HasArrived es
    → IsNumbered (n + 1) (collect n es).0
      × (arrivals (collect n es).0 ≡ es)
      × ((collect n es).1 ≡ last_number n es)
collect-rising [] n p r a = rw (collect-none n) (tt, refl, refl)
collect-rising (e ∷ es) n p r a =
    let (numbered, same, last') = collect-rising es e.ext_tsn (omega (arith, r.0)) r.1 a.1 in
    let gap = e.ext_tsn - (n + 1) in
    let place : n + 1 + gap ≡ e.ext_tsn = omega (arith, r.0) in
    let here : (e.timestamp == 0) ≡ false = ground (arith, a.0) in
    rw (collect-later n e es p (omega (arith, r.0))) (
      lost-IsNumbered (n + 1) gap _ (sym place, rw place numbered),
      arrivals-lost (n + 1) gap _ ∙ simp (here) (ap (λ (l : List RtpExtInfo). e ∷ l) same),
      last',
    )

collect-old :
    (old es : List RtpExtInfo) (n : ℕ)
    → All (λ e. e.ext_tsn < n) old
    → collect n (old ++ es) ≡ collect n es
unfolding collect
collect-old [] es n h = refl
collect-old (e ∷ old) es n h =
    let before : ltb e.ext_tsn n ≡ true = ground (arith, h.0) in
    simp (before) (collect-old old es n h.1)

-- Of sorted entries whose numbers rise behind those reported before, a report leaves out the ones
-- that are too old and is about all others: its numbers run on without a gap from the last one that
-- was reported, its packets that arrived are those entries, and the number that it ends with is
-- kept for the next report.
pub collect-IsReport :
    (old es : List RtpExtInfo) (n : ℕ)
    → 0 < n
    → All (λ e. e.ext_tsn < n) old
    → IsRising n es
    → All HasArrived es
    → IsNumbered (n + 1) (collect n (old ++ es)).0
      × (arrivals (collect n (old ++ es)).0 ≡ es)
      × ((collect n (old ++ es)).1 ≡ last_number n es)
collect-IsReport old es n p o r a = rw (collect-old old es n o) (collect-rising es n p r a)

-- The first report begins with the first packet that arrived: for a responder that has reported
-- nothing, the numbers run from the first entry's on.
pub collect-first :
    (e : RtpExtInfo) (es : List RtpExtInfo)
    → 0 < e.ext_tsn
    → IsRising e.ext_tsn es
    → All HasArrived (e ∷ es)
    → IsNumbered e.ext_tsn (collect 0 (e ∷ es)).0
      × (arrivals (collect 0 (e ∷ es)).0 ≡ e ∷ es)
      × ((collect 0 (e ∷ es)).1 ≡ last_number e.ext_tsn es)
unfolding collect
collect-first e es p r a =
    let (numbered, same, last') = collect-rising es e.ext_tsn p r a.1 in
    let here : (e.timestamp == 0) ≡ false = ground (arith, a.0) in
    let new : ltb e.ext_tsn 0 ≡ false = ground arith in
    simp (new, here) ((refl, numbered), ap (λ (l : List RtpExtInfo). e ∷ l) same, last')

-- A packet that arrives twice is reported twice under the same number, so that all packets behind
-- it are reported one place too late.
pub collect-twice :
    (n : ℕ) (d e : RtpExtInfo) (es : List RtpExtInfo)
    → d.ext_tsn ≡ n + 1
    → e.ext_tsn ≡ n + 1
    → 0 < n
    → (collect n (d ∷ (e ∷ es))).0 ≡ d ∷ (e ∷ (collect (n + 1) es).0)
unfolding lost
collect-twice n d e es p q h =
    let first : d.ext_tsn - (n + 1) ≡ 0 = omega (arith, p) in
    let second : e.ext_tsn - (d.ext_tsn + 1) ≡ 0 = omega (arith, p, q) in
    let one =
      ap (λ (x : List RtpExtInfo × ℕ). x.0) (collect-later n d (e ∷ es) h (omega (arith, p))) in
    let two =
      ap (λ (x : List RtpExtInfo × ℕ). x.0)
        (collect-later d.ext_tsn e es (omega (arith, p)) (omega (arith, p, q))) in
    one
    ∙ ap (λ (k : ℕ). lost (n + 1) k ++ (d ∷ (collect d.ext_tsn (e ∷ es)).0)) first
    ∙ ap (λ (l : List RtpExtInfo). d ∷ l)
        (two
          ∙ ap (λ (k : ℕ). lost (d.ext_tsn + 1) k ++ (e ∷ (collect e.ext_tsn es).0)) second
          ∙ ap (λ (k : ℕ). e ∷ (collect k es).0) q)
