-- ===== src/Twcc/Ends.antt =====
-- The end of a run of equal statuses.
use mathlib.Core.Bool.{false≢true}
use ion_sfu.Prelude.{
  ℕ, ◌+◌, ◌*◌, ◌%◌, ◌^◌, ◌≤◌, ◌<◌, ◌≡◌, refl, sym, ap, ◌∙◌, Bool, true, false, not, ◌&&◌, ◌||◌,
  List, [], ◌∷◌, ltb, ◌==◌, length, replicate, All, arith, length-replicate, Bool-cases, inl, inr,
  bit_or,
}
use ion_sfu.Prelude.Bits.{bit_or-add}
use ion_sfu.Twcc.{Responder, write_run_length_chunk}
use ion_sfu.Twcc.Status.{StatusQueue, reset, end_run}
use ion_sfu.Twcc.Format.{decode-run}
use ion_sfu.Twcc.Runs.{QueueScan, turn, append-nil}
use ion_sfu.Twcc.Steps.{Step, no_words, one_word}

pub record QueueIsValid (q : StatusQueue) : Type 0 where
  pub scan : QueueScan q q.status_list
  pub short : q.same ≡ false → length q.status_list ≤ 13
  pub shorter : q.same ≡ false → q.max_status ≡ 2 → length q.status_list ≤ 7

-- In front of PushBack, for the status `s` that is pushed.
abbrev pub Ends : ℕ → StatusQueue → Type 0
Ends s q = QueueIsValid (record q { last_status = s })

pub last-lt :
    (l : List ℕ) (last : ℕ)
    → All (λ x. x < 3) l
    → l ≡ replicate (length l) last
    → 0 < length l
    → last < 3
last-lt [] last a r h = omega arith
last-lt (x ∷ l) last a r h =
    let first : x ≡ last = ap (λ (k : List ℕ). elim k [ [] ↦ x | y ∷ ys ↦ y ]) r in
    omega (arith, first, a.0)

still :
    (same new ends : Bool)
    → same ≡ true
    → (same && not new && not ends) ≡ false
    → (same && (new || ends)) ≡ true
still true true ends h e = refl
still true false true h e = refl
still true false false h e = absurd (false≢true (sym e))
still false new ends h e = absurd (false≢true h)

open_run : (same new ends : Bool) → (same && not new && not ends) ≡ true → same ≡ true
open_run true new ends h = refl
open_run false new ends h = absurd (false≢true h)

pub run_word :
    (last n : ℕ)
    → last < 3
    → n < 2 ^ 13
    → bit_or (last * 2 ^ 13 % 65536) (n % 65536) ≡ last * 2 ^ 13 + n
run_word last n h k =
    let high : last * 2 ^ 13 % 65536 ≡ last * 2 ^ 13 = omega arith in
    let low : n % 65536 ≡ n = omega arith in rw (high, low) (bit_or-add 13 last n k)

pub end_run-Step :
    (t : Responder) (q : StatusQueue) (s : ℕ)
    → QueueIsValid q
    → s < 3
    → length q.status_list < 2 ^ 13
    → length t.payload + 2 ≤ 100
    → Step t q.status_list (end_run t q s) (Ends s)
unfolding end_run write_run_length_chunk
end_run-Step t q s v k few room =
    let ends = q.same && not (s == q.last_status) && not (q.last_status == 3) in
    elim (Bool-cases ends) [
      | inr e ↦
          let stays = turn q.same q.last_status q.max_status s q.status_list v.scan in
          no_words t q _ (Ends s) (rw e refl) (record {
            scan = record {
              statuses = v.scan.statuses;
              below = v.scan.below;
              small = v.scan.small;
              run = λ h. stays.run (still q.same _ _ h e);
            };
            short = v.short;
            shorter = v.shorter;
          })
      | inl e ↦ elim (Bool-cases (ltb 7 (length q.status_list))) [
        | inl long ↦
            let run = v.scan.run (open_run q.same _ _ e) in
            let known = last-lt q.status_list q.last_status v.scan.statuses run (ground arith) in
            let n = length q.status_list in
            one_word t (q.last_status * 2 ^ 13 + n) (replicate n q.last_status) (reset [])
              q.status_list _ (Ends s) room (omega arith)
              (decode-run q.last_status n (omega arith) few)
              (ground (arith, length-replicate n q.last_status)) (append-nil _ ∙ sym run)
              (rw (e, long, run_word q.last_status n known few) refl)
              (record {
                scan = record { statuses = tt; below = tt; small = omega arith; run = λ h. refl };
                short = λ h. omega arith;
                shorter = λ h k. omega arith;
              })
        | inr few_left ↦
            no_words t (record q { same = false }) _ (Ends s) (rw (e, few_left) refl)
              (record {
                scan = record {
                  statuses = v.scan.statuses;
                  below = v.scan.below;
                  small = v.scan.small;
                  run = λ h. absurd (false≢true h);
                };
                short = λ h. ground arith;
                shorter = λ h m. ground arith;
              })
      ]
    ]
