-- ===== src/Twcc/Packing.antt =====
-- The chunks of symbols: seven of two bits or fourteen of one bit.
use mathlib.Core.Bool.{false≢true}
use ion_sfu.Prelude.{
  ℕ, zero, suc, ◌+◌, ◌≤◌, ◌<◌, ◌≡◌, refl, ap, ◌∙◌, Bool, true, false, not, ◌&&◌, List, [], ◌∷◌,
  ◌++◌, ltb, ◌==◌, length, take, drop, All, arith, Bool-cases, inl, inr, Option, none, some,
  length-take, length-drop,
}
use ion_sfu.Twcc.{Responder, write_status_symbol_chunk, one_bit, two_bit}
use ion_sfu.Twcc.Status.{StatusQueue, reset, pack, create_chunk, reconsider}
use ion_sfu.Twcc.Format.{IsBits}
use ion_sfu.Twcc.Fields.{word_one, word_two, padded, decode-one, decode-two}
use ion_sfu.Twcc.Chunks.{word_one-lt, word_two-lt, write_chunk-one, write_chunk-two}
use ion_sfu.Twcc.Runs.{QueueScan, reconsider-Scan, reconsider-status_list, empty-Scan, append-nil}
use ion_sfu.Twcc.Steps.{Step, no_words, one_word}
use ion_sfu.Twcc.Ends.{QueueIsValid}

take-drop : (n : ℕ) (l : List ℕ) → take n l ++ drop n l ≡ l
take-drop zero l = refl
take-drop (suc n) [] = refl
take-drop (suc n) (x ∷ l) = ap (λ (k : List ℕ). x ∷ k) (take-drop n l)

drop-all : (n : ℕ) (l : List ℕ) → length l ≤ n → drop n l ≡ []
drop-all zero [] h = refl
drop-all (suc n) [] h = refl
drop-all zero (x ∷ l) h = absurd (omega arith)
drop-all (suc n) (x ∷ l) h = drop-all n l (omega arith)

pub All-take : (P : ℕ → Type 0) (n : ℕ) (l : List ℕ) → All P l → All P (take n l)
All-take P zero l a = tt
All-take P (suc n) [] a = tt
All-take P (suc n) (x ∷ l) a = (a.0, All-take P n l a.1)

All-drop : (P : ℕ → Type 0) (n : ℕ) (l : List ℕ) → All P l → All P (drop n l)
All-drop P zero l a = a
All-drop P (suc n) [] a = tt
All-drop P (suc n) (x ∷ l) a = All-drop P n l a.1

pub All-mono : (P Q : ℕ → Type 0) → ((x : ℕ) → P x → Q x) → (l : List ℕ) → All P l → All Q l
All-mono P Q f [] a = tt
All-mono P Q f (x ∷ l) a = (f x a.0, All-mono P Q f l a.1)

pub record Pushed (q : StatusQueue) : Type 0 where
  pub scan : QueueScan q q.status_list
  pub short : q.same ≡ false → length q.status_list ≤ 14

pub All-below : (m n : ℕ) (l : List ℕ) → m < n → All (λ x. x ≤ m) l → All (λ x. x < n) l
All-below m n l h = All-mono _ _ (λ x k. omega (arith, h, k)) l

pack-two :
    (t : Responder) (q : StatusQueue) (result : Option (Responder × StatusQueue))
    → t.chunk ≡ 0
    → All (λ x. x < 3) q.status_list
    → length q.status_list ≤ 14
    → 6 < length q.status_list
    → length t.payload + 2 ≤ 100
    → result
      ≡ elim (write_status_symbol_chunk (create_chunk t two_bit (take 7 q.status_list) 0) two_bit) [
        | none ↦ none
        | some t' ↦ some (t', reconsider (reset (drop 7 q.status_list)) (drop 7 q.status_list))
      ]
    → Step t q.status_list result QueueIsValid
pack-two t q result z a most long room e =
    let first = take 7 q.status_list in
    let left = drop 7 q.status_list in
    let q' = reconsider (reset left) left in
    let seven : length first ≡ 7 = omega (arith, length-take 7 q.status_list) in
    let few : length left ≤ 7 = omega (arith, length-drop 7 q.status_list) in
    let small : All (λ x. x < 4) first =
      All-take (λ x. x < 4) 7 q.status_list
        (All-mono _ _ (λ x h. omega (arith, h)) q.status_list a) in
    let kept : q'.status_list ≡ left = reconsider-status_list left (reset left) in
    let exact : padded 7 first ≡ first = rw seven (append-nil first) in
    let all = write_chunk-two t first z small (omega arith) in
    let scanned =
      reconsider-Scan left (reset left) [] (All-drop (λ x. x < 3) 7 q.status_list a) empty-Scan in
    one_word t (word_two first) first q' q.status_list result QueueIsValid room
      (word_two-lt first small (omega arith)) (decode-two first small (omega arith) ∙ exact)
      (omega arith) (rw kept (take-drop 7 q.status_list)) (rw all at e)
      (record {
        scan = rw kept scanned;
        short = λ h. rw kept (omega arith);
        shorter = λ h k. rw kept few;
      })

pack-one :
    (t : Responder) (q : StatusQueue) (result : Option (Responder × StatusQueue))
    → t.chunk ≡ 0
    → All (λ x. x < 2) q.status_list
    → length q.status_list ≡ 14
    → length t.payload + 2 ≤ 100
    → result
      ≡ elim (write_status_symbol_chunk
          (create_chunk t one_bit (take 14 q.status_list) 0)
          one_bit) [ none ↦ none | some t' ↦ some (t', reset (drop 14 q.status_list)) ]
    → Step t q.status_list result QueueIsValid
pack-one t q result z a full room e =
    let first = take 14 q.status_list in
    let left : drop 14 q.status_list ≡ [] = drop-all 14 q.status_list (omega arith) in
    let all : length first ≡ 14 = omega (arith, length-take 14 q.status_list) in
    let small : IsBits first = All-take (λ x. x < 2) 14 q.status_list a in
    let exact : padded 14 first ≡ first = rw all (append-nil first) in
    let written = write_chunk-one t first z small (omega arith) in
    one_word t (word_one first) first (reset (drop 14 q.status_list)) q.status_list result
      QueueIsValid room (word_one-lt first small (omega arith))
      (decode-one first small (omega arith) ∙ exact) (omega arith) (take-drop 14 q.status_list)
      (rw written at e)
      (rw left
        (record { scan = empty-Scan; short = λ h. omega arith; shorter = λ h k. omega arith }))

packs : (same two long : Bool) → (not same && two && long) ≡ true → same ≡ false
packs false two long h = refl
packs true two long h = absurd (false≢true h)

packs_one : (same long : Bool) → (not same && long) ≡ true → same ≡ false
packs_one false long h = refl
packs_one true long h = absurd (false≢true h)

pub pack-Step :
    (t : Responder) (q : StatusQueue)
    → t.chunk ≡ 0
    → Pushed q
    → length t.payload + 2 ≤ 100
    → Step t q.status_list (pack t q) QueueIsValid
unfolding pack
pack-Step t q z v room =
    let n = length q.status_list in
    let two = not q.same && (q.max_status == 2) && ltb 6 n in
    let one = not q.same && ltb 13 n in
    elim (Bool-cases two) [
      | inl e ↦
          let open_queue = packs q.same _ _ e in
          pack-two t q _ z v.scan.statuses (v.short open_queue) (ground (arith, e)) room (rw e refl)
      | inr e ↦ elim (Bool-cases one) [
        | inl o ↦
            let open_queue = packs_one q.same _ o in
            pack-one t q _ z
              (All-below q.max_status 2 q.status_list (ground (arith, e, o, v.scan.small))
                v.scan.below)
              (ground (arith, o, v.short open_queue)) room (rw (e, o) refl)
        | inr o ↦ no_words t q _ QueueIsValid (rw (e, o) refl) (record {
          scan = v.scan;
          short = λ h. ground (arith, o, h);
          shorter = λ h k. ground (arith, e, h, k);
        })
      ]
    ]
