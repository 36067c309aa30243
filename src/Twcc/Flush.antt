-- ===== src/Twcc/Flush.antt =====
-- What is left in the queue behind the loop, as the last chunk holds it.
use ion_sfu.Prelude.{
  ℕ, ◌+◌, ◌-◌, ◌*◌, ◌/◌, ◌^◌, ◌≤◌, ◌<◌, ◌≡◌, refl, sym, ap, ◌∙◌, true, List, [], ◌∷◌, ltb, leb,
  ◌==◌, if◌then◌else◌, length, take, All, arith, Bool-cases, inl, inr, Option, some, be16, hi_byte,
  lo_byte, length-take,
}
use ion_sfu.Twcc.{Responder, write_word, write_run_length_chunk, one_bit, two_bit}
use ion_sfu.Twcc.Status.{StatusQueue, flush_statuses, drain_chunk, create_chunk}
use ion_sfu.Twcc.Format.{decode_word, decode_chunks, decode-run, IsBits}
use ion_sfu.Twcc.Fields.{word_one, word_two, padded, decode-one, decode-two}
use ion_sfu.Twcc.Chunks.{
  word_one-lt, word_two-lt, write_chunk-one, drain_chunk-half, write_chunk-two,
}
use ion_sfu.Twcc.Runs.{append-nil}
use ion_sfu.Twcc.Steps.{bytes}
use ion_sfu.Twcc.Ends.{QueueIsValid, last-lt, run_word}
use ion_sfu.Twcc.Packing.{All-mono, All-take, All-below}
use ion_sfu.Twcc.Rounds.{written}

-- The statuses in the last chunk: a run whole, but of other queues the first half.
abbrev pub flushed : StatusQueue → List ℕ
flushed q =
    let half = take ((length q.status_list + 1) / 2) q.status_list in
    if ltb 0 (length q.status_list)
    then (if q.same
        then q.status_list
        else if q.max_status == 2
        then padded 7 half
        else padded 14 half)
    else []

-- A last chunk, and its reading.
abbrev pub Flushed : Responder → Option Responder → List ℕ → Type 0
Flushed t result l =
    (words : List ℕ) × (result ≡ some (written t words)) × (decode_chunks (bytes words) ≡ l)

last_word :
    (t : Responder) (result : Option Responder) (w : ℕ) (l : List ℕ)
    → length t.payload + 2 ≤ 100
    → w < 65536
    → decode_word w ≡ l
    → result ≡ write_word t w
    → Flushed t result l
unfolding bytes decode_chunks write_word
last_word t result w l room wide d e =
    let fits : leb (length t.payload + 2) 100 ≡ true = ground arith in
    let value : be16 (hi_byte w) (lo_byte w) ≡ w = omega arith in
    let run : result ≡ write_word t w = e in (w ∷ [], rw fits at run, rw (value, d) (append-nil l))

half-fits :
    (n m : ℕ) (l : List ℕ) → length l ≤ n → n ≤ m + m → length (take ((length l + 1) / 2) l) ≤ m
half-fits n m l h k = omega (arith, length-take ((length l + 1) / 2) l)

drained :
    (t : Responder) (size : ℕ) (l : List ℕ)
    → drain_chunk t size l 0 ≡ create_chunk t size (take ((length l + 1) / 2) l) 0
drained t size l =
    let whole : length l + 1 - 0 ≡ length l + 1 = omega arith in
    rw whole at (drain_chunk-half t size l 0)

-- The last chunk: for a responder whose symbol chunk is empty, a valid queue of less than 8192
-- statuses and room in the payload, a queue of equal statuses is written whole, and of another one
-- the first half, the rest of its chunk reading as not received.
pub flush_statuses-flushed :
    (t : Responder) (q : StatusQueue)
    → t.chunk ≡ 0
    → QueueIsValid q
    → length q.status_list < 2 ^ 13
    → length t.payload + 2 ≤ 100
    → Flushed t (flush_statuses t q) (flushed q)
unfolding flush_statuses write_run_length_chunk bytes decode_chunks
flush_statuses-flushed t q z v few room =
    let l = q.status_list in
    let n = length l in
    let half = take ((n + 1) / 2) l in
    elim (Bool-cases (ltb 0 n)) [
      | inr e ↦ (
        [],
        rw e (ap (λ (p : List ℕ). some (record t { payload = p })) (sym (append-nil t.payload))),
        rw e refl,
      )
      | inl e ↦ elim (Bool-cases q.same) [
        | inl s ↦
            let run = v.scan.run s in
            let known = last-lt l q.last_status v.scan.statuses run (ground arith) in
            last_word t _ (q.last_status * 2 ^ 13 + n) _ room (omega arith)
              (decode-run q.last_status n (omega arith) few ∙ rw (e, s) (sym run))
              (rw (e, s, run_word q.last_status n known few) refl)
        | inr s ↦ elim (Bool-cases (q.max_status == 2)) [
          | inl m ↦
              let small : All (λ x. x < 4) half =
                All-take (λ x. x < 4) _ l
                  (All-mono _ _ (λ x h. omega (arith, h)) l v.scan.statuses) in
              let fits = half-fits 13 7 l (v.short s) (omega arith) in
              last_word t _ (word_two half) _ room (word_two-lt half small fits)
                (decode-two half small fits ∙ rw (e, s, m) refl)
                (rw (e, s, m, drained t two_bit l) (write_chunk-two t half z small fits))
          | inr m ↦
              let small : IsBits half =
                All-take (λ x. x < 2) _ l
                  (All-below q.max_status 2 l (ground (arith, m, v.scan.small)) v.scan.below) in
              let fits = half-fits 13 14 l (v.short s) (omega arith) in
              last_word t _ (word_one half) _ room (word_one-lt half small fits)
                (decode-one half small fits ∙ rw (e, s, m) refl)
                (rw (e, s, m, drained t one_bit l) (write_chunk-one t half z small fits))
        ]
      ]
    ]
