-- ===== src/Twcc/Rounds.antt =====
-- The packing loop over any statuses: what its chunks and its queue hold, and that no write is
-- past the end of the payload.
use ion_sfu.Prelude.{
  ℕ, ◌+◌, ◌*◌, ◌≤◌, ◌<◌, ◌≡◌, refl, sym, ap, ◌∙◌, List, [], ◌∷◌, ◌++◌, length, arith, length-append,
  some,
}
use ion_sfu.Twcc.{Responder}
use ion_sfu.Twcc.Status.{StatusQueue, end_run, push_back, pack, encode_status}
use ion_sfu.Twcc.Format.{decode_chunks}
use ion_sfu.Twcc.Runs.{push-Scan}
use ion_sfu.Twcc.Steps.{bytes, bytes-append, append_assoc, decode_chunks-append, length-bytes, Step}
use ion_sfu.Twcc.Ends.{QueueIsValid, Ends, end_run-Step}
use ion_sfu.Twcc.Packing.{Pushed, pack-Step}

-- What the chunks still to come may need: each has two bytes and seven statuses or more.
abbrev pub budget : Responder → List ℕ → ℕ
budget t l = length t.payload * 7 + length l * 2

push_back-Pushed : (q : StatusQueue) (s : ℕ) → s < 3 → Ends s q → Pushed (push_back q s)
unfolding push_back
push_back-Pushed q s k v = record {
  scan = push-Scan q.same q.max_status s q.status_list k v.scan;
  short = λ h. omega (arith, v.short h, length-append q.status_list (s ∷ []));
}

-- Two parts, one after the other.
pub joined :
    (t : Responder) (ws vs l k m after : List ℕ)
    → decode_chunks (bytes ws) ++ l ≡ m
    → decode_chunks (bytes vs) ++ after ≡ l ++ k
    → decode_chunks (bytes (ws ++ vs)) ++ after ≡ m ++ k
joined t ws vs l k m after first second =
    let one = decode_chunks (bytes ws) in
    rw (decode_chunks-append ws vs, append_assoc one (decode_chunks (bytes vs)) after, second)
      (sym (append_assoc one l k) ∙ ap (λ (x : List ℕ). x ++ k) first)

abbrev pub written : Responder → List ℕ → Responder
written t ws = record t { payload = t.payload ++ bytes ws }

written-append : (t : Responder) (ws vs : List ℕ) → written (written t ws) vs ≡ written t (ws ++ vs)
written-append t ws vs =
    ap (λ (l : List ℕ). record t { payload = l })
      (append_assoc t.payload (bytes ws) (bytes vs)
        ∙ ap (λ (l : List ℕ). t.payload ++ l) (sym (bytes-append ws vs)))

budget-written :
    (t : Responder) (ws before after : List ℕ)
    → length ws * 7 + length after ≤ length before
    → budget (written t ws) after ≤ budget t before
budget-written t ws before after h =
    omega (arith, length-append t.payload (bytes ws), length-bytes ws)

encode_status-pack :
    (t t' : Responder) (q q' : StatusQueue) (s : ℕ)
    → end_run t q s ≡ some (t', q')
    → encode_status t q s ≡ pack t' (push_back q' s)
unfolding encode_status
encode_status-pack t t' q q' s e = rw (encode_status, e) refl

-- A round of the loop keeps the queue valid and loses no status: for a responder whose symbol chunk
-- is empty, a valid queue, a status below 3 and enough room in the payload, what the round's chunks
-- decode to, followed by the queue behind it, is the queue before it and the status; each chunk
-- takes seven statuses or more, and no write runs past the payload.
pub encode_status-Step :
    (t : Responder) (q : StatusQueue) (s : ℕ)
    → t.chunk ≡ 0
    → QueueIsValid q
    → s < 3
    → budget t (q.status_list ++ (s ∷ [])) ≤ 688
    → Step t (q.status_list ++ (s ∷ [])) (encode_status t q s) QueueIsValid
unfolding push_back
encode_status-Step t q s z v k h =
    let longer = length-append q.status_list (s ∷ []) in
    let first = end_run-Step t q s v k (omega arith) (omega arith) in
    let t' = written t first.words in
    let q' = push_back first.after s in
    let spent = budget-written t first.words q.status_list first.after.status_list first.spent in
    let second = pack-Step t' q' z (push_back-Pushed first.after s k first.good) (omega arith) in
    record {
      words = first.words ++ second.words;
      after = second.after;
      runs =
          encode_status-pack t t' q first.after s first.runs
          ∙ second.runs
          ∙ (ap (λ (u : Responder). some (u, second.after))
              (written-append t first.words second.words));
      reads =
          joined t first.words second.words first.after.status_list (s ∷ []) q.status_list
            second.after.status_list first.reads second.reads;
      good = second.good;
      spent = omega (
        arith,
        first.spent,
        second.spent,
        longer,
        length-append first.after.status_list (s ∷ []),
        length-append first.words second.words,
      );
    }
