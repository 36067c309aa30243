-- ===== src/Twcc/Steps.antt =====
-- What a part of the packing loop does: the chunks it writes, read back.
use ion_sfu.Prelude.{
  ℕ, ◌+◌, ◌*◌, ◌≤◌, ◌<◌, ◌≡◌, refl, sym, ap, ◌∙◌, true, List, [], ◌∷◌, ◌++◌, leb, length, arith,
  length-append, Option, none, some, be16, hi_byte, lo_byte,
}
use ion_sfu.Twcc.{Responder, write_word}
use ion_sfu.Twcc.Status.{StatusQueue}
use ion_sfu.Twcc.Format.{decode_word, decode_chunks}
use ion_sfu.Twcc.Runs.{append-nil}

-- The bytes of written chunks.
unfoldable pub bytes : List ℕ → List ℕ
bytes [] = []
bytes (w ∷ ws) = hi_byte w ∷ (lo_byte w ∷ bytes ws)

pub bytes-append : (ws vs : List ℕ) → bytes (ws ++ vs) ≡ bytes ws ++ bytes vs
unfolding bytes
bytes-append [] vs = refl
bytes-append (w ∷ ws) vs = ap (λ (l : List ℕ). hi_byte w ∷ (lo_byte w ∷ l)) (bytes-append ws vs)

pub append_assoc : (a b c : List ℕ) → (a ++ b) ++ c ≡ a ++ (b ++ c)
append_assoc [] b c = refl
append_assoc (x ∷ a) b c = ap (λ (l : List ℕ). x ∷ l) (append_assoc a b c)

pub decode_chunks-append :
    (ws vs : List ℕ)
    → decode_chunks (bytes (ws ++ vs)) ≡ decode_chunks (bytes ws) ++ decode_chunks (bytes vs)
unfolding bytes decode_chunks
decode_chunks-append [] vs = refl
decode_chunks-append (w ∷ ws) vs =
    let one = decode_word (be16 (hi_byte w) (lo_byte w)) in
    ap (λ (l : List ℕ). one ++ l) (decode_chunks-append ws vs)
    ∙ sym (append_assoc one (decode_chunks (bytes ws)) (decode_chunks (bytes vs)))

pub length-bytes : (ws : List ℕ) → length (bytes ws) ≡ length ws + length ws
unfolding bytes
length-bytes [] = omega arith
length-bytes (w ∷ ws) = omega (arith, length-bytes ws)

-- A part of the round: what it writes, and that reading it gives what left the queue, seven
-- statuses or more for each chunk.
pub record Step (t : Responder) (before : List ℕ) (result : Option (Responder × StatusQueue))
    (Good : StatusQueue → Type 0) : Type 0 where
  pub words : List ℕ
  pub after : StatusQueue
  pub runs : result ≡ some (record t { payload = t.payload ++ bytes words }, after)
  pub reads : decode_chunks (bytes words) ++ after.status_list ≡ before
  pub good : Good after
  pub spent : length words * 7 + length after.status_list ≤ length before

pub no_words :
    (t : Responder) (q : StatusQueue) (result : Option (Responder × StatusQueue))
    (Good : StatusQueue → Type 0)
    → result ≡ some (t, q)
    → Good q
    → Step t q.status_list result Good
unfolding bytes decode_chunks
no_words t q result Good e g = record {
  words = [];
  after = q;
  runs = e ∙ ap (λ (l : List ℕ). some (record t { payload = l }, q)) (sym (append-nil t.payload));
  reads = refl;
  good = g;
  spent = omega arith;
}

pub one_word :
    (t : Responder) (w : ℕ) (l : List ℕ) (q : StatusQueue) (before : List ℕ)
    (result : Option (Responder × StatusQueue)) (Good : StatusQueue → Type 0)
    → length t.payload + 2 ≤ 100
    → w < 65536
    → decode_word w ≡ l
    → 7 ≤ length l
    → l ++ q.status_list ≡ before
    → result ≡ elim (write_word t w) [ none ↦ none | some t' ↦ some (t', q) ]
    → Good q
    → Step t before result Good
unfolding bytes decode_chunks write_word
one_word t w l q before result Good room wide d long whole e g =
    let fits : leb (length t.payload + 2) 100 ≡ true = ground arith in
    let value : be16 (hi_byte w) (lo_byte w) ≡ w = omega arith in
    let run : result ≡ elim (write_word t w) [ none ↦ none | some t' ↦ some (t', q) ] = e in
    record {
      words = w ∷ [];
      after = q;
      runs = rw fits at run;
      reads = rw (value, d, append-nil l) whole;
      good = g;
      spent = omega (arith, long, ap length whole, length-append l q.status_list);
    }
