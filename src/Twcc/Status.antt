-- ===== src/Twcc/Status.antt =====
-- pkg/twcc/twcc.go: how buildTransportCCPacket packs the packets' statuses into chunks.
use ion_sfu.Prelude.{
  ℕ, ◌+◌, ◌%◌, Bool, true, false, not, ◌&&◌, List, [], ◌∷◌, ◌++◌, Option, none, some, ltb, ◌==◌,
  if◌then◌else◌, length, take, drop,
}
use ion_sfu.Twcc.{
  Responder, not_received, large_delta, without_delta, one_bit, two_bit, write_run_length_chunk,
  create_status_symbol_chunk, write_status_symbol_chunk,
}

-- The loop's variables `same`, `lastStatus`, `maxStatus` and `statusList`.
pub record StatusQueue : Type 0 where
  pub same : Bool
  pub last_status : ℕ
  pub max_status : ℕ
  pub status_list : List ℕ

-- Their values in front of the loop, and with a list, where a chunk has been written.
abbrev pub reset : List ℕ → StatusQueue
reset l = record {
  same = true;
  last_status = without_delta;
  max_status = not_received;
  status_list = l;
}

-- The calls of createStatusSymbolChunk for a list of symbols, from position `i` on.
unfoldable pub create_chunk : Responder → (symbol_size : ℕ) → List ℕ → ℕ → Responder
create_chunk t symbol_size [] i = t
create_chunk t symbol_size (s ∷ ss) i =
    create_chunk (create_status_symbol_chunk t symbol_size s i) symbol_size ss (i + 1)

-- The loop over the statuses that stay in the queue behind a chunk of two-bit symbols.
unfoldable pub reconsider : StatusQueue → List ℕ → StatusQueue
reconsider q [] = q
reconsider q (s ∷ ss) =
    reconsider
      (record q {
        max_status = if ltb q.max_status s then s else q.max_status;
        same =
            if q.same && not (q.last_status == without_delta) && not (s == q.last_status)
            then false
            else q.same;
        last_status = s;
      })
      ss

-- The block in front of `statusList.PushBack`: a status other than the run's ends the run.
unfoldable pub end_run : Responder → StatusQueue → ℕ → Option (Responder × StatusQueue)
end_run t q status =
    if q.same && not (status == q.last_status) && not (q.last_status == without_delta)
    then (if ltb 7 (length q.status_list)
        then elim (write_run_length_chunk t q.last_status (length q.status_list % 65536)) [
          | none ↦ none
          | some t' ↦ some (t', reset [])
        ]
        else some (t, record q { same = false }))
    else some (t, q)

unfoldable pub push_back : StatusQueue → ℕ → StatusQueue
push_back q status = record q {
  status_list = q.status_list ++ (status ∷ []);
  max_status = if ltb q.max_status status then status else q.max_status;
  last_status = status;
}

-- The block behind it: seven statuses of two bits, or fourteen of one bit, make a chunk.
unfoldable pub pack : Responder → StatusQueue → Option (Responder × StatusQueue)
pack t q =
    let n = length q.status_list in
    let two = create_chunk t two_bit (take 7 q.status_list) 0 in
    let one = create_chunk t one_bit (take 14 q.status_list) 0 in
    if not q.same && (q.max_status == large_delta) && ltb 6 n
    then elim (write_status_symbol_chunk two two_bit) [
      | none ↦ none
      | some t' ↦ some (t', reconsider (reset (drop 7 q.status_list)) (drop 7 q.status_list))
    ]
    else if not q.same && ltb 13 n
    then elim (write_status_symbol_chunk one one_bit) [
      | none ↦ none
      | some t' ↦ some (t', reset (drop 14 q.status_list))
    ]
    else some (t, q)

-- The end of a round of the loop, for a packet's status.
unfoldable pub encode_status : Responder → StatusQueue → ℕ → Option (Responder × StatusQueue)
encode_status t q status = elim (end_run t q status) [
  | none ↦ none
  | some (t', q') ↦ pack t' (push_back q' status)
]

-- `for i := 0; i < statusList.Len(); i++` with a PopFront in each round.
unfoldable pub drain_chunk : Responder → (symbol_size : ℕ) → List ℕ → ℕ → Responder
drain_chunk t symbol_size [] i = t
drain_chunk t symbol_size (s ∷ ss) i =
    let rest = drain_chunk (create_status_symbol_chunk t symbol_size s i) symbol_size ss (i + 1) in
    if ltb i (length (s ∷ ss)) then rest else t

-- What is left in the queue behind the loop.
unfoldable pub flush_statuses : Responder → StatusQueue → Option Responder
flush_statuses t q =
    if ltb 0 (length q.status_list)
    then (if q.same
        then write_run_length_chunk t q.last_status (length q.status_list % 65536)
        else if q.max_status == large_delta
        then write_status_symbol_chunk (drain_chunk t two_bit q.status_list 0) two_bit
        else write_status_symbol_chunk (drain_chunk t one_bit q.status_list 0) one_bit)
    else some t
