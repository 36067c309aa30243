-- ===== src/Sfu/Session/Closing.antt =====
-- pkg/sfu/session.go: the calls on a session, and how often its close handler runs.
use ion_sfu.Prelude.{
  ℕ, ◌+◌, ◌≡◌, refl, Bool, false, List, [], ◌∷◌, ◌==◌, if◌then◌else◌, length, arith, Bool-cases,
  if_both, inl, inr,
}
use ion_sfu.Sfu.Session.{
  Peer, SessionLocal, new_session, delete_peer, peer_at, add_peer, close_session, is_entry,
  remove_peer, relay_ready, relay_closed,
}

pub data Call : Type 0 where
  add remove ready : Peer → Call
  gone : ℕ → Call
  close_it : Call

unfoldable pub call : SessionLocal → Call → SessionLocal × Bool
call s (add p) = (add_peer s p, false)
call s (remove p) = remove_peer s p
call s (ready p) = (relay_ready s p, false)
call s (gone id) = (relay_closed s id, false)
call s close_it = close_session s

-- The session after some calls, and how often the handler was called.
unfoldable pub run : SessionLocal → List Call → SessionLocal × ℕ
run s [] = (s, 0)
run s (c ∷ cs) =
    let (s', called) = call s c in let (s'', n) = run s' cs in (s'', (if called then 1 else 0) + n)

-- The flag, as a number.
abbrev pub once : Bool → ℕ
once closed = if closed then 1 else 0

closing_counts :
    (s : SessionLocal)
    → let (s', called) = close_session s in once s.closed + once called ≡ once s'.closed
unfolding close_session
closing_counts s = elim (Bool-cases s.closed) [ inl e ↦ rw e refl | inr e ↦ rw e refl ]

remove_counts :
    (s : SessionLocal) (p : Peer)
    → let (s', called) = remove_peer s p in once s.closed + once called ≡ once s'.closed
unfolding remove_peer
remove_counts s p =
    let left = if is_entry (peer_at s.peers p.id) p then delete_peer s.peers p.id else s.peers in
    let s' : SessionLocal = record s { peers = left } in
    if_both (λ (r : SessionLocal × Bool). once s.closed + once r.1 ≡ once r.0.closed)
      (length left + length s.relay_peers == 0) (close_session s') (s', false) (closing_counts s')
      (omega arith)

call_counts :
    (s : SessionLocal) (c : Call)
    → let (s', called) = call s c in once s.closed + once called ≡ once s'.closed
unfolding call add_peer remove_peer relay_ready relay_closed
call_counts s (add p) = omega arith
call_counts s (remove p) = remove_counts s p
call_counts s (ready p) = omega arith
call_counts s (gone id) = omega arith
call_counts s close_it = closing_counts s

run_counts :
    (s : SessionLocal) (cs : List Call) → once s.closed + (run s cs).1 ≡ once (run s cs).0.closed
unfolding run
run_counts s [] = omega arith
run_counts s (c ∷ cs) =
    let first = call_counts s c in
    let rest = run_counts (call s c).0 cs in omega (arith, first, rest)

-- Whatever calls a session gets, in whatever order, its close handler has been called once where it is
-- closed, and not at all where it is not.
pub run-closes_once :
    (id : ℕ) (cs : List Call)
    → (run (new_session id) cs).1 ≡ once (run (new_session id) cs).0.closed
unfolding new_session
run-closes_once id cs = let counts = run_counts (new_session id) cs in omega (arith, counts)
