-- ===== src/Sfu/Session/Tests.antt =====
-- Two peers and a relay in a session.
use ion_sfu.Prelude.{◌≡◌, refl, true, false, [], ◌∷◌, some, ◌+◌}
use ion_sfu.Sfu.Session.{
  Peer, SessionLocal, new_session, put_peer, delete_peer, peer_at, add_peer, get_peer,
  close_session, is_entry, remove_peer, relay_ready, relay_closed, publish_to, subscribe_from,
  peer_channels, relay_channels, get_data_channels, has_label, add_label, channel_peers,
}
use ion_sfu.Sfu.Session.Closing.{
  add, remove, ready, gone, close_it, call, run, once, run-closes_once,
}

abbrev ann : Peer
ann = record { id = 1; object = 11; has_publisher = true; has_subscriber = true }

abbrev bob : Peer
bob = record { id = 2; object = 12; has_publisher = true; has_subscriber = false }

-- Ann again, over a new connection.
abbrev ann_again : Peer
ann_again = record { id = 1; object = 13; has_publisher = false; has_subscriber = true }

abbrev both : SessionLocal
both = add_peer (add_peer (new_session 5) ann) bob

run-closes_once_example :
    (run (new_session 5) (add ann ∷ remove ann ∷ close_it ∷ [])).1
    ≡ once (run (new_session 5) (add ann ∷ remove ann ∷ close_it ∷ [])).0.closed
run-closes_once_example = run-closes_once 5 (add ann ∷ remove ann ∷ close_it ∷ [])

called_once : (run (new_session 5) (add ann ∷ remove ann ∷ close_it ∷ [])).1 ≡ 1
unfolding run call new_session add_peer put_peer remove_peer peer_at is_entry delete_peer
    close_session
called_once = refl

-- The old connection's end does not remove the new one.
replaced : get_peer (remove_peer (add_peer both ann_again) ann).0 1 ≡ some ann_again
unfolding get_peer new_session add_peer put_peer remove_peer peer_at is_entry delete_peer
    close_session
replaced = refl

published : publish_to 1 (both.peers) ≡ []
unfolding publish_to new_session add_peer put_peer
published = refl

subscribed : subscribe_from ann both.peers ≡ bob ∷ []
unfolding subscribe_from new_session add_peer put_peer
subscribed = refl

channels :
    get_data_channels (λ p. some (p + 100)) (λ p. some (p + 200)) (relay_ready both bob) 2
    ≡ 111 ∷ 212 ∷ []
unfolding get_data_channels peer_channels relay_channels relay_ready new_session add_peer put_peer
channels = refl

-- Where a relay outlives the last peer, its end does not close the session.
never_closed :
    (run (new_session 5) (add ann ∷ ready bob ∷ remove ann ∷ gone 2 ∷ [])).0 ≡ new_session 5
unfolding run call new_session add_peer put_peer remove_peer peer_at is_entry delete_peer
    close_session relay_ready relay_closed
never_closed = refl

label_twice : (add_label (add_label both 3).0 3).1 ≡ false
unfolding add_label has_label new_session add_peer put_peer
label_twice = refl

others : channel_peers 2 both.peers ≡ ann ∷ []
unfolding channel_peers new_session add_peer put_peer
others = refl
