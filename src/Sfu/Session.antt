-- ===== src/Sfu/Session.antt =====
-- pkg/sfu/session.go: the peers of a session, who is subscribed to whom, and when the session closes.
-- A map is a list of entries, in the order in which Go goes over it. Peers and data channels are
-- objects of the WebRTC library's: `object` stands for the pointer. A peer's `Publisher()` and
-- `Subscriber()` may be nil.
pub mod Closing
mod Tests
use ion_sfu.Prelude.{
  ℕ, ◌+◌, Bool, true, false, ◌&&◌, List, [], ◌∷◌, ◌++◌, Option, none, some, ◌==◌, if◌then◌else◌,
  length,
}

pub record Peer : Type 0 where
  pub id : ℕ
  pub object : ℕ
  pub has_publisher : Bool
  pub has_subscriber : Bool

pub record SessionLocal : Type 0 where
  pub id : ℕ
  pub peers : List Peer
  pub relay_peers : List Peer
  pub closed : Bool
  pub fan_out_dcs : List ℕ

unfoldable pub new_session : ℕ → SessionLocal
new_session id = record { id = id; peers = []; relay_peers = []; closed = false; fan_out_dcs = [] }

-- `peers[id] = peer`
unfoldable pub put_peer : List Peer → Peer → List Peer
put_peer [] peer = peer ∷ []
put_peer (p ∷ ps) peer =
    let rest = put_peer ps peer in if p.id == peer.id then peer ∷ ps else p ∷ rest

-- `peers[id]`, nil where there is none.
unfoldable pub peer_at : List Peer → ℕ → Option Peer
peer_at [] id = none
peer_at (p ∷ ps) id = let later = peer_at ps id in if p.id == id then some p else later

-- `delete(peers, id)`
unfoldable pub delete_peer : List Peer → ℕ → List Peer
delete_peer [] id = []
delete_peer (p ∷ ps) id = let rest = delete_peer ps id in if p.id == id then ps else p ∷ rest

unfoldable pub add_peer : SessionLocal → Peer → SessionLocal
add_peer s peer = record s { peers = put_peer s.peers peer }

unfoldable pub get_peer : SessionLocal → ℕ → Option Peer
get_peer s peer_id = peer_at s.peers peer_id

unfoldable pub has_label : List ℕ → ℕ → Bool
has_label [] label = false
has_label (lbl ∷ lbls) label =
    let later = has_label lbls label in if label == lbl then true else later

-- The labels behind `AddDatachannel`, and whether the label is new, so that the other peers get a data
-- channel of it.
unfoldable pub add_label : SessionLocal → ℕ → SessionLocal × Bool
add_label s label =
    if has_label s.fan_out_dcs label
    then (s, false)
    else (record s { fan_out_dcs = s.fan_out_dcs ++ (label ∷ []) }, true)

-- The peers for which `AddDatachannel` opens a data channel of a new label.
unfoldable pub channel_peers : (owner : ℕ) → List Peer → List Peer
channel_peers owner [] = []
channel_peers owner (p ∷ ps) =
    let rest = channel_peers owner ps in
    if p.id == owner then rest else if p.has_subscriber then p ∷ rest else rest

-- The session, and whether `onCloseHandler` is called, where one is set.
unfoldable pub close_session : SessionLocal → SessionLocal × Bool
close_session s = if s.closed then (s, false) else (record s { closed = true }, true)

-- `s.peers[pid] == p`
unfoldable pub is_entry : Option Peer → Peer → Bool
is_entry none p = false
is_entry (some q) p = q.object == p.object

unfoldable pub remove_peer : SessionLocal → Peer → SessionLocal × Bool
remove_peer s p =
    let left = if is_entry (peer_at s.peers p.id) p then delete_peer s.peers p.id else s.peers in
    let s' : SessionLocal = record s { peers = left } in
    if length left + length s.relay_peers == 0 then close_session s' else (s', false)

-- The callbacks that `AddRelayPeer` gives to the relay, `OnReady` and `OnClose`.
unfoldable pub relay_ready : SessionLocal → Peer → SessionLocal
relay_ready s peer = record s { relay_peers = put_peer s.relay_peers peer }

unfoldable pub relay_closed : SessionLocal → ℕ → SessionLocal
relay_closed s peer_id = record s { relay_peers = delete_peer s.relay_peers peer_id }

-- `Publish`: the peers to which the router's down tracks are added.
unfoldable pub publish_to : (router_id : ℕ) → List Peer → List Peer
publish_to router_id [] = []
publish_to router_id (p ∷ ps) =
    let rest = publish_to router_id ps in
    if router_id == p.id then rest else if p.has_subscriber then p ∷ rest else rest

-- `Subscribe`: the peers whose routers add down tracks for this one.
unfoldable pub subscribe_from : Peer → List Peer → List Peer
subscribe_from peer [] = []
subscribe_from peer (p ∷ ps) =
    let rest = subscribe_from peer ps in
    if p.object == peer.object then rest else if p.has_publisher then p ∷ rest else rest

-- `GetDataChannels`, where `open_channel` is the subscriber's open channel of the label, and
-- `relay_channel` the relay peer's.
unfoldable pub peer_channels : (ℕ → Option ℕ) → (peer_id : ℕ) → List Peer → List ℕ
peer_channels open_channel peer_id [] = []
peer_channels open_channel peer_id (p ∷ ps) =
    let rest = peer_channels open_channel peer_id ps in
    let with_channel : List ℕ = elim (open_channel p.object) [
      | none ↦ rest
      | some dc ↦ dc ∷ rest
    ] in
    if peer_id == p.id then rest else if p.has_subscriber then with_channel else rest

unfoldable pub relay_channels : (ℕ → Option ℕ) → List Peer → List ℕ
relay_channels relay_channel [] = []
relay_channels relay_channel (p ∷ ps) =
    let rest = relay_channels relay_channel ps in
    elim (relay_channel p.object) [ none ↦ rest | some dc ↦ dc ∷ rest ]

unfoldable pub get_data_channels :
    (open_channel relay_channel : ℕ → Option ℕ) → SessionLocal → ℕ → List ℕ
get_data_channels open_channel relay_channel s peer_id =
    peer_channels open_channel peer_id s.peers ++ relay_channels relay_channel s.relay_peers
