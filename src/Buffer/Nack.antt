-- ===== src/Buffer/Nack.antt =====
-- pkg/buffer/nack.go: the queue of lost packets and the NACK pairs built from it.
-- A `[]nack` is a list; `n.nacks[i]` is read only where `i` is in range, so the default that
-- `get_or` wants is never seen. A nil slice of pairs and an empty one are both `[]`.
pub mod Order
pub mod Queue
pub mod Contents
pub mod Decode
pub mod Rounds
pub mod Wrap
pub mod Valid
mod Tests
use ion_sfu.Prelude.{
  ℕ, zero, suc, ◌+◌, ◌-◌, ◌%◌, ◌^◌, Bool, true, false, not, ◌||◌, ◌&&◌, List, [], ◌∷◌, ◌++◌, ltb,
  leb, ◌==◌, if◌then◌else◌, length, get_or, take, drop, add8, add16, sub16, sub32, low16, bit_or,
}
use ion_sfu.Search.{search}

abbrev pub max_nack_times : ℕ
max_nack_times = 3

abbrev pub max_nack_cache : ℕ
max_nack_cache = 100

-- `nack`: an extended sequence number (cycles and 16 bits) and how often it was asked for.
pub record Nack : Type 0 where
  pub sn : ℕ
  pub nacked : ℕ

pub record NackQueue : Type 0 where
  pub nacks : List Nack
  pub kf_sn : ℕ

-- `rtcp.NackPair`, a packet id and the bitmap of the sixteen ids after it.
pub record NackPair : Type 0 where
  pub packet_id : ℕ
  pub lost_packets : ℕ

abbrev pub new_nack_queue : NackQueue
new_nack_queue = record { nacks = []; kf_sn = 0 }

abbrev pub zero_nack : Nack
zero_nack = record { sn = 0; nacked = 0 }

-- `n.nacks[i].sn >= extSN`
abbrev pub reaches : List Nack → ℕ → ℕ → Bool
reaches ns ext_sn i = leb ext_sn (get_or ns i zero_nack).sn

pub position : List Nack → ℕ → ℕ
position ns ext_sn = search (length ns) (reaches ns ext_sn)

-- `copy(n.nacks[i:], n.nacks[i+1:])`, then the last element is cut off.
pub remove : NackQueue → ℕ → NackQueue
remove q ext_sn =
    let i = position q.nacks ext_sn in
    if leb (length q.nacks) i || not ((get_or q.nacks i zero_nack).sn == ext_sn)
    then q
    else record q { nacks = take i q.nacks ++ drop (i + 1) q.nacks }

-- `copy(n.nacks, n.nacks[1:])`: every element moves one place down, and the last one, which
-- nothing overwrites, stays.
pub shift_down : List Nack → List Nack
shift_down ns = drop 1 ns ++ drop (length ns - 1) ns

pub push : NackQueue → ℕ → NackQueue
push q ext_sn =
    let i = position q.nacks ext_sn in
    let fresh : Nack = record { sn = ext_sn; nacked = 0 } in
    let grown =
      if i == length q.nacks
      then q.nacks ++ (fresh ∷ [])
      else take i q.nacks ++ (fresh ∷ drop i q.nacks) in
    if ltb i (length q.nacks) && ((get_or q.nacks i zero_nack).sn == ext_sn)
    then q
    else record q { nacks = if leb max_nack_cache (length grown) then shift_down grown else grown }

-- The variables of the loop of `pairs`: `n.nacks[:i]`, `n.kfSN`, `askKF`, `np` and `nps`.
pub record PairsState : Type 0 where
  pub kept : List Nack
  pub kf_sn : ℕ
  pub ask_kf : Bool
  pub packet_id : ℕ
  pub lost_packets : ℕ
  pub out : List NackPair

-- `1 << k` on uint16
abbrev pub shl16 : ℕ → ℕ
shl16 k = if ltb k 16 then 2 ^ k else 0

-- The pair under construction, `np`.
abbrev pub current : PairsState → NackPair
current s = record { packet_id = s.packet_id; lost_packets = s.lost_packets }

-- The end of a round, for a packet that is asked for: it opens a new pair or sets a bit in `np`.
pub add_to_pair : PairsState → ℕ → PairsState
add_to_pair s id =
    if (s.packet_id == 0) || ltb (add16 s.packet_id 16) id
    then record s {
      out = if s.packet_id == 0 then s.out else s.out ++ (current s ∷ []);
      packet_id = id;
      lost_packets = 0;
    }
    else record s { lost_packets = bit_or s.lost_packets (shl16 (sub16 (sub16 id s.packet_id) 1)) }

-- One round of the loop of `pairs`.
pub pairs_step : ℕ → PairsState → Nack → PairsState
pairs_step head_sn s nck =
    if leb max_nack_times nck.nacked
    then (if ltb s.kf_sn nck.sn then record s { kf_sn = nck.sn; ask_kf = true } else s)
    else if leb (sub32 head_sn 2) nck.sn
    then record s { kept = s.kept ++ (nck ∷ []) }
    else add_to_pair
        (record s { kept = s.kept ++ (record nck { nacked = add8 nck.nacked 1 } ∷ []) })
        (low16 nck.sn)

pub pairs_loop : ℕ → PairsState → List Nack → PairsState
pairs_loop head_sn s [] = s
pairs_loop head_sn s (nck ∷ ns) = pairs_loop head_sn (pairs_step head_sn s nck) ns

abbrev pub pairs_start : NackQueue → PairsState
pairs_start q = record {
  kept = [];
  kf_sn = q.kf_sn;
  ask_kf = false;
  packet_id = 0;
  lost_packets = 0;
  out = [];
}

-- After the loop: the pair under construction is appended, if there is one.
pub flush : PairsState → List NackPair
flush s = if s.packet_id == 0 then s.out else s.out ++ (current s ∷ [])

pub pairs : NackQueue → ℕ → List NackPair × Bool × NackQueue
pairs q head_sn =
    if length q.nacks == 0
    then ([], false, q)
    else let s = pairs_loop head_sn (pairs_start q) q.nacks in
      (flush s, s.ask_kf, record { nacks = s.kept; kf_sn = s.kf_sn })
