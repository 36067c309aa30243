-- ===== src/Sfu/Sequencer.antt =====
-- pkg/sfu/sequencer.go: which source packet was sent under which sequence number.
-- The lock is left out: each call runs alone. The pointer that `push` returns is modelled by the
-- index of the entry, and `get_seq_no_pairs` takes the time, in milliseconds since `startTime`, as
-- an argument. Slice indices are in range as long as `step` is below `max`, the slice's length.
pub mod Lookup
pub mod Late
mod Tests
use ion_sfu.Prelude.{
  ℕ, zero, suc, ◌+◌, ◌-◌, ◌*◌, ◌/◌, ◌%◌, ◌^◌, Bool, true, false, ◌||◌, ◌&&◌, List, [], ◌∷◌, ◌++◌,
  Option, none, some, ltb, leb, ◌==◌, if◌then◌else◌, length, get_or, set, replicate, sub16, sub32,
  bit_or, low16,
}

abbrev pub ignore_retransmission : ℕ
ignore_retransmission = 100

pub record PacketMeta : Type 0 where
  pub source_seq_no : ℕ
  pub target_seq_no : ℕ
  pub timestamp : ℕ
  pub last_nack : ℕ
  pub layer : ℕ
  pub misc : ℕ

abbrev pub zero_meta : PacketMeta
zero_meta = record {
  source_seq_no = 0;
  target_seq_no = 0;
  timestamp = 0;
  last_nack = 0;
  layer = 0;
  misc = 0;
}

-- `uint32(tlz0Idx)<<16 | uint32(picID)`
unfoldable pub set_vp8_payload_meta : PacketMeta → ℕ → ℕ → PacketMeta
set_vp8_payload_meta p tlz0_idx pic_id = record p {
  misc = bit_or (tlz0_idx * 2 ^ 16 % 2 ^ 32) pic_id;
}

unfoldable pub get_vp8_payload_meta : PacketMeta → ℕ × ℕ
get_vp8_payload_meta p = (p.misc / 2 ^ 16 % 256, low16 p.misc)

pub record Sequencer : Type 0 where
  pub init : Bool
  pub max : ℕ
  pub seq : List PacketMeta
  pub step : ℕ
  pub head_sn : ℕ

unfoldable pub new_sequencer : ℕ → Sequencer
new_sequencer max_track = record {
  init = false;
  max = max_track;
  seq = replicate max_track zero_meta;
  step = 0;
  head_sn = 0;
}

-- `step++`, and back to 0 at the end.
abbrev pub advance : ℕ → ℕ → ℕ
advance max step = if leb max (step + 1) then 0 else step + 1

-- The loop over the numbers that were passed over: `k` rounds.
pub pass_over : ℕ → ℕ → ℕ → ℕ
pass_over zero max step = step
pass_over (suc k) max step = pass_over k max (advance max step)

abbrev pub started : Sequencer → ℕ → Sequencer
started n off_sn = if n.init then n else record n { head_sn = off_sn; init = true }

-- The end of `push`: the entry goes to index `n.step`, whatever was computed for `step`.
pub store : Sequencer → PacketMeta → Option ℕ × Sequencer
store n m = (some n.step, record n { seq = set n.seq n.step m; step = advance n.max n.step })

abbrev pub new_meta : ℕ → ℕ → ℕ → ℕ → PacketMeta
new_meta sn off_sn timestamp layer = record zero_meta {
  source_seq_no = sn;
  target_seq_no = off_sn;
  timestamp = timestamp;
  layer = layer;
}

-- `step = n.step - int(n.headSN-offSn)` is negative, and `step*-1 >= n.max`.
abbrev pub too_old : Sequencer → ℕ → Bool
too_old n off_sn =
    let back = sub16 n.head_sn off_sn in
    if ltb n.step back then leb n.max (back - n.step) else false

pub push_head : Sequencer → ℕ → PacketMeta → Option ℕ × Sequencer
push_head n off_sn m =
    let inc = sub16 off_sn n.head_sn in
    store (record n { step = pass_over (inc - 1) n.max n.step; head_sn = off_sn }) m

pub push : Sequencer → (sn off_sn timestamp layer : ℕ) → Bool → Option ℕ × Sequencer
push n sn off_sn timestamp layer head =
    let s = started n off_sn in
    let m = new_meta sn off_sn timestamp layer in
    if head then push_head s off_sn m else if too_old s off_sn then (none, s) else store s m

-- The index that `getSeqNoPairs` looks at; `none` where it goes on with the next number. The
-- difference is an int, so that `- 1` does not wrap.
pub entry_of : Sequencer → ℕ → Option ℕ
entry_of n sn =
    let back = sub16 n.head_sn sn + 1 in
    if ltb n.step back
    then (if leb n.max (back - n.step) then none else some (n.max - (back - n.step)))
    else some (n.step - back)

-- `seq.lastNack == 0 || refTime-seq.lastNack > ignoreRetransmission`
abbrev pub may_resend : ℕ → PacketMeta → Bool
may_resend ref_time m = (m.last_nack == 0) || ltb ignore_retransmission (sub32 ref_time m.last_nack)

-- The body of the loop of `getSeqNoPairs` at an entry: it is returned, and marked with the time,
-- if it is the packet asked for and was not sent again just before.
pub resend_at : ℕ → Sequencer → ℕ → ℕ → List PacketMeta × Sequencer
resend_at ref_time n sn i =
    let m = get_or n.seq i zero_meta in
    let marked = record m { last_nack = ref_time } in
    if (m.target_seq_no == sn) && may_resend ref_time m
    then (marked ∷ [], record n { seq = set n.seq i marked })
    else ([], n)

-- One round of the loop.
pub resend_one : ℕ → Sequencer → ℕ → List PacketMeta × Sequencer
resend_one ref_time n sn = elim (entry_of n sn) [
  | none ↦ ([], n)
  | some i ↦ resend_at ref_time n sn i
]

pub get_seq_no_pairs : ℕ → Sequencer → List ℕ → List PacketMeta × Sequencer
get_seq_no_pairs ref_time n [] = ([], n)
get_seq_no_pairs ref_time n (sn ∷ sns) =
    let (ms, n') = resend_one ref_time n sn in
    let (rest, n'') = get_seq_no_pairs ref_time n' sns in (ms ++ rest, n'')
