-- ===== src/Buffer/Bucket.antt =====
-- pkg/buffer/bucket.go: the ring of packet slots, over one byte slice.
-- A slot is 1500 bytes: the packet's length in two bytes, then the packet. The slice that a call
-- returns is modelled by its bytes at that time. `src`, which only hands the slice back to its pool,
-- is left out.
pub mod Slots
pub mod Valid
mod Tests
pub mod Lookup
pub mod Keep
pub mod Gap
use ion_sfu.Prelude.{
  ℕ, zero, suc, ◌+◌, ◌-◌, ◌*◌, ◌/◌, Bool, true, false, not, ◌&&◌, ◌||◌, List, [], ◌∷◌, Option, none,
  some, ltb, leb, ◌==◌, if◌then◌else◌, length, add16, sub16, low16, Outcome, ok, err, panic,
}
use ion_sfu.Prelude.Bytes.{Bytes, put16, read16, copy_at, slice}

abbrev pub max_pkt_size : ℕ
max_pkt_size = 1500

pub data BucketError : Type 0 where
  packet_not_found buffer_too_small packet_too_old rtx_packet : BucketError

-- `size` is `len(b.buf)`; the byte at every index of `buf` is below 256.
pub record Bucket : Type 0 where
  pub buf : Bytes
  pub size : ℕ
  pub init : Bool
  pub step : ℕ
  pub head_sn : ℕ
  pub max_steps : ℕ

-- What a call returns, and the bucket after it.
abbrev pub Reply : Type 0
Reply = Outcome BucketError (List ℕ) × Bucket

-- `NewBucket` on a slice of `size` bytes; a slice from the pool may hold old packets. `none` stands
-- for a slice with no slot, for which the source's `maxSteps` is -1.
pub new_bucket : Bytes → ℕ → Option Bucket
new_bucket buf size =
    if ltb size max_pkt_size
    then none
    else some (record {
      buf = buf;
      size = size;
      init = false;
      step = 0;
      head_sn = 0;
      max_steps = size / max_pkt_size - 1;
    })

-- The two writes of `push` and `set`: the length, then the packet.
pub write_slot : Bytes → ℕ → List ℕ → Bytes
write_slot m off pkt = copy_at (put16 m off (low16 (length pkt))) (off + 2) pkt

-- A packet that does not fit behind the last slot makes the source panic.
pub push : Bucket → List ℕ → Reply
push b pkt =
    let off = b.step * max_pkt_size + 2 in
    let buf = write_slot b.buf (b.step * max_pkt_size) pkt in
    let step = if ltb b.max_steps (b.step + 1) then 0 else b.step + 1 in
    if leb (off + length pkt) b.size
    then (ok (slice buf off (length pkt)), record b { buf = buf; step = step })
    else (panic, b)

-- `b.headSN-sn+1`, on uint16
abbrev pub steps_back : Bucket → ℕ → ℕ
steps_back b sn = add16 (sub16 b.head_sn sn) 1

-- The position that `get` and `set` compute; `none` where the sum `maxSteps + pos + 1` is negative
-- too: there `get` returns nil, and `set` an error. A negative `pos` is `step` minus `back`.
pub slot_pos : Bucket → ℕ → Option ℕ
slot_pos b sn =
    let back = steps_back b sn in
    if ltb b.step back
    then (if ltb (b.max_steps + 1) (back - b.step)
        then none
        else some (b.max_steps + 1 - (back - b.step)))
    else some (b.step - back)

-- The read of `get` at a position; `ok none` is nil.
pub read_slot : Bucket → ℕ → ℕ → Outcome BucketError (Option (List ℕ))
read_slot b pos sn =
    let off = pos * max_pkt_size in
    let sz = read16 b.buf off in
    if ltb b.size off
    then ok none
    else if ltb b.size (off + 6)
    then panic
    else if not (read16 b.buf (off + 4) == sn)
    then ok none
    else if ltb b.size (off + 2 + sz)
    then panic
    else ok (some (slice b.buf (off + 2) sz))

pub get : Bucket → ℕ → Outcome BucketError (Option (List ℕ))
get b sn = elim (slot_pos b sn) [ none ↦ ok none | some pos ↦ read_slot b pos sn ]

-- `GetPacket` into a slice of capacity `cap`: the bytes that it copies, whose number it returns.
pub get_packet : Bucket → ℕ → ℕ → Outcome BucketError (List ℕ)
get_packet b cap sn = elim (get b sn) [
  | ok none ↦ err packet_not_found
  | ok (some p) ↦ if ltb cap (length p) then err buffer_too_small else ok p
  | err e ↦ err e
  | panic ↦ panic
]

pub write_late : Bucket → ℕ → ℕ → List ℕ → Reply
write_late b pos sn pkt =
    let off = pos * max_pkt_size in
    let buf = write_slot b.buf off pkt in
    if ltb b.size off
    then (err packet_too_old, b)
    else if ltb b.size (off + 6)
    then (panic, b)
    else if read16 b.buf (off + 4) == sn
    then (err rtx_packet, b)
    else if leb (off + 2 + length pkt) b.size
    then (ok (slice buf (off + 2) (length pkt)), record b { buf = buf })
    else (panic, b)

pub set : Bucket → ℕ → List ℕ → Reply
set b sn pkt =
    if leb (low16 (b.max_steps + 1)) (sub16 b.head_sn sn)
    then (err packet_too_old, b)
    else elim (slot_pos b sn) [
      | none ↦ (err packet_too_old, b)
      | some pos ↦ write_late b pos sn pkt
    ]

-- The loop of `AddPacket` over the missing numbers: `n` rounds from `step`.
pub skip : ℕ → ℕ → ℕ → ℕ
skip zero max_steps step = step
skip (suc n) max_steps step = skip n max_steps (if leb max_steps (step + 1) then 0 else step + 1)

abbrev pub started : Bucket → ℕ → Bucket
started b sn = if b.init then b else record b { head_sn = sub16 sn 1; init = true }

pub add_latest : Bucket → List ℕ → ℕ → Reply
add_latest b pkt sn =
    let diff = sub16 sn b.head_sn in
    push (record b { head_sn = sn; step = skip (diff - 1) b.max_steps b.step }) pkt

pub add_packet : Bucket → List ℕ → ℕ → Bool → Reply
add_packet b pkt sn latest =
    if latest then add_latest (started b sn) pkt sn else set (started b sn) sn pkt
