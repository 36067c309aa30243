-- ===== src/Buffer/Vp8.antt =====
-- pkg/buffer/helpers.go: the VP8 payload descriptor; pkg/sfu/helpers.go: its rewriting.
-- A byte is a number below 256, and `b & 0x80 > 0` is bit 7 of `b`. Each read stands behind the
-- source's length check, so the default of `get_or` is never seen.
pub mod Rewrite
mod Tests
use ion_sfu.Prelude.{
  ℕ, ◌+◌, ◌*◌, ◌/◌, ◌%◌, ◌^◌, Bool, true, false, not, ◌&&◌, ◌||◌, List, Option, none, some, ltb,
  leb, ◌==◌, if◌then◌else◌, length, get_or, set, be16, hi_byte, lo_byte, bit_or,
}

pub data Vp8Error : Type 0 where
  short_packet nil_packet : Vp8Error

pub record Vp8 : Type 0 where
  pub temporal_supported : Bool
  pub picture_id : ℕ
  pub pic_id_idx : ℕ
  pub m_bit : Bool
  pub tl0_pic_idx : ℕ
  pub tlz_idx : ℕ
  pub tid : ℕ
  pub is_key_frame : Bool

abbrev pub zero_vp8 : Vp8
zero_vp8 = record {
  temporal_supported = false;
  picture_id = 0;
  pic_id_idx = 0;
  m_bit = false;
  tl0_pic_idx = 0;
  tlz_idx = 0;
  tid = 0;
  is_key_frame = false;
}

-- `Unmarshal` returns an error or nil, and leaves what it has read in the struct either way.
abbrev pub Parsed : Type 0
Parsed = Option Vp8Error × Vp8

abbrev pub bit : ℕ → ℕ → Bool
bit k b = b / 2 ^ k % 2 == 1

abbrev pub at : List ℕ → ℕ → ℕ
at payload idx = get_or payload idx 0

-- The P bit of the VP8 payload, behind the descriptor.
unfoldable pub read_key_frame : Vp8 → List ℕ → ℕ → Bool → Parsed
read_key_frame p payload idx s =
    if ltb (length payload) (idx + 1)
    then (some short_packet, p)
    else (none, record p { is_key_frame = not (bit 0 (at payload idx)) && s })

unfoldable pub read_end : Vp8 → List ℕ → ℕ → Bool → Parsed
read_end p payload idx s =
    if leb (length payload) idx
    then (some short_packet, p)
    else read_key_frame p payload (idx + 1) s

-- The byte with the TID, which the T or the K bit announces.
unfoldable pub read_tid : Vp8 → List ℕ → ℕ → Bool → Bool → Parsed
read_tid p payload idx s k =
    if p.temporal_supported || k
    then (if ltb (length payload) (idx + 1 + 1)
        then (some short_packet, p)
        else read_end (record p { tid = at payload (idx + 1) / 64 }) payload (idx + 1) s)
    else read_end p payload idx s

-- TL0PICIDX, which the L bit announces.
unfoldable pub read_tl0_pic_idx : Vp8 → List ℕ → ℕ → Bool → Bool → Bool → Parsed
read_tl0_pic_idx p payload idx s k l =
    if l
    then (if ltb (length payload) (idx + 1 + 1)
        then (some short_packet, p)
        else read_tid (record p { tlz_idx = idx + 1; tl0_pic_idx = at payload (idx + 1) }) payload
            (idx + 1) s k)
    else read_tid p payload idx s k

-- The picture id at `idx`, of 7 bits, or of 15 where the M bit is set.
unfoldable pub read_picture_id : Vp8 → List ℕ → ℕ → Bool → Bool → Bool → Parsed
read_picture_id p payload idx s k l =
    let pid = at payload idx % 128 in
    let q = record p { pic_id_idx = idx } in
    if bit 7 (at payload idx)
    then (if ltb (length payload) (idx + 1 + 1)
        then (some short_packet, q)
        else read_tl0_pic_idx
            (record q { m_bit = true; picture_id = be16 pid (at payload (idx + 1)) }) payload
            (idx + 1) s k l)
    else read_tl0_pic_idx (record q { picture_id = pid }) payload idx s k l

-- The extended descriptor, whose first byte is at index 1.
unfoldable pub read_extended : Vp8 → List ℕ → Bool → Parsed
read_extended p payload s =
    let x = at payload 1 in
    let q = record p { temporal_supported = bit 5 x } in
    let k = bit 4 x in
    let l = bit 6 x in
    if bit 7 x
    then (if ltb (length payload) 3
        then (some short_packet, q)
        else read_picture_id q payload 2 s k l)
    else read_tl0_pic_idx q payload 1 s k l

-- `payload` is `none` for nil.
unfoldable pub unmarshal : Vp8 → Option (List ℕ) → Parsed
unmarshal p none = (some nil_packet, p)
unmarshal p (some payload) =
    if ltb (length payload) 1
    then (some short_packet, p)
    else let s = bit 4 (at payload 0) in
      if bit 7 (at payload 0)
      then (if ltb (length payload) 2 then (some short_packet, p) else read_extended p payload s)
      else read_key_frame p payload 1 s

-- `modifyVP8TemporalPayload`; an index out of range would panic, and here changes nothing.
pub modify_vp8_temporal_payload : List ℕ → ℕ → ℕ → ℕ → ℕ → Bool → List ℕ
modify_vp8_temporal_payload payload pic_id_idx tlz0_idx pic_id tlz0_id m_bit =
    let hi = set payload pic_id_idx (hi_byte pic_id) in
    let marked =
      set (set hi pic_id_idx (bit_or (get_or hi pic_id_idx 0) 128)) (pic_id_idx + 1)
        (lo_byte pic_id) in
    set (if m_bit then marked else hi) tlz0_idx tlz0_id
