-- ===== src/Twcc.antt =====
-- pkg/twcc/twcc.go: the responder that collects arrival times and writes the transport-wide
-- feedback. The lock is left out. `payload` and `deltas` are the written parts of the arrays of 100
-- and 200 bytes, `t.payload[:t.len]` and `t.deltas[:t.deltaLen]`; a write past an array's end, which
-- makes the source panic, is `none`. The status and symbol numbers are those of pion/rtcp, which are
-- the ones of the feedback format that the source's comments describe.
pub mod Status
pub mod Feedback
pub mod Format
pub mod Fields
pub mod Chunks
pub mod Runs
pub mod Steps
pub mod Ends
pub mod Packing
pub mod Rounds
pub mod Report
pub mod Loop
pub mod Flush
pub mod Start
pub mod Build
pub mod Gaps
pub mod Arrival
mod Tests
use ion_sfu.Prelude.{
  ℕ, zero, suc, ◌+◌, ◌-◌, ◌*◌, ◌/◌, ◌%◌, ◌^◌, Bool, true, false, not, ◌&&◌, ◌||◌, List, [], ◌∷◌,
  ◌++◌, Option, none, some, ltb, leb, ◌==◌, if◌then◌else◌, length, bit_or, hi_byte, lo_byte, add8,
}

-- `rtpExtInfo`; a lost packet has the timestamp 0.
pub record RtpExtInfo : Type 0 where
  pub ext_tsn : ℕ
  pub timestamp : ℕ

pub record Responder : Type 0 where
  pub ext_info : List RtpExtInfo
  pub last_report : ℕ
  pub cycles : ℕ
  pub last_ext_sn : ℕ
  pub pkt_ctn : ℕ
  pub last_sn : ℕ
  pub m_ssrc : ℕ
  pub s_ssrc : ℕ
  pub payload : List ℕ
  pub deltas : List ℕ
  pub chunk : ℕ

-- `sender` is the random number of the source.
pub new_transport_wide_cc_responder : (ssrc sender : ℕ) → Responder
new_transport_wide_cc_responder ssrc sender = record {
  ext_info = [];
  last_report = 0;
  cycles = 0;
  last_ext_sn = 0;
  pkt_ctn = 0;
  last_sn = 0;
  m_ssrc = ssrc;
  s_ssrc = sender;
  payload = [];
  deltas = [];
  chunk = 0;
}

abbrev pub not_received : ℕ
not_received = 0

abbrev pub small_delta : ℕ
small_delta = 1

abbrev pub large_delta : ℕ
large_delta = 2

abbrev pub without_delta : ℕ
without_delta = 3

abbrev pub one_bit : ℕ
one_bit = 0

abbrev pub two_bit : ℕ
two_bit = 1

abbrev pub bytes16 : ℕ → List ℕ
bytes16 x = hi_byte x ∷ lo_byte x ∷ []

abbrev pub bytes32 : ℕ → List ℕ
bytes32 x = x / 2 ^ 24 % 256 ∷ x / 2 ^ 16 % 256 ∷ x / 256 % 256 ∷ x % 256 ∷ []

-- The loss of a bit of `val` above `size` and the shift, on uint16.
pub set_n_bits_of_uint16 : (src size start_index val : ℕ) → ℕ
set_n_bits_of_uint16 src size start_index val =
    if ltb 16 (start_index + size)
    then 0
    else bit_or src (val % 2 ^ size * 2 ^ (16 - size - start_index))

-- The header replaces what the payload held.
pub write_header : Responder → (b_sn packet_count ref_time : ℕ) → Responder
write_header t b_sn packet_count ref_time = record t {
  payload =
      bytes32 t.s_ssrc
      ++ (bytes32 t.m_ssrc
          ++ (bytes16 b_sn
              ++ (bytes16 packet_count ++ bytes32 (bit_or (ref_time * 256 % 2 ^ 32) t.pkt_ctn))));
}

-- `binary.BigEndian.PutUint16(t.payload[t.len:], w)`, `t.len += 2`
pub write_word : Responder → ℕ → Option Responder
write_word t w =
    if leb (length t.payload + 2) 100
    then some (record t { payload = t.payload ++ bytes16 w })
    else none

pub write_run_length_chunk : Responder → (symbol run_length : ℕ) → Option Responder
write_run_length_chunk t symbol run_length =
    write_word t (bit_or (symbol * 2 ^ 13 % 2 ^ 16) run_length)

pub create_status_symbol_chunk : Responder → (symbol_size symbol i : ℕ) → Responder
create_status_symbol_chunk t symbol_size symbol i =
    let num_of_bits = symbol_size + 1 in
    record t { chunk = set_n_bits_of_uint16 t.chunk num_of_bits (num_of_bits * i + 2) symbol }

pub write_status_symbol_chunk : Responder → ℕ → Option Responder
write_status_symbol_chunk t symbol_size =
    let typed = set_n_bits_of_uint16 t.chunk 1 0 1 in
    write_word (record t { chunk = 0 }) (set_n_bits_of_uint16 typed 1 1 symbol_size)

pub write_delta : Responder → (delta_type delta : ℕ) → Option Responder
write_delta t delta_type delta =
    if delta_type == small_delta
    then (if leb (length t.deltas + 1) 200
        then some (record t { deltas = t.deltas ++ (delta % 256 ∷ []) })
        else none)
    else (if leb (length t.deltas + 2) 200
        then some (record t { deltas = t.deltas ++ bytes16 delta })
        else none)
