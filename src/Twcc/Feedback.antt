-- ===== src/Twcc/Feedback.antt =====
-- pkg/twcc/twcc.go: Push and buildTransportCCPacket.
-- Times are positive numbers: nanoseconds, and microseconds in the entries. `sort` stands for
-- `sort.Slice` by `ExtTSN`, `marshal` for `rtcp.Header.Marshal` with the padding flag and the
-- length; the header's count and type are fixed. Extended numbers stay below 2^32 - 1.
use ion_sfu.Prelude.{
  ℕ, zero, suc, ◌+◌, ◌-◌, ◌*◌, ◌/◌, ◌%◌, ◌^◌, Bool, true, false, not, ◌&&◌, ◌||◌, List, [], ◌∷◌,
  ◌++◌, Option, none, some, ltb, leb, ◌==◌, if◌then◌else◌, length, replicate, bit_or, low16, add8,
}
use ion_sfu.Twcc.{
  RtpExtInfo, Responder, not_received, small_delta, large_delta, write_header, write_delta,
}
use ion_sfu.Twcc.Status.{StatusQueue, reset, encode_status, flush_statuses}

-- The entries for `n` lost packets from `j` on.
unfoldable pub lost : (j n : ℕ) → List RtpExtInfo
lost j zero = []
lost j (suc n) = record { ext_tsn = j; timestamp = 0 } ∷ lost (j + 1) n

-- The loop over the sorted entries: those to report, and `lastExtSN`.
unfoldable pub collect : ℕ → List RtpExtInfo → List RtpExtInfo × ℕ
collect last_ext_sn [] = ([], last_ext_sn)
collect last_ext_sn (e ∷ es) =
    let old = ltb e.ext_tsn last_ext_sn in
    let gap =
      if last_ext_sn == 0 then [] else lost (last_ext_sn + 1) (e.ext_tsn - (last_ext_sn + 1)) in
    let (rest, last') = collect (if old then last_ext_sn else e.ext_tsn) es in
    (if old then rest else gap ++ (e ∷ rest), last')

-- The variables of the second loop.
pub record Building : Type 0 where
  pub responder : Responder
  pub first_recv : Bool
  pub timestamp : ℕ
  pub queue : StatusQueue

-- A delta in units of 250 microseconds, cut towards 0: its sign and its size.
unfoldable pub delta_of : (timestamp before : ℕ) → Bool × ℕ
delta_of timestamp before =
    if leb before timestamp
    then (false, (timestamp - before) / 250)
    else (ltb 0 ((before - timestamp) / 250), (before - timestamp) / 250)

-- `int16(delta)` and its clipping, as uint16: the clipping looks at the sign of the int16.
unfoldable pub clip_delta : Bool → ℕ → ℕ
clip_delta negative size =
    let r_delta = if negative then (65536 - size % 65536) % 65536 else size % 65536 in
    let fits = if negative then leb size 32768 else leb size 32767 in
    if fits then r_delta else if ltb 0 r_delta && ltb r_delta 32768 then 32767 else 32768

-- The header, at the first packet that was received.
unfoldable pub begin_report : Building → (base_sn count timestamp : ℕ) → Building
begin_report b base_sn count timestamp =
    let ref_time = timestamp / 64000 in
    let t = write_header b.responder (low16 base_sn) (low16 count) (ref_time % 2 ^ 32) in
    if b.first_recv then b else record b {
      responder = record t { pkt_ctn = add8 t.pkt_ctn 1 };
      first_recv = true;
      timestamp = ref_time * 64000;
    }

-- The status of a packet; a received one has its delta written.
unfoldable pub receive : Building → (base_sn count : ℕ) → RtpExtInfo → Option (ℕ × Building)
receive b base_sn count stat =
    let b' = begin_report b base_sn count stat.timestamp in
    let (negative, size) = delta_of stat.timestamp b'.timestamp in
    let status = if negative || ltb 255 size then large_delta else small_delta in
    let value = if negative || ltb 255 size then clip_delta negative size else size in
    if stat.timestamp == 0
    then some (not_received, b)
    else elim (write_delta b'.responder status value) [
      | none ↦ none
      | some t ↦ some (status, record b' { responder = t; timestamp = stat.timestamp })
    ]

unfoldable pub report : (base_sn count : ℕ) → Building → List RtpExtInfo → Option Building
report base_sn count b [] = some b
report base_sn count b (stat ∷ stats) = elim (receive b base_sn count stat) [
  | none ↦ none
  | some (status, b') ↦ elim (encode_status b'.responder b'.queue status) [
    | none ↦ none
    | some (t, q) ↦ report base_sn count (record b' { responder = t; queue = q }) stats
  ]
]

-- `for pLen%4 != 0`
abbrev pub pad_size : ℕ → ℕ
pad_size p_len = (4 - p_len % 4) % 4

-- The packet: the header, the payload, the deltas and the padding, whose last byte is its size.
unfoldable pub assemble : (Bool → ℕ → List ℕ) → Responder → List ℕ
assemble marshal t =
    let p_len = length t.payload + length t.deltas + 4 in
    let pad = pad_size p_len in
    let body = marshal (not (pad == 0)) ((p_len + pad) / 4 - 1) ++ (t.payload ++ t.deltas) in
    if pad == 0 then body else body ++ (replicate (pad - 1) 0 ++ (pad ∷ []))

-- The packet, which is `none` for nil, and the responder after it; `none` is a panic.
unfoldable pub build_transport_cc_packet :
    (List RtpExtInfo → List RtpExtInfo)
    → (Bool → ℕ → List ℕ)
    → Responder
    → Option (Option (List ℕ) × Responder)
build_transport_cc_packet sort marshal t =
    let (tcc_pkts, last') = collect t.last_ext_sn (sort t.ext_info) in
    let base_sn : ℕ = elim tcc_pkts [ [] ↦ 0 | e ∷ es ↦ e.ext_tsn ] in
    let start : Building = record {
      responder = record t { ext_info = []; last_ext_sn = last' };
      first_recv = false;
      timestamp = 0;
      queue = reset [];
    } in
    if length t.ext_info == 0
    then some (none, t)
    else elim (report base_sn (length tcc_pkts) start tcc_pkts) [
      | none ↦ none
      | some b ↦ elim (flush_statuses b.responder b.queue) [
        | none ↦ none
        | some t' ↦ some (some (assemble marshal t'), record t' { deltas = [] })
      ]
    ]

-- The first half of `Push`: the packet is noted under its extended number.
unfoldable pub note : Responder → (sn time_ns : ℕ) → Responder
note t sn time_ns =
    let cycles =
      if ltb sn 4095 && ltb 61440 t.last_sn then (t.cycles + 65536) % 2 ^ 32 else t.cycles in
    record t {
      cycles = cycles;
      ext_info =
          t.ext_info ++ (record { ext_tsn = bit_or cycles sn; timestamp = time_ns / 1000 } ∷ []);
      last_report = if t.last_report == 0 then time_ns else t.last_report;
      last_sn = sn;
    }

-- Whether feedback is due; a negative `delta` is none of 50 ms or 100 ms.
unfoldable pub due : Responder → (time_ns : ℕ) → Bool → Bool
due t time_ns marker =
    let delta = time_ns - t.last_report in
    ltb 20 (length t.ext_info)
    && not (t.m_ssrc == 0)
    && (leb 100000000 delta || ltb 100 (length t.ext_info) || (marker && leb 50000000 delta))

-- What it hands to `onFeedback`, if anything, and the responder after it; `none` is a panic.
unfoldable pub push :
    (List RtpExtInfo → List RtpExtInfo)
    → (Bool → ℕ → List ℕ)
    → Responder
    → (sn time_ns : ℕ) → Bool
    → Option (Option (List ℕ) × Responder)
push sort marshal t sn time_ns marker =
    let noted = note t sn time_ns in
    if due noted time_ns marker
    then elim (build_transport_cc_packet sort marshal noted) [
      | none ↦ none
      | some (pkt, t') ↦ some (pkt, record t' { last_report = time_ns })
    ]
    else some (none, noted)
