-- ===== src/Twcc/Report.antt =====
-- The loop over the packets to report: statuses, deltas and chunks.
use ion_sfu.Prelude.{
  ℕ, suc, ◌+◌, ◌%◌, ◌≤◌, ◌≡◌, refl, sym, ap, ◌∙◌, true, false, ◌||◌, List, [], ◌∷◌, ◌++◌, ltb, leb,
  ◌==◌, if◌then◌else◌, length, arith, Bool-cases, inl, inr, Option, none, some,
}
use ion_sfu.Twcc.{RtpExtInfo, small_delta, large_delta, not_received, write_delta, bytes16}
use ion_sfu.Twcc.Feedback.{Building, delta_of, clip_delta, begin_report, receive}
use ion_sfu.Twcc.Runs.{append-nil}

-- The packets that arrived.
unfoldable pub arrived : List RtpExtInfo → ℕ
arrived [] = 0
arrived (e ∷ es) = let n = arrived es in if e.timestamp == 0 then n else suc n

-- A packet's status and its delta's bytes, from the time of the packet before it.
abbrev pub status_of : (before timestamp : ℕ) → ℕ
status_of before timestamp =
    let (negative, size) = delta_of timestamp before in
    if timestamp == 0
    then not_received
    else if negative || ltb 255 size
    then large_delta
    else small_delta

abbrev pub delta_bytes : (before timestamp : ℕ) → List ℕ
delta_bytes before timestamp =
    let (negative, size) = delta_of timestamp before in
    if timestamp == 0
    then []
    else if negative || ltb 255 size
    then bytes16 (clip_delta negative size)
    else (size % 256 ∷ [])

abbrev pub time_after : (before timestamp : ℕ) → ℕ
time_after before timestamp = if timestamp == 0 then before else timestamp

unfoldable pub statuses : ℕ → List RtpExtInfo → List ℕ
statuses before [] = []
statuses before (e ∷ es) =
    status_of before e.timestamp ∷ statuses (time_after before e.timestamp) es

unfoldable pub all_deltas : ℕ → List RtpExtInfo → List ℕ
all_deltas before [] = []
all_deltas before (e ∷ es) =
    delta_bytes before e.timestamp ++ all_deltas (time_after before e.timestamp) es

abbrev pub noted : Building → (timestamp : ℕ) → Building
noted b timestamp = record b {
  responder = record b.responder {
    deltas = b.responder.deltas ++ delta_bytes b.timestamp timestamp;
  };
  timestamp = time_after b.timestamp timestamp;
}

-- `receive`, where `b'` is the state behind the header.
abbrev measured : (b b' : Building) → RtpExtInfo → Option (ℕ × Building)
measured b b' stat =
    let (negative, size) = delta_of stat.timestamp b'.timestamp in
    let large = negative || ltb 255 size in
    if stat.timestamp == 0
    then some (not_received, b)
    else elim (write_delta b'.responder (if large then large_delta else small_delta)
        (if large then clip_delta negative size else size)) [
          | none ↦ none
          | some t ↦ some (
            if large then large_delta else small_delta,
            record b' { responder = t; timestamp = stat.timestamp },
          )
        ]

measured-noted :
    (b : Building) (stat : RtpExtInfo)
    → length b.responder.deltas + (if stat.timestamp == 0 then 0 else 2) ≤ 200
    → measured b b stat ≡ some (status_of b.timestamp stat.timestamp, noted b stat.timestamp)
unfolding write_delta
measured-noted b stat room = elim (Bool-cases (stat.timestamp == 0)) [
  | inl e ↦ rw e (
      ap (λ (l : List ℕ). some (0, record b { responder = record b.responder { deltas = l } }))
        (sym (append-nil b.responder.deltas)))
  | inr e ↦
      let d = delta_of stat.timestamp b.timestamp in
      let room' : length b.responder.deltas + 2 ≤ 200 = rw e at room in
      elim (Bool-cases (d.0 || ltb 255 d.1)) [
        | inl large ↦
            let fits : leb (length b.responder.deltas + 2) 200 ≡ true = ground arith in
            rw (e, large, fits) (rw large refl)
        | inr small ↦
            let fits : leb (length b.responder.deltas + 1) 200 ≡ true = ground arith in
            rw (e, small, fits) (rw small refl)
      ]
]

begin_report-begun :
    (b : Building) (base_sn count timestamp : ℕ)
    → b.first_recv ≡ true
    → begin_report b base_sn count timestamp ≡ b
unfolding begin_report
begin_report-begun b base_sn count timestamp f = simp (f) refl

receive-measured :
    (b : Building) (base_sn count : ℕ) (stat : RtpExtInfo)
    → receive b base_sn count stat ≡ measured b (begin_report b base_sn count stat.timestamp) stat
unfolding receive
receive-measured b base_sn count stat = refl

pub receive-noted :
    (b : Building) (base_sn count : ℕ) (stat : RtpExtInfo)
    → b.first_recv ≡ true
    → length b.responder.deltas + (if stat.timestamp == 0 then 0 else 2) ≤ 200
    → receive b base_sn count stat
      ≡ some (status_of b.timestamp stat.timestamp, noted b stat.timestamp)
receive-noted b base_sn count stat f room =
    receive-measured b base_sn count stat
    ∙ ap (λ (b' : Building). measured b b' stat)
        (begin_report-begun b base_sn count stat.timestamp f)
    ∙ measured-noted b stat room

pub begin_report-first_recv :
    (b : Building) (base_sn count timestamp : ℕ)
    → (begin_report b base_sn count timestamp).first_recv ≡ true
unfolding begin_report
begin_report-first_recv b base_sn count timestamp = elim (Bool-cases b.first_recv) [
  | inl f ↦ simp (f) refl
  | inr f ↦ simp (f) refl
]

pub receive-first :
    (b : Building) (base_sn count : ℕ) (stat : RtpExtInfo)
    → (stat.timestamp == 0) ≡ false
    → receive b base_sn count stat
      ≡ receive (begin_report b base_sn count stat.timestamp) base_sn count stat
receive-first b base_sn count stat e =
    let b' = begin_report b base_sn count stat.timestamp in
    let again =
      begin_report-begun b' base_sn count stat.timestamp
        (begin_report-first_recv b base_sn count stat.timestamp) in
    let same : measured b b' stat ≡ measured b' b' stat = rw e refl in
    receive-measured b base_sn count stat
    ∙ same
    ∙ sym (receive-measured b' base_sn count stat ∙ ap (λ (u : Building). measured b' u stat) again)
