-- ===== src/Twcc/Start.antt =====
-- The loop in front of the first packet that arrived: lost packets join one run, and no chunk is
-- written before the header.
use mathlib.Core.Bool.{false≢true}
use ion_sfu.Prelude.{
  ℕ, zero, suc, ◌+◌, ◌≤◌, ◌<◌, ◌≡◌, refl, sym, ap, ◌∙◌, true, false, List, [], ◌∷◌, ◌++◌, ◌==◌,
  length, replicate, All, arith, length-replicate, some,
}
use ion_sfu.Twcc.{RtpExtInfo, Responder}
use ion_sfu.Twcc.Status.{StatusQueue, reset, encode_status, end_run, push_back, pack}
use ion_sfu.Twcc.Feedback.{Building, begin_report, receive, report}
use ion_sfu.Twcc.Runs.{replicate-snoc}
use ion_sfu.Twcc.Ends.{QueueIsValid}
use ion_sfu.Twcc.Report.{receive-first}
use ion_sfu.Twcc.Loop.{report-step}

unfoldable pub zeros_last : ℕ → ℕ
zeros_last zero = 3
zeros_last (suc n) = 0

-- The queue behind `n` lost packets.
abbrev pub zeros_queue : ℕ → StatusQueue
zeros_queue n = record {
  same = true;
  last_status = zeros_last n;
  max_status = 0;
  status_list = replicate n 0;
}

encode_status-zero :
    (t : Responder) (n : ℕ) → encode_status t (zeros_queue n) 0 ≡ some (t, zeros_queue (suc n))
unfolding encode_status end_run push_back pack zeros_last
encode_status-zero t zero = refl
encode_status-zero t (suc n) =
    ap
      (λ (l : List ℕ).
        some (t, record { same = true; last_status = 0; max_status = 0; status_list = 0 ∷ l }))
      (replicate-snoc n 0)

zeros-statuses : (n : ℕ) → All (λ s. s < 3) (replicate n 0)
zeros-statuses zero = tt
zeros-statuses (suc n) = (omega arith, zeros-statuses n)

zeros-below : (n : ℕ) → All (λ s. s ≤ 0) (replicate n 0)
zeros-below zero = tt
zeros-below (suc n) = (omega arith, zeros-below n)

zeros-run : (n : ℕ) → replicate n 0 ≡ replicate (length {A = ℕ} (replicate n 0)) (zeros_last n)
unfolding zeros_last
zeros-run zero = refl
zeros-run (suc n) = ap (λ (m : ℕ). 0 ∷ replicate m 0) (sym (length-replicate {A = ℕ} n 0))

pub zeros_queue-QueueIsValid : (n : ℕ) → QueueIsValid (zeros_queue n)
zeros_queue-QueueIsValid n = record {
  scan = record {
    statuses = zeros-statuses n;
    below = zeros-below n;
    small = omega arith;
    run = λ h. zeros-run n;
  };
  short = λ h. absurd (false≢true (sym h));
  shorter = λ h k. absurd (false≢true (sym h));
}

abbrev pub IsLost : RtpExtInfo → Type 0
IsLost e = e.timestamp ≡ 0

report-zeros :
    (zs : List RtpExtInfo) (n : ℕ) (b : Building) (base_sn count : ℕ) (stats : List RtpExtInfo)
    → All IsLost zs
    → report base_sn count (record b { queue = zeros_queue n }) (zs ++ stats)
      ≡ report base_sn count (record b { queue = zeros_queue (n + length zs) }) stats
unfolding report receive
report-zeros [] n b base_sn count stats h = let same : n + 0 ≡ n = omega arith in rw same refl
report-zeros (e ∷ zs) n b base_sn count stats h =
    let next : n + suc (length zs) ≡ suc n + length zs = omega arith in
    let lost : receive (record b { queue = zeros_queue n }) base_sn count e
        ≡ some (0, record b { queue = zeros_queue n }) =
      rw (receive, h.0) refl in
    report-step (record b { queue = zeros_queue n }) (record b { queue = zeros_queue n }) base_sn
      count 0 e (zs ++ stats) b.responder (zeros_queue (suc n)) lost
      (encode_status-zero b.responder n)
    ∙ rw next (report-zeros zs (suc n) b base_sn count stats h.1)

report-begun :
    (b : Building) (e : RtpExtInfo) (stats : List RtpExtInfo) (base_sn count : ℕ)
    → (e.timestamp == 0) ≡ false
    → report base_sn count b (e ∷ stats)
      ≡ report base_sn count (begin_report b base_sn count e.timestamp) (e ∷ stats)
unfolding report
report-begun b e stats base_sn count a = rw (report, receive-first b base_sn count e a) refl

pub report-start :
    (zs : List RtpExtInfo) (e : RtpExtInfo) (stats : List RtpExtInfo) (b : Building)
    (base_sn count : ℕ)
    → b.queue ≡ reset []
    → All IsLost zs
    → (e.timestamp == 0) ≡ false
    → report base_sn count b (zs ++ (e ∷ stats))
      ≡ report base_sn count
          (begin_report (record b { queue = zeros_queue (length zs) }) base_sn count e.timestamp)
          (e ∷ stats)
unfolding zeros_last
report-start zs e stats b base_sn count q h a =
    let clean : record b { queue = zeros_queue 0 } ≡ b =
      ap (λ (x : StatusQueue). record b { queue = x }) (sym q) in
    let run = report-zeros zs 0 b base_sn count (e ∷ stats) h in
    let opened : Building = record b { queue = zeros_queue (length zs) } in
    let none_before : 0 + length zs ≡ length zs = omega arith in
    let from_start : report base_sn count b (zs ++ (e ∷ stats))
        ≡ report base_sn count opened (e ∷ stats) =
      ap (λ (x : Building). report base_sn count x (zs ++ (e ∷ stats))) (sym clean)
      ∙ run
      ∙ ap (λ (n : ℕ). report base_sn count (record b { queue = zeros_queue n }) (e ∷ stats))
          none_before in
    from_start ∙ report-begun opened e stats base_sn count a
