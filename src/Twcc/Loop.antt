-- ===== src/Twcc/Loop.antt =====
-- The loop over the packets to report, from the first one that arrived.
use mathlib.Core.Path.{ap₂}
use ion_sfu.Prelude.{
  ℕ, ◌+◌, ◌*◌, ◌≤◌, ◌<◌, ◌≡◌, refl, sym, ap, ◌∙◌, true, ◌||◌, List, [], ◌∷◌, ◌++◌, ltb, ◌==◌,
  if◌then◌else◌, length, arith, length-append, Bool-cases, inl, inr, Option, some,
}
use ion_sfu.Twcc.{RtpExtInfo, Responder}
use ion_sfu.Twcc.Status.{StatusQueue, encode_status}
use ion_sfu.Twcc.Feedback.{Building, delta_of, receive, report}
use ion_sfu.Twcc.Format.{decode_chunks}
use ion_sfu.Twcc.Runs.{append-nil}
use ion_sfu.Twcc.Steps.{bytes, bytes-append, append_assoc, length-bytes}
use ion_sfu.Twcc.Ends.{QueueIsValid}
use ion_sfu.Twcc.Rounds.{encode_status-Step, written, joined}
use ion_sfu.Twcc.Report.{
  arrived, status_of, delta_bytes, statuses, all_deltas, noted, receive-noted,
}

pub record Reported (b : Building) (stats : List RtpExtInfo) (result : Option Building)
    : Type 0 where
  pub words : List ℕ
  pub after : Building
  pub runs : result ≡ some after
  pub left : after.responder ≡ record b.responder {
    payload = b.responder.payload ++ bytes words;
    deltas = b.responder.deltas ++ all_deltas b.timestamp stats;
  }
  pub reads :
      decode_chunks (bytes words) ++ after.queue.status_list
      ≡ b.queue.status_list ++ statuses b.timestamp stats
  pub good : QueueIsValid after.queue
  pub spent :
      length words * 7 + length after.queue.status_list ≤ length b.queue.status_list + length stats

status_of-lt : (before timestamp : ℕ) → status_of before timestamp < 3
status_of-lt before timestamp =
    let d = delta_of timestamp before in
    elim (Bool-cases (timestamp == 0)) [
      | inl e ↦ rw e (omega arith)
      | inr e ↦ elim (Bool-cases (d.0 || ltb 255 d.1)) [
        | inl large ↦ rw (e, large) (omega arith)
        | inr small ↦ rw (e, small) (omega arith)
      ]
    ]

pub report-step :
    (b b' : Building) (base_sn count status : ℕ) (stat : RtpExtInfo) (stats : List RtpExtInfo)
    (t : Responder) (q : StatusQueue)
    → receive b base_sn count stat ≡ some (status, b')
    → encode_status b'.responder b'.queue status ≡ some (t, q)
    → report base_sn count b (stat ∷ stats)
      ≡ report base_sn count (record b' { responder = t; queue = q }) stats
unfolding report
report-step b b' base_sn count status stat stats t q e f = rw (report, e, f) refl

arrived-step :
    (stat : RtpExtInfo) (stats : List RtpExtInfo)
    → arrived (stat ∷ stats) ≡ (if stat.timestamp == 0 then 0 else 1) + arrived stats
unfolding arrived
arrived-step stat stats = ground arith

length-delta_bytes :
    (before timestamp : ℕ)
    → length (delta_bytes before timestamp) ≤ (if timestamp == 0 then 0 else 2)
length-delta_bytes before timestamp =
    let d = delta_of timestamp before in
    elim (Bool-cases (timestamp == 0)) [
      | inl e ↦ rw e (omega arith)
      | inr e ↦ elim (Bool-cases (d.0 || ltb 255 d.1)) [
        | inl large ↦ rw (e, large) (omega arith)
        | inr small ↦ rw (e, small) (omega arith)
      ]
    ]

buffers :
    (t : Responder) (p p' d d' : List ℕ)
    → p ≡ p'
    → d ≡ d'
    → record t { payload = p; deltas = d } ≡ record t { payload = p'; deltas = d' }
buffers t p p' d d' e f = ap₂ (λ (x y : List ℕ). record t { payload = x; deltas = y }) e f

pub report-Reported :
    (stats : List RtpExtInfo) (b : Building) (base_sn count : ℕ)
    → b.first_recv ≡ true
    → b.responder.chunk ≡ 0
    → QueueIsValid b.queue
    → length b.responder.payload * 7 + (length b.queue.status_list + length stats) * 2 ≤ 688
    → length b.responder.deltas + arrived stats * 2 ≤ 200
    → Reported b stats (report base_sn count b stats)
unfolding bytes report all_deltas statuses decode_chunks
report-Reported [] b base_sn count f z v room d = record {
  words = [];
  after = b;
  runs = refl;
  left =
      buffers b.responder _ _ _ _ (sym (append-nil b.responder.payload))
        (sym (append-nil b.responder.deltas));
  reads = sym (append-nil b.queue.status_list);
  good = v;
  spent = omega arith;
}
report-Reported (stat ∷ stats) b base_sn count f z v room d =
    let status = status_of b.timestamp stat.timestamp in
    let first = noted b stat.timestamp in
    let longer = length-append b.queue.status_list (status ∷ []) in
    let fewer = arrived-step stat stats in
    let received = receive-noted b base_sn count stat f (ground (arith, fewer, d)) in
    let step =
      encode_status-Step first.responder b.queue status z v
        (status_of-lt b.timestamp stat.timestamp) (omega (arith, longer, room)) in
    let b' : Building = record first {
      responder = written first.responder step.words;
      queue = step.after;
    } in
    let rest =
      report-Reported stats b' base_sn count f z step.good
        (omega (
          arith,
          room,
          step.spent,
          longer,
          length-append b.responder.payload (bytes step.words),
          length-bytes step.words,
        ))
        (ground (
          arith,
          d,
          fewer,
          length-append b.responder.deltas (delta_bytes b.timestamp stat.timestamp),
          length-delta_bytes b.timestamp stat.timestamp,
        )) in
    record {
      words = step.words ++ rest.words;
      after = rest.after;
      runs =
          report-step b first base_sn count status stat stats _ step.after received step.runs
          ∙ rest.runs;
      left =
          rest.left
          ∙ buffers b.responder _ _ _ _
              (append_assoc b.responder.payload (bytes step.words) (bytes rest.words)
                ∙ ap (λ (l : List ℕ). b.responder.payload ++ l)
                    (sym (bytes-append step.words rest.words)))
              (append_assoc b.responder.deltas (delta_bytes b.timestamp stat.timestamp)
                (all_deltas first.timestamp stats));
      reads =
          joined b.responder step.words rest.words step.after.status_list
            (statuses first.timestamp stats) (b.queue.status_list ++ (status ∷ []))
            rest.after.queue.status_list step.reads rest.reads
          ∙ append_assoc b.queue.status_list (status ∷ []) (statuses first.timestamp stats);
      good = rest.good;
      spent = omega (arith, step.spent, rest.spent, longer, length-append step.words rest.words);
    }
