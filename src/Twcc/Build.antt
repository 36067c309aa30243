-- ===== src/Twcc/Build.antt =====
-- The whole feedback packet: its fields, its chunks read back, and its deltas.
use ion_sfu.Prelude.{
  ℕ, ◌*◌, ◌/◌, ◌%◌, ◌^◌, ◌≡◌, Bool, false, List, [], ◌∷◌, ◌++◌, length, Option, some, low16,
}
use ion_sfu.Twcc.{RtpExtInfo, Responder, write_header}
use ion_sfu.Twcc.Status.{StatusQueue, reset}
use ion_sfu.Twcc.Feedback.{Building, begin_report}
use ion_sfu.Twcc.Format.{decode_chunks}
use ion_sfu.Twcc.Steps.{bytes}
use ion_sfu.Twcc.Feedback.{assemble}
use ion_sfu.Twcc.Report.{statuses, all_deltas}
use ion_sfu.Twcc.Flush.{flushed}
use ion_sfu.Twcc.Start.{zeros_queue}

-- The number of the first packet that is reported.
abbrev pub base_of : List RtpExtInfo → ℕ
base_of stats = elim stats [ [] ↦ 0 | e ∷ es ↦ e.ext_tsn ]

abbrev pub starting : Responder → (last' : ℕ) → Building
starting t last' = record {
  responder = record t { ext_info = []; last_ext_sn = last' };
  first_recv = false;
  timestamp = 0;
  queue = reset [];
}

-- The time in the header, in microseconds.
abbrev pub reference : ℕ → ℕ
reference timestamp = timestamp / 64000 * 64000

abbrev pub header : Responder → (stats : List RtpExtInfo) → (timestamp : ℕ) → List ℕ
header t stats timestamp =
    (write_header t (low16 (base_of stats)) (low16 (length stats))
      (timestamp / 64000 % 2 ^ 32)).payload

-- Between two packets: no symbols are in the chunk, no deltas are left.
pub record IsIdle (t : Responder) : Type 0 where
  pub no_symbols : t.chunk ≡ 0
  pub no_deltas : t.deltas ≡ []

-- A packet that reports `stats`, whose first packet that arrived has the time `timestamp`; the
-- chunks hold the statuses `covered` and the last chunk.
pub record Sent (marshal : Bool → ℕ → List ℕ) (t : Responder) (stats : List RtpExtInfo)
    (timestamp : ℕ) (result : Option (Option (List ℕ) × Responder)) : Type 0 where
  pub words : List ℕ
  pub covered : List ℕ
  pub left : StatusQueue
  pub full : Responder
  pub runs : result ≡ some (some (assemble marshal full), record full { deltas = [] })
  pub payload : full.payload ≡ header t stats timestamp ++ bytes words
  pub deltas : full.deltas ≡ all_deltas (reference timestamp) stats
  pub all : covered ++ left.status_list ≡ statuses (reference timestamp) stats
  pub reads : decode_chunks (bytes words) ≡ covered ++ flushed left
  pub idle : IsIdle (record full { deltas = [] })

abbrev opened : Responder → (last' timestamp : ℕ) → (zs stats : List RtpExtInfo) → Building
opened t last' timestamp zs stats =
    begin_report (record (starting t last') { queue = zeros_queue (length zs) }) (base_of stats)
      (length stats) timestamp

-- What the header's block sets up for the loop.
record IsOpened (t : Responder) (last' timestamp : ℕ) (zs stats : List RtpExtInfo) (b : Building)
    : Type 0 where
  queue : b.queue ≡ zeros_queue (length zs)
  time : b.timestamp ≡ reference timestamp
  payload : b.responder.payload ≡ header t stats timestamp
  long : length b.responder.payload ≡ 16
  chunk : b.responder.chunk ≡ t.chunk
  deltas : b.responder.deltas ≡ t.deltas
