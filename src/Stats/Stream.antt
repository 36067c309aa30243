-- ===== src/Stats/Stream.antt =====
-- pkg/stats/stream.go: the statistics of a stream, and what is reported of them.
-- `F` is the type of floating-point numbers. The counters and summaries are Prometheus's: what the
-- code gives them is the result of a call. The name `cname` is a number.
pub mod Counts
mod Tests
use ion_sfu.Prelude.{
  ℕ, ◌+◌, ◌-◌, ◌%◌, Bool, true, false, List, [], ◌∷◌, Option, none, some, sub32, if◌then◌else◌,
}
use ion_sfu.Buffer.Stream.{Stats}

pub record Stream (F : Type 0) : Type 0 where
  pub cname : ℕ
  pub drift_in_millis : ℕ
  pub has_stats : Bool
  pub last_stats : Stats F
  pub diff_stats : Stats F

-- What a call of `CalcStats` gives to the counters, where it does, and to the summaries.
pub record Observed (F : Type 0) : Type 0 where
  pub drift : ℕ
  pub counted : Option (Stats F)
  pub expected_minus_received : ℕ
  pub lost_rate : F
  pub jitter : F

-- The difference of two uint64.
abbrev pub sub64 : (a b : ℕ) → ℕ
sub64 a b = (a + 18446744073709551616 - b) % 18446744073709551616

module _ {F : Type 0} (zero_float : F) where
  unfoldable pub no_stats : Stats F
  no_stats = record {
    last_expected = 0;
    last_received = 0;
    lost_rate = zero_float;
    packet_count = 0;
    jitter = zero_float;
    total_byte = 0;
  }

  unfoldable pub new_stream : Stream F
  new_stream = record {
    cname = 0;
    drift_in_millis = 0;
    has_stats = false;
    last_stats = no_stats;
    diff_stats = no_stats;
  }

module _ {F : Type 0} where
  unfoldable pub set_cname : Stream F → ℕ → Stream F
  set_cname s cname = record s { cname = cname }

  unfoldable pub set_drift_in_millis : Stream F → ℕ → Stream F
  set_drift_in_millis s drift = record s { drift_in_millis = drift }

  -- The four fields of `diffStats` that are set; the others stay.
  unfoldable pub diff : Stream F → Stats F → Stats F
  diff s stats = record s.diff_stats {
    last_expected = sub32 stats.last_expected s.last_stats.last_expected;
    last_received = sub32 stats.last_received s.last_stats.last_received;
    packet_count = sub32 stats.packet_count s.last_stats.packet_count;
    total_byte = sub64 stats.total_byte s.last_stats.total_byte;
  }

  -- The stream, `hasDiff` and the differences.
  unfoldable pub update_stats : Stream F → Stats F → Stream F × Bool × Stats F
  update_stats s stats =
      let diff_stats : Stats F = if s.has_stats then diff s stats else s.diff_stats in
      (
        record s { diff_stats = diff_stats; last_stats = stats; has_stats = true },
        s.has_stats,
        diff_stats,
      )

  unfoldable pub calc_stats : Stream F → Stats F → Stream F × Observed F
  calc_stats s buffer_stats =
      let (s', had_stats, diff_stats) = update_stats s buffer_stats in
      (
        s',
        record {
          drift = s.drift_in_millis;
          counted = if had_stats then some diff_stats else none;
          expected_minus_received = sub32 buffer_stats.last_expected buffer_stats.last_received;
          lost_rate = buffer_stats.lost_rate;
          jitter = buffer_stats.jitter;
        },
      )
