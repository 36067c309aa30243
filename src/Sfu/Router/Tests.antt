-- ===== src/Sfu/Router/Tests.antt =====
-- Three streams, two of them of one publisher.
use ion_sfu.Prelude.{ℕ, ◌*◌, ◌≡◌, refl, [], ◌∷◌, some}
use ion_sfu.Buffer.Stream.Calc.{is_timestamp_wrap_around}
use ion_sfu.Sfu.Helpers.{fast_forward_timestamp_amount, ntp_to_millis_since_epoch}
use ion_sfu.Stats.Stream.{no_stats, new_stream, set_cname, set_drift_in_millis}
use ion_sfu.Sfu.Router.{
  Source, latest_time, extremes, latest_min_max, drift_of, set_drift, update_drift,
}

-- A report at ten seconds for timestamp 1000, and a later packet.
abbrev source : (cname latest_timestamp : ℕ) → Source ℕ
source cname latest_timestamp = record {
  stream = set_cname (new_stream 0) cname;
  clock_rate = 90000;
  sr_rtp = 1000;
  sr_ntp = 10 * 4294967296;
  latest_timestamp = latest_timestamp;
}

abbrev with_drift : Source ℕ → ℕ → Source ℕ
with_drift s drift = record s { stream = set_drift_in_millis s.stream drift }

half_a_second :
    update_drift 7 (source 7 1000 ∷ source 8 91000 ∷ source 7 46000 ∷ [])
    ≡ some (with_drift (source 7 1000) 500 ∷ source 8 91000 ∷ with_drift (source 7 46000) 500 ∷ [])
unfolding update_drift set_drift drift_of latest_min_max extremes latest_time new_stream no_stats
    set_cname set_drift_in_millis fast_forward_timestamp_amount ntp_to_millis_since_epoch
    is_timestamp_wrap_around
half_a_second = refl

-- 48 seconds behind the report, the milliseconds no longer fit in uint32 before the division.
overflows : latest_time (source 7 4321000) ≡ some 10278
unfolding latest_time fast_forward_timestamp_amount ntp_to_millis_since_epoch
    is_timestamp_wrap_around
overflows = refl
