-- ===== src/Stats/Stream/Tests.antt =====
-- The counters of a stream whose number of packets wraps.
use ion_sfu.Prelude.{ℕ, ◌+◌, ◌%◌, ◌≡◌, refl, List, [], ◌∷◌, none, arith}
use ion_sfu.Buffer.Stream.{Stats}
use ion_sfu.Stats.Stream.{
  no_stats, new_stream, set_cname, set_drift_in_millis, diff, update_stats, calc_stats,
}
use ion_sfu.Stats.Stream.Counts.{observe_all, added, new_stream_counts}

abbrev stats : (packet_count total_byte : ℕ) → Stats ℕ
stats packet_count total_byte = record {
  last_expected = 5;
  last_received = 4;
  lost_rate = 0;
  packet_count = packet_count;
  jitter = 0;
  total_byte = total_byte;
}

abbrev wrapped : List (Stats ℕ)
wrapped = stats 4294967290 1000 ∷ stats 4 2500 ∷ stats 10 2600 ∷ []

new_stream_counts_example :
    let os = observe_all (new_stream 0) wrapped in
    ((4294967290 + added (λ d. d.packet_count) os) % 4294967296 ≡ 10)
    × ((1000 + added (λ d. d.total_byte) os) % 18446744073709551616 ≡ 2600)
new_stream_counts_example =
    new_stream_counts 0 (stats 4294967290 1000) (stats 4 2500 ∷ stats 10 2600 ∷ []) (
      record { packets = omega arith; bytes = omega arith },
      (
        record { packets = omega arith; bytes = omega arith },
        (record { packets = omega arith; bytes = omega arith }, tt),
      ),
    )

sixteen_packets : added (λ d. d.packet_count) (observe_all (new_stream 0) wrapped) ≡ 16
unfolding new_stream no_stats calc_stats update_stats diff
sixteen_packets = refl

-- The drift is what was set last, and what is lost is counted in uint32.
drift_observed :
    (calc_stats
      (set_drift_in_millis (set_cname (new_stream 0) 7) 30)
      (record (stats 1 100) { last_received = 6 })).1
    ≡ record {
      drift = 30;
      counted = none;
      expected_minus_received = 4294967295;
      lost_rate = 0;
      jitter = 0;
    }
unfolding new_stream no_stats calc_stats update_stats set_drift_in_millis set_cname
drift_observed = refl
