-- ===== src/Stats/Stream/Counts.antt =====
-- pkg/stats/stream.go: what the counters add up to.
use ion_sfu.Prelude.{
  ℕ, ◌+◌, ◌%◌, ◌<◌, ◌≡◌, refl, true, List, [], ◌∷◌, none, some, All, sub32, arith,
}
use ion_sfu.Buffer.Stream.{Stats}
use ion_sfu.Stats.Stream.{Stream, Observed, new_stream, sub64, diff, update_stats, calc_stats}

packets_step :
    (old new later last : ℕ)
    → old < 4294967296
    → new < 4294967296
    → (new + later) % 4294967296 ≡ last
    → (old + (sub32 new old + later)) % 4294967296 ≡ last
packets_step old new later last h h' e = omega (arith, h, h', e)

bytes_step :
    (old new later last : ℕ)
    → old < 18446744073709551616
    → new < 18446744073709551616
    → (new + later) % 18446744073709551616 ≡ last
    → (old + (sub64 new old + later)) % 18446744073709551616 ≡ last
bytes_step old new later last h h' e = omega (arith, h, h', e)

module _ {F : Type 0} where
  -- The values of the statistics are those of a uint32 and a uint64.
  pub record IsWord (stats : Stats F) : Type 0 where
    pub packets : stats.packet_count < 4294967296
    pub bytes : stats.total_byte < 18446744073709551616

  -- The calls of `CalcStats` for some statistics of the buffer, one after the other.
  abbrev pub observe_all : Stream F → List (Stats F) → List (Observed F)
  observe_all s [] = []
  observe_all s (x ∷ xs) = let (s', o) = calc_stats s x in o ∷ observe_all s' xs

  -- The sum of what one counter is given.
  abbrev pub added : (Stats F → ℕ) → List (Observed F) → ℕ
  added field [] = 0
  added field (o ∷ os) = elim o.counted [
    | none ↦ added field os
    | some d ↦ field d + added field os
  ]

  abbrev pub last_of : Stats F → List (Stats F) → Stats F
  last_of x [] = x
  last_of x (y ∷ ys) = last_of y ys

  later_counts :
      (s : Stream F) (xs : List (Stats F))
      → s.has_stats ≡ true
      → IsWord s.last_stats
      → All IsWord xs
      → ((s.last_stats.packet_count + added (λ d. d.packet_count) (observe_all s xs)) % 4294967296
          ≡ (last_of s.last_stats xs).packet_count)
        × ((s.last_stats.total_byte + added (λ d. d.total_byte) (observe_all s xs))
              % 18446744073709551616
            ≡ (last_of s.last_stats xs).total_byte)
  unfolding calc_stats update_stats diff
  later_counts s [] h w ws =
      let p = w.packets in let b = w.bytes in (omega (arith, p), omega (arith, b))
  later_counts s (x ∷ xs) h w ws =
      let s' : Stream F = (update_stats s x).0 in
      let rest = later_counts s' xs refl ws.0 ws.1 in
      rw h (
        packets_step s.last_stats.packet_count x.packet_count _ _ w.packets ws.0.packets rest.0,
        bytes_step s.last_stats.total_byte x.total_byte _ _ w.bytes ws.0.bytes rest.1,
      )

-- From a new stream on, the first call of `CalcStats` counts nothing; after the later ones the packets
-- and the bytes that were counted are what the last statistics have more than the first, up to the
-- wraps of uint32 and uint64.
pub new_stream_counts :
    {F : Type 0} (zero_float : F) (x : Stats F) (xs : List (Stats F))
    → All IsWord (x ∷ xs)
    → let os = observe_all (new_stream zero_float) (x ∷ xs) in
      ((x.packet_count + added (λ d. d.packet_count) os) % 4294967296 ≡ (last_of x xs).packet_count)
      × ((x.total_byte + added (λ d. d.total_byte) os) % 18446744073709551616
          ≡ (last_of x xs).total_byte)
unfolding new_stream calc_stats update_stats
new_stream_counts zero_float x xs ws =
    later_counts (update_stats (new_stream zero_float) x).0 xs refl ws.0 ws.1
