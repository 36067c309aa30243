-- ===== src/Sfu/Router.antt =====
-- pkg/sfu/router.go: updateStats, the drift between the streams of one publisher.
-- The map from SSRC to streams is a list, in the order in which Go goes over it; the empty `cname` is 0.
pub mod Drift
mod Tests
use ion_sfu.Prelude.{
  ℕ, ◌+◌, ◌*◌, ◌/◌, ◌%◌, Bool, true, false, ◌||◌, List, [], ◌∷◌, Option, none, some, ltb, ◌==◌,
  if◌then◌else◌,
}
use ion_sfu.Sfu.Helpers.{fast_forward_timestamp_amount, ntp_to_millis_since_epoch}
use ion_sfu.Stats.Stream.{Stream, set_drift_in_millis, sub64}

-- A stream, and what its buffer says.
pub record Source (F : Type 0) : Type 0 where
  pub stream : Stream F
  pub clock_rate : ℕ
  pub sr_rtp : ℕ
  pub sr_ntp : ℕ
  pub latest_timestamp : ℕ

module _ {F : Type 0} where
  -- When the latest packet was sent, in milliseconds; `none` is the panic of a division by 0.
  unfoldable pub latest_time : Source F → Option ℕ
  latest_time s =
      let ticks = fast_forward_timestamp_amount s.latest_timestamp s.sr_rtp in
      let millis = ticks * 1000 % 4294967296 / s.clock_rate in
      if s.clock_rate == 0
      then none
      else some ((ntp_to_millis_since_epoch s.sr_ntp + millis) % 18446744073709551616)

  -- The loop over the streams of a name, with the least and the greatest time so far; 0 is none yet.
  unfoldable pub extremes : (cname : ℕ) → List (Source F) → (lo hi : ℕ) → Option (ℕ × ℕ)
  extremes cname [] lo hi = some (lo, hi)
  extremes cname (s ∷ ss) lo hi =
      let passed = extremes cname ss lo hi in
      let counted : Option (ℕ × ℕ) = elim (latest_time s) [
        | none ↦ none
        | some t ↦
            extremes cname ss (if (lo == 0) || ltb t lo then t else lo)
              (if (hi == 0) || ltb hi t then t else hi)
      ] in
      if s.stream.cname == cname then counted else passed

  unfoldable pub latest_min_max : (cname : ℕ) → List (Source F) → Option (ℕ × ℕ)
  latest_min_max cname ss =
      let found = extremes cname ss 0 0 in if cname == 0 then some (0, 0) else found

  unfoldable pub drift_of : (cname drift : ℕ) → Source F → Source F
  drift_of cname drift s =
      if s.stream.cname == cname
      then record s { stream = set_drift_in_millis s.stream drift }
      else s

  unfoldable pub set_drift : (cname drift : ℕ) → List (Source F) → List (Source F)
  set_drift cname drift [] = []
  set_drift cname drift (s ∷ ss) =
      let rest = set_drift cname drift ss in
      if cname == 0 then s ∷ ss else drift_of cname drift s ∷ rest

  -- `updateStats` up to its call of `CalcStats`.
  unfoldable pub update_drift : (cname : ℕ) → List (Source F) → Option (List (Source F))
  update_drift cname ss = elim (latest_min_max cname ss) [
    | none ↦ none
    | some times ↦ some (set_drift cname (sub64 times.1 times.0) ss)
  ]
