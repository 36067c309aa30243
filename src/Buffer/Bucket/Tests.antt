-- ===== src/Buffer/Bucket/Tests.antt =====
-- The packet ring on concrete packets.
use ion_sfu.Prelude.{ℕ, ◌+◌, ◌*◌, ◌≡◌, refl, true, false, List, [], ◌∷◌, arith, some, ok, err}
use ion_sfu.Buffer.Bucket.{Bucket, packet_too_old, new_bucket, write_slot, set, get, add_packet}
use ion_sfu.Buffer.Bucket.Slots.{Carries, write_slot-Holds}
use ion_sfu.Buffer.Bucket.Valid.{IsValid, new_bucket-IsValid, add_packet-IsValid, Returned}
use ion_sfu.Buffer.Bucket.Lookup.{Stored, late_outcome, get-add_packet, Accepted}
use ion_sfu.Buffer.Bucket.Keep.{late_keeps, get-add_run, add_run}

-- Three slots.
abbrev empty_bucket : Bucket
empty_bucket = record {
  buf = λ _. 0;
  size = 4500;
  init = false;
  step = 0;
  head_sn = 0;
  max_steps = 2;
}

-- A packet whose RTP header carries the number `256 * hi + lo`.
abbrev rtp : ℕ → ℕ → List ℕ
rtp hi lo = 128 ∷ 96 ∷ hi ∷ lo ∷ 7 ∷ []

-- Packet 500 in slot 0, the next one goes to slot 1.
abbrev one_packet : Bucket
one_packet = record {
  buf = write_slot (λ _. 0) 0 (rtp 1 244);
  size = 4500;
  init = true;
  step = 1;
  head_sn = 500;
  max_steps = 2;
}

empty_bucket-IsValid : IsValid empty_bucket
empty_bucket-IsValid = omega arith

one_packet-IsValid : IsValid one_packet
one_packet-IsValid = omega arith

rtp-Carries : (hi lo : ℕ) → Carries (hi * 256 + lo) (rtp hi lo)
rtp-Carries hi lo = record { header = omega arith; fits = omega arith; number = refl }

one_packet-Stored : Stored one_packet 500 (rtp 1 244)
one_packet-Stored = record {
  near = omega arith;
  held = write_slot-Holds (λ _. 0) 0 500 (rtp 1 244) (rtp-Carries 1 244);
  header = omega arith;
  fits = omega arith;
}

three_slots-IsValid : IsValid empty_bucket
unfolding new_bucket
three_slots-IsValid = new_bucket-IsValid (λ _. 0) 4500 (omega arith) refl

add_packet-IsValid_example :
    Returned (add_packet one_packet (rtp 1 243) 499 false).0
    × IsValid (add_packet one_packet (rtp 1 243) 499 false).1
add_packet-IsValid_example =
    add_packet-IsValid one_packet 499 (rtp 1 243) false one_packet-IsValid (omega arith)
      (omega arith)

late_outcome_example : set one_packet 400 (rtp 1 144) ≡ (err packet_too_old, one_packet)
late_outcome_example =
    late_outcome one_packet 400 (rtp 1 144) one_packet-IsValid (rtp-Carries 1 144)

get-add_packet_example :
    Accepted
      (add_packet one_packet (rtp 1 243) 499 false)
      (λ p b. (p ≡ rtp 1 243) × (get b 499 ≡ ok (some (rtp 1 243))))
get-add_packet_example =
    get-add_packet one_packet 499 (rtp 1 243) false one_packet-IsValid (omega arith)
      (rtp-Carries 1 243)

late_keeps_example : get (set one_packet 499 (rtp 1 243)).1 500 ≡ ok (some (rtp 1 244))
late_keeps_example =
    late_keeps one_packet 499 500 (rtp 1 243) (rtp 1 244) one_packet-IsValid (omega arith)
      (omega arith) (omega arith) (rtp-Carries 1 243) one_packet-Stored

get-add_run_example :
    get (add_run (add_packet empty_bucket (rtp 1 244) 500 true).1 (rtp 1 245 ∷ rtp 1 246 ∷ [])) 500
    ≡ ok (some (rtp 1 244))
get-add_run_example =
    get-add_run empty_bucket 500 (rtp 1 244) (rtp 1 245 ∷ rtp 1 246 ∷ []) empty_bucket-IsValid
      (omega arith) (rtp-Carries 1 244) (rtp-Carries 1 245, (rtp-Carries 1 246, tt)) (omega arith)
