-- ===== src/Sfu/Sequencer/Tests.antt =====
-- The sequencer on concrete packets.
use ion_sfu.Prelude.{◌≡◌, refl, true, [], ◌∷◌, arith}
use ion_sfu.Sfu.Sequencer.{zero_meta, Sequencer, new_sequencer, new_meta, push, get_seq_no_pairs}
use ion_sfu.Sfu.Sequencer.Lookup.{
  IsValid, new_sequencer-IsValid, sequencer_stays-IsValid, nack_twice, HasHead,
}

-- Packet 7, sent as 100 with timestamp 9000, is the head.
abbrev sent_one : Sequencer
sent_one = record {
  init = true;
  max = 3;
  seq = new_meta 7 100 9000 0 ∷ zero_meta ∷ zero_meta ∷ [];
  step = 1;
  head_sn = 100;
}

sent_one-IsValid : IsValid sent_one
sent_one-IsValid = record { full = refl; step_in = omega arith; head_in = omega arith }

sent_one-HasHead : HasHead sent_one 0 100 (new_meta 7 100 9000 0)
sent_one-HasHead = record {
  valid = sent_one-IsValid;
  two = omega arith;
  next = refl;
  at_in = omega arith;
  head = refl;
  entry = refl;
  target = refl;
}

three_entries-IsValid : IsValid (new_sequencer 3)
three_entries-IsValid = new_sequencer-IsValid 3 (omega arith)

sequencer_stays-IsValid_example :
    IsValid (push sent_one 9 103 9090 1 true).1
    × IsValid (get_seq_no_pairs 50 sent_one (100 ∷ 99 ∷ [])).1
sequencer_stays-IsValid_example =
    sequencer_stays-IsValid sent_one 9 103 9090 1 50 true (100 ∷ 99 ∷ []) sent_one-IsValid
      (omega arith)

nack_twice_example :
    let sent = (push sent_one 9 103 9090 1 true).1 in
    let (first, asked) = get_seq_no_pairs 50 sent (103 ∷ []) in
    (first ≡ record (new_meta 9 103 9090 1) { last_nack = 50 } ∷ [])
    × ((get_seq_no_pairs 120 asked (103 ∷ [])).0 ≡ [])
nack_twice_example =
    nack_twice sent_one 9 103 9090 1 50 120 sent_one-IsValid (omega arith) (omega arith)
