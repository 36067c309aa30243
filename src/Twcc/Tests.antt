-- ===== src/Twcc/Tests.antt =====
-- Runs of the transport-wide responder.
use mathlib.Core.Bool.{false≢true}
use ion_sfu.Prelude.{
  ℕ, zero, suc, ◌+◌, ◌-◌, ◌≡◌, refl, Bool, false, List, [], ◌∷◌, ◌++◌, none, arith, replicate,
}
use ion_sfu.Twcc.{
  RtpExtInfo, Responder, new_transport_wide_cc_responder, write_header, write_delta, write_word,
  write_run_length_chunk, create_status_symbol_chunk, write_status_symbol_chunk,
  set_n_bits_of_uint16,
}
use ion_sfu.Twcc.Status.{
  StatusQueue, encode_status, end_run, push_back, pack, reconsider, create_chunk, flush_statuses,
}
use ion_sfu.Twcc.Feedback.{
  lost, collect, delta_of, clip_delta, begin_report, receive, report, build_transport_cc_packet,
}
use ion_sfu.Twcc.Steps.{Step}
use ion_sfu.Twcc.Ends.{QueueIsValid}
use ion_sfu.Twcc.Rounds.{encode_status-Step}
use ion_sfu.Twcc.Flush.{Flushed, flush_statuses-flushed}
use ion_sfu.Twcc.Gaps.{IsNumbered, arrivals, collect-IsReport}
use ion_sfu.Twcc.Arrival.{IsCounting, entry, unwrapped, note-unwrapped}
use ion_sfu.Twcc.Feedback.{note}

abbrev at : (ext timestamp : ℕ) → RtpExtInfo
at ext timestamp = record { ext_tsn = ext; timestamp = timestamp }

abbrev two_packets : List RtpExtInfo
two_packets = at 6 64000 ∷ (at 8 65000 ∷ [])

abbrev busy : Responder
busy = record (new_transport_wide_cc_responder 1 2) { ext_info = two_packets; last_ext_sn = 4 }

abbrev no_sort : List RtpExtInfo → List RtpExtInfo
no_sort l = l

abbrev no_header : Bool → ℕ → List ℕ
no_header padding words = []

abbrev between : List RtpExtInfo
between = at 7 0 ∷ (at 8 65000 ∷ [])

-- Twenty-two packets with thirty lost ones in front of each need more chunks than the payload holds.
abbrev sparse : ℕ → ℕ → List RtpExtInfo
sparse zero n = []
sparse (suc k) n = at n 64000 ∷ sparse k (n + 31)

payload_overflows :
    build_transport_cc_packet no_sort no_header
      (record busy { ext_info = sparse 23 31; last_ext_sn = 4 })
    ≡ none
unfolding build_transport_cc_packet new_transport_wide_cc_responder collect lost report receive
    begin_report delta_of clip_delta write_header write_delta encode_status end_run push_back pack
    reconsider create_chunk create_status_symbol_chunk write_status_symbol_chunk
    set_n_bits_of_uint16 write_run_length_chunk write_word
payload_overflows = refl

-- 101 packets in the order against that of their numbers need more deltas than the array holds.
abbrev backwards : (k n timestamp : ℕ) → List RtpExtInfo
backwards zero n timestamp = []
backwards (suc k) n timestamp = at n timestamp ∷ backwards k (n + 1) (timestamp - 250)

deltas_overflow :
    build_transport_cc_packet no_sort no_header (record busy { ext_info = backwards 101 5 90000 })
    ≡ none
unfolding build_transport_cc_packet new_transport_wide_cc_responder collect lost report receive
    begin_report delta_of clip_delta write_header write_delta encode_status end_run push_back pack
    reconsider create_chunk create_status_symbol_chunk write_status_symbol_chunk
    set_n_bits_of_uint16 write_run_length_chunk write_word
deltas_overflow = refl

collect-IsReport_example :
    IsNumbered 5 (collect 4 ((at 3 1 ∷ []) ++ two_packets)).0
    × (arrivals (collect 4 ((at 3 1 ∷ []) ++ two_packets)).0 ≡ two_packets)
    × ((collect 4 ((at 3 1 ∷ []) ++ two_packets)).1 ≡ 8)
collect-IsReport_example =
    collect-IsReport (at 3 1 ∷ []) two_packets 4 (omega arith) (omega arith, tt)
      (omega arith, (omega arith, tt)) (omega arith, (omega arith, tt))

-- One received packet behind one that was lost.
abbrev mixed : StatusQueue
mixed = record { same = false; last_status = 1; max_status = 1; status_list = 0 ∷ (1 ∷ []) }

mixed-QueueIsValid : QueueIsValid mixed
mixed-QueueIsValid = record {
  scan = record {
    statuses = (omega arith, (omega arith, tt));
    below = (omega arith, (omega arith, tt));
    small = omega arith;
    run = λ h. absurd (false≢true h);
  };
  short = λ h. omega arith;
  shorter = λ h k. omega arith;
}

encode_status-Step_example :
    Step busy (0 ∷ (1 ∷ (2 ∷ []))) (encode_status busy mixed 2) QueueIsValid
unfolding new_transport_wide_cc_responder
encode_status-Step_example =
    encode_status-Step busy mixed 2 refl mixed-QueueIsValid (omega arith) (omega arith)

flush_statuses-flushed_example : Flushed busy (flush_statuses busy mixed) (0 ∷ replicate 13 0)
unfolding new_transport_wide_cc_responder
flush_statuses-flushed_example =
    flush_statuses-flushed busy mixed refl mixed-QueueIsValid (omega arith) (omega arith)

-- The largest delta that is sent is not the largest that fits: 32768 units are sent as the smallest.
delta_wraps : clip_delta false 32768 ≡ 32768
unfolding clip_delta
delta_wraps = refl

abbrev around : Responder
around = record busy { cycles = 65536; last_sn = 65535 }

around-IsCounting : IsCounting 1 around
around-IsCounting = record { rounds = refl; room = omega arith; bound = omega arith }

note-unwrapped_example :
    ((note around 1 3000).ext_info ≡ two_packets ++ (entry 131073 3000 ∷ []))
    × (unwrapped (note around 1 3000) ≡ 131073)
note-unwrapped_example =
    note-unwrapped 1 around 2 3000 around-IsCounting (omega arith) (omega arith)

abbrev started : Responder
started = record busy { cycles = 65536; last_sn = 3 }
