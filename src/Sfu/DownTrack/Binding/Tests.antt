-- ===== src/Sfu/DownTrack/Binding/Tests.antt =====
-- A track that is bound, and its report, with the source's clock behind and ahead of the server's.
use ion_sfu.Prelude.{
  ℕ, ◌-◌, ◌*◌, ◌/◌, ◌%◌, ◌≡◌, refl, Bool, true, some, [], ◌∷◌, ◌==◌, arith, add32,
}
use ion_sfu.Sfu.Helpers.{
  Codec, duration, to_ntp_time, same_line, same_mime, first_that, codec_parameters_fuzzy_search,
}
use ion_sfu.Sfu.DownTrack.{DownTrack}
use ion_sfu.Sfu.DownTrack.Binding.{
  SenderReport, new_down_track, bound_to, bind, elapsed_ticks, create_sender_report,
}
use ion_sfu.Sfu.DownTrack.Binding.Reports.{create_sender_report_lem}

-- Type 1 is video/vp8.
abbrev is_vp8 : ℕ → Bool
is_vp8 mime = mime == 1

abbrev vp8 : Codec
vp8 = record { mime = 1; sdp_fmtp_line = 0; payload_type = 96 }

abbrev opus : Codec
opus = record { mime = 2; sdp_fmtp_line = 3; payload_type = 111 }

bound :
    (bind is_vp8
      (new_down_track true)
      (record vp8 { sdp_fmtp_line = 7 })
      77
      500
      (opus ∷ vp8 ∷ [])).0
    ≡ some vp8
unfolding bind bound_to new_down_track codec_parameters_fuzzy_search first_that same_line same_mime
bound = refl

abbrev track : DownTrack
track = record (new_down_track true) {
  bound = true;
  ssrc = 77;
  packet_count = 3;
  octet_count = 600;
}

-- 2020, and a second later.
abbrev sent : ℕ
sent = 3786825600000000000

abbrev a_second_later : ℕ
a_second_later = 3786825601000000000

create_sender_report_lem_example :
    (r : SenderReport) × (create_sender_report track a_second_later 90000 5000 (to_ntp_time sent)
      ≡ some r)
    × (r.rtp_time ≡ add32 5000 ((a_second_later - sent) * 90000 / 1000000000 % 4294967296))
    × (duration r.ntp_time ≡ a_second_later)
create_sender_report_lem_example =
    create_sender_report_lem track a_second_later 90000 5000 sent refl refl (omega arith)
      (omega arith) (omega arith)

-- A source whose clock is a second ahead: the ticks are not -90000 but 2^64 / 10^9 more.
ticks_ahead : elapsed_ticks sent a_second_later 90000 ≡ 18446654073
unfolding elapsed_ticks
ticks_ahead = refl
