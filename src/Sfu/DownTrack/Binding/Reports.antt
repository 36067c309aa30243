-- ===== src/Sfu/DownTrack/Binding/Reports.antt =====
-- pkg/sfu/downtrack.go: which time the sender reports of a track give.
use ion_sfu.Prelude.{
  ℕ, ◌+◌, ◌-◌, ◌*◌, ◌/◌, ◌%◌, ◌<◌, ◌≤◌, ◌≡◌, refl, true, false, some, ◌==◌, add32, arith,
}
use ion_sfu.Sfu.Helpers.{duration, to_ntp_time}
use ion_sfu.Sfu.Helpers.Times.{duration-to_ntp_time}
use ion_sfu.Sfu.DownTrack.{DownTrack}
use ion_sfu.Sfu.DownTrack.Binding.{SenderReport, elapsed_ticks, create_sender_report}

elapsed_lem :
    (now sent clock_rate : ℕ)
    → sent ≤ now
    → now < 18446744073709551616
    → (now - sent) * clock_rate < 18446744073709551616
    → elapsed_ticks now sent clock_rate ≡ (now - sent) * clock_rate / 1000000000
unfolding elapsed_ticks
elapsed_lem now sent clock_rate h k b =
    let e : (now + 18446744073709551616 - sent) % 18446744073709551616 ≡ now - sent = omega arith in
    let f : (now - sent) * clock_rate % 18446744073709551616 ≡ (now - sent) * clock_rate =
      omega (arith, b) in
    rw (e, f) refl

-- A bound track, whose source's last report gave a time `sr_rtp` for the instant `sent`, not later than
-- now and before 2036: its report gives, for now, that time and the ticks of the clock since, where
-- their number fits (two days at 90 kHz).
pub create_sender_report_lem :
    (d : DownTrack) (now clock_rate sr_rtp sent : ℕ)
    → d.bound ≡ true
    → (sr_rtp == 0) ≡ false
    → sent ≤ now
    → now < 4294967296 * 1000000000
    → (now - sent) * clock_rate < 18446744073709551616
    → (r : SenderReport) × (create_sender_report d now clock_rate sr_rtp (to_ntp_time sent)
        ≡ some r)
      × (r.rtp_time ≡ add32 sr_rtp ((now - sent) * clock_rate / 1000000000 % 4294967296))
      × (duration r.ntp_time ≡ now)
unfolding create_sender_report
create_sender_report_lem d now clock_rate sr_rtp sent hb hr h hn b =
    let at : duration (to_ntp_time sent) ≡ sent = duration-to_ntp_time sent (omega arith) in
    (
      record {
        ssrc = d.ssrc;
        ntp_time = to_ntp_time now;
        rtp_time =
            add32 sr_rtp (elapsed_ticks now (duration (to_ntp_time sent)) clock_rate % 4294967296);
        packet_count = d.packet_count;
        octet_count = d.octet_count;
      },
      simp (hb, hr),
      rw (at, elapsed_lem now sent clock_rate h (omega arith) b) refl,
      duration-to_ntp_time now hn,
    )
