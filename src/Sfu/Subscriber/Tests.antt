-- ===== src/Sfu/Subscriber/Tests.antt =====
-- Tracks of two streams, and reports with more descriptions than one write takes.
use ion_sfu.Prelude.{
  ℕ, ◌≡◌, ◌≤◌, ◌/◌, ◌+◌, suc, refl, false, true, ◌==◌, List, [], ◌∷◌, some, length, All, arith,
}
use ion_sfu.Sfu.Subscriber.{
  Entry, get_down_tracks, add_down_track, index_of, without, remove_down_track, all_down_tracks,
  collect_reports, with_write, write_chunks, describe_bound, send_seven_times, send_stream_reports,
}
use ion_sfu.Sfu.Subscriber.Swap.{IsWithout, remove_down_track-removes}
use ion_sfu.Sfu.Subscriber.Chunks.{descriptions, reports, write_chunks_lem}

abbrev entries : List Entry
entries = add_down_track (add_down_track (add_down_track (add_down_track [] 1 10) 2 20) 1 11) 1 12

first_stream : get_down_tracks entries 1 ≡ 10 ∷ 11 ∷ 12 ∷ []
unfolding get_down_tracks add_down_track
first_stream = refl

last_moves : get_down_tracks (remove_down_track entries 1 10) 1 ≡ 12 ∷ 11 ∷ []
unfolding get_down_tracks add_down_track remove_down_track without index_of
last_moves = refl

all_after_removal : all_down_tracks (remove_down_track entries 1 11) ≡ 10 ∷ 12 ∷ 20 ∷ []
unfolding all_down_tracks add_down_track remove_down_track without index_of
all_after_removal = refl

remove_down_track-removes_example :
    IsWithout 10 (10 ∷ 11 ∷ 12 ∷ []) (get_down_tracks (remove_down_track entries 1 10) 1)
    × ((other : ℕ)
        → (1 == other) ≡ false
        → get_down_tracks (remove_down_track entries 1 10) other ≡ get_down_tracks entries other)
unfolding get_down_tracks add_down_track
remove_down_track-removes_example =
    remove_down_track-removes entries 1 10 (refl, (refl, (refl, tt)))

-- Track 11 is not bound.
collected :
    collect_reports (λ dt. dt == 10) (λ dt. some (dt + 100)) (λ dt. dt ∷ dt ∷ []) (10 ∷ 11 ∷ [])
    ≡ (110 ∷ [], 10 ∷ 10 ∷ [])
unfolding collect_reports
collected = refl

abbrev seventeen : List ℕ
seventeen = 1 ∷ 2 ∷ 3 ∷ 4 ∷ 5 ∷ 6 ∷ 7 ∷ 8 ∷ 9 ∷ 10 ∷ 11 ∷ 12 ∷ 13 ∷ 14 ∷ 15 ∷ 16 ∷ 17 ∷ []

write_chunks_lem_example :
    (ws : List (List ℕ × List ℕ)) × (write_chunks
        (suc (length seventeen / 15 + 1))
        (λ k. false)
        seventeen
        0
        0
        (70 ∷ 71 ∷ [])
      ≡ some ws)
    × (descriptions ws ≡ seventeen)
    × (reports ws ≡ 70 ∷ 71 ∷ [])
    × All (λ (w : List ℕ × List ℕ). length w.1 ≤ 15) ws
write_chunks_lem_example = write_chunks_lem seventeen (70 ∷ 71 ∷ []) (omega arith)

-- A write that fails for good ends the loop: the rest is not sent.
broken_off :
    write_chunks {R = ℕ} 3 (λ k. true) seventeen 0 0 (70 ∷ [])
    ≡ some ((70 ∷ [], 1 ∷ 2 ∷ 3 ∷ 4 ∷ 5 ∷ 6 ∷ 7 ∷ 8 ∷ 9 ∷ 10 ∷ 11 ∷ 12 ∷ 13 ∷ 14 ∷ 15 ∷ []) ∷ [])
unfolding write_chunks with_write
broken_off = refl

-- Without descriptions nothing is written, the reports neither.
nothing_to_describe : write_chunks {R = ℕ} {C = ℕ} 1 (λ k. false) [] 0 0 (70 ∷ []) ≡ some []
unfolding write_chunks
nothing_to_describe = refl

-- The descriptions of a stream go out seven times; track 11 is not bound.
seven_times :
    send_stream_reports {C = ℕ} (λ dt. dt == 10) (λ dt. dt ∷ []) entries 1
    ≡ some ((10 ∷ []) ∷ (10 ∷ []) ∷ (10 ∷ []) ∷ (10 ∷ []) ∷ (10 ∷ []) ∷ (10 ∷ []) ∷ (10 ∷ []) ∷ [])
unfolding send_stream_reports send_seven_times describe_bound get_down_tracks add_down_track
seven_times = refl

none_bound : send_stream_reports {C = ℕ} (λ dt. false) (λ dt. dt ∷ []) entries 1 ≡ some []
unfolding send_stream_reports describe_bound get_down_tracks add_down_track
none_bound = refl
