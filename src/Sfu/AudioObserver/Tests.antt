-- ===== src/Sfu/AudioObserver/Tests.antt =====
-- One speaker of two streams.
use ion_sfu.Prelude.{◌≡◌, refl, [], ◌∷◌, some, none}
use ion_sfu.Sfu.AudioObserver.{
  AudioObserver, new_audio_observer, add_stream, observe, observe_in, speakers, same_ids, calc,
}

abbrev spoken : AudioObserver
spoken = observe (add_stream (add_stream (new_audio_observer 40 1000 2) 1) 2) 2 30

one_speaker : (calc (λ l. l) spoken).0 ≡ some (2 ∷ [])
unfolding calc speakers same_ids new_audio_observer add_stream observe observe_in
one_speaker = refl

silence_reported : (calc (λ l. l) (calc (λ l. l) spoken).1).0 ≡ some []
unfolding calc speakers same_ids new_audio_observer add_stream observe observe_in
silence_reported = refl

silence_once : (calc (λ l. l) (calc (λ l. l) (calc (λ l. l) spoken).1).1).0 ≡ none
unfolding calc speakers same_ids new_audio_observer add_stream observe observe_in
silence_once = refl
