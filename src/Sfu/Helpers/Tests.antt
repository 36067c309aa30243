-- ===== src/Sfu/Helpers/Tests.antt =====
-- The codec that is found for a line and for a type, and a timestamp over a wrap.
use ion_sfu.Prelude.{◌≡◌, refl, some, none, [], ◌∷◌}
use ion_sfu.Sfu.Helpers.{
  Codec, same_line, same_mime, first_that, codec_parameters_fuzzy_search,
  fast_forward_timestamp_amount,
}
use ion_sfu.Buffer.Stream.Calc.{is_timestamp_wrap_around}

abbrev vp9 : Codec
vp9 = record { mime = 4; sdp_fmtp_line = 10; payload_type = 98 }

abbrev vp9_second : Codec
vp9_second = record { mime = 4; sdp_fmtp_line = 12; payload_type = 100 }

by_line :
    codec_parameters_fuzzy_search (record vp9_second { payload_type = 0 }) (vp9 ∷ vp9_second ∷ [])
    ≡ some vp9_second
unfolding codec_parameters_fuzzy_search first_that same_line
by_line = refl

by_mime :
    codec_parameters_fuzzy_search (record vp9_second { sdp_fmtp_line = 1 }) (vp9 ∷ vp9_second ∷ [])
    ≡ some vp9
unfolding codec_parameters_fuzzy_search first_that same_line same_mime
by_mime = refl

not_found : codec_parameters_fuzzy_search (record vp9 { mime = 1 }) (vp9 ∷ vp9_second ∷ []) ≡ none
unfolding codec_parameters_fuzzy_search first_that same_line same_mime
not_found = refl

-- Over the wrap of the timestamp.
forward_over_wrap : fast_forward_timestamp_amount 100 4294967000 ≡ 396
unfolding fast_forward_timestamp_amount is_timestamp_wrap_around
forward_over_wrap = refl
