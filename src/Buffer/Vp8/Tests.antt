-- ===== src/Buffer/Vp8/Tests.antt =====
-- VP8 descriptors of concrete frames.
use ion_sfu.Prelude.{ℕ, ◌≡◌, refl, true, List, [], ◌∷◌, none, some}
use ion_sfu.Buffer.Vp8.{
  Vp8, zero_vp8, short_packet, unmarshal, read_extended, read_picture_id, read_tl0_pic_idx,
  read_tid, read_end, read_key_frame, modify_vp8_temporal_payload,
}
use ion_sfu.Buffer.Vp8.Rewrite.{unmarshal-InRange, rewrite_round_trip, InRange, full_descriptor}

-- A key frame with picture id 0x1234, TL0PICIDX 5 and TID 2.
abbrev frame : List ℕ
frame = full_descriptor 144 224 146 52 5 (128 ∷ 16 ∷ 2 ∷ [])

abbrev parsed : Vp8
parsed = record {
  temporal_supported = true;
  picture_id = 4660;
  pic_id_idx = 2;
  m_bit = true;
  tl0_pic_idx = 5;
  tlz_idx = 4;
  tid = 2;
  is_key_frame = true;
}

unmarshal-frame : unmarshal zero_vp8 (some frame) ≡ (none, parsed)
unfolding unmarshal read_extended read_picture_id read_tl0_pic_idx read_tid read_end read_key_frame
unmarshal-frame = refl

unmarshal-short : (unmarshal zero_vp8 (some (144 ∷ 224 ∷ []))).0 ≡ some short_packet
unfolding unmarshal read_extended
unmarshal-short = refl

unmarshal-InRange_example : InRange frame parsed
unfolding unmarshal read_extended read_picture_id read_tl0_pic_idx read_tid read_end read_key_frame
unmarshal-InRange_example = unmarshal-InRange frame

rewrite_round_trip_example :
    unmarshal zero_vp8 (some (modify_vp8_temporal_payload frame 2 4 40000 9 true))
    ≡ (none, record parsed { picture_id = 7232; tl0_pic_idx = 9 })
unfolding unmarshal read_extended read_picture_id read_tl0_pic_idx read_tid read_end read_key_frame
rewrite_round_trip_example =
    rewrite_round_trip 144 224 146 52 5 40000 9 (128 ∷ 16 ∷ 2 ∷ []) refl refl refl refl
