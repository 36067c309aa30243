-- ===== src/Sfu/Receiver/Feedback/Measures.antt =====
-- pkg/sfu/downtrack.go: the loss and the bitrate that handleRTCP takes from a datagram.
use ion_sfu.Prelude.{
  ℕ, zero, suc, ◌<◌, max, min, ◌≡◌, refl, ap, ◌∙◌, ◌||◌, List, [], ◌∷◌, ◌++◌, ltb, ◌==◌,
  if◌then◌else◌, All, arith,
}
use ion_sfu.Sfu.Receiver.{
  RtcpPacket, picture_loss_indication, full_intra_request, receiver_estimated_maximum_bitrate,
  receiver_report, transport_layer_nack, other_packet,
}
use ion_sfu.Sfu.Receiver.Feedback.{Gathered, max_loss, min_bitrate, gather, gather_all}

-- The fractions lost of all receiver reports, and the bitrates.
abbrev pub fractions : List RtcpPacket → List ℕ
fractions [] = []
fractions (receiver_report fs ∷ ps) = fs ++ fractions ps
fractions (p ∷ ps) = fractions ps

abbrev pub bitrates : List RtcpPacket → List ℕ
bitrates [] = []
bitrates (receiver_estimated_maximum_bitrate b ∷ ps) = b ∷ bitrates ps
bitrates (p ∷ ps) = bitrates ps

abbrev pub maximum : List ℕ → ℕ
maximum [] = 0
maximum (x ∷ xs) = max x (maximum xs)

-- The least of the numbers, 0 of none.
abbrev pub lowest : ℕ → List ℕ → ℕ
lowest b [] = b
lowest b (x ∷ xs) = lowest (min b x) xs

abbrev pub lowest_of : List ℕ → ℕ
lowest_of [] = 0
lowest_of (b ∷ bs) = lowest b bs

max_loss-maximum : (rs : List ℕ) (loss : ℕ) → max_loss loss rs ≡ max loss (maximum rs)
unfolding max_loss
max_loss-maximum [] loss = omega arith
max_loss-maximum (r ∷ rs) loss =
    max_loss-maximum rs (if (loss == 0) || ltb loss r then r else loss) ∙ ground arith

maximum-append : (xs ys : List ℕ) → maximum (xs ++ ys) ≡ max (maximum xs) (maximum ys)
maximum-append [] ys = omega arith
maximum-append (x ∷ xs) ys = omega (arith, maximum-append xs ys)

pub gather_all-loss :
    (own ssrc : ℕ) (g : Gathered) (ps : List RtcpPacket)
    → (gather_all own ssrc g ps).max_rate_packet_loss
      ≡ max g.max_rate_packet_loss (maximum (fractions ps))
unfolding gather_all gather
gather_all-loss own ssrc g [] = omega arith
gather_all-loss own ssrc g (picture_loss_indication s m ∷ ps) =
    gather_all-loss own ssrc (gather own ssrc g (picture_loss_indication s m)) ps ∙ ground arith
gather_all-loss own ssrc g (full_intra_request s m ∷ ps) =
    gather_all-loss own ssrc (gather own ssrc g (full_intra_request s m)) ps ∙ ground arith
gather_all-loss own ssrc g (receiver_estimated_maximum_bitrate b ∷ ps) =
    gather_all-loss own ssrc (gather own ssrc g (receiver_estimated_maximum_bitrate b)) ps
gather_all-loss own ssrc g (receiver_report fs ∷ ps) =
    gather_all-loss own ssrc (gather own ssrc g (receiver_report fs)) ps
    ∙ omega (arith, max_loss-maximum fs g.max_rate_packet_loss, maximum-append fs (fractions ps))
gather_all-loss own ssrc g (transport_layer_nack ns ∷ ps) = gather_all-loss own ssrc g ps
gather_all-loss own ssrc g (other_packet ∷ ps) = gather_all-loss own ssrc g ps

-- The bitrates, from the one so far; 0 stands for none so far.
abbrev lowest_from : ℕ → List ℕ → ℕ
lowest_from zero bs = lowest_of bs
lowest_from (suc b) bs = lowest (suc b) bs

lowest_from-pos : (b : ℕ) (bs : List ℕ) → 0 < b → lowest_from b bs ≡ lowest b bs
lowest_from-pos zero bs h = absurd (omega arith)
lowest_from-pos (suc b) bs h = refl

lowest_from-min :
    (b x : ℕ) (bs : List ℕ) → 0 < x → lowest_from (min_bitrate b x) bs ≡ lowest_from b (x ∷ bs)
unfolding min_bitrate
lowest_from-min zero x bs h = lowest_from-pos x bs h
lowest_from-min (suc b) x bs h =
    lowest_from-pos (min_bitrate (suc b) x) bs (ground arith)
    ∙ ap (λ (z : ℕ). lowest z bs) (ground arith)

lowest_from-nil : (b : ℕ) → b ≡ lowest_from b []
lowest_from-nil zero = refl
lowest_from-nil (suc b) = refl

pub gather_all-bitrate :
    (own ssrc : ℕ) (g : Gathered) (ps : List RtcpPacket)
    → All (λ (b : ℕ). 0 < b) (bitrates ps)
    → (gather_all own ssrc g ps).expected_min_bitrate
      ≡ lowest_from g.expected_min_bitrate (bitrates ps)
unfolding gather_all gather
gather_all-bitrate own ssrc g [] h = lowest_from-nil g.expected_min_bitrate
gather_all-bitrate own ssrc g (picture_loss_indication s m ∷ ps) h =
    gather_all-bitrate own ssrc (gather own ssrc g (picture_loss_indication s m)) ps h
    ∙ ap (λ (z : ℕ). lowest_from z (bitrates ps)) (ground arith)
gather_all-bitrate own ssrc g (full_intra_request s m ∷ ps) h =
    gather_all-bitrate own ssrc (gather own ssrc g (full_intra_request s m)) ps h
    ∙ ap (λ (z : ℕ). lowest_from z (bitrates ps)) (ground arith)
gather_all-bitrate own ssrc g (receiver_estimated_maximum_bitrate b ∷ ps) h =
    gather_all-bitrate own ssrc (gather own ssrc g (receiver_estimated_maximum_bitrate b)) ps h.1
    ∙ lowest_from-min g.expected_min_bitrate b (bitrates ps) h.0
gather_all-bitrate own ssrc g (receiver_report fs ∷ ps) h =
    gather_all-bitrate own ssrc (gather own ssrc g (receiver_report fs)) ps h
gather_all-bitrate own ssrc g (transport_layer_nack ns ∷ ps) h = gather_all-bitrate own ssrc g ps h
gather_all-bitrate own ssrc g (other_packet ∷ ps) h = gather_all-bitrate own ssrc g ps h
