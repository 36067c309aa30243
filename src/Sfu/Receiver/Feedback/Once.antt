-- ===== src/Sfu/Receiver/Feedback/Once.antt =====
-- pkg/sfu/downtrack.go: the requests for key frames that handleRTCP passes on.
use ion_sfu.Prelude.{
  ℕ, ◌+◌, ◌&&◌, ◌≡◌, refl, ap, ◌∙◌, Bool, true, false, not, ◌||◌, List, [], ◌∷◌, ◌++◌, ◌==◌,
  if◌then◌else◌, length, length-append, arith, eqb_refl,
}
use ion_sfu.Sfu.Receiver.{
  RtcpPacket, picture_loss_indication, full_intra_request, receiver_estimated_maximum_bitrate,
  receiver_report, transport_layer_nack, other_packet,
}
use ion_sfu.Sfu.Receiver.Forwarding.{is_pli}
use ion_sfu.Sfu.Receiver.Feedback.{Gathered, gather, gather_all}

unfoldable pub is_fir : RtcpPacket → Bool
is_fir (full_intra_request s m) = true
is_fir other = false

abbrev pub has_pli : List RtcpPacket → Bool
has_pli [] = false
has_pli (p ∷ ps) = is_pli p || has_pli ps

abbrev pub has_fir : List RtcpPacket → Bool
has_fir [] = false
has_fir (p ∷ ps) = is_fir p || has_fir ps

-- The requests for a key frame of a list, for a source and from a track.
abbrev pub requests : (own ssrc : ℕ) → List RtcpPacket → ℕ × ℕ
requests own ssrc [] = (0, 0)
requests own ssrc (picture_loss_indication s m ∷ ps) =
    let (plis, firs) = requests own ssrc ps in
    (plis + (if (s == own) && (m == ssrc) then 1 else 0), firs)
requests own ssrc (full_intra_request s m ∷ ps) =
    let (plis, firs) = requests own ssrc ps in
    (plis, firs + (if (s == own) && (m == ssrc) then 1 else 0))
requests own ssrc (p ∷ ps) = requests own ssrc ps

requests-append :
    (own ssrc : ℕ) (xs ys : List RtcpPacket)
    → ((requests own ssrc (xs ++ ys)).0 ≡ (requests own ssrc xs).0 + (requests own ssrc ys).0)
      × ((requests own ssrc (xs ++ ys)).1 ≡ (requests own ssrc xs).1 + (requests own ssrc ys).1)
requests-append own ssrc [] ys = (omega arith, omega arith)
requests-append own ssrc (picture_loss_indication s m ∷ xs) ys =
    let r = requests-append own ssrc xs ys in (omega (arith, r.0), r.1)
requests-append own ssrc (full_intra_request s m ∷ xs) ys =
    let r = requests-append own ssrc xs ys in (r.0, omega (arith, r.1))
requests-append own ssrc (receiver_estimated_maximum_bitrate b ∷ xs) ys =
    requests-append own ssrc xs ys
requests-append own ssrc (receiver_report fs ∷ xs) ys = requests-append own ssrc xs ys
requests-append own ssrc (transport_layer_nack ns ∷ xs) ys = requests-append own ssrc xs ys
requests-append own ssrc (other_packet ∷ xs) ys = requests-append own ssrc xs ys

abbrev pub one_if : Bool → ℕ
one_if true = 1
one_if false = 0

-- What some packets add to those to forward: a request of a kind, the first time. `pli` and `fir`
-- say whether there is one of the kind among them.
pub record IsForwarded (own ssrc : ℕ) (g g' : Gathered) (pli fir : Bool) : Type 0 where
  pub plis :
      (requests own ssrc g'.fwd_pkts).0
      ≡ (requests own ssrc g.fwd_pkts).0 + one_if (g.pli_once && pli)
  pub firs :
      (requests own ssrc g'.fwd_pkts).1
      ≡ (requests own ssrc g.fwd_pkts).1 + one_if (g.fir_once && fir)
  pub no_more :
      length g'.fwd_pkts
      ≡ length g.fwd_pkts + one_if (g.pli_once && pli) + one_if (g.fir_once && fir)
  pub pli_left : g'.pli_once ≡ g.pli_once && not pli
  pub fir_left : g'.fir_once ≡ g.fir_once && not fir

once_of_two : (o a b : Bool) → one_if (o && (a || b)) ≡ one_if (o && a) + one_if ((o && not a) && b)
once_of_two true true b = refl
once_of_two true false b = omega arith
once_of_two false a b = refl

left_of_two : (o a b : Bool) → (o && not a) && not b ≡ o && not (a || b)
left_of_two true true b = refl
left_of_two true false b = refl
left_of_two false a b = refl

IsForwarded-trans :
    (own ssrc : ℕ) (g g1 g2 : Gathered) (a b c d : Bool)
    → IsForwarded own ssrc g g1 a c
    → IsForwarded own ssrc g1 g2 b d
    → IsForwarded own ssrc g g2 (a || b) (c || d)
IsForwarded-trans own ssrc g g1 g2 a b c d x y =
    let pli = once_of_two g.pli_once a b in
    let fir = once_of_two g.fir_once c d in
    let pli' = ap (λ (o : Bool). one_if (o && b)) x.pli_left in
    let fir' = ap (λ (o : Bool). one_if (o && d)) x.fir_left in
    record {
      plis = omega (arith, pli, pli', x.plis, y.plis);
      firs = omega (arith, fir, fir', x.firs, y.firs);
      no_more = omega (arith, pli, pli', fir, fir', x.no_more, y.no_more);
      pli_left = y.pli_left ∙ ap (λ (o : Bool). o && not b) x.pli_left ∙ left_of_two g.pli_once a b;
      fir_left = y.fir_left ∙ ap (λ (o : Bool). o && not d) x.fir_left ∙ left_of_two g.fir_once c d;
    }

none_if : (o : Bool) → one_if (o && false) ≡ 0
none_if true = refl
none_if false = refl

same_if : (o : Bool) → o ≡ o && not false
same_if true = refl
same_if false = refl

-- A packet that adds nothing.
adds_nothing :
    (own ssrc : ℕ) (g g' : Gathered)
    → g'.fwd_pkts ≡ g.fwd_pkts
    → g'.pli_once ≡ g.pli_once
    → g'.fir_once ≡ g.fir_once
    → IsForwarded own ssrc g g' false false
adds_nothing own ssrc g g' h hp hf = record {
  plis =
      ap (λ (xs : List RtcpPacket). (requests own ssrc xs).0) h ∙ omega (arith, none_if g.pli_once);
  firs =
      ap (λ (xs : List RtcpPacket). (requests own ssrc xs).1) h ∙ omega (arith, none_if g.fir_once);
  no_more =
      ap (λ (xs : List RtcpPacket). length xs) h
      ∙ omega (arith, none_if g.pli_once, none_if g.fir_once);
  pli_left = hp ∙ same_if g.pli_once;
  fir_left = hf ∙ same_if g.fir_once;
}

abbrev start : List RtcpPacket → (o f : Bool) → (loss bitrate : ℕ) → Gathered
start fs o f loss bitrate = record {
  fwd_pkts = fs;
  pli_once = o;
  fir_once = f;
  max_rate_packet_loss = loss;
  expected_min_bitrate = bitrate;
}

one_request :
    (own ssrc : ℕ)
    → ((requests own ssrc (picture_loss_indication own ssrc ∷ [])).0 ≡ 1)
      × ((requests own ssrc (full_intra_request own ssrc ∷ [])).1 ≡ 1)
one_request own ssrc =
    (rw (eqb_refl own, eqb_refl ssrc) refl, rw (eqb_refl own, eqb_refl ssrc) refl)

pli_step :
    (own ssrc : ℕ) (fs : List RtcpPacket) (o f : Bool) (loss bitrate s m : ℕ)
    → IsForwarded own ssrc
        (start fs o f loss bitrate)
        (gather own ssrc (start fs o f loss bitrate) (picture_loss_indication s m))
        true
        false
unfolding gather
pli_step own ssrc fs true f loss bitrate s m =
    let r = requests-append own ssrc fs (picture_loss_indication own ssrc ∷ []) in
    let one = one_request own ssrc in
    record {
      plis = omega (arith, r.0, one.0);
      firs = omega (arith, r.1, one.1, none_if f);
      no_more = omega (arith, length-append fs (picture_loss_indication own ssrc ∷ []), none_if f);
      pli_left = refl;
      fir_left = same_if f;
    }
pli_step own ssrc fs false f loss bitrate s m = record {
  plis = omega (arith, none_if f);
  firs = omega (arith, none_if f);
  no_more = omega (arith, none_if f);
  pli_left = refl;
  fir_left = same_if f;
}

fir_step :
    (own ssrc : ℕ) (fs : List RtcpPacket) (o f : Bool) (loss bitrate s m : ℕ)
    → IsForwarded own ssrc
        (start fs f o loss bitrate)
        (gather own ssrc (start fs f o loss bitrate) (full_intra_request s m))
        false
        true
unfolding gather
fir_step own ssrc fs true f loss bitrate s m =
    let r = requests-append own ssrc fs (full_intra_request own ssrc ∷ []) in
    let one = one_request own ssrc in
    record {
      plis = omega (arith, r.0, one.0, none_if f);
      firs = omega (arith, r.1, one.1);
      no_more = omega (arith, length-append fs (full_intra_request own ssrc ∷ []), none_if f);
      pli_left = same_if f;
      fir_left = refl;
    }
fir_step own ssrc fs false f loss bitrate s m = record {
  plis = omega (arith, none_if f);
  firs = omega (arith, none_if f);
  no_more = omega (arith, none_if f);
  pli_left = same_if f;
  fir_left = refl;
}

gather-IsForwarded :
    (own ssrc : ℕ) (g : Gathered) (p : RtcpPacket)
    → IsForwarded own ssrc g (gather own ssrc g p) (is_pli p) (is_fir p)
unfolding gather is_pli is_fir
gather-IsForwarded own ssrc g (picture_loss_indication s m) =
    pli_step own ssrc g.fwd_pkts g.pli_once g.fir_once g.max_rate_packet_loss g.expected_min_bitrate
      s m
gather-IsForwarded own ssrc g (full_intra_request s m) =
    fir_step own ssrc g.fwd_pkts g.fir_once g.pli_once g.max_rate_packet_loss g.expected_min_bitrate
      s m
gather-IsForwarded own ssrc g (receiver_estimated_maximum_bitrate b) =
    adds_nothing own ssrc g (gather own ssrc g (receiver_estimated_maximum_bitrate b)) refl refl
      refl
gather-IsForwarded own ssrc g (receiver_report fs) =
    adds_nothing own ssrc g (gather own ssrc g (receiver_report fs)) refl refl refl
gather-IsForwarded own ssrc g (transport_layer_nack ns) = adds_nothing own ssrc g g refl refl refl
gather-IsForwarded own ssrc g other_packet = adds_nothing own ssrc g g refl refl refl

pub gather_all-IsForwarded :
    (own ssrc : ℕ) (g : Gathered) (ps : List RtcpPacket)
    → IsForwarded own ssrc g (gather_all own ssrc g ps) (has_pli ps) (has_fir ps)
unfolding gather_all
gather_all-IsForwarded own ssrc g [] = adds_nothing own ssrc g g refl refl refl
gather_all-IsForwarded own ssrc g (p ∷ ps) =
    IsForwarded-trans own ssrc g (gather own ssrc g p)
      (gather_all own ssrc (gather own ssrc g p) ps) (is_pli p) (has_pli ps) (is_fir p) (has_fir ps)
      (gather-IsForwarded own ssrc g p) (gather_all-IsForwarded own ssrc (gather own ssrc g p) ps)
