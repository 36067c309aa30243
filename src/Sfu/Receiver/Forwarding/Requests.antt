-- ===== src/Sfu/Receiver/Forwarding/Requests.antt =====
-- pkg/sfu/receiver.go: the requests for key frames that reach the source.
use ion_sfu.Prelude.{
  ℕ, ◌+◌, ◌-◌, ◌≤◌, ◌≡◌, refl, ap, ◌∙◌, not, ◌&&◌, true, false, List, [], ◌∷◌, none, some, inl, inr,
  ltb, leb, ◌==◌, if◌then◌else◌, length, length-append, arith, Bool-cases, eqb_refl,
}
use ion_sfu.Sfu.Receiver.{WebRtcReceiver, Event, RtcpPacket, rtcp, emit}
use ion_sfu.Sfu.Receiver.Forwarding.{is_pli, send_rtcp}

-- A call of `SendRTCP`: its time, its first packet and the others.
pub record Request : Type 0 where
  pub now : ℕ
  pub first : RtcpPacket
  pub more : List RtcpPacket

-- The receiver after a call; a panic would leave it as it is.
unfoldable pub asked : WebRtcReceiver → Request → WebRtcReceiver
asked w r = elim (send_rtcp w r.now (r.first ∷ r.more)) [ none ↦ w | some v ↦ v ]

unfoldable pub asked_all : WebRtcReceiver → List Request → WebRtcReceiver
asked_all w [] = w
asked_all w (r ∷ rs) = asked_all (asked w r) rs

-- The times of the calls led by a PLI at which something was put on the channel.
unfoldable pub sent_at : WebRtcReceiver → List Request → List ℕ
sent_at w [] = []
sent_at w (r ∷ rs) =
    let v = asked w r in
    let rest = sent_at v rs in
    if is_pli r.first && not (length v.events == length w.events) then r.now ∷ rest else rest

-- The times of the calls led by a PLI, and how many others there are.
abbrev pub led_at : List Request → List ℕ
led_at [] = []
led_at (r ∷ rs) = let rest = led_at rs in if is_pli r.first then r.now ∷ rest else rest

abbrev pub others : List Request → ℕ
others [] = 0
others (r ∷ rs) = let rest = others rs in if is_pli r.first then rest else 1 + rest

-- What passes: the requests that come half a second or more after the last one that passed.
abbrev pub throttled : ℕ → List ℕ → List ℕ
throttled last [] = []
throttled last (now ∷ nows) =
    let passed = throttled now nows in
    let held = throttled last nows in if leb (last + 500000000) now then now ∷ passed else held

abbrev pub Apart : ℕ → List ℕ → Type 0
Apart last [] = Unit
Apart last (t ∷ ts) = (last + 500000000 ≤ t) × Apart t ts

Apart-throttled : (nows : List ℕ) (last : ℕ) → Apart last (throttled last nows)
Apart-throttled [] last = tt
Apart-throttled (now ∷ nows) last = elim (Bool-cases (leb (last + 500000000) now)) [
  | inl e ↦ rw e (ground (arith, e), Apart-throttled nows now)
  | inr e ↦ rw e (Apart-throttled nows last)
]

soon : (last now : ℕ) → leb (last + 500000000) now ≡ false → ltb (now - last) 500000000 ≡ true
soon last now h = ground (arith, h)

long_ago : (last now : ℕ) → leb (last + 500000000) now ≡ true → ltb (now - last) 500000000 ≡ false
long_ago last now h = ground (arith, h)

-- A call is held back, or it passes and puts one event on the channel.
asked_early :
    (w : WebRtcReceiver) (r : Request)
    → is_pli r.first ≡ true
    → leb (w.last_pli + 500000000) r.now ≡ false
    → asked w r ≡ w
unfolding asked send_rtcp
asked_early w r led h = rw (asked, led, soon w.last_pli r.now h) refl

asked_late :
    (w : WebRtcReceiver) (r : Request)
    → is_pli r.first ≡ true
    → leb (w.last_pli + 500000000) r.now ≡ true
    → asked w r ≡ emit (record w { last_pli = r.now }) (rtcp (r.first ∷ r.more))
unfolding asked send_rtcp
asked_late w r led h = rw (asked, led, long_ago w.last_pli r.now h) refl

asked_other :
    (w : WebRtcReceiver) (r : Request)
    → is_pli r.first ≡ false
    → asked w r ≡ emit w (rtcp (r.first ∷ r.more))
unfolding asked send_rtcp
asked_other w r other = rw (asked, other) refl

length-emit :
    (w : WebRtcReceiver) (last : ℕ) (e : Event)
    → length (emit (record w { last_pli = last }) e).events ≡ length w.events + 1
unfolding emit
length-emit w last e = length-append w.events (e ∷ [])

emit-last_pli : (w : WebRtcReceiver) (e : Event) → (emit w e).last_pli ≡ w.last_pli
unfolding emit
emit-last_pli w e = refl

-- What calls leave: the times that passed, and the number of events.
abbrev Passed : WebRtcReceiver → List Request → Type 0
Passed w rs =
    (sent_at w rs ≡ throttled w.last_pli (led_at rs))
    × (length (asked_all w rs).events ≡ length w.events + length (sent_at w rs) + others rs)

asked_all-Passed : (rs : List Request) (w : WebRtcReceiver) → Passed w rs
unfolding sent_at asked_all
asked_all-Passed [] w = (refl, omega arith)
asked_all-Passed (r ∷ rs) w = elim (Bool-cases (is_pli r.first)) [
  | inl led ↦ elim (Bool-cases (leb (w.last_pli + 500000000) r.now)) [
    | inl e ↦
        let event = rtcp (r.first ∷ r.more) in
        let marked : WebRtcReceiver = record w { last_pli = r.now } in
        let v = emit marked event in
        let one = length-emit w r.now event in
        let longer : (length v.events == length w.events) ≡ false = ground (arith, one) in
        let (p, n) = asked_all-Passed rs v in
        let last_step =
          ap (λ (u : WebRtcReceiver). length (asked_all u rs).events) (asked_late w r led e) in
        rw (led, asked_late w r led e, longer, e)
          (
            ap (λ (ts : List ℕ). r.now ∷ ts)
                (p ∙ ap (λ (last : ℕ). throttled last (led_at rs)) (emit-last_pli marked event)),
            omega (arith, n, one, last_step),
          )
    | inr e ↦
        let (p, n) = asked_all-Passed rs w in
        let last_step =
          ap (λ (u : WebRtcReceiver). length (asked_all u rs).events) (asked_early w r led e) in
        rw (led, asked_early w r led e, eqb_refl (length w.events), e)
          (p, omega (arith, n, last_step))
  ]
  | inr other ↦
      let event = rtcp (r.first ∷ r.more) in
      let v = emit w event in
      let one = length-emit w w.last_pli event in
      let (p, n) = asked_all-Passed rs v in
      let last_step =
        ap (λ (u : WebRtcReceiver). length (asked_all u rs).events) (asked_other w r other) in
      rw (other, asked_other w r other)
        (
          p ∙ ap (λ (last : ℕ). throttled last (led_at rs)) (emit-last_pli w event),
          omega (arith, n, one, last_step),
        )
]

-- Of any calls of SendRTCP, those that a PLI leads are put on the channel where they come at least half
-- a second after the last one of them put there, so that two of them are half a second apart; the
-- calls that another packet leads, as a FIR, all pass, and do not count for the half second.
pub sent_at-Apart :
    (rs : List Request) (w : WebRtcReceiver)
    → (sent_at w rs ≡ throttled w.last_pli (led_at rs))
      × Apart w.last_pli (sent_at w rs)
      × (length (asked_all w rs).events ≡ length w.events + length (sent_at w rs) + others rs)
sent_at-Apart rs w =
    let (e, n) = asked_all-Passed rs w in (e, rw e (Apart-throttled (led_at rs) w.last_pli), n)
