-- ===== src/Sfu/DownTrack/Layers/Steering.antt =====
-- Where the layers of a track may go.
use ion_sfu.Prelude.{
  ℕ, ◌+◌, ◌-◌, ◌*◌, ◌/◌, ◌≤◌, ◌<◌, ◌≡◌, ◌≢◌, ◌⊎◌, refl, sym, ◌∙◌, Bool, true, false, not, ◌&&◌,
  ◌||◌, List, [], ◌∷◌, Option, none, some, ltb, leb, ◌==◌, if◌then◌else◌, get_or, arith, inl, inr,
  Bool-cases, All,
}
use ion_sfu.Sfu.DownTrack.{DownTrack}
use ion_sfu.Sfu.DownTrack.Layers.{
  Receiver, switch_down_track, switch_spatial_layer, switch_temporal_layer, find_layer,
  wanted_layer, Conditions, handle_layer_change, raise_temporal, raise_spatial, lower_layer,
  after_raise, after_lower, SwitchError, one_below, current_temporal, target_temporal,
}

unfoldable pub has : ℕ → List ℕ → Bool
has x [] = false
has x (y ∷ ys) = (y == x) || has x ys

find_layer_lem :
    (ts : List ℕ) (m best : ℕ) (found : Bool) (low : ℕ)
    → best ≤ m
    → (found ≡ false → best ≡ 0)
    → low ≡ 0
    → let (b, f, l) = find_layer ts m best found low in
      (b ≤ m)
      × (best ≤ b)
      × All (λ t. (m < t) ⊎ (t ≤ b)) ts
      × (f ≡ false → b ≡ 0)
      × (l ≡ 0)
      × ((b ≡ best) ⊎ (has b ts ≡ true))
unfolding find_layer has
find_layer_lem [] m best found low h z e = (h, omega arith, tt, z, e, inl refl)
find_layer_lem (t ∷ ts) m best found low h z e =
    let higher = leb t m && ltb best t in
    let (b1, b2, b3, b4, b5, b6) =
      find_layer_lem ts m (if higher then t else best) (higher || found)
        (if not (leb t m) && ltb t low then t else low) (ground arith) (ground (arith, z))
        (ground arith) in
    (b1, ground arith, (ground arith, b3), b4, b5, ground arith)

-- The layer for a track after the source's layers have changed is the highest available one that is
-- not above the track's maximum, and 0 where there is none.
pub wanted_layer_lem :
    (ts : List ℕ) (m : ℕ)
    → let target = wanted_layer ts m in
      (target ≤ m) × ((target ≡ 0) ⊎ (has target ts ≡ true)) × All (λ t. (m < t) ⊎ (t ≤ target)) ts
unfolding wanted_layer
wanted_layer_lem ts m =
    let (a, b, c, z, l, x) = find_layer_lem ts m 0 false 0 (omega arith) (λ _. refl) refl in
    elim (Bool-cases (find_layer ts m 0 false 0).1) [
      | inl f ↦ rw f (a, x, c)
      | inr f ↦ let low = l ∙ sym (z f) in rw (f, low) (a, x, c)
    ]

find_layer_none :
    (ts : List ℕ) (m : ℕ) → All (λ t. m < t) ts → find_layer ts m 0 false 0 ≡ (0, false, 0)
unfolding find_layer
find_layer_none [] m h = refl
find_layer_none (t ∷ ts) m (h, hs) =
    let above : leb t m ≡ false = ground arith in
    let low : ltb t 0 ≡ false = ground arith in rw (above, low) (find_layer_none ts m hs)

-- Where all available layers are above the track's maximum, the layer that is chosen is 0, whether it
-- is available or not.
pub wanted_layer_none : (ts : List ℕ) (m : ℕ) → All (λ t. m < t) ts → wanted_layer ts m ≡ 0
unfolding wanted_layer
wanted_layer_none ts m h = rw (find_layer_none ts m h) refl

-- No switch of the spatial or of the temporal layer is under way, and the delay behind the last one
-- is over.
pub record IsSettled (c : Conditions) (d : DownTrack) : Type 0 where
  pub spatial : d.target_spatial_layer ≡ d.current_spatial_layer
  pub temporal : current_temporal d ≡ target_temporal d
  pub waited : d.simulcast.switch_delay < c.now

-- What the loss and the bitrate may do to the target of the spatial layer.
pub data SpatialMove (c : Conditions) (d : DownTrack) (w : Receiver) (target : ℕ) : Type 0 where
  stay : target ≡ d.target_spatial_layer → SpatialMove c d w target
  up :
      target ≡ d.current_spatial_layer + 1
      → IsSettled c d
      → c.max_rate_packet_loss ≤ 5
      → 3 * get_or c.bitrates d.current_spatial_layer 0 / 2 ≤ c.expected_min_bitrate
      → target ≤ d.max_spatial_layer
      → target ≤ 2
      → get_or w.available target false ≡ true
      → SpatialMove c d w target
  down :
      target + 1 ≡ d.current_spatial_layer
      → IsSettled c d
      → 25 ≤ c.max_rate_packet_loss
      → get_or c.bitrates target 0 ≢ 0
      → get_or w.available target false ≡ true
      → SpatialMove c d w target

temporal-keeps :
    (d : DownTrack) (target : ℕ) (m : Bool)
    → let e = switch_temporal_layer d target m in
      (e.target_spatial_layer ≡ d.target_spatial_layer)
      × (e.current_spatial_layer ≡ d.current_spatial_layer)
      × (e.max_spatial_layer ≡ d.max_spatial_layer)
unfolding switch_temporal_layer
temporal-keeps d target m = ground arith

-- A request for a layer is made only where the receiver has that layer.
requested :
    (d : DownTrack) (w : Receiver) (track layer : ℕ)
    → let (e, d', w') = switch_spatial_layer d w track layer false in
      (d'.target_spatial_layer ≡ d.target_spatial_layer)
      ⊎ (d'.target_spatial_layer ≡ layer) × (get_or w.available layer false ≡ true)
unfolding switch_spatial_layer switch_down_track
requested d w track layer = elim (Bool-cases (get_or w.available layer false)) [
  | inl a ↦
      elim (Bool-cases ((d.current_spatial_layer == d.target_spatial_layer) && not w.closed)) [
        | inl b ↦ rw a (ground (arith, b))
        | inr b ↦ rw a (ground (arith, b))
      ]
  | inr a ↦ rw a (inl (ground arith))
]

raised-keeps :
    (c : Conditions) (cbr mctl ctl : ℕ) (d : DownTrack)
    → let e = raise_temporal c cbr mctl ctl d in
      (e.target_spatial_layer ≡ d.target_spatial_layer)
      × (e.current_spatial_layer ≡ d.current_spatial_layer)
      × (e.max_spatial_layer ≡ d.max_spatial_layer)
unfolding raise_temporal
raised-keeps c cbr mctl ctl d = let (a, b, e) = temporal-keeps d (ctl + 1) false in ground arith

after_raise-keeps :
    (e : Option SwitchError) (d : DownTrack)
    → (after_raise e d).target_spatial_layer ≡ d.target_spatial_layer
unfolding after_raise
after_raise-keeps none d = (temporal-keeps d 0 false).0
after_raise-keeps (some e) d = refl

after_lower-keeps :
    (e : Option SwitchError) (d : DownTrack) (l : ℕ)
    → (after_lower e d l).target_spatial_layer ≡ d.target_spatial_layer
unfolding after_lower
after_lower-keeps none d l = refl
after_lower-keeps (some e) d l = (temporal-keeps d l false).0

move_up :
    (c : Conditions) (track cbr mctl ctl csl : ℕ) (d : DownTrack) (w : Receiver)
    → let (d', w') = raise_spatial c track cbr mctl ctl csl d w in
      (d'.target_spatial_layer ≡ d.target_spatial_layer)
      ⊎ (d'.target_spatial_layer ≡ csl + 1)
        × (3 * cbr / 2 ≤ c.expected_min_bitrate)
        × (csl + 1 ≤ d.max_spatial_layer)
        × (csl + 1 ≤ 2)
        × (get_or w.available (csl + 1) false ≡ true)
unfolding raise_spatial
move_up c track cbr mctl ctl csl d w =
    let r = requested d w track (csl + 1) in
    let k =
      after_raise-keeps (switch_spatial_layer d w track (csl + 1) false).0
        (switch_spatial_layer d w track (csl + 1) false).1 in
    ground arith

move_down :
    (c : Conditions) (track cbr ctl csl : ℕ) (d : DownTrack) (w : Receiver)
    → let (d', w') = lower_layer c track cbr ctl csl d w in
      (d'.target_spatial_layer ≡ d.target_spatial_layer)
      ⊎ (d'.target_spatial_layer ≡ csl - 1)
        × (0 < csl)
        × (get_or c.bitrates (csl - 1) 0 ≢ 0)
        × (get_or w.available (csl - 1) false ≡ true)
unfolding lower_layer
move_down c track cbr ctl csl d w =
    let r = requested d w track (csl - 1) in
    let k =
      after_lower-keeps (switch_spatial_layer d w track (csl - 1) false).0
        (switch_spatial_layer d w track (csl - 1) false).1
        (get_or c.max_temporal_layers (csl - 1) 0) in
    let t = temporal-keeps d (one_below ctl) false in ground arith

ready-IsSettled :
    (c : Conditions) (d : DownTrack)
    → ((d.target_spatial_layer == d.current_spatial_layer)
        && (current_temporal d == target_temporal d)
        && ltb d.simulcast.switch_delay c.now)
      ≡ true
    → IsSettled c d
ready-IsSettled c d y = record {
  spatial = ground (arith, y);
  temporal = ground (arith, y);
  waited = ground (arith, y);
}

-- The loss and the bitrate move the spatial layer by one step at most, and never while a switch of the
-- spatial or of the temporal layer is under way or the delay behind the last one runs: up, only with little loss, enough bitrate and within the track's maximum, down, only
-- with much loss and where the layer below sends; both only to a layer that the receiver has.
pub handle_layer_change-SpatialMove :
    (c : Conditions) (track : ℕ) (d : DownTrack) (w : Receiver)
    → SpatialMove c d w (handle_layer_change c track d w).0.target_spatial_layer
unfolding handle_layer_change
handle_layer_change-SpatialMove c track d w =
    let csl = d.current_spatial_layer in
    let ctl = current_temporal d in
    let cbr = get_or c.bitrates csl 0 in
    let mctl = get_or c.max_temporal_layers csl 0 in
    let raised = raise_temporal c cbr mctl ctl d in
    let (r1, r2, r3) = raised-keeps c cbr mctl ctl d in
    let ready =
      (d.target_spatial_layer == csl)
      && (ctl == target_temporal d)
      && ltb d.simulcast.switch_delay c.now in
    elim (Bool-cases ready) [
      | inl y ↦
          let settled : IsSettled c d = ready-IsSettled c d y in
          elim (Bool-cases (leb c.max_rate_packet_loss 5)) [
            | inl few ↦
                let many : leb 25 c.max_rate_packet_loss ≡ false = ground arith in
                rw (y, few, many)
                  (elim (move_up c track cbr mctl ctl csl raised w) [
                    | inl e ↦ stay (e ∙ r1)
                    | inr (e, br, mx, two, av) ↦
                        rw e (up refl settled (ground arith) br (omega (arith, mx, r3)) two av)
                  ])
            | inr some_loss ↦ elim (Bool-cases (leb 25 c.max_rate_packet_loss)) [
              | inl many ↦
                  rw (y, some_loss, many)
                    (elim (move_down c track cbr ctl csl d w) [
                      | inl e ↦ stay e
                      | inr (e, pos, br, av) ↦
                          rw e (down (omega arith) settled (ground arith) br av)
                    ])
              | inr many ↦ rw (y, some_loss, many) (stay refl)
            ]
          ]
      | inr y ↦ rw y (stay refl)
    ]
