-- ===== src/Sfu/Receiver/Forwarding/Finishing.antt =====
-- pkg/sfu/receiver.go: the key frame that ends the switches to a layer.
use mathlib.Core.Bool.{false≢true}
use ion_sfu.Prelude.{
  ℕ, ◌≡◌, refl, sym, ap, ◌∙◌, true, false, List, [], ◌∷◌, some, inl, inr, ◌==◌, has, Distinct, All,
  arith, Bool-cases, eqb→eq,
}
use ion_sfu.Sfu.Receiver.{WebRtcReceiver, listed}
use ion_sfu.Sfu.Receiver.Forwarding.{is_stored, finish_all}
use ion_sfu.Sfu.Receiver.Forwarding.Placement.{layer_at, IsPlaced}
use ion_sfu.Sfu.Receiver.Forwarding.Switching.{IsMoved, finish_one-IsMoved}

-- The tracks of a list, each on a layer that has a list.
abbrev pub AllStored : WebRtcReceiver → List ℕ → Type 0
AllStored w ts = All (λ (t : ℕ). is_stored w (layer_at w t) ≡ true) ts

stored-moved :
    (w w' : WebRtcReceiver) (layer t x : ℕ)
    → IsMoved w w' layer t
    → is_stored w layer ≡ true
    → is_stored w (layer_at w x) ≡ true
    → is_stored w' (layer_at w' x) ≡ true
stored-moved w w' layer t x m hs h = elim (Bool-cases (t == x)) [
  | inl e ↦ rw (ap (layer_at w') (sym (eqb→eq t x e)) ∙ m.now_at) (m.stored layer hs)
  | inr e ↦ rw (m.others x e) (m.stored (layer_at w x) h)
]

AllStored-moved :
    (w w' : WebRtcReceiver) (layer t : ℕ) (ts : List ℕ)
    → IsMoved w w' layer t
    → is_stored w layer ≡ true
    → AllStored w ts
    → AllStored w' ts
AllStored-moved w w' layer t [] m hs h = tt
AllStored-moved w w' layer t (x ∷ ts) m hs h =
    (stored-moved w w' layer t x m hs h.0, AllStored-moved w w' layer t ts m hs h.1)

-- None of the tracks is on the layer.
abbrev pub AllElsewhere : WebRtcReceiver → ℕ → List ℕ → Type 0
AllElsewhere w layer ts = All (λ (t : ℕ). (layer_at w t == layer) ≡ false) ts

AllElsewhere-moved :
    (w w' : WebRtcReceiver) (layer t : ℕ) (ts : List ℕ)
    → IsMoved w w' layer t
    → has t ts ≡ false
    → AllElsewhere w layer ts
    → AllElsewhere w' layer ts
AllElsewhere-moved w w' layer t [] m n h = tt
AllElsewhere-moved w w' layer t (x ∷ ts) m n h = (
  rw (m.others x (ground (arith, n))) h.0,
  AllElsewhere-moved w w' layer t ts m (ground (arith, n)) h.1,
)

-- What finished switches leave: the tracks on the layer stay, and the others come.
pub record IsFinished (w w' : WebRtcReceiver) (layer : ℕ) (ts : List ℕ) : Type 0 where
  pub arrived :
      (t : ℕ) → has t ts ≡ true → (has t (listed w' layer) ≡ true) × (layer_at w' t ≡ layer)
  pub others : (t : ℕ) → has t ts ≡ false → layer_at w' t ≡ layer_at w t
  pub still_here : (t : ℕ) → has t (listed w layer) ≡ true → has t (listed w' layer) ≡ true

first_arrived :
    (v w' : WebRtcReceiver) (layer t : ℕ) (ts : List ℕ)
    → IsFinished v w' layer ts
    → has t (listed v layer) ≡ true
    → layer_at v t ≡ layer
    → has t ts ≡ false
    → (t' : ℕ) → has t' (t ∷ ts) ≡ true
    → (has t' (listed w' layer) ≡ true) × (layer_at w' t' ≡ layer)
first_arrived v w' layer t ts f h n d t' a = elim (Bool-cases (t == t')) [
  | inl e ↦ rw (sym (eqb→eq t t' e)) (f.still_here t h, f.others t d ∙ n)
  | inr e ↦ f.arrived t' (ground (arith, a, e))
]

IsFinished-moved :
    (w v w' : WebRtcReceiver) (layer t : ℕ) (ts : List ℕ)
    → IsMoved w v layer t
    → (layer_at w t == layer) ≡ false
    → has t ts ≡ false
    → IsFinished v w' layer ts
    → IsFinished w w' layer (t ∷ ts)
IsFinished-moved w v w' layer t ts m away d f = record {
  arrived = first_arrived v w' layer t ts f m.here m.now_at d;
  others = λ t' h. f.others t' (ground (arith, h)) ∙ m.others t' (ground (arith, h));
  still_here = λ t' h. f.still_here t' (m.still_here t' away h);
}

-- The outcome of the switches of a list.
pub record IsAllMoved (w w' : WebRtcReceiver) (layer : ℕ) (ts : List ℕ) : Type 0 where
  pub placed : IsPlaced w'
  pub stored : (l : ℕ) → is_stored w l ≡ true → is_stored w' l ≡ true
  pub finished : AllElsewhere w layer ts → Distinct ts → IsFinished w w' layer ts

pub finish_all-IsAllMoved :
    (ts : List ℕ) (layer : ℕ) (w : WebRtcReceiver)
    → IsPlaced w
    → is_stored w layer ≡ true
    → AllStored w ts
    → (w' : WebRtcReceiver) × (finish_all ts layer w ≡ some w') × IsAllMoved w w' layer ts
unfolding finish_all
finish_all-IsAllMoved [] layer w s hs h = (
  w,
  refl,
  record {
    placed = s;
    stored = λ l a. a;
    finished = λ a d. record {
      arrived = λ t e. absurd (false≢true e);
      others = λ t e. refl;
      still_here = λ t e. e;
    };
  },
)
finish_all-IsAllMoved (t ∷ ts) layer w s hs h =
    let (v, e, m) = finish_one-IsMoved w layer t s hs h.0 in
    let (w', e', r) =
      finish_all-IsAllMoved ts layer v m.placed (m.stored layer hs)
        (AllStored-moved w v layer t ts m hs h.1) in
    (
      w',
      rw e e',
      record {
        placed = r.placed;
        stored = λ l a. r.stored l (m.stored l a);
        finished = λ a d.
            IsFinished-moved w v w' layer t ts m a.0 d.0
              (r.finished (AllElsewhere-moved w v layer t ts m d.0 a.1) d.1);
      },
    )
