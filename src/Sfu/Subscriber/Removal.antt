-- ===== src/Sfu/Subscriber/Removal.antt =====
-- pkg/sfu/subscriber.go: a track that is added and removed again.
use mathlib.Core.Path.{subst}
use ion_sfu.Prelude.{
  ℕ, suc, ◌+◌, ◌-◌, ◌≡◌, refl, ap, ◌∙◌, true, false, List, [], ◌∷◌, ◌++◌, Option, none, some, inl,
  inr, ◌==◌, if◌then◌else◌, length, get_or, set, take, All, arith, Bool-cases, eqb_refl,
}
use ion_sfu.Sfu.Subscriber.{
  Entry, get_down_tracks, add_down_track, index_of, without, remove_down_track,
}

-- None of the tracks is this one.
abbrev pub IsNew : ℕ → List ℕ → Type 0
IsNew down_track dts = All (λ (dt : ℕ). (dt == down_track) ≡ false) dts

index_of-added :
    (dts : List ℕ) (dt i : ℕ)
    → IsNew dt dts
    → index_of (dts ++ (dt ∷ [])) dt i ≡ some (i + length dts)
unfolding index_of
index_of-added [] dt i h =
    let e : i ≡ i + 0 = omega arith in rw (eqb_refl dt) (ap (λ (k : ℕ). some k) e)
index_of-added (d ∷ dts) dt i h =
    let e : i + 1 + length dts ≡ i + suc (length dts) = omega arith in
    rw h.0 (index_of-added dts dt (i + 1) h.1 ∙ ap (λ (k : ℕ). some k) e)

length-added : (dts : List ℕ) (dt : ℕ) → length (dts ++ (dt ∷ [])) ≡ suc (length dts)
length-added [] dt = refl
length-added (d ∷ dts) dt = ap suc (length-added dts dt)

take-set-added :
    (dts : List ℕ) (dt y : ℕ) → take (length dts) (set (dts ++ (dt ∷ [])) (length dts) y) ≡ dts
take-set-added [] dt y = refl
take-set-added (d ∷ dts) dt y = ap (λ (xs : List ℕ). d ∷ xs) (take-set-added dts dt y)

pub without_found :
    (dts : List ℕ) (dt i : ℕ)
    → index_of dts dt 0 ≡ some i
    → without dts dt ≡ take (length dts - 1) (set dts i (get_or dts (length dts - 1) 0))
unfolding without
without_found dts dt i e =
    ap
      (λ (o : Option ℕ). elim o as (λ z. List ℕ) [
        | none ↦ dts
        | some idx ↦ take (length dts - 1) (set dts idx (get_or dts (length dts - 1) 0))
      ])
      e

without-added : (dts : List ℕ) (dt : ℕ) → IsNew dt dts → without (dts ++ (dt ∷ [])) dt ≡ dts
without-added dts dt h =
    let one_less : length (dts ++ (dt ∷ [])) - 1 ≡ length dts =
      omega (arith, length-added dts dt) in
    let found : index_of (dts ++ (dt ∷ [])) dt 0 ≡ some (length dts) =
      index_of-added dts dt 0 h ∙ ap (λ (k : ℕ). some k) (omega arith) in
    without_found (dts ++ (dt ∷ [])) dt (length dts) found
    ∙ rw one_less (take-set-added dts dt (get_or (dts ++ (dt ∷ [])) (length dts) 0))

pub tracks_here :
    (e : Entry) (es : List Entry) (stream_id : ℕ)
    → (e.stream_id == stream_id) ≡ true
    → get_down_tracks (e ∷ es) stream_id ≡ e.down_tracks
unfolding get_down_tracks
tracks_here e es stream_id same = rw same refl

pub tracks_later :
    (e : Entry) (es : List Entry) (stream_id : ℕ)
    → (e.stream_id == stream_id) ≡ false
    → get_down_tracks (e ∷ es) stream_id ≡ get_down_tracks es stream_id
unfolding get_down_tracks
tracks_later e es stream_id differs = rw differs refl

-- A track that is added to a stream and removed again, and was not there before, leaves the tracks of
-- every stream as they were, in their order.
pub remove-add_down_track :
    (es : List Entry) (stream_id dt other : ℕ)
    → IsNew dt (get_down_tracks es stream_id)
    → get_down_tracks (remove_down_track (add_down_track es stream_id dt) stream_id dt) other
      ≡ get_down_tracks es other
unfolding get_down_tracks add_down_track remove_down_track
remove-add_down_track [] stream_id dt other h = elim (Bool-cases (stream_id == other)) [
  | inl same ↦ rw (eqb_refl stream_id, same) (without-added [] dt tt)
  | inr differs ↦ rw (eqb_refl stream_id, differs) refl
]
remove-add_down_track (e ∷ es) stream_id dt other h = elim (Bool-cases (e.stream_id == stream_id)) [
  | inl same ↦
      let fresh : IsNew dt e.down_tracks = subst (IsNew dt) (tracks_here e es stream_id same) h in
      rw (same, same, without-added e.down_tracks dt fresh) refl
  | inr differs ↦
      let fresh : IsNew dt (get_down_tracks es stream_id) =
        subst (IsNew dt) (tracks_later e es stream_id differs) h in
      rw (differs, differs)
        (ap (λ (dts : List ℕ). if e.stream_id == other then e.down_tracks else dts)
          (remove-add_down_track es stream_id dt other fresh))
]
