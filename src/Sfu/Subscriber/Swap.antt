-- ===== src/Sfu/Subscriber/Swap.antt =====
-- pkg/sfu/subscriber.go: what RemoveDownTrack leaves of the tracks of a stream.
use mathlib.Core.Bool.{false≢true}
use mathlib.Core.Path.{subst}
use ion_sfu.Prelude.{
  ℕ, suc, ◌+◌, ◌-◌, ◌≡◌, refl, sym, ap, ◌∙◌, Bool, true, false, not, ◌&&◌, ◌||◌, List, [], ◌∷◌,
  Option, none, some, inl, inr, ◌==◌, if◌then◌else◌, length, get_or, set, take, has, Distinct,
  arith, Bool-cases, eqb→eq, length-take, length-set,
}
use ion_sfu.Sfu.Subscriber.{Entry, get_down_tracks, index_of, without, remove_down_track}
use ion_sfu.Sfu.Subscriber.Removal.{without_found}

-- The place of the first occurrence.
place : List ℕ → ℕ → ℕ
place [] dt = 0
place (d ∷ ds) dt = let later = place ds dt in if d == dt then 0 else suc later

index_of-place :
    (dts : List ℕ) (dt i : ℕ)
    → index_of dts dt i ≡ (if has dt dts then some (i + place dts dt) else none)
unfolding index_of place
index_of-place [] dt i = refl
index_of-place (d ∷ ds) dt i = elim (Bool-cases (d == dt)) [
  | inl e ↦ let z : i ≡ i + 0 = omega arith in rw e (ap (λ (k : ℕ). some k) z)
  | inr e ↦
      let z : i + 1 + place ds dt ≡ i + suc (place ds dt) = omega arith in
      rw e (index_of-place ds dt (i + 1) ∙ ap (λ (k : ℕ). if has dt ds then some k else none) z)
]

-- A list is its last element and the rest.
has-init :
    (d x : ℕ) (ds : List ℕ)
    → has x (d ∷ ds) ≡ (get_or (d ∷ ds) (length ds) 0 == x) || has x (take (length ds) (d ∷ ds))
has-init d x [] = ground arith
has-init d x (e ∷ ds) = ground (arith, has-init e x ds)

-- The list without the first occurrence, whose place the last one takes.
abbrev swapped : ℕ → List ℕ → ℕ → List ℕ
swapped d ds dt =
    take (length ds) (set (d ∷ ds) (place (d ∷ ds) dt) (get_or (d ∷ ds) (length ds) 0))

absent_elsewhere :
    (dt x : ℕ) (ds : List ℕ) → has dt ds ≡ false → (dt == x) ≡ true → has x ds ≡ false
absent_elsewhere dt x ds h e = ap (λ (k : ℕ). has k ds) (sym (eqb→eq dt x e)) ∙ h

first_out :
    (d dt x last : ℕ) (b c : Bool)
    → (d == dt) ≡ true
    → ((dt == x) ≡ true → b ≡ false)
    → b ≡ (last == x) || c
    → (last == x) || c ≡ ((d == x) || b) && not (dt == x)
first_out d dt x last b c e gone rest = elim (Bool-cases (dt == x)) [
  | inl q ↦ rw q (ground (arith, gone q, rest))
  | inr q ↦ ground (arith, q, rest, e)
]

later_out :
    (d dt x : ℕ) (b c : Bool)
    → (d == dt) ≡ false
    → c ≡ b && not (dt == x)
    → (d == x) || c ≡ ((d == x) || b) && not (dt == x)
later_out d dt x b c e later = ground (arith, e, later)

has-swapped :
    (d dt x : ℕ) (ds : List ℕ)
    → Distinct (d ∷ ds)
    → has dt (d ∷ ds) ≡ true
    → has x (swapped d ds dt) ≡ has x (d ∷ ds) && not (dt == x)
unfolding place
has-swapped d dt x [] u h = ground (arith, h)
has-swapped d dt x (e ∷ ds) u h = elim (Bool-cases (d == dt)) [
  | inl s ↦
      let gone : (dt == x) ≡ true → has x (e ∷ ds) ≡ false =
        λ q. absent_elsewhere d x (e ∷ ds) u.0 (ap (λ (k : ℕ). k == x) (eqb→eq d dt s) ∙ q) in
      let rest = has-init e x ds in
      rw s (
        first_out d dt x (get_or (e ∷ ds) (length ds) 0) (has x (e ∷ ds))
          (has x (take (length ds) (e ∷ ds))) s gone rest)
  | inr s ↦
      let later = has-swapped e dt x ds u.1 (ground (arith, h, s)) in
      rw s (later_out d dt x (has x (e ∷ ds)) (has x (swapped e ds dt)) s later)
]

length-swapped : (d dt : ℕ) (ds : List ℕ) → length (swapped d ds dt) ≡ length ds
length-swapped d dt ds =
    let whole = length-set (d ∷ ds) (place (d ∷ ds) dt) (get_or (d ∷ ds) (length ds) 0) in
    omega (
      arith,
      length-take (length ds) (set (d ∷ ds) (place (d ∷ ds) dt) (get_or (d ∷ ds) (length ds) 0)),
      whole,
    )

without-swapped :
    (d dt : ℕ) (ds : List ℕ) → has dt (d ∷ ds) ≡ true → without (d ∷ ds) dt ≡ swapped d ds dt
without-swapped d dt ds h =
    let at = place (d ∷ ds) dt in
    let one_less : length (d ∷ ds) - 1 ≡ length ds = omega arith in
    let found : index_of (d ∷ ds) dt 0 ≡ some at =
      index_of-place (d ∷ ds) dt 0 ∙ rw h (ap (λ (k : ℕ). some k) (omega arith)) in
    without_found (d ∷ ds) dt at found ∙ rw one_less refl

without_missing : (dts : List ℕ) (dt : ℕ) → has dt dts ≡ false → without dts dt ≡ dts
unfolding without
without_missing dts dt h =
    let missing : index_of dts dt 0 ≡ none = index_of-place dts dt 0 ∙ rw h refl in
    ap
      (λ (o : Option ℕ). elim o as (λ z. List ℕ) [
        | none ↦ dts
        | some idx ↦ take (length dts - 1) (set dts idx (get_or dts (length dts - 1) 0))
      ])
      missing

-- What is left of the tracks of a stream without one of them.
pub record IsWithout (dt : ℕ) (dts left : List ℕ) : Type 0 where
  pub others : (x : ℕ) → has x left ≡ has x dts && not (dt == x)
  pub size : length left + (if has dt dts then 1 else 0) ≡ length dts

missing_others :
    (x dt : ℕ) (dts : List ℕ) → has dt dts ≡ false → has x dts ≡ has x dts && not (dt == x)
missing_others x dt dts h = elim (Bool-cases (dt == x)) [
  | inl e ↦ rw (absent_elsewhere dt x dts h e) refl
  | inr e ↦ rw e (ground arith)
]

there-IsWithout :
    (dts : List ℕ) (dt : ℕ) → Distinct dts → has dt dts ≡ true → IsWithout dt dts (without dts dt)
there-IsWithout [] dt u h = absurd (false≢true h)
there-IsWithout (d ∷ ds) dt u h = rw (without-swapped d dt ds h) (record {
  others = λ x. has-swapped d dt x ds u h;
  size = rw h (omega (arith, length-swapped d dt ds));
})

without-IsWithout : (dts : List ℕ) (dt : ℕ) → Distinct dts → IsWithout dt dts (without dts dt)
without-IsWithout dts dt u = elim (Bool-cases (has dt dts)) [
  | inl h ↦ there-IsWithout dts dt u h
  | inr h ↦
      rw (without_missing dts dt h)
        (record { others = λ x. missing_others x dt dts h; size = rw h (omega arith) })
]

tracks-remove :
    (es : List Entry) (stream_id dt : ℕ)
    → get_down_tracks (remove_down_track es stream_id dt) stream_id
      ≡ without (get_down_tracks es stream_id) dt
unfolding get_down_tracks remove_down_track
tracks-remove [] stream_id dt = sym (without_missing [] dt refl)
tracks-remove (e ∷ es) stream_id dt = elim (Bool-cases (e.stream_id == stream_id)) [
  | inl same ↦ rw (same, same) refl
  | inr differs ↦ rw (differs, differs) (tracks-remove es stream_id dt)
]

tracks_elsewhere :
    (es : List Entry) (stream_id dt other : ℕ)
    → (stream_id == other) ≡ false
    → get_down_tracks (remove_down_track es stream_id dt) other ≡ get_down_tracks es other
unfolding get_down_tracks remove_down_track
tracks_elsewhere [] stream_id dt other ne = refl
tracks_elsewhere (e ∷ es) stream_id dt other ne = elim (Bool-cases (e.stream_id == stream_id)) [
  | inl same ↦
      let off : (e.stream_id == other) ≡ false = ground (arith, same, ne) in rw (same, off) refl
  | inr differs ↦ rw differs (
      ap (λ (dts : List ℕ). if e.stream_id == other then e.down_tracks else dts)
        (tracks_elsewhere es stream_id dt other ne))
]

-- RemoveDownTrack on a stream that has no track twice takes out that track and no other one, wherever
-- it stands: behind it the stream has the tracks it had but this one, and one fewer where it had it.
-- The tracks of the other streams stay as they are.
pub remove_down_track-removes :
    (es : List Entry) (stream_id dt : ℕ)
    → Distinct (get_down_tracks es stream_id)
    → let left = remove_down_track es stream_id dt in
      IsWithout dt (get_down_tracks es stream_id) (get_down_tracks left stream_id)
      × ((other : ℕ)
          → (stream_id == other) ≡ false
          → get_down_tracks left other ≡ get_down_tracks es other)
remove_down_track-removes es stream_id dt u = (
  subst (IsWithout dt (get_down_tracks es stream_id)) (sym (tracks-remove es stream_id dt))
      (without-IsWithout (get_down_tracks es stream_id) dt u),
  λ other ne. tracks_elsewhere es stream_id dt other ne,
)
