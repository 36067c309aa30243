-- ===== src/Sfu/Sequencer/Lookup.antt =====
-- The sequencer's invariant, and what a NACK gets for a packet that was sent in order.
use mathlib.Core.List.{append-nil}
use ion_sfu.Prelude.{
  ℕ, zero, suc, ◌+◌, ◌-◌, ◌≤◌, ◌<◌, ◌≡◌, refl, ◌∙◌, ap, Bool, true, false, ◌||◌, ◌&&◌, List, [],
  ◌∷◌, some, ltb, ◌==◌, if◌then◌else◌, length, get_or, set, sub16, sub32, arith, length-set,
  get_or-set, length-replicate, inl, inr, Bool-cases, Option-cases,
}
use ion_sfu.Sfu.Sequencer.{
  PacketMeta, zero_meta, Sequencer, new_sequencer, advance, pass_over, started, store, new_meta,
  too_old, push_head, push, entry_of, may_resend, resend_one, resend_at, get_seq_no_pairs,
  ignore_retransmission,
}

pub record IsValid (n : Sequencer) : Type 0 where
  pub full : length n.seq ≡ n.max
  pub step_in : n.step < n.max
  pub head_in : n.head_sn < 65536

pub new_sequencer-IsValid : (k : ℕ) → 0 < k → IsValid (new_sequencer k)
unfolding new_sequencer
new_sequencer-IsValid k h = record {
  full = length-replicate k zero_meta;
  step_in = h;
  head_in = omega arith;
}

pass_over-lt : (k max step : ℕ) → step < max → pass_over k max step < max
unfolding pass_over
pass_over-lt zero max step h = h
pass_over-lt (suc k) max step h = pass_over-lt k max (advance max step) (ground arith)

store-IsValid : (n : Sequencer) (m : PacketMeta) → IsValid n → IsValid (store n m).1
unfolding store
store-IsValid n m v = record {
  full = length-set n.seq n.step m ∙ v.full;
  step_in = ground arith;
  head_in = v.head_in;
}

started-IsValid :
    (n : Sequencer) (off_sn : ℕ) → IsValid n → off_sn < 65536 → IsValid (started n off_sn)
started-IsValid n off_sn v h = ground arith

pub moved-IsValid :
    (n : Sequencer) (off_sn k : ℕ)
    → IsValid n
    → off_sn < 65536
    → IsValid (record n { step = pass_over k n.max n.step; head_sn = off_sn })
moved-IsValid n off_sn k v h = record {
  full = v.full;
  step_in = pass_over-lt k n.max n.step v.step_in;
  head_in = h;
}

push-IsValid :
    (n : Sequencer) (sn off_sn timestamp layer : ℕ) (head : Bool)
    → IsValid n
    → off_sn < 65536
    → IsValid (push n sn off_sn timestamp layer head).1
unfolding push push_head
push-IsValid n sn off_sn timestamp layer true v h =
    store-IsValid _ _ (moved-IsValid (started n off_sn) off_sn _ (started-IsValid n off_sn v h) h)
push-IsValid n sn off_sn timestamp layer false v h =
    elim (Bool-cases (too_old (started n off_sn) off_sn)) [
      | inl e ↦ rw e (started-IsValid n off_sn v h)
      | inr e ↦ rw e (store-IsValid _ _ (started-IsValid n off_sn v h))
    ]

resend_at-IsValid : (t : ℕ) (n : Sequencer) (sn i : ℕ) → IsValid n → IsValid (resend_at t n sn i).1
unfolding resend_at
resend_at-IsValid t n sn i v =
    let m = get_or n.seq i zero_meta in
    elim (Bool-cases ((m.target_seq_no == sn) && may_resend t m)) [
      | inl e ↦ rw e (record {
        full = length-set n.seq i (record m { last_nack = t }) ∙ v.full;
        step_in = v.step_in;
        head_in = v.head_in;
      })
      | inr e ↦ rw e v
    ]

resend_one-IsValid : (t : ℕ) (n : Sequencer) (sn : ℕ) → IsValid n → IsValid (resend_one t n sn).1
unfolding resend_one
resend_one-IsValid t n sn v = elim (Option-cases (entry_of n sn)) [
  | inl e ↦ rw (e, resend_one) v
  | inr (i, e) ↦ rw (e, resend_one) (resend_at-IsValid t n sn i v)
]

get_seq_no_pairs-IsValid :
    (t : ℕ) (n : Sequencer) (sns : List ℕ) → IsValid n → IsValid (get_seq_no_pairs t n sns).1
unfolding get_seq_no_pairs
get_seq_no_pairs-IsValid t n [] v = v
get_seq_no_pairs-IsValid t n (sn ∷ sns) v =
    get_seq_no_pairs-IsValid t (resend_one t n sn).1 sns (resend_one-IsValid t n sn v)

-- A push and a lookup keep the ring as long as `max` and the next index in range.
pub sequencer_stays-IsValid :
    (n : Sequencer) (sn off_sn timestamp layer t : ℕ) (head : Bool) (sns : List ℕ)
    → IsValid n
    → off_sn < 65536
    → IsValid (push n sn off_sn timestamp layer head).1 × IsValid (get_seq_no_pairs t n sns).1
sequencer_stays-IsValid n sn off_sn timestamp layer t head sns v h =
    (push-IsValid n sn off_sn timestamp layer head v h, get_seq_no_pairs-IsValid t n sns v)

-- The number of the head is `sn`, and its entry `m` stands at the index just before `step`.
pub record HasHead (n : Sequencer) (at sn : ℕ) (m : PacketMeta) : Type 0 where
  pub valid : IsValid n
  pub two : 2 ≤ n.max
  pub next : n.step ≡ advance n.max at
  pub at_in : at < n.max
  pub head : n.head_sn ≡ sn
  pub entry : get_or n.seq at zero_meta ≡ m
  pub target : m.target_seq_no ≡ sn

-- What a lookup of the head's number returns: its entry, marked with the time.
abbrev pub marked : ℕ → PacketMeta → PacketMeta
marked t m = record m { last_nack = t }

-- Another entry for the same number, in its place.
pub replaced-HasHead :
    (n : Sequencer) (at sn : ℕ) (m m' : PacketMeta)
    → HasHead n at sn m
    → m'.target_seq_no ≡ sn
    → HasHead (record n { seq = set n.seq at m' }) at sn m'
replaced-HasHead n at sn m m' h target =
    let v = h.valid in
    let same : (at == at) ≡ true = ground arith in
    record {
      valid = record {
        full = length-set n.seq at m' ∙ v.full;
        step_in = v.step_in;
        head_in = v.head_in;
      };
      two = h.two;
      next = h.next;
      at_in = h.at_in;
      head = h.head;
      entry = get_or-set n.seq at at m' zero_meta (omega (arith, v.full, h.at_in)) ∙ rw same refl;
      target = target;
    }

module _ (t : ℕ) (n : Sequencer) (at sn : ℕ) (m : PacketMeta) (h : HasHead n at sn m) where
  pub entry_of-head : entry_of n sn ≡ some at
  unfolding entry_of
  entry_of-head =
      let v = h.valid in
      let one : sub16 n.head_sn sn + 1 ≡ 1 = omega (arith, h.head, v.head_in) in
      let s = h.next in let i = h.at_in in let k = h.two in rw one (ground arith)

  pub resend_one-head : resend_one t n sn ≡ (
      if may_resend t m
      then (marked t m ∷ [], record n { seq = set n.seq at (marked t m) })
      else ([], n))
  unfolding resend_one resend_at
  resend_one-head =
      let same : (m.target_seq_no == sn) ≡ true = rw h.target (ground arith) in
      rw (entry_of-head, resend_one, h.entry, same) refl

  marked-HasHead : HasHead (record n { seq = set n.seq at (marked t m) }) at sn (marked t m)
  marked-HasHead = replaced-HasHead n at sn m (marked t m) h h.target

pub lookup_one :
    (t : ℕ) (n : Sequencer) (sn : ℕ) → get_seq_no_pairs t n (sn ∷ []) ≡ resend_one t n sn
unfolding get_seq_no_pairs
lookup_one t n sn =
    ap (λ ms. let r : List PacketMeta × Sequencer = (ms, (resend_one t n sn).1) in r)
      (append-nil (resend_one t n sn).0)

-- The index that an in-order push writes to.
abbrev pub written : Sequencer → ℕ → ℕ
written n off_sn = let s = started n off_sn in pass_over (sub16 off_sn s.head_sn - 1) s.max s.step

pub pushed_at :
    (n : Sequencer) (sn off_sn timestamp layer : ℕ)
    → (push n sn off_sn timestamp layer true).0 ≡ some (written n off_sn)
unfolding push push_head store
pushed_at n sn off_sn timestamp layer = refl

pub pushed-HasHead :
    (n : Sequencer) (sn off_sn timestamp layer : ℕ)
    → IsValid n
    → 2 ≤ n.max
    → off_sn < 65536
    → HasHead
        (push n sn off_sn timestamp layer true).1
        (written n off_sn)
        off_sn
        (new_meta sn off_sn timestamp layer)
unfolding push push_head store
pushed-HasHead n sn off_sn timestamp layer v two h =
    let m = new_meta sn off_sn timestamp layer in
    let s = started n off_sn in
    let at = written n off_sn in
    let w = moved-IsValid s off_sn (sub16 off_sn s.head_sn - 1) (started-IsValid n off_sn v h) h in
    let same : (at == at) ≡ true = ground arith in
    record {
      valid = store-IsValid _ m w;
      two = ground arith;
      next = refl;
      at_in = w.step_in;
      head = refl;
      entry = get_or-set s.seq at at m zero_meta (omega (arith, w.full, w.step_in)) ∙ rw same refl;
      target = refl;
    }

if-first {ℓ κ} :
    {A : Type ℓ} {B : Type κ} (b : Bool) (x y : A × B)
    → (if b then x else y).0 ≡ (if b then x.0 else y.0)
if-first true x y = refl
if-first false x y = refl

-- A NACK for a packet just sent in order finds its source number, timestamp and layer. A second
-- NACK for it is answered again only when more than 100 ms have passed, or when the first came in
-- the first millisecond, whose mark 0 means no NACK.
pub nack_twice :
    (n : Sequencer) (sn off_sn timestamp layer t u : ℕ)
    → IsValid n
    → 2 ≤ n.max
    → off_sn < 65536
    → let sent = (push n sn off_sn timestamp layer true).1 in
      let m = new_meta sn off_sn timestamp layer in
      let (first, asked) = get_seq_no_pairs t sent (off_sn ∷ []) in
      (first ≡ record m { last_nack = t } ∷ [])
      × ((get_seq_no_pairs u asked (off_sn ∷ [])).0 ≡ (
          if (t == 0) || ltb ignore_retransmission (sub32 u t)
          then record m { last_nack = u } ∷ []
          else []))
nack_twice n sn off_sn timestamp layer t u v two h = (
  ap (λ (r : List PacketMeta × Sequencer). r.0) first,
  rw (first, second) (if-first (may_resend u (marked t m)) _ _),
)
  where
    m : PacketMeta
    m = new_meta sn off_sn timestamp layer

    at : ℕ
    at = written n off_sn

    sent : Sequencer
    sent = (push n sn off_sn timestamp layer true).1

    has : HasHead sent at off_sn m
    has = pushed-HasHead n sn off_sn timestamp layer v two h

    asked : Sequencer
    asked = record sent { seq = set sent.seq at (marked t m) }

    first : get_seq_no_pairs t sent (off_sn ∷ []) ≡ (marked t m ∷ [], asked)
    first = lookup_one t sent off_sn ∙ resend_one-head t sent at off_sn m has

    second : get_seq_no_pairs u asked (off_sn ∷ []) ≡ (
        if may_resend u (marked t m)
        then (marked u m ∷ [], record asked { seq = set asked.seq at (marked u m) })
        else ([], asked))
    second =
        lookup_one u asked off_sn
        ∙ resend_one-head u asked at off_sn (marked t m) (marked-HasHead t sent at off_sn m has)
