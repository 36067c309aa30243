-- ===== src/Buffer/Stream/Replay.antt =====
-- A packet that comes before Bind, and one that comes behind it.
use mathlib.Core.Path.{fun_ext}
use ion_sfu.Prelude.{
  ℕ, ◌≡◌, refl, sym, ap, ◌∙◌, Bool, true, false, List, [], ◌∷◌, ◌++◌, Option, none, some, inl, inr,
  Option-cases, Outcome, ok, err, panic,
}
use ion_sfu.Buffer.Bucket.{Bucket}
use ion_sfu.Buffer.Stream.{Buffer, FloatOps, RtpPacket}
use ion_sfu.Buffer.Stream.Calc.{Signal}
use ion_sfu.Buffer.Stream.Lifecycle.{
  Pending, CodecType, Parameters, Endpoint, configure, calc_on, prefixed, followed, replay, bind,
  write, written, ReadError,
}

append_nil : (l : List Signal) → l ++ [] ≡ l
append_nil [] = refl
append_nil (x ∷ l) = ap (λ (m : List Signal). x ∷ m) (append_nil l)

append_assoc : (a b c : List Signal) → (a ++ b) ++ c ≡ a ++ (b ++ c)
append_assoc [] b c = refl
append_assoc (x ∷ a) b c = ap (λ (l : List Signal). x ∷ l) (append_assoc a b c)

prefixed-prefixed :
    {A : Type 0} (s t : List Signal) (o : Option (List Signal × A))
    → prefixed s (prefixed t o) ≡ prefixed (s ++ t) o
prefixed-prefixed s t none = refl
prefixed-prefixed s t (some (more, a)) =
    ap (λ (l : List Signal). some (l, a)) (sym (append_assoc s t more))

prefixed-followed :
    {A B : Type 0} (s : List Signal) (o : Option (List Signal × A))
    (h : A → Option (List Signal × B))
    → prefixed s (followed o h) ≡ followed (prefixed s o) h
prefixed-followed s none h = refl
prefixed-followed s (some (more, a)) h = prefixed-prefixed s more (h a)

followed_assoc :
    {A B C : Type 0} (first : Option (List Signal × A)) (g : A → Option (List Signal × B))
    (h : B → Option (List Signal × C))
    → followed first (λ a. followed (g a) h) ≡ followed (followed first g) h
followed_assoc none g h = refl
followed_assoc (some (s, a)) g h = prefixed-followed s (g a) h

followed_done :
    {A : Type 0} (o : Option (List Signal × A)) → followed o (λ a. some ([], a)) ≡ prefixed [] o
followed_done none = refl
followed_done (some (s, a)) = ap (λ (l : List Signal). some (l, a)) (append_nil s)

module _ {F : Type 0} (f : FloatOps F) (read_packet : List ℕ → Option RtpPacket)
    (read_level : List ℕ → Option ℕ) where
  replay-snoc :
      (has_bucket : Bool) (now : ℕ) (ps : List Pending) (p : Pending) (b : Buffer F)
      → replay f read_packet read_level has_bucket now (ps ++ (p ∷ [])) b
        ≡ followed
            (replay f read_packet read_level has_bucket now ps b)
            (λ b'. calc_on f read_packet read_level has_bucket b' p.packet p.arrival_time now)
  unfolding replay
  replay-snoc has_bucket now [] p b =
      followed_done (calc_on f read_packet read_level has_bucket b p.packet p.arrival_time now)
  replay-snoc has_bucket now (q ∷ ps) p b =
      let first = calc_on f read_packet read_level has_bucket b q.packet q.arrival_time now in
      ap (λ (g : Buffer F → Option (List Signal × Buffer F)). followed first g)
        (fun_ext (replay-snoc has_bucket now ps p))
      ∙ followed_assoc first (replay f read_packet read_level has_bucket now ps)
          (λ b'. calc_on f read_packet read_level has_bucket b' p.packet p.arrival_time now)

  -- The end of Bind, for the settings `c`.
  abbrev finish : Endpoint F → Option (List Signal × Buffer F) → Option (List Signal × Endpoint F)
  finish c none = none
  finish c (some (signals, b)) = some (signals, record c { stream = b; pending = []; bound = true })

  -- A packet that is written behind a call, with the signals of both; an error or a panic is none.
  abbrev pub then_written :
      List Signal → Outcome ReadError (List Signal × Endpoint F) → Option (List Signal × Endpoint F)
  then_written signals (ok (more, e)) = some (signals ++ more, e)
  then_written signals (err x) = none
  then_written signals panic = none

  abbrev pub then_write :
      Option (List Signal × Endpoint F)
      → List ℕ
      → (arrival_time now : ℕ) → Option (List Signal × Endpoint F)
  then_write none pkt arrival_time now = none
  then_write (some (signals, e)) pkt arrival_time now =
      then_written signals (write f read_packet read_level e pkt arrival_time now)

  bind-finish :
      (slots : Bucket) (e : Endpoint F) (params : Parameters) (now : ℕ)
      → bind f read_packet read_level slots e params now
        ≡ finish (configure slots e params) (
            replay f read_packet read_level
              (configure slots e params).has_bucket
              now
              (configure slots e params).pending
              (configure slots e params).stream)
  unfolding bind
  bind-finish slots e params now =
      let c = configure slots e params in
      elim (Option-cases (replay f read_packet read_level c.has_bucket now c.pending c.stream)) [
        | inl d ↦ rw (bind, d) refl
        | inr ((s, b), d) ↦ rw (bind, d) refl
      ]

  write-written :
      (e : Endpoint F) (pkt : List ℕ) (arrival_time now : ℕ)
      → e.closed ≡ false
      → e.bound ≡ true
      → write f read_packet read_level e pkt arrival_time now
        ≡ written e (calc_on f read_packet read_level e.has_bucket e.stream pkt arrival_time now)
  unfolding write
  write-written e pkt arrival_time now k b = simp (k, b) refl

  after_write :
      (c : Endpoint F) (signals : List Signal) (b : Buffer F) (o : Option (List Signal × Buffer F))
      → finish c (prefixed signals o)
        ≡ then_written signals (written (record c { stream = b; pending = []; bound = true }) o)
  after_write c signals b none = refl
  after_write c signals b (some (more, b')) = refl

  write_bound :
      (c : Endpoint F) (signals : List Signal) (b : Buffer F) (pkt : List ℕ) (arrival_time now : ℕ)
      → c.closed ≡ false
      → finish c
          (prefixed signals (calc_on f read_packet read_level c.has_bucket b pkt arrival_time now))
        ≡ then_write
            (some (signals, record c { stream = b; pending = []; bound = true }))
            pkt
            arrival_time
            now
  write_bound c signals b pkt arrival_time now k =
      after_write c signals b (calc_on f read_packet read_level c.has_bucket b pkt arrival_time now)
      ∙ ap (λ (x : Outcome ReadError (List Signal × Endpoint F)). then_written signals x)
          (sym (
            write-written (record c { stream = b; pending = []; bound = true }) pkt arrival_time now
              k refl))

  finish-write :
      (c : Endpoint F) (r : Option (List Signal × Buffer F)) (pkt : List ℕ) (arrival_time now : ℕ)
      → c.closed ≡ false
      → finish c
          (followed r (λ b. calc_on f read_packet read_level c.has_bucket b pkt arrival_time now))
        ≡ then_write (finish c r) pkt arrival_time now
  finish-write c none pkt arrival_time now k = refl
  finish-write c (some (signals, b)) pkt arrival_time now k =
      write_bound c signals b pkt arrival_time now k

  configure_pending :
      (slots : Bucket) (e : Endpoint F) (params : Parameters) (ps : List Pending) (t : CodecType)
      → params.codec_type ≡ t
      → (configure slots (record e { pending = ps }) params
          ≡ record (configure slots e params) { pending = ps })
        × ((configure slots e params).closed ≡ e.closed)
        × ((configure slots e params).pending ≡ e.pending)
  unfolding configure
  configure_pending slots e params ps CodecType.audio d = rw (configure, d) (refl, refl, refl)
  configure_pending slots e params ps CodecType.video d = rw (configure, d) (refl, refl, refl)
  configure_pending slots e params ps CodecType.unknown d = rw (configure, d) (refl, refl, refl)

  -- A packet that comes before Bind waits and is treated like one that comes right behind it: for a
  -- buffer that is neither closed nor bound, Write takes the packet without an error and keeps it,
  -- and a Bind from then on gives the state and the signals, in their order, of a Bind without that
  -- packet and a Write of it then, where the clocks read the same.
  pub bind-write :
      (slots : Bucket) (e : Endpoint F) (params : Parameters) (pkt : List ℕ)
      (arrival_time earlier now : ℕ)
      → e.closed ≡ false
      → e.bound ≡ false
      → let e' : Endpoint F = record e {
        pending = e.pending ++ (record { arrival_time = arrival_time; packet = pkt } ∷ []);
      } in
        (write f read_packet read_level e pkt arrival_time earlier ≡ ok ([], e'))
        × (bind f read_packet read_level slots e' params now
            ≡ then_write (bind f read_packet read_level slots e params now) pkt arrival_time now)
  unfolding write
  bind-write slots e params pkt arrival_time earlier now k b =
      let p : Pending = record { arrival_time = arrival_time; packet = pkt } in
      let c = configure slots e params in
      let (same, closed, kept) =
        configure_pending slots e params (e.pending ++ (p ∷ [])) params.codec_type refl in
      (
        simp (k, b) refl,
        bind-finish slots (record e { pending = e.pending ++ (p ∷ []) }) params now
            ∙ ap
                (λ (x : Endpoint F).
                  finish x (replay f read_packet read_level x.has_bucket now x.pending x.stream))
                same
            ∙ ap (λ (x : Option (List Signal × Buffer F)). finish c x)
                (replay-snoc c.has_bucket now e.pending p c.stream)
            ∙ finish-write c (replay f read_packet read_level c.has_bucket now e.pending c.stream)
                pkt arrival_time now (closed ∙ k)
            ∙ ap
                (λ (x : List Pending).
                  then_write
                    (finish c (replay f read_packet read_level c.has_bucket now x c.stream)) pkt
                    arrival_time now)
                (sym kept)
            ∙ ap (λ (x : Option (List Signal × Endpoint F)). then_write x pkt arrival_time now)
                (sym (bind-finish slots e params now)),
      )
