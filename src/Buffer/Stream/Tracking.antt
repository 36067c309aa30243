-- ===== src/Buffer/Stream/Tracking.antt =====
-- The missing packets that `calc` puts into the NACK queue, and those it takes out again.
use ion_sfu.Prelude.{
  ℕ, zero, suc, ◌+◌, ◌-◌, ◌*◌, ◌^◌, ◌≤◌, ◌<◌, ◌≡◌, refl, sym, ap, ◌∙◌, true, false, ◌&&◌, ltb, leb,
  ◌==◌, if◌then◌else◌, arith, ◌⊎◌, inr, sub16, sub32, add32,
}
use ion_sfu.Prelude.Bits.{bit_or-add}
use ion_sfu.Buffer.Nack.{NackQueue, push, remove}
use ion_sfu.Buffer.Stream.{Buffer, ext_sn_of, push_missing, track}

-- The highest number with its round.
abbrev pub unwrapped : {F : Type 0} → Buffer F → ℕ
unwrapped b = b.cycles + b.max_seq_no

-- The `n` numbers below `ext`, the highest first, put into the queue.
unfoldable pub push_below : (n ext : ℕ) → NackQueue → NackQueue
push_below zero ext q = q
push_below (suc n) ext q = push_below n (ext - 1) (push q (ext - 1))

-- A number of the present round.
ext_sn_of-same :
    (c max sn : ℕ)
    → sn < 65536
    → (ltb max sn && leb 32768 sn && ltb max 32768) ≡ false
    → ext_sn_of (c * 65536) max sn ≡ c * 65536 + sn
unfolding ext_sn_of
ext_sn_of-same c max sn h e = rw e (bit_or-add 16 c sn h)

-- A number of the round before.
ext_sn_of-before :
    (c max sn : ℕ)
    → sn < 65536
    → (c + 1) * 65536 < 2 ^ 32
    → (ltb max sn && leb 32768 sn && ltb max 32768) ≡ true
    → ext_sn_of ((c + 1) * 65536) max sn ≡ c * 65536 + sn
unfolding ext_sn_of
ext_sn_of-before c max sn h k e =
    let less : sub32 ((c + 1) * 65536) 65536 ≡ c * 65536 = omega arith in
    rw (e, less) (bit_or-add 16 c sn h)

-- Missing numbers of the present round.
push_missing-below :
    (n i c max sn : ℕ) (q : NackQueue)
    → 0 < i
    → sn < 65536
    → i + n ≤ sn + 1
    → (sn ≤ 32768) ⊎ (32768 ≤ max)
    → push_missing n i (c * 65536) max sn q ≡ push_below n (c * 65536 + sn + 1 - i) q
unfolding push_missing push_below
push_missing-below zero i c max sn q p h r s = refl
push_missing-below (suc n) i c max sn q p h r s =
    let here : sub16 sn i ≡ sn - i = omega arith in
    let ext : c * 65536 + (sn - i) ≡ c * 65536 + sn + 1 - i - 1 = omega arith in
    let next : c * 65536 + sn + 1 - (i + 1) ≡ c * 65536 + sn + 1 - i - 1 = omega arith in
    let plain : (ltb max (sn - i) && leb 32768 (sn - i) && ltb max 32768) ≡ false = ground arith in
    let same = ext_sn_of-same c max (sn - i) (omega arith) plain in
    let rest =
      push_missing-below n (i + 1) c max sn (push q (c * 65536 + (sn - i))) (omega arith) h
        (omega arith) s in
    rw (here, same) (rest ∙ rw (next, ext) refl)

-- Missing numbers behind a wrap-around, `i` being more than `sn`.
push_missing-wrapped :
    (n i c max sn : ℕ) (q : NackQueue)
    → sn < i
    → i + n ≤ 65536
    → 32768 ≤ max
    → push_missing n i (c * 65536) max sn q ≡ push_below n ((c + 1) * 65536 + sn + 1 - i) q
unfolding push_missing push_below
push_missing-wrapped zero i c max sn q p r s = refl
push_missing-wrapped (suc n) i c max sn q p r s =
    let here : sub16 sn i ≡ sn + 65536 - i = omega arith in
    let ext : c * 65536 + (sn + 65536 - i) ≡ (c + 1) * 65536 + sn + 1 - i - 1 = omega arith in
    let next : (c + 1) * 65536 + sn + 1 - (i + 1) ≡ (c + 1) * 65536 + sn + 1 - i - 1 =
      omega arith in
    let plain : (ltb max (sn + 65536 - i) && leb 32768 (sn + 65536 - i) && ltb max 32768) ≡ false =
      ground arith in
    let same = ext_sn_of-same c max (sn + 65536 - i) (omega arith) plain in
    let rest =
      push_missing-wrapped n (i + 1) c max sn (push q (c * 65536 + (sn + 65536 - i))) (omega arith)
        (omega arith) s in
    rw (here, same) (rest ∙ rw (next, ext) refl)

push_missing-add :
    (m n i cycles max sn : ℕ) (q : NackQueue)
    → push_missing (m + n) i cycles max sn q
      ≡ push_missing n (i + m) cycles max sn (push_missing m i cycles max sn q)
unfolding push_missing
push_missing-add zero n i cycles max sn q =
    let none_first : 0 + n ≡ n = omega arith in
    let same : i + 0 ≡ i = omega arith in rw (none_first, same) refl
push_missing-add (suc m) n i cycles max sn q =
    let more : suc m + n ≡ suc (m + n) = omega arith in
    let same : i + suc m ≡ i + 1 + m = omega arith in
    rw (more, same) (push_missing-add m n (i + 1) cycles max sn _)

wrapped_queue :
    (c max sn : ℕ) (q : NackQueue)
    → 32768 ≤ max
    → sn + 65536 - max < 32768
    → max < 65536
    → push_missing (sn + 65536 - max - 1) 1 ((c + 1) * 65536) max sn q
      ≡ push_below (65535 - max) ((c + 2) * 65536) (push_below sn ((c + 1) * 65536 + sn) q)
wrapped_queue c max sn q p l m =
    let count : sn + 65536 - max - 1 ≡ sn + (65535 - max) = omega arith in
    let top : (c + 1 + 1) * 65536 + sn + 1 - (1 + sn) ≡ (c + 2) * 65536 = omega arith in
    let start : (c + 1) * 65536 + sn + 1 - 1 ≡ (c + 1) * 65536 + sn = omega arith in
    let new =
      push_missing-below sn 1 (c + 1) max sn q (omega arith) (omega arith) (omega arith) (inr p) in
    let old =
      push_missing-wrapped (65535 - max) (1 + sn) (c + 1) max sn
        (push_missing sn 1 ((c + 1) * 65536) max sn q) (omega arith) (omega arith) p in
    rw count (push_missing-add sn (65535 - max) 1 ((c + 1) * 65536) max sn q)
    ∙ old
    ∙ ap (λ (x : ℕ). push_below (65535 - max) x (push_missing sn 1 ((c + 1) * 65536) max sn q)) top
    ∙ ap (λ (x : NackQueue). push_below (65535 - max) ((c + 2) * 65536) x)
        (new ∙ ap (λ (x : ℕ). push_below sn x q) start)

module _ {F : Type 0} where
  -- A buffer that has packets, asks for missing ones and is in the round `c` of the numbers.
  pub record IsTracking (c : ℕ) (b : Buffer F) : Type 0 where
    pub some_packets : (b.stats.packet_count == 0) ≡ false
    pub asks : b.nack ≡ true
    pub round : b.cycles ≡ c * 65536
    pub bound : b.max_seq_no < 65536
    pub room : (c + 1) * 65536 < 2 ^ 32

  track-ahead :
      (b : Buffer F) (sn arrival_time : ℕ)
      → (b.stats.packet_count == 0) ≡ false
      → ltb (sub16 sn b.max_seq_no) 32768 ≡ true
      → track b sn arrival_time ≡ record b {
        cycles = if ltb sn b.max_seq_no then add32 b.cycles 65536 else b.cycles;
        nacker =
            if b.nack
            then push_missing
                (sub16 sn b.max_seq_no - 1)
                1
                (if ltb sn b.max_seq_no then add32 b.cycles 65536 else b.cycles)
                b.max_seq_no
                sn
                b.nacker
            else b.nacker;
        max_seq_no = sn;
      }
  unfolding track
  track-ahead b sn arrival_time p a = simp (p, a) refl

  track-behind :
      (b : Buffer F) (sn arrival_time : ℕ)
      → (b.stats.packet_count == 0) ≡ false
      → ltb (sub16 sn b.max_seq_no) 32768 ≡ false
      → b.nack ≡ true
      → (track b sn arrival_time).nacker ≡ remove b.nacker (ext_sn_of b.cycles b.max_seq_no sn)
  unfolding track
  track-behind b sn arrival_time p a n = simp (p, a, n) refl

  track-before :
      (c : ℕ) (b : Buffer F) (sn arrival_time : ℕ)
      → (b.stats.packet_count == 0) ≡ false
      → ltb (sub16 sn b.max_seq_no) 32768 ≡ false
      → b.nack ≡ true
      → b.cycles ≡ (c + 1) * 65536
      → sn < 65536
      → (c + 1) * 65536 < 2 ^ 32
      → (ltb b.max_seq_no sn && leb 32768 sn && ltb b.max_seq_no 32768) ≡ true
      → (track b sn arrival_time).nacker ≡ remove b.nacker (c * 65536 + sn)
  track-before c b sn arrival_time p a n e k l g =
      let ext =
        ap (λ (x : ℕ). ext_sn_of x b.max_seq_no sn) e ∙ ext_sn_of-before c b.max_seq_no sn k l g in
      track-behind b sn arrival_time p a n ∙ ap (λ (x : ℕ). remove b.nacker x) ext

  -- What the queue and the highest number are behind a packet that is ahead.
  track-fields :
      (c : ℕ) (b : Buffer F) (sn arrival_time cycles diff : ℕ)
      → IsTracking c b
      → sub16 sn b.max_seq_no ≡ diff
      → diff < 32768
      → (if ltb sn b.max_seq_no then add32 b.cycles 65536 else b.cycles) ≡ cycles
      → ((track b sn arrival_time).nacker
          ≡ push_missing (diff - 1) 1 cycles b.max_seq_no sn b.nacker)
        × (unwrapped (track b sn arrival_time) ≡ cycles + sn)
  track-fields c b sn arrival_time cycles diff i d l e =
      let ahead : ltb (sub16 sn b.max_seq_no) 32768 ≡ true = rw d (ground arith) in
      let whole = track-ahead b sn arrival_time i.some_packets ahead in
      let queue = ap (λ (u : Buffer F). u.nacker) whole in
      let number = ap (λ (u : Buffer F). unwrapped u) whole in
      (queue ∙ rw (i.asks, d, e) refl, number ∙ ap (λ (x : ℕ). x + sn) e)

  -- Missing numbers in one round: where a buffer in the round `c` gets a packet that is ahead of the
  -- highest one by less than 32768 and has a higher number, and the two lie in the same half of the
  -- numbers or on its border, exactly the numbers between the two go into the NACK queue, in their
  -- round, and the packet's number is the highest from then on.
  pub track-missing :
      (c : ℕ) (b : Buffer F) (sn arrival_time : ℕ)
      → IsTracking c b
      → b.max_seq_no < sn
      → sn < 65536
      → sn - b.max_seq_no < 32768
      → (sn ≤ 32768) ⊎ (32768 ≤ b.max_seq_no)
      → ((track b sn arrival_time).nacker
          ≡ push_below (sn - b.max_seq_no - 1) (c * 65536 + sn) b.nacker)
        × (unwrapped (track b sn arrival_time) ≡ c * 65536 + sn)
  track-missing c b sn arrival_time i h k l s =
      let diff : sub16 sn b.max_seq_no ≡ sn - b.max_seq_no = omega (arith, i.bound) in
      let higher : ltb sn b.max_seq_no ≡ false = ground arith in
      let same : (if ltb sn b.max_seq_no then add32 b.cycles 65536 else b.cycles) ≡ c * 65536 =
        rw higher i.round in
      let (queue, number) =
        track-fields c b sn arrival_time (c * 65536) (sn - b.max_seq_no) i diff l same in
      let start : c * 65536 + sn + 1 - 1 ≡ c * 65536 + sn = omega arith in
      let pushed =
        push_missing-below (sn - b.max_seq_no - 1) 1 c b.max_seq_no sn b.nacker (omega arith) k
          (omega arith) s in
      (queue ∙ rw start at pushed, number)

  -- Missing numbers behind a wrap-around: where a buffer in the round `c` gets a packet that is
  -- ahead of the highest one by less than 32768 and has a lower number, the missing numbers of the
  -- new round go into the NACK queue in that round, and the missing numbers of the round `c` go into
  -- it one round too far. When one of these arrives late, it is looked for in the round `c`, in
  -- which it was not put into the queue.
  pub track-missing_wrap :
      (c : ℕ) (b : Buffer F) (sn late arrival_time arrival_time' : ℕ)
      → IsTracking c b
      → 32768 ≤ b.max_seq_no
      → sn + 65536 - b.max_seq_no < 32768
      → b.max_seq_no < late
      → late < 65536
      → ((track b sn arrival_time).nacker
          ≡ push_below
              (65535 - b.max_seq_no)
              ((c + 2) * 65536)
              (push_below sn ((c + 1) * 65536 + sn) b.nacker))
        × ((track (track b sn arrival_time) late arrival_time').nacker
            ≡ remove (track b sn arrival_time).nacker (c * 65536 + late))
  track-missing_wrap c b sn late arrival_time arrival_time' i p l q r =
      let max = b.max_seq_no in
      let lower : ltb sn max ≡ true = ground arith in
      let diff : sub16 sn max ≡ sn + 65536 - max = omega (arith, i.bound) in
      let next : (if ltb sn max then add32 b.cycles 65536 else b.cycles) ≡ (c + 1) * 65536 =
        rw lower (omega (arith, i.round, i.room)) in
      let (queue, number) =
        track-fields c b sn arrival_time ((c + 1) * 65536) (sn + 65536 - max) i diff l next in
      let ahead : ltb (sub16 sn max) 32768 ≡ true = rw diff (ground arith) in
      let whole = track-ahead b sn arrival_time i.some_packets ahead in
      let behind : ltb (sub16 late sn) 32768 ≡ false = ground arith in
      let before : (ltb sn late && leb 32768 late && ltb sn 32768) ≡ true = ground arith in
      (
        queue ∙ wrapped_queue c max sn b.nacker p l (i.bound),
        ap (λ (u : Buffer F). (track u late arrival_time').nacker) whole
            ∙ track-before c _ late arrival_time' i.some_packets behind i.asks next r i.room before
            ∙ ap (λ (u : Buffer F). remove u.nacker (c * 65536 + late)) (sym whole),
      )
