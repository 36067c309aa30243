-- ===== src/Sfu/DownTrack/Numbers.antt =====
-- The sequence numbers that a track sends.
use ion_sfu.Prelude.{length, ◌≡◌, refl, ap, ℕ, zero, suc, List, [], ◌∷◌, add16}
use ion_sfu.Sfu.DownTrack.{Effect, nothing, pli, forward}

-- The number under which an effect sends a packet, in front of others.
unfoldable pub sent : Effect → List ℕ → List ℕ
sent nothing ns = ns
sent (pli a b) ns = ns
sent (forward f) ns = f.sequence_number ∷ ns

-- `k` numbers from `n` on, as uint16.
unfoldable pub count16 : ℕ → ℕ → List ℕ
count16 n zero = []
count16 n (suc k) = n ∷ count16 (add16 n 1) k

pub length-count16 : (n k : ℕ) → length (count16 n k) ≡ k
unfolding count16
length-count16 n zero = refl
length-count16 n (suc k) = ap suc (length-count16 (add16 n 1) k)
