-- ===== src/Sfu/DownTrack/Simulcast/Panics.antt =====
-- pkg/sfu/helpers.go: the frames on which setVP8TemporalLayer does not panic.
use mathlib.Core.Path.{subst}
use ion_sfu.Prelude.{ℕ, ◌≤◌, ◌≡◌, refl, false, none, some, inl, inr, length, arith, Option-cases}
use ion_sfu.Buffer.Vp8.{Vp8, zero_vp8, unmarshal}
use ion_sfu.Buffer.Vp8.Rewrite.{InRange, ParsedInRange, unmarshal-InRange}
use ion_sfu.Sfu.DownTrack.{DownTrack, ExtPacket}
use ion_sfu.Sfu.DownTrack.Simulcast.{rewrite_panics, write_panics}

-- A payload that fits a slice of `packetFactory`, and the descriptor that was read from it.
pub record Fits (p : ExtPacket) : Type 0 where
  pub short : length p.payload ≤ 1460
  pub parsed : (v : Vp8) → p.vp8 ≡ some v → unmarshal zero_vp8 (some p.payload) ≡ (none, v)

pub rewrites :
    (p : ExtPacket) (v : Vp8)
    → length p.payload ≤ 1460
    → InRange p.payload v
    → rewrite_panics p v ≡ false
unfolding rewrite_panics
rewrites p v h i = ground (arith, h, i.pic_id_in, i.second_in, i.tlz_in)

pub write_panics-Fits :
    (d : DownTrack) (p : ExtPacket) (layer : ℕ) → Fits p → write_panics d p layer ≡ false
unfolding write_panics rewrite_panics
write_panics-Fits d p layer f = elim (Option-cases p.vp8) [
  | inl e ↦ rw e refl
  | inr (v, e) ↦
      let inside : InRange p.payload v =
        subst (ParsedInRange p.payload) (f.parsed v e) (unmarshal-InRange p.payload) in
      rw e (rw (rewrites p v f.short inside) refl)
]
