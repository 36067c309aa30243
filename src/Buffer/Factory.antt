-- ===== src/Buffer/Factory.antt =====
-- pkg/buffer/factory.go and rtcpreader.go: the buffers and RTCP readers by SSRC. An object is a
-- number, given out in turn; what is kept of it here is its SSRC and whether it is closed. A map is
-- an association list whose first entry counts. The pools, the lock and the logger are left out, and
-- so is the callback that a reader hands its packets to: `write` says whether it is called.
mod Tests
use ion_sfu.Prelude.{
  ℕ, zero, suc, ◌+◌, ◌≡◌, refl, sym, ap, ◌∙◌, Bool, true, false, not, ◌&&◌, ◌||◌, List, [], ◌∷◌,
  Option, none, some, ◌==◌, if◌then◌else◌, arith, Bool-cases, inl, inr,
}

unfoldable pub lookup : List (ℕ × ℕ) → ℕ → Option ℕ
lookup [] ssrc = none
lookup ((k, v) ∷ m) ssrc = if k == ssrc then some v else lookup m ssrc

-- `delete`
unfoldable pub delete : List (ℕ × ℕ) → ℕ → List (ℕ × ℕ)
delete [] ssrc = []
delete ((k, v) ∷ m) ssrc = let rest = delete m ssrc in if k == ssrc then rest else (k, v) ∷ rest

pub data PacketType : Type 0 where
  rtp_buffer_packet rtcp_buffer_packet other_packet : PacketType

-- `buffers` and `readers` are the SSRCs of all objects so far, the newest first; `closed` holds the
-- objects that are closed.
pub record Factory : Type 0 where
  pub rtp_buffers : List (ℕ × ℕ)
  pub rtcp_readers : List (ℕ × ℕ)
  pub next : ℕ
  pub closed : ℕ → Bool
  pub ssrc_of : ℕ → ℕ

abbrev pub new_buffer_factory : Factory
new_buffer_factory = record {
  rtp_buffers = [];
  rtcp_readers = [];
  next = 0;
  closed = λ o. false;
  ssrc_of = λ o. 0;
}

-- A new object.
abbrev pub made : Factory → ℕ → Factory
made f ssrc = record f {
  next = f.next + 1;
  ssrc_of = λ o. if o == f.next then ssrc else f.ssrc_of o;
}

-- `GetOrNew`; nil is none.
unfoldable pub get_or_new : Factory → PacketType → (ssrc : ℕ) → Option ℕ × Factory
get_or_new f PacketType.rtcp_buffer_packet ssrc = elim (lookup f.rtcp_readers ssrc) [
  | some o ↦ (some o, f)
  | none ↦ (some f.next, record (made f ssrc) { rtcp_readers = (ssrc, f.next) ∷ f.rtcp_readers })
]
get_or_new f PacketType.rtp_buffer_packet ssrc = elim (lookup f.rtp_buffers ssrc) [
  | some o ↦ (some o, f)
  | none ↦ (some f.next, record (made f ssrc) { rtp_buffers = (ssrc, f.next) ∷ f.rtp_buffers })
]
get_or_new f PacketType.other_packet ssrc = (none, f)

unfoldable pub get_buffer_pair : Factory → (ssrc : ℕ) → Option ℕ × Option ℕ
get_buffer_pair f ssrc = (lookup f.rtp_buffers ssrc, lookup f.rtcp_readers ssrc)

unfoldable pub get_buffer : Factory → (ssrc : ℕ) → Option ℕ
get_buffer f ssrc = lookup f.rtp_buffers ssrc

abbrev pub shut : Factory → ℕ → Factory
shut f o = record f { closed = λ x. (x == o) || f.closed x }

-- `Buffer.Close` with the factory's callback, which runs once.
unfoldable pub close_buffer : Factory → ℕ → Factory
close_buffer f o =
    if f.closed o then f else record (shut f o) { rtp_buffers = delete f.rtp_buffers (f.ssrc_of o) }

-- `RTCPReader.Close` with the factory's callback, which runs every time.
unfoldable pub close_reader : Factory → ℕ → Factory
close_reader f o = record (shut f o) { rtcp_readers = delete f.rtcp_readers (f.ssrc_of o) }

-- `RTCPReader.Write`: whether the packet reaches a callback that is set; none is the error EOF.
unfoldable pub write_reader : Factory → ℕ → (on_packet : Bool) → Option Bool
write_reader f o on_packet = if f.closed o then none else some on_packet

-- What is deleted is not found.
pub delete-lookup : (m : List (ℕ × ℕ)) (ssrc : ℕ) → lookup (delete m ssrc) ssrc ≡ none
unfolding lookup delete
delete-lookup [] ssrc = refl
delete-lookup ((k, v) ∷ m) ssrc = elim (Bool-cases (k == ssrc)) [
  | inl e ↦ rw e (delete-lookup m ssrc)
  | inr e ↦ rw (e, e) (delete-lookup m ssrc)
]
