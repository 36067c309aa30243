-- ===== src/Buffer/Stream/Lifecycle.antt =====
-- pkg/buffer/buffer.go: NewBuffer, Bind, Write, Read, ReadExtended, GetPacket and Close. Packets that
-- come before Bind wait in `pPackets`. The reads poll: one look of theirs is a step, whose result is
-- `waiting` where the source sleeps and looks again. `slots` is the bucket on a slice from the pool.
-- The MIME type is given in lower case, by its prefix and by the names that are compared with it.
use ion_sfu.Prelude.{
  ℕ, ◌+◌, Bool, true, false, not, List, [], ◌∷◌, ◌++◌, Option, none, some, ltb, if◌then◌else◌,
  length, get_elem?, Outcome, ok, err, panic,
}
use ion_sfu.Buffer.Nack.{new_nack_queue}
use ion_sfu.Buffer.Bucket.{Bucket, BucketError, get_packet}
use ion_sfu.Buffer.Stream.{Buffer, Mime, FloatOps, RtpPacket, ExtPacket}
use ion_sfu.Buffer.Stream.Calc.{Signal, calc}

-- `pendingPackets`
pub record Pending : Type 0 where
  pub arrival_time : ℕ
  pub packet : List ℕ

pub data CodecType : Type 0 where
  audio video unknown : CodecType

pub data Uri : Type 0 where
  transport_cc audio_level_uri other_uri : Uri

pub data RtcpFeedback : Type 0 where
  goog_remb transport_cc_feedback nack_feedback other_feedback : RtcpFeedback

-- What Bind reads of `webrtc.RTPParameters` and the options.
pub record Parameters : Type 0 where
  pub clock_rate : ℕ
  pub codec_type : CodecType
  pub mime : Mime
  pub rtcp_feedback : List RtcpFeedback
  pub header_extensions : List (Uri × ℕ)
  pub max_bitrate : ℕ

-- The buffer with its waiting packets; `has_bucket` is `b.bucket != nil`.
pub record Endpoint (F : Type 0) : Type 0 where
  pub stream : Buffer F
  pub has_bucket : Bool
  pub pending : List Pending
  pub last_packet_read : ℕ
  pub bound : Bool
  pub closed : Bool

pub data ReadError : Type 0 where
  eof buffer_too_small : ReadError
  of_bucket : BucketError → ReadError

-- One look of a read.
pub data Look {ℓ} (A : Type ℓ) : Type ℓ where
  found : A → Look A
  failed : ReadError → Look A
  waiting : Look A

-- `NewBuffer`: `nowhere` stands in the bucket's field, `zero_float` for Go's zero.
unfoldable pub new_buffer : {F : Type 0} → Bucket → F → (ssrc : ℕ) → Endpoint F
new_buffer nowhere zero_float ssrc = record {
  stream = record {
    bucket = nowhere;
    nacker = new_nack_queue;
    ext_packets = [];
    media_ssrc = ssrc;
    clock_rate = 0;
    max_bitrate = 0;
    last_report = 0;
    twcc_ext = 0;
    audio_ext = 0;
    mime = Mime.other;
    remb = false;
    nack = false;
    twcc = false;
    audio_level = false;
    on_audio_level = false;
    min_packet_probe = 0;
    max_temporal_layer = 0;
    bitrate = 0;
    bitrate_helper = 0;
    last_sr_ntp_time = 0;
    last_sr_rtp_time = 0;
    last_sr_recv = 0;
    base_sn = 0;
    cycles = 0;
    last_transit = 0;
    max_seq_no = 0;
    stats = record {
      last_expected = 0;
      last_received = 0;
      lost_rate = zero_float;
      packet_count = 0;
      jitter = zero_float;
      total_byte = 0;
    };
    latest_timestamp = 0;
    latest_timestamp_time = 0;
  };
  has_bucket = false;
  pending = [];
  last_packet_read = 0;
  bound = false;
  closed = false;
}

-- The first transport-wide extension.
unfoldable pub find_twcc_ext : ℕ → List (Uri × ℕ) → ℕ
find_twcc_ext old [] = old
find_twcc_ext old ((Uri.transport_cc, id) ∷ exts) = id
find_twcc_ext old ((Uri.audio_level_uri, id) ∷ exts) = find_twcc_ext old exts
find_twcc_ext old ((Uri.other_uri, id) ∷ exts) = find_twcc_ext old exts

module _ {F : Type 0} where
  unfoldable pub set_feedback : Buffer F → List RtcpFeedback → Buffer F
  set_feedback b [] = b
  set_feedback b (RtcpFeedback.goog_remb ∷ fs) = set_feedback (record b { remb = true }) fs
  set_feedback b (RtcpFeedback.transport_cc_feedback ∷ fs) =
      set_feedback (record b { twcc = true }) fs
  set_feedback b (RtcpFeedback.nack_feedback ∷ fs) =
      set_feedback (record b { nacker = new_nack_queue; nack = true }) fs
  set_feedback b (RtcpFeedback.other_feedback ∷ fs) = set_feedback b fs

  unfoldable pub set_audio_ext : Buffer F → List (Uri × ℕ) → Buffer F
  set_audio_ext b [] = b
  set_audio_ext b ((Uri.audio_level_uri, id) ∷ exts) =
      set_audio_ext (record b { audio_level = true; audio_ext = id }) exts
  set_audio_ext b ((Uri.transport_cc, id) ∷ exts) = set_audio_ext b exts
  set_audio_ext b ((Uri.other_uri, id) ∷ exts) = set_audio_ext b exts

  -- The settings of Bind, in front of the waiting packets.
  unfoldable pub configure : Bucket → Endpoint F → Parameters → Endpoint F
  configure slots e params =
      let common : Buffer F = record e.stream {
        clock_rate = params.clock_rate;
        max_bitrate = params.max_bitrate;
        mime = params.mime;
        twcc_ext = find_twcc_ext e.stream.twcc_ext params.header_extensions;
      } in
      elim params.codec_type [
        | CodecType.audio ↦ record e {
          stream = set_audio_ext (record common { bucket = slots }) params.header_extensions;
          has_bucket = true;
        }
        | CodecType.video ↦ record e {
          stream = set_feedback (record common { bucket = slots }) params.rtcp_feedback;
          has_bucket = true;
        }
        | CodecType.unknown ↦ record e { stream = common }
      ]

  -- `ReadExtended`
  unfoldable pub read_extended : Endpoint F → Look ExtPacket × Endpoint F
  read_extended e = if e.closed then (failed eof, e) else elim e.stream.ext_packets [
    | [] ↦ (waiting, e)
    | p ∷ ps ↦ (found p, record e { stream = record e.stream { ext_packets = ps } })
  ]

  -- `GetPacket`, into a slice of `size` bytes.
  unfoldable pub get_packet_of : Endpoint F → (size sn : ℕ) → Outcome ReadError (List ℕ)
  get_packet_of e size sn =
      if e.closed
      then err eof
      else if not e.has_bucket
      then panic
      else elim (get_packet e.stream.bucket size sn) [
        | ok p ↦ ok p
        | err x ↦ err (of_bucket x)
        | panic ↦ panic
      ]

  -- One look of `Read`, into a slice of `size` bytes.
  unfoldable pub read : Endpoint F → (size : ℕ) → Look (List ℕ) × Endpoint F
  read e size =
      if e.closed then (failed eof, e) else elim (get_elem? e.pending e.last_packet_read) [
        | none ↦ (waiting, e)
        | some p ↦
            if ltb size (length p.packet)
            then (failed buffer_too_small, e)
            else (found p.packet, record e { last_packet_read = e.last_packet_read + 1 })
      ]

  -- `Close`, and whether it calls `onClose`: the first time only.
  unfoldable pub close : Endpoint F → Bool × Endpoint F
  close e = (not e.closed, record e { closed = true })

-- The signals of a call behind those that were there before.
abbrev pub prefixed :
    {A : Type 0} → List Signal → Option (List Signal × A) → Option (List Signal × A)
prefixed signals none = none
prefixed signals (some (more, a)) = some (signals ++ more, a)

-- One call, and another one on what it leaves.
abbrev pub followed :
    {A B : Type 0}
    → Option (List Signal × A)
    → (A → Option (List Signal × B))
    → Option (List Signal × B)
followed none next = none
followed (some (signals, a)) next = prefixed signals (next a)

-- The result of Write from that of `calc`.
abbrev pub written :
    {F : Type 0}
    → Endpoint F
    → Option (List Signal × Buffer F)
    → Outcome ReadError (List Signal × Endpoint F)
written e none = panic
written e (some (signals, b)) = ok (signals, record e { stream = b })

module _ {F : Type 0} (f : FloatOps F) (read_packet : List ℕ → Option RtpPacket)
    (read_level : List ℕ → Option ℕ) where
  -- `calc`, which panics where there is no bucket.
  unfoldable pub calc_on :
      Bool → Buffer F → List ℕ → (arrival_time now : ℕ) → Option (List Signal × Buffer F)
  calc_on has_bucket b pkt arrival_time now =
      if has_bucket then calc f read_packet read_level b pkt arrival_time now else none

  -- The loop of Bind over the waiting packets.
  unfoldable pub replay :
      Bool → (now : ℕ) → List Pending → Buffer F → Option (List Signal × Buffer F)
  replay has_bucket now [] b = some ([], b)
  replay has_bucket now (p ∷ ps) b =
      followed (calc_on has_bucket b p.packet p.arrival_time now) (replay has_bucket now ps)

  unfoldable pub bind :
      Bucket → Endpoint F → Parameters → (now : ℕ) → Option (List Signal × Endpoint F)
  bind slots e params now =
      let c = configure slots e params in
      elim (replay c.has_bucket now c.pending c.stream) [
        | none ↦ none
        | some (signals, b) ↦ some (signals, record c { stream = b; pending = []; bound = true })
      ]

  -- `Write` returns 0 and no error where it takes the packet.
  unfoldable pub write :
      Endpoint F → List ℕ → (arrival_time now : ℕ) → Outcome ReadError (List Signal × Endpoint F)
  write e pkt arrival_time now =
      if e.closed
      then err eof
      else if not e.bound
      then ok (
        [],
        record e {
          pending = e.pending ++ (record { arrival_time = arrival_time; packet = pkt } ∷ []);
        },
      )
      else written e (calc_on e.has_bucket e.stream pkt arrival_time now)
