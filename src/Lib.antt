-- ===== src/Lib.antt =====
-- ion-sfu, a selective forwarding unit for WebRTC: it takes the RTP streams of publishers and
-- forwards them to subscribers, with numbers, timestamps and layers fit for each of them.
--
-- A stream buffer (pkg/buffer) keeps the packets of one incoming stream in a bucket, and the
-- numbers that are missing in a NACK queue, from which it asks the publisher for them. A receiver
-- (pkg/sfu) reads the buffers of a track's layers and writes each packet to the down tracks of its
-- layer. A down track renumbers the packets, drops the frames above its temporal layer, chooses its
-- layers by what the subscriber reports, and notes in its sequencer what it sent, so that it can
-- answer the subscriber's NACKs from the bucket.
--
-- Prelude          tests on numbers, lists, Go's unsigned integers, byte slices
-- Search           the binary search of Go's sort package, as its documentation gives it
-- Buffer.Nack      pkg/buffer/nack.go: nackQueue.push, remove, pairs
-- Buffer.Bucket    pkg/buffer/bucket.go: NewBucket, AddPacket, GetPacket, push, get, set
-- Buffer.Vp8       pkg/buffer/helpers.go: VP8.Unmarshal; pkg/sfu/helpers.go:
--                  modifyVP8TemporalPayload
-- Buffer.H264      pkg/buffer/helpers.go: isH264Keyframe
-- Buffer.Stream    pkg/buffer/buffer.go: the numbers and statistics of calc, the packets it sends
-- Buffer.Stream.Calc   calc as a whole, the tests on timestamps
-- Buffer.Stream.Lifecycle   NewBuffer, Bind, Write, Read, ReadExtended, GetPacket, Close
-- Buffer.Factory   pkg/buffer/factory.go and rtcpreader.go: GetOrNew, GetBuffer, GetBufferPair, Close
-- Sfu.Sequencer    pkg/sfu/sequencer.go: newSequencer, push, getSeqNoPairs, the VP8 fields
-- Sfu.AudioObserver   pkg/sfu/audioobserver.go: addStream, removeStream, observe, Calc
-- Sfu.DownTrack    pkg/sfu/downtrack.go: Mute, UpdateStats, writeSimpleRTP; its state
-- Sfu.DownTrack.Simulcast   WriteRTP, writeSimulcastRTP; pkg/sfu/helpers.go: setVP8TemporalLayer
-- Sfu.DownTrack.Layers      SetInitialLayers, SwitchSpatialLayer, SwitchSpatialLayerDone,
--                  SwitchTemporalLayer, UptrackLayersChange, handleLayerChange;
--                  pkg/sfu/receiver.go: SwitchDownTrack
-- Sfu.DownTrack.Binding     NewDownTrack, Bind, Unbind, CreateSenderReport,
--                  CreateSourceDescriptionChunks
-- Sfu.Helpers      pkg/sfu/helpers.go: the times of NTP, codecParametersFuzzySearch
-- Sfu.Subscriber   pkg/sfu/subscriber.go: AddDownTrack, RemoveDownTrack, DownTracks, GetDownTracks,
--                  downTracksReports, sendStreamDownTracksReports
-- Sfu.Session      pkg/sfu/session.go: NewSession, AddPeer, RemovePeer, Close, AddRelayPeer's
--                  callbacks, and whom Publish, Subscribe, AddDatachannel, GetDataChannels reach
-- Sfu.Router       pkg/sfu/router.go: the drift in updateStats
-- Stats.Stream     pkg/stats/stream.go: NewStream, SetCName, UpdateStats, CalcStats
-- Sfu.Receiver     pkg/sfu/receiver.go: NewWebRTCReceiver, AddUpTrack; its state
-- Sfu.Receiver.Forwarding   AddDownTrack, DeleteDownTrack, writeRTP, SendRTCP, closeTracks
-- Sfu.Receiver.Retransmission   RetransmitPackets
-- Sfu.Receiver.Feedback     pkg/sfu/downtrack.go: handleRTCP
-- Twcc             pkg/twcc/twcc.go: Push, and the writers of the chunks and deltas
-- Twcc.Status      the packing of statuses in buildTransportCCPacket
-- Twcc.Feedback    Push and buildTransportCCPacket
--
-- A name of the model is the source's name in lower case with underscores; a loop or a block of a
-- function that is a definition of its own is named for what it does. A call that changes state
-- returns the new state, a call that fails returns the error, and what a call sends is its result.
-- Numbers are natural numbers, and the wrap of uint8, uint16 and uint32 is written out; lengths and
-- indices do not reach the bounds of Go's int. A panic is `none` or `panic` as a result; where a frame
-- or a layer that does not fit would make a down track panic, `write_panics` and `switch_panics` say
-- so, and the receiver's calls return `none`. Locks and atomic fields are left out: the calls on
-- one object run one after the other. Time, random numbers and what third-party code reports are
-- arguments. Loops are structural: over a list, or over the number of rounds, which each of the
-- loops with a counter knows at its start. The binary search halves its range and takes the range's
-- length as fuel. The loop that writes a subscriber's reports takes fuel; two rounds more than there
-- are chunks of 15 descriptions are enough. The one that sends a stream's descriptions has the fuel
-- of its seven rounds.
--
-- Not modelled: the rest of routers, peers, publishers and negotiation, the loop that sends the
-- audio levels, signalling and relays: they wire objects of the WebRTC library and move JSON and gRPC messages,
-- with little state of their own.
pub mod Prelude
pub mod Search
pub mod Buffer
pub mod Sfu
pub mod Stats
pub mod Twcc
