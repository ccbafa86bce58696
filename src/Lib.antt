-- ===== src/Lib.antt =====
-- Z-Wing, a post-quantum secure channel in Go: a handshake of one round trip that authenticates
-- both sides and agrees on a secret, and a stream of sealed records after it.
--
-- The parts of the program, and where they are modelled:
--   errors.go      Base/Failure: the errors as constructors; `Outcome` is a value, an error or a
--                  panic, and `Proc` a call that also changes the world outside the program
--   config.go      Config
--   wire.go        Wire: writeFrame and readFrame; Wire/Frames has them on a stream, and
--                  Wire/Calm what lies outside the connection
--   kem.go         Kem: the X-Wing KEM; Kem/Keys, Kem/Agreement, Kem/Combiner and
--                  Kem/Bounds (its slice expressions)
--   identity.go    Identity: keys, signatures, wire form; Identity/Codec, Identity/WireForm (what
--                  the parser takes), Identity/Digest, Identity/Signature and Identity/Bounds
--   handshake.go   Messages: the two messages, the sealed payload, sliceReader; Messages/Reading,
--                  Messages/Bounds, Messages/RoundTrip, Messages/Response, Messages/WireForm
--                  (what the parsers take) and Messages/Total (panics). Handshake: runInitiator
--                  and runResponder; Handshake/Transcript, Handshake/Authentication,
--                  Handshake/Responding, Handshake/Runs, Handshake/Refusals and
--                  Handshake/Failures (why a frame is refused, why a run fails),
--                  Handshake/Agreement (both runs together, and a recorded message in
--                  Agreement/Replayed), Handshake/Attribution (the run behind a response) and
--                  Handshake/Total (panics)
--   channel.go     Aead: nonces, aeadSeal and aeadOpen; Aead/Nonces. Channel: newConn and the
--                  methods of Conn; Channel/Keys, Channel/Counters, Channel/Halves (what a method
--                  changes) and Channel/Contract (io.Reader and io.Writer). Channel/Batch has
--                  Write as one batch of frames (Batch/Tried: the ones it got to), Channel/Stream
--                  has one direction on a connection that is up, Channel/Exchange both ends under
--                  calls in any order, with what they deliver in Exchange/Queue, Exchange/Order,
--                  Exchange/Draining and Exchange/Delivery, and Channel/Integrity what the ends
--                  hand out on any network (Integrity/Records, Integrity/Sent, Integrity/Sealed).
--                  Channel/Concurrent has Read and Write in any number of goroutines, in small
--                  steps: Concurrent/Schedule (steps in any order, and whole calls),
--                  Concurrent/Guarded (a mutex), Concurrent/Atomic (whole calls by what becomes
--                  of them), Concurrent/Invariant, Concurrent/Safety and Concurrent/Finishing
--   dial.go, listen.go, zap.go
--                  Endpoint: Dial, Client, Server, Listen, Accept, DialZAP and ListenZAP;
--                  Endpoint/Refusals, Endpoint/Entry, Endpoint/Deadlines, Endpoint/Failures,
--                  Endpoint/Opening, Endpoint/Session (a handshake and the channel after it),
--                  Endpoint/Secured (the far end of a client's channel) and Endpoint/Replay (a
--                  recorded message)
--   cmd/zwing-test-server/main.go
--                  TestServer: main; TestServer/Echo and TestServer/Serving
-- Base has what all of them share: byte slices, big-endian integers, tests, outcomes and rules for
-- calls that do not panic. Sample is a small platform for the laws, and the theorems at inputs of
-- it.
--
-- What the program calls and the repository does not contain is a parameter: Host (connections,
-- listeners, clocks, entropy) and Platform (ML-KEM, X25519, Ed25519, ML-DSA, SHA-2, SHA-3, HKDF,
-- ChaCha20-Poly1305). What proofs assume of them, sizes and correctness as documented, is in
-- Platform/Laws ("the libraries work", with EncodingLaws: a key that was parsed is written as the
-- bytes it was parsed from), Host/Link (one direction of a connection that is up, as a byte
-- stream) and Platform/Duplex (both directions). Nothing is assumed of an attacker's means; that
-- no forgery arrives is an argument of what Channel/Integrity, Endpoint/Session, Endpoint/Secured
-- and Handshake/Attribution say of a run, and that no hash collides one of the last two.
--
-- How the code corresponds to the definitions:
--   A slice is a list of native numbers, an integer a native number with its wrap-around written
--   out, a nil pointer or interface `none`. A slice expression that what arrives could take out
--   of bounds panics there (Base/Bounds), and ed25519.Verify at a key that has not 32 bytes. A
--   call that zeroes a buffer returns the buffer as it leaves it: Encapsulation and Decapsulation
--   hold the zeroed buffers beside the result.
--   A run of the handshake is cut where it waits for the other side, so that the two runs can be
--   laid one after the other: send_init, run_responder, await_response. run_initiator is the first
--   and the last of these in one.
--   A method of Conn takes and returns the connection; each is one step, as its mutex makes it.
--   In Channel/Concurrent a step of a goroutine is one access to a field of the connection, one Lock
--   or Unlock, or one whole call of readFrame or writeFrame, though each of these makes two calls of
--   the connection below; sync.Mutex is a Boolean that Lock waits for. What readFrame and writeFrame
--   answer depends on a world that each step finds, whatever other goroutines did to it.
--   Both ends of a channel, what Write took and what Read handed out are one state, and a call at
--   either end is a step of it. Calls that come between two records of one Write are steps
--   between the Writes that it splits into (Channel/Batch/Splitting). A read that would block is
--   not a step.
--   log.Fatalf in main is an error that no deferred call follows.
--   The loop of Write runs on fuel, one round for each byte: a round takes a byte at least.
--
-- Not modelled: `defer zero(idKey)` and the aliasing of slices, which no caller can observe; nil
-- pointers inside an identity; a caller's buffer that goroutines share; the ports in py and js,
-- which are other programs. A negative HandshakeTimeout has the effect of zero, and is zero.
pub mod Base
pub mod Host
pub mod Wire
pub mod Platform
pub mod Kem
pub mod Identity
pub mod Aead
pub mod Messages
pub mod Config
pub mod Handshake
pub mod Channel
pub mod Endpoint
pub mod TestServer
pub mod Sample
