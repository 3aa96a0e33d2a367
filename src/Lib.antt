-- ===== src/Lib.antt =====
-- Veilroom: a chat room over a Tor onion service. A host process owns the room; members reach it
-- over length-prefixed frames and chat under epoch keys that the host wraps for each of them.
--
-- The parts and the files that model them (paths from the repository's root):
--   Event        src/event.rs and the envelope of src/protocol/chat.rs: identifiers, room events.
--   Limits       src/limits.rs: resource limits, their validation, the timeouts.
--   Validation   src/validation.rs and src/ui/sanitize.rs: nicknames, introductions, chat text and
--                display text, as lists of Unicode scalar values.
--   Command      src/command.rs: the palette and its wire indices (Color), the commands and the parsers
--                of their arguments (Syntax), the parser of a typed line (Line), the routing of a
--                command (Route). Typed is the reference of what a user types for a command.
--   Invitation   src/uri.rs: the parser and printer of an invitation, base32 and the onion address
--                (Address).
--   Crypto       src/crypto/transcript.rs (Transcript), src/crypto/identity.rs (Identity),
--                src/crypto/chat.rs (Envelope), over the primitives of Primitives.
--   Protocol     src/protocol/ids.rs (Ids), src/state.rs (State), src/protocol/frame.rs (Frame: the
--                encoder, and the decoder as rounds of the loop in `feed`).
--   Chat         src/chat/replay.rs (Replay), src/chat/outbound.rs (Outbound), src/chat/session.rs
--                (Session: its state; Keys the epoch wraps, Send and Open the two ways of a message,
--                Membership the broadcasts of the host, Install a known member's change of colour as in
--                src/admission/client.rs).
--   Admission    src/admission/mod.rs (the policy), src/admission/queue.rs (Queue),
--                src/admission/guard.rs (Guard).
--   Room         src/room/connections.rs (Connections), src/room/member.rs (Member),
--                src/room/action.rs (Action), src/room/actor.rs (Actor and its children).
--   Ui           src/ui/input.rs: the text field (Input) and the password field (Secret);
--                src/ui/buffer.rs: the bounded buffer of lines (Buffer).
--   Prelude      shared lists, tests, equality, hash maps, machine words, texts, UTF-8, big-endian
--                bytes, decimal numbers and the splitting of texts.
--   Tests        the theorems at concrete inputs.
--
-- How they interact. `RoomActor` is the one writer of a room's state: it holds the member table, the
-- connections, the queue of applications and the replay tracker, takes typed events and answers with
-- typed actions. Room/Actor/Handle.antt is `create`, `start` and `handle_event_at`; Transition the
-- epoch transitions, their acknowledgements and the closing of the room; Timeout their deadline;
-- Admit the join requests, `on_new_id` and `set_policy`; Decide `on_accept` and `on_reject`; Leave the ways out
-- and the member commands; Relay and Receive `on_chat_received`; Broadcast the queued membership
-- messages. A file below one of these holds its theorems.
--
-- `ChatSession` is one participant's side of the room: it takes the broadcasts and relays that the
-- room sends, holds the members that they announce and the key of the epoch, and seals what its
-- user says. A typed line becomes a command (`parse_line`), which `into_host_command` and
-- `into_member_command` hand to the room or to the session; an invitation is the text by which a
-- participant finds the room.
--
-- Conventions. A method that changes its object returns the changed object beside its result; a
-- handler of the actor returns the room and its result also when it fails, so that what a failing
-- handler has already changed stays visible. A helper by clauses stands for a nested `match`, `if let`
-- or `?`. Machine integers are natural numbers; `+= 1` on a counter wraps at its width (`succ32`,
-- `succ64`), as in a release build, and theorems say where a counter must not wrap. Durations are
-- nanoseconds. A hash map is an association list in order of insertion, where the order in which the
-- program iterates is not specified. The loop in `feed` runs on one more round than the buffer has
-- bytes; a round takes at least eight bytes away, and the round trip shows that this is enough.
--
-- Parameters. Room/Environment.antt is what the actor takes from around it: the wrapping of keys,
-- signatures, transcripts and envelopes of src/crypto, the rate limiter of src/chat/ratelimit.rs
-- (which counts in floating point), the Unicode tables, and the texts of errors. What the random
-- generator yields, and whether it fails, is an argument of the event (`Entropy`). The largest
-- `Instant` is an argument of the password guard.
-- Crypto/Primitives.antt is what the crates give (Ed25519, X25519, HKDF, XChaCha20-Poly1305), with
-- what the code relies on as `IsSound`; each property says which part it needs. Base64 and SHA3 of
-- src/uri.rs and the white space of Unicode are parameters too. A nonce is what the random generator
-- yields, none when it fails.
--
-- Not modelled: the network, Tor, terminal and platform code, the asynchronous tasks, the
-- cryptographic primitives themselves, the password verifier, the CBOR schemas, the handshakes of
-- admission, and the screens but for their fields and their buffer of lines. The texts of errors are
-- replaced by the data that they print.
pub mod Prelude
pub mod Event
pub mod Chat
pub mod Admission
pub mod Limits
pub mod Validation
pub mod Protocol
pub mod Command
pub mod Crypto
pub mod Invitation
pub mod Room
pub mod Ui
pub mod Tests
