-- ===== src/Lib.antt =====
-- shatters: an end-to-end encrypted messenger. This library models the core of its web client, the
-- TypeScript under web/src/lib, and proves what makes it correct.
--
-- Parts and how they meet. A session (crypto/session.ts) joins a handshake (crypto/x3dh.ts) and a
-- double ratchet (crypto/ratchet.ts), both over one key derivation (crypto/kdf.ts); what they send is
-- framed by the inner message codec (crypto/envelope.ts). Groups are replicated without a server:
-- each member applies the changes that reach it (group/state.ts). Sessions are stored as JSON
-- (crypto/serialize.ts), what is sent is typed content (crypto/content.ts) that travels over a socket
-- (transport/socket.ts), and what is kept (store/chat.ts) lies sealed in a vault (storage/vault.ts).
--
-- Files:
--   Common, Bytes      the shared helpers: tests, lists, strings as UTF-16 code units, dictionaries,
--                      byte arrays with their big-endian accessors; Common/Utf8 is TextEncoder and TextDecoder,
--                      Common/Base64 btoa and atob; Common/Results is the outcome of a call that may throw
--   Message            the headers that web/src/lib/crypto/ratchet.ts and x3dh.ts put on the wire
--   Envelope           web/src/lib/crypto/envelope.ts: Writer and Reader are the classes of that name;
--                      Wire states the format; Roundtrip and Canonical hold the proofs
--   Group              web/src/lib/group/state.ts: the state and every exported function; the children
--                      hold the order of stamps, convergence, merging, replay, clocks and listing
--   Crypto             what is called of libsodium, as a parameter: a record of functions, and the laws of
--                      its documentation in IsSound; Crypto/Toy and Crypto/Labelled are instances for the
--                      examples
--   Kdf                web/src/lib/crypto/kdf.ts
--   Ratchet            web/src/lib/crypto/ratchet.ts: State, Send, Window and Receive are the functions;
--                      Atomic, Bounds, Preserve prove what holds of every message; Chain, Tracks, Skip,
--                      Sealed, Delivery, Order, Steady, Start, Handover, Others, Crossing, Waiting, Opening prove
--                      what the two ends of a session do together
--   Identity           web/src/lib/crypto/identity.ts: what a device signs; Domains holds the proofs
--   X3dh               web/src/lib/crypto/x3dh.ts; Agreement and Refusals hold the proofs
--   Session            web/src/lib/crypto/session.ts: the facade, over an interface for the prekey store;
--                      First follows a session from the bundle to the first plaintext, Errors holds what
--                      a refused message costs
--   Serialize          web/src/lib/crypto/serialize.ts; Roundtrip holds the proof
--   Content            web/src/lib/crypto/content.ts: Frame encodes and Decode checks; Chunks holds the
--                      chunking and the assembler; Roundtrip, Sending and Assembly hold the proofs, over
--                      Indices, Slices and Pieces
--   Json               JSON.stringify and JSON.parse of the language: Print, Lexer and Parse, with the round
--                      trip in Roundtrip
--   Storage            web/src/lib/storage: Adapter is the in-memory store of adapter.ts; Vault and Unlock are
--                      vault.ts; Sealing, Records, Objects, Unlocking, Refusals and Erasure hold the proofs
--   Store              web/src/lib/store: types.ts, with chat.ts in Chat and Patches, and its queue of writes
--                      as a step relation in Queue; Tidy, Reactions, Appending, Deletion, Serial and
--                      Appends hold the proofs
--   Transport          web/src/lib/transport/socket.ts: the state of the connection and its atomic steps;
--                      Ids holds the sets of ids, Reachable the steps in every interleaving and their
--                      invariant; Drain runs a delivery and the draining of the backlog to their end,
--                      Backlog follows them on a server that serves its queue; Incoming reads the
--                      messages of the socket, Live follows an envelope that is pushed
--   Client             web/src/lib/client: search.ts in Search, format.ts in Format, notify.ts in Notify;
--                      Highlight, Hits, AccountIds, Accounts and Days hold the proofs
--   Safety             web/src/lib/crypto/safety.ts; Numbers holds the proofs
--
-- How code is read. Numbers are natural numbers; a write into a byte array wraps as the language wraps
-- it. `undefined` is `none`. A thrown error is the error case of a result type, with one constructor
-- for each message. A function that mutates the session it is given passes the session on (the monad
-- M of Ratchet/State), also when it throws. A `Map` and a `Record` are association lists in insertion
-- order. The loop of skipMessageKeys runs on fuel, as much as there are messages to skip. Random bytes
-- and fresh key pairs are arguments. A call runs to its end before the next one starts, so that no
-- `await` is a point where two calls interleave, except in Transport.Reachable, which parts deliveries there, and in Store.Queue.
--
-- JSON numbers are the integers, exactly; a decimal is kept as it is written and is not rounded. The
-- vault seals records under fresh nonces that are arguments. The chat store keeps a map for each kind
-- of record in place of names with a prefix, and each call of it is one step; Store/Queue parts the
-- calls into the promises of their writes, whose works read and write the records. The
-- draining of the backlog reads at most the hundred pages of the source; it runs over an environment
-- whose calls may fail. The loops of client/search.ts and client/format.ts run on fuel, the length of
-- the text, as each round takes at least a unit; the tables of Unicode and the heading of a day are
-- parameters.
--
-- Where records are spread, a field that is set to undefined is read as one that is absent. A key pair is
-- without the keyType that the library adds to it, and the steps of a delivery carry the id of the
-- envelope only.
--
-- Not modelled: wiping of keys, timing, and the secrecy of the cryptography, of which only the laws
-- in IsSound are used; IndexedDB, the HTTP calls (transport/api.ts), dates in
-- client/format.ts, client/chat-client.ts, the user interface, and the server.
pub mod Common
pub mod Bytes
pub mod Message
pub mod Envelope
pub mod Group
pub mod Content
pub mod Crypto
pub mod Json
pub mod Kdf
pub mod Ratchet
pub mod Identity
pub mod X3dh
pub mod Session
pub mod Serialize
pub mod Storage
pub mod Store
pub mod Transport
pub mod Client
pub mod Safety
