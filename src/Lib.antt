-- ===== src/Lib.antt =====
-- Verification library of the SIGIMORA backend, a Rust workspace for threshold BLS signatures.
--
-- The parts of the program and how they interact. sigimora-math wraps blstrs: scalars, G1, G2, Gt
-- and pairings. sigimora-crypto builds on it secret sharing (shamir.rs, feldman.rs, pedersen.rs),
-- signatures (bls.rs) and the distributed key generation of one party (dkg.rs). sigimora-ats makes
-- threshold signatures from the shares, with encrypted tags that the holder of a tracking key can
-- open. sigimora-refresh renews shares, and frost.rs is a second scheme of threshold signatures.
-- sigimora-mcp drives keys and signatures as a state machine: zkp.rs has the proofs that accompany
-- messages, and protocol.rs the phases of a party. sigimora-server keeps networks of nodes in a
-- database and runs the library for all nodes of a network: it generates keys, signs, verifies and
-- refreshes shares.
--
-- Which file models which part:
-- - Base: shared notions. Base/Tests has Boolean tests, Base/Lists measures and searches lists,
--   Base/Faults is the result of a function that may return an error or panic, and Base/Stateful
--   that of a method that takes `&mut self`, whose changes before an error stay; Base/Preserving has
--   the rules by which such methods, one after the other, preserve a predicate of the state.
--   Base/Bytes has little-endian integers and slices, which panic out of range.
-- - Math: what the program takes from blstrs, sha2, sha3, hkdf and aes-gcm, as one record, Suite,
--   with the laws these libraries document: the scalars are a field, the three groups are modules
--   over it, the pairing is bilinear and non-degenerate, encodings have fixed lengths and are read
--   back, decryption undoes encryption, and a ciphertext is 16 bytes longer than its plaintext.
--   Math/Pairing is sigimora-math/src/pairing.rs, and Math/Power the exponentiation of scalar.rs.
-- - Shamir: sigimora-crypto/src/shamir.rs. Poly, Interpolation and Lagrange show that the
--   coefficients evaluate polynomials at 0; RoundTrip that sharing can be undone; Sums adds
--   polynomials up.
-- - Feldman, Pedersen, Bls, Dkg: the files of those names in sigimora-crypto/src. `DkgState` has
--   the fields of the struct, and a method with `&mut self` returns the new state. Dkg/Qual is
--   about complaints and Dkg/Finalize about the output; the order in which a hash map is walked is
--   an argument. Dkg/Message has the messages as bytes, Dkg/Ecies the encryption of a share.
--   Dkg/Honest delivers to one party what the others send, Honest/Output says what it then
--   computes, Honest/Agreement how every party ends, and Honest/Signing goes on to the signatures
--   of Ats.
-- - Frost: sigimora-crypto/src/frost.rs. Frost/Weights is about its Lagrange coefficients,
--   Frost/Laws about signing, Frost/Codec has the encoding of a signature and Frost/Resharing the
--   refresh of shares.
-- - Refresh: sigimora-refresh/src/lib.rs. Refresh/Contributions is about which contributions are
--   accepted, Refresh/Invariant about what a refresh keeps, Refresh/Steps about sequences of calls,
--   and Refresh/Additive has the additive refresh.
-- - Ats: sigimora-ats/src/lib.rs, with Ats/Laws on signatures and Ats/Tags on tags.
-- - Zkp: sigimora-mcp/src/zkp.rs, with Zkp/Laws on what the verifiers accept.
-- - Mcp: sigimora-mcp/src/protocol.rs. Mcp/Steps has one step for each method of `McpProtocol` that
--   changes the state, and moves, which are these and the calls of `transition_to` on the state, which
--   is public. Deadlock, Quorum and Unfed are about sequences of them, Combine about one signature,
--   Distribute about a share on its way.
-- - Ledger: sigimora-mcp/src/ledger.rs, with the hash maps in Ledger/Maps and what all operations
--   keep in Ledger/Invariant. AtsBls: sigimora-crypto/src/bls_threshold.rs.
-- - Network: the frames of sigimora-mcp/src/network.rs, over a connection whose operations are a
--   parameter; Network/Frames is about reading them back, and Network/Handshake has the proof of
--   identity and what both ends accept.
-- - RateLimiter: the limiter of sigimora-server/src/state.rs; RateLimiter/Windows is about one
--   request, RateLimiter/Bounds about a sequence of them; Server/Limited uses both.
-- - Server: sigimora-server/src, with the errors of error.rs. Server/Store has the tables and
--   statements of db.rs (Nodes and Secrets are about the rows of a network), Server/Texts what the
--   handlers take from hex and serde_json. The other modules are handlers in routes: Exchange and
--   Keygen (dkg.rs), Signing (signing.rs and verify.rs), Batch (batch.rs), Refreshing (refresh.rs),
--   Tracing (trace.rs) and Networks (network.rs). Server/Access has auth.rs and api_keys.rs. A
--   handler is a statement on the database that may end with an error, after which the changes made
--   before stay. Server/Service has the routes of main.rs: the health check of health.rs
--   (Server/Health), which needs no key, and those where a request is let in before its handler runs.
--   Service/Statements and Service/Handlers go through what these leave of a network's key.
--   Server/Limited has the limit of main.rs, which comes before both, and sequences of requests.
--   Server/Keyed says when a network can generate a key, and when its nodes hold the shares of one.
-- - Samples: a concrete Suite over the field of five elements. Tests: the results at concrete
--   inputs.
--
-- Choices. A random number generator is the function from a position to the value that it yields.
-- The instants of the rate limiter are numbers of nanoseconds, given as arguments. A `u16` id is a
-- natural number, and `u16` truncates where the code casts. Loops are structural recursion over
-- lists and numbers; the one that halves an exponent of 64 bits has a fuel of 64, one unit for each
-- bit. A panic is a value of its own.
--
-- A table is the list of its rows, a text the list of its bytes, and a number in a column is below
-- 2^63. A statement fails where it breaks a constraint of the schema; failures of SQLite itself are
-- left out. Handlers run one after the other, those of two requests do not interleave. The clock
-- stands still during a handler. What it reads of the clock, of `Uuid::new_v4` and of the generator
-- are arguments.
--
-- A subtraction on `usize` that would go below 0 panics, as in a build that checks for overflow. A
-- read of a random generator by several parties is one generator for each party.
--
-- Not modelled: the other functions of scalar.rs and those of g1.rs, g2.rs and gt.rs (they pass on
-- to blstrs), serde code and clearing of memory; of sigimora-mcp callers that assign to the public
-- fields of a party, nodes, tasks and files (node.rs, identity.rs, and of network.rs the map of
-- peers); the rest of the server (configuration, bootstrap keys, logging, the headers of responses,
-- the pages of the documentation, the audit log and the other handlers that only read tables) and
-- the command line, which are input and output around the library.
pub mod Base
pub mod Math
pub mod Shamir
pub mod Bls
pub mod Feldman
pub mod Pedersen
pub mod Dkg
pub mod Zkp
pub mod Ats
pub mod Mcp
pub mod AtsBls
pub mod Ledger
pub mod Frost
pub mod Refresh
pub mod Network
pub mod RateLimiter
pub mod Server
pub mod Samples
pub mod Tests
