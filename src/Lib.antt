-- ===== src/Lib.antt =====
-- The verification library of the ANS SDK for Go: the parts of the program that decide whether a
-- certificate belongs to a registered agent, whether a receipt is in the transparency log, and
-- whether a proof of possession was seen before.
--
-- The program. `verify` takes a certificate and a name. ServerVerifier and ClientVerifier
-- (verify/verify.go) look for a badge in the BadgeCache (verify/cache.go), else ask DNS for a badge
-- record, validate its URL (verify/url_validator.go), and fetch the badge (models/badge.go) from the
-- transparency log; they compare the badge with the certificate (verify/cert.go) and may ask DANE
-- (verify/dane.go) for a second opinion. With SCITT headers they check a receipt and a status token
-- (verify/scitt) instead and fall back to the badge on some transport errors. Receipts rest on Merkle
-- inclusion proofs (verify/scitt/merkle.go); receipts and tokens are kept in bounded caches
-- (verify/scitt/cache.go). `pop` verifies proofs of possession, and keeps the keys of those it has
-- accepted in a replay cache (pop/replay.go); VerifyCaller (pop/caller.go) ties a proof, a status
-- token and a receipt to one agent, for the middleware of pop/http.go.
--
-- The files.
--   Base            names of the libraries passed on; Boolean tests, lists, comparable types, Go maps
--                   (Base/Table), membership, texts and numbers of the Go packages strings, strconv,
--                   encoding/hex and encoding/base64 (Base/Text), signed integers (Base/Int)
--   Models          models/version.go, models/fqdn.go and models/badge.go
--   Verify/Cert     verify/cert.go: fingerprints, ANS names, identities
--   Verify/Outcome  verify/outcome.go and verify/policy.go; Verify/Errors: verify/errors.go
--   Verify/BadgeCache, Verify/Dane, Verify/UrlValidator: the files of verify with these names
--   Verify/BadgeRecord  verify/badge_record.go; Verify/Resolver: verify/dns.go and verify/dns_resolver.go
--   Verify/Config   verify/options.go, and applyFailurePolicy, validateBadgeURL and verifyDANE of
--                   verify/verify.go
--   Verify/Environment, Verify/Server, Verify/Client, Verify/ScittPath, Verify/Facade: the rest of
--                   verify/verify.go; fetchBadge of both verifiers is fetch_badge over the shared
--                   fetch_after_lookup, verifyWithHeaders is verify_with_headers, AnsVerifier is
--                   Facade
--   Scitt/Merkle    verify/scitt/merkle.go; Scitt/Merkle/Rfc9162 is section 2.1 of RFC 9162 as it is
--                   written there, and Scitt/Merkle/Reference the same tree built level by level
--   Scitt/Cache     ReceiptCache and StatusTokenCache of verify/scitt/cache.go, as one store over
--                   any keys and entries
--   Scitt/Types     verify/scitt/types.go, and parts of headers.go, errors.go and status_token.go
--   Scitt/Errors    the errors of verify/scitt/errors.go, and the results that carry them
--   Scitt/Cose, Scitt/Receipt, Scitt/StatusToken, Scitt/Checkpoint, Scitt/Supplier: the files of
--                   verify/scitt with these names; Scitt/TokenPayload is the decoder of the payload
--                   in status_token.go
--   Scitt/RootKeys, Scitt/KeyRefresh  root_keys.go and refreshable_key_store.go of verify/scitt
--   Scitt/HttpHeaders  ExtractHeaders of verify/scitt/headers.go, and verify/scitt/outgoing.go
--   Verify/ScittKeys   the checks of receipts and tokens as verifyWithHeaders calls them
--   Pop/Errors      pop/errors.go
--   Pop/Replay      pop/replay.go: check_and_store is CheckAndStore, and a sweep of the janitor is an
--                   event between two calls
--   Pop/Jws, Pop/Proof, Pop/Verify, Pop/Caller, Pop/Sign, Pop/Http: the files of pop with these
--                   names; verify_caller is verifyCaller, and check_caller its part before the replay
--                   cache; authenticate is what the middleware does with a request
--   Tests           the theorems at concrete inputs, and runs of the definitions
-- The child modules of a component hold its theorems and are named for what they show.
--
-- State and effects. A state is a record, and an operation returns the new one; a nil pointer is
-- `none`. Where Go ranges over a map, the order is an argument. Instants are nanoseconds in ℕ and are
-- arguments; the record Environment holds the clock readings of one call of a verifier. DNS, the log
-- and the URL parser are functions that the model takes as arguments, and so are the libraries: the
-- record Cbor is the CBOR decoder, Crypto the hash function and the ECDSA checks of verify/scitt, and
-- ProofLibrary and SignerLibrary those of pop with JSON and the certificate and URL parsers. Of these nothing is assumed
-- but what a theorem names. A step that can fail returns a value of a sum type (Checked in verify/scitt,
-- Step in pop), and a function that returns early on an error is a do block. A lock is held during a
-- whole operation, so operations are the steps of an interleaving.
--
-- Bounds and fuel. No definition runs on fuel but two: `strip` of the Merkle walk, whose fuel is the
-- index, which each round halves, and `digits_in` of the decimal printer, whose fuel is the number
-- printed, which has fewer digits than that. Components of versions are below 2^32, as the source's
-- types have it. Numbers that only grow in practice, such as tree sizes and instants, are unbounded
-- here; an overflow of 64 bits is outside the model, but for the expiry of a status token. Sizes and
-- durations of a configuration are not negative here, where they are natural numbers. ToLower and
-- EqualFold fold the ASCII letters, and compare other bytes as they are.
--
-- Not modelled: HTTP, DNS messages, JSON, CBOR, X.509 and ECDSA, which are libraries that the code
-- calls; goroutines and their tickers; logging and the texts of errors; the wiring of the middleware of
-- pop; the clients of the registry and of the log; the command line.
pub mod Base
pub mod Scitt
pub mod Pop
pub mod Models
pub mod Verify
mod Tests
