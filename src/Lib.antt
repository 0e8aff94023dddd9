-- ===== src/Lib.antt =====
-- A verification library for the residency register. It models the decisions of the core under
-- src/core as functions over explicit state, and proves what the register promises of them.
--
-- Parts and files:
-- * Base, with Tests, Lists, Text, Separated, Dict, Unique and Apart: numbers, Boolean tests, lists,
--   text, text joined by a separator and a `Map` with text keys in the order of insertion, shared by
--   all parts.
-- * Residency.Lifecycle is src/core/residency/lifecycle.ts: the status diagram, applyTransition,
--   newRelationship, relationshipOf. Diagram, Shape and Privacy are about single requests and
--   histories.
-- * Residency.Store is InMemoryStore of src/core/residency/ports.ts: the maps of residents, of
--   subject references and of status lists, passed from operation to operation.
-- * Residency.Register is src/core/residency/residency-service.ts: transitionRelationship,
--   relationshipFor, transitionCredential and revoke. It calls the lifecycles, loads and saves the
--   status lists of Credentials.StatusList, and saves the record last, as the code does. InStep is
--   the agreement of records and lists, History its preservation by any sequence of calls.
-- * Credentials.Status is src/core/credentials/credential-lifecycle.ts, and Credentials.StatusList is
--   src/core/credentials/status-list.ts.
-- * Proofing.Residence is src/core/proofing/residence.ts, with addressesMatch of
--   src/core/proofing/address.ts: evaluateResidence over a list of evidence.
-- * Consent.LegalBasis is src/core/consent/legal-basis.ts. Consent.Service is
--   src/core/consent/consent.ts with its in-memory store; a grant resolves its legal basis in the
--   register of legal bases. Sameness says what `sameScopes` tells of two lists: it compares them
--   joined by spaces, so items with spaces are set apart.
-- * Residency.DecisionMode is src/core/residency/decision-mode.ts, with src/core/proofing/binding.ts.
-- * Identity.Links is src/core/identity/identity-link.ts over its in-memory store: link, dispute,
--   resolveDispute, unlink, relink, merge, split and the reads. The identifiers of `newId` are those
--   of a sequence, and the store counts how many were drawn. Effects is the abstract view, a map from
--   identifiers to their owners; Assigning, Reassigning, Rounds, Merges and Undoing say what each
--   operation does to it, Runs is about sequences of calls. Base.Unique and Base.Apart carry the lemmas on
--   maps with one current entry of a kind.
-- * Statistics is src/core/statistics/aggregate.ts: aggregateResidency, with `localeCompare` as an
--   argument. Marking says what stays true of cells however they are suppressed, and
--   Dimensions which residents share a cell: those of equal dimensions, where no text has a NUL.
-- * Foundational.Retry is src/core/foundational/retry.ts: withRetry over the answers of its calls, with
--   the waits it makes. The loop runs over the attempts that are left, so it needs no fuel.
-- * Residency.Refusal is src/core/residency/refusal.ts: the store of refusals and recordReview. Reviews compares
--   what is shown of a decision with a history of its reviews.
-- * Sso.Otp is src/core/sso/otp.ts: the challenges of a resident, their guesses and the window over
--   which they are counted. RateLimit.CallerKey is src/core/ratelimit/caller-key.ts.
--
-- How state and errors are written: an operation takes the store and returns its answer with the
-- store after it; a refusal is a value with the code's text, and a thrown error is `none` or
-- `thrown`. `new Date()` and random identifiers are arguments. `Date.parse`, `toISOString`, the
-- normal form of an address, the hash and the delivery of a code and the signature of a receipt
-- are parameters, most of them since the language or a library provides them. Instants are natural
-- numbers, in milliseconds from the earliest date of the language. All loops run over lists or
-- over the attempts that are left, so no fuel is needed. Text is trimmed of the white space that Base.Text lists.
--
-- Not modelled: issuing, erasure by the service, arrival notices, resident identifiers, the CSV of
-- statistics, the audit log, the configuration schema, protocol endpoints, adapters, signing suites,
-- persistence, controllers, the SDK and scripts.
pub mod Base
pub mod Consent
pub mod Credentials
pub mod Foundational
pub mod Identity
pub mod Proofing
pub mod RateLimit
pub mod Residency
pub mod Sso
pub mod Statistics
