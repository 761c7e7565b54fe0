-- ===== src/Lib.antt =====
-- Edict takes an asset manifest through three writes on a blockchain (tokenization, whitelisting an
-- investor, minting), each prepared by the provider Brickken, signed by the user's wallet, confirmed
-- by the provider and read back from the chain. This library models the server's core in
-- src/server/execution, the run, an append-only state machine that every other part drives, with the
-- transaction that the wallet is asked to sign and the limits on what it may cost.
--
-- How the parts interact. A run is created from a manifest and a plan (run-service.ts). Each request
-- loads the run, applies one event to it (`applyRunEvent`, transitions.ts) and stores the result
-- under the next revision. An event that is refused changes nothing. Evidence from a node
-- (onchain-evidence.ts) enters as data of two events. A prepared transaction carries a fee
-- authorization, whose caps the server sets and against which the fees of the transaction on the
-- chain are judged. In runs of version 4.0 the service calls one function for each transition
-- (v4-transitions.ts): a preparation is an attempt that may turn stale once, the wallet prompt is
-- authorized for one identity, the provider is released once, the node's transaction is compared with
-- that identity and its fees, and the hash is correlated at Brickken in at most three attempts.
--
-- Which file models what:
--   Prelude: names that are shared; Prelude/Tests has the Boolean tests, Prelude/Lists lists over ℕ.
--   Text: regular expressions and `toLowerCase` on code points; Text/Time the schema `isoUtc`;
--   Text/Quantity hexadecimal quantities, Text/Numeral other numerals, calldata and prefixes.
--   Core/Json: JSON values and `jsonClone` (src/server/execution/infrastructure.ts).
--   Execution/Result: code that throws, as a sum; the errors of src/server/execution/errors.ts.
--   Execution/Kind, Execution/Types: src/server/execution/types.ts, for schema versions 1.0 to 3.0 in
--   one record, where the evidence of version 3.0 is absent from older runs.
--   Execution/Evidence: the two evidence schemas of src/server/execution/onchain-evidence.ts, which
--   put addresses in lower case as they parse.
--   Execution/Transitions: src/server/execution/transitions.ts. Base has its helpers; Preparation,
--   Wallet, Chain and Confirmation its 22 transitions; Apply `applyRunEvent`. A transition `f` is its
--   guards in the order of the code, then `f_effect`, the run that the code returns. Guards collects
--   what an accepted event says of the run; Audit, Invariant, Outcomes and Decisions draw on it.
--   Execution/Service: src/server/execution/run-service.ts: `createRun`, and the events of a run one
--   after the other. Service/History is about what holds after all of them.
--   Fee: src/shared/wallet/execution-authorization.ts and
--   src/server/orchestration/fee-authorization-policy.ts. Schema has the schemas, Evaluation
--   `evaluateFeeAuthorizationV1`, Policy the two functions that create an authorization; Caps,
--   Ceilings, Initial and Prepared are about them, and Fee/Tests applies the theorems.
--   Wallet: src/shared/wallet/transaction.ts in Transaction and Transaction/Project, with Canonical
--   about its quantities; the other schemas of src/shared/wallet/execution-authorization.ts in Intent.
--   Execution/V4: src/server/execution/v4-transitions.ts. Types has its part of types.ts, Contracts the
--   schemas of src/server/execution/v4-contracts.ts, Base and Preparation the helpers; Attempts, Prompt,
--   Rpc, Correlation, ReadBack and Lifecycle the transitions, each its guards and then `f_effect`.
--   ReadBack also has the event schema of src/server/orchestration/tokenize-receipt-binding.ts.
--   V4/Calls and V4/Perform: the 21 calls on a run of version 4.0, and their dispatch. V4/Steps: the
--   state machine of one operation. V4/RunSteps and its children: every accepted call is a step of it.
--   V4/OpInvariants, V4/AttemptLists: what a step of an operation keeps. V4/Reach, V4/Audit: what any
--   sequence of accepted calls keeps; V4/Progress and V4/Retries: what stays possible after it.
--   V4/Prepared, V4/Prompted, V4/Verdicts: what single calls let through. V4/Samples, V4/Tests: the
--   theorems on examples.
--   Rpc: `evaluateReceiptAndFinality` of src/server/rpc/finality.ts in Finality, on the types of
--   src/server/rpc/types.ts in Types; Expected reads its comparison with the expected transaction;
--   Inclusion and Agreement join it to the transitions of version 4.0.
--   Execution/Tests: a run from creation to final verification, and the theorems applied to it.
--
-- Parameters. `isAddress` and `getAddress` of the library viem are the record AddressLibrary, and no
-- theorem assumes anything of them. SHA-256, on a text and on the canonical JSON of a preparation
-- and of a wallet intent, is the record Hashing, of which nothing is assumed either. The clock and
-- the generator of ids are the times and ids of the events. The node is the record RpcClient of
-- calls that may throw, of which nothing is assumed. Hashes of manifests and plans are texts that
-- creation receives.
--
-- Not modelled: freezing of objects, since a value of the model never changes; literal types of one
-- value that no code compares; the order of the times of a wallet prompt, which only the codec
-- checks; property descriptors and prototypes of objects; the keys' order in a JSON object;
-- `toLowerCase` outside ASCII, whose results the program refuses; fee fields of another type than
-- text. There is no fuel in the state machine: every transition is a total function. The digits of a
-- printed number are produced on fuel, as much as the number itself, and that is enough.
-- Persistence, the services that call the transitions, the transport to the node, the freshness of
-- nonces and the user interface are not modelled.
pub mod Prelude
pub mod Text
pub mod Core
pub mod Execution
pub mod Fee
pub mod Rpc
pub mod Wallet
