-- ===== src/Execution/V4/Correlation.antt =====
-- The correlation of a broadcast transaction with the preparation at Brickken:
-- `beginBrickkenCorrelationV4` to `recordBrickkenStatusEvidenceV4` and `exactCorrelationPairV4` of
-- src/server/execution/v4-transitions.ts.
use edict.Prelude.{
  ℕ, ◌+◌, String, Bool, true, false, not, ◌&&◌, ◌||◌, Option, none, some, List, [], ◌∷◌, ◌++◌, leb,
  length, str_eq, is_some, if◌then◌else◌,
}
use edict.Execution.Result.{Result, ok, illegal_state_transition, ◌>>=◌, ◌>>◌, refuse}
use edict.Execution.Kind.{
  OperationKind, confirming, reconciliation_required, rpc_transaction_verified,
  policy_violation_onchain, brickken_correlation_pending, brickken_correlated, stage_eq,
  BrickkenConfirmationStatus, server, brickken,
}
use edict.Execution.V4.Types.{
  CorrelationResult, BrickkenCorrelationAttempt, CorrelationPair, CorrelationLifecycle,
  BrickkenCorrelation, BrickkenStatusEvidence, RpcTransactionAuthorizationEvidence, ExecutionRunV4,
}
use edict.Execution.V4.Contracts.{matches, is_violation, is_correlated, parse_status_evidence}
use edict.Execution.V4.Base.{op_v4, append_event_v4, replace_operation_v4, active_attempt, clone_v4}
use edict.Execution.V4.Attempts.{given}

-- the result of a correlation request that did not settle it
pub data UncertainResult : Type 0 where
  temporarily_not_found transport_unknown : UncertainResult

abbrev pub uncertain : UncertainResult → CorrelationResult
uncertain UncertainResult.temporarily_not_found = CorrelationResult.temporarily_not_found
uncertain UncertainResult.transport_unknown = CorrelationResult.transport_unknown

abbrev pub is_authorized : CorrelationResult → Bool
is_authorized CorrelationResult.authorized = true
is_authorized _ = false

abbrev pub max_correlation_attempts : ℕ
max_correlation_attempts = 3

-- `canonicalizeJson(left) === canonicalizeJson(right)`
unfoldable pub same_pair : CorrelationPair → CorrelationPair → Bool
same_pair a b = str_eq a.tx_id b.tx_id && str_eq a.tx_hash b.tx_hash

abbrev pub authorized_attempt : ℕ → (at : String) → BrickkenCorrelationAttempt
authorized_attempt n at = record {
  attempt = n;
  authorized_at = at;
  result = CorrelationResult.authorized;
}

unfoldable pub begin_brickken_correlation_effect :
    ExecutionRunV4
    → OperationKind
    → RpcTransactionAuthorizationEvidence
    → CorrelationPair
    → (id at : String) → ExecutionRunV4
begin_brickken_correlation_effect run kind rpc pair id at =
    let violated = is_violation rpc.fee_authorization_status in
    append_event_v4
      (replace_operation_v4
        (record run { status = if violated then reconciliation_required else confirming }) kind
        (record (op_v4 run kind) {
          stage = brickken_correlation_pending;
          brickken_correlation = some (record {
            pair = pair;
            lifecycle = CorrelationLifecycle.pending;
            attempts = authorized_attempt 1 at ∷ [];
            correlated_at = none;
          });
        }))
      id at "BEGIN_BRICKKEN_CORRELATION" kind server

-- `beginBrickkenCorrelationV4`
unfoldable pub begin_brickken_correlation :
    ExecutionRunV4 → OperationKind → (id at : String) → Result ExecutionRunV4
begin_brickken_correlation given_run kind id at = do
  run ← clone_v4 given_run
  let o = op_v4 run kind
  attempt ← active_attempt o
  rpc ← given o.rpc_transaction_evidence
  hash ← given o.blockchain_tx_hash
  tx_id ← given attempt.tx_id
  refuse
      (not (stage_eq o.stage rpc_transaction_verified || stage_eq o.stage policy_violation_onchain)
        || not (matches rpc.immutable_identity_status)
        || is_some o.brickken_correlation)
      illegal_state_transition
  ok (
      begin_brickken_correlation_effect run kind rpc (record { tx_id = tx_id; tx_hash = hash }) id
        at)

-- the correlation is not pending, or is of another pair
unfoldable pub not_pending_for : CorrelationPair → BrickkenCorrelation → Bool
not_pending_for pair correlation =
    not (same_pair correlation.pair pair) || is_correlated correlation.lifecycle

-- the pending correlation of the pair
unfoldable pub pending_correlation :
    ExecutionRunV4 → OperationKind → CorrelationPair → Result BrickkenCorrelation
pending_correlation run kind pair = do
  let o = op_v4 run kind
  correlation ← given o.brickken_correlation
  refuse (not (stage_eq o.stage brickken_correlation_pending) || not_pending_for pair correlation)
      illegal_state_transition
  ok correlation

-- `attempts.at(-1)`
unfoldable pub last_attempt : List BrickkenCorrelationAttempt → Option BrickkenCorrelationAttempt
last_attempt [] = none
last_attempt (a ∷ []) = some a
last_attempt (a ∷ b ∷ attempts) = last_attempt (b ∷ attempts)

-- `attempts[attempts.length - 1] = { ...last, result }`
unfoldable pub settle_last :
    CorrelationResult → List BrickkenCorrelationAttempt → List BrickkenCorrelationAttempt
settle_last result [] = []
settle_last result (a ∷ []) = record a { result = result } ∷ []
settle_last result (a ∷ b ∷ attempts) = a ∷ settle_last result (b ∷ attempts)

-- the last attempt is there and waits for its result
abbrev pub awaits : Option BrickkenCorrelationAttempt → Bool
awaits none = false
awaits (some a) = is_authorized a.result

abbrev pub with_correlation : ExecutionRunV4 → OperationKind → BrickkenCorrelation → ExecutionRunV4
with_correlation run kind correlation =
    replace_operation_v4 run kind
      (record (op_v4 run kind) { brickken_correlation = some correlation })

unfoldable pub record_correlation_uncertain_effect :
    ExecutionRunV4
    → OperationKind
    → BrickkenCorrelation
    → UncertainResult
    → (id at : String) → ExecutionRunV4
record_correlation_uncertain_effect run kind correlation result id at =
    append_event_v4
      (with_correlation run kind
        (record correlation { attempts = settle_last (uncertain result) correlation.attempts }))
      id at "RECORD_BRICKKEN_CORRELATION_UNCERTAIN" kind brickken

-- `recordCorrelationUncertainV4`
unfoldable pub record_correlation_uncertain :
    ExecutionRunV4
    → OperationKind
    → CorrelationPair
    → UncertainResult
    → (id at : String) → Result ExecutionRunV4
record_correlation_uncertain given_run kind pair result id at = do
  run ← clone_v4 given_run
  correlation ← pending_correlation run kind pair
  refuse (not (awaits (last_attempt correlation.attempts))) illegal_state_transition
  ok (record_correlation_uncertain_effect run kind correlation result id at)

unfoldable pub authorize_correlation_retry_effect :
    ExecutionRunV4 → OperationKind → BrickkenCorrelation → (id at : String) → ExecutionRunV4
authorize_correlation_retry_effect run kind correlation id at =
    append_event_v4
      (with_correlation run kind (record correlation {
        attempts =
            correlation.attempts ++ authorized_attempt (length correlation.attempts + 1) at ∷ [];
      }))
      id at "AUTHORIZE_BRICKKEN_CORRELATION_RETRY" kind server

-- `authorizeCorrelationRetryV4`
unfoldable pub authorize_correlation_retry :
    ExecutionRunV4 → OperationKind → CorrelationPair → (id at : String) → Result ExecutionRunV4
authorize_correlation_retry given_run kind pair id at = do
  run ← clone_v4 given_run
  correlation ← pending_correlation run kind pair
  refuse
      (leb max_correlation_attempts (length correlation.attempts)
        || awaits (last_attempt correlation.attempts))
      illegal_state_transition
  ok (authorize_correlation_retry_effect run kind correlation id at)

abbrev pub fees_violated : Option RpcTransactionAuthorizationEvidence → Bool
fees_violated none = false
fees_violated (some rpc) = is_violation rpc.fee_authorization_status

unfoldable pub record_brickken_correlated_effect :
    ExecutionRunV4 → OperationKind → BrickkenCorrelation → (id at : String) → ExecutionRunV4
record_brickken_correlated_effect run kind correlation id at =
    let violated = fees_violated (op_v4 run kind).rpc_transaction_evidence in
    append_event_v4
      (replace_operation_v4
        (record run { status = if violated then reconciliation_required else confirming }) kind
        (record (op_v4 run kind) {
          stage = brickken_correlated;
          brickken_status = some BrickkenConfirmationStatus.pending;
          brickken_correlation = some (record correlation {
            lifecycle = CorrelationLifecycle.correlated;
            correlated_at = some at;
          });
        }))
      id at "RECORD_BRICKKEN_CORRELATED" kind brickken

-- `recordBrickkenCorrelatedV4`
unfoldable pub record_brickken_correlated :
    ExecutionRunV4 → OperationKind → CorrelationPair → (id at : String) → Result ExecutionRunV4
record_brickken_correlated given_run kind pair id at = do
  run ← clone_v4 given_run
  correlation ← pending_correlation run kind pair
  ok (record_brickken_correlated_effect run kind correlation id at)

unfoldable pub record_brickken_status_evidence_effect :
    ExecutionRunV4 → OperationKind → BrickkenStatusEvidence → (id : String) → ExecutionRunV4
record_brickken_status_evidence_effect run kind evidence id =
    let o = op_v4 run kind in
    append_event_v4
      (replace_operation_v4 run kind (record o {
        brickken_status = some evidence.status;
        brickken_status_evidence = o.brickken_status_evidence ++ evidence ∷ [];
      }))
      id evidence.observed_at "RECORD_BRICKKEN_STATUS" kind brickken

-- the correlation that a finished operation has
abbrev pub has_correlated : Option BrickkenCorrelation → Bool
has_correlated none = false
has_correlated (some correlation) = is_correlated correlation.lifecycle

-- `recordBrickkenStatusEvidenceV4`
unfoldable pub record_brickken_status_evidence :
    ExecutionRunV4 → OperationKind → BrickkenStatusEvidence → (id : String) → Result ExecutionRunV4
record_brickken_status_evidence given_run kind raw id = do
  run ← clone_v4 given_run
  let o = op_v4 run kind
  evidence ← parse_status_evidence raw
  correlation ← given o.brickken_correlation
  refuse
      (not (stage_eq o.stage brickken_correlated)
        || not (is_correlated correlation.lifecycle)
        || not (str_eq evidence.tx_id correlation.pair.tx_id)
        || not (str_eq evidence.tx_hash correlation.pair.tx_hash))
      illegal_state_transition
  ok (record_brickken_status_evidence_effect run kind evidence id)

abbrev pub correlated_pair : Option BrickkenCorrelation → Option CorrelationPair
correlated_pair none = none
correlated_pair (some correlation) = some correlation.pair

-- `exactCorrelationPairV4`
unfoldable pub exact_correlation_pair : ExecutionRunV4 → OperationKind → Option CorrelationPair
exact_correlation_pair run kind = correlated_pair (op_v4 run kind).brickken_correlation
