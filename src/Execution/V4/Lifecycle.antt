-- ===== src/Execution/V4/Lifecycle.antt =====
-- The ends of an operation of a version 4.0 run: `recordLifecycleReadBackV4` to
-- `recordUnverifiedFinalityExhaustedV4` and `assertValidPreparationFingerprint` of
-- src/server/execution/v4-transitions.ts.
use edict.Prelude.{
  String, Bool, true, false, not, ◌||◌, some, [], ◌∷◌, ◌++◌, str_eq, is_some, is_none,
  if◌then◌else◌,
}
use edict.Text.{is_sha256}
use edict.Execution.Result.{Result, ok, illegal_state_transition, ◌>>=◌, ◌>>◌, refuse}
use edict.Execution.Kind.{
  OperationKind, RunPhase, RunStatus, TerminalOutcome, preparing, succeeded,
  reconciliation_required, brickken_correlated, read_back_verified, stage_eq, status_eq, server,
}
use edict.Execution.Evidence.{TransactionReceiptEvidence}
use edict.Execution.Transitions.Chain.{is_clear}
use edict.Execution.V4.Types.{
  RpcTransactionAuthorizationEvidence, BrickkenCorrelation, ExecutionRunV4,
}
use edict.Execution.V4.Contracts.{matches, is_within, is_correlated}
use edict.Execution.V4.Base.{op_v4, append_event_v4, replace_operation_v4, find_attempt, clone_v4}
use edict.Execution.V4.Attempts.{given}
use edict.Execution.V4.ReadBack.{is_final_success}

-- the kinds that `recordLifecycleReadBackV4` takes
pub data LifecycleKind : Type 0 where
  whitelist mint : LifecycleKind

abbrev pub kind_of : LifecycleKind → OperationKind
kind_of LifecycleKind.whitelist = OperationKind.whitelist
kind_of LifecycleKind.mint = OperationKind.mint

abbrev is_whitelist : LifecycleKind → Bool
is_whitelist LifecycleKind.whitelist = true
is_whitelist LifecycleKind.mint = false

-- the correlation is not of the active attempt and the broadcast hash
unfoldable pub correlation_differs : BrickkenCorrelation → (tx_id tx_hash : String) → Bool
correlation_differs correlation tx_id tx_hash =
    not (is_correlated correlation.lifecycle)
    || not (str_eq correlation.pair.tx_id tx_id)
    || not (str_eq correlation.pair.tx_hash tx_hash)

-- the receipt does not prove the transaction of the hash
unfoldable pub receipt_unproven_v4 : TransactionReceiptEvidence → (tx_hash : String) → Bool
receipt_unproven_v4 receipt tx_hash =
    not (is_final_success receipt)
    || not (matches receipt.identity_status)
    || not (is_clear receipt.reconciliation_status)
    || not (str_eq receipt.transaction_hash tx_hash)

-- the node's evidence does not prove the transaction of the hash
unfoldable pub transaction_unproven_v4 :
    RpcTransactionAuthorizationEvidence → (tx_hash : String) → Bool
transaction_unproven_v4 rpc tx_hash =
    not (matches rpc.immutable_identity_status)
    || not (is_within rpc.fee_authorization_status)
    || not (str_eq rpc.transaction_hash tx_hash)

unfoldable pub record_lifecycle_read_back_effect :
    ExecutionRunV4 → LifecycleKind → (at id : String) → ExecutionRunV4
record_lifecycle_read_back_effect run kind at id =
    let first = is_whitelist kind in
    append_event_v4
      (replace_operation_v4
        (record run {
          phase = if first then RunPhase.mint else RunPhase.verification;
          status = if first then preparing else succeeded;
          receipt_eligible = not first;
          observations =
              run.observations
              ++ record {
                operation_kind = kind_of kind;
                read = if first then "WHITELIST_STATUS" else "TOKENIZER_INFO+BALANCE_AND_WHITELIST";
                at = at;
              }
                ∷ [];
        })
        (kind_of kind)
        (record (op_v4 run (kind_of kind)) { stage = read_back_verified; verified_at = some at }))
      id at "RECORD_READ_BACK_VERIFIED" (kind_of kind) server

-- `recordLifecycleReadBackV4`
unfoldable pub record_lifecycle_read_back :
    ExecutionRunV4 → LifecycleKind → (at id : String) → Result ExecutionRunV4
record_lifecycle_read_back given_run kind at id = do
  run ← clone_v4 given_run
  let o = op_v4 run (kind_of kind)
  active ← given (find_attempt o.active_preparation_attempt_id o.preparation_attempts)
  tx_id ← given active.tx_id
  tx_hash ← given o.blockchain_tx_hash
  correlation ← given o.brickken_correlation
  receipt ← given o.transaction_receipt_evidence
  rpc ← given o.rpc_transaction_evidence
  refuse
      (status_eq run.status reconciliation_required
        || not (stage_eq o.stage brickken_correlated)
        || correlation_differs correlation tx_id tx_hash
        || receipt_unproven_v4 receipt tx_hash
        || transaction_unproven_v4 rpc tx_hash)
      illegal_state_transition
  ok (record_lifecycle_read_back_effect run kind at id)

unfoldable pub record_read_back_mismatch_v4_effect :
    ExecutionRunV4 → OperationKind → (at id : String) → ExecutionRunV4
record_read_back_mismatch_v4_effect run kind at id =
    append_event_v4
      (record run {
        status = RunStatus.failed;
        terminal_outcome = some TerminalOutcome.verification_failed;
      })
      id at "RECORD_READ_BACK_MISMATCH" kind server

-- `recordReadBackMismatchV4`
unfoldable pub record_read_back_mismatch_v4 :
    ExecutionRunV4 → OperationKind → (at id : String) → Result ExecutionRunV4
record_read_back_mismatch_v4 given_run kind at id = do
  run ← clone_v4 given_run
  let o = op_v4 run kind
  refuse
      (is_some run.terminal_outcome
        || not (stage_eq o.stage brickken_correlated)
        || is_none o.blockchain_tx_hash)
      illegal_state_transition
  ok (record_read_back_mismatch_v4_effect run kind at id)

unfoldable pub record_unverified_finality_exhausted_effect :
    ExecutionRunV4 → OperationKind → (at id : String) → ExecutionRunV4
record_unverified_finality_exhausted_effect run kind at id =
    append_event_v4 (record run { status = reconciliation_required }) id at
      "RECORD_UNVERIFIED_FINALITY_EXHAUSTED" kind server

-- `recordUnverifiedFinalityExhaustedV4`
unfoldable pub record_unverified_finality_exhausted :
    ExecutionRunV4 → OperationKind → (at id : String) → Result ExecutionRunV4
record_unverified_finality_exhausted given_run kind at id = do
  run ← clone_v4 given_run
  let o = op_v4 run kind
  refuse
      (is_some run.terminal_outcome
        || status_eq run.status reconciliation_required
        || is_none o.blockchain_tx_hash
        || stage_eq o.stage read_back_verified)
      illegal_state_transition
  ok (record_unverified_finality_exhausted_effect run kind at id)

-- `assertValidPreparationFingerprint`
unfoldable pub assert_valid_preparation_fingerprint : String → Result (Unit {0})
assert_valid_preparation_fingerprint value = refuse (not (is_sha256 value)) illegal_state_transition
