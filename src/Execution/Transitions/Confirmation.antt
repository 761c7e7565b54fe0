-- ===== src/Execution/Transitions/Confirmation.antt =====
-- Confirmation by Brickken, read-back and final verification:
-- src/server/execution/transitions.ts, `submitConfirmation` to `recordFinalVerification`.
use edict.Prelude.{
  String, Bool, true, false, not, ◌&&◌, ◌||◌, Option, none, some, [], ◌∷◌, ◌++◌, is_none,
  opt_str_eq,
}
use edict.Execution.Result.{Result, ok, illegal_state_transition, ◌>>◌, refuse}
use edict.Execution.Kind.{
  OperationKind, tokenize, whitelist, mint, RunPhase, RunStatus, TerminalOutcome, preparing,
  broadcast_recorded, confirming, succeeded, timed_out, broadcast_hash_persisted,
  confirmation_submitted, OperationStage, confirmed, read_back_verified, BrickkenConfirmationStatus,
  phase_eq, stage_eq,
}
use edict.Execution.Evidence.{OnchainTransactionEvidence, TransactionReceiptEvidence}
use edict.Execution.Types.{WriteOperation, ExecutionRunV1, ExecutionRunEvent}
use edict.Execution.Transitions.Base.{
  op, replace_operation, append_event, assert_not_terminal, needs_reconciliation,
  assert_not_blocked,
}
use edict.Execution.Transitions.Chain.{is_match, is_clear, is_reverted, is_finalized, is_version3}

-- the evidence of a version 3.0 run does not allow a confirmation
unfoldable pub transaction_unproven : WriteOperation → Option OnchainTransactionEvidence → Bool
transaction_unproven current none = true
transaction_unproven current (some evidence) =
    not (is_match evidence.comparison_status)
    || not (is_clear evidence.reconciliation_status)
    || not (opt_str_eq current.blockchain_tx_hash evidence.returned_hash)

-- the run after an accepted `submit_confirmation`
unfoldable pub submit_confirmation_effect :
    ExecutionRunV1 → (id at : String) → OperationKind → ExecutionRunV1
submit_confirmation_effect run id at kind =
    append_event
      (replace_operation (record run { status = confirming }) kind
        (λ o. record o { stage = confirmation_submitted }))
      (ExecutionRunEvent.submit_confirmation id at kind) (some kind)

unfoldable pub submit_confirmation :
    ExecutionRunV1 → (id at : String) → OperationKind → Result ExecutionRunV1
submit_confirmation run id at kind = do
  assert_not_terminal run
  refuse (needs_reconciliation run) illegal_state_transition
  let current = op run kind
  refuse (not (stage_eq current.stage broadcast_hash_persisted)) illegal_state_transition
  refuse (is_none current.prepared_tx_id || is_none current.blockchain_tx_hash)
      illegal_state_transition
  refuse
      (is_version3 run.schema_version
        && transaction_unproven current current.onchain_transaction_evidence)
      illegal_state_transition
  ok (submit_confirmation_effect run id at kind)

-- the operation waits for Brickken: `PENDING` or `CONFIRMATION_SUBMITTED`
unfoldable pub is_confirming : OperationStage → Bool
is_confirming stage = stage_eq stage confirmation_submitted || stage_eq stage OperationStage.pending

-- the run after an accepted `record_pending`
unfoldable pub record_pending_effect :
    ExecutionRunV1 → (id at : String) → OperationKind → ExecutionRunV1
record_pending_effect run id at kind =
    append_event
      (replace_operation (record run { status = confirming; terminal_outcome = none }) kind
        (λ o. record o {
          stage = OperationStage.pending;
          brickken_status = some BrickkenConfirmationStatus.pending;
          timeout = false;
        }))
      (ExecutionRunEvent.record_pending id at kind) (some kind)

unfoldable pub record_pending :
    ExecutionRunV1 → (id at : String) → OperationKind → Result ExecutionRunV1
record_pending run id at kind = do
  assert_not_terminal run
  refuse (needs_reconciliation run) illegal_state_transition
  refuse (not (is_confirming (op run kind).stage)) illegal_state_transition
  ok (record_pending_effect run id at kind)

-- the run after an accepted `record_confirm_transport_failure`
unfoldable pub record_confirm_transport_failure_effect :
    ExecutionRunV1 → (id at : String) → OperationKind → ExecutionRunV1
record_confirm_transport_failure_effect run id at kind =
    append_event
      (replace_operation (record run { status = broadcast_recorded }) kind
        (λ o. record o { stage = broadcast_hash_persisted }))
      (ExecutionRunEvent.record_confirm_transport_failure id at kind) (some kind)

unfoldable pub record_confirm_transport_failure :
    ExecutionRunV1 → (id at : String) → OperationKind → Result ExecutionRunV1
record_confirm_transport_failure run id at kind = do
  assert_not_terminal run
  refuse (needs_reconciliation run) illegal_state_transition
  let current = op run kind
  refuse (not (stage_eq current.stage confirmation_submitted)) illegal_state_transition
  refuse (is_none current.prepared_tx_id || is_none current.blockchain_tx_hash)
      illegal_state_transition
  ok (record_confirm_transport_failure_effect run id at kind)

-- the run after an accepted `record_confirmed`
unfoldable pub record_confirmed_effect :
    ExecutionRunV1 → (id at : String) → OperationKind → ExecutionRunV1
record_confirmed_effect run id at kind =
    append_event
      (replace_operation (record run { status = confirming }) kind
        (λ o. record o {
          stage = confirmed;
          brickken_status = some BrickkenConfirmationStatus.success;
          timeout = false;
          confirmed_at = some at;
        }))
      (ExecutionRunEvent.record_confirmed id at kind) (some kind)

unfoldable pub record_confirmed :
    ExecutionRunV1 → (id at : String) → OperationKind → Result ExecutionRunV1
record_confirmed run id at kind = do
  assert_not_terminal run
  refuse (needs_reconciliation run) illegal_state_transition
  refuse (not (is_confirming (op run kind).stage)) illegal_state_transition
  ok (record_confirmed_effect run id at kind)

-- the run after an accepted `record_rejected`
unfoldable pub record_rejected_effect :
    ExecutionRunV1 → (id at : String) → OperationKind → (error : String) → ExecutionRunV1
record_rejected_effect run id at kind error =
    append_event
      (replace_operation
        (record run { status = RunStatus.failed; terminal_outcome = some TerminalOutcome.failed })
        kind
        (λ o. record o {
          stage = OperationStage.rejected;
          brickken_status = some BrickkenConfirmationStatus.rejected;
          brickken_error = some error;
        }))
      (ExecutionRunEvent.record_rejected id at kind error) (some kind)

unfoldable pub record_rejected :
    ExecutionRunV1 → (id at : String) → OperationKind → (error : String) → Result ExecutionRunV1
record_rejected run id at kind error = do
  assert_not_terminal run
  refuse (needs_reconciliation run) illegal_state_transition
  refuse (not (is_confirming (op run kind).stage)) illegal_state_transition
  ok (record_rejected_effect run id at kind error)

-- the run after an accepted `record_poll_timeout`
unfoldable pub record_poll_timeout_effect :
    ExecutionRunV1 → (id at : String) → OperationKind → ExecutionRunV1
record_poll_timeout_effect run id at kind =
    append_event
      (replace_operation (record run { status = timed_out }) kind
        (λ o. record o { timeout = true }))
      (ExecutionRunEvent.record_poll_timeout id at kind) (some kind)

unfoldable pub record_poll_timeout :
    ExecutionRunV1 → (id at : String) → OperationKind → Result ExecutionRunV1
record_poll_timeout run id at kind = do
  assert_not_terminal run
  refuse (needs_reconciliation run) illegal_state_transition
  refuse (not (stage_eq (op run kind).stage OperationStage.pending)) illegal_state_transition
  ok (record_poll_timeout_effect run id at kind)

-- the receipt of a version 3.0 run does not allow a read-back
unfoldable pub receipt_unproven : Option TransactionReceiptEvidence → Bool
receipt_unproven none = true
receipt_unproven (some receipt) =
    is_reverted receipt.execution_status
    || not (is_match receipt.identity_status)
    || not (is_finalized receipt.finality_status)
    || not (is_clear receipt.reconciliation_status)

abbrev pub phase_after : OperationKind → RunPhase
phase_after tokenize = RunPhase.whitelist
phase_after whitelist = RunPhase.mint
phase_after mint = RunPhase.verification

abbrev pub status_after : OperationKind → RunStatus
status_after tokenize = preparing
status_after whitelist = preparing
status_after mint = succeeded

-- the run after an accepted `record_read_back_verified`
unfoldable pub record_read_back_verified_effect :
    ExecutionRunV1 → (id at : String) → OperationKind → (read : String) → ExecutionRunV1
record_read_back_verified_effect run id at kind read =
    let next =
      replace_operation run kind
        (λ o. record o { stage = read_back_verified; verified_at = some at }) in
    append_event
      (record next {
        observations =
            next.observations ++ record { operation_kind = kind; read = read; at = at } ∷ [];
        phase = phase_after kind;
        status = status_after kind;
      })
      (ExecutionRunEvent.record_read_back_verified id at kind read) (some kind)

unfoldable pub record_read_back_verified :
    ExecutionRunV1 → (id at : String) → OperationKind → (read : String) → Result ExecutionRunV1
record_read_back_verified run id at kind read = do
  assert_not_blocked run
  let current = op run kind
  refuse (not (stage_eq current.stage confirmed)) illegal_state_transition
  refuse (is_version3 run.schema_version && receipt_unproven current.transaction_receipt_evidence)
      illegal_state_transition
  ok (record_read_back_verified_effect run id at kind read)

-- the run after an accepted `record_read_back_mismatch`
unfoldable pub record_read_back_mismatch_effect :
    ExecutionRunV1 → (id at : String) → OperationKind → ExecutionRunV1
record_read_back_mismatch_effect run id at kind =
    append_event
      (record run {
        status = RunStatus.failed;
        terminal_outcome = some TerminalOutcome.verification_failed;
      })
      (ExecutionRunEvent.record_read_back_mismatch id at kind) (some kind)

unfoldable pub record_read_back_mismatch :
    ExecutionRunV1 → (id at : String) → OperationKind → Result ExecutionRunV1
record_read_back_mismatch run id at kind = do
  assert_not_blocked run
  refuse (not (stage_eq (op run kind).stage confirmed)) illegal_state_transition
  ok (record_read_back_mismatch_effect run id at kind)

unfoldable pub all_verified : ExecutionRunV1 → Bool
all_verified run =
    stage_eq (op run tokenize).stage read_back_verified
    && stage_eq (op run whitelist).stage read_back_verified
    && stage_eq (op run mint).stage read_back_verified

-- the run after an accepted `record_final_verification`
unfoldable pub record_final_verification_effect : ExecutionRunV1 → (id at : String) → ExecutionRunV1
record_final_verification_effect run id at =
    append_event (record run { receipt_eligible = true; status = succeeded })
      (ExecutionRunEvent.record_final_verification id at) none

unfoldable pub record_final_verification : ExecutionRunV1 → (id at : String) → Result ExecutionRunV1
record_final_verification run id at = do
  assert_not_blocked run
  refuse (not (phase_eq run.phase RunPhase.verification)) illegal_state_transition
  refuse (not (all_verified run)) illegal_state_transition
  ok (record_final_verification_effect run id at)
