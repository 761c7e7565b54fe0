-- ===== src/Execution/Transitions/Apply.antt =====
-- `applyRunEvent` of src/server/execution/transitions.ts. A run of version 4.0 is of another type
-- here; the source refuses it at once.
use edict.Prelude.{◌≡◌, arith}
use edict.Execution.Result.{Result, ok, ◌>>=◌}
use edict.Execution.Evidence.{AddressLibrary}
use edict.Execution.Types.{ExecutionRunV1, ExecutionRunEvent}
use edict.Execution.Transitions.Base.{clone_run}
use edict.Execution.Transitions.Preparation.{
  approve, cancel, begin_prepare, record_prepared, record_prepare_unknown, record_prepare_failure,
  record_prepare_interrupted,
}
use edict.Execution.Transitions.Wallet.{
  record_wallet_prompt, record_wallet_rejection, record_broadcast_hash, record_broadcast_unknown,
}
use edict.Execution.Transitions.Chain.{
  record_onchain_transaction_evidence, record_transaction_receipt_evidence,
}
use edict.Execution.Transitions.Confirmation.{
  submit_confirmation, record_pending, record_confirm_transport_failure, record_confirmed,
  record_rejected, record_poll_timeout, record_read_back_verified, record_read_back_mismatch,
  record_final_verification,
}

module _ (viem : AddressLibrary) where
  -- the `switch`; to unfold it is to unfold every transition
  unfoldable pub dispatch : ExecutionRunV1 → ExecutionRunEvent → Result ExecutionRunV1
  unfolding approve cancel begin_prepare record_prepared record_prepare_unknown
      record_prepare_failure record_prepare_interrupted record_wallet_prompt record_wallet_rejection
      record_broadcast_hash record_broadcast_unknown record_onchain_transaction_evidence
      record_transaction_receipt_evidence submit_confirmation record_pending
      record_confirm_transport_failure record_confirmed record_rejected record_poll_timeout
      record_read_back_verified record_read_back_mismatch record_final_verification
  dispatch run (ExecutionRunEvent.approve_plan id at plan_hash approved_by_wallet proof) =
      approve run id at plan_hash approved_by_wallet proof
  dispatch run (ExecutionRunEvent.cancel_run id at) = cancel run id at
  dispatch run (ExecutionRunEvent.begin_prepare id at kind) = begin_prepare run id at kind
  dispatch run (ExecutionRunEvent.record_prepared id at kind tx_id unsigned) =
      record_prepared run id at kind tx_id unsigned
  dispatch run (ExecutionRunEvent.record_prepare_unknown id at kind code) =
      record_prepare_unknown run id at kind code
  dispatch run (ExecutionRunEvent.record_prepare_failure id at kind code) =
      record_prepare_failure run id at kind code
  dispatch run (ExecutionRunEvent.record_prepare_interrupted id at kind code) =
      record_prepare_interrupted run id at kind code
  dispatch run (ExecutionRunEvent.record_wallet_prompt id at kind) =
      record_wallet_prompt run id at kind
  dispatch run (ExecutionRunEvent.record_wallet_rejection id at kind) =
      record_wallet_rejection run id at kind
  dispatch run (ExecutionRunEvent.record_broadcast_hash id at kind tx_hash) =
      record_broadcast_hash run id at kind tx_hash
  dispatch run (ExecutionRunEvent.record_broadcast_unknown id at kind) =
      record_broadcast_unknown run id at kind
  dispatch run (ExecutionRunEvent.record_onchain_transaction_evidence id at kind evidence) =
      record_onchain_transaction_evidence viem run id at kind evidence
  dispatch run (ExecutionRunEvent.record_transaction_receipt_evidence id at kind evidence) =
      record_transaction_receipt_evidence viem run id at kind evidence
  dispatch run (ExecutionRunEvent.submit_confirmation id at kind) =
      submit_confirmation run id at kind
  dispatch run (ExecutionRunEvent.record_pending id at kind) = record_pending run id at kind
  dispatch run (ExecutionRunEvent.record_confirm_transport_failure id at kind) =
      record_confirm_transport_failure run id at kind
  dispatch run (ExecutionRunEvent.record_confirmed id at kind) = record_confirmed run id at kind
  dispatch run (ExecutionRunEvent.record_rejected id at kind error) =
      record_rejected run id at kind error
  dispatch run (ExecutionRunEvent.record_poll_timeout id at kind) =
      record_poll_timeout run id at kind
  dispatch run (ExecutionRunEvent.record_read_back_verified id at kind read) =
      record_read_back_verified run id at kind read
  dispatch run (ExecutionRunEvent.record_read_back_mismatch id at kind) =
      record_read_back_mismatch run id at kind
  dispatch run (ExecutionRunEvent.record_final_verification id at) =
      record_final_verification run id at

  unfoldable pub apply_run_event : ExecutionRunV1 → ExecutionRunEvent → Result ExecutionRunV1
  apply_run_event run event = do current ← clone_run run; dispatch current event

  -- An event that `applyRunEvent` accepts is accepted by its transition.
  pub apply_run_event-dispatch :
      (run : ExecutionRunV1) (event : ExecutionRunEvent) {next : ExecutionRunV1}
      → apply_run_event run event ≡ ok next
      → dispatch run event ≡ ok next
  unfolding apply_run_event
  apply_run_event-dispatch run event h = ground arith
