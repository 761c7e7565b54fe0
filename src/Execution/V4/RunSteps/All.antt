-- ===== src/Execution/V4/RunSteps/All.antt =====
-- Every accepted call is a step.
use edict.Prelude.{◌≡◌}
use edict.Execution.Result.{ok}
use edict.Execution.Evidence.{AddressLibrary}
use edict.Execution.V4.Types.{ExecutionRunV4}
use edict.Execution.V4.Base.{Hashing}
use edict.Execution.V4.Calls.{Call, target}
use edict.Execution.V4.Perform.{perform}
use edict.Execution.V4.RunSteps.{RunStep}
use edict.Execution.V4.RunSteps.Attempts.{
  begin_reprepare-RunStep, record_reprepare_outcome-RunStep, mark_prepared_stale-RunStep,
  record_reprepared-RunStep, record_initial_preparation-RunStep,
}
use edict.Execution.V4.RunSteps.Prompt.{
  record_wallet_prompt_authorization-RunStep, authorize_provider_invocation-RunStep,
  record_wallet_rejected-RunStep, record_broadcast_unknown_v4-RunStep,
  record_broadcast_hash_v4-RunStep,
}
use edict.Execution.V4.RunSteps.Rpc.{
  record_rpc_transaction-RunStep, record_rpc_receipt_evidence-RunStep,
}
use edict.Execution.V4.RunSteps.Correlation.{
  begin_brickken_correlation-RunStep, record_correlation_uncertain-RunStep,
  authorize_correlation_retry-RunStep, record_brickken_correlated-RunStep,
  record_brickken_status_evidence-RunStep,
}
use edict.Execution.V4.RunSteps.ReadBack.{
  record_token_identity_from_read_back-RunStep, record_lifecycle_read_back-RunStep,
  record_read_back_mismatch_v4-RunStep, record_unverified_finality_exhausted-RunStep,
}

module _ (viem : AddressLibrary) (hashing : Hashing) where
  -- Every accepted call on a run of version 4.0 is one step of the state machine of the operation it
  -- is about: the other two operations stay, one numbered event about the operation is appended, and
  -- the identity of the run, its approval and its revision stay.
  pub perform-RunStep :
      (run : ExecutionRunV4) (call : Call) {next : ExecutionRunV4}
      → perform viem hashing run call ≡ ok next
      → RunStep run next (target call)
  unfolding perform
  perform-RunStep run (Call.mark_prepared_stale kind foundation evidence reason id at) h =
      mark_prepared_stale-RunStep viem hashing run kind foundation evidence reason id at h
  perform-RunStep run (Call.begin_reprepare kind attempt_id id at) h =
      begin_reprepare-RunStep run kind attempt_id id at h
  perform-RunStep run (Call.record_reprepared kind tx_id unsigned id at) h =
      record_reprepared-RunStep viem hashing run kind tx_id unsigned id at h
  perform-RunStep run (Call.record_reprepare_outcome kind outcome id at) h =
      record_reprepare_outcome-RunStep run kind outcome id at h
  perform-RunStep run (Call.record_initial_preparation kind tx_id unsigned attempt policy id at) h =
      record_initial_preparation-RunStep viem hashing run kind tx_id unsigned attempt policy id at h
  perform-RunStep run (Call.record_wallet_prompt_authorization kind found evidence semantic id at)
        h =
      record_wallet_prompt_authorization-RunStep viem hashing run kind found evidence semantic id at
        h
  perform-RunStep run (Call.authorize_provider_invocation kind invocation id at) h =
      authorize_provider_invocation-RunStep run kind invocation id at h
  perform-RunStep run (Call.record_wallet_rejected kind id at) h =
      record_wallet_rejected-RunStep run kind id at h
  perform-RunStep run (Call.record_broadcast_unknown kind reason id at) h =
      record_broadcast_unknown_v4-RunStep run kind reason id at h
  perform-RunStep run (Call.record_broadcast_hash kind tx_hash id at) h =
      record_broadcast_hash_v4-RunStep run kind tx_hash id at h
  perform-RunStep run (Call.record_rpc_transaction kind tx_hash identity raw id at) h =
      record_rpc_transaction-RunStep run kind tx_hash identity raw id at h
  perform-RunStep run (Call.record_rpc_receipt_evidence kind evidence id) h =
      record_rpc_receipt_evidence-RunStep viem run kind evidence id h
  perform-RunStep run (Call.begin_brickken_correlation kind id at) h =
      begin_brickken_correlation-RunStep run kind id at h
  perform-RunStep run (Call.record_correlation_uncertain kind pair result id at) h =
      record_correlation_uncertain-RunStep run kind pair result id at h
  perform-RunStep run (Call.authorize_correlation_retry kind pair id at) h =
      authorize_correlation_retry-RunStep run kind pair id at h
  perform-RunStep run (Call.record_brickken_correlated kind pair id at) h =
      record_brickken_correlated-RunStep run kind pair id at h
  perform-RunStep run (Call.record_brickken_status_evidence kind evidence id) h =
      record_brickken_status_evidence-RunStep run kind evidence id h
  perform-RunStep run (Call.record_token_identity_from_read_back read_back event id) h =
      record_token_identity_from_read_back-RunStep run read_back event id h
  perform-RunStep run (Call.record_lifecycle_read_back kind at id) h =
      record_lifecycle_read_back-RunStep run kind at id h
  perform-RunStep run (Call.record_read_back_mismatch kind at id) h =
      record_read_back_mismatch_v4-RunStep run kind at id h
  perform-RunStep run (Call.record_unverified_finality_exhausted kind at id) h =
      record_unverified_finality_exhausted-RunStep run kind at id h
