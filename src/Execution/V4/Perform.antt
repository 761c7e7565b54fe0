-- ===== src/Execution/V4/Perform.antt =====
-- A call performed on a run of version 4.0, and the facts that an accepted call tells: its guards
-- read as equations, and the run that results.
use edict.Execution.Result.{Result}
use edict.Execution.Evidence.{AddressLibrary}
use edict.Execution.V4.Types.{ExecutionRunV4, v4}
use edict.Execution.V4.Base.{Hashing}
use edict.Execution.V4.Calls.{Call}
use edict.Execution.V4.Attempts.{
  begin_reprepare, record_reprepare_outcome, mark_prepared_stale, record_reprepared,
  record_initial_preparation,
}
use edict.Execution.V4.Prompt.{
  record_wallet_prompt_authorization, authorize_provider_invocation, record_wallet_rejected,
  record_broadcast_unknown_v4, record_broadcast_hash_v4,
}
use edict.Execution.V4.Rpc.{record_rpc_transaction, record_rpc_receipt_evidence}
use edict.Execution.V4.Correlation.{
  begin_brickken_correlation, record_correlation_uncertain, authorize_correlation_retry,
  record_brickken_correlated, record_brickken_status_evidence,
}
use edict.Execution.V4.ReadBack.{record_token_identity_from_read_back}
use edict.Execution.V4.Lifecycle.{
  record_lifecycle_read_back, record_read_back_mismatch_v4, record_unverified_finality_exhausted,
}

module _ (viem : AddressLibrary) (hashing : Hashing) where
  unfoldable pub perform : ExecutionRunV4 → Call → Result ExecutionRunV4
  perform run (Call.mark_prepared_stale kind foundation evidence reason id at) =
      mark_prepared_stale viem hashing (v4 run) kind foundation evidence reason id at
  perform run (Call.begin_reprepare kind attempt_id id at) =
      begin_reprepare run kind attempt_id id at
  perform run (Call.record_reprepared kind tx_id unsigned id at) =
      record_reprepared viem hashing run kind tx_id unsigned id at
  perform run (Call.record_reprepare_outcome kind outcome id at) =
      record_reprepare_outcome run kind outcome id at
  perform run (Call.record_initial_preparation kind tx_id unsigned attempt_id policy id at) =
      record_initial_preparation viem hashing run kind tx_id unsigned attempt_id policy id at
  perform run (Call.record_wallet_prompt_authorization kind foundation evidence semantic id at) =
      record_wallet_prompt_authorization viem hashing (v4 run) kind foundation evidence semantic id
        at
  perform run (Call.authorize_provider_invocation kind invocation id at) =
      authorize_provider_invocation run kind invocation id at
  perform run (Call.record_wallet_rejected kind id at) = record_wallet_rejected run kind id at
  perform run (Call.record_broadcast_unknown kind reason id at) =
      record_broadcast_unknown_v4 run kind reason id at
  perform run (Call.record_broadcast_hash kind tx_hash id at) =
      record_broadcast_hash_v4 run kind tx_hash id at
  perform run (Call.record_rpc_transaction kind tx_hash identity raw id at) =
      record_rpc_transaction run kind tx_hash identity raw id at
  perform run (Call.record_rpc_receipt_evidence kind evidence id) =
      record_rpc_receipt_evidence viem run kind evidence id
  perform run (Call.begin_brickken_correlation kind id at) =
      begin_brickken_correlation run kind id at
  perform run (Call.record_correlation_uncertain kind pair result id at) =
      record_correlation_uncertain run kind pair result id at
  perform run (Call.authorize_correlation_retry kind pair id at) =
      authorize_correlation_retry run kind pair id at
  perform run (Call.record_brickken_correlated kind pair id at) =
      record_brickken_correlated run kind pair id at
  perform run (Call.record_brickken_status_evidence kind evidence id) =
      record_brickken_status_evidence run kind evidence id
  perform run (Call.record_token_identity_from_read_back read_back event id) =
      record_token_identity_from_read_back run read_back event id
  perform run (Call.record_lifecycle_read_back kind at id) =
      record_lifecycle_read_back run kind at id
  perform run (Call.record_read_back_mismatch kind at id) =
      record_read_back_mismatch_v4 run kind at id
  perform run (Call.record_unverified_finality_exhausted kind at id) =
      record_unverified_finality_exhausted run kind at id
