-- ===== src/Execution/V4/Calls.antt =====
-- The calls of the transitions of src/server/execution/v4-transitions.ts on a run of version 4.0, one
-- constructor for each function, with its arguments beside the run.
use edict.Prelude.{String, Option}
use edict.Core.Json.{Json}
use edict.Execution.Kind.{OperationKind, tokenize}
use edict.Execution.Evidence.{TransactionReceiptEvidence}
use edict.Fee.Schema.{RawFeeFields}
use edict.Wallet.Intent.{ImmutableExecutionIdentity, SemanticAuthorization}
use edict.Execution.V4.Types.{
  StaleReason, NonceFreshnessEvidence, UnresolvedOutcome, CorrelationPair, BrickkenStatusEvidence,
  TokenIdentity,
}
use edict.Execution.V4.Preparation.{V4PreparationFoundationInput}
use edict.Execution.V4.Attempts.{ReprepareOutcome}
use edict.Execution.V4.Correlation.{UncertainResult}
use edict.Execution.V4.ReadBack.{TokenizationEventEvidence}
use edict.Execution.V4.Lifecycle.{LifecycleKind, kind_of}

pub data Call : Type 0 where
  mark_prepared_stale :
      OperationKind
      → V4PreparationFoundationInput
      → NonceFreshnessEvidence
      → Option StaleReason
      → (id at : String) → Call
  begin_reprepare : OperationKind → (attempt_id id at : String) → Call
  record_reprepared : OperationKind → (tx_id : String) → Json → (id at : String) → Call
  record_reprepare_outcome : OperationKind → ReprepareOutcome → (id at : String) → Call
  record_initial_preparation :
      OperationKind → (tx_id : String) → Json → (attempt_id policy id at : String) → Call
  record_wallet_prompt_authorization :
      OperationKind
      → V4PreparationFoundationInput
      → NonceFreshnessEvidence
      → SemanticAuthorization
      → (id at : String) → Call
  authorize_provider_invocation : OperationKind → (invocation_attempt_id id at : String) → Call
  record_wallet_rejected : OperationKind → (id at : String) → Call
  record_broadcast_unknown : OperationKind → UnresolvedOutcome → (id at : String) → Call
  record_broadcast_hash : OperationKind → (tx_hash id at : String) → Call
  record_rpc_transaction :
      OperationKind
      → (tx_hash : String) → ImmutableExecutionIdentity
      → RawFeeFields
      → (id at : String) → Call
  record_rpc_receipt_evidence : OperationKind → TransactionReceiptEvidence → (id : String) → Call
  begin_brickken_correlation : OperationKind → (id at : String) → Call
  record_correlation_uncertain :
      OperationKind → CorrelationPair → UncertainResult → (id at : String) → Call
  authorize_correlation_retry : OperationKind → CorrelationPair → (id at : String) → Call
  record_brickken_correlated : OperationKind → CorrelationPair → (id at : String) → Call
  record_brickken_status_evidence : OperationKind → BrickkenStatusEvidence → (id : String) → Call
  record_token_identity_from_read_back :
      TokenIdentity → TokenizationEventEvidence → (id : String) → Call
  record_lifecycle_read_back : LifecycleKind → (at id : String) → Call
  record_read_back_mismatch : OperationKind → (at id : String) → Call
  record_unverified_finality_exhausted : OperationKind → (at id : String) → Call

-- the operation that a call is about
abbrev pub target : Call → OperationKind
target (Call.mark_prepared_stale kind _ _ _ _ _) = kind
target (Call.begin_reprepare kind _ _ _) = kind
target (Call.record_reprepared kind _ _ _ _) = kind
target (Call.record_reprepare_outcome kind _ _ _) = kind
target (Call.record_initial_preparation kind _ _ _ _ _ _) = kind
target (Call.record_wallet_prompt_authorization kind _ _ _ _ _) = kind
target (Call.authorize_provider_invocation kind _ _ _) = kind
target (Call.record_wallet_rejected kind _ _) = kind
target (Call.record_broadcast_unknown kind _ _ _) = kind
target (Call.record_broadcast_hash kind _ _ _) = kind
target (Call.record_rpc_transaction kind _ _ _ _ _) = kind
target (Call.record_rpc_receipt_evidence kind _ _) = kind
target (Call.begin_brickken_correlation kind _ _) = kind
target (Call.record_correlation_uncertain kind _ _ _ _) = kind
target (Call.authorize_correlation_retry kind _ _ _) = kind
target (Call.record_brickken_correlated kind _ _ _) = kind
target (Call.record_brickken_status_evidence kind _ _) = kind
target (Call.record_token_identity_from_read_back _ _ _) = tokenize
target (Call.record_lifecycle_read_back kind _ _) = kind_of kind
target (Call.record_read_back_mismatch kind _ _) = kind
target (Call.record_unverified_finality_exhausted kind _ _) = kind
