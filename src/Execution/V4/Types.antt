-- ===== src/Execution/V4/Types.antt =====
-- The types of runs of schema version 4.0: src/server/execution/types.ts. Fields with one literal
-- value that no code compares are left out.
use edict.Prelude.{ℕ, String, Bool, Option, List}
use edict.Core.Json.{Json}
use edict.Execution.Kind.{
  OperationKind, RunPhase, RunStatus, TerminalOutcome, OperationStage, BrickkenConfirmationStatus,
}
use edict.Execution.Evidence.{MatchStatus, OnchainTransactionEvidence, TransactionReceiptEvidence}
use edict.Execution.Types.{
  ExecutionManifestSnapshot, ExecutionPlanSnapshot, RequiredSigner, ApprovalProof, AuditEvent,
  ObservationRecord, Operations, ExecutionRunV1,
}
use edict.Fee.Schema.{FeeAuthorization}
use edict.Fee.Evaluation.{FeeRefusal}
use edict.Wallet.Intent.{ImmutableExecutionIdentity, WalletExecutionIntent}

pub data AttemptState : Type 0 where
  prepared stale reprepare_intent prepare_unknown refused : AttemptState

pub data FreshnessStatus : Type 0 where
  fresh stale : FreshnessStatus

pub data StaleReason : Type 0 where
  nonce_mismatch price_report_expired : StaleReason

pub record NonceFreshnessEvidence : Type 0 where
  pub policy_version : String
  pub chain_id : String
  pub required_signer : String
  pub prepared_nonce : String
  pub observed_pending_nonce : String
  pub status : FreshnessStatus
  pub observed_at : String

pub record PreparationAttempt : Type 0 where
  pub attempt_id : String
  pub sequence : ℕ
  pub state : AttemptState
  pub tx_id : Option String
  pub unsigned_transaction : Option Json
  pub preparation_fingerprint : Option String
  pub calldata_commitment : Option String
  pub immutable_identity : Option ImmutableExecutionIdentity
  pub fee_authorization : Option FeeAuthorization
  pub prepared_at : Option String
  pub prepared_run_revision : Option ℕ
  pub freshness_policy_version : String
  pub freshness_evaluated_at : Option String
  pub nonce_freshness_evidence : Option NonceFreshnessEvidence
  pub stale_at : Option String
  pub stale_reason : Option StaleReason

pub data ProviderInvocation : Type 0 where
  proven_not_invoked invoked_or_unknown : ProviderInvocation

pub data UnresolvedOutcome : Type 0 where
  browser_disappeared client_claimed_not_invoked provider_4001 : UnresolvedOutcome
  provider_timeout provider_error hash_persistence_unconfirmed : UnresolvedOutcome

pub record WalletPromptAuthorizationRecord : Type 0 where
  pub wallet_intent : WalletExecutionIntent
  pub wallet_intent_hash : String
  pub provider_invocation : ProviderInvocation
  pub invocation_attempt_id : Option String
  pub authority_released_at : Option String
  pub unresolved_outcome : Option UnresolvedOutcome
  pub unresolved_at : Option String
  pub recorded_at : String

pub data FeeAuthorizationStatus : Type 0 where
  within_envelope policy_violation not_evaluated : FeeAuthorizationStatus

-- `feePolicyViolationCode`: a refusal of the evaluation, or `INVALID_FEE_EVIDENCE`
pub data FeePolicyViolation : Type 0 where
  refused_by : FeeRefusal → FeePolicyViolation
  invalid_fee_evidence : FeePolicyViolation

pub record RpcTransactionAuthorizationEvidence : Type 0 where
  pub observed_at : String
  pub transaction_hash : String
  pub immutable_identity : ImmutableExecutionIdentity
  pub immutable_identity_status : MatchStatus
  pub fee_authorization_status : FeeAuthorizationStatus
  pub fee_policy_violation_code : Option FeePolicyViolation
  pub observed_maximum_network_fee_wei : Option String
  pub observed_priority_fee_per_gas : Option String
  pub observed_gas_limit : Option String
  pub observed_max_fee_per_gas : Option String
  pub observed_transaction_type : Option String

pub data CorrelationResult : Type 0 where
  authorized temporarily_not_found transport_unknown : CorrelationResult

pub record BrickkenCorrelationAttempt : Type 0 where
  pub attempt : ℕ
  pub authorized_at : String
  pub result : CorrelationResult

pub record CorrelationPair : Type 0 where
  pub tx_id : String
  pub tx_hash : String

pub data CorrelationLifecycle : Type 0 where
  pending correlated : CorrelationLifecycle

pub record BrickkenCorrelation : Type 0 where
  pub pair : CorrelationPair
  pub lifecycle : CorrelationLifecycle
  pub attempts : List BrickkenCorrelationAttempt
  pub correlated_at : Option String

pub record BrickkenStatusEvidence : Type 0 where
  pub observed_at : String
  pub tx_id : String
  pub tx_hash : String
  pub status : BrickkenConfirmationStatus

pub record TokenIdentity : Type 0 where
  pub escrow_address : Option String
  pub tokenization_id : Option String
  pub chain_id : String
  pub token_address : String
  pub token_symbol : String
  pub tokenizer_wallet_address : String
  pub tokenization_tx_hash : String
  pub manifest_hash : String
  pub plan_hash : String
  pub verified_at : String
  pub read_back_evidence_hash : String

pub record WriteOperationV4 : Type 0 where
  pub id : String
  pub kind : OperationKind
  pub stage : OperationStage
  pub prepared_tx_id : Option String
  pub unsigned_transaction : Option Json
  pub blockchain_tx_hash : Option String
  pub brickken_status : Option BrickkenConfirmationStatus
  pub brickken_error : Option String
  pub timeout : Bool
  pub prepare_intent_at : Option String
  pub prepared_at : Option String
  pub wallet_prompt_at : Option String
  pub broadcast_at : Option String
  pub confirmed_at : Option String
  pub verified_at : Option String
  pub onchain_transaction_evidence : Option OnchainTransactionEvidence
  pub transaction_receipt_evidence : Option TransactionReceiptEvidence
  pub preparation_attempts : List PreparationAttempt
  pub active_preparation_attempt_id : Option String
  pub wallet_prompt_authorization : Option WalletPromptAuthorizationRecord
  pub rpc_transaction_evidence : Option RpcTransactionAuthorizationEvidence
  pub brickken_correlation : Option BrickkenCorrelation
  pub brickken_status_evidence : List BrickkenStatusEvidence

pub record ApprovalRecordV2 : Type 0 where
  pub plan_hash : String
  pub approved_by_wallet : String
  pub approved_at : String
  pub approval_revision : ℕ
  pub proof : ApprovalProof

pub record ExecutionRunV4 : Type 0 where
  pub id : String
  pub manifest : ExecutionManifestSnapshot
  pub manifest_hash : String
  pub plan : ExecutionPlanSnapshot
  pub plan_hash : String
  pub environment : String
  pub chain_id : String
  pub required_signer : RequiredSigner
  pub phase : RunPhase
  pub status : RunStatus
  pub terminal_outcome : Option TerminalOutcome
  pub approval : ApprovalRecordV2
  pub operations : Operations WriteOperationV4
  pub observations : List ObservationRecord
  pub events : List AuditEvent
  pub receipt_eligible : Bool
  pub created_at : String
  pub updated_at : String
  pub revision : ℕ
  pub token_identity : Option TokenIdentity

-- a run of any schema version
pub data ExecutionRun : Type 0 where
  legacy : ExecutionRunV1 → ExecutionRun
  v4 : ExecutionRunV4 → ExecutionRun
