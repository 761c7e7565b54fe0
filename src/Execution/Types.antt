-- ===== src/Execution/Types.antt =====
-- The execution run and its events: src/server/execution/types.ts. A field that may be `null` or
-- absent is an `Option`. The literal types of one text (`"1.0"`, `"EIP712_EOA"`) are kept as texts
-- where the code compares them, and left out where it does not. A field that only runs of schema
-- version 3.0 have is `none` in older runs.
use edict.Prelude.{ℕ, String, Bool, Option, List}
use edict.Core.Json.{Json}
use edict.Execution.Kind.{
  OperationKind, tokenize, whitelist, mint, RunPhase, RunStatus, TerminalOutcome, OperationStage,
  EventActor, BrickkenConfirmationStatus, PreparationFailureCode,
}
use edict.Execution.Evidence.{OnchainTransactionEvidence, TransactionReceiptEvidence}

pub record TokenizerIdentity : Type 0 where
  pub email : Option String
  pub wallet_address : String

pub record AssetSnapshot : Type 0 where
  pub name : String
  pub symbol : String
  pub token_type : String
  pub supply_cap : String
  pub documentation_url : String

pub record InvestorSnapshot : Type 0 where
  pub email : String
  pub wallet_address : String
  pub mint_amount : String

pub record ExecutionManifestSnapshot : Type 0 where
  pub tokenizer : TokenizerIdentity
  pub asset : AssetSnapshot
  pub investor : Option InvestorSnapshot

pub data ExecutionScope : Type 0 where
  tokenize_only legacy_full : ExecutionScope

pub record RequiredSigner : Type 0 where
  pub wallet_address : String

pub record ExecutionPlanSnapshot : Type 0 where
  pub execution_scope : Option ExecutionScope
  pub manifest_hash : String
  pub required_signer : RequiredSigner
  pub plan_hash : String

pub record ApprovalProof : Type 0 where
  pub scheme : String
  pub proof_version : String
  pub domain_version : String
  pub run_id : String
  pub manifest_hash : String
  pub plan_hash : String
  pub environment : String
  pub chain_id : String
  pub approval_revision : ℕ
  pub required_signer : String
  pub recovered_signer : String
  pub challenge_nonce : String
  pub issued_at : String
  pub expires_at : String
  pub verified_at : String
  pub typed_data_digest : String
  pub public_signature : String

-- `ApprovalRecordV1`, and `ApprovalRecordV2` where there is a proof
pub record ApprovalRecord : Type 0 where
  pub plan_hash : String
  pub approved_by_wallet : String
  pub approved_at : String
  pub approval_revision : ℕ
  pub proof : Option ApprovalProof

-- `WriteOperation`, with the two evidence fields of `WriteOperationV3`
pub record WriteOperation : Type 0 where
  pub id : String
  pub kind : OperationKind
  pub stage : OperationStage
  pub prepared_tx_id : Option String
  pub unsigned_transaction : Option Json
  pub blockchain_tx_hash : Option String
  pub brickken_status : Option BrickkenConfirmationStatus
  pub brickken_error : Option String
  pub timeout : Bool
  pub prepare_intent_at : Option String
  pub prepared_at : Option String
  pub wallet_prompt_at : Option String
  pub broadcast_at : Option String
  pub confirmed_at : Option String
  pub verified_at : Option String
  pub onchain_transaction_evidence : Option OnchainTransactionEvidence
  pub transaction_receipt_evidence : Option TransactionReceiptEvidence

pub record AuditEvent : Type 0 where
  pub id : String
  pub sequence : ℕ
  pub type : String
  pub at : String
  pub actor : EventActor
  pub operation_kind : Option OperationKind

pub record ObservationRecord : Type 0 where
  pub operation_kind : OperationKind
  pub read : String
  pub at : String

-- the tuple of three operations
pub record Operations {ℓ} (O : Type ℓ) : Type ℓ where
  pub op0 : O
  pub op1 : O
  pub op2 : O

pub data SchemaVersion : Type 0 where
  version1 version2 version3 : SchemaVersion

-- a run of schema version 1.0, 2.0 or 3.0
pub record ExecutionRunV1 : Type 0 where
  pub schema_version : SchemaVersion
  pub id : String
  pub manifest : ExecutionManifestSnapshot
  pub manifest_hash : String
  pub plan : ExecutionPlanSnapshot
  pub plan_hash : String
  pub environment : String
  pub chain_id : String
  pub required_signer : RequiredSigner
  pub phase : RunPhase
  pub status : RunStatus
  pub terminal_outcome : Option TerminalOutcome
  pub approval : Option ApprovalRecord
  pub operations : Operations WriteOperation
  pub observations : List ObservationRecord
  pub events : List AuditEvent
  pub receipt_eligible : Bool
  pub created_at : String
  pub updated_at : String
  pub revision : ℕ

-- `operations[index]`, with `operationIndex` and `indexFor` folded in
abbrev pub operation_at {ℓ} : {O : Type ℓ} → OperationKind → Operations O → O
operation_at tokenize ops = ops.op0
operation_at whitelist ops = ops.op1
operation_at mint ops = ops.op2

-- `operations[index] = operation`
abbrev pub with_operation {ℓ} : {O : Type ℓ} → OperationKind → O → Operations O → Operations O
with_operation tokenize o ops = record ops { op0 = o }
with_operation whitelist o ops = record ops { op1 = o }
with_operation mint o ops = record ops { op2 = o }

pub data ExecutionRunEvent : Type 0 where
  approve_plan : (id at plan_hash approved_by_wallet : String) → ApprovalProof → ExecutionRunEvent
  cancel_run : (id at : String) → ExecutionRunEvent
  begin_prepare : (id at : String) → OperationKind → ExecutionRunEvent
  record_prepared :
      (id at : String)
      → OperationKind
      → (tx_id : Json) (unsigned_transaction : Json) → ExecutionRunEvent
  record_prepare_unknown :
      (id at : String) → OperationKind → Option PreparationFailureCode → ExecutionRunEvent
  record_prepare_failure :
      (id at : String) → OperationKind → Option PreparationFailureCode → ExecutionRunEvent
  record_prepare_interrupted :
      (id at : String) → OperationKind → Option PreparationFailureCode → ExecutionRunEvent
  record_wallet_prompt : (id at : String) → OperationKind → ExecutionRunEvent
  record_wallet_rejection : (id at : String) → OperationKind → ExecutionRunEvent
  record_broadcast_hash : (id at : String) → OperationKind → (tx_hash : String) → ExecutionRunEvent
  record_broadcast_unknown : (id at : String) → OperationKind → ExecutionRunEvent
  record_onchain_transaction_evidence :
      (id at : String) → OperationKind → OnchainTransactionEvidence → ExecutionRunEvent
  record_transaction_receipt_evidence :
      (id at : String) → OperationKind → TransactionReceiptEvidence → ExecutionRunEvent
  submit_confirmation : (id at : String) → OperationKind → ExecutionRunEvent
  record_pending : (id at : String) → OperationKind → ExecutionRunEvent
  record_confirm_transport_failure : (id at : String) → OperationKind → ExecutionRunEvent
  record_confirmed : (id at : String) → OperationKind → ExecutionRunEvent
  record_rejected : (id at : String) → OperationKind → (error : String) → ExecutionRunEvent
  record_poll_timeout : (id at : String) → OperationKind → ExecutionRunEvent
  record_read_back_verified : (id at : String) → OperationKind → (read : String) → ExecutionRunEvent
  record_read_back_mismatch : (id at : String) → OperationKind → ExecutionRunEvent
  record_final_verification : (id at : String) → ExecutionRunEvent
