-- ===== src/Execution/V4/RunSteps/Rpc.antt =====
-- The transitions on the node's evidence are steps.
use edict.Prelude.{
  ◌≡◌, refl, inl, inr, String, Option, none, some, arith, Option-cases, Bool-cases, str_eq_iff, ◌∙◌,
}
use edict.Execution.Result.{Result-cases, ok}
use edict.Execution.Kind.{
  OperationKind, broadcast_hash_persisted, rpc_transaction_reconciliation_required,
  reconciliation_required, stage_eq_iff,
}
use edict.Execution.Evidence.{
  AddressLibrary, TransactionReceiptEvidence, parse_transaction_receipt_evidence,
}
use edict.Fee.Schema.{FeeAuthorization, RawFeeFields}
use edict.Fee.Evaluation.{FeeAuthorizationDecision, accepted, refused, evaluate_fee_authorization}
use edict.Wallet.Intent.{ImmutableExecutionIdentity, is_observed_identity, same_identity}
use edict.Execution.V4.Types.{ExecutionRunV4, PreparationAttempt}
use edict.Execution.V4.Contracts.{is_incoherent_evidence}
use edict.Execution.V4.Base.{op_v4, active_attempt}
use edict.Execution.V4.Rpc
use edict.Execution.V4.Steps.{OpStep}
use edict.Execution.V4.RunSteps.{RunStep, replace_operation_v4-RunStep}

module _ (run : ExecutionRunV4) (kind : OperationKind) (tx_hash : String)
    (stage : (op_v4 run kind).stage ≡ broadcast_hash_persisted)
    (hash : (op_v4 run kind).blockchain_tx_hash ≡ some tx_hash) where
  fee_effect-RunStep :
      (observed : ImmutableExecutionIdentity) (raw : RawFeeFields) (id at : String)
      (decision : Option FeeAuthorizationDecision) {next : ExecutionRunV4}
      → next ≡ Rpc.fee_effect run kind tx_hash observed raw id at decision
      → RunStep run next kind
  unfolding Rpc.fee_effect is_incoherent_evidence
  fee_effect-RunStep observed raw id at none e =
      replace_operation_v4-RunStep _ _ _ _ _ e refl refl refl
        (OpStep.is_observed tx_hash _ _ stage hash refl refl (inr (inl refl)) refl)
  fee_effect-RunStep observed raw id at (some (refused code)) e =
      replace_operation_v4-RunStep _ _ _ _ _ e refl refl refl
        (OpStep.is_observed tx_hash _ _ stage hash refl refl (inr (inl refl)) refl)
  fee_effect-RunStep observed raw id at (some (accepted maximum)) e =
      replace_operation_v4-RunStep _ _ _ _ _ e refl refl refl
        (OpStep.is_observed tx_hash _ _ stage hash refl refl (inr (inr refl)) refl)

  record_rpc_transaction_effect-RunStep :
      (prepared observed : ImmutableExecutionIdentity) (fee : FeeAuthorization) (raw : RawFeeFields)
      (id at : String) {next : ExecutionRunV4}
      → next ≡ Rpc.record_rpc_transaction_effect run kind tx_hash prepared observed fee raw id at
      → RunStep run next kind
  unfolding Rpc.record_rpc_transaction_effect is_incoherent_evidence
  record_rpc_transaction_effect-RunStep prepared observed fee raw id at {next} e =
      elim (Bool-cases (is_observed_identity observed)) [
        | inr unreadable ↦
            let e0 : next
                ≡ Rpc.with_rpc_transaction run kind reconciliation_required
                    rpc_transaction_reconciliation_required
                    (op_v4 run kind).rpc_transaction_evidence "RECORD_RPC_TRANSACTION_MISMATCH" id
                    at =
              e ∙ rw unreadable in
            replace_operation_v4-RunStep _ _ _ _ _ e0 refl refl refl
              (OpStep.is_unreadable tx_hash stage hash refl)
        | inl readable ↦ elim (Bool-cases (same_identity observed prepared)) [
          | inr other ↦
              let e1 : next
                  ≡ Rpc.with_rpc_transaction run kind reconciliation_required
                      rpc_transaction_reconciliation_required
                      (some (Rpc.mismatched_evidence tx_hash at observed))
                      "RECORD_RPC_TRANSACTION_MISMATCH" id at =
                e ∙ rw (readable, other) in
              replace_operation_v4-RunStep _ _ _ _ _ e1 refl refl refl
                (OpStep.is_observed tx_hash _ _ stage hash refl refl (inl refl) refl)
          | inl same ↦
              fee_effect-RunStep observed raw id at
                (Rpc.decision_of (evaluate_fee_authorization fee raw)) (e ∙ rw (readable, same))
        ]
      ]

-- What an accepted transaction of the node was compared with.
pub record_rpc_transaction-eq_ok :
    (run : ExecutionRunV4) (kind : OperationKind) (tx_hash : String)
    (observed : ImmutableExecutionIdentity) (raw : RawFeeFields) (id at : String)
    {next : ExecutionRunV4}
    → Rpc.record_rpc_transaction run kind tx_hash observed raw id at ≡ ok next
    → (attempt : PreparationAttempt) × (prepared : ImmutableExecutionIdentity)
      × (fee : FeeAuthorization) × (active_attempt (op_v4 run kind) ≡ ok attempt)
      × (attempt.immutable_identity ≡ some prepared)
      × (attempt.fee_authorization ≡ some fee)
      × ((op_v4 run kind).stage ≡ broadcast_hash_persisted)
      × ((op_v4 run kind).blockchain_tx_hash ≡ some tx_hash)
      × (next ≡ Rpc.record_rpc_transaction_effect run kind tx_hash prepared observed fee raw id at)
unfolding Rpc.record_rpc_transaction
record_rpc_transaction-eq_ok run kind tx_hash observed raw id at h =
    let o = op_v4 run kind in
    elim (Result-cases (active_attempt o)) [
      | inr (e, failed) ↦ ground arith
      | inl (attempt, found) ↦ elim (Option-cases attempt.immutable_identity) [
        | inl missing ↦ ground arith
        | inr (prepared, identified) ↦ elim (Option-cases attempt.fee_authorization) [
          | inl missing ↦ ground arith
          | inr (fee, paid) ↦ elim (Option-cases o.blockchain_tx_hash) [
            | inl missing ↦ ground arith
            | inr (hash, broadcast) ↦ (
              attempt,
              prepared,
              fee,
              found,
              identified,
              paid,
              ground (arith, stage_eq_iff o.stage broadcast_hash_persisted),
              ground (arith, str_eq_iff hash tx_hash),
              ground arith,
            )
          ]
        ]
      ]
    ]

pub record_rpc_transaction-RunStep :
    (run : ExecutionRunV4) (kind : OperationKind) (tx_hash : String)
    (observed : ImmutableExecutionIdentity) (raw : RawFeeFields) (id at : String)
    {next : ExecutionRunV4}
    → Rpc.record_rpc_transaction run kind tx_hash observed raw id at ≡ ok next
    → RunStep run next kind
record_rpc_transaction-RunStep run kind tx_hash observed raw id at h =
    let facts = record_rpc_transaction-eq_ok run kind tx_hash observed raw id at h in
    record_rpc_transaction_effect-RunStep run kind tx_hash facts.6 facts.7 facts.1 observed facts.2
      raw id at facts.8

pub record_rpc_receipt_evidence-RunStep :
    (viem : AddressLibrary) (run : ExecutionRunV4) (kind : OperationKind)
    (given : TransactionReceiptEvidence) (id : String) {next : ExecutionRunV4}
    → Rpc.record_rpc_receipt_evidence viem run kind given id ≡ ok next
    → RunStep run next kind
unfolding Rpc.record_rpc_receipt_evidence Rpc.record_rpc_receipt_evidence_effect
record_rpc_receipt_evidence-RunStep viem run kind given id {next} h =
    let o = op_v4 run kind in
    elim (Result-cases (parse_transaction_receipt_evidence viem given)) [
      | inr (e, failed) ↦ ground arith
      | inl (receipt, parsed) ↦ elim (Option-cases o.rpc_transaction_evidence) [
        | inl missing ↦ ground arith
        | inr (rpc, observed) ↦ elim (Option-cases o.blockchain_tx_hash) [
          | inl missing ↦ ground arith
          | inr (hash, broadcast) ↦
              let e : next ≡ Rpc.record_rpc_receipt_evidence_effect viem run kind rpc receipt id =
                ground arith in
              replace_operation_v4-RunStep _ _ _ _ _ e refl refl refl (
                OpStep.has_receipt rpc receipt (ground arith) observed
                  (ground (arith, str_eq_iff hash receipt.transaction_hash)) refl)
        ]
      ]
    ]
