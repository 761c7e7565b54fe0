-- ===== src/Execution/Transitions/Guards.antt =====
-- What an accepted event tells: the Boolean guards of the transitions read as equations, and the
-- run that results. Invariants are proved from these facts.
use edict.Prelude.{◌≡◌, ◌⊎◌, inl, inr, false, none, arith, String, is_some, Option-cases}
use edict.Text.{lower}
use edict.Core.Json.{Json, json_clone}
use edict.Execution.Result.{ok, Result-cases}
use edict.Execution.Kind.{
  OperationKind, tokenize, whitelist, mint, RunPhase, awaiting_approval, not_started,
  prepare_intent, prepared, wallet_prompt_recorded, wallet_rejected, broadcast_hash_persisted,
  confirmation_submitted, OperationStage, confirmed, read_back_verified, phase_eq_iff,
  status_eq_iff, stage_eq_iff,
}
use edict.Execution.Evidence.{
  AddressLibrary, OnchainTransactionEvidence, TransactionReceiptEvidence,
  parse_onchain_transaction_evidence, parse_transaction_receipt_evidence,
}
use edict.Execution.Types.{ExecutionRunV1, ExecutionRunEvent}
use edict.Execution.Transitions.Base.{op, phase_for_kind, needs_reconciliation}
use edict.Execution.Transitions.Preparation.{
  approve_effect, cancel_effect, begin_prepare_effect, record_prepared_effect,
  record_prepare_unknown_effect, record_prepare_failure_effect, record_prepare_interrupted_effect,
  tx_id_text,
}
use edict.Execution.Transitions.Wallet.{
  record_wallet_prompt_effect, record_wallet_rejection_effect, record_broadcast_hash_effect,
  record_broadcast_unknown_effect,
}
use edict.Execution.Transitions.Chain.{transaction_effect, receipt_effect, has_receipt_stage}
use edict.Execution.Transitions.Confirmation.{
  submit_confirmation_effect, record_pending_effect, record_confirm_transport_failure_effect,
  record_confirmed_effect, record_rejected_effect, record_poll_timeout_effect,
  record_read_back_verified_effect, record_read_back_mismatch_effect,
  record_final_verification_effect, is_confirming, all_verified,
}
use edict.Execution.Transitions.Apply.{dispatch}

-- To unfold this is to unfold the run that each transition results in.
unfoldable pub effects : Unit {0}
unfolding approve_effect cancel_effect begin_prepare_effect record_prepared_effect
    record_prepare_unknown_effect record_prepare_failure_effect record_prepare_interrupted_effect
    record_wallet_prompt_effect record_wallet_rejection_effect record_broadcast_hash_effect
    record_broadcast_unknown_effect transaction_effect receipt_effect submit_confirmation_effect
    record_pending_effect record_confirm_transport_failure_effect record_confirmed_effect
    record_rejected_effect record_poll_timeout_effect record_read_back_verified_effect
    record_read_back_mismatch_effect record_final_verification_effect
effects = tt

-- The run is open: it has no terminal outcome, and waits for no reconciliation.
abbrev pub IsOpen : ExecutionRunV1 → Type 0
IsOpen run = is_some run.terminal_outcome ≡ false

abbrev pub IsUnblocked : ExecutionRunV1 → Type 0
IsUnblocked run = IsOpen run × (needs_reconciliation run ≡ false)

abbrev pub StageIs : ExecutionRunV1 → OperationKind → OperationStage → Type 0
StageIs run kind stage = (op run kind).stage ≡ stage

abbrev pub Predecessor : ExecutionRunV1 → OperationKind → Type 0
Predecessor run tokenize = Unit
Predecessor run whitelist = StageIs run tokenize read_back_verified
Predecessor run mint = StageIs run whitelist read_back_verified

abbrev pub IsConfirming : ExecutionRunV1 → OperationKind → Type 0
IsConfirming run kind =
    StageIs run kind confirmation_submitted ⊎ StageIs run kind OperationStage.pending

abbrev pub HasReceiptStage : ExecutionRunV1 → OperationKind → Type 0
HasReceiptStage run kind =
    StageIs run kind broadcast_hash_persisted
    ⊎ StageIs run kind confirmation_submitted
    ⊎ StageIs run kind OperationStage.pending
    ⊎ StageIs run kind confirmed

module _ (viem : AddressLibrary) (run : ExecutionRunV1) (next : ExecutionRunV1) where
  abbrev pub Accepted : ExecutionRunEvent → Type 0
  Accepted (ExecutionRunEvent.approve_plan id at plan_hash approved_by proof) =
      (run.phase ≡ RunPhase.plan)
      × (run.status ≡ awaiting_approval)
      × (run.approval ≡ none)
      × ((wallet : String) × (next ≡ approve_effect run id at plan_hash approved_by proof wallet))
  Accepted (ExecutionRunEvent.record_prepared id at kind tx_id unsigned) =
      IsUnblocked run
      × StageIs run kind prepare_intent
      × ((tx : String) × (cloned : Json) × (next
            ≡ record_prepared_effect run id at kind tx_id unsigned tx cloned))
  Accepted (ExecutionRunEvent.record_onchain_transaction_evidence id at kind given) =
      IsOpen run
      × StageIs run kind broadcast_hash_persisted
      × ((evidence : OnchainTransactionEvidence) × (next
            ≡ transaction_effect viem run id at kind given evidence))
  Accepted (ExecutionRunEvent.record_transaction_receipt_evidence id at kind given) =
      IsOpen run
      × HasReceiptStage run kind
      × ((evidence : TransactionReceiptEvidence) × (parse_transaction_receipt_evidence viem given
            ≡ ok evidence)
          × (next ≡ receipt_effect viem run id at kind given evidence))
  Accepted (ExecutionRunEvent.cancel_run id at) = IsUnblocked run × (next ≡ cancel_effect run id at)
  Accepted (ExecutionRunEvent.begin_prepare id at kind) =
      IsUnblocked run
      × (run.phase ≡ phase_for_kind kind)
      × (Predecessor run kind)
      × (StageIs run kind not_started)
      × (next ≡ begin_prepare_effect run id at kind)
  Accepted (ExecutionRunEvent.record_prepare_unknown id at kind code) =
      IsUnblocked run
      × (StageIs run kind prepare_intent)
      × (next ≡ record_prepare_unknown_effect run id at kind code)
  Accepted (ExecutionRunEvent.record_prepare_failure id at kind code) =
      IsUnblocked run
      × (StageIs run kind prepare_intent)
      × (next ≡ record_prepare_failure_effect run id at kind code)
  Accepted (ExecutionRunEvent.record_prepare_interrupted id at kind code) =
      IsUnblocked run
      × (StageIs run kind prepare_intent)
      × (next ≡ record_prepare_interrupted_effect run id at kind code)
  Accepted (ExecutionRunEvent.record_wallet_prompt id at kind) =
      IsUnblocked run
      × (StageIs run kind prepared ⊎ StageIs run kind wallet_rejected)
      × (next ≡ record_wallet_prompt_effect run id at kind)
  Accepted (ExecutionRunEvent.record_wallet_rejection id at kind) =
      IsUnblocked run
      × (StageIs run kind wallet_prompt_recorded)
      × (next ≡ record_wallet_rejection_effect run id at kind)
  Accepted (ExecutionRunEvent.record_broadcast_hash id at kind tx_hash) =
      IsUnblocked run
      × (StageIs run kind wallet_prompt_recorded)
      × (next ≡ record_broadcast_hash_effect run id at kind tx_hash)
  Accepted (ExecutionRunEvent.record_broadcast_unknown id at kind) =
      IsUnblocked run
      × (StageIs run kind wallet_prompt_recorded)
      × (next ≡ record_broadcast_unknown_effect run id at kind)
  Accepted (ExecutionRunEvent.submit_confirmation id at kind) =
      IsUnblocked run
      × (StageIs run kind broadcast_hash_persisted)
      × (next ≡ submit_confirmation_effect run id at kind)
  Accepted (ExecutionRunEvent.record_pending id at kind) =
      IsUnblocked run × (IsConfirming run kind) × (next ≡ record_pending_effect run id at kind)
  Accepted (ExecutionRunEvent.record_confirm_transport_failure id at kind) =
      IsUnblocked run
      × (StageIs run kind confirmation_submitted)
      × (next ≡ record_confirm_transport_failure_effect run id at kind)
  Accepted (ExecutionRunEvent.record_confirmed id at kind) =
      IsUnblocked run × (IsConfirming run kind) × (next ≡ record_confirmed_effect run id at kind)
  Accepted (ExecutionRunEvent.record_rejected id at kind error) =
      IsUnblocked run
      × (IsConfirming run kind)
      × (next ≡ record_rejected_effect run id at kind error)
  Accepted (ExecutionRunEvent.record_poll_timeout id at kind) =
      IsUnblocked run
      × (StageIs run kind OperationStage.pending)
      × (next ≡ record_poll_timeout_effect run id at kind)
  Accepted (ExecutionRunEvent.record_read_back_verified id at kind read) =
      IsUnblocked run
      × (StageIs run kind confirmed)
      × (next ≡ record_read_back_verified_effect run id at kind read)
  Accepted (ExecutionRunEvent.record_read_back_mismatch id at kind) =
      IsUnblocked run
      × (StageIs run kind confirmed)
      × (next ≡ record_read_back_mismatch_effect run id at kind)
  Accepted (ExecutionRunEvent.record_final_verification id at) =
      IsUnblocked run
      × (run.phase ≡ RunPhase.verification)
      × (StageIs run tokenize read_back_verified)
      × (StageIs run whitelist read_back_verified)
      × (StageIs run mint read_back_verified)
      × (next ≡ record_final_verification_effect run id at)

module _ (viem : AddressLibrary) where
  pub dispatch-Accepted :
      (run : ExecutionRunV1) (event : ExecutionRunEvent) {next : ExecutionRunV1}
      → dispatch viem run event ≡ ok next
      → Accepted viem run next event
  unfolding dispatch has_receipt_stage is_confirming all_verified
  dispatch-Accepted run (ExecutionRunEvent.approve_plan id at plan_hash approved_by proof) h = (
    ground (arith, phase_eq_iff run.phase RunPhase.plan),
    ground (arith, status_eq_iff run.status awaiting_approval),
    ground arith,
    (lower approved_by, ground arith),
  )
  dispatch-Accepted run (ExecutionRunEvent.record_prepared id at kind tx_id unsigned) h =
      elim (Option-cases (tx_id_text tx_id)) [
        | inl missing ↦ ground arith
        | inr (tx, given) ↦ elim (Result-cases (json_clone unsigned)) [
          | inl (cloned, same) ↦ (
            ground arith,
            ground (arith, stage_eq_iff (op run kind).stage prepare_intent),
            (tx, cloned, ground arith),
          )
          | inr (e, refused) ↦ ground arith
        ]
      ]
  dispatch-Accepted run (ExecutionRunEvent.record_onchain_transaction_evidence id at kind given) h =
      elim (Result-cases (parse_onchain_transaction_evidence viem given)) [
        | inl (evidence, parsed) ↦ (
          ground arith,
          ground (arith, stage_eq_iff (op run kind).stage broadcast_hash_persisted),
          (evidence, ground arith),
        )
        | inr (e, refused) ↦ ground arith
      ]
  dispatch-Accepted run (ExecutionRunEvent.record_transaction_receipt_evidence id at kind given) h =
      let stage = (op run kind).stage in
      elim (Result-cases (parse_transaction_receipt_evidence viem given)) [
        | inl (evidence, parsed) ↦ (
          ground arith,
          ground (
            arith,
            stage_eq_iff stage broadcast_hash_persisted,
            stage_eq_iff stage confirmation_submitted,
            stage_eq_iff stage OperationStage.pending,
            stage_eq_iff stage confirmed,
          ),
          (evidence, parsed, ground arith),
        )
        | inr (e, refused) ↦ ground arith
      ]
  dispatch-Accepted run (ExecutionRunEvent.begin_prepare _ _ kind) h = ground (
    arith,
    phase_eq_iff run.phase (phase_for_kind kind),
    stage_eq_iff (op run kind).stage not_started,
    stage_eq_iff (op run tokenize).stage read_back_verified,
    stage_eq_iff (op run whitelist).stage read_back_verified,
  )
  dispatch-Accepted run (ExecutionRunEvent.record_final_verification _ _) h = ground (
    arith,
    phase_eq_iff run.phase RunPhase.verification,
    stage_eq_iff (op run tokenize).stage read_back_verified,
    stage_eq_iff (op run whitelist).stage read_back_verified,
    stage_eq_iff (op run mint).stage read_back_verified,
  )
  dispatch-Accepted run event h = grind (arith, stage_eq_iff)
