-- ===== src/Execution/Transitions/Decisions.antt =====
-- When the decisive events are accepted: approval, cancellation, read-back.
use edict.Prelude.{◌≡◌, ◌≢◌, ◌↔◌, true, false, none, some, arith, String, str_eq_iff}
use edict.Text.{lower}
use edict.Execution.Result.{ok, is_ok}
use edict.Execution.Kind.{
  OperationKind, tokenize, whitelist, mint, RunPhase, preparing, reconciliation_required,
  status_eq_iff,
}
use edict.Execution.Evidence.{
  AddressLibrary, MatchStatus, ReconciliationStatus, ExecutionStatus, FinalityStatus,
  TransactionReceiptEvidence,
}
use edict.Execution.Types.{ApprovalProof, ExecutionRunV1, ExecutionRunEvent, version3}
use edict.Execution.Transitions.Base.{op, has_any_broadcast_hash, run_is_canonical}
use edict.Execution.Transitions.Preparation.{approve_effect, proof_mismatch}
use edict.Execution.Transitions.Confirmation.{receipt_unproven}
use edict.Execution.Transitions.Apply.{apply_run_event, dispatch}

-- What the proof of an approval says of the run.
pub record ProofOf (run : ExecutionRunV1) (proof : ApprovalProof) (at : String) : Type 0 where
  pub scheme : proof.scheme ≡ "EIP712_EOA"
  pub run_id : proof.run_id ≡ run.id
  pub manifest_hash : proof.manifest_hash ≡ run.manifest_hash
  pub plan_hash : proof.plan_hash ≡ run.plan_hash
  pub environment : proof.environment ≡ run.environment
  pub chain_id : proof.chain_id ≡ run.chain_id
  pub approval_revision : proof.approval_revision ≡ run.revision
  pub required_signer : proof.required_signer ≡ run.required_signer.wallet_address
  pub recovered_signer : proof.recovered_signer ≡ run.required_signer.wallet_address
  pub verified_at : proof.verified_at ≡ at

proof_mismatch-ProofOf :
    (run : ExecutionRunV1) (proof : ApprovalProof) (wallet at : String)
    → proof_mismatch run proof wallet at ≡ false
    → wallet ≡ run.required_signer.wallet_address
    → ProofOf run proof at
unfolding proof_mismatch
proof_mismatch-ProofOf run proof wallet at h e = ground (
  arith,
  str_eq_iff proof.scheme "EIP712_EOA",
  str_eq_iff proof.run_id run.id,
  str_eq_iff proof.manifest_hash run.manifest_hash,
  str_eq_iff proof.plan_hash run.plan_hash,
  str_eq_iff proof.environment run.environment,
  str_eq_iff proof.chain_id run.chain_id,
  str_eq_iff proof.required_signer run.required_signer.wallet_address,
  str_eq_iff proof.recovered_signer wallet,
  str_eq_iff proof.verified_at at,
)

without_hashes :
    (run : ExecutionRunV1)
    → has_any_broadcast_hash run ≡ false
    → (kind : OperationKind) → (op run kind).blockchain_tx_hash ≡ none
without_hashes run h tokenize = ground arith
without_hashes run h whitelist = ground arith
without_hashes run h mint = ground arith

module _ (viem : AddressLibrary) where
  -- Where an approval is accepted, the proof names this run, its manifest, plan, environment, chain
  -- and revision; the signer that it recovered is the signer that the run requires; and the run
  -- records the approval of its own plan, at its own revision, with that proof, and moves to the
  -- phase of tokenization.
  pub approve_sound :
      (run : ExecutionRunV1) (id at plan_hash approved_by : String) (proof : ApprovalProof)
      {next : ExecutionRunV1}
      → apply_run_event viem run (ExecutionRunEvent.approve_plan id at plan_hash approved_by proof)
        ≡ ok next
      → ProofOf run proof at
        × (plan_hash ≡ run.plan_hash)
        × (next.approval
            ≡ some (record {
              plan_hash = run.plan_hash;
              approved_by_wallet = run.required_signer.wallet_address;
              approved_at = at;
              approval_revision = run.revision;
              proof = some proof;
            }))
        × (next.phase ≡ RunPhase.tokenization)
        × (next.status ≡ preparing)
  unfolding apply_run_event dispatch approve_effect
  approve_sound run id at plan_hash approved_by proof h =
      let signer = run.required_signer.wallet_address in
      let wallet : lower approved_by ≡ signer =
        ground (arith, str_eq_iff (lower approved_by) signer) in
      let clean : proof_mismatch run proof (lower approved_by) at ≡ false = ground arith in
      (
        proof_mismatch-ProofOf run proof (lower approved_by) at clean wallet,
        ground (arith, str_eq_iff plan_hash run.plan_hash),
        ground arith,
        ground arith,
        ground arith,
      )

  -- A run whose data is JSON can be cancelled exactly while it has no terminal outcome, its status is
  -- not that of a run that waits for reconciliation, and none of its three operations has a broadcast
  -- hash.
  pub cancel_iff :
      (run : ExecutionRunV1) (id at : String)
      → run_is_canonical run ≡ true
      → (is_ok (apply_run_event viem run (ExecutionRunEvent.cancel_run id at)) ≡ true) ↔ (
          (run.terminal_outcome ≡ none)
          × (run.status ≢ reconciliation_required)
          × ((kind : OperationKind) → (op run kind).blockchain_tx_hash ≡ none))
  unfolding apply_run_event dispatch
  cancel_iff run id at c =
      let waits = status_eq_iff run.status reconciliation_required in
      (
        λ h. (ground arith, (λ e. ground (arith, waits)), without_hashes run (ground arith)),
        λ (open_run, calm, hashes).
            let h0 = hashes tokenize in
            let h1 = hashes whitelist in let h2 = hashes mint in ground (arith, waits),
      )

  -- The receipt says that the transaction succeeded, is the expected one and is final.
  abbrev pub IsProven : TransactionReceiptEvidence → Type 0
  IsProven receipt =
      (receipt.execution_status ≡ ExecutionStatus.success)
      × (receipt.identity_status ≡ MatchStatus.match)
      × (receipt.finality_status ≡ FinalityStatus.finalized)
      × (receipt.reconciliation_status ≡ ReconciliationStatus.clear)

  receipt_unproven-IsProven :
      (run : ExecutionRunV1) (kind : OperationKind)
      → receipt_unproven (op run kind).transaction_receipt_evidence ≡ false
      → (receipt : TransactionReceiptEvidence) × ((op run kind).transaction_receipt_evidence
          ≡ some receipt)
        × IsProven receipt
  unfolding receipt_unproven
  receipt_unproven-IsProven run kind h = ground arith

  -- In a run of version 3.0 an operation is verified by read-back only on a receipt that shows
  -- success of the expected transaction in a finalized block, with nothing left to reconcile.
  pub read_back_needs_receipt :
      (run : ExecutionRunV1) (id at : String) (kind : OperationKind) (read : String)
      {next : ExecutionRunV1}
      → run.schema_version ≡ version3
      → apply_run_event viem run (ExecutionRunEvent.record_read_back_verified id at kind read)
        ≡ ok next
      → (receipt : TransactionReceiptEvidence) × ((op run kind).transaction_receipt_evidence
          ≡ some receipt)
        × IsProven receipt
  unfolding apply_run_event dispatch
  read_back_needs_receipt run id at kind read v h =
      receipt_unproven-IsProven run kind (ground arith)
