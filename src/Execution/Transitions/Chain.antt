-- ===== src/Execution/Transitions/Chain.antt =====
-- Evidence of the chain about a broadcast transaction: src/server/execution/transitions.ts,
-- `recordOnchainTransactionEvidence` and `recordTransactionReceiptEvidence`. Freezing an object has
-- no counterpart here: a value of the model never changes.
use edict.Prelude.{
  ◌≡◌, inl, inr, arith, String, Bool, true, false, not, ◌&&◌, ◌||◌, Option, none, some, is_some,
  is_none, str_eq, opt_str_eq, if◌then◌else◌,
}
use edict.Execution.Result.{Result, Result-cases, ok, illegal_state_transition, ◌>>=◌, ◌>>◌, refuse}
use edict.Execution.Kind.{
  OperationKind, RunStatus, TerminalOutcome, reconciliation_required, broadcast_hash_persisted,
  confirmation_submitted, OperationStage, confirmed, stage_eq,
}
use edict.Execution.Evidence.{
  AddressLibrary, MatchStatus, ReconciliationStatus, ExecutionStatus, FinalityStatus,
  OnchainTransactionEvidence, TransactionReceiptEvidence, parse_onchain_transaction_evidence,
  parse_transaction_receipt_evidence,
}
use edict.Execution.Types.{
  SchemaVersion, version1, version2, version3, ExecutionRunV1, ExecutionRunEvent, with_operation,
}
use edict.Execution.Transitions.Base.{op, append_event, assert_not_terminal}

-- `status === "MATCH"`, `=== "CLEAR"`, `=== "REVERTED"`, `=== "FINALIZED"` and
-- `schemaVersion === "3.0"`
abbrev pub is_match : MatchStatus → Bool
is_match MatchStatus.match = true
is_match MatchStatus.mismatch = false

abbrev pub is_clear : ReconciliationStatus → Bool
is_clear ReconciliationStatus.clear = true
is_clear ReconciliationStatus.required = false

abbrev pub is_reverted : ExecutionStatus → Bool
is_reverted ExecutionStatus.success = false
is_reverted ExecutionStatus.reverted = true

abbrev pub is_finalized : FinalityStatus → Bool
is_finalized FinalityStatus.included = false
is_finalized FinalityStatus.finalized = true

abbrev pub is_version3 : SchemaVersion → Bool
is_version3 version1 = false
is_version3 version2 = false
is_version3 version3 = true

-- the evidence contradicts the hash that the wallet returned, or calls for reconciliation
unfoldable pub transaction_mismatch : Option String → OnchainTransactionEvidence → Bool
transaction_mismatch hash evidence =
    not (opt_str_eq hash evidence.returned_hash)
    || not (is_match evidence.comparison_status)
    || not (is_clear evidence.reconciliation_status)

module _ (viem : AddressLibrary) where
  -- the run after accepted evidence of the transaction
  unfoldable pub transaction_effect :
      ExecutionRunV1
      → (id at : String) → OperationKind
      → (given evidence : OnchainTransactionEvidence) → ExecutionRunV1
  transaction_effect run id at kind given evidence =
      let current = op run kind in
      let next = record current { onchain_transaction_evidence = some evidence } in
      append_event
        (record run {
          schema_version = version3;
          operations = with_operation kind next run.operations;
          status =
              if transaction_mismatch current.blockchain_tx_hash evidence
              then reconciliation_required
              else run.status;
        })
        (ExecutionRunEvent.record_onchain_transaction_evidence id at kind given) (some kind)

  unfoldable pub record_onchain_transaction_evidence :
      ExecutionRunV1
      → (id at : String) → OperationKind
      → OnchainTransactionEvidence
      → Result ExecutionRunV1
  record_onchain_transaction_evidence run id at kind given = do
    assert_not_terminal run
    let current = op run kind
    refuse
        (not (stage_eq current.stage broadcast_hash_persisted)
          || is_none current.blockchain_tx_hash)
        illegal_state_transition
    evidence ← parse_onchain_transaction_evidence viem given
    refuse
        (not (str_eq evidence.observed_at at)
          || not (opt_str_eq current.blockchain_tx_hash evidence.requested_hash)
          || is_some current.onchain_transaction_evidence)
        illegal_state_transition
    ok (transaction_effect run id at kind given evidence)

  unfoldable pub same_inclusion : TransactionReceiptEvidence → TransactionReceiptEvidence → Bool
  same_inclusion prior evidence =
      str_eq prior.transaction_hash evidence.transaction_hash
      && str_eq prior.block_hash evidence.block_hash
      && str_eq prior.block_number evidence.block_number
      && str_eq prior.transaction_index evidence.transaction_index

  -- a second receipt only makes an inclusion that is not final yet final
  unfoldable pub receipt_refused :
      Option TransactionReceiptEvidence → TransactionReceiptEvidence → Bool
  receipt_refused none evidence = false
  receipt_refused (some prior) evidence =
      not (same_inclusion prior evidence)
      || is_finalized prior.finality_status
      || not (is_finalized evidence.finality_status)

  unfoldable pub has_receipt_stage : OperationStage → Bool
  has_receipt_stage stage =
      stage_eq stage broadcast_hash_persisted
      || stage_eq stage confirmation_submitted
      || stage_eq stage OperationStage.pending
      || stage_eq stage confirmed

  -- the run after an accepted receipt
  unfoldable pub receipt_effect :
      ExecutionRunV1
      → (id at : String) → OperationKind
      → (given evidence : TransactionReceiptEvidence) → ExecutionRunV1
  receipt_effect run id at kind given evidence =
      let next = record (op run kind) { transaction_receipt_evidence = some evidence } in
      let mismatch =
        not (is_match evidence.identity_status) || not (is_clear evidence.reconciliation_status) in
      let reverted = is_reverted evidence.execution_status in
      append_event
        (record run {
          operations = with_operation kind next run.operations;
          status =
              if mismatch
              then reconciliation_required
              else if reverted
              then RunStatus.failed
              else run.status;
          terminal_outcome = if reverted then some TerminalOutcome.failed else run.terminal_outcome;
        })
        (ExecutionRunEvent.record_transaction_receipt_evidence id at kind given) (some kind)

  unfoldable pub record_transaction_receipt_evidence :
      ExecutionRunV1
      → (id at : String) → OperationKind
      → TransactionReceiptEvidence
      → Result ExecutionRunV1
  record_transaction_receipt_evidence run id at kind given = do
    assert_not_terminal run
    refuse (not (is_version3 run.schema_version)) illegal_state_transition
    let current = op run kind
    refuse
        (not (has_receipt_stage current.stage)
          || is_none current.blockchain_tx_hash
          || is_none current.onchain_transaction_evidence)
        illegal_state_transition
    evidence ← parse_transaction_receipt_evidence viem given
    refuse (not (str_eq evidence.observed_at at)) illegal_state_transition
    refuse (receipt_refused current.transaction_receipt_evidence evidence) illegal_state_transition
    ok (receipt_effect run id at kind given evidence)

  -- What an accepted receipt was found to be.
  pub record_transaction_receipt_evidence-eq_ok :
      (run : ExecutionRunV1) (id at : String) (kind : OperationKind)
      (given : TransactionReceiptEvidence) {next : ExecutionRunV1}
      → record_transaction_receipt_evidence run id at kind given ≡ ok next
      → (evidence : TransactionReceiptEvidence) × (is_some run.terminal_outcome ≡ false)
        × (next ≡ receipt_effect run id at kind given evidence)
  unfolding record_transaction_receipt_evidence
  record_transaction_receipt_evidence-eq_ok run id at kind given h =
      elim (Result-cases (parse_transaction_receipt_evidence viem given)) [
        | inl (evidence, parsed) ↦ (evidence, ground arith, ground arith)
        | inr (e, refused) ↦ ground arith
      ]
