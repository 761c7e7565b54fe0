-- ===== src/Rpc/Agreement.antt =====
-- How the evidence that `evaluateReceiptAndFinality` of src/server/rpc/finality.ts makes is read by
-- `recordRpcReceiptEvidenceV4` and `recordLifecycleReadBackV4` of
-- src/server/execution/v4-transitions.ts.
use edict.Prelude.{◌≡◌, inl, inr, Bool, true, false, ◌&&◌, Option, none, some, arith, Bool-cases}
use edict.Execution.Result.{Result-cases, ok}
use edict.Execution.Evidence.{
  AddressLibrary, TransactionReceiptEvidence, parse_transaction_receipt_evidence,
}
use edict.Execution.V4.Rpc.{contradicts}
use edict.Execution.V4.ReadBack.{is_final_success}
use edict.Rpc.Types.{
  ReceiptStatus, NormalizedRpcReceipt, NormalizedRpcBlock, ReceiptFinalityEvaluation, RpcClient,
}
use edict.Rpc.Finality.{
  EvaluateReceiptAndFinalityInput, is_canonical_block, is_finalized_axis, evaluate_contradiction,
  evaluate_canonical, evaluate_receipt, evaluate_receipt_and_finality,
}

abbrev pub is_success_axis : ReceiptStatus → Bool
is_success_axis ReceiptStatus.success = true
is_success_axis _ = false

-- the readings of version 4.0 are those of the axes
abbrev pub Agrees : ReceiptFinalityEvaluation → TransactionReceiptEvidence → Type 0
Agrees e evidence =
    (contradicts evidence ≡ e.reconciliation_required)
    × (is_final_success evidence
        ≡ (is_success_axis e.receipt_status && is_finalized_axis e.finality))

module _ (viem : AddressLibrary) (client : RpcClient)
    (input : EvaluateReceiptAndFinalityInput) where
  contradiction-Agrees :
      (receipt : NormalizedRpcReceipt) (block : Option NormalizedRpcBlock)
      {e : ReceiptFinalityEvaluation} {evidence : TransactionReceiptEvidence}
      → evaluate_contradiction viem client input receipt block ≡ ok e
      → e.evidence ≡ some evidence
      → Agrees e evidence
  unfolding evaluate_contradiction parse_transaction_receipt_evidence
  contradiction-Agrees receipt block done has = (ground arith, ground arith)

  canonical-Agrees :
      (receipt : NormalizedRpcReceipt) (block : Option NormalizedRpcBlock)
      {e : ReceiptFinalityEvaluation} {evidence : TransactionReceiptEvidence}
      → evaluate_canonical viem client input receipt block ≡ ok e
      → e.evidence ≡ some evidence
      → Agrees e evidence
  unfolding evaluate_canonical parse_transaction_receipt_evidence
  canonical-Agrees receipt block done has = (ground arith, ground arith)

  -- The two readings of the evidence in version 4.0 are those of the evaluation that made it: the
  -- evidence contradicts the operation if and only if the evaluation calls for reconciliation, and
  -- it is of a success in a final block if and only if the receipt's status is success and its
  -- finality is final.
  pub evaluation-Agrees :
      {e : ReceiptFinalityEvaluation} {evidence : TransactionReceiptEvidence}
      → evaluate_receipt_and_finality viem client input ≡ ok e
      → e.evidence ≡ some evidence
      → Agrees e evidence
  unfolding evaluate_receipt_and_finality evaluate_receipt
  evaluation-Agrees {e} done has =
      elim (Result-cases (client.get_transaction_receipt input.tx_hash)) [
        | inr (thrown, failed) ↦ (ground arith, ground arith)
        | inl (none, found) ↦ (ground arith, ground arith)
        | inl (some receipt, found) ↦
            elim (Result-cases (client.get_block_by_number receipt.block_number)) [
              | inr (thrown, failed) ↦ (ground arith, ground arith)
              | inl (block, at_number) ↦ elim (Bool-cases (is_canonical_block block receipt)) [
                | inl canonical ↦ canonical-Agrees receipt block {e = e} (ground arith) has
                | inr other ↦ contradiction-Agrees receipt block {e = e} (ground arith) has
              ]
            ]
      ]
