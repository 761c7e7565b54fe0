-- ===== src/Rpc/Inclusion.antt =====
-- What evidence of a receipt that the read-back of version 4.0 accepts says about the node's
-- answers: `evaluateReceiptAndFinality` of src/server/rpc/finality.ts composed with the guard of
-- `recordLifecycleReadBackV4` of src/server/execution/v4-transitions.ts.
use edict.Prelude.{
  ◌≡◌, refl, inl, inr, ◌≤◌, String, true, false, Option, none, some, arith, Bool-cases, str_eq,
  str_eq_iff,
}
use edict.Text.{lower}
use edict.Text.Quantity.{big_int}
use edict.Execution.Result.{Result-cases, ok}
use edict.Execution.Evidence.{
  AddressLibrary, TransactionReceiptEvidence, parse_transaction_receipt_evidence,
}
use edict.Execution.V4.Lifecycle.{receipt_unproven_v4}
use edict.Rpc.Types.{
  status1, FinalityAxis, ReceiptStatus, CanonicalityStatus, NormalizedRpcReceipt,
  NormalizedRpcBlock, ReceiptFinalityEvaluation, RpcClient,
}
use edict.Rpc.Expected.{IsExpected, identity_matches-IsExpected, IsExpected-identity_matches}
use edict.Rpc.Finality.{
  EvaluateReceiptAndFinalityInput, evidence_of, finality_of, identity_matches,
  evaluate_contradiction, evaluate_canonical, evaluate_receipt, evaluate_receipt_and_finality,
  is_canonical_block,
}

-- the node's receipt, its canonical block at the receipt's number and its finalized head
pub record ProvenInclusion (client : RpcClient) (input : EvaluateReceiptAndFinalityInput)
    (tx_hash : String) : Type 0 where
  pub receipt : NormalizedRpcReceipt
  pub block : NormalizedRpcBlock
  pub head : NormalizedRpcBlock
  pub answered : client.get_transaction_receipt input.tx_hash ≡ ok (some receipt)
  pub hash : receipt.transaction_hash ≡ tx_hash
  pub succeeded : receipt.status ≡ status1
  pub at_number : client.get_block_by_number receipt.block_number ≡ ok (some block)
  pub canonical : lower block.hash ≡ lower receipt.block_hash
  pub finalized_head : client.get_finalized_block ≡ ok (some head)
  pub under_head : big_int receipt.block_number ≤ big_int head.number
  pub expected : IsExpected input receipt

module _ (viem : AddressLibrary) (client : RpcClient)
    (input : EvaluateReceiptAndFinalityInput) where
  contradiction-unproven :
      (receipt : NormalizedRpcReceipt) (block : Option NormalizedRpcBlock) (tx_hash : String)
      {e : ReceiptFinalityEvaluation} {evidence : TransactionReceiptEvidence}
      → evaluate_contradiction viem client input receipt block ≡ ok e
      → e.evidence ≡ some evidence
      → receipt_unproven_v4 evidence tx_hash ≡ true
  unfolding evaluate_contradiction parse_transaction_receipt_evidence receipt_unproven_v4
  contradiction-unproven receipt block tx_hash done has = ground arith

  canonical-proven :
      (receipt : NormalizedRpcReceipt) (block : NormalizedRpcBlock) (tx_hash : String)
      {e : ReceiptFinalityEvaluation} {evidence : TransactionReceiptEvidence}
      → evaluate_canonical viem client input receipt (some block) ≡ ok e
      → e.evidence ≡ some evidence
      → receipt_unproven_v4 evidence tx_hash ≡ false
      → (head : NormalizedRpcBlock) × (client.get_finalized_block ≡ ok (some head))
        × (big_int receipt.block_number ≤ big_int head.number)
        × (identity_matches input receipt ≡ true)
        × (receipt.status ≡ status1)
        × (receipt.transaction_hash ≡ tx_hash)
  unfolding evaluate_canonical parse_transaction_receipt_evidence receipt_unproven_v4 finality_of
  canonical-proven receipt block tx_hash done has proven =
      elim (Result-cases client.get_finalized_block) [
        | inr (thrown, failed) ↦ ground arith
        | inl (none, answered) ↦ ground arith
        | inl (some head, answered) ↦ (
          head,
          answered,
          ground arith,
          ground arith,
          ground arith,
          ground (arith, str_eq_iff receipt.transaction_hash tx_hash),
        )
      ]

  block-proven :
      (receipt : NormalizedRpcReceipt) (tx_hash : String) {e : ReceiptFinalityEvaluation}
      {evidence : TransactionReceiptEvidence}
      → client.get_transaction_receipt input.tx_hash ≡ ok (some receipt)
      → evaluate_receipt viem client input receipt ≡ ok e
      → e.evidence ≡ some evidence
      → receipt_unproven_v4 evidence tx_hash ≡ false
      → ProvenInclusion client input tx_hash
  unfolding evaluate_receipt is_canonical_block
  block-proven receipt tx_hash {e} found done has proven =
      elim (Result-cases (client.get_block_by_number receipt.block_number)) [
        | inr (thrown, failed) ↦ ground arith
        | inl (none, at_number) ↦
            let unproven = contradiction-unproven receipt none tx_hash {e = e} (ground arith) has in
            ground arith
        | inl (some block, at_number) ↦
            elim (Bool-cases (str_eq (lower block.hash) (lower receipt.block_hash))) [
              | inr other ↦
                  let unproven =
                    contradiction-unproven receipt (some block) tx_hash {e = e} (ground arith)
                      has in
                  ground arith
              | inl same ↦
                  let (head, finalized_head, under_head, identity, succeeded, hash) =
                    canonical-proven receipt block tx_hash {e = e} (ground arith) has proven in
                  record {
                    receipt = receipt;
                    block = block;
                    head = head;
                    answered = found;
                    hash = hash;
                    succeeded = succeeded;
                    at_number = at_number;
                    canonical =
                        ground (arith, str_eq_iff (lower block.hash) (lower receipt.block_hash));
                    finalized_head = finalized_head;
                    under_head = under_head;
                    expected = identity_matches-IsExpected input receipt identity;
                  }
            ]
      ]

  -- Where evidence of a receipt that the evaluation made is accepted by the guard of the version 4.0
  -- read-back for a hash, the node answered with a receipt of that hash and of success, with a block
  -- at the receipt's number that has the receipt's block hash, and with a finalized head that is not
  -- below it, and the receipt is for the expected sender, recipient, type and gas, and creates no
  -- contract.
  pub evaluation-ProvenInclusion :
      (tx_hash : String) {e : ReceiptFinalityEvaluation} {evidence : TransactionReceiptEvidence}
      → evaluate_receipt_and_finality viem client input ≡ ok e
      → e.evidence ≡ some evidence
      → receipt_unproven_v4 evidence tx_hash ≡ false
      → ProvenInclusion client input tx_hash
  unfolding evaluate_receipt_and_finality
  evaluation-ProvenInclusion tx_hash {e} done has proven =
      elim (Result-cases (client.get_transaction_receipt input.tx_hash)) [
        | inr (thrown, failed) ↦ ground arith
        | inl (none, found) ↦ ground arith
        | inl (some receipt, found) ↦
            block-proven receipt tx_hash {e = e} found (ground arith) has proven
      ]

  -- the evaluation of a proven inclusion
  abbrev final_evaluation :
      (tx_hash : String)
      → ProvenInclusion client input tx_hash
      → TransactionReceiptEvidence
      → ReceiptFinalityEvaluation
  final_evaluation tx_hash proof evidence = record {
    receipt_status = ReceiptStatus.success;
    canonicality = CanonicalityStatus.canonical;
    finality = FinalityAxis.finalized;
    receipt = some proof.receipt;
    canonical_block = some proof.block;
    finalized_block = some proof.head;
    evidence = some evidence;
    reconciliation_required = false;
  }

  -- Conversely, where the node's answers prove the inclusion of a hash and the schema accepts the
  -- evidence made of them, the evaluation returns that evidence, with a final head and no need of
  -- reconciliation, and the guard of the version 4.0 read-back accepts it for the hash.
  pub inclusion_is_accepted :
      (tx_hash : String) (proof : ProvenInclusion client input tx_hash)
      {evidence : TransactionReceiptEvidence}
      → parse_transaction_receipt_evidence viem
          (evidence_of input proof.receipt true true (some proof.head))
        ≡ ok evidence
      → (e : ReceiptFinalityEvaluation) × (evaluate_receipt_and_finality viem client input ≡ ok e)
        × (e.evidence ≡ some evidence)
        × (e.finality ≡ FinalityAxis.finalized)
        × (e.reconciliation_required ≡ false)
        × (receipt_unproven_v4 evidence tx_hash ≡ false)
  unfolding evaluate_receipt_and_finality evaluate_receipt evaluate_canonical is_canonical_block
      finality_of parse_transaction_receipt_evidence receipt_unproven_v4
  inclusion_is_accepted tx_hash proof {evidence} parsed =
      let found = proof.answered in
      let hash = proof.hash in
      let succeeded = proof.succeeded in
      let at_number = proof.at_number in
      let canonical =
        (str_eq_iff (lower proof.block.hash) (lower proof.receipt.block_hash)).1 proof.canonical in
      let answered = proof.finalized_head in
      let under_head = proof.under_head in
      let identity = IsExpected-identity_matches input proof.receipt proof.expected in
      (
        final_evaluation tx_hash proof evidence,
        ground arith,
        refl,
        refl,
        refl,
        ground (arith, str_eq_iff proof.receipt.transaction_hash tx_hash),
      )
