-- ===== src/Rpc/Finality.antt =====
-- `evaluateReceiptAndFinality` of src/server/rpc/finality.ts. The numbers of blocks and the gas are
-- taken to be hexadecimal quantities, which the client's normalization makes; on other texts `BigInt`
-- throws, and the functions below do not.
use edict.Prelude.{
  String, Bool, true, false, not, ◌&&◌, ◌||◌, Option, none, some, leb, str_eq, is_none,
  if◌then◌else◌,
}
use edict.Text.{lower}
use edict.Text.Quantity.{big_int}
use edict.Execution.Result.{Result, ok, ◌>>=◌}
use edict.Execution.Evidence.{
  AddressLibrary, TransactionType, type0, type1, type2, MatchStatus, ReconciliationStatus,
  ExecutionStatus, FinalityStatus, TransactionReceiptEvidence, parse_transaction_receipt_evidence,
}
use edict.Rpc.Types.{
  RpcReceiptCode, status0, status1, NormalizedRpcReceipt, NormalizedRpcBlock, ReceiptStatus,
  CanonicalityStatus, FinalityAxis, ReceiptFinalityEvaluation, RpcClient,
}

pub record EvaluateReceiptAndFinalityInput : Type 0 where
  pub tx_hash : String
  pub expected_from : String
  pub expected_to : String
  pub expected_type : Option TransactionType
  pub gas_limit : Option String
  pub observed_at : String

-- `sameAddress`
unfoldable pub same_address : Option String → Option String → Bool
same_address (some left) (some right) = str_eq (lower left) (lower right)
same_address _ _ = false

abbrev pub receipt_status_of : RpcReceiptCode → ReceiptStatus
receipt_status_of status0 = ReceiptStatus.reverted
receipt_status_of status1 = ReceiptStatus.success

abbrev pub execution_status_of : RpcReceiptCode → ExecutionStatus
execution_status_of status0 = ExecutionStatus.reverted
execution_status_of status1 = ExecutionStatus.success

-- `isCanonical`
unfoldable pub is_canonical_block : Option NormalizedRpcBlock → NormalizedRpcReceipt → Bool
is_canonical_block none receipt = false
is_canonical_block (some block) receipt = str_eq (lower block.hash) (lower receipt.block_hash)

-- the finality of a receipt under a finalized head
unfoldable pub finality_of : Option NormalizedRpcBlock → NormalizedRpcReceipt → FinalityAxis
finality_of none receipt = FinalityAxis.unavailable
finality_of (some head) receipt =
    if leb (big_int receipt.block_number) (big_int head.number)
    then FinalityAxis.finalized
    else FinalityAxis.included

abbrev pub same_type : TransactionType → TransactionType → Bool
same_type type0 type0 = true
same_type type1 type1 = true
same_type type2 type2 = true
same_type _ _ = false

abbrev pub type_matches : Option TransactionType → TransactionType → Bool
type_matches none type = same_type type type2 || same_type type type0
type_matches (some expected) type = same_type type expected

abbrev pub gas_limit_matches : Option String → String → Bool
gas_limit_matches none gas_used = true
gas_limit_matches (some limit) gas_used = leb (big_int gas_used) (big_int limit)

-- `identityMatches`
unfoldable pub identity_matches : EvaluateReceiptAndFinalityInput → NormalizedRpcReceipt → Bool
identity_matches input receipt =
    same_address (some receipt.from) (some input.expected_from)
    && same_address receipt.to (some input.expected_to)
    && type_matches input.expected_type receipt.type
    && gas_limit_matches input.gas_limit receipt.gas_used
    && is_none receipt.contract_address

abbrev pub is_finalized_axis : FinalityAxis → Bool
is_finalized_axis FinalityAxis.finalized = true
is_finalized_axis _ = false

abbrev hash_of : Option NormalizedRpcBlock → Option String
hash_of none = none
hash_of (some block) = some block.hash

abbrev number_of_block : Option NormalizedRpcBlock → Option String
number_of_block none = none
number_of_block (some block) = some block.number

-- the evidence that is parsed
abbrev pub evidence_of :
    EvaluateReceiptAndFinalityInput
    → NormalizedRpcReceipt
    → (matches final : Bool) → Option NormalizedRpcBlock
    → TransactionReceiptEvidence
evidence_of input receipt matches final head = record {
  observed_at = input.observed_at;
  transaction_hash = receipt.transaction_hash;
  block_hash = receipt.block_hash;
  block_number = receipt.block_number;
  transaction_index = receipt.transaction_index;
  from = receipt.from;
  to = receipt.to;
  type = receipt.type;
  gas_used = receipt.gas_used;
  effective_gas_price = receipt.effective_gas_price;
  contract_address = receipt.contract_address;
  execution_status = execution_status_of receipt.status;
  identity_status = if matches then MatchStatus.match else MatchStatus.mismatch;
  finality_status = if final then FinalityStatus.finalized else FinalityStatus.included;
  finalized_block_hash = if final then hash_of head else none;
  finalized_block_number = if final then number_of_block head else none;
  reconciliation_status =
      if matches then ReconciliationStatus.clear else ReconciliationStatus.required;
}

abbrev pub nothing_found : ReceiptFinalityEvaluation
nothing_found = record {
  receipt_status = ReceiptStatus.not_found;
  canonicality = CanonicalityStatus.not_evaluated;
  finality = FinalityAxis.not_evaluated;
  receipt = none;
  canonical_block = none;
  finalized_block = none;
  evidence = none;
  reconciliation_required = false;
}

module _ (viem : AddressLibrary) (client : RpcClient)
    (input : EvaluateReceiptAndFinalityInput) where
  -- the evaluation of a receipt whose block is not the canonical one
  unfoldable pub evaluate_contradiction :
      NormalizedRpcReceipt → Option NormalizedRpcBlock → Result ReceiptFinalityEvaluation
  evaluate_contradiction receipt block = do
    evidence ← parse_transaction_receipt_evidence viem (evidence_of input receipt false false none)
    ok (record {
      receipt_status = receipt_status_of receipt.status;
      canonicality = CanonicalityStatus.contradiction;
      finality = FinalityAxis.not_evaluated;
      receipt = some receipt;
      canonical_block = block;
      finalized_block = none;
      evidence = some evidence;
      reconciliation_required = true;
    })

  -- the evaluation of a receipt in a canonical block
  unfoldable pub evaluate_canonical :
      NormalizedRpcReceipt → Option NormalizedRpcBlock → Result ReceiptFinalityEvaluation
  evaluate_canonical receipt block = do
    head ← client.get_finalized_block
    let finality = finality_of head receipt
    let matches = identity_matches input receipt
    evidence ←
        parse_transaction_receipt_evidence viem
          (evidence_of input receipt matches (is_finalized_axis finality) head)
    ok (record {
      receipt_status = receipt_status_of receipt.status;
      canonicality = CanonicalityStatus.canonical;
      finality = finality;
      receipt = some receipt;
      canonical_block = block;
      finalized_block = head;
      evidence = some evidence;
      reconciliation_required = not matches;
    })

  abbrev evaluate_block :
      NormalizedRpcReceipt → Option NormalizedRpcBlock → Result ReceiptFinalityEvaluation
  evaluate_block receipt block =
      if is_canonical_block block receipt
      then evaluate_canonical receipt block
      else evaluate_contradiction receipt block

  unfoldable pub evaluate_receipt : NormalizedRpcReceipt → Result ReceiptFinalityEvaluation
  evaluate_receipt receipt = do
    block ← client.get_block_by_number receipt.block_number
    evaluate_block receipt block

  abbrev evaluate_found : Option NormalizedRpcReceipt → Result ReceiptFinalityEvaluation
  evaluate_found none = ok nothing_found
  evaluate_found (some receipt) = evaluate_receipt receipt

  -- `evaluateReceiptAndFinality`
  unfoldable pub evaluate_receipt_and_finality : Result ReceiptFinalityEvaluation
  evaluate_receipt_and_finality = do
    receipt ← client.get_transaction_receipt input.tx_hash
    evaluate_found receipt
