-- ===== src/Rpc/Tests.antt =====
-- The theorems on the evaluation of a receipt, applied to a node that has the receipt of a transfer
-- in a final block.
use edict.Prelude.{◌≡◌, ◌≤◌, refl, arith, String, false, true, none, some, str_eq}
use edict.Text.{is_tx_hash, lower}
use edict.Text.Time.{is_iso_utc}
use edict.Text.Quantity.{is_quantity, big_int}
use edict.Execution.Result.{ok}
use edict.Execution.Evidence.{
  AddressLibrary, type2, TransactionReceiptEvidence, parse_transaction_receipt_evidence,
}
use edict.Execution.V4.Lifecycle.{receipt_unproven_v4}
use edict.Rpc.Types.{
  status1, FinalityAxis, ReceiptStatus, CanonicalityStatus, NormalizedRpcReceipt,
  NormalizedRpcBlock, ReceiptFinalityEvaluation, RpcClient,
}
use edict.Rpc.Finality.{
  EvaluateReceiptAndFinalityInput, evidence_of, same_address, is_canonical_block, finality_of,
  identity_matches, evaluate_canonical, evaluate_receipt, evaluate_receipt_and_finality,
}
use edict.Rpc.Agreement.{Agrees, evaluation-Agrees}
use edict.Rpc.Expected.{IsExpected}
use edict.Rpc.Inclusion.{ProvenInclusion, evaluation-ProvenInclusion, inclusion_is_accepted}

abbrev all_addresses : AddressLibrary
all_addresses = record { is_address = λ s. true; get_address = λ s. s }

abbrev tx_hash : String
tx_hash = "0x00112233445566778899aabbccddeeff00112233445566778899aabbccddeeff"

abbrev signer : String
signer = "0x00000000000000000000000000000000000000aa"

abbrev contract : String
contract = "0x00000000000000000000000000000000000000cc"

abbrev receipt : NormalizedRpcReceipt
receipt = record {
  transaction_hash = tx_hash;
  transaction_index = "0x0";
  block_hash = tx_hash;
  block_number = "0x10";
  from = signer;
  to = some contract;
  gas_used = "0x1";
  effective_gas_price = "0x1";
  contract_address = none;
  type = type2;
  status = status1;
}

abbrev block : NormalizedRpcBlock
block = record { number = "0x10"; hash = tx_hash }

abbrev head : NormalizedRpcBlock
head = record { number = "0x20"; hash = tx_hash }

abbrev node : RpcClient
node = record {
  get_transaction_receipt = λ hash. ok (some receipt);
  get_block_by_number = λ number. ok (some block);
  get_finalized_block = ok (some head);
}

abbrev expected : EvaluateReceiptAndFinalityInput
expected = record {
  tx_hash = tx_hash;
  expected_from = signer;
  expected_to = contract;
  expected_type = some type2;
  gas_limit = some "0x5208";
  observed_at = "2026-01-02T03:04:05.678Z";
}

abbrev observed : TransactionReceiptEvidence
observed = evidence_of expected receipt true true (some head)

abbrev final : ReceiptFinalityEvaluation
final = record {
  receipt_status = ReceiptStatus.success;
  canonicality = CanonicalityStatus.canonical;
  finality = FinalityAxis.finalized;
  receipt = some receipt;
  canonical_block = some block;
  finalized_block = some head;
  evidence = some observed;
  reconciliation_required = false;
}

final_receipt : evaluate_receipt_and_finality all_addresses node expected ≡ ok final
unfolding evaluate_receipt_and_finality evaluate_receipt is_canonical_block evaluate_canonical
    finality_of identity_matches same_address parse_transaction_receipt_evidence str_eq lower
    big_int is_iso_utc is_tx_hash is_quantity
final_receipt = refl

observed_is_proof : receipt_unproven_v4 observed tx_hash ≡ false
unfolding receipt_unproven_v4 str_eq
observed_is_proof = refl

evaluation-ProvenInclusion_example : ProvenInclusion node expected tx_hash
evaluation-ProvenInclusion_example =
    evaluation-ProvenInclusion all_addresses node expected tx_hash {e = final} final_receipt refl
      observed_is_proof

head_is_above : big_int receipt.block_number ≤ big_int head.number
unfolding big_int
head_is_above = omega arith

same_block : lower block.hash ≡ lower receipt.block_hash
same_block = refl

within_limit : big_int receipt.gas_used ≤ big_int "0x5208"
unfolding big_int
within_limit = omega arith

abbrev expected_receipt : IsExpected expected receipt
expected_receipt = record {
  sender = refl;
  recipient = contract;
  has_recipient = refl;
  same_recipient = refl;
  expected_type = refl;
  within_limit = within_limit;
  no_contract = refl;
}

abbrev proof : ProvenInclusion node expected tx_hash
proof = record {
  receipt = receipt;
  block = block;
  head = head;
  answered = refl;
  hash = refl;
  succeeded = refl;
  at_number = refl;
  canonical = same_block;
  finalized_head = refl;
  under_head = head_is_above;
  expected = expected_receipt;
}

observed_parses :
    parse_transaction_receipt_evidence all_addresses
      (evidence_of expected receipt true true (some head))
    ≡ ok observed
unfolding parse_transaction_receipt_evidence str_eq lower is_iso_utc is_tx_hash is_quantity
observed_parses = refl

inclusion_is_accepted_example :
    (e : ReceiptFinalityEvaluation) × (evaluate_receipt_and_finality all_addresses node expected
      ≡ ok e)
    × (e.evidence ≡ some observed)
    × (e.finality ≡ FinalityAxis.finalized)
    × (e.reconciliation_required ≡ false)
    × (receipt_unproven_v4 observed tx_hash ≡ false)
inclusion_is_accepted_example =
    inclusion_is_accepted all_addresses node expected tx_hash proof {evidence = observed}
      observed_parses

evaluation-Agrees_example : Agrees final observed
evaluation-Agrees_example =
    evaluation-Agrees all_addresses node expected {e = final} {evidence = observed} final_receipt
      refl
