-- ===== src/Execution/Evidence.antt =====
-- Evidence about transactions on the chain: src/server/execution/onchain-evidence.ts. The two
-- schemas are functions that return the parsed record, with the addresses in lower case.
use edict.Prelude.{ℕ, String, Bool, true, not, ◌&&◌, Option, none, some, leb}
use edict.Text.{is_tx_hash, is_sha256, lower}
use edict.Text.Time.{is_iso_utc}
use edict.Text.Quantity.{is_quantity}
use edict.Execution.Result.{Result, ok, schema_refused, ◌>>◌, refuse}

-- `isAddress` and `getAddress` of the library viem.
pub record AddressLibrary : Type 0 where
  pub is_address : String → Bool
  pub get_address : String → String

pub data TransactionType : Type 0 where
  type0 type1 type2 : TransactionType

pub data MatchStatus : Type 0 where
  match mismatch : MatchStatus

pub data ReconciliationStatus : Type 0 where
  clear required : ReconciliationStatus

pub data ExecutionStatus : Type 0 where
  success reverted : ExecutionStatus

pub data FinalityStatus : Type 0 where
  included finalized : FinalityStatus

pub data ComparisonResult : Type 0 where
  exact_match semantic_match derived_response_field : ComparisonResult
  receipt_observation not_applicable mismatch : ComparisonResult

pub record FieldComparisons : Type 0 where
  pub chain_id : ComparisonResult
  pub hash : ComparisonResult
  pub from : ComparisonResult
  pub to : ComparisonResult
  pub input : ComparisonResult
  pub value : ComparisonResult
  pub nonce : ComparisonResult
  pub type : ComparisonResult
  pub gas : ComparisonResult
  pub gas_price : ComparisonResult
  pub max_fee_per_gas : ComparisonResult
  pub max_priority_fee_per_gas : ComparisonResult
  pub access_list : ComparisonResult

pub record OnchainTransactionEvidence : Type 0 where
  pub observed_at : String
  pub wallet_request_hash : String
  pub transaction_identity_hash : String
  pub requested_hash : String
  pub returned_hash : String
  pub chain_id : String
  pub from : String
  pub to : Option String
  pub input_hash : String
  pub input_bytes : ℕ
  pub value : String
  pub nonce : String
  pub type : TransactionType
  pub gas : String
  pub gas_price : Option String
  pub max_fee_per_gas : Option String
  pub max_priority_fee_per_gas : Option String
  pub access_list_hash : String
  pub block_hash : Option String
  pub block_number : Option String
  pub transaction_index : Option String
  pub fields : FieldComparisons
  pub comparison_status : MatchStatus
  pub reconciliation_status : ReconciliationStatus

pub record TransactionReceiptEvidence : Type 0 where
  pub observed_at : String
  pub transaction_hash : String
  pub block_hash : String
  pub block_number : String
  pub transaction_index : String
  pub from : String
  pub to : Option String
  pub type : TransactionType
  pub gas_used : String
  pub effective_gas_price : String
  pub contract_address : Option String
  pub execution_status : ExecutionStatus
  pub identity_status : MatchStatus
  pub finality_status : FinalityStatus
  pub finalized_block_hash : Option String
  pub finalized_block_number : Option String
  pub reconciliation_status : ReconciliationStatus

-- `schema.nullable()`
abbrev pub nullable : (String → Bool) → Option String → Bool
nullable p none = true
nullable p (some s) = p s

abbrev calldata_bytes : ℕ
calldata_bytes = 131072

module _ (viem : AddressLibrary) where
  open viem use {is_address, get_address}

  -- `transform((value) => getAddress(value).toLowerCase())` of the schema `address`
  pub parsed_address : String → String
  parsed_address s = lower (get_address s)

  pub parsed_nullable_address : Option String → Option String
  parsed_nullable_address none = none
  parsed_nullable_address (some s) = some (parsed_address s)

  pub is_onchain_transaction_evidence : OnchainTransactionEvidence → Bool
  is_onchain_transaction_evidence e =
      is_iso_utc e.observed_at
      && is_sha256 e.wallet_request_hash
      && is_sha256 e.transaction_identity_hash
      && is_tx_hash e.requested_hash
      && is_tx_hash e.returned_hash
      && is_quantity e.chain_id
      && is_address e.from
      && nullable is_address e.to
      && is_sha256 e.input_hash
      && leb e.input_bytes calldata_bytes
      && is_quantity e.value
      && is_quantity e.nonce
      && is_quantity e.gas
      && nullable is_quantity e.gas_price
      && nullable is_quantity e.max_fee_per_gas
      && nullable is_quantity e.max_priority_fee_per_gas
      && is_sha256 e.access_list_hash
      && nullable is_tx_hash e.block_hash
      && nullable is_quantity e.block_number
      && nullable is_quantity e.transaction_index

  -- `onchainTransactionEvidenceV1Schema.parse`
  unfoldable pub parse_onchain_transaction_evidence :
      OnchainTransactionEvidence → Result OnchainTransactionEvidence
  unfolding parsed_address parsed_nullable_address is_onchain_transaction_evidence
  parse_onchain_transaction_evidence e = do
    refuse (not (is_onchain_transaction_evidence e)) schema_refused
    ok (record e { from = parsed_address e.from; to = parsed_nullable_address e.to })

  pub is_transaction_receipt_evidence : TransactionReceiptEvidence → Bool
  is_transaction_receipt_evidence e =
      is_iso_utc e.observed_at
      && is_tx_hash e.transaction_hash
      && is_tx_hash e.block_hash
      && is_quantity e.block_number
      && is_quantity e.transaction_index
      && is_address e.from
      && nullable is_address e.to
      && is_quantity e.gas_used
      && is_quantity e.effective_gas_price
      && nullable is_address e.contract_address
      && nullable is_tx_hash e.finalized_block_hash
      && nullable is_quantity e.finalized_block_number

  -- `transactionReceiptEvidenceV1Schema.parse`
  unfoldable pub parse_transaction_receipt_evidence :
      TransactionReceiptEvidence → Result TransactionReceiptEvidence
  unfolding parsed_address parsed_nullable_address is_transaction_receipt_evidence
  parse_transaction_receipt_evidence e = do
    refuse (not (is_transaction_receipt_evidence e)) schema_refused
    ok (record e {
      from = parsed_address e.from;
      to = parsed_nullable_address e.to;
      contract_address = parsed_nullable_address e.contract_address;
    })
