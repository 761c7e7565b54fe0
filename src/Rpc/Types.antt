-- ===== src/Rpc/Types.antt =====
-- The answers of the trusted node, normalized, and the client that returns them:
-- src/server/rpc/types.ts. A call of the client may throw. Logs, and the fields of a block that no
-- code below reads, are left out.
use edict.Prelude.{String, Bool, Option}
use edict.Execution.Result.{Result}
use edict.Execution.Evidence.{TransactionType, TransactionReceiptEvidence}

-- `receipt.status`, `"0x0"` or `"0x1"`
pub data RpcReceiptCode : Type 0 where
  status0 status1 : RpcReceiptCode

pub record NormalizedRpcReceipt : Type 0 where
  pub transaction_hash : String
  pub transaction_index : String
  pub block_hash : String
  pub block_number : String
  pub from : String
  pub to : Option String
  pub gas_used : String
  pub effective_gas_price : String
  pub contract_address : Option String
  pub type : TransactionType
  pub status : RpcReceiptCode

pub record NormalizedRpcBlock : Type 0 where
  pub number : String
  pub hash : String

pub data ReceiptStatus : Type 0 where
  not_found success reverted : ReceiptStatus

pub data CanonicalityStatus : Type 0 where
  not_evaluated canonical contradiction : CanonicalityStatus

-- `FinalityStatus` of types.ts
pub data FinalityAxis : Type 0 where
  not_evaluated included finalized unavailable : FinalityAxis

pub record ReceiptFinalityEvaluation : Type 0 where
  pub receipt_status : ReceiptStatus
  pub canonicality : CanonicalityStatus
  pub finality : FinalityAxis
  pub receipt : Option NormalizedRpcReceipt
  pub canonical_block : Option NormalizedRpcBlock
  pub finalized_block : Option NormalizedRpcBlock
  pub evidence : Option TransactionReceiptEvidence
  pub reconciliation_required : Bool

-- The calls of `TrustedSepoliaRpcClient` that the evaluation of a receipt makes.
pub record RpcClient : Type 0 where
  pub get_transaction_receipt : (tx_hash : String) → Result (Option NormalizedRpcReceipt)
  pub get_block_by_number : (number : String) → Result (Option NormalizedRpcBlock)
  pub get_finalized_block : Result (Option NormalizedRpcBlock)
