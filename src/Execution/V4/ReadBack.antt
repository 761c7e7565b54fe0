-- ===== src/Execution/V4/ReadBack.antt =====
-- The end of the tokenization of a version 4.0 run: `recordTokenIdentityFromReadBackV4` of
-- src/server/execution/v4-transitions.ts, and the schema of the tokenization event in
-- src/server/orchestration/tokenize-receipt-binding.ts.
use edict.Prelude.{
  ℕ, String, Bool, true, false, not, ◌&&◌, ◌||◌, Option, none, some, List, [], ◌∷◌, leb, ltb,
  length, all, str_eq, opt_str_eq, if◌then◌else◌,
}
use edict.Text.{codes, after_0x, is_wallet, is_tx_hash, is_digit}
use edict.Text.Quantity.{is_quantity_digits}
use edict.Execution.Result.{
  Result, ok, illegal_state_transition, schema_refused, ◌>>=◌, ◌>>◌, refuse,
}
use edict.Execution.Kind.{
  tokenize, RunPhase, preparing, succeeded, reconciliation_required, brickken_correlated,
  read_back_verified, stage_eq, status_eq, server,
}
use edict.Execution.Evidence.{TransactionReceiptEvidence}
use edict.Execution.Transitions.Chain.{is_reverted, is_finalized}
use edict.Execution.Types.{ExecutionScope, legacy_full}
use edict.Execution.V4.Types.{TokenIdentity, RpcTransactionAuthorizationEvidence, ExecutionRunV4}
use edict.Execution.V4.Contracts.{is_within, parse_token_identity}
use edict.Execution.V4.Base.{op_v4, append_event_v4, replace_operation_v4, clone_v4}
use edict.Execution.V4.Attempts.{given}
use edict.Execution.V4.Correlation.{has_correlated}

pub record TokenizationEventEvidence : Type 0 where
  pub transaction_hash : String
  pub block_hash : String
  pub block_number : String
  pub transaction_index : String
  pub log_index : String
  pub factory_address : String
  pub implementation_address : String
  pub event_topic : String
  pub tokenization_id : String
  pub token_address : String
  pub escrow_address : String

abbrev pub reviewed_sepolia_factory : String
reviewed_sepolia_factory = "0x23b04b6410d72fa66a77a9e0146df6634ad4c462"

abbrev pub reviewed_sepolia_implementation : String
reviewed_sepolia_implementation = "0x2c24f3fe7665ea83b2280bb5a7e66072c869ad89"

abbrev pub new_tokenization_event_topic : String
new_tokenization_event_topic = "0xf3891eaa15d438132be54582fa326e471227aacade9ebed32006b0ba9d63254c"

-- `[1-9][0-9]{0,77}$`
tokenization_digits : List ℕ → Bool
tokenization_digits [] = false
tokenization_digits (c ∷ cs) = ltb b'0' c && is_digit c && all is_digit cs && leb (length cs) 77

-- `/^[1-9][0-9]{0,77}$/`
unfoldable pub is_tokenization_id : String → Bool
unfolding tokenization_digits
is_tokenization_id s = tokenization_digits (codes s)

-- `quantity` of tokenize-receipt-binding.ts, of any length
abbrev is_event_quantity : String → Bool
is_event_quantity s = after_0x is_quantity_digits (codes s)

-- `tokenizationEventEvidenceV1Schema`
unfoldable pub is_tokenization_event : TokenizationEventEvidence → Bool
is_tokenization_event e =
    is_tx_hash e.transaction_hash
    && is_tx_hash e.block_hash
    && is_event_quantity e.block_number
    && is_event_quantity e.transaction_index
    && is_event_quantity e.log_index
    && str_eq e.factory_address reviewed_sepolia_factory
    && str_eq e.implementation_address reviewed_sepolia_implementation
    && str_eq e.event_topic new_tokenization_event_topic
    && is_tokenization_id e.tokenization_id
    && is_wallet e.token_address
    && is_wallet e.escrow_address

unfoldable pub parse_tokenization_event :
    TokenizationEventEvidence → Result TokenizationEventEvidence
parse_tokenization_event e = do refuse (not (is_tokenization_event e)) schema_refused; ok e

abbrev pub fees_within : Option RpcTransactionAuthorizationEvidence → Bool
fees_within none = false
fees_within (some rpc) = is_within rpc.fee_authorization_status

-- the receipt is of a successful transaction in a final block
abbrev pub is_final_success : TransactionReceiptEvidence → Bool
is_final_success receipt =
    not (is_reverted receipt.execution_status) && is_finalized receipt.finality_status

-- `transactionReceiptEvidence?.executionStatus === "SUCCESS"`, in a final block
abbrev pub received_success : Option TransactionReceiptEvidence → Bool
received_success none = false
received_success (some receipt) = is_final_success receipt

-- the read-back is of another run, or of another transaction
unfoldable pub read_back_differs : ExecutionRunV4 → Option String → TokenIdentity → Bool
read_back_differs run hash read_back =
    not (str_eq read_back.chain_id run.chain_id)
    || not (str_eq read_back.token_symbol run.manifest.asset.symbol)
    || not (str_eq read_back.tokenizer_wallet_address run.required_signer.wallet_address)
    || not (opt_str_eq hash read_back.tokenization_tx_hash)
    || not (str_eq read_back.manifest_hash run.manifest_hash)
    || not (str_eq read_back.plan_hash run.plan_hash)

-- the event is not of the receipt, or not of the token
unfoldable pub event_differs :
    Option String → TransactionReceiptEvidence → TokenIdentity → TokenizationEventEvidence → Bool
event_differs hash receipt read_back event =
    not (opt_str_eq hash event.transaction_hash)
    || not (str_eq event.block_hash receipt.block_hash)
    || not (str_eq event.block_number receipt.block_number)
    || not (str_eq event.transaction_index receipt.transaction_index)
    || not (opt_str_eq receipt.to event.factory_address)
    || not (str_eq event.token_address read_back.token_address)

abbrev is_legacy_full : Option ExecutionScope → Bool
is_legacy_full (some legacy_full) = true
is_legacy_full _ = false

-- the run after an accepted `record_token_identity_from_read_back`
unfoldable pub record_token_identity_effect :
    ExecutionRunV4 → TokenIdentity → (id : String) → ExecutionRunV4
record_token_identity_effect run token id =
    let full = is_legacy_full run.plan.execution_scope in
    append_event_v4
      (replace_operation_v4
        (record run {
          phase = if full then RunPhase.whitelist else RunPhase.tokenization;
          status = if full then preparing else succeeded;
          token_identity = some token;
        })
        tokenize
        (record (op_v4 run tokenize) {
          stage = read_back_verified;
          verified_at = some token.verified_at;
        }))
      id token.verified_at "RECORD_TOKEN_IDENTITY_FROM_READ_BACK" tokenize server

abbrev pub token_of : TokenIdentity → TokenizationEventEvidence → TokenIdentity
token_of read_back event = record read_back {
  escrow_address = some event.escrow_address;
  tokenization_id = some event.tokenization_id;
}

-- `recordTokenIdentityFromReadBackV4`
unfoldable pub record_token_identity_from_read_back :
    ExecutionRunV4
    → TokenIdentity
    → TokenizationEventEvidence
    → (id : String) → Result ExecutionRunV4
record_token_identity_from_read_back given_run raw_read_back raw_event id = do
  run ← clone_v4 given_run
  let o = op_v4 run tokenize
  read_back ← parse_token_identity raw_read_back
  event ← parse_tokenization_event raw_event
  receipt ← given o.transaction_receipt_evidence
  refuse
      (not (stage_eq o.stage brickken_correlated)
        || not (has_correlated o.brickken_correlation)
        || not (is_final_success receipt)
        || not (fees_within o.rpc_transaction_evidence)
        || status_eq run.status reconciliation_required
        || read_back_differs run o.blockchain_tx_hash read_back
        || event_differs o.blockchain_tx_hash receipt read_back event)
      illegal_state_transition
  token ← parse_token_identity (token_of read_back event)
  ok (record_token_identity_effect run token id)
