-- ===== src/Execution/V4/Samples.antt =====
-- Runs of version 4.0 at the points of one life of an operation, for the tests.
use edict.Prelude.{String, false, Option, none, some, List, [], ◌∷◌}
use edict.Execution.Kind.{
  OperationKind, tokenize, whitelist, mint, RunPhase, OperationStage, not_started, prepared,
  prepared_stale, wallet_prompt_recorded, broadcast_hash_persisted, brickken_correlation_pending,
  brickken_correlated, awaiting_wallet,
}
use edict.Execution.Evidence.{
  MatchStatus, ReconciliationStatus, ExecutionStatus, FinalityStatus, TransactionType,
  TransactionReceiptEvidence,
}
use edict.Execution.Tests.{signer, now, creation, proof}
use edict.Fee.Schema.{RawFeeFields}
use edict.Fee.Tests.{granted}
use edict.Wallet.Intent.{ImmutableExecutionIdentity, SemanticAuthorization, mint_token}
use edict.Execution.V4.Types.{
  AttemptState, FreshnessStatus, NonceFreshnessEvidence, PreparationAttempt,
  WalletPromptAuthorizationRecord, FeeAuthorizationStatus, RpcTransactionAuthorizationEvidence,
  CorrelationLifecycle, CorrelationPair, BrickkenCorrelation, WriteOperationV4, ExecutionRunV4,
  TokenIdentity,
}
use edict.Execution.V4.Base.{Hashing}
use edict.Execution.V4.Prompt.{wallet_intent_of, recorded_prompt, released_prompt}
use edict.Execution.V4.Correlation.{authorized_attempt}

abbrev pub digest : String
digest = "sha256:00112233445566778899aabbccddeeff00112233445566778899aabbccddeeff"

abbrev pub hashing : Hashing
hashing = record {
  sha256_utf8 = λ s. digest;
  hash_preparation = λ subject. digest;
  hash_intent = λ intent. digest;
}

abbrev pub tx_hash : String
tx_hash = "0x00112233445566778899aabbccddeeff00112233445566778899aabbccddeeff"

abbrev pub contract : String
contract = "0x00000000000000000000000000000000000000cc"

abbrev pub identity : ImmutableExecutionIdentity
identity = record {
  chain_id = "11155111";
  from = signer;
  to = contract;
  calldata = "0x01020304";
  value = "0x0";
  nonce = "0x7";
}

abbrev pub attempt : PreparationAttempt
attempt = record {
  attempt_id = "a1";
  sequence = 1;
  state = AttemptState.prepared;
  tx_id = some "tx";
  unsigned_transaction = none;
  preparation_fingerprint = some digest;
  calldata_commitment = some digest;
  immutable_identity = some identity;
  fee_authorization = some granted;
  prepared_at = some now;
  prepared_run_revision = some 3;
  freshness_policy_version = "1";
  freshness_evaluated_at = none;
  nonce_freshness_evidence = none;
  stale_at = none;
  stale_reason = none;
}

abbrev pub nonce_evidence : NonceFreshnessEvidence
nonce_evidence = record {
  policy_version = "1";
  chain_id = "11155111";
  required_signer = signer;
  prepared_nonce = "0x7";
  observed_pending_nonce = "0x7";
  status = FreshnessStatus.fresh;
  observed_at = now;
}

abbrev pub semantic : SemanticAuthorization
semantic = record {
  policy_version = "1";
  authorization_id = "s1";
  environment = "sandbox";
  brickken_method = mint_token;
  execution_mode = "client-broadcast";
  destination_policy = record { policy_id = "d"; reviewed_destination = contract };
  selector_policy = record { policy_id = "s"; reviewed_selector = "0x01020304" };
  calldata_commitment = digest;
}

-- an operation at a stage, with its attempt, its prompt and its hash
abbrev pub operation_at_stage :
    OperationKind
    → OperationStage
    → List PreparationAttempt
    → Option WalletPromptAuthorizationRecord
    → Option String
    → WriteOperationV4
operation_at_stage kind stage attempts prompt hash = record {
  id = "o";
  kind = kind;
  stage = stage;
  prepared_tx_id = none;
  unsigned_transaction = none;
  blockchain_tx_hash = hash;
  brickken_status = none;
  brickken_error = none;
  timeout = false;
  prepare_intent_at = none;
  prepared_at = none;
  wallet_prompt_at = none;
  broadcast_at = none;
  confirmed_at = none;
  verified_at = none;
  onchain_transaction_evidence = none;
  transaction_receipt_evidence = none;
  preparation_attempts = attempts;
  active_preparation_attempt_id = some "a1";
  wallet_prompt_authorization = prompt;
  rpc_transaction_evidence = none;
  brickken_correlation = none;
  brickken_status_evidence = [];
}

abbrev pub token : TokenIdentity
token = record {
  escrow_address = none;
  tokenization_id = none;
  chain_id = "11155111";
  token_address = contract;
  token_symbol = "BND";
  tokenizer_wallet_address = signer;
  tokenization_tx_hash = tx_hash;
  manifest_hash = digest;
  plan_hash = digest;
  verified_at = now;
  read_back_evidence_hash = digest;
}

-- a run whose third operation is the one given
abbrev pub run_with : WriteOperationV4 → ExecutionRunV4
run_with o = record {
  id = "run";
  manifest = creation.manifest;
  manifest_hash = digest;
  plan = creation.plan;
  plan_hash = digest;
  environment = "sandbox";
  chain_id = "11155111";
  required_signer = record { wallet_address = signer };
  phase = RunPhase.mint;
  status = awaiting_wallet;
  terminal_outcome = none;
  approval = record {
    plan_hash = digest;
    approved_by_wallet = signer;
    approved_at = now;
    approval_revision = 1;
    proof = record proof { typed_data_digest = tx_hash };
  };
  operations = record {
    op0 = operation_at_stage tokenize not_started [] none none;
    op1 = operation_at_stage whitelist not_started [] none none;
    op2 = o;
  };
  observations = [];
  events = [];
  receipt_eligible = false;
  created_at = now;
  updated_at = now;
  revision = 3;
  token_identity = some token;
}

abbrev pub prepared_run : ExecutionRunV4
prepared_run = run_with (operation_at_stage mint prepared (attempt ∷ []) none none)

abbrev pub stale_run : ExecutionRunV4
stale_run = run_with (
    operation_at_stage mint prepared_stale (record attempt { state = AttemptState.stale } ∷ []) none
      none)

abbrev pub unreleased_prompt : WalletPromptAuthorizationRecord
unreleased_prompt =
    recorded_prompt (wallet_intent_of prepared_run mint "a1" "tx" digest identity granted semantic)
      digest now

abbrev pub prompt : WalletPromptAuthorizationRecord
prompt = released_prompt unreleased_prompt "i1" now

abbrev pub released_run : ExecutionRunV4
released_run =
    run_with (operation_at_stage mint wallet_prompt_recorded (attempt ∷ []) (some prompt) none)

abbrev pub broadcast_run : ExecutionRunV4
broadcast_run =
    run_with
      (operation_at_stage mint broadcast_hash_persisted (attempt ∷ []) (some prompt) (some tx_hash))

-- the fees as the node reports them
abbrev pub raw_fees : RawFeeFields
raw_fees = record {
  transaction_type = some "0x2";
  gas_limit = some "0xf4240";
  gas_price = none;
  max_fee_per_gas = some "0x77359400";
  max_priority_fee_per_gas = some "0x3b9aca00";
  access_list = none;
  base_fee_per_gas = none;
}

abbrev pub evidence : RpcTransactionAuthorizationEvidence
evidence = record {
  observed_at = now;
  transaction_hash = tx_hash;
  immutable_identity = identity;
  immutable_identity_status = MatchStatus.match;
  fee_authorization_status = FeeAuthorizationStatus.within_envelope;
  fee_policy_violation_code = none;
  observed_maximum_network_fee_wei = some "0x1";
  observed_priority_fee_per_gas = none;
  observed_gas_limit = none;
  observed_max_fee_per_gas = none;
  observed_transaction_type = some "0x2";
}

abbrev pub receipt : TransactionReceiptEvidence
receipt = record {
  observed_at = now;
  transaction_hash = tx_hash;
  block_hash = tx_hash;
  block_number = "0x1";
  transaction_index = "0x0";
  from = signer;
  to = some contract;
  type = TransactionType.type2;
  gas_used = "0x1";
  effective_gas_price = "0x1";
  contract_address = none;
  execution_status = ExecutionStatus.success;
  identity_status = MatchStatus.match;
  finality_status = FinalityStatus.finalized;
  finalized_block_hash = none;
  finalized_block_number = none;
  reconciliation_status = ReconciliationStatus.clear;
}

abbrev pub pair : CorrelationPair
pair = record { tx_id = "tx"; tx_hash = tx_hash }

abbrev pub correlation : BrickkenCorrelation
correlation = record {
  pair = pair;
  lifecycle = CorrelationLifecycle.pending;
  attempts = authorized_attempt 1 now ∷ [];
  correlated_at = none;
}

abbrev pub pending_run : ExecutionRunV4
pending_run =
    run_with
      (record (operation_at_stage mint brickken_correlation_pending (attempt ∷ []) (some prompt)
        (some tx_hash)) {
          rpc_transaction_evidence = some evidence;
          brickken_correlation = some correlation;
        })

abbrev pub correlated_run : ExecutionRunV4
correlated_run =
    run_with
      (record (operation_at_stage mint brickken_correlated (attempt ∷ []) (some prompt)
        (some tx_hash)) {
          rpc_transaction_evidence = some evidence;
          transaction_receipt_evidence = some receipt;
          brickken_correlation = some (record correlation {
            lifecycle = CorrelationLifecycle.correlated;
            correlated_at = some now;
          });
        })
