-- ===== src/Execution/V4/Preparation.antt =====
-- Preparation attempts: `preparedAttempt` to `recordReprepareOutcomeV4` of
-- src/server/execution/v4-transitions.ts, and `recordInitialPreparationV4`. As in Transitions, a
-- transition `f` is its guards and then `f_effect`, the run that the code returns.
use edict.Prelude.{
  ℕ, String, Bool, true, false, not, ◌||◌, Option, none, some, [], ◌==◌, str_eq, opt_str_eq,
  is_some, is_none, default_to,
}
use edict.Text.Quantity.{big_int}
use edict.Core.Json.{Json}
use edict.Execution.Result.{Result, ok, err, illegal_state_transition, ◌>>=◌, ◌>>◌, refuse}
use edict.Execution.Kind.{OperationKind, tokenize}
use edict.Execution.Types.{ApprovalRecord, WriteOperation, ExecutionRunV1, operation_at}
use edict.Fee.Schema.{FeeValues, FeeAuthorization}
use edict.Wallet.Transaction.{WalletTransactionRequest}
use edict.Wallet.Intent.{ImmutableExecutionIdentity}
use edict.Execution.V4.Types.{
  AttemptState, FreshnessStatus, StaleReason, nonce_mismatch, price_report_expired,
  NonceFreshnessEvidence, PreparationAttempt, WriteOperationV4, ApprovalRecordV2, ExecutionRunV4,
}
use edict.Execution.V4.Contracts.{parse_nonce_evidence, is_fresh, differ}
use edict.Execution.V4.Base.{PreparationSubject, op_v4, active_attempt}

pub record V4PreparationFoundationInput : Type 0 where
  pub attempt_id : String
  pub freshness_policy_version : String

-- what a preparation reads of a run of any version
pub record PreparedRun : Type 0 where
  pub id : String
  pub revision : ℕ
  pub approval_revision : ℕ
  pub manifest_hash : String
  pub plan_hash : String
  pub operation_id : String
  pub required_signer : String

abbrev pub of_v4 : ExecutionRunV4 → OperationKind → PreparedRun
of_v4 run kind = record {
  id = run.id;
  revision = run.revision;
  approval_revision = run.approval.approval_revision;
  manifest_hash = run.manifest_hash;
  plan_hash = run.plan_hash;
  operation_id = (op_v4 run kind).id;
  required_signer = run.required_signer.wallet_address;
}

abbrev pub of_legacy : ExecutionRunV1 → ApprovalRecordV2 → OperationKind → PreparedRun
of_legacy run approval kind = record {
  id = run.id;
  revision = run.revision;
  approval_revision = approval.approval_revision;
  manifest_hash = run.manifest_hash;
  plan_hash = run.plan_hash;
  operation_id = (operation_at kind run.operations).id;
  required_signer = run.required_signer.wallet_address;
}

-- the request lacks a field, or is no type 2 request of the signer on Sepolia
unfoldable pub unfit_request : String → String → WalletTransactionRequest → Bool
unfit_request chain_id signer r =
    not (str_eq chain_id "0xaa36a7")
    || not (str_eq r.from signer)
    || is_none r.to
    || is_none r.calldata
    || is_none r.value
    || is_none r.nonce
    || is_none r.gas
    || not (opt_str_eq r.type "0x2")
    || is_none r.max_fee_per_gas
    || is_none r.max_priority_fee_per_gas
    || is_some r.gas_price

-- the identity of a request that has the fields
abbrev pub identity_of : WalletTransactionRequest → ImmutableExecutionIdentity
identity_of r = record {
  chain_id = "11155111";
  from = r.from;
  to = default_to "" r.to;
  calldata = default_to "" r.calldata;
  value = default_to "" r.value;
  nonce = default_to "" r.nonce;
}

abbrev pub fee_values_of : WalletTransactionRequest → FeeValues
fee_values_of r = record {
  gas_limit = default_to "" r.gas;
  max_fee_per_gas = default_to "" r.max_fee_per_gas;
  max_priority_fee_per_gas = default_to "" r.max_priority_fee_per_gas;
}

abbrev pub preparation_subject :
    PreparedRun
    → OperationKind
    → (attempt_id tx_id prepared_at : String) → ImmutableExecutionIdentity
    → (commitment : String) → FeeAuthorization
    → PreparationSubject
preparation_subject run kind attempt_id tx_id prepared_at identity commitment fee = record {
  run_id = run.id;
  run_revision = run.revision;
  approval_revision = run.approval_revision;
  manifest_hash = run.manifest_hash;
  plan_hash = run.plan_hash;
  operation_id = run.operation_id;
  operation_kind = kind;
  attempt_id = attempt_id;
  tx_id = tx_id;
  prepared_at = prepared_at;
  immutable_identity = identity;
  calldata_commitment = some commitment;
  fee_authorization = fee;
}

-- the attempt that `preparedAttempt` returns
unfoldable pub prepared_attempt_effect :
    (attempt_id : String) (sequence : ℕ) (tx_id : String)
    → Json
    → (fingerprint commitment : String) → ImmutableExecutionIdentity
    → FeeAuthorization
    → (prepared_at : String) (revision : ℕ) (policy : String) → PreparationAttempt
prepared_attempt_effect attempt_id sequence tx_id unsigned fingerprint commitment identity fee
      prepared_at revision policy =
    record {
      attempt_id = attempt_id;
      sequence = sequence;
      state = AttemptState.prepared;
      tx_id = some tx_id;
      unsigned_transaction = some unsigned;
      preparation_fingerprint = some fingerprint;
      calldata_commitment = some commitment;
      immutable_identity = some identity;
      fee_authorization = some fee;
      prepared_at = some prepared_at;
      prepared_run_revision = some revision;
      freshness_policy_version = policy;
      freshness_evaluated_at = none;
      nonce_freshness_evidence = none;
      stale_at = none;
      stale_reason = none;
    }

-- `asserted !== "NONCE_MISMATCH"` and the status that the reason asks for
abbrev pub expected_status : StaleReason → FreshnessStatus
expected_status nonce_mismatch = FreshnessStatus.stale
expected_status price_report_expired = FreshnessStatus.fresh

-- the nonce of an attempt with an identity
abbrev pub nonce_differs : NonceFreshnessEvidence → Option ImmutableExecutionIdentity → Bool
nonce_differs e none = true
nonce_differs e (some identity) = not (big_int e.prepared_nonce == big_int identity.nonce)

-- `assertNonceEvidence`
unfoldable pub assert_nonce_evidence :
    ExecutionRunV4
    → OperationKind
    → NonceFreshnessEvidence
    → FreshnessStatus
    → Result NonceFreshnessEvidence
assert_nonce_evidence run kind raw expected = do
  evidence ← parse_nonce_evidence raw
  attempt ← active_attempt (op_v4 run kind)
  refuse
      (differ (is_fresh evidence.status) (is_fresh expected)
        || not (str_eq evidence.chain_id run.chain_id)
        || not (str_eq evidence.required_signer run.required_signer.wallet_address)
        || nonce_differs evidence attempt.immutable_identity)
      illegal_state_transition
  ok evidence

-- `input.kind !== "TOKENIZE" && run.tokenIdentity === null`
abbrev pub lacks_token : ExecutionRunV4 → OperationKind → Bool
lacks_token run tokenize = false
lacks_token run _ = is_none run.token_identity

-- `v4OperationFromLegacy`
abbrev pub v4_operation_from_legacy : WriteOperation → WriteOperationV4
v4_operation_from_legacy o = record {
  id = o.id;
  kind = o.kind;
  stage = o.stage;
  prepared_tx_id = o.prepared_tx_id;
  unsigned_transaction = o.unsigned_transaction;
  blockchain_tx_hash = o.blockchain_tx_hash;
  brickken_status = o.brickken_status;
  brickken_error = o.brickken_error;
  timeout = o.timeout;
  prepare_intent_at = o.prepare_intent_at;
  prepared_at = o.prepared_at;
  wallet_prompt_at = o.wallet_prompt_at;
  broadcast_at = o.broadcast_at;
  confirmed_at = o.confirmed_at;
  verified_at = o.verified_at;
  onchain_transaction_evidence = o.onchain_transaction_evidence;
  transaction_receipt_evidence = o.transaction_receipt_evidence;
  preparation_attempts = [];
  active_preparation_attempt_id = none;
  wallet_prompt_authorization = none;
  rpc_transaction_evidence = none;
  brickken_correlation = none;
  brickken_status_evidence = [];
}

-- the approval of a run, where it has a proof
abbrev pub proven_approval : Option ApprovalRecord → Result ApprovalRecordV2
proven_approval none = err illegal_state_transition
proven_approval (some a) = elim a.proof [
  | none ↦ err illegal_state_transition
  | some proof ↦ ok (record {
    plan_hash = a.plan_hash;
    approved_by_wallet = a.approved_by_wallet;
    approved_at = a.approved_at;
    approval_revision = a.approval_revision;
    proof = proof;
  })
]
