-- ===== src/Execution/V4/Rpc.antt =====
-- What the trusted node reports of a broadcast transaction: `recordRpcTransactionV4` and
-- `recordRpcReceiptEvidenceV4` of src/server/execution/v4-transitions.ts. `immutableIdentity` and
-- `actualFeeFields`, of type `unknown` there, are records of texts that no schema has parsed.
use edict.Prelude.{
  ℕ, ◌-◌, String, Bool, true, false, not, ◌&&◌, ◌||◌, Option, none, some, ltb, str_eq, opt_str_eq,
  if◌then◌else◌,
}
use edict.Text.Quantity.{is_quantity_any_case, big_int, to_quantity}
use edict.Execution.Result.{Result, ok, err, illegal_state_transition, ◌>>=◌, ◌>>◌, refuse}
use edict.Execution.Kind.{
  OperationKind, OperationStage, RunStatus, TerminalOutcome, broadcast_recorded,
  reconciliation_required, broadcast_hash_persisted, rpc_transaction_verified,
  policy_violation_onchain, rpc_transaction_reconciliation_required, brickken_correlation_pending,
  brickken_correlated, stage_eq, server,
}
use edict.Execution.Evidence.{
  AddressLibrary, MatchStatus, TransactionType, type1, TransactionReceiptEvidence,
  parse_transaction_receipt_evidence,
}
use edict.Execution.Transitions.Chain.{is_clear, is_reverted, is_finalized, same_inclusion}
use edict.Fee.Schema.{FeeAuthorization, RawFeeFields}
use edict.Fee.Evaluation.{FeeAuthorizationDecision, accepted, refused, evaluate_fee_authorization}
use edict.Wallet.Intent.{ImmutableExecutionIdentity, is_observed_identity, same_identity}
use edict.Execution.V4.Types.{
  FeeAuthorizationStatus, FeePolicyViolation, refused_by, invalid_fee_evidence,
  RpcTransactionAuthorizationEvidence, ExecutionRunV4,
}
use edict.Execution.V4.Contracts.{matches, is_violation}
use edict.Execution.V4.Base.{op_v4, append_event_v4, replace_operation_v4, active_attempt, clone_v4}
use edict.Execution.V4.Attempts.{given}

-- `parseQuantityOrNull`
unfoldable pub parse_quantity_or_null : Option String → Option String
parse_quantity_or_null none = none
parse_quantity_or_null (some s) = if is_quantity_any_case s then some s else none

-- `gasPrice > baseFee ? gasPrice - baseFee : 0n`
abbrev effective_priority : ℕ → ℕ → ℕ
effective_priority gas_price base_fee = if ltb base_fee gas_price then gas_price - base_fee else 0

abbrev priority_over : Option String → Option String → Option String
priority_over (some gas_price) (some base_fee) =
    some (to_quantity (effective_priority (big_int gas_price) (big_int base_fee)))
priority_over _ _ = none

-- `observedPriorityFee`
unfoldable pub observed_priority_fee : RawFeeFields → Option String
observed_priority_fee raw =
    if opt_str_eq raw.transaction_type "0x2"
    then parse_quantity_or_null raw.max_priority_fee_per_gas
    else if opt_str_eq raw.transaction_type "0x0"
    then priority_over (parse_quantity_or_null raw.gas_price)
        (parse_quantity_or_null raw.base_fee_per_gas)
    else none

-- `observedMaxFee`
unfoldable pub observed_max_fee : RawFeeFields → Option String
observed_max_fee raw =
    parse_quantity_or_null
      (if opt_str_eq raw.transaction_type "0x2" then raw.max_fee_per_gas else raw.gas_price)

-- the decision, and nothing where the evaluation throws
abbrev pub decision_of : Result FeeAuthorizationDecision → Option FeeAuthorizationDecision
decision_of (err _) = none
decision_of (ok decision) = some decision

-- evidence of a transaction that has the prepared identity
abbrev pub matched_evidence :
    (tx_hash at : String)
    → ImmutableExecutionIdentity
    → RawFeeFields
    → FeeAuthorizationStatus
    → Option FeePolicyViolation
    → (maximum : Option String) → RpcTransactionAuthorizationEvidence
matched_evidence tx_hash at identity raw status code maximum = record {
  observed_at = at;
  transaction_hash = tx_hash;
  immutable_identity = identity;
  immutable_identity_status = MatchStatus.match;
  fee_authorization_status = status;
  fee_policy_violation_code = code;
  observed_maximum_network_fee_wei = maximum;
  observed_priority_fee_per_gas = observed_priority_fee raw;
  observed_gas_limit = parse_quantity_or_null raw.gas_limit;
  observed_max_fee_per_gas = observed_max_fee raw;
  observed_transaction_type = raw.transaction_type;
}

-- evidence of a transaction that has another identity
abbrev pub mismatched_evidence :
    (tx_hash at : String) → ImmutableExecutionIdentity → RpcTransactionAuthorizationEvidence
mismatched_evidence tx_hash at identity = record {
  observed_at = at;
  transaction_hash = tx_hash;
  immutable_identity = identity;
  immutable_identity_status = MatchStatus.mismatch;
  fee_authorization_status = FeeAuthorizationStatus.not_evaluated;
  fee_policy_violation_code = none;
  observed_maximum_network_fee_wei = none;
  observed_priority_fee_per_gas = none;
  observed_gas_limit = none;
  observed_max_fee_per_gas = none;
  observed_transaction_type = none;
}

abbrev pub with_rpc_transaction :
    ExecutionRunV4
    → OperationKind
    → RunStatus
    → OperationStage
    → Option RpcTransactionAuthorizationEvidence
    → (type id at : String) → ExecutionRunV4
with_rpc_transaction run kind status stage evidence type id at =
    append_event_v4
      (replace_operation_v4 (record run { status = status }) kind
        (record (op_v4 run kind) { stage = stage; rpc_transaction_evidence = evidence }))
      id at type kind server

abbrev pub violation_effect :
    ExecutionRunV4
    → OperationKind
    → (tx_hash : String) → ImmutableExecutionIdentity
    → RawFeeFields
    → FeePolicyViolation
    → (id at : String) → ExecutionRunV4
violation_effect run kind tx_hash observed raw code id at =
    with_rpc_transaction run kind reconciliation_required policy_violation_onchain
      (some (
        matched_evidence tx_hash at observed raw FeeAuthorizationStatus.policy_violation (some code)
          none))
      "RECORD_ONCHAIN_FEE_POLICY_VIOLATION" id at

-- the run after a decision on the fees of a transaction that has the prepared identity
unfoldable pub fee_effect :
    ExecutionRunV4
    → OperationKind
    → (tx_hash : String) → ImmutableExecutionIdentity
    → RawFeeFields
    → (id at : String) → Option FeeAuthorizationDecision
    → ExecutionRunV4
fee_effect run kind tx_hash observed raw id at none =
    violation_effect run kind tx_hash observed raw invalid_fee_evidence id at
fee_effect run kind tx_hash observed raw id at (some (refused code)) =
    violation_effect run kind tx_hash observed raw (refused_by code) id at
fee_effect run kind tx_hash observed raw id at (some (accepted maximum)) =
    with_rpc_transaction run kind broadcast_recorded rpc_transaction_verified
      (some (
        matched_evidence tx_hash at observed raw FeeAuthorizationStatus.within_envelope none
          (some maximum)))
      "RECORD_RPC_TRANSACTION_VERIFIED" id at

-- the run after an accepted `record_rpc_transaction`
unfoldable pub record_rpc_transaction_effect :
    ExecutionRunV4
    → OperationKind
    → (tx_hash : String) → (prepared observed : ImmutableExecutionIdentity) → FeeAuthorization
    → RawFeeFields
    → (id at : String) → ExecutionRunV4
record_rpc_transaction_effect run kind tx_hash prepared observed fee raw id at =
    if not (is_observed_identity observed)
    then with_rpc_transaction run kind reconciliation_required
        rpc_transaction_reconciliation_required (op_v4 run kind).rpc_transaction_evidence
        "RECORD_RPC_TRANSACTION_MISMATCH" id at
    else if not (same_identity observed prepared)
    then with_rpc_transaction run kind reconciliation_required
        rpc_transaction_reconciliation_required (some (mismatched_evidence tx_hash at observed))
        "RECORD_RPC_TRANSACTION_MISMATCH" id at
    else fee_effect run kind tx_hash observed raw id at
        (decision_of (evaluate_fee_authorization fee raw))

-- `recordRpcTransactionV4`
unfoldable pub record_rpc_transaction :
    ExecutionRunV4
    → OperationKind
    → (tx_hash : String) → ImmutableExecutionIdentity
    → RawFeeFields
    → (id at : String) → Result ExecutionRunV4
record_rpc_transaction given_run kind tx_hash observed raw id at = do
  run ← clone_v4 given_run
  let o = op_v4 run kind
  attempt ← active_attempt o
  refuse
      (not (stage_eq o.stage broadcast_hash_persisted)
        || not (opt_str_eq o.blockchain_tx_hash tx_hash))
      illegal_state_transition
  prepared ← given attempt.immutable_identity
  fee ← given attempt.fee_authorization
  ok (record_rpc_transaction_effect run kind tx_hash prepared observed fee raw id at)

-- the stages at which a receipt may be recorded
unfoldable pub takes_receipt : OperationStage → Bool
takes_receipt stage =
    stage_eq stage rpc_transaction_verified
    || stage_eq stage policy_violation_onchain
    || stage_eq stage rpc_transaction_reconciliation_required
    || stage_eq stage brickken_correlation_pending
    || stage_eq stage brickken_correlated

abbrev is_type1 : TransactionType → Bool
is_type1 type1 = true
is_type1 _ = false

-- `isContradiction`
abbrev pub contradicts : TransactionReceiptEvidence → Bool
contradicts evidence =
    not (is_clear evidence.reconciliation_status) || not (matches evidence.identity_status)

module _ (viem : AddressLibrary) where
  -- the earlier receipt does not allow this one
  unfoldable pub prior_refuses :
      Option TransactionReceiptEvidence → TransactionReceiptEvidence → Bool
  prior_refuses none evidence = false
  prior_refuses (some prior) evidence =
      is_finalized prior.finality_status
      || (not (contradicts evidence)
          && (not (same_inclusion viem prior evidence)
              || not (is_finalized evidence.finality_status)))

  -- `requiresReconciliation`
  unfoldable pub requires_reconciliation :
      RpcTransactionAuthorizationEvidence → TransactionReceiptEvidence → Bool
  requires_reconciliation rpc evidence =
      not (matches rpc.immutable_identity_status)
      || is_violation rpc.fee_authorization_status
      || not (matches evidence.identity_status)
      || not (is_clear evidence.reconciliation_status)

  unfoldable pub record_rpc_receipt_evidence_effect :
      ExecutionRunV4
      → OperationKind
      → RpcTransactionAuthorizationEvidence
      → TransactionReceiptEvidence
      → (id : String) → ExecutionRunV4
  record_rpc_receipt_evidence_effect run kind rpc evidence id =
      let blocked = requires_reconciliation rpc evidence in
      let reverted = is_reverted evidence.execution_status in
      append_event_v4
        (replace_operation_v4
          (record run {
            status =
                if blocked
                then reconciliation_required
                else if reverted
                then RunStatus.failed
                else run.status;
            terminal_outcome =
                if blocked
                then run.terminal_outcome
                else if reverted
                then some TerminalOutcome.failed
                else run.terminal_outcome;
          })
          kind (record (op_v4 run kind) { transaction_receipt_evidence = some evidence }))
        id evidence.observed_at "RECORD_V4_RPC_RECEIPT_EVIDENCE" kind server

  -- `recordRpcReceiptEvidenceV4`
  unfoldable pub record_rpc_receipt_evidence :
      ExecutionRunV4
      → OperationKind
      → TransactionReceiptEvidence
      → (id : String) → Result ExecutionRunV4
  record_rpc_receipt_evidence given_run kind raw id = do
    run ← clone_v4 given_run
    let o = op_v4 run kind
    evidence ← parse_transaction_receipt_evidence viem raw
    rpc ← given o.rpc_transaction_evidence
    refuse
        (not (takes_receipt o.stage)
          || not (opt_str_eq o.blockchain_tx_hash evidence.transaction_hash)
          || not (str_eq evidence.from rpc.immutable_identity.from)
          || not (opt_str_eq evidence.to rpc.immutable_identity.to)
          || is_type1 evidence.type)
        illegal_state_transition
    refuse (prior_refuses o.transaction_receipt_evidence evidence) illegal_state_transition
    ok (record_rpc_receipt_evidence_effect run kind rpc evidence id)
