-- ===== src/Execution/V4/Attempts.antt =====
-- The transitions on preparation attempts: `preparedAttempt`, `upgradePreparedRunToV4`,
-- `markPreparedStaleV4` to `recordReprepareOutcomeV4` and `recordInitialPreparationV4` of
-- src/server/execution/v4-transitions.ts.
use edict.Prelude.{
  ℕ, ◌+◌, String, Bool, true, false, not, ◌||◌, Option, none, some, List, [], ◌∷◌, ◌++◌, leb,
  length, ◌==◌, str_eq, is_some, if◌then◌else◌, default_to, any,
}
use edict.Core.Json.{Json, json_clone}
use edict.Execution.Result.{
  Result, ok, err, illegal_state_transition, canonical_json_refused, ◌>>=◌, ◌>>◌, refuse,
}
use edict.Execution.Kind.{
  OperationKind, preparing, awaiting_wallet, RunStatus, reconciliation_required, TerminalOutcome,
  OperationStage, not_started, prepared_stale, stage_eq, user, server, brickken,
}
use edict.Execution.Evidence.{AddressLibrary}
use edict.Execution.Types.{ExecutionRunV1, operation_at, with_operation, Operations}
use edict.Execution.Transitions.Base.{run_is_canonical}
use edict.Fee.Policy.{create_server_bounded_fee_authorization}
use edict.Wallet.Transaction.Project.{project_prepared_transaction}
use edict.Wallet.Intent.{parse_execution_identity}
use edict.Execution.V4.Types.{
  AttemptState, StaleReason, nonce_mismatch, NonceFreshnessEvidence, PreparationAttempt,
  WriteOperationV4, ApprovalRecordV2, ExecutionRunV4, ExecutionRun, legacy, v4,
}
use edict.Execution.V4.Base.{
  Hashing, op_v4, append_event_v4, replace_operation_v4, active_attempt, replace_active_attempt,
  clone_v4,
}
use edict.Execution.V4.Preparation.{
  V4PreparationFoundationInput, PreparedRun, of_v4, of_legacy, unfit_request, preparation_subject,
  identity_of, fee_values_of, prepared_attempt_effect, expected_status, assert_nonce_evidence,
  lacks_token, v4_operation_from_legacy, proven_approval,
}

abbrev pub is_reprepare_intent : AttemptState → Bool
is_reprepare_intent AttemptState.reprepare_intent = true
is_reprepare_intent _ = false

abbrev pub is_stale_attempt : AttemptState → Bool
is_stale_attempt AttemptState.stale = true
is_stale_attempt _ = false

-- the run after an accepted `mark_prepared_stale`
unfoldable pub mark_prepared_stale_effect :
    ExecutionRunV4 → OperationKind → List PreparationAttempt → (id at : String) → ExecutionRunV4
mark_prepared_stale_effect run kind attempts id at =
    append_event_v4
      (replace_operation_v4 (record run { status = awaiting_wallet }) kind
        (record (op_v4 run kind) { preparation_attempts = attempts; stage = prepared_stale }))
      id at "MARK_PREPARED_STALE" kind server

-- the attempt that is stale on the evidence
abbrev pub stale_attempt :
    PreparationAttempt → NonceFreshnessEvidence → StaleReason → (at : String) → PreparationAttempt
stale_attempt attempt evidence reason at = record attempt {
  state = AttemptState.stale;
  freshness_evaluated_at = some evidence.observed_at;
  nonce_freshness_evidence = some evidence;
  stale_at = some at;
  stale_reason = some reason;
}

-- the attempt that `beginReprepareV4` adds
abbrev pub intended_attempt : String → ℕ → String → PreparationAttempt
intended_attempt id sequence policy = record {
  attempt_id = id;
  sequence = sequence;
  state = AttemptState.reprepare_intent;
  tx_id = none;
  unsigned_transaction = none;
  preparation_fingerprint = none;
  calldata_commitment = none;
  immutable_identity = none;
  fee_authorization = none;
  prepared_at = none;
  prepared_run_revision = none;
  freshness_policy_version = policy;
  freshness_evaluated_at = none;
  nonce_freshness_evidence = none;
  stale_at = none;
  stale_reason = none;
}

unfoldable pub begin_reprepare_effect :
    ExecutionRunV4 → OperationKind → (attempt_id policy id at : String) → ExecutionRunV4
begin_reprepare_effect run kind attempt_id policy id at =
    let o = op_v4 run kind in
    let attempt = intended_attempt attempt_id (length o.preparation_attempts + 1) policy in
    append_event_v4
      (replace_operation_v4 (record run { status = preparing }) kind
        (record o {
          stage = OperationStage.reprepare_intent;
          prepared_tx_id = none;
          unsigned_transaction = none;
          prepared_at = none;
          preparation_attempts = o.preparation_attempts ++ attempt ∷ [];
          active_preparation_attempt_id = some attempt_id;
        }))
      id at "BEGIN_REPREPARE" kind user

-- `operation.preparationAttempts.some((attempt) => attempt.attemptId === input.attemptId)`
abbrev pub has_id : String → PreparationAttempt → Bool
has_id id a = str_eq a.attempt_id id

unfoldable pub begin_reprepare :
    ExecutionRunV4 → OperationKind → (attempt_id id at : String) → Result ExecutionRunV4
begin_reprepare given kind attempt_id id at = do
  run ← clone_v4 given
  let o = op_v4 run kind
  prior ← active_attempt o
  refuse
      (leb 2 (length o.preparation_attempts)
        || not (stage_eq o.stage prepared_stale)
        || not (is_stale_attempt prior.state)
        || is_some o.wallet_prompt_authorization
        || is_some o.blockchain_tx_hash
        || any (has_id attempt_id) o.preparation_attempts)
      illegal_state_transition
  ok (begin_reprepare_effect run kind attempt_id prior.freshness_policy_version id at)

unfoldable pub record_reprepared_effect :
    ExecutionRunV4
    → OperationKind
    → List PreparationAttempt
    → (tx_id : String) → Json
    → (id at : String) → ExecutionRunV4
record_reprepared_effect run kind attempts tx_id unsigned id at =
    append_event_v4
      (replace_operation_v4 (record run { status = awaiting_wallet }) kind
        (record (op_v4 run kind) {
          preparation_attempts = attempts;
          stage = OperationStage.prepared;
          prepared_tx_id = some tx_id;
          unsigned_transaction = some unsigned;
          prepared_at = some at;
        }))
      id at "RECORD_REPREPARED" kind brickken

-- `outcome`: `"PREPARE_UNKNOWN"` or `"REFUSED"`
pub data ReprepareOutcome : Type 0 where
  prepare_unknown refused : ReprepareOutcome

abbrev pub outcome_state : ReprepareOutcome → AttemptState
outcome_state ReprepareOutcome.prepare_unknown = AttemptState.prepare_unknown
outcome_state ReprepareOutcome.refused = AttemptState.refused

abbrev pub is_refused : ReprepareOutcome → Bool
is_refused ReprepareOutcome.prepare_unknown = false
is_refused ReprepareOutcome.refused = true

unfoldable pub record_reprepare_outcome_effect :
    ExecutionRunV4
    → OperationKind
    → List PreparationAttempt
    → ReprepareOutcome
    → (id at : String) → ExecutionRunV4
record_reprepare_outcome_effect run kind attempts outcome id at =
    let no = is_refused outcome in
    append_event_v4
      (replace_operation_v4
        (record run {
          status = if no then RunStatus.failed else reconciliation_required;
          terminal_outcome = if no then some TerminalOutcome.failed else run.terminal_outcome;
        })
        kind
        (record (op_v4 run kind) {
          preparation_attempts = attempts;
          stage = if no then OperationStage.rejected else OperationStage.prepare_unknown;
        }))
      id at (if no then "RECORD_REFUSED" else "RECORD_PREPARE_UNKNOWN") kind brickken

unfoldable pub record_reprepare_outcome :
    ExecutionRunV4 → OperationKind → ReprepareOutcome → (id at : String) → Result ExecutionRunV4
record_reprepare_outcome given kind outcome id at = do
  run ← clone_v4 given
  let o = op_v4 run kind
  active ← active_attempt o
  refuse
      (not (stage_eq o.stage OperationStage.reprepare_intent)
        || not (is_reprepare_intent active.state))
      illegal_state_transition
  attempts ← replace_active_attempt o (record active { state = outcome_state outcome })
  ok (record_reprepare_outcome_effect run kind attempts outcome id at)

unfoldable pub record_initial_preparation_effect :
    ExecutionRunV4
    → OperationKind
    → PreparationAttempt
    → (tx_id : String) → Json
    → (id at : String) → ExecutionRunV4
record_initial_preparation_effect run kind attempt tx_id unsigned id at =
    append_event_v4
      (replace_operation_v4 (record run { status = awaiting_wallet }) kind
        (record (op_v4 run kind) {
          stage = OperationStage.prepared;
          prepared_tx_id = some tx_id;
          unsigned_transaction = some unsigned;
          prepared_at = some at;
          preparation_attempts = attempt ∷ [];
          active_preparation_attempt_id = some attempt.attempt_id;
        }))
      id at "RECORD_PREPARED" kind server

-- the run that `upgradePreparedRunToV4` makes of an older one
unfoldable pub upgrade_effect :
    ExecutionRunV1 → OperationKind → ApprovalRecordV2 → PreparationAttempt → ExecutionRunV4
upgrade_effect run kind approval attempt =
    let operations : Operations WriteOperationV4 = record {
      op0 = v4_operation_from_legacy run.operations.op0;
      op1 = v4_operation_from_legacy run.operations.op1;
      op2 = v4_operation_from_legacy run.operations.op2;
    } in
    record {
      id = run.id;
      manifest = run.manifest;
      manifest_hash = run.manifest_hash;
      plan = run.plan;
      plan_hash = run.plan_hash;
      environment = run.environment;
      chain_id = run.chain_id;
      required_signer = run.required_signer;
      phase = run.phase;
      status = run.status;
      terminal_outcome = run.terminal_outcome;
      approval = approval;
      operations =
          with_operation kind
            (record (operation_at kind operations) {
              preparation_attempts = attempt ∷ [];
              active_preparation_attempt_id = some attempt.attempt_id;
            })
            operations;
      observations = run.observations;
      events = run.events;
      receipt_eligible = run.receipt_eligible;
      created_at = run.created_at;
      updated_at = run.updated_at;
      revision = run.revision;
      token_identity = none;
    }

-- a field that is not `null`
abbrev pub given {ℓ} : {A : Type ℓ} → Option A → Result A
given none = err illegal_state_transition
given (some a) = ok a

module _ (viem : AddressLibrary) (hashing : Hashing) where
  open hashing use {sha256_utf8, hash_preparation}

  -- `preparedAttempt`
  unfoldable pub prepared_attempt :
      PreparedRun
      → OperationKind
      → (attempt_id : String) (sequence : ℕ) (tx_id : String) → Json
      → (prepared_at policy : String) → Result PreparationAttempt
  prepared_attempt run kind attempt_id sequence tx_id unsigned prepared_at policy = do
    normalized ← project_prepared_transaction viem unsigned
    let request = normalized.wallet_request
    refuse (unfit_request normalized.chain_id run.required_signer request) illegal_state_transition
    identity ← parse_execution_identity (identity_of request)
    fee ←
        create_server_bounded_fee_authorization
          (record { values = fee_values_of request; prepared_access_list = request.access_list })
    let commitment = sha256_utf8 identity.calldata
    let fingerprint =
        hash_preparation
          (preparation_subject run kind attempt_id tx_id prepared_at identity commitment fee)
    cloned ← json_clone unsigned
    ok (
        prepared_attempt_effect attempt_id sequence tx_id cloned fingerprint commitment identity fee
          prepared_at run.revision policy)

  -- `upgradePreparedRunToV4`
  unfoldable pub upgrade_prepared_run :
      ExecutionRun → OperationKind → V4PreparationFoundationInput → Result ExecutionRunV4
  upgrade_prepared_run (v4 run) kind foundation = clone_v4 run
  upgrade_prepared_run (legacy run) kind foundation = do
    approval ← proven_approval run.approval
    let current = operation_at kind run.operations
    refuse (not (stage_eq current.stage OperationStage.prepared)) illegal_state_transition
    tx_id ← given current.prepared_tx_id
    unsigned ← given current.unsigned_transaction
    prepared_at ← given current.prepared_at
    refuse (is_some current.blockchain_tx_hash) illegal_state_transition
    attempt ←
        prepared_attempt (of_legacy run approval kind) kind foundation.attempt_id 1 tx_id unsigned
          prepared_at foundation.freshness_policy_version
    refuse (not (run_is_canonical run)) canonical_json_refused
    ok (upgrade_effect run kind approval attempt)

  -- `markPreparedStaleV4`
  unfoldable pub mark_prepared_stale :
      ExecutionRun
      → OperationKind
      → V4PreparationFoundationInput
      → NonceFreshnessEvidence
      → Option StaleReason
      → (id at : String) → Result ExecutionRunV4
  mark_prepared_stale raw kind foundation nonce_evidence stale_reason id at = do
    run ← upgrade_prepared_run raw kind foundation
    let o = op_v4 run kind
    refuse (not (stage_eq o.stage OperationStage.prepared) || is_some o.wallet_prompt_authorization)
        illegal_state_transition
    refuse (lacks_token run kind) illegal_state_transition
    let reason = default_to nonce_mismatch stale_reason
    evidence ← assert_nonce_evidence run kind nonce_evidence (expected_status reason)
    refuse (not (str_eq evidence.observed_at at)) illegal_state_transition
    attempt ← active_attempt o
    attempts ← replace_active_attempt o (stale_attempt attempt evidence reason at)
    ok (mark_prepared_stale_effect run kind attempts id at)

  -- `recordRepreparedV4`
  unfoldable pub record_reprepared :
      ExecutionRunV4
      → OperationKind
      → (tx_id : String) → Json
      → (id at : String) → Result ExecutionRunV4
  record_reprepared given_run kind tx_id unsigned id at = do
    run ← clone_v4 given_run
    let o = op_v4 run kind
    active ← active_attempt o
    refuse
        (not (stage_eq o.stage OperationStage.reprepare_intent)
          || not (is_reprepare_intent active.state))
        illegal_state_transition
    attempt ←
        prepared_attempt (of_v4 run kind) kind active.attempt_id active.sequence tx_id unsigned at
          active.freshness_policy_version
    attempts ← replace_active_attempt o attempt
    cloned ← json_clone unsigned
    ok (record_reprepared_effect run kind attempts tx_id cloned id at)

  -- `recordInitialPreparationV4`
  unfoldable pub record_initial_preparation :
      ExecutionRunV4
      → OperationKind
      → (tx_id : String) → Json
      → (attempt_id policy id at : String) → Result ExecutionRunV4
  record_initial_preparation given_run kind tx_id unsigned attempt_id policy id at = do
    run ← clone_v4 given_run
    let o = op_v4 run kind
    refuse
        (not (stage_eq o.stage not_started)
          || not (length o.preparation_attempts == 0)
          || is_some o.active_preparation_attempt_id
          || is_some o.blockchain_tx_hash)
        illegal_state_transition
    attempt ← prepared_attempt (of_v4 run kind) kind attempt_id 1 tx_id unsigned at policy
    cloned ← json_clone unsigned
    ok (record_initial_preparation_effect run kind attempt tx_id cloned id at)
