-- ===== src/Execution/Transitions/Preparation.antt =====
-- Approval, cancellation and the preparation of an operation:
-- src/server/execution/transitions.ts, `approve` to `recordPrepareInterrupted`.
use edict.Prelude.{
  String, Bool, not, ◌||◌, Option, none, some, default_to, is_some, str_eq, ◌==◌, if◌then◌else◌,
}
use edict.Text.{lower, is_wallet}
use edict.Core.Json.{Json, text, is_plain_object, json_clone}
use edict.Execution.Result.{
  Result, ok, err, illegal_state_transition, invalid_approval, ◌>>=◌, ◌>>◌, refuse,
}
use edict.Execution.Kind.{
  OperationKind, RunPhase, RunStatus, TerminalOutcome, awaiting_approval, preparing,
  awaiting_wallet, reconciliation_required, not_started, prepare_intent, prepared, prepare_unknown,
  OperationStage, PreparationFailureCode, phase_eq, status_eq, stage_eq,
}
use edict.Execution.Types.{ApprovalProof, ExecutionRunV1, ExecutionRunEvent, version2}
use edict.Execution.Transitions.Base.{
  op, replace_operation, append_event, predecessor_verified, has_any_broadcast_hash,
  assert_not_blocked, assert_matching_phase, assert_approved,
}

-- the twelve comparisons of the proof with the run
unfoldable pub proof_mismatch : ExecutionRunV1 → ApprovalProof → String → String → Bool
proof_mismatch run proof wallet at =
    not (str_eq proof.scheme "EIP712_EOA")
    || not (str_eq proof.proof_version "1.0")
    || not (str_eq proof.domain_version "1")
    || not (str_eq proof.run_id run.id)
    || not (str_eq proof.manifest_hash run.manifest_hash)
    || not (str_eq proof.plan_hash run.plan_hash)
    || not (str_eq proof.environment run.environment)
    || not (str_eq proof.chain_id run.chain_id)
    || not (proof.approval_revision == run.revision)
    || not (str_eq proof.required_signer run.required_signer.wallet_address)
    || not (str_eq proof.recovered_signer wallet)
    || not (str_eq proof.verified_at at)

-- the run after an accepted `approve`
unfoldable pub approve_effect :
    ExecutionRunV1
    → (id at plan_hash approved_by_wallet : String) → ApprovalProof
    → (wallet : String) → ExecutionRunV1
approve_effect run id at plan_hash approved_by_wallet proof wallet =
    append_event
      (record run {
        schema_version = version2;
        phase = RunPhase.tokenization;
        status = preparing;
        approval = some (record {
          plan_hash = run.plan_hash;
          approved_by_wallet = wallet;
          approved_at = at;
          approval_revision = run.revision;
          proof = some proof;
        });
      })
      (ExecutionRunEvent.approve_plan id at plan_hash approved_by_wallet proof) none

unfoldable pub approve :
    ExecutionRunV1
    → (id at plan_hash approved_by_wallet : String) → ApprovalProof
    → Result ExecutionRunV1
approve run id at plan_hash approved_by_wallet proof = do
  refuse
      (not (phase_eq run.phase RunPhase.plan)
        || not (status_eq run.status awaiting_approval)
        || is_some run.approval)
      invalid_approval
  refuse (not (str_eq plan_hash run.plan_hash)) invalid_approval
  let wallet = lower approved_by_wallet
  refuse (not (is_wallet wallet) || not (str_eq wallet run.required_signer.wallet_address))
      invalid_approval
  refuse (proof_mismatch run proof wallet at) invalid_approval
  ok (approve_effect run id at plan_hash approved_by_wallet proof wallet)

-- the run after an accepted `cancel`
unfoldable pub cancel_effect : ExecutionRunV1 → (id at : String) → ExecutionRunV1
cancel_effect run id at =
    append_event
      (record run { status = RunStatus.failed; terminal_outcome = some TerminalOutcome.cancelled })
      (ExecutionRunEvent.cancel_run id at) none

unfoldable pub cancel : ExecutionRunV1 → (id at : String) → Result ExecutionRunV1
cancel run id at = do
  assert_not_blocked run
  refuse (has_any_broadcast_hash run) illegal_state_transition
  ok (cancel_effect run id at)

-- the run after an accepted `begin_prepare`
unfoldable pub begin_prepare_effect :
    ExecutionRunV1 → (id at : String) → OperationKind → ExecutionRunV1
begin_prepare_effect run id at kind =
    append_event
      (replace_operation (record run { status = preparing }) kind
        (λ o. record o { stage = prepare_intent; prepare_intent_at = some at }))
      (ExecutionRunEvent.begin_prepare id at kind) (some kind)

unfoldable pub begin_prepare :
    ExecutionRunV1 → (id at : String) → OperationKind → Result ExecutionRunV1
begin_prepare run id at kind = do
  assert_not_blocked run
  assert_approved run
  assert_matching_phase run kind
  refuse (not (predecessor_verified run kind)) illegal_state_transition
  let current = op run kind
  refuse (not (stage_eq current.stage not_started) || is_some current.prepared_tx_id)
      illegal_state_transition
  ok (begin_prepare_effect run id at kind)

-- `typeof txId !== "string" || txId.length === 0 || Array.isArray(txId)`, and the text otherwise
unfoldable pub tx_id_text : Json → Option String
tx_id_text (text s) = if str_eq s "" then none else some s
tx_id_text _ = none

abbrev pub required {ℓ} : {A : Type ℓ} → Option A → Result A
required none = err illegal_state_transition
required (some a) = ok a

-- the run after an accepted `record_prepared`
unfoldable pub record_prepared_effect :
    ExecutionRunV1
    → (id at : String) → OperationKind
    → (tx_id unsigned_transaction : Json) (tx : String) (cloned : Json) → ExecutionRunV1
record_prepared_effect run id at kind tx_id unsigned_transaction tx cloned =
    append_event
      (replace_operation (record run { status = awaiting_wallet }) kind
        (λ o. record o {
          stage = prepared;
          prepared_tx_id = some tx;
          unsigned_transaction = some cloned;
          prepared_at = some at;
        }))
      (ExecutionRunEvent.record_prepared id at kind tx_id unsigned_transaction) (some kind)

unfoldable pub record_prepared :
    ExecutionRunV1
    → (id at : String) → OperationKind
    → (tx_id unsigned_transaction : Json) → Result ExecutionRunV1
record_prepared run id at kind tx_id unsigned_transaction = do
  assert_not_blocked run
  refuse (not (stage_eq (op run kind).stage prepare_intent)) illegal_state_transition
  tx ← required (tx_id_text tx_id)
  refuse (not (is_plain_object unsigned_transaction)) illegal_state_transition
  cloned ← json_clone unsigned_transaction
  ok (record_prepared_effect run id at kind tx_id unsigned_transaction tx cloned)

abbrev pub failure_code_text : PreparationFailureCode → String
failure_code_text PreparationFailureCode.authentication_rejected = "AUTHENTICATION_REJECTED"
failure_code_text PreparationFailureCode.entitlement_rejected = "ENTITLEMENT_REJECTED"
failure_code_text PreparationFailureCode.credits_exhausted = "CREDITS_EXHAUSTED"
failure_code_text PreparationFailureCode.invalid_request = "INVALID_REQUEST"
failure_code_text PreparationFailureCode.signer_not_approved = "SIGNER_NOT_APPROVED"
failure_code_text PreparationFailureCode.upstream_rate_limited = "UPSTREAM_RATE_LIMITED"
failure_code_text PreparationFailureCode.upstream_server_error = "UPSTREAM_SERVER_ERROR"
failure_code_text PreparationFailureCode.preparation_refused = "PREPARATION_REFUSED"
failure_code_text PreparationFailureCode.preparation_unconfirmed = "PREPARATION_UNCONFIRMED"

-- the run after an accepted `record_prepare_unknown`
unfoldable pub record_prepare_unknown_effect :
    ExecutionRunV1
    → (id at : String) → OperationKind
    → Option PreparationFailureCode
    → ExecutionRunV1
record_prepare_unknown_effect run id at kind failure_code =
    let code = default_to PreparationFailureCode.preparation_unconfirmed failure_code in
    append_event
      (replace_operation (record run { status = reconciliation_required }) kind
        (λ o. record o { stage = prepare_unknown; brickken_error = some (failure_code_text code) }))
      (ExecutionRunEvent.record_prepare_unknown id at kind failure_code) (some kind)

unfoldable pub record_prepare_unknown :
    ExecutionRunV1
    → (id at : String) → OperationKind
    → Option PreparationFailureCode
    → Result ExecutionRunV1
record_prepare_unknown run id at kind failure_code = do
  assert_not_blocked run
  refuse (not (stage_eq (op run kind).stage prepare_intent)) illegal_state_transition
  ok (record_prepare_unknown_effect run id at kind failure_code)

-- the run after an accepted `record_prepare_failure`
unfoldable pub record_prepare_failure_effect :
    ExecutionRunV1
    → (id at : String) → OperationKind
    → Option PreparationFailureCode
    → ExecutionRunV1
record_prepare_failure_effect run id at kind failure_code =
    let code = default_to PreparationFailureCode.preparation_refused failure_code in
    append_event
      (replace_operation
        (record run { status = RunStatus.failed; terminal_outcome = some TerminalOutcome.failed })
        kind
        (λ o. record o {
          stage = OperationStage.rejected;
          brickken_error = some (failure_code_text code);
        }))
      (ExecutionRunEvent.record_prepare_failure id at kind failure_code) (some kind)

unfoldable pub record_prepare_failure :
    ExecutionRunV1
    → (id at : String) → OperationKind
    → Option PreparationFailureCode
    → Result ExecutionRunV1
record_prepare_failure run id at kind failure_code = do
  assert_not_blocked run
  refuse (not (stage_eq (op run kind).stage prepare_intent)) illegal_state_transition
  ok (record_prepare_failure_effect run id at kind failure_code)

-- the run after an accepted `record_prepare_interrupted`
unfoldable pub record_prepare_interrupted_effect :
    ExecutionRunV1
    → (id at : String) → OperationKind
    → Option PreparationFailureCode
    → ExecutionRunV1
record_prepare_interrupted_effect run id at kind failure_code =
    let code = default_to PreparationFailureCode.preparation_refused failure_code in
    append_event
      (replace_operation (record run { status = preparing }) kind
        (λ o. record o {
          stage = not_started;
          prepare_intent_at = none;
          brickken_error = some (failure_code_text code);
        }))
      (ExecutionRunEvent.record_prepare_interrupted id at kind failure_code) (some kind)

unfoldable pub record_prepare_interrupted :
    ExecutionRunV1
    → (id at : String) → OperationKind
    → Option PreparationFailureCode
    → Result ExecutionRunV1
record_prepare_interrupted run id at kind failure_code = do
  assert_not_blocked run
  refuse (not (stage_eq (op run kind).stage prepare_intent)) illegal_state_transition
  ok (record_prepare_interrupted_effect run id at kind failure_code)
