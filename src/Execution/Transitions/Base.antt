-- ===== src/Execution/Transitions/Base.antt =====
-- The helpers of src/server/execution/transitions.ts.
use edict.Prelude.{
  ◌+◌, String, Bool, true, not, ◌&&◌, ◌||◌, Option, none, some, [], ◌∷◌, ◌++◌, is_some, is_none,
  length,
}
use edict.Core.Json.{is_canonical, Json}
use edict.Execution.Result.{
  Result, ok, illegal_state_transition, canonical_json_refused, ◌>>◌, refuse,
}
use edict.Execution.Kind.{
  OperationKind, tokenize, whitelist, mint, RunPhase, reconciliation_required, read_back_verified,
  EventActor, user, server, wallet, brickken, phase_eq, status_eq, stage_eq,
}
use edict.Execution.Types.{
  WriteOperation, AuditEvent, ExecutionRunV1, ExecutionRunEvent, operation_at, with_operation,
}

abbrev pub phase_for_kind : OperationKind → RunPhase
phase_for_kind tokenize = RunPhase.tokenization
phase_for_kind whitelist = RunPhase.whitelist
phase_for_kind mint = RunPhase.mint

abbrev pub op : ExecutionRunV1 → OperationKind → WriteOperation
op run kind = operation_at kind run.operations

-- The patch is a function that gives the patched fields anew; `kind` and `id` are put back.
abbrev pub replace_operation :
    ExecutionRunV1 → OperationKind → (WriteOperation → WriteOperation) → ExecutionRunV1
replace_operation run kind patch =
    let current = op run kind in
    let next = record (patch current) { kind = current.kind; id = current.id } in
    record run { operations = with_operation kind next run.operations }

abbrev pub event_id : ExecutionRunEvent → String
event_id (ExecutionRunEvent.approve_plan id at _ _ _) = id
event_id (ExecutionRunEvent.cancel_run id at) = id
event_id (ExecutionRunEvent.begin_prepare id at _) = id
event_id (ExecutionRunEvent.record_prepared id at _ _ _) = id
event_id (ExecutionRunEvent.record_prepare_unknown id at _ _) = id
event_id (ExecutionRunEvent.record_prepare_failure id at _ _) = id
event_id (ExecutionRunEvent.record_prepare_interrupted id at _ _) = id
event_id (ExecutionRunEvent.record_wallet_prompt id at _) = id
event_id (ExecutionRunEvent.record_wallet_rejection id at _) = id
event_id (ExecutionRunEvent.record_broadcast_hash id at _ _) = id
event_id (ExecutionRunEvent.record_broadcast_unknown id at _) = id
event_id (ExecutionRunEvent.record_onchain_transaction_evidence id at _ _) = id
event_id (ExecutionRunEvent.record_transaction_receipt_evidence id at _ _) = id
event_id (ExecutionRunEvent.submit_confirmation id at _) = id
event_id (ExecutionRunEvent.record_pending id at _) = id
event_id (ExecutionRunEvent.record_confirm_transport_failure id at _) = id
event_id (ExecutionRunEvent.record_confirmed id at _) = id
event_id (ExecutionRunEvent.record_rejected id at _ _) = id
event_id (ExecutionRunEvent.record_poll_timeout id at _) = id
event_id (ExecutionRunEvent.record_read_back_verified id at _ _) = id
event_id (ExecutionRunEvent.record_read_back_mismatch id at _) = id
event_id (ExecutionRunEvent.record_final_verification id at) = id

abbrev pub event_at : ExecutionRunEvent → String
event_at (ExecutionRunEvent.approve_plan id at _ _ _) = at
event_at (ExecutionRunEvent.cancel_run id at) = at
event_at (ExecutionRunEvent.begin_prepare id at _) = at
event_at (ExecutionRunEvent.record_prepared id at _ _ _) = at
event_at (ExecutionRunEvent.record_prepare_unknown id at _ _) = at
event_at (ExecutionRunEvent.record_prepare_failure id at _ _) = at
event_at (ExecutionRunEvent.record_prepare_interrupted id at _ _) = at
event_at (ExecutionRunEvent.record_wallet_prompt id at _) = at
event_at (ExecutionRunEvent.record_wallet_rejection id at _) = at
event_at (ExecutionRunEvent.record_broadcast_hash id at _ _) = at
event_at (ExecutionRunEvent.record_broadcast_unknown id at _) = at
event_at (ExecutionRunEvent.record_onchain_transaction_evidence id at _ _) = at
event_at (ExecutionRunEvent.record_transaction_receipt_evidence id at _ _) = at
event_at (ExecutionRunEvent.submit_confirmation id at _) = at
event_at (ExecutionRunEvent.record_pending id at _) = at
event_at (ExecutionRunEvent.record_confirm_transport_failure id at _) = at
event_at (ExecutionRunEvent.record_confirmed id at _) = at
event_at (ExecutionRunEvent.record_rejected id at _ _) = at
event_at (ExecutionRunEvent.record_poll_timeout id at _) = at
event_at (ExecutionRunEvent.record_read_back_verified id at _ _) = at
event_at (ExecutionRunEvent.record_read_back_mismatch id at _) = at
event_at (ExecutionRunEvent.record_final_verification id at) = at

abbrev pub event_type : ExecutionRunEvent → String
event_type (ExecutionRunEvent.approve_plan _ _ _ _ _) = "APPROVE_PLAN"
event_type (ExecutionRunEvent.cancel_run _ _) = "CANCEL_RUN"
event_type (ExecutionRunEvent.begin_prepare _ _ _) = "BEGIN_PREPARE"
event_type (ExecutionRunEvent.record_prepared _ _ _ _ _) = "RECORD_PREPARED"
event_type (ExecutionRunEvent.record_prepare_unknown _ _ _ _) = "RECORD_PREPARE_UNKNOWN"
event_type (ExecutionRunEvent.record_prepare_failure _ _ _ _) = "RECORD_PREPARE_FAILURE"
event_type (ExecutionRunEvent.record_prepare_interrupted _ _ _ _) = "RECORD_PREPARE_INTERRUPTED"
event_type (ExecutionRunEvent.record_wallet_prompt _ _ _) = "RECORD_WALLET_PROMPT"
event_type (ExecutionRunEvent.record_wallet_rejection _ _ _) = "RECORD_WALLET_REJECTION"
event_type (ExecutionRunEvent.record_broadcast_hash _ _ _ _) = "RECORD_BROADCAST_HASH"
event_type (ExecutionRunEvent.record_broadcast_unknown _ _ _) = "RECORD_BROADCAST_UNKNOWN"
event_type (ExecutionRunEvent.record_onchain_transaction_evidence _ _ _ _) =
    "RECORD_ONCHAIN_TRANSACTION_EVIDENCE"
event_type (ExecutionRunEvent.record_transaction_receipt_evidence _ _ _ _) =
    "RECORD_TRANSACTION_RECEIPT_EVIDENCE"
event_type (ExecutionRunEvent.submit_confirmation _ _ _) = "SUBMIT_CONFIRMATION"
event_type (ExecutionRunEvent.record_pending _ _ _) = "RECORD_PENDING"
event_type (ExecutionRunEvent.record_confirm_transport_failure _ _ _) =
    "RECORD_CONFIRM_TRANSPORT_FAILURE"
event_type (ExecutionRunEvent.record_confirmed _ _ _) = "RECORD_CONFIRMED"
event_type (ExecutionRunEvent.record_rejected _ _ _ _) = "RECORD_REJECTED"
event_type (ExecutionRunEvent.record_poll_timeout _ _ _) = "RECORD_POLL_TIMEOUT"
event_type (ExecutionRunEvent.record_read_back_verified _ _ _ _) = "RECORD_READ_BACK_VERIFIED"
event_type (ExecutionRunEvent.record_read_back_mismatch _ _ _) = "RECORD_READ_BACK_MISMATCH"
event_type (ExecutionRunEvent.record_final_verification _ _) = "RECORD_FINAL_VERIFICATION"

abbrev pub actor_for : ExecutionRunEvent → EventActor
actor_for (ExecutionRunEvent.approve_plan _ _ _ _ _) = user
actor_for (ExecutionRunEvent.cancel_run _ _) = user
actor_for (ExecutionRunEvent.record_wallet_prompt _ _ _) = user
actor_for (ExecutionRunEvent.record_wallet_rejection _ _ _) = user
actor_for (ExecutionRunEvent.record_broadcast_hash _ _ _ _) = wallet
actor_for (ExecutionRunEvent.record_broadcast_unknown _ _ _) = wallet
actor_for (ExecutionRunEvent.record_pending _ _ _) = brickken
actor_for (ExecutionRunEvent.record_confirmed _ _ _) = brickken
actor_for (ExecutionRunEvent.record_rejected _ _ _ _) = brickken
actor_for _ = server

abbrev pub audit_event : ExecutionRunV1 → ExecutionRunEvent → Option OperationKind → AuditEvent
audit_event run event kind = record {
  id = event_id event;
  sequence = length run.events + 1;
  type = event_type event;
  at = event_at event;
  actor = actor_for event;
  operation_kind = kind;
}

abbrev pub append_event : ExecutionRunV1 → ExecutionRunEvent → Option OperationKind → ExecutionRunV1
append_event run event kind = record run {
  updated_at = event_at event;
  events = run.events ++ audit_event run event kind ∷ [];
}

abbrev pub predecessor_verified : ExecutionRunV1 → OperationKind → Bool
predecessor_verified run tokenize = true
predecessor_verified run whitelist = stage_eq (op run tokenize).stage read_back_verified
predecessor_verified run mint = stage_eq (op run whitelist).stage read_back_verified

abbrev pub has_any_broadcast_hash : ExecutionRunV1 → Bool
has_any_broadcast_hash run =
    is_some run.operations.op0.blockchain_tx_hash
    || is_some run.operations.op1.blockchain_tx_hash
    || is_some run.operations.op2.blockchain_tx_hash

abbrev pub assert_not_terminal : ExecutionRunV1 → Result (Unit {0})
assert_not_terminal run = refuse (is_some run.terminal_outcome) illegal_state_transition

-- `run.status === "RECONCILIATION_REQUIRED"`
abbrev pub needs_reconciliation : ExecutionRunV1 → Bool
needs_reconciliation run = status_eq run.status reconciliation_required

abbrev pub assert_not_blocked : ExecutionRunV1 → Result (Unit {0})
assert_not_blocked run = do
  assert_not_terminal run
  refuse (needs_reconciliation run) illegal_state_transition

abbrev pub assert_matching_phase : ExecutionRunV1 → OperationKind → Result (Unit {0})
assert_matching_phase run kind =
    refuse (not (phase_eq run.phase (phase_for_kind kind))) illegal_state_transition

abbrev pub assert_approved : ExecutionRunV1 → Result (Unit {0})
assert_approved run = refuse (is_none run.approval) illegal_state_transition

abbrev pub optional_is_canonical : Option Json → Bool
optional_is_canonical none = true
optional_is_canonical (some v) = is_canonical v

-- The parts of a run that can hold a value which `canonicalizeJson` refuses are the three unsigned
-- transactions.
abbrev pub run_is_canonical : ExecutionRunV1 → Bool
run_is_canonical run =
    optional_is_canonical run.operations.op0.unsigned_transaction
    && optional_is_canonical run.operations.op1.unsigned_transaction
    && optional_is_canonical run.operations.op2.unsigned_transaction

abbrev pub clone_run : ExecutionRunV1 → Result ExecutionRunV1
clone_run run = do refuse (not (run_is_canonical run)) canonical_json_refused; ok run

-- `{ txId, txHash }`
pub record ConfirmationPair : Type 0 where
  pub tx_id : String
  pub tx_hash : String

-- both parts of a pair, where both are there
abbrev pub pair_of : Option String → Option String → Option ConfirmationPair
pair_of (some id) (some hash) = some (record { tx_id = id; tx_hash = hash })
pair_of _ _ = none

-- `persistedConfirmationPair`
abbrev pub persisted_confirmation_pair : ExecutionRunV1 → OperationKind → Option ConfirmationPair
persisted_confirmation_pair run kind =
    pair_of (op run kind).prepared_tx_id (op run kind).blockchain_tx_hash
