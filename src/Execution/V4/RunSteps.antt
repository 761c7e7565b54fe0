-- ===== src/Execution/V4/RunSteps.antt =====
-- The step of a whole run of version 4.0: one operation makes a step of its state machine, the other
-- two stay, one event is appended, and the part of the run that names it stays.
pub mod Attempts
pub mod Prompt
pub mod Correlation
pub mod Rpc
pub mod ReadBack
pub mod All
use edict.Prelude.{
  ◌≡◌, refl, ℕ, ◌+◌, String, some, List, [], ◌∷◌, ◌++◌, length, ap, arith, Bool, true, false, not,
  Option, ◌∙◌, sym,
}
use edict.Execution.Kind.{OperationKind, tokenize, whitelist, mint, EventActor}
use edict.Execution.Types.{
  ExecutionManifestSnapshot, ExecutionPlanSnapshot, RequiredSigner, AuditEvent, operation_at,
  with_operation, Operations,
}
use edict.Execution.V4.Types.{ApprovalRecordV2, WriteOperationV4, ExecutionRunV4}
use edict.Execution.V4.Base.{op_v4, append_event_v4, replace_operation_v4}
use edict.Execution.V4.Steps.{OpStep}

-- what names a run and its approval, with the revision
pub record RunIdentity : Type 0 where
  pub id : String
  pub manifest : ExecutionManifestSnapshot
  pub manifest_hash : String
  pub plan : ExecutionPlanSnapshot
  pub plan_hash : String
  pub environment : String
  pub chain_id : String
  pub required_signer : RequiredSigner
  pub approval : ApprovalRecordV2
  pub created_at : String
  pub revision : ℕ

abbrev pub run_identity : ExecutionRunV4 → RunIdentity
run_identity run = record {
  id = run.id;
  manifest = run.manifest;
  manifest_hash = run.manifest_hash;
  plan = run.plan;
  plan_hash = run.plan_hash;
  environment = run.environment;
  chain_id = run.chain_id;
  required_signer = run.required_signer;
  approval = run.approval;
  created_at = run.created_at;
  revision = run.revision;
}

pub record RunStep (run next : ExecutionRunV4) (kind : OperationKind) : Type 0 where
  pub operation : WriteOperationV4
  pub step : OpStep (op_v4 run kind) operation
  pub operations : next.operations ≡ with_operation kind operation run.operations
  pub event : AuditEvent
  pub logged : next.events ≡ run.events ++ event ∷ []
  pub numbered : event.sequence ≡ length run.events + 1
  pub about : event.operation_kind ≡ some kind
  pub same_run : run_identity next ≡ run_identity run

pub operation_at-with_operation {ℓ} :
    {O : Type ℓ} (kind : OperationKind) (o : O) (ops : Operations O)
    → operation_at kind (with_operation kind o ops) ≡ o
operation_at-with_operation tokenize o ops = refl
operation_at-with_operation whitelist o ops = refl
operation_at-with_operation mint o ops = refl

pub with_operation-operation_at {ℓ} :
    {O : Type ℓ} (kind : OperationKind) (ops : Operations O)
    → with_operation kind (operation_at kind ops) ops ≡ ops
with_operation-operation_at tokenize ops = refl
with_operation-operation_at whitelist ops = refl
with_operation-operation_at mint ops = refl

-- A run with an operation replaced and an event appended makes a step where the operation does.
pub replace_operation_v4-RunStep :
    {run next : ExecutionRunV4} {kind : OperationKind} {o : WriteOperationV4}
    (middle : ExecutionRunV4) (id at type : String) (actor : EventActor)
    → next ≡ append_event_v4 (replace_operation_v4 middle kind o) id at type kind actor
    → middle.operations ≡ run.operations
    → middle.events ≡ run.events
    → run_identity middle ≡ run_identity run
    → OpStep (op_v4 run kind) o
    → RunStep run next kind
unfolding append_event_v4 replace_operation_v4
replace_operation_v4-RunStep {run} {kind = kind} {o = o} middle id at type actor e operations events
      same step =
    record {
      operation = o;
      step = step;
      operations = cc;
      event = record {
        id = id;
        sequence = length run.events + 1;
        type = type;
        at = at;
        actor = actor;
        operation_kind = some kind;
      };
      logged = ap ExecutionRunV4.events e ∙ rw events;
      numbered = refl;
      about = refl;
      same_run = ap run_identity e ∙ same;
    }

-- A run with an event appended makes a step that leaves the operation alone.
pub append_event_v4-RunStep :
    {run next : ExecutionRunV4} {kind : OperationKind} (middle : ExecutionRunV4)
    (id at type : String) (actor : EventActor)
    → next ≡ append_event_v4 middle id at type kind actor
    → middle.operations ≡ run.operations
    → middle.events ≡ run.events
    → run_identity middle ≡ run_identity run
    → RunStep run next kind
unfolding append_event_v4
append_event_v4-RunStep {run} {kind = kind} middle id at type actor e operations events same =
    record {
      operation = op_v4 run kind;
      step = OpStep.untouched refl;
      operations =
          ap ExecutionRunV4.operations e
          ∙ operations
          ∙ sym (with_operation-operation_at kind run.operations);
      event = record {
        id = id;
        sequence = length run.events + 1;
        type = type;
        at = at;
        actor = actor;
        operation_kind = some kind;
      };
      logged = ap ExecutionRunV4.events e ∙ rw events;
      numbered = refl;
      about = refl;
      same_run = ap run_identity e ∙ same;
    }
