-- ===== src/Execution/Transitions/Audit.antt =====
-- What an accepted event adds to a run, and what it can never change.
use edict.Prelude.{◌≡◌, String, suc, Option, none, some, [], ◌∷◌, ◌++◌, arith, length}
use edict.Execution.Result.{ok}
use edict.Execution.Kind.{OperationKind, EventActor, user, server, wallet, brickken}
use edict.Execution.Evidence.{AddressLibrary}
use edict.Execution.Types.{AuditEvent, ExecutionRunV1, ExecutionRunEvent}
use edict.Execution.Transitions.Base.{audit_event, event_at}
use edict.Execution.Transitions.Guards.{Accepted, dispatch-Accepted, effects}
use edict.Execution.Transitions.Apply.{apply_run_event, apply_run_event-dispatch}

-- the entry has the id, the time and the type, and names the actor and the operation
pub record Names (entry : AuditEvent) (id at type : String) (actor : EventActor)
    (kind : Option OperationKind) : Type 0 where
  pub same_id : entry.id ≡ id
  pub same_at : entry.at ≡ at
  pub same_type : entry.type ≡ type
  pub same_actor : entry.actor ≡ actor
  pub same_kind : entry.operation_kind ≡ kind

-- The entry of an event. The user approves, cancels and answers the prompt of the wallet, the wallet
-- sends, Brickken confirms or rejects, and the server does the rest.
abbrev pub IsEntry : ExecutionRunEvent → AuditEvent → Type 0
IsEntry (ExecutionRunEvent.approve_plan id at _ _ _) entry =
    Names entry id at "APPROVE_PLAN" user none
IsEntry (ExecutionRunEvent.cancel_run id at) entry = Names entry id at "CANCEL_RUN" user none
IsEntry (ExecutionRunEvent.begin_prepare id at kind) entry =
    Names entry id at "BEGIN_PREPARE" server (some kind)
IsEntry (ExecutionRunEvent.record_prepared id at kind _ _) entry =
    Names entry id at "RECORD_PREPARED" server (some kind)
IsEntry (ExecutionRunEvent.record_prepare_unknown id at kind _) entry =
    Names entry id at "RECORD_PREPARE_UNKNOWN" server (some kind)
IsEntry (ExecutionRunEvent.record_prepare_failure id at kind _) entry =
    Names entry id at "RECORD_PREPARE_FAILURE" server (some kind)
IsEntry (ExecutionRunEvent.record_prepare_interrupted id at kind _) entry =
    Names entry id at "RECORD_PREPARE_INTERRUPTED" server (some kind)
IsEntry (ExecutionRunEvent.record_wallet_prompt id at kind) entry =
    Names entry id at "RECORD_WALLET_PROMPT" user (some kind)
IsEntry (ExecutionRunEvent.record_wallet_rejection id at kind) entry =
    Names entry id at "RECORD_WALLET_REJECTION" user (some kind)
IsEntry (ExecutionRunEvent.record_broadcast_hash id at kind _) entry =
    Names entry id at "RECORD_BROADCAST_HASH" wallet (some kind)
IsEntry (ExecutionRunEvent.record_broadcast_unknown id at kind) entry =
    Names entry id at "RECORD_BROADCAST_UNKNOWN" wallet (some kind)
IsEntry (ExecutionRunEvent.record_onchain_transaction_evidence id at kind _) entry =
    Names entry id at "RECORD_ONCHAIN_TRANSACTION_EVIDENCE" server (some kind)
IsEntry (ExecutionRunEvent.record_transaction_receipt_evidence id at kind _) entry =
    Names entry id at "RECORD_TRANSACTION_RECEIPT_EVIDENCE" server (some kind)
IsEntry (ExecutionRunEvent.submit_confirmation id at kind) entry =
    Names entry id at "SUBMIT_CONFIRMATION" server (some kind)
IsEntry (ExecutionRunEvent.record_pending id at kind) entry =
    Names entry id at "RECORD_PENDING" brickken (some kind)
IsEntry (ExecutionRunEvent.record_confirm_transport_failure id at kind) entry =
    Names entry id at "RECORD_CONFIRM_TRANSPORT_FAILURE" server (some kind)
IsEntry (ExecutionRunEvent.record_confirmed id at kind) entry =
    Names entry id at "RECORD_CONFIRMED" brickken (some kind)
IsEntry (ExecutionRunEvent.record_rejected id at kind _) entry =
    Names entry id at "RECORD_REJECTED" brickken (some kind)
IsEntry (ExecutionRunEvent.record_poll_timeout id at kind) entry =
    Names entry id at "RECORD_POLL_TIMEOUT" server (some kind)
IsEntry (ExecutionRunEvent.record_read_back_verified id at kind _) entry =
    Names entry id at "RECORD_READ_BACK_VERIFIED" server (some kind)
IsEntry (ExecutionRunEvent.record_read_back_mismatch id at kind) entry =
    Names entry id at "RECORD_READ_BACK_MISMATCH" server (some kind)
IsEntry (ExecutionRunEvent.record_final_verification id at) entry =
    Names entry id at "RECORD_FINAL_VERIFICATION" server none

-- the operation that the audit entry of an event names
abbrev event_kind : ExecutionRunEvent → Option OperationKind
event_kind (ExecutionRunEvent.approve_plan _ _ _ _ _) = none
event_kind (ExecutionRunEvent.cancel_run _ _) = none
event_kind (ExecutionRunEvent.begin_prepare _ _ kind) = some kind
event_kind (ExecutionRunEvent.record_prepared _ _ kind _ _) = some kind
event_kind (ExecutionRunEvent.record_prepare_unknown _ _ kind _) = some kind
event_kind (ExecutionRunEvent.record_prepare_failure _ _ kind _) = some kind
event_kind (ExecutionRunEvent.record_prepare_interrupted _ _ kind _) = some kind
event_kind (ExecutionRunEvent.record_wallet_prompt _ _ kind) = some kind
event_kind (ExecutionRunEvent.record_wallet_rejection _ _ kind) = some kind
event_kind (ExecutionRunEvent.record_broadcast_hash _ _ kind _) = some kind
event_kind (ExecutionRunEvent.record_broadcast_unknown _ _ kind) = some kind
event_kind (ExecutionRunEvent.record_onchain_transaction_evidence _ _ kind _) = some kind
event_kind (ExecutionRunEvent.record_transaction_receipt_evidence _ _ kind _) = some kind
event_kind (ExecutionRunEvent.submit_confirmation _ _ kind) = some kind
event_kind (ExecutionRunEvent.record_pending _ _ kind) = some kind
event_kind (ExecutionRunEvent.record_confirm_transport_failure _ _ kind) = some kind
event_kind (ExecutionRunEvent.record_confirmed _ _ kind) = some kind
event_kind (ExecutionRunEvent.record_rejected _ _ kind _) = some kind
event_kind (ExecutionRunEvent.record_poll_timeout _ _ kind) = some kind
event_kind (ExecutionRunEvent.record_read_back_verified _ _ kind _) = some kind
event_kind (ExecutionRunEvent.record_read_back_mismatch _ _ kind) = some kind
event_kind (ExecutionRunEvent.record_final_verification _ _) = none

pub record Kept (run next : ExecutionRunV1) : Type 0 where
  pub same_id : next.id ≡ run.id
  pub same_manifest : next.manifest ≡ run.manifest
  pub same_manifest_hash : next.manifest_hash ≡ run.manifest_hash
  pub same_plan : next.plan ≡ run.plan
  pub same_plan_hash : next.plan_hash ≡ run.plan_hash
  pub same_environment : next.environment ≡ run.environment
  pub same_chain_id : next.chain_id ≡ run.chain_id
  pub same_required_signer : next.required_signer ≡ run.required_signer
  pub same_created_at : next.created_at ≡ run.created_at
  pub same_revision : next.revision ≡ run.revision

pub record Audited (event : ExecutionRunEvent) (run next : ExecutionRunV1) : Type 0 where
  pub entry : AuditEvent
  pub appended : next.events ≡ run.events ++ entry ∷ []
  pub numbered : entry.sequence ≡ suc (length run.events)
  pub is_entry : IsEntry event entry
  pub stamped : next.updated_at ≡ entry.at
  pub kept : Kept run next

audit_event-IsEntry :
    (run : ExecutionRunV1) (event : ExecutionRunEvent)
    → IsEntry event (audit_event run event (event_kind event))
audit_event-IsEntry run (ExecutionRunEvent.cancel_run id at) = ground arith
audit_event-IsEntry run _ = ground arith

-- what each effect leaves as it was, and the entry that it appends
abbrev Appended : ExecutionRunEvent → ExecutionRunV1 → ExecutionRunV1 → Type 0
Appended event run next =
    (next.events ≡ run.events ++ audit_event run event (event_kind event) ∷ [])
    × (next.updated_at ≡ event_at event)
    × Kept run next

module _ (viem : AddressLibrary) where
  Accepted-Appended :
      (run next : ExecutionRunV1) (event : ExecutionRunEvent)
      → Accepted viem run next event
      → Appended event run next
  unfolding effects
  Accepted-Appended run next (ExecutionRunEvent.cancel_run id at) h = ground arith
  Accepted-Appended run next _ h = ground arith

  -- An accepted event appends one entry to the audit log, numbered one past the entries before it,
  -- with the event's id, type, time and operation, and with the actor of its type: the user for
  -- approval, cancellation and the answers to the wallet prompt, the wallet for a broadcast, Brickken
  -- for its confirmations, and the server for the rest; it sets the time of the last update, and
  -- changes neither the identity of the run, nor its manifest, plan, hashes, environment, chain or
  -- signer, nor its creation time or revision.
  pub apply_run_event-Audited :
      (run : ExecutionRunV1) (event : ExecutionRunEvent) {next : ExecutionRunV1}
      → apply_run_event viem run event ≡ ok next
      → Audited event run next
  apply_run_event-Audited run event {next} h =
      let (appended, stamped, kept) =
        Accepted-Appended run next event
          (dispatch-Accepted viem run event (apply_run_event-dispatch viem run event h)) in
      record {
        entry = audit_event run event (event_kind event);
        appended = appended;
        numbered = omega arith;
        is_entry = audit_event-IsEntry run event;
        stamped = stamped;
        kept = kept;
      }
