-- ===== src/Execution/Transitions/Outcomes.antt =====
-- What no event can undo: a terminal outcome, a broadcast hash, a call for reconciliation.
use edict.Prelude.{◌≡◌, inl, inr, true, false, some, arith, is_some, String}
use edict.Execution.Result.{ok, is_ok, Result-cases}
use edict.Execution.Kind.{
  OperationKind, RunStatus, TerminalOutcome, reconciliation_required, status_eq_iff,
}
use edict.Execution.Evidence.{
  AddressLibrary, ExecutionStatus, MatchStatus, ReconciliationStatus, TransactionReceiptEvidence,
  parse_transaction_receipt_evidence,
}
use edict.Execution.Types.{ExecutionRunV1, ExecutionRunEvent}
use edict.Execution.Transitions.Base.{op}
use edict.Execution.Transitions.Chain.{receipt_effect}
use edict.Execution.Transitions.Guards.{Accepted, dispatch-Accepted, effects}
use edict.Execution.Transitions.Invariant.{IsWellFormed}
use edict.Execution.Transitions.Apply.{apply_run_event, apply_run_event-dispatch}

-- what a receipt does to a run that waits for reconciliation
abbrev pub Receipt :
    (run next : ExecutionRunV1) → ExecutionStatus → MatchStatus → ReconciliationStatus → Type 0
Receipt run next ExecutionStatus.success identity reconciliation =
    (next.status ≡ reconciliation_required) × (next.terminal_outcome ≡ run.terminal_outcome)
Receipt run next ExecutionStatus.reverted MatchStatus.match ReconciliationStatus.clear =
    (next.status ≡ RunStatus.failed) × (next.terminal_outcome ≡ some TerminalOutcome.failed)
Receipt run next ExecutionStatus.reverted identity reconciliation =
    (next.status ≡ reconciliation_required) × (next.terminal_outcome ≡ some TerminalOutcome.failed)

-- what an event does to a run that waits for reconciliation
abbrev pub Reconciles : ExecutionRunEvent → (run next : ExecutionRunV1) → Type 0
Reconciles (ExecutionRunEvent.record_onchain_transaction_evidence _ _ _ _) run next =
    (next.status ≡ reconciliation_required) × (next.terminal_outcome ≡ run.terminal_outcome)
Reconciles (ExecutionRunEvent.record_transaction_receipt_evidence _ _ _ given) run next =
    Receipt run next given.execution_status given.identity_status given.reconciliation_status
Reconciles _ run next = ⊥

module _ (viem : AddressLibrary) where
  apply_run_event-Accepted :
      (run : ExecutionRunV1) (event : ExecutionRunEvent) {next : ExecutionRunV1}
      → apply_run_event viem run event ≡ ok next
      → Accepted viem run next event
  apply_run_event-Accepted run event h =
      dispatch-Accepted viem run event (apply_run_event-dispatch viem run event h)

  Accepted-open :
      (run next : ExecutionRunV1) (event : ExecutionRunEvent)
      → IsWellFormed run
      → Accepted viem run next event
      → is_some run.terminal_outcome ≡ false
  Accepted-open run next (ExecutionRunEvent.cancel_run id at) w h = ground arith
  Accepted-open run next _ w h = ground arith

  -- A well-formed run with a terminal outcome refuses every event.
  pub terminal_absorbs :
      (run : ExecutionRunV1) (event : ExecutionRunEvent)
      → IsWellFormed run
      → is_some run.terminal_outcome ≡ true
      → is_ok (apply_run_event viem run event) ≡ false
  terminal_absorbs run event w t = elim (Result-cases (apply_run_event viem run event)) [
    | inl (next, h) ↦ cc (t, Accepted-open run next event w (apply_run_event-Accepted run event h))
    | inr (e, h) ↦ rw h
  ]

  Accepted-keeps_hash :
      (run next : ExecutionRunV1) (event : ExecutionRunEvent) (kind : OperationKind) (hash : String)
      → IsWellFormed run
      → Accepted viem run next event
      → (op run kind).blockchain_tx_hash ≡ some hash
      → (op next kind).blockchain_tx_hash ≡ some hash
  unfolding effects
  Accepted-keeps_hash run next (ExecutionRunEvent.cancel_run id at) kind hash w h e = ground arith
  Accepted-keeps_hash run next _ kind hash w h e = ground arith

  -- A broadcast hash is written once: whatever event a well-formed run accepts, an operation that
  -- has a hash keeps that hash.
  pub apply_run_event-keeps_hash :
      (run : ExecutionRunV1) (event : ExecutionRunEvent) (kind : OperationKind) (hash : String)
      {next : ExecutionRunV1}
      → IsWellFormed run
      → apply_run_event viem run event ≡ ok next
      → (op run kind).blockchain_tx_hash ≡ some hash
      → (op next kind).blockchain_tx_hash ≡ some hash
  apply_run_event-keeps_hash run event kind hash {next} w h =
      Accepted-keeps_hash run next event kind hash w (apply_run_event-Accepted run event h)

  -- the receipt has the statuses of the one that was given
  parse-statuses :
      (given : TransactionReceiptEvidence) {evidence : TransactionReceiptEvidence}
      → parse_transaction_receipt_evidence viem given ≡ ok evidence
      → (evidence.execution_status ≡ given.execution_status)
        × (evidence.identity_status ≡ given.identity_status)
        × (evidence.reconciliation_status ≡ given.reconciliation_status)
  unfolding parse_transaction_receipt_evidence
  parse-statuses given h = ground arith

  receipt_effect-Receipt :
      (run : ExecutionRunV1) (id at : String) (kind : OperationKind)
      (given evidence : TransactionReceiptEvidence) (execution : ExecutionStatus)
      (identity : MatchStatus) (reconciliation : ReconciliationStatus)
      → (evidence.execution_status ≡ execution)
        × (evidence.identity_status ≡ identity)
        × (evidence.reconciliation_status ≡ reconciliation)
      → run.status ≡ reconciliation_required
      → Receipt run
          (receipt_effect viem run id at kind given evidence)
          execution
          identity
          reconciliation
  unfolding receipt_effect
  receipt_effect-Receipt run id at kind given evidence ExecutionStatus.success identity
        reconciliation same e =
      ground arith
  receipt_effect-Receipt run id at kind given evidence ExecutionStatus.reverted MatchStatus.match
        ReconciliationStatus.clear same e =
      ground arith
  receipt_effect-Receipt run id at kind given evidence ExecutionStatus.reverted MatchStatus.mismatch
        reconciliation same e =
      ground arith
  receipt_effect-Receipt run id at kind given evidence ExecutionStatus.reverted MatchStatus.match
        ReconciliationStatus.required same e =
      ground arith

  Accepted-reconciliation :
      (run next : ExecutionRunV1) (event : ExecutionRunEvent)
      → run.status ≡ reconciliation_required
      → Accepted viem run next event
      → Reconciles event run next
  unfolding effects
  Accepted-reconciliation run next
        (ExecutionRunEvent.record_transaction_receipt_evidence id at kind given) e h =
      let (open_run, stage, (evidence, parsed, result)) = h in
      coe 1 0
        (i.
          Receipt run (result i) given.execution_status given.identity_status
            given.reconciliation_status)
        (receipt_effect-Receipt run id at kind given evidence given.execution_status
          given.identity_status given.reconciliation_status (parse-statuses given parsed) e)
  Accepted-reconciliation run next (ExecutionRunEvent.cancel_run id at) e h =
      ground (arith, status_eq_iff run.status reconciliation_required)
  Accepted-reconciliation run next _ e h =
      ground (arith, status_eq_iff run.status reconciliation_required)

  -- A run that waits for reconciliation accepts nothing but evidence from the chain. Evidence of a
  -- transaction and a receipt of success leave it waiting, with the outcome that it has; a reverted
  -- receipt sets the outcome to failed, and ends the run as failed if it is of the expected
  -- transaction and calls for no reconciliation.
  pub reconciliation_blocks :
      (run : ExecutionRunV1) (event : ExecutionRunEvent) {next : ExecutionRunV1}
      → run.status ≡ reconciliation_required
      → apply_run_event viem run event ≡ ok next
      → Reconciles event run next
  reconciliation_blocks run event {next} e h =
      Accepted-reconciliation run next event e (apply_run_event-Accepted run event h)
