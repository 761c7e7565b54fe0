-- ===== src/Execution/Transitions/Invariant.antt =====
-- What holds of every run between two events: the phase fixes how far each operation has come, the
-- stage of an operation fixes which of its identifiers are there, and a terminal outcome shows in
-- the status.
use edict.Prelude.{◌≡◌, ◌⊎◌, Bool, true, false, not, ◌&&◌, arith, is_some}
use edict.Execution.Result.{ok}
use edict.Execution.Kind.{
  tokenize, whitelist, mint, RunPhase, RunStatus, reconciliation_required, not_started,
  prepare_intent, prepared, wallet_prompt_recorded, wallet_rejected, broadcast_hash_persisted,
  confirmation_submitted, OperationStage, confirmed, read_back_verified, prepare_unknown,
  broadcast_unknown,
}
use edict.Execution.Evidence.{AddressLibrary}
use edict.Execution.Types.{WriteOperation, ExecutionRunV1, ExecutionRunEvent}
use edict.Execution.Transitions.Apply.{apply_run_event, apply_run_event-dispatch}
use edict.Execution.Transitions.Guards.{Accepted, dispatch-Accepted, effects}

-- Whether a stage allows that there is a prepared transaction id and a broadcast hash. A rejected
-- operation may have been refused before or after either; the stages of version 4.0 do not occur.
abbrev pub stage_fits : OperationStage → Bool → Bool → Bool
stage_fits not_started prepared_id hash = not prepared_id && not hash
stage_fits prepare_intent prepared_id hash = not prepared_id && not hash
stage_fits prepare_unknown prepared_id hash = not prepared_id && not hash
stage_fits prepared prepared_id hash = prepared_id && not hash
stage_fits wallet_prompt_recorded prepared_id hash = prepared_id && not hash
stage_fits wallet_rejected prepared_id hash = prepared_id && not hash
stage_fits broadcast_unknown prepared_id hash = prepared_id && not hash
stage_fits broadcast_hash_persisted prepared_id hash = prepared_id && hash
stage_fits confirmation_submitted prepared_id hash = prepared_id && hash
stage_fits OperationStage.pending prepared_id hash = prepared_id && hash
stage_fits confirmed prepared_id hash = prepared_id && hash
stage_fits read_back_verified prepared_id hash = prepared_id && hash
stage_fits OperationStage.rejected prepared_id hash = true
stage_fits _ prepared_id hash = false

abbrev pub OperationFits : WriteOperation → Type 0
OperationFits o =
    stage_fits o.stage (is_some o.prepared_tx_id) (is_some o.blockchain_tx_hash) ≡ true

-- How far the operations have come in each phase.
abbrev pub PhaseFits : RunPhase → Bool → OperationStage → OperationStage → OperationStage → Type 0
PhaseFits RunPhase.plan approved s0 s1 s2 =
    (approved ≡ false) × (s0 ≡ not_started) × (s1 ≡ not_started) × (s2 ≡ not_started)
PhaseFits RunPhase.tokenization approved s0 s1 s2 =
    (approved ≡ true) × (s1 ≡ not_started) × (s2 ≡ not_started)
PhaseFits RunPhase.whitelist approved s0 s1 s2 =
    (approved ≡ true) × (s0 ≡ read_back_verified) × (s2 ≡ not_started)
PhaseFits RunPhase.mint approved s0 s1 s2 =
    (approved ≡ true) × (s0 ≡ read_back_verified) × (s1 ≡ read_back_verified)
PhaseFits RunPhase.verification approved s0 s1 s2 =
    (approved ≡ true)
    × (s0 ≡ read_back_verified)
    × (s1 ≡ read_back_verified)
    × (s2 ≡ read_back_verified)

pub record IsWellFormed (run : ExecutionRunV1) : Type 0 where
  pub kind0 : run.operations.op0.kind ≡ tokenize
  pub kind1 : run.operations.op1.kind ≡ whitelist
  pub kind2 : run.operations.op2.kind ≡ mint
  pub fits0 : OperationFits run.operations.op0
  pub fits1 : OperationFits run.operations.op1
  pub fits2 : OperationFits run.operations.op2
  pub progress :
      PhaseFits run.phase
        (is_some run.approval)
        run.operations.op0.stage
        run.operations.op1.stage
        run.operations.op2.stage
  pub ended :
      is_some run.terminal_outcome ≡ true
      → (run.status ≡ RunStatus.failed) ⊎ (run.status ≡ reconciliation_required)
  pub failure : run.status ≡ RunStatus.failed → is_some run.terminal_outcome ≡ true
  pub eligible : run.receipt_eligible ≡ true → run.phase ≡ RunPhase.verification

module _ (viem : AddressLibrary) where
  Accepted-IsWellFormed :
      (run next : ExecutionRunV1) (event : ExecutionRunEvent)
      → IsWellFormed run
      → Accepted viem run next event
      → IsWellFormed next
  unfolding effects
  Accepted-IsWellFormed run next (ExecutionRunEvent.cancel_run id at) w h = ground arith
  Accepted-IsWellFormed run next _ w h = ground arith

  -- Every event, accepted in any well-formed state, leads to a well-formed state: the phase fixes
  -- which operations are done, under way or not begun, the stage of an operation fixes whether it
  -- has a prepared transaction id and a broadcast hash, a terminal outcome shows in the status, and
  -- only a verified run is eligible for a receipt.
  pub apply_run_event-IsWellFormed :
      (run : ExecutionRunV1) (event : ExecutionRunEvent) {next : ExecutionRunV1}
      → IsWellFormed run
      → apply_run_event viem run event ≡ ok next
      → IsWellFormed next
  apply_run_event-IsWellFormed run event {next} w h =
      Accepted-IsWellFormed run next event w
        (dispatch-Accepted viem run event (apply_run_event-dispatch viem run event h))
