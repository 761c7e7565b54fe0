-- ===== src/Execution/Transitions/Wallet.antt =====
-- The wallet prompt and the broadcast: src/server/execution/transitions.ts,
-- `recordWalletPrompt` to `recordBroadcastUnknown`.
use edict.Prelude.{String, not, ◌&&◌, ◌||◌, some, is_some, is_none}
use edict.Text.{lower, is_tx_hash_any_case}
use edict.Execution.Result.{Result, ok, illegal_state_transition, ◌>>◌, refuse}
use edict.Execution.Kind.{
  OperationKind, awaiting_wallet, broadcast_recorded, reconciliation_required, prepared,
  wallet_prompt_recorded, wallet_rejected, broadcast_hash_persisted, broadcast_unknown, stage_eq,
}
use edict.Execution.Types.{ExecutionRunV1, ExecutionRunEvent}
use edict.Execution.Transitions.Base.{op, replace_operation, append_event, assert_not_blocked}

-- the run after an accepted `record_wallet_prompt`
unfoldable pub record_wallet_prompt_effect :
    ExecutionRunV1 → (id at : String) → OperationKind → ExecutionRunV1
record_wallet_prompt_effect run id at kind =
    append_event
      (replace_operation (record run { status = awaiting_wallet }) kind
        (λ o. record o { stage = wallet_prompt_recorded; wallet_prompt_at = some at }))
      (ExecutionRunEvent.record_wallet_prompt id at kind) (some kind)

unfoldable pub record_wallet_prompt :
    ExecutionRunV1 → (id at : String) → OperationKind → Result ExecutionRunV1
record_wallet_prompt run id at kind = do
  assert_not_blocked run
  let current = op run kind
  refuse (is_some current.blockchain_tx_hash) illegal_state_transition
  refuse (not (stage_eq current.stage prepared) && not (stage_eq current.stage wallet_rejected))
      illegal_state_transition
  refuse (is_none current.prepared_tx_id) illegal_state_transition
  ok (record_wallet_prompt_effect run id at kind)

-- the run after an accepted `record_wallet_rejection`
unfoldable pub record_wallet_rejection_effect :
    ExecutionRunV1 → (id at : String) → OperationKind → ExecutionRunV1
record_wallet_rejection_effect run id at kind =
    append_event
      (replace_operation (record run { status = awaiting_wallet }) kind
        (λ o. record o { stage = wallet_rejected }))
      (ExecutionRunEvent.record_wallet_rejection id at kind) (some kind)

unfoldable pub record_wallet_rejection :
    ExecutionRunV1 → (id at : String) → OperationKind → Result ExecutionRunV1
record_wallet_rejection run id at kind = do
  assert_not_blocked run
  let current = op run kind
  refuse (not (stage_eq current.stage wallet_prompt_recorded) || is_some current.blockchain_tx_hash)
      illegal_state_transition
  ok (record_wallet_rejection_effect run id at kind)

-- the run after an accepted `record_broadcast_hash`
unfoldable pub record_broadcast_hash_effect :
    ExecutionRunV1 → (id at : String) → OperationKind → (tx_hash : String) → ExecutionRunV1
record_broadcast_hash_effect run id at kind tx_hash =
    append_event
      (replace_operation (record run { status = broadcast_recorded }) kind
        (λ o. record o {
          stage = broadcast_hash_persisted;
          blockchain_tx_hash = some (lower tx_hash);
          broadcast_at = some at;
        }))
      (ExecutionRunEvent.record_broadcast_hash id at kind tx_hash) (some kind)

unfoldable pub record_broadcast_hash :
    ExecutionRunV1 → (id at : String) → OperationKind → (tx_hash : String) → Result ExecutionRunV1
record_broadcast_hash run id at kind tx_hash = do
  assert_not_blocked run
  let current = op run kind
  refuse (not (stage_eq current.stage wallet_prompt_recorded)) illegal_state_transition
  refuse (is_some current.blockchain_tx_hash) illegal_state_transition
  refuse (not (is_tx_hash_any_case tx_hash)) illegal_state_transition
  ok (record_broadcast_hash_effect run id at kind tx_hash)

-- the run after an accepted `record_broadcast_unknown`
unfoldable pub record_broadcast_unknown_effect :
    ExecutionRunV1 → (id at : String) → OperationKind → ExecutionRunV1
record_broadcast_unknown_effect run id at kind =
    append_event
      (replace_operation (record run { status = reconciliation_required }) kind
        (λ o. record o { stage = broadcast_unknown }))
      (ExecutionRunEvent.record_broadcast_unknown id at kind) (some kind)

unfoldable pub record_broadcast_unknown :
    ExecutionRunV1 → (id at : String) → OperationKind → Result ExecutionRunV1
record_broadcast_unknown run id at kind = do
  assert_not_blocked run
  refuse (not (stage_eq (op run kind).stage wallet_prompt_recorded)) illegal_state_transition
  ok (record_broadcast_unknown_effect run id at kind)
