-- ===== src/Execution/V4/Progress.antt =====
-- What stays possible after any accepted calls: the outcome of a released wallet prompt can be recorded,
-- and a pending correlation can be settled or tried again.
use edict.Prelude.{
  ◌≡◌, ◌⊎◌, refl, inl, inr, String, true, false, none, ap, ◌∙◌, Option-cases, arith, is_some,
}
use edict.Text.{is_tx_hash}
use edict.Execution.Result.{ok, is_ok}
use edict.Execution.Evidence.{AddressLibrary}
use edict.Execution.Kind.{
  OperationKind, EventActor, wallet_prompt_recorded, broadcast_unknown, stage_eq_iff,
}
use edict.Execution.V4.Types.{UnresolvedOutcome, ExecutionRunV4, WriteOperationV4}
use edict.Execution.V4.Base.{
  Hashing, op_v4, append_event_v4, replace_operation_v4, run_is_canonical_v4,
}
use edict.Execution.V4.Prompt.{
  record_broadcast_unknown_v4, record_broadcast_hash_v4, record_wallet_rejected,
  assert_invoked_prompt, authorize_provider_invocation, is_released,
  authorize_provider_invocation_effect,
}
use edict.Execution.V4.Steps.{OpStep}
use edict.Execution.V4.RunSteps.{operation_at-with_operation}
use edict.Execution.V4.Reach.{Reach, Reach-keeps}

-- The prompt is released, and its outcome is not known, was reported unknown, or is a hash.
abbrev HasOutcome : WriteOperationV4 → Type 0
HasOutcome o =
    (is_released o.wallet_prompt_authorization ≡ true)
    × (((o.stage ≡ wallet_prompt_recorded) × (o.blockchain_tx_hash ≡ none))
        ⊎ (o.stage ≡ broadcast_unknown)
        ⊎ (is_some o.blockchain_tx_hash ≡ true))

OpStep-HasOutcome : (o next : WriteOperationV4) → OpStep o next → HasOutcome o → HasOutcome next
OpStep-HasOutcome o next (OpStep.loses_sight prompt reason at _ found invoked _ e) h = ground arith
OpStep-HasOutcome o next step h = ground arith

pub replaced_operation :
    (run : ExecutionRunV4) (kind : OperationKind) (o : WriteOperationV4) (id at type : String)
    (actor : EventActor)
    → op_v4 (append_event_v4 (replace_operation_v4 run kind o) id at type kind actor) kind ≡ o
unfolding append_event_v4 replace_operation_v4
replaced_operation run kind o id at type actor = operation_at-with_operation kind o run.operations

authorize_provider_invocation-HasOutcome :
    (run : ExecutionRunV4) (kind : OperationKind) (invocation id at : String)
    {released : ExecutionRunV4}
    → authorize_provider_invocation run kind invocation id at ≡ ok released
    → HasOutcome (op_v4 released kind)
unfolding authorize_provider_invocation authorize_provider_invocation_effect
authorize_provider_invocation-HasOutcome run kind invocation id at {released} h =
    let o = op_v4 run kind in
    elim (Option-cases o.wallet_prompt_authorization) [
      | inl missing ↦ ground arith
      | inr (prompt, found) ↦
          let e : released ≡ authorize_provider_invocation_effect run kind prompt invocation id at =
            ground arith in
          let recorded : o.stage ≡ wallet_prompt_recorded =
            ground (arith, stage_eq_iff o.stage wallet_prompt_recorded) in
          let no_hash : o.blockchain_tx_hash ≡ none = ground arith in
          let same = ap (λ run. op_v4 run kind) e ∙ replaced_operation _ kind _ _ _ _ _ in
          coe 1 0 (i. HasOutcome (same i)) (refl, inl (recorded, no_hash))
    ]

-- The outcome of the release is still open, and each outcome is accepted; or it was reported unknown;
-- or a hash was recorded.
abbrev pub OutcomeIsRecordable :
    ExecutionRunV4
    → OperationKind
    → (tx_hash : String) → UnresolvedOutcome
    → (id at : String) → Type 0
OutcomeIsRecordable run kind tx_hash reason id at =
    ((is_ok (record_broadcast_hash_v4 run kind tx_hash id at) ≡ is_tx_hash tx_hash)
      × (is_ok (record_broadcast_unknown_v4 run kind reason id at) ≡ true))
    ⊎ ((op_v4 run kind).stage ≡ broadcast_unknown)
    ⊎ (is_some (op_v4 run kind).blockchain_tx_hash ≡ true)

module _ (run : ExecutionRunV4) (kind : OperationKind) where
  rejection_is_refused :
      (id at : String)
      → HasOutcome (op_v4 run kind)
      → is_ok (record_wallet_rejected run kind id at) ≡ false
  unfolding record_wallet_rejected
  rejection_is_refused id at h = ground arith

  HasOutcome-OutcomeIsRecordable :
      (tx_hash : String) (reason : UnresolvedOutcome) (id at : String)
      → run_is_canonical_v4 run ≡ true
      → HasOutcome (op_v4 run kind)
      → OutcomeIsRecordable run kind tx_hash reason id at
  unfolding record_broadcast_hash_v4 record_broadcast_unknown_v4 assert_invoked_prompt
  HasOutcome-OutcomeIsRecordable tx_hash reason id at canonical (released, inl open_outcome) =
      let recorded = stage_eq_iff (op_v4 run kind).stage wallet_prompt_recorded in
      inl (ground (arith, recorded, canonical), ground (arith, recorded, canonical))
  HasOutcome-OutcomeIsRecordable tx_hash reason id at canonical (released, inr other) = inr other

-- After a release that was accepted and any accepted calls after it, a rejection by the wallet is
-- refused. If the run's parts are canonical JSON, then while the outcome is neither reported unknown
-- nor a hash, every well-formed hash and every reason of an unknown outcome is accepted, and no other
-- hash.
pub released-OutcomeIsRecordable :
    (viem : AddressLibrary) (hashing : Hashing) (run released later : ExecutionRunV4)
    (kind : OperationKind) (invocation release_id release_at : String)
    → authorize_provider_invocation run kind invocation release_id release_at ≡ ok released
    → Reach viem hashing released later
    → run_is_canonical_v4 later ≡ true
    → (tx_hash : String) (reason : UnresolvedOutcome) (id at : String)
    → (is_ok (record_wallet_rejected later kind id at) ≡ false)
      × OutcomeIsRecordable later kind tx_hash reason id at
released-OutcomeIsRecordable viem hashing run released later kind invocation release_id release_at
      accepted reached canonical tx_hash reason id at =
    let outcome =
      Reach-keeps HasOutcome OpStep-HasOutcome viem hashing released later kind reached (
        authorize_provider_invocation-HasOutcome run kind invocation release_id release_at
          accepted) in
    (
      rejection_is_refused later kind id at outcome,
      HasOutcome-OutcomeIsRecordable later kind tx_hash reason id at canonical outcome,
    )
