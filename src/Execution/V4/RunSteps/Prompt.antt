-- ===== src/Execution/V4/RunSteps/Prompt.antt =====
-- The transitions on the wallet prompt are steps.
use edict.Prelude.{◌≡◌, refl, inl, inr, String, true, none, some, arith, Option-cases}
use edict.Execution.Result.{Result-cases, ok}
use edict.Execution.Kind.{OperationKind, wallet_prompt_recorded, stage_eq_iff}
use edict.Execution.Evidence.{AddressLibrary}
use edict.Wallet.Intent.{SemanticAuthorization}
use edict.Execution.V4.Types.{
  NonceFreshnessEvidence, UnresolvedOutcome, WalletPromptAuthorizationRecord, ExecutionRunV4, v4,
}
use edict.Execution.V4.Contracts.{is_invoked}
use edict.Execution.V4.Base.{Hashing, op_v4}
use edict.Execution.V4.Preparation.{V4PreparationFoundationInput}
use edict.Execution.V4.Prompt
use edict.Execution.V4.Prompted.{record_wallet_prompt_authorization-Authorized}
use edict.Execution.V4.Steps.{OpStep}
use edict.Execution.V4.RunSteps.{RunStep, replace_operation_v4-RunStep}

-- The prompt that `assertInvokedPrompt` finds, and what it checks.
assert_invoked_prompt-eq_ok :
    (run : ExecutionRunV4) (kind : OperationKind) {prompt : WalletPromptAuthorizationRecord}
    → Prompt.assert_invoked_prompt run kind ≡ ok prompt
    → ((op_v4 run kind).stage ≡ wallet_prompt_recorded)
      × ((op_v4 run kind).wallet_prompt_authorization ≡ some prompt)
      × (is_invoked prompt.provider_invocation ≡ true)
      × ((op_v4 run kind).blockchain_tx_hash ≡ none)
unfolding Prompt.assert_invoked_prompt
assert_invoked_prompt-eq_ok run kind h =
    ground (arith, stage_eq_iff (op_v4 run kind).stage wallet_prompt_recorded)

pub authorize_provider_invocation-RunStep :
    (run : ExecutionRunV4) (kind : OperationKind) (invocation id at : String)
    {next : ExecutionRunV4}
    → Prompt.authorize_provider_invocation run kind invocation id at ≡ ok next
    → RunStep run next kind
unfolding Prompt.authorize_provider_invocation Prompt.authorize_provider_invocation_effect
authorize_provider_invocation-RunStep run kind invocation id at {next} h =
    let o = op_v4 run kind in
    elim (Option-cases o.wallet_prompt_authorization) [
      | inl missing ↦ ground arith
      | inr (prompt, found) ↦
          let e : next
              ≡ Prompt.authorize_provider_invocation_effect run kind prompt invocation id at =
            ground arith in
          replace_operation_v4-RunStep _ _ _ _ _ e refl refl refl (
            OpStep.releases prompt invocation at
              (ground (arith, stage_eq_iff o.stage wallet_prompt_recorded)) found (ground arith)
              (ground arith) refl)
    ]

pub record_wallet_rejected-RunStep :
    (run : ExecutionRunV4) (kind : OperationKind) (id at : String) {next : ExecutionRunV4}
    → Prompt.record_wallet_rejected run kind id at ≡ ok next
    → RunStep run next kind
unfolding Prompt.record_wallet_rejected Prompt.record_wallet_rejected_effect
record_wallet_rejected-RunStep run kind id at {next} h =
    let o = op_v4 run kind in
    elim (Option-cases o.wallet_prompt_authorization) [
      | inl missing ↦ ground arith
      | inr (prompt, found) ↦
          let e : next ≡ Prompt.record_wallet_rejected_effect run kind id at = ground arith in
          replace_operation_v4-RunStep _ _ _ _ _ e refl refl refl (
            OpStep.declines prompt (ground (arith, stage_eq_iff o.stage wallet_prompt_recorded))
              found (ground arith) refl)
    ]

pub record_broadcast_unknown_v4-RunStep :
    (run : ExecutionRunV4) (kind : OperationKind) (reason : UnresolvedOutcome) (id at : String)
    {next : ExecutionRunV4}
    → Prompt.record_broadcast_unknown_v4 run kind reason id at ≡ ok next
    → RunStep run next kind
unfolding Prompt.record_broadcast_unknown_v4 Prompt.record_broadcast_unknown_v4_effect
record_broadcast_unknown_v4-RunStep run kind reason id at {next} h =
    elim (Result-cases (Prompt.assert_invoked_prompt run kind)) [
      | inr (e, failed) ↦ ground arith
      | inl (prompt, asserted) ↦
          let facts = assert_invoked_prompt-eq_ok run kind asserted in
          let e : next ≡ Prompt.record_broadcast_unknown_v4_effect run kind prompt reason id at =
            ground arith in
          replace_operation_v4-RunStep _ _ _ _ _ e refl refl refl
            (OpStep.loses_sight prompt reason at facts.0 facts.1 facts.2 facts.3 refl)
    ]

pub record_broadcast_hash_v4-RunStep :
    (run : ExecutionRunV4) (kind : OperationKind) (tx_hash id at : String) {next : ExecutionRunV4}
    → Prompt.record_broadcast_hash_v4 run kind tx_hash id at ≡ ok next
    → RunStep run next kind
unfolding Prompt.record_broadcast_hash_v4 Prompt.record_broadcast_hash_v4_effect
record_broadcast_hash_v4-RunStep run kind tx_hash id at {next} h =
    elim (Result-cases (Prompt.assert_invoked_prompt run kind)) [
      | inr (e, failed) ↦ ground arith
      | inl (prompt, asserted) ↦
          let facts = assert_invoked_prompt-eq_ok run kind asserted in
          let e : next ≡ Prompt.record_broadcast_hash_v4_effect run kind tx_hash id at =
            ground arith in
          replace_operation_v4-RunStep _ _ _ _ _ e refl refl refl
            (OpStep.broadcasts prompt tx_hash at facts.0 facts.1 facts.2 facts.3 refl)
    ]

module _ (viem : AddressLibrary) (hashing : Hashing) where
  pub record_wallet_prompt_authorization-RunStep :
      (run : ExecutionRunV4) (kind : OperationKind) (foundation : V4PreparationFoundationInput)
      (raw : NonceFreshnessEvidence) (raw_semantic : SemanticAuthorization) (id at : String)
      {next : ExecutionRunV4}
      → Prompt.record_wallet_prompt_authorization viem hashing
          (v4 run)
          kind
          foundation
          raw
          raw_semantic
          id
          at
        ≡ ok next
      → RunStep run next kind
  unfolding Prompt.record_wallet_prompt_authorization_effect
  record_wallet_prompt_authorization-RunStep run kind foundation raw raw_semantic id at {next} h =
      let a =
        record_wallet_prompt_authorization-Authorized viem hashing run kind foundation raw
          raw_semantic id at h in
      replace_operation_v4-RunStep _ _ _ _ _ a.effect refl refl refl (
        OpStep.prompts a.attempt (Prompt.fresh_attempt a.attempt a.evidence) a.attempts a.intent
          (hashing.hash_intent a.intent) at a.stage a.unprompted
          (record {
            active = a.active;
            same_id = refl;
            same_sequence = refl;
            replaced = a.replaced;
          })
          refl)
