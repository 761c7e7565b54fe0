-- ===== src/Execution/V4/Verdicts.antt =====
-- What three decisions of a version 4.0 run rest on: the verdict on the transaction of the node, the
-- wallet prompt, and the correlation at Brickken.
use edict.Prelude.{
  ◌≡◌, ◌≢◌, refl, ap, sym, List, ◌∙◌, inl, inr, String, Bool, true, false, not, ◌&&◌, Option, some,
  arith, Bool-cases, str_eq_iff,
}
use edict.Execution.Result.{Result, ok, err}
use edict.Execution.Kind.{
  OperationKind, tokenize, whitelist, mint, OperationStage, RunStatus, rpc_transaction_verified,
  policy_violation_onchain, rpc_transaction_reconciliation_required, reconciliation_required,
  broadcast_recorded, stage_eq, status_eq, stage_eq_iff, status_eq_iff,
}
use edict.Execution.Evidence.{AddressLibrary}
use edict.Fee.Schema.{FeeAuthorization, RawFeeFields}
use edict.Fee.Evaluation.{FeeAuthorizationDecision, accepted, refused, evaluate_fee_authorization}
use edict.Fee.Caps.{is_accepted}
use edict.Wallet.Intent.{
  ImmutableExecutionIdentity, SemanticAuthorization, is_observed_identity, same_identity,
  is_wallet_execution_intent, WalletExecutionIntent,
}
use edict.Execution.V4.Types.{
  NonceFreshnessEvidence, PreparationAttempt, WalletPromptAuthorizationRecord,
  RpcTransactionAuthorizationEvidence, ExecutionRunV4, v4,
}
use edict.Execution.V4.Contracts.{is_invoked}
use edict.Execution.V4.Base.{Hashing, op_v4, active_attempt, append_event_v4, replace_operation_v4}
use edict.Execution.V4.Preparation.{V4PreparationFoundationInput}
use edict.Execution.V4.Prompt.{
  record_wallet_prompt_authorization, record_wallet_prompt_authorization_effect, semantic_differs,
  recorded_prompt,
}
use edict.Execution.V4.Prompted.{record_wallet_prompt_authorization-Authorized}
use edict.Execution.V4.Rpc.{
  record_rpc_transaction, record_rpc_transaction_effect, fee_effect, decision_of,
  with_rpc_transaction,
}
use edict.Execution.V4.RunSteps.{operation_at-with_operation}

-- the verdict: the operation is verified, or the run waits for reconciliation
abbrev pub Verdict : ExecutionRunV4 → OperationKind → Bool → Type 0
Verdict next kind good =
    (stage_eq (op_v4 next kind).stage rpc_transaction_verified ≡ good)
    × (status_eq next.status reconciliation_required ≡ not good)

with_rpc_transaction-stage :
    (run : ExecutionRunV4) (kind : OperationKind) (status : RunStatus) (stage : OperationStage)
    (type id at : String) (evidence : Option RpcTransactionAuthorizationEvidence)
    → ((op_v4 (with_rpc_transaction run kind status stage evidence type id at) kind).stage ≡ stage)
      × ((with_rpc_transaction run kind status stage evidence type id at).status ≡ status)
unfolding append_event_v4 replace_operation_v4
with_rpc_transaction-stage run kind status stage type id at evidence = (
  rw (
      operation_at-with_operation kind
        (record (op_v4 run kind) { stage = stage; rpc_transaction_evidence = evidence })
        run.operations),
  refl,
)

blocked_Verdict :
    (run : ExecutionRunV4) (kind : OperationKind) (stage : OperationStage) (type id at : String)
    (evidence : Option RpcTransactionAuthorizationEvidence)
    → stage ≢ rpc_transaction_verified
    → Verdict
        (with_rpc_transaction run kind reconciliation_required stage evidence type id at)
        kind
        false
blocked_Verdict run kind stage type id at evidence other =
    let after = with_rpc_transaction run kind reconciliation_required stage evidence type id at in
    let facts =
      with_rpc_transaction-stage run kind reconciliation_required stage type id at evidence in
    (
      ground (arith, facts, stage_eq_iff (op_v4 after kind).stage rpc_transaction_verified),
      ground (arith, facts, status_eq_iff after.status reconciliation_required),
    )

verified_Verdict :
    (run : ExecutionRunV4) (kind : OperationKind) (type id at : String)
    (evidence : Option RpcTransactionAuthorizationEvidence)
    → Verdict
        (with_rpc_transaction run kind broadcast_recorded rpc_transaction_verified evidence type id
          at)
        kind
        true
verified_Verdict run kind type id at evidence =
    let after =
      with_rpc_transaction run kind broadcast_recorded rpc_transaction_verified evidence type id
        at in
    let facts =
      with_rpc_transaction-stage run kind broadcast_recorded rpc_transaction_verified type id at
        evidence in
    (
      ground (arith, facts, stage_eq_iff (op_v4 after kind).stage rpc_transaction_verified),
      ground (arith, facts, status_eq_iff after.status reconciliation_required),
    )

fee_effect-Verdict :
    (run : ExecutionRunV4) (kind : OperationKind) (tx_hash : String)
    (observed : ImmutableExecutionIdentity) (raw : RawFeeFields) (id at : String)
    (decision : Result FeeAuthorizationDecision)
    → Verdict
        (fee_effect run kind tx_hash observed raw id at (decision_of decision))
        kind
        (is_accepted decision)
unfolding fee_effect
fee_effect-Verdict run kind tx_hash observed raw id at (err e) =
    blocked_Verdict run kind policy_violation_onchain _ id at _ (λ p. cc)
fee_effect-Verdict run kind tx_hash observed raw id at (ok (refused code)) =
    blocked_Verdict run kind policy_violation_onchain _ id at _ (λ p. cc)
fee_effect-Verdict run kind tx_hash observed raw id at (ok (accepted maximum)) =
    verified_Verdict run kind _ id at _

record_rpc_transaction_effect-Verdict :
    (run : ExecutionRunV4) (kind : OperationKind) (tx_hash : String)
    (prepared observed : ImmutableExecutionIdentity) (fee : FeeAuthorization) (raw : RawFeeFields)
    (id at : String)
    → Verdict
        (record_rpc_transaction_effect run kind tx_hash prepared observed fee raw id at)
        kind
        (is_observed_identity observed
          && same_identity observed prepared
          && is_accepted (evaluate_fee_authorization fee raw))
unfolding record_rpc_transaction_effect
record_rpc_transaction_effect-Verdict run kind tx_hash prepared observed fee raw id at =
    elim (Bool-cases (is_observed_identity observed)) [
      | inr unreadable ↦
          rw unreadable
            (blocked_Verdict run kind rpc_transaction_reconciliation_required _ id at _ (λ p. cc))
      | inl readable ↦ elim (Bool-cases (same_identity observed prepared)) [
        | inr other ↦
            rw (readable, other)
              (blocked_Verdict run kind rpc_transaction_reconciliation_required _ id at _ (λ p. cc))
        | inl same ↦
            rw (readable, same)
              (fee_effect-Verdict run kind tx_hash observed raw id at
                (evaluate_fee_authorization fee raw))
      ]
    ]

-- The verdict on the transaction that the node reports is exact: where the call is accepted, the
-- operation is verified if and only if the observed identity is well formed and that of the active
-- attempt and the fees are within the attempt's authorization; in every other case the run waits for
-- reconciliation, and in this one it does not.
pub rpc_transaction-Verdict :
    (run : ExecutionRunV4) (kind : OperationKind) (tx_hash : String) (attempt : PreparationAttempt)
    (prepared observed : ImmutableExecutionIdentity) (fee : FeeAuthorization) (raw : RawFeeFields)
    (id at : String) {next : ExecutionRunV4}
    → active_attempt (op_v4 run kind) ≡ ok attempt
    → attempt.immutable_identity ≡ some prepared
    → attempt.fee_authorization ≡ some fee
    → record_rpc_transaction run kind tx_hash observed raw id at ≡ ok next
    → Verdict next kind (
        is_observed_identity observed
        && same_identity observed prepared
        && is_accepted (evaluate_fee_authorization fee raw))
unfolding record_rpc_transaction
rpc_transaction-Verdict run kind tx_hash attempt prepared observed fee raw id at {next} found
      identified paid h =
    let e : record_rpc_transaction_effect run kind tx_hash prepared observed fee raw id at ≡ next =
      ground arith in
    coe 0 1
      (i. Verdict (e i) kind (
        is_observed_identity observed
        && same_identity observed prepared
        && is_accepted (evaluate_fee_authorization fee raw)))
      (record_rpc_transaction_effect-Verdict run kind tx_hash prepared observed fee raw id at)

-- the prompt that a call recorded, and what it rests on
pub record IsAuthorized (hashing : Hashing) (run next : ExecutionRunV4) (kind : OperationKind)
    : Type 0 where
  pub attempt : PreparationAttempt
  pub prompt : WalletPromptAuthorizationRecord
  pub active : active_attempt (op_v4 run kind) ≡ ok attempt
  pub recorded : (op_v4 next kind).wallet_prompt_authorization ≡ some prompt
  pub unreleased : is_invoked prompt.provider_invocation ≡ false
  pub same_identity : attempt.immutable_identity ≡ some prompt.wallet_intent.immutable_identity
  pub valid : is_wallet_execution_intent prompt.wallet_intent ≡ true
  pub hashed : prompt.wallet_intent_hash ≡ hashing.hash_intent prompt.wallet_intent
  pub destination :
      prompt.wallet_intent.semantic_authorization.destination_policy.reviewed_destination
      ≡ prompt.wallet_intent.immutable_identity.to
  pub commitment :
      prompt.wallet_intent.semantic_authorization.calldata_commitment
      ≡ hashing.sha256_utf8 prompt.wallet_intent.immutable_identity.calldata

semantic_differs-same :
    (kind : OperationKind) (semantic : SemanticAuthorization)
    (identity : ImmutableExecutionIdentity) (commitment : String)
    → semantic_differs kind semantic identity commitment ≡ false
    → (semantic.destination_policy.reviewed_destination ≡ identity.to)
      × (semantic.calldata_commitment ≡ commitment)
unfolding semantic_differs
semantic_differs-same kind semantic identity commitment h = ground (
  arith,
  str_eq_iff semantic.destination_policy.reviewed_destination identity.to,
  str_eq_iff semantic.calldata_commitment commitment,
)

recorded_prompt_effect :
    (run : ExecutionRunV4) (kind : OperationKind) (attempts : List PreparationAttempt)
    (intent : WalletExecutionIntent) (hash id at : String)
    → (op_v4
        (record_wallet_prompt_authorization_effect run kind attempts intent hash id at)
        kind).wallet_prompt_authorization
      ≡ some (recorded_prompt intent hash at)
unfolding record_wallet_prompt_authorization_effect append_event_v4 replace_operation_v4
recorded_prompt_effect run tokenize attempts intent hash id at = refl
recorded_prompt_effect run whitelist attempts intent hash id at = refl
recorded_prompt_effect run mint attempts intent hash id at = refl

module _ (viem : AddressLibrary) (hashing : Hashing) where
  -- A wallet prompt that is recorded on a version 4.0 run is not yet released, and its intent passes
  -- the whole schema, is for the identity of the active attempt, is stored under its hash, and is
  -- authorized for the destination and for the digest of the calldata of that very identity.
  pub recorded_prompt-IsAuthorized :
      (run : ExecutionRunV4) (kind : OperationKind) (foundation : V4PreparationFoundationInput)
      (raw : NonceFreshnessEvidence) (semantic : SemanticAuthorization) (id at : String)
      {next : ExecutionRunV4}
      → record_wallet_prompt_authorization viem hashing (v4 run) kind foundation raw semantic id at
        ≡ ok next
      → IsAuthorized hashing run next kind
  recorded_prompt-IsAuthorized run kind foundation raw semantic id at {next} h =
      let a =
        record_wallet_prompt_authorization-Authorized viem hashing run kind foundation raw semantic
          id at h in
      let prompt = recorded_prompt a.intent (hashing.hash_intent a.intent) at in
      let same =
        semantic_differs-same kind a.semantic a.identity (hashing.sha256_utf8 a.identity.calldata)
          a.same_transaction in
      record {
        attempt = a.attempt;
        prompt = prompt;
        active = a.active;
        recorded =
            ap (λ r. (op_v4 r kind).wallet_prompt_authorization) a.effect
            ∙ recorded_prompt_effect run kind a.attempts a.intent (hashing.hash_intent a.intent) id
                at;
        unreleased = refl;
        same_identity = a.has_identity ∙ ap some (sym a.same_identity);
        valid = a.valid;
        hashed = refl;
        destination = ground (arith, same, a.same_semantic, a.same_identity);
        commitment = ground (arith, same, a.same_semantic, a.same_identity);
      }
