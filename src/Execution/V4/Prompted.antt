-- ===== src/Execution/V4/Prompted.antt =====
-- What `recordWalletPromptAuthorizationV4` of src/server/execution/v4-transitions.ts accepts.
use edict.Prelude.{◌≡◌, refl, inl, inr, String, true, false, none, some, List, arith, Option-cases}
use edict.Execution.Result.{Result-cases, ok}
use edict.Execution.Kind.{OperationKind, prepared, stage_eq_iff}
use edict.Execution.Evidence.{AddressLibrary}
use edict.Fee.Schema.{FeeAuthorization}
use edict.Wallet.Intent.{
  ImmutableExecutionIdentity, SemanticAuthorization, parse_semantic_authorization,
  WalletExecutionIntent, validate_wallet_execution_intent, is_wallet_execution_intent,
}
use edict.Execution.V4.Types.{
  FreshnessStatus, NonceFreshnessEvidence, PreparationAttempt, ExecutionRunV4, v4,
}
use edict.Execution.V4.Base.{Hashing, op_v4, active_attempt, replace_active_attempt}
use edict.Execution.V4.Preparation.{
  V4PreparationFoundationInput, assert_nonce_evidence, lacks_token,
}
use edict.Execution.V4.Attempts.{upgrade_prepared_run}
use edict.Execution.V4.Prompt.{
  wallet_intent_of, semantic_differs, fresh_attempt, record_wallet_prompt_authorization,
  record_wallet_prompt_authorization_effect,
}

-- the parts that the prompt is made of, and the checks that they passed
pub record Authorized (hashing : Hashing) (run : ExecutionRunV4) (kind : OperationKind)
    (raw : NonceFreshnessEvidence) (raw_semantic : SemanticAuthorization) (id at : String)
    (next : ExecutionRunV4) : Type 0 where
  pub attempt : PreparationAttempt
  pub evidence : NonceFreshnessEvidence
  pub identity : ImmutableExecutionIdentity
  pub semantic : SemanticAuthorization
  pub intent : WalletExecutionIntent
  pub attempts : List PreparationAttempt
  pub stage : (op_v4 run kind).stage ≡ prepared
  pub unprompted : (op_v4 run kind).wallet_prompt_authorization ≡ none
  pub has_token : lacks_token run kind ≡ false
  pub active : active_attempt (op_v4 run kind) ≡ ok attempt
  pub has_identity : attempt.immutable_identity ≡ some identity
  pub asserted : assert_nonce_evidence run kind raw FreshnessStatus.fresh ≡ ok evidence
  pub parsed : parse_semantic_authorization raw_semantic ≡ ok semantic
  pub same_transaction :
      semantic_differs kind semantic identity (hashing.sha256_utf8 identity.calldata) ≡ false
  pub same_identity : intent.immutable_identity ≡ identity
  pub same_semantic : intent.semantic_authorization ≡ semantic
  pub valid : is_wallet_execution_intent intent ≡ true
  pub replaced :
      replace_active_attempt (op_v4 run kind) (fresh_attempt attempt evidence) ≡ ok attempts
  pub effect :
      next
      ≡ record_wallet_prompt_authorization_effect run kind attempts intent
          (hashing.hash_intent intent)
          id
          at

wallet_intent_of-identity :
    (run : ExecutionRunV4) (kind : OperationKind) (attempt_id tx_id fingerprint : String)
    (identity : ImmutableExecutionIdentity) (fee : FeeAuthorization)
    (semantic : SemanticAuthorization)
    → (wallet_intent_of run kind attempt_id tx_id fingerprint identity fee
        semantic).immutable_identity
      ≡ identity
unfolding wallet_intent_of
wallet_intent_of-identity run kind attempt_id tx_id fingerprint identity fee semantic = refl

wallet_intent_of-semantic :
    (run : ExecutionRunV4) (kind : OperationKind) (attempt_id tx_id fingerprint : String)
    (identity : ImmutableExecutionIdentity) (fee : FeeAuthorization)
    (semantic : SemanticAuthorization)
    → (wallet_intent_of run kind attempt_id tx_id fingerprint identity fee
        semantic).semantic_authorization
      ≡ semantic
unfolding wallet_intent_of
wallet_intent_of-semantic run kind attempt_id tx_id fingerprint identity fee semantic = refl

module _ (viem : AddressLibrary) (hashing : Hashing) where
  pub record_wallet_prompt_authorization-Authorized :
      (run : ExecutionRunV4) (kind : OperationKind) (foundation : V4PreparationFoundationInput)
      (raw : NonceFreshnessEvidence) (raw_semantic : SemanticAuthorization) (id at : String)
      {next : ExecutionRunV4}
      → record_wallet_prompt_authorization viem hashing
          (v4 run)
          kind
          foundation
          raw
          raw_semantic
          id
          at
        ≡ ok next
      → Authorized hashing run kind raw raw_semantic id at next
  unfolding record_wallet_prompt_authorization upgrade_prepared_run validate_wallet_execution_intent
  record_wallet_prompt_authorization-Authorized run kind foundation raw raw_semantic id at {next}
        h =
      let o = op_v4 run kind in
      elim (Result-cases (active_attempt o)) [
        | inr (e, failed) ↦ ground arith
        | inl (attempt, found) ↦ elim (Option-cases attempt.tx_id) [
          | inl missing ↦ ground arith
          | inr (tx_id, has_tx) ↦ elim (Option-cases attempt.preparation_fingerprint) [
            | inl missing ↦ ground arith
            | inr (fingerprint, printed) ↦ elim (Option-cases attempt.immutable_identity) [
              | inl missing ↦ ground arith
              | inr (identity, identified) ↦ elim (Option-cases attempt.fee_authorization) [
                | inl missing ↦ ground arith
                | inr (fee, paid) ↦
                    elim (Result-cases (assert_nonce_evidence run kind raw FreshnessStatus.fresh)) [
                      | inr (e, failed) ↦ ground arith
                      | inl (evidence, asserted) ↦
                          elim (Result-cases (parse_semantic_authorization raw_semantic)) [
                            | inr (e, failed) ↦ ground arith
                            | inl (semantic, parsed) ↦
                                let intent =
                                  wallet_intent_of run kind attempt.attempt_id tx_id fingerprint
                                    identity fee semantic in
                                elim (Result-cases
                                  (replace_active_attempt o (fresh_attempt attempt evidence))) [
                                    | inr (e, failed) ↦ ground arith
                                    | inl (attempts, replaced) ↦ record {
                                      attempt = attempt;
                                      evidence = evidence;
                                      identity = identity;
                                      semantic = semantic;
                                      intent = intent;
                                      attempts = attempts;
                                      stage = ground (arith, stage_eq_iff o.stage prepared);
                                      unprompted = ground arith;
                                      has_token = ground arith;
                                      active = found;
                                      has_identity = identified;
                                      asserted = asserted;
                                      parsed = parsed;
                                      same_transaction = ground arith;
                                      same_identity =
                                          wallet_intent_of-identity run kind attempt.attempt_id
                                            tx_id fingerprint identity fee semantic;
                                      same_semantic =
                                          wallet_intent_of-semantic run kind attempt.attempt_id
                                            tx_id fingerprint identity fee semantic;
                                      valid = ground arith;
                                      replaced = replaced;
                                      effect = ground arith;
                                    }
                                  ]
                          ]
                    ]
              ]
            ]
          ]
        ]
      ]
