-- ===== src/Execution/V4/Prompt.antt =====
-- The wallet prompt of a version 4.0 run and what the provider made of it:
-- `recordWalletPromptAuthorizationV4` to `recordBroadcastHashV4` of
-- src/server/execution/v4-transitions.ts.
use edict.Prelude.{◌+◌, String, Bool, false, not, ◌||◌, Option, none, some, List, str_eq, is_some}
use edict.Text.{is_tx_hash}
use edict.Text.Numeral.{prefix, is_bounded}
use edict.Execution.Result.{Result, ok, illegal_state_transition, ◌>>=◌, ◌>>◌, refuse}
use edict.Execution.Kind.{
  OperationKind, awaiting_wallet, broadcast_recorded, reconciliation_required, prepared,
  wallet_prompt_recorded, wallet_rejected, broadcast_unknown, broadcast_hash_persisted, stage_eq,
  user, server, wallet,
}
use edict.Execution.Evidence.{AddressLibrary}
use edict.Fee.Schema.{FeeAuthorization}
use edict.Wallet.Intent.{
  ImmutableExecutionIdentity, SemanticAuthorization, parse_semantic_authorization, same_method,
  WalletExecutionIntent, validate_wallet_execution_intent,
}
use edict.Execution.V4.Types.{
  FreshnessStatus, NonceFreshnessEvidence, PreparationAttempt, ProviderInvocation,
  UnresolvedOutcome, WalletPromptAuthorizationRecord, ExecutionRunV4, ExecutionRun,
}
use edict.Execution.V4.Contracts.{is_invoked}
use edict.Execution.V4.Base.{
  Hashing, operation_sequence, method_for, op_v4, append_event_v4, replace_operation_v4,
  active_attempt, replace_active_attempt, clone_v4,
}
use edict.Execution.V4.Preparation.{
  V4PreparationFoundationInput, assert_nonce_evidence, lacks_token,
}
use edict.Execution.V4.Attempts.{upgrade_prepared_run, given}

-- the intent that the wallet is asked to execute
unfoldable pub wallet_intent_of :
    ExecutionRunV4
    → OperationKind
    → (attempt_id tx_id fingerprint : String) → ImmutableExecutionIdentity
    → FeeAuthorization
    → SemanticAuthorization
    → WalletExecutionIntent
wallet_intent_of run kind attempt_id tx_id fingerprint identity fee semantic = record {
  run_id = run.id;
  run_revision = run.revision + 1;
  approval_identity = record {
    approval_revision = run.approval.approval_revision;
    typed_data_digest = run.approval.proof.typed_data_digest;
  };
  manifest_hash = run.manifest_hash;
  plan_hash = run.plan_hash;
  environment = run.environment;
  operation = record { id = (op_v4 run kind).id; kind = kind; sequence = operation_sequence kind };
  required_signer = run.required_signer.wallet_address;
  decimal_chain_id = "11155111";
  immutable_identity = identity;
  fee_authorization = fee;
  brickken_preparation = record {
    method = method_for kind;
    execution_mode = "client-broadcast";
    preparation_attempt_id = attempt_id;
    prepared_tx_id = tx_id;
    preparation_fingerprint = fingerprint;
  };
  semantic_authorization = semantic;
}

-- the semantic authorization is for another transaction
unfoldable pub semantic_differs :
    OperationKind
    → SemanticAuthorization
    → ImmutableExecutionIdentity
    → (commitment : String) → Bool
semantic_differs kind semantic identity commitment =
    not (same_method semantic.brickken_method (method_for kind))
    || not (str_eq semantic.destination_policy.reviewed_destination identity.to)
    || not (str_eq semantic.selector_policy.reviewed_selector (prefix 10 identity.calldata))
    || not (str_eq semantic.calldata_commitment commitment)

abbrev pub recorded_prompt :
    WalletExecutionIntent → (hash at : String) → WalletPromptAuthorizationRecord
recorded_prompt intent hash at = record {
  wallet_intent = intent;
  wallet_intent_hash = hash;
  provider_invocation = ProviderInvocation.proven_not_invoked;
  invocation_attempt_id = none;
  authority_released_at = none;
  unresolved_outcome = none;
  unresolved_at = none;
  recorded_at = at;
}

-- the run after an accepted `record_wallet_prompt_authorization`
unfoldable pub record_wallet_prompt_authorization_effect :
    ExecutionRunV4
    → OperationKind
    → List PreparationAttempt
    → WalletExecutionIntent
    → (hash id at : String) → ExecutionRunV4
record_wallet_prompt_authorization_effect run kind attempts intent hash id at =
    append_event_v4
      (replace_operation_v4 (record run { status = awaiting_wallet }) kind
        (record (op_v4 run kind) {
          preparation_attempts = attempts;
          stage = wallet_prompt_recorded;
          wallet_prompt_at = some at;
          wallet_prompt_authorization = some (recorded_prompt intent hash at);
        }))
      id at "RECORD_V4_WALLET_PROMPT" kind user

-- the attempt with the evidence that its nonce is fresh
abbrev pub fresh_attempt : PreparationAttempt → NonceFreshnessEvidence → PreparationAttempt
fresh_attempt attempt evidence = record attempt {
  freshness_evaluated_at = some evidence.observed_at;
  nonce_freshness_evidence = some evidence;
}

module _ (viem : AddressLibrary) (hashing : Hashing) where
  open hashing use {sha256_utf8, hash_intent}

  -- `recordWalletPromptAuthorizationV4`
  unfoldable pub record_wallet_prompt_authorization :
      ExecutionRun
      → OperationKind
      → V4PreparationFoundationInput
      → NonceFreshnessEvidence
      → SemanticAuthorization
      → (id at : String) → Result ExecutionRunV4
  record_wallet_prompt_authorization raw kind foundation nonce_evidence raw_semantic id at = do
    run ← upgrade_prepared_run viem hashing raw kind foundation
    let o = op_v4 run kind
    refuse (not (stage_eq o.stage prepared) || is_some o.wallet_prompt_authorization)
        illegal_state_transition
    refuse (lacks_token run kind) illegal_state_transition
    attempt ← active_attempt o
    tx_id ← given attempt.tx_id
    fingerprint ← given attempt.preparation_fingerprint
    identity ← given attempt.immutable_identity
    fee ← given attempt.fee_authorization
    evidence ← assert_nonce_evidence run kind nonce_evidence FreshnessStatus.fresh
    refuse (not (str_eq evidence.observed_at at)) illegal_state_transition
    semantic ← parse_semantic_authorization raw_semantic
    refuse (semantic_differs kind semantic identity (sha256_utf8 identity.calldata))
        illegal_state_transition
    intent ←
        validate_wallet_execution_intent
          (wallet_intent_of run kind attempt.attempt_id tx_id fingerprint identity fee semantic)
    attempts ← replace_active_attempt o (fresh_attempt attempt evidence)
    ok (
        record_wallet_prompt_authorization_effect run kind attempts intent (hash_intent intent) id
          at)

-- the prompt once the provider may have been invoked
abbrev pub released_prompt :
    WalletPromptAuthorizationRecord
    → (invocation_attempt_id at : String) → WalletPromptAuthorizationRecord
released_prompt prompt invocation_attempt_id at = record prompt {
  provider_invocation = ProviderInvocation.invoked_or_unknown;
  invocation_attempt_id = some invocation_attempt_id;
  authority_released_at = some at;
}

unfoldable pub authorize_provider_invocation_effect :
    ExecutionRunV4
    → OperationKind
    → WalletPromptAuthorizationRecord
    → (invocation_attempt_id id at : String) → ExecutionRunV4
authorize_provider_invocation_effect run kind prompt invocation_attempt_id id at =
    append_event_v4
      (replace_operation_v4 run kind (record (op_v4 run kind) {
        wallet_prompt_authorization = some (released_prompt prompt invocation_attempt_id at);
      }))
      id at "AUTHORIZE_PROVIDER_INVOCATION" kind server

-- `authorizeProviderInvocationV4`
unfoldable pub authorize_provider_invocation :
    ExecutionRunV4 → OperationKind → (invocation_attempt_id id at : String) → Result ExecutionRunV4
authorize_provider_invocation given_run kind invocation_attempt_id id at = do
  run ← clone_v4 given_run
  let o = op_v4 run kind
  prompt ← given o.wallet_prompt_authorization
  refuse
      (not (stage_eq o.stage wallet_prompt_recorded)
        || is_invoked prompt.provider_invocation
        || is_some o.blockchain_tx_hash
        || not (is_bounded 1024 invocation_attempt_id))
      illegal_state_transition
  ok (authorize_provider_invocation_effect run kind prompt invocation_attempt_id id at)

-- `walletPromptAuthorization?.providerInvocation`: there is a prompt, not yet or already released
abbrev pub is_unreleased : Option WalletPromptAuthorizationRecord → Bool
is_unreleased none = false
is_unreleased (some prompt) = not (is_invoked prompt.provider_invocation)

abbrev pub is_released : Option WalletPromptAuthorizationRecord → Bool
is_released none = false
is_released (some prompt) = is_invoked prompt.provider_invocation

unfoldable pub record_wallet_rejected_effect :
    ExecutionRunV4 → OperationKind → (id at : String) → ExecutionRunV4
record_wallet_rejected_effect run kind id at =
    append_event_v4
      (replace_operation_v4 run kind (record (op_v4 run kind) { stage = wallet_rejected })) id at
      "RECORD_WALLET_REJECTION" kind user

-- `recordWalletRejectedV4`
unfoldable pub record_wallet_rejected :
    ExecutionRunV4 → OperationKind → (id at : String) → Result ExecutionRunV4
record_wallet_rejected given_run kind id at = do
  run ← clone_v4 given_run
  let o = op_v4 run kind
  refuse
      (not (stage_eq o.stage wallet_prompt_recorded)
        || not (is_unreleased o.wallet_prompt_authorization))
      illegal_state_transition
  ok (record_wallet_rejected_effect run kind id at)

-- `assertInvokedPrompt`, with the prompt that it finds
unfoldable pub assert_invoked_prompt :
    ExecutionRunV4 → OperationKind → Result WalletPromptAuthorizationRecord
assert_invoked_prompt run kind = do
  let o = op_v4 run kind
  prompt ← given o.wallet_prompt_authorization
  refuse
      (not (stage_eq o.stage wallet_prompt_recorded)
        || not (is_invoked prompt.provider_invocation)
        || is_some o.blockchain_tx_hash)
      illegal_state_transition
  ok prompt

unfoldable pub record_broadcast_unknown_v4_effect :
    ExecutionRunV4
    → OperationKind
    → WalletPromptAuthorizationRecord
    → UnresolvedOutcome
    → (id at : String) → ExecutionRunV4
record_broadcast_unknown_v4_effect run kind prompt reason id at =
    append_event_v4
      (replace_operation_v4 (record run { status = reconciliation_required }) kind
        (record (op_v4 run kind) {
          stage = broadcast_unknown;
          wallet_prompt_authorization =
              some (record prompt { unresolved_outcome = some reason; unresolved_at = some at });
        }))
      id at "RECORD_BROADCAST_UNKNOWN" kind wallet

-- `recordBroadcastUnknownV4`
unfoldable pub record_broadcast_unknown_v4 :
    ExecutionRunV4 → OperationKind → UnresolvedOutcome → (id at : String) → Result ExecutionRunV4
record_broadcast_unknown_v4 given_run kind reason id at = do
  run ← clone_v4 given_run
  prompt ← assert_invoked_prompt run kind
  ok (record_broadcast_unknown_v4_effect run kind prompt reason id at)

unfoldable pub record_broadcast_hash_v4_effect :
    ExecutionRunV4 → OperationKind → (tx_hash id at : String) → ExecutionRunV4
record_broadcast_hash_v4_effect run kind tx_hash id at =
    append_event_v4
      (replace_operation_v4 (record run { status = broadcast_recorded }) kind
        (record (op_v4 run kind) {
          stage = broadcast_hash_persisted;
          blockchain_tx_hash = some tx_hash;
          broadcast_at = some at;
        }))
      id at "RECORD_BROADCAST_HASH" kind wallet

-- `recordBroadcastHashV4`
unfoldable pub record_broadcast_hash_v4 :
    ExecutionRunV4 → OperationKind → (tx_hash id at : String) → Result ExecutionRunV4
record_broadcast_hash_v4 given_run kind tx_hash id at = do
  run ← clone_v4 given_run
  prompt ← assert_invoked_prompt run kind
  refuse (not (is_tx_hash tx_hash)) illegal_state_transition
  ok (record_broadcast_hash_v4_effect run kind tx_hash id at)
