-- ===== src/Execution/Kind.antt =====
-- The enumerations of src/server/execution/types.ts, their `===`, and the triple of operations.
-- A test is shut: proofs go through its `_iff` lemma and do not split on twenty stages.
use edict.Prelude.{Bool, true, false, ◌≡◌, refl, ◌↔◌}

pub data OperationKind : Type 0 where
  tokenize whitelist mint : OperationKind

pub data RunPhase : Type 0 where
  plan tokenization whitelist mint verification : RunPhase

pub data RunStatus : Type 0 where
  awaiting_approval preparing awaiting_wallet broadcast_recorded confirming succeeded : RunStatus
  timed_out failed reconciliation_required : RunStatus

pub data TerminalOutcome : Type 0 where
  failed verification_failed cancelled : TerminalOutcome

pub data OperationStage : Type 0 where
  not_started prepare_intent prepared wallet_prompt_recorded wallet_rejected : OperationStage
  broadcast_hash_persisted confirmation_submitted pending confirmed : OperationStage
  read_back_verified rejected prepare_unknown broadcast_unknown prepared_stale : OperationStage
  reprepare_intent rpc_transaction_verified policy_violation_onchain : OperationStage
  rpc_transaction_reconciliation_required brickken_correlation_pending : OperationStage
  brickken_correlated : OperationStage

pub data EventActor : Type 0 where
  user server wallet brickken : EventActor

pub data BrickkenConfirmationStatus : Type 0 where
  pending success rejected : BrickkenConfirmationStatus

pub data PreparationFailureCode : Type 0 where
  authentication_rejected entitlement_rejected credits_exhausted : PreparationFailureCode
  invalid_request signer_not_approved upstream_rate_limited : PreparationFailureCode
  upstream_server_error preparation_refused preparation_unconfirmed : PreparationFailureCode

-- `===` on an enumeration, from its decision.
unfoldable pub same {ℓ} : {A : Type ℓ} → Discrete A → A → A → Bool
same dec a b = elim (dec a b) [ yes _ ↦ true | no _ ↦ false ]

pub same_iff {ℓ} : {A : Type ℓ} (dec : Discrete A) (a b : A) → (same dec a b ≡ true) ↔ (a ≡ b)
unfolding same
same_iff dec a b =
    elim (dec a b) as (λ d. (elim d [ yes _ ↦ true | no _ ↦ false ] ≡ true) ↔ (a ≡ b)) [
      | yes p ↦ ((λ _. p), (λ _. refl))
      | no n ↦ ((λ h. cc), (λ p. absurd (n p)))
    ]

OperationKind-discrete : Discrete OperationKind
OperationKind-discrete = hlevel

unfoldable pub kind_eq : OperationKind → OperationKind → Bool
unfolding OperationKind-discrete same
kind_eq = same OperationKind-discrete

pub kind_eq_iff : (a b : OperationKind) → (kind_eq a b ≡ true) ↔ (a ≡ b)
unfolding kind_eq
kind_eq_iff = same_iff OperationKind-discrete

RunPhase-discrete : Discrete RunPhase
RunPhase-discrete = hlevel

unfoldable pub phase_eq : RunPhase → RunPhase → Bool
unfolding RunPhase-discrete same
phase_eq = same RunPhase-discrete

pub phase_eq_iff : (a b : RunPhase) → (phase_eq a b ≡ true) ↔ (a ≡ b)
unfolding phase_eq
phase_eq_iff = same_iff RunPhase-discrete

RunStatus-discrete : Discrete RunStatus
RunStatus-discrete = hlevel

unfoldable pub status_eq : RunStatus → RunStatus → Bool
unfolding RunStatus-discrete same
status_eq = same RunStatus-discrete

pub status_eq_iff : (a b : RunStatus) → (status_eq a b ≡ true) ↔ (a ≡ b)
unfolding status_eq
status_eq_iff = same_iff RunStatus-discrete

OperationStage-discrete : Discrete OperationStage
OperationStage-discrete = hlevel

unfoldable pub stage_eq : OperationStage → OperationStage → Bool
unfolding OperationStage-discrete same
stage_eq = same OperationStage-discrete

pub stage_eq_iff : (a b : OperationStage) → (stage_eq a b ≡ true) ↔ (a ≡ b)
unfolding stage_eq
stage_eq_iff = same_iff OperationStage-discrete
