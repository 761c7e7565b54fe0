-- ===== src/Execution/V4/Reach.antt =====
-- Sequences of accepted calls on a run of version 4.0, and what no sequence can change.
use edict.Prelude.{◌≡◌, inl, inr, String, true, false, some, arith, ◌≢◌}
use edict.Execution.Result.{Result-cases, ok, is_ok}
use edict.Execution.Kind.{OperationKind, tokenize, whitelist, mint, read_back_verified}
use edict.Execution.Evidence.{AddressLibrary}
use edict.Execution.Types.{Operations, operation_at, with_operation}
use edict.Execution.V4.Types.{ExecutionRunV4, WriteOperationV4, CorrelationPair}
use edict.Execution.V4.Base.{Hashing, op_v4}
use edict.Execution.V4.Calls.{Call, target}
use edict.Execution.V4.Perform.{perform}
use edict.Execution.V4.Prompt.{
  authorize_provider_invocation, record_broadcast_hash_v4, assert_invoked_prompt,
}
use edict.Execution.V4.Correlation.{
  correlated_pair, exact_correlation_pair, begin_brickken_correlation,
}
use edict.Execution.V4.Steps.{OpStep}
use edict.Execution.V4.RunSteps.{RunStep}
use edict.Execution.V4.RunSteps.All.{perform-RunStep}
use edict.Execution.V4.OpInvariants.{
  Released, release_of, OpStep-release, OpStep-hash, OpStep-pair, IsCoherent, OpStep-IsCoherent,
  IsProvenOnceVerified, OpStep-proven, is_proven,
}
use edict.Execution.V4.AttemptLists.{HasFewAttempts, OpStep-HasFewAttempts}

-- the runs that accepted calls lead to
pub data Reach (viem : AddressLibrary) (hashing : Hashing) (run : ExecutionRunV4)
    : ExecutionRunV4 → Type 0 where
  here : Reach viem hashing run run
  extended :
      {middle after : ExecutionRunV4} (call : Call)
      → Reach viem hashing run middle
      → perform viem hashing middle call ≡ ok after
      → Reach viem hashing run after

-- What a step of an operation keeps, calls keep.
module _ (P : WriteOperationV4 → Type 0)
    (keeps : (o next : WriteOperationV4) → OpStep o next → P o → P next) where
  with_operation-keeps :
      (changed kind : OperationKind) (o : WriteOperationV4) (ops : Operations WriteOperationV4)
      → OpStep (operation_at changed ops) o
      → P (operation_at kind ops)
      → P (operation_at kind (with_operation changed o ops))
  with_operation-keeps tokenize tokenize o ops step p = keeps _ _ step p
  with_operation-keeps whitelist whitelist o ops step p = keeps _ _ step p
  with_operation-keeps mint mint o ops step p = keeps _ _ step p
  with_operation-keeps tokenize whitelist o ops step p = p
  with_operation-keeps tokenize mint o ops step p = p
  with_operation-keeps whitelist tokenize o ops step p = p
  with_operation-keeps whitelist mint o ops step p = p
  with_operation-keeps mint tokenize o ops step p = p
  with_operation-keeps mint whitelist o ops step p = p

  RunStep-keeps :
      (run next : ExecutionRunV4) (changed kind : OperationKind)
      → RunStep run next changed
      → P (op_v4 run kind)
      → P (op_v4 next kind)
  RunStep-keeps run next changed kind r p =
      coe 1 0 (i. P (operation_at kind (r.operations i)))
        (with_operation-keeps changed kind r.operation run.operations r.step p)

  pub Reach-keeps :
      (viem : AddressLibrary) (hashing : Hashing) (run later : ExecutionRunV4)
      (kind : OperationKind)
      → Reach viem hashing run later
      → P (op_v4 run kind)
      → P (op_v4 later kind)
  Reach-keeps viem hashing run _ kind here p = p
  Reach-keeps viem hashing run later kind (extended {middle} call r h) p =
      RunStep-keeps middle later (target call) kind (perform-RunStep viem hashing middle call h)
        (Reach-keeps viem hashing run middle kind r p)

module _ (viem : AddressLibrary) (hashing : Hashing) (run later : ExecutionRunV4)
    (kind : OperationKind) (r : Reach viem hashing run later) where
  released_refuses :
      (o : ExecutionRunV4) (released : Released) (invocation id at : String)
      → release_of (op_v4 o kind).wallet_prompt_authorization ≡ some released
      → is_ok (authorize_provider_invocation o kind invocation id at) ≡ false
  unfolding authorize_provider_invocation
  released_refuses o released invocation id at h = ground arith

  -- The provider is released once: after any accepted calls a released prompt still has its wallet
  -- intent, its hash, its invocation and its time, and another release is refused.
  pub provider_released_once :
      (released : Released) (invocation id at : String)
      → release_of (op_v4 run kind).wallet_prompt_authorization ≡ some released
      → (release_of (op_v4 later kind).wallet_prompt_authorization ≡ some released)
        × (is_ok (authorize_provider_invocation later kind invocation id at) ≡ false)
  provider_released_once released invocation id at h =
      let kept =
        Reach-keeps (λ o. release_of o.wallet_prompt_authorization ≡ some released)
          (λ o next step. OpStep-release o next released step) viem hashing run later kind r h in
      (kept, released_refuses later released invocation id at kept)

  broadcast_refuses :
      (o : ExecutionRunV4) (hash other id at : String)
      → (op_v4 o kind).blockchain_tx_hash ≡ some hash
      → is_ok (record_broadcast_hash_v4 o kind other id at) ≡ false
  unfolding record_broadcast_hash_v4 assert_invoked_prompt
  broadcast_refuses o hash other id at h = ground arith

  -- A broadcast hash is written once: after any accepted calls an operation still has its hash, and
  -- another hash is refused.
  pub broadcast_hash_written_once :
      (hash other id at : String)
      → (op_v4 run kind).blockchain_tx_hash ≡ some hash
      → ((op_v4 later kind).blockchain_tx_hash ≡ some hash)
        × (is_ok (record_broadcast_hash_v4 later kind other id at) ≡ false)
  broadcast_hash_written_once hash other id at h =
      let kept =
        Reach-keeps (λ o. o.blockchain_tx_hash ≡ some hash)
          (λ o next step. OpStep-hash o next hash step) viem hashing run later kind r h in
      (kept, broadcast_refuses later hash other id at kept)

  correlation_refuses :
      (o : ExecutionRunV4) (pair : CorrelationPair) (id at : String)
      → correlated_pair (op_v4 o kind).brickken_correlation ≡ some pair
      → is_ok (begin_brickken_correlation o kind id at) ≡ false
  unfolding begin_brickken_correlation
  correlation_refuses o pair id at h =
      elim (Result-cases (begin_brickken_correlation o kind id at)) [
        | inl (after, accepted) ↦ ground arith
        | inr (e, failed) ↦ rw failed
      ]

  -- The pair of a correlation is fixed when it begins: after any accepted calls it is the same, and
  -- another beginning is refused.
  pub correlation_pair_fixed :
      (pair : CorrelationPair) (id at : String)
      → exact_correlation_pair run kind ≡ some pair
      → (exact_correlation_pair later kind ≡ some pair)
        × (is_ok (begin_brickken_correlation later kind id at) ≡ false)
  unfolding exact_correlation_pair
  correlation_pair_fixed pair id at h =
      let kept =
        Reach-keeps (λ o. correlated_pair o.brickken_correlation ≡ some pair)
          (λ o next step. OpStep-pair o next pair step) viem hashing run later kind r h in
      (kept, correlation_refuses later pair id at kept)

  -- The cross-checks of the persisted schemas, but for the order of times, are invariant under
  -- accepted calls: on the prompt, on the node's evidence and on the correlation, with its attempts
  -- numbered and at most three; and the correlation is of the broadcast hash.
  pub operation_stays-IsCoherent : IsCoherent (op_v4 run kind) → IsCoherent (op_v4 later kind)
  operation_stays-IsCoherent =
      Reach-keeps IsCoherent OpStep-IsCoherent viem hashing run later kind r

  -- An operation that has at most two preparation attempts, numbered from one, has so after any
  -- accepted calls.
  pub attempts_stay_numbered : HasFewAttempts (op_v4 run kind) → HasFewAttempts (op_v4 later kind)
  attempts_stay_numbered =
      Reach-keeps HasFewAttempts OpStep-HasFewAttempts viem hashing run later kind r

  -- An operation that accepted calls bring to its verified read-back was correlated, and has a
  -- receipt of success in a final block and fees within the authorization.
  pub verified_operation_is_proven :
      (op_v4 run kind).stage ≢ read_back_verified
      → (op_v4 later kind).stage ≡ read_back_verified
      → is_proven (op_v4 later kind) ≡ true
  verified_operation_is_proven fresh =
      Reach-keeps IsProvenOnceVerified OpStep-proven viem hashing run later kind r
        (λ v. absurd (fresh v))
