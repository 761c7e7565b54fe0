-- ===== src/Execution/V4/OpInvariants.antt =====
-- What the state machine of an operation keeps.
use edict.Prelude.{
  ◌≡◌, refl, ℕ, suc, ◌+◌, ◌<◌, String, Bool, true, false, not, ◌&&◌, Option, none, some,
  length-append, if◌then◌else◌, List, [], ◌∷◌, ◌++◌, length, arith,
}
use edict.Wallet.Intent.{WalletExecutionIntent}
use edict.Execution.Kind.{read_back_verified, stage_eq_iff}
use edict.Execution.V4.Types.{
  WalletPromptAuthorizationRecord, BrickkenCorrelation, CorrelationPair, WriteOperationV4,
  BrickkenCorrelationAttempt, CorrelationResult, CorrelationLifecycle,
}
use edict.Execution.V4.Contracts.{
  is_invoked, is_incoherent_authority, is_incoherent_evidence, is_incoherent_correlation,
  are_numbered,
}
use edict.Execution.V4.Correlation.{
  settle_last, correlated_pair, authorized_attempt, has_correlated,
}
use edict.Execution.V4.ReadBack.{fees_within, received_success}
use edict.Execution.V4.Rpc.{takes_receipt}
use edict.Execution.V4.Steps.{OpStep}

-- what the release of a prompt fixes
pub record Released : Type 0 where
  pub wallet_intent : WalletExecutionIntent
  pub wallet_intent_hash : String
  pub invocation_attempt_id : Option String
  pub authority_released_at : Option String

-- the release of an operation's prompt, once the provider may have been invoked
abbrev pub release_of : Option WalletPromptAuthorizationRecord → Option Released
release_of none = none
release_of (some p) =
    if is_invoked p.provider_invocation
    then some (record {
      wallet_intent = p.wallet_intent;
      wallet_intent_hash = p.wallet_intent_hash;
      invocation_attempt_id = p.invocation_attempt_id;
      authority_released_at = p.authority_released_at;
    })
    else none

pub OpStep-release :
    (o next : WriteOperationV4) (released : Released)
    → OpStep o next
    → release_of o.wallet_prompt_authorization ≡ some released
    → release_of next.wallet_prompt_authorization ≡ some released
OpStep-release o next released (OpStep.loses_sight prompt reason at _ found invoked _ e) h =
    ground arith
OpStep-release o next released step h = ground arith

pub OpStep-hash :
    (o next : WriteOperationV4) (hash : String)
    → OpStep o next
    → o.blockchain_tx_hash ≡ some hash
    → next.blockchain_tx_hash ≡ some hash
OpStep-hash o next hash step h = ground arith

pub OpStep-pair :
    (o next : WriteOperationV4) (pair : CorrelationPair)
    → OpStep o next
    → correlated_pair o.brickken_correlation ≡ some pair
    → correlated_pair next.brickken_correlation ≡ some pair
OpStep-pair o next pair step h = ground arith

-- a field that is not there, or does not have the issues
abbrev pub coherent {ℓ} : {A : Type ℓ} → (A → Bool) → Option A → Bool
coherent has_issue none = true
coherent has_issue (some a) = not (has_issue a)

-- The schemas' cross-checks hold of the prompt, of the node's evidence and of the correlation, and
-- the correlation is of the broadcast hash.
pub record IsCoherent (o : WriteOperationV4) : Type 0 where
  pub prompt : coherent is_incoherent_authority o.wallet_prompt_authorization ≡ true
  pub evidence : coherent is_incoherent_evidence o.rpc_transaction_evidence ≡ true
  pub correlation : coherent is_incoherent_correlation o.brickken_correlation ≡ true
  pub paired :
      (pair : CorrelationPair)
      → correlated_pair o.brickken_correlation ≡ some pair
      → o.blockchain_tx_hash ≡ some pair.tx_hash

are_numbered-append :
    (n : ℕ) (attempts : List BrickkenCorrelationAttempt) (last : BrickkenCorrelationAttempt)
    → are_numbered n attempts ≡ true
    → last.attempt ≡ suc (n + length attempts)
    → are_numbered n (attempts ++ last ∷ []) ≡ true
unfolding are_numbered
are_numbered-append n [] last h e = ground arith
are_numbered-append n (a ∷ attempts) last h e =
    ground (arith, are_numbered-append (suc n) attempts last)

length-settle_last :
    (result : CorrelationResult) (attempts : List BrickkenCorrelationAttempt)
    → length (settle_last result attempts) ≡ length attempts
unfolding settle_last
length-settle_last result [] = refl
length-settle_last result (a ∷ []) = refl
length-settle_last result (a ∷ b ∷ attempts) = rw (length-settle_last result (b ∷ attempts))

are_numbered-settle_last :
    (n : ℕ) (result : CorrelationResult) (attempts : List BrickkenCorrelationAttempt)
    → are_numbered n (settle_last result attempts) ≡ are_numbered n attempts
unfolding settle_last are_numbered
are_numbered-settle_last n result [] = refl
are_numbered-settle_last n result (a ∷ []) = refl
are_numbered-settle_last n result (a ∷ b ∷ attempts) =
    rw (are_numbered-settle_last (suc n) result (b ∷ attempts))

OpStep-prompt :
    (o next : WriteOperationV4)
    → OpStep o next
    → coherent is_incoherent_authority o.wallet_prompt_authorization ≡ true
    → coherent is_incoherent_authority next.wallet_prompt_authorization ≡ true
unfolding is_incoherent_authority
OpStep-prompt o next (OpStep.releases prompt invocation at _ found uninvoked _ e) h = ground arith
OpStep-prompt o next (OpStep.loses_sight prompt reason at _ found invoked _ e) h = ground arith
OpStep-prompt o next step h = ground arith

OpStep-evidence :
    (o next : WriteOperationV4)
    → OpStep o next
    → coherent is_incoherent_evidence o.rpc_transaction_evidence ≡ true
    → coherent is_incoherent_evidence next.rpc_transaction_evidence ≡ true
OpStep-evidence o next step h = ground arith

settle_last-coherent :
    (c : BrickkenCorrelation) (result : CorrelationResult)
    → is_incoherent_correlation c ≡ false
    → is_incoherent_correlation (record c { attempts = settle_last result c.attempts }) ≡ false
unfolding is_incoherent_correlation
settle_last-coherent c result h =
    let len = length-settle_last result c.attempts in
    let num = are_numbered-settle_last 0 result c.attempts in ground arith

retry_coherent :
    (c : BrickkenCorrelation) (at : String)
    → is_incoherent_correlation c ≡ false
    → length c.attempts < 3
    → is_incoherent_correlation
        (record c { attempts = c.attempts ++ authorized_attempt (length c.attempts + 1) at ∷ [] })
      ≡ false
unfolding is_incoherent_correlation
retry_coherent c at h few =
    let last = authorized_attempt (length c.attempts + 1) at in
    let len = length-append c.attempts (last ∷ []) in
    let num = are_numbered-append 0 c.attempts last (ground arith) (ground arith) in ground arith

correlated_coherent :
    (c : BrickkenCorrelation) (at : String)
    → is_incoherent_correlation c ≡ false
    → is_incoherent_correlation
        (record c { lifecycle = CorrelationLifecycle.correlated; correlated_at = some at })
      ≡ false
unfolding is_incoherent_correlation
correlated_coherent c at h = ground arith

first_coherent :
    (pair : CorrelationPair) (at : String)
    → is_incoherent_correlation (record {
      pair = pair;
      lifecycle = CorrelationLifecycle.pending;
      attempts = authorized_attempt 1 at ∷ [];
      correlated_at = none;
    })
      ≡ false
unfolding is_incoherent_correlation are_numbered
first_coherent pair at = refl

OpStep-correlation :
    (o next : WriteOperationV4)
    → OpStep o next
    → coherent is_incoherent_correlation o.brickken_correlation ≡ true
    → coherent is_incoherent_correlation next.brickken_correlation ≡ true
OpStep-correlation o next step h =
    grind (arith, settle_last-coherent, retry_coherent, first_coherent, correlated_coherent)

OpStep-paired :
    (o next : WriteOperationV4)
    → OpStep o next
    → ((pair : CorrelationPair)
        → correlated_pair o.brickken_correlation ≡ some pair
        → o.blockchain_tx_hash ≡ some pair.tx_hash)
    → (pair : CorrelationPair) → correlated_pair next.brickken_correlation ≡ some pair
    → next.blockchain_tx_hash ≡ some pair.tx_hash
OpStep-paired o next step h pair e = ground (arith, h pair)

pub OpStep-IsCoherent : (o next : WriteOperationV4) → OpStep o next → IsCoherent o → IsCoherent next
OpStep-IsCoherent o next step h = record {
  prompt = OpStep-prompt o next step h.prompt;
  evidence = OpStep-evidence o next step h.evidence;
  correlation = OpStep-correlation o next step h.correlation;
  paired = OpStep-paired o next step h.paired;
}

-- An operation that is verified by a read-back was correlated, its transaction succeeded in a final
-- block, and its fees were within the authorization.
unfoldable pub is_proven : WriteOperationV4 → Bool
is_proven o =
    has_correlated o.brickken_correlation
    && received_success o.transaction_receipt_evidence
    && fees_within o.rpc_transaction_evidence

abbrev pub IsProvenOnceVerified : WriteOperationV4 → Type 0
IsProvenOnceVerified o = o.stage ≡ read_back_verified → is_proven o ≡ true

proven_of_parts :
    (o : WriteOperationV4)
    → has_correlated o.brickken_correlation ≡ true
    → received_success o.transaction_receipt_evidence ≡ true
    → fees_within o.rpc_transaction_evidence ≡ true
    → is_proven o ≡ true
unfolding is_proven
proven_of_parts o correlated received within = rw (correlated, received, within)

pub OpStep-proven :
    (o next : WriteOperationV4) → OpStep o next → IsProvenOnceVerified o → IsProvenOnceVerified next
unfolding takes_receipt
OpStep-proven o next step h v = grind (arith, stage_eq_iff, proven_of_parts)
