-- ===== src/Execution/V4/Retries.antt =====
-- How a correlation at Brickken goes on, after any accepted calls: `recordCorrelationUncertainV4`,
-- `authorizeCorrelationRetryV4` and `recordBrickkenCorrelatedV4` of
-- src/server/execution/v4-transitions.ts.
use edict.Prelude.{
  ◌≡◌, ◌⊎◌, refl, ap, ◌∙◌, inl, inr, ℕ, String, Bool, true, false, none, some, List, [], ◌∷◌, ◌++◌,
  ◌+◌, length, ltb, arith, str_eq_refl, Option-cases,
}
use edict.Execution.Result.{Result-cases, ok, is_ok}
use edict.Execution.Evidence.{AddressLibrary}
use edict.Execution.Kind.{OperationKind, brickken_correlation_pending, stage_eq_iff}
use edict.Execution.V4.Types.{
  CorrelationResult, BrickkenCorrelationAttempt, BrickkenCorrelation, CorrelationPair,
  CorrelationLifecycle, ExecutionRunV4, WriteOperationV4,
}
use edict.Execution.V4.Contracts.{is_correlated}
use edict.Execution.V4.Base.{Hashing, op_v4, run_is_canonical_v4, active_attempt}
use edict.Execution.V4.Correlation.{
  begin_brickken_correlation, begin_brickken_correlation_effect, record_brickken_correlated,
  record_correlation_uncertain, authorize_correlation_retry, UncertainResult, pending_correlation,
  not_pending_for, same_pair, last_attempt, settle_last, has_correlated, exact_correlation_pair,
  uncertain, authorized_attempt,
}
use edict.Execution.V4.Steps.{OpStep}
use edict.Execution.V4.Reach.{Reach, Reach-keeps}
use edict.Execution.V4.Progress.{replaced_operation}

-- there is a last attempt
abbrev pub Last : List BrickkenCorrelationAttempt → Type 0
Last attempts =
    (earlier : List BrickkenCorrelationAttempt) × (last : BrickkenCorrelationAttempt) × (attempts
      ≡ earlier ++ last ∷ [])

last_attempt-last :
    (earlier : List BrickkenCorrelationAttempt) (last : BrickkenCorrelationAttempt)
    → last_attempt (earlier ++ last ∷ []) ≡ some last
unfolding last_attempt
last_attempt-last [] last = refl
last_attempt-last (a ∷ []) last = refl
last_attempt-last (a ∷ b ∷ earlier) last = last_attempt-last (b ∷ earlier) last

settle_last-last :
    (result : CorrelationResult) (earlier : List BrickkenCorrelationAttempt)
    (last : BrickkenCorrelationAttempt)
    → settle_last result (earlier ++ last ∷ []) ≡ earlier ++ record last { result = result } ∷ []
unfolding settle_last
settle_last-last result [] last = refl
settle_last-last result (a ∷ []) last = refl
settle_last-last result (a ∷ b ∷ earlier) last = rw (settle_last-last result (b ∷ earlier) last)

-- the correlation of the pair has begun: it is correlated, or the operation waits for it
pub record HasBegun (pair : CorrelationPair) (o : WriteOperationV4) : Type 0 where
  pub correlation : BrickkenCorrelation
  pub has_correlation : o.brickken_correlation ≡ some correlation
  pub same_pair : correlation.pair ≡ pair
  pub last : Last correlation.attempts
  pub state :
      (is_correlated correlation.lifecycle ≡ true)
      ⊎ ((is_correlated correlation.lifecycle ≡ false) × (o.stage ≡ brickken_correlation_pending))

-- the step changes a correlation that is there
abbrev changes_correlation : {o next : WriteOperationV4} → OpStep o next → Bool
changes_correlation (OpStep.is_uncertain _ _ _ _ _ _ _) = true
changes_correlation (OpStep.retries _ _ _ _ _ _ _ _) = true
changes_correlation (OpStep.is_correlated_at _ _ _ _ _ _) = true
changes_correlation _ = false

OpStep-keeps_correlation :
    (o next : WriteOperationV4) (step : OpStep o next) (c : BrickkenCorrelation)
    → changes_correlation step ≡ false
    → o.brickken_correlation ≡ some c
    → (next.brickken_correlation ≡ some c)
      × (o.stage ≡ brickken_correlation_pending → next.stage ≡ brickken_correlation_pending)
OpStep-keeps_correlation o next step c other h = ground arith

OpStep-HasBegun :
    (pair : CorrelationPair) (o next : WriteOperationV4)
    → OpStep o next
    → HasBegun pair o
    → HasBegun pair next
OpStep-HasBegun pair o next (OpStep.is_uncertain c result stage found open_pair waits e) h =
    let same : c ≡ h.correlation = ground (arith, found, h.has_correlation) in
    let (earlier, last, attempts) = h.last in
    record {
      correlation = record c { attempts = settle_last (uncertain result) c.attempts };
      has_correlation = ground arith;
      same_pair = ap BrickkenCorrelation.pair same ∙ h.same_pair;
      last = (
        earlier,
        record last { result = uncertain result },
        rw (ap BrickkenCorrelation.attempts same, attempts)
            (settle_last-last (uncertain result) earlier last),
      );
      state = inr (open_pair, ground arith);
    }
OpStep-HasBegun pair o next (OpStep.retries c at stage found open_pair few settled e) h =
    let same : c ≡ h.correlation = ground (arith, found, h.has_correlation) in
    record {
      correlation = record c {
        attempts = c.attempts ++ authorized_attempt (length c.attempts + 1) at ∷ [];
      };
      has_correlation = ground arith;
      same_pair = ap BrickkenCorrelation.pair same ∙ h.same_pair;
      last = (c.attempts, authorized_attempt (length c.attempts + 1) at, refl);
      state = inr (open_pair, ground arith);
    }
OpStep-HasBegun pair o next (OpStep.is_correlated_at c at stage found open_pair e) h =
    let same : c ≡ h.correlation = ground (arith, found, h.has_correlation) in
    record {
      correlation = record c {
        lifecycle = CorrelationLifecycle.correlated;
        correlated_at = some at;
      };
      has_correlation = ground arith;
      same_pair = ap BrickkenCorrelation.pair same ∙ h.same_pair;
      last = coe 1 0 (i. Last (same i).attempts) h.last;
      state = inl refl;
    }
OpStep-HasBegun pair o next step h =
    let kept = OpStep-keeps_correlation o next step h.correlation refl h.has_correlation in
    record {
      correlation = h.correlation;
      has_correlation = kept.0;
      same_pair = h.same_pair;
      last = h.last;
      state = ground (arith, kept.1, h.state);
    }

begin_brickken_correlation-HasBegun :
    (run : ExecutionRunV4) (kind : OperationKind) (id at : String) {begun : ExecutionRunV4}
    → begin_brickken_correlation run kind id at ≡ ok begun
    → (pair : CorrelationPair) × HasBegun pair (op_v4 begun kind)
unfolding begin_brickken_correlation begin_brickken_correlation_effect
begin_brickken_correlation-HasBegun run kind id at {begun} h =
    let o = op_v4 run kind in
    elim (Result-cases (active_attempt o)) [
      | inr (e, failed) ↦ ground arith
      | inl (attempt, found) ↦ elim (Option-cases o.rpc_transaction_evidence) [
        | inl missing ↦ ground arith
        | inr (rpc, observed) ↦ elim (Option-cases o.blockchain_tx_hash) [
          | inl missing ↦ ground arith
          | inr (hash, broadcast) ↦ elim (Option-cases attempt.tx_id) [
            | inl missing ↦ ground arith
            | inr (tx_id, prepared) ↦
                let pair : CorrelationPair = record { tx_id = tx_id; tx_hash = hash } in
                let e : begun ≡ begin_brickken_correlation_effect run kind rpc pair id at =
                  ground arith in
                let same = ap (λ run. op_v4 run kind) e ∙ replaced_operation _ kind _ _ _ _ _ in
                (
                  pair,
                  coe 1 0 (i. HasBegun pair (same i)) (record {
                    correlation = record {
                      pair = pair;
                      lifecycle = CorrelationLifecycle.pending;
                      attempts = authorized_attempt 1 at ∷ [];
                      correlated_at = none;
                    };
                    has_correlation = refl;
                    same_pair = refl;
                    last = ([], authorized_attempt 1 at, refl);
                    state = inr (refl, refl);
                  }),
                )
          ]
        ]
      ]
    ]

module _ (run : ExecutionRunV4) (kind : OperationKind) (pair : CorrelationPair) where
  -- what may follow a last attempt, of so many
  abbrev pub Follows :
      (attempts : ℕ) → CorrelationResult → UncertainResult → (id at : String) → Type 0
  Follows attempts CorrelationResult.authorized result id at =
      (is_ok (record_correlation_uncertain run kind pair result id at) ≡ true)
      × (is_ok (authorize_correlation_retry run kind pair id at) ≡ false)
  Follows attempts _ result id at =
      (is_ok (record_correlation_uncertain run kind pair result id at) ≡ false)
      × (is_ok (authorize_correlation_retry run kind pair id at) ≡ ltb attempts 3)

  -- the correlation is settled, or what may follow its last attempt
  abbrev pub Progresses : UncertainResult → (id at : String) → Type 0
  Progresses result id at =
      (has_correlated (op_v4 run kind).brickken_correlation ≡ true)
      ⊎ ((c : BrickkenCorrelation) × (earlier : List BrickkenCorrelationAttempt)
          × (last : BrickkenCorrelationAttempt) × ((op_v4 run kind).brickken_correlation ≡ some c)
          × (c.attempts ≡ earlier ++ last ∷ [])
          × (is_ok (record_brickken_correlated run kind pair id at) ≡ true)
          × Follows (length c.attempts) last.result result id at)

  pending-Follows :
      (c : BrickkenCorrelation) (last : BrickkenCorrelationAttempt) (r : CorrelationResult)
      (result : UncertainResult) (id at : String)
      → run_is_canonical_v4 run ≡ true
      → pending_correlation run kind pair ≡ ok c
      → last_attempt c.attempts ≡ some last
      → last.result ≡ r
      → Follows (length c.attempts) r result id at
  unfolding record_correlation_uncertain authorize_correlation_retry
  pending-Follows c last CorrelationResult.authorized result id at canonical p l r = ground arith
  pending-Follows c last CorrelationResult.temporarily_not_found result id at canonical p l r =
      ground arith
  pending-Follows c last CorrelationResult.transport_unknown result id at canonical p l r =
      ground arith

  HasBegun-pending_correlation :
      (c : BrickkenCorrelation)
      → (op_v4 run kind).brickken_correlation ≡ some c
      → c.pair ≡ pair
      → is_correlated c.lifecycle ≡ false
      → (op_v4 run kind).stage ≡ brickken_correlation_pending
      → pending_correlation run kind pair ≡ ok c
  unfolding pending_correlation not_pending_for same_pair
  HasBegun-pending_correlation c has same uncorrelated stage = ground (
    arith,
    stage_eq_iff (op_v4 run kind).stage brickken_correlation_pending,
    str_eq_refl pair.tx_id,
    str_eq_refl pair.tx_hash,
  )

  correlated_accepted :
      (c : BrickkenCorrelation) (id at : String)
      → run_is_canonical_v4 run ≡ true
      → pending_correlation run kind pair ≡ ok c
      → is_ok (record_brickken_correlated run kind pair id at) ≡ true
  unfolding record_brickken_correlated
  correlated_accepted c id at canonical p = ground arith

  HasBegun-Progresses :
      (result : UncertainResult) (id at : String)
      → run_is_canonical_v4 run ≡ true
      → HasBegun pair (op_v4 run kind)
      → Progresses result id at
  HasBegun-Progresses result id at canonical h =
      let c = h.correlation in
      elim h.state [
        | inl correlated ↦ inl (rw (h.has_correlation, correlated))
        | inr (uncorrelated, stage) ↦
            let (earlier, last, attempts) = h.last in
            let p =
              HasBegun-pending_correlation c h.has_correlation h.same_pair uncorrelated stage in
            inr (
              c,
              earlier,
              last,
              h.has_correlation,
              attempts,
              correlated_accepted c id at canonical p,
              pending-Follows c last last.result result id at canonical p
                  (rw attempts (last_attempt-last earlier last)) refl,
            )
      ]

-- After a correlation was begun and any accepted calls after it, the correlation of its pair is
-- settled, or, if the run's parts are canonical JSON, it is not stuck before its third attempt: the
-- pair is accepted as correlated; if the last attempt is still without a result, each uncertain result
-- is accepted for it and a retry is refused; and if it has a result, another result is refused and a
-- retry is accepted exactly while there are less than three attempts.
pub pending_correlation-Progresses :
    (viem : AddressLibrary) (hashing : Hashing) (run begun later : ExecutionRunV4)
    (kind : OperationKind) (begin_id begin_at : String) (pair : CorrelationPair)
    → begin_brickken_correlation run kind begin_id begin_at ≡ ok begun
    → exact_correlation_pair begun kind ≡ some pair
    → Reach viem hashing begun later
    → run_is_canonical_v4 later ≡ true
    → (result : UncertainResult) (id at : String) → Progresses later kind pair result id at
unfolding exact_correlation_pair
pending_correlation-Progresses viem hashing run begun later kind begin_id begin_at pair accepted
      same reached canonical result id at =
    let (own, begins) = begin_brickken_correlation-HasBegun run kind begin_id begin_at accepted in
    let same_pair : own ≡ pair = ground (arith, begins.has_correlation, begins.same_pair, same) in
    let h =
      Reach-keeps (HasBegun pair) (OpStep-HasBegun pair) viem hashing begun later kind reached
        (coe 0 1 (i. HasBegun (same_pair i) (op_v4 begun kind)) begins) in
    HasBegun-Progresses later kind pair result id at canonical h
