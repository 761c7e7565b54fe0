-- ===== src/Execution/V4/RunSteps/Correlation.antt =====
-- The transitions on the correlation are steps.
use edict.Prelude.{◌≡◌, refl, inl, inr, String, false, some, arith, Option-cases, str_eq_iff}
use edict.Execution.Result.{Result-cases, ok}
use edict.Execution.Kind.{
  OperationKind, rpc_transaction_verified, policy_violation_onchain, brickken_correlation_pending,
  brickken_correlated, stage_eq_iff,
}
use edict.Execution.V4.Types.{
  CorrelationPair, BrickkenCorrelation, BrickkenStatusEvidence, ExecutionRunV4,
}
use edict.Execution.V4.Contracts.{is_correlated, parse_status_evidence}
use edict.Execution.V4.Base.{op_v4, active_attempt}
use edict.Execution.V4.Correlation
use edict.Execution.V4.Steps.{OpStep}
use edict.Execution.V4.RunSteps.{RunStep, replace_operation_v4-RunStep}

-- The correlation that a call on a pending pair finds.
pending_correlation-eq_ok :
    (run : ExecutionRunV4) (kind : OperationKind) (pair : CorrelationPair)
    {correlation : BrickkenCorrelation}
    → Correlation.pending_correlation run kind pair ≡ ok correlation
    → ((op_v4 run kind).stage ≡ brickken_correlation_pending)
      × ((op_v4 run kind).brickken_correlation ≡ some correlation)
      × (is_correlated correlation.lifecycle ≡ false)
unfolding Correlation.pending_correlation Correlation.not_pending_for
pending_correlation-eq_ok run kind pair h =
    ground (arith, stage_eq_iff (op_v4 run kind).stage brickken_correlation_pending)

pub begin_brickken_correlation-RunStep :
    (run : ExecutionRunV4) (kind : OperationKind) (id at : String) {next : ExecutionRunV4}
    → Correlation.begin_brickken_correlation run kind id at ≡ ok next
    → RunStep run next kind
unfolding Correlation.begin_brickken_correlation Correlation.begin_brickken_correlation_effect
begin_brickken_correlation-RunStep run kind id at {next} h =
    let o = op_v4 run kind in
    elim (Result-cases (active_attempt o)) [
      | inr (e, failed) ↦ ground arith
      | inl (attempt, found) ↦ elim (Option-cases o.rpc_transaction_evidence) [
        | inl missing ↦ ground arith
        | inr (rpc, observed) ↦ elim (Option-cases o.blockchain_tx_hash) [
          | inl missing ↦ ground arith
          | inr (hash, broadcast) ↦ elim (Option-cases attempt.tx_id) [
            | inl missing ↦ ground arith
            | inr (tx_id, prepared) ↦
                let pair : CorrelationPair = record { tx_id = tx_id; tx_hash = hash } in
                let e : next
                    ≡ Correlation.begin_brickken_correlation_effect run kind rpc pair id at =
                  ground arith in
                replace_operation_v4-RunStep _ _ _ _ _ e refl refl refl (
                  OpStep.correlates_first rpc tx_id hash at
                    (ground (
                      arith,
                      stage_eq_iff o.stage rpc_transaction_verified,
                      stage_eq_iff o.stage policy_violation_onchain,
                    ))
                    observed (ground arith) broadcast (ground arith) refl)
          ]
        ]
      ]
    ]

pub record_correlation_uncertain-RunStep :
    (run : ExecutionRunV4) (kind : OperationKind) (pair : CorrelationPair)
    (result : Correlation.UncertainResult) (id at : String) {next : ExecutionRunV4}
    → Correlation.record_correlation_uncertain run kind pair result id at ≡ ok next
    → RunStep run next kind
unfolding Correlation.record_correlation_uncertain Correlation.record_correlation_uncertain_effect
record_correlation_uncertain-RunStep run kind pair result id at {next} h =
    elim (Result-cases (Correlation.pending_correlation run kind pair)) [
      | inr (e, failed) ↦ ground arith
      | inl (correlation, pending) ↦
          let facts = pending_correlation-eq_ok run kind pair pending in
          let e : next
              ≡ Correlation.record_correlation_uncertain_effect run kind correlation result id at =
            ground arith in
          replace_operation_v4-RunStep _ _ _ _ _ e refl refl refl
            (OpStep.is_uncertain correlation result facts.0 facts.1 facts.2 (ground arith) refl)
    ]

pub authorize_correlation_retry-RunStep :
    (run : ExecutionRunV4) (kind : OperationKind) (pair : CorrelationPair) (id at : String)
    {next : ExecutionRunV4}
    → Correlation.authorize_correlation_retry run kind pair id at ≡ ok next
    → RunStep run next kind
unfolding Correlation.authorize_correlation_retry Correlation.authorize_correlation_retry_effect
authorize_correlation_retry-RunStep run kind pair id at {next} h =
    elim (Result-cases (Correlation.pending_correlation run kind pair)) [
      | inr (e, failed) ↦ ground arith
      | inl (correlation, pending) ↦
          let facts = pending_correlation-eq_ok run kind pair pending in
          let e : next ≡ Correlation.authorize_correlation_retry_effect run kind correlation id at =
            ground arith in
          replace_operation_v4-RunStep _ _ _ _ _ e refl refl refl (
            OpStep.retries correlation at facts.0 facts.1 facts.2 (ground arith) (ground arith)
              refl)
    ]

pub record_brickken_correlated-RunStep :
    (run : ExecutionRunV4) (kind : OperationKind) (pair : CorrelationPair) (id at : String)
    {next : ExecutionRunV4}
    → Correlation.record_brickken_correlated run kind pair id at ≡ ok next
    → RunStep run next kind
unfolding Correlation.record_brickken_correlated Correlation.record_brickken_correlated_effect
record_brickken_correlated-RunStep run kind pair id at {next} h =
    elim (Result-cases (Correlation.pending_correlation run kind pair)) [
      | inr (e, failed) ↦ ground arith
      | inl (correlation, pending) ↦
          let facts = pending_correlation-eq_ok run kind pair pending in
          let e : next ≡ Correlation.record_brickken_correlated_effect run kind correlation id at =
            ground arith in
          replace_operation_v4-RunStep _ _ _ _ _ e refl refl refl
            (OpStep.is_correlated_at correlation at facts.0 facts.1 facts.2 refl)
    ]

pub record_brickken_status_evidence-RunStep :
    (run : ExecutionRunV4) (kind : OperationKind) (raw : BrickkenStatusEvidence) (id : String)
    {next : ExecutionRunV4}
    → Correlation.record_brickken_status_evidence run kind raw id ≡ ok next
    → RunStep run next kind
unfolding Correlation.record_brickken_status_evidence
    Correlation.record_brickken_status_evidence_effect
record_brickken_status_evidence-RunStep run kind raw id {next} h =
    let o = op_v4 run kind in
    elim (Result-cases (parse_status_evidence raw)) [
      | inr (e, failed) ↦ ground arith
      | inl (evidence, parsed) ↦ elim (Option-cases o.brickken_correlation) [
        | inl missing ↦ ground arith
        | inr (correlation, found) ↦
            let e : next ≡ Correlation.record_brickken_status_evidence_effect run kind evidence id =
              ground arith in
            replace_operation_v4-RunStep _ _ _ _ _ e refl refl refl (
              OpStep.has_status correlation evidence
                (ground (arith, stage_eq_iff o.stage brickken_correlated)) found
                (ground (arith, str_eq_iff evidence.tx_id correlation.pair.tx_id))
                (ground (arith, str_eq_iff evidence.tx_hash correlation.pair.tx_hash)) refl)
      ]
    ]
