-- ===== src/Execution/V4/RunSteps/Attempts.antt =====
-- The transitions on preparation attempts are steps.
use edict.Prelude.{
  ◌≡◌, ◌⊎◌, ◌∷◌, if◌then◌else◌, refl, inl, inr, String, Option, List, [], arith, length, default_to,
}
use edict.Core.Json.{Json, json_clone}
use edict.Execution.Result.{Result-cases, ok}
use edict.Execution.Kind.{
  OperationKind, OperationStage, not_started, prepared, prepared_stale, stage_eq_iff,
}
use edict.Execution.Evidence.{AddressLibrary}
use edict.Execution.V4.Types.{
  StaleReason, nonce_mismatch, NonceFreshnessEvidence, ExecutionRunV4, v4,
}
use edict.Execution.V4.Base.{Hashing, op_v4, active_attempt, replace_active_attempt}
use edict.Execution.V4.Preparation.{
  V4PreparationFoundationInput, of_v4, assert_nonce_evidence, expected_status,
}
use edict.Execution.V4.Attempts
use edict.Execution.V4.Prepared.{prepared_attempt-IsPrepared}
use edict.Execution.V4.Steps.{OpStep}
use edict.Execution.V4.RunSteps.{RunStep, replace_operation_v4-RunStep}

pub begin_reprepare-RunStep :
    (run : ExecutionRunV4) (kind : OperationKind) (attempt_id id at : String)
    {next : ExecutionRunV4}
    → Attempts.begin_reprepare run kind attempt_id id at ≡ ok next
    → RunStep run next kind
unfolding Attempts.begin_reprepare Attempts.begin_reprepare_effect
begin_reprepare-RunStep run kind attempt_id id at {next} h =
    let o = op_v4 run kind in
    elim (Result-cases (active_attempt o)) [
      | inl (prior, found) ↦
          let policy = prior.freshness_policy_version in
          let e : next ≡ Attempts.begin_reprepare_effect run kind attempt_id policy id at =
            ground arith in
          replace_operation_v4-RunStep _ _ _ _ _ e refl refl refl (
            OpStep.intends_again attempt_id policy
              (ground (arith, stage_eq_iff o.stage prepared_stale)) (ground arith) (ground arith)
              (ground arith) (ground arith) refl)
      | inr (e, failed) ↦ ground arith
    ]

outcome_stage :
    (outcome : Attempts.ReprepareOutcome)
    → ((if Attempts.is_refused outcome
          then OperationStage.rejected
          else OperationStage.prepare_unknown)
        ≡ OperationStage.rejected)
      ⊎ ((if Attempts.is_refused outcome
            then OperationStage.rejected
            else OperationStage.prepare_unknown)
          ≡ OperationStage.prepare_unknown)
outcome_stage Attempts.ReprepareOutcome.refused = inl refl
outcome_stage Attempts.ReprepareOutcome.prepare_unknown = inr refl

length-zero {ℓ} : {A : Type ℓ} (xs : List A) → length xs ≡ 0 → xs ≡ []
length-zero [] h = refl
length-zero (x ∷ xs) h = ground arith

pub record_reprepare_outcome-RunStep :
    (run : ExecutionRunV4) (kind : OperationKind) (outcome : Attempts.ReprepareOutcome)
    (id at : String) {next : ExecutionRunV4}
    → Attempts.record_reprepare_outcome run kind outcome id at ≡ ok next
    → RunStep run next kind
unfolding Attempts.record_reprepare_outcome Attempts.record_reprepare_outcome_effect
record_reprepare_outcome-RunStep run kind outcome id at {next} h =
    let o = op_v4 run kind in
    elim (Result-cases (active_attempt o)) [
      | inr (e, failed) ↦ ground arith
      | inl (active, found) ↦
          let after = record active { state = Attempts.outcome_state outcome } in
          elim (Result-cases (replace_active_attempt o after)) [
            | inr (e, failed) ↦ ground arith
            | inl (attempts, replaced) ↦
                let e : next
                    ≡ Attempts.record_reprepare_outcome_effect run kind attempts outcome id at =
                  ground arith in
                replace_operation_v4-RunStep _ _ _ _ _ e refl refl refl (
                  OpStep.fails_again active after attempts _
                    (ground (arith, stage_eq_iff o.stage OperationStage.reprepare_intent))
                    (record {
                      active = found;
                      same_id = refl;
                      same_sequence = refl;
                      replaced = replaced;
                    })
                    (outcome_stage outcome) refl)
          ]
    ]

module _ (viem : AddressLibrary) (hashing : Hashing) where
  pub mark_prepared_stale-RunStep :
      (run : ExecutionRunV4) (kind : OperationKind) (foundation : V4PreparationFoundationInput)
      (raw : NonceFreshnessEvidence) (reason : Option StaleReason) (id at : String)
      {next : ExecutionRunV4}
      → Attempts.mark_prepared_stale viem hashing (v4 run) kind foundation raw reason id at
        ≡ ok next
      → RunStep run next kind
  unfolding Attempts.mark_prepared_stale Attempts.mark_prepared_stale_effect
      Attempts.upgrade_prepared_run
  mark_prepared_stale-RunStep run kind foundation raw reason id at {next} h =
      let o = op_v4 run kind in
      let why = default_to nonce_mismatch reason in
      elim (Result-cases (assert_nonce_evidence run kind raw (expected_status why))) [
        | inr (e, failed) ↦ ground arith
        | inl (evidence, asserted) ↦ elim (Result-cases (active_attempt o)) [
          | inr (e, failed) ↦ ground arith
          | inl (prior, found) ↦
              let after = Attempts.stale_attempt prior evidence why at in
              elim (Result-cases (replace_active_attempt o after)) [
                | inr (e, failed) ↦ ground arith
                | inl (attempts, replaced) ↦
                    let e : next ≡ Attempts.mark_prepared_stale_effect run kind attempts id at =
                      ground arith in
                    replace_operation_v4-RunStep _ _ _ _ _ e refl refl refl (
                      OpStep.turns_stale prior after attempts
                        (ground (arith, stage_eq_iff o.stage prepared)) (ground arith)
                        (record {
                          active = found;
                          same_id = refl;
                          same_sequence = refl;
                          replaced = replaced;
                        })
                        refl refl)
              ]
        ]
      ]

  pub record_reprepared-RunStep :
      (run : ExecutionRunV4) (kind : OperationKind) (tx_id : String) (unsigned : Json)
      (id at : String) {next : ExecutionRunV4}
      → Attempts.record_reprepared viem hashing run kind tx_id unsigned id at ≡ ok next
      → RunStep run next kind
  unfolding Attempts.record_reprepared Attempts.record_reprepared_effect
  record_reprepared-RunStep run kind tx_id unsigned id at {next} h =
      let o = op_v4 run kind in
      elim (Result-cases (active_attempt o)) [
        | inr (e, failed) ↦ ground arith
        | inl (active, found) ↦
            elim (Result-cases (
              Attempts.prepared_attempt viem hashing (of_v4 run kind) kind active.attempt_id
                active.sequence tx_id unsigned at active.freshness_policy_version)) [
                  | inr (e, failed) ↦ ground arith
                  | inl (attempt, made) ↦
                      let is_prepared =
                        prepared_attempt-IsPrepared viem hashing (of_v4 run kind) kind
                          active.attempt_id active.sequence tx_id unsigned at
                          active.freshness_policy_version made in
                      elim (Result-cases (replace_active_attempt o attempt)) [
                        | inr (e, failed) ↦ ground arith
                        | inl (attempts, replaced) ↦ elim (Result-cases (json_clone unsigned)) [
                          | inr (e, failed) ↦ ground arith
                          | inl (cloned, same) ↦
                              let e : next
                                  ≡ Attempts.record_reprepared_effect run kind attempts tx_id cloned
                                      id at =
                                ground arith in
                              replace_operation_v4-RunStep _ _ _ _ _ e refl refl refl (
                                OpStep.prepares_again active attempt attempts tx_id cloned at
                                  (ground
                                    (arith, stage_eq_iff o.stage OperationStage.reprepare_intent))
                                  (record {
                                    active = found;
                                    same_id = is_prepared.same_id;
                                    same_sequence = is_prepared.same_sequence;
                                    replaced = replaced;
                                  })
                                  refl)
                        ]
                      ]
                ]
      ]

  pub record_initial_preparation-RunStep :
      (run : ExecutionRunV4) (kind : OperationKind) (tx_id : String) (unsigned : Json)
      (attempt_id policy id at : String) {next : ExecutionRunV4}
      → Attempts.record_initial_preparation viem hashing run kind tx_id unsigned attempt_id policy
          id at
        ≡ ok next
      → RunStep run next kind
  unfolding Attempts.record_initial_preparation Attempts.record_initial_preparation_effect
  record_initial_preparation-RunStep run kind tx_id unsigned attempt_id policy id at {next} h =
      let o = op_v4 run kind in
      elim (Result-cases (
        Attempts.prepared_attempt viem hashing (of_v4 run kind) kind attempt_id 1 tx_id unsigned at
          policy)) [
            | inr (e, failed) ↦ ground arith
            | inl (attempt, made) ↦ elim (Result-cases (json_clone unsigned)) [
              | inr (e, failed) ↦ ground arith
              | inl (cloned, same) ↦
                  let is_prepared =
                    prepared_attempt-IsPrepared viem hashing (of_v4 run kind) kind attempt_id 1
                      tx_id unsigned at policy made in
                  let e : next
                      ≡ Attempts.record_initial_preparation_effect run kind attempt tx_id cloned id
                          at =
                    ground arith in
                  replace_operation_v4-RunStep _ _ _ _ _ e refl refl refl (
                    OpStep.prepares attempt tx_id cloned at
                      (ground (arith, stage_eq_iff o.stage not_started))
                      (length-zero o.preparation_attempts (ground arith)) (ground arith)
                      is_prepared.same_sequence refl)
            ]
          ]
