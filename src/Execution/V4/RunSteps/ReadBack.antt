-- ===== src/Execution/V4/RunSteps/ReadBack.antt =====
-- The read-backs, and the transitions that only end a run, are steps.
use edict.Prelude.{◌≡◌, refl, inl, inr, String, arith, Option-cases}
use edict.Execution.Result.{Result-cases, ok}
use edict.Execution.Kind.{OperationKind, tokenize, brickken_correlated, stage_eq_iff}
use edict.Execution.V4.Types.{TokenIdentity, ExecutionRunV4}
use edict.Execution.V4.Contracts.{parse_token_identity}
use edict.Execution.V4.Base.{op_v4, find_attempt}
use edict.Execution.V4.ReadBack
use edict.Execution.V4.Lifecycle
use edict.Execution.V4.Steps.{OpStep}
use edict.Execution.V4.RunSteps.{RunStep, replace_operation_v4-RunStep, append_event_v4-RunStep}

pub record_token_identity_from_read_back-RunStep :
    (run : ExecutionRunV4) (raw : TokenIdentity) (raw_event : ReadBack.TokenizationEventEvidence)
    (id : String) {next : ExecutionRunV4}
    → ReadBack.record_token_identity_from_read_back run raw raw_event id ≡ ok next
    → RunStep run next tokenize
unfolding ReadBack.record_token_identity_from_read_back ReadBack.record_token_identity_effect
record_token_identity_from_read_back-RunStep run raw raw_event id {next} h =
    let o = op_v4 run tokenize in
    elim (Result-cases (parse_token_identity raw)) [
      | inr (e, failed) ↦ ground arith
      | inl (read_back, parsed) ↦
          elim (Result-cases (ReadBack.parse_tokenization_event raw_event)) [
            | inr (e, failed) ↦ ground arith
            | inl (event, happened) ↦
                elim (Result-cases (parse_token_identity (ReadBack.token_of read_back event))) [
                  | inr (e, failed) ↦ ground arith
                  | inl (token, made) ↦ elim (Option-cases o.transaction_receipt_evidence) [
                    | inl missing ↦ ground arith
                    | inr (receipt, received) ↦ elim (Option-cases o.rpc_transaction_evidence) [
                      | inl missing ↦ ground arith
                      | inr (rpc, observed) ↦ elim (Option-cases o.brickken_correlation) [
                        | inl missing ↦ ground arith
                        | inr (correlation, paired) ↦
                            let e : next ≡ ReadBack.record_token_identity_effect run token id =
                              ground arith in
                            replace_operation_v4-RunStep _ _ _ _ _ e refl refl refl (
                              OpStep.is_verified correlation receipt rpc _
                                (ground (arith, stage_eq_iff o.stage brickken_correlated)) paired
                                (ground arith) received (ground arith) observed (ground arith) refl)
                      ]
                    ]
                  ]
                ]
          ]
    ]

pub record_lifecycle_read_back-RunStep :
    (run : ExecutionRunV4) (kind : Lifecycle.LifecycleKind) (at id : String) {next : ExecutionRunV4}
    → Lifecycle.record_lifecycle_read_back run kind at id ≡ ok next
    → RunStep run next (Lifecycle.kind_of kind)
unfolding Lifecycle.record_lifecycle_read_back Lifecycle.record_lifecycle_read_back_effect
    Lifecycle.correlation_differs Lifecycle.receipt_unproven_v4 Lifecycle.transaction_unproven_v4
record_lifecycle_read_back-RunStep run kind at id {next} h =
    let o = op_v4 run (Lifecycle.kind_of kind) in
    elim (Option-cases (find_attempt o.active_preparation_attempt_id o.preparation_attempts)) [
      | inl missing ↦ ground arith
      | inr (active, found) ↦ elim (Option-cases active.tx_id) [
        | inl missing ↦ ground arith
        | inr (tx_id, prepared) ↦ elim (Option-cases o.blockchain_tx_hash) [
          | inl missing ↦ ground arith
          | inr (tx_hash, broadcast) ↦ elim (Option-cases o.brickken_correlation) [
            | inl missing ↦ ground arith
            | inr (correlation, paired) ↦ elim (Option-cases o.transaction_receipt_evidence) [
              | inl missing ↦ ground arith
              | inr (receipt, received) ↦ elim (Option-cases o.rpc_transaction_evidence) [
                | inl missing ↦ ground arith
                | inr (rpc, observed) ↦
                    let e : next ≡ Lifecycle.record_lifecycle_read_back_effect run kind at id =
                      ground arith in
                    replace_operation_v4-RunStep _ _ _ _ _ e refl refl refl (
                      OpStep.is_verified correlation receipt rpc at
                        (ground (arith, stage_eq_iff o.stage brickken_correlated)) paired
                        (ground arith) received (ground arith) observed (ground arith) refl)
              ]
            ]
          ]
        ]
      ]
    ]

pub record_read_back_mismatch_v4-RunStep :
    (run : ExecutionRunV4) (kind : OperationKind) (at id : String) {next : ExecutionRunV4}
    → Lifecycle.record_read_back_mismatch_v4 run kind at id ≡ ok next
    → RunStep run next kind
unfolding Lifecycle.record_read_back_mismatch_v4 Lifecycle.record_read_back_mismatch_v4_effect
record_read_back_mismatch_v4-RunStep run kind at id {next} h =
    let e : next ≡ Lifecycle.record_read_back_mismatch_v4_effect run kind at id = ground arith in
    append_event_v4-RunStep _ _ _ _ _ e refl refl refl

pub record_unverified_finality_exhausted-RunStep :
    (run : ExecutionRunV4) (kind : OperationKind) (at id : String) {next : ExecutionRunV4}
    → Lifecycle.record_unverified_finality_exhausted run kind at id ≡ ok next
    → RunStep run next kind
unfolding Lifecycle.record_unverified_finality_exhausted
    Lifecycle.record_unverified_finality_exhausted_effect
record_unverified_finality_exhausted-RunStep run kind at id {next} h =
    let e : next ≡ Lifecycle.record_unverified_finality_exhausted_effect run kind at id =
      ground arith in
    append_event_v4-RunStep _ _ _ _ _ e refl refl refl
