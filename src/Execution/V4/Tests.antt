-- ===== src/Execution/V4/Tests.antt =====
-- The theorems on runs of version 4.0, applied to the samples.
use edict.Prelude.{◌≡◌, refl, true, false, ◌&&◌, none, some, [], ◌∷◌, arith, str_eq}
use edict.Text.{is_tx_hash, is_wallet, is_sha256, lower}
use edict.Text.Time.{is_iso_utc}
use edict.Text.Quantity.{is_quantity, big_int, to_quantity}
use edict.Text.Numeral.{
  is_data, is_data_any_case, is_decimal, decimal_int, is_hex_numeral, text_length, prefix,
  is_bounded,
}
use edict.Core.Json.{Json, obj, field, end, text, num, json_clone, is_canonical}
use edict.Execution.Result.{ok, is_ok}
use edict.Execution.Kind.{
  mint, wallet_prompt_recorded, rpc_transaction_verified, stage_eq, status_eq,
}
use edict.Execution.Tests.{viem, now, signer}
use edict.Fee.Evaluation.{evaluate_fee_authorization}
use edict.Fee.Caps.{is_accepted}
use edict.Fee.Schema.{
  is_fee_authorization, are_fee_values, are_fee_caps, is_access_list, is_incoherent, is_increased,
  parse_fee_authorization,
}
use edict.Fee.Tests.{granted}
use edict.Wallet.Transaction.{
  inspect_plain_object, read, address, calldata_text, optional_quantity, quantity, bounded_quantity,
  number_of, number_of_text, number_of_wrapper,
}
use edict.Wallet.Transaction.Project.{
  project_prepared_transaction, has_unknown_key, parse_wallet_transaction_request,
  has_request_fields, has_mixed_fees,
}
use edict.Fee.Policy.{
  create_server_bounded_fee_authorization, exceeds_policy, gas_cap, max_fee_cap, priority_fee_cap,
}
use edict.Wallet.Intent.{
  is_observed_identity, same_identity, is_wallet_execution_intent, is_execution_identity,
  parse_execution_identity, is_semantic_authorization, is_preparation_identity,
  has_authority_mismatch, parse_semantic_authorization, validate_wallet_execution_intent,
}
use edict.Execution.V4.Types.{UnresolvedOutcome, PreparationAttempt, ExecutionRunV4, v4}
use edict.Execution.V4.Contracts.{
  is_incoherent_authority, is_incoherent_evidence, is_incoherent_correlation, are_numbered,
  is_nonce_evidence, parse_nonce_evidence,
}
use edict.Execution.V4.Base.{
  op_v4, find_attempt, active_attempt, replace_attempt, count_attempts, replace_active_attempt,
  attempts_are_canonical, run_is_canonical_v4, append_event_v4, replace_operation_v4,
}
use edict.Execution.V4.Preparation.{
  assert_nonce_evidence, of_v4, prepared_attempt_effect, unfit_request,
}
use edict.Execution.V4.Prepared.{IsPrepared, prepared_attempt-IsPrepared}
use edict.Execution.V4.Attempts.{
  begin_reprepare, begin_reprepare_effect, upgrade_prepared_run, prepared_attempt,
}
use edict.Execution.V4.Prompt.{
  record_broadcast_hash_v4, record_broadcast_hash_v4_effect, record_wallet_rejected,
  authorize_provider_invocation, authorize_provider_invocation_effect, assert_invoked_prompt,
  record_wallet_prompt_authorization, record_wallet_prompt_authorization_effect, wallet_intent_of,
  semantic_differs, fresh_attempt,
}
use edict.Execution.V4.Rpc.{record_rpc_transaction, record_rpc_transaction_effect}
use edict.Execution.V4.Correlation.{
  record_correlation_uncertain, record_correlation_uncertain_effect, UncertainResult,
  pending_correlation, not_pending_for, same_pair, last_attempt, exact_correlation_pair,
  begin_brickken_correlation, begin_brickken_correlation_effect,
}
use edict.Execution.V4.Lifecycle.{
  LifecycleKind, record_lifecycle_read_back, record_lifecycle_read_back_effect, correlation_differs,
  receipt_unproven_v4, transaction_unproven_v4, record_unverified_finality_exhausted,
  record_unverified_finality_exhausted_effect,
}
use edict.Execution.V4.Calls.{Call}
use edict.Execution.V4.Perform.{perform}
use edict.Execution.V4.RunSteps.{RunStep}
use edict.Execution.V4.RunSteps.All.{perform-RunStep}
use edict.Execution.V4.OpInvariants.{IsCoherent, release_of, is_proven}
use edict.Execution.V4.AttemptLists.{HasFewAttempts, attempts_numbered}
use edict.Execution.V4.Reach.{
  Reach, here, extended, provider_released_once, broadcast_hash_written_once,
  correlation_pair_fixed, operation_stays-IsCoherent, attempts_stay_numbered,
  verified_operation_is_proven,
}
use edict.Execution.V4.Verdicts.{
  Verdict, rpc_transaction-Verdict, IsAuthorized, recorded_prompt-IsAuthorized,
}
use edict.Execution.V4.Audit.{Grows, audit_log-Grows}
use edict.Execution.V4.Progress.{OutcomeIsRecordable, released-OutcomeIsRecordable}
use edict.Execution.V4.Retries.{Progresses, pending_correlation-Progresses}
use edict.Execution.V4.Samples.{
  run_with, operation_at_stage, evidence, unreleased_prompt, digest, hashing, tx_hash, identity,
  contract, attempt, nonce_evidence, semantic, prepared_run, stale_run, prompt, released_run,
  broadcast_run, raw_fees, pair, correlation, pending_run, correlated_run,
}

-- To unfold this is to compute the transitions on the samples.
performing : Unit {0}
unfolding perform find_attempt active_attempt replace_attempt count_attempts replace_active_attempt
    attempts_are_canonical run_is_canonical_v4 begin_reprepare record_broadcast_hash_v4
    assert_invoked_prompt record_rpc_transaction record_correlation_uncertain pending_correlation
    not_pending_for same_pair last_attempt record_lifecycle_read_back correlation_differs
    receipt_unproven_v4 transaction_unproven_v4 record_unverified_finality_exhausted is_tx_hash
    str_eq stage_eq status_eq
performing = tt

abbrev broadcast_call : Call
broadcast_call = Call.record_broadcast_hash mint tx_hash "e1" now

abbrev after_broadcast : ExecutionRunV4
after_broadcast = record_broadcast_hash_v4_effect released_run mint tx_hash "e1" now

broadcast_accepted : perform viem hashing released_run broadcast_call ≡ ok after_broadcast
unfolding performing
broadcast_accepted = refl

abbrev broadcast_reach : Reach viem hashing released_run after_broadcast
broadcast_reach = extended broadcast_call here broadcast_accepted

perform-RunStep_example : RunStep released_run after_broadcast mint
perform-RunStep_example =
    perform-RunStep viem hashing released_run broadcast_call broadcast_accepted

provider_released_once_example :
    (release_of (op_v4 after_broadcast mint).wallet_prompt_authorization ≡ release_of (some prompt))
    × (is_ok (authorize_provider_invocation after_broadcast mint "i2" "e2" now) ≡ false)
provider_released_once_example =
    provider_released_once viem hashing released_run after_broadcast mint broadcast_reach _ "i2"
      "e2" now refl

audit_log-Grows_example : Grows released_run after_broadcast
audit_log-Grows_example = audit_log-Grows viem hashing released_run after_broadcast broadcast_reach

abbrev exhausted_call : Call
exhausted_call = Call.record_unverified_finality_exhausted mint now "e1"

abbrev after_exhausted : ExecutionRunV4
after_exhausted = record_unverified_finality_exhausted_effect broadcast_run mint now "e1"

exhausted_accepted : perform viem hashing broadcast_run exhausted_call ≡ ok after_exhausted
unfolding performing
exhausted_accepted = refl

broadcast_hash_written_once_example :
    ((op_v4 after_exhausted mint).blockchain_tx_hash ≡ some tx_hash)
    × (is_ok (record_broadcast_hash_v4 after_exhausted mint digest "e2" now) ≡ false)
broadcast_hash_written_once_example =
    broadcast_hash_written_once viem hashing broadcast_run after_exhausted mint
      (extended exhausted_call here exhausted_accepted) tx_hash digest "e2" now refl

abbrev uncertain_call : Call
uncertain_call =
    Call.record_correlation_uncertain mint pair UncertainResult.transport_unknown "e1" now

abbrev after_uncertain : ExecutionRunV4
after_uncertain =
    record_correlation_uncertain_effect pending_run mint correlation
      UncertainResult.transport_unknown "e1" now

uncertain_accepted : perform viem hashing pending_run uncertain_call ≡ ok after_uncertain
unfolding performing
uncertain_accepted = refl

abbrev uncertain_reach : Reach viem hashing pending_run after_uncertain
uncertain_reach = extended uncertain_call here uncertain_accepted

correlation_pair_fixed_example :
    (exact_correlation_pair after_uncertain mint ≡ some pair)
    × (is_ok (begin_brickken_correlation after_uncertain mint "e2" now) ≡ false)
unfolding exact_correlation_pair
correlation_pair_fixed_example =
    correlation_pair_fixed viem hashing pending_run after_uncertain mint uncertain_reach pair "e2"
      now refl

pending_run-IsCoherent : IsCoherent (op_v4 pending_run mint)
unfolding is_incoherent_authority is_incoherent_evidence is_incoherent_correlation are_numbered
pending_run-IsCoherent = record {
  prompt = refl;
  evidence = refl;
  correlation = refl;
  paired = λ other e. ground arith;
}

operation_stays-IsCoherent_example : IsCoherent (op_v4 after_uncertain mint)
operation_stays-IsCoherent_example =
    operation_stays-IsCoherent viem hashing pending_run after_uncertain mint uncertain_reach
      pending_run-IsCoherent

abbrev reprepare_call : Call
reprepare_call = Call.begin_reprepare mint "a2" "e1" now

abbrev after_reprepare : ExecutionRunV4
after_reprepare = begin_reprepare_effect stale_run mint "a2" "1" "e1" now

reprepare_accepted : perform viem hashing stale_run reprepare_call ≡ ok after_reprepare
unfolding performing
reprepare_accepted = refl

stale_run-HasFewAttempts : HasFewAttempts (op_v4 stale_run mint)
unfolding attempts_numbered
stale_run-HasFewAttempts = record { few = omega arith; numbered = refl }

attempts_stay_numbered_example : HasFewAttempts (op_v4 after_reprepare mint)
attempts_stay_numbered_example =
    attempts_stay_numbered viem hashing stale_run after_reprepare mint
      (extended reprepare_call here reprepare_accepted) stale_run-HasFewAttempts

abbrev verified_call : Call
verified_call = Call.record_lifecycle_read_back LifecycleKind.mint now "e1"

abbrev after_verified : ExecutionRunV4
after_verified = record_lifecycle_read_back_effect correlated_run LifecycleKind.mint now "e1"

verified_accepted : perform viem hashing correlated_run verified_call ≡ ok after_verified
unfolding performing
verified_accepted = refl

verified_operation_is_proven_example : is_proven (op_v4 after_verified mint) ≡ true
unfolding record_lifecycle_read_back_effect append_event_v4 replace_operation_v4
verified_operation_is_proven_example =
    verified_operation_is_proven viem hashing correlated_run after_verified mint
      (extended verified_call here verified_accepted) (λ e. cc) refl

abbrev after_rpc : ExecutionRunV4
after_rpc =
    record_rpc_transaction_effect broadcast_run mint tx_hash identity identity granted raw_fees "e1"
      now

rpc_accepted :
    record_rpc_transaction broadcast_run mint tx_hash identity raw_fees "e1" now ≡ ok after_rpc
unfolding performing
rpc_accepted = refl

broadcast_run-active : active_attempt (op_v4 broadcast_run mint) ≡ ok attempt
unfolding performing
broadcast_run-active = refl

rpc_transaction-Verdict_example : Verdict after_rpc mint (
    is_observed_identity identity
    && same_identity identity identity
    && is_accepted (evaluate_fee_authorization granted raw_fees))
rpc_transaction-Verdict_example =
    rpc_transaction-Verdict broadcast_run mint tx_hash attempt identity identity granted raw_fees
      "e1" now broadcast_run-active refl refl rpc_accepted

abbrev prompted_run : ExecutionRunV4
prompted_run =
    run_with
      (operation_at_stage mint wallet_prompt_recorded (attempt ∷ []) (some unreleased_prompt) none)

abbrev after_release : ExecutionRunV4
after_release =
    authorize_provider_invocation_effect prompted_run mint unreleased_prompt "i1" "e1" now

release_accepted : authorize_provider_invocation prompted_run mint "i1" "e1" now ≡ ok after_release
unfolding performing authorize_provider_invocation is_bounded text_length
release_accepted = refl

after_release-canonical : run_is_canonical_v4 after_release ≡ true
unfolding performing authorize_provider_invocation_effect append_event_v4 replace_operation_v4
after_release-canonical = refl

released-OutcomeIsRecordable_example :
    (is_ok (record_wallet_rejected after_release mint "e" now) ≡ false)
    × OutcomeIsRecordable after_release mint tx_hash UnresolvedOutcome.provider_timeout "e" now
released-OutcomeIsRecordable_example =
    released-OutcomeIsRecordable viem hashing prompted_run after_release after_release mint "i1"
      "e1" now release_accepted here after_release-canonical tx_hash
      UnresolvedOutcome.provider_timeout "e" now

abbrev verified_run : ExecutionRunV4
verified_run =
    run_with
      (record (operation_at_stage mint rpc_transaction_verified (attempt ∷ []) (some prompt)
        (some tx_hash)) { rpc_transaction_evidence = some evidence })

abbrev begun_run : ExecutionRunV4
begun_run = begin_brickken_correlation_effect verified_run mint evidence pair "e1" now

begin_accepted : begin_brickken_correlation verified_run mint "e1" now ≡ ok begun_run
unfolding performing begin_brickken_correlation
begin_accepted = refl

begun-pair : exact_correlation_pair begun_run mint ≡ some pair
unfolding exact_correlation_pair begin_brickken_correlation_effect append_event_v4
    replace_operation_v4
begun-pair = refl

abbrev unsettled_call : Call
unsettled_call =
    Call.record_correlation_uncertain mint pair UncertainResult.temporarily_not_found "e2" now

abbrev uncertain_run : ExecutionRunV4
uncertain_run =
    record_correlation_uncertain_effect begun_run mint correlation
      UncertainResult.temporarily_not_found "e2" now

unsettled_accepted : perform viem hashing begun_run unsettled_call ≡ ok uncertain_run
unfolding performing begin_brickken_correlation_effect append_event_v4 replace_operation_v4
unsettled_accepted = refl

uncertain_run-canonical : run_is_canonical_v4 uncertain_run ≡ true
unfolding performing begin_brickken_correlation_effect record_correlation_uncertain_effect
    append_event_v4 replace_operation_v4
uncertain_run-canonical = refl

pending_correlation-Progresses_example :
    Progresses uncertain_run mint pair UncertainResult.transport_unknown "e" now
pending_correlation-Progresses_example =
    pending_correlation-Progresses viem hashing verified_run begun_run uncertain_run mint "e1" now
      pair begin_accepted begun-pair (extended unsettled_call here unsettled_accepted)
      uncertain_run-canonical UncertainResult.transport_unknown "e" now

-- To unfold this is to check an intent.
authorizing : Unit {0}
unfolding performing record_wallet_prompt_authorization upgrade_prepared_run assert_nonce_evidence
    parse_nonce_evidence is_nonce_evidence parse_semantic_authorization is_semantic_authorization
    semantic_differs validate_wallet_execution_intent is_wallet_execution_intent wallet_intent_of
    is_execution_identity is_preparation_identity has_authority_mismatch is_fee_authorization
    are_fee_values are_fee_caps is_access_list is_incoherent is_increased is_quantity big_int
    to_quantity is_data is_decimal text_length prefix is_bounded is_wallet is_sha256 is_iso_utc
authorizing = tt

abbrev after_prompt : ExecutionRunV4
after_prompt =
    record_wallet_prompt_authorization_effect prepared_run mint
      (fresh_attempt attempt nonce_evidence ∷ [])
      (wallet_intent_of prepared_run mint "a1" "tx" digest identity granted semantic) digest "e1"
      now

prompt_accepted :
    record_wallet_prompt_authorization viem hashing
      (v4 prepared_run)
      mint
      (record { attempt_id = "a1"; freshness_policy_version = "1" })
      nonce_evidence
      semantic
      "e1"
      now
    ≡ ok after_prompt
unfolding authorizing
prompt_accepted = refl

recorded_prompt-IsAuthorized_example : IsAuthorized hashing prepared_run after_prompt mint
recorded_prompt-IsAuthorized_example =
    recorded_prompt-IsAuthorized viem hashing prepared_run mint
      (record { attempt_id = "a1"; freshness_policy_version = "1" }) nonce_evidence semantic "e1"
      now prompt_accepted

abbrev unsigned : Json
unsigned = obj (
    field "from" (text signer) (
      field "to" (text contract) (
        field "data" (text "0x01020304") (
          field "value" (text "0x0") (
            field "nonce" (num false 7) (
              field "gas" (text "1000000") (
                field "type" (text "0x2") (
                  field "maxFeePerGas" (text "0x77359400") (
                    field "maxPriorityFeePerGas" (text "0x3b9aca00")
                      (field "chainId" (text "0xaa36a7") end))))))))))

-- To unfold this is to prepare an attempt.
preparing : Unit {0}
unfolding prepared_attempt project_prepared_transaction inspect_plain_object has_unknown_key read
    address calldata_text is_data_any_case optional_quantity quantity bounded_quantity number_of
    number_of_text number_of_wrapper decimal_int is_hex_numeral parse_wallet_transaction_request
    has_request_fields has_mixed_fees lower unfit_request parse_execution_identity json_clone
    is_canonical create_server_bounded_fee_authorization exceeds_policy gas_cap max_fee_cap
    priority_fee_cap parse_fee_authorization
preparing = tt

abbrev made : PreparationAttempt
made = prepared_attempt_effect "a1" 1 "tx" unsigned digest digest identity granted now 3 "1"

preparation_accepted :
    prepared_attempt viem hashing (of_v4 prepared_run mint) mint "a1" 1 "tx" unsigned now "1"
    ≡ ok made
unfolding authorizing preparing
preparation_accepted = refl

prepared_attempt-IsPrepared_example : IsPrepared hashing (of_v4 prepared_run mint) "a1" 1 made
prepared_attempt-IsPrepared_example =
    prepared_attempt-IsPrepared viem hashing (of_v4 prepared_run mint) mint "a1" 1 "tx" unsigned now
      "1" preparation_accepted
