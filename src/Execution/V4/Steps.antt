-- ===== src/Execution/V4/Steps.antt =====
-- The state machine of one operation of a version 4.0 run: what each transition of
-- src/server/execution/v4-transitions.ts demands of the operation, and the operation that it leaves.
use edict.Prelude.{
  ◌≡◌, ◌⊎◌, ◌+◌, ◌<◌, String, true, false, none, some, List, [], ◌∷◌, ◌++◌, length, any,
}
use edict.Core.Json.{Json}
use edict.Execution.Result.{ok}
use edict.Execution.Kind.{
  OperationStage, not_started, prepared, prepared_stale, wallet_prompt_recorded, wallet_rejected,
  broadcast_unknown, broadcast_hash_persisted, rpc_transaction_verified, policy_violation_onchain,
  rpc_transaction_reconciliation_required, brickken_correlation_pending, brickken_correlated,
  read_back_verified, BrickkenConfirmationStatus,
}
use edict.Execution.Evidence.{TransactionReceiptEvidence}
use edict.Wallet.Intent.{WalletExecutionIntent}
use edict.Execution.V4.Types.{
  AttemptState, PreparationAttempt, UnresolvedOutcome, WalletPromptAuthorizationRecord,
  RpcTransactionAuthorizationEvidence, CorrelationLifecycle, BrickkenCorrelation,
  BrickkenStatusEvidence, WriteOperationV4,
}
use edict.Execution.V4.Contracts.{
  is_invoked, is_correlated, is_incoherent_evidence, is_within, matches,
}
use edict.Execution.V4.Base.{active_attempt, replace_active_attempt}
use edict.Execution.V4.Attempts.{has_id, intended_attempt}
use edict.Execution.V4.Prompt.{recorded_prompt, released_prompt}
use edict.Execution.V4.Rpc.{takes_receipt}
use edict.Execution.V4.Correlation.{
  authorized_attempt, settle_last, last_attempt, awaits, UncertainResult, uncertain,
}
use edict.Execution.V4.ReadBack.{is_final_success}

-- the active attempt is `prior`, and `next` takes its place in the list
pub record Replaces (o : WriteOperationV4) (prior next : PreparationAttempt)
    (attempts : List PreparationAttempt) : Type 0 where
  pub active : active_attempt o ≡ ok prior
  pub same_id : next.attempt_id ≡ prior.attempt_id
  pub same_sequence : next.sequence ≡ prior.sequence
  pub replaced : replace_active_attempt o next ≡ ok attempts

pub data OpStep (o next : WriteOperationV4) : Type 0 where
  untouched : next ≡ o → OpStep o next
  prepares :
      (attempt : PreparationAttempt) (tx_id : String) (unsigned : Json) (at : String)
      → o.stage ≡ not_started
      → o.preparation_attempts ≡ []
      → o.blockchain_tx_hash ≡ none
      → attempt.sequence ≡ 1
      → next ≡ record o {
        stage = prepared;
        prepared_tx_id = some tx_id;
        unsigned_transaction = some unsigned;
        prepared_at = some at;
        preparation_attempts = attempt ∷ [];
        active_preparation_attempt_id = some attempt.attempt_id;
      }
      → OpStep o next
  turns_stale :
      (prior attempt : PreparationAttempt) (attempts : List PreparationAttempt)
      → o.stage ≡ prepared
      → o.wallet_prompt_authorization ≡ none
      → Replaces o prior attempt attempts
      → attempt.state ≡ AttemptState.stale
      → next ≡ record o { preparation_attempts = attempts; stage = prepared_stale }
      → OpStep o next
  intends_again :
      (attempt_id policy : String)
      → o.stage ≡ prepared_stale
      → length o.preparation_attempts < 2
      → o.wallet_prompt_authorization ≡ none
      → o.blockchain_tx_hash ≡ none
      → any (has_id attempt_id) o.preparation_attempts ≡ false
      → next ≡ record o {
        stage = OperationStage.reprepare_intent;
        prepared_tx_id = none;
        unsigned_transaction = none;
        prepared_at = none;
        preparation_attempts =
            o.preparation_attempts
            ++ intended_attempt attempt_id (length o.preparation_attempts + 1) policy ∷ [];
        active_preparation_attempt_id = some attempt_id;
      }
      → OpStep o next
  prepares_again :
      (prior attempt : PreparationAttempt) (attempts : List PreparationAttempt) (tx_id : String)
      (unsigned : Json) (at : String)
      → o.stage ≡ OperationStage.reprepare_intent
      → Replaces o prior attempt attempts
      → next ≡ record o {
        preparation_attempts = attempts;
        stage = prepared;
        prepared_tx_id = some tx_id;
        unsigned_transaction = some unsigned;
        prepared_at = some at;
      }
      → OpStep o next
  fails_again :
      (prior attempt : PreparationAttempt) (attempts : List PreparationAttempt)
      (stage : OperationStage)
      → o.stage ≡ OperationStage.reprepare_intent
      → Replaces o prior attempt attempts
      → (stage ≡ OperationStage.rejected) ⊎ (stage ≡ OperationStage.prepare_unknown)
      → next ≡ record o { preparation_attempts = attempts; stage = stage }
      → OpStep o next
  prompts :
      (prior attempt : PreparationAttempt) (attempts : List PreparationAttempt)
      (intent : WalletExecutionIntent) (hash at : String)
      → o.stage ≡ prepared
      → o.wallet_prompt_authorization ≡ none
      → Replaces o prior attempt attempts
      → next ≡ record o {
        preparation_attempts = attempts;
        stage = wallet_prompt_recorded;
        wallet_prompt_at = some at;
        wallet_prompt_authorization = some (recorded_prompt intent hash at);
      }
      → OpStep o next
  releases :
      (prompt : WalletPromptAuthorizationRecord) (invocation_attempt_id at : String)
      → o.stage ≡ wallet_prompt_recorded
      → o.wallet_prompt_authorization ≡ some prompt
      → is_invoked prompt.provider_invocation ≡ false
      → o.blockchain_tx_hash ≡ none
      → next ≡ record o {
        wallet_prompt_authorization = some (released_prompt prompt invocation_attempt_id at);
      }
      → OpStep o next
  declines :
      (prompt : WalletPromptAuthorizationRecord)
      → o.stage ≡ wallet_prompt_recorded
      → o.wallet_prompt_authorization ≡ some prompt
      → is_invoked prompt.provider_invocation ≡ false
      → next ≡ record o { stage = wallet_rejected }
      → OpStep o next
  loses_sight :
      (prompt : WalletPromptAuthorizationRecord) (reason : UnresolvedOutcome) (at : String)
      → o.stage ≡ wallet_prompt_recorded
      → o.wallet_prompt_authorization ≡ some prompt
      → is_invoked prompt.provider_invocation ≡ true
      → o.blockchain_tx_hash ≡ none
      → next ≡ record o {
        stage = broadcast_unknown;
        wallet_prompt_authorization =
            some (record prompt { unresolved_outcome = some reason; unresolved_at = some at });
      }
      → OpStep o next
  broadcasts :
      (prompt : WalletPromptAuthorizationRecord) (tx_hash at : String)
      → o.stage ≡ wallet_prompt_recorded
      → o.wallet_prompt_authorization ≡ some prompt
      → is_invoked prompt.provider_invocation ≡ true
      → o.blockchain_tx_hash ≡ none
      → next ≡ record o {
        stage = broadcast_hash_persisted;
        blockchain_tx_hash = some tx_hash;
        broadcast_at = some at;
      }
      → OpStep o next
  is_unreadable :
      (tx_hash : String)
      → o.stage ≡ broadcast_hash_persisted
      → o.blockchain_tx_hash ≡ some tx_hash
      → next ≡ record o { stage = rpc_transaction_reconciliation_required }
      → OpStep o next
  is_observed :
      (tx_hash : String) (evidence : RpcTransactionAuthorizationEvidence) (stage : OperationStage)
      → o.stage ≡ broadcast_hash_persisted
      → o.blockchain_tx_hash ≡ some tx_hash
      → evidence.transaction_hash ≡ tx_hash
      → is_incoherent_evidence evidence ≡ false
      → (stage ≡ rpc_transaction_reconciliation_required)
        ⊎ (stage ≡ policy_violation_onchain)
        ⊎ (stage ≡ rpc_transaction_verified)
      → next ≡ record o { stage = stage; rpc_transaction_evidence = some evidence }
      → OpStep o next
  has_receipt :
      (rpc : RpcTransactionAuthorizationEvidence) (receipt : TransactionReceiptEvidence)
      → takes_receipt o.stage ≡ true
      → o.rpc_transaction_evidence ≡ some rpc
      → o.blockchain_tx_hash ≡ some receipt.transaction_hash
      → next ≡ record o { transaction_receipt_evidence = some receipt }
      → OpStep o next
  correlates_first :
      (rpc : RpcTransactionAuthorizationEvidence) (tx_id tx_hash at : String)
      → (o.stage ≡ rpc_transaction_verified) ⊎ (o.stage ≡ policy_violation_onchain)
      → o.rpc_transaction_evidence ≡ some rpc
      → matches rpc.immutable_identity_status ≡ true
      → o.blockchain_tx_hash ≡ some tx_hash
      → o.brickken_correlation ≡ none
      → next ≡ record o {
        stage = brickken_correlation_pending;
        brickken_correlation = some (record {
          pair = record { tx_id = tx_id; tx_hash = tx_hash };
          lifecycle = CorrelationLifecycle.pending;
          attempts = authorized_attempt 1 at ∷ [];
          correlated_at = none;
        });
      }
      → OpStep o next
  is_uncertain :
      (correlation : BrickkenCorrelation) (result : UncertainResult)
      → o.stage ≡ brickken_correlation_pending
      → o.brickken_correlation ≡ some correlation
      → is_correlated correlation.lifecycle ≡ false
      → awaits (last_attempt correlation.attempts) ≡ true
      → next ≡ record o {
        brickken_correlation =
            some (record correlation {
              attempts = settle_last (uncertain result) correlation.attempts;
            });
      }
      → OpStep o next
  retries :
      (correlation : BrickkenCorrelation) (at : String)
      → o.stage ≡ brickken_correlation_pending
      → o.brickken_correlation ≡ some correlation
      → is_correlated correlation.lifecycle ≡ false
      → length correlation.attempts < 3
      → awaits (last_attempt correlation.attempts) ≡ false
      → next ≡ record o {
        brickken_correlation = some (record correlation {
          attempts =
              correlation.attempts ++ authorized_attempt (length correlation.attempts + 1) at ∷ [];
        });
      }
      → OpStep o next
  is_correlated_at :
      (correlation : BrickkenCorrelation) (at : String)
      → o.stage ≡ brickken_correlation_pending
      → o.brickken_correlation ≡ some correlation
      → is_correlated correlation.lifecycle ≡ false
      → next ≡ record o {
        stage = brickken_correlated;
        brickken_status = some BrickkenConfirmationStatus.pending;
        brickken_correlation = some (record correlation {
          lifecycle = CorrelationLifecycle.correlated;
          correlated_at = some at;
        });
      }
      → OpStep o next
  has_status :
      (correlation : BrickkenCorrelation) (evidence : BrickkenStatusEvidence)
      → o.stage ≡ brickken_correlated
      → o.brickken_correlation ≡ some correlation
      → evidence.tx_id ≡ correlation.pair.tx_id
      → evidence.tx_hash ≡ correlation.pair.tx_hash
      → next ≡ record o {
        brickken_status = some evidence.status;
        brickken_status_evidence = o.brickken_status_evidence ++ evidence ∷ [];
      }
      → OpStep o next
  is_verified :
      (correlation : BrickkenCorrelation) (receipt : TransactionReceiptEvidence)
      (rpc : RpcTransactionAuthorizationEvidence) (at : String)
      → o.stage ≡ brickken_correlated
      → o.brickken_correlation ≡ some correlation
      → is_correlated correlation.lifecycle ≡ true
      → o.transaction_receipt_evidence ≡ some receipt
      → is_final_success receipt ≡ true
      → o.rpc_transaction_evidence ≡ some rpc
      → is_within rpc.fee_authorization_status ≡ true
      → next ≡ record o { stage = read_back_verified; verified_at = some at }
      → OpStep o next
