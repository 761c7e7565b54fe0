-- ===== src/Execution/Service.antt =====
-- src/server/execution/run-service.ts: a new run, and a run's history. The service loads the run,
-- applies one event and stores the result under the next revision; where an event is refused,
-- nothing is stored.
pub mod History
use edict.Prelude.{ℕ, suc, ◌+◌, String, Bool, true, false, none, List, [], ◌∷◌}
use edict.Execution.Result.{Result, ok, err}
use edict.Execution.Kind.{
  OperationKind, tokenize, whitelist, mint, RunPhase, awaiting_approval, not_started,
}
use edict.Execution.Evidence.{AddressLibrary}
use edict.Execution.Types.{
  ExecutionManifestSnapshot, ExecutionPlanSnapshot, RequiredSigner, WriteOperation, ExecutionRunV1,
  ExecutionRunEvent, version2,
}
use edict.Execution.Transitions.Apply.{apply_run_event}

-- `emptyOperation`
unfoldable pub empty_operation : String → OperationKind → WriteOperation
empty_operation id kind = record {
  id = id;
  kind = kind;
  stage = not_started;
  prepared_tx_id = none;
  unsigned_transaction = none;
  blockchain_tx_hash = none;
  brickken_status = none;
  brickken_error = none;
  timeout = false;
  prepare_intent_at = none;
  prepared_at = none;
  wallet_prompt_at = none;
  broadcast_at = none;
  confirmed_at = none;
  verified_at = none;
  onchain_transaction_evidence = none;
  transaction_receipt_evidence = none;
}

-- what `createRun` has gathered when it builds the run: the snapshots and their hashes, and what the
-- clock and the generator of ids returned
pub record Creation : Type 0 where
  pub run_id : String
  pub manifest : ExecutionManifestSnapshot
  pub manifest_hash : String
  pub plan : ExecutionPlanSnapshot
  pub operation_id0 : String
  pub operation_id1 : String
  pub operation_id2 : String
  pub created_at : String

-- the run that `createRun` hands to the repository
unfoldable pub new_run : Creation → ExecutionRunV1
unfolding empty_operation
new_run c = record {
  schema_version = version2;
  id = c.run_id;
  manifest = c.manifest;
  manifest_hash = c.manifest_hash;
  plan = c.plan;
  plan_hash = c.plan.plan_hash;
  environment = "sandbox";
  chain_id = "11155111";
  required_signer = record { wallet_address = c.plan.required_signer.wallet_address };
  phase = RunPhase.plan;
  status = awaiting_approval;
  terminal_outcome = none;
  approval = none;
  operations = record {
    op0 = empty_operation c.operation_id0 tokenize;
    op1 = empty_operation c.operation_id1 whitelist;
    op2 = empty_operation c.operation_id2 mint;
  };
  observations = [];
  events = [];
  receipt_eligible = false;
  created_at = c.created_at;
  updated_at = c.created_at;
  revision = 1;
}

-- `{ ...next, revision: expectedRevision + 1 }`, which the repository stores
abbrev pub stored : ExecutionRunV1 → ExecutionRunV1
stored next = record next { revision = next.revision + 1 }

module _ (viem : AddressLibrary) where
  -- the run in the store after one `#apply` at its current revision
  unfoldable pub advance : ExecutionRunV1 → ExecutionRunEvent → ExecutionRunV1
  advance run event = elim (apply_run_event viem run event) [ ok next ↦ stored next | err _ ↦ run ]

  -- the run in the store after a sequence of events
  unfoldable pub history : ExecutionRunV1 → List ExecutionRunEvent → ExecutionRunV1
  history run [] = run
  history run (event ∷ events) = history (advance run event) events
