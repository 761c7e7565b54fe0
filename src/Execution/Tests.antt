-- ===== src/Execution/Tests.antt =====
-- One life of a run, on which the theorems of the version 1.0 to 3.0 state machine are applied.
use edict.Prelude.{
  ◌≡◌, ◌≢◌, ◌↔◌, refl, true, false, String, none, some, List, [], ◌∷◌, arith, is_some, str_eq,
}
use edict.Text.{is_tx_hash, is_sha256, is_tx_hash_any_case, lower, is_wallet}
use edict.Text.Time.{is_iso_utc}
use edict.Text.Quantity.{is_quantity}
use edict.Core.Json.{text, obj, end, json_clone, is_canonical}
use edict.Execution.Result.{ok, is_ok}
use edict.Execution.Kind.{
  OperationKind, tokenize, whitelist, mint, RunPhase, RunStatus, TerminalOutcome,
  reconciliation_required, preparing, confirmed, read_back_verified, phase_eq, status_eq, stage_eq,
}
use edict.Execution.Evidence.{
  AddressLibrary, MatchStatus, ReconciliationStatus, ExecutionStatus, FinalityStatus,
  TransactionType, ComparisonResult, OnchainTransactionEvidence, TransactionReceiptEvidence,
  parse_onchain_transaction_evidence, parse_transaction_receipt_evidence,
}
use edict.Execution.Types.{ApprovalProof, ExecutionRunV1, ExecutionRunEvent, version3}
use edict.Execution.Transitions.Base.{op, persisted_confirmation_pair}
use edict.Execution.Transitions.Preparation.{
  approve_effect, cancel_effect, proof_mismatch, tx_id_text,
}
use edict.Execution.Transitions.Chain.{
  receipt_effect, record_transaction_receipt_evidence, has_receipt_stage, receipt_refused,
  transaction_effect, transaction_mismatch,
}
use edict.Execution.Transitions.Confirmation.{
  submit_confirmation_effect, record_read_back_verified_effect, receipt_unproven, is_confirming,
  all_verified, transaction_unproven,
}
use edict.Execution.Transitions.Guards.{Predecessor, effects}
use edict.Execution.Transitions.Apply.{dispatch, apply_run_event}
use edict.Execution.Transitions.Audit.{Audited, apply_run_event-Audited}
use edict.Execution.Transitions.Invariant.{IsWellFormed, apply_run_event-IsWellFormed}
use edict.Execution.Transitions.Outcomes.{
  terminal_absorbs, apply_run_event-keeps_hash, reconciliation_blocks,
}
use edict.Execution.Transitions.Decisions.{
  ProofOf, approve_sound, cancel_iff, IsProven, read_back_needs_receipt,
}
use edict.Execution.Service.{Creation, new_run, advance, history}
use edict.Execution.Service.History.{
  new_run-IsWellFormed, history-IsWellFormed, IsLogged, history-IsLogged, history_in_order,
  history_eligible, history_pair,
}

abbrev pub viem : AddressLibrary
viem = record { is_address = λ s. true; get_address = λ s. s }

abbrev pub signer : String
signer = "0x00000000000000000000000000000000000000aa"

abbrev pub now : String
now = "2026-01-02T03:04:05.678Z"

abbrev pub hash : String
hash = "0xABCDEF0123456789ABCDEF0123456789ABCDEF0123456789ABCDEF0123456789"

abbrev pub creation : Creation
creation = record {
  run_id = "run";
  manifest = record {
    tokenizer = record { email = none; wallet_address = signer };
    asset = record {
      name = "Bond";
      symbol = "BND";
      token_type = "RWA_TOKEN";
      supply_cap = "1000";
      documentation_url = "https://example.org/";
    };
    investor = none;
  };
  manifest_hash = "m";
  plan = record {
    execution_scope = none;
    manifest_hash = "m";
    required_signer = record { wallet_address = signer };
    plan_hash = "p";
  };
  operation_id0 = "o0";
  operation_id1 = "o1";
  operation_id2 = "o2";
  created_at = now;
}

abbrev pub proof : ApprovalProof
proof = record {
  scheme = "EIP712_EOA";
  proof_version = "1.0";
  domain_version = "1";
  run_id = "run";
  manifest_hash = "m";
  plan_hash = "p";
  environment = "sandbox";
  chain_id = "11155111";
  approval_revision = 1;
  required_signer = signer;
  recovered_signer = signer;
  challenge_nonce = "n";
  issued_at = now;
  expires_at = now;
  verified_at = now;
  typed_data_digest = "d";
  public_signature = "s";
}

abbrev pub approval : ExecutionRunEvent
approval =
    ExecutionRunEvent.approve_plan "e1" now "p" "0x00000000000000000000000000000000000000AA" proof

-- the events that bring an operation to a persisted broadcast hash, and those that verify it
abbrev broadcast : OperationKind → List ExecutionRunEvent → List ExecutionRunEvent
broadcast kind rest =
    ExecutionRunEvent.begin_prepare "e2" now kind
    ∷ ExecutionRunEvent.record_prepared "e3" now kind (text "tx") (obj end)
    ∷ ExecutionRunEvent.record_wallet_prompt "e4" now kind
    ∷ ExecutionRunEvent.record_broadcast_hash "e5" now kind hash
    ∷ rest

abbrev verify : OperationKind → List ExecutionRunEvent → List ExecutionRunEvent
verify kind rest =
    ExecutionRunEvent.submit_confirmation "e6" now kind
    ∷ ExecutionRunEvent.record_pending "e7" now kind
    ∷ ExecutionRunEvent.record_confirmed "e8" now kind
    ∷ ExecutionRunEvent.record_read_back_verified "e9" now kind "read"
    ∷ rest

abbrev sent : List ExecutionRunEvent
sent = approval ∷ broadcast tokenize []

abbrev whole_life : List ExecutionRunEvent
whole_life =
    approval
    ∷ broadcast tokenize (
        verify tokenize (
          broadcast whitelist (
            verify whitelist (
              broadcast mint
                (verify mint (ExecutionRunEvent.record_final_verification "e10" now ∷ []))))))

abbrev fresh : ExecutionRunV1
fresh = new_run creation

-- To unfold this is to run the state machine.
running : Unit {0}
unfolding history advance new_run apply_run_event dispatch effects proof_mismatch tx_id_text
    json_clone is_canonical lower is_wallet is_tx_hash_any_case str_eq phase_eq status_eq stage_eq
    receipt_unproven is_confirming all_verified transaction_unproven transaction_mismatch
running = tt

hash_in_lower_case :
    (op (history viem fresh sent) tokenize).blockchain_tx_hash
    ≡ some "0xabcdef0123456789abcdef0123456789abcdef0123456789abcdef0123456789"
unfolding running
hash_in_lower_case = refl

whole_life_eligible : (history viem fresh whole_life).receipt_eligible ≡ true
unfolding running
whole_life_eligible = refl

abbrev approved : ExecutionRunV1
approved =
    approve_effect fresh "e1" now "p" "0x00000000000000000000000000000000000000AA" proof signer

approval_accepted : apply_run_event viem fresh approval ≡ ok approved
unfolding running
approval_accepted = refl

apply_run_event-Audited_example : Audited approval fresh approved
apply_run_event-Audited_example = apply_run_event-Audited viem fresh approval approval_accepted

apply_run_event-IsWellFormed_example : IsWellFormed approved
apply_run_event-IsWellFormed_example =
    apply_run_event-IsWellFormed viem fresh approval (new_run-IsWellFormed creation)
      approval_accepted

abbrev cancelled : ExecutionRunV1
cancelled = cancel_effect fresh "e" now

cancelled-IsWellFormed : IsWellFormed cancelled
unfolding new_run cancel_effect
cancelled-IsWellFormed = ground arith

terminal_absorbs_example : is_ok (apply_run_event viem cancelled approval) ≡ false
unfolding cancel_effect
terminal_absorbs_example = terminal_absorbs viem cancelled approval cancelled-IsWellFormed refl

abbrev submission : ExecutionRunEvent
submission = ExecutionRunEvent.submit_confirmation "e6" now tokenize

abbrev submitted : ExecutionRunV1
submitted = submit_confirmation_effect (history viem fresh sent) "e6" now tokenize

submission_accepted : apply_run_event viem (history viem fresh sent) submission ≡ ok submitted
unfolding running
submission_accepted = refl

apply_run_event-keeps_hash_example :
    (op submitted tokenize).blockchain_tx_hash
    ≡ some "0xabcdef0123456789abcdef0123456789abcdef0123456789abcdef0123456789"
apply_run_event-keeps_hash_example =
    apply_run_event-keeps_hash viem (history viem fresh sent) submission tokenize
      "0xabcdef0123456789abcdef0123456789abcdef0123456789abcdef0123456789"
      (history-IsWellFormed viem creation sent) submission_accepted hash_in_lower_case

approve_sound_example :
    ProofOf fresh proof now
    × (◌≡◌ {A = String} "p" fresh.plan_hash)
    × (approved.approval
        ≡ some (record {
          plan_hash = fresh.plan_hash;
          approved_by_wallet = fresh.required_signer.wallet_address;
          approved_at = now;
          approval_revision = fresh.revision;
          proof = some proof;
        }))
    × (approved.phase ≡ RunPhase.tokenization)
    × (approved.status ≡ preparing)
approve_sound_example =
    approve_sound viem fresh "e1" now "p" "0x00000000000000000000000000000000000000AA" proof
      approval_accepted

cancel_iff_example :
    (is_ok (apply_run_event viem fresh (ExecutionRunEvent.cancel_run "e" now)) ≡ true) ↔ (
      (fresh.terminal_outcome ≡ none)
      × (fresh.status ≢ reconciliation_required)
      × ((kind : OperationKind) → (op fresh kind).blockchain_tx_hash ≡ none))
unfolding new_run
cancel_iff_example = cancel_iff viem fresh "e" now refl

history-IsLogged_example : IsLogged (history viem fresh whole_life)
history-IsLogged_example = history-IsLogged viem creation whole_life

history_in_order_example :
    (is_some (history viem fresh whole_life).approval ≡ true)
    × Predecessor (history viem fresh whole_life) mint
unfolding running
history_in_order_example = history_in_order viem creation whole_life mint (λ e. cc)

history_eligible_example :
    ((op (history viem fresh whole_life) mint).stage ≡ read_back_verified)
    × (is_some (op (history viem fresh whole_life) mint).blockchain_tx_hash ≡ true)
history_eligible_example = history_eligible viem creation whole_life mint whole_life_eligible

-- Evidence of a transaction that the node returned under another hash.
abbrev lower_hash : String
lower_hash = "0xabcdef0123456789abcdef0123456789abcdef0123456789abcdef0123456789"

abbrev other_hash : String
other_hash = "0x0000000000000000000000000000000000000000000000000000000000000000"

abbrev sha : String
sha = "sha256:0000000000000000000000000000000000000000000000000000000000000000"

abbrev transaction : OnchainTransactionEvidence
transaction = record {
  observed_at = now;
  wallet_request_hash = sha;
  transaction_identity_hash = sha;
  requested_hash = lower_hash;
  returned_hash = other_hash;
  chain_id = "0xaa36a7";
  from = signer;
  to = none;
  input_hash = sha;
  input_bytes = 4;
  value = "0x0";
  nonce = "0x1";
  type = TransactionType.type2;
  gas = "0x5208";
  gas_price = none;
  max_fee_per_gas = some "0x10";
  max_priority_fee_per_gas = some "0x1";
  access_list_hash = sha;
  block_hash = none;
  block_number = none;
  transaction_index = none;
  fields = record {
    chain_id = ComparisonResult.exact_match;
    hash = ComparisonResult.mismatch;
    from = ComparisonResult.exact_match;
    to = ComparisonResult.exact_match;
    input = ComparisonResult.exact_match;
    value = ComparisonResult.exact_match;
    nonce = ComparisonResult.exact_match;
    type = ComparisonResult.exact_match;
    gas = ComparisonResult.exact_match;
    gas_price = ComparisonResult.not_applicable;
    max_fee_per_gas = ComparisonResult.exact_match;
    max_priority_fee_per_gas = ComparisonResult.exact_match;
    access_list = ComparisonResult.exact_match;
  };
  comparison_status = MatchStatus.mismatch;
  reconciliation_status = ReconciliationStatus.required;
}

abbrev waiting : ExecutionRunV1
waiting = record (history viem fresh sent) { status = reconciliation_required }

abbrev observation : ExecutionRunEvent
observation = ExecutionRunEvent.record_onchain_transaction_evidence "e" now tokenize transaction

abbrev still_waiting : ExecutionRunV1
still_waiting = transaction_effect viem waiting "e" now tokenize transaction transaction

observation_accepted : apply_run_event viem waiting observation ≡ ok still_waiting
unfolding running parse_onchain_transaction_evidence is_iso_utc is_sha256 is_tx_hash is_quantity
observation_accepted = refl

abbrev receipt : TransactionReceiptEvidence
receipt = record {
  observed_at = now;
  transaction_hash = lower_hash;
  block_hash = other_hash;
  block_number = "0x10";
  transaction_index = "0x0";
  from = signer;
  to = none;
  type = TransactionType.type2;
  gas_used = "0x5208";
  effective_gas_price = "0x2";
  contract_address = none;
  execution_status = ExecutionStatus.success;
  identity_status = MatchStatus.match;
  finality_status = FinalityStatus.finalized;
  finalized_block_hash = some other_hash;
  finalized_block_number = some "0x20";
  reconciliation_status = ReconciliationStatus.clear;
}

-- the run waits after evidence of its transaction, and the receipt is reverted
abbrev reverted : TransactionReceiptEvidence
reverted = record receipt { execution_status = ExecutionStatus.reverted }

abbrev reverting : ExecutionRunEvent
reverting = ExecutionRunEvent.record_transaction_receipt_evidence "e2" now tokenize reverted

abbrev ended : ExecutionRunV1
ended = receipt_effect viem still_waiting "e2" now tokenize reverted reverted

reverting_accepted : apply_run_event viem still_waiting reverting ≡ ok ended
unfolding running transaction_effect record_transaction_receipt_evidence has_receipt_stage
    receipt_refused parse_transaction_receipt_evidence is_iso_utc is_tx_hash is_quantity
reverting_accepted = refl

still_waiting-status : still_waiting.status ≡ reconciliation_required
unfolding running
still_waiting-status = refl

reconciliation_blocks_example :
    (ended.status ≡ RunStatus.failed) × (ended.terminal_outcome ≡ some TerminalOutcome.failed)
reconciliation_blocks_example =
    reconciliation_blocks viem still_waiting reverting still_waiting-status reverting_accepted

-- the first operation is confirmed, and the final receipt of its transaction is known
abbrev proven : ExecutionRunV1
proven =
    let run = history viem fresh sent in
    record run {
      schema_version = version3;
      operations = record run.operations {
        op0 = record run.operations.op0 {
          stage = confirmed;
          onchain_transaction_evidence = some transaction;
          transaction_receipt_evidence = some receipt;
        };
      };
      status = RunStatus.confirming;
    }

abbrev read_back : ExecutionRunV1
read_back = record_read_back_verified_effect proven "e" now tokenize "read"

read_back_accepted :
    apply_run_event viem proven
      (ExecutionRunEvent.record_read_back_verified "e" now tokenize "read")
    ≡ ok read_back
unfolding running
read_back_accepted = refl

read_back_needs_receipt_example :
    (found : TransactionReceiptEvidence) × ((op proven tokenize).transaction_receipt_evidence
      ≡ some found)
    × IsProven viem found
read_back_needs_receipt_example =
    read_back_needs_receipt viem proven "e" now tokenize "read" refl read_back_accepted

-- the events up to the submission of the hash for confirmation
abbrev confirming : List ExecutionRunEvent
confirming = approval ∷ broadcast tokenize (submission ∷ [])

confirming-stage : is_confirming (op (history viem fresh confirming) tokenize).stage ≡ true
unfolding running
confirming-stage = refl

history_pair_example :
    is_some (persisted_confirmation_pair (history viem fresh confirming) tokenize) ≡ true
history_pair_example = history_pair viem creation confirming tokenize confirming-stage
