-- ===== src/Execution/V4/Base.antt =====
-- The helpers of src/server/execution/v4-transitions.ts.
use edict.Prelude.{
  ℕ, zero, ◌+◌, String, Bool, true, not, ◌&&◌, Option, none, some, List, [], ◌∷◌, ◌++◌, length,
  ◌==◌, str_eq, opt_str_eq, if◌then◌else◌,
}
use edict.Execution.Result.{
  Result, ok, err, illegal_state_transition, canonical_json_refused, ◌>>◌, refuse,
}
use edict.Execution.Kind.{OperationKind, tokenize, whitelist, mint, EventActor}
use edict.Execution.Types.{operation_at, with_operation}
use edict.Execution.Transitions.Base.{optional_is_canonical}
use edict.Wallet.Intent.{
  BrickkenMethod, new_tokenization, whitelist_user, mint_token, ImmutableExecutionIdentity,
  WalletExecutionIntent,
}
use edict.Fee.Schema.{FeeAuthorization}
use edict.Execution.V4.Types.{PreparationAttempt, WriteOperationV4, ExecutionRunV4}

-- what `calculatePreparationFingerprintV1` hashes
pub record PreparationSubject : Type 0 where
  pub run_id : String
  pub run_revision : ℕ
  pub approval_revision : ℕ
  pub manifest_hash : String
  pub plan_hash : String
  pub operation_id : String
  pub operation_kind : OperationKind
  pub attempt_id : String
  pub tx_id : String
  pub prepared_at : String
  pub immutable_identity : ImmutableExecutionIdentity
  pub calldata_commitment : Option String
  pub fee_authorization : FeeAuthorization

-- SHA-256 of the platform's Web Crypto, on a text and on the canonical JSON of two objects.
pub record Hashing : Type 0 where
  pub sha256_utf8 : String → String
  pub hash_preparation : PreparationSubject → String
  pub hash_intent : WalletExecutionIntent → String

-- `operationSequence` and `methodFor`
abbrev pub operation_sequence : OperationKind → ℕ
operation_sequence tokenize = 1
operation_sequence whitelist = 2
operation_sequence mint = 3

abbrev pub method_for : OperationKind → BrickkenMethod
method_for tokenize = new_tokenization
method_for whitelist = whitelist_user
method_for mint = mint_token

abbrev pub op_v4 : ExecutionRunV4 → OperationKind → WriteOperationV4
op_v4 run kind = operation_at kind run.operations

-- `appendEvent`
unfoldable pub append_event_v4 :
    ExecutionRunV4 → (id at type : String) → OperationKind → EventActor → ExecutionRunV4
append_event_v4 run id at type kind actor = record run {
  updated_at = at;
  events =
      run.events
      ++ record {
        id = id;
        sequence = length run.events + 1;
        type = type;
        at = at;
        actor = actor;
        operation_kind = some kind;
      }
        ∷ [];
}

-- `replaceOperation`
unfoldable pub replace_operation_v4 :
    ExecutionRunV4 → OperationKind → WriteOperationV4 → ExecutionRunV4
replace_operation_v4 run kind operation = record run {
  operations = with_operation kind operation run.operations;
}

unfoldable pub find_attempt : Option String → List PreparationAttempt → Option PreparationAttempt
find_attempt id [] = none
find_attempt id (a ∷ attempts) =
    if opt_str_eq id a.attempt_id then some a else find_attempt id attempts

abbrev found {ℓ} : {A : Type ℓ} → Option A → Result A
found none = err illegal_state_transition
found (some a) = ok a

-- `activeAttempt`
unfoldable pub active_attempt : WriteOperationV4 → Result PreparationAttempt
active_attempt o = found (find_attempt o.active_preparation_attempt_id o.preparation_attempts)

unfoldable pub replace_attempt :
    PreparationAttempt → List PreparationAttempt → List PreparationAttempt
replace_attempt next [] = []
replace_attempt next (a ∷ attempts) =
    (if str_eq a.attempt_id next.attempt_id then next else a) ∷ replace_attempt next attempts

unfoldable pub count_attempts : String → List PreparationAttempt → ℕ
count_attempts id [] = zero
count_attempts id (a ∷ attempts) =
    (if str_eq a.attempt_id id then 1 else 0) + count_attempts id attempts

-- `replaceActiveAttempt`: the new list, where it has exactly one attempt of the id
unfoldable pub replace_active_attempt :
    WriteOperationV4 → PreparationAttempt → Result (List PreparationAttempt)
replace_active_attempt o next = do
  let attempts = replace_attempt next o.preparation_attempts
  refuse (not (count_attempts next.attempt_id attempts == 1)) illegal_state_transition
  ok attempts

unfoldable pub attempts_are_canonical : List PreparationAttempt → Bool
attempts_are_canonical [] = true
attempts_are_canonical (a ∷ attempts) =
    optional_is_canonical a.unsigned_transaction && attempts_are_canonical attempts

abbrev operation_is_canonical : WriteOperationV4 → Bool
operation_is_canonical o =
    optional_is_canonical o.unsigned_transaction && attempts_are_canonical o.preparation_attempts

-- The parts of a run that can hold a value which `canonicalizeJson` refuses are the unsigned
-- transactions.
unfoldable pub run_is_canonical_v4 : ExecutionRunV4 → Bool
run_is_canonical_v4 run =
    operation_is_canonical run.operations.op0
    && operation_is_canonical run.operations.op1
    && operation_is_canonical run.operations.op2

-- `clone(run)`
abbrev pub clone_v4 : ExecutionRunV4 → Result ExecutionRunV4
clone_v4 run = do refuse (not (run_is_canonical_v4 run)) canonical_json_refused; ok run
