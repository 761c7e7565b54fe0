-- ===== src/Execution/Result.antt =====
-- Code that throws returns a `Result`. The errors are the classes of src/server/execution/errors.ts
-- and the exceptions of the validation library, one constructor for each class that a caller can
-- tell apart.
use edict.Prelude.{Bool, true, false, ◌≡◌, refl, ◌⊎◌, inl, inr}

-- `WalletTransactionErrorCode` of src/shared/wallet/transaction.ts
pub data WalletTransactionErrorCode : Type 0 where
  malformed_prepared_transaction prepared_transaction_incomplete : WalletTransactionErrorCode
  conflicting_transaction_fields unsupported_signing_field : WalletTransactionErrorCode
  signer_mismatch wrong_chain : WalletTransactionErrorCode

pub data Error : Type 0 where
  illegal_state_transition : Error
  invalid_approval : Error
  repository_not_found : Error
  repository_revision_conflict : Error
  invalid_run_snapshot : Error
  persistence_data_invalid : Error
  -- `ZodError`: a schema's `parse` refused the value
  schema_refused : Error
  -- `CanonicalJsonError`
  canonical_json_refused : Error
  -- `TypeError("INVALID_FEE_AUTHORIZATION")`
  invalid_fee_authorization : Error
  wallet_transaction_error : WalletTransactionErrorCode → Error
  -- `SyntaxError` of `BigInt`
  not_an_integer : Error

-- What code that may throw ends with: its result, or the error.
pub data Result {ℓ} (Value : Type ℓ) : Type ℓ where
  ok : (value : Value) → Result Value
  err : (thrown : Error) → Result Value

-- Whether the code returned.
abbrev pub is_ok {ℓ} : {A : Type ℓ} → Result A → Bool
is_ok (err _) = false
is_ok (ok _) = true

-- `if (condition) throw error;`
abbrev pub refuse : (condition : Bool) (error : Error) → Result (Unit {0})
refuse true thrown = err thrown
refuse false thrown = ok tt

-- One statement after another; an error ends the code.
infixl 5 ◌>>=◌ ◌>>◌
abbrev pub ◌>>=◌ {ℓ ℓ'} :
    {Before : Type ℓ} {After : Type ℓ'} → Result Before → (Before → Result After) → Result After
err thrown >>= next = err thrown
ok value >>= next = next value

abbrev pub ◌>>◌ {ℓ} : {After : Type ℓ} → Result (Unit {0}) → Result After → Result After
check >> next = check >>= λ done. next

pub Result-cases {ℓ} :
    {A : Type ℓ} (m : Result A) → ((a : A) × (m ≡ ok a)) ⊎ ((e : Error) × (m ≡ err e))
Result-cases (ok a) = inl (a, refl)
Result-cases (err e) = inr (e, refl)
