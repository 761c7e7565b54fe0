-- ===== src/Rpc/Expected.antt =====
-- When `evaluateReceiptAndFinality` of src/server/rpc/finality.ts takes a receipt to be of the
-- transaction that the caller expects.
use edict.Prelude.{
  ◌≡◌, ◌⊎◌, ◌≤◌, refl, inl, inr, String, true, Option, none, some, arith, str_eq_iff,
}
use edict.Text.{lower}
use edict.Text.Quantity.{big_int}
use edict.Execution.Evidence.{TransactionType, type0, type1, type2}
use edict.Rpc.Types.{NormalizedRpcReceipt}
use edict.Rpc.Finality.{
  EvaluateReceiptAndFinalityInput, same_address, same_type, type_matches, gas_limit_matches,
  identity_matches,
}

-- the types of a transaction that the caller expects
abbrev pub IsExpectedType : Option TransactionType → TransactionType → Type 0
IsExpectedType none type = (type ≡ type2) ⊎ (type ≡ type0)
IsExpectedType (some expected) type = type ≡ expected

abbrev pub IsWithinLimit : Option String → (gas_used : String) → Type 0
IsWithinLimit none gas_used = Unit
IsWithinLimit (some limit) gas_used = big_int gas_used ≤ big_int limit

-- the receipt is of the transaction that the caller expects
pub record IsExpected (input : EvaluateReceiptAndFinalityInput) (receipt : NormalizedRpcReceipt)
    : Type 0 where
  pub sender : lower receipt.from ≡ lower input.expected_from
  pub recipient : String
  pub has_recipient : receipt.to ≡ some recipient
  pub same_recipient : lower recipient ≡ lower input.expected_to
  pub expected_type : IsExpectedType input.expected_type receipt.type
  pub within_limit : IsWithinLimit input.gas_limit receipt.gas_used
  pub no_contract : receipt.contract_address ≡ none

same_type_sound : (a b : TransactionType) → same_type a b ≡ true → a ≡ b
same_type_sound type0 type0 h = refl
same_type_sound type1 type1 h = refl
same_type_sound type2 type2 h = refl
same_type_sound type0 type1 h = cc
same_type_sound type0 type2 h = cc
same_type_sound type1 type0 h = cc
same_type_sound type1 type2 h = cc
same_type_sound type2 type0 h = cc
same_type_sound type2 type1 h = cc

type_matches-IsExpectedType :
    (expected : Option TransactionType) (type : TransactionType)
    → type_matches expected type ≡ true
    → IsExpectedType expected type
type_matches-IsExpectedType (some expected) type h = same_type_sound type expected h
type_matches-IsExpectedType none type0 h = inr refl
type_matches-IsExpectedType none type1 h = cc
type_matches-IsExpectedType none type2 h = inl refl

same_type_refl : (a : TransactionType) → same_type a a ≡ true
same_type_refl type0 = refl
same_type_refl type1 = refl
same_type_refl type2 = refl

IsExpectedType-type_matches :
    (expected : Option TransactionType) (type : TransactionType)
    → IsExpectedType expected type
    → type_matches expected type ≡ true
IsExpectedType-type_matches (some expected) type h = rw h (same_type_refl expected)
IsExpectedType-type_matches none type (inl h) = rw h
IsExpectedType-type_matches none type (inr h) = rw h

gas_limit_matches-IsWithinLimit :
    (limit : Option String) (gas_used : String)
    → gas_limit_matches limit gas_used ≡ true
    → IsWithinLimit limit gas_used
gas_limit_matches-IsWithinLimit none gas_used h = tt
gas_limit_matches-IsWithinLimit (some limit) gas_used h = ground arith

IsWithinLimit-gas_limit_matches :
    (limit : Option String) (gas_used : String)
    → IsWithinLimit limit gas_used
    → gas_limit_matches limit gas_used ≡ true
IsWithinLimit-gas_limit_matches none gas_used h = refl
IsWithinLimit-gas_limit_matches (some limit) gas_used h = ground arith

same_address-Recipient :
    (to : Option String) (expected : String)
    → same_address to (some expected) ≡ true
    → (recipient : String) × (to ≡ some recipient) × (lower recipient ≡ lower expected)
unfolding same_address
same_address-Recipient none expected h = ground arith
same_address-Recipient (some recipient) expected h =
    (recipient, refl, (str_eq_iff (lower recipient) (lower expected)).0 h)

pub identity_matches-IsExpected :
    (input : EvaluateReceiptAndFinalityInput) (receipt : NormalizedRpcReceipt)
    → identity_matches input receipt ≡ true
    → IsExpected input receipt
unfolding identity_matches same_address
identity_matches-IsExpected input receipt h =
    let to = same_address-Recipient receipt.to input.expected_to (ground arith) in
    record {
      sender = ground (arith, str_eq_iff (lower receipt.from) (lower input.expected_from));
      recipient = to.0;
      has_recipient = to.1;
      same_recipient = to.2;
      expected_type = type_matches-IsExpectedType input.expected_type receipt.type (ground arith);
      within_limit =
          gas_limit_matches-IsWithinLimit input.gas_limit receipt.gas_used (ground arith);
      no_contract = ground arith;
    }

pub IsExpected-identity_matches :
    (input : EvaluateReceiptAndFinalityInput) (receipt : NormalizedRpcReceipt)
    → IsExpected input receipt
    → identity_matches input receipt ≡ true
unfolding identity_matches same_address
IsExpected-identity_matches input receipt e =
    let sender = (str_eq_iff (lower receipt.from) (lower input.expected_from)).1 e.sender in
    let has_recipient = e.has_recipient in
    let recipient = (str_eq_iff (lower e.recipient) (lower input.expected_to)).1 e.same_recipient in
    let type = IsExpectedType-type_matches input.expected_type receipt.type e.expected_type in
    let limit = IsWithinLimit-gas_limit_matches input.gas_limit receipt.gas_used e.within_limit in
    let no_contract = e.no_contract in ground arith
