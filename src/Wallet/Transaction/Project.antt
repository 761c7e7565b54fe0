-- ===== src/Wallet/Transaction/Project.antt =====
-- `walletTransactionRequestV1Schema` and `projectPreparedTransactionV1` of
-- src/shared/wallet/transaction.ts.
use edict.Prelude.{
  String, Bool, true, false, not, ◌&&◌, ◌||◌, Option, none, some, List, [], ◌∷◌, ltb, leb, length,
  all, any, str_eq, opt_str_eq, is_some, is_none,
}
use edict.Text.{is_wallet}
use edict.Text.Quantity.{is_quantity, big_int}
use edict.Text.Numeral.{is_data, text_length}
use edict.Core.Json.{Json, Fields, end, field}
use edict.Execution.Result.{
  Result, ok, err, wallet_transaction_error, schema_refused, malformed_prepared_transaction,
  prepared_transaction_incomplete, conflicting_transaction_fields, unsupported_signing_field, ◌>>=◌,
  ◌>>◌, refuse,
}
use edict.Execution.Evidence.{AddressLibrary}
use edict.Fee.Schema.{AccessListEntry, is_access_list_entry}
use edict.Wallet.Transaction.{
  WalletTransactionRequest, NormalizedPreparedTransaction, inspect_plain_object, read,
  optional_quantity, quantity, calldata_at, calldata_code_units, address, address_at,
  access_list_at,
}

-- `allowed`
abbrev allowed : List String
allowed =
    "from" ∷ "to" ∷ "data" ∷ "input" ∷ "value" ∷ "gas" ∷ "gasLimit" ∷ "nonce" ∷ "type" ∷ "chainId"
    ∷ "gasPrice" ∷ "maxFeePerGas" ∷ "maxPriorityFeePerGas" ∷ "accessList" ∷ []

unfoldable pub has_unknown_key : Fields → Bool
has_unknown_key end = false
has_unknown_key (field key v fs) = not (any (str_eq key) allowed) || has_unknown_key fs

-- `keys.length === 0`
abbrev is_end : Fields → Bool
is_end end = true
is_end (field _ _ _) = false

-- `schema.optional()`
abbrev pub optional {ℓ} : {A : Type ℓ} → (A → Bool) → Option A → Bool
optional p none = true
optional p (some a) = p a

-- `z.enum(["0x0", "0x1", "0x2"])`
abbrev is_type : String → Bool
is_type s = str_eq s "0x0" || str_eq s "0x1" || str_eq s "0x2"

abbrev pub has_max : WalletTransactionRequest → Bool
has_max r = is_some r.max_fee_per_gas || is_some r.max_priority_fee_per_gas

-- `(a === undefined) !== (b === undefined)`
abbrev pub only_one : Option String → Option String → Bool
only_one none none = false
only_one (some _) (some _) = false
only_one _ _ = true

abbrev is_request_data : String → Bool
is_request_data s = leb (text_length s) calldata_code_units && is_data s

abbrev is_request_access_list : List AccessListEntry → Bool
is_request_access_list entries = all is_access_list_entry entries && leb (length entries) 256

-- the fields of `walletTransactionRequestV1Schema`
unfoldable pub has_request_fields : WalletTransactionRequest → Bool
has_request_fields r =
    is_wallet r.from
    && optional is_wallet r.to
    && optional is_quantity r.gas
    && optional is_quantity r.gas_price
    && optional is_quantity r.max_fee_per_gas
    && optional is_quantity r.max_priority_fee_per_gas
    && optional is_quantity r.value
    && optional is_request_data r.calldata
    && optional is_quantity r.nonce
    && optional is_type r.type
    && optional is_request_access_list r.access_list

-- the fee model for which the schema reports an issue
unfoldable pub has_mixed_fees : WalletTransactionRequest → Bool
has_mixed_fees r =
    (is_some r.gas_price && has_max r)
    || only_one r.max_fee_per_gas r.max_priority_fee_per_gas
    || (opt_str_eq r.type "0x2" && (is_some r.gas_price || not (has_max r)))
    || ((opt_str_eq r.type "0x0" || opt_str_eq r.type "0x1") && has_max r)

-- `walletTransactionRequestV1Schema.parse`
unfoldable pub parse_wallet_transaction_request :
    WalletTransactionRequest → Result WalletTransactionRequest
parse_wallet_transaction_request r = do
  refuse (not (has_request_fields r) || has_mixed_fees r) schema_refused
  ok r

-- `a !== undefined && b !== undefined && a !== b`
abbrev pub conflicting : Option String → Option String → Bool
conflicting (some a) (some b) = not (str_eq a b)
conflicting _ _ = false

-- `a ?? b`
abbrev pub either : Option String → Option String → Option String
either none b = b
either (some a) b = some a

-- the priority fee is over the maximum fee
abbrev over : Option String → Option String → Bool
over (some max_fee) (some priority) = ltb (big_int max_fee) (big_int priority)
over _ _ = false

abbrev is_unsupported_type : Option String → Bool
is_unsupported_type none = false
is_unsupported_type (some s) = not (is_type s)

-- `chainId`, which the checks have found
abbrev quantity_of : Option Json → Result String
quantity_of none = err (wallet_transaction_error prepared_transaction_incomplete)
quantity_of (some raw) = quantity raw

module _ (viem : AddressLibrary) where
  unfoldable pub project_prepared_transaction : Json → Result NormalizedPreparedTransaction
  project_prepared_transaction raw = do
    object ← inspect_plain_object raw
    refuse (is_end object) (wallet_transaction_error malformed_prepared_transaction)
    refuse (has_unknown_key object) (wallet_transaction_error unsupported_signing_field)
    refuse (is_none (read object "from")) (wallet_transaction_error prepared_transaction_incomplete)
    refuse (is_none (read object "chainId"))
        (wallet_transaction_error prepared_transaction_incomplete)
    from ← address viem (read object "from")
    to ← address_at viem (read object "to")
    data_value ← calldata_at (read object "data")
    input_value ← calldata_at (read object "input")
    refuse (conflicting data_value input_value)
        (wallet_transaction_error conflicting_transaction_fields)
    gas_value ← optional_quantity object "gas"
    gas_limit_value ← optional_quantity object "gasLimit"
    refuse (conflicting gas_value gas_limit_value)
        (wallet_transaction_error conflicting_transaction_fields)
    type_value ← optional_quantity object "type"
    refuse (is_unsupported_type type_value) (wallet_transaction_error unsupported_signing_field)
    gas_price ← optional_quantity object "gasPrice"
    max_fee ← optional_quantity object "maxFeePerGas"
    priority ← optional_quantity object "maxPriorityFeePerGas"
    let fees_given = is_some max_fee || is_some priority
    refuse (is_some gas_price && fees_given)
        (wallet_transaction_error conflicting_transaction_fields)
    refuse (only_one max_fee priority) (wallet_transaction_error prepared_transaction_incomplete)
    refuse (over max_fee priority) (wallet_transaction_error conflicting_transaction_fields)
    refuse (opt_str_eq type_value "0x2" && (is_some gas_price || not fees_given))
        (wallet_transaction_error conflicting_transaction_fields)
    refuse ((opt_str_eq type_value "0x0" || opt_str_eq type_value "0x1") && fees_given)
        (wallet_transaction_error conflicting_transaction_fields)
    value ← optional_quantity object "value"
    nonce ← optional_quantity object "nonce"
    entries ← access_list_at viem (read object "accessList")
    request ← parse_wallet_transaction_request (record {
      from = from;
      to = to;
      gas = either gas_value gas_limit_value;
      gas_price = gas_price;
      max_fee_per_gas = max_fee;
      max_priority_fee_per_gas = priority;
      value = value;
      calldata = either data_value input_value;
      nonce = nonce;
      type = type_value;
      access_list = entries;
    })
    chain_id ← quantity_of (read object "chainId")
    ok (record { chain_id = chain_id; wallet_request = request })
