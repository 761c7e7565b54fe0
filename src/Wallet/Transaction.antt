-- ===== src/Wallet/Transaction.antt =====
-- `projectPreparedTransactionV1` of src/shared/wallet/transaction.ts: the transaction that Brickken
-- prepared, an unknown JSON value, as a normalized wallet request. The error carries no path here.
-- Prototypes, accessors and symbol keys are the constructor `foreign` of `Json`.
pub mod Project
use edict.Prelude.{
  ℕ, zero, suc, ◌+◌, ◌*◌, String, Bool, true, false, not, ◌&&◌, ◌||◌, Option, none, some, List, [],
  ◌∷◌, ltb, leb, length, all, str_eq, opt_str_eq, is_some, is_none, if◌then◌else◌,
}
use edict.Text.{is_hex, is_wallet, is_tx_hash, is_tx_hash_any_case, lower}
use edict.Text.Quantity.{is_quantity, big_int, to_quantity}
use edict.Text.Numeral.{
  is_decimal, decimal_int, is_hex_numeral, is_data_any_case, is_data, text_length,
}
use edict.Core.Json.{Json, num, text, arr, obj, Items, nil, cons, Fields, end, field}
use edict.Execution.Result.{
  Result, ok, err, wallet_transaction_error, schema_refused, WalletTransactionErrorCode,
  malformed_prepared_transaction, prepared_transaction_incomplete, conflicting_transaction_fields,
  unsupported_signing_field, ◌>>=◌, ◌>>◌, refuse,
}
use edict.Execution.Evidence.{AddressLibrary}
use edict.Fee.Schema.{AccessListEntry, max_uint256, is_access_list_entry}

pub record WalletTransactionRequest : Type 0 where
  pub from : String
  pub to : Option String
  pub gas : Option String
  pub gas_price : Option String
  pub max_fee_per_gas : Option String
  pub max_priority_fee_per_gas : Option String
  pub value : Option String
  pub calldata : Option String
  pub nonce : Option String
  pub type : Option String
  pub access_list : Option (List AccessListEntry)

pub record NormalizedPreparedTransaction : Type 0 where
  pub chain_id : String
  pub wallet_request : WalletTransactionRequest

abbrev wallet_error {ℓ} : {A : Type ℓ} → WalletTransactionErrorCode → Result A
wallet_error code = err (wallet_transaction_error code)

abbrev malformed {ℓ} : {A : Type ℓ} → Result A
malformed = wallet_error malformed_prepared_transaction

abbrev transaction_property_count : ℕ
transaction_property_count = 16

pub count_fields : Fields → ℕ
count_fields end = 0
count_fields (field k v fs) = suc (count_fields fs)

-- `read(object, key)`; `none` where the object has no such property
unfoldable pub read : Fields → String → Option Json
read end key = none
read (field k v fs) key = if str_eq k key then some v else read fs key

-- `inspectPlainObject`
unfoldable pub inspect_plain_object : Json → Result Fields
unfolding count_fields
inspect_plain_object (obj fs) = do
  refuse (ltb transaction_property_count (count_fields fs))
      (wallet_transaction_error malformed_prepared_transaction)
  ok fs
inspect_plain_object _ = malformed

-- the number that a text stands for
unfoldable pub number_of_text : String → Option ℕ
number_of_text s =
    if leb (text_length s) 78 && is_decimal s
    then some (decimal_int s)
    else if leb (text_length s) 66 && is_hex_numeral s
    then some (big_int s)
    else none

abbrev pub is_text : String → Option Json → Bool
is_text s (some (text t)) = str_eq t s
is_text s _ = false

abbrev pub hex_of : Option Json → Option ℕ
hex_of (some (text t)) =
    if leb (text_length t) 66 && is_hex_numeral t then some (big_int t) else none
hex_of _ = none

-- `{ type: "BigNumber", hex }`
unfoldable pub number_of_wrapper : Fields → Option ℕ
unfolding count_fields
number_of_wrapper fs =
    if leb (count_fields fs) 2 && is_some (read fs "hex") && is_text "BigNumber" (read fs "type")
    then hex_of (read fs "hex")
    else none

-- a safe integer that is not negative, a text, or a wrapper
unfoldable pub number_of : Json → Option ℕ
number_of (num true n) = if leb n 0 then some 0 else none
number_of (num false n) = some n
number_of (text s) = number_of_text s
number_of (obj fs) = number_of_wrapper fs
number_of _ = none

unfoldable pub bounded_quantity : Option ℕ → Result String
bounded_quantity none = malformed
bounded_quantity (some n) = if ltb max_uint256 n then malformed else ok (to_quantity n)

-- `quantity`
unfoldable pub quantity : Json → Result String
quantity raw = bounded_quantity (number_of raw)

-- `optionalQuantity`
abbrev pub quantity_at : Option Json → Result (Option String)
quantity_at none = ok none
quantity_at (some raw) = do value ← quantity raw; ok (some value)

unfoldable pub optional_quantity : Fields → String → Result (Option String)
optional_quantity fs key = quantity_at (read fs key)

abbrev pub calldata_code_units : ℕ
calldata_code_units = 2 + 131072 * 2

-- `data`
unfoldable pub calldata_text : Json → Result String
calldata_text (text s) =
    if leb (text_length s) calldata_code_units && is_data_any_case s
    then ok (lower s)
    else malformed
calldata_text _ = malformed

abbrev pub calldata_at : Option Json → Result (Option String)
calldata_at none = ok none
calldata_at (some raw) = do value ← calldata_text raw; ok (some value)

-- `storageKeys`
storage_key : Json → Result String
storage_key (text s) = if is_tx_hash_any_case s then ok (lower s) else malformed
storage_key _ = malformed

storage_keys_of : Items → Result (List String)
storage_keys_of nil = ok []
storage_keys_of (cons raw rest) = do
  key ← storage_key raw
  keys ← storage_keys_of rest
  ok (key ∷ keys)

count_items : Items → ℕ
count_items nil = 0
count_items (cons x xs) = suc (count_items xs)

-- `arrayDescriptors`
array_items : Option Json → Result Items
array_items (some (arr xs)) = ok xs
array_items _ = malformed

module _ (viem : AddressLibrary) where
  open viem use {is_address, get_address}

  -- `address`
  unfoldable pub address : Option Json → Result String
  address (some (text s)) = if is_address s then ok (lower (get_address s)) else malformed
  address _ = malformed

  abbrev pub address_at : Option Json → Result (Option String)
  address_at none = ok none
  address_at (some raw) = do value ← address (some raw); ok (some value)

  access_list_from : ℕ → Items → Result (List AccessListEntry)
  unfolding storage_keys_of count_items array_items count_fields
  access_list_from total nil = ok []
  access_list_from total (cons entry rest) = do
    fs ← inspect_plain_object entry
    refuse
        (not (
          leb (count_fields fs) 2
          && is_some (read fs "address")
          && is_some (read fs "storageKeys")))
        (wallet_transaction_error unsupported_signing_field)
    items ← array_items (read fs "storageKeys")
    refuse (ltb 256 (count_items items)) (wallet_transaction_error malformed_prepared_transaction)
    let sum = total + count_items items
    refuse (ltb 4096 sum) (wallet_transaction_error malformed_prepared_transaction)
    keys ← storage_keys_of items
    where_to ← address (read fs "address")
    entries ← access_list_from sum rest
    ok (record { address = where_to; storage_keys = keys } ∷ entries)

  -- `accessList`
  unfoldable pub access_list : Option Json → Result (List AccessListEntry)
  unfolding access_list_from count_items array_items storage_key
  access_list raw = do
    items ← array_items raw
    refuse (ltb 256 (count_items items)) (wallet_transaction_error malformed_prepared_transaction)
    access_list_from 0 items

  abbrev pub access_list_at : Option Json → Result (Option (List AccessListEntry))
  access_list_at none = ok none
  access_list_at (some raw) = do entries ← access_list (some raw); ok (some entries)
