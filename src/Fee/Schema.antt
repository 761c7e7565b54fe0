-- ===== src/Fee/Schema.antt =====
-- `feeAuthorizationV1Schema` of src/shared/wallet/execution-authorization.ts and the fee fields of a
-- transaction that the node returned.
use edict.Prelude.{
  ℕ, ◌+◌, ◌-◌, ◌*◌, ◌^◌, String, Bool, true, false, not, ◌&&◌, ◌||◌, Option, none, some, List, [],
  ◌∷◌, leb, ltb, ◌==◌, length, all, str_eq, default_to, if◌then◌else◌,
}
use edict.Text.{is_wallet, is_tx_hash}
use edict.Text.Quantity.{is_quantity, big_int}
use edict.Execution.Result.{Result, ok, err, schema_refused, ◌>>◌, refuse}

abbrev pub max_uint256 : ℕ
max_uint256 = 2 ^ 256 - 1

pub record AccessListEntry : Type 0 where
  pub address : String
  pub storage_keys : List String

-- `WALLET_BOUNDARY_LIMITS`
abbrev access_list_entries : ℕ
access_list_entries = 256

abbrev storage_keys_per_entry : ℕ
storage_keys_per_entry = 256

abbrev storage_keys_total : ℕ
storage_keys_total = 4096

pub is_access_list_entry : AccessListEntry → Bool
is_access_list_entry entry =
    is_wallet entry.address
    && all is_tx_hash entry.storage_keys
    && leb (length entry.storage_keys) storage_keys_per_entry

pub count_storage_keys : List AccessListEntry → ℕ
count_storage_keys [] = 0
count_storage_keys (entry ∷ entries) = length entry.storage_keys + count_storage_keys entries

unfoldable pub is_access_list : List AccessListEntry → Bool
unfolding is_access_list_entry count_storage_keys
is_access_list entries =
    all is_access_list_entry entries
    && leb (length entries) access_list_entries
    && leb (count_storage_keys entries) storage_keys_total

-- `canonicalizeJson(left) === canonicalizeJson(right)`
unfoldable pub same_texts : List String → List String → Bool
same_texts [] [] = true
same_texts (s ∷ ss) (t ∷ ts) = str_eq s t && same_texts ss ts
same_texts _ _ = false

unfoldable pub same_access_list : List AccessListEntry → List AccessListEntry → Bool
unfolding same_texts
same_access_list [] [] = true
same_access_list (a ∷ left) (b ∷ right) =
    str_eq a.address b.address
    && same_texts a.storage_keys b.storage_keys
    && same_access_list left right
same_access_list _ _ = false

pub record FeeValues : Type 0 where
  pub gas_limit : String
  pub max_fee_per_gas : String
  pub max_priority_fee_per_gas : String

-- `feeValues.extend({ maximumNetworkFeeWei: quantity })`
pub record FeeCaps : Type 0 where
  pub gas_limit : String
  pub max_fee_per_gas : String
  pub max_priority_fee_per_gas : String
  pub maximum_network_fee_wei : String

pub data AdjustmentPolicy : Type 0 where
  bounded_no_increase server_bounded_headroom : AdjustmentPolicy

pub record FeeAuthorization : Type 0 where
  pub prepared_defaults : FeeValues
  pub authorized_caps : FeeCaps
  pub prepared_access_list : List AccessListEntry
  pub adjustment_policy : AdjustmentPolicy

unfoldable pub are_fee_values : FeeValues → Bool
are_fee_values v =
    is_quantity v.gas_limit
    && is_quantity v.max_fee_per_gas
    && is_quantity v.max_priority_fee_per_gas

unfoldable pub are_fee_caps : FeeCaps → Bool
are_fee_caps caps =
    is_quantity caps.gas_limit
    && is_quantity caps.max_fee_per_gas
    && is_quantity caps.max_priority_fee_per_gas
    && is_quantity caps.maximum_network_fee_wei

-- the values of the defaults differ from the values of the caps
unfoldable pub is_increased : AdjustmentPolicy → FeeValues → FeeCaps → Bool
is_increased AdjustmentPolicy.server_bounded_headroom v caps = false
is_increased AdjustmentPolicy.bounded_no_increase v caps =
    not (big_int v.gas_limit == big_int caps.gas_limit)
    || not (big_int v.max_fee_per_gas == big_int caps.max_fee_per_gas)
    || not (big_int v.max_priority_fee_per_gas == big_int caps.max_priority_fee_per_gas)

-- the condition under which the schema reports an invalid fee authorization
unfoldable pub is_incoherent : FeeAuthorization → Bool
is_incoherent authorization =
    let defaults = authorization.prepared_defaults in
    let caps = authorization.authorized_caps in
    let product = big_int caps.gas_limit * big_int caps.max_fee_per_gas in
    ltb (big_int defaults.max_fee_per_gas) (big_int defaults.max_priority_fee_per_gas)
    || ltb (big_int caps.max_fee_per_gas) (big_int caps.max_priority_fee_per_gas)
    || ltb (big_int caps.gas_limit) (big_int defaults.gas_limit)
    || ltb (big_int caps.max_fee_per_gas) (big_int defaults.max_fee_per_gas)
    || ltb (big_int caps.max_priority_fee_per_gas) (big_int defaults.max_priority_fee_per_gas)
    || is_increased authorization.adjustment_policy defaults caps
    || ltb max_uint256 product
    || not (product == big_int caps.maximum_network_fee_wei)

unfoldable pub is_fee_authorization : FeeAuthorization → Bool
is_fee_authorization authorization =
    are_fee_values authorization.prepared_defaults
    && are_fee_caps authorization.authorized_caps
    && is_access_list authorization.prepared_access_list
    && not (is_incoherent authorization)

-- `feeAuthorizationV1Schema.parse`
unfoldable pub parse_fee_authorization : FeeAuthorization → Result FeeAuthorization
parse_fee_authorization authorization = do
  refuse (not (is_fee_authorization authorization)) schema_refused
  ok authorization

-- The fee fields as they come, before the schema. A field that is absent is `none`, and so is a
-- quantity that is `null`; a field of any other type than its own is left out.
pub record RawFeeFields : Type 0 where
  pub transaction_type : Option String
  pub gas_limit : Option String
  pub gas_price : Option String
  pub max_fee_per_gas : Option String
  pub max_priority_fee_per_gas : Option String
  pub access_list : Option (List AccessListEntry)
  pub base_fee_per_gas : Option String

-- `actualType2FeeFieldsSchema` and `actualType0FeeFieldsSchema`: the fields that are read
pub record Type2FeeFields : Type 0 where
  pub gas_limit : String
  pub max_fee_per_gas : String
  pub max_priority_fee_per_gas : String
  pub access_list : List AccessListEntry

pub record Type0FeeFields : Type 0 where
  pub gas_limit : String
  pub gas_price : String
  pub access_list : List AccessListEntry
  pub base_fee_per_gas : Option String

pub data ActualFeeFields : Type 0 where
  type2_fields : Type2FeeFields → ActualFeeFields
  type0_fields : Type0FeeFields → ActualFeeFields

-- `quantity.nullable().optional()`, and a required quantity
abbrev optional_fee_quantity : Option String → Bool
optional_fee_quantity none = true
optional_fee_quantity (some s) = is_quantity s

abbrev required_quantity : Option String → Bool
required_quantity none = false
required_quantity (some s) = is_quantity s

unfoldable pub parse_type2 : RawFeeFields → Result ActualFeeFields
parse_type2 raw = do
  let entries = default_to [] raw.access_list
  refuse
      (not (
        required_quantity raw.gas_limit
        && required_quantity raw.max_fee_per_gas
        && required_quantity raw.max_priority_fee_per_gas
        && optional_fee_quantity raw.gas_price
        && is_access_list entries
        && optional_fee_quantity raw.base_fee_per_gas))
      schema_refused
  ok (
      type2_fields (record {
        gas_limit = default_to "" raw.gas_limit;
        max_fee_per_gas = default_to "" raw.max_fee_per_gas;
        max_priority_fee_per_gas = default_to "" raw.max_priority_fee_per_gas;
        access_list = entries;
      }))

unfoldable pub parse_type0 : RawFeeFields → Result ActualFeeFields
parse_type0 raw = do
  let entries = default_to [] raw.access_list
  refuse
      (not (
        required_quantity raw.gas_limit
        && required_quantity raw.gas_price
        && optional_fee_quantity raw.max_fee_per_gas
        && optional_fee_quantity raw.max_priority_fee_per_gas
        && is_access_list entries
        && optional_fee_quantity raw.base_fee_per_gas))
      schema_refused
  ok (
      type0_fields (record {
        gas_limit = default_to "" raw.gas_limit;
        gas_price = default_to "" raw.gas_price;
        access_list = entries;
        base_fee_per_gas = raw.base_fee_per_gas;
      }))

-- `actualFeeFieldsSchema.parse`
unfoldable pub parse_actual_fee_fields : RawFeeFields → Result ActualFeeFields
parse_actual_fee_fields raw = elim raw.transaction_type [
  | none ↦ err schema_refused
  | some type ↦
      if str_eq type "0x2"
      then parse_type2 raw
      else if str_eq type "0x0"
      then parse_type0 raw
      else err schema_refused
]
