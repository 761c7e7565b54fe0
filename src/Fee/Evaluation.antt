-- ===== src/Fee/Evaluation.antt =====
-- `evaluateFeeAuthorizationV1` of src/shared/wallet/execution-authorization.ts.
use edict.Prelude.{
  ℕ, ◌-◌, ◌*◌, String, Bool, true, false, not, ◌&&◌, ◌||◌, Option, none, some, List, ltb, str_eq,
  if◌then◌else◌,
}
use edict.Text.Quantity.{is_quantity_any_case, big_int, to_quantity}
use edict.Execution.Result.{Result, ok, ◌>>=◌}
use edict.Fee.Schema.{
  FeeCaps, FeeAuthorization, RawFeeFields, Type2FeeFields, Type0FeeFields, ActualFeeFields,
  type2_fields, type0_fields, parse_fee_authorization, parse_actual_fee_fields, same_access_list,
  max_uint256, AccessListEntry,
}

pub data FeeRefusal : Type 0 where
  legacy_gas_price fee_model_changed access_list_changed gas_limit_cap_exceeded : FeeRefusal
  max_fee_cap_exceeded priority_fee_cap_exceeded network_fee_cap_exceeded : FeeRefusal

pub data FeeAuthorizationDecision : Type 0 where
  accepted : (maximum_network_fee_wei : String) → FeeAuthorizationDecision
  refused : FeeRefusal → FeeAuthorizationDecision

-- `BigInt(actual.gasLimit) > BigInt(caps.gasLimit)` of an unparsed limit that looks like a quantity
abbrev raw_gas_exceeds : FeeCaps → Option String → Bool
raw_gas_exceeds caps none = false
raw_gas_exceeds caps (some gas) =
    is_quantity_any_case gas && ltb (big_int caps.gas_limit) (big_int gas)

abbrev is_other_type : Option String → Bool
is_other_type none = false
is_other_type (some type) = not (str_eq type "0x2") && not (str_eq type "0x0")

abbrev is_type0 : Option String → Bool
is_type0 none = false
is_type0 (some type) = str_eq type "0x0"

-- `gasPrice` is `null`, absent or empty
abbrev lacks_price : Option String → Bool
lacks_price none = true
lacks_price (some price) = str_eq price ""

-- the refusals before the schema
unfoldable pub early_refusal : FeeCaps → RawFeeFields → Option FeeRefusal
early_refusal caps raw =
    if raw_gas_exceeds caps raw.gas_limit
    then some gas_limit_cap_exceeded
    else if is_other_type raw.transaction_type
    then some fee_model_changed
    else if is_type0 raw.transaction_type && lacks_price raw.gas_price
    then some legacy_gas_price
    else none

-- `actual.baseFeePerGas ? BigInt(actual.baseFeePerGas) : 0n`
abbrev pub base_fee : Option String → ℕ
base_fee none = 0
base_fee (some fee) = if str_eq fee "" then 0 else big_int fee

unfoldable pub evaluate_type0 : FeeCaps → Type0FeeFields → FeeAuthorizationDecision
evaluate_type0 caps actual =
    let gas = big_int actual.gas_limit in
    let gas_price = big_int actual.gas_price in
    let base = base_fee actual.base_fee_per_gas in
    let effective_priority = if ltb base gas_price then gas_price - base else 0 in
    let maximum_network_fee = gas * gas_price in
    if ltb (big_int caps.max_fee_per_gas) gas_price
    then refused max_fee_cap_exceeded
    else if ltb (big_int caps.max_priority_fee_per_gas) effective_priority
    then refused priority_fee_cap_exceeded
    else if ltb max_uint256 maximum_network_fee
        || ltb (big_int caps.maximum_network_fee_wei) maximum_network_fee
    then refused network_fee_cap_exceeded
    else accepted (to_quantity maximum_network_fee)

unfoldable pub evaluate_type2 : FeeCaps → Type2FeeFields → FeeAuthorizationDecision
evaluate_type2 caps actual =
    let gas = big_int actual.gas_limit in
    let max_fee = big_int actual.max_fee_per_gas in
    let priority = big_int actual.max_priority_fee_per_gas in
    let maximum_network_fee = gas * max_fee in
    if ltb (big_int caps.max_fee_per_gas) max_fee
    then refused max_fee_cap_exceeded
    else if ltb (big_int caps.max_priority_fee_per_gas) priority || ltb max_fee priority
    then refused priority_fee_cap_exceeded
    else if ltb max_uint256 maximum_network_fee
        || ltb (big_int caps.maximum_network_fee_wei) maximum_network_fee
    then refused network_fee_cap_exceeded
    else accepted (to_quantity maximum_network_fee)

abbrev pub actual_access_list : ActualFeeFields → List AccessListEntry
actual_access_list (type2_fields actual) = actual.access_list
actual_access_list (type0_fields actual) = actual.access_list

abbrev pub actual_gas : ActualFeeFields → String
actual_gas (type2_fields actual) = actual.gas_limit
actual_gas (type0_fields actual) = actual.gas_limit

abbrev evaluate_type : FeeCaps → ActualFeeFields → FeeAuthorizationDecision
evaluate_type caps (type2_fields actual) = evaluate_type2 caps actual
evaluate_type caps (type0_fields actual) = evaluate_type0 caps actual

-- the decision on the parsed fields
unfoldable pub evaluate_actual : FeeAuthorization → ActualFeeFields → FeeAuthorizationDecision
evaluate_actual authorization actual =
    let caps = authorization.authorized_caps in
    if not (same_access_list (actual_access_list actual) authorization.prepared_access_list)
    then refused access_list_changed
    else if ltb (big_int caps.gas_limit) (big_int (actual_gas actual))
    then refused gas_limit_cap_exceeded
    else evaluate_type caps actual

unfoldable pub evaluate_fee_authorization :
    FeeAuthorization → RawFeeFields → Result FeeAuthorizationDecision
evaluate_fee_authorization authorization_raw raw = do
  authorization ← parse_fee_authorization authorization_raw
  elim (early_refusal authorization.authorized_caps raw) [
    | some code ↦ ok (refused code)
    | none ↦ do actual ← parse_actual_fee_fields raw; ok (evaluate_actual authorization actual)
  ]
