-- ===== src/Fee/Caps.antt =====
-- What an accepted transaction may cost at most: `evaluateFeeAuthorizationV1`.
use native.Mathlib.Nat.{mul-le-mul}
use edict.Prelude.{
  ℕ, ◌-◌, ◌*◌, ◌≤◌, ◌≡◌, ◌⊎◌, inl, inr, refl, Bool, true, false, ◌&&◌, ◌||◌, none, some, ltb, leb,
  str_eq, str_eq_iff, str_eq_refl, arith, Option-cases,
}
use edict.Text.Quantity.{big_int, is_quantity}
use edict.Execution.Result.{Result, ok}
use edict.Fee.Schema.{
  FeeCaps, FeeAuthorization, RawFeeFields, Type2FeeFields, Type0FeeFields, ActualFeeFields,
  type2_fields, type0_fields, parse_fee_authorization, parse_actual_fee_fields, parse_type2,
  parse_type0, same_access_list, max_uint256, is_fee_authorization, is_incoherent,
}
use edict.Fee.Evaluation.{
  FeeAuthorizationDecision, FeeRefusal, accepted, refused, gas_limit_cap_exceeded, early_refusal,
  base_fee, evaluate_type0, evaluate_type2, evaluate_actual, evaluate_fee_authorization,
}

abbrev pub is_accepted : Result FeeAuthorizationDecision → Bool
is_accepted (ok (accepted _)) = true
is_accepted _ = false

-- What the schema says of the network cap: it is the product of the two other caps, and fits.
IsProduct : FeeCaps → Type 0
IsProduct caps =
    let product = big_int caps.gas_limit * big_int caps.max_fee_per_gas in
    (product ≤ max_uint256) × (product ≡ big_int caps.maximum_network_fee_wei)

is_fee_authorization-IsProduct :
    (authorization : FeeAuthorization)
    → is_fee_authorization authorization ≡ true
    → IsProduct authorization.authorized_caps
unfolding is_fee_authorization is_incoherent IsProduct
is_fee_authorization-IsProduct authorization h = ground arith

-- A gas limit and a fee within their caps are within the network cap too.
network_fee_within :
    (caps : FeeCaps) (gas fee : ℕ)
    → IsProduct caps
    → gas ≤ big_int caps.gas_limit
    → fee ≤ big_int caps.max_fee_per_gas
    → (ltb max_uint256 (gas * fee) || ltb (big_int caps.maximum_network_fee_wei) (gas * fee))
      ≡ false
unfolding IsProduct
network_fee_within caps gas fee p g f =
    let bound : gas * fee ≤ big_int caps.gas_limit * big_int caps.max_fee_per_gas =
      mul-le-mul g f in
    ground arith

-- The fields that the schema of a type 2 transaction returns stand in the raw fields.
parse-type2 :
    (raw : RawFeeFields) (actual : Type2FeeFields)
    → parse_actual_fee_fields raw ≡ ok (type2_fields actual)
    → (raw.transaction_type ≡ some "0x2") × (raw.gas_limit ≡ some actual.gas_limit)
unfolding parse_actual_fee_fields parse_type2 parse_type0
parse-type2 raw actual h = elim (Option-cases raw.transaction_type) [
  | inl absent ↦ ground arith
  | inr (type, found) ↦ ground (arith, str_eq_iff type "0x2", str_eq_iff type "0x0")
]

parse-type0 :
    (raw : RawFeeFields) (actual : Type0FeeFields)
    → parse_actual_fee_fields raw ≡ ok (type0_fields actual)
    → (raw.transaction_type ≡ some "0x0")
      × (raw.gas_limit ≡ some actual.gas_limit)
      × (raw.gas_price ≡ some actual.gas_price)
unfolding parse_actual_fee_fields parse_type2 parse_type0
parse-type0 raw actual h = elim (Option-cases raw.transaction_type) [
  | inl absent ↦ ground arith
  | inr (type, found) ↦ ground (arith, str_eq_iff type "0x2", str_eq_iff type "0x0")
]

-- What is refused before the schema of a type 2 transaction is refused after it too.
early_refusal-type2 :
    (caps : FeeCaps) (raw : RawFeeFields) (actual : Type2FeeFields)
    → parse_actual_fee_fields raw ≡ ok (type2_fields actual)
    → (early_refusal caps raw ≡ none)
      ⊎ ((early_refusal caps raw ≡ some gas_limit_cap_exceeded)
          × (leb (big_int actual.gas_limit) (big_int caps.gas_limit) ≡ false))
unfolding early_refusal str_eq
early_refusal-type2 caps raw actual h =
    let fields = parse-type2 raw actual h in ground (arith, fields)

evaluate_actual-type2 :
    (authorization : FeeAuthorization) (actual : Type2FeeFields)
    → is_fee_authorization authorization ≡ true
    → is_accepted (ok (evaluate_actual authorization (type2_fields actual))) ≡ (
        same_access_list actual.access_list authorization.prepared_access_list
        && leb (big_int actual.gas_limit) (big_int authorization.authorized_caps.gas_limit)
        && leb
            (big_int actual.max_fee_per_gas)
            (big_int authorization.authorized_caps.max_fee_per_gas)
        && leb
            (big_int actual.max_priority_fee_per_gas)
            (big_int authorization.authorized_caps.max_priority_fee_per_gas)
        && leb (big_int actual.max_priority_fee_per_gas) (big_int actual.max_fee_per_gas))
unfolding evaluate_actual evaluate_type2
evaluate_actual-type2 authorization actual w =
    let caps = authorization.authorized_caps in
    let within =
      network_fee_within caps (big_int actual.gas_limit) (big_int actual.max_fee_per_gas)
        (is_fee_authorization-IsProduct authorization w) in
    ground arith

empty_price : is_quantity "" ≡ false
unfolding is_quantity
empty_price = refl

parse-type0_price :
    (raw : RawFeeFields) (actual : Type0FeeFields)
    → parse_actual_fee_fields raw ≡ ok (type0_fields actual)
    → str_eq actual.gas_price "" ≡ false
unfolding parse_actual_fee_fields parse_type2 parse_type0
parse-type0_price raw actual h = elim (Option-cases raw.transaction_type) [
  | inl absent ↦ ground arith
  | inr (type, found) ↦ ground (
    arith,
    empty_price,
    str_eq_iff type "0x2",
    str_eq_iff type "0x0",
    str_eq_iff actual.gas_price "",
  )
]

-- What is refused before the schema of a type 0 transaction is refused after it too: the schema
-- accepts no empty price.
early_refusal-type0 :
    (caps : FeeCaps) (raw : RawFeeFields) (actual : Type0FeeFields)
    → parse_actual_fee_fields raw ≡ ok (type0_fields actual)
    → str_eq actual.gas_price "" ≡ false
    → (early_refusal caps raw ≡ none)
      ⊎ ((early_refusal caps raw ≡ some gas_limit_cap_exceeded)
          × (leb (big_int actual.gas_limit) (big_int caps.gas_limit) ≡ false))
unfolding early_refusal
early_refusal-type0 caps raw actual h e =
    let fields = parse-type0 raw actual h in ground (arith, fields, str_eq_refl "0x0")

evaluate_actual-type0 :
    (authorization : FeeAuthorization) (actual : Type0FeeFields)
    → is_fee_authorization authorization ≡ true
    → is_accepted (ok (evaluate_actual authorization (type0_fields actual))) ≡ (
        same_access_list actual.access_list authorization.prepared_access_list
        && leb (big_int actual.gas_limit) (big_int authorization.authorized_caps.gas_limit)
        && leb (big_int actual.gas_price) (big_int authorization.authorized_caps.max_fee_per_gas)
        && leb
            (big_int actual.gas_price - base_fee actual.base_fee_per_gas)
            (big_int authorization.authorized_caps.max_priority_fee_per_gas))
unfolding evaluate_actual evaluate_type0
evaluate_actual-type0 authorization actual w =
    let caps = authorization.authorized_caps in
    let within =
      network_fee_within caps (big_int actual.gas_limit) (big_int actual.gas_price)
        (is_fee_authorization-IsProduct authorization w) in
    ground arith

-- Once the schema has accepted the authorization and the fields, the decision is that on the fields,
-- or the gas limit is over its cap.
evaluate_fee_authorization-actual :
    (authorization : FeeAuthorization) (raw : RawFeeFields) (actual : ActualFeeFields)
    → is_fee_authorization authorization ≡ true
    → parse_actual_fee_fields raw ≡ ok actual
    → early_refusal authorization.authorized_caps raw ≡ none
    → evaluate_fee_authorization authorization raw ≡ ok (evaluate_actual authorization actual)
unfolding evaluate_fee_authorization parse_fee_authorization
evaluate_fee_authorization-actual authorization raw actual w h e = ground arith

evaluate_fee_authorization-refused :
    (authorization : FeeAuthorization) (raw : RawFeeFields) (code : FeeRefusal)
    → is_fee_authorization authorization ≡ true
    → early_refusal authorization.authorized_caps raw ≡ some code
    → evaluate_fee_authorization authorization raw ≡ ok (refused code)
unfolding evaluate_fee_authorization parse_fee_authorization
evaluate_fee_authorization-refused authorization raw code w e = ground arith

-- Under a valid authorization a type 2 transaction is accepted exactly when its access list is the
-- prepared one, its gas limit, its maximum fee and its priority fee are each within their caps, and
-- its priority fee is within its maximum fee. The cap on the network fee then holds by itself.
pub evaluate_type2_iff :
    (authorization : FeeAuthorization) (raw : RawFeeFields) (actual : Type2FeeFields)
    → is_fee_authorization authorization ≡ true
    → parse_actual_fee_fields raw ≡ ok (type2_fields actual)
    → is_accepted (evaluate_fee_authorization authorization raw) ≡ (
        same_access_list actual.access_list authorization.prepared_access_list
        && leb (big_int actual.gas_limit) (big_int authorization.authorized_caps.gas_limit)
        && leb
            (big_int actual.max_fee_per_gas)
            (big_int authorization.authorized_caps.max_fee_per_gas)
        && leb
            (big_int actual.max_priority_fee_per_gas)
            (big_int authorization.authorized_caps.max_priority_fee_per_gas)
        && leb (big_int actual.max_priority_fee_per_gas) (big_int actual.max_fee_per_gas))
evaluate_type2_iff authorization raw actual w h =
    elim (early_refusal-type2 authorization.authorized_caps raw actual h) [
      | inl late ↦
          rw (evaluate_fee_authorization-actual authorization raw (type2_fields actual) w h late)
            (evaluate_actual-type2 authorization actual w)
      | inr (early, over) ↦
          rw (evaluate_fee_authorization-refused authorization raw gas_limit_cap_exceeded w early)
            (ground arith)
    ]

-- Under a valid authorization a type 0 transaction is accepted exactly when its access list is the
-- prepared one, its gas limit is within its cap, its gas price is within the cap of the maximum fee
-- and what the price leaves above the base fee is within the cap of the priority fee. The cap on the
-- network fee then holds by itself.
pub evaluate_type0_iff :
    (authorization : FeeAuthorization) (raw : RawFeeFields) (actual : Type0FeeFields)
    → is_fee_authorization authorization ≡ true
    → parse_actual_fee_fields raw ≡ ok (type0_fields actual)
    → is_accepted (evaluate_fee_authorization authorization raw) ≡ (
        same_access_list actual.access_list authorization.prepared_access_list
        && leb (big_int actual.gas_limit) (big_int authorization.authorized_caps.gas_limit)
        && leb (big_int actual.gas_price) (big_int authorization.authorized_caps.max_fee_per_gas)
        && leb
            (big_int actual.gas_price - base_fee actual.base_fee_per_gas)
            (big_int authorization.authorized_caps.max_priority_fee_per_gas))
evaluate_type0_iff authorization raw actual w h =
    elim (early_refusal-type0 authorization.authorized_caps raw actual h
      (parse-type0_price raw actual h)) [
        | inl late ↦
            rw (evaluate_fee_authorization-actual authorization raw (type0_fields actual) w h late)
              (evaluate_actual-type0 authorization actual w)
        | inr (early, over) ↦
            rw (evaluate_fee_authorization-refused authorization raw gas_limit_cap_exceeded w early)
              (ground arith)
      ]
