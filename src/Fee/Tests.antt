-- ===== src/Fee/Tests.antt =====
-- The theorems on fees, applied to one authorization and to transactions under it.
use edict.Prelude.{◌≡◌, ◌≤◌, ◌*◌, ◌-◌, refl, true, ◌&&◌, some, none, [], leb, str_eq, arith}
use edict.Text.Quantity.{big_int, to_quantity, is_quantity}
use edict.Text.Quantity.Printed.{big_int-to_quantity, is_quantity-to_quantity}
use edict.Execution.Result.{ok, is_ok}
use edict.Fee.Schema.{
  FeeValues, FeeAuthorization, AdjustmentPolicy, RawFeeFields, Type2FeeFields, Type0FeeFields,
  type2_fields, type0_fields, is_fee_authorization, is_incoherent, is_increased, max_uint256,
  are_fee_values, are_fee_caps, is_access_list, same_access_list, parse_actual_fee_fields,
  parse_type2, parse_type0, parse_fee_authorization,
}
use edict.Fee.Evaluation.{evaluate_fee_authorization, base_fee}
use edict.Fee.Caps.{is_accepted, evaluate_type2_iff, evaluate_type0_iff}
use edict.Fee.Policy.{
  FeeInput, create_initial_fee_authorization, create_server_bounded_fee_authorization,
  gas_limit_ceiling, max_fee_ceiling, priority_fee_ceiling, network_fee_ceiling, gas_cap,
  max_fee_cap, priority_fee_cap, caps_of, exceeds_policy,
}
use edict.Fee.Initial.{initial_iff}
use edict.Fee.Ceilings.{server_bounded_iff, server_bounded_caps}
use edict.Fee.Prepared.{prepared_fields, prepared_accepted}

-- 1,000,000 gas at 2 gwei, with a priority fee of 1 gwei
abbrev values : FeeValues
values = record {
  gas_limit = "0xf4240";
  max_fee_per_gas = "0x77359400";
  max_priority_fee_per_gas = "0x3b9aca00";
}

abbrev input : FeeInput
input = record { values = values; prepared_access_list = none }

abbrev pub granted : FeeAuthorization
granted = record {
  prepared_defaults = values;
  authorized_caps = caps_of 1500000 6000000000 3000000000;
  prepared_access_list = [];
  adjustment_policy = AdjustmentPolicy.server_bounded_headroom;
}

-- To unfold this is to compute on quantities.
computing : Unit {0}
unfolding is_quantity big_int to_quantity is_access_list are_fee_values are_fee_caps is_increased
    is_incoherent is_fee_authorization parse_fee_authorization parse_type2 parse_type0
    parse_actual_fee_fields gas_cap max_fee_cap priority_fee_cap exceeds_policy
    create_server_bounded_fee_authorization str_eq
computing = tt

granted-is_fee_authorization : is_fee_authorization granted ≡ true
unfolding computing
granted-is_fee_authorization = refl

input_granted : create_server_bounded_fee_authorization input ≡ ok granted
unfolding computing
input_granted = refl

is_quantity-to_quantity_example : is_quantity (to_quantity 1500000) ≡ true
is_quantity-to_quantity_example = is_quantity-to_quantity 1500000 (omega arith)

big_int-to_quantity_example : big_int (to_quantity 1500000) ≡ 1500000
big_int-to_quantity_example = big_int-to_quantity 1500000

values-valid : are_fee_values values ≡ true
unfolding computing
values-valid = refl

nothing-valid : is_access_list [] ≡ true
unfolding computing
nothing-valid = refl

server_bounded_iff_example : is_ok (create_server_bounded_fee_authorization input) ≡ (
    leb (big_int values.gas_limit) gas_limit_ceiling
    && leb (big_int values.max_fee_per_gas) max_fee_ceiling
    && leb (big_int values.max_priority_fee_per_gas) priority_fee_ceiling
    && leb (big_int values.max_priority_fee_per_gas) (big_int values.max_fee_per_gas))
server_bounded_iff_example = server_bounded_iff input values-valid nothing-valid

server_bounded_caps_example :
    (granted.prepared_defaults ≡ values)
    × (big_int values.gas_limit ≤ big_int granted.authorized_caps.gas_limit)
    × (big_int granted.authorized_caps.gas_limit ≤ gas_limit_ceiling)
    × (big_int values.max_fee_per_gas ≤ big_int granted.authorized_caps.max_fee_per_gas)
    × (big_int granted.authorized_caps.max_fee_per_gas ≤ max_fee_ceiling)
    × (big_int values.max_priority_fee_per_gas
        ≤ big_int granted.authorized_caps.max_priority_fee_per_gas)
    × (big_int granted.authorized_caps.max_priority_fee_per_gas ≤ priority_fee_ceiling)
    × (big_int granted.authorized_caps.maximum_network_fee_wei
        ≡ big_int granted.authorized_caps.gas_limit
          * big_int granted.authorized_caps.max_fee_per_gas)
    × (big_int granted.authorized_caps.maximum_network_fee_wei ≤ network_fee_ceiling)
server_bounded_caps_example = server_bounded_caps input input_granted

prepared_accepted_example :
    is_accepted (evaluate_fee_authorization granted (prepared_fields granted)) ≡ true
prepared_accepted_example = prepared_accepted granted granted-is_fee_authorization

-- a wallet that raised the maximum fee over its cap
abbrev raised : RawFeeFields
raised = record (prepared_fields granted) { max_fee_per_gas = some "0x2540be400" }

abbrev raised_fields : Type2FeeFields
raised_fields = record {
  gas_limit = "0xf4240";
  max_fee_per_gas = "0x2540be400";
  max_priority_fee_per_gas = "0x3b9aca00";
  access_list = [];
}

raised-parsed : parse_actual_fee_fields raised ≡ ok (type2_fields raised_fields)
unfolding computing
raised-parsed = refl

evaluate_type2_iff_example : is_accepted (evaluate_fee_authorization granted raised) ≡ (
    same_access_list [] []
    && leb (big_int "0xf4240") (big_int granted.authorized_caps.gas_limit)
    && leb (big_int "0x2540be400") (big_int granted.authorized_caps.max_fee_per_gas)
    && leb (big_int "0x3b9aca00") (big_int granted.authorized_caps.max_priority_fee_per_gas)
    && leb (big_int "0x3b9aca00") (big_int "0x2540be400"))
evaluate_type2_iff_example =
    evaluate_type2_iff granted raised raised_fields granted-is_fee_authorization raised-parsed

-- a wallet that sent a transaction of type 0
abbrev legacy : RawFeeFields
legacy = record (prepared_fields granted) {
  transaction_type = some "0x0";
  gas_price = some "0x77359400";
}

abbrev legacy_fields : Type0FeeFields
legacy_fields = record {
  gas_limit = "0xf4240";
  gas_price = "0x77359400";
  access_list = [];
  base_fee_per_gas = none;
}

legacy-parsed : parse_actual_fee_fields legacy ≡ ok (type0_fields legacy_fields)
unfolding computing
legacy-parsed = refl

evaluate_type0_iff_example : is_accepted (evaluate_fee_authorization granted legacy) ≡ (
    same_access_list [] []
    && leb (big_int "0xf4240") (big_int granted.authorized_caps.gas_limit)
    && leb (big_int "0x77359400") (big_int granted.authorized_caps.max_fee_per_gas)
    && leb
        (big_int "0x77359400" - base_fee none)
        (big_int granted.authorized_caps.max_priority_fee_per_gas))
evaluate_type0_iff_example =
    evaluate_type0_iff granted legacy legacy_fields granted-is_fee_authorization legacy-parsed

initial_iff_example : is_ok (create_initial_fee_authorization input) ≡ (
    leb (big_int values.max_priority_fee_per_gas) (big_int values.max_fee_per_gas)
    && leb (big_int values.gas_limit * big_int values.max_fee_per_gas) max_uint256)
initial_iff_example = initial_iff input values-valid nothing-valid
