-- ===== src/Fee/Initial.antt =====
-- When a prepared transaction is authorized without headroom.
use edict.Prelude.{◌*◌, ◌≡◌, true, ◌&&◌, ◌||◌, [], ltb, leb, default_to, arith}
use edict.Text.Quantity.{big_int, to_quantity}
use edict.Text.Quantity.Printed.{big_int-to_quantity, is_quantity-to_quantity}
use edict.Execution.Result.{is_ok}
use edict.Fee.Schema.{
  FeeAuthorization, AdjustmentPolicy, are_fee_values, are_fee_caps, is_access_list,
  is_fee_authorization, is_incoherent, is_increased, parse_fee_authorization, max_uint256,
}
use edict.Fee.Policy.{FeeInput, create_initial_fee_authorization}

-- the record that `create_initial_fee_authorization` gives to the schema
abbrev initial_record : FeeInput → FeeAuthorization
initial_record input = record {
  prepared_defaults = input.values;
  authorized_caps = record {
    gas_limit = input.values.gas_limit;
    max_fee_per_gas = input.values.max_fee_per_gas;
    max_priority_fee_per_gas = input.values.max_priority_fee_per_gas;
    maximum_network_fee_wei =
        to_quantity (big_int input.values.gas_limit * big_int input.values.max_fee_per_gas);
  };
  prepared_access_list = default_to [] input.prepared_access_list;
  adjustment_policy = AdjustmentPolicy.bounded_no_increase;
}

is_incoherent-initial_record :
    (input : FeeInput)
    → is_incoherent (initial_record input) ≡ (
        ltb (big_int input.values.max_fee_per_gas) (big_int input.values.max_priority_fee_per_gas)
        || ltb max_uint256 (big_int input.values.gas_limit * big_int input.values.max_fee_per_gas))
unfolding is_incoherent is_increased
is_incoherent-initial_record input =
    let product = big_int input.values.gas_limit * big_int input.values.max_fee_per_gas in
    rw (big_int-to_quantity product) (ground arith)

-- For prepared values and an access list that the schemas accept, the authorization without headroom
-- is granted exactly when the priority fee is within the maximum fee and the network fee fits in 256
-- bits.
pub initial_iff :
    (input : FeeInput)
    → are_fee_values input.values ≡ true
    → is_access_list (default_to [] input.prepared_access_list) ≡ true
    → is_ok (create_initial_fee_authorization input) ≡ (
        leb (big_int input.values.max_priority_fee_per_gas) (big_int input.values.max_fee_per_gas)
        && leb (big_int input.values.gas_limit * big_int input.values.max_fee_per_gas) max_uint256)
unfolding create_initial_fee_authorization parse_fee_authorization is_fee_authorization
    are_fee_values are_fee_caps
initial_iff input v l =
    let product = big_int input.values.gas_limit * big_int input.values.max_fee_per_gas in
    let printed = is_quantity-to_quantity product in
    ground (arith, is_incoherent-initial_record input, printed)
