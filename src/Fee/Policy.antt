-- ===== src/Fee/Policy.antt =====
-- src/server/orchestration/fee-authorization-policy.ts, and `createInitialFeeAuthorizationV1` of
-- src/shared/wallet/execution-authorization.ts: the caps of a prepared transaction.
use edict.Prelude.{
  ℕ, ◌+◌, ◌*◌, ◌/◌, Bool, not, ◌||◌, Option, List, [], ltb, default_to, if◌then◌else◌,
}
use edict.Text.Quantity.{big_int, to_quantity}
use edict.Execution.Result.{Result, schema_refused, invalid_fee_authorization, ◌>>◌, refuse}
use edict.Fee.Schema.{
  FeeValues, FeeCaps, FeeAuthorization, AdjustmentPolicy, AccessListEntry, are_fee_values,
  parse_fee_authorization, max_uint256,
}

-- The input of both functions. The texts of `values` are quantities that the caller has parsed:
-- `BigInt` of another text is not modelled.
pub record FeeInput : Type 0 where
  pub values : FeeValues
  pub prepared_access_list : Option (List AccessListEntry)

-- `ceilBps`, `min`, `max`
abbrev pub ceil_bps : ℕ → ℕ → ℕ
ceil_bps value bps = (value * bps + 9999) / 10000

abbrev pub min : ℕ → ℕ → ℕ
min left right = if ltb left right then left else right

abbrev pub max : ℕ → ℕ → ℕ
max left right = if ltb right left then left else right

-- `SERVER_FEE_AUTHORIZATION_POLICY_V1`
abbrev pub gas_limit_headroom_bps : ℕ
gas_limit_headroom_bps = 15000

abbrev pub max_fee_headroom_bps : ℕ
max_fee_headroom_bps = 30000

abbrev pub priority_fee_headroom_bps : ℕ
priority_fee_headroom_bps = 30000

abbrev pub gas_limit_ceiling : ℕ
gas_limit_ceiling = 8000000

abbrev pub max_fee_floor : ℕ
max_fee_floor = 3000000000

abbrev pub max_fee_ceiling : ℕ
max_fee_ceiling = 10000000000

abbrev pub priority_fee_floor : ℕ
priority_fee_floor = 3000000000

abbrev pub priority_fee_ceiling : ℕ
priority_fee_ceiling = 3000000000

abbrev pub network_fee_ceiling : ℕ
network_fee_ceiling = 100000000000000000

unfoldable pub gas_cap : ℕ → ℕ
gas_cap prepared = min (ceil_bps prepared gas_limit_headroom_bps) gas_limit_ceiling

unfoldable pub max_fee_cap : ℕ → ℕ
max_fee_cap prepared =
    min (max (ceil_bps prepared max_fee_headroom_bps) max_fee_floor) max_fee_ceiling

unfoldable pub priority_fee_cap : ℕ → ℕ → ℕ
priority_fee_cap prepared max_fee =
    min
      (min (max (ceil_bps prepared priority_fee_headroom_bps) priority_fee_floor)
        priority_fee_ceiling)
      max_fee

-- the caps as texts, with the network fee that they allow
abbrev pub caps_of : ℕ → ℕ → ℕ → FeeCaps
caps_of gas max_fee priority = record {
  gas_limit = to_quantity gas;
  max_fee_per_gas = to_quantity max_fee;
  max_priority_fee_per_gas = to_quantity priority;
  maximum_network_fee_wei = to_quantity (gas * max_fee);
}

-- what is refused before the schema
unfoldable pub exceeds_policy : FeeValues → ℕ → ℕ → ℕ → Bool
exceeds_policy values gas max_fee priority =
    ltb gas (big_int values.gas_limit)
    || ltb max_fee (big_int values.max_fee_per_gas)
    || ltb priority (big_int values.max_priority_fee_per_gas)
    || ltb max_uint256 (gas * max_fee)
    || ltb network_fee_ceiling (gas * max_fee)

unfoldable pub create_server_bounded_fee_authorization : FeeInput → Result FeeAuthorization
create_server_bounded_fee_authorization input = do
  let gas = gas_cap (big_int input.values.gas_limit)
  let max_fee = max_fee_cap (big_int input.values.max_fee_per_gas)
  let priority = priority_fee_cap (big_int input.values.max_priority_fee_per_gas) max_fee
  refuse (exceeds_policy input.values gas max_fee priority) invalid_fee_authorization
  parse_fee_authorization (record {
    prepared_defaults = input.values;
    authorized_caps = caps_of gas max_fee priority;
    prepared_access_list = default_to [] input.prepared_access_list;
    adjustment_policy = AdjustmentPolicy.server_bounded_headroom;
  })

unfoldable pub create_initial_fee_authorization : FeeInput → Result FeeAuthorization
create_initial_fee_authorization input = do
  refuse (not (are_fee_values input.values)) schema_refused
  let parsed = input.values
  let maximum_network_fee = big_int parsed.gas_limit * big_int parsed.max_fee_per_gas
  refuse (ltb max_uint256 maximum_network_fee) invalid_fee_authorization
  parse_fee_authorization (record {
    prepared_defaults = parsed;
    authorized_caps = record {
      gas_limit = parsed.gas_limit;
      max_fee_per_gas = parsed.max_fee_per_gas;
      max_priority_fee_per_gas = parsed.max_priority_fee_per_gas;
      maximum_network_fee_wei = to_quantity maximum_network_fee;
    };
    prepared_access_list = default_to [] input.prepared_access_list;
    adjustment_policy = AdjustmentPolicy.bounded_no_increase;
  })
