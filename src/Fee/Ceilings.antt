-- ===== src/Fee/Ceilings.antt =====
-- When the caps of a prepared transaction are granted, and how high they are.
use edict.Prelude.{
  ℕ, ◌*◌, ◌^◌, ◌≤◌, ◌<◌, ◌≡◌, refl, true, false, not, ◌&&◌, [], ltb, leb, default_to, arith,
}
use native.Mathlib.Nat.{mul-le-mul}
use edict.Text.Quantity.{big_int}
use edict.Text.Quantity.Printed.{big_int-to_quantity, is_quantity-to_quantity}
use edict.Execution.Result.{ok, is_ok}
use edict.Fee.Schema.{
  FeeValues, FeeAuthorization, AdjustmentPolicy, are_fee_values, are_fee_caps, is_access_list,
  is_fee_authorization, is_incoherent, is_increased, parse_fee_authorization, max_uint256,
}
use edict.Fee.Policy.{
  FeeInput, gas_cap, max_fee_cap, priority_fee_cap, caps_of, exceeds_policy,
  create_server_bounded_fee_authorization, gas_limit_ceiling, max_fee_ceiling, priority_fee_ceiling,
  network_fee_ceiling,
}

gas_cap_lem :
    (n : ℕ) → (gas_cap n ≤ gas_limit_ceiling) × (ltb (gas_cap n) n ≡ not (leb n gas_limit_ceiling))
unfolding gas_cap
gas_cap_lem n = ground arith

max_fee_cap_lem :
    (n : ℕ)
    → (max_fee_cap n ≤ max_fee_ceiling)
      × (priority_fee_ceiling ≤ max_fee_cap n)
      × (ltb (max_fee_cap n) n ≡ not (leb n max_fee_ceiling))
unfolding max_fee_cap
max_fee_cap_lem n = ground arith

priority_fee_cap_lem :
    (n fee : ℕ) → priority_fee_ceiling ≤ fee → priority_fee_cap n fee ≡ priority_fee_ceiling
unfolding priority_fee_cap
priority_fee_cap_lem n fee h = ground arith

network_fee_lem :
    (gas fee : ℕ)
    → gas ≤ gas_limit_ceiling
    → fee ≤ max_fee_ceiling
    → gas * fee ≤ gas_limit_ceiling * max_fee_ceiling
network_fee_lem gas fee g f = mul-le-mul g f

-- Printed caps within 256 bits, over the prepared values and coherent, satisfy the schema.
caps_of-valid :
    (values : FeeValues) (gas fee priority : ℕ)
    → gas < 2 ^ 256
    → fee < 2 ^ 256
    → priority < 2 ^ 256
    → gas * fee ≤ max_uint256
    → are_fee_caps (caps_of gas fee priority) ≡ true
unfolding are_fee_caps
caps_of-valid values gas fee priority g f p n = ground (
  arith,
  is_quantity-to_quantity gas g,
  is_quantity-to_quantity fee f,
  is_quantity-to_quantity priority p,
  is_quantity-to_quantity (gas * fee) (omega arith),
)

-- the record that `create_server_bounded_fee_authorization` gives to the schema
abbrev server_record : FeeInput → (gas fee priority : ℕ) → FeeAuthorization
server_record input gas fee priority = record {
  prepared_defaults = input.values;
  authorized_caps = caps_of gas fee priority;
  prepared_access_list = default_to [] input.prepared_access_list;
  adjustment_policy = AdjustmentPolicy.server_bounded_headroom;
}

-- Over caps that exceed nothing, the schema asks only that the priority fee is within the fee.
is_incoherent-server_record :
    (input : FeeInput) (gas fee priority : ℕ)
    → priority ≤ fee
    → exceeds_policy input.values gas fee priority ≡ false
    → is_incoherent (server_record input gas fee priority)
      ≡ ltb (big_int input.values.max_fee_per_gas) (big_int input.values.max_priority_fee_per_gas)
unfolding is_incoherent is_increased exceeds_policy
is_incoherent-server_record input gas fee priority p h =
    rw
      (
        big_int-to_quantity gas,
        big_int-to_quantity fee,
        big_int-to_quantity priority,
        big_int-to_quantity (gas * fee),
      )
      (ground arith)

-- the caps that the policy computes exceed nothing exactly when the prepared values are within the
-- ceilings
exceeds_policy-ceilings :
    (values : FeeValues) (gas fee priority : ℕ)
    → gas ≡ gas_cap (big_int values.gas_limit)
    → fee ≡ max_fee_cap (big_int values.max_fee_per_gas)
    → priority ≡ priority_fee_cap (big_int values.max_priority_fee_per_gas) fee
    → exceeds_policy values gas fee priority
      ≡ not (
          leb (big_int values.gas_limit) gas_limit_ceiling
          && leb (big_int values.max_fee_per_gas) max_fee_ceiling
          && leb (big_int values.max_priority_fee_per_gas) priority_fee_ceiling)
unfolding exceeds_policy
exceeds_policy-ceilings values gas fee priority g f p =
    let gas_bound = gas_cap_lem (big_int values.gas_limit) in
    let fee_bound = max_fee_cap_lem (big_int values.max_fee_per_gas) in
    let priority_bound =
      priority_fee_cap_lem (big_int values.max_priority_fee_per_gas) fee
        (omega (arith, fee_bound.1, f)) in
    let product =
      network_fee_lem gas fee (omega (arith, g, gas_bound.0)) (omega (arith, f, fee_bound.0)) in
    ground (arith, gas_bound, fee_bound, priority_bound, product)

module _ (input : FeeInput) where
  -- the three caps of the policy, as opaque numbers with what is known of them
  PolicyCaps : ℕ → ℕ → ℕ → Type 0
  PolicyCaps gas fee priority =
      (gas ≤ gas_limit_ceiling)
      × (fee ≤ max_fee_ceiling)
      × (priority ≤ priority_fee_ceiling)
      × (priority ≤ fee)
      × (gas * fee ≤ gas_limit_ceiling * max_fee_ceiling)

  policy-PolicyCaps :
      (let fee = max_fee_cap (big_int input.values.max_fee_per_gas) in
        PolicyCaps
          (gas_cap (big_int input.values.gas_limit))
          fee
          (priority_fee_cap (big_int input.values.max_priority_fee_per_gas) fee))
  unfolding PolicyCaps
  policy-PolicyCaps =
      let gas_bound = gas_cap_lem (big_int input.values.gas_limit) in
      let fee_bound = max_fee_cap_lem (big_int input.values.max_fee_per_gas) in
      let fee = max_fee_cap (big_int input.values.max_fee_per_gas) in
      let priority_bound =
        priority_fee_cap_lem (big_int input.values.max_priority_fee_per_gas) fee fee_bound.1 in
      (
        gas_bound.0,
        fee_bound.0,
        omega (arith, priority_bound),
        omega (arith, priority_bound, fee_bound.1),
        network_fee_lem _ _ gas_bound.0 fee_bound.0,
      )

  -- For prepared values and an access list that the schemas accept, caps are granted exactly when
  -- the prepared gas limit, maximum fee and priority fee are each within the ceiling of the policy
  -- and the priority fee is within the maximum fee. The ceiling on the network fee and the bound of
  -- 256 bits then hold by themselves.
  pub server_bounded_iff :
      are_fee_values input.values ≡ true
      → is_access_list (default_to [] input.prepared_access_list) ≡ true
      → is_ok (create_server_bounded_fee_authorization input) ≡ (
          leb (big_int input.values.gas_limit) gas_limit_ceiling
          && leb (big_int input.values.max_fee_per_gas) max_fee_ceiling
          && leb (big_int input.values.max_priority_fee_per_gas) priority_fee_ceiling
          && leb
              (big_int input.values.max_priority_fee_per_gas)
              (big_int input.values.max_fee_per_gas))
  unfolding create_server_bounded_fee_authorization parse_fee_authorization is_fee_authorization
      PolicyCaps
  server_bounded_iff v l =
      let gas = gas_cap (big_int input.values.gas_limit) in
      let fee = max_fee_cap (big_int input.values.max_fee_per_gas) in
      let priority = priority_fee_cap (big_int input.values.max_priority_fee_per_gas) fee in
      let caps = policy-PolicyCaps in
      let valid =
        caps_of-valid input.values gas fee priority (omega (arith, caps.0)) (omega (arith, caps.1))
          (omega (arith, caps.2)) (omega (arith, caps.4)) in
      let exceeds = exceeds_policy-ceilings input.values gas fee priority refl refl refl in
      let coherent = is_incoherent-server_record input gas fee priority caps.3 in
      ground (arith, caps, valid, exceeds, coherent)

  -- Granted caps keep the prepared values, which are within them; each cap is within its ceiling of
  -- the policy, and the cap on the network fee is the product of the gas limit's and the maximum
  -- fee's, which is within the ceiling on the network fee.
  pub server_bounded_caps :
      {authorization : FeeAuthorization}
      → create_server_bounded_fee_authorization input ≡ ok authorization
      → (authorization.prepared_defaults ≡ input.values)
        × (big_int input.values.gas_limit ≤ big_int authorization.authorized_caps.gas_limit)
        × (big_int authorization.authorized_caps.gas_limit ≤ gas_limit_ceiling)
        × (big_int input.values.max_fee_per_gas
            ≤ big_int authorization.authorized_caps.max_fee_per_gas)
        × (big_int authorization.authorized_caps.max_fee_per_gas ≤ max_fee_ceiling)
        × (big_int input.values.max_priority_fee_per_gas
            ≤ big_int authorization.authorized_caps.max_priority_fee_per_gas)
        × (big_int authorization.authorized_caps.max_priority_fee_per_gas ≤ priority_fee_ceiling)
        × (big_int authorization.authorized_caps.maximum_network_fee_wei
            ≡ big_int authorization.authorized_caps.gas_limit
              * big_int authorization.authorized_caps.max_fee_per_gas)
        × (big_int authorization.authorized_caps.maximum_network_fee_wei ≤ network_fee_ceiling)
  unfolding create_server_bounded_fee_authorization parse_fee_authorization PolicyCaps
      exceeds_policy
  server_bounded_caps h =
      let gas = gas_cap (big_int input.values.gas_limit) in
      let fee = max_fee_cap (big_int input.values.max_fee_per_gas) in
      let priority = priority_fee_cap (big_int input.values.max_priority_fee_per_gas) fee in
      ground (
        arith,
        policy-PolicyCaps,
        big_int-to_quantity gas,
        big_int-to_quantity fee,
        big_int-to_quantity priority,
        big_int-to_quantity (gas * fee),
      )
