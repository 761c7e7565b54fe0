-- ===== src/Fee/Prepared.antt =====
-- The transaction that was prepared is always within its own authorization.
use edict.Prelude.{◌≡◌, refl, true, none, some, List, [], ◌∷◌, String, arith, str_eq, str_eq_refl}
use edict.Execution.Result.{ok}
use edict.Fee.Schema.{
  AccessListEntry, FeeAuthorization, RawFeeFields, Type2FeeFields, type2_fields, same_texts,
  same_access_list, is_fee_authorization, is_incoherent, are_fee_values, parse_actual_fee_fields,
  parse_type2,
}
use edict.Fee.Evaluation.{evaluate_fee_authorization}
use edict.Fee.Caps.{is_accepted, evaluate_type2_iff}

same_texts_refl : (texts : List String) → same_texts texts texts ≡ true
unfolding same_texts
same_texts_refl [] = refl
same_texts_refl (text ∷ texts) = ground (arith, str_eq_refl text, same_texts_refl texts)

same_access_list_refl : (entries : List AccessListEntry) → same_access_list entries entries ≡ true
unfolding same_access_list
same_access_list_refl [] = refl
same_access_list_refl (entry ∷ entries) = ground (
  arith,
  str_eq_refl entry.address,
  same_texts_refl entry.storage_keys,
  same_access_list_refl entries,
)

-- the fee fields of the transaction as it was prepared
abbrev pub prepared_fields : FeeAuthorization → RawFeeFields
prepared_fields authorization = record {
  transaction_type = some "0x2";
  gas_limit = some authorization.prepared_defaults.gas_limit;
  gas_price = none;
  max_fee_per_gas = some authorization.prepared_defaults.max_fee_per_gas;
  max_priority_fee_per_gas = some authorization.prepared_defaults.max_priority_fee_per_gas;
  access_list = some authorization.prepared_access_list;
  base_fee_per_gas = none;
}

abbrev prepared_type2 : FeeAuthorization → Type2FeeFields
prepared_type2 authorization = record {
  gas_limit = authorization.prepared_defaults.gas_limit;
  max_fee_per_gas = authorization.prepared_defaults.max_fee_per_gas;
  max_priority_fee_per_gas = authorization.prepared_defaults.max_priority_fee_per_gas;
  access_list = authorization.prepared_access_list;
}

parse-prepared_fields :
    (authorization : FeeAuthorization)
    → is_fee_authorization authorization ≡ true
    → parse_actual_fee_fields (prepared_fields authorization)
      ≡ ok (type2_fields (prepared_type2 authorization))
unfolding parse_actual_fee_fields parse_type2 is_fee_authorization are_fee_values str_eq
parse-prepared_fields authorization w = ground arith

-- Under a valid authorization, whatever its policy, the transaction with the prepared fees and the
-- prepared access list is accepted.
pub prepared_accepted :
    (authorization : FeeAuthorization)
    → is_fee_authorization authorization ≡ true
    → is_accepted (evaluate_fee_authorization authorization (prepared_fields authorization)) ≡ true
unfolding is_fee_authorization is_incoherent
prepared_accepted authorization w =
    rw
      (evaluate_type2_iff authorization (prepared_fields authorization)
        (prepared_type2 authorization) w (parse-prepared_fields authorization w))
      (ground (arith, same_access_list_refl authorization.prepared_access_list))
