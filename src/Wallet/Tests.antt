-- ===== src/Wallet/Tests.antt =====
-- The theorem on quantities, applied to a wrapper.
use edict.Prelude.{◌≡◌, ◌≤◌, refl, true, str_eq}
use edict.Text.Quantity.{is_quantity, big_int, to_quantity}
use edict.Text.Numeral.{is_decimal, decimal_int, is_hex_numeral, text_length}
use edict.Core.Json.{Json, text, obj, field, end}
use edict.Execution.Result.{ok}
use edict.Fee.Schema.{max_uint256}
use edict.Wallet.Transaction.{
  read, number_of_wrapper, number_of, number_of_text, bounded_quantity, quantity,
}
use edict.Wallet.Canonical.{Denotes, quantity-Denotes}

-- To unfold this is to read a quantity.
reading : Unit {0}
unfolding quantity bounded_quantity number_of number_of_text number_of_wrapper read str_eq big_int
    is_decimal decimal_int is_hex_numeral text_length to_quantity
reading = tt

abbrev wrapper : Json
wrapper = obj (field "type" (text "BigNumber") (field "hex" (text "0x03E8") end))

wrapper_accepted : quantity wrapper ≡ ok "0x3e8"
unfolding reading
wrapper_accepted = refl

quantity-Denotes_example :
    Denotes wrapper (big_int "0x3e8")
    × (is_quantity "0x3e8" ≡ true)
    × (big_int "0x3e8" ≤ max_uint256)
quantity-Denotes_example = quantity-Denotes wrapper "0x3e8" wrapper_accepted
