-- ===== src/Wallet/Canonical.antt =====
-- What the projection of a prepared transaction guarantees: src/shared/wallet/transaction.ts.
use edict.Prelude.{
  ◌≡◌, ◌⊎◌, ℕ, ◌≤◌, String, true, false, refl, str_eq_iff, Option, none, some, arith,
}
use edict.Text.Quantity.{is_quantity, big_int}
use edict.Text.Quantity.Printed.{big_int-to_quantity, is_quantity-to_quantity}
use edict.Core.Json.{Json, Fields, num, text, obj}
use edict.Text.Numeral.{is_decimal, decimal_int, is_hex_numeral}
use edict.Execution.Result.{ok}
use edict.Fee.Schema.{max_uint256}
use edict.Wallet.Transaction.{
  number_of_text, number_of_wrapper, read, number_of, is_text, hex_of, bounded_quantity, quantity,
}

bounded_quantity-canonical :
    (n : Option ℕ) (s : String)
    → bounded_quantity n ≡ ok s
    → (is_quantity s ≡ true) × (n ≡ some (big_int s)) × (big_int s ≤ max_uint256)
unfolding bounded_quantity
bounded_quantity-canonical none s h = ground arith
bounded_quantity-canonical (some n) s h =
    ground (arith, big_int-to_quantity n, is_quantity-to_quantity n)

-- The number that a JSON value stands for: a safe integer that is not negative, a decimal numeral, a
-- hexadecimal numeral, or the numeral in a wrapper.
abbrev pub Denotes : Json → ℕ → Type 0
Denotes (num negative n) value = (n ≡ value) × (negative ≡ true → n ≡ 0)
Denotes (text s) value =
    ((is_decimal s ≡ true) × (decimal_int s ≡ value))
    ⊎ ((is_hex_numeral s ≡ true) × (big_int s ≡ value))
Denotes (obj fields) value =
    (read fields "type" ≡ some (text "BigNumber"))
    × ((s : String) × (read fields "hex" ≡ some (text s))
        × (is_hex_numeral s ≡ true)
        × (big_int s ≡ value))
Denotes _ value = ⊥

number_of_text-Denotes :
    (s : String) (value : ℕ) → number_of_text s ≡ some value → Denotes (text s) value
unfolding number_of_text
number_of_text-Denotes s value h = ground arith

is_text-eq : (s : String) (value : Option Json) → is_text s value ≡ true → value ≡ some (text s)
is_text-eq s (some (text t)) h = ground (arith, str_eq_iff t s)
is_text-eq s none h = ground arith
is_text-eq s (some _) h = ground arith

hex_of-Numeral :
    (raw : Option Json) (value : ℕ)
    → hex_of raw ≡ some value
    → (s : String) × (raw ≡ some (text s)) × (is_hex_numeral s ≡ true) × (big_int s ≡ value)
hex_of-Numeral (some (text s)) value h = (s, refl, ground arith, ground arith)
hex_of-Numeral none value h = ground arith
hex_of-Numeral (some _) value h = ground arith

number_of_wrapper-Denotes :
    (fields : Fields) (value : ℕ)
    → number_of_wrapper fields ≡ some value
    → Denotes (obj fields) value
unfolding number_of_wrapper
number_of_wrapper-Denotes fields value h = (
  is_text-eq "BigNumber" (read fields "type") (ground arith),
  hex_of-Numeral (read fields "hex") value (ground arith),
)

number_of-Denotes : (raw : Json) (value : ℕ) → number_of raw ≡ some value → Denotes raw value
unfolding number_of
number_of-Denotes (num true n) value h = ground arith
number_of-Denotes (num false n) value h = ground arith
number_of-Denotes (text s) value h = number_of_text-Denotes s value h
number_of-Denotes (obj fields) value h = number_of_wrapper-Denotes fields value h
number_of-Denotes _ value h = ground arith

-- A quantity that is accepted stands for a number of 256 bits at most: a number that is not negative,
-- a decimal or hexadecimal numeral, or a hexadecimal numeral in a wrapper of type BigNumber; and its
-- canonical form, which the schema accepts, reads back as that number.
pub quantity-Denotes :
    (raw : Json) (s : String)
    → quantity raw ≡ ok s
    → Denotes raw (big_int s) × (is_quantity s ≡ true) × (big_int s ≤ max_uint256)
unfolding quantity
quantity-Denotes raw s h =
    let (canonical, same, bounded) = bounded_quantity-canonical (number_of raw) s h in
    (number_of-Denotes raw (big_int s) same, canonical, bounded)
