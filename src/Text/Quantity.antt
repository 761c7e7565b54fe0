-- ===== src/Text/Quantity.antt =====
-- Hexadecimal quantities: the schema `quantity`, `BigInt` of such a text and
-- `0x${value.toString(16)}` (src/shared/wallet/execution-authorization.ts,
-- src/server/orchestration/fee-authorization-policy.ts).
pub mod Printed
use Prim.Native.Char.{Char}
use edict.Prelude.{
  ℕ, zero, suc, ◌+◌, ◌-◌, ◌*◌, ◌/◌, ◌%◌, String, Bool, true, false, ◌&&◌, List, [], ◌∷◌, ltb, leb,
  ◌==◌, ◌||◌, length, if◌then◌else◌,
}
use edict.Text.{codes, is_hex, is_hex_lower, after_0x}

-- `[0-9a-f]*$`
unfoldable pub all_hex : List ℕ → Bool
all_hex [] = true
all_hex (c ∷ cs) = is_hex_lower c && all_hex cs

-- `(?:0|[1-9a-f][0-9a-f]*)$`
unfoldable pub is_quantity_digits : List ℕ → Bool
is_quantity_digits [] = false
is_quantity_digits (c ∷ []) = is_hex_lower c
is_quantity_digits (c ∷ d ∷ cs) = ltb b'0' c && is_hex_lower c && all_hex (d ∷ cs)

-- `z.string().max(66).regex(/^0x(?:0|[1-9a-f][0-9a-f]*)$/)`
unfoldable pub is_quantity : String → Bool
unfolding is_quantity_digits all_hex after_0x
is_quantity s = leb (length (codes s)) 66 && after_0x is_quantity_digits (codes s)

-- `/^0x(?:0|[1-9a-f][0-9a-f]*)$/i`, of any length
all_hex_any_case : List ℕ → Bool
all_hex_any_case [] = true
all_hex_any_case (c ∷ cs) = is_hex c && all_hex_any_case cs

quantity_digits_any_case : List ℕ → Bool
quantity_digits_any_case [] = false
quantity_digits_any_case (c ∷ []) = is_hex c
quantity_digits_any_case (c ∷ d ∷ cs) = ltb b'0' c && is_hex c && all_hex_any_case (d ∷ cs)

after_0x_any_case : List ℕ → Bool
after_0x_any_case (a ∷ b ∷ cs) =
    a == b'0' && (b == b'x' || b == b'X') && quantity_digits_any_case cs
after_0x_any_case _ = false

unfoldable pub is_quantity_any_case : String → Bool
unfolding after_0x_any_case quantity_digits_any_case all_hex_any_case
is_quantity_any_case s = after_0x_any_case (codes s)

-- the value of one hexadecimal digit, in either case
unfoldable pub digit_value : ℕ → ℕ
digit_value c = if leb c b'9' then c - 48 else if leb c b'F' then c - 55 else c - 87

unfoldable pub hex_value : ℕ → List ℕ → ℕ
hex_value acc [] = acc
hex_value acc (c ∷ cs) = hex_value (acc * 16 + digit_value c) cs

unfoldable pub value_after_0x : List ℕ → ℕ
value_after_0x (a ∷ b ∷ cs) = hex_value 0 cs
value_after_0x _ = 0

-- `BigInt(text)` of a quantity
unfoldable pub big_int : String → ℕ
unfolding hex_value digit_value value_after_0x
big_int s = value_after_0x (codes s)

unfoldable pub hex_digit : ℕ → Char
hex_digit d =
    if d == 0
    then "0"
    else if d == 1
    then "1"
    else if d == 2
    then "2"
    else if d == 3
    then "3"
    else if d == 4
    then "4"
    else if d == 5
    then "5"
    else if d == 6
    then "6"
    else if d == 7
    then "7"
    else if d == 8
    then "8"
    else if d == 9
    then "9"
    else if d == 10
    then "a"
    else if d == 11
    then "b"
    else if d == 12
    then "c"
    else if d == 13
    then "d"
    else if d == 14
    then "e"
    else "f"

-- `value.toString(16)` in front of `acc`; a digit takes one unit of fuel, and `value` units are
-- enough, since a sixteenth of a number that is not below 16 is below the number.
unfoldable pub hex_text : ℕ → ℕ → String → String
hex_text zero n acc = String.◌∷◌ (hex_digit n) acc
hex_text (suc fuel) n acc = elim (ltb n 16) [
  | true ↦ String.◌∷◌ (hex_digit n) acc
  | false ↦ hex_text fuel (n / 16) (String.◌∷◌ (hex_digit (n % 16)) acc)
]

-- `0x${value.toString(16)}`
unfoldable pub to_quantity : ℕ → String
unfolding hex_text hex_digit
to_quantity n = String.◌∷◌ "0" (String.◌∷◌ "x" (hex_text n n String.[]))
