-- ===== src/Text/Numeral.antt =====
-- Decimal numerals, hexadecimal numerals in either case, calldata and prefixes of a text: the other
-- regular expressions of src/shared/wallet/transaction.ts and
-- src/shared/wallet/execution-authorization.ts.
use edict.Prelude.{
  ℕ, zero, suc, ◌+◌, ◌-◌, ◌*◌, String, Bool, true, false, ◌&&◌, List, [], ◌∷◌, ltb, leb, all,
  if◌then◌else◌,
}
use edict.Text.{codes, is_digit, is_hex, is_hex_lower, after_0x}

-- `(?:0|[1-9][0-9]*)$`
decimal_digits : List ℕ → Bool
decimal_digits [] = false
decimal_digits (c ∷ []) = is_digit c
decimal_digits (c ∷ d ∷ cs) = ltb b'0' c && is_digit c && all is_digit (d ∷ cs)

-- `/^(?:0|[1-9][0-9]*)$/`
unfoldable pub is_decimal : String → Bool
unfolding decimal_digits
is_decimal s = decimal_digits (codes s)

decimal_value : ℕ → List ℕ → ℕ
decimal_value acc [] = acc
decimal_value acc (c ∷ cs) = decimal_value (acc * 10 + (c - 48)) cs

-- `BigInt(text)` of a decimal numeral
unfoldable pub decimal_int : String → ℕ
unfolding decimal_value
decimal_int s = decimal_value 0 (codes s)

some_hex : List ℕ → Bool
some_hex [] = false
some_hex (c ∷ cs) = all is_hex (c ∷ cs)

-- `/^0x[0-9a-fA-F]+$/`
unfoldable pub is_hex_numeral : String → Bool
unfolding some_hex after_0x
is_hex_numeral s = after_0x some_hex (codes s)

-- `(?:[class]{2})*$`
pairs : (ℕ → Bool) → List ℕ → Bool
pairs p [] = true
pairs p (c ∷ []) = false
pairs p (c ∷ d ∷ cs) = p c && p d && pairs p cs

-- `/^0x(?:[0-9a-fA-F]{2})*$/`
unfoldable pub is_data_any_case : String → Bool
unfolding pairs after_0x
is_data_any_case s = after_0x (pairs is_hex) (codes s)

-- `/^0x(?:[0-9a-f]{2})*$/`
unfoldable pub is_data : String → Bool
unfolding pairs after_0x
is_data s = after_0x (pairs is_hex_lower) (codes s)

-- UTF-16 code units: a code point outside the basic plane takes two
code_units : List ℕ → ℕ
code_units [] = 0
code_units (c ∷ cs) = (if leb c 65535 then 1 else 2) + code_units cs

-- `text.length`
unfoldable pub text_length : String → ℕ
unfolding code_units
text_length s = code_units (codes s)

-- `text.slice(0, n)`
unfoldable pub prefix : ℕ → String → String
prefix zero s = String.[]
prefix (suc n) String.[] = String.[]
prefix (suc n) (String.◌∷◌ c s) = String.◌∷◌ c (prefix n s)

-- `z.string().min(1).max(n)`
unfoldable pub is_bounded : ℕ → String → Bool
unfolding text_length
is_bounded n s = leb 1 (text_length s) && leb (text_length s) n

-- `identifier`: `z.string().min(1).max(1_024)`
abbrev pub is_identifier : String → Bool
is_identifier s = is_bounded 1024 s
