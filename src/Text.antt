-- ===== src/Text.antt =====
-- The texts of the program: character classes, the regular expressions of the sources and
-- `toLowerCase`, over code points. A regular expression is a function on the list of code points.
pub mod Time
pub mod Quantity
pub mod Numeral
use Prim.Native.Char.{Char, code}
use edict.Prelude.{
  ℕ, zero, suc, String, Bool, true, false, ◌&&◌, ◌||◌, List, [], ◌∷◌, leb, ◌==◌, if◌then◌else◌,
}

-- The code points of a text. `String` has its own `[]` and `∷`.
abbrev pub codes : String → List ℕ
codes String.[] = []
codes (String.◌∷◌ c s) = code c ∷ codes s

-- `[0-9]`
abbrev pub is_digit : ℕ → Bool
is_digit c = leb b'0' c && leb c b'9'

-- `[0-9a-f]`
abbrev pub is_hex_lower : ℕ → Bool
is_hex_lower c = is_digit c || (leb b'a' c && leb c b'f')

-- `[0-9a-fA-F]`
abbrev pub is_hex : ℕ → Bool
is_hex c = is_hex_lower c || (leb b'A' c && leb c b'F')

-- `^[class]{n}$`
pub exactly : ℕ → (ℕ → Bool) → List ℕ → Bool
exactly zero p [] = true
exactly zero p (c ∷ cs) = false
exactly (suc n) p [] = false
exactly (suc n) p (c ∷ cs) = p c && exactly n p cs

-- `0x` in front of the rest
unfoldable pub after_0x : (List ℕ → Bool) → List ℕ → Bool
after_0x rest (a ∷ b ∷ cs) = a == b'0' && b == b'x' && rest cs
after_0x rest _ = false

-- `/^0x[0-9a-fA-F]{64}$/`: `TX_HASH` of transitions.ts
unfoldable pub is_tx_hash_any_case : String → Bool
unfolding exactly after_0x
is_tx_hash_any_case s = after_0x (exactly 64 is_hex) (codes s)

-- `/^0x[0-9a-f]{64}$/`: `TX_HASH` of v4-transitions.ts, `hash32` of the evidence schemas
unfoldable pub is_tx_hash : String → Bool
unfolding exactly after_0x
is_tx_hash s = after_0x (exactly 64 is_hex_lower) (codes s)

-- `/^0x[0-9a-f]{40}$/`: `WALLET` of transitions.ts
unfoldable pub is_wallet : String → Bool
unfolding exactly after_0x
is_wallet s = after_0x (exactly 40 is_hex_lower) (codes s)

-- `^prefix` in front of the rest
pub after : List ℕ → (List ℕ → Bool) → List ℕ → Bool
after [] rest cs = rest cs
after (p ∷ ps) rest [] = false
after (p ∷ ps) rest (c ∷ cs) = c == p && after ps rest cs

-- `/^sha256:[0-9a-f]{64}$/`
unfoldable pub is_sha256 : String → Bool
unfolding exactly after
is_sha256 s = after (codes "sha256:") (exactly 64 is_hex_lower) (codes s)

-- `toLowerCase` of one character. Letters outside ASCII are left alone: the callers test the result
-- against a class of ASCII characters, which refuses these letters in either case.
lower_char : Char → Char
lower_char c =
    let n = code c in
    if n == b'A'
    then "a"
    else if n == b'B'
    then "b"
    else if n == b'C'
    then "c"
    else if n == b'D'
    then "d"
    else if n == b'E'
    then "e"
    else if n == b'F'
    then "f"
    else if n == b'G'
    then "g"
    else if n == b'H'
    then "h"
    else if n == b'I'
    then "i"
    else if n == b'J'
    then "j"
    else if n == b'K'
    then "k"
    else if n == b'L'
    then "l"
    else if n == b'M'
    then "m"
    else if n == b'N'
    then "n"
    else if n == b'O'
    then "o"
    else if n == b'P'
    then "p"
    else if n == b'Q'
    then "q"
    else if n == b'R'
    then "r"
    else if n == b'S'
    then "s"
    else if n == b'T'
    then "t"
    else if n == b'U'
    then "u"
    else if n == b'V'
    then "v"
    else if n == b'W'
    then "w"
    else if n == b'X'
    then "x"
    else if n == b'Y'
    then "y"
    else if n == b'Z'
    then "z"
    else c

-- `toLowerCase`
unfoldable pub lower : String → String
unfolding lower_char
lower String.[] = String.[]
lower (String.◌∷◌ c s) = String.◌∷◌ (lower_char c) (lower s)
