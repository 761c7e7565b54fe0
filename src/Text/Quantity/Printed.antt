-- ===== src/Text/Quantity/Printed.antt =====
-- A number that is printed as a hexadecimal quantity is read back as itself.
use Prim.Native.Char.{code}
use native.Mathlib.Nat.{pow-suc}
use edict.Prelude.{
  ℕ, zero, suc, ◌+◌, ◌*◌, ◌/◌, ◌%◌, ◌^◌, ◌≤◌, ◌<◌, ◌≡◌, ◌⊎◌, inl, inr, refl, ap, ◌∙◌, String, Bool,
  true, ◌&&◌, List, [], ◌∷◌, length, ltb, leb, ◌==◌, ◌||◌, arith,
}
use edict.Text.{codes, is_hex_lower, after_0x}
use edict.Text.Quantity.{
  all_hex, is_quantity_digits, is_quantity, digit_value, hex_value, value_after_0x, big_int,
  hex_digit, hex_text, to_quantity,
}

hex_text-end :
    (fuel n : ℕ) (acc : String) → n < 16 → hex_text fuel n acc ≡ String.◌∷◌ (hex_digit n) acc
unfolding hex_text
hex_text-end zero n acc h = refl
hex_text-end (suc fuel) n acc h = ground arith

hex_text-suc :
    (fuel n : ℕ) (acc : String)
    → 16 ≤ n
    → hex_text (suc fuel) n acc ≡ hex_text fuel (n / 16) (String.◌∷◌ (hex_digit (n % 16)) acc)
unfolding hex_text
hex_text-suc fuel n acc h = ground arith

-- A test on the numbers below a bound, one after the other.
unfoldable all_below : ℕ → (ℕ → Bool) → Bool
all_below zero p = true
all_below (suc n) p = p n && all_below n p

below_cases : (d n : ℕ) → d < suc n → (n ≡ d) ⊎ (d < n)
below_cases d n h = ground arith

all_below_sound : (n : ℕ) (p : ℕ → Bool) (d : ℕ) → all_below n p ≡ true → d < n → p d ≡ true
unfolding all_below
all_below_sound zero p d h l = ground arith
all_below_sound (suc n) p d h l = elim (below_cases d n l) [
  | inl same ↦ rw (← same) (ground arith)
  | inr below ↦ all_below_sound n p d (ground arith) below
]

-- a digit stands for its value, is one of the schema's digits, and leads a number unless it is zero
digit_test : ℕ → Bool
digit_test d =
    let c = code (hex_digit d) in (digit_value c == d) && is_hex_lower c && (leb d 0 || ltb b'0' c)

digits_tested : all_below 16 digit_test ≡ true
unfolding all_below digit_test hex_digit digit_value
digits_tested = refl

hex_digit-tested : (d : ℕ) → d < 16 → digit_test d ≡ true
hex_digit-tested d h = all_below_sound 16 digit_test d digits_tested h

hex_digit-value : (d : ℕ) → d < 16 → digit_value (code (hex_digit d)) ≡ d
unfolding digit_test
hex_digit-value d h = ground (arith, hex_digit-tested d h)

hex_digit-hex : (d : ℕ) → d < 16 → is_hex_lower (code (hex_digit d)) ≡ true
unfolding digit_test
hex_digit-hex d h = ground (arith, hex_digit-tested d h)

hex_digit-positive : (d : ℕ) → 0 < d → d < 16 → ltb b'0' (code (hex_digit d)) ≡ true
unfolding digit_test
hex_digit-positive d p h = ground (arith, hex_digit-tested d h)

split16 : (n : ℕ) → (n < 16) ⊎ (16 ≤ n)
split16 n = ground arith

hex_value-digit :
    (m d v : ℕ) (acc : String)
    → d < 16
    → m * 16 + d ≡ v
    → hex_value m (codes (String.◌∷◌ (hex_digit d) acc)) ≡ hex_value v (codes acc)
unfolding hex_value
hex_value-digit m d v acc h e =
    ap (λ u. hex_value (m * 16 + u) (codes acc)) (hex_digit-value d h)
    ∙ ap (λ u. hex_value u (codes acc)) e

-- Reading the printed digits of a number continues with the number as the value read so far.
hex_value-hex_text :
    (fuel n : ℕ) (acc : String)
    → n ≤ fuel
    → hex_value 0 (codes (hex_text fuel n acc)) ≡ hex_value n (codes acc)
hex_value-hex_text zero n acc h =
    rw (hex_text-end zero n acc (omega arith))
      (hex_value-digit 0 n n acc (omega arith) (omega arith))
hex_value-hex_text (suc fuel) n acc h = elim (split16 n) [
  | inl small ↦
      rw (hex_text-end (suc fuel) n acc small) (hex_value-digit 0 n n acc small (omega arith))
  | inr large ↦
      let digit = n % 16 in
      let read =
        hex_value-hex_text fuel (n / 16) (String.◌∷◌ (hex_digit digit) acc) (omega arith) in
      rw (hex_text-suc fuel n acc large)
        (read ∙ hex_value-digit (n / 16) digit n acc (omega arith) (omega arith))
]

-- A number that is printed as a quantity is read back as itself.
pub big_int-to_quantity : (n : ℕ) → big_int (to_quantity n) ≡ n
unfolding big_int to_quantity value_after_0x hex_value
big_int-to_quantity n = hex_value-hex_text n n String.[] (omega arith)

is_quantity_digits-lead :
    (c : ℕ) (cs : List ℕ)
    → ltb b'0' c ≡ true
    → is_hex_lower c ≡ true
    → all_hex cs ≡ true
    → is_quantity_digits (c ∷ cs) ≡ true
unfolding is_quantity_digits
is_quantity_digits-lead c [] p h a = h
is_quantity_digits-lead c (d ∷ cs) p h a = ground arith

all_hex-digit :
    (c : ℕ) (cs : List ℕ) → is_hex_lower c ≡ true → all_hex cs ≡ true → all_hex (c ∷ cs) ≡ true
unfolding all_hex
all_hex-digit c cs h a = ground arith

-- The printed digits of a number that is not zero: no leading zero, only digits of the schema.
is_quantity_digits-hex_text :
    (fuel n : ℕ) (acc : String)
    → n ≤ fuel
    → 0 < n
    → all_hex (codes acc) ≡ true
    → is_quantity_digits (codes (hex_text fuel n acc)) ≡ true
is_quantity_digits-hex_text zero n acc h p a = ground arith
is_quantity_digits-hex_text (suc fuel) n acc h p a = elim (split16 n) [
  | inl small ↦ rw (hex_text-end (suc fuel) n acc small) (
      is_quantity_digits-lead (code (hex_digit n)) (codes acc) (hex_digit-positive n p small)
        (hex_digit-hex n small) a)
  | inr large ↦ rw (hex_text-suc fuel n acc large) (
      is_quantity_digits-hex_text fuel (n / 16) (String.◌∷◌ (hex_digit (n % 16)) acc) (omega arith)
        (omega arith)
        (all_hex-digit (code (hex_digit (n % 16))) (codes acc)
          (hex_digit-hex (n % 16) (omega arith)) a))
]

one_digit :
    (k d : ℕ) (acc : String)
    → length (codes (String.◌∷◌ (hex_digit d) acc)) ≤ suc k + length (codes acc)
one_digit k d acc = omega arith

-- A number below a power of sixteen has no more digits than the exponent.
length-hex_text :
    (k fuel n : ℕ) (acc : String)
    → n < 16 ^ suc k
    → length (codes (hex_text fuel n acc)) ≤ suc k + length (codes acc)
unfolding hex_text
length-hex_text k zero n acc h = one_digit k n acc
length-hex_text zero (suc fuel) n acc h =
    rw (hex_text-end (suc fuel) n acc (omega arith)) (one_digit 0 n acc)
length-hex_text (suc k) (suc fuel) n acc h = elim (split16 n) [
  | inl small ↦ rw (hex_text-end (suc fuel) n acc small) (one_digit (suc k) n acc)
  | inr large ↦ rw (hex_text-suc fuel n acc large) (
      omega (
        arith,
        length-hex_text k fuel (n / 16) (String.◌∷◌ (hex_digit (n % 16)) acc)
            (omega (arith, pow-suc 16 (suc k))),
      ))
]

zero_is_quantity : is_quantity (to_quantity 0) ≡ true
unfolding is_quantity to_quantity
zero_is_quantity = refl

split_zero : (n : ℕ) → (n ≡ 0) ⊎ (0 < n)
split_zero n = ground arith

is_quantity-digits :
    (s : String)
    → is_quantity_digits (codes s) ≡ true
    → length (codes s) ≤ 64
    → is_quantity (String.◌∷◌ "0" (String.◌∷◌ "x" s)) ≡ true
unfolding is_quantity after_0x
is_quantity-digits s d l = ground arith

-- Every number of 256 bits is printed as a text that the schema of quantities accepts.
pub is_quantity-to_quantity : (n : ℕ) → n < 2 ^ 256 → is_quantity (to_quantity n) ≡ true
unfolding to_quantity all_hex
is_quantity-to_quantity n h = elim (split_zero n) [
  | inl none ↦ rw none zero_is_quantity
  | inr some ↦
      is_quantity-digits (hex_text n n String.[])
        (is_quantity_digits-hex_text n n String.[] (omega arith) some refl)
        (length-hex_text 63 n n String.[] h)
]
