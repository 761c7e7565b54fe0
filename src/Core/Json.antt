-- ===== src/Core/Json.antt =====
-- JSON values (`unknown` and `Record<string, unknown>` of the sources) and `jsonClone` of
-- src/server/execution/infrastructure.ts, which is `JSON.parse` after `canonicalizeJson`
-- (src/core/canonical-json.ts). The fields of an object are a list; their order has no meaning, so
-- the sorting of the keys is not modelled.
use edict.Prelude.{ℕ, String, Bool, true, false, ◌&&◌, ◌≡◌, if◌then◌else◌, arith}
use edict.Execution.Result.{Result, ok, err, canonical_json_refused}

mutual
  pub data Json : Type 0 where
    null : Json
    bool : Bool → Json
    -- a safe integer: its sign and its magnitude
    num : Bool → ℕ → Json
    text : String → Json
    arr : Items → Json
    obj : Fields → Json
    -- what `canonicalizeJson` refuses: `undefined`, functions, symbols, bigints, unsafe or fractional
    -- numbers, accessors, cycles, objects that are not plain
    foreign : Json

  pub data Items : Type 0 where
    nil : Items
    cons : Json → Items → Items

  pub data Fields : Type 0 where
    end : Fields
    field : String → Json → Fields → Fields

-- Whether `canonicalizeJson` accepts the value.
unfoldable mutual
  pub is_canonical : Json → Bool
  is_canonical (arr xs) = are_canonical xs
  is_canonical (obj fs) = are_canonical_fields fs
  is_canonical foreign = false
  is_canonical _ = true

  pub are_canonical : Items → Bool
  are_canonical nil = true
  are_canonical (cons x xs) = is_canonical x && are_canonical xs

  pub are_canonical_fields : Fields → Bool
  are_canonical_fields end = true
  are_canonical_fields (field k v fs) = is_canonical v && are_canonical_fields fs

unfoldable pub json_clone : Json → Result Json
json_clone v = if is_canonical v then ok v else err canonical_json_refused

pub json_clone-eq_ok : (v w : Json) → json_clone v ≡ ok w → v ≡ w
unfolding json_clone
json_clone-eq_ok v w h = ground arith

-- `isPlainObject` of transitions.ts
abbrev pub is_plain_object : Json → Bool
is_plain_object (obj _) = true
is_plain_object _ = false
