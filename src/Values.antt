-- ===== src/Values.antt =====
-- JavaScript values as `verify` and `toObject` of internal/ipc/gen/ipc_generated.js meet them, and
-- the tests that every `verify` is made of. What the tests ask of protobuf.js (`$util.isString` and
-- so on) is a parameter.
pub mod Slots
pub mod Accepts
pub mod Fields
pub mod Oneof
use Prim.Native.String.{◌++◌ as ◌<>◌}
use mathlib.Core.Logic.{◌⊎◌}
use tilbo.Prelude.{
  ℕ, zero, suc, ◌+◌, ◌≤◌, String, ◌≡◌, refl, Bool, true, false, Option, none, some, List, [], ◌∷◌,
  arith, ltb, str_eq, if◌then◌else◌,
}
use tilbo.Prelude.Int.{ℤ, pos, negsuc}
use tilbo.Runtime.{Double}

-- `integer` is a number that is an integer, `number` any other. `Items` are the elements of an array
-- and `Props` the own properties of an object. Functions, symbols and bigints are left
-- out, and every object inherits `hasOwnProperty`: an object without a prototype is left out too.
mutual
  pub data Value : Type 0 where
    undefined : Value
    null : Value
    boolean : Bool → Value
    integer : ℤ → Value
    number : Double → Value
    string : String → Value
    array : Items → Value
    object : Props → Value

  pub data Items : Type 0 where
    no_items : Items
    item : Value → Items → Items

  pub data Props : Type 0 where
    no_props : Props
    prop : String → Value → Props → Props

unfoldable pub lookup : String → Props → Value
lookup k no_props = undefined
lookup k (prop j v ps) = if str_eq j k then v else lookup k ps

-- `value[k]` for a name that no prototype has.
unfoldable pub property : String → Value → Value
unfolding lookup
property k (object ps) = lookup k ps
property k v = undefined

unfoldable pub present : Value → Option Value
present undefined = none
present null = none
present v = some v

-- `message.f != null && message.hasOwnProperty("f")`, and the value then. The names of the fields
-- are none of an array's or a string's own properties.
unfoldable pub own_value : String → Value → Option Value
unfolding property present
own_value f m = present (property f m)

-- A value that is not `false`, `0`, `null` or `undefined`. (The empty text and NaN have no
-- properties, so that it makes no difference here that they are taken for true.)
unfoldable pub truthy : Value → Bool
truthy undefined = false
truthy null = false
truthy (boolean b) = b
truthy (integer (pos zero)) = false
truthy v = true

-- `typeof value === "object" && value !== null`
unfoldable pub is_record : Value → Bool
is_record (array xs) = true
is_record (object ps) = true
is_record v = false

-- The tests of protobuf.js, and `wide`, a 64-bit integer as its runtime hands it over: a number or
-- a Long.
pub record Util : Type 0 where
  pub is_string : Value → Bool
  pub is_integer : Value → Bool
  pub is_object : Value → Bool
  pub wide : ℤ → Value

-- `error` of the first test that has one.
infixr 4 ◌orelse◌
unfoldable pub ◌orelse◌ : Option String → Option String → Option String
none orelse e = e
some e orelse e' = some e

unfoldable pub when_given : Option Value → (Value → Option String) → Option String
when_given none test = none
when_given (some v) test = test v

-- `if (message.f != null && message.hasOwnProperty("f")) …`; the test takes the field's name.
unfoldable pub check : String → (String → Value → Option String) → Value → Option String
unfolding own_value when_given
check f test m = when_given (own_value f m) (test f)

unfoldable pub expect : Bool → String → String → Option String
expect true f what = none
expect false f what = some ((f <> ": ") <> (what <> " expected"))

unfoldable pub every : (Value → Option String) → Items → Option String
unfolding ◌orelse◌
every test no_items = none
every test (item v vs) = test v orelse every test vs

-- `value[key]` for each of `Object.keys(value)`
unfoldable pub every_value : (Value → Option String) → Props → Option String
unfolding ◌orelse◌
every_value test no_props = none
every_value test (prop k v ps) = test v orelse every_value test ps

unfoldable pub every_own : (Value → Option String) → Value → Option String
unfolding every every_value
every_own test (object ps) = every_value test ps
every_own test (array xs) = every test xs
every_own test v = none

unfoldable pub expects_boolean : String → Value → Option String
unfolding expect
expects_boolean f (boolean b) = none
expects_boolean f v = expect false f "boolean"

-- `typeof value !== "number"`
unfoldable pub expects_number : String → Value → Option String
unfolding expect
expects_number f (integer z) = none
expects_number f (number d) = none
expects_number f v = expect false f "number"

-- `switch (value) { default: return "…"; case 0: … case last: break; }`
unfoldable pub expects_enum : ℕ → String → Value → Option String
unfolding expect
expects_enum last f (integer (pos n)) = expect (ltb n (suc last)) f "enum value"
expects_enum last f v = expect false f "enum value"

unfoldable pub nested : String → Option String → Option String
nested f none = none
nested f (some e) = some (f <> ("." <> e))

unfoldable pub expects_message : (Value → Option String) → String → Value → Option String
unfolding nested
expects_message verify f v = nested f (verify v)

unfoldable pub expects_messages : (Value → Option String) → String → Value → Option String
unfolding expect nested every
expects_messages verify f (array xs) = every (λ v. nested f (verify v)) xs
expects_messages verify f v = expect false f "array"

module _ (u : Util) where
  unfoldable pub expects_string : String → Value → Option String
  unfolding expect
  expects_string f v = expect (u.is_string v) f "string"

  unfoldable pub expects_integer : String → Value → Option String
  unfolding expect
  expects_integer f v = expect (u.is_integer v) f "integer"

  -- `value && $util.isInteger(value.low) && $util.isInteger(value.high)`
  unfoldable pub is_long : Value → Bool
  unfolding truthy property
  is_long v =
      if truthy v
      then (if u.is_integer (property "low" v) then u.is_integer (property "high" v) else false)
      else false

  unfoldable pub expects_wide : String → Value → Option String
  unfolding expect is_long
  expects_wide f v = expect (if u.is_integer v then true else is_long v) f "integer|Long"

  unfoldable pub expects_strings : String → Value → Option String
  unfolding expect every
  expects_strings f (array xs) = every (λ v. expect (u.is_string v) f "string[]") xs
  expects_strings f v = expect false f "array"

  unfoldable pub expects_map : String → Value → Option String
  unfolding expect every_own
  expects_map f v =
      if u.is_object v
      then every_own (λ x. expect (u.is_string x) f "string{k:string}") v
      else expect false f "object"

-- One member of a oneof: `seen` is `properties.name === 1`, `continue` the statements behind it.
unfoldable pub verify_member :
    String
    → String
    → (Value → Option String)
    → Bool
    → Option Value
    → (Bool → Option String)
    → Option String
unfolding ◌orelse◌ expects_message
verify_member name f verify seen none continue = continue seen
verify_member name f verify true (some v) continue = some (name <> ": multiple values")
verify_member name f verify false (some v) continue =
    expects_message verify f v orelse continue true

-- The members of a oneof, one after the other.
unfoldable pub verify_oneof :
    String → List (String × (Value → Option String)) → Bool → Value → Option String
unfolding own_value verify_member
verify_oneof name [] seen m = none
verify_oneof name ((f, verify) ∷ members) seen m =
    verify_member name f verify seen (own_value f m) (λ s. verify_oneof name members s m)

-- `if (typeof message !== "object" || message === null) return "object expected"`
unfoldable pub verify_record : Option String → Value → Option String
unfolding is_record
verify_record error m = if is_record m then error else some "object expected"

-- What protobuf.js documents of its tests, as far as messages need it.
pub record Documented (u : Util) : Type 0 where
  pub strings : (s : String) → u.is_string (string s) ≡ true
  pub integers : (z : ℤ) → u.is_integer (integer z) ≡ true
  pub objects : (ps : Props) → u.is_object (object ps) ≡ true
  pub wides :
      (z : ℤ)
      → (u.wide z ≡ integer z)
        ⊎ ((ps : Props) × (u.wide z ≡ object ps) × (is_long u (object ps) ≡ true))
