-- ===== src/Verify/GlobSearchRequest.antt =====
-- `verify` of `GlobSearchRequest` and its `toObject` without options, from internal/ipc/gen/ipc_generated.js.
use mathlib.Core.Option
use tilbo.Prelude.{String, ◌≡◌, refl, Option, none, [], ◌∷◌}
use tilbo.Prelude.Int.{pos}
use tilbo.Values.{
  Value, boolean, integer, string, object, Util, Documented, check, ◌orelse◌, verify_record,
  expects_boolean, expects_integer, expects_strings,
}
use tilbo.Values.Slots.{props_of, list_slot}
use tilbo.Values.Accepts.{record-accepts, check-accepts, ◌⨾◌}
use tilbo.Values.Fields.{accepts-boolean, accepts-natural, accepts-strings}
use tilbo.Ipc.GlobSearchRequest.{GlobSearchRequest}

module _ (u : Util) where
  -- `toObject(message)`
  unfoldable pub to_object : GlobSearchRequest → Value
  to_object m = object (
      props_of (
        ("patterns", list_slot string m.patterns)
        ∷ ("limit", Option.map (λ n. integer (pos n)) m.limit)
        ∷ ("allowHidden", Option.map boolean m.allow_hidden)
        ∷ []))

  unfoldable pub verify : Value → Option String
  verify m =
      verify_record
        (check "patterns" (expects_strings u) m
          orelse check "limit" (expects_integer u) m
          orelse check "allowHidden" expects_boolean m
          orelse none)
        m

module _ (u : Util) (laws : Documented u) where
  -- `verify` accepts what `toObject` makes of a message.
  pub verify-accepts : (m : GlobSearchRequest) → verify u (to_object u m) ≡ none
  unfolding verify to_object
  verify-accepts m = record-accepts _ (
      check-accepts _ refl "patterns" _ (accepts-strings u laws "patterns" m.patterns)
      ⨾ check-accepts _ refl "limit" _ (accepts-natural u laws "limit" m.limit)
      ⨾ check-accepts _ refl "allowHidden" _ (accepts-boolean "allowHidden" m.allow_hidden)
      ⨾ refl)
