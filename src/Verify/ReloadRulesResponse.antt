-- ===== src/Verify/ReloadRulesResponse.antt =====
-- `verify` of `ReloadRulesResponse` and its `toObject` without options, from internal/ipc/gen/ipc_generated.js.
use mathlib.Core.Option
use tilbo.Prelude.{String, ◌≡◌, refl, Option, none, [], ◌∷◌}
use tilbo.Prelude.Int.{pos}
use tilbo.Values.{
  Value, integer, string, object, Util, Documented, check, ◌orelse◌, verify_record, expects_integer,
  expects_strings,
}
use tilbo.Values.Slots.{props_of, list_slot}
use tilbo.Values.Accepts.{record-accepts, check-accepts, ◌⨾◌}
use tilbo.Values.Fields.{accepts-natural, accepts-strings}
use tilbo.Ipc.ReloadRulesResponse.{ReloadRulesResponse}

module _ (u : Util) where
  -- `toObject(message)`
  unfoldable pub to_object : ReloadRulesResponse → Value
  to_object m = object (
      props_of (
        ("rulesLoaded", Option.map (λ n. integer (pos n)) m.rules_loaded)
        ∷ ("errors", list_slot string m.errors)
        ∷ []))

  unfoldable pub verify : Value → Option String
  verify m =
      verify_record
        (check "rulesLoaded" (expects_integer u) m
          orelse check "errors" (expects_strings u) m
          orelse none)
        m

module _ (u : Util) (laws : Documented u) where
  -- `verify` accepts what `toObject` makes of a message.
  pub verify-accepts : (m : ReloadRulesResponse) → verify u (to_object u m) ≡ none
  unfolding verify to_object
  verify-accepts m = record-accepts _ (
      check-accepts _ refl "rulesLoaded" _ (accepts-natural u laws "rulesLoaded" m.rules_loaded)
      ⨾ check-accepts _ refl "errors" _ (accepts-strings u laws "errors" m.errors)
      ⨾ refl)
