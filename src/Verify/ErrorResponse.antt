-- ===== src/Verify/ErrorResponse.antt =====
-- `verify` of `ErrorResponse` and its `toObject` without options, from internal/ipc/gen/ipc_generated.js.
use mathlib.Core.Option
use tilbo.Prelude.{String, ◌≡◌, refl, Option, none, [], ◌∷◌}
use tilbo.Prelude.Int.{pos}
use tilbo.Values.{
  Value, integer, string, object, Util, Documented, check, ◌orelse◌, verify_record, expects_string,
  expects_integer,
}
use tilbo.Values.Slots.{props_of}
use tilbo.Values.Accepts.{record-accepts, check-accepts, ◌⨾◌}
use tilbo.Values.Fields.{accepts-string, accepts-natural}
use tilbo.Ipc.ErrorResponse.{ErrorResponse}

module _ (u : Util) where
  -- `toObject(message)`
  unfoldable pub to_object : ErrorResponse → Value
  to_object m = object (
      props_of (
        ("code", Option.map (λ n. integer (pos n)) m.code)
        ∷ ("message", Option.map string m.message)
        ∷ []))

  unfoldable pub verify : Value → Option String
  verify m =
      verify_record
        (check "code" (expects_integer u) m orelse check "message" (expects_string u) m orelse none)
        m

module _ (u : Util) (laws : Documented u) where
  -- `verify` accepts what `toObject` makes of a message.
  pub verify-accepts : (m : ErrorResponse) → verify u (to_object u m) ≡ none
  unfolding verify to_object
  verify-accepts m = record-accepts _ (
      check-accepts _ refl "code" _ (accepts-natural u laws "code" m.code)
      ⨾ check-accepts _ refl "message" _ (accepts-string u laws "message" m.message)
      ⨾ refl)
