-- ===== src/Verify/ChmodFileRequest.antt =====
-- `verify` of `ChmodFileRequest` and its `toObject` without options, from internal/ipc/gen/ipc_generated.js.
use mathlib.Core.Option
use tilbo.Prelude.{String, ◌≡◌, refl, Option, none, [], ◌∷◌}
use tilbo.Prelude.Int.{pos}
use tilbo.Values.{
  Value, integer, string, object, Util, Documented, check, ◌orelse◌, verify_record, expects_string,
  expects_integer,
}
use tilbo.Values.Slots.{props_of}
use tilbo.Values.Accepts.{record-accepts, check-accepts, ◌⨾◌}
use tilbo.Values.Fields.{accepts-string, accepts-natural}
use tilbo.Ipc.ChmodFileRequest.{ChmodFileRequest}

module _ (u : Util) where
  -- `toObject(message)`
  unfoldable pub to_object : ChmodFileRequest → Value
  to_object m = object (
      props_of (
        ("path", Option.map string m.path)
        ∷ ("mode", Option.map (λ n. integer (pos n)) m.mode)
        ∷ []))

  unfoldable pub verify : Value → Option String
  verify m =
      verify_record
        (check "path" (expects_string u) m orelse check "mode" (expects_integer u) m orelse none) m

module _ (u : Util) (laws : Documented u) where
  -- `verify` accepts what `toObject` makes of a message.
  pub verify-accepts : (m : ChmodFileRequest) → verify u (to_object u m) ≡ none
  unfolding verify to_object
  verify-accepts m = record-accepts _ (
      check-accepts _ refl "path" _ (accepts-string u laws "path" m.path)
      ⨾ check-accepts _ refl "mode" _ (accepts-natural u laws "mode" m.mode)
      ⨾ refl)
