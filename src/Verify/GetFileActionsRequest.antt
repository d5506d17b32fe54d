-- ===== src/Verify/GetFileActionsRequest.antt =====
-- `verify` of `GetFileActionsRequest` and its `toObject` without options, from internal/ipc/gen/ipc_generated.js.
use mathlib.Core.Option
use tilbo.Prelude.{String, ◌≡◌, refl, Option, none, [], ◌∷◌}
use tilbo.Values.{
  Value, string, object, Util, Documented, check, ◌orelse◌, verify_record, expects_string,
}
use tilbo.Values.Slots.{props_of}
use tilbo.Values.Accepts.{record-accepts, check-accepts, ◌⨾◌}
use tilbo.Values.Fields.{accepts-string}
use tilbo.Ipc.GetFileActionsRequest.{GetFileActionsRequest}

module _ (u : Util) where
  -- `toObject(message)`
  unfoldable pub to_object : GetFileActionsRequest → Value
  to_object m = object (props_of (("path", Option.map string m.path) ∷ []))

  unfoldable pub verify : Value → Option String
  verify m = verify_record (check "path" (expects_string u) m orelse none) m

module _ (u : Util) (laws : Documented u) where
  -- `verify` accepts what `toObject` makes of a message.
  pub verify-accepts : (m : GetFileActionsRequest) → verify u (to_object u m) ≡ none
  unfolding verify to_object
  verify-accepts m =
      record-accepts _ (check-accepts _ refl "path" _ (accepts-string u laws "path" m.path) ⨾ refl)
