-- ===== src/Verify/LaunchGuiResponse.antt =====
-- `verify` of `LaunchGUIResponse` and its `toObject` without options, from internal/ipc/gen/ipc_generated.js.
use mathlib.Core.Option
use tilbo.Prelude.{String, ◌≡◌, refl, Option, none, [], ◌∷◌}
use tilbo.Values.{
  Value, boolean, object, Util, Documented, check, ◌orelse◌, verify_record, expects_boolean,
}
use tilbo.Values.Slots.{props_of}
use tilbo.Values.Accepts.{record-accepts, check-accepts, ◌⨾◌}
use tilbo.Values.Fields.{accepts-boolean}
use tilbo.Ipc.LaunchGuiResponse.{LaunchGuiResponse}

module _ (u : Util) where
  -- `toObject(message)`
  unfoldable pub to_object : LaunchGuiResponse → Value
  to_object m = object (props_of (("alreadyRunning", Option.map boolean m.already_running) ∷ []))

  unfoldable pub verify : Value → Option String
  verify m = verify_record (check "alreadyRunning" expects_boolean m orelse none) m

module _ (u : Util) (laws : Documented u) where
  -- `verify` accepts what `toObject` makes of a message.
  pub verify-accepts : (m : LaunchGuiResponse) → verify u (to_object u m) ≡ none
  unfolding verify to_object
  verify-accepts m = record-accepts _ (
      check-accepts _ refl "alreadyRunning" _ (accepts-boolean "alreadyRunning" m.already_running)
      ⨾ refl)
