-- ===== src/Verify/DaemonStateChangedEvent.antt =====
-- `verify` of `DaemonStateChangedEvent` and its `toObject` without options, from internal/ipc/gen/ipc_generated.js.
use mathlib.Core.Option
use tilbo.Prelude.{String, ◌≡◌, refl, Option, none, [], ◌∷◌}
use tilbo.Values.{
  Value, string, object, Util, Documented, check, ◌orelse◌, verify_record, expects_string,
}
use tilbo.Values.Slots.{props_of}
use tilbo.Values.Accepts.{record-accepts, check-accepts, ◌⨾◌}
use tilbo.Values.Fields.{accepts-string}
use tilbo.Ipc.DaemonStateChangedEvent.{DaemonStateChangedEvent}

module _ (u : Util) where
  -- `toObject(message)`
  unfoldable pub to_object : DaemonStateChangedEvent → Value
  to_object m = object (props_of (("state", Option.map string m.state) ∷ []))

  unfoldable pub verify : Value → Option String
  verify m = verify_record (check "state" (expects_string u) m orelse none) m

module _ (u : Util) (laws : Documented u) where
  -- `verify` accepts what `toObject` makes of a message.
  pub verify-accepts : (m : DaemonStateChangedEvent) → verify u (to_object u m) ≡ none
  unfolding verify to_object
  verify-accepts m =
      record-accepts _
        (check-accepts _ refl "state" _ (accepts-string u laws "state" m.state) ⨾ refl)
