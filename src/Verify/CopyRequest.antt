-- ===== src/Verify/CopyRequest.antt =====
-- `verify` of `CopyRequest` and its `toObject` without options, from internal/ipc/gen/ipc_generated.js.
use mathlib.Core.Option
use tilbo.Prelude.{String, ◌≡◌, refl, Option, none, [], ◌∷◌}
use tilbo.Values.{
  Value, boolean, string, object, Util, Documented, check, ◌orelse◌, verify_record, expects_boolean,
  expects_strings,
}
use tilbo.Values.Slots.{props_of, list_slot}
use tilbo.Values.Accepts.{record-accepts, check-accepts, ◌⨾◌}
use tilbo.Values.Fields.{accepts-boolean, accepts-strings}
use tilbo.Ipc.CopyRequest.{CopyRequest}

module _ (u : Util) where
  -- `toObject(message)`
  unfoldable pub to_object : CopyRequest → Value
  to_object m = object (
      props_of
        (("paths", list_slot string m.paths) ∷ ("isMove", Option.map boolean m.is_move) ∷ []))

  unfoldable pub verify : Value → Option String
  verify m =
      verify_record
        (check "paths" (expects_strings u) m orelse check "isMove" expects_boolean m orelse none) m

module _ (u : Util) (laws : Documented u) where
  -- `verify` accepts what `toObject` makes of a message.
  pub verify-accepts : (m : CopyRequest) → verify u (to_object u m) ≡ none
  unfolding verify to_object
  verify-accepts m = record-accepts _ (
      check-accepts _ refl "paths" _ (accepts-strings u laws "paths" m.paths)
      ⨾ check-accepts _ refl "isMove" _ (accepts-boolean "isMove" m.is_move)
      ⨾ refl)
