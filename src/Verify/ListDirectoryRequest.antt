-- ===== src/Verify/ListDirectoryRequest.antt =====
-- `verify` of `ListDirectoryRequest` and its `toObject` without options, from internal/ipc/gen/ipc_generated.js.
use mathlib.Core.Option
use tilbo.Prelude.{String, ◌≡◌, refl, Option, none, [], ◌∷◌}
use tilbo.Values.{
  Value, boolean, string, object, Util, Documented, check, ◌orelse◌, verify_record, expects_boolean,
  expects_string,
}
use tilbo.Values.Slots.{props_of}
use tilbo.Values.Accepts.{record-accepts, check-accepts, ◌⨾◌}
use tilbo.Values.Fields.{accepts-boolean, accepts-string}
use tilbo.Ipc.ListDirectoryRequest.{ListDirectoryRequest}

module _ (u : Util) where
  -- `toObject(message)`
  unfoldable pub to_object : ListDirectoryRequest → Value
  to_object m =
      object (
        props_of
          (("path", Option.map string m.path) ∷ ("hidden", Option.map boolean m.hidden) ∷ []))

  unfoldable pub verify : Value → Option String
  verify m =
      verify_record
        (check "path" (expects_string u) m orelse check "hidden" expects_boolean m orelse none) m

module _ (u : Util) (laws : Documented u) where
  -- `verify` accepts what `toObject` makes of a message.
  pub verify-accepts : (m : ListDirectoryRequest) → verify u (to_object u m) ≡ none
  unfolding verify to_object
  verify-accepts m = record-accepts _ (
      check-accepts _ refl "path" _ (accepts-string u laws "path" m.path)
      ⨾ check-accepts _ refl "hidden" _ (accepts-boolean "hidden" m.hidden)
      ⨾ refl)
