-- ===== src/Verify/GetFileBadgesResponse.antt =====
-- `verify` of `GetFileBadgesResponse` and its `toObject` without options, from internal/ipc/gen/ipc_generated.js.
use tilbo.Prelude.{String, ◌≡◌, refl, Option, none, [], ◌∷◌}
use tilbo.Values.{
  Value, string, object, Util, Documented, check, ◌orelse◌, verify_record, expects_strings,
}
use tilbo.Values.Slots.{props_of, list_slot}
use tilbo.Values.Accepts.{record-accepts, check-accepts, ◌⨾◌}
use tilbo.Values.Fields.{accepts-strings}
use tilbo.Ipc.GetFileBadgesResponse.{GetFileBadgesResponse}

module _ (u : Util) where
  -- `toObject(message)`
  unfoldable pub to_object : GetFileBadgesResponse → Value
  to_object m = object (props_of (("badges", list_slot string m.badges) ∷ []))

  unfoldable pub verify : Value → Option String
  verify m = verify_record (check "badges" (expects_strings u) m orelse none) m

module _ (u : Util) (laws : Documented u) where
  -- `verify` accepts what `toObject` makes of a message.
  pub verify-accepts : (m : GetFileBadgesResponse) → verify u (to_object u m) ≡ none
  unfolding verify to_object
  verify-accepts m =
      record-accepts _
        (check-accepts _ refl "badges" _ (accepts-strings u laws "badges" m.badges) ⨾ refl)
