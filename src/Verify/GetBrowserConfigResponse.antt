-- ===== src/Verify/GetBrowserConfigResponse.antt =====
-- `verify` of `GetBrowserConfigResponse` and its `toObject` without options, from internal/ipc/gen/ipc_generated.js.
use mathlib.Core.Option
use tilbo.Prelude.{String, ◌≡◌, refl, Option, none, [], ◌∷◌}
use tilbo.Values.{
  Value, boolean, string, object, Util, Documented, check, ◌orelse◌, verify_record, expects_boolean,
  expects_string, expects_map,
}
use tilbo.Values.Slots.{props_of, map_slot}
use tilbo.Values.Accepts.{record-accepts, check-accepts, ◌⨾◌}
use tilbo.Values.Fields.{accepts-boolean, accepts-string, accepts-map}
use tilbo.Ipc.GetBrowserConfigResponse.{GetBrowserConfigResponse}

module _ (u : Util) where
  -- `toObject(message)`
  unfoldable pub to_object : GetBrowserConfigResponse → Value
  to_object m = object (
      props_of (
        ("keybindings", map_slot m.keybindings)
        ∷ ("useTrash", Option.map boolean m.use_trash)
        ∷ ("inlineThumbnails", Option.map boolean m.inline_thumbnails)
        ∷ ("autoPropertiesSlideout", Option.map boolean m.auto_properties_slideout)
        ∷ ("theme", Option.map string m.theme)
        ∷ ("singleClick", Option.map boolean m.single_click)
        ∷ []))

  unfoldable pub verify : Value → Option String
  verify m =
      verify_record
        (check "keybindings" (expects_map u) m
          orelse check "useTrash" expects_boolean m
          orelse check "inlineThumbnails" expects_boolean m
          orelse check "autoPropertiesSlideout" expects_boolean m
          orelse check "theme" (expects_string u) m
          orelse check "singleClick" expects_boolean m
          orelse none)
        m

module _ (u : Util) (laws : Documented u) where
  -- `verify` accepts what `toObject` makes of a message.
  pub verify-accepts : (m : GetBrowserConfigResponse) → verify u (to_object u m) ≡ none
  unfolding verify to_object
  verify-accepts m = record-accepts _ (
      check-accepts _ refl "keybindings" _ (accepts-map u laws "keybindings" m.keybindings)
      ⨾ check-accepts _ refl "useTrash" _ (accepts-boolean "useTrash" m.use_trash)
      ⨾ check-accepts _ refl "inlineThumbnails" _
          (accepts-boolean "inlineThumbnails" m.inline_thumbnails)
      ⨾ check-accepts _ refl "autoPropertiesSlideout" _
          (accepts-boolean "autoPropertiesSlideout" m.auto_properties_slideout)
      ⨾ check-accepts _ refl "theme" _ (accepts-string u laws "theme" m.theme)
      ⨾ check-accepts _ refl "singleClick" _ (accepts-boolean "singleClick" m.single_click)
      ⨾ refl)
