-- ===== src/Verify/DirEntry.antt =====
-- `verify` of `DirEntry` and its `toObject` without options, from internal/ipc/gen/ipc_generated.js.
use mathlib.Core.Option
use tilbo.Prelude.{String, ◌≡◌, refl, Option, none, [], ◌∷◌}
use tilbo.Prelude.Int.{pos}
use tilbo.Values.{
  Value, boolean, integer, string, object, Util, Documented, check, ◌orelse◌, verify_record,
  expects_boolean, expects_string, expects_integer, expects_wide,
}
use tilbo.Values.Slots.{props_of}
use tilbo.Values.Accepts.{record-accepts, check-accepts, ◌⨾◌}
use tilbo.Values.Fields.{accepts-boolean, accepts-string, accepts-natural, accepts-wide}
use tilbo.Ipc.DirEntry.{DirEntry}

module _ (u : Util) where
  -- `toObject(message)`
  unfoldable pub to_object : DirEntry → Value
  to_object m = object (
      props_of (
        ("name", Option.map string m.name)
        ∷ ("path", Option.map string m.path)
        ∷ ("isDir", Option.map boolean m.is_dir)
        ∷ ("sizeBytes", Option.map u.wide m.size_bytes)
        ∷ ("mtime", Option.map u.wide m.mtime)
        ∷ ("mode", Option.map (λ n. integer (pos n)) m.mode)
        ∷ ("hidden", Option.map boolean m.hidden)
        ∷ ("mimeType", Option.map string m.mime_type)
        ∷ ("iconName", Option.map string m.icon_name)
        ∷ ("isLink", Option.map boolean m.is_link)
        ∷ ("linkTarget", Option.map string m.link_target)
        ∷ []))

  unfoldable pub verify : Value → Option String
  verify m =
      verify_record
        (check "name" (expects_string u) m
          orelse check "path" (expects_string u) m
          orelse check "isDir" expects_boolean m
          orelse check "sizeBytes" (expects_wide u) m
          orelse check "mtime" (expects_wide u) m
          orelse check "mode" (expects_integer u) m
          orelse check "hidden" expects_boolean m
          orelse check "mimeType" (expects_string u) m
          orelse check "iconName" (expects_string u) m
          orelse check "isLink" expects_boolean m
          orelse check "linkTarget" (expects_string u) m
          orelse none)
        m

module _ (u : Util) (laws : Documented u) where
  -- `verify` accepts what `toObject` makes of a message.
  pub verify-accepts : (m : DirEntry) → verify u (to_object u m) ≡ none
  unfolding verify to_object
  verify-accepts m = record-accepts _ (
      check-accepts _ refl "name" _ (accepts-string u laws "name" m.name)
      ⨾ check-accepts _ refl "path" _ (accepts-string u laws "path" m.path)
      ⨾ check-accepts _ refl "isDir" _ (accepts-boolean "isDir" m.is_dir)
      ⨾ check-accepts _ refl "sizeBytes" _ (accepts-wide u laws "sizeBytes" m.size_bytes)
      ⨾ check-accepts _ refl "mtime" _ (accepts-wide u laws "mtime" m.mtime)
      ⨾ check-accepts _ refl "mode" _ (accepts-natural u laws "mode" m.mode)
      ⨾ check-accepts _ refl "hidden" _ (accepts-boolean "hidden" m.hidden)
      ⨾ check-accepts _ refl "mimeType" _ (accepts-string u laws "mimeType" m.mime_type)
      ⨾ check-accepts _ refl "iconName" _ (accepts-string u laws "iconName" m.icon_name)
      ⨾ check-accepts _ refl "isLink" _ (accepts-boolean "isLink" m.is_link)
      ⨾ check-accepts _ refl "linkTarget" _ (accepts-string u laws "linkTarget" m.link_target)
      ⨾ refl)
