-- ===== src/Verify/FileResult.antt =====
-- `verify` of `FileResult` and its `toObject` without options, from internal/ipc/gen/ipc_generated.js.
use mathlib.Core.Option
use tilbo.Prelude.{String, ◌≡◌, refl, Option, none, [], ◌∷◌}
use tilbo.Values.{
  Value, boolean, number, string, object, Util, Documented, check, ◌orelse◌, verify_record,
  expects_boolean, expects_number, expects_string, expects_wide, expects_strings, expects_map,
}
use tilbo.Values.Slots.{props_of, list_slot, map_slot}
use tilbo.Values.Accepts.{record-accepts, check-accepts, ◌⨾◌}
use tilbo.Values.Fields.{
  accepts-boolean, accepts-number, accepts-string, accepts-wide, accepts-strings, accepts-map,
}
use tilbo.Ipc.FileResult.{FileResult}

module _ (u : Util) where
  -- `toObject(message)`
  unfoldable pub to_object : FileResult → Value
  to_object m = object (
      props_of (
        ("path", Option.map string m.path)
        ∷ ("tags", list_slot string m.tags)
        ∷ ("metadata", map_slot m.metadata)
        ∷ ("score", Option.map number m.score)
        ∷ ("mtime", Option.map u.wide m.mtime)
        ∷ ("sizeBytes", Option.map u.wide m.size_bytes)
        ∷ ("isLink", Option.map boolean m.is_link)
        ∷ ("linkTarget", Option.map string m.link_target)
        ∷ []))

  unfoldable pub verify : Value → Option String
  verify m =
      verify_record
        (check "path" (expects_string u) m
          orelse check "tags" (expects_strings u) m
          orelse check "metadata" (expects_map u) m
          orelse check "score" expects_number m
          orelse check "mtime" (expects_wide u) m
          orelse check "sizeBytes" (expects_wide u) m
          orelse check "isLink" expects_boolean m
          orelse check "linkTarget" (expects_string u) m
          orelse none)
        m

module _ (u : Util) (laws : Documented u) where
  -- `verify` accepts what `toObject` makes of a message.
  pub verify-accepts : (m : FileResult) → verify u (to_object u m) ≡ none
  unfolding verify to_object
  verify-accepts m = record-accepts _ (
      check-accepts _ refl "path" _ (accepts-string u laws "path" m.path)
      ⨾ check-accepts _ refl "tags" _ (accepts-strings u laws "tags" m.tags)
      ⨾ check-accepts _ refl "metadata" _ (accepts-map u laws "metadata" m.metadata)
      ⨾ check-accepts _ refl "score" _ (accepts-number "score" m.score)
      ⨾ check-accepts _ refl "mtime" _ (accepts-wide u laws "mtime" m.mtime)
      ⨾ check-accepts _ refl "sizeBytes" _ (accepts-wide u laws "sizeBytes" m.size_bytes)
      ⨾ check-accepts _ refl "isLink" _ (accepts-boolean "isLink" m.is_link)
      ⨾ check-accepts _ refl "linkTarget" _ (accepts-string u laws "linkTarget" m.link_target)
      ⨾ refl)
