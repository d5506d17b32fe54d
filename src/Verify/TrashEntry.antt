-- ===== src/Verify/TrashEntry.antt =====
-- `verify` of `TrashEntry` and its `toObject` without options, from internal/ipc/gen/ipc_generated.js.
use mathlib.Core.Option
use tilbo.Prelude.{String, ◌≡◌, refl, Option, none, [], ◌∷◌}
use tilbo.Values.{
  Value, string, object, Util, Documented, check, ◌orelse◌, verify_record, expects_string,
  expects_wide,
}
use tilbo.Values.Slots.{props_of}
use tilbo.Values.Accepts.{record-accepts, check-accepts, ◌⨾◌}
use tilbo.Values.Fields.{accepts-string, accepts-wide}
use tilbo.Ipc.TrashEntry.{TrashEntry}

module _ (u : Util) where
  -- `toObject(message)`
  unfoldable pub to_object : TrashEntry → Value
  to_object m = object (
      props_of (
        ("name", Option.map string m.name)
        ∷ ("originalPath", Option.map string m.original_path)
        ∷ ("deletionDate", Option.map u.wide m.deletion_date)
        ∷ ("sizeBytes", Option.map u.wide m.size_bytes)
        ∷ []))

  unfoldable pub verify : Value → Option String
  verify m =
      verify_record
        (check "name" (expects_string u) m
          orelse check "originalPath" (expects_string u) m
          orelse check "deletionDate" (expects_wide u) m
          orelse check "sizeBytes" (expects_wide u) m
          orelse none)
        m

module _ (u : Util) (laws : Documented u) where
  -- `verify` accepts what `toObject` makes of a message.
  pub verify-accepts : (m : TrashEntry) → verify u (to_object u m) ≡ none
  unfolding verify to_object
  verify-accepts m = record-accepts _ (
      check-accepts _ refl "name" _ (accepts-string u laws "name" m.name)
      ⨾ check-accepts _ refl "originalPath" _ (accepts-string u laws "originalPath" m.original_path)
      ⨾ check-accepts _ refl "deletionDate" _ (accepts-wide u laws "deletionDate" m.deletion_date)
      ⨾ check-accepts _ refl "sizeBytes" _ (accepts-wide u laws "sizeBytes" m.size_bytes)
      ⨾ refl)
