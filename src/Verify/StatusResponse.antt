-- ===== src/Verify/StatusResponse.antt =====
-- `verify` of `StatusResponse` and its `toObject` without options, from internal/ipc/gen/ipc_generated.js.
use mathlib.Core.Option
use tilbo.Prelude.{String, ◌≡◌, refl, Option, none, [], ◌∷◌, Given}
use tilbo.Prelude.Int.{pos}
use tilbo.Values.{
  Value, integer, number, string, object, Util, Documented, check, ◌orelse◌, verify_record,
  expects_number, expects_enum, expects_wide, expects_strings,
}
use tilbo.Values.Slots.{props_of, list_slot}
use tilbo.Values.Accepts.{record-accepts, check-accepts, ◌⨾◌}
use tilbo.Values.Fields.{
  IsEnum, accepts-number, accepts-enum, accepts-wide, accepts-wide_natural, accepts-strings,
}
use tilbo.Ipc.StatusResponse.{StatusResponse}

module _ (u : Util) where
  -- `toObject(message)`
  unfoldable pub to_object : StatusResponse → Value
  to_object m = object (
      props_of (
        ("state", Option.map integer m.state)
        ∷ ("filesIndexed", Option.map (λ n. u.wide (pos n)) m.files_indexed)
        ∷ ("tagsTotal", Option.map (λ n. u.wide (pos n)) m.tags_total)
        ∷ ("indexSizeMb", Option.map number m.index_size_mb)
        ∷ ("warnings", list_slot string m.warnings)
        ∷ ("uptimeSeconds", Option.map u.wide m.uptime_seconds)
        ∷ []))

  unfoldable pub verify : Value → Option String
  verify m =
      verify_record
        (check "state" (expects_enum 4) m
          orelse check "filesIndexed" (expects_wide u) m
          orelse check "tagsTotal" (expects_wide u) m
          orelse check "indexSizeMb" expects_number m
          orelse check "warnings" (expects_strings u) m
          orelse check "uptimeSeconds" (expects_wide u) m
          orelse none)
        m

-- An enum has one of its numbers.
pub record IsRegular (m : StatusResponse) : Type 0 where
  pub state : Given (IsEnum 4) m.state

module _ (u : Util) (laws : Documented u) where
  -- `verify` accepts what `toObject` makes of a regular message.
  pub verify-accepts : (m : StatusResponse) → IsRegular m → verify u (to_object u m) ≡ none
  unfolding verify to_object
  verify-accepts m r = record-accepts _ (
      check-accepts _ refl "state" _ (accepts-enum 4 "state" m.state r.state)
      ⨾ check-accepts _ refl "filesIndexed" _
          (accepts-wide_natural u laws "filesIndexed" m.files_indexed)
      ⨾ check-accepts _ refl "tagsTotal" _ (accepts-wide_natural u laws "tagsTotal" m.tags_total)
      ⨾ check-accepts _ refl "indexSizeMb" _ (accepts-number "indexSizeMb" m.index_size_mb)
      ⨾ check-accepts _ refl "warnings" _ (accepts-strings u laws "warnings" m.warnings)
      ⨾ check-accepts _ refl "uptimeSeconds" _
          (accepts-wide u laws "uptimeSeconds" m.uptime_seconds)
      ⨾ refl)
