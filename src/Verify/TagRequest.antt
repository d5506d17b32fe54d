-- ===== src/Verify/TagRequest.antt =====
-- `verify` of `TagRequest` and its `toObject` without options, from internal/ipc/gen/ipc_generated.js.
use mathlib.Core.Option
use tilbo.Prelude.{String, ◌≡◌, refl, Option, none, [], ◌∷◌, Given}
use tilbo.Values.{
  Value, integer, string, object, Util, Documented, check, ◌orelse◌, verify_record, expects_enum,
  expects_strings,
}
use tilbo.Values.Slots.{props_of, list_slot}
use tilbo.Values.Accepts.{record-accepts, check-accepts, ◌⨾◌}
use tilbo.Values.Fields.{IsEnum, accepts-enum, accepts-strings}
use tilbo.Ipc.TagRequest.{TagRequest}

module _ (u : Util) where
  -- `toObject(message)`
  unfoldable pub to_object : TagRequest → Value
  to_object m = object (
      props_of (
        ("paths", list_slot string m.paths)
        ∷ ("tags", list_slot string m.tags)
        ∷ ("operation", Option.map integer m.operation)
        ∷ []))

  unfoldable pub verify : Value → Option String
  verify m =
      verify_record
        (check "paths" (expects_strings u) m
          orelse check "tags" (expects_strings u) m
          orelse check "operation" (expects_enum 3) m
          orelse none)
        m

-- An enum has one of its numbers.
pub record IsRegular (m : TagRequest) : Type 0 where
  pub operation : Given (IsEnum 3) m.operation

module _ (u : Util) (laws : Documented u) where
  -- `verify` accepts what `toObject` makes of a regular message.
  pub verify-accepts : (m : TagRequest) → IsRegular m → verify u (to_object u m) ≡ none
  unfolding verify to_object
  verify-accepts m r = record-accepts _ (
      check-accepts _ refl "paths" _ (accepts-strings u laws "paths" m.paths)
      ⨾ check-accepts _ refl "tags" _ (accepts-strings u laws "tags" m.tags)
      ⨾ check-accepts _ refl "operation" _ (accepts-enum 3 "operation" m.operation r.operation)
      ⨾ refl)
