-- ===== src/Verify/IndexUpdatedEvent.antt =====
-- `verify` of `IndexUpdatedEvent` and its `toObject` without options, from internal/ipc/gen/ipc_generated.js.
use mathlib.Core.Option
use tilbo.Prelude.{String, ◌≡◌, refl, Option, none, [], ◌∷◌}
use tilbo.Prelude.Int.{pos}
use tilbo.Values.{Value, object, Util, Documented, check, ◌orelse◌, verify_record, expects_wide}
use tilbo.Values.Slots.{props_of}
use tilbo.Values.Accepts.{record-accepts, check-accepts, ◌⨾◌}
use tilbo.Values.Fields.{accepts-wide_natural}
use tilbo.Ipc.IndexUpdatedEvent.{IndexUpdatedEvent}

module _ (u : Util) where
  -- `toObject(message)`
  unfoldable pub to_object : IndexUpdatedEvent → Value
  to_object m = object (
      props_of (
        ("filesTotal", Option.map (λ n. u.wide (pos n)) m.files_total)
        ∷ ("tagsTotal", Option.map (λ n. u.wide (pos n)) m.tags_total)
        ∷ []))

  unfoldable pub verify : Value → Option String
  verify m =
      verify_record
        (check "filesTotal" (expects_wide u) m
          orelse check "tagsTotal" (expects_wide u) m
          orelse none)
        m

module _ (u : Util) (laws : Documented u) where
  -- `verify` accepts what `toObject` makes of a message.
  pub verify-accepts : (m : IndexUpdatedEvent) → verify u (to_object u m) ≡ none
  unfolding verify to_object
  verify-accepts m = record-accepts _ (
      check-accepts _ refl "filesTotal" _ (accepts-wide_natural u laws "filesTotal" m.files_total)
      ⨾ check-accepts _ refl "tagsTotal" _ (accepts-wide_natural u laws "tagsTotal" m.tags_total)
      ⨾ refl)
