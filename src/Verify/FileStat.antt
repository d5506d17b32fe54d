-- ===== src/Verify/FileStat.antt =====
-- `verify` of `FileStat` and its `toObject` without options, from internal/ipc/gen/ipc_generated.js.
use mathlib.Core.Option
use tilbo.Prelude.{String, ◌≡◌, refl, Option, none, [], ◌∷◌}
use tilbo.Prelude.Int.{pos}
use tilbo.Values.{
  Value, integer, object, Util, Documented, check, ◌orelse◌, verify_record, expects_integer,
  expects_wide,
}
use tilbo.Values.Slots.{props_of}
use tilbo.Values.Accepts.{record-accepts, check-accepts, ◌⨾◌}
use tilbo.Values.Fields.{accepts-natural, accepts-wide}
use tilbo.Ipc.FileStat.{FileStat}

module _ (u : Util) where
  -- `toObject(message)`
  unfoldable pub to_object : FileStat → Value
  to_object m = object (
      props_of (
        ("sizeBytes", Option.map u.wide m.size_bytes)
        ∷ ("mtime", Option.map u.wide m.mtime)
        ∷ ("mode", Option.map (λ n. integer (pos n)) m.mode)
        ∷ []))

  unfoldable pub verify : Value → Option String
  verify m =
      verify_record
        (check "sizeBytes" (expects_wide u) m
          orelse check "mtime" (expects_wide u) m
          orelse check "mode" (expects_integer u) m
          orelse none)
        m

module _ (u : Util) (laws : Documented u) where
  -- `verify` accepts what `toObject` makes of a message.
  pub verify-accepts : (m : FileStat) → verify u (to_object u m) ≡ none
  unfolding verify to_object
  verify-accepts m = record-accepts _ (
      check-accepts _ refl "sizeBytes" _ (accepts-wide u laws "sizeBytes" m.size_bytes)
      ⨾ check-accepts _ refl "mtime" _ (accepts-wide u laws "mtime" m.mtime)
      ⨾ check-accepts _ refl "mode" _ (accepts-natural u laws "mode" m.mode)
      ⨾ refl)
