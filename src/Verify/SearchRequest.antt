-- ===== src/Verify/SearchRequest.antt =====
-- `verify` of `SearchRequest` and its `toObject` without options, from internal/ipc/gen/ipc_generated.js.
use mathlib.Core.Option
use tilbo.Prelude.{String, ◌≡◌, refl, Option, none, [], ◌∷◌}
use tilbo.Prelude.Int.{pos}
use tilbo.Values.{
  Value, boolean, integer, string, object, Util, Documented, check, ◌orelse◌, verify_record,
  expects_boolean, expects_string, expects_integer, expects_strings, expects_map,
}
use tilbo.Values.Slots.{props_of, list_slot, map_slot}
use tilbo.Values.Accepts.{record-accepts, check-accepts, ◌⨾◌}
use tilbo.Values.Fields.{
  accepts-boolean, accepts-string, accepts-natural, accepts-strings, accepts-map,
}
use tilbo.Ipc.SearchRequest.{SearchRequest}

module _ (u : Util) where
  -- `toObject(message)`
  unfoldable pub to_object : SearchRequest → Value
  to_object m = object (
      props_of (
        ("tags", list_slot string m.tags)
        ∷ ("tagsAny", Option.map boolean m.tags_any)
        ∷ ("tagExclude", list_slot string m.tag_exclude)
        ∷ ("metaFilters", map_slot m.meta_filters)
        ∷ ("ftsQuery", Option.map string m.fts_query)
        ∷ ("limit", Option.map (λ n. integer (pos n)) m.limit)
        ∷ ("offset", Option.map (λ n. integer (pos n)) m.offset)
        ∷ ("sortBy", list_slot string m.sort_by)
        ∷ ("vectorQuery", Option.map string m.vector_query)
        ∷ []))

  unfoldable pub verify : Value → Option String
  verify m =
      verify_record
        (check "tags" (expects_strings u) m
          orelse check "tagsAny" expects_boolean m
          orelse check "tagExclude" (expects_strings u) m
          orelse check "metaFilters" (expects_map u) m
          orelse check "ftsQuery" (expects_string u) m
          orelse check "limit" (expects_integer u) m
          orelse check "offset" (expects_integer u) m
          orelse check "sortBy" (expects_strings u) m
          orelse check "vectorQuery" (expects_string u) m
          orelse none)
        m

module _ (u : Util) (laws : Documented u) where
  -- `verify` accepts what `toObject` makes of a message.
  pub verify-accepts : (m : SearchRequest) → verify u (to_object u m) ≡ none
  unfolding verify to_object
  verify-accepts m = record-accepts _ (
      check-accepts _ refl "tags" _ (accepts-strings u laws "tags" m.tags)
      ⨾ check-accepts _ refl "tagsAny" _ (accepts-boolean "tagsAny" m.tags_any)
      ⨾ check-accepts _ refl "tagExclude" _ (accepts-strings u laws "tagExclude" m.tag_exclude)
      ⨾ check-accepts _ refl "metaFilters" _ (accepts-map u laws "metaFilters" m.meta_filters)
      ⨾ check-accepts _ refl "ftsQuery" _ (accepts-string u laws "ftsQuery" m.fts_query)
      ⨾ check-accepts _ refl "limit" _ (accepts-natural u laws "limit" m.limit)
      ⨾ check-accepts _ refl "offset" _ (accepts-natural u laws "offset" m.offset)
      ⨾ check-accepts _ refl "sortBy" _ (accepts-strings u laws "sortBy" m.sort_by)
      ⨾ check-accepts _ refl "vectorQuery" _ (accepts-string u laws "vectorQuery" m.vector_query)
      ⨾ refl)
