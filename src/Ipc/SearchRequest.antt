-- ===== src/Ipc/SearchRequest.antt =====
-- `SearchRequest` of internal/ipc/gen/ipc_generated.js (bundled in internal/quickshell/services/qml_ipc.mjs): the
-- message, `encode` and `decode`, and the lemmas from which its
-- round trip is put together.
use mathlib.Core.List.{◌++◌}
use tilbo.Prelude.{
  ℕ, ◌/◌, String, refl, Bool, Option, none, some, List, [], ◌∷◌, arith, ◌==◌, if◌then◌else◌, ◌▸◌,
  Given,
}
use tilbo.Runtime.{Outcome, Parser, ◌>>=◌, pure, Runtime, Source}
use tilbo.Runtime.Laws.{Laws, Progress, Moves, IsU32}
use tilbo.Codec.{
  Entries, put_key, own, each, or_create, skip_field, read_entry, write_entry, decode_with,
  sub_message,
}
use tilbo.Codec.Carries.{Distinct, Carries}
use tilbo.Codec.Parts.{◌⨟◌, Carries-entries}
use tilbo.Codec.Scalars.{string-Carries, bool-Carries, uint32-Carries, strings-Carries}
use tilbo.Codec.Ends.{
  ◌⟨◌⟩◌, Moves-put, Moves-uint32, Moves-skip_field, Moves-sub_message, Moves-read_entry,
}

pub record SearchRequest : Type 0 where
  pub tags : List String
  pub tags_any : Option Bool
  pub tag_exclude : List String
  pub meta_filters : Entries
  pub fts_query : Option String
  pub limit : Option ℕ
  pub offset : Option ℕ
  pub sort_by : List String
  pub vector_query : Option String

-- `new SearchRequest()`: every property has the default of the prototype.
abbrev pub empty : SearchRequest
empty = record {
  tags = [];
  tags_any = none;
  tag_exclude = [];
  meta_filters = [];
  fts_query = none;
  limit = none;
  offset = none;
  sort_by = [];
  vector_query = none;
}

module _ (rt : Runtime) where
  open rt use {Byte, Writer, Reader, uint32}

  unfoldable pub encode : SearchRequest → Option Writer → Writer
  encode m writer =
      or_create rt writer
      ▸ each (λ v w. w ▸ uint32 10 ▸ rt.string v) m.tags
      ▸ own (λ v w. w ▸ uint32 16 ▸ rt.bool v) m.tags_any
      ▸ each (λ v w. w ▸ uint32 26 ▸ rt.string v) m.tag_exclude
      ▸ each (λ e w. w ▸ uint32 34 ▸ write_entry rt e) m.meta_filters
      ▸ own (λ v w. w ▸ uint32 42 ▸ rt.string v) m.fts_query
      ▸ own (λ v w. w ▸ uint32 48 ▸ rt.uint32 v) m.limit
      ▸ own (λ v w. w ▸ uint32 56 ▸ rt.uint32 v) m.offset
      ▸ each (λ v w. w ▸ uint32 66 ▸ rt.string v) m.sort_by
      ▸ own (λ v w. w ▸ uint32 74 ▸ rt.string v) m.vector_query

  -- the switch of `decode`
  unfoldable pub decode_field : ℕ → SearchRequest → Parser Reader SearchRequest
  decode_field tag m =
      if tag / 8 == 1
      then (do v ← rt.read_string; pure (record m { tags = m.tags ++ v ∷ [] }))
      else if tag / 8 == 2
      then (do v ← rt.read_bool; pure (record m { tags_any = some v }))
      else if tag / 8 == 3
      then (do v ← rt.read_string; pure (record m { tag_exclude = m.tag_exclude ++ v ∷ [] }))
      else if tag / 8 == 4
      then (do e ← read_entry rt; pure (record m { meta_filters = put_key e.0 e.1 m.meta_filters }))
      else if tag / 8 == 5
      then (do v ← rt.read_string; pure (record m { fts_query = some v }))
      else if tag / 8 == 6
      then (do v ← rt.read_uint32; pure (record m { limit = some v }))
      else if tag / 8 == 7
      then (do v ← rt.read_uint32; pure (record m { offset = some v }))
      else if tag / 8 == 8
      then (do v ← rt.read_string; pure (record m { sort_by = m.sort_by ++ v ∷ [] }))
      else if tag / 8 == 9
      then (do v ← rt.read_string; pure (record m { vector_query = some v }))
      else skip_field rt tag m

  abbrev pub decode : Source Reader Byte → Option ℕ → Option ℕ → Outcome (SearchRequest × Reader)
  decode = decode_with rt decode_field empty

-- The numbers fit their fields and the keys of a map are distinct.
pub record IsValid (m : SearchRequest) : Type 0 where
  pub meta_filters : Distinct m.meta_filters
  pub limit : Given IsU32 m.limit
  pub offset : Given IsU32 m.offset

module _ (rt : Runtime) (laws : Laws rt) where
  -- What `encode` writes, `decode` reads back from a new message.
  pub encode-Carries :
      (m : SearchRequest)
      → IsValid m
      → Carries rt laws (λ w. encode rt m (some w)) (decode_field rt) empty m
  unfolding encode decode_field or_create
  encode-Carries m v =
      let m1 : SearchRequest = record empty { tags = m.tags } in
      let m2 : SearchRequest = record m1 { tags_any = m.tags_any } in
      let m3 : SearchRequest = record m2 { tag_exclude = m.tag_exclude } in
      let m4 : SearchRequest = record m3 { meta_filters = m.meta_filters } in
      let m5 : SearchRequest = record m4 { fts_query = m.fts_query } in
      let m6 : SearchRequest = record m5 { limit = m.limit } in
      let m7 : SearchRequest = record m6 { offset = m.offset } in
      let m8 : SearchRequest = record m7 { sort_by = m.sort_by } in
      strings-Carries 10 (omega arith) (λ x. record empty { tags = x }) m.tags (λ _. refl)
      ⨟ bool-Carries 16 (omega arith) (λ x. record m1 { tags_any = x }) m.tags_any refl
      ⨟ strings-Carries 26 (omega arith) (λ x. record m2 { tag_exclude = x }) m.tag_exclude
          (λ _. refl)
      ⨟ Carries-entries rt laws (decode_field rt) 34 (omega arith)
          (λ x. record m3 { meta_filters = x }) m.meta_filters (λ _. refl) v.meta_filters
      ⨟ string-Carries 42 (omega arith) (λ x. record m4 { fts_query = x }) m.fts_query refl
      ⨟ uint32-Carries 48 (omega arith) (λ x. record m5 { limit = x }) m.limit refl v.limit
      ⨟ uint32-Carries 56 (omega arith) (λ x. record m6 { offset = x }) m.offset refl v.offset
      ⨟ strings-Carries 66 (omega arith) (λ x. record m7 { sort_by = x }) m.sort_by (λ _. refl)
      ⨟ string-Carries 74 (omega arith) (λ x. record m8 { vector_query = x }) m.vector_query refl

module _ (rt : Runtime) (progress : Progress rt) where
  pub decode_field-Moves : (tag : ℕ) (m : SearchRequest) → Moves rt 0 (decode_field rt tag m)
  unfolding decode_field
  decode_field-Moves tag m =
      Moves-put _ progress.moves-string
      ⟨ tag / 8 == 1 ⟩ Moves-put _ progress.moves-bool
      ⟨ tag / 8 == 2 ⟩ Moves-put _ progress.moves-string
      ⟨ tag / 8 == 3 ⟩ Moves-put _ (Moves-read_entry rt progress)
      ⟨ tag / 8 == 4 ⟩ Moves-put _ progress.moves-string
      ⟨ tag / 8 == 5 ⟩ Moves-put _ (Moves-uint32 rt progress)
      ⟨ tag / 8 == 6 ⟩ Moves-put _ (Moves-uint32 rt progress)
      ⟨ tag / 8 == 7 ⟩ Moves-put _ progress.moves-string
      ⟨ tag / 8 == 8 ⟩ Moves-put _ progress.moves-string
      ⟨ tag / 8 == 9 ⟩ Moves-skip_field rt progress tag m

  pub decode-Moves : Moves rt 0 (sub_message rt (decode rt))
  decode-Moves = Moves-sub_message rt progress (decode_field rt) decode_field-Moves empty
