-- ===== src/Ipc/SavedSearch.antt =====
-- `SavedSearch` of internal/ipc/gen/ipc_generated.js (bundled in internal/quickshell/services/qml_ipc.mjs): the
-- message, `encode` and `decode`, and the lemmas from which its
-- round trip is put together.
use mathlib.Core.List.{◌++◌}
use tilbo.Prelude.{
  ℕ, ◌/◌, String, refl, Option, none, some, List, [], ◌∷◌, arith, ◌==◌, if◌then◌else◌, ◌▸◌,
}
use tilbo.Runtime.{Outcome, Parser, ◌>>=◌, pure, Runtime, Source}
use tilbo.Runtime.Laws.{Laws, Progress, Moves}
use tilbo.Codec.{own, each, or_create, skip_field, decode_with, sub_message}
use tilbo.Codec.Carries.{Carries}
use tilbo.Codec.Parts.{◌⨟◌}
use tilbo.Codec.Scalars.{string-Carries, strings-Carries}
use tilbo.Codec.Ends.{◌⟨◌⟩◌, Moves-put, Moves-skip_field, Moves-sub_message}

pub record SavedSearch : Type 0 where
  pub name : Option String
  pub chips : List String
  pub icon_name : Option String
  pub id : Option String

-- `new SavedSearch()`: every property has the default of the prototype.
abbrev pub empty : SavedSearch
empty = record { name = none; chips = []; icon_name = none; id = none }

module _ (rt : Runtime) where
  open rt use {Byte, Writer, Reader, uint32}

  unfoldable pub encode : SavedSearch → Option Writer → Writer
  encode m writer =
      or_create rt writer
      ▸ own (λ v w. w ▸ uint32 10 ▸ rt.string v) m.name
      ▸ each (λ v w. w ▸ uint32 18 ▸ rt.string v) m.chips
      ▸ own (λ v w. w ▸ uint32 26 ▸ rt.string v) m.icon_name
      ▸ own (λ v w. w ▸ uint32 34 ▸ rt.string v) m.id

  -- the switch of `decode`
  unfoldable pub decode_field : ℕ → SavedSearch → Parser Reader SavedSearch
  decode_field tag m =
      if tag / 8 == 1
      then (do v ← rt.read_string; pure (record m { name = some v }))
      else if tag / 8 == 2
      then (do v ← rt.read_string; pure (record m { chips = m.chips ++ v ∷ [] }))
      else if tag / 8 == 3
      then (do v ← rt.read_string; pure (record m { icon_name = some v }))
      else if tag / 8 == 4
      then (do v ← rt.read_string; pure (record m { id = some v }))
      else skip_field rt tag m

  abbrev pub decode : Source Reader Byte → Option ℕ → Option ℕ → Outcome (SavedSearch × Reader)
  decode = decode_with rt decode_field empty

module _ (rt : Runtime) (laws : Laws rt) where
  -- What `encode` writes, `decode` reads back from a new message.
  pub encode-Carries :
      (m : SavedSearch) → Carries rt laws (λ w. encode rt m (some w)) (decode_field rt) empty m
  unfolding encode decode_field or_create
  encode-Carries m =
      let m1 : SavedSearch = record empty { name = m.name } in
      let m2 : SavedSearch = record m1 { chips = m.chips } in
      let m3 : SavedSearch = record m2 { icon_name = m.icon_name } in
      string-Carries 10 (omega arith) (λ x. record empty { name = x }) m.name refl
      ⨟ strings-Carries 18 (omega arith) (λ x. record m1 { chips = x }) m.chips (λ _. refl)
      ⨟ string-Carries 26 (omega arith) (λ x. record m2 { icon_name = x }) m.icon_name refl
      ⨟ string-Carries 34 (omega arith) (λ x. record m3 { id = x }) m.id refl

module _ (rt : Runtime) (progress : Progress rt) where
  pub decode_field-Moves : (tag : ℕ) (m : SavedSearch) → Moves rt 0 (decode_field rt tag m)
  unfolding decode_field
  decode_field-Moves tag m =
      Moves-put _ progress.moves-string
      ⟨ tag / 8 == 1 ⟩ Moves-put _ progress.moves-string
      ⟨ tag / 8 == 2 ⟩ Moves-put _ progress.moves-string
      ⟨ tag / 8 == 3 ⟩ Moves-put _ progress.moves-string
      ⟨ tag / 8 == 4 ⟩ Moves-skip_field rt progress tag m

  pub decode-Moves : Moves rt 0 (sub_message rt (decode rt))
  decode-Moves = Moves-sub_message rt progress (decode_field rt) decode_field-Moves empty
