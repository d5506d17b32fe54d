-- ===== src/Ipc/TagResponse.antt =====
-- `TagResponse` of internal/ipc/gen/ipc_generated.js (bundled in internal/quickshell/services/qml_ipc.mjs): the
-- message, `encode` and `decode`, and the lemmas from which its
-- round trip is put together.
use mathlib.Core.List.{◌++◌}
use tilbo.Prelude.{
  ℕ, ◌/◌, String, refl, Option, some, List, [], ◌∷◌, arith, ◌==◌, if◌then◌else◌, ◌▸◌,
}
use tilbo.Runtime.{Outcome, Parser, ◌>>=◌, pure, Runtime, Source}
use tilbo.Runtime.Laws.{Laws, Progress, Moves}
use tilbo.Codec.{
  Entries, put_key, each, or_create, skip_field, read_entry, write_entry, decode_with, sub_message,
}
use tilbo.Codec.Carries.{Distinct, Carries}
use tilbo.Codec.Parts.{◌⨟◌, Carries-entries}
use tilbo.Codec.Scalars.{strings-Carries}
use tilbo.Codec.Ends.{◌⟨◌⟩◌, Moves-put, Moves-skip_field, Moves-sub_message, Moves-read_entry}

pub record TagResponse : Type 0 where
  pub paths_ok : List String
  pub paths_error : List String
  pub errors : Entries

-- `new TagResponse()`: every property has the default of the prototype.
abbrev pub empty : TagResponse
empty = record { paths_ok = []; paths_error = []; errors = [] }

module _ (rt : Runtime) where
  open rt use {Byte, Writer, Reader, uint32}

  unfoldable pub encode : TagResponse → Option Writer → Writer
  encode m writer =
      or_create rt writer
      ▸ each (λ v w. w ▸ uint32 10 ▸ rt.string v) m.paths_ok
      ▸ each (λ v w. w ▸ uint32 18 ▸ rt.string v) m.paths_error
      ▸ each (λ e w. w ▸ uint32 26 ▸ write_entry rt e) m.errors

  -- the switch of `decode`
  unfoldable pub decode_field : ℕ → TagResponse → Parser Reader TagResponse
  decode_field tag m =
      if tag / 8 == 1
      then (do v ← rt.read_string; pure (record m { paths_ok = m.paths_ok ++ v ∷ [] }))
      else if tag / 8 == 2
      then (do v ← rt.read_string; pure (record m { paths_error = m.paths_error ++ v ∷ [] }))
      else if tag / 8 == 3
      then (do e ← read_entry rt; pure (record m { errors = put_key e.0 e.1 m.errors }))
      else skip_field rt tag m

  abbrev pub decode : Source Reader Byte → Option ℕ → Option ℕ → Outcome (TagResponse × Reader)
  decode = decode_with rt decode_field empty

-- The keys of a map are distinct.
pub record IsValid (m : TagResponse) : Type 0 where
  pub errors : Distinct m.errors

module _ (rt : Runtime) (laws : Laws rt) where
  -- What `encode` writes, `decode` reads back from a new message.
  pub encode-Carries :
      (m : TagResponse)
      → IsValid m
      → Carries rt laws (λ w. encode rt m (some w)) (decode_field rt) empty m
  unfolding encode decode_field or_create
  encode-Carries m v =
      let m1 : TagResponse = record empty { paths_ok = m.paths_ok } in
      let m2 : TagResponse = record m1 { paths_error = m.paths_error } in
      strings-Carries 10 (omega arith) (λ x. record empty { paths_ok = x }) m.paths_ok (λ _. refl)
      ⨟ strings-Carries 18 (omega arith) (λ x. record m1 { paths_error = x }) m.paths_error
          (λ _. refl)
      ⨟ Carries-entries rt laws (decode_field rt) 26 (omega arith) (λ x. record m2 { errors = x })
          m.errors (λ _. refl) v.errors

module _ (rt : Runtime) (progress : Progress rt) where
  pub decode_field-Moves : (tag : ℕ) (m : TagResponse) → Moves rt 0 (decode_field rt tag m)
  unfolding decode_field
  decode_field-Moves tag m =
      Moves-put _ progress.moves-string
      ⟨ tag / 8 == 1 ⟩ Moves-put _ progress.moves-string
      ⟨ tag / 8 == 2 ⟩ Moves-put _ (Moves-read_entry rt progress)
      ⟨ tag / 8 == 3 ⟩ Moves-skip_field rt progress tag m

  pub decode-Moves : Moves rt 0 (sub_message rt (decode rt))
  decode-Moves = Moves-sub_message rt progress (decode_field rt) decode_field-Moves empty
