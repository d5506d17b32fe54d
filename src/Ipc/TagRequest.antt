-- ===== src/Ipc/TagRequest.antt =====
-- `TagRequest` of internal/ipc/gen/ipc_generated.js (bundled in internal/quickshell/services/qml_ipc.mjs): the
-- message, `encode` and `decode`, and the lemmas from which its
-- round trip is put together.
use mathlib.Core.List.{◌++◌}
use tilbo.Prelude.{
  ℕ, ◌/◌, String, refl, Option, none, some, List, [], ◌∷◌, arith, ◌==◌, if◌then◌else◌, ◌▸◌, Given,
}
use tilbo.Prelude.Int.{ℤ}
use tilbo.Runtime.{Outcome, Parser, ◌>>=◌, pure, Runtime, Source}
use tilbo.Runtime.Laws.{Laws, Progress, Moves, IsInt32}
use tilbo.Codec.{own, each, or_create, skip_field, decode_with, sub_message}
use tilbo.Codec.Carries.{Carries}
use tilbo.Codec.Parts.{◌⨟◌}
use tilbo.Codec.Scalars.{int32-Carries, strings-Carries}
use tilbo.Codec.Ends.{◌⟨◌⟩◌, Moves-put, Moves-skip_field, Moves-sub_message}

pub record TagRequest : Type 0 where
  pub paths : List String
  pub tags : List String
  pub operation : Option ℤ

-- `new TagRequest()`: every property has the default of the prototype.
abbrev pub empty : TagRequest
empty = record { paths = []; tags = []; operation = none }

module _ (rt : Runtime) where
  open rt use {Byte, Writer, Reader, uint32}

  unfoldable pub encode : TagRequest → Option Writer → Writer
  encode m writer =
      or_create rt writer
      ▸ each (λ v w. w ▸ uint32 10 ▸ rt.string v) m.paths
      ▸ each (λ v w. w ▸ uint32 18 ▸ rt.string v) m.tags
      ▸ own (λ v w. w ▸ uint32 24 ▸ rt.int32 v) m.operation

  -- the switch of `decode`
  unfoldable pub decode_field : ℕ → TagRequest → Parser Reader TagRequest
  decode_field tag m =
      if tag / 8 == 1
      then (do v ← rt.read_string; pure (record m { paths = m.paths ++ v ∷ [] }))
      else if tag / 8 == 2
      then (do v ← rt.read_string; pure (record m { tags = m.tags ++ v ∷ [] }))
      else if tag / 8 == 3
      then (do v ← rt.read_int32; pure (record m { operation = some v }))
      else skip_field rt tag m

  abbrev pub decode : Source Reader Byte → Option ℕ → Option ℕ → Outcome (TagRequest × Reader)
  decode = decode_with rt decode_field empty

-- The numbers fit their fields.
pub record IsValid (m : TagRequest) : Type 0 where
  pub operation : Given IsInt32 m.operation

module _ (rt : Runtime) (laws : Laws rt) where
  -- What `encode` writes, `decode` reads back from a new message.
  pub encode-Carries :
      (m : TagRequest)
      → IsValid m
      → Carries rt laws (λ w. encode rt m (some w)) (decode_field rt) empty m
  unfolding encode decode_field or_create
  encode-Carries m v =
      let m1 : TagRequest = record empty { paths = m.paths } in
      let m2 : TagRequest = record m1 { tags = m.tags } in
      strings-Carries 10 (omega arith) (λ x. record empty { paths = x }) m.paths (λ _. refl)
      ⨟ strings-Carries 18 (omega arith) (λ x. record m1 { tags = x }) m.tags (λ _. refl)
      ⨟ int32-Carries 24 (omega arith) (λ x. record m2 { operation = x }) m.operation refl
          v.operation

module _ (rt : Runtime) (progress : Progress rt) where
  pub decode_field-Moves : (tag : ℕ) (m : TagRequest) → Moves rt 0 (decode_field rt tag m)
  unfolding decode_field
  decode_field-Moves tag m =
      Moves-put _ progress.moves-string
      ⟨ tag / 8 == 1 ⟩ Moves-put _ progress.moves-string
      ⟨ tag / 8 == 2 ⟩ Moves-put _ progress.moves-int32
      ⟨ tag / 8 == 3 ⟩ Moves-skip_field rt progress tag m

  pub decode-Moves : Moves rt 0 (sub_message rt (decode rt))
  decode-Moves = Moves-sub_message rt progress (decode_field rt) decode_field-Moves empty
