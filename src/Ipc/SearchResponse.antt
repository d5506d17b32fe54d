-- ===== src/Ipc/SearchResponse.antt =====
-- `SearchResponse` of internal/ipc/gen/ipc_generated.js (bundled in internal/quickshell/services/qml_ipc.mjs): the
-- message, `encode` and `decode`, and the lemmas from which its
-- round trip is put together.
use mathlib.Core.List.{◌++◌}
use tilbo.Prelude.{
  ℕ, ◌/◌, refl, Option, none, some, List, [], ◌∷◌, arith, ◌==◌, if◌then◌else◌, ◌▸◌, Given, All,
}
use tilbo.Runtime.{Outcome, Parser, ◌>>=◌, pure, Runtime, Source}
use tilbo.Runtime.Laws.{Laws, Progress, Moves, IsU32}
use tilbo.Codec.{own, each, or_create, skip_field, decode_with, sub_message}
use tilbo.Codec.Carries.{Carries}
use tilbo.Codec.Parts.{◌⨟◌}
use tilbo.Codec.Scalars.{All-map, uint32-Carries, messages-Carries}
use tilbo.Codec.Ends.{◌⟨◌⟩◌, Moves-put, Moves-uint32, Moves-skip_field, Moves-sub_message}
use tilbo.Ipc.FileResult
use tilbo.Ipc.FileResult.{FileResult}

pub record SearchResponse : Type 0 where
  pub files : List FileResult
  pub total : Option ℕ

-- `new SearchResponse()`: every property has the default of the prototype.
abbrev pub empty : SearchResponse
empty = record { files = []; total = none }

module _ (rt : Runtime) where
  open rt use {Byte, Writer, Reader, uint32}

  unfoldable pub encode : SearchResponse → Option Writer → Writer
  encode m writer =
      or_create rt writer
      ▸ each (λ v w. FileResult.encode rt v (some (w ▸ uint32 10 ▸ rt.fork)) ▸ rt.ldelim) m.files
      ▸ own (λ v w. w ▸ uint32 16 ▸ rt.uint32 v) m.total

  -- the switch of `decode`
  unfoldable pub decode_field : ℕ → SearchResponse → Parser Reader SearchResponse
  decode_field tag m =
      if tag / 8 == 1
      then (do
        v ← sub_message rt (FileResult.decode rt)
        pure (record m { files = m.files ++ v ∷ [] }))
      else if tag / 8 == 2
      then (do v ← rt.read_uint32; pure (record m { total = some v }))
      else skip_field rt tag m

  abbrev pub decode : Source Reader Byte → Option ℕ → Option ℕ → Outcome (SearchResponse × Reader)
  decode = decode_with rt decode_field empty

-- The numbers fit their fields and the nested messages are valid.
pub record IsValid {rt : Runtime} (laws : Laws rt) (m : SearchResponse) : Type 0 where
  pub files : All (λ x. FileResult.IsValid laws x) m.files
  pub total : Given IsU32 m.total

module _ (rt : Runtime) (laws : Laws rt) where
  -- What `encode` writes, `decode` reads back from a new message.
  pub encode-Carries :
      (m : SearchResponse)
      → IsValid laws m
      → Carries rt laws (λ w. encode rt m (some w)) (decode_field rt) empty m
  unfolding encode decode_field or_create
  encode-Carries m v =
      let m1 : SearchResponse = record empty { files = m.files } in
      messages-Carries 10 (omega arith) _ _ (FileResult.encode rt) (λ x. record empty { files = x })
        m.files (λ _. refl) (All-map (FileResult.encode-Carries rt laws) m.files v.files)
      ⨟ uint32-Carries 16 (omega arith) (λ x. record m1 { total = x }) m.total refl v.total

module _ (rt : Runtime) (progress : Progress rt) where
  pub decode_field-Moves : (tag : ℕ) (m : SearchResponse) → Moves rt 0 (decode_field rt tag m)
  unfolding decode_field
  decode_field-Moves tag m =
      Moves-put _ (FileResult.decode-Moves rt progress)
      ⟨ tag / 8 == 1 ⟩ Moves-put _ (Moves-uint32 rt progress)
      ⟨ tag / 8 == 2 ⟩ Moves-skip_field rt progress tag m

  pub decode-Moves : Moves rt 0 (sub_message rt (decode rt))
  decode-Moves = Moves-sub_message rt progress (decode_field rt) decode_field-Moves empty
