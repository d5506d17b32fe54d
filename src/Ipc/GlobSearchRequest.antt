-- ===== src/Ipc/GlobSearchRequest.antt =====
-- `GlobSearchRequest` of internal/ipc/gen/ipc_generated.js (bundled in internal/quickshell/services/qml_ipc.mjs): the
-- message, `encode` and `decode`, and the lemmas from which its
-- round trip is put together.
use mathlib.Core.List.{◌++◌}
use tilbo.Prelude.{
  ℕ, ◌/◌, String, refl, Bool, Option, none, some, List, [], ◌∷◌, arith, ◌==◌, if◌then◌else◌, ◌▸◌,
  Given,
}
use tilbo.Runtime.{Outcome, Parser, ◌>>=◌, pure, Runtime, Source}
use tilbo.Runtime.Laws.{Laws, Progress, Moves, IsU32}
use tilbo.Codec.{own, each, or_create, skip_field, decode_with, sub_message}
use tilbo.Codec.Carries.{Carries}
use tilbo.Codec.Parts.{◌⨟◌}
use tilbo.Codec.Scalars.{bool-Carries, uint32-Carries, strings-Carries}
use tilbo.Codec.Ends.{◌⟨◌⟩◌, Moves-put, Moves-uint32, Moves-skip_field, Moves-sub_message}

pub record GlobSearchRequest : Type 0 where
  pub patterns : List String
  pub limit : Option ℕ
  pub allow_hidden : Option Bool

-- `new GlobSearchRequest()`: every property has the default of the prototype.
abbrev pub empty : GlobSearchRequest
empty = record { patterns = []; limit = none; allow_hidden = none }

module _ (rt : Runtime) where
  open rt use {Byte, Writer, Reader, uint32}

  unfoldable pub encode : GlobSearchRequest → Option Writer → Writer
  encode m writer =
      or_create rt writer
      ▸ each (λ v w. w ▸ uint32 10 ▸ rt.string v) m.patterns
      ▸ own (λ v w. w ▸ uint32 16 ▸ rt.uint32 v) m.limit
      ▸ own (λ v w. w ▸ uint32 24 ▸ rt.bool v) m.allow_hidden

  -- the switch of `decode`
  unfoldable pub decode_field : ℕ → GlobSearchRequest → Parser Reader GlobSearchRequest
  decode_field tag m =
      if tag / 8 == 1
      then (do v ← rt.read_string; pure (record m { patterns = m.patterns ++ v ∷ [] }))
      else if tag / 8 == 2
      then (do v ← rt.read_uint32; pure (record m { limit = some v }))
      else if tag / 8 == 3
      then (do v ← rt.read_bool; pure (record m { allow_hidden = some v }))
      else skip_field rt tag m

  abbrev pub decode :
      Source Reader Byte → Option ℕ → Option ℕ → Outcome (GlobSearchRequest × Reader)
  decode = decode_with rt decode_field empty

-- The numbers fit their fields.
pub record IsValid (m : GlobSearchRequest) : Type 0 where
  pub limit : Given IsU32 m.limit

module _ (rt : Runtime) (laws : Laws rt) where
  -- What `encode` writes, `decode` reads back from a new message.
  pub encode-Carries :
      (m : GlobSearchRequest)
      → IsValid m
      → Carries rt laws (λ w. encode rt m (some w)) (decode_field rt) empty m
  unfolding encode decode_field or_create
  encode-Carries m v =
      let m1 : GlobSearchRequest = record empty { patterns = m.patterns } in
      let m2 : GlobSearchRequest = record m1 { limit = m.limit } in
      strings-Carries 10 (omega arith) (λ x. record empty { patterns = x }) m.patterns (λ _. refl)
      ⨟ uint32-Carries 16 (omega arith) (λ x. record m1 { limit = x }) m.limit refl v.limit
      ⨟ bool-Carries 24 (omega arith) (λ x. record m2 { allow_hidden = x }) m.allow_hidden refl

module _ (rt : Runtime) (progress : Progress rt) where
  pub decode_field-Moves : (tag : ℕ) (m : GlobSearchRequest) → Moves rt 0 (decode_field rt tag m)
  unfolding decode_field
  decode_field-Moves tag m =
      Moves-put _ progress.moves-string
      ⟨ tag / 8 == 1 ⟩ Moves-put _ (Moves-uint32 rt progress)
      ⟨ tag / 8 == 2 ⟩ Moves-put _ progress.moves-bool
      ⟨ tag / 8 == 3 ⟩ Moves-skip_field rt progress tag m

  pub decode-Moves : Moves rt 0 (sub_message rt (decode rt))
  decode-Moves = Moves-sub_message rt progress (decode_field rt) decode_field-Moves empty
