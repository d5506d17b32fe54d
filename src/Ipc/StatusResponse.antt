-- ===== src/Ipc/StatusResponse.antt =====
-- `StatusResponse` of internal/ipc/gen/ipc_generated.js (bundled in internal/quickshell/services/qml_ipc.mjs): the
-- message, `encode` and `decode`, and the lemmas from which its
-- round trip is put together.
use mathlib.Core.List.{◌++◌}
use tilbo.Prelude.{
  ℕ, ◌/◌, String, refl, Option, none, some, List, [], ◌∷◌, arith, ◌==◌, if◌then◌else◌, ◌▸◌, Given,
}
use tilbo.Prelude.Int.{ℤ}
use tilbo.Runtime.{Outcome, Parser, ◌>>=◌, pure, Double, Runtime, Source}
use tilbo.Runtime.Laws.{Laws, Progress, Moves, IsInt32, IsSafe, IsSafeInt}
use tilbo.Codec.{own, each, or_create, skip_field, decode_with, sub_message}
use tilbo.Codec.Carries.{Carries}
use tilbo.Codec.Parts.{◌⨟◌}
use tilbo.Codec.Scalars.{
  int32-Carries, uint64-Carries, int64-Carries, float-Carries, strings-Carries,
}
use tilbo.Codec.Ends.{◌⟨◌⟩◌, Moves-put, Moves-skip_field, Moves-sub_message}

pub record StatusResponse : Type 0 where
  pub state : Option ℤ
  pub files_indexed : Option ℕ
  pub tags_total : Option ℕ
  pub index_size_mb : Option Double
  pub warnings : List String
  pub uptime_seconds : Option ℤ

-- `new StatusResponse()`: every property has the default of the prototype.
abbrev pub empty : StatusResponse
empty = record {
  state = none;
  files_indexed = none;
  tags_total = none;
  index_size_mb = none;
  warnings = [];
  uptime_seconds = none;
}

module _ (rt : Runtime) where
  open rt use {Byte, Writer, Reader, uint32}

  unfoldable pub encode : StatusResponse → Option Writer → Writer
  encode m writer =
      or_create rt writer
      ▸ own (λ v w. w ▸ uint32 8 ▸ rt.int32 v) m.state
      ▸ own (λ v w. w ▸ uint32 16 ▸ rt.uint64 v) m.files_indexed
      ▸ own (λ v w. w ▸ uint32 24 ▸ rt.uint64 v) m.tags_total
      ▸ own (λ v w. w ▸ uint32 37 ▸ rt.float v) m.index_size_mb
      ▸ each (λ v w. w ▸ uint32 42 ▸ rt.string v) m.warnings
      ▸ own (λ v w. w ▸ uint32 48 ▸ rt.int64 v) m.uptime_seconds

  -- the switch of `decode`
  unfoldable pub decode_field : ℕ → StatusResponse → Parser Reader StatusResponse
  decode_field tag m =
      if tag / 8 == 1
      then (do v ← rt.read_int32; pure (record m { state = some v }))
      else if tag / 8 == 2
      then (do v ← rt.read_uint64; pure (record m { files_indexed = some v }))
      else if tag / 8 == 3
      then (do v ← rt.read_uint64; pure (record m { tags_total = some v }))
      else if tag / 8 == 4
      then (do v ← rt.read_float; pure (record m { index_size_mb = some v }))
      else if tag / 8 == 5
      then (do v ← rt.read_string; pure (record m { warnings = m.warnings ++ v ∷ [] }))
      else if tag / 8 == 6
      then (do v ← rt.read_int64; pure (record m { uptime_seconds = some v }))
      else skip_field rt tag m

  abbrev pub decode : Source Reader Byte → Option ℕ → Option ℕ → Outcome (StatusResponse × Reader)
  decode = decode_with rt decode_field empty

-- The numbers fit their fields.
pub record IsValid {rt : Runtime} (laws : Laws rt) (m : StatusResponse) : Type 0 where
  pub state : Given IsInt32 m.state
  pub files_indexed : Given IsSafe m.files_indexed
  pub tags_total : Given IsSafe m.tags_total
  pub index_size_mb : Given laws.IsFloat m.index_size_mb
  pub uptime_seconds : Given IsSafeInt m.uptime_seconds

module _ (rt : Runtime) (laws : Laws rt) where
  -- What `encode` writes, `decode` reads back from a new message.
  pub encode-Carries :
      (m : StatusResponse)
      → IsValid laws m
      → Carries rt laws (λ w. encode rt m (some w)) (decode_field rt) empty m
  unfolding encode decode_field or_create
  encode-Carries m v =
      let m1 : StatusResponse = record empty { state = m.state } in
      let m2 : StatusResponse = record m1 { files_indexed = m.files_indexed } in
      let m3 : StatusResponse = record m2 { tags_total = m.tags_total } in
      let m4 : StatusResponse = record m3 { index_size_mb = m.index_size_mb } in
      let m5 : StatusResponse = record m4 { warnings = m.warnings } in
      int32-Carries 8 (omega arith) (λ x. record empty { state = x }) m.state refl v.state
      ⨟ uint64-Carries 16 (omega arith) (λ x. record m1 { files_indexed = x }) m.files_indexed refl
          v.files_indexed
      ⨟ uint64-Carries 24 (omega arith) (λ x. record m2 { tags_total = x }) m.tags_total refl
          v.tags_total
      ⨟ float-Carries 37 (omega arith) (λ x. record m3 { index_size_mb = x }) m.index_size_mb refl
          v.index_size_mb
      ⨟ strings-Carries 42 (omega arith) (λ x. record m4 { warnings = x }) m.warnings (λ _. refl)
      ⨟ int64-Carries 48 (omega arith) (λ x. record m5 { uptime_seconds = x }) m.uptime_seconds refl
          v.uptime_seconds

module _ (rt : Runtime) (progress : Progress rt) where
  pub decode_field-Moves : (tag : ℕ) (m : StatusResponse) → Moves rt 0 (decode_field rt tag m)
  unfolding decode_field
  decode_field-Moves tag m =
      Moves-put _ progress.moves-int32
      ⟨ tag / 8 == 1 ⟩ Moves-put _ progress.moves-uint64
      ⟨ tag / 8 == 2 ⟩ Moves-put _ progress.moves-uint64
      ⟨ tag / 8 == 3 ⟩ Moves-put _ progress.moves-float
      ⟨ tag / 8 == 4 ⟩ Moves-put _ progress.moves-string
      ⟨ tag / 8 == 5 ⟩ Moves-put _ progress.moves-int64
      ⟨ tag / 8 == 6 ⟩ Moves-skip_field rt progress tag m

  pub decode-Moves : Moves rt 0 (sub_message rt (decode rt))
  decode-Moves = Moves-sub_message rt progress (decode_field rt) decode_field-Moves empty
