-- ===== src/Ipc/TrashEntry.antt =====
-- `TrashEntry` of internal/ipc/gen/ipc_generated.js (bundled in internal/quickshell/services/qml_ipc.mjs): the
-- message, `encode` and `decode`, and the lemmas from which its
-- round trip is put together.
use tilbo.Prelude.{ℕ, ◌/◌, String, refl, Option, none, some, arith, ◌==◌, if◌then◌else◌, ◌▸◌, Given}
use tilbo.Prelude.Int.{ℤ}
use tilbo.Runtime.{Outcome, Parser, ◌>>=◌, pure, Runtime, Source}
use tilbo.Runtime.Laws.{Laws, Progress, Moves, IsSafeInt}
use tilbo.Codec.{own, or_create, skip_field, decode_with, sub_message}
use tilbo.Codec.Carries.{Carries}
use tilbo.Codec.Parts.{◌⨟◌}
use tilbo.Codec.Scalars.{string-Carries, int64-Carries}
use tilbo.Codec.Ends.{◌⟨◌⟩◌, Moves-put, Moves-skip_field, Moves-sub_message}

pub record TrashEntry : Type 0 where
  pub name : Option String
  pub original_path : Option String
  pub deletion_date : Option ℤ
  pub size_bytes : Option ℤ

-- `new TrashEntry()`: every property has the default of the prototype.
abbrev pub empty : TrashEntry
empty = record { name = none; original_path = none; deletion_date = none; size_bytes = none }

module _ (rt : Runtime) where
  open rt use {Byte, Writer, Reader, uint32}

  unfoldable pub encode : TrashEntry → Option Writer → Writer
  encode m writer =
      or_create rt writer
      ▸ own (λ v w. w ▸ uint32 10 ▸ rt.string v) m.name
      ▸ own (λ v w. w ▸ uint32 18 ▸ rt.string v) m.original_path
      ▸ own (λ v w. w ▸ uint32 24 ▸ rt.int64 v) m.deletion_date
      ▸ own (λ v w. w ▸ uint32 32 ▸ rt.int64 v) m.size_bytes

  -- the switch of `decode`
  unfoldable pub decode_field : ℕ → TrashEntry → Parser Reader TrashEntry
  decode_field tag m =
      if tag / 8 == 1
      then (do v ← rt.read_string; pure (record m { name = some v }))
      else if tag / 8 == 2
      then (do v ← rt.read_string; pure (record m { original_path = some v }))
      else if tag / 8 == 3
      then (do v ← rt.read_int64; pure (record m { deletion_date = some v }))
      else if tag / 8 == 4
      then (do v ← rt.read_int64; pure (record m { size_bytes = some v }))
      else skip_field rt tag m

  abbrev pub decode : Source Reader Byte → Option ℕ → Option ℕ → Outcome (TrashEntry × Reader)
  decode = decode_with rt decode_field empty

-- The numbers fit their fields.
pub record IsValid (m : TrashEntry) : Type 0 where
  pub deletion_date : Given IsSafeInt m.deletion_date
  pub size_bytes : Given IsSafeInt m.size_bytes

module _ (rt : Runtime) (laws : Laws rt) where
  -- What `encode` writes, `decode` reads back from a new message.
  pub encode-Carries :
      (m : TrashEntry)
      → IsValid m
      → Carries rt laws (λ w. encode rt m (some w)) (decode_field rt) empty m
  unfolding encode decode_field or_create
  encode-Carries m v =
      let m1 : TrashEntry = record empty { name = m.name } in
      let m2 : TrashEntry = record m1 { original_path = m.original_path } in
      let m3 : TrashEntry = record m2 { deletion_date = m.deletion_date } in
      string-Carries 10 (omega arith) (λ x. record empty { name = x }) m.name refl
      ⨟ string-Carries 18 (omega arith) (λ x. record m1 { original_path = x }) m.original_path refl
      ⨟ int64-Carries 24 (omega arith) (λ x. record m2 { deletion_date = x }) m.deletion_date refl
          v.deletion_date
      ⨟ int64-Carries 32 (omega arith) (λ x. record m3 { size_bytes = x }) m.size_bytes refl
          v.size_bytes

module _ (rt : Runtime) (progress : Progress rt) where
  pub decode_field-Moves : (tag : ℕ) (m : TrashEntry) → Moves rt 0 (decode_field rt tag m)
  unfolding decode_field
  decode_field-Moves tag m =
      Moves-put _ progress.moves-string
      ⟨ tag / 8 == 1 ⟩ Moves-put _ progress.moves-string
      ⟨ tag / 8 == 2 ⟩ Moves-put _ progress.moves-int64
      ⟨ tag / 8 == 3 ⟩ Moves-put _ progress.moves-int64
      ⟨ tag / 8 == 4 ⟩ Moves-skip_field rt progress tag m

  pub decode-Moves : Moves rt 0 (sub_message rt (decode rt))
  decode-Moves = Moves-sub_message rt progress (decode_field rt) decode_field-Moves empty
