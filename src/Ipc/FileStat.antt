-- ===== src/Ipc/FileStat.antt =====
-- `FileStat` of internal/ipc/gen/ipc_generated.js (bundled in internal/quickshell/services/qml_ipc.mjs): the
-- message, `encode` and `decode`, and the lemmas from which its
-- round trip is put together.
use tilbo.Prelude.{ℕ, ◌/◌, refl, Option, none, some, arith, ◌==◌, if◌then◌else◌, ◌▸◌, Given}
use tilbo.Prelude.Int.{ℤ}
use tilbo.Runtime.{Outcome, Parser, ◌>>=◌, pure, Runtime, Source}
use tilbo.Runtime.Laws.{Laws, Progress, Moves, IsU32, IsSafeInt}
use tilbo.Codec.{own, or_create, skip_field, decode_with, sub_message}
use tilbo.Codec.Carries.{Carries}
use tilbo.Codec.Parts.{◌⨟◌}
use tilbo.Codec.Scalars.{uint32-Carries, int64-Carries}
use tilbo.Codec.Ends.{◌⟨◌⟩◌, Moves-put, Moves-uint32, Moves-skip_field, Moves-sub_message}

pub record FileStat : Type 0 where
  pub size_bytes : Option ℤ
  pub mtime : Option ℤ
  pub mode : Option ℕ

-- `new FileStat()`: every property has the default of the prototype.
abbrev pub empty : FileStat
empty = record { size_bytes = none; mtime = none; mode = none }

module _ (rt : Runtime) where
  open rt use {Byte, Writer, Reader, uint32}

  unfoldable pub encode : FileStat → Option Writer → Writer
  encode m writer =
      or_create rt writer
      ▸ own (λ v w. w ▸ uint32 8 ▸ rt.int64 v) m.size_bytes
      ▸ own (λ v w. w ▸ uint32 16 ▸ rt.int64 v) m.mtime
      ▸ own (λ v w. w ▸ uint32 24 ▸ rt.uint32 v) m.mode

  -- the switch of `decode`
  unfoldable pub decode_field : ℕ → FileStat → Parser Reader FileStat
  decode_field tag m =
      if tag / 8 == 1
      then (do v ← rt.read_int64; pure (record m { size_bytes = some v }))
      else if tag / 8 == 2
      then (do v ← rt.read_int64; pure (record m { mtime = some v }))
      else if tag / 8 == 3
      then (do v ← rt.read_uint32; pure (record m { mode = some v }))
      else skip_field rt tag m

  abbrev pub decode : Source Reader Byte → Option ℕ → Option ℕ → Outcome (FileStat × Reader)
  decode = decode_with rt decode_field empty

-- The numbers fit their fields.
pub record IsValid (m : FileStat) : Type 0 where
  pub size_bytes : Given IsSafeInt m.size_bytes
  pub mtime : Given IsSafeInt m.mtime
  pub mode : Given IsU32 m.mode

module _ (rt : Runtime) (laws : Laws rt) where
  -- What `encode` writes, `decode` reads back from a new message.
  pub encode-Carries :
      (m : FileStat)
      → IsValid m
      → Carries rt laws (λ w. encode rt m (some w)) (decode_field rt) empty m
  unfolding encode decode_field or_create
  encode-Carries m v =
      let m1 : FileStat = record empty { size_bytes = m.size_bytes } in
      let m2 : FileStat = record m1 { mtime = m.mtime } in
      int64-Carries 8 (omega arith) (λ x. record empty { size_bytes = x }) m.size_bytes refl
        v.size_bytes
      ⨟ int64-Carries 16 (omega arith) (λ x. record m1 { mtime = x }) m.mtime refl v.mtime
      ⨟ uint32-Carries 24 (omega arith) (λ x. record m2 { mode = x }) m.mode refl v.mode

module _ (rt : Runtime) (progress : Progress rt) where
  pub decode_field-Moves : (tag : ℕ) (m : FileStat) → Moves rt 0 (decode_field rt tag m)
  unfolding decode_field
  decode_field-Moves tag m =
      Moves-put _ progress.moves-int64
      ⟨ tag / 8 == 1 ⟩ Moves-put _ progress.moves-int64
      ⟨ tag / 8 == 2 ⟩ Moves-put _ (Moves-uint32 rt progress)
      ⟨ tag / 8 == 3 ⟩ Moves-skip_field rt progress tag m

  pub decode-Moves : Moves rt 0 (sub_message rt (decode rt))
  decode-Moves = Moves-sub_message rt progress (decode_field rt) decode_field-Moves empty
