-- ===== src/Ipc/DirEntry.antt =====
-- `DirEntry` of internal/ipc/gen/ipc_generated.js (bundled in internal/quickshell/services/qml_ipc.mjs): the
-- message, `encode` and `decode`, and the lemmas from which its
-- round trip is put together.
use tilbo.Prelude.{
  ℕ, ◌/◌, String, refl, Bool, Option, none, some, arith, ◌==◌, if◌then◌else◌, ◌▸◌, Given,
}
use tilbo.Prelude.Int.{ℤ}
use tilbo.Runtime.{Outcome, Parser, ◌>>=◌, pure, Runtime, Source}
use tilbo.Runtime.Laws.{Laws, Progress, Moves, IsU32, IsSafeInt}
use tilbo.Codec.{own, or_create, skip_field, decode_with, sub_message}
use tilbo.Codec.Carries.{Carries}
use tilbo.Codec.Parts.{◌⨟◌}
use tilbo.Codec.Scalars.{string-Carries, bool-Carries, uint32-Carries, int64-Carries}
use tilbo.Codec.Ends.{◌⟨◌⟩◌, Moves-put, Moves-uint32, Moves-skip_field, Moves-sub_message}

pub record DirEntry : Type 0 where
  pub name : Option String
  pub path : Option String
  pub is_dir : Option Bool
  pub size_bytes : Option ℤ
  pub mtime : Option ℤ
  pub mode : Option ℕ
  pub hidden : Option Bool
  pub mime_type : Option String
  pub icon_name : Option String
  pub is_link : Option Bool
  pub link_target : Option String

-- `new DirEntry()`: every property has the default of the prototype.
abbrev pub empty : DirEntry
empty = record {
  name = none;
  path = none;
  is_dir = none;
  size_bytes = none;
  mtime = none;
  mode = none;
  hidden = none;
  mime_type = none;
  icon_name = none;
  is_link = none;
  link_target = none;
}

module _ (rt : Runtime) where
  open rt use {Byte, Writer, Reader, uint32}

  unfoldable pub encode : DirEntry → Option Writer → Writer
  encode m writer =
      or_create rt writer
      ▸ own (λ v w. w ▸ uint32 10 ▸ rt.string v) m.name
      ▸ own (λ v w. w ▸ uint32 18 ▸ rt.string v) m.path
      ▸ own (λ v w. w ▸ uint32 24 ▸ rt.bool v) m.is_dir
      ▸ own (λ v w. w ▸ uint32 32 ▸ rt.int64 v) m.size_bytes
      ▸ own (λ v w. w ▸ uint32 40 ▸ rt.int64 v) m.mtime
      ▸ own (λ v w. w ▸ uint32 48 ▸ rt.uint32 v) m.mode
      ▸ own (λ v w. w ▸ uint32 56 ▸ rt.bool v) m.hidden
      ▸ own (λ v w. w ▸ uint32 66 ▸ rt.string v) m.mime_type
      ▸ own (λ v w. w ▸ uint32 74 ▸ rt.string v) m.icon_name
      ▸ own (λ v w. w ▸ uint32 80 ▸ rt.bool v) m.is_link
      ▸ own (λ v w. w ▸ uint32 90 ▸ rt.string v) m.link_target

  -- the switch of `decode`
  unfoldable pub decode_field : ℕ → DirEntry → Parser Reader DirEntry
  decode_field tag m =
      if tag / 8 == 1
      then (do v ← rt.read_string; pure (record m { name = some v }))
      else if tag / 8 == 2
      then (do v ← rt.read_string; pure (record m { path = some v }))
      else if tag / 8 == 3
      then (do v ← rt.read_bool; pure (record m { is_dir = some v }))
      else if tag / 8 == 4
      then (do v ← rt.read_int64; pure (record m { size_bytes = some v }))
      else if tag / 8 == 5
      then (do v ← rt.read_int64; pure (record m { mtime = some v }))
      else if tag / 8 == 6
      then (do v ← rt.read_uint32; pure (record m { mode = some v }))
      else if tag / 8 == 7
      then (do v ← rt.read_bool; pure (record m { hidden = some v }))
      else if tag / 8 == 8
      then (do v ← rt.read_string; pure (record m { mime_type = some v }))
      else if tag / 8 == 9
      then (do v ← rt.read_string; pure (record m { icon_name = some v }))
      else if tag / 8 == 10
      then (do v ← rt.read_bool; pure (record m { is_link = some v }))
      else if tag / 8 == 11
      then (do v ← rt.read_string; pure (record m { link_target = some v }))
      else skip_field rt tag m

  abbrev pub decode : Source Reader Byte → Option ℕ → Option ℕ → Outcome (DirEntry × Reader)
  decode = decode_with rt decode_field empty

-- The numbers fit their fields.
pub record IsValid (m : DirEntry) : Type 0 where
  pub size_bytes : Given IsSafeInt m.size_bytes
  pub mtime : Given IsSafeInt m.mtime
  pub mode : Given IsU32 m.mode

module _ (rt : Runtime) (laws : Laws rt) where
  -- What `encode` writes, `decode` reads back from a new message.
  pub encode-Carries :
      (m : DirEntry)
      → IsValid m
      → Carries rt laws (λ w. encode rt m (some w)) (decode_field rt) empty m
  unfolding encode decode_field or_create
  encode-Carries m v =
      let m1 : DirEntry = record empty { name = m.name } in
      let m2 : DirEntry = record m1 { path = m.path } in
      let m3 : DirEntry = record m2 { is_dir = m.is_dir } in
      let m4 : DirEntry = record m3 { size_bytes = m.size_bytes } in
      let m5 : DirEntry = record m4 { mtime = m.mtime } in
      let m6 : DirEntry = record m5 { mode = m.mode } in
      let m7 : DirEntry = record m6 { hidden = m.hidden } in
      let m8 : DirEntry = record m7 { mime_type = m.mime_type } in
      let m9 : DirEntry = record m8 { icon_name = m.icon_name } in
      let m10 : DirEntry = record m9 { is_link = m.is_link } in
      string-Carries 10 (omega arith) (λ x. record empty { name = x }) m.name refl
      ⨟ string-Carries 18 (omega arith) (λ x. record m1 { path = x }) m.path refl
      ⨟ bool-Carries 24 (omega arith) (λ x. record m2 { is_dir = x }) m.is_dir refl
      ⨟ int64-Carries 32 (omega arith) (λ x. record m3 { size_bytes = x }) m.size_bytes refl
          v.size_bytes
      ⨟ int64-Carries 40 (omega arith) (λ x. record m4 { mtime = x }) m.mtime refl v.mtime
      ⨟ uint32-Carries 48 (omega arith) (λ x. record m5 { mode = x }) m.mode refl v.mode
      ⨟ bool-Carries 56 (omega arith) (λ x. record m6 { hidden = x }) m.hidden refl
      ⨟ string-Carries 66 (omega arith) (λ x. record m7 { mime_type = x }) m.mime_type refl
      ⨟ string-Carries 74 (omega arith) (λ x. record m8 { icon_name = x }) m.icon_name refl
      ⨟ bool-Carries 80 (omega arith) (λ x. record m9 { is_link = x }) m.is_link refl
      ⨟ string-Carries 90 (omega arith) (λ x. record m10 { link_target = x }) m.link_target refl

module _ (rt : Runtime) (progress : Progress rt) where
  pub decode_field-Moves : (tag : ℕ) (m : DirEntry) → Moves rt 0 (decode_field rt tag m)
  unfolding decode_field
  decode_field-Moves tag m =
      Moves-put _ progress.moves-string
      ⟨ tag / 8 == 1 ⟩ Moves-put _ progress.moves-string
      ⟨ tag / 8 == 2 ⟩ Moves-put _ progress.moves-bool
      ⟨ tag / 8 == 3 ⟩ Moves-put _ progress.moves-int64
      ⟨ tag / 8 == 4 ⟩ Moves-put _ progress.moves-int64
      ⟨ tag / 8 == 5 ⟩ Moves-put _ (Moves-uint32 rt progress)
      ⟨ tag / 8 == 6 ⟩ Moves-put _ progress.moves-bool
      ⟨ tag / 8 == 7 ⟩ Moves-put _ progress.moves-string
      ⟨ tag / 8 == 8 ⟩ Moves-put _ progress.moves-string
      ⟨ tag / 8 == 9 ⟩ Moves-put _ progress.moves-bool
      ⟨ tag / 8 == 10 ⟩ Moves-put _ progress.moves-string
      ⟨ tag / 8 == 11 ⟩ Moves-skip_field rt progress tag m

  pub decode-Moves : Moves rt 0 (sub_message rt (decode rt))
  decode-Moves = Moves-sub_message rt progress (decode_field rt) decode_field-Moves empty
