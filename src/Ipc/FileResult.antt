-- ===== src/Ipc/FileResult.antt =====
-- `FileResult` of internal/ipc/gen/ipc_generated.js (bundled in internal/quickshell/services/qml_ipc.mjs): the
-- message, `encode` and `decode`, and the lemmas from which its
-- round trip is put together.
use mathlib.Core.List.{◌++◌}
use tilbo.Prelude.{
  ℕ, ◌/◌, String, refl, Bool, Option, none, some, List, [], ◌∷◌, arith, ◌==◌, if◌then◌else◌, ◌▸◌,
  Given,
}
use tilbo.Prelude.Int.{ℤ}
use tilbo.Runtime.{Outcome, Parser, ◌>>=◌, pure, Double, Runtime, Source}
use tilbo.Runtime.Laws.{Laws, Progress, Moves, IsSafeInt}
use tilbo.Codec.{
  Entries, put_key, own, each, or_create, skip_field, read_entry, write_entry, decode_with,
  sub_message,
}
use tilbo.Codec.Carries.{Distinct, Carries}
use tilbo.Codec.Parts.{◌⨟◌, Carries-entries}
use tilbo.Codec.Scalars.{
  string-Carries, bool-Carries, int64-Carries, double-Carries, strings-Carries,
}
use tilbo.Codec.Ends.{◌⟨◌⟩◌, Moves-put, Moves-skip_field, Moves-sub_message, Moves-read_entry}

pub record FileResult : Type 0 where
  pub path : Option String
  pub tags : List String
  pub metadata : Entries
  pub score : Option Double
  pub mtime : Option ℤ
  pub size_bytes : Option ℤ
  pub is_link : Option Bool
  pub link_target : Option String

-- `new FileResult()`: every property has the default of the prototype.
abbrev pub empty : FileResult
empty = record {
  path = none;
  tags = [];
  metadata = [];
  score = none;
  mtime = none;
  size_bytes = none;
  is_link = none;
  link_target = none;
}

module _ (rt : Runtime) where
  open rt use {Byte, Writer, Reader, uint32}

  unfoldable pub encode : FileResult → Option Writer → Writer
  encode m writer =
      or_create rt writer
      ▸ own (λ v w. w ▸ uint32 10 ▸ rt.string v) m.path
      ▸ each (λ v w. w ▸ uint32 18 ▸ rt.string v) m.tags
      ▸ each (λ e w. w ▸ uint32 26 ▸ write_entry rt e) m.metadata
      ▸ own (λ v w. w ▸ uint32 33 ▸ rt.double v) m.score
      ▸ own (λ v w. w ▸ uint32 40 ▸ rt.int64 v) m.mtime
      ▸ own (λ v w. w ▸ uint32 48 ▸ rt.int64 v) m.size_bytes
      ▸ own (λ v w. w ▸ uint32 56 ▸ rt.bool v) m.is_link
      ▸ own (λ v w. w ▸ uint32 66 ▸ rt.string v) m.link_target

  -- the switch of `decode`
  unfoldable pub decode_field : ℕ → FileResult → Parser Reader FileResult
  decode_field tag m =
      if tag / 8 == 1
      then (do v ← rt.read_string; pure (record m { path = some v }))
      else if tag / 8 == 2
      then (do v ← rt.read_string; pure (record m { tags = m.tags ++ v ∷ [] }))
      else if tag / 8 == 3
      then (do e ← read_entry rt; pure (record m { metadata = put_key e.0 e.1 m.metadata }))
      else if tag / 8 == 4
      then (do v ← rt.read_double; pure (record m { score = some v }))
      else if tag / 8 == 5
      then (do v ← rt.read_int64; pure (record m { mtime = some v }))
      else if tag / 8 == 6
      then (do v ← rt.read_int64; pure (record m { size_bytes = some v }))
      else if tag / 8 == 7
      then (do v ← rt.read_bool; pure (record m { is_link = some v }))
      else if tag / 8 == 8
      then (do v ← rt.read_string; pure (record m { link_target = some v }))
      else skip_field rt tag m

  abbrev pub decode : Source Reader Byte → Option ℕ → Option ℕ → Outcome (FileResult × Reader)
  decode = decode_with rt decode_field empty

-- The numbers fit their fields and the keys of a map are distinct.
pub record IsValid {rt : Runtime} (laws : Laws rt) (m : FileResult) : Type 0 where
  pub metadata : Distinct m.metadata
  pub score : Given laws.IsDouble m.score
  pub mtime : Given IsSafeInt m.mtime
  pub size_bytes : Given IsSafeInt m.size_bytes

module _ (rt : Runtime) (laws : Laws rt) where
  -- What `encode` writes, `decode` reads back from a new message.
  pub encode-Carries :
      (m : FileResult)
      → IsValid laws m
      → Carries rt laws (λ w. encode rt m (some w)) (decode_field rt) empty m
  unfolding encode decode_field or_create
  encode-Carries m v =
      let m1 : FileResult = record empty { path = m.path } in
      let m2 : FileResult = record m1 { tags = m.tags } in
      let m3 : FileResult = record m2 { metadata = m.metadata } in
      let m4 : FileResult = record m3 { score = m.score } in
      let m5 : FileResult = record m4 { mtime = m.mtime } in
      let m6 : FileResult = record m5 { size_bytes = m.size_bytes } in
      let m7 : FileResult = record m6 { is_link = m.is_link } in
      string-Carries 10 (omega arith) (λ x. record empty { path = x }) m.path refl
      ⨟ strings-Carries 18 (omega arith) (λ x. record m1 { tags = x }) m.tags (λ _. refl)
      ⨟ Carries-entries rt laws (decode_field rt) 26 (omega arith) (λ x. record m2 { metadata = x })
          m.metadata (λ _. refl) v.metadata
      ⨟ double-Carries 33 (omega arith) (λ x. record m3 { score = x }) m.score refl v.score
      ⨟ int64-Carries 40 (omega arith) (λ x. record m4 { mtime = x }) m.mtime refl v.mtime
      ⨟ int64-Carries 48 (omega arith) (λ x. record m5 { size_bytes = x }) m.size_bytes refl
          v.size_bytes
      ⨟ bool-Carries 56 (omega arith) (λ x. record m6 { is_link = x }) m.is_link refl
      ⨟ string-Carries 66 (omega arith) (λ x. record m7 { link_target = x }) m.link_target refl

module _ (rt : Runtime) (progress : Progress rt) where
  pub decode_field-Moves : (tag : ℕ) (m : FileResult) → Moves rt 0 (decode_field rt tag m)
  unfolding decode_field
  decode_field-Moves tag m =
      Moves-put _ progress.moves-string
      ⟨ tag / 8 == 1 ⟩ Moves-put _ progress.moves-string
      ⟨ tag / 8 == 2 ⟩ Moves-put _ (Moves-read_entry rt progress)
      ⟨ tag / 8 == 3 ⟩ Moves-put _ progress.moves-double
      ⟨ tag / 8 == 4 ⟩ Moves-put _ progress.moves-int64
      ⟨ tag / 8 == 5 ⟩ Moves-put _ progress.moves-int64
      ⟨ tag / 8 == 6 ⟩ Moves-put _ progress.moves-bool
      ⟨ tag / 8 == 7 ⟩ Moves-put _ progress.moves-string
      ⟨ tag / 8 == 8 ⟩ Moves-skip_field rt progress tag m

  pub decode-Moves : Moves rt 0 (sub_message rt (decode rt))
  decode-Moves = Moves-sub_message rt progress (decode_field rt) decode_field-Moves empty
