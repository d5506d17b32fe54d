-- ===== src/Ipc/FileTaggedEvent.antt =====
-- `FileTaggedEvent` of internal/ipc/gen/ipc_generated.js (bundled in internal/quickshell/services/qml_ipc.mjs): the
-- message, `encode` and `decode`, and the lemmas from which its
-- round trip is put together.
use mathlib.Core.List.{◌++◌}
use tilbo.Prelude.{
  ℕ, ◌/◌, String, refl, Option, none, some, List, [], ◌∷◌, arith, ◌==◌, if◌then◌else◌, ◌▸◌,
}
use tilbo.Runtime.{Outcome, Parser, ◌>>=◌, pure, Runtime, Source}
use tilbo.Runtime.Laws.{Laws, Progress, Moves}
use tilbo.Codec.{own, each, or_create, skip_field, decode_with, sub_message}
use tilbo.Codec.Carries.{Carries}
use tilbo.Codec.Parts.{◌⨟◌}
use tilbo.Codec.Scalars.{string-Carries, strings-Carries}
use tilbo.Codec.Ends.{◌⟨◌⟩◌, Moves-put, Moves-skip_field, Moves-sub_message}

pub record FileTaggedEvent : Type 0 where
  pub path : Option String
  pub added : List String
  pub removed : List String

-- `new FileTaggedEvent()`: every property has the default of the prototype.
abbrev pub empty : FileTaggedEvent
empty = record { path = none; added = []; removed = [] }

module _ (rt : Runtime) where
  open rt use {Byte, Writer, Reader, uint32}

  unfoldable pub encode : FileTaggedEvent → Option Writer → Writer
  encode m writer =
      or_create rt writer
      ▸ own (λ v w. w ▸ uint32 10 ▸ rt.string v) m.path
      ▸ each (λ v w. w ▸ uint32 18 ▸ rt.string v) m.added
      ▸ each (λ v w. w ▸ uint32 26 ▸ rt.string v) m.removed

  -- the switch of `decode`
  unfoldable pub decode_field : ℕ → FileTaggedEvent → Parser Reader FileTaggedEvent
  decode_field tag m =
      if tag / 8 == 1
      then (do v ← rt.read_string; pure (record m { path = some v }))
      else if tag / 8 == 2
      then (do v ← rt.read_string; pure (record m { added = m.added ++ v ∷ [] }))
      else if tag / 8 == 3
      then (do v ← rt.read_string; pure (record m { removed = m.removed ++ v ∷ [] }))
      else skip_field rt tag m

  abbrev pub decode : Source Reader Byte → Option ℕ → Option ℕ → Outcome (FileTaggedEvent × Reader)
  decode = decode_with rt decode_field empty

module _ (rt : Runtime) (laws : Laws rt) where
  -- What `encode` writes, `decode` reads back from a new message.
  pub encode-Carries :
      (m : FileTaggedEvent) → Carries rt laws (λ w. encode rt m (some w)) (decode_field rt) empty m
  unfolding encode decode_field or_create
  encode-Carries m =
      let m1 : FileTaggedEvent = record empty { path = m.path } in
      let m2 : FileTaggedEvent = record m1 { added = m.added } in
      string-Carries 10 (omega arith) (λ x. record empty { path = x }) m.path refl
      ⨟ strings-Carries 18 (omega arith) (λ x. record m1 { added = x }) m.added (λ _. refl)
      ⨟ strings-Carries 26 (omega arith) (λ x. record m2 { removed = x }) m.removed (λ _. refl)

module _ (rt : Runtime) (progress : Progress rt) where
  pub decode_field-Moves : (tag : ℕ) (m : FileTaggedEvent) → Moves rt 0 (decode_field rt tag m)
  unfolding decode_field
  decode_field-Moves tag m =
      Moves-put _ progress.moves-string
      ⟨ tag / 8 == 1 ⟩ Moves-put _ progress.moves-string
      ⟨ tag / 8 == 2 ⟩ Moves-put _ progress.moves-string
      ⟨ tag / 8 == 3 ⟩ Moves-skip_field rt progress tag m

  pub decode-Moves : Moves rt 0 (sub_message rt (decode rt))
  decode-Moves = Moves-sub_message rt progress (decode_field rt) decode_field-Moves empty
