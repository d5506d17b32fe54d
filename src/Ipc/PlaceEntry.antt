-- ===== src/Ipc/PlaceEntry.antt =====
-- `PlaceEntry` of internal/ipc/gen/ipc_generated.js (bundled in internal/quickshell/services/qml_ipc.mjs): the
-- message, `encode` and `decode`, and the lemmas from which its
-- round trip is put together.
use tilbo.Prelude.{ℕ, ◌/◌, String, refl, Bool, Option, none, some, arith, ◌==◌, if◌then◌else◌, ◌▸◌}
use tilbo.Runtime.{Outcome, Parser, ◌>>=◌, pure, Runtime, Source}
use tilbo.Runtime.Laws.{Laws, Progress, Moves}
use tilbo.Codec.{own, or_create, skip_field, decode_with, sub_message}
use tilbo.Codec.Carries.{Carries}
use tilbo.Codec.Parts.{◌⨟◌}
use tilbo.Codec.Scalars.{string-Carries, bool-Carries}
use tilbo.Codec.Ends.{◌⟨◌⟩◌, Moves-put, Moves-skip_field, Moves-sub_message}

pub record PlaceEntry : Type 0 where
  pub name : Option String
  pub path : Option String
  pub pinned : Option Bool
  pub icon_name : Option String

-- `new PlaceEntry()`: every property has the default of the prototype.
abbrev pub empty : PlaceEntry
empty = record { name = none; path = none; pinned = none; icon_name = none }

module _ (rt : Runtime) where
  open rt use {Byte, Writer, Reader, uint32}

  unfoldable pub encode : PlaceEntry → Option Writer → Writer
  encode m writer =
      or_create rt writer
      ▸ own (λ v w. w ▸ uint32 10 ▸ rt.string v) m.name
      ▸ own (λ v w. w ▸ uint32 18 ▸ rt.string v) m.path
      ▸ own (λ v w. w ▸ uint32 24 ▸ rt.bool v) m.pinned
      ▸ own (λ v w. w ▸ uint32 34 ▸ rt.string v) m.icon_name

  -- the switch of `decode`
  unfoldable pub decode_field : ℕ → PlaceEntry → Parser Reader PlaceEntry
  decode_field tag m =
      if tag / 8 == 1
      then (do v ← rt.read_string; pure (record m { name = some v }))
      else if tag / 8 == 2
      then (do v ← rt.read_string; pure (record m { path = some v }))
      else if tag / 8 == 3
      then (do v ← rt.read_bool; pure (record m { pinned = some v }))
      else if tag / 8 == 4
      then (do v ← rt.read_string; pure (record m { icon_name = some v }))
      else skip_field rt tag m

  abbrev pub decode : Source Reader Byte → Option ℕ → Option ℕ → Outcome (PlaceEntry × Reader)
  decode = decode_with rt decode_field empty

module _ (rt : Runtime) (laws : Laws rt) where
  -- What `encode` writes, `decode` reads back from a new message.
  pub encode-Carries :
      (m : PlaceEntry) → Carries rt laws (λ w. encode rt m (some w)) (decode_field rt) empty m
  unfolding encode decode_field or_create
  encode-Carries m =
      let m1 : PlaceEntry = record empty { name = m.name } in
      let m2 : PlaceEntry = record m1 { path = m.path } in
      let m3 : PlaceEntry = record m2 { pinned = m.pinned } in
      string-Carries 10 (omega arith) (λ x. record empty { name = x }) m.name refl
      ⨟ string-Carries 18 (omega arith) (λ x. record m1 { path = x }) m.path refl
      ⨟ bool-Carries 24 (omega arith) (λ x. record m2 { pinned = x }) m.pinned refl
      ⨟ string-Carries 34 (omega arith) (λ x. record m3 { icon_name = x }) m.icon_name refl

module _ (rt : Runtime) (progress : Progress rt) where
  pub decode_field-Moves : (tag : ℕ) (m : PlaceEntry) → Moves rt 0 (decode_field rt tag m)
  unfolding decode_field
  decode_field-Moves tag m =
      Moves-put _ progress.moves-string
      ⟨ tag / 8 == 1 ⟩ Moves-put _ progress.moves-string
      ⟨ tag / 8 == 2 ⟩ Moves-put _ progress.moves-bool
      ⟨ tag / 8 == 3 ⟩ Moves-put _ progress.moves-string
      ⟨ tag / 8 == 4 ⟩ Moves-skip_field rt progress tag m

  pub decode-Moves : Moves rt 0 (sub_message rt (decode rt))
  decode-Moves = Moves-sub_message rt progress (decode_field rt) decode_field-Moves empty
