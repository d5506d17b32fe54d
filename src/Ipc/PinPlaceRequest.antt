-- ===== src/Ipc/PinPlaceRequest.antt =====
-- `PinPlaceRequest` of internal/ipc/gen/ipc_generated.js (bundled in internal/quickshell/services/qml_ipc.mjs): the
-- message, `encode` and `decode`, and the lemmas from which its
-- round trip is put together.
use tilbo.Prelude.{ℕ, ◌/◌, String, refl, Option, none, some, arith, ◌==◌, if◌then◌else◌, ◌▸◌}
use tilbo.Runtime.{Outcome, Parser, ◌>>=◌, pure, Runtime, Source}
use tilbo.Runtime.Laws.{Laws, Progress, Moves}
use tilbo.Codec.{own, or_create, skip_field, decode_with, sub_message}
use tilbo.Codec.Carries.{Carries}
use tilbo.Codec.Parts.{◌⨟◌}
use tilbo.Codec.Scalars.{string-Carries}
use tilbo.Codec.Ends.{◌⟨◌⟩◌, Moves-put, Moves-skip_field, Moves-sub_message}

pub record PinPlaceRequest : Type 0 where
  pub name : Option String
  pub path : Option String
  pub icon_name : Option String

-- `new PinPlaceRequest()`: every property has the default of the prototype.
abbrev pub empty : PinPlaceRequest
empty = record { name = none; path = none; icon_name = none }

module _ (rt : Runtime) where
  open rt use {Byte, Writer, Reader, uint32}

  unfoldable pub encode : PinPlaceRequest → Option Writer → Writer
  encode m writer =
      or_create rt writer
      ▸ own (λ v w. w ▸ uint32 10 ▸ rt.string v) m.name
      ▸ own (λ v w. w ▸ uint32 18 ▸ rt.string v) m.path
      ▸ own (λ v w. w ▸ uint32 26 ▸ rt.string v) m.icon_name

  -- the switch of `decode`
  unfoldable pub decode_field : ℕ → PinPlaceRequest → Parser Reader PinPlaceRequest
  decode_field tag m =
      if tag / 8 == 1
      then (do v ← rt.read_string; pure (record m { name = some v }))
      else if tag / 8 == 2
      then (do v ← rt.read_string; pure (record m { path = some v }))
      else if tag / 8 == 3
      then (do v ← rt.read_string; pure (record m { icon_name = some v }))
      else skip_field rt tag m

  abbrev pub decode : Source Reader Byte → Option ℕ → Option ℕ → Outcome (PinPlaceRequest × Reader)
  decode = decode_with rt decode_field empty

module _ (rt : Runtime) (laws : Laws rt) where
  -- What `encode` writes, `decode` reads back from a new message.
  pub encode-Carries :
      (m : PinPlaceRequest) → Carries rt laws (λ w. encode rt m (some w)) (decode_field rt) empty m
  unfolding encode decode_field or_create
  encode-Carries m =
      let m1 : PinPlaceRequest = record empty { name = m.name } in
      let m2 : PinPlaceRequest = record m1 { path = m.path } in
      string-Carries 10 (omega arith) (λ x. record empty { name = x }) m.name refl
      ⨟ string-Carries 18 (omega arith) (λ x. record m1 { path = x }) m.path refl
      ⨟ string-Carries 26 (omega arith) (λ x. record m2 { icon_name = x }) m.icon_name refl

module _ (rt : Runtime) (progress : Progress rt) where
  pub decode_field-Moves : (tag : ℕ) (m : PinPlaceRequest) → Moves rt 0 (decode_field rt tag m)
  unfolding decode_field
  decode_field-Moves tag m =
      Moves-put _ progress.moves-string
      ⟨ tag / 8 == 1 ⟩ Moves-put _ progress.moves-string
      ⟨ tag / 8 == 2 ⟩ Moves-put _ progress.moves-string
      ⟨ tag / 8 == 3 ⟩ Moves-skip_field rt progress tag m

  pub decode-Moves : Moves rt 0 (sub_message rt (decode rt))
  decode-Moves = Moves-sub_message rt progress (decode_field rt) decode_field-Moves empty
