-- ===== src/Ipc/DaemonStateChangedEvent.antt =====
-- `DaemonStateChangedEvent` of internal/ipc/gen/ipc_generated.js (bundled in internal/quickshell/services/qml_ipc.mjs): the
-- message, `encode` and `decode`, and the lemmas from which its
-- round trip is put together.
use tilbo.Prelude.{ℕ, ◌/◌, String, refl, Option, none, some, arith, ◌==◌, if◌then◌else◌, ◌▸◌}
use tilbo.Runtime.{Outcome, Parser, ◌>>=◌, pure, Runtime, Source}
use tilbo.Runtime.Laws.{Laws, Progress, Moves}
use tilbo.Codec.{own, or_create, skip_field, decode_with, sub_message}
use tilbo.Codec.Carries.{Carries}
use tilbo.Codec.Scalars.{string-Carries}
use tilbo.Codec.Ends.{◌⟨◌⟩◌, Moves-put, Moves-skip_field, Moves-sub_message}

pub record DaemonStateChangedEvent : Type 0 where
  pub state : Option String

-- `new DaemonStateChangedEvent()`: every property has the default of the prototype.
abbrev pub empty : DaemonStateChangedEvent
empty = record { state = none }

module _ (rt : Runtime) where
  open rt use {Byte, Writer, Reader, uint32}

  unfoldable pub encode : DaemonStateChangedEvent → Option Writer → Writer
  encode m writer = or_create rt writer ▸ own (λ v w. w ▸ uint32 10 ▸ rt.string v) m.state

  -- the switch of `decode`
  unfoldable pub decode_field : ℕ → DaemonStateChangedEvent → Parser Reader DaemonStateChangedEvent
  decode_field tag m =
      if tag / 8 == 1
      then (do v ← rt.read_string; pure (record m { state = some v }))
      else skip_field rt tag m

  abbrev pub decode :
      Source Reader Byte → Option ℕ → Option ℕ → Outcome (DaemonStateChangedEvent × Reader)
  decode = decode_with rt decode_field empty

module _ (rt : Runtime) (laws : Laws rt) where
  -- What `encode` writes, `decode` reads back from a new message.
  pub encode-Carries :
      (m : DaemonStateChangedEvent)
      → Carries rt laws (λ w. encode rt m (some w)) (decode_field rt) empty m
  unfolding encode decode_field or_create
  encode-Carries m = string-Carries 10 (omega arith) (λ x. record empty { state = x }) m.state refl

module _ (rt : Runtime) (progress : Progress rt) where
  pub decode_field-Moves :
      (tag : ℕ) (m : DaemonStateChangedEvent) → Moves rt 0 (decode_field rt tag m)
  unfolding decode_field
  decode_field-Moves tag m =
      Moves-put _ progress.moves-string ⟨ tag / 8 == 1 ⟩ Moves-skip_field rt progress tag m

  pub decode-Moves : Moves rt 0 (sub_message rt (decode rt))
  decode-Moves = Moves-sub_message rt progress (decode_field rt) decode_field-Moves empty
