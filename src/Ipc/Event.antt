-- ===== src/Ipc/Event.antt =====
-- `Event` of internal/ipc/gen/ipc_generated.js (bundled in internal/quickshell/services/qml_ipc.mjs): the
-- message, `encode` and `decode`, and the lemmas from which its
-- round trip is put together.
use tilbo.Prelude.{ℕ, ◌/◌, refl, Option, none, some, arith, ◌==◌, if◌then◌else◌, ◌▸◌, Given}
use tilbo.Runtime.{Outcome, Parser, ◌>>=◌, pure, Runtime, Source}
use tilbo.Runtime.Laws.{Laws, Progress, Moves}
use tilbo.Codec.{own, or_create, skip_field, decode_with, sub_message}
use tilbo.Codec.Carries.{Carries}
use tilbo.Codec.Parts.{◌⨟◌}
use tilbo.Codec.Scalars.{Given-map, Given-intro, message-Carries}
use tilbo.Codec.Ends.{◌⟨◌⟩◌, Moves-put, Moves-skip_field, Moves-sub_message}
use tilbo.Ipc.DaemonStateChangedEvent
use tilbo.Ipc.DaemonStateChangedEvent.{DaemonStateChangedEvent}
use tilbo.Ipc.FileTaggedEvent
use tilbo.Ipc.FileTaggedEvent.{FileTaggedEvent}
use tilbo.Ipc.IndexUpdatedEvent
use tilbo.Ipc.IndexUpdatedEvent.{IndexUpdatedEvent}
use tilbo.Ipc.ShowWindowEvent
use tilbo.Ipc.ShowWindowEvent.{ShowWindowEvent}

pub record Event : Type 0 where
  pub file_tagged : Option FileTaggedEvent
  pub index_updated : Option IndexUpdatedEvent
  pub daemon_state_changed : Option DaemonStateChangedEvent
  pub show_window : Option ShowWindowEvent

-- `new Event()`: every property has the default of the prototype.
abbrev pub empty : Event
empty = record {
  file_tagged = none;
  index_updated = none;
  daemon_state_changed = none;
  show_window = none;
}

module _ (rt : Runtime) where
  open rt use {Byte, Writer, Reader, uint32}

  unfoldable pub encode : Event → Option Writer → Writer
  encode m writer =
      or_create rt writer
      ▸ own (λ v w. FileTaggedEvent.encode rt v (some (w ▸ uint32 10 ▸ rt.fork)) ▸ rt.ldelim)
          m.file_tagged
      ▸ own (λ v w. IndexUpdatedEvent.encode rt v (some (w ▸ uint32 18 ▸ rt.fork)) ▸ rt.ldelim)
          m.index_updated
      ▸ own
          (λ v w. DaemonStateChangedEvent.encode rt v (some (w ▸ uint32 26 ▸ rt.fork)) ▸ rt.ldelim)
          m.daemon_state_changed
      ▸ own (λ v w. ShowWindowEvent.encode rt v (some (w ▸ uint32 34 ▸ rt.fork)) ▸ rt.ldelim)
          m.show_window

  -- the switch of `decode`
  unfoldable pub decode_field : ℕ → Event → Parser Reader Event
  decode_field tag m =
      if tag / 8 == 1
      then (do
        v ← sub_message rt (FileTaggedEvent.decode rt)
        pure (record m { file_tagged = some v }))
      else if tag / 8 == 2
      then (do
        v ← sub_message rt (IndexUpdatedEvent.decode rt)
        pure (record m { index_updated = some v }))
      else if tag / 8 == 3
      then (do
        v ← sub_message rt (DaemonStateChangedEvent.decode rt)
        pure (record m { daemon_state_changed = some v }))
      else if tag / 8 == 4
      then (do
        v ← sub_message rt (ShowWindowEvent.decode rt)
        pure (record m { show_window = some v }))
      else skip_field rt tag m

  abbrev pub decode : Source Reader Byte → Option ℕ → Option ℕ → Outcome (Event × Reader)
  decode = decode_with rt decode_field empty

-- The nested messages are valid.
pub record IsValid (m : Event) : Type 0 where
  pub index_updated : Given (λ x. IndexUpdatedEvent.IsValid x) m.index_updated

module _ (rt : Runtime) (laws : Laws rt) where
  -- What `encode` writes, `decode` reads back from a new message.
  pub encode-Carries :
      (m : Event)
      → IsValid m
      → Carries rt laws (λ w. encode rt m (some w)) (decode_field rt) empty m
  unfolding encode decode_field or_create
  encode-Carries m v =
      let m1 : Event = record empty { file_tagged = m.file_tagged } in
      let m2 : Event = record m1 { index_updated = m.index_updated } in
      let m3 : Event = record m2 { daemon_state_changed = m.daemon_state_changed } in
      message-Carries 10 (omega arith) _ _ (FileTaggedEvent.encode rt)
        (λ x. record empty { file_tagged = x }) m.file_tagged refl
        (Given-intro (FileTaggedEvent.encode-Carries rt laws) m.file_tagged)
      ⨟ message-Carries 18 (omega arith) _ _ (IndexUpdatedEvent.encode rt)
          (λ x. record m1 { index_updated = x }) m.index_updated refl
          (Given-map (IndexUpdatedEvent.encode-Carries rt laws) m.index_updated v.index_updated)
      ⨟ message-Carries 26 (omega arith) _ _ (DaemonStateChangedEvent.encode rt)
          (λ x. record m2 { daemon_state_changed = x }) m.daemon_state_changed refl
          (Given-intro (DaemonStateChangedEvent.encode-Carries rt laws) m.daemon_state_changed)
      ⨟ message-Carries 34 (omega arith) _ _ (ShowWindowEvent.encode rt)
          (λ x. record m3 { show_window = x }) m.show_window refl
          (Given-intro (ShowWindowEvent.encode-Carries rt laws) m.show_window)

module _ (rt : Runtime) (progress : Progress rt) where
  pub decode_field-Moves : (tag : ℕ) (m : Event) → Moves rt 0 (decode_field rt tag m)
  unfolding decode_field
  decode_field-Moves tag m =
      Moves-put _ (FileTaggedEvent.decode-Moves rt progress)
      ⟨ tag / 8 == 1 ⟩ Moves-put _ (IndexUpdatedEvent.decode-Moves rt progress)
      ⟨ tag / 8 == 2 ⟩ Moves-put _ (DaemonStateChangedEvent.decode-Moves rt progress)
      ⟨ tag / 8 == 3 ⟩ Moves-put _ (ShowWindowEvent.decode-Moves rt progress)
      ⟨ tag / 8 == 4 ⟩ Moves-skip_field rt progress tag m

  pub decode-Moves : Moves rt 0 (sub_message rt (decode rt))
  decode-Moves = Moves-sub_message rt progress (decode_field rt) decode_field-Moves empty
