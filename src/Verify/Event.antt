-- ===== src/Verify/Event.antt =====
-- `verify` of `Event` and its `toObject` without options, from internal/ipc/gen/ipc_generated.js.
use mathlib.Core.Option
use tilbo.Prelude.{ℕ, String, ◌≡◌, ◌≤◌, refl, false, Option, none, [], ◌∷◌, arith}
use tilbo.Values.{Value, object, Util, Documented, verify_record, verify_oneof}
use tilbo.Values.Slots.{props_of}
use tilbo.Values.Accepts.{given, sum, ◌⊕◌, ◌&◌, given-map, nothing, record-accepts}
use tilbo.Values.Oneof.{Members, oneof-accepts_slots}
use tilbo.Values.Fields.{Given-always, accepts-message}
use tilbo.Ipc.Event.{Event}
use tilbo.Verify.DaemonStateChangedEvent
use tilbo.Verify.FileTaggedEvent
use tilbo.Verify.IndexUpdatedEvent
use tilbo.Verify.ShowWindowEvent

module _ (u : Util) where
  -- `toObject(message)`
  unfoldable pub to_object : Event → Value
  to_object m = object (
      props_of (
        ("fileTagged", Option.map (FileTaggedEvent.to_object u) m.file_tagged)
        ∷ ("indexUpdated", Option.map (IndexUpdatedEvent.to_object u) m.index_updated)
        ∷ (
          "daemonStateChanged",
          Option.map (DaemonStateChangedEvent.to_object u) m.daemon_state_changed,
        )
        ∷ ("showWindow", Option.map (ShowWindowEvent.to_object u) m.show_window)
        ∷ []))

  -- The members of `kind`, in the order of `verify`.
  abbrev pub members : Members
  members =
      ("fileTagged", FileTaggedEvent.verify u)
      ∷ ("indexUpdated", IndexUpdatedEvent.verify u)
      ∷ ("daemonStateChanged", DaemonStateChangedEvent.verify u)
      ∷ ("showWindow", ShowWindowEvent.verify u)
      ∷ []

  unfoldable pub verify : Value → Option String
  verify m = verify_record (verify_oneof "kind" members false m) m

abbrev pub count_kinds : Event → ℕ
count_kinds m = sum (
    given m.file_tagged
    ∷ given m.index_updated
    ∷ given m.daemon_state_changed
    ∷ given m.show_window
    ∷ [])

-- One member of the oneof is set at most.
pub record IsRegular (m : Event) : Type 0 where
  pub one : count_kinds m ≤ 1

module _ (u : Util) (laws : Documented u) where
  -- `verify` accepts what `toObject` makes of a regular message.
  pub verify-accepts : (m : Event) → IsRegular m → verify u (to_object u m) ≡ none
  unfolding verify to_object
  verify-accepts m r = record-accepts _ (
      oneof-accepts_slots _ refl "kind" (members u)
        (accepts-message (FileTaggedEvent.to_object u) (FileTaggedEvent.verify u) "fileTagged"
            m.file_tagged (Given-always (FileTaggedEvent.verify-accepts u laws) m.file_tagged)
          & accepts-message (IndexUpdatedEvent.to_object u) (IndexUpdatedEvent.verify u)
              "indexUpdated" m.index_updated
              (Given-always (IndexUpdatedEvent.verify-accepts u laws) m.index_updated)
          & accepts-message (DaemonStateChangedEvent.to_object u) (DaemonStateChangedEvent.verify u)
              "daemonStateChanged" m.daemon_state_changed
              (Given-always (DaemonStateChangedEvent.verify-accepts u laws) m.daemon_state_changed)
          & accepts-message (ShowWindowEvent.to_object u) (ShowWindowEvent.verify u) "showWindow"
              m.show_window (Given-always (ShowWindowEvent.verify-accepts u laws) m.show_window)
          & tt)
        (omega (
          arith,
          r.one,
          given-map (FileTaggedEvent.to_object u) m.file_tagged
              ⊕ given-map (IndexUpdatedEvent.to_object u) m.index_updated
              ⊕ given-map (DaemonStateChangedEvent.to_object u) m.daemon_state_changed
              ⊕ given-map (ShowWindowEvent.to_object u) m.show_window
              ⊕ nothing,
        )))
