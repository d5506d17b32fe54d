-- ===== src/Ipc/GetBrowserConfigResponse.antt =====
-- `GetBrowserConfigResponse` of internal/ipc/gen/ipc_generated.js (bundled in internal/quickshell/services/qml_ipc.mjs): the
-- message, `encode` and `decode`, and the lemmas from which its
-- round trip is put together.
use tilbo.Prelude.{
  ℕ, ◌/◌, String, refl, Bool, Option, none, some, [], arith, ◌==◌, if◌then◌else◌, ◌▸◌,
}
use tilbo.Runtime.{Outcome, Parser, ◌>>=◌, pure, Runtime, Source}
use tilbo.Runtime.Laws.{Laws, Progress, Moves}
use tilbo.Codec.{
  Entries, put_key, own, each, or_create, skip_field, read_entry, write_entry, decode_with,
  sub_message,
}
use tilbo.Codec.Carries.{Distinct, Carries}
use tilbo.Codec.Parts.{◌⨟◌, Carries-entries}
use tilbo.Codec.Scalars.{string-Carries, bool-Carries}
use tilbo.Codec.Ends.{◌⟨◌⟩◌, Moves-put, Moves-skip_field, Moves-sub_message, Moves-read_entry}

pub record GetBrowserConfigResponse : Type 0 where
  pub keybindings : Entries
  pub use_trash : Option Bool
  pub inline_thumbnails : Option Bool
  pub auto_properties_slideout : Option Bool
  pub theme : Option String
  pub single_click : Option Bool

-- `new GetBrowserConfigResponse()`: every property has the default of the prototype.
abbrev pub empty : GetBrowserConfigResponse
empty = record {
  keybindings = [];
  use_trash = none;
  inline_thumbnails = none;
  auto_properties_slideout = none;
  theme = none;
  single_click = none;
}

module _ (rt : Runtime) where
  open rt use {Byte, Writer, Reader, uint32}

  unfoldable pub encode : GetBrowserConfigResponse → Option Writer → Writer
  encode m writer =
      or_create rt writer
      ▸ each (λ e w. w ▸ uint32 10 ▸ write_entry rt e) m.keybindings
      ▸ own (λ v w. w ▸ uint32 16 ▸ rt.bool v) m.use_trash
      ▸ own (λ v w. w ▸ uint32 24 ▸ rt.bool v) m.inline_thumbnails
      ▸ own (λ v w. w ▸ uint32 32 ▸ rt.bool v) m.auto_properties_slideout
      ▸ own (λ v w. w ▸ uint32 42 ▸ rt.string v) m.theme
      ▸ own (λ v w. w ▸ uint32 48 ▸ rt.bool v) m.single_click

  -- the switch of `decode`
  unfoldable pub decode_field :
      ℕ → GetBrowserConfigResponse → Parser Reader GetBrowserConfigResponse
  decode_field tag m =
      if tag / 8 == 1
      then (do e ← read_entry rt; pure (record m { keybindings = put_key e.0 e.1 m.keybindings }))
      else if tag / 8 == 2
      then (do v ← rt.read_bool; pure (record m { use_trash = some v }))
      else if tag / 8 == 3
      then (do v ← rt.read_bool; pure (record m { inline_thumbnails = some v }))
      else if tag / 8 == 4
      then (do v ← rt.read_bool; pure (record m { auto_properties_slideout = some v }))
      else if tag / 8 == 5
      then (do v ← rt.read_string; pure (record m { theme = some v }))
      else if tag / 8 == 6
      then (do v ← rt.read_bool; pure (record m { single_click = some v }))
      else skip_field rt tag m

  abbrev pub decode :
      Source Reader Byte → Option ℕ → Option ℕ → Outcome (GetBrowserConfigResponse × Reader)
  decode = decode_with rt decode_field empty

-- The keys of a map are distinct.
pub record IsValid (m : GetBrowserConfigResponse) : Type 0 where
  pub keybindings : Distinct m.keybindings

module _ (rt : Runtime) (laws : Laws rt) where
  -- What `encode` writes, `decode` reads back from a new message.
  pub encode-Carries :
      (m : GetBrowserConfigResponse)
      → IsValid m
      → Carries rt laws (λ w. encode rt m (some w)) (decode_field rt) empty m
  unfolding encode decode_field or_create
  encode-Carries m v =
      let m1 : GetBrowserConfigResponse = record empty { keybindings = m.keybindings } in
      let m2 : GetBrowserConfigResponse = record m1 { use_trash = m.use_trash } in
      let m3 : GetBrowserConfigResponse = record m2 { inline_thumbnails = m.inline_thumbnails } in
      let m4 : GetBrowserConfigResponse = record m3 {
        auto_properties_slideout = m.auto_properties_slideout;
      } in
      let m5 : GetBrowserConfigResponse = record m4 { theme = m.theme } in
      Carries-entries rt laws (decode_field rt) 10 (omega arith)
        (λ x. record empty { keybindings = x }) m.keybindings (λ _. refl) v.keybindings
      ⨟ bool-Carries 16 (omega arith) (λ x. record m1 { use_trash = x }) m.use_trash refl
      ⨟ bool-Carries 24 (omega arith) (λ x. record m2 { inline_thumbnails = x }) m.inline_thumbnails
          refl
      ⨟ bool-Carries 32 (omega arith) (λ x. record m3 { auto_properties_slideout = x })
          m.auto_properties_slideout refl
      ⨟ string-Carries 42 (omega arith) (λ x. record m4 { theme = x }) m.theme refl
      ⨟ bool-Carries 48 (omega arith) (λ x. record m5 { single_click = x }) m.single_click refl

module _ (rt : Runtime) (progress : Progress rt) where
  pub decode_field-Moves :
      (tag : ℕ) (m : GetBrowserConfigResponse) → Moves rt 0 (decode_field rt tag m)
  unfolding decode_field
  decode_field-Moves tag m =
      Moves-put _ (Moves-read_entry rt progress)
      ⟨ tag / 8 == 1 ⟩ Moves-put _ progress.moves-bool
      ⟨ tag / 8 == 2 ⟩ Moves-put _ progress.moves-bool
      ⟨ tag / 8 == 3 ⟩ Moves-put _ progress.moves-bool
      ⟨ tag / 8 == 4 ⟩ Moves-put _ progress.moves-string
      ⟨ tag / 8 == 5 ⟩ Moves-put _ progress.moves-bool
      ⟨ tag / 8 == 6 ⟩ Moves-skip_field rt progress tag m

  pub decode-Moves : Moves rt 0 (sub_message rt (decode rt))
  decode-Moves = Moves-sub_message rt progress (decode_field rt) decode_field-Moves empty
