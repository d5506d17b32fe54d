-- ===== src/Codec.antt =====
-- The shapes that every generated `encode` and `decode` of internal/ipc/gen/ipc_generated.js is made
-- of: a guarded write of a property, the loop over a repeated field, the entries of a map field, the
-- loop over the fields of a buffer, and a nested message. Their laws are in the modules below.
pub mod Fields
pub mod Carries
pub mod Parts
pub mod Messages
pub mod Scalars
pub mod Ends
pub mod Returns
use tilbo.Prelude.{
  ℕ, zero, suc, ◌+◌, ◌-◌, ◌/◌, ◌%◌, String, Bool, false, Option, none, some, List, [], ◌∷◌, ltb,
  ◌==◌, str_eq, if◌then◌else◌, ◌▸◌,
}
use tilbo.Runtime.{
  Outcome, done, throws, stuck, Parser, ◌>>=◌, ◌>>◌, pure, Runtime, Source, reader, buffer,
}

-- A map field is an object with string properties: its keys and values in the order of
-- `Object.keys`. (An engine lists keys that look like array indices first; the model does not.)
abbrev pub Entries : Type 0
Entries = List (String × String)

unfoldable pub replace_key : String → String → Entries → Entries
replace_key k v [] = (k, v) ∷ []
replace_key k v ((j, u) ∷ m) = if str_eq j k then (k, v) ∷ m else (j, u) ∷ replace_key k v m

-- `object[key] = value` for a string value. A property named `__proto__` is the accessor of
-- `Object.prototype`, which ignores a string.
unfoldable pub put_key : String → String → Entries → Entries
unfolding replace_key
put_key k v m = if str_eq k "__proto__" then m else replace_key k v m

-- `if (message.f != null && hasOwnProperty…)` before a write, and the loop over a repeated field.
module _ {A W : Type 0} (write : A → W → W) where
  unfoldable pub own : Option A → W → W
  own none w = w
  own (some a) w = write a w

  unfoldable pub each : List A → W → W
  each [] w = w
  each (a ∷ as') w = each as' (write a w)

-- `tag === error`, where `error` may be undefined.
unfoldable pub is_error : Option ℕ → ℕ → Bool
is_error none tag = false
is_error (some e) tag = tag == e

module _ (rt : Runtime) where
  open rt use {
    Byte, Writer, create, uint32, string, fork, ldelim, Reader, create_reader, new_reader, pos, len,
  }
  open rt use {read_uint32, read_string, skip_type}

  -- `if (!writer) writer = $Writer.create()`
  unfoldable pub or_create : Option Writer → Writer
  or_create none = create
  or_create (some w) = w

  -- `if (!(reader instanceof $Reader)) reader = $Reader.create(reader)`
  unfoldable pub open_source : Source Reader Byte → Outcome Reader
  open_source (reader r) = done r
  open_source (buffer bs) = create_reader bs

  -- `default: reader.skipType(tag & 7)`
  unfoldable pub skip_field : {M : Type 0} → ℕ → M → Parser Reader M
  skip_field tag m = do skip_type (tag % 8); pure m

  -- `while (reader.pos < end) { let tag = reader.uint32(); if (tag === error) break; switch … }`.
  -- Each round takes a byte at least, so `end - pos + 1` rounds are enough.
  unfoldable pub read_fields :
      {M : Type 0} → (ℕ → M → Parser Reader M) → Option ℕ → ℕ → ℕ → M → Parser Reader M
  read_fields step error end zero m r = stuck
  read_fields step error end (suc fuel) m r =
      let round : Outcome (_ × Reader) =
        (do
          tag ← read_uint32
          (if is_error error tag
              then pure m
              else (do m' ← step tag m; read_fields step error end fuel m')))
          r in
      if ltb (pos r) end then round else done (m, r)

  -- The body of every `decode(reader, length, error)`: `step` is its switch, `m` the new message.
  unfoldable pub decode_from :
      {M : Type 0} → (ℕ → M → Parser Reader M) → M → Option ℕ → Option ℕ → Parser Reader M
  unfolding read_fields
  decode_from step m none error r = read_fields step error (len r) (suc (len r - pos r)) m r
  decode_from step m (some length) error r =
      read_fields step error (pos r + length) (suc length) m r

  unfoldable pub decode_with :
      {M : Type 0}
      → (ℕ → M → Parser Reader M)
      → M
      → Source Reader Byte
      → Option ℕ
      → Option ℕ
      → Outcome (M × Reader)
  unfolding decode_from open_source
  decode_with step m (reader r) length error = decode_from step m length error r
  decode_with step m (buffer bs) length error = elim (create_reader bs) [
    | done r ↦ decode_from step m length error r
    | throws e ↦ throws e
    | stuck ↦ stuck
  ]

  -- `if (!(reader instanceof $Reader)) reader = new $Reader(reader)` of `decodeDelimited`
  unfoldable pub wrap_source : Source Reader Byte → Reader
  wrap_source (reader r) = r
  wrap_source (buffer bs) = new_reader bs

  -- `T.decode(reader, reader.uint32())`, the call for a field that is a message.
  unfoldable pub sub_message :
      {M : Type 0}
      → (Source Reader Byte → Option ℕ → Option ℕ → Outcome (M × Reader))
      → Parser Reader M
  sub_message decode = do length ← read_uint32; λ r. decode (reader r) (some length) none

  -- One entry of a map field behind its tag: the key and the value, in a fork of the writer.
  unfoldable pub write_entry : String × String → Writer → Writer
  write_entry (key, value) w = w ▸ fork ▸ uint32 10 ▸ string key ▸ uint32 18 ▸ string value ▸ ldelim

  -- The switch over the two fields of an entry.
  unfoldable pub entry_field : ℕ → String × String → Parser Reader (String × String)
  entry_field tag (key, value) =
      if tag / 8 == 1
      then (do k ← read_string; pure (k, value))
      else if tag / 8 == 2
      then (do v ← read_string; pure (key, v))
      else skip_field tag (key, value)

  unfoldable pub read_entry : Parser Reader (String × String)
  read_entry = do
    length ← read_uint32
    λ r. read_fields entry_field none (pos r + length) (suc length) ("", "") r
