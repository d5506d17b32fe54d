-- ===== src/Wire/Unknown.antt =====
-- Fields that this version of the protocol does not know, in `Envelope.decode` of
-- internal/ipc/gen/ipc_generated.js.
use tilbo.Prelude.{
  ℕ, ◌/◌, ◌%◌, ◌^◌, ◌<◌, ◌≡◌, refl, false, none, List, [], ◌++◌, length, arith, ◌==◌,
}
use tilbo.Runtime.{done, Runtime, buffer}
use tilbo.Runtime.Laws.{Laws, Reads, IsU32, IsVarint}
use tilbo.Codec.{or_create, skip_field}
use tilbo.Codec.Carries.{Reads-map}
use tilbo.Codec.Messages.{decode-encode_skip}
use tilbo.Ipc.Envelope
use tilbo.Ipc.Envelope.{Envelope}

-- The bytes of a value, by the wire types that proto3 has: any varint, of any length and value, any
-- eight bytes, any bytes behind their number as `uint32` writes it, and any four bytes.
pub data Payload {rt : Runtime} (laws : Laws rt) (wire_type : ℕ) : List rt.Byte → Type 0 where
  varint :
      (bs : List rt.Byte) → wire_type ≡ 0 → IsVarint laws.continues bs → Payload laws wire_type bs
  fixed64 : (bs : List rt.Byte) → wire_type ≡ 1 → length bs ≡ 8 → Payload laws wire_type bs
  bytes :
      (bs : List rt.Byte)
      → wire_type ≡ 2
      → Payload laws wire_type (laws.of_uint32 (length bs) ++ bs)
  fixed32 : (bs : List rt.Byte) → wire_type ≡ 5 → length bs ≡ 4 → Payload laws wire_type bs

differs : (a b : ℕ) → b < a → (a == b) ≡ false
differs a b h = ground arith

module _ (rt : Runtime) (laws : Laws rt) where
  open rt use {finish, Reader, skip_type}
  open laws use {rest, of_uint32}

  Payload-Reads :
      (wire_type : ℕ) (bs : List rt.Byte)
      → Payload laws wire_type bs
      → Reads rt rest (skip_type wire_type) bs tt
  Payload-Reads n bs (varint cs e h) = rw e (laws.skips-varint cs h)
  Payload-Reads n bs (fixed64 cs e h) = rw e (laws.skips-fixed64 cs h)
  Payload-Reads n bs (bytes cs e) = rw e (laws.skips-bytes cs)
  Payload-Reads n bs (fixed32 cs e h) = rw e (laws.skips-fixed32 cs h)

  skip_field-Reads :
      {M : Type 0} (tag : ℕ) (payload : List rt.Byte) (m : M)
      → Payload laws (tag % 8) payload
      → Reads rt rest (skip_field rt tag m) payload m
  unfolding skip_field
  skip_field-Reads tag payload m h =
      Reads-map rt laws (skip_type (tag % 8)) (λ _. m) payload tt
        (Payload-Reads (tag % 8) payload h)

  envelope_default :
      (tag : ℕ) (m : Envelope) → 4 < tag / 8 → Envelope.decode_field rt tag m ≡ skip_field rt tag m
  unfolding Envelope.decode_field
  envelope_default tag m h =
      rw
        (
          differs (tag / 8) 1 (omega arith),
          differs (tag / 8) 2 (omega arith),
          differs (tag / 8) 3 (omega arith),
          differs (tag / 8) 4 (omega arith),
        )
        refl

  -- A field with a number above 4 behind an encoded envelope, of any wire type of proto3, is passed
  -- over: `decode` returns the same envelope as without it, and no byte is left. The value of the
  -- field may be any varint, any eight or four bytes, or any bytes behind their number; its tag and
  -- that number are written as `uint32` writes them. The envelope meets the conditions of the plain
  -- round trip, and all the bytes together are fewer than 2 ^ 32.
  pub envelope_skips_unknown :
      (m : Envelope) (tag : ℕ) (payload : List rt.Byte)
      → Envelope.IsValid laws m
      → IsU32 tag
      → 4 < tag / 8
      → Payload laws (tag % 8) payload
      → length (finish (Envelope.encode rt m none) ++ (of_uint32 tag ++ payload)) < 2 ^ 32
      → (r : Reader) × (Envelope.decode rt
            (buffer (finish (Envelope.encode rt m none) ++ (of_uint32 tag ++ payload)))
            none
            none
          ≡ done (m, r))
        × (rest r ≡ [])
  unfolding Envelope.encode or_create
  envelope_skips_unknown m tag payload v ht above p =
      decode-encode_skip rt laws (Envelope.decode_field rt) Envelope.empty m (Envelope.encode rt)
        tag payload ht (Envelope.encode-Carries rt laws m v)
        (rw (envelope_default tag m above) (skip_field-Reads tag payload m p))
