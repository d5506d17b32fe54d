-- ===== src/Wire/Maps.antt =====
-- The map fields of MetadataResponse, internal/ipc/gen/ipc_generated.js: `message.metadata[key] =
-- value` and `message.sources[key] = value` of its `decode`.
use tilbo.Prelude.{
  ℕ, ◌^◌, ◌/◌, ◌<◌, String, ◌≡◌, refl, ap, ◌∙◌, false, Option, none, some, [], ◌∷◌, length, arith,
  str_eq, eq_iff, ◌==◌, if◌then◌else◌,
}
use tilbo.Runtime.{done, Runtime, Source, buffer}
use tilbo.Runtime.Laws.{Laws}
use tilbo.Codec.{Entries, put_key, replace_key, or_create, read_entry}
use tilbo.Codec.Carries.{Carries, put_all}
use tilbo.Codec.Parts.{◌⨟◌, Carries-put_all}
use tilbo.Codec.Messages.{decode-encode}
use tilbo.Codec.Scalars.{string-Carries}
use tilbo.Codec.Returns.{
  Holds, Returns, Returns-if, Returns-bind, Returns-pure, Returns-skip_field, decode_with-Holds,
}
use tilbo.Ipc.MetadataResponse
use tilbo.Ipc.MetadataResponse.{MetadataResponse}

-- `object[key]` for an own property.
pub get : String → Entries → Option String
get k [] = none
get k ((j, v) ∷ m) = if str_eq j k then some v else get k m

-- What the last of the entries with a key says, and otherwise `d`.
pub last_or : Option String → String → Entries → Option String
last_or d k [] = d
last_or d k ((j, v) ∷ m) = last_or (if str_eq j k then some v else d) k m

get-replace_key :
    (k j v : String) (m : Entries)
    → get j (replace_key k v m) ≡ (if str_eq k j then some v else get j m)
unfolding get replace_key
get-replace_key k j v [] = refl
get-replace_key k j v ((i, u) ∷ m) =
    ground (arith, eq_iff k j, eq_iff i k, eq_iff i j, get-replace_key k j v m)

get-put_key_self :
    (v : String) (m : Entries)
    → get "__proto__" m ≡ none
    → (k : String) → get "__proto__" (put_key k v m) ≡ none
unfolding put_key
get-put_key_self v m h k = ground (arith, eq_iff k "__proto__", get-replace_key k "__proto__" v m)

get-put_key :
    (k j v : String) (m : Entries)
    → str_eq j "__proto__" ≡ false
    → get j (put_key k v m) ≡ (if str_eq k j then some v else get j m)
unfolding put_key
get-put_key k j v m h =
    ground (arith, eq_iff k "__proto__", eq_iff j "__proto__", eq_iff k j, get-replace_key k j v m)

get-put_all :
    (j : String)
    → str_eq j "__proto__" ≡ false
    → (xs ys : Entries) → get j (put_all ys xs) ≡ last_or (get j ys) j xs
unfolding put_all last_or
get-put_all j h [] ys = refl
get-put_all j h ((k, v) ∷ xs) ys =
    get-put_all j h xs (put_key k v ys) ∙ ap (λ d. last_or d j xs) (get-put_key k j v ys h)

-- No own property `__proto__`.
abbrev pub HasNoProto : MetadataResponse → Type 0
HasNoProto m = (get "__proto__" m.metadata ≡ none) × (get "__proto__" m.sources ≡ none)

module _ (rt : Runtime) where
  open rt use {Byte, Reader, finish}

  decode_field-HasNoProto :
      (tag : ℕ) (m : MetadataResponse)
      → HasNoProto m
      → Returns HasNoProto (MetadataResponse.decode_field rt tag m)
  unfolding MetadataResponse.decode_field
  decode_field-HasNoProto tag m h =
      Returns-if (tag / 8 == 1) (Returns-bind rt.read_string (λ s. Returns-pure _ h)) (
        Returns-if (tag / 8 == 2)
          (Returns-bind (read_entry rt)
            (λ e. Returns-pure _ (get-put_key_self e.1 m.metadata h.0 e.0, h.1)))
          (Returns-if (tag / 8 == 3)
            (Returns-bind (read_entry rt)
              (λ e. Returns-pure _ (h.0, get-put_key_self e.1 m.sources h.1 e.0)))
            (Returns-skip_field rt HasNoProto tag m h)))

  -- Whatever the input is, the maps of a MetadataResponse that `decode` returns have no entry under
  -- the key `__proto__`: an entry with this key in the input is lost.
  pub metadata_loses_proto :
      (source : Source Reader Byte) (length error : Option ℕ)
      → Holds HasNoProto (MetadataResponse.decode rt source length error)
  unfolding get
  metadata_loses_proto source length error =
      decode_with-Holds rt HasNoProto (MetadataResponse.decode_field rt) decode_field-HasNoProto
        MetadataResponse.empty source length error (refl, refl)

  module _ (laws : Laws rt) where
    put_all-Carries :
        (m : MetadataResponse)
        → Carries rt laws
            (λ w. MetadataResponse.encode rt m (some w))
            (MetadataResponse.decode_field rt)
            MetadataResponse.empty
            (record m { metadata = put_all [] m.metadata; sources = put_all [] m.sources })
    unfolding MetadataResponse.encode MetadataResponse.decode_field or_create
    put_all-Carries m =
        let step = MetadataResponse.decode_field rt in
        let m1 : MetadataResponse = record MetadataResponse.empty { path = m.path } in
        let m2 : MetadataResponse = record m1 { metadata = put_all [] m.metadata } in
        string-Carries 10 (omega arith) (λ x. record MetadataResponse.empty { path = x }) m.path
          refl
        ⨟ Carries-put_all rt laws step 18 (omega arith) (λ x. record m1 { metadata = x }) m.metadata
            (λ _. refl)
        ⨟ Carries-put_all rt laws step 26 (omega arith) (λ x. record m2 { sources = x }) m.sources
            (λ _. refl)

    -- After a round trip, under any key but `__proto__` the metadata and the sources of the message
    -- hold what the last entry with the key held when they were written, and nothing under a key
    -- that had no entry. The path is unchanged. The keys may be any strings, and may repeat.
    pub metadata_round_trip :
        (m : MetadataResponse)
        → length (finish (MetadataResponse.encode rt m none)) < 2 ^ 32
        → (out : MetadataResponse) × (r : Reader) × (MetadataResponse.decode rt
              (buffer (finish (MetadataResponse.encode rt m none)))
              none
              none
            ≡ done (out, r))
          × (out.path ≡ m.path)
          × ((k : String)
              → str_eq k "__proto__" ≡ false
              → (get k out.metadata ≡ last_or none k m.metadata)
                × (get k out.sources ≡ last_or none k m.sources))
    unfolding MetadataResponse.encode or_create get
    metadata_round_trip m short =
        let out : MetadataResponse = record m {
          metadata = put_all [] m.metadata;
          sources = put_all [] m.sources;
        } in
        let (r, e, left) =
          decode-encode rt laws (MetadataResponse.decode_field rt) MetadataResponse.empty out
            (λ x w. MetadataResponse.encode rt m w) (put_all-Carries m) short in
        (out, r, e, refl, λ k h. (get-put_all k h m.metadata [], get-put_all k h m.sources []))
