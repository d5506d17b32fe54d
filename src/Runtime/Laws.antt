-- ===== src/Runtime/Laws.antt =====
-- The documented behaviour of protobuf.js that the theorems rest on, as named hypotheses: what each
-- call of the writer appends, what a fork and `ldelim` do to it, what each call of the reader takes
-- back, what `skipType` passes over, and that a read moves forward or throws.
use tilbo.Prelude.{
  ℕ, ◌+◌, ◌-◌, ◌^◌, ◌≤◌, ◌<◌, String, ◌≡◌, Bool, true, false, List, [], ◌∷◌, ◌++◌, length,
}
use tilbo.Prelude.Int.{ℤ, bound}
use tilbo.Runtime.{Outcome, done, throws, stuck, Parser, Double, Runtime}

-- What has been written: the bytes since the innermost open fork, and those of each level below.
pub record Chunks (B : Type 0) : Type 0 where
  pub top : List B
  pub below : List (List B)

module _ {B : Type 0} where
  abbrev pub append : List B → Chunks B → Chunks B
  append bs c = record c { top = c.top ++ bs }

  -- `ldelim` puts the length of the innermost level before it, on the level below if there is one.
  abbrev pub close : (ℕ → List B) → List B → List (List B) → Chunks B
  close prefix bs [] = record { top = prefix (length bs) ++ bs; below = [] }
  close prefix bs (cs ∷ rest) = record { top = cs ++ (prefix (length bs) ++ bs); below = rest }

-- Lengths and most integer fields are 32 bits wide.
abbrev pub IsU32 : ℕ → Type 0
IsU32 n = n < 2 ^ 32

abbrev pub IsInt32 : ℤ → Type 0
IsInt32 z = bound z < 2 ^ 31

-- The integers that a 64-bit field hands over exactly, be it as a number or as a Long.
abbrev pub IsSafe : ℕ → Type 0
IsSafe n = n < 2 ^ 53

abbrev pub IsSafeInt : ℤ → Type 0
IsSafeInt z = bound z < 2 ^ 53 - 1

module _ (rt : Runtime) where
  open rt use {Byte, Reader, pos, len}

  -- A reader `after` that has taken the bytes `bs`, with `t` left to read, where `before` stood.
  pub record Advanced (rest : Reader → List Byte) (bs t : List Byte) (before after : Reader)
      : Type 0 where
    pub left : rest after ≡ t
    pub moved : pos after ≡ pos before + length bs
    pub same_len : len after ≡ len before

  -- At a reader in front of the bytes `bs` (fewer than 2 ^ 32) `p` takes them all and returns `a`.
  abbrev pub Reads : {A : Type 0} → (Reader → List Byte) → Parser Reader A → List Byte → A → Type 0
  Reads rest p bs a =
      length bs < 2 ^ 32
      → (r : Reader) (t : List Byte) → rest r ≡ bs ++ t
      → (r' : Reader) × (p r ≡ done (a, r')) × Advanced rest bs t r r'

  -- A read does not return before it has moved by `k` bytes at least, and it always ends.
  abbrev pub MovesTo : {A : Type 0} → ℕ → Outcome (A × Reader) → Type 0
  MovesTo n (done (a, r)) = n ≤ pos r
  MovesTo n (throws e) = Unit
  MovesTo n stuck = ⊥

  pub record Moves {A : Type 0} (k : ℕ) (p : Parser Reader A) : Type 0 where
    pub at : (r : Reader) → MovesTo (pos r + k) (p r)

-- A varint: bytes that say that another byte follows, and one that does not. Its length is free.
abbrev pub IsVarint {ℓ} : {B : Type ℓ} → (B → Bool) → List B → Type 0
IsVarint continues [] = ⊥
IsVarint continues (b ∷ []) = continues b ≡ false
IsVarint continues (b ∷ c ∷ bs) = (continues b ≡ true) × IsVarint continues (c ∷ bs)

pub record Laws (rt : Runtime) : Type 1 where
  -- What each write appends.
  pub of_uint32 : ℕ → List rt.Byte
  pub of_int32 : ℤ → List rt.Byte
  pub of_uint64 : ℕ → List rt.Byte
  pub of_int64 : ℤ → List rt.Byte
  pub of_bool : Bool → List rt.Byte
  pub of_float : Double → List rt.Byte
  pub of_double : Double → List rt.Byte
  pub of_string : String → List rt.Byte
  -- Numbers that survive the narrowing to 32 and 64 bits.
  pub IsFloat : Double → Type 0
  pub IsDouble : Double → Type 0
  -- The writer.
  pub written : rt.Writer → Chunks rt.Byte
  pub written-create : written rt.create ≡ record { top = []; below = [] }
  pub written-uint32 :
      (v : ℕ) (w : rt.Writer) → written (rt.uint32 v w) ≡ append (of_uint32 v) (written w)
  pub written-int32 :
      (v : ℤ) (w : rt.Writer) → written (rt.int32 v w) ≡ append (of_int32 v) (written w)
  pub written-uint64 :
      (v : ℕ) (w : rt.Writer) → written (rt.uint64 v w) ≡ append (of_uint64 v) (written w)
  pub written-int64 :
      (v : ℤ) (w : rt.Writer) → written (rt.int64 v w) ≡ append (of_int64 v) (written w)
  pub written-bool :
      (v : Bool) (w : rt.Writer) → written (rt.bool v w) ≡ append (of_bool v) (written w)
  pub written-float :
      (v : Double) (w : rt.Writer) → written (rt.float v w) ≡ append (of_float v) (written w)
  pub written-double :
      (v : Double) (w : rt.Writer) → written (rt.double v w) ≡ append (of_double v) (written w)
  pub written-string :
      (v : String) (w : rt.Writer) → written (rt.string v w) ≡ append (of_string v) (written w)
  pub written-fork :
      (w : rt.Writer)
      → written (rt.fork w) ≡ record { top = []; below = (written w).top ∷ (written w).below }
  pub written-ldelim :
      (w : rt.Writer) → written (rt.ldelim w) ≡ close of_uint32 (written w).top (written w).below
  pub finish-written : (w : rt.Writer) → rt.finish w ≡ (written w).top
  -- The reader.
  pub rest : rt.Reader → List rt.Byte
  pub create_at :
      (bs : List rt.Byte)
      → (r : rt.Reader) × (rt.create_reader bs ≡ done r)
        × (rest r ≡ bs)
        × (rt.pos r ≡ 0)
        × (rt.len r ≡ length bs)
  pub new_at :
      (bs : List rt.Byte)
      → (rest (rt.new_reader bs) ≡ bs)
        × (rt.pos (rt.new_reader bs) ≡ 0)
        × (rt.len (rt.new_reader bs) ≡ length bs)
  pub uint32_nonempty : (v : ℕ) → 0 < length (of_uint32 v)
  pub reads-uint32 : (v : ℕ) → IsU32 v → Reads rt rest rt.read_uint32 (of_uint32 v) v
  pub reads-int32 : (v : ℤ) → IsInt32 v → Reads rt rest rt.read_int32 (of_int32 v) v
  pub reads-uint64 : (v : ℕ) → IsSafe v → Reads rt rest rt.read_uint64 (of_uint64 v) v
  pub reads-int64 : (v : ℤ) → IsSafeInt v → Reads rt rest rt.read_int64 (of_int64 v) v
  pub reads-bool : (v : Bool) → Reads rt rest rt.read_bool (of_bool v) v
  pub reads-float : (v : Double) → IsFloat v → Reads rt rest rt.read_float (of_float v) v
  pub reads-double : (v : Double) → IsDouble v → Reads rt rest rt.read_double (of_double v) v
  pub reads-string : (v : String) → Reads rt rest rt.read_string (of_string v) v
  -- `skipType`: `continues` is `byte & 128`.
  pub continues : rt.Byte → Bool
  pub skips-varint :
      (bs : List rt.Byte) → IsVarint continues bs → Reads rt rest (rt.skip_type 0) bs tt
  pub skips-fixed64 : (bs : List rt.Byte) → length bs ≡ 8 → Reads rt rest (rt.skip_type 1) bs tt
  pub skips-bytes :
      (bs : List rt.Byte) → Reads rt rest (rt.skip_type 2) (of_uint32 (length bs) ++ bs) tt
  pub skips-fixed32 : (bs : List rt.Byte) → length bs ≡ 4 → Reads rt rest (rt.skip_type 5) bs tt

-- Every read ends, and moves forward.
pub record Progress (rt : Runtime) : Type 1 where
  pub create_ends :
      (bs : List rt.Byte) → ◌≡◌ {A = Outcome rt.Reader} (rt.create_reader bs) stuck → ⊥
  pub moves-uint32 : Moves rt 1 rt.read_uint32
  pub moves-int32 : Moves rt 0 rt.read_int32
  pub moves-uint64 : Moves rt 0 rt.read_uint64
  pub moves-int64 : Moves rt 0 rt.read_int64
  pub moves-bool : Moves rt 0 rt.read_bool
  pub moves-float : Moves rt 0 rt.read_float
  pub moves-double : Moves rt 0 rt.read_double
  pub moves-string : Moves rt 0 rt.read_string
  pub moves-skip_type : (wire_type : ℕ) → Moves rt 0 (rt.skip_type wire_type)
