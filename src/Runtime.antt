-- ===== src/Runtime.antt =====
-- The boundary with protobuf.js (`protobufjs/minimal`), which the generated code of
-- internal/ipc/gen/ipc_generated.js calls and does not implement. Its `Writer` and `Reader` are a
-- parameter of the model: the operations that the generated code calls, with no body.
pub mod Laws
pub mod Sample
use tilbo.Prelude.{ℕ, String, Bool, List}
use tilbo.Prelude.Int.{ℤ}

-- What a call does: it returns, it throws an exception with a message, or (no JavaScript
-- behaviour) the fuel of a loop of the model ran out.
pub data Outcome {ℓ} (A : Type ℓ) : Type ℓ where
  done : A → Outcome A
  throws : String → Outcome A
  stuck : Outcome A

-- A call that reads: the reader is mutated, so the reader after the call comes back too.
abbrev pub Parser {ℓ} : Type ℓ → Type ℓ → Type ℓ
Parser R A = R → Outcome (A × R)

abbrev pub continue {ℓ} : {R A B : Type ℓ} → Outcome (A × R) → (A → Parser R B) → Outcome (B × R)
continue (done (a, r)) f = f a r
continue (throws e) f = throws e
continue stuck f = stuck

infixl 5 ◌>>=◌ ◌>>◌
abbrev pub ◌>>=◌ {ℓ} : {R A B : Type ℓ} → Parser R A → (A → Parser R B) → Parser R B
◌>>=◌ p f r = continue (p r) f

abbrev pub ◌>>◌ {ℓ} : {R A B : Type ℓ} → Parser R A → Parser R B → Parser R B
p >> q = p >>= λ _. q

abbrev pub pure {ℓ} : {R A : Type ℓ} → A → Parser R A
pure a r = done (a, r)

-- A JavaScript number with a fraction, by its bit pattern. Integers stand for themselves.
abbrev pub Double : Type 0
Double = ℕ

-- The constructors and methods that the generated code calls. A 64-bit value is the integer that
-- it denotes, whether the runtime hands it over as a number or as a Long.
pub record Runtime : Type 1 where
  pub Byte : Type 0
  pub Writer : Type 0
  pub create : Writer
  pub uint32 : ℕ → Writer → Writer
  pub int32 : ℤ → Writer → Writer
  pub uint64 : ℕ → Writer → Writer
  pub int64 : ℤ → Writer → Writer
  pub bool : Bool → Writer → Writer
  pub float : Double → Writer → Writer
  pub double : Double → Writer → Writer
  pub string : String → Writer → Writer
  pub fork : Writer → Writer
  pub ldelim : Writer → Writer
  pub finish : Writer → List Byte
  pub Reader : Type 0
  pub create_reader : List Byte → Outcome Reader
  pub new_reader : List Byte → Reader
  pub pos : Reader → ℕ
  pub len : Reader → ℕ
  pub read_uint32 : Parser Reader ℕ
  pub read_int32 : Parser Reader ℤ
  pub read_uint64 : Parser Reader ℕ
  pub read_int64 : Parser Reader ℤ
  pub read_bool : Parser Reader Bool
  pub read_float : Parser Reader Double
  pub read_double : Parser Reader Double
  pub read_string : Parser Reader String
  pub skip_type : ℕ → Parser Reader (Unit {0})

-- The first argument of `decode`: a reader, or a buffer to read.
pub data Source (R B : Type 0) : Type 0 where
  reader : R → Source R B
  buffer : List B → Source R B
