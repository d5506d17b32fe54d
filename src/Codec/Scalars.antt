-- ===== src/Codec/Scalars.antt =====
-- `Carries` for a field of each type that the protocol has, as the messages use it.
use tilbo.Prelude.{ℕ, String, ◌≡◌, Bool, Option, none, some, List, [], ◌∷◌, ◌++◌, Given, All}
use tilbo.Prelude.Int.{ℤ}
use tilbo.Runtime.{Parser, ◌>>=◌, pure, Double, Runtime}
use tilbo.Runtime.Laws.{Laws, IsU32, IsInt32, IsSafe, IsSafeInt}
use tilbo.Codec.{own, each, decode_with, sub_message}
use tilbo.Codec.Carries.{Carries}
use tilbo.Codec.Parts.{Carries-own, Carries-each}
use tilbo.Codec.Messages.{Coded-message}

pub Given-map :
    {A : Type 0} {P Q : A → Type 0} → ((a : A) → P a → Q a) → (o : Option A) → Given P o → Given Q o
Given-map f none h = tt
Given-map f (some a) h = f a h

pub Given-intro : {A : Type 0} {Q : A → Type 0} → ((a : A) → Q a) → (o : Option A) → Given Q o
Given-intro f none = tt
Given-intro f (some a) = f a

pub All-map :
    {A : Type 0} {P Q : A → Type 0} → ((a : A) → P a → Q a) → (xs : List A) → All P xs → All Q xs
All-map f [] h = tt
All-map f (x ∷ xs) h = (f x h.0, All-map f xs h.1)

pub All-intro : {A : Type 0} {Q : A → Type 0} → ((a : A) → Q a) → (xs : List A) → All Q xs
All-intro f [] = tt
All-intro f (x ∷ xs) = (f x, All-intro f xs)

module _ {rt : Runtime} {laws : Laws rt} {M : Type 0} {step : ℕ → M → Parser rt.Reader M} where
  module _ (tag : ℕ) (ht : IsU32 tag) where
    pub string-Carries :
        (with : Option String → M) (o : Option String)
        → step tag (with none) ≡ (rt.read_string >>= λ x. pure (with (some x)))
        → Carries rt laws (own (λ a w. rt.string a (rt.uint32 tag w)) o) step (with none) (with o)
    string-Carries with o e =
        Carries-own rt laws step tag ht rt.string rt.read_string with o e
          (Given-intro (λ a. (laws.of_string a, laws.written-string a, laws.reads-string a)) o)

    pub bool-Carries :
        (with : Option Bool → M) (o : Option Bool)
        → step tag (with none) ≡ (rt.read_bool >>= λ x. pure (with (some x)))
        → Carries rt laws (own (λ a w. rt.bool a (rt.uint32 tag w)) o) step (with none) (with o)
    bool-Carries with o e =
        Carries-own rt laws step tag ht rt.bool rt.read_bool with o e
          (Given-intro (λ a. (laws.of_bool a, laws.written-bool a, laws.reads-bool a)) o)

    pub uint32-Carries :
        (with : Option ℕ → M) (o : Option ℕ)
        → step tag (with none) ≡ (rt.read_uint32 >>= λ x. pure (with (some x)))
        → Given IsU32 o
        → Carries rt laws (own (λ a w. rt.uint32 a (rt.uint32 tag w)) o) step (with none) (with o)
    uint32-Carries with o e h =
        Carries-own rt laws step tag ht rt.uint32 rt.read_uint32 with o e
          (Given-map (λ a k. (laws.of_uint32 a, laws.written-uint32 a, laws.reads-uint32 a k)) o h)

    pub int32-Carries :
        (with : Option ℤ → M) (o : Option ℤ)
        → step tag (with none) ≡ (rt.read_int32 >>= λ x. pure (with (some x)))
        → Given IsInt32 o
        → Carries rt laws (own (λ a w. rt.int32 a (rt.uint32 tag w)) o) step (with none) (with o)
    int32-Carries with o e h =
        Carries-own rt laws step tag ht rt.int32 rt.read_int32 with o e
          (Given-map (λ a k. (laws.of_int32 a, laws.written-int32 a, laws.reads-int32 a k)) o h)

    pub uint64-Carries :
        (with : Option ℕ → M) (o : Option ℕ)
        → step tag (with none) ≡ (rt.read_uint64 >>= λ x. pure (with (some x)))
        → Given IsSafe o
        → Carries rt laws (own (λ a w. rt.uint64 a (rt.uint32 tag w)) o) step (with none) (with o)
    uint64-Carries with o e h =
        Carries-own rt laws step tag ht rt.uint64 rt.read_uint64 with o e
          (Given-map (λ a k. (laws.of_uint64 a, laws.written-uint64 a, laws.reads-uint64 a k)) o h)

    pub int64-Carries :
        (with : Option ℤ → M) (o : Option ℤ)
        → step tag (with none) ≡ (rt.read_int64 >>= λ x. pure (with (some x)))
        → Given IsSafeInt o
        → Carries rt laws (own (λ a w. rt.int64 a (rt.uint32 tag w)) o) step (with none) (with o)
    int64-Carries with o e h =
        Carries-own rt laws step tag ht rt.int64 rt.read_int64 with o e
          (Given-map (λ a k. (laws.of_int64 a, laws.written-int64 a, laws.reads-int64 a k)) o h)

    pub float-Carries :
        (with : Option Double → M) (o : Option Double)
        → step tag (with none) ≡ (rt.read_float >>= λ x. pure (with (some x)))
        → Given laws.IsFloat o
        → Carries rt laws (own (λ a w. rt.float a (rt.uint32 tag w)) o) step (with none) (with o)
    float-Carries with o e h =
        Carries-own rt laws step tag ht rt.float rt.read_float with o e
          (Given-map (λ a k. (laws.of_float a, laws.written-float a, laws.reads-float a k)) o h)

    pub double-Carries :
        (with : Option Double → M) (o : Option Double)
        → step tag (with none) ≡ (rt.read_double >>= λ x. pure (with (some x)))
        → Given laws.IsDouble o
        → Carries rt laws (own (λ a w. rt.double a (rt.uint32 tag w)) o) step (with none) (with o)
    double-Carries with o e h =
        Carries-own rt laws step tag ht rt.double rt.read_double with o e
          (Given-map (λ a k. (laws.of_double a, laws.written-double a, laws.reads-double a k)) o h)

    pub strings-Carries :
        (with : List String → M) (xs : List String)
        → ((zs : List String)
            → step tag (with zs) ≡ (rt.read_string >>= λ x. pure (with (zs ++ x ∷ []))))
        → Carries rt laws (each (λ a w. rt.string a (rt.uint32 tag w)) xs) step (with []) (with xs)
    strings-Carries with xs e =
        Carries-each rt laws step tag ht rt.string rt.read_string with xs e
          (All-intro (λ a. (laws.of_string a, laws.written-string a, laws.reads-string a)) xs)

    -- A nested message, and a repeated one, whose own round trip is `carried`.
    module _ {N : Type 0} (sub_step : ℕ → N → Parser rt.Reader N) (sub_empty : N)
        (encode : N → Option rt.Writer → rt.Writer) where
      pub message-Carries :
          (with : Option N → M) (o : Option N)
          → step tag (with none)
            ≡ (sub_message rt (decode_with rt sub_step sub_empty) >>= λ x. pure (with (some x)))
          → Given (λ x. Carries rt laws (λ w. encode x (some w)) sub_step sub_empty x) o
          → Carries rt laws
              (own (λ x w. rt.ldelim (encode x (some (rt.fork (rt.uint32 tag w))))) o)
              step
              (with none)
              (with o)
      message-Carries with o e h =
          Carries-own rt laws step tag ht (λ x w. rt.ldelim (encode x (some (rt.fork w))))
            (sub_message rt (decode_with rt sub_step sub_empty)) with o e
            (Given-map (λ x k. Coded-message rt laws sub_step sub_empty x encode k) o h)

      pub messages-Carries :
          (with : List N → M) (xs : List N)
          → ((zs : List N)
              → step tag (with zs) ≡ (
                  sub_message rt (decode_with rt sub_step sub_empty) >>= λ x.
                  pure (with (zs ++ x ∷ []))))
          → All (λ x. Carries rt laws (λ w. encode x (some w)) sub_step sub_empty x) xs
          → Carries rt laws
              (each (λ x w. rt.ldelim (encode x (some (rt.fork (rt.uint32 tag w))))) xs)
              step
              (with [])
              (with xs)
      messages-Carries with xs e h =
          Carries-each rt laws step tag ht (λ x w. rt.ldelim (encode x (some (rt.fork w))))
            (sub_message rt (decode_with rt sub_step sub_empty)) with xs e
            (All-map (λ x k. Coded-message rt laws sub_step sub_empty x encode k) xs h)
