-- ===== src/Values/Oneof.antt =====
-- The members of a oneof in `verify`: when they are accepted, and what follows.
use mathlib.Core.Logic.{inl, inr}
use mathlib.Core.Option
use tilbo.Prelude.{
  ℕ, ◌+◌, ◌≤◌, String, ◌≡◌, refl, ap, Bool, true, false, Option, none, some, List, [], ◌∷◌, arith,
  All, Given,
}
use tilbo.Values.{
  Value, object, lookup, present, property, own_value, when_given, verify_oneof, verify_member,
  expects_message, nested,
}
use tilbo.Values.Slots.{Slots, props_of}
use tilbo.Values.Accepts.{
  find_slot, are_distinct, given, given-max, Found, find-Found, own-accepts, ◌⨾◌, orelse-none,
  orelse-first,
}

-- The members of a oneof, each with the `verify` of its message.
abbrev pub Members : Type 0
Members = List (String × (Value → Option String))

-- The number of them that a value has as properties of its own, and that their `verify` accepts those.
abbrev pub count_own : Members → Value → ℕ
count_own [] v = 0
count_own ((f, verify) ∷ members) v = given (own_value f v) + count_own members v

-- The number of the names that a value has as properties of its own.
abbrev pub count_given : List String → Value → ℕ
count_given [] v = 0
count_given (f ∷ names) v = given (own_value f v) + count_given names v

-- A property of its own that the value has is accepted by a class.
abbrev pub Accepts : Value → String → (Value → Option String) → Type 0
Accepts v f verify = Given (λ x. verify x ≡ none) (own_value f v)

infixr 2 ◌and◌
abbrev pub ◌and◌ : Type 0 → Type 0 → Type 0
A and B = A × B

abbrev pub AreVerified : Members → Value → Type 0
AreVerified members v = All (λ m. Given (λ x. m.1 x ≡ none) (own_value m.0 v)) members

-- 1 if a member of the oneof was met before.
abbrev pub seen_before : Bool → ℕ
seen_before true = 1
seen_before false = 0

pub nested-none : (f : String) (e : Option String) → nested f e ≡ none → e ≡ none
unfolding nested
nested-none f none h = refl
nested-none f (some e) h = absurd (Option.some-ne-none _ h)

module _ (name f : String) (verify : Value → Option String) where
  member-accepts :
      (seen : Bool) (o : Option Value) (continue : Bool → Option String)
      → Given (λ x. verify x ≡ none) o
      → (n : ℕ) → given o + n + seen_before seen ≤ 1
      → ((s : Bool) → n + seen_before s ≤ 1 → continue s ≡ none)
      → verify_member name f verify seen o continue ≡ none
  unfolding verify_member expects_message nested
  member-accepts seen none continue h n le rest = rest seen (omega arith)
  member-accepts true (some v) continue h n le rest = absurd (omega arith)
  member-accepts false (some v) continue h n le rest = ap (nested f) h ⨾ rest true (omega arith)

  member-holds :
      {P : Type 0} (seen : Bool) (o : Option Value) (continue : Bool → Option String) (n : ℕ)
      → verify_member name f verify seen o continue ≡ none
      → ((s : Bool) → continue s ≡ none → (n + seen_before s ≤ 1) × P)
      → (given o + n + seen_before seen ≤ 1) × (Given (λ x. verify x ≡ none) o × P)
  unfolding verify_member expects_message
  member-holds seen none continue n e rest = let (le, p) = rest seen e in (omega arith, (tt, p))
  member-holds true (some v) continue n e rest = absurd (Option.some-ne-none _ e)
  member-holds false (some v) continue n e rest =
      let (le, p) = rest true (orelse-none _ e) in
      (omega arith, (nested-none f (verify v) (orelse-first _ _ e), p))

pub oneof-accepts :
    (name : String) (members : Members) (seen : Bool) (v : Value)
    → AreVerified members v
    → count_own members v + seen_before seen ≤ 1
    → verify_oneof name members seen v ≡ none
unfolding verify_oneof
oneof-accepts name [] seen v h le = refl
oneof-accepts name ((f, verify) ∷ members) seen v h le =
    member-accepts name f verify seen _ _ h.0 (count_own members v) (omega arith)
      (λ s. oneof-accepts name members s v h.1)

pub oneof-holds :
    (name : String) (members : Members) (seen : Bool) (v : Value)
    → verify_oneof name members seen v ≡ none
    → (count_own members v + seen_before seen ≤ 1) × AreVerified members v
unfolding verify_oneof
oneof-holds name [] true v e = (omega arith, tt)
oneof-holds name [] false v e = (omega arith, tt)
oneof-holds name ((f, verify) ∷ members) seen v e =
    let (le, (here, there)) =
      member-holds name f verify seen (own_value f v) (λ s. verify_oneof name members s v)
        (count_own members v) e (λ s. oneof-holds name members s v) in
    (omega arith, (here, there))

-- What a oneof of an object has to meet that `toObject` made.
abbrev pub count_members : Members → Slots → ℕ
count_members [] slots = 0
count_members ((f, verify) ∷ members) slots =
    given (find_slot f slots) + count_members members slots

module _ (slots : Slots) (distinct : are_distinct slots ≡ true) where
  own-slot :
      (f : String) → given (own_value f (object (props_of slots))) ≤ given (find_slot f slots)
  unfolding own_value property Found present
  own-slot f = elim (find-Found f slots distinct) [
    | inl e ↦ omega (arith, ap (λ v. given (present v)) e)
    | inr (v, found, e) ↦
        omega (arith, ap (λ o. given o) found, given-max (present (lookup f (props_of slots))))
  ]

  count-slots :
      (members : Members)
      → count_own members (object (props_of slots)) ≤ count_members members slots
  count-slots [] = omega arith
  count-slots ((f, verify) ∷ members) = omega (arith, own-slot f, count-slots members)

  Given-verified :
      (f : String) (verify : Value → Option String) (o : Option Value)
      → when_given o (expects_message verify f) ≡ none
      → Given (λ x. verify x ≡ none) o
  unfolding when_given expects_message
  Given-verified f verify none h = tt
  Given-verified f verify (some v) h = nested-none f (verify v) h

  slots-AreVerified :
      (members : Members)
      → All (λ m. when_given (find_slot m.0 slots) (expects_message m.1 m.0) ≡ none) members
      → AreVerified members (object (props_of slots))
  slots-AreVerified [] h = tt
  slots-AreVerified ((f, verify) ∷ members) h = (
    Given-verified f verify _ (own-accepts slots distinct f _ h.0),
    slots-AreVerified members h.1,
  )

  pub oneof-accepts_slots :
      (name : String) (members : Members)
      → All (λ m. when_given (find_slot m.0 slots) (expects_message m.1 m.0) ≡ none) members
      → count_members members slots ≤ 1
      → verify_oneof name members false (object (props_of slots)) ≡ none
  oneof-accepts_slots name members h le =
      oneof-accepts name members false _ (slots-AreVerified members h)
        (omega (arith, count-slots members))
