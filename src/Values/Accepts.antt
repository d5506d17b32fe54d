-- ===== src/Values/Accepts.antt =====
-- When the tests of `verify` accept what `toObject` made.
use mathlib.Core.Logic.{◌⊎◌, inl, inr}
use mathlib.Core.Option
use tilbo.Prelude.{
  ℕ, ◌+◌, ◌≤◌, String, ◌≡◌, refl, sym, ap, ◌∙◌, Bool, true, false, Option, none, some, List, [],
  ◌∷◌, arith, str_eq, eq_iff, if◌then◌else◌, All, Given, Bool-cases,
}
use tilbo.Values.{
  Value, undefined, null, boolean, integer, number, string, object, array, lookup, present,
  property, own_value, check, when_given, ◌orelse◌, verify_record, is_record, Props, every,
}
use tilbo.Values.Slots.{Slots, props_of, items_of}

abbrev pub find_slot : String → Slots → Option Value
find_slot f [] = none
find_slot f ((g, o) ∷ slots) = if str_eq g f then o else find_slot f slots

abbrev pub is_fresh : String → Slots → Bool
is_fresh f [] = true
is_fresh f ((g, o) ∷ slots) = if str_eq g f then false else is_fresh f slots

abbrev pub are_distinct : Slots → Bool
are_distinct [] = true
are_distinct ((f, o) ∷ slots) = if is_fresh f slots then are_distinct slots else false

-- 1 for a property that is set.
abbrev pub given {ℓ} : {A : Type ℓ} → Option A → ℕ
given none = 0
given (some a) = 1

pub given-max : {A : Type 0} (o : Option A) → given o ≤ 1
given-max none = omega arith
given-max (some a) = omega arith

lookup-fresh :
    (f : String) (slots : Slots) → is_fresh f slots ≡ true → lookup f (props_of slots) ≡ undefined
unfolding lookup props_of
lookup-fresh f [] h = refl
lookup-fresh f ((g, none) ∷ slots) h = ground (arith, lookup-fresh f slots)
lookup-fresh f ((g, some v) ∷ slots) h = ground (arith, lookup-fresh f slots)

-- A property of the object is the slot's value.
unfoldable pub Found : String → Slots → Type 0
Found f slots =
    (lookup f (props_of slots) ≡ undefined)
    ⊎ ((v : Value) × (find_slot f slots ≡ some v) × (lookup f (props_of slots) ≡ v))

Found-here :
    (f g : String) (o : Option Value) (slots : Slots)
    → g ≡ f
    → is_fresh g slots ≡ true
    → Found f ((g, o) ∷ slots)
unfolding lookup props_of Found
Found-here f g none slots e h =
    inl (ap (λ k. lookup k (props_of slots)) (sym e) ∙ lookup-fresh g slots h)
Found-here f g (some v) slots e h = inr (v, ground (arith, eq_iff g f), ground (arith, eq_iff g f))

Found-there :
    (f g : String) (o : Option Value) (slots : Slots)
    → str_eq g f ≡ false
    → Found f slots
    → Found f ((g, o) ∷ slots)
unfolding lookup props_of Found
Found-there f g none slots e h = ground arith
Found-there f g (some v) slots e h = ground arith

pub find-Found : (f : String) (slots : Slots) → are_distinct slots ≡ true → Found f slots
unfolding lookup props_of Found
find-Found f [] h = inl refl
find-Found f ((g, o) ∷ slots) h = elim (Bool-cases (str_eq g f)) [
  | inl e ↦ Found-here f g o slots ((eq_iff g f).0 e) (ground arith)
  | inr e ↦ Found-there f g o slots e (find-Found f slots (ground arith))
]

when_given-present :
    (v : Value) (test : Value → Option String) → test v ≡ none → when_given (present v) test ≡ none
unfolding when_given present
when_given-present undefined test h = refl
when_given-present null test h = refl
when_given-present (boolean b) test h = h
when_given-present (integer z) test h = h
when_given-present (number d) test h = h
when_given-present (string s) test h = h
when_given-present (array xs) test h = h
when_given-present (object ps) test h = h

module _ (slots : Slots) (distinct : are_distinct slots ≡ true) where
  pub own-accepts :
      (f : String) (test : Value → Option String)
      → when_given (find_slot f slots) test ≡ none
      → when_given (own_value f (object (props_of slots))) test ≡ none
  unfolding own_value property Found when_given present
  own-accepts f test h = elim (find-Found f slots distinct) [
    | inl e ↦ ap (λ v. when_given (present v) test) e
    | inr (v, found, e) ↦
        ap (λ x. when_given (present x) test) e
        ∙ when_given-present v test (ap (λ o. when_given o test) (sym found) ∙ h)
  ]

  -- A test accepts the object if it accepts the slot.
  pub check-accepts :
      (f : String) (test : String → Value → Option String)
      → when_given (find_slot f slots) (test f) ≡ none
      → check f test (object (props_of slots)) ≡ none
  unfolding check
  check-accepts f test h = own-accepts f (test f) h

-- A test, and the tests behind it.
infixr 3 ◌⨾◌
pub ◌⨾◌ : {a b : Option String} → a ≡ none → b ≡ none → (a orelse b) ≡ none
unfolding ◌orelse◌
◌⨾◌ {a = none} ea eb = eb
◌⨾◌ {a = some x} ea eb = ea

pub orelse-none : (a : Option String) {b : Option String} → (a orelse b) ≡ none → b ≡ none
unfolding ◌orelse◌
orelse-none none e = e
orelse-none (some x) e = absurd (Option.some-ne-none x e)

pub orelse-first : (a b : Option String) → (a orelse b) ≡ none → a ≡ none
unfolding ◌orelse◌
orelse-first none b e = refl
orelse-first (some x) b e = e

pub record-accepts :
    {e : Option String} (ps : Props) → e ≡ none → verify_record e (object ps) ≡ none
unfolding verify_record is_record
record-accepts ps h = h

module _ {A : Type 0} (g : A → Value) (test : Value → Option String) where
  -- What a property that is set has to meet.
  pub slot-accepts :
      (o : Option A) → Given (λ a. test (g a) ≡ none) o → when_given (Option.map g o) test ≡ none
  unfolding when_given
  slot-accepts none h = refl
  slot-accepts (some a) h = h

  pub every-accepts :
      (as' : List A) → All (λ a. test (g a) ≡ none) as' → every test (items_of g as') ≡ none
  unfolding every items_of
  every-accepts [] h = refl
  every-accepts (a ∷ as') h = h.0 ⨾ (every-accepts as' h.1)

abbrev pub sum : List ℕ → ℕ
sum [] = 0
sum (n ∷ ns) = n + sum ns

infixr 3 ◌&◌
abbrev pub ◌&◌ : {A B : Type 0} → A → B → A × B
a & b = (a, b)

-- The terms of two sums, one after the other.
infixr 30 ◌⊕◌
pub ◌⊕◌ : {a b c d : ℕ} → a ≡ b → c ≡ d → a + c ≡ b + d
e ⊕ e' = omega (arith, e, e')

pub given-map : {A B : Type 0} (g : A → B) (o : Option A) → given (Option.map g o) ≡ given o
given-map g none = refl
given-map g (some a) = refl

pub nothing : ◌≡◌ {A = ℕ} 0 0
nothing = refl
