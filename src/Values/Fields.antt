-- ===== src/Values/Fields.antt =====
-- The tests of `verify`, field type by field type, on what `toObject` puts there.
use mathlib.Core.Logic.{inl, inr}
use mathlib.Core.Option
use tilbo.Prelude.{
  ℕ, ◌≤◌, String, ◌≡◌, refl, ap, ◌∙◌, Bool, true, false, Option, none, some, List, [], ◌∷◌, arith,
  str_eq, All, Given, if◌then◌else◌,
}
use tilbo.Prelude.Int.{ℤ, pos}
use tilbo.Runtime.{Double}
use tilbo.Codec.{Entries}
use tilbo.Values.{
  Value, boolean, integer, number, string, object, Props, no_props, prop, when_given, Util,
  Documented, expect, expects_boolean, expects_number, expects_enum, expects_message,
  expects_messages, expects_string, expects_integer, expects_wide, expects_strings, expects_map,
  is_long, every_own, every_value, nested,
}
use tilbo.Values.Slots.{list_slot, map_slot, assign, assign_all}
use tilbo.Values.Accepts.{slot-accepts, every-accepts, ◌⨾◌, orelse-none, orelse-first}

pub Given-always : {A : Type 0} {P : A → Type 0} → ((a : A) → P a) → (o : Option A) → Given P o
Given-always h none = tt
Given-always h (some a) = h a

pub All-always : {A : Type 0} {P : A → Type 0} → ((a : A) → P a) → (as' : List A) → All P as'
All-always h [] = tt
All-always h (a ∷ as') = (h a, All-always h as')

pub expect-true : (b : Bool) (f what : String) → b ≡ true → expect b f what ≡ none
unfolding expect
expect-true true f what h = refl
expect-true false f what h = cc

pub accepts-boolean :
    (f : String) (o : Option Bool) → when_given (Option.map boolean o) (expects_boolean f) ≡ none
unfolding expects_boolean
accepts-boolean f o = slot-accepts boolean _ o (Given-always (λ b. refl) o)

pub accepts-number :
    (f : String) (o : Option Double) → when_given (Option.map number o) (expects_number f) ≡ none
unfolding expects_number
accepts-number f o = slot-accepts number _ o (Given-always (λ b. refl) o)

-- One of the numbers of an enum with `last` as its last.
abbrev pub IsEnum : ℕ → ℤ → Type 0
IsEnum last z = (n : ℕ) × (n ≤ last) × (z ≡ pos n)

pub accepts-enum :
    (last : ℕ) (f : String) (o : Option ℤ)
    → Given (IsEnum last) o
    → when_given (Option.map integer o) (expects_enum last f) ≡ none
unfolding expects_enum when_given expect
accepts-enum last f none h = refl
accepts-enum last f (some z) (n, le, e) =
    ap (λ z. expects_enum last f (integer z)) e ∙ expect-true _ f "enum value" (ground arith)

either-true : (a b : Bool) → b ≡ true → (if a then true else b) ≡ true
either-true true b h = refl
either-true false b h = h

module _ {M : Type 0} (to_object : M → Value) (verify : Value → Option String) where
  pub accepts-message :
      (f : String) (o : Option M)
      → Given (λ m. verify (to_object m) ≡ none) o
      → when_given (Option.map to_object o) (expects_message verify f) ≡ none
  unfolding expects_message nested when_given
  accepts-message f none h = refl
  accepts-message f (some m) h = ap (nested f) h

  nested-All :
      (f : String) (ms : List M)
      → All (λ m. verify (to_object m) ≡ none) ms
      → All (λ m. nested f (verify (to_object m)) ≡ none) ms
  unfolding nested
  nested-All f [] h = tt
  nested-All f (m ∷ ms) h = (ap (nested f) h.0, nested-All f ms h.1)

  pub accepts-messages :
      (f : String) (ms : List M)
      → All (λ m. verify (to_object m) ≡ none) ms
      → when_given (list_slot to_object ms) (expects_messages verify f) ≡ none
  unfolding expects_messages list_slot when_given
  accepts-messages f [] h = refl
  accepts-messages f (m ∷ ms) h =
      every-accepts to_object (λ v. nested f (verify v)) (m ∷ ms) (nested-All f (m ∷ ms) h)

module _ (test : Value → Option String) (ok : (s : String) → test (string s) ≡ none) where
  assign-accepts :
      (k s : String) (ps : Props)
      → every_value test ps ≡ none
      → every_value test (assign k s ps) ≡ none
  unfolding every_value assign
  assign-accepts k s no_props h = ok s ⨾ refl
  assign-accepts k s (prop j v ps) h =
      elim (str_eq j k)
        as (λ b.
          every_value test (if b then prop j (string s) ps else prop j v (assign k s ps)) ≡ none) [
            | true ↦ ok s ⨾ (orelse-none (test v) h)
            | false ↦ orelse-first (test v) _ h ⨾ (assign-accepts k s ps (orelse-none (test v) h))
          ]

  assign_all-accepts :
      (es : Entries) (ps : Props)
      → every_value test ps ≡ none
      → every_value test (assign_all es ps) ≡ none
  unfolding assign_all
  assign_all-accepts [] ps h = h
  assign_all-accepts ((k, s) ∷ es) ps h =
      assign_all-accepts es _
        (elim (str_eq k "__proto__")
          as (λ b. every_value test (if b then ps else assign k s ps) ≡ none) [
            | true ↦ h
            | false ↦ assign-accepts k s ps h
          ])

module _ (u : Util) (laws : Documented u) where
  pub accepts-string :
      (f : String) (o : Option String)
      → when_given (Option.map string o) (expects_string u f) ≡ none
  unfolding expects_string
  accepts-string f o =
      slot-accepts string _ o (Given-always (λ s. expect-true _ f "string" (laws.strings s)) o)

  pub accepts-integer :
      (f : String) (o : Option ℤ) → when_given (Option.map integer o) (expects_integer u f) ≡ none
  unfolding expects_integer
  accepts-integer f o =
      slot-accepts integer _ o (Given-always (λ z. expect-true _ f "integer" (laws.integers z)) o)

  pub accepts-natural :
      (f : String) (o : Option ℕ)
      → when_given (Option.map (λ n. integer (pos n)) o) (expects_integer u f) ≡ none
  unfolding expects_integer
  accepts-natural f o =
      slot-accepts _ _ o (Given-always (λ n. expect-true _ f "integer" (laws.integers (pos n))) o)

  wide-accepts : (f : String) (z : ℤ) → expects_wide u f (u.wide z) ≡ none
  unfolding expects_wide
  wide-accepts f z = elim (laws.wides z) [
    | inl e ↦
        ap (expects_wide u f) e
        ∙ expect-true _ f "integer|Long"
            (ap (λ b. if b then true else is_long u (integer z)) (laws.integers z))
    | inr (ps, e, long) ↦
        ap (expects_wide u f) e
        ∙ expect-true _ f "integer|Long"
            (either-true (u.is_integer (object ps)) (is_long u (object ps)) long)
  ]

  pub accepts-wide :
      (f : String) (o : Option ℤ) → when_given (Option.map u.wide o) (expects_wide u f) ≡ none
  accepts-wide f o = slot-accepts _ _ o (Given-always (wide-accepts f) o)

  pub accepts-wide_natural :
      (f : String) (o : Option ℕ)
      → when_given (Option.map (λ n. u.wide (pos n)) o) (expects_wide u f) ≡ none
  accepts-wide_natural f o = slot-accepts _ _ o (Given-always (λ n. wide-accepts f (pos n)) o)

  pub accepts-strings :
      (f : String) (ss : List String)
      → when_given (list_slot string ss) (expects_strings u f) ≡ none
  unfolding expects_strings list_slot when_given
  accepts-strings f [] = refl
  accepts-strings f (s ∷ ss) =
      every-accepts string (λ v. expect (u.is_string v) f "string[]") (s ∷ ss)
        (All-always (λ x. expect-true _ f "string[]" (laws.strings x)) (s ∷ ss))

  map-accepts :
      (f : String) (ps : Props)
      → every_value (λ x. expect (u.is_string x) f "string{k:string}") ps ≡ none
      → expects_map u f (object ps) ≡ none
  unfolding expects_map every_own
  map-accepts f ps h =
      ap
        (λ b.
          if b
          then every_value (λ x. expect (u.is_string x) f "string{k:string}") ps
          else expect false f "object")
        (laws.objects ps)
      ∙ h

  pub accepts-map : (f : String) (es : Entries) → when_given (map_slot es) (expects_map u f) ≡ none
  unfolding map_slot when_given every_value
  accepts-map f [] = refl
  accepts-map f (e ∷ es) = map-accepts f _ (
      assign_all-accepts _ (λ s. expect-true _ f "string{k:string}" (laws.strings s)) (e ∷ es)
        no_props refl)
