-- ===== src/Scanner/InlineValues.antt =====
-- domain/vulnmap/scanner.go: `GetInlineValues` when some providers fail.
use khulnasoft_lab_vulnmap_l.Prelude.{
  Text, ◌≡◌, refl, ◌↔◌, ◌⊎◌, inl, inr, List, [], ◌∷◌, ◌++◌, Option, none, some, Any,
}
use khulnasoft_lab_vulnmap_l.Vulnmap.Range.{Range}
use khulnasoft_lab_vulnmap_l.Scanner.{
  InlineValue, ProductScanner, values_of, answer_of, get_inline_values,
}

abbrev pub Occurs : InlineValue → List InlineValue → Type 0
Occurs v vs = Any (λ w. w ≡ v) vs

first_or_append : {A B C D : Type 0} → D ↔ (B ⊎ C) → (A ⊎ D) ↔ ((A ⊎ B) ⊎ C)
first_or_append {A} {B} {C} {D} i = (forth, back)
  where
    forth : A ⊎ D → (A ⊎ B) ⊎ C
    forth (inl a) = inl (inl a)
    forth (inr d) = elim (i.0 d) [ inl b ↦ inl (inr b) | inr c ↦ inr c ]

    back : (A ⊎ B) ⊎ C → A ⊎ D
    back (inl (inl a)) = inl a
    back (inl (inr b)) = inr (i.1 (inl b))
    back (inr c) = inr (i.1 (inr c))

either_iff : {A B C D X : Type 0} → X ↔ (A ⊎ B) → A ↔ C → B ↔ D → X ↔ (C ⊎ D)
either_iff {A} {B} {C} {D} {X} i j k = (forth, back)
  where
    forth : X → C ⊎ D
    forth x = elim (i.0 x) [ inl a ↦ inl (j.0 a) | inr b ↦ inr (k.0 b) ]

    back : C ⊎ D → X
    back (inl c) = i.1 (inl (j.1 c))
    back (inr d) = i.1 (inr (k.1 d))

nothing_or : {B : Type 0} → B ↔ (⊥ ⊎ B)
nothing_or {B} = (λ b. inr b, back)
  where
    back : ⊥ ⊎ B → B
    back (inl impossible) = absurd impossible
    back (inr b) = b

Occurs-append :
    (v : InlineValue) (vs ws : List InlineValue) → Occurs v (vs ++ ws) ↔ (Occurs v vs ⊎ Occurs v ws)
Occurs-append v [] ws = nothing_or
Occurs-append v (w ∷ vs) ws = first_or_append (Occurs-append v vs ws)

module _ (path : Text) (r : Range) (v : InlineValue) where
  -- The provider answers, and the value is in its answer.
  abbrev pub Gives : ProductScanner → Type 0
  Gives s = (vs : List InlineValue) × (answer_of path r s ≡ some vs) × Occurs v vs

  given : (s : ProductScanner) → Occurs v (values_of (answer_of path r s)) ↔ Gives s
  unfolding values_of
  given s = (λ h. of_answer (answer_of path r s) refl h, λ g. rw (g.1) (g.2))
    where
      of_answer :
          (o : Option (List InlineValue))
          → answer_of path r s ≡ o
          → Occurs v (values_of o)
          → Gives s
      of_answer none e h = absurd h
      of_answer (some vs) e h = (vs, e, h)

  -- The inline values are those of the providers that answer, all of them: an error of one provider
  -- loses no value of another, and `GetInlineValues` itself reports no error, whatever the providers do.
  pub get_inline_values-errors :
      (ss : List ProductScanner)
      → ((get_inline_values ss path r).1 ≡ none)
        × (Occurs v (get_inline_values ss path r).0 ↔ Any Gives ss)
  unfolding get_inline_values
  get_inline_values-errors [] = (refl, (λ h. h, λ h. h))
  get_inline_values-errors (s ∷ ss) = (
    (get_inline_values-errors ss).0,
    either_iff (Occurs-append v (values_of (answer_of path r s)) (get_inline_values ss path r).0)
        (given s) (get_inline_values-errors ss).1,
  )
