-- ===== src/Prelude/Sorted.antt =====
-- Python's `sorted` for a given order: stable insertion, and that it keeps the elements.
use mathlib.Core.Logic.{inl, inr}
use mathlib.Core.Bool.{Bool}
use mathlib.Core.List.{List, [], ◌∷◌, Memᴰ}
use mathlib.Core.List.Memᴰ
use chip_chain_v.Prelude.Tests.{if◌then◌else◌, Bool-cases}

module _ {ℓ} {A : Type ℓ} (leq : A → A → Bool) where
  unfoldable pub insert_with : A → List A → List A
  insert_with x [] = x ∷ []
  insert_with x (y ∷ ys) = let later = insert_with x ys in if leq x y then x ∷ y ∷ ys else y ∷ later

  unfoldable pub sorted_with : List A → List A
  unfolding insert_with
  sorted_with [] = []
  sorted_with (x ∷ xs) = insert_with x (sorted_with xs)

  insert_with-Memᴰ : (x a : A) (ys : List A) → Memᴰ a (insert_with x ys) → Memᴰ a (x ∷ ys)
  unfolding insert_with
  insert_with-Memᴰ x a [] m = m
  insert_with-Memᴰ x a (y ∷ ys) m = elim (Bool-cases (leq x y)) [
    | inl low ↦ rw low at m
    | inr high ↦ elim (Memᴰ.cases_cons (rw high at m)) [
      | inl e ↦ Memᴰ.tail (Memᴰ.head e)
      | inr later ↦ elim (Memᴰ.cases_cons (insert_with-Memᴰ x a ys later)) [
        | inl e ↦ Memᴰ.head e
        | inr rest ↦ Memᴰ.tail (Memᴰ.tail rest)
      ]
    ]
  ]

  Memᴰ-insert_with : (x a : A) (ys : List A) → Memᴰ a (x ∷ ys) → Memᴰ a (insert_with x ys)
  unfolding insert_with
  Memᴰ-insert_with x a [] m = m
  Memᴰ-insert_with x a (y ∷ ys) m = elim (Bool-cases (leq x y)) [
    | inl low ↦ rw low m
    | inr high ↦ rw high (elim (Memᴰ.cases_cons m) [
      | inl e ↦ Memᴰ.tail (Memᴰ-insert_with x a ys (Memᴰ.head e))
      | inr later ↦ elim (Memᴰ.cases_cons later) [
        | inl e ↦ Memᴰ.head e
        | inr rest ↦ Memᴰ.tail (Memᴰ-insert_with x a ys (Memᴰ.tail rest))
      ]
    ])
  ]

  pub sorted_with-Memᴰ : (a : A) (xs : List A) → Memᴰ a (sorted_with xs) → Memᴰ a xs
  unfolding sorted_with
  sorted_with-Memᴰ a [] m = m
  sorted_with-Memᴰ a (x ∷ xs) m = elim (Memᴰ.cases_cons (insert_with-Memᴰ x a (sorted_with xs) m)) [
    | inl e ↦ Memᴰ.head e
    | inr later ↦ Memᴰ.tail (sorted_with-Memᴰ a xs later)
  ]

  pub Memᴰ-sorted_with : (a : A) (xs : List A) → Memᴰ a xs → Memᴰ a (sorted_with xs)
  unfolding sorted_with
  Memᴰ-sorted_with a [] m = m
  Memᴰ-sorted_with a (x ∷ xs) m = Memᴰ-insert_with x a (sorted_with xs) (elim (Memᴰ.cases_cons m) [
    | inl e ↦ Memᴰ.head e
    | inr later ↦ Memᴰ.tail (Memᴰ-sorted_with a xs later)
  ])
