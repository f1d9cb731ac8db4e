-- ===== src/Reach/Lookup.antt =====
-- Lookups by distinct identifiers.
use chip_chain_v.Prelude.{
  ◌≡◌, refl, sym, ap, subst, String, String_eq, Bool, true, not, ◌||◌, ◌==◌, some, List, [], ◌∷◌,
  map, find_first, contains, Memᴰ→contains, Memᴰ, Memᴰ-map_out, Bool-cases, inl, inr, arith, ◌∙◌,
  some-injective, eq_sym, and_split, insert_with, sorted_with, length, suc,
}
use mathlib.Core.List.Memᴰ
use chip_chain_v.Capability.{is_distinct}

module _ {ℓ} {A : Type ℓ} (key : A → String) where
  -- Where no identifier stands twice, the search for an element's identifier finds the element.
  pub find_first-distinct :
      (xs : List A) (x : A)
      → is_distinct (map key xs) ≡ true
      → Memᴰ x xs
      → find_first (λ y. key y == key x) xs ≡ some x
  unfolding is_distinct
  find_first-distinct [] x d m = absurd (Memᴰ.not-nil m)
  find_first-distinct (y ∷ ys) x d m = elim (Memᴰ.cases_cons m) [
    | inl e ↦
        let same : (key y == key x) ≡ true =
          (String_eq.beq_iff (key y) (key x)).1 (ap key (sym e)) in
        rw same (ap some (sym e))
    | inr later ↦
        let (fresh, others) = and_split (not (contains (map key ys) (key y))) _ d in
        let rest = find_first-distinct ys x others later in
        let present = Memᴰ→contains (map key ys) (key x) (Memᴰ-map_out key ys x later) in
        (elim (Bool-cases (key y == key x)) [
          | inl same ↦
              let e = (String_eq.beq_iff (key y) (key x)).0 same in
              let clash = subst (λ k. not (contains (map key ys) k) ≡ true) e fresh in ground arith
          | inr apart ↦ simp (apart, rest)
        ])
  ]

  -- Two elements with one identifier are one.
  pub distinct_unique :
      (xs : List A) (x y : A)
      → is_distinct (map key xs) ≡ true
      → Memᴰ x xs
      → Memᴰ y xs
      → key x ≡ key y
      → x ≡ y
  distinct_unique xs x y d m n e =
      let found = find_first-distinct xs x d m in
      let other = find_first-distinct xs y d n in
      some-injective
        (sym found ∙ subst (λ k. find_first (λ z. key z == k) xs ≡ some y) (sym e) other)

  -- Sorting keeps identifiers distinct.
  contains-insert :
      (leq : A → A → Bool) (x : A) (ys : List A) (k : String)
      → contains (map key (insert_with leq x ys)) k ≡ (k == key x || contains (map key ys) k)
  unfolding insert_with
  contains-insert leq x [] k = refl
  contains-insert leq x (y ∷ ys) k = elim (Bool-cases (leq x y)) [
    | inl low ↦ simp low
    | inr high ↦ let rest = contains-insert leq x ys k in ground arith
  ]

  insert-distinct :
      (leq : A → A → Bool) (x : A) (ys : List A)
      → is_distinct (map key (x ∷ ys)) ≡ true
      → is_distinct (map key (insert_with leq x ys)) ≡ true
  unfolding insert_with is_distinct
  insert-distinct leq x [] h = h
  insert-distinct leq x (y ∷ ys) h = elim (Bool-cases (leq x y)) [
    | inl low ↦ rw low h
    | inr high ↦
        let rest = insert-distinct leq x ys (ground arith) in
        let inside = contains-insert leq x ys (key y) in
        let apart = eq_sym (key x) (key y) in ground arith
  ]

  contains-sorted :
      (leq : A → A → Bool) (xs : List A) (k : String)
      → contains (map key (sorted_with leq xs)) k ≡ contains (map key xs) k
  unfolding sorted_with
  contains-sorted leq [] k = refl
  contains-sorted leq (x ∷ xs) k =
      let first = contains-insert leq x (sorted_with leq xs) k in
      let rest = contains-sorted leq xs k in ground arith

  pub sorted_with-distinct :
      (leq : A → A → Bool) (xs : List A)
      → is_distinct (map key xs) ≡ true
      → is_distinct (map key (sorted_with leq xs)) ≡ true
  unfolding sorted_with is_distinct
  sorted_with-distinct leq [] h = refl
  sorted_with-distinct leq (x ∷ xs) h =
      let rest = sorted_with-distinct leq xs (ground arith) in
      let same = contains-sorted leq xs (key x) in
      insert-distinct leq x (sorted_with leq xs) (ground arith)

-- Sorting keeps the number of the elements.
length-insert {ℓ} :
    {A : Type ℓ} (leq : A → A → Bool) (x : A) (ys : List A)
    → length (insert_with leq x ys) ≡ suc (length ys)
unfolding insert_with
length-insert leq x [] = refl
length-insert leq x (y ∷ ys) = ground (arith, length-insert leq x ys)

pub length-sorted_with {ℓ} :
    {A : Type ℓ} (leq : A → A → Bool) (xs : List A) → length (sorted_with leq xs) ≡ length xs
unfolding sorted_with
length-sorted_with leq [] = refl
length-sorted_with leq (x ∷ xs) =
    omega (arith, length-insert leq x (sorted_with leq xs), length-sorted_with leq xs)
