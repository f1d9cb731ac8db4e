-- ===== src/Reach/Pairs.antt =====
-- The pairs of different functions, in any order of the functions.
use chip_chain_v.Prelude.{
  ◌+◌, ◌≡◌, refl, sym, ap, ◌∙◌, subst, String, String_eq, Bool, true, List, [], ◌∷◌, ◌++◌, map,
  select, select-Memᴰ, Memᴰ-select, length, length-append, length-map, Memᴰ, Memᴰ-map_in,
  Memᴰ-map_out, Bool-cases, inl, inr, arith, insert_with, sorted_with,
}
use mathlib.Core.List.Memᴰ
use chip_chain_v.Reach.Catalog.{FunctionBinding}
use chip_chain_v.Reach.Build.{other_than, pairs_from}
use chip_chain_v.Reach.Validate.{has_pair}

pub pairs_from-Memᴰ :
    (xs ys : List FunctionBinding) (q : FunctionBinding × FunctionBinding)
    → Memᴰ q (pairs_from xs ys)
    → Memᴰ q.0 xs × Memᴰ q.1 ys × (other_than q.0 q.1 ≡ true)
unfolding pairs_from
pairs_from-Memᴰ [] ys q m = absurd (Memᴰ.not-nil m)
pairs_from-Memᴰ (x ∷ xs) ys q m =
    elim (Memᴰ.append_cases (map (λ b. (x, b)) (select (other_than x) ys)) m) [
      | inl now ↦
          let (b, chosen, same) = Memᴰ-map_in (λ b. (x, b)) (select (other_than x) ys) q now in
          let (inside, other) = select-Memᴰ (other_than x) ys b chosen in
          subst
            (λ (p : FunctionBinding × FunctionBinding).
              Memᴰ p.0 (x ∷ xs) × Memᴰ p.1 ys × (other_than p.0 p.1 ≡ true))
            (sym same) (Memᴰ.head refl, inside, other)
      | inr later ↦
          let (source, target, other) = pairs_from-Memᴰ xs ys q later in
          (Memᴰ.tail source, target, other)
    ]

pub Memᴰ-pairs_from :
    (xs ys : List FunctionBinding) (a b : FunctionBinding)
    → Memᴰ a xs
    → Memᴰ b ys
    → other_than a b ≡ true
    → Memᴰ (a, b) (pairs_from xs ys)
unfolding pairs_from
Memᴰ-pairs_from [] ys a b m n h = absurd (Memᴰ.not-nil m)
Memᴰ-pairs_from (x ∷ xs) ys a b m n h = elim (Memᴰ.cases_cons m) [
  | inl e ↦
      subst (λ z. Memᴰ (a, b) (map (λ c. (z, c)) (select (other_than z) ys) ++ pairs_from xs ys)) e
        (Memᴰ.append_left (pairs_from xs ys) (
          Memᴰ-map_out (λ c. (a, c)) (select (other_than a) ys) b
            (Memᴰ-select (other_than a) ys b n h)))
  | inr later ↦ Memᴰ.append_right _ (Memᴰ-pairs_from xs ys a b later n h)
]

module _ (leq : FunctionBinding → FunctionBinding → Bool) where
  select-insert :
      (p : FunctionBinding → Bool) (y : FunctionBinding) (ys : List FunctionBinding)
      → length (select p (insert_with leq y ys)) ≡ length (select p (y ∷ ys))
  unfolding insert_with
  select-insert p y [] = refl
  select-insert p y (z ∷ ys) = let rest = select-insert p y ys in ground arith

  select-sorted :
      (p : FunctionBinding → Bool) (ys : List FunctionBinding)
      → length (select p (sorted_with leq ys)) ≡ length (select p ys)
  unfolding sorted_with
  select-sorted p [] = refl
  select-sorted p (y ∷ ys) =
      let first = select-insert p y (sorted_with leq ys) in
      let rest = select-sorted p ys in ground arith

  length-pairs_from :
      (x : FunctionBinding) (xs ys : List FunctionBinding)
      → length (pairs_from (x ∷ xs) ys)
        ≡ length (select (other_than x) ys) + length (pairs_from xs ys)
  unfolding pairs_from
  length-pairs_from x xs ys = omega (
    arith,
    length-append (map (λ b. (x, b)) (select (other_than x) ys)) (pairs_from xs ys),
    length-map {B = FunctionBinding × FunctionBinding} (λ b. (x, b)) (select (other_than x) ys),
  )

  pairs_from-insert :
      (x : FunctionBinding) (xs ys : List FunctionBinding)
      → length (pairs_from (insert_with leq x xs) ys) ≡ length (pairs_from (x ∷ xs) ys)
  unfolding insert_with
  pairs_from-insert x [] ys = refl
  pairs_from-insert x (z ∷ xs) ys = elim (Bool-cases (leq x z)) [
    | inl low ↦ simp low
    | inr high ↦
        let same : insert_with leq x (z ∷ xs) ≡ z ∷ insert_with leq x xs = simp high in
        let moved = length-pairs_from z (insert_with leq x xs) ys in
        let rest = pairs_from-insert x xs ys in
        let one = length-pairs_from x (z ∷ xs) ys in
        let two = length-pairs_from z xs ys in
        let three = length-pairs_from x xs ys in
        ap (λ l. length (pairs_from l ys)) same ∙ omega (arith, moved, rest, one, two, three)
  ]

  sources-sorted :
      (xs ys : List FunctionBinding)
      → length (pairs_from (sorted_with leq xs) ys) ≡ length (pairs_from xs ys)
  unfolding sorted_with
  sources-sorted [] ys = refl
  sources-sorted (x ∷ xs) ys = omega (
    arith,
    pairs_from-insert x (sorted_with leq xs) ys,
    length-pairs_from x (sorted_with leq xs) ys,
    sources-sorted xs ys,
    length-pairs_from x xs ys,
  )

  targets-sorted :
      (xs ys : List FunctionBinding)
      → length (pairs_from xs (sorted_with leq ys)) ≡ length (pairs_from xs ys)
  unfolding pairs_from
  targets-sorted [] ys = refl
  targets-sorted (x ∷ xs) ys = omega (
    arith,
    length-pairs_from x xs (sorted_with leq ys),
    select-sorted (other_than x) ys,
    targets-sorted xs ys,
    length-pairs_from x xs ys,
  )

  -- There are as many pairs of the sorted functions as of the functions.
  pub length-pairs_sorted :
      (xs : List FunctionBinding)
      → length (pairs_from (sorted_with leq xs) (sorted_with leq xs)) ≡ length (pairs_from xs xs)
  length-pairs_sorted xs =
      omega (arith, sources-sorted xs (sorted_with leq xs), targets-sorted xs xs)

-- A pair of texts that stands in a list is found.
pub has_pair-Memᴰ :
    (ps : List (String × String)) (a : String × String) → Memᴰ a ps → has_pair ps a ≡ true
has_pair-Memᴰ [] a m = absurd (Memᴰ.not-nil m)
has_pair-Memᴰ (p ∷ ps) a m = elim (Memᴰ.cases_cons m) [
  | inl e ↦
      let first = (String_eq.beq_iff a.0 p.0).1 (ap (λ (x : String × String). x.0) e) in
      let second = (String_eq.beq_iff a.1 p.1).1 (ap (λ (x : String × String). x.1) e) in
      simp (first, second)
  | inr later ↦ let rest = has_pair-Memᴰ ps a later in ground arith
]
