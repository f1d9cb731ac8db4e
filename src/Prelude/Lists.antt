-- ===== src/Prelude/Lists.antt =====
-- Lists under native lengths, Boolean searches in them, and Python's dictionaries as lists of pairs.
use Prim.Native.Nat.{ℕ, suc, ◌+◌}
use mathlib.Core.Path.{◌≡◌, refl, sym, ap, subst}
use mathlib.Core.Logic.{◌⊎◌, inl, inr}
use mathlib.Core.Bool.{Bool, true, false, ◌&&◌, ◌||◌}
use mathlib.Core.Option.{Option, none, some}
use mathlib.Core.List.{List, [], ◌∷◌, ◌++◌, map, Memᴰ}
use mathlib.Core.List.Memᴰ
use native.Mathlib.Omega.{arith}
use chip_chain_v.Prelude.Tests.{Eq, ◌==◌, if◌then◌else◌, Bool-cases, ltb}

-- Each element of a list has the property.
abbrev pub All {ℓ κ} : {A : Type ℓ} → (A → Type κ) → List A → Type κ
All P [] = Unit
All P (x ∷ xs) = P x × All P xs

module _ {ℓ} {A : Type ℓ} where
  abbrev pub is_nonempty : List A → Bool
  is_nonempty [] = false
  is_nonempty (x ∷ xs) = true

  abbrev pub length : List A → ℕ
  length [] = 0
  length (x ∷ xs) = suc (length xs)

  -- `any(p(x) for x in xs)` and `all(p(x) for x in xs)`.
  abbrev pub any : (A → Bool) → List A → Bool
  any p [] = false
  any p (x ∷ xs) = p x || any p xs

  abbrev pub all : (A → Bool) → List A → Bool
  all p [] = true
  all p (x ∷ xs) = p x && all p xs

  -- `[x for x in xs if p(x)]`.
  abbrev pub select : (A → Bool) → List A → List A
  select p [] = []
  select p (x ∷ xs) = let rest = select p xs in if p x then x ∷ rest else rest

  -- `next((x for x in xs if p(x)), None)`.
  abbrev pub find_first : (A → Bool) → List A → Option A
  find_first p [] = none
  find_first p (x ∷ xs) = let rest = find_first p xs in if p x then some x else rest

  -- `xs[0] if len(xs) == 1 else None`.
  abbrev pub only : List A → Option A
  only (x ∷ []) = some x
  only _ = none

  pub length-append : (xs ys : List A) → length (xs ++ ys) ≡ length xs + length ys
  length-append [] ys = omega arith
  length-append (x ∷ xs) ys = omega (arith, length-append xs ys)

  pub Memᴰ-snoc : {a x : A} (xs : List A) → Memᴰ a (xs ++ x ∷ []) → Memᴰ a xs ⊎ (a ≡ x)
  Memᴰ-snoc xs m = elim (Memᴰ.append_cases xs m) [
    | inl old ↦ inl old
    | inr last ↦ inr (Memᴰ.eq_of_singleton last)
  ]

  pub all-Memᴰ : (p : A → Bool) (xs : List A) (a : A) → all p xs ≡ true → Memᴰ a xs → p a ≡ true
  all-Memᴰ p [] a h m = absurd (Memᴰ.not-nil m)
  all-Memᴰ p (x ∷ xs) a h m = elim (Memᴰ.cases_cons m) [
    | inl e ↦ rw e (ground arith)
    | inr later ↦ all-Memᴰ p xs a (ground arith) later
  ]

  -- A selected element is one of the elements, and passes the test.
  pub select-Memᴰ :
      (p : A → Bool) (xs : List A) (a : A) → Memᴰ a (select p xs) → Memᴰ a xs × (p a ≡ true)
  select-Memᴰ p [] a m = absurd (Memᴰ.not-nil m)
  select-Memᴰ p (x ∷ xs) a m = elim (Bool-cases (p x)) [
    | inl hit ↦
        let same : select p (x ∷ xs) ≡ x ∷ select p xs = simp hit in
        (elim (Memᴰ.cases_cons (subst (Memᴰ a) same m)) [
          | inl e ↦ (Memᴰ.head e, subst (λ y. p y ≡ true) (sym e) hit)
          | inr later ↦ let (k, h) = select-Memᴰ p xs a later in (Memᴰ.tail k, h)
        ])
    | inr miss ↦
        let same : select p (x ∷ xs) ≡ select p xs = simp miss in
        let (k, h) = select-Memᴰ p xs a (subst (Memᴰ a) same m) in (Memᴰ.tail k, h)
  ]

  -- The first hit is one of the elements, and passes the test.
  pub find_first-Memᴰ :
      (p : A → Bool) (xs : List A) (a : A) → find_first p xs ≡ some a → Memᴰ a xs × (p a ≡ true)
  find_first-Memᴰ p [] a h = cc
  find_first-Memᴰ p (x ∷ xs) a h = elim (Bool-cases (p x)) [
    | inl hit ↦
        let here : some x ≡ some a = rw hit at h in
        let same : x ≡ a = ap (λ o. elim o [ none ↦ x | some y ↦ y ]) here in
        (Memᴰ.head (sym same), subst (λ y. p y ≡ true) same hit)
    | inr miss ↦ let later = find_first-Memᴰ p xs a (rw miss at h) in (Memᴰ.tail later.0, later.1)
  ]

  -- Where some element passes the test, there is a first hit.
  pub Memᴰ-find_first :
      (p : A → Bool) (xs : List A) (a : A)
      → Memᴰ a xs
      → p a ≡ true
      → (x : A) × (find_first p xs ≡ some x)
  Memᴰ-find_first p [] a m h = absurd (Memᴰ.not-nil m)
  Memᴰ-find_first p (x ∷ xs) a m h = elim (Bool-cases (p x)) [
    | inl hit ↦ (x, simp hit)
    | inr miss ↦ elim (Memᴰ.cases_cons m) [
      | inl e ↦ let hit : p x ≡ true = subst (λ y. p y ≡ true) e h in cc
      | inr later ↦ let (y, found) = Memᴰ-find_first p xs a later h in (y, simp (miss, found))
    ]
  ]

  pub Memᴰ-select :
      (p : A → Bool) (xs : List A) (a : A) → Memᴰ a xs → p a ≡ true → Memᴰ a (select p xs)
  Memᴰ-select p [] a m h = m
  Memᴰ-select p (x ∷ xs) a m h = elim (Memᴰ.cases_cons m) [
    | inl e ↦ let hit : p x ≡ true = subst (λ y. p y ≡ true) e h in rw hit (Memᴰ.head e)
    | inr later ↦
        let rest = Memᴰ-select p xs a later h in
        elim (Bool-cases (p x)) [ inl hit ↦ rw hit (Memᴰ.tail rest) | inr miss ↦ rw miss rest ]
  ]

  pub All-append {κ} :
      (Q : A → Type κ) (front back : List A) → All Q front → All Q back → All Q (front ++ back)
  All-append Q (first ∷ front) back each others = (each.0, All-append Q front back each.1 others)
  All-append Q [] back none_yet others = others

  pub All-mono {κ ι} :
      (P : A → Type κ) (Q : A → Type ι) (xs : List A) → ((x : A) → P x → Q x) → All P xs → All Q xs
  All-mono P Q [] f h = tt
  All-mono P Q (x ∷ xs) f h = (f x h.0, All-mono P Q xs f h.1)

  pub All-Memᴰ {κ} : (P : A → Type κ) {a : A} (xs : List A) → All P xs → Memᴰ a xs → P a
  All-Memᴰ P (x ∷ xs) h m = elim (Memᴰ.cases_cons m) [
    | inl e ↦ rw e h.0
    | inr later ↦ All-Memᴰ P xs h.1 later
  ]
  All-Memᴰ P [] h m = absurd (Memᴰ.not-nil m)

module _ {ℓ} {A : Type ℓ} ⦃e : Eq A⦄ where
  -- `a in xs`.
  abbrev pub contains : List A → A → Bool
  contains [] a = false
  contains (x ∷ xs) a = a == x || contains xs a

  pub contains→Memᴰ : (xs : List A) (a : A) → contains xs a ≡ true → Memᴰ a xs
  contains→Memᴰ [] a h = cc
  contains→Memᴰ (x ∷ xs) a h = elim (Bool-cases (a == x)) [
    | inl same ↦ Memᴰ.head ((e.beq_iff a x).0 same)
    | inr other ↦ Memᴰ.tail (contains→Memᴰ xs a (ground arith))
  ]

  pub Memᴰ→contains : (xs : List A) (a : A) → Memᴰ a xs → contains xs a ≡ true
  Memᴰ→contains [] a m = absurd (Memᴰ.not-nil m)
  Memᴰ→contains (x ∷ xs) a m = elim (Memᴰ.cases_cons m) [
    | inl same ↦ let hit = (e.beq_iff a x).1 same in ground arith
    | inr later ↦ let hit = Memᴰ→contains xs a later in ground arith
  ]

  -- `d.get(key)` for a dictionary written as its list of entries, the first one for a key counting.
  abbrev pub lookup {κ} : {V : Type κ} → A → List (A × V) → Option V
  lookup k [] = none
  lookup k ((j, v) ∷ rest) = let later = lookup k rest in if j == k then some v else later

  -- No element stands twice.
  abbrev pub Distinct : List A → Type 0
  Distinct [] = Unit
  Distinct (x ∷ xs) = (contains xs x ≡ false) × Distinct xs

  pub contains-snoc :
      (xs : List A) (x a : A) → contains (xs ++ x ∷ []) a ≡ (contains xs a || a == x)
  contains-snoc [] x a = ground arith
  contains-snoc (y ∷ xs) x a = ground (arith, contains-snoc xs x a)

  pub Distinct-snoc :
      (xs : List A) (x : A) → Distinct xs → contains xs x ≡ false → Distinct (xs ++ x ∷ [])
  Distinct-snoc [] x d h = (refl, tt)
  Distinct-snoc (y ∷ xs) x d h =
      let apart : (y == x) ≡ false = elim (Bool-cases (y == x)) [
        | inl same ↦ let back = (e.beq_iff x y).1 (sym ((e.beq_iff y x).0 same)) in ground arith
        | inr other ↦ other
      ] in
      (ground (arith, contains-snoc xs x y), Distinct-snoc xs x d.1 (ground arith))

-- An element of a mapped list is the image of one.
pub Memᴰ-map_in {ℓ κ} :
    {A : Type ℓ} {B : Type κ} (f : A → B) (xs : List A) (b : B)
    → Memᴰ b (map f xs)
    → (a : A) × Memᴰ a xs × (b ≡ f a)
Memᴰ-map_in f [] b m = absurd (Memᴰ.not-nil m)
Memᴰ-map_in f (x ∷ xs) b m = elim (Memᴰ.cases_cons m) [
  | inl e ↦ (x, Memᴰ.head refl, e)
  | inr later ↦ let (a, inside, same) = Memᴰ-map_in f xs b later in (a, Memᴰ.tail inside, same)
]

pub Memᴰ-map_out {ℓ κ} :
    {A : Type ℓ} {B : Type κ} (f : A → B) (xs : List A) (a : A) → Memᴰ a xs → Memᴰ (f a) (map f xs)
Memᴰ-map_out f [] a m = absurd (Memᴰ.not-nil m)
Memᴰ-map_out f (x ∷ xs) a m = elim (Memᴰ.cases_cons m) [
  | inl e ↦ Memᴰ.head (ap f e)
  | inr later ↦ Memᴰ.tail (Memᴰ-map_out f xs a later)
]

pub length-nonempty {ℓ} :
    {A : Type ℓ} (xs : List A) {n : ℕ} → length xs ≡ suc n → is_nonempty xs ≡ true
length-nonempty [] h = cc
length-nonempty (x ∷ xs) h = refl

pub nonempty-length {ℓ} :
    {A : Type ℓ} (xs : List A) → is_nonempty xs ≡ true → ltb 0 (length xs) ≡ true
nonempty-length [] h = cc
nonempty-length (x ∷ xs) h = ground arith

pub nonempty-Memᴰ {ℓ} : {A : Type ℓ} (xs : List A) → is_nonempty xs ≡ true → (x : A) × Memᴰ x xs
nonempty-Memᴰ [] h = cc
nonempty-Memᴰ (x ∷ xs) h = (x, Memᴰ.head refl)

pub Memᴰ-all {ℓ} :
    {A : Type ℓ} (p : A → Bool) (xs : List A) → ((x : A) → Memᴰ x xs → p x ≡ true) → all p xs ≡ true
Memᴰ-all p [] h = refl
Memᴰ-all p (x ∷ xs) h =
    let first = h x (Memᴰ.head refl) in
    let rest = Memᴰ-all p xs (λ y m. h y (Memᴰ.tail m)) in simp (first, rest)

-- What holds of the only element holds of each element.
pub Memᴰ-in_one {ℓ κ} :
    {A : Type ℓ} (P : A → Type κ) (x : A) → P x → (y : A) → Memᴰ y (x ∷ []) → P y
Memᴰ-in_one P x h y m = subst P (sym (Memᴰ.eq_of_singleton m)) h

pub length-map {ℓ κ} :
    {A : Type ℓ} {B : Type κ} (f : A → B) (xs : List A) → length (map f xs) ≡ length xs
length-map f [] = refl
length-map f (x ∷ xs) = ap suc (length-map f xs)

pub only-Memᴰ {ℓ} : {A : Type ℓ} (xs : List A) (a : A) → only xs ≡ some a → Memᴰ a xs
only-Memᴰ [] a h = cc
only-Memᴰ (x ∷ []) a h = Memᴰ.head (ap (λ o. elim o [ none ↦ a | some y ↦ y ]) (sym h))
only-Memᴰ (x ∷ y ∷ ys) a h = cc

-- Where some element passes the test, and which.
pub any-some {ℓ} :
    {A : Type ℓ} (p : A → Bool) (xs : List A) → any p xs ≡ true → (x : A) × Memᴰ x xs × (p x ≡ true)
any-some p [] h = cc
any-some p (x ∷ xs) h = elim (Bool-cases (p x)) [
  | inl hit ↦ (x, Memᴰ.head refl, hit)
  | inr miss ↦ let (y, m, e) = any-some p xs (simp miss at h) in (y, Memᴰ.tail m, e)
]

pub some-any {ℓ} :
    {A : Type ℓ} (p : A → Bool) (xs : List A) (x : A) → Memᴰ x xs → p x ≡ true → any p xs ≡ true
some-any p [] x m h = absurd (Memᴰ.not-nil m)
some-any p (y ∷ ys) x m h = elim (Memᴰ.cases_cons m) [
  | inl e ↦ let hit : p y ≡ true = subst (λ z. p z ≡ true) e h in simp hit
  | inr later ↦ let rest = some-any p ys x later h in ground arith
]

pub Memᴰ-in_two {ℓ κ} :
    {A : Type ℓ} (P : A → Type κ) (x y : A) → P x → P y → (z : A) → Memᴰ z (x ∷ y ∷ []) → P z
Memᴰ-in_two P x y h k z m = elim (Memᴰ.cases_cons m) [
  | inl e ↦ subst P (sym e) h
  | inr later ↦ Memᴰ-in_one P y k z later
]
