-- ===== src/Image/Unique.antt =====
-- The translation is defined on every region and never gives two instructions one address.
use chip_chain_v.Prelude.{
  ℕ, ℕ_eq, ◌+◌, ◌≤◌, ◌<◌, leb, ◌≡◌, refl, sym, ◌∙◌, subst, true, false, List, [], ◌∷◌, select, Memᴰ,
  Bool-cases, inl, inr, arith, ok, sorted_by, insert_by,
}
use mathlib.Core.List.Memᴰ
use chip_chain_v.Image.Data.{Region, Mapping, regions_eq, overlapping, check_mapping, covers}

module _ {ℓ} {A : Type ℓ} (key : A → ℕ) where
  insert_by-Memᴰ : (x : A) (xs : List A) (a : A) → Memᴰ a (x ∷ xs) → Memᴰ a (insert_by key x xs)
  unfolding insert_by
  insert_by-Memᴰ x [] a m = m
  insert_by-Memᴰ x (y ∷ ys) a m = elim (Bool-cases (leb (key x) (key y))) [
    | inl first ↦ rw first m
    | inr later ↦ rw later (elim (Memᴰ.cases_cons m) [
      | inl e ↦ Memᴰ.tail (insert_by-Memᴰ x ys a (Memᴰ.head e))
      | inr old ↦ (elim (Memᴰ.cases_cons old) [
        | inl e ↦ Memᴰ.head e
        | inr rest ↦ Memᴰ.tail (insert_by-Memᴰ x ys a (Memᴰ.tail rest))
      ])
    ])
  ]

  pub sorted_by-Memᴰ : (xs : List A) (a : A) → Memᴰ a xs → Memᴰ a (sorted_by key xs)
  unfolding sorted_by
  sorted_by-Memᴰ [] a m = m
  sorted_by-Memᴰ (x ∷ xs) a m = elim (Memᴰ.cases_cons m) [
    | inl e ↦ insert_by-Memᴰ x (sorted_by key xs) a (Memᴰ.head e)
    | inr later ↦ insert_by-Memᴰ x (sorted_by key xs) a (Memᴰ.tail (sorted_by-Memᴰ xs a later))
  ]

  Memᴰ-insert_by : (x : A) (xs : List A) (a : A) → Memᴰ a (insert_by key x xs) → Memᴰ a (x ∷ xs)
  unfolding insert_by
  Memᴰ-insert_by x [] a m = m
  Memᴰ-insert_by x (y ∷ ys) a m = elim (Bool-cases (leb (key x) (key y))) [
    | inl first ↦ rw first at m
    | inr later ↦ elim (Memᴰ.cases_cons (rw later at m)) [
      | inl e ↦ Memᴰ.tail (Memᴰ.head e)
      | inr old ↦ elim (Memᴰ.cases_cons (Memᴰ-insert_by x ys a old)) [
        | inl e ↦ Memᴰ.head e
        | inr rest ↦ Memᴰ.tail (Memᴰ.tail rest)
      ]
    ]
  ]

  pub Memᴰ-sorted_by : (xs : List A) (a : A) → Memᴰ a (sorted_by key xs) → Memᴰ a xs
  unfolding sorted_by
  Memᴰ-sorted_by [] a m = m
  Memᴰ-sorted_by (x ∷ xs) a m = elim (Memᴰ.cases_cons (Memᴰ-insert_by x (sorted_by key xs) a m)) [
    | inl e ↦ Memᴰ.head e
    | inr later ↦ Memᴰ.tail (Memᴰ-sorted_by xs a later)
  ]

module _ (key : Region → ℕ) where
  -- Without overlaps between neighbours, a later region starts after the end of an earlier one.
  overlapping_later :
      (a : Region) (xs : List Region) (r : Region)
      → overlapping key (a ∷ xs) ≡ false
      → Memᴰ r xs
      → key a + a.size ≤ key r
  unfolding overlapping
  overlapping_later a [] r h m = absurd (Memᴰ.not-nil m)
  overlapping_later a (b ∷ xs) r h m = elim (Memᴰ.cases_cons m) [
    | inl e ↦ rw e (ground arith)
    | inr later ↦ let k = overlapping_later b xs r (ground arith) later in ground arith
  ]

  overlapping_tail :
      (a : Region) (xs : List Region)
      → overlapping key (a ∷ xs) ≡ false
      → overlapping key xs ≡ false
  unfolding overlapping
  overlapping_tail a [] h = refl
  overlapping_tail a (b ∷ xs) h = ground arith

  -- Two regions that share an address are one.
  pub overlapping_unique :
      (xs : List Region) (r q : Region) (a : ℕ)
      → overlapping key xs ≡ false
      → Memᴰ r xs
      → Memᴰ q xs
      → key r ≤ a
      → a < key r + r.size
      → key q ≤ a
      → a < key q + q.size
      → r ≡ q
  overlapping_unique [] r q a h m n r1 r2 q1 q2 = absurd (Memᴰ.not-nil m)
  overlapping_unique (x ∷ xs) r q a h m n r1 r2 q1 q2 = elim (Memᴰ.cases_cons m) [
    | inl e ↦ (elim (Memᴰ.cases_cons n) [
      | inl e' ↦ e ∙ sym e'
      | inr later ↦
          let k = overlapping_later x xs q h later in
          let bound : a < key x + x.size = subst (λ y. a < key y + y.size) e r2 in
          absurd (omega (arith, k, bound, q1))
    ])
    | inr before ↦ (elim (Memᴰ.cases_cons n) [
      | inl e' ↦
          let k = overlapping_later x xs r h before in
          let bound : a < key x + x.size = subst (λ y. a < key y + y.size) e' q2 in
          absurd (omega (arith, k, bound, r1))
      | inr later ↦ overlapping_unique xs r q a (overlapping_tail x xs h) before later r1 r2 q1 q2
    ])
  ]

regions_eq-≡ : (rs qs : List Region) → regions_eq rs qs ≡ true → rs ≡ qs
unfolding regions_eq
regions_eq-≡ [] [] h = refl
regions_eq-≡ (r ∷ rs) (q ∷ qs) h =
    let base : r.runtime_base ≡ q.runtime_base = ground arith in
    let elf : r.elf_virtual_base ≡ q.elf_virtual_base = ground arith in
    let size : r.size ≡ q.size = ground arith in
    let rest = regions_eq-≡ rs qs (ground arith) in let same : r ≡ q = cc in cc
regions_eq-≡ [] (q ∷ qs) h = cc
regions_eq-≡ (r ∷ rs) [] h = cc

-- What an accepted mapping satisfies.
pub record IsUnambiguous (m : Mapping) : Type 0 where
  pub by_runtime : overlapping (λ r. r.runtime_base) m.regions ≡ false
  pub by_elf :
      overlapping (λ r. r.elf_virtual_base) (sorted_by (λ r. r.elf_virtual_base) m.regions) ≡ false

pub check_mapping-IsUnambiguous : (m : Mapping) → check_mapping m ≡ ok tt → IsUnambiguous m
unfolding check_mapping
check_mapping-IsUnambiguous m h =
    let ordered : regions_eq m.regions (sorted_by (λ r. r.runtime_base) m.regions) ≡ true =
      ground arith in
    let apart : overlapping (λ r. r.runtime_base) (sorted_by (λ r. r.runtime_base) m.regions)
        ≡ false =
      ground arith in
    record {
      by_runtime =
          subst (λ rs. overlapping (λ r. r.runtime_base) rs ≡ false)
            (sym (regions_eq-≡ m.regions (sorted_by (λ r. r.runtime_base) m.regions) ordered))
            apart;
      by_elf = ground arith;
    }

module _ (pc n : ℕ) (nonempty : 0 < n) where
  -- No region covers a span that ends before all of them start.
  covers-none :
      (xs : List Region)
      → ((q : Region) → Memᴰ q xs → covers pc n q ≡ false)
      → select (covers pc n) xs ≡ []
  covers-none [] h = refl
  covers-none (x ∷ xs) h =
      let first = h x (Memᴰ.head refl) in
      let rest = covers-none xs (λ q m. h q (Memᴰ.tail m)) in simp (first, rest)

  pub covers-only :
      (xs : List Region) (r : Region)
      → overlapping (λ q. q.runtime_base) xs ≡ false
      → Memᴰ r xs
      → covers pc n r ≡ true
      → select (covers pc n) xs ≡ r ∷ []
  unfolding covers
  covers-only [] r h m c = absurd (Memᴰ.not-nil m)
  covers-only (x ∷ xs) r h m c = elim (Memᴰ.cases_cons m) [
    | inl e ↦
        let c' : covers pc n x ≡ true = subst (λ y. covers pc n y ≡ true) e c in
        let rest =
          covers-none xs (λ q k.
            let bound = overlapping_later (λ z. z.runtime_base) x xs q h k in ground arith) in
        simp (c', rest, e)
    | inr later ↦
        let bound = overlapping_later (λ z. z.runtime_base) x xs r h later in
        let other : covers pc n x ≡ false = ground arith in
        let rest = covers-only xs r (overlapping_tail (λ z. z.runtime_base) x xs h) later c in
        simp (other, rest)
  ]
