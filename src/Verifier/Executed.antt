-- ===== src/Verifier/Executed.antt =====
-- Which execution a supported access requirement rests on (`_access_atom`).
use chip_chain_v.Prelude.{
  ℕ, ℕ_eq, nat_eq_iff, ◌≡◌, refl, sym, ◌∙◌, ap, subst, Bool, true, false, ◌==◌, String_eq, String,
  option_eq, Option, none, some, List, [], ◌∷◌, ok, ◌>>=◌, >>=-eq-ok, ok-injective, Bool-cases, inl,
  inr, arith, select, select-Memᴰ, Memᴰ,
}
use mathlib.Core.List.Memᴰ
use chip_chain_v.Verifier.Data.{
  Status, supported, contradicted, Verdict, RunEvidence, Executed, MmioAtom, mmio, reads, read,
  write, ValueConstraint,
}
use chip_chain_v.Verifier.Judge.{Status_eq, condition}
use chip_chain_v.Verifier.Access.{
  access_atom, judge_access, no_unique_access, is_supported, is_exact, is_conflicting, agrees,
  performs, moved, wanted_value, same_address, same_width, same_value, cited,
}
use chip_chain_v.Verifier.Total.{condition-eq-ok, condition-Returns}

module _ {ℓ} {A : Type ℓ} (p : A → Bool) where
  select-hit : (x : A) (xs : List A) → p x ≡ true → select p (x ∷ xs) ≡ x ∷ select p xs
  select-hit x xs h = simp h

  select-miss : (x : A) (xs : List A) → p x ≡ false → select p (x ∷ xs) ≡ select p xs
  select-miss x xs h = simp h

  Memᴰ-select : (xs : List A) (a : A) → Memᴰ a xs → p a ≡ true → Memᴰ a (select p xs)
  Memᴰ-select [] a m h = absurd (Memᴰ.not-nil m)
  Memᴰ-select (x ∷ xs) a m h = elim (Memᴰ.cases_cons m) [
    | inl e ↦
        let hit : p x ≡ true = subst (λ y. p y ≡ true) e h in
        subst (Memᴰ a) (sym (select-hit x xs hit)) (Memᴰ.head e)
    | inr later ↦ (elim (Bool-cases (p x)) [
      | inl hit ↦ subst (Memᴰ a) (sym (select-hit x xs hit)) (Memᴰ.tail (Memᴰ-select xs a later h))
      | inr miss ↦ subst (Memᴰ a) (sym (select-miss x xs miss)) (Memᴰ-select xs a later h)
    ])
  ]

-- The execution is one of those that agree with their capability; it matches the requirement in
-- kind, address, width and value, and no other one does.
pub record IsUnique (a : MmioAtom) (pairs : List Executed) (x : Executed) : Type 0 where
  pub member : Memᴰ x pairs
  pub agreed : agrees x ≡ true
  pub kind : performs x.observation.operation a.access ≡ true
  pub address : x.observation.address ≡ a.address
  pub width : a.width_bits ≡ some x.observation.width_bits
  pub value : moved x.observation ≡ wanted_value a
  pub unique : (y : Executed) → Memᴰ y pairs → agrees y ≡ true → is_exact a y ≡ true → y ≡ x

option_eq-ℕ : (x y : Option ℕ) → option_eq x y ≡ true → x ≡ y
option_eq-ℕ none none h = refl
option_eq-ℕ (some a) (some b) h = ap some ((nat_eq_iff a b).0 h)
option_eq-ℕ none (some b) h = cc
option_eq-ℕ (some a) none h = cc

exact-IsUnique :
    (a : MmioAtom) (pairs : List Executed) (x : Executed)
    → select (is_exact a) (select agrees pairs) ≡ x ∷ []
    → IsUnique a pairs x
unfolding is_exact same_address same_width same_value
exact-IsUnique a pairs x h =
    let (inside, exact) =
      select-Memᴰ (is_exact a) (select agrees pairs) x (subst (Memᴰ x) (sym h) (Memᴰ.head refl)) in
    let (member, agreed) = select-Memᴰ agrees pairs x inside in
    record {
      member = member;
      agreed = agreed;
      kind = ground arith;
      address = ground arith;
      width = sym (option_eq-ℕ (some x.observation.width_bits) a.width_bits (ground arith));
      value = option_eq-ℕ (moved x.observation) (wanted_value a) (ground arith);
      unique = λ y m k e. Memᴰ.eq_of_singleton (
          subst (Memᴰ y) h
            (Memᴰ-select (is_exact a) (select agrees pairs) y (Memᴰ-select agrees pairs y m k) e));
    }

paired-status :
    (i : String) (s : Status) (reason : String) (evidence missing : List String)
    (o : Option Executed) {p : Verdict × Option Executed}
    → (condition i s reason evidence missing >>= λ v. ok (v, o)) ≡ ok p
    → (p.0.status ≡ s) × (p.1 ≡ o)
paired-status i s reason evidence missing o h =
    let (v, h1, h2) = >>=-eq-ok (condition i s reason evidence missing) (λ v. ok (v, o)) h in
    let same = sym (ok-injective h2) in
    (
      ap (λ q. q.0.status) same ∙ (condition-eq-ok i s reason evidence missing h1).0,
      ap (λ q. q.1) same,
    )

judge_access-supported :
    (i : String) (run : RunEvidence) (exact conflicting : List Executed)
    {p : Verdict × Option Executed}
    → judge_access i run exact conflicting ≡ ok p
    → p.0.status ≡ supported
    → (x : Executed) × (p.1 ≡ some x) × (exact ≡ x ∷ [])
unfolding judge_access no_unique_access
judge_access-supported i run (x ∷ []) conflicting h k = (x, (paired-status _ _ _ _ _ _ h).1, refl)
judge_access-supported i run [] (x ∷ []) h k = cc (sym k ∙ (paired-status _ _ _ _ _ _ h).0)
judge_access-supported i run [] [] h k = cc (sym k ∙ (paired-status _ _ _ _ _ _ h).0)
judge_access-supported i run [] (x ∷ y ∷ ys) h k = cc (sym k ∙ (paired-status _ _ _ _ _ _ h).0)
judge_access-supported i run (x ∷ y ∷ ys) conflicting h k =
    cc (sym k ∙ (paired-status _ _ _ _ _ _ h).0)

-- A supported access requirement selects one execution, and this is the only one of the run's
-- executions that agrees with its capability and matches the requirement's kind, address, width and
-- value.
pub access_atom-IsUnique :
    (a : MmioAtom) (i : String) (run : RunEvidence) (pairs : List Executed)
    (p : Verdict × Option Executed)
    → access_atom (mmio a) i run pairs ≡ ok p
    → p.0.status ≡ supported
    → (x : Executed) × (p.1 ≡ some x) × IsUnique a pairs x
unfolding access_atom
access_atom-IsUnique a i run pairs p h k = elim (Bool-cases (is_supported a)) [
  | inl good ↦
      let (x, found, one) =
        judge_access-supported i run (select (is_exact a) (select agrees pairs))
          (select (is_conflicting a) (select agrees pairs)) (simp good at h) k in
      (x, found, exact-IsUnique a pairs x one)
  | inr bad ↦ cc (sym k ∙ (paired-status _ _ _ _ _ _ (simp bad at h)).0)
]

-- The only execution of a run that agrees with its capability is a read of the address, in the
-- width, of the requirement.
pub record IsRead (a : MmioAtom) (pairs : List Executed) (x : Executed) (v : ℕ) : Type 0 where
  pub only_one : select agrees pairs ≡ x ∷ []
  pub reading : a.access ≡ reads
  pub read_it : x.observation.operation ≡ read
  pub address : x.observation.address ≡ a.address
  pub width : a.width_bits ≡ some x.observation.width_bits
  pub got : x.observation.read_value ≡ some v

nat_eq_refl : (n : ℕ) → (n == n) ≡ true
nat_eq_refl n = (nat_eq_iff n n).1 refl

-- The constrained value, from the constraint.
abbrev constrained : Option ValueConstraint → Option ℕ
constrained o = elim o [ none ↦ none | some k ↦ k.value ]

read-same_value :
    (a : MmioAtom) (pairs : List Executed) (x : Executed) (v : ℕ) (o : Option ValueConstraint)
    → IsRead a pairs x v
    → a.value_constraint ≡ o
    → same_value a x ≡ option_eq (some v) (constrained o)
unfolding same_value
read-same_value a pairs x v o h e =
    let got : moved x.observation ≡ some v =
      ap
        (λ p. elim p as (λ _. Option ℕ) [
          | write ↦ x.observation.write_value
          | read ↦ x.observation.read_value
        ])
        h.read_it
      ∙ h.got in
    ap (λ m. option_eq m (wanted_value a)) got ∙ ap (λ q. option_eq (some v) (constrained q)) e

read-IsExact :
    (a : MmioAtom) (pairs : List Executed) (x : Executed) (v : ℕ)
    → IsRead a pairs x v
    → is_exact a x ≡ same_value a x
unfolding is_exact same_address same_width
read-IsExact a pairs x v h =
    let address = nat_eq_refl a.address in
    let width = nat_eq_refl x.observation.width_bits in
    simp (h.reading, h.read_it, h.address, h.width, address, width)

read-IsConflicting :
    (a : MmioAtom) (pairs : List Executed) (x : Executed) (v : ℕ)
    → IsRead a pairs x v
    → same_value a x ≡ false
    → a.value_constraint ≡ none
    → is_conflicting a x ≡ true
unfolding is_conflicting same_address same_width
read-IsConflicting a pairs x v h other unvalued =
    let address = nat_eq_refl a.address in
    let width = nat_eq_refl x.observation.width_bits in
    simp (h.reading, h.read_it, h.address, h.width, other, unvalued, address, width)

read-is_supported :
    (a : MmioAtom) (pairs : List Executed) (x : Executed) (v : ℕ)
    → IsRead a pairs x v
    → is_supported a ≡ true
unfolding is_supported
read-is_supported a pairs x v h = simp (h.reading, h.width)

-- A read requirement without a value constraint, whose address and width the only agreeing
-- execution has, is judged contradicted.
pub read_without_value-contradicted :
    (a : MmioAtom) (i : String) (run : RunEvidence) (pairs : List Executed) (x : Executed) (v : ℕ)
    → IsRead a pairs x v
    → a.value_constraint ≡ none
    → (p : Verdict × Option Executed) × (access_atom (mmio a) i run pairs ≡ ok p)
      × (p.0.status ≡ contradicted)
unfolding access_atom judge_access
read_without_value-contradicted a i run pairs x v h unvalued =
    let good = read-is_supported a pairs x v h in
    let other = read-same_value a pairs x v none h unvalued in
    let exact : is_exact a x ≡ false = read-IsExact a pairs x v h ∙ other in
    let conflict = read-IsConflicting a pairs x v h other unvalued in
    let (w, k, status, _) =
      condition-Returns i contradicted "EXECUTED_CONFLICTING_MMIO" (cited run x) [] refl in
    ((w, none), simp (good, h.only_one, exact, conflict, k), status)

-- A read requirement whose constrained value the only agreeing execution read, at its address and
-- in its width, is judged supported, whatever the operator of the constraint says.
pub read_with_operator-supported :
    (a : MmioAtom) (i : String) (run : RunEvidence) (pairs : List Executed) (x : Executed) (v : ℕ)
    (k : ValueConstraint)
    → IsRead a pairs x v
    → a.value_constraint ≡ some k
    → k.value ≡ some v
    → (p : Verdict × Option Executed) × (access_atom (mmio a) i run pairs ≡ ok p)
      × (p.0.status ≡ supported)
unfolding access_atom judge_access
read_with_operator-supported a i run pairs x v k h valued same =
    let good = read-is_supported a pairs x v h in
    let value = nat_eq_refl v in
    let exact : is_exact a x ≡ true =
      read-IsExact a pairs x v h
      ∙ read-same_value a pairs x v (some k) h valued
      ∙ ap (option_eq (some v)) same
      ∙ value in
    let (w, made, status, _) =
      condition-Returns i supported "EXACT_EXECUTED_MMIO" (cited run x) [] refl in
    ((w, some x), simp (good, h.only_one, exact, made), status)
