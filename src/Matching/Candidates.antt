-- ===== src/Matching/Candidates.antt =====
-- What a supported candidate says of all trigger conditions of the contract.
use chip_chain_v.Prelude.{
  ℕ, ℕ_eq, ◌≡◌, refl, sym, ap, subst, String, String_eq, Bool, true, false, ◌&&◌, ◌==◌, option_eq,
  Option, none, some, List, [], ◌∷◌, map, any, all, all-Memᴰ, select, select-Memᴰ, is_nonempty,
  nonempty-Memᴰ, if◌then◌else◌, Memᴰ, Memᴰ-map_out, Bool-cases, inl, inr, and_split, option_eq-some,
  ok, >>=-eq-ok, require-eq-ok, ok-injective, sorted_texts,
}
use mathlib.Core.List.Memᴰ
use chip_chain_v.Capability.{Capability}
use chip_chain_v.Binding.{BindingSet, concat}
use chip_chain_v.Matching.Data.{
  CsrAtom, Requirement, mmio_access, csr_access, memory_operation, other_kind, TriggerCondition,
  Item, Status, supported, contradicted, unknown, ambiguous, Candidate, Contract, check_candidate,
}
use chip_chain_v.Matching.Judge.{
  csr_allows, is_supported, value_known, csr_equal, csr_eligible, csr_known, csr_contradicted,
  csr_status, judge_csr, judge_mmio, relation_address, memory_eligible, is_memory_access,
  judge_memory,
}
use chip_chain_v.Matching.Match.{
  options_of, Judged, access_status, overall_status, judge_condition, judged_conditions,
  candidate_of, match_requirements, is_supported_status, is_contradicted_status,
  is_ambiguous_status,
}
use chip_chain_v.Matching.Sound.{Establishes, mmio_status-supported}

module _ (casefold : String → String) (parse_int : String → Option ℕ) where
  -- The item establishes the access to a CSR that the atom requires.
  pub record EstablishesCsr (a : CsrAtom) (i : Item) : Type 0 where
    pub register : csr_equal casefold parse_int a i.csr ≡ true
    pub access : csr_allows a.access i.kind ≡ true
    pub bound : is_supported i ≡ true
    pub value : value_known a.value_constraint i ≡ true

  -- Some item establishes the access that a requirement of a typed kind states.
  abbrev pub IsEstablished : List Item → Requirement → Type 0
  IsEstablished options (mmio_access (some a)) = (i : Item) × Memᴰ i options × Establishes a i
  IsEstablished options (csr_access (some a)) = (i : Item) × Memᴰ i options × EstablishesCsr a i
  IsEstablished options (memory_operation (some r)) =
      (address : ℕ) × (i : Item) × (relation_address r ≡ some address)
      × Memᴰ i options
      × (i.address ≡ some address)
      × (is_memory_access i.kind ≡ true)
      × (is_supported i ≡ true)
  IsEstablished options _ = Unit

  csr_status-supported :
      (a : CsrAtom) (options : List Item)
      → csr_status casefold parse_int a options ≡ supported
      → (i : Item) × Memᴰ i options × EstablishesCsr a i
  unfolding csr_status
  csr_status-supported a options h =
      elim (Bool-cases (is_nonempty (csr_known casefold parse_int a options))) [
        | inl some_hit ↦
            let (i, hit) = nonempty-Memᴰ (csr_known casefold parse_int a options) some_hit in
            let (bound_one, value) =
              select-Memᴰ (value_known a.value_constraint)
                (select is_supported (csr_eligible casefold parse_int a options)) i hit in
            let (eligible, bound) =
              select-Memᴰ is_supported (csr_eligible casefold parse_int a options) i bound_one in
            let (inside, right) =
              select-Memᴰ (λ j. csr_equal casefold parse_int a j.csr && csr_allows a.access j.kind)
                options i eligible in
            let (register, access) =
              and_split (csr_equal casefold parse_int a i.csr) (csr_allows a.access i.kind) right in
            (
              i,
              inside,
              record { register = register; access = access; bound = bound; value = value },
            )
        | inr no_hit ↦ absurd (
            weaker (is_nonempty (csr_contradicted casefold parse_int a options)) (simp no_hit at h))
      ]
    where
      weaker : (c : Bool) → (if c then contradicted else unknown) ≡ supported → ⊥
      weaker true e = cc
      weaker false e = cc

judge_memory-supported :
    (id : String) (o : Option ℕ) (options : List Item)
    → (judge_memory id o options).static_compatibility_status ≡ supported
    → (address : ℕ) × (i : Item) × (o ≡ some address)
      × Memᴰ i options
      × (i.address ≡ some address)
      × (is_memory_access i.kind ≡ true)
      × (is_supported i ≡ true)
unfolding judge_memory
judge_memory-supported id none options h = cc
judge_memory-supported id (some address) options h =
    let bound = select is_supported (memory_eligible address options) in
    elim (Bool-cases (is_nonempty bound)) [
      | inl some_hit ↦
          let (i, hit) = nonempty-Memᴰ bound some_hit in
          let (eligible, good) = select-Memᴰ is_supported (memory_eligible address options) i hit in
          let (inside, right) =
            select-Memᴰ (λ j. option_eq j.address (some address) && is_memory_access j.kind) options
              i eligible in
          let (at, kind) =
            and_split (option_eq i.address (some address)) (is_memory_access i.kind) right in
          (address, i, refl, inside, option_eq-some i.address address at, kind, good)
      | inr no_hit ↦ let clash : unknown ≡ supported = simp no_hit at h in cc
    ]

overall-supported :
    (ss : List Status)
    → overall_status ss ≡ supported
    → (is_nonempty ss ≡ true) × (all is_supported_status ss ≡ true)
unfolding overall_status
overall-supported ss h =
    cases (any is_contradicted_status ss) (any is_ambiguous_status ss) (is_nonempty ss)
      (all is_supported_status ss) h
  where
    cases :
        (c a n s : Bool)
        → (if c
            then contradicted
            else if a
            then ambiguous
            else if n && s
            then supported
            else unknown)
          ≡ supported
        → (n ≡ true) × (s ≡ true)
    cases true a n s e = cc
    cases false true n s e = cc
    cases false false true true e = (refl, refl)
    cases false false false s e = cc
    cases false false true false e = cc

counted-Memᴰ :
    (js : List Judged) (j : Judged)
    → Memᴰ j js
    → j.counts ≡ true
    → Memᴰ j.requirement_match.static_compatibility_status (access_status js)
counted-Memᴰ [] j m h = absurd (Memᴰ.not-nil m)
counted-Memᴰ (k ∷ js) j m h = elim (Memᴰ.cases_cons m) [
  | inl e ↦
      let counts : k.counts ≡ true = subst (λ (x : Judged). x.counts ≡ true) e h in
      rw counts (Memᴰ.head (ap (λ (x : Judged). x.requirement_match.static_compatibility_status) e))
  | inr later ↦
      let rest = counted-Memᴰ js j later h in
      (elim (Bool-cases k.counts) [
        | inl counts ↦ rw counts (Memᴰ.tail rest)
        | inr not_counted ↦ rw not_counted rest
      ])
]

supported_only : (s : Status) → is_supported_status s ≡ true → s ≡ supported
supported_only supported h = refl
supported_only contradicted h = cc
supported_only unknown h = cc
supported_only ambiguous h = cc

module _ (casefold : String → String) (parse_int : String → Option ℕ)
    (source_id_of : List String → String) where
  -- A counted condition with a supported match is established.
  judged-IsEstablished :
      (options : List Item) (id : String) (r : Requirement)
      → (let j =
            judge_condition casefold parse_int source_id_of options
              (record { condition_id = id; requirement = r }) in
          j.counts ≡ true → j.requirement_match.static_compatibility_status ≡ supported)
      → IsEstablished casefold parse_int options r
  unfolding judge_condition judge_mmio judge_csr
  judged-IsEstablished options id (mmio_access (some a)) h =
      mmio_status-supported a options (h refl)
  judged-IsEstablished options id (csr_access (some a)) h =
      csr_status-supported casefold parse_int a options (h refl)
  judged-IsEstablished options id (memory_operation (some r)) h =
      judge_memory-supported id (relation_address r) options (h refl)
  judged-IsEstablished options id (mmio_access none) h = tt
  judged-IsEstablished options id (csr_access none) h = tt
  judged-IsEstablished options id (memory_operation none) h = tt
  judged-IsEstablished options id other_kind h = tt

  -- The candidate that is returned, and its options.
  match_requirements-candidate :
      (cs : List Capability) (set : BindingSet) (k : Contract) (c : Candidate)
      → match_requirements casefold parse_int source_id_of cs set k ≡ ok c
      → (options : List (List Item)) × (options_of set.content.bindings cs ≡ ok options)
        × (c ≡ candidate_of casefold parse_int source_id_of cs set k (concat options))
  unfolding match_requirements
  match_requirements-candidate cs set k c h =
      let (_, h1) =
        require-eq-ok (all (λ x. x.architecture == k.architecture) cs)
          "Capability and contract architecture differ" _ h in
      let (_, h2) =
        require-eq-ok
          (set.content.firmware_source_id
            == source_id_of (sorted_texts (map (λ x. x.capability_id) cs)))
          "Resource bindings are for a different capability set" _ h1 in
      let (options, found, h3) = >>=-eq-ok (options_of set.content.bindings cs) _ h2 in
      let (_, _, h4) =
        >>=-eq-ok
          (check_candidate (candidate_of casefold parse_int source_id_of cs set k (concat options)))
          _ h3 in
      (options, found, sym (ok-injective h4))

-- Where a candidate is supported, at least one condition requires an access, and each trigger
-- condition that requires an access is established by a primitive of the capabilities whose binding
-- is supported: at the required address, register or memory address, with an access of the required
-- kind, in the required width where one is required, and with an exact value that meets the
-- constraint where there is one.
pub match_requirements-IsEstablished :
    (casefold : String → String) (parse_int : String → Option ℕ)
    (source_id_of : List String → String) (cs : List Capability) (set : BindingSet) (k : Contract)
    (c : Candidate)
    → match_requirements casefold parse_int source_id_of cs set k ≡ ok c
    → c.static_compatibility_status ≡ supported
    → (options : List (List Item)) × (options_of set.content.bindings cs ≡ ok options)
      × (is_nonempty
            (access_status (judged_conditions casefold parse_int source_id_of k (concat options)))
          ≡ true)
      × ((t : TriggerCondition)
          → Memᴰ t k.trigger
          → IsEstablished casefold parse_int (concat options) t.requirement)
match_requirements-IsEstablished casefold parse_int source_id_of cs set k c h e =
    let (options, found, same) =
      match_requirements-candidate casefold parse_int source_id_of cs set k c h in
    let judged = judged_conditions casefold parse_int source_id_of k (concat options) in
    let (filled, every) =
      overall-supported (access_status judged)
        (subst (λ x. x.static_compatibility_status ≡ supported) same e) in
    (
      options,
      found,
      filled,
      λ t m.
          judged-IsEstablished casefold parse_int source_id_of (concat options) t.condition_id
            t.requirement
            (λ counts. supported_only _ (
              all-Memᴰ is_supported_status (access_status judged) _ every (
                counted-Memᴰ judged _
                  (Memᴰ-map_out (judge_condition casefold parse_int source_id_of (concat options))
                    k.trigger t m)
                  counts))),
    )
