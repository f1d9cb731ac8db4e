-- ===== src/Reach/Accepted.antt =====
-- When the facts on pairs of functions are accepted by their validator.
use chip_chain_v.Prelude.{
  ℕ, ℕ_eq, suc, ◌+◌, ◌≡◌, ◌≢◌, refl, sym, ap, ◌∙◌, subst, String, String_eq, true, false, ◌==◌,
  Option, some, List, [], ◌∷◌, ◌++◌, length, is_nonempty, if◌then◌else◌, Bool-cases, inl, inr,
  arith, err, Returns, Returns->>=, ok-injective, ltb, nat_eq, nonempty-length,
}
use mathlib.Core.List.Memᴰ
use chip_chain_v.Reach.Walk.{Walk, here, step, Walk-length}
use chip_chain_v.Reach.Ends.{bounded_bfs_ends}
use chip_chain_v.Reach.Sound.{bounded_bfs-IsWitness, bounded_bfs-empty, bounded_bfs-start}
use chip_chain_v.Reach.Catalog.{
  FunctionBinding, is_exact, Cfg, FunctionStatus, is_reachable, reachable_static,
  not_found_within_bound, source_mapping_missing, target_mapping_missing, check_function_fact,
}
use chip_chain_v.Reach.Build.{
  address_leb, max_function_path_edges_default, returned, function_arcs, function_fact,
  make_function_fact, search_functions, judge_pair,
}

-- A walk between different nodes has an edge.
Walk-apart {ℓ} :
    {N : Type ℓ} {arcs : _} {source target : N} {path : List N} {ids : List String}
    → Walk arcs source target path ids
    → source ≢ target
    → is_nonempty ids ≡ true
Walk-apart here apart = absurd (apart refl)
Walk-apart (step {path} {ids} a inside walk) apart = filled ids
  where
    filled : (xs : List String) → is_nonempty (xs ++ a.edge_id ∷ []) ≡ true
    filled [] = refl
    filled (x ∷ xs) = refl

missing-Returns :
    (a b : FunctionBinding) (status : FunctionStatus)
    → is_reachable status ≡ false
    → Returns (make_function_fact a b status ([], []))
unfolding make_function_fact check_function_fact
missing-Returns a b status h = (function_fact a b status ([], []), simp h)

-- A witness between different nodes is accepted.
witness-Returns :
    (a b : FunctionBinding) (r : List ℕ × List String)
    → is_nonempty r.0 ≡ true
    → is_nonempty r.1 ≡ true
    → length r.0 ≡ suc (length r.1)
    → Returns (make_function_fact a b reachable_static r)
unfolding make_function_fact check_function_fact
witness-Returns a b r filled edges sizes =
    let counted : ltb 0 (length r.1) ≡ true = nonempty-length r.1 edges in
    let same : nat_eq (length r.1) (length r.1) ≡ true = ground arith in
    let one_more : nat_eq (length r.0) (length r.1 + 1) ≡ true = ground arith in
    (function_fact a b reachable_static r, simp (filled, counted, same, one_more))

-- So is a witness for a pair with different entries, or the empty result.
found-Returns :
    (c : Cfg) (a b : FunctionBinding) (r : List ℕ × List String)
    → a.expected_entry_address ≢ b.expected_entry_address
    → search_functions c a b ≡ some r
    → Returns (
        make_function_fact a b
          (if is_nonempty r.0 then reachable_static else not_found_within_bound)
          r)
found-Returns c a b r apart h = elim (Bool-cases (is_nonempty r.0)) [
  | inl filled ↦
      let w =
        bounded_bfs-IsWitness address_leb (function_arcs c.function_edges) a.expected_entry_address
          (b.expected_entry_address ∷ []) max_function_path_edges_default r.0 r.1 h filled in
      let target = Memᴰ.eq_of_singleton w.hit in
      let edges = Walk-apart w.walk (λ same. apart (same ∙ target)) in
      subst
        (λ t.
          Returns
            (make_function_fact a b (if t then reachable_static else not_found_within_bound) r))
        (sym filled) (witness-Returns a b r filled edges (Walk-length w.walk))
  | inr empty ↦
      let nothing =
        bounded_bfs-empty address_leb (function_arcs c.function_edges) a.expected_entry_address
          (b.expected_entry_address ∷ []) max_function_path_edges_default r h empty in
      subst
        (λ t. Returns (
          make_function_fact a b
            (if is_nonempty t.0 then reachable_static else not_found_within_bound) t))
        (sym nothing) (missing-Returns a b not_found_within_bound refl)
]

search-Returns :
    (c : Cfg) (a b : FunctionBinding)
    → (r : List ℕ × List String) × (search_functions c a b ≡ some r)
search-Returns c a b =
    bounded_bfs_ends address_leb (function_arcs c.function_edges) a.expected_entry_address
      (b.expected_entry_address ∷ []) max_function_path_edges_default

returned-Returns {ℓ} : {A : Type ℓ} (o : Option A) {r : A} → o ≡ some r → Returns (returned o)
returned-Returns o {r} h = (r, ap returned h)

-- The fact on a pair of functions is made and accepted by its validator, unless both are bound and
-- have one entry address.
pub judge_pair-Returns :
    (c : Cfg) (a b : FunctionBinding)
    → (is_exact a.binding_status ≡ true
        → is_exact b.binding_status ≡ true
        → a.expected_entry_address ≢ b.expected_entry_address)
    → Returns (judge_pair c (a, b))
unfolding judge_pair
judge_pair-Returns c a b apart = elim (Bool-cases (is_exact a.binding_status)) [
  | inr unbound ↦ rw unbound (missing-Returns a b source_mapping_missing refl)
  | inl source ↦ elim (Bool-cases (is_exact b.binding_status)) [
    | inr unbound ↦ rw (source, unbound) (missing-Returns a b target_mapping_missing refl)
    | inl target ↦
        let (r, ends) = search-Returns c a b in
        rw (source, target)
          (Returns->>= (returned (search_functions c a b)) _ (returned-Returns _ ends) (λ t e.
            found-Returns c a b t (apart source target)
              (ends ∙ ap some (ok-injective (ap returned (sym ends) ∙ e)))))
  ]
]

-- Two bound functions with one entry address make the construction of the fact raise.
pub judge_pair-alias :
    (c : Cfg) (a b : FunctionBinding)
    → is_exact a.binding_status ≡ true
    → is_exact b.binding_status ≡ true
    → a.expected_entry_address ≡ b.expected_entry_address
    → judge_pair c (a, b) ≡ err "Invalid function witness"
unfolding judge_pair make_function_fact check_function_fact
judge_pair-alias c a b source target same =
    let hit : (b.expected_entry_address == b.expected_entry_address) ≡ true = ground arith in
    let found : search_functions c a b ≡ some (a.expected_entry_address ∷ [], []) =
      bounded_bfs-start address_leb (function_arcs c.function_edges) a.expected_entry_address
        (b.expected_entry_address ∷ []) max_function_path_edges_default (ground arith) in
    simp (source, target, found)
