-- ===== src/Reach/Functions.antt =====
-- The facts on functions that are built pass the check of their witnesses.
use chip_chain_v.Prelude.{
  ℕ, ℕ_eq, leb, ◌≡◌, refl, sym, ap, ◌∙◌, subst, String, String_eq, true, false, ◌==◌, Option, none,
  some, List, [], ◌∷◌, map, length, is_nonempty, if◌then◌else◌, Memᴰ, Memᴰ-map_in, Bool-cases, inl,
  inr, arith, ok, >>=-eq-ok, ok-injective,
}
use mathlib.Core.List.Memᴰ
use chip_chain_v.Capability.{is_distinct}
use chip_chain_v.Reach.Search.{Arc}
use chip_chain_v.Reach.Sound.{IsWitness, bounded_bfs-IsWitness}
use chip_chain_v.Reach.Catalog.{
  FunctionBinding, is_exact, Cfg, identifiers_ok, check_cfg, FunctionStatus, is_reachable,
  reachable_static, not_found_within_bound, source_mapping_missing, target_mapping_missing,
  FunctionFact, check_function_fact,
}
use chip_chain_v.Reach.Build.{
  address_leb, max_function_path_edges_default, returned, function_arcs, function_fact,
  make_function_fact, search_functions, judge_pair,
}
use chip_chain_v.Reach.Validate.{entry_in, entry_of, function_step, check_function_witness}
use chip_chain_v.Reach.Lookup.{find_first-distinct}
use chip_chain_v.Reach.Steps.{Walk-steps}

-- The identifiers in an accepted graph are distinct.
pub record IsIdentified (c : Cfg) : Type 0 where
  pub nodes : is_distinct (map (λ n. n.node_id) c.nodes) ≡ true
  pub edges : is_distinct (map (λ x. x.edge_id) c.edges) ≡ true
  pub function_edges : is_distinct (map (λ x. x.edge_id) c.function_edges) ≡ true
  pub functions : is_distinct (map (λ b. b.function_id) c.function_bindings) ≡ true

check_cfg-identifiers_ok : (c : Cfg) → check_cfg c ≡ ok tt → identifiers_ok c ≡ true
unfolding check_cfg
check_cfg-identifiers_ok c h = elim (Bool-cases (identifiers_ok c)) [
  | inl good ↦ good
  | inr bad ↦ ground arith
]

pub check_cfg-IsIdentified : (c : Cfg) → check_cfg c ≡ ok tt → IsIdentified c
check_cfg-IsIdentified c h =
    let distinct = check_cfg-identifiers_ok c h in
    record {
      nodes = ground arith;
      edges = ground arith;
      function_edges = ground arith;
      functions = ground arith;
    }

made-fact :
    (a b : FunctionBinding) (status : FunctionStatus) (r : List ℕ × List String) (f : FunctionFact)
    → make_function_fact a b status r ≡ ok f
    → f ≡ function_fact a b status r
unfolding make_function_fact
made-fact a b status r f h =
    let (_, _, made) = >>=-eq-ok (check_function_fact (function_fact a b status r)) _ h in
    sym (ok-injective made)

-- What is built for a pair, where it is built.
pub record IsFact (c : Cfg) (a b : FunctionBinding) (f : FunctionFact) : Type 0 where
  pub source : f.source_function_id ≡ a.function_id
  pub target : f.target_function_id ≡ b.function_id
  pub witness :
      is_reachable f.status ≡ true
      → IsWitness
          (function_arcs c.function_edges)
          a.expected_entry_address
          (b.expected_entry_address ∷ [])
          max_function_path_edges_default
          f.witness_function_addresses
          f.witness_edge_ids

negative-IsFact :
    (c : Cfg) (a b : FunctionBinding) (status : FunctionStatus) (r : List ℕ × List String)
    (f : FunctionFact)
    → is_reachable status ≡ false
    → make_function_fact a b status r ≡ ok f
    → IsFact c a b f
negative-IsFact c a b status r f h made =
    let same = made-fact a b status r f made in
    subst (IsFact c a b) (sym same)
      (record { source = refl; target = refl; witness = λ reached. cc })

found-IsFact :
    (c : Cfg) (a b : FunctionBinding) (r : List ℕ × List String) (f : FunctionFact)
    → search_functions c a b ≡ some r
    → make_function_fact a b
        (if is_nonempty r.0 then reachable_static else not_found_within_bound)
        r
      ≡ ok f
    → IsFact c a b f
found-IsFact c a b r f h made = elim (Bool-cases (is_nonempty r.0)) [
  | inl filled ↦ subst (IsFact c a b) (sym (made-fact a b _ r f made)) (record {
    source = refl;
    target = refl;
    witness = λ reached.
        bounded_bfs-IsWitness address_leb (function_arcs c.function_edges) a.expected_entry_address
          (b.expected_entry_address ∷ []) max_function_path_edges_default r.0 r.1 h filled;
  })
  | inr empty ↦ negative-IsFact c a b not_found_within_bound r f refl (
      subst
        (λ t.
          make_function_fact a b (if t then reachable_static else not_found_within_bound) r ≡ ok f)
        empty made)
]

pub returned-some {ℓ} : {A : Type ℓ} (o : Option A) {r : A} → returned o ≡ ok r → o ≡ some r
returned-some none h = cc
returned-some (some x) h = ap some (ok-injective h)

pub judge_pair-IsFact :
    (c : Cfg) (a b : FunctionBinding) (f : FunctionFact)
    → judge_pair c (a, b) ≡ ok f
    → IsFact c a b f
unfolding judge_pair
judge_pair-IsFact c a b f h = elim (Bool-cases (is_exact a.binding_status)) [
  | inr unbound ↦ negative-IsFact c a b source_mapping_missing ([], []) f refl (simp unbound at h)
  | inl source ↦ elim (Bool-cases (is_exact b.binding_status)) [
    | inr unbound ↦
        negative-IsFact c a b target_mapping_missing ([], []) f refl (simp (source, unbound) at h)
    | inl target ↦
        let (r, found, made) =
          >>=-eq-ok (returned (search_functions c a b)) _ (simp (source, target) at h) in
        found-IsFact c a b r f (returned-some (search_functions c a b) found) made
  ]
]

entry_of-known :
    (c : Cfg) (b : FunctionBinding)
    → IsIdentified c
    → Memᴰ b c.function_bindings
    → entry_of c.function_bindings (some b.function_id) ≡ ok b.expected_entry_address
unfolding entry_of
entry_of-known c b u m =
    let found = find_first-distinct (λ x. x.function_id) c.function_bindings b u.functions m in
    ap entry_in found

function_step-arc :
    (c : Cfg) (a : Arc ℕ)
    → IsIdentified c
    → Memᴰ a (function_arcs c.function_edges)
    → function_step c a.source a.target a.edge_id ≡ true
function_step-arc c a u m =
    let (x, inside, same) = Memᴰ-map_in _ c.function_edges a m in
    let found = find_first-distinct (λ y. y.edge_id) c.function_edges x u.function_edges inside in
    let from : (x.source_address == x.source_address) ≡ true = ground arith in
    let to : (x.target_address == x.target_address) ≡ true = ground arith in
    subst (λ (b : Arc ℕ). function_step c b.source b.target b.edge_id ≡ true) (sym same)
      (simp (found, from, to))

-- The fact that is built for two functions of an accepted graph passes the check of its witness.
pub check_function_witness-built :
    (c : Cfg) (a b : FunctionBinding) (f : FunctionFact)
    → IsIdentified c
    → Memᴰ a c.function_bindings
    → Memᴰ b c.function_bindings
    → IsFact c a b f
    → check_function_witness c max_function_path_edges_default f ≡ ok tt
unfolding check_function_witness
check_function_witness-built c a b f u m n h = elim (Bool-cases (is_reachable f.status)) [
  | inr negative ↦ simp negative
  | inl reached ↦
      let w = h.witness reached in
      let target = Memᴰ.eq_of_singleton w.hit in
      let (first, last, steps) =
        Walk-steps (function_step c) (λ x inside. function_step-arc c x u inside) w.walk in
      let short : leb (length f.witness_edge_ids) max_function_path_edges_default ≡ true =
        let bound = w.bounded in ground arith in
      let entry_a =
        ap (λ i. entry_of c.function_bindings (some i)) h.source ∙ entry_of-known c a u m in
      let entry_b =
        ap (λ i. entry_of c.function_bindings (some i)) h.target ∙ entry_of-known c b u n in
      let end = last ∙ ap some target in
      let same_a : (a.expected_entry_address == a.expected_entry_address) ≡ true = ground arith in
      let same_b : (b.expected_entry_address == b.expected_entry_address) ≡ true = ground arith in
      simp (reached, short, entry_a, entry_b, first, end, same_a, same_b, steps)
]
