-- ===== src/Reach/Built.antt =====
-- The whole construction: what is built passes the independent check of its witnesses.
use chip_chain_v.Prelude.{
  ℕ, ℕ_eq, ◌≡◌, ◌≢◌, refl, sym, ap, ◌∙◌, subst, String, String_eq, true, ◌==◌, List, [], ◌∷◌, map,
  all, length, length-map, Memᴰ, Memᴰ-map_in, Memᴰ-map_out, Memᴰ-all, arith, ok, ok-injective,
  >>=-eq-ok, Returns, traverse, traverse-Returns, traverse-Returns_inside, traverse-Memᴰ,
  traverse-in, traverse-length, sorted_with, sorted_with-Memᴰ, Memᴰ-sorted_with, text_leb,
}
use chip_chain_v.Capability.{is_distinct}
use chip_chain_v.Reach.Catalog.{
  SourceIdentities, FunctionBinding, is_exact, Cfg, check_cfg, FunctionFact, SiteFact,
  ReachabilityCatalog,
}
use chip_chain_v.Reach.Build.{
  max_function_path_edges_default, max_site_path_edges_default, other_than, pairs_from,
  sorted_bindings, function_pairs, judge_pair, Site, judge_site, function_key, fact_leb, site_leb,
  canonical, catalog_of,
}
use chip_chain_v.Reach.Validate.{
  list_eq, same_identities, has_pair, expected_pairs, check_function_witness, check_site_witness,
  validate_witnesses, build_static_reachability,
}
use chip_chain_v.Reach.Accepted.{judge_pair-Returns}
use chip_chain_v.Reach.Sites.{judge_site-Returns}
use chip_chain_v.Reach.Lookup.{sorted_with-distinct, length-sorted_with}
use chip_chain_v.Reach.Pairs.{pairs_from-Memᴰ, Memᴰ-pairs_from, length-pairs_sorted, has_pair-Memᴰ}
use chip_chain_v.Reach.Functions.{
  IsIdentified, check_cfg-IsIdentified, IsFact, judge_pair-IsFact, check_function_witness-built,
}
use chip_chain_v.Reach.Outcomes.{check_site_witness-built, judge_site-id}

list_eq_refl : (xs : List ℕ) → list_eq xs xs ≡ true
list_eq_refl [] = refl
list_eq_refl (x ∷ xs) = ground (arith, list_eq_refl xs)

same_identities_refl : (a : SourceIdentities) → same_identities a a ≡ true
unfolding same_identities
same_identities_refl a =
    let text : (s : String) → (s == s) ≡ true = λ s. (String_eq.beq_iff s s).1 refl in
    let size : (a.elf_size == a.elf_size) ≡ true = ground arith in
    simp (
      text a.case_id,
      text a.elf_artifact_id,
      text a.elf_sha256,
      size,
      text a.a2_sha256,
      text a.a3_sha256,
      text a.a4_sha256,
      text a.address_policy,
      list_eq_refl a.function_starts,
    )

module _ (c : Cfg) where
  -- A pair that is built for is one of different functions of the graph.
  pair-known :
      (q : FunctionBinding × FunctionBinding)
      → Memᴰ q (function_pairs c)
      → Memᴰ q.0 c.function_bindings × Memᴰ q.1 c.function_bindings × (other_than q.0 q.1 ≡ true)
  pair-known q m =
      let sorted = sorted_bindings c.function_bindings in
      let (a, b, other) = pairs_from-Memᴰ sorted sorted q m in
      (
        sorted_with-Memᴰ _ q.0 c.function_bindings a,
        sorted_with-Memᴰ _ q.1 c.function_bindings b,
        other,
      )

  module _ (facts : List FunctionFact)
      (built : traverse (judge_pair c) (function_pairs c) ≡ ok facts) where
    -- Each fact is that of a pair.
    made_from_pair :
        (f : FunctionFact)
        → Memᴰ f facts
        → (q : FunctionBinding × FunctionBinding) × Memᴰ q (function_pairs c) × IsFact c q.0 q.1 f
    made_from_pair f m =
        let (q, inside, made) = traverse-Memᴰ (judge_pair c) (function_pairs c) facts f built m in
        (q, inside, judge_pair-IsFact c q.0 q.1 f made)

    actual_expected :
        all
          (has_pair (expected_pairs c.function_bindings))
          (map function_key (sorted_with fact_leb facts))
        ≡ true
    actual_expected = Memᴰ-all (has_pair (expected_pairs c.function_bindings)) _ (λ k m.
        let (f, sorted, same) = Memᴰ-map_in function_key (sorted_with fact_leb facts) k m in
        let (q, inside, made) = made_from_pair f (sorted_with-Memᴰ fact_leb f facts sorted) in
        let (a, b, other) = pair-known q inside in
        let key : k ≡ (q.0.function_id, q.1.function_id) =
          same
          ∙ ap (λ x. (x, f.target_function_id)) made.source
          ∙ ap (λ x. (q.0.function_id, x)) made.target in
        has_pair-Memᴰ (expected_pairs c.function_bindings) k (
          subst (λ x. Memᴰ x (expected_pairs c.function_bindings)) (sym key)
            (Memᴰ-map_out
              (λ (p : FunctionBinding × FunctionBinding). (p.0.function_id, p.1.function_id))
              (pairs_from c.function_bindings c.function_bindings) q
              (Memᴰ-pairs_from c.function_bindings c.function_bindings q.0 q.1 a b other))))

    expected_actual :
        all
          (has_pair (map function_key (sorted_with fact_leb facts)))
          (expected_pairs c.function_bindings)
        ≡ true
    expected_actual = Memᴰ-all (has_pair (map function_key (sorted_with fact_leb facts))) _ (λ k m.
        let sorted = sorted_bindings c.function_bindings in
        let (q, inside, same) =
          Memᴰ-map_in
            (λ (p : FunctionBinding × FunctionBinding). (p.0.function_id, p.1.function_id))
            (pairs_from c.function_bindings c.function_bindings) k m in
        let (a, b, other) = pairs_from-Memᴰ c.function_bindings c.function_bindings q inside in
        let listed =
          Memᴰ-pairs_from sorted sorted q.0 q.1 (Memᴰ-sorted_with _ q.0 c.function_bindings a)
            (Memᴰ-sorted_with _ q.1 c.function_bindings b) other in
        let (f, made, stands) = traverse-in (judge_pair c) (function_pairs c) q built listed in
        let fact = judge_pair-IsFact c q.0 q.1 f made in
        let key : k ≡ function_key f =
          same
          ∙ ap (λ x. (x, q.1.function_id)) (sym fact.source)
          ∙ ap (λ x. (f.source_function_id, x)) (sym fact.target) in
        has_pair-Memᴰ _ k (
          subst (λ x. Memᴰ x (map function_key (sorted_with fact_leb facts))) (sym key)
            (Memᴰ-map_out function_key (sorted_with fact_leb facts) f
              (Memᴰ-sorted_with fact_leb f facts stands))))

    pair_count :
        (length (map function_key (sorted_with fact_leb facts))
          == length (expected_pairs c.function_bindings))
        ≡ true
    pair_count =
        let one = length-map function_key (sorted_with fact_leb facts) in
        let two = length-sorted_with fact_leb facts in
        let three = traverse-length (judge_pair c) (function_pairs c) facts built in
        let four =
          length-pairs_sorted (λ a b. text_leb a.function_id b.function_id) c.function_bindings in
        let five =
          length-map {B = String × String} (λ q. (q.0.function_id, q.1.function_id))
            (pairs_from c.function_bindings c.function_bindings) in
        ground arith

    functions-checked :
        IsIdentified c
        → Returns (
            traverse
              (check_function_witness c max_function_path_edges_default)
              (sorted_with fact_leb facts))
    functions-checked u =
        traverse-Returns_inside (check_function_witness c max_function_path_edges_default)
          (sorted_with fact_leb facts)
          (λ f m.
            let (q, inside, made) = made_from_pair f (sorted_with-Memᴰ fact_leb f facts m) in
            let (a, b, _) = pair-known q inside in
            (tt, check_function_witness-built c q.0 q.1 f u a b made))

  sites-checked :
      (sites : List Site) (facts : List SiteFact)
      → traverse (judge_site c) sites ≡ ok facts
      → IsIdentified c
      → Returns
          (traverse (check_site_witness c max_site_path_edges_default) (sorted_with site_leb facts))
  sites-checked sites facts built u =
      traverse-Returns_inside (check_site_witness c max_site_path_edges_default)
        (sorted_with site_leb facts)
        (λ f m.
          let (s, inside, made) =
            traverse-Memᴰ (judge_site c) sites facts f built
              (sorted_with-Memᴰ site_leb f facts m) in
          (tt, check_site_witness-built c s f u made))

  site-ids :
      (sites : List Site) (facts : List SiteFact)
      → traverse (judge_site c) sites ≡ ok facts
      → map (λ f. f.site_id) facts ≡ map (λ s. s.site_id) sites
  unfolding traverse
  site-ids [] facts h = ap (map (λ (f : SiteFact). f.site_id)) (sym (ok-injective h))
  site-ids (s ∷ sites) facts h =
      let (f, made, h1) = >>=-eq-ok (judge_site c s) _ h in
      let (rest, more, h2) = >>=-eq-ok (traverse (judge_site c) sites) _ h1 in
      let first = judge_site-id c s f made in
      let others = site-ids sites rest more in
      ap (map (λ (g : SiteFact). g.site_id)) (sym (ok-injective h2))
      ∙ ap (λ i. i ∷ map (λ (g : SiteFact). g.site_id) rest) first
      ∙ ap (λ is. s.site_id ∷ is) others

catalog-valid :
    (cfg_sha256 : Cfg → String) (c : Cfg) (sites : List Site) (facts : List FunctionFact)
    (site_facts : List SiteFact)
    → IsIdentified c
    → is_distinct (map (λ s. s.site_id) sites) ≡ true
    → traverse (judge_pair c) (function_pairs c) ≡ ok facts
    → traverse (judge_site c) sites ≡ ok site_facts
    → validate_witnesses cfg_sha256 (canonical (catalog_of cfg_sha256 c facts site_facts)) c ≡ ok tt
unfolding validate_witnesses canonical
catalog-valid cfg_sha256 c sites facts site_facts u distinct built judged =
    let (_, functions) = functions-checked c facts built u in
    let (_, checked) = sites-checked c sites site_facts judged u in
    let ids =
      sorted_with-distinct (λ (f : SiteFact). f.site_id) site_leb site_facts
        (ap is_distinct (site-ids c sites site_facts judged) ∙ distinct) in
    let same = same_identities_refl c.identities in
    let hash = (String_eq.beq_iff (cfg_sha256 c) (cfg_sha256 c)).1 refl in
    let every = actual_expected c facts built in
    let back = expected_actual c facts built in
    let count = pair_count c facts built in
    simp (same, hash, every, back, count, functions, ids, checked)

-- The catalog of an accepted graph is built and passes the check of all its witnesses against the
-- graph, wherever the sites have distinct identifiers and no two functions that are bound have one
-- entry address.
pub build_static_reachability-Returns :
    (cfg_sha256 : Cfg → String) (c : Cfg) (sites : List Site)
    → check_cfg c ≡ ok tt
    → is_distinct (map (λ s. s.site_id) sites) ≡ true
    → ((a b : FunctionBinding)
        → Memᴰ a c.function_bindings
        → Memᴰ b c.function_bindings
        → other_than a b ≡ true
        → is_exact a.binding_status ≡ true
        → is_exact b.binding_status ≡ true
        → a.expected_entry_address ≢ b.expected_entry_address)
    → (k : ReachabilityCatalog) × (build_static_reachability cfg_sha256 c sites ≡ ok k)
      × (validate_witnesses cfg_sha256 k c ≡ ok tt)
unfolding build_static_reachability
build_static_reachability-Returns cfg_sha256 c sites accepted distinct apart =
    let u = check_cfg-IsIdentified c accepted in
    let (facts, built) = traverse-Returns_inside (judge_pair c) (function_pairs c) (λ q m.
      let (a, b, other) = pair-known c q m in
      judge_pair-Returns c q.0 q.1 (apart q.0 q.1 a b other)) in
    let (site_facts, judged) = traverse-Returns (judge_site c) sites (judge_site-Returns c) in
    let valid = catalog-valid cfg_sha256 c sites facts site_facts u distinct built judged in
    (
      canonical (catalog_of cfg_sha256 c facts site_facts),
      simp (accepted, built, judged, valid),
      valid,
    )
