-- ===== src/Reach/Sites.antt =====
-- The fact on a site is always accepted by its validator.
use chip_chain_v.Prelude.{
  ℕ, ℕ_eq, suc, ◌+◌, nat_eq, ◌≡◌, refl, ap, String, String_eq, Bool, true, false, Option, none,
  some, only, List, length, is_nonempty, Bool-cases, inl, inr, arith, Result, ok, Returns, pair_leb,
}
use chip_chain_v.Reach.Walk.{Walk-length}
use chip_chain_v.Reach.Ends.{bounded_bfs_ends}
use chip_chain_v.Reach.Sound.{bounded_bfs-IsWitness}
use chip_chain_v.Reach.Catalog.{
  FunctionBinding, is_exact, CfgNode, Cfg, SiteStatus, is_positive, with_fakeret, check_site_fact,
}
use chip_chain_v.Reach.Build.{
  max_site_path_edges_default, returned, local_arcs, search_site, uses_fake, SiteOutcome,
  nothing_found, site_found, second_round, first_round, search_from, search_owner, judge_owner,
  binding_named, owned_nodes, starts_of, targets_of, Site, site_fact, judge_site,
}

-- The outcome has a status that fits its path.
record IsFit (o : SiteOutcome) : Type 0 where
  positive : is_positive o.status ≡ is_nonempty o.path
  fake : with_fakeret o.status ≡ o.uses
  sizes : is_nonempty o.path ≡ true → length o.path ≡ suc (length o.edges)
  empty : is_nonempty o.path ≡ false → is_nonempty o.edges ≡ false

nothing-IsFit :
    (s : SiteStatus) → is_positive s ≡ false → with_fakeret s ≡ false → IsFit (nothing_found s)
nothing-IsFit s h k = record { positive = h; fake = k; sizes = λ e. cc; empty = λ e. refl }

check_site_fact-fit :
    (c : Cfg) (s : Site) (o : SiteOutcome) → IsFit o → Returns (check_site_fact (site_fact c s o))
unfolding check_site_fact
check_site_fact-fit c s o h = elim (Bool-cases (is_nonempty o.path)) [
  | inl filled ↦
      let sizes : nat_eq (length o.path) (length o.edges + 1) ≡ true =
        let e = h.sizes filled in ground arith in
      (elim (Bool-cases o.uses) [
        | inl used ↦ (tt, simp (h.positive, h.fake, filled, used, sizes))
        | inr unused ↦ (tt, simp (h.positive, h.fake, filled, unused, sizes))
      ])
  | inr empty ↦
      let edges = h.empty empty in
      (elim (Bool-cases o.uses) [
        | inl used ↦ (tt, simp (h.positive, h.fake, empty, used, edges))
        | inr unused ↦ (tt, simp (h.positive, h.fake, empty, unused, edges))
      ])
]

-- What a round of the search finds fits.
found-IsFit :
    (c : Cfg) (owned : List CfgNode) (targets : List String) (allow_fake : Bool) (start : String)
    (r : List String × List String)
    → search_site c owned targets allow_fake start ≡ some r
    → is_nonempty r.0 ≡ true
    → IsFit (site_found c r)
found-IsFit c owned targets allow_fake start r h filled =
    let w =
      bounded_bfs-IsWitness pair_leb (local_arcs c owned allow_fake) start targets
        max_site_path_edges_default r.0 r.1 h filled in
    record {
      positive = elim (Bool-cases (uses_fake c r.1)) [
        | inl used ↦ simp (used, filled)
        | inr unused ↦ simp (unused, filled)
      ];
      fake = elim (Bool-cases (uses_fake c r.1)) [
        | inl used ↦ simp used
        | inr unused ↦ simp unused
      ];
      sizes = λ e. Walk-length w.walk;
      empty = λ e. cc;
    }

-- The search ends with an outcome that fits.
abbrev Finds : Result SiteOutcome → Type 0
Finds m = (o : SiteOutcome) × (m ≡ ok o) × IsFit o

module _ (c : Cfg) (owned : List CfgNode) (targets : List String) (start : String) where
  search_ends :
      (allow_fake : Bool)
      → (r : List String × List String) × (search_site c owned targets allow_fake start ≡ some r)
  search_ends allow_fake =
      bounded_bfs_ends pair_leb (local_arcs c owned allow_fake) start targets
        max_site_path_edges_default

  second_round-Finds : Finds (second_round c owned targets start)
  unfolding second_round
  second_round-Finds =
      let (r, ends) = search_ends true in
      let returns : returned (search_site c owned targets true start) ≡ ok r = ap returned ends in
      elim (Bool-cases (is_nonempty r.0)) [
        | inl filled ↦ (
          site_found c r,
          simp (returns, filled),
          found-IsFit c owned targets true start r ends filled,
        )
        | inr empty ↦ (
          nothing_found SiteStatus.not_found_in_cfg,
          simp (returns, empty),
          nothing-IsFit SiteStatus.not_found_in_cfg refl refl,
        )
      ]

  first_round-Finds : Finds (first_round c owned targets start)
  unfolding first_round
  first_round-Finds =
      let (r, ends) = search_ends false in
      let returns : returned (search_site c owned targets false start) ≡ ok r = ap returned ends in
      elim (Bool-cases (is_nonempty r.0)) [
        | inl filled ↦ (
          site_found c r,
          simp (returns, filled),
          found-IsFit c owned targets false start r ends filled,
        )
        | inr empty ↦
            let (o, again, fit) = second_round-Finds in (o, simp (returns, empty, again), fit)
      ]

search_from-Finds :
    (c : Cfg) (owned : List CfgNode) (targets : List String) (start : Option String)
    → Finds (search_from c owned targets start)
unfolding search_from
search_from-Finds c owned targets none = (
  nothing_found SiteStatus.not_found_in_cfg,
  refl,
  nothing-IsFit SiteStatus.not_found_in_cfg refl refl,
)
search_from-Finds c owned targets (some start) = first_round-Finds c owned targets start

search_owner-Finds : (c : Cfg) (pc : ℕ) (o : Option FunctionBinding) → Finds (search_owner c pc o)
unfolding search_owner
search_owner-Finds c pc none = (
  nothing_found SiteStatus.source_mapping_missing,
  refl,
  nothing-IsFit SiteStatus.source_mapping_missing refl refl,
)
search_owner-Finds c pc (some b) = elim (Bool-cases (is_exact b.binding_status)) [
  | inl bound ↦
      let owned = owned_nodes c b.expected_entry_address in
      let (o, found, fit) =
        search_from-Finds c owned (targets_of c pc owned)
          (only (starts_of owned b.expected_entry_address)) in
      (o, simp (bound, found), fit)
  | inr unbound ↦ (
    nothing_found SiteStatus.source_mapping_missing,
    simp unbound,
    nothing-IsFit SiteStatus.source_mapping_missing refl refl,
  )
]

judge_owner-Finds : (c : Cfg) (pc : ℕ) (owner : Option String) → Finds (judge_owner c pc owner)
unfolding judge_owner
judge_owner-Finds c pc none = (
  nothing_found SiteStatus.owner_mapping_missing,
  refl,
  nothing-IsFit SiteStatus.owner_mapping_missing refl refl,
)
judge_owner-Finds c pc (some i) =
    search_owner-Finds c pc (binding_named c.function_bindings (some i))

-- The fact on any site is made, and accepted by its validator.
pub judge_site-Returns : (c : Cfg) (s : Site) → Returns (judge_site c s)
unfolding judge_site
judge_site-Returns c s =
    let (o, found, fit) = judge_owner-Finds c s.address s.owner in
    let (done, accepted) = check_site_fact-fit c s o fit in
    (site_fact c s o, simp (found, accepted))
