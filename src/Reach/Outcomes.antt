-- ===== src/Reach/Outcomes.antt =====
-- The fact on a site that is built passes the check of its witness.
use chip_chain_v.Prelude.{
  ℕ, ℕ_eq, leb, ◌≡◌, refl, sym, ap, ◌∙◌, subst, String, String_eq, Bool, true, false, iff, Option,
  none, some, List, all, only, length, is_nonempty, Memᴰ-all, All-Memᴰ, Bool-cases, inl, inr, arith,
  ok, >>=-eq-ok, ok-injective, pair_leb, any,
}
use chip_chain_v.Reach.Sound.{IsWitness, bounded_bfs-IsWitness}
use chip_chain_v.Reach.Catalog.{
  FunctionBinding, is_exact, CfgNode, Cfg, edge_named, SiteStatus, SiteFact, check_site_fact,
}
use chip_chain_v.Reach.Build.{
  max_site_path_edges_default, returned, owned_nodes, starts_of, targets_of, local_arcs,
  search_site, uses_fake, SiteOutcome, nothing_found, site_found, second_round, first_round,
  search_from, search_owner, judge_owner, binding_named, Site, site_fact, judge_site,
}
use chip_chain_v.Reach.Validate.{
  entry_in, entry_of, is_owned, starts_at, holds_site, named_at, site_step, is_fake,
  check_site_witness,
}
use chip_chain_v.Reach.Functions.{IsIdentified, returned-some}
use chip_chain_v.Reach.Steps.{Walk-steps, Walk-All}
use chip_chain_v.Reach.Owned.{owned-named, local-edge, start-named, target-named, fake-agrees}

-- The outcome has the path that one of the two searches found.
record IsSearched (c : Cfg) (owned : List CfgNode) (targets : List String) (start : String)
    (o : SiteOutcome) : Type 0 where
  allow_fake : Bool
  witness :
      IsWitness
        (local_arcs c owned allow_fake)
        start
        targets
        max_site_path_edges_default
        o.path
        o.edges
  uses : o.uses ≡ uses_fake c o.edges

module _ (c : Cfg) (owned : List CfgNode) (targets : List String) (start : String) where
  found-IsSearched :
      (allow_fake : Bool) (r : List String × List String)
      → returned (search_site c owned targets allow_fake start) ≡ ok r
      → is_nonempty r.0 ≡ true
      → IsSearched c owned targets start (site_found c r)
  found-IsSearched allow_fake r h filled = record {
    allow_fake = allow_fake;
    witness =
        bounded_bfs-IsWitness pair_leb (local_arcs c owned allow_fake) start targets
          max_site_path_edges_default r.0 r.1
          (returned-some (search_site c owned targets allow_fake start) h) filled;
    uses = refl;
  }

  second_round-IsSearched :
      (o : SiteOutcome)
      → second_round c owned targets start ≡ ok o
      → is_nonempty o.path ≡ true
      → IsSearched c owned targets start o
  unfolding second_round
  second_round-IsSearched o h filled =
      let (r, found, made) = >>=-eq-ok (returned (search_site c owned targets true start)) _ h in
      elim (Bool-cases (is_nonempty r.0)) [
        | inl hit ↦
            let same : site_found c r ≡ o = ok-injective (simp hit at made) in
            subst (IsSearched c owned targets start) same (found-IsSearched true r found hit)
        | inr miss ↦
            let same : nothing_found SiteStatus.not_found_in_cfg ≡ o =
              ok-injective (simp miss at made) in
            let empty = subst (λ (x : SiteOutcome). is_nonempty x.path ≡ true) (sym same) filled in
            cc
      ]

  first_round-IsSearched :
      (o : SiteOutcome)
      → first_round c owned targets start ≡ ok o
      → is_nonempty o.path ≡ true
      → IsSearched c owned targets start o
  unfolding first_round
  first_round-IsSearched o h filled =
      let (r, found, made) = >>=-eq-ok (returned (search_site c owned targets false start)) _ h in
      elim (Bool-cases (is_nonempty r.0)) [
        | inl hit ↦
            let same : site_found c r ≡ o = ok-injective (simp hit at made) in
            subst (IsSearched c owned targets start) same (found-IsSearched false r found hit)
        | inr miss ↦ second_round-IsSearched o (simp miss at made) filled
      ]

-- The owner of a site whose outcome has a path, and the search in it.
record HasOwner (c : Cfg) (pc : ℕ) (owner : Option String) (o : SiteOutcome) : Type 0 where
  binding : FunctionBinding
  named : binding_named c.function_bindings owner ≡ some binding
  start : String
  only_start :
      only (starts_of (owned_nodes c binding.expected_entry_address) binding.expected_entry_address)
      ≡ some start
  searched :
      IsSearched c
        (owned_nodes c binding.expected_entry_address)
        (targets_of c pc (owned_nodes c binding.expected_entry_address))
        start
        o

search_from-some :
    (c : Cfg) (owned : List CfgNode) (targets : List String) (s : Option String) (o : SiteOutcome)
    → search_from c owned targets s ≡ ok o
    → is_nonempty o.path ≡ true
    → (start : String) × (s ≡ some start) × (first_round c owned targets start ≡ ok o)
unfolding search_from
search_from-some c owned targets none o h filled =
    let same = ok-injective h in
    let empty = subst (λ (x : SiteOutcome). is_nonempty x.path ≡ true) (sym same) filled in cc
search_from-some c owned targets (some start) o h filled = (start, refl, h)

search_owner-HasOwner :
    (c : Cfg) (pc : ℕ) (owner : Option String) (found : Option FunctionBinding) (o : SiteOutcome)
    → binding_named c.function_bindings owner ≡ found
    → search_owner c pc found ≡ ok o
    → is_nonempty o.path ≡ true
    → HasOwner c pc owner o
unfolding search_owner
search_owner-HasOwner c pc owner none o named h filled =
    let same = ok-injective h in
    let empty = subst (λ (x : SiteOutcome). is_nonempty x.path ≡ true) (sym same) filled in cc
search_owner-HasOwner c pc owner (some b) o named h filled =
    elim (Bool-cases (is_exact b.binding_status)) [
      | inl bound ↦
          let owned = owned_nodes c b.expected_entry_address in
          let targets = targets_of c pc owned in
          let (start, one, ran) =
            search_from-some c owned targets (only (starts_of owned b.expected_entry_address)) o
              (simp bound at h) filled in
          record {
            binding = b;
            named = named;
            start = start;
            only_start = one;
            searched = first_round-IsSearched c owned targets start o ran filled;
          }
      | inr unbound ↦
          let same : nothing_found SiteStatus.source_mapping_missing ≡ o =
            ok-injective (simp unbound at h) in
          let empty = subst (λ (x : SiteOutcome). is_nonempty x.path ≡ true) (sym same) filled in cc
    ]

judge_owner-HasOwner :
    (c : Cfg) (pc : ℕ) (owner : Option String) (o : SiteOutcome)
    → judge_owner c pc owner ≡ ok o
    → is_nonempty o.path ≡ true
    → HasOwner c pc owner o
unfolding judge_owner
judge_owner-HasOwner c pc none o h filled =
    let same = ok-injective h in
    let empty = subst (λ (x : SiteOutcome). is_nonempty x.path ≡ true) (sym same) filled in cc
judge_owner-HasOwner c pc (some i) o h filled =
    search_owner-HasOwner c pc (some i) (binding_named c.function_bindings (some i)) o refl h filled

judge_site-fact :
    (c : Cfg) (s : Site) (f : SiteFact)
    → judge_site c s ≡ ok f
    → (o : SiteOutcome) × (judge_owner c s.address s.owner ≡ ok o) × (f ≡ site_fact c s o)
unfolding judge_site
judge_site-fact c s f h =
    let (o, found, h1) = >>=-eq-ok (judge_owner c s.address s.owner) _ h in
    let (_, _, h2) = >>=-eq-ok (check_site_fact (site_fact c s o)) _ h1 in
    (o, found, sym (ok-injective h2))

outcome-checked :
    (c : Cfg) (s : Site) (o : SiteOutcome)
    → IsIdentified c
    → is_nonempty o.path ≡ true
    → HasOwner c s.address s.owner o
    → check_site_witness c max_site_path_edges_default (site_fact c s o) ≡ ok tt
unfolding check_site_witness entry_of
outcome-checked c s o u filled h =
    let entry = h.binding.expected_entry_address in
    let w = h.searched.witness in
    let begins = start-named c u entry h.start h.only_start in
    let (first, last, steps) =
      Walk-steps (site_step c) (λ a m. (local-edge c u entry h.searched.allow_fake a m).1) w.walk in
    let own =
      Walk-All (λ i. is_owned c.nodes entry i ≡ true) (owned-named c u entry h.start begins.0)
        (λ a m. owned-named c u entry a.target (local-edge c u entry h.searched.allow_fake a m).0)
        w.walk in
    let owned : all (is_owned c.nodes entry) o.path ≡ true =
      Memᴰ-all (is_owned c.nodes entry) o.path (λ i m. All-Memᴰ _ o.path own m) in
    let short : leb (length o.edges) max_site_path_edges_default ≡ true =
      let bound = w.bounded in ground arith in
    let known = ap entry_in h.named in
    let site = target-named c u entry s.address w.target w.hit in
    let first_ok = ap (λ k. starts_at (named_at c.nodes k) entry) first ∙ begins.1 in
    let last_ok = ap (λ k. holds_site (named_at c.nodes k) s.address) last ∙ site in
    let fake =
      subst (λ t. iff t (any (λ i. is_fake (edge_named c.edges i)) o.edges) ≡ true)
        (sym h.searched.uses) (fake-agrees c u o.edges) in
    simp (filled, known, short, owned, first_ok, last_ok, steps, fake)

-- The fact that is built for a site of an accepted graph passes the check of its witness.
pub check_site_witness-built :
    (c : Cfg) (s : Site) (f : SiteFact)
    → IsIdentified c
    → judge_site c s ≡ ok f
    → check_site_witness c max_site_path_edges_default f ≡ ok tt
unfolding check_site_witness
check_site_witness-built c s f u h =
    let (o, found, same) = judge_site-fact c s f h in
    subst (λ x. check_site_witness c max_site_path_edges_default x ≡ ok tt) (sym same)
      (elim (Bool-cases (is_nonempty o.path)) [
        | inl filled ↦
            outcome-checked c s o u filled (judge_owner-HasOwner c s.address s.owner o found filled)
        | inr empty ↦ simp empty
      ])

pub judge_site-id :
    (c : Cfg) (s : Site) (f : SiteFact) → judge_site c s ≡ ok f → f.site_id ≡ s.site_id
judge_site-id c s f h = let (o, _, same) = judge_site-fact c s f h in ap (λ x. x.site_id) same
