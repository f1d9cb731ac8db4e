-- ===== src/Reach/Owned.antt =====
-- The facts on sites that are built pass the check of their witnesses.
use chip_chain_v.Prelude.{
  ℕ, ℕ_eq, ◌≡◌, refl, sym, ap, ◌∙◌, subst, String, String_eq, Bool, true, false, ◌&&◌, ◌||◌, ◌==◌,
  iff, option_eq, some, List, any, any-some, some-any, contains, contains→Memᴰ, Memᴰ→contains,
  select, select-Memᴰ, find_first-Memᴰ, only, only-Memᴰ, Memᴰ, Memᴰ-map_in, Memᴰ-map_out,
  Option-cases, inl, inr, arith, and_split, sorted_with-Memᴰ, text_leb,
}
use chip_chain_v.Reach.Search.{Arc}
use chip_chain_v.Reach.Catalog.{CfgNode, CfgEdge, Cfg, node_named, edge_named}
use chip_chain_v.Reach.Build.{
  candidates, owned_nodes, node_ids, starts_of, targets_of, follows, local_arcs, uses_fake,
}
use chip_chain_v.Reach.Validate.{
  owned_in, is_owned, starts_at, holds_site, joins_nodes, site_step, is_fake,
}
use chip_chain_v.Reach.Functions.{IsIdentified}
use chip_chain_v.Reach.Lookup.{find_first-distinct}

module _ (c : Cfg) (u : IsIdentified c) where
  node_named-known : (n : CfgNode) → Memᴰ n c.nodes → node_named c.nodes n.node_id ≡ some n
  node_named-known n m = find_first-distinct (λ x. x.node_id) c.nodes n u.nodes m

  edge_named-known : (x : CfgEdge) → Memᴰ x c.edges → edge_named c.edges x.edge_id ≡ some x
  edge_named-known x m = find_first-distinct (λ y. y.edge_id) c.edges x u.edges m

  -- An identifier of a node of the function names an owned node.
  pub owned-named :
      (entry : ℕ) (i : String)
      → Memᴰ i (node_ids (owned_nodes c entry))
      → is_owned c.nodes entry i ≡ true
  owned-named entry i m =
      let (n, chosen, same) = Memᴰ-map_in (λ (x : CfgNode). x.node_id) (owned_nodes c entry) i m in
      let (inside, own) =
        select-Memᴰ (λ x. option_eq x.function_canonical_address (some entry)) c.nodes n chosen in
      let found = node_named-known n inside in
      subst (λ k. is_owned c.nodes entry k ≡ true) (sym same)
        (ap (λ o. owned_in o entry) found ∙ own)

  -- The edge of a local arc.
  pub local-edge :
      (entry : ℕ) (allow_fake : Bool) (a : Arc String)
      → Memᴰ a (local_arcs c (owned_nodes c entry) allow_fake)
      → Memᴰ a.target (node_ids (owned_nodes c entry))
        × (site_step c a.source a.target a.edge_id ≡ true)
  local-edge entry allow_fake a m =
      let owned = owned_nodes c entry in
      let (x, chosen, same) = Memᴰ-map_in _ _ a m in
      let (inside, good) =
        select-Memᴰ
          (λ y.
            contains (node_ids owned) y.source_node_id
            && contains (node_ids owned) y.target_node_id
            && follows allow_fake y.edge_kind)
          c.edges x chosen in
      let target : contains (node_ids owned) x.target_node_id ≡ true = ground arith in
      let kind : follows allow_fake x.edge_kind ≡ true = ground arith in
      let plain : (x.edge_kind == "branch" || x.edge_kind == "fakeret") ≡ true = ground arith in
      let from = (String_eq.beq_iff x.source_node_id x.source_node_id).1 refl in
      let to = (String_eq.beq_iff x.target_node_id x.target_node_id).1 refl in
      let found = edge_named-known x inside in
      let joins : joins_nodes (some x) x.source_node_id x.target_node_id ≡ true = ground arith in
      subst
        (λ (b : Arc String).
          Memᴰ b.target (node_ids owned) × (site_step c b.source b.target b.edge_id ≡ true))
        (sym same)
        (
          contains→Memᴰ (node_ids owned) x.target_node_id target,
          ap (λ o. joins_nodes o x.source_node_id x.target_node_id) found ∙ joins,
        )

  -- The start is the function's node at its entry.
  pub start-named :
      (entry : ℕ) (start : String)
      → only (starts_of (owned_nodes c entry) entry) ≡ some start
      → Memᴰ start (node_ids (owned_nodes c entry))
        × (starts_at (node_named c.nodes start) entry ≡ true)
  start-named entry start h =
      let listed = only-Memᴰ (starts_of (owned_nodes c entry) entry) start h in
      let (n, chosen, same) =
        Memᴰ-map_in (λ (x : CfgNode). x.node_id)
          (select (λ x. x.canonical_address == entry) (owned_nodes c entry)) start
          (sorted_with-Memᴰ text_leb start _ listed) in
      let (mine, there) =
        select-Memᴰ (λ x. x.canonical_address == entry) (owned_nodes c entry) n chosen in
      let (inside, own) =
        select-Memᴰ (λ x. option_eq x.function_canonical_address (some entry)) c.nodes n mine in
      let found = node_named-known n inside in
      subst
        (λ k.
          Memᴰ k (node_ids (owned_nodes c entry)) × (starts_at (node_named c.nodes k) entry ≡ true))
        (sym same)
        (
          Memᴰ-map_out (λ (x : CfgNode). x.node_id) (owned_nodes c entry) n mine,
          ap (λ o. starts_at o entry) found ∙ there,
        )

  -- A target is a node that holds the site's instruction.
  pub target-named :
      (entry pc : ℕ) (target : String)
      → Memᴰ target (targets_of c pc (owned_nodes c entry))
      → holds_site (node_named c.nodes target) pc ≡ true
  target-named entry pc target m =
      let (listed, _) =
        select-Memᴰ (contains (node_ids (owned_nodes c entry))) (node_ids (candidates c pc)) target
          m in
      let (n, chosen, same) =
        Memᴰ-map_in (λ (x : CfgNode). x.node_id) (candidates c pc) target listed in
      let (inside, holds) =
        select-Memᴰ (λ x. contains x.instruction_addresses pc) c.nodes n chosen in
      let found = node_named-known n inside in
      subst (λ k. holds_site (node_named c.nodes k) pc ≡ true) (sym same)
        (ap (λ o. holds_site o pc) found ∙ holds)

  -- The edges of a witness use a fake return where one of the graph's fake returns is among them.
  fake-used :
      (ids : List String)
      → uses_fake c ids ≡ true
      → any (λ i. is_fake (edge_named c.edges i)) ids ≡ true
  fake-used ids h =
      let (x, inside, both) =
        any-some (λ y. y.edge_kind == "fakeret" && contains ids y.edge_id) c.edges h in
      let (fake, listed) = and_split (x.edge_kind == "fakeret") (contains ids x.edge_id) both in
      some-any (λ i. is_fake (edge_named c.edges i)) ids x.edge_id
        (contains→Memᴰ ids x.edge_id listed) (ap is_fake (edge_named-known x inside) ∙ fake)

  used-fake :
      (ids : List String)
      → any (λ i. is_fake (edge_named c.edges i)) ids ≡ true
      → uses_fake c ids ≡ true
  used-fake ids h =
      let (i, listed, fake) = any-some (λ j. is_fake (edge_named c.edges j)) ids h in
      elim (Option-cases (edge_named c.edges i)) [
        | inl missing ↦ let clash : false ≡ true = sym (ap is_fake missing) ∙ fake in cc
        | inr (x, found) ↦
            let (inside, named) = find_first-Memᴰ (λ y. y.edge_id == i) c.edges x found in
            let same = (String_eq.beq_iff x.edge_id i).0 named in
            let kind : (x.edge_kind == "fakeret") ≡ true = sym (ap is_fake found) ∙ fake in
            let present = Memᴰ→contains ids x.edge_id (subst (λ k. Memᴰ k ids) (sym same) listed) in
            some-any (λ y. y.edge_kind == "fakeret" && contains ids y.edge_id) c.edges x inside
              (simp (kind, present))
      ]

  pub fake-agrees :
      (ids : List String)
      → iff (uses_fake c ids) (any (λ i. is_fake (edge_named c.edges i)) ids) ≡ true
  fake-agrees ids =
      agrees (uses_fake c ids) (any (λ i. is_fake (edge_named c.edges i)) ids) (fake-used ids)
        (used-fake ids)
    where
      agrees : (a b : Bool) → (a ≡ true → b ≡ true) → (b ≡ true → a ≡ true) → iff a b ≡ true
      agrees true b h k = h refl
      agrees false true h k = k refl
      agrees false false h k = refl
