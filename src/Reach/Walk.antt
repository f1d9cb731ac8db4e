-- ===== src/Reach/Walk.antt =====
-- Walks along edges, as the search lists them.
use chip_chain_v.Prelude.{
  suc, ◌≡◌, refl, String, List, [], ◌∷◌, ◌++◌, Memᴰ, length, arith, length-append,
}
use chip_chain_v.Reach.Search.{Arc}

-- A walk from one node to another, with its nodes and the identifiers of its edges in order.
pub data Walk {ℓ} {N : Type ℓ} (arcs : List (Arc N)) (source : N)
    : (target : N) → List N → List String → Type ℓ where
  here : Walk arcs source source (source ∷ []) []
  step :
      {path : List N} {ids : List String} (a : Arc N)
      → Memᴰ a arcs
      → Walk arcs source a.source path ids
      → Walk arcs source a.target (path ++ a.target ∷ []) (ids ++ a.edge_id ∷ [])

module _ {ℓ} {N : Type ℓ} {arcs : List (Arc N)} {source : N} where
  -- A walk has one node more than edges.
  pub Walk-length :
      {target : N} {path : List N} {ids : List String}
      → Walk arcs source target path ids
      → length path ≡ suc (length ids)
  Walk-length here = refl
  Walk-length (step {path} {ids} a inside walk) = omega (
    arith,
    length-append path (a.target ∷ []),
    length-append ids (a.edge_id ∷ []),
    Walk-length walk,
  )
