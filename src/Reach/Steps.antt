-- ===== src/Reach/Steps.antt =====
-- The steps of a walk pass a test that the edges pass.
use chip_chain_v.Prelude.{
  suc, ◌≡◌, refl, sym, subst, String, Bool, true, some, some-injective, List, [], ◌∷◌, ◌++◌, length,
  Memᴰ, arith, and_split, All, All-append,
}
use chip_chain_v.Reach.Search.{Arc}
use chip_chain_v.Reach.Walk.{Walk, here, step, Walk-length}
use chip_chain_v.Reach.Validate.{first_of, last_of, steps_ok}

module _ {ℓ} {N : Type ℓ} where
  pub last_of-snoc : (path : List N) (n : N) → last_of (path ++ n ∷ []) ≡ some n
  last_of-snoc [] n = refl
  last_of-snoc (x ∷ []) n = refl
  last_of-snoc (x ∷ y ∷ path) n = last_of-snoc (y ∷ path) n

  first_of-append :
      (path rest : List N) (n : N) → first_of path ≡ some n → first_of (path ++ rest) ≡ some n
  first_of-append [] rest n h = cc
  first_of-append (x ∷ path) rest n h = h

  steps_ok-snoc :
      (test : N → N → String → Bool) (path : List N) (ids : List String) (m n : N) (i : String)
      → steps_ok test path ids ≡ true
      → last_of path ≡ some m
      → length path ≡ suc (length ids)
      → test m n i ≡ true
      → steps_ok test (path ++ n ∷ []) (ids ++ i ∷ []) ≡ true
  unfolding steps_ok
  steps_ok-snoc test [] ids m n i h last sizes good = cc
  steps_ok-snoc test (x ∷ []) [] m n i h last sizes good =
      let same : x ≡ m = some-injective last in
      let first : test x n i ≡ true = subst (λ y. test y n i ≡ true) (sym same) good in simp first
  steps_ok-snoc test (x ∷ []) (j ∷ ids) m n i h last sizes good = ground arith
  steps_ok-snoc test (x ∷ y ∷ path) [] m n i h last sizes good = ground arith
  steps_ok-snoc test (x ∷ y ∷ path) (j ∷ ids) m n i h last sizes good =
      let (first, others) = and_split (test x y j) (steps_ok test (y ∷ path) ids) h in
      let rest = steps_ok-snoc test (y ∷ path) ids m n i others last (omega (arith, sizes)) good in
      simp (first, rest)

  -- A walk starts at its source, ends at its target, and its steps pass the test.
  pub Walk-steps :
      (test : N → N → String → Bool) {arcs : List (Arc N)} {source target : N} {path : List N}
      {ids : List String}
      → ((a : Arc N) → Memᴰ a arcs → test a.source a.target a.edge_id ≡ true)
      → Walk arcs source target path ids
      → (first_of path ≡ some source)
        × (last_of path ≡ some target)
        × (steps_ok test path ids ≡ true)
  unfolding steps_ok
  Walk-steps test good here = (refl, refl, refl)
  Walk-steps test good (step {path} {ids} a inside walk) =
      let (first, last, steps) = Walk-steps test good walk in
      (
        first_of-append path (a.target ∷ []) _ first,
        last_of-snoc path a.target,
        steps_ok-snoc test path ids a.source a.target a.edge_id steps last (Walk-length walk)
            (good a inside),
      )

  -- What holds of the source and of every edge's target holds of all nodes of a walk.
  pub Walk-All {κ} :
      (P : N → Type κ) {arcs : List (Arc N)} {source target : N} {path : List N} {ids : List String}
      → P source
      → ((a : Arc N) → Memᴰ a arcs → P a.target)
      → Walk arcs source target path ids
      → All P path
  Walk-All P origin each here = (origin, tt)
  Walk-All P origin each (step {path} {ids} a inside walk) =
      All-append P path (a.target ∷ []) (Walk-All P origin each walk) (each a inside, tt)
