-- ===== src/Binding/Supported.antt =====
-- When a fact is bound to a resource as supported.
use chip_chain_v.Prelude.{
  ℕ, ℕ_eq, ◌≤◌, ◌≡◌, refl, sym, ap, ◌∙◌, subst, String, String_eq, Bool, true, false, not, ◌&&◌,
  ◌||◌, ◌==◌, is_some, Option, none, some, List, [], ◌∷◌, select, select-Memᴰ, Memᴰ-select,
  if◌then◌else◌, Memᴰ, Bool-cases, and_split, if-avoids, inl, inr, arith, ok, ok-injective,
  require-eq-ok,
}
use mathlib.Core.List.Memᴰ
use chip_chain_v.Capability.{is_given}
use chip_chain_v.Binding.Data.{Resource, Catalog, supported, BindingStatus, Draft, Binding}
use chip_chain_v.Binding.Select.{
  Fact, is_memory, is_system, access_of, permits, within, is_allowed, WidthMatch, width_match,
  judge_width, judge_match, judge_matches, matches, automatic, select_kind, select_binding,
  same_register,
}

-- The resource fixes no width, or the fact's.
abbrev HasWidth : Option ℕ → Option ℕ → Type 0
HasWidth none width = Unit
HasWidth (some w) width = width ≡ some w

-- The resource holds the fact's address, or is the register that it names.
abbrev IsIdentified : (String → String) → Fact → Resource → Bool → Type 0
IsIdentified casefold f r true =
    (low : ℕ) × (a : ℕ) × (high : ℕ) × (r.address_start ≡ some low)
    × (r.address_end ≡ some high)
    × (f.address ≡ some a)
    × (low ≤ a)
    × (a ≤ high)
IsIdentified casefold f r false =
    (name : String) × (own : String) × (f.register ≡ some name)
    × (r.register_identity ≡ some own)
    × (casefold own ≡ casefold name)

-- What makes a binding of a fact to a resource of a catalog supported.
pub record IsBound (casefold : String → String) (f : Fact) (c : Catalog) (r : Resource)
    : Type 0 where
  pub inside : Memᴰ r c.resources
  pub allowed : is_allowed f r.kind ≡ true
  pub identified : IsIdentified casefold f r (is_memory f.kind)
  pub permitted : permits (access_of f.kind) r.access ≡ true
  pub width : HasWidth r.width_bits f.width_bits
  pub only_one : (q : Resource) → Memᴰ q c.resources → matches casefold f q ≡ true → q ≡ r

abbrev IsSupported : Draft → Type 0
IsSupported d = d.status ≡ supported

width_match-fits : (w v : Option ℕ) → width_match w v ≡ WidthMatch.fits → HasWidth w v
width_match-fits none v h = tt
width_match-fits (some w) none h = cc
width_match-fits (some w) (some v) h = ground arith

judge_width-supported :
    (f : Fact) (r : Resource) (w : WidthMatch)
    → (judge_width f r w).status ≡ supported
    → w ≡ WidthMatch.fits
unfolding judge_width
judge_width-supported f r WidthMatch.fits h = refl
judge_width-supported f r WidthMatch.not_established h = cc
judge_width-supported f r WidthMatch.conflicts h = cc

judge_match-supported :
    (f : Fact) (r : Resource)
    → (judge_match f r).status ≡ supported
    → (permits (access_of f.kind) r.access ≡ true) × HasWidth r.width_bits f.width_bits
unfolding judge_match
judge_match-supported f r h = elim (Bool-cases (permits (access_of f.kind) r.access)) [
  | inl permitted ↦
      let decided =
        judge_width-supported f r (width_match r.width_bits f.width_bits) (rw permitted at h) in
      (permitted, width_match-fits r.width_bits f.width_bits decided)
  | inr prohibited ↦ let clash : BindingStatus.contradicted ≡ supported = rw prohibited at h in cc
]

judge_match-resource :
    (f : Fact) (r : Resource) → (judge_match f r).hardware_resource_id ≡ some r.resource_id
unfolding judge_match judge_width
judge_match-resource f r = ground arith

-- A supported binding is that of a single match.
judge_matches-supported :
    (f : Fact) (rs : List Resource)
    → (judge_matches f rs).status ≡ supported
    → (r : Resource) × (rs ≡ r ∷ [])
      × ((judge_match f r).status ≡ supported)
      × ((judge_matches f rs).hardware_resource_id ≡ some r.resource_id)
unfolding judge_matches
judge_matches-supported f [] h = cc
judge_matches-supported f (r ∷ []) h = (r, refl, h, judge_match-resource f r)
judge_matches-supported f (r ∷ q ∷ rs) h = cc

within-bounds :
    (low high a : Option ℕ)
    → within low high a ≡ true
    → (l : ℕ) × (x : ℕ) × (u : ℕ) × (low ≡ some l)
      × (high ≡ some u)
      × (a ≡ some x)
      × (l ≤ x)
      × (x ≤ u)
within-bounds (some l) (some u) (some x) h = (l, x, u, refl, refl, refl, ground arith, ground arith)
within-bounds none high a h = cc
within-bounds (some l) none a h = cc
within-bounds (some l) (some u) none h = cc

module _ (casefold : String → String) where
  same_register-names :
      (own name : Option String)
      → same_register casefold own name ≡ true
      → (n : String) × (o : String) × (name ≡ some n) × (own ≡ some o) × (casefold o ≡ casefold n)
  same_register-names (some o) (some n) h =
      (n, o, refl, refl, (String_eq.beq_iff (casefold o) (casefold n)).0 h)
  same_register-names none name h = cc
  same_register-names (some o) none h = cc

  identify :
      (f : Fact) (r : Resource) (memory : Bool)
      → (if memory
          then within r.address_start r.address_end f.address
          else same_register casefold r.register_identity f.register)
        ≡ true
      → IsIdentified casefold f r memory
  identify f r true h = within-bounds r.address_start r.address_end f.address h
  identify f r false h = same_register-names r.register_identity f.register h

  matches-IsIdentified :
      (f : Fact) (r : Resource)
      → matches casefold f r ≡ true
      → (is_allowed f r.kind ≡ true) × IsIdentified casefold f r (is_memory f.kind)
  unfolding matches
  matches-IsIdentified f r h =
      let split = and_split (is_allowed f r.kind) _ h in
      (split.0, identify f r (is_memory f.kind) split.1)

  -- The automatic binding is supported only by a match, after the two guards.
  automatic-supported :
      (f : Fact) (c : Catalog)
      → (automatic casefold f c).status ≡ supported
      → (automatic casefold f c ≡ judge_matches f (select (matches casefold f) c.resources))
  unfolding automatic
  automatic-supported f c h =
      let decided = judge_matches f (select (matches casefold f) c.resources) in
      let incomplete =
        is_memory f.kind && not (is_some f.address)
        || is_system f.kind && not (is_given f.register) in
      let first =
        if-avoids IsSupported (not (is_memory f.kind) && not (is_system f.kind)) _ _ h (λ e. cc) in
      let second =
        if-avoids IsSupported incomplete _ decided (subst IsSupported first h) (λ e. cc) in
      first ∙ second

  automatic-IsBound :
      (f : Fact) (c : Catalog)
      → (automatic casefold f c).status ≡ supported
      → (r : Resource) × IsBound casefold f c r
        × ((automatic casefold f c).hardware_resource_id ≡ some r.resource_id)
  automatic-IsBound f c h =
      let same = automatic-supported f c h in
      let (r, one, good, named) =
        judge_matches-supported f (select (matches casefold f) c.resources)
          (subst IsSupported same h) in
      let inside = select-Memᴰ (matches casefold f) c.resources r (rw one (Memᴰ.head refl)) in
      let (permitted, width) = judge_match-supported f r good in
      let (allowed, identified) = matches-IsIdentified f r inside.1 in
      (
        r,
        record {
          inside = inside.0;
          allowed = allowed;
          identified = identified;
          permitted = permitted;
          width = width;
          only_one = λ q m hit.
              Memᴰ.eq_of_singleton
                (subst (Memᴰ q) one (Memᴰ-select (matches casefold f) c.resources q m hit));
        },
        ap (λ d. d.hardware_resource_id) same ∙ named,
      )

module _ (casefold : String → String) (content_id : Draft → String) where
  -- The binding that is returned without a manual declaration.
  pub select_binding-automatic :
      (f : Fact) (c : Catalog) (b : Binding)
      → select_binding casefold content_id f c none ≡ ok b
      → (f.architecture ≡ c.architecture) × (b.content ≡ automatic casefold f c)
  unfolding select_binding select_kind
  select_binding-automatic f c b h =
      let (same, made) = require-eq-ok (f.architecture == c.architecture) _ _ h in
      (
        (String_eq.beq_iff f.architecture c.architecture).0 same,
        ap (λ x. x.content) (sym (ok-injective made)),
      )

-- A binding without a manual declaration that is supported names a resource of the catalog. This
-- resource is of a kind allowed for the fact, holds the fact's address or is the register that the
-- fact names, permits the access, fixes no width or the fact's, and is the only one that matches.
pub select_binding-IsBound :
    (casefold : String → String) (content_id : Draft → String) (f : Fact) (c : Catalog)
    (b : Binding)
    → select_binding casefold content_id f c none ≡ ok b
    → b.content.status ≡ supported
    → (r : Resource) × IsBound casefold f c r
      × (b.content.hardware_resource_id ≡ some r.resource_id)
select_binding-IsBound casefold content_id f c b h s =
    let (_, same) = select_binding-automatic casefold content_id f c b h in
    let (r, bound, named) = automatic-IsBound casefold f c (subst IsSupported same s) in
    (r, bound, ap (λ d. d.hardware_resource_id) same ∙ named)
