-- ===== src/Image/Translate.antt =====
-- `elf_address` on the spans of an accepted mapping.
use chip_chain_v.Prelude.{
  only-Memᴰ, ℕ, ◌+◌, ◌-◌, ◌≤◌, ◌<◌, ltb, ◌≡◌, refl, sym, ap, subst, Bool, true, false, Option, none,
  some, List, [], ◌∷◌, select, select-Memᴰ, only, any, Memᴰ, inl, inr, arith, ok, require-eq-ok,
  ℕ_eq, >>=-eq-ok, ok-injective, sorted_by, ◌&&◌, not, ◌==◌, ◌∙◌, and_split, Memᴰ-map_in,
  Memᴰ-map_out, Memᴰ-select,
}
use mathlib.Core.List.Memᴰ
use chip_chain_v.Image.Data.{
  Region, Mapping, check_mapping, is_relocated, kind_matches, identity_mapping,
  declared_identity_mapping, validate_source, Segment, ImageIdentity, identity_regions, covers,
  translate, elf_address,
}
use chip_chain_v.Image.Unique.{
  sorted_by-Memᴰ, Memᴰ-sorted_by, overlapping_unique, check_mapping-IsUnambiguous, covers-only,
}

-- In an accepted mapping, every nonempty span inside a region is translated, by the offset of this
-- region.
pub elf_address-region :
    (m : Mapping) (r : Region) (pc n : ℕ)
    → check_mapping m ≡ ok tt
    → Memᴰ r m.regions
    → 0 < n
    → r.runtime_base ≤ pc
    → pc + n ≤ r.runtime_base + r.size
    → elf_address m pc n ≡ ok (r.elf_virtual_base + pc - r.runtime_base)
unfolding elf_address covers translate
elf_address-region m r pc n accepted inside nonempty above below =
    let u = check_mapping-IsUnambiguous m accepted in
    let one = covers-only pc n nonempty m.regions r u.by_runtime inside (ground arith) in
    let valid : ltb 0 n ≡ true = ground arith in simp (valid, one)

-- A translated span lies in a region, and its address is that of the region's offset.
pub record IsTranslated (m : Mapping) (pc n a : ℕ) : Type 0 where
  pub region : Region
  pub inside : Memᴰ region m.regions
  pub nonempty : 0 < n
  pub above : region.runtime_base ≤ pc
  pub below : pc + n ≤ region.runtime_base + region.size
  pub address : a ≡ region.elf_virtual_base + pc - region.runtime_base

translate-some :
    (pc : ℕ) (o : Option Region) {a : ℕ}
    → translate pc o ≡ ok a
    → (r : Region) × (o ≡ some r) × (a ≡ r.elf_virtual_base + pc - r.runtime_base)
unfolding translate
translate-some pc none h = cc
translate-some pc (some r) h = (r, refl, sym (ok-injective h))

covers-bounds :
    (pc n : ℕ) (r : Region)
    → covers pc n r ≡ true
    → (r.runtime_base ≤ pc) × (pc + n ≤ r.runtime_base + r.size)
unfolding covers
covers-bounds pc n r h = (ground arith, ground arith)

elf_address-IsTranslated :
    (m : Mapping) (pc n a : ℕ) → elf_address m pc n ≡ ok a → IsTranslated m pc n a
unfolding elf_address
elf_address-IsTranslated m pc n a h =
    let (valid, found) =
      require-eq-ok (ltb 0 n) "Invalid runtime instruction span"
        (translate pc (only (select (covers pc n) m.regions))) h in
    let (r, one, address) = translate-some pc (only (select (covers pc n) m.regions)) found in
    let (inside, covered) =
      select-Memᴰ (covers pc n) m.regions r (only-Memᴰ (select (covers pc n) m.regions) r one) in
    let (above, below) = covers-bounds pc n r covered in
    record {
      region = r;
      inside = inside;
      nonempty = ground arith;
      above = above;
      below = below;
      address = address;
    }

-- In an accepted mapping, two spans that are translated to one address start at one address.
pub elf_address-injective :
    (m : Mapping) (pc n pc' n' a : ℕ)
    → check_mapping m ≡ ok tt
    → elf_address m pc n ≡ ok a
    → elf_address m pc' n' ≡ ok a
    → pc ≡ pc'
elf_address-injective m pc n pc' n' a accepted h h' =
    let u = check_mapping-IsUnambiguous m accepted in
    let t = elf_address-IsTranslated m pc n a h in
    let s = elf_address-IsTranslated m pc' n' a h' in
    let same : t.region ≡ s.region =
      overlapping_unique (λ r. r.elf_virtual_base) (sorted_by (λ r. r.elf_virtual_base) m.regions)
        t.region s.region a u.by_elf
        (sorted_by-Memᴰ (λ r. r.elf_virtual_base) m.regions t.region t.inside)
        (sorted_by-Memᴰ (λ r. r.elf_virtual_base) m.regions s.region s.inside)
        (omega (arith, t.address, t.above, t.below, t.nonempty))
        (omega (arith, t.address, t.above, t.below, t.nonempty))
        (omega (arith, s.address, s.above, s.below, s.nonempty))
        (omega (arith, s.address, s.above, s.below, s.nonempty)) in
    let elf = ap (λ r. r.elf_virtual_base) same in
    let base = ap (λ r. r.runtime_base) same in
    omega (arith, t.address, s.address, t.above, s.above, elf, base)

any-Memᴰ {ℓ} :
    {A : Type ℓ} (p : A → Bool) (xs : List A) (a : A) → any p xs ≡ false → Memᴰ a xs → p a ≡ false
any-Memᴰ p [] a h m = absurd (Memᴰ.not-nil m)
any-Memᴰ p (x ∷ xs) a h m = elim (Memᴰ.cases_cons m) [
  | inl e ↦ subst (λ y. p y ≡ false) (sym e) (ground arith)
  | inr later ↦ any-Memᴰ p xs a (ground arith) later
]

not_relocated : (r : Region) → is_relocated r ≡ false → r.runtime_base ≡ r.elf_virtual_base
unfolding is_relocated
not_relocated r h = ground arith

identity-unmoved :
    (i : ImageIdentity) (r : Region)
    → check_mapping (identity_mapping i) ≡ ok tt
    → Memᴰ r (identity_mapping i).regions
    → r.runtime_base ≡ r.elf_virtual_base
unfolding check_mapping kind_matches
identity-unmoved i r h m =
    let unmoved : any is_relocated (identity_mapping i).regions ≡ false = ground arith in
    not_relocated r (any-Memᴰ is_relocated (identity_mapping i).regions r unmoved m)

-- What a declared identity mapping is.
declared_identity_mapping-eq :
    (i : ImageIdentity) (m : Mapping)
    → declared_identity_mapping i ≡ ok m
    → (check_mapping (identity_mapping i) ≡ ok tt) × (identity_mapping i ≡ m)
unfolding declared_identity_mapping
declared_identity_mapping-eq i m declared =
    let (_, checked, h) = >>=-eq-ok (check_mapping (identity_mapping i)) _ declared in
    let (_, sourced, h) = >>=-eq-ok (validate_source (identity_mapping i) i) _ h in
    (checked, ok-injective h)

-- An executable segment of the file whose bytes hold the span of `n` bytes from `pc`.
pub record Holds (i : ImageIdentity) (pc n : ℕ) (s : Segment) : Type 0 where
  pub inside : Memᴰ s i.segments
  pub executable : s.executable ≡ true
  pub above : s.virtual_address ≤ pc
  pub below : pc + n ≤ s.virtual_address + s.file_size

abbrev region_of : Segment → Region
region_of s = record {
  runtime_base = s.virtual_address;
  elf_virtual_base = s.virtual_address;
  size = s.file_size;
}

abbrev is_loaded : Segment → Bool
is_loaded s = s.executable && not (s.file_size == 0)

-- The regions of an identity mapping are those of the executable segments that are not empty.
region-segment :
    (ss : List Segment) (r : Region)
    → Memᴰ r (identity_regions ss)
    → (s : Segment) × Memᴰ s ss × (s.executable ≡ true) × (r ≡ region_of s)
unfolding identity_regions
region-segment ss r m =
    let sorted = sorted_by (λ s. s.virtual_address) ss in
    let (s, chosen, same) = Memᴰ-map_in region_of (select is_loaded sorted) r m in
    let (listed, loaded) = select-Memᴰ is_loaded sorted s chosen in
    let (executable, _) = and_split s.executable (not (s.file_size == 0)) loaded in
    (s, Memᴰ-sorted_by (λ q. q.virtual_address) ss s listed, executable, same)

segment-region :
    (ss : List Segment) (s : Segment)
    → Memᴰ s ss
    → is_loaded s ≡ true
    → Memᴰ (region_of s) (identity_regions ss)
unfolding identity_regions
segment-region ss s m loaded =
    let sorted = sorted_by (λ q. q.virtual_address) ss in
    Memᴰ-map_out region_of (select is_loaded sorted) s
      (Memᴰ-select is_loaded sorted s (sorted_by-Memᴰ (λ q. q.virtual_address) ss s m) loaded)

-- Where the mapping declared as the identity of a file is accepted and translates a span, the address
-- is unchanged, and the bytes of an executable segment of the file hold the span.
pub declared_identity_mapping-elf_address :
    (i : ImageIdentity) (m : Mapping) (pc n a : ℕ)
    → declared_identity_mapping i ≡ ok m
    → elf_address m pc n ≡ ok a
    → (s : Segment) × (a ≡ pc) × Holds i pc n s
declared_identity_mapping-elf_address i m pc n a declared h =
    let (checked, same) = declared_identity_mapping-eq i m declared in
    let t = elf_address-IsTranslated m pc n a h in
    let listed = subst (λ k. Memᴰ t.region k.regions) (sym same) t.inside in
    let unmoved = identity-unmoved i t.region checked listed in
    let (s, inside, executable, region) = region-segment i.segments t.region listed in
    let base = ap (λ r. r.runtime_base) region in
    let size = ap (λ r. r.size) region in
    (
      s,
      omega (arith, t.address, t.above, unmoved),
      record {
        inside = inside;
        executable = executable;
        above = omega (arith, t.above, base);
        below = omega (arith, t.below, base, size);
      },
    )

-- Where the mapping declared as the identity of a file is accepted, it translates every nonempty span
-- that the bytes of an executable segment of the file hold, to the address where it starts.
pub declared_identity_mapping-Holds :
    (i : ImageIdentity) (m : Mapping) (pc n : ℕ) (s : Segment)
    → declared_identity_mapping i ≡ ok m
    → 0 < n
    → Holds i pc n s
    → elf_address m pc n ≡ ok pc
declared_identity_mapping-Holds i m pc n s declared nonempty h =
    let (checked, same) = declared_identity_mapping-eq i m declared in
    let filled : not (s.file_size == 0) ≡ true = ground (arith, h.above, h.below) in
    let loaded : is_loaded s ≡ true = simp (h.executable, filled) in
    let listed = segment-region i.segments s h.inside loaded in
    let found =
      elf_address-region (identity_mapping i) (region_of s) pc n checked listed nonempty h.above
        h.below in
    let offset : s.virtual_address + pc - s.virtual_address ≡ pc = omega arith in
    subst (λ k. elf_address k pc n ≡ ok pc) same (found ∙ ap ok offset)
