-- ===== src/Matching/Sound.antt =====
-- What a supported candidate rests on.
use chip_chain_v.Prelude.{
  ℕ, ℕ_eq, ◌≡◌, refl, String_eq, Bool, true, false, not, ◌||◌, option_eq, Option, none, some, List,
  any, select, select-Memᴰ, is_nonempty, nonempty-Memᴰ, if◌then◌else◌, Memᴰ, Bool-cases, inl, inr,
  arith, and_split, option_eq-some,
}
use chip_chain_v.Matching.Data.{
  ValueConstraint, satisfies, MmioAtom, Item, supported, contradicted, unknown, ambiguous,
}
use chip_chain_v.Matching.Judge.{
  mmio_allows, is_supported, is_contradicted, is_ambiguous, Fate, is_compatible, is_conflicted,
  is_undetermined, value_fate, width_conflicts, width_missing, mmio_fate, mmio_eligible, with_fate,
  mmio_status,
}

-- The item's width is the required one.
abbrev HasWidth : Option ℕ → Option ℕ → Type 0
HasWidth none width = Unit
HasWidth (some w) width = width ≡ some w

-- The item's exact value meets the constraint.
abbrev HasValue : Option ValueConstraint → Option ℕ → Type 0
HasValue none value = Unit
HasValue (some v) value = (x : ℕ) × (value ≡ some x) × (satisfies v x ≡ true)

-- The item establishes the access that the atom requires.
pub record Establishes (a : MmioAtom) (i : Item) : Type 0 where
  pub address : i.address ≡ some a.address
  pub access : mmio_allows a.access i.kind ≡ true
  pub bound : is_supported i ≡ true
  pub width : HasWidth a.width_bits i.width
  pub value : HasValue a.value_constraint i.value

value_fate-compatible :
    (v : Option ValueConstraint) (x : Option ℕ) → value_fate v x ≡ Fate.compatible → HasValue v x
unfolding value_fate
value_fate-compatible none x h = tt
value_fate-compatible (some v) none h = cc
value_fate-compatible (some v) (some x) h = (x, refl, ground arith)

width_ok : (w v : Option ℕ) → width_conflicts w v ≡ false → width_missing w v ≡ false → HasWidth w v
width_ok none v h k = tt
width_ok (some w) none h k = cc
width_ok (some w) (some v) h k = ground arith

-- What the tests before the value say, where the fate is compatible.
fate_lem :
    (s c w m : Bool) (rest : Fate)
    → (if not (s || c)
        then Fate.undetermined
        else if c || w
        then Fate.conflicted
        else if m
        then Fate.undetermined
        else rest)
      ≡ Fate.compatible
    → (s ≡ true) × (w ≡ false) × (m ≡ false) × (rest ≡ Fate.compatible)
fate_lem true false false false rest h = (refl, refl, refl, h)
fate_lem true true w m rest h = cc
fate_lem true false true m rest h = cc
fate_lem true false false true rest h = cc
fate_lem false true w m rest h = cc
fate_lem false false w m rest h = cc

fate-Establishes :
    (a : MmioAtom) (i : Item)
    → mmio_eligible a i ≡ true
    → is_compatible (mmio_fate a i) ≡ true
    → Establishes a i
unfolding mmio_fate
fate-Establishes a i eligible h =
    let (s, w, m, v) =
      fate_lem (is_supported i) (is_contradicted i) (width_conflicts a.width_bits i.width)
        (width_missing a.width_bits i.width) (value_fate a.value_constraint i.value)
        (compatible_only (mmio_fate a i) h) in
    let (address, access) = and_split (option_eq i.address (some a.address)) _ eligible in
    record {
      address = option_eq-some i.address a.address address;
      access = access;
      bound = s;
      width = width_ok a.width_bits i.width w m;
      value = value_fate-compatible a.value_constraint i.value v;
    }
  where
    compatible_only : (f : Fate) → is_compatible f ≡ true → f ≡ Fate.compatible
    compatible_only Fate.compatible e = refl
    compatible_only Fate.conflicted e = cc
    compatible_only Fate.undetermined e = cc

-- A supported MMIO condition has an item that establishes it.
pub mmio_status-supported :
    (a : MmioAtom) (options : List Item)
    → mmio_status a options ≡ supported
    → (i : Item) × Memᴰ i options × Establishes a i
unfolding mmio_status
mmio_status-supported a options h =
    elim (Bool-cases (is_nonempty (with_fate is_compatible a options))) [
      | inl some_hit ↦
          let (i, hit) = nonempty-Memᴰ (with_fate is_compatible a options) some_hit in
          let (eligible, fate) =
            select-Memᴰ (λ j. is_compatible (mmio_fate a j)) (select (mmio_eligible a) options) i
              hit in
          let (inside, right) = select-Memᴰ (mmio_eligible a) options i eligible in
          (i, inside, fate-Establishes a i right fate)
      | inr no_hit ↦ absurd (
          weaker (is_nonempty (with_fate is_conflicted a options))
            (any is_ambiguous (with_fate is_undetermined a options)) (simp no_hit at h))
    ]
  where
    weaker :
        (c u : Bool)
        → (if c then contradicted else if u then ambiguous else unknown) ≡ supported
        → ⊥
    weaker true u e = cc
    weaker false true e = cc
    weaker false false e = cc
