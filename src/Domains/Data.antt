-- ===== src/Domains/Data.antt =====
-- A domain, the checks that it passes, and the comparison of two domains.
use chip_chain_v.Prelude.{
  ℕ, ℕ_eq, zero, suc, ◌+◌, ◌*◌, ◌/◌, ◌%◌, ◌^◌, leb, ltb, String, Bool, true, not, ◌&&◌, ◌||◌, ◌==◌,
  is_some, iff, Option, none, some, [], ◌∷◌, all, if◌then◌else◌, Result, ok, ◌>>◌, require,
}

pub data Outcome : Type 0 where
  compatible incompatible unknown : Outcome

pub data Coverage : Type 0 where
  checked missing unsupported : Coverage

-- `FieldComparison`
pub record FieldComparison : Type 0 where
  pub dimension : String
  pub outcome : Outcome
  pub reason : String
  pub coverage : Coverage

-- `NumericDomain`
pub record NumericDomain : Type 0 where
  pub exact : Option ℕ
  pub minimum : Option ℕ
  pub maximum : Option ℕ
  pub mask : Option ℕ
  pub masked_value : Option ℕ
  pub controlled_bits : Option ℕ
  pub bit_width : Option ℕ

-- `a & b`, for an `a` of at most `bits` bits.
unfoldable pub bit_and : ℕ → ℕ → ℕ → ℕ
bit_and zero a b = 0
bit_and (suc bits) a b = (a % 2) * (b % 2) + 2 * bit_and bits (a / 2) (b / 2)

-- A number has at most as many bits as its value.
unfoldable pub and_numbers : ℕ → ℕ → ℕ
unfolding bit_and
and_numbers a b = bit_and a a b

-- `not self.masked_value & ~self.mask`: each bit of the value is a bit of the mask.
unfoldable pub fits_mask : Option ℕ → Option ℕ → Bool
fits_mask (some mask) (some value) = and_numbers value mask == value
fits_mask _ _ = true

unfoldable pub is_ordered : Option ℕ → Option ℕ → Bool
is_ordered (some a) (some b) = leb a b
is_ordered _ _ = true

abbrev pub below_width : ℕ → Option ℕ → Bool
below_width w none = true
below_width w (some x) = ltb x (2 ^ w)

unfoldable pub is_narrow : Option ℕ → Bool
is_narrow none = true
is_narrow (some w) = leb w 64

unfoldable pub fits_width : NumericDomain → Bool
fits_width d = elim d.bit_width [
  | none ↦ true
  | some w ↦
      all (below_width w)
        (d.exact ∷ d.minimum ∷ d.maximum ∷ d.mask ∷ d.masked_value ∷ d.controlled_bits ∷ [])
]

-- The bounds of the fields: `Unsigned`, and `Positive` for the width.
abbrev is_unsigned : Option ℕ → Bool
is_unsigned none = true
is_unsigned (some x) = leb x 0xffffffffffffffff

abbrev is_positive_width : Option ℕ → Bool
is_positive_width none = true
is_positive_width (some w) = ltb 0 w

unfoldable pub fields_bounded : NumericDomain → Bool
fields_bounded d =
    all is_unsigned
      (d.exact ∷ d.minimum ∷ d.maximum ∷ d.mask ∷ d.masked_value ∷ d.controlled_bits ∷ [])
    && is_positive_width d.bit_width

unfoldable pub agrees_with_mask : Option ℕ → Option ℕ → Option ℕ → Bool
agrees_with_mask (some x) (some mask) (some value) = and_numbers x mask == value
agrees_with_mask _ _ _ = true

-- The bounds of the fields and the validator `consistency`.
unfoldable pub check_domain : NumericDomain → Result (Unit {0})
check_domain d = do
  require (fields_bounded d) "Input should be less than or equal to 18446744073709551615"
  require (iff (is_some d.minimum) (is_some d.maximum)) "Range requires both endpoints"
  require (is_ordered d.minimum d.maximum) "Reversed range"
  require (not (is_some d.exact && is_some d.minimum)) "Choose exact value or range"
  require (iff (is_some d.mask) (is_some d.masked_value)) "Mask requires masked value"
  require (fits_mask d.mask d.masked_value) "Masked value exceeds mask"
  require (not (is_some d.controlled_bits) || is_some d.bit_width)
      "Controlled bits require explicit bit width"
  require (is_narrow d.bit_width) "CAP0 numeric domains support up to 64 bits"
  require (fits_width d) "Numeric domain exceeds bit width"
  require (agrees_with_mask d.exact d.mask d.masked_value) "Exact and masked values disagree"
  require (is_some d.exact || is_some d.minimum || is_some d.mask || is_some d.controlled_bits)
      "Empty numeric domain"

-- `bounds`. A domain with one endpoint has failed its check.
unfoldable pub bounds : Option ℕ → Option ℕ → Option ℕ → Option (ℕ × ℕ)
bounds (some x) minimum maximum = some (x, x)
bounds none (some a) (some b) = some (a, b)
bounds none _ _ = none

abbrev pub bounds_of : NumericDomain → Option (ℕ × ℕ)
bounds_of d = bounds d.exact d.minimum d.maximum

abbrev pub unknown_field : String → String → Coverage → FieldComparison
unknown_field dimension reason coverage = record {
  dimension = dimension;
  outcome = unknown;
  reason = reason;
  coverage = coverage;
}

-- The comparison of the endpoints; `contains_all` is the quantifier.
unfoldable pub compare_bounds : Bool → String → Option (ℕ × ℕ) → Option (ℕ × ℕ) → FieldComparison
compare_bounds contains_all dimension (some fw) (some hw) =
    if not (hw.0 == hw.1) && not contains_all
    then unknown_field dimension "RANGE_QUANTIFIER_UNSPECIFIED" unsupported
    else if leb fw.0 hw.0 && leb hw.1 fw.1
    then record {
      dimension = dimension;
      outcome = compatible;
      reason = "REQUIRED_DOMAIN_CONTAINED";
      coverage = checked;
    }
    else record {
      dimension = dimension;
      outcome = incompatible;
      reason = "REQUIRED_DOMAIN_NOT_CONTAINED";
      coverage = checked;
    }
compare_bounds contains_all dimension _ _ = unknown_field dimension "MISSING_NUMERIC_BOUNDS" missing

-- `compare_numeric_domains`
unfoldable pub compare_numeric_domains :
    Bool → String → Option NumericDomain → Option NumericDomain → Result FieldComparison
unfolding compare_bounds
compare_numeric_domains contains_all dimension (some provided) (some required) = do
  check_domain provided
  check_domain required
  ok (
      if is_some provided.mask || is_some required.mask
      then unknown_field dimension "MASK_DOMAIN_NOT_SUPPORTED" unsupported
      else compare_bounds contains_all dimension (bounds_of provided) (bounds_of required))
compare_numeric_domains contains_all dimension _ _ =
    ok (unknown_field dimension "MISSING_NUMERIC_DOMAIN" missing)
