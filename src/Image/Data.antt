-- ===== src/Image/Data.antt =====
-- Regions, mappings, their checks and the translation of an address.
use chip_chain_v.Prelude.{
  ℕ, ℕ_eq, ◌+◌, ◌-◌, ◌^◌, leb, ltb, String, String_eq, Bool, true, false, not, ◌&&◌, ◌||◌, ◌==◌,
  Option, none, some, List, [], ◌∷◌, map, select, any, all, length, only, Result, ok, err, ◌>>◌,
  require, sorted_by,
}

-- `RuntimeImageRegion`
pub record Region : Type 0 where
  pub runtime_base : ℕ
  pub elf_virtual_base : ℕ
  pub size : ℕ

pub data MappingKind : Type 0 where
  identity relocated : MappingKind

-- `RuntimeImageMapping`
pub record Mapping : Type 0 where
  pub firmware_sha256 : String
  pub mapping_kind : MappingKind
  pub regions : List Region

-- The segments of an ELF file, with the test `flags & 1`, and the identity of the file.
pub record Segment : Type 0 where
  pub virtual_address : ℕ
  pub file_size : ℕ
  pub executable : Bool

pub record ImageIdentity : Type 0 where
  pub sha256 : String
  pub bit_width : ℕ
  pub segments : List Segment

abbrev pub region_eq : Region → Region → Bool
region_eq a b =
    a.runtime_base == b.runtime_base && a.elf_virtual_base == b.elf_virtual_base && a.size == b.size

-- `==` between two tuples of regions.
unfoldable pub regions_eq : List Region → List Region → Bool
regions_eq [] [] = true
regions_eq (r ∷ rs) (q ∷ qs) = region_eq r q && regions_eq rs qs
regions_eq _ _ = false

unfoldable pub is_relocated : Region → Bool
is_relocated r = not (r.runtime_base == r.elf_virtual_base)

unfoldable pub kind_matches : MappingKind → List Region → Bool
kind_matches identity rs = not (any is_relocated rs)
kind_matches relocated rs = any is_relocated rs

abbrev pub kind_reason : MappingKind → String
kind_reason identity = "Identity mapping cannot relocate an image"
kind_reason relocated = "Relocated mapping must declare a non-identity range"

-- `any(key(a) + a.size > key(b) for a, b in zip(ordered, ordered[1:]))`
unfoldable pub overlapping : (Region → ℕ) → List Region → Bool
overlapping key (a ∷ b ∷ rest) = ltb (key b) (key a + a.size) || overlapping key (b ∷ rest)
overlapping key _ = false

abbrev pub is_filled : List Region → Bool
is_filled [] = false
is_filled (r ∷ rs) = true

-- The fields' bounds and the validator `unambiguous`.
unfoldable pub check_mapping : Mapping → Result (Unit {0})
check_mapping m = do
  require (all (λ r. ltb 0 r.size) m.regions) "Input should be greater than 0"
  require (is_filled m.regions) "Runtime image mapping requires explicit regions"
  require (regions_eq m.regions (sorted_by (λ r. r.runtime_base) m.regions))
      "Runtime image mapping regions must be canonically ordered"
  require (kind_matches m.mapping_kind m.regions) (kind_reason m.mapping_kind)
  require (not (overlapping (λ r. r.runtime_base) (sorted_by (λ r. r.runtime_base) m.regions)))
      "Ambiguous runtime image mapping ranges"
  require
      (not (overlapping (λ r. r.elf_virtual_base) (sorted_by (λ r. r.elf_virtual_base) m.regions)))
      "Ambiguous runtime image mapping ranges"

-- The executable bytes of the file contain the region.
unfoldable pub backs : Region → Segment → Bool
backs r s =
    s.executable
    && leb s.virtual_address r.elf_virtual_base
    && leb (r.elf_virtual_base + r.size) (s.virtual_address + s.file_size)

-- The loop of `validate_source`.
unfoldable pub check_regions : ImageIdentity → List Region → Result (Unit {0})
check_regions i [] = ok tt
check_regions i (r ∷ rs) = do
  require
      (leb (r.runtime_base + r.size) (2 ^ i.bit_width)
        && leb (r.elf_virtual_base + r.size) (2 ^ i.bit_width))
      "Runtime image mapping exceeds source address width"
  require (length (select (backs r) i.segments) == 1)
      "Runtime image mapping is not uniquely backed by executable ELF bytes"
  check_regions i rs

unfoldable pub validate_source : Mapping → ImageIdentity → Result (Unit {0})
validate_source m i = do
  require (m.firmware_sha256 == i.sha256) "Runtime image mapping firmware identity mismatch"
  check_regions i m.regions

-- The region holds the span of the instruction.
unfoldable pub covers : ℕ → ℕ → Region → Bool
covers pc n r = leb r.runtime_base pc && leb (pc + n) (r.runtime_base + r.size)

unfoldable pub translate : ℕ → Option Region → Result ℕ
translate pc none = err "Runtime instruction has no unambiguous declared image mapping"
translate pc (some r) = ok (r.elf_virtual_base + pc - r.runtime_base)

unfoldable pub elf_address : Mapping → ℕ → ℕ → Result ℕ
elf_address m pc n = do
  require (ltb 0 n) "Invalid runtime instruction span"
  translate pc (only (select (covers pc n) m.regions))

unfoldable pub identity_regions : List Segment → List Region
identity_regions ss =
    map
      (λ s. record {
        runtime_base = s.virtual_address;
        elf_virtual_base = s.virtual_address;
        size = s.file_size;
      })
      (select (λ s. s.executable && not (s.file_size == 0)) (sorted_by (λ s. s.virtual_address) ss))

abbrev pub identity_mapping : ImageIdentity → Mapping
identity_mapping i = record {
  firmware_sha256 = i.sha256;
  mapping_kind = identity;
  regions = identity_regions i.segments;
}

-- `declared_identity_mapping`
unfoldable pub declared_identity_mapping : ImageIdentity → Result Mapping
declared_identity_mapping i = do
  check_mapping (identity_mapping i)
  validate_source (identity_mapping i) i
  ok (identity_mapping i)
