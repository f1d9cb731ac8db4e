-- ===== src/Prelude/Text.antt =====
-- Python's text functions: decimal numerals, the order of texts, `sorted` and `sorted(set(...))`.
use Prim.Native.Nat.{ℕ, zero, suc, ◌/◌, ◌%◌, Ordering}
use Prim.Native.String.{String, ◌++◌, compare}
use mathlib.Core.Path.{◌≡◌}
use mathlib.Core.Bool.{Bool, true, false}
use mathlib.Core.List.{List, [], ◌∷◌}
use native.Mathlib.Omega.{arith}
use chip_chain_v.Prelude.Tests.{ltb, leb, if◌then◌else◌}
use chip_chain_v.Prelude.Lists.{is_nonempty}

abbrev digit : ℕ → String
digit zero = "0"
digit (suc zero) = "1"
digit (suc (suc zero)) = "2"
digit (suc (suc (suc zero))) = "3"
digit (suc (suc (suc (suc zero)))) = "4"
digit (suc (suc (suc (suc (suc zero))))) = "5"
digit (suc (suc (suc (suc (suc (suc zero)))))) = "6"
digit (suc (suc (suc (suc (suc (suc (suc zero))))))) = "7"
digit (suc (suc (suc (suc (suc (suc (suc (suc zero)))))))) = "8"
digit _ = "9"

-- A number has at most as many digits as its value plus one.
decimal_from : ℕ → ℕ → String
decimal_from zero n = ""
decimal_from (suc fuel) n =
    let front = decimal_from fuel (n / 10) in if ltb n 10 then digit n else front ++ digit (n % 10)

-- `str(n)`.
unfoldable pub decimal : ℕ → String
unfolding decimal_from
decimal n = decimal_from (suc n) n

-- `s <= t` and `s == t`.
abbrev pub text_order : String → String → Ordering
text_order s t = compare s t

-- `sorted(set(texts))`: insertion into an ordered list without repetitions.
unfoldable pub insert_text : String → List String → List String
insert_text s [] = s ∷ []
insert_text s (t ∷ ts) =
    let later = insert_text s ts in
    elim (text_order s t) [
      | Ordering.lt ↦ s ∷ t ∷ ts
      | Ordering.eq ↦ t ∷ ts
      | Ordering.gt ↦ t ∷ later
    ]

unfoldable pub sorted_set : List String → List String
unfolding insert_text
sorted_set [] = []
sorted_set (s ∷ ss) = insert_text s (sorted_set ss)

-- `sorted(texts)`: insertion that keeps repetitions.
unfoldable pub insert_sorted : String → List String → List String
insert_sorted s [] = s ∷ []
insert_sorted s (t ∷ ts) =
    let later = insert_sorted s ts in
    elim (text_order s t) [ Ordering.gt ↦ t ∷ later | _ ↦ s ∷ t ∷ ts ]

unfoldable pub sorted_texts : List String → List String
unfolding insert_sorted
sorted_texts [] = []
sorted_texts (s ∷ ss) = insert_sorted s (sorted_texts ss)

-- A stable `sorted(xs, key=key)` for a number as the key.
module _ {ℓ} {A : Type ℓ} (key : A → ℕ) where
  unfoldable pub insert_by : A → List A → List A
  insert_by x [] = x ∷ []
  insert_by x (y ∷ ys) =
      let later = insert_by x ys in if leb (key x) (key y) then x ∷ y ∷ ys else y ∷ later

  unfoldable pub sorted_by : List A → List A
  unfolding insert_by
  sorted_by [] = []
  sorted_by (x ∷ xs) = insert_by x (sorted_by xs)

-- The order of texts, and of pairs of texts, that `sorted` uses.
abbrev pub text_leb : String → String → Bool
text_leb s t = elim (text_order s t) [ Ordering.gt ↦ false | _ ↦ true ]

abbrev pub pair_leb : String × String → String × String → Bool
pair_leb a b = elim (text_order a.0 b.0) [
  | Ordering.lt ↦ true
  | Ordering.eq ↦ text_leb a.1 b.1
  | Ordering.gt ↦ false
]

abbrev pub text_append : String → String → String
text_append s t = s ++ t

insert_text_nonempty : (s : String) (ts : List String) → is_nonempty (insert_text s ts) ≡ true
unfolding insert_text
insert_text_nonempty s [] = ground arith
insert_text_nonempty s (t ∷ ts) = ground arith

pub sorted_set_nonempty :
    (ss : List String) → is_nonempty ss ≡ true → is_nonempty (sorted_set ss) ≡ true
unfolding sorted_set
sorted_set_nonempty [] h = h
sorted_set_nonempty (s ∷ ss) h = insert_text_nonempty s (sorted_set ss)

decimal_test : decimal 20480 ≡ "20480"
unfolding decimal
decimal_test = ground arith
