-- ===== src/Prelude/Results.antt =====
-- Code that may raise `ValueError(reason)`.
use Prim.Native.String.{String}
use mathlib.Core.Path.{◌≡◌, refl, sym, ap, ◌∙◌, subst}
use mathlib.Core.Logic.{◌⊎◌, inl, inr}
use mathlib.Core.Bool.{Bool, true, false}
use mathlib.Core.List.{List, [], ◌∷◌, Memᴰ}
use mathlib.Core.List.Memᴰ
use Prim.Native.Nat.{suc}
use chip_chain_v.Prelude.Lists.{length}

pub data Result {ℓ} (A : Type ℓ) : Type ℓ where
  ok : A → Result A
  err : String → Result A

-- The rest of a block runs only after a success.
infixl 5 ◌>>=◌ ◌>>◌
abbrev pub ◌>>=◌ {ℓ κ} : {A : Type ℓ} {C : Type κ} → Result A → (A → Result C) → Result C
err reason >>= next = err reason
ok x >>= next = next x

abbrev pub ◌>>◌ {ℓ} : {C : Type ℓ} → Result (Unit {0}) → Result C → Result C
check >> rest = check >>= λ done. rest

-- `require(ok, reason)`.
abbrev pub require : Bool → String → Result (Unit {0})
require true reason = ok tt
require false reason = err reason

-- What a successful block went through.
pub >>=-eq-ok {ℓ κ} :
    {A : Type ℓ} {C : Type κ} (first : Result A) (next : A → Result C) {c : C}
    → (first >>= next) ≡ ok c
    → (x : A) × (first ≡ ok x) × (next x ≡ ok c)
>>=-eq-ok (err reason) next h = cc
>>=-eq-ok (ok x) next h = (x, refl, h)

pub require-eq-ok {ℓ} :
    {B : Type ℓ} (test : Bool) (reason : String) (k : Result B) {b : B}
    → (require test reason >> k) ≡ ok b
    → (test ≡ true) × (k ≡ ok b)
require-eq-ok true reason k h = (refl, h)
require-eq-ok false reason k h = cc

pub ok-injective {ℓ} : {A : Type ℓ} {a b : A} → ok a ≡ ok b → a ≡ b
ok-injective {A} {a} {b} h = ap {A = Result A} (λ r. elim r [ ok x ↦ x | err reason ↦ a ]) h

-- The call returns.
abbrev pub Returns {ℓ} : {A : Type ℓ} → Result A → Type ℓ
Returns {A} m = (a : A) × (m ≡ ok a)

pub Returns->>= {ℓ κ} :
    {A : Type ℓ} {C : Type κ} (m : Result A) (f : A → Result C)
    → Returns m
    → ((a : A) → m ≡ ok a → Returns (f a))
    → Returns (m >>= f)
Returns->>= m f (a, h) k = let (b, g) = k a h in (b, rw h g)

-- `[f(x) for x in xs]`, where a call may raise.
unfoldable pub traverse {ℓ κ} :
    {A : Type ℓ} {B : Type κ} → (A → Result B) → List A → Result (List B)
traverse f [] = ok []
traverse f (x ∷ xs) = do y ← f x; ys ← traverse f xs; ok (y ∷ ys)

pub traverse-Returns {ℓ κ} :
    {A : Type ℓ} {B : Type κ} (f : A → Result B) (xs : List A)
    → ((x : A) → Returns (f x))
    → Returns (traverse f xs)
unfolding traverse
traverse-Returns f [] h = ([], refl)
traverse-Returns f (x ∷ xs) h =
    let (y, one) = h x in let (ys, rest) = traverse-Returns f xs h in (y ∷ ys, simp (one, rest))

-- It is enough that the calls on the elements return.
pub traverse-Returns_inside {ℓ κ} :
    {A : Type ℓ} {B : Type κ} (f : A → Result B) (xs : List A)
    → ((x : A) → Memᴰ x xs → Returns (f x))
    → Returns (traverse f xs)
unfolding traverse
traverse-Returns_inside f [] h = ([], refl)
traverse-Returns_inside f (x ∷ xs) h =
    let (y, one) = h x (Memᴰ.head refl) in
    let (ys, rest) = traverse-Returns_inside f xs (λ z m. h z (Memᴰ.tail m)) in
    (y ∷ ys, simp (one, rest))

-- Each result is that of a call.
pub traverse-Memᴰ {ℓ κ} :
    {A : Type ℓ} {B : Type κ} (f : A → Result B) (xs : List A) (ys : List B) (y : B)
    → traverse f xs ≡ ok ys
    → Memᴰ y ys
    → (x : A) × Memᴰ x xs × (f x ≡ ok y)
unfolding traverse
traverse-Memᴰ f [] ys y h m = absurd (Memᴰ.not-nil (subst (Memᴰ y) (sym (ok-injective h)) m))
traverse-Memᴰ f (x ∷ xs) ys y h m =
    let (z, one, h1) = >>=-eq-ok (f x) _ h in
    let (zs, more, h2) = >>=-eq-ok (traverse f xs) _ h1 in
    elim (Memᴰ.cases_cons (subst (Memᴰ y) (sym (ok-injective h2)) m)) [
      | inl same ↦ (x, Memᴰ.head refl, one ∙ ap ok (sym same))
      | inr later ↦
          let (w, inside, found) = traverse-Memᴰ f xs zs y more later in
          (w, Memᴰ.tail inside, found)
    ]

-- Each element's call returned.
pub traverse-each {ℓ κ} :
    {A : Type ℓ} {B : Type κ} (f : A → Result B) (xs : List A) (x : A) {ys : List B}
    → traverse f xs ≡ ok ys
    → Memᴰ x xs
    → Returns (f x)
unfolding traverse
traverse-each f [] x h m = absurd (Memᴰ.not-nil m)
traverse-each f (z ∷ xs) x h m =
    let (y, one, h1) = >>=-eq-ok (f z) _ h in
    let (ys, more, h2) = >>=-eq-ok (traverse f xs) _ h1 in
    elim (Memᴰ.cases_cons m) [
      | inl same ↦ (y, ap f same ∙ one)
      | inr later ↦ traverse-each f xs x more later
    ]

pub Result-cases {ℓ} :
    {A : Type ℓ} (m : Result A) → Returns m ⊎ ((reason : String) × (m ≡ err reason))
Result-cases (ok a) = inl (a, refl)
Result-cases (err reason) = inr (reason, refl)

-- The result of an element's call is one of the results.
pub traverse-in {ℓ κ} :
    {A : Type ℓ} {B : Type κ} (f : A → Result B) (xs : List A) (x : A) {ys : List B}
    → traverse f xs ≡ ok ys
    → Memᴰ x xs
    → (y : B) × (f x ≡ ok y) × Memᴰ y ys
unfolding traverse
traverse-in f [] x h m = absurd (Memᴰ.not-nil m)
traverse-in f (z ∷ xs) x h m =
    let (y, one, h1) = >>=-eq-ok (f z) _ h in
    let (ys, more, h2) = >>=-eq-ok (traverse f xs) _ h1 in
    elim (Memᴰ.cases_cons m) [
      | inl same ↦ (y, ap f same ∙ one, subst (Memᴰ y) (ok-injective h2) (Memᴰ.head refl))
      | inr later ↦
          let (w, found, inside) = traverse-in f xs x more later in
          (w, found, subst (Memᴰ w) (ok-injective h2) (Memᴰ.tail inside))
    ]

abbrev pub is_ok {ℓ} : {A : Type ℓ} → Result A → Bool
is_ok (ok a) = true
is_ok (err reason) = false

-- What a call returns that returns.
abbrev pub value_of {ℓ} : {A : Type ℓ} (m : Result A) → is_ok m ≡ true → A
value_of (ok a) h = a
value_of (err reason) h = cc

pub value_of-ok {ℓ} : {A : Type ℓ} (m : Result A) (h : is_ok m ≡ true) → m ≡ ok (value_of m h)
value_of-ok (ok a) h = refl
value_of-ok (err reason) h = cc

pub traverse-length {ℓ κ} :
    {A : Type ℓ} {B : Type κ} (f : A → Result B) (xs : List A) (ys : List B)
    → traverse f xs ≡ ok ys
    → length ys ≡ length xs
unfolding traverse
traverse-length f [] ys h = ap length (sym (ok-injective h))
traverse-length f (x ∷ xs) ys h =
    let (y, _, h1) = >>=-eq-ok (f x) _ h in
    let (rest, more, h2) = >>=-eq-ok (traverse f xs) _ h1 in
    ap length (sym (ok-injective h2)) ∙ ap suc (traverse-length f xs rest more)
