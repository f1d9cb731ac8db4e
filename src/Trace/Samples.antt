-- ===== src/Trace/Samples.antt =====
-- The status samples and the transaction identifiers of an accepted run.
use mathlib.Core.List.{append-nil, append_assoc, map-append}
use chip_chain_v.Prelude.{
  ℕ, ◌≡◌, refl, ◌∙◌, ◌==◌, ◌&&◌, length, Bool, true, false, List, [], ◌∷◌, ◌++◌, map, select,
  Distinct, Distinct-snoc, contains, Bool-cases, inl, inr, ok, arith, ℕ_eq,
}
use chip_chain_v.Trace.Data.{
  Event, Row, Phase, request, status_sample, reset_assert, Parser, reset_step, bus_step, respond,
  step, run,
}
use chip_chain_v.Trace.Step.{step-eq-ok, run_induction}

abbrev pub is_sample : Phase → Bool
is_sample status_sample = true
is_sample _ = false

abbrev pub sample_cycles : List Event → List ℕ
sample_cycles es = map (λ e. e.cycle) (select (λ e. is_sample e.phase) es)

abbrev pub keys : Parser → List ℕ
keys s = map (λ p. p.0) s.samples

-- Neither an identifier nor a sampled cycle comes twice.
pub record IsUnique (s : Parser) : Type 0 where
  pub ids : Distinct s.seen
  pub cycles : Distinct (keys s)

pub record Sampled (s : Parser) (es : List Event) (t : Parser) : Type 0 where
  pub unique : IsUnique t
  pub noted : keys t ≡ keys s ++ sample_cycles es

bus_step-Sampled :
    (ph : Phase) (e : Event) (s t : Parser)
    → e.phase ≡ ph
    → IsUnique s
    → bus_step ph e s ≡ ok t
    → Sampled s (e ∷ []) t
unfolding bus_step respond
bus_step-Sampled request e s t ph u h =
    let fresh : contains s.seen e.transaction_id ≡ false = ground arith in
    let same : t.samples ≡ s.samples = ground arith in
    let more : t.seen ≡ s.seen ++ e.transaction_id ∷ [] = ground arith in
    record {
      unique = record {
        ids = rw more (Distinct-snoc s.seen _ u.ids fresh);
        cycles = rw same u.cycles;
      };
      noted = simp (same, ph, append-nil);
    }
bus_step-Sampled status_sample e s t ph u h =
    let fresh : contains (keys s) e.cycle ≡ false = ground arith in
    let more : t.samples ≡ s.samples ++ (e.cycle, e) ∷ [] = ground arith in
    let same : t.seen ≡ s.seen = ground arith in
    record {
      unique = record {
        ids = rw same u.ids;
        cycles = simp (more, map-append) (Distinct-snoc (keys s) e.cycle u.cycles fresh);
      };
      noted = simp (more, ph, map-append);
    }
bus_step-Sampled _ e s t ph u h =
    let same : t.samples ≡ s.samples = ground arith in
    let still : t.seen ≡ s.seen = ground arith in
    record {
      unique = record { ids = rw still u.ids; cycles = rw same u.cycles };
      noted = simp (same, ph, append-nil);
    }

reset_step-keeps :
    (ph : Phase) (e : Event) (s t : Parser)
    → reset_step ph e s ≡ ok t
    → (t.samples ≡ s.samples) × (t.seen ≡ s.seen)
unfolding reset_step
reset_step-keeps reset_assert e s t h = ground arith
reset_step-keeps _ e s t h = ground arith

step-Sampled :
    (n : ℕ) (e : Event) (s t : Parser) → IsUnique s → step n e s ≡ ok t → Sampled s (e ∷ []) t
step-Sampled n e s t u h =
    let (_, m, reset, bus) = step-eq-ok n e s h in
    let (same, still) = reset_step-keeps e.phase e (record s { last_cycle = e.cycle }) m reset in
    let l =
      bus_step-Sampled e.phase e m t refl
        (record { ids = rw still u.ids; cycles = rw same u.cycles }) bus in
    record { unique = l.unique; noted = l.noted ∙ simp same }

sample_cycles-cons :
    (e : Event) (es : List Event)
    → sample_cycles (e ∷ []) ++ sample_cycles es ≡ sample_cycles (e ∷ es)
sample_cycles-cons e es = elim (Bool-cases (is_sample e.phase)) [
  | inl hit ↦ simp hit
  | inr miss ↦ simp miss
]

-- A run notes the cycle of every sample, each once.
pub Sampled-run :
    (n : ℕ) (rows : List Row) (s : Parser) {r : Parser × List Event}
    → run n rows s ≡ ok r
    → IsUnique s
    → Sampled s r.1 r.0
Sampled-run =
    run_induction IsUnique Sampled (λ n e s t u h. (step-Sampled n e s t u h).unique)
      (λ s u. record { unique = u; noted = simp append-nil })
      (λ n e s m t es u h l. record {
        unique = l.unique;
        noted =
            l.noted ∙ rw ((step-Sampled n e s m u h).noted, append_assoc, sample_cycles-cons e es);
      })

select-select {ℓ} :
    {A : Type ℓ} (p q : A → Bool) (xs : List A)
    → select (λ x. p x && q x) xs ≡ select q (select p xs)
select-select p q [] = refl
select-select p q (x ∷ xs) = elim (Bool-cases (p x)) [
  | inl hit ↦ simp (hit, select-select p q xs)
  | inr miss ↦ simp (miss, select-select p q xs)
]

at_cycle_none :
    (c : ℕ) (xs : List Event)
    → contains (map (λ e. e.cycle) xs) c ≡ false
    → select (λ e. e.cycle == c) xs ≡ []
at_cycle_none c [] h = refl
at_cycle_none c (x ∷ xs) h = ground (arith, at_cycle_none c xs)

at_cycle_once :
    (c : ℕ) (xs : List Event)
    → Distinct (map (λ e. e.cycle) xs)
    → contains (map (λ e. e.cycle) xs) c ≡ true
    → length (select (λ e. e.cycle == c) xs) ≡ 1
at_cycle_once c [] d h = cc
at_cycle_once c (x ∷ xs) d h = ground (arith, at_cycle_once c xs d.1, at_cycle_none c xs)

-- The samples of one cycle.
abbrev pub samples_at : ℕ → List Event → List Event
samples_at c = select (λ e. is_sample e.phase && e.cycle == c)

pub sampled_once :
    (c : ℕ) (es : List Event)
    → Distinct (sample_cycles es)
    → contains (sample_cycles es) c ≡ true
    → length (samples_at c es) ≡ 1
sampled_once c es d h =
    rw (select-select (λ (e : Event). is_sample e.phase) (λ e. e.cycle == c) es)
      (at_cycle_once c (select (λ e. is_sample e.phase) es) d h)
