-- ===== src/Trace/Step.antt =====
-- What one accepted round went through, and induction over the rounds.
use chip_chain_v.Prelude.{ℕ, suc, ◌≡◌, subst, List, [], ◌∷◌, ok, ◌>>=◌, >>=-eq-ok, ok-injective}
use chip_chain_v.Trace.Data.{
  Event, Row, event, header, footer, other, Parser, check_event, reset_step, bus_step, step,
  as_event, run,
}

module _ (n : ℕ) (e : Event) (s : Parser) {t : Parser} (accepted : step n e s ≡ ok t) where
  -- The state between the reset checks and the bus checks of one round.
  pub step-eq-ok :
      (check_event n e s ≡ ok tt)
      × (middle : Parser) × (reset_step e.phase e (record s { last_cycle = e.cycle }) ≡ ok middle)
      × (bus_step e.phase e middle ≡ ok t)
  unfolding step
  step-eq-ok =
      let (_, checked, rest) =
        >>=-eq-ok (check_event n e s)
          (λ _. reset_step e.phase e (record s { last_cycle = e.cycle }) >>= bus_step e.phase e)
          accepted in
      let (middle, reset, bus) =
        >>=-eq-ok (reset_step e.phase e (record s { last_cycle = e.cycle })) (bus_step e.phase e)
          rest in
      (checked, middle, reset, bus)

module _ {ℓ κ} (P : Parser → Type ℓ) (Q : Parser → List Event → Parser → Type κ)
    (keep : (n : ℕ) (e : Event) (s t : Parser) → P s → step n e s ≡ ok t → P t)
    (none_left : (s : Parser) → P s → Q s [] s)
    (one_more : (n : ℕ) (e : Event) (s m t : Parser) (es : List Event)
      → P s
      → step n e s ≡ ok m
      → Q m es t
      → Q s (e ∷ es) t) where
  -- What holds after no event, and is kept when an accepted event is put in front, holds of a run.
  pub run_induction :
      (n : ℕ) (rows : List Row) (s : Parser) {r : Parser × List Event}
      → run n rows s ≡ ok r
      → P s
      → Q s r.1 r.0
  unfolding run as_event
  run_induction n [] s h p = subst (λ r. Q s r.1 r.0) (ok-injective h) (none_left s p)
  run_induction n (event e ∷ rows) s h p =
      let (m, stepped, rest) =
        >>=-eq-ok (step n e s) (λ m. run (suc n) rows m >>= λ r. ok (r.0, e ∷ r.1)) h in
      let (later, ran, last) = >>=-eq-ok (run (suc n) rows m) (λ r. ok (r.0, e ∷ r.1)) rest in
      subst (λ r. Q s r.1 r.0) (ok-injective last)
        (one_more n e s m later.0 later.1 p stepped
          (run_induction (suc n) rows m ran (keep n e s m p stepped)))
  run_induction n (header ∷ rows) s h p = cc
  run_induction n (footer f ∷ rows) s h p = cc
  run_induction n (other ∷ rows) s h p = cc
