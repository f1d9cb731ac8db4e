-- ===== src/Trace/Epoch.antt =====
-- The reset epoch, the sequence numbers and the cycles of an accepted run.
use chip_chain_v.Prelude.{
  ℕ, ◌+◌, ◌≡◌, ◌∙◌, ◌≤◌, ◌<◌, Bool, true, false, List, [], ◌∷◌, select, All, length, ok, arith,
}
use chip_chain_v.Trace.Data.{
  Event, Row, Phase, request, response, reset_assert, reset_release, Parser, to_int, check_event,
  reset_step, bus_step, respond, step, run,
}
use chip_chain_v.Trace.Step.{step-eq-ok, run_induction}

abbrev pub is_reset_assert : Phase → Bool
is_reset_assert reset_assert = true
is_reset_assert _ = false

abbrev pub asserts : List Event → List Event
asserts = select (λ e. is_reset_assert e.phase)

-- The cycles never fall below `b`, nor below one another.
abbrev pub Ascending : ℕ → List Event → Type 0
Ascending b [] = Unit
Ascending b (e ∷ es) = (b ≤ e.cycle) × Ascending e.cycle es

-- Before the first epoch only a reset can come.
abbrev pub StartsWithReset : List Event → Type 0
StartsWithReset [] = Unit
StartsWithReset (e ∷ es) = e.phase ≡ reset_assert

pub record Epochs (s : Parser) (es : List Event) (t : Parser) : Type 0 where
  pub grows : s.epoch ≤ t.epoch
  pub counted : t.epoch ≡ s.epoch + length (asserts es)
  pub stamped : All (λ e. (0 < e.reset_epoch) × (e.reset_epoch ≤ t.epoch)) es
  pub opened : s.epoch ≡ 0 → StartsWithReset es
  pub ascending : Ascending s.last_cycle es

bus_step-keeps :
    (ph : Phase) (e : Event) (s t : Parser)
    → bus_step ph e s ≡ ok t
    → (t.epoch ≡ s.epoch) × (t.last_cycle ≡ s.last_cycle)
unfolding bus_step respond
bus_step-keeps request e s t h = ground arith
bus_step-keeps response e s t h = ground arith
bus_step-keeps _ e s t h = ground arith

check_event-cycle :
    (n : ℕ) (e : Event) (s : Parser) → check_event n e s ≡ ok tt → s.last_cycle ≤ e.cycle
unfolding check_event
check_event-cycle n e s h = ground arith

reset_step-epoch :
    (ph : Phase) (e : Event) (s t : Parser)
    → reset_step ph e s ≡ ok t
    → (t.epoch ≡ s.epoch + to_int (is_reset_assert ph))
      × (t.epoch ≡ e.reset_epoch)
      × (0 < e.reset_epoch)
      × (t.last_cycle ≡ s.last_cycle)
      × (s.epoch ≡ 0 → ph ≡ reset_assert)
unfolding reset_step
reset_step-epoch reset_assert e s t h = ground arith
reset_step-epoch reset_release e s t h = ground arith
reset_step-epoch _ e s t h = ground arith

record OneEpoch (s : Parser) (e : Event) (t : Parser) : Type 0 where
  counted : t.epoch ≡ s.epoch + to_int (is_reset_assert e.phase)
  stamp : t.epoch ≡ e.reset_epoch
  positive : 0 < e.reset_epoch
  opened : s.epoch ≡ 0 → e.phase ≡ reset_assert
  later : s.last_cycle ≤ e.cycle
  clock : t.last_cycle ≡ e.cycle

step-OneEpoch : (n : ℕ) (e : Event) (s t : Parser) → step n e s ≡ ok t → OneEpoch s e t
step-OneEpoch n e s t h =
    let (checked, m, reset, bus) = step-eq-ok n e s h in
    let (counted, stamp, positive, clock, opened) =
      reset_step-epoch e.phase e (record s { last_cycle = e.cycle }) m reset in
    let (same, still) = bus_step-keeps e.phase e m t bus in
    record {
      counted = same ∙ counted;
      stamp = same ∙ stamp;
      positive = positive;
      opened = opened;
      later = check_event-cycle n e s checked;
      clock = still ∙ clock;
    }

length-asserts-cons :
    (e : Event) (es : List Event)
    → length (asserts (e ∷ es)) ≡ to_int (is_reset_assert e.phase) + length (asserts es)
length-asserts-cons e es = ground arith

Epochs-cons :
    (e : Event) (es : List Event) (s m t : Parser)
    → OneEpoch s e m
    → Epochs m es t
    → Epochs s (e ∷ es) t
Epochs-cons e es s m t o k = record {
  grows = omega (arith, o.counted, k.grows);
  counted = omega (arith, o.counted, k.counted, length-asserts-cons e es);
  stamped = ((o.positive, omega (arith, o.stamp, k.grows)), k.stamped);
  opened = o.opened;
  ascending = (o.later, rw o.clock at k.ascending);
}

-- A run stamps every event with an epoch, and its cycles ascend.
pub Epochs-run :
    (n : ℕ) (rows : List Row) (s : Parser) {r : Parser × List Event}
    → run n rows s ≡ ok r
    → Epochs s r.1 r.0
Epochs-run n rows s h =
    run_induction (λ _. Unit {0}) Epochs (λ n e s t v h. tt)
      (λ s v. record {
        grows = omega arith;
        counted = omega arith;
        stamped = tt;
        opened = λ z. tt;
        ascending = tt;
      })
      (λ n e s m t es v h l. Epochs-cons e es s m t (step-OneEpoch n e s m h) l) n rows s h tt
