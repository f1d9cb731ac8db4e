-- ===== src/Trace/Accepted.antt =====
-- What `parse_apparatus_trace` guarantees of a trace that it returns.
use mathlib.Core.List.{append-nil}
use chip_chain_v.Prelude.{
  ◌≡◌, refl, sym, ◌∙◌, subst, ◌<◌, ◌≤◌, ◌&&◌, true, List, [], ◌∷◌, map, All, All-mono, Memᴰ, all,
  all-Memᴰ, Distinct, length, ok, require-eq-ok, >>=-eq-ok, ok-injective, arith, ℕ_eq, leb,
}
use chip_chain_v.Trace.Data.{
  Event, Row, reset_assert, Parser, initial, Footer, Transaction, Trace, as_footer, check_footer,
  check_complete, last_row, but_last, but_first, has_header, run, parse_trace, sampled,
  window_sampled,
}
use chip_chain_v.Trace.Link.{requests, responses, IsCompleted, Linked-run}
use chip_chain_v.Trace.Epoch.{asserts, StartsWithReset, Ascending, Epochs-run}
use chip_chain_v.Trace.Samples.{samples_at, sampled_once, Sampled-run}

-- The loop and the last checks behind an accepted trace.
pub record Accepts (rows : List Row) (tr : Trace) : Type 0 where
  pub final : Parser
  pub ran : run 0 (but_last (but_first rows)) initial ≡ ok (final, tr.events)
  pub collected : tr.transactions ≡ final.transactions
  pub checked : check_complete tr.closing tr.events final ≡ ok tt

pub parse_trace-Accepts :
    (rows : List Row) (tr : Trace) → parse_trace rows ≡ ok tr → Accepts rows tr
unfolding parse_trace
parse_trace-Accepts rows tr h =
    let (_, h1) = require-eq-ok (leb 4 (length rows) && has_header rows) "TRACE_HEADER" _ h in
    let (closing, _, h2) = >>=-eq-ok (as_footer (last_row rows)) _ h1 in
    let (_, _, h3) = >>=-eq-ok (check_footer closing) _ h2 in
    let (r, ran, h4) = >>=-eq-ok (run 0 (but_last (but_first rows)) initial) _ h3 in
    let (_, checked, h5) = >>=-eq-ok (check_complete closing r.1 r.0) _ h4 in
    subst (Accepts rows) (ok-injective h5)
      (record { final = r.0; ran = ran; collected = refl; checked = checked })

-- What the checks after the loop say of the final state.
pub record IsFinal (f : Footer) (events : List Event) (s : Parser) : Type 0 where
  pub answered : s.pending ≡ []
  pub one_epoch : s.epoch ≡ 1
  pub window : window_sampled s.release_cycles f.last_cycle s ≡ true
  pub after_update : all (λ tx. sampled s tx.asked.cycle) s.transactions ≡ true

check_complete-IsFinal :
    (f : Footer) (events : List Event) (s : Parser)
    → check_complete f events s ≡ ok tt
    → IsFinal f events s
unfolding check_complete
check_complete-IsFinal f events s h = record {
  answered = ground arith;
  one_epoch = ground arith;
  window = ground arith;
  after_update = ground arith;
}

nil_of_length {ℓ} : {A : Type ℓ} (xs : List A) → length xs ≡ 0 → xs ≡ []
nil_of_length [] h = refl
nil_of_length (x ∷ xs) h = absurd (omega arith)

one_reset :
    (es : List Event)
    → length (asserts es) ≡ 1
    → StartsWithReset es
    → (first : Event) × (rest : List Event) × (es ≡ first ∷ rest)
      × (first.phase ≡ reset_assert)
      × (asserts rest ≡ [])
one_reset [] h start = absurd (omega arith)
one_reset (e ∷ es) h start =
    (e, es, refl, start, nil_of_length (asserts es) (let k = simp start at h in omega arith))

module _ (rows : List Row) (tr : Trace) (accepted : parse_trace rows ≡ ok tr) where
  abbrev proof : Accepts rows tr
  proof = parse_trace-Accepts rows tr accepted

  final-IsFinal : IsFinal tr.closing tr.events proof.final
  final-IsFinal = check_complete-IsFinal tr.closing tr.events proof.final proof.checked

  -- In an accepted trace the transactions pair every request with its response, in order: the
  -- requests of the trace are the requests of the transactions, the responses are their responses,
  -- each response comes one cycle after its request under the same identifier, address, direction,
  -- data and epoch and reports an error exactly if the access is not legal, and no two requests
  -- share an identifier.
  pub accepted-IsCompleted :
      (requests tr.events ≡ map (λ tx. tx.asked) tr.transactions)
      × (responses tr.events ≡ map (λ tx. tx.answer) tr.transactions)
      × All IsCompleted tr.transactions
      × Distinct (map (λ e. e.transaction_id) (requests tr.events))
  accepted-IsCompleted =
      let l =
        Linked-run 0 (but_last (but_first rows)) initial proof.ran
          (record { single = tt; completed = tt }) in
      let u =
        Sampled-run 0 (but_last (but_first rows)) initial proof.ran
          (record { ids = tt; cycles = tt }) in
      let fin = final-IsFinal in
      (
        rw (proof.collected) (sym l.asked ∙ simp (fin.answered, append-nil)),
        rw (proof.collected) (sym l.answers),
        rw (proof.collected) l.invariant.completed,
        subst Distinct l.seen u.unique.ids,
      )

  -- An accepted trace begins with its only reset assertion, all of its events carry epoch 1, and
  -- its cycles never fall.
  pub accepted_epoch :
      (first : Event) × (rest : List Event) × (tr.events ≡ first ∷ rest)
      × (first.phase ≡ reset_assert)
      × (asserts rest ≡ [])
      × All (λ e. e.reset_epoch ≡ 1) tr.events
      × Ascending 0 tr.events
  accepted_epoch =
      let k = Epochs-run 0 (but_last (but_first rows)) initial proof.ran in
      let one = final-IsFinal.one_epoch in
      let (first, rest, split, reset, none_later) =
        one_reset tr.events (omega (arith, k.counted)) (k.opened refl) in
      (
        first,
        rest,
        split,
        reset,
        none_later,
        All-mono (λ (e : Event). (0 < e.reset_epoch) × (e.reset_epoch ≤ proof.final.epoch))
            (λ e. e.reset_epoch ≡ 1) tr.events (λ e b. omega arith) k.stamped,
        k.ascending,
      )

  -- In an accepted trace the cycle of every answered request has exactly one status sample.
  pub accepted_sampled_once :
      (tx : Transaction)
      → Memᴰ tx tr.transactions
      → length (samples_at tx.asked.cycle tr.events) ≡ 1
  accepted_sampled_once tx m =
      let u =
        Sampled-run 0 (but_last (but_first rows)) initial proof.ran
          (record { ids = tt; cycles = tt }) in
      let hit =
        all-Memᴰ (λ (x : Transaction). sampled proof.final x.asked.cycle) proof.final.transactions
          tx final-IsFinal.after_update (subst (Memᴰ tx) proof.collected m) in
      sampled_once tx.asked.cycle tr.events (subst Distinct u.noted u.unique.cycles)
        (rw u.noted at hit)
