-- ===== src/Trace/Tests.antt =====
-- The parser on concrete traces, and the theorems about it at one of them.
use chip_chain_v.Prelude.{ℕ_eq, ◌≡◌, refl, List, [], ◌∷◌, map, All, Distinct, length, Memᴰ, err}
use chip_chain_v.Trace.Data.{Event, header, footer, reset_assert, parse_trace}
use chip_chain_v.Trace.Link.{requests, responses, IsCompleted}
use chip_chain_v.Trace.Epoch.{asserts, Ascending}
use chip_chain_v.Trace.Samples.{samples_at}
use chip_chain_v.Trace.Accepted.{accepted-IsCompleted, accepted_epoch, accepted_sampled_once}
use chip_chain_v.Trace.Example.{
  parses, events_with, rows_with, trace_with, transactions_with, closing, command_request, reply,
}

too_short : parse_trace (header ∷ footer closing ∷ []) ≡ err "TRACE_HEADER"
unfolding parse_trace
too_short = refl

accepted-IsCompleted_example :
    (requests (events_with 9) ≡ map (λ tx. tx.asked) (transactions_with 9))
    × (responses (events_with 9) ≡ map (λ tx. tx.answer) (transactions_with 9))
    × All IsCompleted (transactions_with 9)
    × Distinct (map (λ e. e.transaction_id) (requests (events_with 9)))
accepted-IsCompleted_example = accepted-IsCompleted (rows_with 9) (trace_with 9) parses

accepted_epoch_example :
    (first : Event) × (rest : List Event) × (events_with 9 ≡ first ∷ rest)
    × (first.phase ≡ reset_assert)
    × (asserts rest ≡ [])
    × All (λ e. e.reset_epoch ≡ 1) (events_with 9)
    × Ascending 0 (events_with 9)
accepted_epoch_example = accepted_epoch (rows_with 9) (trace_with 9) parses

accepted_sampled_once_example : length (samples_at 3 (events_with 9)) ≡ 1
accepted_sampled_once_example =
    accepted_sampled_once (rows_with 9) (trace_with 9) parses
      (record { asked = command_request; answer = reply 8 4 2 0x40004 1 7 0 })
      (Memᴰ.tail (Memᴰ.head refl))
