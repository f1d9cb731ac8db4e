-- ===== src/Trace/Link.antt =====
-- Requests, responses and transactions.
use mathlib.Core.List.{append-nil, append_assoc, map-append}
use chip_chain_v.Prelude.{
  ℕ, ◌+◌, ◌≡◌, refl, ◌≤◌, ◌<◌, Bool, true, false, not, List, [], ◌∷◌, ◌++◌, map, select, All,
  All-append, some, ◌∙◌, Bool-cases, Option-cases, inl, inr, ok, arith, ℕ_eq,
}
use chip_chain_v.Trace.Data.{
  Event, Row, Phase, request, response, reset_assert, Transaction, Parser, reset_step, bus_step,
  step, run, is_legal, to_int, pop, respond, echoes,
}
use chip_chain_v.Trace.Step.{step-eq-ok, run_induction}

abbrev pub is_request : Phase → Bool
is_request request = true
is_request _ = false

abbrev pub is_response : Phase → Bool
is_response response = true
is_response _ = false

abbrev pub requests : List Event → List Event
requests = select (λ e. is_request e.phase)

abbrev pub responses : List Event → List Event
responses = select (λ e. is_response e.phase)

abbrev pub waiting : Parser → List Event
waiting s = map (λ p. p.1) s.pending

abbrev pub asked_of : Parser → List Event
asked_of s = map (λ tx. tx.asked) s.transactions

abbrev pub answers_of : Parser → List Event
answers_of s = map (λ tx. tx.answer) s.transactions

-- A request that the device may see.
pub record IsRequest (r : Event) : Type 0 where
  pub named : 0 < r.transaction_id
  pub above : 0x40000 ≤ r.address
  pub below : r.address ≤ 0x403ff

-- A response one cycle later, which repeats its request and reports an error exactly if the access
-- is not legal.
pub record IsCompleted (tx : Transaction) : Type 0 where
  pub open_request : IsRequest tx.asked
  pub same_id : tx.answer.transaction_id ≡ tx.asked.transaction_id
  pub next_cycle : tx.answer.cycle ≡ tx.asked.cycle + 1
  pub same_address : tx.answer.address ≡ tx.asked.address
  pub same_direction : tx.answer.write_enable ≡ tx.asked.write_enable
  pub same_data : tx.answer.write_data ≡ tx.asked.write_data
  pub same_epoch : tx.answer.reset_epoch ≡ tx.asked.reset_epoch
  pub error_exact : tx.answer.error ≡ to_int (not (is_legal tx.asked))

-- At most one request waits, under its own identifier.
abbrev pub IsPending : List (ℕ × Event) → Type 0
IsPending [] = Unit
IsPending ((k, r) ∷ []) = (k ≡ r.transaction_id) × IsRequest r
IsPending (_ ∷ _ ∷ _) = ⊥

pub record Inv (s : Parser) : Type 0 where
  pub single : IsPending s.pending
  pub completed : All IsCompleted s.transactions

-- Taking out of the dictionary the request that waits leaves it empty.
pop-single :
    (tid : ℕ) (entries : List (ℕ × Event)) {r : Event} {rest : List (ℕ × Event)}
    → IsPending entries
    → pop tid entries ≡ some (r, rest)
    → (entries ≡ (tid, r) ∷ []) × (rest ≡ []) × (tid ≡ r.transaction_id) × IsRequest r
unfolding pop
pop-single tid [] p h = cc
pop-single tid ((k, v) ∷ []) p h = ground arith
pop-single tid (_ ∷ _ ∷ _) p h = absurd p

-- What an accepted response establishes.
module _ (e : Event) (s t : Parser) (r : Event) (rest : List (ℕ × Event)) where
  respond_lem :
      respond e s (some (r, rest)) ≡ ok t
      → (t ≡ record s {
        pending = rest;
        transactions = s.transactions ++ record { asked = r; answer = e } ∷ [];
      })
        × (e.transaction_id ≡ r.transaction_id
            → IsRequest r
            → IsCompleted (record { asked = r; answer = e }))
  unfolding respond echoes
  respond_lem h = (ground arith, λ same asked. ground arith)

-- From one state to a later one: the events between them are accounted for.
pub record Linked (s : Parser) (es : List Event) (t : Parser) : Type 0 where
  pub invariant : Inv t
  pub asked : asked_of t ++ waiting t ≡ (asked_of s ++ waiting s) ++ requests es
  pub answers : answers_of t ≡ answers_of s ++ responses es
  pub seen : t.seen ≡ s.seen ++ map (λ e. e.transaction_id) (requests es)

-- An event that is neither a request nor a response.
Linked-unchanged :
    (e : Event) (s t : Parser)
    → Inv s
    → t.pending ≡ s.pending
    → t.transactions ≡ s.transactions
    → t.seen ≡ s.seen
    → is_request e.phase ≡ false
    → is_response e.phase ≡ false
    → Linked s (e ∷ []) t
Linked-unchanged e s t v p x n q r = record {
  invariant = record { single = rw p v.single; completed = rw x v.completed };
  asked = simp (p, x, q, append-nil);
  answers = simp (x, r, append-nil);
  seen = simp (n, q, append-nil);
}

Linked-request :
    (e : Event) (s t : Parser)
    → e.phase ≡ request
    → Inv s
    → bus_step request e s ≡ ok t
    → Linked s (e ∷ []) t
unfolding bus_step
Linked-request e s t ph v h =
    let empty : s.pending ≡ [] = ground arith in
    let waits : t.pending ≡ (e.transaction_id, e) ∷ [] = ground arith in
    let kept : t.transactions ≡ s.transactions = ground arith in
    let noted : t.seen ≡ s.seen ++ e.transaction_id ∷ [] = ground arith in
    record {
      invariant = ground arith;
      asked = simp (empty, waits, kept, ph, append-nil);
      answers = simp (kept, ph, append-nil);
      seen = simp (noted, ph);
    }

Linked-response :
    (e : Event) (s t : Parser)
    → e.phase ≡ response
    → Inv s
    → bus_step response e s ≡ ok t
    → Linked s (e ∷ []) t
unfolding bus_step
Linked-response e s t ph v h = elim (Option-cases (pop e.transaction_id s.pending)) [
  | inl missing ↦ ground arith
  | inr ((r, rest), found) ↦
      let (was, empty, same, named) = pop-single e.transaction_id s.pending v.single found in
      let (after, done) = respond_lem e s t r rest (ground arith) in
      rw after (record {
        invariant = record {
          single = rw empty tt;
          completed =
              All-append IsCompleted s.transactions (record { asked = r; answer = e } ∷ [])
                v.completed (done same named, tt);
        };
        asked = simp (was, empty, ph, map-append, append-nil);
        answers = simp (ph, map-append);
        seen = simp (ph, append-nil);
      })
]

pub Linked-bus_step :
    (ph : Phase) (e : Event) (s t : Parser)
    → e.phase ≡ ph
    → Inv s
    → bus_step ph e s ≡ ok t
    → Linked s (e ∷ []) t
unfolding bus_step
Linked-bus_step request e s t ph v h = Linked-request e s t ph v h
Linked-bus_step response e s t ph v h = Linked-response e s t ph v h
Linked-bus_step _ e s t ph v h =
    Linked-unchanged e s t v (ground arith) (ground arith) (ground arith) (simp ph) (simp ph)

-- The reset checks touch neither the dictionary nor the transactions.
reset_step-keeps :
    (ph : Phase) (e : Event) (s t : Parser)
    → reset_step ph e s ≡ ok t
    → (t.pending ≡ s.pending) × (t.transactions ≡ s.transactions) × (t.seen ≡ s.seen)
unfolding reset_step
reset_step-keeps reset_assert e s t h = ground arith
reset_step-keeps _ e s t h = ground arith

pub Linked-step :
    (n : ℕ) (e : Event) (s t : Parser) → Inv s → step n e s ≡ ok t → Linked s (e ∷ []) t
Linked-step n e s t v h =
    let (_, m, reset, bus) = step-eq-ok n e s h in
    let (p, x, q) = reset_step-keeps e.phase e (record s { last_cycle = e.cycle }) m reset in
    let l =
      Linked-bus_step e.phase e m t refl
        (record { single = rw p v.single; completed = rw x v.completed }) bus in
    record {
      invariant = l.invariant;
      asked = l.asked ∙ simp (p, x);
      answers = l.answers ∙ simp x;
      seen = l.seen ∙ simp q;
    }

select-cons {ℓ} :
    {A : Type ℓ} (p : A → Bool) (x : A) (xs : List A)
    → select p (x ∷ xs) ≡ select p (x ∷ []) ++ select p xs
select-cons p x xs = elim (Bool-cases (p x)) [ inl hit ↦ simp hit | inr miss ↦ simp miss ]

Linked-cons :
    (e : Event) (es : List Event) (s m t : Parser)
    → Linked s (e ∷ []) m
    → Linked m es t
    → Linked s (e ∷ es) t
Linked-cons e es s m t l k = record {
  invariant = k.invariant;
  asked =
      k.asked ∙ rw (l.asked, append_assoc, ← select-cons (λ (a : Event). is_request a.phase) e es);
  answers =
      k.answers
      ∙ rw (l.answers, append_assoc, ← select-cons (λ (a : Event). is_response a.phase) e es);
  seen =
      k.seen
      ∙ rw (
        l.seen,
        append_assoc,
        ← map-append,
        ← select-cons (λ (a : Event). is_request a.phase) e es,
      );
}

-- A run accounts for all of its events.
pub Linked-run :
    (n : ℕ) (rows : List Row) (s : Parser) {r : Parser × List Event}
    → run n rows s ≡ ok r
    → Inv s
    → Linked s r.1 r.0
Linked-run =
    run_induction Inv Linked (λ n e s t v h. (Linked-step n e s t v h).invariant)
      (λ s v. record {
        invariant = v;
        asked = simp append-nil;
        answers = simp append-nil;
        seen = simp append-nil;
      })
      (λ n e s m t es v h l. Linked-cons e es s m t (Linked-step n e s m v h) l)
