-- ===== src/Verifier/PreState.antt =====
-- `_state_before` against its specification: the last accepted write to the enable register.
use chip_chain_v.Prelude.{
  ℕ, ◌≡◌, refl, sym, subst, ◌∙◌, ◌==◌, ℕ_eq, true, false, Option, none, some, List, [], ◌∷◌, map,
  select, All, All-Memᴰ, Memᴰ→contains, ap, nat_eq_iff, Memᴰ, Bool-cases, inl, inr, if◌then◌else◌,
  contains, ok, arith,
}
use mathlib.Core.List.Memᴰ
use chip_chain_v.Trace.{Event, Row, Transaction, Trace, Phase, request, reset_assert, parse_trace}
use chip_chain_v.Trace.Link.{requests, is_request}
use chip_chain_v.Trace.Epoch.{asserts, is_reset_assert}
use chip_chain_v.Trace.Accepted.{accepted-IsCompleted, accepted_epoch}
use chip_chain_v.Verifier.Data.{Observation, StateBinding}
use chip_chain_v.Verifier.State.{
  PreState, Register, scan_events, state_before, unset, is_completed, is_command, found_command,
  after_request, writes_enable,
}

-- The requests that come before the one with the identifier.
abbrev pub before_id : ℕ → List Event → List Event
before_id i [] = []
before_id i (e ∷ es) = let later = before_id i es in if e.transaction_id == i then [] else e ∷ later

abbrev last_or : Option Event → List Event → Option Event
last_or o [] = o
last_or o (e ∷ es) = last_or (some e) es

-- The last write to the enable register among some requests.
abbrev pub last_write : StateBinding → List Event → Option Event
last_write b es = last_or none (select (writes_enable b) es)

-- The value that such a write leaves, and the reset value before any.
abbrev pub written : StateBinding → Option Event → ℕ
written b none = b.enable_reset_value
written b (some e) = e.write_data

abbrev pub observed : StateBinding → Option Event → PreState
observed b o = record { value = some (written b o); last_enable = o; reason = "PRESTATE_OBSERVED" }

abbrev held : StateBinding → Option Event → Register
held b o = record { value = some (written b o); last_enable = o; state_epoch = some 1 }

-- A scan passes over what is neither a request nor a reset.
scan_other :
    (txs : List Transaction) (c : Observation) (b : StateBinding) (e : Event) (es : List Event)
    (r : Register) (ph : Phase)
    → e.phase ≡ ph
    → is_request ph ≡ false
    → is_reset_assert ph ≡ false
    → scan_events txs c b (e ∷ es) r ≡ scan_events txs c b es r
unfolding scan_events
scan_other txs c b e es r request p q a = cc
scan_other txs c b e es r reset_assert p q a = cc
scan_other txs c b e es r _ p q a = rw p

request_of : (ph : Phase) → is_request ph ≡ true → ph ≡ request
request_of request h = refl
request_of _ h = cc

requests-hit :
    (x : Event) (es : List Event) → is_request x.phase ≡ true → requests (x ∷ es) ≡ x ∷ requests es
requests-hit x es h = simp h

requests-miss :
    (x : Event) (es : List Event) → is_request x.phase ≡ false → requests (x ∷ es) ≡ requests es
requests-miss x es h = simp h

-- A selected event is one of the events.
requested : (es : List Event) {e : Event} → Memᴰ e (requests es) → Memᴰ e es
requested [] m = absurd (Memᴰ.not-nil m)
requested (x ∷ es) {e} m = elim (Bool-cases (is_request x.phase)) [
  | inl hit ↦ (elim (Memᴰ.cases_cons (subst (Memᴰ e) (requests-hit x es hit) m)) [
    | inl same ↦ Memᴰ.head same
    | inr later ↦ Memᴰ.tail (requested es later)
  ])
  | inr miss ↦ Memᴰ.tail (requested es (subst (Memᴰ e) (requests-miss x es miss) m))
]

module _ (txs : List Transaction) (c : Observation) (b : StateBinding)
    (first_epoch : c.reset_epoch ≡ 1) where
  scan_command :
      (e : Event) (es : List Event) (o : Option Event)
      → e.phase ≡ request
      → e.reset_epoch ≡ 1
      → is_completed txs e ≡ true
      → (e.transaction_id == c.transaction_id) ≡ true
      → scan_events txs c b (e ∷ es) (held b o) ≡ observed b o
  unfolding scan_events is_command found_command
  scan_command e es o p q d i = simp (p, d) (ground arith)

  scan_request :
      (e : Event) (es : List Event) (o : Option Event)
      → e.phase ≡ request
      → is_completed txs e ≡ true
      → (e.transaction_id == c.transaction_id) ≡ false
      → scan_events txs c b (e ∷ es) (held b o)
        ≡ scan_events txs c b es (held b (if writes_enable b e then some e else o))
  unfolding scan_events is_command after_request
  scan_request e es o p d i =
      let n : is_command c e ≡ false = simp i in
      elim (Bool-cases (writes_enable b e)) [
        | inl write ↦ simp (p, d, n, write)
        | inr keep ↦ simp (p, d, n, keep)
      ]

  -- From a state that one reset and some writes have left, the scan stops at the command.
  scan_lem :
      (es : List Event) (o : Option Event)
      → asserts es ≡ []
      → All (λ e. e.reset_epoch ≡ 1) es
      → All (λ e. is_completed txs e ≡ true) (requests es)
      → contains (map (λ e. e.transaction_id) (requests es)) c.transaction_id ≡ true
      → scan_events txs c b es (held b o)
        ≡ observed b
            (last_or o (select (writes_enable b) (before_id c.transaction_id (requests es))))
  scan_lem [] o none_left epochs done there = cc
  scan_lem (e ∷ es) o none_left epochs done there = elim (Bool-cases (is_request e.phase)) [
    | inl asked ↦
        let p = request_of e.phase asked in
        let done' = simp p at done in
        let none_left' = simp p at none_left in
        elim (Bool-cases (e.transaction_id == c.transaction_id)) [
          | inl hit ↦ scan_command e es o p epochs.0 done'.0 hit ∙ simp (p, hit)
          | inr miss ↦
              scan_request e es o p done'.0 miss
              ∙ scan_lem es (if writes_enable b e then some e else o) none_left' epochs.1 done'.1
                  (let k = simp p at there in ground arith)
              ∙ (elim (Bool-cases (writes_enable b e)) [
                | inl write ↦ simp (p, miss, write)
                | inr keep ↦ simp (p, miss, keep)
              ])
        ]
    | inr other ↦ elim (Bool-cases (is_reset_assert e.phase)) [
      | inl reset ↦ cc (simp reset at none_left)
      | inr quiet ↦
          scan_other txs c b e es (held b o) e.phase refl other quiet
          ∙ scan_lem es o (simp quiet at none_left) epochs.1 (simp other at done)
              (simp other at there)
          ∙ simp other
    ]
  ]

Memᴰ-map {ℓ κ} :
    {A : Type ℓ} {B : Type κ} (f : A → B) {a : A} (xs : List A) → Memᴰ a xs → Memᴰ (f a) (map f xs)
Memᴰ-map f [] m = absurd (Memᴰ.not-nil m)
Memᴰ-map f (x ∷ xs) m = elim (Memᴰ.cases_cons m) [
  | inl e ↦ Memᴰ.head (ap f e)
  | inr later ↦ Memᴰ.tail (Memᴰ-map f xs later)
]

-- The request of a transaction is found among the transactions.
Memᴰ-is_completed :
    (txs : List Transaction) (tx : Transaction) → Memᴰ tx txs → is_completed txs tx.asked ≡ true
unfolding is_completed
Memᴰ-is_completed [] tx m = absurd (Memᴰ.not-nil m)
Memᴰ-is_completed (x ∷ txs) tx m = elim (Memᴰ.cases_cons m) [
  | inl e ↦
      let same_epoch =
        (nat_eq_iff x.asked.reset_epoch tx.asked.reset_epoch).1
          (ap (λ t. t.asked.reset_epoch) (sym e)) in
      let same_id =
        (nat_eq_iff x.asked.transaction_id tx.asked.transaction_id).1
          (ap (λ t. t.asked.transaction_id) (sym e)) in
      ground arith
  | inr later ↦ let k = Memᴰ-is_completed txs tx later in ground arith
]

All-completed :
    (txs part : List Transaction)
    → ((tx : Transaction) → Memᴰ tx part → Memᴰ tx txs)
    → All (λ e. is_completed txs e ≡ true) (map (λ tx. tx.asked) part)
All-completed txs [] inside = tt
All-completed txs (tx ∷ part) inside = (
  Memᴰ-is_completed txs tx (inside tx (Memᴰ.head refl)),
  All-completed txs part (λ t m. inside t (Memᴰ.tail m)),
)

-- A reset starts the register at its reset value.
scan_reset :
    (txs : List Transaction) (c : Observation) (b : StateBinding) (e : Event) (es : List Event)
    (r : Register)
    → e.phase ≡ reset_assert
    → e.reset_epoch ≡ 1
    → scan_events txs c b (e ∷ es) r ≡ scan_events txs c b es (held b none)
unfolding scan_events
scan_reset txs c b e es r p q = simp (p, q)

-- In an accepted trace, the state before the command of a transaction is the value that the last
-- earlier request to write the enable register left, or the reset value where there is none.
pub state_before-last_write :
    (rows : List Row) (tr : Trace) (b : StateBinding) (c : Observation) (tx : Transaction)
    → parse_trace rows ≡ ok tr
    → Memᴰ tx tr.transactions
    → c.transaction_id ≡ tx.asked.transaction_id
    → c.reset_epoch ≡ tx.asked.reset_epoch
    → state_before tr c (some b)
      ≡ observed b (last_write b (before_id c.transaction_id (requests tr.events)))
unfolding state_before
state_before-last_write rows tr b c tx accepted m same_id same_epoch =
    let (paired, _, _, _) = accepted-IsCompleted rows tr accepted in
    let (first, rest, split, reset, none_left, epochs, _) = accepted_epoch rows tr accepted in
    let epochs' : All (λ e. e.reset_epoch ≡ 1) (first ∷ rest) =
      subst (All (λ e. e.reset_epoch ≡ 1)) split epochs in
    let skipped : requests (first ∷ rest) ≡ requests rest = simp reset in
    let asked = sym skipped ∙ ap requests (sym split) ∙ paired in
    let done : All (λ e. is_completed tr.transactions e ≡ true) (requests rest) =
      subst (All (λ e. is_completed tr.transactions e ≡ true)) (sym asked)
        (All-completed tr.transactions tr.transactions (λ t k. k)) in
    let inside = subst (Memᴰ tx.asked) (sym paired) (Memᴰ-map (λ t. t.asked) tr.transactions m) in
    let epoch =
      same_epoch
      ∙ All-Memᴰ (λ e. e.reset_epoch ≡ 1) tr.events epochs (requested tr.events inside) in
    let there : contains (map (λ e. e.transaction_id) (requests rest)) c.transaction_id ≡ true =
      Memᴰ→contains (map (λ e. e.transaction_id) (requests rest)) c.transaction_id (
        subst (λ i. Memᴰ i (map (λ e. e.transaction_id) (requests rest))) (sym same_id)
          (Memᴰ-map (λ e. e.transaction_id) (requests rest)
            (subst (Memᴰ tx.asked) (sym asked) (Memᴰ-map (λ t. t.asked) tr.transactions m)))) in
    ap (λ es. scan_events tr.transactions c b es unset) split
    ∙ scan_reset tr.transactions c b first rest unset reset epochs'.0
    ∙ scan_lem tr.transactions c b epoch rest none none_left epochs'.1 done there
    ∙ ap (λ es. observed b (last_write b (before_id c.transaction_id es)))
        (sym skipped ∙ ap requests (sym split))
