-- ===== src/Trace/Data.antt =====
-- The rows of a trace and the state of the loop over them.
use chip_chain_v.Prelude.{
  ℕ, zero, suc, ◌+◌, ◌-◌, ◌%◌, ◌==◌, ℕ_eq, Bool, true, false, not, ◌&&◌, ◌||◌, Option, none, some,
  List, [], ◌∷◌, ◌++◌, map, leb, ltb, if◌then◌else◌, length, all, contains, is_some, Result, ok,
  err, ◌>>=◌, ◌>>◌, require,
}

-- `PHASES`.
pub data Phase : Type 0 where
  request response status_sample reset_assert reset_release software_stop ram_write : Phase

-- A decoded event line: the keys of `EVENT_KEYS` beside `schema`.
pub record Event : Type 0 where
  pub sequence : ℕ
  pub cycle : ℕ
  pub reset_epoch : ℕ
  pub phase : Phase
  pub transaction_id : ℕ
  pub address : ℕ
  pub write_enable : ℕ
  pub byte_enable : ℕ
  pub write_data : ℕ
  pub read_data : ℕ
  pub error : ℕ
  pub request_valid : ℕ
  pub response_valid : ℕ
  pub reset_n : ℕ
  pub enable_value : ℕ
  pub command_value : ℕ
  pub status_value : ℕ

pub record Footer : Type 0 where
  pub complete : ℕ
  pub event_count : ℕ
  pub last_cycle : ℕ
  pub reset_epoch_count : ℕ
  pub normal_sim_exit : ℕ

-- One decoded line. `other` is any line of another shape.
pub data Row : Type 0 where
  header : Row
  footer : Footer → Row
  event : Event → Row
  other : Row

-- `{'request': request, 'response': e}`
pub record Transaction : Type 0 where
  pub asked : Event
  pub answer : Event

-- The variables of the loop.
pub record Parser : Type 0 where
  pub pending : List (ℕ × Event)
  pub seen : List ℕ
  pub samples : List (ℕ × Event)
  pub epoch : ℕ
  pub reset : Bool
  pub last_cycle : ℕ
  pub stop_cycle : Option ℕ
  pub transactions : List Transaction
  pub release_cycles : List ℕ

abbrev pub initial : Parser
initial = record {
  pending = [];
  seen = [];
  samples = [];
  epoch = 0;
  reset = false;
  last_cycle = 0;
  stop_cycle = none;
  transactions = [];
  release_cycles = [];
}

abbrev pub is_empty {ℓ} : {A : Type ℓ} → List A → Bool
is_empty [] = true
is_empty (x ∷ xs) = false

-- `int(b)`.
abbrev pub to_int : Bool → ℕ
to_int true = 1
to_int false = 0

abbrev pub word_max : ℕ
word_max = 4294967295

-- Every integer of the event fits 32 bits.
unfoldable pub fits_word : Event → Bool
fits_word e =
    all (λ v. leb v word_max)
      (e.sequence ∷ e.cycle ∷ e.reset_epoch ∷ e.transaction_id ∷ e.address ∷ e.write_enable
        ∷ e.byte_enable ∷ e.write_data ∷ e.read_data ∷ e.error ∷ e.request_valid ∷ e.response_valid
        ∷ e.reset_n ∷ e.enable_value ∷ e.command_value ∷ e.status_value ∷ [])

unfoldable pub fits_bits : Event → Bool
fits_bits e =
    all (λ v. v == 0 || v == 1)
      (e.write_enable ∷ e.error ∷ e.request_valid ∷ e.response_valid ∷ e.reset_n ∷ [])
    && leb e.byte_enable 15

-- The checks that every event passes, whatever its phase.
unfoldable pub check_event : ℕ → Event → Parser → Result (Unit {0})
check_event sequence e s = do
  require (fits_word e) "BAD_EVENT_VALUE"
  require (fits_bits e) "BAD_EVENT_BITS"
  require (e.sequence == sequence) "DUPLICATE_OR_MISSING_SEQUENCE"
  require (leb s.last_cycle e.cycle && leb e.cycle 100000) "BAD_CYCLE"

-- The reset line and the reset epoch.
unfoldable pub reset_step : Phase → Event → Parser → Result Parser
reset_step reset_assert e s = do
  require (not s.reset && is_empty s.pending && e.reset_n == 0 && e.reset_epoch == s.epoch + 1)
      "INVALID_RESET_EPOCH"
  ok (record s { epoch = s.epoch + 1; reset = true })
reset_step reset_release e s = do
  require (ltb 0 s.epoch && e.reset_epoch == s.epoch) "INVALID_RESET_EPOCH"
  require (s.reset && e.reset_n == 1) "INVALID_RESET_RELEASE"
  ok (record s { reset = false; release_cycles = s.release_cycles ++ e.cycle ∷ [] })
reset_step _ e s = do
  require (ltb 0 s.epoch && e.reset_epoch == s.epoch) "INVALID_RESET_EPOCH"
  require (e.reset_n == to_int (not s.reset)) "RESET_STATE_MISMATCH"
  ok s

-- `pending.pop(tid)`: the entry and the dictionary without it.
unfoldable pub pop : ℕ → List (ℕ × Event) → Option (Event × List (ℕ × Event))
pop tid [] = none
pop tid ((k, v) ∷ rest) =
    let later = pop tid rest in
    if k == tid
    then some (v, rest)
    else (elim later [ none ↦ none | some (w, others) ↦ some (w, (k, v) ∷ others) ])

-- The registers of the device: two that may be written and one that may only be read.
unfoldable pub is_legal : Event → Bool
is_legal r =
    r.byte_enable == 15
    && r.address % 4 == 0
    && (r.address == 0x40000
        || r.address == 0x40004
        || (r.address == 0x40008 && r.write_enable == 0))

-- The response repeats what the request asked for.
unfoldable pub echoes : Event → Event → Bool
echoes e r =
    e.address == r.address
    && e.write_enable == r.write_enable
    && e.byte_enable == r.byte_enable
    && e.write_data == r.write_data
    && e.reset_epoch == r.reset_epoch

-- What a response does once its request is found.
unfoldable pub respond : Event → Parser → Option (Event × List (ℕ × Event)) → Result Parser
respond e s none = err "UNMATCHED_RESPONSE"
respond e s (some (r, rest)) = do
  require (e.cycle == r.cycle + 1) "RESPONSE_LATENCY"
  require (echoes e r) "RESPONSE_BINDING_MISMATCH"
  require (e.error == to_int (not (is_legal r))) "RESPONSE_ERROR_PROTOCOL"
  ok (record s {
    pending = rest;
    transactions = s.transactions ++ record { asked = r; answer = e } ∷ [];
  })

-- The bus, the status samples, the stop and the RAM records.
unfoldable pub bus_step : Phase → Event → Parser → Result Parser
bus_step request e s = do
  require
      (not s.reset
        && is_empty s.pending
        && ltb 0 e.transaction_id
        && not (contains s.seen e.transaction_id))
      "DUPLICATE_TRANSACTION_OR_PENDING_REQUEST"
  require (e.request_valid == 1 && e.response_valid == 0) "BAD_REQUEST"
  require (leb 0x40000 e.address && leb e.address 0x403ff) "REQUEST_OUTSIDE_DEVICE"
  ok (record s {
    seen = s.seen ++ e.transaction_id ∷ [];
    pending = (e.transaction_id, e) ∷ s.pending;
  })
bus_step response e s = do
  require
      (not s.reset
        && is_some (pop e.transaction_id s.pending)
        && e.response_valid == 1
        && e.request_valid == 0)
      "UNMATCHED_RESPONSE"
  respond e s (pop e.transaction_id s.pending)
bus_step status_sample e s = do
  require (not (contains (map (λ p. p.0) s.samples) e.cycle) && e.transaction_id == 0)
      "DUPLICATE_STATUS_SAMPLE"
  require (not s.reset || (e.enable_value == 0 && e.command_value == 0 && e.status_value == 0))
      "RESET_NOT_ZERO"
  ok (record s { samples = s.samples ++ (e.cycle, e) ∷ [] })
bus_step software_stop e s = do
  require (not (is_some s.stop_cycle) && not s.reset && e.address == 0x20008 && e.write_data == 1)
      "BAD_STOP"
  ok (record s { stop_cycle = some e.cycle })
bus_step ram_write e s = do
  require (not s.reset && e.address == 0x101000 && e.byte_enable == 15 && e.write_enable == 1)
      "BAD_RAM_RECORD"
  ok s
bus_step reset_assert e s = ok s
bus_step reset_release e s = ok s

-- One round of the loop.
unfoldable pub step : ℕ → Event → Parser → Result Parser
step sequence e s = do
  check_event sequence e s
  s' ← reset_step e.phase e (record s { last_cycle = e.cycle })
  bus_step e.phase e s'

unfoldable pub as_event : Row → Result Event
as_event (event e) = ok e
as_event _ = err "MALFORMED_EVENT"

-- The loop, with the events that it went through.
unfoldable pub run : ℕ → List Row → Parser → Result (Parser × List Event)
run n [] s = ok (s, [])
run n (row ∷ rows) s = do
  e ← as_event row
  s' ← step n e s
  r ← run (suc n) rows s'
  ok (r.0, e ∷ r.1)

unfoldable pub as_footer : Row → Result Footer
as_footer (footer f) = ok f
as_footer _ = err "TRACE_INCOMPLETE"

unfoldable pub check_footer : Footer → Result (Unit {0})
check_footer f = do
  require (f.complete == 1 && f.normal_sim_exit == 1) "TRACE_INCOMPLETE"
  require (leb f.last_cycle 100000 && leb f.event_count 1000000) "TRACE_BOUNDS"

-- `range(start, start + n)`.
unfoldable pub range : ℕ → ℕ → List ℕ
range start zero = []
range start (suc n) = start ∷ range (suc start) n

abbrev pub sampled : Parser → ℕ → Bool
sampled s cycle = contains (map (λ p. p.0) s.samples) cycle

-- `set(range(release, last)) <= samples.keys()`
unfoldable pub window_sampled : List ℕ → ℕ → Parser → Bool
window_sampled [] last s = true
window_sampled (release ∷ _) last s = all (sampled s) (range release (last - release))

unfoldable pub stopped_before : Option ℕ → ℕ → Bool
stopped_before none last = false
stopped_before (some stop) last = leb (stop + 2) last

-- The checks after the loop.
unfoldable pub check_complete : Footer → List Event → Parser → Result (Unit {0})
check_complete f events s = do
  require
      (is_empty s.pending
        && not s.reset
        && f.event_count == length events
        && f.reset_epoch_count == s.epoch)
      "TRACE_INCOMPLETE"
  require (s.epoch == 1 && length s.release_cycles == 1) "UNSUPPORTED_RESET_SCHEDULE"
  require (leb s.last_cycle f.last_cycle && stopped_before s.stop_cycle f.last_cycle)
      "TRACE_INCOMPLETE"
  require (window_sampled s.release_cycles f.last_cycle s) "STATUS_WINDOW_INCOMPLETE"
  require (all (λ tx. sampled s tx.asked.cycle) s.transactions) "MISSING_POST_UPDATE_SAMPLE"

pub record Trace : Type 0 where
  pub events : List Event
  pub transactions : List Transaction
  pub closing : Footer

abbrev pub last_row : List Row → Row
last_row [] = other
last_row (r ∷ []) = r
last_row (r ∷ q ∷ rows) = last_row (q ∷ rows)

-- `rows[:-1]`
abbrev pub but_last : List Row → List Row
but_last [] = []
but_last (r ∷ []) = []
but_last (r ∷ q ∷ rows) = r ∷ but_last (q ∷ rows)

abbrev pub has_header : List Row → Bool
has_header (header ∷ rows) = true
has_header _ = false

abbrev pub but_first : List Row → List Row
but_first [] = []
but_first (r ∷ rows) = rows

unfoldable pub parse_trace : List Row → Result Trace
parse_trace rows = do
  require (leb 4 (length rows) && has_header rows) "TRACE_HEADER"
  closing ← as_footer (last_row rows)
  check_footer closing
  r ← run 0 (but_last (but_first rows)) initial
  check_complete closing r.1 r.0
  ok (record { events = r.1; transactions = r.0.transactions; closing = closing })
