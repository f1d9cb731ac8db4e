-- ===== src/Trace/Example.antt =====
-- A short trace of the apparatus: enable, command, status read, stop.
use chip_chain_v.Prelude.{ℕ_eq, ◌≡◌, refl, ok, ℕ, List, [], ◌∷◌, map, ◌++◌}
use chip_chain_v.Trace.Data.{
  Phase, request, response, status_sample, reset_assert, reset_release, software_stop, Event, Row,
  header, footer, event, Transaction, Trace, Footer, parse_trace, step, run, as_event, as_footer,
  check_footer, check_complete, check_event, fits_word, fits_bits, reset_step, bus_step, respond,
  pop, is_legal, echoes, range, window_sampled, stopped_before,
}

-- An event of epoch 1 outside reset, with nothing on the bus.
abbrev quiet : ℕ → ℕ → Phase → Event
quiet sequence cycle phase = record {
  sequence = sequence;
  cycle = cycle;
  reset_epoch = 1;
  phase = phase;
  transaction_id = 0;
  address = 0;
  write_enable = 0;
  byte_enable = 0;
  write_data = 0;
  read_data = 0;
  error = 0;
  request_valid = 0;
  response_valid = 0;
  reset_n = 1;
  enable_value = 0;
  command_value = 0;
  status_value = 0;
}

abbrev pub sample : ℕ → ℕ → ℕ → Event
sample sequence cycle status = record (quiet sequence cycle status_sample) { status_value = status }

abbrev pub ask : ℕ → ℕ → ℕ → ℕ → ℕ → ℕ → Event
ask sequence cycle id address write_enable write_data = record (quiet sequence cycle request) {
  transaction_id = id;
  address = address;
  write_enable = write_enable;
  byte_enable = 15;
  write_data = write_data;
  request_valid = 1;
}

abbrev pub reply : ℕ → ℕ → ℕ → ℕ → ℕ → ℕ → ℕ → Event
reply sequence cycle id address write_enable write_data read_data =
    record (quiet sequence cycle response) {
      transaction_id = id;
      address = address;
      write_enable = write_enable;
      byte_enable = 15;
      write_data = write_data;
      read_data = read_data;
      response_valid = 1;
    }

abbrev pub enable_request : Event
enable_request = ask 3 2 1 0x40000 1 1

abbrev pub command_request : Event
command_request = ask 6 3 2 0x40004 1 7

-- Enable (transaction 1), command (2) and a status read (3), which returns `status`.
abbrev pub events_with : ℕ → List Event
events_with status =
    record (quiet 0 0 reset_assert) { reset_n = 0 }
    ∷ quiet 1 1 reset_release
    ∷ sample 2 1 0
    ∷ enable_request
    ∷ sample 4 2 0
    ∷ reply 5 3 1 0x40000 1 1 0
    ∷ command_request
    ∷ sample 7 3 status
    ∷ reply 8 4 2 0x40004 1 7 0
    ∷ ask 9 4 3 0x40008 0 0
    ∷ sample 10 4 status
    ∷ reply 11 5 3 0x40008 0 0 status
    ∷ sample 12 5 status
    ∷ record (quiet 13 6 software_stop) { address = 0x20008; write_data = 1 }
    ∷ sample 14 6 status
    ∷ sample 15 7 status
    ∷ []

abbrev pub closing : Footer
closing = record {
  complete = 1;
  event_count = 16;
  last_cycle = 8;
  reset_epoch_count = 1;
  normal_sim_exit = 1;
}

abbrev pub rows_with : ℕ → List Row
rows_with status = header ∷ map event (events_with status) ++ footer closing ∷ []

abbrev pub transactions_with : ℕ → List Transaction
transactions_with status =
    record { asked = enable_request; answer = reply 5 3 1 0x40000 1 1 0 }
    ∷ record { asked = command_request; answer = reply 8 4 2 0x40004 1 7 0 }
    ∷ record { asked = ask 9 4 3 0x40008 0 0; answer = reply 11 5 3 0x40008 0 0 status }
    ∷ []

abbrev pub trace_with : ℕ → Trace
trace_with status = record {
  events = events_with status;
  transactions = transactions_with status;
  closing = closing;
}

pub parses : parse_trace (rows_with 9) ≡ ok (trace_with 9)
unfolding parse_trace step run as_event as_footer check_footer check_complete check_event fits_word
    fits_bits reset_step bus_step respond pop is_legal echoes range window_sampled stopped_before
parses = refl
