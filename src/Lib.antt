-- ===== src/Lib.antt =====
-- ChipChain from firmware to hardware. Static side: the search for bounded reachability witnesses, the
-- checks of a firmware capability, the binding of its accesses to hardware resources, the matching of
-- bound capabilities against a hardware behavior contract, and the comparison of a declared capability
-- with a contract. Runtime side: the mapping from runtime addresses to ELF addresses, the parser of raw
-- bus traces, and the verifier that judges a target run, and an optional reference run, against a
-- contract.
--
-- Files
--   Prelude          the names shared by all modules: Boolean tests, list searches, results that may
--                    be errors, and Python's text functions.
--   Trace            parse_apparatus_trace of src/chipchain/firmware/mmio_grounding.py. Data holds the
--                    rows, the state of the loop and the parser; Step, Link, Epoch and Samples hold the
--                    lemmas on one round and on a run; Accepted says what an accepted trace satisfies.
--   Verifier         src/chipchain/cross_layer/type2_verifier.py. Data holds the evidence and the
--                    contract; Judge the verdicts and how they combine (condition, _aggregate,
--                    _deviation_value, _final_status); Access the executed accesses
--                    (_capability_transactions, _access_atom); State the enable register and the status
--                    reading (_state_before, _sample_read, _linked, _predicate_eq); Scope, Trigger,
--                    Deviation, Reference and Verify the parts of verify_type2 with the validators of its
--                    result. The proofs are in PreState, Total, Built, Sound, Status, Executed, Raises.
--                    Total has a child for each part of verify_type2.
--   Image            src/chipchain/runtime/image_mapping.py. Data holds the mapping, its checks and the
--                    translation (elf_address); Unique and Translate the proofs.
--   Domains          NumericDomain of src/chipchain/firmware/capability.py with its validator, and
--                    compare_numeric_domains of src/chipchain/cross_layer/capability_compatibility.py, in
--                    Data; Contained the proofs.
--   Capability       src/chipchain/firmware/capability.py: the records in Data, the validators of a
--                    capability's parts in Check, the references from its primitives to its constraints
--                    in References and the evidence for its primitives in Authority (validate_bindings, without
--                    provenance and retirement). Kinds and Full hold the proofs.
--   Compat           src/chipchain/cross_layer/capability_compatibility.py: Data holds the aggregation of
--                    outcomes and the rows, Fields and Trigger the comparison of a trigger with the primitives of a
--                    capability (_trigger_alternative, _trigger). Met, Payload, Sound and Rows hold the
--                    proofs.
--   Binding          src/chipchain/hardware/resources.py in Data, and
--                    src/chipchain/cross_layer/resource_binding.py in Select (_select) and Sets (_set,
--                    bind_resources, bind_capabilities). Supported, Manual and Covered hold the proofs.
--   Matching         src/chipchain/cross_layer/matching.py: Data holds the atoms of
--                    src/chipchain/cross_layer/trigger.py and the answers, Judge the match of one
--                    condition, Match the loop of match_requirements. Sound, Candidates and Total hold
--                    the proofs.
--   Reach            src/chipchain/tools/firmware/static_reachability.py: Search holds bounded_bfs,
--                    Catalog the records and their validators, Build the facts of
--                    build_static_reachability, Validate its last check
--                    (validate_reachability_witnesses) and the whole construction. Walk, Ends, Sound,
--                    Layers, Frame, Rounds and Shortest hold the proofs on the search, Accepted and
--                    Sites those on the facts, Lookup, Steps, Pairs, Functions, Owned, Outcomes
--                    and Built those on the whole construction.
--
-- How they interact
--   Binding reads the constraints that a primitive of a Capability selects; Matching reads them again,
--   with the bindings that Binding made, and judges each condition of the contract by them.
--   The verifier reads a run's parsed trace, which parse_trace returns, together with the run's
--   observations, capabilities and bindings. Errors are values: a function that may raise returns
--   Result, and `err` carries the reason of the ValueError or the kind of the exception. Dictionaries
--   are lists of entries; where Python's dictionary keeps the last entry for a key, `latest` does.
--   Image and Reach stand by themselves: Image translates the addresses of a declared load of an ELF
--   file, Reach searches a recovered graph. Domains compares what a firmware capability provides with
--   what a contract requires; Compat compares by it the domains of a primitive with a trigger's numbers.
--   Numbers are natural numbers; the parser's own check bounds an event's fields by 32 bits.
--   Two functions on numbers have fuel: `decimal` the number plus one, which is more than its count of
--   digits, and `bit_and` the first number, which is at least its count of bits. `bounded_bfs` has a
--   round for each edge and two more: every round takes an item from the queue, and an item is queued for
--   a node only once (Reach.Ends).
--
-- Inputs that stand for what is not modelled
--   A trace is taken after JSON decoding; a line of a wrong shape is the row `other`. The replay of a
--   run (_validate_run) and the comparison of the pinned source trees (verify_controlled_source) hash
--   files: their results are the field `parsed` of RunEvidence and the argument of type
--   ControlledSource. Identifiers that are hashes of a record's other fields are left out, and a record
--   of the contract, the capabilities or the bridge holds the fields that the verifier reads. The
--   validators of those records are left out, so the theorems hold of more inputs than can be built.
--   Binding, Matching, Compat and Reach take the hashes that make identifiers, `str.casefold`,
--   `str.lower` and `int(text, 0)` as arguments; the theorems hold for any. A value of a constraint is not negative.
--
-- Not modelled
--   The front ends (Ghidra, ELF, QEMU), the runtime acquisition, the case assembly, the workflows and
--   the command line, which read and write files; the matching of static facts of the older matcher and
--   the eligibility of pairs; serialization to JSON.
pub mod Prelude
pub mod Binding
pub mod Capability
pub mod Compat
pub mod Domains
pub mod Image
pub mod Matching
pub mod Reach
pub mod Trace
pub mod Verifier
