-- ===== src/Lib.antt =====
-- Verification library of the Python part of ramulator2: the address layouts and the concrete opcode
-- traces that drive the native LPDDR-PIM simulator.
--
-- A DRAM standard has a hierarchy of levels, Channel down to Column. `extract_dram_layout` resolves it
-- to a layout, `addr_vec_from_byte_address` maps a host byte address to one coordinate a level, and a
-- concrete trace is a header and a list of records, each an opcode at such a vector with a repeat
-- count. `validate_sequence` decides whether a trace may be replayed: each record by itself, the sum of
-- the repeats against a limit, and the mode of every rank.
--
-- An experiment manifest is a dictionary of JSON values; `resolve_experiment_manifest` checks it and
-- fills in the defaults, after `apply_overrides` has put single values in.
--
-- Files:
--   Prelude     Boolean tests, lists, products, integers, and errors as values, with their lemmas.
--   PyValue     JSON-like Python values, dictionaries in insertion order, `int()` and `str.lower`.
--   Addressing  python/ramulator/dram/addressing.py
--     Radix       the mixed-radix loop of the mapper, and its inverse
--     Vector      validate_addr_vec, addr_vec_from_byte_address
--     Layout      extract_dram_layout; Layout/Extract and Layout/Banks are about its result
--     Validation, Bijection   what the two functions of Vector guarantee
--   Trace       python/ramulator/workload_surrogate/lpddr5_pim_concrete_trace.py
--     Opcode      opcodes and repeats
--     Header      build_header, validate_header; Accepted is about what passes
--     Record      validate_record, with Interleave for the fields of interleaved PIM_MAC records
--     Slim        slim_record; Idempotent is about a second pass
--     Sequence    _record_rank_ids and validate_sequence; its children hold the protocol of one rank
--                 (Ranks), the loop against it (Acceptance, Refinement) and the history (History)
--   Semantic    python/ramulator/workload_surrogate/structured_trace.py
--     Kinds       the kinds of records, and the fields of each
--     Membership  what `in`, `<=`, `int` and `isinstance` tests make of a value, with Laws
--     Dataflow    the validators of transformer dataflow records; Accepted is about what passes
--     Record      validate_record and expanded_record_count; Accepted is about what passes
--     Manifest    validate_manifest; Accepted and Valid are about what passes
--   Lowering    python/ramulator/workload_surrogate/generate_lpddr5_pim_concrete.py
--     Chunks      _split_repeat and _host_address_chunks; Cover and Wrap are about what they cover
--     Modes       the inner functions of lower_semantic_records_to_concrete that keep the rank modes,
--                 and its blocks on one rank; Accepted and Blocks are about what they emit
--     FlatBank    _decompose_flat_bank and rank_for_flat_bank
--     Host        the HostRead and HostWrite branch of the loop over semantic records; Conserved and
--                 Wrapped are about the addresses that it emits
--     Weights     the sizes of a weight preload
--   Config      python/ramulator/pimscope/config.py, with pimscope/capabilities.py and
--               pimscope/workloads.py
--     Check       the checks of one value; Laws and Raises are about what passes and what is raised
--     Model       _resolve_model; Accepted and Raises are about it
--     Workload    _resolve_workload; Accepted (its checks), Resolved (its result) and Raises are about it
--     Hardware    _resolve_hardware, with Defaults (the tables), Checks and Pim (its checks, whose
--                 children Accepted say what passes); Resolved is about its result
--     Manifest    resolve_experiment_manifest; Resolved is about its result
--     Overrides   apply_overrides; Laws is about what an override changes, Parsed about its text
--     Load        load_raw_manifest; Keys is about the keys of its result
--
-- State and errors. A function that raises returns a Result, with the exception's class and, for
-- ValueError, a fixed text in place of the formatted one. The dictionaries `rank_modes` and
-- `rank_bcasts` are functions from ranks with the defaults of their `get` calls; the loop over records
-- carries them in a Walk. Python's integers are the library's natural numbers, or ℤ where a negative
-- one can occur; they do not wrap. Loops are structural. The three loops of Lowering/Chunks that
-- count down by a computed amount run on fuel, the repeats that are left; each round takes at least
-- one, and their theorems cover the whole stream. Where max_repeat_per_record is 0 the source does not
-- return.
--
-- Manifests. `copy.deepcopy` is the identity, since the values are not shared. A dictionary has
-- entries with texts for keys (`field`) and entries with other keys (`keyed`), which YAML allows;
-- one whose keys are fixed by the source is a record (Hardware, Manifest) with a function to the
-- dictionary. `d.update(e)` is taken where the keys of `d` are texts, as those of the source's
-- tables. The checks of `SUPPORTED_TOPOLOGY_FIELDS`, a set, are in the order of its text.
-- `json.loads` is a parameter of `apply_overrides`, with `none` for a JSONDecodeError; the reader
-- of a file, its text parsed, and the path that a reference leads to are parameters of
-- load_raw_manifest.
--
-- The sets of validate_manifest are lists of their members; a member is equal to another as `==` has it,
-- and a NaN to none. A loop over a set raises if any of its members makes it raise.
--
-- Not modelled: reading and writing files, JSON text, the formatted parts of error messages, floats
-- other than as dyadic numbers that int() truncates, string literals outside ASCII in int(), and the
-- C++ simulator. Of the lowering, the dispatch over semantic records, weight materialization and the
-- interleaved records are left out. A layout is taken as resolved, as extract_dram_layout returns it.
pub mod Prelude
pub mod PyValue
pub mod Addressing
pub mod Trace
pub mod Config
pub mod Lowering
pub mod Semantic
