-- ===== src/Lib.antt =====
-- ComplyRoll, a compiler of vulnerability detail reports from scanner artifacts: its core in
-- src/complyroll. Open observations of weaknesses (models.py) are grouped into vulnerabilities
-- (correlation/__init__.py). A provider's evaluations (reports/evaluations.py) each select one of
-- them (reports/records.py), under rules of clocks, order and names (reports/checks.py). The
-- policy (policy/rules.py) adds deadlines to the clocks. The coverage projection
-- (reports/coverage.py) files the observations under the resources of an inventory
-- (reports/inventory.py), and walks the clock of each rule from one verification to the next, to
-- read its status at an instant and to record each window that closed empty. What was ingested
-- and decided is kept as events: the event store (store/sqlite.py) appends them to a log under
-- optimistic concurrency, with checkpoints of projections beside it; events/contracts.py names the
-- streams, events/repository.py reads them page by page, and history/fold.py folds the stream of
-- a case into its state.
--
-- The files and what they model:
-- - Models, Models/Text, Models/Checks: models.py, the enums, ResourceRef, Observation and what
--   their __post_init__ refuses.
-- - Policy, Policy/Timeframe, Policy/Calendar, Policy/Deadlines: policy/rules.py, the records,
--   RuleTimeframe.deadline_from, _add_calendar_months, and the deadlines of SelectedPolicy.
-- - Inventory: reports/inventory.py, the records, their checks and the index of identities.
-- - Coverage/Clock: ClockKey and entry_clocks. Coverage/Evidence: CoverageEvidence and _anchors.
--   Coverage/Window: CoverageClock and CoverageWindow. Coverage/Run: _run. Coverage/Collect:
--   _collect and _file. Coverage/Groups: the anchors and the stop of a sample group. Coverage/Runs,
--   Coverage/Derive: derive_coverage and _summary. Coverage/Filed: FiledEvidence. All are of
--   reports/coverage.py.
-- - Gaps: reports/gaps.py, coverage_gap_context_key.
-- - CaseOrder: history/order.py, case_order_diagnostic.
-- - Correlation, Correlation/Tracking: correlation/__init__.py.
-- - Evaluations: reports/evaluations.py, the records and _check_disposition_consistency.
-- - Matching: reports/records.py, _matches and _match_evaluations.
-- - Checks, Checks/Order, Checks/Collisions: reports/checks.py.
-- - Store/Rows: the tables and what SQLite looks up in them. Store/Arguments, Store/Json: the
--   checks of arguments and of JSON values. Store/History: versions and the last sequence.
--   Store/Session: _write_transaction, _read_transaction and transaction(). Store/Append, Store/Read,
--   Store/Projection: append, the reads, and the checkpoints. Store/Steps: the operations and the blocks
--   of a caller, which may catch exceptions, as steps on one store. Store/Schema: the marks of the schema and the opening. Store/Verify: verify_history.
--   All are of store/sqlite.py.
-- - Contracts: events/contracts.py, the identifiers of streams and the placement of events. Its child
--   Kinds describes the four aggregates that a stream is of.
-- - Repository/Pages: events/repository.py, read_all, read_stream and latest_payload.
-- - History/Fields: the readers of payload fields in history/fold.py, and parse_utc of
--   events/contracts.py. History/Records: the records of a case. History/Case: fold_case_records.
--   History/Case/Summed describes a state by the events of its stream.
-- - Errors and Instant: exceptions and datetime values. Common: what the others share; its
--   children are tests on numbers, lists, orders of keys, and the stable sort.
-- The other files hold lemmas on the file whose name they extend, or tests.
--
-- Conventions. An instant of UTC is a number of microseconds since the year 1, an aware datetime a
-- clock face and an offset; the conversion between them has the OverflowError of the code. A
-- Decimal is a coefficient and a number of places, and its products are exact. A function that
-- raises returns a Result, whose error names the exception and the field that its message is
-- about; a diagnostic carries the data that its message shows. A dictionary is an association
-- list in insertion order. Loops are structural recursion, on the list that the code iterates
-- over. The loop over pages in Repository/Pages has as fuel the number of rows and one more, which
-- its theorem shows to be enough; the digits of a number have the number and one more. A
-- Python type check holds by the type of the field. Where the code compares objects by identity,
-- the identity is a number.
--
-- A database is its tables; a transaction works on them and its rollback puts back what they were.
-- An integer that SQLite does not hold overflows when it is bound, and one of more than 4300 digits,
-- the default limit of Python, is not written as JSON. A nested `transaction()` and `close()` inside
-- a block are not among the statements of a block.
-- A connection is used by one caller at a time, since the code takes a write lock at the start of
-- every write transaction: an interleaving is a sequence of whole operations.
--
-- Not part of the repository, and so parameters: the time zone database (a zone is a pair of
-- conversions, Policy/Calendar/Utc is that of UTC), the digest of SHA-256, json.loads where the
-- store reads rows, and datetime.fromisoformat. The check of a payload against its contract is a
-- call of the jsonschema library, and the fold takes it as a parameter.
--
-- Not modelled: the command line, reading and writing files, the parsers of foreign formats in
-- adapters/, the JSON schemas, SQLite's own failures, append_batch of the repository and its checks
-- of a batch, the streams of artifacts, failures and coverage in history/fold.py with the audit of
-- them, history/writers.py, the selection of rules from the dataset, the parsers of the inventory
-- and of the evaluations, the canonical form of an observation, the observation of a coverage gap,
-- the compile of records and the renderings of reports.
pub mod Common
pub mod Errors
pub mod Instant
pub mod Models
pub mod Policy
pub mod Inventory
pub mod Coverage
pub mod Correlation
pub mod Evaluations
pub mod Matching
pub mod Checks
pub mod Gaps
pub mod CaseOrder
pub mod Store
pub mod Contracts
pub mod Repository
pub mod History
