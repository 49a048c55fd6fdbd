-- ===== src/Lib.antt =====
-- The agentic memory stack keeps an assistant's long-term memory as records in a vector store and
-- serves them over HTTP, and runs its maintenance jobs from a durable queue. This library models
-- the parts of the server that decide who may change a record, how one record replaces another,
-- which records a search may return and how they are ranked, how a job is claimed, how a session
-- becomes an episode, what health the server reports, and how two of the batch jobs repair and
-- sweep the corpus.
--
-- Prelude holds the shared names: native numbers, Boolean tests, list helpers, Python's text
-- operations (Prelude.Text), texts as code points (Prelude.Codes), a dict as an association list
-- (Prelude.Dict) and the stable sort that Fusion and Freshness share (Prelude.Sorting). Payload is
-- the dict of JSON values that a record carries, with Python's truthiness and `str`.
--
-- Supersession models mem0-server/supersession.py. Ids has is_memory_id, _norm_id and
-- clean_source; Rules has precheck, split into its stages, is_noop, the payloads and
-- clear_precheck; Store is the interface of the vector store that the transactions are handed,
-- with the laws of its reads after its writes, and an implementation in memory; Transaction has
-- run_supersede and run_unsupersede over a world of one store and one ledger, in which a raise is
-- an outcome. Matrix, Audit, Protect, Effect, Frame, Repeat and Undo hold the theorems. The store
-- and the ledger are parameters: each may refuse any call.
--
-- Admission models mem0-server/admission_gate.py. Policy has the policies of the query classes and
-- AdmissionPolicy.evaluate; Apply has apply_admission with its daily counters, its log of
-- rejections, which may refuse a line, and the cached lookup of stamp targets. Floats are values
-- of an abstract type that the gate only compares, the clock and the parser of timestamps are
-- parameters, and so is what the environment sets. Today has the snapshot of the counters.
-- Isolation, Stamps, Cleared, Targets, Hidden and Counting hold the other theorems; Hidden joins
-- the gate to the supersession door.
--
-- Security models mem0-server/security_invariants.py. Labels has the job labels, the service
-- credential and authorize_metadata_patch; Replay has the replay store of nonces as a list of
-- lines; Token has fetch_current_tier, validate_hmac_user_direct, validate_insight_actor and
-- assert_writable. HMAC-SHA256, the parser of timestamps and the size of the file are parameters.
-- Patch, Recorded, Scanned, Valid, Once, Gate and Ambiguity hold the theorems. A run of the server
-- is a sequence of accepted tokens, each a step.
--
-- Jobs models scripts/wsl/jobs.py. Queue has the rows of the table and the statements of reap,
-- _claim and _finish; Steps has the runs, in which the statements of any invocations follow each
-- other in any order; Heartbeat has _refresh_heartbeat, Receipt has observe_receipt and Invocation
-- has cmd_run, whose child process, receipt file and neighbours are arguments. Active, Kept,
-- Distinct, Reap, Complete and Observe hold the theorems.
--
-- WritePath models mem0-server/write_path.py. Tracker has WritePathTracker, whose deques are lists
-- with the newest stamp first, and Middleware has the HTTP middleware that feeds it. History and
-- Served hold the theorems, which tell what is published from the history alone.
--
-- Carryover models mem0-server/payload_carryover.py: Keys has compute_carryover, Kept its theorem.
-- PairCache models mem0-server/pair_cache.py: Store has make_key, get and put over a map by
-- primary key, Fresh and Keys the theorems.
--
-- Freshness models mem0-server/freshness.py: Decay has freshness_weight and
-- apply_durable_freshness over an abstract type of floats, Order its theorem.
--
-- Mojibake models mem0-server/mojibake_check.py and scripts/wsl/cp437-repair.py. Codec has
-- Python's codecs cp437 and utf-8; Repair has the detector and repair_text; Scan has scan_payloads
-- and mojibake_health, whose scroll is a parameter; Phase has scan_sqlite_phase, _flag_gate and
-- apply_sqlite_phase over a database of rows, in which sqlite may refuse any update, and the modes
-- of main. RoundTrip, Detection, Counts, Receipts, Rewrite and Repaired hold the theorems.
--
-- Episodic models the sessions and episodes of mem0-server/episodic.py, the verdicts on turns of
-- mem0-server/hook_contract.py, and abandon_ids of scripts/wsl/episodic-reconcile.py. Words has
-- the operations on texts, Turn the verdicts, Summary _append_running_summary and
-- scrub_running_summary, Store the tables and the statements, Steps the runs of them. SQLite's
-- clock enters as text, and the distance of two times is a parameter. Newest, Open, Rows,
-- Statements, Ledger and Finalize hold the theorems.
--
-- Capabilities models mem0-server/capabilities.py. Checks has the inputs, States and Signals the
-- verdicts, Select _state_for, and Manifest the rows, evaluate and admission_selfprobe, which runs
-- the policies of Admission. An age counts thousandths of an hour. Verdict and Probe hold the
-- theorems.
--
-- Fusion models mem0-server/fusion.py over an abstract type of floats. Rank has rrf, Search has
-- ams_score_and_rank, the legs and counts of searches, and the verdict of health; mem0's own
-- formula is a parameter. Ranked and Stamped hold the theorems.
--
-- Sweep models scripts/wsl/contradiction-sweep.py. Rotation has order_canonicals, the budget of a
-- run, and its loop with the markers that it writes, in which a query or a judge may fail and the
-- server may refuse a marker; Rules has candidate_skip_reason, the loop that picks candidates and
-- resolve_action. FullPass and Candidates hold the theorems.
--
-- The loops of the code run over finite lists and are structural recursion; no definition runs on
-- fuel but the walk over pages, which the code caps at fifty, and the printer of decimal numbers,
-- which has more fuel than digits. Time counts microseconds since the epoch. Left out are the text
-- of error messages, log lines and file rotation, the HTTP handlers, the judges and embedders, and
-- the rest of the scripts that drive the server.
pub mod Prelude
pub mod Payload
pub mod Supersession
pub mod Admission
pub mod Security
pub mod Jobs
pub mod WritePath
pub mod Carryover
pub mod PairCache
pub mod Freshness
pub mod Mojibake
pub mod Episodic
pub mod Capabilities
pub mod Sweep
pub mod Fusion
