-- ===== src/Lib.antt =====
-- The knowledge service of the middle platform (knowledge/): retrieval over indexed sources, the
-- catalog of those sources with its queue of synchronisation jobs, the identities that own
-- conversations, the agents' runtime, and the evaluation of the agents.
--
-- Catalog (knowledge/catalog/repository.py, knowledge/catalog/models.py): the tables are lists of
-- rows in one record, Catalog.Models.Catalog; a method takes the database and returns its result or
-- exception beside the database that it leaves. Catalog.Jobs models the methods on `sync_jobs`:
-- enqueue_job, claim_next_job, delete_queued_job, complete_job, fail_job and `_finish_job`
-- (finish_job), requeue_job and requeue_stale_jobs. Its children hold what they write (Writes), the
-- invariant of the table (Invariant, Keeps), histories of calls (History), the order of claims
-- (Claims, Draining), leases (Leases, Fencing, Finishing) and repeated requests (Requests). Of the
-- catalog's other tables, Catalog.Library holds the rows that hang on a source and the deletions
-- that cascade along the foreign keys, Sources, Versions and Contents model the methods on sources,
-- versions, domain rules, files, symbols and chunks, and Secrets those on secrets and administrator
-- sessions.
-- Source synchronisation (knowledge/source_sync/worker.py): SourceSync.Worker models `run_once`
-- over the catalog's methods, with the processor of a job as a parameter that may also stand for
-- what other workers do meanwhile; Git models that processor, GitSourceJobProcessor, over a
-- snapshot manager and an indexer that are parameters, and Scan models `scan_once`, which queues
-- jobs for new commits. SourceSync.Diff models `_parse_diff` (knowledge/source_sync/repository.py),
-- whose loop runs on fuel: the number of fields is enough, since each round takes one at least.
-- Runtime (knowledge/agent_runtime): PendingRuns and Scopes model the repositories of
-- pending_runs.py and conversation_scopes.py, each over SQLite and over PostgreSQL, and compare the
-- two (Agreement, Binding). Context models reserve_retrieval (Budget, Calls) with what a saved
-- context keeps of it, start_tool and finish_tool (Tools) of context.py, and Redaction its
-- redact_mapping. Metrics models MetricQueryGuard of metric_gateway.py over MetricCache (Bounds,
-- Calls), the result cache of metric_mcp.py. Evidence models evidence_policy.py and Routing
-- hybrid_intent_router.py.
-- Retrieval (knowledge/services): Fusion models HybridRerankService of hybrid_rerank_service.py
-- over Circuit, provider_circuit.py, and Documents, knowledge/schemas/documents.py.
-- Auth (knowledge/auth/repository.py): Owners models the conversation owners, MergeJobs the
-- identity merge jobs, OAuth the login states, Sessions the users' sessions, Devices the anonymous
-- devices, Tokens the personal API tokens, and Users the users, audit events and cleanup.
-- Auth.Merging models IdentityMergeService (knowledge/auth/merge.py) over these and the memory
-- repository.
-- Memory (knowledge/memory/repository.py): Extraction models the queue of extraction jobs, Records
-- the rows of candidates and memories, Candidates their creation and review, Upkeep what expires,
-- deletes and lists them, Merging the merge of an owner, Promotions the domain promotions and the
-- repairs of the index, and Notes the summaries and the conflicts; History holds the histories of
-- calls.
-- Quality (knowledge/quality): Records holds the rows of cases, runs and results, Cases, Runs and
-- Results model the methods of repository.py on them, with the invariant of the tables (Invariant),
-- and Postgres its other claim of a run. Judging and Behavior model how an answer becomes a result,
-- the language model that judges being a parameter, Evaluation models QualityEvaluationService over
-- the repository, with the agent and all that others write meanwhile as a parameter, and Worker
-- models the rounds of QualityEvalWorker.
--
-- SQL statements are the operations of Prelude.Table on lists of rows. A transaction is one step,
-- as over SQLite, where the repositories begin it by BEGIN IMMEDIATE, or by a row lock or a single
-- statement of PostgreSQL; where a method reads before its transaction begins, the transaction is
-- also a step of its own. The repositories that run the SQLite statements over PostgreSQL have
-- SELECT 1 in place of BEGIN IMMEDIATE (knowledge/persistence/sqlite_compat.py): there the methods
-- that read and then write may interleave, which the models of approve_candidate, enqueue_job and
-- others do not cover; Auth.OAuth has the two statements of consume_oauth_state apart. The
-- constraints of the tables are those of the SQLite migrations, of which the PostgreSQL schema
-- lacks the unique indexes on current versions and on requests; the latter is left out of the
-- model, since the lookup of enqueue_job comes before it in the same transaction. Timestamps are
-- numbers of microseconds, and identifiers from `uuid4()` are arguments. Python's `str.strip()` is
-- Prelude.Strip. `json`, `re`, `unicodedata`, floats, language models and servers are parameters,
-- but for the scores and durations of evaluations, which are whole numbers of a small unit. Other
-- loops are recursions on lists.
--
-- Not modelled: the HTTP layer and its schemas, the agents and their models, the database drivers,
-- Git and GitLab, the Vue front end, the parsers that third-party libraries carry out, and, of the
-- repositories, the catalog's spaces, webhooks and Swagger cache, the memories' procedures, the
-- recorded turns with their feedback, the indexing coordinator and the bug graph.
pub mod Prelude
pub mod Catalog
pub mod SourceSync
pub mod Runtime
pub mod Quality
pub mod Retrieval
pub mod Auth
pub mod Memory
pub mod Tests
