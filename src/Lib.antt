-- ===== src/Lib.antt =====
-- Verification library of Legacy Doc, a service that documents source code with language models.
--
-- The program. The API (apps/api) authenticates callers, checks their plan and quota, limits their
-- requests and puts jobs in a table of the database. Workers (apps/worker) claim jobs from that table,
-- hold them under a lease that they renew, cut the code into chunks (packages/parsing), send each
-- chunk through a chain of model providers (packages/providers, driven by packages/agents), and report
-- the job as done or failed. A reaper gives back the jobs of workers that stopped answering.
--
-- The files.
--   Common    names passed on from the libraries, Boolean tests, lists as tables, texts, arithmetic.
--   Plans     packages/core/legacydoc_core/plans.py: tiers, depths, features and limits.
--   Jobs      the rows of the table `jobs`, packages/core/legacydoc_core/models.py.
--   Queue     packages/core/legacydoc_core/queue.py: `enqueue`, `claim_job` (the atomic statement, and
--             the selection followed by a guarded update), `heartbeat`, `complete_job`, `fail_job`,
--             `reap_expired_leases`, `cancel_job`, and sequences of them by any workers; the machine of
--             statuses that they follow (Queue.Machine).
--   Quota     the job quota of apps/api/legacydoc_api/deps.py, over the table of jobs.
--   Billing   packages/core/legacydoc_core/billing.py: the calendar, and in Billing.Settlement the spend
--             of a month, the credits and their settlement, with the budget test of deps.py.
--   RateLimit packages/core/legacydoc_core/ratelimit.py: the sliding window of one key and the bounded
--             table of keys.
--   Providers packages/providers/legacydoc_providers/router.py and catalog.py: the chain of models of
--             a role, the fallback loop with its records, prices.
--   Chunking  packages/parsing/legacydoc_parsing/chunking.py: packing symbols into chunks, symbols
--             above the budget, and the cuts by lines of a file without symbols.
--   Languages packages/parsing/legacydoc_parsing/languages.py: the language of a path.
--   Domain    packages/core/legacydoc_core/domain.py: what the parser and the agents exchange.
--   Pipeline  packages/agents/legacydoc_agents/pipeline.py: anchoring the agents' answers to the parsed
--             symbols, deduplication and, in Pipeline.Run, the loops over chunks and reviews and `run`.
--   Worker    apps/worker/legacydoc_worker: the loop of processor.py over a job's files (Worker),
--             `process` and `_execute` of runner.py (Worker.Runner), and attempts at a job from the
--             claim to the reaper (Worker.Rounds).
--   JobRoutes apps/api/legacydoc_api/routers/jobs.py: creating a job with its guards, showing it,
--             cancelling it and deleting it from the history.
--   Accounts  packages/core/legacydoc_core/security.py, apps/api/legacydoc_api/routers/auth.py and the
--             authentication of apps/api/legacydoc_api/deps.py: registration, login and its lock,
--             password reset, API keys, and the caller of a request (Accounts.Access).
--
-- The models. A table is a list of rows; a statement `UPDATE … WHERE` rewrites the rows that pass the
-- test and counts them; a handler takes the tables and returns its answer with the tables that are
-- committed. The clock is read once in a call and is an argument. An exception is a value of the
-- answer. Identifiers are numbers. The loops of the source are structural recursion over the list that
-- they walk, so no fuel is needed; the review loop recurses on the rewrites left.
--
-- Numbers. Counts, prices and instants are natural numbers: seconds for jobs, ticks of the clock for
-- the limiter, microseconds for accounts, and units of 10 ^ -8 dollars for prices
-- and credits; a moment of the calendar is its year, month, day and time. Where the source divides
-- floats (the fractions of a rate limit window, `len(text) / 3.6`), the model has the exact quotient,
-- except for `math.ceil` of the wait that the limiter advises, which is a parameter.
--
-- The session. `fail_job` decides on the row that the caller's session read earlier, which may be out
-- of date: it takes that row as an argument, and what is proved of its effect on the queue says when the
-- row has to be fresh. The columns it sets are all written, also those that the old row already had.
--
-- What is a parameter: the hashes, JWT and UUID texts, and the methods of `str` (Accounts.Externals);
-- Python's notion of a space (Chunking); what a provider answers (Providers.Outcome) and what the
-- agents answer for a chunk and when a rewrite ends (Pipeline.Run.Agents); `urlparse`
-- (JobRoutes.Setting); what the worker finds around it (Worker.Surroundings): the parsed file, clones,
-- extracted archives and their files, and what other transactions do to the database meanwhile.
--
-- What is not modelled: the database engine, HTTP and the file system; the clients of the model
-- vendors; the extraction of symbols by tree-sitter; exporters, prompts and texts shown to users; the
-- prices, margins and displayed amounts of billing; the extraction of archives, the cloning and
-- scanning of repositories and the selection of context; a worker's polling, its signals and its
-- records of usage; the upload of archives, the list of jobs and the routes for projects, documents and
-- administration; the command line, migrations and the web interface.
pub mod Common
pub mod Plans
pub mod Jobs
pub mod Queue
pub mod RateLimit
pub mod Providers
pub mod Chunking
pub mod Accounts
pub mod Quota
pub mod Billing
pub mod Languages
pub mod Domain
pub mod Pipeline
pub mod Worker
pub mod JobRoutes
