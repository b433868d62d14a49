-- ===== src/Lib.antt =====
-- The AI server of a blog platform: it stores posts in chunks with embeddings, analyses them with
-- language models, and talks about the analyses.
--
-- The program's parts. A crawler puts posts on a Redis stream. The ingest worker
-- (app/worker/ingest_worker.py) takes them, stores each as a document with its chunks in PostgreSQL
-- (app/service/document_service.py, app/service/chunker.py, app/repository/embedding_cache.py), and
-- puts an analysis message on RabbitMQ; the posts of a batch end in one snapshot document
-- (app/service/blog_snapshot_service.py) and one message. The analysis worker
-- (app/worker/analysis_worker.py) runs app/service/analysis_service.py for each message. The
-- conversation service answers questions about an analysed post, the diagnosis service
-- (app/service/blog_diagnosis_service.py) scores a blog, and the profile service
-- (app/service/profile_embedding_service.py) keeps one embedding for each profile. Limits on requests
-- are kept in Redis (app/core/rate_limiter.py), and exceptions become responses (app/api/error_handlers.py).
--
-- The files.
--   Base: numbers, lists, texts as lists of code points, dictionaries as lists of entries, integers,
--     and Python's `str` and `int` on integers.
--   Core/Effects: a run is a function of the log of calls made so far to a result, which is a value or
--     an exception, and the longer log. `Command` has one constructor for each call that leaves the
--     process; the answers are an argument, `Env`, and may be any function of the log, so that a
--     theorem holds for every behaviour of Redis, PostgreSQL, RabbitMQ and the providers, errors
--     included. Core/Effects/Issues, Ensures and Guarded have the rules that follow a run through
--     its blocks.
--   Core/Session: `session_scope` of app/core/database.py. Core/Exceptions: app/core/exceptions.py and
--     the handlers. Core/RateLimiter: the Lua script of app/core/rate_limiter.py, where a bucket
--     counts in the units of the fraction that the rate is; Core/Consume: its call. Core/Settings:
--     app/core/config.py. Core/Parsing: `int` and `or None` on the values of Redis.
--     Core/UrlSecurity: app/core/url_security.py.
--   Domain: app/domain/enums.py, schemas.py and models.py, and JSON.
--   Client/Llm: app/client/llm_client.py, with Client/Llm/Asks for what its callers need of its calls.
--   Repository: app/repository, one call for each statement. Repository/ContextRetrieval: the SQL of
--     app/repository/context_retrieval_repository.py as functions on the rows of two tables, with
--     DISTINCT ON, ORDER BY and LIMIT from Base/Sorting.
--   Api/Health: app/api/health_router.py. Api/Endpoints: the other routers, each endpoint in a session
--     that ends before the response is sent, as FastAPI 0.115 has it.
--   Service: app/service, with a module for each service and its theorems below it.
--   Worker/IngestMessage, FullBlogBatch and IngestWorker: app/worker/ingest_worker.py.
--     Worker/SnapshotLock: the status key of a batch as a relation of steps, one command of one
--     worker each, in any order; the time to live of the key, a day, is not reached there.
--     Worker/SnapshotLock/Shared has a world in which the others make steps between the commands of a
--     worker, and Worker/SnapshotLock/Refines joins `claim_snapshot` to the relation.
--     Worker/BatchProgress: the set and the counter of a batch as such a relation, without the
--     deadline; Worker/BatchProgress/Counts joins `count_post` to it.
--     Worker/Unsettled, UnsettledBatch, SafeAcks and Retries have what is proved of it.
--     Worker/Stops has the end of the loop.
--     Worker/AnalysisWorker: app/worker/analysis_worker.py; Worker/AnalysisSettles what is proved.
--     Worker/Handover and Worker/Marks: what the two workers hand over, as a message and as a mark in
--     Redis.
--   Migrations: alembic/versions, where a revision is a list of operations on a schema; the schema has
--     the tables with their columns and keys, and the indexes and unique constraints by their columns.
--   Tests: a world in which the theorems are applied.
--
-- Bounds and fuel. `while not stop` of the ingest worker is run for a number of turns, and says
-- whether it has stopped; every other loop is by recursion on its list or on a bound that is computed
-- from its input. Integers are unbounded, as Python's are. A float of an embedding or a temperature is
-- the pattern of its bits and is only passed on; the rates of the limiter and the shares of the budget
-- of a conversation are exact fractions, so that a wait of the script may differ by a millisecond from
-- that of Lua's doubles. Python's `int` is read with the digits of ASCII, and the numbers of JSON are
-- integers.
--
-- Assumptions, each a named hypothesis where it is used: `StopsUnlessRetried`, that tenacity makes no
-- second attempt after a result or an exception that its predicate refuses; `Embeds`,
-- what the providers and the cache answer; `Holds`, what Redis answers of a
-- key that nobody else changes; `KeepsLists`, that Redis keeps the lists that are pushed and that a
-- message is read back from its JSON; `KeepsCounter`, that it keeps the count of
-- a session's tokens; `KeepsProfiles`, that PostgreSQL keeps the rows of profiles
-- that are committed;
-- `NearerScoresHigher`, that `1 - x` turns the order of the distances of a query round; `KeepsSign`, that
-- a quotient of floats that are not negative is not negative; `StopsBy`, when `stop` is called;
-- `Foreign`, that a database has none of the names of the revisions; `SessionsWork`, that sessions open,
-- roll back and close; `ReadsBack`, that pydantic reads a message as the request whose fields it has, and
-- refuses an unknown mode; `KeepsValues`, that Redis keeps a value until something writes its key;
-- `Shared` and `SharedBatch`, that Redis answers a worker from the race, or the progress, of a batch;
-- `AnswersFrom`, that PostgreSQL answers the queries of context from two tables.
--
-- Not modelled: logging and spans; the set-up of FastAPI, SQLAlchemy, Redis and RabbitMQ;
-- alembic/env.py, and app/repository/similarity_repository.py, which is commented out. The
-- services take the answers to the queries of context from the world, which Service/ContextPrivacy
-- joins to the queries on the tables. What pydantic, json, hashlib and tiktoken compute are fields of
-- `Env` and `JsonReader`, what urllib, ipaddress and the resolver give are fields of `UrlLibrary`,
-- what pgvector and floats compute are fields of `Pgvector` and `Ratios`, and the trees of
-- BeautifulSoup are fields of the record of that name. The three checks of readiness run one after the
-- other. Starlette raises an exception that has no handler again, once its response is sent, for the log of
-- the server; here the response is the end. The texts of Python's TypeErrors in the diagnosis are left out.
pub mod Base
pub mod Service
pub mod Core
pub mod Domain
pub mod Client
pub mod Repository
pub mod Worker
pub mod Api
pub mod Migrations
mod Tests
