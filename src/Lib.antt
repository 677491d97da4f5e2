-- ===== src/Lib.antt =====
-- A multi-tenant vector search service: a Django application that takes documents for a bot of a
-- tenant over HTTP, cuts them into chunks, embeds the chunks with BGE-M3, stores them as points of a
-- Qdrant collection for each bot, and answers hybrid searches over HTTP and gRPC.
--
-- The files, by the part of the program that they model:
--   Errors                the exceptions (apps/documents/exceptions.py, apps/qdrant_core/exceptions.py)
--   Tenants               slugs (apps/tenants/validators.py)
--   Naming                collection names and lock keys (apps/qdrant_core/naming.py)
--   Documents.Models      rows and the ORM (apps/tenants/models.py, apps/documents/models.py)
--   Documents.Serializers the bodies of requests (apps/documents/serializers.py)
--   Documents.Views       the HTTP views (apps/documents/views.py)
--   Ingestion.Embedder    guards and conversions around the model (apps/ingestion/embedder.py)
--   Ingestion.Chunker     chunk_item and the truncation (apps/ingestion/chunker.py)
--   Ingestion.Payload     chunk ids and payloads (apps/ingestion/payload.py)
--   Ingestion.Locks       the polling of an advisory lock (apps/ingestion/locks.py); Sessions holds
--                         the interleavings of many requests as a step relation
--   Ingestion.Pipeline    UploadPipeline and DeletePipeline (apps/ingestion/pipeline.py): Rows holds
--                         the queries and saves, Hashing the content hash, Points the chunks and
--                         points, Locked the lock around a body, Upload and Delete the two pipelines
--   Ingestion.Warmup      the readiness flags (apps/ingestion/_warmup.py)
--   Qdrant.Client         the types of qdrant_client and its interface
--   Qdrant.Retry          with_retry (apps/qdrant_core/client.py)
--   Qdrant.Schema, Qdrant.Collection   the collections (apps/qdrant_core/collection.py)
--   Qdrant.Search         the hybrid search (apps/qdrant_core/search.py)
--   Core.Context, Core.Middleware      apps/core/timing.py and apps/core/middleware.py
--   Core.Health           the health endpoint (apps/core/views.py)
--   Core.Middleware.Stack the two middlewares in the order of config/settings.py
--   Core.Metrics          the Prometheus recorders (apps/core/metrics.py, metrics_recorders.py)
--   Core.Logging          log events and their configuration (apps/core/logging.py)
--   Ingestion.Embedder.Loading   the cached model and tokenizer (apps/ingestion/embedder.py)
--   Ingestion.Start       whether a process warms the embedder (apps/ingestion/apps.py)
--   Ingestion.Shelf       a bot's documents as a shelf: the specification of runs of the pipelines
--   Grpc                  the RPCs (apps/grpc_service/handler.py, proto/search.proto)
--   Grpc.Server           the server process (apps/grpc_service/server.py)
--   Scripts               scripts/verify_setup.py and scripts/load_test.py
--   Settings              what config/settings.py reads from the environment
--   Prelude, Exec         lists, texts and numbers; code that changes a state and may raise, with
--                         rules for what it keeps (Exec.Keeps), establishes (Exec.Yields) and
--                         returns (Exec.Gives)
--   Tests                 services in memory, and runs on them
--
-- A view calls a pipeline or the search; a pipeline takes the lock, asks the tables, and calls the
-- operations on collections. All of them run on one state, Ingestion.World.World: the tables, the
-- advisory locks and the Qdrant server, each behind an interface (Database, AdvisoryLocks,
-- QdrantClient) with laws (DatabaseLaws, QdrantLaws) where a theorem relies on what they do. What
-- was written before an exception stays written: the state comes back beside the exception.
--
-- Parameters are what the repository does not hold: the BGE-M3 model and its tokenizer, langchain's
-- splitter, SHA-256, uuid5, the clock, Django REST framework's checks of single fields, Postgres,
-- Qdrant and grpc. Floats are bit patterns, since the code does no arithmetic with them that
-- matters here; texts are lists of code points.
--
-- Fuel: the polling loop runs on 101 rounds, which always suffice for a timeout of 5 seconds and
-- sleeps of 50 milliseconds (Ingestion.Locks.Polling); the truncation loop runs on the length of
-- its text, which each round shortens; the decimal digits of a number on the number plus one.
--
-- Not modelled: the writing of log lines, timers, message texts of errors, the sleeps between
-- retries, Django's own settings, URL tables, admin pages, migrations (made by Django from the
-- models), and the percentiles and the sending of requests of scripts/load_test.py. The
-- pipelines run alone on their world; the statements around their locks are interleaved with those of
-- other sessions (Ingestion.Locks.Sessions), and so are the warmup flags (Ingestion.Warmup).
pub mod Prelude
pub mod Errors
pub mod Exec
pub mod Core
pub mod Tenants
pub mod Naming
pub mod Ingestion
pub mod Qdrant
pub mod Documents
pub mod Grpc
pub mod Scripts
pub mod Settings
pub mod Tests
