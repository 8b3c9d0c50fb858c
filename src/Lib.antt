-- ===== src/Lib.antt =====
-- The declarative GraphQL framework with a cache: its loader, SQL builder, cache, server and process,
-- the load test's shape and cell report, and the report of a matrix of cells.
--
-- The program serves GraphQL queries and mutations that a YAML document declares, from PostgreSQL.
-- framework/dsl reads and checks the document, rewrites its where texts and resolves its operations.
-- framework/sql/builder.py makes statements of them. framework/graphql/server.py builds a resolver for
-- each operation, that runs these statements; it wraps the queries that a cache rule covers in
-- framework/cache/interceptor.py, and the mutations in framework/cache/invalidator.py. Both work on a
-- `CacheBackend`: memory_backend.py, over `cachetools.TTLCache`, or redis_backend.py, over a Redis
-- server. framework/cli.py loads the document, makes the backends and the app, and serves them until it
-- shuts down. loadtest/ puts load on it, and
-- scripts/build_report.py draws charts of what was measured.
--
-- Which file models which part:
--   Base: shared names; dicts as association lists (Base/Dict, Base/Items, Base/Sorted), results and
--     methods that may raise (Base/Exec), calls inside `try` (Base/Outcome), integers (Base/Int),
--     Python's Unicode database (Base/Unicode).
--   Dsl/Schema, Dsl/Registry, Dsl/Errors: framework/dsl/schema.py, registry.py, errors.py.
--   Dsl/Loader: framework/dsl/loader.py. Checks has its checks of a document; Tokens `_TOKEN_RE.split`;
--     Where `_classify`, `_rewrite_where` and `_rewrite_set`; Resolve `_resolve_queries` and
--     `_resolve_mutations`; Load the reading, `_check_nested_mapped_types` and `load`.
--   Dsl/Value, Dsl/Placeholder: the arguments' values, and the `${args.NAME}` placeholders.
--   Cache/Backend: framework/cache/backend.py; the abstract cache (Ideal), what a backend promises
--     (Contract), and sequences of calls (History).
--   Cache/Memory: `MemoryBackend` of framework/cache/memory_backend.py. Cache/Ttl: its `TTLCache`.
--   Cache/Redis: `RedisBackend` and the Lua script of framework/cache/redis_backend.py. Cache/Redis/Server:
--     the Redis commands it uses. Cache/Redis/Broken: a pipeline that breaks off behind its `SET`.
--   Cache/Key, Cache/Tag: `make_key` of framework/cache/key.py, `render_template` of tag.py.
--   Cache/Interceptor, Cache/Invalidator: `wrap_query` and `after_mutation`.
--   Cache/Coherence: reads and mutations over one cache and one database.
--   Sql/Builder: framework/sql/builder.py; what its statements say (Texts, Sets, Statements, Mutations),
--     that they are made (Total), also of what the loader resolves (Loaded).
--   Graphql/Server: framework/graphql/server.py: the tables and wrappers, `_coerce_args` and the
--     resolvers (Resolvers), and `build_graphql_app` (Wiring).
--   Cli: framework/cli.py: `_state`, the two routes, the backends of the profiles, and `_lifespan`.
--   Stats: framework/stats.py. Loadtest/Shape: loadtest/shape.py. Loadtest/Runner: the cell report of
--     loadtest/runner.py. Report: scripts/build_report.py (its charts and `main` in Report/Drawing).
--   Examples: concrete libraries, and the theorems at concrete inputs.
--
-- A method is a function from the object's state to a result, which may be an exception, and the new
-- state: what was written before a raise stays written. A method that holds the asyncio lock and a Lua
-- script are one step each, and requests follow one another. A call of the Redis client may break off,
-- and then raises with its command, or the first commands of its pipeline, applied or not
-- (Cache/Redis). Releasing a connection, a rollback and a commit may raise (Graphql/Server/Resolvers).
-- Counters are held by value in the state of their owner: that the backends, the app and `/stats`
-- share the counter objects is not modelled. Time is a number of
-- seconds that a call is given. All loops are structural recursion; no definition needs fuel, except
-- that the scans of a template for placeholders and of a where text for tokens count down the
-- characters that a match has covered.
--
-- Parameters, with their documented behaviour as laws where a theorem relies on it: `TTLCache`
-- (Cache/Ttl), the Redis commands (Cache/Redis/Server), the hash of a cache key, the JSON round
-- trip of a result, the database with its resolvers (Cache/Coherence), asyncpg's pool and
-- transactions (Graphql/Server/Resolvers), ariadne's `make_executable_schema`
-- (Graphql/Server/Wiring), Python's Unicode database (Base/Unicode), files, YAML, pydantic and
-- graphql-core (Dsl/Loader/Load), the services of the process (Cli/Lifespan), and JSON, floats and
-- files for the report (Report). A value's `repr` in an error's text is its text in quotes.
--
-- Not modelled: pydantic's validation, what ariadne makes of a schema, Starlette's routing, the
-- load-test users, the load-test runner's processes, HTTP and tables, matplotlib's drawing and the
-- command lines, the timestamp in a matrix list's file name; arguments that are lists, objects or
-- floats; the interleaving of requests, of a pipeline's commands with another client's, and a
-- server that has forgotten the script.
pub mod Base
pub mod Cache
pub mod Cli
pub mod Dsl
pub mod Graphql
pub mod Loadtest
pub mod Report
pub mod Sql
pub mod Stats
pub mod Examples
