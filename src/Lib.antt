-- ===== src/Lib.antt =====
-- The dashboard template API serves dashboards over a set of DuckDB databases: a GraphQL endpoint and
-- an export endpoint check a request, take a connection from the pool, run one parameterized SQL query
-- and send the rows. This library models the parts of it that decide: who is let in, which connection
-- serves whom, and which SQL text is built with which parameters.
--
-- The parts, and the file that models each:
--
--   Security/RateLimiter   src/security/rate-limiter.ts. `Store` is the limiter's map, `check_limit` is
--                          checkLimit on it at a given time (`check_client` for one key), and
--                          `remove_expired_entries` the periodic cleanup.
--   Security/DepthLimit    src/security/depth-limit.ts: calculateNodeDepth and the rule, on a parsed document.
--   Security/Complexity    src/security/complexity-analyzer.ts: `Costs` the configuration and the price
--                          of arguments, `Score` the root fields, `Fields` the cost of a field and
--                          the walk below it, `Operation` the whole score. The arithmetic is a
--                          record, `Numbers`, with its laws.
--   Export/ConcurrencyGate src/export/concurrency-gate.ts. `try_acquire` and `release` as functions on
--                          the gate; a `Slot` is the release closure with its `released` flag.
--   Db/Pool                src/db/pool.ts. `Pool` holds the fields of ConnectionPool; each operation
--                          returns the pool and the outcomes of the promises that it settles. A method
--                          that awaits is cut there: `acquire` is the part before the first await,
--                          `initialized`, `opened`, `entered` and `opening_failed` are the continuations of
--                          openInReservedSlot, `on_timeout` and `on_abort` the timer and the listener
--                          of a waiter, `reload` and `drain_closed` the two ends of a reload (these
--                          and `close` in Db/Pool/Lifecycle). Db/Pool/Stats is getStats.
--                          `opened` ends at the check of openConnection, and `entered` begins behind it.
--   Db/Pool/Holders        the pool with its clients: `Move` is any of these steps, `Reach` any sequence. A
--                          client releases a connection that it holds.
--   Utils/Identifiers      src/utils/identifiers.ts: quoteIdent and qualifiedTable, on native strings.
--   Utils/SqlText          how a SQL text reads: identifiers in double quotes, `?` placeholders.
--   Utils/FilterTree       src/utils/filter-tree.ts. `FilterNode` is the tree a request sends,
--                          `collect_filter_variables` the walk that names its variables under the
--                          limits, `compile_criterion` and `compile_filter_tree` the SQL and parameters.
--   Utils/Columns          src/utils/identifiers.ts: assertColumns.
--   Utils/DefaultSort      src/utils/default-sort.ts: `resolve_effective_sort`, on the loaded metadata.
--   Utils/Pagination       src/utils/pagination.ts.
--   Export/AfterCursor     src/export/after-cursor.ts: completeTotalOrder, buildOrderBy and
--                          buildAfterPredicate; Reading has SQL conditions, with their text, their
--                          parameters and their meaning; Token has the `after` token.
--   Export/Params          src/export/export-params.ts: the readers of a parameter; Lists has the items of
--                          sort, groupBy and aggregates, Settings the guards of the endpoint, Request
--                          parseExportParams, of which `assemble` is the last statement.
--   Utils/Metadata         src/utils/metadata-mapping.ts: the fields of the metadata table, their label
--                          columns, their order and the choice of a label column.
--   Utils/Aggregations     src/utils/aggregations.ts: the aggregations and those that a type admits.
--   Utils/Aggregates       src/utils/aggregate-query.ts. Params has the checks of
--                          resolveAggregateParams, `resolve_group` and `resolve_aggregate`, Request
--                          `resolve_outputs` and the whole of it, Sql the text of the page and of
--                          the count, Rows the LONG format, Display the d3 format.
--   Utils/Decimal          the decimal text of an interpolated number.
--   Db/Schemas             src/db/schema-reconciliation.ts: the schemas that a catalog serves.
--   Db/Freshness           src/db/catalog-freshness.ts. Record has recordResult; Probe cuts runProbe
--                          at its awaits (`after_read`, `after_reload`), what is served at each of them
--                          being an argument; Reader is readCatalog, Status getStatus.
--   Cache/Keys             src/cache/cache-keys.ts: buildCacheKey.
--   Cache/Redis            what the cache relies on of a standalone Redis, as a record of operations and
--                          laws. `pages` bounds the calls of SCAN that an iteration takes, and is the
--                          fuel of the loop of scanKeys.
--   Cache/Invalidation     src/cache/cache-invalidation.ts: the patterns, `invalidate_catalog` and the other
--                          operations on a store that is the list of its keys, and the routes.
--   Common                 shared names, Boolean tests, lists and association lists; Result for code that
--                          throws, Sort for Array.prototype.sort, Map for a JavaScript Map.
--
-- The export endpoint reads its parameters, then calls the gate, the cursor and the pool in this order;
-- the filter tree and the cursor build their SQL by quoteIdent, and every request passes the rate limiter first. An aggregate query
-- reads the metadata fields, chooses label columns, embeds a compiled filter and quotes by the same
-- quoteIdent. The freshness probe reconciles schemas as the database layer does, and the versions that it
-- makes the pod serve are part of the cache keys.
--
-- Numbers are natural numbers, but for those of Security/Complexity: times are milliseconds of one clock.
-- The loops of the code are recursions on a list or on a tree, but for the fragments of
-- Security/DepthLimit and Security/Complexity, which a document may chain: there
-- the fuel counts the fragments entered within one another. It is enough when it exceeds the longest
-- chain of fragments, each spread by the one before. The loop of scanKeys has as much fuel as the laws
-- of Redis say that an iteration takes calls. The decimal text of a number takes sixteen digits,
-- enough for every safe integer.
--
-- Not modelled: DuckDB itself and the HTTP, GraphQL, Arrow and Redis libraries; the texts of errors; JSON
-- and base64url, which are the `Codec` of the token; timers, of which only the effect of firing is a step;
-- logging; of the pool, reloadOne and the building of an instance; and, so far, the export runner, the loaders, the resolvers, the Redis client, the database manager, the
-- configuration and the server.
pub mod Cache
pub mod Common
pub mod Db
pub mod Export
pub mod Security
pub mod Utils
