-- ===== src/Lib.antt =====
-- Versioning of a gateway's components (pkg/version) and its clients of Dragonfly
-- (pkg/dragonfly) and PostgreSQL (pkg/postgres), and its API definitions (pkg/apidef): a model and
-- its correctness.
--
-- pkg/version gives every component of the gateway a set of versions. A request's version is
-- detected (pkg/version/detector.go) from headers, the query, the path or the context and parsed
-- (pkg/version/version.go); the manager (pkg/version/manager.go) finds the component and checks
-- that it supports the version, counts the request in the metrics collector
-- (pkg/version/metrics.go) and runs the component; the migrator (pkg/version/migration.go) carries
-- data from one version to another; pkg/version/utils.go orders and groups versions and keeps a
-- compatibility matrix; pkg/version/errors.go holds the errors that all of them return.
--
-- pkg/dragonfly wraps go-redis: a client (pkg/dragonfly/client.go) is built from a validated
-- configuration (pkg/dragonfly/config.go), started, stopped and reloaded; its health loop runs the
-- checker of pkg/dragonfly/health.go and every command is counted in pkg/dragonfly/metrics.go;
-- pkg/dragonfly/errors.go says which errors are retried by RetryWithBackoff of
-- pkg/dragonfly/utils.go. pkg/postgres wraps pgx: the configuration (pkg/postgres/config.go) gives
-- the connection string, the client (pkg/postgres/client.go) runs statements, queries and
-- transactions on the pool and counts them. pkg/apidef/models.go declares what an API is: its listen
-- path, target, authentication and transformations, which it validates and matches with requests.
--
-- The files:
--   Common     lists, Go maps as association lists, int as ℤ; Word: int64 and counters modulo
--              2 ^ 64; Guards: a chain of checks that returns the first error; Durations
--   Text       strings as lists of bytes: strings.Split, SplitN, TrimPrefix, ..., strconv.Atoi;
--              Space: strings.TrimSpace; Suffix: strings.HasSuffix, strings.TrimSuffix
--   Sort       the package sort as an interface; Sort/Insertion meets it
--   Version    Version and VersionRange; Order: Compare and the upgrade tests; Range: Contains and
--              Versions; Parse: ParseVersion and what is built on it
--   Utils      lists of versions; Choice: latest, oldest, closest; Groups: by major number;
--              Matrix: VersionCompatibilityMatrix; Summary: GetVersionSummary
--   Value      interface{} as far as the migrator looks into it
--   Errors     the error types, their texts; Build: their constructors; Codes: GetVersionErrorCode
--              and Unwrap
--   Metrics    DefaultMetricsCollector; Counting: the counters; Usage: GetUsageStats
--   Manager    Manager; Registry: its invariant; Registration: Register and
--              Unregister; Queries: the reading methods;
--              Serving: Get and ProcessVersioned; Constraints: CheckCompatibility; Race:
--              RegisterWithConstraints with a call between its halves; Requests: the builders of
--              requests and responses, ProcessWithAutoVersion
--   Migration  Migrator; Data: field mappings on maps and structs; Paths: which migrations exist;
--              Fields: what a mapped map holds; Renaming: a renaming and its reverse
--   Detector   Detector; Sources, Accept, Context: single sources; Reads, Priority: the
--              places of the methods and their order;
--              Debug: CreateDebugInfo
--   Response   HTTPVersionResponseWriter of pkg/version/utils.go, as the calls on the writer
--   Dragonfly  pkg/dragonfly.
--     Errors   errors.go; Chain: wrapped errors
--     Retry, Keys, Address, Bytes, Info  utils.go: RetryWithBackoff (Rounds, Calls), Redis keys,
--              ValidateAddress, FormatBytes, ParseDragonflyInfo with its readers
--     Config   config.go; Presets: its configurations; Valid: Validate
--     Metrics  metrics.go; Contains: the search in an error's text; Totals: the counters; Spread,
--              Latency: minimum and maximum; Snapshots: Snapshot and GetErrorRate
--     Health   health.go; Counts: the counts of checks; Batch: BatchHealthCheck
--     Client   client.go; Options: the options of go-redis; Life: Start, Reload and the
--              health loop; Ledger, Leaks: the connections that stay open
--   Postgres   pkg/postgres.
--     Errors   errors.go
--     Config   config.go; Presets, Valid; Connection: ToConnectionString
--     Client   client.go; Transactions: RunInTransaction; Balance: its counters;
--              Queries: the counters; Closed: a closed client; Columns: GetTableColumns
--   Apidef     pkg/apidef/models.go.
--     Auth     AuthConfig and its Validate; Valid: what it accepts
--     Transforms, Definition  Transform and APIDefinition with their methods
-- A file named Tests, but for Common/Tests, applies the theorems at concrete inputs.
--
-- A function or method keeps its name in snake_case; a method of a shared type has the type's name
-- in front where two would meet (range_contains for VersionRange.Contains). State is passed in and
-- out: a method of a stateful type takes the state last and returns the
-- result with the new state. A mutex that is held throughout a method makes it one step. A nil
-- pointer or interface is `none`, a panic is `none` where the comment says so, an error is a
-- GoError in pkg/version and an error of the package's own type in the others. A Go map is an
-- association list and its order of iteration is the list's order, so a
-- statement for every map covers every order. The current time is an argument.
--
-- Bounds: an int has 64 bits; ParseVersion goes through atoi, which fails out of range, so no
-- arithmetic on version numbers overflows. The counters wrap modulo 2 ^ 64, and so do the doubled
-- delays of a retry. The loops are structural or have fuel: strings.Split by the empty separator
-- and the trimming of spaces the length of the text, and each round takes at least one byte;
-- FormatBytes the number of bytes, which each round divides by 1024, so that it is never used up;
-- RetryWithBackoff the number of its rounds, one more than the retries.
--
-- Parameters: the package sort (permutation, sorted for a strict weak order), fmt's %v, float64
-- division and multiplication, strconv.ParseFloat, a duration in seconds, the settings of
-- crypto/tls, regexp.Compile, the answers of go-redis and pgx, the clock, and the methods of a
-- registered component, which are functions that answer the same each time.
--
-- Not modelled: the encoding of JSON, the package's global manager, the options of NewManager; of
-- pkg/dragonfly the getters of the client, the pipelines, FormatDuration, Clone and the tracing; of
-- pkg/postgres the query builder, the batches, the queries for one value, Clone and the ticker of
-- the metrics; of pkg/apidef the structs without operations and JSON; and the other packages
-- (pkg/config, pkg/kafka, pkg/vault, pkg/logger, pkg/otel, cmd), which wrap client libraries or
-- declare data.
pub mod Common
pub mod Text
pub mod Sort
pub mod Version
pub mod Utils
pub mod Value
pub mod Errors
pub mod Metrics
pub mod Manager
pub mod Migration
pub mod Detector
pub mod Response
pub mod Dragonfly
pub mod Apidef
pub mod Postgres
