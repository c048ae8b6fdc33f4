-- ===== src/Lib.antt =====
-- Syntrix: a verification library for the Go runtime under packages/syntrix.
--
-- Syntrix stores documents, keeps sorted indexes of them, and streams their changes to subscribers. This
-- library models the deterministic core of the parts below as functions, and proves what they promise.
--
-- * Model follows packages/syntrix/pkg/model: `normalize_value`, `compare_values` and `equal_values` are
--   NormalizeValue, CompareValues and EqualValues of value.go, and Model.Filter is filter.go and
--   filter_eval.go. A float64 is its 64 bits; strconv.ParseFloat is a parameter.
-- * Indexer.OrderKey follows packages/syntrix/internal/indexer/encoding/orderkey.go: `encode` and
--   `extract_doc_id` are Encode and ExtractDocID, which use the keys of Model. Indexer.Template is
--   packages/syntrix/internal/indexer/template/template.go: ValidateTemplate, ValidateTemplates,
--   MatchTemplates and SelectBestTemplates. The hash of a template's semantics is a parameter.
--   Indexer.MemStore is packages/syntrix/internal/indexer/mem_store: MemStore.Index is index.go, over the
--   interface of an ordered tree, MemStore.Tree, with the laws that the tree's documentation gives.
--   MemStore.Database is database.go, MemStore.Patterns has the indexes by pattern of store.go, and
--   MemStore.Projections and MemStore.Generations are projection.go and what store.go has of the query
--   indexes, with MemStore.Views for its read views. The checks that all index stores share are
--   Indexer.Store: packages/syntrix/internal/indexer/store/store.go.
-- * Puller follows packages/syntrix/internal/puller: Puller.Events is events/types.go, Puller.Coalescer
--   is buffer/coalescer.go, and Puller.Flow is flowcontrol/circuitbreaker.go and backpressure.go.
-- * Streamer follows packages/syntrix/internal/streamer/manager: Streamer.Subscription is subscriber.go,
--   and Streamer.Exact, Streamer.Registry and Streamer.Serving are manager.go, with the compiler of
--   filters and the evaluation of its programs as parameters. Streamer.Contract has what the manager
--   promises, a map from subscription IDs to subscriptions, and Contract.Runs the commands on both.
-- * Database follows packages/syntrix/internal/core/database: Types and Identifier are
--   types.go and id.go, Cache and Lookups are cache.go, Service and Operations are service.go. The
--   store is a parameter, a record of functions over any type of states; each operation takes a state
--   and returns its answer with the state behind it.
-- * Gateway.ReplicaBudget follows packages/syntrix/internal/gateway/realtime/replica_budget.go: the
--   counters of reserve and its callers, and the queue of acquireAuth, releaseAuth and dispatchAuthLocked,
--   with the tokens and the clock as parameters. A waiter between its grant and its release is in
--   `granted`.
--
-- Common has what these share: tests, lists, the order of byte strings, machine integers, maps, results.
-- Examples runs definitions and theorems at concrete inputs.
--
-- Conventions. Strings are lists of bytes. A Go map is an association list; the source ranges over maps
-- in no fixed order, and no theorem depends on the order of the list. An error is a constructor of a
-- result type. Locks are left out: every operation of these parts holds its lock while it runs, save the
-- lookups of the database cache, which call the store between two locked steps and are modelled as one
-- step. The context of a read view ends between its calls. Clock readings are arguments, one for each operation. Where a pointer that the cache holds is
-- written, `write_through` of Database.Service writes the entry too.
--
-- Bounds. Loops are recursions on their lists, but for three: the digits of a uint32 take ten rounds, the
-- loop of ExtractDocID takes no more rounds than the key has bytes, and the eviction of the database
-- cache no more than the cache has entries. Numbers of configuration are natural numbers,
-- save the threshold and the timeout of the circuit breaker, which may be negative.
--
-- Not modelled: drivers of databases and of the message bus, gRPC and HTTP, tokens and hashes, CEL, the
-- persistent index store, background workers, and the wiring of the services.
pub mod Common
pub mod Model
pub mod Indexer
pub mod Puller
pub mod Streamer
pub mod Database
pub mod Gateway
pub mod Examples
