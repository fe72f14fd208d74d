-- ===== src/Lib.antt =====
-- Verification of the core of costwise-mcp, a server that answers questions about a repository
-- from an index, a cache and a memory that it keeps beside the code.
--
-- The parts and their files:
--   Cache       internal/cache/cache.go: the answers of queries. `Get`, `Put`, `Invalidate`, `Stats`
--               and `NewCache` are `get`, `put`, `invalidate`, `stats` and `new_cache` on a `Cache`,
--               which holds the list and the map in memory and the table `cache_entries`. Elements
--               and Sync relate the list and the map, Refinement and Runs compare them with a plain
--               list, Rows, Latest and Loading are about `NewCache`, Staying and Invalidation about
--               `Invalidate`, and Keys is about the hash.
--   Ledger      internal/ledger/ledger.go: the log of a session. `append`, `read_all`, `close` and
--               `close_all` work on the files and the open handles; Scopes selects events, Brief
--               renders them; Lines, Sessions and Budget hold the proofs.
--   Index       internal/retrieval/indexer.go over internal/treesitter/db.go: `index` walks a tree
--               of files and changes the tables by statements. Paths holds the tests on paths and
--               Database the tables; Files, Stored, Rerun, Cleanup and Tombstones hold the
--               proofs. Searches holds the queries on the tables, Matches what `Search` finds.
--   Stash       internal/stash/stash.go: large texts under handles. `store`, `get`, `query`, `list`,
--               `prune` and `new` work on a directory and an index.
--   Sandbox     internal/mcpserver/session_cache.go and permissions.go: which directories may be
--               opened, and the sessions behind them.
--   Handlers    internal/mcpserver/tools.go: the tools `remember`, `stash_context`, `recall`,
--               `allow_dir` and `session_brief_tool` over a `Host`, which holds the sandbox, the
--               ledgers and, for each session, the facts and the stash. Sessions opens a session
--               (internal/session/repo_session.go), Texts holds the budgets, Refusals the proofs.
--   Builder     internal/contextbuilder/builder.go: the context of an answer within a budget.
--   AnswerType  internal/answertype/classifier.go: the kind of answer that a query asks for.
--   Pipeline    internal/retrieval/pipeline.go: the gate over the results and the limits by kind.
--   Memory      internal/kmemory/kmemory.go: facts by type and key. `store`, `find` (Lookup),
--               `search_type` (Search), `search_all`, `stats`, `save_to_file` and `load_from_file`
--               work on the entries and the index of words; Keys, Lookups, Ranking and Saving hold
--               the proofs.
--   Compress    internal/retrieval/compress.go and compress_response.go: the text for each kind of
--               answer. Snippets cleans the code of a result; Lines and Imports hold the proofs.
--   Classifier  internal/classifier/classifier.go: the class of a query. Indicators holds the words,
--               Words the tests on words, Scores the scores; Phrases and Choice hold the proofs.
--   Discovery   internal/discovery_memory/discovery_memory.go: results of tools with a time to live.
--               `store`, `lookup_tool` and `purge` work on the rows, `lookup_running` and
--               `run_deletion` are the steps of Lookup and of the deletions that it starts in the
--               background; Expiry holds the proofs.
--   RepoMemory  internal/repo_memory/repo_memory.go: the tables of known symbols and calls.
--   CallGraph   internal/retrieval/callgraph.go: `retrieve_callers` answers from the tables of the
--               index; Groups counts the calls of the answer.
--   Filters     internal/retrieval/filters.go: the results that a search may show.
--   Watcher     internal/watcher/watcher.go: the debounced runs of the index. `watch_event`,
--               `expire`, `take_files`, `finish` and `stop` are the steps of the loop, the timer,
--               the callbacks and Stop on a `Watchdog`; `reindex` calls the index, the cache and
--               the ledger. Steps holds the relation and its invariant, Quiet what follows the
--               last event.
--   Prelude     the names, lists, maps and Go's functions on strings that the others share.
--   Tests       runs at concrete inputs.
-- A query is classified (Classifier, AnswerType), its results pass the tests and the gate (Filters,
-- Pipeline) and are put into a context (Builder) or a short answer (Compress); a context is cached
-- (Cache) until the watchdog (Watcher) finds the repository changed, indexes it (Index) and
-- invalidates the cache; the tools (Handlers) open a repository through the sandbox, keep facts
-- and texts (Memory, Stash) and log what they do in the ledger.
--
-- What is a parameter: SHA-256; the refusals of the database; the JSON of events and manifests;
-- the format of times and scores; the errors of the file system; the stages of the parser; the
-- time of an operation; the events of fsnotify; the arithmetic of `float64` on the scores of the
-- classifier, which stand for their bits. A property with a hypothesis on one of them names it.
--
-- Conventions: a string is the list of its bytes, and case and white space are those of ASCII. An
-- int is a number, with a sign where the code tests it; a text that is cut by runes is UTF-8. A Go
-- map is an association list, listed in its order, and `sort.Slice` is an insertion sort, which is
-- one of the orders that the code may give; the properties on what is sorted leave the order of
-- equal elements open. The errors of a statement that the code drops leave the table as it was. A
-- failed write of a ledger, a stash or the facts may leave a part of the text in the file. The
-- entries in a file of facts are of known types; at a null entry the load ends with an error, where
-- the code panics. Locks are left out: an operation is one step. The callback of
-- the watchdog is two, the taking of the files and the run, so that several runs may be under way
-- at a time.
-- Loops are structural recursion; the eviction loop of `Put` has the length of the list as fuel,
-- which each round shortens, and decimal numerals have one more than the number.
--
-- Not modelled: the parser's trees, the searches of the other retrievers and their scores in
-- floating point, the protocol and the commands, installation and diagnosis.
pub mod AnswerType
pub mod Builder
pub mod Cache
pub mod CallGraph
pub mod Classifier
pub mod Compress
pub mod Discovery
pub mod Filters
pub mod Handlers
pub mod Index
pub mod Ledger
pub mod Memory
pub mod Pipeline
pub mod Prelude
pub mod RepoMemory
pub mod Sandbox
pub mod Stash
pub mod Tests
pub mod Watcher
