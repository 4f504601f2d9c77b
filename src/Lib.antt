-- ===== src/Lib.antt =====
-- RedGiant is a search index that is kept in memory: documents are rows of weighted terms, each
-- with an expire time, and queries read posting lists of documents by term. This development
-- models the core templates of src/main/core, and, around them, the features, the parsers, the
-- ranking models, the document index, the queues between threads, and the handlers of requests.
--
-- The parts, and how they work together:
-- * PostingList (core/index/btree_posting_list.h): the list of the documents of a term with their
--   weights, `BTreePostingList`, in an ordered map, with a cached upper bound of the weights, and
--   `BTreePostingListReader`, which walks through it. Its children are about lookups (Lookup), the
--   upper bound (Bound), the reader (Walk) and the constructor that takes a reader (Load).
-- * Sequential (core/index/sequential_posting_list.h): a posting list that does not change.
-- * Freezable (core/impl/freezable_posting_list.h): a posting list that can be frozen: before, it
--   takes changes and gives no reader; after, the other way round.
-- * BaseIndex (core/impl/base_index_impl.h, base_index_impl-inl.h): the posting lists that readers
--   see, `index`, and open copies of those that have changed, `changed_index`; `apply_internal`
--   freezes the copies and puts them in place. Posting defines the two views, `visible` and
--   `pending`; Opening is about `change_internal`, Changes and Removal about the changes, Apply
--   about `apply_internal`, Query about what readers are given.
-- * ExpireTable (core/impl/btree_expire_table.h): the expire times of the documents, as a map and
--   as a set in the order of the times (Pairs is that order).
-- * RowIndex (core/impl/row_index_impl.h, row_index_impl-inl.h): derives from BaseIndex and owns
--   an ExpireTable and the terms of each document. Rows is the abstract view, a function from
--   documents to rows, and the relation `Represents`; Batch, Expiry and Reach relate the operations
--   to it.
-- * PointIndex (core/impl/point_index_impl.h, point_index_impl-inl.h): derives from BaseIndex too,
--   is updated by single points, each of a term and a document, and has an expire time for each
--   point (TermDoc is the key). Points is the abstract view; Sweeping is about `apply`, Calls about
--   sequences of calls.
-- * Snapshot (core/snapshot/snapshot.h, snapshot_reader.h): what is written to a file and read
--   from it, cell by cell. Stream is about one posting list; Index, Times and Documents have `dump`
--   and the loading constructors of the base index, the expire table and the row index.
-- * Reader (core/reader/posting_list_reader.h, reader_utils.h, dot_product_reader.h) is the
--   interface of readers, the loops that read one to its end, and the reader of scores; Reader/TopN
--   is `read_topn` over a heap that is kept sorted, and Reader/Top what it returns; ReaderTree
--   (core/reader/reader_tree-inl.h) is the union of readers; Algorithms (core/reader/algorithms.h)
--   merges weights.
-- * DocumentId (data/document_id.h): ids of 128 bits, and the numbers that they stand for.
-- * Wand (core/reader/wand_reader.h, wand_reader-inl.h): the reader that sums the scores of other
--   readers and skips the documents that cannot score more than a threshold. Sums, Terms and Steps
--   are about moving its terms, Pivot about `find_pivot` and `step_next`, Next about the two bounds
--   that the pivot gives, Fuel about the work ahead, Least about `next`, Start about the rest.
--   Posting makes it a reader for `read_topn`; Carried, Collect, Scan, Best and Top are about what
--   `read_topn` returns from it.
-- * Feature (data/feature.h, feature_space.h, feature_space.cc, feature_vector.h): the ids of
--   features, in Ids, and the spaces by name (data/feature_space_manager.h, .cc), in Spaces.
-- * Json (utils/json_utils.h): accessors of JSON values; `Dom` is the interface of rapidjson.
-- * Parser (data/json_parser.h, document_parser.cc, query_request_parser.cc, document.h,
--   query_request.h): Document and Query are the two parsers; Vectors says what vectors a JSON object
--   stands for, Reads that the parsers read them, Outcome what each request leads to.
-- * Ranking (ranking/direct_model.cc, feature_mapping_model.cc): the features that a query asks
--   for; Manager (ranking/model_manager.h, .cc) has the models by name and the factories.
-- * DocumentIndex (index/document_index_manager.cc, document_query.cc): documents as rows of a
--   RowIndex, and queries over all terms by a WAND reader; Maintain (index/index_manager.cc) is
--   about the thread that applies the changes. TermReader (core/query/dot_product_query.h) is the
--   reader of one term, Search (query/simple_query_executor.cc) reads the best results from what
--   a query returns; Single, Found, Results and BestOf are about these results.
-- * Queue (utils/concurrency/message_queue.h): the queue between threads; Threads has the threads
--   that call it, as a step relation, Order and Wakeup are about what is reachable; Executor
--   (utils/concurrency/worker_executor.h) is about the workers. Pool
--   (utils/concurrency/thread_pool_executor.h) has the steps of a pool of threads, Tokens counts the
--   ids in its queue, Fitting says what a thread has at each place, Free and Lost are about the jobs
--   that are handed to the threads.
-- * Service (query/simple_query_executor.cc, handler/query_handler.cc, document_handler.cc,
--   snapshot_handler.cc): the answers to requests. Server (service/server.cc) has the sockets and
--   the threads of the server, Instance (service/server_instance.cc) finds the handler of a request
--   in one thread; Descriptors and Lifecycle are about `initialize`, Rounds about `start` and
--   `stop` after it, Closing about the closing of connections. The open descriptors are a list that
--   is passed along.
-- The paths above lie under src/main/. Prelude, Key and Weight are shared: tests on numbers,
-- lists, keys with an order, weights with an order. Tests applies the theorems to concrete inputs.
--
-- How the code is modelled: an object is a record of its members, a method is a function from its
-- arguments and the object to its result and the object after it, under the method's name
-- (`remove_all_internal` is the overload of `remove_internal` for a vector). Each method that
-- changes an index is one step, since it holds `change_mutex_` throughout, and what it publishes
-- changes under `query_mutex_`. A shared pointer is the value that it points to: a published list
-- does not change any more, and an open copy is reached through `changed_index` alone.
--
-- Document ids in the core are natural numbers, 0 being `DocId()`; terms and expire times are
-- natural numbers (`++expire_time` does not overflow below the largest expire time); weights are
-- any type with `Weight`. The containers of third_party/btree are the interface Container, whose
-- laws are what a sorted container promises, and which a sorted list fills. `unordered_map` and
-- `std::map` are association lists without a double key.
-- A `time_t` is the number below 2 ^ 64 of its bits, and the `int32_t` that DocumentIndex makes of it
-- a number 2 ^ 31 above its value, so that the narrowing is a sum modulo 2 ^ 32 and keeps the order
-- for the tables of the core. Where nothing catches an exception, a handler gives `none`.
--
-- Fuel: `read_all` and `load` call a reader until it returns `DocId()`. They take fuel, and `none`
-- says that it ran out; more fuel than the reader has documents is enough. `create_from` and
-- `dump_plist` give one more than the entries ahead of the iterator, `load_plist` one more than
-- the cells ahead of the loader. All other loops are structural. An exception of the loader makes
-- the functions that load return `none`.
--
-- `next` of a WAND reader takes fuel too, for the rounds of its loop; more than the work ahead
-- (the documents behind the cursors and the number of the terms) is enough, in each call that
-- `read_topn` makes too. `read_topn` takes one round for each document; more than the largest
-- document is enough. `work_loop` takes one
-- round for each job, and one to find that the queue is empty.
--
-- A function that returns `int` gives a `Status`: 0 is `success`, a negative number `failure`, and
-- `asserts` says that an assertion of rapidjson fails. Parameters stand for what other libraries
-- do: rapidjson (`Dom`), `std::hash` and `std::stoull` (`StringLibrary`), `sscanf` of a uuid,
-- `atoi`, `std::stoul`, the operating system (`System`), libevent (`Events`), and the arithmetic of
-- `double` (`Arithmetic`). The scores of a WAND reader are natural numbers. A log line has no
-- effect.
--
-- Not modelled: threads inside a method, except in Queue, hash buckets, third-party code, the bytes
-- of a snapshot and the snapshots of a point index, the map posting list (the same code as the
-- B-tree one, over `std::map`), the update pipeline, the text of the answers, the buffers of the
-- HTTP requests, the destructors, and the main program.
pub mod Prelude
pub mod Key
pub mod Wand
pub mod Weight
pub mod Container
pub mod Queue
pub mod Ranking
pub mod Reader
pub mod Algorithms
pub mod PostingList
pub mod Feature
pub mod Freezable
pub mod Json
pub mod BaseIndex
pub mod DocumentIndex
pub mod ExpireTable
pub mod RowIndex
pub mod Parser
pub mod PointIndex
pub mod Service
pub mod Snapshot
pub mod Sequential
pub mod ReaderTree
pub mod DocumentId
pub mod Tests
