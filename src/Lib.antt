-- ===== src/Lib.antt =====
-- agent-presentator: a server that mirrors git repositories of talks, builds each talk, shows the
-- ones that stand, and lets an audience ask a co-presenter. The model covers the use cases of
-- src/presentator/application/decks.py with the tables of src/presentator/adapters/decks.py and
-- src/presentator/adapters/key_drafts.py under them, the ask limiter of
-- src/presentator/application/copresenter.py, and the wire between the web and the build worker:
-- both ends of src/presentator/adapters/build_wire.py, and the client of
-- src/presentator/adapters/build_worker.py that uploads a deck and takes what was built, and the
-- wire child of src/presentator/host/worker_wire.py that serves it.
--
-- Files:
--   Base         shared names, Boolean tests, lists, dictionaries and integers
--   Contracts    records and enumerations of src/presentator/contracts/decks.py
--   FolderName   is_a_plain_folder_name of the same file
--   DeckStore    SqliteDeckStore: a row per deck; each statement is a function on the table.
--                Spec reads them as calls on a map from slugs to rows, Promise states what the port promises
--   SourceRuns   SqliteSourceRunStore: the runs of each source, newest first
--   KeyDrafts    SqliteSourceKeyDrafts: the deploy keys that no source has taken yet
--   SourceStore  SqliteSourceStore and SourceCredentials: the sources and their secrets
--   Refresh      Decks.refresh and what it calls: _take_in polls a source and writes its decks and
--                its run, _build_what_changed builds each deck whose commit moved
--   Lobby        the pages: Decks.listed, page, built_talk, exported_pdf, listed_sources,
--                shown_source
--   SourceNames  the checks of a typed source: _refusal_for and str.strip
--   Secrets      webhook hashes, connection fingerprints and their comparison
--   SourceUpkeep Decks.renew_access, renew_webhook, removal, remove_source, accept_hook
--   SourceAdding Decks.source_key_draft, check_connection, add_source
--   Wire         build_wire.py: Reading has _read_exactly, Messages the preambles and headers, Suffix
--                _longest_fitting_suffix, Paths path_components, Trees _tree, Sending send_tree,
--                Receiving receive_entries, Survey check_step_tree, check_upload and
--                send_tree_reply, Record write_record and read_record; the
--                other children are proofs about them
--   BuildClient  build_worker.py: _answer and what it calls, exchange_with_worker; Socket has
--                what_is_wrong, fault_of, _refused_deck and _attempt, Opening the loop of _opened,
--                Toolchain ran and _through_worker
--   WireChild    src/presentator/host/worker_wire.py: the roles idle, upload and send, _step_text
--   AskLimiter   AskLimiter.admit and AskTicket.release, with their deques and dictionaries
--
-- State: World holds the tables. A use case takes a World and returns its answer with the World
-- after it; an UPDATE is a map over rows, a DELETE a filter, an upsert a recursion to the row of
-- the same key. What runs outside the process is a parameter: the clock, git, the toolchain, the
-- file system, identifiers, keys, encryption and hashes. Such a parameter takes the number of
-- calls made before it, so two calls may answer differently, and nothing is assumed of it but
-- what a theorem names. An identifier that is made anew is
-- taken to be that of no row, so that no insert fails on it but where the model says so, in add_row of
-- SourceStore. Moments are whole microseconds, and a moment a fixed time before another
-- stops at 0, which no comparison with a moment tells apart. The lock of the refresh is the
-- argument `held`. access_kind_of, which reads an address with urllib and ipaddress, is a
-- parameter as well. Every loop of the use cases runs over a list that was read before it starts.
--
-- The wire: a connection is the list of the bytes that the peer has still to hand out, and `chunk`
-- bounds how many a call takes at a time, so that reads, writes and sends may be short. What a call
-- sends is its value. A directory on disk is a Node with its Children in the order of os.listdir;
-- what receive_entries writes is the list of the entries made, in order, and a descriptor is the
-- path it was opened at. Pydantic's reading and writing of headers is the record Json. The loops
-- take fuel: as many rounds as there are bytes to read, to copy or to write, since a round takes
-- one at least; receive_entries takes one round more than there are bytes; the search of
-- _longest_fitting_suffix as many as there are characters; _opened one more than there are
-- milliseconds left. Running out is the value `stuck`, and the theorems on these loops show that it
-- is not reached. The client of the worker
-- returns the names in out/ beside its result, whether it returns or raises, so that an error does not hide
-- what was done before it; `time.sleep` is a function of the moment and the wait.
-- The deadlines of sockets and the closing of descriptors are not modelled.
--
-- Not modelled: HTTP routes, wiring and timers; gitmirror and the mirrors on disk; the build
-- worker's own processes; accounts, login and preferences; the speech and co-presenter
-- services; the browser's code.
pub mod Base
pub mod Contracts
pub mod FolderName
pub mod DeckStore
pub mod SourceRuns
pub mod AskLimiter
pub mod BuildClient
pub mod KeyDrafts
pub mod Lobby
pub mod Refresh
pub mod Secrets
pub mod SourceAdding
pub mod SourceNames
pub mod SourceStore
pub mod SourceUpkeep
pub mod Wire
pub mod WireChild
