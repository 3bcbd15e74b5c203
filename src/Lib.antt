-- ===== src/Lib.antt =====
-- The caching HTTP proxy of os_solutions, its HTTP client, its HTTP server, its list of
-- strings, and programs of its exercises: a search for files by masks, a printer of numbered
-- lines, the same with a time limit, also on a mapped file, a line editor, a listing of
-- files, a search in PATH, a producer with its consumers, a sender of lines to listeners, and
-- a master that prints what senders put into a queue.
--
-- The proxy runs a thread for each client. A thread polls its two sockets and calls the
-- handler of its connection's status: it reads the request, finds the URL in it, looks the
-- URL up in a hash table of cache entries that all threads share, and then serves the client
-- from the entry, waits for another thread that fills the entry, or goes to the server and
-- fills a new entry with what it forwards. The HTTP client, a program of its own, splits the
-- URL that it is given into its parts, sends a request for it and prints the answer. The HTTP
-- server starts a process for each client, which answers one request with a file; what it
-- sends is what the proxy's parser reads, and what the client sends is what it reads. The
-- list and the exercises are programs of their own.
--
-- The files and the code that they model:
--   * HashTable: http_proxy/hash_table.c and .h. The functions keep their names (ht_init,
--     ht_set, ht_get, ht_has, ht_delete, ht_resize, ht_traverse, ht_destroy). A `HashTable`
--     is the C structure with each bucket as the list of its nodes and a log of the
--     destructor's calls. HashTable/Chain and Slots have the lemmas on chains and arrays, and
--     Slots the well-formedness `IsValid`; Lookup, Update, Delete, Resize, Init, Walk and
--     Hash are named for what they prove.
--   * HttpUtils: http_proxy/http_utils.c, names in snake case: isCacheMethod is
--     is_cache_method, getUrlFromData is get_url_from_data, and so on. Buffers are lists of
--     the bytes that can be read; HttpUtils/Url, Length and Edit prove the facts on URLs, on
--     the Content-Length and on the request line that is edited in place.
--   * Connection: http_proxy/connection.c, connection.h and cache.h, with cache_dtor of
--     http_proxy/main.c and initServerSocketToUrl of http_proxy/address_utils.c. State has
--     the data, Handlers the handlers (gettingRequest is getting_request_handler, and so on),
--     Response the forwarding of responses, Loop an iteration of handleConnection and the end
--     of a thread. Caching proves what requests do to the cache, Forwarding what a response
--     does to its entry, Serving what a client of the cache is sent; Edges has the order of
--     the statuses, Requests and Replies follow the handlers along it, and Turns an
--     iteration.
--   * UrlParser: networks/http_client/urlparser.h; parse_url in the order of its steps. Spans
--     has lemmas on the scanning loops, RoundTrip goes from parts to text and back, Recompose
--     from any accepted text to its parts.
--   * StrList: 4_str_list/dslist.c, names kept. Nodes has the heap of nodes, Insertion,
--     Removal and Walks the operations; Visits is about the loops over linked nodes, Growth,
--     Runs and Adding about append and prepend on a well-formed list, Stuck about the loop of
--     dslist_remove. The data of a node is an address; read_line, which is input, is left
--     out.
--   * FileMask: 19_file_mask/task19.c. Matching has pattern_match, Search the walk over
--     directories (nextSlash is next_slash, slashBeforeWildcards slash_before, listDir
--     list_dir, findFiles find_files). Tokens says what a mask means, Decides and Answers
--     prove the facts.
--   * FileLines: 5/main.c; parseFile is parse_file, printLines print_lines. Spans is about
--     the table of offsets, Program about the dialogue.
--   * TimedLines: 6/main.c, the dialogue of FileLines with keys and an alarm: read_line_num
--     is one event of the function of that name, with the handler printAllString; parseFile
--     is parse_file, with the loop of FileLines, printLines print_lines. Session is about
--     numbers that are typed until the alarm.
--   * MappedLines: 7/main.c, the program of 6/main.c over a mapped file: mapping,
--     parse_mapping (parseFile), print_mapped_lines (printLines). Agreement relates the two
--     programs.
--   * LineEditor: 17/main.c; `press` is one round of the loop over the keys. Screen is a
--     model of a terminal's row, Text the editor on the text alone; Lines, Editing and Shows
--     relate the three.
--   * HttpServer: networks/http_server/my_server.c and .h, names kept, and listen_server's
--     round as accept_client. Slots is about the table of clients, Response about a file that
--     is sent.
--   * HttpClient: networks/http_client/main.c; establishConnection is establish_connection,
--     the formats are http_headers, the loop over recv print_pieces. Requests is about the
--     server's reading of the request, Session about a URL that is entered and what is
--     printed for it.
--   * ExecPath: 11/main.c, names in snake case; search_path is the loop of execvpe. Search
--     relates it to the list of the directories.
--   * ListFiles: 18_ls/task18.c, names in snake case. Rights reads the rights back.
--   * Broadcast: 36/producer.c and 36/consumer.c, a producer and any number of consumers that
--     share memory. `produce` and `consume` give one step of a process, `Step` one of the
--     system. Rounds says what holds between steps, Outside, Turns, Consuming and Producing
--     that steps keep it, Order what follows for the output, Progress that they do not wait
--     for each other. Tally has sums over the consumers; Objects is about initIpc, destroyIpc
--     and main.
--   * Listeners: 31/send.c, names in snake case (pushBack is push_back, and so on). Posting
--     describes what is sent without arrays, Removal is about removeItem, Registration about
--     the array of listeners, Delivery about a whole run of sendMessages.
--   * SenderQueue: 32/master.c and 32/send.c, names in snake case; `script` is what main of a
--     sender sends, rec_message a round of recMessages, `Step` a step of the system. Counting
--     is about registrations and departures in a list of messages, Scripts about beginnings
--     of a run, Order about what the master has received.
--   * Prelude: what the parts share: numbers, lists, texts, and the outcomes of code that may
--     fail.
--   * Tests: the theorems and the functions at concrete inputs.
--
-- Results of the code are `Outcome` (`Parsing` in UrlParser, where NULL is a result): a
-- value, `abort` for a failed assertion, `fault` for undefined behaviour (a NULL or freed
-- pointer, a read outside an array), `timeout` for fuel that ran out. ht_set and ht_resize
-- call each other, so they take fuel; the theorems need one level for ht_set and for
-- ht_resize, since the hash of a key in a well-formed table is below the size and no second
-- growth follows. The loops over the heap of StrList take fuel for their rounds, and the
-- theorems need one more than the list has nodes. pattern_match takes fuel for its rounds,
-- list_dir for the levels of directories, and the search for a free slot for its steps; the
-- theorems say how much is enough. All other loops are structural. Sizes are 64-bit `size_t`
-- and the hash 32-bit `unsigned`, with their wrap-around written out; `alloc n` says whether
-- an allocation of n bytes succeeds, and `beyond` is the memory that can be read behind a
-- buffer.
--
-- What is outside: the results of poll, read, write and connect, and the name resolution, are
-- arguments of an iteration. The copies that strdup makes are taken to succeed. Freed memory
-- is modelled for cache entries and the nodes of StrList, and not for keys, the nodes of the
-- hash table and buffers. Two list arguments of one call are taken to be different lists. A
-- thread holds the cache lock for a single call; a step here is one iteration of one thread,
-- and the reads of the count in a round of a waiting client may see different states of its
-- entry. Indices of type `int` are natural numbers, so texts for `parse_url` and HttpUtils,
-- masks and paths of FileMask and the lists of StrList are shorter than 2 ^ 31. A block of
-- 31/send.c and 11/main.c has as many bytes as were asked for. A call of `msgsnd` may fail at
-- any time. A directory's entries and the file system are functions that do not change during
-- a run, and a `send` takes all its bytes. A step of the producer or of a consumer is one
-- access to what they share, a step of a sender or of the master one call on their queue.
--
-- Not modelled: the log, the accept loop and the argument reading of the proxy, the sockets
-- and processes of the HTTP server, the receiver of 31/recv.c, and the other exercises in the
-- numbered directories, which are system calls for the most part. The settings of the
-- terminal in 6/main.c and 7/main.c are left out, as are the keys that the terminal shows
-- itself. The copies of the exercises in `From Solaris VM` repeat code that stands in the
-- numbered directories.
pub mod Prelude
pub mod HashTable
pub mod UrlParser
pub mod HttpUtils
pub mod Connection
pub mod StrList
pub mod FileMask
pub mod FileLines
pub mod LineEditor
pub mod TimedLines
pub mod MappedLines
pub mod HttpServer
pub mod HttpClient
pub mod Broadcast
pub mod Listeners
pub mod SenderQueue
pub mod ListFiles
pub mod ExecPath
mod Tests
