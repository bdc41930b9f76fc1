-- ===== src/Lib.antt =====
-- A model of xuandb, a time series database whose metadata (users, databases, nodes) is replicated
-- by raft, and what has been proved of it.
--
-- The parts and their files:
-- - Prelude: shared names; Text (a Go string as a list of code points, of bytes where the program
--   walks bytes), Map (a Go map as an association list), Unicode (case mapping, concrete on
--   ASCII), Bits (sets of bits), Sort (`sort.Slice` by a string), Int, Lists, Order.
-- - Xerrors: pkg/xerrors/xerrors.go, errors with an HTTP status.
-- - Utils.Duration: pkg/utils/time.go, `ParseDuration` and `FormatDuration`.
-- - Config: pkg/config. Sections holds the sections of a node and their defaults, Config the nodes
--   and `tidyNodes`; Stores is the two functions of meta/service.go that create raft's stores from
--   a tidied section; Ready and Nodes are the proofs about tidied sections and nodes.
-- - Meta: pkg/meta. Privilege is the `Privilege` of user.go; Types holds the records; Apply is the
--   raft state machine (`Apply` of fsm.go and the apply functions); Snapshot is `clone`, `Persist`
--   and `Restore`; Leader holds the leader functions, each split into its check of the current
--   metadata and `raftApply`; Handler is the HTTP handlers, Client the exported operations and
--   `sendRequestToLeader` of client.go; Auth is `Auth` of user.go; Protocol is the leader's checks
--   and raft's log as interleaved steps: a check on the metadata of a leader that may be some
--   commits behind, the append of the command, later or never, and the commit, each a step of its
--   own; Node is node.go: Membership (joining and dropping, with the calls made to raft as a log),
--   heartbeats and the node list, Tick (one round of the loop of `updateNodeInfo`), and Listing
--   (the sorted listings, also those of user.go and database.go). Informer is the database
--   informer of database.go: its channel, handlers and loop, whose turns and the calls of other
--   goroutines are any sequence of steps. Startup is `joinOrBootstrap` of service.go with `join`
--   of node.go, on the nodes of Config, and Startup.Service is `start` and `StartService` up to
--   the registration of the handlers.
-- - Query: pkg/query. Value and ResultSet are `writeValue` and the `resultSetWriter` of
--   service.go; texts are quoted as Go does, so the text of a result set is not JSON for every
--   value; Ast is the statements of ast/ast.go, with Ast.Listed on the tables of the show
--   statements, run on the leader's service (what a node that does not lead has applied so far is
--   a parameter); Service is `queryHandler`; Run is code that may panic. Scanner is
--   parser/scanner.go on the bytes that are left: Runes (classes and the loops over one), Number
--   (`scanNumberOrDuration`), Quoted (strings and comments) and Scan; a call of `Error` is
--   recorded as a report. Scanner.Buffer is the same with the buffer that `next` refills, and
--   Scanner.Buffer.Session the operations on both sides. Utf8 is what it uses of unicode/utf8.
--   Lexer is `unescape` of parser/lexer.go, Lexer.Token the tokens and keywords, Lexer.Literals
--   and Lexer.Lex the values and `Lex`. Parser is parser/parser.go with the grammar of
--   parser/sql.y, as a monad over the scanner; Parser.Serve is the query handler with that parser,
--   and Parser.Writing writes statements down. For proofs: Scanner.Moves and Scanner.Tiling (the
--   bytes that are read), Scanner.Fuel (the loops), Scanner.Reading, Ahead, Quotes, Words and
--   Durations with Lexer.Reading, Words and Durations (known texts), Scanner.Fuel.Runs and
--   Lexer.Runs (the loops as relations without fuel), Lexer.Settles (the loop of `Lex`), and
--   Parser.Steps, Feeding, Rules and RoundTrip.
-- - Data: pkg/data/service.go, the data service as what the informer's handlers change. Its Known
--   puts the parts together: commands of the state machine, the events that they send, the
--   informer's loop and the handlers.
--
-- A function of the model has the name of the Go function in snake case: `applyCreateUser` is
-- `apply_create_user`. A method that changes the service returns the new service beside its
-- result. The locks are not modelled, since an operation holds its lock for all of its work on the
-- data; that a leader function checks first and appends later, without a lock, is what Protocol
-- has as separate steps.
--
-- What the source does not implement is a parameter: the calls that open raft and its stores,
-- raft's answer to a call (committed, or an error), the clock, the transport of a request, the
-- result of the JSON decoder on a request body, the case, class and printing tables of package
-- unicode beyond ASCII, `strconv.ParseFloat`, the test `netip.ParseAddrPort`, `net.SplitHostPort`
-- and `net.JoinHostPort`, the text of a key of the configuration file, the text of a syntax error,
-- and how many bytes a read of the source gives (one at least where one is left, and no error but
-- the end). Of the parser that goyacc compiles from sql.y only this is used: it asks for a token
-- when a rule needs one, acts on a rule that needs no look-ahead before it asks for the next
-- token, and at a token that no rule wants it reports a syntax error and gives up. JSON itself is
-- taken to carry names, passwords, times and flags unchanged; a privilege goes through its text,
-- which is modelled.
--
-- Fuel: `ParseDuration` runs on one round for each byte and one more; each round reads a digit, so
-- that is enough. The loop of `unescape` reads a byte in each round, and has one round for each
-- byte and one more. The loops of the scanner read a character in each round; they have one round
-- for each byte left, one for the end, and one more where the first character is read before the
-- loop. `Lex` goes round for each comment, which has two characters at least. `strconv.FormatUint`
-- writes at most twenty digits, enough for any uint64. The loop of `next` reads while the buffer
-- has no whole rune, and each read gives a byte, so four rounds are enough.
--
-- At no fuel the loops of the scanner give the state that they have. Scanner.Fuel.Durations,
-- Scanner.Fuel.Runs and Lexer.Runs have the same loops as relations without fuel.
--
-- Not modelled: a negative duration of a database, which only a direct request can carry; tokens
-- as numbers, where a NUL is the end of the text and a character from U+E002 on can be another
-- token (the model keeps characters, tokens and the end apart); reading the configuration file and
-- the command line, shutdown, the HTTP server and the registration of its handlers, and logging.
pub mod Prelude
pub mod Xerrors
pub mod Utils
pub mod Config
pub mod Meta
pub mod Query
pub mod Data
