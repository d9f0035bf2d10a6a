-- ===== src/Lib.antt =====
-- A model of parts of the YDB SDK for Go, with what is proved of them.
--
-- The SDK connects an application to a YDB database: it runs operations on sessions of a table
-- service, with retries, and streams messages to and from topics. An error of any of its parts is
-- classified by the codes it carries; the retry loop reads that classification, waits by a backoff and
-- calls the operation again. A topic writer keeps the messages that are not acknowledged in a queue,
-- and sends them again after a reconnect. A topic reader cuts what the stream gives into batches of a
-- partition session, charges them for the bytes of the response, and commits ranges of their offsets.
--
-- Base holds what the parts share: lists and dictionaries over the native numbers, Boolean tests, the
-- 64-bit patterns of `int` and `int64` (Base/Word), and how a function of Go returns (Base/Results).
-- A pointer to a partition session is a number for its address; a dictionary stands for a map.
--
-- Xerrors models internal/xerrors and internal/backoff/type.go. Codes has the codes with their tables,
-- Chain the tree of wrapped errors that `errors.As` walks, Check the function `Check` and the
-- predicates on errors. The numbers of the codes and `grpcStatus.FromError` are parameters.
--
-- Retry models retry/retry.go, retry/mode.go, internal/wait/wait.go and internal/backoff/backoff.go.
-- A run takes a list of rounds, each with what the loop meets in one turn; a run is unfinished when
-- the list ends, so the length of the list is its bound. The random numbers and the fixed part of a
-- delay, which is floating point, are parameters.
--
-- Repeater models internal/repeater/repeater.go as the steps of its worker and of those who call it.
--
-- Topic/Writer/Queue models internal/topic/topicwriterinternal/queue.go. Its indexes wrap around at
-- 2 ^ 64 as the source's `int` does. The loop that collects the messages runs on fuel: one more than the
-- number of indexes between the last one sent and the last one written, each of which takes one turn.
-- Waiting has the calls that wait between two holds of the mutex, as steps beside the other methods.
--
-- Topic/Reader models batch.go, commit_range.go, batcher.go and partition_session.go of
-- internal/topic/topicreaderinternal, in Batch, CommitRange and CommitRanges, Batcher and Storage.
-- `sort.Slice` is a parameter, since it promises no order of equal elements, and so is the order in
-- which a loop meets the entries of a map.
--
-- Topic/Reader/Committer models committer.go of the same directory. Loop runs its loop, and Acks the
-- goroutines that wait for an acknowledgement, beside those that commit; a step is what one of them does in one
-- hold of the mutex or with one use of a channel. The errors of contexts are a type that is a parameter.
--
-- Decimal models internal/decimal/decimal.go: the numbers as 16 bytes, and in Text as strings. A number of
-- `math/big` is its sign and its absolute value. A loop over the digits or the words of a number has the number
-- as its fuel, which each turn divides.
--
-- Balancer/Connections models internal/balancer/connections_state.go, with the states of
-- internal/conn/state.go. What the random generator gives is a parameter.
--
-- Table/Pool models the session pool of internal/table/client.go. A session is the number of its
-- object, an element of the list of idle ones the number of its insertion. Each operation is what the
-- source does in one hold of the mutex, and Steps runs them in any order, as the goroutines do; Spec
-- has the queue that the pool stands for, which Refinement uses, and Getting the loop of `Get` over
-- what its attempts meet. `Put` takes its checks and its part under the mutex in one step.
--
-- Table/Transaction models internal/table/transaction.go and one attempt of `DoTx`. The answers of the
-- service are arguments, and the transaction keeps the requests that it sent.
--
-- Sql models the transactions of a connection of database/sql: internal/xsql/tx.go, with `BeginTx` and `Close`
-- of conn.go and isolation/isolation.go, on a connection that is opened without the option for fake
-- transactions.
--
-- Bind/Lexer models internal/bind/sql_lexer.go with the state functions of positional_args.go and
-- numeric_args.go. A text is the list of its runes. A turn takes a rune or two, or leaves a number, so twice
-- the length of the text with two more turns is enough fuel.
--
-- Bind/Args models internal/bind/params.go, with `ValueParam` of table/table.go: the types of Go that
-- become values, and the parameters that the arguments become. Bind/Positional and Bind/Numeric model the
-- `RewriteQuery` of positional_args.go and numeric_args.go over the parts that the lexer gives;
-- Bind/Positional/Places describes where a query has arguments without the lexer; and
-- Bind/Bindings that of bind.go, auto_declare.go and table_path_prefix.go. The sorts of parameters and of
-- lines are parameters, and so is the text of a type, since the values themselves are not modelled.
--
-- Not modelled: grpc and the generated messages, tracing, logs, metrics and options, which do not
-- change what the modelled parts do; locks, since each operation of the queue and of the storage, and
-- each turn of the batcher's `Pop`, runs under its mutex from beginning to end; the
-- sessions of the table service behind the pool, the streams of the topic clients, the
-- values' conversions, and the queries of the database/sql driver.
pub mod Base
pub mod Xerrors
pub mod Retry
pub mod Repeater
pub mod Topic
pub mod Balancer
pub mod Table
pub mod Bind
pub mod Decimal
pub mod Sql
