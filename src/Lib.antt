-- ===== src/Lib.antt =====
-- A model of go-hsql, the pure Go database/sql driver for HSQLDB, and what has been proved of it.
--
-- The program. Package proto (internal/proto) is the wire format: primitive writers and readers
-- (rowout.go, rowin.go), frames (frame.go), SQL types and their values (types.go), and the messages
-- with their metadata and row blocks (result.go). Package hsql is the driver on top of it: a
-- connection (conn.go) exchanges one message for another, and transactions (tx.go), savepoints,
-- two-phase commit, result sets (rows.go) and updatable cursors (updatable.go) are built from such
-- exchanges. Large objects travel beside them: the content of LOB parameters in frames behind the
-- request that binds their ids, and the content of results over a protocol of its own (lob.go).
-- Arrays reach the caller as a text that ScanArray parses (array.go).
--
-- The files.
--   Base              numbers, integers, machine words, positional notation and lists.
--   Proto/Const       internal/proto/const.go, the constants of the protocol.
--   Proto/BigInt      bigIntToTwosComplement and twosComplementToBigInt.
--   Proto/Utf8        encodeModifiedUTF8 and decodeModifiedUTF8; a Go string is its code points.
--   Proto/RowOutput   RowOutput; a write is the bytes that it appends.
--   Proto/RowInput    RowInput: the bytes that are left, and the error that sticks.
--   Proto/Frame       WriteFrame, WriteTerminator and ReadFrame over a byte stream.
--   Proto/Types       ColumnType, WriteValue, ReadValue, decimals, intervals and the coercions.
--   Proto/Metadata    Metadata, writeMetadata and readMetadata.
--   Proto/Result      Result, EncodePayload, DecodeResult, row sets and session attribute requests.
--   Conn              the connection's flags and execCtx; Conn/Frame is what its callers keep.
--   Conn/Session      Ping, Close, ResetSession, ExecContext, savepoints and PrepareCommit; its
--                     Guards and Invalid are about every operation over a closed or broken connection.
--   Conn/Tx           BeginTx, Commit, Rollback and resetSessionCharacteristics.
--   Conn/Rows         rows: blocks, REQUESTDATA, CLOSE_RESULT and chained results.
--   Conn/Cursor       QueryUpdatable and UpdatableRows: UpdateRow, DeleteRow, InsertRow and the merge of rows.
--   Conn/Stmt         PrepareContext, positional arguments, the closing of statements and ExecBatch.
--   Conn/ColumnTypes  rows_coltype.go: type names, scan types, nullability, length and precision.
--   Conn/Results      what a caller gets of a response; execute and ExecPreparedBatch.
--   Conn/Arrays       array.go: the text form of arrays, its parser and Scan.
--   Conn/Out          callable.go: OUT and INOUT parameters.
--   Conn/Info         sessionattr.go: SessionInfo.
--   Lob/Utf16         readUTF16Chunk, with utf16.Encode and utf16.Decode.
--   Lob/Frames        the frames that create LOBs, from values and from readers.
--   Lob/Params        requestParamSlots, prepareArrayParams and prepareLobParams.
--   Lob/Response      readLobResponse.
--   Lob/Fetch         lobExchange and fetchLob.
--   Lob/Resolve       resolveValue, and the copies of rows and applyOutParams on top of it.
--   Config            ParseDSN, parseServerProperties and the registry of TLS configurations.
--   Wire              send, receive and the handshake's request and end, over bytes.
--   Tests             the theorems at concrete inputs.
--
-- The correspondence. A struct is a record with the fields of the source, a method of it a function
-- that returns the changed record, a method of the connection an Action: from a connection to an
-- error or a value, and the connection behind it. A byte is a number, a signed integer of w bits an
-- integer that is wrapped where the source converts it. A slice of negative length and an index out
-- of range are the outcome `panic`. ReadValue and decodeModifiedUTF8 are on fuel, 3 and the number of
-- bytes: the elements of an array have a base type of 0, and each round of the decoder takes a byte.
-- The loops over a LOB's blocks, over a reader's runes, over a response's frames and over an array's
-- text are on fuel as well, one more than the LOB's length, the number of runes and the bytes that are
-- left, and the length of the text: each round but the last takes at least one of them.
-- The position of an updatable result set is kept plus one, since it starts at -1.
--
-- Parameters. Host is what the coercions use of fmt and of Go's floats and conversions; an exchange
-- is the server with the wire to it, a function from the requests made so far and a new one to a
-- response or a failure; strings.EqualFold is a test on texts. A context is whether it is done in front
-- of an exchange and behind it, which depends on the requests made so far. A reader of a LOB parameter is the items that it gives and whether it
-- ends at io.EOF; the server of the LOB protocol is a function from the requests made so far and a new
-- one to the bytes that come back. net/url's parser and what array.go and callable.go use of strconv,
-- fmt, time and sql.Scanner are parameters too.
--
-- Not modelled: dialling, TLS, the socket's deadlines and the side channel of cancellation, which are
-- I/O; the legacy and argument-checking methods of database/sql, which only pass on; the glue of the
-- registration with database/sql, and the example program.
pub mod Base
pub mod Proto
pub mod Conn
pub mod Lob
pub mod Config
pub mod Wire
pub mod Tests
