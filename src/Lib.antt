-- ===== src/Lib.antt =====
-- gldap: a library of LDAP servers in Go, and a directory for tests built on it.
--
-- A server (server.go) accepts connections. A connection (conn.go) reads packets in a loop, makes each
-- into a request (request.go, message.go, packet.go) and gives it to a multiplexer (mux.go), which
-- calls the handler of the first route (route.go) that matches; the handler writes responses
-- (response.go) through a writer that the connection's requests share. Messages and responses carry
-- controls (control.go), attributes (add.go, modify.go, entry.go) and codes (codes.go). Options
-- (option.go and the files named *_options.go) configure all of these.
--
-- Base        list, number and byte-string helpers; Go's signed integers of 8, 16, 32 and 64 bits
-- Outcome     how a Go function ends: a value, an error (error.go) or a panic
-- Options     the options' structs and defaults; Options.Apply: `applyOpts` and every `With...`
-- Ber         the part of github.com/go-asn1-ber/asn1-ber that the program calls, as a record of
--             operations `Ber` with their documented laws `IsBer`; Ber.Model is an instance
-- Strconv     `strconv.ParseInt` and `%d`, which a control's text needs
-- Control     control.go: the nine controls and their constructors; Control.Encoding: `Encode`;
--             Control.Codec: `decodeControl`; Control.Printing: `String`; Control.Descriptions:
--             `addControlDescriptions`
-- Packet      packet.go: `assert`, `basicValidation`, `requestMessageID`, `requestPacket`, `requestType`
-- Codes       codes.go: the application and result codes; Codes.Descriptions: the maps of their texts
-- Attribute   add.go, modify.go and entry.go: attributes, changes and entries, with their encoders;
--             Attribute.Printing: `PrettyPrint`
-- Decode      packet.go: the decoders of the single requests (`searchParmeters`, `addParameters`, ...)
-- Message     message.go: the messages and `newMessage`
-- Testing     testing.go: the packets of requests that the repository's tests build, as a client does
-- Response    response.go: the responses, their setters and `packet`; Response.Writer: `Write`
-- Request     request.go: `newRequest`, the `New...Response` methods, the `Get...Message` methods
-- Route       route.go: routes and `match`; Route.Fold: `strings.EqualFold`
-- Mux         mux.go: registration and `serve`
-- Conn        conn.go: `newConn`, the loop of `serveRequests` as turns, and a step relation in which
--             the goroutines of the requests end in any order; a turn is two steps, its `select` and
--             the rest, between which the shutdown context can be cancelled
-- Server      server.go: `NewServer`, `Router`, `Ready`, `Run` and `Stop` as steps that interleave with
--             those of the connections; `Accept` and `connWg.Add(1)` are steps of their own
-- Sid         sid.go: security identifiers
-- Convert     request.go: `ConvertString` and `readLength`
-- Directory   testdirectory/: the directory for tests, on lists of entries. Directory.Handlers and
--             Directory.Searching: its handlers; Directory.Search: `match` and `find`; Directory.Update:
--             changes of entries; Directory.Settings: options.go; Directory.Start: the routes and options
--             of `Start`; Directory.Deletes: `handleDelete` around its lock; Directory.Fixtures:
--             `NewUsers`, `NewGroup` and `NewMemberOf` of testing.go
-- Simple      examples/simple/main.go: a server that answers connections that have bound
-- Tests       concrete data and runs
--
-- Go's strings and byte slices are lists of bytes (numbers below 256), its maps association lists, its
-- nil pointers `none`. An `int` option that stands for a count of children is a number. Widths are
-- written out where the code converts (`int16`, `uint32`, `int64`). A handler changes a session: the
-- program's state, what has been written, and whether the network takes the next write. The network,
-- the clock, the packets that arrive, the order of goroutines and that of a map's keys are arguments or
-- choices of a step. Errors have a kind and no text, so whether an error names an unexpected end of the
-- input is a choice of the step. A call of a handler is one step.
-- The Unicode part of `strings.EqualFold` is an argument, and so is the filter compiler of
-- github.com/go-ldap/ldap. Fuel bounds two loops: the decimal digits of a number `n`, with `n + 1`
-- rounds of at least one digit each, and the search for the parenthesised parts of a filter, with one
-- round for each of its bytes; every other loop runs over a list. The directory's texts are ASCII.
--
-- Not modelled: logging and the `Log` of packets, and the descriptions of packets, which only that
-- reads; TLS, certificates, ports and the sockets; the bits of the wire format, which are
-- the library's; the client connection of testdirectory/ and the buffers of testing.go; build
-- tools. Interleavings within a handler are left out, but for those around the lock of `handleDelete`.
-- Two Go details are left out: `decodeControl` and `addControlDescriptions` also change the packet that
-- they read, and a nil slice is told from an empty one only where the code asks for it.
pub mod Base
pub mod Outcome
pub mod Options
pub mod Ber
pub mod Strconv
pub mod Control
pub mod Packet
pub mod Codes
pub mod Attribute
pub mod Decode
pub mod Message
pub mod Testing
pub mod Response
pub mod Request
pub mod Route
pub mod Mux
pub mod Conn
pub mod Server
pub mod Sid
pub mod Directory
pub mod Convert
pub mod Simple
pub mod Tests
