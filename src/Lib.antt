-- ===== src/Lib.antt =====
-- SecureMailScope reads captures of mail traffic and says how well the sessions are protected. This library
-- models its Go code: the stream parser (parser/) and the analysis of the backend (backend/).
--
-- The parser's `EmailStreamFactory` makes one `emailStream` for each direction of a mail connection. It reads
-- plaintext lines up to STARTTLS, or on a direct TLS port starts at once, and hands TLS records to the handshake
-- parser, whose result becomes part of a session. The backend reassembles both directions of a connection into one
-- `ReassembledStream`, detects the protocol, makes a timeline of its commands, joins what TShark saw of TLS and the
-- certificates, and assesses the session by rules; the scores are made of the findings, and sessions go to a
-- queue in front of an AI provider that a router chooses. The pipeline runs these parts for one analysis, merges
-- the report of the AI engine, and writes analyses, sessions and findings to a repository on SQLite, from which the
-- HTTP handlers answer.
--
-- Common: byte strings, lists, association maps, and the monad `Go` of a run that returns, panics or runs out of
--   fuel. A `Text` is a list of byte values; `strings.ToUpper` and `TrimSpace` are modelled on ASCII. `slice` and
--   `index` panic out of range as Go does (a slice has its length for capacity).
-- X509: what is read of a parsed certificate. crypto/x509 is no part of the repository: its parser is a parameter.
-- Handshake: parser/internal/tlsparser/handshake.go. `process_record` is `ProcessRecord`, `parse_handshake`,
--   `parse_client_hello`, `parse_server_hello`, `parse_certificate_message` and `parse_der_certificate` are the
--   functions of these names. A parse function yields the parser behind it and the error that it returns. The
--   loops take the length of the data as fuel, which is enough since each round moves the offset on.
-- Streams: parser/internal/reassembly/stream.go. `run` is `emailStream.run` over the bytes up to the end of the
--   stream; `plaintext_loop` is `parsePlaintextStream`, whose fuel is one more than the bytes left, and
--   `records_loop` is the loop of `parseTLSStream` with its 20 rounds.
-- Models: backend/internal/models/models.go. Instants are numbers, 0 is the zero time. Scores are in tenths.
-- Session: backend/internal/session/reassembler.go. `process_packet`, `new_stream`, `reassembled` and
--   `reassembly_complete` act on the map of streams; which callbacks come, and when, is the choice of the assembler,
--   and `Callbacks.Step` allows every order. All of them hold one mutex, so that a step is atomic.
-- Protocol: backend/internal/protocol. `detect` is `Detect`, `analyze` is `Analyze`, whose closures are functions on
--   the record `Timeline`. Its loops over lines take the length of the buffer plus one as fuel.
-- Risk: backend/internal/risk. `classify_cipher` is `ClassifyCipher`, `assess` is `Assess`; the layouts of dates
--   are parameters.
-- Inspect: backend/internal/tlsinspect/inspector.go, behind the run of TShark and the decoding of its JSON. The
--   order of a Go map is not fixed; here streams stand in the order in which they came.
-- Certificate: backend/internal/certificate/parser.go.
-- Storage: backend/internal/storage/sqlite.go. A table is the list of its rows in the order of their row ids, and
--   each SQL statement of the source a function on it. The driver may refuse any statement: `refusals` says which of
--   those to come. encoding/json is a record of functions for each type that is stored. `get_session` is
--   `GetSession`, and so with the other operations; a finding has no column for its confidence, a session none for
--   its events.
-- Analysis: `severityToScore`, `computeScores`, `populateFlatFields` and the last rating of
--   backend/internal/analysis/service.go, the router of ai_router.go and the channel of ai_queue.go.
-- Analysis/Pipeline: `ExecutePipeline` and `RunAnalysisAsync` of service.go. The record `Outside` holds what the
--   files, TShark, crypto/x509 and the Python process answer, and `World` the database, the AI queue, the events that
--   were sent and the files that were removed. A float is a quotient of whole numbers. One analysis runs on its own:
--   the other goroutines appear only in what `provider_at` answers. `Tally` is the total of the scores and the
--   counts of the severities, which are kept while the sessions are built and merged, set back, and counted again.
-- Api: backend/internal/api/handlers.go. A handler is a function of the values that it reads to its answer; gin,
--   gorilla/websocket and gofpdf are not part of the repository, a PDF is the list of the calls of gofpdf.
-- Capture: `LiveCaptureManager` of backend/internal/capture/manager.go, with the outcomes of tcpdump as arguments, and
--   the loop of `ReadPackets` of reader.go over the packets that gopacket decodes.
-- Tests: runs on small inputs.
--
-- Not modelled: the copy of a capture that `CreateAnalysis` makes and the global AI assessment behind a run, the
-- handlers of the live capture, of the download and of one packet, the two commands, the opening of files, the prompts
-- and HTTP calls of the AI providers and the work of the queue's workers, the former handlers and the Postgres store
-- that no command uses, the Python AI engine and the frontend.
pub mod Common
pub mod X509
pub mod Handshake
pub mod Models
pub mod Risk
pub mod Session
pub mod Protocol
pub mod Inspect
pub mod Storage
pub mod Streams
pub mod Analysis
pub mod Api
pub mod Certificate
pub mod Capture
pub mod Tests
