-- ===== src/Lib.antt =====
-- The angel network library: its byte buffer, base64, SHA-1, string utilities, WebSocket server,
-- timers, DNS names, HTTP, SMTP, quoted-printable and the sending side of its connections.
--
-- Parts and how they interact. A connection reads into a buffer and hands it to a message handler;
-- the WebSocket server is one: its handshake takes lines out of the buffer, checks them with the
-- string utilities and answers with a key made by SHA-1 and base64, and then it takes frames out
-- and sends frames by the connection. The HTTP server and client read messages from the
-- buffer by one parser, and the server answers by the connection; the SMTP client reads the replies
-- of its server. The event loop runs the timers and tells a connection when its socket is writable.
--
-- Files and what they model:
--   Buffer      include/angel/buffer.h and src/buffer.cc: `Buffer` is the vector and its two
--               indices, a failing copy outside the vector is `none`; `read_fd` takes what readv
--               delivers as an argument. Buffer/Search is find and the prefix tests.
--   Base64      src/base64.cc: base64_encode and base64_decode, the latter as a machine that is
--               fed one character at a time; the unwritten cells of c[] are arguments.
--   Sha1        src/sha1.cc: words are numbers below 2 ^ 32 with the wrap-around written out; an
--               append that throws is `none`; a file is the sequence of the reads. Sha1/Standard is
--               FIPS 180-4 without any of these definitions.
--   Util        include/angel/util.h and src/util.cc: the functions that the protocols use.
--   WebSocket   src/websocket/ws-server.cc: `WebSocketContext`, decode, encode, send and
--               send_fragment; a read outside the received bytes is `overrun`, std::length_error `throws`
--               (std::string::max_size is 2 ^ 63 - 1; bytes in the memory never exceed it).
--               WebSocket/Handshake has the opening handshake and message_handler; calls of the
--               user's handlers and of the connection are events. The loop runs on fuel, and one
--               round more than there are bytes is enough (WebSocket/Handshake/Laws).
--   Timer       src/timer.h and src/timer.cc: the multiset is a list in order, the map an
--               association list, a callback is a number and a table says what each adds and
--               cancels. `tick` runs on fuel; Timer/Ends shows how much is enough.
--   Connection  include/angel/connection.h and src/connection.cc: the queues, the ids, the state
--               and an event log for what leaves the connection; the kernel's answers to write
--               and sendfile are arguments. Calls of the high-water handler are counted while
--               they wait in the event loop, and a call of the loop makes them.
--   Dns         src/dns/resolver.cc and src/dns/cache.h: names, which are read by a cursor in the
--               message and on fuel, since a pointer may lead back, queries and the cache.
--   Mime        include/angel/mime.h, src/mime/codec.cc; Mime/Qp is src/mime/qp.cc: the loop of the
--               encoder appends per byte, and its third branch, which takes the byte back, is one
--               more round on an empty line.
--   Http        src/httplib and include/angel/httplib.h. A buffer is its unread bytes. Http/Uri is
--               uri, Http/Message is message with its parsers, which run on fuel, a round more than
--               there are bytes (Http/Message/Ends), Http/Response is response, whose sends are a
--               list, Http/Request is request with the conditional fields, Http/Ranges the byte
--               ranges, Http/Validators the tags and dates of util.cc, Http/Server process_request,
--               Http/Server/Handler message_handler (its Ends has the fuel that is enough),
--               Http/Client the client's texts, its pool and receive. The file system, the users'
--               handlers, the date and the order in which a table is gone through are arguments.
--   Smtp        src/smtplib/smtplib.cc: a task and its dialogue; a command is a value, `text_of` its
--               bytes.
--   Prelude     shared names, Boolean tests, lists, bits, words and texts.
--
-- Bytes are numbers; where a lemma needs them below 256 it says so. Integers of the host are
-- little-endian, as on the machines that the library runs on, and hton64 swaps.
--
-- Not modelled: the event loop, pollers, sockets, threads, signals, the logger, TLS, the
-- connections of the SMTP client, messages of MIME, the HTTP client's timers and promises, the
-- answers of DNS, the reading side of a connection, and WebSocketContext::send_file, which only
-- calls the connection.
pub mod Prelude
pub mod Base64
pub mod Buffer
pub mod Connection
pub mod Dns
pub mod Http
pub mod Mime
pub mod Sha1
pub mod Smtp
pub mod Timer
pub mod Util
pub mod WebSocket
