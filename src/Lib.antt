-- ===== src/Lib.antt =====
-- unixtar: an HTTP and WebSocket server with a reverse proxy.
--
-- The program. A TCP connection reads bytes into an `AutoBuffer` (utils/autobuffer.cc) and hands it
-- to a protocol parser: at first `http::request::Parser` (http/httprequest.cc), and after an
-- upgrade `ws::WebSocketParser` (longlink/websocketpacket.cc). A parser keeps its position and how
-- many bytes of the buffer it has resolved, and is called again when more bytes have come. A worker
-- (netscene/netscenedispatcher.cc) picks a net scene by the URL or the body of a request and answers
-- through `http::response::Pack` and `ws::Pack`; it also shakes hands with WebSocket clients, for
-- which it needs `md::Sha1` (utils/messagedigest.cc) and `base64::Encode`. `yaml::ParseYaml`
-- (utils/yamlutil.cc) reads the configuration. Threads pass work through
-- `ThreadSafeDeque` (utils/messagequeue.h). The reverse proxy picks a web server with
-- `LoadBalancer` (reverseproxy/loadbalancer.cc), forwards a packed request, and parses the reply
-- with `http::response::Parser` (http/httpresponse.cc). The parsers stand on `str::strnstr` and
-- `str::split` (utils/strutil.cc).
--
-- The files.
--   Prelude            lists, byte strings, Boolean tests and bit lemmas shared by all
--   Utils/StrUtil      utils/strutil.cc: strnstr, split, trim, delafter
--   Utils/Decimal      the number formatting of the C library as the HTTP layer calls it
--   Utils/Base64       utils/base64.cc: Encode, Decode
--   Utils/AutoBuffer   utils/autobuffer.cc: the buffer as a record, one function per method
--   Utils/MessageQueue utils/messagequeue.h: the deque, one step per call under its mutex
--   Utils/MessageDigest utils/messagedigest.cc: SHA-1; Fips has the standard's functions apart from
--                      those of the code
--   Utils/Yaml         utils/yamlutil.cc: the reader of the configuration files; Document has the
--                      configurations that it is written for
--   Http/FirstLine     http/firstline.cc: request line and status line
--   Http/HeaderField   http/headerfield.cc: the map of fields as a list sorted by key
--   Http/Packet        http/httppacket.cc: the parser that requests and responses share; its virtual
--                      methods are the fields of a record `Methods`
--   Http/Request       http/httprequest.cc: request::Pack and request::Parser
--   Http/Response      http/httpresponse.cc: response::Pack and response::Parser
--   Http/Total         the loops of both parsers on any buffer
--   LongLink/WebSocketPacket  longlink/websocketpacket.cc: ws::Pack and the frame parser
--   LongLink/WebSocketPacket/HandShake  its DoHandShake
--   NetScene/Dispatcher  netscene/netscenedispatcher.cc: registration, routes, making of scenes; a
--                      subclass of NetSceneBase is a record
--   NetScene/Worker    netscene/netscenedispatcher.cc: the answers of NetSceneWorker
--   NetworkModel/TcpConnection networkmodel/tcpconnection.cc: reading, parsing and sending of a
--                      connection, with Receive and Send of socket/unixsocket.cc
--   NetworkModel/ConnectionManager networkmodel/serverbase.cc: the pool of connections
--   ReverseProxy/LoadBalancer reverseproxy/loadbalancer.cc: profiles by index, Select by rule
-- The modules below a component hold its proofs; the Examples modules hold runs at concrete inputs.
--
-- State and operations. A buffer is the list of its bytes and a pointer into it the bytes from there
-- on. A method that changes its object takes the record and returns the new one. An exception, a
-- failed assertion, an undefined shift, a second lock of a held mutex and a wait are values of
-- result types. `size_t` subtraction wraps at 2 ^ 64 (`sub_size`).
--
-- Fuel. `split` runs on the length of the text and one more; the HTTP parser on four rounds and the
-- WebSocket parser on six, since a round that succeeds moves to a later part of the message; the
-- poll loop of the balancer on a fuel that its theorems bound by the number of servers.
--
-- Parameters. The clock and `inet_pton` of the balancer are arguments, as no code of them is here. So
-- is what the generated protobuf code reads of a request and writes of a response, and what the
-- scenes do, with the state that they share, what `read` and `write` come to on a socket, and the
-- capacity that a vector has behind `resize`.
--
-- Not modelled. Other calls of sockets, epoll, threads, coroutines, log, files and the database
-- client are I/O or wrappers of system calls. The upgrade of a connection's protocol, its
-- `MakeRecvContext` and the server classes but for their `ConnectionManager` are not modelled. Of
-- the yaml reader the cache of `Load`, the conversions by strtol and strtod and the printing are
-- not modelled. The body of `__BalanceByWeight` behind its lock is not modelled, since `Select`
-- holds that mutex.
-- `WebSocketParser::DoParse` is modelled behind its assertion that the handshake is done.
-- Text lengths are taken to be below 2 ^ 31 in `strnstr`, whose lengths are of type int.
pub mod Prelude
pub mod Utils
pub mod Http
pub mod LongLink
pub mod NetScene
pub mod NetworkModel
pub mod ReverseProxy
