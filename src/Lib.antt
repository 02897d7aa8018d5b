-- ===== src/Lib.antt =====
-- A verification library of NodeBus, the message bus of this repository (nodebus/).
--
-- The program's parts and how they interact. A process of the bus reads and writes QVariant values through
-- a codec (BCON, BSON or JSON; nodebus/core/parser.cpp and serializer.cpp) over a DataStream
-- (nodebus/core/datastream.cpp). The proxy (nodebus/proxy) joins two kinds of peers: boxes (StdPeer), which
-- speak a codec over a socket and register under a name, and HTTP clients (HttpPeer), whose requests it
-- answers or forwards to the box that their path names, whose reply it brings back. Containers load bundles
-- (nodebus/bundle/bundle.cpp) from shared libraries (nodebus/core/sharedlib.cpp). Every program reads its
-- command line with CliArguments (nodebus/core/cliarguments.cpp). The sockets of the peers are channels
-- (nodebus/nio), for which a thread, PeerAdmin, waits with a Selector, and which read through a buffer. The objects
-- that parts share are held by SharedPtr (nodebus/core/sharedptr.h). idlc (nodebus/idlc) compiles interface
-- files with the driver of nodebus/core/idlparser and links them.
--
-- Which file models what.
-- Prelude: shared names; Prelude/Tests Boolean tests and case lemmas; Prelude/Lists lists by native numbers;
-- Prelude/Exceptions the exception classes and what a run comes to.
-- Dict: QMap with its lookups. Variant: QVariant, QVariantMap in the order of its keys, Qt's conversions.
-- DataStream: operator>> and operator<< for both host byte orders (`read_word` and `write_word` stand for the
-- 32-bit ones). DataStream/Laws: their round trip.
-- Bcon/Write: Serializer::serializeBCON. Bcon/Read: Parser::parseBCON. Bcon/Token: the tokens. Bcon/Portable,
-- Bits, Encode: the values that survive and their bytes by the grammar. Bcon/RoundTrip, Total, Top: parsing
-- what was written, and parsing anything. Bcon/Faults: values that do not survive.
-- Bson/Write: Serializer::serializeBSONDocument and serializeBSONElt. Bson/Read: Parser::parseBSONDocument and
-- parseBSONElt. Bson/Token: the tokens. Bson/Elements and Faults: elements that come back and that do not.
-- SharedLib: SharedLib::load, getSymbol, unload. Bundle: Bundle::Bundle, install, uninstall, start, stop.
-- Bundle/Life: every sequence of calls.
-- CliArguments: CliArguments::define, getValue, isEnabled, parse. CliArguments/Laws and Kinds: what they keep.
-- Proxy: the state that peers share (`World`, where `std_peers` is StdPeer::m_stdPeers), cancel, sendResult,
-- rmRef. Proxy/Words: the texts. Proxy/Std: StdPeer::process, send, writeError, writeResponse and
-- Peer::Task::run on a box. Proxy/Http: HttpPeer::process. Proxy/Std/Registry: which box has which name.
-- Proxy/Std/Replies: how replies find their clients; Refused: replies that a client's format cannot hold. Proxy/Http/Reading and Answers: requests.
-- Idl: the errors, symbols and interfaces of nodebus/core/idlparser (Driver::appendError, NodeRoot::append,
-- resolve, NodeIntf::map). Idl/Exec: Driver::opexec. Idl/Assign:
-- Driver::setOpResult and type2str. Idl/Laws and Results: what the parent check keeps, and divisions by zero.
-- Idl/Include and its Files: Driver::include and parse.
-- Json/Write: Serializer::serializeJSON, INDENT and sanitizeString. Json/Escapes, Layout, Closed and Flags: what
-- its flags change. Json/Scan: the strings of nodebus/core/jsonparser/scanner.l.
-- Codec: Serializer::serialize and toFile, Parser::parse and fromFile.
-- Nio/Stream: StreamChannel and the IOChannel below it (nodebus/nio), reading. Nio/Stream/Waits, Fifo and
-- Liveness: what waiting keeps, which bytes come, and when a method ends.
-- Nio/Selector: Selector, SelectionKey, Channel::registerTo and closeChannel, IOChannel::updateStatus.
-- Nio/Selector/Registry, Cancel and Select: the registry of channels under these methods.
-- Nio/PeerAdmin: the thread that accepts connections and starts the tasks of peers. Nio/PeerAdmin/Serving: what it
-- leaves of a server.
-- Nio/Sockets: SocketChannel, `__connect`, `__bind`, the constructor and the destructor of IOChannel, with the
-- descriptors that are open. Nio/Sockets/Held and Connected: what they leave open. Nio/Server and its Options:
-- ServerSocketChannel. In both, isOpen() of a channel is the one of QIODevice.
-- Nio/Writing: IOChannel::s_write. Nio/Ssl and its Freed: the TLS channels.
-- Proxy/Keystore and its Tidy: PKCS12SSLCtx of nodebus/proxy/proxy.cpp. Proxy/Start: Proxy::onStart.
-- Proxy/Start/Turns, Interfaces and Servers: the servers that it leaves.
-- Logger: the text of a log entry (nodebus/core/logger.h). Logger/Lines, Items, Columns and Hex: its lines, its
-- items, the columns of maps and the text of bytes.
-- Application and its Exits: Application::run and notify. Container: Container::onStart and the search of
-- Master::onStart. Container/Startup: a container under Application::run.
-- Settings: Settings::define and setup. Service: Service::Service.
-- SharedPtr: the counted pointers of nodebus/core/sharedptr.h on a heap. SharedPtr/Counting and Release: how many
-- pointers an object has, and the destructors. SharedPtr/Pointers, Assign and Dangling: construction and
-- assignment.
-- Idlc: IDLc::link and processIntf of nodebus/idlc. Idlc/Marks and Termination: linking ends. Idlc/Exec and its
-- Compiled: IDLc::onExec and the files that it writes.
-- Tests: concrete runs.
--
-- Conventions. A method is a function from the state to the new state and the exception that it threw, if
-- any, so that what was done in front of an exception stays done. Integers are bit patterns with the
-- wrap-around of their width written out. A QString is the list of its UTF-16 units.
-- Qt is a parameter: the record `Qt` has the text conversions of the codecs, `BsonQt` more of
-- BSON, `Texts` the numbers of JSON, `Conversions` those of the proxy, `Patterns` the regular expressions of the command line. dlopen and dlsym, the HTTP header parser, the
-- generated JSON parser and QUuid are arguments as well, and so are the answers of the system calls on sockets and of OpenSSL.
--
-- Fuel. parseBCON and parseBSONElt recurse by the data that they read. parseBCON runs on 2 * length + 1 units for an input of
-- that length. Each call reads at least a byte and each item takes two calls, so that these are enough.
-- parseBSONElt takes its fuel as an argument.
--
-- While a channel waits, the kernel is a list of ticks of 100 ms each, with what happens in each; a wait that the
-- list does not end is `out_of_fuel`. The loop of `Selector::select` takes a list of what its calls of epoll_wait
-- come to. The destructors of counted pointers run on one unit for each pointer that goes, of which there
-- are at most as many as the objects hold and one.
--
-- IDLc::processIntf runs on one unit for each unmarked interface and one; each call marks one.
--
-- Driver::parse runs on one unit for each file; each include that parses lists a file that was not listed.
-- IOChannel::s_write runs on the answers of its calls, of which one for each byte are enough.
--
-- Not modelled: the grammars of nodebus/core/jsonparser and idlparser, whose code is generated, but for the
-- strings of JSON; assignment to a counted pointer that is a member; the signal handlers and the event loop of
-- applications; the manipulators of QTextStream. SlaveApplication and BundleManager have empty methods. The
-- sockets of the proxy's peers take what is written to them, and a method of a peer or of a selector, which
-- holds its lock, is one step. The proxy's own messages to boxes are taken to be values that the format of a box
-- holds. What a format does not hold is a parameter, `refuses`; what a serializer wrote to a box in front of a
-- refused value is left out; and the memory that m_format has before it is set is taken to be one of the formats. Printing an
-- Exception is left out: it reads a buffer that was freed. A ::read of bytes that FIONREAD counted is taken not
-- to fail. epoll_ctl fails for a descriptor that is closed, added twice or not there; its limit of watches is
-- left out. StreamChannel::close, whose call of
-- Channel::close has no declaration, stands for closeChannel. HttpPeer answers on sockets without TLS: over TLS
-- closing has no effect. A command line has its program's name. atomic_uint_fast16_t has 64 bits, as with glibc on x86-64. Nio/Stream reads from a channel that its epoll watches, as an IOChannel made
-- with its default flags.
pub mod Prelude
pub mod Dict
pub mod DataStream
pub mod Variant
pub mod Bcon
pub mod Bson
pub mod SharedLib
pub mod Bundle
pub mod CliArguments
pub mod Proxy
pub mod Idl
pub mod Idlc
pub mod Nio
pub mod SharedPtr
pub mod Json
pub mod Codec
pub mod Settings
pub mod Service
pub mod Logger
pub mod Application
pub mod Container
mod Tests
