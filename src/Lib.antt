-- ===== src/Lib.antt =====
-- tiksrv is a TCP server with plugins. A client sends framed requests; each is served by the command
-- that a plugin has exported under its number. The plugin eztik opens connections to MikroTik routers
-- and speaks the RouterOS API protocol with them. All paths below start with src/.
--
-- How the parts interact: the listener accepts sockets and hands a client to the server, which starts
-- its reader and runs the hooks of the group `connection`. The reader asks the socket for a header and
-- a body in turn and hands whole requests to the server, which looks the command up. A command answers
-- by `respond`, which posts the response to the client's send queue. A connection to a router works
-- alike: requests are posted and sent, bytes are put together to words and sentences, and a sentence
-- is given to the function that waits under its tag. A session joins a client of the server to such a
-- connection: it is created by a command, logs in, and ends with the client or with the connection.
--
-- Which file models what:
-- - Base: names of the libraries, tests, lists of bytes, `Act` (an operation as a function from a
--   state to a new state and the calls that it makes on other objects, or to `aborted` where an
--   assertion fails, or an exception leaves the I/O context's loop, which ends the program), `feed` (a
--   socket that delivers bytes in the portions that are asked for), masks and bit fields, decimal numbers.
-- - Net.Message: net/include/net/message.hpp and net/src/message.cpp.
-- - Net.Client: tcp_client and read_state_machine of net/include/net and net/src. `Client` holds
--   the socket's state, the read context and the send queue; each method is a function of its name,
--   `tcp_client::on_error` is `fail`. Completions of Boost.Asio are `read_completed`,
--   `send_completed` and `respond_posted`. Net.Client.Connection adds the reads under way and the
--   events that may happen, as a step relation.
-- - App.Listener: tcp_listener of net/include/net and net/src.
-- - App.Hooks: hooks_manager of services/include/services and services/src.
-- - App.Server: server of app/include/app and app/src, and the numbering of commands of
--   app/src/app.cpp.
-- - App.Services: services_manager of services/include/services and services/src. App.Config: config
--   of config/include/config and config/src, and the options of config_manager. App.Plugins: the
--   plugin loader of interop/src, and the loop over exported commands of app/src/app.cpp. App.Start:
--   the rest of app/src/app.cpp, with app.hpp and main/src/main.cpp.
-- - Core: plugins/core.
-- - RouterOs: plugins/eztik/routeros. Sentence is the encoder of src/sentence.cpp and the requests of
--   include/eztik/routeros/sentence.hpp, Response is their other half, Hex and Password are
--   src/util.cpp and include/eztik/routeros/commands.hpp, Length is the reading of lengths of
--   src/api.cpp, and Api is the rest of it, with the read state machine. Api.Connection adds the reads
--   under way and the events that may happen, as a step relation. Base.Outcome is code that may
--   throw or fail an assertion.
-- - Eztik.Sessions: sessions.hpp, session.cpp and sessions_service.cpp of plugins/eztik/services.
-- - Eztik.Error: plugins/eztik/shared. Eztik.Data: plugins/eztik/data. Eztik.Commands:
--   plugins/eztik/commands, where `Eztik` holds the sessions, the connections, what the two commands
--   that need a session keep, and the functions that wait for responses. Eztik.Plugin:
--   plugins/eztik/eztik, and the router's settings; Eztik.Plugin.Answering joins the server's dispatch
--   to the bodies of the commands.
-- - Net.Tests, RouterOs.Tests, App.Tests and Eztik.Tests hold runs at concrete inputs.
--
-- Parameters, for code that is not part of the repository: `Endian` is the machine's byte order with
-- Boost.Endian, `Fmt` the {fmt} library, `LexicalCast` Boost's lexical_cast, `Md5` the hash of
-- Crypto++, `ProgramOptions` Boost's options, `Messages` the generated Protocol Buffers code. The
-- file system and the command line are arguments, and so is whether a plugin's library can be
-- opened, and on which ports the acceptor opens. `keep` says how a function that was given to `send`
-- ends on a response: with its answer, an exception or a failed assertion; that of eztik's commands is
-- `waits_on`. The functions given to `open` and `login`, and the handlers of errors, are calls that a
-- step records; what they do is in Eztik.Sessions. `moved` is what is left of a std::any that has been
-- moved from. Functions and commands are numbers, or what they have captured.
--
-- Bounds: machine integers are natural numbers with their wrap-around written out, a byte is a number
-- below 256. `feed` takes a number of portions; `rounds` counts those that a stream needs, and every
-- theorem on `feed` gives at least that number and says what has been reached. No other function takes
-- fuel. Assertions are kept: a build without them is not modelled.
--
-- Not modelled: logging, and what is printed, which is output only; the generated Protocol Buffers
-- code and the opening of shared objects, which are libraries' work; the lifetimes of shared objects,
-- and destructors but those of `session` and `api`. An erased element of the loop over services makes
-- the rest undefined and has an outcome of its own; that in the loop over plugins is
-- not reached, since `export_commands` is noexcept. `async_send` is taken to send all or to fail, as the code takes it.
pub mod Base
pub mod Net
pub mod RouterOs
pub mod App
pub mod Core
pub mod Eztik
