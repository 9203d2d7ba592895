-- ===== src/Lib.antt =====
-- The minesweeper server with its boards and the wire format of its plugin interface, the client
-- that plays on it, and the envelope.
--
-- The server keeps boards and, for each client, a copy of one of them. Handlers, some of them in
-- plugins, read and change a client's board; between the server and a plugin, parameters travel as
-- bytes. The client asks for what its keys mean, and shows what it reads of the answers. The parts
-- that are modelled, by file:
--
-- - Prelude, Prelude/*: the names of the library that all files use; Boolean tests, lists with
--   native indices, and the integers with the conversions between C++'s integer types.
-- - Outcome: how a piece of the server's code ends: a value, an exception, or undefined
--   behaviour.
-- - Board: `coord_t` and `board_i` (src/server/plugins/api.hxx), `cell_ext_t` and `board_t`
--   (src/server/api.cxx). A coordinate counts from 1 on. Board/Grid relates it to the vector of
--   cells; Board/Neighbors is about `neighbors`, Board/Cells about counts over the vector.
-- - Board/Reveal: `reveal` and `reveal_cells`. The loop of the flood runs on fuel: a round for
--   each cell that is still unrevealed and one more, as each coordinate of the queue was revealed
--   just before. Board/Reveal/Region describes a flood without the loop; Invariant, Loop and Exact
--   are about the loop, and Safe is about the mines.
-- - Board/Create: the constructors, `clone`, `compute_neighbor_counts`, `create_board` and
--   `create_fixed_board`. What rand() returns is a parameter, the k-th call's result a function of
--   k, and the search for a free place runs on fuel that the caller chooses, since it may not end.
-- - Parameter: `parameter_t` with its lists and maps.
-- - Wire: `parameter_bytestream_t` (src/server/plugins/api.hxx). Wire/Writer is `store` and
--   `serialize`, Wire/Reader `load` and `deserialize`. The reader runs on fuel, two units for a
--   byte of the payload and one more. Wire/Encode is the encoding as a function; Wire/Writes and
--   Wire/Stored are about the writer, Wire/Reads, Wire/Scalars, Wire/Decoded and Wire/RoundTrip
--   about reading what was written, and Wire/Leaves and Wire/Total about the reader's fuel.
-- - Handlers: the handlers of a client's board (src/server/handlers.cxx) and the plugin
--   `cell_check` (src/server/plugins/cell_check.cxx). A handler takes a board and the parsed
--   parameters and returns its answer and the board as it left it. Handlers/Game has the invariant
--   of a game, Handlers/Answers and Handlers/Serve the handlers one by one and as requests,
--   Handlers/Win the check for a win, and Handlers/Play sequences of requests from a board's
--   creation on. Handlers/Found, Handlers/Replies and Handlers/Located say what an answer tells of
--   the board behind it, and Handlers/Sizes how many bytes it takes.
-- - Server: the boards and clients of `plugin_api_t` (src/server/api_impl.hxx,
--   src/server/api.cxx) and the plugin `boards_list` (src/server/plugins/boards_list.cxx).
--   Server/Clients is about the boards of clients.
-- - Dispatch: a request from its query to its response. Dispatch/Host is what a handler answers,
--   and what restbed and `wbr::str` give, a parameter; Dispatch/Types is src/server/types.hxx.
--   From src/server/plugins/api.hxx come Dispatch/HandlerWire and Dispatch/ResourceWire, `to_wire`
--   and `from_wire` of an answer and of a resource, and Dispatch/Adapter, the adapters of
--   handlers. From src/server/api.cxx come Dispatch/Growing, `store_growing`, Dispatch/Params,
--   `parse_params`, Dispatch/Register, `add_resource`, and Dispatch/Respond, `dispatch`.
--   Dispatch/Session is `session_new_handler` (src/server/handlers.cxx), and Dispatch/Auth is
--   src/server/http_auth.cxx, with the time in seconds as an argument, and tokens that expire
--   after 24 hours. Dispatch/Serializer is what `parameter_serializer_t` gives the emitter of YAML
--   and the printer of XML, with a reader of these events. Dispatch/Entrypoints is the table of
--   resources in `main` (src/server/server.cxx). Dispatch/Call and Dispatch/Left are about a
--   handler's call through bytes, Dispatch/Meant and Dispatch/Typed are about the parsed
--   parameters, and Dispatch/Served, Dispatch/Playing and Dispatch/Clients are about the server
--   that a request leaves. The loop of `store_growing` runs on fuel for fourteen capacities, the
--   last one above its limit.
-- - Json: the JSON library, a parameter with what its documentation says, and what the server
--   hands to it (`to_json` of src/server/api.cxx).
-- - Client/Api: the requests of the client and what it reads of their responses
--   (src/client/api.hxx, src/client/api.cxx). Client/View: the client's board
--   (src/client/board.hxx). Client/Game: `run_game` (src/client/ui.cxx), where the keys that are
--   pressed are a list, and the world that the requests change is passed on. Client/Main: `main`
--   (src/client/client.cxx) behind its arguments. Client/Contract says what the game asks of the
--   requests; Client/Tiles, Mirror, Following, Moves and Playing are about the game over any
--   requests that fulfil it.
-- - Client/Remote: the way from a request of the client to its dispatch on the server; what
--   restbed makes of a URL is a parameter. Client/Reading, Answered, Told, Counted, Understood,
--   Asking, Judged and Fulfilled are about what the client reads of each answer, and Client/Whole
--   is the client with the server. Client/Session is about `main` over requests that keep what
--   they rely on, Client/Clocked numbers the requests, and Client/Joined has the start of a
--   session and the token of each request, which the server looks for at the time when the request
--   is sent. An answer is at most 1 MiB with its header, or it is lost; a board of up to 10000
--   cells, each less than 100 bytes of an answer, keeps within it.
-- - Plugins: the libraries of plugins (src/server/server.cxx), from a directory's entries to the
--   end of the server. Plugins/Events is about sequences of events, Plugins/Loading and
--   Plugins/Shutdown about what is loaded and unloaded. The dynamic loader is a parameter.
-- - Expected: `std::expected` with a message, and how else code that returns one can end.
-- - Envelope/Base64: both alphabets (libs/envelope/src/base64.cxx). Table is about the tables,
--   and RoundTrip and Errors are about `base64_decode`.
-- - Envelope/Libraries: the calls of zlib and OpenSSL, a parameter, and what their documentation
--   says. Envelope/Layers: the functions around these calls (libs/envelope/src/compress.cxx and
--   crypto.cxx); Envelope/Unlayer is about each of them undone. A cipher context is a value that
--   each call returns anew.
-- - Envelope/Config is the configuration (libs/envelope/include/envelope/envelope.hxx), and
--   Envelope/Wrap `envelope_t::wrap` and `envelope_t::unwrap` (libs/envelope/src/envelope.cxx).
--   Envelope/Unwrap is about the one after the other, Envelope/Forgery about bytes of another
--   origin.
-- - Board/Tests, Wire/Tests, Envelope/Tests, Dispatch/Tests, Handlers/Tests, Server/Tests,
--   Plugins/Tests and Client/Tests: the theorems at concrete boards, parameters, requests,
--   envelopes, plugins and keys.
--
-- A board has fewer than 2 ^ 64 cells, so that `width * height` does not wrap around; the theorems
-- on boards ask for sides below 2 ^ 31 - 1, so that the `int` arithmetic on coordinates stays in
-- range. The counts of cells are an `int`, and wrap around from 2 ^ 31 cells on; the overflow of
-- the difference of two is taken to wrap around too. The lengths that OpenSSL takes as an `int`
-- are cast to it, while `uLong` of zlib and `size_t` are taken to hold them. A buffer is shorter
-- than 2 ^ 62 bytes. A read or write outside of a vector or buffer is a failure of its own and
-- never a value.
--
-- Not modelled: the text of logs, and the numbers in the messages of exceptions; locks, as one
-- request is handled at a time; a response's headers, and the text that the libraries for YAML and
-- XML write; the assignment of handles to plugins; the cleansing of keys in memory; what the
-- client draws, its options, its URLs and the library that sends them; the solver and the
-- generator; the HTTP server, its configuration and its keys. A handler that throws an exception
-- is taken to leave what it works on as it was.
pub mod Prelude
pub mod Outcome
pub mod Board
pub mod Parameter
pub mod Wire
pub mod Expected
pub mod Envelope
pub mod Handlers
pub mod Server
pub mod Dispatch
pub mod Json
pub mod Client
pub mod Plugins
