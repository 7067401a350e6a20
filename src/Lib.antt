-- ===== src/Lib.antt =====
-- Akamata's Cloudflare worker: a model of deploy/worker and the theorems that make it correct.
--
-- The worker runs an application that is compiled to WebAssembly. Requests come to the default `fetch` of
-- deploy/worker/index.mjs. It hides the internal routes, sends chat sockets to a chat room, has realtime sockets
-- authorized by the application before it opens a realtime room, and gives every other request to
-- the wasm instance as HTTP/1 text. All calls into the instance go through one FIFO lock, since
-- the instance is suspended at the awaits of its imports. The imports are bridges to D1, R2 and the
-- rest of the platform, which share the instance's linear memory. A realtime room is a Durable Object with sockets
-- and two SQL tables; each message goes to the application, whose answer is a list of actions.
--
-- Which file models which part:
--   Dispatch: deploy/worker/wasm_dispatch.mjs. `enqueue`, `wake` and `advance_dispatch` are `run` up to its await,
--     the await, and the rest with its `finally`; `step` is one step of the event loop, and
--     an interleaving is a list of events. Serial and Fifo hold the theorems.
--   Memory: readBytes, readString and writeBytes of deploy/worker/index.mjs.
--   Text, Json: the strings of the language (lists of UTF-16 code units) with the encodings, and JSON values.
--   D1: the d1_* imports. Registry is `d1stmts`; Statements the calls that change it; Columns those that read.
--   R2: the akamata_r2_* imports: Upload, Download and Listing.
--   Http: the head and bytes that dispatchWasmUnlocked writes (`request_bytes`), parseHttpResponse and
--     findHeaderEnd.
--   Instance: the calls of the exports by dispatchWasmUnlocked and by `queue`, with what they allocate and free;
--     Concurrent has many dispatches under the lock of Dispatch.
--   Realtime: deploy/worker/realtime_object.mjs. Room is the state with putState, getState, presence and
--     webSocketClose; Delivery is broadcast, send and disconnect; Actions is applyAction; Message is
--     webSocketMessage, cut at its await; Join is fetch; Events is the order in which the platform calls them.
--   Gateway: the default fetch up to the authorization (`gateway_begin`) and after it (Grant, `gateway_end`), with
--     deploy/worker/internal_routes.mjs.
--   ChatRoom: deploy/worker/chat_room.mjs.
--   Startup: instantiateOnce and instantiate of deploy/worker/index.mjs, cut at their awaits; `step` is an event.
--   Environment: akamata_env_get, the random bytes and the clock, with getWorkers of src/env.zig.
--   Producer: akamata_queue_send.
--   Outbound: akamata_fetch; Client is the Workers transport of src/http_client.zig at the other end.
--   Guestbook: deploy/guestbook/worker/index.mjs: its `dispatchWasm`, Statements its D1 bridge, and Simulation a comparison of its calls
--     with those of deploy/worker, by Entries and Readings.
--   Fuzzer: tools/fuzz/http_fuzz.mjs: the arguments and the payloads of the variants; Connection has rawRequest and slowloris
--     as machines over the events of a socket.
--   Docgen: tools/docgen/md_to_pdf.mjs and html_to_pdf.mjs: their arguments, the page and its title.
--   Prelude: the shared names, Boolean tests, list functions and their lemmas.
--
-- State is passed on explicitly. A throw is `none`, `threw`, `trap` or `failed`, where the caller sees one. Numbers
-- are natural numbers or integers: ids, cursors and lengths of the source are below 2 ^ 53, and pointers and
-- lengths of the memory below 2 ^ 32.
--
-- Parameters: the exports of the instance, the JSON codec, doubles with their conversions, the database behind `env.DB`, the
-- buckets' and queues' answers, the bindings of the environment, the platform's `fetch`, the allocator of the Zig side, `String` on what is no string, the
-- close rules of sockets, which headers and responses the platform accepts, and for the documents the Markdown package, the
-- paths of node:path and the style sheet. Header names from the platform are in lower case. What a theorem asks of
-- a parameter is among its hypotheses.
--
-- Rounds: `split` has one round for each code unit and one more, and each round drops the separator. `drain` reads a
-- statement once for each row and once more; `download` reads an object once for each byte and once more. That
-- this is enough is part of the theorems about them. `decimal` has one round more than the value of its number, and each round takes
-- one digit off; the round trips through `decimal` need that. Everything else recurs on the structure of its data.
--
-- Not modelled: the start and the other imports of deploy/guestbook/worker, whose text is that of deploy/worker; the loading of the wasm module and the table of its imports, the Zig framework on the other side of the
-- wasm boundary except for the two parts above, deploy/worker/realtime_handler.mjs (a constant answer), the servers of
-- examples/bench (handlers on third-party frameworks), of the tools the files, processes, clocks and chances, and
-- third_party/sqlite. Logging has no effect on what is modelled and is left out.
pub mod Prelude
pub mod Text
pub mod Memory
pub mod Dispatch
pub mod Http
pub mod Instance
pub mod D1
pub mod R2
pub mod Json
pub mod Realtime
pub mod Gateway
pub mod ChatRoom
pub mod Outbound
pub mod Environment
pub mod Producer
pub mod Startup
pub mod Guestbook
pub mod Fuzzer
pub mod Docgen
