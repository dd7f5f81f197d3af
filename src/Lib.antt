-- ===== src/Lib.antt =====
-- A model of the web side of the market sandbox: the gateway that stands between the exchange and
-- the pages (web/gateway), and the page's store of frames, its clock, its derived views and its
-- components (web/src).
--
-- The exchange reports every order as a telemetry message. The gateway normalizes it into a batch,
-- keeps the last batches for new pages, sends it to the open pages and writes it into a recording. A
-- page keeps the frames it receives, or reads them back from a recording, and shows them along a
-- clock that follows the market, plays or pauses; the statistics and charts are computed from its
-- frames, and an animation shows each order's way through the exchange. An order ticket sends an
-- order through the gateway to the exchange and shows its answer.
--
-- Files:
-- - Wire: the messages of web/gateway/normalize.ts and web/src/feed.ts as data types (WireBatch,
--   BookFrame).
-- - Normalizer: the class of web/gateway/normalize.ts. Raw: the raw message and the tables; Resting:
--   the map of resting orders; Normalizer: normalize and flushBook. Its other children hold proofs:
--   Bound, Attribution, Memory, Books.
-- - Roster: web/gateway/roster.ts.
-- - Gateway: the state and the handlers of web/gateway/server.ts; History, Recording, Greeting, Live
--   and Retries hold proofs, Recording, Greeting and Live together with the page's code that reads
--   what the gateway sends. Orders: placeOrder and the handler of the pages' messages. Args: the
--   command line. Demo: startDemo, shutdown and the last lines of the file, with proofs in Processes
--   and Bots.
-- - Traffic: any number of pages that use the gateway at once, as a step relation: their requests
--   (web/src/feed.ts), the handler of the pages' messages (web/gateway/server.ts), and what is on its
--   way between them. Origin, Pages, Sending, Answers and Own hold proofs.
-- - Feed: the class of web/src/feed.ts: its fields, push, indexAt, tick and takeNew. Controls: seek,
--   goLive, togglePlay, setSpeed, step. Socket: onMessage, switchToLive, the socket's onclose,
--   useReplay. Requests: request, its timer and the answers. Orders: placeOrder, cancelOrder,
--   setRecording; Retry: start, connect and scheduleRetry. Client: the events of a Feed. Index,
--   Delivery, Due, Step, Clock, Anchoring, Invariant and Requests/Settled hold proofs.
-- - Derive: web/src/derive.ts. Books: bookAt, lastBatchBefore; Trades: recentTrades; Series:
--   priceSeries; Percentile: percentile; Format: fmtPrice, as the number
--   that it shows; Stats: computeStats, with proofs in its children.
-- - Inspector: stageDurations and the list of orders of web/src/components/Inspector.tsx; Row:
--   traceRow; Waterfall: the bars; Words: describe and outcome.
-- - Scope: boundaries and stageAt of web/src/components/Scope.tsx. Flight: the packets of a draw;
--   Spotlight: the order that is followed; Queue: the fill of the queue; Pick: onClick; Slots:
--   botSlots and botY; Draw: drawPacket, as a list of what is drawn. Stages, Order, Flight/Shown,
--   Heads and Drawn hold proofs.
-- - Terminal: the order ticket of web/src/components/Terminal.tsx; Answered holds the proof of its
--   way to the exchange and back, Cancelled that of a cancellation. Form: what the ticket shows, with
--   a proof in Button.
-- - Page: the state of web/src/App.tsx that joins the panels. Follow: an order in the spotlight, from
--   the Inspector through Scope and back; Pick: a row of the book that is clicked, through the ticket
--   to the exchange.
-- - Transport: web/src/components/Transport.tsx: what the playback controls show, and their clock
--   texts; Clock and Pressed hold proofs. Decimal: the digits of a number.
-- - Workspace: the ladder and the tape of web/src/components/Workspace.tsx, with proofs in Rows;
--   Chart: the price chart, with proofs in Inside, Across, Stair and Spanned.
-- - Bots: the rows of the table of web/src/components/Bots.tsx, with proofs in Rows.
-- - Performance: the statistics of web/src/components/Performance.tsx.
-- - Prelude and JsMap: shared helpers; JsMap is the Map of JavaScript, in the order of insertion.
--   Samples, Gateway/Startup and the modules called Tests hold sample data and runs.
--
-- Correspondence: a method that changes fields is a function from the state to the new state (and
-- what it returns); a field keeps its name in snake_case. A reading of a clock is an argument. A
-- class whose methods run between waits is driven by events in any order, so that the runs cover
-- every interleaving.
--
-- Numbers: the source's numbers are floating point. Here prices are integers in millionths of a
-- cent (a cent is 0.01, the last place that fmtPrice shows), quantities integers, times of the page
-- integers in quarters of a millisecond and speeds in quarters (the page offers 0.25 and multiples
-- of it), so sums are exact, and of all rounding only that of fmtPrice is modelled, to the nearest
-- cent. The gateway's timer stamps a book with a reading in the unit of the frames' times; a
-- browser's clock reads whole milliseconds. An absent or null field of a message is none, and the
-- empty text of a table lookup that fails is none. A position on an order's way and a height in the
-- animation are fractions, compared by cross-multiplication; the time of the animation is in
-- milliseconds, and a duration that depends on the speed is a fraction with the speed as its
-- denominator.
--
-- Texts that the code takes apart or puts together (the clock of the controls, the command line) are
-- lists of character codes; all others are the library's texts, which are only compared and joined.
--
-- Fuel: the binary search of indexAt runs on as much fuel as there are frames and one more; that
-- this is enough is part of what is proved of it. The digits of a number are taken with more fuel
-- than the number. All other loops are by recursion on lists.
--
-- Not modelled: the rendering of the React components in web/src/components, web/src/App.tsx and
-- web/src/main.tsx, with the other text formats of numbers, and the drawing on the canvas but for
-- the packets, with the easing and the lengths of routes; the libraries for gRPC, WebSocket,
-- timers, processes, files and JSON, whose outcomes are arguments or events; and the C++ exchange
-- and bots (exchange, nodes), whose messages are inputs.
pub mod Prelude
pub mod JsMap
pub mod Wire
pub mod Samples
pub mod Decimal
pub mod Derive
pub mod Normalizer
pub mod Page
pub mod Feed
pub mod Roster
pub mod Gateway
pub mod Scope
pub mod Inspector
pub mod Performance
pub mod Terminal
pub mod Workspace
pub mod Bots
pub mod Traffic
pub mod Transport
