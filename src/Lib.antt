-- ===== src/Lib.antt =====
-- simbeam streams an iOS simulator from a Mac to a client over WebRTC. A daemon on the Mac
-- registers with a rendezvous broker; a client joins it there, proves its key to the daemon and to
-- the broker, exchanges offer and answer, and from then on drives a session over two data channels.
--
-- Parts, and the files that model them:
--   * Signal.Message, Signal.Crypto, Signal.Canonical: internal/signal, the messages and the texts
--     that are signed. Base64, Ed25519, HMAC and the random source are the fields of `Primitives`.
--   * Broker and its children: internal/signalbroker. State holds the registry, the sessions, the
--     watchers and what each websocket's goroutine is doing; Daemons, Clients and Watch are
--     serveDaemon, serveClient and serveWatcher; Ice and Turn are iceServers and the fetcher of relay
--     credentials; Serve is handleWS and the run of a broker; Counts is stats.go. Links, Sessions,
--     Gate, Writes and Presence hold what is proved of them.
--   * Server.PairingWindow, Server.Pinned, Server.Handshake: pairing_window.go, pinned.go and
--     serveOnce of remote.go in internal/server, the daemon's side of pairing and of the gate, with
--     the callbacks of a session, OnClose and OnCandidate, as inputs of their own.
--     Server.Reconnect is the loop of ServeSignal around it, and Server.Identity is identity.go.
--   * Server.Session and its children: rtcdispatch.go, attach.go, control.go, bulk.go and backend.go,
--     the control plane of one session. Attach is the generation machine of attach.go, Lifecycle the
--     handlers of rtcdispatch.go, Requests those of bulk.go, Quality is QualityOpts; Run puts them
--     together. Owned, Released and Replies hold what is proved of them. Server.Bulk is sendChunked.
--   * Store and Broker.Subscriptions: internal/store and subscription.go, the subscriptions table and the
--     two handlers of its API; reading and writing time stamps is an argument.
--   * Updatecheck: internal/updatecheck, the order of versions, the cache and the loop of Run.
--   * Encoder.Nal and Encoder.Stream: nal.go and the reading goroutine of ffmpeg.go in
--     internal/encoder.
--   * Sim and its children: internal/backend/sim. Frames is readFrames, the framed video of the helper
--     simbeam-control; Startup holds the events on its stderr and the check of its protocol, and
--     Startup.Select the reading goroutine, the `select` and the Close of newControl; Input is the writer of
--     gestures to its stdin, and Keymap is keymap.go.
--   * Browser: internal/backend/browser, the touches of the demo device; chromedp is outside.
--   * Companion: parseSimctlDevices of internal/companion, the list of simulators; Companion.Order is
--     the order of texts that the sort uses, and Companion.Simctl has the calls of simctl.
--   * Daemon: cmd/simbeamd. Control is the control API of pairctl.go, over Server.PairingWindow; Pair is
--     runPair, the client of that API; Terminal is the pairing block of main.go and its timer; Unpair is
--     runUnpair, over Server.Pinned.
--   * Peer: internal/rtc/peer.go, the candidate buffer; Peer.Channels has the data channels and callbacks.
--   * Prelude: lists over native numbers, maps as association lists, tests. Tests: small runs, and each
--     theorem with hypotheses applied to concrete input.
--
-- How state is modelled. A goroutine with a lock is a step function from a state and an event to a
-- state and a list of effects; what the outside answers (the clock, the random source, the file
-- system, the backend, Cloudflare, the subscription store) is part of the event. A message, or the
-- loss of a websocket, is one step of the broker; a handler of a data channel is one step of a
-- session, the return of the backend to an attach and the end of a feed are others. Inside such a
-- step other goroutines do not run, except where two locked sections of the code are taken apart:
-- Broker.Presence.Race does so with the leaving of a daemon, and restart_seen and shutdown_seen of
-- Server.Session.Lifecycle with a restart and a shutdown. A websocket, a feed or a process is known by a number.
--
-- Bounds. The loops over a byte buffer and over the chunks of a transfer run on fuel, the length of
-- the buffer or of the payload (one more for the buffer), which is enough since each turn consumes at
-- least one byte. The loop over the helper's stream has the length of the stream and one more, since a
-- turn takes at least a header. The loops of runPair run on fuel that Daemon.Pair.Ends counts. Time
-- stamps of the helper and the durations made of them wrap around at 2^64; other numbers are unbounded:
-- the counters of the code have 64 bits, and no wrap-around of these is modelled. A text is compared
-- by its code points, and a byte is a number.
--
-- Not modelled: process and network I/O (spawning ffmpeg and the simulator helper, pion, websockets,
-- HTTP), the calls of the demo browser but its touches, the flags, drawing and service files of the
-- command line programs, and floating point and JSON, which are parameters where what is read back matters.
-- Of Close of the helper, the killing of the process is left out: its end and its reaping are events.
mod Prelude
pub mod Encoder
pub mod Sim
pub mod Browser
pub mod Companion
pub mod Daemon
pub mod Signal
pub mod Server
pub mod Broker
pub mod Store
pub mod Peer
pub mod Updatecheck
mod Tests
