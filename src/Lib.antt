-- ===== src/Lib.antt =====
-- Verification of xk6-bgp, a k6 extension that speaks BGP to a device under test.
--
-- A VU of k6 opens a session (internal/peer), announces routes that internal/packet puts into
-- UPDATE messages, waits until routes of the other side are seen, and meets other VUs at a
-- barrier (internal/coord). gobgp encodes and parses the messages. The files follow these parts:
--
-- - Base, Clock: shared names, lists and Go maps, results, bits; timing.Timestamp as a number,
--   0 for the zero time.
-- - Observed: internal/peer/recv.go. The record ObservedSet is observedSet with its waiters; each
--   critical section of its mutex is a function: apply_update (applyUpdate), register_waiter
--   (registerWaiter), deregister_waiter, apply_route_refresh, register_refresh_waiter, fail.
--   wait_for_prefixes is WaitForPrefixes: it registers, any list of calls by other goroutines
--   happens, and it takes its snapshot; so does wait_for_route_refresh_end. A waiter's id
--   stands for its address.
-- - Packet: internal/packet. build_update_message (BuildUpdateMessage),
--   chunk_routes (ChunkRoutes), shell_overhead, build_capabilities (BuildCapabilities). A route
--   is a record of what its methods give; Types has the constructors of IP, VPN and MUP routes,
--   Evpn those of EVPN routes.
-- - Coord: internal/coord/barrier.go. A caller of ArriveTimeout is a thread with a program
--   counter; one turn is one atomic action, and a schedule is a list of turns. barrier is
--   Registry.Barrier.
-- - Peer: the rest of internal/peer. Frame is ReadMessageMax, Config is Config and BuildOpen,
--   Negotiate is acceptPeerOpen, Fsm is Open and handshake, Loops is readLoop, keepaliveLoop,
--   Close and fail as interleaved turns, with the steps of Close and fail (Ending) one by one,
--   Send is Advertise, Withdraw and writeUpdates.
-- - Facade: bgp.go, what scripts call. Runtime reads single values (optString and its kind) and
--   arrays, Text has the functions on texts, Routes makes routes of descriptors (parseRoute),
--   Attrs the optional attributes, Request the argument of advertise and withdraw
--   (parseAdvertiseArg), Wait the keys to wait for (parsePrefixList), Config the configuration
--   (parsePeerConfig, newPeer). Each call goes on to the function of Peer or Observed that it names.
-- - Fakebgpd: cmd/fakebgpd/main.go, the test speaker: its hub and its loop over messages. A critical section of
--   the hub is a step, and so is each write, which the handlers make outside of the mutex.
--   Connection is handleConn over the octets of a connection, with the OPEN exchange.
--
-- What code outside the repository answers is an argument: gobgp's constructors (Gobgp, NewOpen),
-- its parser and its serializer, the connection, the clock, the context, the values of sobek
-- (Runtime), the parsers of addresses, prefixes, MACs, route distinguishers, communities and
-- durations, and the conversions of texts to one case (Imports). The laws assumed of them
-- are hypotheses: Keeps for the OPEN constructor, LengthLaw for the length of a body, whose
-- `growth` is what a longer attribute header adds.
--
-- Loops are recursion on the list that they run over: routes, capabilities, rounds of the
-- handshake, events. The packing loop takes one route in each round. The one fuel is that of serve,
-- the loop of fakebgpd: the length of the stream, of which each read takes at least a header.
-- Machine integers: the update counters of the receiver state wrap at 2 ^ 64, the hold time and
-- the AS of an OPEN at 2 ^ 16. Durations are numbers of nanoseconds and are not negative.
--
-- An int64 or a float64 of a script is its 64 bits.
--
-- Not modelled: metrics and debug output, the objects that a call hands back to its script, the
-- glue of module.go, barrier.go and profile.go, main and the KEEPALIVE ticks of cmd/fakebgpd,
-- the pause of updateRate, WallNs and SubMicros, and the texts of errors. An array whose length is
-- too large for the memory makes the facade panic; here it is only read. Configured durations that are negative
-- are outside of the model of the configuration.
pub mod Base
pub mod Clock
pub mod Observed
pub mod Packet
pub mod Coord
pub mod Peer
pub mod Fakebgpd
pub mod Facade
