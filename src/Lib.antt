-- ===== src/Lib.antt =====
-- llamesh: a mesh of nodes that start llama.cpp servers on demand and forward requests to each
-- other. This library models the decisions of one node: which peers may be called, which ports and
-- how much memory a spawn takes, which instances make room for it, which are stopped as wedged,
-- which protocol a connection speaks, what gossip changes, which requests wait and who is woken,
-- which instance and which node take a request, which instances are drained, which peers are
-- trusted, and which configurations may start.
--
-- Parts, and the files that model them:
--
-- CircuitBreaker (src/circuit_breaker.rs). A circuit per peer: `PeerCircuit` with its counters and
--   stamps, the gates `should_allow`, `should_allow_sync` and `try_claim_dispatch_sync`, the results
--   `record_success` and `record_failure`, `forget` and `reset`. CircuitBreaker/Circuit.antt has what
--   happens to one circuit, CircuitBreaker.antt the map of circuits, CircuitBreaker/Calls.antt a
--   history of calls, CircuitBreaker/Interleaving.antt the atomic steps of concurrent probe claims.
-- PortPool (src/node_state/port_pool.rs). The set of used ports, the search, and the leases with
--   their three ends: release, handoff and drop.
-- SpawnReservations (src/node_state/spawn_reservations.rs). The registry of memory commitments with
--   its wrapping revision, and the objects that own the entries: their handoff, marks and finish.
-- Admission (src/node_state/mod.rs: `resource_accounting_for_instances`,
--   `pick_victims_from_accounting`, `plan_spawn`; `effective_max_instances` of src/config.rs). The
--   memory account over the registry and the instances, the idle instances to evict, and the plan of
--   a spawn. A plan carries the registry's revision, which SpawnReservations checks on use.
-- Wedge (src/wedge_detector.rs; `detect_and_kill_wedged_instances` and `kill_wedged_instance` of
--   src/node_state/mod.rs). The verdict on a sample, the streaks over ticks, the confirmation and the
--   recheck before an instance is stopped.
-- ProtocolDetect (src/protocol_detect.rs). The classification of the first four bytes and the loop
--   over peeks.
-- Config (`NodeConfig::validate` and `merge_secrets` of src/config.rs). The checks at start-up; its
--   sections configure CircuitBreaker, PortPool and Wedge; Config/Startup.antt has what the checks give
--   the first two.
-- Gossip (src/cluster.rs: `process_gossip_message` and its helpers; `PeerState` of
--   src/node_state/peer_state.rs). Which messages are stale or rejected for their version, the address
--   that is stored of a sender, and the nodes that are only heard of. Gossip/Address.antt has the
--   functions on addresses and URLs.
-- Queues (src/node_state/mod.rs: joining a queue in `get_instance_for_model`, `notify_queue_by_key`,
--   `promote_pending_token`, `remove_queue_entry_from`, `remove_pending_token_from`,
--   `has_pending_waiters`, `notify_waiters_for_available_slots`, `notify_all_queues`,
--   `begin_shutdown_drain`; `QueueEntryGuard` and `PendingQueuePermit`). Queues.antt has what happens
--   under each lock, Queues/Tokens.antt the interleavings of requests, notifiers and cleanups. Whether
--   the receiver of an entry is gone is a parameter of one call, and part of the state of a token in
--   the interleavings.
-- Slots (src/node_state/mod.rs: the choice and the claim of an instance in
--   `try_get_or_spawn_resolved`, `SlotReleaseGuard`, `available_ready_slots_for_model`,
--   `drain_instances_for_binary_update`, `maybe_cancel_drains`, `check_idle_instances`,
--   `evict_all_idle_instances`; the drain after a release in src/router.rs). The running instances, as
--   numbers into a heap, and the map that lists them. Slots/Life.antt has the interleavings of
--   requests, releases, drains and evictions, with the holders of each slot. A sweep reads the map
--   twice, and its heap and map may differ between the two.
-- Acquire (src/node_state/mod.rs: `get_instance_for_model`, `adopt_reloaded_profile`,
--   `refresh_profile_after_reload`, `effective_queue_timeout`). The loop in which a request gets a slot,
--   waits in the queue, or recovers from a load that failed. A turn of the loop reads a `Round`, the
--   answers of the rest of the node, and returns the effects that it has on it; Acquire/Turns.antt has
--   the turns and the loop, Acquire/Ledger.antt and Acquire/Retries.antt what the effects add up to.
-- Routing (src/node_state/mod.rs: `has_forwarding_target`, `find_peer_for_model`, `select_best_node`,
--   `calculate_node_score`, `calculate_cold_start_cost`). Which peers may take a request, and which of
--   them does; it reads the records of Gossip and the circuits of CircuitBreaker. Routing/Score.antt has
--   the score, Routing/Select.antt the choice among this node and its peers, Routing/Forwards.antt the
--   counts of the forwards under way (`track_peer_forward`, `PeerForwardGuard`).
-- ModelIndex (src/node_state/model_index.rs: `build_model_index`, `resolve`). The index of the enabled
--   profiles of the cookbook, under lowercase names.
-- Args (`build_pre_args` of src/node_state/model_index.rs, `compute_args_hash` of src/instance.rs). The
--   command line of a profile, with the options that are added to it, and its hash.
-- Metrics (src/metrics.rs: `HashMetrics`, `Metrics`, `snapshot`, `from_snapshot`, `migrate_args_hashes`,
--   `legacy_args_hash`). The counters of the node and of each command line, under the hash of Args.
--   Metrics/Snapshot.antt has the snapshot that is written to a file and read back at a restart
--   (Metrics/Restart.antt), Metrics/Migration.antt the move of entries from old hashes, with
--   Metrics/Moves.antt, and Metrics/Window.antt the samples of latency.
-- Relay (src/router.rs: `build_forward_headers`, `remove_hop_by_hop_headers`,
--   `build_local_upstream_headers`, and the check of the hops in `route_request`). The headers of a
--   request that is relayed. The map of headers is the interface `HeaderMaps`; Relay/Hops.antt has a
--   request on its way from node to node.
-- Noise (src/noise/known_peers.rs and src/noise/transport.rs). Noise/KnownPeers.antt has the pinned keys,
--   their file and `verify_peer`, on the functions on texts of Noise/Text.antt; Noise/Trust.antt has
--   interleavings of handshakes, Noise/Acceptance.antt one alone, Noise/Parsing.antt the file read back,
--   Noise/RoundTrip.antt a restart. Noise/Transport.antt has
--   `send_data` and `recv_data` with the frames between them.
-- Secrets (src/instance.rs: `backend_api_key`, `first_key_in_file`, `parse_csv_row`,
--   `redact_secret_args`). The API key that a server accepts, read from its command line, a key file or
--   the environment, and the command line as it is logged. A text is the list of its code points.
-- Auth (src/security.rs: `check_api_key_auth`, `constant_time_eq`; `AuthConfig` of src/config.rs). Which
--   requests are let in by their key. Auth/Bits.antt has the operations on the bits of a byte.
-- Prelude: Boolean tests, lists, maps, equality and machine words.
--
-- Numbers are natural numbers; `u32` and `u64` counters have their wrapping or saturation written
-- out. Maps are association lists without double keys. An operation that holds a lock is one step;
-- of the operations on atomics, the claim of a probe is one step per access, and the others, which
-- count, are one step each. Recursion is structural: the peeks of a connection are a finite list.
-- The loops of `notify_queue_by_key` and `notify_all_queues` run on fuel, the length of the queue
-- and one more: each round takes an entry off it. So does the loop of `recv_data`, on the length
-- of the stream and one more: each frame takes four bytes; and the chunks of a message, on its
-- length. The loop of `get_instance_for_model` runs on the rounds that it is given, and its state
-- says whether it has returned in them.
--
-- Parameters: the clocks, whether a port can be bound and the random start of the port search,
-- what the memory samplers, procfs and NVML report, floating-point numbers, the Unicode case
-- tables, the URL parser with the text of a socket address, the ciphers of a Noise session, the
-- digest of a command line, the map of headers, the file system, the environment and the text of
-- times, and whether a lock could be taken without waiting.
--
-- Not modelled: log lines and their throttling, the process control of an instance, the gossip loop
-- and its transport, the dispatch and the streams of the router, the handshake, keys and tokens of
-- Noise and the HTTP messages over it, the gauges of resources and the text of the metrics for
-- Prometheus, the certificates of TLS, the HTTP handlers, the build of llama.cpp, and the parsing of
-- the configuration file.
pub mod Prelude
pub mod CircuitBreaker
pub mod PortPool
pub mod SpawnReservations
pub mod Admission
pub mod ProtocolDetect
pub mod Wedge
pub mod Config
pub mod Gossip
pub mod Queues
pub mod Noise
pub mod Routing
pub mod ModelIndex
pub mod Slots
pub mod Acquire
pub mod Secrets
pub mod Args
pub mod Relay
pub mod Auth
pub mod Metrics
