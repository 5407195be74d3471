-- ===== src/Lib.antt =====
-- video.thingy.rocks: cameras send video over UDP, in clear or as SRTP; every instance of the
-- backend forwards it to one Kinesis Video stream per port. Instances share nothing but one DynamoDB
-- table, whose row for a port says who owns the port's stream (the Kinesis lock), how fresh that
-- lease is, and up to which packet index SRTP traffic was accepted (the replay floor). This library
-- models what keeps two instances from writing one stream and a recorded packet from being accepted
-- twice.
--
-- The parts, and the files that model them:
--
--   Dynamo          the document client that the services call, as a parameter: an update of one
--                   item is applied whole or not at all, and may be lost or answered by an error
--                   although it was applied. Dynamo/Memory is one such client.
--   StreamTable     the row and the update commands with their condition and update expressions
--                   (backend/src/StreamMetadataService.ts).
--   StreamMetadata  the methods of StreamMetadataService: tryAcquireKinesisLock is
--                   try_acquire_kinesis_lock, and so on. StreamMetadata/Lock and /Floor state what
--                   each outcome says of the row.
--   Cleanup         lambda/stream-inactivity-cleanup/index.ts: handler is handler.
--   Fleet           any number of instances and the cleanup against one table, interleaved call by
--                   call; Fleet/Leases is about the lock, Fleet/Floors and Fleet/Replay about the
--                   floor and its signed reset; Fleet/Producers runs a supervisor on that table.
--   HelperProtocol  backend/src/SrtpHelperProtocol.ts: HelperProtocol/Json and /Parse are
--                   parseMessage, HelperProtocol/Framing is the class with push. HelperProtocol/Emit
--                   is what backend/src/srtp_port.py writes: frame has the arguments of each form
--                   of call of its emit. `JSON.parse` and `json.dumps` are parameters; a text is
--                   the list of its character codes.
--   HelperPort      the helper itself, backend/src/srtp_port.py: HelperPort holds the index tracker
--                   and the admission of packets, /Candidates the search for the rollover counter
--                   (Search), /Session and /Handlers the handlers of SrtpPort, which return the
--                   frames that they emit; /Recorded puts helpers on the fleet's table.
--   Supervisor      backend/src/SrtpPortSupervisor.ts: one port's helper process and lock. The state
--                   is the class's fields; /Operations, /Session, /Frames and /Steps have one function
--                   or more per method (handleFrame is handle_frame and dispatch); /Invariant,
--                   /Start, /Late and /Recovery are about them. The lock service, the floor
--                   store, the child process, the clock and the observers are the parameter
--                   Services.
--   FloorReset      backend/src/SrtpFloorResetServer.ts: handle is handle, one function per stage of
--                   its checks. The clock, `JSON.parse`, the HMAC and the transport are a parameter.
--   TrafficMetrics  backend/src/TrafficMetrics.ts: the counters, and publishNow cut in two at its
--                   request: begin_publish and end_publish.
--   Transport       backend/src/SrtpTransport.ts: Transport/Config is srtpTransportConfigFromEnv,
--                   /Stats is onStats, /Serving is recomputeServing, /Credentials is
--                   HelperCredentials, /Lifecycle is start and stop, and /Reset makes the
--                   transport the target of FloorReset over the table of Fleet.
--   KeyStore        backend/src/SrtpKeyStore.ts: the keys of the ports; KeyStore/Load is loadPorts.
--   ChildProcessExit  backend/src/ChildProcessExit.ts: endChildProcess is end_child_process, over a
--                   list of what happens to the child while it waits.
--   Ingest          backend/src/index.ts: the packet handler of the unencrypted transport. Ingest
--                   holds the state, /Handlers each handler up to its next awaited call, and
--                   /Process the handlers that wait and the events that interleave.
--   EntryPoint      backend/src/index.ts: start and shutdown, by the calls that they await.
--   StreamState     backend/src/StreamStateManager.ts: onPacketReceived and the inactivity timers.
--   Pipeline        backend/src/KinesisIngestionPipeline.ts: Pipeline/Reorder is the buffer in front
--                   of the GStreamer process, from writePacket to the flush of stop, where the
--                   Node stream is the parameter Writable; Pipeline/Starts is start, and what
--                   registers a pipeline and takes it out.
--   Listener        backend/src/UDPListener.ts: start and bindPort.
--   Common          names, Boolean tests, lists and numbers that the parts share.
--
-- The supervisor calls the lock and the floor of StreamMetadata; its frames come from
-- HelperProtocol. The methods of one supervisor are serialized by a queue of promises, so a run is a
-- list of steps. What can happen during an awaited call is in what the call answers: each call of
-- Services takes the world and returns another. Fleet/Producers fills them by the operations of
-- StreamMetadata, with calls of the others before each. The calls of different instances interleave between
-- their requests to the table, which is how Fleet runs them.
--
-- Ingest calls the lock of StreamMetadata and the pipeline by a list of calls, which are answered in any
-- order; it uses StreamState as it is.
--
-- Numbers are natural: times in milliseconds since 1970, packet indices, lengths. Comparisons of
-- differences of times are written as comparisons of sums. The loops that are not recursions
-- on their data are the cutting of lines in `push`, the loops of the pipeline and that of the
-- search for the rollover counter. The first runs
-- on fuel, one more than the buffer is long, and each round shortens the buffer; take_lines_lem
-- of HelperProtocol/Framing/Lines shows that it always ends by finding no further line. The
-- loops of drain and of the flush run on more rounds than there are packets in the buffer, which
-- Pipeline/Reorder/Drain shows to be enough. A round of the search that gives no candidate
-- changes the turn, and the other turn always gives one, so two rounds are enough. A
-- supervisor's `log` is a record of what it did, for the statements; no function reads it.
--
-- Not modelled: how the helper reads its init frame and checks its arguments, its socket and
-- its GStreamer pipeline, whose callbacks are the events of HelperPort; KinesisVideoSender and
-- MetricsService, which no other module uses; the lambda that restarts the ingestion, which
-- only passes on an alarm to AWS; the AWS clients, logging, the sockets, the GStreamer
-- processes, the stack in cdk/ and the scripts.
pub mod Common
pub mod Dynamo
pub mod StreamTable
pub mod StreamMetadata
pub mod Cleanup
pub mod Fleet
pub mod HelperProtocol
pub mod HelperPort
pub mod Supervisor
pub mod FloorReset
pub mod TrafficMetrics
pub mod Pipeline
pub mod StreamState
pub mod Ingest
pub mod Transport
pub mod EntryPoint
pub mod ChildProcessExit
pub mod KeyStore
pub mod Listener
