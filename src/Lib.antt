-- ===== src/Lib.antt =====
-- edgeQ puts quality of service in front of inference servers at the edge. A broker sidecar queues the
-- requests of service groups and hands them to the model server in the order that a picker chooses; a
-- proxy sidecar tags the requests of a client with its group. A controller deploys models, injects the
-- two sidecars with an admission webhook, and keeps the status of the groups; an API server lists and
-- deletes what the controller manages.
--
-- Which file models which part (paths from the repository's root):
--   Queue, Queue/Pool       pkg/queue: Queue (Push, Pop, Peek), QueuePool (NewQueuePool, Push, Pop), and
--                           the HTTP and the gRPC item behind QueueItem
--   Picker                  internal/broker/picker: the pickers and their builders
--   Scheduler               internal/broker/scheduler: RegeneratePicker and Pick
--   Broker                  internal/broker/endpoint/http and grpc: EnqueueRequests, ProcessRequests,
--                           HandleRequest, and ServiceGroupFromContext of pkg/utils; Progress, Drains
--                           and Answers follow the loop until its queues are empty; Startup makes a
--                           server from its configuration
--   Metrics                 internal/broker/metrics: makeLabelsMap and makeLabels; Request has
--                           makeTimeseries and MetricFamiliesToWriteRequest, Collector the scrape, its
--                           loop and init; Series describes the time series that are written
--   StreamProxy             pkg/endpoint/pool/handler.go: the codec, the tries, the copying of frames
--                           (Frames, Ends) and the handler; an error of a stream is io.EOF or another
--   ProxyEndpoint           internal/proxy/endpoint/http and grpc: the tag with the service group
--   Holder                  internal/proxy/holder: New, Wait, Notify, Cancel
--   Utils                   pkg/utils/common.go
--   Sidecar, Webhook        internal/controller/webhook.go: the sidecars, the owner of a pod (Meta), the
--                           JSON patch (Patch), the configuration maps (Inject), the answer (Mutate),
--                           and what is registered with the API server (Registration)
--   Deployment              pkg/controllers/imdeployment; Listing, Relisting and Passes follow what one pass stores
--                           into the next
--   ModelService, Template  pkg/controllers/imservice and imtemplate
--   ConnPool                pkg/endpoint/pool/grpc_pool.go
--   Query                   pkg/apiserver/query
--   Apps                    pkg/models/apps/deploy.go; Listing has template.go, Nodes the lists of
--                           deployments, of a node's specifications and of running servers
--   Kapis                   pkg/kapis/apps/v1alpha1/handler.go and HandleError of pkg/api/utils.go
--   K8s, Config             the parts of the Kubernetes objects and of the configuration that these read
--   Text, Maps, Outcome     Go's strings, maps and results; Prelude is shared notation
--   Examples                concrete runs
--
-- How the parts interact: EnqueueRequests pushes an item with a new channel to the pool, where the queue
-- of its group, or the default queue, keeps it. Each round of ProcessRequests pops the pool: the fronts
-- of the queues are the candidates among which the scheduler's picker chooses, and the chosen item's
-- queue is popped. HandleRequest closes the item's channel. A channel is a number, in the order in which
-- it was made; a Broker holds the pool, the scheduler, the channels closed so far and the samples of the
-- metrics. A call that the lock of the pool makes atomic is one step; a run is a sequence of arrivals
-- and rounds in any order. A Go call returns an Outcome: a value, an error, or a panic.
--
-- The order in which Go visits a map, random numbers, time, and what libraries and the API server
-- answer are arguments of the definitions. What a reconciliation asks the API server to write comes back
-- as a list beside its result. An int or int32 is an integer; where the source adds, multiplies or
-- converts and the result matters, it is wrapped (Query, and the weights of Deployment). Loops are over
-- lists or natural numbers; only the copying of frames in StreamProxy takes fuel, and one more than the
-- number of answers before the end of the source is enough, since every round takes an answer. A
-- direction of the stream proxy is a run of its own, and the handler takes the ends of the two in any
-- order; the holder's goroutines are steps of a relation, each atomic with the lock that it takes.
--
-- Not modelled: process start-up, flags and configuration files; HTTP and gRPC transport and the reverse
-- proxy; TLS and the HTTP server of the webhook; the metrics registry, and parsePrometheusResponse,
-- which nothing calls; generated clients, deep copies and protocol buffers; the REST routes of the API
-- server; the capacity of a channel of the holder: what is sent is kept whether or not there is room.
mod Prelude
pub mod Outcome
pub mod Maps
pub mod Config
pub mod Queue
pub mod Picker
pub mod Scheduler
pub mod Broker
pub mod Text
pub mod K8s
pub mod Utils
pub mod Deployment
pub mod Query
pub mod ConnPool
pub mod Metrics
pub mod StreamProxy
pub mod Holder
pub mod ProxyEndpoint
pub mod Kapis
pub mod ModelService
pub mod Template
pub mod Apps
pub mod Examples
pub mod Sidecar
pub mod Webhook
