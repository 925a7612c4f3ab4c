-- ===== src/Lib.antt =====
-- burrowcode: a service that runs ffmpeg commands. An API (api/) takes a command over HTTP and
-- puts a task on a queue; workers (worker/) take tasks from the queue, download the inputs, run
-- ffmpeg, store the outputs and write a result; a webhook service (webhooks/) delivers the
-- notices that the workers enqueue. The queue is asynq over Redis.
--
-- The parts, with their files here:
-- - Worker: worker/main.go. Args is parseCommandArgs, Placeholders is expandPlaceholders, with
--   Template for what becomes of a command and Order for the order of its loops, FileType is
--   getFileType, Media is getMediaDimensions and downloadFile, Request has the structs that
--   travel through the queue with their JSON form, Job is what handleFFmpegCommand does between
--   the creation of the job's directory and the result, Handle is the handler as a whole,
--   enqueueWebhook and the queue's IsFailure, with its theorems in Handle/Outcomes,
--   Handle/Published, Handle/Reported and Handle/Limits. What happens where nothing fails is in
--   files named Success, on the machines of Os/Helpful.
-- - Config: worker/config/config.go, with the getEnv helpers that the three services repeat.
-- - System: worker/system. Resources is resources.go, Hardware is hardware.go, Progress is
--   progress.go.
-- - Adapters: worker/adapters. A file per storage, and Names for what they share.
-- - Api: api/main.go. Types has its structs and the schemas of api/oas/oas_schemas_gen.go that
--   it uses, Handlers has CreateCommand and HealthCheck, Front has what main puts before the
--   generated server: the CORS middleware, the mux and the OpenAPI file, Result is the decoding
--   of a task's result, Status has GetCommand, ListCommands and taskToStatus, Router is
--   api/oas/oas_router_gen.go. Codec and its children are api/oas/oas_json_gen.go, a file for
--   the schemas of a request, one for those of a command's status and one for the others;
--   Validate is oas_validators_gen.go; Enums has the texts of the enumerations of
--   oas_schemas_gen.go; Http is the generated server, which decodes a request, calls the handler
--   and encodes its answer (oas_handlers_gen.go, oas_request_decoders_gen.go,
--   oas_parameters_gen.go, oas_response_encoders_gen.go), Http/Client how the generated client
--   reads an answer (oas_response_decoders_gen.go), Http/Send how it sends a request
--   (oas_client_gen.go, oas_request_encoders_gen.go), and Http/Remote puts the two together.
-- - Webhooks: webhooks/main.go.
-- - Pipeline: the three services on one queue. Worker/Start and Webhooks/Start are their main
--   functions up to the run of asynq's server, Os/Queue is what that server is told and relied
--   on for, and Pipeline has the steps of the services and the states that they reach.
-- - Contract: what crosses the queue between api/main.go and worker/main.go, with the request in
--   Contract itself and the result on its way back in Contract/Result; Contract/Webhook has what
--   crosses it between worker/main.go and webhooks/main.go.
-- - Golang, Json and Os are what the code uses of Go's standard library: texts, numbers, paths,
--   maps and errors; JSON values; and the calls to the outside.
-- - Base has the names and lemmas that all parts share, Tests has concrete runs.
--
-- How the code is read. Code that calls the outside is a function of a state: a machine
-- (Os.Machine) answers each call of Os.Call, and the state keeps the list of the calls made so
-- far, so that a theorem can speak of their order. The machine is a parameter; nothing is
-- assumed of its answers, but where a theorem is about a machine on which nothing fails
-- (Os.Helpful). An error is the text of its message (Golang.Errors.Result), and the sequencing
-- of Os.Act stops at it as an early return does; what is deferred runs on every path. Loops over
-- maps and slices are recursion on a list. Only the printing of a number has fuel, which is one
-- more than the number.
--
-- Where the reading is coarser than the code. Texts are sequences of code points, so that bytes
-- that are no valid UTF-8 are not covered. A map is a list of entries, which every iteration
-- meets in the same order. Payloads are JSON values: the text of JSON and the messages of
-- encoding/json are not reproduced. Floating-point numbers and the spelling of times are a
-- parameter (Os.Values). Integers of 64 bits wrap around where the code computes with them. A
-- run of ffmpeg whose progress is followed is one call that gives all of its lines. Log lines
-- are left out. The AWS client and the queue are calls of the machine; which tasks asynq gives
-- to which service is a parameter (Os.Queue.Asynq), which says that a service gets the tasks of
-- its queues and those whose type it handles. The libraries under the generated coders, go-
-- faster/jx and ogen's json and validate, are a parameter (Codec.Jx); JxLaws says that what they
-- write they read. The client's libraries for URLs and HTTP are a parameter (Http/Send.Remote);
-- Http/Remote.IsConnected says that they reach the server. A body is the value that it spells. A
-- server's prefix in the router is the empty text.
--
-- What is not modelled: the health server of the webhook service and the listening of the API;
-- of the code that ogen generates, the options of client and server, middleware, tracing and
-- metrics; when the queue runs a task again or drops it, which the steps of Pipeline leave open.
pub mod Base
pub mod Golang
pub mod Json
pub mod Os
pub mod Config
pub mod System
pub mod Adapters
pub mod Worker
pub mod Api
pub mod Webhooks
pub mod Contract
pub mod Pipeline
pub mod Tests
