-- ===== src/Lib.antt =====
-- A model of a proxy before Proxmox VE that holds each user to a quota, and proofs of what keeps the
-- quota.
--
-- The program. The proxy classifies a request by its method and path (internal/classify), reads who
-- sends it from the API token or the login cookie (internal/identity), and decodes the parameters of
-- a write (internal/audit). For a write that uses resources, the admission middleware
-- (internal/admission/admission.go) looks up the user's record in the quota file (internal/quota),
-- computes the increase that the write asks for (internal/admission/delta.go), sums up what the user
-- holds from the configs of all guests in the user's pool (internal/usage), and refuses the write if
-- a limit would be passed. An admitted write is forwarded, and the proxy waits until it shows in the
-- cluster before the next write of the same user. The main program (cmd/uq-proxy) builds all this from
-- its flags, with a reverse proxy and an access log (internal/proxy) and a client for the API
-- (internal/pve).
--
-- The files, each with the code that it models; a name in snake_case stands for the function of the
-- same name in the code's spelling:
--   Base        the Go language and its library: integers of 64 bits that wrap around (Base/Int), byte
--               strings and the package strings (Base/Bytes), strconv (Base/Strconv), maps as
--               association lists (Base/Dict), sums over maps (Base/Sums), float64 as an interface
--               (Base/Float)
--   Classify    internal/classify/classify.go; `classify` is Classify
--   Identity    internal/identity/identity.go; `from_request` is FromRequest
--   Body        the body of a request and the readers of the package io
--   Audit       internal/audit/audit.go: Params, readAndRestore and IsRestore; the log, Emit, record and
--               Middleware, in Audit/Log
--   Usage       internal/usage: usage.go in Usage/Disk (ParseDisk, ParseSize, IsDiskKey) and Usage/Guest
--               (GuestResources, ConfigUsage), engine.go in Usage/Engine (UserUsage and the others)
--   Quota       internal/quota/quota.go: the data in Quota/Config, Validate in Quota/Validate, and the
--               Store with Open, Watch and Get in Quota/Store
--   Admission   internal/admission: delta.go in Admission/Delta; of admission.go, checkQuota and
--               effectiveLimits in Admission/Check, decide, check and onErr in
--               Admission/Enforcer/Decide, Middleware, handleUnknown, deny and the waits in
--               Admission/Enforcer/Handle, WriteMetrics in Admission/Enforcer/Exposed, the locks in
--               Admission/Locks, and Middleware once more, for many requests, in Admission/Threads
--   Report      cmd/uq-proxy/main.go: overQuota and usageHandler, the page of usage against quota
--   Pve         internal/pve/client.go: parseConfText, and the reads over HTTP in Pve/Client
--   Writers     statusWriter of internal/proxy/accesslog.go and statusCapture of
--               internal/admission/admission.go
--   Start       cmd/uq-proxy/main.go: main up to the listener, with New of internal/admission,
--               internal/proxy and internal/pve
--   Serve       the handlers as main puts them together: WithAccessLog of internal/proxy/accesslog.go
--               around Middleware around the reverse proxy of internal/proxy/proxy.go, with what deny
--               writes; the pages of the admin listener and the end of main in Serve/Admin
--   Tests       examples on a small cluster
-- A folder below a file holds the proofs about it.
--
-- State and effects. A handler takes the metrics and the state of the cluster and gives them back with
-- an answer. The cluster is a parameter, `Backend`: what its API answers in a state, what a forwarded
-- request does, and what happens while the proxy sleeps. An error of the API is a value of `Result`.
-- The engine reads one snapshot of the API in each call. A refusal carries its reason as data; Serve
-- has the text that the code prints. The handler forwards the request that it was given: what
-- readAndRestore leaves in it is in Audit. A body is bytes up to io.EOF, or bytes up to an error,
-- behind which it is any body at all when it is read again. In Serve the cluster is behind a transport
-- whose round trips may fail and whose answers may break off, where the reverse proxy panics with
-- http.ErrAbortHandler; an answer is the list of calls on the writer. To the middleware a reply that
-- breaks off is one with the status 500: either way it unlocks and does not wait. The value `panicked`
-- stands for the dereference of a nil record, of a user whose entry in the quota file is empty: where
-- the decision reads no field of the record, the request goes on.
--
-- Threads. In Admission/Threads each request of a user with a record is a goroutine, and a step is what
-- happens between two points at which another one may come between: the arrival with the lookup of the
-- mutex, Lock, the decision, the forwarding, each poll of a wait, and the return with Unlock. The steps
-- of the goroutines, and changes of the cluster by itself, come in any order. A mutex is the number
-- under which it was made. The decision is one step, on one state of the cluster; the code makes several
-- reads of the API for it, between which other goroutines may step. The quota file does not change
-- during the steps.
--
-- Bounds. A loop over a map or a list is structural recursion; Go's order of a map is some order of
-- the association list. `polls` bounds the waits, whose bound in the code is a time of 10 seconds.
-- `format_uint` has fuel for 20 digits, which every integer of 64 bits has at most. White space and
-- letter case are those of ASCII.
--
-- Parameters, for code outside the repository: the decoders of YAML, JSON and form bodies, the encoder
-- of JSON, float64 arithmetic, the escapes of URLs, the round trips of HTTP, the trust in certificates,
-- the file system, and the API of Proxmox VE.
--
-- Not modelled: a request to the cluster that never comes to an end; writes of admins and reloads
-- of the quota file among the threads; what net/http does for the program, such as the rewriting of
-- the URL and the copying of answers in the reverse proxy, listening, timeouts and signals; the
-- bytes of JSON; log lines other than the audit record and the access log.
pub mod Base
pub mod Classify
pub mod Identity
pub mod Body
pub mod Audit
pub mod Usage
pub mod Quota
pub mod Admission
pub mod Report
pub mod Pve
pub mod Writers
pub mod Start
pub mod Serve
pub mod Tests
