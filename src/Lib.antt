-- ===== src/Lib.antt =====
-- The content plane of a confidential inference router, modelled part by part. Requests reach a relay
-- with a ticket that the control plane issued; the ticket's binding decides what may be served;
-- provider calls go through circuit breakers; attested releases are named by digests of canonical
-- CBOR. Each part below is a module, with the definitions in the module itself (or in the child named)
-- and the proofs in its children.
--
-- - Prelude: Booleans, lists, results, texts and integers that the parts share. Numbers are native
--   naturals, an integer is `pos n` or `negsuc n` (which is -n-1), a thrown error is `err`.
-- - Breaker: src/providers/circuitBreaker.ts, class OperationalCircuitBreaker. The fields are those
--   of the record `Breaker`; `acquire`, `record_success`, `record_operational_failure`,
--   `record_neutral` and `snapshot` are the methods, with the clock's reading as an argument. The
--   WeakSet of settled permits compares objects, so a permit carries an identity. Breaker.Client is
--   the outside: it holds the issued permits and reports any outcome for any of them, at any time.
--   Breaker.Windows tells the counters from the outcomes that were reported.
-- - CircuitRegistry: class VeniceCircuitBreakerRegistry of the same file, whose map holds references
--   to breakers in a store. `scoped` is the method; `scoped_all` is a sequence of calls.
-- - Valkey: the commands that the Lua scripts call, an interface, since the service is outside the
--   repository; `valkey_has_write_capacity` is the guard in src/observability/valkey.ts. A script runs
--   alone. Valkey.Memory meets the interface.
-- - Numbers: JavaScript's printing and reading of numbers, an interface. Numbers.Counting meets it.
-- - Ticket: src/inference/tickets.ts. `ticket_fields` and `binding_from_hash` are the encoding;
--   Ticket.Store has the four scripts and the functions that run them. Ticket.SingleUse lets clients
--   and the clock take steps in any order.
-- - Cbor: src/gcp/control/cbor.ts. `encode_cbor` encodes; Cbor.Decoder has `decode_value` and
--   `decode_canonical_cbor`. The decoder recurs on fuel, twice the number of bytes and two more: a
--   value takes at least one byte, and each level of nesting takes two calls. TextEncoder and
--   TextDecoder are an interface.
-- - Concurrency: the leases of src/rate-limit/limiter.ts. `acquire_concurrency`, `release` (the closure
--   that the source returns) and `release_request_concurrency` run the three scripts. In
--   Concurrency.Clients requests take steps in any order, and Valkey and the callers share one clock.
-- - Routing: src/providers/routing/engine.ts and policy.ts. Routing.Filters has the tests on one route,
--   Routing.Ordering the comparison and the sort, Routing.Engine the order and
--   `build_provider_routing_plan`, Routing.Health the health of a route from its signals. Routing.Policy
--   normalizes the value of the wire, and Routing.Workspace has the digest and the merge under a
--   workspace's defaults. Prices and times are an interface, which Routing.Whole meets, and how a price
--   is printed is a parameter. A route carries an identity, by which the Set of routes seen compares.
-- - Capabilities: src/credentials/consumedCapabilities.ts, class ConsumedCapabilityLog. `World` is the
--   file and what the process remembers of it; `consume` and `was_consumed` are the methods. How a write
--   ends and the clock are arguments, so that writes may fail at either point and clocks may go back.
--   Capabilities.SingleUse adds restarts of the process and the loss of the file.
-- - KeyStore: src/providers/veniceKeyStore.ts. `parse_overlay` reads the file; KeyStore.Store has the class
--   with its cached overlay, and a method for each of the source's. KeyStore.Refinement is the map that
--   the store implements, over any sequence of changes and new processes.
--   Its file and that of Capabilities hold what JSON.parse makes of their text (Prelude.Values); printing
--   it and parsing it again is taken to give the same value, as the language does.
-- - EventLog: src/gateway/eventLog.ts. `single_event_payload` reads one payload, and `replay_rtmr` is one
--   register of `replay_rtmrs`. SHA-384 is a parameter (the record `Sha384`), as is JSON.parse of bytes;
--   `Broken` is what a hash may not do on the texts of two replays. The type of an event is an integer;
--   parseEventLog, which reads the entries from JSON, is left out.
-- - Money: src/metering/money.ts. `assert_micros` and its kin check an amount, `read_micros` reads one from a
--   column and `micros_to_usd_string` prints one, in Money.Printing without loss. The functions that compute
--   with fractions are left out, since floating-point arithmetic is not modelled.
--
-- Not modelled: the network servers and clients, the provider adapters, the attestation checks, the routing
-- classifier, metering and billing, token buckets, the configuration, and the deployment files. Zod's
-- schemas stand for the types of what they accept, and `fits_schema` for the sizes of a routing policy's.
pub mod Prelude
pub mod Numbers
pub mod Valkey
pub mod Breaker
pub mod CircuitRegistry
pub mod Ticket
pub mod Cbor
pub mod Concurrency
pub mod Routing
pub mod Capabilities
pub mod KeyStore
pub mod EventLog
pub mod Money
