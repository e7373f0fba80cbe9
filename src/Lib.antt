-- ===== src/Lib.antt =====
-- TLS-Impersonate-Proxy: a model of the proxy's own logic, and what holds of it.
--
-- TIP is a proxy that terminates TLS, reads `X-Tip-*` directives from a request's headers, and sends the
-- request on with a client that imitates a browser. A request passes these parts, in this order:
--   - internal/directive parses and checks the directives against the operator's policy and chooses a
--     browser and an OS (Directive);
--   - internal/impersonate gives a client for the resulting spec out of a cache that all requests share
--     (Impersonate);
--   - internal/connect dials through an upstream CONNECT proxy, if there is one (Connect);
--   - internal/proxy answers a failure itself, with a diagnosis, a Proxy-Status entry and what a refusing
--     hop sent (Proxy); internal/logging redacts what is shown (Logging);
--   - internal/metrics labels the request with a route and counts it (Metrics).
-- cmd/tip loads the configuration (Config), makes the parts from it and serves until it is told to stop
-- (Command).
--
-- Files and code:
--   Base, Text, Assoc             what the parts share; texts as lists of code points, `strings`; maps
--   Net, Http                     net/url's record, net.SplitHostPort; net/http's Header
--   Directive/Types               internal/directive: directive.go, spec.go, issues.go
--   Directive/Names, Schema       schema.go: names and enums; coercers and tests
--   Directive/Parse               parse.go
--   Directive/Policy, Operator    policy.go
--   Directive/Resolve             Resolve of directive.go
--   Impersonate/Client, Cache     internal/impersonate: client.go, cache.go; Cache/Reach has the steps
--   Impersonate/Races             two orders of steps that end badly
--   Impersonate/Classify          Classify of client.go
--   Impersonate/Build             build.go; Build/Surf has what a registered hop does to a transport
--   Connect                       internal/connect/connect.go
--   Logging                       internal/logging: redact.go, logging.go
--   Metrics/Routes                internal/metrics/routes.go
--   Metrics/Registry              internal/metrics/metrics.go, cmd/tip/observer.go
--   Proxy/Status, Diagnosis       internal/proxy: status.go; diagnose of roundtrip.go
--   Proxy/Errors                  errors.go; Headers of internal/directive/issues.go
--   Proxy/Server, Handler         observer.go, Server of proxy.go, handler.go, finish of roundtrip.go
--   Proxy/Handler/Tunnels         the requests of one tunnel, whose looks and changes interleave
--   Proxy/Handler/Drain, Race     Drain of proxy.go; Drain between two steps of onRequest
--   Proxy/Trip, Body              RoundTrip of roundtrip.go; body.go
--   Proxy/Outbound                logOutbound of roundtrip.go
--   Proxy/Encoding, Certs         encoding.go; certs.go
--   Proxy/Connection, Pages, Ca   proxy.go: authentication; pages; ca.go
--   Impersonate/Infer             internal/impersonate: infer.go, profiles.go
--   Impersonate/Context, Lines    context.go: finalize; the captured lines
--   Impersonate/Catalogue         catalogue.go
--   Impersonate/Profiles          the agent and the hints of Edge in profiles.go
--   Config, Unknown, Load         internal/config: config.go, unknown.go, load.go
--   Command                       cmd/tip/main.go
--
-- State is passed explicitly: a method takes its receiver and returns the new one. The cache is a record
-- whose pointers to clients and to pending builds are numbers into two heaps; `Get` is cut into the parts
-- that hold the lock, and a step relation lets other goroutines act between them. A `Release` is one step of
-- that relation; Impersonate/Races takes its countdown and its look at `retired` apart. A request's look at
-- the picks of its tunnel and its change of them are two steps: what the tunnel's other requests do in
-- between is an argument of the handler, and Proxy/Handler/Tunnels has their steps. A pass of the loop of
-- `Drain` is given as what happens to the server in it and whether the context is done. Libraries are
-- arguments: url.Parse, http.ParseCookie, zog's Parse of the schema, the network of a dial,
-- http.StatusText, the random numbers, the decoders of bodies, the agents of the browsers. The handler
-- takes the cache's `Get` as an argument, as the code has it behind an interface.
--
-- Bounds and fuel: `make_room` has one round of fuel more than the cache has entries, each round drops one;
-- `replace_from` has the text's length, each round takes a character; `digits_from` has more fuel than the
-- number has digits. Times of use are below 2 ^ 63 - 1, and the settings that the schema reads have their
-- 32 or 64 bits. Other numbers have no bound: the counters of a run stay far below 2 ^ 63.
--
-- Limits: letter case is folded for ASCII alone; a header name has at least one value, as net/http gives
-- it; a Go map is a list of its entries in the order in which the iteration at hand takes them; the
-- observer's counters move with the step under the lock and not right behind it; `Close` of the cache is
-- modelled and is no step of the relation. The messages of errors are kept where the code shows them to a
-- client.
--
-- The builder is the list of the calls that `Build` makes of the surf library; surf itself, prometheus,
-- zog, YAML, X.509 and the files are arguments, and a theorem that needs one of their promises names it as
-- a record of hypotheses. A vector of the metrics is the log of its additions.
--
-- Not modelled: the schema of the configuration with its defaults, a declaration for zog; the goroutines
-- of cmd/tip beside `run`, and the order of its shutdown; the wiring of goproxy, whose handlers are taken
-- in the order in which they are registered; the relay of bytes in the bodies.
pub mod Base
pub mod Text
pub mod Assoc
pub mod Net
pub mod Http
pub mod Connect
pub mod Directive
pub mod Metrics
pub mod Logging
pub mod Impersonate
pub mod Proxy
pub mod Config
pub mod Command
