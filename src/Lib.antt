-- ===== src/Lib.antt =====
-- tartuffe, a service-virtualization server: imposters answer requests with the responses of the first
-- stub whose predicates match. This library models its request matchers, selectors and
-- stubs, the behaviors of a response, the manager of its servers, its repositories, in memory and on
-- files, and its TCP and SMTP connections.
--
-- Parts and files:
-- Prelude (children Tests, Lists, Strings, Maps, PortMaps, Int, Slices, Split,
--   Decimal): shared names; Go strings as lists of bytes with ASCII case folding, maps as association
--   lists in the order of a `range` loop, Go's int as an integer that wraps at 2^63.
-- Value: the dynamic values (`interface{}`) of predicates and JSON bodies, numbers as float64 bit
--   patterns, with reflect.DeepEqual.
-- Models: internal/models. Request (request.go), Predicate and Stub (stub.go), Smtp (smtp.go),
--   Imposter (imposter.go, without its TLS, gRPC and link fields). Stub.next_response is NextResponse,
--   with its two counters as int64 bit patterns and the panic on a negative index as a value.
--   Stub/Schedule and Stub/Cycle describe the order of the responses.
-- Matcher: internal/imposter/matcher.go. Env has the regexp and JSON libraries as parameters; Fields
--   has getRequestField and fieldExists; Cache has getCompiledRegex; Json has jsonContains and
--   deepEqualJSON; Compare has compareValues and deepCompareValues; Substring has contains,
--   startsWith, endsWith and matches; Exists has evaluateExists and the paths into JSON bodies;
--   Evaluate has evaluatePredicate and matchesAllPredicates, with the script engine and the selectors as
--   the parameter Engine; Match has Match and getMatchResult. The state that scripts change is passed from one predicate to the next.
-- Selectors: internal/imposter/selectors.go. Selectors cuts the segments of a path, Navigate and Search
--   walk through the value and apply the selector; Predicates gives them to the matcher as its Engine.
-- Behaviors: internal/imposter/behaviors.go. Its functions give an Outcome: a result, an error or a panic.
--   Select has the JSON paths of copy and lookup, Extract the other selectors, Replace the replacement
--   of tokens, Decorate the result of a decorator, Execute the behaviors one after the other. Tools has
--   the regexp package, JSON, CSV files and the JavaScript engine as parameters; the time that `wait`
--   sleeps is part of the result.
-- Manager: internal/imposter/manager.go, the four maps of running servers, with Start and Stop of a
--   server as far as the maps see them; Surroundings says what the listener and the certificate give.
-- Serving: the part of internal/imposter/manager.go between a match and the socket: mergeWithDefault,
--   ProxyStubs with recordProxyStub, Writing with writeResponse and handleCORSPreflight.
-- Proxy: internal/imposter/proxy.go. Predicates has generatePredicates, Recording generateStub,
--   Forwarding Execute and buildTargetURL, Binary isBinaryResponseContent; Network, Urls and Generation
--   are the HTTP client, the URLs, and the pattern and script libraries.
-- Protocols: the matchers of SMTP (internal/imposter/smtp_server.go), TCP
--   (internal/imposter/tcp_server.go) and gRPC (internal/imposter/grpc_matcher.go). They share the
--   evaluation of a tree of predicates; Mail, Tcp and Grpc have their fields and operators.
--   Tcp/Connection is the connection of the TCP server, a function on the reads that Tcp/Reading
--   describes; a read after the last one runs into its deadline.
-- Repository: internal/repository/repository.go, its errors; Repository/Memory is memory.go. The mutex
--   makes each operation one step, so concurrent clients are a sequence of operations.
--   Repository/Filesystem is filesystem.go. Filesystem/Disk is a directory tree with the calls of the os
--   package, Actions the steps that may fail and keep what they have changed, with readJSON, writeJSON
--   and filenameFor; Stubs saves a stub, Reading has Get, All and what they load, Operations the rest.
--   JSON, the clock and the process are the parameter Host; the machine itself does not fail.
--   Below, Saved, Loaded, Several, Header, Frame and Loads have the lemmas.
-- Smtp: internal/imposter/smtp_server.go. Session is handleConnection as a function on the lines that
--   arrive, from the loop on; the message parser is its parameter. Email is that parser, parseEmail with
--   the functions that it calls, and Addresses is splitAddresses and parseEmailAddress; base64 is a
--   parameter.
-- Api: internal/api/handlers. Imposters has the handlers of the list of imposters, OneImposter
--   those of one, Stubs those of an imposter's stubs,
--   as functions of the decoded body and of World, the repository in memory with the manager; Options is
--   what a reply shows of an imposter.
-- Tests: concrete imposters and requests, and the theorems applied to them.
--
-- How they interact: an HTTP server asks Matcher for a result, which advances the chosen Stub; Matcher
-- asks Selectors for the part of a body that a predicate is about; the TCP connection asks its matcher,
-- applies Behaviors to the response and records into the imposter, as the SMTP connection does; the
-- repository holds the imposters that own the stubs, and Manager the servers of the imposters. A match with a proxy goes to Proxy, the stub
-- of which Serving/ProxyStubs puts among those of the imposter. Api calls the repository and Manager.
--
-- Bounds: predicates, values and paths are trees or lists, and all loops recurse on them. Only the
-- decimal text of a number n (Prelude/Split) runs on fuel, n + 1, which is enough, since each step
-- divides by ten: Prelude/Decimal reads the text back as n. Counters wrap as in Go; the theorems that need room say so.
--
-- Not modelled: the JSON forms of the models, ServeHTTP with its sockets,
-- faults and tunnels, the gRPC server, the JavaScript engine, plugins, the router of the HTTP API, configuration, web pages and the command line: I/O around
-- libraries, or parts not described yet. Case folding of bytes outside ASCII is not modelled either, and trim_space
-- (strings.TrimSpace) trims the spaces of ASCII only. The text of a JSON number is a parameter wherever
-- one is written (format_number in Selectors has the test for an integer in it).

pub mod Prelude
pub mod Value
pub mod Models
pub mod Matcher
pub mod Selectors
pub mod Behaviors
pub mod Manager
pub mod Serving
pub mod Proxy
pub mod Api
pub mod Protocols
pub mod Repository
pub mod Smtp
pub mod Tests
