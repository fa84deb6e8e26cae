-- ===== src/Lib.antt =====
-- gost_x (module github.com/wznpp1/gost_x): the extensions of the tunnel GOST, in Go. Services
-- accept connections and hand them to handlers, which route them through chains of hops and nodes;
-- on the way the core asks the components below who may connect, where a name leads to, and how
-- many connections a client may hold. Each of these components keeps a table that it builds from
-- its options and from up to three loaders (file, redis, http), and that a goroutine rebuilds at
-- every tick of a clock until the component is closed.
--
-- The components and their files:
--   Bypass (bypass/bypass.go): which addresses are not sent through the chain. new_bypass is
--   NewBypass, reload and load_patterns are reload and load, contains is Contains, period_reload
--   is the loop of periodReload on a sequence of events, close is Close.
--   Admission (admission/admission.go): which clients are let in, by the same kind of table
--   without names. Admission.Listener (admission/wrapper/listener.go): accept is the loop of
--   Accept, over the connections that come in. Admission.Packets (admission/wrapper/conn.go): read
--   and read_from are Read and ReadFrom of the wrapped connections.
--   Hosts (hosts/hosts.go): names to addresses; lookup_ips is Lookup, parse_line is parseLine.
--   Ingress (ingress/ingress.go): names to endpoints; get is Get.
--   Auth (auth/auth.go): users and passwords; authenticate is Authenticate.
--   Matcher (internal/matcher/matcher.go): the four kinds of matcher that Bypass and Admission
--   classify their patterns into.
--   Loader (internal/loader/loader.go, and the methods load, parsePatterns and parseLine that
--   Bypass and Admission have alike): what a loader gives at a time, and the reading of its lines.
--   Limiter.Conn (limiter/conn/limiter.go): the counters of connections and groups of them;
--   group_allow is Allow of a group.
--   Limiter.Table (limiter/conn/conn.go, limiter/conn/generator.go): the limits by key, and the
--   group of counters that the method Limiter makes for each client and keeps; limiter is Limiter,
--   parse_limit is parseLimit.
--   Limiter.Listener (limiter/conn/wrapper/listener.go, limiter/conn/wrapper/conn.go): accept is
--   Accept, close_conn is Close of a connection; a World is the table, its counters and the
--   connections that are open, and run is any sequence of connections, closes and reloads.
--   Limiter.Rate (limiter/rate/rate.go, limiter/rate/generator.go, limiter/rate/limiter.go): the
--   limits of requests for a second, group_allow is Allow of a group, which asks all its limiters;
--   Limiter.Rate.Table is the table, of the same make as that of connections.
--   Limiter.Traffic (limiter/traffic/traffic.go, limiter/traffic/generator.go,
--   limiter/traffic/limiter.go): the limits of bytes per second. Limiter.Traffic itself has the
--   level of single connections, with the key "$$": conn_in and conn_out are that part of In and
--   Out, reload_conns is the second block of reload. Limiter.Traffic.Values has load and
--   parse_limit; Limiter.Traffic.Table the whole limiter: reload, input and output are reload, In
--   and Out, reload_shared and reload_levels the blocks of reload, set_level what reload does to
--   one limiter. Limiter.Traffic.Waiting has Wait of a limiter and of a group. A limiter is its
--   rate, and none expires between two calls; that a limiter which was handed out follows a later
--   reload is left out.
--   Limiter.Stream and Limiter.Packets (limiter/traffic/wrapper/conn.go,
--   limiter/traffic/wrapper/listener.go): read and write of limited stream connections, over the
--   traffic limiter of the module before; read_from and write_to of limited packet connections,
--   whose cache of limiters does expire.
--   Relay (connector/relay/conn.go, handler/relay/conn.go): udp_write, read_packet, tcp_write and
--   the others are the methods of the connections of the relay protocol; read_response is
--   readResponse.
--   UdpRelay (internal/net/udp/relay.go): run is any interleaving of the two loops of Run, from
--   start; result is what Run returns.
--   Sniffing (internal/util/forward/forward.go): sniffing is Sniffing, is_http is isHTTP.
--   Service (service/service.go): serve is Serve over what Accept of the listener returns, as the
--   list of what it does; close is Close.
--   Chain (chain/hop.go, chain/chain.go): select_node is Select of a hop, route is Route of a
--   chain, with the routes that multiplexing transports dial through. Chain.Connect
--   (chain/route.go): connect is connect of a route, as the list of what it marks, resets and
--   closes for given outcomes of the nodes.
--   Registry (registry/registry.go): the named objects; register, unregister, is_registered, get
--   and get_all are the methods of those names. Registry.Wrappers (registry/admission.go,
--   registry/bypass.go and the other registries of one type): what their Get returns, wrappers
--   that look the object up at every call; wrapped_admit is Admit of the wrapper of an admission,
--   and so on. wrapper_list is bypassList of config/parsing/service.go.
--   Resolver.Cache (internal/util/resolver/cache.go): the cache of DNS answers; store and load are
--   Store and Load. Resolver.Servers (resolver/resolver.go, internal/util/resolver/resolver.go):
--   resolve is Resolve, over that cache and the exchangers of the name servers.
--   Selector (selector/): the choice of a node. fail_filter and backup_filter are the two Filter
--   methods, apply is Apply of the strategies, next is Next of randomWeighted, select_one is
--   Select.
-- Conns is net.Conn, as Read and Write over any states, with what io.Reader and io.Writer ask for.
-- The components share Text (a Go string as its list of code points; strings.IndexByte, TrimSpace,
-- Split and so on), Text.Labels (the loop over the parent domains of a name, which Matcher, Hosts
-- and Ingress have alike), Assoc (Go maps), Net (net.ParseIP, net.ParseCIDR, IP.String, To4, Equal
-- and SplitHostPort of Go 1.20) and Int64 (int64 with its wrap-around). Samples and the modules
-- named Tests hold concrete inputs, Code the names that the tests unfold.
--
-- How the code is modelled:
--   A component is a record of its fields; an operation that changes it returns the new record. A
--   nil pointer is the none of an Option. A Go panic is the none of an Option as well: a glob that
--   does not compile, a write to a nil map. Functional options are a data type of settings,
--   applied in their order.
--   A loader is a function of the time at which it is asked, so that two reloads may read
--   different data; what an error of a loader leaves behind is what the function returns at that
--   time. A reader that cannot be had is none.
--   Counters of connections are cells of a heap, since groups share them, and are words of 64
--   bits.
--   Third-party code is a parameter, the record Net.Libs: the containment test and the containing
--   networks of cidranger, and the compiler of gobwas/glob. The transports of nodes are parameters
--   as the outcomes of their calls, and the selector and the bypass of a hop as functions. Random
--   numbers, the CRC of a hash source, metadata and failure markers of nodes are parameters of the
--   selectors (Selector.Draw, Selector.Traits). units.ParseBase2Bytes, float64 and the buckets of
--   golang.org/x/time/rate (Limiter.Rate.RateLib), miekg/dns, whose Pack may fail, the exchangers
--   of name servers (Resolver.Servers.Dns), the response of go-gost/relay (Relay.RelayLib), and
--   the parsers of TLS and HTTP (Sniffing.Parsers) are parameters too. A connection that is read
--   or written is any function of a state; the theorems assume that it does what io.Reader or
--   io.Writer ask for (Conns.IsSource, Conns.IsSink), with at least one byte for a read without an
--   error. The theorems that need a cidranger assume that a ranger acts as the union of its
--   networks.
--
-- Bounds and fuel: the loop over parent domains has the length of the name and one more as its
-- fuel, and each round makes the name shorter (find_suffix_enough); the loops of the address
-- parsers have the length of their text. The loop of Write has one round for each byte and one
-- more, since Wait lets at least one byte pass (Limiter.Stream.Writing.write-IsWritten). The
-- theorems on counters ask for limits and requests below 2 ^ 62, where no addition of 64 bits
-- wraps.
--
-- Not modelled: the time that a rate limiter takes; the wait of a read for bytes that do not come.
-- Allow on the counters of one group by several goroutines at a time, between one counter and the
-- next; the loggers and the metrics; the limit of bufio.Scanner on the length of a line; strings
-- that are not UTF-8; mutexes, since the methods of most components swap a table in under its
-- lock, so that they act one at a time; reload of the traffic limiter changes its caches of
-- limiters without a lock (limiter/traffic/traffic.go), and the model takes it as one step, so
-- that calls of In and Out in the middle of it are left out. The other handlers, listeners,
-- dialers and connectors are input and output on sockets.
pub mod Prelude
pub mod Text
pub mod Assoc
pub mod Net
pub mod Loader
pub mod Matcher
pub mod Bypass
pub mod Admission
pub mod Ingress
pub mod Hosts
pub mod Auth
pub mod Int64
pub mod Limiter
pub mod Selector
pub mod Chain
pub mod Registry
pub mod Resolver
pub mod Samples
pub mod Code
pub mod Conns
pub mod Relay
pub mod Sniffing
pub mod Service
pub mod UdpRelay
