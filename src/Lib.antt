-- ===== src/Lib.antt =====
-- A reverse proxy in C++20: listeners accept clients, a router chooses the virtual host of a request,
-- the site's policies decide about it, and a proxy forwards it to the site's backend. This library
-- models the parts that decide, each as functions on its state, and proves what makes them correct.
-- Paths are from the root of the repository.
--
-- Parts and files.
--   Base             names shared by all: native numbers, lists, bytes, and maps as association lists.
--   Proxy.Limiter    src/proxy/BackendConcurrencyLimiter.{hpp,cpp}. `acquire`, `release`,
--                    `cancel_pending`, `timeout_pending`, `update_limits`, `retain_sites` and `clear`
--                    are the critical sections of the calls of the same names; each returns the events
--                    that the call causes outside: timers armed and disarmed, handlers called. World
--                    interleaves them with the permits that are alive; `clear` only when none is.
--   Proxy.Pool       src/proxy/BackendConnectionPool.{hpp,cpp}. `detach` is the critical section of
--                    `acquire`, `release` and `clear` are the calls, `recompute` and `reap` the two
--                    things that the reaper thread does; Keeping interleaves them.
--   Proxy.Probe      src/proxy/BackendProbe.{hpp,cpp}: `guarded` runs one handler of `ProbeState`,
--                    which an exception may leave at the places of `Throw`; the steps run them in
--                    any order.
--   Routing.Host     src/routing/HostNormalizer.cpp: the normal form of a host name.
--   Routing.Router   src/routing/VirtualHostRouter.{hpp,cpp}: `router` is the constructor, `find` the
--                    lookup. It uses Routing.Host and the check of Policy.UrlAuth.
--   Policy.UrlAuth   src/policy/UrlAuthenticator.{hpp,cpp}: `check_spec` is the constructor,
--                    `authenticate` the decision about a request target.
--   Policy.Cidr      the address ranges of src/policy/RequestPolicy.cpp.
--   Policy.Request   src/policy/RequestPolicy.{hpp,cpp}: the parent has the data, Text the helpers on
--                    text, Rate the class `RateLimiter`, Acl, Redirects and Hotlink the rules,
--                    Compile the constructor and Evaluate `evaluate`, which returns the limiter that
--                    it leaves.
--   Admin.Auth       src/admin/AuthService.{hpp,cpp} and, in Users, the statements on administrators
--                    of src/database/ConfigRepository.cpp.
--   Core.Registry    src/core/ConnectionRegistry.{hpp,cpp}: the parent has what the two registries
--                    share, Connections and Requests have the classes.
--   Network.ClientIp   src/network/ClientIpResolver.{hpp,cpp}: `resolver` is the constructor, `resolve`
--                    the call. Ranges are those of Policy.Cidr.
--   Logging.Queue    src/logging/LogManager.{hpp,cpp}: `enqueue`, `stop` and the critical sections of
--                    the writer thread; World interleaves them with the calls.
--   Logging.Lines, Logging.Event, Logging.Recent  the same files: the lines, the events, and
--                    `recent_lines` on the contents of the files.
--   Tls.Contexts     src/tls/TlsContextManager.{hpp,cpp}: `holder` and `context_manager` are the
--                    constructors; Selection has `can_serve_domain` and `server_name_callback`.
--   Config.Runtime   src/config/RuntimeConfig.{hpp,cpp}: `runtime_config` is the constructor, and puts
--                    Routing.Router and Network.ClientIp together; `site_count` and `router_at` are
--                    the lookups.
--   Network.Admission  src/network/ConnectionAdmission.{hpp,cpp}: the atomic steps of `try_acquire`
--                    and of a permit; Steps interleaves threads.
--
-- How the code is read. A call under a mutex is one function; what happens between calls is a step
-- relation. Exceptions are values. Machine words keep their wrap-around where the source counts
-- (`inc64`, `% 2 ^ w`); signed 64-bit ids stand for their bit pattern, and readings of clocks are
-- natural numbers of the source's unit. Boost, OpenSSL and the clocks are parameters: digests and
-- comparisons in Policy.UrlAuth and Admin.Auth, the contexts of certificates in Tls.Contexts, the
-- manager of TLS contexts in Config.Runtime, the socket probe in Proxy.Pool, what is answered to
-- the handlers in Proxy.Probe, `make_address` in Routing.Router, Policy.Request and
-- Network.ClientIp, RE2 and the arithmetic of `double` (record Doubles) in Policy.Request, and the
-- printing of times in Logging.Lines. The compilation of a request policy is a parameter of
-- Routing.Router and Config.Runtime, for which Policy.Request.Compile has the definition.
-- `std::sort` is insertion; a hash map is an association list, in whose order iteration goes.
--
-- Bounds and fuel. The loop of the pool's `acquire` takes fuel, and Proxy.Pool.Acquire gives the
-- fuel that is enough: more than the connections idle under the key and those that other threads
-- add between its turns. The `Allocation` given to the limiter's `release` says how the allocations
-- go that it comes to. `turns` in Network.Admission goes along the spurious failures.
-- Logging.Queue.Draining gives the steps that the log writer needs at most. Everything else is
-- structural recursion.
--
-- Not modelled: the opening and rotation of the log files, src/config/ConfigService.cpp and
-- src/core/ServerCore.cpp, whose rules are still to be translated; sessions, listeners, dispatch
-- and src/proxy/ProxyTransaction.hpp, which are asynchronous input and output around these parts;
-- src/database, whose content is SQL; src/admin's API and server, src/app and src/service, which
-- are glue. Exhaustion of memory is modelled where the source handles it: in the limiter's
-- `release`, whose World leaves out the control blocks that cannot be allocated, in
-- Network.Admission, in the rate limiter of Policy.Request, in the handlers of Proxy.Probe and in
-- the queue of Logging.Queue.
pub mod Base
pub mod Admin
pub mod Core
pub mod Network
pub mod Proxy
pub mod Routing
pub mod Policy
pub mod Logging
pub mod Config
pub mod Tls
