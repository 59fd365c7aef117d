-- ===== src/Lib.antt =====
-- kube-forwarding-proxy: a proxy that gives each Kubernetes service a virtual IP address on a local
-- interface, answers DNS queries for cluster names with it, listens on it, and forwards connections
-- to the service's pods over the API server.
--
-- The parts and their files (paths from the repository's root):
-- * Vip models internal/vip. Vip.Address has net.IP with ipToUint32 and uint32ToIP; Vip.Interface
--   the InterfaceAddressManager, ErrAddressInUse and its two implementations; Vip.Allocator the
--   Allocator of allocator.go, one function for each method (NewAllocator is `new_allocator`,
--   ReleaseVIP `release_vip`); Vip.Resolve the ResolveIface of resolve.go.
-- * Proxy.Cluster models internal/proxy/cluster.go: IsClusterHost and ParseClusterHost.
-- * K8s.Config has client-go's api.Config as the program reads it, and mergeConfigs.
-- * K8s.ClientManager models internal/k8s/client_manager.go; K8s.Kubeconfig the HTTP handler of
--   kubeconfig.go, which calls it and names the contexts whose tunnels are shut down.
-- * K8s.Resolver models internal/k8s/resolver.go: the cached resolution of services to endpoints.
-- * K8s.ForwardManager models the listeners and the idle expiry of internal/k8s/forward_manager.go,
--   which calls ReleaseVIP when a VIP has been idle; K8s.ForwardManager.Shutdown its ShutdownContext
--   and Shutdown, and K8s.ForwardManager.Timers the sequences of all these steps with their timers.
-- * K8s.SpdyPool models the pool of SPDY connections of the same file (acquirePoolEntry, buildOnClose,
--   createStreams), K8s.SpdyPool.Sharing the goroutines that share them; K8s.PortForward
--   DialPortForward and the Close of stream_conn.go, and K8s.PortForward.Conn handleConn around them.
-- * Dns.Server models the names and the informative lookups of internal/dns/server.go (lookupTXT,
--   lookupSRV, contextFQDN); Dns.Resolution its A queries (resolveA, resolveForContext), which use the
--   resolver, the allocator and the forward manager; Dns.Messages its replies (handleCluster,
--   handleDefault, forwardToUpstream); Dns.Lifecycle its Start, Addr and Shutdown.
-- * Proxy.Socks5 models internal/proxy/socks5.go: dial, dialCluster, the resolver of names, and the
--   listener.
-- * Health models internal/health/server.go. App.Config models app/config.go, with the variables in
--   App.Variables, and the choices of cmd/proxy/main.go; App.Server models the Start and Stop of
--   app/server.go over the components.
-- * Base has the shared helpers: texts as lists of bytes, Go's maps as association lists, Boolean
--   tests and results. Examples runs the parts at concrete inputs.
--
-- State is passed explicitly: an operation takes the component's record and returns the new one.
-- Every method takes its component's lock, so a call is one step; where a function releases the lock
-- in between (StartForward, handleConn, buildOnClose) each locked section is a definition. A vipState
-- and a pool's entry are shared by pointers, so they live in a store. Numbers are natural numbers,
-- with the wrap-around of uint32, uint64 and of the atomic counters written out; an int32 is kept as
-- its 32 bits.
--
-- The loop of Allocate runs on fuel, one round for each address that is left and one that finds
-- none, since each round moves the next candidate forward within the range. Every other loop is
-- structural. The sequences of steps are bounded where a counter would wrap: fewer than 2³¹ active
-- connections of a VIP, and fewer than 2³² streams of a connection, at a time.
--
-- Parameters, with no definition here: package net's parsing and printing of addresses (with the law
-- that ParseIP reads what String writes), its listeners, dials and lookups, netlink, ifconfig,
-- client-go (loading, printing, client construction), the Kubernetes API, the SPDY and DNS libraries,
-- the environment, the clock, and the random index of PickEndpoint.
--
-- Left out of the steps: what another request does between the locked sections of the kubeconfig
-- handler, and a DNS server that is shut down before it serves.
--
-- Not modelled: the accept loops and the copying of bytes (listenLoop, the goroutines of handleConn,
-- and the Read, Write and CloseWrite of stream_conn.go, which only pass bytes on), the SOCKS5 and DNS
-- protocols (libraries), the registration of HTTP handlers, signals and exit codes of main, and
-- logging.
pub mod Base
pub mod App
pub mod Dns
pub mod Examples
pub mod Health
pub mod K8s
pub mod Proxy
pub mod Vip
