-- ===== src/Lib.antt =====
-- obserwrt: an agent that observes network flows with eBPF programs attached to network devices, and
-- exports them over IPFIX and syslog.
--
-- The kernel side keeps counters for each flow in a map. The daemon (src/main.cpp) attaches the
-- programs to devices as rtnetlink reports them (src/reconcile.cpp, src/bpf.cpp), walks the map on
-- a timer (src/lifecycle.cpp), and hands what has grown to the exporters (src/exporter_ipfix.cpp).
--
-- What models which part:
--   Flow         src/flow.hpp and bpf/obserwrt-flow.h: keys, values, the packed image of a key and its hash
--                (src/hash.cpp).
--   Lifecycle    src/lifecycle.hpp and src/lifecycle.cpp: Lifecycle::run as `run`, its loop as `walk`, the
--                loop's body as `visit`, the last loop as `prune`. FlowMap's virtual functions are a record
--                of operations on a state of any type; the calls of the exporter are the list `out`.
--   Bpf          src/bpf.hpp and src/bpf.cpp: class Bpf is the record of that name, with libbpf as a
--                record of calls that change a world; Bpf/BatchWalk has batch_walk and batch_read,
--                Bpf/Snapshot the class BpfFlowMap, which fills the interface of Lifecycle, and
--                Bpf/Passes what passes over it export and track. Bpf/Load has load, load_drops and the
--                destructor, Bpf/Stats the readers of the per-CPU statistics.
--   Udp          src/udp_client.hpp and src/udp_client.cpp.
--   Ipfix        src/exporter_ipfix.hpp and src/exporter_ipfix.cpp: messages down to the bytes. Ipfix/Record
--                reads records back by the templates, Ipfix/Chunks splits them into datagrams.
--   Syslog       src/exporter_syslog.hpp and src/exporter_syslog.cpp.
--   Text         the formatting of src/prometheus.cpp; Text/Log has class Log and SLOG of src/logfmt.hpp, and
--                Text/LogTrip a reader of its lines.
--   DropReasons  src/drop_reasons.hpp and src/drop_reasons.cpp.
--   Config       src/config.hpp and src/config_mini.cpp: every option and its checks; Config/Uci has the
--                backend of src/config_uci.cpp.
--   Daemon       src/main.cpp: on_link, with the variables that it shares as a record; Daemon/Pass has the
--                branch of the lifecycle timer, which joins Lifecycle, the exporters and Metrics.
--                Daemon/Netlink has the link messages that src/reconcile.cpp reads, Daemon/Dump its dump and
--                its socket. Daemon/Loop is the event loop as a list of events, and Daemon/Startup
--                what comes before it, in the order of its calls.
--   Cli          src/cli.hpp and src/cli.cpp, on the options that getopt_long returns.
--   Timeline     the TC programs and the passes of the agent over one flow map, as a list of packets and
--                passes in any order.
--   Metrics      src/metrics.hpp and src/metrics.cpp: the setters, the exposition, and the textfile, which
--                Metrics/Textfile replaces as a whole.
--   Ebpf         bpf/obserwrt-bpf.c and bpf/obserwrt-drops.c: Ebpf/Parse has the packet parser, Ebpf/Observe the
--                counting, Ebpf/Drops the drop tracer. A pointer into a packet is an offset into a list of
--                bytes, and a read outside of it is the outcome `fault`.
--   Prelude      shared lists, maps, bytes, decimal numbers and tests.
--   Tests        the theorems at concrete inputs.
--
-- Numbers are natural numbers; where the code's width matters, the remainder by 2 ^ w is written out.
-- Hash maps and trees are association lists, which agree with them on lookups.
--
-- Fuel: batch_walk's endless loop and the loop of Lifecycle::run take fuel, and `none` means that it ran
-- out. A walk needs one call for each bucket and one for each doubling of its buffer at most: fuel
-- above the number of buckets and the largest bucket is enough, as a BPF hash map returns whole
-- buckets in order. A pass needs one round for each entry and one for the end. The loops over link
-- messages, over their attributes and over the device counters need one round for each and one for the end.
-- The loops over recv and write run over the list of the answers, and `none` means that it ended first.
--
-- Parameters, since their code is elsewhere: libbpf and the kernel's maps (`Libbpf`, with what it
-- documents in `IsBatchLookup`, `IsBatchDrain`, `HasHooks`, `HasFlows` and `HasHandles`), the maps that the
-- eBPF programs write (`HashMap` and `IsHashMap`), the file calls (`FileCalls`), libuci (`Loaded`), sockets and getaddrinfo (`Candidate`
-- and `delivered`), fnmatch, the ini parser (`Ini`), the kernel's BTF (`Btf`), getopt_long (`Opt`), the calls on the
-- netlink socket (`Received`, `Request`, `Opening`, `Recv`), what the system answers at start-up (`Host`), the calls on
-- the statistics (`StatsCalls`), and what
-- the syslog exporter asks of the JSON library and the system (`Platform`).
--
-- Not modelled: XXH3, which is a parameter of the hash of a key (a map is modelled by the equality of its keys);
-- which log lines the daemon writes when, since nothing reads them;
-- and the kernel's own removal of TC hooks when a device vanishes: the hooks change by the agent's calls only. In Timeline a pass is one event: no packet comes between its
-- snapshot and its deletions. The programs run on one processor there: a per-CPU slot is the sum that the
-- agent reads, which Bpf/Slots justifies. The clock is an argument.
mod Prelude
pub mod Flow
pub mod Lifecycle
pub mod Bpf
pub mod Udp
pub mod Ipfix
pub mod DropReasons
pub mod Config
pub mod Daemon
pub mod Timeline
pub mod Cli
pub mod Syslog
pub mod Text
pub mod Metrics
pub mod Ebpf
mod Tests
