-- ===== src/Daemon/Loop.antt =====
-- The event loop of src/main.cpp: the netlink branch with its resynchronisation, the lifecycle timer's branch and
-- the metrics timer's. What the system calls return is part of an event; epoll_wait's EINTR changes nothing and
-- is no event.
use obserwrt.Prelude.{
  ℕ, Bool, true, false, Option, none, some, List, [], ◌∷◌, Bytes, length, find, to_string, nat_eq,
}
use obserwrt.Lifecycle.{Timeouts, Tracker, Pass}
use obserwrt.Bpf.Snapshot.{BpfFlowMap, bpf_flow_map}
use obserwrt.Bpf.{Libbpf}
use obserwrt.Syslog.{set_ifnames}
use obserwrt.Metrics.{BuildInfo, Files, FileCalls, write}
use obserwrt.Daemon.{LinkEvent, Daemon, on_link}
use obserwrt.Daemon.Netlink.{dispatch}
use obserwrt.Daemon.Dump.{Received, Request, dump}
use obserwrt.Daemon.Pass.{Setup, Inputs, Sinks, lifecycle_pass}

-- what does not change while the loop runs: the configuration, the build, the byte order, the modulus of size_t, and
-- the fuels, of the walks over a map, of a pass, and over messages and attributes
pub record Settings : Type 0 where
  pub fnmatch : Bytes → Bytes → Bool
  pub devices : List Bytes
  pub timeouts : Timeouts
  pub setup : Setup
  pub build : BuildInfo
  pub big : Bool
  pub modulus : ℕ
  pub walk_fuel : ℕ
  pub pass_fuel : ℕ
  pub messages : ℕ
  pub attrs : ℕ

-- what recv returned in the loop: nothing more, a buffer, EINTR, EAGAIN or EWOULDBLOCK, or another errno
pub data Recv : Type 0 where
  closed interrupted drained : Recv
  data_in : Bytes → Recv
  lost : ℕ → Recv

pub data LoopEvent : Type 0 where
  -- the netlink socket is readable: what recv returns, and the request and replies of a dump, if one is made
  netlink : List Recv → Request → List Received → LoopEvent
  -- the lifecycle timer: the time of the pass, and what it reads
  life : ℕ → Inputs → LoopEvent
  -- the metrics timer: what the file calls answer
  meter : FileCalls → LoopEvent

-- the variables of `main`; the flow map's adapter points to the same `Bpf` as the daemon
pub record Agent (W : Type 0) : Type 0 where
  pub daemon : Daemon W
  pub map : BpfFlowMap W
  pub last : Tracker
  pub sinks : Sinks
  pub files : Files

-- the lambda given to `set_ifnames`
unfoldable pub ifname_in : List (ℕ × Bytes) → ℕ → Bytes
ifname_in names i = elim (find i names) [ none ↦ to_string i | some n ↦ n ]

module _ {W : Type 0} (lib : Libbpf W) (c : Settings) where
  -- the callbacks of a buffer, one after the other
  unfoldable pub on_links : List LinkEvent → Daemon W → Option (Daemon W)
  on_links [] d = some d
  on_links (ev ∷ evs) d = elim (on_link lib c.fnmatch c.walk_fuel c.devices ev d) [
    | none ↦ none
    | some d' ↦ on_links evs d'
  ]

  -- `rec.dispatch(buf, r, on_link)`
  unfoldable pub dispatched : Bytes → Daemon W → Option (Daemon W)
  dispatched buf d = elim (dispatch c.big c.modulus c.attrs c.messages buf (length buf)) [
    | none ↦ none
    | some evs ↦ on_links evs d
  ]

  -- the loop over recv, with whether the daemon has to resynchronise; `none` stands for one that still waits, too
  unfoldable pub receive : List Recv → Daemon W → Option (Bool × Daemon W)
  receive [] d = none
  receive (closed ∷ rs) d = some (false, d)
  receive (drained ∷ rs) d = some (false, d)
  receive (interrupted ∷ rs) d = receive rs d
  receive (lost e ∷ rs) d = some (true, d)
  receive (data_in buf ∷ rs) d = elim (dispatched buf d) [ none ↦ none | some d' ↦ receive rs d' ]

  -- `rec.dump(on_link, &derr)`, whose result is not looked at
  unfoldable pub resync : Request → List Received → Daemon W → Option (Daemon W)
  resync q rs d = elim (dump c.big c.modulus c.attrs c.messages q rs) [
    | none ↦ none
    | some r ↦ on_links r.events d
  ]

  -- the branch of the netlink socket
  unfoldable pub on_netlink : List Recv → Request → List Received → Daemon W → Option (Daemon W)
  on_netlink rs q replies d = elim (receive rs d) [
    | none ↦ none
    | some (false, d') ↦ some d'
    | some (true, d') ↦ resync q replies d'
  ]

  -- the exporters, with the names that the syslog exporter looks up now
  abbrev pub named_sinks : Agent W → Sinks
  named_sinks s = record s.sinks {
    syslog = set_ifnames s.sinks.syslog (some (ifname_in s.daemon.name_by_index));
  }

  abbrev pub agent_view : Agent W → BpfFlowMap W
  agent_view s = record s.map { bpf = s.daemon.bpf }

  abbrev pub after_life : Agent W → Option (Pass (BpfFlowMap W) × Sinks) → Option (Agent W)
  after_life s none = none
  after_life s (some (p, k)) = some (record s {
    daemon = record s.daemon { bpf = p.map.bpf };
    map = p.map;
    last = p.last;
    sinks = k;
  })

  -- one event
  unfoldable pub loop_step : LoopEvent → Agent W → Option (Agent W)
  unfolding ifname_in
  loop_step (netlink rs q replies) s = elim (on_netlink rs q replies s.daemon) [
    | none ↦ none
    | some d ↦ some (record s { daemon = d })
  ]
  loop_step (life now i) s = after_life s (
      lifecycle_pass c.setup (bpf_flow_map lib c.walk_fuel) c.timeouts now s.daemon.name_by_index
        s.daemon.attached_names i c.pass_fuel (agent_view s) s.last (named_sinks s))
  loop_step (meter calls) s = elim (write s.sinks.metrics c.build calls s.files) [
    | none ↦ none
    | some fs ↦ some (record s { files = fs })
  ]

  -- any events, in order
  unfoldable pub loop : List LoopEvent → Agent W → Option (Agent W)
  loop [] s = some s
  loop (e ∷ es) s = elim (loop_step e s) [ none ↦ none | some s' ↦ loop es s' ]
