-- ===== src/Daemon/Startup.antt =====
-- The start-up of main (src/main.cpp), from the parsed command line to the event loop. What the system answers is the
-- record `Host`; the log lines are left out.
use obserwrt.Prelude.{
  ℕ, ◌+◌, ◌-◌, ◌*◌, ◌%◌, ◌^◌, Bool, true, false, not, Option, none, some, List, [], ◌∷◌, ◌++◌,
  if◌then◌else◌, Bytes, codes, contains, nat_eq,
}
use obserwrt.Config.{Config, is_empty}
use obserwrt.Cli.{Cli, Defaults}
use obserwrt.Udp.{Candidate, ConnectError}
use obserwrt.Ipfix.{IpfixExporter, set_epoch, send_templates}
use obserwrt.Ipfix
use obserwrt.Syslog.{Platform, SyslogExporter, InitError, fresh}
use obserwrt.Syslog
use obserwrt.Metrics.{Metrics, BuildInfo, Files, FileCalls, set_map_limit, write}
use obserwrt.Metrics
use obserwrt.DropReasons.{Btf, Table}
use obserwrt.DropReasons
use obserwrt.Bpf.Load.{Loader, Loading, LoadResult, loaded, refused, no_objects}
use obserwrt.Bpf.Load
use obserwrt.Bpf.Stats.{StatsCalls, map_limit}
use obserwrt.Bpf.{Libbpf, Bpf}
use obserwrt.Daemon.{Daemon}
use obserwrt.Daemon.Dump.{Received, Request, Opening, OpenError, Dumped, dump, open_socket}
use obserwrt.Daemon.Pass.{Setup, Sinks}
use obserwrt.Daemon.Loop.{Settings, Agent, on_links}

-- what the system answers, and the fuels
pub record Host (W : Type 0) : Type 0 where
  -- getenv("BPF_OBJ")
  pub bpf_obj : Option Bytes
  -- the configuration backend of the build: the configuration, and `err`
  pub load_config : Bytes → Config × Bytes
  -- getaddrinfo for either collector
  pub syslog_found : Option (List Candidate)
  pub ipfix_found : Option (List Candidate)
  pub os : Platform
  pub ipfix_delivered : List Bytes → Bytes → Bool
  pub syslog_delivered : List Bytes → Bytes → Bool
  pub clock : ℕ → ℕ
  pub start_s : ℕ
  pub mono_ms : ℕ
  pub loader : Loader W
  pub stats : StatsCalls W
  pub world : W
  pub btf : Btf
  pub opening : Opening
  pub request : Request
  pub replies : List Received
  -- epoll_create1 and both timers
  pub timers : Bool
  pub file_calls : FileCalls
  pub files : Files
  pub build : BuildInfo
  pub fnmatch : Bytes → Bytes → Bool
  pub big : Bool
  pub modulus : ℕ
  pub walk_fuel : ℕ
  pub pass_fuel : ℕ
  pub messages : ℕ
  pub attrs : ℕ

-- each is an exit with 1
pub data Failure : Type 0 where
  config_failed ipfix_failed bpf_failed open_failed dump_failed timers_failed : Failure

pub data Outcome (W : Type 0) : Type 0 where
  stopped : Failure → Outcome W
  running : Config → Setup → Agent W → Outcome W

-- `config_path`
abbrev pub or_else : Bytes → Bytes → Bytes
or_else path default = if is_empty path then default else path

-- `bpf_object`
abbrev pub or_env : Bytes → Option Bytes → Bytes → Bytes
or_env path none default = or_else path default
or_env path (some env) default = or_else path env

-- up to the last slash, `rfind('/')`
unfoldable pub directory : Bytes → Bytes
directory [] = []
directory (c ∷ cs) = let rest = directory cs in if contains 47 (c ∷ cs) then c ∷ rest else []

-- `bpf_drops`
unfoldable pub drops_path : Bytes → Bytes
unfolding directory
drops_path path = directory path ++ codes "obserwrt-drops.o"

-- `obserwrt::Metrics metrics`
abbrev pub no_metrics : Metrics
no_metrics = record {
  is_active = false;
  file = [];
  interval_s = 0;
  total_flows = 0;
  total_errors = 0;
  flows_active = 0;
  map_entries = 0;
  bpf_packets = 0;
  bpf_bytes = 0;
  bpf_accounted = 0;
  bpf_flows_created = 0;
  bpf_drops = 0;
  bpf_drops_unparsed = 0;
  map_limit = 0;
  devices = [];
  dev_counters = [];
}

module _ {W : Type 0} (lib : Libbpf W) (host : Host W) where
  -- what the loop is given
  abbrev pub settings : Config → Setup → Settings
  settings cfg setup = record {
    fnmatch = host.fnmatch;
    devices = cfg.devices;
    timeouts = cfg.timeouts;
    setup = setup;
    build = host.build;
    big = host.big;
    modulus = host.modulus;
    walk_fuel = host.walk_fuel;
    pass_fuel = host.pass_fuel;
    messages = host.messages;
    attrs = host.attrs;
  }

  abbrev pub setup_of : Config → Bool → Table → Setup
  setup_of cfg syslog_active reasons = record {
    ipfix_enabled = cfg.ipfix.enabled;
    syslog_active = syslog_active;
    reasons = reasons;
    os = host.os;
    ipfix_delivered = host.ipfix_delivered;
    syslog_delivered = host.syslog_delivered;
    clock = host.clock;
  }

  -- from the files of the first `metrics.write` on
  abbrev pub launched : Config → Setup → Daemon W → Sinks → Option Files → Option (Outcome W)
  launched cfg setup d k none = none
  launched cfg setup d k (some fs) = some (
      running cfg setup (record {
        daemon = d;
        map = record { bpf = d.bpf; keys = []; values = []; pos = 0 };
        last = [];
        sinks = k;
        files = fs;
      }))

  -- from the devices of the dump on; the flag is its result
  abbrev pub with_devices : Config → Setup → Sinks → Bool → Option (Daemon W) → Option (Outcome W)
  with_devices cfg setup k ok none = none
  with_devices cfg setup k false (some d) = some (stopped dump_failed)
  with_devices cfg setup k true (some d) =
      if host.timers
      then launched cfg setup d k (write k.metrics host.build host.file_calls host.files)
      else some (stopped timers_failed)

  -- from the dump on
  abbrev pub with_dump : Config → Setup → Sinks → Daemon W → Option Dumped → Option (Outcome W)
  with_dump cfg setup k d none = none
  with_dump cfg setup k d (some r) =
      with_devices cfg setup k r.ok (on_links lib (settings cfg setup) r.events d)

  -- from `rec.open` on
  abbrev pub with_socket : Config → Setup → Sinks → Daemon W → Option OpenError → Option (Outcome W)
  with_socket cfg setup k d (some e) = some (stopped open_failed)
  with_socket cfg setup k d none =
      with_dump cfg setup k d
        (dump host.big host.modulus host.attrs host.messages host.request host.replies)

  abbrev pub bpf_of : Loading W → Bpf W
  bpf_of st = record {
    loaded = true;
    tracer = st.objects.drops_active;
    atts = [];
    world = st.world;
  }

  -- from the result of `bpf.load` on
  unfoldable pub with_bpf : Config → Bool → Sinks → LoadResult × Loading W → Option (Outcome W)
  with_bpf cfg syslog_active k (refused e, st) = some (stopped bpf_failed)
  with_bpf cfg syslog_active k (loaded warn, st) =
      let b = bpf_of st in
      let reasons = if b.tracer then (DropReasons.load host.btf []).1 else [] in
      with_socket cfg (setup_of cfg syslog_active reasons)
        (record k { metrics = set_map_limit k.metrics (map_limit host.stats b) })
        (record { bpf = b; name_by_index = []; attached_names = [] })
        (open_socket none host.opening).0

  -- from the result of `ipfix.connect` on
  unfoldable pub with_ipfix :
      Config
      → Bytes
      → Bool
      → Metrics
      → SyslogExporter
      → Option ConnectError × IpfixExporter
      → Option (Outcome W)
  unfolding with_bpf
  with_ipfix cfg object syslog_active metrics syslog (some e, ipfix) = some (stopped ipfix_failed)
  with_ipfix cfg object syslog_active metrics syslog (none, ipfix) =
      let offset = (host.start_s * 1000 + 2 ^ 64 - host.mono_ms) % 2 ^ 64 in
      let e = set_epoch ipfix host.start_s offset in
      with_bpf cfg syslog_active
        (record {
          metrics = metrics;
          ipfix =
              if cfg.ipfix.enabled then send_templates host.ipfix_delivered e host.start_s else e;
          syslog = syslog;
        })
        (Load.load host.loader object (drops_path object) cfg.max_flows cfg.track_drops
          (record { objects = no_objects; world = host.world }))

  -- from the configuration on
  unfoldable pub with_config : Bytes → Config × Bytes → Option (Outcome W)
  unfolding with_ipfix
  with_config object (cfg, err) =
      let metrics = set_map_limit (Metrics.init no_metrics cfg) 0 in
      let (syslog_active, failure, syslog) =
        Syslog.init host.os fresh cfg.syslog host.syslog_found in
      let ipfix = Ipfix.init cfg.ipfix.obs_domain in
      if not (is_empty err)
      then some (stopped config_failed)
      else with_ipfix cfg object syslog_active metrics syslog (
          if cfg.ipfix.enabled
          then Ipfix.connect ipfix host.ipfix_found (not (is_empty cfg.ipfix.source_address))
          else (none, ipfix))

  -- `main` with the parsed options; `none` is fuel that ran out, or a dump that is still awaited
  unfoldable pub start_up : Defaults → Cli → Option (Outcome W)
  unfolding with_config
  start_up defaults cli =
      with_config (or_env cli.bpf_object_path host.bpf_obj defaults.bpf_object)
        (host.load_config (or_else cli.config_path defaults.config_path))
