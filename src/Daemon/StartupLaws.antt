-- ===== src/Daemon/StartupLaws.antt =====
-- How the start-up of src/main.cpp ends.
use obserwrt.Prelude.{
  ◌⊎◌, ℕ, ◌≤◌, ◌≡◌, refl, Bool, true, false, not, Option, none, some, [], length, find,
  if◌then◌else◌, Bytes, Bool-cases, inl, inr, nat_eq,
}
use obserwrt.Config.{Config, is_empty}
use obserwrt.Cli.{Cli, Defaults}
use obserwrt.Udp.{ConnectError}
use obserwrt.Ipfix.{IpfixExporter}
use obserwrt.Ipfix
use obserwrt.Syslog.{SyslogExporter, fresh}
use obserwrt.Syslog
use obserwrt.Metrics.{Metrics, Files, set_map_limit, exposition, write}
use obserwrt.Metrics
use obserwrt.Metrics.Textfile.{Progress, write-Textfile}
use obserwrt.Bpf.Attach.{HasHooks}
use obserwrt.Bpf.Purge.{HasFlows}
use obserwrt.Bpf.Load.{Loading, LoadResult, DropsError, OpenError, loaded, refused, no_objects}
use obserwrt.Bpf.Load
use obserwrt.Bpf.Stats.{map_limit}
use obserwrt.Bpf.{Libbpf, Bpf}
use obserwrt.Bpf
use obserwrt.Daemon.{Daemon, refresh_names}
use obserwrt.Daemon.Dump.{Dumped, dump, open_socket}
use obserwrt.Daemon.Dump
use obserwrt.Daemon.Pass.{Setup, Sinks}
use obserwrt.Daemon.LoopLaws.{HoldsFlows, AllNumbered, IsSteady, on_links-IsSteady}
use obserwrt.Daemon.Startup.{
  Host, config_failed, ipfix_failed, bpf_failed, open_failed, dump_failed, timers_failed, Outcome,
  stopped, running, or_else, or_env, drops_path, no_metrics, settings, with_devices, with_socket,
  bpf_of, with_bpf, with_ipfix, with_config, start_up,
}

tried_if :
    (enabled : Bool) (tried : Option ConnectError × IpfixExporter) (ipfix : IpfixExporter)
    (e : ConnectError)
    → (if enabled then tried else (none, ipfix)).0 ≡ some e
    → (enabled ≡ true) × (tried.0 ≡ some e)
tried_if true tried ipfix e h = (refl, h)
tried_if false tried ipfix e h = cc

untried_if :
    (enabled : Bool) (tried : Option ConnectError × IpfixExporter) (ipfix : IpfixExporter)
    → (if enabled then tried else (none, ipfix)).0 ≡ none
    → (enabled ≡ false) ⊎ (tried.0 ≡ none)
untried_if true tried ipfix h = inr h
untried_if false tried ipfix h = inl refl

module _ {W : Type 0} (lib : Libbpf W) (h : HasHooks lib) (g : HasFlows lib) (host : Host W)
    (held : HoldsFlows lib host.walk_fuel host.pass_fuel) (defaults : Defaults) (cli : Cli) where
  -- what is given to the parts

  abbrev pub object : Bytes
  object = or_env cli.bpf_object_path host.bpf_obj defaults.bpf_object

  abbrev pub configured : Config × Bytes
  configured = host.load_config (or_else cli.config_path defaults.config_path)

  abbrev pub loading : LoadResult × Loading W
  loading =
      Load.load host.loader object (drops_path object) configured.0.max_flows
        configured.0.track_drops (record { objects = no_objects; world = host.world })

  abbrev pub first_metrics : Metrics
  first_metrics =
      set_map_limit (set_map_limit (Metrics.init no_metrics configured.0) 0)
        (map_limit host.stats (bpf_of lib host loading.1))

  -- The kernel holds no hook of the agent once the objects are loaded, it answers the dump, with link messages laid
  -- out as it does, and each write of the textfile makes progress.
  pub record IsAnswered (r : Dumped) : Type 0 where
    pub unhooked : (d j : ℕ) → h.hook loading.1.world d j ≡ false
    pub dumped :
        dump host.big host.modulus host.attrs host.messages host.request host.replies ≡ some r
    pub numbered : AllNumbered r.events
    pub progress : Progress host.file_calls.writes
    pub room : length (exposition first_metrics host.build) ≤ length host.file_calls.writes

  -- what connecting to the collector gives
  abbrev pub collector : Option ConnectError
  collector =
      (Ipfix.connect (Ipfix.init configured.0.ipfix.obs_domain) host.ipfix_found
        (not (is_empty configured.0.ipfix.source_address))).0

  -- each step has succeeded
  abbrev pub HasCollector : Type 0
  HasCollector = (configured.0.ipfix.enabled ≡ false) ⊎ (collector ≡ none)

  abbrev pub HasPrograms : Type 0
  HasPrograms = (warning : Option DropsError) × (loading.0 ≡ loaded warning)

  abbrev pub HasSocket : Type 0
  HasSocket = (open_socket none host.opening).0 ≡ none

  -- the cause of an exit, and what holds when the loop begins
  abbrev pub Explains : Dumped → Outcome W → Type 0
  Explains r (stopped config_failed) = is_empty configured.1 ≡ false
  Explains r (stopped ipfix_failed) =
      (configured.0.ipfix.enabled ≡ true) × (e : ConnectError) × (collector ≡ some e)
  Explains r (stopped bpf_failed) = (e : OpenError) × (loading.0 ≡ refused e)
  Explains r (stopped open_failed) =
      (e : Dump.OpenError) × ((open_socket none host.opening).0 ≡ some e)
  Explains r (stopped dump_failed) = r.ok ≡ false
  Explains r (stopped timers_failed) = host.timers ≡ false
  Explains r (running cfg setup s) =
      IsSteady lib h g (settings lib host cfg setup) held s.daemon
      × (cfg ≡ configured.0)
      × (is_empty configured.1 ≡ true)
      × HasCollector
      × HasPrograms
      × HasSocket
      × (r.ok ≡ true)
      × (host.timers ≡ true)

  module _ (r : Dumped) (a : IsAnswered r) where
    abbrev first : Daemon W
    first = record { bpf = bpf_of lib host loading.1; name_by_index = []; attached_names = [] }

    first-IsSteady :
        (c : Config) (setup : Setup) → IsSteady lib h g (settings lib host c setup) held first
    unfolding find Bpf.attached refresh_names
    first-IsSteady c setup = record {
      consistent = record {
        mirrored = record {
          in_mirrored = λ j. a.unhooked 0 j;
          eg_mirrored = λ j. a.unhooked 1 j;
          paired = λ j. refl;
        };
        named = λ j. refl;
      };
      loaded = refl;
      names = refl;
    }

    with_devices_ends :
        (setup : Setup) (k : Sinks) (ok : Bool) (d : Daemon W)
        → is_empty configured.1 ≡ true
        → HasCollector
        → HasPrograms
        → HasSocket
        → k.metrics ≡ first_metrics
        → r.ok ≡ ok
        → IsSteady lib h g (settings lib host configured.0 setup) held d
        → (o : Outcome W) × (with_devices lib host configured.0 setup k ok (some d) ≡ some o)
          × Explains r o
    with_devices_ends setup k false d e hc hp hs m same s = (stopped dump_failed, refl, same)
    with_devices_ends setup k true d e hc hp hs m same s = elim (Bool-cases host.timers) [
      | inr off ↦ (stopped timers_failed, rw off refl, off)
      | inl on ↦
          let (fs, w, _, _) =
            write-Textfile first_metrics host.build host.file_calls host.files a.progress a.room in
          (
            running configured.0 setup (record {
              daemon = d;
              map = record { bpf = d.bpf; keys = []; values = []; pos = 0 };
              last = [];
              sinks = k;
              files = fs;
            }),
            rw (on, m, w) refl,
            (s, refl, e, hc, hp, hs, same, on),
          )
    ]

    with_socket_ends :
        (setup : Setup) (k : Sinks) (e : Option Dump.OpenError)
        → is_empty configured.1 ≡ true
        → HasCollector
        → HasPrograms
        → k.metrics ≡ first_metrics
        → (open_socket none host.opening).0 ≡ e
        → (o : Outcome W) × (with_socket lib host configured.0 setup k first e ≡ some o)
          × Explains r o
    with_socket_ends setup k (some e) fine hc hp m same = (stopped open_failed, refl, (e, same))
    with_socket_ends setup k none fine hc hp m same =
        let (d, f, s) =
          on_links-IsSteady lib h g (settings lib host configured.0 setup) held r.events first
            a.numbered (first-IsSteady configured.0 setup) in
        let (o, ends, why) = with_devices_ends setup k r.ok d fine hc hp same m refl s in
        (o, rw (a.dumped, f) ends, why)

    with_bpf_ends :
        (active : Bool) (k : Sinks) (l : LoadResult)
        → is_empty configured.1 ≡ true
        → HasCollector
        → k.metrics ≡ set_map_limit (Metrics.init no_metrics configured.0) 0
        → loading.0 ≡ l
        → (o : Outcome W) × (with_bpf lib host configured.0 active k (l, loading.1) ≡ some o)
          × Explains r o
    unfolding with_bpf
    with_bpf_ends active k (refused e) fine hc m same = (stopped bpf_failed, refl, (e, same))
    with_bpf_ends active k (loaded warn) fine hc m same =
        with_socket_ends _ _ (open_socket none host.opening).0 fine hc (warn, same) (rw m refl) refl

    with_ipfix_ends :
        (active : Bool) (y : SyslogExporter) (e : Option ConnectError) (ipfix : IpfixExporter)
        → is_empty configured.1 ≡ true
        → ((c : ConnectError)
            → e ≡ some c
            → (configured.0.ipfix.enabled ≡ true) × (collector ≡ some c))
        → (e ≡ none → HasCollector)
        → (o : Outcome W) × (with_ipfix lib host configured.0 object active
              (set_map_limit (Metrics.init no_metrics configured.0) 0)
              y
              (e, ipfix)
            ≡ some o)
          × Explains r o
    unfolding with_ipfix
    with_ipfix_ends active y (some e) ipfix fine on off =
        let (enabled, why) = on e refl in (stopped ipfix_failed, refl, (enabled, e, why))
    with_ipfix_ends active y none ipfix fine on off =
        with_bpf_ends active _ loading.0 fine (off refl) refl refl

    -- If the system answers as `IsAnswered` says, the start-up ends. It exits only for its cause: the configuration gives an error, IPFIX is
    -- on and its collector cannot be connected to, the BPF object is refused, the netlink socket cannot be opened, the dump or the timers
    -- fail. It begins the loop only where none of these fails, with the configuration loaded, and in a state in
    -- which the kernel holds exactly the hooks recorded and exactly the attached devices have a name.
    pub start_up_ends : (o : Outcome W) × (start_up lib host defaults cli ≡ some o) × Explains r o
    unfolding start_up with_config
    start_up_ends = elim (Bool-cases (is_empty configured.1)) [
      | inr bad ↦ (stopped config_failed, rw bad refl, bad)
      | inl fine ↦
          let cfg = configured.0 in
          let ipfix = Ipfix.init cfg.ipfix.obs_domain in
          let y = Syslog.init host.os fresh cfg.syslog host.syslog_found in
          let tried =
            Ipfix.connect ipfix host.ipfix_found (not (is_empty cfg.ipfix.source_address)) in
          let c = if cfg.ipfix.enabled then tried else (none, ipfix) in
          let (o, ends, why) =
            with_ipfix_ends y.0 y.2 c.0 c.1 fine (λ e. tried_if cfg.ipfix.enabled tried ipfix e)
              (untried_if cfg.ipfix.enabled tried ipfix) in
          (o, rw fine ends, why)
    ]
