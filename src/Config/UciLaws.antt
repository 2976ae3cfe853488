-- ===== src/Config/UciLaws.antt =====
-- The UCI backend keeps the bounds of a configuration, and agrees with the plain backend.
use obserwrt.Prelude.{
  ℕ, ◌^◌, ◌≤◌, ◌<◌, ◌≡◌, refl, sym, subst, ◌⊎◌, inl, inr, false, ◌&&◌, Option, none, some, List, [],
  ◌∷◌, arith, if_cases, Bytes, bytes_eq, codes,
}
use native.Mathlib.Nat.{mod-le}
use obserwrt.Config.{Config, Error, Result, ok, err, is_empty, default_config}
use obserwrt.Config.Laws.{IsTimeouts, IsConfig, default-IsConfig}
use obserwrt.Config.Uci.{
  Section, Loaded, sections, failed, Filling, LoadCode, uint_option, settled, assigned, fill_main,
  fill_ipfix, fill_syslog, fill_section, fill_sections, check_collector, fill, load_config,
  uci_err_label,
}

-- `IsConfig` but for the check of the collector
pub record HasBounds (c : Config) : Type 0 where
  pub timeouts_fit : IsTimeouts c.timeouts
  pub max_flows_fits : c.max_flows ≤ 2 ^ 30
  pub interval_fits : c.prometheus_interval ≤ 86400
  pub collector_port_fits : c.ipfix.collector_port ≤ 65535
  pub obs_domain_fits : c.ipfix.obs_domain < 2 ^ 32
  pub syslog_port_fits : c.syslog.syslog_port ≤ 65535

Result-cases : {A : Type 0} (r : Result A) → ((a : A) × (r ≡ ok a)) ⊎ ((x : Error) × (r ≡ err x))
Result-cases (ok a) = inl (a, refl)
Result-cases (err x) = inr (x, refl)

settled_bound :
    (v : Option Bytes) (def hi : ℕ) (label : Bytes)
    → def ≤ hi
    → settled (uint_option v def hi label) def ≤ hi
unfolding uint_option
settled_bound v def hi label h = ground arith

assigned_bound :
    (v : Option Bytes) (def hi : ℕ) (label : Bytes) (m old : ℕ)
    → def ≤ hi
    → old ≤ hi
    → assigned (uint_option v def hi label) m old ≤ hi
unfolding uint_option
assigned_bound v def hi label m old h h' = elim (Result-cases (uint_option v def hi label)) [
  | inl (n, e) ↦ ground (arith, e, mod-le n m, settled_bound v def hi label h)
  | inr (x, e) ↦ ground (arith, e, h')
]

default-HasBounds : HasBounds default_config
default-HasBounds = record {
  timeouts_fit = default-IsConfig.timeouts_bounded;
  max_flows_fits = default-IsConfig.max_flows_le;
  interval_fits = default-IsConfig.interval_le;
  collector_port_fits = default-IsConfig.collector_port_le;
  obs_domain_fits = default-IsConfig.obs_domain_lt;
  syslog_port_fits = default-IsConfig.syslog_port_le;
}

check_collector-config : (f : Filling) → (check_collector f).0 ≡ f.0
unfolding check_collector
check_collector-config f = ground arith

pub check_collector-none :
    (f : Filling)
    → (check_collector f).1 ≡ none
    → (f.1 ≡ none) × (f.0.ipfix.enabled && is_empty f.0.ipfix.collector_host ≡ false)
unfolding check_collector
check_collector-none f e = ground (arith, e)

check_collector-HasBounds : (f : Filling) → HasBounds f.0 → HasBounds (check_collector f).0
check_collector-HasBounds f h = subst HasBounds (sym (check_collector-config f)) h

check_collector-IsConfig :
    (f : Filling) → HasBounds f.0 → (check_collector f).1 ≡ none → IsConfig (check_collector f).0
check_collector-IsConfig f h e = subst IsConfig (sym (check_collector-config f)) (record {
  timeouts_bounded = h.timeouts_fit;
  max_flows_le = h.max_flows_fits;
  interval_le = h.interval_fits;
  collector_port_le = h.collector_port_fits;
  obs_domain_lt = h.obs_domain_fits;
  syslog_port_le = h.syslog_port_fits;
  has_collector = λ on. ground (arith, on, check_collector-none f e);
})

failed_load :
    (look : Section → Bytes → Option Bytes) (code : LoadCode)
    → HasBounds (fill look (failed code) (default_config, none)).0
      × ((fill look (failed code) (default_config, none)).1 ≡ none
          → IsConfig (fill look (failed code) (default_config, none)).0)
unfolding fill uci_err_label
failed_load look LoadCode.not_found = (default-HasBounds, λ e. default-IsConfig)
failed_load look LoadCode.memory = (default-HasBounds, λ e. default-IsConfig)
failed_load look LoadCode.invalid = (default-HasBounds, λ e. default-IsConfig)
failed_load look LoadCode.io = (default-HasBounds, λ e. default-IsConfig)
failed_load look LoadCode.parse_failed = (default-HasBounds, λ e. default-IsConfig)
failed_load look LoadCode.duplicate = (default-HasBounds, λ e. default-IsConfig)
failed_load look LoadCode.other = (default-HasBounds, λ e. default-IsConfig)

module _ (look : Section → Bytes → Option Bytes) where
  fill_main-HasBounds :
      (s : Section) (f : Filling) → HasBounds f.0 → HasBounds (fill_main look s f).0
  unfolding fill_main
  fill_main-HasBounds s f h = record {
    timeouts_fit = record {
      tcp_le =
          settled_bound (look s (codes "tcp_timeout")) 300 86400 (codes "tcp_timeout")
            (omega arith);
      udp_le =
          settled_bound (look s (codes "udp_timeout")) 60 86400 (codes "udp_timeout") (omega arith);
      icmp_le =
          settled_bound (look s (codes "icmp_timeout")) 30 86400 (codes "icmp_timeout")
            (omega arith);
      general_le =
          settled_bound (look s (codes "general_timeout")) 10 86400 (codes "general_timeout")
            (omega arith);
    };
    max_flows_fits =
        assigned_bound (look s (codes "max_flows")) 0 (2 ^ 30) (codes "max_flows") (2 ^ 32)
          f.0.max_flows (omega arith) h.max_flows_fits;
    interval_fits =
        assigned_bound (look s (codes "prometheus_interval")) 20 86400 (codes "prometheus_interval")
          (2 ^ 32) f.0.prometheus_interval (omega arith) h.interval_fits;
    collector_port_fits = h.collector_port_fits;
    obs_domain_fits = h.obs_domain_fits;
    syslog_port_fits = h.syslog_port_fits;
  }

  fill_ipfix-HasBounds :
      (s : Section) (f : Filling) → HasBounds f.0 → HasBounds (fill_ipfix look s f).0
  unfolding fill_ipfix
  fill_ipfix-HasBounds s f h =
      let domain =
        assigned_bound (look s (codes "observation_domain")) 1 4294967295
          (codes "observation_domain") (2 ^ 32) f.0.ipfix.obs_domain (omega arith)
          (omega (arith, h.obs_domain_fits)) in
      record {
        timeouts_fit = h.timeouts_fit;
        max_flows_fits = h.max_flows_fits;
        interval_fits = h.interval_fits;
        collector_port_fits =
            assigned_bound (look s (codes "collector_port")) 4739 65535 (codes "collector_port")
              (2 ^ 16) f.0.ipfix.collector_port (omega arith) h.collector_port_fits;
        obs_domain_fits = omega (arith, domain);
        syslog_port_fits = h.syslog_port_fits;
      }

  fill_syslog-HasBounds :
      (s : Section) (f : Filling) → HasBounds f.0 → HasBounds (fill_syslog look s f).0
  unfolding fill_syslog
  fill_syslog-HasBounds s f h = record {
    timeouts_fit = h.timeouts_fit;
    max_flows_fits = h.max_flows_fits;
    interval_fits = h.interval_fits;
    collector_port_fits = h.collector_port_fits;
    obs_domain_fits = h.obs_domain_fits;
    syslog_port_fits =
        assigned_bound (look s (codes "syslog_port")) 514 65535 (codes "syslog_port") (2 ^ 16)
          f.0.syslog.syslog_port (omega arith) h.syslog_port_fits;
  }

  fill_section-HasBounds :
      (o : Option Bytes) (s : Section) (f : Filling)
      → HasBounds f.0
      → HasBounds (fill_section look o s f).0
  unfolding fill_section
  fill_section-HasBounds none s f h = h
  fill_section-HasBounds (some t) s f h =
      let P = λ (f' : Filling). HasBounds f'.0 in
      if_cases P (bytes_eq t (codes "obserwrt")) _ _ (λ e. fill_main-HasBounds s f h)
        (λ e.
          if_cases P (bytes_eq t (codes "exporter_ipfix")) _ _ (λ e. fill_ipfix-HasBounds s f h)
            (λ e.
              if_cases P (bytes_eq t (codes "exporter_syslog")) _ _
                (λ e. fill_syslog-HasBounds s f h) (λ e. h)))

  fill_sections-HasBounds :
      (ss : List Section) (f : Filling) → HasBounds f.0 → HasBounds (fill_sections look ss f).0
  unfolding fill_sections
  fill_sections-HasBounds [] f h = h
  fill_sections-HasBounds (s ∷ ss) f h =
      fill_sections-HasBounds ss (fill_section look s.type s f)
        (fill_section-HasBounds s.type s f h)

  -- Whatever libuci answers, the configuration is within the bounds: the timeouts and the interval are at
  -- most a day, and the ports, the domain and the flow limit fit. If no error is reported, then an enabled
  -- IPFIX exporter also has a collector.
  pub load_config-IsConfig :
      (answer : Option Loaded)
      → HasBounds (load_config look answer).0
        × ((load_config look answer).1 ≡ none → IsConfig (load_config look answer).0)
  unfolding load_config fill
  load_config-IsConfig none = (default-HasBounds, λ e. cc)
  load_config-IsConfig (some (sections ss)) =
      let f = fill_sections look ss (default_config, none) in
      let h = fill_sections-HasBounds ss (default_config, none) default-HasBounds in
      (check_collector-HasBounds f h, λ e. check_collector-IsConfig f h e)
  load_config-IsConfig (some (failed code)) = failed_load look code
