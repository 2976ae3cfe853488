-- ===== src/Config/UciAgrees.antt =====
-- The UCI backend and the plain backend read the same configuration.
use obserwrt.Prelude.{ℕ, ◌%◌, ◌^◌, ◌≡◌, Bool, false, ◌&&◌, Option, List, [], ◌∷◌, Bytes, codes}
use obserwrt.Lifecycle.{Timeouts}
use obserwrt.Config.{
  Config, Ipfix, Syslog, Ini, log_level_from_string, log_notice, ok, is_empty, default_config,
}
use obserwrt.Config.Uci.{Section, number, text_or, bool_option, parse_devices}
use obserwrt.Config.UciOptions.{Mirrors}

module _ (look : Section → Bytes → Option Bytes) (m i s : Section) where
  -- the numbers of the three sections, all valid
  record Read : Type 0 where
    tcp : ℕ
    udp : ℕ
    icmp : ℕ
    general : ℕ
    flows : ℕ
    interval : ℕ
    port : ℕ
    domain : ℕ
    syslog_port : ℕ
    tcp_read : number look m (codes "tcp_timeout") 300 86400 ≡ ok tcp
    udp_read : number look m (codes "udp_timeout") 60 86400 ≡ ok udp
    icmp_read : number look m (codes "icmp_timeout") 30 86400 ≡ ok icmp
    general_read : number look m (codes "general_timeout") 10 86400 ≡ ok general
    flows_read : number look m (codes "max_flows") 0 (2 ^ 30) ≡ ok flows
    interval_read : number look m (codes "prometheus_interval") 20 86400 ≡ ok interval
    port_read : number look i (codes "collector_port") 4739 65535 ≡ ok port
    domain_read : number look i (codes "observation_domain") 1 4294967295 ≡ ok domain
    syslog_port_read : number look s (codes "syslog_port") 514 65535 ≡ ok syslog_port

  abbrev ipfix_of : Read → Ipfix
  ipfix_of r = record {
    enabled = bool_option (look i (codes "enabled")) false;
    collector_host = text_or (look i (codes "collector_host")) [];
    collector_port = r.port % 2 ^ 16;
    source_address = text_or (look i (codes "source_address")) [];
    obs_domain = r.domain % 2 ^ 32;
  }

  abbrev syslog_of : Read → Syslog
  syslog_of r = record {
    enabled = bool_option (look s (codes "enabled")) false;
    syslog_host = text_or (look s (codes "syslog_host")) [];
    syslog_port = r.syslog_port % 2 ^ 16;
    protocol = text_or (look s (codes "protocol")) (codes "udp");
    format = text_or (look s (codes "format")) (codes "json");
    hostname = text_or (look s (codes "hostname")) [];
    source_address = text_or (look s (codes "source_address")) [];
  }

  abbrev timeouts_of : Read → Timeouts
  timeouts_of r = record { tcp = r.tcp; udp = r.udp; icmp = r.icmp; general = r.general }

  abbrev config_of : Read → Config
  config_of r = record {
    devices = parse_devices m.options;
    timeouts = timeouts_of r;
    log_level = log_level_from_string (text_or (look m (codes "log_level")) []) log_notice;
    max_flows = r.flows % 2 ^ 32;
    track_drops = bool_option (look m (codes "track_drops")) false;
    prometheus_textfile = text_or (look m (codes "prometheus_textfile")) [];
    prometheus_interval = r.interval % 2 ^ 32;
    ipfix = ipfix_of r;
    syslog = syslog_of r;
  }

  abbrev ss : List Section
  ss = m ∷ i ∷ s ∷ []

  module _ (ini : Ini) (mir : Mirrors look m i s ini) where
    abbrev main_config : Read → Config
    main_config r = record (config_of r) {
      ipfix = default_config.ipfix;
      syslog = default_config.syslog;
    }

    abbrev lacks_collector : Read → Bool
    lacks_collector r = (ipfix_of r).enabled && is_empty (ipfix_of r).collector_host
