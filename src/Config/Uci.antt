-- ===== src/Config/Uci.antt =====
-- The configuration's backend for OpenWrt (src/config_uci.cpp). libuci is a parameter: `Loaded` is what uci_load
-- answers, and `look` is uci_lookup_option_string.
use obserwrt.Prelude.{
  ℕ, zero, suc, ◌%◌, ◌^◌, take, drop, Bool, true, false, ◌&&◌, Option, none, some, List, [], ◌∷◌,
  ◌++◌, if◌then◌else◌, Bytes, bytes_eq, codes,
}
use obserwrt.Config.{
  Config, Ipfix, Syslog, Error, no_collector_host, Result, ok, err, is_empty, bool_text, uint_text,
  log_level_from_string, log_notice, default_config,
}

-- an option of libuci: a string, none for a null pointer, or a list
pub data Value : Type 0 where
  text : Option Bytes → Value
  list : List Bytes → Value

-- `struct uci_section`
pub record Section : Type 0 where
  pub type : Option Bytes
  pub options : List (Bytes × Value)

-- the error codes of libuci that the code tells apart
pub data LoadCode : Type 0 where
  not_found memory invalid io parse_failed duplicate other : LoadCode

-- what `uci_load` answers
pub data Loaded : Type 0 where
  sections : List Section → Loaded
  failed : LoadCode → Loaded

-- what is put into `*err`
pub data UciError : Type 0 where
  alloc_failed mkstemp_failed : UciError
  load_failed : Bytes → UciError
  option_failed : Error → UciError

-- `uci_err_label`, and its `fatal`
unfoldable pub uci_err_label : LoadCode → Bytes × Bool
uci_err_label not_found = (codes "not found", false)
uci_err_label memory = (codes "out of memory", true)
uci_err_label invalid = (codes "invalid argument", true)
uci_err_label io = (codes "I/O error", true)
uci_err_label parse_failed = (codes "parse error", true)
uci_err_label duplicate = (codes "duplicate", true)
uci_err_label other = (codes "unknown error", true)

-- `bool_option`
unfoldable pub bool_option : Option Bytes → Bool → Bool
unfolding bool_text
bool_option none fallback = fallback
bool_option (some v) fallback = bool_text v fallback

-- `parse_uint`, on the option looked up
unfoldable pub uint_option : Option Bytes → ℕ → ℕ → Bytes → Result ℕ
unfolding uint_text
uint_option none def hi label = ok def
uint_option (some v) def hi label = uint_text v def hi label

-- `out` of `parse_uint`, which is set to the default first
abbrev pub settled : Result ℕ → ℕ → ℕ
settled (ok v) def = v
settled (err e) def = def

-- a field that is assigned if `parse_uint` returns true
abbrev pub assigned : Result ℕ → ℕ → ℕ → ℕ
assigned (ok v) m old = v % m
assigned (err e) m old = old

-- `*err`
abbrev pub noted : Result ℕ → Option UciError → Option UciError
noted (ok v) e = e
noted (err x) e = some (option_failed x)

-- `v ? v : def`
abbrev pub text_or : Option Bytes → Bytes → Bytes
text_or none def = def
text_or (some v) def = v

-- the devices of one option
abbrev pub devices_in : Value → List Bytes
devices_in (list names) = names
devices_in (text none) = []
devices_in (text (some name)) = name ∷ []

-- `parse_devices`: what it appends
unfoldable pub parse_devices : List (Bytes × Value) → List Bytes
parse_devices [] = []
parse_devices ((name, v) ∷ options) =
    let rest = parse_devices options in
    if bytes_eq name (codes "device") then devices_in v ++ rest else rest

-- the configuration and `*err`
abbrev pub Filling : Type 0
Filling = Config × Option UciError

-- the check at the end of `fill`
unfoldable pub check_collector : Filling → Filling
check_collector (cfg, e) =
    if cfg.ipfix.enabled && is_empty cfg.ipfix.collector_host
    then (cfg, some (option_failed no_collector_host))
    else (cfg, e)

-- the loop over `write` in `load_config_string`; a write of 0 stands for one that took nothing or failed
unfoldable pub written : List ℕ → Bytes → Bytes → Option Bytes
written answers done [] = some done
written [] done (b ∷ rest) = none
written (zero ∷ answers) done (b ∷ rest) = some done
written (suc n ∷ answers) done (b ∷ rest) =
    written answers (done ++ take (suc n) (b ∷ rest)) (drop (suc n) (b ∷ rest))

module _ (look : Section → Bytes → Option Bytes) where
  -- `parse_uint` on an option that is its own label
  abbrev pub number : Section → Bytes → ℕ → ℕ → Result ℕ
  number s key def hi = uint_option (look s key) def hi key

  -- the branch of "obserwrt"
  unfoldable pub fill_main : Section → Filling → Filling
  unfolding parse_devices uint_option bool_option
  fill_main s (cfg, e) =
      let tcp = number s (codes "tcp_timeout") 300 86400 in
      let udp = number s (codes "udp_timeout") 60 86400 in
      let icmp = number s (codes "icmp_timeout") 30 86400 in
      let general = number s (codes "general_timeout") 10 86400 in
      let flows = number s (codes "max_flows") 0 (2 ^ 30) in
      let interval = number s (codes "prometheus_interval") 20 86400 in
      let cfg' : Config = record cfg {
        devices = cfg.devices ++ parse_devices s.options;
        timeouts = record {
          tcp = settled tcp 300;
          udp = settled udp 60;
          icmp = settled icmp 30;
          general = settled general 10;
        };
        max_flows = assigned flows (2 ^ 32) cfg.max_flows;
        track_drops = bool_option (look s (codes "track_drops")) false;
        log_level = log_level_from_string (text_or (look s (codes "log_level")) []) log_notice;
        prometheus_textfile =
            text_or (look s (codes "prometheus_textfile")) cfg.prometheus_textfile;
        prometheus_interval = assigned interval (2 ^ 32) cfg.prometheus_interval;
      } in
      (cfg', noted interval (noted flows (noted general (noted icmp (noted udp (noted tcp e))))))

  -- the branch of "exporter_ipfix"
  unfoldable pub fill_ipfix : Section → Filling → Filling
  unfolding uint_option bool_option
  fill_ipfix s (cfg, e) =
      let port = number s (codes "collector_port") 4739 65535 in
      let domain = number s (codes "observation_domain") 1 4294967295 in
      let ipfix' : Ipfix = record {
        enabled = bool_option (look s (codes "enabled")) false;
        collector_host = text_or (look s (codes "collector_host")) [];
        collector_port = assigned port (2 ^ 16) cfg.ipfix.collector_port;
        source_address = text_or (look s (codes "source_address")) [];
        obs_domain = assigned domain (2 ^ 32) cfg.ipfix.obs_domain;
      } in
      (record cfg { ipfix = ipfix' }, noted domain (noted port e))

  -- the branch of "exporter_syslog"
  unfoldable pub fill_syslog : Section → Filling → Filling
  unfolding uint_option bool_option
  fill_syslog s (cfg, e) =
      let port = number s (codes "syslog_port") 514 65535 in
      let syslog' : Syslog = record {
        enabled = bool_option (look s (codes "enabled")) false;
        syslog_host = text_or (look s (codes "syslog_host")) [];
        syslog_port = assigned port (2 ^ 16) cfg.syslog.syslog_port;
        protocol = text_or (look s (codes "protocol")) (codes "udp");
        format = text_or (look s (codes "format")) (codes "json");
        hostname = text_or (look s (codes "hostname")) [];
        source_address = text_or (look s (codes "source_address")) [];
      } in
      (record cfg { syslog = syslog' }, noted port e)

  -- a round of the loop over the sections, by the section's type
  unfoldable pub fill_section : Option Bytes → Section → Filling → Filling
  unfolding fill_main fill_ipfix fill_syslog
  fill_section none s f = f
  fill_section (some t) s f =
      if bytes_eq t (codes "obserwrt")
      then fill_main s f
      else if bytes_eq t (codes "exporter_ipfix")
      then fill_ipfix s f
      else if bytes_eq t (codes "exporter_syslog")
      then fill_syslog s f
      else f

  -- the loop
  unfoldable pub fill_sections : List Section → Filling → Filling
  unfolding fill_section
  fill_sections [] f = f
  fill_sections (s ∷ ss) f = fill_sections ss (fill_section s.type s f)

  -- `fill`
  unfoldable pub fill : Loaded → Filling → Filling
  unfolding fill_sections check_collector uci_err_label
  fill (failed code) (cfg, e) =
      let (label, fatal) = uci_err_label code in
      if fatal then (cfg, some (load_failed label)) else (cfg, e)
  fill (sections ss) f = check_collector (fill_sections ss f)

  -- `load_config`; none stands for a context that could not be allocated
  unfoldable pub load_config : Option Loaded → Filling
  unfolding fill
  load_config none = (default_config, some alloc_failed)
  load_config (some loaded) = fill loaded (default_config, none)

  -- `load_config_string`, on whether mkstemp made a file, what the writes took, and what libuci makes of
  -- what is in the file; none stands for writes that still go on
  unfoldable pub load_config_string :
      Bool → List ℕ → (Bytes → Option Loaded) → Bytes → Option Filling
  unfolding written load_config
  load_config_string false answers loads content = some (default_config, some mkstemp_failed)
  load_config_string true answers loads content = elim (written answers [] content) [
    | none ↦ none
    | some file ↦ some (load_config (loads file))
  ]
