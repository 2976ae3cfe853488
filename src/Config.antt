-- ===== src/Config.antt =====
-- The configuration (src/config.hpp) and its backend for plain Linux (src/config_mini.cpp). The
-- vendored ini parser is a parameter: `Ini` maps a section and a key to the text found there, empty
-- if the option is absent.
pub mod Laws
pub mod Uci
pub mod UciLaws
pub mod UciOptions
pub mod UciAgrees
use obserwrt.Prelude.{
  ℕ, ◌*◌, ◌%◌, ◌^◌, Bool, true, false, ◌&&◌, ◌||◌, not, Option, none, some, List, [], ◌∷◌, ◌++◌,
  ltb, ◌==◌, if◌then◌else◌, Bytes, bytes_eq, codes, from_chars,
}
use obserwrt.Lifecycle.{Timeouts}

abbrev pub log_err : ℕ
log_err = 3

abbrev pub log_warning : ℕ
log_warning = 4

abbrev pub log_notice : ℕ
log_notice = 5

abbrev pub log_info : ℕ
log_info = 6

abbrev pub log_debug : ℕ
log_debug = 7

-- `log_level_from_string`
unfoldable pub log_level_from_string : Bytes → ℕ → ℕ
log_level_from_string s def =
    if bytes_eq s (codes "debug")
    then log_debug
    else if bytes_eq s (codes "info")
    then log_info
    else if bytes_eq s (codes "notice")
    then log_notice
    else if bytes_eq s (codes "warning") || bytes_eq s (codes "warn")
    then log_warning
    else if bytes_eq s (codes "error") || bytes_eq s (codes "err")
    then log_err
    else def

-- `Config::Ipfix`
pub record Ipfix : Type 0 where
  pub enabled : Bool
  pub collector_host : Bytes
  pub collector_port : ℕ
  pub source_address : Bytes
  pub obs_domain : ℕ

-- `Config::Syslog`
pub record Syslog : Type 0 where
  pub enabled : Bool
  pub syslog_host : Bytes
  pub syslog_port : ℕ
  pub protocol : Bytes
  pub format : Bytes
  pub hostname : Bytes
  pub source_address : Bytes

-- `struct Config`
pub record Config : Type 0 where
  pub devices : List Bytes
  pub timeouts : Timeouts
  pub log_level : ℕ
  pub max_flows : ℕ
  pub track_drops : Bool
  pub prometheus_textfile : Bytes
  pub prometheus_interval : ℕ
  pub ipfix : Ipfix
  pub syslog : Syslog

-- `Config{}`
abbrev pub default_config : Config
default_config = record {
  devices = [];
  timeouts = record { tcp = 300; udp = 60; icmp = 30; general = 10 };
  log_level = log_notice;
  max_flows = 0;
  track_drops = false;
  prometheus_textfile = [];
  prometheus_interval = 20;
  ipfix = record {
    enabled = false;
    collector_host = [];
    collector_port = 4739;
    source_address = [];
    obs_domain = 1;
  };
  syslog = record {
    enabled = false;
    syslog_host = [];
    syslog_port = 514;
    protocol = codes "udp";
    format = codes "json";
    hostname = [];
    source_address = [];
  };
}

-- the exceptions thrown, and what the ini parser throws
pub data Error : Type 0 where
  invalid_value : Bytes → Bytes → Error
  out_of_range : Bytes → Error
  no_collector_host : Error
  bad_ini : Error

pub data Result {ℓ} (A : Type ℓ) : Type ℓ where
  ok : A → Result A
  err : Error → Result A

infixl 5 ◌>>=◌
abbrev pub ◌>>=◌ {ℓ κ} : {A : Type ℓ} {B : Type κ} → Result A → (A → Result B) → Result B
ok a >>= f = f a
err e >>= f = err e

abbrev pub is_empty : Bytes → Bool
is_empty [] = true
is_empty (c ∷ cs) = false

-- the texts that stand for true and for false, and any other
unfoldable pub bool_text : Bytes → Bool → Bool
bool_text v fallback =
    if bytes_eq v (codes "1")
      || bytes_eq v (codes "on")
      || bytes_eq v (codes "true")
      || bytes_eq v (codes "yes")
      || bytes_eq v (codes "enabled")
    then true
    else if bytes_eq v (codes "0")
        || bytes_eq v (codes "off")
        || bytes_eq v (codes "false")
        || bytes_eq v (codes "no")
        || bytes_eq v (codes "disabled")
    then false
    else fallback

abbrev pub Ini : Type 0
Ini = Bytes → Bytes → Bytes

-- `parse_bool`
unfoldable pub parse_bool : Ini → Bytes → Bytes → Bool → Bool
unfolding bool_text
parse_bool ini sec key fallback = bool_text (ini sec key) fallback

-- `parse_uint`, on the text of the option
unfoldable pub uint_text : Bytes → ℕ → ℕ → Bytes → Result ℕ
uint_text s def hi label = if is_empty s then ok def else elim (from_chars s) [
  | none ↦ err (invalid_value label s)
  | some v ↦ if ltb hi v then err (out_of_range label) else ok v
]

unfoldable pub parse_uint : Ini → Bytes → Bytes → ℕ → ℕ → Bytes → Result ℕ
unfolding uint_text
parse_uint ini sec key def hi label = uint_text (ini sec key) def hi label

-- `isspace` of the extraction from a stream
abbrev is_space : ℕ → Bool
is_space c = c == 32 || (ltb 8 c && ltb c 14)

abbrev flush_word : Bytes → List Bytes → List Bytes
flush_word [] rest = rest
flush_word (c ∷ cs) rest = (c ∷ cs) ∷ rest

-- `while (ss >> tok)`, with the word under way
unfoldable pub words : Bytes → Bytes → List Bytes
words word [] = flush_word word []
words word (c ∷ cs) =
    let ended = flush_word word (words [] cs) in
    let longer = words (word ++ c ∷ []) cs in if is_space c then ended else longer

-- `parse_list`
unfoldable pub parse_list : Ini → Bytes → Bytes → List Bytes
unfolding words
parse_list ini sec key = words [] (ini sec key)

abbrev pub or_default : Bytes → Bytes → Bytes
or_default [] d = d
or_default (c ∷ cs) d = c ∷ cs

abbrev main_sec : Bytes
main_sec = codes "main"

abbrev ipfix_sec : Bytes
ipfix_sec = codes "ipfix"

abbrev syslog_sec : Bytes
syslog_sec = codes "syslog"

-- the options of [main]
unfoldable pub parse_timeouts : Ini → Result Timeouts
parse_timeouts ini = do
  tcp ← parse_uint ini main_sec (codes "tcp_timeout") 300 86400 (codes "tcp_timeout")
  udp ← parse_uint ini main_sec (codes "udp_timeout") 60 86400 (codes "udp_timeout")
  icmp ← parse_uint ini main_sec (codes "icmp_timeout") 30 86400 (codes "icmp_timeout")
  general ← parse_uint ini main_sec (codes "general_timeout") 10 86400 (codes "general_timeout")
  ok (record { tcp = tcp; udp = udp; icmp = icmp; general = general })

-- the options of [ipfix]
unfoldable pub parse_ipfix : Ini → Result Ipfix
parse_ipfix ini = do
  port ← parse_uint ini ipfix_sec (codes "collector_port") 4739 65535 (codes "collector_port")
  domain ←
      parse_uint ini ipfix_sec (codes "observation_domain") 1 4294967295
        (codes "observation_domain")
  ok (record {
    enabled = parse_bool ini ipfix_sec (codes "enabled") false;
    collector_host = ini ipfix_sec (codes "collector_host");
    collector_port = port % 2 ^ 16;
    source_address = ini ipfix_sec (codes "source_address");
    obs_domain = domain % 2 ^ 32;
  })

-- the options of [syslog]
unfoldable pub parse_syslog : Ini → Result Syslog
parse_syslog ini = do
  port ← parse_uint ini syslog_sec (codes "syslog_port") 514 65535 (codes "syslog_port")
  ok (record {
    enabled = parse_bool ini syslog_sec (codes "enabled") false;
    syslog_host = ini syslog_sec (codes "syslog_host");
    syslog_port = port % 2 ^ 16;
    protocol = or_default (ini syslog_sec (codes "protocol")) (codes "udp");
    format = or_default (ini syslog_sec (codes "format")) (codes "json");
    hostname = ini syslog_sec (codes "hostname");
    source_address = ini syslog_sec (codes "source_address");
  })

-- `parse`
unfoldable pub parse : Ini → Result Config
unfolding parse_timeouts parse_ipfix parse_syslog
parse ini = do
  timeouts ← parse_timeouts ini
  max_flows ← parse_uint ini main_sec (codes "max_flows") 0 (2 ^ 30) (codes "max_flows")
  interval ←
      parse_uint ini main_sec (codes "prometheus_interval") 20 86400 (codes "prometheus_interval")
  ipfix ← parse_ipfix ini
  syslog ← parse_syslog ini
  if ipfix.enabled && is_empty ipfix.collector_host
      then err no_collector_host
      else ok (record {
        devices = parse_list ini main_sec (codes "device");
        timeouts = timeouts;
        log_level = log_level_from_string (ini main_sec (codes "log_level")) log_notice;
        max_flows = max_flows % 2 ^ 32;
        track_drops = parse_bool ini main_sec (codes "track_drops") false;
        prometheus_textfile = ini main_sec (codes "prometheus_textfile");
        prometheus_interval = interval % 2 ^ 32;
        ipfix = ipfix;
        syslog = syslog;
      })

-- the `catch` clause: the configuration, and the text put into `*error`, if any
unfoldable pub caught : Result Config → Config × Option Error
caught (ok cfg) = (cfg, none)
caught (err e) = (default_config, some e)

-- `load_config_string`, on what the ini parser makes of the text
unfoldable pub load_config_string : Result Ini → Config × Option Error
unfolding caught
load_config_string decoded = caught (decoded >>= parse)

-- `load_config`, on what the ini parser makes of a file
unfoldable pub load_config : Bytes → (Bytes → Result Ini) → Config × Option Error
unfolding caught
load_config path loads =
    if is_empty path then (default_config, none) else caught (loads path >>= parse)
