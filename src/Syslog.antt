-- ===== src/Syslog.antt =====
-- The syslog exporter (src/exporter_syslog.hpp, src/exporter_syslog.cpp). The JSON library, inet_ntop, strftime and the
-- host's name are parameters (`Platform`).
pub mod Delivery
use obserwrt.Prelude.{
  ℕ, ◌/◌, ◌%◌, Bool, true, false, ◌&&◌, ◌||◌, not, Option, none, some, List, [], ◌∷◌, ◌++◌, ◌==◌,
  if◌then◌else◌, Bytes, bytes_eq, codes, to_string, drop,
}
use obserwrt.Flow.{FlowKey, FlowValue, Delta, DropInfo, ingress}
use obserwrt.Config.{is_empty}
use obserwrt.Config
use obserwrt.Udp.{UdpClient, Candidate, ConnectError}
use obserwrt.Udp

-- a value put into the JSON object
pub data Json : Type 0 where
  number : ℕ → Json
  text : Bytes → Json
  flag : Bool → Json

pub record Platform : Type 0 where
  pub inet_ntop : Bytes → Bytes
  -- `dump` of a JSON string, and of an object with its members in order
  pub json_text : Bytes → Bytes
  pub json_object : List (Bytes × Json) → Bytes
  pub iso_timestamp : ℕ → Bytes
  pub sys_hostname : Bytes

-- `struct SyslogRecord`
pub record SyslogRecord : Type 0 where
  pub ifindex : ℕ
  pub ifname : Bytes
  pub direction : Bytes
  pub family : ℕ
  pub protocol : ℕ
  pub icmp_type : ℕ
  pub icmp_code : ℕ
  pub src : Bytes
  pub dst : Bytes
  pub sport : ℕ
  pub dport : ℕ
  pub packets : ℕ
  pub bytes : ℕ
  pub first_seen_ns : ℕ
  pub last_seen_ns : ℕ
  pub tcp_flags : ℕ
  pub vlan_id : ℕ
  pub dscp : ℕ
  pub expired : Bool
  pub forwarding_status : ℕ
  pub drop_reason : Bytes

-- the numbers with dots between them
unfoldable pub dotted : Bytes → Bytes
dotted [] = []
dotted (a ∷ []) = to_string a
dotted (a ∷ b ∷ rest) = to_string a ++ codes "." ++ dotted (b ∷ rest)

-- the arguments of one observation
pub record Observation : Type 0 where
  pub key : FlowKey
  pub value : FlowValue
  pub expired : Bool
  pub delta : Option Delta
  pub drop_info : Option DropInfo

abbrev pub status_of : Option DropInfo → ℕ
status_of none = 0
status_of (some d) = d.forwarding_status

abbrev pub reason_of : Option DropInfo → Bytes
reason_of none = []
reason_of (some d) = d.reason

abbrev pub packets_of : FlowValue → Option Delta → ℕ
packets_of v none = v.packets
packets_of v (some d) = d.packets

abbrev pub bytes_of : FlowValue → Option Delta → ℕ
bytes_of v none = v.bytes
bytes_of v (some d) = d.bytes

-- `class SyslogExporter`; `log` is what syslog(3) was handed
pub record SyslogExporter : Type 0 where
  pub enabled : Bool
  pub is_local : Bool
  pub format : Bytes
  pub host : Bytes
  pub remote : UdpClient
  pub ifnames : Option (ℕ → Bytes)
  pub log : List Bytes

abbrev pub fresh : SyslogExporter
fresh = record {
  enabled = false;
  is_local = false;
  format = codes "json";
  host = [];
  remote = Udp.closed;
  ifnames = none;
  log = [];
}

-- `set_ifnames`
unfoldable pub set_ifnames : SyslogExporter → Option (ℕ → Bytes) → SyslogExporter
set_ifnames e f = record e { ifnames = f }

-- `take_failures`
unfoldable pub take_failures : SyslogExporter → ℕ × SyslogExporter
take_failures e = let (n, u) = Udp.take_failures e.remote in (n, record e { remote = u })

-- the texts put into `*error`
pub data InitError : Type 0 where
  unsupported_format unsupported_protocol : Bytes → InitError
  not_connected : ConnectError → InitError

module _ (os : Platform) where
  -- `addr_text`
  unfoldable pub addr_text : Bytes → ℕ → Bytes
  unfolding dotted
  addr_text a family = if family == 4 then dotted (drop 12 a) else os.inet_ntop a

  -- `make_record`
  unfoldable pub make_record : Observation → Bytes → SyslogRecord
  unfolding addr_text
  make_record o name = record {
    ifindex = o.key.ifindex;
    ifname = name;
    direction = if o.key.direction == ingress then codes "ingress" else codes "egress";
    family = o.key.family;
    protocol = o.key.protocol;
    icmp_type = o.key.icmp_type;
    icmp_code = o.key.icmp_code;
    src = addr_text o.key.src o.key.family;
    dst = addr_text o.key.dst o.key.family;
    sport = o.key.sport;
    dport = o.key.dport;
    packets = packets_of o.value o.delta;
    bytes = bytes_of o.value o.delta;
    first_seen_ns = o.value.first_seen;
    last_seen_ns = o.value.last_seen;
    tcp_flags = o.value.tcp_flags;
    vlan_id = o.value.vlan_id;
    dscp = o.value.tos / 4 % 256;
    expired = o.expired;
    forwarding_status = status_of o.drop_info;
    drop_reason = reason_of o.drop_info;
  }

  -- the members that `encode_json` sets, in order
  unfoldable pub members : SyslogRecord → List (Bytes × Json)
  members r =
      (codes "ifindex", number r.ifindex)
      ∷ (codes "ifname", text r.ifname)
      ∷ (codes "direction", text r.direction)
      ∷ (codes "family", number r.family)
      ∷ (codes "protocol", number r.protocol)
      ∷ (codes "icmp_type", number r.icmp_type)
      ∷ (codes "icmp_code", number r.icmp_code)
      ∷ (codes "src", text r.src)
      ∷ (codes "dst", text r.dst)
      ∷ (codes "sport", number r.sport)
      ∷ (codes "dport", number r.dport)
      ∷ (codes "packets", number r.packets)
      ∷ (codes "bytes", number r.bytes)
      ∷ (codes "first_seen_ns", number r.first_seen_ns)
      ∷ (codes "last_seen_ns", number r.last_seen_ns)
      ∷ (codes "tcp_flags", number r.tcp_flags)
      ∷ (codes "vlan_id", number r.vlan_id)
      ∷ (codes "dscp", number r.dscp)
      ∷ (codes "expired", flag r.expired)
      ∷ (codes "forwarding_status", number r.forwarding_status)
      ∷ (codes "drop_reason", text r.drop_reason)
      ∷ []

  -- `encode_json`
  unfoldable pub encode_json : Observation → Bytes → Bytes
  unfolding make_record members
  encode_json o name = os.json_object (members (make_record o name))

  -- `encode_logfmt`
  unfoldable pub encode_logfmt : Observation → Bytes → Bytes
  unfolding make_record
  encode_logfmt o name =
      let r = make_record o name in
      codes "ifindex="
      ++ to_string r.ifindex
      ++ codes " ifname="
      ++ os.json_text r.ifname
      ++ codes " direction="
      ++ r.direction
      ++ codes " family="
      ++ to_string r.family
      ++ codes " protocol="
      ++ to_string r.protocol
      ++ codes " icmp_type="
      ++ to_string r.icmp_type
      ++ codes " icmp_code="
      ++ to_string r.icmp_code
      ++ codes " src="
      ++ os.json_text r.src
      ++ codes " dst="
      ++ os.json_text r.dst
      ++ codes " sport="
      ++ to_string r.sport
      ++ codes " dport="
      ++ to_string r.dport
      ++ codes " packets="
      ++ to_string r.packets
      ++ codes " bytes="
      ++ to_string r.bytes
      ++ codes " first_seen_ns="
      ++ to_string r.first_seen_ns
      ++ codes " last_seen_ns="
      ++ to_string r.last_seen_ns
      ++ codes " tcp_flags="
      ++ to_string r.tcp_flags
      ++ codes " vlan_id="
      ++ to_string r.vlan_id
      ++ codes " dscp="
      ++ to_string r.dscp
      ++ codes " expired="
      ++ (if r.expired then codes "1" else codes "0")
      ++ codes " forwarding_status="
      ++ to_string r.forwarding_status
      ++ codes " drop_reason="
      ++ os.json_text r.drop_reason

  -- `encode`
  unfoldable pub encode : Observation → Bytes → Bytes → Bytes
  unfolding encode_json encode_logfmt
  encode o name format =
      if bytes_eq format (codes "json") then encode_json o name else encode_logfmt o name

  -- `frame`
  unfoldable pub frame : Bytes → Bytes → ℕ → Bytes
  frame message hostname now =
      codes "<134>1 "
      ++ os.iso_timestamp now
      ++ codes " "
      ++ hostname
      ++ codes " obserwrt - - - "
      ++ message

  -- `init`, on what getaddrinfo returns for the collector
  unfoldable pub init :
      SyslogExporter
      → Config.Syslog
      → Option (List Candidate)
      → Bool × Option InitError × SyslogExporter
  init e cfg found =
      let f = record e { format = cfg.format } in
      let host = if is_empty cfg.hostname then os.sys_hostname else cfg.hostname in
      if not cfg.enabled
      then (false, none, record e { enabled = false })
      else if not (bytes_eq cfg.format (codes "json")) && not (bytes_eq cfg.format (codes "logfmt"))
      then (false, some (unsupported_format cfg.format), f)
      else if not (bytes_eq cfg.protocol (codes "udp"))
      then (false, some (unsupported_protocol cfg.protocol), f)
      else if is_empty cfg.syslog_host
      then (true, none, record f { host = host; is_local = true; enabled = true })
      else (let (failed, u) = Udp.connect found (not (is_empty cfg.source_address)) e.remote in
          elim failed [
            | none ↦
                (true, none, record f { host = host; is_local = false; enabled = true; remote = u })
            | some c ↦ (
              false,
              some (not_connected c),
              record f { host = host; is_local = false; enabled = false; remote = u },
            )
          ])

  -- the name of the observation's device
  unfoldable pub name_for : Option (ℕ → Bytes) → ℕ → Bytes
  name_for names i = elim names [ none ↦ to_string i | some f ↦ f i ]

  -- `emit`; `now` is the clock, and `delivered` what sendto takes
  unfoldable pub emit :
      (List Bytes → Bytes → Bool) → ℕ → SyslogExporter → Observation → SyslogExporter
  unfolding encode frame name_for
  emit delivered now e o =
      let payload = encode o (name_for e.ifnames o.key.ifindex) e.format in
      if not e.enabled
      then e
      else if e.is_local
      then record e { log = e.log ++ payload ∷ [] }
      else record e { remote = (Udp.send delivered e.remote (frame payload e.host now)).1 }
