-- ===== src/Ipfix.antt =====
-- The IPFIX exporter (src/exporter_ipfix.hpp, src/exporter_ipfix.cpp).
pub mod Record
pub mod Chunks
use obserwrt.Prelude.{
  ℕ, zero, suc, ◌+◌, ◌-◌, ◌*◌, ◌/◌, ◌%◌, ◌^◌, Bool, true, false, ◌&&◌, Option, none, some, List, [],
  ◌∷◌, ◌++◌, ltb, leb, ◌==◌, if◌then◌else◌, length, take, drop, Bytes, be_bytes, concat,
}
use obserwrt.Flow.{FlowKey, FlowValue, Delta, ingress, egress}
use obserwrt.Udp.{UdpClient, Candidate, ConnectError}
use obserwrt.Udp

abbrev pub version : ℕ
version = 10

abbrev pub set_template : ℕ
set_template = 2

abbrev pub ipv4_tid : ℕ
ipv4_tid = 256

abbrev pub ipv6_tid : ℕ
ipv6_tid = 257

abbrev pub max_udp : ℕ
max_udp = 1200

abbrev pub template_interval_s : ℕ
template_interval_s = 60

abbrev pub msg_hdr : ℕ
msg_hdr = 16

abbrev pub set_hdr : ℕ
set_hdr = 4

-- a template: information elements and their lengths
abbrev pub Fields : Type 0
Fields = List (ℕ × ℕ)

-- the fields behind the addresses; only the ICMP element differs
abbrev pub common_fields : ℕ → Fields
common_fields icmp =
    (7, 2)
    ∷ (11, 2)
    ∷ (4, 1)
    ∷ (2, 8)
    ∷ (1, 8)
    ∷ (152, 8)
    ∷ (153, 8)
    ∷ (6, 2)
    ∷ (10, 4)
    ∷ (14, 4)
    ∷ (icmp, 2)
    ∷ (61, 1)
    ∷ (136, 1)
    ∷ (34, 4)
    ∷ (58, 2)
    ∷ (89, 1)
    ∷ (5, 1)
    ∷ []

abbrev pub fields_v4 : Fields
fields_v4 = (8, 4) ∷ (12, 4) ∷ common_fields 32

abbrev pub fields_v6 : Fields
fields_v6 = (27, 16) ∷ (28, 16) ∷ common_fields 139

abbrev pub end_idle_timeout : ℕ
end_idle_timeout = 1

abbrev pub end_active_timeout : ℕ
end_active_timeout = 2

abbrev pub sampling_interval : ℕ
sampling_interval = 1

-- `class IpfixExporter`
pub record IpfixExporter : Type 0 where
  pub obs_domain : ℕ
  pub seq : ℕ
  pub offset_ms : ℕ
  pub last_template_sent_s : ℕ
  pub udp : UdpClient
  pub captured : List Bytes
  pub pending4 : List Bytes
  pub pending6 : List Bytes

-- the constructor
unfoldable pub init : ℕ → IpfixExporter
init obs_domain = record {
  obs_domain = obs_domain;
  seq = 0;
  offset_ms = 0;
  last_template_sent_s = 0;
  udp = Udp.closed;
  captured = [];
  pending4 = [];
  pending6 = [];
}

-- `set_epoch`
unfoldable pub set_epoch : IpfixExporter → ℕ → ℕ → IpfixExporter
set_epoch e export_time_s offset_ms = record e {
  offset_ms = offset_ms;
  last_template_sent_s = export_time_s;
}

-- `set_offset_ms`
unfoldable pub set_offset_ms : IpfixExporter → ℕ → IpfixExporter
set_offset_ms e offset_ms = record e { offset_ms = offset_ms }

-- `connect`
unfoldable pub connect :
    IpfixExporter → Option (List Candidate) → Bool → Option ConnectError × IpfixExporter
connect e found has_source =
    let (r, u) = Udp.connect found has_source e.udp in (r, record e { udp = u })

-- `take_failures`
unfoldable pub take_failures : IpfixExporter → ℕ × IpfixExporter
take_failures e = let (n, u) = Udp.take_failures e.udp in (n, record e { udp = u })

-- the loop of `template_set` over the fields
unfoldable pub field_specs : Fields → Bytes
field_specs [] = []
field_specs ((ie, len) ∷ fs) = be_bytes 2 ie ++ (be_bytes 2 len ++ field_specs fs)

-- `template_set`
unfoldable pub template_set : ℕ → Fields → Bytes
unfolding field_specs
template_set tid fields =
    let rec = be_bytes 2 tid ++ (be_bytes 2 (length fields % 2 ^ 16) ++ field_specs fields) in
    be_bytes 2 set_template ++ (be_bytes 2 ((4 + length rec) % 2 ^ 16) ++ rec)

-- the 16-byte message header
unfoldable pub header : ℕ → ℕ → ℕ → ℕ → Bytes
header seq obs_domain export_time_s len =
    be_bytes 2 version
    ++ (be_bytes 2 (len % 2 ^ 16)
        ++ (be_bytes 4 export_time_s ++ (be_bytes 4 seq ++ be_bytes 4 obs_domain)))

-- one datagram of data records, as the lambda of `flush_set` builds it
unfoldable pub data_message : ℕ → ℕ → ℕ → ℕ → List Bytes → ℕ → Bytes
unfolding header
data_message seq obs_domain export_time_s set_id chunk body =
    header seq obs_domain export_time_s (msg_hdr + set_hdr + body)
    ++ (be_bytes 2 set_id ++ (be_bytes 2 ((set_hdr + body) % 2 ^ 16) ++ concat chunk))

-- the addresses of a record
unfoldable pub address_fields : FlowKey → List Bytes
address_fields k =
    if k.family == 4
    then take 4 (drop 12 k.src) ∷ take 4 (drop 12 k.dst) ∷ []
    else k.src ∷ k.dst ∷ []

-- `dp` and `db`: the deltas if given, else the cumulative counters
abbrev pub reported : FlowValue → Option Delta → Delta
reported v none = record { packets = v.packets; bytes = v.bytes }
reported v (some d) = d

-- the fields that `emit` appends behind the addresses, in order
unfoldable pub counted_fields : ℕ → FlowKey → FlowValue → Bool → Option Delta → ℕ → List Bytes
counted_fields offset_ms k v expired delta forwarding_status =
    be_bytes 2 k.sport
    ∷ be_bytes 2 k.dport
    ∷ be_bytes 1 k.protocol
    ∷ be_bytes 8 (reported v delta).packets
    ∷ be_bytes 8 (reported v delta).bytes
    ∷ be_bytes 8 ((offset_ms + v.first_seen / 1000000) % 2 ^ 64)
    ∷ be_bytes 8 ((offset_ms + v.last_seen / 1000000) % 2 ^ 64)
    ∷ be_bytes 2 v.tcp_flags
    ∷ be_bytes 4 (if k.direction == ingress then k.ifindex else 0)
    ∷ be_bytes 4 (if k.direction == egress then k.ifindex else 0)
    ∷ be_bytes 2 (k.icmp_type * 256 + k.icmp_code)
    ∷ be_bytes 1 k.direction
    ∷ be_bytes 1 (if expired then end_idle_timeout else end_active_timeout)
    ∷ be_bytes 4 sampling_interval
    ∷ be_bytes 2 v.vlan_id
    ∷ be_bytes 1 forwarding_status
    ∷ be_bytes 1 v.tos
    ∷ []

-- the fields of a record
unfoldable pub record_fields : ℕ → FlowKey → FlowValue → Bool → Option Delta → ℕ → List Bytes
unfolding address_fields counted_fields
record_fields offset_ms k v expired delta forwarding_status =
    address_fields k ++ counted_fields offset_ms k v expired delta forwarding_status

-- `emit`
unfoldable pub emit : IpfixExporter → FlowKey → FlowValue → Bool → Option Delta → ℕ → IpfixExporter
emit e k v expired delta forwarding_status =
    let rec = concat (record_fields e.offset_ms k v expired delta forwarding_status) in
    if k.family == 4
    then record e { pending4 = e.pending4 ++ rec ∷ [] }
    else record e { pending6 = e.pending6 ++ rec ∷ [] }

module _ (delivered : List Bytes → Bytes → Bool) where
  -- `send`
  unfoldable pub send : IpfixExporter → Bytes → IpfixExporter
  send e d =
      if Udp.connected e.udp
      then record e { udp = (Udp.send delivered e.udp d).1 }
      else record e { captured = e.captured ++ d ∷ [] }

  -- `send_templates`
  unfoldable pub send_templates : IpfixExporter → ℕ → IpfixExporter
  unfolding header
  send_templates e export_time_s =
      let body = template_set ipv4_tid fields_v4 ++ template_set ipv6_tid fields_v6 in
      record (send e (header e.seq e.obs_domain export_time_s (msg_hdr + length body) ++ body)) {
        last_template_sent_s = export_time_s;
      }

  -- the lambda `emit` of `flush_set`
  unfoldable pub emit_chunk : IpfixExporter → ℕ → ℕ → List Bytes → ℕ → ℕ → IpfixExporter
  emit_chunk e export_time_s set_id chunk cnt body =
      let e' = send e (data_message e.seq e.obs_domain export_time_s set_id chunk body) in
      record e' { seq = (e'.seq + cnt) % 2 ^ 32 }

  -- the loop of `flush_set` and the emission behind it: `chunk` holds records[start .. i), and the
  -- list what `i` has not reached
  unfoldable pub flush_loop :
      IpfixExporter → ℕ → ℕ → List Bytes → ℕ → ℕ → List Bytes → IpfixExporter
  flush_loop e time set_id chunk cnt body [] =
      if ltb 0 cnt then emit_chunk e time set_id chunk cnt body else e
  flush_loop e time set_id chunk cnt body (r ∷ rs) =
      let rsz = length r in
      let full = ltb 0 cnt && ltb max_udp (msg_hdr + set_hdr + body + rsz) in
      flush_loop (if full then emit_chunk e time set_id chunk cnt body else e) time set_id
        (if full then r ∷ [] else chunk ++ r ∷ []) (if full then 1 else cnt + 1)
        (if full then rsz else body + rsz) rs

  -- `flush_set`
  unfoldable pub flush_set : IpfixExporter → ℕ → ℕ → List Bytes → IpfixExporter
  unfolding flush_loop
  flush_set e time set_id records = flush_loop e time set_id [] 0 0 records

  -- the start of `flush`: the 32-bit difference decides on the templates
  unfoldable pub refresh_templates : IpfixExporter → ℕ → IpfixExporter
  refresh_templates e time =
      if leb template_interval_s ((time + 2 ^ 32 - e.last_template_sent_s) % 2 ^ 32)
      then send_templates e time
      else e

  -- `flush`
  unfoldable pub flush : IpfixExporter → ℕ → IpfixExporter
  unfolding refresh_templates
  flush e time =
      let e₁ = refresh_templates e time in
      let e₂ = record (flush_set e₁ time ipv4_tid e₁.pending4) { pending4 = [] } in
      record (flush_set e₂ time ipv6_tid e₂.pending6) { pending6 = [] }
