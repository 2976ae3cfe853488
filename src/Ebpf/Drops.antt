-- ===== src/Ebpf/Drops.antt =====
-- The drop tracer (bpf/obserwrt-drops.c). `probe off n` is bpf_probe_read_kernel of n bytes from an offset
-- to the network header, and the maps are parameters.
use obserwrt.Prelude.{
  ℕ, ◌+◌, ◌*◌, ◌/◌, ◌%◌, Bool, true, ◌&&◌, ◌||◌, not, Option, none, some, ◌==◌, ltb, if◌then◌else◌,
  Bytes, get_or, take, drop,
}
use Prim.Native.Nat.{bit_or}
use obserwrt.Flow.{FlowValue, DropKey, ingress, egress}
use obserwrt.Ebpf.Parse.{eth_p_ip, eth_p_ipv6, Transport, no_transport}
use obserwrt.Ebpf.Observe.{HashMap, add64, ip4_to_in6}

-- a big-endian 16-bit field of a buffer
abbrev pub half : Bytes → ℕ → ℕ
half bs i = get_or bs i 0 * 256 + get_or bs (i + 1) 0

-- what `drop_parse` writes to `*dk`, `*tcpf` and `*tos`, with its result
pub record Dropped : Type 0 where
  pub l3len : ℕ
  pub family : ℕ
  pub protocol : ℕ
  pub src : Bytes
  pub dst : Bytes
  pub tos : ℕ
  pub transport : Transport

-- the fields read from the bytes behind the IP header
unfoldable pub l4_fields : ℕ → Bytes → Transport
l4_fields proto l4 =
    if proto == 6 || proto == 17
    then record no_transport {
      sport = half l4 0;
      dport = half l4 2;
      tcp_flags = if proto == 6 then get_or l4 13 0 else 0;
    }
    else record no_transport { icmp_type = get_or l4 0 0; icmp_code = get_or l4 1 0 }

module _ (probe : ℕ → ℕ → Option Bytes) where
  -- the end of `drop_parse`
  unfoldable pub drop_l4 : ℕ → ℕ → Bool → Transport
  unfolding l4_fields
  drop_l4 ihl proto have_l4 =
      if have_l4 && (proto == 6 || proto == 17 || proto == 1 || proto == 58)
      then elim (probe ihl 14) [ none ↦ no_transport | some l4 ↦ l4_fields proto l4 ]
      else no_transport

  -- the IPv4 branch, on the header read
  unfoldable pub drop_v4 : Bytes → Option Dropped
  unfolding drop_l4 ip4_to_in6
  drop_v4 hdr =
      let ihl = get_or hdr 0 0 % 16 * 4 in
      if not (get_or hdr 0 0 / 16 == 4) || ltb ihl 20
      then none
      else some (record {
        l3len = half hdr 2;
        family = 4;
        protocol = get_or hdr 9 0;
        src = ip4_to_in6 (take 4 (drop 12 hdr));
        dst = ip4_to_in6 (take 4 (drop 16 hdr));
        tos = get_or hdr 1 0;
        transport = drop_l4 ihl (get_or hdr 9 0) (half hdr 6 % 8192 == 0);
      })

  -- the IPv6 branch
  unfoldable pub drop_v6 : Bytes → Option Dropped
  unfolding drop_l4
  drop_v6 hdr =
      if not (get_or hdr 0 0 / 16 == 6)
      then none
      else some (record {
        l3len = 40 + half hdr 4;
        family = 6;
        protocol = get_or hdr 6 0;
        src = take 16 (drop 8 hdr);
        dst = take 16 (drop 24 hdr);
        tos = get_or hdr 0 0 * 16 % 256 + get_or hdr 1 0 / 16;
        transport = drop_l4 40 (get_or hdr 6 0) true;
      })

  -- `drop_parse`; `none` is the result 0 of a packet that it cannot parse
  unfoldable pub drop_parse : ℕ → Option Dropped
  unfolding drop_v4 drop_v6
  drop_parse proto =
      if proto == eth_p_ip
      then elim (probe 0 20) [ none ↦ none | some hdr ↦ drop_v4 hdr ]
      else if proto == eth_p_ipv6
      then elim (probe 0 40) [ none ↦ none | some hdr ↦ drop_v6 hdr ]
      else none

-- the fields of the kernel's `struct sk_buff` that the tracer reads; `dev` is the device's ifindex,
-- none for a null pointer, and `header_set` tells of `head` and of the network header's offset
pub record DroppedSkb : Type 0 where
  pub dev : Option ℕ
  pub skb_iif : ℕ
  pub protocol : ℕ
  pub header_set : Bool
  pub probe : ℕ → ℕ → Option Bytes

-- the maps of the object, and its slots of `obserwrt_stats`
pub record Tracer (M : Type 0) : Type 0 where
  pub drops : ℕ
  pub drops_unparsed : ℕ
  pub map : M

abbrev pub drop_key : DroppedSkb → ℕ → ℕ → Dropped → DropKey
drop_key skb ifindex reason d = record {
  flow = record {
    ifindex = ifindex;
    direction = if skb.skb_iif == ifindex then ingress else egress;
    family = d.family;
    protocol = d.protocol;
    reserved = 0;
    src = d.src;
    dst = d.dst;
    sport = d.transport.sport;
    dport = d.transport.dport;
    icmp_type = d.transport.icmp_type;
    icmp_code = d.transport.icmp_code;
  };
  reason = reason;
}

-- what the drop map takes in
unfoldable pub drop_value : Dropped → ℕ → Option FlowValue → FlowValue
drop_value d now none = record {
  packets = 1;
  bytes = d.l3len;
  first_seen = now;
  last_seen = now;
  tcp_flags = d.transport.tcp_flags;
  vlan_id = 0;
  tos = d.tos;
}
drop_value d now (some v) = record v {
  packets = add64 v.packets 1;
  bytes = add64 v.bytes d.l3len;
  tcp_flags = bit_or v.tcp_flags d.transport.tcp_flags;
  last_seen = now;
}

module _ {M : Type 0} (drop_map : HashMap DropKey FlowValue M) (is_attached : ℕ → Bool) where
  -- the end of `obserwrt_kfree_skb`: the drop map
  unfoldable pub record_drop : M → DropKey → Dropped → ℕ → M
  unfolding drop_value
  record_drop m k d now = elim (drop_map.lookup m k) [
    | some v ↦ drop_map.store m k (drop_value d now (some v))
    | none ↦ (drop_map.insert m k (drop_value d now none)).1
  ]

  -- `if (head && nh != (__u16)~0U) l3len = drop_parse(...)`, and none where it is 0
  unfoldable pub parsed_drop : DroppedSkb → Option Dropped
  unfolding drop_parse
  parsed_drop skb = if not skb.header_set then none else elim (drop_parse skb.probe skb.protocol) [
    | none ↦ none
    | some d ↦ if d.l3len == 0 then none else some d
  ]

  -- `obserwrt_kfree_skb`
  unfoldable pub kfree_skb : DroppedSkb → ℕ → ℕ → Tracer M → Tracer M
  unfolding record_drop parsed_drop
  kfree_skb skb reason now t = elim skb.dev [
    | none ↦ t
    | some ifindex ↦ if not (is_attached ifindex) then t else elim (parsed_drop skb) [
      | none ↦ record t { drops = add64 t.drops 1; drops_unparsed = add64 t.drops_unparsed 1 }
      | some d ↦ record t {
        drops = add64 t.drops 1;
        map = record_drop t.map (drop_key skb ifindex reason d) d now;
      }
    ]
  ]
