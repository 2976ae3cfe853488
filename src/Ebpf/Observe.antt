-- ===== src/Ebpf/Observe.antt =====
-- `observe` of bpf/obserwrt-bpf.c and the counters that it keeps. The kernel's maps are parameters; the
-- slots that a per-CPU map has are taken as their sum, which is what the agent reads.
use obserwrt.Prelude.{
  ℕ, ◌+◌, ◌-◌, ◌*◌, ◌/◌, ◌%◌, ◌^◌, Bool, Option, none, some, List, [], ◌∷◌, ◌++◌, ◌==◌, ltb,
  if◌then◌else◌, Bytes, replicate, set, get_or,
}
use Prim.Native.Nat.{bit_or}
use obserwrt.Flow.{FlowKey, FlowValue}
use obserwrt.Ebpf.{Skb, Outcome, ok, leave, fault, ◌>>=◌, ◌>>◌, need, byte, block}
use obserwrt.Ebpf.Parse.{pkt_class, l3_offset, Network, parse_ip, Transport, parse_l4, outer_vlan}

-- the calls that the programs make on a hash map; `store` writes through the pointer of a lookup
pub record HashMap (K V M : Type 0) : Type 0 where
  pub lookup : M → K → Option V
  pub store : M → K → V → M
  pub insert : M → K → V → Bool × M

-- `struct dev_key`
pub record DevKey : Type 0 where
  pub ifindex : ℕ
  pub direction : ℕ

-- `struct dev_val`
pub record DevVal : Type 0 where
  pub packets : List ℕ
  pub bytes : List ℕ

-- the slots of `obserwrt_stats` that the TC programs count in
pub record Totals : Type 0 where
  pub packets : ℕ
  pub bytes : ℕ
  pub flows_created : ℕ
  pub parsed : ℕ

-- the maps of the object
pub record Kernel (F D : Type 0) : Type 0 where
  pub totals : Totals
  pub flows : F
  pub devstats : D

-- a 64-bit `+=`
abbrev pub add64 : ℕ → ℕ → ℕ
add64 a b = (a + b) % 2 ^ 64

-- `segs`
unfoldable pub segs_of : Skb → ℕ
segs_of skb = if skb.gso_segs == 0 then 1 else skb.gso_segs

abbrev pub zeros : List ℕ
zeros = 0 ∷ 0 ∷ 0 ∷ 0 ∷ []

-- `v->packets[cls] += segs`
unfoldable pub bump : List ℕ → ℕ → ℕ → List ℕ
bump xs cls n = set xs cls (add64 (get_or xs cls 0) n)

-- `ip4_to_in6` into a zeroed field
unfoldable pub ip4_to_in6 : Bytes → Bytes
ip4_to_in6 ip = replicate 10 0 ++ 255 ∷ 255 ∷ ip

-- what the parser knows of a packet that enters flow accounting
pub record Sighting : Type 0 where
  pub ip : ℕ
  pub network : Network
  pub transport : Transport

-- `observe` up to the flow accounting
unfoldable pub sight : Bytes → Bool → Outcome Sighting
unfolding need l3_offset parse_ip parse_l4
sight p eth = do
  need p 2
  ip ← l3_offset p eth
  n ← parse_ip p ip
  t ← parse_l4 p n
  ok (record { ip = ip; network = n; transport = t })

abbrev pub key_with : Skb → ℕ → Sighting → Bytes → Bytes → FlowKey
key_with skb direction s src dst = record {
  ifindex = skb.ifindex;
  direction = direction;
  family = s.network.family;
  protocol = s.network.protocol;
  reserved = 0;
  src = src;
  dst = dst;
  sport = s.transport.sport;
  dport = s.transport.dport;
  icmp_type = s.transport.icmp_type;
  icmp_code = s.transport.icmp_code;
}

-- the flow key
unfoldable pub key_of : Skb → ℕ → Sighting → Outcome FlowKey
unfolding block ip4_to_in6
key_of skb direction s =
    if s.network.family == 4
    then (do
      src ← block skb.bytes (s.ip + 12) 4
      dst ← block skb.bytes (s.ip + 16) 4
      ok (key_with skb direction s (ip4_to_in6 src) (ip4_to_in6 dst)))
    else (do
      src ← block skb.bytes (s.ip + 8) 16
      dst ← block skb.bytes (s.ip + 24) 16
      ok (key_with skb direction s src dst))

-- `l3len`, a 32-bit number
unfoldable pub l3len_of : Skb → Sighting → ℕ
unfolding segs_of
l3len_of skb s =
    let base = (skb.len + 2 ^ 32 - s.ip) % 2 ^ 32 in
    let segs = segs_of skb in
    if ltb 1 segs
    then (base + (segs - 1) * (s.network.l4 - s.ip + s.transport.l4hdr)) % 2 ^ 32
    else base

-- `nv.tos`
unfoldable pub tos_of : Skb → Sighting → Outcome ℕ
unfolding byte
tos_of skb s = do
  b0 ← byte skb.bytes s.ip
  b1 ← byte skb.bytes (s.ip + 1)
  ok (if s.network.family == 4 then b1 else b0 * 16 % 256 + b1 / 16)

-- the value of a new flow
unfoldable pub first_value : Skb → Bool → Sighting → ℕ → Outcome FlowValue
unfolding tos_of l3len_of segs_of outer_vlan
first_value skb eth s now = do
  vlan ← (if eth then outer_vlan skb else ok 0)
  tos ← tos_of skb s
  ok (record {
    packets = segs_of skb;
    bytes = l3len_of skb s;
    first_seen = now;
    last_seen = now;
    tcp_flags = s.transport.tcp_flags;
    vlan_id = vlan;
    tos = tos;
  })

-- the value of a known flow after the packet
unfoldable pub updated : Skb → Sighting → ℕ → FlowValue → FlowValue
unfolding l3len_of segs_of
updated skb s now v = record v {
  packets = add64 v.packets (segs_of skb);
  bytes = add64 v.bytes (l3len_of skb s);
  tcp_flags = bit_or v.tcp_flags s.transport.tcp_flags;
  last_seen = now;
}

-- the two additions of `obserwrt_dev_count`
unfoldable pub bump_class : Skb → ℕ → DevVal → DevVal
unfolding bump segs_of
bump_class skb cls v = record {
  packets = bump v.packets cls (segs_of skb);
  bytes = bump v.bytes cls skb.len;
}

module _ {F D : Type 0} (flow_map : HashMap FlowKey FlowValue F)
    (dev_map : HashMap DevKey DevVal D) where
  -- `obserwrt_dev_count`, with the class found
  unfoldable pub dev_count : D → Skb → ℕ → ℕ → D
  unfolding bump_class
  dev_count m skb direction cls =
      let k : DevKey = record { ifindex = skb.ifindex; direction = direction } in
      elim (dev_map.lookup m k) [
        | some v ↦ dev_map.store m k (bump_class skb cls v)
        | none ↦
            let (stored, m') = dev_map.insert m k (record { packets = zeros; bytes = zeros }) in
            elim (dev_map.lookup m' k) [
              | none ↦ m'
              | some v ↦ dev_map.store m' k (bump_class skb cls v)
            ]
      ]

  -- the counting at the start of `observe`
  unfoldable pub counted : Skb → ℕ → Bool → Kernel F D → Outcome (Kernel F D)
  unfolding dev_count pkt_class segs_of
  counted skb direction eth k = do
    cls ← pkt_class skb.bytes eth
    ok (record k {
      totals = record k.totals {
        packets = add64 k.totals.packets (segs_of skb);
        bytes = add64 k.totals.bytes skb.len;
      };
      devstats = dev_count k.devstats skb direction cls;
    })

  -- the flow accounting at the end of `observe`
  unfoldable pub account : Skb → ℕ → Bool → ℕ → Kernel F D → Sighting → Outcome (Kernel F D)
  unfolding key_of updated first_value segs_of
  account skb direction eth now k s =
      let totals = record k.totals { parsed = add64 k.totals.parsed (segs_of skb) } in
      key_of skb direction s >>= λ key. elim (flow_map.lookup k.flows key) [
        | some v ↦
            ok (record k {
              totals = totals;
              flows = flow_map.store k.flows key (updated skb s now v);
            })
        | none ↦ first_value skb eth s now >>= λ nv.
            let (stored, m) = flow_map.insert k.flows key nv in
            ok (record k {
              totals =
                  if stored
                  then record totals { flows_created = add64 totals.flows_created 1 }
                  else totals;
              flows = m;
            })
      ]

  -- `observe`; `none` is a read outside of the packet
  unfoldable pub observe : Skb → ℕ → Bool → ℕ → Kernel F D → Option (Kernel F D)
  unfolding counted sight account
  observe skb direction eth now k = elim (counted skb direction eth k) [
    | ok k₁ ↦ elim (sight skb.bytes eth >>= account skb direction eth now k₁) [
      | ok k₂ ↦ some k₂
      | leave ↦ some k₁
      | fault ↦ none
    ]
    | leave ↦ none
    | fault ↦ none
  ]
