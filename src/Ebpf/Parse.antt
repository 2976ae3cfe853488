-- ===== src/Ebpf/Parse.antt =====
-- The packet parser of bpf/obserwrt-bpf.c.
use obserwrt.Prelude.{
  ℕ, zero, suc, ◌+◌, ◌*◌, ◌/◌, ◌%◌, Bool, true, false, ◌||◌, not, ◌==◌, ltb, if◌then◌else◌, length,
  Bytes,
}
use obserwrt.Ebpf.{Skb, Outcome, ok, leave, ◌>>=◌, ◌>>◌, need, byte, word}

abbrev pub class_ipv4 : ℕ
class_ipv4 = 0

abbrev pub class_ipv6 : ℕ
class_ipv6 = 1

abbrev pub class_arp : ℕ
class_arp = 2

abbrev pub class_other : ℕ
class_other = 3

abbrev pub eth_p_ip : ℕ
eth_p_ip = 0x0800

abbrev pub eth_p_arp : ℕ
eth_p_arp = 0x0806

abbrev pub eth_p_ipv6 : ℕ
eth_p_ipv6 = 0x86dd

-- ETH_P_8021Q and ETH_P_8021AD
abbrev pub is_vlan : ℕ → Bool
is_vlan et = et == 0x8100 || et == 0x88a8

-- the test on the outer EtherType
abbrev pub is_outer_vlan : ℕ → Bool
is_outer_vlan et = et == 0x8100 || et == 0x88a8 || et == 0x9100

-- the class of an EtherType
unfoldable pub class_of : ℕ → ℕ
class_of et =
    if et == eth_p_ip
    then class_ipv4
    else if et == eth_p_ipv6
    then class_ipv6
    else if et == eth_p_arp
    then class_arp
    else class_other

-- `pkt_class`
unfoldable pub pkt_class : Bytes → Bool → Outcome ℕ
unfolding byte word class_of
pkt_class p eth =
    if not eth
    then (if ltb (length p) 1 then ok class_other else do
      b ← byte p 0
      ok (if b / 16 == 4 then class_ipv4 else if b / 16 == 6 then class_ipv6 else class_other))
    else if ltb (length p) 14
    then ok class_other
    else do
      et ← word p 12
      if not (is_outer_vlan et)
          then ok (class_of et)
          else if ltb (length p) 18
          then ok class_other
          else do
            et' ← word p 16
            if not (is_vlan et')
                then ok (class_of et')
                else if ltb (length p) 22
                then ok class_other
                else do et'' ← word p 20; ok (class_of et'')

-- `ext_next`: the next header, 0 on a bound fault, and the pointer moved
unfoldable pub ext_next : Bytes → ℕ → Bool → Outcome (ℕ × ℕ)
unfolding byte
ext_next p l4 ah = if ltb (length p) (l4 + 8) then ok (0, l4) else do
  nh ← byte p l4
  len ← byte p (l4 + 1)
  let moved = l4 + (if ah then (len + 2) * 4 else (len + 1) * 8)
  if ltb (length p) moved then ok (0, moved) else ok (nh, moved)

-- `outer_vlan`
unfoldable pub outer_vlan : Skb → Outcome ℕ
unfolding word
outer_vlan skb =
    if skb.vlan_present
    then ok (skb.vlan_tci % 4096)
    else if ltb (length skb.bytes) 18
    then ok 0
    else do
      et ← word skb.bytes 12
      if not (is_outer_vlan et) then ok 0 else do tci ← word skb.bytes 14; ok (tci % 4096)

-- `if (et != ETH_P_IP && et != ETH_P_IPV6) return TC_ACT_OK;`
unfoldable pub ip_at : ℕ → ℕ → Outcome ℕ
ip_at et off = if et == eth_p_ip || et == eth_p_ipv6 then ok off else leave

-- the offset of the IP header, by the framing
unfoldable pub l3_offset : Bytes → Bool → Outcome ℕ
unfolding need word ip_at
l3_offset p eth = if not eth then ok 0 else do
  need p 14
  et ← word p 12
  if not (is_outer_vlan et) then ip_at et 14 else do
    need p 18
    et' ← word p 16
    if not (is_vlan et') then ip_at et' 18 else do need p 22; et'' ← word p 20; ip_at et'' 22

-- the variables that the IP parser sets
pub record Network : Type 0 where
  pub family : ℕ
  pub protocol : ℕ
  pub l4 : ℕ
  pub have_l4 : Bool

-- the IPv4 branch; the low bits of `ip[0]` are `b0`'s
unfoldable pub parse_v4 : Bytes → ℕ → ℕ → Outcome Network
unfolding need byte word
parse_v4 p ip b0 = do
  need p (ip + 20)
  let ihl = b0 % 16 * 4
  if ltb ihl 20 || ltb (length p) (ip + ihl) then leave else do
    proto ← byte p (ip + 9)
    frag ← word p (ip + 6)
    ok (record { family = 4; protocol = proto; l4 = ip + ihl; have_l4 = frag % 8192 == 0 })

abbrev pub max_ext_hdr : ℕ
max_ext_hdr = 8

-- hop-by-hop options, routing, destination options and AH
abbrev pub is_ext : ℕ → Bool
is_ext proto = proto == 0 || proto == 43 || proto == 60 || proto == 51

abbrev pub v6 : ℕ → ℕ → Bool → Network
v6 proto l4 have_l4 = record { family = 6; protocol = proto; l4 = l4; have_l4 = have_l4 }

-- the loop over the extension headers, on the rounds left
unfoldable pub ext_walk : ℕ → Bytes → ℕ → ℕ → Outcome Network
unfolding need byte word ext_next
ext_walk zero p proto l4 = ok (v6 proto l4 true)
ext_walk (suc rounds) p proto l4 =
    let walked = ext_next p l4 (proto == 51) >>= λ r. elim (r.0 == 0) [
      | true ↦ leave
      | false ↦ ext_walk rounds p r.0 r.1
    ] in
    let fragment = need p (l4 + 8) >>= λ _. word p (l4 + 2) >>= λ w. byte p l4 >>= λ nh.
    elim (w / 8 == 0) [
      | true ↦ ext_walk rounds p nh (l4 + 8)
      | false ↦ ok (v6 nh (l4 + 8) false)
    ] in
    if is_ext proto
    then walked
    else if proto == 44
    then fragment
    else if proto == 59
    then leave
    else ok (v6 proto l4 true)

-- the IPv6 branch
unfoldable pub parse_v6 : Bytes → ℕ → Outcome Network
unfolding need byte ext_walk
parse_v6 p ip = do need p (ip + 40); proto ← byte p (ip + 6); ext_walk max_ext_hdr p proto (ip + 40)

-- the parsing of the IP header
unfoldable pub parse_ip : Bytes → ℕ → Outcome Network
unfolding need byte parse_v4 parse_v6
parse_ip p ip = do
  need p (ip + 2)
  b0 ← byte p ip
  if b0 / 16 == 4 then parse_v4 p ip b0 else if b0 / 16 == 6 then parse_v6 p ip else leave

-- the variables that the L4 parser sets
pub record Transport : Type 0 where
  pub sport : ℕ
  pub dport : ℕ
  pub icmp_type : ℕ
  pub icmp_code : ℕ
  pub tcp_flags : ℕ
  pub l4hdr : ℕ

abbrev pub no_transport : Transport
no_transport = record {
  sport = 0;
  dport = 0;
  icmp_type = 0;
  icmp_code = 0;
  tcp_flags = 0;
  l4hdr = 0;
}

-- the L4 branches
unfoldable pub parse_l4 : Bytes → Network → Outcome Transport
unfolding need byte word
parse_l4 p n =
    if not n.have_l4
    then ok no_transport
    else if n.protocol == 6
    then (do
      need p (n.l4 + 14)
      s ← word p n.l4
      d ← word p (n.l4 + 2)
      flags ← byte p (n.l4 + 13)
      off ← byte p (n.l4 + 12)
      ok (record no_transport { sport = s; dport = d; tcp_flags = flags; l4hdr = off / 16 * 4 }))
    else if n.protocol == 17
    then (do
      need p (n.l4 + 4)
      s ← word p n.l4
      d ← word p (n.l4 + 2)
      ok (record no_transport { sport = s; dport = d; l4hdr = 8 }))
    else if n.protocol == 1 || n.protocol == 58
    then (do
      need p (n.l4 + 2)
      t ← byte p n.l4
      c ← byte p (n.l4 + 1)
      ok (record no_transport { icmp_type = t; icmp_code = c }))
    else ok no_transport
