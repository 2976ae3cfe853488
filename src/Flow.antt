-- ===== src/Flow.antt =====
-- Flow key and value layouts (bpf/obserwrt-flow.h, src/flow.hpp, src/hash.cpp).
-- Fields are numbers within their C widths (`IsFlowKey`); the address fields are 16 bytes.
pub mod Layout
use obserwrt.Prelude.{
  ℕ, ◌*◌, ◌^◌, ◌<◌, ◌≡◌, refl, ◌↔◌, Bool, true, ◌&&◌, List, [], ◌∷◌, ◌++◌, arith, ◌==◌, length,
  Bytes, bytes_eq, bytes_eq_iff, Eq, le_bytes, be_bytes, if◌then◌else◌,
}

abbrev pub ingress : ℕ
ingress = 0

abbrev pub egress : ℕ
egress = 1

-- `struct flow_key`
pub record FlowKey : Type 0 where
  pub ifindex : ℕ
  pub direction : ℕ
  pub family : ℕ
  pub protocol : ℕ
  pub reserved : ℕ
  pub src : Bytes
  pub dst : Bytes
  pub sport : ℕ
  pub dport : ℕ
  pub icmp_type : ℕ
  pub icmp_code : ℕ

-- `struct flow_val`; the reserved bytes are always zero.
pub record FlowValue : Type 0 where
  pub packets : ℕ
  pub bytes : ℕ
  pub first_seen : ℕ
  pub last_seen : ℕ
  pub tcp_flags : ℕ
  pub vlan_id : ℕ
  pub tos : ℕ

-- `struct drop_key`
pub record DropKey : Type 0 where
  pub flow : FlowKey
  pub reason : ℕ

-- `struct DropInfo`
pub record DropInfo : Type 0 where
  pub forwarding_status : ℕ
  pub reason : Bytes

-- `struct Delta`
pub record Delta : Type 0 where
  pub packets : ℕ
  pub bytes : ℕ

-- The fields fit their C types.
pub record IsFlowKey (k : FlowKey) : Type 0 where
  pub ifindex_fits : k.ifindex < 256 ^ 4
  pub direction_fits : k.direction < 256
  pub family_fits : k.family < 256
  pub protocol_fits : k.protocol < 256
  pub reserved_fits : k.reserved < 256
  pub src_length : length k.src ≡ 16
  pub dst_length : length k.dst ≡ 16
  pub sport_fits : k.sport < 256 ^ 2
  pub dport_fits : k.dport < 256 ^ 2
  pub icmp_type_fits : k.icmp_type < 256
  pub icmp_code_fits : k.icmp_code < 256

pub record IsFlowValue (v : FlowValue) : Type 0 where
  pub packets_fits : v.packets < 256 ^ 8
  pub bytes_fits : v.bytes < 256 ^ 8
  pub first_seen_fits : v.first_seen < 256 ^ 8
  pub last_seen_fits : v.last_seen < 256 ^ 8
  pub tcp_flags_fits : v.tcp_flags < 256 ^ 2
  pub vlan_id_fits : v.vlan_id < 256 ^ 2
  pub tos_fits : v.tos < 256

pub record IsDelta (d : Delta) : Type 0 where
  pub packets_fits : d.packets < 256 ^ 8
  pub bytes_fits : d.bytes < 256 ^ 8

-- `operator==`, field by field.
unfoldable pub key_eq : FlowKey → FlowKey → Bool
key_eq a b =
    a.ifindex == b.ifindex
    && a.direction == b.direction
    && a.family == b.family
    && a.protocol == b.protocol
    && a.reserved == b.reserved
    && bytes_eq a.src b.src
    && bytes_eq a.dst b.dst
    && a.sport == b.sport
    && a.dport == b.dport
    && a.icmp_type == b.icmp_type
    && a.icmp_code == b.icmp_code

pub key_eq_iff : (a b : FlowKey) → (key_eq a b ≡ true) ↔ (a ≡ b)
unfolding key_eq
key_eq_iff a b = ground (arith, bytes_eq_iff a.src b.src, bytes_eq_iff a.dst b.dst)

instance abbrev pub flow_key_eq : Eq FlowKey
flow_key_eq = record { beq = key_eq; beq_iff = key_eq_iff }

-- A w-byte integer as the machine stores it.
unfoldable pub native_bytes : Bool → ℕ → ℕ → Bytes
native_bytes big w n = if big then be_bytes w n else le_bytes w n

-- The packed image of a key, at the header's offsets.
unfoldable pub key_bytes : Bool → FlowKey → Bytes
key_bytes big k =
    native_bytes big 4 k.ifindex
    ++ (k.direction
        ∷ k.family
        ∷ k.protocol
        ∷ k.reserved
        ∷ (k.src
            ++ (k.dst
                ++ (native_bytes big 2 k.sport
                    ++ (native_bytes big 2 k.dport ++ (k.icmp_type ∷ k.icmp_code ∷ []))))))

-- `sizeof(FlowKey)`, the struct being packed.
abbrev pub key_size : ℕ
key_size = 46

-- `flow_hash`; XXH3_64bits of the vendored library is a parameter.
unfoldable pub flow_hash : (Bytes → ℕ → ℕ) → Bytes → ℕ → ℕ
flow_hash xxh3 image len = xxh3 image len

-- `FlowKeyHash`
unfoldable pub key_hash : (Bytes → ℕ → ℕ) → Bool → FlowKey → ℕ
key_hash xxh3 big k = flow_hash xxh3 (key_bytes big k) key_size
