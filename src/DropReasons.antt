-- ===== src/DropReasons.antt =====
-- Kernel drop reasons (src/drop_reasons.hpp, src/drop_reasons.cpp). The enumerators of
-- skb_drop_reason come from the kernel's BTF through libbpf: `load` takes them as a list.
pub mod Laws
use obserwrt.Prelude.{
  ℕ, Bool, true, false, ◌&&◌, ◌||◌, Option, none, some, List, [], ◌∷◌, ◌++◌, ◌==◌, if◌then◌else◌,
  Bytes, bytes_eq, codes, to_string, find, put, nat_eq,
}

-- `starts_with`
unfoldable pub starts_with : Bytes → Bytes → Bool
starts_with s [] = true
starts_with [] (p ∷ ps) = false
starts_with (c ∷ cs) (p ∷ ps) = c == p && starts_with cs ps

-- `has`
unfoldable pub has : Bytes → Bytes → Bool
unfolding starts_with
has [] part = starts_with [] part
has (c ∷ cs) part = starts_with (c ∷ cs) part || has cs part

-- `remove_prefix`
unfoldable pub remove_prefix : Bytes → Bytes → Bytes
remove_prefix s [] = s
remove_prefix [] (p ∷ ps) = []
remove_prefix (c ∷ cs) (p ∷ ps) = remove_prefix cs ps

abbrev pub prefix : Bytes
prefix = codes "SKB_DROP_REASON_"

abbrev pub drop_unknown : ℕ
drop_unknown = 128

abbrev pub drop_acl_drop : ℕ
drop_acl_drop = 130

-- `DropReasons::Reason`
pub record Reason : Type 0 where
  pub name : Bytes
  pub forwarding_status : ℕ

-- `DropReasons::status_for_name`
unfoldable pub status_for_name : Bytes → ℕ
status_for_name n =
    if has n (codes "NETFILTER") || starts_with n (codes "TC_") || starts_with n (codes "XDP")
    then drop_acl_drop
    else if has n (codes "RPFILTER")
    then 140
    else if has n (codes "NOROUTE")
    then 131
    else if has n (codes "CSUM")
    then 134
    else if bytes_eq n (codes "PKT_TOO_BIG")
    then 133
    else if bytes_eq n (codes "PKT_TOO_SMALL")
    then 135
    else if has n (codes "INHDR")
        || has n (codes "HDR_TRUNC")
        || has n (codes "BAD_EXTHDR")
        || bytes_eq n (codes "INVALID_PROTO")
    then 136
    else if has n (codes "TTL") || has n (codes "HOP_LIMIT")
    then 137
    else if starts_with n (codes "NEIGH_")
    then 132
    else if starts_with n (codes "QDISC")
        || bytes_eq n (codes "CPU_BACKLOG")
        || bytes_eq n (codes "FULL_RING")
        || bytes_eq n (codes "QUEUE_PURGE")
    then 139
    else if starts_with n (codes "DEV_")
    then 142
    else drop_unknown

-- `by_value_`
abbrev pub Table : Type 0
Table = List (ℕ × Reason)

-- `add`
unfoldable pub add : Table → ℕ → Bytes → Table
add t raw name = put raw (record { name = name; forwarding_status = status_for_name name }) t

-- the name that `load` registers
unfoldable pub stripped : Bytes → Bytes
stripped name = if starts_with name prefix then remove_prefix name prefix else name

-- the loop of `load`
unfoldable pub add_all : List (ℕ × Bytes) → Table → Table
unfolding add stripped
add_all [] t = t
add_all ((raw, name) ∷ es) t = add_all es (add t raw (stripped name))

pub data LoadError : Type 0 where
  no_btf no_enum : LoadError

-- what libbpf finds: no BTF, no such enum, or the enumerators
pub data Btf : Type 0 where
  missing without_enum : Btf
  enumerators : List (ℕ × Bytes) → Btf

-- `load`
unfoldable pub load : Btf → Table → Option LoadError × Table
load missing t = (some no_btf, t)
load without_enum t = (some no_enum, t)
load (enumerators es) t = (none, add_all es t)

-- `lookup`
unfoldable pub lookup : Table → ℕ → Reason
lookup t raw = elim (find raw t) [
  | none ↦ record { name = codes "reason_" ++ to_string raw; forwarding_status = drop_unknown }
  | some r ↦ r
]
