-- ===== src/DropReasons/Laws.antt =====
-- Forwarding statuses and names of drops (src/drop_reasons.cpp).
use obserwrt.Prelude.{
  take, drop, length, bytes_eq, Bool, ◌∙◌, ℕ, ◌≤◌, ◌≡◌, refl, Option, none, some, List, [], ◌∷◌,
  ◌++◌, arith, ◌==◌, if◌then◌else◌, Bytes, codes, to_string, find, nat_eq, find-put, Option-cases,
  inl, inr,
}
use obserwrt.DropReasons.{
  starts_with, remove_prefix, has, Table, status_for_name, add, add_all, stripped, load, lookup,
  enumerators, drop_unknown,
}

-- the name of the last enumerator with a value
abbrev pub last_of : ℕ → List (ℕ × Bytes) → Option Bytes
last_of raw [] = none
last_of raw ((r, name) ∷ es) =
    let here : Option Bytes = if r == raw then some name else none in
    elim (last_of raw es) [ none ↦ here | some n ↦ some n ]

-- the reference: the name behind the kernel's prefix, where it has that prefix
abbrev pub short_name : Bytes → Bytes
short_name n = if bytes_eq (take 16 n) (codes "SKB_DROP_REASON_") then drop 16 n else n

-- how a rule finds the name it is for
pub data Rule : Type 0 where
  inside start whole : Bytes → Rule

abbrev pub applies : Bytes → Rule → Bool
applies n (inside part) = has n part
applies n (start part) = bytes_eq (take (length part) n) part
applies n (whole part) = bytes_eq n part

abbrev pub first_of : Bytes → List (Rule × ℕ) → ℕ
first_of n [] = 128
first_of n ((r, status) ∷ rs) = if applies n r then status else first_of n rs

-- RFC 7270's forwarding statuses of the class Dropped, by the first rule that applies
abbrev pub rules : List (Rule × ℕ)
rules =
    (inside (codes "NETFILTER"), 130)
    ∷ (start (codes "TC_"), 130)
    ∷ (start (codes "XDP"), 130)
    ∷ (inside (codes "RPFILTER"), 140)
    ∷ (inside (codes "NOROUTE"), 131)
    ∷ (inside (codes "CSUM"), 134)
    ∷ (whole (codes "PKT_TOO_BIG"), 133)
    ∷ (whole (codes "PKT_TOO_SMALL"), 135)
    ∷ (inside (codes "INHDR"), 136)
    ∷ (inside (codes "HDR_TRUNC"), 136)
    ∷ (inside (codes "BAD_EXTHDR"), 136)
    ∷ (whole (codes "INVALID_PROTO"), 136)
    ∷ (inside (codes "TTL"), 137)
    ∷ (inside (codes "HOP_LIMIT"), 137)
    ∷ (start (codes "NEIGH_"), 132)
    ∷ (start (codes "QDISC"), 139)
    ∷ (whole (codes "CPU_BACKLOG"), 139)
    ∷ (whole (codes "FULL_RING"), 139)
    ∷ (whole (codes "QUEUE_PURGE"), 139)
    ∷ (start (codes "DEV_"), 142)
    ∷ []

starts_with_lem : (s p : Bytes) → starts_with s p ≡ bytes_eq (take (length p) s) p
unfolding starts_with bytes_eq
starts_with_lem [] [] = refl
starts_with_lem (c ∷ cs) [] = refl
starts_with_lem [] (p ∷ ps) = refl
starts_with_lem (c ∷ cs) (p ∷ ps) = ground (arith, starts_with_lem cs ps)

remove_prefix_lem : (s p : Bytes) → remove_prefix s p ≡ drop (length p) s
unfolding remove_prefix
remove_prefix_lem [] [] = refl
remove_prefix_lem (c ∷ cs) [] = refl
remove_prefix_lem [] (p ∷ ps) = refl
remove_prefix_lem (c ∷ cs) (p ∷ ps) = remove_prefix_lem cs ps

stripped_lem : (n : Bytes) → stripped n ≡ short_name n
unfolding stripped
stripped_lem n =
    rw
      (starts_with_lem n (codes "SKB_DROP_REASON_"), remove_prefix_lem n (codes "SKB_DROP_REASON_"))
      refl

status_lem : (n : Bytes) → status_for_name n ≡ first_of n rules
unfolding status_for_name
status_lem n = ground (
  arith,
  starts_with_lem n (codes "TC_"),
  starts_with_lem n (codes "XDP"),
  starts_with_lem n (codes "NEIGH_"),
  starts_with_lem n (codes "QDISC"),
  starts_with_lem n (codes "DEV_"),
)

-- Every name gets a status of the class Dropped of RFC 7270 with a reason code that fits it.
pub status_bounds : (n : Bytes) → (128 ≤ status_for_name n) × (status_for_name n ≤ 143)
unfolding status_for_name
status_bounds n = ground arith

find-add_all :
    (es : List (ℕ × Bytes)) (t : Table) (raw : ℕ)
    → find raw (add_all es t) ≡ elim (last_of raw es) [
      | none ↦ find raw t
      | some n ↦
          some (record { name = stripped n; forwarding_status = status_for_name (stripped n) })
    ]
unfolding add_all add
find-add_all [] t raw = refl
find-add_all ((r, name) ∷ es) t raw = ground (
  arith,
  find-add_all es (add t r (stripped name)) raw,
  find-put r raw
      (record { name = stripped name; forwarding_status = status_for_name (stripped name) }) t,
)

lookup_lem :
    (es : List (ℕ × Bytes)) (raw : ℕ)
    → lookup (load (enumerators es) []).1 raw ≡ elim (last_of raw es) [
      | none ↦ record { name = codes "reason_" ++ to_string raw; forwarding_status = drop_unknown }
      | some n ↦ record { name = stripped n; forwarding_status = status_for_name (stripped n) }
    ]
unfolding lookup load find
lookup_lem es raw = ground (arith, find-add_all es [] raw)

-- After loading the kernel's enumerators a raw value resolves to the name last given for it, without
-- the prefix SKB_DROP_REASON_ if it has it, and to the status of the first rule that applies to that name; an unknown
-- value resolves to reason_<n> and the status 128.
pub lookup-load :
    (es : List (ℕ × Bytes)) (raw : ℕ)
    → lookup (load (enumerators es) []).1 raw ≡ elim (last_of raw es) [
      | none ↦ record { name = codes "reason_" ++ to_string raw; forwarding_status = 128 }
      | some n ↦ record { name = short_name n; forwarding_status = first_of (short_name n) rules }
    ]
lookup-load es raw = elim (Option-cases (last_of raw es)) [
  | inl e ↦ lookup_lem es raw ∙ rw e refl
  | inr (n, e) ↦ lookup_lem es raw ∙ rw (e, stripped_lem n, status_lem (short_name n)) refl
]

-- Whatever BTF holds, every drop is reported with a status from 128 to 143.
pub lookup_bounds :
    (es : List (ℕ × Bytes)) (raw : ℕ)
    → (128 ≤ (lookup (load (enumerators es) []).1 raw).forwarding_status)
      × ((lookup (load (enumerators es) []).1 raw).forwarding_status ≤ 143)
lookup_bounds es raw = elim (Option-cases (last_of raw es)) [
  | inl e ↦ rw (lookup_lem es raw) (rw e (omega arith))
  | inr (n, e) ↦ rw (lookup_lem es raw) (rw e (status_bounds (stripped n)))
]
