-- ===== src/Tests/Settings.antt =====
-- The configuration and the drop reasons on concrete texts.
use obserwrt.Prelude.{
  ℕ, ◌^◌, ◌≤◌, ◌≡◌, refl, none, some, List, [], ◌∷◌, ◌++◌, arith, ltb, if◌then◌else◌, Bytes, codes,
  bytes_eq, to_string, ◌⊎◌, inl,
}
use obserwrt.Config.{Config, Ini, ok, err, Error, Result, parse_uint}
use obserwrt.Config.Laws.{parse_uint-to_string}
use obserwrt.DropReasons.{lookup, load, enumerators}
use obserwrt.DropReasons.Laws.{last_of, short_name, first_of, rules, lookup-load, lookup_bounds}

abbrev ini : Ini
ini section key = if bytes_eq key (codes "max_flows") then to_string 4096 else []

abbrev any_file : Bytes → Result Ini
any_file path = ok ini

at_max_flows : ini (codes "main") (codes "max_flows") ≡ to_string 4096
unfolding bytes_eq
at_max_flows = refl

parse_uint-to_string_example :
    ((ini (codes "main") (codes "max_flows") ≡ to_string 4096)
      × (parse_uint ini (codes "main") (codes "max_flows") 0 (2 ^ 30) (codes "max_flows")
          ≡ (if ltb (2 ^ 30) 4096 then err (Error.out_of_range (codes "max_flows")) else ok 4096)))
    ⊎ ((ini (codes "main") (codes "max_flows") ≡ [])
        × (parse_uint ini (codes "main") (codes "max_flows") 0 (2 ^ 30) (codes "max_flows") ≡ ok 0))
parse_uint-to_string_example =
    parse_uint-to_string ini (codes "main") (codes "max_flows") 0 (2 ^ 30) (codes "max_flows") 4096
      (omega arith) (inl at_max_flows)

abbrev reasons : List (ℕ × Bytes)
reasons =
    (2, codes "SKB_DROP_REASON_NOT_SPECIFIED") ∷ (6, codes "SKB_DROP_REASON_NETFILTER_DROP") ∷ []

lookup-load_example : lookup (load (enumerators reasons) []).1 6 ≡ elim (last_of 6 reasons) [
  | none ↦ record { name = codes "reason_" ++ to_string 6; forwarding_status = 128 }
  | some n ↦ record { name = short_name n; forwarding_status = first_of (short_name n) rules }
]
lookup-load_example = lookup-load reasons 6

lookup_bounds_example :
    (128 ≤ (lookup (load (enumerators reasons) []).1 6).forwarding_status)
    × ((lookup (load (enumerators reasons) []).1 6).forwarding_status ≤ 143)
lookup_bounds_example = lookup_bounds reasons 6
