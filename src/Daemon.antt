-- ===== src/Daemon.antt =====
-- The daemon's reaction to link events (the lambdas of src/main.cpp). fnmatch is a parameter.
pub mod Links
pub mod Pass
pub mod Reports
pub mod Netlink
pub mod NetlinkAttrs
pub mod NetlinkTrip
pub mod Dump
pub mod DumpTrip
pub mod Loop
pub mod LoopKept
pub mod LoopLaws
pub mod Startup
pub mod StartupLaws
use obserwrt.Prelude.{
  ℕ, Bool, true, false, ◌&&◌, ◌||◌, not, Option, none, some, List, [], ◌∷◌, ◌==◌, ltb,
  if◌then◌else◌, Bytes, bytes_eq, find, erase, nat_eq,
}
use obserwrt.Bpf.{Libbpf, Bpf, Attached, ok, err}
use obserwrt.Bpf
use obserwrt.Config.{Config}

-- `struct LinkEvent` of src/reconcile.hpp
pub record LinkEvent : Type 0 where
  pub ifindex : ℕ
  pub ifname : Bytes
  pub type : ℕ
  pub present : Bool
  pub up : Bool

-- `link_is_ethernet` of src/reconcile.cpp: ARPHRD_ETHER is 1, ARPHRD_LOOPBACK is 772
unfoldable pub link_is_ethernet : ℕ → Bool
link_is_ethernet arphrd = arphrd == 1 || arphrd == 772

-- `match_device`
unfoldable pub match_device : (Bytes → Bytes → Bool) → Bytes → List Bytes → Bool
match_device fnmatch name [] = false
match_device fnmatch name (p ∷ ps) = fnmatch p name || match_device fnmatch name ps

-- `name_by_index[i] = name` of a std::map, which is ordered by its keys
unfoldable pub put_name : ℕ → Bytes → List (ℕ × Bytes) → List (ℕ × Bytes)
put_name i name [] = (i, name) ∷ []
put_name i name ((j, n) ∷ m) =
    if j == i
    then (i, name) ∷ m
    else if ltb i j
    then (i, name) ∷ (j, n) ∷ m
    else (j, n) ∷ put_name i name m

abbrev pub name_of : Option Bytes → Bytes
name_of none = []
name_of (some n) = n

-- `refresh_names`
unfoldable pub refresh_names : List (ℕ × Bytes) → List Bytes
refresh_names [] = []
refresh_names ((i, n) ∷ m) = n ∷ refresh_names m

-- the variables that the event handlers share
pub record Daemon (W : Type 0) : Type 0 where
  pub bpf : Bpf W
  pub name_by_index : List (ℕ × Bytes)
  pub attached_names : List Bytes

-- `else if (name_by_index[i] != ev.ifname) name_by_index[i] = ev.ifname`
unfoldable pub rename : ℕ → Bytes → List (ℕ × Bytes) → List (ℕ × Bytes)
unfolding put_name
rename i name m =
    let current = name_of (find i m) in
    let touched = put_name i current m in
    if bytes_eq current name then touched else put_name i name touched

module _ {W : Type 0} (lib : Libbpf W) (fnmatch : Bytes → Bytes → Bool) (walk_fuel : ℕ) where
  -- `wanted` of `on_link`
  unfoldable pub is_wanted : List Bytes → LinkEvent → Bool
  is_wanted devices ev = ev.present && ev.up && match_device fnmatch ev.ifname devices

  -- the branches of `on_link`; `none` means that the fuel of the purge ran out
  unfoldable pub react : List Bytes → LinkEvent → Daemon W → Option (Daemon W)
  react devices ev s =
      let wanted = is_wanted devices ev in
      let purged = Bpf.purge_ifindex lib walk_fuel (Bpf.detach lib s.bpf ev.ifindex) ev.ifindex in
      if Bpf.attached lib s.bpf ev.ifindex
      then (if not wanted
          then elim purged [
            | none ↦ none
            | some b ↦ some (record s { bpf = b; name_by_index = erase ev.ifindex s.name_by_index })
          ]
          else some (record s { name_by_index = rename ev.ifindex ev.ifname s.name_by_index }))
      else if wanted
      then (let (r, b) = Bpf.attach lib s.bpf ev.ifindex (link_is_ethernet ev.type) in
          elim r [
            | ok warn ↦ some (record s {
              bpf = b;
              name_by_index = put_name ev.ifindex ev.ifname s.name_by_index;
            })
            | err e ↦ some (record s { bpf = b })
          ])
      else some s

  -- `on_link`
  unfoldable pub on_link : List Bytes → LinkEvent → Daemon W → Option (Daemon W)
  unfolding react
  on_link devices ev s = elim (react devices ev s) [
    | none ↦ none
    | some s' ↦ some (record s' { attached_names = refresh_names s'.name_by_index })
  ]
