-- ===== src/Lifecycle.antt =====
-- The periodic walk of the flow map (src/lifecycle.hpp, src/lifecycle.cpp).
-- The map behind `FlowMap` is a state of any type; what the exporter callback is handed is the list
-- `out`. An age is compared in nanoseconds where the code compares doubles of seconds: with a
-- timeout of at most 86400 s, as the configuration bounds it, both comparisons agree.
pub mod Growth
pub mod Scan
pub mod Accounting
use obserwrt.Prelude.{
  ℕ, zero, suc, ◌+◌, ◌-◌, ◌*◌, ◌%◌, ◌^◌, Bool, true, false, ◌||◌, not, Option, none, some, List, [],
  ◌∷◌, ◌++◌, ltb, leb, ◌==◌, if◌then◌else◌, find, put, erase, contains, keep_seen,
}
use obserwrt.Flow.{FlowKey, FlowValue, Delta, flow_key_eq}

-- `struct Timeouts`, in seconds
pub record Timeouts : Type 0 where
  pub tcp : ℕ
  pub udp : ℕ
  pub icmp : ℕ
  pub general : ℕ

-- `Lifecycle::Stats`
pub record Stats : Type 0 where
  pub active : ℕ
  pub expired : ℕ
  pub map : ℕ

-- `Lifecycle::Last`
pub record Last : Type 0 where
  pub packets : ℕ
  pub bytes : ℕ
  pub last_seen : ℕ

abbrev pub Tracker : Type 0
Tracker = List (FlowKey × Last)

-- the virtual functions of `FlowMap`, over the state of the implementing object
pub record FlowMap (S : Type 0) : Type 0 where
  pub reset : S → S
  pub next_key : S → Option (FlowKey × S)
  pub get : S → FlowKey → Option FlowValue
  pub delete_key : S → FlowKey → S

-- the arguments of one call of the exporter callback
pub record Export : Type 0 where
  pub key : FlowKey
  pub value : FlowValue
  pub expired : Bool
  pub delta : Delta

-- the variables of `Lifecycle::run`
pub record Pass (S : Type 0) : Type 0 where
  pub map : S
  pub last : Tracker
  pub seen : List FlowKey
  pub stats : Stats
  pub out : List Export

-- `Lifecycle::proto_timeout`
unfoldable pub proto_timeout : Timeouts → ℕ → ℕ
proto_timeout t proto =
    if proto == 6
    then t.tcp
    else if proto == 17
    then t.udp
    else if proto == 1 || proto == 58
    then t.icmp
    else t.general

-- `dp` and `db`: the 64-bit difference, read as signed; the whole counter where it is negative.
unfoldable pub growth : ℕ → ℕ → ℕ
growth v p0 = let d = (v + 2 ^ 64 - p0) % 2 ^ 64 in if ltb d (2 ^ 63) then d else v

-- `age_ns`, saturated at zero
unfoldable pub age_ns : ℕ → ℕ → ℕ
age_ns now last_seen = if leb last_seen now then now - last_seen else 0

-- `age_s > proto_timeout(key.protocol)`
unfoldable pub is_idle : Timeouts → ℕ → FlowKey → FlowValue → Bool
unfolding proto_timeout age_ns
is_idle t now k v = ltb (proto_timeout t k.protocol * 1000000000) (age_ns now v.last_seen)

abbrev pub last_packets : Option Last → ℕ
last_packets none = 0
last_packets (some l) = l.packets

abbrev pub last_bytes : Option Last → ℕ
last_bytes none = 0
last_bytes (some l) = l.bytes

-- `changed`
unfoldable pub changed : Option Last → FlowValue → Bool
changed none v = true
changed (some l) v =
    not (v.last_seen == l.last_seen) || not (v.packets == l.packets) || not (v.bytes == l.bytes)

abbrev pub mark : FlowValue → Last
mark v = record { packets = v.packets; bytes = v.bytes; last_seen = v.last_seen }

abbrev pub delta_since : Option Last → FlowValue → Delta
delta_since prev v = record {
  packets = growth v.packets (last_packets prev);
  bytes = growth v.bytes (last_bytes prev);
}

-- `n.expired++` of an `unsigned`
abbrev pub inc : ℕ → ℕ
inc n = (n + 1) % 2 ^ 32

-- the state of `run` before its loop
abbrev pub start : {S : Type 0} → S → Tracker → Pass S
start m last = record {
  map = m;
  last = last;
  seen = [];
  stats = record { active = 0; expired = 0; map = 0 };
  out = [];
}

module _ {S : Type 0} (fm : FlowMap S) (t : Timeouts) (now : ℕ) where
  -- the loop's body for a key whose value was read
  unfoldable pub visit : FlowKey → FlowValue → Pass S → Pass S
  visit k v p =
      let prev = find k p.last in
      let tracked = put k (mark v) p.last in
      let delta = delta_since prev v in
      if is_idle t now k v
      then record {
        map = fm.delete_key p.map k;
        last = erase k tracked;
        seen = k ∷ p.seen;
        stats = record {
          active = p.stats.active;
          expired = inc p.stats.expired;
          map = inc p.stats.map;
        };
        out = p.out ++ record { key = k; value = v; expired = true; delta = delta } ∷ [];
      }
      else record {
        map = p.map;
        last = tracked;
        seen = k ∷ p.seen;
        stats = record {
          active = inc p.stats.active;
          expired = p.stats.expired;
          map = inc p.stats.map;
        };
        out =
            if changed prev v
            then p.out ++ record { key = k; value = v; expired = false; delta = delta } ∷ []
            else p.out;
      }

  -- the `while` loop, with fuel; `none` means that the fuel ran out
  unfoldable pub walk : ℕ → Pass S → Option (Pass S)
  walk zero p = none
  walk (suc fuel) p = elim (fm.next_key p.map) [
    | none ↦ some p
    | some (k, m) ↦ elim (fm.get m k) [
      | none ↦ walk fuel (record p { map = m })
      | some v ↦ walk fuel (visit k v (record p { map = m }))
    ]
  ]

  -- the loop that drops the entries of flows not seen
  unfoldable pub prune : Pass S → Pass S
  prune p = record p { last = keep_seen p.seen p.last }

  -- `Lifecycle::run`
  unfoldable pub run : ℕ → S → Tracker → Option (Pass S)
  run fuel m last = elim (walk fuel (start (fm.reset m) last)) [
    | none ↦ none
    | some p ↦ some (prune p)
  ]
