-- ===== src/Bpf/Stats.antt =====
-- The readers of the per-CPU statistics: read_dev_counters, Bpf::dev_counters, Bpf::take_drops,
-- Bpf::map_limit and Bpf::bpf_stats of src/bpf.cpp. libbpf is a parameter.
use obserwrt.Prelude.{
  ℕ, zero, suc, Bool, true, false, Option, none, some, List, [], ◌∷◌, ◌==◌, if◌then◌else◌,
}
use obserwrt.Flow.{FlowValue, DropKey}
use obserwrt.Ebpf.Observe.{DevKey, DevVal, add64, zeros}
use obserwrt.Metrics.{DevCounters}
use obserwrt.Bpf.BatchWalk.{Batch, Vectors, batch_read}
use obserwrt.Bpf.{Bpf}

-- what bpf_map_get_next_key tells: a key, ENOENT behind the last one, or another errno
pub data NextKey : Type 0 where
  key : DevKey → NextKey
  enoent : NextKey
  fault : ℕ → NextKey

-- the calls of libbpf
pub record StatsCalls (W : Type 0) : Type 0 where
  -- libbpf_num_possible_cpus; 0 stands for all that is not positive
  pub cpus : W → ℕ
  -- bpf_map_get_next_key on the device counters, without a key at first
  pub next_key : W → Option DevKey → NextKey
  -- bpf_map_lookup_elem on the device counters, and on a slot of the statistics: a value for each CPU
  pub lookup_dev : W → DevKey → Option (List DevVal)
  pub lookup_stat : W → ℕ → Option (List ℕ)
  -- bpf_obj_get_info_by_fd on the flow map: its max_entries
  pub flows_entries : W → Option ℕ
  -- BPF_MAP_LOOKUP_AND_DELETE_BATCH on the drop map
  pub drops_batch : W → Option ℕ → ℕ → Batch DropKey FlowValue × W

-- the loop over the classes, `d[c] += v[c]`
unfoldable pub add_classes : List ℕ → List ℕ → List ℕ
add_classes [] vs = []
add_classes (d ∷ ds) [] = d ∷ ds
add_classes (d ∷ ds) (v ∷ vs) = add64 d v ∷ add_classes ds vs

-- the loop over the slots
unfoldable pub sum_slots : DevCounters → List DevVal → DevCounters
unfolding add_classes
sum_slots d [] = d
sum_slots d (v ∷ vs) =
    sum_slots
      (record d { packets = add_classes d.packets v.packets; bytes = add_classes d.bytes v.bytes })
      vs

-- `d`, zeroed, for a key
abbrev pub fresh_counters : DevKey → DevCounters
fresh_counters k = record {
  ifindex = k.ifindex;
  direction = k.direction;
  packets = zeros;
  bytes = zeros;
}

-- the loop `out[i] += v`
unfoldable pub sum_cpus : ℕ → List ℕ → ℕ
sum_cpus acc [] = acc
sum_cpus acc (v ∷ vs) = sum_cpus (add64 acc v) vs

-- what a lookup adds to `out`; a key deleted meanwhile adds nothing
abbrev pub counters_of : DevKey → Option (List DevVal) → List DevCounters → List DevCounters
counters_of k none out = out
counters_of k (some slots) out = sum_slots (fresh_counters k) slots ∷ out

abbrev pub with_counters :
    DevKey
    → Option (List DevVal)
    → Option (Bool × List DevCounters)
    → Option (Bool × List DevCounters)
with_counters k slots none = none
with_counters k slots (some (done, out)) = some (done, counters_of k slots out)

module _ {W : Type 0} (calls : StatsCalls W) where
  -- The loop of `read_dev_counters` from a key on, with fuel: what is still pushed to `out`, and
  -- whether the end was reached. `none` means that the fuel ran out.
  unfoldable pub dev_walk : ℕ → W → Option DevKey → Option (Bool × List DevCounters)
  dev_walk zero w cur = none
  dev_walk (suc fuel) w cur = elim (calls.next_key w cur) [
    | enoent ↦ some (true, [])
    | fault e ↦ some (false, [])
    | key k ↦ with_counters k (calls.lookup_dev w k) (dev_walk fuel w (some k))
  ]

  -- `read_dev_counters`
  unfoldable pub read_dev_counters : ℕ → W → Option (Bool × List DevCounters)
  read_dev_counters fuel w = if calls.cpus w == 0 then some (false, []) else dev_walk fuel w none

  -- `Bpf::dev_counters`
  unfoldable pub dev_counters : ℕ → Bpf W → Option (Bool × List DevCounters)
  dev_counters fuel b = if b.loaded then read_dev_counters fuel b.world else some (false, [])

  -- `Bpf::take_drops`
  unfoldable pub take_drops : ℕ → Bpf W → Option (Bool × Vectors DropKey FlowValue × Bpf W)
  take_drops fuel b =
      if b.tracer
      then elim (batch_read calls.drops_batch fuel b.world) [
        | none ↦ none
        | some (done, vs, w) ↦ some (done, vs, record b { world = w })
      ]
      else some (true, record { keys = []; values = [] }, b)

  abbrev pub limit_of : Option ℕ → ℕ
  limit_of none = 0
  limit_of (some n) = n

  -- `Bpf::map_limit`
  unfoldable pub map_limit : Bpf W → ℕ
  map_limit b = if b.loaded then limit_of (calls.flows_entries b.world) else 0

  abbrev pub stat_of : Option (List ℕ) → ℕ
  stat_of none = 0
  stat_of (some slots) = sum_cpus 0 slots

  -- one round of the loop of `bpf_stats`
  unfoldable pub stat : Bpf W → ℕ → ℕ
  unfolding sum_cpus
  stat b i =
      if b.loaded
      then (if calls.cpus b.world == 0 then 0 else stat_of (calls.lookup_stat b.world i))
      else 0

  -- `Bpf::bpf_stats`: the slots up to STAT_COUNT
  unfoldable pub bpf_stats : Bpf W → List ℕ
  bpf_stats b = stat b 0 ∷ stat b 1 ∷ stat b 2 ∷ stat b 3 ∷ stat b 4 ∷ stat b 5 ∷ []
