-- ===== src/Metrics.antt =====
-- Self-observability (src/metrics.hpp, src/metrics.cpp). The file calls are parameters: what open, each
-- write, and rename answer.
pub mod Textfile
use obserwrt.Prelude.{
  ℕ, zero, suc, ◌+◌, ◌-◌, ◌%◌, ◌^◌, Bool, true, false, not, Option, none, some, List, [], ◌∷◌, ◌++◌,
  ◌==◌, ltb, if◌then◌else◌, Bytes, codes, length, take, drop, get_or,
}
use obserwrt.Flow.{ingress}
use obserwrt.Config.{Config, is_empty}
use obserwrt.Text.{PromExposition, labels, counter, gauge}

-- `struct DevCounters` of src/flow.hpp
pub record DevCounters : Type 0 where
  pub ifindex : ℕ
  pub direction : ℕ
  pub packets : List ℕ
  pub bytes : List ℕ

-- `struct DeviceCounters`
pub record DeviceCounters : Type 0 where
  pub ifname : Bytes
  pub counters : DevCounters

-- What `build_info` tells (src/version.hpp).
pub record BuildInfo : Type 0 where
  pub version : Bytes
  pub commit : Bytes
  pub os : Bytes
  pub arch : Bytes

-- `class Metrics`
pub record Metrics : Type 0 where
  pub is_active : Bool
  pub file : Bytes
  pub interval_s : ℕ
  pub total_flows : ℕ
  pub total_errors : ℕ
  pub flows_active : ℕ
  pub map_entries : ℕ
  pub bpf_packets : ℕ
  pub bpf_bytes : ℕ
  pub bpf_accounted : ℕ
  pub bpf_flows_created : ℕ
  pub bpf_drops : ℕ
  pub bpf_drops_unparsed : ℕ
  pub map_limit : ℕ
  pub devices : List Bytes
  pub dev_counters : List DeviceCounters

-- `init`
unfoldable pub init : Metrics → Config → Metrics
init m cfg = record m {
  file = cfg.prometheus_textfile;
  interval_s = cfg.prometheus_interval;
  is_active = not (is_empty cfg.prometheus_textfile);
}

-- `observe`
unfoldable pub observe : Metrics → Metrics
observe m = if m.is_active then record m { total_flows = (m.total_flows + 1) % 2 ^ 64 } else m

-- `record_error`
unfoldable pub record_error : Metrics → Metrics
record_error m =
    if m.is_active then record m { total_errors = (m.total_errors + 1) % 2 ^ 64 } else m

-- `record_errors`
unfoldable pub record_errors : Metrics → ℕ → Metrics
record_errors m n =
    if m.is_active then record m { total_errors = (m.total_errors + n) % 2 ^ 64 } else m

-- `set_state`
unfoldable pub set_state : Metrics → ℕ → ℕ → List Bytes → Metrics
set_state m flows_active map_entries devices =
    if not m.is_active
    then m
    else record m { flows_active = flows_active; map_entries = map_entries; devices = devices }

-- `set_bpf`
unfoldable pub set_bpf : Metrics → ℕ → ℕ → ℕ → ℕ → Metrics
set_bpf m packets bytes accounted flows_created = if not m.is_active then m else record m {
  bpf_packets = packets;
  bpf_bytes = bytes;
  bpf_accounted = accounted;
  bpf_flows_created = flows_created;
}

-- `set_drops`
unfoldable pub set_drops : Metrics → ℕ → ℕ → Metrics
set_drops m drops unparsed =
    if not m.is_active then m else record m { bpf_drops = drops; bpf_drops_unparsed = unparsed }

-- `set_devices`
unfoldable pub set_devices : Metrics → List DeviceCounters → Metrics
set_devices m devices = if not m.is_active then m else record m { dev_counters = devices }

-- `set_map_limit`
unfoldable pub set_map_limit : Metrics → ℕ → Metrics
set_map_limit m limit = if not m.is_active then m else record m { map_limit = limit }

-- `CLASSES`
abbrev pub class_names : List Bytes
class_names = codes "ipv4" ∷ codes "ipv6" ∷ codes "arp" ∷ codes "other" ∷ []

-- `dev_labels`
unfoldable pub dev_labels : DeviceCounters → ℕ → Bytes
dev_labels d cls = labels (
    (codes "ifname", d.ifname)
    ∷ (
      codes "direction",
      if d.counters.direction == ingress then codes "ingress" else codes "egress",
    )
    ∷ (codes "class", get_or class_names cls [])
    ∷ [])

-- the loop over the attached names
unfoldable pub device_gauges : PromExposition → List Bytes → PromExposition
device_gauges px [] = px
device_gauges px (d ∷ ds) =
    device_gauges
      (gauge px (codes "obserwrt_device_attached") (codes "Attached netdev (1 if attached).")
        (labels ((codes "ifname", d) ∷ [])) 1)
      ds

-- the four samples of a device for a family
unfoldable pub class_counters :
    Bytes → Bytes → PromExposition → DeviceCounters → List ℕ → PromExposition
unfolding dev_labels
class_counters name help px d values =
    let c = λ (p : PromExposition) (cls : ℕ).
      counter p name help (dev_labels d cls) (get_or values cls 0) in
    c (c (c (c px 0) 1) 2) 3

-- a loop over the device counters
unfoldable pub device_counters :
    Bytes → Bytes → (DevCounters → List ℕ) → PromExposition → List DeviceCounters → PromExposition
unfolding class_counters
device_counters name help field px [] = px
device_counters name help field px (d ∷ ds) =
    device_counters name help field (class_counters name help px d (field d.counters)) ds

-- the families that stand for one number each
unfoldable pub scalar_samples : Metrics → BuildInfo → PromExposition
scalar_samples m b =
    let px₀ : PromExposition = record { declared = []; out = [] } in
    let px₁ =
      gauge px₀ (codes "obserwrt_build_info") (codes "Build and version information.")
        (labels (
          (codes "version", b.version)
          ∷ (codes "commit", b.commit)
          ∷ (codes "os", b.os)
          ∷ (codes "arch", b.arch)
          ∷ []))
        1 in
    let px₂ =
      counter px₁ (codes "obserwrt_flows_exported_total")
        (codes "Flow records dispatched to exporters.") [] m.total_flows in
    let px₃ =
      counter px₂ (codes "obserwrt_export_errors_total") (codes "Export/lifecycle failures.") []
        m.total_errors in
    let px₄ =
      counter px₃ (codes "obserwrt_packets_total") (codes "Packets seen at TC (all, incl. non-IP).")
        [] m.bpf_packets in
    let px₅ =
      counter px₄ (codes "obserwrt_bytes_total") (codes "Bytes seen at TC (all).") [] m.bpf_bytes in
    let px₆ =
      counter px₅ (codes "obserwrt_packets_accounted_total")
        (codes "Packets that entered flow accounting (IP).") [] m.bpf_accounted in
    let px₇ =
      counter px₆ (codes "obserwrt_flows_created_total")
        (codes "Flow entries created in the BPF map.") [] m.bpf_flows_created in
    let px₈ =
      counter px₇ (codes "obserwrt_drops_total")
        (codes "Packets the kernel dropped on attached devices (drop tracer).") [] m.bpf_drops in
    let px₉ =
      counter px₈ (codes "obserwrt_drops_unparsed_total")
        (codes "Dropped packets not exported (not IPv4/IPv6 or no network header).") []
        m.bpf_drops_unparsed in
    let px₁₀ =
      gauge px₉ (codes "obserwrt_flows_active") (codes "Currently live flows.") [] m.flows_active in
    let px₁₁ =
      gauge px₁₀ (codes "obserwrt_bpf_map_entries") (codes "Current flow map entries.") []
        m.map_entries in
    let px₁₂ =
      gauge px₁₁ (codes "obserwrt_bpf_map_limit") (codes "Flow map capacity (LRU).") []
        m.map_limit in
    gauge px₁₂ (codes "obserwrt_devices_attached") (codes "Number of attached netdevs.") []
      (length m.devices)

-- the text of `write`
unfoldable pub exposition : Metrics → BuildInfo → Bytes
unfolding scalar_samples device_gauges device_counters
exposition m b =
    let px₁ = device_gauges (scalar_samples m b) m.devices in
    let px₂ =
      device_counters (codes "obserwrt_device_packets_total")
        (codes "Packets seen at TC per device, direction and class.") (λ c. c.packets) px₁
        m.dev_counters in
    (device_counters (codes "obserwrt_device_bytes_total")
      (codes "Bytes seen at TC per device, direction and class.") (λ c. c.bytes) px₂
      m.dev_counters).out

-- the textfile and its temporary file: the contents, none where there is no such file
pub record Files : Type 0 where
  pub target : Option Bytes
  pub tmp : Option Bytes

-- what the calls answer: each write takes some bytes or fails (none)
pub record FileCalls : Type 0 where
  pub opens : Bool
  pub writes : List (Option ℕ)
  pub renames : Bool

-- the loop over `::write`: what is written, and whether all of it; `none` means that the loop still runs
-- when the answers end
unfoldable pub write_loop : List (Option ℕ) → Bytes → Bytes → Option (Bytes × Bool)
write_loop answers done [] = some (done, true)
write_loop [] done (b ∷ rest) = none
write_loop (none ∷ answers) done (b ∷ rest) = some (done, false)
write_loop (some n ∷ answers) done (b ∷ rest) =
    write_loop answers (done ++ take n (b ∷ rest)) (drop n (b ∷ rest))

-- the end of `write`, with the text
unfoldable pub replace_file : FileCalls → Bytes → Files → Option Files
unfolding write_loop
replace_file calls text fs =
    if not calls.opens then some fs else elim (write_loop calls.writes [] text) [
      | none ↦ none
      | some (written, complete) ↦
          if not complete
          then some (record fs { tmp = none })
          else if calls.renames
          then some (record { target = some written; tmp = none })
          else some (record fs { tmp = none })
    ]

-- `write`
unfoldable pub write : Metrics → BuildInfo → FileCalls → Files → Option Files
unfolding replace_file exposition
write m b calls fs = if not m.is_active then some fs else replace_file calls (exposition m b) fs
