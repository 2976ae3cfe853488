-- ===== src/Timeline/Measure.antt =====
-- The two counters of a flow, packets and bytes, from the wire to the deltas (bpf/obserwrt-bpf.c,
-- src/lifecycle.cpp).
use obserwrt.Prelude.{ℕ, ◌+◌, ◌^◌, ◌≤◌, ◌<◌, ◌≡◌, refl, Option, none, some, if◌then◌else◌}
use obserwrt.Flow.{FlowKey, FlowValue, Delta, flow_key_eq}
use obserwrt.Ebpf.Observe.{HashMap, DevKey, DevVal, Kernel, add64}
use obserwrt.Ebpf.Counters.{
  IsHashMap, IsCounted, belongs, octets, wire_segments, packets_in, bytes_in,
}
use obserwrt.Lifecycle.{FlowMap, Timeouts, Last, mark, last_packets, last_bytes}
use obserwrt.Lifecycle.Accounting.{contribution, contribution-packets, contribution-bytes}
use obserwrt.Timeline.{Arrival}

-- one of the two counters of a flow, as the packets, the map, the tracker and the deltas have it
pub record Measure {W D : Type 0} (flow_map : HashMap FlowKey FlowValue W)
    (dev_map : HashMap DevKey DevVal D) : Type 1 where
  pub wire : Arrival → ℕ
  pub held : Option FlowValue → ℕ
  pub tracked : Option Last → ℕ
  pub part : Delta → ℕ
  pub held_none : held none ≡ 0
  pub tracked_none : tracked none ≡ 0
  pub tracked_mark : (v : FlowValue) → tracked (some (mark v)) ≡ held (some v)
  pub contributes :
      {S : Type 0} (fm : FlowMap S) (t : Timeouts) (now : ℕ) (k : FlowKey) (prev : Option Last)
      (v : FlowValue)
      → held (some v) < 2 ^ 63
      → tracked prev ≤ held (some v)
      → contribution fm t now part k prev v + tracked prev ≡ held (some v)
  pub counts :
      (a : Arrival) (laws : IsHashMap flow_map) (w w' : Kernel W D) (k : FlowKey)
      → IsCounted flow_map dev_map laws a.skb a.direction a.eth w w'
      → held (flow_map.lookup w'.flows k) ≡ (
          if belongs a.skb a.direction a.eth k
          then add64 (held (flow_map.lookup w.flows k)) (wire a)
          else held (flow_map.lookup w.flows k))

abbrev pub wire_packets : Arrival → ℕ
wire_packets a = wire_segments a.skb

abbrev pub wire_octets : Arrival → ℕ
wire_octets a = octets a.skb a.eth

module _ {W D : Type 0} (flow_map : HashMap FlowKey FlowValue W)
    (dev_map : HashMap DevKey DevVal D) where
  abbrev pub by_packets : Measure flow_map dev_map
  by_packets = record {
    wire = wire_packets;
    held = packets_in;
    tracked = last_packets;
    part = λ d. d.packets;
    held_none = refl;
    tracked_none = refl;
    tracked_mark = λ v. refl;
    contributes = contribution-packets;
    counts = λ a laws w w' k c. c.flow_packets k;
  }

  abbrev pub by_bytes : Measure flow_map dev_map
  by_bytes = record {
    wire = wire_octets;
    held = bytes_in;
    tracked = last_bytes;
    part = λ d. d.bytes;
    held_none = refl;
    tracked_none = refl;
    tracked_mark = λ v. refl;
    contributes = contribution-bytes;
    counts = λ a laws w w' k c. c.flow_bytes k;
  }
