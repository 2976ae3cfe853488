-- ===== src/Timeline.antt =====
-- The agent at work: packets that pass the TC programs (bpf/obserwrt-bpf.c) and passes of
-- Lifecycle::run over BpfFlowMap (src/lifecycle.cpp, src/bpf.cpp), in any order, over one flow map.
-- `W` is the state of that map in the kernel; a pass is one event, so that no packet comes between
-- its snapshot and its deletions.
pub mod Passing
pub mod Measure
pub mod Exactness
use obserwrt.Prelude.{
  ℕ, ◌+◌, ◌<◌, ◌≡◌, Bool, Option, none, some, List, [], ◌∷◌, ◌++◌, if◌then◌else◌, length, find,
}
use obserwrt.Flow.{FlowKey, FlowValue, flow_key_eq}
use obserwrt.Ebpf.{Skb}
use obserwrt.Ebpf.Observe.{HashMap, DevKey, DevVal, Kernel, observe}
use obserwrt.Ebpf.Keys.{IsSkb}
use obserwrt.Ebpf.Counters.{IsHashMap, belongs}
use obserwrt.Lifecycle.{Pass, Timeouts, Tracker, Export, run}
use obserwrt.Lifecycle.Scan.{Distinct}
use obserwrt.Bpf.BatchWalk.{IsBatchLookup}
use obserwrt.Bpf.Purge.{HasFlows}
use obserwrt.Bpf.Snapshot.{BpfFlowMap, bpf_flow_map}
use obserwrt.Bpf.{Libbpf}

-- a packet at a TC hook: what it holds, its direction, whether it has an Ethernet header, the time
pub record Arrival : Type 0 where
  pub skb : Skb
  pub direction : ℕ
  pub eth : Bool
  pub now : ℕ

pub data Event : Type 0 where
  packet : Arrival → Event
  tick : ℕ → Event

-- the kernel's part, the agent's view of the map, what it tracks, and what it has exported
pub record System (W D : Type 0) : Type 0 where
  pub kernel : Kernel W D
  pub map : BpfFlowMap W
  pub last : Tracker
  pub out : List Export

-- The programs and the agent use one hash map: libbpf's calls read and delete what the programs
-- store, and a batched walk hands out each entry once.
pub record IsShared {W : Type 0} (lib : Libbpf W) (flow_map : HashMap FlowKey FlowValue W)
    : Type 1 where
  pub laws : IsHashMap flow_map
  pub deletes : HasFlows lib
  pub same : (w : W) (k : FlowKey) → flow_map.lookup w k ≡ lib.flows_lookup w k
  pub contents : W → List (FlowKey × FlowValue)
  pub batch : (w : W) → IsBatchLookup lib.flows_batch w (contents w)
  pub distinct : (w : W) → Distinct (contents w)
  pub find-contents : (w : W) (k : FlowKey) → find k (contents w) ≡ lib.flows_lookup w k

module _ {W D : Type 0} (lib : Libbpf W) (flow_map : HashMap FlowKey FlowValue W)
    (dev_map : HashMap DevKey DevVal D) (walk_fuel fuel : ℕ) (t : Timeouts) where
  -- the agent reads the map as it stands now
  abbrev pub view : System W D → BpfFlowMap W
  view s = record s.map { bpf = record s.map.bpf { world = s.kernel.flows } }

  abbrev pub after_packet : System W D → Option (Kernel W D) → Option (System W D)
  after_packet s none = none
  after_packet s (some k) = some (record s { kernel = k })

  abbrev pub after_tick : System W D → Option (Pass (BpfFlowMap W)) → Option (System W D)
  after_tick s none = none
  after_tick s (some p) = some (record {
    kernel = record s.kernel { flows = p.map.bpf.world };
    map = p.map;
    last = p.last;
    out = s.out ++ p.out;
  })

  unfoldable pub step : Event → System W D → Option (System W D)
  step (packet a) s =
      after_packet s (observe flow_map dev_map a.skb a.direction a.eth a.now s.kernel)
  step (tick now) s = after_tick s (run (bpf_flow_map lib walk_fuel) t now fuel (view s) s.last)

  -- `none` means that a packet was read out of bounds, or that a pass ran out of fuel
  unfoldable pub play : List Event → System W D → Option (System W D)
  play [] s = some s
  play (e ∷ es) s = elim (step e s) [ none ↦ none | some s' ↦ play es s' ]

  module _ (shared : IsShared lib flow_map) where
    -- A packet is one that the kernel hands to a program, and the map has room for its flow; the
    -- fuels of a pass exceed what the map holds.
    abbrev pub Allowed : Event → System W D → Type 0
    Allowed (packet a) s = IsSkb a.skb × (a.direction < 2) × shared.laws.HasRoom s.kernel.flows
    Allowed (tick now) s =
        ((shared.batch s.kernel.flows).left none + (shared.batch s.kernel.flows).limit < walk_fuel)
        × (length (shared.contents s.kernel.flows) < fuel)

    -- every event is allowed when it comes
    abbrev pub AllAllowed : List Event → Option (System W D) → Type 0
    AllAllowed es none = Unit {0}
    AllAllowed [] (some s) = Unit {0}
    AllAllowed (e ∷ es) (some s) = Allowed e s × AllAllowed es (step e s)

-- the reference view of the traffic: what the packets of a flow add up to
abbrev pub arrived : (Arrival → ℕ) → FlowKey → List Event → ℕ
arrived f k [] = 0
arrived f k (packet a ∷ es) =
    (if belongs a.skb a.direction a.eth k then f a else 0) + arrived f k es
arrived f k (tick now ∷ es) = arrived f k es
