-- ===== src/Daemon/Pass.antt =====
-- The lifecycle timer's branch of the event loop (src/main.cpp): one pass over the flow map, and what
-- it tells the exporters and the metrics. The callback's calls are made in the order of the
-- list that `run` collects; they change nothing that `run` reads.
use obserwrt.Prelude.{
  ℕ, ◌+◌, ◌-◌, ◌*◌, ◌%◌, ◌^◌, Bool, false, Option, none, some, List, [], ◌∷◌, ◌++◌, if◌then◌else◌,
  Bytes, find, nat_eq,
}
use mathlib.Core.List.{map}
use obserwrt.Flow.{FlowValue, DropKey}
use obserwrt.Lifecycle.{FlowMap, Timeouts, Tracker, Export, Pass, run}
use obserwrt.Bpf.BatchWalk.{Vectors}
use obserwrt.DropReasons.{Table, lookup}
use obserwrt.Ipfix.{IpfixExporter, set_offset_ms, flush}
use obserwrt.Ipfix
use obserwrt.Syslog.{Platform, SyslogExporter, Observation, status_of}
use obserwrt.Syslog
use obserwrt.Metrics.{
  Metrics, DevCounters, DeviceCounters, record_errors, set_state, set_bpf, set_drops, set_devices,
}
use obserwrt.Metrics

-- what a pass does not change: the configuration, the drop reasons, and the system's answers
pub record Setup : Type 0 where
  pub ipfix_enabled : Bool
  pub syslog_active : Bool
  pub reasons : Table
  pub os : Platform
  pub ipfix_delivered : List Bytes → Bytes → Bool
  pub syslog_delivered : List Bytes → Bytes → Bool
  -- the wall clock at the n-th observation of the pass
  pub clock : ℕ → ℕ

-- what the pass reads: the clocks, the slots of `obserwrt_stats`, what `take_drops` hands out (none when
-- the tracer is not active), and what `dev_counters` reads
pub record Inputs : Type 0 where
  pub now_s : ℕ
  pub mono_ms : ℕ
  pub packets : ℕ
  pub bytes : ℕ
  pub parsed : ℕ
  pub flows_created : ℕ
  pub drops : ℕ
  pub drops_unparsed : ℕ
  pub drained : Option (Vectors DropKey FlowValue)
  pub raw : List DevCounters

-- the exporters and the metrics
pub record Sinks : Type 0 where
  pub metrics : Metrics
  pub ipfix : IpfixExporter
  pub syslog : SyslogExporter

-- the arguments of the calls for a flow
unfoldable pub flow_observation : Export → Observation
flow_observation x = record {
  key = x.key;
  value = x.value;
  expired = x.expired;
  delta = some x.delta;
  drop_info = none;
}

-- the arguments of the calls for a drop
unfoldable pub drop_observation : Table → DropKey → FlowValue → Observation
drop_observation reasons k v =
    let r = lookup reasons k.reason in
    record {
      key = k.flow;
      value = v;
      expired = false;
      delta = none;
      drop_info = some (record { forwarding_status = r.forwarding_status; reason = r.name });
    }

-- the loop over the drained keys and values
unfoldable pub drop_observations : Table → List DropKey → List FlowValue → List Observation
unfolding drop_observation
drop_observations reasons [] vs = []
drop_observations reasons (k ∷ ks) [] = []
drop_observations reasons (k ∷ ks) (v ∷ vs) =
    drop_observation reasons k v ∷ drop_observations reasons ks vs

-- the observations of a pass, in order
unfoldable pub observations :
    Table → List Export → Option (Vectors DropKey FlowValue) → List Observation
unfolding flow_observation drop_observations
observations reasons out none = map flow_observation out
observations reasons out (some d) =
    map flow_observation out ++ drop_observations reasons d.keys d.values

-- the device counters under the names of the devices
unfoldable pub named : List (ℕ × Bytes) → List DevCounters → List DeviceCounters
named names [] = []
named names (c ∷ cs) = elim (find c.ifindex names) [
  | none ↦ named names cs
  | some n ↦ record { ifname = n; counters = c } ∷ named names cs
]

module _ (s : Setup) where
  -- the calls made for one observation
  unfoldable pub dispatch : ℕ → Observation → Sinks → Sinks
  dispatch now o k = record {
    metrics = Metrics.observe k.metrics;
    ipfix =
        if s.ipfix_enabled
        then Ipfix.emit k.ipfix o.key o.value o.expired o.delta (status_of o.drop_info)
        else k.ipfix;
    syslog =
        if s.syslog_active then Syslog.emit s.os s.syslog_delivered now k.syslog o else k.syslog;
  }

  unfoldable pub dispatch_all : ℕ → List Observation → Sinks → Sinks
  unfolding dispatch
  dispatch_all n [] k = k
  dispatch_all n (o ∷ os) k = dispatch_all (n + 1) os (dispatch (s.clock n) o k)

  -- the flush and the failures
  unfoldable pub settle : ℕ → Sinks → Sinks
  settle now_s k =
      let e = if s.ipfix_enabled then flush s.ipfix_delivered k.ipfix now_s else k.ipfix in
      let (ipfix_lost, e') = Ipfix.take_failures e in
      let (syslog_lost, y') = Syslog.take_failures k.syslog in
      record {
        metrics = record_errors k.metrics (ipfix_lost + syslog_lost);
        ipfix = e';
        syslog = y';
      }

  -- the end of the pass, which sets the metrics
  unfoldable pub set_metrics : List (ℕ × Bytes) → List Bytes → Inputs → ℕ → ℕ → Metrics → Metrics
  unfolding named
  set_metrics names attached i active entries m =
      let m₁ = set_state m active entries attached in
      let m₂ = set_bpf m₁ i.packets i.bytes i.parsed i.flows_created in
      let m₃ = set_drops m₂ i.drops i.drops_unparsed in
      if m₃.is_active then set_devices m₃ (named names i.raw) else m₃

  -- all that follows `lifecycle.run`, and the offset set before it
  unfoldable pub report :
      List (ℕ × Bytes) → List Bytes → Inputs → List Export → ℕ → ℕ → Sinks → Sinks
  unfolding dispatch_all settle set_metrics observations
  report names attached i out active entries k =
      let offset = (i.now_s * 1000 + 2 ^ 64 - i.mono_ms) % 2 ^ 64 in
      let k₁ : Sinks = record k { ipfix = set_offset_ms k.ipfix offset } in
      let k₂ = settle i.now_s (dispatch_all 0 (observations s.reasons out i.drained) k₁) in
      record k₂ { metrics = set_metrics names attached i active entries k₂.metrics }

  -- the branch of the lifecycle timer
  unfoldable pub lifecycle_pass :
      {S : Type 0}
      → FlowMap S
      → Timeouts
      → ℕ
      → List (ℕ × Bytes)
      → List Bytes
      → Inputs
      → ℕ
      → S
      → Tracker
      → Sinks
      → Option (Pass S × Sinks)
  unfolding report
  lifecycle_pass fm t now_ns names attached i fuel m last k = elim (run fm t now_ns fuel m last) [
    | none ↦ none
    | some p ↦ some (p, report names attached i p.out p.stats.active p.stats.map k)
  ]
