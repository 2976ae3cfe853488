-- ===== src/Tests/Passes.antt =====
-- Batched reads and passes over a concrete flow map.
use obserwrt.Prelude.{
  ℕ, ◌+◌, ◌<◌, ◌≡◌, refl, ◌⊎◌, inl, inr, Bool, true, false, Option, none, some, List, [], ◌∷◌, ◌++◌,
  arith, find, bytes_eq, append-nil, sym, subst, ◌∙◌, length, Bytes,
}
use obserwrt.Flow.{FlowKey, FlowValue, flow_key_eq, key_eq, key_bytes, key_size, key_hash}
use obserwrt.Flow.Layout.{key_bytes_lem}
use obserwrt.Lifecycle.{
  Timeouts, Tracker, Pass, Export, start, run, prune, is_idle, last_packets, last_bytes,
}
use obserwrt.Lifecycle.Scan.{scan, Distinct}
use obserwrt.Lifecycle.Accounting.{total, exports_of}
use obserwrt.Bpf.BatchWalk.{
  Batch, Vectors, ok, enoent, batch_read, vectors, IsBatchDrain, Drained, batch_read_all,
  batch_read_drains,
}
use obserwrt.Bpf.Snapshot.{BpfFlowMap, bpf_flow_map, reset, advance, run-scan}
use obserwrt.Bpf.Expiry.{Silent, over, next, outlives, run_all-Silent}
use obserwrt.Bpf.Passes.{
  IsReady, pass_over, kept_of, exported_of, Growing, stop, pass, run-last, run-calls, run_all,
  run_all-total,
}
use obserwrt.Timeline.Passing.{pass_over-lookup}
use obserwrt.Tests.World.{
  World, kernel, kernel-HasFlows, flow_on, flow_on-IsFlowKey, counted, holding, lookup_call,
  lookup_call-IsBatchLookup,
}

abbrev three : List (ℕ × ℕ)
three = (1, 10) ∷ (2, 20) ∷ (3, 30) ∷ []

batch_read_all_example :
    batch_read (lookup_call (λ (m : ℕ). three)) 2 7 ≡ some (true, vectors three, 7)
batch_read_all_example =
    batch_read_all (lookup_call (λ (m : ℕ). three)) 7 three
      (lookup_call-IsBatchLookup (λ (m : ℕ). three) 7) 2 (omega arith)

abbrev drain : List (ℕ × ℕ) → Option ℕ → ℕ → Batch ℕ ℕ × List (ℕ × ℕ)
drain [] token size = (record { errno = enoent; entries = []; token = 0 }, [])
drain (e ∷ es) none size = (record { errno = ok; entries = e ∷ []; token = 1 }, es)
drain (e ∷ es) (some t) size = (record { errno = enoent; entries = e ∷ es; token = 0 }, [])

abbrev left_behind : Option ℕ → ℕ
left_behind none = 1
left_behind (some t) = 0

abbrev same : List (ℕ × ℕ) → List (ℕ × ℕ)
same m = m

drain-outcome :
    (m : List (ℕ × ℕ)) (token : Option ℕ) (size : ℕ)
    → (m ≡ (drain m token size).0.entries ++ (drain m token size).1)
      × (((drain m token size).0.errno ≡ enoent)
          ⊎ (((drain m token size).0.errno ≡ ok)
              × (left_behind (some (drain m token size).0.token) < left_behind token)))
drain-outcome [] token size = (refl, inl refl)
drain-outcome (e ∷ es) none size = (refl, inr (refl, omega arith))
drain-outcome (e ∷ es) (some t) size = (sym (append-nil (e ∷ es)), inl refl)

abbrev drain-IsBatchDrain : IsBatchDrain drain same
drain-IsBatchDrain = record {
  handed_out = λ m token size h. (drain-outcome m token size).0;
  kept = λ m token size h none_handed. ground (arith, h, drain-outcome m token size);
  left = left_behind;
  limit = 0;
  advances = λ m token size h. ground (arith, drain-outcome m token size);
  roomy = λ m token size h. ground (arith, drain-outcome m token size);
}

batch_read_drains_example :
    (done : Bool) × (acc : Vectors ℕ ℕ) × (m' : List (ℕ × ℕ)) × (batch_read drain 2 three
      ≡ some (done, acc, m'))
    × Drained same [] three done acc m'
batch_read_drains_example = batch_read_drains drain same drain-IsBatchDrain 2 three (omega arith)

-- A stand-in for the hash that reads both of its arguments.
abbrev image_and_length : Bytes → ℕ → ℕ
image_and_length image len = length image + len

key_bytes_lem_example :
    (length (key_bytes true (flow_on 3 80)) ≡ key_size)
    × (bytes_eq (key_bytes true (flow_on 3 80)) (key_bytes true (flow_on 3 81))
        ≡ key_eq (flow_on 3 80) (flow_on 3 81))
    × ((key_eq (flow_on 3 80) (flow_on 3 81) ≡ false)
        ⊎ (key_hash image_and_length true (flow_on 3 80)
            ≡ key_hash image_and_length true (flow_on 3 81)))
key_bytes_lem_example =
    key_bytes_lem image_and_length true (flow_on 3 80) (flow_on 3 81)
      (flow_on-IsFlowKey 80 (omega arith)) (flow_on-IsFlowKey 81 (omega arith))

abbrev pub timeouts : Timeouts
timeouts = record { tcp = 300; udp = 60; icmp = 30; general = 10 }

abbrev entries : ℕ → List (FlowKey × FlowValue)
entries n = (flow_on 3 80, counted n) ∷ (flow_on 4 81, counted 7) ∷ []

abbrev flow_map : ℕ → BpfFlowMap World
flow_map n = record { bpf = holding (entries n); keys = []; values = []; pos = 0 }

abbrev tracker : Tracker
tracker = (flow_on 3 80, record { packets = 2; bytes = 200; last_seen = 9000000000 }) ∷ []

entries-Distinct : (n : ℕ) → Distinct (entries n)
unfolding find key_eq bytes_eq
entries-Distinct n = (refl, (refl, tt))

abbrev flow_map-IsReady : (n : ℕ) → IsReady kernel 2 3 (flow_map n) (entries n)
flow_map-IsReady n = record {
  is_loaded = refl;
  batch = lookup_call-IsBatchLookup (λ (w : World). w.flows) (flow_map n).bpf.world;
  walk_enough = omega arith;
  enough = omega arith;
  distinct = entries-Distinct n;
}

-- the time of the passes: one minute
abbrev minute : ℕ
minute = 60000000000

run-scan_example :
    run (bpf_flow_map kernel 2) timeouts minute 3 (flow_map 5) tracker
    ≡ some (
        prune (bpf_flow_map kernel 2) timeouts minute (
          scan
            (bpf_flow_map kernel 2)
            timeouts
            minute
            advance
            (entries 5)
            (start (reset kernel 2 (flow_map 5)) tracker)))
run-scan_example =
    run-scan kernel timeouts minute 2 (flow_map 5) tracker (entries 5) (flow_map-IsReady 5).batch 3
      refl (omega arith) (omega arith)

run-last_example :
    (p : Pass (BpfFlowMap World)) × (run
        (bpf_flow_map kernel 2)
        timeouts
        minute
        3
        (flow_map 5)
        tracker
      ≡ some p)
    × ((k : FlowKey) → find k p.last ≡ kept_of timeouts minute k (find k (entries 5)))
run-last_example =
    run-last kernel 2 3 timeouts minute (flow_map 5) tracker (entries 5) (flow_map-IsReady 5)

run-calls_example :
    (p : Pass (BpfFlowMap World)) × (run
        (bpf_flow_map kernel 2)
        timeouts
        minute
        3
        (flow_map 5)
        tracker
      ≡ some p)
    × ((k : FlowKey) (b : Bool)
        → exports_of b k p.out
          ≡ exported_of timeouts minute k (find k tracker) b (find k (entries 5)))
run-calls_example =
    run-calls kernel 2 3 timeouts minute (flow_map 5) tracker (entries 5) (flow_map-IsReady 5)

found : (n : ℕ) → find (flow_on 3 80) (entries n) ≡ some (counted n)
unfolding find key_eq bytes_eq
found n = refl

tracked_packets : last_packets (find (flow_on 3 80) tracker) ≡ 2
unfolding find key_eq bytes_eq
tracked_packets = refl

tracked_bytes : last_bytes (find (flow_on 3 80) tracker) ≡ 200
unfolding find key_eq bytes_eq
tracked_bytes = refl

live : (n : ℕ) → is_idle timeouts minute (flow_on 3 80) (counted n) ≡ false
unfolding is_idle
live n = refl

abbrev history : List (ℕ × BpfFlowMap World)
history = (minute, flow_map 5) ∷ (minute, flow_map 9) ∷ []

history-Growing : Growing kernel 2 3 timeouts (flow_on 3 80) 2 200 history 9 900
history-Growing =
    pass (entries 5) (counted 5) (flow_map-IsReady 5) (found 5) (omega arith) (omega arith)
      (omega arith) (omega arith) (live 5)
      (pass (entries 9) (counted 9) (flow_map-IsReady 9) (found 9) (omega arith) (omega arith)
        (omega arith) (omega arith) (live 9) stop)

run_all-total_example :
    (last' : Tracker) × (out : List Export) × (run_all kernel 2 3 timeouts history tracker
      ≡ some (last', out))
    × (total (λ d. d.packets) (flow_on 3 80) out + 2 ≡ 9)
    × (last_packets (find (flow_on 3 80) last') ≡ 9)
    × (total (λ d. d.bytes) (flow_on 3 80) out + 200 ≡ 900)
    × (last_bytes (find (flow_on 3 80) last') ≡ 900)
run_all-total_example =
    run_all-total kernel 2 3 timeouts (flow_on 3 80) history tracker history-Growing tracked_packets
      tracked_bytes

-- ten minutes after the flow was last seen
abbrev late : ℕ
late = 610000000000

abbrev silence : List (ℕ × BpfFlowMap World)
silence = (minute, flow_map 5) ∷ (late, flow_map 5) ∷ []

abbrev after_minute : Pass (BpfFlowMap World)
after_minute = pass_over kernel 2 3 timeouts minute (flow_map 5) tracker (entries 5)

-- the first pass leaves the flow in the map
flow_left : kernel.flows_lookup after_minute.map.bpf.world (flow_on 3 80) ≡ some (counted 5)
unfolding find key_eq bytes_eq
flow_left =
    pass_over-lookup kernel kernel-HasFlows 2 timeouts minute 3 (flow_map 5) tracker (entries 5)
      (flow_map-IsReady 5) (flow_on 3 80) refl
    ∙ rw (found 5, live 5) refl

silence-Silent :
    Silent kernel kernel-HasFlows 2 3 timeouts (flow_on 3 80) (some (counted 5)) tracker silence
silence-Silent = next (entries 5) (flow_map-IsReady 5) (found 5) (found 5) (
    subst
      (λ o.
        Silent kernel kernel-HasFlows 2 3 timeouts (flow_on 3 80) o after_minute.last
          ((late, flow_map 5) ∷ []))
      (sym flow_left) (next (entries 5) (flow_map-IsReady 5) (found 5) (found 5) over))

silence-outlives :
    outlives kernel kernel-HasFlows 2 3 timeouts (flow_on 3 80) (counted 5) silence ≡ true
silence-outlives = refl

run_all-Silent_example :
    (last' : Tracker) × (out : List Export) × (run_all kernel 2 3 timeouts silence tracker
      ≡ some (last', out))
    × (exports_of true (flow_on 3 80) out ≡ 1)
    × (total (λ d. d.packets) (flow_on 3 80) out + last_packets (find (flow_on 3 80) tracker) ≡ 5)
    × (find (flow_on 3 80) last' ≡ none)
run_all-Silent_example =
    run_all-Silent kernel kernel-HasFlows 2 3 timeouts (flow_on 3 80) silence tracker silence-Silent
      silence-outlives (omega (arith, tracked_packets)) (omega arith)
