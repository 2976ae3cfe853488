-- ===== src/Bpf/Passes.antt =====
-- Passes of Lifecycle::run (src/lifecycle.cpp) over the BPF flow map (src/bpf.cpp): what is exported
-- and what is tracked afterwards.
use obserwrt.Prelude.{
  ℕ, ◌*◌, ◌==◌, not, ◌&&◌, ltb, ◌+◌, ◌^◌, ◌≤◌, ◌<◌, ◌≡◌, refl, ◌∙◌, Bool, true, false, Option, none,
  some, List, [], ◌∷◌, ◌++◌, arith, if◌then◌else◌, length, find, contains, find-keep_seen,
}
use obserwrt.Flow.{FlowKey, FlowValue, Delta, flow_key_eq}
use obserwrt.Lifecycle.{
  Pass, Timeouts, Tracker, Last, Export, start, prune, run, is_idle, proto_timeout, age_ns, changed,
  mark, last_packets, last_bytes,
}
use obserwrt.Lifecycle.Scan.{Distinct, scan, scan-last, scan-seen}
use obserwrt.Lifecycle.Accounting.{
  total, exports_of, contribution, scan-total, scan-exports_of, contribution-packets,
  contribution-bytes, total-append,
}
use obserwrt.Bpf.BatchWalk.{IsBatchLookup}
use obserwrt.Bpf.Snapshot.{BpfFlowMap, bpf_flow_map, advance, reset, run-scan}
use obserwrt.Bpf.{Libbpf}

-- The object is loaded, its map holds the entries `all`, one for a key, and the fuels suffice.
pub record IsReady {W : Type 0} (lib : Libbpf W) (walk_fuel fuel : ℕ) (s : BpfFlowMap W)
    (all : List (FlowKey × FlowValue)) : Type 0 where
  pub is_loaded : s.bpf.loaded ≡ true
  pub batch : IsBatchLookup lib.flows_batch s.bpf.world all
  pub walk_enough : batch.left none + batch.limit < walk_fuel
  pub enough : length all < fuel
  pub distinct : Distinct all

-- the reference: the timeout of a protocol, by its IANA number
abbrev pub timeout_of : Timeouts → ℕ → ℕ
timeout_of t p =
    if p == 58
    then t.icmp
    else if p == 17
    then t.udp
    else if p == 6
    then t.tcp
    else if p == 1
    then t.icmp
    else t.general

-- more nanoseconds have passed since the last packet than the timeout has
abbrev pub has_expired : Timeouts → ℕ → FlowKey → FlowValue → Bool
has_expired t now k v = ltb (v.last_seen + 1000000000 * timeout_of t k.protocol) now

-- the counters or the time of the last packet are not those tracked
abbrev pub differs : Option Last → FlowValue → Bool
differs none v = true
differs (some l) v =
    not (l.packets == v.packets && l.bytes == v.bytes && l.last_seen == v.last_seen)

-- what a flow is tracked with after a pass
abbrev pub kept_of : Timeouts → ℕ → FlowKey → Option FlowValue → Option Last
kept_of t now k none = none
kept_of t now k (some v) =
    if has_expired t now k v
    then none
    else some (record { packets = v.packets; bytes = v.bytes; last_seen = v.last_seen })

-- how often a flow is exported, as expired or as active
abbrev pub exported_of : Timeouts → ℕ → FlowKey → Option Last → Bool → Option FlowValue → ℕ
exported_of t now k prev expired none = 0
exported_of t now k prev true (some v) = if has_expired t now k v then 1 else 0
exported_of t now k prev false (some v) =
    if not (has_expired t now k v) && differs prev v then 1 else 0

-- the tracker's entry for a flow after a pass
abbrev pub tracked_of : Timeouts → ℕ → FlowKey → Option FlowValue → Option Last
tracked_of t now k none = none
tracked_of t now k (some v) = if is_idle t now k v then none else some (mark v)

-- how often a pass exports a flow as expired, or as active
abbrev pub calls_of : Timeouts → ℕ → FlowKey → Option Last → Bool → Option FlowValue → ℕ
calls_of t now k prev expired none = 0
calls_of t now k prev true (some v) = if is_idle t now k v then 1 else 0
calls_of t now k prev false (some v) =
    if is_idle t now k v then 0 else if changed prev v then 1 else 0

pub is_idle_lem :
    (t : Timeouts) (now : ℕ) (k : FlowKey) (v : FlowValue)
    → is_idle t now k v ≡ has_expired t now k v
unfolding is_idle proto_timeout age_ns
is_idle_lem t now k v = ground arith

changed_lem : (prev : Option Last) (v : FlowValue) → changed prev v ≡ differs prev v
unfolding changed
changed_lem none v = refl
changed_lem (some l) v = ground arith

tracked_of_lem :
    (t : Timeouts) (now : ℕ) (k : FlowKey) (v : Option FlowValue)
    → tracked_of t now k v ≡ kept_of t now k v
tracked_of_lem t now k none = refl
tracked_of_lem t now k (some v) = rw (is_idle_lem t now k v) refl

calls_of_lem :
    (t : Timeouts) (now : ℕ) (k : FlowKey) (prev : Option Last) (b : Bool) (v : Option FlowValue)
    → calls_of t now k prev b v ≡ exported_of t now k prev b v
calls_of_lem t now k prev b none = refl
calls_of_lem t now k prev true (some v) = rw (is_idle_lem t now k v) refl
calls_of_lem t now k prev false (some v) =
    rw (is_idle_lem t now k v, changed_lem prev v) (ground arith)

module _ {W : Type 0} (lib : Libbpf W) (walk_fuel fuel : ℕ) (t : Timeouts) where
  abbrev pub pass_over :
      ℕ → BpfFlowMap W → Tracker → List (FlowKey × FlowValue) → Pass (BpfFlowMap W)
  pass_over now s last all =
      prune (bpf_flow_map lib walk_fuel) t now
        (scan (bpf_flow_map lib walk_fuel) t now advance all (start (reset lib walk_fuel s) last))

  pub run-pass_over :
      (now : ℕ) (s : BpfFlowMap W) (last : Tracker) (all : List (FlowKey × FlowValue))
      → IsReady lib walk_fuel fuel s all
      → run (bpf_flow_map lib walk_fuel) t now fuel s last ≡ some (pass_over now s last all)
  run-pass_over now s last all r =
      run-scan lib t now walk_fuel s last all r.batch fuel r.is_loaded r.walk_enough r.enough

  pub pass_over-last :
      (now : ℕ) (s : BpfFlowMap W) (last : Tracker) (all : List (FlowKey × FlowValue)) (k : FlowKey)
      → Distinct all
      → find k (pass_over now s last all).last ≡ tracked_of t now k (find k all)
  unfolding prune contains
  pass_over-last now s last all k d =
      let fm = bpf_flow_map lib walk_fuel in
      let p = start (reset lib walk_fuel s) last in
      ground (
        arith,
        find-keep_seen (scan fm t now advance all p).seen k (scan fm t now advance all p).last,
        scan-last fm t now advance all k p d,
        scan-seen fm t now advance all k p,
      )

  pub pass_over-out :
      (now : ℕ) (s : BpfFlowMap W) (last : Tracker) (all : List (FlowKey × FlowValue)) (k : FlowKey)
      (f : Delta → ℕ)
      → Distinct all
      → total f k (pass_over now s last all).out ≡ elim (find k all) [
        | none ↦ 0
        | some v ↦ contribution (bpf_flow_map lib walk_fuel) t now f k (find k last) v
      ]
  unfolding prune
  pass_over-out now s last all k f d = ground (
    arith,
    scan-total (bpf_flow_map lib walk_fuel) t now advance f all k
        (start (reset lib walk_fuel s) last) d,
  )

  pub pass_over-exports_of :
      (now : ℕ) (s : BpfFlowMap W) (last : Tracker) (all : List (FlowKey × FlowValue)) (k : FlowKey)
      (b : Bool)
      → Distinct all
      → exports_of b k (pass_over now s last all).out
        ≡ calls_of t now k (find k last) b (find k all)
  unfolding prune
  pass_over-exports_of now s last all k b d = ground (
    arith,
    scan-exports_of (bpf_flow_map lib walk_fuel) t now advance b all k
        (start (reset lib walk_fuel s) last) d,
  )

  -- Over a loaded map and with enough fuel a pass returns, and afterwards exactly the flows of the map are
  -- tracked whose last packet is not longer ago than the timeout of their protocol, each with the packets, the bytes and
  -- the time of the last packet just seen: entries of flows that expired or left the map are gone.
  pub run-last :
      (now : ℕ) (s : BpfFlowMap W) (last : Tracker) (all : List (FlowKey × FlowValue))
      → IsReady lib walk_fuel fuel s all
      → (p : Pass (BpfFlowMap W)) × (run (bpf_flow_map lib walk_fuel) t now fuel s last ≡ some p)
        × ((k : FlowKey) → find k p.last ≡ kept_of t now k (find k all))
  run-last now s last all r = (
    pass_over now s last all,
    run-pass_over now s last all r,
    λ k. pass_over-last now s last all k r.distinct ∙ tracked_of_lem t now k (find k all),
  )

  -- Over a loaded map and with enough fuel a pass returns, and exports each flow of the map at most once: as
  -- expired exactly if its last packet is longer ago than the timeout of its protocol (TCP, UDP, ICMP for either version of
  -- IP, or the general one), as active exactly if not and its packets, bytes or last packet's time differ from what
  -- was tracked; no other flow is exported.
  pub run-calls :
      (now : ℕ) (s : BpfFlowMap W) (last : Tracker) (all : List (FlowKey × FlowValue))
      → IsReady lib walk_fuel fuel s all
      → (p : Pass (BpfFlowMap W)) × (run (bpf_flow_map lib walk_fuel) t now fuel s last ≡ some p)
        × ((k : FlowKey) (b : Bool)
            → exports_of b k p.out ≡ exported_of t now k (find k last) b (find k all))
  run-calls now s last all r = (
    pass_over now s last all,
    run-pass_over now s last all r,
    λ k b.
        pass_over-exports_of now s last all k b r.distinct
        ∙ calls_of_lem t now k (find k last) b (find k all),
  )

  -- For a flow whose counters have not gone back since they were tracked, a pass exports exactly
  -- the growth of packets and of bytes, whether the flow expires, has changed, or is not emitted.
  pub run-total :
      (now : ℕ) (s : BpfFlowMap W) (last : Tracker) (all : List (FlowKey × FlowValue)) (k : FlowKey)
      (v : FlowValue)
      → IsReady lib walk_fuel fuel s all
      → find k all ≡ some v
      → v.packets < 2 ^ 63
      → v.bytes < 2 ^ 63
      → last_packets (find k last) ≤ v.packets
      → last_bytes (find k last) ≤ v.bytes
      → (p : Pass (BpfFlowMap W)) × (run (bpf_flow_map lib walk_fuel) t now fuel s last ≡ some p)
        × (total (λ d. d.packets) k p.out + last_packets (find k last) ≡ v.packets)
        × (total (λ d. d.bytes) k p.out + last_bytes (find k last) ≡ v.bytes)
  run-total now s last all k v r e hp hb gp gb =
      let fm = bpf_flow_map lib walk_fuel in
      (
        pass_over now s last all,
        run-pass_over now s last all r,
        rw (pass_over-out now s last all k (λ d. d.packets) r.distinct, e)
            (contribution-packets fm t now k (find k last) v hp gp),
        rw (pass_over-out now s last all k (λ d. d.bytes) r.distinct, e)
            (contribution-bytes fm t now k (find k last) v hb gb),
      )

  -- the passes of the daemon's timer, each at its time and over the map as it stands then
  unfoldable pub run_all : List (ℕ × BpfFlowMap W) → Tracker → Option (Tracker × List Export)
  run_all [] last = some (last, [])
  run_all ((now, s) ∷ hs) last = elim (run (bpf_flow_map lib walk_fuel) t now fuel s last) [
    | none ↦ none
    | some p ↦ elim (run_all hs p.last) [
      | none ↦ none
      | some (last', out) ↦ some (last', p.out ++ out)
    ]
  ]

  pub run_all-cons :
      (now : ℕ) (s : BpfFlowMap W) (hs : List (ℕ × BpfFlowMap W)) (last last' : Tracker)
      (p : Pass (BpfFlowMap W)) (out : List Export)
      → run (bpf_flow_map lib walk_fuel) t now fuel s last ≡ some p
      → run_all hs p.last ≡ some (last', out)
      → run_all ((now, s) ∷ hs) last ≡ some (last', p.out ++ out)
  unfolding run_all
  run_all-cons now s hs last last' p out e later = rw (e, run_all) (rw (later, run_all) refl)

  -- In every pass the flow is in the map, live, and its counters do not go back and stay below 2^63; the packets
  -- start at `n` and end at `m`, the bytes start at `i` and end at `j`.
  pub data Growing (k : FlowKey) : ℕ → ℕ → List (ℕ × BpfFlowMap W) → ℕ → ℕ → Type 0 where
    stop : {n i : ℕ} → Growing k n i [] n i
    pass :
        {n m i j now : ℕ} {s : BpfFlowMap W} {hs : List (ℕ × BpfFlowMap W)}
        (all : List (FlowKey × FlowValue)) (v : FlowValue)
        → IsReady lib walk_fuel fuel s all
        → find k all ≡ some v
        → n ≤ v.packets
        → v.packets < 2 ^ 63
        → i ≤ v.bytes
        → v.bytes < 2 ^ 63
        → is_idle t now k v ≡ false
        → Growing k v.packets v.bytes hs m j
        → Growing k n i ((now, s) ∷ hs) m j

  -- Over any number of passes in which a flow stays in the map and live, and while its counters do not go back and
  -- stay below 2^63, the deltas exported for it add up to the growth of its packets and of its bytes: nothing is counted
  -- twice, and nothing is lost; and its last counters are the ones tracked.
  pub run_all-total :
      (k : FlowKey) {m n i j : ℕ} (hs : List (ℕ × BpfFlowMap W)) (last : Tracker)
      → Growing k n i hs m j
      → last_packets (find k last) ≡ n
      → last_bytes (find k last) ≡ i
      → (last' : Tracker) × (out : List Export) × (run_all hs last ≡ some (last', out))
        × (total (λ d. d.packets) k out + n ≡ m)
        × (last_packets (find k last') ≡ m)
        × (total (λ d. d.bytes) k out + i ≡ j)
        × (last_bytes (find k last') ≡ j)
  unfolding run_all
  run_all-total k [] last stop e eb = (last, [], refl, omega arith, e, omega arith, eb)
  run_all-total k ((now, s) ∷ hs) last
        (pass {n = n} {i = i} all v r f le lt le_bytes lt_bytes live g) e eb =
      let p = pass_over now s last all in
      let contributes : total (λ d. d.packets) k p.out
          ≡ contribution (bpf_flow_map lib walk_fuel) t now (λ d. d.packets) k (find k last) v =
        pass_over-out now s last all k (λ d. d.packets) r.distinct ∙ rw f refl in
      let byte_part : total (λ d. d.bytes) k p.out
          ≡ contribution (bpf_flow_map lib walk_fuel) t now (λ d. d.bytes) k (find k last) v =
        pass_over-out now s last all k (λ d. d.bytes) r.distinct ∙ rw f refl in
      let (last', out, later, sum, final, sum_bytes, final_bytes) =
        run_all-total k hs p.last g
          (rw (pass_over-last now s last all k r.distinct, f) (rw live refl))
          (rw (pass_over-last now s last all k r.distinct, f) (rw live refl)) in
      (
        last',
        p.out ++ out,
        run_all-cons now s hs last last' p out (run-pass_over now s last all r) later,
        omega (
          arith,
          total-append (λ d. d.packets) k p.out out,
          contributes,
          contribution-packets (bpf_flow_map lib walk_fuel) t now k (find k last) v lt
              (omega arith),
        ),
        final,
        omega (
          arith,
          total-append (λ d. d.bytes) k p.out out,
          byte_part,
          contribution-bytes (bpf_flow_map lib walk_fuel) t now k (find k last) v lt_bytes
              (omega arith),
        ),
        final_bytes,
      )
