-- ===== src/Timeline/Passing.antt =====
-- What a pass of Lifecycle::run leaves in the flow map (src/lifecycle.cpp, src/bpf.cpp).
use obserwrt.Prelude.{
  ℕ, ◌≡◌, refl, true, Option, none, some, List, [], ◌∷◌, arith, if◌then◌else◌, find,
}
use obserwrt.Flow.{FlowKey, FlowValue, flow_key_eq, key_eq, key_eq_iff}
use obserwrt.Lifecycle.{Pass, Timeouts, Tracker, is_idle, start, visit, prune}
use obserwrt.Lifecycle.Scan.{Distinct, scan}
use obserwrt.Bpf.Purge.{HasFlows}
use obserwrt.Bpf.Snapshot.{BpfFlowMap, bpf_flow_map, delete_key, advance, reset, reset-vectors}
use obserwrt.Bpf.Passes.{IsReady, pass_over}
use obserwrt.Bpf.{Libbpf, erase}

-- an entry after a pass
abbrev pub kept : Timeouts → ℕ → FlowKey → Option FlowValue → Option FlowValue
kept t now k none = none
kept t now k (some v) = if is_idle t now k v then none else some v

module _ {W : Type 0} (lib : Libbpf W) (has : HasFlows lib) (walk_fuel : ℕ) (t : Timeouts)
    (now : ℕ) where
  visit-loaded :
      (k : FlowKey) (v : FlowValue) (p : Pass (BpfFlowMap W))
      → p.map.bpf.loaded ≡ true
      → (visit (bpf_flow_map lib walk_fuel) t now k v p).map.bpf.loaded ≡ true
  unfolding visit delete_key erase
  visit-loaded k v p l = ground (arith, l)

  visit-lookup :
      (k j : FlowKey) (v : FlowValue) (p : Pass (BpfFlowMap W))
      → p.map.bpf.loaded ≡ true
      → lib.flows_lookup (visit (bpf_flow_map lib walk_fuel) t now k v p).map.bpf.world j ≡ (
          if key_eq k j
          then (if is_idle t now k v then none else lib.flows_lookup p.map.bpf.world j)
          else lib.flows_lookup p.map.bpf.world j)
  unfolding visit delete_key erase
  visit-lookup k j v p l = ground (arith, l, has.lookup-delete p.map.bpf.world k j)

  scan-loaded :
      (es : List (FlowKey × FlowValue)) (p : Pass (BpfFlowMap W))
      → p.map.bpf.loaded ≡ true
      → (scan (bpf_flow_map lib walk_fuel) t now advance es p).map.bpf.loaded ≡ true
  unfolding scan
  scan-loaded [] p l = l
  scan-loaded ((k, v) ∷ es) p l =
      scan-loaded es _ (visit-loaded k v (record p { map = advance p.map }) l)

  scan-lookup :
      (es : List (FlowKey × FlowValue)) (j : FlowKey) (p : Pass (BpfFlowMap W))
      → Distinct es
      → p.map.bpf.loaded ≡ true
      → lib.flows_lookup (scan (bpf_flow_map lib walk_fuel) t now advance es p).map.bpf.world j
        ≡ elim (find j es) [
          | none ↦ lib.flows_lookup p.map.bpf.world j
          | some v ↦ if is_idle t now j v then none else lib.flows_lookup p.map.bpf.world j
        ]
  unfolding scan find
  scan-lookup [] j p d l = refl
  scan-lookup ((k, v) ∷ es) j p d l =
      let q : Pass (BpfFlowMap W) = record p { map = advance p.map } in
      ground (
        arith,
        key_eq_iff k j,
        visit-lookup k j v q l,
        scan-lookup es j (visit (bpf_flow_map lib walk_fuel) t now k v q) d.1
            (visit-loaded k v q l),
      )

  module _ (fuel : ℕ) (s : BpfFlowMap W) (last : Tracker) (all : List (FlowKey × FlowValue))
      (r : IsReady lib walk_fuel fuel s all) where
    reset-bpf : (reset lib walk_fuel s).bpf ≡ s.bpf
    reset-bpf = rw (reset-vectors lib t now walk_fuel s all r.batch r.is_loaded r.walk_enough) refl

    pub pass_over-loaded : (pass_over lib walk_fuel fuel t now s last all).map.bpf.loaded ≡ true
    unfolding prune
    pass_over-loaded = scan-loaded all _ (rw reset-bpf r.is_loaded)

    pub pass_over-lookup :
        (k : FlowKey)
        → find k all ≡ lib.flows_lookup s.bpf.world k
        → lib.flows_lookup (pass_over lib walk_fuel fuel t now s last all).map.bpf.world k
          ≡ kept t now k (find k all)
    unfolding prune
    pass_over-lookup k e = ground (
      arith,
      e,
      reset-bpf,
      scan-lookup all k (start (reset lib walk_fuel s) last) r.distinct (rw reset-bpf r.is_loaded),
    )
