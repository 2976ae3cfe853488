-- ===== src/Bpf/Expiry.antt =====
-- A silent flow expires (src/lifecycle.cpp, over the flow map of src/bpf.cpp).
use obserwrt.Prelude.{
  ℕ, ◌+◌, ◌^◌, ◌≤◌, ◌<◌, ◌≡◌, refl, sym, Option, subst, ◌∙◌, inl, inr, Bool, true, false, ◌||◌,
  none, some, List, [], ◌∷◌, ◌++◌, arith, if◌then◌else◌, find, Bool-cases,
}
use obserwrt.Flow.{FlowKey, FlowValue, flow_key_eq}
use obserwrt.Lifecycle.{Timeouts, Tracker, Export, is_idle, last_packets, mark}
use obserwrt.Lifecycle.Accounting.{
  total, exports_of, contribution, contribution-packets, total-append, exports_of-append,
}
use obserwrt.Bpf.Snapshot.{BpfFlowMap, bpf_flow_map}
use obserwrt.Bpf.Passes.{
  IsReady, pass_over, run-pass_over, pass_over-last, pass_over-out, pass_over-exports_of, run_all,
  run_all-cons, has_expired, is_idle_lem,
}
use obserwrt.Bpf.Purge.{HasFlows}
use obserwrt.Timeline.Passing.{kept, pass_over-lookup}
use obserwrt.Bpf.{Libbpf}

module _ {W : Type 0} (lib : Libbpf W) (has : HasFlows lib) (walk_fuel fuel : ℕ) (t : Timeouts)
    (k : FlowKey) where
  -- No packet reaches the flow: each pass finds of it in the map what the pass before has left there, and
  -- the first one finds `held`.
  pub data Silent : Option FlowValue → Tracker → List (ℕ × BpfFlowMap W) → Type 0 where
    over : {held : Option FlowValue} {last : Tracker} → Silent held last []
    next :
        {held : Option FlowValue} {last : Tracker} {now : ℕ} {s : BpfFlowMap W}
        {hs : List (ℕ × BpfFlowMap W)} (all : List (FlowKey × FlowValue))
        → IsReady lib walk_fuel fuel s all
        → find k all ≡ held
        → lib.flows_lookup s.bpf.world k ≡ held
        → Silent
            (lib.flows_lookup (pass_over lib walk_fuel fuel t now s last all).map.bpf.world k)
            (pass_over lib walk_fuel fuel t now s last all).last
            hs
        → Silent held last ((now, s) ∷ hs)

  -- Some pass comes later than the timeout allows.
  abbrev pub outlives : FlowValue → List (ℕ × BpfFlowMap W) → Bool
  outlives v [] = false
  outlives v ((now, s) ∷ hs) = has_expired t now k v || outlives v hs

  gone_stays :
      (hs : List (ℕ × BpfFlowMap W)) (last : Tracker)
      → Silent none last hs
      → find k last ≡ none
      → (last' : Tracker) × (out : List Export) × (run_all lib walk_fuel fuel t hs last
          ≡ some (last', out))
        × (exports_of true k out ≡ 0)
        × (total (λ d. d.packets) k out ≡ 0)
        × (find k last' ≡ none)
  unfolding run_all
  gone_stays [] last over e = (last, [], refl, refl, refl, e)
  gone_stays ((now, s) ∷ hs) last (next all r f l g) e =
      let p = pass_over lib walk_fuel fuel t now s last all in
      let left : lib.flows_lookup p.map.bpf.world k ≡ none =
        pass_over-lookup lib has walk_fuel t now fuel s last all r k (f ∙ sym l) ∙ rw f refl in
      let (last', out, later, x, y, z) =
        gone_stays hs p.last (subst (λ o. Silent o p.last hs) left g)
          (pass_over-last lib walk_fuel fuel t now s last all k r.distinct ∙ rw f refl) in
      (
        last',
        p.out ++ out,
        run_all-cons lib walk_fuel fuel t now s hs last last' p out
            (run-pass_over lib walk_fuel fuel t now s last all r) later,
        ground (
          arith,
          exports_of-append true k p.out out,
          pass_over-exports_of lib walk_fuel fuel t now s last all k true r.distinct,
          f,
          x,
        ),
        ground (
          arith,
          total-append (λ d. d.packets) k p.out out,
          pass_over-out lib walk_fuel fuel t now s last all k (λ d. d.packets) r.distinct,
          f,
          y,
        ),
        z,
      )

  -- A flow that no packet reaches any more expires: over loaded maps and with enough fuel, where nothing but the passes
  -- changes what the map holds of it, once they go on for longer than the timeout of its protocol, exactly
  -- one of them exports it as expired, by then all its packets have been exported, and it is no longer
  -- tracked.
  pub run_all-Silent :
      {v : FlowValue} (hs : List (ℕ × BpfFlowMap W)) (last : Tracker)
      → Silent (some v) last hs
      → outlives v hs ≡ true
      → last_packets (find k last) ≤ v.packets
      → v.packets < 2 ^ 63
      → (last' : Tracker) × (out : List Export) × (run_all lib walk_fuel fuel t hs last
          ≡ some (last', out))
        × (exports_of true k out ≡ 1)
        × (total (λ d. d.packets) k out + last_packets (find k last) ≡ v.packets)
        × (find k last' ≡ none)
  unfolding run_all
  run_all-Silent [] last over o le lt = cc
  run_all-Silent {v = v} ((now, s) ∷ hs) last (next all r f l g) o le lt =
      let p = pass_over lib walk_fuel fuel t now s last all in
      let expiry = is_idle_lem t now k v in
      let left : lib.flows_lookup p.map.bpf.world k ≡ kept t now k (some v) =
        pass_over-lookup lib has walk_fuel t now fuel s last all r k (f ∙ sym l) ∙ rw f refl in
      let out₁ : total (λ d. d.packets) k p.out
          ≡ contribution (bpf_flow_map lib walk_fuel) t now (λ d. d.packets) k (find k last) v =
        pass_over-out lib walk_fuel fuel t now s last all k (λ d. d.packets) r.distinct
        ∙ rw f refl in
      let sum = contribution-packets (bpf_flow_map lib walk_fuel) t now k (find k last) v lt le in
      let calls : exports_of true k p.out ≡ (if is_idle t now k v then 1 else 0) =
        pass_over-exports_of lib walk_fuel fuel t now s last all k true r.distinct ∙ rw f refl in
      let tracked : find k p.last ≡ (if is_idle t now k v then none else some (mark v)) =
        pass_over-last lib walk_fuel fuel t now s last all k r.distinct ∙ rw f refl in
      let step =
        λ (last' : Tracker) (out : List Export)
            (e : run_all lib walk_fuel fuel t hs p.last ≡ some (last', out)).
          run_all-cons lib walk_fuel fuel t now s hs last last' p out
            (run-pass_over lib walk_fuel fuel t now s last all r) e in
      elim (Bool-cases (is_idle t now k v)) [
        | inl idle ↦
            let (last', out, e, x, y, z) =
              gone_stays hs p.last (subst (λ o. Silent o p.last hs) (left ∙ rw idle refl) g)
                (ground (arith, tracked, idle)) in
            (
              last',
              p.out ++ out,
              step last' out e,
              ground (arith, exports_of-append true k p.out out, calls, idle, x),
              ground (arith, total-append (λ d. d.packets) k p.out out, out₁, sum, y),
              z,
            )
        | inr live ↦
            let marked : find k p.last ≡ some (mark v) = ground (arith, tracked, live) in
            let (last', out, e, x, y, z) =
              run_all-Silent {v = v} hs p.last
                (subst (λ o. Silent o p.last hs) (left ∙ rw live refl) g)
                (ground (arith, o, live, expiry)) (rw marked (omega arith)) lt in
            (
              last',
              p.out ++ out,
              step last' out e,
              ground (arith, exports_of-append true k p.out out, calls, live, x),
              ground (arith, total-append (λ d. d.packets) k p.out out, out₁, sum, y, marked),
              z,
            )
      ]
