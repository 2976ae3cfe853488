-- ===== src/Bpf/Snapshot.antt =====
-- BpfFlowMap of src/bpf.cpp, and Lifecycle::run over it.
use obserwrt.Prelude.{
  ℕ, zero, suc, ◌+◌, ◌-◌, ◌<◌, ◌≡◌, refl, Bool, true, false, ◌&&◌, Option, none, some, List, [],
  ◌∷◌, ◌++◌, arith, ltb, if◌then◌else◌, length, get_elem?, length-append, append-nil, append_assoc,
}
use mathlib.Core.List.{map}
use obserwrt.Flow.{FlowKey, FlowValue, key_eq, key_eq_iff}
use obserwrt.Lifecycle.{FlowMap, Pass, Timeouts, Tracker, start, visit, walk, prune, run}
use obserwrt.Lifecycle.Scan.{scan}
use obserwrt.Bpf.BatchWalk.{vectors, IsBatchLookup, batch_read_all}
use obserwrt.Bpf.{Libbpf, Bpf, snapshot, lookup, erase}

-- `class BpfFlowMap`
pub record BpfFlowMap (W : Type 0) : Type 0 where
  pub bpf : Bpf W
  pub keys : List FlowKey
  pub values : List FlowValue
  pub pos : ℕ

module _ {W : Type 0} (lib : Libbpf W) where
  -- `reset`, with the fuel of the walk; whether the snapshot was complete is not looked at
  unfoldable pub reset : ℕ → BpfFlowMap W → BpfFlowMap W
  reset fuel s = elim (snapshot lib fuel s.bpf) [
    | none ↦ record s { keys = []; values = []; pos = 0 }
    | some (done, vs, b) ↦ record { bpf = b; keys = vs.keys; values = vs.values; pos = 0 }
  ]

  unfoldable pub next_key : BpfFlowMap W → Option (FlowKey × BpfFlowMap W)
  next_key s = elim (get_elem? s.keys s.pos) [
    | none ↦ none
    | some k ↦ some (k, record s { pos = suc s.pos })
  ]

  -- `pos_ > 0 && keys_[pos_ - 1] == key`
  unfoldable pub is_current : BpfFlowMap W → FlowKey → Bool
  is_current s k =
      ltb 0 s.pos && elim (get_elem? s.keys (s.pos - 1)) [ none ↦ false | some j ↦ key_eq j k ]

  unfoldable pub get : BpfFlowMap W → FlowKey → Option FlowValue
  unfolding is_current
  get s k = if is_current s k then get_elem? s.values (s.pos - 1) else lookup lib s.bpf k

  unfoldable pub delete_key : BpfFlowMap W → FlowKey → BpfFlowMap W
  delete_key s k = record s { bpf = (erase lib s.bpf k).1 }

  abbrev pub bpf_flow_map : ℕ → FlowMap (BpfFlowMap W)
  bpf_flow_map fuel = record {
    reset = reset fuel;
    next_key = next_key;
    get = get;
    delete_key = delete_key;
  }

abbrev pub advance : {W : Type 0} → BpfFlowMap W → BpfFlowMap W
advance s = record s { pos = suc s.pos }

get_elem?-append {ℓ} :
    {A : Type ℓ} (xs : List A) (y : A) (ys : List A) → get_elem? (xs ++ y ∷ ys) (length xs) ≡ some y
get_elem?-append [] y ys = refl
get_elem?-append (x ∷ xs) y ys = get_elem?-append xs y ys

get_elem?_end {ℓ} : {A : Type ℓ} (xs : List A) → get_elem? xs (length xs) ≡ none
get_elem?_end [] = refl
get_elem?_end (x ∷ xs) = get_elem?_end xs

module _ {W : Type 0} (lib : Libbpf W) (t : Timeouts) (now fuel₀ : ℕ) where
  -- The snapshot with its read position: `ks` and `vs` are behind it, `es` in front.
  record IsAt (ks : List FlowKey) (vs : List FlowValue) (es : List (FlowKey × FlowValue))
      (s : BpfFlowMap W) : Type 0 where
    keys_at : s.keys ≡ ks ++ map (λ e. e.0) es
    values_at : s.values ≡ vs ++ map (λ e. e.1) es
    pos_at : s.pos ≡ length ks
    same : length vs ≡ length ks

  abbrev visited : FlowKey → FlowValue → Pass (BpfFlowMap W) → Pass (BpfFlowMap W)
  visited k v p = visit (bpf_flow_map lib fuel₀) t now k v (record p { map = advance p.map })

  visit-IsAt :
      (ks : List FlowKey) (vs : List FlowValue) (k : FlowKey) (v : FlowValue)
      (es : List (FlowKey × FlowValue)) (p : Pass (BpfFlowMap W))
      → IsAt ks vs ((k, v) ∷ es) p.map
      → IsAt (ks ++ k ∷ []) (vs ++ v ∷ []) es (visited k v p).map
  unfolding visit delete_key
  visit-IsAt ks vs k v es p a = ground (
    arith,
    append_assoc ks (k ∷ []) (map (λ e. e.0) es),
    append_assoc vs (v ∷ []) (map (λ e. e.1) es),
    length-append ks (k ∷ []),
    length-append vs (v ∷ []),
  )

  next_key-IsAt :
      (ks : List FlowKey) (vs : List FlowValue) (k : FlowKey) (v : FlowValue)
      (es : List (FlowKey × FlowValue)) (s : BpfFlowMap W)
      → IsAt ks vs ((k, v) ∷ es) s
      → (next_key lib s ≡ some (k, advance s)) × (get lib (advance s) k ≡ some v)
  unfolding next_key get
  next_key-IsAt ks vs k v es s a = ground (
    arith,
    get_elem?-append ks k (map (λ e. e.0) es),
    get_elem?-append vs v (map (λ e. e.1) es),
    key_eq_iff k k,
  )

  next_key_end :
      (ks : List FlowKey) (vs : List FlowValue) (s : BpfFlowMap W)
      → IsAt ks vs [] s
      → next_key lib s ≡ none
  unfolding next_key
  next_key_end ks vs s a = ground (arith, append-nil ks, get_elem?_end ks)

  walk-scan :
      (es : List (FlowKey × FlowValue)) (ks : List FlowKey) (vs : List FlowValue) (fuel : ℕ)
      (p : Pass (BpfFlowMap W))
      → IsAt ks vs es p.map
      → length es < fuel
      → walk (bpf_flow_map lib fuel₀) t now fuel p
        ≡ some (scan (bpf_flow_map lib fuel₀) t now advance es p)
  unfolding walk scan
  walk-scan [] ks vs zero p a enough = absurd (omega arith)
  walk-scan [] ks vs (suc fuel) p a enough = rw (next_key_end ks vs p.map a, walk)
  walk-scan ((k, v) ∷ es) ks vs zero p a enough = absurd (omega arith)
  walk-scan ((k, v) ∷ es) ks vs (suc fuel) p a enough =
      let (n, g) = next_key-IsAt ks vs k v es p.map a in
      rw (n, g, walk)
        (walk-scan es (ks ++ k ∷ []) (vs ++ v ∷ []) fuel (visited k v p)
          (visit-IsAt ks vs k v es p a) (omega arith))

  pub reset-vectors :
      (s : BpfFlowMap W) (all : List (FlowKey × FlowValue))
      (h : IsBatchLookup lib.flows_batch s.bpf.world all)
      → s.bpf.loaded ≡ true
      → h.left none + h.limit < fuel₀
      → reset lib fuel₀ s
        ≡ record { bpf = s.bpf; keys = (vectors all).keys; values = (vectors all).values; pos = 0 }
  unfolding reset snapshot
  reset-vectors s all h l enough =
      ground (arith, batch_read_all lib.flows_batch s.bpf.world all h fuel₀ enough)

  -- A pass over the BPF map returns, and is the pass over the entries that the map holds: with fuel
  -- for the batched walk and one round for each entry and the end.
  pub run-scan :
      (s : BpfFlowMap W) (last : Tracker) (all : List (FlowKey × FlowValue))
      (h : IsBatchLookup lib.flows_batch s.bpf.world all) (fuel : ℕ)
      → s.bpf.loaded ≡ true
      → h.left none + h.limit < fuel₀
      → length all < fuel
      → run (bpf_flow_map lib fuel₀) t now fuel s last
        ≡ some (
            prune
              (bpf_flow_map lib fuel₀)
              t
              now
              (scan (bpf_flow_map lib fuel₀) t now advance all (start (reset lib fuel₀ s) last)))
  unfolding run
  run-scan s last all h fuel l enough more =
      rw
        (
          walk-scan all [] [] fuel (start (reset lib fuel₀ s) last)
              (rw (reset-vectors s all h l enough)
                (record { keys_at = refl; values_at = refl; pos_at = refl; same = refl }))
              more,
          run,
        )
        refl
