-- ===== src/Daemon/LoopKept.antt =====
-- What a pass and a link event keep of class Bpf: the loaded object, and for a pass the attachments and hooks
-- (src/bpf.cpp, src/lifecycle.cpp, src/main.cpp).
use obserwrt.Prelude.{
  ℕ, ◌≡◌, refl, ◌∙◌, Bool, none, some, List, [], ◌∷◌, arith, Bytes, Bool-cases, Option-cases, inl,
  inr,
}
use obserwrt.Flow.{FlowKey, FlowValue}
use obserwrt.Lifecycle.{Pass, Timeouts, Tracker, visit, prune}
use obserwrt.Lifecycle.Scan.{scan}
use obserwrt.Bpf.Attach.{HasHooks, IsMirrored}
use obserwrt.Bpf.BatchWalk.{batch_walk, batch_size}
use obserwrt.Bpf.Purge.{unchanged-IsMirrored}
use obserwrt.Bpf.Snapshot.{BpfFlowMap, bpf_flow_map, delete_key, advance, reset, reset-vectors}
use obserwrt.Bpf.Passes.{IsReady, pass_over}
use obserwrt.Bpf.{Libbpf, Bpf, ok, err}
use obserwrt.Bpf
use obserwrt.Daemon.{LinkEvent, Daemon, react, on_link, link_is_ethernet}

module _ {W : Type 0} (lib : Libbpf W) where
  loaded-attach : (b : Bpf W) (i : ℕ) (eth : Bool) → (Bpf.attach lib b i eth).1.loaded ≡ b.loaded
  unfolding Bpf.attach Bpf.attach_in Bpf.attach_eg Bpf.attach_mark
  loaded-attach b i eth = ground arith

  loaded-detach : (b : Bpf W) (i : ℕ) → (Bpf.detach lib b i).loaded ≡ b.loaded
  unfolding Bpf.detach
  loaded-detach b i = ground arith

  loaded-erase_all : (b : Bpf W) (ks : List FlowKey) → (Bpf.erase_all lib b ks).loaded ≡ b.loaded
  unfolding Bpf.erase_all Bpf.erase
  loaded-erase_all b [] = refl
  loaded-erase_all b (k ∷ ks) = ground (arith, loaded-erase_all (Bpf.erase lib b k).1 ks)

  loaded-purge_ifindex :
      (fuel : ℕ) (b b' : Bpf W) (i : ℕ)
      → Bpf.purge_ifindex lib fuel b i ≡ some b'
      → b'.loaded ≡ b.loaded
  unfolding Bpf.purge_ifindex
  loaded-purge_ifindex fuel b b' i e = elim (Bool-cases b.loaded) [
    | inr off ↦ ground (arith, e, off)
    | inl on ↦
        elim (Option-cases
          (batch_walk lib.flows_batch (Bpf.victims_of lib i) fuel none batch_size [] b.world)) [
            | inl p ↦ ground (arith, e, on, p)
            | inr ((done, victims, w), p) ↦
                ground (arith, e, on, p, loaded-erase_all (record b { world = w }) victims)
          ]
  ]

  module _ (fnmatch : Bytes → Bytes → Bool) (fuel : ℕ) (devices : List Bytes) (ev : LinkEvent) where
    loaded-react :
        (s s' : Daemon W)
        → react lib fnmatch fuel devices ev s ≡ some s'
        → s'.bpf.loaded ≡ s.bpf.loaded
    unfolding react
    loaded-react s s' e =
        let i = ev.ifindex in
        let d = Bpf.detach lib s.bpf i in
        elim (Option-cases (Bpf.purge_ifindex lib fuel d i)) [
          | inl p ↦ ground (arith, e, p, loaded-attach s.bpf i (link_is_ethernet ev.type))
          | inr (b, p) ↦ ground (
            arith,
            e,
            p,
            loaded-purge_ifindex fuel d b i p,
            loaded-detach s.bpf i,
            loaded-attach s.bpf i (link_is_ethernet ev.type),
          )
        ]

    pub loaded-on_link :
        (s s' : Daemon W)
        → on_link lib fnmatch fuel devices ev s ≡ some s'
        → s'.bpf.loaded ≡ s.bpf.loaded
    unfolding on_link
    loaded-on_link s s' e = elim (Option-cases (react lib fnmatch fuel devices ev s)) [
      | inl p ↦ ground (arith, e, p)
      | inr (r, p) ↦ ground (arith, e, p, loaded-react s r p)
    ]

module _ {W : Type 0} (lib : Libbpf W) (h : HasHooks lib) (walk_fuel : ℕ) (t : Timeouts)
    (now : ℕ) where
  atts-visit :
      (k : FlowKey) (v : FlowValue) (p : Pass (BpfFlowMap W))
      → (visit (bpf_flow_map lib walk_fuel) t now k v p).map.bpf.atts ≡ p.map.bpf.atts
  unfolding visit delete_key Bpf.erase
  atts-visit k v p = ground arith

  hook-visit :
      (k : FlowKey) (v : FlowValue) (p : Pass (BpfFlowMap W)) (d j : ℕ)
      → h.hook (visit (bpf_flow_map lib walk_fuel) t now k v p).map.bpf.world d j
        ≡ h.hook p.map.bpf.world d j
  unfolding visit delete_key Bpf.erase
  hook-visit k v p d j = ground (arith, h.hook-flows_delete p.map.bpf.world k d j)

  atts-scan :
      (es : List (FlowKey × FlowValue)) (p : Pass (BpfFlowMap W))
      → (scan (bpf_flow_map lib walk_fuel) t now advance es p).map.bpf.atts ≡ p.map.bpf.atts
  unfolding scan
  atts-scan [] p = refl
  atts-scan ((k, v) ∷ es) p = atts-scan es _ ∙ atts-visit k v (record p { map = advance p.map })

  hook-scan :
      (es : List (FlowKey × FlowValue)) (p : Pass (BpfFlowMap W)) (d j : ℕ)
      → h.hook (scan (bpf_flow_map lib walk_fuel) t now advance es p).map.bpf.world d j
        ≡ h.hook p.map.bpf.world d j
  unfolding scan
  hook-scan [] p d j = refl
  hook-scan ((k, v) ∷ es) p d j =
      hook-scan es _ d j ∙ hook-visit k v (record p { map = advance p.map }) d j

  module _ (fuel : ℕ) (s : BpfFlowMap W) (last : Tracker) (all : List (FlowKey × FlowValue))
      (r : IsReady lib walk_fuel fuel s all) where
    reset-bpf : (reset lib walk_fuel s).bpf ≡ s.bpf
    reset-bpf = rw (reset-vectors lib t now walk_fuel s all r.batch r.is_loaded r.walk_enough) refl

    -- A pass touches neither the attachments nor the hooks.
    pub pass_over-IsMirrored :
        IsMirrored lib h s.bpf
        → IsMirrored lib h (pass_over lib walk_fuel fuel t now s last all).map.bpf
          × ((pass_over lib walk_fuel fuel t now s last all).map.bpf.atts ≡ s.bpf.atts)
    unfolding prune
    pass_over-IsMirrored =
        unchanged-IsMirrored lib h s.bpf (pass_over lib walk_fuel fuel t now s last all).map.bpf
          (atts-scan all _ ∙ rw reset-bpf refl) (λ d j. hook-scan all _ d j ∙ rw reset-bpf refl)
