-- ===== src/Bpf/Purge.antt =====
-- Purging the flows of a device (Bpf::purge_ifindex of src/bpf.cpp).
use obserwrt.Prelude.{
  ℕ, ◌+◌, ◌<◌, ◌≡◌, refl, Bool, true, false, none, some, List, [], ◌∷◌, ◌++◌, arith, ◌==◌,
  if◌then◌else◌, Option-cases, inl, inr, Bool-cases, contains, contains-append, ◌&&◌, ◌||◌,
}
use obserwrt.Flow.{FlowKey, FlowValue, flow_key_eq, key_eq, key_eq_iff, ingress, egress}
use obserwrt.Bpf.Attach.{HasHooks, IsMirrored}
use obserwrt.Bpf.BatchWalk.{batch_walk, batch_walk_keeps, batch_size, IsBatchLookup, batch_walk-all}
use obserwrt.Bpf.{Libbpf, Bpf, erase, erase_all, victims_of, purge_ifindex, lookup}

module _ {W : Type 0} (lib : Libbpf W) where
  pub atts-erase_all : (b : Bpf W) (ks : List FlowKey) → (erase_all lib b ks).atts ≡ b.atts
  unfolding erase_all erase
  atts-erase_all b [] = refl
  atts-erase_all b (k ∷ ks) = ground (arith, atts-erase_all (erase lib b k).1 ks)

  pub hook-erase_all :
      (h : HasHooks lib) (b : Bpf W) (ks : List FlowKey) (d j : ℕ)
      → h.hook (erase_all lib b ks).world d j ≡ h.hook b.world d j
  unfolding erase_all erase
  hook-erase_all h b [] d j = refl
  hook-erase_all h b (k ∷ ks) d j =
      ground (arith, hook-erase_all h (erase lib b k).1 ks d j, h.hook-flows_delete b.world k d j)

  pub unchanged-IsMirrored :
      (h : HasHooks lib) (b c : Bpf W)
      → c.atts ≡ b.atts
      → ((d j : ℕ) → h.hook c.world d j ≡ h.hook b.world d j)
      → IsMirrored lib h b
      → IsMirrored lib h c × (c.atts ≡ b.atts)
  unchanged-IsMirrored h b c a k v = (
    record {
      in_mirrored = λ j. ground (arith, a, k ingress j, v.in_mirrored j);
      eg_mirrored = λ j. ground (arith, a, k egress j, v.eg_mirrored j);
      paired = λ j. ground (arith, a, v.paired j);
    },
    a,
  )

  -- Purging touches neither the attachments nor the hooks.
  pub purge_ifindex-IsMirrored :
      (h : HasHooks lib) (fuel : ℕ) (b b' : Bpf W) (i : ℕ)
      → purge_ifindex lib fuel b i ≡ some b'
      → IsMirrored lib h b
      → IsMirrored lib h b' × (b'.atts ≡ b.atts)
  unfolding purge_ifindex
  purge_ifindex-IsMirrored h fuel b b' i e v = elim (Bool-cases b.loaded) [
    | inr off ↦
        unchanged-IsMirrored h b b' (ground (arith, e, off)) (λ d j. ground (arith, e, off)) v
    | inl on ↦
        elim (Option-cases
          (batch_walk lib.flows_batch (victims_of lib i) fuel none batch_size [] b.world)) [
            | inl p ↦ ground (arith, e, on, p)
            | inr ((done, victims, w), p) ↦
                let c : Bpf W = record b { world = w } in
                let same : b' ≡ erase_all lib c victims = ground (arith, e, on, p) in
                unchanged-IsMirrored h b b' (ground (arith, same, atts-erase_all c victims))
                  (λ d j. ground (
                    arith,
                    same,
                    hook-erase_all h c victims d j,
                    batch_walk_keeps lib.flows_batch (victims_of lib i) (λ w. h.hook w d j)
                        (λ w token size. h.hook-flows_batch w token size d j) fuel none batch_size
                        [] b.world {done = done} {acc' = victims} {m' = w} p,
                  ))
                  v
          ]
  ]

  victims_of-append :
      (i : ℕ) (xs ys : List (FlowKey × FlowValue)) (acc : List FlowKey)
      → victims_of lib i (victims_of lib i acc xs) ys ≡ victims_of lib i acc (xs ++ ys)
  unfolding victims_of
  victims_of-append i [] ys acc = refl
  victims_of-append i ((k, v) ∷ xs) ys acc =
      victims_of-append i xs ys (if k.ifindex == i then acc ++ k ∷ [] else acc)

  -- whether a snapshot has an entry for a key
  abbrev pub has_entry : FlowKey → List (FlowKey × FlowValue) → Bool
  has_entry j [] = false
  has_entry j ((k, v) ∷ es) = key_eq k j || has_entry j es

  contains-victims_of :
      (i : ℕ) (j : FlowKey) (es : List (FlowKey × FlowValue)) (acc : List FlowKey)
      → contains j (victims_of lib i acc es)
        ≡ (contains j acc || (j.ifindex == i && has_entry j es))
  unfolding victims_of contains
  contains-victims_of i j [] acc = ground arith
  contains-victims_of i j ((k, v) ∷ es) acc = ground (
    arith,
    key_eq_iff k j,
    contains-append j acc (k ∷ []),
    contains-victims_of i j es (if k.ifindex == i then acc ++ k ∷ [] else acc),
  )

  -- What libbpf documents of deleting an element: its key is gone, and no other.
  pub record HasFlows : Type 0 where
    pub lookup-delete :
        (w : W) (k j : FlowKey)
        → lib.flows_lookup (lib.flows_delete w k).1 j
          ≡ (if key_eq k j then none else lib.flows_lookup w j)

  lookup-erase_all :
      (g : HasFlows) (ks : List FlowKey) (b : Bpf W) (j : FlowKey)
      → b.loaded ≡ true
      → lookup lib (erase_all lib b ks) j ≡ (if contains j ks then none else lookup lib b j)
  unfolding erase_all erase lookup contains
  lookup-erase_all g [] b j l = refl
  lookup-erase_all g (k ∷ ks) b j l = ground (
    arith,
    g.lookup-delete b.world k j,
    lookup-erase_all g ks (record b { world = (lib.flows_delete b.world k).1 }) j,
  )

  -- Purging a device returns, and afterwards the map holds no flow of the device that it held
  -- before, while every other flow has kept its value.
  pub purge_ifindex-lookup :
      (g : HasFlows) (fuel : ℕ) (b : Bpf W) (i : ℕ) (all : List (FlowKey × FlowValue))
      (h : IsBatchLookup lib.flows_batch b.world all)
      → b.loaded ≡ true
      → h.left none + h.limit < fuel
      → (b' : Bpf W) × (purge_ifindex lib fuel b i ≡ some b')
        × ((j : FlowKey)
            → lookup lib b' j
              ≡ (if j.ifindex == i && has_entry j all then none else lookup lib b j))
  unfolding purge_ifindex contains
  purge_ifindex-lookup g fuel b i all h l enough =
      let victims = victims_of lib i [] all in
      let walked : batch_walk lib.flows_batch (victims_of lib i) fuel none batch_size [] b.world
          ≡ some (true, victims, b.world) =
        ground (
          arith,
          enough,
          h.rest_all,
          batch_walk-all lib.flows_batch (victims_of lib i) b.world all h
              (λ acc xs ys. victims_of-append i xs ys acc) fuel none batch_size [] (omega arith)
              (omega arith),
        ) in
      (
        erase_all lib b victims,
        ground (arith, walked, l),
        λ j. ground (arith, lookup-erase_all g victims b j l, contains-victims_of i j all []),
      )
