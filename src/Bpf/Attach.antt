-- ===== src/Bpf/Attach.antt =====
-- Attaching and detaching devices (Bpf::attach and Bpf::detach of src/bpf.cpp) against the TC hooks
-- that the kernel holds.
use obserwrt.Prelude.{
  ℕ, ◌<◌, ◌≡◌, ◌≢◌, Bool, true, false, ◌&&◌, Option, some, arith, ◌==◌, if◌then◌else◌, find, put,
  nat_eq, find-put, ==_iff, Option-cases, inl, inr,
}
use obserwrt.Flow.{ingress, egress, FlowKey}
use obserwrt.Bpf.{
  Libbpf, Bpf, Links, Attached, ok, err, unlinked, links_of, attach, attach_in, attach_eg,
  attach_mark, drop_dev_counters, detach, attached,
}

abbrev pub is_ok : Attached → Bool
is_ok (ok ws) = true
is_ok (err e) = false

-- Which TC hooks of the agent a world holds, and what libbpf documents of its calls: attaching adds
-- the hook or fails with no effect, destroying a link removes it, and map calls touch no hook.
pub record HasHooks {W : Type 0} (lib : Libbpf W) : Type 0 where
  pub hook : W → ℕ → ℕ → Bool
  pub hook-attach_tcx :
      (w : W) (d d' : ℕ) (eth : Bool) (i j : ℕ)
      → hook (lib.attach_tcx w d eth i).1 d' j
        ≡ (if d == d' && i == j && (lib.attach_tcx w d eth i).0 then true else hook w d' j)
  pub hook-destroy_link :
      (w : W) (d d' i j : ℕ)
      → hook (lib.destroy_link w d i) d' j ≡ (if d == d' && i == j then false else hook w d' j)
  pub hook-devstats_delete :
      (w : W) (i d d' j : ℕ) → hook (lib.devstats_delete w i d) d' j ≡ hook w d' j
  pub hook-attached_update :
      (w : W) (i d' j : ℕ) → hook (lib.attached_update w i).1 d' j ≡ hook w d' j
  pub hook-attached_delete :
      (w : W) (i d' j : ℕ) → hook (lib.attached_delete w i) d' j ≡ hook w d' j
  pub hook-flows_batch :
      (w : W) (token : Option ℕ) (size d j : ℕ)
      → hook (lib.flows_batch w token size).1 d j ≡ hook w d j
  pub hook-flows_delete :
      (w : W) (k : FlowKey) (d j : ℕ) → hook (lib.flows_delete w k).1 d j ≡ hook w d j

module _ {W : Type 0} (lib : Libbpf W) (h : HasHooks lib) where
  -- For every device the kernel holds both hooks or none, and exactly those that the class records.
  pub record IsMirrored (b : Bpf W) : Type 0 where
    pub in_mirrored : (j : ℕ) → h.hook b.world ingress j ≡ (links_of (find j b.atts)).in_link
    pub eg_mirrored : (j : ℕ) → h.hook b.world egress j ≡ (links_of (find j b.atts)).eg_link
    pub paired : (j : ℕ) → (links_of (find j b.atts)).in_link ≡ (links_of (find j b.atts)).eg_link

  hook-drop_dev_counters :
      (b : Bpf W) (i d j : ℕ) → h.hook (drop_dev_counters lib b i) d j ≡ h.hook b.world d j
  unfolding drop_dev_counters
  hook-drop_dev_counters b i d j = ground (
    arith,
    h.hook-devstats_delete b.world i ingress d j,
    h.hook-devstats_delete (lib.devstats_delete b.world i ingress) i egress d j,
  )

  hook-attach_mark :
      (b : Bpf W) (i d j : ℕ) → h.hook (attach_mark lib b i).1.world d j ≡ h.hook b.world d j
  unfolding attach_mark
  hook-attach_mark b i d j = ground (arith, h.hook-attached_update b.world i d j)

  atts-attach_mark : (b : Bpf W) (i : ℕ) → (attach_mark lib b i).1.atts ≡ b.atts
  unfolding attach_mark
  atts-attach_mark b i = ground arith

  is_ok-attach_mark : (b : Bpf W) (i : ℕ) → is_ok (attach_mark lib b i).0 ≡ true
  unfolding attach_mark
  is_ok-attach_mark b i = ground arith

  abbrev linked_as : Bool → Links
  linked_as ok? = record { in_link = ok?; eg_link = ok? }

  -- `attach_in` on a device without links sets both or none.
  atts-attach_in :
      (b : Bpf W) (i : ℕ) (eth : Bool)
      → (attach_in lib b i eth unlinked).1.atts
        ≡ put i (linked_as (is_ok (attach_in lib b i eth unlinked).0)) b.atts
  unfolding attach_in attach_eg
  atts-attach_in b i eth =
      let w = (lib.attach_tcx b.world ingress eth i).1 in
      let b' : Bpf W = record b {
        atts = put i (linked_as true) b.atts;
        world = (lib.attach_tcx w egress eth i).1;
      } in
      ground (arith, atts-attach_mark b' i, is_ok-attach_mark b' i)

  hook-attach_in :
      (b : Bpf W) (i : ℕ) (eth : Bool) (d j : ℕ)
      → d < 2
      → h.hook b.world d i ≡ false
      → h.hook (attach_in lib b i eth unlinked).1.world d j
        ≡ (if i == j then is_ok (attach_in lib b i eth unlinked).0 else h.hook b.world d j)
  unfolding attach_in attach_eg
  hook-attach_in b i eth d j hd none_yet =
      let w = (lib.attach_tcx b.world ingress eth i).1 in
      let w' = (lib.attach_tcx w egress eth i).1 in
      let b' : Bpf W = record b { atts = put i (linked_as true) b.atts; world = w' } in
      ground (
        arith,
        h.hook-attach_tcx b.world ingress d eth i j,
        h.hook-attach_tcx w egress d eth i j,
        h.hook-destroy_link w' ingress d i j,
        hook-attach_mark b' i d j,
        is_ok-attach_mark b' i,
      )

  pub attached-attach :
      (b : Bpf W) (i : ℕ) (eth : Bool) (j : ℕ)
      → i ≢ 0
      → IsMirrored b
      → attached lib (attach lib b i eth).1 j
        ≡ (if i == j then is_ok (attach lib b i eth).0 else attached lib b j)
  unfolding attach attached
  attached-attach b i eth j nz v =
      let c : Bpf W = record b { world = drop_dev_counters lib b i } in
      ground (
        arith,
        v.paired i,
        atts-attach_in c i eth,
        find-put i j (linked_as (is_ok (attach_in lib c i eth unlinked).0)) b.atts,
      )

  -- After an attachment, successful or not, the kernel still holds exactly the hooks recorded, and
  -- no device has one hook only.
  pub attach-IsMirrored :
      (b : Bpf W) (i : ℕ) (eth : Bool) → IsMirrored b → IsMirrored (attach lib b i eth).1
  unfolding attach
  attach-IsMirrored b i eth v = record {
    in_mirrored = λ j. ground (
      arith,
      v.paired i,
      v.in_mirrored i,
      v.eg_mirrored i,
      v.in_mirrored j,
      hook-drop_dev_counters b i ingress j,
      hook-drop_dev_counters b i ingress i,
      hook-attach_in (record b { world = drop_dev_counters lib b i }) i eth ingress j (omega arith),
      atts-attach_in (record b { world = drop_dev_counters lib b i }) i eth,
      find-put i j
          (linked_as (
            is_ok
              (attach_in lib (record b { world = drop_dev_counters lib b i }) i eth unlinked).0))
          b.atts,
    );
    eg_mirrored = λ j. ground (
      arith,
      v.paired i,
      v.in_mirrored i,
      v.eg_mirrored i,
      v.eg_mirrored j,
      hook-drop_dev_counters b i egress j,
      hook-drop_dev_counters b i egress i,
      hook-attach_in (record b { world = drop_dev_counters lib b i }) i eth egress j (omega arith),
      atts-attach_in (record b { world = drop_dev_counters lib b i }) i eth,
      find-put i j
          (linked_as (
            is_ok
              (attach_in lib (record b { world = drop_dev_counters lib b i }) i eth unlinked).0))
          b.atts,
    );
    paired = λ j. ground (
      arith,
      v.paired i,
      v.paired j,
      atts-attach_in (record b { world = drop_dev_counters lib b i }) i eth,
      find-put i j
          (linked_as (
            is_ok
              (attach_in lib (record b { world = drop_dev_counters lib b i }) i eth unlinked).0))
          b.atts,
    );
  }

  -- From a state in which the kernel holds both hooks of each device recorded as attached and no other hook,
  -- attaching a device with a nonzero interface number is all or nothing: if it succeeds, the kernel holds the device's ingress
  -- and egress hooks and it counts as attached, and if it fails, the kernel holds neither and it does not count;
  -- the hooks of every other device and whether it counts as attached are as before.
  pub attach-hook :
      (b : Bpf W) (i : ℕ) (eth : Bool) (j : ℕ)
      → i ≢ 0
      → IsMirrored b
      → (h.hook (attach lib b i eth).1.world ingress j
          ≡ (if i == j then is_ok (attach lib b i eth).0 else h.hook b.world ingress j))
        × (h.hook (attach lib b i eth).1.world egress j
            ≡ (if i == j then is_ok (attach lib b i eth).0 else h.hook b.world egress j))
        × (attached lib (attach lib b i eth).1 j
            ≡ (if i == j then is_ok (attach lib b i eth).0 else attached lib b j))
  unfolding attached
  attach-hook b i eth j nz v =
      let v' = attach-IsMirrored b i eth v in
      let a = attached-attach b i eth j nz v in
      (
        ground (arith, a, v.in_mirrored j, v.paired j, v'.in_mirrored j, v'.paired j),
        ground (arith, a, v.eg_mirrored j, v.paired j, v'.eg_mirrored j, v'.paired j),
        a,
      )

  pub attached-detach :
      (b : Bpf W) (i j : ℕ)
      → attached lib (detach lib b i) j ≡ (if i == j then false else attached lib b j)
  unfolding detach attached
  attached-detach b i j = ground (arith, find-put i j unlinked b.atts, ==_iff i j)

  hook-detach :
      (b : Bpf W) (i d j : ℕ) (l : Links)
      → d < 2
      → find i b.atts ≡ some l
      → h.hook (detach lib b i).world d j ≡ (
          if i == j && (if d == ingress then l.in_link else l.eg_link)
          then false
          else h.hook b.world d j)
  unfolding detach drop_dev_counters
  hook-detach b i d j l hd e =
      let w₁ = if l.in_link then lib.destroy_link b.world ingress i else b.world in
      let w₂ = if l.eg_link then lib.destroy_link w₁ egress i else w₁ in
      let w₃ = drop_dev_counters lib (record b { world = w₂ }) i in
      ground (
        arith,
        h.hook-destroy_link b.world ingress d i j,
        h.hook-destroy_link w₁ egress d i j,
        hook-drop_dev_counters (record b { world = w₂ }) i d j,
        h.hook-attached_delete w₃ i d j,
      )

  unlinked-IsMirrored :
      (b c : Bpf W) (i : ℕ) (l : Links)
      → IsMirrored b
      → find i b.atts ≡ some l
      → c.atts ≡ put i unlinked b.atts
      → ((j : ℕ)
          → h.hook c.world ingress j
            ≡ (if i == j && l.in_link then false else h.hook b.world ingress j))
      → ((j : ℕ)
          → h.hook c.world egress j
            ≡ (if i == j && l.eg_link then false else h.hook b.world egress j))
      → IsMirrored c
  unlinked-IsMirrored b c i l v e a hi he = record {
    in_mirrored = λ j. ground (arith, hi j, v.in_mirrored j, find-put i j unlinked b.atts);
    eg_mirrored = λ j. ground (arith, he j, v.eg_mirrored j, find-put i j unlinked b.atts);
    paired = λ j. ground (arith, v.paired j, find-put i j unlinked b.atts);
  }

  atts-detach :
      (b : Bpf W) (i : ℕ) (l : Links)
      → find i b.atts ≡ some l
      → (detach lib b i).atts ≡ put i unlinked b.atts
  unfolding detach
  atts-detach b i l e = ground arith

  -- Detaching a device removes its hooks from the kernel, and no others.
  pub detach-IsMirrored : (b : Bpf W) (i : ℕ) → IsMirrored b → IsMirrored (detach lib b i)
  unfolding detach
  detach-IsMirrored b i v = elim (Option-cases (find i b.atts)) [
    | inl e ↦ rw (e, detach) v
    | inr (l, e) ↦
        unlinked-IsMirrored b (detach lib b i) i l v e (atts-detach b i l e)
          (λ j. hook-detach b i ingress j l (omega arith) e)
          (λ j. hook-detach b i egress j l (omega arith) e)
  ]
