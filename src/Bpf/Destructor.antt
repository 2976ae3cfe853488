-- ===== src/Bpf/Destructor.antt =====
-- The destructor takes the programs off all devices (Bpf::~Bpf of src/bpf.cpp).
use obserwrt.Prelude.{
  ℕ, ◌<◌, ◌≡◌, ◌⊎◌, inl, inr, Bool, true, false, some, List, [], ◌∷◌, arith, ◌==◌, if◌then◌else◌,
  find, nat_eq, Bool-cases, Option-cases,
}
use obserwrt.Flow.{ingress, egress}
use obserwrt.Bpf.{Libbpf, Bpf, Links, links_of}
use obserwrt.Bpf.Attach.{HasHooks, IsMirrored}
use obserwrt.Bpf.Load.{destroy_links}

-- the link of a direction
abbrev link_in : ℕ → Links → Bool
link_in d l = if d == ingress then l.in_link else l.eg_link

module _ {W : Type 0} (lib : Libbpf W) (h : HasHooks lib) where
  -- the hook of a direction and device after one round
  round_off :
      (i d j : ℕ) (l : Links) (w : W)
      → d < 2
      → h.hook w d j ≡ false ⊎ ((i ≡ j) × (link_in d l ≡ true))
      → h.hook (destroy_links lib ((i, l) ∷ []) w) d j ≡ false
  unfolding destroy_links
  round_off i d j l w two o =
      let w₁ = if l.in_link then lib.destroy_link w ingress i else w in
      ground
        (arith, o, two, h.hook-destroy_link w ingress d i j, h.hook-destroy_link w₁ egress d i j)

  stays_off :
      (atts : List (ℕ × Links)) (d j : ℕ) (w : W)
      → d < 2
      → h.hook w d j ≡ false
      → h.hook (destroy_links lib atts w) d j ≡ false
  unfolding destroy_links
  stays_off [] d j w two off = off
  stays_off ((i, l) ∷ atts) d j w two off =
      stays_off atts d j (destroy_links lib ((i, l) ∷ []) w) two (round_off i d j l w two (inl off))

  turns_off :
      (atts : List (ℕ × Links)) (d j : ℕ) (w : W) (l : Links)
      → d < 2
      → find j atts ≡ some l
      → link_in d l ≡ true
      → h.hook (destroy_links lib atts w) d j ≡ false
  unfolding destroy_links find
  turns_off [] d j w l two e on = cc
  turns_off ((i, k) ∷ atts) d j w l two e on =
      let w₁ = destroy_links lib ((i, k) ∷ []) w in
      elim (Bool-cases (i == j)) [
        | inl here ↦
            stays_off atts d j w₁ two
              (round_off i d j k w two (inr (ground (arith, here), ground (arith, e, here, on))))
        | inr later ↦ turns_off atts d j w₁ l two (ground (arith, e, later)) on
      ]

  -- The destructor leaves no program on any device, where the kernel's hooks are those that the class
  -- records.
  pub destroy_links-hook :
      (b : Bpf W) (d j : ℕ)
      → IsMirrored lib h b
      → d < 2
      → h.hook (destroy_links lib b.atts b.world) d j ≡ false
  destroy_links-hook b d j m two = elim (Bool-cases (link_in d (links_of (find j b.atts)))) [
    | inr off ↦
        stays_off b.atts d j b.world two
          (ground (arith, off, two, m.in_mirrored j, m.eg_mirrored j))
    | inl on ↦ elim (Option-cases (find j b.atts)) [
      | inl absent ↦ ground (arith, on, absent)
      | inr (l, found) ↦ turns_off b.atts d j b.world l two found (ground (arith, on, found))
    ]
  ]
