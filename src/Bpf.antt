-- ===== src/Bpf.antt =====
-- The libbpf side of the agent (src/bpf.hpp, src/bpf.cpp): device attachment, and the flow map.
-- libbpf and the kernel are the parameter `Libbpf`, over a world `W` that its calls change.
pub mod BatchWalk
pub mod Attach
pub mod Snapshot
pub mod Passes
pub mod Stats
pub mod Slots
pub mod Expiry
pub mod Purge
pub mod Load
pub mod Ownership
pub mod Destructor
use obserwrt.Prelude.{
  ℕ, zero, suc, ◌+◌, ◌-◌, ◌*◌, ◌/◌, ◌≤◌, Bool, true, false, ◌&&◌, ◌||◌, not, Option, none, some,
  List, [], ◌∷◌, ◌++◌, ltb, leb, ◌==◌, if◌then◌else◌, find, put, nat_eq,
}
use obserwrt.Flow.{FlowKey, FlowValue, ingress, egress, key_eq}
use BatchWalk.{Batch, Vectors, batch_walk, batch_read, batch_size}

-- The calls of libbpf that the class makes. A direction is `ingress` or `egress`.
pub record Libbpf (W : Type 0) : Type 0 where
  -- bpf_program__attach_tcx of the program pair for the framing; false is a null link
  pub attach_tcx : W → ℕ → Bool → ℕ → Bool × W
  -- bpf_link__destroy of the link of a direction and device
  pub destroy_link : W → ℕ → ℕ → W
  -- bpf_map__delete_elem and bpf_map__update_elem on the device maps
  pub devstats_delete : W → ℕ → ℕ → W
  pub attached_update : W → ℕ → Bool × W
  pub attached_delete : W → ℕ → W
  -- bpf_map__max_entries of the device counters
  pub devstats_entries : W → ℕ
  -- the flow map
  pub flows_batch : W → Option ℕ → ℕ → Batch FlowKey FlowValue × W
  pub flows_lookup : W → FlowKey → Option FlowValue
  pub flows_delete : W → FlowKey → Bool × W

-- `Bpf::Links`: whether each pointer is set
pub record Links : Type 0 where
  pub in_link : Bool
  pub eg_link : Bool

-- `class Bpf`: `loaded` stands for the non-null map pointers of the loaded TC object, `tracer` for a
-- non-null `attached_`.
pub record Bpf (W : Type 0) : Type 0 where
  pub loaded : Bool
  pub tracer : Bool
  pub atts : List (ℕ × Links)
  pub world : W

-- the texts put into `*warn`, with their numbers
pub data Warning : Type 0 where
  attached_full : Warning
  devstats_full : ℕ → ℕ → Warning
  devstats_near : ℕ → ℕ → Warning

pub data AttachError : Type 0 where
  invalid_ifindex attach_ingress attach_egress : AttachError

pub data Attached : Type 0 where
  ok : List Warning → Attached
  err : AttachError → Attached

abbrev pub both : Links → Bool
both l = l.in_link && l.eg_link

abbrev pub unlinked : Links
unlinked = record { in_link = false; eg_link = false }

-- `atts_[ifindex]`
abbrev pub links_of : Option Links → Links
links_of none = unlinked
links_of (some l) = l

-- `Bpf::live_count`
unfoldable pub live_count : List (ℕ × Links) → ℕ
live_count [] = 0
live_count ((i, l) ∷ m) = (if both l then 1 else 0) + live_count m

-- the capacity warning at the end of `attach`
unfoldable pub capacity_warning : ℕ → ℕ → List Warning
capacity_warning live cap =
    if ltb cap live
    then devstats_full live cap ∷ []
    else if ltb 0 cap && leb (cap * 9) (live * 10)
    then devstats_near live cap ∷ []
    else []

module _ {W : Type 0} (lib : Libbpf W) where
  -- `Bpf::drop_dev_counters`
  unfoldable pub drop_dev_counters : Bpf W → ℕ → W
  drop_dev_counters b i =
      if b.loaded
      then lib.devstats_delete (lib.devstats_delete b.world i ingress) i egress
      else b.world

  -- the end of `attach`, with both hooks live: mark the device, and warn
  unfoldable pub attach_mark : Bpf W → ℕ → Attached × Bpf W
  unfolding capacity_warning live_count
  attach_mark b i =
      if b.tracer
      then (let (stored, w) = lib.attached_update b.world i in
          (
            ok (
                (if stored then [] else attached_full ∷ [])
                ++ capacity_warning (live_count b.atts) (lib.devstats_entries w / 2)),
            record b { world = w },
          ))
      else (ok (capacity_warning (live_count b.atts) (lib.devstats_entries b.world / 2)), b)

  -- `attach` from the egress hook on; `l` is the entry, with its ingress link set
  unfoldable pub attach_eg : Bpf W → ℕ → Bool → Links → Attached × Bpf W
  unfolding attach_mark
  attach_eg b i eth l =
      if l.eg_link
      then attach_mark (record b { atts = put i l b.atts }) i
      else (let (linked, w) = lib.attach_tcx b.world egress eth i in
          if linked
          then attach_mark
              (record b { atts = put i (record l { eg_link = true }) b.atts; world = w }) i
          else (
            err attach_egress,
            record b {
              atts = put i (record l { in_link = false }) b.atts;
              world = lib.destroy_link w ingress i;
            },
          ))

  -- `attach` from the ingress hook on
  unfoldable pub attach_in : Bpf W → ℕ → Bool → Links → Attached × Bpf W
  unfolding attach_eg
  attach_in b i eth l =
      if l.in_link
      then attach_eg b i eth l
      else (let (linked, w) = lib.attach_tcx b.world ingress eth i in
          if linked
          then attach_eg (record b { world = w }) i eth (record l { in_link = true })
          else (err attach_ingress, record b { atts = put i l b.atts; world = w }))

  -- `Bpf::attach`
  unfoldable pub attach : Bpf W → ℕ → Bool → Attached × Bpf W
  unfolding attach_in drop_dev_counters
  attach b i eth =
      let l = links_of (find i b.atts) in
      if i == 0
      then (err invalid_ifindex, b)
      else if both l
      then (ok [], b)
      else attach_in
          (if not l.in_link && not l.eg_link then record b { world = drop_dev_counters b i } else b)
          i eth l

  -- `Bpf::detach`
  unfoldable pub detach : Bpf W → ℕ → Bpf W
  unfolding drop_dev_counters
  detach b i = elim (find i b.atts) [
    | none ↦ b
    | some l ↦
        let w₁ = if l.in_link then lib.destroy_link b.world ingress i else b.world in
        let w₂ = if l.eg_link then lib.destroy_link w₁ egress i else w₁ in
        let w₃ = drop_dev_counters (record b { world = w₂ }) i in
        record b {
          atts = put i unlinked b.atts;
          world = if b.tracer then lib.attached_delete w₃ i else w₃;
        }
  ]

  -- `Bpf::attached`
  unfoldable pub attached : Bpf W → ℕ → Bool
  attached b i = elim (find i b.atts) [ none ↦ false | some l ↦ both l ]

  -- `Bpf::snapshot`, with the fuel of its walk; `none` means that the fuel ran out
  unfoldable pub snapshot : ℕ → Bpf W → Option (Bool × Vectors FlowKey FlowValue × Bpf W)
  snapshot fuel b =
      if b.loaded
      then elim (batch_read lib.flows_batch fuel b.world) [
        | none ↦ none
        | some (done, vs, w) ↦ some (done, vs, record b { world = w })
      ]
      else some (false, record { keys = []; values = [] }, b)

  -- `Bpf::lookup`
  unfoldable pub lookup : Bpf W → FlowKey → Option FlowValue
  lookup b k = if b.loaded then lib.flows_lookup b.world k else none

  -- `Bpf::erase`
  unfoldable pub erase : Bpf W → FlowKey → Bool × Bpf W
  erase b k =
      if b.loaded
      then (let (done, w) = lib.flows_delete b.world k in (done, record b { world = w }))
      else (false, b)

  -- the callback of the walk in `purge_ifindex`
  unfoldable pub victims_of : ℕ → List FlowKey → List (FlowKey × FlowValue) → List FlowKey
  victims_of i acc [] = acc
  victims_of i acc ((k, v) ∷ es) = victims_of i (if k.ifindex == i then acc ++ k ∷ [] else acc) es

  -- the loop that erases the victims
  unfoldable pub erase_all : Bpf W → List FlowKey → Bpf W
  unfolding erase
  erase_all b [] = b
  erase_all b (k ∷ ks) = erase_all (erase b k).1 ks

  -- `Bpf::purge_ifindex`, with the fuel of its walk
  unfoldable pub purge_ifindex : ℕ → Bpf W → ℕ → Option (Bpf W)
  unfolding erase_all victims_of
  purge_ifindex fuel b i =
      if b.loaded
      then elim (batch_walk lib.flows_batch (victims_of i) fuel none batch_size [] b.world) [
        | none ↦ none
        | some (done, victims, w) ↦ some (erase_all (record b { world = w }) victims)
      ]
      else some b
