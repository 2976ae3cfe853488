-- ===== src/Bpf/Slots.antt =====
-- The sums over the CPUs that the agent reads (src/bpf.cpp) move with the slot of the one CPU that counts a
-- packet (bpf/obserwrt-bpf.c).
use Prim.Native.Nat.{max}
use native.Mathlib.Nat.{zero-add}
use obserwrt.Prelude.{
  ℕ, ◌+◌, ◌%◌, ◌^◌, ◌==◌, if◌then◌else◌, get_or, zero, suc, ◌<◌, ◌≡◌, refl, sym, ap, ◌∙◌, true,
  Option, none, some, List, [], ◌∷◌, arith, length, get_elem?, set,
}
use mathlib.Core.List.{map}
use obserwrt.Ebpf.{Skb}
use obserwrt.Ebpf.Observe.{DevKey, DevVal, add64, segs_of, bump, bump_class}
use obserwrt.Metrics.{DevCounters}
use obserwrt.Bpf.Stats.{
  StatsCalls, add_classes, sum_slots, fresh_counters, read_dev_counters, dev_walk, key, enoent,
}

add64_swap : (a b c : ℕ) → add64 (add64 a b) c ≡ add64 (add64 a c) b
add64_swap a b c = omega arith

add64_assoc : (a b c : ℕ) → add64 a (add64 b c) ≡ add64 (add64 a b) c
add64_assoc a b c = omega arith

add_classes_nil : (ds : List ℕ) → add_classes ds [] ≡ ds
unfolding add_classes
add_classes_nil [] = refl
add_classes_nil (d ∷ ds) = refl

length-add_classes : (ds vs : List ℕ) → length (add_classes ds vs) ≡ length ds
unfolding add_classes
length-add_classes [] vs = refl
length-add_classes (d ∷ ds) [] = refl
length-add_classes (d ∷ ds) (v ∷ vs) = ap suc (length-add_classes ds vs)

add_classes-bump_left :
    (ds vs : List ℕ) (c n : ℕ) → add_classes (bump ds c n) vs ≡ bump (add_classes ds vs) c n
unfolding add_classes bump
add_classes-bump_left [] vs c n = refl
add_classes-bump_left (d ∷ ds) [] c n = add_classes_nil (bump (d ∷ ds) c n)
add_classes-bump_left (d ∷ ds) (v ∷ vs) zero n = rw (add64_swap d n v) refl
add_classes-bump_left (d ∷ ds) (v ∷ vs) (suc c) n =
    ap (λ xs. add64 d v ∷ xs) (add_classes-bump_left ds vs c n)

add_classes-bump_right :
    (ds vs : List ℕ) (c n : ℕ)
    → length ds ≡ length vs
    → add_classes ds (bump vs c n) ≡ bump (add_classes ds vs) c n
unfolding add_classes bump
add_classes-bump_right [] vs c n h = refl
add_classes-bump_right (d ∷ ds) [] c n h = absurd (omega arith)
add_classes-bump_right (d ∷ ds) (v ∷ vs) zero n h = rw (add64_assoc d v n) refl
add_classes-bump_right (d ∷ ds) (v ∷ vs) (suc c) n h =
    ap (λ xs. add64 d v ∷ xs) (add_classes-bump_right ds vs c n (omega arith))

-- the counters of a device, with a packet counted in them
abbrev pub with_packet : Skb → ℕ → DevCounters → DevCounters
with_packet skb cls d = record d {
  packets = bump d.packets cls (segs_of skb);
  bytes = bump d.bytes cls skb.len;
}

-- a slot holds a counter for each class
abbrev pub IsSlot : DevVal → Type 0
IsSlot v = (length v.packets ≡ 4) × (length v.bytes ≡ 4)

abbrev pub AllSlots : List DevVal → Type 0
AllSlots [] = Unit {0}
AllSlots (v ∷ vs) = IsSlot v × AllSlots vs

sum_slots-with_packet :
    (skb : Skb) (cls : ℕ) (vs : List DevVal) (d : DevCounters)
    → sum_slots (with_packet skb cls d) vs ≡ with_packet skb cls (sum_slots d vs)
unfolding sum_slots
sum_slots-with_packet skb cls [] d = refl
sum_slots-with_packet skb cls (v ∷ vs) d =
    rw
      (
        add_classes-bump_left d.packets v.packets cls (segs_of skb),
        add_classes-bump_left d.bytes v.bytes cls skb.len,
      )
      (sum_slots-with_packet skb cls vs _)

-- A packet counted in the slot of one CPU is counted in the sum.
sum_slots-bump_class :
    (skb : Skb) (cls : ℕ) (vs : List DevVal) (i : ℕ) (v : DevVal) (d : DevCounters)
    → AllSlots vs
    → length d.packets ≡ 4
    → length d.bytes ≡ 4
    → get_elem? vs i ≡ some v
    → sum_slots d (set vs i (bump_class skb cls v)) ≡ with_packet skb cls (sum_slots d vs)
unfolding sum_slots bump_class
sum_slots-bump_class skb cls [] i v d a hp hb e = cc
sum_slots-bump_class skb cls (u ∷ vs) zero v d ((p, b), a) hp hb e =
    let same : v ≡ u = ground (arith, e) in
    rw
      (
        same,
        add_classes-bump_right d.packets u.packets cls (segs_of skb) (hp ∙ sym p),
        add_classes-bump_right d.bytes u.bytes cls skb.len (hb ∙ sym b),
      )
      (sum_slots-with_packet skb cls vs _)
sum_slots-bump_class skb cls (u ∷ vs) (suc i) v d ((p, b), a) hp hb e =
    sum_slots-bump_class skb cls vs i v _ a (length-add_classes d.packets u.packets ∙ hp)
      (length-add_classes d.bytes u.bytes ∙ hb) e

abbrev pub Listing : Type 0
Listing = List (DevKey × List DevVal)

-- what the agent makes of an entry
abbrev pub reading : DevKey × List DevVal → DevCounters
reading (k, slots) = sum_slots (fresh_counters k) slots

-- the reference: the sums over the CPUs of each class, modulo 2 ^ 64
abbrev pub total_of : (DevVal → List ℕ) → ℕ → List DevVal → ℕ
total_of f c [] = 0
total_of f c (v ∷ vs) = get_or (f v) c 0 + total_of f c vs

abbrev pub sums_of : (DevVal → List ℕ) → List DevVal → List ℕ
sums_of f vs =
    (total_of f 0 vs % 2 ^ 64)
    ∷ (total_of f 1 vs % 2 ^ 64)
    ∷ (total_of f 2 vs % 2 ^ 64)
    ∷ (total_of f 3 vs % 2 ^ 64)
    ∷ []

abbrev pub summed : DevKey × List DevVal → DevCounters
summed (k, slots) = record {
  ifindex = k.ifindex;
  direction = k.direction;
  packets = sums_of (λ v. v.packets) slots;
  bytes = sums_of (λ v. v.bytes) slots;
}

abbrev pub AllSummable : Listing → Type 0
AllSummable [] = Unit {0}
AllSummable ((k, slots) ∷ es) = AllSlots slots × AllSummable es

-- the counters of a device, with one packet for each segment counted in a class, and the bytes
abbrev pub plus_at : ℕ → ℕ → List ℕ → List ℕ
plus_at c n xs = set xs c ((get_or xs c 0 + n) % 2 ^ 64)

abbrev pub plus_packet : Skb → ℕ → DevCounters → DevCounters
plus_packet skb cls d = record d {
  packets = plus_at cls (max 1 skb.gso_segs) d.packets;
  bytes = plus_at cls skb.len d.bytes;
}

four_of : (xs : List ℕ) → length xs ≡ 4 → (a b c d : ℕ) × (xs ≡ a ∷ b ∷ c ∷ d ∷ [])
four_of [] h = absurd (omega arith)
four_of (a ∷ []) h = absurd (omega arith)
four_of (a ∷ b ∷ []) h = absurd (omega arith)
four_of (a ∷ b ∷ c ∷ []) h = absurd (omega arith)
four_of (a ∷ b ∷ c ∷ d ∷ []) h = (a, b, c, d, refl)
four_of (a ∷ b ∷ c ∷ d ∷ e ∷ xs) h = absurd (omega arith)

-- what adding the slots to four counters gives
abbrev added : (DevVal → List ℕ) → ℕ → ℕ → ℕ → ℕ → List DevVal → List ℕ
added f a b c d vs =
    ((a + total_of f 0 vs) % 2 ^ 64)
    ∷ ((b + total_of f 1 vs) % 2 ^ 64)
    ∷ ((c + total_of f 2 vs) % 2 ^ 64)
    ∷ ((d + total_of f 3 vs) % 2 ^ 64)
    ∷ []

-- the loop over one of the two arrays
abbrev adding : (DevVal → List ℕ) → List ℕ → List DevVal → List ℕ
adding f acc [] = acc
adding f acc (v ∷ vs) = adding f (add_classes acc (f v)) vs

abbrev AllFour : (DevVal → List ℕ) → List DevVal → Type 0
AllFour f [] = Unit {0}
AllFour f (v ∷ vs) = (length (f v) ≡ 4) × AllFour f vs

adding_lem :
    (f : DevVal → List ℕ) (a b c d : ℕ) (vs : List DevVal)
    → AllFour f vs
    → a < 2 ^ 64
    → b < 2 ^ 64
    → c < 2 ^ 64
    → d < 2 ^ 64
    → adding f (a ∷ b ∷ c ∷ d ∷ []) vs ≡ added f a b c d vs
unfolding add_classes
adding_lem f a b c d [] h ha hb hc hd = ground arith
adding_lem f a b c d (v ∷ vs) (four, h) ha hb hc hd =
    let (p, q, r, s, e) = four_of (f v) four in
    let step =
      adding_lem f (add64 a p) (add64 b q) (add64 c r) (add64 d s) vs h (omega arith) (omega arith)
        (omega arith) (omega arith) in
    rw e (step ∙ ground arith)

sum_slots_lem :
    (vs : List DevVal) (d : DevCounters)
    → sum_slots d vs ≡ record d {
      packets = adding (λ v. v.packets) d.packets vs;
      bytes = adding (λ v. v.bytes) d.bytes vs;
    }
unfolding sum_slots
sum_slots_lem [] d = refl
sum_slots_lem (v ∷ vs) d = sum_slots_lem vs _

packets_four : (vs : List DevVal) → AllSlots vs → AllFour (λ v. v.packets) vs
packets_four [] h = tt
packets_four (v ∷ vs) (h, hs) = (h.0, packets_four vs hs)

bytes_four : (vs : List DevVal) → AllSlots vs → AllFour (λ v. v.bytes) vs
bytes_four [] h = tt
bytes_four (v ∷ vs) (h, hs) = (h.1, bytes_four vs hs)

reading_lem : (k : DevKey) (vs : List DevVal) → AllSlots vs → reading (k, vs) ≡ summed (k, vs)
reading_lem k vs h =
    sum_slots_lem vs (fresh_counters k)
    ∙ rw
        (
          adding_lem (λ v. v.packets) 0 0 0 0 vs (packets_four vs h) (omega arith) (omega arith)
              (omega arith) (omega arith),
          adding_lem (λ v. v.bytes) 0 0 0 0 vs (bytes_four vs h) (omega arith) (omega arith)
              (omega arith) (omega arith),
        )
        (simp zero-add refl)

readings_lem : (es : Listing) → AllSummable es → map reading es ≡ map summed es
readings_lem [] h = refl
readings_lem ((k, vs) ∷ es) (h, hs) = rw (reading_lem k vs h, readings_lem es hs) refl

with_packet_lem :
    (skb : Skb) (cls : ℕ) (d : DevCounters) → with_packet skb cls d ≡ plus_packet skb cls d
unfolding bump segs_of
with_packet_lem skb cls d =
    let segs : (if skb.gso_segs == 0 then 1 else skb.gso_segs) ≡ max 1 skb.gso_segs =
      ground arith in
    rw segs refl

-- What the kernel documents of walking a hash map: from no key on, each key leads to the next, and
-- the last one to ENOENT.
abbrev pub Lists : {W : Type 0} → StatsCalls W → W → Option DevKey → Listing → Type 0
Lists calls w cur [] = calls.next_key w cur ≡ enoent
Lists calls w cur ((k, slots) ∷ es) =
    (calls.next_key w cur ≡ key k) × (calls.lookup_dev w k ≡ some slots) × Lists calls w (some k) es

-- the entries with a packet counted for the i-th key, on one CPU
abbrev pub counted_in : Listing → ℕ → ℕ → DevVal → Listing
counted_in [] j i v = []
counted_in ((k, slots) ∷ es) zero i v = (k, set slots i v) ∷ es
counted_in ((k, slots) ∷ es) (suc j) i v = (k, slots) ∷ counted_in es j i v

length-counted_in : (es : Listing) (j i : ℕ) (v : DevVal) → length (counted_in es j i v) ≡ length es
length-counted_in [] j i v = refl
length-counted_in (e ∷ es) zero i v = refl
length-counted_in (e ∷ es) (suc j) i v = ap suc (length-counted_in es j i v)

reading-counted_in :
    (skb : Skb) (cls : ℕ) (es : Listing) (j i : ℕ) (k : DevKey) (slots : List DevVal) (v : DevVal)
    → get_elem? es j ≡ some (k, slots)
    → get_elem? slots i ≡ some v
    → AllSlots slots
    → map reading (counted_in es j i (bump_class skb cls v))
      ≡ set (map reading es) j (with_packet skb cls (reading (k, slots)))
reading-counted_in skb cls [] j i k slots v e f a = cc
reading-counted_in skb cls ((k', slots') ∷ es) zero i k slots v e f a =
    let same_key : k' ≡ k = ground (arith, e) in
    let same_slots : slots' ≡ slots = ground (arith, e) in
    rw (same_key, same_slots)
      (ap (λ x. x ∷ map reading es)
        (sum_slots-bump_class skb cls slots i v (fresh_counters k) a refl refl f))
reading-counted_in skb cls (e' ∷ es) (suc j) i k slots v e f a =
    ap (λ xs. reading e' ∷ xs) (reading-counted_in skb cls es j i k slots v e f a)

module _ {W : Type 0} (calls : StatsCalls W) (w : W) where
  dev_walk_lem :
      (es : Listing) (fuel : ℕ) (cur : Option DevKey)
      → Lists calls w cur es
      → length es < fuel
      → dev_walk calls fuel w cur ≡ some (true, map reading es)
  unfolding dev_walk
  dev_walk_lem [] zero cur l h = absurd (omega arith)
  dev_walk_lem [] (suc fuel) cur l h = rw (l, dev_walk) refl
  dev_walk_lem ((k, slots) ∷ es) zero cur l h = absurd (omega arith)
  dev_walk_lem ((k, slots) ∷ es) (suc fuel) cur (e, f, l) h =
      rw (e, f, dev_walk) (rw (dev_walk_lem es fuel (some k) l (omega arith)) refl)

  pub read_dev_counters_lem :
      (es : Listing) (fuel : ℕ)
      → 0 < calls.cpus w
      → Lists calls w none es
      → length es < fuel
      → read_dev_counters calls fuel w ≡ some (true, map reading es)
  unfolding read_dev_counters
  read_dev_counters_lem es fuel c l h = ground (arith, c, dev_walk_lem es fuel none l h)

-- Given a CPU, fuel for the entries, and four classes in each slot, the walk over the device counters ends, and gives for each entry its
-- device and direction with, for each class, the sum over the CPUs modulo 2^64; and when a TC program has
-- counted one more packet, on any CPU, what is read differs in that entry and class only: by one packet for each GSO
-- segment, and by the packet's bytes.
pub read_dev_counters-bump_class :
    {W : Type 0} (calls : StatsCalls W) (w w' : W) (es : Listing) (fuel j i : ℕ) (k : DevKey)
    (slots : List DevVal) (v : DevVal) (skb : Skb) (cls : ℕ)
    → 0 < calls.cpus w
    → 0 < calls.cpus w'
    → Lists calls w none es
    → length es < fuel
    → get_elem? es j ≡ some (k, slots)
    → get_elem? slots i ≡ some v
    → AllSlots slots
    → AllSummable es
    → Lists calls w' none (counted_in es j i (bump_class skb cls v))
    → (read_dev_counters calls fuel w ≡ some (true, map summed es))
      × (read_dev_counters calls fuel w'
          ≡ some (true, set (map summed es) j (plus_packet skb cls (summed (k, slots)))))
read_dev_counters-bump_class calls w w' es fuel j i k slots v skb cls c c' l enough e f a sums l' =
    (
      read_dev_counters_lem calls w es fuel c l enough ∙ rw (readings_lem es sums) refl,
      read_dev_counters_lem calls w' (counted_in es j i (bump_class skb cls v)) fuel c' l'
            (omega (arith, length-counted_in es j i (bump_class skb cls v)))
          ∙ rw
              (
                reading-counted_in skb cls es j i k slots v e f a,
                readings_lem es sums,
                with_packet_lem skb cls (reading (k, slots)),
                reading_lem k slots a,
              )
              refl,
    )
