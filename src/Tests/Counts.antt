-- ===== src/Tests/Counts.antt =====
-- The device counters of two devices on two CPUs.
use obserwrt.Prelude.{
  ℕ, ◌≡◌, refl, Bool, true, ◌&&◌, Option, none, some, List, [], ◌∷◌, arith, ◌==◌, set,
  if◌then◌else◌,
}
use mathlib.Core.List.{map}
use obserwrt.Ebpf.Observe.{DevKey, DevVal, bump_class}
use obserwrt.Bpf.BatchWalk.{enoent}
use obserwrt.Bpf.Stats.{StatsCalls, NextKey, key, read_dev_counters}
use obserwrt.Bpf.Stats
use obserwrt.Bpf.Slots.{Listing, counted_in, summed, plus_packet, read_dev_counters-bump_class}
use obserwrt.Tests.Packets.{packet}

-- the key at the head
abbrev first_key : Listing → NextKey
first_key [] = Stats.enoent
first_key ((k, slots) ∷ es) = key k

abbrev same_key : DevKey → DevKey → Bool
same_key a b = a.ifindex == b.ifindex && a.direction == b.direction

abbrev key_after : DevKey → Listing → NextKey
key_after k [] = Stats.enoent
key_after k ((j, slots) ∷ es) = if same_key j k then first_key es else key_after k es

abbrev slots_at : DevKey → Listing → Option (List DevVal)
slots_at k [] = none
slots_at k ((j, slots) ∷ es) = if same_key j k then some slots else slots_at k es

abbrev next_after : Listing → Option DevKey → NextKey
next_after es none = first_key es
next_after es (some k) = key_after k es

abbrev calls : StatsCalls Listing
calls = record {
  cpus = λ w. 2;
  next_key = next_after;
  lookup_dev = λ w k. slots_at k w;
  lookup_stat = λ w i. none;
  flows_entries = λ w. some 256;
  drops_batch = λ w token size. (record { errno = enoent; entries = []; token = 0 }, w);
}

abbrev dev : ℕ → DevKey
dev i = record { ifindex = i; direction = 0 }

-- a packet of each class
abbrev slot : ℕ → DevVal
slot n = record { packets = n ∷ 1 ∷ 0 ∷ 2 ∷ []; bytes = 60 ∷ 80 ∷ 0 ∷ 90 ∷ [] }

abbrev two_devices : Listing
two_devices = (dev 3, slot 1 ∷ slot 5 ∷ []) ∷ (dev 7, slot 2 ∷ slot 9 ∷ []) ∷ []

abbrev one_more : Listing
one_more = counted_in two_devices 1 0 (bump_class packet 0 (slot 2))

read_dev_counters-bump_class_example :
    (read_dev_counters calls 3 two_devices ≡ some (true, map summed two_devices))
    × (read_dev_counters calls 3 one_more
        ≡ some (
          true,
          set
              (map summed two_devices)
              1
              (plus_packet packet 0 (summed (dev 7, slot 2 ∷ slot 9 ∷ []))),
        ))
read_dev_counters-bump_class_example =
    read_dev_counters-bump_class calls two_devices one_more two_devices 3 1 0 (dev 7)
      (slot 2 ∷ slot 9 ∷ []) (slot 2) packet 0 (omega arith) (omega arith)
      (refl, refl, (refl, refl, refl)) (omega arith) refl refl ((refl, refl), ((refl, refl), tt))
      (((refl, refl), ((refl, refl), tt)), (((refl, refl), ((refl, refl), tt)), tt))
      (refl, refl, (refl, refl, refl))
