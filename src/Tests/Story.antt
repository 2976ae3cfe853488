-- ===== src/Tests/Story.antt =====
-- Packets and passes over a concrete flow map.
use obserwrt.Prelude.{
  ℕ, ◌*◌, ◌≡◌, refl, false, true, none, some, List, [], ◌∷◌, ◌++◌, arith, find, put, erase,
  keep_seen, contains, bytes_eq, find-erase, if_cases,
}
use obserwrt.Flow.{FlowKey, FlowValue, flow_key_eq, key_eq, key_eq_iff, ingress}
use obserwrt.Ebpf.Observe.{sight, key_of, segs_of, l3len_of, observe}
use obserwrt.Lifecycle.{Timeouts, run, walk, visit, prune, is_idle, growth, changed}
use obserwrt.Lifecycle.Scan.{Distinct}
use obserwrt.Lifecycle.Accounting.{total}
use obserwrt.Bpf.Snapshot.{reset, next_key, get, delete_key}
use obserwrt.Bpf.BatchWalk.{batch_read, batch_walk}
use obserwrt.Bpf.{Libbpf, snapshot}
use obserwrt.Bpf
use obserwrt.Timeline.{Event, packet, tick, System, IsShared, AllAllowed, step, play, arrived}
use obserwrt.Timeline.Measure.{wire_packets, wire_octets}
use obserwrt.Timeline.Exactness.{play-exact}
use obserwrt.Tests.World.{lookup_call, lookup_call-IsBatchLookup}
use obserwrt.Tests.Packets.{flow_map, dev_map, flow_map-IsHashMap, packet-IsSkb, key}
use obserwrt.Tests.Packets

abbrev Entries : Type 0
Entries = List (FlowKey × FlowValue)

-- the entries that `find` sees
uniq : Entries → Entries
uniq [] = []
uniq ((k, v) ∷ m) = (k, v) ∷ erase k (uniq m)

find-uniq : (m : Entries) (j : FlowKey) → find j (uniq m) ≡ find j m
unfolding find uniq
find-uniq [] j = refl
find-uniq ((k, v) ∷ m) j = ground (arith, find-erase k j (uniq m), find-uniq m j)

erase-Distinct : (k : FlowKey) (m : Entries) → Distinct m → Distinct (erase k m)
unfolding erase
erase-Distinct k [] d = d
erase-Distinct k ((j, v) ∷ m) (fresh, d) =
    if_cases Distinct (key_eq j k) _ _ (λ _. erase-Distinct k m d)
      (λ _. (ground (arith, find-erase k j m, fresh), erase-Distinct k m d))

uniq-Distinct : (m : Entries) → Distinct (uniq m)
unfolding uniq
uniq-Distinct [] = tt
uniq-Distinct ((k, v) ∷ m) = (
  ground (arith, find-erase k k (uniq m), key_eq_iff k k),
  erase-Distinct k (uniq m) (uniq-Distinct m),
)

abbrev lib : Libbpf Entries
lib = record {
  attach_tcx = λ w d eth i. (true, w);
  destroy_link = λ w d i. w;
  devstats_delete = λ w i d. w;
  attached_update = λ w i. (true, w);
  attached_delete = λ w i. w;
  devstats_entries = λ w. 256;
  flows_batch = lookup_call uniq;
  flows_lookup = λ w k. find k w;
  flows_delete = λ w k. (true, erase k w);
}

abbrev lib-IsShared : IsShared lib flow_map
lib-IsShared = record {
  laws = flow_map-IsHashMap;
  deletes = record { lookup-delete = λ w k j. find-erase k j w };
  same = λ w k. refl;
  contents = uniq;
  batch = lookup_call-IsBatchLookup uniq;
  distinct = uniq-Distinct;
  find-contents = find-uniq;
}

abbrev at_second : ℕ → Event
at_second n =
    packet (record { skb = Packets.packet; direction = ingress; eth = false; now = n * 1000000000 })

abbrev timeouts : Timeouts
timeouts = record { tcp = 300; udp = 60; icmp = 30; general = 10 }

-- two packets and a pass, and after ten minutes of silence a pass that deletes the flow, which then comes back
abbrev story : List Event
story = at_second 1 ∷ at_second 2 ∷ tick 3000000000 ∷ tick 603000000000 ∷ at_second 604 ∷ []

abbrev boot : System Entries ℕ
boot = record {
  kernel = Packets.kernel;
  map = record {
    bpf = record { loaded = true; tracer = true; atts = []; world = [] };
    keys = [];
    values = [];
    pos = 0;
  };
  last = [];
  out = [];
}

boot-AllAllowed :
    AllAllowed lib flow_map dev_map 2 3 timeouts lib-IsShared
      (story ++ tick 605000000000 ∷ [])
      (some boot)
unfolding step observe uniq find put erase keep_seen contains key_eq bytes_eq run walk visit prune
    is_idle growth changed reset snapshot batch_read batch_walk next_key get delete_key segs_of
    Bpf.erase
boot-AllAllowed = (
  (packet-IsSkb, omega arith, omega arith),
  (
    (packet-IsSkb, omega arith, omega arith),
    (
      (omega arith, omega arith),
      (
        (omega arith, omega arith),
        ((packet-IsSkb, omega arith, omega arith), ((omega arith, omega arith), tt)),
      ),
    ),
  ),
)

nothing_held : flow_map.lookup boot.kernel.flows key ≡ none
unfolding find
nothing_held = refl

packets_arrived : arrived wire_packets key story ≡ 3
unfolding sight key_of segs_of key_eq bytes_eq
packets_arrived = refl

octets_arrived : arrived wire_octets key story ≡ 120
unfolding sight key_of segs_of key_eq bytes_eq l3len_of
octets_arrived = refl

play-exact_example :
    (s' : System Entries ℕ) × (play lib flow_map dev_map 2 3 timeouts
        (story ++ tick 605000000000 ∷ [])
        boot
      ≡ some s')
    × (total (λ d. d.packets) key s'.out ≡ arrived wire_packets key story)
    × (total (λ d. d.bytes) key s'.out ≡ arrived wire_octets key story)
play-exact_example =
    play-exact lib flow_map dev_map 2 3 timeouts lib-IsShared key story 605000000000 boot refl refl
      refl nothing_held boot-AllAllowed (omega (arith, packets_arrived))
      (omega (arith, octets_arrived))
