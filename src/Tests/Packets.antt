-- ===== src/Tests/Packets.antt =====
-- Packets on concrete bytes: the TC programs and the drop tracer.
use obserwrt.Prelude.{
  ℕ, ◌+◌, ◌≤◌, ◌<◌, ◌≡◌, refl, true, false, Option, none, some, List, [], ◌∷◌, ◌++◌, arith, ◌==◌,
  leb, if◌then◌else◌, Bytes, length, take, drop, replicate, find, put, find-put,
}
use obserwrt.Flow.{FlowKey, FlowValue, IsFlowKey, flow_key_eq, ingress}
use obserwrt.Ebpf.{Skb, ok, Ensures, ◌>>=◌}
use obserwrt.Ebpf.Parse.{eth_p_ip, eth_p_ipv6}
use obserwrt.Ebpf.Observe.{HashMap, DevKey, DevVal, Kernel, Sighting, sight, key_of}
use obserwrt.Ebpf.Keys.{IsSkb, sight-IsFlowKey}
use obserwrt.Ebpf.Counters.{IsHashMap}
use obserwrt.Ebpf.Drops.{Dropped, drop_parse}
use obserwrt.Ebpf.DropTuples.{Agrees, drop_parse-sight}

-- TCP from 10.0.0.1:8080 to 10.0.0.2:80
abbrev segment : Bytes
segment =
    0x45 ∷ 0 ∷ 0 ∷ 40 ∷ 0 ∷ 0 ∷ 0 ∷ 0 ∷ 64 ∷ 6 ∷ 0 ∷ 0 ∷ 10 ∷ 0 ∷ 0 ∷ 1 ∷ 10 ∷ 0 ∷ 0 ∷ 2 ∷ 0x1f
    ∷ 0x90 ∷ 0 ∷ 80 ∷ 0 ∷ 0 ∷ 0 ∷ 0 ∷ 0 ∷ 0 ∷ 0 ∷ 0 ∷ 0x50 ∷ 0x18 ∷ 0 ∷ 0 ∷ 0 ∷ 0 ∷ 0 ∷ 0 ∷ []

abbrev pub packet : Skb
packet = record {
  ifindex = 7;
  len = 40;
  gso_segs = 0;
  vlan_present = false;
  vlan_tci = 0;
  bytes = segment;
}

pub packet-IsSkb : IsSkb packet
packet-IsSkb = record {
  bytes_fit = omega arith;
  ifindex_fits = omega arith;
  gso_segs_fit = omega arith;
}

sight-IsFlowKey_example : Ensures IsFlowKey (sight segment false >>= key_of packet ingress)
sight-IsFlowKey_example = sight-IsFlowKey packet packet-IsSkb ingress false (omega arith)

abbrev pub flow_map : HashMap FlowKey FlowValue (List (FlowKey × FlowValue))
flow_map = record {
  lookup = λ m k. find k m;
  store = λ m k v. put k v m;
  insert = λ m k v. (leb (length m) 4095, put k v m);
}

abbrev pub dev_map : HashMap DevKey DevVal ℕ
dev_map = record { lookup = λ m k. none; store = λ m k v. m; insert = λ m k v. (false, m + 1) }

abbrev pub flow_map-IsHashMap : IsHashMap flow_map
flow_map-IsHashMap = record {
  HasRoom = λ m. length m < 4096;
  lookup-store = λ w k j v v' e. find-put k j v' w;
  inserts = λ w k v room e. ground (arith, room);
  lookup-insert = λ w k j v room e. find-put k j v w;
}

abbrev pub kernel : Kernel (List (FlowKey × FlowValue)) ℕ
kernel = record {
  totals = record { packets = 0; bytes = 0; flows_created = 0; parsed = 0 };
  flows = [];
  devstats = 0;
}

abbrev seen : Sighting
seen = record {
  ip = 0;
  network = record { family = 4; protocol = 6; l4 = 20; have_l4 = true };
  transport = record {
    sport = 8080;
    dport = 80;
    icmp_type = 0;
    icmp_code = 0;
    tcp_flags = 24;
    l4hdr = 20;
  };
}

abbrev pub key : FlowKey
key = record {
  ifindex = 7;
  direction = ingress;
  family = 4;
  protocol = 6;
  reserved = 0;
  src = replicate 10 0 ++ 255 ∷ 255 ∷ 10 ∷ 0 ∷ 0 ∷ 1 ∷ [];
  dst = replicate 10 0 ++ 255 ∷ 255 ∷ 10 ∷ 0 ∷ 0 ∷ 2 ∷ [];
  sport = 8080;
  dport = 80;
  icmp_type = 0;
  icmp_code = 0;
}

sight-segment : sight segment false ≡ ok seen
unfolding sight
sight-segment = refl

key_of_segment : key_of packet ingress seen ≡ ok key
unfolding key_of
key_of_segment = refl

-- reads of kernel memory that holds the packet
abbrev probe : ℕ → ℕ → Option Bytes
probe off n = if leb (off + n) (length segment) then some (take n (drop off segment)) else none

probe_copies :
    (off n : ℕ) → off + n ≤ length segment → probe off n ≡ some (take n (drop off segment))
probe_copies off n h = ground (arith, h)

drop_parse-sight_example :
    (d : Dropped) × (drop_parse probe (if key.family == 4 then eth_p_ip else eth_p_ipv6) ≡ some d)
    × Agrees segment packet seen key d
drop_parse-sight_example =
    drop_parse-sight packet ingress seen key probe probe_copies sight-segment key_of_segment refl
      (omega arith)
