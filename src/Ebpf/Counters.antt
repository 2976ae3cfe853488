-- ===== src/Ebpf/Counters.antt =====
-- The counters that the TC programs keep are exact.
use Prim.Native.Nat.{max}
use obserwrt.Prelude.{
  ℕ, ◌+◌, ◌-◌, ◌*◌, ◌%◌, [], ◌∷◌, ◌++◌, ◌==◌, take, drop, ◌^◌, ◌<◌, ◌≡◌, refl, sym, subst, ◌≢◌, inl,
  inr, Bool, true, false, Option, none, some, arith, if◌then◌else◌, Bytes, Option-cases,
}
use obserwrt.Flow.{FlowKey, FlowValue, IsFlowKey, key_eq, key_eq_iff}
use obserwrt.Ebpf.{block, Skb, ok, leave, fault, Ensures-cases}
use obserwrt.Ebpf.Parse.{pkt_class}
use obserwrt.Ebpf.Bounds.{pkt_class-Ensures}
use obserwrt.Ebpf.Observe.{
  HashMap, DevKey, DevVal, Kernel, add64, segs_of, Sighting, sight, ip4_to_in6, key_of, l3len_of,
  first_value, updated, dev_count, counted, account, observe,
}
use obserwrt.Ebpf.Keys.{IsSkb, IsSighting, sight-Ensures, key_of-Ensures, first_value-Ensures}

pkt_class-ne-leave : (p : Bytes) (eth : Bool) → pkt_class p eth ≢ leave
unfolding pkt_class
pkt_class-ne-leave p eth = ground arith

key_of-ne-leave : (skb : Skb) (direction : ℕ) (s : Sighting) → key_of skb direction s ≢ leave
unfolding key_of
key_of-ne-leave skb direction s = ground arith

first_value-ne-leave :
    (skb : Skb) (eth : Bool) (s : Sighting) (now : ℕ) → first_value skb eth s now ≢ leave
unfolding first_value
first_value-ne-leave skb eth s now = ground arith

segs_of_bound : (skb : Skb) → IsSkb skb → segs_of skb < 2 ^ 32
unfolding segs_of
segs_of_bound skb f = ground (arith, f.gso_segs_fit)

l3len_of_bound : (skb : Skb) (s : Sighting) → l3len_of skb s < 2 ^ 32
unfolding l3len_of
l3len_of_bound skb s = ground arith

-- The reference view of a packet. A packet that GSO has not cut is one packet on the wire.
abbrev pub wire_segments : Skb → ℕ
wire_segments skb = max 1 skb.gso_segs

-- The addresses as they stand in the IP header, an IPv4 address mapped into IPv6.
abbrev pub addresses : Skb → Sighting → Bytes × Bytes
addresses skb s =
    let mapped : Bytes = 0 ∷ 0 ∷ 0 ∷ 0 ∷ 0 ∷ 0 ∷ 0 ∷ 0 ∷ 0 ∷ 0 ∷ 255 ∷ 255 ∷ [] in
    let part = λ (off n : ℕ). take n (drop (s.ip + off) skb.bytes) in
    if s.network.family == 4
    then (mapped ++ part 12 4, mapped ++ part 16 4)
    else (part 8 16, part 24 16)

abbrev pub flow_seen : Skb → ℕ → Sighting → FlowKey
flow_seen skb direction s = record {
  ifindex = skb.ifindex;
  direction = direction;
  family = s.network.family;
  protocol = s.network.protocol;
  reserved = 0;
  src = (addresses skb s).0;
  dst = (addresses skb s).1;
  sport = s.transport.sport;
  dport = s.transport.dport;
  icmp_type = s.transport.icmp_type;
  icmp_code = s.transport.icmp_code;
}

-- whether it belongs to a flow, as the parser reads it
abbrev pub belongs : Skb → ℕ → Bool → FlowKey → Bool
belongs skb direction eth j = elim (sight skb.bytes eth) [
  | ok s ↦ key_eq (flow_seen skb direction s) j
  | leave ↦ false
  | fault ↦ false
]

-- Its octets from the IP header on, link padding included: every segment has its own copy of the headers,
-- and what lies behind the headers is cut among them. The sum is a 32-bit number.
abbrev pub octets_seen : Skb → Sighting → ℕ
octets_seen skb s =
    let headers = s.network.l4 - s.ip + s.transport.l4hdr in
    (skb.len + 2 ^ 32 - s.ip + (max 1 skb.gso_segs - 1) * headers) % 2 ^ 32

abbrev pub octets : Skb → Bool → ℕ
octets skb eth = elim (sight skb.bytes eth) [ ok s ↦ octets_seen skb s | leave ↦ 0 | fault ↦ 0 ]

segs_lem : (skb : Skb) → segs_of skb ≡ wire_segments skb
unfolding segs_of
segs_lem skb = ground arith

octets_lem : (skb : Skb) (s : Sighting) → l3len_of skb s ≡ octets_seen skb s
unfolding l3len_of segs_of
octets_lem skb s = ground arith

key_lem :
    (skb : Skb) (direction : ℕ) (s : Sighting) (key : FlowKey)
    → key_of skb direction s ≡ ok key
    → key ≡ flow_seen skb direction s
unfolding key_of block ip4_to_in6
key_lem skb direction s key e = ground (arith, e)

-- What the kernel documents of a hash map: a write through a pointer changes the entry that was
-- looked up, and an insertion into a map that is below its capacity adds an entry and evicts none. (At
-- capacity, an LRU map evicts entries of its choice.)
pub record IsHashMap {M : Type 0} (m : HashMap FlowKey FlowValue M) : Type 1 where
  pub HasRoom : M → Type 0
  pub lookup-store :
      (w : M) (k j : FlowKey) (v v' : FlowValue)
      → m.lookup w k ≡ some v
      → m.lookup (m.store w k v') j ≡ (if key_eq k j then some v' else m.lookup w j)
  pub inserts :
      (w : M) (k : FlowKey) (v : FlowValue)
      → HasRoom w
      → m.lookup w k ≡ none
      → (m.insert w k v).0 ≡ true
  pub lookup-insert :
      (w : M) (k j : FlowKey) (v : FlowValue)
      → HasRoom w
      → m.lookup w k ≡ none
      → m.lookup (m.insert w k v).1 j ≡ (if key_eq k j then some v else m.lookup w j)

abbrev pub packets_in : Option FlowValue → ℕ
packets_in none = 0
packets_in (some v) = v.packets

abbrev pub bytes_in : Option FlowValue → ℕ
bytes_in none = 0
bytes_in (some v) = v.bytes

module _ {F D : Type 0} (flow_map : HashMap FlowKey FlowValue F) (dev_map : HashMap DevKey DevVal D)
    (laws : IsHashMap flow_map) where
  -- how a packet changes the counters
  pub record IsCounted (skb : Skb) (direction : ℕ) (eth : Bool) (k k' : Kernel F D) : Type 0 where
    pub total_packets : k'.totals.packets ≡ add64 k.totals.packets (wire_segments skb)
    pub total_bytes : k'.totals.bytes ≡ add64 k.totals.bytes skb.len
    pub flow_packets :
        (j : FlowKey)
        → packets_in (flow_map.lookup k'.flows j) ≡ (
            if belongs skb direction eth j
            then add64 (packets_in (flow_map.lookup k.flows j)) (wire_segments skb)
            else packets_in (flow_map.lookup k.flows j))
    pub flow_bytes :
        (j : FlowKey)
        → bytes_in (flow_map.lookup k'.flows j) ≡ (
            if belongs skb direction eth j
            then add64 (bytes_in (flow_map.lookup k.flows j)) (octets skb eth)
            else bytes_in (flow_map.lookup k.flows j))

  module _ (skb : Skb) (f : IsSkb skb) (direction : ℕ) (eth : Bool) (now : ℕ) where
    account_known :
        (k : Kernel F D) (s : Sighting) (key : FlowKey) (v : FlowValue)
        → key_of skb direction s ≡ ok key
        → flow_map.lookup k.flows key ≡ some v
        → account flow_map dev_map skb direction eth now k s
          ≡ ok (record k {
            totals = record k.totals { parsed = add64 k.totals.parsed (segs_of skb) };
            flows = flow_map.store k.flows key (updated skb s now v);
          })
    unfolding account
    account_known k s key v e l = ground (arith, e, l)

    account_new :
        (k : Kernel F D) (s : Sighting) (key : FlowKey) (v : FlowValue)
        → key_of skb direction s ≡ ok key
        → laws.HasRoom k.flows
        → flow_map.lookup k.flows key ≡ none
        → first_value skb eth s now ≡ ok v
        → account flow_map dev_map skb direction eth now k s
          ≡ ok (record k {
            totals = record k.totals {
              parsed = add64 k.totals.parsed (segs_of skb);
              flows_created = add64 k.totals.flows_created 1;
            };
            flows = (flow_map.insert k.flows key v).1;
          })
    unfolding account
    account_new k s key v e room l n = ground (arith, e, l, n, laws.inserts k.flows key v room l)

    counted_safe :
        (k : Kernel F D)
        → (k₁ : Kernel F D) × (counted flow_map dev_map skb direction eth k ≡ ok k₁)
          × (k₁.totals.packets ≡ add64 k.totals.packets (segs_of skb))
          × (k₁.totals.bytes ≡ add64 k.totals.bytes skb.len)
          × (k₁.flows ≡ k.flows)
    unfolding counted
    counted_safe k =
        elim (Ensures-cases (λ c. c < 4) (pkt_class skb.bytes eth)
          (pkt_class-Ensures skb.bytes f.bytes_fit eth)) [
            | inl (c, e, b) ↦
                let k₁ : Kernel F D = record k {
                  totals = record k.totals {
                    packets = add64 k.totals.packets (segs_of skb);
                    bytes = add64 k.totals.bytes skb.len;
                  };
                  devstats = dev_count flow_map dev_map k.devstats skb direction c;
                } in
                (k₁, ground (arith, e), refl, refl, refl)
            | inr e ↦ absurd (pkt_class-ne-leave skb.bytes eth e)
          ]

    known_counts :
        (k : Kernel F D) (k₁ : Kernel F D) (s : Sighting) (key : FlowKey) (v : FlowValue)
        → sight skb.bytes eth ≡ ok s
        → key_of skb direction s ≡ ok key
        → flow_map.lookup k₁.flows key ≡ some v
        → k₁.totals.packets ≡ add64 k.totals.packets (segs_of skb)
        → k₁.totals.bytes ≡ add64 k.totals.bytes skb.len
        → k₁.flows ≡ k.flows
        → IsCounted skb direction eth k (record k₁ {
          totals = record k₁.totals { parsed = add64 k₁.totals.parsed (segs_of skb) };
          flows = flow_map.store k₁.flows key (updated skb s now v);
        })
    unfolding updated
    known_counts k k₁ s key v es ek l p b same =
        let seen = key_lem skb direction s key ek in
        record {
          total_packets = ground (arith, p, segs_lem skb);
          total_bytes = b;
          flow_packets = λ j. ground (
            arith,
            es,
            seen,
            l,
            same,
            segs_lem skb,
            octets_lem skb s,
            laws.lookup-store k₁.flows key j v (updated skb s now v),
            key_eq_iff key j,
          );
          flow_bytes = λ j. ground (
            arith,
            es,
            seen,
            l,
            same,
            segs_lem skb,
            octets_lem skb s,
            laws.lookup-store k₁.flows key j v (updated skb s now v),
            key_eq_iff key j,
          );
        }

    new_counts :
        (k : Kernel F D) (k₁ : Kernel F D) (s : Sighting) (key : FlowKey) (v : FlowValue)
        → sight skb.bytes eth ≡ ok s
        → key_of skb direction s ≡ ok key
        → laws.HasRoom k₁.flows
        → flow_map.lookup k₁.flows key ≡ none
        → v.packets ≡ add64 0 (segs_of skb)
        → v.bytes ≡ add64 0 (l3len_of skb s)
        → k₁.totals.packets ≡ add64 k.totals.packets (segs_of skb)
        → k₁.totals.bytes ≡ add64 k.totals.bytes skb.len
        → k₁.flows ≡ k.flows
        → IsCounted skb direction eth k (record k₁ {
          totals = record k₁.totals {
            parsed = add64 k₁.totals.parsed (segs_of skb);
            flows_created = add64 k₁.totals.flows_created 1;
          };
          flows = (flow_map.insert k₁.flows key v).1;
        })
    new_counts k k₁ s key v es ek room l vp vb p b same =
        let seen = key_lem skb direction s key ek in
        record {
          total_packets = ground (arith, p, segs_lem skb);
          total_bytes = b;
          flow_packets = λ j. ground (
            arith,
            es,
            seen,
            l,
            same,
            segs_lem skb,
            octets_lem skb s,
            vp,
            vb,
            laws.lookup-insert k₁.flows key j v room,
            key_eq_iff key j,
          );
          flow_bytes = λ j. ground (
            arith,
            es,
            seen,
            l,
            same,
            segs_lem skb,
            octets_lem skb s,
            vp,
            vb,
            laws.lookup-insert k₁.flows key j v room,
            key_eq_iff key j,
          );
        }

    account_counts :
        (k k₁ : Kernel F D) (s : Sighting)
        → direction < 2
        → sight skb.bytes eth ≡ ok s
        → IsSighting skb.bytes f.bytes_fit s
        → laws.HasRoom k₁.flows
        → k₁.totals.packets ≡ add64 k.totals.packets (segs_of skb)
        → k₁.totals.bytes ≡ add64 k.totals.bytes skb.len
        → k₁.flows ≡ k.flows
        → (k' : Kernel F D) × (account flow_map dev_map skb direction eth now k₁ s ≡ ok k')
          × IsCounted skb direction eth k k'
    account_counts k k₁ s hd es h room p b same =
        elim (Ensures-cases IsFlowKey (key_of skb direction s)
          (key_of-Ensures skb f direction s hd h)) [
            | inr e ↦ absurd (key_of-ne-leave skb direction s e)
            | inl (key, e, hk) ↦ elim (Option-cases (flow_map.lookup k₁.flows key)) [
              | inr (v, l) ↦
                  (_, account_known k₁ s key v e l, known_counts k k₁ s key v es e l p b same)
              | inl l ↦
                  elim (Ensures-cases (λ v. (v.packets ≡ segs_of skb) × (v.bytes ≡ l3len_of skb s))
                    (first_value skb eth s now) (first_value-Ensures skb f eth s now h)) [
                      | inr n ↦ absurd (first_value-ne-leave skb eth s now n)
                      | inl (v, n, hv) ↦ (
                        _,
                        account_new k₁ s key v e room l n,
                        new_counts k k₁ s key v es e room l
                            (ground (arith, hv, segs_of_bound skb f))
                            (ground (arith, hv, l3len_of_bound skb s)) p b same,
                      )
                    ]
            ]
          ]

    pub observe-IsCounted :
        (k : Kernel F D)
        → direction < 2
        → laws.HasRoom k.flows
        → (k' : Kernel F D) × (observe flow_map dev_map skb direction eth now k ≡ some k')
          × IsCounted skb direction eth k k'
    unfolding observe
    observe-IsCounted k hd room =
        let (k₁, ec, p, b, same) = counted_safe k in
        elim (Ensures-cases (IsSighting skb.bytes f.bytes_fit) (sight skb.bytes eth)
          (sight-Ensures skb.bytes f.bytes_fit eth)) [
            | inr e ↦ (
              k₁,
              ground (arith, ec, e),
              record {
                total_packets = ground (arith, p, segs_lem skb);
                total_bytes = b;
                flow_packets = λ j. ground (arith, e, same);
                flow_bytes = λ j. ground (arith, e, same);
              },
            )
            | inl (s, e, h) ↦
                let (k', a, counts) =
                  account_counts k k₁ s hd e h (subst laws.HasRoom (sym same) room) p b same in
                (k', ground (arith, ec, e, a), counts)
          ]
