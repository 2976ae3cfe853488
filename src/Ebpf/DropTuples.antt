-- ===== src/Ebpf/DropTuples.antt =====
-- The drop tracer and the TC programs see one tuple for one packet.
use obserwrt.Prelude.{
  ℕ, zero, suc, ◌+◌, ◌*◌, ◌/◌, ◌%◌, ◌≤◌, ◌<◌, ◌≡◌, refl, ◌⊎◌, sym, ap, ◌∙◌, Bool, true, false, ◌&&◌,
  ◌||◌, not, Option, some, [], ◌∷◌, arith, ◌==◌, if◌then◌else◌, length, Bytes, get_or, take, drop,
  inl, inr,
}
use obserwrt.Flow.{FlowKey}
use obserwrt.Ebpf.{Skb, ok, byte, block}
use obserwrt.Ebpf.Parse.{
  Network, l3_offset, parse_ip, parse_v4, parse_v6, parse_l4, Transport, is_ext, eth_p_ip,
  eth_p_ipv6,
}
use obserwrt.Ebpf.Observe.{Sighting, sight, key_of, tos_of, ip4_to_in6}
use obserwrt.Ebpf.Drops.{half, Dropped, drop_l4, drop_v4, drop_v6, drop_parse}

byte-get_or : (p : Bytes) (i : ℕ) → i < length p → byte p i ≡ ok (get_or p i 0)
unfolding byte
byte-get_or [] i h = absurd (omega arith)
byte-get_or (b ∷ p) zero h = refl
byte-get_or (b ∷ p) (suc i) h = byte-get_or p i (omega arith)

get_or-take : (n i : ℕ) (p : Bytes) → i < n → get_or (take n p) i 0 ≡ get_or p i 0
get_or-take zero i p h = absurd (omega arith)
get_or-take (suc n) i [] h = refl
get_or-take (suc n) zero (b ∷ p) h = refl
get_or-take (suc n) (suc i) (b ∷ p) h = get_or-take n i p (omega arith)

get_or-drop : (off i : ℕ) (p : Bytes) → get_or (drop off p) i 0 ≡ get_or p (off + i) 0
get_or-drop zero i p = let e : 0 + i ≡ i = omega arith in rw e refl
get_or-drop (suc off) i [] = refl
get_or-drop (suc off) i (b ∷ p) =
    let e : suc off + i ≡ suc (off + i) = omega arith in rw e (get_or-drop off i p)

-- the byte that a probe copied
get_or_probe :
    (off n i : ℕ) (p : Bytes) → i < n → get_or (take n (drop off p)) i 0 ≡ get_or p (off + i) 0
get_or_probe off n i p h = get_or-take n i (drop off p) h ∙ get_or-drop off i p

-- the packet starts with its IP header
module _ (p : Bytes) where
  v4_facts :
      (b0 : ℕ) (n : Network)
      → parse_v4 p 0 b0 ≡ ok n
      → (20 ≤ length p)
        × (20 ≤ b0 % 16 * 4)
        × (b0 % 16 * 4 ≤ length p)
        × (n ≡ record {
          family = 4;
          protocol = get_or p 9 0;
          l4 = 0 + b0 % 16 * 4;
          have_l4 = half p 6 % 8192 == 0;
        })
  unfolding parse_v4
  v4_facts b0 n e = ground (arith, e, byte-get_or p 9, byte-get_or p 6, byte-get_or p 7)

  v6_facts :
      (n : Network)
      → not (is_ext (get_or p 6 0)) && not (get_or p 6 0 == 44) ≡ true
      → parse_v6 p 0 ≡ ok n
      → (40 ≤ length p)
        × (n ≡ record { family = 6; protocol = get_or p 6 0; l4 = 40; have_l4 = true })
  unfolding parse_v6
  v6_facts n plain e = ground (arith, e, plain, byte-get_or p 6)

  ip_facts :
      (n : Network)
      → parse_ip p 0 ≡ ok n
      → (2 ≤ length p)
        × (((get_or p 0 0 / 16 ≡ 4) × (parse_v4 p 0 (get_or p 0 0) ≡ ok n))
            ⊎ ((get_or p 0 0 / 16 ≡ 6) × (parse_v6 p 0 ≡ ok n)))
  unfolding parse_ip
  ip_facts n e = ground (arith, e, byte-get_or p 0)

  -- the transport fields, but for the header length that only the TC programs take
  l4_agrees :
      (probe : ℕ → ℕ → Option Bytes) (n : Network) (t : Transport)
      → probe n.l4 14 ≡ some (take 14 (drop n.l4 p))
      → n.l4 + 14 ≤ length p
      → parse_l4 p n ≡ ok t
      → drop_l4 probe n.l4 n.protocol n.have_l4 ≡ record t { l4hdr = 0 }
  unfolding parse_l4 drop_l4
  l4_agrees probe n t copied long e = ground (
    arith,
    e,
    copied,
    byte-get_or p n.l4,
    byte-get_or p (n.l4 + 1),
    byte-get_or p (n.l4 + 2),
    byte-get_or p (n.l4 + 2 + 1),
    byte-get_or p (n.l4 + 12),
    byte-get_or p (n.l4 + 13),
    get_or_probe n.l4 14 0 p,
    get_or_probe n.l4 14 1 p,
    get_or_probe n.l4 14 2 p,
    get_or_probe n.l4 14 3 p,
    get_or_probe n.l4 14 13 p,
  )

  take-drop-take :
      (off n m : ℕ) (q : Bytes) → off + n ≤ m → take n (drop off (take m q)) ≡ take n (drop off q)
  take-drop-take zero zero m q h = refl
  take-drop-take zero (suc n) zero q h = absurd (omega arith)
  take-drop-take zero (suc n) (suc m) [] h = refl
  take-drop-take zero (suc n) (suc m) (b ∷ q) h =
      ap (◌∷◌ b) (take-drop-take zero n m q (omega arith))
  take-drop-take (suc off) n zero q h = absurd (omega arith)
  take-drop-take (suc off) n (suc m) [] h = refl
  take-drop-take (suc off) n (suc m) (b ∷ q) h = take-drop-take off n m q (omega arith)

  -- A probe of bytes that the packet holds copies them.
  abbrev pub Probes : (ℕ → ℕ → Option Bytes) → Type 0
  Probes probe = (off n : ℕ) → off + n ≤ length p → probe off n ≡ some (take n (drop off p))

  -- An IPv6 header that is followed by the transport header itself.
  abbrev pub is_plain : Bool
  is_plain = get_or p 0 0 / 16 == 4 || (not (is_ext (get_or p 6 0)) && not (get_or p 6 0 == 44))

  -- what both parsers agree on
  pub record Agrees (skb : Skb) (s : Sighting) (key : FlowKey) (d : Dropped) : Type 0 where
    pub family_agrees : d.family ≡ key.family
    pub protocol_agrees : d.protocol ≡ key.protocol
    pub src_agrees : d.src ≡ key.src
    pub dst_agrees : d.dst ≡ key.dst
    pub sport_agrees : d.transport.sport ≡ key.sport
    pub dport_agrees : d.transport.dport ≡ key.dport
    pub icmp_type_agrees : d.transport.icmp_type ≡ key.icmp_type
    pub icmp_code_agrees : d.transport.icmp_code ≡ key.icmp_code
    pub tcp_flags_agree : d.transport.tcp_flags ≡ s.transport.tcp_flags
    pub tos_agrees : tos_of skb s ≡ ok d.tos

module _ (skb : Skb) (direction : ℕ) (s : Sighting) (key : FlowKey) (probe : ℕ → ℕ → Option Bytes)
    (copies : Probes skb.bytes probe) where
  -- the key's fields, where the packet starts with its IP header
  key_facts :
      s.ip ≡ 0
      → key_of skb direction s ≡ ok key
      → (key.family ≡ s.network.family)
        × (key.protocol ≡ s.network.protocol)
        × (key.src ≡ (
            if s.network.family == 4
            then ip4_to_in6 (take 4 (drop 12 skb.bytes))
            else take 16 (drop 8 skb.bytes)))
        × (key.dst ≡ (
            if s.network.family == 4
            then ip4_to_in6 (take 4 (drop 16 skb.bytes))
            else take 16 (drop 24 skb.bytes)))
        × (key.sport ≡ s.transport.sport)
        × (key.dport ≡ s.transport.dport)
        × (key.icmp_type ≡ s.transport.icmp_type)
        × (key.icmp_code ≡ s.transport.icmp_code)
  unfolding key_of block
  key_facts at e = ground (arith, at, e)

  tos_facts :
      s.ip ≡ 0
      → 2 ≤ length skb.bytes
      → tos_of skb s
        ≡ ok (
            if s.network.family == 4
            then get_or skb.bytes 1 0
            else get_or skb.bytes 0 0 * 16 % 256 + get_or skb.bytes 1 0 / 16)
  unfolding tos_of
  tos_facts at long = ground (arith, at, byte-get_or skb.bytes 0, byte-get_or skb.bytes 1)

  abbrev v4_drop : Dropped
  v4_drop =
      let hdr = take 20 skb.bytes in
      record {
        l3len = half hdr 2;
        family = 4;
        protocol = get_or hdr 9 0;
        src = ip4_to_in6 (take 4 (drop 12 hdr));
        dst = ip4_to_in6 (take 4 (drop 16 hdr));
        tos = get_or hdr 1 0;
        transport =
            drop_l4 probe (get_or hdr 0 0 % 16 * 4) (get_or hdr 9 0) (half hdr 6 % 8192 == 0);
      }

  facts-Agrees :
      (d : Dropped)
      → s.ip ≡ 0
      → 2 ≤ length skb.bytes
      → key_of skb direction s ≡ ok key
      → d.family ≡ s.network.family
      → d.protocol ≡ s.network.protocol
      → d.src ≡ (
          if s.network.family == 4
          then ip4_to_in6 (take 4 (drop 12 skb.bytes))
          else take 16 (drop 8 skb.bytes))
      → d.dst ≡ (
          if s.network.family == 4
          then ip4_to_in6 (take 4 (drop 16 skb.bytes))
          else take 16 (drop 24 skb.bytes))
      → d.transport ≡ record s.transport { l4hdr = 0 }
      → d.tos ≡ (
          if s.network.family == 4
          then get_or skb.bytes 1 0
          else get_or skb.bytes 0 0 * 16 % 256 + get_or skb.bytes 1 0 / 16)
      → Agrees skb.bytes skb s key d
  facts-Agrees d at long ek ef ep es ed et eo =
      let k = key_facts at ek in
      record {
        family_agrees = ground (arith, k);
        protocol_agrees = ground (arith, k);
        src_agrees = ground (arith, k);
        dst_agrees = ground (arith, k);
        sport_agrees = ground (arith, k, et);
        dport_agrees = ground (arith, k, et);
        icmp_type_agrees = ground (arith, k, et);
        icmp_code_agrees = ground (arith, k, et);
        tcp_flags_agree = ground (arith, et);
        tos_agrees = tos_facts at long ∙ ap ok (sym eo);
      }

  drop_v4-Agrees :
      s.ip ≡ 0
      → get_or skb.bytes 0 0 / 16 ≡ 4
      → parse_v4 skb.bytes 0 (get_or skb.bytes 0 0) ≡ ok s.network
      → parse_l4 skb.bytes s.network ≡ ok s.transport
      → key_of skb direction s ≡ ok key
      → s.network.l4 + 14 ≤ length skb.bytes
      → (d : Dropped) × (drop_parse probe eth_p_ip ≡ some d) × Agrees skb.bytes skb s key d
  unfolding drop_parse drop_v4
  drop_v4-Agrees at four en el ek long =
      let p = skb.bytes in
      let (l20, i20, il, en') = v4_facts p (get_or p 0 0) s.network en in
      let b0 = get_or-take 20 0 p (omega arith) in
      let b9 = get_or-take 20 9 p (omega arith) in
      let b6 = get_or-take 20 6 p (omega arith) in
      let b7 = get_or-take 20 7 p (omega arith) in
      let tr = l4_agrees p probe s.network s.transport (copies s.network.l4 14 long) long el in
      (
        v4_drop,
        ground (arith, copies 0 20 l20, four, b0),
        facts-Agrees v4_drop at (omega arith) ek (ground (arith, en')) (ground (arith, en', b9))
            (ground (arith, en', take-drop-take p 12 4 20 p (omega arith)))
            (ground (arith, en', take-drop-take p 16 4 20 p (omega arith)))
            (ground (arith, en', tr, b0, b9, b6, b7))
            (ground (arith, en', get_or-take 20 1 p (omega arith))),
      )

  abbrev v6_drop : Dropped
  v6_drop =
      let hdr = take 40 skb.bytes in
      record {
        l3len = 40 + half hdr 4;
        family = 6;
        protocol = get_or hdr 6 0;
        src = take 16 (drop 8 hdr);
        dst = take 16 (drop 24 hdr);
        tos = get_or hdr 0 0 * 16 % 256 + get_or hdr 1 0 / 16;
        transport = drop_l4 probe 40 (get_or hdr 6 0) true;
      }

  drop_v6-Agrees :
      s.ip ≡ 0
      → get_or skb.bytes 0 0 / 16 ≡ 6
      → is_plain skb.bytes ≡ true
      → parse_v6 skb.bytes 0 ≡ ok s.network
      → parse_l4 skb.bytes s.network ≡ ok s.transport
      → key_of skb direction s ≡ ok key
      → s.network.l4 + 14 ≤ length skb.bytes
      → (d : Dropped) × (drop_parse probe eth_p_ipv6 ≡ some d) × Agrees skb.bytes skb s key d
  unfolding drop_parse drop_v6
  drop_v6-Agrees at six plain en el ek long =
      let p = skb.bytes in
      let (l40, en') = v6_facts p s.network (ground (arith, six, plain)) en in
      let b0 = get_or-take 40 0 p (omega arith) in
      let b1 = get_or-take 40 1 p (omega arith) in
      let b6 = get_or-take 40 6 p (omega arith) in
      let tr = l4_agrees p probe s.network s.transport (copies s.network.l4 14 long) long el in
      (
        v6_drop,
        ground (arith, copies 0 40 l40, six, b0),
        facts-Agrees v6_drop at (omega arith) ek (ground (arith, en')) (ground (arith, en', b6))
            (ground (arith, en', take-drop-take p 8 16 40 p (omega arith)))
            (ground (arith, en', take-drop-take p 24 16 40 p (omega arith)))
            (ground (arith, en', tr, b6)) (ground (arith, en', b0, b1)),
      )

  sight_facts :
      sight skb.bytes false ≡ ok s
      → (s.ip ≡ 0)
        × (parse_ip skb.bytes 0 ≡ ok s.network)
        × (parse_l4 skb.bytes s.network ≡ ok s.transport)
  unfolding sight l3_offset
  sight_facts e = ground (arith, e)

  -- For a packet that the TC program of a device without a link header accounts, whose bytes begin with the IP header as the
  -- tracer's network header does, without IPv6 extension headers and with 14 bytes behind the IP header, the drop tracer finds the same tuple, TCP flags and type of service.
  pub drop_parse-sight :
      sight skb.bytes false ≡ ok s
      → key_of skb direction s ≡ ok key
      → is_plain skb.bytes ≡ true
      → s.network.l4 + 14 ≤ length skb.bytes
      → (d : Dropped) × (drop_parse probe (if key.family == 4 then eth_p_ip else eth_p_ipv6)
          ≡ some d)
        × Agrees skb.bytes skb s key d
  drop_parse-sight e ek plain long =
      let (at, en, el) = sight_facts e in
      elim (ip_facts skb.bytes s.network en).1 [
        | inl (four, en4) ↦
            let (d, ed, ag) = drop_v4-Agrees at four en4 el ek long in
            let proto : (if key.family == 4 then eth_p_ip else eth_p_ipv6) ≡ eth_p_ip = ground (
              arith,
              ag.family_agrees,
              key_facts at ek,
              v4_facts skb.bytes (get_or skb.bytes 0 0) s.network en4,
            ) in
            (d, ap (drop_parse probe) proto ∙ ed, ag)
        | inr (six, en6) ↦
            let (d, ed, ag) = drop_v6-Agrees at six plain en6 el ek long in
            let proto : (if key.family == 4 then eth_p_ip else eth_p_ipv6) ≡ eth_p_ipv6 = ground (
              arith,
              key_facts at ek,
              v6_facts skb.bytes s.network (ground (arith, six, plain)) en6,
            ) in
            (d, ap (drop_parse probe) proto ∙ ed, ag)
      ]
