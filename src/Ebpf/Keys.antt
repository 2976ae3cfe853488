-- ===== src/Ebpf/Keys.antt =====
-- The flow keys that the TC programs build are well-formed, and all their reads are inside of the packet.
use obserwrt.Prelude.{
  ℕ, ◌+◌, ◌*◌, ◌/◌, ◌%◌, ◌^◌, ◌≤◌, ◌<◌, ◌≡◌, refl, Bool, arith, ◌==◌, if◌then◌else◌, length, Bytes,
}
use obserwrt.Flow.{FlowValue, IsFlowKey}
use obserwrt.Ebpf.{Skb, ok, ◌>>=◌, block, Ensures, AreBytes, bind-Ensures, block-Ensures}
use obserwrt.Ebpf.Parse.{l3_offset, parse_ip, parse_l4, outer_vlan}
use obserwrt.Ebpf.Bounds.{
  IsNetwork, IsTransport, then_byte, then_need, if-Ensures, l3_offset-Ensures, parse_ip-Ensures,
  parse_l4-Ensures, outer_vlan-Ensures,
}
use obserwrt.Ebpf.Observe.{
  segs_of, ip4_to_in6, Sighting, sight, key_with, key_of, l3len_of, tos_of, first_value,
}

-- The fields of the packet fit their C types, and the hook is one of the two directions.
pub record IsSkb (skb : Skb) : Type 0 where
  pub bytes_fit : AreBytes skb.bytes
  pub ifindex_fits : skb.ifindex < 256 ^ 4
  pub gso_segs_fit : skb.gso_segs < 2 ^ 32

pub record IsSighting (p : Bytes) (ab : AreBytes p) (s : Sighting) : Type 0 where
  pub network_fits : IsNetwork p ab s.ip s.network
  pub transport_fits : IsTransport p ab s.transport

module _ (p : Bytes) (ab : AreBytes p) where
  pub sight-Ensures : (eth : Bool) → Ensures (IsSighting p ab) (sight p eth)
  unfolding sight
  sight-Ensures eth = then_need p ab (IsSighting p ab) 2 _ λ n.
      bind-Ensures (λ ip. ip ≤ length p) (IsSighting p ab) (l3_offset p eth) _
        (l3_offset-Ensures p ab eth)
        λ ip hip.
          bind-Ensures (IsNetwork p ab ip) (IsSighting p ab) (parse_ip p ip) _
            (parse_ip-Ensures p ab ip)
            λ net hn.
              bind-Ensures (IsTransport p ab) (IsSighting p ab) (parse_l4 p net)
                (λ t. ok (record { ip = ip; network = net; transport = t }))
                (parse_l4-Ensures p ab net)
                λ t ht. record { network_fits = hn; transport_fits = ht }

length-ip4_to_in6 : (ip : Bytes) → length ip ≡ 4 → length (ip4_to_in6 ip) ≡ 16
unfolding ip4_to_in6
length-ip4_to_in6 ip h = omega (arith, h)

module _ (skb : Skb) (f : IsSkb skb) where
  key_with-IsFlowKey :
      (direction : ℕ) (s : Sighting) (src dst : Bytes)
      → direction < 2
      → IsSighting skb.bytes f.bytes_fit s
      → length src ≡ 16
      → length dst ≡ 16
      → IsFlowKey (key_with skb direction s src dst)
  key_with-IsFlowKey direction s src dst hd h hs hd' = record {
    ifindex_fits = f.ifindex_fits;
    direction_fits = omega arith;
    family_fits = ground (arith, h.network_fits.family_known);
    protocol_fits = h.network_fits.protocol_fits;
    reserved_fits = omega arith;
    src_length = hs;
    dst_length = hd';
    sport_fits = omega (arith, h.transport_fits.sport_fits);
    dport_fits = omega (arith, h.transport_fits.dport_fits);
    icmp_type_fits = h.transport_fits.icmp_type_fits;
    icmp_code_fits = h.transport_fits.icmp_code_fits;
  }

  pub key_of-Ensures :
      (direction : ℕ) (s : Sighting)
      → direction < 2
      → IsSighting skb.bytes f.bytes_fit s
      → Ensures IsFlowKey (key_of skb direction s)
  unfolding key_of
  key_of-Ensures direction s hd h =
      let inside = h.network_fits.header_inside in
      if-Ensures IsFlowKey (s.network.family == 4) _ _
        (λ four.
          bind-Ensures (λ bs. length bs ≡ 4) IsFlowKey (block skb.bytes (s.ip + 12) 4) _
            (block-Ensures skb.bytes (s.ip + 12) 4 (ground (arith, inside, four)))
            λ src hs.
              bind-Ensures (λ bs. length bs ≡ 4) IsFlowKey (block skb.bytes (s.ip + 16) 4)
                (λ dst. ok (key_with skb direction s (ip4_to_in6 src) (ip4_to_in6 dst)))
                (block-Ensures skb.bytes (s.ip + 16) 4 (ground (arith, inside, four)))
                λ dst hd'.
                  key_with-IsFlowKey direction s (ip4_to_in6 src) (ip4_to_in6 dst) hd h
                    (length-ip4_to_in6 src hs) (length-ip4_to_in6 dst hd'))
        (λ six.
          bind-Ensures (λ bs. length bs ≡ 16) IsFlowKey (block skb.bytes (s.ip + 8) 16) _
            (block-Ensures skb.bytes (s.ip + 8) 16 (ground (arith, inside, six)))
            λ src hs.
              bind-Ensures (λ bs. length bs ≡ 16) IsFlowKey (block skb.bytes (s.ip + 24) 16)
                (λ dst. ok (key_with skb direction s src dst))
                (block-Ensures skb.bytes (s.ip + 24) 16 (ground (arith, inside, six)))
                λ dst hd'. key_with-IsFlowKey direction s src dst hd h hs hd')

  -- Whatever the packet holds, the key built for it is well-formed, and building it reads no
  -- byte outside of the packet.
  pub sight-IsFlowKey :
      (direction : ℕ) (eth : Bool)
      → direction < 2
      → Ensures IsFlowKey (sight skb.bytes eth >>= key_of skb direction)
  unfolding key_of
  sight-IsFlowKey direction eth hd =
      bind-Ensures (IsSighting skb.bytes f.bytes_fit) IsFlowKey (sight skb.bytes eth)
        (key_of skb direction) (sight-Ensures skb.bytes f.bytes_fit eth)
        λ s h. key_of-Ensures direction s hd h

  tos_of-Ensures :
      (s : Sighting) → IsSighting skb.bytes f.bytes_fit s → Ensures (λ t. t < 256) (tos_of skb s)
  unfolding tos_of
  tos_of-Ensures s h =
      let inside = h.network_fits.header_inside in
      then_byte skb.bytes f.bytes_fit (λ t. t < 256) s.ip _ (ground (arith, inside))
        λ b0 h0.
          then_byte skb.bytes f.bytes_fit (λ t. t < 256) (s.ip + 1)
            (λ b1. ok (if s.network.family == 4 then b1 else b0 * 16 % 256 + b1 / 16))
            (ground (arith, inside)) λ b1 h1. ground arith

  pub first_value-Ensures :
      (eth : Bool) (s : Sighting) (now : ℕ)
      → IsSighting skb.bytes f.bytes_fit s
      → Ensures
          (λ v. (v.packets ≡ segs_of skb) × (v.bytes ≡ l3len_of skb s))
          (first_value skb eth s now)
  unfolding first_value
  first_value-Ensures eth s now h =
      let Counts = λ (v : FlowValue). (v.packets ≡ segs_of skb) × (v.bytes ≡ l3len_of skb s) in
      bind-Ensures (λ v. v < 4096) Counts (if eth then outer_vlan skb else ok 0) _
        (if-Ensures (λ v. v < 4096) eth (outer_vlan skb) (ok 0)
          (λ e. outer_vlan-Ensures skb f.bytes_fit) (λ e. omega arith))
        λ vlan hv.
          bind-Ensures (λ t. t < 256) Counts (tos_of skb s) _ (tos_of-Ensures s h)
            λ tos ht. (refl, refl)
