-- ===== src/Ebpf/Bounds.antt =====
-- The parser reads inside of the packet only, and what it finds fits the fields of a flow key.
use obserwrt.Prelude.{
  ℕ, zero, suc, ◌+◌, ◌*◌, ◌/◌, ◌%◌, ◌≤◌, ◌<◌, ◌≡◌, refl, ◌⊎◌, inl, inr, Bool, true, false, ◌||◌,
  not, arith, ◌==◌, ltb, if◌then◌else◌, if_cases, length, Bytes, Bool-cases,
}
use obserwrt.Ebpf.{
  Skb, Outcome, ok, ◌>>=◌, need, byte, word, Ensures, AreBytes, bind-Ensures, need-Ensures,
  byte-Ensures, word-Ensures,
}
use obserwrt.Ebpf.Parse.{
  class_of, pkt_class, ext_next, outer_vlan, ip_at, l3_offset, Network, parse_v4, max_ext_hdr,
  is_ext, ext_walk, v6, parse_v6, parse_ip, Transport, no_transport, parse_l4, is_vlan,
  is_outer_vlan,
}

-- a read under a bounds check that leaves the value at hand
pub if-Ensures :
    {A : Type 0} (P : A → Type 0) (b : Bool) (x y : Outcome A)
    → (b ≡ true → Ensures P x)
    → (b ≡ false → Ensures P y)
    → Ensures P (if b then x else y)
if-Ensures P b x y hx hy = if_cases (Ensures P) b x y hx hy

module _ (p : Bytes) (a : AreBytes p) where
  pub then_word :
      {B : Type 0} (Q : B → Type 0) (i : ℕ) (f : ℕ → Outcome B)
      → i + 1 < length p
      → ((w : ℕ) → w < 65536 → Ensures Q (f w))
      → Ensures Q (word p i >>= f)
  then_word Q i f h = bind-Ensures (λ w. w < 65536) Q (word p i) f (word-Ensures p i a h)

  pub then_byte :
      {B : Type 0} (Q : B → Type 0) (i : ℕ) (f : ℕ → Outcome B)
      → i < length p
      → ((b : ℕ) → b < 256 → Ensures Q (f b))
      → Ensures Q (byte p i >>= f)
  then_byte Q i f h = bind-Ensures (λ b. b < 256) Q (byte p i) f (byte-Ensures p i a h)

  pub then_need :
      {B : Type 0} (Q : B → Type 0) (n : ℕ) (f : Unit {0} → Outcome B)
      → (n ≤ length p → Ensures Q (f tt))
      → Ensures Q (need p n >>= f)
  then_need Q n f h =
      bind-Ensures (λ u. n ≤ length p) Q (need p n) f (need-Ensures p n) (λ u e. h e)

  class_of_bound : (et : ℕ) → class_of et < 4
  unfolding class_of
  class_of_bound et = ground arith

  pub pkt_class-Ensures : (eth : Bool) → Ensures (λ c. c < 4) (pkt_class p eth)
  unfolding pkt_class
  pkt_class-Ensures eth =
      if-Ensures (λ c. c < 4) (not eth) _ _
        (λ l3.
          if-Ensures (λ c. c < 4) (ltb (length p) 1) _ _ (λ short. omega arith)
            (λ long. then_byte (λ c. c < 4) 0 _ (ground arith) λ b h. ground arith))
        (λ l2.
          if-Ensures (λ c. c < 4) (ltb (length p) 14) _ _ (λ short. omega arith)
            (λ long.
              then_word (λ c. c < 4) 12 _ (ground arith)
                λ et h.
                  if-Ensures (λ c. c < 4) (not (is_outer_vlan et)) _ _ (λ plain. class_of_bound et)
                    (λ tagged.
                      if-Ensures (λ c. c < 4) (ltb (length p) 18) _ _ (λ short. omega arith)
                        (λ long'.
                          then_word (λ c. c < 4) 16 _ (ground arith)
                            λ et' h'.
                              if-Ensures (λ c. c < 4) (not (is_vlan et')) _ _
                                (λ single. class_of_bound et')
                                (λ twice.
                                  if-Ensures (λ c. c < 4) (ltb (length p) 22) _ _
                                    (λ short. omega arith)
                                    (λ long''.
                                      then_word (λ c. c < 4) 20 _ (ground arith)
                                        λ et'' h''. class_of_bound et''))))))

  -- a next header, and unless it is 0 the pointer moved within the packet
  abbrev pub Next : ℕ → ℕ × ℕ → Type 0
  Next l4 r = (r.0 < 256) × ((r.0 ≡ 0) ⊎ ((l4 ≤ r.1) × (r.1 ≤ length p)))

  pub ext_next-Ensures : (l4 : ℕ) (ah : Bool) → Ensures (Next l4) (ext_next p l4 ah)
  unfolding ext_next
  ext_next-Ensures l4 ah =
      if-Ensures (Next l4) (ltb (length p) (l4 + 8)) _ _ (λ short. (omega arith, inl refl))
        (λ long. then_byte (Next l4) l4 _ (ground arith) λ nh h.
          then_byte (Next l4) (l4 + 1) _ (ground arith) λ len h'.
            if-Ensures (Next l4)
              (ltb (length p) (l4 + (if ah then (len + 2) * 4 else (len + 1) * 8))) _ _
              (λ beyond. (omega arith, inl refl)) (λ inside. (h, inr (ground arith, ground arith))))

  ip_at-Ensures : (et off : ℕ) → off ≤ length p → Ensures (λ ip. ip ≤ length p) (ip_at et off)
  unfolding ip_at
  ip_at-Ensures et off h = ground arith

  pub l3_offset-Ensures : (eth : Bool) → Ensures (λ ip. ip ≤ length p) (l3_offset p eth)
  unfolding l3_offset
  l3_offset-Ensures eth =
      if-Ensures (λ ip. ip ≤ length p) (not eth) _ _ (λ l3. omega arith)
        (λ l2.
          then_need (λ ip. ip ≤ length p) 14 _
            λ n.
              then_word (λ ip. ip ≤ length p) 12 _ (omega arith)
                λ et h.
                  if-Ensures (λ ip. ip ≤ length p) (not (is_outer_vlan et)) _ _
                    (λ plain. ip_at-Ensures et 14 n)
                    (λ tagged.
                      then_need (λ ip. ip ≤ length p) 18 _
                        λ n'.
                          then_word (λ ip. ip ≤ length p) 16 _ (omega arith)
                            λ et' h'.
                              if-Ensures (λ ip. ip ≤ length p) (not (is_vlan et')) _ _
                                (λ single. ip_at-Ensures et' 18 n')
                                (λ twice.
                                  then_need (λ ip. ip ≤ length p) 22 _
                                    λ n''.
                                      then_word (λ ip. ip ≤ length p) 20 _ (omega arith)
                                        λ et'' h''. ip_at-Ensures et'' 22 n'')))

  -- what the IP parser leaves: the whole header is in the packet, and so is the L4 pointer
  pub record IsNetwork (ip : ℕ) (n : Network) : Type 0 where
    pub family_known : (n.family ≡ 4) ⊎ (n.family ≡ 6)
    pub protocol_fits : n.protocol < 256
    pub header_inside : ip + (if n.family == 4 then 20 else 40) ≤ length p
    pub l4_behind : ip ≤ n.l4
    pub l4_inside : n.l4 ≤ length p

  parse_v4-Ensures : (ip b0 : ℕ) → Ensures (IsNetwork ip) (parse_v4 p ip b0)
  unfolding parse_v4
  parse_v4-Ensures ip b0 = then_need (IsNetwork ip) (ip + 20) _ λ n.
      if-Ensures (IsNetwork ip) (ltb (b0 % 16 * 4) 20 || ltb (length p) (ip + b0 % 16 * 4)) _ _
        (λ bad. tt)
        (λ good. then_byte (IsNetwork ip) (ip + 9) _ (omega arith) λ proto h.
          then_word (IsNetwork ip) (ip + 6)
            (λ x. ok (record {
              family = 4;
              protocol = proto;
              l4 = ip + b0 % 16 * 4;
              have_l4 = x % 8192 == 0;
            }))
            (omega arith)
            λ frag h'. record {
              family_known = inl refl;
              protocol_fits = h;
              header_inside = omega arith;
              l4_behind = omega arith;
              l4_inside = ground arith;
            })

  found :
      (ip proto l4 : ℕ) (have : Bool)
      → proto < 256
      → ip + 40 ≤ l4
      → l4 ≤ length p
      → IsNetwork ip (v6 proto l4 have)
  found ip proto l4 have hp hi hl = record {
    family_known = inr refl;
    protocol_fits = hp;
    header_inside = omega arith;
    l4_behind = omega arith;
    l4_inside = hl;
  }

  ext_walk-Ensures :
      (ip rounds proto l4 : ℕ)
      → proto < 256
      → ip + 40 ≤ l4
      → l4 ≤ length p
      → Ensures (IsNetwork ip) (ext_walk rounds p proto l4)
  unfolding ext_walk
  ext_walk-Ensures ip zero proto l4 hp hi hl = found ip proto l4 true hp hi hl
  ext_walk-Ensures ip (suc rounds) proto l4 hp hi hl =
      if-Ensures (IsNetwork ip) (is_ext proto) _ _
        (λ ext.
          bind-Ensures (Next l4) (IsNetwork ip) (ext_next p l4 (proto == 51)) _
            (ext_next-Ensures l4 (proto == 51))
            λ (nh, moved) h. elim (Bool-cases (nh == 0)) [
              | inl z ↦ rw z tt
              | inr nz ↦ rw nz (
                  ext_walk-Ensures ip rounds nh moved h.0 (ground (arith, h.1))
                    (ground (arith, h.1)))
            ])
        (λ other.
          if-Ensures (IsNetwork ip) (proto == 44) _ _
            (λ frag. then_need (IsNetwork ip) (l4 + 8) _ λ n.
              then_word (IsNetwork ip) (l4 + 2) _ (omega arith) λ w hw.
                then_byte (IsNetwork ip) l4 _ (omega arith) λ nh h. elim (Bool-cases (w / 8 == 0)) [
                  | inl z ↦ rw z (ext_walk-Ensures ip rounds nh (l4 + 8) h (omega arith) n)
                  | inr nz ↦ rw nz (found ip nh (l4 + 8) false h (omega arith) n)
                ])
            (λ plain.
              if-Ensures (IsNetwork ip) (proto == 59) _ _ (λ last. tt)
                (λ l4_found. found ip proto l4 true hp hi hl)))

  pub parse_v6-Ensures : (ip : ℕ) → Ensures (IsNetwork ip) (parse_v6 p ip)
  unfolding parse_v6
  parse_v6-Ensures ip = then_need (IsNetwork ip) (ip + 40) _ λ n.
      then_byte (IsNetwork ip) (ip + 6) _ (omega arith)
        λ proto h. ext_walk-Ensures ip max_ext_hdr proto (ip + 40) h (omega arith) n

  pub parse_ip-Ensures : (ip : ℕ) → Ensures (IsNetwork ip) (parse_ip p ip)
  unfolding parse_ip
  parse_ip-Ensures ip = then_need (IsNetwork ip) (ip + 2) _ λ n.
      then_byte (IsNetwork ip) ip _ (omega arith) λ b0 h.
        if-Ensures (IsNetwork ip) (b0 / 16 == 4) _ _ (λ four. parse_v4-Ensures ip b0)
          (λ more.
            if-Ensures (IsNetwork ip) (b0 / 16 == 6) _ _ (λ six. parse_v6-Ensures ip) (λ no_ip. tt))

  pub record IsTransport (t : Transport) : Type 0 where
    pub sport_fits : t.sport < 65536
    pub dport_fits : t.dport < 65536
    pub icmp_type_fits : t.icmp_type < 256
    pub icmp_code_fits : t.icmp_code < 256
    pub tcp_flags_fits : t.tcp_flags < 256
    pub l4hdr_fits : t.l4hdr ≤ 60

  pub parse_l4-Ensures : (n : Network) → Ensures IsTransport (parse_l4 p n)
  unfolding parse_l4
  parse_l4-Ensures n =
      if-Ensures IsTransport (not n.have_l4) _ _ (λ none_there. omega arith)
        (λ there.
          if-Ensures IsTransport (n.protocol == 6) _ _
            (λ tcp. then_need IsTransport (n.l4 + 14) _ λ e.
              then_word IsTransport n.l4 _ (omega arith) λ s hs.
                then_word IsTransport (n.l4 + 2) _ (omega arith) λ d hd.
                  then_byte IsTransport (n.l4 + 13) _ (omega arith) λ flags hf.
                    then_byte IsTransport (n.l4 + 12)
                      (λ off. ok (record no_transport {
                        sport = s;
                        dport = d;
                        tcp_flags = flags;
                        l4hdr = off / 16 * 4;
                      }))
                      (omega arith) λ off ho. omega arith)
            (λ not_tcp.
              if-Ensures IsTransport (n.protocol == 17) _ _
                (λ udp. then_need IsTransport (n.l4 + 4) _ λ e.
                  then_word IsTransport n.l4 _ (omega arith) λ s hs.
                    then_word IsTransport (n.l4 + 2)
                      (λ d. ok (record no_transport { sport = s; dport = d; l4hdr = 8 }))
                      (omega arith) λ d hd. omega arith)
                (λ not_udp.
                  if-Ensures IsTransport (n.protocol == 1 || n.protocol == 58) _ _
                    (λ icmp. then_need IsTransport (n.l4 + 2) _ λ e.
                      then_byte IsTransport n.l4 _ (omega arith) λ t ht.
                        then_byte IsTransport (n.l4 + 1)
                          (λ c. ok (record no_transport { icmp_type = t; icmp_code = c }))
                          (omega arith) λ c hc. omega arith)
                    (λ other. omega arith))))

pub outer_vlan-Ensures : (skb : Skb) → AreBytes skb.bytes → Ensures (λ v. v < 4096) (outer_vlan skb)
unfolding outer_vlan
outer_vlan-Ensures skb a =
    if-Ensures (λ v. v < 4096) skb.vlan_present _ _ (λ meta. omega arith)
      (λ in_packet.
        if-Ensures (λ v. v < 4096) (ltb (length skb.bytes) 18) _ _ (λ short. omega arith)
          (λ long.
            then_word skb.bytes a (λ v. v < 4096) 12 _ (ground arith)
              λ et h.
                if-Ensures (λ v. v < 4096) (not (is_outer_vlan et)) _ _ (λ plain. omega arith)
                  (λ tagged.
                    then_word skb.bytes a (λ v. v < 4096) 14 (λ tci. ok (tci % 4096)) (ground arith)
                      λ tci h'. omega arith)))
