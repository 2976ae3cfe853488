-- ===== src/Ipfix/Record.antt =====
-- Data records (IpfixExporter::emit of src/exporter_ipfix.cpp) read by the templates that the
-- exporter sends.
use obserwrt.Prelude.{
  ℕ, ◌+◌, ◌*◌, ◌/◌, ◌%◌, ◌^◌, ◌<◌, ◌≤◌, ◌≡◌, inl, inr, Bool-cases, refl, ap, ◌∙◌, Bool, false,
  Option, List, [], ◌∷◌, ◌++◌, arith, ◌==◌, if◌then◌else◌, length, take, drop, Bytes, be_bytes,
  be_value, length-be_bytes, concat, length-append, length-drop, length-take,
}
use obserwrt.Flow.{FlowKey, FlowValue, Delta, IsFlowKey, IsFlowValue, IsDelta, ingress, egress}
use obserwrt.Ipfix.{
  Fields, reported, fields_v4, fields_v6, common_fields, record_fields, counted_fields,
  end_idle_timeout, end_active_timeout, sampling_interval,
}

-- A collector: cut the record at the lengths of the template, and read each field in network order.
unfoldable pub decode : Fields → Bytes → List (ℕ × ℕ)
decode [] bs = []
decode ((ie, len) ∷ fs) bs = (ie, be_value 0 (take len bs)) ∷ decode fs (drop len bs)

-- The fields have the lengths of the template.
abbrev pub Fits : Fields → List Bytes → Type 0
Fits [] [] = Unit {0}
Fits ((ie, len) ∷ fs) (x ∷ xs) = (length x ≡ len) × Fits fs xs
Fits _ _ = ⊥

abbrev values : Fields → List Bytes → List (ℕ × ℕ)
values ((ie, len) ∷ fs) (x ∷ xs) = (ie, be_value 0 x) ∷ values fs xs
values _ _ = []

take-append_length : (xs ys : Bytes) → take (length xs) (xs ++ ys) ≡ xs
take-append_length [] ys = refl
take-append_length (x ∷ xs) ys = ap (◌∷◌ x) (take-append_length xs ys)

drop-append_length : (xs ys : Bytes) → drop (length xs) (xs ++ ys) ≡ ys
drop-append_length [] ys = refl
drop-append_length (x ∷ xs) ys = drop-append_length xs ys

decode-concat : (fs : Fields) (xs : List Bytes) → Fits fs xs → decode fs (concat xs) ≡ values fs xs
unfolding decode
decode-concat [] [] h = refl
decode-concat [] (x ∷ xs) h = absurd h
decode-concat ((ie, len) ∷ fs) [] h = absurd h
decode-concat ((ie, len) ∷ fs) (x ∷ xs) h = rw (← h.0) (
    rw (take-append_length x (concat xs), drop-append_length x (concat xs))
      (ap (λ r. (ie, be_value 0 x) ∷ r) (decode-concat fs xs h.1)))

total_length : Fields → ℕ
total_length [] = 0
total_length ((ie, len) ∷ fs) = len + total_length fs

length-concat : (fs : Fields) (xs : List Bytes) → Fits fs xs → length (concat xs) ≡ total_length fs
unfolding total_length
length-concat [] [] h = refl
length-concat [] (x ∷ xs) h = absurd h
length-concat ((ie, len) ∷ fs) [] h = absurd h
length-concat ((ie, len) ∷ fs) (x ∷ xs) h =
    omega (arith, h.0, length-append x (concat xs), length-concat fs xs h.1)

be_value_1 : (n : ℕ) → n < 256 → be_value 0 (be_bytes 1 n) ≡ n
unfolding be_value be_bytes
be_value_1 n h = omega arith

pub be_value_2 : (n : ℕ) → n < 256 ^ 2 → be_value 0 (be_bytes 2 n) ≡ n
unfolding be_value be_bytes
be_value_2 n h = omega arith

pub be_value_4 : (n : ℕ) → n < 256 ^ 4 → be_value 0 (be_bytes 4 n) ≡ n
unfolding be_value be_bytes
be_value_4 n h = omega arith

be_value_8 : (n : ℕ) → n < 256 ^ 8 → be_value 0 (be_bytes 8 n) ≡ n
unfolding be_value be_bytes
be_value_8 n h = omega arith

-- The elements behind the addresses, as the table of src/exporter_ipfix.cpp describes them.
abbrev pub common_elements : ℕ → FlowKey → FlowValue → Bool → Option Delta → ℕ → ℕ → List (ℕ × ℕ)
common_elements offset_ms k v expired delta forwarding_status icmp =
    (7, k.sport)
    ∷ (11, k.dport)
    ∷ (4, k.protocol)
    ∷ (2, (reported v delta).packets)
    ∷ (1, (reported v delta).bytes)
    ∷ (152, (offset_ms + v.first_seen / 1000000) % 2 ^ 64)
    ∷ (153, (offset_ms + v.last_seen / 1000000) % 2 ^ 64)
    ∷ (6, v.tcp_flags)
    ∷ (10, if k.direction == ingress then k.ifindex else 0)
    ∷ (14, if k.direction == egress then k.ifindex else 0)
    ∷ (icmp, k.icmp_type * 256 + k.icmp_code)
    ∷ (61, k.direction)
    ∷ (136, if expired then end_idle_timeout else end_active_timeout)
    ∷ (34, sampling_interval)
    ∷ (58, v.vlan_id)
    ∷ (89, forwarding_status)
    ∷ (5, v.tos)
    ∷ []

module _ (offset_ms : ℕ) (k : FlowKey) (v : FlowValue) (expired : Bool) (delta : Option Delta)
    (forwarding_status : ℕ) where
  abbrev pub record_of : Bytes
  record_of = concat (record_fields offset_ms k v expired delta forwarding_status)

  -- The numbers fit the types of the arguments of `emit`.
  pub record IsEmittable : Type 0 where
    pub key_fits : IsFlowKey k
    pub value_fits : IsFlowValue v
    pub delta_fits : IsDelta (reported v delta)
    pub status_fits : forwarding_status < 256

  pub record_fields-Fits_v4 :
      k.family ≡ 4
      → IsFlowKey k
      → Fits fields_v4 (record_fields offset_ms k v expired delta forwarding_status)
  unfolding record_fields
  record_fields-Fits_v4 e f = rw e (
      omega (
        arith,
        length-be_bytes,
        length-take 4 (drop 12 k.src),
        length-drop 12 k.src,
        length-take 4 (drop 12 k.dst),
        length-drop 12 k.dst,
      ))

  pub record_fields-Fits_v6 :
      (k.family == 4) ≡ false
      → IsFlowKey k
      → Fits fields_v6 (record_fields offset_ms k v expired delta forwarding_status)
  unfolding record_fields
  record_fields-Fits_v6 e f = rw e (omega (arith, length-be_bytes))

  -- a record of either family is short
  pub record_fields_bound : IsFlowKey k → length record_of ≤ 91
  unfolding total_length
  record_fields_bound f = elim (Bool-cases (k.family == 4)) [
    | inl four ↦ omega (
      arith,
      length-concat fields_v4 (record_fields offset_ms k v expired delta forwarding_status)
          (record_fields-Fits_v4 (ground (arith, four)) f),
    )
    | inr six ↦ omega (
      arith,
      length-concat fields_v6 (record_fields offset_ms k v expired delta forwarding_status)
          (record_fields-Fits_v6 six f),
    )
  ]

  flag_fits : (if expired then end_idle_timeout else end_active_timeout) < 256
  flag_fits = ground arith

  side_fits : (d : ℕ) → k.ifindex < 256 ^ 4 → (if k.direction == d then k.ifindex else 0) < 256 ^ 4
  side_fits d h = ground arith

  -- reading back the fields behind the addresses
  values_common :
      (icmp : ℕ)
      → IsEmittable
      → values (common_fields icmp) (counted_fields offset_ms k v expired delta forwarding_status)
        ≡ common_elements offset_ms k v expired delta forwarding_status icmp
  unfolding counted_fields
  values_common icmp f = cc (
    be_value_2 k.sport f.key_fits.sport_fits,
    be_value_2 k.dport f.key_fits.dport_fits,
    be_value_1 k.protocol f.key_fits.protocol_fits,
    be_value_8 (reported v delta).packets f.delta_fits.packets_fits,
    be_value_8 (reported v delta).bytes f.delta_fits.bytes_fits,
    be_value_8 ((offset_ms + v.first_seen / 1000000) % 2 ^ 64) (omega arith),
    be_value_8 ((offset_ms + v.last_seen / 1000000) % 2 ^ 64) (omega arith),
    be_value_2 v.tcp_flags f.value_fits.tcp_flags_fits,
    be_value_4 (if k.direction == ingress then k.ifindex else 0)
        (side_fits ingress f.key_fits.ifindex_fits),
    be_value_4 (if k.direction == egress then k.ifindex else 0)
        (side_fits egress f.key_fits.ifindex_fits),
    be_value_2 (k.icmp_type * 256 + k.icmp_code)
        (omega (arith, f.key_fits.icmp_type_fits, f.key_fits.icmp_code_fits)),
    be_value_1 k.direction f.key_fits.direction_fits,
    be_value_1 (if expired then end_idle_timeout else end_active_timeout) flag_fits,
    be_value_4 sampling_interval (omega arith),
    be_value_2 v.vlan_id f.value_fits.vlan_id_fits,
    be_value_1 forwarding_status f.status_fits,
    be_value_1 v.tos f.value_fits.tos_fits,
  )

  -- Every IPv4 record has 67 bytes, and a collector that cuts it by the IPv4 template reads back
  -- the addresses, the ports, the counters, the interface on the side of the observed direction and
  -- the other elements that the table lists.
  pub decode-record_v4 :
      k.family ≡ 4
      → IsEmittable
      → (length record_of ≡ 67)
        × (decode fields_v4 record_of
            ≡ (8, be_value 0 (take 4 (drop 12 k.src)))
              ∷ (12, be_value 0 (take 4 (drop 12 k.dst)))
              ∷ common_elements offset_ms k v expired delta forwarding_status 32)
  unfolding total_length record_fields
  decode-record_v4 e f = (
    length-concat fields_v4 (record_fields offset_ms k v expired delta forwarding_status)
        (record_fields-Fits_v4 e f.key_fits),
    decode-concat fields_v4 (record_fields offset_ms k v expired delta forwarding_status)
          (record_fields-Fits_v4 e f.key_fits)
        ∙ rw e (
            ap
              (λ r.
                (8, be_value 0 (take 4 (drop 12 k.src)))
                ∷ (12, be_value 0 (take 4 (drop 12 k.dst)))
                ∷ r)
              (values_common 32 f)),
  )

  -- Every other record has 91 bytes, and is read back by the IPv6 template, with the whole
  -- 16-byte addresses.
  pub decode-record_v6 :
      (k.family == 4) ≡ false
      → IsEmittable
      → (length record_of ≡ 91)
        × (decode fields_v6 record_of
            ≡ (27, be_value 0 k.src)
              ∷ (28, be_value 0 k.dst)
              ∷ common_elements offset_ms k v expired delta forwarding_status 139)
  unfolding total_length record_fields
  decode-record_v6 e f = (
    length-concat fields_v6 (record_fields offset_ms k v expired delta forwarding_status)
        (record_fields-Fits_v6 e f.key_fits),
    decode-concat fields_v6 (record_fields offset_ms k v expired delta forwarding_status)
          (record_fields-Fits_v6 e f.key_fits)
        ∙ rw e
            (ap (λ r. (27, be_value 0 k.src) ∷ (28, be_value 0 k.dst) ∷ r) (values_common 139 f)),
  )
