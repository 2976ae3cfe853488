-- ===== src/Ipfix/Chunks.antt =====
-- Splitting buffered records into datagrams (flush_set and flush of src/exporter_ipfix.cpp).
use obserwrt.Prelude.{
  leb, ◌-◌, ℕ, ◌+◌, ◌%◌, ◌^◌, ◌≤◌, ◌<◌, ◌≡◌, refl, sym, ap, inl, inr, Bool, ◌&&◌, List, [], ◌∷◌,
  ◌++◌, arith, ltb, if◌then◌else◌, length, Bytes, be_bytes, concat, length-append, append-nil,
  append_assoc, Bool-cases, lt→ltb, be_value, take, drop,
}
use obserwrt.Ipfix.{
  IpfixExporter, template_set, fields_v4, fields_v6, template_interval_s, max_udp, msg_hdr, set_hdr,
  header, data_message, send, send_templates, emit_chunk, flush_loop, flush_set, refresh_templates,
  ipv4_tid, ipv6_tid,
}
use obserwrt.Udp.{connected}
use obserwrt.Udp
use native.Mathlib.Nat.{add-zero}

-- the datagrams that the exporter has produced: handed to sendto when connected, else captured
abbrev pub outbox : IpfixExporter → List Bytes
outbox e = if connected e.udp then e.udp.handed else e.captured

abbrev pub size : List Bytes → ℕ
size [] = 0
size (r ∷ rs) = length r + size rs

size-append : (xs ys : List Bytes) → size (xs ++ ys) ≡ size xs + size ys
size-append [] ys = omega arith
size-append (x ∷ xs) ys = omega (arith, size-append xs ys)

length-concat-size : (xs : List Bytes) → length (concat xs) ≡ size xs
length-concat-size [] = refl
length-concat-size (x ∷ xs) = omega (arith, length-append x (concat xs), length-concat-size xs)

-- Every record can share a datagram with the two headers.
abbrev pub AllShort : List Bytes → Type 0
AllShort [] = Unit {0}
AllShort (r ∷ rs) = (msg_hdr + set_hdr + length r ≤ max_udp) × AllShort rs

-- A message of RFC 7011 with one set of data records: version 10, its own length, the export time,
-- the sequence number and the observation domain; then the set's id and length, and the records.
abbrev pub message : ℕ → ℕ → ℕ → ℕ → List Bytes → Bytes
message seq domain time set_id c =
    be_bytes 2 10
    ++ be_bytes 2 (20 + size c)
    ++ be_bytes 4 time
    ++ be_bytes 4 seq
    ++ be_bytes 4 domain
    ++ be_bytes 2 set_id
    ++ be_bytes 2 (4 + size c)
    ++ concat c

-- Groups of records, none of them empty.
abbrev pub AllFilled : List (List Bytes) → Type 0
AllFilled [] = Unit {0}
AllFilled (c ∷ cs) = (0 < length c) × AllFilled cs

-- Datagrams of at most 1200 bytes.
abbrev pub AllSmall : List Bytes → Type 0
AllSmall [] = Unit {0}
AllSmall (d ∷ ds) = (length d ≤ 1200) × AllSmall ds

-- The messages for the groups: each carries the number of records sent before it.
abbrev pub messages : ℕ → ℕ → ℕ → ℕ → List (List Bytes) → List Bytes
messages seq domain time set_id [] = []
messages seq domain time set_id (c ∷ cs) =
    message seq domain time set_id c ∷ messages ((seq + length c) % 2 ^ 32) domain time set_id cs

-- What flushing `records` does to the exporter.
pub record Flushed (e : IpfixExporter) (time set_id : ℕ) (records : List Bytes) (e' : IpfixExporter)
    : Type 0 where
  pub groups : List (List Bytes)
  pub covers : concat groups ≡ records
  pub filled : AllFilled groups
  pub small : AllSmall (messages e.seq e.obs_domain time set_id groups)
  pub sent : outbox e' ≡ outbox e ++ messages e.seq e.obs_domain time set_id groups
  pub counted : e'.seq ≡ (e.seq + length records) % 2 ^ 32
  pub pending4_kept : e'.pending4 ≡ e.pending4
  pub pending6_kept : e'.pending6 ≡ e.pending6
  pub domain_kept : e'.obs_domain ≡ e.obs_domain

-- A datagram of a group that fits has at most 1200 bytes, and announces its own length in the
-- message header.
pub announced_length :
    (seq domain time set_id : ℕ) (c : List Bytes)
    → msg_hdr + set_hdr + size c ≤ max_udp
    → (length (data_message seq domain time set_id c (size c)) ≤ max_udp)
      × (be_value 0 (take 2 (drop 2 (data_message seq domain time set_id c (size c))))
          ≡ length (data_message seq domain time set_id c (size c)))
unfolding data_message be_bytes be_value
announced_length seq domain time set_id c h = omega (arith, length-concat-size c)

message_lem :
    (seq domain time set_id : ℕ) (c : List Bytes)
    → msg_hdr + set_hdr + size c ≤ max_udp
    → data_message seq domain time set_id c (size c) ≡ message seq domain time set_id c
unfolding data_message header
message_lem seq domain time set_id c h =
    let fits : (msg_hdr + set_hdr + size c) % 2 ^ 16 ≡ 20 + size c = omega arith in
    let set_fits : (set_hdr + size c) % 2 ^ 16 ≡ 4 + size c = omega arith in
    rw (fits, set_fits) (simp append_assoc refl)

length-message :
    (seq domain time set_id : ℕ) (c : List Bytes)
    → msg_hdr + set_hdr + size c ≤ max_udp
    → length (message seq domain time set_id c) ≤ 1200
length-message seq domain time set_id c h =
    rw (message_lem seq domain time set_id c h) at ((announced_length seq domain time set_id c h).0)

length_snoc : (c : List Bytes) (r : Bytes) → length (c ++ r ∷ []) ≡ length c + 1
length_snoc c r = omega (arith, length-append c (r ∷ []))

size_snoc : (c : List Bytes) (r : Bytes) → size (c ++ r ∷ []) ≡ size c + length r
size_snoc c r = omega (arith, size-append c (r ∷ []))

size_none : (c : List Bytes) → length c ≡ 0 → size c ≡ 0
size_none [] h = refl
size_none (x ∷ c) h = absurd (omega arith)

module _ (delivered : List Bytes → Bytes → Bool) where
  outbox-send : (e : IpfixExporter) (d : Bytes) → outbox (send delivered e d) ≡ outbox e ++ d ∷ []
  unfolding send Udp.send connected
  outbox-send e d = ground arith

  abbrev Same : IpfixExporter → IpfixExporter → Type 0
  Same e e' =
      (e'.seq ≡ e.seq)
      × (e'.pending4 ≡ e.pending4)
      × (e'.pending6 ≡ e.pending6)
      × (e'.obs_domain ≡ e.obs_domain)

  send-Same : (e : IpfixExporter) (d : Bytes) → Same e (send delivered e d)
  unfolding send
  send-Same e d = ground arith

  Flushed-cons :
      (e : IpfixExporter) (time set_id : ℕ) (c : List Bytes) (records : List Bytes)
      (e' : IpfixExporter)
      → 0 < length c
      → msg_hdr + set_hdr + size c ≤ max_udp
      → Flushed (emit_chunk delivered e time set_id c (length c) (size c)) time set_id records e'
      → Flushed e time set_id (c ++ records) e'
  unfolding emit_chunk
  Flushed-cons e time set_id c records e' pos fits f =
      let d = data_message e.seq e.obs_domain time set_id c (size c) in
      let s = send-Same e d in
      record {
        groups = c ∷ f.groups;
        covers = ap (λ r. c ++ r) f.covers;
        filled = (pos, f.filled);
        small = (length-message e.seq e.obs_domain time set_id c fits, rw (s.0, s.3) at f.small);
        sent = ground (
          arith,
          message_lem e.seq e.obs_domain time set_id c fits,
          f.sent,
          send-Same e d,
          outbox-send e d,
          append_assoc (outbox e) (d ∷ [])
              (messages ((e.seq + length c) % 2 ^ 32) e.obs_domain time set_id f.groups),
        );
        counted = ground (arith, f.counted, send-Same e d, length-append c records);
        pending4_kept = ground (arith, send-Same e d, f.pending4_kept);
        pending6_kept = ground (arith, send-Same e d, f.pending6_kept);
        domain_kept = ground (arith, send-Same e d, f.domain_kept);
      }

  Flushed-nil : (e : IpfixExporter) (time set_id : ℕ) → e.seq < 2 ^ 32 → Flushed e time set_id [] e
  Flushed-nil e time set_id h = record {
    groups = [];
    covers = refl;
    filled = tt;
    small = tt;
    sent = sym (append-nil (outbox e));
    counted = omega arith;
    pending4_kept = refl;
    pending6_kept = refl;
    domain_kept = refl;
  }

  emit_chunk-seq :
      (e : IpfixExporter) (time set_id : ℕ) (c : List Bytes) (cnt body : ℕ)
      → (emit_chunk delivered e time set_id c cnt body).seq < 2 ^ 32
  unfolding emit_chunk
  emit_chunk-seq e time set_id c cnt body = omega arith

  -- the loop from any point on, with a group under way
  flush_loop-Flushed :
      (e : IpfixExporter) (time set_id : ℕ) (c : List Bytes) (rs : List Bytes)
      → e.seq < 2 ^ 32
      → msg_hdr + set_hdr + size c ≤ max_udp
      → AllShort rs
      → Flushed e time set_id
          (c ++ rs)
          (flush_loop delivered e time set_id c (length c) (size c) rs)
  unfolding flush_loop
  flush_loop-Flushed e time set_id [] [] h fits short = Flushed-nil e time set_id h
  flush_loop-Flushed e time set_id (r ∷ c) [] h fits short =
      rw (lt→ltb 0 (length (r ∷ c)) (omega arith)) (
        Flushed-cons e time set_id (r ∷ c) [] _ (omega arith) fits (
          Flushed-nil (emit_chunk delivered e time set_id (r ∷ c) (length (r ∷ c)) (size (r ∷ c)))
            time set_id (emit_chunk-seq e time set_id (r ∷ c) (length (r ∷ c)) (size (r ∷ c)))))
  flush_loop-Flushed e time set_id c (r ∷ rs) h fits short =
      let e' = emit_chunk delivered e time set_id c (length c) (size c) in
      elim (Bool-cases (ltb 0 (length c) && ltb max_udp (msg_hdr + set_hdr + size c + length r))) [
        | inl full ↦ rw full (
            Flushed-cons e time set_id c (r ∷ rs) _ (ground arith) fits (
              rw (add-zero (length r)) at (
                flush_loop-Flushed e' time set_id (r ∷ []) rs
                  (emit_chunk-seq e time set_id c (length c) (size c)) (omega arith) short.1)))
        | inr more ↦ rw more (
            rw (length_snoc c r, size_snoc c r, append_assoc c (r ∷ []) rs) at
              (flush_loop-Flushed e time set_id (c ++ r ∷ []) rs h
                (ground (arith, size_snoc c r, size_none c)) short.1))
      ]

  -- Flushing a set of records that are short enough gives its records in order, each exactly once, in
  -- messages of RFC 7011 of at most 1200 bytes, none of them empty, which announce their length and carry as
  -- sequence number the count of records sent before, and advances the counter by the number of
  -- records.
  pub flush_set-Flushed :
      (e : IpfixExporter) (time set_id : ℕ) (records : List Bytes)
      → e.seq < 2 ^ 32
      → AllShort records
      → Flushed e time set_id records (flush_set delivered e time set_id records)
  unfolding flush_set
  flush_set-Flushed e time set_id records h short =
      flush_loop-Flushed e time set_id [] records h (omega arith) short

  -- at most one message, with the templates
  pub templates_lem :
      (e : IpfixExporter) (time : ℕ)
      → (ts : List Bytes) × (length ts ≤ 1)
        × (outbox (refresh_templates delivered e time) ≡ outbox e ++ ts)
  unfolding refresh_templates send_templates connected
  templates_lem e time =
      let body = template_set ipv4_tid fields_v4 ++ template_set ipv6_tid fields_v6 in
      let m = header e.seq e.obs_domain time (msg_hdr + length body) ++ body in
      elim (Bool-cases
        (leb template_interval_s ((time + 2 ^ 32 - e.last_template_sent_s) % 2 ^ 32))) [
          | inl due ↦ (m ∷ [], omega arith, rw due (outbox-send e m))
          | inr early ↦ ([], omega arith, rw early (sym (append-nil (outbox e))))
        ]
