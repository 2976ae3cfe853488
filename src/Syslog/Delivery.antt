-- ===== src/Syslog/Delivery.antt =====
-- What a started syslog exporter does with observations (src/exporter_syslog.cpp).
use obserwrt.Flow.{FlowValue, Delta, DropInfo}
use obserwrt.Prelude.{
  ◌/◌, ◌%◌, ◌==◌, to_string, bytes_eq, codes, drop, ℕ, ◌≡◌, refl, sym, inl, inr, Bool, true, false,
  ◌||◌, not, Option, none, some, List, [], ◌∷◌, ◌++◌, arith, if◌then◌else◌, Bytes, Bool-cases,
  append-nil, append_assoc,
}
use obserwrt.Config
use obserwrt.Config.{is_empty}
use obserwrt.Udp.{Candidate, UdpClient, connected}
use obserwrt.Udp
use obserwrt.Syslog.{
  Platform, Json, number, flag, text, dotted, packets_of, bytes_of, status_of, reason_of,
  make_record, members, addr_text, encode_json, encode_logfmt, SyslogExporter, Observation, fresh,
  init, emit, encode, frame, name_for,
}

-- An exporter that is switched on has somewhere to send to.
pub record IsStarted (e : SyslogExporter) : Type 0 where
  pub on : e.enabled ≡ true
  pub reachable : (e.is_local || connected e.remote) ≡ true

module _ (os : Platform) where
  -- the reference: the keys and values that a message has for an observation, in order
  abbrev pub named_as : Option (ℕ → Bytes) → ℕ → Bytes
  named_as none i = to_string i
  named_as (some names) i = names i

  abbrev pub address : Bytes → ℕ → Bytes
  address a family = if family == 4 then dotted (drop 12 a) else os.inet_ntop a

  abbrev pub described : Option (ℕ → Bytes) → Observation → List (Bytes × Json)
  described names o =
      (codes "ifindex", number o.key.ifindex)
      ∷ (codes "ifname", text (named_as names o.key.ifindex))
      ∷ (codes "direction", text (if o.key.direction == 0 then codes "ingress" else codes "egress"))
      ∷ (codes "family", number o.key.family)
      ∷ (codes "protocol", number o.key.protocol)
      ∷ (codes "icmp_type", number o.key.icmp_type)
      ∷ (codes "icmp_code", number o.key.icmp_code)
      ∷ (codes "src", text (address o.key.src o.key.family))
      ∷ (codes "dst", text (address o.key.dst o.key.family))
      ∷ (codes "sport", number o.key.sport)
      ∷ (codes "dport", number o.key.dport)
      ∷ (codes "packets", number (elim o.delta [ none ↦ o.value.packets | some d ↦ d.packets ]))
      ∷ (codes "bytes", number (elim o.delta [ none ↦ o.value.bytes | some d ↦ d.bytes ]))
      ∷ (codes "first_seen_ns", number o.value.first_seen)
      ∷ (codes "last_seen_ns", number o.value.last_seen)
      ∷ (codes "tcp_flags", number o.value.tcp_flags)
      ∷ (codes "vlan_id", number o.value.vlan_id)
      ∷ (codes "dscp", number (o.value.tos / 4 % 256))
      ∷ (codes "expired", flag o.expired)
      ∷ (
        codes "forwarding_status",
        number (elim o.drop_info [ none ↦ 0 | some d ↦ d.forwarding_status ]),
      )
      ∷ (codes "drop_reason", text (elim o.drop_info [ none ↦ [] | some d ↦ d.reason ]))
      ∷ []

  -- A value in a line: a text is quoted as JSON has it but for the direction, and a flag is 1 or 0.
  abbrev pub value_text : Bytes × Json → Bytes
  value_text (k, number n) = to_string n
  value_text (k, flag b) = if b then codes "1" else codes "0"
  value_text (k, text t) = if bytes_eq k (codes "direction") then t else os.json_text t

  -- The pairs in a line, with one space between them.
  abbrev pub more_text : Bytes → List (Bytes × Json) → Bytes
  more_text line [] = line
  more_text line (p ∷ ps) = more_text (line ++ (32 ∷ p.0 ++ codes "=") ++ value_text p) ps

  abbrev pub line_text : List (Bytes × Json) → Bytes
  line_text [] = []
  line_text (p ∷ ps) = more_text ((p.0 ++ codes "=") ++ value_text p) ps

  -- The message of an observation: an object for the format json, else a line.
  abbrev pub message : Option (ℕ → Bytes) → Bytes → Observation → Bytes
  message names format o =
      if bytes_eq format (codes "json")
      then os.json_object (described names o)
      else line_text (described names o)

  -- The messages for the observations, and their frames by RFC 5424: the facility local0 and the severity
  -- info, version 1, the time, the host and the application, and neither process, identifier nor data.
  abbrev pub payloads : Option (ℕ → Bytes) → Bytes → List (ℕ × Observation) → List Bytes
  payloads names format [] = []
  payloads names format ((now, o) ∷ xs) = message names format o ∷ payloads names format xs

  abbrev pub frames : Option (ℕ → Bytes) → Bytes → Bytes → List (ℕ × Observation) → List Bytes
  frames names format host [] = []
  frames names format host ((now, o) ∷ xs) =
      (codes "<134>1 "
        ++ os.iso_timestamp now
        ++ codes " "
        ++ host
        ++ codes " obserwrt - - - "
        ++ message names format o)
      ∷ frames names format host xs

  name_lem : (names : Option (ℕ → Bytes)) (i : ℕ) → name_for os names i ≡ named_as names i
  unfolding name_for
  name_lem none i = refl
  name_lem (some f) i = refl

  packets_lem :
      (v : FlowValue) (d : Option Delta)
      → packets_of v d ≡ elim d [ none ↦ v.packets | some x ↦ x.packets ]
  packets_lem v none = refl
  packets_lem v (some d) = refl

  bytes_lem :
      (v : FlowValue) (d : Option Delta)
      → bytes_of v d ≡ elim d [ none ↦ v.bytes | some x ↦ x.bytes ]
  bytes_lem v none = refl
  bytes_lem v (some d) = refl

  status_lem :
      (d : Option DropInfo) → status_of d ≡ elim d [ none ↦ 0 | some x ↦ x.forwarding_status ]
  status_lem none = refl
  status_lem (some d) = refl

  reason_lem : (d : Option DropInfo) → reason_of d ≡ elim d [ none ↦ [] | some x ↦ x.reason ]
  reason_lem none = refl
  reason_lem (some d) = refl

  pub encode_lem :
      (names : Option (ℕ → Bytes)) (format : Bytes) (o : Observation)
      → encode os o (name_for os names o.key.ifindex) format ≡ message names format o
  unfolding encode encode_json encode_logfmt make_record members addr_text bytes_eq
  encode_lem names format o =
      rw
        (
          name_lem names o.key.ifindex,
          packets_lem o.value o.delta,
          bytes_lem o.value o.delta,
          status_lem o.drop_info,
          reason_lem o.drop_info,
        )
        (elim (Bool-cases (bytes_eq format (codes "json"))) [
          | inl e ↦ rw e refl
          | inr e ↦ rw e refl
        ])

  pub frame_lem :
      (names : Option (ℕ → Bytes)) (format host : Bytes) (now : ℕ) (o : Observation)
      → frame os (encode os o (name_for os names o.key.ifindex) format) host now
        ≡ codes "<134>1 "
          ++ os.iso_timestamp now
          ++ codes " "
          ++ host
          ++ codes " obserwrt - - - "
          ++ message names format o
  unfolding frame
  frame_lem names format host now o = rw (encode_lem names format o) refl

  connected-connect :
      (found : Option (List Candidate)) (b : Bool) (u : UdpClient)
      → (Udp.connect found b u).0 ≡ none
      → connected (Udp.connect found b u).1 ≡ true
  unfolding Udp.connect connected
  connected-connect none b u e = ground (arith, e)
  connected-connect (some cs) b u e = ground (arith, e)

  -- An exporter is on after `init` exactly if `init` reports success, and then has somewhere to send
  -- to: the local log or a connected socket.
  pub init-IsStarted :
      (cfg : Config.Syslog) (found : Option (List Candidate))
      → ((init os fresh cfg found).2.enabled ≡ (init os fresh cfg found).0)
        × ((init os fresh cfg found).0 ≡ true → IsStarted (init os fresh cfg found).2)
  unfolding init connected
  init-IsStarted cfg found = (
    ground arith,
    λ started. record {
      on = ground (arith, started);
      reachable =
          ground (
            arith,
            started,
            connected-connect found (not (is_empty cfg.source_address)) Udp.closed,
          );
    },
  )

module _ (os : Platform) (delivered : List Bytes → Bytes → Bool) where
  -- `emit` for each observation, with the time of each
  unfoldable pub emit_all : SyslogExporter → List (ℕ × Observation) → SyslogExporter
  emit_all e [] = e
  emit_all e ((now, o) ∷ xs) = emit_all (emit os delivered now e o) xs

  emit_local :
      (e : SyslogExporter) (xs : List (ℕ × Observation))
      → e.enabled ≡ true
      → e.is_local ≡ true
      → ((emit_all e xs).log ≡ e.log ++ payloads os e.ifnames e.format xs)
        × ((emit_all e xs).remote ≡ e.remote)
  unfolding emit_all emit
  emit_local e [] on loc = (sym (append-nil e.log), refl)
  emit_local e ((now, o) ∷ xs) on loc =
      let m = encode os o (name_for os e.ifnames o.key.ifindex) e.format in
      ground (
        arith,
        encode_lem os e.ifnames e.format o,
        append_assoc e.log (m ∷ []) (payloads os e.ifnames e.format xs),
        emit_local (record e { log = e.log ++ m ∷ [] }) xs on loc,
      )

  handed-send :
      (u : UdpClient) (d : Bytes)
      → connected u ≡ true
      → ((Udp.send delivered u d).1.handed ≡ u.handed ++ d ∷ [])
        × (connected (Udp.send delivered u d).1 ≡ true)
  unfolding Udp.send connected
  handed-send u d c = ground (arith, c)

  emit_remote :
      (e : SyslogExporter) (xs : List (ℕ × Observation))
      → e.enabled ≡ true
      → e.is_local ≡ false
      → connected e.remote ≡ true
      → ((emit_all e xs).remote.handed ≡ e.remote.handed ++ frames os e.ifnames e.format e.host xs)
        × ((emit_all e xs).log ≡ e.log)
  unfolding emit_all emit
  emit_remote e [] on rem c = (sym (append-nil e.remote.handed), refl)
  emit_remote e ((now, o) ∷ xs) on rem c =
      let m = frame os (encode os o (name_for os e.ifnames o.key.ifindex) e.format) e.host now in
      let framed = frame_lem os e.ifnames e.format e.host now o in
      let sent = handed-send e.remote m c in
      ground (
        arith,
        framed,
        sent,
        append_assoc e.remote.handed (m ∷ []) (frames os e.ifnames e.format e.host xs),
        emit_remote (record e { remote = (Udp.send delivered e.remote m).1 }) xs on rem sent.1,
      )

  -- Every observation handed to a started exporter gives one message, in order: the message itself is handed to syslog(3), or, in a
  -- frame of RFC 5424, to sendto, which may refuse it; nothing goes to the other place.
  pub emit_all-IsStarted :
      (e : SyslogExporter) (xs : List (ℕ × Observation))
      → IsStarted e
      → ((emit_all e xs).log
          ≡ e.log ++ (if e.is_local then payloads os e.ifnames e.format xs else []))
        × ((emit_all e xs).remote.handed
            ≡ e.remote.handed
              ++ (if e.is_local then [] else frames os e.ifnames e.format e.host xs))
  emit_all-IsStarted e xs s = elim (Bool-cases e.is_local) [
    | inl loc ↦ ground (arith, loc, emit_local e xs s.on loc, append-nil e.remote.handed)
    | inr rem ↦
        ground (
          arith,
          rem,
          emit_remote e xs s.on rem (ground (arith, s.reachable, rem)),
          append-nil e.log,
        )
  ]
