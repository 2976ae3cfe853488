-- ===== src/Tests/Exports.antt =====
-- IPFIX messages and datagram sends for concrete records.
use obserwrt.Prelude.{
  ℕ, ◌%◌, ◌≡◌, refl, Bool, true, false, none, some, List, [], ◌∷◌, arith, length, take, drop,
  be_value, Bytes, ◌==◌,
}
use obserwrt.Flow.{FlowKey, IsFlowKey, IsFlowValue}
use obserwrt.Udp.{UdpClient, ulong, send_all, take_failures, take_failures-send_all}
use obserwrt.Ipfix.{IpfixExporter, init, flush_set, ipv4_tid, fields_v4, fields_v6}
use obserwrt.Ipfix.Record.{
  record_of, decode, common_elements, IsEmittable, decode-record_v4, decode-record_v6,
}
use obserwrt.Ipfix.Chunks.{Flushed, flush_set-Flushed}
use obserwrt.Tests.World.{address, flow_on, flow_on-IsFlowKey, counted}

abbrev delivered : List Bytes → Bytes → Bool
delivered sent d = length sent == 0

abbrev records : List Bytes
records = (1 ∷ 2 ∷ 3 ∷ []) ∷ (4 ∷ 5 ∷ []) ∷ []

flush_set-Flushed_example :
    Flushed
      (init 1)
      1700000000
      ipv4_tid
      records
      (flush_set delivered (init 1) 1700000000 ipv4_tid records)
unfolding init
flush_set-Flushed_example =
    flush_set-Flushed delivered (init 1) 1700000000 ipv4_tid records (omega arith) (omega arith)

abbrev full : IpfixExporter
full = record {
  obs_domain = 1;
  seq = 4294967295;
  offset_ms = 0;
  last_template_sent_s = 0;
  udp = record { to = some 1; failures = 0; handed = [] };
  captured = [];
  pending4 = records;
  pending6 = records;
}

abbrev v6_flow : FlowKey
v6_flow = record (flow_on 3 80) { family = 6 }

v6_flow-IsFlowKey : IsFlowKey v6_flow
v6_flow-IsFlowKey = record {
  ifindex_fits = omega arith;
  direction_fits = omega arith;
  family_fits = omega arith;
  protocol_fits = omega arith;
  reserved_fits = omega arith;
  src_length = refl;
  dst_length = refl;
  sport_fits = omega arith;
  dport_fits = omega arith;
  icmp_type_fits = omega arith;
  icmp_code_fits = omega arith;
}

counted_IsFlowValue : IsFlowValue (counted 5)
counted_IsFlowValue = omega arith

emittable_v4 : IsEmittable 0 (flow_on 3 80) (counted 5) false none 0
emittable_v4 = record {
  key_fits = flow_on-IsFlowKey 80 (omega arith);
  value_fits = counted_IsFlowValue;
  delta_fits = omega arith;
  status_fits = omega arith;
}

emittable_v6 :
    IsEmittable 0 v6_flow (counted 5) true (some (record { packets = 3; bytes = 300 })) 128
emittable_v6 = record {
  key_fits = v6_flow-IsFlowKey;
  value_fits = counted_IsFlowValue;
  delta_fits = omega arith;
  status_fits = omega arith;
}

decode-record_v4_example :
    (length (record_of 0 (flow_on 3 80) (counted 5) false none 0) ≡ 67)
    × (decode fields_v4 (record_of 0 (flow_on 3 80) (counted 5) false none 0)
        ≡ (8, be_value 0 (take 4 (drop 12 address)))
          ∷ (12, be_value 0 (take 4 (drop 12 address)))
          ∷ common_elements 0 (flow_on 3 80) (counted 5) false none 0 32)
decode-record_v4_example =
    decode-record_v4 0 (flow_on 3 80) (counted 5) false none 0 refl emittable_v4

decode-record_v6_example :
    (length (record_of 0 v6_flow (counted 5) true (some (record { packets = 3; bytes = 300 })) 128)
      ≡ 91)
    × (decode fields_v6
          (record_of 0 v6_flow (counted 5) true (some (record { packets = 3; bytes = 300 })) 128)
        ≡ (27, be_value 0 address)
          ∷ (28, be_value 0 address)
          ∷ common_elements 0 v6_flow
              (counted 5)
              true
              (some (record { packets = 3; bytes = 300 }))
              128
              139)
decode-record_v6_example =
    decode-record_v6 0 v6_flow (counted 5) true (some (record { packets = 3; bytes = 300 })) 128
      refl emittable_v6

abbrev client : UdpClient
client = record { to = some 1; failures = 4; handed = [] }

abbrev sends : ℕ × UdpClient
sends = send_all delivered (take_failures client).1 records

take_failures-send_all_example :
    ((take_failures sends.1).0 ≡ sends.0 % ulong)
    × ((take_failures (take_failures sends.1).1).0 ≡ 0)
take_failures-send_all_example = take_failures-send_all delivered client records
