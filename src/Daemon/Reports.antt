-- ===== src/Daemon/Reports.antt =====
-- What one pass of the lifecycle timer reports (src/main.cpp).
use obserwrt.Prelude.{
  ℕ, ◌+◌, ◌-◌, ◌*◌, ◌%◌, ◌^◌, ◌≤◌, ◌<◌, ◌≡◌, Bool, true, false, List, [], ◌∷◌, ◌++◌, ◌==◌,
  if◌then◌else◌, Bytes, length, concat,
}
use obserwrt.Flow.{IsFlowKey}
use obserwrt.Ipfix.{IpfixExporter, set_offset_ms, flush, refresh_templates}
use obserwrt.Ipfix
use obserwrt.Ipfix.Chunks.{AllShort, messages, outbox}
use obserwrt.Ipfix.Record.{record_of}
use obserwrt.Syslog.{SyslogExporter, Observation, status_of}
use obserwrt.Syslog
use obserwrt.Udp
use obserwrt.Syslog.Delivery.{IsStarted, payloads, frames}
use obserwrt.Metrics.{Metrics}
use obserwrt.Metrics
use obserwrt.Daemon.Pass.{Setup, Inputs, Sinks, dispatch_all}

-- the keys are the kernel's
abbrev pub HaveFlowKeys : List Observation → Type 0
HaveFlowKeys [] = Unit {0}
HaveFlowKeys (o ∷ os) = IsFlowKey o.key × HaveFlowKeys os

-- each observation with the time that its syslog frame gets
abbrev pub stamped : (ℕ → ℕ) → ℕ → List Observation → List (ℕ × Observation)
stamped clock n [] = []
stamped clock n (o ∷ os) = (clock n, o) ∷ stamped clock (n + 1) os

-- between two passes
pub record IsReady (k : Sinks) : Type 0 where
  pub pending4_empty : k.ipfix.pending4 ≡ []
  pub pending6_empty : k.ipfix.pending6 ≡ []
  pub seq_fits : k.ipfix.seq < 2 ^ 32
  pub flows_fit : k.metrics.total_flows < 2 ^ 64
  pub ipfix_settled : k.ipfix.udp.failures ≡ 0
  pub syslog_settled : k.syslog.remote.failures ≡ 0

-- the records of the observations of one version of IP, in order, at the exporter's offset
abbrev pub records_of : Bool → ℕ → List Observation → List Bytes
records_of four offset [] = []
records_of four offset (o ∷ os) =
    let r = record_of offset o.key o.value o.expired o.delta (status_of o.drop_info) in
    let rs = records_of four offset os in
    if o.key.family == 4 then (if four then r ∷ rs else rs) else (if four then rs else r ∷ rs)

-- Behind what the exporter has produced go at most one message with the templates, and the messages with the records
-- of the observations, each in one.
pub record Sent (time offset : ℕ) (all : List Observation) (e e' : IpfixExporter) : Type 0 where
  pub groups4 : List (List Bytes)
  pub groups6 : List (List Bytes)
  pub covers4 : concat groups4 ≡ records_of true offset all
  pub covers6 : concat groups6 ≡ records_of false offset all
  pub templates : List Bytes
  pub few : length templates ≤ 1
  pub sent :
      outbox e'
      ≡ ((outbox e ++ templates) ++ messages e.seq e.obs_domain time 256 groups4)
        ++ messages
            ((e.seq + length (records_of true offset all)) % 2 ^ 32)
            e.obs_domain
            time
            257
            groups6

-- how far the IPFIX exporter is in a pass that has handed it `n` observations
record IsHanding (e₀ : IpfixExporter) (n : ℕ) (e : IpfixExporter) : Type 0 where
  short4 : AllShort e.pending4
  short6 : AllShort e.pending6
  seq_kept : e.seq ≡ e₀.seq
  handed : length e.pending4 + length e.pending6 ≡ n

-- What a pass reports of its observations.
pub record IsReported (s : Setup) (time offset lost : ℕ) (all : List Observation) (k k' : Sinks)
    : Type 0 where
  -- the exporters and the metrics are ready for the next pass
  pub is_ready : IsReady k'
  -- the metrics count each
  pub flows_counted :
      k.metrics.is_active ≡ true
      → k'.metrics.total_flows ≡ (k.metrics.total_flows + length all) % 2 ^ 64
  -- the IPFIX exporter sends each in one record
  pub records_sent : s.ipfix_enabled ≡ true → k'.ipfix.seq ≡ (k.ipfix.seq + length all) % 2 ^ 32
  pub records_whole : s.ipfix_enabled ≡ true → Sent time offset all k.ipfix k'.ipfix
  -- the metrics count the sends that failed
  pub errors_counted :
      k.metrics.is_active ≡ true
      → k'.metrics.total_errors ≡ (k.metrics.total_errors + lost) % 2 ^ 64
  -- the syslog exporter writes one message for each, in order
  pub messages_logged :
      s.syslog_active ≡ true
      → IsStarted k.syslog
      → (k'.syslog.log
          ≡ k.syslog.log
            ++ (if k.syslog.is_local
                then payloads s.os k.syslog.ifnames k.syslog.format (stamped s.clock 0 all)
                else []))
        × (k'.syslog.remote.handed
            ≡ k.syslog.remote.handed
              ++ (if k.syslog.is_local
                  then []
                  else frames s.os k.syslog.ifnames k.syslog.format k.syslog.host
                      (stamped s.clock 0 all)))

module _ (s : Setup) (names : List (ℕ × Bytes)) (attached : List Bytes) (i : Inputs) where
  abbrev offset : ℕ
  offset = (i.now_s * 1000 + 2 ^ 64 - i.mono_ms) % 2 ^ 64

  abbrev at_offset : Sinks → Sinks
  at_offset k = record k { ipfix = set_offset_ms k.ipfix offset }

  -- the sends of the pass that have failed, by the counters of the two clients
  abbrev pub lost_in : List Observation → Sinks → ℕ
  lost_in os k =
      let d = dispatch_all s 0 os (at_offset k) in
      (if s.ipfix_enabled then flush s.ipfix_delivered d.ipfix i.now_s else d.ipfix).udp.failures
      + d.syslog.remote.failures
