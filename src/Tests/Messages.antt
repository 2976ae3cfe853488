-- ===== src/Tests/Messages.antt =====
-- A remote syslog exporter started and fed with a flow.
use obserwrt.Prelude.{
  ℕ, ◌≡◌, refl, Bool, true, Option, none, some, List, [], ◌∷◌, ◌++◌, if◌then◌else◌, Bytes, codes,
}
use obserwrt.Config
use obserwrt.Udp.{Candidate, connected}
use obserwrt.Syslog.{Platform, SyslogExporter, Observation, fresh, init}
use obserwrt.Syslog.Delivery.{
  IsStarted, emit_all, payloads, frames, init-IsStarted, emit_all-IsStarted,
}
use obserwrt.Tests.World.{flow_on, counted}

abbrev pub platform : Platform
platform = record {
  inet_ntop = λ a. codes "::1";
  json_text = λ t. codes "_" ++ t;
  json_object = λ ms. codes "object";
  iso_timestamp = λ now. codes "1970-01-01T00:00:00Z";
  sys_hostname = codes "router";
}

abbrev settings : Config.Syslog
settings = record {
  enabled = true;
  syslog_host = codes "collector";
  syslog_port = 514;
  protocol = codes "udp";
  format = codes "logfmt";
  hostname = [];
  source_address = [];
}

abbrev found : Option (List Candidate)
found = some (record { address = 1; socket_ok = true; source_ok = true } ∷ [])

init-IsStarted_example :
    ((init platform fresh settings found).2.enabled ≡ (init platform fresh settings found).0)
    × ((init platform fresh settings found).0 ≡ true
        → IsStarted (init platform fresh settings found).2)
init-IsStarted_example = init-IsStarted platform settings found

abbrev delivered : List Bytes → Bytes → Bool
delivered sent d = true

abbrev pub started : SyslogExporter
started = record fresh {
  enabled = true;
  remote = record { to = some 1; failures = 0; handed = [] };
}

started-IsStarted : IsStarted started
unfolding connected
started-IsStarted = record { on = refl; reachable = refl }

abbrev seen : List (ℕ × Observation)
seen =
    (
      60,
      record {
        key = flow_on 3 80;
        value = counted 5;
        expired = true;
        delta = none;
        drop_info = none;
      },
    )
    ∷ []

emit_all-IsStarted_example :
    ((emit_all platform delivered started seen).log
      ≡ started.log
        ++ (if started.is_local then payloads platform started.ifnames started.format seen else []))
    × ((emit_all platform delivered started seen).remote.handed
        ≡ started.remote.handed
          ++ (if started.is_local
              then []
              else frames platform started.ifnames started.format started.host seen))
emit_all-IsStarted_example = emit_all-IsStarted platform delivered started seen started-IsStarted
