-- ===== src/Tests/Reports.antt =====
-- One pass with a flow and a drop.
use obserwrt.Prelude.{Bool, true, some, List, [], ◌∷◌, Bytes}
use obserwrt.Flow.{DropKey}
use obserwrt.Lifecycle.{Export}
use obserwrt.Ipfix.{init}
use obserwrt.Daemon.Pass.{Setup, Inputs, Sinks}
use obserwrt.Tests.World.{flow_on, counted}
use obserwrt.Tests.Files.{metrics}
use obserwrt.Tests.Messages.{platform, started}

abbrev pub delivered : List Bytes → Bytes → Bool
delivered sent d = true

abbrev pub setup : Setup
setup = record {
  ipfix_enabled = true;
  syslog_active = true;
  reasons = [];
  os = platform;
  ipfix_delivered = delivered;
  syslog_delivered = delivered;
  clock = λ n. 1700000000;
}

abbrev dropped : DropKey
dropped = record { flow = flow_on 3 81; reason = 2 }

abbrev pub inputs : Inputs
inputs = record {
  now_s = 1700000000;
  mono_ms = 5000;
  packets = 10;
  bytes = 1000;
  parsed = 10;
  flows_created = 1;
  drops = 1;
  drops_unparsed = 0;
  drained = some (record { keys = dropped ∷ []; values = counted 1 ∷ [] });
  raw =
      record {
        ifindex = 3;
        direction = 0;
        packets = 10 ∷ 0 ∷ 0 ∷ 0 ∷ [];
        bytes = 1000 ∷ 0 ∷ 0 ∷ 0 ∷ [];
      }
      ∷ [];
}

abbrev out : List Export
out =
    record {
      key = flow_on 3 80;
      value = counted 5;
      expired = true;
      delta = record { packets = 5; bytes = 500 };
    }
    ∷ []

abbrev pub sinks : Sinks
sinks = record { metrics = metrics; ipfix = init 1; syslog = started }
