-- ===== src/Tests/Boot.antt =====
-- A start-up that reaches the event loop.
use obserwrt.Prelude.{
  ℕ, ◌^◌, ◌≡◌, refl, true, false, Option, none, some, [], ◌∷◌, arith, codes, length,
  length-replicate, replicate,
}
use obserwrt.Config.{Config, default_config}
use obserwrt.Cli.{no_options}
use obserwrt.DropReasons.{missing}
use obserwrt.Metrics.{exposition}
use obserwrt.Bpf.Load.{Loader}
use obserwrt.Bpf.Load
use obserwrt.Bpf.Stats.{StatsCalls, NextKey}
use obserwrt.Bpf.Stats
use obserwrt.Bpf.BatchWalk.{enoent}
use obserwrt.Daemon.Dump.{Dumped, opened, sent}
use obserwrt.Daemon.DumpTrip.{received, links_of, named_events, dump-received}
use obserwrt.Daemon.Startup.{Host, Outcome, start_up}
use obserwrt.Daemon.StartupLaws.{IsAnswered, Explains, first_metrics, start_up_ends}
use obserwrt.Tests.World.{World}
use obserwrt.Tests.Netlink.{replies, last_reply, replies-AreReplies, last_reply-IsLastReply}
use obserwrt.Tests.Events.{narrow, narrow-HasHooks, narrow-HasFlows, narrow-HoldsFlows}
use obserwrt.Tests.Devices.{fnmatch}
use obserwrt.Tests.Messages.{platform}
use obserwrt.Tests.Reports.{delivered}
use obserwrt.Tests.Options.{defaults}
use obserwrt.Tests.Files.{build, files, Progress-replicate}

abbrev nothing_hooked : World
nothing_hooked = record { hooks = λ d j. false; flows = [] }

-- every object, map and program is found, and every call succeeds
abbrev loader : Loader World
loader = record {
  open_file = λ w path. (some 1, w);
  find_map = λ w obj name. some 2;
  find_program = λ w obj name. some 3;
  max_entries = λ w i. 4096;
  set_max_entries = λ w i n. w;
  set_type = λ w i. w;
  set_expected_attach_type = λ w i d. w;
  load = λ w i. (true, w);
  reuse_fd = λ w i j. (true, w);
  attach = λ w i. (some 4, w);
  destroy_link = λ w i. w;
  close = λ w i. w;
}

abbrev stats : StatsCalls World
stats = record {
  cpus = λ w. 2;
  next_key = λ w k. Stats.enoent;
  lookup_dev = λ w k. none;
  lookup_stat = λ w i. none;
  flows_entries = λ w. some 4096;
  drops_batch = λ w token size. (record { errno = enoent; entries = []; token = 0 }, w);
}

abbrev config : Config
config = record default_config { devices = codes "eth*" ∷ []; track_drops = true }

abbrev base : Host World
base = record {
  bpf_obj = some (codes "/lib/bpf/obserwrt-bpf.o");
  load_config = λ path. (config, []);
  syslog_found = none;
  ipfix_found = none;
  os = platform;
  ipfix_delivered = delivered;
  syslog_delivered = delivered;
  clock = λ n. 1700000000;
  start_s = 1700000000;
  mono_ms = 5000;
  loader = loader;
  stats = stats;
  world = nothing_hooked;
  btf = missing;
  opening = opened 3;
  request = sent;
  replies = received false (2 ^ 32) 2 replies last_reply;
  timers = true;
  file_calls = record { opens = false; writes = []; renames = false };
  files = files;
  build = build;
  fnmatch = fnmatch;
  big = false;
  modulus = 2 ^ 32;
  walk_fuel = 2;
  pass_fuel = 2;
  messages = 4;
  attrs = 2;
}

-- the length of what the first write of the textfile holds
abbrev text_length : ℕ
text_length = length (
    exposition
      (first_metrics narrow narrow-HasHooks narrow-HasFlows base narrow-HoldsFlows defaults
        no_options)
      build)

abbrev host : Host World
host = record base {
  file_calls = record { opens = true; writes = replicate text_length (some 1); renames = true };
}

abbrev links : Dumped
links = record {
  ok = true;
  error = none;
  events = named_events false (2 ^ 32) 2 (links_of false (2 ^ 32) 2 replies last_reply);
}

host-IsAnswered :
    IsAnswered narrow narrow-HasHooks narrow-HasFlows host narrow-HoldsFlows defaults no_options
      links
unfolding Load.load
host-IsAnswered = record {
  unhooked = λ d j. refl;
  dumped =
      dump-received false (2 ^ 32) 2 4 replies last_reply (omega arith) replies-AreReplies
        last_reply-IsLastReply;
  numbered = (omega arith, (omega arith, tt));
  progress = Progress-replicate text_length;
  room = omega (arith, length-replicate {A = Option ℕ} text_length (some 1));
}

start_up_ends_example :
    (o : Outcome World) × (start_up narrow host defaults no_options ≡ some o)
    × Explains narrow narrow-HasHooks narrow-HasFlows host narrow-HoldsFlows defaults no_options
        links o
start_up_ends_example =
    start_up_ends narrow narrow-HasHooks narrow-HasFlows host narrow-HoldsFlows defaults no_options
      links host-IsAnswered
