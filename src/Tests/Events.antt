-- ===== src/Tests/Events.antt =====
-- The event loop: two devices appear, notifications are lost and dumped anew, and passes come in between.
use obserwrt.Prelude.{
  ◌^◌, ◌<◌, ◌≡◌, refl, true, false, Option, none, some, List, [], ◌∷◌, arith, find, codes,
  append-nil, length, subst,
}
use obserwrt.Flow.{FlowKey, FlowValue}
use obserwrt.Lifecycle.Scan.{Distinct}
use obserwrt.Bpf.Attach.{HasHooks}
use obserwrt.Bpf.Purge.{HasFlows}
use obserwrt.Bpf.{Libbpf}
use obserwrt.Bpf
use obserwrt.Daemon.{refresh_names}
use obserwrt.Daemon.Dump.{Received, sent}
use obserwrt.Daemon.DumpTrip.{received, links_of, named_events, dump-received}
use obserwrt.Daemon.Netlink.{dispatch}
use obserwrt.Daemon.NetlinkTrip.{buffer, events_of, dispatch-buffer}
use obserwrt.Daemon.Loop.{
  Settings, LoopEvent, netlink, life, Recv, data_in, drained, lost, interrupted, Agent, loop,
}
use obserwrt.Daemon.LoopLaws.{HoldsFlows, IsSteady, IsRead, IsDumped, AllPossible, loop-IsSteady}
use obserwrt.Tests.World.{World, kernel, kernel-HasFlows, lookup_call, lookup_call-IsBatchLookup}
use obserwrt.Tests.Netlink.{
  messages, messages-AreMessages, buffer_short, replies, last_reply, replies-AreReplies,
  last_reply-IsLastReply,
}
use obserwrt.Tests.Reports.{setup, inputs, sinks}
use obserwrt.Tests.Passes.{timeouts}
use obserwrt.Tests.Devices.{fnmatch, daemon}
use obserwrt.Tests.Files.{build, files}

abbrev pub one_of : List (FlowKey × FlowValue) → List (FlowKey × FlowValue)
one_of [] = []
one_of (e ∷ es) = e ∷ []

pub one_of-Distinct : (es : List (FlowKey × FlowValue)) → Distinct (one_of es)
unfolding find
one_of-Distinct [] = tt
one_of-Distinct (e ∷ es) = (refl, tt)

pub one_of-length : (es : List (FlowKey × FlowValue)) → length (one_of es) < 2
one_of-length [] = omega arith
one_of-length (e ∷ es) = omega arith

-- a map with room for one flow
abbrev pub narrow : Libbpf World
narrow = record kernel { flows_batch = lookup_call (λ w. one_of w.flows) }

abbrev pub narrow-HasHooks : HasHooks narrow
narrow-HasHooks = record {
  hook = λ w d j. w.hooks d j;
  hook-attach_tcx = λ w d d' eth i j. ground arith;
  hook-destroy_link = λ w d d' i j. refl;
  hook-devstats_delete = λ w i d d' j. refl;
  hook-attached_update = λ w i d j. refl;
  hook-attached_delete = λ w i d j. refl;
  hook-flows_batch = λ w token size d j. refl;
  hook-flows_delete = λ w k d j. refl;
}

pub narrow-HasFlows : HasFlows narrow
narrow-HasFlows = record { lookup-delete = kernel-HasFlows.lookup-delete }

abbrev pub narrow-HoldsFlows : HoldsFlows narrow 2 2
narrow-HoldsFlows = record {
  contents = λ w. one_of w.flows;
  batch = lookup_call-IsBatchLookup (λ w. one_of w.flows);
  distinct = λ w. one_of-Distinct w.flows;
  walk_enough = λ w. omega arith;
  enough = λ w. one_of-length w.flows;
}

abbrev settings : Settings
settings = record {
  fnmatch = fnmatch;
  devices = codes "*" ∷ [];
  timeouts = timeouts;
  setup = setup;
  build = build;
  big = false;
  modulus = 2 ^ 32;
  walk_fuel = 2;
  pass_fuel = 2;
  messages = 4;
  attrs = 2;
}

abbrev agent : Agent World
agent = record {
  daemon = daemon;
  map = record { bpf = daemon.bpf; keys = []; values = []; pos = 0 };
  last = [];
  sinks = sinks;
  files = files;
}

abbrev pass : LoopEvent
pass = life 60000000000 inputs

abbrev dumped : List Received
dumped = received false (2 ^ 32) 2 replies last_reply

abbrev arrivals : List Recv
arrivals = interrupted ∷ data_in (buffer false messages) ∷ lost 105 ∷ []

abbrev events : List LoopEvent
events = netlink arrivals sent dumped ∷ pass ∷ netlink (drained ∷ []) sent dumped ∷ []

-- the hypotheses, for a loop over the narrow map

arrivals-IsRead :
    IsRead narrow narrow-HasHooks narrow-HasFlows settings narrow-HoldsFlows (buffer false messages)
arrivals-IsRead = (
  events_of false messages,
  subst
      (λ b.
        dispatch false (2 ^ 32) 2 4 b (length (buffer false messages))
        ≡ some (events_of false messages))
      (append-nil (buffer false messages))
      (dispatch-buffer false (2 ^ 32) 2 4 messages [] (omega arith) messages-AreMessages
        (omega arith) buffer_short),
  (omega arith, tt),
)

dumped-IsDumped :
    IsDumped narrow narrow-HasHooks narrow-HasFlows settings narrow-HoldsFlows sent dumped
dumped-IsDumped = (
  record {
    ok = true;
    error = none;
    events = named_events false (2 ^ 32) 2 (links_of false (2 ^ 32) 2 replies last_reply);
  },
  dump-received false (2 ^ 32) 2 4 replies last_reply (omega arith) replies-AreReplies
      last_reply-IsLastReply,
  (omega arith, (omega arith, tt)),
)

nothing_more :
    (o : Option (Agent World))
    → AllPossible narrow narrow-HasHooks narrow-HasFlows settings narrow-HoldsFlows [] o
nothing_more none = tt
nothing_more (some s) = tt

last_possible :
    (o : Option (Agent World))
    → AllPossible narrow narrow-HasHooks narrow-HasFlows settings narrow-HoldsFlows
        (netlink (drained ∷ []) sent dumped ∷ [])
        o
last_possible none = tt
last_possible (some s) = ((tt, dumped-IsDumped), nothing_more _)

rest_possible :
    (o : Option (Agent World))
    → AllPossible narrow narrow-HasHooks narrow-HasFlows settings narrow-HoldsFlows
        (pass ∷ netlink (drained ∷ []) sent dumped ∷ [])
        o
rest_possible none = tt
rest_possible (some s) = (tt, last_possible _)

events-AllPossible :
    AllPossible narrow narrow-HasHooks narrow-HasFlows settings narrow-HoldsFlows events
      (some agent)
events-AllPossible = (((arrivals-IsRead, tt), dumped-IsDumped), rest_possible _)

agent-IsSteady :
    IsSteady narrow narrow-HasHooks narrow-HasFlows settings narrow-HoldsFlows agent.daemon
unfolding find Bpf.attached refresh_names
agent-IsSteady = record {
  consistent = record {
    mirrored = record { in_mirrored = λ j. refl; eg_mirrored = λ j. refl; paired = λ j. refl };
    named = λ j. refl;
  };
  loaded = refl;
  names = refl;
}

loop-IsSteady_example :
    (s' : Agent World) × (loop narrow settings events agent ≡ some s')
    × IsSteady narrow narrow-HasHooks narrow-HasFlows settings narrow-HoldsFlows s'.daemon
loop-IsSteady_example =
    loop-IsSteady narrow narrow-HasHooks narrow-HasFlows settings narrow-HoldsFlows events agent
      events-AllPossible agent-IsSteady
