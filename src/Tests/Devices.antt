-- ===== src/Tests/Devices.antt =====
-- Attaching, detaching, purging and link events against a concrete kernel.
use obserwrt.Prelude.{
  ◌≡◌, refl, Bool, true, false, ◌&&◌, none, some, List, [], ◌∷◌, arith, ◌==◌, if◌then◌else◌, Bytes,
  codes, find,
}
use mathlib.Core.List.{map}
use obserwrt.Flow.{FlowKey, FlowValue, ingress, egress}
use obserwrt.Bpf.Load.{destroy_links}
use obserwrt.Bpf.Destructor.{destroy_links-hook}
use obserwrt.Bpf.Attach.{IsMirrored, is_ok, attach-hook, attach-IsMirrored}
use obserwrt.Bpf.Purge.{has_entry, purge_ifindex-lookup}
use obserwrt.Bpf.{Bpf}
use obserwrt.Bpf
use obserwrt.Daemon.{LinkEvent, Daemon, on_link}
use obserwrt.Daemon.Links.{IsConsistent, Reacted, on_link-Reacted}
use obserwrt.Tests.World.{
  World, kernel, kernel-HasHooks, kernel-HasFlows, flow_on, counted, holding, holding-IsMirrored,
  lookup_call-IsBatchLookup,
}

abbrev flows : List (FlowKey × FlowValue)
flows = (flow_on 3 80, counted 5) ∷ (flow_on 4 81, counted 7) ∷ (flow_on 3 82, counted 9) ∷ []

attach-hook_example :
    (kernel-HasHooks.hook (Bpf.attach kernel (holding flows) 3 true).1.world ingress 3
      ≡ is_ok (Bpf.attach kernel (holding flows) 3 true).0)
    × (kernel-HasHooks.hook (Bpf.attach kernel (holding flows) 3 true).1.world egress 3
        ≡ is_ok (Bpf.attach kernel (holding flows) 3 true).0)
    × (Bpf.attached kernel (Bpf.attach kernel (holding flows) 3 true).1 3
        ≡ is_ok (Bpf.attach kernel (holding flows) 3 true).0)
attach-hook_example =
    attach-hook kernel kernel-HasHooks (holding flows) 3 true 3 (omega arith)
      (holding-IsMirrored flows)

linked : IsMirrored kernel kernel-HasHooks (Bpf.attach kernel (holding flows) 3 true).1
linked = attach-IsMirrored kernel kernel-HasHooks (holding flows) 3 true (holding-IsMirrored flows)

destroy_links-hook_example :
    kernel-HasHooks.hook
      (destroy_links kernel
        (Bpf.attach kernel (holding flows) 3 true).1.atts
        (Bpf.attach kernel (holding flows) 3 true).1.world)
      egress
      3
    ≡ false
destroy_links-hook_example =
    destroy_links-hook kernel kernel-HasHooks (Bpf.attach kernel (holding flows) 3 true).1 egress 3
      linked (omega arith)

purge_ifindex-lookup_example :
    (b' : Bpf World) × (Bpf.purge_ifindex kernel 2 (holding flows) 3 ≡ some b')
    × ((j : FlowKey)
        → Bpf.lookup kernel b' j ≡ (
            if j.ifindex == 3 && has_entry kernel j flows
            then none
            else Bpf.lookup kernel (holding flows) j))
purge_ifindex-lookup_example =
    purge_ifindex-lookup kernel kernel-HasFlows 2 (holding flows) 3 flows
      (lookup_call-IsBatchLookup (λ (w : World). w.flows) (holding flows).world) refl (omega arith)

abbrev pub fnmatch : Bytes → Bytes → Bool
fnmatch pattern name = true

abbrev event : LinkEvent
event = record { ifindex = 3; ifname = codes "eth0"; type = 1; present = true; up = true }

abbrev pub daemon : Daemon World
daemon = record { bpf = holding flows; name_by_index = []; attached_names = [] }

daemon-IsConsistent : IsConsistent kernel kernel-HasHooks fnmatch 2 daemon
unfolding find Bpf.attached
daemon-IsConsistent = record { mirrored = holding-IsMirrored flows; named = λ j. refl }

on_link-Reacted_example :
    (s' : Daemon World) × (on_link kernel fnmatch 2 (codes "*" ∷ []) event daemon ≡ some s')
    × Reacted kernel kernel-HasHooks fnmatch 2 (codes "*" ∷ []) event daemon s'
    × (s'.attached_names ≡ map (λ e. e.1) s'.name_by_index)
unfolding Bpf.detach find
on_link-Reacted_example =
    on_link-Reacted kernel kernel-HasHooks fnmatch 2 kernel-HasFlows (codes "*" ∷ []) event daemon
      flows (lookup_call-IsBatchLookup (λ (w : World). w.flows) (holding flows).world) refl
      (omega arith) (omega arith) daemon-IsConsistent
