-- ===== src/Daemon/LoopLaws.antt =====
-- What holds however the event loop of src/main.cpp runs.
use obserwrt.Prelude.{
  ℕ, ◌+◌, ◌≤◌, ◌<◌, ◌≡◌, refl, sym, ap, subst, ◌∙◌, ◌≢◌, Bool, true, false, Option, none, some,
  List, [], ◌∷◌, length, Bytes, Bool-cases, inl, inr, nat_eq,
}
use obserwrt.Flow.{FlowKey, FlowValue}
use obserwrt.Lifecycle.{FlowMap, Pass, Timeouts, Tracker, run}
use obserwrt.Lifecycle.Scan.{Distinct}
use obserwrt.Bpf.Attach.{HasHooks}
use obserwrt.Bpf.BatchWalk.{IsBatchLookup}
use obserwrt.Bpf.Purge.{HasFlows}
use obserwrt.Bpf.Snapshot.{BpfFlowMap, bpf_flow_map}
use obserwrt.Bpf.Passes.{IsReady, pass_over, run-pass_over}
use obserwrt.Bpf.{Libbpf, Bpf}
use obserwrt.Bpf
use obserwrt.Metrics.{exposition}
use obserwrt.Metrics.Textfile.{Progress, write-Textfile}
use obserwrt.Timeline.Passing.{pass_over-loaded}
use obserwrt.Daemon.{LinkEvent, Daemon, on_link, refresh_names}
use obserwrt.Daemon.Links.{IsConsistent, on_link-Reacted, names_lem}
use obserwrt.Daemon.Netlink.{dispatch}
use obserwrt.Daemon.Dump.{Received, Request, Dumped, dump}
use obserwrt.Daemon.Pass.{Setup, Inputs, Sinks, report, lifecycle_pass}
use obserwrt.Daemon.LoopKept.{loaded-on_link, pass_over-IsMirrored}
use obserwrt.Daemon.Loop.{
  Settings, Recv, closed, interrupted, drained, data_in, lost, LoopEvent, netlink, life, meter,
  Agent, on_links, dispatched, receive, resync, on_netlink, named_sinks, agent_view, after_life,
  loop_step, loop,
}

-- The flow map in every state: what it holds, one entry for a key, walked in batches, and never more than the
-- fuels allow, as its capacity is fixed.
pub record HoldsFlows {W : Type 0} (lib : Libbpf W) (walk_fuel fuel : ℕ) : Type 0 where
  pub contents : W → List (FlowKey × FlowValue)
  pub batch : (w : W) → IsBatchLookup lib.flows_batch w (contents w)
  pub distinct : (w : W) → Distinct (contents w)
  pub walk_enough : (w : W) → (batch w).left none + (batch w).limit < walk_fuel
  pub enough : (w : W) → length (contents w) < fuel

-- interface numbers of the kernel are positive
abbrev pub AllNumbered : List LinkEvent → Type 0
AllNumbered [] = Unit {0}
AllNumbered (ev ∷ evs) = (ev.ifindex ≢ 0) × AllNumbered evs

lifecycle_pass_lem :
    {S : Type 0} (setup : Setup) (fm : FlowMap S) (t : Timeouts) (now : ℕ)
    (names : List (ℕ × Bytes)) (attached : List Bytes) (i : Inputs) (fuel : ℕ) (m : S)
    (last : Tracker) (k : Sinks) (p : Pass S)
    → run fm t now fuel m last ≡ some p
    → lifecycle_pass setup fm t now names attached i fuel m last k
      ≡ some (p, report setup names attached i p.out p.stats.active p.stats.map k)
unfolding lifecycle_pass
lifecycle_pass_lem setup fm t now names attached i fuel m last k p e = rw (e, lifecycle_pass) refl

attached_kept :
    {W : Type 0} (lib : Libbpf W) (b c : Bpf W) (j : ℕ)
    → b.atts ≡ c.atts
    → Bpf.attached lib b j ≡ Bpf.attached lib c j
unfolding Bpf.attached
attached_kept lib b c j e = rw e refl

module _ {W : Type 0} (lib : Libbpf W) (h : HasHooks lib) (g : HasFlows lib) (c : Settings)
    (held : HoldsFlows lib c.walk_fuel c.pass_fuel) where
  -- The kernel holds the hooks recorded, exactly the attached devices have a name, the object is loaded, and
  -- the list of attached names is the list of the names recorded.
  pub record IsSteady (d : Daemon W) : Type 0 where
    pub consistent : IsConsistent lib h c.fnmatch c.walk_fuel d
    pub loaded : d.bpf.loaded ≡ true
    pub names : d.attached_names ≡ refresh_names d.name_by_index

  -- a buffer is laid out as the kernel does, so that it is read inside of its bounds
  abbrev pub IsRead : Bytes → Type 0
  IsRead buf =
      (evs : List LinkEvent) × (dispatch c.big c.modulus c.attrs c.messages buf (length buf)
        ≡ some evs)
      × AllNumbered evs

  -- recv's answers come to an end
  abbrev pub AllRead : List Recv → Type 0
  AllRead [] = false ≡ true
  AllRead (closed ∷ rs) = Unit {0}
  AllRead (drained ∷ rs) = Unit {0}
  AllRead (interrupted ∷ rs) = AllRead rs
  AllRead (lost e ∷ rs) = Unit {0}
  AllRead (data_in buf ∷ rs) = IsRead buf × AllRead rs

  abbrev pub IsDumped : Request → List Received → Type 0
  IsDumped q rs =
      (r : Dumped) × (dump c.big c.modulus c.attrs c.messages q rs ≡ some r) × AllNumbered r.events

  -- what the system does in an event: it sends well-formed messages, and a write of the textfile makes progress
  abbrev pub Possible : LoopEvent → Agent W → Type 0
  Possible (netlink rs q replies) s = AllRead rs × IsDumped q replies
  Possible (life now i) s = Unit {0}
  Possible (meter calls) s =
      Progress calls.writes × (length (exposition s.sinks.metrics c.build) ≤ length calls.writes)

  abbrev pub AllPossible : List LoopEvent → Option (Agent W) → Type 0
  AllPossible es none = Unit {0}
  AllPossible [] (some s) = Unit {0}
  AllPossible (e ∷ es) (some s) = Possible e s × AllPossible es (loop_step lib c e s)

  on_link-IsSteady :
      (ev : LinkEvent) (d : Daemon W)
      → ev.ifindex ≢ 0
      → IsSteady d
      → (d' : Daemon W) × (on_link lib c.fnmatch c.walk_fuel c.devices ev d ≡ some d') × IsSteady d'
  on_link-IsSteady ev d nz s =
      let w = (Bpf.detach lib d.bpf ev.ifindex).world in
      let (d', e, reacted, names) =
        on_link-Reacted lib h c.fnmatch c.walk_fuel g c.devices ev d (held.contents w)
          (held.batch w) s.loaded (held.walk_enough w) nz s.consistent in
      (
        d',
        e,
        record {
          consistent = reacted.consistent;
          loaded = loaded-on_link lib c.fnmatch c.walk_fuel c.devices ev d d' e ∙ s.loaded;
          names = names ∙ sym (names_lem d'.name_by_index);
        },
      )

  pub on_links-IsSteady :
      (evs : List LinkEvent) (d : Daemon W)
      → AllNumbered evs
      → IsSteady d
      → (d' : Daemon W) × (on_links lib c evs d ≡ some d') × IsSteady d'
  unfolding on_links
  on_links-IsSteady [] d n s = (d, refl, s)
  on_links-IsSteady (ev ∷ evs) d (nz, n) s =
      let (d₁, e₁, s₁) = on_link-IsSteady ev d nz s in
      let (d', e', s') = on_links-IsSteady evs d₁ n s₁ in (d', rw (e₁, on_links) e', s')

  dispatched-IsSteady :
      (buf : Bytes) (d : Daemon W)
      → IsRead buf
      → IsSteady d
      → (d' : Daemon W) × (dispatched lib c buf d ≡ some d') × IsSteady d'
  unfolding dispatched
  dispatched-IsSteady buf d (evs, e, n) s =
      let (d', e', s') = on_links-IsSteady evs d n s in (d', rw (e, dispatched) e', s')

  resync-IsSteady :
      (q : Request) (rs : List Received) (d : Daemon W)
      → IsDumped q rs
      → IsSteady d
      → (d' : Daemon W) × (resync lib c q rs d ≡ some d') × IsSteady d'
  unfolding resync
  resync-IsSteady q rs d (r, e, n) s =
      let (d', e', s') = on_links-IsSteady r.events d n s in (d', rw (e, resync) e', s')

  receive-IsSteady :
      (rs : List Recv) (d : Daemon W)
      → AllRead rs
      → IsSteady d
      → (lossy : Bool) × (d' : Daemon W) × (receive lib c rs d ≡ some (lossy, d')) × IsSteady d'
  unfolding receive
  receive-IsSteady [] d a s = cc
  receive-IsSteady (closed ∷ rs) d a s = (false, d, refl, s)
  receive-IsSteady (drained ∷ rs) d a s = (false, d, refl, s)
  receive-IsSteady (interrupted ∷ rs) d a s = receive-IsSteady rs d a s
  receive-IsSteady (lost e ∷ rs) d a s = (true, d, refl, s)
  receive-IsSteady (data_in buf ∷ rs) d (r, a) s =
      let (d₁, e₁, s₁) = dispatched-IsSteady buf d r s in
      let (lossy, d', e', s') = receive-IsSteady rs d₁ a s₁ in (lossy, d', rw (e₁, receive) e', s')

  on_netlink-IsSteady :
      (rs : List Recv) (q : Request) (replies : List Received) (d : Daemon W)
      → AllRead rs
      → IsDumped q replies
      → IsSteady d
      → (d' : Daemon W) × (on_netlink lib c rs q replies d ≡ some d') × IsSteady d'
  unfolding on_netlink
  on_netlink-IsSteady rs q replies d a r s =
      let (lossy, d₁, e₁, s₁) = receive-IsSteady rs d a s in
      let (d₂, e₂, s₂) = resync-IsSteady q replies d₁ r s₁ in
      elim (Bool-cases lossy) [
        | inl lossy_read ↦ (d₂, rw (e₁, lossy_read, on_netlink) e₂, s₂)
        | inr whole ↦ (d₁, rw (e₁, whole, on_netlink) refl, s₁)
      ]

  abbrev reported : Inputs → Agent W → Pass (BpfFlowMap W) → Sinks
  reported i s p =
      report c.setup s.daemon.name_by_index s.daemon.attached_names i p.out p.stats.active
        p.stats.map (named_sinks lib c s)

  loop_step-life :
      (now : ℕ) (i : Inputs) (s : Agent W) (p : Pass (BpfFlowMap W))
      → run (bpf_flow_map lib c.walk_fuel) c.timeouts now c.pass_fuel (agent_view lib c s) s.last
        ≡ some p
      → loop_step lib c (life now i) s ≡ after_life lib c s (some (p, reported i s p))
  unfolding loop_step
  loop_step-life now i s p e = ap (after_life lib c s) (
      lifecycle_pass_lem c.setup (bpf_flow_map lib c.walk_fuel) c.timeouts now
        s.daemon.name_by_index s.daemon.attached_names i c.pass_fuel (agent_view lib c s) s.last
        (named_sinks lib c s) p e)

  life-IsSteady :
      (now : ℕ) (i : Inputs) (s : Agent W)
      → IsSteady s.daemon
      → (s' : Agent W) × (loop_step lib c (life now i) s ≡ some s') × IsSteady s'.daemon
  life-IsSteady now i s st =
      let w = s.daemon.bpf.world in
      let at = agent_view lib c s in
      let all = held.contents w in
      let ready : IsReady lib c.walk_fuel c.pass_fuel at all = record {
        is_loaded = st.loaded;
        batch = held.batch w;
        walk_enough = held.walk_enough w;
        enough = held.enough w;
        distinct = held.distinct w;
      } in
      let p = pass_over lib c.walk_fuel c.pass_fuel c.timeouts now at s.last all in
      let s' : Agent W = record s {
        daemon = record s.daemon { bpf = p.map.bpf };
        map = p.map;
        last = p.last;
        sinks = reported i s p;
      } in
      let (mirrored, atts) =
        pass_over-IsMirrored lib h c.walk_fuel c.timeouts now c.pass_fuel at s.last all ready
          st.consistent.mirrored in
      (
        s',
        loop_step-life now i s p
            (run-pass_over lib c.walk_fuel c.pass_fuel c.timeouts now at s.last all ready),
        record {
          consistent = record {
            mirrored = mirrored;
            named =
                λ j. st.consistent.named j ∙ attached_kept lib s.daemon.bpf p.map.bpf j (sym atts);
          };
          loaded =
              pass_over-loaded lib g c.walk_fuel c.timeouts now c.pass_fuel at s.last all ready;
          names = st.names;
        },
      )

  loop_step-IsSteady :
      (e : LoopEvent) (s : Agent W)
      → Possible e s
      → IsSteady s.daemon
      → (s' : Agent W) × (loop_step lib c e s ≡ some s') × IsSteady s'.daemon
  unfolding loop_step
  loop_step-IsSteady (netlink rs q replies) s (a, r) st =
      let (d, e, st') = on_netlink-IsSteady rs q replies s.daemon a r st in
      (record s { daemon = d }, rw (e, loop_step) refl, st')
  loop_step-IsSteady (life now i) s p st = life-IsSteady now i s st
  loop_step-IsSteady (meter calls) s (progress, enough) st =
      let (fs, e, _, _) = write-Textfile s.sinks.metrics c.build calls s.files progress enough in
      (record s { files = fs }, rw (e, loop_step) refl, st)

  -- While the kernel's TC hooks change by the agent's own calls only, and what the netlink socket gives is whole, well-formed
  -- messages: however link messages, lost notifications with the dumps that follow them, lifecycle passes and textfile writes
  -- come after one another, the loop handles every event, and all along the kernel holds exactly the TC hooks
  -- recorded, the attached devices are exactly those with a name, and the names shown are those recorded.
  pub loop-IsSteady :
      (es : List LoopEvent) (s : Agent W)
      → AllPossible es (some s)
      → IsSteady s.daemon
      → (s' : Agent W) × (loop lib c es s ≡ some s') × IsSteady s'.daemon
  unfolding loop
  loop-IsSteady [] s a st = (s, refl, st)
  loop-IsSteady (e ∷ es) s (p, a) st =
      let (s₁, e₁, st₁) = loop_step-IsSteady e s p st in
      let (s', e', st') = loop-IsSteady es s₁ (subst (AllPossible es) e₁ a) st₁ in
      (s', rw (e₁, loop) e', st')
