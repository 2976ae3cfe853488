-- ===== src/Timeline/Exactness.antt =====
-- What the agent has exported of a flow and what the flow map still holds of it make up the traffic
-- (src/lifecycle.cpp, src/bpf.cpp, bpf/obserwrt-bpf.c).
use obserwrt.Prelude.{
  ℕ, ◌+◌, ◌^◌, ◌≤◌, ◌<◌, ◌≡◌, refl, subst, sym, ◌∙◌, true, Option, none, some, List, [], ◌∷◌, ◌++◌,
  arith, if◌then◌else◌, find,
}
use obserwrt.Flow.{FlowKey, FlowValue, flow_key_eq}
use obserwrt.Ebpf.Observe.{HashMap, DevKey, DevVal, Kernel, observe}
use obserwrt.Ebpf.Counters.{IsCounted, belongs, observe-IsCounted}
use obserwrt.Lifecycle.{Timeouts, Last}
use obserwrt.Lifecycle.Accounting.{total, contribution, total-append}
use obserwrt.Bpf.Snapshot.{bpf_flow_map}
use obserwrt.Bpf.Passes.{
  IsReady, pass_over, run-pass_over, pass_over-last, pass_over-out, tracked_of,
}
use obserwrt.Bpf.{Libbpf}
use obserwrt.Timeline.Passing.{kept, pass_over-loaded, pass_over-lookup}
use obserwrt.Timeline.{
  Arrival, Event, packet, tick, System, IsShared, view, step, play, Allowed, AllAllowed, arrived,
}
use obserwrt.Timeline.Measure.{Measure, wire_packets, wire_octets, by_packets, by_bytes}

module _ {W D : Type 0} (lib : Libbpf W) (flow_map : HashMap FlowKey FlowValue W)
    (dev_map : HashMap DevKey DevVal D) (walk_fuel fuel : ℕ) (t : Timeouts)
    (shared : IsShared lib flow_map) (k : FlowKey) where
  -- `n` has arrived of the flow: all of it is exported, but for what the map holds beyond what is tracked
  record Balanced (m : Measure flow_map dev_map) (n : ℕ) (s : System W D) : Type 0 where
    loaded : s.map.bpf.loaded ≡ true
    ahead : m.tracked (find k s.last) ≤ m.held (flow_map.lookup s.kernel.flows k)
    exported : m.tracked (find k s.last) ≤ total m.part k s.out
    sum :
        total m.part k s.out + m.held (flow_map.lookup s.kernel.flows k)
        ≡ n + m.tracked (find k s.last)

  -- the map holds nothing of the flow that is not exported
  abbrev IsSettled : (m : Measure flow_map dev_map) → System W D → Type 0
  IsSettled m s = m.held (flow_map.lookup s.kernel.flows k) ≡ m.tracked (find k s.last)

  step-packet :
      (a : Arrival) (s : System W D) (w : Kernel W D)
      → observe flow_map dev_map a.skb a.direction a.eth a.now s.kernel ≡ some w
      → step lib flow_map dev_map walk_fuel fuel t (packet a) s ≡ some (record s { kernel = w })
  unfolding step
  step-packet a s w e = rw e refl

  module _ (m : Measure flow_map dev_map) where
    fresh-Balanced :
        (s : System W D)
        → s.map.bpf.loaded ≡ true
        → s.last ≡ []
        → s.out ≡ []
        → flow_map.lookup s.kernel.flows k ≡ none
        → Balanced m 0 s
    unfolding find
    fresh-Balanced s l tracked out held = record {
      loaded = l;
      ahead = ground (arith, tracked, held, m.held_none, m.tracked_none);
      exported = ground (arith, tracked, out, m.tracked_none);
      sum = ground (arith, tracked, out, held, m.held_none, m.tracked_none);
    }

    packet-Balanced :
        (a : Arrival) (n : ℕ) (s : System W D) (w : Kernel W D)
        → IsCounted flow_map dev_map shared.laws a.skb a.direction a.eth s.kernel w
        → n + (if belongs a.skb a.direction a.eth k then m.wire a else 0) < 2 ^ 63
        → Balanced m n s
        → Balanced m
            (n + (if belongs a.skb a.direction a.eth k then m.wire a else 0))
            (record s { kernel = w })
    packet-Balanced a n s w c h b =
        let counts = m.counts a shared.laws s.kernel w k c in
        record {
          loaded = b.loaded;
          ahead = ground (arith, counts, b.ahead, b.exported, b.sum);
          exported = b.exported;
          sum = ground (arith, counts, b.ahead, b.exported, b.sum);
        }

    -- the numbers of a pass: what it exports, and what it leaves
    pass_numbers :
        (now : ℕ) (v : Option FlowValue) (prev : Option Last) (x : ℕ)
        → x ≡ elim v [
          | none ↦ 0
          | some u ↦ contribution (bpf_flow_map lib walk_fuel) t now m.part k prev u
        ]
        → m.held v < 2 ^ 63
        → m.tracked prev ≤ m.held v
        → (x + m.tracked prev ≡ m.held v)
          × (m.held (kept t now k v) ≡ m.tracked (tracked_of t now k v))
          × (m.tracked (tracked_of t now k v) ≤ m.held v)
    pass_numbers now none prev x e h le = ground (arith, e, le, m.held_none, m.tracked_none)
    pass_numbers now (some v) prev x e h le = ground (
      arith,
      e,
      m.contributes (bpf_flow_map lib walk_fuel) t now k prev v h le,
      m.held_none,
      m.tracked_none,
      m.tracked_mark v,
    )

    tick-Balanced :
        (now n : ℕ) (s : System W D)
        → Allowed lib flow_map dev_map walk_fuel fuel t shared (tick now) s
        → n < 2 ^ 63
        → Balanced m n s
        → (s' : System W D) × (step lib flow_map dev_map walk_fuel fuel t (tick now) s ≡ some s')
          × Balanced m n s'
          × IsSettled m s'
    unfolding step
    tick-Balanced now n s (walks, enough) h b =
        let all = shared.contents s.kernel.flows in
        let at = view lib flow_map dev_map walk_fuel fuel t s in
        let ready : IsReady lib walk_fuel fuel at all = record {
          is_loaded = b.loaded;
          batch = shared.batch s.kernel.flows;
          walk_enough = walks;
          enough = enough;
          distinct = shared.distinct s.kernel.flows;
        } in
        let p = pass_over lib walk_fuel fuel t now at s.last all in
        let found = shared.find-contents s.kernel.flows k in
        let before : find k all ≡ flow_map.lookup s.kernel.flows k =
          found ∙ sym (shared.same s.kernel.flows k) in
        let after : flow_map.lookup p.map.bpf.world k ≡ kept t now k (find k all) =
          shared.same p.map.bpf.world k
          ∙ pass_over-lookup lib shared.deletes walk_fuel t now fuel at s.last all ready k found in
        let last = pass_over-last lib walk_fuel fuel t now at s.last all k ready.distinct in
        let out = pass_over-out lib walk_fuel fuel t now at s.last all k m.part ready.distinct in
        let (grown, settled, below) =
          pass_numbers now (find k all) (find k s.last) (total m.part k p.out) out
            (ground (arith, before, b.ahead, b.exported, b.sum))
            (ground (arith, before, b.ahead)) in
        let sums = total-append m.part k s.out p.out in
        let s' : System W D = record {
          kernel = record s.kernel { flows = p.map.bpf.world };
          map = p.map;
          last = p.last;
          out = s.out ++ p.out;
        } in
        (
          s',
          rw (run-pass_over lib walk_fuel fuel t now at s.last all ready) refl,
          record {
            loaded = pass_over-loaded lib shared.deletes walk_fuel t now fuel at s.last all ready;
            ahead = ground (arith, after, last, settled);
            exported = ground (arith, last, sums, grown, below, before, b.exported);
            sum = ground (arith, after, last, settled, sums, grown, before, b.sum);
          },
          ground (arith, after, last, settled),
        )

    -- any events, in any order, and then a pass
    play-Settled :
        (es : List Event) (now n : ℕ) (s : System W D)
        → AllAllowed lib flow_map dev_map walk_fuel fuel t shared (es ++ tick now ∷ []) (some s)
        → n + arrived m.wire k es < 2 ^ 63
        → Balanced m n s
        → (s' : System W D) × (play lib flow_map dev_map walk_fuel fuel t (es ++ tick now ∷ []) s
            ≡ some s')
          × Balanced m (n + arrived m.wire k es) s'
          × IsSettled m s'
    unfolding play
    play-Settled [] now n s (ok, al) h b =
        let (s₁, stepped, b₁, done) = tick-Balanced now n s ok (omega arith) b in
        (s₁, rw (stepped, play) refl, subst (λ i. Balanced m i s₁) (omega arith) b₁, done)
    play-Settled (packet a ∷ es) now n s ((f, d, room), al) h b =
        let (w, e, c) =
          observe-IsCounted flow_map dev_map shared.laws a.skb f a.direction a.eth a.now s.kernel d
            room in
        let x = if belongs a.skb a.direction a.eth k then m.wire a else 0 in
        let s₁ : System W D = record s { kernel = w } in
        let stepped : step lib flow_map dev_map walk_fuel fuel t (packet a) s ≡ some s₁ =
          step-packet a s w e in
        let (s', e', b', done) =
          play-Settled es now (n + x) s₁
            (subst (AllAllowed lib flow_map dev_map walk_fuel fuel t shared (es ++ tick now ∷ []))
              stepped al)
            (omega arith) (packet-Balanced a n s w c (omega arith) b) in
        (s', rw (stepped, play) e', subst (λ i. Balanced m i s') (omega arith) b', done)
    play-Settled (tick at ∷ es) now n s (ok, al) h b =
        let (s₁, stepped, b₁, _) = tick-Balanced at n s ok (omega arith) b in
        let (s', e', b', done) =
          play-Settled es now n s₁
            (subst (AllAllowed lib flow_map dev_map walk_fuel fuel t shared (es ++ tick now ∷ []))
              stepped al)
            h b₁ in
        (s', rw (stepped, play) e', b', done)

  -- For any sequence of packets and passes that ends in a pass, from an empty map on, while the map has
  -- room, the passes have fuel and the flow's counters stay below 2^63: every packet is read inside of its bounds,
  -- every pass returns, and the packets and bytes exported for a flow, over all its active and expired
  -- exports together, are exactly those that arrived of it: one packet for each GSO segment, and the octets
  -- from the IP header on, with the headers in each segment and any link padding included. What a packet
  -- belongs to is as the parser of the programs reads it.
  pub play-exact :
      (es : List Event) (now : ℕ) (s : System W D)
      → s.map.bpf.loaded ≡ true
      → s.last ≡ []
      → s.out ≡ []
      → flow_map.lookup s.kernel.flows k ≡ none
      → AllAllowed lib flow_map dev_map walk_fuel fuel t shared (es ++ tick now ∷ []) (some s)
      → arrived wire_packets k es < 2 ^ 63
      → arrived wire_octets k es < 2 ^ 63
      → (s' : System W D) × (play lib flow_map dev_map walk_fuel fuel t (es ++ tick now ∷ []) s
          ≡ some s')
        × (total (λ d. d.packets) k s'.out ≡ arrived wire_packets k es)
        × (total (λ d. d.bytes) k s'.out ≡ arrived wire_octets k es)
  play-exact es now s l tracked out held al hp hb =
      let (s', e, b, done) =
        play-Settled (by_packets flow_map dev_map) es now 0 s al (omega arith)
          (fresh-Balanced (by_packets flow_map dev_map) s l tracked out held) in
      let (s₁, e₁, b₁, done₁) =
        play-Settled (by_bytes flow_map dev_map) es now 0 s al (omega arith)
          (fresh-Balanced (by_bytes flow_map dev_map) s l tracked out held) in
      let one : some s₁ ≡ some s' = sym e₁ ∙ e in
      (s', e, omega (arith, b.sum, done), ground (arith, one, b₁.sum, done₁))
