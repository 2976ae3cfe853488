-- ===== src/Lifecycle/Accounting.antt =====
-- What one pass exports of one flow (src/lifecycle.cpp).
use obserwrt.Prelude.{
  ℕ, ◌+◌, ◌^◌, ◌≤◌, ◌<◌, ◌≡◌, Bool, true, false, ◌||◌, Option, none, some, List, [], ◌∷◌, ◌++◌,
  arith, if◌then◌else◌, find,
}
use obserwrt.Flow.{FlowKey, FlowValue, Delta, flow_key_eq, key_eq, key_eq_iff}
use obserwrt.Lifecycle.{
  Timeouts, FlowMap, Pass, Last, Export, is_idle, changed, delta_since, visit, last_packets,
  last_bytes,
}
use obserwrt.Lifecycle.Growth.{growth_lem}
use obserwrt.Lifecycle.Scan.{Distinct, scan, visit-last}

-- The sum of a component of the deltas exported for one key.
abbrev pub total : (Delta → ℕ) → FlowKey → List Export → ℕ
total f k [] = 0
total f k (e ∷ es) = (if key_eq e.key k then f e.delta else 0) + total f k es

-- How often a key was exported as expired, or as active.
abbrev pub exports_of : Bool → FlowKey → List Export → ℕ
exports_of b k [] = 0
exports_of b k (e ∷ es) =
    (if key_eq e.key k
      then (if b then (if e.expired then 1 else 0) else (if e.expired then 0 else 1))
      else 0)
    + exports_of b k es

pub total-append :
    (f : Delta → ℕ) (k : FlowKey) (xs ys : List Export)
    → total f k (xs ++ ys) ≡ total f k xs + total f k ys
total-append f k [] ys = omega arith
total-append f k (e ∷ xs) ys = omega (arith, total-append f k xs ys)

pub exports_of-append :
    (b : Bool) (k : FlowKey) (xs ys : List Export)
    → exports_of b k (xs ++ ys) ≡ exports_of b k xs + exports_of b k ys
exports_of-append b k [] ys = omega arith
exports_of-append b k (e ∷ xs) ys = omega (arith, exports_of-append b k xs ys)

module _ {S : Type 0} (fm : FlowMap S) (t : Timeouts) (now : ℕ) where
  -- a component of what the loop exports of a flow with value `v`, tracked as `prev`
  unfoldable pub contribution : (Delta → ℕ) → FlowKey → Option Last → FlowValue → ℕ
  contribution f k prev v =
      if is_idle t now k v || changed prev v then f (delta_since prev v) else 0

  visit-total :
      (f : Delta → ℕ) (k j : FlowKey) (v : FlowValue) (p : Pass S)
      → total f j (visit fm t now k v p).out
        ≡ total f j p.out + (if key_eq k j then contribution f k (find k p.last) v else 0)
  unfolding visit contribution
  visit-total f k j v p = ground (
    arith,
    total-append f j p.out
        (record { key = k; value = v; expired = true; delta = delta_since (find k p.last) v } ∷ []),
    total-append f j p.out (
        record { key = k; value = v; expired = false; delta = delta_since (find k p.last) v } ∷ []),
  )

  visit-exports_of :
      (b : Bool) (k j : FlowKey) (v : FlowValue) (p : Pass S)
      → exports_of b j (visit fm t now k v p).out
        ≡ exports_of b j p.out
          + (if key_eq k j
              then (if is_idle t now k v
                  then (if b then 1 else 0)
                  else (if changed (find k p.last) v then (if b then 0 else 1) else 0))
              else 0)
  unfolding visit
  visit-exports_of b k j v p = ground (
    arith,
    exports_of-append b j p.out
        (record { key = k; value = v; expired = true; delta = delta_since (find k p.last) v } ∷ []),
    exports_of-append b j p.out (
        record { key = k; value = v; expired = false; delta = delta_since (find k p.last) v } ∷ []),
  )

  module _ (next : S → S) where
    pub scan-total :
        (f : Delta → ℕ) (es : List (FlowKey × FlowValue)) (j : FlowKey) (p : Pass S)
        → Distinct es
        → total f j (scan fm t now next es p).out
          ≡ total f j p.out
            + elim (find j es) [ none ↦ 0 | some v ↦ contribution f j (find j p.last) v ]
    unfolding scan find
    scan-total f [] j p d = omega arith
    scan-total f ((k, v) ∷ es) j p d =
        let q : Pass S = record p { map = next p.map } in
        ground (
          arith,
          key_eq_iff k j,
          visit-last fm t now next k j v q,
          visit-total f k j v q,
          scan-total f es j (visit fm t now k v q) d.1,
        )

    pub scan-exports_of :
        (b : Bool) (es : List (FlowKey × FlowValue)) (j : FlowKey) (p : Pass S)
        → Distinct es
        → exports_of b j (scan fm t now next es p).out
          ≡ exports_of b j p.out + elim (find j es) [
            | none ↦ 0
            | some v ↦
                if is_idle t now j v
                then (if b then 1 else 0)
                else (if changed (find j p.last) v then (if b then 0 else 1) else 0)
          ]
    unfolding scan find
    scan-exports_of b [] j p d = omega arith
    scan-exports_of b ((k, v) ∷ es) j p d =
        let q : Pass S = record p { map = next p.map } in
        ground (
          arith,
          key_eq_iff k j,
          visit-last fm t now next k j v q,
          visit-exports_of b k j v q,
          scan-exports_of b es j (visit fm t now k v q) d.1,
        )

-- A flow that is not emitted has not grown: what a pass exports is the growth itself.
pub contribution-packets :
    {S : Type 0} (fm : FlowMap S) (t : Timeouts) (now : ℕ) (k : FlowKey) (prev : Option Last)
    (v : FlowValue)
    → v.packets < 2 ^ 63
    → last_packets prev ≤ v.packets
    → contribution fm t now (λ d. d.packets) k prev v + last_packets prev ≡ v.packets
unfolding contribution changed
contribution-packets fm t now k none v hv h = ground (arith, growth_lem v.packets 0 hv)
contribution-packets fm t now k (some l) v hv h = ground (arith, growth_lem v.packets l.packets hv)

pub contribution-bytes :
    {S : Type 0} (fm : FlowMap S) (t : Timeouts) (now : ℕ) (k : FlowKey) (prev : Option Last)
    (v : FlowValue)
    → v.bytes < 2 ^ 63
    → last_bytes prev ≤ v.bytes
    → contribution fm t now (λ d. d.bytes) k prev v + last_bytes prev ≡ v.bytes
unfolding contribution changed
contribution-bytes fm t now k none v hv h = ground (arith, growth_lem v.bytes 0 hv)
contribution-bytes fm t now k (some l) v hv h = ground (arith, growth_lem v.bytes l.bytes hv)
