-- ===== src/Lifecycle/Scan.antt =====
-- The pass over a list of entries: what `Lifecycle::run` computes when the map hands out these.
use obserwrt.Prelude.{
  ℕ, ◌≡◌, refl, true, false, ◌||◌, none, some, List, [], ◌∷◌, arith, if◌then◌else◌, find, put,
  contains, find-put, find-erase,
}
use obserwrt.Flow.{FlowKey, FlowValue, flow_key_eq, key_eq, key_eq_iff}
use obserwrt.Lifecycle.{Timeouts, FlowMap, Pass, is_idle, mark, visit}

-- No two entries have one key.
abbrev pub Distinct : {V : Type 0} → List (FlowKey × V) → Type 0
Distinct [] = Unit {0}
Distinct ((k, v) ∷ m) = (find k m ≡ none) × Distinct m

module _ {S : Type 0} (fm : FlowMap S) (t : Timeouts) (now : ℕ) (next : S → S) where
  unfoldable pub scan : List (FlowKey × FlowValue) → Pass S → Pass S
  scan [] p = p
  scan ((k, v) ∷ es) p = scan es (visit fm t now k v (record p { map = next p.map }))

  pub visit-last :
      (k j : FlowKey) (v : FlowValue) (p : Pass S)
      → find j (visit fm t now k v p).last ≡ (
          if key_eq k j then (if is_idle t now k v then none else some (mark v)) else find j p.last)
  unfolding visit
  visit-last k j v p =
      ground (arith, find-put k j (mark v) p.last, find-erase k j (put k (mark v) p.last))

  visit-seen :
      (k j : FlowKey) (v : FlowValue) (p : Pass S)
      → contains j (visit fm t now k v p).seen ≡ (key_eq k j || contains j p.seen)
  unfolding visit contains
  visit-seen k j v p = ground arith

  -- what is tracked of a key after the loop
  pub scan-last :
      (es : List (FlowKey × FlowValue)) (j : FlowKey) (p : Pass S)
      → Distinct es
      → find j (scan es p).last ≡ elim (find j es) [
        | none ↦ find j p.last
        | some v ↦ if is_idle t now j v then none else some (mark v)
      ]
  unfolding scan find
  scan-last [] j p d = refl
  scan-last ((k, v) ∷ es) j p d = ground (
    arith,
    key_eq_iff k j,
    visit-last k j v (record p { map = next p.map }),
    scan-last es j (visit fm t now k v (record p { map = next p.map })) d.1,
  )

  -- the keys that the loop has seen
  pub scan-seen :
      (es : List (FlowKey × FlowValue)) (j : FlowKey) (p : Pass S)
      → contains j (scan es p).seen
        ≡ (contains j p.seen || elim (find j es) [ none ↦ false | some _ ↦ true ])
  unfolding scan find
  scan-seen [] j p = ground arith
  scan-seen ((k, v) ∷ es) j p = ground (
    arith,
    visit-seen k j v (record p { map = next p.map }),
    scan-seen es j (visit fm t now k v (record p { map = next p.map })),
  )
