-- ===== src/Daemon/Links.antt =====
-- Which devices are observed after a link event (on_link of src/main.cpp).
use obserwrt.Prelude.{
  ℕ, ◌+◌, ◌<◌, ◌≡◌, refl, ap, subst, ◌∙◌, ◌≢◌, inl, inr, Bool, true, false, ◌&&◌, ◌||◌, Option,
  none, some, List, [], ◌∷◌, arith, ◌==◌, if◌then◌else◌, Bytes, bytes_eq_iff, find, erase, nat_eq,
  find-erase, Bool-cases, Option-cases, ==_iff,
}
use mathlib.Core.List.{map}
use obserwrt.Bpf.Attach.{
  HasHooks, IsMirrored, attached-attach, attached-detach, attach-IsMirrored, detach-IsMirrored,
  is_ok,
}
use obserwrt.Bpf.Purge.{purge_ifindex-IsMirrored, HasFlows, purge_ifindex-lookup}
use obserwrt.Bpf.BatchWalk.{IsBatchLookup}
use obserwrt.Flow.{FlowKey, FlowValue}
use obserwrt.Bpf.{Libbpf, Bpf, Attached, ok, err}
use obserwrt.Bpf
use obserwrt.Daemon.{
  LinkEvent, Daemon, put_name, rename, name_of, match_device, is_wanted, react, on_link,
  link_is_ethernet, refresh_names,
}

find-put_name :
    (i j : ℕ) (n : Bytes) (m : List (ℕ × Bytes))
    → find j (put_name i n m) ≡ (if i == j then some n else find j m)
unfolding find put_name
find-put_name i j n [] = refl
find-put_name i j n ((k, w) ∷ m) = ground (arith, find-put_name i j n m)

find-rename :
    (i j : ℕ) (n : Bytes) (m : List (ℕ × Bytes))
    → find j (rename i n m) ≡ (if i == j then some n else find j m)
unfolding rename
find-rename i j n m = ground (
  arith,
  bytes_eq_iff (name_of (find i m)) n,
  find-put_name i j (name_of (find i m)) m,
  find-put_name i j n (put_name i (name_of (find i m)) m),
)

abbrev pub is_some : {A : Type 0} → Option A → Bool
is_some none = false
is_some (some a) = true

pub names_lem : (m : List (ℕ × Bytes)) → refresh_names m ≡ map (λ e. e.1) m
unfolding refresh_names
names_lem [] = refl
names_lem ((i, n) ∷ m) = ap (λ ns. n ∷ ns) (names_lem m)

module _ {W : Type 0} (lib : Libbpf W) (h : HasHooks lib) (fnmatch : Bytes → Bytes → Bool)
    (walk_fuel : ℕ) where
  -- The kernel holds the hooks recorded, and exactly the attached devices have a name.
  pub record IsConsistent (s : Daemon W) : Type 0 where
    pub mirrored : IsMirrored lib h s.bpf
    pub named : (j : ℕ) → is_some (find j s.name_by_index) ≡ Bpf.attached lib s.bpf j

  attached_same :
      (b c : Bpf W) (j : ℕ) → c.atts ≡ b.atts → Bpf.attached lib c j ≡ Bpf.attached lib b j
  unfolding Bpf.attached
  attached_same b c j e = ground (arith, e)

  -- the reference: a device is observed while it is there and up, if one of the patterns matches its name
  abbrev pub has_match : List Bytes → Bytes → Bool
  has_match [] name = false
  has_match (p ∷ ps) name = fnmatch p name || has_match ps name

  abbrev pub is_observable : List Bytes → LinkEvent → Bool
  is_observable devices ev =
      if ev.up then (if ev.present then has_match devices ev.ifname else false) else false

  match_lem :
      (devices : List Bytes) (name : Bytes)
      → match_device fnmatch name devices ≡ has_match devices name
  unfolding match_device
  match_lem [] name = refl
  match_lem (p ∷ ps) name = ground (arith, match_lem ps name)

  wanted_lem :
      (devices : List Bytes) (ev : LinkEvent)
      → is_wanted lib fnmatch walk_fuel devices ev ≡ is_observable devices ev
  unfolding is_wanted
  wanted_lem devices ev = ground (arith, match_lem devices ev.ifname)

  -- what an event leaves: whether its device is attached, and under which name
  pub record Reacted (devices : List Bytes) (ev : LinkEvent) (s s' : Daemon W) : Type 0 where
    pub consistent : IsConsistent s'
    pub target : Bpf.attached lib s'.bpf ev.ifindex ≡ (
        is_observable devices ev
        && (Bpf.attached lib s.bpf ev.ifindex
            || is_ok (Bpf.attach lib s.bpf ev.ifindex (link_is_ethernet ev.type)).0))
    pub target_name :
        Bpf.attached lib s'.bpf ev.ifindex ≡ true
        → find ev.ifindex s'.name_by_index ≡ some ev.ifname
    pub others : (j : ℕ) → j ≢ ev.ifindex → Bpf.attached lib s'.bpf j ≡ Bpf.attached lib s.bpf j

  react-detach :
      (devices : List Bytes) (ev : LinkEvent) (s : Daemon W) (b : Bpf W)
      → is_wanted lib fnmatch walk_fuel devices ev ≡ false
      → Bpf.purge_ifindex lib walk_fuel (Bpf.detach lib s.bpf ev.ifindex) ev.ifindex ≡ some b
      → IsConsistent s
      → Reacted devices ev s
          (record s { bpf = b; name_by_index = erase ev.ifindex s.name_by_index })
  react-detach devices ev s b w p c =
      let d = Bpf.detach lib s.bpf ev.ifindex in
      let (v, a) =
        purge_ifindex-IsMirrored lib h walk_fuel d b ev.ifindex p
          (detach-IsMirrored lib h s.bpf ev.ifindex c.mirrored) in
      let now = λ (j : ℕ). attached_same d b j a ∙ attached-detach lib h s.bpf ev.ifindex j in
      record {
        consistent = record {
          mirrored = v;
          named = λ j. ground (arith, now j, c.named j, find-erase ev.ifindex j s.name_by_index);
        };
        target = ground (arith, wanted_lem devices ev, now ev.ifindex, w);
        target_name = λ e. ground (arith, now ev.ifindex, e);
        others = λ j ne. ground (arith, now j, ne);
      }

  react-rename :
      (devices : List Bytes) (ev : LinkEvent) (s : Daemon W)
      → is_wanted lib fnmatch walk_fuel devices ev ≡ true
      → Bpf.attached lib s.bpf ev.ifindex ≡ true
      → IsConsistent s
      → Reacted devices ev s
          (record s { name_by_index = rename ev.ifindex ev.ifname s.name_by_index })
  react-rename devices ev s w a c = record {
    consistent = record {
      mirrored = c.mirrored;
      named = λ j. ground (
        arith,
        a,
        c.named j,
        find-rename ev.ifindex j ev.ifname s.name_by_index,
        ==_iff ev.ifindex j,
      );
    };
    target = ground (arith, wanted_lem devices ev, w, a);
    target_name = λ e. ground (arith, find-rename ev.ifindex ev.ifindex ev.ifname s.name_by_index);
    others = λ j ne. refl;
  }

  -- the names that the attach branch leaves
  abbrev named_after : LinkEvent → Daemon W → Attached → List (ℕ × Bytes)
  named_after ev s r =
      if is_ok r then put_name ev.ifindex ev.ifname s.name_by_index else s.name_by_index

  react-attach :
      (devices : List Bytes) (ev : LinkEvent) (s : Daemon W)
      → is_wanted lib fnmatch walk_fuel devices ev ≡ true
      → Bpf.attached lib s.bpf ev.ifindex ≡ false
      → ev.ifindex ≢ 0
      → IsConsistent s
      → Reacted devices ev s (record s {
        bpf = (Bpf.attach lib s.bpf ev.ifindex (link_is_ethernet ev.type)).1;
        name_by_index =
            named_after ev s (Bpf.attach lib s.bpf ev.ifindex (link_is_ethernet ev.type)).0;
      })
  react-attach devices ev s w a nz c =
      let now = λ (j : ℕ).
        attached-attach lib h s.bpf ev.ifindex (link_is_ethernet ev.type) j nz c.mirrored in
      record {
        consistent = record {
          mirrored = attach-IsMirrored lib h s.bpf ev.ifindex (link_is_ethernet ev.type) c.mirrored;
          named = λ j. ground (
            arith,
            now j,
            c.named j,
            a,
            find-put_name ev.ifindex j ev.ifname s.name_by_index,
            ==_iff ev.ifindex j,
          );
        };
        target = ground (arith, wanted_lem devices ev, now ev.ifindex, w, a);
        target_name = λ e. ground (
          arith,
          now ev.ifindex,
          e,
          find-put_name ev.ifindex ev.ifindex ev.ifname s.name_by_index,
        );
        others = λ j ne. ground (arith, now j, ne);
      }

  react-Reacted :
      (devices : List Bytes) (ev : LinkEvent) (s s' : Daemon W)
      → ev.ifindex ≢ 0
      → IsConsistent s
      → react lib fnmatch walk_fuel devices ev s ≡ some s'
      → Reacted devices ev s s'
  unfolding react
  react-Reacted devices ev s s' nz c e =
      let i = ev.ifindex in
      let tried = Bpf.attach lib s.bpf i (link_is_ethernet ev.type) in
      elim (Bool-cases (is_wanted lib fnmatch walk_fuel devices ev)) [
        | inl w ↦ elim (Bool-cases (Bpf.attached lib s.bpf i)) [
          | inl a ↦
              let state : record s { name_by_index = rename i ev.ifname s.name_by_index } ≡ s' =
                ground (arith, e, w, a) in
              subst (Reacted devices ev s) state (react-rename devices ev s w a c)
          | inr a ↦
              let state : record s { bpf = tried.1; name_by_index = named_after ev s tried.0 }
                  ≡ s' =
                ground (arith, e, w, a) in
              subst (Reacted devices ev s) state (react-attach devices ev s w a nz c)
        ]
        | inr w ↦ elim (Bool-cases (Bpf.attached lib s.bpf i)) [
          | inl a ↦
              elim (Option-cases (Bpf.purge_ifindex lib walk_fuel (Bpf.detach lib s.bpf i) i)) [
                | inl p ↦ ground (arith, e, w, a, p)
                | inr (b, p) ↦
                    let state : record s { bpf = b; name_by_index = erase i s.name_by_index } ≡ s' =
                      ground (arith, e, w, a, p) in
                    subst (Reacted devices ev s) state (react-detach devices ev s b w p c)
              ]
          | inr a ↦
              let state : s ≡ s' = ground (arith, e, w, a) in
              subst (Reacted devices ev s) state (record {
                consistent = c;
                target = ground (arith, wanted_lem devices ev, w, a);
                target_name = λ t. ground (arith, a, t);
                others = λ j ne. refl;
              })
        ]
      ]

  Reacted-on_link :
      (devices : List Bytes) (ev : LinkEvent) (s s' : Daemon W)
      → ev.ifindex ≢ 0
      → IsConsistent s
      → on_link lib fnmatch walk_fuel devices ev s ≡ some s'
      → Reacted devices ev s s' × (s'.attached_names ≡ refresh_names s'.name_by_index)
  unfolding on_link
  Reacted-on_link devices ev s s' nz c e =
      elim (Option-cases (react lib fnmatch walk_fuel devices ev s)) [
        | inl p ↦ ground (arith, e, p)
        | inr (r, p) ↦
            let state : record r { attached_names = refresh_names r.name_by_index } ≡ s' =
              ground (arith, e, p) in
            let before = react-Reacted devices ev s r nz c p in
            subst (λ t. Reacted devices ev s t × (t.attached_names ≡ refresh_names t.name_by_index))
              state
              (
                record {
                  consistent = record {
                    mirrored = before.consistent.mirrored;
                    named = before.consistent.named;
                  };
                  target = before.target;
                  target_name = before.target_name;
                  others = before.others;
                },
                refl,
              )
      ]

  loaded-detach : (b : Bpf W) (i : ℕ) → (Bpf.detach lib b i).loaded ≡ b.loaded
  unfolding Bpf.detach
  loaded-detach b i = ground arith

  react_returns :
      (g : HasFlows lib) (devices : List Bytes) (ev : LinkEvent) (s : Daemon W)
      (all : List (FlowKey × FlowValue))
      (r : IsBatchLookup lib.flows_batch (Bpf.detach lib s.bpf ev.ifindex).world all)
      → s.bpf.loaded ≡ true
      → r.left none + r.limit < walk_fuel
      → (s' : Daemon W) × (react lib fnmatch walk_fuel devices ev s ≡ some s')
  unfolding react
  react_returns g devices ev s all r l enough =
      let i = ev.ifindex in
      let d = Bpf.detach lib s.bpf i in
      let (b, p, kept) =
        purge_ifindex-lookup lib g walk_fuel d i all r (loaded-detach s.bpf i ∙ l) enough in
      elim (Option-cases (react lib fnmatch walk_fuel devices ev s)) [
        | inl e ↦ ground (arith, e, p)
        | inr (s', e) ↦ (s', e)
      ]

  -- The reaction to a link event with a nonzero interface number returns, given fuel to walk the flow map.
  -- Afterwards the kernel holds the hooks recorded, exactly the attached devices have a name, and
  -- the event's device is attached exactly if it is present, up and matched by a pattern, and was attached or could be; an attached
  -- device has the event's name, and other devices stay attached or not. The list of attached names holds
  -- the names recorded, in order.
  pub on_link-Reacted :
      (g : HasFlows lib) (devices : List Bytes) (ev : LinkEvent) (s : Daemon W)
      (all : List (FlowKey × FlowValue))
      (r : IsBatchLookup lib.flows_batch (Bpf.detach lib s.bpf ev.ifindex).world all)
      → s.bpf.loaded ≡ true
      → r.left none + r.limit < walk_fuel
      → ev.ifindex ≢ 0
      → IsConsistent s
      → (s' : Daemon W) × (on_link lib fnmatch walk_fuel devices ev s ≡ some s')
        × Reacted devices ev s s'
        × (s'.attached_names ≡ map (λ e. e.1) s'.name_by_index)
  unfolding on_link
  on_link-Reacted g devices ev s all r l enough nz c =
      let (t, e) = react_returns g devices ev s all r l enough in
      let s' : Daemon W = record t { attached_names = refresh_names t.name_by_index } in
      let done : on_link lib fnmatch walk_fuel devices ev s ≡ some s' = ground (arith, e) in
      let (reacted, names) = Reacted-on_link devices ev s s' nz c done in
      (s', done, reacted, names ∙ names_lem s'.name_by_index)
