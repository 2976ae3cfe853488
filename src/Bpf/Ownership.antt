-- ===== src/Bpf/Ownership.antt =====
-- What loading opens is closed (src/bpf.cpp).
use obserwrt.Prelude.{
  ℕ, ◌≡◌, refl, ap, ◌∙◌, ◌⊎◌, inl, inr, Bool, true, false, ◌&&◌, not, Option, none, some, List, [],
  ◌∷◌, arith, ◌==◌, if◌then◌else◌, if_cases, Bytes, codes,
}
use obserwrt.Flow.{ingress, egress}
use obserwrt.Bpf.Load.{
  Loader, Objects, no_objects, Loading, OpenError, not_opened, missing, not_loaded, DropsError,
  drops_not_opened, drops_missing, stats_not_shared, drops_not_loaded, not_attached, finish_open,
  open_with, finish_drops, load_tracer, drops_with, with_tracer, load_with, LoadResult, loaded,
  refused, is_set, has_parts, entries_for, resized, typed, with_parts, prepared, open_load,
  destroy_set, close_set, close_drops, with_drop_parts, start_tracer, share_stats, load_drops, load,
  close_all,
}

-- what a process holds: its open objects, and its links
abbrev pub Held : Type 0
Held = List ℕ × List ℕ

abbrev pub with_set : Option ℕ → List ℕ → List ℕ
with_set none xs = xs
with_set (some x) xs = x ∷ xs

-- the list without one occurrence
abbrev pub without : ℕ → List ℕ → List ℕ
without h [] = []
without h (x ∷ xs) = let rest = without h xs in if x == h then xs else x ∷ rest

-- What libbpf documents: open and attach hand out an object and a link, or fail and hand out none; close
-- and destroy take one back; no other call opens or closes any.
pub record HasHandles {W : Type 0} (lib : Loader W) : Type 0 where
  pub held : W → Held
  pub held-open_file :
      (w : W) (path : Bytes)
      → held (lib.open_file w path).1 ≡ (with_set (lib.open_file w path).0 (held w).0, (held w).1)
  pub held-close : (w : W) (h : ℕ) → held (lib.close w h) ≡ (without h (held w).0, (held w).1)
  pub held-attach :
      (w : W) (p : ℕ)
      → held (lib.attach w p).1 ≡ ((held w).0, with_set (lib.attach w p).0 (held w).1)
  pub held-destroy_link :
      (w : W) (h : ℕ) → held (lib.destroy_link w h) ≡ ((held w).0, without h (held w).1)
  pub held-set_max_entries : (w : W) (m n : ℕ) → held (lib.set_max_entries w m n) ≡ held w
  pub held-set_type : (w : W) (p : ℕ) → held (lib.set_type w p) ≡ held w
  pub held-set_expected_attach_type :
      (w : W) (p d : ℕ) → held (lib.set_expected_attach_type w p d) ≡ held w
  pub held-load : (w : W) (h : ℕ) → held (lib.load w h).1 ≡ held w
  pub held-reuse_fd : (w : W) (m n : ℕ) → held (lib.reuse_fd w m n).1 ≡ held w

without-head : (h : ℕ) (xs : List ℕ) → without h (h ∷ xs) ≡ xs
without-head h xs = ground arith

abbrev pub is_none : Option DropsError → Bool
is_none none = true
is_none (some e) = false

module _ {W : Type 0} (lib : Loader W) (laws : HasHandles lib) (before : Held) where
  -- The process holds what it held before, and what the pointers stand for.
  pub Owns : Objects → W → Type 0
  Owns o w =
      laws.held w ≡ (with_set o.drops_obj (with_set o.obj before.0), with_set o.drop_link before.1)

  close_set-held :
      (h : Option ℕ) (w : W) (objects links : List ℕ)
      → laws.held w ≡ (with_set h objects, links)
      → laws.held (close_set lib h w) ≡ (objects, links)
  close_set-held none w objects links e = e
  close_set-held (some h) w objects links e =
      ground (arith, e, laws.held-close w h, without-head h objects)

  destroy_set-held :
      (h : Option ℕ) (w : W) (objects links : List ℕ)
      → laws.held w ≡ (objects, with_set h links)
      → laws.held (destroy_set lib h w) ≡ (objects, links)
  destroy_set-held none w objects links e = e
  destroy_set-held (some h) w objects links e =
      ground (arith, e, laws.held-destroy_link w h, without-head h links)

  resized-held : (m : Option ℕ) (n : ℕ) (w : W) → laws.held (resized lib m n w) ≡ laws.held w
  unfolding resized
  resized-held none n w = refl
  resized-held (some m) n w = laws.held-set_max_entries w m (entries_for lib w m n)

  typed-held : (i e : Option ℕ) (w : W) → laws.held (typed lib i e w) ≡ laws.held w
  unfolding typed
  typed-held none e w = refl
  typed-held (some i) none w = refl
  typed-held (some i) (some e) w =
      laws.held-set_expected_attach_type _ e egress
      ∙ laws.held-set_expected_attach_type _ i ingress
      ∙ laws.held-set_type _ e
      ∙ laws.held-set_type w i

  prepared-held :
      (o : Objects) (max_flows : ℕ) (w : W) → laws.held (prepared lib o max_flows w) ≡ laws.held w
  unfolding prepared
  prepared-held o max_flows w =
      typed-held o.ingress_eth o.egress_eth _
      ∙ typed-held o.ingress_l3 o.egress_l3 _
      ∙ resized-held o.flows max_flows w

  -- without a tracer
  IsUntraced : Objects → Type 0
  IsUntraced o = (o.drops_obj ≡ none) × (o.drop_link ≡ none) × (o.drops_active ≡ false)

  record Opened (r : Option OpenError × Loading W) : Type 0 where
    owns : Owns r.1.objects r.1.world
    untraced : IsUntraced r.1.objects
    outcome :
        ((r.0 ≡ none) × (is_set r.1.objects.obj ≡ true))
        ⊎ (((e : OpenError) × (r.0 ≡ some e)) × (r.1.objects.obj ≡ none))

  finish_open-Opened :
      (fine : Bool) (o : Objects) (obj : ℕ) (w : W)
      → laws.held w ≡ (obj ∷ before.0, before.1)
      → IsUntraced o
      → o.obj ≡ some obj
      → Opened (finish_open lib fine o obj w)
  unfolding finish_open Owns IsUntraced
  finish_open-Opened true o obj w e u s = record {
    owns = ground (arith, e, u, s);
    untraced = u;
    outcome = inl (refl, ap is_set s);
  }
  finish_open-Opened false o obj w e u s = record {
    owns = ground (arith, close_set-held (some obj) w before.0 before.1 e, u);
    untraced = u;
    outcome = inr ((not_loaded, refl), refl);
  }

  open_with-Opened :
      (opened : Option ℕ) (max_flows : ℕ) (w : W)
      → laws.held w ≡ (with_set opened before.0, before.1)
      → Opened (open_with lib opened max_flows no_objects w)
  unfolding open_with Owns IsUntraced
  open_with-Opened none max_flows w e = record {
    owns = e;
    untraced = (refl, refl, refl);
    outcome = inr ((not_opened, refl), refl);
  }
  open_with-Opened (some obj) max_flows w e =
      let o = with_parts lib no_objects obj w in
      let w₁ = prepared lib o max_flows w in
      if_cases Opened (not (has_parts o)) _ _
        (λ lacks. record {
          owns = close_set-held (some obj) w _ _ e;
          untraced = (refl, refl, refl);
          outcome = inr ((missing, refl), refl);
        })
        (λ whole.
          finish_open-Opened (lib.load w₁ obj).0 o obj (lib.load w₁ obj).1
            (laws.held-load w₁ obj ∙ prepared-held o max_flows w ∙ e) (refl, refl, refl) refl)

  open_load-Opened :
      (path : Bytes) (max_flows : ℕ) (w : W)
      → laws.held w ≡ before
      → Opened (open_load lib path max_flows (record { objects = no_objects; world = w }))
  unfolding open_load
  open_load-Opened path max_flows w e =
      open_with-Opened (lib.open_file w path).0 max_flows (lib.open_file w path).1
        (ground (arith, e, laws.held-open_file w path))

  -- after `load_drops`: a whole tracer, or none
  record Traced (o : Objects) (r : Option DropsError × Loading W) : Type 0 where
    owns : Owns r.1.objects r.1.world
    same : r.1.objects.obj ≡ o.obj
    outcome :
        ((r.0 ≡ none)
          × (is_set r.1.objects.drop_link ≡ true)
          × (is_set r.1.objects.drops_obj ≡ true)
          × (is_set r.1.objects.drops ≡ true))
        ⊎ (((e : DropsError) × (r.0 ≡ some e)) × IsUntraced r.1.objects)

  close_drops-Traced :
      (o o' : Objects) (w : W) (e : DropsError)
      → Owns o w
      → o.obj ≡ o'.obj
      → Traced o' (some e, close_drops lib (record { objects = o; world = w }))
  unfolding close_drops Owns IsUntraced
  close_drops-Traced o o' w e h s = record {
    owns = close_set-held o.drops_obj _ _ _ (destroy_set-held o.drop_link w _ _ h);
    same = s;
    outcome = inr ((e, refl), (refl, refl, refl));
  }

  finish_drops-Traced :
      (l : Option ℕ) (o o' : Objects) (w : W)
      → o.obj ≡ o'.obj
      → is_set o.drops_obj ≡ true
      → is_set o.drops ≡ true
      → laws.held w ≡ (with_set o.drops_obj (with_set o.obj before.0), with_set l before.1)
      → Traced o' (finish_drops lib l o w)
  unfolding finish_drops Owns
  finish_drops-Traced none o o' w s d m e =
      close_drops-Traced (record o { drop_link = none }) o' w not_attached e s
  finish_drops-Traced (some l) o o' w s d m e = record {
    owns = e;
    same = s;
    outcome = inl (refl, refl, d, m);
  }

  start_tracer-Traced :
      (fine : Bool) (o o' : Objects) (prog : ℕ) (w : W)
      → o.obj ≡ o'.obj
      → is_set o.drops_obj ≡ true
      → is_set o.drops ≡ true
      → o.drop_link ≡ none
      → Owns o w
      → Traced o' (start_tracer lib fine o prog w)
  unfolding start_tracer Owns
  start_tracer-Traced false o o' prog w s d m l e = close_drops-Traced o o' w drops_not_loaded e s
  start_tracer-Traced true o o' prog w s d m l e =
      finish_drops-Traced (lib.attach w prog).0 o o' (lib.attach w prog).1 s d m
        (ground (arith, e, l, laws.held-attach w prog))

  load_tracer-Traced :
      (shared : Bool) (o o' : Objects) (obj prog : ℕ) (w : W)
      → o.obj ≡ o'.obj
      → is_set o.drops_obj ≡ true
      → is_set o.drops ≡ true
      → o.drop_link ≡ none
      → Owns o w
      → Traced o' (load_tracer lib shared o obj prog w)
  unfolding load_tracer Owns
  load_tracer-Traced false o o' obj prog w s d m l e =
      close_drops-Traced o o' w stats_not_shared e s
  load_tracer-Traced true o o' obj prog w s d m l e =
      start_tracer-Traced (lib.load w obj).0 o o' prog (lib.load w obj).1 s d m l
        (laws.held-load w obj ∙ e)

  share_stats-Traced :
      (own prog tc : Option ℕ) (o o' : Objects) (obj : ℕ) (w : W)
      → o.obj ≡ o'.obj
      → is_set o.drops_obj ≡ true
      → o.drop_link ≡ none
      → Owns o w
      → Traced o' (share_stats lib own prog tc o obj w)
  unfolding share_stats load_tracer Owns
  share_stats-Traced none prog tc o o' obj w s d l e = close_drops-Traced o o' w drops_missing e s
  share_stats-Traced (some own) none tc o o' obj w s d l e =
      close_drops-Traced o o' w drops_missing e s
  share_stats-Traced (some own) (some prog) none o o' obj w s d l e =
      close_drops-Traced o o' w stats_not_shared e s
  share_stats-Traced (some own) (some prog) (some tc) o o' obj w s d l e =
      if_cases (Traced o') (not (is_set o.attached && is_set o.drops)) _ _
        (λ lacks. close_drops-Traced o o' w drops_missing e s)
        (λ whole.
          load_tracer-Traced (lib.reuse_fd w own tc).0 o o' obj prog (lib.reuse_fd w own tc).1 s d
            (ground (arith, whole)) l (laws.held-reuse_fd w own tc ∙ e))

  drops_with-Traced :
      (opened : Option ℕ) (o : Objects) (w : W)
      → IsUntraced o
      → laws.held w ≡ (with_set opened (with_set o.obj before.0), before.1)
      → Traced o (drops_with lib opened o w)
  unfolding drops_with with_drop_parts Owns IsUntraced
  drops_with-Traced none o w u e = record {
    owns = ground (arith, e, u);
    same = refl;
    outcome = inr ((drops_not_opened, refl), (refl, u.1, u.2));
  }
  drops_with-Traced (some obj) o w u e =
      let o' = with_drop_parts lib o obj w in
      share_stats-Traced (lib.find_map w obj (codes "obserwrt_stats")) o'.prog_drop o'.stats o' o
        obj w refl refl u.1 (ground (arith, e, u))

  load_drops-Traced :
      (path : Bytes) (st : Loading W)
      → IsUntraced st.objects
      → Owns st.objects st.world
      → Traced st.objects (load_drops lib path st)
  unfolding load_drops Owns IsUntraced
  load_drops-Traced path st u e =
      drops_with-Traced (lib.open_file st.world path).0 st.objects (lib.open_file st.world path).1 u
        (ground (arith, e, u, laws.held-open_file st.world path))

  -- what is in place after a successful load
  pub record IsLoaded (track_drops : Bool) (warn : Option DropsError) (o : Objects) : Type 0 where
    pub has_object : is_set o.obj ≡ true
    pub is_active : o.drops_active ≡ (track_drops && is_none warn)
    pub is_traced :
        o.drops_active ≡ true
        → (is_set o.drops_obj ≡ true) × (is_set o.drops ≡ true) × (is_set o.drop_link ≡ true)
    pub is_untraced : o.drops_active ≡ false → (o.drops_obj ≡ none) × (o.drop_link ≡ none)

  -- how a load ends: it is refused and holds nothing, or it holds what the pointers stand for
  pub record IsFinished (track_drops : Bool) (r : LoadResult × Loading W) : Type 0 where
    pub owns : Owns r.1.objects r.1.world
    pub outcome :
        (((e : OpenError) × (r.0 ≡ refused e)) × (laws.held r.1.world ≡ before))
        ⊎ ((warn : Option DropsError) × (r.0 ≡ loaded warn) × IsLoaded track_drops warn r.1.objects)

  with_tracer-IsFinished :
      (failure : Option DropsError) (o : Objects) (st : Loading W)
      → is_set o.obj ≡ true
      → Traced o (failure, st)
      → IsFinished true (with_tracer failure st)
  unfolding with_tracer Owns IsUntraced
  with_tracer-IsFinished (some e) o st s h = record {
    owns = h.owns;
    outcome = inr (
      some e,
      refl,
      record {
        has_object = ap is_set h.same ∙ s;
        is_active = ground (arith, h.outcome);
        is_traced = λ on. ground (arith, h.outcome, on);
        is_untraced = λ off. ground (arith, h.outcome);
      },
    );
  }
  with_tracer-IsFinished none o st s h = record {
    owns = h.owns;
    outcome = inr (
      none,
      refl,
      record {
        has_object = ap is_set h.same ∙ s;
        is_active = refl;
        is_traced = λ on. ground (arith, h.outcome);
        is_untraced = λ off. absurd cc;
      },
    );
  }

  load_with-IsFinished :
      (failure : Option OpenError) (drops_path : Bytes) (track_drops : Bool) (st : Loading W)
      → Opened (failure, st)
      → IsFinished track_drops (load_with lib failure drops_path track_drops st)
  unfolding load_with Owns IsUntraced
  load_with-IsFinished (some e) drops_path track_drops st h = record {
    owns = h.owns;
    outcome = inl ((e, refl), ground (arith, h.owns, h.untraced, h.outcome));
  }
  load_with-IsFinished none drops_path true st h =
      let r = load_drops lib drops_path st in
      with_tracer-IsFinished r.0 st.objects r.1 (ground (arith, h.outcome))
        (load_drops-Traced drops_path st h.untraced h.owns)
  load_with-IsFinished none drops_path false st h = record {
    owns = h.owns;
    outcome = inr (
      none,
      refl,
      record {
        has_object = ground (arith, h.outcome);
        is_active = h.untraced.2;
        is_traced = λ on. ground (arith, h.untraced, on);
        is_untraced = λ off. (h.untraced.0, h.untraced.1);
      },
    );
  }

  close_all-held :
      (st : Loading W) → Owns st.objects st.world → laws.held (close_all lib st) ≡ before
  unfolding close_all Owns
  close_all-held st h = close_set-held st.objects.obj _ _ _ (
      close_set-held st.objects.drops_obj _ _ _
        (destroy_set-held st.objects.drop_link st.world _ _ h))

  -- Loading is refused and then holds nothing, or it succeeds and holds its object. The drop tracer is then
  -- active if and only if it was asked for and nothing is warned of, with its object, map and link in
  -- place; if it is not active, nothing of it is left open. After that the destructor closes all that was opened.
  pub load-IsFinished :
      (path drops_path : Bytes) (max_flows : ℕ) (track_drops : Bool) (w : W)
      → laws.held w ≡ before
      → IsFinished track_drops (
          load lib path drops_path max_flows track_drops
            (record { objects = no_objects; world = w }))
        × (laws.held (
              close_all lib
                (load lib path drops_path max_flows track_drops
                  (record { objects = no_objects; world = w })).1)
            ≡ before)
  unfolding load
  load-IsFinished path drops_path max_flows track_drops w e =
      let r = open_load lib path max_flows (record { objects = no_objects; world = w }) in
      let h =
        load_with-IsFinished r.0 drops_path track_drops r.1 (open_load-Opened path max_flows w e) in
      (h, close_all-held _ h.owns)
