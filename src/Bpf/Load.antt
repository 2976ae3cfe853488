-- ===== src/Bpf/Load.antt =====
-- Loading the two BPF objects, and the destructor (src/bpf.cpp). The calls of libbpf are the parameter
-- `Loader`; an object, a map, a program and a link is a number, and a null pointer is none.
use obserwrt.Prelude.{
  ℕ, Bool, true, false, ◌&&◌, not, Option, none, some, List, [], ◌∷◌, ◌==◌, if◌then◌else◌, Bytes,
  codes,
}
use obserwrt.Flow.{ingress, egress}
use obserwrt.Bpf.{Libbpf, Links}

pub record Loader (W : Type 0) : Type 0 where
  pub open_file : W → Bytes → Option ℕ × W
  pub find_map : W → ℕ → Bytes → Option ℕ
  pub find_program : W → ℕ → Bytes → Option ℕ
  pub max_entries : W → ℕ → ℕ
  pub set_max_entries : W → ℕ → ℕ → W
  pub set_type : W → ℕ → W
  -- the expected attach type, by the direction
  pub set_expected_attach_type : W → ℕ → ℕ → W
  pub load : W → ℕ → Bool × W
  pub reuse_fd : W → ℕ → ℕ → Bool × W
  pub attach : W → ℕ → Option ℕ × W
  pub destroy_link : W → ℕ → W
  pub close : W → ℕ → W

-- the pointers of `class Bpf`
pub record Objects : Type 0 where
  pub obj : Option ℕ
  pub flows : Option ℕ
  pub stats : Option ℕ
  pub devstats : Option ℕ
  pub ingress_l3 : Option ℕ
  pub egress_l3 : Option ℕ
  pub ingress_eth : Option ℕ
  pub egress_eth : Option ℕ
  pub drops_obj : Option ℕ
  pub attached : Option ℕ
  pub drops : Option ℕ
  pub prog_drop : Option ℕ
  pub drop_link : Option ℕ
  pub drops_active : Bool

-- `Bpf() = default`
abbrev pub no_objects : Objects
no_objects = record {
  obj = none;
  flows = none;
  stats = none;
  devstats = none;
  ingress_l3 = none;
  egress_l3 = none;
  ingress_eth = none;
  egress_eth = none;
  drops_obj = none;
  attached = none;
  drops = none;
  prog_drop = none;
  drop_link = none;
  drops_active = false;
}

pub record Loading (W : Type 0) : Type 0 where
  pub objects : Objects
  pub world : W

-- what is put into `*err` by `open_load`, and by `load_drops`
pub data OpenError : Type 0 where
  not_opened missing not_loaded : OpenError

pub data DropsError : Type 0 where
  drops_not_opened drops_missing stats_not_shared drops_not_loaded not_attached : DropsError

-- the result of `load`: what it puts into `*warn`, or into `*err`
pub data LoadResult : Type 0 where
  loaded : Option DropsError → LoadResult
  refused : OpenError → LoadResult

abbrev pub is_set : Option ℕ → Bool
is_set none = false
is_set (some p) = true

-- the maps and programs that `open_load` looks for
abbrev pub has_parts : Objects → Bool
has_parts o =
    is_set o.flows
    && is_set o.stats
    && is_set o.devstats
    && is_set o.ingress_l3
    && is_set o.egress_l3
    && is_set o.ingress_eth
    && is_set o.egress_eth

-- the warning of `load`, and `drops_active`
unfoldable pub with_tracer : {W : Type 0} → Option DropsError → Loading W → LoadResult × Loading W
with_tracer (some e) st = (loaded (some e), st)
with_tracer none st =
    (loaded none, record st { objects = record st.objects { drops_active = true } })

module _ {W : Type 0} (lib : Loader W) where
  -- the size given to the flow map, and the call that sets it
  unfoldable pub entries_for : W → ℕ → ℕ → ℕ
  entries_for w flows max_flows =
      if not (max_flows == 0)
      then max_flows
      else if lib.max_entries w flows == 0
      then 4096
      else lib.max_entries w flows

  unfoldable pub resized : Option ℕ → ℕ → W → W
  unfolding entries_for
  resized none max_flows w = w
  resized (some flows) max_flows w = lib.set_max_entries w flows (entries_for w flows max_flows)

  -- a round of the loop that sets the program types
  unfoldable pub typed : Option ℕ → Option ℕ → W → W
  typed (some i) (some e) w =
      let w₁ = lib.set_type (lib.set_type w i) e in
      lib.set_expected_attach_type (lib.set_expected_attach_type w₁ i ingress) e egress
  typed (some i) none w = w
  typed none e w = w

  -- the lookups of `open_load`
  unfoldable pub with_parts : Objects → ℕ → W → Objects
  with_parts o obj w = record o {
    obj = some obj;
    flows = lib.find_map w obj (codes "obserwrt_flows");
    stats = lib.find_map w obj (codes "obserwrt_stats");
    devstats = lib.find_map w obj (codes "obserwrt_devstats");
    ingress_l3 = lib.find_program w obj (codes "obserwrt_ingress_l3");
    egress_l3 = lib.find_program w obj (codes "obserwrt_egress_l3");
    ingress_eth = lib.find_program w obj (codes "obserwrt_ingress_eth");
    egress_eth = lib.find_program w obj (codes "obserwrt_egress_eth");
  }

  -- the size and the types, before the load
  unfoldable pub prepared : Objects → ℕ → W → W
  unfolding resized typed
  prepared o max_flows w =
      typed o.ingress_eth o.egress_eth
        (typed o.ingress_l3 o.egress_l3 (resized o.flows max_flows w))

  -- the end of `open_load`, with the result of bpf_object__load
  unfoldable pub finish_open : Bool → Objects → ℕ → W → Option OpenError × Loading W
  finish_open true o obj w = (none, record { objects = o; world = w })
  finish_open false o obj w =
      (some not_loaded, record { objects = record o { obj = none }; world = lib.close w obj })

  -- `open_load` from the opened object on
  unfoldable pub open_with : Option ℕ → ℕ → Objects → W → Option OpenError × Loading W
  unfolding with_parts prepared finish_open
  open_with none max_flows o w =
      (some not_opened, record { objects = record o { obj = none }; world = w })
  open_with (some obj) max_flows o w =
      let o' = with_parts o obj w in
      if not (has_parts o')
      then (some missing, record { objects = record o' { obj = none }; world = lib.close w obj })
      else (let (fine, w₁) = lib.load (prepared o' max_flows w) obj in finish_open fine o' obj w₁)

  -- `Bpf::open_load`
  unfoldable pub open_load : Bytes → ℕ → Loading W → Option OpenError × Loading W
  unfolding open_with
  open_load path max_flows st =
      let (opened, w) = lib.open_file st.world path in open_with opened max_flows st.objects w

  -- `bpf_link__destroy` and `bpf_object__close` of a pointer that may be null
  abbrev pub destroy_set : Option ℕ → W → W
  destroy_set none w = w
  destroy_set (some l) w = lib.destroy_link w l

  abbrev pub close_set : Option ℕ → W → W
  close_set none w = w
  close_set (some o) w = lib.close w o

  -- `Bpf::close_drops`
  unfoldable pub close_drops : Loading W → Loading W
  close_drops st = record {
    objects = record st.objects {
      drop_link = none;
      drops_obj = none;
      attached = none;
      drops = none;
      prog_drop = none;
      drops_active = false;
    };
    world = close_set st.objects.drops_obj (destroy_set st.objects.drop_link st.world);
  }

  -- the lookups of `load_drops`, but for the stats map
  unfoldable pub with_drop_parts : Objects → ℕ → W → Objects
  with_drop_parts o obj w = record o {
    drops_obj = some obj;
    attached = lib.find_map w obj (codes "obserwrt_attached");
    drops = lib.find_map w obj (codes "obserwrt_drops");
    prog_drop = lib.find_program w obj (codes "obserwrt_kfree_skb");
  }

  -- a failure of `load_drops` with its object open
  abbrev pub dropped : DropsError → Objects → W → Option DropsError × Loading W
  dropped e o w = (some e, close_drops (record { objects = o; world = w }))

  -- `load_drops` from the link on
  unfoldable pub finish_drops : Option ℕ → Objects → W → Option DropsError × Loading W
  unfolding close_drops
  finish_drops none o w = dropped not_attached (record o { drop_link = none }) w
  finish_drops (some l) o w =
      (none, record { objects = record o { drop_link = some l }; world = w })

  -- from the result of bpf_object__load on
  unfoldable pub start_tracer : Bool → Objects → ℕ → W → Option DropsError × Loading W
  unfolding close_drops finish_drops
  start_tracer false o prog w = dropped drops_not_loaded o w
  start_tracer true o prog w = let (link, w₁) = lib.attach w prog in finish_drops link o w₁

  -- from the result of bpf_map__reuse_fd on
  unfoldable pub load_tracer : Bool → Objects → ℕ → ℕ → W → Option DropsError × Loading W
  unfolding close_drops start_tracer
  load_tracer false o obj prog w = dropped stats_not_shared o w
  load_tracer true o obj prog w = let (fine, w₁) = lib.load w obj in start_tracer fine o prog w₁

  -- from the object's own stats map and program on; the case without the TC object's stats map is not
  -- reached, since `open_load` has found it
  unfoldable pub share_stats :
      Option ℕ → Option ℕ → Option ℕ → Objects → ℕ → W → Option DropsError × Loading W
  unfolding close_drops load_tracer
  share_stats none prog tc o obj w = dropped drops_missing o w
  share_stats (some own) none tc o obj w = dropped drops_missing o w
  share_stats (some own) (some prog) none o obj w = dropped stats_not_shared o w
  share_stats (some own) (some prog) (some tc) o obj w =
      if not (is_set o.attached && is_set o.drops)
      then dropped drops_missing o w
      else (let (shared, w₁) = lib.reuse_fd w own tc in load_tracer shared o obj prog w₁)

  -- from the opened object on
  unfoldable pub drops_with : Option ℕ → Objects → W → Option DropsError × Loading W
  unfolding with_drop_parts share_stats
  drops_with none o w =
      (some drops_not_opened, record { objects = record o { drops_obj = none }; world = w })
  drops_with (some obj) o w =
      let o' = with_drop_parts o obj w in
      share_stats (lib.find_map w obj (codes "obserwrt_stats")) o'.prog_drop o'.stats o' obj w

  -- `Bpf::load_drops`
  unfoldable pub load_drops : Bytes → Loading W → Option DropsError × Loading W
  unfolding drops_with
  load_drops path st =
      let (opened, w) = lib.open_file st.world path in drops_with opened st.objects w

  -- `load` from the result of `open_load` on
  unfoldable pub load_with : Option OpenError → Bytes → Bool → Loading W → LoadResult × Loading W
  unfolding load_drops with_tracer
  load_with (some e) drops_path track_drops st = (refused e, st)
  load_with none drops_path true st =
      let (failure, st') = load_drops drops_path st in with_tracer failure st'
  load_with none drops_path false st = (loaded none, st)

  -- `Bpf::load`
  unfoldable pub load : Bytes → Bytes → ℕ → Bool → Loading W → LoadResult × Loading W
  unfolding open_load load_with
  load path drops_path max_flows track_drops st =
      let (failure, st') = open_load path max_flows st in
      load_with failure drops_path track_drops st'

  -- `~Bpf` from the tracer's link on
  unfoldable pub close_all : Loading W → W
  close_all st =
      close_set st.objects.obj
        (close_set st.objects.drops_obj (destroy_set st.objects.drop_link st.world))

-- the loop of `~Bpf` over the links of the devices
unfoldable pub destroy_links : {W : Type 0} → Libbpf W → List (ℕ × Links) → W → W
destroy_links lib [] w = w
destroy_links lib ((i, l) ∷ atts) w =
    let w₁ = if l.in_link then lib.destroy_link w ingress i else w in
    destroy_links lib atts (if l.eg_link then lib.destroy_link w₁ egress i else w₁)
