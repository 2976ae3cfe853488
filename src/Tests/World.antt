-- ===== src/Tests/World.antt =====
-- A kernel in which the libbpf calls do what they document: hooks, and a flow map read in two batches.
use obserwrt.Prelude.{
  ℕ, ◌*◌, ◌^◌, ◌<◌, ◌≡◌, refl, ◌⊎◌, inl, inr, Bool, true, false, ◌&&◌, Option, none, some, List, [],
  ◌∷◌, ◌++◌, arith, ◌==◌, if◌then◌else◌, Bytes, find, erase, find-erase,
}
use obserwrt.Flow.{FlowKey, FlowValue, IsFlowKey, flow_key_eq}
use obserwrt.Bpf.BatchWalk.{Batch, ok, enoent, IsBatchLookup}
use obserwrt.Bpf.Attach.{HasHooks, IsMirrored}
use obserwrt.Bpf.Purge.{HasFlows}
use obserwrt.Bpf.{Libbpf, Bpf}

-- the first call hands out the first entry, the second the others
abbrev pub two_batches : {K V : Type 0} → List (K × V) → Option ℕ → Batch K V
two_batches [] token = record { errno = enoent; entries = []; token = 0 }
two_batches (e ∷ es) none = record { errno = ok; entries = e ∷ []; token = 1 }
two_batches (e ∷ es) (some t) = record { errno = enoent; entries = es; token = 0 }

abbrev pub rest_of : {K V : Type 0} → List (K × V) → Option ℕ → List (K × V)
rest_of [] token = []
rest_of (e ∷ es) none = e ∷ es
rest_of (e ∷ es) (some t) = es

abbrev pub left_of : Option ℕ → ℕ
left_of none = 1
left_of (some t) = 0

abbrev pub lookup_call : {M K V : Type 0} → (M → List (K × V)) → M → Option ℕ → ℕ → Batch K V × M
lookup_call contents m token size = (two_batches (contents m) token, m)

abbrev two_batches-outcome :
    {K V : Type 0} (es : List (K × V)) (token : Option ℕ)
    → (((two_batches es token).errno ≡ ok)
        × (rest_of es token
            ≡ (two_batches es token).entries ++ rest_of es (some (two_batches es token).token))
        × (left_of (some (two_batches es token).token) < left_of token))
      ⊎ (((two_batches es token).errno ≡ enoent)
          × (rest_of es token ≡ (two_batches es token).entries))
two_batches-outcome [] token = inr (refl, refl)
two_batches-outcome (e ∷ es) none = inl (refl, refl, omega arith)
two_batches-outcome (e ∷ es) (some t) = inr (refl, refl)

abbrev rest_of-none : {K V : Type 0} (es : List (K × V)) → rest_of es none ≡ es
rest_of-none [] = refl
rest_of-none (e ∷ es) = refl

abbrev pub lookup_call-IsBatchLookup :
    {M K V : Type 0} (contents : M → List (K × V)) (m : M)
    → IsBatchLookup (lookup_call contents) m (contents m)
lookup_call-IsBatchLookup contents m = record {
  rest = rest_of (contents m);
  left = left_of;
  limit = 0;
  rest_all = rest_of-none (contents m);
  pure = λ token size. refl;
  outcome = λ token size. elim (two_batches-outcome (contents m) token) [
    | inl p ↦ inl p
    | inr p ↦ inr (inl p)
  ];
}

pub record World : Type 0 where
  pub hooks : ℕ → ℕ → Bool
  pub flows : List (FlowKey × FlowValue)

abbrev pub set_hook : World → ℕ → ℕ → Bool → World
set_hook w d i on = record w { hooks = λ d' j. if d == d' && i == j then on else w.hooks d' j }

abbrev pub kernel : Libbpf World
kernel = record {
  attach_tcx = λ w d eth i. (true, set_hook w d i true);
  destroy_link = λ w d i. set_hook w d i false;
  devstats_delete = λ w i d. w;
  attached_update = λ w i. (true, w);
  attached_delete = λ w i. w;
  devstats_entries = λ w. 256;
  flows_batch = lookup_call (λ w. w.flows);
  flows_lookup = λ w k. find k w.flows;
  flows_delete = λ w k. (true, record w { flows = erase k w.flows });
}

abbrev pub kernel-HasHooks : HasHooks kernel
kernel-HasHooks = record {
  hook = λ w d j. w.hooks d j;
  hook-attach_tcx = λ w d d' eth i j. ground arith;
  hook-destroy_link = λ w d d' i j. refl;
  hook-devstats_delete = λ w i d d' j. refl;
  hook-attached_update = λ w i d j. refl;
  hook-attached_delete = λ w i d j. refl;
  hook-flows_batch = λ w token size d j. refl;
  hook-flows_delete = λ w k d j. refl;
}

pub kernel-HasFlows : HasFlows kernel
kernel-HasFlows = record { lookup-delete = λ w k j. find-erase k j w.flows }

abbrev pub address : Bytes
address = 0 ∷ 0 ∷ 0 ∷ 0 ∷ 0 ∷ 0 ∷ 0 ∷ 0 ∷ 0 ∷ 0 ∷ 255 ∷ 255 ∷ 10 ∷ 0 ∷ 0 ∷ 1 ∷ []

-- a TCP flow on a device, its port the number given
abbrev pub flow_on : ℕ → ℕ → FlowKey
flow_on ifindex port = record {
  ifindex = ifindex;
  direction = 0;
  family = 4;
  protocol = 6;
  reserved = 0;
  src = address;
  dst = address;
  sport = port;
  dport = 443;
  icmp_type = 0;
  icmp_code = 0;
}

pub flow_on-IsFlowKey : (n : ℕ) → n < 256 ^ 2 → IsFlowKey (flow_on 3 n)
flow_on-IsFlowKey n h = record {
  ifindex_fits = omega arith;
  direction_fits = omega arith;
  family_fits = omega arith;
  protocol_fits = omega arith;
  reserved_fits = omega arith;
  src_length = refl;
  dst_length = refl;
  sport_fits = h;
  dport_fits = omega arith;
  icmp_type_fits = omega arith;
  icmp_code_fits = omega arith;
}

-- seen last at second 10
abbrev pub counted : ℕ → FlowValue
counted n = record {
  packets = n;
  bytes = n * 100;
  first_seen = 1000000000;
  last_seen = 10000000000;
  tcp_flags = 2;
  vlan_id = 0;
  tos = 0;
}

-- no device attached, the flow map holding these entries
abbrev pub holding : List (FlowKey × FlowValue) → Bpf World
holding es = record {
  loaded = true;
  tracer = true;
  atts = [];
  world = record { hooks = λ d j. false; flows = es };
}

pub holding-IsMirrored :
    (es : List (FlowKey × FlowValue)) → IsMirrored kernel kernel-HasHooks (holding es)
unfolding find
holding-IsMirrored es = record {
  in_mirrored = λ j. refl;
  eg_mirrored = λ j. refl;
  paired = λ j. refl;
}
