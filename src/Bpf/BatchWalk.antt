-- ===== src/Bpf/BatchWalk.antt =====
-- Batched walks of a BPF hash map (batch_walk and batch_read of src/bpf.cpp).
-- The batch system call is a parameter; `IsBatchLookup` and `IsBatchDrain` state its documented
-- behaviour on hash maps.
use obserwrt.Prelude.{
  ℕ, zero, suc, ◌+◌, ◌-◌, ◌*◌, ◌<◌, ◌≡◌, refl, sym, ap, ◌∙◌, ◌⊎◌, inl, inr, Bool, true, false,
  Option, none, some, List, [], ◌∷◌, ◌++◌, arith, append_assoc, append-nil, Bool-cases,
}
use mathlib.Core.List.{map, map-append}

pub data Errno : Type 0 where
  ok enoent enospc : Errno
  fault : ℕ → Errno

-- What one call hands back: the error, the first `count` entries of the buffers, the next token.
pub record Batch (K V : Type 0) : Type 0 where
  pub errno : Errno
  pub entries : List (K × V)
  pub token : ℕ

abbrev is_nil : {A : Type 0} → List A → Bool
is_nil [] = true
is_nil (x ∷ xs) = false

module _ {M K V A : Type 0} (call : M → Option ℕ → ℕ → Batch K V × M)
    (on_batch : A → List (K × V) → A) where
  -- the endless loop of `batch_walk`, with fuel: `token` is `in_batch` (none on the first call) and
  -- `size` is `kb.size()`. `none` means that the fuel ran out.
  unfoldable pub batch_walk : ℕ → Option ℕ → ℕ → A → M → Option (Bool × A × M)
  batch_walk zero token size acc m = none
  batch_walk (suc fuel) token size acc m =
      let (b, m') = call m token size in
      elim b.errno [
        | ok ↦ batch_walk fuel (some b.token) size (on_batch acc b.entries) m'
        | enoent ↦ some (true, on_batch acc b.entries, m')
        | enospc ↦ elim (is_nil b.entries) [
          | true ↦ batch_walk fuel token (size * 2) acc m'
          | false ↦ some (false, acc, m')
        ]
        | fault e ↦ some (false, acc, m')
      ]

-- the initial buffer size
abbrev pub batch_size : ℕ
batch_size = 256

-- the two parallel vectors
pub record Vectors (K V : Type 0) : Type 0 where
  pub keys : List K
  pub values : List V

module _ {K V : Type 0} where
  abbrev pub vectors : List (K × V) → Vectors K V
  vectors es = record { keys = map (λ e. e.0) es; values = map (λ e. e.1) es }

  abbrev pub append_batch : Vectors K V → List (K × V) → Vectors K V
  append_batch acc es = record {
    keys = acc.keys ++ map (λ e. e.0) es;
    values = acc.values ++ map (λ e. e.1) es;
  }

-- `batch_read`
unfoldable pub batch_read :
    {M K V : Type 0} → (M → Option ℕ → ℕ → Batch K V × M) → ℕ → M → Option (Bool × Vectors K V × M)
batch_read call fuel m =
    batch_walk call append_batch fuel none batch_size (record { keys = []; values = [] }) m

-- A lookup call leaves the map as it is and hands out whole buckets in order: `rest` is what a
-- token stands before, `left` counts the buckets behind it, and a bucket has at most `limit`
-- entries, so that a call with room for `limit` entries never reports ENOSPC.
pub record IsBatchLookup {M K V : Type 0} (call : M → Option ℕ → ℕ → Batch K V × M) (m : M)
    (all : List (K × V)) : Type 0 where
  pub rest : Option ℕ → List (K × V)
  pub left : Option ℕ → ℕ
  pub limit : ℕ
  pub rest_all : rest none ≡ all
  pub pure : (token : Option ℕ) (size : ℕ) → (call m token size).1 ≡ m
  pub outcome :
      (token : Option ℕ) (size : ℕ)
      → (((call m token size).0.errno ≡ ok)
          × (rest token ≡ (call m token size).0.entries ++ rest (some (call m token size).0.token))
          × (left (some (call m token size).0.token) < left token))
        ⊎ (((call m token size).0.errno ≡ enoent) × (rest token ≡ (call m token size).0.entries))
        ⊎ (((call m token size).0.errno ≡ enospc)
            × ((call m token size).0.entries ≡ [])
            × (size < limit))

pub Errno-cases :
    (e : Errno) → ((e ≡ ok) ⊎ (e ≡ enoent)) ⊎ ((e ≡ enospc) ⊎ ((n : ℕ) × (e ≡ fault n)))
Errno-cases ok = inl (inl refl)
Errno-cases enoent = inl (inr refl)
Errno-cases enospc = inr (inl refl)
Errno-cases (fault n) = inr (inr (n, refl))

module _ {M K V A : Type 0} (call : M → Option ℕ → ℕ → Batch K V × M)
    (on_batch : A → List (K × V) → A) where
  -- Each call makes progress: the walk ends within this fuel, whatever the callback does, and the
  -- callback has seen batches that make up all entries in order, when it is a monoid action.
  pub batch_walk-all :
      (m : M) (all : List (K × V)) (h : IsBatchLookup call m all)
      → ((acc : A) (xs ys : List (K × V)) → on_batch (on_batch acc xs) ys ≡ on_batch acc (xs ++ ys))
      → (fuel : ℕ) (token : Option ℕ) (size : ℕ) (acc : A) → 0 < size
      → h.left token + (h.limit - size) < fuel
      → batch_walk call on_batch fuel token size acc m ≡ some (true, on_batch acc (h.rest token), m)
  unfolding batch_walk
  batch_walk-all m all h act zero token size acc pos enough = absurd (omega arith)
  batch_walk-all m all h act (suc fuel) token size acc pos enough =
      let b = (call m token size).0 in
      elim (h.outcome token size) [
        | inl (e, r, d) ↦ ground (
          arith,
          h.pure token size,
          act acc b.entries (h.rest (some b.token)),
          batch_walk-all m all h act fuel (some b.token) size (on_batch acc b.entries) pos,
        )
        | inr (inl (e, r)) ↦ ground (arith, h.pure token size)
        | inr (inr (e, r, d)) ↦
            ground (arith, h.pure token size, batch_walk-all m all h act fuel token (size * 2) acc)
      ]

module _ {M K V A B : Type 0} (call : M → Option ℕ → ℕ → Batch K V × M)
    (on_batch : A → List (K × V) → A) where
  -- What no call changes, the walk does not change.
  pub batch_walk_keeps :
      (f : M → B)
      → ((m : M) (token : Option ℕ) (size : ℕ) → f (call m token size).1 ≡ f m)
      → (fuel : ℕ) (token : Option ℕ) (size : ℕ) (acc : A) (m : M) {done : Bool} {acc' : A} {m' : M}
      → batch_walk call on_batch fuel token size acc m ≡ some (done, acc', m')
      → f m' ≡ f m
  unfolding batch_walk
  batch_walk_keeps f same zero token size acc m e = cc
  batch_walk_keeps f same (suc fuel) token size acc m {done} {acc'} {m'} e =
      let b = (call m token size).0 in
      let m₁ : M = (call m token size).1 in
      elim (Errno-cases b.errno) [
        | inl (inl p) ↦
            batch_walk_keeps f same fuel (some b.token) size (on_batch acc b.entries) m₁
              {done = done} {acc' = acc'} {m' = m'} (ground (arith, e))
            ∙ same m token size
        | inl (inr p) ↦ ground (arith, e, same m token size)
        | inr (inl p) ↦ elim (Bool-cases (is_nil b.entries)) [
          | inl q ↦
              batch_walk_keeps f same fuel token (size * 2) acc m₁ {done = done} {acc' = acc'}
                {m' = m'} (ground (arith, e, q))
              ∙ same m token size
          | inr q ↦ ground (arith, e, q, same m token size)
        ]
        | inr (inr (n, p)) ↦ ground (arith, e, same m token size)
      ]

pub append_batch-append :
    {K V : Type 0} (acc : Vectors K V) (xs ys : List (K × V))
    → append_batch (append_batch acc xs) ys ≡ append_batch acc (xs ++ ys)
append_batch-append acc xs ys = cc (
  append_assoc acc.keys (map (λ e. e.0) xs) (map (λ e. e.0) ys),
  append_assoc acc.values (map (λ e. e.1) xs) (map (λ e. e.1) ys),
  map-append (λ e. e.0) xs ys,
  map-append (λ e. e.1) xs ys,
)

-- Reading a map visits every entry exactly once and in order, and ends, also when a bucket is
-- larger than the buffer; `h.left none + h.limit + 1` calls are enough.
pub batch_read_all :
    {M K V : Type 0} (call : M → Option ℕ → ℕ → Batch K V × M) (m : M) (all : List (K × V))
    (h : IsBatchLookup call m all) (fuel : ℕ)
    → h.left none + h.limit < fuel
    → batch_read call fuel m ≡ some (true, vectors all, m)
unfolding batch_read
batch_read_all call m all h fuel enough =
    batch_walk-all call append_batch m all h append_batch-append fuel none batch_size _
      (omega arith) (omega arith)
    ∙ rw h.rest_all refl

-- A drain removes from the map what it hands out, and nothing when the buffer is too small for a
-- bucket; what another error removes is unknown. It advances over the buckets as a lookup does.
pub record IsBatchDrain {M K V : Type 0} (call : M → Option ℕ → ℕ → Batch K V × M)
    (contents : M → List (K × V)) : Type 0 where
  pub handed_out :
      (m : M) (token : Option ℕ) (size : ℕ)
      → ((call m token size).0.errno ≡ ok) ⊎ ((call m token size).0.errno ≡ enoent)
      → contents m ≡ (call m token size).0.entries ++ contents (call m token size).1
  pub kept :
      (m : M) (token : Option ℕ) (size : ℕ)
      → (call m token size).0.errno ≡ enospc
      → (call m token size).0.entries ≡ []
      → contents (call m token size).1 ≡ contents m
  pub left : Option ℕ → ℕ
  pub limit : ℕ
  pub advances :
      (m : M) (token : Option ℕ) (size : ℕ)
      → (call m token size).0.errno ≡ ok
      → left (some (call m token size).0.token) < left token
  pub roomy :
      (m : M) (token : Option ℕ) (size : ℕ) → (call m token size).0.errno ≡ enospc → size < limit

-- What a drain has handed out so far, starting from the vectors of `xs` at the map `m`: what has left
-- the map until `before`, which is the end, or, where it fails, the map at the call that fails.
pub record Drained {M K V : Type 0} (contents : M → List (K × V)) (xs : List (K × V)) (m : M)
    (done : Bool) (acc : Vectors K V) (m' : M) : Type 0 where
  pub taken : List (K × V)
  pub collected : acc ≡ vectors (xs ++ taken)
  pub before : M
  pub remaining : contents m ≡ taken ++ contents before
  pub exact : (done ≡ false) ⊎ (contents m' ≡ contents before)

none_left : {A : Type 0} (xs : List A) → is_nil xs ≡ true → xs ≡ []
none_left [] h = refl
none_left (x ∷ xs) h = cc

append_batch-vectors :
    {K V : Type 0} (xs ys : List (K × V)) → append_batch (vectors xs) ys ≡ vectors (xs ++ ys)
append_batch-vectors xs ys = cc (map-append (λ e. e.0) xs ys, map-append (λ e. e.1) xs ys)

module _ {M K V : Type 0} (call : M → Option ℕ → ℕ → Batch K V × M) (contents : M → List (K × V))
    (h : IsBatchDrain call contents) where
  Drained-done :
      (xs es : List (K × V)) (m m₁ : M) {done : Bool} {acc : Vectors K V} {m' : M}
      → contents m ≡ es ++ contents m₁
      → ◌≡◌ {A = Option (Bool × Vectors K V × M)}
          (some (true, vectors (xs ++ es), m₁))
          (some (done, acc, m'))
      → Drained contents xs m done acc m'
  Drained-done xs es m m₁ c e = record {
    taken = es;
    collected = cc;
    before = m₁;
    remaining = c;
    exact = inr cc;
  }

  Drained-failed :
      (xs : List (K × V)) (m m₁ : M) {done : Bool} {acc : Vectors K V} {m' : M}
      → ◌≡◌ {A = Option (Bool × Vectors K V × M)}
          (some (false, vectors xs, m₁))
          (some (done, acc, m'))
      → Drained contents xs m done acc m'
  Drained-failed xs m m₁ e = record {
    taken = [];
    collected = ground (arith, e, append-nil xs);
    before = m;
    remaining = refl;
    exact = inl cc;
  }

  Drained-step :
      (xs es : List (K × V)) (m m₁ : M) {done : Bool} {acc : Vectors K V} {m' : M}
      → contents m ≡ es ++ contents m₁
      → Drained contents (xs ++ es) m₁ done acc m'
      → Drained contents xs m done acc m'
  Drained-step xs es m m₁ e d = record {
    taken = es ++ d.taken;
    collected = d.collected ∙ rw append_assoc refl;
    before = d.before;
    remaining = e ∙ ap (λ r. es ++ r) d.remaining ∙ sym (append_assoc es d.taken _);
    exact = d.exact;
  }

  pub batch_walk-Drained :
      (fuel : ℕ) (token : Option ℕ) (size : ℕ) (xs : List (K × V)) (m : M) {done : Bool}
      {acc : Vectors K V} {m' : M}
      → batch_walk call append_batch fuel token size (vectors xs) m ≡ some (done, acc, m')
      → Drained contents xs m done acc m'
  unfolding batch_walk
  batch_walk-Drained zero token size xs m e = cc
  batch_walk-Drained (suc fuel) token size xs m {done = done} {acc = acc} {m' = m'} e =
      let es : List (K × V) = (call m token size).0.entries in
      let m₁ : M = (call m token size).1 in
      elim (Errno-cases (call m token size).0.errno) [
        | inl (inl p) ↦ Drained-step xs es m m₁ (h.handed_out m token size (inl p)) (
            batch_walk-Drained fuel (some (call m token size).0.token) size (xs ++ es) m₁
              {done = done} {acc = acc} {m' = m'} (ground (arith, e, append_batch-vectors xs es)))
        | inl (inr p) ↦
            Drained-done xs es m m₁ {done = done} (h.handed_out m token size (inr p))
              (ground (arith, e, append_batch-vectors xs es))
        | inr (inl p) ↦ elim (Bool-cases (is_nil es)) [
          | inl q ↦ Drained-step xs [] m m₁ (sym (h.kept m token size p (none_left es q))) (
              rw (append-nil xs) (
                batch_walk-Drained fuel token (size * 2) xs m₁ {done = done} {acc = acc} {m' = m'}
                  (ground (arith, e, q))))
          | inr q ↦ Drained-failed xs m m₁ {done = done} (ground (arith, e, q))
        ]
        | inr (inr (n, p)) ↦ Drained-failed xs m m₁ {done = done} (ground (arith, e))
      ]

  batch_walk_returns :
      (fuel : ℕ) (token : Option ℕ) (size : ℕ) (acc : Vectors K V) (m : M)
      → 0 < size
      → h.left token + (h.limit - size) < fuel
      → (r : Bool × Vectors K V × M) × (batch_walk call append_batch fuel token size acc m ≡ some r)
  unfolding batch_walk
  batch_walk_returns zero token size acc m pos enough = absurd (omega arith)
  batch_walk_returns (suc fuel) token size acc m pos enough =
      let es : List (K × V) = (call m token size).0.entries in
      let m₁ : M = (call m token size).1 in
      elim (Errno-cases (call m token size).0.errno) [
        | inl (inl p) ↦
            let later =
              batch_walk_returns fuel (some (call m token size).0.token) size (append_batch acc es)
                m₁ pos (omega (arith, h.advances m token size p)) in
            (later.0, ground (arith, later.1))
        | inl (inr p) ↦ ((true, append_batch acc es, m₁), ground arith)
        | inr (inl p) ↦ elim (Bool-cases (is_nil es)) [
          | inl q ↦
              let later =
                batch_walk_returns fuel token (size * 2) acc m₁ (omega arith)
                  (omega (arith, h.roomy m token size p)) in
              (later.0, ground (arith, later.1, q))
          | inr q ↦ ((false, acc, m₁), ground (arith, q))
        ]
        | inr (inr (n, p)) ↦ ((false, acc, m₁), ground arith)
      ]

  -- Given enough fuel a drain returns. If it succeeds, the vectors hold exactly the entries that left the map; if it fails partway,
  -- they hold exactly those that had left it before the call that failed, each once and in order, and none of what that
  -- call removed.
  pub batch_read_drains :
      (fuel : ℕ) (m : M)
      → h.left none + h.limit < fuel
      → (done : Bool) × (acc : Vectors K V) × (m' : M) × (batch_read call fuel m
          ≡ some (done, acc, m'))
        × Drained contents [] m done acc m'
  unfolding batch_read
  batch_read_drains fuel m enough =
      let (r, e) =
        batch_walk_returns fuel none batch_size (vectors []) m (omega arith) (omega arith) in
      (r.0, r.1, r.2, e, batch_walk-Drained fuel none batch_size [] m e)
