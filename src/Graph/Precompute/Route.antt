-- ===== src/Graph/Precompute/Route.antt =====
-- What the search is about: the routes to the goal, each with the cost that the search sums up for it,
-- from the goal backwards. A skip-typed node can begin a route and is not passed through.
use mathlib.Core.List.{Memᴰ}
use zk_libcod.Prelude.{ℕ, ◌<◌, ◌≡◌, ◌⊎◌, Bool, true, false, none, some, length, Mem}
use zk_libcod.Float.{FloatOps, IsNonneg}
use zk_libcod.Heap.{GraphHeapEntry}
use zk_libcod.Heap.Order.{IsHeap}
use zk_libcod.Graph.Precompute.{Incoming, Search, arcs_into, dist_at, hop_at, is_settled}

abbrev pub entry : {F : Type 0} → F → ℕ → GraphHeapEntry F
entry f v = record { f = f; node = v }

module _ {F : Type 0} ⦃fl : FloatOps F⦄ (incoming : Incoming F) (blocked : ℕ → Bool)
    (goal : ℕ) where
  open fl use {fzero, fadd, flt_max, fle}

  pub data Route : ℕ → F → Type 0 where
    here : Route goal fzero
    step :
        {v : ℕ} {c : F} (a : GraphHeapEntry F)
        → Route v c
        → blocked v ≡ false
        → Memᴰ a (arcs_into incoming v)
        → Route a.node (fadd c a.f)

  -- What the next hop of `v` means: an edge to a settled node that may be passed through, whose cost
  -- and the edge's add up to the cost of `v`.
  pub record Hop (s : Search F) (v : ℕ) : Type 0 where
    pub arc : GraphHeapEntry F
    pub next : ℕ
    pub source : arc.node ≡ v
    pub edge : Memᴰ arc (arcs_into incoming next)
    pub open_way : blocked next ≡ false
    pub stored : hop_at s v ≡ some next
    pub final : is_settled s next ≡ true
    pub cost : dist_at s v ≡ fadd (dist_at s next) arc.f

  abbrev pub HopOk : Search F → ℕ → Type 0
  HopOk s v = ((hop_at s v ≡ none) × ((v ≡ goal) ⊎ (dist_at s v ≡ flt_max))) ⊎ Hop s v

  -- What holds between any two steps of the search over `n` nodes.
  pub record Core (n : ℕ) (s : Search F) : Type 0 where
    pub dist_size : length s.dist ≡ n
    pub hop_size : length s.next_hop ≡ n
    pub settled_size : length s.settled ≡ n
    pub heap_ok : IsHeap s.heap
    pub entries : (e : GraphHeapEntry F) → Mem e s.heap → (e.node < n) × IsNonneg fl e.f
    pub bounded : (v : ℕ) → IsNonneg fl (dist_at s v) × (fle (dist_at s v) flt_max ≡ true)
    -- A node that was reached and is not settled waits in the heap, at its cost.
    pub queued :
        (v : ℕ)
        → v < n
        → is_settled s v ≡ false
        → (dist_at s v ≡ flt_max) ⊎ Mem (entry (dist_at s v) v) s.heap
    -- What waits costs no less than what is settled.
    pub floor :
        (u : ℕ)
        → is_settled s u ≡ true
        → (e : GraphHeapEntry F) → Mem e s.heap
        → fle (dist_at s u) e.f ≡ true
    pub goal_cost : dist_at s goal ≡ fzero
    pub goal_hop : hop_at s goal ≡ none
    pub hops : (v : ℕ) → v < n → HopOk s v
    -- A cost that was found is that of a route.
    pub routes : (v : ℕ) → (dist_at s v ≡ flt_max) ⊎ Route v (dist_at s v)

  -- Every edge into a settled node that may be passed through has been relaxed.
  abbrev pub IsRelaxed : Search F → Type 0
  IsRelaxed s =
      (u : ℕ)
      → is_settled s u ≡ true
      → blocked u ≡ false
      → (a : GraphHeapEntry F) → Memᴰ a (arcs_into incoming u)
      → fle (dist_at s a.node) (fadd (dist_at s u) a.f) ≡ true

  -- A later state keeps what is settled, and lowers no cost of it; other costs only fall.
  pub record Lowers (s s' : Search F) : Type 0 where
    pub same_settled : (v : ℕ) → is_settled s' v ≡ is_settled s v
    pub kept : (v : ℕ) → is_settled s v ≡ true → dist_at s' v ≡ dist_at s v
    pub lower : (v : ℕ) → fle (dist_at s' v) (dist_at s v) ≡ true

  -- The edges of the input: their costs are numbers that are not negative, and their sources nodes.
  abbrev pub GoodArcs : ℕ → Type 0
  GoodArcs n =
      (v : ℕ) (a : GraphHeapEntry F)
      → Memᴰ a (arcs_into incoming v)
      → IsNonneg fl a.f × (a.node < n)
