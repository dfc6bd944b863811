-- ===== src/Graph/Registry/Ids.antt =====
-- The id that graphCreate gives: the lowest that no graph has. So no two graphs share an id.
use mathlib.Core.List.{Memᴰ}
use mathlib.Core.List.Memᴰ
use zk_libcod.Prelude.{
  ℕ, zero, suc, ◌+◌, ◌<◌, ◌≤◌, ◌≡◌, ◌≢◌, ◌⊎◌, inl, inr, refl, sym, subst, get_or, set, true, [],
  ◌∷◌, ◌++◌, none, arith, length, ltb, ◌==◌, ==_iff, if◌then◌else◌, Option-cases, Bool-cases, All,
  All-append, erase_at, All-erase_at, ap, ◌∙◌, ◌↔◌,
}
use zk_libcod.Prelude.Int.{pos}
use zk_libcod.Graph.{Graphs, AStarGraph, graph_by_id}
use zk_libcod.Graph.Registry.{next_free_id, lowest_free_id, gsc_graph_cleanup_on_spawn_server}

module _ {F : Type 0} where
  abbrev pub IsFree : Graphs F → ℕ → Type 0
  IsFree gs id = graph_by_id gs (pos id) ≡ none

  -- How many graphs have the id, and how many have one below it.
  count_id : ℕ → Graphs F → ℕ
  count_id id [] = 0
  count_id id (g ∷ gs) = (if g.id == id then 1 else 0) + count_id id gs

  count_below : ℕ → Graphs F → ℕ
  count_below id [] = 0
  count_below id (g ∷ gs) = (if ltb g.id id then 1 else 0) + count_below id gs

  count_below-le : (id : ℕ) (gs : Graphs F) → count_below id gs ≤ length gs
  unfolding count_below
  count_below-le id [] = omega arith
  count_below-le id (g ∷ gs) = ground (arith, count_below-le id gs)

  count_below-suc :
      (id : ℕ) (gs : Graphs F) → count_below (suc id) gs ≡ count_below id gs + count_id id gs
  unfolding count_below count_id
  count_below-suc id [] = refl
  count_below-suc id (g ∷ gs) = ground (arith, count_below-suc id gs)

  used_count : (id : ℕ) (gs : Graphs F) → ¬ IsFree gs id → 0 < count_id id gs
  unfolding count_id graph_by_id
  used_count id [] used = absurd (used refl)
  used_count id (g ∷ gs) used = elim (Option-cases (graph_by_id gs (pos id))) [
    | inl free ↦ elim (Bool-cases (g.id == id)) [
      | inl hit ↦ rw hit (omega arith)
      | inr miss ↦ absurd (used (rw (miss, free) refl))
    ]
    | inr (i, found) ↦ let later : 0 < count_id id gs = used_count id gs (λ free. cc) in omega arith
  ]

  -- A vector of n graphs cannot use more than n ids.
  used-le-length :
      (m : ℕ) (gs : Graphs F) → ((k : ℕ) → k < m → ¬ IsFree gs k) → m ≤ count_below m gs
  used-le-length zero gs used = omega arith
  used-le-length (suc m) gs used = omega (
    arith,
    used-le-length m gs (λ k h. used k (omega arith)),
    count_below-suc m gs,
    used_count m gs (used m (omega arith)),
  )

  record Scans (gs : Graphs F) (from rounds to : ℕ) : Type 0 where
    later : from ≤ to
    passed : (k : ℕ) → from ≤ k → k < to → ¬ IsFree gs k
    stopped : IsFree gs to ⊎ (to ≡ from + rounds)

  next_free_id-Scans :
      (rounds : ℕ) (gs : Graphs F) (from : ℕ) → Scans gs from rounds (next_free_id rounds gs from)
  unfolding next_free_id
  next_free_id-Scans zero gs from = record {
    later = omega arith;
    passed = λ k p q. absurd (omega arith);
    stopped = inr (omega arith);
  }
  next_free_id-Scans (suc rounds) gs from = elim (Option-cases (graph_by_id gs (pos from))) [
    | inl free ↦
        rw (free, next_free_id)
          (record {
            later = omega arith;
            passed = λ k p q. absurd (omega arith);
            stopped = inl free;
          })
    | inr (i, found) ↦
        let rest = next_free_id-Scans rounds gs (suc from) in
        rw (found, next_free_id)
          (record {
            later = omega (arith, rest.later);
            passed = λ k p q free. elim (Bool-cases (k == from)) [
              | inl here ↦ absurd (cc (found, free, (==_iff k from).0 here))
              | inr after ↦ rest.passed k (ground arith) q free
            ];
            stopped = elim rest.stopped [ inl free ↦ inl free | inr all ↦ inr (omega arith) ];
          })
  ]

  -- The id is free, and every lower id is taken.
  pub lowest_free_id_lem :
      (gs : Graphs F)
      → IsFree gs (lowest_free_id gs) × ((k : ℕ) → k < lowest_free_id gs → ¬ IsFree gs k)
  unfolding lowest_free_id
  lowest_free_id_lem gs =
      let scan = next_free_id-Scans (length gs) gs 0 in
      (
        elim scan.stopped [
          | inl free ↦ free
          | inr all ↦ elim (Option-cases (graph_by_id gs (pos (next_free_id (length gs) gs 0)))) [
            | inl free ↦ free
            | inr (i, found) ↦ absurd (
                omega (
                  arith,
                  used-le-length (suc (length gs)) gs (λ k h free.
                      elim (Bool-cases (k == next_free_id (length gs) gs 0)) [
                        | inl here ↦ absurd (cc (found, free, (==_iff k _).0 here))
                        | inr below ↦ scan.passed k (omega arith) (ground arith) free
                      ]),
                  count_below-le (suc (length gs)) gs,
                ))
          ]
        ],
        λ k h. scan.passed k (omega arith) h,
      )

  -- No two graphs have one id.
  abbrev pub HasDistinctIds : Graphs F → Type 0
  HasDistinctIds [] = Unit {0}
  HasDistinctIds (g ∷ gs) = All (λ h. pos h.id ≢ pos g.id) gs × HasDistinctIds gs

  pub HasDistinctIds-append :
      (gs : Graphs F) (g : AStarGraph F)
      → HasDistinctIds gs
      → All (λ h. pos h.id ≢ pos g.id) gs
      → HasDistinctIds (gs ++ g ∷ [])
  HasDistinctIds-append [] g d other = (tt, tt)
  HasDistinctIds-append (h ∷ gs) g d other = (
    All-append _ gs (g ∷ []) d.0 (λ same. other.0 (sym same), tt),
    HasDistinctIds-append gs g d.1 other.1,
  )

  others-set :
      (P : ℕ → Type 0) (gs : Graphs F) (i : ℕ) (g d : AStarGraph F)
      → i < length gs
      → g.id ≡ (get_or gs i d).id
      → All (λ h. P h.id) gs
      → All (λ h. P h.id) (set gs i g)
  others-set P [] i g d h same all = tt
  others-set P (x ∷ xs) zero g d h same all = (subst P (sym same) all.0, all.1)
  others-set P (x ∷ xs) (suc i) g d h same all =
      (all.0, others-set P xs i g d (omega arith) same all.1)

  -- A graph may be written over by one with its id.
  pub HasDistinctIds-set :
      (gs : Graphs F) (i : ℕ) (g d : AStarGraph F)
      → i < length gs
      → g.id ≡ (get_or gs i d).id
      → HasDistinctIds gs
      → HasDistinctIds (set gs i g)
  HasDistinctIds-set [] i g d h same all = tt
  HasDistinctIds-set (x ∷ xs) zero g d h same all =
      (subst (λ id. All (λ h. pos h.id ≢ pos id) xs) (sym same) all.0, all.1)
  HasDistinctIds-set (x ∷ xs) (suc i) g d h same all = (
    others-set (λ id. pos id ≢ pos x.id) xs i g d (omega arith) same all.0,
    HasDistinctIds-set xs i g d (omega arith) same all.1,
  )

  pub HasDistinctIds-erase_at :
      (gs : Graphs F) (i : ℕ) → HasDistinctIds gs → HasDistinctIds (erase_at gs i)
  HasDistinctIds-erase_at [] i d = tt
  HasDistinctIds-erase_at (g ∷ gs) zero d = d.1
  HasDistinctIds-erase_at (g ∷ gs) (suc i) d =
      (All-erase_at _ gs i d.0, HasDistinctIds-erase_at gs i d.1)

  pub cleanup-All :
      (P : AStarGraph F → Type 0) (gs : Graphs F)
      → All P gs
      → All P (gsc_graph_cleanup_on_spawn_server gs)
  unfolding gsc_graph_cleanup_on_spawn_server
  cleanup-All P [] h = tt
  cleanup-All P (g ∷ gs) h = elim (Bool-cases g.persist) [
    | inl stays ↦ simp stays (h.0, cleanup-All P gs h.1)
    | inr goes ↦ simp goes (cleanup-All P gs h.1)
  ]

  pub HasDistinctIds-cleanup :
      (gs : Graphs F) → HasDistinctIds gs → HasDistinctIds (gsc_graph_cleanup_on_spawn_server gs)
  unfolding gsc_graph_cleanup_on_spawn_server
  HasDistinctIds-cleanup [] d = tt
  HasDistinctIds-cleanup (g ∷ gs) d = elim (Bool-cases g.persist) [
    | inl stays ↦ simp stays (cleanup-All _ gs d.0, HasDistinctIds-cleanup gs d.1)
    | inr goes ↦ simp goes (HasDistinctIds-cleanup gs d.1)
  ]

  cleanup_only :
      (gs : Graphs F) (g : AStarGraph F)
      → Memᴰ g (gsc_graph_cleanup_on_spawn_server gs)
      → Memᴰ g gs × (g.persist ≡ true)
  unfolding gsc_graph_cleanup_on_spawn_server
  cleanup_only [] g m = absurd (Memᴰ.not-nil m)
  cleanup_only (h ∷ gs) g m = elim (Bool-cases h.persist) [
    | inl stays ↦
        let there : Memᴰ g (h ∷ gsc_graph_cleanup_on_spawn_server gs) = simp stays at m in
        elim (Memᴰ.cases_cons there) [
          | inl same ↦ (Memᴰ.head same, ap (λ (x : AStarGraph F). x.persist) same ∙ stays)
          | inr later ↦ let (old, kept) = cleanup_only gs g later in (Memᴰ.tail old, kept)
        ]
    | inr goes ↦
        let there : Memᴰ g (gsc_graph_cleanup_on_spawn_server gs) = simp goes at m in
        let (old, kept) = cleanup_only gs g there in (Memᴰ.tail old, kept)
  ]

  cleanup_keeps :
      (gs : Graphs F) (g : AStarGraph F)
      → Memᴰ g gs
      → g.persist ≡ true
      → Memᴰ g (gsc_graph_cleanup_on_spawn_server gs)
  unfolding gsc_graph_cleanup_on_spawn_server
  cleanup_keeps [] g m kept = absurd (Memᴰ.not-nil m)
  cleanup_keeps (h ∷ gs) g (Memᴰ.head same) kept =
      let stays : h.persist ≡ true = ap (λ (x : AStarGraph F). x.persist) (sym same) ∙ kept in
      simp stays (Memᴰ.head same)
  cleanup_keeps (h ∷ gs) g (Memᴰ.tail m) kept =
      let ih = cleanup_keeps gs g m kept in
      elim (Bool-cases h.persist) [
        | inl stays ↦ simp stays (Memᴰ.tail ih)
        | inr goes ↦ simp goes ih
      ]

  -- The cleanup between two maps keeps exactly the graphs that are persistent.
  pub cleanup_iff :
      (gs : Graphs F) (g : AStarGraph F)
      → Memᴰ g (gsc_graph_cleanup_on_spawn_server gs) ↔ (Memᴰ g gs × (g.persist ≡ true))
  cleanup_iff gs g = (cleanup_only gs g, λ m. cleanup_keeps gs g m.0 m.1)
