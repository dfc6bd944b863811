-- ===== src/Graph/Registry/Effects.antt =====
-- What creating and removing a graph does to the lookup of graphs by their ids.
use zk_libcod.Prelude.{
  List, true, not, ◌⊎◌, ℕ, suc, ◌<◌, ◌≡◌, ◌≢◌, refl, subst, false, [], ◌∷◌, ◌++◌, none, some,
  length, erase_at, All, Bool-cases, Option-cases, inl, inr,
}
use zk_libcod.Prelude.Int.{ℤ, pos, eqb_ℤ, eqb_ℤ→eq, eqb_ℤ_refl, leb_ℤ}
use zk_libcod.Float.{FloatOps}
use zk_libcod.Script.{
  Value, push_undefined, integer, push_int, optional_int, stack_get_params, stack_get_params_from,
  stack_get_param_int,
}
use zk_libcod.Graph.{Graphs, AStarGraph, Dvars, graph_by_id}
use zk_libcod.Graph.Reply.{
  Reply, refuse, bad_type, graph_limit, answer, ◌>>=◌, ◌>>◌, or_return, return_if, settle,
}
use zk_libcod.Graph.World.{IsWorld}
use zk_libcod.Graph.Registry.Ids.{HasDistinctIds, IsFree, lowest_free_id_lem}
use zk_libcod.Graph.Registry.{gsc_graph_create, gsc_graph_remove}

module _ {F : Type 0} ⦃fl : FloatOps F⦄ where
  none_with : (gs : Graphs F) (id : ℤ) → All (λ g. pos g.id ≢ id) gs → graph_by_id gs id ≡ none
  unfolding graph_by_id
  none_with [] id all = refl
  none_with (g ∷ gs) id all = elim (Bool-cases (eqb_ℤ (pos g.id) id)) [
    | inl hit ↦ absurd (all.0 (eqb_ℤ→eq (pos g.id) id hit))
    | inr miss ↦ simp (miss, none_with gs id all.1) refl
  ]

  -- Once the graph that is found is erased, none has the id.
  graph_by_id-erase_at :
      (gs : Graphs F) (id : ℤ) (i : ℕ)
      → HasDistinctIds gs
      → graph_by_id gs id ≡ some i
      → graph_by_id (erase_at gs i) id ≡ none
  unfolding graph_by_id
  graph_by_id-erase_at [] id i d found = cc
  graph_by_id-erase_at (g ∷ gs) id i d found = elim (Bool-cases (eqb_ℤ (pos g.id) id)) [
    | inl hit ↦
        let first : some 0 ≡ some i = rw hit at found in
        let zeroth : i ≡ 0 = cc in
        rw zeroth (
          none_with gs id
            (subst (λ x. All (λ h. pos h.id ≢ x) gs) (eqb_ℤ→eq (pos g.id) id hit) d.0))
    | inr miss ↦ elim (Option-cases (graph_by_id gs id)) [
      | inl nowhere ↦ cc (rw (miss, nowhere) at found)
      | inr (j, there) ↦
          let later : some (suc j) ≡ some i = rw (miss, there) at found in
          let next : i ≡ suc j = cc in
          let ih = graph_by_id-erase_at gs id j d.1 there in rw next (simp (miss, ih) refl)
    ]
  ]

  -- Where the graphs satisfy the invariant, which has their ids distinct, no graph has an id after graphRemove with
  -- that id as its parameter, whether there was one or not.
  pub graph_by_id-gsc_graph_remove :
      (gs : Graphs F) (id : ℤ)
      → IsWorld gs
      → graph_by_id (gsc_graph_remove gs (integer id ∷ [])).0 id ≡ none
  unfolding gsc_graph_remove settle ◌>>=◌ or_return stack_get_params stack_get_params_from
      stack_get_param_int
  graph_by_id-gsc_graph_remove gs id world = elim (Option-cases (graph_by_id gs id)) [
    | inl nowhere ↦ simp nowhere refl
    | inr (i, found) ↦ simp found (graph_by_id-erase_at gs id i world.distinct found)
  ]

  graph_by_id-append :
      (gs : Graphs F) (g : AStarGraph F)
      → graph_by_id gs (pos g.id) ≡ none
      → graph_by_id (gs ++ g ∷ []) (pos g.id) ≡ some (length gs)
  unfolding graph_by_id
  graph_by_id-append [] g free = simp (eqb_ℤ_refl (pos g.id)) refl
  graph_by_id-append (h ∷ gs) g free = elim (Bool-cases (eqb_ℤ (pos h.id) (pos g.id))) [
    | inl hit ↦ cc (rw hit at free)
    | inr miss ↦ elim (Option-cases (graph_by_id gs (pos g.id))) [
      | inl nowhere ↦ let ih = graph_by_id-append gs g nowhere in simp (miss, ih) refl
      | inr (j, there) ↦ cc (rw (miss, there) at free)
    ]
  ]

  -- What graphCreate comes to, by its parameters and the number of graphs.
  pub data Creates (dvars : Dvars F) (gs : Graphs F) (args : List (Value F))
      : Graphs F × Reply F → Type 0 where
    ill_typed :
        (optional_int args 0 (pos 0) ≡ none) ⊎ (optional_int args 1 (pos 0) ≡ none)
        → Creates dvars gs args (gs, refuse bad_type push_undefined)
    full :
        (persist reserve : ℤ)
        → optional_int args 0 (pos 0) ≡ some persist
        → optional_int args 1 (pos 0) ≡ some reserve
        → leb_ℤ dvars.max_graphs (pos (length gs)) ≡ true
        → Creates dvars gs args (gs, refuse graph_limit push_undefined)
    made :
        (persist reserve : ℤ) (graph : AStarGraph F)
        → optional_int args 0 (pos 0) ≡ some persist
        → optional_int args 1 (pos 0) ≡ some reserve
        → leb_ℤ dvars.max_graphs (pos (length gs)) ≡ false
        → IsFree gs graph.id
        → ((k : ℕ) → k < graph.id → ¬ IsFree gs k)
        → graph.persist ≡ not (eqb_ℤ persist (pos 0))
        → graph.nodes ≡ []
        → graph_by_id (gs ++ graph ∷ []) (pos graph.id) ≡ some (length gs)
        → Creates dvars gs args (gs ++ graph ∷ [], answer (push_int (pos graph.id)))

  -- Whatever its parameters are, graphCreate does one of three things. Where one of its two optional parameters is
  -- given and has the wrong type, or where the limit of graphs is reached, it leaves the graphs as they were and
  -- answers undefined with the error. Otherwise it adds an empty graph at the end, answers its id, which is the lowest
  -- that no graph has and by which the new graph is found there, and keeps whether the first parameter is not zero
  -- as the flag of the graph to persist.
  pub gsc_graph_create-Creates :
      (dvars : Dvars F) (gs : Graphs F) (args : List (Value F))
      → Creates dvars gs args (gsc_graph_create dvars gs args)
  unfolding gsc_graph_create settle ◌>>=◌ ◌>>◌ or_return return_if
  gsc_graph_create-Creates dvars gs args =
      let (free, lowest) = lowest_free_id_lem gs in
      elim (Option-cases (optional_int args 0 (pos 0))) [
        | inl bad ↦ rw bad (ill_typed (inl bad))
        | inr (persist, good) ↦ elim (Option-cases (optional_int args 1 (pos 0))) [
          | inl bad ↦ rw (good, bad) (ill_typed (inr bad))
          | inr (reserve, fine) ↦ elim (Bool-cases (leb_ℤ dvars.max_graphs (pos (length gs)))) [
            | inl limit ↦ rw (good, fine, limit) (full persist reserve good fine limit)
            | inr room ↦
                rw (good, fine, room)
                  (made persist reserve _ good fine room free lowest refl refl
                    (graph_by_id-append gs _ free))
          ]
        ]
      ]
