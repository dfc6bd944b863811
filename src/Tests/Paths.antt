-- ===== src/Tests/Paths.antt =====
-- The theorems on the path search, applied to the triangle.
use mathlib.Core.List.Memᴰ
use zk_libcod.Prelude.{
  leb, inl, inr, Bool-cases, ℕ, ◌<◌, ◌≡◌, ◌↔◌, refl, true, false, List, [], ◌∷◌, arith,
}
use zk_libcod.Prelude.Int.{pos}
use zk_libcod.Script.{Value, integer}
use zk_libcod.Graph.{GraphScratch, Dvars}
use zk_libcod.Graph.Search.{Query, search}
use zk_libcod.Graph.Scratch.{scratch_begin, mark_skipped, is_closed}
use zk_libcod.Graph.FindPath.{answer_search}
use zk_libcod.Graph.Scratch.Begin.{IsBlank, scratch_begin-IsBlank}
use zk_libcod.Graph.Scratch.Marks.{Lists, mark_skipped_iff, IsReady}
use zk_libcod.Graph.Search.Paths.{IsWalked, search-IsWalked}
use zk_libcod.Graph.FindPath.Calls.{marks-IsReady}
use zk_libcod.Graph.FindPath.Answers.{Answers, answer_search-Answers}
use zk_libcod.Graph.Search.Complete.{IsExhaustive, search-IsExhaustive}
use zk_libcod.Tests.Numbers.{natural_floats, natural_laws}
use zk_libcod.Tests.Graphs.{triangle, triangle-IsValid}

scratch_begin-IsBlank_example : IsBlank 3 (scratch_begin triangle)
scratch_begin-IsBlank_example = scratch_begin-IsBlank triangle triangle-IsValid.scratch_ok

-- The array holds the id of node 1 and one that no node has.
abbrev skipped : List (Value ℕ)
skipped = integer (pos 1) ∷ integer (pos 7) ∷ []

mark_skipped_iff_example :
    (is_closed (mark_skipped triangle skipped (scratch_begin triangle)) 1 ≡ true)
    ↔ ((1 < 3) × Lists skipped 1)
mark_skipped_iff_example =
    mark_skipped_iff triangle skipped (scratch_begin triangle)
      (scratch_begin-IsBlank triangle triangle-IsValid.scratch_ok) 1

-- From node 0 to node 2.
abbrev query : Query ℕ
query = record {
  start = 0;
  goal = 2;
  skip_nodes = pos 0;
  skip_edges = pos 0;
  max_expansions = pos 0;
  weight = 1;
}

abbrev marks : GraphScratch ℕ
marks = mark_skipped triangle [] (scratch_begin triangle)

marks_ready : IsReady 3 marks
marks_ready = marks-IsReady triangle triangle-IsValid []

search-IsWalked_example :
    IsWalked triangle query marks triangle-IsValid
      (omega arith, refl)
      marks_ready
      (search triangle query marks)
search-IsWalked_example =
    search-IsWalked triangle query marks triangle-IsValid (omega arith, refl) marks_ready

-- From node 2, which has no edges, to node 0.
abbrev back_query : Query ℕ
back_query = record query { start = 2; goal = 0 }

no_negative : (n : ℕ) → leb 0 n ≡ true
no_negative n = ground arith

nothing_marked : (v : ℕ) → is_closed marks v ≡ false
nothing_marked v = elim (Bool-cases (is_closed marks v)) [
  | inr open_node ↦ open_node
  | inl closed ↦
      let blank = scratch_begin-IsBlank triangle triangle-IsValid.scratch_ok in
      let listed = ((mark_skipped_iff triangle [] (scratch_begin triangle) blank v).0 closed).1 in
      absurd (Memᴰ.not-nil listed.1)
]

search-IsExhaustive_example :
    IsExhaustive natural_laws triangle triangle-IsValid back_query marks
      (λ u e live m. no_negative e.cost)
      (λ v. no_negative _)
      refl
      (omega arith, refl)
      (search triangle back_query marks)
search-IsExhaustive_example =
    search-IsExhaustive natural_laws triangle triangle-IsValid back_query marks
      (λ u e live m. no_negative e.cost) (λ v. no_negative _) refl (omega arith, refl) marks_ready
      (nothing_marked 2)

abbrev dvars : Dvars ℕ
dvars = record { max_nodes = pos 10; max_graphs = pos 4; max_iterations = pos 0; weight = 1 }

answer_search-Answers_example :
    Answers natural_laws dvars triangle query marks triangle-IsValid
      (omega arith, refl)
      marks_ready
      (λ u e live m. no_negative e.cost)
      (λ v. no_negative _)
      (nothing_marked 0)
      (answer_search dvars triangle query 5 marks).1
answer_search-Answers_example =
    answer_search-Answers natural_laws dvars triangle query marks triangle-IsValid
      (omega arith, refl) marks_ready (λ u e live m. no_negative e.cost) (λ v. no_negative _)
      (nothing_marked 0) 5
