-- ===== src/Tests/Files.antt =====
-- The theorems on files, applied to a small graph.
use zk_libcod.Prelude.{
  ℕ, ◌^◌, ◌<◌, ◌≡◌, refl, Bool, true, false, not, ◌&&◌, ◌||◌, List, [], ◌∷◌, if◌then◌else◌, length,
  arith, ◌==◌,
}
use zk_libcod.Prelude.Int.{pos, pos_part}
use zk_libcod.Float.{FloatOps}
use zk_libcod.Script.{Vec3, integer, string, push_bool, push_int}
use zk_libcod.Graph.{AStarGraph, Dvars, graph_by_id, no_stats, no_scratch}
use zk_libcod.Graph.Reply.{answer}
use zk_libcod.Graph.Wellformed.{IsValid, total, no_scratch-IsScratch}
use zk_libcod.Graph.Registry.{lowest_free_id}
use zk_libcod.Graph.File.{
  FloatBits, FileSystem, file_bytes, file_size, load_buffer, gsc_graph_load, gsc_graph_save,
}
use zk_libcod.Graph.File.Bytes.{BitsLaws}
use zk_libcod.Graph.File.RoundTrip.{IsSavable, reloaded, load_buffer-file_bytes}
use zk_libcod.Graph.File.Stored.{Stores, gsc_graph_load-gsc_graph_save}
use zk_libcod.Graph.File.Outcome.{IsLoad, gsc_graph_load-IsLoad}
use zk_libcod.Graph.Reply.{go_on}
use zk_libcod.Tests.Numbers.{natural_floats}

-- Floats of one bit.
instance abbrev bit_floats : FloatOps Bool
bit_floats = record {
  fzero = false;
  fadd = λ a b. a || b;
  fsub = λ a b. a && not b;
  fmul = λ a b. a && b;
  fdiv = λ a b. a;
  fsqrt = λ a. a;
  flt_max = true;
  of_int = λ n. not (pos_part n == 0);
  to_int = λ a. pos (if a then 1 else 0);
  flt = λ a b. not a && b;
  fle = λ a b. not a || b;
  feq = λ a b. (a && b) || (not a && not b);
}

abbrev bit_bits : FloatBits Bool
bit_bits = record { bits = λ a. if a then 1 else 0; of_bits = λ n. not (n == 0) }

bit_bound : (a : Bool) → bit_bits.bits a < 2 ^ 32
bit_bound true = omega arith
bit_bound false = omega arith

bit_back : (a : Bool) → bit_bits.of_bits (bit_bits.bits a) ≡ a
bit_back true = refl
bit_back false = refl

bit_laws : BitsLaws bit_bits
bit_laws = record { bound = bit_bound; back = bit_back }

abbrev bit_place : Vec3 Bool
bit_place = record { x = true; y = false; z = false }

-- Two nodes and the edge from the one to the other.
abbrev pair : AStarGraph Bool
pair = record {
  id = 3;
  persist = false;
  edge_count = 1;
  nodes =
      record {
        origin = bit_place;
        type = pos 2;
        removed = false;
        edges = record { to = 1; type = pos 1; cost = true } ∷ [];
      }
      ∷ record { origin = bit_place; type = pos 0; removed = false; edges = [] }
      ∷ [];
  stats = no_stats;
  scratch = no_scratch;
  precomputes = [];
}

pair-IsValid : IsValid pair
unfolding total
pair-IsValid = record {
  sound = (
    record { targets = ((omega arith, refl), tt); buried = λ h. cc },
    (record { targets = tt; buried = λ h. cc }, tt),
  );
  counted = refl;
  scratch_ok = no_scratch-IsScratch 2;
  cache_size = omega arith;
  fresh = tt;
}

pair-IsSavable : IsSavable bit_bits bit_laws pair
unfolding total
pair-IsSavable = record {
  node_types = (omega arith, (omega arith, tt));
  edge_types = ((omega arith, tt), (tt, tt));
  size = omega arith;
}

abbrev bit_dvars : Dvars Bool
bit_dvars = record {
  max_nodes = pos 10;
  max_graphs = pos 4;
  max_iterations = pos 100;
  weight = true;
}

load_buffer-file_bytes_example :
    load_buffer bit_bits bit_dvars (pair ∷ []) true (file_size 2 1) (file_bytes bit_bits pair)
    ≡ go_on (
      pair ∷ reloaded bit_bits bit_laws (lowest_free_id (pair ∷ [])) true pair ∷ [],
      answer (push_int (pos (lowest_free_id (pair ∷ [])))),
    )
load_buffer-file_bytes_example =
    load_buffer-file_bytes bit_bits bit_laws bit_dvars (pair ∷ []) true pair pair-IsValid
      pair-IsSavable (omega arith) refl

-- A file system that holds one file, whatever its path is.
abbrev cabinet : FileSystem (List ℕ)
cabinet = record {
  open_write = λ path s. (1, []);
  write = λ bytes f s. (pos (length bytes), bytes);
  open_read = λ path s. (pos (length s), 1, s);
  read = λ n f s. (s, pos (length s), s);
  close = λ f s. s;
}

-- The file that a save of the graph leaves.
gsc_graph_load-IsLoad_example :
    IsLoad bit_bits cabinet
      (λ n. true)
      bit_dvars
      (pair ∷ [])
      (string "graph.g2g" ∷ [])
      (file_bytes bit_bits pair)
      (gsc_graph_load bit_bits cabinet
        (λ n. true)
        bit_dvars
        (pair ∷ [])
        (string "graph.g2g" ∷ [])
        (file_bytes bit_bits pair)).1
gsc_graph_load-IsLoad_example =
    gsc_graph_load-IsLoad bit_bits cabinet (λ n. true) bit_dvars (pair ∷ [])
      (string "graph.g2g" ∷ []) (file_bytes bit_bits pair)

cabinet-Stores : Stores bit_bits bit_laws pair pair-IsValid pair-IsSavable cabinet "graph.g2g" []
cabinet-Stores = record { opens = refl; takes = refl; found = refl; gives = refl; all_given = refl }

gsc_graph_load-gsc_graph_save_example :
    let (after, reply) =
      gsc_graph_save bit_bits cabinet
        (λ n. true)
        (pair ∷ [])
        (integer (pos 3) ∷ string "graph.g2g" ∷ [])
        [] in
    (reply ≡ answer (push_bool true))
    × ((gsc_graph_load bit_bits cabinet
          (λ n. true)
          bit_dvars
          (pair ∷ [])
          (string "graph.g2g" ∷ [])
          after).1
        ≡ (
          pair ∷ reloaded bit_bits bit_laws (lowest_free_id (pair ∷ [])) false pair ∷ [],
          answer (push_int (pos (lowest_free_id (pair ∷ [])))),
        ))
unfolding graph_by_id
gsc_graph_load-gsc_graph_save_example =
    gsc_graph_load-gsc_graph_save bit_bits bit_laws cabinet (λ n. true) "graph.g2g" refl bit_dvars
      (pair ∷ []) (pos 3) 0 [] refl pair-IsValid pair-IsSavable refl cabinet-Stores (omega arith)
      refl
