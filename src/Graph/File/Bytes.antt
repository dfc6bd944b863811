-- ===== src/Graph/File/Bytes.antt =====
-- Numbers, nodes and edges as bytes, in code/gsc_graph.cpp: what is written is read back.
use zk_libcod.Prelude.{
  ℕ, zero, suc, ◌-◌, ◌/◌, ◌%◌, ◌^◌, ◌<◌, ◌≡◌, refl, ap, ◌∙◌, Bool, true, false, not, List, [], ◌∷◌,
  ◌++◌, arith, drop, if◌then◌else◌, ◌==◌, ltb,
}
use zk_libcod.Prelude.Int.{ℤ, pos, negsuc, signed32}
use zk_libcod.Graph.{GraphNode, GraphEdge, u32, to_unsigned}
use zk_libcod.Graph.File.{
  FloatBits, number, bytes_of, node_bytes, edge_bytes, read_node, read_edge, graph_crc32,
}

pub number-bytes_of :
    (k n : ℕ) (after : List ℕ) → n < 256 ^ k → number k (bytes_of k n ++ after) ≡ n
unfolding number bytes_of
number-bytes_of zero n after h = omega arith
number-bytes_of (suc k) n after h =
    let step = number-bytes_of k (n / 256) after (omega arith) in rw step (omega arith)

-- The check value of this CRC.
check_value : graph_crc32 (49 ∷ 50 ∷ 51 ∷ 52 ∷ 53 ∷ 54 ∷ 55 ∷ 56 ∷ 57 ∷ []) ≡ 3421780262
unfolding graph_crc32
check_value = refl

pub graph_crc32-bound : (bytes : List ℕ) → graph_crc32 bytes < u32
unfolding graph_crc32
graph_crc32-bound bytes = omega arith

-- An `int`.
abbrev pub IsInt : ℤ → Type 0
IsInt (pos n) = n < 2 ^ 31
IsInt (negsuc n) = n < 2 ^ 31

pub signed32-to_unsigned : (z : ℤ) → IsInt z → signed32 (to_unsigned z) ≡ z
signed32-to_unsigned (pos n) h =
    let small : n % 2 ^ 32 ≡ n = omega arith in
    let low : ltb n (2 ^ 31) ≡ true = ground arith in rw (small, low) refl
signed32-to_unsigned (negsuc n) h =
    let small : (u32 - 1 - n) % 2 ^ 32 ≡ u32 - 1 - n = omega arith in
    let high : ltb (u32 - 1 - n) (2 ^ 31) ≡ false = ground arith in
    let back : 2 ^ 32 - 1 - (u32 - 1 - n) ≡ n = omega arith in rw (small, high, back) refl

to_unsigned-bound : (z : ℤ) → IsInt z → to_unsigned z < u32
to_unsigned-bound (pos n) h = omega arith
to_unsigned-bound (negsuc n) h = omega arith

-- What the bits of a float are: 32 of them, from which it is had back.
pub record BitsLaws {F : Type 0} (fb : FloatBits F) : Type 0 where
  pub bound : (a : F) → fb.bits a < u32
  pub back : (a : F) → fb.of_bits (fb.bits a) ≡ a

module _ {F : Type 0} (fb : FloatBits F) (laws : BitsLaws fb) where
  abbrev pub bare : GraphNode F → GraphNode F
  bare n = record n { edges = [] }

  float_back :
      (a : F) (after : List ℕ) → fb.of_bits (number 4 (bytes_of 4 (fb.bits a) ++ after)) ≡ a
  float_back a after =
      ap fb.of_bits (number-bytes_of 4 (fb.bits a) after (omega (arith, laws.bound a)))
      ∙ laws.back a

  int_back :
      (z : ℤ) (after : List ℕ)
      → IsInt z
      → signed32 (number 4 (bytes_of 4 (to_unsigned z) ++ after)) ≡ z
  int_back z after h =
      ap signed32 (number-bytes_of 4 (to_unsigned z) after (omega (arith, to_unsigned-bound z h)))
      ∙ signed32-to_unsigned z h

  flag_back :
      (b : Bool) (after : List ℕ)
      → not (number 4 (bytes_of 4 (if b then 1 else 0) ++ after) == 0) ≡ b
  flag_back true after = rw (number-bytes_of 4 1 after (omega arith)) refl
  flag_back false after = rw (number-bytes_of 4 0 after (omega arith)) refl

  pub read_node-node_bytes :
      (n : GraphNode F) (after : List ℕ)
      → IsInt n.type
      → read_node fb (node_bytes fb n after) ≡ bare n
  unfolding read_node node_bytes bytes_of
  read_node-node_bytes n after h =
      let all = node_bytes fb n after in
      let x : fb.of_bits (number 4 (node_bytes fb n after)) ≡ n.origin.x =
        float_back n.origin.x (drop 4 all) in
      let y : fb.of_bits (number 4 (drop 4 (node_bytes fb n after))) ≡ n.origin.y =
        float_back n.origin.y (drop 8 all) in
      let z : fb.of_bits (number 4 (drop 8 (node_bytes fb n after))) ≡ n.origin.z =
        float_back n.origin.z (drop 12 all) in
      let type : signed32 (number 4 (drop 12 (node_bytes fb n after))) ≡ n.type =
        int_back n.type (drop 16 all) h in
      let removed : not (number 4 (drop 16 (node_bytes fb n after)) == 0) ≡ n.removed =
        flag_back n.removed after in
      λ i. record {
        origin = record { x = x i; y = y i; z = z i };
        type = type i;
        removed = removed i;
        edges = [];
      }

  pub drop-node_bytes : (n : GraphNode F) (after : List ℕ) → drop 20 (node_bytes fb n after) ≡ after
  unfolding node_bytes bytes_of
  drop-node_bytes n after = refl

  module _ (from : ℕ) (e : GraphEdge F) (after : List ℕ) where
    pub from-edge_bytes : from < u32 → number 4 (edge_bytes fb from e after) ≡ from
    unfolding edge_bytes
    from-edge_bytes h = number-bytes_of 4 from _ (omega arith)

    pub read_edge-edge_bytes :
        e.to < u32 → IsInt e.type → read_edge fb (edge_bytes fb from e after) ≡ e
    unfolding read_edge edge_bytes bytes_of
    read_edge-edge_bytes h k =
        let to : number 4 (drop 4 (edge_bytes fb from e after)) ≡ e.to =
          number-bytes_of 4 e.to (drop 8 (edge_bytes fb from e after)) (omega arith) in
        let type : signed32 (number 4 (drop 8 (edge_bytes fb from e after))) ≡ e.type =
          int_back e.type (drop 12 (edge_bytes fb from e after)) k in
        let cost : fb.of_bits (number 4 (drop 12 (edge_bytes fb from e after))) ≡ e.cost =
          float_back e.cost after in
        λ i. record { to = to i; type = type i; cost = cost i }

    pub drop-edge_bytes : drop 16 (edge_bytes fb from e after) ≡ after
    unfolding edge_bytes bytes_of
    drop-edge_bytes = refl
