-- ===== src/Graph/Reply.antt =====
-- How a function of the script interface ends: it pushes an answer, or calls stackError and pushes
-- what stands for failure. Every early return of the functions leaves the graphs as they were.
use zk_libcod.Prelude.{Option, none, some, Bool, true, false, ◌≡◌, refl}
use zk_libcod.Script.{Answer}
use zk_libcod.Graph.{Graphs}

-- One for each message that the functions give to stackError.
pub data GraphError : Type 0 where
  bad_parameters bad_type no_such_graph out_of_range removed_node self_edge out_of_sequence :
      GraphError
  node_limit graph_limit value_limit negative_cost negative_radius : GraphError
  path_too_long out_of_memory cannot_open too_small short_read bad_magic bad_version : GraphError
  node_cap edge_claim size_mismatch bad_checksum edge_out_of_range edge_at_removed : GraphError

pub data Reply (F : Type 0) : Type 0 where
  answer : Answer F → Reply F
  refuse : GraphError → Answer F → Reply F

-- The body of a function: it goes on with a value, or it has returned.
pub data Body (F : Type 0) (A : Type 0) : Type 0 where
  go_on : A → Body F A
  return : Reply F → Body F A

module _ {F : Type 0} where
  infixl 5 ◌>>=◌ ◌>>◌
  unfoldable pub ◌>>=◌ : {A B : Type 0} → Body F A → (A → Body F B) → Body F B
  go_on a >>= f = f a
  return r >>= f = return r

  unfoldable pub ◌>>◌ : {B : Type 0} → Body F (Unit {0}) → Body F B → Body F B
  unfolding ◌>>=◌
  m >> k = m >>= λ _. k

  unfoldable pub or_return : {A : Type 0} → Option A → Reply F → Body F A
  or_return (some a) r = go_on a
  or_return none r = return r

  unfoldable pub return_if : Bool → Reply F → Body F (Unit {0})
  return_if true r = return r
  return_if false r = go_on tt

  -- A body that comes to its end gives the new graphs and what it pushes.
  unfoldable pub settle : Graphs F → Body F (Graphs F × Reply F) → Graphs F × Reply F
  settle gs (go_on done) = done
  settle gs (return r) = (gs, r)

  -- The graphs that a body leaves, if it comes to its end, satisfy `P`.
  pub data Keeps (P : Graphs F → Type 0) : Body F (Graphs F × Reply F) → Type 0 where
    ends : (gs : Graphs F) (r : Reply F) → P gs → Keeps P (go_on (gs, r))
    returns : (r : Reply F) → Keeps P (return r)

  module _ (P : Graphs F → Type 0) where
    pub after_or_return :
        {A : Type 0} (o : Option A) (r : Reply F) (f : A → Body F (Graphs F × Reply F))
        → ((a : A) → o ≡ some a → Keeps P (f a))
        → Keeps P (or_return o r >>= f)
    unfolding ◌>>=◌ or_return
    after_or_return none r f k = returns r
    after_or_return (some a) r f k = k a refl

    pub after_return_if :
        (b : Bool) (r : Reply F) (m : Body F (Graphs F × Reply F))
        → (b ≡ false → Keeps P m)
        → Keeps P (return_if b r >> m)
    unfolding ◌>>◌ return_if
    after_return_if true r m k = returns r
    after_return_if false r m k = k refl

    -- An early return leaves the graphs as they were.
    pub settle-Keeps :
        (gs : Graphs F) (m : Body F (Graphs F × Reply F)) → P gs → Keeps P m → P (settle gs m).0
    unfolding settle
    settle-Keeps gs (go_on done) h (ends gs' r k) = k
    settle-Keeps gs (return r) h k = h
