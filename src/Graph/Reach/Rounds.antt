-- ===== src/Graph/Reach/Rounds.antt =====
-- A breadth-first walk visits the nodes that can be reached, and ends.
use mathlib.Core.List.{Memᴰ}
use mathlib.Core.List.Memᴰ
use zk_libcod.Prelude.{
  ℕ, zero, suc, ◌+◌, ◌<◌, ◌≤◌, ◌≡◌, ◌↔◌, inl, inr, refl, sym, subst, ap, Bool, true, false, List,
  [], ◌∷◌, ◌++◌, arith, length, get_or, set, replicate, length-set, length-append, length-replicate,
  get_or-set, get_or-replicate, get_or-append, ltb, ◌==◌, ==_iff, Bool-cases, if◌then◌else◌, ◌∙◌,
}
use zk_libcod.Prelude.Members.{memᴰ_snoc, snoc_last, snoc_old, mem_index, member_at}
use zk_libcod.Graph.Reach.{Walk, is_visited, visit, visit_all, walk_rounds, walk_from}

-- The flags that are still false.
unseen : List Bool → ℕ
unseen [] = 0
unseen (b ∷ bs) = (if b then 0 else 1) + unseen bs

unseen-set :
    (bs : List Bool) (i : ℕ)
    → i < length bs
    → get_or bs i false ≡ false
    → suc (unseen (set bs i true)) ≡ unseen bs
unfolding unseen
unseen-set [] i h e = elim h [ ]
unseen-set (b ∷ bs) zero h e = rw e (omega arith)
unseen-set (b ∷ bs) (suc i) h e = omega (arith, unseen-set bs i (omega arith) e)

unseen-replicate : (n : ℕ) → unseen (replicate n false) ≡ n
unfolding unseen
unseen-replicate zero = refl
unseen-replicate (suc n) = omega (arith, unseen-replicate n)

module _ (next : ℕ → List ℕ) (start : ℕ) where
  -- The nodes that can be reached.
  pub data Reached : ℕ → Type 0 where
    origin : Reached start
    onward : {u : ℕ} (v : ℕ) → Reached u → Memᴰ v (next u) → Reached v

module _ (next : ℕ → List ℕ) (start n : ℕ) (closed_in : (u v : ℕ) → Memᴰ v (next u) → v < n) where
  record Inv (w : Walk) : Type 0 where
    size : length w.visited ≡ n
    slots : unseen w.visited + length w.queue ≡ n
    queued : (v : ℕ) → Memᴰ v w.queue → is_visited w v ≡ true
    marked : (v : ℕ) → is_visited w v ≡ true → Memᴰ v w.queue
    sound : (v : ℕ) → is_visited w v ≡ true → Reached next start v
    source : is_visited w start ≡ true

  -- A later state has more flags, and the queue at the front as it was.
  record Grows (w w' : Walk) : Type 0 where
    flags : (v : ℕ) → is_visited w v ≡ true → is_visited w' v ≡ true
    longer : length w.queue ≤ length w'.queue
    front : (i : ℕ) → i < length w.queue → get_or w'.queue i 0 ≡ get_or w.queue i 0

  Grows-refl : (w : Walk) → Grows w w
  Grows-refl w = record { flags = λ v h. h; longer = omega arith; front = λ i h. refl }

  Grows-trans : (a b c : Walk) → Grows a b → Grows b c → Grows a c
  Grows-trans a b c p q = record {
    flags = λ v h. q.flags v (p.flags v h);
    longer = omega (arith, p.longer, q.longer);
    front = λ i h. q.front i (omega (arith, p.longer)) ∙ p.front i h;
  }

  record Visits (v : ℕ) (w w' : Walk) : Type 0 where
    inv : Inv w'
    grows : Grows w w'
    done : is_visited w' v ≡ true

  visit-Visits : (v : ℕ) (w : Walk) → Inv w → v < n → Reached next start v → Visits v w (visit v w)
  unfolding visit
  visit-Visits v w inv inside way = elim (Bool-cases (is_visited w v)) [
    | inl seen ↦ rw seen (record { inv = inv; grows = Grows-refl w; done = seen })
    | inr fresh ↦
        let w' : Walk = record { visited = set w.visited v true; queue = w.queue ++ v ∷ [] } in
        let flag = λ (u : ℕ). get_or-set w.visited v u true false (rw inv.size inside) in
        rw fresh (record {
          inv = record {
            size = rw length-set inv.size;
            slots = omega (
              arith,
              unseen-set w.visited v (rw inv.size inside) fresh,
              length-append w.queue (v ∷ []),
              inv.slots,
            );
            queued = λ u m. elim (memᴰ_snoc u v w.queue m) [
              | inl old ↦ ground (arith, flag u, inv.queued u old)
              | inr new ↦ ground (arith, flag u)
            ];
            marked = λ u h. elim (Bool-cases (v == u)) [
              | inl here ↦
                  subst (λ x. Memᴰ x (w.queue ++ v ∷ [])) ((==_iff v u).0 here)
                    (snoc_last v w.queue)
              | inr away ↦ snoc_old u v (inv.marked u (ground (arith, flag u)))
            ];
            sound = λ u h. elim (Bool-cases (v == u)) [
              | inl here ↦ subst (Reached next start) ((==_iff v u).0 here) way
              | inr away ↦ inv.sound u (ground (arith, flag u))
            ];
            source = ground (arith, flag start, inv.source);
          };
          grows = record {
            flags = λ u h. ground (arith, flag u);
            longer = omega (arith, length-append w.queue (v ∷ []));
            front = λ i h. get_or-append w.queue (v ∷ []) i 0 h;
          };
          done = ground (arith, flag v);
        })
  ]

  record VisitsAll (vs : List ℕ) (w w' : Walk) : Type 0 where
    inv : Inv w'
    grows : Grows w w'
    done : (v : ℕ) → Memᴰ v vs → is_visited w' v ≡ true

  visit_all-VisitsAll :
      (vs : List ℕ) (w : Walk)
      → Inv w
      → ((v : ℕ) → Memᴰ v vs → (v < n) × Reached next start v)
      → VisitsAll vs w (visit_all vs w)
  unfolding visit_all
  visit_all-VisitsAll [] w inv good = record {
    inv = inv;
    grows = Grows-refl w;
    done = λ v m. absurd (Memᴰ.not-nil m);
  }
  visit_all-VisitsAll (v ∷ vs) w inv good =
      let (inside, way) = good v (Memᴰ.head refl) in
      let first = visit-Visits v w inv inside way in
      let rest = visit_all-VisitsAll vs (visit v w) first.inv (λ u m. good u (Memᴰ.tail m)) in
      record {
        inv = rest.inv;
        grows = Grows-trans w (visit v w) _ first.grows rest.grows;
        done = λ u m. elim (Memᴰ.cases_cons m) [
          | inl same ↦ rw same (rest.grows.flags v first.done)
          | inr later ↦ rest.done u later
        ];
      }

  -- The neighbours of what stands before `head` are visited.
  Explored : ℕ → Walk → Type 0
  Explored head w =
      (i : ℕ) → i < head → (v : ℕ) → Memᴰ v (next (get_or w.queue i 0)) → is_visited w v ≡ true

  record Ended (w : Walk) : Type 0 where
    inv : Inv w
    explored : Explored (length w.queue) w

  walk_rounds-Ended :
      (rounds head : ℕ) (w : Walk)
      → Inv w
      → Explored head w
      → head ≤ length w.queue
      → n ≤ head + rounds
      → Ended (walk_rounds rounds next head w)
  unfolding walk_rounds Explored
  walk_rounds-Ended zero head w inv explored before enough = record {
    inv = inv;
    explored = λ i h. explored i (omega (arith, inv.slots));
  }
  walk_rounds-Ended (suc rounds) head w inv explored before enough =
      elim (Bool-cases (ltb head (length w.queue))) [
        | inr over ↦ rw over (record { inv = inv; explored = λ i h. explored i (ground arith) })
        | inl more ↦
            let inside : head < length w.queue = ground arith in
            let cur = get_or w.queue head 0 in
            let way = inv.sound cur (inv.queued cur (member_at w.queue head 0 inside)) in
            let step =
              visit_all-VisitsAll (next cur) w inv (λ v m. (closed_in cur v m, onward v way m)) in
            let w' = visit_all (next cur) w in
            let further : Explored (suc head) w' = λ i h v m. elim (Bool-cases (i == head)) [
              | inl last ↦
                  let last_one : i ≡ head = (==_iff i head).0 last in
                  let same : get_or w'.queue i 0 ≡ cur =
                    ap (λ k. get_or w'.queue k 0) last_one ∙ step.grows.front head inside in
                  step.done v (subst (λ x. Memᴰ v (next x)) same m)
              | inr old ↦
                  let below : i < head = ground arith in
                  let same : get_or w'.queue i 0 ≡ get_or w.queue i 0 =
                    step.grows.front i (omega arith) in
                  step.grows.flags v (explored i below v (subst (λ x. Memᴰ v (next x)) same m))
            ] in
            rw more (
              walk_rounds-Ended rounds (suc head) w' step.inv further
                (omega (arith, step.grows.longer)) (omega arith))
      ]

  Reached-is_visited : (w : Walk) → Ended w → (v : ℕ) → Reached next start v → is_visited w v ≡ true
  unfolding Explored
  Reached-is_visited w ended v origin = ended.inv.source
  Reached-is_visited w ended v (onward {u = u} v' way m) =
      let member = ended.inv.marked u (Reached-is_visited w ended u way) in
      let (i, inside, same) = mem_index u 0 member in
      ended.explored i inside v' (subst (λ x. Memᴰ v' (next x)) (sym same) m)

  -- The walk ends with every node queued that can be reached, and no other.
  pub walk_from_iff : start < n → (v : ℕ) → Memᴰ v (walk_from n next start) ↔ Reached next start v
  unfolding walk_from Explored
  walk_from_iff inside v =
      let w : Walk = record { visited = set (replicate n false) start true; queue = start ∷ [] } in
      let room : start < length (replicate n false) = rw length-replicate inside in
      let flag = λ (u : ℕ). get_or-set (replicate n false) start u true false room in
      let blank = λ (u : ℕ). get_or-replicate n u false in
      let inv : Inv w = record {
        size = rw length-set (length-replicate n false);
        slots =
            omega
              (arith, unseen-set (replicate n false) start room (blank start), unseen-replicate n);
        queued = λ u m. rw (Memᴰ.eq_of_singleton m) (ground (arith, flag start));
        marked = λ u h. elim (Bool-cases (start == u)) [
          | inl here ↦ Memᴰ.head (sym ((==_iff start u).0 here))
          | inr away ↦ absurd (ground (arith, flag u, blank u))
        ];
        sound = λ u h. elim (Bool-cases (start == u)) [
          | inl here ↦ subst (Reached next start) ((==_iff start u).0 here) origin
          | inr away ↦ absurd (ground (arith, flag u, blank u))
        ];
        source = ground (arith, flag start);
      } in
      let ended = walk_rounds-Ended n 0 w inv (λ i h. elim h [ ]) (omega arith) (omega arith) in
      let last = walk_rounds n next 0 w in
      (
        λ m. ended.inv.sound v (ended.inv.queued v m),
        λ way. ended.inv.marked v (Reached-is_visited last ended v way),
      )
