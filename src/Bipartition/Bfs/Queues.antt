-- ===== src/Bipartition/Bfs/Queues.antt =====
-- What the queue of one block holds: the nodes that are marked for the block and not assigned yet.
use ka_min_par.Prelude.{
  ℕ, suc, ◌+◌, ◌≤◌, ◌<◌, ◌≡◌, refl, sym, ◌∙◌, ap, inl, inr, Bool, true, false, ◌||◌, some, arith,
  ltb, ◌==◌, ==_refl, if◌then◌else◌, Bool-cases, length, get_or, set, length-set, get_or-set_self,
  get_or-set_ne,
}
use ka_min_par.Prelude.Sums.{
  sum_below, sum_below_update, sum_below_one, sum_below_mono, sum_below_congr,
}
use ka_min_par.Queue.{Queue, empty, front, pop_head, push_tail}

-- The number of nodes that pass a test.
abbrev pub count_below : ℕ → (ℕ → Bool) → ℕ
count_below n test = sum_below n (λ u. if test u then 1 else 0)

abbrev pub Queued : Queue ℕ → ℕ → Type 0
Queued q u = (i : ℕ) × (q.head ≤ i) × (i < q.tail) × (get_or q.cells i 0 ≡ u)

-- For `n` nodes: no node was pushed twice, there is room for each, the queue holds nodes, and those
-- that are marked for the block wait in it until they are assigned.
pub record IsFrontier (n : ℕ) (q : Queue ℕ) (marked assigned : ℕ → Bool) : Type 0 where
  pub ordered : q.head ≤ q.tail
  pub room : n ≤ length q.cells
  pub counted : q.tail ≤ count_below n marked
  pub nodes :
      (i : ℕ)
      → q.head ≤ i
      → i < q.tail
      → (get_or q.cells i 0 < n) × (marked (get_or q.cells i 0) ≡ true)
  pub waiting : (u : ℕ) → u < n → marked u ≡ true → assigned u ≡ false → Queued q u

pub count-le : (n : ℕ) (test : ℕ → Bool) → count_below n test ≤ n
count-le n test = omega (
  arith,
  sum_below_mono n (λ u. if test u then 1 else 0) (λ _. 1) (λ i p. ground arith),
  sum_below_one n,
)

-- One more node passes.
count_more :
    (n : ℕ) (test more : ℕ → Bool) (u : ℕ)
    → u < n
    → test u ≡ false
    → ((x : ℕ) → more x ≡ ((u == x) || test x))
    → count_below n more ≡ suc (count_below n test)
count_more n test more u h free e =
    let update =
      sum_below_update n (λ x. if more x then 1 else 0) (λ x. if test x then 1 else 0) u h
        (λ x p other. ground (arith, e x)) in
    let now : more u ≡ true = e u ∙ ground arith in
    let indicator : Bool → ℕ = λ b. if b then 1 else 0 in
    omega (arith, update, ap indicator free, ap indicator now)

module _ (n : ℕ) (q : Queue ℕ) (marked assigned : ℕ → Bool)
    (v : IsFrontier n q marked assigned) where
  -- A node that is not marked yet has room in the queue.
  pub push_tail-IsFrontier :
      (u : ℕ) (more : ℕ → Bool)
      → u < n
      → marked u ≡ false
      → ((x : ℕ) → more x ≡ ((u == x) || marked x))
      → (r : Queue ℕ) × (push_tail 0 q u ≡ some r)
        × IsFrontier n r more assigned
        × (r.head ≡ q.head)
        × (r.head < r.tail)
        × (r.tail ≡ suc q.tail)
  unfolding push_tail
  push_tail-IsFrontier u more h free e =
      let grown = count_more n marked more u h free e in
      let small = count-le n more in
      let inside : q.tail < length q.cells = omega (arith, v.counted, v.room) in
      let fits : ltb q.tail (length q.cells) ≡ true = ground arith in
      let kept : (i : ℕ) → i < q.tail → get_or (set q.cells q.tail u) i 0 ≡ get_or q.cells i 0 =
        λ i p. get_or-set_ne q.cells q.tail i u 0 (λ same. absurd (omega (arith, same))) in
      let last = get_or-set_self q.cells q.tail u 0 inside in
      (
        record q { cells = set q.cells q.tail u; tail = q.tail + 1 },
        rw fits refl,
        record {
          ordered = omega (arith, v.ordered);
          room = omega (arith, length-set q.cells q.tail u, v.room);
          counted = omega (arith, v.counted, grown);
          nodes = λ i p r. elim (Bool-cases (i == q.tail)) [
            | inl here ↦
                let same : i ≡ q.tail = ground arith in
                rw (same, last) (h, e u ∙ rw (==_refl u) refl)
            | inr before ↦
                let smaller : i < q.tail = ground arith in
                let (node, marked_) = v.nodes i p smaller in
                rw (kept i smaller) (node, e (get_or q.cells i 0) ∙ rw marked_ (ground arith))
          ];
          waiting = λ x p m a. elim (Bool-cases (u == x)) [
            | inl here ↦
                let same : u ≡ x = ground arith in (q.tail, v.ordered, omega arith, last ∙ same)
            | inr other ↦
                let old : marked x ≡ true = sym (e x ∙ rw other refl) ∙ m in
                let (i, low, high, found) = v.waiting x p old a in
                (i, low, omega arith, kept i high ∙ found)
          ];
        },
        refl,
        omega (arith, v.ordered),
        omega arith,
      )

  -- The first node of a queue that is not empty leaves it, and no other node waits less: if the
  -- node is assigned by then, the rest of the queue is as before.
  pub pop_head-IsFrontier :
      empty 0 q ≡ false
      → (r : Queue ℕ) × (u : ℕ) × (front 0 q ≡ some u)
        × (pop_head 0 q ≡ some r)
        × (u < n)
        × (marked u ≡ true)
        × (r.head ≡ suc q.head)
        × (r.tail ≡ q.tail)
        × ((more : ℕ → Bool)
            → more u ≡ true
            → ((x : ℕ) → more x ≡ false → assigned x ≡ false)
            → IsFrontier n r marked more)
  unfolding front pop_head
  pop_head-IsFrontier h =
      let some_left : q.head < q.tail = ground (arith, v.ordered) in
      let fits : ltb q.head q.tail ≡ true = ground arith in
      let u = get_or q.cells q.head 0 in
      (
        record q { head = q.head + 1 },
        u,
        rw h refl,
        rw fits refl,
        (v.nodes q.head (omega arith) some_left).0,
        (v.nodes q.head (omega arith) some_left).1,
        omega arith,
        refl,
        λ more done grows. record {
          ordered = omega arith;
          room = v.room;
          counted = v.counted;
          nodes = λ i p r. v.nodes i (omega arith) r;
          waiting = λ x p m a.
              let (i, low, high, found) = v.waiting x p m (grows x a) in
              elim (Bool-cases (i == q.head)) [
                | inl here ↦
                    let same : i ≡ q.head = ground arith in
                    let this : x ≡ u = sym found ∙ ap (λ j. get_or q.cells j 0) same in
                    let no_ : more x ≡ true = rw this done in absurd cc
                | inr other ↦ (i, ground arith, high, found)
              ];
        },
      )

  -- The marks may be told in another way, and more nodes be assigned.
  pub IsFrontier-congr :
      (same_marked more : ℕ → Bool)
      → ((x : ℕ) → same_marked x ≡ marked x)
      → ((x : ℕ) → more x ≡ false → assigned x ≡ false)
      → IsFrontier n q same_marked more
  IsFrontier-congr same_marked more e grows = record {
    ordered = v.ordered;
    room = v.room;
    counted = omega (
      arith,
      v.counted,
      sum_below_congr n (λ u. if marked u then 1 else 0) (λ u. if same_marked u then 1 else 0)
          (λ u p. rw (e u) refl),
    );
    nodes = λ i p r. ((v.nodes i p r).0, e (get_or q.cells i 0) ∙ (v.nodes i p r).1);
    waiting = λ u p m a. v.waiting u p (sym (e u) ∙ m) (grows u a);
  }
