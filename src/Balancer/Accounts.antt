-- ===== src/Balancer/Accounts.antt =====
-- Every step of a thread keeps the accounts of the block weights.
use ka_min_par.Prelude.{
  ℕ, ◌+◌, ◌-◌, ◌≤◌, ◌<◌, ◌≡◌, ◌≢◌, refl, sym, ◌∙◌, ap, inl, inr, true, false, List, arith, ◌==◌,
  ==_refl, if◌then◌else◌, Bool-cases, length, get_or, set, length-set, get_or-set,
}
use ka_min_par.Prelude.Sums.{sum_below, sum_below_update, sum_below_le}
use ka_min_par.Graph.{n, node_weight}
use ka_min_par.Partition.{block, block_weight, invalid_block_id}
use ka_min_par.Balancer.{with_weight_added, with_weight_removed}
use ka_min_par.Balancer.Steps.{
  Phase, Balancing, with_phase, node_of, target_of, is_idle, incoming, outgoing, IsBalancing,
}

module _ (s : Balancing) (v : IsBalancing s) where
  abbrev pub weigh : ℕ → ℕ
  weigh = node_weight s.p.graph

  -- The incoming weight of a block when one thread changes its phase.
  incoming_changed :
      (from : ℕ) (phase : Phase) (b : ℕ)
      → from < s.p.k
      → sum_below s.p.k (λ f. incoming weigh (with_phase s.phases from phase f) b)
          + incoming weigh (s.phases from) b
        ≡ sum_below s.p.k (λ f. incoming weigh (s.phases f) b) + incoming weigh phase b
  incoming_changed from phase b h =
      let at : incoming weigh (with_phase s.phases from phase from) b ≡ incoming weigh phase b =
        ap (λ x. incoming weigh (if x then phase else s.phases from) b) (==_refl from) in
      omega (
        arith,
        at,
        sum_below_update s.p.k (λ f. incoming weigh (with_phase s.phases from phase f) b)
            (λ f. incoming weigh (s.phases f) b) from h
            (λ f p q. (let other : (from == f) ≡ false = ground arith in rw other refl)),
      )

  -- A phase of the thread for `from` that moves a node of its block.
  abbrev pub Moves : ℕ → Phase → Type 0
  Moves from phase =
      is_idle phase ≡ false
      → (node_of phase < n s.p.graph)
        × (block s.p (node_of phase) ≡ from)
        × (target_of phase < s.p.k)
        × (target_of phase ≢ from)

  own_phase : (from : ℕ) → from < s.p.k → Moves from (s.phases from)
  own_phase from h = λ active. (
    v.nodes from h active,
    v.blocks from h active,
    v.targets from h active,
    v.others from h active,
  )

  -- A thread changes its phase, the weights change along, and no node changes its block.
  kept :
      (from : ℕ) (phase : Phase) (cells : List ℕ)
      → from < s.p.k
      → Moves from phase
      → length cells ≡ s.p.k
      → ((b : ℕ)
          → b < s.p.k
          → get_or cells b 0
              + (if from == b then outgoing weigh phase else outgoing weigh (s.phases b))
              + incoming weigh (s.phases from) b
            ≡ block_weight s.p b + outgoing weigh (s.phases b) + incoming weigh phase b)
      → IsBalancing (record {
        p = record s.p { block_weights = cells };
        phases = with_phase s.phases from phase;
      })
  kept from phase cells h moves sized balance =
      let new : (f : ℕ) → f < s.p.k → Moves f (with_phase s.phases from phase f) = λ f q.
        elim (Bool-cases (from == f)) [
          | inl mine ↦ (let e : from ≡ f = ground arith in rw mine (rw (← e) moves))
          | inr not_mine ↦ rw not_mine (own_phase f q)
        ] in
      record {
        cells = sized;
        sized = v.sized;
        nodes = λ f q active. (new f q active).0;
        blocks = λ f q active. (new f q active).1;
        targets = λ f q active. (new f q active).2;
        others = λ f q active. (new f q active).3;
        accounts = λ b q. elim (Bool-cases (from == b)) [
          | inl mine ↦
              let e = rw mine at (balance b q) in
              rw mine (omega (arith, e, v.accounts b q, incoming_changed from phase b h))
          | inr not_mine ↦
              let e = rw not_mine at (balance b q) in
              rw not_mine (omega (arith, e, v.accounts b q, incoming_changed from phase b h))
        ];
      }

  -- A phase without weights in progress, before and after.
  pub quiet :
      (from : ℕ) (before phase : Phase)
      → s.phases from ≡ before
      → from < s.p.k
      → Moves from phase
      → outgoing weigh before ≡ 0
      → outgoing weigh phase ≡ 0
      → ((b : ℕ) → incoming weigh before b ≡ 0)
      → ((b : ℕ) → incoming weigh phase b ≡ 0)
      → IsBalancing (record s { phases = with_phase s.phases from phase })
  quiet from before phase e h moves o o' i i' =
      kept from phase s.p.block_weights h moves v.cells (λ b q.
        (let before_out : outgoing weigh (s.phases from) ≡ 0 = ap (outgoing weigh) e ∙ o in
          let before_in : incoming weigh (s.phases from) b ≡ 0 =
            ap (λ ph. incoming weigh ph b) e ∙ i b in
          elim (Bool-cases (from == b)) [
            | inl mine ↦
                let same : from ≡ b = ground arith in
                let out_b : outgoing weigh (s.phases b) ≡ 0 =
                  ap (λ f. outgoing weigh (s.phases f)) (sym same) ∙ before_out in
                rw mine (omega (arith, out_b, o', before_in, i' b))
            | inr not_mine ↦ rw not_mine (omega (arith, before_in, i' b))
          ]))

  pub Moves-at :
      (from : ℕ) (before : Phase) → s.phases from ≡ before → from < s.p.k → Moves from before
  Moves-at from before e h = rw (← e) (own_phase from h)

  in_at :
      (from b : ℕ) (before : Phase)
      → s.phases from ≡ before
      → incoming weigh (s.phases from) b ≡ incoming weigh before b
  in_at from b before e = ap (λ ph. incoming weigh ph b) e

  out_at :
      (from b : ℕ) (before : Phase)
      → s.phases from ≡ before
      → from ≡ b
      → outgoing weigh (s.phases b) ≡ outgoing weigh before
  out_at from b before e same =
      ap (λ f. outgoing weigh (s.phases f)) (sym same) ∙ ap (outgoing weigh) e

  -- A thread that adds the weight of its node to the target block.
  pub claimed-IsBalancing :
      (from u to old : ℕ)
      → s.phases from ≡ Phase.trying u to old
      → from < s.p.k
      → IsBalancing (record {
        p = with_weight_added s.p u to;
        phases = with_phase s.phases from (Phase.claimed u to);
      })
  claimed-IsBalancing from u to old e h =
      let (node, block_, target, other) = Moves-at from (Phase.trying u to old) e h refl in
      let heavier = block_weight s.p to + weigh u in
      kept from (Phase.claimed u to) (set s.p.block_weights to heavier) h
        (λ a. (node, block_, target, other)) (length-set s.p.block_weights to heavier ∙ v.cells)
        (λ b q.
          (let at = get_or-set s.p.block_weights to b heavier 0 (omega (arith, target, v.cells)) in
            let nothing = in_at from b (Phase.trying u to old) e in
            let out_ = out_at from b (Phase.trying u to old) e in
            ground (arith, at, nothing, out_)))

  -- A thread that takes the weight of its node from the old block, which has that weight.
  pub released-IsBalancing :
      (from u to : ℕ)
      → s.phases from ≡ Phase.claimed u to
      → from < s.p.k
      → IsBalancing (record {
        p = with_weight_removed s.p u from;
        phases = with_phase s.phases from (Phase.released u to);
      })
  released-IsBalancing from u to e h =
      let (node, block_, target, other) = Moves-at from (Phase.claimed u to) e h refl in
      let lighter = block_weight s.p from - weigh u in
      let mine : (if block s.p u == from then weigh u else 0) ≡ weigh u =
        (let yes_ : (block s.p u == from) ≡ true = ground arith in rw yes_ refl) in
      let part =
        sum_below_le (n s.p.graph) (λ x. if block s.p x == from then weigh x else 0) u node in
      let enough : weigh u ≤ block_weight s.p from =
        omega
          (arith, mine, part, v.accounts from h, out_at from from (Phase.claimed u to) e refl) in
      kept from (Phase.released u to) (set s.p.block_weights from lighter) h
        (λ a. (node, block_, target, other)) (length-set s.p.block_weights from lighter ∙ v.cells)
        (λ b q.
          (let at = get_or-set s.p.block_weights from b lighter 0 (omega (arith, h, v.cells)) in
            let known = in_at from b (Phase.claimed u to) e in
            let out_ = out_at from b (Phase.claimed u to) e in
            elim (Bool-cases (from == b)) [
              | inl here ↦
                  let same : from ≡ b = ground arith in
                  let value = rw here at at in
                  rw here
                    (omega (arith, value, known, out_ same, enough, ap (block_weight s.p) same))
              | inr there ↦ let value = rw there at at in rw there (omega (arith, value, known))
            ]))

  -- A thread that enters its node in the target block.
  pub settled-IsBalancing :
      (from u to : ℕ)
      → s.phases from ≡ Phase.released u to
      → from < s.p.k
      → IsBalancing (record {
        p = record s.p { partition = set s.p.partition u to };
        phases = with_phase s.phases from Phase.idle;
      })
  settled-IsBalancing from u to e h =
      let (node, block_, target, other) = Moves-at from (Phase.released u to) e h refl in
      let part = λ (x : ℕ). get_or (set s.p.partition u to) x invalid_block_id in
      let at : (x : ℕ) → part x ≡ (if u == x then to else block s.p x) =
        λ x. get_or-set s.p.partition u x to invalid_block_id (omega (arith, node, v.sized)) in
      let elsewhere : (x : ℕ) → block s.p x ≢ from → part x ≡ block s.p x = λ x apart.
        (let no_ : (u == x) ≡ false = elim (Bool-cases (u == x)) [
          | inr no_ ↦ no_
          | inl yes_ ↦
              let same : x ≡ u = ground arith in absurd (apart (ap (block s.p) same ∙ block_))
        ] in
          rw no_ at (at x)) in
      let phases_ = with_phase s.phases from Phase.idle in
      let new : (f : ℕ)
          → f < s.p.k
          → is_idle (phases_ f) ≡ false
          → (node_of (phases_ f) < n s.p.graph)
            × (part (node_of (phases_ f)) ≡ f)
            × (target_of (phases_ f) < s.p.k)
            × (target_of (phases_ f) ≢ f) =
        λ f q. elim (Bool-cases (from == f)) [
          | inl mine ↦ rw mine (λ active. absurd cc)
          | inr not_mine ↦ rw not_mine (λ active.
              (let (a, b, c, d) = own_phase f q active in
                let apart : f ≢ from = ground arith in
                (a, elsewhere (node_of (s.phases f)) (λ z. apart (sym b ∙ z)) ∙ b, c, d)))
        ] in
      let here_ : part u ≡ to = rw (==_refl u) at (at u) in
      record {
        cells = v.cells;
        sized = length-set s.p.partition u to ∙ v.sized;
        nodes = λ f q active. (new f q active).0;
        blocks = λ f q active. (new f q active).1;
        targets = λ f q active. (new f q active).2;
        others = λ f q active. (new f q active).3;
        accounts = λ b q.
            (let known = in_at from b (Phase.released u to) e in
              let out_ = out_at from b (Phase.released u to) e in
              let changed = incoming_changed from Phase.idle b h in
              let nodes_ =
                sum_below_update (n s.p.graph) (λ x. if part x == b then weigh x else 0)
                  (λ x. if block s.p x == b then weigh x else 0) u node
                  (λ x p r.
                    (let no_ : (u == x) ≡ false = ground arith in
                      ap (λ z. if z == b then weigh x else 0) (rw no_ at (at x)))) in
              let now : (if part u == b then weigh u else 0) ≡ (if to == b then weigh u else 0) =
                ap (λ z. if z == b then weigh u else 0) here_ in
              let before : (if block s.p u == b then weigh u else 0)
                  ≡ (if from == b then weigh u else 0) =
                ap (λ z. if z == b then weigh u else 0) block_ in
              elim (Bool-cases (from == b)) [
                | inl here ↦
                    let same : from ≡ b = ground arith in
                    let mine = rw here at before in
                    rw here
                      (omega (arith, v.accounts b q, known, out_ same, changed, nodes_, now, mine))
                | inr there ↦
                    let none_ = rw there at before in
                    rw there (omega (arith, v.accounts b q, known, changed, nodes_, now, none_))
              ]);
      }
