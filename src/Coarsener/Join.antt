-- ===== src/Coarsener/Join.antt =====
-- The clustering after a node has joined a cluster: it is one with right and limited weights again.
use ka_min_par.Prelude.{
  ◌^◌, ℕ, ◌+◌, ◌≤◌, ◌<◌, ◌≡◌, ◌≢◌, ◌⊎◌, refl, sym, ◌∙◌, ap, inl, inr, true, false, List, arith,
  ◌==◌, ==_refl, if◌then◌else◌, Bool-cases, length, set, length-set, get_or-set,
}
use ka_min_par.Prelude.Sums.{sum_below, sum_below_update}
use ka_min_par.FastResetArray.{FastResetArray}
use ka_min_par.Graph.{Graph, n, node_weight}
use ka_min_par.Coarsener.{
  Cluster, Coarsener, cluster_at, leader_of, weight_at, is_locked, narrow, join,
}
use ka_min_par.Coarsener.Rating.{IsClean}

module _ (g : Graph) where
  -- The weight of the nodes with leader `x`.
  abbrev pub cluster_weight : Coarsener → ℕ → ℕ
  cluster_weight s x = sum_below (n g) (λ y. if leader_of s y == x then node_weight g y else 0)

  -- Leaders lead themselves; who is not locked leads no other node; the weight of a cluster is that
  -- of its nodes, and within the limit, or it is that of the leader alone; the moves are counted.
  pub record IsClustering (limit : ℕ) (s : Coarsener) : Type 0 where
    pub enough : n g ≤ length s.clustering
    pub ratable : n g ≤ length s.rating_map.cells
    pub clean : IsClean (length s.rating_map.cells) s.rating_map
    pub in_range : (x : ℕ) → x < n g → leader_of s x < n g
    pub leaders : (x : ℕ) → x < n g → leader_of s (leader_of s x) ≡ leader_of s x
    pub alone : (x y : ℕ) → x < n g → is_locked s x ≡ false → y < n g → leader_of s y ≡ x → y ≡ x
    pub locked_leads : (x : ℕ) → x < n g → is_locked s x ≡ true → leader_of s x ≡ x
    pub weights : (x : ℕ) → x < n g → leader_of s x ≡ x → weight_at s x ≡ cluster_weight s x
    pub light :
        (x : ℕ)
        → x < n g
        → leader_of s x ≡ x
        → (weight_at s x ≤ limit) ⊎ (weight_at s x ≡ node_weight g x)
    pub moves : s.current_num_moves ≡ sum_below (n g) (λ x. if leader_of s x == x then 0 else 1)

  module _ (limit : ℕ) (s : Coarsener) (u best : ℕ) (r : FastResetArray ℕ)
      (v : IsClustering limit s) (clean : IsClean (length s.rating_map.cells) r) (node : u < n g)
      (lead : leader_of s u ≡ u) (unlocked : is_locked s u ≡ false) (target : best < n g)
      (leads : leader_of s best ≡ best) (other : best ≢ u)
      (room : weight_at s best + node_weight g u ≤ limit) (bound : limit < 2 ^ 29) where
    abbrev pub joined : Coarsener
    joined = record s {
      clustering = join s.clustering u best (node_weight g u);
      rating_map = r;
      current_num_moves = s.current_num_moves + 1;
    }

    abbrev led : List Cluster
    led = set s.clustering u (record (cluster_at s.clustering u) { leader = best })

    abbrev locked : List Cluster
    locked = set led best (record (cluster_at led best) { locked = true })

    at-led :
        (x : ℕ)
        → cluster_at led x ≡ (
            if u == x
            then record (cluster_at s.clustering u) { leader = best }
            else cluster_at s.clustering x)
    at-led x =
        get_or-set s.clustering u x (record (cluster_at s.clustering u) { leader = best })
          (record { locked = false; weight = 0; leader = 0 }) (omega (arith, v.enough))

    length-led : length led ≡ length s.clustering
    length-led = length-set s.clustering u (record (cluster_at s.clustering u) { leader = best })

    at-led_best : cluster_at led best ≡ cluster_at s.clustering best
    at-led_best = let no_u : (u == best) ≡ false = ground arith in rw no_u at (at-led best)

    at-locked :
        (x : ℕ)
        → cluster_at locked x
          ≡ (if best == x then record (cluster_at led best) { locked = true } else cluster_at led x)
    at-locked x =
        get_or-set led best x (record (cluster_at led best) { locked = true })
          (record { locked = false; weight = 0; leader = 0 }) (omega (arith, v.enough, length-led))

    at-locked_best :
        cluster_at locked best ≡ record (cluster_at s.clustering best) { locked = true }
    at-locked_best =
        (rw (==_refl best) at (at-locked best))
        ∙ ap (λ (c : Cluster). record c { locked = true }) at-led_best

    at-joined :
        (x : ℕ)
        → cluster_at joined.clustering x ≡ (
            if best == x
            then record {
              locked = true;
              weight = weight_at s best + node_weight g u;
              leader = leader_of s best;
            }
            else cluster_at led x)
    at-joined x =
        get_or-set locked best x
          (record (cluster_at locked best) {
            weight = narrow ((cluster_at locked best).weight + node_weight g u);
          })
          (record { locked = false; weight = 0; leader = 0 })
          (omega (
            arith,
            v.enough,
            length-led,
            length-set led best (record (cluster_at led best) { locked = true }),
          ))
        ∙ elim (Bool-cases (best == x)) [
          | inl here ↦
              let exact : narrow (weight_at s best + node_weight g u)
                  ≡ weight_at s best + node_weight g u =
                omega (arith, room, bound) in
              rw here (
                ap (λ (c : Cluster). record c { weight = narrow (c.weight + node_weight g u) })
                  at-locked_best
                ∙ ap (λ w. record { locked = true; weight = w; leader = leader_of s best }) exact)
          | inr there ↦ rw there (rw there at (at-locked x))
        ]

    leader-joined : (x : ℕ) → leader_of joined x ≡ (if u == x then best else leader_of s x)
    leader-joined x = ap (λ (c : Cluster). c.leader) (at-joined x) ∙ elim (Bool-cases (best == x)) [
      | inl here ↦
          let e : best ≡ x = ground arith in
          let no_u : (u == x) ≡ false = ground arith in rw (here, no_u) (ap (leader_of s) e)
      | inr there ↦ rw there (
          ap (λ (c : Cluster). c.leader) (at-led x) ∙ elim (Bool-cases (u == x)) [
            | inl mine ↦ rw mine refl
            | inr not_mine ↦ rw not_mine refl
          ])
    ]

    locked-joined : (x : ℕ) → is_locked joined x ≡ (if best == x then true else is_locked s x)
    locked-joined x = ap (λ (c : Cluster). c.locked) (at-joined x) ∙ elim (Bool-cases (best == x)) [
      | inl here ↦ rw here refl
      | inr there ↦ rw there (
          ap (λ (c : Cluster). c.locked) (at-led x) ∙ elim (Bool-cases (u == x)) [
            | inl mine ↦ let e : u ≡ x = ground arith in rw mine (ap (is_locked s) e)
            | inr not_mine ↦ rw not_mine refl
          ])
    ]

    weight-joined :
        (x : ℕ)
        → weight_at joined x
          ≡ (if best == x then weight_at s best + node_weight g u else weight_at s x)
    weight-joined x = ap (λ (c : Cluster). c.weight) (at-joined x) ∙ elim (Bool-cases (best == x)) [
      | inl here ↦ rw here refl
      | inr there ↦ rw there (
          ap (λ (c : Cluster). c.weight) (at-led x) ∙ elim (Bool-cases (u == x)) [
            | inl mine ↦ let e : u ≡ x = ground arith in rw mine (ap (weight_at s) e)
            | inr not_mine ↦ rw not_mine refl
          ])
    ]

    pub leader-joined_other : (x : ℕ) → x ≢ u → leader_of joined x ≡ leader_of s x
    leader-joined_other x h =
        let no_u : (u == x) ≡ false = ground arith in rw no_u at (leader-joined x)

    leader-joined_node : leader_of joined u ≡ best
    leader-joined_node = rw (==_refl u) at (leader-joined u)

    leader-joined_best : leader_of joined best ≡ best
    leader-joined_best = leader-joined_other best other ∙ leads

    -- A node that leads itself now is not `u`, and led itself before.
    led_before : (x : ℕ) → leader_of joined x ≡ x → (x ≢ u) × (leader_of s x ≡ x)
    led_before x h =
        let apart : x ≢ u =
          λ e. other (sym leader-joined_node ∙ ap (leader_of joined) (sym e) ∙ h ∙ e) in
        (apart, sym (leader-joined_other x apart) ∙ h)

    -- Nobody else is led by `u`.
    apart_from : (x : ℕ) → x < n g → x ≢ u → leader_of s x ≢ u
    apart_from x p h e = h (v.alone u x node unlocked p e)

    cluster_weight-joined :
        (x : ℕ)
        → x ≢ u
        → cluster_weight joined x ≡ cluster_weight s x + (if best == x then node_weight g u else 0)
    cluster_weight-joined x apart =
        let kept =
          sum_below_update (n g) (λ y. if leader_of joined y == x then node_weight g y else 0)
            (λ y. if leader_of s y == x then node_weight g y else 0) u node
            (λ y p q. ap (λ l. if l == x then node_weight g y else 0) (leader-joined_other y q)) in
        let before : (if leader_of s u == x then node_weight g u else 0) ≡ 0 =
          (let no : (u == x) ≡ false = ground arith in rw (lead, no) refl) in
        let after : (if leader_of joined u == x then node_weight g u else 0)
            ≡ (if best == x then node_weight g u else 0) =
          ap (λ l. if l == x then node_weight g u else 0) leader-joined_node in
        omega (arith, kept, before, after)

    length-joined : length joined.clustering ≡ length s.clustering
    length-joined =
        length-set locked best (record (cluster_at locked best) {
          weight = narrow ((cluster_at locked best).weight + node_weight g u);
        })
        ∙ length-set led best (record (cluster_at led best) { locked = true })
        ∙ length-led

    joined-moves :
        s.current_num_moves + 1 ≡ sum_below (n g) (λ x. if leader_of joined x == x then 0 else 1)
    joined-moves =
        let kept =
          sum_below_update (n g) (λ y. if leader_of joined y == y then 0 else 1)
            (λ y. if leader_of s y == y then 0 else 1) u node
            (λ y p q. ap (λ l. if l == y then 0 else 1) (leader-joined_other y q)) in
        let moved : ℕ → ℕ → ℕ = λ l y. if l == y then 0 else 1 in
        let before : moved (leader_of s u) u ≡ 0 = rw (lead, ==_refl u) refl in
        let apart : (best == u) ≡ false = ground arith in
        let after : moved (leader_of joined u) u ≡ 1 =
          ap (λ l. moved l u) leader-joined_node ∙ rw apart refl in
        omega (arith, kept, before, after, v.moves)

    joined-weights :
        (x : ℕ) → x < n g → leader_of joined x ≡ x → weight_at joined x ≡ cluster_weight joined x
    joined-weights x p h =
        let (apart, before) = led_before x h in
        let old = v.weights x p before in
        weight-joined x
        ∙ (elim (Bool-cases (best == x)) [
          | inl here ↦
              let e : best ≡ x = ground arith in
              rw here
                (ap (λ y. weight_at s y + node_weight g u) e ∙ ap (λ k. k + node_weight g u) old)
          | inr there ↦ rw there (old ∙ omega arith)
        ])
        ∙ sym (cluster_weight-joined x apart)

    joined-light :
        (x : ℕ)
        → x < n g
        → leader_of joined x ≡ x
        → (weight_at joined x ≤ limit) ⊎ (weight_at joined x ≡ node_weight g x)
    joined-light x p h =
        let (apart, before) = led_before x h in
        elim (Bool-cases (best == x)) [
          | inl here ↦ let e = rw here at (weight-joined x) in inl (omega (arith, e, room))
          | inr there ↦
              let e = rw there at (weight-joined x) in
              elim (v.light x p before) [ inl l ↦ inl (omega (arith, e, l)) | inr l ↦ inr (e ∙ l) ]
        ]

    joined-leaders : (x : ℕ) → x < n g → leader_of joined (leader_of joined x) ≡ leader_of joined x
    joined-leaders x p = elim (Bool-cases (u == x)) [
      | inl mine ↦
          let e : u ≡ x = ground arith in
          let to_best : leader_of joined x ≡ best =
            ap (leader_of joined) (sym e) ∙ leader-joined_node in
          ap (leader_of joined) to_best ∙ leader-joined_best ∙ sym to_best
      | inr not_mine ↦
          let apart : x ≢ u = ground arith in
          let same = leader-joined_other x apart in
          ap (leader_of joined) same
          ∙ leader-joined_other (leader_of s x) (apart_from x p apart)
          ∙ v.leaders x p
          ∙ sym same
    ]

    pub joined-IsClustering : IsClustering limit joined
    joined-IsClustering = record {
      enough = omega (arith, v.enough, length-joined);
      ratable = omega (arith, v.ratable, clean.sized);
      clean = record { sized = refl; unused = clean.unused; zeros = clean.zeros };
      in_range = λ x p. elim (Bool-cases (u == x)) [
        | inl mine ↦ ground (arith, leader-joined x, target)
        | inr not_mine ↦ ground (arith, leader-joined x, v.in_range x p)
      ];
      leaders = joined-leaders;
      alone = λ x y p l q e. elim (Bool-cases (best == x)) [
        | inl here ↦ let yes_ = rw here at (locked-joined x) in absurd (ground (arith, yes_, l))
        | inr there ↦
            let old = rw there at (locked-joined x) in
            elim (Bool-cases (u == y)) [
              | inl mine ↦ absurd (ground (arith, rw mine at (leader-joined y), e, there))
              | inr not_mine ↦
                  v.alone x y p (sym old ∙ l) q (sym (rw not_mine at (leader-joined y)) ∙ e)
            ]
      ];
      locked_leads = λ x p l. elim (Bool-cases (best == x)) [
        | inl here ↦
            let e : best ≡ x = ground arith in
            ap (leader_of joined) (sym e) ∙ leader-joined_best ∙ e
        | inr there ↦
            let old = sym (rw there at (locked-joined x)) ∙ l in
            elim (Bool-cases (u == x)) [
              | inl mine ↦
                  let e : u ≡ x = ground arith in
                  absurd (ground (arith, sym (ap (is_locked s) e) ∙ unlocked, old))
              | inr not_mine ↦ rw not_mine at (leader-joined x) ∙ v.locked_leads x p old
            ]
      ];
      weights = joined-weights;
      light = joined-light;
      moves = joined-moves;
    }
