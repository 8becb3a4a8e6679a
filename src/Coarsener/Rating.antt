-- ===== src/Coarsener/Rating.antt =====
-- The ratings of the clusters next to a node, collected and read.
use ka_min_par.Chunks.{IsDistinct-append, IsDistinct}
use ka_min_par.Prelude.{
  sym, ◌≢◌, ℕ, zero, suc, ◌+◌, ◌<◌, ◌≡◌, ◌⊎◌, refl, ◌∙◌, ap, inl, inr, Bool, true, false, Option,
  none, some, List, [], ◌∷◌, ◌++◌, arith, ltb, ◌==◌, ==_iff, Bool-cases, length, get_or,
}
use mathlib.Core.Path.{subst}
use ka_min_par.FastResetArray.{FastResetArray, set_entry, access}
use ka_min_par.FastResetArray.Laws.{is_listed, IsTracked, set_entry_correct}
use ka_min_par.Graph.{Graph, edge_target, edge_weight}
use ka_min_par.Coarsener.{Coarsener, is_zero, leader_of, rating, add_rating, rate_neighbors}

pub is_zero_eq : (x : ℕ) → is_zero x ≡ true → x ≡ 0
is_zero_eq x h = (==_iff x 0).0 h

-- No cluster is rated.
pub record IsClean (size : ℕ) (r : FastResetArray ℕ) : Type 0 where
  pub sized : length r.cells ≡ size
  pub unused : r.used_entries ≡ []
  pub zeros : (x : ℕ) → rating r x ≡ 0

-- Rated clusters are listed, each once, and listed clusters are rated and have the property `P`.
pub record IsRated (size : ℕ) (P : ℕ → Type 0) (r : FastResetArray ℕ) : Type 0 where
  pub sized : length r.cells ≡ size
  pub tracked : IsTracked 0 is_zero is_zero_eq r
  pub listed : (x : ℕ) → is_listed r.used_entries x ≡ true → P x
  pub positive : (x : ℕ) → is_listed r.used_entries x ≡ true → 0 < rating r x
  pub distinct : IsDistinct r.used_entries

unlisted :
    {size : ℕ} (r : FastResetArray ℕ) → IsClean size r → (x : ℕ) → is_listed r.used_entries x ≢ true
unlisted r c x h =
    let no : is_listed r.used_entries x ≡ false = ap (λ (l : List ℕ). is_listed l x) c.unused in
    ground (arith, no, h)

pub IsClean-IsRated :
    (size : ℕ) (P : ℕ → Type 0) (r : FastResetArray ℕ) → IsClean size r → IsRated size P r
IsClean-IsRated size P r c = record {
  sized = c.sized;
  tracked = λ x h. ground (arith, c.zeros x);
  listed = λ x h. absurd (unlisted r c x h);
  positive = λ x h. absurd (unlisted r c x h);
  distinct = subst IsDistinct (sym c.unused) tt;
}

listed_or_last :
    (xs : List ℕ) (last x : ℕ)
    → is_listed (xs ++ last ∷ []) x ≡ true
    → (last ≡ x) ⊎ (is_listed xs x ≡ true)
listed_or_last [] last x h = inl (ground arith)
listed_or_last (y ∷ xs) last x h = elim (Bool-cases (y == x)) [
  | inl here ↦ inr (ground arith)
  | inr there ↦ elim (listed_or_last xs last x (ground arith)) [
    | inl e ↦ inl e
    | inr e ↦ inr (ground (arith, e))
  ]
]

abbrev used_of : Option (FastResetArray ℕ) → List ℕ
used_of none = []
used_of (some r) = r.used_entries

-- Only the written position is listed anew.
listed-set_entry :
    (a b : FastResetArray ℕ) (pos v x : ℕ)
    → set_entry 0 is_zero a pos v ≡ some b
    → is_listed b.used_entries x ≡ true
    → (pos ≡ x) ⊎ (is_listed a.used_entries x ≡ true)
unfolding set_entry access
listed-set_entry a b pos v x h l = elim (Bool-cases (ltb pos (length a.cells))) [
  | inr outside ↦ let no = rw outside at h in absurd cc
  | inl inside ↦ elim (Bool-cases (is_zero (get_or a.cells pos 0))) [
    | inl fresh ↦
        let used = ap used_of (rw (inside, fresh) at h) in
        listed_or_last a.used_entries pos x (ap (λ (xs : List ℕ). is_listed xs x) used ∙ l)
    | inr changed ↦
        let used = ap used_of (rw (inside, changed) at h) in
        inr (ap (λ (xs : List ℕ). is_listed xs x) used ∙ l)
  ]
]

-- A position that is not listed while its rating is 0 is not listed twice.
IsDistinct-set_entry :
    (a b : FastResetArray ℕ) (pos v : ℕ)
    → set_entry 0 is_zero a pos v ≡ some b
    → IsDistinct a.used_entries
    → (is_zero (rating a pos) ≡ true → is_listed a.used_entries pos ≡ false)
    → IsDistinct b.used_entries
unfolding set_entry access
IsDistinct-set_entry a b pos v h d new = elim (Bool-cases (ltb pos (length a.cells))) [
  | inr outside ↦ let no = rw outside at h in absurd cc
  | inl inside ↦ elim (Bool-cases (is_zero (get_or a.cells pos 0))) [
    | inl fresh ↦
        let used = ap used_of (rw (inside, fresh) at h) in
        subst IsDistinct used (
          IsDistinct-append a.used_entries (pos ∷ []) d (refl, tt)
            (λ x l.
              let absent = new fresh in
              elim (Bool-cases (pos == x)) [
                | inl here ↦
                    let e : pos ≡ x = ground arith in
                    absurd (ground (arith, ap (is_listed a.used_entries) e, absent, l))
                | inr there ↦ rw there refl
              ]))
    | inr changed ↦ subst IsDistinct (ap used_of (rw (inside, changed) at h)) d
  ]
]

add_rating-IsRated :
    (size : ℕ) (P : ℕ → Type 0) (r : FastResetArray ℕ) (key weight : ℕ)
    → IsRated size P r
    → key < size
    → P key
    → 0 < weight
    → (t : FastResetArray ℕ) × (add_rating r key weight ≡ some t) × IsRated size P t
unfolding add_rating
add_rating-IsRated size P r key weight v inside holds heavy =
    let (t, made, tracked, sized, at) =
      set_entry_correct 0 is_zero is_zero_eq r key (rating r key + weight) v.tracked
        (omega (arith, v.sized)) in
    (
      t,
      made,
      record {
        sized = sized ∙ v.sized;
        tracked = tracked;
        listed = λ x l. elim (listed-set_entry r t key (rating r key + weight) x made l) [
          | inl e ↦ rw (← e) holds
          | inr old ↦ v.listed x old
        ];
        positive = λ x l. elim (Bool-cases (key == x)) [
          | inl here ↦ let now = rw here at (at x) in omega (arith, now, heavy)
          | inr there ↦
              let now = rw there at (at x) in
              elim (listed-set_entry r t key (rating r key + weight) x made l) [
                | inl e ↦ absurd (ground (arith, e, there))
                | inr old ↦ omega (arith, now, v.positive x old)
              ]
        ];
        distinct = IsDistinct-set_entry r t key (rating r key + weight) made v.distinct (λ zero_.
            elim (Bool-cases (is_listed r.used_entries key)) [
              | inl old ↦ absurd (omega (arith, v.positive key old, is_zero_eq _ zero_))
              | inr new ↦ new
            ]);
      },
    )

-- The neighbors of a node whose clusters have the property are rated.
pub rate_neighbors-IsRated :
    (g : Graph) (coin : ℕ → ℕ → Bool) (s : Coarsener) (size : ℕ) (P : ℕ → Type 0) (e count : ℕ)
    (r : FastResetArray ℕ)
    → IsRated size P r
    → ((i : ℕ)
        → i < count
        → (leader_of s (edge_target g (e + i)) < size)
          × (P (leader_of s (edge_target g (e + i))) × (0 < edge_weight g (e + i))))
    → (t : FastResetArray ℕ) × (rate_neighbors g coin s e count r ≡ some t) × IsRated size P t
rate_neighbors-IsRated g coin s size P e zero r v h = (r, refl, v)
rate_neighbors-IsRated g coin s size P e (suc count) r v h =
    let start : e + 0 ≡ e = omega arith in
    let (inside, (holds, heavy)) = rw start at (h 0 (omega arith)) in
    let (t, made, v') =
      add_rating-IsRated size P r (leader_of s (edge_target g e)) (edge_weight g e) v inside holds
        heavy in
    let (t', made', v'') = rate_neighbors-IsRated g coin s size P (e + 1) count t v' (λ i q.
      let next : e + suc i ≡ e + 1 + i = omega arith in rw next at (h (suc i) (omega arith))) in
    (t', rw made made', v'')
