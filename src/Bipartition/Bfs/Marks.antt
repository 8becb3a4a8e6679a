-- ===== src/Bipartition/Bfs/Marks.antt =====
-- The first element without a mark, which set<true> keeps up to date.
use ka_min_par.Prelude.{
  ℕ, zero, suc, ◌+◌, ◌≤◌, ◌<◌, ◌≡◌, ◌≢◌, refl, sym, ◌∙◌, ap, inl, inr, true, false, ◌&&◌, ◌||◌,
  arith, ltb, ◌==◌, Bool-cases, length, get_or, length-set, get_or-set_self, get_or-set_ne,
}
use mathlib.Core.Path.{subst}
use ka_min_par.Marker.{Marker, get, mark, mark_tracked, skip_marked, first_unmarked_element}
use ka_min_par.Marker.Laws.{IsMarker, mark_correct}

module _ (width j : ℕ) where
  -- All elements below the first unmarked one are marked, and that one is not.
  pub record IsFirst (m : Marker) (first : ℕ) : Type 0 where
    pub below : (x : ℕ) → x < first → get width m x j ≡ true
    pub unmarked : first < length m.cells → get width m first j ≡ false

  skip_marked-IsFirst :
      (m : Marker) (fuel first : ℕ)
      → ((x : ℕ) → x < first → get width m x j ≡ true)
      → length m.cells ≤ first + fuel
      → IsFirst m (skip_marked width m j fuel first)
  skip_marked-IsFirst m zero first h enough = record {
    below = h;
    unmarked = λ p. absurd (omega arith);
  }
  skip_marked-IsFirst m (suc fuel) first h enough = elim (Bool-cases (ltb first (length m.cells))) [
    | inl inside ↦ elim (Bool-cases (get width m first j)) [
      | inl marked ↦
          rw (inside, marked)
            (skip_marked-IsFirst m fuel (first + 1)
              (λ x p. elim (Bool-cases (x == first)) [
                | inl here ↦ let e : x ≡ first = ground arith in rw e marked
                | inr other ↦ h x (ground arith)
              ])
              (omega arith))
      | inr free ↦ rw (inside, free) (record { below = h; unmarked = λ p. free })
    ]
    | inr outside ↦ rw outside (record { below = h; unmarked = λ p. absurd (ground arith) })
  ]

module _ (width : ℕ) (m : Marker) (v : IsMarker width m) (element i : ℕ)
    (inside : element < length m.cells) (known : i < width) where
  -- What a mark with or without the search does to the marks.
  pub get-mark :
      (x k : ℕ)
      → k < width
      → get width (mark width m element i) x k ≡ ((element == x && i == k) || get width m x k)
  get-mark x k p = (mark_correct width m v element i inside known x k p).1

  pub mark-IsMarker : IsMarker width (mark width m element i)
  mark-IsMarker = (mark_correct width m v element i inside known 0 i known).0

  pub get-mark_tracked :
      (x k : ℕ)
      → k < width
      → get width (mark_tracked width m element i) x k
        ≡ ((element == x && i == k) || get width m x k)
  get-mark_tracked x k p =
      let marked : get width (mark_tracked width m element i) x k
          ≡ get width (mark width m element i) x k =
        unfold mark_tracked get in refl in
      marked ∙ get-mark x k p

  pub mark_tracked-IsMarker : IsMarker width (mark_tracked width m element i)
  unfolding mark_tracked
  mark_tracked-IsMarker =
      let w = mark-IsMarker in record { multiple = w.multiple; fits = w.fits; earlier = w.earlier }

  pub length-mark : length (mark width m element i).cells ≡ length m.cells
  unfolding mark
  length-mark = length-set m.cells element _

  pub length-mark_tracked : length (mark_tracked width m element i).cells ≡ length m.cells
  unfolding mark_tracked
  length-mark_tracked = length-mark

  -- A mark of another kind keeps the first unmarked element.
  pub mark-IsFirst :
      (j first : ℕ)
      → j < width
      → (i == j) ≡ false
      → IsFirst width j m first
      → IsFirst width j (mark width m element i) first
  mark-IsFirst j first p other w = record {
    below = λ x q. get-mark x j p ∙ rw (other, w.below x q) (ground arith);
    unmarked = λ q.
        get-mark first j p ∙ rw (other, w.unmarked (omega (arith, length-mark))) (ground arith);
  }

  -- set<true> keeps it too, and moves it past what it has marked.
  pub mark_tracked-IsFirst :
      (first : ℕ)
      → i < length m.first_unmarked
      → get_or m.first_unmarked i 0 ≡ first
      → IsFirst width i m first
      → IsFirst width i
          (mark_tracked width m element i)
          (first_unmarked_element width (mark_tracked width m element i) i)
  mark_tracked-IsFirst first sized e w =
      let marked = mark width m element i in
      let same : (x : ℕ) → get width (mark_tracked width m element i) x i ≡ get width marked x i =
        λ x. get-mark_tracked x i known ∙ sym (get-mark x i known) in
      let kept : get_or marked.first_unmarked i 0 ≡ first = unfold mark in e in
      let searched =
        skip_marked-IsFirst width i marked (length marked.cells) first
          (λ x q. get-mark x i known ∙ rw (w.below x q) (ground arith)) (omega arith) in
      let found : first_unmarked_element width (mark_tracked width m element i) i
          ≡ skip_marked width marked i (length marked.cells) first =
        unfold mark_tracked in
        get_or-set_self _ i _ 0 (unfold mark in sized)
        ∙ ap (skip_marked width marked i (length marked.cells)) kept in
      subst (IsFirst width i (mark_tracked width m element i)) (sym found) (record {
        below = λ x q. same x ∙ searched.below x q;
        unmarked =
            λ q. same _ ∙ searched.unmarked (omega (arith, length-mark_tracked, length-mark));
      })

-- A mark with the search keeps what is known of the other marks.
pub first_unmarked_element-mark_tracked :
    (width : ℕ) (m : Marker) (element i j : ℕ)
    → i ≢ j
    → first_unmarked_element width (mark_tracked width m element i) j
      ≡ first_unmarked_element width m j
unfolding mark_tracked mark
first_unmarked_element-mark_tracked width m element i j other =
    get_or-set_ne m.first_unmarked i j _ 0 other

pub length-first_unmarked-mark_tracked :
    (width : ℕ) (m : Marker) (element i : ℕ)
    → length (mark_tracked width m element i).first_unmarked ≡ length m.first_unmarked
unfolding mark_tracked mark
length-first_unmarked-mark_tracked width m element i = length-set m.first_unmarked i _
