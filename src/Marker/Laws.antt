-- ===== src/Marker/Laws.antt =====
-- Marks are what was marked since the last reset, while the ids of the rounds fit 32 bits.
use native.Mathlib.Nat.{mul-le-mul_right, mul-lt-mul_of_pos_right, eq_of_mul-eq-mul_right, add-mul}
use ka_min_par.Prelude.{
  ℕ, ◌+◌, ◌-◌, ◌*◌, ◌%◌, ◌^◌, ◌≤◌, ◌<◌, ◌≡◌, refl, ap, ◌∙◌, inl, inr, false, ◌&&◌, ◌||◌, arith,
  ◌==◌, if◌then◌else◌, Bool-cases, length, get_or, set, get_or-set,
}
use ka_min_par.Math.Log.{pow_pos}
use ka_min_par.Marker.{Marker, has_bit, with_bit, shift_right, masked, get, mark, reset}
use ka_min_par.Marker.Bits.{
  has_bit-with_bit, shift_right-with_bit, shift_right_bounds, shift_right-multiple,
  has_bit-multiple,
}

next_multiple : (r p : ℕ) → (r + 1) * p ≡ r * p + p
next_multiple r p = omega (arith, add-mul r 1 p)

module _ (width : ℕ) where
  -- The id is that of a round that fits 32 bits, and no element was marked in a later round.
  pub record IsMarker (m : Marker) : Type 0 where
    pub multiple : shift_right m.marker_id width * 2 ^ width ≡ m.marker_id
    pub fits : m.marker_id + 2 ^ width ≤ 2 ^ 32
    pub earlier : (x : ℕ) → shift_right (get_or m.cells x 0) width ≤ shift_right m.marker_id width

  -- On a number of a round that fits, the mask clears the lowest bits alone.
  masked_small :
      (d id : ℕ)
      → shift_right id width * 2 ^ width ≡ id
      → id + 2 ^ width ≤ 2 ^ 32
      → shift_right d width ≤ shift_right id width
      → masked width d ≡ shift_right d width * 2 ^ width
  masked_small d id e fits h =
      let (lo, hi) = shift_right_bounds d width in
      let bound : (shift_right d width + 1) * 2 ^ width ≤ (shift_right id width + 1) * 2 ^ width =
        mul-le-mul_right (2 ^ width) (omega arith) in
      let next = next_multiple (shift_right id width) (2 ^ width) in
      let small : d % 2 ^ 32 ≡ d = omega arith in rw small refl

  module _ (m : Marker) (v : IsMarker m) (element marker : ℕ) (inside : element < length m.cells)
      (known : marker < width) where
    abbrev cell : ℕ → ℕ
    cell x = get_or m.cells x 0

    -- What mark writes.
    abbrev marked_cell : ℕ
    marked_cell =
        if masked width (cell element) == m.marker_id
        then with_bit (cell element) marker
        else with_bit m.marker_id marker

    masked-cell : (x : ℕ) → masked width (cell x) ≡ shift_right (cell x) width * 2 ^ width
    masked-cell x = masked_small (cell x) m.marker_id v.multiple v.fits (v.earlier x)

    shift_right-marked_cell : shift_right marked_cell width ≡ shift_right m.marker_id width
    shift_right-marked_cell = elim (Bool-cases (masked width (cell element) == m.marker_id)) [
      | inl again ↦
          let same : shift_right (cell element) width * 2 ^ width
              ≡ shift_right m.marker_id width * 2 ^ width =
            ground (arith, masked-cell element, v.multiple) in
          rw again (
            shift_right-with_bit (cell element) marker width known
            ∙ eq_of_mul-eq-mul_right (2 ^ width) (pow_pos width) (shift_right (cell element) width)
                (shift_right m.marker_id width) same)
      | inr first ↦ rw first (shift_right-with_bit m.marker_id marker width known)
    ]

    masked-marked_cell : masked width marked_cell ≡ m.marker_id
    masked-marked_cell =
        masked_small marked_cell m.marker_id v.multiple v.fits
          (omega (arith, shift_right-marked_cell))
        ∙ (ap (λ (r : ℕ). r * 2 ^ width) shift_right-marked_cell ∙ v.multiple)

    has_bit-marked_cell :
        (j : ℕ)
        → j < width
        → has_bit marked_cell j ≡ (
            (marker == j)
            || (masked width (cell element) == m.marker_id && has_bit (cell element) j))
    has_bit-marked_cell j p = elim (Bool-cases (masked width (cell element) == m.marker_id)) [
      | inl again ↦ rw again (has_bit-with_bit (cell element) marker j)
      | inr first ↦
          let none_set : has_bit m.marker_id j ≡ false =
            rw (← v.multiple) (has_bit-multiple (shift_right m.marker_id width) width j p) in
          rw first (ground (arith, has_bit-with_bit m.marker_id marker j, none_set))
    ]

    -- mark marks one element with one marker.
    mark-get :
        (x j : ℕ)
        → j < width
        → get width (mark width m element marker) x j
          ≡ ((element == x && marker == j) || get width m x j)
    unfolding get mark
    mark-get x j p = elim (Bool-cases (element == x)) [
      | inl here ↦
          let e : element ≡ x = ground arith in
          let now : get_or (set m.cells element marked_cell) x 0 ≡ marked_cell =
            ground (arith, get_or-set m.cells element x marked_cell 0 inside) in
          rw (now, here, ← e) (ground (arith, masked-marked_cell, has_bit-marked_cell j p))
      | inr there ↦
          let now : get_or (set m.cells element marked_cell) x 0 ≡ cell x =
            ground (arith, get_or-set m.cells element x marked_cell 0 inside) in
          rw (now, there) refl
    ]

    mark-IsMarker : IsMarker (mark width m element marker)
    unfolding mark
    mark-IsMarker = record {
      multiple = v.multiple;
      fits = v.fits;
      earlier = λ x. elim (Bool-cases (element == x)) [
        | inl here ↦
            let now : get_or (set m.cells element marked_cell) x 0 ≡ marked_cell =
              ground (arith, get_or-set m.cells element x marked_cell 0 inside) in
            rw now (omega (arith, shift_right-marked_cell))
        | inr there ↦
            let now : get_or (set m.cells element marked_cell) x 0 ≡ cell x =
              ground (arith, get_or-set m.cells element x marked_cell 0 inside) in
            rw now (v.earlier x)
      ];
    }

    -- set marks one element with one marker and changes no other mark.
    pub mark_correct :
        (x j : ℕ)
        → j < width
        → IsMarker (mark width m element marker)
          × (get width (mark width m element marker) x j
              ≡ ((element == x && marker == j) || get width m x j))
    mark_correct x j p = (mark-IsMarker, mark-get x j p)

  -- reset takes away all marks, if the id of the next round fits 32 bits.
  pub reset_correct :
      (m : Marker) (x j : ℕ)
      → IsMarker m
      → m.marker_id + 2 ^ width + 2 ^ width ≤ 2 ^ 32
      → IsMarker (reset width m) × (get width (reset width m) x j ≡ false)
  unfolding get reset
  reset_correct m x j v room =
      let r = shift_right m.marker_id width in
      let next = (r + 1) * 2 ^ width in
      let next_is : next ≡ m.marker_id + 2 ^ width =
        next_multiple r (2 ^ width) ∙ omega (arith, v.multiple) in
      let no_restart : (next + (2 ^ width - 1) == 2 ^ 64 - 1) ≡ false =
        ground (arith, pow_pos width) in
      let round : shift_right next width ≡ r + 1 = shift_right-multiple (r + 1) width in
      let old : masked width (get_or m.cells x 0)
          ≡ shift_right (get_or m.cells x 0) width * 2 ^ width =
        masked_small (get_or m.cells x 0) m.marker_id v.multiple v.fits (v.earlier x) in
      let less : shift_right (get_or m.cells x 0) width * 2 ^ width < next =
        mul-lt-mul_of_pos_right (omega (arith, v.earlier x)) (pow_pos width) in
      let other : (masked width (get_or m.cells x 0) == next) ≡ false = ground (arith, old, less) in
      rw no_restart (
        record {
          multiple = ap (λ (k : ℕ). k * 2 ^ width) round;
          fits = omega (arith, next_is, room);
          earlier = λ y. omega (arith, round, v.earlier y);
        },
        rw other refl,
      )

  -- From the id 2 ^ 32 on, no mark is ever seen: the mask clears the upper half of the elements.
  pub get_overflow : (m : Marker) (x j : ℕ) → 2 ^ 32 ≤ m.marker_id → get width m x j ≡ false
  unfolding get
  get_overflow m x j h =
      let (lo, hi) = shift_right_bounds (get_or m.cells x 0 % 2 ^ 32) width in
      let other : (masked width (get_or m.cells x 0) == m.marker_id) ≡ false = ground (arith, lo) in
      rw other refl
