-- ===== src/FastResetArray/Laws.antt =====
-- Every entry that is not initial is listed, so clear resets the whole array.
use ka_min_par.Prelude.{
  ℕ, ◌<◌, ◌≡◌, refl, sym, ◌∙◌, ap, inl, inr, Bool, true, false, ◌||◌, some, List, [], ◌∷◌, ◌++◌,
  arith, ltb, ◌==◌, if◌then◌else◌, Bool-cases, length, get_or, set, get_or-set, get_or-set_default,
  length-set,
}
use ka_min_par.Prelude.Loops.{for_each}
use ka_min_par.FastResetArray.{FastResetArray, get, access, set_entry, clear}

-- Whether a position is listed.
abbrev pub is_listed : List ℕ → ℕ → Bool
is_listed [] pos = false
is_listed (x ∷ xs) pos = x == pos || is_listed xs pos

pub listed_more :
    (xs : List ℕ) (x pos : ℕ) → is_listed xs pos ≡ true → is_listed (xs ++ x ∷ []) pos ≡ true
listed_more [] x pos h = ground (arith, h)
listed_more (y ∷ xs) x pos h = ground (arith, listed_more xs x pos)

pub listed_last : (xs : List ℕ) (pos : ℕ) → is_listed (xs ++ pos ∷ []) pos ≡ true
listed_last [] pos = ground arith
listed_last (y ∷ xs) pos = ground (arith, listed_last xs pos)

module _ {T : Type 0} (initial : T) (is_initial : T → Bool)
    (is_initial_eq : (x : T) → is_initial x ≡ true → x ≡ initial) where
  -- The entries that are not initial are listed.
  abbrev pub IsTracked : FastResetArray T → Type 0
  IsTracked a =
      (pos : ℕ)
      → is_initial (get initial is_initial a pos) ≡ false
      → is_listed a.used_entries pos ≡ true

  -- set of a position in range succeeds, keeps the entries listed, and changes that entry alone.
  pub set_entry_correct :
      (a : FastResetArray T) (pos : ℕ) (v : T)
      → IsTracked a
      → pos < length a.cells
      → (b : FastResetArray T) × (set_entry initial is_initial a pos v ≡ some b)
        × IsTracked b
        × (length b.cells ≡ length a.cells)
        × ((x : ℕ)
            → get initial is_initial b x ≡ (if pos == x then v else get initial is_initial a x))
  unfolding set_entry access
  set_entry_correct a pos v tracked h =
      let inside : ltb pos (length a.cells) ≡ true = ground arith in
      let at_entry = λ (x : ℕ). get_or-set a.cells pos x v initial h in
      let other =
        λ (x : ℕ) (q : (pos == x) ≡ false)
            (r : is_initial (get_or (set a.cells pos v) x initial) ≡ false).
          tracked x (
            ap is_initial
              (sym (at_entry x ∙ (ap (λ (t : Bool). if t then v else get_or a.cells x initial) q)))
            ∙ r) in
      elim (Bool-cases (is_initial (get initial is_initial a pos))) [
        | inl fresh ↦ (
          record { cells = set a.cells pos v; used_entries = a.used_entries ++ pos ∷ [] },
          rw (inside, fresh) refl,
          λ x r. elim (Bool-cases (pos == x)) [
            | inl here ↦ let e : pos ≡ x = ground arith in rw e (listed_last a.used_entries x)
            | inr there ↦ listed_more a.used_entries pos x (other x there r)
          ],
          length-set a.cells pos v,
          at_entry,
        )
        | inr changed ↦ (
          record { cells = set a.cells pos v; used_entries = a.used_entries },
          rw (inside, changed) refl,
          λ x r. elim (Bool-cases (pos == x)) [
            | inl here ↦
                let e : pos ≡ x = ground arith in
                ap (is_listed a.used_entries) (sym e) ∙ tracked pos changed
            | inr there ↦ other x there r
          ],
          length-set a.cells pos v,
          at_entry,
        )
      ]

  pub length-reset :
      (used : List ℕ) (xs : List T)
      → length (for_each used (λ pos cells. set cells pos initial) xs) ≡ length xs
  length-reset [] xs = refl
  length-reset (u ∷ used) xs = length-reset used (set xs u initial) ∙ length-set xs u initial

  pub get_or-reset :
      (used : List ℕ) (xs : List T) (x : ℕ)
      → get_or (for_each used (λ pos cells. set cells pos initial) xs) x initial
        ≡ (if is_listed used x then initial else get_or xs x initial)
  get_or-reset [] xs x = refl
  get_or-reset (u ∷ used) xs x =
      get_or-reset used (set xs u initial) x ∙ elim (Bool-cases (is_listed used x)) [
        | inl later ↦ elim (Bool-cases (u == x)) [
          | inl now ↦ rw (later, now) refl
          | inr other ↦ rw (later, other) refl
        ]
        | inr not_later ↦ elim (Bool-cases (u == x)) [
          | inl now ↦ rw (not_later, now) (rw now at (get_or-set_default xs u x initial))
          | inr other ↦ rw (not_later, other) (rw other at (get_or-set_default xs u x initial))
        ]
      ]

  -- clear visits the listed entries alone, and yet every entry is initial afterwards.
  pub array_clear_correct :
      (a : FastResetArray T) (x : ℕ)
      → IsTracked a
      → (get initial is_initial (clear initial is_initial a) x ≡ initial)
        × (length (clear initial is_initial a).cells ≡ length a.cells)
        × ((clear initial is_initial a).used_entries ≡ [])
  unfolding clear
  array_clear_correct a x tracked = (
    get_or-reset a.used_entries a.cells x ∙ elim (Bool-cases (is_listed a.used_entries x)) [
      | inl listed ↦ rw listed refl
      | inr unlisted ↦ elim (Bool-cases (is_initial (get initial is_initial a x))) [
        | inl same ↦ rw unlisted (is_initial_eq (get_or a.cells x initial) same)
        | inr changed ↦ absurd (ground (arith, tracked x changed))
      ]
    ],
    length-reset a.used_entries a.cells,
    refl,
  )
