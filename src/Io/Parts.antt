-- ===== src/Io/Parts.antt =====
-- Files of a partition, with one block on each line: partition::write and partition::read of
-- kaminpar/io.cc.
use ka_min_par.Prelude.{
  not, false, assert, ◌==◌, sym, ℕ, zero, suc, ◌+◌, ◌-◌, ◌*◌, ◌%◌, ◌^◌, ◌≤◌, ◌<◌, ◌≡◌, refl, ◌∙◌,
  ap, Option, none, some, List, [], ◌∷◌, ◌++◌, map, inl, inr, arith, Bool-cases, Option-cases,
  length, length-append, get_or, ◌>>=◌,
}
use mathlib.Core.List.{append_assoc, append-nil}
use ka_min_par.Io.{is_digit, skip_spaces, skip_nl, scan_digits, scan_uint, write_uint}
use ka_min_par.Io.Decimal.{scan_uint-write_uint, write_uint-is_digit}

-- for (block : partition) out << block << "\n";
unfoldable pub write : List ℕ → List ℕ
write [] = []
write (block ∷ blocks) = write_uint block ++ (b'\n' ∷ write blocks)

-- for (u : permutation) out << partition[u] << "\n";
unfoldable pub write_permuted : List ℕ → List ℕ → List ℕ
write_permuted partition [] = []
write_permuted partition (u ∷ permutation) =
    write_uint (get_or partition u 0) ++ (b'\n' ∷ write_permuted partition permutation)

-- The loop of `read`, with at most `fuel` tests.
unfoldable pub read_blocks : ℕ → List ℕ → List ℕ → Option (List ℕ)
read_blocks zero s partition = none
read_blocks (suc fuel) [] partition = some partition
read_blocks (suc fuel) (c ∷ s) partition =
    let block = scan_uint (c ∷ s) in
    skip_nl block.1 >>= λ rest. read_blocks fuel rest (partition ++ (block.0 % 2 ^ 32) ∷ [])

-- A file of no bytes cannot be mapped.
unfoldable pub read : List ℕ → Option (List ℕ)
read s = assert (not (length s == 0)) (read_blocks (suc (length s)) s [])

length-skip_spaces : (s : List ℕ) → length (skip_spaces s) ≤ length s
unfolding skip_spaces
length-skip_spaces [] = omega arith
length-skip_spaces (c ∷ s) = ground (arith, length-skip_spaces s)

length-scan_digits : (number : ℕ) (s : List ℕ) → length (scan_digits number s).1 ≤ length s
unfolding scan_digits
length-scan_digits number [] = omega arith
length-scan_digits number (c ∷ s) = elim (Bool-cases (is_digit c)) [
  | inl digit ↦ rw digit (omega (arith, length-scan_digits ((number * 10 + (c - b'0')) % 2 ^ 64) s))
  | inr other ↦ rw other (omega arith)
]

-- A line that was read is gone.
length-skip_nl : (s rest : List ℕ) → skip_nl s ≡ some rest → length s ≡ suc (length rest)
unfolding skip_nl
length-skip_nl [] rest h = absurd cc
length-skip_nl (c ∷ s) rest h = ground arith

length-scan_uint : (s : List ℕ) → length (scan_uint s).1 ≤ length s
unfolding scan_uint
length-scan_uint s = omega (arith, length-skip_spaces (scan_digits 0 s).1, length-scan_digits 0 s)

-- The loop of `read` from a position with the blocks that have been read, to its result: the blocks
-- when the file is at its end, or `none` where a line does not end behind its number. A loop that
-- never ends, or is cut short, has no run.
pub data Run : List ℕ → List ℕ → Option (List ℕ) → Type 0 where
  ended : {partition : List ℕ} → Run [] partition (some partition)
  faulted :
      {c : ℕ} {s partition : List ℕ}
      → skip_nl (scan_uint (c ∷ s)).1 ≡ none
      → Run (c ∷ s) partition none
  line :
      {c : ℕ} {s rest partition : List ℕ} {result : Option (List ℕ)}
      → skip_nl (scan_uint (c ∷ s)).1 ≡ some rest
      → Run rest (partition ++ ((scan_uint (c ∷ s)).0 % 2 ^ 32) ∷ []) result
      → Run (c ∷ s) partition result

-- The loop ends by itself on every file, whatever it contains: it has a run, line by line to the end
-- of the file or to a line that does not end behind its number, and any fuel above the number of
-- characters is enough for it: what `read_blocks` returns is the result of this run.
pub read_blocks-Run :
    (fuel : ℕ) (s partition : List ℕ)
    → length s < fuel
    → Run s partition (read_blocks fuel s partition)
unfolding read_blocks
read_blocks-Run zero s partition h = absurd (omega arith)
read_blocks-Run (suc fuel) [] partition h = Run.ended
read_blocks-Run (suc fuel) (c ∷ s) partition h =
    let block = scan_uint (c ∷ s) in
    elim (Option-cases (skip_nl block.1)) [
      | inl fault ↦ rw fault (Run.faulted fault)
      | inr (rest, found) ↦
          let shorter = length-skip_nl block.1 rest found in
          let scanned = length-scan_uint (c ∷ s) in
          rw found (
            Run.line found
              (read_blocks-Run fuel rest (partition ++ (block.0 % 2 ^ 32) ∷ []) (omega arith)))
    ]

-- Blocks that fit their type.
pub data AreBlocks : List ℕ → Type 0 where
  none_left : AreBlocks []
  next :
      {block : ℕ} {blocks : List ℕ} → block < 2 ^ 32 → AreBlocks blocks → AreBlocks (block ∷ blocks)

read_blocks-line :
    (fuel : ℕ) (s partition : List ℕ) (c : ℕ) (tail : List ℕ)
    → s ≡ c ∷ tail
    → read_blocks (suc fuel) s partition
      ≡ skip_nl (scan_uint s).1
        >>= (λ rest. read_blocks fuel rest (partition ++ ((scan_uint s).0 % 2 ^ 32) ∷ []))
unfolding read_blocks
read_blocks-line fuel s partition c tail e = rw e refl

read_blocks-write :
    (fuel : ℕ) (blocks partition : List ℕ)
    → AreBlocks blocks
    → length (write blocks) < fuel
    → read_blocks fuel (write blocks) partition ≡ some (partition ++ blocks)
unfolding write
read_blocks-write zero blocks partition fits h = absurd (omega arith)
read_blocks-write (suc fuel) [] partition fits h =
    unfold read_blocks in ap some (sym (append-nil partition))
read_blocks-write (suc fuel) (block ∷ blocks) partition (AreBlocks.next small fits) h =
    let rest = write blocks in
    let (d, tail, starts, digit) = write_uint-is_digit block (b'\n' ∷ rest) in
    let size = length-append (write_uint block) (b'\n' ∷ rest) in
    let stop : skip_spaces (b'\n' ∷ rest) ≡ b'\n' ∷ rest = unfold skip_spaces in refl in
    let scanned : scan_uint (write_uint block ++ (b'\n' ∷ rest)) ≡ (block, b'\n' ∷ rest) =
      scan_uint-write_uint block b'\n' rest (omega arith) refl ∙ rw stop refl in
    let line : skip_nl (b'\n' ∷ rest) ≡ some rest = unfold skip_nl in refl in
    let fitted : block % 2 ^ 32 ≡ block = omega arith in
    rw
      (
        read_blocks-line fuel (write_uint block ++ (b'\n' ∷ rest)) partition d tail starts,
        scanned,
        line,
        fitted,
      )
      (read_blocks-write fuel blocks (partition ++ block ∷ []) fits (omega (arith, size))
        ∙ ap some (append_assoc partition (block ∷ []) blocks))

not_empty : (partition : List ℕ) → 0 < length partition → (length (write partition) == 0) ≡ false
unfolding write
not_empty [] h = absurd (omega arith)
not_empty (block ∷ partition) h =
    let size = length-append (write_uint block) (b'\n' ∷ write partition) in ground (arith, size)

-- A partition of at least one node whose blocks fit 32 bits is read back as it was written, however
-- long it is.
pub read-write :
    (partition : List ℕ)
    → 0 < length partition
    → AreBlocks partition
    → read (write partition) ≡ some partition
unfolding read
read-write partition some_node fits =
    rw (not_empty partition some_node) (read_blocks-write _ partition [] fits (omega arith))

-- The file of an empty partition cannot be read.
read-write_empty : read (write []) ≡ none
unfolding read write
read-write_empty = refl

write_permuted-map :
    (partition permutation : List ℕ)
    → write_permuted partition permutation ≡ write (map (λ u. get_or partition u 0) permutation)
unfolding write write_permuted
write_permuted-map partition [] = refl
write_permuted-map partition (u ∷ permutation) = rw (write_permuted-map partition permutation) refl

get_or-AreBlocks : (blocks : List ℕ) (u : ℕ) → AreBlocks blocks → get_or blocks u 0 < 2 ^ 32
get_or-AreBlocks [] u fits = omega arith
get_or-AreBlocks (block ∷ blocks) zero (AreBlocks.next small fits) = small
get_or-AreBlocks (block ∷ blocks) (suc u) (AreBlocks.next small fits) =
    get_or-AreBlocks blocks u fits

map-AreBlocks :
    (blocks permutation : List ℕ)
    → AreBlocks blocks
    → AreBlocks (map (λ u. get_or blocks u 0) permutation)
map-AreBlocks blocks [] fits = AreBlocks.none_left
map-AreBlocks blocks (u ∷ permutation) fits =
    AreBlocks.next (get_or-AreBlocks blocks u fits) (map-AreBlocks blocks permutation fits)

map_some : (f : ℕ → ℕ) (xs : List ℕ) → 0 < length xs → 0 < length (map f xs)
map_some f [] h = h
map_some f (x ∷ xs) h = omega arith

-- A partition of at least one node that was written in the order of a permutation is read back in that order.
pub read-write_permuted :
    (partition permutation : List ℕ)
    → 0 < length permutation
    → AreBlocks partition
    → read (write_permuted partition permutation)
      ≡ some (map (λ u. get_or partition u 0) permutation)
read-write_permuted partition permutation some_node fits =
    rw (write_permuted-map partition permutation) (
      read-write _ (map_some (λ u. get_or partition u 0) permutation some_node)
        (map-AreBlocks partition permutation fits))
