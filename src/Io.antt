-- ===== src/Io.antt =====
-- Reading and writing of files (kaminpar/io.cc). A mapped file is the list of its bytes from the
-- position on, so that it is at its end when the list is empty. `behind` is the byte behind the last: a
-- mapping is filled with zeros up to the end of its last page, and a byte after that is the fault
-- `none`, as is a failed assertion. Opening and unmapping files is left out.
pub mod Decimal
pub mod Metis
pub mod Parts
mod Tests
use ka_min_par.Prelude.{
  ℕ, zero, suc, ◌+◌, ◌-◌, ◌*◌, ◌/◌, ◌%◌, ◌^◌, Bool, true, false, not, ◌&&◌, ◌||◌, Option, none,
  some, List, [], ◌∷◌, ◌++◌, ltb, leb, ◌==◌, if◌then◌else◌, length, assert, ◌>>=◌,
}

-- The byte behind a file, where the pages of the mapping have `page_size` bytes.
abbrev pub behind_file : ℕ → List ℕ → Option ℕ
behind_file page_size file = if length file % page_size == 0 then none else some 0

-- `current()`, with the byte behind the file
abbrev pub current : Option ℕ → List ℕ → Option ℕ
current behind [] = behind
current behind (c ∷ s) = some c

-- std::isdigit
abbrev pub is_digit : ℕ → Bool
is_digit c = leb b'0' c && leb c b'9'

unfoldable pub skip_spaces : List ℕ → List ℕ
skip_spaces [] = []
skip_spaces (c ∷ s) = let rest = skip_spaces s in if c == b' ' || c == b'\t' then rest else c ∷ s

unfoldable pub skip_comment : List ℕ → List ℕ
skip_comment [] = []
skip_comment (c ∷ s) = let rest = skip_comment s in if c == b'\n' then s else rest

unfoldable pub skip_nl : List ℕ → Option (List ℕ)
skip_nl [] = none
skip_nl (c ∷ s) = assert (c == b'\n') (some s)

-- The loop of scan_uint, in 64 bits.
unfoldable pub scan_digits : ℕ → List ℕ → ℕ × List ℕ
scan_digits number [] = (number, [])
scan_digits number (c ∷ s) =
    let rest = scan_digits ((number * 10 + (c - b'0')) % 2 ^ 64) s in
    if is_digit c then rest else (number, c ∷ s)

unfoldable pub scan_uint : List ℕ → ℕ × List ℕ
unfolding scan_digits skip_spaces
scan_uint s = let scanned = scan_digits 0 s in (scanned.0, skip_spaces scanned.1)

-- The loop that skips lines with comments, from a position after spaces, with at most `fuel` lines.
unfoldable pub skip_comments : Option ℕ → ℕ → List ℕ → Option (List ℕ)
skip_comments behind zero s = none
skip_comments behind (suc fuel) s =
    let rest = skip_comments behind fuel (skip_spaces (skip_comment s)) in
    current behind s >>= λ c. if c == b'%' then rest else some s

-- A number as it is written to a stream: at most `fuel` digits before the last.
abbrev pub digits : ℕ → ℕ → List ℕ
digits zero n = (b'0' + n % 10) ∷ []
digits (suc fuel) n =
    let rest = digits fuel (n / 10) in
    if ltb n 10 then (b'0' + n) ∷ [] else rest ++ (b'0' + n % 10) ∷ []

-- `out << n` for a number of 64 bits.
unfoldable pub write_uint : ℕ → List ℕ
write_uint n = digits 20 n

-- The characters that a loop `for (i = a; ...; ++i)` of `count` rounds writes.
abbrev pub concat_from : ℕ → ℕ → (ℕ → List ℕ) → List ℕ
concat_from a zero f = []
concat_from a (suc count) f = f a ++ concat_from (suc a) count f
