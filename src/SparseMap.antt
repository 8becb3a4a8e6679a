-- ===== src/SparseMap.antt =====
-- SparseMap of kaminpar/datastructure/sparse_map.h: the sparse set of Briggs and Torczon with a
-- value for each key. `initial` is Value(), and what the memory holds before it is written is an
-- argument of allocate.
pub mod Valid
pub mod Laws
pub mod Remove
pub mod Assign
mod Tests
use ka_min_par.Prelude.{
  ℕ, zero, suc, ◌+◌, ◌-◌, Bool, true, false, ◌&&◌, Option, none, some, List, [], ◌∷◌, ltb, ◌==◌,
  if◌then◌else◌, length, get_or, set, assert,
}

pub record Element (V : Type 0) : Type 0 where
  pub key : ℕ
  pub value : V

pub record SparseMap (V : Type 0) : Type 0 where
  pub capacity : ℕ
  pub size : ℕ
  pub sparse : List ℕ
  pub dense : List (Element V)

module _ {V : Type 0} (initial : V) where
  -- A new map over memory with the given contents.
  abbrev pub allocate : ℕ → List ℕ → List (Element V) → SparseMap V
  allocate n sparse dense = record { capacity = n; size = 0; sparse = sparse; dense = dense }

  abbrev pub slot : SparseMap V → ℕ → ℕ
  slot m k = get_or m.sparse k 0

  abbrev pub entry : SparseMap V → ℕ → Element V
  entry m i = get_or m.dense i (record { key = 0; value = initial })

  abbrev pub contains : SparseMap V → ℕ → Bool
  contains m k = ltb (slot m k) m.size && (entry m (slot m k)).key == k

  -- `_dense[_size] = {key, value}; _sparse[key] = _size++;`
  abbrev pub append : SparseMap V → ℕ → V → SparseMap V
  append m k v = record m {
    dense = set m.dense m.size (record { key = k; value = v });
    sparse = set m.sparse k m.size;
    size = m.size + 1;
  }

  unfoldable pub add : SparseMap V → ℕ → V → SparseMap V
  add m k v = if contains m k then m else append m k v

  unfoldable pub remove : SparseMap V → ℕ → SparseMap V
  remove m k =
      let index = slot m k in
      let last = m.size - 1 in
      let swapped = set (set m.dense index (entry m last)) last (entry m index) in
      if contains m k
      then record m {
        dense = swapped;
        sparse =
            set m.sparse (get_or swapped index (record { key = 0; value = initial })).key index;
        size = last;
      }
      else m

  unfoldable pub clear : SparseMap V → SparseMap V
  clear m = record m { size = 0 }

  -- `map[key] = value`, by the reference that operator[] returns.
  unfoldable pub assign : SparseMap V → ℕ → V → SparseMap V
  assign m k v =
      let found = if contains m k then m else append m k initial in
      record found {
        dense =
            set found.dense (slot found k)
              (record { key = (entry found (slot found k)).key; value = v });
      }

  unfoldable pub get : SparseMap V → ℕ → Option V
  get m k = assert (contains m k) (some (entry m (slot m k)).value)
