-- ===== src/MemoryUsed.antt =====
-- src/memory_used.rs: the size of a data structure in memory, which a debug assertion reads. The sizes
-- of types are the compiler's.
use geocode_csv.Base.{ℕ, ◌+◌, ◌*◌, ◌-◌, ◌≤◌, ◌≡◌, ◌∙◌, ap, List, [], ◌∷◌, length, arith}
use native.Mathlib.Nat.{add-mul}

-- The trait, with `size_of::<Self>()`.
pub record MemoryUsed (A : Type 0) : Type 0 where
  pub size_of : ℕ
  pub memory_owned : A → ℕ

abbrev pub memory_used : {A : Type 0} → MemoryUsed A → A → ℕ
memory_used m a = m.memory_owned a + m.size_of

-- `Vec`, with what it has allocated for.
pub record Vec (A : Type 0) : Type 0 where
  pub items : List A
  pub capacity : ℕ

-- `u8`, `i64`
abbrev pub plain_memory : {A : Type 0} → ℕ → MemoryUsed A
plain_memory size = record { size_of = size; memory_owned = λ a. 0 }

module _ {A B : Type 0} (a : MemoryUsed A) (b : MemoryUsed B) where
  abbrev pub pair_memory : ℕ → MemoryUsed (A × B)
  pair_memory size = record {
    size_of = size;
    memory_owned = λ p. a.memory_owned p.0 + b.memory_owned p.1;
  }

slots-split :
    (used capacity size : ℕ)
    → used ≤ capacity
    → capacity * size ≡ used * size + (capacity - used) * size
slots-split used capacity size h =
    let whole : capacity ≡ used + (capacity - used) = omega (arith, h) in
    ap (λ n. n * size) whole ∙ add-mul used (capacity - used) size

module _ {A : Type 0} (a : MemoryUsed A) where
  abbrev pub box_memory : ℕ → MemoryUsed A
  box_memory size = record { size_of = size; memory_owned = λ x. memory_used a x }

  abbrev pub sum_owned : List A → ℕ
  sum_owned [] = 0
  sum_owned (item ∷ items) = a.memory_owned item + sum_owned items

  abbrev pub vec_memory : ℕ → MemoryUsed (Vec A)
  vec_memory size = record {
    size_of = size;
    memory_owned = λ v. sum_owned v.items + v.capacity * a.size_of;
  }

  abbrev pub sum_used : List A → ℕ
  sum_used [] = 0
  sum_used (item ∷ items) = memory_used a item + sum_used items

  sum_used-owned : (items : List A) → sum_used items ≡ sum_owned items + length items * a.size_of
  sum_used-owned [] = omega arith
  sum_used-owned (item ∷ items) = grind (arith, sum_used-owned items)

  -- A vector whose capacity is not below its length uses exactly its own size, what each of its items
  -- uses, counted once, and the size of an item for each slot that is allocated but unused.
  pub vec_memory-exact :
      (size : ℕ) (v : Vec A)
      → length v.items ≤ v.capacity
      → memory_used (vec_memory size) v
        ≡ size + sum_used v.items + (v.capacity - length v.items) * a.size_of
  vec_memory-exact size v h =
      let slots : v.capacity * a.size_of
          ≡ length v.items * a.size_of + (v.capacity - length v.items) * a.size_of =
        slots-split (length v.items) v.capacity a.size_of h in
      omega (arith, sum_used-owned v.items, slots)

-- `String`, which owns its bytes.
abbrev pub string_memory : ℕ → MemoryUsed (Vec ℕ)
string_memory size = record { size_of = size; memory_owned = λ s. s.capacity }

-- `RowCell` of the library bigtable_rs.
pub record RowCell : Type 0 where
  pub family_name : Vec ℕ
  pub qualifier : Vec ℕ
  pub value : Vec ℕ
  pub timestamp_micros : ℕ
  pub labels : Vec (Vec ℕ)

module _ (u8 i64 : MemoryUsed ℕ) (string : MemoryUsed (Vec ℕ)) where
  abbrev pub row_cell_memory : ℕ → MemoryUsed RowCell
  row_cell_memory size = record {
    size_of = size;
    memory_owned = λ cell.
        string.memory_owned cell.family_name
        + (vec_memory u8 size).memory_owned cell.qualifier
        + (vec_memory u8 size).memory_owned cell.value
        + i64.memory_owned cell.timestamp_micros
        + (vec_memory string size).memory_owned cell.labels;
  }
