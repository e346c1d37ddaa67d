-- ===== src/Tests/MemoryUsed.antt =====
-- A witness for src/memory_used.rs: a vector of two strings, with room for three.
use geocode_csv.Base.{ℕ, ◌+◌, ◌≡◌, [], ◌∷◌, arith}
use geocode_csv.Base.Text.{codes}
use geocode_csv.MemoryUsed.{Vec, string_memory, vec_memory, memory_used, sum_used, vec_memory-exact}

abbrev strings : Vec (Vec ℕ)
strings = record {
  items =
      record { items = codes "ab"; capacity = 4 } ∷ record { items = codes "c"; capacity = 1 } ∷ [];
  capacity = 3;
}

vec_memory-exact_example :
    memory_used (vec_memory (string_memory 24) 24) strings
    ≡ 24 + sum_used (string_memory 24) strings.items + 24
vec_memory-exact_example = vec_memory-exact (string_memory 24) 24 strings (omega arith)
