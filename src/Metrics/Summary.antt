-- ===== src/Metrics/Summary.antt =====
-- crates/metrics-exporter-newrelic/src/lib.rs: the summary of a histogram, whose values come in blocks.
use geocode_csv.Base.{
  ℕ, ◌+◌, ◌≡◌, refl, sym, ◌∙◌, ap, Option, none, some, List, [], ◌∷◌, ◌++◌, length, length-append,
  arith,
}

unfoldable pub reduce_discarding_nulls : {T : Type 0} → (T → T → T) → Option T → Option T → Option T
reduce_discarding_nulls f none none = none
reduce_discarding_nulls f (some v) none = some v
reduce_discarding_nulls f none (some v) = some v
reduce_discarding_nulls f (some v1) (some v2) = some (f v1 v2)

-- The operations of `f64`.
pub record Floats (F : Type 0) : Type 0 where
  pub nought : F
  pub add : F → F → F
  pub min : F → F → F
  pub max : F → F → F

pub record Summary (F : Type 0) : Type 0 where
  pub count : ℕ
  pub sum : F
  pub min : Option F
  pub max : Option F

module _ {F : Type 0} (floats : Floats F) where
  -- The loop over the values of a block.
  unfoldable pub add_values : List F → Summary F → Summary F
  unfolding reduce_discarding_nulls
  add_values [] s = s
  add_values (value ∷ values) s = add_values values (record {
    count = s.count;
    sum = floats.add s.sum value;
    min = reduce_discarding_nulls floats.min s.min (some value);
    max = reduce_discarding_nulls floats.max s.max (some value);
  })

  -- The argument of `clear_with`.
  unfoldable pub add_block : List F → Summary F → Summary F
  unfolding add_values
  add_block values s =
      add_values values
        (record { count = s.count + length values; sum = s.sum; min = s.min; max = s.max })

  abbrev pub no_values : Summary F
  no_values = record { count = 0; sum = floats.nought; min = none; max = none }

  -- `clear_with` calls it for each block.
  unfoldable pub add_blocks : List (List F) → Summary F → Summary F
  unfolding add_block
  add_blocks [] s = s
  add_blocks (block ∷ blocks) s = add_blocks blocks (add_block block s)

  unfoldable pub summarize : List (List F) → Summary F
  unfolding add_blocks
  summarize blocks = add_blocks blocks no_values

-- A summary of all values at once: their number, their sum from left to right, and the least and the
-- greatest.
module _ {F : Type 0} (floats : Floats F) where
  abbrev pub joined : List (List F) → List F
  joined [] = []
  joined (block ∷ blocks) = block ++ joined blocks

  abbrev pub fold_left : (F → F → F) → F → List F → F
  fold_left f a [] = a
  fold_left f a (v ∷ values) = fold_left f (f a v) values

  abbrev pub extreme : (F → F → F) → List F → Option F
  extreme f [] = none
  extreme f (v ∷ values) = some (fold_left f v values)

  abbrev pub reference : List F → Summary F
  reference values = record {
    count = length values;
    sum = fold_left floats.add floats.nought values;
    min = extreme floats.min values;
    max = extreme floats.max values;
  }

  abbrev continue : (F → F → F) → Option F → List F → Option F
  continue f none values = extreme f values
  continue f (some v) values = some (fold_left f v values)

  continue-reduce :
      (f : F → F → F) (o : Option F) (v : F) (values : List F)
      → continue f (reduce_discarding_nulls f o (some v)) values ≡ continue f o (v ∷ values)
  unfolding reduce_discarding_nulls
  continue-reduce f none v values = refl
  continue-reduce f (some u) v values = refl

  continue-nil : (f : F → F → F) (o : Option F) → continue f o [] ≡ o
  continue-nil f none = refl
  continue-nil f (some v) = refl

  add_values-continue :
      (values : List F) (s : Summary F)
      → add_values floats values s ≡ record {
        count = s.count;
        sum = fold_left floats.add s.sum values;
        min = continue floats.min s.min values;
        max = continue floats.max s.max values;
      }
  unfolding add_values
  add_values-continue [] s = cc (continue-nil floats.min s.min, continue-nil floats.max s.max)
  add_values-continue (v ∷ values) s =
      add_values-continue values _
      ∙ cc (continue-reduce floats.min s.min v values, continue-reduce floats.max s.max v values)

  -- A summary, and further values.
  abbrev resume : Summary F → List F → Summary F
  resume s values = record {
    count = s.count + length values;
    sum = fold_left floats.add s.sum values;
    min = continue floats.min s.min values;
    max = continue floats.max s.max values;
  }

  fold_left-append :
      (f : F → F → F) (a : F) (xs ys : List F)
      → fold_left f a (xs ++ ys) ≡ fold_left f (fold_left f a xs) ys
  fold_left-append f a [] ys = refl
  fold_left-append f a (x ∷ xs) ys = fold_left-append f (f a x) xs ys

  continue-append :
      (f : F → F → F) (o : Option F) (xs ys : List F)
      → continue f o (xs ++ ys) ≡ continue f (continue f o xs) ys
  continue-append f (some v) xs ys = ap some (fold_left-append f v xs ys)
  continue-append f none [] ys = refl
  continue-append f none (x ∷ xs) ys = ap some (fold_left-append f x xs ys)

  resume-append : (s : Summary F) (xs ys : List F) → resume s (xs ++ ys) ≡ resume (resume s xs) ys
  resume-append s xs ys =
      let count : s.count + length (xs ++ ys) ≡ s.count + length xs + length ys =
        omega (arith, length-append xs ys) in
      cc (
        count,
        fold_left-append floats.add s.sum xs ys,
        continue-append floats.min s.min xs ys,
        continue-append floats.max s.max xs ys,
      )

  add_block-resume : (values : List F) (s : Summary F) → add_block floats values s ≡ resume s values
  unfolding add_block
  add_block-resume values s = add_values-continue values _

  add_blocks-resume :
      (blocks : List (List F)) (s : Summary F)
      → add_blocks floats blocks s ≡ resume s (joined blocks)
  unfolding add_blocks
  add_blocks-resume [] s =
      let count : s.count ≡ s.count + length (joined []) = omega arith in
      cc (count, continue-nil floats.min s.min, continue-nil floats.max s.max)
  add_blocks-resume (block ∷ blocks) s =
      add_blocks-resume blocks (add_block floats block s)
      ∙ ap (λ t. resume t (joined blocks)) (add_block-resume block s)
      ∙ sym (resume-append s block (joined blocks))

  -- However the values of a histogram are split into blocks, their summary is the number of all the
  -- values, their sum from left to right, and the least and the greatest of them, or None for no values.
  pub summarize-reference :
      (blocks : List (List F)) → summarize floats blocks ≡ reference (joined blocks)
  unfolding summarize
  summarize-reference blocks =
      let count : 0 + length (joined blocks) ≡ length (joined blocks) = omega arith in
      add_blocks-resume blocks (no_values floats) ∙ cc count
