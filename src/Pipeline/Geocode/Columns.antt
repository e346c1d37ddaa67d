-- ===== src/Pipeline/Geocode/Columns.antt =====
-- src/pipeline.rs: the new columns of each row, from the results for each prefix.
use geocode_csv.Base.{
  ℕ, zero, suc, ◌+◌, ◌*◌, ◌-◌, ◌<◌, ◌≤◌, ◌≡◌, refl, sym, ◌∙◌, ap, Option, none, some, List, [], ◌∷◌,
  ◌++◌, length, take, drop, replicate, get_elem?, append_assoc, append-nil, arith, ==_iff,
}
use geocode_csv.Base.Text.{Text}
use geocode_csv.Base.Outcome.{ok}
use geocode_csv.Addresses.Columns.{StringRecord}
use geocode_csv.Geocoders.{Geocoded}
use geocode_csv.Pipeline.Geocode.{chunks_loop, add_response, add_responses, add_all_responses}

length-take_of_le : {A : Type 0} (n : ℕ) (l : List A) → n ≤ length l → length (take n l) ≡ n
length-take_of_le zero l h = refl
length-take_of_le (suc n) [] h = absurd (omega arith)
length-take_of_le (suc n) (x ∷ l) h = ap suc (length-take_of_le n l (omega arith))

pub length-drop_of_le : {A : Type 0} (n : ℕ) (l : List A) → length (drop n l) ≡ length l - n
length-drop_of_le zero l = omega arith
length-drop_of_le (suc n) [] = omega arith
length-drop_of_le (suc n) (x ∷ l) = omega (arith, length-drop_of_le n l)

get_elem?-take :
    {A : Type 0} (n i : ℕ) (l : List A) → i < n → get_elem? (take n l) i ≡ get_elem? l i
get_elem?-take zero i l h = absurd (omega arith)
get_elem?-take (suc n) i [] h = refl
get_elem?-take (suc n) zero (x ∷ l) h = refl
get_elem?-take (suc n) (suc i) (x ∷ l) h = get_elem?-take n i l (omega arith)

-- The columns that a result adds to a row: its values, or as many empty ones as there are columns.
abbrev pub response_columns : ℕ → Option (Option Geocoded) → List Text
response_columns cols none = []
response_columns cols (some none) = replicate cols []
response_columns cols (some (some g)) = g.column_values

-- The columns that row `i` of `n` gets from the results for `k` prefixes: those of the results `i`,
-- `n + i`, `2 * n + i`, …
abbrev pub new_columns : ℕ → ℕ → List (Option Geocoded) → ℕ → ℕ → List Text
new_columns cols zero results n i = []
new_columns cols (suc k) results n i =
    response_columns cols (get_elem? results i) ++ new_columns cols k (drop n results) n i

add_response-columns :
    (names : List Text) (r : Option Geocoded) (row : StringRecord)
    → add_response names r row ≡ row ++ response_columns (length names) (some r)
unfolding add_response
add_response-columns names none row = refl
add_response-columns names (some g) row = refl

length-add_responses :
    (names : List Text) (rs : List (Option Geocoded)) (rows : List StringRecord)
    → length rs ≡ length rows
    → length (add_responses names rs rows) ≡ length rows
unfolding add_responses
length-add_responses names [] rows h = refl
length-add_responses names (r ∷ rs) [] h = refl
length-add_responses names (r ∷ rs) (row ∷ rows) h =
    ap suc (length-add_responses names rs rows (omega arith))

add_responses-get_elem? :
    (names : List Text) (rs : List (Option Geocoded)) (rows : List StringRecord) (i : ℕ)
    (row : StringRecord)
    → length rs ≡ length rows
    → get_elem? rows i ≡ some row
    → get_elem? (add_responses names rs rows) i
      ≡ some (row ++ response_columns (length names) (get_elem? rs i))
unfolding add_responses
add_responses-get_elem? names [] [] i row h e = cc
add_responses-get_elem? names [] (r ∷ rows) i row h e = absurd (omega arith)
add_responses-get_elem? names (r ∷ rs) [] i row h e = absurd (omega arith)
add_responses-get_elem? names (r ∷ rs) (x ∷ rows) zero row h e =
    cc (add_response-columns names r row, e)
add_responses-get_elem? names (r ∷ rs) (x ∷ rows) (suc i) row h e =
    add_responses-get_elem? names rs rows i row (omega arith) e

-- What the row at an index has become.
abbrev pub Extended :
    ℕ → ℕ → List (Option Geocoded) → ℕ → List StringRecord → List StringRecord → Type 0
Extended cols k results n rows rows' =
    (length rows' ≡ length rows)
    × ((i : ℕ) (row : StringRecord)
        → i < n
        → get_elem? rows i ≡ some row
        → get_elem? rows' i ≡ some (row ++ new_columns cols k results n i))

chunks_loop-nil : {A : Type 0} (fuel n : ℕ) (l : List A) → length l ≡ 0 → chunks_loop fuel n l ≡ []
unfolding chunks_loop
chunks_loop-nil zero n l h = refl
chunks_loop-nil (suc fuel) n [] h = refl
chunks_loop-nil (suc fuel) n (x ∷ l) h = absurd (omega arith)

chunks_loop-step :
    {A : Type 0} (fuel n : ℕ) (l : List A)
    → 0 < length l
    → length l ≤ fuel
    → chunks_loop fuel n l ≡ take n l ∷ chunks_loop (fuel - 1) n (drop n l)
unfolding chunks_loop
chunks_loop-step fuel n [] h f = absurd (omega arith)
chunks_loop-step zero n (x ∷ l) h f = absurd (omega arith)
chunks_loop-step (suc fuel) n (x ∷ l) h f = let e : suc fuel - 1 ≡ fuel = omega arith in rw e refl

-- One more prefix.
Extended-step :
    (names : List Text) (k : ℕ) (results : List (Option Geocoded)) (n : ℕ)
    (rows rows' : List StringRecord)
    → length rows ≡ n
    → length (take n results) ≡ n
    → Extended (length names) k (drop n results) n (add_responses names (take n results) rows) rows'
    → Extended (length names) (suc k) results n rows rows'
Extended-step names k results n rows rows' r l (same, at) = (
  same ∙ length-add_responses names (take n results) rows (l ∙ sym r),
  λ i row small e.
      at i _ small (add_responses-get_elem? names (take n results) rows i row (l ∙ sym r) e)
      ∙ rw (get_elem?-take n i results small, append_assoc) refl,
)

add_all-step :
    (names : List Text) (chunk : List (Option Geocoded)) (more : List (List (Option Geocoded)))
    (rows : List StringRecord)
    → length chunk ≡ length rows
    → add_all_responses names (chunk ∷ more) rows
      ≡ add_all_responses names more (add_responses names chunk rows)
unfolding add_all_responses
add_all-step names chunk more rows l = rw ((==_iff (length chunk) (length rows)).1 l) refl

pub add_all-Extended :
    (names : List Text) (k fuel n : ℕ) (results : List (Option Geocoded)) (rows : List StringRecord)
    → length rows ≡ n
    → 0 < n
    → length results ≡ k * n
    → length results ≤ fuel
    → (rows' : List StringRecord) × (add_all_responses names (chunks_loop fuel n results) rows
        ≡ ok rows')
      × Extended (length names) k results n rows rows'
unfolding add_all_responses
add_all-Extended names zero fuel n results rows r pos l f = (
  rows,
  rw (chunks_loop-nil fuel n results (omega (arith, l))) refl,
  (refl, λ i row small e. rw append-nil e),
)
add_all-Extended names (suc k) fuel n results rows r pos l f =
    let len : length results ≡ n + k * n = omega (arith, l) in
    let taken : length (take n results) ≡ n = length-take_of_le n results (omega (arith, len)) in
    let same = length-add_responses names (take n results) rows (taken ∙ sym r) in
    let ih =
      add_all-Extended names k (fuel - 1) n (drop n results)
        (add_responses names (take n results) rows) (same ∙ r) pos
        (omega (arith, length-drop_of_le n results, len))
        (omega (arith, length-drop_of_le n results, len, f, pos)) in
    (
      ih.0,
      rw
          (
            chunks_loop-step fuel n results (omega (arith, len, pos)) f,
            add_all-step names (take n results) (chunks_loop (fuel - 1) n (drop n results)) rows
                (taken ∙ sym r),
          )
          ih.1,
      Extended-step names k results n rows ih.0 r taken ih.2,
    )
