-- ===== src/Pipeline/Read/Total.antt =====
-- src/pipeline.rs: no header makes `read_csv_from_stdin` panic before its loop.
use geocode_csv.Base.{
  ℕ, ◌≡◌, ◌∙◌, true, false, ◌&&◌, List, [], ◌∷◌, length, replicate, set, ltb, leb, lt→ltb, arith,
  length-set, length-replicate, Bool,
}
use geocode_csv.Base.Text.{Text}
use geocode_csv.Base.Outcome.{Ensures, Ensures-bind}
use geocode_csv.Addresses.Columns.{StringRecord}
use geocode_csv.Addresses.Spec.{AddressColumnSpec, duplicate_columns}
use geocode_csv.Addresses.Spec.Duplicates.{IndicesBelow, duplicate_columns-below}
use geocode_csv.Addresses.Indices.{convert_to_indices_using_headers}
use geocode_csv.Addresses.Indices.Total.{convert_to_indices_using_headers-total}
use geocode_csv.Pipeline.Read.{
  OnDuplicateColumns, error, replace, append, mark_columns, handle_duplicates, indices_of, clean,
  make_plan, chunk_size,
}
use geocode_csv.Pipeline.Read.Laws.{chunk_size-bounds}

mark_columns-total :
    (n : ℕ) (duplicates : List (Text × ℕ)) (flags : List Bool)
    → IndicesBelow n duplicates
    → length flags ≡ n
    → Ensures (λ f. Unit) (mark_columns (indices_of duplicates) flags)
unfolding mark_columns
mark_columns-total n [] flags h l = tt
mark_columns-total n ((name, i) ∷ duplicates) flags (h, hs) l =
    rw (lt→ltb i (length flags) (omega (arith, h, l)))
      (mark_columns-total n duplicates (set flags i true) hs (length-set flags i true ∙ l))

handle_duplicates-total :
    (n : ℕ) (on_duplicate : OnDuplicateColumns) (duplicates : List (Text × ℕ)) (flags : List Bool)
    → IndicesBelow n duplicates
    → length flags ≡ n
    → Ensures (λ d. Unit) (handle_duplicates on_duplicate duplicates flags)
unfolding handle_duplicates
handle_duplicates-total n on_duplicate [] flags h l = tt
handle_duplicates-total n error (d ∷ duplicates) flags h l = tt
handle_duplicates-total n replace (d ∷ duplicates) flags h l =
    Ensures-bind _ _ (mark_columns (indices_of (d ∷ duplicates)) flags) _
      (mark_columns-total n (d ∷ duplicates) flags h l) λ f u. tt
handle_duplicates-total n append (d ∷ duplicates) flags h l = tt

-- Whatever the spec, the columns of the geocoder, the header and the option for duplicate columns, the
-- header gives a plan or an error: marking the duplicate columns stays within the flags, and the
-- assertion on the size of chunks holds.
pub make_plan-total :
    (spec : AddressColumnSpec Text) (column_names : List Text) (on_duplicate : OnDuplicateColumns)
    (headers : StringRecord)
    → Ensures (λ plan. Unit) (make_plan spec column_names on_duplicate headers)
unfolding make_plan
make_plan-total spec column_names on_duplicate headers =
    Ensures-bind _ _ (duplicate_columns spec column_names headers) _
      (duplicate_columns-below spec column_names headers)
      λ duplicates b.
        Ensures-bind _ _
          (handle_duplicates on_duplicate duplicates (replicate (length headers) false)) _
          (handle_duplicates-total (length headers) on_duplicate duplicates _ b
            (length-replicate (length headers) false))
          λ decision u.
            Ensures-bind _ _
              (convert_to_indices_using_headers spec (clean decision.0 decision.1 headers)) _
              (convert_to_indices_using_headers-total spec (clean decision.0 decision.1 headers))
              λ spec' u'.
                let (positive, small, product) = chunk_size-bounds spec' in
                let holds : (ltb 0 (chunk_size spec') && leb (chunk_size spec') 72) ≡ true =
                  ground (arith, positive, small) in
                rw holds tt
