-- ===== src/Pipeline/Read/Laws.antt =====
-- src/pipeline.rs: what `read_csv_from_stdin` sends. The channel here takes every message, and the
-- world is the list of the messages that it took.
use geocode_csv.Base.{
  ℕ, zero, suc, ◌+◌, ◌*◌, ◌/◌, ◌<◌, ◌≤◌, ◌≡◌, refl, sym, ap, ◌∙◌, Bool, true, false, not, ◌||◌,
  List, [], ◌∷◌, ◌++◌, map, length, leb, ltb, if◌then◌else◌, arith, All, append_assoc, append-nil,
  length-append, Bool-cases, inl, inr,
}
use native.Mathlib.Nat.{div-le_self, div-mul-le_self}
use geocode_csv.Base.Text.{Text, is_empty}
use geocode_csv.Base.Outcome
use geocode_csv.Base.Outcome.{Outcome, ok, err, panicked}
use geocode_csv.Base.Effect.{M}
use geocode_csv.Addresses.Columns.{StringRecord}
use geocode_csv.Addresses.Spec.{AddressColumnSpec, duplicate_columns, prefix_count}
use geocode_csv.Addresses.Indices.{convert_to_indices_using_headers}
use geocode_csv.Pipeline.Geocode.{Chunk}
use geocode_csv.Pipeline.Read.{
  Message, chunk, end_of_stream, OnDuplicateColumns, Plan, chunk_size, clean, make_plan, plan_of,
  max, handle_duplicates, read_records, finish_reading, read_csv_from_stdin,
}

abbrev pub take_message : Message → M (List Message) Unit
take_message message taken = (ok tt, taken ++ (message ∷ []))

-- The rows of chunks, one after the other.
abbrev pub all_rows : List Chunk → List StringRecord
all_rows [] = []
all_rows (c ∷ cs) = c.rows ++ all_rows cs

pub map-append_one :
    (full : List Chunk) (c : Chunk)
    → map chunk (full ++ (c ∷ [])) ≡ map chunk full ++ (chunk c ∷ [])
map-append_one [] c = refl
map-append_one (d ∷ full) c = ap (λ ms. chunk d ∷ ms) (map-append_one full c)

pub all_rows-append_one :
    (full : List Chunk) (c : Chunk) → all_rows (full ++ (c ∷ [])) ≡ all_rows full ++ c.rows
all_rows-append_one [] c = append-nil c.rows
all_rows-append_one (d ∷ full) c =
    ap (λ rows. d.rows ++ rows) (all_rows-append_one full c)
    ∙ sym (append_assoc d.rows (all_rows full) c.rows)

abbrev pub clean_rows : Plan → List StringRecord → List StringRecord
clean_rows plan = map (clean plan.should_remove_columns plan.remove_column_flags)

abbrev pub chunk_of : Plan → List StringRecord → Chunk
chunk_of plan rows = record { shared = plan.shared; rows = rows }

-- A chunk of the full size, with the data that all chunks share.
abbrev pub IsFull : Plan → Chunk → Type 0
IsFull plan c = (c.shared ≡ plan.shared) × (length c.rows ≡ plan.size)

-- The rows that are left become a chunk, and so does an input without rows.
abbrev pub last_chunk : Plan → List Chunk → List StringRecord → List Chunk
last_chunk plan full rest =
    if is_empty full || not (is_empty rest) then chunk_of plan rest ∷ [] else []

or_false : (b : Bool) → (b || false) ≡ b
or_false true = refl
or_false false = refl

or_true : (b : Bool) → (b || true) ≡ true
or_true true = refl
or_true false = refl

module _ (plan : Plan) where
  -- The loop, from rows that wait and messages that were sent.
  abbrev Reads : List StringRecord → List StringRecord → Bool → List Message → Type 0
  Reads input rows sent taken =
      (full : List Chunk) × (rest : List StringRecord) × (read_records take_message plan
          (map ok input) rows sent taken
        ≡ (ok (rest, sent || not (is_empty full)), taken ++ map chunk full))
      × All (IsFull plan) full
      × (length rest < plan.size)
      × (all_rows full ++ rest ≡ rows ++ clean_rows plan input)

  read_records-Reads :
      (input rows : List StringRecord) (sent : Bool) (taken : List Message)
      → length rows < plan.size
      → Reads input rows sent taken
  unfolding read_records
  read_records-Reads [] rows sent taken b =
      ([], rows, cc (append-nil taken, or_false sent), tt, b, sym (append-nil rows))
  read_records-Reads (row ∷ input) rows sent taken b =
      let row' = clean plan.should_remove_columns plan.remove_column_flags row in
      let rows' = rows ++ (row' ∷ []) in
      let l : length rows' ≡ length rows + 1 = length-append rows (row' ∷ []) in
      elim (Bool-cases (leb plan.size (length rows'))) [
        | inl e ↦
            let (full, rest, run, f, s, same) =
              read_records-Reads input [] true (taken ++ (chunk (chunk_of plan rows') ∷ []))
                (omega (arith, b)) in
            (
              chunk_of plan rows' ∷ full,
              rest,
              rw (e, run)
                  (cc (
                    or_true sent,
                    append_assoc taken (chunk (chunk_of plan rows') ∷ []) (map chunk full),
                  )),
              ((refl, ground (arith, l, e, b)), f),
              s,
              cc (
                same,
                append_assoc rows' (all_rows full) rest,
                append_assoc rows (row' ∷ []) (clean_rows plan input),
              ),
            )
        | inr e ↦
            let (full, rest, run, f, s, same) =
              read_records-Reads input rows' sent taken (ground (arith, e)) in
            (
              full,
              rest,
              rw e run,
              f,
              s,
              same ∙ append_assoc rows (row' ∷ []) (clean_rows plan input),
            )
      ]

  finish-sends :
      (full : List Chunk) (rest : List StringRecord)
      → finish_reading take_message plan (rest, not (is_empty full)) (map chunk full)
        ≡ (ok tt, map chunk (full ++ last_chunk plan full rest) ++ (end_of_stream ∷ []))
  unfolding finish_reading
  finish-sends [] rest = refl
  finish-sends (c ∷ full) [] = rw (append-nil full) refl
  finish-sends (c ∷ full) (row ∷ rest) = rw (map-append_one full _) refl

  pub all_rows-last :
      (full : List Chunk) (rest : List StringRecord)
      → all_rows (full ++ last_chunk plan full rest) ≡ all_rows full ++ rest
  all_rows-last [] rest = append-nil rest
  all_rows-last (c ∷ []) [] = sym (append-nil (all_rows (c ∷ [])))
  all_rows-last (c ∷ []) (row ∷ rest) = cc (append-nil rest, append-nil c.rows)
  all_rows-last (c ∷ (d ∷ full)) rest =
      cc (append_assoc c.rows (all_rows (d ∷ full)) rest, all_rows-last (d ∷ full) rest)

max_mul : (k n : ℕ) → k * n ≤ 72 → n ≤ 72 → max 1 k * n ≤ 72
max_mul k n h b = elim (Bool-cases (ltb 1 k)) [ inl e ↦ rw e h | inr e ↦ rw e (omega (arith, b)) ]

if-ok : {A : Type 0} (b : Bool) {x y : A} → (if b then ok x else panicked) ≡ ok y → y ≡ x
if-ok true h = cc
if-ok false h = cc

-- The size of chunks is from 1 to 72, and a chunk of that size has at most 72 addresses, unless one
-- row alone has more.
pub chunk_size-bounds :
    {K : Type 0} (spec : AddressColumnSpec K)
    → (0 < chunk_size spec)
      × (chunk_size spec ≤ 72)
      × (prefix_count spec ≤ 72 → chunk_size spec * prefix_count spec ≤ 72)
unfolding chunk_size
chunk_size-bounds spec = bounds (prefix_count spec)
  where
    bounds :
        (n : ℕ)
        → (0 < max 1 (72 / max n 1))
          × (max 1 (72 / max n 1) ≤ 72)
          × (n ≤ 72 → max 1 (72 / max n 1) * n ≤ 72)
    bounds zero = (omega arith, omega arith, λ h. omega arith)
    bounds (suc n) =
        let small : 72 / suc n ≤ 72 = div-le_self 72 (suc n) in
        let product : 72 / suc n * suc n ≤ 72 = div-mul-le_self 72 (suc n) in
        let same : max (suc n) 1 ≡ suc n = ground arith in
        rw same (ground arith, ground (arith, small), max_mul (72 / suc n) (suc n) product)

-- What a plan is made of.
pub make_plan-parts :
    (spec : AddressColumnSpec Text) (column_names : List Text) (on_duplicate : OnDuplicateColumns)
    (headers : StringRecord) {plan : Plan}
    → make_plan spec column_names on_duplicate headers ≡ ok plan
    → (decision : Bool × List Bool) × (spec' : AddressColumnSpec ℕ)
      × (convert_to_indices_using_headers spec (clean decision.0 decision.1 headers) ≡ ok spec')
      × (plan ≡ plan_of column_names (clean decision.0 decision.1 headers) decision spec')
unfolding make_plan
make_plan-parts spec column_names on_duplicate headers {plan} h =
    let (duplicates, e, h1) = Outcome.both_ok _ (duplicate_columns spec column_names headers) h in
    let (decision, e', h2) = Outcome.both_ok _ (handle_duplicates on_duplicate duplicates _) h1 in
    let (spec', e'', h3) =
      Outcome.both_ok _
        (convert_to_indices_using_headers spec (clean decision.0 decision.1 headers)) h2 in
    (decision, spec', e'', if-ok _ h3)

pub make_plan-size :
    (spec : AddressColumnSpec Text) (column_names : List Text) (on_duplicate : OnDuplicateColumns)
    (headers : StringRecord) {plan : Plan}
    → make_plan spec column_names on_duplicate headers ≡ ok plan
    → 0 < plan.size
make_plan-size spec column_names on_duplicate headers h =
    let (decision, spec', e, parts) = make_plan-parts spec column_names on_duplicate headers h in
    rw parts ((chunk_size-bounds spec').0)

-- What is sent for a CSV file whose records can all be read, if there is a plan for its headers:
-- full chunks, a last chunk for the rows that are left or for a file without rows, and the end
-- of the stream. The chunks hold the rows of the file, without the columns that are replaced.
pub read_csv_from_stdin-Sends :
    (spec : AddressColumnSpec Text) (column_names : List Text) (on_duplicate : OnDuplicateColumns)
    (headers : StringRecord) (rows : List StringRecord) {plan : Plan}
    → make_plan spec column_names on_duplicate headers ≡ ok plan
    → (full : List Chunk) × (rest : List StringRecord) × (read_csv_from_stdin take_message spec
          column_names on_duplicate
          (record { headers = ok headers; records = map ok rows })
          []
        ≡ (ok tt, map chunk (full ++ last_chunk plan full rest) ++ (end_of_stream ∷ [])))
      × All (IsFull plan) full
      × (length rest < plan.size)
      × (all_rows (full ++ last_chunk plan full rest) ≡ clean_rows plan rows)
unfolding read_csv_from_stdin
read_csv_from_stdin-Sends spec column_names on_duplicate headers rows {plan} h =
    let positive = make_plan-size spec column_names on_duplicate headers h in
    let (full, rest, run, f, s, same) = read_records-Reads plan rows [] false [] positive in
    (
      full,
      rest,
      rw (h, run, finish-sends plan full rest) refl,
      f,
      s,
      all_rows-last plan full rest ∙ same,
    )
