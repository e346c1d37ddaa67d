-- ===== src/Pipeline/Geocode/Rows.antt =====
-- src/pipeline.rs: the list of addresses that a chunk is geocoded by.
use geocode_csv.Base.{
  ℕ, suc, ◌*◌, ◌≡◌, refl, ap, some, List, [], ◌∷◌, ◌++◌, length, take, drop, sym, ◌∙◌,
  length-append, All, arith,
}
use mathlib.Core.List.{Forall₂}
use geocode_csv.Base.Text.{Text}
use geocode_csv.Base.Outcome.{ok}
use geocode_csv.Addresses.Address.{Address}
use geocode_csv.Addresses.Columns.{StringRecord, AddressColumnKeys, extract_address_from_record}
use geocode_csv.Addresses.Columns.Extract.{ColumnsBelow, extract_address-total}
use geocode_csv.Addresses.Spec.{AddressColumnSpec, prefixes, prefix_count, get}
use geocode_csv.Addresses.Spec.Prefixes.{Values, get-prefixes, length-prefixes}
use geocode_csv.Pipeline.Geocode.{row_addresses, prefix_addresses}

-- Rows of `n` columns.
abbrev pub HaveWidth : ℕ → List StringRecord → Type 0
HaveWidth n = All (λ row. length row ≡ n)

-- The columns of every prefix are columns of a row of `n` columns.
abbrev pub SpecBelow : ℕ → AddressColumnSpec ℕ → Type 0
SpecBelow n spec = Values (ColumnsBelow n) spec.address_columns_by_prefix

-- `a` is the address that a row has in the columns of a prefix.
abbrev pub IsAddressAt : AddressColumnSpec ℕ → Text → StringRecord → Address → Type 0
IsAddressAt spec prefix row a =
    (c : AddressColumnKeys ℕ) × (get spec prefix ≡ some c)
    × (extract_address_from_record c row ≡ ok a)

-- `xs` has, for each prefix in order, the address of each row in order, and nothing else.
abbrev pub AddressesFor :
    AddressColumnSpec ℕ → List StringRecord → List Text → List Address → Type 0
AddressesFor spec rows [] xs = xs ≡ []
AddressesFor spec rows (prefix ∷ ps) xs =
    Forall₂ (IsAddressAt spec prefix) rows (take (length rows) xs)
    × AddressesFor spec rows ps (drop (length rows) xs)

row_addresses-total :
    (n : ℕ) (c : AddressColumnKeys ℕ) (rows : List StringRecord)
    → ColumnsBelow n c
    → HaveWidth n rows
    → (xs : List Address) × (row_addresses c rows ≡ ok xs)
      × (length xs ≡ length rows)
      × Forall₂ (λ row a. extract_address_from_record c row ≡ ok a) rows xs
unfolding row_addresses
row_addresses-total n c [] b h = ([], refl, refl, Forall₂.nil)
row_addresses-total n c (row ∷ rows) b (h, hs) =
    let (x, e) = extract_address-total c row (rw h b) in
    let (xs, es, l, f) = row_addresses-total n c rows b hs in
    (x ∷ xs, rw (e, es) refl, ap suc l, Forall₂.cons e f)

Forall₂-map_right :
    {A B : Type 0} {R S : A → B → Type 0} {l : List A} {r : List B}
    → ((a : A) (b : B) → R a b → S a b)
    → Forall₂ R l r
    → Forall₂ S l r
Forall₂-map_right f Forall₂.nil = Forall₂.nil
Forall₂-map_right f (Forall₂.cons h t) = Forall₂.cons (f _ _ h) (Forall₂-map_right f t)

take-append_left : {A : Type 0} (xs ys : List A) → take (length xs) (xs ++ ys) ≡ xs
take-append_left [] ys = refl
take-append_left (x ∷ xs) ys = ap (λ l. x ∷ l) (take-append_left xs ys)

drop-append_left : {A : Type 0} (xs ys : List A) → drop (length xs) (xs ++ ys) ≡ ys
drop-append_left [] ys = refl
drop-append_left (x ∷ xs) ys = drop-append_left xs ys

prefixes-total :
    (n : ℕ) (spec : AddressColumnSpec ℕ) (rows : List StringRecord) (ps : List Text)
    → HaveWidth n rows
    → All (λ p. (c : AddressColumnKeys ℕ) × (get spec p ≡ some c) × ColumnsBelow n c) ps
    → (xs : List Address) × (prefix_addresses spec rows ps ≡ ok xs)
      × (length xs ≡ length ps * length rows)
      × AddressesFor spec rows ps xs
unfolding prefix_addresses
prefixes-total n spec rows [] w h = ([], refl, omega arith, refl)
prefixes-total n spec rows (p ∷ ps) w ((c, e, b), hs) =
    let (xs, e', l, f) = row_addresses-total n c rows b w in
    let (ys, es, ls, fs) = prefixes-total n spec rows ps w hs in
    (
      xs ++ ys,
      rw (e, e', es) refl,
      omega (arith, length-append xs ys, l, ls),
      (
        rw (sym l, take-append_left xs ys) (Forall₂-map_right (λ row a h. (c, e, h)) f),
        rw (sym l, drop-append_left xs ys) fs,
      ),
    )

-- The addresses of a chunk are built without a panic: one for each prefix and row, which is the
-- address of that row in the columns of that prefix.
pub prefix_addresses-total :
    (n : ℕ) (spec : AddressColumnSpec ℕ) (rows : List StringRecord)
    → SpecBelow n spec
    → HaveWidth n rows
    → (xs : List Address) × (prefix_addresses spec rows (prefixes spec) ≡ ok xs)
      × (length xs ≡ prefix_count spec * length rows)
      × AddressesFor spec rows (prefixes spec) xs
prefix_addresses-total n spec rows b w =
    let (xs, e, l, f) =
      prefixes-total n spec rows (prefixes spec) w (get-prefixes (ColumnsBelow n) spec b) in
    (xs, e, l ∙ ap (λ k. k * length rows) (length-prefixes spec), f)
