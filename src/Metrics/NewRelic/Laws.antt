-- ===== src/Metrics/NewRelic/Laws.antt =====
-- crates/metrics-exporter-newrelic/src/lib.rs: what a report tells of counters, and what it keeps.
use geocode_csv.Base.{
  ℕ, ◌+◌, ◌-◌, ◌≤◌, ◌≡◌, refl, sym, ◌∙◌, ◌↔◌, Bool, true, false, List, [], ◌∷◌, map, ltb,
  if◌then◌else◌, arith, All, Bool-cases, inl, inr,
}
use geocode_csv.Base.Text.{Text}
use geocode_csv.Base.Outcome.{Outcome, ok, err, panicked, Ensures, http_status}
use geocode_csv.Base.Effect.{M, pure, raise}
use geocode_csv.Base.Effect.Safe.{Safe, Safe-bind, Safe-if, Safe-pure, Safe-raise}
use geocode_csv.Geocoders.Smarty.{is_success}
use geocode_csv.Metrics.Summary.{Floats}
use geocode_csv.Metrics.NewRelic.{
  Keys, MetricsReport, Inner, get_count, insert_count, insert_counts, count_reported, report_of,
  report_metrics, update_metadata, clear_histograms, report,
}

twice : (b : Bool) (x y z : ℕ) → (if b then x else z) ≡ (if b then x else if b then y else z)
twice true x y z = refl
twice false x y z = refl

module _ {K F : Type 0} (ks : Keys K) (floats : Floats F) where
  -- The library's comparison of keys is equality.
  abbrev pub SameIsEqual : Type 0
  SameIsEqual = (j k : K) → (ks.same j k ≡ true) ↔ (j ≡ k)

  abbrev pub Fresh : K → List (K × ℕ) → Type 0
  Fresh k = All (λ (e : K × ℕ). ks.same e.0 k ≡ false)

  abbrev pub DistinctKeys : List (K × ℕ) → Type 0
  DistinctKeys [] = Unit
  DistinctKeys ((k, n) ∷ counters) = Fresh k counters × DistinctKeys counters

  -- No counter is below what is remembered of it.
  abbrev pub Covers : List (K × ℕ) → List (K × ℕ) → Type 0
  Covers previous = All (λ (e : K × ℕ). get_count ks floats e.0 previous ≤ e.1)

  get-insert :
      (counts : List (K × ℕ)) (j k : K) (n : ℕ)
      → SameIsEqual
      → get_count ks floats k (insert_count ks floats j n counts)
        ≡ (if ks.same j k then n else get_count ks floats k counts)
  get-insert [] j k n same = refl
  get-insert ((i, old) ∷ counts) j k n same = elim (Bool-cases (ks.same i j)) [
    | inl e ↦
        let eq : i ≡ j = (same i j).0 e in
        rw (e, eq) (twice (ks.same j k) n old (get_count ks floats k counts))
    | inr e ↦ elim (Bool-cases (ks.same i k)) [
      | inl f ↦ elim (Bool-cases (ks.same j k)) [
        | inl g ↦
            let eq : i ≡ j = (same i k).0 f ∙ sym ((same j k).0 g) in
            absurd (let t = (same i j).1 eq in cc)
        | inr g ↦ rw (e, f, g) refl
      ]
      | inr f ↦ rw (e, f, get-insert counts j k n same) refl
    ]
  ]

  abbrev difference : List (K × ℕ) → K × ℕ → K × ℕ
  difference previous e = (e.0, e.1 - get_count ks floats e.0 previous)

  count_reported-differences :
      (previous counters : List (K × ℕ))
      → Covers previous counters
      → count_reported ks floats previous counters ≡ ok (map (difference previous) counters)
  unfolding count_reported
  count_reported-differences previous [] h = refl
  count_reported-differences previous ((k, n) ∷ counters) (c, h) =
      let small : ltb n (get_count ks floats k previous) ≡ false = ground (arith, c) in
      rw (small, count_reported-differences previous counters h) refl

  insert_counts-Fresh :
      (previous counters counts : List (K × ℕ)) (k : K)
      → SameIsEqual
      → Fresh k counters
      → get_count ks floats k (insert_counts ks floats (map (difference previous) counters) counts)
        ≡ get_count ks floats k counts
  insert_counts-Fresh previous [] counts k same h = refl
  insert_counts-Fresh previous ((j, n) ∷ counters) counts k same (f, h) =
      insert_counts-Fresh previous counters _ k same h ∙ get-insert counts j k _ same ∙ rw f refl

  insert_counts-differences :
      (previous counters counts : List (K × ℕ))
      → SameIsEqual
      → DistinctKeys counters
      → Covers previous counters
      → All
          (λ (e : K × ℕ).
            get_count ks floats e.0
                (insert_counts ks floats (map (difference previous) counters) counts)
              + get_count ks floats e.0 previous
            ≡ e.1)
          counters
  insert_counts-differences previous [] counts same d h = tt
  insert_counts-differences previous ((k, n) ∷ counters) counts same (f, d) (c, h) =
      let itself : ks.same k k ≡ true = (same k k).1 refl in
      let delta = n - get_count ks floats k previous in
      let first : get_count ks floats k (
            insert_counts ks floats (map (difference previous) counters)
              (insert_count ks floats k delta counts))
          ≡ delta =
        insert_counts-Fresh previous counters _ k same f
        ∙ get-insert counts k k delta same
        ∙ rw itself refl in
      (omega (arith, first, c), insert_counts-differences previous counters _ same d h)

  -- What a report leaves, from its outcome: after a success, what is remembered of each counter is its
  -- value less what was remembered before; after an error, what was remembered before.
  abbrev pub Remembers : Inner K F → Outcome (Unit {0}) → Inner K F → Type 0
  Remembers inner (ok u) inner' =
      All
        (λ (e : K × ℕ).
          get_count ks floats e.0 inner'.metadata.previously_reported_counts
            + get_count ks floats e.0 inner.metadata.previously_reported_counts
          ≡ e.1)
        inner.counters
  Remembers inner (err e) inner' = inner'.metadata ≡ inner.metadata
  Remembers inner panicked inner' = ⊥

  Covers-sums :
      (previous previous' counters : List (K × ℕ))
      → All
          (λ (e : K × ℕ).
            get_count ks floats e.0 previous' + get_count ks floats e.0 previous ≡ e.1)
          counters
      → Covers previous' counters
  Covers-sums previous previous' [] h = tt
  Covers-sums previous previous' (e ∷ counters) (s, h) =
      (omega (arith, s), Covers-sums previous previous' counters h)

module _ {W K F : Type 0} (ks : Keys K) (floats : Floats F)
    (post : Text → MetricsReport F → M W ℕ) where
  report_metrics-Safe :
      {Inv : W → Type 0} (api_key : Text) (r : MetricsReport F)
      → Safe Inv (λ status. Unit) (post api_key r)
      → Safe Inv (λ done. Unit) (report_metrics post api_key r)
  unfolding report_metrics
  report_metrics-Safe api_key r p = Safe-bind (post api_key r) _ p λ status u.
      Safe-if (is_success status) (pure tt) (raise (http_status status)) (λ e. Safe-pure tt tt)
        (λ e. Safe-raise (http_status status))

  update_metadata-Remembers :
      (inner : Inner K F) (r : Outcome (Unit {0}))
      → SameIsEqual ks floats
      → DistinctKeys ks floats inner.counters
      → let previous = inner.metadata.previously_reported_counts in
        Covers ks floats previous inner.counters
        → Ensures (λ u. Unit) r
        → let cleared = record inner { histograms = clear_histograms ks floats inner.histograms } in
          let reported = map (difference ks floats previous) inner.counters in
          let inner' = update_metadata ks floats post r reported cleared in
          Remembers ks floats inner r inner'
          × Covers ks floats inner'.metadata.previously_reported_counts inner.counters
  update_metadata-Remembers inner (ok u) same d c p =
      let sums =
        insert_counts-differences ks floats _ inner.counters
          inner.metadata.previously_reported_counts same d c in
      (sums, Covers-sums ks floats _ _ inner.counters sums)
  update_metadata-Remembers inner (err e) same d c p = (refl, c)
  update_metadata-Remembers inner panicked same d c p = absurd p

  -- For a registry in which no key comes twice, with no counter below what is remembered of it, and a
  -- client that is safe: a report does not panic, and leaves no counter below what is remembered of
  -- it. If it succeeds, what is remembered of each counter is its value less what was remembered
  -- before, which is what was reported, and not the value; if it fails, what was remembered before.
  pub report-Remembers :
      {Inv : W → Type 0} (now : ℕ) (inner : Inner K F) (w : W)
      → SameIsEqual ks floats
      → DistinctKeys ks floats inner.counters
      → Covers ks floats inner.metadata.previously_reported_counts inner.counters
      → ((api_key : Text) (r : MetricsReport F) → Safe Inv (λ status. Unit) (post api_key r))
      → Inv w
      → let run = report ks floats post now (inner, w) in
        Remembers ks floats inner run.0 run.1.0
        × Covers ks floats run.1.0.metadata.previously_reported_counts inner.counters
        × Inv run.1.1
  unfolding report
  report-Remembers now inner w same d c p i =
      let previous = inner.metadata.previously_reported_counts in
      let reported = map (difference ks floats previous) inner.counters in
      let sent =
        (report_metrics-Safe inner.api_key (report_of ks floats now inner reported) (p _ _)).at w
          i in
      let (r, v) = update_metadata-Remembers inner _ same d c sent.1 in
      rw (count_reported-differences ks floats previous inner.counters c) (r, v, sent.0)
