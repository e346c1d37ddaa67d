-- ===== src/Metrics/Opinionated/Labels.antt =====
-- crates/opinionated_metrics/src/lib.rs: the labels of the command line are those of every report.
use geocode_csv.Base.{
  ℕ, ◌≡◌, refl, sym, ap, ◌∙◌, false, Option, none, some, List, [], ◌∷◌, if◌then◌else◌, Bool-cases,
  inl, inr,
}
use geocode_csv.Base.Text.{Text, text_eq, text_eq_iff}
use geocode_csv.Base.Dict.{Dict, lookup, insert, lookup-insert}
use geocode_csv.Base.Outcome.{ok, both_ok}
use geocode_csv.CommandLine.{MetricsLabel}
use geocode_csv.Metrics.NewRelic.{Inner}
use geocode_csv.Metrics.Opinionated.{
  NewRelicBuilder, Builder, new_builder, add_metrics_labels, add_global_labels, Handle, new_relic,
  prometheus, Recorders, new_relic_install, prometheus_install, install,
}

-- The value that the labels give a key: the last one.
abbrev pub last_label : Text → List MetricsLabel → Option Text → Option Text
last_label k [] found = found
last_label k (label ∷ labels) found =
    last_label k labels (if text_eq label.key k then some label.value else found)

abbrev or_else : Option Text → Option Text → Option Text
or_else none other = other
or_else (some v) other = some v

abbrev Unique : Dict Text → Type 0
Unique [] = Unit
Unique ((k, v) ∷ m) = (lookup k m ≡ none) × Unique m

text_eq-sym : (s t : Text) → text_eq s t ≡ false → text_eq t s ≡ false
text_eq-sym s t h = elim (Bool-cases (text_eq t s)) [
  | inl e ↦ absurd (let same = (text_eq_iff s t).1 (sym ((text_eq_iff t s).0 e)) in cc)
  | inr e ↦ e
]

insert-Unique : (m : Dict Text) (k v : Text) → Unique m → Unique (insert k v m)
insert-Unique [] k v u = (refl, tt)
insert-Unique ((j, old) ∷ m) k v (h, u) = elim (Bool-cases (text_eq j k)) [
  | inl e ↦ rw e (rw (← (text_eq_iff j k).0 e) h, u)
  | inr e ↦ rw e (lookup-insert m k j v ∙ rw (text_eq-sym j k e) h, insert-Unique m k v u)
]

add_metrics_labels-Unique :
    (labels : List MetricsLabel) (b : Builder)
    → Unique b.global_labels
    → Unique (add_metrics_labels labels b).global_labels
unfolding add_metrics_labels
add_metrics_labels-Unique [] b u = u
add_metrics_labels-Unique (label ∷ labels) b u =
    add_metrics_labels-Unique labels _ (insert-Unique b.global_labels label.key label.value u)

add_metrics_labels-last :
    (labels : List MetricsLabel) (b : Builder) (k : Text)
    → lookup k (add_metrics_labels labels b).global_labels
      ≡ last_label k labels (lookup k b.global_labels)
unfolding add_metrics_labels
add_metrics_labels-last [] b k = refl
add_metrics_labels-last (label ∷ labels) b k =
    add_metrics_labels-last labels _ k
    ∙ ap (last_label k labels) (lookup-insert b.global_labels label.key k label.value)

add_global_labels-lookup :
    (m : Dict Text) (b : NewRelicBuilder) (k : Text)
    → Unique m
    → lookup k (add_global_labels m b).global_labels
      ≡ or_else (lookup k m) (lookup k b.global_labels)
unfolding add_global_labels
add_global_labels-lookup [] b k u = refl
add_global_labels-lookup ((j, v) ∷ m) b k (h, u) =
    add_global_labels-lookup m _ k u
    ∙ ap (or_else (lookup k m)) (lookup-insert b.global_labels j k v)
    ∙ elim (Bool-cases (text_eq j k)) [
      | inl e ↦ rw (e, rw ((text_eq_iff j k).0 e) at h) refl
      | inr e ↦ rw e refl
    ]

-- The labels that a handle reports with.
abbrev pub handle_labels : {K F : Type 0} → Handle K F → Dict Text
handle_labels (new_relic inner) = inner.global_labels
handle_labels (prometheus labels) = labels

module _ {K F : Type 0} (recorders : Recorders) (labels : List MetricsLabel) where
  abbrev HasLabels : Handle K F → Type 0
  HasLabels handle = (k : Text) → lookup k (handle_labels handle) ≡ last_label k labels none

  new_relic_install-labels :
      (inner : Inner K F)
      → HasLabels (new_relic inner)
      → {handle : Handle K F} → new_relic_install recorders inner ≡ ok handle
      → HasLabels handle
  unfolding new_relic_install
  new_relic_install-labels inner h {handle} e =
      let (u, installed, same) = both_ok _ recorders.set_boxed_recorder e in
      let eq : new_relic inner ≡ handle = cc in rw (← eq) h

  prometheus_install-labels :
      (m : Dict Text)
      → HasLabels (prometheus m)
      → {handle : Handle K F} → prometheus_install recorders m ≡ ok handle
      → HasLabels handle
  unfolding prometheus_install
  prometheus_install-labels m h {handle} e =
      let (u, installed, same) = both_ok _ (recorders.install_prometheus m) e in
      let eq : prometheus m ≡ handle = cc in rw (← eq) h

  -- A handle that is installed, for NewRelic or Prometheus, reports with the labels of the command
  -- line: each key has the value of the last label with this key, and no other key has a value.
  pub install-labels :
      (now : ℕ) (api_key : Option Text) {handle : Handle K F}
      → install recorders now api_key (add_metrics_labels labels new_builder) ≡ ok handle
      → (k : Text) → lookup k (handle_labels handle) ≡ last_label k labels none
  unfolding install
  install-labels now none e k =
      prometheus_install-labels _ (add_metrics_labels-last labels new_builder) e k
  install-labels now (some new_relic_api_key) e k =
      new_relic_install-labels _
        (λ j.
          add_global_labels-lookup (add_metrics_labels labels new_builder).global_labels _ j
            (add_metrics_labels-Unique labels new_builder tt)
          ∙ or_else-none _
          ∙ add_metrics_labels-last labels new_builder j)
        e k
    where
      or_else-none : (o : Option Text) → or_else o none ≡ o
      or_else-none none = refl
      or_else-none (some v) = refl
