-- ===== src/Tests/LibpostalRust.antt =====
-- Witnesses for crates/libpostal-rust.
use geocode_csv.Base.{ℕ, ◌+◌, refl, true, some, [], ◌∷◌}
use geocode_csv.Base.Text.{codes}
use geocode_csv.Base.Effect.Safe.{Safe}
use geocode_csv.Geocoders.{Implements}
use geocode_csv.Geocoders.LibPostal.{libpostal}
use geocode_csv.LibpostalRust.{parse_address, expand_address}
use geocode_csv.LibpostalRust.Init.{Component, Library}
use geocode_csv.LibpostalRust.Setup.{SetUpOnce, one_if, same_component}
use geocode_csv.LibpostalRust.Laws.{Answers, address_calls-Safe, libpostal_rust-Implements}

-- A library that always succeeds, in a world that counts setups.
abbrev Counts : Type 0
Counts = Component → ℕ

abbrev library : Library Counts
library = record {
  exists = λ w path. true;
  read_to_string = λ w path. some (codes "v1\n");
  setup = λ c datadir w. (true, λ d. w d + one_if (same_component c d));
  parse = λ addr w. ((codes "road", addr) ∷ [], w);
  expand = λ addr w. (addr ∷ [], w);
  to_str = λ b. some b;
}

abbrev setups : Counts → Component → ℕ
setups w d = w d

library-Answers : Answers library setups
library-Answers = record {
  counted = record {
    counts = λ c datadir w d. refl;
    parse_counts = λ addr w d. refl;
    expand_counts = λ addr w d. refl;
  };
  parses = λ addr w. (((codes "road", refl), (addr, refl)), tt);
  expands = λ addr w. ((addr, refl), tt);
}

address_calls-Safe_example :
    Safe (SetUpOnce library setups) (λ d. Unit) (parse_address library (codes "1 Elm"))
    × Safe (SetUpOnce library setups) (λ l. Unit) (expand_address library (codes "1 Elm"))
address_calls-Safe_example = address_calls-Safe library setups (codes "1 Elm") library-Answers

libpostal_rust-Implements_example :
    Implements (SetUpOnce library setups) (libpostal (parse_address library))
libpostal_rust-Implements_example = libpostal_rust-Implements library setups library-Answers
