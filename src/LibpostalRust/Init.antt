-- ===== src/LibpostalRust/Init.antt =====
-- crates/libpostal-rust/src/init.rs and probe.rs: the setup of the library's parts, each at most once,
-- and the search for its data directory.
use geocode_csv.Base.{ℕ, Bool, true, false, Option, none, some, List, [], ◌∷◌, ◌++◌, if◌then◌else◌}
use geocode_csv.Base.Text.{Text, codes, text_eq, contains_char, into_bytes, trim_end}
use geocode_csv.Base.Outcome.{
  Outcome, ok, err, null_byte_in_string, initialization_failed, no_data_dir,
}
use geocode_csv.Base.Effect.{M, lift, ◌>>=◌}

abbrev pub Bytes : Type 0
Bytes = List ℕ

pub data Component : Type 0 where
  base parser language_classifier : Component

-- The C library, files as they are in a world, and `CStr::to_str`. `read_to_string` is None for an
-- `Err`.
pub record Library (W : Type 0) : Type 0 where
  pub exists : W → Text → Bool
  pub read_to_string : W → Text → Option Text
  pub setup : Component → Bytes → W → Bool × W
  pub parse : Bytes → W → List (Bytes × Bytes) × W
  pub expand : Bytes → W → List Bytes × W
  pub to_str : Bytes → Option Text

-- `InitializationState` of crates/libpostal-sys/src/lib.rs
pub record InitializationState : Type 0 where
  pub initialized : Bool
  pub parser_initialized : Bool
  pub language_classifier_initialized : Bool

-- The statics: the state behind GLOBAL_LOCK, whether the lock is poisoned, and DATA_DIRECTORY.
pub record Process (W : Type 0) : Type 0 where
  pub state : InitializationState
  pub poisoned : Bool
  pub data_directory : Option Text
  pub world : W

abbrev pub is_initialized : Component → InitializationState → Bool
is_initialized base state = state.initialized
is_initialized parser state = state.parser_initialized
is_initialized language_classifier state = state.language_classifier_initialized

abbrev pub set_initialized : Component → InitializationState → InitializationState
set_initialized base state = record state { initialized = true }
set_initialized parser state = record state { parser_initialized = true }
set_initialized language_classifier state = record state { language_classifier_initialized = true }

abbrev pub component_name : Component → Text
component_name base = codes "base"
component_name parser = codes "parser"
component_name language_classifier = codes "language classifier"

abbrev pub data_dir_paths : List Text
data_dir_paths = codes "/usr/local/share/libpostal" ∷ codes "/usr/share/libpostal" ∷ []

abbrev pub expected_data_version : Text
expected_data_version = codes "v1"

-- The path is one of the two above, and has no zero byte.
unfoldable pub path_as_c_string : Text → Outcome Bytes
unfolding into_bytes
path_as_c_string path =
    if contains_char 0 path then err (null_byte_in_string path) else ok (into_bytes path)

abbrev pub is_expected : Option Text → Bool
is_expected none = false
is_expected (some version) = text_eq (trim_end version) expected_data_version

module _ {W : Type 0} (library : Library W) where
  -- A directory whose file `data_version` exists, can be read, and has the expected version.
  unfoldable pub has_data : W → Text → Bool
  unfolding trim_end
  has_data w path =
      let data_version_path = path ++ codes "/data_version" in
      if library.exists w data_version_path
      then is_expected (library.read_to_string w data_version_path)
      else false

  unfoldable pub probe_paths : List Text → M (Process W) Text
  unfolding has_data
  probe_paths [] p = (err no_data_dir, p)
  probe_paths (path ∷ paths) p =
      let rest = probe_paths paths p in
      if has_data p.world path then (ok path, record p { data_directory = some path }) else rest

  unfoldable pub probe_data_directory : M (Process W) Text
  unfolding probe_paths
  probe_data_directory p = elim p.data_directory [
    | none ↦ probe_paths data_dir_paths p
    | some path ↦ (ok path, p)
  ]

  -- The call of the component's setup function, and what follows.
  unfoldable pub call_setup : Component → Bytes → M (Process W) Unit
  call_setup c datadir p =
      let called = library.setup c datadir p.world in
      if called.0
      then (ok tt, record p { world = called.1; state = set_initialized c p.state })
      else (err (initialization_failed (component_name c)), record p { world = called.1 })

  unfoldable pub set_up : Component → M (Process W) Unit
  unfolding probe_data_directory path_as_c_string call_setup
  set_up c = do
    datadir ← probe_data_directory
    datadir_c_string ← lift (path_as_c_string datadir)
    call_setup c datadir_c_string

  -- `initialize_libpostal`, `initialize_libpostal_parser`, `initialize_libpostal_language_classifier`
  unfoldable pub initialize : Component → M (Process W) Unit
  unfolding set_up
  initialize c p = let run = set_up c p in if is_initialized c p.state then (ok tt, p) else run
