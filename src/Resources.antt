-- ===== src/Resources.antt =====
-- common/ResourceManager.h. The loader of the derived class is a parameter, and what it loads an
-- arbitrary type. A path is taken from the table of paths where requireResource passes the iterator.
pub mod Laws
pub mod Spec
pub mod Branches
pub mod Counts
mod Tests
use sfrpg.Base.{
  ℕ, ◌+◌, ◌-◌, ◌%◌, ◌^◌, Bool, true, false, ◌==◌, if◌then◌else◌, Option, none, some, List, [], ◌∷◌,
  ◌++◌, Text, eq_text,
}
use sfrpg.Game.Stream.{stream_of, read_word}

-- A std::unordered_map whose keys are strings.
abbrev pub Table {ℓ} : Type ℓ → Type ℓ
Table V = List (Text × V)

module _ {ℓ} {V : Type ℓ} where
  unfoldable pub find_entry : Text → Table V → Option V
  find_entry id [] = none
  find_entry id ((key, v) ∷ t) = if eq_text key id then some v else find_entry id t

  unfoldable pub set_entry : Text → V → Table V → Table V
  set_entry id v [] = []
  set_entry id v ((key, w) ∷ t) =
      if eq_text key id then (key, v) ∷ t else (key, w) ∷ set_entry id v t

  unfoldable pub drop_entry : Text → Table V → Table V
  drop_entry id [] = []
  drop_entry id ((key, w) ∷ t) = if eq_text key id then t else (key, w) ∷ drop_entry id t

  -- emplace
  unfoldable pub add_entry : Text → V → Table V → Table V
  unfolding find_entry
  add_entry id v t = elim (find_entry id t) [ none ↦ t ++ (id, v) ∷ [] | some w ↦ t ]

pub record Manager {ℓ} (T : Type ℓ) : Type ℓ where
  pub resources : Table (T × ℕ)
  pub paths : Table Text

module _ {ℓ} {T : Type ℓ} where
  unfoldable pub get_path : Manager T → Text → Text
  unfolding find_entry
  get_path r l_id = elim (find_entry l_id r.paths) [ none ↦ [] | some path ↦ path ]

  unfoldable pub get_resource : Manager T → Text → Option T
  unfolding find_entry
  get_resource r l_id = elim (find_entry l_id r.resources) [
    | none ↦ none
    | some entry ↦ some entry.0
  ]

  -- ResourceManager::requireResource, where `load` is given the path that was found: the source gives
  -- it the iterator.
  unfoldable pub require_resource : (load : Text → Option T) → Text → Manager T → Manager T × Bool
  unfolding find_entry set_entry add_entry
  require_resource load l_id r = elim (find_entry l_id r.resources) [
    | some (t, users) ↦
        (record r { resources = set_entry l_id (t, (users + 1) % 2 ^ 32) r.resources }, true)
    | none ↦ elim (find_entry l_id r.paths) [
      | none ↦ (r, false)
      | some path ↦ elim (load path) [
        | none ↦ (r, false)
        | some t ↦ (record r { resources = add_entry l_id (t, 1) r.resources }, true)
      ]
    ]
  ]

  unfoldable pub unload : Text → Manager T → Manager T × Bool
  unfolding find_entry drop_entry
  unload l_id r = elim (find_entry l_id r.resources) [
    | none ↦ (r, false)
    | some entry ↦ (record r { resources = drop_entry l_id r.resources }, true)
  ]

  unfoldable pub release_resource : Text → Manager T → Manager T × Bool
  unfolding find_entry set_entry unload
  release_resource l_id r = elim (find_entry l_id r.resources) [
    | none ↦ (r, false)
    | some (t, users) ↦
        let left = (users + (2 ^ 32 - 1)) % 2 ^ 32 in
        let fewer = record r { resources = set_entry l_id (t, left) r.resources } in
        (if left == 0 then (unload l_id fewer).0 else fewer, true)
  ]

  unfoldable pub purge_resources : Manager T → Manager T
  purge_resources r = record r { resources = [] }

  -- The loop of loadPaths over the lines of the file, and loadPaths: `none` is a file that does not
  -- open.
  unfoldable pub add_paths : List Text → Manager T → Manager T
  unfolding read_word add_entry
  add_paths [] r = r
  add_paths (line ∷ lines) r =
      let (path_name, s) = read_word [] (stream_of line) in
      let (path, end) = read_word [] s in
      add_paths lines (record r { paths = add_entry path_name path r.paths })

  unfoldable pub load_paths : Option (List Text) → Manager T → Manager T
  unfolding add_paths
  load_paths none r = r
  load_paths (some lines) r = add_paths lines r

-- ResourceManager::ResourceManager
unfoldable pub new_manager {ℓ} : (T : Type ℓ) → (path_file : Option (List Text)) → Manager T
unfolding load_paths
new_manager T path_file = load_paths path_file (record { resources = []; paths = [] })
