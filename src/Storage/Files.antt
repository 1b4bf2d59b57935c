-- ===== src/Storage/Files.antt =====
-- src/storage/file.rs and src/storage/redis.rs: values in the files of a directory, and in Redis.
use Prim.Native.Char.{code}
use Prim.Native.String as Text
use acmex.Base.{
  ℕ, String, ◌<>◌, eqb, Bool, true, false, Option, none, some, List, [], ◌∷◌, if◌then◌else◌,
}
use acmex.Base.Dict.{Dict, get, insert, remove, keys}
use acmex.Error.{AcmeError}
use acmex.Act.{Act, Answer, done, fault, pure, modify, or_raise, ◌>>=◌, ◌>>◌}
use acmex.Storage.Backend.{Backend}
use text.Mathlib.Text.{starts_with}

-- The base directory: whether it is there, its files by name, and how the next calls of the file
-- system end, where they do not succeed.
pub record Disk : Type 0 where
  pub has_dir : Bool
  pub files : Dict (List ℕ)
  pub faults : List (Option String)

abbrev pub ending : Option String → Answer (Unit {0})
ending none = done tt
ending (some e) = fault e

abbrev pub next_fault : List (Option String) → Disk → Answer (Unit {0}) × Disk
next_fault [] d = (done tt, d)
next_fault (o ∷ rest) d = (ending o, record d { faults = rest })

-- `fs::<call>(..).await.map_err(|e| AcmeError::storage(format!("<what>{}", e)))?`
unfoldable pub fs_call : String → Act Disk (Unit {0})
fs_call what d =
    let (a, d') = next_fault d.faults d in or_raise a (λ e. AcmeError.storage (what <> e)) d'

-- `key.replace("/", "_")`
unfoldable pub sanitized : String → String
sanitized Text.[] = Text.[]
sanitized (Text.◌∷◌ c s) =
    let rest = sanitized s in if eqb (code c) 47 then Text.◌∷◌ "_" rest else Text.◌∷◌ c rest

-- the name in the base directory
unfoldable pub key_path : String → String
unfolding sanitized
key_path key = sanitized key <> ".bin"

abbrev pub store_file : String → List ℕ → Act Disk (Unit {0})
store_file key value = do
  fs_call "Failed to create storage dir: "
  modify (λ d. record d { has_dir = true })
  fs_call "Failed to write storage: "
  modify (λ d. record d { files = insert d.files (key_path key) value })

abbrev pub read_found : Option (List ℕ) → Act Disk (Option (List ℕ))
read_found none = pure none
read_found (some data_) = fs_call "Failed to read storage: " >> pure (some data_)

abbrev pub load_file : String → Act Disk (Option (List ℕ))
load_file key d = read_found (get d.files (key_path key)) d

abbrev pub delete_found : String → Option (List ℕ) → Act Disk (Unit {0})
delete_found path none = pure tt
delete_found path (some data_) = do
  fs_call "Failed to delete storage: "
  modify (λ d. record d { files = remove d.files path })

abbrev pub delete_file : String → Act Disk (Unit {0})
delete_file key d = delete_found (key_path key) (get d.files (key_path key)) d

abbrev pub kept_name : Bool → String → List String → List String
kept_name true name names = name ∷ names
kept_name false name names = names

-- the loop over `next_entry`, with the call that finds no more
unfoldable pub entries_from : String → List String → Act Disk (List String)
entries_from prefix [] = fs_call "Failed to read storage entry: " >> pure []
entries_from prefix (name ∷ names) = do
  fs_call "Failed to read storage entry: "
  rest ← entries_from prefix names
  pure (kept_name (starts_with name prefix) name rest)

abbrev pub list_dir : String → Bool → List String → Act Disk (List String)
list_dir prefix false names = pure []
list_dir prefix true names = fs_call "Failed to list storage: " >> entries_from prefix names

abbrev pub list_files : String → Act Disk (List String)
list_files prefix d = list_dir prefix d.has_dir (keys d.files) d

unfoldable pub file_storage : Backend Disk
unfolding fs_call key_path entries_from
file_storage = record {
  store = store_file;
  load = load_file;
  delete = delete_file;
  list = list_files;
}
