-- ===== src/Cli/Machine.antt =====
-- The machine that the commands of src/cli/ run on: `std::fs`, `std::path`, the clock and the network.
-- Of the directories only the calls that make them are there, which may fail.
use Prim.Native.Char.{Char, code}
use Prim.Native.String as Text
use acmex.Base.{
  ℕ, ◌+◌, String, ◌<>◌, ◌==◌, eqb, leb, Bool, false, ◌||◌, Option, List, [], ◌∷◌, if◌then◌else◌,
  is_some,
}
use acmex.Base.Dict.{Dict, get, insert}
use acmex.Error.{AcmeError}
use acmex.Act.{ok, Act, Answer, done, pure, gets, modify, ok_or, or_raise, ◌>>=◌, ◌>>◌}
use acmex.Net.{World, Io}
use acmex.Storage.Files.{ending}

-- A mail that the daemon would send.
pub data Notice : Type 0 where
  renewal : String → ℕ → Notice
  failure : String → AcmeError → Notice

-- The files by path, how the next calls of the file system end where they do not succeed, what the
-- clock reads next, the notices (newest first), and the network with what the client keeps.
pub record Machine : Type 0 where
  pub files : Dict (List ℕ)
  pub faults : List (Option String)
  pub clock : List ℕ
  pub notices : List Notice
  pub world : World

abbrev pub online {ℓ} : {A : Type ℓ} → Io A → Act Machine A
online m s = let (r, w) = m s.world in (r, record s { world = w })

abbrev pub next_fault : List (Option String) → Machine → Answer (Unit {0}) × Machine
next_fault [] s = (done tt, s)
next_fault (o ∷ rest) s = (ending o, record s { faults = rest })

-- A call of `std::fs`, whose error `?` turns into one of input and output.
unfoldable pub fs_call : Act Machine (Unit {0})
fs_call s = let (a, s') = next_fault s.faults s in or_raise a AcmeError.io s'

unfoldable pub exists : String → Act Machine Bool
exists path = gets (λ s. is_some (get s.files path))

unfoldable pub read : String → Act Machine (List ℕ)
unfolding fs_call
read path = do
  fs_call
  found ← gets (λ s. get s.files path)
  ok_or found (AcmeError.io "No such file or directory (os error 2)")

unfoldable pub write : String → List ℕ → Act Machine (Unit {0})
unfolding fs_call
write path bytes = fs_call >> modify (λ s. record s { files = insert s.files path bytes })

unfoldable pub copy_file : String → String → Act Machine (Unit {0})
unfolding read write
copy_file from to = read from >>= λ bytes. write to bytes

abbrev pub next_time : List ℕ → Machine → ℕ × Machine
next_time [] s = (0, s)
next_time (t ∷ rest) s = (t, record s { clock = rest })

-- `SystemTime::now` and `Timestamp::now`, past the epoch
unfoldable pub now : Act Machine ℕ
now s = let (t, s') = next_time s.clock s in (ok t, s')

abbrev pub notify : Notice → Act Machine (Unit {0})
notify n = modify (λ s. record s { notices = n ∷ s.notices })

abbrev is_slash : Char → Bool
is_slash c = eqb (code c) 47

abbrev longer : Char → List String → List String
longer c [] = Text.◌∷◌ c Text.[] ∷ []
longer c (part ∷ parts) = Text.◌∷◌ c part ∷ parts

unfoldable pub split_slash : String → List String
split_slash Text.[] = Text.[] ∷ []
split_slash (Text.◌∷◌ c s) =
    let rest = split_slash s in if is_slash c then Text.[] ∷ rest else longer c rest

unfoldable pub ends_slash : String → Bool
ends_slash Text.[] = false
ends_slash (Text.◌∷◌ c Text.[]) = is_slash c
ends_slash (Text.◌∷◌ c (Text.◌∷◌ d s)) = ends_slash (Text.◌∷◌ d s)

-- `Path::join` with a relative name
unfoldable pub join_path : String → String → String
unfolding ends_slash
join_path dir name = if dir == "" || ends_slash dir then dir <> name else dir <> "/" <> name

-- the components behind the first: empty ones and `.` are none
abbrev counted : List String → ℕ
counted [] = 0
counted (part ∷ parts) =
    let rest = counted parts in if part == "" || part == "." then rest else 1 + rest

-- The first part is the root's where it is empty, and else a component.
abbrev parented : List String → Bool
parented [] = false
parented (first ∷ rest) = leb 1 (counted rest)

-- `Path::parent` is there and not empty
unfoldable pub has_parent : String → Bool
unfolding split_slash
has_parent path = parented (split_slash path)

-- `if let Some(parent) = path.parent() && !parent.as_os_str().is_empty() { fs::create_dir_all(parent)? }`
unfoldable pub create_parent : String → Act Machine (Unit {0})
unfolding fs_call has_parent
create_parent path = if has_parent path then fs_call else pure tt
