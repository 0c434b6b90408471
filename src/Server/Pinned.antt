-- ===== src/Server/Pinned.antt =====
-- internal/server/pinned.go. The store's map is an association list; its file and the temporary
-- file beside it are a `Disk`. The JSON library is a parameter, and what the file system answers to
-- each call is a field of `SaveEnv`.
pub mod Saving
use simbeam.Prelude.{
  ℕ, zero, suc, Bool, true, false, ◌&&◌, ◌||◌, not, Option, none, some, String, List, [], ◌∷◌, ◌++◌,
  map, take, ◌==◌, if◌then◌else◌, lookup, insert, delete, is_some,
}

pub record PinnedClient : Type 0 where
  pub pub_key : String
  pub name : String

-- `json.MarshalIndent` and `json.Unmarshal` at a list of clients; `none` is an error.
pub record Json : Type 0 where
  pub marshal : List PinnedClient → Option (List ℕ)
  pub unmarshal : List ℕ → Option (List PinnedClient)

pub record Disk : Type 0 where
  pub clients : Option (List ℕ)
  pub temps : List (List ℕ)

pub record PinnedStore : Type 0 where
  pub set : List (String × PinnedClient)
  pub disk : Disk

-- `none` of `read` is an error other than "does not exist".
pub data LoadResult : Type 0 where
  loaded : PinnedStore → LoadResult
  load_failed : LoadResult

-- `bytes.TrimSpace` leaves nothing: ASCII white space only.
unfoldable pub all_space : List ℕ → Bool
all_space [] = true
all_space (x ∷ xs) = (x == 9 || x == 10 || x == 11 || x == 12 || x == 13 || x == 32) && all_space xs

unfoldable pub index_clients :
    List (String × PinnedClient) → List PinnedClient → List (String × PinnedClient)
index_clients set [] = set
index_clients set (c ∷ cs) = index_clients (insert c.pub_key c set) cs

-- `readable` says that the file, where there is one, can be read.
unfoldable pub load_pinned_store : Json → Bool → Disk → LoadResult
unfolding all_space index_clients
load_pinned_store json readable disk = elim disk.clients [
  | none ↦ loaded (record { set = []; disk = disk })
  | some bytes ↦
      if not readable
      then load_failed
      else if all_space bytes
      then loaded (record { set = []; disk = disk })
      else elim (json.unmarshal bytes) [
        | none ↦ load_failed
        | some clients ↦ loaded (record { set = index_clients [] clients; disk = disk })
      ]
]

unfoldable pub contains : PinnedStore → String → Bool
contains ps pub_key = is_some (lookup pub_key ps.set)

-- Which calls of `save` succeed; `written` is how many bytes a failing write gets out.
pub record SaveEnv : Type 0 where
  pub mkdir_all : Bool
  pub create_temp : Bool
  pub chmod : Bool
  pub write : Bool
  pub written : ℕ
  pub close : Bool
  pub rename : Bool

-- The disks that one can meet if the process dies during `save`, in order, the last one first, and
-- whether it succeeds. Each early return runs the deferred `os.Remove` of the temporary file.
pub record Saved : Type 0 where
  pub last : Disk
  pub passed : List Disk
  pub saved : Bool

abbrev pub values : List (String × PinnedClient) → List PinnedClient
values = map (λ entry. entry.1)

abbrev with_temp : Disk → List ℕ → Disk
with_temp disk bytes = record disk { temps = bytes ∷ disk.temps }

unfoldable pub save : Json → SaveEnv → Disk → List (String × PinnedClient) → Saved
save json env disk set = elim (json.marshal (values set)) [
  | none ↦ record { last = disk; passed = []; saved = false }
  | some bytes ↦
      if not (env.mkdir_all && env.create_temp)
      then record { last = disk; passed = []; saved = false }
      else if not env.chmod
      then record { last = disk; passed = with_temp disk [] ∷ []; saved = false }
      else if not env.write
      then record {
        last = disk;
        passed = with_temp disk (take env.written bytes) ∷ with_temp disk [] ∷ [];
        saved = false;
      }
      else if not (env.close && env.rename)
      then record {
        last = disk;
        passed =
            with_temp disk bytes ∷ with_temp disk (take env.written bytes) ∷ with_temp disk [] ∷ [];
        saved = false;
      }
      else record {
        last = record disk { clients = some bytes };
        passed =
            with_temp disk bytes ∷ with_temp disk (take env.written bytes) ∷ with_temp disk [] ∷ [];
        saved = true;
      }
]

abbrev finish : PinnedStore → List (String × PinnedClient) → Saved → PinnedStore × Bool
finish ps set s = (record { set = set; disk = s.last }, s.saved)

-- The map is changed first, and stays changed if `save` fails.
unfoldable pub add : Json → SaveEnv → PinnedStore → String → String → PinnedStore × Bool
unfolding save
add json env ps pub_key name =
    let set = insert pub_key (record { pub_key = pub_key; name = name }) ps.set in
    finish ps set (save json env ps.disk set)

unfoldable pub remove : Json → SaveEnv → PinnedStore → String → PinnedStore × Bool
unfolding save
remove json env ps pub_key =
    let set = delete pub_key ps.set in finish ps set (save json env ps.disk set)
