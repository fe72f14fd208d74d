-- ===== src/Sandbox.antt =====
-- internal/mcpserver/session_cache.go and permissions.go: the directories that the server may open
-- and the sessions it holds. A path that `filepath.Abs` has made clean is the list of its names.
pub mod Prefixes
pub mod Sessions
use costwise_mcp.Prelude.{
  ℕ, Bool, true, false, not, ◌&&◌, ◌||◌, List, [], ◌∷◌, ◌++◌, Option, none, some, Bytes, codes,
  bytes_eq, if◌then◌else◌, join, has_prefix,
}

-- the names of a clean absolute path
abbrev pub Names : Type 0
Names = List Bytes

abbrev pub same_names : Names → Names → Bool
same_names [] [] = true
same_names (a ∷ s) (b ∷ t) = bytes_eq a b && same_names s t
same_names _ _ = false

abbrev pub ups : Names → Names
ups [] = []
ups (b ∷ bs) = codes ".." ∷ ups bs

-- the names of `filepath.Rel(base, target)`
abbrev pub rel_names : Names → Names → Names
rel_names [] target = target
rel_names (b ∷ bs) [] = ups (b ∷ bs)
rel_names (b ∷ bs) (t ∷ ts) =
    let rest = rel_names bs ts in if bytes_eq b t then rest else ups (b ∷ bs) ++ (t ∷ ts)

-- and its text, which is "." for the path itself
abbrev pub rel_text : Names → Bytes
rel_text [] = codes "."
rel_text (n ∷ ns) = join (n ∷ ns) (codes "/")

-- `pathUnderPrefix`
unfoldable pub path_under_prefix : Names → Names → Bool
path_under_prefix prefix path =
    let rel = rel_text (rel_names prefix path) in
    bytes_eq rel (codes ".") || not (has_prefix rel (codes ".."))

abbrev pub under_any : List Names → Names → Bool
under_any [] path = false
under_any (prefix ∷ prefixes) path = path_under_prefix prefix path || under_any prefixes path

-- `isPathDynamicallyAllowed`
unfoldable pub is_path_dynamically_allowed : List Names → Names → Bool
is_path_dynamically_allowed [] path = false
is_path_dynamically_allowed (prefix ∷ prefixes) path =
    not (has_prefix (rel_text (rel_names prefix path)) (codes ".."))
    || is_path_dynamically_allowed prefixes path

-- `session.RepoSession` by a number
abbrev pub Session : Type 0
Session = ℕ

-- `allowedPaths`, `dynamicAllowedPaths`, the sessions by their keys, and the paths under which a
-- session start was written to the ledger, newest first
pub record Server : Type 0 where
  pub allowed : List Names
  pub dynamic : List Names
  pub sessions : List (Names × Session)
  pub starts : List Names

abbrev pub is_empty : List Names → Bool
is_empty [] = true
is_empty (p ∷ ps) = false

-- `validateRepoPath`; true is a nil error
unfoldable pub validate_repo_path : Server → Names → Bool
unfolding path_under_prefix is_path_dynamically_allowed
validate_repo_path s path =
    if is_empty s.allowed && is_empty s.dynamic
    then true
    else if under_any s.allowed path
    then true
    else is_path_dynamically_allowed s.dynamic path

abbrev pub is_listed : Names → List Names → Bool
is_listed p [] = false
is_listed p (q ∷ qs) = same_names q p || is_listed p qs

pub data AllowError : Type 0 where
  no_access not_directory already_allowed : AllowError

-- `AllowPath` on a resolved path; `stat` is `os.Stat` with `IsDir`
unfoldable pub allow_path : (Names → Option Bool) → Names → Server → Server × Option AllowError
allow_path stat path s = elim (stat path) [
  | none ↦ (s, some no_access)
  | some false ↦ (s, some not_directory)
  | some true ↦
      if is_listed path s.dynamic
      then (s, some already_allowed)
      else (record s { dynamic = s.dynamic ++ path ∷ [] }, none)
]

-- the loop of `Init`, where `allowed` stands for what is seen as well
abbrev init_paths : (Names → Option Bool) → List Names → List Names → List Names → List Names
init_paths stat [] seen allowed = allowed
init_paths stat (p ∷ ps) seen allowed =
    let known = init_paths stat ps seen allowed in
    let added = init_paths stat ps (p ∷ seen) (allowed ++ p ∷ []) in
    elim (stat p) [
      | none ↦ known
      | some false ↦ known
      | some true ↦ if is_listed p seen then known else added
    ]

-- `Init`
unfoldable pub init : (Names → Option Bool) → List Names → Server → Server
init stat paths s = record s { allowed = init_paths stat paths [] s.allowed }

abbrev pub find_session : Names → List (Names × Session) → Option Session
find_session key [] = none
find_session key ((k, rs) ∷ sessions) =
    let rest = find_session key sessions in if same_names k key then some rs else rest

pub data SessionError : Type 0 where
  path_not_allowed session_failed : SessionError

pub data SessionResult : Type 0 where
  opened : Session → SessionResult
  refused : SessionError → SessionResult

-- `GetOrCreateRepoSession` on a normalized path; `new_session` is `session.NewRepoSession`
unfoldable pub get_or_create_repo_session :
    (Names → Option Session) → Names → Server → Server × SessionResult
unfolding validate_repo_path
get_or_create_repo_session new_session key s =
    if validate_repo_path s key
    then elim (find_session key s.sessions) [
      | some rs ↦ (s, opened rs)
      | none ↦ elim (new_session key) [
        | none ↦ (s, refused session_failed)
        | some rs ↦
            (record s { sessions = (key, rs) ∷ s.sessions; starts = key ∷ s.starts }, opened rs)
      ]
    ]
    else (s, refused path_not_allowed)
