-- ===== src/Tests/SandboxSamples.antt =====
-- internal/mcpserver/session_cache.go and permissions.go at concrete inputs.
use costwise_mcp.Prelude.{
  ℕ, ◌≡◌, ◌≢◌, refl, Bool, true, ◌&&◌, ◌||◌, [], ◌∷◌, Option, none, some, Bytes, codes, All,
}
use costwise_mcp.Sandbox.{
  Names, Server, Session, opened, is_empty, validate_repo_path, allow_path,
  get_or_create_repo_session,
}
use costwise_mcp.Sandbox.Prefixes.{IsName, begins_with_any, validate_repo_path-begins_with}
use costwise_mcp.Sandbox.Sessions.{allow_path-validate, get_or_create-get_or_create}

abbrev home : Names
home = codes "home" ∷ codes "ann" ∷ []

abbrev repo : Names
repo = codes "work" ∷ codes "repo" ∷ []

abbrev server : Server
server = record { allowed = home ∷ []; dynamic = []; sessions = []; starts = [] }

abbrev stat : Names → Option Bool
stat path = some true

abbrev new_session : Names → Option Session
new_session path = some 7

abbrev no_session : Names → Option Session
no_session path = none

filled : (n : Bytes) (c : ℕ) → c ∷ n ≢ []
filled n c e = cc e

repo_names : All IsName repo
repo_names = ((filled _ _, refl), ((filled _ _, refl), tt))

-- A server without any prefix accepts every path.
open_server_sample :
    validate_repo_path (record { allowed = []; dynamic = []; sessions = []; starts = [] }) repo
    ≡ true
unfolding validate_repo_path
open_server_sample = refl

validate_repo_path-begins_with_example : validate_repo_path server repo ≡ (
    (is_empty server.allowed && is_empty server.dynamic)
    || (begins_with_any server.allowed repo || begins_with_any server.dynamic repo))
validate_repo_path-begins_with_example = validate_repo_path-begins_with server repo repo_names

repo_added : (allow_path stat (codes "work" ∷ []) server).1 ≡ none
unfolding allow_path
repo_added = refl

allow_path-validate_example :
    validate_repo_path (allow_path stat (codes "work" ∷ []) server).0 repo ≡ true
allow_path-validate_example =
    allow_path-validate stat (codes "work" ∷ []) repo server repo_added repo_names refl

home_opened : (get_or_create_repo_session new_session home server).1 ≡ opened 7
unfolding get_or_create_repo_session
home_opened = refl

get_or_create-get_or_create_example :
    let t = (get_or_create_repo_session new_session home server).0 in
    (validate_repo_path server home ≡ true)
    × (get_or_create_repo_session no_session home t ≡ (t, opened 7))
get_or_create-get_or_create_example =
    get_or_create-get_or_create new_session no_session home server 7 home_opened
