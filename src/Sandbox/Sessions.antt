-- ===== src/Sandbox/Sessions.antt =====
-- internal/mcpserver/session_cache.go and permissions.go: permissions at run time, and the sessions
-- behind them.
use costwise_mcp.Prelude.{
  ◌≡◌, ◌⊎◌, refl, ap, sym, ◌∙◌, subst, inl, inr, Bool, true, false, ◌&&◌, ◌||◌, List, [], ◌∷◌, ◌++◌,
  Option, none, some, bytes_eq_self, if◌then◌else◌, All,
}
use costwise_mcp.Sandbox.{
  Names, Server, Session, SessionResult, AllowError, no_access, not_directory, already_allowed,
  opened, refused, path_not_allowed, session_failed, same_names, is_empty, is_listed,
  validate_repo_path, allow_path, find_session, get_or_create_repo_session,
}
use costwise_mcp.Sandbox.Prefixes.{
  IsName, begins_with, begins_with_any, or_true, validate_repo_path-begins_with,
}

begins_with_any-append :
    (ps : List Names) (p path : Names)
    → begins_with p path ≡ true
    → begins_with_any (ps ++ p ∷ []) path ≡ true
begins_with_any-append [] p path inside = rw inside refl
begins_with_any-append (q ∷ ps) p path inside =
    rw (begins_with_any-append ps p path inside) (or_true (begins_with q path))

-- what `AllowPath` makes of the outcome of `os.Stat`
abbrev allowing : Option Bool → Bool → Server → Server → Server × Option AllowError
allowing stat listed s t = elim stat [
  | none ↦ (s, some no_access)
  | some false ↦ (s, some not_directory)
  | some true ↦ if listed then (s, some already_allowed) else (t, none)
]

allowing-none :
    (stat : Option Bool) (listed : Bool) (s t : Server)
    → (allowing stat listed s t).1 ≡ none
    → (allowing stat listed s t).0 ≡ t
allowing-none none listed s t ok = absurd (cc ok)
allowing-none (some false) listed s t ok = absurd (cc ok)
allowing-none (some true) true s t ok = absurd (cc ok)
allowing-none (some true) false s t ok = refl

allow_path-added :
    (stat : Names → Option Bool) (p : Names) (s : Server)
    → (allow_path stat p s).1 ≡ none
    → (allow_path stat p s).0 ≡ record s { dynamic = s.dynamic ++ p ∷ [] }
unfolding allow_path
allow_path-added stat p s ok =
    allowing-none (stat p) (is_listed p s.dynamic) s (record s { dynamic = s.dynamic ++ p ∷ [] }) ok

-- After a successful `AllowPath`, every path of proper names that begins with the new prefix is
-- accepted.
pub allow_path-validate :
    (stat : Names → Option Bool) (p path : Names) (s : Server)
    → (allow_path stat p s).1 ≡ none
    → All IsName path
    → begins_with p path ≡ true
    → validate_repo_path (allow_path stat p s).0 path ≡ true
allow_path-validate stat p path s ok names inside =
    let t : Server = record s { dynamic = s.dynamic ++ p ∷ [] } in
    let there = begins_with_any-append s.dynamic p path inside in
    ap (λ (u : Server). validate_repo_path u path) (allow_path-added stat p s ok)
    ∙ (validate_repo_path-begins_with t path names
        ∙ (ap
              (λ (b : Bool).
                (is_empty s.allowed && is_empty (s.dynamic ++ p ∷ []))
                || (begins_with_any s.allowed path || b))
              there
            ∙ (ap (λ (b : Bool). (is_empty s.allowed && is_empty (s.dynamic ++ p ∷ [])) || b)
                  (or_true (begins_with_any s.allowed path))
                ∙ or_true (is_empty s.allowed && is_empty (s.dynamic ++ p ∷ [])))))

same_names_self : (k : Names) → same_names k k ≡ true
same_names_self [] = refl
same_names_self (n ∷ k) = rw (bytes_eq_self n) (same_names_self k)

validate_sessions :
    (s : Server) (path : Names) (sessions : List (Names × Session)) (starts : List Names)
    → validate_repo_path (record s { sessions = sessions; starts = starts }) path
      ≡ validate_repo_path s path
unfolding validate_repo_path
validate_sessions s path sessions starts = refl

-- what `GetOrCreateRepoSession` makes of its tests
abbrev opening :
    Bool → Option Session → Option Session → Server → (Session → Server) → Server × SessionResult
opening valid found made s t =
    if valid
    then elim found [
      | some rs ↦ (s, opened rs)
      | none ↦ elim made [ none ↦ (s, refused session_failed) | some rs ↦ (t rs, opened rs) ]
    ]
    else (s, refused path_not_allowed)

-- the session that it returns was there, or is new
opening-cases :
    (valid : Bool) (found made : Option Session) (s : Server) (t : Session → Server) (rs : Session)
    → (opening valid found made s t).1 ≡ opened rs
    → (valid ≡ true)
      × (((found ≡ some rs) × ((opening valid found made s t).0 ≡ s))
          ⊎ ((found ≡ none) × ((opening valid found made s t).0 ≡ t rs)))
opening-cases false found made s t rs h = absurd (cc h)
opening-cases true (some r) made s t rs h = (refl, inl (cc h, refl))
opening-cases true none none s t rs h = absurd (cc h)
opening-cases true none (some r) s t rs h = (refl, inr (refl, cc h))

find_session_new :
    (key : Names) (rs : Session) (sessions : List (Names × Session))
    → find_session key ((key, rs) ∷ sessions) ≡ some rs
find_session_new key rs sessions = rw (same_names_self key) refl

get_or_create_found :
    (new_session : Names → Option Session) (key : Names) (s : Server) (rs : Session)
    → validate_repo_path s key ≡ true
    → find_session key s.sessions ≡ some rs
    → get_or_create_repo_session new_session key s ≡ (s, opened rs)
unfolding get_or_create_repo_session
get_or_create_found new_session key s rs valid found =
    rw (valid, found, get_or_create_repo_session) refl

-- A session is returned only for a path that the server accepts, and from then on every request
-- for the path returns that session, whatever a new one would be, and changes nothing.
pub get_or_create-get_or_create :
    (new_session later : Names → Option Session) (key : Names) (s : Server) (rs : Session)
    → (get_or_create_repo_session new_session key s).1 ≡ opened rs
    → let t = (get_or_create_repo_session new_session key s).0 in
      (validate_repo_path s key ≡ true) × (get_or_create_repo_session later key t ≡ (t, opened rs))
unfolding get_or_create_repo_session
get_or_create-get_or_create new_session later key s rs h =
    let made : Session → Server =
      λ r. record s { sessions = (key, r) ∷ s.sessions; starts = key ∷ s.starts } in
    let (valid, cases) =
      opening-cases (validate_repo_path s key) (find_session key s.sessions) (new_session key) s
        made rs h in
    let t = (get_or_create_repo_session new_session key s).0 in
    elim cases [
      | inl (found, same) ↦ (
        valid,
        subst (λ (u : Server). get_or_create_repo_session later key u ≡ (u, opened rs)) (sym same)
            (get_or_create_found later key s rs valid found),
      )
      | inr (free, new) ↦ (
        valid,
        subst (λ (u : Server). get_or_create_repo_session later key u ≡ (u, opened rs)) (sym new)
            (get_or_create_found later key (made rs) rs
              (validate_sessions s key ((key, rs) ∷ s.sessions) (key ∷ s.starts) ∙ valid)
              (find_session_new key rs s.sessions)),
      )
    ]
