-- ===== src/RepoMemory.antt =====
-- internal/repo_memory/repo_memory.go: what is known of a repository's symbols and calls. A
-- statement that the database refuses is a parameter.
use costwise_mcp.Prelude.{
  ℕ, Bool, true, false, ◌&&◌, ◌||◌, ◌==◌, List, [], ◌∷◌, ◌++◌, Option, none, Bytes, bytes_eq,
  bytes_discrete, lookup, insert, if◌then◌else◌, keep_if,
}

pub record KnownSymbol : Type 0 where
  pub name : Bytes
  pub file : Bytes
  pub definition : Bytes
  pub last_seen : ℕ

pub record KnownReference : Type 0 where
  pub symbol : Bytes
  pub file : Bytes
  pub line : ℕ
  pub context : Bytes

pub record Call : Type 0 where
  pub caller : Bytes
  pub callee : Bytes
  pub file : Bytes
  pub line : ℕ

-- the tables `symbols`, `symbol_references` and `calls`
pub record RepoMemory : Type 0 where
  pub symbols : List (Bytes × KnownSymbol)
  pub symbol_references : List KnownReference
  pub calls : List Call

-- what `migrate` makes in a new database
abbrev pub migrated : RepoMemory
migrated = record { symbols = []; symbol_references = []; calls = [] }

-- `LearnSymbol`; false is an error
unfoldable pub learn_symbol : Bool → ℕ → KnownSymbol → RepoMemory → RepoMemory × Bool
learn_symbol accepts now s m =
    if accepts
    then (
      record m { symbols = insert bytes_discrete s.name (record s { last_seen = now }) m.symbols },
      true,
    )
    else (m, false)

-- `GetSymbol`
unfoldable pub get_symbol : Bytes → RepoMemory → Option KnownSymbol
get_symbol name m = lookup bytes_discrete name m.symbols

-- `LearnReference` and `GetReferences`: no statement makes their table `references`
unfoldable pub learn_reference : KnownReference → RepoMemory → RepoMemory × Bool
learn_reference r m = (m, false)

unfoldable pub get_references : Bytes → RepoMemory → Option (List KnownReference)
get_references symbol m = none

abbrev same_call : Call → Call → Bool
same_call c d =
    bytes_eq c.caller d.caller
    && (bytes_eq c.callee d.callee && (bytes_eq c.file d.file && c.line == d.line))

abbrev pub is_known : Call → List Call → Bool
is_known c [] = false
is_known c (d ∷ calls) = same_call c d || is_known c calls

-- `LearnCall`: a row with the same key is left as it is
unfoldable pub learn_call : Bool → Call → RepoMemory → RepoMemory × Bool
learn_call accepts c m =
    if accepts
    then (if is_known c m.calls then m else record m { calls = m.calls ++ c ∷ [] }, true)
    else (m, false)

-- `GetCallers`
unfoldable pub get_callers : Bytes → RepoMemory → List Call
get_callers callee m = keep_if (λ c. bytes_eq c.callee callee) m.calls
