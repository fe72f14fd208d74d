-- ===== src/Ledger.antt =====
-- internal/ledger/ledger.go: the session ledger, a file of JSON lines for each repository.
-- A file is its bytes, a time is its nanoseconds since 1970 UTC. encoding/json enters as the
-- parameters `marshal` and `parse` of the functions that call it.
pub mod Events
pub mod Scopes
pub mod Brief
pub mod Lines
pub mod Sessions
pub mod Budget
use costwise_mcp.Prelude.{
  ℕ, zero, suc, ◌+◌, ◌-◌, Bool, true, false, not, ◌&&◌, List, [], ◌∷◌, ◌++◌, Option, none, some,
  Bytes, codes, bytes_discrete, bytes_eq, ◌==◌, ltb, leb, if◌then◌else◌, lookup, delete, insert,
  drop, take, length, ◌≡◌, refl,
}
use costwise_mcp.Ledger.Events.{Event}

pub data LedgerError : Type 0 where
  mkdir open_file marshal_event write : LedgerError

-- the ledger files of the repositories, and the paths with an open handle in `handles`
pub record Ledgers : Type 0 where
  pub files : List (Bytes × Bytes)
  pub handles : List (Bytes × Unit {0})

-- what the operating system answers to one call of `Append`; a write that fails has put the first
-- `written` bytes into the file
pub record Answers : Type 0 where
  pub mkdir_ok : Bool
  pub open_ok : Bool
  pub write_ok : Bool
  pub written : ℕ

abbrev pub file_of : Bytes → List (Bytes × Bytes) → Bytes
file_of repo files = elim (lookup bytes_discrete repo files) [ none ↦ [] | some f ↦ f ]

-- `os.OpenFile` with O_CREATE, unless a handle is open
abbrev open_handle : Bool → Bytes → Ledgers → Option Ledgers
open_handle ok repo l = elim (lookup bytes_discrete repo l.handles) [
  | some h ↦ some l
  | none ↦
      if ok
      then some (record l {
        files = insert bytes_discrete repo (file_of repo l.files) l.files;
        handles = insert bytes_discrete repo tt l.handles;
      })
      else none
]

abbrev pub extend : Bytes → Bytes → Ledgers → Ledgers
extend repo text l = record l {
  files = insert bytes_discrete repo (file_of repo l.files ++ text) l.files;
}

-- the part of `Append` behind the handle: one line is written at the end of the file
abbrev write_line : Option Bytes → Bool → ℕ → Bytes → Ledgers → Ledgers × Option LedgerError
write_line none ok written repo l = (l, some marshal_event)
write_line (some line) false written repo l =
    (extend repo (take written (line ++ b'\n' ∷ [])) l, some write)
write_line (some line) true written repo l = (extend repo (line ++ b'\n' ∷ []) l, none)

module _ (marshal : Event → Option Bytes) where
  unfoldable pub append : Answers → ℕ → Bytes → Event → Ledgers → Ledgers × Option LedgerError
  append io now repo e l =
      let stamped = record e { ts = now } in
      if io.mkdir_ok
      then elim (open_handle io.open_ok repo l) [
        | none ↦ (l, some open_file)
        | some l' ↦ write_line (marshal stamped) io.write_ok io.written repo l'
      ]
      else (l, some mkdir)

unfoldable pub close : Bytes → Ledgers → Ledgers
close repo l = record l { handles = delete bytes_discrete repo l.handles }

unfoldable pub close_all : Ledgers → Ledgers
close_all l = record l { handles = [] }

-- `splitLines`: `cur` holds the bytes from `start` to the current one
abbrev split_lines_from : Bytes → Bytes → List Bytes
split_lines_from [] [] = []
split_lines_from [] (d ∷ cur) = (d ∷ cur) ∷ []
split_lines_from (c ∷ s) cur = elim (c == b'\n') [
  | true ↦ cur ∷ split_lines_from s []
  | false ↦ split_lines_from s (cur ++ c ∷ [])
]

unfoldable pub split_lines : Bytes → List Bytes
split_lines s = split_lines_from s []

abbrev has_bom : Bytes → Bool
has_bom (a ∷ b ∷ c ∷ s) = a == 0xEF && (b == 0xBB && c == 0xBF)
has_bom _ = false

unfoldable pub trim_bom : Bytes → Bytes
trim_bom s = if has_bom s then drop 3 s else s

module _ (parse : Bytes → Option Event) where
  -- the loop of `ReadAll`: empty and malformed lines are passed over
  abbrev pub read_lines : List Bytes → List Event
  read_lines [] = []
  read_lines (line ∷ lines) =
      let rest = read_lines lines in
      elim (trim_bom line) [
        | [] ↦ rest
        | c ∷ s ↦ elim (parse (c ∷ s)) [ none ↦ rest | some e ↦ e ∷ rest ]
      ]

  -- `ReadAll` over the file's bytes; `none` is a file that does not exist
  unfoldable pub read_all : Option Bytes → List Event
  unfolding split_lines trim_bom
  read_all none = []
  read_all (some file) = read_lines (split_lines file)

  -- `ReadAll` over what `os.ReadFile` answers, of which `none` is an error other than not-exist
  unfoldable pub read_ledger : Option (Option Bytes) → Option (List Event)
  unfolding read_all
  read_ledger none = none
  read_ledger (some file) = some (read_all file)
