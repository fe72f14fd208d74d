-- ===== src/Index/Database.antt =====
-- internal/treesitter/db.go: the tables of the symbol database and the statements that change them.
use costwise_mcp.Prelude.{
  ℕ, Bool, true, false, not, List, [], ◌∷◌, ◌++◌, Bytes, codes, hex, decimal, bytes_eq,
  bytes_discrete, if◌then◌else◌, insert, keep_if, take,
}

pub record Symbol : Type 0 where
  pub name : Bytes
  pub kind : Bytes
  pub language : Bytes
  pub file : Bytes
  pub start_line : ℕ
  pub end_line : ℕ
  pub signature : Bytes
  pub content : Bytes

pub data RefType : Type 0 where
  definition reference import_of export_of : RefType

pub record Reference : Type 0 where
  pub symbol_name : Bytes
  pub file : Bytes
  pub line : ℕ
  pub column : ℕ
  pub ref_type : RefType
  pub context : Bytes

pub record CallEdge : Type 0 where
  pub caller_name : Bytes
  pub caller_file : Bytes
  pub callee_name : Bytes
  pub file : Bytes
  pub line : ℕ
  pub language : Bytes

-- `symbols` under their primary key, `symbol_files` under the path
pub record Tables : Type 0 where
  pub symbols : List (Bytes × Symbol)
  pub references : List Reference
  pub call_edges : List CallEdge
  pub files : List (Bytes × Bytes)

pub data Statement : Type 0 where
  clear_file clear_references clear_call_edges : Bytes → Statement
  store_symbols : List Symbol → Statement
  store_references : List Reference → Statement
  store_call_edges : List CallEdge → Statement
  mark_indexed : Bytes → Bytes → Statement

-- the tables behind a statement, and whether it succeeded
abbrev pub Outcome : Type 0
Outcome = Tables × Bool

-- `if err := ...; err != nil { return err }` between two statements
abbrev pub then_do : Outcome → (Tables → Outcome) → Outcome
then_do (t, true) f = f t
then_do (t, false) f = (t, false)

module _ (sha256 : Bytes → Bytes) where
  unfoldable pub symbol_id : Symbol → Bytes
  symbol_id s = hex (
      take 8 (
        sha256 (
          s.name
          ++ (codes "|"
              ++ (s.kind ++ (codes "|" ++ (s.file ++ (codes "|" ++ decimal s.start_line))))))))

  -- INSERT OR REPLACE, one symbol after the other
  abbrev pub insert_symbols : List Symbol → List (Bytes × Symbol) → List (Bytes × Symbol)
  insert_symbols [] rows = rows
  insert_symbols (s ∷ ss) rows = insert_symbols ss (insert bytes_discrete (symbol_id s) s rows)

  abbrev pub effect : Statement → Tables → Tables
  effect (clear_file path) t = record t {
    symbols = keep_if (λ r. not (bytes_eq r.1.file path)) t.symbols;
  }
  effect (clear_references path) t = record t {
    references = keep_if (λ r. not (bytes_eq r.file path)) t.references;
  }
  effect (clear_call_edges path) t = record t {
    call_edges = keep_if (λ r. not (bytes_eq r.file path)) t.call_edges;
  }
  effect (store_symbols ss) t = record t { symbols = insert_symbols ss t.symbols }
  effect (store_references rs) t = record t { references = t.references ++ rs }
  effect (store_call_edges cs) t = record t { call_edges = t.call_edges ++ cs }
  effect (mark_indexed path hash) t = record t { files = insert bytes_discrete path hash t.files }

  -- A statement, or the transaction that holds it, is done whole or not at all.
  abbrev pub exec : (Statement → Tables → Bool) → Statement → Tables → Outcome
  exec refuses s t = if refuses s t then (t, false) else (effect s t, true)
