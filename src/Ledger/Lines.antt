-- ===== src/Ledger/Lines.antt =====
-- internal/ledger/ledger.go: what `ReadAll` finds after `Append`.
use mathlib.Core.Option.{some-injective}
use costwise_mcp.Prelude.{
  ℕ, ◌≡◌, ◌≢◌, refl, ap, sym, subst, ◌∙◌, ◌⊎◌, inl, inr, Bool, true, false, List, [], ◌∷◌, ◌++◌,
  Option, none, some, Bytes, bytes_discrete, insert, All, arith, lookup-delete_ne, Option-cases,
  Bool-cases, take,
}
use costwise_mcp.Ledger.{
  LedgerError, Ledgers, Answers, file_of, open_handle, extend, write_line, append, write,
}
use costwise_mcp.Ledger.Events.{Event}

-- the file is empty or ends behind a newline, as `Append` leaves it
abbrev pub IsClosed : Bytes → Type 0
IsClosed f = (f ≡ []) ⊎ ((g : Bytes) × (f ≡ g ++ b'\n' ∷ []))

-- What encoding/json does with an event: an object on one line, which is read back.
pub record IsJsonLine (marshal : Event → Option Bytes) (parse : Bytes → Option Event) (e : Event)
    (line : Bytes) : Type 0 where
  pub marshalled : marshal e ≡ some line
  pub opened : (rest : Bytes) × (line ≡ b'{' ∷ rest)
  pub one_line : All (λ c. c ≢ b'\n') line
  pub parsed : parse line ≡ some e

file_of-insert_self :
    (repo f : Bytes) (files : List (Bytes × Bytes))
    → file_of repo (insert bytes_discrete repo f files) ≡ f
file_of-insert_self repo f files = ground arith

file_of-insert_ne :
    (repo q f : Bytes) (files : List (Bytes × Bytes))
    → q ≢ repo
    → file_of q (insert bytes_discrete repo f files) ≡ file_of q files
file_of-insert_ne repo q f files ne = ground (arith, lookup-delete_ne bytes_discrete repo q files)

-- to open a handle changes no file's bytes
open_handle-file_of :
    (ok : Bool) (repo q : Bytes) (l l' : Ledgers)
    → open_handle ok repo l ≡ some l'
    → file_of q l'.files ≡ file_of q l.files
open_handle-file_of ok repo q l l' e = elim (bytes_discrete q repo) [
  | yes p ↦ rw p (ground (arith, file_of-insert_self repo (file_of repo l.files) l.files))
  | no p ↦ ground (arith, file_of-insert_ne repo q (file_of repo l.files) l.files p)
]

abbrev pub working : Answers
working = record { mkdir_ok = true; open_ok = true; write_ok = true; written = 0 }

-- the file after one more line
abbrev pub extended : Bytes → Ledgers → Bytes → Bytes
extended repo l line = file_of repo l.files ++ (line ++ b'\n' ∷ [])

-- the file ends with the first bytes of the line
pub record IsTorn (json : Option Bytes) (written : ℕ) (before after : Bytes) : Type 0 where
  pub line : Bytes
  pub marshalled : json ≡ some line
  pub torn : after ≡ before ++ take written (line ++ b'\n' ∷ [])

-- what a failed write leaves
write_line_error :
    (json : Option Bytes) (ok : Bool) (written : ℕ) (repo q : Bytes) (l : Ledgers)
    (error : LedgerError)
    → (write_line json ok written repo l).1 ≡ some error
    → (file_of q (write_line json ok written repo l).0.files ≡ file_of q l.files)
      ⊎ ((q ≡ repo)
          × (error ≡ write)
          × IsTorn json written
              (file_of q l.files)
              (file_of q (write_line json ok written repo l).0.files))
write_line_error none ok written repo q l error h = inl refl
write_line_error (some line) true written repo q l error h = absurd (cc h)
write_line_error (some line) false written repo q l error h = elim (bytes_discrete q repo) [
  | no other ↦ inl (file_of-insert_ne repo q _ l.files other)
  | yes same ↦ inr (
    same,
    sym (some-injective write error h),
    record {
      line = line;
      marshalled = refl;
      torn =
          ap (λ (r : Bytes). file_of r (extend repo (take written (line ++ b'\n' ∷ [])) l).files)
            same
          ∙ (file_of-insert_self repo _ l.files
              ∙ ap (λ (r : Bytes). file_of r l.files ++ take written (line ++ b'\n' ∷ []))
                  (sym same));
    },
  )
]

module _ (marshal : Event → Option Bytes) (parse : Bytes → Option Event) where
  -- An `Append` that fails leaves the bytes of every file as they were, but for a failed write,
  -- which may leave behind the repository's file the first bytes of the line of the stamped event.
  pub append_error :
      (io : Answers) (now : ℕ) (repo : Bytes) (e : Event) (l : Ledgers) (error : LedgerError)
      (q : Bytes)
      → (append marshal io now repo e l).1 ≡ some error
      → (file_of q (append marshal io now repo e l).0.files ≡ file_of q l.files)
        ⊎ ((q ≡ repo)
            × (error ≡ write)
            × IsTorn
                (marshal (record e { ts = now }))
                io.written
                (file_of q l.files)
                (file_of q (append marshal io now repo e l).0.files))
  unfolding append
  append_error io now repo e l error q failed = elim (Bool-cases io.mkdir_ok) [
    | inr off ↦ inl (rw (off, append) refl)
    | inl on ↦ elim (Option-cases (open_handle io.open_ok repo l)) [
      | inl o ↦ inl (rw (on, o, append) refl)
      | inr (m, o) ↦
          let step : append marshal io now repo e l
              ≡ write_line (marshal (record e { ts = now })) io.write_ok io.written repo m =
            rw (on, o, append) refl in
          let ended =
            write_line_error (marshal (record e { ts = now })) io.write_ok io.written repo q m error
              (ap (λ (r : Ledgers × Option LedgerError). r.1) (sym step) ∙ failed) in
          subst
            (λ (f : Bytes).
              (f ≡ file_of q l.files)
              ⊎ ((q ≡ repo)
                  × (error ≡ write)
                  × IsTorn (marshal (record e { ts = now })) io.written (file_of q l.files) f))
            (ap (λ (r : Ledgers × Option LedgerError). file_of q r.0.files) (sym step))
            (subst
              (λ (f : Bytes).
                (file_of q
                    (write_line (marshal (record e { ts = now })) io.write_ok io.written repo
                      m).0.files
                  ≡ f)
                ⊎ ((q ≡ repo)
                    × (error ≡ write)
                    × IsTorn (marshal (record e { ts = now })) io.written f (
                        file_of q
                          (write_line (marshal (record e { ts = now })) io.write_ok io.written repo
                            m).0.files)))
              (open_handle-file_of io.open_ok repo q l m o) ended)
    ]
  ]
