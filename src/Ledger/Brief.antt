-- ===== src/Ledger/Brief.antt =====
-- internal/ledger/ledger.go: `SessionBrief`, the rendered summary under a token budget.
use costwise_mcp.Prelude.{
  ℕ, suc, ◌+◌, ◌-◌, ◌*◌, ◌&&◌, ◌||◌, List, [], ◌∷◌, ◌++◌, none, some, Bytes, codes, bytes_eq, ltb,
  if◌then◌else◌, length, take, get_last?, ℤ, pos, negsuc, or_default, decimal, join, ◌==◌,
}
use costwise_mcp.Ledger.Events.{Event}
use costwise_mcp.Ledger.Scopes.{filter_by_scope}

abbrev pub max_changed_files : ℕ
max_changed_files = 10

-- the en dash, in UTF-8
abbrev dash : Bytes
dash = 0xE2 ∷ 0x80 ∷ 0x93 ∷ []

abbrev pub plural : Bytes → ℕ → Bytes
plural k n = if n == 1 then k else k ++ codes "s"

-- `countByKind`, at one kind
abbrev pub count_kind : Bytes → List Event → ℕ
count_kind k [] = 0
count_kind k (e ∷ events) =
    let rest = count_kind k events in if bytes_eq e.kind k then suc rest else rest

abbrev prefix_of : Event → Bytes
prefix_of e =
    if bytes_eq e.action (codes "read")
      || (bytes_eq e.action (codes "reindex") || bytes_eq e.action (codes "auto_reindex"))
    then codes "~"
    else codes "+"

-- the first changed files, and a count of the others
abbrev shown_files : List Bytes → List Bytes
shown_files files =
    if ltb max_changed_files (length files)
    then take max_changed_files files
      ++ (codes "+" ++ (decimal (length files - max_changed_files) ++ codes " more")) ∷ []
    else files

unfoldable pub render_event : Event → Bytes
render_event e =
    if bytes_eq e.kind (codes "session")
    then []
    else if bytes_eq e.kind (codes "fact")
    then codes "+ fact:   remembered: \"" ++ (e.summary ++ codes "\"")
    else if bytes_eq e.kind (codes "recall")
    then prefix_of e
      ++ (codes " recall: recalled \""
          ++ (e.query
              ++ (codes "\" from " ++ (if bytes_eq e.source [] then codes "facts" else e.source))))
    else if bytes_eq e.kind (codes "stash")
    then prefix_of e
      ++ (codes " stash:  stashed "
          ++ (e.summary
              ++ (codes " (handle: "
                  ++ (e.handle ++ (codes ", ~" ++ (decimal e.tokens ++ codes " tok)"))))))
    else if bytes_eq e.kind (codes "index")
    then prefix_of e
      ++ (codes " index:  reindexed "
          ++ (decimal e.files ++ (codes " files (trigger: " ++ (e.trigger ++ codes ")"))))
    else if bytes_eq e.kind (codes "watch")
    then prefix_of e
      ++ (codes " watch:  auto-reindexed after file change: "
          ++ join (shown_files e.changed_files) (codes ", "))
    else prefix_of e
      ++ (codes " " ++ (e.kind ++ (codes ": " ++ (e.action ++ (codes " " ++ e.summary)))))

unfoldable pub render_events : List Event → List Bytes
unfolding render_event
render_events [] = []
render_events (e ∷ events) =
    let rest = render_events events in elim (render_event e) [ [] ↦ rest | c ∷ s ↦ (c ∷ s) ∷ rest ]

-- the counts of the header; `parts` is the number written so far
abbrev kind_parts : ℕ → List Bytes → List Event → Bytes
kind_parts parts [] events = []
kind_parts parts (k ∷ ks) events =
    let n = count_kind k events in
    if ltb 0 n
    then (if ltb 0 parts then codes ", " else [])
      ++ (decimal n ++ (codes " " ++ (plural k n ++ kind_parts (suc parts) ks events)))
    else kind_parts parts ks events

abbrev kinds : List Bytes
kinds = codes "fact" ∷ codes "stash" ∷ codes "recall" ∷ codes "index" ∷ codes "watch" ∷ []

abbrev positive : ℤ → ℕ
positive (pos n) = n
positive (negsuc n) = 0

abbrev last_ts : Event → List Event → ℕ
last_ts e events = elim (get_last? (e ∷ events)) [ none ↦ e.ts | some f ↦ f.ts ]

-- `format` is `time.Time.Format`, given a layout and a time.
module _ (format : Bytes → ℕ → Bytes) where
  -- the header's beginning, over the events newest first
  unfoldable pub header : ℤ → Bytes → Event → List Event → Bytes
  header n scope e events =
      let first = last_ts e events in
      let long = codes "2006-01-02 15:04" in
      let short = codes "15:04" in
      (if ltb 1 (positive n)
        then codes "Last "
          ++ (decimal (positive n)
              ++ (codes " sessions "
                  ++ (dash
                      ++ (codes " "
                          ++ (format long first
                              ++ (codes " to " ++ (format long e.ts ++ codes " (")))))))
        else if bytes_eq scope (codes "last") || (positive n == 1)
        then codes "Session "
          ++ (format short first
              ++ (codes " " ++ (dash ++ (codes " " ++ (format short e.ts ++ codes " (")))))
        else format (codes "2006-01-02") first ++ codes " (")
      ++ (kind_parts 0 kinds (e ∷ events) ++ (codes ")" ++ b'\n' ∷ []))

  -- the loop over the rendered lines: the text so far and the number of omitted lines
  unfoldable pub add_lines : ℕ → Bytes → ℕ → List Bytes → Bytes × ℕ
  add_lines max_chars b omitted [] = (b, omitted)
  add_lines max_chars b omitted (line ∷ lines) =
      let skip = add_lines max_chars b (suc omitted) lines in
      let keep = add_lines max_chars (b ++ (line ++ b'\n' ∷ [])) omitted lines in
      if ltb max_chars (length b + length line + 1) && ltb 0 (length b) then skip else keep

  abbrev omitted_line : ℕ → ℕ → Bytes
  omitted_line omitted budget =
      if ltb 0 omitted
      then codes "... ("
        ++ (decimal omitted
            ++ (codes " earlier events omitted, budget "
                ++ (decimal budget ++ (codes " tok)" ++ b'\n' ∷ []))))
      else []

  -- `SessionBrief` over the events of the file, oldest first
  unfoldable pub session_brief : ℕ → List Event → Bytes → ℤ → ℤ → Bytes
  unfolding header add_lines render_events filter_by_scope
  session_brief now [] scope budget n =
      codes "No session events recorded for this repository yet." ++ b'\n' ∷ []
  session_brief now (f ∷ fs) scope budget n =
      let tokens = or_default 300 budget in
      elim (filter_by_scope now (f ∷ fs) scope n) [
        | [] ↦ codes "No session events match the requested scope." ++ b'\n' ∷ []
        | e ∷ events ↦
            let (b, omitted) =
              add_lines (tokens * 4) (header n scope e events) 0 (render_events (e ∷ events)) in
            b ++ omitted_line omitted tokens
      ]
