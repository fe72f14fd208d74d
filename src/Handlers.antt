-- ===== src/Handlers.antt =====
-- internal/mcpserver/tools.go: the tools of the server that keep facts and texts for a repository,
-- over the sandbox, the ledger, the knowledge memory and the stash.
pub mod Texts
pub mod Sessions
pub mod Refusals
use costwise_mcp.Prelude.{
  ℕ, zero, suc, ◌+◌, Bool, true, false, not, ◌&&◌, ◌||◌, List, [], ◌∷◌, ◌++◌, map, Option, none,
  some, ℤ, Bytes, codes, bytes_eq, bytes_discrete, lookup, decimal, ltb, if◌then◌else◌, length,
  take, to_lower, trim_space, contains,
}
use costwise_mcp.Sandbox.{Names, Session, opened, refused, allow_path}
use costwise_mcp.Ledger.{append, read_all}
use costwise_mcp.Ledger.Events.{Event}
use costwise_mcp.Ledger.Brief
use costwise_mcp.Stash.{Entry, Found, list, query}
use costwise_mcp.Stash
use costwise_mcp.Handlers.Texts.{
  take_runes, rune_count, get_string_arg, parse_budget, trim_to_budget,
}
use costwise_mcp.Handlers.Sessions.{
  RepoState, Host, ToolError, ToolResult, failed, text, missing_argument, invalid_scope,
  fact_too_large, content_too_large, not_remembered, not_stashed, not_opened, not_allowed, no_stash,
  Libraries, Arguments, empty_event, log_event, repo_of, set_repo, open_session, with_session,
  remember_fact, recall_facts,
}

abbrev dash : Bytes
dash = 226 ∷ 128 ∷ 148 ∷ []

abbrev arrow : Bytes
arrow = 226 ∷ 134 ∷ 146 ∷ []

module _ (lib : Libraries) where
  abbrev pub remember_with : Bytes → Bytes → Bytes → Session → Host → Host × ToolResult
  remember_with path key fact rs h =
      let (r, error) = remember_fact lib key fact (repo_of lib rs h.repos) in
      let kept = record h { repos = set_repo lib rs r h.repos } in
      let event = record (empty_event (codes "fact") (codes "add")) {
        summary = take_runes 200 fact;
      } in
      elim error [
        | some e ↦ (kept, failed not_remembered)
        | none ↦ (
          record kept { ledgers = log_event lib path event kept.ledgers },
          text (
              codes "Remembered "
              ++ (lib.quote key
                  ++ (codes ". Use recall(query="
                      ++ (lib.quote key ++ codes ") to retrieve it.")))),
        )
      ]

  -- `rememberHandler`
  unfoldable pub remember : Arguments → Host → Host × ToolResult
  unfolding open_session remember_fact
  remember args h =
      let path = get_string_arg args (codes "repo_path") in
      let key = get_string_arg args (codes "key") in
      let fact = get_string_arg args (codes "fact") in
      if bytes_eq path [] || (bytes_eq key [] || bytes_eq fact [])
      then (h, failed missing_argument)
      else if ltb 10240 (length fact)
      then (h, failed fact_too_large)
      else with_session lib path (remember_with path key fact) h

  abbrev stash_summary : Bytes → Bytes → Bytes
  stash_summary label content =
      if bytes_eq label []
      then (if ltb 40 (rune_count content) then take_runes 40 content ++ codes "..." else content)
      else label

  abbrev stashed_text : Entry → Bytes
  stashed_text e =
      codes "Stashed"
      ++ ((if bytes_eq e.label [] then [] else b' ' ∷ lib.quote e.label)
          ++ (b' ' ∷ arrow
              ++ (b' ' ∷ e.handle
                  ++ (codes " (~"
                      ++ (decimal e.tokens
                          ++ (codes
                                " tokens kept out of context). Read only what you need with recall(source="
                              ++ (lib.quote e.handle ++ codes ", query=...).")))))))

  abbrev pub stash_with : Bytes → Bytes → Bytes → Session → Host → Host × ToolResult
  stash_with path content label rs h =
      let r = repo_of lib rs h.repos in
      let (stash, stored) =
        Stash.store lib.sha256 lib.stash_json lib.stash_of_json lib.disk lib.broken lib.now content
          label r.stash in
      let kept = record h { repos = set_repo lib rs (record r { stash = stash }) h.repos } in
      elim stored [
        | none ↦ (kept, failed not_stashed)
        | some e ↦
            let event = record (empty_event (codes "stash") (codes "create")) {
              handle = e.handle;
              tokens = e.tokens;
              summary = stash_summary label content;
            } in
            (record kept { ledgers = log_event lib path event kept.ledgers }, text (stashed_text e))
      ]

  -- `stashContextHandler`
  unfoldable pub stash_context : Arguments → Host → Host × ToolResult
  unfolding open_session Stash.store
  stash_context args h =
      let path = get_string_arg args (codes "repo_path") in
      let content = get_string_arg args (codes "content") in
      let label = get_string_arg args (codes "label") in
      if bytes_eq path [] || bytes_eq content []
      then (h, failed missing_argument)
      else if ltb 1048576 (length content)
      then (h, failed content_too_large)
      else with_session lib path (stash_with path content label) h

  abbrev stash_lines : Bytes → List Entry → List Bytes
  stash_lines words [] = []
  stash_lines words (e ∷ es) =
      let rest = stash_lines words es in
      let line =
        codes "  "
        ++ (e.handle
            ++ (b' ' ∷ dash
                ++ (b' ' ∷ e.label ++ (codes " (~" ++ (decimal e.tokens ++ codes " tok)"))))) in
      if bytes_eq words [] || contains (to_lower (e.label ++ (b' ' ∷ e.handle))) words
      then line ∷ rest
      else rest

  abbrev under_title : Bytes → List Bytes → List Bytes
  under_title title [] = []
  under_title title (l ∷ ls) = title ∷ l ∷ ls

  -- the lines of `recallHandler` without a handle
  abbrev pub recall_lines : Bytes → Bytes → RepoState → List Bytes
  recall_lines source words r =
      under_title (codes "Facts:") (map (λ (f : Bytes). codes "  " ++ f) (recall_facts lib words r))
      ++ (if bytes_eq source []
          then under_title (codes "Stashes (recall with source=<handle>):")
              (stash_lines (to_lower (trim_space words)) (list r.stash))
          else [])

  abbrev recall_event : Bytes → Bytes → Event
  recall_event words source = record (empty_event (codes "recall") (codes "read")) {
    query = words;
    source = source;
  }

  abbrev shown_lines : Bytes → ℕ → List Bytes → Bytes
  shown_lines words budget [] =
      codes "Nothing remembered or stashed matches " ++ (lib.quote words ++ codes ".")
  shown_lines words budget (l ∷ ls) = trim_to_budget (l ∷ ls) budget

  abbrev pub recall_with : Bytes → Bytes → Bytes → ℕ → Session → Host → Host × ToolResult
  recall_with path words source budget rs h =
      let r = repo_of lib rs h.repos in
      let logged = record h {
        ledgers = log_event lib path (recall_event words source) h.ledgers;
      } in
      let found =
        query lib.quote lib.sha256 lib.stash_json lib.stash_of_json lib.disk lib.broken source words
          (ℤ.pos budget) r.stash in
      if not (bytes_eq source []) && not (bytes_eq source (codes "facts"))
      then elim found [
        | Found.content out ↦ (logged, text out)
        | Found.unknown ↦ (h, failed (no_stash Found.unknown))
        | Found.failed ↦ (h, failed (no_stash Found.failed))
      ]
      else (logged, text (shown_lines words budget (recall_lines source words r)))

  -- `recallHandler`
  unfoldable pub recall : Arguments → Host → Host × ToolResult
  unfolding open_session recall_facts query list trim_to_budget parse_budget
  recall args h =
      let path = get_string_arg args (codes "repo_path") in
      let words = get_string_arg args (codes "query") in
      let source = get_string_arg args (codes "source") in
      if bytes_eq path []
      then (h, failed missing_argument)
      else with_session lib path (recall_with path words source (parse_budget args 500)) h

  abbrev allowed_text : Names → Bytes
  allowed_text path =
      let quoted = lib.quote (lib.path_text path) in
      codes "Path "
      ++ (quoted
          ++ (codes " is now allowed. Retry your original tool call with repo_path="
              ++ (quoted ++ codes ".")))

  -- `allowDirHandler`; a session that cannot be opened is no error
  unfoldable pub allow_dir : Arguments → Host → Host × ToolResult
  unfolding open_session allow_path
  allow_dir args h =
      let path = lib.normalize (get_string_arg args (codes "repo_path")) in
      let (server, error) = allow_path lib.stat path h.server in
      let (g, session) = open_session lib (lib.path_text path) (record h { server = server }) in
      if bytes_eq (get_string_arg args (codes "repo_path")) []
      then (h, failed missing_argument)
      else elim error [
        | some e ↦ (record h { server = server }, failed (not_allowed e))
        | none ↦ (g, text (allowed_text path))
      ]

  -- the budget and the number of sessions of `sessionBriefHandler`
  abbrev brief_budget : Bytes → ℤ
  brief_budget b = elim (lib.scan_int b) [
    | some n ↦ n
    | none ↦
        if bytes_eq b (codes "medium")
        then ℤ.pos 1500
        else if bytes_eq b (codes "large")
        then ℤ.pos 3000
        else ℤ.pos 300
  ]

  abbrev brief_sessions : Bytes → ℤ
  brief_sessions b = elim (lib.scan_int b) [
    | some (ℤ.pos n) ↦ ℤ.pos n
    | some (ℤ.negsuc n) ↦ ℤ.pos 0
    | none ↦ ℤ.pos 0
  ]

  abbrev brief_with : Bytes → Bytes → Bytes → Bytes → Host → ToolResult
  brief_with path scope budget sessions h =
      let events = read_all lib.parse (lookup bytes_discrete path h.ledgers.files) in
      text (
        Brief.session_brief lib.format lib.now events scope (brief_budget budget)
          (brief_sessions sessions))

  -- `sessionBriefHandler`, where the file of the ledger can be read or is missing
  unfoldable pub session_brief_tool : Arguments → Host → ToolResult
  unfolding read_all Brief.session_brief
  session_brief_tool args h =
      let path = get_string_arg args (codes "repo_path") in
      let scope = get_string_arg args (codes "scope") in
      let brief = brief_with path in
      let known =
        bytes_eq scope (codes "last")
        || (bytes_eq scope (codes "today") || bytes_eq scope (codes "all")) in
      let chosen = if bytes_eq scope [] then codes "last" else scope in
      if bytes_eq path []
      then failed missing_argument
      else if not (bytes_eq scope []) && not known
      then failed invalid_scope
      else brief chosen (get_string_arg args (codes "budget"))
          (get_string_arg args (codes "sessions")) h
