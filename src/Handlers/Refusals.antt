-- ===== src/Handlers/Refusals.antt =====
-- internal/mcpserver/tools.go: the tools on a path outside the allowed directories.
use costwise_mcp.Prelude.{◌≡◌, refl, Bool, true, false, Bytes, codes, if◌then◌else◌, arith}
use costwise_mcp.Sandbox.{
  Names, Session, Server, refused, path_not_allowed, validate_repo_path, get_or_create_repo_session,
}
use costwise_mcp.Ledger.{Ledgers}
use costwise_mcp.Handlers.{remember, stash_context, recall, remember_with, stash_with, recall_with}
use costwise_mcp.Handlers.Texts.{get_string_arg, parse_budget}
use costwise_mcp.Handlers.Sessions.{
  Host, ToolError, ToolResult, failed, missing_argument, fact_too_large, content_too_large,
  not_opened, Libraries, Arguments, logged_start, open_session, with_session,
}

-- nothing has changed, and the answer is an error
pub record IsRefused (before : Host) (answer : Host × ToolResult) : Type 0 where
  pub error : ToolError
  pub same : answer.0 ≡ before
  pub says : answer.1 ≡ failed error

IsRefused-failed : (h : Host) (e : ToolError) → IsRefused h (h, failed e)
IsRefused-failed h e = record { error = e; same = refl; says = refl }

IsRefused-if :
    (h : Host) (b : Bool) (x y : Host × ToolResult)
    → IsRefused h x
    → IsRefused h y
    → IsRefused h (if b then x else y)
IsRefused-if h true x y p q = p
IsRefused-if h false x y p q = q

module _ (lib : Libraries) where
  same_start : (key : Names) (s : Server) (l : Ledgers) → logged_start lib key s s l ≡ l
  same_start key s l = ground arith

  open_session-refused :
      (path : Bytes) (h : Host)
      → validate_repo_path h.server (lib.normalize path) ≡ false
      → open_session lib path h ≡ (h, refused path_not_allowed)
  unfolding open_session get_or_create_repo_session
  open_session-refused path h closed =
      rw (closed, same_start (lib.normalize path) h.server h.ledgers) refl

  with_session-IsRefused :
      (path : Bytes) (run : Session → Host → Host × ToolResult) (h : Host)
      → validate_repo_path h.server (lib.normalize path) ≡ false
      → IsRefused h (with_session lib path run h)
  with_session-IsRefused path run h closed =
      rw (open_session-refused path h closed) (IsRefused-failed h (not_opened path_not_allowed))

  -- On a path that the sandbox does not accept, `remember`, `stash_context` and `recall` answer with
  -- an error, whatever the other arguments, and leave the sessions, the ledgers, the facts and the
  -- stashes as they were.
  pub handlers-IsRefused :
      (args : Arguments) (h : Host)
      → validate_repo_path h.server (lib.normalize (get_string_arg args (codes "repo_path")))
        ≡ false
      → IsRefused h (remember lib args h)
        × IsRefused h (stash_context lib args h)
        × IsRefused h (recall lib args h)
  unfolding remember stash_context recall
  handlers-IsRefused args h closed =
      let path = get_string_arg args (codes "repo_path") in
      (
        IsRefused-if h _ _ _ (IsRefused-failed h missing_argument) (
            IsRefused-if h _ _ _ (IsRefused-failed h fact_too_large) (
              with_session-IsRefused path
                (remember_with lib path (get_string_arg args (codes "key"))
                  (get_string_arg args (codes "fact")))
                h closed)),
        IsRefused-if h _ _ _ (IsRefused-failed h missing_argument) (
            IsRefused-if h _ _ _ (IsRefused-failed h content_too_large) (
              with_session-IsRefused path
                (stash_with lib path (get_string_arg args (codes "content"))
                  (get_string_arg args (codes "label")))
                h closed)),
        IsRefused-if h _ _ _ (IsRefused-failed h missing_argument) (
            with_session-IsRefused path
              (recall_with lib path (get_string_arg args (codes "query"))
                (get_string_arg args (codes "source")) (parse_budget args 500))
              h closed),
      )
