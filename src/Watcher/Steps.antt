-- ===== src/Watcher/Steps.antt =====
-- internal/watcher/watcher.go: the states that a watchdog gets to.
use mathlib.Core.Option.{some-injective}
use costwise_mcp.Prelude.{
  ℕ, suc, ◌≤◌, ◌<◌, ◌≡◌, ◌⊎◌, refl, inl, inr, subst, Bool, true, false, ◌||◌, List, [], ◌∷◌, ◌++◌,
  Option, none, some, Bytes, ltb, if◌then◌else◌, length, arith, All, All-append, length-append,
  Bool-cases,
}
use costwise_mcp.Index.{Node}
use costwise_mcp.Watcher.{
  Watchdog, FileEvent, Repository, Tools, Outside, max_changed_files, new_watchdog, is_temporary,
  trigger_reindex, watch_event, expire, take_files, stop, end_loop, finish, directories, begin,
  start,
}

module _ (tools : Tools) where
  -- what the watchdog does by itself: the timer runs out, a callback gets the lock, a run ends
  pub data QuietStep (v w : Watchdog) : Type 0 where
    expired : v.armed ≡ true → w ≡ expire v → QuietStep v w
    taken : (due : ℕ) → v.due ≡ suc due → w ≡ take_files due v → QuietStep v w
    finished :
        (before after : List (List Bytes)) (files : List Bytes) (o : Outside)
        → v.runs ≡ before ++ files ∷ after
        → w ≡ finish tools before after files o v
        → QuietStep v w

  -- and what comes from outside
  pub data Step (v w : Watchdog) : Type 0 where
    quiet : QuietStep v w → Step v w
    notified : (e : FileEvent) → v.looping ≡ true → w ≡ watch_event e v → Step v w
    stopped : w ≡ stop v → Step v w
    ended : v.cancelled ≡ true → w ≡ end_loop v → Step v w

  -- the states behind a successful `Start`
  pub data Reached : Watchdog → Type 0 where
    started :
        (r : Repository) (root : Node) {w : Watchdog}
        → start root (new_watchdog r) ≡ some w
        → Reached w
    next : {v w : Watchdog} → Reached v → Step v w → Reached w

-- at most ten files wait and are taken at once, and while files wait, the timer is armed or a
-- callback is due
pub record IsWatching (w : Watchdog) : Type 0 where
  pub waiting : length w.changed_files ≤ max_changed_files
  pub taken : All (λ files. length files ≤ max_changed_files) w.runs
  pub served : (w.changed_files ≡ []) ⊎ ((w.armed ≡ true) ⊎ (0 < w.due))

trigger_reindex-IsWatching :
    (path : Bytes) (w : Watchdog) → IsWatching w → IsWatching (trigger_reindex path w)
unfolding trigger_reindex
trigger_reindex-IsWatching path w h = elim (Bool-cases (ltb (length w.changed_files) 10)) [
  | inl room ↦ rw room (record {
    waiting = omega (arith, length-append w.changed_files (path ∷ []), below room);
    taken = h.taken;
    served = inr (inl refl);
  })
  | inr full ↦ rw full (record { waiting = h.waiting; taken = h.taken; served = inr (inl refl) })
]
  where
    below : ltb (length w.changed_files) 10 ≡ true → length w.changed_files < 10
    below e = ground arith

-- what `watch_event` makes of its tests, over a state with the same files
noticed-IsWatching :
    (name : Bytes) (temporary changes : Bool) (w seen : Watchdog)
    → IsWatching w
    → IsWatching seen
    → IsWatching (if temporary then w else if changes then trigger_reindex name seen else seen)
noticed-IsWatching name true changes w seen h k = h
noticed-IsWatching name false true w seen h k = trigger_reindex-IsWatching name seen k
noticed-IsWatching name false false w seen h k = k

watch_event-IsWatching :
    (e : FileEvent) (w : Watchdog) → IsWatching w → IsWatching (watch_event e w)
unfolding watch_event
watch_event-IsWatching e w h =
    noticed-IsWatching e.name (is_temporary e.name)
      (e.write || (e.create || (e.remove || e.rename))) w _ h
      (record { waiting = h.waiting; taken = h.taken; served = h.served })

All-finish :
    (before after : List (List Bytes)) (files : List Bytes) (runs : List (List Bytes))
    → runs ≡ before ++ files ∷ after
    → All (λ f. length f ≤ max_changed_files) runs
    → All (λ f. length f ≤ max_changed_files) (before ++ after)
All-finish before after files runs e h =
    without before (subst (All (λ f. length f ≤ max_changed_files)) e h)
  where
    without :
        (before : List (List Bytes))
        → All (λ f. length f ≤ max_changed_files) (before ++ files ∷ after)
        → All (λ f. length f ≤ max_changed_files) (before ++ after)
    without [] h = h.1
    without (f ∷ before) h = (h.0, without before h.1)

module _ (tools : Tools) where
  QuietStep-IsWatching : {v w : Watchdog} → QuietStep tools v w → IsWatching v → IsWatching w
  QuietStep-IsWatching (expired armed e) h =
      rw e (record { waiting = h.waiting; taken = h.taken; served = inr (inr (omega arith)) })
  QuietStep-IsWatching {v} (taken due d e) h = rw e (record {
    waiting = omega arith;
    taken =
        All-append (λ f. length f ≤ max_changed_files) v.runs (v.changed_files ∷ []) h.taken
          (h.waiting, tt);
    served = inl refl;
  })
  QuietStep-IsWatching {v} (finished before after files o d e) h = rw e (record {
    waiting = h.waiting;
    taken = All-finish before after files v.runs d h.taken;
    served = h.served;
  })

  Step-IsWatching : {v w : Watchdog} → Step tools v w → IsWatching v → IsWatching w
  Step-IsWatching (quiet s) h = QuietStep-IsWatching s h
  Step-IsWatching {v} (notified event looping e) h = rw e (watch_event-IsWatching event v h)
  Step-IsWatching (stopped e) h =
      rw e (record { waiting = h.waiting; taken = h.taken; served = h.served })
  Step-IsWatching (ended cancelled e) h =
      rw e (record { waiting = h.waiting; taken = h.taken; served = h.served })

  -- In every state behind a successful start, at most ten files wait and each callback has taken at
  -- most ten, and while files wait, the timer is armed or a callback is due.
  pub Reached-IsWatching : {w : Watchdog} → Reached tools w → IsWatching w
  unfolding start
  Reached-IsWatching (started r root e) = started-IsWatching (directories root) e
    where
      started-IsWatching :
          (found : Option (List Bytes)) {w : Watchdog}
          → begin found (new_watchdog r) ≡ some w
          → IsWatching w
      started-IsWatching none e = cc
      started-IsWatching (some paths) e =
          subst IsWatching (some-injective _ _ e)
            (record { waiting = omega arith; taken = tt; served = inl refl })
  Reached-IsWatching (next r s) = Step-IsWatching s (Reached-IsWatching r)
