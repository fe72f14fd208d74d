-- ===== src/Ledger/Scopes.antt =====
-- internal/ledger/ledger.go: `filterByScope` and what it calls. The events come oldest first, and
-- the result is newest first.
use mathlib.Core.List.{reverse}
use costwise_mcp.Prelude.{
  ℕ, zero, suc, ◌+◌, ◌-◌, ◌%◌, Bool, not, ◌&&◌, List, [], ◌∷◌, ◌++◌, none, some, Bytes, codes,
  bytes_eq, ltb, if◌then◌else◌, length, take, drop, keep_if, get_elem?, get_last?, ℤ, pos, negsuc,
}
use costwise_mcp.Ledger.Events.{Event}

-- 30 * time.Minute
abbrev pub idle_threshold : ℕ
idle_threshold = 1_800_000_000_000

-- a day, in nanoseconds
abbrev day : ℕ
day = 86_400_000_000_000

pub data Scope : Type 0 where
  last today all : Scope

-- a scope that is none of the constants is treated as "last"
abbrev pub scope_of : Bytes → Scope
scope_of s =
    if bytes_eq s (codes "all") then all else if bytes_eq s (codes "today") then today else last

-- the loop of `latestSession`, from the index below `i` down: the cut behind the first event that
-- lies more than the threshold before `latest`
unfoldable pub cut_from : ℕ → ℕ → List Event → ℕ
cut_from zero latest events = 0
cut_from (suc i) latest events =
    let rest = cut_from i latest events in
    elim (get_elem? events i) [
      | none ↦ 0
      | some e ↦ if ltb idle_threshold (latest - e.ts) then suc i else rest
    ]

unfoldable pub latest_session : List Event → List Event
unfolding cut_from
latest_session events = elim (get_last? events) [
  | none ↦ []
  | some e ↦ reverse (drop (cut_from (length events - 1) e.ts events) events)
]

abbrev pub is_start : Event → Bool
is_start e = bytes_eq e.kind (codes "session") && bytes_eq e.action (codes "start")

-- the indices of the session markers; `i` is the index of the list's head
unfoldable pub boundaries_from : ℕ → List Event → List ℕ
boundaries_from i [] = []
boundaries_from i (e ∷ events) =
    let rest = boundaries_from (suc i) events in if is_start e then i ∷ rest else rest

-- the intervals behind each marker, without the marker
unfoldable pub intervals : ℕ → List ℕ → List (ℕ × ℕ)
intervals n [] = []
intervals n (b ∷ []) = if ltb (b + 1) n then (b + 1, n) ∷ [] else []
intervals n (b ∷ next ∷ bs) =
    let rest = intervals n (next ∷ bs) in if ltb (b + 1) next then (b + 1, next) ∷ rest else rest

unfoldable pub sessions_of : List Event → List (ℕ × ℕ)
unfolding boundaries_from intervals
sessions_of events = elim (boundaries_from 0 events) [
  | [] ↦ (0, length events) ∷ []
  | b ∷ bs ↦
      let rest = intervals (length events) (b ∷ bs) in if ltb 0 b then (0, b) ∷ rest else rest
]

abbrev pub not_watch : Event → Bool
not_watch e = not (bytes_eq e.kind (codes "watch"))

-- `events[s[0]:s[1]]`, newest first, without the watch events
abbrev pub flatten_session : List Event → ℕ × ℕ → List Event
flatten_session events (start, end) =
    keep_if not_watch (reverse (take (end - start) (drop start events)))

unfoldable pub flatten_sessions : List Event → List (ℕ × ℕ) → List Event
flatten_sessions events [] = []
flatten_sessions events (s ∷ ss) = flatten_sessions events ss ++ flatten_session events s

abbrev pub last_sessions : ℕ → List (ℕ × ℕ) → List (ℕ × ℕ)
last_sessions n ss = if ltb n (length ss) then drop (length ss - n) ss else ss

unfoldable pub last_n_sessions : List Event → ℕ → List Event
unfolding sessions_of flatten_sessions
last_n_sessions [] n = []
last_n_sessions (e ∷ events) zero = []
last_n_sessions (e ∷ events) (suc n) =
    let capped = if ltb 5 (suc n) then 5 else suc n in
    flatten_sessions (e ∷ events) (last_sessions capped (sessions_of (e ∷ events)))

-- midnight of the day of `now`, in UTC
abbrev pub midnight : ℕ → ℕ
midnight now = now - now % day

abbrev by_scope : Scope → ℕ → List Event → List Event
by_scope all now events = reverse events
by_scope today now events = reverse (keep_if (λ e. not (ltb e.ts (midnight now))) events)
by_scope last now events = latest_session events

unfoldable pub filter_by_scope : ℕ → List Event → Bytes → ℤ → List Event
unfolding latest_session last_n_sessions
filter_by_scope now events scope (pos (suc n)) = last_n_sessions events (suc n)
filter_by_scope now events scope (pos zero) = by_scope (scope_of scope) now events
filter_by_scope now events scope (negsuc n) = by_scope (scope_of scope) now events
