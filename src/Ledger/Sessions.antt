-- ===== src/Ledger/Sessions.antt =====
-- internal/ledger/ledger.go: which events `latestSession` and `lastNSessions` choose.
use mathlib.Core.List.{reverse, append_assoc}
use Prim.Native.Nat.{min}
use costwise_mcp.Prelude.{
  ℕ, zero, suc, ◌+◌, ◌-◌, ◌≤◌, ◌<◌, ◌≡◌, refl, ap, sym, ◌∙◌, ◌⊎◌, inl, inr, List, [], ◌∷◌, ◌++◌,
  map, some, ltb, if◌then◌else◌, length, take, drop, keep_if, get_elem?, get_last?, arith,
  Bool-cases, drop-append_le, drop_of_length-le, take-append_exact, length-append, length-drop,
  get_elem?-length, get_elem?-some, get_last?-get_elem?, All, All-drop, drop-map, length-map,
}
use costwise_mcp.Ledger.Events.{Event}
use costwise_mcp.Ledger.Scopes.{
  idle_threshold, cut_from, latest_session, is_start, boundaries_from, intervals, sessions_of,
  not_watch, flatten_session, flatten_sessions, last_sessions, last_n_sessions,
}

-- the time of the event is within the threshold of `latest`
abbrev pub IsRecent : ℕ → Event → Type 0
IsRecent latest e = latest - e.ts ≤ idle_threshold

cut_from_lem :
    (i latest : ℕ) (events : List Event)
    → i ≤ length events
    → (cut_from i latest events ≤ i)
      × ((j : ℕ) (e : Event)
          → cut_from i latest events ≤ j
          → j < i
          → get_elem? events j ≡ some e
          → IsRecent latest e)
      × ((cut_from i latest events ≡ 0)
          ⊎ ((e : Event) × (get_elem? events (cut_from i latest events - 1) ≡ some e)
              × (idle_threshold < latest - e.ts)))
unfolding cut_from
cut_from_lem zero latest events h = (omega arith, λ j e a b g. absurd (omega arith), inl refl)
cut_from_lem (suc i) latest events h =
    let (e, at) = get_elem?-some i events (omega arith) in
    let (bound, inside, edge) = cut_from_lem i latest events (omega arith) in
    elim (Bool-cases (ltb idle_threshold (latest - e.ts))) [
      | inl old ↦
          let i' : suc i - 1 ≡ i = omega arith in
          rw (at, old, cut_from)
            (
              omega arith,
              λ j f a b g. absurd (omega arith),
              inr (e, ap (get_elem? events) i' ∙ at, ground arith),
            )
      | inr new ↦
          rw (at, new, cut_from)
            (
              omega arith,
              λ j f a b g. elim (Bool-cases (ltb j i)) [
                | inl less ↦ inside j f a (ground arith) g
                | inr same ↦
                    let k : j ≡ i = ground arith in
                    let t : some f ≡ some e = sym g ∙ (ap (get_elem? events) k ∙ at) in ground arith
              ],
              edge,
            )
    ]

-- `latestSession` takes the events from some index on, newest first. None of them is more than
-- the threshold older than the newest event, and the event before them, if there is one, is.
pub latest_session-suffix :
    (events : List Event) (newest : Event)
    → get_last? events ≡ some newest
    → (n : ℕ) × (latest_session events ≡ reverse (drop n events))
      × All (IsRecent newest.ts) (drop n events)
      × ((n ≡ 0)
          ⊎ ((e : Event) × (get_elem? events (n - 1) ≡ some e)
              × (idle_threshold < newest.ts - e.ts)))
unfolding latest_session
latest_session-suffix events newest last =
    let i = length events - 1 in
    let (bound, inside, edge) = cut_from_lem i newest.ts events (omega arith) in
    (
      cut_from i newest.ts events,
      rw (last, latest_session),
      All-drop (IsRecent newest.ts) (cut_from i newest.ts events) events (λ j e a g.
          elim (Bool-cases (ltb j i)) [
            | inl less ↦ inside j e a (ground arith) g
            | inr more ↦
                let k : j ≡ i = ground (arith, get_elem?-length j events {x = e} g) in
                let t : some e ≡ some newest =
                  sym g ∙ (ap (get_elem? events) k ∙ (sym (get_last?-get_elem? events) ∙ last)) in
                ground arith
          ]),
      edge,
    )

-- The sessions as groups of events: a marker ends a group, and empty groups do not count.
abbrev if_any : List Event → List (List Event) → List (List Event)
if_any [] gs = gs
if_any (e ∷ g) gs = (e ∷ g) ∷ gs

pub groups_from : List Event → List Event → List (List Event)
groups_from [] cur = if_any cur []
groups_from (e ∷ events) cur =
    let cut = groups_from events [] in
    let on = groups_from events (cur ++ e ∷ []) in if is_start e then if_any cur cut else on

pub newest_first : List (List Event) → List Event
newest_first [] = []
newest_first (g ∷ gs) = newest_first gs ++ keep_if not_watch (reverse g)

abbrev pub last_groups : ℕ → List (List Event) → List (List Event)
last_groups n gs = drop (length gs - n) gs

abbrev slice : List Event → ℕ × ℕ → List Event
slice events (start, end) = take (end - start) (drop start events)

-- the intervals between the boundaries, the first from `start`
abbrev between : ℕ → ℕ → List ℕ → List (ℕ × ℕ)
between start n [] = if ltb start n then (start, n) ∷ [] else []
between start n (b ∷ bs) =
    let rest = between (b + 1) n bs in if ltb start b then (start, b) ∷ rest else rest

intervals-between : (n b : ℕ) (bs : List ℕ) → intervals n (b ∷ bs) ≡ between (b + 1) n bs
unfolding intervals
intervals-between n b [] = refl
intervals-between n b (c ∷ bs) = ground (arith, intervals-between n c bs)

if_any_cons : (g : List Event) (gs : List (List Event)) → 0 < length g → if_any g gs ≡ g ∷ gs
if_any_cons [] gs h = absurd (omega arith)
if_any_cons (x ∷ g) gs h = refl

slice_cur :
    (w pre es : List Event) (start i : ℕ)
    → start ≤ i
    → i ≡ length pre
    → w ≡ pre ++ es
    → slice w (start, i) ≡ drop start pre
slice_cur w pre es start i h k e =
    rw (e, drop-append_le start pre es (omega arith))
      (take-append_exact (i - start) (drop start pre) es (omega (arith, length-drop start pre)))

-- an interval that is not empty is the group read so far
emit :
    (w pre es : List Event) (start i : ℕ) (rest : List (ℕ × ℕ))
    → start ≤ i
    → i ≡ length pre
    → w ≡ pre ++ es
    → map (slice w) (if ltb start i then (start, i) ∷ rest else rest)
      ≡ if_any (drop start pre) (map (slice w) rest)
emit w pre es start i rest h k e = elim (Bool-cases (ltb start i)) [
  | inl some_events ↦ rw some_events (
      ap (λ (g : List Event). g ∷ map (slice w) rest) (slice_cur w pre es start i h k e)
      ∙ sym (if_any_cons (drop start pre) _ (ground (arith, length-drop start pre))))
  | inr no_event ↦ rw no_event (
      sym (
        ap (λ (g : List Event). if_any g (map (slice w) rest))
          (drop_of_length-le start pre (ground arith))))
]

between-groups :
    (es pre w : List Event) (start i n : ℕ)
    → start ≤ i
    → i ≡ length pre
    → w ≡ pre ++ es
    → n ≡ length w
    → map (slice w) (between start n (boundaries_from i es)) ≡ groups_from es (drop start pre)
unfolding boundaries_from groups_from
between-groups [] pre w start i n h k e m =
    emit w pre [] start n [] (omega (arith, ap length e, length-append pre []))
      (omega (arith, ap length e, length-append pre [])) e
between-groups (x ∷ es) pre w start i n h k e m =
    let pre' = pre ++ x ∷ [] in
    let k' : suc i ≡ length pre' = omega (arith, length-append pre (x ∷ [])) in
    let e' : w ≡ pre' ++ es = e ∙ sym (append_assoc pre (x ∷ []) es) in
    elim (Bool-cases (is_start x)) [
      | inl start_event ↦
          let i' : i + 1 ≡ suc i = omega arith in
          rw (start_event) (
            emit w pre (x ∷ es) start i (between (i + 1) n (boundaries_from (suc i) es)) h k e
            ∙ ap (if_any (drop start pre)) (
                ap (λ (t : ℕ). map (slice w) (between t n (boundaries_from (suc i) es))) i'
                ∙ (between-groups es pre' w (suc i) (suc i) n (omega arith) k' e' m
                    ∙ ap (groups_from es) (drop_of_length-le (suc i) pre' (omega arith)))))
      | inr plain ↦ rw plain (
          between-groups es pre' w start (suc i) n (omega arith) k' e' m
          ∙ ap (groups_from es) (drop-append_le start pre (x ∷ []) (omega arith)))
    ]

sessions-groups :
    (e : Event) (events : List Event)
    → map (slice (e ∷ events)) (sessions_of (e ∷ events)) ≡ groups_from (e ∷ events) []
unfolding sessions_of
sessions-groups e events =
    cases (boundaries_from 0 (e ∷ events))
    ∙ between-groups (e ∷ events) [] (e ∷ events) 0 0 (suc (length events)) (omega arith) refl refl
        refl
  where
    cases :
        (bs : List ℕ)
        → map (slice (e ∷ events)) (elim bs [
          | [] ↦ (0, suc (length events)) ∷ []
          | b ∷ rest ↦
              if ltb 0 b
              then (0, b) ∷ intervals (suc (length events)) (b ∷ rest)
              else intervals (suc (length events)) (b ∷ rest)
        ])
          ≡ map (slice (e ∷ events)) (between 0 (suc (length events)) bs)
    cases [] = ground arith
    cases (b ∷ rest) = ground (arith, intervals-between (suc (length events)) b rest)

flatten-newest_first :
    (events : List Event) (ss : List (ℕ × ℕ))
    → flatten_sessions events ss ≡ newest_first (map (slice events) ss)
unfolding flatten_sessions newest_first
flatten-newest_first events [] = refl
flatten-newest_first events ((start, end) ∷ ss) =
    ap (λ (x : List Event). x ++ flatten_session events (start, end))
      (flatten-newest_first events ss)

last_sessions-drop : (n : ℕ) (ss : List (ℕ × ℕ)) → last_sessions n ss ≡ drop (length ss - n) ss
last_sessions-drop n ss = elim (Bool-cases (ltb n (length ss))) [
  | inl more ↦ rw more
  | inr few ↦
      let none_left : length ss - n ≡ 0 = ground arith in
      rw few (sym (ap (λ (k : ℕ). drop k ss) none_left))
]

last-groups :
    (n : ℕ) (events : List Event) (ss : List (ℕ × ℕ))
    → map (slice events) (last_sessions n ss) ≡ last_groups n (map (slice events) ss)
last-groups n events ss =
    ap (map (slice events)) (last_sessions-drop n ss)
    ∙ (sym (drop-map (slice events) (length ss - n) ss)
        ∙ ap (λ (k : ℕ). drop (k - n) (map (slice events) ss)) (sym (length-map (slice events) ss)))

-- Of a ledger with events, `lastNSessions` returns the last `n` groups of events between session
-- markers, five at most, the newest event first and without the watch events.
pub last_n_sessions-groups :
    (e : Event) (events : List Event) (n : ℕ)
    → 0 < n
    → last_n_sessions (e ∷ events) n
      ≡ newest_first (last_groups (min 5 n) (groups_from (e ∷ events) []))
unfolding last_n_sessions
last_n_sessions-groups e events zero h = absurd (omega arith)
last_n_sessions-groups e events (suc n) h =
    let capped = if ltb 5 (suc n) then 5 else suc n in
    let c : capped ≡ min 5 (suc n) = ground arith in
    flatten-newest_first (e ∷ events) (last_sessions capped (sessions_of (e ∷ events)))
    ∙ ap newest_first (
        last-groups capped (e ∷ events) (sessions_of (e ∷ events))
        ∙ (ap (last_groups capped) (sessions-groups e events)
            ∙ ap (λ (k : ℕ). last_groups k (groups_from (e ∷ events) [])) c))
