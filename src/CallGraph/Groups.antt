-- ===== src/CallGraph/Groups.antt =====
-- internal/retrieval/callgraph.go: the calls in the groups of an answer.
use costwise_mcp.Prelude.{
  ℕ, suc, ◌+◌, ◌≡◌, refl, inl, inr, List, [], ◌∷◌, Option, Bytes, length, length-append, insert_by,
  sort_by, arith, Bool-cases,
}
use costwise_mcp.Index.Database.{CallEdge}
use costwise_mcp.CallGraph.{
  CallerGroup, of_group, group_before, info_of, add_edge, group_edges, gather_caller_sections,
}

-- the calls of all groups
abbrev pub total_calls : List CallerGroup → ℕ
total_calls [] = 0
total_calls (g ∷ gs) = length g.calls + total_calls gs

total_calls-insert_by :
    (g : CallerGroup) (gs : List CallerGroup)
    → total_calls (insert_by group_before g gs) ≡ length g.calls + total_calls gs
unfolding insert_by
total_calls-insert_by g [] = refl
total_calls-insert_by g (h ∷ gs) = elim (Bool-cases (group_before h g)) [
  | inl first ↦ rw first (omega (arith, total_calls-insert_by g gs))
  | inr later ↦ rw later refl
]

total_calls-sort_by :
    (gs : List CallerGroup) → total_calls (sort_by group_before gs) ≡ total_calls gs
unfolding sort_by
total_calls-sort_by [] = refl
total_calls-sort_by (g ∷ gs) =
    omega (arith, total_calls-insert_by g (sort_by group_before gs), total_calls-sort_by gs)

module _ (read_file : Bytes → Option Bytes) where
  total_calls-add_edge :
      (e : CallEdge) (gs : List CallerGroup)
      → total_calls (add_edge read_file e gs) ≡ suc (total_calls gs)
  unfolding add_edge
  total_calls-add_edge e [] = omega arith
  total_calls-add_edge e (g ∷ gs) = elim (Bool-cases (of_group e g)) [
    | inl here ↦ rw here (omega (arith, length-append g.calls (info_of read_file e ∷ [])))
    | inr later ↦ rw later (omega (arith, total_calls-add_edge e gs))
  ]

  total_calls-group_edges :
      (es : List CallEdge) (gs : List CallerGroup)
      → total_calls (group_edges read_file es gs) ≡ length es + total_calls gs
  unfolding group_edges
  total_calls-group_edges [] gs = omega arith
  total_calls-group_edges (e ∷ es) gs =
      omega (arith, total_calls-group_edges es (add_edge read_file e gs), total_calls-add_edge e gs)

  -- The groups of an answer hold as many calls as the tables gave.
  pub total_calls-gather_caller_sections :
      (es : List CallEdge) → total_calls (gather_caller_sections read_file es) ≡ length es
  unfolding gather_caller_sections
  total_calls-gather_caller_sections es =
      omega
        (arith, total_calls-sort_by (group_edges read_file es []), total_calls-group_edges es [])
