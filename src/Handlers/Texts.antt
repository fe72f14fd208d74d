-- ===== src/Handlers/Texts.antt =====
-- internal/mcpserver/tools.go: what the handlers do with texts, paths and budgets.
use costwise_mcp.Prelude.{
  ◌==◌, ℕ, suc, ◌+◌, ◌-◌, ◌*◌, Bool, not, ◌&&◌, List, [], ◌∷◌, ◌++◌, Option, none, some, Bytes,
  codes, bytes_eq, decimal, ltb, if◌then◌else◌, length, take, drop, split, join, has_prefix,
}
use costwise_mcp.Sandbox.{Names, rel_names, rel_text}

-- `getStringArg`: the arguments of a call that are texts
abbrev pub get_string_arg : List (Bytes × Bytes) → Bytes → Bytes
get_string_arg [] key = []
get_string_arg ((k, v) ∷ args) key =
    let rest = get_string_arg args key in if bytes_eq k key then v else rest

-- `parseBudget`
unfoldable pub parse_budget : List (Bytes × Bytes) → ℕ → ℕ
parse_budget args fallback =
    let b = get_string_arg args (codes "budget") in
    if bytes_eq b (codes "small")
    then 500
    else if bytes_eq b (codes "medium")
    then 1500
    else if bytes_eq b (codes "large")
    then 3000
    else fallback

abbrev truncated_note : Bytes
truncated_note = b'\n' ∷ 226 ∷ 128 ∷ 166 ∷ codes " (truncated; raise budget to see the rest)"

-- a byte that does not begin a rune of UTF-8
abbrev is_continuation : ℕ → Bool
is_continuation c = not (ltb c 128) && ltb c 192

-- `len([]rune(s))` of a text in UTF-8
abbrev pub rune_count : Bytes → ℕ
rune_count [] = 0
rune_count (c ∷ s) = let rest = rune_count s in if is_continuation c then rest else suc rest

-- `string([]rune(s)[:n])` of a text in UTF-8, all of it if it is shorter
abbrev pub take_runes : ℕ → Bytes → Bytes
take_runes n [] = []
take_runes n (c ∷ s) =
    let same = take_runes n s in
    let next = take_runes (n - 1) s in
    if is_continuation c then c ∷ same else if n == 0 then [] else c ∷ next

-- `readLineRange` on the bytes of a file, if it can be read
unfoldable pub read_line_range : Option Bytes → ℕ → ℕ → ℕ → Option Bytes
read_line_range none from to max_chars = none
read_line_range (some text) from to max_chars =
    let lines = split text b'\n' in
    let first = if ltb from 1 then 1 else from in
    let last = if ltb (length lines) to then length lines else to in
    let body = join (take (last - (first - 1)) (drop (first - 1) lines)) (codes "\n") in
    if ltb last first
    then some []
    else if ltb 0 max_chars && ltb max_chars (length body)
    then some (take max_chars body ++ truncated_note)
    else some body

-- `isPathWithinRoot`, on clean absolute paths
unfoldable pub is_path_within_root : Names → Names → Bool
is_path_within_root root path = not (has_prefix (rel_text (rel_names root path)) (codes ".."))

abbrev trim_prefix : Bytes → Bytes → Bytes
trim_prefix s p = if has_prefix s p then drop (length p) s else s

-- `relToRepo`
abbrev pub rel_to_repo : Bytes → Bytes → Bytes
rel_to_repo root abs = trim_prefix (trim_prefix abs root) (codes "/")

abbrev more_lines : ℕ → Bytes
more_lines n =
    codes "... +" ++ (decimal n ++ (codes " more (raise budget to see them)" ++ b'\n' ∷ []))

-- the loop of `trimToBudget`
abbrev pub add_trimmed : ℕ → List Bytes → Bytes → Bytes
add_trimmed max_chars [] text = text
add_trimmed max_chars (line ∷ lines) text =
    let rest = add_trimmed max_chars lines (text ++ (line ++ b'\n' ∷ [])) in
    if ltb max_chars (length text + length line + 1) && ltb 0 (length text)
    then text ++ more_lines (suc (length lines))
    else rest

-- `trimToBudget`
unfoldable pub trim_to_budget : List Bytes → ℕ → Bytes
trim_to_budget lines budget = add_trimmed (budget * 4) lines []
