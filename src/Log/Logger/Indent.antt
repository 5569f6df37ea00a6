-- ===== src/Log/Logger/Indent.antt =====
-- The indentation of Logger.h and its guard.
use mart_common.Prelude.{
  ◌%◌, ◌≤◌, ◌<◌, ◌≡◌, ◌↔◌, Bool, true, false, List, [], ◌∷◌, if◌then◌else◌, arith,
}
use mart_common.Log.Logger.{Logger, bump_indent_level, remove_indent_level}

-- `IndentLevelGuard`: whether it has a pointer to its logger.
pub record IndentLevelGuard : Type 0 where
  pub has_log : Bool

unfoldable pub guard : Logger → IndentLevelGuard × Logger
unfolding bump_indent_level
guard l = (record { has_log = true }, bump_indent_level l)

-- The new guard and the one that was moved from.
unfoldable pub move_guard : IndentLevelGuard → IndentLevelGuard × IndentLevelGuard
move_guard other = (record { has_log = other.has_log }, record { has_log = false })

unfoldable pub destroy_guard : IndentLevelGuard → Logger → Logger
unfolding remove_indent_level
destroy_guard g l = if g.has_log then remove_indent_level l else l

-- A scope with a guard that is moved once: both guards are destroyed at its end.
unfoldable pub guarded : (Logger → Logger) → Logger → Logger
unfolding guard move_guard destroy_guard
guarded body l =
    let (g, l') = guard l in
    let (g', old) = move_guard g in destroy_guard old (destroy_guard g' (body l'))

-- `bumpIndentLevel` for true and `removeIndentLevel` for false.
unfoldable pub change : List Bool → Logger → Logger
unfolding bump_indent_level remove_indent_level
change [] l = l
change (true ∷ moves) l = change moves (bump_indent_level l)
change (false ∷ moves) l = change moves (remove_indent_level l)

abbrev Bounded : Logger → Type 0
Bounded l = (l.spacer % 2 ≡ 0) × (l.spacer ≤ 104)

bump-bounds : (l : Logger) → l.spacer % 2 ≡ 0 → l.spacer ≤ 104 → Bounded (bump_indent_level l)
unfolding bump_indent_level
bump-bounds l e h = ground arith

remove-bounds : (l : Logger) → l.spacer % 2 ≡ 0 → l.spacer ≤ 104 → Bounded (remove_indent_level l)
unfolding remove_indent_level
remove-bounds l e h = ground arith

restores_iff :
    (m n : Logger)
    → m.spacer % 2 ≡ 0
    → m.spacer ≤ 104
    → n.spacer ≡ (bump_indent_level m).spacer
    → (((remove_indent_level n).spacer ≡ m.spacer) ↔ (m.spacer < 104))
      × (m.spacer ≡ 104 → (remove_indent_level n).spacer ≡ 102)
unfolding bump_indent_level remove_indent_level
restores_iff m n e h k = (((λ r. ground arith), λ r. ground arith), λ r. ground arith)

change-bounds :
    (moves : List Bool) (l : Logger)
    → l.spacer % 2 ≡ 0
    → l.spacer ≤ 104
    → ((change moves l).spacer % 2 ≡ 0) × ((change moves l).spacer ≤ 104)
unfolding change
change-bounds [] l e h = (e, h)
change-bounds (true ∷ moves) l e h =
    let (e', h') = bump-bounds l e h in change-bounds moves (bump_indent_level l) e' h'
change-bounds (false ∷ moves) l e h =
    let (e', h') = remove-bounds l e h in change-bounds moves (remove_indent_level l) e' h'

-- Whatever the changes since a logger was made, its indentation is even and at most 104, less than
-- the literal that it is a view of; and a scope with a guard, whose body leaves the indentation as
-- it is, restores it exactly if it was below 104: at 104 the guard adds nothing but takes two away.
pub guarded_iff :
    (moves : List Bool) (l : Logger) (body : Logger → Logger)
    → l.spacer ≡ 0
    → ((m : Logger) → (body m).spacer ≡ m.spacer)
    → let m = change moves l in
      (m.spacer % 2 ≡ 0)
      × (m.spacer ≤ 104)
      × (((guarded body m).spacer ≡ m.spacer) ↔ (m.spacer < 104))
      × (m.spacer ≡ 104 → (guarded body m).spacer ≡ 102)
unfolding guarded
guarded_iff moves l body z same =
    let m = change moves l in
    let (e, h) = change-bounds moves l (omega (arith, z)) (omega (arith, z)) in
    let (restores, at_limit) =
      restores_iff m (body (bump_indent_level m)) e h (same (bump_indent_level m)) in
    (e, h, restores, at_limit)
