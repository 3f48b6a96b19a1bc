-- ===== src/Rb/Examples.antt =====
-- Tests of the red-black tree, and the theorems at concrete trees.
use kernel_utils.Base.{arith, ℕ, ◌≡◌, refl, [], ◌∷◌, ◌++◌, some, true, ◌==◌}
use kernel_utils.Binary.{after, before, inorder, left, leaf, node, plug, right, root, up}
use kernel_utils.Binary.Order.{first, last}
use kernel_utils.Rb.Tree.{Color, red, black, RbNode, RbTrail, IsRb, IsRbTree, black_height}
use kernel_utils.Rb.Insert.{rb_insert_color, is_red_node}
use kernel_utils.Rb.Insert.Laws.{rb_insert_color-IsRbTree}
use kernel_utils.Rb.Erase.{rb_erase, fix_sibling}
use kernel_utils.Rb.Erase.Laws.{rb_erase-IsRbTree}
use kernel_utils.Rb.Walk.{rb_next, rb_prev, rb_first_postorder, rb_next_postorder}
use kernel_utils.Rb.Walk.Laws.{
  rb_next_lem, rb_next_postorder_lem, postorder, postorder_before, postorder_after,
}
use kernel_utils.Rb.Cached.{
  RbRootCached, IsCached, rb_insert_color_cached, rb_erase_cached, rb_insert_color_cached-IsCached,
  rb_erase_cached-IsCached,
}

-- 20 in the root, 10 and 30 below it, and 5 below 10.
abbrev five : RbNode ℕ
five = node red leaf 5 leaf

abbrev ten : RbNode ℕ
ten = node black five 10 leaf

abbrev thirty : RbNode ℕ
thirty = node black leaf 30 leaf

abbrev numbers : RbNode ℕ
numbers = node black ten 20 thirty

abbrev below_five : RbTrail ℕ
below_five = up left red 5 leaf (up left black 10 leaf (up left black 20 thirty root))

abbrev at_thirty : RbTrail ℕ
at_thirty = up right black 20 (node black leaf 10 leaf) root

-- A red parent under a black uncle is rotated up.
test_insert :
    rb_insert_color below_five 3
    ≡ some (node black (node black (node red leaf 3 leaf) 5 (node red leaf 10 leaf)) 20 thirty)
unfolding rb_insert_color is_red_node
test_insert = refl

-- The root of three black nodes has its last child red, once the other one is taken out.
test_erase :
    rb_erase at_thirty black leaf 30 leaf ≡ some (node black (node red leaf 10 leaf) 20 leaf)
unfolding rb_erase fix_sibling is_red_node
test_erase = refl

numbers-IsRbTree : IsRbTree numbers
unfolding IsRb black_height
numbers-IsRbTree = ((((tt, tt, refl, tt, tt), tt, refl), (tt, tt, refl), refl), tt)

three-IsRbTree : IsRbTree (node black (node black leaf 10 leaf) 20 thirty)
unfolding IsRb black_height
three-IsRbTree = (((tt, tt, refl), (tt, tt, refl), refl), tt)

rb_insert_color-IsRbTree_example :
    (t : RbNode ℕ) × (rb_insert_color below_five 3 ≡ some t)
    × IsRbTree t
    × (inorder (plug below_five leaf) ≡ before below_five ++ after below_five)
    × (inorder t ≡ before below_five ++ (3 ∷ after below_five))
unfolding plug
rb_insert_color-IsRbTree_example = rb_insert_color-IsRbTree below_five 3 numbers-IsRbTree

rb_erase-IsRbTree_example :
    (t : RbNode ℕ) × (rb_erase at_thirty black leaf 30 leaf ≡ some t)
    × IsRbTree t
    × (inorder (plug at_thirty thirty)
        ≡ (before at_thirty ++ inorder {L = Color} leaf)
          ++ (30 ∷ (inorder {L = Color} leaf ++ after at_thirty)))
    × (inorder t
        ≡ (before at_thirty ++ inorder {L = Color} leaf)
          ++ (inorder {L = Color} leaf ++ after at_thirty))
unfolding plug
rb_erase-IsRbTree_example = rb_erase-IsRbTree at_thirty black leaf 30 leaf three-IsRbTree

rb_next_lem_example :
    (inorder numbers ≡ [] ++ inorder ten ++ (20 ∷ (inorder thirty ++ [])))
    × (rb_next root numbers ≡ first (inorder thirty ++ []))
    × (rb_prev root numbers ≡ last ([] ++ inorder ten))
unfolding plug before after
rb_next_lem_example = rb_next_lem root black ten 20 thirty

rb_next_postorder_lem_example :
    (postorder numbers ≡ [] ++ (postorder ten ++ postorder thirty) ++ (20 ∷ []))
    × (rb_first_postorder numbers ≡ first (postorder numbers))
    × (rb_next_postorder {A = ℕ} root ≡ first [])
unfolding plug postorder_before postorder_after
rb_next_postorder_lem_example = rb_next_postorder_lem root black ten 20 thirty

-- The same numbers with the leftmost node known.
abbrev cached : RbRootCached ℕ
cached = record { rb_root = numbers; rb_leftmost = some 5 }

cached-IsCached : IsCached cached
unfolding inorder
cached-IsCached = (numbers-IsRbTree, refl)

rb_insert_color_cached-IsCached_example :
    (u : RbRootCached ℕ) × (rb_insert_color_cached below_five 3 cached true ≡ some u)
    × IsCached u
    × (inorder u.rb_root ≡ before below_five ++ (3 ∷ after below_five))
unfolding plug before
rb_insert_color_cached-IsCached_example =
    rb_insert_color_cached-IsCached below_five 3 cached true cached-IsCached refl refl

==_reflexive : (z : ℕ) → (z == z) ≡ true
==_reflexive z = ground arith

abbrev at_five : RbTrail ℕ
at_five = up left black 10 leaf (up left black 20 thirty root)

rb_erase_cached-IsCached_example :
    (u : RbRootCached ℕ) × (rb_erase_cached ◌==◌ at_five red leaf 5 leaf cached ≡ some u)
    × IsCached u
    × (inorder u.rb_root
        ≡ (before at_five ++ inorder {L = Color} leaf)
          ++ (inorder {L = Color} leaf ++ after at_five))
unfolding plug before inorder
rb_erase_cached-IsCached_example =
    rb_erase_cached-IsCached ◌==◌ at_five red leaf 5 leaf cached ==_reflexive tt cached-IsCached
      refl
