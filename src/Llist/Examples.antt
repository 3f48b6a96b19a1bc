-- ===== src/Llist/Examples.antt =====
-- The theorems on linked lists at a concrete store.
use kernel_utils.Base.{◌==◌, ◌≡◌, refl, some, [], ◌∷◌, if◌then◌else◌}
use kernel_utils.Llist.{Store, list_del}
use kernel_utils.Llist.Ring.{IsSegment, IsList}
use kernel_utils.Llist.Delete.{list_del-IsList}

-- The head 10 with the nodes 20 and 30.
abbrev two_nodes : Store
two_nodes = record {
  next = λ b. if b == 10 then 20 else if b == 20 then 30 else if b == 30 then 10 else 0;
  prev = λ b. if b == 10 then 30 else if b == 20 then 10 else if b == 30 then 20 else 0;
}

two_nodes-IsList : IsList two_nodes 10 (20 ∷ 30 ∷ [])
unfolding IsSegment
two_nodes-IsList = record {
  ring = (refl, refl, (refl, refl, (refl, refl)));
  distinct = ((refl, (refl, tt)), ((refl, tt), (tt, tt)));
  nonnull = (refl, (refl, (refl, tt)));
}

list_del-IsList_example :
    (after : Store) × (list_del 20 two_nodes ≡ some after)
    × IsList after 10 (30 ∷ [])
    × (after.next 20 ≡ 0)
    × (after.prev 20 ≡ 0)
list_del-IsList_example = list_del-IsList 10 [] 20 (30 ∷ []) two_nodes two_nodes-IsList
