-- ===== src/Llist.antt =====
-- The doubly linked lists of llist.h, on a store of pointers. A node is its address, and 0 is NULL; an
-- access through NULL is a fault.
pub mod Ring
pub mod Laws
pub mod Delete
pub mod Tail
mod Examples
use kernel_utils.Base.{
  ℕ, ◌==◌, Bool, true, false, Option, none, some, ◌>>=◌, List, [], ◌∷◌, if◌then◌else◌,
}

-- `next` and `prev` of every `struct list_head`.
pub record Store : Type 0 where
  pub next : ℕ → ℕ
  pub prev : ℕ → ℕ

unfoldable pub set : (ℕ → ℕ) → ℕ → ℕ → ℕ → ℕ
set f a v b = if b == a then v else f b

abbrev pub set_next : ℕ → ℕ → Store → Option Store
set_next a v st = if a == 0 then none else some (record { next = set st.next a v; prev = st.prev })

abbrev pub set_prev : ℕ → ℕ → Store → Option Store
set_prev a v st = if a == 0 then none else some (record { next = st.next; prev = set st.prev a v })

unfoldable pub init_list_head : ℕ → Store → Option Store
unfolding set
init_list_head ptr st = set_prev ptr ptr st >>= λ s. set_next ptr ptr s

unfoldable pub list_add : ℕ → ℕ → Store → Option Store
unfolding set
list_add newp head st = set_next newp (st.next head) st >>= λ s1.
    set_prev newp head s1 >>= λ s2. set_prev (s2.next head) newp s2 >>= λ s3. set_next head newp s3

unfoldable pub list_add_tail : ℕ → ℕ → Store → Option Store
unfolding set
list_add_tail newp head st = set_prev newp (st.prev head) st >>= λ s1.
    set_next newp head s1 >>= λ s2. set_next (s2.prev head) newp s2 >>= λ s3. set_prev head newp s3

-- The two writes that `list_del` and `list_del_init` begin with.
unfoldable pub unlink : ℕ → Store → Option Store
unfolding set
unlink elem st =
    set_prev (st.next elem) (st.prev elem) st >>= λ s1. set_next (s1.prev elem) (s1.next elem) s1

unfoldable pub list_del : ℕ → Store → Option Store
unfolding unlink set
list_del elem st = unlink elem st >>= λ s1. set_next elem 0 s1 >>= λ s2. set_prev elem 0 s2

unfoldable pub list_del_init : ℕ → Store → Option Store
unfolding unlink init_list_head
list_del_init elem st = unlink elem st >>= λ s1. init_list_head elem s1

unfoldable pub list_move : ℕ → ℕ → Store → Option Store
unfolding list_del_init list_add
list_move list head st = list_del_init list st >>= λ s. list_add list head s

unfoldable pub list_move_tail : ℕ → ℕ → Store → Option Store
unfolding list_del_init list_add_tail
list_move_tail list head st = list_del_init list st >>= λ s. list_add_tail list head s

unfoldable pub list_empty : ℕ → Store → Bool
list_empty head st = st.next head == head
