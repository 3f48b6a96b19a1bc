-- ===== src/Lib.antt =====
-- kernel_utils: a C library of kernel-style utilities for user space, as a model of its data
-- structures and of its counters, with what they promise.
--
-- The parts and the files that model them. Paths in the source are from the repository's root.
--
--   Base        what the parts share: Boolean tests on the native numbers (Base/Tests), lists and
--               `All` (Base/Lists), and results that may be faults (Base/Options).
--   Binary      binary trees by value, whose nodes bear a label, and trails, the way up from a node, which
--               stand for the parent pointers. `plug p t` is the whole tree with `t` at the end of
--               the trail `p`; `before p` and `after p` are the items on either side. Avl and Rb use them.
--   Avl         avl.c, avl.h and avl_impl.h. The label is the balance. Avl/Rotation is avl_rotation,
--               Avl/Insert dlm_avl_insert, Avl/Remove dlm_avl_remove, Avl/Find dlm_avl_find, Avl/Walk the
--               walks, and Avl/Table what takes a whole tree with its count: dlm_avl_add,
--               dlm_avl_insert_here, dlm_avl_update and its variants.
--   Rb          rbtree.c, rbtree_augmented.h and rbtree.h. The label is the colour. Rb/Insert is
--               __rb_insert, Rb/Erase is __rb_erase_augmented and ____rb_erase_color with the
--               callbacks that do nothing, Rb/Walk the walks and rb_replace_node, and Rb/Cached the
--               trees that know their leftmost node.
--   ListSort    list_sort.c: merge, merge_final and util_list_sort. ListSort/Order says what a comparison
--               function is and what a stable sort may do, ListSort/Rounds follows the pending lists.
--   Timer       timer.c and timer.h: a queue of timers, the operations of the callers, and the thread.
--               Timer/Run puts them side by side as a step relation. The timers are hashed to
--               queues by hash_32 of hash.h.
--   Llist       llist.h: list_add, list_add_tail, list_del and what is made of them, on a store of
--               pointers. Llist/Ring says what the list of a head is: a ring of nodes.
--   TimeUtil    time_util.h: times of seconds and nanoseconds, and a counter that wraps around.
--   Completion  completion.c and completion.h: the counter `done` and runs of its operations.
--   Refs        lockref.c and kref.h.
--   Bits        bitstring.h, as sequences of bits. Bits/Words has the words and the masks, and says
--               when words stand for a sequence. Unr uses the sequences.
--   Unr         unr.c and _unrhdr.h: numbers to hand out, in chunks. Unr/Optimize is optimize_unr,
--               Unr/Collapse collapse_unr, Unr/Alloc alloc_unr and alloc_unr_specific, Unr/Free free_unr.
--               Unr/View says what numbers a list of chunks has, Unr/Valid what the header counts;
--               Unr/Absorb to Unr/Ends are about collapse_unr, Unr/Allocates and Unr/Serves about
--               alloc_unr, Unr/Locate to Unr/Faults about free_unr, Unr/Claims to Unr/Refused about
--               alloc_unr_specific, and Unr/Run sets sequences of calls beside a set of numbers.
--   Workqueue   workqueue.c: the works of a pool_workqueue and util_flush_workqueue. Workqueue itself has
--               queueing, activation, finishing and barriers, Workqueue/Flush the workqueue with its
--               flushers. Workqueue/Active to Workqueue/Barrier are about the works of one pwq;
--               Workqueue/Colors to Workqueue/Valid say when a workqueue is in order beside the works
--               in flight of its pwqs, Workqueue/Starts to Workqueue/Finishes that each operation keeps it
--               so, and Workqueue/Run and Workqueue/Promise take all of them together. Workqueue/Accounts and
--               Workqueue/Served say which works are active there, and Workqueue/Ends that a flush can end.
--
-- How state and operations correspond. But for Llist, a tree or a list is a value, and an operation
-- returns the new one; a place in a tree is a trail, so that no pointer can be wrong about its
-- parent. What a node holds is its item, with its address where nodes are compared. A read through a
-- null pointer and a failed assertion are the result `none`. An operation that takes a lock is one
-- step; what several threads do is a sequence of such steps.
--
-- Machine integers keep their width: the count of an AVL tree and the count of the sort's rounds
-- wrap around at 2^64, `done` and the reference counts at 2^32, and a long or an int is kept as its
-- bits, with the order of the signed numbers written out; a sum or a product of signed numbers that
-- overflows is `none` too. Loops follow the structure of a trail, a
-- tree or a list, or are given fuel. The timer thread's loop is given as many turns as timers wait,
-- since each turn takes one out. The loop around optimize_unr is given one turn more than there are
-- chunks: each turn but the last makes them fewer. The loop of the first flusher is given one turn
-- more than there are flushers that wait, of whom each turn takes one, and the one of
-- pwq_adjust_max_active as many as works are delayed. In unr.c a chunk of the list is a place: the
-- chunk, those before it and those after it; `ptr` is the kind of the chunk, since no two chunks
-- share a bitmap. In workqueue.c the numbers -1 and WORK_NO_COLOR are `none` and 15, the int
-- counters count objects in memory and do not overflow, and flush_workqueue_prep_pwqs, which locks
-- one pool after the other, is one step.
--
-- Parameters: the comparison functions of the AVL tree and of the sort, with the laws of an order;
-- and the comparison of two nodes in Rb/Cached.
--
-- Not modelled: dlm_avl_destroy and dlm_avl_destroy_nodes, the augmented red-black callbacks, the
-- creation of threads and their sleep; of workqueue.c the workers and their pools, works with a
-- timer, cancelling, draining, the release of a pwq and the attributes; and the parts of the library
-- besides these: idr.c, thread_pool.c, wait.c, wait_bit.c, task_struct.c, bit_count of bitstring.h
-- on words, the splices, the iteration and the hash lists of llist.h, the hash functions besides
-- hash_32, and the wrappers of the C library and the compiler.
pub mod Base
pub mod Bits
pub mod Unr
pub mod Binary
pub mod Avl
pub mod Rb
pub mod ListSort
pub mod Timer
pub mod TimeUtil
pub mod Completion
pub mod Refs
pub mod Llist
pub mod Workqueue
