-- ===== src/Closure.antt =====
-- runtime/closure.c over the store of module Runtime. The memory of a closure is the allocator's: the
-- operations that create one take the address that it gave, and those that destroy one end before
-- they give the address back.
pub mod Children
pub mod Callee
pub mod Lock
pub mod Suspend
mod Tests
use multicilk.Base.{
  ℕ, suc, ◌+◌, Bool, true, false, ◌||◌, ◌&&◌, not, Option, none, some, ◌==◌, is_null, ptr_eq,
}
use multicilk.Runtime.{
  no_worker, Status, status_eq, Closure, Flags, Frame, Worker, State, Outcome, M, pure, ◌>>=◌, ◌>>◌,
  check, wait_while, get_closure, put_closure, get_deque, put_deque, get_worker, put_worker,
  get_frame, put_frame, get_root, branch, null_or,
}
use multicilk.Deque.{deque_assert_ownership, deque_xtract_bottom}

-- A pointer that is NULL where the code follows it.
pub crash : {A : Type 0} → M A
crash s = Outcome.bug

unfoldable pub closure_assert_ownership : ℕ → ℕ → M (Unit {0})
closure_assert_ownership w t = do c ← get_closure t; check (c.mutex_owner == w)

unfoldable pub closure_assert_alienation : ℕ → ℕ → M (Unit {0})
closure_assert_alienation w t = do c ← get_closure t; check (not (c.mutex_owner == w))

abbrev pub is_valid : Status → Bool
is_valid Status.pre_invalid = false
is_valid Status.post_invalid = false
is_valid _ = true

unfoldable pub closure_checkmagic : ℕ → M (Unit {0})
closure_checkmagic t = do c ← get_closure t; check (is_valid c.status)

unfoldable pub closure_change_status : ℕ → Status → Status → M (Unit {0})
closure_change_status t old status = do
  c ← get_closure t
  check (status_eq c.status old)
  put_closure t (record c { status = status })

unfoldable pub closure_set_status : ℕ → Status → M (Unit {0})
closure_set_status t status = do c ← get_closure t; put_closure t (record c { status = status })

unfoldable pub closure_trylock : ℕ → ℕ → M Bool
unfolding closure_checkmagic
closure_trylock w t = do
  closure_checkmagic t
  c ← get_closure t
  branch c.locked (pure false)
      (do put_closure t (record c { locked = true; mutex_owner = w }); pure true)

unfoldable pub closure_lock : ℕ → ℕ → M (Unit {0})
unfolding closure_checkmagic
closure_lock w t = do
  closure_checkmagic t
  c ← get_closure t
  put_closure t (record c { lock_wait = true })
  wait_while c.locked
  put_closure t (record c { locked = true; lock_wait = false; mutex_owner = w })

unfoldable pub closure_unlock : ℕ → ℕ → M (Unit {0})
unfolding closure_checkmagic closure_assert_ownership
closure_unlock w t = do
  closure_checkmagic t
  closure_assert_ownership w t
  c ← get_closure t
  put_closure t (record c { locked = false; mutex_owner = no_worker })

unfoldable pub closure_at_top_of_stack : ℕ → M Bool
unfolding crash
closure_at_top_of_stack w = do
  v ← get_worker w
  branch (v.head == v.tail)
      (null_or v.current_stack_frame crash λ p. do f ← get_frame p; pure f.flags.stolen)
      (pure false)

unfoldable pub closure_has_children : Closure → Bool
closure_has_children c = c.has_cilk_callee || not (c.join_counter == 0)

-- What `Closure_init` writes.
abbrev pub blank_closure : Closure
blank_closure = record {
  locked = false;
  frame = none;
  fiber = none;
  fiber_child = none;
  owner_ready_deque = no_worker;
  mutex_owner = no_worker;
  status = Status.pre_invalid;
  has_cilk_callee = false;
  lock_wait = false;
  simulated_stolen = false;
  join_counter = 0;
  orig_rsp = none;
  callee = none;
  call_parent = none;
  spawn_parent = none;
  left_sib = none;
  right_sib = none;
  right_most_child = none;
  next_ready = none;
  prev_ready = none;
  right_exn = none;
  child_exn = none;
  user_exn = none;
  reraise_cfa = none;
  parent_rsp = none;
  saved_throwing_fiber = none;
  right_rmap = none;
  child_rmap = none;
  user_rmap = none;
}

-- `Closure_init`
unfoldable pub closure_init : ℕ → M (Unit {0})
closure_init t = put_closure t blank_closure

-- `Closure_create` and `Closure_create_main`, with the address that the allocator gave.
unfoldable pub closure_create : Option ℕ → M ℕ
unfolding closure_init crash
closure_create given = null_or given crash λ t. do closure_init t; pure t

pub double_link_children : Option ℕ → ℕ → M (Unit {0})
double_link_children left right = do
  null_or left (pure tt) λ l. do
    c ← get_closure l
    check (is_null c.right_sib)
    put_closure l (record c { right_sib = some right })
  r ← get_closure right
  check (is_null r.left_sib)
  put_closure right (record r { left_sib = left })

unfoldable pub unlink_child : ℕ → M (Unit {0})
unlink_child cl = do
  c ← get_closure cl
  null_or c.left_sib (pure tt) λ l. do
    lc ← get_closure l
    check (ptr_eq lc.right_sib (some cl))
    put_closure l (record lc { right_sib = c.right_sib })
  null_or c.right_sib (pure tt) λ r. do
    rc ← get_closure r
    check (ptr_eq rc.left_sib (some cl))
    put_closure r (record rc { left_sib = c.left_sib })
  c' ← get_closure cl
  put_closure cl (record c' { left_sib = none; right_sib = none })

pub closure_add_child : ℕ → ℕ → ℕ → M (Unit {0})
unfolding closure_assert_ownership closure_assert_alienation double_link_children
closure_add_child w parent child = do
  closure_assert_ownership w parent
  closure_assert_alienation w child
  p ← get_closure parent
  double_link_children p.right_most_child child
  p' ← get_closure parent
  put_closure parent (record p' { right_most_child = some child })

unfoldable pub closure_remove_child : ℕ → ℕ → ℕ → M (Unit {0})
unfolding closure_assert_ownership
closure_remove_child w parent child = do
  c ← get_closure child
  check (ptr_eq (some parent) c.spawn_parent)
  closure_assert_ownership w parent
  closure_assert_ownership w child
  p ← get_closure parent
  branch (ptr_eq (some child) p.right_most_child)
      (do
        check (is_null c.right_sib)
        put_closure parent (record p { right_most_child = c.left_sib }))
      (pure tt)
  check (is_null c.right_rmap)
  unlink_child child
