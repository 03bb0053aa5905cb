-- ===== src/Closure/Callee.antt =====
-- The callees of a closure, its suspension and its end: the rest of runtime/closure.c.
use multicilk.Base.{ℕ, Bool, true, false, ◌||◌, not, Option, none, some, is_null, ptr_eq}
use multicilk.Runtime.{
  Status, status_eq, Closure, M, ◌>>=◌, ◌>>◌, check, get_closure, put_closure, get_frame, put_frame,
  get_root, null_or,
}
use multicilk.Deque.{deque_assert_ownership, deque_xtract_bottom}
use multicilk.Closure.{crash, closure_assert_ownership, closure_checkmagic, closure_change_status}

pub closure_add_temp_callee : ℕ → ℕ → M (Unit {0})
closure_add_temp_callee caller callee = do
  c ← get_closure caller
  e ← get_closure callee
  check (not c.has_cilk_callee)
  check (is_null e.spawn_parent)
  put_closure callee (record e { call_parent = some caller })
  c' ← get_closure caller
  put_closure caller (record c' { has_cilk_callee = true })

pub closure_add_callee : ℕ → ℕ → M (Unit {0})
unfolding crash
closure_add_callee caller callee = do
  c ← get_closure caller
  e ← get_closure callee
  null_or e.frame crash λ f. do
    v ← get_frame f
    check (ptr_eq v.call_parent c.frame)
    check (is_null c.callee)
    check (is_null e.spawn_parent)
    check (not v.flags.detached)
  put_closure callee (record e { call_parent = some caller })
  c' ← get_closure caller
  put_closure caller (record c' { callee = some callee; has_cilk_callee = true })

pub closure_remove_callee : ℕ → M (Unit {0})
closure_remove_callee caller = do
  c ← get_closure caller
  check (status_eq c.status Status.suspended)
  check c.has_cilk_callee
  put_closure caller (record c { has_cilk_callee = false; callee = none })

-- The assertion that `cl` is the root closure or has a parent.
abbrev pub in_tree : ℕ → Closure → Option ℕ → Bool
in_tree cl c root =
    ptr_eq (some cl) root || not (is_null c.spawn_parent) || not (is_null c.call_parent)

unfoldable pub closure_suspend_victim : ℕ → ℕ → ℕ → M (Unit {0})
closure_suspend_victim thief victim cl = do
  c ← get_closure cl
  check (is_null c.user_rmap)
  closure_checkmagic cl
  closure_assert_ownership thief cl
  deque_assert_ownership thief victim
  root ← get_root
  check (in_tree cl c root)
  closure_change_status cl Status.running Status.suspended
  cl1 ← deque_xtract_bottom thief victim
  check (ptr_eq (some cl) cl1)

unfoldable pub closure_suspend : ℕ → ℕ → M (Unit {0})
unfolding closure_checkmagic closure_assert_ownership closure_change_status crash
closure_suspend w cl = do
  c ← get_closure cl
  check (is_null c.user_rmap)
  closure_checkmagic cl
  closure_assert_ownership w cl
  deque_assert_ownership w w
  root ← get_root
  check (in_tree cl c root)
  null_or c.frame crash λ f. do
    v ← get_frame f
    check v.flags.stolen
    check (ptr_eq v.worker (some w))
    closure_change_status cl Status.running Status.suspended
    put_frame f (record v { worker = none })
  cl1 ← deque_xtract_bottom w w
  check (ptr_eq (some cl) cl1)

unfoldable pub closure_make_ready : ℕ → M (Unit {0})
closure_make_ready cl = do c ← get_closure cl; put_closure cl (record c { status = Status.ready })

unfoldable pub closure_clean : ℕ → M (Unit {0})
closure_clean t = do
  c ← get_closure t
  check (not c.lock_wait)
  check (is_null c.left_sib)
  check (is_null c.right_sib)
  check (is_null c.right_most_child)
  check (is_null c.user_rmap)
  check (is_null c.child_rmap)
  check (is_null c.right_rmap)

-- `Closure_destroy_main` and `Closure_destroy_global`.
pub closure_destroy_global : ℕ → M (Unit {0})
unfolding closure_clean
closure_destroy_global t = do
  c ← get_closure t
  put_closure t (record c { status = Status.post_invalid })
  closure_clean t

unfoldable pub closure_destroy : ℕ → M (Unit {0})
unfolding closure_checkmagic closure_clean
closure_destroy t = do
  closure_checkmagic t
  c ← get_closure t
  put_closure t (record c { status = Status.post_invalid })
  closure_clean t
