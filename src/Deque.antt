-- ===== src/Deque.antt =====
-- runtime/readydeque.c: the ready deques, doubly linked through the closures. A worker is named by
-- its index `self`, which is also the index of its deque.
pub mod Links
pub mod Frame
pub mod Top
pub mod Bottom
pub mod Push
mod Tests
use multicilk.Base.{
  ℕ, Bool, true, false, ◌||◌, ◌&&◌, not, Option, none, some, ◌==◌, is_null, ptr_eq,
}
use multicilk.Runtime.{
  no_worker, M, pure, ◌>>=◌, ◌>>◌, check, wait_while, get_closure, put_closure, get_deque,
  put_deque, get_worker, put_worker, get_root, branch, null_or,
}

unfoldable pub deque_assert_ownership : ℕ → ℕ → M (Unit {0})
deque_assert_ownership w pn = do d ← get_deque pn; check (d.mutex_owner == w)

unfoldable pub deque_lock : ℕ → ℕ → M (Unit {0})
deque_lock w pn = do
  v ← get_worker w
  put_worker w (record v { lock_wait = true })
  d ← get_deque pn
  wait_while d.locked
  v' ← get_worker w
  put_worker w (record v' { lock_wait = false })
  put_deque pn (record d { locked = true; mutex_owner = w })

unfoldable pub deque_unlock : ℕ → ℕ → M (Unit {0})
deque_unlock w pn = do
  d ← get_deque pn
  put_deque pn (record d { locked = false; mutex_owner = no_worker })

unfoldable pub deque_lock_self : ℕ → M (Unit {0})
unfolding deque_lock
deque_lock_self w = deque_lock w w

unfoldable pub deque_unlock_self : ℕ → M (Unit {0})
unfolding deque_unlock
deque_unlock_self w = deque_unlock w w

unfoldable pub deque_trylock : ℕ → ℕ → M Bool
deque_trylock w pn = do
  d ← get_deque pn
  branch d.locked (pure false)
      (do put_deque pn (record d { locked = true; mutex_owner = w }); pure true)

-- The end of `deque_xtract_top`: what follows `cl` becomes the top.
pub unlink_top : ℕ → ℕ → M (Unit {0})
unlink_top pn cl = do
  c ← get_closure cl
  d ← get_deque pn
  put_deque pn (record d { top = c.next_ready })
  branch (ptr_eq (some cl) d.bottom)
      (do
        check (is_null c.next_ready)
        put_deque pn (record d { top = c.next_ready; bottom = none }))
      (null_or c.next_ready (check false)
        λ n. do nc ← get_closure n; put_closure n (record nc { prev_ready = none }))
  c' ← get_closure cl
  put_closure cl (record c' { owner_ready_deque = no_worker })

pub deque_xtract_top : ℕ → ℕ → M (Option ℕ)
unfolding deque_assert_ownership
deque_xtract_top w pn = do
  deque_assert_ownership w pn
  d ← get_deque pn
  null_or d.top (do check (is_null d.bottom); pure none)
      λ cl. do
        c ← get_closure cl
        check (c.owner_ready_deque == pn)
        unlink_top pn cl
        pure (some cl)

unfoldable pub deque_peek_top : ℕ → ℕ → M (Option ℕ)
unfolding deque_assert_ownership
deque_peek_top w pn = do
  deque_assert_ownership w pn
  d ← get_deque pn
  root ← get_root
  null_or d.top (do check (is_null d.bottom); pure none)
      λ cl. do
        c ← get_closure cl
        check ((c.owner_ready_deque == pn) || (not (w == pn) && ptr_eq (some cl) root))
        pure (some cl)

-- The end of `deque_xtract_bottom`: what precedes `cl` becomes the bottom.
unfoldable pub unlink_bottom : ℕ → ℕ → M (Unit {0})
unlink_bottom pn cl = do
  c ← get_closure cl
  d ← get_deque pn
  put_deque pn (record d { bottom = c.prev_ready })
  branch (ptr_eq (some cl) d.top)
      (do
        check (is_null c.prev_ready)
        put_deque pn (record d { bottom = c.prev_ready; top = none }))
      (null_or c.prev_ready (check false)
        λ n. do nc ← get_closure n; put_closure n (record nc { next_ready = none }))
  c' ← get_closure cl
  put_closure cl (record c' { owner_ready_deque = no_worker })

unfoldable pub deque_xtract_bottom : ℕ → ℕ → M (Option ℕ)
unfolding deque_assert_ownership
deque_xtract_bottom w pn = do
  deque_assert_ownership w pn
  d ← get_deque pn
  null_or d.bottom (do check (is_null d.top); pure none)
      λ cl. do
        c ← get_closure cl
        check (c.owner_ready_deque == pn)
        unlink_bottom pn cl
        pure (some cl)

unfoldable pub deque_peek_bottom : ℕ → ℕ → M (Option ℕ)
unfolding deque_assert_ownership
deque_peek_bottom w pn = do
  deque_assert_ownership w pn
  d ← get_deque pn
  null_or d.bottom (do check (is_null d.top); pure none)
      λ cl. do c ← get_closure cl; check (c.owner_ready_deque == pn); pure (some cl)

pub deque_assert_is_bottom : ℕ → ℕ → M (Unit {0})
unfolding deque_assert_ownership deque_peek_bottom
deque_assert_is_bottom w t = do
  deque_assert_ownership w w
  b ← deque_peek_bottom w w
  check (ptr_eq (some t) b)

pub deque_add_bottom : ℕ → ℕ → ℕ → M (Unit {0})
unfolding deque_assert_ownership
deque_add_bottom w cl pn = do
  deque_assert_ownership w pn
  c ← get_closure cl
  check (c.owner_ready_deque == no_worker)
  d ← get_deque pn
  put_closure cl (record c { prev_ready = d.bottom; next_ready = none; owner_ready_deque = pn })
  put_deque pn (record d { bottom = some cl })
  null_or d.top (put_deque pn (record d { bottom = some cl; top = some cl })) λ _.
      null_or d.bottom (check false)
        λ p. do pc ← get_closure p; put_closure p (record pc { next_ready = some cl })
