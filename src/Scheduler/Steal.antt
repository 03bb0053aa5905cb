-- ===== src/Scheduler/Steal.antt =====
-- The steal of runtime/scheduler.c, from `do_dekker_on` to `promote_own_deque`. The first argument of
-- a call that promotes a stacklet is the fuel for its frames.
use multicilk.Base.{
  ℕ, zero, suc, ◌+◌, Bool, true, false, ◌||◌, not, Option, none, some, ◌==◌, is_null, ptr_eq, leb,
}
use multicilk.Runtime.{
  Status, status_eq, M, pure, ◌>>=◌, ◌>>◌, check, branch, null_or, get_closure, get_worker,
  get_frame, get_root, deref, modify_closure, modify_frame, modify_worker, set_stolen, set_unsynced,
}
use multicilk.Deque.{
  deque_assert_ownership, deque_trylock, deque_unlock, deque_peek_top, deque_xtract_top,
  deque_add_bottom,
}
use multicilk.Closure.{
  closure_assert_ownership, closure_assert_alienation, closure_set_status, closure_trylock,
  closure_lock, closure_unlock, closure_add_child, crash,
}
use multicilk.Closure.Callee.{closure_add_temp_callee, closure_suspend_victim, closure_make_ready}
use multicilk.Scheduler.{Services, increment_exception_pointer, decrement_exception_pointer}
use multicilk.Scheduler.Stacklet.{trivial_stacklet, new_closure, setup_closures_in_stacklet}

unfoldable pub do_dekker_on : ℕ → ℕ → ℕ → M Bool
do_dekker_on w victim cl = do
  closure_assert_ownership w cl
  increment_exception_pointer w victim cl
  v ← get_worker victim
  branch (leb v.tail v.head) (do decrement_exception_pointer w victim cl; pure false) (pure true)

module _ ⦃services : Services⦄ where
  -- The closure of the frame to steal, and `*res`: one that stands for it already, the closure at the
  -- top of the deque, or a new one below that.
  pub find_spawn_parent : ℕ → ℕ → ℕ → ℕ → M (ℕ × Option ℕ)
  find_spawn_parent w victim cl frame_to_steal = do
    c ← get_closure cl
    v ← get_frame frame_to_steal
    branch (ptr_eq c.frame (some frame_to_steal)) (do check v.flags.stolen; pure (cl, none))
        (branch (trivial_stacklet v)
          (do
            check (not v.flags.stolen)
            null_or v.call_parent (check false) λ p. do u ← get_frame p; check u.flags.stolen
            check (not v.flags.last)
            check (is_null c.frame)
            modify_closure cl λ d. record d { frame = some frame_to_steal }
            set_stolen frame_to_steal
            pure (cl, none))
          (do
            spawn_parent ← new_closure w
            modify_closure spawn_parent λ d. record d { frame = some frame_to_steal }
            set_stolen frame_to_steal
            closure_set_status spawn_parent Status.running
            closure_add_temp_callee cl spawn_parent
            modify_closure spawn_parent λ d. record d { call_parent = some cl }
            closure_suspend_victim w victim cl
            closure_unlock w cl
            closure_lock w spawn_parent
            pure (spawn_parent, some spawn_parent)))

  -- The child that goes on in the victim: registered with its parent, and put into the deque.
  pub add_spawn_child : ℕ → ℕ → ℕ → M ℕ
  add_spawn_child w victim spawn_parent = do
    spawn_child ← new_closure w
    modify_closure spawn_child λ d. record d { spawn_parent = some spawn_parent }
    closure_set_status spawn_child Status.running
    closure_add_child w spawn_parent spawn_child
    modify_closure spawn_parent λ d. record d { join_counter = d.join_counter + 1 }
    modify_worker victim λ v. record v { head = v.head + 1 }
    modify_closure spawn_child λ d. record d { frame = none }
    deque_add_bottom w spawn_child victim
    pure spawn_child

  -- `promote_child`, with `*res` as the second result.
  pub promote_child : ℕ → ℕ → ℕ → M (ℕ × Option ℕ)
  promote_child w victim cl = do
    deque_assert_ownership w victim
    closure_assert_ownership w cl
    c ← get_closure cl
    root ← get_root
    check (status_eq c.status Status.running)
    check (c.owner_ready_deque == victim)
    check (is_null c.next_ready)
    check (ptr_eq (some cl) root || not (is_null c.spawn_parent) || not (is_null c.call_parent))
    v ← get_worker victim
    check (leb v.head v.exc)
    check (leb v.head v.tail)
    frame_to_steal ← deref (v.shadow_stack v.head)
    found ← find_spawn_parent w victim cl frame_to_steal
    p ← get_closure found.0
    f ← get_frame frame_to_steal
    branch (is_null p.orig_rsp) (modify_closure found.0 λ d. record d { orig_rsp = f.sp }) (pure tt)
    check (not p.has_cilk_callee)
    spawn_child ← add_spawn_child w victim found.0
    pure (spawn_child, found.1)

  pub finish_promote : ℕ → ℕ → ℕ → ℕ → Bool → M (Unit {0})
  finish_promote n w victim parent has_frames_to_promote = do
    p ← get_closure parent
    f ← deref p.frame
    v ← get_frame f
    check (ptr_eq v.worker (some victim))
    closure_assert_ownership w parent
    check (not p.has_cilk_callee)
    check v.flags.stolen
    branch has_frames_to_promote (setup_closures_in_stacklet n w victim parent) (pure tt)
    v' ← get_frame f
    check (ptr_eq v'.worker (some victim))
    set_unsynced f
    closure_make_ready parent

  pub extract_top_spawning_closure : ℕ → ℕ → ℕ → M ℕ
  extract_top_spawning_closure w victim cl = do
    c ← get_closure cl
    deque_assert_ownership w victim
    closure_assert_ownership w cl
    check (not (is_null c.fiber))
    promoted ← promote_child w victim cl
    res ←
        null_or promoted.1
          (do top ← deque_xtract_top w victim; check (ptr_eq (some cl) top); pure cl) λ r. pure r
    fiber ← branch (w == victim) (pure none) (services.allocate_fiber w)
    modify_closure res λ d. record d { fiber = fiber }
    closure_assert_alienation w promoted.0
    modify_closure promoted.0 λ d. record d { fiber = c.fiber }
    pure res

  -- The branch of `Closure_steal` in which `do_dekker_on` succeeds.
  pub steal_from : ℕ → ℕ → ℕ → ℕ → M (Option ℕ)
  steal_from n w victim cl = do
    res ← extract_top_spawning_closure w victim cl
    deque_unlock w victim
    r ← get_closure res
    check (not (is_null r.fiber))
    f ← deref r.frame
    v ← get_frame f
    check (ptr_eq v.worker (some victim))
    closure_assert_ownership w res
    finish_promote n w victim res (not (cl == res))
    v' ← get_frame f
    check (ptr_eq v'.worker (some victim))
    closure_unlock w res
    pure (some res)

  -- `give_up`
  unfoldable pub give_up : ℕ → ℕ → ℕ → M (Option ℕ)
  give_up w victim cl = do closure_unlock w cl; deque_unlock w victim; pure none

  -- The switch on the status of the closure at the top, whose lock is taken.
  unfoldable pub steal_status : ℕ → ℕ → ℕ → ℕ → Status → M (Option ℕ)
  steal_status n w victim cl Status.running = do
    passed ← do_dekker_on w victim cl
    branch passed (steal_from n w victim cl) (give_up w victim cl)
  steal_status n w victim cl Status.returning = give_up w victim cl
  steal_status n w victim cl _ = do
    root ← get_root
    branch (ptr_eq (some cl) root) (pure none) crash

  unfoldable pub try_closure : ℕ → ℕ → ℕ → ℕ → M (Option ℕ)
  try_closure n w victim cl = do
    locked ← closure_trylock w cl
    branch locked (do c ← get_closure cl; steal_status n w victim cl c.status)
        (do deque_unlock w victim; pure none)

  unfoldable pub closure_steal : ℕ → ℕ → ℕ → M (Option ℕ)
  closure_steal n w victim = do
    v ← get_worker victim
    branch (leb v.tail v.head) (pure none) (do
      locked ← deque_trylock w victim
      branch locked
          (do
            top ← deque_peek_top w victim
            null_or top (do deque_unlock w victim; pure none) λ cl. try_closure n w victim cl)
          (pure none))

  -- One turn of the loop of `promote_own_deque`, and whether it is the last.
  pub promote_turn : ℕ → ℕ → M Bool
  promote_turn n w = do
    top ← deque_peek_top w w
    cl ← deref top
    c ← get_closure cl
    check (status_eq c.status Status.running)
    locked ← closure_trylock w cl
    branch locked
        (do
          passed ← do_dekker_on w w cl
          branch passed
              (do
                res ← extract_top_spawning_closure w w cl
                r ← get_closure res
                check (is_null r.fiber)
                f ← deref r.frame
                v ← get_frame f
                check (ptr_eq v.worker (some w))
                finish_promote n w w res (not (cl == res))
                closure_set_status res Status.suspended
                modify_frame f λ u. record u { worker = none }
                modify_closure res λ d. record d { simulated_stolen = true }
                closure_unlock w res
                pure false)
              (do closure_unlock w cl; deque_unlock w w; pure true))
        crash

  -- The last argument bounds the turns.
  pub promote_turns : ℕ → ℕ → ℕ → M (Unit {0})
  promote_turns n w zero = crash
  promote_turns n w (suc turns) = do
    over ← promote_turn n w
    branch over (pure tt) (promote_turns n w turns)

  pub promote_own_deque : ℕ → ℕ → ℕ → M (Unit {0})
  promote_own_deque n w turns = do
    locked ← deque_trylock w w
    branch locked (promote_turns n w turns) crash
