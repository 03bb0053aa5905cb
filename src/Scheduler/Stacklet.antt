-- ===== src/Scheduler/Stacklet.antt =====
-- The frames of a stacklet and their closures (runtime/scheduler.c, `trivial_stacklet` to
-- `setup_closures_in_stacklet`). The frames are followed along `call_parent` on fuel, the first
-- argument.
use multicilk.Base.{ℕ, zero, suc, Bool, ◌&&◌, not, none, some, ◌==◌, is_null, ptr_eq}
use multicilk.Runtime.{
  Status, Frame, M, pure, ◌>>=◌, ◌>>◌, check, branch, null_or, get_closure, get_frame, deref,
  modify_closure, modify_frame, set_stolen,
}
use multicilk.Closure.{closure_set_status, closure_create, crash}
use multicilk.Closure.Callee.{closure_add_callee}
use multicilk.Scheduler.{Services}

abbrev pub trivial_stacklet : Frame → Bool
trivial_stacklet head = head.flags.detached

unfoldable pub oldest_non_stolen_frame_in_stacklet : ℕ → ℕ → M ℕ
oldest_non_stolen_frame_in_stacklet zero cur = crash
oldest_non_stolen_frame_in_stacklet (suc n) cur = do
  v ← get_frame cur
  branch v.flags.detached (pure cur) (
      null_or v.call_parent (pure cur) λ p. do
        u ← get_frame p
        branch u.flags.stolen (pure cur) (oldest_non_stolen_frame_in_stacklet n p))

module _ ⦃services : Services⦄ where
  -- `Closure_create`
  pub new_closure : ℕ → M ℕ
  new_closure w = do given ← services.allocate_closure w; closure_create given

  -- A closure for `frame`, suspended, as the callee of `call_parent`.
  pub suspended_callee : ℕ → ℕ → ℕ → ℕ → M ℕ
  suspended_callee w victim frame call_parent = do
    set_stolen frame
    curr ← new_closure w
    modify_closure curr λ c. record c { frame = some frame }
    v ← get_frame frame
    check (ptr_eq v.worker (some victim))
    p ← get_closure call_parent
    check (not (is_null p.fiber))
    closure_set_status curr Status.suspended
    modify_frame frame λ u. record u { worker = none }
    modify_closure curr λ c. record c { fiber = p.fiber }
    closure_add_callee call_parent curr
    pure curr

  pub setup_call_parent_closure_helper : ℕ → ℕ → ℕ → ℕ → ℕ → M ℕ
  setup_call_parent_closure_helper zero w victim frame oldest = crash
  setup_call_parent_closure_helper (suc n) w victim frame oldest = do
    o ← get_closure oldest
    v ← get_frame frame
    branch (ptr_eq o.frame (some frame))
        (do check v.flags.stolen; check (not (is_null o.fiber)); pure oldest)
        (do
          p ← deref v.call_parent
          call_parent ← setup_call_parent_closure_helper n w victim p oldest
          suspended_callee w victim frame call_parent)

  -- The oldest frame of the stacklet is that of `oldest_cl`, or becomes it.
  pub promote_oldest : ℕ → ℕ → ℕ → ℕ → M (Unit {0})
  promote_oldest victim oldest_cl oldest youngest = do
    c ← get_closure oldest_cl
    o ← get_frame oldest
    null_or c.frame
        (do
          check (not (oldest == youngest))
          check (not o.flags.stolen)
          check o.flags.detached
          set_stolen oldest
          modify_closure oldest_cl λ d. record d { frame = some oldest })
        λ p. do u ← get_frame p; check (ptr_eq (some p) o.call_parent && u.flags.stolen)
    o' ← get_frame oldest
    check (ptr_eq o'.worker (some victim))
    c' ← get_closure oldest_cl
    f ← deref c'.frame
    modify_frame f λ u. record u { worker = none }

  pub setup_closures_in_stacklet : ℕ → ℕ → ℕ → ℕ → M (Unit {0})
  setup_closures_in_stacklet n w victim youngest_cl = do
    y ← get_closure youngest_cl
    oldest_cl ← deref y.call_parent
    youngest ← deref y.frame
    oldest ← oldest_non_stolen_frame_in_stacklet n youngest
    v ← get_frame youngest
    check (ptr_eq v.worker (some victim))
    check v.flags.stolen
    promote_oldest victim oldest_cl oldest youngest
    p ← deref v.call_parent
    call_parent ← setup_call_parent_closure_helper n w victim p oldest_cl
    y' ← get_closure youngest_cl
    o ← get_closure oldest_cl
    check (not (ptr_eq y'.fiber o.fiber))
    v' ← get_frame youngest
    check (ptr_eq v'.worker (some victim))
    closure_add_callee call_parent youngest_cl
