-- ===== src/Runtime.antt =====
-- The state that the scheduler's files share (runtime/closure.h, readydeque.h, cilk-internal.h,
-- local.h), and the monad of the code that runs on it.
-- A closure, frame, fiber or reducer map is named by its address, a number; NULL is `none`.
use multicilk.Base.{ℕ, Bool, true, false, Option, none, some, update}

-- NO_WORKER
abbrev pub no_worker : ℕ
no_worker = 0xffffffff

-- `enum ClosureStatus`
pub data Status : Type 0 where
  running suspended returning ready pre_invalid post_invalid : Status

abbrev pub status_eq : Status → Status → Bool
status_eq Status.running Status.running = true
status_eq Status.suspended Status.suspended = true
status_eq Status.returning Status.returning = true
status_eq Status.ready Status.ready = true
status_eq Status.pre_invalid Status.pre_invalid = true
status_eq Status.post_invalid Status.post_invalid = true
status_eq _ _ = false

-- `struct Closure`. `locked` stands for the mutex; the exceptions are the pointers in the
-- `struct closure_exception` fields.
pub record Closure : Type 0 where
  pub locked : Bool
  pub frame : Option ℕ
  pub fiber : Option ℕ
  pub fiber_child : Option ℕ
  pub owner_ready_deque : ℕ
  pub mutex_owner : ℕ
  pub status : Status
  pub has_cilk_callee : Bool
  pub lock_wait : Bool
  pub simulated_stolen : Bool
  pub join_counter : ℕ
  pub orig_rsp : Option ℕ
  pub callee : Option ℕ
  pub call_parent : Option ℕ
  pub spawn_parent : Option ℕ
  pub left_sib : Option ℕ
  pub right_sib : Option ℕ
  pub right_most_child : Option ℕ
  pub next_ready : Option ℕ
  pub prev_ready : Option ℕ
  pub right_exn : Option ℕ
  pub child_exn : Option ℕ
  pub user_exn : Option ℕ
  pub reraise_cfa : Option ℕ
  pub parent_rsp : Option ℕ
  pub saved_throwing_fiber : Option ℕ
  pub right_rmap : Option ℕ
  pub child_rmap : Option ℕ
  pub user_rmap : Option ℕ

-- `struct ReadyDeque`
pub record ReadyDeque : Type 0 where
  pub locked : Bool
  pub top : Option ℕ
  pub bottom : Option ℕ
  pub mutex_owner : ℕ

-- The bits of `flags` in `struct __cilkrts_stack_frame`.
pub record Flags : Type 0 where
  pub stolen : Bool
  pub unsynched : Bool
  pub detached : Bool
  pub exception_pending : Bool
  pub excepting : Bool
  pub last : Bool

-- `struct __cilkrts_stack_frame`; `sp` and `fp` are the stack and frame pointers in `ctx`. A `worker` of `none` is one of
-- the odd poison values 0xbfbfbfbfbf and 0xbfbfbfbf. `magic` is CHECK_CILK_FRAME_MAGIC of the frame.
pub record Frame : Type 0 where
  pub flags : Flags
  pub magic : Bool
  pub call_parent : Option ℕ
  pub worker : Option ℕ
  pub sp : Option ℕ
  pub fp : Option ℕ

-- `enum __cilkrts_worker_state`
pub data WorkerState : Type 0 where
  idle sched steal run : WorkerState

-- `struct __cilkrts_worker` with its `struct local_state`. The pointers into the shadow stack are
-- indices of its slots.
pub record Worker : Type 0 where
  pub tail : ℕ
  pub head : ℕ
  pub exc : ℕ
  pub ltq_limit : ℕ
  pub shadow_stack : ℕ → Option ℕ
  pub current_stack_frame : Option ℕ
  pub reducer_map : Option ℕ
  pub state : WorkerState
  pub lock_wait : Bool
  pub provably_good_steal : Bool
  pub fiber_to_free : Option ℕ
  pub rand_next : ℕ

-- The store: the memory of the runtime, and of `global_state` what the scheduler reads.
pub record State : Type 0 where
  pub closures : ℕ → Closure
  pub frames : ℕ → Frame
  pub deques : ℕ → ReadyDeque
  pub workers : ℕ → Worker
  pub root_closure : Option ℕ
  pub root_closure_initialized : Bool
  pub done : Bool
  pub nworkers : ℕ

-- How a call ends: with a result, in `cilkrts_bug` (a failed assertion), or waiting for a mutex
-- that is held.
pub data Outcome {ℓ} (A : Type ℓ) : Type ℓ where
  ok : A → State → Outcome A
  bug : Outcome A
  blocked : Outcome A

abbrev pub M : Type 0 → Type 0
M A = State → Outcome A

abbrev pub pure : {A : Type 0} → A → M A
pure a s = ok a s

infixl 5 ◌>>=◌ ◌>>◌
abbrev pub ◌>>=◌ : {A B : Type 0} → M A → (A → M B) → M B
◌>>=◌ m f s = elim (m s) [ ok a s' ↦ f a s' | bug ↦ bug | blocked ↦ blocked ]

abbrev pub ◌>>◌ : {B : Type 0} → M (Unit {0}) → M B → M B
m >> k = m >>= λ _. k

-- CILK_ASSERT
abbrev pub check : Bool → M (Unit {0})
check true s = ok tt s
check false s = bug

-- `if` and a test for NULL between statements.
abbrev pub branch : {A : Type 0} → Bool → M A → M A → M A
branch true m k s = m s
branch false m k s = k s

abbrev pub null_or : {A : Type 0} → Option ℕ → M A → (ℕ → M A) → M A
null_or none m f s = m s
null_or (some p) m f s = f p s

-- Whether a mutex is free: taking one that is held waits.
abbrev pub wait_while : Bool → M (Unit {0})
wait_while true s = blocked
wait_while false s = ok tt s

abbrev pub get_closure : ℕ → M Closure
get_closure p s = ok (s.closures p) s

abbrev pub put_closure : ℕ → Closure → M (Unit {0})
put_closure p c s = ok tt (record s { closures = update s.closures p c })

abbrev pub get_deque : ℕ → M ReadyDeque
get_deque pn s = ok (s.deques pn) s

abbrev pub put_deque : ℕ → ReadyDeque → M (Unit {0})
put_deque pn d s = ok tt (record s { deques = update s.deques pn d })

abbrev pub get_worker : ℕ → M Worker
get_worker w s = ok (s.workers w) s

abbrev pub put_worker : ℕ → Worker → M (Unit {0})
put_worker w v s = ok tt (record s { workers = update s.workers w v })

abbrev pub get_frame : ℕ → M Frame
get_frame f s = ok (s.frames f) s

abbrev pub put_frame : ℕ → Frame → M (Unit {0})
put_frame f v s = ok tt (record s { frames = update s.frames f v })

abbrev pub get_root : M (Option ℕ)
get_root s = ok s.root_closure s

-- A pointer that the code follows without a test.
abbrev pub deref : Option ℕ → M ℕ
deref none s = bug
deref (some p) s = ok p s

abbrev pub modify_closure : ℕ → (Closure → Closure) → M (Unit {0})
modify_closure t f s = ok tt (record s { closures = update s.closures t (f (s.closures t)) })

abbrev pub modify_frame : ℕ → (Frame → Frame) → M (Unit {0})
modify_frame p f s = ok tt (record s { frames = update s.frames p (f (s.frames p)) })

abbrev pub modify_worker : ℕ → (Worker → Worker) → M (Unit {0})
modify_worker w f s = ok tt (record s { workers = update s.workers w (f (s.workers w)) })

-- The flags of a frame: `__cilkrts_set_stolen`, `__cilkrts_set_unsynced`, `__cilkrts_set_synced`.
abbrev pub set_stolen : ℕ → M (Unit {0})
set_stolen p = modify_frame p λ v. record v { flags = record v.flags { stolen = true } }

abbrev pub set_unsynced : ℕ → M (Unit {0})
set_unsynced p = modify_frame p λ v. record v { flags = record v.flags { unsynched = true } }

abbrev pub set_synced : ℕ → M (Unit {0})
set_synced p = modify_frame p λ v. record v { flags = record v.flags { unsynched = false } }
