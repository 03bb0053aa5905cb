-- ===== src/Dekker.antt =====
-- The THE protocol between a worker that pops its own frames and the thieves that steal from it:
-- `__cilkrts_detach` (runtime/cilk2c_inlined.c), `__cilkrts_leave_frame` and
-- `__cilkrts_pause_frame` (runtime/cilk2c.c), `Cilk_exception_handler`, `do_dekker_on` and the
-- head's update in `promote_child` (runtime/scheduler.c).
-- One shared access is one step, in any order: the accesses are taken to be sequentially
-- consistent, as the fences at the stores of `tail` and `exc` are there to make them.
-- The victim pops only a frame that it pushed, so `tail` is not 0 there; in the source this is the
-- nesting of calls. A thief does nothing to the victim before it holds the mutex of the victim's deque, so the state
-- of that mutex says how far the one thief that may act has come.
pub mod Invariant
pub mod Victim
pub mod Thief
pub mod Moves
pub mod Safety
pub mod Progress
mod Tests
use multicilk.Base.{ℕ, suc, ◌+◌, ◌-◌, ◌≤◌, ◌<◌, ◌≡◌, update}

-- Where the victim stands.
pub data Pc : Type 0 where
  running : Pc  -- in user code
  popped : Pc  -- has stored `tail - 1`, before the load of `exc`
  waiting : Pc  -- in `Cilk_exception_handler`, before the mutex is taken
  locked : Pc  -- the mutex is held, before `exc` is reset
  reset : Pc  -- `exc` is reset, before the test of head and tail
  gone : Pc  -- `longjmp_to_runtime`: the parent was stolen

-- How far the holder of the deque's mutex has come; `frame` is what it loaded from `*head`.
pub data Mutex : Type 0 where
  free : Mutex
  victim : Mutex
  took : Mutex  -- a thief: before `increment_exception_pointer`
  raised : Mutex  -- `exc` is incremented, before the load of `head`
  saw : (head : ℕ) → Mutex  -- `head` is loaded, before the load of `tail`
  failed : Mutex  -- head >= tail, before `decrement_exception_pointer`
  passed : Mutex  -- `do_dekker_on` returned 1
  loaded : (frame : ℕ) → Mutex  -- `*head` is loaded, before `head + 1` is stored
  stole : Mutex  -- before the mutex is released

-- `slots` is the shadow stack. Each call of `__cilkrts_detach` pushes a new number `next`; `resumed`
-- counts how often the frame with this number was resumed, by the victim or by a thief.
pub record System : Type 0 where
  pub head : ℕ
  pub tail : ℕ
  pub exc : ℕ
  pub slots : ℕ → ℕ
  pub mutex : Mutex
  pub pc : Pc
  pub next : ℕ
  pub resumed : ℕ → ℕ

abbrev pub resume : (ℕ → ℕ) → ℕ → ℕ → ℕ
resume f i = update f i (f i + 1)

-- `limit` is `ltq_limit`.
pub data Step (limit : ℕ) (s : System) : System → Type 0 where
  -- `__cilkrts_detach`: `*tail++ = parent`
  detach :
      s.pc ≡ running
      → s.tail + 1 < limit
      → Step limit s
          (record s { slots = update s.slots s.tail s.next; tail = s.tail + 1; next = s.next + 1 })
  -- `__cilkrts_leave_frame` of a detached frame: the store of `tail`
  pop : s.pc ≡ running → 0 < s.tail → Step limit s (record s { tail = s.tail - 1; pc = popped })
  -- `exc > tail` fails: the victim returns to the parent
  keep :
      s.pc ≡ popped
      → s.exc ≤ s.tail
      → Step limit s (record s { pc = running; resumed = resume s.resumed (s.slots s.tail) })
  conflict : s.pc ≡ popped → s.tail < s.exc → Step limit s (record s { pc = waiting })
  -- `Cilk_exception_handler`
  enter : s.pc ≡ waiting → s.mutex ≡ free → Step limit s (record s { pc = locked; mutex = victim })
  reset_exc : s.pc ≡ locked → Step limit s (record s { pc = reset; exc = s.head })
  lost : s.pc ≡ reset → s.tail < s.head → Step limit s (record s { pc = gone; mutex = free })
  false_alarm :
      s.pc ≡ reset
      → s.head ≤ s.tail
      → Step limit s
          (record s { pc = running; mutex = free; resumed = resume s.resumed (s.slots s.tail) })
  -- `Closure_steal`, with `do_dekker_on` and `promote_child`
  trylock : s.mutex ≡ free → Step limit s (record s { mutex = took })
  give_up : s.mutex ≡ took → Step limit s (record s { mutex = free })
  raise : s.mutex ≡ took → Step limit s (record s { mutex = raised; exc = s.exc + 1 })
  load_head : s.mutex ≡ raised → Step limit s (record s { mutex = saw s.head })
  fail : {h : ℕ} → s.mutex ≡ saw h → s.tail ≤ h → Step limit s (record s { mutex = failed })
  lower : s.mutex ≡ failed → Step limit s (record s { mutex = took; exc = s.exc - 1 })
  pass : {h : ℕ} → s.mutex ≡ saw h → h < s.tail → Step limit s (record s { mutex = passed })
  load_frame : s.mutex ≡ passed → Step limit s (record s { mutex = loaded (s.slots s.head) })
  store_head :
      {f : ℕ}
      → s.mutex ≡ loaded f
      → Step limit s (record s { mutex = stole; head = s.head + 1; resumed = resume s.resumed f })
  unlock : s.mutex ≡ stole → Step limit s (record s { mutex = free })

-- `setup_for_execution`: an empty shadow stack.
abbrev pub start : System
start = record {
  head = 0;
  tail = 0;
  exc = 0;
  slots = λ _. 0;
  mutex = free;
  pc = running;
  next = 0;
  resumed = λ _. 0;
}

pub data Reach (limit : ℕ) : System → Type 0 where
  here : Reach limit start
  later : {s t : System} → Reach limit s → Step limit s t → Reach limit t
