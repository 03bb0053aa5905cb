-- ===== src/Abi/Spawn.antt =====
-- A spawn helper whose parent nobody steals: `__cilkrts_enter_frame_fast`, `__cilkrts_detach`,
-- `__cilkrts_pop_frame` and `__cilkrts_leave_frame`, around a body that keeps the worker as it is.
use multicilk.Base.{ℕ, ◌+◌, ◌-◌, ◌≤◌, ◌<◌, ◌≡◌, refl, true, false, none, some, update, arith}
use multicilk.Runtime.{Frame, Worker, State, M, ok, ◌>>=◌, ◌>>◌}
use multicilk.Scheduler.Return.{After}
use multicilk.Abi.{no_flags, enter_frame_fast, detach, pop_frame, pop_detached, leave_frame}

-- What the compiler makes of `cilk_spawn` up to the body of the helper, and after it.
pub begin_spawn : ℕ → ℕ → M (Unit {0})
begin_spawn w sf = do enter_frame_fast w sf; detach w sf

pub end_spawn : ℕ → ℕ → M After
end_spawn w sf = do last ← pop_frame w sf; leave_frame w sf

-- The parent, the frame that ran before, can be stolen: it is in the new slot of the shadow stack.
pub record Exposed (w sf : ℕ) (s a : State) : Type 0 where
  pub tail : (a.workers w).tail ≡ (s.workers w).tail + 1
  pub slot : (a.workers w).shadow_stack (s.workers w).tail ≡ (s.workers w).current_stack_frame
  pub current : (a.workers w).current_stack_frame ≡ some sf

-- The worker is as before but for the slot above its tail, and nothing was locked.
pub record Restored (w sf : ℕ) (s t : State) : Type 0 where
  pub tail : (t.workers w).tail ≡ (s.workers w).tail
  pub head : (t.workers w).head ≡ (s.workers w).head
  pub exc : (t.workers w).exc ≡ (s.workers w).exc
  pub current : (t.workers w).current_stack_frame ≡ (s.workers w).current_stack_frame
  pub slots :
      (i : ℕ) → i < (s.workers w).tail → (t.workers w).shadow_stack i ≡ (s.workers w).shadow_stack i
  pub closures : t.closures ≡ s.closures
  pub deques : t.deques ≡ s.deques
  pub frame : ((t.frames sf).flags ≡ no_flags) × ((t.frames sf).call_parent ≡ none)

abbrev in_frame : ℕ → (Frame → Frame) → State → State
in_frame p g s = record s { frames = update s.frames p (g (s.frames p)) }

abbrev in_worker : ℕ → (Worker → Worker) → State → State
in_worker w g s = record s { workers = update s.workers w (g (s.workers w)) }

entered : ℕ → ℕ → State → State
entered w sf s =
    let a = in_frame sf (λ f. record f { flags = no_flags }) s in
    let m = in_frame sf (λ f. record f { magic = true }) a in
    let b = in_frame sf (λ f. record f { call_parent = (s.workers w).current_stack_frame }) m in
    let c = in_frame sf (λ f. record f { worker = some w }) b in
    in_worker w (λ u. record u { current_stack_frame = some sf }) c

enter-eq : (w sf : ℕ) (s : State) → enter_frame_fast w sf s ≡ ok tt (entered w sf s)
unfolding enter_frame_fast entered
enter-eq w sf s = refl

detached : ℕ → ℕ → State → State
detached w sf s =
    let a = in_frame sf (λ g. record g { flags = record g.flags { detached = true } }) s in
    let b =
      in_worker w
        (λ u. record u { shadow_stack = update u.shadow_stack u.tail (s.frames sf).call_parent })
        a in
    in_worker w (λ u. record u { tail = u.tail + 1 }) b

detach-eq :
    (w sf : ℕ) (s : State)
    → (s.frames sf).magic ≡ true
    → (s.frames sf).worker ≡ some w
    → (s.workers w).current_stack_frame ≡ some sf
    → (s.workers w).tail + 1 < (s.workers w).ltq_limit
    → detach w sf s ≡ ok tt (detached w sf s)
unfolding detach detached
detach-eq w sf s m own current room = ground (arith, m, own, current, room)

popped : ℕ → ℕ → State → State
popped w sf s =
    let a = in_worker w (λ u. record u { current_stack_frame = (s.frames sf).call_parent }) s in
    in_frame sf (λ g. record g { call_parent = none }) a

pop-eq :
    (w sf : ℕ) (s : State)
    → (s.frames sf).magic ≡ true
    → (s.frames sf).worker ≡ some w
    → pop_frame w sf s ≡ ok (s.frames sf).flags.last (popped w sf s)
unfolding pop_frame popped
pop-eq w sf s m own = ground (arith, m, own)

left : ℕ → ℕ → State → State
left w sf s =
    let a = in_worker w (λ u. record u { tail = u.tail - 1 }) s in
    in_frame sf (λ g. record g { flags = record g.flags { detached = false } }) a

leave-eq :
    (w sf : ℕ) (s : State)
    → (s.frames sf).magic ≡ true
    → (s.frames sf).worker ≡ some w
    → (s.frames sf).flags.detached ≡ true
    → (s.workers w).exc ≤ (s.workers w).tail - 1
    → leave_frame w sf s ≡ ok After.to_user (left w sf s)
unfolding leave_frame pop_detached left
leave-eq w sf s m own d alone = ground (arith, m, own, d, alone)

-- A spawn helper whose parent nobody steals, with `exc` at most at the tail and room for the parent
-- in the shadow stack: `__cilkrts_enter_frame_fast` and `__cilkrts_detach` fail no assertion and
-- expose the parent in the slot at the old tail, and `__cilkrts_pop_frame` and
-- `__cilkrts_leave_frame` then fail none, return to user code, and leave the worker as it was below
-- its tail, with no closure and no deque changed.
pub spawn-return :
    (w sf : ℕ) (s : State)
    → (s.workers w).exc ≤ (s.workers w).tail
    → (s.workers w).tail + 1 < (s.workers w).ltq_limit
    → (a t : State) × (begin_spawn w sf s ≡ ok tt a)
      × Exposed w sf s a
      × (end_spawn w sf a ≡ ok After.to_user t)
      × Restored w sf s t
spawn-return w sf s alone room =
    let e = entered w sf s in
    let a = detached w sf e in
    let p = popped w sf a in
    let begin : begin_spawn w sf s ≡ ok tt a =
      unfold begin_spawn in
      ground (
        arith,
        enter-eq w sf s,
        detach-eq w sf e (unfold entered in ground arith) (unfold entered in ground arith)
            (unfold entered in ground arith) (unfold entered in ground (arith, room)),
      ) in
    let end : end_spawn w sf a ≡ ok After.to_user (left w sf p) =
      unfold end_spawn in
      ground (
        arith,
        pop-eq w sf a (unfold detached entered in ground arith)
            (unfold detached entered in ground arith),
        leave-eq w sf p (unfold popped detached entered in ground arith)
            (unfold popped detached entered in ground arith)
            (unfold popped detached entered in ground arith)
            (unfold popped detached entered in ground (arith, alone)),
      ) in
    (
      a,
      left w sf p,
      begin,
      unfold detached entered in
          record { tail = ground arith; slot = ground arith; current = ground arith },
      end,
      unfold left popped detached entered in
          record {
            tail = ground arith;
            head = ground arith;
            exc = ground arith;
            current = ground arith;
            slots = λ i h. ground (arith, h);
            closures = refl;
            deques = refl;
            frame = (ground arith, ground arith);
          },
    )
