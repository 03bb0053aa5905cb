-- ===== src/Dekker/Invariant.antt =====
-- What holds in every state of the THE protocol.
use multicilk.Base.{ℕ, zero, suc, ◌+◌, ◌-◌, ◌≤◌, ◌<◌, ◌≡◌, ◌⊎◌, refl, ltb, ◌==◌, bit, update, arith}
use multicilk.Dekker.{
  Pc, running, locked, reset, gone, Mutex, victim, raised, saw, failed, passed, loaded, System,
}

-- How often the frame `i` stands in the `n` slots from `j` on.
pub copies : (ℕ → ℕ) → ℕ → ℕ → ℕ → ℕ
copies slots i zero j = 0
copies slots i (suc n) j = bit (slots j == i) + copies slots i n (j + 1)

-- While the victim is inside a pop, the slot that it gave up is not decided.
abbrev pub undecided : Pc → ℕ
undecided running = 0
undecided _ = 1

-- A thief has incremented `exc` and has not yet taken that back or stored `head + 1`.
abbrev pub lead : Mutex → ℕ
lead raised = 1
lead (saw _) = 1
lead failed = 1
lead passed = 1
lead (loaded _) = 1
lead _ = 0

abbrev pub end : System → ℕ
end s = s.tail + undecided s.pc

-- `do_dekker_on` has returned 1 and `head + 1` is not stored yet.
abbrev pub deciding : Mutex → ℕ
deciding passed = 1
deciding (loaded _) = 1
deciding _ = 0

-- The victim holds the mutex exactly in these two states.
abbrev pub in_handler : Pc → ℕ
in_handler locked = 1
in_handler reset = 1
in_handler _ = 0

abbrev pub held : Mutex → ℕ
held victim = 1
held _ = 0

pub record Inv (s : System) : Type 0 where
  pub ahead : s.exc ≡ s.head + lead s.mutex
  pub order : s.head ≤ end s
  pub handler : in_handler s.pc ≡ held s.mutex
  pub seen : (h : ℕ) → s.mutex ≡ saw h → s.head ≡ h
  pub room : deciding s.mutex ≡ 1 → s.head < end s
  pub frame : (f : ℕ) → s.mutex ≡ loaded f → s.slots s.head ≡ f
  pub lost : s.pc ≡ gone → s.head ≡ end s
  -- Each frame pushed so far was resumed once, or stands once between head and end.
  pub kept : (i : ℕ) → s.resumed i + copies s.slots i (end s - s.head) s.head ≡ bit (ltb i s.next)

-- A slot outside the range may change.
pub copies-update :
    (slots : ℕ → ℕ) (i n j x v : ℕ)
    → (x < j) ⊎ (j + n ≤ x)
    → copies (update slots x v) i n j ≡ copies slots i n j
unfolding copies
copies-update slots i zero j x v out = refl
copies-update slots i (suc n) j x v out = ground (arith, copies-update slots i n (j + 1) x v)

-- The last slot of a range.
pub copies-snoc :
    (slots : ℕ → ℕ) (i n j : ℕ)
    → copies slots i (n + 1) j ≡ copies slots i n j + bit (slots (j + n) == i)
unfolding copies
copies-snoc slots i zero j = ground arith
copies-snoc slots i (suc n) j = ground (arith, copies-snoc slots i n (j + 1))

-- The range from head to end loses its last slot.
pub copies-drop_last :
    (slots : ℕ → ℕ) (i head tail : ℕ)
    → head ≤ tail
    → copies slots i (tail + 1 - head) head
      ≡ copies slots i (tail - head) head + bit (slots tail == i)
copies-drop_last slots i head tail h = ground (arith, copies-snoc slots i (tail - head) head)

-- The range from head to end loses its first slot.
pub copies-drop_first :
    (slots : ℕ → ℕ) (i head stop : ℕ)
    → head < stop
    → copies slots i (stop - head) head
      ≡ bit (slots head == i) + copies slots i (stop - (head + 1)) (head + 1)
unfolding copies
copies-drop_first slots i head stop h =
    let e : stop - head ≡ suc (stop - (head + 1)) = omega arith in rw e (refl)

pub copies-empty : (slots : ℕ → ℕ) (i j : ℕ) → copies slots i 0 j ≡ 0
unfolding copies
copies-empty slots i j = refl
