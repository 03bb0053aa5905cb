-- ===== src/Dekker/Safety.antt =====
-- What the THE protocol guarantees: no frame is resumed twice and none is lost.
use multicilk.Base.{ℕ, ◌+◌, ◌-◌, ◌≤◌, ◌<◌, ◌≡◌, refl, arith}
use multicilk.Dekker.{System, gone, loaded, Reach}
use multicilk.Dekker.Invariant.{copies, end, copies-empty, copies-drop_first}
use multicilk.Dekker.Moves.{Reach-Inv}

-- In every reachable state a frame has been resumed at most once, by the victim or a thief, and a
-- frame that was never pushed has not been resumed.
pub resumed_once :
    {limit : ℕ} {s : System}
    → Reach limit s
    → (i : ℕ) → (s.resumed i ≤ 1) × (s.next ≤ i → s.resumed i ≡ 0)
resumed_once {s = s} r i =
    let v = Reach-Inv r in (ground (arith, v.kept i), λ h. ground (arith, v.kept i))

-- In every reachable state a frame that was pushed and not resumed stands exactly once between
-- `head` and the end of the deque, which is `tail`, or `tail + 1` while the victim is inside a pop.
pub none_lost :
    {limit : ℕ} {s : System}
    → Reach limit s
    → (i : ℕ) → i < s.next
    → s.resumed i ≡ 0
    → copies s.slots i (end s - s.head) s.head ≡ 1
none_lost {s = s} r i h e = let v = Reach-Inv r in ground (arith, v.kept i)

-- When the victim returns to the runtime, its deque is empty, `head` is `tail + 1`, and every frame
-- that it pushed has been resumed once.
pub gone-all_resumed :
    {limit : ℕ} {s : System}
    → Reach limit s
    → s.pc ≡ gone
    → (s.head ≡ s.tail + 1) × ((i : ℕ) → i < s.next → s.resumed i ≡ 1)
gone-all_resumed {s = s} r g =
    let v = Reach-Inv r in
    let e : s.head ≡ s.tail + 1 = ground (arith, v.lost g) in
    (e, λ i h. ground (arith, v.kept i, copies-empty s.slots i s.head))

-- The assertions of `promote_child` hold: when a thief has loaded the frame at `*head`, `head` is
-- at most `exc` and at most `tail`, and the frame is the oldest one that has not been resumed.
pub promote_asserts-Holds :
    {limit f : ℕ} {s : System}
    → Reach limit s
    → s.mutex ≡ loaded f
    → (s.head ≤ s.exc) × (s.head ≤ s.tail) × (s.slots s.head ≡ f) × (s.resumed f ≡ 0)
promote_asserts-Holds {f = f} {s = s} r e =
    let v = Reach-Inv r in
    let room = v.room (rw e refl) in
    let at_head = v.frame f e in
    (
      ground (arith, v.ahead),
      ground arith,
      at_head,
      ground (arith, v.kept f, copies-drop_first s.slots f s.head (end s)),
    )
