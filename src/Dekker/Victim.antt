-- ===== src/Dekker/Victim.antt =====
-- The victim's steps keep the invariant of the THE protocol.
use multicilk.Base.{◌+◌, ◌-◌, ◌≤◌, ◌<◌, ◌≡◌, refl, update, arith}
use multicilk.Dekker.{System, running, popped, waiting, locked, reset, gone, free, victim, resume}
use multicilk.Dekker.Invariant.{Inv, copies-update, copies-drop_last}

module _ {s : System} (v : Inv s) where
  pub detach-Inv :
      s.pc ≡ running
      → Inv
          (record s { slots = update s.slots s.tail s.next; tail = s.tail + 1; next = s.next + 1 })
  detach-Inv p = record {
    ahead = v.ahead;
    order = ground (arith, v.order);
    handler = v.handler;
    seen = v.seen;
    room = λ d. ground (arith, v.room d);
    frame = λ f e. ground (arith, v.frame f e, v.room);
    lost = λ g. ground arith;
    kept = λ i. ground (
      arith,
      v.kept i,
      v.order,
      copies-update s.slots i (s.tail - s.head) s.head s.tail s.next,
      copies-drop_last (update s.slots s.tail s.next) i s.head s.tail,
    );
  }

  pub pop-Inv : s.pc ≡ running → 0 < s.tail → Inv (record s { tail = s.tail - 1; pc = popped })
  pop-Inv p h = record {
    ahead = v.ahead;
    order = ground (arith, v.order);
    handler = ground (arith, v.handler);
    seen = v.seen;
    room = λ d. ground (arith, v.room d);
    frame = v.frame;
    lost = λ g. ground arith;
    kept = λ i. ground (arith, v.kept i);
  }

  pub keep-Inv :
      s.pc ≡ popped
      → s.exc ≤ s.tail
      → Inv (record s { pc = running; resumed = resume s.resumed (s.slots s.tail) })
  keep-Inv p h = record {
    ahead = v.ahead;
    order = ground (arith, v.ahead);
    handler = ground (arith, v.handler);
    seen = v.seen;
    room = λ d. ground (arith, v.room d, v.ahead);
    frame = v.frame;
    lost = λ g. ground arith;
    kept = λ i. ground (arith, v.kept i, v.ahead, copies-drop_last s.slots i s.head s.tail);
  }

  pub conflict-Inv : s.pc ≡ popped → s.tail < s.exc → Inv (record s { pc = waiting })
  conflict-Inv p h = record {
    ahead = v.ahead;
    order = ground (arith, v.order);
    handler = ground (arith, v.handler);
    seen = v.seen;
    room = λ d. ground (arith, v.room d);
    frame = v.frame;
    lost = λ g. ground arith;
    kept = λ i. ground (arith, v.kept i);
  }

  pub enter-Inv : s.pc ≡ waiting → s.mutex ≡ free → Inv (record s { pc = locked; mutex = victim })
  enter-Inv p h = record {
    ahead = ground (arith, v.ahead);
    order = ground (arith, v.order);
    handler = refl;
    seen = λ a e. ground arith;
    room = λ d. ground arith;
    frame = λ f e. ground arith;
    lost = λ g. ground arith;
    kept = λ i. ground (arith, v.kept i);
  }

  pub reset_exc-Inv : s.pc ≡ locked → Inv (record s { pc = reset; exc = s.head })
  reset_exc-Inv p = record {
    ahead = ground (arith, v.handler);
    order = ground (arith, v.order);
    handler = ground (arith, v.handler);
    seen = v.seen;
    room = λ d. ground (arith, v.room d);
    frame = v.frame;
    lost = λ g. ground arith;
    kept = λ i. ground (arith, v.kept i);
  }

  pub lost-Inv : s.pc ≡ reset → s.tail < s.head → Inv (record s { pc = gone; mutex = free })
  lost-Inv p h = record {
    ahead = ground (arith, v.ahead, v.handler);
    order = ground (arith, v.order);
    handler = refl;
    seen = λ a e. ground arith;
    room = λ d. ground arith;
    frame = λ f e. ground arith;
    lost = λ g. ground (arith, v.order);
    kept = λ i. ground (arith, v.kept i);
  }

  pub false_alarm-Inv :
      s.pc ≡ reset
      → s.head ≤ s.tail
      → Inv (record s { pc = running; mutex = free; resumed = resume s.resumed (s.slots s.tail) })
  false_alarm-Inv p h = record {
    ahead = ground (arith, v.ahead, v.handler);
    order = ground arith;
    handler = refl;
    seen = λ a e. ground arith;
    room = λ d. ground arith;
    frame = λ f e. ground arith;
    lost = λ g. ground arith;
    kept = λ i. ground (arith, v.kept i, copies-drop_last s.slots i s.head s.tail);
  }
