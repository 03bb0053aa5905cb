-- ===== src/Dekker/Thief.antt =====
-- The thieves' steps keep the invariant of the THE protocol.
use multicilk.Base.{ℕ, ◌+◌, ◌-◌, ◌≤◌, ◌<◌, ◌≡◌, refl, arith}
use multicilk.Dekker.{System, free, took, raised, saw, failed, passed, loaded, stole, resume}
use multicilk.Dekker.Invariant.{end, Inv, copies-drop_first}

module _ {s : System} (v : Inv s) where
  pub trylock-Inv : s.mutex ≡ free → Inv (record s { mutex = took })
  trylock-Inv p = record {
    ahead = ground (arith, v.ahead);
    order = v.order;
    handler = ground (arith, v.handler);
    seen = λ a e. ground arith;
    room = λ d. ground arith;
    frame = λ f e. ground (arith);
    lost = v.lost;
    kept = v.kept;
  }

  pub give_up-Inv : s.mutex ≡ took → Inv (record s { mutex = free })
  give_up-Inv p = record {
    ahead = ground (arith, v.ahead);
    order = v.order;
    handler = ground (arith, v.handler);
    seen = λ a e. ground arith;
    room = λ d. ground arith;
    frame = λ f e. ground (arith);
    lost = v.lost;
    kept = v.kept;
  }

  pub raise-Inv : s.mutex ≡ took → Inv (record s { mutex = raised; exc = s.exc + 1 })
  raise-Inv p = record {
    ahead = ground (arith, v.ahead);
    order = v.order;
    handler = ground (arith, v.handler);
    seen = λ a e. ground arith;
    room = λ d. ground arith;
    frame = λ f e. ground (arith);
    lost = v.lost;
    kept = v.kept;
  }

  pub load_head-Inv : s.mutex ≡ raised → Inv (record s { mutex = saw s.head })
  load_head-Inv p = record {
    ahead = ground (arith, v.ahead);
    order = v.order;
    handler = ground (arith, v.handler);
    seen = λ a e. ground arith;
    room = λ d. ground arith;
    frame = λ f e. ground (arith);
    lost = v.lost;
    kept = v.kept;
  }

  pub fail-Inv : {h : ℕ} → s.mutex ≡ saw h → s.tail ≤ h → Inv (record s { mutex = failed })
  fail-Inv p l = record {
    ahead = ground (arith, v.ahead);
    order = v.order;
    handler = ground (arith, v.handler);
    seen = λ a e. ground arith;
    room = λ d. ground arith;
    frame = λ f e. ground (arith);
    lost = v.lost;
    kept = v.kept;
  }

  pub lower-Inv : s.mutex ≡ failed → Inv (record s { mutex = took; exc = s.exc - 1 })
  lower-Inv p = record {
    ahead = ground (arith, v.ahead);
    order = v.order;
    handler = ground (arith, v.handler);
    seen = λ a e. ground arith;
    room = λ d. ground arith;
    frame = λ f e. ground (arith);
    lost = v.lost;
    kept = v.kept;
  }

  pub pass-Inv : {h : ℕ} → s.mutex ≡ saw h → h < s.tail → Inv (record s { mutex = passed })
  pass-Inv {h = h} p l = record {
    ahead = ground (arith, v.ahead);
    order = v.order;
    handler = ground (arith, v.handler);
    seen = λ a e. ground arith;
    room = λ d. ground (arith, v.seen h p);
    frame = λ f e. ground (arith);
    lost = v.lost;
    kept = v.kept;
  }

  pub load_frame-Inv : s.mutex ≡ passed → Inv (record s { mutex = loaded (s.slots s.head) })
  load_frame-Inv p = record {
    ahead = ground (arith, v.ahead);
    order = v.order;
    handler = ground (arith, v.handler);
    seen = λ a e. ground arith;
    room = λ d. v.room (ground arith);
    frame = λ f e. ground (arith);
    lost = v.lost;
    kept = v.kept;
  }

  pub store_head-Inv :
      {f : ℕ}
      → s.mutex ≡ loaded f
      → Inv (record s { mutex = stole; head = s.head + 1; resumed = resume s.resumed f })
  store_head-Inv {f = f} p = record {
    ahead = ground (arith, v.ahead);
    order = ground (arith, v.room (rw p refl));
    handler = ground (arith, v.handler);
    seen = λ a e. ground arith;
    room = λ d. ground arith;
    frame = λ f e. ground (arith);
    lost = λ g. ground (arith, v.lost g, v.room (rw p refl));
    kept = λ i. ground (
      arith,
      v.kept i,
      v.room (rw p refl),
      v.frame f p,
      copies-drop_first s.slots i s.head (end s),
    );
  }

  pub unlock-Inv : s.mutex ≡ stole → Inv (record s { mutex = free })
  unlock-Inv p = record {
    ahead = ground (arith, v.ahead);
    order = v.order;
    handler = ground (arith, v.handler);
    seen = λ a e. ground arith;
    room = λ d. ground arith;
    frame = λ f e. ground (arith);
    lost = v.lost;
    kept = v.kept;
  }
