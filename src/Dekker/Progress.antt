-- ===== src/Dekker/Progress.antt =====
-- Nobody waits for ever in the THE protocol: the holder of the mutex always has a way to release
-- it, and a pop always ends.
use multicilk.Base.{ℕ, ◌≡◌, ◌≢◌, ◌⊎◌, inl, inr, refl, ◌∙◌, arith}
use native.Mathlib.Decide.{dec_le}
use multicilk.Dekker.{
  System, Pc, running, popped, waiting, locked, reset, gone, Mutex, free, victim, took, raised, saw,
  failed, passed, loaded, stole, Step, keep, conflict, enter, reset_exc, lost, false_alarm, give_up,
  load_head, fail, lower, pass, load_frame, store_head, unlock, Reach,
}
use multicilk.Dekker.Invariant.{Inv, held}
use multicilk.Dekker.Moves.{Reach-Inv}

pub data Steps (limit : ℕ) : System → System → Type 0 where
  done : {s : System} → Steps limit s s
  then : {s t u : System} → Step limit s t → Steps limit t u → Steps limit s u

pub Steps-trans : {limit : ℕ} {s t u : System} → Steps limit s t → Steps limit t u → Steps limit s u
Steps-trans done b = b
Steps-trans (then st a) b = then st (Steps-trans a b)

-- Steps of the thief that holds the mutex, after which the mutex is free; the victim has not moved.
abbrev pub Releases : ℕ → System → Type 0
Releases limit s = (t : System) × Steps limit s t × (t.mutex ≡ free) × (t.pc ≡ s.pc)

-- Steps that end the victim's pop.
abbrev pub Ends : ℕ → System → Type 0
Ends limit s = (t : System) × Steps limit s t × ((t.pc ≡ running) ⊎ (t.pc ≡ gone))

module _ {limit : ℕ} where
  first : {s t : System} → Step limit s t → t.pc ≡ s.pc → Releases limit t → Releases limit s
  first st e (u, ss, f, p) = (u, then st ss, f, p ∙ e)

  now : {s t : System} → Step limit s t → t.pc ≡ s.pc → t.mutex ≡ free → Releases limit s
  now {t = t} st e f = (t, then st done, f, e)

  from_stole : (s : System) → s.mutex ≡ stole → Releases limit s
  from_stole s e = now {s = s} (unlock e) refl refl

  from_loaded : (s : System) (f : ℕ) → s.mutex ≡ loaded f → Releases limit s
  from_loaded s f e = first {s = s} (store_head e) refl (from_stole _ refl)

  from_passed : (s : System) → s.mutex ≡ passed → Releases limit s
  from_passed s e = first {s = s} (load_frame e) refl (from_loaded _ (s.slots s.head) refl)

  from_took : (s : System) → s.mutex ≡ took → Releases limit s
  from_took s e = now {s = s} (give_up e) refl refl

  from_failed : (s : System) → s.mutex ≡ failed → Releases limit s
  from_failed s e = first {s = s} (lower e) refl (from_took _ refl)

  from_saw : (s : System) (h : ℕ) → s.mutex ≡ saw h → Releases limit s
  from_saw s h e = elim (dec_le s.tail h) [
    | yes l ↦ first {s = s} (fail e l) refl (from_failed _ refl)
    | no l ↦ first {s = s} (pass e (omega arith)) refl (from_passed _ refl)
  ]

  from_raised : (s : System) → s.mutex ≡ raised → Releases limit s
  from_raised s e = first {s = s} (load_head e) refl (from_saw _ s.head refl)

  pub releases : (s : System) (m : Mutex) → s.mutex ≡ m → m ≢ victim → Releases limit s
  releases s free e n = (s, done, e, refl)
  releases s victim e n = absurd (n refl)
  releases s took e n = from_took s e
  releases s raised e n = from_raised s e
  releases s (saw h) e n = from_saw s h e
  releases s failed e n = from_failed s e
  releases s passed e n = from_passed s e
  releases s (loaded f) e n = from_loaded s f e
  releases s stole e n = from_stole s e

  one : {s t : System} → Step limit s t → Ends limit t → Ends limit s
  one st (u, ss, p) = (u, then st ss, p)

  from_reset : (s : System) → s.pc ≡ reset → Ends limit s
  from_reset s e = elim (dec_le s.head s.tail) [
    | yes l ↦ one {s = s} (false_alarm e l) (_, done, inl refl)
    | no l ↦ one {s = s} (lost e (omega arith)) (_, done, inr refl)
  ]

  from_locked : (s : System) → s.pc ≡ locked → Ends limit s
  from_locked s e = one {s = s} (reset_exc e) (from_reset _ refl)

  from_free : (s : System) → s.pc ≡ waiting → s.mutex ≡ free → Ends limit s
  from_free s e m = one {s = s} (enter e m) (from_locked _ refl)

  from_waiting : (s : System) → held s.mutex ≡ 0 → s.pc ≡ waiting → Ends limit s
  from_waiting s h e =
      let (t, ss, m, p) = releases s s.mutex refl (λ v. ground arith) in
      let (u, us, q) = from_free t (p ∙ e) m in (u, Steps-trans ss us, q)

  from_popped : (s : System) → held s.mutex ≡ 0 → s.pc ≡ popped → Ends limit s
  from_popped s h e = elim (dec_le s.exc s.tail) [
    | yes l ↦ one {s = s} (keep e l) (_, done, inl refl)
    | no l ↦ one {s = s} (conflict e (omega arith)) (from_waiting _ h refl)
  ]

  from_anywhere : (s : System) (pc : Pc) → s.pc ≡ pc → Inv s → Ends limit s
  from_anywhere s running e v = (s, done, inl e)
  from_anywhere s popped e v = from_popped s (ground (arith, v.handler)) e
  from_anywhere s waiting e v = from_waiting s (ground (arith, v.handler)) e
  from_anywhere s locked e v = from_locked s e
  from_anywhere s reset e v = from_reset s e
  from_anywhere s gone e v = (s, done, inr e)

-- From every reachable state the steps of the thief that holds the mutex, and then of the victim,
-- bring the victim back to user code or to the runtime.
pub pop_terminates : {limit : ℕ} {s : System} → Reach limit s → Ends limit s
pop_terminates {s = s} r = from_anywhere s s.pc refl (Reach-Inv r)
