-- ===== src/Oracle6502/Budget.antt =====
-- crates/oracle_6502/src/lib.rs: `run_until_rts` under its step budget.
use nes_to_sms.Base.{
  ℕ, zero, suc, ◌+◌, ◌<◌, ◌≤◌, ◌≡◌, arith, ltb, true, false, Bool, inl, inr, Result, ok, err,
}
use nes_to_sms.Oracle6502.Machine.{
  Bus, Stop, panic, StepError, step_error, step_limit_exceeded, Machine, M, pure, fail, ◌>>=◌,
  after,
}
use nes_to_sms.Oracle6502.Hoare.{
  ByteBus, IsMachine, Ends, Any, Keeps, pure-Keeps, get_cpu-Keeps, read-Keeps,
}
use nes_to_sms.Oracle6502.Total.{step-total}
use nes_to_sms.Oracle6502.Step.{
  Depth, nested, returned, overflow, step, observed_step, next_depth, run_from, run_until_rts,
}

-- An operation that does not panic: it ends well in a well-formed machine, or stops by an error
-- of the interpreter's own.
abbrev pub Stops :
    {bus : Bus} {A : Type 0} (laws : ByteBus bus)
    → (A → Type 0)
    → Result Stop A
    → Machine bus
    → Type 0
Stops laws Q (ok a) s = Q a × IsMachine laws s
Stops laws Q (err (step_error e)) s = Unit {0}
Stops laws Q (err panic) s = ⊥

-- A depth that has not overflowed, and lies at most at `n`.
Within : ℕ → Depth → Type 0
Within n (nested d) = d ≤ n
Within n returned = Unit {0}
Within n overflow = ⊥

next_depth-Within :
    (depth : ℕ) (calls returns : Bool)
    → depth < 0x7fff_ffff
    → Within (suc depth) (next_depth depth calls returns)
unfolding next_depth Within
next_depth-Within depth true returns h =
    let below : ltb depth 0x7fff_ffff ≡ true = ground arith in rw below (omega arith)
next_depth-Within depth false false h = omega arith
next_depth-Within zero false true h = tt
next_depth-Within (suc depth) false true h = omega arith

module _ {bus : Bus} (laws : ByteBus bus) where
  record Halts {A : Type 0} (Q : A → Type 0) (m : M bus A) : Type 0 where
    run : (s : Machine bus) → IsMachine laws s → Stops laws Q (m s).0 (m s).1

  Ends→Stops :
      {A : Type 0} (Q R : A → Type 0) (r : Result Stop A) (s : Machine bus)
      → ((a : A) → Q a → R a)
      → Ends laws Q r s
      → Stops laws R r s
  Ends→Stops Q R (ok a) s k e = (k a e.0, e.1)
  Ends→Stops Q R (err x) s k e = absurd e

  Stops-mono :
      {A : Type 0} (Q R : A → Type 0) (r : Result Stop A) (s : Machine bus)
      → ((a : A) → Q a → R a)
      → Stops laws Q r s
      → Stops laws R r s
  Stops-mono Q R (ok a) s k e = (k a e.0, e.1)
  Stops-mono Q R (err (step_error x)) s k e = tt
  Stops-mono Q R (err panic) s k e = absurd e

module _ {bus : Bus} {laws : ByteBus bus} where
  Keeps→Halts : {A : Type 0} {Q : A → Type 0} {m : M bus A} → Keeps laws Q m → Halts laws Q m
  Keeps→Halts {Q} {m} k = record {
    run = λ s h. Ends→Stops laws Q Q (m s).0 (m s).1 (λ a q. q) (k.run s h);
  }

  after-Stops :
      {A B : Type 0} {Q : A → Type 0} {R : B → Type 0} (r : Result Stop A) (s : Machine bus)
      (f : A → M bus B)
      → Stops laws Q r s
      → ((a : A) → Q a → Halts laws R (f a))
      → Stops laws R (after r s f).0 (after r s f).1
  unfolding after
  after-Stops (ok a) s f e k = (k a e.0).run s e.1
  after-Stops (err (step_error x)) s f e k = tt
  after-Stops (err panic) s f e k = absurd e

  bind-Halts :
      {A B : Type 0} {Q : A → Type 0} {R : B → Type 0} {m : M bus A} {f : A → M bus B}
      → Halts laws Q m
      → ((a : A) → Q a → Halts laws R (f a))
      → Halts laws R (m >>= f)
  unfolding ◌>>=◌
  bind-Halts {m} {f} h k = record { run = λ s v. after-Stops (m s).0 (m s).1 f (h.run s v) k }

  fail-Halts :
      {A : Type 0} {Q : A → Type 0} (e : StepError) → Halts laws Q (fail {A = A} (step_error e))
  unfolding fail
  fail-Halts e = record { run = λ s h. tt }

  step-Halts : Halts laws Any (step {bus = bus})
  step-Halts = record {
    run = λ s h. elim (step-total laws s h) [
      | inl done ↦ Ends→Stops laws _ Any (step s).0 (step s).1 (λ i q. tt) done.1
      | inr refused ↦ rw refused.1 tt
    ];
  }

  observed_step-Halts : Halts laws Any (observed_step {bus = bus})
  unfolding observed_step
  observed_step-Halts = bind-Halts (Keeps→Halts get_cpu-Keeps) λ c hc.
      bind-Halts (Keeps→Halts (read-Keeps c.pc))
        λ v hv. bind-Halts step-Halts λ i hi. Keeps→Halts (pure-Keeps _ tt)

  -- Between `steps` and the whole budget; the depth is at most the number of steps.
  run_from-Halts :
      (left depth steps : ℕ)
      → depth ≤ steps
      → steps + left < 0x8000_0000
      → Halts laws (λ k. (steps < k) × (k ≤ steps + left)) (run_from {bus = bus} left depth steps)
  unfolding run_from Within
  run_from-Halts zero depth steps hd hb = fail-Halts step_limit_exceeded
  run_from-Halts (suc left) depth steps hd hb = bind-Halts observed_step-Halts λ seen q.
      go (next_depth depth seen.0 seen.1) (next_depth-Within depth seen.0 seen.1 (omega arith))
        (λ d h. run_from-Halts left d (suc steps) (omega arith) (omega arith))
    where
      go :
          (o : Depth)
          → Within (suc depth) o
          → ((d : ℕ)
              → d ≤ suc depth
              → Halts laws
                  (λ k. (suc steps < k) × (k ≤ suc steps + left))
                  (run_from {bus = bus} left d (suc steps)))
          → Halts laws
              (λ k. (steps < k) × (k ≤ steps + suc left))
              (elim o [
                | returned ↦ pure (suc steps)
                | overflow ↦ fail panic
                | nested d ↦ run_from left d (suc steps)
              ])
      go returned w rec = Keeps→Halts (pure-Keeps (suc steps) (omega arith))
      go overflow w rec = absurd w
      go (nested d) w rec = record {
        run = λ s h. Stops-mono laws _ _ _ _ (λ k q. omega arith) ((rec d w).run s h);
      }

-- On a bus that reads bytes, from a well-formed machine and for every budget below 2^31,
-- `run_until_rts` does not panic, so that its `i32` depth does not overflow: it stops by an error of
-- the interpreter, or it returns a number of steps that is positive and within the budget, with the
-- machine well formed.
pub run_until_rts-Stops :
    {bus : Bus} (laws : ByteBus bus) (max_steps : ℕ) (s : Machine bus)
    → max_steps < 0x8000_0000
    → IsMachine laws s
    → Stops laws
        (λ k. (0 < k) × (k ≤ max_steps))
        (run_until_rts max_steps s).0
        (run_until_rts max_steps s).1
unfolding run_until_rts
run_until_rts-Stops laws max_steps s b h =
    Stops-mono laws _ _ _ _ (λ k q. omega arith)
      ((run_from-Halts max_steps 0 0 (omega arith) (omega arith)).run s h)
