-- ===== src/Z80Emu/Hoare.antt =====
-- What an operation of the interpreter keeps: from a machine with bytes and words where they belong
-- it does not panic, and it leaves such a machine whether it ends or stops by an error.
use nes_to_sms.Base.{
  arith, ℕ, ◌<◌, ◌==◌, Bool, true, false, Result, ok, err, List, [], ◌∷◌, if◌then◌else◌,
}
use nes_to_sms.Z80Emu.Cpu.{Cpu, high, low}
use nes_to_sms.Z80Emu.Machine.{
  Bus, flat_bus, Stop, panic, StepError, step_error, Machine, M, pure, fail, ◌>>=◌, after, get_cpu,
  modify, read, write, in_port, out_port, fetch_byte, fetch_word, push_word, pop_word, read_operand,
  write_operand, arm_of,
}
use nes_to_sms.Z80Emu.Bounds.{IsCpu, word-lt, read_r-lt, write_r-IsCpu}

-- What the interpreter relies on of a bus: a state of the memory in which it gives bytes.
pub record ByteBus (bus : Bus) : Type 1 where
  pub IsMem : bus.Mem → Type 0
  pub read_lt : (a : ℕ) (m : bus.Mem) → IsMem m → (bus.read_byte a m).0 < 256
  pub read_kept : (a : ℕ) (m : bus.Mem) → IsMem m → IsMem (bus.read_byte a m).1
  pub write_kept : (a v : ℕ) (m : bus.Mem) → v < 256 → IsMem m → IsMem (bus.write_byte a v m)
  pub in_lt : (p : ℕ) (m : bus.Mem) → IsMem m → (bus.in_port p m).0 < 256
  pub in_kept : (p : ℕ) (m : bus.Mem) → IsMem m → IsMem (bus.in_port p m).1
  pub out_kept : (p v : ℕ) (m : bus.Mem) → v < 256 → IsMem m → IsMem (bus.out_port p v m)

abbrev pub Any : {A : Type 0} → A → Type 0
Any a = Unit {0}

abbrev pub IsByte : ℕ → Type 0
IsByte v = v < 256

abbrev pub IsWord : ℕ → Type 0
IsWord v = v < 65536

module _ {bus : Bus} (laws : ByteBus bus) where
  pub record IsMachine (s : Machine bus) : Type 0 where
    pub cpu_ok : IsCpu s.cpu
    pub mem_ok : laws.IsMem s.mem

  abbrev pub Ends : {A : Type 0} → (A → Type 0) → Result Stop A → Machine bus → Type 0
  Ends Q (ok a) s = Q a × IsMachine s
  Ends Q (err (step_error e)) s = IsMachine s
  Ends Q (err panic) s = ⊥

  mono-Ends :
      {A : Type 0} {Q R : A → Type 0} (r : Result Stop A) (s : Machine bus)
      → ((a : A) → Q a → R a)
      → Ends Q r s
      → Ends R r s
  mono-Ends (ok a) s k e = (k a e.0, e.1)
  mono-Ends (err (step_error x)) s k e = e
  mono-Ends (err panic) s k e = absurd e

  pub record Safe {A : Type 0} (Q : A → Type 0) (m : M bus A) : Type 0 where
    pub run : (s : Machine bus) → IsMachine s → Ends Q (m s).0 (m s).1

  -- Every arm of a list.
  infixr 6 ◌⊳◌
  pub data ArmsSafe : List (ℕ × M bus (Unit {0})) → Type 0 where
    no_arms : ArmsSafe []
    ◌⊳◌ :
        {code : ℕ} {arm : M bus (Unit {0})} {arms : List (ℕ × M bus (Unit {0}))}
        → Safe Any arm
        → ArmsSafe arms
        → ArmsSafe ((code, arm) ∷ arms)

module _ {bus : Bus} {laws : ByteBus bus} where
  pub pure-Safe : {A : Type 0} {Q : A → Type 0} (a : A) → Q a → Safe laws Q (pure a)
  unfolding pure
  pure-Safe a q = record { run = λ s h. (q, h) }

  pub fail-Safe :
      {A : Type 0} {Q : A → Type 0} (e : StepError) → Safe laws Q (fail {A = A} (step_error e))
  unfolding fail
  fail-Safe e = record { run = λ s h. h }

  after-Ends :
      {A B : Type 0} {Q : A → Type 0} {R : B → Type 0} (r : Result Stop A) (s : Machine bus)
      (f : A → M bus B)
      → Ends laws Q r s
      → ((a : A) → Q a → Safe laws R (f a))
      → Ends laws R (after r s f).0 (after r s f).1
  unfolding after
  after-Ends (ok a) s f e k = (k a e.0).run s e.1
  after-Ends (err (step_error x)) s f e k = e
  after-Ends (err panic) s f e k = absurd e

  pub bind-Safe :
      {A B : Type 0} {Q : A → Type 0} {R : B → Type 0} {m : M bus A} {f : A → M bus B}
      → Safe laws Q m
      → ((a : A) → Q a → Safe laws R (f a))
      → Safe laws R (m >>= f)
  unfolding ◌>>=◌
  bind-Safe {m} {f} h k = record { run = λ s v. after-Ends (m s).0 (m s).1 f (h.run s v) k }

  pub then-Safe :
      {B : Type 0} {R : B → Type 0} {m : M bus (Unit {0})} {k : M bus B}
      → Safe laws Any m
      → Safe laws R k
      → Safe laws R (m >>= λ _. k)
  then-Safe h k = bind-Safe h (λ a q. k)

  -- A stronger result serves for a weaker one.
  pub mono-Safe :
      {A : Type 0} {Q R : A → Type 0} {m : M bus A}
      → ((a : A) → Q a → R a)
      → Safe laws Q m
      → Safe laws R m
  mono-Safe {m} k h = record { run = λ s v. mono-Ends laws (m s).0 (m s).1 k (h.run s v) }

  pub get_cpu-Safe : Safe laws IsCpu get_cpu
  unfolding get_cpu
  get_cpu-Safe = record { run = λ s h. (h.cpu_ok, h) }

  pub modify-Safe : {f : Cpu → Cpu} → ((r : Cpu) → IsCpu r → IsCpu (f r)) → Safe laws Any (modify f)
  unfolding modify
  modify-Safe k = record {
    run = λ s h. (tt, record { cpu_ok = k s.cpu h.cpu_ok; mem_ok = h.mem_ok });
  }

  pub read-Safe : (a : ℕ) → Safe laws IsByte (read a)
  unfolding read
  read-Safe a = record {
    run = λ s h. (
      laws.read_lt a s.mem h.mem_ok,
      record { cpu_ok = h.cpu_ok; mem_ok = laws.read_kept a s.mem h.mem_ok },
    );
  }

  pub write-Safe : (a v : ℕ) → v < 256 → Safe laws Any (write a v)
  unfolding write
  write-Safe a v hv = record {
    run = λ s h. (tt, record { cpu_ok = h.cpu_ok; mem_ok = laws.write_kept a v s.mem hv h.mem_ok });
  }

  pub in_port-Safe : (p : ℕ) → Safe laws IsByte (in_port p)
  unfolding in_port
  in_port-Safe p = record {
    run = λ s h. (
      laws.in_lt p s.mem h.mem_ok,
      record { cpu_ok = h.cpu_ok; mem_ok = laws.in_kept p s.mem h.mem_ok },
    );
  }

  pub out_port-Safe : (p v : ℕ) → v < 256 → Safe laws Any (out_port p v)
  unfolding out_port
  out_port-Safe p v hv = record {
    run = λ s h. (tt, record { cpu_ok = h.cpu_ok; mem_ok = laws.out_kept p v s.mem hv h.mem_ok });
  }

  pub if-Safe :
      {A : Type 0} {Q : A → Type 0} (b : Bool) {m n : M bus A}
      → Safe laws Q m
      → Safe laws Q n
      → Safe laws Q (if b then m else n)
  if-Safe true hm hn = hm
  if-Safe false hm hn = hn

  pub arm_of-Safe :
      (op : ℕ) {arms : List (ℕ × M bus (Unit {0}))} {other : M bus (Unit {0})}
      → ArmsSafe laws arms
      → Safe laws Any other
      → Safe laws Any (arm_of op arms other)
  unfolding arm_of
  arm_of-Safe op no_arms o = o
  arm_of-Safe op (◌⊳◌ {code} h hs) o = if-Safe (op == code) h (arm_of-Safe op hs o)

  pub fetch_byte-Safe : Safe laws IsByte fetch_byte
  unfolding fetch_byte
  fetch_byte-Safe = bind-Safe get_cpu-Safe λ r hr.
      bind-Safe (read-Safe _) λ b hb. then-Safe (modify-Safe λ r h. ground arith) (pure-Safe b hb)

  pub fetch_word-Safe : Safe laws IsWord fetch_word
  unfolding fetch_word
  fetch_word-Safe =
      bind-Safe fetch_byte-Safe
        λ lo hl. bind-Safe fetch_byte-Safe λ hi hh. pure-Safe _ (word-lt hi lo hh hl)

  pub push_word-Safe : (v : ℕ) → Safe laws Any (push_word v)
  unfolding push_word
  push_word-Safe v = then-Safe (modify-Safe λ r h. ground arith) (
      bind-Safe get_cpu-Safe λ r hr. then-Safe (write-Safe _ (high v) (omega arith)) (
        then-Safe (modify-Safe λ r h. ground arith)
          (bind-Safe get_cpu-Safe λ r hr. write-Safe _ (low v) (omega arith))))

  pub pop_word-Safe : Safe laws IsWord pop_word
  unfolding pop_word
  pop_word-Safe = bind-Safe get_cpu-Safe λ r hr. bind-Safe (read-Safe _) λ lo hl.
      then-Safe (modify-Safe λ r h. ground arith) (
        bind-Safe get_cpu-Safe λ r hr.
          bind-Safe (read-Safe _) λ hi hh.
            then-Safe (modify-Safe λ r h. ground arith) (pure-Safe _ (word-lt hi lo hh hl)))

  pub read_operand-Safe : (n : ℕ) → Safe laws IsByte (read_operand n)
  unfolding read_operand
  read_operand-Safe n =
      bind-Safe get_cpu-Safe λ r hr. if-Safe (n == 6) (read-Safe _) (pure-Safe _ (read_r-lt n r hr))

  pub write_operand-Safe : (n v : ℕ) → v < 256 → Safe laws Any (write_operand n v)
  unfolding write_operand
  write_operand-Safe n v hv =
      bind-Safe get_cpu-Safe
        λ r hr. if-Safe (n == 6) (write-Safe _ v hv) (modify-Safe λ r h. write_r-IsCpu n v r hv h)

pub flat_write-lt :
    (m : ℕ → ℕ) (a v b : ℕ) → v < 256 → m b < 256 → flat_bus.write_byte a v m b < 256
flat_write-lt m a v b hv h = ground arith

-- The flat memory meets the laws when every cell holds a byte.
abbrev pub flat_laws : ByteBus flat_bus
flat_laws = record {
  IsMem = λ m. (a : ℕ) → m a < 256;
  read_lt = λ a m h. h a;
  read_kept = λ a m h. h;
  write_kept = λ a v m hv h b. flat_write-lt m a v b hv (h b);
  in_lt = λ p m h. omega arith;
  in_kept = λ p m h. h;
  out_kept = λ p v m hv h. h;
}
