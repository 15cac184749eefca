-- ===== src/Oracle6502/Hoare.antt =====
-- What a monadic operation of the interpreter keeps: from a well-formed machine it ends without
-- an error, in a well-formed machine, with a result that has a given property.
use nes_to_sms.Base.{arith, ℕ, ◌<◌, some, Result, ok, err}
use nes_to_sms.Oracle6502.Cpu.{Cpu}
use nes_to_sms.Oracle6502.Machine.{
  Bus, flat_bus, Stop, Machine, M, pure, ◌>>=◌, after, get_cpu, modify, read, write, unwrap,
}
use nes_to_sms.Oracle6502.Registers.{IsCpu}

-- What the interpreter relies on of a bus: a state of the memory in which reads give bytes.
pub record ByteBus (bus : Bus) : Type 1 where
  pub IsMem : bus.Mem → Type 0
  pub read_lt : (a : ℕ) (m : bus.Mem) → IsMem m → (bus.read_byte a m).0 < 256
  pub read_kept : (a : ℕ) (m : bus.Mem) → IsMem m → IsMem (bus.read_byte a m).1
  pub write_kept : (a v : ℕ) (m : bus.Mem) → v < 256 → IsMem m → IsMem (bus.write_byte a v m)

-- A result of which nothing is said.
abbrev pub Any : {A : Type 0} → A → Type 0
Any a = Unit {0}

abbrev pub IsByte : ℕ → Type 0
IsByte v = v < 256

module _ {bus : Bus} (laws : ByteBus bus) where
  pub record IsMachine (s : Machine bus) : Type 0 where
    pub cpu_ok : IsCpu s.cpu
    pub mem_ok : laws.IsMem s.mem

  abbrev pub Ends : {A : Type 0} → (A → Type 0) → Result Stop A → Machine bus → Type 0
  Ends Q (ok a) s = Q a × IsMachine s
  Ends Q (err e) s = ⊥

  pub record Keeps {A : Type 0} (Q : A → Type 0) (m : M bus A) : Type 0 where
    pub run : (s : Machine bus) → IsMachine s → Ends Q (m s).0 (m s).1

module _ {bus : Bus} {laws : ByteBus bus} where
  pub pure-Keeps : {A : Type 0} {Q : A → Type 0} (a : A) → Q a → Keeps laws Q (pure a)
  unfolding pure
  pure-Keeps a q = record { run = λ s h. (q, h) }

  after-Ends :
      {A B : Type 0} {Q : A → Type 0} {R : B → Type 0} (r : Result Stop A) (s : Machine bus)
      (f : A → M bus B)
      → Ends laws Q r s
      → ((a : A) → Q a → Keeps laws R (f a))
      → Ends laws R (after r s f).0 (after r s f).1
  unfolding after
  after-Ends (ok a) s f e k = (k a e.0).run s e.1
  after-Ends (err x) s f e k = absurd e

  pub bind-Keeps :
      {A B : Type 0} {Q : A → Type 0} {R : B → Type 0} {m : M bus A} {f : A → M bus B}
      → Keeps laws Q m
      → ((a : A) → Q a → Keeps laws R (f a))
      → Keeps laws R (m >>= f)
  unfolding ◌>>=◌
  bind-Keeps {m} {f} h k = record { run = λ s v. after-Ends (m s).0 (m s).1 f (h.run s v) k }

  pub then-Keeps :
      {B : Type 0} {R : B → Type 0} {m : M bus (Unit {0})} {k : M bus B}
      → Keeps laws Any m
      → Keeps laws R k
      → Keeps laws R (m >>= λ _. k)
  then-Keeps h k = bind-Keeps h (λ a q. k)

  pub get_cpu-Keeps : Keeps laws IsCpu get_cpu
  unfolding get_cpu
  get_cpu-Keeps = record { run = λ s h. (h.cpu_ok, h) }

  pub modify-Keeps :
      {f : Cpu → Cpu} → ((c : Cpu) → IsCpu c → IsCpu (f c)) → Keeps laws Any (modify f)
  unfolding modify
  modify-Keeps k = record {
    run = λ s h. (tt, record { cpu_ok = k s.cpu h.cpu_ok; mem_ok = h.mem_ok });
  }

  pub read-Keeps : (a : ℕ) → Keeps laws IsByte (read a)
  unfolding read
  read-Keeps a = record {
    run = λ s h. (
      laws.read_lt a s.mem h.mem_ok,
      record { cpu_ok = h.cpu_ok; mem_ok = laws.read_kept a s.mem h.mem_ok },
    );
  }

  pub write-Keeps : (a v : ℕ) → v < 256 → Keeps laws Any (write a v)
  unfolding write
  write-Keeps a v hv = record {
    run = λ s h. (tt, record { cpu_ok = h.cpu_ok; mem_ok = laws.write_kept a v s.mem hv h.mem_ok });
  }

  pub unwrap-Keeps : {A : Type 0} {Q : A → Type 0} (a : A) → Q a → Keeps laws Q (unwrap (some a))
  unfolding unwrap
  unwrap-Keeps a q = pure-Keeps a q

pub flat_write-lt :
    (m : ℕ → ℕ) (a v b : ℕ) → v < 256 → m b < 256 → flat_bus.write_byte a v m b < 256
flat_write-lt m a v b hv h = ground arith

-- The flat memory meets the laws when every cell holds a byte.
abbrev pub flat_laws : ByteBus flat_bus
flat_laws = record {
  IsMem = λ m. (a : ℕ) → m a < 256;
  read_lt = λ a m h. h a;
  read_kept = λ a m h. h;
  write_kept = λ a v m hv h b. flat_write-lt m a v b hv (h b);
}
