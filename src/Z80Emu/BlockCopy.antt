-- ===== src/Z80Emu/BlockCopy.antt =====
-- crates/z80_emu/src/lib.rs: LDIR as the loop that it is, on the flat memory.
use nes_to_sms.Base.{
  ℕ, zero, suc, ◌+◌, ◌*◌, ◌<◌, ◌≤◌, ◌≡◌, ◌≢◌, refl, sym, ap, ◌∙◌, arith, u16, false, ok,
}
use nes_to_sms.Z80Emu.Cpu.{bc, de, hl}
use nes_to_sms.Z80Emu.Machine.{flat_bus, Machine, M, monad, pure, ◌>>◌}
use nes_to_sms.Z80Emu.Step.{step}
use nes_to_sms.Z80Emu.BlockStep.{At, after_turn, step-ldir, turned-At, turned-pc}
use nes_to_sms.Z80Emu.Bounds.{IsCpu}
use nes_to_sms.Z80Emu.Registers.{de-lt, hl-lt}

-- `n` instructions, one after the other.
unfoldable pub steps : ℕ → M flat_bus (Unit {0})
steps zero = pure tt
steps (suc n) = step >> steps n

-- A byte at a time, from the lowest address on.
copy_forward : (n src dst : ℕ) → (ℕ → ℕ) → ℕ → ℕ
copy_forward zero src dst m = m
copy_forward (suc n) src dst m =
    copy_forward n (u16 (src + 1)) (u16 (dst + 1)) (flat_bus.write_byte dst (m src) m)

later : (d i : ℕ) → u16 (u16 (d + 1) + i) ≡ u16 (d + suc i)
later d i = omega arith

written-other : (m : ℕ → ℕ) (a v b : ℕ) → a ≢ b → flat_bus.write_byte a v m b ≡ m b
written-other m a v b h = ground arith

copy_forward-other :
    (n src dst : ℕ) (m : ℕ → ℕ) (b : ℕ)
    → dst < 65536
    → ((i : ℕ) → i < n → u16 (dst + i) ≢ b)
    → copy_forward n src dst m b ≡ m b
unfolding copy_forward
copy_forward-other zero src dst m b hd h = refl
copy_forward-other (suc n) src dst m b hd h =
    copy_forward-other n (u16 (src + 1)) (u16 (dst + 1)) _ b (omega arith)
      (λ i hi. rw (later dst i) (h (suc i) (omega arith)))
    ∙ written-other m dst (m src) b (λ e. h 0 (omega arith) (omega (arith, e)))

copy_forward-target :
    (n src dst : ℕ) (m : ℕ → ℕ) (i : ℕ)
    → i < n
    → n ≤ 65536
    → src < 65536
    → dst < 65536
    → ((i j : ℕ) → i < n → j < n → u16 (dst + i) ≢ u16 (src + j))
    → copy_forward n src dst m (u16 (dst + i)) ≡ m (u16 (src + i))
unfolding copy_forward
copy_forward-target zero src dst m i hi hn hs hd apart = absurd (omega arith)
copy_forward-target (suc n) src dst m zero hi hn hs hd apart =
    let here : u16 (dst + 0) ≡ dst = omega arith in
    let there : u16 (src + 0) ≡ src = omega arith in
    rw (here, there)
      (copy_forward-other n (u16 (src + 1)) (u16 (dst + 1)) _ dst (omega arith)
          (λ i h e. omega (arith, e))
        ∙ ground arith)
copy_forward-target (suc n) src dst m (suc i) hi hn hs hd apart =
    rw (sym (later dst i), sym (later src i))
      (copy_forward-target n (u16 (src + 1)) (u16 (dst + 1)) _ i (omega arith) (omega arith)
          (omega arith) (omega arith)
          (λ j k hj hk e. apart (suc j) (suc k) (omega arith) (omega arith) (omega (arith, e)))
        ∙ written-other m dst (m src) _
            (λ e. apart 0 (suc i) (omega arith) (omega arith) (omega (arith, e))))

-- An LDIR at `pc` that is to copy `left` bytes to where it does not stand itself.
record Looping (left src dst cycles pc : ℕ) (mem : ℕ → ℕ) (s : Machine flat_bus) : Type 0 where
  left_lt : left < 65536
  src_lt : src < 65536
  dst_lt : dst < 65536
  pc_lt : pc < 65536
  here : s.cpu.pc ≡ pc
  prefix : mem pc ≡ 0xed
  opcode : mem (u16 (pc + 1)) ≡ 0xb0
  clear : (i : ℕ) → i < left → (u16 (dst + i) ≢ pc) × (u16 (dst + i) ≢ u16 (pc + 1))
  at : At left src dst cycles mem s

-- The instruction runs once.
ldir-step :
    {left src dst cycles pc : ℕ} {mem : ℕ → ℕ} (s : Machine flat_bus)
    → Looping left src dst cycles pc mem s
    → step s ≡ (ok tt, after_turn s)
ldir-step s l =
    step-ldir s l.at.running (rw (l.at.memory, l.here) l.prefix) (rw (l.at.memory, l.here) l.opcode)

ldir-turn :
    {n src dst cycles pc : ℕ} {mem : ℕ → ℕ} (s : Machine flat_bus)
    → Looping (suc (suc n)) src dst cycles pc mem s
    → Looping
        (suc n)
        (u16 (src + 1))
        (u16 (dst + 1))
        (cycles + 21)
        pc
        (flat_bus.write_byte dst (mem src) mem)
        (after_turn s)
ldir-turn {n} {src} {dst} {cycles} {pc} {mem} s l =
    let outside = l.clear 0 (omega arith) in
    let dst_lt : dst < 65536 = l.dst_lt in
    let written = λ (b : ℕ) (h : dst ≢ b). written-other mem dst (mem src) b h in
    record {
      left_lt = omega (arith, l.left_lt);
      src_lt = omega arith;
      dst_lt = omega arith;
      pc_lt = l.pc_lt;
      here = turned-pc s (suc n) l.left_lt (rw l.here l.pc_lt) l.at.count ∙ l.here;
      prefix = written pc (λ q. outside.0 (omega (arith, q))) ∙ l.prefix;
      opcode = written (u16 (pc + 1)) (λ q. outside.1 (omega (arith, q))) ∙ l.opcode;
      clear = λ i hi. rw (later dst i) (l.clear (suc i) (omega arith));
      at = turned-At s (suc n) src dst cycles mem l.left_lt l.src_lt l.dst_lt l.at;
    }

-- The first instructions stay at the LDIR.
ldir-stays :
    (k n src dst cycles pc : ℕ) (mem : ℕ → ℕ) (s : Machine flat_bus)
    → k ≤ n
    → Looping (suc n) src dst cycles pc mem s
    → let t = steps k s in (t.0 ≡ ok tt) × (t.1.cpu.pc ≡ pc) × (t.1.cpu.cycles ≡ cycles + 21 * k)
unfolding steps monad
ldir-stays zero n src dst cycles pc mem s h l = (refl, l.here, l.at.time ∙ omega arith)
ldir-stays (suc k) zero src dst cycles pc mem s h l = absurd (omega arith)
ldir-stays (suc k) (suc n) src dst cycles pc mem s h l =
    let total : cycles + 21 * suc k ≡ cycles + 21 + 21 * k = omega arith in
    rw (ldir-step s l, total)
      (ldir-stays k n (u16 (src + 1)) (u16 (dst + 1)) (cycles + 21) pc _ _ (omega arith)
        (ldir-turn s l))

ldir-loop :
    (n src dst cycles pc : ℕ) (mem : ℕ → ℕ) (s : Machine flat_bus)
    → Looping (suc n) src dst cycles pc mem s
    → let t = steps (suc n) s in
      (t.0 ≡ ok tt)
      × (t.1.cpu.pc ≡ u16 (pc + 2))
      × At 0
          (u16 (src + suc n))
          (u16 (dst + suc n))
          (cycles + 21 * n + 16)
          (copy_forward (suc n) src dst mem)
          t.1
unfolding steps monad copy_forward
ldir-loop zero src dst cycles pc mem s l =
    let next = turned-At s zero src dst cycles mem l.left_lt l.src_lt l.dst_lt l.at in
    let there = turned-pc s zero l.left_lt (rw l.here l.pc_lt) l.at.count in
    let total : cycles + 21 * 0 + 16 ≡ cycles + 16 = omega arith in
    rw (ldir-step s l, total) (refl, there ∙ ap (λ (a : ℕ). u16 (a + 2)) l.here, next)
ldir-loop (suc n) src dst cycles pc mem s l =
    let total : cycles + 21 * suc n + 16 ≡ cycles + 21 + 21 * n + 16 = omega arith in
    rw (ldir-step s l, total, sym (later src (suc n)), sym (later dst (suc n)))
      (ldir-loop n (u16 (src + 1)) (u16 (dst + 1)) (cycles + 21) pc _ _ (ldir-turn s l))

-- On the flat bus, for a machine with bytes and words where they belong that runs and stands at an
-- LDIR, with a count BC that is not 0 and a target of that length that meets neither the
-- instruction nor the source: after exactly BC instructions the program counter is behind the LDIR,
-- BC is 0, HL and DE are advanced by the count, each target byte is the source byte at the same
-- place and no other byte has changed; after each smaller number of instructions the program
-- counter is at the LDIR again. Each of the instructions but the last takes 21 cycles, and the last 16.
pub steps-ldir :
    (n : ℕ) (s : Machine flat_bus)
    → suc n < 65536
    → IsCpu s.cpu
    → s.cpu.halted ≡ false
    → bc s.cpu ≡ suc n
    → s.mem s.cpu.pc ≡ 0xed
    → s.mem (u16 (s.cpu.pc + 1)) ≡ 0xb0
    → ((i : ℕ)
        → i < suc n
        → (u16 (de s.cpu + i) ≢ s.cpu.pc) × (u16 (de s.cpu + i) ≢ u16 (s.cpu.pc + 1)))
    → ((i j : ℕ) → i < suc n → j < suc n → u16 (de s.cpu + i) ≢ u16 (hl s.cpu + j))
    → let t = steps (suc n) s in
      (t.0 ≡ ok tt)
      × (t.1.cpu.pc ≡ u16 (s.cpu.pc + 2))
      × (bc t.1.cpu ≡ 0)
      × (hl t.1.cpu ≡ u16 (hl s.cpu + suc n))
      × (de t.1.cpu ≡ u16 (de s.cpu + suc n))
      × (t.1.cpu.cycles ≡ s.cpu.cycles + 21 * n + 16)
      × ((i : ℕ) → i < suc n → t.1.mem (u16 (de s.cpu + i)) ≡ s.mem (u16 (hl s.cpu + i)))
      × ((b : ℕ) → ((i : ℕ) → i < suc n → u16 (de s.cpu + i) ≢ b) → t.1.mem b ≡ s.mem b)
      × ((k : ℕ)
          → k ≤ n
          → let u = steps k s in
            (u.0 ≡ ok tt) × (u.1.cpu.pc ≡ s.cpu.pc) × (u.1.cpu.cycles ≡ s.cpu.cycles + 21 * k))
steps-ldir n s hn ok_cpu running count ed b0 clear apart =
    let hs = hl-lt s.cpu ok_cpu in
    let hd = de-lt s.cpu ok_cpu in
    let start : At (suc n) (hl s.cpu) (de s.cpu) s.cpu.cycles s.mem s = record {
      running = running;
      count = count;
      source = refl;
      target = refl;
      time = refl;
      memory = refl;
    } in
    let l : Looping (suc n) (hl s.cpu) (de s.cpu) s.cpu.cycles s.cpu.pc s.mem s = record {
      left_lt = hn;
      src_lt = hs;
      dst_lt = hd;
      pc_lt = ok_cpu.pc_lt;
      here = refl;
      prefix = ed;
      opcode = b0;
      clear = clear;
      at = start;
    } in
    let (ended, there, at) = ldir-loop n _ _ _ s.cpu.pc s.mem s l in
    let cell = λ (b : ℕ). ap (λ (m : ℕ → ℕ). m b) at.memory in
    (
      ended,
      there,
      at.count,
      at.source,
      at.target,
      at.time,
      λ i hi.
          cell _
          ∙ copy_forward-target (suc n) (hl s.cpu) (de s.cpu) s.mem i hi (omega arith) hs hd apart,
      λ b h. cell b ∙ copy_forward-other (suc n) (hl s.cpu) (de s.cpu) s.mem b hd h,
      λ k hk. ldir-stays k n _ _ _ s.cpu.pc s.mem s hk l,
    )
