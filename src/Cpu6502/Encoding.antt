-- ===== src/Cpu6502/Encoding.antt =====
-- crates/cpu6502/src/lib.rs, `decode_at`: what the decoder reads and what it returns, against an
-- encoder written for the purpose.
use nes_to_sms.Base.{
  ℕ, zero, suc, ◌+◌, ◌/◌, ◌%◌, ◌<◌, ◌≤◌, ◌≡◌, refl, sym, ap, ◌∙◌, arith, List, [], ◌∷◌, ◌++◌,
  get_elem?, get_or, length, take, drop, Option, none, some, ok, get_elem?-drop,
  get_elem?-append_left, length-drop, length-append,
}
use mathlib.Core.Option
use native.Mathlib.Nat.{add-zero}
use nes_to_sms.Cpu6502.Isa.{
  AddrMode, implied, operand_bytes, Operand, absent, imm, addr, rel, Instruction,
}
use nes_to_sms.Cpu6502.Table.{opcode_info}
use nes_to_sms.Cpu6502.Decode.{operand_of, decoded, decode_at}

abbrev pub IsBytes : List ℕ → Type 0
IsBytes [] = Unit
IsBytes (x ∷ xs) = (x < 256) × IsBytes xs

-- An operand in `n` bytes, low byte first.
abbrev pub operand_code : ℕ → Operand → List ℕ
operand_code n absent = []
operand_code n (imm v) = v ∷ []
operand_code n (rel b) = b ∷ []
operand_code (suc (suc n)) (addr a) = a % 256 ∷ a / 256 ∷ []
operand_code _ (addr a) = a ∷ []

abbrev pub encode : Instruction → List ℕ
encode i = i.opcode ∷ operand_code (operand_bytes i.mode) i.operand

pub get_or-lt : (xs : List ℕ) (i : ℕ) → IsBytes xs → get_or xs i 0 < 256
get_or-lt [] i h = omega arith
get_or-lt (x ∷ xs) zero h = h.0
get_or-lt (x ∷ xs) (suc i) h = get_or-lt xs i h.1

pub operand_bytes-le : (m : AddrMode) → operand_bytes m ≤ 2
unfolding operand_bytes
operand_bytes-le implied = omega arith
operand_bytes-le _ = omega arith

operand_code-operand_of :
    (m : AddrMode) (lo hi : ℕ)
    → lo < 256
    → operand_code (operand_bytes m) (operand_of m lo hi) ≡ take (operand_bytes m) (lo ∷ hi ∷ [])
unfolding operand_bytes operand_of
operand_code-operand_of implied lo hi h = refl
operand_code-operand_of _ lo hi h = ground arith

take_three :
    (n : ℕ) (u : List ℕ)
    → n ≤ 2
    → n < length u
    → take (suc n) u ≡ get_or u 0 0 ∷ take n (get_or u 1 0 ∷ get_or u 2 0 ∷ [])
take_three n [] h k = absurd (omega arith)
take_three zero (x ∷ u) h k = refl
take_three (suc zero) (x ∷ []) h k = absurd (omega arith)
take_three (suc zero) (x ∷ y ∷ u) h k = refl
take_three (suc (suc zero)) (x ∷ []) h k = absurd (omega arith)
take_three (suc (suc zero)) (x ∷ y ∷ []) h k = absurd (omega arith)
take_three (suc (suc zero)) (x ∷ y ∷ z ∷ u) h k = refl
take_three (suc (suc (suc n))) u h k = absurd (omega arith)

-- `i` is what the bytes at `offset` mean, all of its bytes being there.
abbrev pub IsDecoded : List ℕ → ℕ → ℕ → ℕ → Instruction → Type 0
IsDecoded bytes pc offset opcode i =
    (get_elem? bytes offset ≡ some opcode)
    × (offset + 1 + operand_bytes (opcode_info opcode).mode ≤ length bytes)
    × (i ≡ decoded bytes pc offset opcode)

decode_at-IsDecoded :
    (bytes : List ℕ) (pc offset : ℕ) {i : Instruction}
    → decode_at bytes pc offset ≡ ok i
    → (opcode : ℕ) × IsDecoded bytes pc offset opcode i
unfolding decode_at
decode_at-IsDecoded bytes pc offset {i} h = go (get_elem? bytes offset) refl
  where
    go :
        (o : Option ℕ)
        → get_elem? bytes offset ≡ o
        → (opcode : ℕ) × IsDecoded bytes pc offset opcode i
    go none e = ground arith
    go (some opcode) e = (opcode, (e, ground arith, ground arith))

pub IsDecoded-decode_at :
    (bytes : List ℕ) (pc offset opcode : ℕ)
    → get_elem? bytes offset ≡ some opcode
    → offset + 1 + operand_bytes (opcode_info opcode).mode ≤ length bytes
    → decode_at bytes pc offset ≡ ok (decoded bytes pc offset opcode)
unfolding decode_at
IsDecoded-decode_at bytes pc offset opcode e h = ground arith

get_or-drop : (bytes : List ℕ) (n i : ℕ) → get_or (drop n bytes) i 0 ≡ get_or bytes (n + i) 0
get_or-drop bytes n i = ap (λ (o : Option ℕ). Option.get_or o 0) (get_elem?-drop n i bytes)

encode-decoded :
    (bytes : List ℕ) (pc offset opcode : ℕ)
    → IsBytes bytes
    → get_elem? bytes offset ≡ some opcode
    → offset + 1 + operand_bytes (opcode_info opcode).mode ≤ length bytes
    → encode (decoded bytes pc offset opcode)
      ≡ take (decoded bytes pc offset opcode).size (drop offset bytes)
unfolding decoded
encode-decoded bytes pc offset opcode b e room =
    let mode = (opcode_info opcode).mode in
    let lo = get_or bytes (offset + 1) 0 in
    let hi = get_or bytes (offset + 2) 0 in
    let size_suc : 1 + operand_bytes mode ≡ suc (operand_bytes mode) = omega arith in
    let here : get_or (drop offset bytes) 0 0 ≡ opcode =
      get_or-drop bytes offset 0
      ∙ ap (λ (o : Option ℕ). Option.get_or o 0) (ap (get_elem? bytes) (add-zero offset) ∙ e) in
    rw
      (
        operand_code-operand_of mode lo hi (get_or-lt bytes (offset + 1) b),
        size_suc,
        take_three (operand_bytes mode) (drop offset bytes) (operand_bytes-le mode)
            (omega (arith, length-drop offset bytes, room)),
        here,
        get_or-drop bytes offset 1,
        get_or-drop bytes offset 2,
      )
      refl

-- Decoding a list of bytes loses nothing: encoding a decoded instruction gives back exactly the bytes at
-- `offset`, as many as its `size`, which lie inside the input; its `pc` is the given one.
pub encode-decode_at :
    (bytes : List ℕ) (pc offset : ℕ) {i : Instruction}
    → IsBytes bytes
    → decode_at bytes pc offset ≡ ok i
    → (encode i ≡ take i.size (drop offset bytes)) × (offset + i.size ≤ length bytes) × (i.pc ≡ pc)
encode-decode_at bytes pc offset {i} b h =
    let (opcode, d) = decode_at-IsDecoded bytes pc offset h in
    rw d.2 (
      encode-decoded bytes pc offset opcode b d.0 d.1,
      unfold decoded in omega (arith, d.1),
      unfold decoded in refl,
    )

operand_of_agree :
    (m : AddrMode) (lo hi lo' hi' : ℕ)
    → (0 < operand_bytes m → lo ≡ lo')
    → (1 < operand_bytes m → hi ≡ hi')
    → operand_of m lo hi ≡ operand_of m lo' hi'
unfolding operand_bytes operand_of
operand_of_agree implied lo hi lo' hi' p q = refl
operand_of_agree _ lo hi lo' hi' p q = ground arith

decoded-append :
    (bytes more : List ℕ) (pc offset opcode : ℕ)
    → offset + 1 + operand_bytes (opcode_info opcode).mode ≤ length bytes
    → decoded (bytes ++ more) pc offset opcode ≡ decoded bytes pc offset opcode
unfolding decoded
decoded-append bytes more pc offset opcode room =
    let mode = (opcode_info opcode).mode in
    let agree = λ (k : ℕ) (below : k < length bytes).
      ap (λ (o : Option ℕ). Option.get_or o 0) (get_elem?-append_left k bytes more below) in
    rw
      (operand_of_agree mode _ _ _ _ (λ p. agree (offset + 1) (omega arith))
        (λ p. agree (offset + 2) (omega arith)))
      refl

-- Bytes after the instruction do not matter: what decodes from a slice decodes to the same
-- instruction from any longer one.
pub decode_at-append :
    (bytes more : List ℕ) (pc offset : ℕ) {i : Instruction}
    → decode_at bytes pc offset ≡ ok i
    → decode_at (bytes ++ more) pc offset ≡ ok i
decode_at-append bytes more pc offset {i} h =
    let (opcode, d) = decode_at-IsDecoded bytes pc offset h in
    IsDecoded-decode_at (bytes ++ more) pc offset opcode
      (get_elem?-append_left offset bytes more (omega (arith, d.1)) ∙ d.0)
      (omega (arith, length-append {0} bytes more, d.1))
    ∙ ap ok (decoded-append bytes more pc offset opcode d.1 ∙ sym d.2)
