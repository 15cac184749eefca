-- ===== src/Z80Emit/Sections.antt =====
-- crates/z80_emit/src/lib.rs: what a write into one section, and what is added at its end, does to the
-- bytes, the lengths and the origins of all.
use nes_to_sms.Base.{
  ℕ, zero, suc, ◌+◌, ◌<◌, ◌≤◌, ◌≡◌, ◌≢◌, refl, ap, arith, Option, some, List, [], ◌∷◌, ◌++◌, length,
  length-append, length-set, get_elem?, get_elem?-set_same, get_elem?-set_other,
}
use nes_to_sms.Z80Emit.Section
use nes_to_sms.Z80Emit.Program.{at, section_at}
use nes_to_sms.Z80Emit.Finish.{store}

-- The byte at an offset of a section, and the length of a section.
abbrev pub byte_at : (idx offset : ℕ) → List Section.Section → Option ℕ
byte_at idx offset sections = get_elem? (section_at idx sections).bytes offset

abbrev pub size : ℕ → List Section.Section → ℕ
size idx sections = Section.len (section_at idx sections)

pub length-at {ℓ} : {A : Type ℓ} (i : ℕ) (f : A → A) (xs : List A) → length (at i f xs) ≡ length xs
length-at i f [] = refl
length-at zero f (x ∷ xs) = refl
length-at (suc i) f (x ∷ xs) = ap suc (length-at i f xs)

pub section_at-at_same :
    (i : ℕ) (f : Section.Section → Section.Section) (xs : List Section.Section)
    → i < length xs
    → section_at i (at i f xs) ≡ f (section_at i xs)
section_at-at_same i f [] h = absurd (omega arith)
section_at-at_same zero f (x ∷ xs) h = refl
section_at-at_same (suc i) f (x ∷ xs) h = section_at-at_same i f xs (omega arith)

pub section_at-at_other :
    (i j : ℕ) (f : Section.Section → Section.Section) (xs : List Section.Section)
    → i ≢ j
    → section_at j (at i f xs) ≡ section_at j xs
section_at-at_other i j f [] h = refl
section_at-at_other zero zero f (x ∷ xs) h = absurd (h refl)
section_at-at_other zero (suc j) f (x ∷ xs) h = refl
section_at-at_other (suc i) zero f (x ∷ xs) h = refl
section_at-at_other (suc i) (suc j) f (x ∷ xs) h = section_at-at_other i j f xs (λ e. h (ap suc e))

pub byte_at-store_same :
    (s o v : ℕ) (sections : List Section.Section)
    → s < length sections
    → o < size s sections
    → byte_at s o (store s o v sections) ≡ some v
byte_at-store_same s o v [] hs ho = absurd (omega arith)
byte_at-store_same zero o v (x ∷ xs) hs ho = get_elem?-set_same x.bytes o v ho
byte_at-store_same (suc s) o v (x ∷ xs) hs ho = byte_at-store_same s o v xs (omega arith) ho

pub byte_at-store_other :
    (s o v t q : ℕ) (sections : List Section.Section)
    → (s ≡ t → o ≢ q)
    → byte_at t q (store s o v sections) ≡ byte_at t q sections
byte_at-store_other s o v t q [] h = refl
byte_at-store_other zero o v zero q (x ∷ xs) h = get_elem?-set_other x.bytes o q v (h refl)
byte_at-store_other zero o v (suc t) q (x ∷ xs) h = refl
byte_at-store_other (suc s) o v zero q (x ∷ xs) h = refl
byte_at-store_other (suc s) o v (suc t) q (x ∷ xs) h =
    byte_at-store_other s o v t q xs (λ e. h (ap suc e))

pub size-store :
    (s o v t : ℕ) (sections : List Section.Section)
    → size t (store s o v sections) ≡ size t sections
size-store s o v t [] = refl
size-store zero o v zero (x ∷ xs) = length-set x.bytes o v
size-store zero o v (suc t) (x ∷ xs) = refl
size-store (suc s) o v zero (x ∷ xs) = refl
size-store (suc s) o v (suc t) (x ∷ xs) = size-store s o v t xs

pub org-store :
    (s o v t : ℕ) (sections : List Section.Section)
    → (section_at t (store s o v sections)).org ≡ (section_at t sections).org
org-store s o v t [] = refl
org-store zero o v zero (x ∷ xs) = refl
org-store zero o v (suc t) (x ∷ xs) = refl
org-store (suc s) o v zero (x ∷ xs) = refl
org-store (suc s) o v (suc t) (x ∷ xs) = org-store s o v t xs

-- A section that is added leaves the others.
pub section_at-append :
    (i : ℕ) (xs ys : List Section.Section)
    → i < length xs
    → section_at i (xs ++ ys) ≡ section_at i xs
section_at-append i [] ys h = absurd (omega arith)
section_at-append zero (x ∷ xs) ys h = refl
section_at-append (suc i) (x ∷ xs) ys h = section_at-append i xs ys (omega arith)

pub len-push_bytes :
    (bytes : List ℕ) (s : Section.Section)
    → Section.len (Section.push_bytes bytes s) ≡ Section.len s + length bytes
len-push_bytes [] s = omega arith
len-push_bytes (b ∷ bytes) s =
    omega (arith, len-push_bytes bytes (Section.push_byte b s), length-append s.bytes (b ∷ []))

-- What grows a section at its end only grows every length.
pub size-at :
    (i j : ℕ) (f : Section.Section → Section.Section) (xs : List Section.Section)
    → ((s : Section.Section) → Section.len s ≤ Section.len (f s))
    → size j xs ≤ size j (at i f xs)
size-at i j f [] h = omega arith
size-at zero zero f (x ∷ xs) h = h x
size-at zero (suc j) f (x ∷ xs) h = omega arith
size-at (suc i) zero f (x ∷ xs) h = omega arith
size-at (suc i) (suc j) f (x ∷ xs) h = size-at i j f xs h

pub length-store :
    (s o v : ℕ) (sections : List Section.Section) → length (store s o v sections) ≡ length sections
length-store s o v sections = length-at s _ sections
