-- ===== src/NesRom/Image.antt =====
-- crates/nes_rom/src/lib.rs: `parse` loses nothing, and what `parse_header` can answer.
use nes_to_sms.Base.{
  ℕ, ◌+◌, ◌*◌, ◌/◌, ◌%◌, ◌<◌, ◌≤◌, ◌≡◌, refl, ap, sym, ◌∙◌, ◌⊎◌, arith, bit_and, bit_or, Bool, true,
  false, List, ◌++◌, length, take, drop, Option, none, some, ok, inl, inr, length-take, length-drop,
  take-append-drop, drop-drop, bit_or-lt, bit_and-lt, bit_and_mask, bit_or_shifted, >>=-eq-ok,
  if◌then◌else◌,
}
use nes_to_sms.Cpu6502.Encoding.{IsBytes, get_or-lt}
use nes_to_sms.NesRom.Header.{
  header_size, trainer_size, Header, prg_len, chr_len, byte_at, nes2_header, ines_header,
  parse_header, Image, trainer_len, prg_start, prg_end, chr_end, slice, image_of, parse,
}

abbrev pub trainer_bytes : Option (List ℕ) → List ℕ
trainer_bytes none = List.[]
trainer_bytes (some t) = t

length-slice :
    (rom : List ℕ) (start len : ℕ) → start + len ≤ length rom → length (slice rom start len) ≡ len
length-slice rom start len h =
    omega (arith, length-take len (drop start rom), length-drop start rom)

-- Cutting a list at a place after its start.
slice-append-drop :
    (rom : List ℕ) (start len : ℕ) → slice rom start len ++ drop (start + len) rom ≡ drop start rom
slice-append-drop rom start len =
    ap (λ (r : List ℕ). slice rom start len ++ r) (sym (drop-drop len start rom))
    ∙ take-append-drop len (drop start rom)

trainer-slice :
    (rom : List ℕ) (h : Header)
    → trainer_bytes (image_of rom h).trainer ≡ slice rom header_size (trainer_len h)
unfolding image_of
trainer-slice rom h = go h.has_trainer
  where
    go :
        (b : Bool)
        → trainer_bytes (if b then some (slice rom header_size trainer_size) else none)
          ≡ slice rom header_size (if b then trainer_size else 0)
    go true = refl
    go false = refl

image_of-append :
    (rom : List ℕ) (h : Header)
    → take header_size rom
        ++ (trainer_bytes (image_of rom h).trainer
            ++ ((image_of rom h).prg ++ ((image_of rom h).chr ++ drop (chr_end h) rom)))
      ≡ rom
unfolding image_of
image_of-append rom h =
    rw
      (
        trainer-slice rom h,
        slice-append-drop rom (prg_end h) (chr_len h),
        slice-append-drop rom (prg_start h) (prg_len h),
        slice-append-drop rom header_size (trainer_len h),
      )
      (take-append-drop header_size rom)

parse-image_of :
    (rom : List ℕ) {image : Image}
    → parse rom ≡ ok image
    → (h : Header) × (parse_header rom ≡ ok h) × (chr_end h ≤ length rom) × (image ≡ image_of rom h)
unfolding parse
parse-image_of rom {image} e =
    let (h, header, rest) = >>=-eq-ok (parse_header rom) _ e in
    (h, header, ground arith, ground arith)

-- A parsed image is the header, the trainer if there is one, the PRG bytes and the CHR bytes of
-- the ROM in this order, with the lengths that the header says, and nothing between them.
pub parse-append :
    (rom : List ℕ) {image : Image}
    → parse rom ≡ ok image
    → (take header_size rom
          ++ (trainer_bytes image.trainer
              ++ (image.prg ++ (image.chr ++ drop (chr_end image.header) rom)))
        ≡ rom)
      × (length (trainer_bytes image.trainer) ≡ trainer_len image.header)
      × (length image.prg ≡ prg_len image.header)
      × (length image.chr ≡ chr_len image.header)
unfolding image_of
parse-append rom {image} e =
    let (h, header, room, same) = parse-image_of rom e in
    rw same (
      image_of-append rom h,
      ap length (trainer-slice rom h) ∙ length-slice rom header_size (trainer_len h) (omega arith),
      length-slice rom (prg_start h) (prg_len h) (omega arith),
      length-slice rom (prg_end h) (chr_len h) (omega arith),
    )

-- Which header fields a ROM of bytes can have.
pub record HeaderFits (h : Header) : Type 0 where
  pub prg_banks_lt : h.prg_banks < 4096
  pub chr_banks_lt : h.chr_banks < 4096
  pub mapper_lt : h.mapper < 4096
  pub submapper_lt : h.submapper < 16

digit_pair : (hi lo : ℕ) → lo < 256 → bit_or (bit_and hi 0x0f * 256) lo ≡ hi % 16 * 256 + lo
digit_pair hi lo h =
    ap (λ (t : ℕ). bit_or (t * 256) lo) (bit_and_mask 4 hi) ∙ bit_or_shifted 8 (hi % 16) lo h

mapper_number-lt :
    (ext hi lo : ℕ)
    → hi < 256
    → lo < 16
    → bit_or (bit_or (bit_and ext 0x0f * 256) (bit_and hi 0xf0)) lo < 4096
mapper_number-lt ext hi lo hh hl =
    bit_or-lt 12 _ _
      (bit_or-lt 12 _ _ (omega (arith, bit_and_mask 4 ext))
        (omega (arith, bit_and-lt 8 hi 0xf0 hh)))
      (omega arith)

nes2_header-HeaderFits : (rom : List ℕ) → IsBytes rom → HeaderFits (nes2_header rom)
unfolding nes2_header
nes2_header-HeaderFits rom b = record {
  prg_banks_lt =
      omega
        (arith, digit_pair (byte_at rom 9) (byte_at rom 4) (get_or-lt rom 4 b), get_or-lt rom 4 b);
  chr_banks_lt = omega (
    arith,
    digit_pair (byte_at rom 9 / 16) (byte_at rom 5) (get_or-lt rom 5 b),
    get_or-lt rom 5 b,
  );
  mapper_lt =
      mapper_number-lt (byte_at rom 8) (byte_at rom 7) (byte_at rom 6 / 16) (get_or-lt rom 7 b)
        (omega (arith, get_or-lt rom 6 b));
  submapper_lt = omega (arith, bit_and_mask 4 (byte_at rom 8 / 16));
}

ines_header-HeaderFits : (rom : List ℕ) → IsBytes rom → HeaderFits (ines_header rom)
unfolding ines_header
ines_header-HeaderFits rom b = record {
  prg_banks_lt = omega (arith, get_or-lt rom 4 b);
  chr_banks_lt = omega (arith, get_or-lt rom 5 b);
  mapper_lt =
      mapper_number-lt 0 (byte_at rom 7) (byte_at rom 6 / 16) (get_or-lt rom 7 b)
        (omega (arith, get_or-lt rom 6 b));
  submapper_lt = omega arith;
}

-- A header that parses from a list of bytes has 12-bit bank counts, a 12-bit mapper number and a
-- 4-bit submapper, whichever kind it is.
pub parse_header-HeaderFits :
    (rom : List ℕ) {h : Header} → IsBytes rom → parse_header rom ≡ ok h → HeaderFits h
unfolding parse_header
parse_header-HeaderFits rom {h} b e = elim kinds [
  | inl same ↦ rw same (nes2_header-HeaderFits rom b)
  | inr same ↦ rw same (ines_header-HeaderFits rom b)
]
  where
    kinds : (h ≡ nes2_header rom) ⊎ (h ≡ ines_header rom)
    kinds = ground arith
