-- ===== src/Assets/Convert.antt =====
-- crates/assets/src/lib.rs: tiles, palettes and nametables of the NES into those of the SMS. An index out of
-- range of a slice or an array would panic; the indices are in range, and 0 stands in their place.
use nes_to_sms.Base.{
  ℕ, zero, suc, ◌+◌, ◌-◌, ◌*◌, ◌/◌, ◌^◌, ◌==◌, bit_and, bit_or, List, [], ◌∷◌, ◌++◌, length, get_or,
  set, if◌then◌else◌,
}

abbrev pub nes_master_palette : List (ℕ × ℕ × ℕ)
nes_master_palette =
    (84, 84, 84)
    ∷ (0, 30, 116)
    ∷ (8, 16, 144)
    ∷ (48, 0, 136)
    ∷ (68, 0, 100)
    ∷ (92, 0, 48)
    ∷ (84, 4, 0)
    ∷ (60, 24, 0)
    ∷ (32, 42, 0)
    ∷ (8, 58, 0)
    ∷ (0, 64, 0)
    ∷ (0, 60, 0)
    ∷ (0, 50, 60)
    ∷ (0, 0, 0)
    ∷ (0, 0, 0)
    ∷ (0, 0, 0)
    ∷ (152, 150, 152)
    ∷ (8, 76, 196)
    ∷ (48, 50, 236)
    ∷ (92, 30, 228)
    ∷ (136, 20, 176)
    ∷ (160, 20, 100)
    ∷ (152, 34, 32)
    ∷ (120, 60, 0)
    ∷ (84, 90, 0)
    ∷ (40, 114, 0)
    ∷ (8, 124, 0)
    ∷ (0, 118, 40)
    ∷ (0, 102, 120)
    ∷ (0, 0, 0)
    ∷ (0, 0, 0)
    ∷ (0, 0, 0)
    ∷ (236, 238, 236)
    ∷ (76, 154, 236)
    ∷ (120, 124, 236)
    ∷ (176, 98, 236)
    ∷ (228, 84, 236)
    ∷ (236, 88, 180)
    ∷ (236, 106, 100)
    ∷ (212, 136, 32)
    ∷ (160, 170, 0)
    ∷ (116, 196, 0)
    ∷ (76, 208, 32)
    ∷ (56, 204, 108)
    ∷ (56, 180, 204)
    ∷ (60, 60, 60)
    ∷ (0, 0, 0)
    ∷ (0, 0, 0)
    ∷ (236, 238, 236)
    ∷ (168, 204, 236)
    ∷ (188, 188, 236)
    ∷ (212, 178, 236)
    ∷ (236, 174, 236)
    ∷ (236, 174, 212)
    ∷ (236, 180, 176)
    ∷ (228, 196, 144)
    ∷ (204, 210, 120)
    ∷ (180, 222, 120)
    ∷ (168, 226, 144)
    ∷ (152, 226, 180)
    ∷ (160, 214, 228)
    ∷ (160, 162, 160)
    ∷ (0, 0, 0)
    ∷ (0, 0, 0)
    ∷ []

-- `for i in 0..n` on what the body changes.
abbrev pub for_range {ℓ} : {A : Type ℓ} → ℕ → (ℕ → A → A) → A → A
for_range zero body s = s
for_range (suc n) body s = body n (for_range n body s)

-- `vec![0u8; n]`.
abbrev pub zeros : ℕ → List ℕ
zeros zero = []
zeros (suc n) = 0 ∷ zeros n

unfoldable pub copy_row : List ℕ → (t y : ℕ) → List ℕ → List ℕ
copy_row chr t y out =
    let row_base = t * 32 + y * 4 in
    set (set out row_base (get_or chr (t * 16 + y) 0)) (row_base + 1)
      (get_or chr (t * 16 + 8 + y) 0)

unfoldable pub copy_tile : List ℕ → ℕ → List ℕ → List ℕ
unfolding copy_row
copy_tile chr t = for_range 8 (copy_row chr t)

unfoldable pub sms_tile_count : ℕ → ℕ
sms_tile_count chr_len = chr_len / 16

unfoldable pub nes_chr_to_sms_4bpp : List ℕ → List ℕ
unfolding copy_tile
nes_chr_to_sms_4bpp chr =
    let tile_count = length chr / 16 in
    for_range tile_count (copy_tile chr) (zeros (tile_count * 32))

unfoldable pub pixel_to_rgb : ℕ → ℕ × ℕ × ℕ
pixel_to_rgb pixel =
    let v =
      if bit_and pixel 3 == 0
      then 255
      else (if bit_and pixel 3 == 1 then 170 else (if bit_and pixel 3 == 2 then 85 else 0)) in
    (v, v, v)

unfoldable pub nes_palette_to_sms_color : ℕ → ℕ
nes_palette_to_sms_color nes_index =
    let (r, g, b) = get_or nes_master_palette (bit_and nes_index 0x3f) (0, 0, 0) in
    bit_or (bit_or (r / 64) (g / 64 * 4)) (b / 64 * 16)

unfoldable pub nes_palettes_to_sms_cram : List ℕ → List ℕ
unfolding nes_palette_to_sms_color
nes_palettes_to_sms_cram nes_palettes =
    for_range 32 (λ i cram. set cram i (nes_palette_to_sms_color (get_or nes_palettes i 0)))
      (zeros 32)

-- `out.push(tile_index); out.push(0x00)` for the rows 1 to 28.
unfoldable pub nes_nametable_to_sms : List ℕ → List ℕ
nes_nametable_to_sms nes_nt =
    for_range 28
      (λ row. for_range 32 (λ col out. out ++ get_or nes_nt ((row + 1) * 32 + col) 0 ∷ 0x00 ∷ []))
      []

-- One pixel from the bits `7 - x` of two planes.
abbrev pub two_planes : (p0 p1 x : ℕ) → ℕ
two_planes p0 p1 x = bit_or (bit_and (p0 / 2 ^ (7 - x)) 1) (bit_and (p1 / 2 ^ (7 - x)) 1 * 2)

unfoldable pub decode_nes_tile : List ℕ → List ℕ
decode_nes_tile tile =
    for_range 8
      (λ y. for_range 8 (λ x pixels.
        set pixels (y * 8 + x) (two_planes (get_or tile y 0) (get_or tile (y + 8) 0) x)))
      (zeros 64)
