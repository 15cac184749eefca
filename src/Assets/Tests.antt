-- ===== src/Assets/Tests.antt =====
-- crates/assets/src/lib.rs: one tile, and a byte that is none.
use nes_to_sms.Base.{ℕ, ◌+◌, ◌*◌, ◌<◌, ◌≡◌, refl, some, List, [], ◌∷◌, length, get_elem?, get_or}
use nes_to_sms.Assets.Convert.{
  sms_tile_count, nes_chr_to_sms_4bpp, nes_palette_to_sms_color, decode_nes_tile,
}
use nes_to_sms.Assets.Tiles.{nes_chr_to_sms_4bpp-planes}

abbrev tile : List ℕ
tile =
    0x81 ∷ 0x42 ∷ 0x24 ∷ 0x18 ∷ 0x18 ∷ 0x24 ∷ 0x42 ∷ 0x81 ∷ 0xff ∷ 0x00 ∷ 0xff ∷ 0x00 ∷ 0xff ∷ 0x00
    ∷ 0xff ∷ 0x00 ∷ 0x55 ∷ []

-- White is the brightest colour of the SMS.
white : nes_palette_to_sms_color 0x30 ≡ 0x3f
unfolding nes_palette_to_sms_color
white = refl

-- Both planes are set in the first pixel, the second alone in the next.
first_pixels :
    (get_elem? (decode_nes_tile tile) 0 ≡ some 3) × (get_elem? (decode_nes_tile tile) 1 ≡ some 2)
unfolding decode_nes_tile
first_pixels = (refl, refl)

nes_chr_to_sms_4bpp-planes_example :
    let out = nes_chr_to_sms_4bpp tile in
    (length out ≡ 32 * sms_tile_count (length tile))
    × ((t y : ℕ)
        → t < sms_tile_count (length tile)
        → y < 8
        → (get_elem? out (t * 32 + y * 4) ≡ some (get_or tile (t * 16 + y) 0))
          × (get_elem? out (t * 32 + y * 4 + 1) ≡ some (get_or tile (t * 16 + 8 + y) 0))
          × (get_elem? out (t * 32 + y * 4 + 2) ≡ some 0)
          × (get_elem? out (t * 32 + y * 4 + 3) ≡ some 0))
nes_chr_to_sms_4bpp-planes_example = nes_chr_to_sms_4bpp-planes tile
