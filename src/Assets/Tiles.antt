-- ===== src/Assets/Tiles.antt =====
-- crates/assets/src/lib.rs: the bytes of the converted tiles.
use mathlib.Core.Path.{subst}
use nes_to_sms.Base.{
  ℕ, zero, suc, ◌+◌, ◌*◌, ◌/◌, ◌%◌, ◌<◌, ◌≤◌, ◌==◌, ltb, ◌≡◌, ◌≢◌, refl, ap, ◌∙◌, arith, true,
  false, some, List, length, length-set, get_elem?, get_elem?-set_same, get_elem?-set_other, get_or,
  set, if◌then◌else◌, ◌&&◌, inl, inr, Bool-cases,
}
use nes_to_sms.Assets.Convert.{
  for_range, zeros, copy_row, copy_tile, sms_tile_count, nes_chr_to_sms_4bpp,
}

-- The byte that belongs at index `i`: plane 0, plane 1 and two empty planes of each row.
abbrev pub plane_byte : List ℕ → ℕ → ℕ
plane_byte chr i =
    if i % 4 == 0
    then get_or chr (i / 32 * 16 + i % 32 / 4) 0
    else (if i % 4 == 1 then get_or chr (i / 32 * 16 + 8 + i % 32 / 4) 0 else 0)

-- Done before index `b`, and still 0 from there on.
record Done (chr : List ℕ) (total b : ℕ) (out : List ℕ) : Type 0 where
  size : length out ≡ total
  cells : (i : ℕ) → i < total → get_elem? out i ≡ some (if ltb i b then plane_byte chr i else 0)

length-zeros : (n : ℕ) → length (zeros n) ≡ n
length-zeros zero = refl
length-zeros (suc n) = ap suc (length-zeros n)

get_elem?-zeros : (n i : ℕ) → i < n → get_elem? (zeros n) i ≡ some 0
get_elem?-zeros zero i h = absurd (omega arith)
get_elem?-zeros (suc n) zero h = refl
get_elem?-zeros (suc n) (suc i) h = get_elem?-zeros n i (omega arith)

first_plane :
    (chr : List ℕ) (i k : ℕ)
    → i % 4 ≡ 0
    → i / 32 * 16 + i % 32 / 4 ≡ k
    → plane_byte chr i ≡ get_or chr k 0
first_plane chr i k e q = ground (arith, e, ap (λ (j : ℕ). get_or chr j 0) q)

second_plane :
    (chr : List ℕ) (i k : ℕ)
    → i % 4 ≡ 1
    → i / 32 * 16 + 8 + i % 32 / 4 ≡ k
    → plane_byte chr i ≡ get_or chr k 0
second_plane chr i k e q = ground (arith, e, ap (λ (j : ℕ). get_or chr j 0) q)

empty_plane : (chr : List ℕ) (i : ℕ) → 2 ≤ i % 4 → plane_byte chr i ≡ 0
empty_plane chr i h = ground arith

copy_row-Done :
    (chr : List ℕ) (total t y : ℕ) (out : List ℕ)
    → y < 8
    → t * 32 + 32 ≤ total
    → Done chr total (t * 32 + y * 4) out
    → Done chr total (t * 32 + y * 4 + 4) (copy_row chr t y out)
unfolding copy_row
copy_row-Done chr total t y out hy ht h = record {
  size = length-set _ (base + 1) p1 ∙ length-set out base p0 ∙ h.size;
  cells = λ i hi. elim (Bool-cases (i == base + 1)) [
    | inl e ↦ rw (to_eq i (base + 1) e) (
        get_elem?-set_same once (base + 1) p1 (omega (arith, len))
        ∙ ap some (second (base + 1) refl))
    | inr n ↦
        get_elem?-set_other once (base + 1) i p1 (λ q. ground (arith, q, n))
        ∙ elim (Bool-cases (i == base)) [
          | inl e ↦
              rw (to_eq i base e)
                (get_elem?-set_same out base p0 (omega (arith, h.size)) ∙ ap some (here base refl))
          | inr m ↦
              get_elem?-set_other out base i p0 (λ q. ground (arith, q, m))
              ∙ h.cells i hi
              ∙ ap some (rest i n m)
        ]
  ];
}
  where
    base : ℕ
    base = t * 32 + y * 4

    p0 : ℕ
    p0 = get_or chr (t * 16 + y) 0

    p1 : ℕ
    p1 = get_or chr (t * 16 + 8 + y) 0

    once : List ℕ
    once = set out base p0

    len : length once ≡ total
    len = length-set out base p0 ∙ h.size

    to_eq : (i j : ℕ) → (i == j) ≡ true → i ≡ j
    to_eq i j e = ground (arith, e)

    here : (i : ℕ) → i ≡ base → p0 ≡ (if ltb i (base + 4) then plane_byte chr i else 0)
    here i e =
        let byte = first_plane chr i (t * 16 + y) (omega arith) (omega arith) in
        ground (arith, byte)

    second : (i : ℕ) → i ≡ base + 1 → p1 ≡ (if ltb i (base + 4) then plane_byte chr i else 0)
    second i e =
        let byte = second_plane chr i (t * 16 + 8 + y) (omega arith) (omega arith) in
        ground (arith, byte)

    rest :
        (i : ℕ)
        → (i == base + 1) ≡ false
        → (i == base) ≡ false
        → (if ltb i base then plane_byte chr i else 0)
          ≡ (if ltb i (base + 4) then plane_byte chr i else 0)
    rest i n m = elim (Bool-cases (ltb base i && ltb i (base + 4))) [
      | inl inside ↦
          let above : base < i = ground (arith, inside) in
          let below : i < base + 4 = ground (arith, inside) in
          let next : i ≢ base + 1 = λ q. ground (arith, q, n) in
          let two : 2 ≤ i % 4 = omega (arith, above, below, next) in
          let byte = empty_plane chr i two in ground (arith, byte)
      | inr outside ↦ ground arith
    ]

copy_tile-Done :
    (chr : List ℕ) (total t : ℕ) (out : List ℕ)
    → t * 32 + 32 ≤ total
    → Done chr total (t * 32) out
    → Done chr total (suc t * 32) (copy_tile chr t out)
unfolding copy_tile
copy_tile-Done chr total t out ht h = rw (last) (rows 8 (omega arith))
  where
    last : suc t * 32 ≡ t * 32 + 8 * 4
    last = omega arith

    rows : (m : ℕ) → m ≤ 8 → Done chr total (t * 32 + m * 4) (for_range m (copy_row chr t) out)
    rows zero hm = subst (λ (b : ℕ). Done chr total b out) (omega arith) h
    rows (suc m) hm =
        subst (λ (b : ℕ). Done chr total b (for_range (suc m) (copy_row chr t) out)) (omega arith)
          (copy_row-Done chr total t m _ (omega arith) ht (rows m (omega arith)))

tiles-Done :
    (chr : List ℕ) (total n : ℕ) (out : List ℕ)
    → n * 32 ≤ total
    → Done chr total 0 out
    → Done chr total (n * 32) (for_range n (copy_tile chr) out)
tiles-Done chr total zero out hn h = h
tiles-Done chr total (suc n) out hn h =
    copy_tile-Done chr total n _ (omega arith) (tiles-Done chr total n out (omega arith) h)

-- For every CHR data, the conversion has 32 bytes for each whole tile, and for each tile, row and plane:
-- planes 0 and 1 are those of the same row of the same NES tile, and planes 2 and 3 are empty, so that
-- both formats show the same pixels; what follows the last whole tile is left out.
pub nes_chr_to_sms_4bpp-planes :
    (chr : List ℕ)
    → let out = nes_chr_to_sms_4bpp chr in
      (length out ≡ 32 * sms_tile_count (length chr))
      × ((t y : ℕ)
          → t < sms_tile_count (length chr)
          → y < 8
          → (get_elem? out (t * 32 + y * 4) ≡ some (get_or chr (t * 16 + y) 0))
            × (get_elem? out (t * 32 + y * 4 + 1) ≡ some (get_or chr (t * 16 + 8 + y) 0))
            × (get_elem? out (t * 32 + y * 4 + 2) ≡ some 0)
            × (get_elem? out (t * 32 + y * 4 + 3) ≡ some 0))
unfolding nes_chr_to_sms_4bpp sms_tile_count
nes_chr_to_sms_4bpp-planes chr =
    let n = length chr / 16 in
    let start : Done chr (n * 32) 0 (zeros (n * 32)) = record {
      size = length-zeros (n * 32);
      cells = λ i hi. get_elem?-zeros (n * 32) i hi ∙ ground arith;
    } in
    let done = tiles-Done chr (n * 32) n (zeros (n * 32)) (omega arith) start in
    let cell = λ (i : ℕ) (h : i < n * 32). done.cells i h ∙ ap some (written n chr i h) in
    (
      done.size ∙ omega arith,
      λ t y ht hy. (
        cell (t * 32 + y * 4) (omega arith)
            ∙ ap some (first_plane chr (t * 32 + y * 4) (t * 16 + y) (omega arith) (omega arith)),
        cell (t * 32 + y * 4 + 1) (omega arith)
            ∙ ap some (
                second_plane chr (t * 32 + y * 4 + 1) (t * 16 + 8 + y) (omega arith) (omega arith)),
        cell (t * 32 + y * 4 + 2) (omega arith)
            ∙ ap some (empty_plane chr (t * 32 + y * 4 + 2) (omega arith)),
        cell (t * 32 + y * 4 + 3) (omega arith)
            ∙ ap some (empty_plane chr (t * 32 + y * 4 + 3) (omega arith)),
      ),
    )
  where
    written :
        (n : ℕ) (chr : List ℕ) (i : ℕ)
        → i < n * 32
        → (if ltb i (n * 32) then plane_byte chr i else 0) ≡ plane_byte chr i
    written n chr i h = ground arith
