-- ===== src/Memory/Suspension/Roundtrip.antt =====
-- A segment that was written to Swap reads back.
use tp_2026_1c_malloc_and_cr.Base.{
  ℕ, zero, suc, ◌+◌, ◌-◌, ◌*◌, ◌/◌, ◌%◌, ◌≤◌, ◌<◌, ◌≡◌, ◌∙◌, refl, ap, subst, Bool, true, false,
  ltb, Bool-cases, inl, inr, leb, some, List, ◌∷◌, take, u32_mod, add32, sub32, arith,
}
use tp_2026_1c_malloc_and_cr.Messages.{int_negativo}
use tp_2026_1c_malloc_and_cr.Stick.{copiar_de, copiar_a}
use tp_2026_1c_malloc_and_cr.Stick.Access.{copiar_a-fuera}
use tp_2026_1c_malloc_and_cr.Fragments.Store.{copiar_de_ext, copiar_a-copiar_de}
use tp_2026_1c_malloc_and_cr.Swap.{escribir_bloque, leer_bloque}
use tp_2026_1c_malloc_and_cr.Memory.Suspension.{
  bloques_necesarios, tamano_parcial, enviado, escribir_bloques, leer_bloques,
  escribir_segmento_en_swap, leer_segmento_de_swap,
}

take-copiar_de : (f : ℕ → ℕ) (dir k n : ℕ) → k ≤ n → take k (copiar_de f dir n) ≡ copiar_de f dir k
unfolding copiar_de
take-copiar_de f dir zero n h = refl
take-copiar_de f dir (suc k) zero h = absurd (omega arith)
take-copiar_de f dir (suc k) (suc n) h =
    ap (λ l. f dir ∷ l) (take-copiar_de f (dir + 1) k n (omega arith))

suc_mul : (m b : ℕ) → (m + 1) * b ≡ m * b + b
suc_mul m b = omega arith

parcial_le : (b t o : ℕ) → tamano_parcial b t o ≤ b
parcial_le b t o = ground arith

module _ (block_size tam_seg : ℕ) (basura contenido : ℕ → ℕ) where
  abbrev k_de : ℕ → ℕ
  k_de offset = tamano_parcial block_size tam_seg offset

  abbrev escrito : ℕ → ℕ → ℕ → (ℕ → ℕ) → ℕ → ℕ
  escrito = escribir_bloques block_size basura contenido tam_seg

  abbrev leido : (ℕ → ℕ) → ℕ → ℕ → ℕ → (ℕ → ℕ) → List Bool → ℕ → ℕ
  leido buffer offset bloque n archivo bitmap =
      (leer_bloques block_size buffer tam_seg offset bloque n archivo bitmap).0

  -- The blocks before the first one are not written.
  escribir_antes :
      (offset bloque n : ℕ) (archivo : ℕ → ℕ) (a : ℕ)
      → a < bloque * block_size
      → escrito offset bloque n archivo a ≡ archivo a
  unfolding escribir_bloques escribir_bloque
  escribir_antes offset bloque zero archivo a l = refl
  escribir_antes offset bloque (suc n) archivo a l =
      let s = suc_mul bloque block_size in
      let xs = copiar_de (enviado contenido offset (k_de offset) basura) 0 block_size in
      escribir_antes (offset + k_de offset) (bloque + 1) n _ a (omega (arith, s, l))
      ∙ copiar_a-fuera archivo (bloque * block_size) a xs (ground arith)

  -- The bytes of the first block.
  escribir_primero :
      (offset bloque n : ℕ) (archivo : ℕ → ℕ) (i : ℕ)
      → i < k_de offset
      → escrito offset bloque (suc n) archivo (bloque * block_size + i) ≡ contenido (offset + i)
  unfolding escribir_bloques escribir_bloque
  escribir_primero offset bloque n archivo i l =
      let s = suc_mul bloque block_size in
      let p = parcial_le block_size tam_seg offset in
      let f = enviado contenido offset (k_de offset) basura in
      let este : ltb i (k_de offset) ≡ true = ground (arith, l) in
      escribir_antes (offset + k_de offset) (bloque + 1) n _ (bloque * block_size + i)
        (omega (arith, s, p, l))
      ∙ copiar_a-copiar_de archivo f (bloque * block_size) 0 block_size i (omega (arith, p, l))
      ∙ (let z : 0 + i ≡ i = omega arith in rw (z, este))

  -- What was read before stays.
  leer_antes :
      (buffer : ℕ → ℕ) (offset bloque n : ℕ) (archivo : ℕ → ℕ) (bitmap : List Bool) (i : ℕ)
      → i < offset
      → leido buffer offset bloque n archivo bitmap i ≡ buffer i
  unfolding leer_bloques
  leer_antes buffer offset bloque zero archivo bitmap i l = refl
  leer_antes buffer offset bloque (suc n) archivo bitmap i l =
      let xs = take (k_de offset) (leer_bloque block_size bloque archivo) in
      leer_antes (copiar_a buffer offset xs) (offset + k_de offset) (bloque + 1) n archivo _ i
        (omega arith)
      ∙ copiar_a-fuera buffer offset i xs (ground arith)

  leer_primero :
      (buffer : ℕ → ℕ) (offset bloque n : ℕ) (archivo : ℕ → ℕ) (bitmap : List Bool) (i : ℕ)
      → i < k_de offset
      → leido buffer offset bloque (suc n) archivo bitmap (offset + i)
        ≡ archivo (bloque * block_size + i)
  unfolding leer_bloques leer_bloque
  leer_primero buffer offset bloque n archivo bitmap i l =
      let p = parcial_le block_size tam_seg offset in
      let k = k_de offset in
      leer_antes (copiar_a buffer offset (take k (leer_bloque block_size bloque archivo)))
        (offset + k) (bloque + 1) n archivo _ (offset + i) (omega (arith, l))
      ∙ ap (λ xs. copiar_a buffer offset xs (offset + i))
          (take-copiar_de archivo (bloque * block_size) k block_size p)
      ∙ copiar_a-copiar_de buffer archivo offset (bloque * block_size) k i l

  -- Reading the blocks to which a segment was written gives its contents, whatever follows them in
  -- the last block. The blocks are enough for the segment.
  leer-escribir :
      (n : ℕ) (buffer : ℕ → ℕ) (offset bloque : ℕ) (archivo : ℕ → ℕ) (bitmap : List Bool) (i : ℕ)
      → tam_seg ≤ offset + n * block_size
      → offset ≤ i
      → i < tam_seg
      → leido buffer offset bloque n (escrito offset bloque n archivo) bitmap i ≡ contenido i
  unfolding escribir_bloques leer_bloques
  leer-escribir zero buffer offset bloque archivo bitmap i h l m = absurd (omega arith)
  leer-escribir (suc n) buffer offset bloque archivo bitmap i h l m =
      elim (Bool-cases (ltb i (offset + k_de offset))) [
        | inl primero ↦
            let d : offset + (i - offset) ≡ i = omega arith in
            let c : i - offset < k_de offset = ground arith in
            subst
              (λ x.
                leido buffer offset bloque (suc n) (escrito offset bloque (suc n) archivo) bitmap x
                ≡ contenido x)
              d
              (leer_primero buffer offset bloque n (escrito offset bloque (suc n) archivo) bitmap
                  (i - offset) c
                ∙ escribir_primero offset bloque n archivo (i - offset) c)
        | inr otro ↦
            leer-escribir n _ (offset + k_de offset) (bloque + 1) _ _ i (quedan otro) (ground arith)
              m
      ]
    where
      quedan :
          ltb i (offset + k_de offset) ≡ false → tam_seg ≤ (offset + k_de offset) + n * block_size
      quedan e =
          let s : suc n * block_size ≡ n * block_size + block_size = omega arith in
          ground (arith, e, s, h, m)

alcanzan :
    (tam_seg b : ℕ) → 0 < b → tam_seg + b < u32_mod → tam_seg ≤ bloques_necesarios b tam_seg * b
alcanzan tam_seg b positivo cabe =
    let suma : sub32 (add32 tam_seg b) 1 ≡ tam_seg + b - 1 = omega arith in
    rw suma (
      let n = tam_seg + b - 1 in
      let d : (n / b * b + n % b ≡ n) × (n % b < b) = (omega arith, omega arith) in
      omega (arith, d.0, d.1))

-- Below 2³¹ bytes the loops run.
pub escribir_segmento_en_swap_lem :
    (block_size : ℕ) (basura contenido : ℕ → ℕ) (tam_seg bloque n : ℕ) (archivo : ℕ → ℕ)
    → tam_seg < int_negativo
    → escribir_segmento_en_swap block_size basura contenido tam_seg bloque n archivo
      ≡ some (escribir_bloques block_size basura contenido tam_seg 0 bloque n archivo)
unfolding escribir_segmento_en_swap
escribir_segmento_en_swap_lem block_size basura contenido tam_seg bloque zero archivo l = refl
escribir_segmento_en_swap_lem block_size basura contenido tam_seg bloque (suc n) archivo l =
    let corto : leb int_negativo tam_seg ≡ false = ground (arith, l) in rw corto

pub leer_segmento_de_swap_lem :
    (block_size : ℕ) (buffer : ℕ → ℕ) (tam_seg bloque n : ℕ) (archivo : ℕ → ℕ) (bitmap : List Bool)
    → tam_seg < int_negativo
    → leer_segmento_de_swap block_size buffer tam_seg bloque n archivo bitmap
      ≡ some (leer_bloques block_size buffer tam_seg 0 bloque n archivo bitmap)
unfolding leer_segmento_de_swap
leer_segmento_de_swap_lem block_size buffer tam_seg bloque zero archivo bitmap l = refl
leer_segmento_de_swap_lem block_size buffer tam_seg bloque (suc n) archivo bitmap l =
    let corto : leb int_negativo tam_seg ≡ false = ground (arith, l) in rw corto

-- A segment of less than 2³¹ bytes is written to its blocks of Swap, and read back from them with all
-- its bytes, whatever Swap wrote after them in the last block. The size of a block is positive, and it
-- and the position in the file where the blocks end fit in an `int`.
pub leer_segmento_de_swap-escribir :
    (swap_block_size tam_seg bloque : ℕ) (basura contenido buffer archivo : ℕ → ℕ)
    (bitmap : List Bool)
    → 0 < swap_block_size
    → swap_block_size < int_negativo
    → tam_seg < int_negativo
    → (bloque + bloques_necesarios swap_block_size tam_seg) * swap_block_size < int_negativo
    → let n = bloques_necesarios swap_block_size tam_seg in
      (archivo' : ℕ → ℕ) × (leido : ℕ → ℕ) × (bitmap' : List Bool) × (escribir_segmento_en_swap
          swap_block_size basura contenido tam_seg bloque n archivo
        ≡ some archivo')
      × (leer_segmento_de_swap swap_block_size buffer tam_seg bloque n archivo' bitmap
          ≡ some (leido, bitmap'))
      × (copiar_de leido 0 tam_seg ≡ copiar_de contenido 0 tam_seg)
leer_segmento_de_swap-escribir b tam_seg bloque basura contenido buffer archivo bitmap positivo
      bloque_int corto posicion =
    let n = bloques_necesarios b tam_seg in
    let archivo' = escribir_bloques b basura contenido tam_seg 0 bloque n archivo in
    let leido = leer_bloques b buffer tam_seg 0 bloque n archivo' bitmap in
    let h = alcanzan tam_seg b positivo (omega (arith, bloque_int, corto)) in
    (
      archivo',
      leido.0,
      leido.1,
      escribir_segmento_en_swap_lem b basura contenido tam_seg bloque n archivo corto,
      leer_segmento_de_swap_lem b buffer tam_seg bloque n archivo' bitmap corto,
      copiar_de_ext leido.0 contenido 0 0 tam_seg (λ i l.
          leer-escribir b tam_seg basura contenido n buffer 0 bloque archivo bitmap (0 + i)
            (omega (arith, h)) (omega arith) (omega arith)
          ∙ refl),
    )
