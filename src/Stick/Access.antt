-- ===== src/Stick/Access.antt =====
-- What is written to a Memory Stick is read back.
use tp_2026_1c_malloc_and_cr.Base.{
  ℕ, ◌+◌, ◌≤◌, ◌<◌, ◌≡◌, ◌∙◌, refl, true, false, ◌&&◌, some, List, [], ◌∷◌, length, leb, ltb, ◌==◌,
  if◌then◌else◌, u32_mod, add32, arith,
}
use tp_2026_1c_malloc_and_cr.Stick.{
  Stick, copiar_de, copiar_a, fuera_de_limites, procesar_lectura, procesar_escritura,
}

pub copiar_a-fuera :
    (memoria : ℕ → ℕ) (dir i : ℕ) (datos : List ℕ)
    → (leb dir i && ltb i (dir + length datos)) ≡ false
    → copiar_a memoria dir datos i ≡ memoria i
unfolding copiar_a
copiar_a-fuera memoria dir i [] f = refl
copiar_a-fuera memoria dir i (b ∷ bs) f =
    let otro : (i == dir) ≡ false = ground arith in
    copiar_a-fuera (λ j. if j == dir then b else memoria j) (dir + 1) i bs (ground arith) ∙ rw otro

copiar_ida_y_vuelta :
    (memoria : ℕ → ℕ) (dir : ℕ) (datos : List ℕ)
    → copiar_de (copiar_a memoria dir datos) dir (length datos) ≡ datos
unfolding copiar_de copiar_a
copiar_ida_y_vuelta memoria dir [] = refl
copiar_ida_y_vuelta memoria dir (b ∷ bs) =
    let m : ℕ → ℕ = λ j. if j == dir then b else memoria j in
    let mismo : (dir == dir) ≡ true = ground arith in
    let primero : copiar_a m (dir + 1) bs dir ≡ b =
      copiar_a-fuera m (dir + 1) dir bs (ground arith) ∙ rw mismo in
    rw (primero, copiar_ida_y_vuelta m (dir + 1) bs)

-- A write inside the stick is accepted, the same range then reads back what was written, and every
-- other byte is as it was. The stick is smaller than 2³² bytes.
pub procesar_lectura-escritura :
    (dir : ℕ) (datos : List ℕ) (ms : Stick)
    → ms.tamano < u32_mod
    → dir + length datos ≤ ms.tamano
    → (ms' : Stick) × (procesar_escritura dir datos ms ≡ some ms')
      × (procesar_lectura dir (length datos) ms' ≡ some datos)
      × ((i : ℕ) → (leb dir i && ltb i (dir + length datos)) ≡ false → ms'.memoria i ≡ ms.memoria i)
unfolding procesar_lectura procesar_escritura
procesar_lectura-escritura dir datos ms chico dentro =
    let suma : add32 dir (length datos) ≡ dir + length datos = omega arith in
    let cabe : fuera_de_limites ms dir (length datos) ≡ false = ground arith in
    (
      record ms { memoria = copiar_a ms.memoria dir datos },
      rw (cabe, procesar_escritura),
      rw (cabe, procesar_lectura, copiar_ida_y_vuelta ms.memoria dir datos),
      λ i f. copiar_a-fuera ms.memoria dir i datos f,
    )
