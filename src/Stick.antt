-- ===== src/Stick.antt =====
-- memory_stick/src/memory_stick.c: `procesar_lectura` and `procesar_escritura`, on the bytes of a
-- Memory Stick. The delays are left out.
pub mod Access
mod Tests
use tp_2026_1c_malloc_and_cr.Base.{
  ℕ, zero, suc, ◌+◌, Bool, true, false, Option, none, some, List, [], ◌∷◌, length, ltb, ◌==◌,
  if◌then◌else◌, add32,
}

-- The byte array and its size.
pub record Stick : Type 0 where
  pub tamano : ℕ
  pub memoria : ℕ → ℕ

-- `memcpy` out of the array, and into it.
unfoldable pub copiar_de : (ℕ → ℕ) → ℕ → ℕ → List ℕ
copiar_de memoria dir zero = []
copiar_de memoria dir (suc n) = memoria dir ∷ copiar_de memoria (dir + 1) n

unfoldable pub copiar_a : (ℕ → ℕ) → ℕ → List ℕ → ℕ → ℕ
copiar_a memoria dir [] = memoria
copiar_a memoria dir (b ∷ bs) = copiar_a (λ i. if i == dir then b else memoria i) (dir + 1) bs

-- `dir_fisica + (uint32_t) tamanio > (uint32_t) ms->tamano`
abbrev pub fuera_de_limites : Stick → ℕ → ℕ → Bool
fuera_de_limites ms dir tamanio = ltb ms.tamano (add32 dir tamanio)

-- `none` is the answer ERROR_OPERACION; else the answer DATOS_LEIDOS has the bytes.
unfoldable pub procesar_lectura : ℕ → ℕ → Stick → Option (List ℕ)
unfolding copiar_de
procesar_lectura dir tamanio ms =
    if fuera_de_limites ms dir tamanio then none else some (copiar_de ms.memoria dir tamanio)

-- `none` is the answer ERROR_OPERACION; else the answer is IO_OK. The size is that of the data.
unfoldable pub procesar_escritura : ℕ → List ℕ → Stick → Option Stick
unfolding copiar_a
procesar_escritura dir datos ms =
    if fuera_de_limites ms dir (length datos)
    then none
    else some (record ms { memoria = copiar_a ms.memoria dir datos })
