-- ===== src/Swap.antt =====
-- swap/src/swap.c: `escribir_bloque` and `leer_bloque`, on the bytes of the swap file. `int` is taken to
-- hold every position in the file.
use tp_2026_1c_malloc_and_cr.Base.{ℕ, ◌*◌, List}
use tp_2026_1c_malloc_and_cr.Stick.{copiar_de, copiar_a}

-- A whole block is written, whatever the size of the contents: the second argument is the memory from
-- their pointer on.
unfoldable pub escribir_bloque : ℕ → ℕ → (ℕ → ℕ) → (ℕ → ℕ) → (ℕ → ℕ)
unfolding copiar_de copiar_a
escribir_bloque block_size numero_bloque contenido archivo =
    copiar_a archivo (numero_bloque * block_size) (copiar_de contenido 0 block_size)

-- The bytes of the answer DATOS_LEIDOS.
unfoldable pub leer_bloque : ℕ → ℕ → (ℕ → ℕ) → List ℕ
unfolding copiar_de
leer_bloque block_size numero_bloque archivo =
    copiar_de archivo (numero_bloque * block_size) block_size
