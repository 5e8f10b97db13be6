-- ===== src/Memory/Swap.antt =====
-- kernel_memory/src/conexiones.c, `buscar_bloques_libres_swap`: the bitmap of the blocks of Swap. The
-- bit array of the commons library is the list of its bits.
pub mod Blocks
use tp_2026_1c_malloc_and_cr.Base.{
  ℕ, zero, suc, ◌+◌, ◌-◌, Bool, true, false, Option, none, some, List, [], ◌∷◌, get_elem?, set,
  length, ltb, if◌then◌else◌,
}

-- `bitarray_test_bit`; the loops read inside the array only.
abbrev pub probar_bit : List Bool → ℕ → Bool
probar_bit bitmap i = elim (get_elem? bitmap i) [ none ↦ true | some b ↦ b ]

-- The inner loop: no bit of `n` from `bit` on is set.
unfoldable pub hay_espacio : List Bool → ℕ → ℕ → Bool
hay_espacio bitmap bit zero = true
hay_espacio bitmap bit (suc n) = elim (probar_bit bitmap bit) [
  | true ↦ false
  | false ↦ hay_espacio bitmap (bit + 1) n
]

-- The loop that marks the blocks.
unfoldable pub marcar_bloques : List Bool → ℕ → ℕ → List Bool
marcar_bloques bitmap bit zero = bitmap
marcar_bloques bitmap bit (suc n) = marcar_bloques (set bitmap bit true) (bit + 1) n

-- The outer loop, `rondas` rounds from `bit` on.
unfoldable pub buscar_desde : List Bool → ℕ → ℕ → ℕ → Option ℕ
unfolding hay_espacio
buscar_desde bitmap necesarios bit zero = none
buscar_desde bitmap necesarios bit (suc rondas) = elim (hay_espacio bitmap bit necesarios) [
  | true ↦ some bit
  | false ↦ buscar_desde bitmap necesarios (bit + 1) rondas
]

-- The rounds of `for (bit = 0; bit <= max_bit - necesarios; bit++)`, where `max_bit` is the number of
-- bits, and no less than the blocks that are needed.
abbrev pub rondas_de : ℕ → ℕ → ℕ
rondas_de max_bit necesarios = (max_bit + 1) - necesarios

-- The search where the difference does not wrap.
unfoldable pub buscar_bloques : ℕ → List Bool → Option ℕ × List Bool
unfolding buscar_desde marcar_bloques
buscar_bloques necesarios bitmap =
    elim (buscar_desde bitmap necesarios 0 (rondas_de (length bitmap) necesarios)) [
      | none ↦ (none, bitmap)
      | some bit ↦ (some bit, marcar_bloques bitmap bit necesarios)
    ]

-- `max_bit` is a `size_t`: where more blocks are needed than there are, the difference wraps round, no
-- run inside the bitmap is long enough, and the loops read bits past its end: `none`.
unfoldable pub buscar_bloques_libres_swap : ℕ → List Bool → Option (Option ℕ × List Bool)
unfolding buscar_bloques
buscar_bloques_libres_swap necesarios bitmap =
    if ltb (length bitmap) necesarios then none else some (buscar_bloques necesarios bitmap)
