-- ===== src/Memory/Sticks/Translation.antt =====
-- Cutting an access to the global address space into accesses to the Memory Sticks.
use tp_2026_1c_malloc_and_cr.Base.{ℕ, ◌+◌, ◌≤◌, ◌<◌, ◌≡◌, List, arith}
use tp_2026_1c_malloc_and_cr.Fragments.{bytes_iniciales}
use tp_2026_1c_malloc_and_cr.Fragments.Total.{Fragmentado, fragmentar-Fragmentado}
use tp_2026_1c_malloc_and_cr.Memory.Types.{MsPos}
use tp_2026_1c_malloc_and_cr.Memory.Sticks.{
  calcular_dir_local_ms, base_de, limite_de_ms, fragmento_de,
}
use tp_2026_1c_malloc_and_cr.Memory.Sticks.Connection.{Posiciones}

-- An access of less than 2³¹ bytes inside the memory ends with its fragments: none is empty, each
-- lies in the stick that holds its first address, and in order they are the bytes of the access,
-- each exactly once.
pub calcular_dir_local_ms-Fragmentado :
    (dir tamano total : ℕ) (lista : List MsPos)
    → Posiciones total lista
    → tamano < 2147483648
    → dir + tamano ≤ total
    → Fragmentado base_de limite_de_ms fragmento_de lista dir tamano 0
        (calcular_dir_local_ms dir tamano lista)
unfolding calcular_dir_local_ms
calcular_dir_local_ms-Fragmentado dir tamano total lista pos corto dentro =
    let todos : bytes_iniciales tamano ≡ tamano = ground arith in
    rw todos (
      fragmentar-Fragmentado base_de limite_de_ms fragmento_de pos.0 tamano dir tamano 0
        (omega arith) dentro)
