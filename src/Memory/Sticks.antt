-- ===== src/Memory/Sticks.antt =====
-- kernel_memory/src/memory_stick.c, with the handshake of a Memory Stick in conexiones.c and
-- `aumentar_memoria_total` of kernel_memory.c: the sticks that make up the global address space.
pub mod Connection
pub mod Translation
use tp_2026_1c_malloc_and_cr.Base.{
  ℕ, ◌+◌, Option, none, some, List, [], ◌∷◌, ◌++◌, ◌==◌, if◌then◌else◌, add32,
}
use tp_2026_1c_malloc_and_cr.Fragments.{bytes_iniciales, fragmentar}
use tp_2026_1c_malloc_and_cr.Memory.Types.{MsInfo, MsPos, Fragmento}
use tp_2026_1c_malloc_and_cr.Memory.Holes.{limite_de, agregar_hueco_ms}
use tp_2026_1c_malloc_and_cr.Memory.State.{Km}

-- The base for the new bytes, and the new total.
unfoldable pub aumentar_memoria_total : ℕ → ℕ → ℕ × ℕ
aumentar_memoria_total tamano memoria_total = (memoria_total, add32 memoria_total tamano)

unfoldable pub nuevo_memory_stick : ℕ → ℕ → ℕ → List MsInfo → List MsInfo
nuevo_memory_stick id tamano socket lista =
    lista ++ (record { id = id; tamano = tamano; socket = socket } ∷ [])

abbrev pub posicion : ℕ → ℕ → ℕ → MsPos
posicion base tamano id = record {
  id = id;
  base_global = base;
  limite_global = limite_de base tamano;
}

unfoldable pub agregar_posicion_ms : ℕ → ℕ → ℕ → List MsPos → List MsPos
agregar_posicion_ms base tamano id lista = lista ++ (posicion base tamano id ∷ [])

unfoldable pub buscar_ms_por_id : ℕ → List MsInfo → Option MsInfo
buscar_ms_por_id id [] = none
buscar_ms_por_id id (m ∷ ms) = if m.id == id then some m else buscar_ms_por_id id ms

unfoldable pub buscar_ms_por_socket : ℕ → List MsInfo → Option MsInfo
buscar_ms_por_socket socket [] = none
buscar_ms_por_socket socket (m ∷ ms) =
    if m.socket == socket then some m else buscar_ms_por_socket socket ms

-- The case MEMORY_STICK_HANDSHAKE of `atender_conexion`, less the messages to the CPUs and to the
-- Kernel Scheduler that end it.
unfoldable pub conectar_memory_stick : ℕ → ℕ → ℕ → Km → Km
unfolding aumentar_memoria_total nuevo_memory_stick agregar_posicion_ms
conectar_memory_stick id tamano socket km =
    let (base, total) = aumentar_memoria_total tamano km.memoria_total in
    record km {
      memoria_total = total;
      lista_ms = nuevo_memory_stick id tamano socket km.lista_ms;
      lista_huecos_libres = agregar_hueco_ms base tamano km.lista_huecos_libres;
      lista_dir_global_ms = agregar_posicion_ms base tamano id km.lista_dir_global_ms;
    }

abbrev pub base_de : MsPos → ℕ
base_de m = m.base_global

abbrev pub limite_de_ms : MsPos → ℕ
limite_de_ms m = m.limite_global

abbrev pub fragmento_de : MsPos → ℕ → ℕ → ℕ → Fragmento
fragmento_de m dir_local n offset = record { ms_id = m.id; dir_local = dir_local; tamano = n }

-- The loop runs on as much fuel as there are bytes; `some none` is NULL.
unfoldable pub calcular_dir_local_ms : ℕ → ℕ → List MsPos → Option (Option (List Fragmento))
calcular_dir_local_ms dir tamano lista =
    fragmentar base_de limite_de_ms fragmento_de (bytes_iniciales tamano) dir
      (bytes_iniciales tamano) 0 lista
