-- ===== src/Memory/Transfer.antt =====
-- kernel_memory/src/memory_stick.c: `enviar_fragmentos_lectura` and `enviar_fragmentos_escritura`, with
-- the cases ESCRITURA_DE_DATOS and LECTURA_DE_DATOS of `atender_conexion` in conexiones.c. The thread
-- waits for the answer of a stick, which another thread passes on to it; it passes on no
-- ERROR_OPERACION. A buffer is a function of the offset.
pub mod Flat
pub mod Tests
use tp_2026_1c_malloc_and_cr.Base.{ℕ, ◌+◌, Option, none, some, List, [], ◌∷◌}
use tp_2026_1c_malloc_and_cr.Stick.{
  Stick, copiar_de, copiar_a, procesar_lectura, procesar_escritura,
}
use tp_2026_1c_malloc_and_cr.Fragments.Store.{Sticks, poner_stick}
use tp_2026_1c_malloc_and_cr.Memory.Types.{MsInfo, MsPos, Fragmento}
use tp_2026_1c_malloc_and_cr.Memory.Sticks.{buscar_ms_por_id, calcular_dir_local_ms}

-- `none` where the thread waits for an answer that does not come. A fragment of an unknown stick is
-- left out, and its bytes of the contents are not passed over.
unfoldable pub enviar_fragmentos_escritura :
    List MsInfo → List Fragmento → (ℕ → ℕ) → ℕ → Sticks → Option Sticks
unfolding buscar_ms_por_id
enviar_fragmentos_escritura lista_ms [] contenido offset sticks = some sticks
enviar_fragmentos_escritura lista_ms (f ∷ fs) contenido offset sticks =
    elim (buscar_ms_por_id f.ms_id lista_ms) [
      | none ↦ enviar_fragmentos_escritura lista_ms fs contenido offset sticks
      | some ms ↦ elim (sticks ms.socket) [
        | none ↦ none
        | some st ↦ elim (procesar_escritura f.dir_local (copiar_de contenido offset f.tamano) st) [
          | none ↦ none
          | some st' ↦
              enviar_fragmentos_escritura lista_ms fs contenido (offset + f.tamano)
                (poner_stick ms.socket st' sticks)
        ]
      ]
    ]

-- The buffer; `some none` is NULL.
unfoldable pub enviar_fragmentos_lectura :
    List MsInfo → List Fragmento → (ℕ → ℕ) → ℕ → Sticks → Option (Option (ℕ → ℕ))
unfolding buscar_ms_por_id
enviar_fragmentos_lectura lista_ms [] buffer offset sticks = some (some buffer)
enviar_fragmentos_lectura lista_ms (f ∷ fs) buffer offset sticks =
    elim (buscar_ms_por_id f.ms_id lista_ms) [
      | none ↦ some none
      | some ms ↦ elim (sticks ms.socket) [
        | none ↦ none
        | some st ↦ elim (procesar_lectura f.dir_local f.tamano st) [
          | none ↦ none
          | some datos ↦
              enviar_fragmentos_lectura lista_ms fs (copiar_a buffer offset datos)
                (offset + f.tamano) sticks
        ]
      ]
    ]

-- The case ESCRITURA_DE_DATOS, whose answer is always ESCRITURA_DE_DATOS_OK.
unfoldable pub caso_escritura_de_datos :
    List MsInfo → List MsPos → ℕ → ℕ → (ℕ → ℕ) → Sticks → Option Sticks
unfolding enviar_fragmentos_escritura
caso_escritura_de_datos lista_ms lista_dir dir tamano contenido sticks =
    elim (calcular_dir_local_ms dir tamano lista_dir) [
      | none ↦ none
      | some none ↦ some sticks
      | some (some fs) ↦ enviar_fragmentos_escritura lista_ms fs contenido 0 sticks
    ]

-- The case LECTURA_DE_DATOS: the bytes of the answer RTA_LECTURA, or `some none` where there is no
-- answer to the scheduler.
unfoldable pub caso_lectura_de_datos :
    List MsInfo → List MsPos → ℕ → ℕ → Sticks → Option (Option (List ℕ))
unfolding enviar_fragmentos_lectura
caso_lectura_de_datos lista_ms lista_dir dir tamano sticks =
    elim (calcular_dir_local_ms dir tamano lista_dir) [
      | none ↦ none
      | some none ↦ some none
      | some (some fs) ↦ elim (enviar_fragmentos_lectura lista_ms fs (λ _. 0) 0 sticks) [
        | none ↦ none
        | some none ↦ some none
        | some (some buffer) ↦ some (some (copiar_de buffer 0 tamano))
      ]
    ]
