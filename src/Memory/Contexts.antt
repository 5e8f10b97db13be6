-- ===== src/Memory/Contexts.antt =====
-- kernel_memory/src/conexiones.c: the contexts of processes in the packets of Kernel Memory, in the
-- cases REQUEST_CONTEXTO and ACTUALIZAR_CONTEXTO of `atender_conexion`.
use tp_2026_1c_malloc_and_cr.Base.{
  ℕ, Option, none, some, List, [], ◌∷◌, ◌++◌, length, get_elem?, ◌>>=◌,
}
use tp_2026_1c_malloc_and_cr.Messages.{int_bytes, leer_int, Paquete, crear_buffer, crear_paquete}
use tp_2026_1c_malloc_and_cr.Messages.Roundtrip.{empaquetar}
use tp_2026_1c_malloc_and_cr.Memory.Types.{Registros, Segmento}
use tp_2026_1c_malloc_and_cr.Memory.State.{Km}
use tp_2026_1c_malloc_and_cr.Memory.Processes.{solicitud_contexto, actualizar_contexto}

-- `*(uint32_t*) list_get(paquete, i)` and `*(uint8_t*) list_get(paquete, i)`; `none` where the
-- element is missing or too short.
abbrev pub leer_u32 : ℕ → List (List ℕ) → Option ℕ
leer_u32 i paquete = do v ← get_elem? paquete i; r ← leer_int v; some r.0

abbrev pub primer_byte : List ℕ → Option ℕ
primer_byte [] = none
primer_byte (b ∷ bs) = some b

abbrev pub leer_u8 : ℕ → List (List ℕ) → Option ℕ
leer_u8 i paquete = do v ← get_elem? paquete i; primer_byte v

-- The registers from element 2 of a packet on.
abbrev pub leer_registros : List (List ℕ) → Option Registros
leer_registros paquete = do
  pc ← leer_u32 2 paquete
  ax ← leer_u8 3 paquete
  bx ← leer_u8 4 paquete
  cx ← leer_u8 5 paquete
  dx ← leer_u8 6 paquete
  eax ← leer_u32 7 paquete
  ebx ← leer_u32 8 paquete
  ecx ← leer_u32 9 paquete
  edx ← leer_u32 10 paquete
  si ← leer_u32 11 paquete
  di ← leer_u32 12 paquete
  some (record {
    pc = pc;
    ax = ax;
    bx = bx;
    cx = cx;
    dx = dx;
    eax = eax;
    ebx = ebx;
    ecx = ecx;
    edx = edx;
    si = si;
    di = di;
  })

abbrev pub campos_registros : Registros → List (List ℕ)
campos_registros g =
    int_bytes g.pc
    ∷ (g.ax ∷ [])
    ∷ (g.bx ∷ [])
    ∷ (g.cx ∷ [])
    ∷ (g.dx ∷ [])
    ∷ int_bytes g.eax
    ∷ int_bytes g.ebx
    ∷ int_bytes g.ecx
    ∷ int_bytes g.edx
    ∷ int_bytes g.si
    ∷ int_bytes g.di
    ∷ []

-- An `int` that is -1 where the model has `none`.
abbrev pub patron_de : Option ℕ → ℕ
patron_de none = 4294967295
patron_de (some i) = i

-- The loop over the segment table.
abbrev pub campos_segmentos : List Segmento → List (List ℕ)
campos_segmentos [] = []
campos_segmentos (s ∷ ss) =
    int_bytes s.id_segmento
    ∷ int_bytes s.base_global
    ∷ int_bytes s.limite_global
    ∷ int_bytes (patron_de s.memory_stick_id)
    ∷ campos_segmentos ss

abbrev pub campos_contexto : ℕ → Registros → List Segmento → List (List ℕ)
campos_contexto pid g tabla =
    (int_bytes pid ∷ campos_registros g) ++ (int_bytes (length tabla) ∷ campos_segmentos tabla)

-- REQUEST_CONTEXTO: CONTEXT_RESPONSE (27) with the context, or CONTEXT_ERROR (34).
unfoldable pub caso_request_contexto : ℕ → Km → Paquete
unfolding solicitud_contexto
caso_request_contexto pid km = elim (solicitud_contexto pid km) [
  | none ↦ crear_paquete 34 crear_buffer
  | some (g, tabla) ↦ empaquetar 27 (campos_contexto pid g tabla)
]

-- ACTUALIZAR_CONTEXTO; `none` where the packet has too few values.
unfoldable pub caso_actualizar_contexto : List (List ℕ) → Km → Option Km
unfolding actualizar_contexto
caso_actualizar_contexto paquete km = do
  pid ← leer_u32 1 paquete
  g ← leer_registros paquete
  some (actualizar_contexto pid g km)
