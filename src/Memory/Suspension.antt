-- ===== src/Memory/Suspension.antt =====
-- kernel_memory/src/conexiones.c: the segments of a process go to Swap, and come back. Sending succeeds,
-- so a write to Swap does, and the callers do not hold `mutex_huecos`. A pointer to a segment is its
-- index in the table of the process.
pub mod Round
pub mod Suspended
pub mod Rollback
pub mod Reserved
pub mod Returned
pub mod Roundtrip
mod Tests
use tp_2026_1c_malloc_and_cr.Base.{
  ℕ, zero, suc, ◌+◌, ◌-◌, ◌/◌, Bool, true, false, Option, none, some, ◌>>=◌, List, [], ◌∷◌, ◌++◌,
  take, leb, ltb, ◌==◌, if◌then◌else◌, ℤ, pos, negsuc, set, add32, sub32,
}
use tp_2026_1c_malloc_and_cr.Messages.{int_negativo}
use tp_2026_1c_malloc_and_cr.Stick.{copiar_a}
use tp_2026_1c_malloc_and_cr.Swap.{escribir_bloque, leer_bloque}
use tp_2026_1c_malloc_and_cr.Fragments.Store.{Sticks}
use tp_2026_1c_malloc_and_cr.Memory.Types.{Segmento, Proceso}
use tp_2026_1c_malloc_and_cr.Memory.Holes.{
  limite_de, agregar_hueco_libre, buscar_hueco_silencioso, consumir_hueco,
}
use tp_2026_1c_malloc_and_cr.Memory.State.{Km}
use tp_2026_1c_malloc_and_cr.Memory.Processes.{buscar_proceso, modificar_proceso}
use tp_2026_1c_malloc_and_cr.Memory.Sticks.{calcular_dir_local_ms}
use tp_2026_1c_malloc_and_cr.Memory.Transfer.{
  enviar_fragmentos_escritura, enviar_fragmentos_lectura,
}
use tp_2026_1c_malloc_and_cr.Memory.Swap.{buscar_bloques_libres_swap}

-- Kernel Memory, the Memory Sticks, and Swap: its size of a block, the bitmap and the file.
pub record Sistema : Type 0 where
  pub km : Km
  pub sticks : Sticks
  pub swap_block_size : ℕ
  pub bitmap_swap : List Bool
  pub archivo : ℕ → ℕ

-- The bytes of one request, when `offset` of `tam_seg` bytes are done.
abbrev pub tamano_parcial : ℕ → ℕ → ℕ → ℕ
tamano_parcial block_size tam_seg offset =
    let restantes = tam_seg - offset in if ltb block_size restantes then block_size else restantes

-- The memory from the pointer that Swap gets on: `n` bytes of the contents, and then `basura`.
abbrev pub enviado : (ℕ → ℕ) → ℕ → ℕ → (ℕ → ℕ) → ℕ → ℕ
enviado contenido offset n basura i = if ltb i n then contenido (offset + i) else basura i

-- The rounds of `escribir_segmento_en_swap`, from `offset` on.
unfoldable pub escribir_bloques : ℕ → (ℕ → ℕ) → (ℕ → ℕ) → ℕ → ℕ → ℕ → ℕ → (ℕ → ℕ) → (ℕ → ℕ)
unfolding escribir_bloque
escribir_bloques block_size basura contenido tam_seg offset bloque zero archivo = archivo
escribir_bloques block_size basura contenido tam_seg offset bloque (suc n) archivo =
    let k = tamano_parcial block_size tam_seg offset in
    escribir_bloques block_size basura contenido tam_seg (offset + k) (bloque + 1) n
      (escribir_bloque block_size bloque (enviado contenido offset k basura) archivo)

-- `bytes_restantes` is an `int`: from 2³¹ bytes on it is negative in the first round, and so is the size
-- of the value that is added to the packet: `none`.
unfoldable pub escribir_segmento_en_swap :
    ℕ → (ℕ → ℕ) → (ℕ → ℕ) → ℕ → ℕ → ℕ → (ℕ → ℕ) → Option (ℕ → ℕ)
unfolding escribir_bloques
escribir_segmento_en_swap block_size basura contenido tam_seg bloque zero archivo = some archivo
escribir_segmento_en_swap block_size basura contenido tam_seg bloque (suc n) archivo =
    if leb int_negativo tam_seg
    then none
    else some (escribir_bloques block_size basura contenido tam_seg 0 bloque (suc n) archivo)

-- The rounds of `leer_segmento_de_swap`: the buffer, and the bitmap with the blocks given back.
unfoldable pub leer_bloques :
    ℕ → (ℕ → ℕ) → ℕ → ℕ → ℕ → ℕ → (ℕ → ℕ) → List Bool → (ℕ → ℕ) × List Bool
unfolding leer_bloque
leer_bloques block_size buffer tam_seg offset bloque zero archivo bitmap = (buffer, bitmap)
leer_bloques block_size buffer tam_seg offset bloque (suc n) archivo bitmap =
    let k = tamano_parcial block_size tam_seg offset in
    leer_bloques block_size
      (copiar_a buffer offset (take k (leer_bloque block_size bloque archivo))) tam_seg (offset + k)
      (bloque + 1) n archivo (set bitmap bloque false)

-- From 2³¹ bytes on, the size that is copied is negative: `none`.
unfoldable pub leer_segmento_de_swap :
    ℕ → (ℕ → ℕ) → ℕ → ℕ → ℕ → (ℕ → ℕ) → List Bool → Option ((ℕ → ℕ) × List Bool)
unfolding leer_bloques
leer_segmento_de_swap block_size buffer tam_seg bloque zero archivo bitmap = some (buffer, bitmap)
leer_segmento_de_swap block_size buffer tam_seg bloque (suc n) archivo bitmap =
    if leb int_negativo tam_seg
    then none
    else some (leer_bloques block_size buffer tam_seg 0 bloque (suc n) archivo bitmap)

abbrev pub bloques_necesarios : ℕ → ℕ → ℕ
bloques_necesarios block_size tam_seg = sub32 (add32 tam_seg block_size) 1 / block_size

-- A write through the pointer to a segment.
abbrev pub con_segmento : ℕ → Segmento → Proceso → Proceso
con_segmento j s p = record p { tabla_segmentos = set p.tabla_segmentos j s }

abbrev pub marcar_suspendido : Bool → Proceso → Proceso
marcar_suspendido b p = record p { suspendido = b }

abbrev pub segmento_en_swap : ℕ → Segmento → Segmento
segmento_en_swap bloque s = record s {
  base_global = 0;
  limite_global = 0;
  en_swap = true;
  bloque_swap = some bloque;
}

-- The contents are in the file, and the memory is given back.
unfoldable pub pasar_a_swap : ℕ → ℕ → Segmento → ℕ → List Bool → (ℕ → ℕ) → Sistema → Option Sistema
unfolding modificar_proceso
pasar_a_swap pid j s bloque bitmap archivo st =
    elim (agregar_hueco_libre st.km.mutex_huecos s.base_global s.tamanio
      st.km.lista_huecos_libres) [
        | none ↦ none
        | some (_, huecos) ↦ some (record st {
          km = record st.km {
            lista_huecos_libres = huecos;
            procesos =
                modificar_proceso pid (con_segmento j (segmento_en_swap bloque s)) st.km.procesos;
          };
          bitmap_swap = bitmap;
          archivo = archivo;
        })
      ]

-- The search for blocks, for a segment whose contents were read. Before Swap is connected the size of a
-- block is 0, and the division crashes: `none`.
unfoldable pub guardar_segmento : ℕ → ℕ → Segmento → (ℕ → ℕ) → (ℕ → ℕ) → Sistema → Option Sistema
unfolding escribir_segmento_en_swap pasar_a_swap
guardar_segmento pid j s basura contenido st =
    if st.swap_block_size == 0
    then none
    else (let n = bloques_necesarios st.swap_block_size s.tamanio in
        elim (buscar_bloques_libres_swap n st.bitmap_swap) [
          | none ↦ none
          | some (none, bitmap) ↦ some st
          | some (some bloque, bitmap) ↦
              elim (escribir_segmento_en_swap st.swap_block_size basura contenido s.tamanio bloque n
                st.archivo) [
                  | none ↦ none
                  | some archivo ↦ pasar_a_swap pid j s bloque bitmap archivo st
                ]
        ])

-- One round for the segment `s` of the table; `none` where an answer does not come, or the list of
-- fragments is NULL.
unfoldable pub suspender_segmento : (ℕ → ℕ) → ℕ → ℕ → Segmento → Sistema → Option Sistema
unfolding guardar_segmento
suspender_segmento basura pid j s st =
    if s.en_swap
    then some st
    else elim (calcular_dir_local_ms s.base_global s.tamanio st.km.lista_dir_global_ms) [
      | none ↦ none
      | some none ↦ none
      | some (some fragmentos) ↦
          elim (enviar_fragmentos_lectura st.km.lista_ms fragmentos (λ _. 0) 0 st.sticks) [
            | none ↦ none
            | some none ↦ some st
            | some (some contenido) ↦ guardar_segmento pid j s basura contenido st
          ]
    ]

unfoldable pub suspender_segmentos : (ℕ → ℕ) → ℕ → ℕ → List Segmento → Sistema → Option Sistema
unfolding suspender_segmento
suspender_segmentos basura pid j [] st = some st
suspender_segmentos basura pid j (s ∷ ss) st = elim (suspender_segmento basura pid j s st) [
  | none ↦ none
  | some st' ↦ suspender_segmentos basura pid (j + 1) ss st'
]

abbrev pub marcar : ℕ → Bool → Sistema → Sistema
marcar pid b st = record st {
  km = record st.km { procesos = modificar_proceso pid (marcar_suspendido b) st.km.procesos };
}

unfoldable pub suspender_proceso_memoria : (ℕ → ℕ) → ℕ → Sistema → Option (ℤ × Sistema)
unfolding buscar_proceso suspender_segmentos
suspender_proceso_memoria basura pid st = elim (buscar_proceso pid st.km.procesos) [
  | none ↦ some (negsuc 0, st)
  | some p ↦
      if p.suspendido
      then some (negsuc 0, st)
      else elim (suspender_segmentos basura pid 0 p.tabla_segmentos st) [
        | none ↦ none
        | some st' ↦ some (pos 1, marcar pid true st')
      ]
]

-- `t_reserva`; the segment is its index and its fields.
pub record Reserva : Type 0 where
  pub base : ℕ
  pub tamanio : ℕ
  pub indice : ℕ
  pub segmento : Segmento

-- The loop that takes a hole for each segment in Swap, with what was taken before; `false` where one
-- does not fit.
unfoldable pub reservar : ℕ → List Segmento → List Reserva → Km → Bool × List Reserva × Km
unfolding buscar_hueco_silencioso consumir_hueco
reservar j [] reservas km = (true, reservas, km)
reservar j (s ∷ ss) reservas km =
    let siguiente = reservar (j + 1) ss in
    if s.en_swap
    then elim (buscar_hueco_silencioso km.allocation_strategy s.tamanio km.lista_huecos_libres) [
      | none ↦ (false, reservas, km)
      | some (i, h) ↦
          siguiente
            (reservas
              ++ (record { base = h.base; tamanio = s.tamanio; indice = j; segmento = s } ∷ []))
            (record km {
              lista_huecos_libres = consumir_hueco i h s.tamanio km.lista_huecos_libres;
            })
    ]
    else siguiente reservas km

-- The loop that gives the holes back, while `mutex_huecos` is held.
unfoldable pub devolver_reservas : List Reserva → Km → Option Km
unfolding agregar_hueco_libre
devolver_reservas [] km = some km
devolver_reservas (r ∷ rs) km =
    elim (agregar_hueco_libre km.mutex_huecos r.base r.tamanio km.lista_huecos_libres) [
      | none ↦ none
      | some (_, huecos) ↦ devolver_reservas rs (record km { lista_huecos_libres = huecos })
    ]

abbrev pub con_mutex : Bool → Km → Km
con_mutex b km = record km { mutex_huecos = b }

abbrev pub segmento_de_vuelta : ℕ → Segmento → Segmento
segmento_de_vuelta base s = record s {
  base_global = base;
  limite_global = limite_de base s.tamanio;
  en_swap = false;
  bloque_swap = none;
}

abbrev pub bloque_o : Option ℕ → ℕ
bloque_o none = 0
bloque_o (some b) = b

-- One round of the loop that brings the segments back. A segment in Swap has its block, and the size of
-- a block is positive since Swap is connected.
unfoldable pub traer_segmento : ℕ → Reserva → Sistema → Option Sistema
unfolding leer_segmento_de_swap modificar_proceso
traer_segmento pid r st =
    let s = r.segmento in
    elim (leer_segmento_de_swap st.swap_block_size (λ _. 0) s.tamanio (bloque_o s.bloque_swap)
      (bloques_necesarios st.swap_block_size s.tamanio) st.archivo st.bitmap_swap) [
        | none ↦ none
        | some (contenido, bitmap) ↦
            elim (calcular_dir_local_ms r.base s.tamanio st.km.lista_dir_global_ms) [
              | none ↦ none
              | some none ↦ none
              | some (some fragmentos) ↦
                  elim (enviar_fragmentos_escritura st.km.lista_ms fragmentos contenido 0
                    st.sticks) [
                      | none ↦ none
                      | some sticks' ↦ some (record st {
                        km = record st.km {
                          procesos =
                              modificar_proceso pid
                                (con_segmento r.indice (segmento_de_vuelta r.base s))
                                st.km.procesos;
                        };
                        sticks = sticks';
                        bitmap_swap = bitmap;
                      })
                    ]
            ]
      ]

unfoldable pub traer_segmentos : ℕ → List Reserva → Sistema → Option Sistema
unfolding traer_segmento
traer_segmentos pid [] st = some st
traer_segmentos pid (r ∷ rs) st = elim (traer_segmento pid r st) [
  | none ↦ none
  | some st' ↦ traer_segmentos pid rs st'
]

-- What follows the reservations; `mutex_huecos` is locked for the whole roll back.
unfoldable pub confirmar : ℕ → Bool → List Reserva → Sistema → Option (ℤ × Sistema)
unfolding devolver_reservas traer_segmentos
confirmar pid true reservas st = elim (traer_segmentos pid reservas st) [
  | none ↦ none
  | some st' ↦ some (pos 1, marcar pid false st')
]
confirmar pid false reservas st = elim (devolver_reservas reservas (con_mutex true st.km)) [
  | none ↦ none
  | some km' ↦ some (pos 0, record st { km = con_mutex false km' })
]

unfoldable pub desuspender_proceso_memoria : ℕ → Sistema → Option (ℤ × Sistema)
unfolding buscar_proceso reservar confirmar
desuspender_proceso_memoria pid st = elim (buscar_proceso pid st.km.procesos) [
  | none ↦ some (negsuc 0, st)
  | some p ↦
      if p.suspendido
      then (let (entra, reservas, km') = reservar 0 p.tabla_segmentos [] st.km in
          confirmar pid entra reservas (record st { km = km' }))
      else some (negsuc 0, st)
]
