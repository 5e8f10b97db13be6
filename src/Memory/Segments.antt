-- ===== src/Memory/Segments.antt =====
-- kernel_memory/src/segmentos.c: creation and removal of segments.
pub mod Accounting
pub mod Removal
use tp_2026_1c_malloc_and_cr.Base.{
  ℕ, ◌+◌, Bool, true, false, Option, none, some, List, [], ◌∷◌, ◌++◌, ◌==◌, if◌then◌else◌, ℤ, pos,
  negsuc, add32, sub32, erase_at,
}
use tp_2026_1c_malloc_and_cr.Memory.Types.{Segmento, Proceso, Hueco}
use tp_2026_1c_malloc_and_cr.Memory.Holes.{
  limite_de, buscar_hueco, consumir_hueco, agregar_hueco_libre,
}
use tp_2026_1c_malloc_and_cr.Memory.State.{Km}
use tp_2026_1c_malloc_and_cr.Memory.Processes.{buscar_proceso, modificar_proceso}

abbrev pub segmento_nuevo : ℕ → ℕ → ℕ → Segmento
segmento_nuevo id_segmento base tamano = record {
  id_segmento = id_segmento;
  base_global = base;
  limite_global = limite_de base tamano;
  tamanio = tamano;
  memory_stick_id = none;
  en_swap = false;
  bloque_swap = none;
}

-- `list_add` to the process's table.
abbrev pub agregar_segmento : Segmento → Proceso → Proceso
agregar_segmento s p = record p { tabla_segmentos = p.tabla_segmentos ++ (s ∷ []) }

-- The second half of `crear_segmento`, once the hole has been consumed.
unfoldable pub registrar_segmento : ℕ → Segmento → Km → ℤ × Km
unfolding buscar_proceso modificar_proceso
registrar_segmento pid s km = elim (buscar_proceso pid km.procesos) [
  | none ↦ (negsuc 1, km)
  | some _ ↦
      (pos 1, record km { procesos = modificar_proceso pid (agregar_segmento s) km.procesos })
]

-- `crear_segmento`; `none` where the thread waits for `mutex_huecos`, which it holds.
unfoldable pub crear_segmento : ℕ → ℕ → ℕ → Km → Option (ℤ × Km)
unfolding registrar_segmento
crear_segmento pid id_segmento tamano km = elim km.mutex_huecos [
  | true ↦ none
  | false ↦
      let (elegido, avisos) =
        buscar_hueco km.allocation_strategy tamano pid id_segmento km.lista_huecos_libres in
      elim elegido [
        | none ↦ some (negsuc 0, record km { avisos = km.avisos ++ avisos })
        | some (i, h) ↦ some (
            registrar_segmento pid (segmento_nuevo id_segmento h.base tamano) (record km {
              lista_huecos_libres = consumir_hueco i h tamano km.lista_huecos_libres;
              avisos = km.avisos ++ avisos;
            }))
      ]
]

-- The search loop of `eliminar_segmento`, from index `i` on.
unfoldable pub buscar_segmento : ℕ → ℕ → List Segmento → Option (ℕ × Segmento)
buscar_segmento id i [] = none
buscar_segmento id i (s ∷ ss) =
    if s.id_segmento == id then some (i, s) else buscar_segmento id (i + 1) ss

abbrev pub quitar_segmento : ℕ → Proceso → Proceso
quitar_segmento indice p = record p { tabla_segmentos = erase_at p.tabla_segmentos indice }

unfoldable pub eliminar_segmento : ℕ → ℕ → Km → Option (ℤ × Km)
unfolding buscar_proceso modificar_proceso buscar_segmento
eliminar_segmento pid id_segmento km = elim (buscar_proceso pid km.procesos) [
  | none ↦ some (negsuc 0, km)
  | some p ↦ elim (buscar_segmento id_segmento 0 p.tabla_segmentos) [
    | none ↦ some (negsuc 1, km)
    | some (indice, s) ↦
        elim (agregar_hueco_libre km.mutex_huecos s.base_global
          (add32 (sub32 s.limite_global s.base_global) 1) km.lista_huecos_libres) [
            | none ↦ none
            | some (_, huecos') ↦ some (
              pos 1,
              record km {
                lista_huecos_libres = huecos';
                procesos = modificar_proceso pid (quitar_segmento indice) km.procesos;
              },
            )
          ]
  ]
]
