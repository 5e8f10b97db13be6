-- ===== src/Memory/Processes.antt =====
-- kernel_memory/src/procesos.c and contextos.c: the table of processes and their contexts.
pub mod Table
pub mod Removal
use Prim.Native.String.{String}
use tp_2026_1c_malloc_and_cr.Base.{
  ℕ, ◌+◌, Bool, true, false, Option, none, some, List, [], ◌∷◌, ◌++◌, ◌==◌, if◌then◌else◌, ℤ, pos,
  negsuc, add32, sub32,
}
use tp_2026_1c_malloc_and_cr.Memory.Types.{Registros, Segmento, Proceso, Hueco}
use tp_2026_1c_malloc_and_cr.Memory.Holes.{agregar_hueco_libre}
use tp_2026_1c_malloc_and_cr.Memory.State.{Km}

-- `buscar_proceso`: the dictionary lookup of the pid's key.
unfoldable pub buscar_proceso : ℕ → List Proceso → Option Proceso
buscar_proceso pid [] = none
buscar_proceso pid (p ∷ ps) = if p.pid == pid then some p else buscar_proceso pid ps

-- `dictionary_put`: a present key gets the new value.
unfoldable pub poner_proceso : Proceso → List Proceso → List Proceso
poner_proceso q [] = q ∷ []
poner_proceso q (p ∷ ps) = if p.pid == q.pid then q ∷ ps else p ∷ poner_proceso q ps

-- `dictionary_remove_and_destroy`
unfoldable pub quitar_proceso : ℕ → List Proceso → List Proceso
quitar_proceso pid [] = []
quitar_proceso pid (p ∷ ps) = if p.pid == pid then ps else p ∷ quitar_proceso pid ps

unfoldable pub quitar_path : ℕ → List (ℕ × String) → List (ℕ × String)
quitar_path pid [] = []
quitar_path pid ((k, v) ∷ ps) = if k == pid then ps else (k, v) ∷ quitar_path pid ps

-- A write through the pointer that `buscar_proceso` returned.
unfoldable pub modificar_proceso : ℕ → (Proceso → Proceso) → List Proceso → List Proceso
modificar_proceso pid f [] = []
modificar_proceso pid f (p ∷ ps) = if p.pid == pid then f p ∷ ps else p ∷ modificar_proceso pid f ps

abbrev pub registros_en_cero : Registros
registros_en_cero = record {
  pc = 0;
  ax = 0;
  bx = 0;
  cx = 0;
  dx = 0;
  eax = 0;
  ebx = 0;
  ecx = 0;
  edx = 0;
  si = 0;
  di = 0;
}

-- `crear_contexto`, inside the process that owns it.
abbrev pub proceso_nuevo : ℕ → Proceso
proceso_nuevo pid = record {
  pid = pid;
  registros = registros_en_cero;
  tabla_segmentos = [];
  suspendido = false;
}

unfoldable pub crear_proceso : ℕ → Km → ℤ × Km
unfolding poner_proceso
crear_proceso pid km =
    (pos 0, record km { procesos = poner_proceso (proceso_nuevo pid) km.procesos })

-- `solicitud_contexto`: a copy of the registers and of the segment table.
unfoldable pub solicitud_contexto : ℕ → Km → Option (Registros × List Segmento)
unfolding buscar_proceso
solicitud_contexto pid km = elim (buscar_proceso pid km.procesos) [
  | none ↦ none
  | some p ↦ some (p.registros, p.tabla_segmentos)
]

-- `actualizar_contexto`: an unknown pid is ignored.
unfoldable pub actualizar_contexto : ℕ → Registros → Km → Km
unfolding modificar_proceso
actualizar_contexto pid registros km = record km {
  procesos = modificar_proceso pid (λ p. record p { registros = registros }) km.procesos;
}

-- The last loop of `eliminar_proceso`: every segment's bytes, from base to limit, become a hole.
unfoldable pub liberar_segmentos : Bool → List Segmento → List Hueco → Option (List Hueco)
liberar_segmentos tomado [] huecos = some huecos
liberar_segmentos tomado (s ∷ ss) huecos =
    elim (agregar_hueco_libre tomado s.base_global (add32 (sub32 s.limite_global s.base_global) 1)
      huecos) [ none ↦ none | some (_, huecos') ↦ liberar_segmentos tomado ss huecos' ]

unfoldable pub eliminar_proceso : ℕ → Km → Option (ℤ × Km)
unfolding buscar_proceso quitar_proceso quitar_path liberar_segmentos
eliminar_proceso pid km = elim (buscar_proceso pid km.procesos) [
  | none ↦ some (negsuc 0, km)
  | some p ↦ elim (liberar_segmentos km.mutex_huecos p.tabla_segmentos km.lista_huecos_libres) [
    | none ↦ none
    | some huecos' ↦ some (
      pos 1,
      record km {
        lista_huecos_libres = huecos';
        procesos = quitar_proceso pid km.procesos;
        paths_por_pid = quitar_path pid km.paths_por_pid;
      },
    )
  ]
]
