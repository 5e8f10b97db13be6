-- ===== src/Memory/Compaction.antt =====
-- kernel_memory/src/compactacion.c: the segments in memory are moved down in the order of their bases,
-- and one hole is left. A pointer to a segment is its place in the tables. `list_sort` of the commons
-- library is an argument.
pub mod Places
pub mod Round
pub mod Packed
pub mod Sorted
pub mod Ending
pub mod Result
pub mod Tests
use tp_2026_1c_malloc_and_cr.Base.{
  ℕ, zero, suc, ◌+◌, ◌-◌, Bool, true, false, Option, none, some, ◌>>=◌, List, [], ◌∷◌, ◌++◌, map,
  ltb, ◌==◌, if◌then◌else◌, ℤ, pos, negsuc, add32, sub32, length, get_elem?, set,
}
use tp_2026_1c_malloc_and_cr.Fragments.Store.{Sticks}
use tp_2026_1c_malloc_and_cr.Memory.Types.{Segmento, Proceso, MsInfo, MsPos}
use tp_2026_1c_malloc_and_cr.Memory.Holes.{agregar_hueco_libre, vaciar_lista_de_huecos}
use tp_2026_1c_malloc_and_cr.Memory.State.{Km, tamano_real}
use tp_2026_1c_malloc_and_cr.Memory.Segments.{crear_segmento}
use tp_2026_1c_malloc_and_cr.Memory.Sticks.{calcular_dir_local_ms}
use tp_2026_1c_malloc_and_cr.Memory.Transfer.{
  enviar_fragmentos_escritura, enviar_fragmentos_lectura,
}

-- The process and the segment, by their positions.
pub record Referencia : Type 0 where
  pub proceso : ℕ
  pub segmento : ℕ

unfoldable pub segmento_en : Referencia → List Proceso → Option Segmento
segmento_en r ps = do p ← get_elem? ps r.proceso; get_elem? p.tabla_segmentos r.segmento

abbrev pub con_tabla : List Segmento → Proceso → Proceso
con_tabla ss p = record p { tabla_segmentos = ss }

-- A write through the pointer.
unfoldable pub poner_segmento : Referencia → Segmento → List Proceso → List Proceso
poner_segmento r s ps = elim (get_elem? ps r.proceso) [
  | none ↦ ps
  | some p ↦ set ps r.proceso (con_tabla (set p.tabla_segmentos r.segmento s) p)
]

abbrev pub del_primero : ℕ → Referencia
del_primero j = record { proceso = 0; segmento = j }

abbrev pub otro_proceso : Referencia → Referencia
otro_proceso r = record r { proceso = suc r.proceso }

-- The two loops that gather the segments that are not in swap; `map` moves the places in what follows
-- by one.
unfoldable pub segmentos_de_tabla : List Segmento → List ℕ
segmentos_de_tabla [] = []
segmentos_de_tabla (s ∷ ss) =
    let resto = map suc (segmentos_de_tabla ss) in if s.en_swap then resto else 0 ∷ resto

unfoldable pub segmentos_de_procesos : List Proceso → List Referencia
unfolding segmentos_de_tabla
segmentos_de_procesos [] = []
segmentos_de_procesos (p ∷ ps) =
    map del_primero (segmentos_de_tabla p.tabla_segmentos)
    ++ map otro_proceso (segmentos_de_procesos ps)

abbrev pub base_o : Option Segmento → ℕ
base_o none = 0
base_o (some s) = s.base_global

unfoldable pub ordenar_por_base_global : List Proceso → Referencia → Referencia → Bool
ordenar_por_base_global ps a b = ltb (base_o (segmento_en a ps)) (base_o (segmento_en b ps))

-- What `list_sort` is given and gives: a comparison, and the list.
abbrev pub Orden : Type 0
Orden = (Referencia → Referencia → Bool) → List Referencia → List Referencia

unfoldable pub obtener_lista_temp_ord : Orden → List Proceso → List Referencia
unfolding segmentos_de_procesos
obtener_lista_temp_ord list_sort ps =
    let lista = segmentos_de_procesos ps in
    if ltb 1 (length lista) then list_sort (ordenar_por_base_global ps) lista else lista

-- What the loop changes.
pub record Avance : Type 0 where
  pub procesos : List Proceso
  pub sticks : Sticks
  pub proxima_base_libre : ℕ

abbrev pub reubicado : Segmento → ℕ → Segmento
reubicado s base = record s {
  base_global = base;
  limite_global = add32 base (sub32 (tamano_real s) 1);
}

module _ (lista_ms : List MsInfo) (lista_dir : List MsPos) where
  -- The contents are read at the old place and written at the new one. `false` is the return with -1;
  -- `none` where an answer does not come, or the source uses a list that is NULL.
  unfoldable pub trasladar : Referencia → Segmento → Avance → Option (Bool × Avance)
  trasladar r s av = elim (calcular_dir_local_ms s.base_global (tamano_real s) lista_dir) [
    | none ↦ none
    | some none ↦ none
    | some (some lectura) ↦ elim (enviar_fragmentos_lectura lista_ms lectura (λ _. 0) 0 av.sticks) [
      | none ↦ none
      | some none ↦ some (false, av)
      | some (some contenido) ↦
          elim (calcular_dir_local_ms av.proxima_base_libre (tamano_real s) lista_dir) [
            | none ↦ none
            | some none ↦ none
            | some (some escritura) ↦
                elim (enviar_fragmentos_escritura lista_ms escritura contenido 0 av.sticks) [
                  | none ↦ none
                  | some sticks' ↦
                      let s' = reubicado s av.proxima_base_libre in
                      some (
                        true,
                        record {
                          procesos = poner_segmento r s' av.procesos;
                          sticks = sticks';
                          proxima_base_libre = add32 s'.limite_global 1;
                        },
                      )
                ]
          ]
    ]
  ]

  -- One round, for the segment `s` at `r`.
  unfoldable pub mover : Referencia → Segmento → Avance → Option (Bool × Avance)
  unfolding trasladar
  mover r s av =
      if s.base_global == av.proxima_base_libre
      then some (true, record av { proxima_base_libre = add32 s.limite_global 1 })
      else trasladar r s av

  unfoldable pub compactar : List Referencia → Avance → Option (Bool × Avance)
  unfolding mover
  compactar [] av = some (true, av)
  compactar (r ∷ rs) av = elim (segmento_en r av.procesos) [
    | none ↦ none
    | some s ↦ elim (mover r s av) [
      | none ↦ none
      | some (false, av') ↦ some (false, av')
      | some (true, av') ↦ compactar rs av'
    ]
  ]

-- The end of `iniciar_compactacion`, with the new hole and the segment for which there was no room. The
-- result of its creation is not looked at.
unfoldable pub terminar_compactacion : ℕ → ℕ → ℕ → Avance → Km → Option (ℤ × Km × Sticks)
terminar_compactacion pid id_segmento tamano av km =
    let gran = sub32 km.memoria_total av.proxima_base_libre in
    let vacios = vaciar_lista_de_huecos km.lista_huecos_libres in
    let libres =
      if ltb 0 gran
      then agregar_hueco_libre km.mutex_huecos av.proxima_base_libre gran vacios
      else some (record { base = 0; limite = 0 }, vacios) in
    do
      (_, huecos) ← libres
      (_, km') ←
          crear_segmento pid id_segmento tamano
            (record km { lista_huecos_libres = huecos; procesos = av.procesos })
      some (pos 1, km', av.sticks)

unfoldable pub iniciar_compactacion : Orden → ℕ → ℕ → ℕ → Km → Sticks → Option (ℤ × Km × Sticks)
unfolding obtener_lista_temp_ord compactar terminar_compactacion
iniciar_compactacion list_sort pid id_segmento tamano km sticks =
    elim (compactar km.lista_ms km.lista_dir_global_ms
      (obtener_lista_temp_ord list_sort km.procesos)
      (record { procesos = km.procesos; sticks = sticks; proxima_base_libre = 0 })) [
        | none ↦ none
        | some (false, av) ↦ some (negsuc 0, record km { procesos = av.procesos }, av.sticks)
        | some (true, av) ↦ terminar_compactacion pid id_segmento tamano av km
      ]
