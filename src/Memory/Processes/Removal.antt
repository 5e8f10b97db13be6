-- ===== src/Memory/Processes/Removal.antt =====
-- Creating and removing processes: the memory map stays a partition, and contexts read back what was
-- stored.
use tp_2026_1c_malloc_and_cr.Base.{
  ℕ, ◌+◌, ◌<◌, ◌≡◌, ◌≢◌, refl, ap, subst, ◌⊎◌, inl, inr, Bool-cases, Option-cases, false, Option,
  none, some, List, [], ◌∷◌, ◌++◌, arith, ◌==◌, pos, u32_mod, All, All-append, sum_by-append,
}
use tp_2026_1c_malloc_and_cr.Memory.Types.{Registros, Segmento, Proceso, Hueco}
use tp_2026_1c_malloc_and_cr.Memory.Holes.{nuevo_hueco, agregar_hueco_libre}
use tp_2026_1c_malloc_and_cr.Memory.Holes.Fit.{suma_huecos}
use tp_2026_1c_malloc_and_cr.Memory.Holes.Cover.{IsHueco, cubre_huecos, cubre_hueco, tamano_hueco}
use tp_2026_1c_malloc_and_cr.Memory.State.{
  Km, IsValid, IsProceso, IsSegmento, IsEnMemoria, tamano_real_lem, cubre_proceso, suma_proceso,
  cubre_segmento, suma_segmento, cubre_tabla, suma_tabla,
}
use tp_2026_1c_malloc_and_cr.Memory.Processes.{
  buscar_proceso, quitar_proceso, quitar_path, modificar_proceso, proceso_nuevo, crear_proceso,
  solicitud_contexto, actualizar_contexto, liberar_segmentos, eliminar_proceso,
}
use tp_2026_1c_malloc_and_cr.Memory.Processes.Table.{
  sum_by-quitar_proceso, sum_by-poner_proceso, All-poner_proceso, All-quitar_proceso,
  All-buscar_proceso,
}

-- A process created under a new pid has no memory: the map stays a partition, and the process is
-- found with an empty table.
pub crear_proceso-IsValid :
    (pid : ℕ) (km : Km)
    → IsValid km
    → buscar_proceso pid km.procesos ≡ none
    → IsValid (crear_proceso pid km).1
unfolding crear_proceso
crear_proceso-IsValid pid km v nuevo = record {
  acotada = v.acotada;
  huecos_ok = v.huecos_ok;
  segmentos_ok =
      All-poner_proceso (IsProceso km.memoria_total) (proceso_nuevo pid) km.procesos tt
        v.segmentos_ok;
  cubierta = λ a. omega (
    arith,
    v.cubierta a,
    sum_by-poner_proceso (cubre_proceso a) (proceso_nuevo pid) km.procesos nuevo,
  );
  sumada =
      omega
        (arith, v.sumada, sum_by-poner_proceso suma_proceso (proceso_nuevo pid) km.procesos nuevo);
}

-- Every segment of a table is in memory.
abbrev pub IsResidente : List Segmento → Type 0
IsResidente ss = All (λ s. s.en_swap ≡ false) ss

abbrev Liberados : ℕ → List Segmento → List Hueco → Option (List Hueco) → Type 0
Liberados total ss hs none = ⊥
Liberados total ss hs (some hs') =
    All (IsHueco total) hs'
    × ((a : ℕ) → cubre_huecos hs' a ≡ cubre_huecos hs a + cubre_tabla ss a)
    × (suma_huecos hs' ≡ suma_huecos hs + suma_tabla ss)

-- One more segment freed before the others.
Liberados-cons :
    (total : ℕ) (s : Segmento) (ss : List Segmento) (hs : List Hueco) (o : Option (List Hueco))
    → s.en_swap ≡ false
    → Liberados total ss (hs ++ (nuevo_hueco s.base_global s.tamanio ∷ [])) o
    → Liberados total (s ∷ ss) hs o
Liberados-cons total s ss hs none r h = h
Liberados-cons total s ss hs (some hs') r (ok, covers, sums) = (
  ok,
  (λ a. omega (
    arith,
    covers a,
    sum_by-append (cubre_hueco a) hs (nuevo_hueco s.base_global s.tamanio ∷ []),
    ap (λ b. cubre_segmento b s a) r,
  )),
  omega (
    arith,
    sums,
    sum_by-append tamano_hueco hs (nuevo_hueco s.base_global s.tamanio ∷ []),
    ap (λ b. suma_segmento b s) r,
  ),
)

liberar_segmentos-Liberados :
    (total : ℕ) (ss : List Segmento) (hs : List Hueco)
    → total < u32_mod
    → All (IsSegmento total) ss
    → IsResidente ss
    → All (IsHueco total) hs
    → Liberados total ss hs (liberar_segmentos false ss hs)
unfolding liberar_segmentos agregar_hueco_libre
liberar_segmentos-Liberados total [] hs l ok r v = (v, (λ a. omega arith), omega arith)
liberar_segmentos-Liberados total (s ∷ ss) hs l ok r v =
    let here : IsEnMemoria false total s = subst (λ b. IsEnMemoria b total s) r.0 ok.0 in
    rw (tamano_real_lem total s l here) (
      Liberados-cons total s ss hs _ r.0 (
        liberar_segmentos-Liberados total ss (hs ++ (nuevo_hueco s.base_global s.tamanio ∷ [])) l
          ok.1 r.1 (All-append (IsHueco total) hs _ v ((here.0, refl), tt))))

module _ (pid : ℕ) (km : Km) (p : Proceso) (libre : km.mutex_huecos ≡ false)
    (found : buscar_proceso pid km.procesos ≡ some p) where
  eliminar_proceso-eq :
      (hs' : List Hueco)
      → liberar_segmentos false p.tabla_segmentos km.lista_huecos_libres ≡ some hs'
      → eliminar_proceso pid km
        ≡ some (
          pos 1,
          record km {
            lista_huecos_libres = hs';
            procesos = quitar_proceso pid km.procesos;
            paths_por_pid = quitar_path pid km.paths_por_pid;
          },
        )
  unfolding eliminar_proceso
  eliminar_proceso-eq hs' e = ground arith

  -- Removing a known process whose segments are all in memory answers 1, keeps the map a partition,
  -- and gives all its bytes back to the free memory.
  pub eliminar_proceso-IsValid :
      IsValid km
      → IsResidente p.tabla_segmentos
      → (km' : Km) × (eliminar_proceso pid km ≡ some (pos 1, km'))
        × IsValid km'
        × (km'.procesos ≡ quitar_proceso pid km.procesos)
        × (suma_huecos km'.lista_huecos_libres
            ≡ suma_huecos km.lista_huecos_libres + suma_tabla p.tabla_segmentos)
  eliminar_proceso-IsValid v r =
      let total = km.memoria_total in
      let freed =
        liberar_segmentos-Liberados total p.tabla_segmentos km.lista_huecos_libres v.acotada
          (All-buscar_proceso (IsProceso total) pid p km.procesos v.segmentos_ok found) r
          v.huecos_ok in
      elim (Option-cases (liberar_segmentos false p.tabla_segmentos km.lista_huecos_libres)) [
        | inl e ↦ absurd (subst (Liberados total p.tabla_segmentos km.lista_huecos_libres) e freed)
        | inr (hs', e) ↦
            let (ok, covers, sums) =
              subst (Liberados total p.tabla_segmentos km.lista_huecos_libres) e freed in
            (
              _,
              eliminar_proceso-eq hs' e,
              record {
                acotada = v.acotada;
                huecos_ok = ok;
                segmentos_ok = All-quitar_proceso (IsProceso total) pid km.procesos v.segmentos_ok;
                cubierta = λ a. omega (
                  arith,
                  v.cubierta a,
                  covers a,
                  sum_by-quitar_proceso (cubre_proceso a) pid p km.procesos found,
                );
                sumada = omega (
                  arith,
                  v.sumada,
                  sums,
                  sum_by-quitar_proceso suma_proceso pid p km.procesos found,
                );
              },
              refl,
              sums,
            )
      ]

pub buscar-modificar :
    (pid : ℕ) (p : Proceso) (g : Proceso → Proceso) (ps : List Proceso)
    → ((q : Proceso) → (g q).pid ≡ q.pid)
    → buscar_proceso pid ps ≡ some p
    → buscar_proceso pid (modificar_proceso pid g ps) ≡ some (g p)
unfolding buscar_proceso modificar_proceso
buscar-modificar pid p g [] k e = absurd (cc)
buscar-modificar pid p g (q ∷ ps) k e = ground (arith, k q, buscar-modificar pid p g ps k)

pub buscar-modificar_ne :
    (pid otro : ℕ) (g : Proceso → Proceso) (ps : List Proceso)
    → ((q : Proceso) → (g q).pid ≡ q.pid)
    → otro ≢ pid
    → buscar_proceso otro (modificar_proceso pid g ps) ≡ buscar_proceso otro ps
unfolding buscar_proceso modificar_proceso
buscar-modificar_ne pid otro g [] k n = refl
buscar-modificar_ne pid otro g (q ∷ ps) k n =
    ground (arith, k q, buscar-modificar_ne pid otro g ps k n)

-- A stored context reads back: after `actualizar_contexto` of a known pid, `solicitud_contexto` gives
-- the stored registers and the process's own segment table, and what it gives for any other pid is
-- what it gave before.
pub solicitud-actualizar :
    (pid : ℕ) (registros : Registros) (km : Km) (p : Proceso)
    → buscar_proceso pid km.procesos ≡ some p
    → (solicitud_contexto pid (actualizar_contexto pid registros km)
        ≡ some (registros, p.tabla_segmentos))
      × ((otro : ℕ)
          → (otro ≡ pid)
            ⊎ (solicitud_contexto otro (actualizar_contexto pid registros km)
                ≡ solicitud_contexto otro km))
unfolding solicitud_contexto actualizar_contexto
solicitud-actualizar pid registros km p found = (
  rw (
    buscar-modificar pid p (λ q. record q { registros = registros }) km.procesos (λ q. refl) found,
    solicitud_contexto,
  ),
  λ otro. elim (Bool-cases (otro == pid)) [
    | inl same ↦ inl (ground arith)
    | inr other ↦ inr (
        rw (
          buscar-modificar_ne pid otro (λ q. record q { registros = registros }) km.procesos
              (λ q. refl) (ground arith),
          solicitud_contexto,
        ))
  ],
)
