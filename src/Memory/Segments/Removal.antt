-- ===== src/Memory/Segments/Removal.antt =====
-- What `eliminar_segmento` gives back to the free memory.
use tp_2026_1c_malloc_and_cr.Base.{
  ℕ, suc, ◌+◌, ◌≡◌, refl, sym, ap, subst, ◌∙◌, ◌⊎◌, inl, inr, true, false, some, List, [], ◌∷◌,
  ◌++◌, arith, pos, All-append, All-erase_at, All-get_elem?, get_elem?, sum_by-append,
  sum_by-erase_at,
}
use tp_2026_1c_malloc_and_cr.Memory.Types.{Segmento, Proceso}
use tp_2026_1c_malloc_and_cr.Memory.Holes.{nuevo_hueco, agregar_hueco_libre}
use tp_2026_1c_malloc_and_cr.Memory.Holes.Fit.{suma_huecos}
use tp_2026_1c_malloc_and_cr.Memory.Holes.Cover.{IsHueco, cubre, cubre_hueco, tamano_hueco}
use tp_2026_1c_malloc_and_cr.Memory.State.{
  Km, IsValid, IsProceso, IsSegmento, IsEnMemoria, tamano_real, tamano_real_lem, cubre_proceso,
  suma_proceso, cubre_seg, suma_seg, cubre_segmento, suma_segmento,
}
use tp_2026_1c_malloc_and_cr.Memory.Processes.{buscar_proceso, modificar_proceso}
use tp_2026_1c_malloc_and_cr.Memory.Processes.Table.{
  sum_by-modificar_proceso, All-modificar_proceso, All-buscar_proceso,
}
use tp_2026_1c_malloc_and_cr.Memory.Segments.{buscar_segmento, quitar_segmento, eliminar_segmento}

buscar_segmento-here :
    (id i k : ℕ) (s x : Segmento) (ss : List Segmento)
    → buscar_segmento id i (x ∷ ss) ≡ some (k, s)
    → ((x.id_segmento ≡ id) × (i ≡ k) × (x ≡ s)) ⊎ (buscar_segmento id (i + 1) ss ≡ some (k, s))
unfolding buscar_segmento
buscar_segmento-here id i k s x ss e = ground arith

pub buscar_segmento-found :
    (id i k : ℕ) (s : Segmento) (ss : List Segmento)
    → buscar_segmento id i ss ≡ some (k, s)
    → (j : ℕ) × (k ≡ i + j) × (get_elem? ss j ≡ some s) × (s.id_segmento ≡ id)
unfolding buscar_segmento
buscar_segmento-found id i k s [] e = absurd (cc)
buscar_segmento-found id i k s (x ∷ ss) e = elim (buscar_segmento-here id i k s x ss e) [
  | inl (same_id, at, same) ↦
      (0, omega arith, ap some same, ap (λ (g : Segmento). g.id_segmento) (sym same) ∙ same_id)
  | inr later ↦
      let (j, at, got, same_id) = buscar_segmento-found id (i + 1) k s ss later in
      (suc j, omega arith, got, same_id)
]

pub buscar_segmento-get_elem? :
    (id k : ℕ) (s : Segmento) (ss : List Segmento)
    → buscar_segmento id 0 ss ≡ some (k, s)
    → get_elem? ss k ≡ some s
buscar_segmento-get_elem? id k s ss e =
    let (j, at, got, _) = buscar_segmento-found id 0 k s ss e in
    let at' : j ≡ k = omega arith in subst (λ n. get_elem? ss n ≡ some s) at' got

module _ (pid id : ℕ) (km : Km) (p : Proceso) (k : ℕ) (s : Segmento)
    (libre : km.mutex_huecos ≡ false) (found : buscar_proceso pid km.procesos ≡ some p)
    (segmento : buscar_segmento id 0 p.tabla_segmentos ≡ some (k, s)) where
  abbrev pub km_sin_segmento : Km
  km_sin_segmento = record km {
    lista_huecos_libres =
        km.lista_huecos_libres ++ (nuevo_hueco s.base_global (tamano_real s) ∷ []);
    procesos = modificar_proceso pid (quitar_segmento k) km.procesos;
  }

  pub eliminar_segmento-eq : eliminar_segmento pid id km ≡ some (pos 1, km_sin_segmento)
  unfolding eliminar_segmento agregar_hueco_libre
  eliminar_segmento-eq = ground arith

  suma-after :
      suma_huecos km_sin_segmento.lista_huecos_libres
      ≡ suma_huecos km.lista_huecos_libres + tamano_real s
  suma-after = omega (
    arith,
    sum_by-append tamano_hueco km.lista_huecos_libres
        (nuevo_hueco s.base_global (tamano_real s) ∷ []),
  )

  -- Removing a segment that is in memory answers 1, keeps the map a partition, and gives the
  -- segment's size back to the free memory.
  pub eliminar_segmento-IsValid :
      IsValid km
      → s.en_swap ≡ false
      → (eliminar_segmento pid id km ≡ some (pos 1, km_sin_segmento))
        × IsValid km_sin_segmento
        × (suma_huecos km_sin_segmento.lista_huecos_libres
            ≡ suma_huecos km.lista_huecos_libres + s.tamanio)
  eliminar_segmento-IsValid v residente =
      let got = buscar_segmento-get_elem? id k s p.tabla_segmentos segmento in
      let tabla_ok : IsProceso km.memoria_total p =
        All-buscar_proceso (IsProceso km.memoria_total) pid p km.procesos v.segmentos_ok found in
      let ok : IsEnMemoria false km.memoria_total s =
        subst (λ b. IsEnMemoria b km.memoria_total s) residente
          (All-get_elem? (IsSegmento km.memoria_total) p.tabla_segmentos k s tabla_ok got) in
      let huecos = km.lista_huecos_libres in
      let real : tamano_real s ≡ s.tamanio = tamano_real_lem km.memoria_total s v.acotada ok in
      (
        eliminar_segmento-eq,
        record {
          acotada = v.acotada;
          huecos_ok =
              All-append (IsHueco km.memoria_total) km.lista_huecos_libres _ v.huecos_ok
                ((rw real ok.0, refl), tt);
          segmentos_ok =
              All-modificar_proceso (IsProceso km.memoria_total) pid (quitar_segmento k) km.procesos
                (λ q q_ok. All-erase_at (IsSegmento km.memoria_total) q.tabla_segmentos k q_ok)
                v.segmentos_ok;
          cubierta = λ a. omega (
            arith,
            v.cubierta a,
            sum_by-append (cubre_hueco a) huecos (nuevo_hueco s.base_global (tamano_real s) ∷ []),
            ap (λ n. cubre s.base_global n a) real,
            ap (λ b. cubre_segmento b s a) residente,
            sum_by-modificar_proceso (cubre_proceso a) pid p (quitar_segmento k) km.procesos found,
            sum_by-erase_at (cubre_seg a) p.tabla_segmentos k s got,
          );
          sumada = omega (
            arith,
            v.sumada,
            suma-after,
            real,
            ap (λ b. suma_segmento b s) residente,
            sum_by-modificar_proceso suma_proceso pid p (quitar_segmento k) km.procesos found,
            sum_by-erase_at suma_seg p.tabla_segmentos k s got,
          );
        },
        suma-after ∙ ap (λ n. suma_huecos km.lista_huecos_libres + n) real,
      )

  -- A segment in swap has base and limit 0. Its removal answers 1 as well, but frees one byte at
  -- address 0, which the segment does not have: the map is no partition any more.
  pub eliminar_segmento_en_swap :
      IsValid km
      → s.en_swap ≡ true
      → s.base_global ≡ 0
      → s.limite_global ≡ 0
      → (eliminar_segmento pid id km ≡ some (pos 1, km_sin_segmento)) × ¬ IsValid km_sin_segmento
  eliminar_segmento_en_swap v en_swap base_0 limite_0 =
      let got = buscar_segmento-get_elem? id k s p.tabla_segmentos segmento in
      (
        eliminar_segmento-eq,
        λ v'. omega (
          arith,
          v.sumada,
          v'.sumada,
          suma-after,
          base_0,
          limite_0,
          ap (λ b. suma_segmento b s) en_swap,
          sum_by-modificar_proceso suma_proceso pid p (quitar_segmento k) km.procesos found,
          sum_by-erase_at suma_seg p.tabla_segmentos k s got,
        ),
      )
