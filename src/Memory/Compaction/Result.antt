-- ===== src/Memory/Compaction/Result.antt =====
-- `iniciar_compactacion` from its start to its end.
use tp_2026_1c_malloc_and_cr.Base.{
  ℕ, ◌≤◌, ◌<◌, ◌≡◌, ◌∙◌, refl, sym, subst, Bool, true, false, ltb, Option, none, some, inl, inr,
  List, All, All-imp, sum_by, sub32, ℤ, pos, arith,
}
use tp_2026_1c_malloc_and_cr.Fragments.Store.{Sticks}
use tp_2026_1c_malloc_and_cr.Memory.Types.{Proceso}
use tp_2026_1c_malloc_and_cr.Memory.Holes.Fit.{suma_huecos}
use tp_2026_1c_malloc_and_cr.Memory.State.{Km, IsValid, cubre_procesos, suma_procesos}
use tp_2026_1c_malloc_and_cr.Memory.Processes.{buscar_proceso}
use tp_2026_1c_malloc_and_cr.Memory.Segments.{crear_segmento}
use tp_2026_1c_malloc_and_cr.Memory.Segments.Accounting.{
  CreaSegmento, SegmentoCreado, crear_segmento-CreaSegmento,
}
use tp_2026_1c_malloc_and_cr.Memory.Sticks.Connection.{Posiciones}
use tp_2026_1c_malloc_and_cr.Memory.Transfer.Flat.{IsConectada, byte_global}
use tp_2026_1c_malloc_and_cr.Memory.Compaction.{
  Referencia, segmento_en, segmentos_de_procesos, Orden, obtener_lista_temp_ord, Avance,
  iniciar_compactacion,
}
use tp_2026_1c_malloc_and_cr.Memory.Compaction.Places.{
  valor, medida, en_memoria, aqui, veces-procesos, suma-procesos, sum_by_ext,
}
use tp_2026_1c_malloc_and_cr.Memory.Compaction.Packed.{
  suma_de, cubre_en, tamanio_en, Movido, IsAvance, compactar-Compactado,
}
use tp_2026_1c_malloc_and_cr.Memory.Compaction.Sorted.{
  IsListSort, IsPoblado, Vivo-All, apilar, desde_cero, malo, suma_malo, sum_by_cero-All,
  en_memoria-cubre, en_memoria-suma, lista_mismos, lista-Ordenada,
}
use tp_2026_1c_malloc_and_cr.Memory.Compaction.Ending.{
  veces-All, Conserva, Movido-Conserva, compacto, hueco_final, terminar-crear, iniciar-terminar,
  compacto-IsValid,
}

module _ (list_sort : Orden) (sort_ok : IsListSort list_sort) (km : Km) (sticks : Sticks)
    (v : IsValid km) (poblados : All IsPoblado km.procesos)
    (posiciones : Posiciones km.memoria_total km.lista_dir_global_ms)
    (conectada : IsConectada km.memoria_total km.lista_ms km.lista_dir_global_ms sticks) where
  abbrev lista : List Referencia
  lista = obtener_lista_temp_ord list_sort km.procesos

  abbrev inicio : Avance
  inicio = record { procesos = km.procesos; sticks = sticks; proxima_base_libre = 0 }

  cubre_lista : (a : ℕ) → cubre_procesos km.procesos a ≡ suma_de (cubre_en a) km.procesos lista
  cubre_lista a = sym (
      lista_mismos list_sort sort_ok km.procesos
        (λ r. medida (cubre_en a) (segmento_en r km.procesos))
      ∙ suma-procesos 0 (cubre_en a) km.procesos
      ∙ sum_by_ext (λ p. sum_by (λ s. en_memoria (cubre_en a) s.en_swap s) p.tabla_segmentos) _
          km.procesos
          (λ p.
            sum_by_ext (λ s. en_memoria (cubre_en a) s.en_swap s) _ p.tabla_segmentos
              (λ s. en_memoria-cubre a s.en_swap s)))

  suma_lista : suma_procesos km.procesos ≡ suma_de tamanio_en km.procesos lista
  suma_lista = sym (
      lista_mismos list_sort sort_ok km.procesos
        (λ r. medida tamanio_en (segmento_en r km.procesos))
      ∙ suma-procesos 0 tamanio_en km.procesos
      ∙ sum_by_ext (λ p. sum_by (λ s. en_memoria tamanio_en s.en_swap s) p.tabla_segmentos) _
          km.procesos
          (λ p.
            sum_by_ext (λ s. en_memoria tamanio_en s.en_swap s) _ p.tabla_segmentos
              (λ s. en_memoria-suma s.en_swap s)))

  inicio-IsAvance :
      IsAvance km.memoria_total km.lista_ms km.lista_dir_global_ms v.acotada posiciones lista inicio
  inicio-IsAvance =
      let ps = km.procesos in
      let vivos = Vivo-All km.memoria_total ps lista v.segmentos_ok poblados (
        sum_by_cero-All (λ r. valor 1 malo (segmento_en r ps)) lista
          (lista_mismos list_sort sort_ok ps (λ r. valor 1 malo (segmento_en r ps))
            ∙ suma_malo ps)) in
      record {
        conectada = conectada;
        segmentos_ok = v.segmentos_ok;
        techo = omega arith;
        apilados =
            apilar km.memoria_total ps 0 lista vivos (desde_cero _ lista)
              (lista-Ordenada list_sort sort_ok ps)
              (λ a. let c = v.cubierta a in let e = cubre_lista a in ground (arith, c, e));
        una_vez = λ i j.
            let m = lista_mismos list_sort sort_ok ps (aqui i j) in
            let n = veces-procesos i j ps in omega (arith, m, n);
        cubierta = λ a. let c = cubre_lista a in ground (arith, c);
        sumada = omega (arith, suma_lista);
      }

  module _ (pid id t : ℕ) (p : Proceso) (libre : km.mutex_huecos ≡ false)
      (found : buscar_proceso pid km.procesos ≡ some p) (positivo : 0 < t)
      (entra : t ≤ suma_huecos km.lista_huecos_libres) where
    con_lugar :
        (av : Avance) (r : Option (ℤ × Km))
        → sub32 km.memoria_total av.proxima_base_libre ≡ suma_huecos km.lista_huecos_libres
        → CreaSegmento pid id t (compacto km av) r
        → (c : ℤ) × (km' : Km) × (r ≡ some (c, km'))
          × IsValid km'
          × SegmentoCreado pid id t (compacto km av) (pos 1) km'
    con_lugar av none gran h = absurd h
    con_lugar av (some (c, km')) gran (valido, mismo_total, inl nada) =
        absurd (falta (ltb 0 (sub32 km.memoria_total av.proxima_base_libre)) refl nada.no_entra)
      where
        falta :
            (b : Bool)
            → ltb 0 (sub32 km.memoria_total av.proxima_base_libre) ≡ b
            → All
                (λ h. h.tamano < t)
                (hueco_final b av.proxima_base_libre (sub32 km.memoria_total av.proxima_base_libre))
            → ⊥
        falta true e (h, fin) = absurd (omega (arith, h, gran, entra))
        falta false e h = absurd (ground (arith, gran, entra, positivo))
    con_lugar av (some (c, km')) gran (valido, mismo_total, inr creado) = (
      c,
      km',
      refl,
      valido,
      subst (λ z. SegmentoCreado pid id t (compacto km av) z km') creado.codigo creado,
    )

    -- Compaction comes to its end and returns 1, the memory map stays a partition, and the segment for
    -- which it was asked is created in the table of its process, at the base of a hole of the compacted
    -- map, when the free bytes add up to its size. That map has one hole at most, and every segment in
    -- memory is in it at a new base with the bytes that it had. The lock of the holes is free, the
    -- process is known, the segments in memory have from 1 to 2³¹ - 1 bytes and the new one at least 1,
    -- the Memory Sticks are connected, and `list_sort` sorts.
    pub iniciar_compactacion-Conserva :
        (av : Avance) × (km' : Km) × (iniciar_compactacion list_sort pid id t km sticks
          ≡ some (pos 1, km', av.sticks))
        × IsValid km'
        × SegmentoCreado pid id t (compacto km av) (pos 1) km'
        × All
            (Conserva km.procesos
              (byte_global km.lista_ms sticks km.lista_dir_global_ms)
              av.procesos
              (byte_global km.lista_ms av.sticks km.lista_dir_global_ms))
            (segmentos_de_procesos km.procesos)
    iniciar_compactacion-Conserva =
        let ps = km.procesos in
        let f = byte_global km.lista_ms sticks km.lista_dir_global_ms in
        let (av, hecho, c) =
          compactar-Compactado km.memoria_total km.lista_ms km.lista_dir_global_ms v.acotada
            posiciones lista inicio inicio-IsAvance in
        let g = byte_global km.lista_ms av.sticks km.lista_dir_global_ms in
        let final = c.final in
        let techo = final.techo in
        let acotada = v.acotada in
        let sumada : suma_procesos av.procesos ≡ av.proxima_base_libre =
          omega (arith, final.sumada) in
        let gran : sub32 km.memoria_total av.proxima_base_libre
            ≡ suma_huecos km.lista_huecos_libres =
          omega (arith, v.sumada, c.suma, sumada) in
        let valido =
          compacto-IsValid km av v.acotada techo final.segmentos_ok
            (λ a. omega (arith, final.cubierta a)) sumada in
        let (q, esta) = c.presentes pid p found in
        let (z, km', creado, valido', nuevo) =
          con_lugar av (crear_segmento pid id t (compacto km av)) gran
            (crear_segmento-CreaSegmento pid id t (compacto km av) q valido libre esta) in
        (
          av,
          km',
          iniciar-terminar list_sort pid id t km sticks av _ hecho
              (terminar-crear pid id t av km km' z libre creado),
          valido',
          nuevo,
          veces-All (Conserva ps f av.procesos g) lista (segmentos_de_procesos ps)
              (λ r.
                let m = lista_mismos list_sort sort_ok ps (aqui r.proceso r.segmento) in
                omega (arith, m))
              (All-imp (Movido ps f av.procesos g) (Conserva ps f av.procesos g)
                (Movido-Conserva ps av.procesos f g) lista c.movidos),
        )
