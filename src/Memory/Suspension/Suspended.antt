-- ===== src/Memory/Suspension/Suspended.antt =====
-- A suspension comes to its end, and the memory of what went to Swap is free.
use tp_2026_1c_malloc_and_cr.Base.{
  ℕ, zero, suc, ◌+◌, ◌<◌, ◌≡◌, ◌∙◌, refl, sym, ap, subst, length, Bool, true, false, some, List, [],
  ◌∷◌, get_elem?, All, pos, arith,
}
use tp_2026_1c_malloc_and_cr.Memory.Types.{Segmento, Proceso}
use tp_2026_1c_malloc_and_cr.Memory.State.{IsValid, IsProceso, cubre_proceso, suma_proceso}
use tp_2026_1c_malloc_and_cr.Memory.Processes.{buscar_proceso}
use tp_2026_1c_malloc_and_cr.Memory.Processes.Table.{
  sum_by-modificar_proceso, All-modificar_proceso,
}
use tp_2026_1c_malloc_and_cr.Memory.Processes.Removal.{buscar-modificar}
use tp_2026_1c_malloc_and_cr.Memory.Sticks.Connection.{Posiciones}
use tp_2026_1c_malloc_and_cr.Memory.Transfer.Flat.{IsConectada}
use tp_2026_1c_malloc_and_cr.Memory.Compaction.Sorted.{TieneTamanio}
use tp_2026_1c_malloc_and_cr.Memory.Suspension.{
  Sistema, marcar_suspendido, suspender_segmentos, marcar, suspender_proceso_memoria,
}
use tp_2026_1c_malloc_and_cr.Memory.Suspension.Round.{
  Entra, Suerte, Gasta, Suerte-Gasta, EnCurso, suspender-Ronda,
}

-- What the rounds leave: the segments before them, and the fate of each of theirs.
suspender_segmentos-EnCurso :
    (block_size bits : ℕ) (basura : ℕ → ℕ) (pid j : ℕ) (ss : List Segmento) (st : Sistema)
    (v : EnCurso block_size bits pid j ss st)
    → (fin : Sistema) × (suspender_segmentos basura pid j ss st ≡ some fin)
      × (n : ℕ) × (w : EnCurso block_size bits pid n [] fin) × Gasta st.bitmap_swap fin.bitmap_swap
      × ((i : ℕ)
          → i < j
          → get_elem? w.proceso.tabla_segmentos i ≡ get_elem? v.proceso.tabla_segmentos i)
      × ((i : ℕ) (s : Segmento)
          → get_elem? ss i ≡ some s
          → (s' : Segmento) × (get_elem? w.proceso.tabla_segmentos (j + i) ≡ some s')
            × Suerte block_size fin.bitmap_swap s.en_swap s s')
unfolding suspender_segmentos
suspender_segmentos-EnCurso block_size bits basura pid j [] st v =
    (st, refl, j, v, (λ b n h. h), (λ i l. refl), λ i s e. absurd (cc))
suspender_segmentos-EnCurso block_size bits basura pid j (s ∷ ss) st v =
    let (st', hecho, (v', gasta, antes, s', aqui, suerte)) =
      suspender-Ronda block_size bits basura pid j s ss st v in
    let (fin, sigue', n, w, gasta', antes', suertes) =
      suspender_segmentos-EnCurso block_size bits basura pid (j + 1) ss st' v' in
    (
      fin,
      rw (hecho, suspender_segmentos) sigue',
      n,
      w,
      (λ b m h. gasta b m (gasta' b m h)),
      (λ i l. antes' i (omega (arith, l)) ∙ antes i l),
      λ i x e. cada i x e fin n w st' v' gasta' antes' suertes s' aqui suerte,
    )
  where
    cada :
        (i : ℕ) (x : Segmento)
        → get_elem? (s ∷ ss) i ≡ some x
        → (fin : Sistema) (n : ℕ) (w : EnCurso block_size bits pid n [] fin) (st' : Sistema)
        → (v' : EnCurso block_size bits pid (j + 1) ss st') → Gasta st'.bitmap_swap fin.bitmap_swap
        → ((i : ℕ)
            → i < j + 1
            → get_elem? w.proceso.tabla_segmentos i ≡ get_elem? v'.proceso.tabla_segmentos i)
        → ((i : ℕ) (s : Segmento)
            → get_elem? ss i ≡ some s
            → (s' : Segmento) × (get_elem? w.proceso.tabla_segmentos (j + 1 + i) ≡ some s')
              × Suerte block_size fin.bitmap_swap s.en_swap s s')
        → (s' : Segmento) → get_elem? v'.proceso.tabla_segmentos j ≡ some s'
        → Suerte block_size st'.bitmap_swap s.en_swap s s'
        → (x' : Segmento) × (get_elem? w.proceso.tabla_segmentos (j + i) ≡ some x')
          × Suerte block_size fin.bitmap_swap x.en_swap x x'
    cada zero x e fin n w st' v' gasta antes suertes s' aqui suerte =
        let mismo : s ≡ x = cc in
        let z : j ≡ j + 0 = omega arith in
        let largo : length fin.bitmap_swap ≡ length st'.bitmap_swap = w.de_bits ∙ sym v'.de_bits in
        (
          s',
          subst (λ k. get_elem? w.proceso.tabla_segmentos k ≡ some s') z
              (antes j (omega arith) ∙ aqui),
          subst (λ y. Suerte block_size fin.bitmap_swap y.en_swap y s') mismo
              (Suerte-Gasta block_size st'.bitmap_swap fin.bitmap_swap s.en_swap s s' largo gasta
                suerte),
        )
    cada (suc i) x e fin n w st' v' gasta antes suertes s' aqui suerte =
        let (x', esta, fue) = suertes i x e in
        let z : j + 1 + i ≡ j + suc i = omega arith in
        (x', subst (λ k. get_elem? w.proceso.tabla_segmentos k ≡ some x') z esta, fue)

-- Marking the process changes no count.
pub marcar-IsValid :
    (pid : ℕ) (b : Bool) (p : Proceso) (st : Sistema)
    → IsValid st.km
    → buscar_proceso pid st.km.procesos ≡ some p
    → IsValid (marcar pid b st).km
marcar-IsValid pid b p st v found =
    let ps = st.km.procesos in
    let f = marcar_suspendido b in
    record {
      acotada = v.acotada;
      huecos_ok = v.huecos_ok;
      segmentos_ok =
          All-modificar_proceso (IsProceso st.km.memoria_total) pid f ps (λ q ok. ok)
            v.segmentos_ok;
      cubierta = λ a.
          omega (arith, v.cubierta a, sum_by-modificar_proceso (cubre_proceso a) pid p f ps found);
      sumada = omega (arith, v.sumada, sum_by-modificar_proceso suma_proceso pid p f ps found);
    }

-- The suspension of a process that is known and not suspended returns 1, the memory map stays a
-- partition, the process is marked, and each of its segments that was in memory is in Swap, unless
-- Swap has no free run of as many blocks as it needs. The segments of the process in memory have from
-- 1 to 2³¹ - 1 bytes and need no more blocks than Swap has, Swap and the Memory Sticks are connected,
-- and the lock of the holes is free.
pub suspender_proceso_memoria-IsValid :
    (basura : ℕ → ℕ) (pid : ℕ) (p : Proceso) (st : Sistema)
    → IsValid st.km
    → st.km.mutex_huecos ≡ false
    → Posiciones st.km.memoria_total st.km.lista_dir_global_ms
    → IsConectada st.km.memoria_total st.km.lista_ms st.km.lista_dir_global_ms st.sticks
    → buscar_proceso pid st.km.procesos ≡ some p
    → p.suspendido ≡ false
    → All (λ s. TieneTamanio s.en_swap s) p.tabla_segmentos
    → 0 < st.swap_block_size
    → All (λ s. Entra st.swap_block_size (length st.bitmap_swap) s.en_swap s) p.tabla_segmentos
    → (st' : Sistema) × (q : Proceso) × (suspender_proceso_memoria basura pid st
        ≡ some (pos 1, st'))
      × IsValid st'.km
      × (buscar_proceso pid st'.km.procesos ≡ some q)
      × (q.suspendido ≡ true)
      × ((i : ℕ) (s : Segmento)
          → get_elem? p.tabla_segmentos i ≡ some s
          → (s' : Segmento) × (get_elem? q.tabla_segmentos i ≡ some s')
            × Suerte st.swap_block_size st'.bitmap_swap s.en_swap s s')
unfolding suspender_proceso_memoria
suspender_proceso_memoria-IsValid basura pid p st v libre posiciones conectada found activo poblado
      positivo entran =
    let inicial : EnCurso st.swap_block_size (length st.bitmap_swap) pid 0 p.tabla_segmentos st =
      record {
        positivo = positivo;
        de_bloque = refl;
        de_bits = refl;
        entran = entran;
        valido = v;
        libre = libre;
        posiciones = posiciones;
        conectada = conectada;
        proceso = p;
        hallado = found;
        tabla = λ i. let e : 0 + i ≡ i = omega arith in ap (get_elem? p.tabla_segmentos) e;
        poblado = poblado;
      } in
    let (fin, hecho, n, w, gasta, antes, suertes) =
      suspender_segmentos-EnCurso st.swap_block_size (length st.bitmap_swap) basura pid 0
        p.tabla_segmentos st inicial in
    (
      marcar pid true fin,
      marcar_suspendido true w.proceso,
      rw (found, suspender_proceso_memoria, activo, hecho),
      marcar-IsValid pid true w.proceso fin w.valido w.hallado,
      buscar-modificar pid w.proceso (marcar_suspendido true) fin.km.procesos (λ q. refl) w.hallado,
      refl,
      λ i s e.
          let (s', esta, fue) = suertes i s e in
          let z : 0 + i ≡ i = omega arith in
          (s', subst (λ k. get_elem? w.proceso.tabla_segmentos k ≡ some s') z esta, fue),
    )
