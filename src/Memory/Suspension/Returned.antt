-- ===== src/Memory/Suspension/Returned.antt =====
-- The return from Swap of a process for which there is room.
use tp_2026_1c_malloc_and_cr.Base.{
  ℕ, ◌<◌, ◌≡◌, ◌∙◌, refl, sym, ap, subst, Bool, true, false, some, List, [], ◌∷◌, set, ◌==◌, All,
  All-set, sum_by-set, pos, arith,
}
use tp_2026_1c_malloc_and_cr.Memory.Types.{Segmento, Proceso}
use tp_2026_1c_malloc_and_cr.Memory.State.{
  Km, IsValid, IsProceso, IsSegmento, cubre_proceso, suma_proceso, cubre_seg, suma_seg,
  cubre_segmento, suma_segmento,
}
use tp_2026_1c_malloc_and_cr.Memory.Processes.{buscar_proceso, modificar_proceso}
use tp_2026_1c_malloc_and_cr.Memory.Processes.Table.{
  sum_by-modificar_proceso, All-modificar_proceso,
}
use tp_2026_1c_malloc_and_cr.Memory.Processes.Removal.{buscar-modificar}
use tp_2026_1c_malloc_and_cr.Memory.Sticks.Connection.{Posiciones}
use tp_2026_1c_malloc_and_cr.Memory.Transfer.Flat.{IsConectada, fragmentos_de, escribir-Tramos}
use tp_2026_1c_malloc_and_cr.Memory.Compaction.Places.{get_elem?-set_ne}
use tp_2026_1c_malloc_and_cr.Memory.Suspension.{
  Sistema, Reserva, reservar, con_segmento, marcar_suspendido, segmento_de_vuelta, bloque_o,
  bloques_necesarios, leer_bloques, traer_segmento, traer_segmentos, confirmar, marcar,
  desuspender_proceso_memoria,
}
use tp_2026_1c_malloc_and_cr.Memory.Suspension.Roundtrip.{leer_segmento_de_swap_lem}
use tp_2026_1c_malloc_and_cr.Memory.Suspension.Suspended.{marcar-IsValid}
use tp_2026_1c_malloc_and_cr.Memory.Suspension.Reserved.{
  Reservado, Lugares, EsCorta, Reservado-sin_reservas, reservar-Mapa, reservar-Lugares,
}

-- What holds before a round.
pub record Trayendo (pid : ℕ) (rs : List Reserva) (st : Sistema) : Type 0 where
  pub mapa : Reservado st.km rs
  pub posiciones : Posiciones st.km.memoria_total st.km.lista_dir_global_ms
  pub conectada : IsConectada st.km.memoria_total st.km.lista_ms st.km.lista_dir_global_ms st.sticks
  pub proceso : Proceso
  pub hallado : buscar_proceso pid st.km.procesos ≡ some proceso
  pub lugares : Lugares proceso.tabla_segmentos rs
  pub cortas : All EsCorta rs

Lugares-set :
    (tabla : List Segmento) (j : ℕ) (s : Segmento) (rs : List Reserva)
    → All (λ x. (x.indice == j) ≡ false) rs
    → Lugares tabla rs
    → Lugares (set tabla j s) rs
Lugares-set tabla j s [] n l = tt
Lugares-set tabla j s (r ∷ rs) (n, ns) (e, distintos, l) =
    (get_elem?-set_ne tabla j r.indice s n ∙ e, distintos, Lugares-set tabla j s rs ns l)

module _ (pid : ℕ) (r : Reserva) (rs : List Reserva) (st : Sistema)
    (v : Trayendo pid (r ∷ rs) st) where
  abbrev vuelta : Segmento
  vuelta = segmento_de_vuelta r.base r.segmento

  abbrev km_con : Km
  km_con = record st.km {
    procesos = modificar_proceso pid (con_segmento r.indice vuelta) st.km.procesos;
  }

  km_con-Reservado : Reservado km_con rs
  km_con-Reservado =
      let m = v.mapa in
      let p = v.proceso in
      let ps = st.km.procesos in
      let total = st.km.memoria_total in
      let k = m.reservas_ok.0 in
      let f = con_segmento r.indice vuelta in
      let dentro = k.dentro in
      let mide = k.tamanio in
      let esta = v.lugares.0 in
      record {
        acotada = m.acotada;
        huecos_ok = m.huecos_ok;
        segmentos_ok =
            All-modificar_proceso (IsProceso total) pid f ps
              (λ q ok.
                All-set (IsSegmento total) q.tabla_segmentos r.indice vuelta ok (omega arith, refl))
              m.segmentos_ok;
        reservas_ok = m.reservas_ok.1;
        cubierta = λ a. omega (
          arith,
          m.cubierta a,
          ap (λ b. cubre_segmento b r.segmento a) k.afuera,
          ap (λ n. cubre_segmento false (record vuelta { tamanio = n }) a) mide,
          sum_by-modificar_proceso (cubre_proceso a) pid p f ps v.hallado,
          sum_by-set (cubre_seg a) p.tabla_segmentos r.indice r.segmento vuelta esta,
        );
        sumada = omega (
          arith,
          m.sumada,
          mide,
          ap (λ b. suma_segmento b r.segmento) k.afuera,
          sum_by-modificar_proceso suma_proceso pid p f ps v.hallado,
          sum_by-set suma_seg p.tabla_segmentos r.indice r.segmento vuelta esta,
        );
      }

  traer-Trayendo : (st' : Sistema) × (traer_segmento pid r st ≡ some st') × Trayendo pid rs st'
  unfolding traer_segmento
  traer-Trayendo =
      let s = r.segmento in
      let leido =
        leer_bloques st.swap_block_size (λ _. 0) s.tamanio 0 (bloque_o s.bloque_swap)
          (bloques_necesarios st.swap_block_size s.tamanio) st.archivo st.bitmap_swap in
      let lee =
        leer_segmento_de_swap_lem st.swap_block_size (λ _. 0) s.tamanio (bloque_o s.bloque_swap)
          (bloques_necesarios st.swap_block_size s.tamanio) st.archivo st.bitmap_swap v.cortas.0 in
      let k = v.mapa.reservas_ok.0 in
      let dentro = k.dentro in
      let mide = k.tamanio in
      let (fs, cortado, tramos) =
        fragmentos_de r.base s.tamanio st.km.memoria_total st.km.lista_dir_global_ms v.posiciones
          v.cortas.0 (omega arith) in
      let (sticks', escrito, conectada', bytes) =
        escribir-Tramos leido.0 tramos st.sticks v.conectada in
      (
        record st { km = km_con; sticks = sticks'; bitmap_swap = leido.1 },
        rw (lee, traer_segmento, cortado, escrito),
        record {
          mapa = km_con-Reservado;
          posiciones = v.posiciones;
          conectada = conectada';
          proceso = con_segmento r.indice vuelta v.proceso;
          hallado =
              buscar-modificar pid v.proceso (con_segmento r.indice vuelta) st.km.procesos
                (λ q. refl) v.hallado;
          lugares =
              Lugares-set v.proceso.tabla_segmentos r.indice vuelta rs v.lugares.1 v.lugares.2;
          cortas = v.cortas.1;
        },
      )

traer_segmentos-Trayendo :
    (pid : ℕ) (rs : List Reserva) (st : Sistema)
    → Trayendo pid rs st
    → (st' : Sistema) × (traer_segmentos pid rs st ≡ some st') × Trayendo pid [] st'
unfolding traer_segmentos
traer_segmentos-Trayendo pid [] st v = (st, refl, v)
traer_segmentos-Trayendo pid (r ∷ rs) st v =
    let (st', hecho, v') = traer-Trayendo pid r rs st v in
    let (fin, sigue, v'') = traer_segmentos-Trayendo pid rs st' v' in
    (fin, rw (hecho, traer_segmentos) sigue, v'')

confirmar-Trayendo :
    (pid : ℕ) (b : Bool) (rs : List Reserva) (st : Sistema)
    → b ≡ true
    → Trayendo pid rs st
    → (st' : Sistema) × (q : Proceso) × (confirmar pid b rs st ≡ some (pos 1, st'))
      × IsValid st'.km
      × (buscar_proceso pid st'.km.procesos ≡ some q)
      × (q.suspendido ≡ false)
unfolding confirmar
confirmar-Trayendo pid false rs st e v = absurd (cc)
confirmar-Trayendo pid true rs st e v =
    let (fin, hecho, w) = traer_segmentos-Trayendo pid rs st v in
    (
      marcar pid false fin,
      marcar_suspendido false w.proceso,
      rw (hecho, confirmar),
      marcar-IsValid pid false w.proceso fin (Reservado-sin_reservas fin.km w.mapa) w.hallado,
      buscar-modificar pid w.proceso (marcar_suspendido false) fin.km.procesos (λ q. refl)
          w.hallado,
      refl,
    )

desuspender-confirmar :
    (pid : ℕ) (p : Proceso) (st : Sistema)
    → buscar_proceso pid st.km.procesos ≡ some p
    → p.suspendido ≡ true
    → let t = reservar 0 p.tabla_segmentos [] st.km in
      desuspender_proceso_memoria pid st ≡ confirmar pid t.0 t.1 (record st { km = t.2 })
unfolding desuspender_proceso_memoria
desuspender-confirmar pid p st found suspendido =
    rw (found, desuspender_proceso_memoria, suspendido)

-- The return from Swap of a suspended process, every segment of which was given a hole, answers 1, the
-- memory map stays a partition, and the process is marked as not suspended. The segments of the
-- process have fewer than 2³¹ bytes, and the Memory Sticks are connected.
pub desuspender_proceso_memoria-IsValid :
    (pid : ℕ) (p : Proceso) (st : Sistema)
    → IsValid st.km
    → Posiciones st.km.memoria_total st.km.lista_dir_global_ms
    → IsConectada st.km.memoria_total st.km.lista_ms st.km.lista_dir_global_ms st.sticks
    → buscar_proceso pid st.km.procesos ≡ some p
    → p.suspendido ≡ true
    → All (λ s. s.tamanio < 2147483648) p.tabla_segmentos
    → (reservar 0 p.tabla_segmentos [] st.km).0 ≡ true
    → (st' : Sistema) × (q : Proceso) × (desuspender_proceso_memoria pid st ≡ some (pos 1, st'))
      × IsValid st'.km
      × (buscar_proceso pid st'.km.procesos ≡ some q)
      × (q.suspendido ≡ false)
desuspender_proceso_memoria-IsValid pid p st v posiciones conectada found suspendido cortos entra =
    let t = reservar 0 p.tabla_segmentos [] st.km in
    let (mapa, resto) = reservar-Mapa p.tabla_segmentos st.km v in
    let (lugares, cortas) = reservar-Lugares p.tabla_segmentos st.km cortos in
    let (st', q, hecho, valido, esta, libre) =
      confirmar-Trayendo pid t.0 t.1 (record st { km = t.2 }) entra
        (record {
          mapa = mapa;
          posiciones =
              subst (λ k. Posiciones k.memoria_total k.lista_dir_global_ms) (sym resto) posiciones;
          conectada =
              subst (λ k. IsConectada k.memoria_total k.lista_ms k.lista_dir_global_ms st.sticks)
                (sym resto) conectada;
          proceso = p;
          hallado = subst (λ k. buscar_proceso pid k.procesos ≡ some p) (sym resto) found;
          lugares = lugares;
          cortas = cortas;
        }) in
    (st', q, desuspender-confirmar pid p st found suspendido ∙ hecho, valido, esta, libre)
