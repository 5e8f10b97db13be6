-- ===== src/Scheduler/Transitions/ToReady.antt =====
-- The transitions to READY keep the invariant.
use tp_2026_1c_malloc_and_cr.Base.{ℕ, ◌+◌, ◌<◌, ◌≡◌, refl, ap, none, arith}
use tp_2026_1c_malloc_and_cr.Scheduler.Types.{
  Planificador, new, ready, ready_susp, exec, block, block_susp, codigo, Pcb, Ks,
}
use tp_2026_1c_malloc_and_cr.Scheduler.Queues.{veces, borrar}
use tp_2026_1c_malloc_and_cr.Scheduler.Ready.{con_pcb}
use tp_2026_1c_malloc_and_cr.Scheduler.Transitions.{
  pasar_proceso_exec_a_ready, reencolar_al_inicio, pasar_proceso_blocka_ready,
  pasar_proceso_ready_susp_a_ready,
}
use tp_2026_1c_malloc_and_cr.Scheduler.Transitions.Invariant.{
  marca, IsValid, asignado, sacar-veces, marca-con_pcb, encolar_ready-Encolado,
  encolar_al_inicio-Encolado, PasaA,
}

module _ (a : Planificador) (pid : ℕ) (ks : Ks) (v : IsValid a ks) where
  -- A process in EXEC passes to READY: the call does not fail, the queues stay consistent, and no
  -- other process changes.
  pub pasar_proceso_exec_a_ready-PasaA :
      (ks.pcb pid).estado ≡ exec → PasaA a pid ready ks (pasar_proceso_exec_a_ready pid ks)
  unfolding pasar_proceso_exec_a_ready
  pasar_proceso_exec_a_ready-PasaA en =
      let u = v.1 in
      let once : 0 < veces pid ks.cola_exec = omega (arith, u.en_exec pid, ap (marca exec) en) in
      let (out, counts) = sacar-veces pid ks.cola_exec once in
      let dado =
        asignado ks.pid_para_asignar pid ks.pcb u.sin_asignar (omega (arith, ap codigo en)) in
      let f : Pcb → Pcb = λ p. record p { estado = ready; socket_cpu_ejecuta = none } in
      let cambio = marca-con_pcb pid exec ready ks.pcb f en (λ p. refl) in
      let medio : Ks = record ks {
        cola_exec = borrar pid ks.cola_exec;
        pcb = con_pcb pid f ks.pcb;
      } in
      let (despues, sem, eq, (largo, mas)) =
        encolar_ready-Encolado a pid medio v.0 (ground (arith, u.en_rango pid dado)) in
      let ks' : Ks = record medio {
        colas_ready = despues;
        sem_ready_prioridad = sem;
        sem_hay_procesos_en_ready = ks.sem_hay_procesos_en_ready + 1;
      } in
      (
        ks',
        rw (out, pasar_proceso_exec_a_ready, out, eq),
        (
          v.0,
          record {
            en_new = λ p. omega (arith, u.en_new p, cambio new p);
            en_ready = λ p. omega (arith, u.en_ready p, cambio ready p, mas p);
            en_ready_susp = λ p. omega (arith, u.en_ready_susp p, cambio ready_susp p);
            en_exec = λ p. omega (arith, u.en_exec p, cambio exec p, counts p);
            en_block = λ p. omega (arith, u.en_block p, cambio block p);
            en_block_susp = λ p. omega (arith, u.en_block_susp p, cambio block_susp p);
            en_exit = u.en_exit;
            sin_asignar = λ p l. ground (arith, dado, u.sin_asignar p);
            colas = omega (arith, largo, u.colas);
            en_rango = λ p l. ground (arith, u.en_rango p l, largo);
          },
        ),
        ground arith,
        λ p n. ground arith,
      )

  -- A process in EXEC passes to READY, at the head of its queue: the call does not fail, the queues stay consistent, and no
  -- other process changes.
  pub reencolar_al_inicio-PasaA :
      (ks.pcb pid).estado ≡ exec → PasaA a pid ready ks (reencolar_al_inicio pid ks)
  unfolding reencolar_al_inicio
  reencolar_al_inicio-PasaA en =
      let u = v.1 in
      let once : 0 < veces pid ks.cola_exec = omega (arith, u.en_exec pid, ap (marca exec) en) in
      let (out, counts) = sacar-veces pid ks.cola_exec once in
      let dado =
        asignado ks.pid_para_asignar pid ks.pcb u.sin_asignar (omega (arith, ap codigo en)) in
      let f : Pcb → Pcb = λ p. record p { estado = ready } in
      let cambio = marca-con_pcb pid exec ready ks.pcb f en (λ p. refl) in
      let medio : Ks = record ks {
        cola_exec = borrar pid ks.cola_exec;
        pcb = con_pcb pid f ks.pcb;
      } in
      let (despues, eq, (largo, mas)) =
        encolar_al_inicio-Encolado a pid medio v.0 (ground (arith, u.en_rango pid dado)) in
      let ks' : Ks = record medio {
        colas_ready = despues;
        sem_hay_procesos_en_ready = ks.sem_hay_procesos_en_ready + 1;
      } in
      (
        ks',
        rw (out, reencolar_al_inicio, out, eq),
        (
          v.0,
          record {
            en_new = λ p. omega (arith, u.en_new p, cambio new p);
            en_ready = λ p. omega (arith, u.en_ready p, cambio ready p, mas p);
            en_ready_susp = λ p. omega (arith, u.en_ready_susp p, cambio ready_susp p);
            en_exec = λ p. omega (arith, u.en_exec p, cambio exec p, counts p);
            en_block = λ p. omega (arith, u.en_block p, cambio block p);
            en_block_susp = λ p. omega (arith, u.en_block_susp p, cambio block_susp p);
            en_exit = u.en_exit;
            sin_asignar = λ p l. ground (arith, dado, u.sin_asignar p);
            colas = omega (arith, largo, u.colas);
            en_rango = λ p l. ground (arith, u.en_rango p l, largo);
          },
        ),
        ground arith,
        λ p n. ground arith,
      )

  -- A process in BLOCK passes to READY: the call does not fail, the queues stay consistent, and no
  -- other process changes.
  pub pasar_proceso_blocka_ready-PasaA :
      (ks.pcb pid).estado ≡ block → PasaA a pid ready ks (pasar_proceso_blocka_ready pid ks)
  unfolding pasar_proceso_blocka_ready
  pasar_proceso_blocka_ready-PasaA en =
      let u = v.1 in
      let once : 0 < veces pid ks.cola_block = omega (arith, u.en_block pid, ap (marca block) en) in
      let (out, counts) = sacar-veces pid ks.cola_block once in
      let dado =
        asignado ks.pid_para_asignar pid ks.pcb u.sin_asignar (omega (arith, ap codigo en)) in
      let f : Pcb → Pcb = λ p. record p { estado = ready } in
      let cambio = marca-con_pcb pid block ready ks.pcb f en (λ p. refl) in
      let medio : Ks = record ks {
        cola_block = borrar pid ks.cola_block;
        pcb = con_pcb pid f ks.pcb;
      } in
      let (despues, sem, eq, (largo, mas)) =
        encolar_ready-Encolado a pid medio v.0 (ground (arith, u.en_rango pid dado)) in
      let ks' : Ks = record medio {
        colas_ready = despues;
        sem_ready_prioridad = sem;
        sem_hay_procesos_en_ready = ks.sem_hay_procesos_en_ready + 1;
      } in
      (
        ks',
        rw (out, pasar_proceso_blocka_ready, out, eq),
        (
          v.0,
          record {
            en_new = λ p. omega (arith, u.en_new p, cambio new p);
            en_ready = λ p. omega (arith, u.en_ready p, cambio ready p, mas p);
            en_ready_susp = λ p. omega (arith, u.en_ready_susp p, cambio ready_susp p);
            en_exec = λ p. omega (arith, u.en_exec p, cambio exec p);
            en_block = λ p. omega (arith, u.en_block p, cambio block p, counts p);
            en_block_susp = λ p. omega (arith, u.en_block_susp p, cambio block_susp p);
            en_exit = u.en_exit;
            sin_asignar = λ p l. ground (arith, dado, u.sin_asignar p);
            colas = omega (arith, largo, u.colas);
            en_rango = λ p l. ground (arith, u.en_rango p l, largo);
          },
        ),
        ground arith,
        λ p n. ground arith,
      )

  -- A process in READY_SUSP passes to READY: the call does not fail, the queues stay consistent, and no
  -- other process changes.
  pub pasar_proceso_ready_susp_a_ready-PasaA :
      (ks.pcb pid).estado ≡ ready_susp
      → PasaA a pid ready ks (pasar_proceso_ready_susp_a_ready pid ks)
  unfolding pasar_proceso_ready_susp_a_ready
  pasar_proceso_ready_susp_a_ready-PasaA en =
      let u = v.1 in
      let once : 0 < veces pid ks.cola_ready_susp =
        omega (arith, u.en_ready_susp pid, ap (marca ready_susp) en) in
      let (out, counts) = sacar-veces pid ks.cola_ready_susp once in
      let dado =
        asignado ks.pid_para_asignar pid ks.pcb u.sin_asignar (omega (arith, ap codigo en)) in
      let f : Pcb → Pcb = λ p. record p { estado = ready } in
      let cambio = marca-con_pcb pid ready_susp ready ks.pcb f en (λ p. refl) in
      let medio : Ks = record ks {
        cola_ready_susp = borrar pid ks.cola_ready_susp;
        pcb = con_pcb pid f ks.pcb;
      } in
      let (despues, sem, eq, (largo, mas)) =
        encolar_ready-Encolado a pid medio v.0 (ground (arith, u.en_rango pid dado)) in
      let ks' : Ks = record medio {
        colas_ready = despues;
        sem_ready_prioridad = sem;
        sem_hay_procesos_en_ready = ks.sem_hay_procesos_en_ready + 1;
      } in
      (
        ks',
        rw (out, pasar_proceso_ready_susp_a_ready, out, eq),
        (
          v.0,
          record {
            en_new = λ p. omega (arith, u.en_new p, cambio new p);
            en_ready = λ p. omega (arith, u.en_ready p, cambio ready p, mas p);
            en_ready_susp = λ p. omega (arith, u.en_ready_susp p, cambio ready_susp p, counts p);
            en_exec = λ p. omega (arith, u.en_exec p, cambio exec p);
            en_block = λ p. omega (arith, u.en_block p, cambio block p);
            en_block_susp = λ p. omega (arith, u.en_block_susp p, cambio block_susp p);
            en_exit = u.en_exit;
            sin_asignar = λ p l. ground (arith, dado, u.sin_asignar p);
            colas = omega (arith, largo, u.colas);
            en_rango = λ p l. ground (arith, u.en_rango p l, largo);
          },
        ),
        ground arith,
        λ p n. ground arith,
      )
