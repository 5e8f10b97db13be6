-- ===== src/Scheduler/Transitions/ToBlock.antt =====
-- The transitions to BLOCK, BLOCK_SUSP and READY_SUSP keep the invariant.
use tp_2026_1c_malloc_and_cr.Base.{
  ℕ, ◌+◌, ◌<◌, ◌≡◌, refl, ap, true, none, some, [], ◌∷◌, ◌++◌, arith,
}
use tp_2026_1c_malloc_and_cr.Scheduler.Types.{
  Planificador, new, ready, ready_susp, exec, block, block_susp, codigo, Pcb, Ks, suspension,
  suspension_de_proceso,
}
use tp_2026_1c_malloc_and_cr.Scheduler.Queues.{uno, veces, borrar}
use tp_2026_1c_malloc_and_cr.Scheduler.Queues.Order.{veces-append}
use tp_2026_1c_malloc_and_cr.Scheduler.Ready.{con_pcb}
use tp_2026_1c_malloc_and_cr.Scheduler.Transitions.{
  pasar_proceso_exec_a_block, pasar_proceso_block_a_block_susp,
  pasar_proceso_block_susp_a_ready_susp,
}
use tp_2026_1c_malloc_and_cr.Scheduler.Transitions.Invariant.{
  marca, IsValid, asignado, sacar-veces, marca-con_pcb, PasaA,
}

module _ (a : Planificador) (pid : ℕ) (ks : Ks) (v : IsValid a ks) where
  -- A process in EXEC passes to BLOCK: the call does not fail, the queues stay consistent, and no
  -- other process changes.
  pub pasar_proceso_exec_a_block-PasaA :
      (ks.pcb pid).estado ≡ exec → PasaA a pid block ks (pasar_proceso_exec_a_block pid ks)
  unfolding pasar_proceso_exec_a_block
  pasar_proceso_exec_a_block-PasaA en =
      let u = v.1 in
      let once : 0 < veces pid ks.cola_exec = omega (arith, u.en_exec pid, ap (marca exec) en) in
      let (out, counts) = sacar-veces pid ks.cola_exec once in
      let dado =
        asignado ks.pid_para_asignar pid ks.pcb u.sin_asignar (omega (arith, ap codigo en)) in
      let f : Pcb → Pcb = λ p. record p {
        estado = block;
        socket_cpu_ejecuta = none;
        id_bloqueo_actual = p.id_bloqueo_actual + 1;
      } in
      let cambio = marca-con_pcb pid exec block ks.pcb f en (λ p. refl) in
      let medio : Ks = record ks {
        cola_exec = borrar pid ks.cola_exec;
        pcb = con_pcb pid f ks.pcb;
      } in
      let mas : (p : ℕ)
          → veces p (ks.cola_block ++ (pid ∷ [])) ≡ veces p ks.cola_block + uno p pid =
        λ p. veces-append p pid ks.cola_block in
      let ks' : Ks = record medio {
        cola_block = ks.cola_block ++ (pid ∷ []);
        temporizadores =
            ks.temporizadores ++ (suspension pid ((ks.pcb pid).id_bloqueo_actual + 1) ∷ []);
      } in
      (
        ks',
        rw (out, pasar_proceso_exec_a_block, out),
        (
          v.0,
          record {
            en_new = λ p. omega (arith, u.en_new p, cambio new p);
            en_ready = λ p. omega (arith, u.en_ready p, cambio ready p);
            en_ready_susp = λ p. omega (arith, u.en_ready_susp p, cambio ready_susp p);
            en_exec = λ p. omega (arith, u.en_exec p, cambio exec p, counts p);
            en_block = λ p. omega (arith, u.en_block p, cambio block p, mas p);
            en_block_susp = λ p. omega (arith, u.en_block_susp p, cambio block_susp p);
            en_exit = u.en_exit;
            sin_asignar = λ p l. ground (arith, dado, u.sin_asignar p);
            colas = u.colas;
            en_rango = λ p l. ground (arith, u.en_rango p l);
          },
        ),
        ground arith,
        λ p n. ground arith,
      )

  -- A process in BLOCK passes to BLOCK_SUSP: the call does not fail, the queues stay consistent, and no
  -- other process changes.
  pub pasar_proceso_block_a_block_susp-PasaA :
      (ks.pcb pid).estado ≡ block
      → PasaA a pid block_susp ks (some (pasar_proceso_block_a_block_susp pid ks).1)
  unfolding pasar_proceso_block_a_block_susp
  pasar_proceso_block_a_block_susp-PasaA en =
      let u = v.1 in
      let once : 0 < veces pid ks.cola_block = omega (arith, u.en_block pid, ap (marca block) en) in
      let (out, counts) = sacar-veces pid ks.cola_block once in
      let dado =
        asignado ks.pid_para_asignar pid ks.pcb u.sin_asignar (omega (arith, ap codigo en)) in
      let f : Pcb → Pcb = λ p. record p { estado = block_susp; suspension_en_curso = true } in
      let cambio = marca-con_pcb pid block block_susp ks.pcb f en (λ p. refl) in
      let medio : Ks = record ks {
        cola_block = borrar pid ks.cola_block;
        pcb = con_pcb pid f ks.pcb;
      } in
      let mas : (p : ℕ)
          → veces p (ks.cola_block_susp ++ (pid ∷ [])) ≡ veces p ks.cola_block_susp + uno p pid =
        λ p. veces-append p pid ks.cola_block_susp in
      let ks' : Ks = record medio {
        cola_block_susp = ks.cola_block_susp ++ (pid ∷ []);
        enviados = ks.enviados ++ (suspension_de_proceso pid ∷ []);
      } in
      (
        ks',
        rw (out, pasar_proceso_block_a_block_susp, out),
        (
          v.0,
          record {
            en_new = λ p. omega (arith, u.en_new p, cambio new p);
            en_ready = λ p. omega (arith, u.en_ready p, cambio ready p);
            en_ready_susp = λ p. omega (arith, u.en_ready_susp p, cambio ready_susp p);
            en_exec = λ p. omega (arith, u.en_exec p, cambio exec p);
            en_block = λ p. omega (arith, u.en_block p, cambio block p, counts p);
            en_block_susp = λ p. omega (arith, u.en_block_susp p, cambio block_susp p, mas p);
            en_exit = u.en_exit;
            sin_asignar = λ p l. ground (arith, dado, u.sin_asignar p);
            colas = u.colas;
            en_rango = λ p l. ground (arith, u.en_rango p l);
          },
        ),
        ground arith,
        λ p n. ground arith,
      )

  -- A process in BLOCK_SUSP passes to READY_SUSP: the call does not fail, the queues stay consistent, and no
  -- other process changes.
  pub pasar_proceso_block_susp_a_ready_susp-PasaA :
      (ks.pcb pid).estado ≡ block_susp
      → PasaA a pid ready_susp ks (pasar_proceso_block_susp_a_ready_susp pid ks)
  unfolding pasar_proceso_block_susp_a_ready_susp
  pasar_proceso_block_susp_a_ready_susp-PasaA en =
      let u = v.1 in
      let once : 0 < veces pid ks.cola_block_susp =
        omega (arith, u.en_block_susp pid, ap (marca block_susp) en) in
      let (out, counts) = sacar-veces pid ks.cola_block_susp once in
      let dado =
        asignado ks.pid_para_asignar pid ks.pcb u.sin_asignar (omega (arith, ap codigo en)) in
      let f : Pcb → Pcb = λ p. record p { estado = ready_susp } in
      let cambio = marca-con_pcb pid block_susp ready_susp ks.pcb f en (λ p. refl) in
      let medio : Ks = record ks {
        cola_block_susp = borrar pid ks.cola_block_susp;
        pcb = con_pcb pid f ks.pcb;
      } in
      let mas : (p : ℕ)
          → veces p (ks.cola_ready_susp ++ (pid ∷ [])) ≡ veces p ks.cola_ready_susp + uno p pid =
        λ p. veces-append p pid ks.cola_ready_susp in
      let ks' : Ks = record medio { cola_ready_susp = ks.cola_ready_susp ++ (pid ∷ []) } in
      (
        ks',
        rw (out, pasar_proceso_block_susp_a_ready_susp, out),
        (
          v.0,
          record {
            en_new = λ p. omega (arith, u.en_new p, cambio new p);
            en_ready = λ p. omega (arith, u.en_ready p, cambio ready p);
            en_ready_susp = λ p. omega (arith, u.en_ready_susp p, cambio ready_susp p, mas p);
            en_exec = λ p. omega (arith, u.en_exec p, cambio exec p);
            en_block = λ p. omega (arith, u.en_block p, cambio block p);
            en_block_susp = λ p. omega (arith, u.en_block_susp p, cambio block_susp p, counts p);
            en_exit = u.en_exit;
            sin_asignar = λ p l. ground (arith, dado, u.sin_asignar p);
            colas = u.colas;
            en_rango = λ p l. ground (arith, u.en_rango p l);
          },
        ),
        ground arith,
        λ p n. ground arith,
      )
