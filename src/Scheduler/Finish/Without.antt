-- ===== src/Scheduler/Finish/Without.antt =====
-- Without a process that has ended, its queue and the others are consistent with its being in EXIT.
use tp_2026_1c_malloc_and_cr.Base.{ℕ, ◌<◌, ◌≡◌, refl, ap, arith}
use tp_2026_1c_malloc_and_cr.Scheduler.Types.{
  Planificador, new, ready, ready_susp, exec, block, block_susp, exit, codigo, Pcb, Ks,
}
use tp_2026_1c_malloc_and_cr.Scheduler.Queues.{veces, borrar}
use tp_2026_1c_malloc_and_cr.Scheduler.Ready.{con_pcb}
use tp_2026_1c_malloc_and_cr.Scheduler.Transitions.Invariant.{
  marca, IsValid, asignado, sacar-veces, marca-con_pcb,
}
use tp_2026_1c_malloc_and_cr.Scheduler.Finish.Removal.{retira_ready-Quitado}

abbrev pub a_exit : Pcb → Pcb
a_exit q = record q { estado = exit }

module _ (a : Planificador) (pid : ℕ) (ks : Ks) (v : IsValid a ks) where
  pub sin_new :
      (ks.pcb pid).estado ≡ new
      → IsValid a (record ks { cola_new = borrar pid ks.cola_new; pcb = con_pcb pid a_exit ks.pcb })
  sin_new en =
      let u = v.1 in
      let once : 0 < veces pid ks.cola_new = omega (arith, u.en_new pid, ap (marca new) en) in
      let counts = (sacar-veces pid ks.cola_new once).1 in
      let dado =
        asignado ks.pid_para_asignar pid ks.pcb u.sin_asignar (omega (arith, ap codigo en)) in
      let cambio = marca-con_pcb pid new exit ks.pcb a_exit en (λ p. refl) in
      (
        v.0,
        record {
          en_new = λ p. omega (arith, u.en_new p, cambio new p, counts p);
          en_ready = λ p. omega (arith, u.en_ready p, cambio ready p);
          en_ready_susp = λ p. omega (arith, u.en_ready_susp p, cambio ready_susp p);
          en_exec = λ p. omega (arith, u.en_exec p, cambio exec p);
          en_block = λ p. omega (arith, u.en_block p, cambio block p);
          en_block_susp = λ p. omega (arith, u.en_block_susp p, cambio block_susp p);
          en_exit = u.en_exit;
          sin_asignar = λ p l. ground (arith, dado, u.sin_asignar p);
          colas = u.colas;
          en_rango = λ p l. ground (arith, u.en_rango p l);
        },
      )

  pub sin_exec :
      (ks.pcb pid).estado ≡ exec
      → IsValid a
          (record ks { cola_exec = borrar pid ks.cola_exec; pcb = con_pcb pid a_exit ks.pcb })
  sin_exec en =
      let u = v.1 in
      let once : 0 < veces pid ks.cola_exec = omega (arith, u.en_exec pid, ap (marca exec) en) in
      let counts = (sacar-veces pid ks.cola_exec once).1 in
      let dado =
        asignado ks.pid_para_asignar pid ks.pcb u.sin_asignar (omega (arith, ap codigo en)) in
      let cambio = marca-con_pcb pid exec exit ks.pcb a_exit en (λ p. refl) in
      (
        v.0,
        record {
          en_new = λ p. omega (arith, u.en_new p, cambio new p);
          en_ready = λ p. omega (arith, u.en_ready p, cambio ready p);
          en_ready_susp = λ p. omega (arith, u.en_ready_susp p, cambio ready_susp p);
          en_exec = λ p. omega (arith, u.en_exec p, cambio exec p, counts p);
          en_block = λ p. omega (arith, u.en_block p, cambio block p);
          en_block_susp = λ p. omega (arith, u.en_block_susp p, cambio block_susp p);
          en_exit = u.en_exit;
          sin_asignar = λ p l. ground (arith, dado, u.sin_asignar p);
          colas = u.colas;
          en_rango = λ p l. ground (arith, u.en_rango p l);
        },
      )

  pub sin_block :
      (ks.pcb pid).estado ≡ block
      → IsValid a
          (record ks { cola_block = borrar pid ks.cola_block; pcb = con_pcb pid a_exit ks.pcb })
  sin_block en =
      let u = v.1 in
      let once : 0 < veces pid ks.cola_block = omega (arith, u.en_block pid, ap (marca block) en) in
      let counts = (sacar-veces pid ks.cola_block once).1 in
      let dado =
        asignado ks.pid_para_asignar pid ks.pcb u.sin_asignar (omega (arith, ap codigo en)) in
      let cambio = marca-con_pcb pid block exit ks.pcb a_exit en (λ p. refl) in
      (
        v.0,
        record {
          en_new = λ p. omega (arith, u.en_new p, cambio new p);
          en_ready = λ p. omega (arith, u.en_ready p, cambio ready p);
          en_ready_susp = λ p. omega (arith, u.en_ready_susp p, cambio ready_susp p);
          en_exec = λ p. omega (arith, u.en_exec p, cambio exec p);
          en_block = λ p. omega (arith, u.en_block p, cambio block p, counts p);
          en_block_susp = λ p. omega (arith, u.en_block_susp p, cambio block_susp p);
          en_exit = u.en_exit;
          sin_asignar = λ p l. ground (arith, dado, u.sin_asignar p);
          colas = u.colas;
          en_rango = λ p l. ground (arith, u.en_rango p l);
        },
      )

  pub sin_block_susp :
      (ks.pcb pid).estado ≡ block_susp
      → IsValid a (record ks {
        cola_block_susp = borrar pid ks.cola_block_susp;
        pcb = con_pcb pid a_exit ks.pcb;
      })
  sin_block_susp en =
      let u = v.1 in
      let once : 0 < veces pid ks.cola_block_susp =
        omega (arith, u.en_block_susp pid, ap (marca block_susp) en) in
      let counts = (sacar-veces pid ks.cola_block_susp once).1 in
      let dado =
        asignado ks.pid_para_asignar pid ks.pcb u.sin_asignar (omega (arith, ap codigo en)) in
      let cambio = marca-con_pcb pid block_susp exit ks.pcb a_exit en (λ p. refl) in
      (
        v.0,
        record {
          en_new = λ p. omega (arith, u.en_new p, cambio new p);
          en_ready = λ p. omega (arith, u.en_ready p, cambio ready p);
          en_ready_susp = λ p. omega (arith, u.en_ready_susp p, cambio ready_susp p);
          en_exec = λ p. omega (arith, u.en_exec p, cambio exec p);
          en_block = λ p. omega (arith, u.en_block p, cambio block p);
          en_block_susp = λ p. omega (arith, u.en_block_susp p, cambio block_susp p, counts p);
          en_exit = u.en_exit;
          sin_asignar = λ p l. ground (arith, dado, u.sin_asignar p);
          colas = u.colas;
          en_rango = λ p l. ground (arith, u.en_rango p l);
        },
      )

  pub sin_ready_susp :
      (ks.pcb pid).estado ≡ ready_susp
      → IsValid a (record ks {
        cola_ready_susp = borrar pid ks.cola_ready_susp;
        pcb = con_pcb pid a_exit ks.pcb;
      })
  sin_ready_susp en =
      let u = v.1 in
      let once : 0 < veces pid ks.cola_ready_susp =
        omega (arith, u.en_ready_susp pid, ap (marca ready_susp) en) in
      let counts = (sacar-veces pid ks.cola_ready_susp once).1 in
      let dado =
        asignado ks.pid_para_asignar pid ks.pcb u.sin_asignar (omega (arith, ap codigo en)) in
      let cambio = marca-con_pcb pid ready_susp exit ks.pcb a_exit en (λ p. refl) in
      (
        v.0,
        record {
          en_new = λ p. omega (arith, u.en_new p, cambio new p);
          en_ready = λ p. omega (arith, u.en_ready p, cambio ready p);
          en_ready_susp = λ p. omega (arith, u.en_ready_susp p, cambio ready_susp p, counts p);
          en_exec = λ p. omega (arith, u.en_exec p, cambio exec p);
          en_block = λ p. omega (arith, u.en_block p, cambio block p);
          en_block_susp = λ p. omega (arith, u.en_block_susp p, cambio block_susp p);
          en_exit = u.en_exit;
          sin_asignar = λ p l. ground (arith, dado, u.sin_asignar p);
          colas = u.colas;
          en_rango = λ p l. ground (arith, u.en_rango p l);
        },
      )

  pub sin_ready :
      (en : (ks.pcb pid).estado ≡ ready)
      → IsValid a (record ks {
        colas_ready = (retira_ready-Quitado a pid ks v en).0;
        pcb = con_pcb pid a_exit ks.pcb;
      })
  sin_ready en =
      let u = v.1 in
      let (despues, eq, largo, counts) = retira_ready-Quitado a pid ks v en in
      let dado =
        asignado ks.pid_para_asignar pid ks.pcb u.sin_asignar (omega (arith, ap codigo en)) in
      let cambio = marca-con_pcb pid ready exit ks.pcb a_exit en (λ p. refl) in
      (
        v.0,
        record {
          en_new = λ p. omega (arith, u.en_new p, cambio new p);
          en_ready = λ p. omega (arith, u.en_ready p, cambio ready p, counts p);
          en_ready_susp = λ p. omega (arith, u.en_ready_susp p, cambio ready_susp p);
          en_exec = λ p. omega (arith, u.en_exec p, cambio exec p);
          en_block = λ p. omega (arith, u.en_block p, cambio block p);
          en_block_susp = λ p. omega (arith, u.en_block_susp p, cambio block_susp p);
          en_exit = u.en_exit;
          sin_asignar = λ p l. ground (arith, dado, u.sin_asignar p);
          colas = omega (arith, largo, u.colas);
          en_rango = λ p l. ground (arith, u.en_rango p l, largo);
        },
      )
