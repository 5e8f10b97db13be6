-- ===== src/Scheduler/Transitions/ToNew.antt =====
-- Creating a process keeps the invariant.
use Prim.Native.String.{String}
use tp_2026_1c_malloc_and_cr.Base.{ℕ, ◌+◌, ◌<◌, ◌≡◌, refl, Bool, some, [], ◌∷◌, ◌++◌, arith, length}
use tp_2026_1c_malloc_and_cr.Scheduler.Types.{
  Planificador, nulo, new, ready, ready_susp, exec, block, block_susp, Pcb, Ks, creacion_de_proceso,
}
use tp_2026_1c_malloc_and_cr.Scheduler.Queues.{uno, veces}
use tp_2026_1c_malloc_and_cr.Scheduler.Queues.Order.{veces-append}
use tp_2026_1c_malloc_and_cr.Scheduler.Ready.{con_pcb}
use tp_2026_1c_malloc_and_cr.Scheduler.Transitions.{crear_proceso, ejecuta_por_rr_de, pcb_nuevo}
use tp_2026_1c_malloc_and_cr.Scheduler.Transitions.Invariant.{
  cola_de, IsValid, marca-con_pcb, PasaA,
}

-- A created process is in NEW under the next pid, whatever its path: the call does not fail where the
-- algorithm says how the process runs and the priority has a ready queue, the queues stay consistent,
-- and no other process changes.
pub crear_proceso-PasaA :
    (a : Planificador) (path : String) (prioridad : ℕ) (por_rr : Bool) (ks : Ks)
    → IsValid a ks
    → ejecuta_por_rr_de prioridad ks ≡ some por_rr
    → cola_de a prioridad < length ks.colas_ready
    → PasaA a ks.pid_para_asignar new ks (crear_proceso path prioridad ks)
unfolding crear_proceso
crear_proceso-PasaA a path prioridad por_rr ks v e r =
    let u = v.1 in
    let pid = ks.pid_para_asignar in
    let f : Pcb → Pcb = λ _. pcb_nuevo path prioridad por_rr in
    let cambio =
      marca-con_pcb pid nulo new ks.pcb f (u.sin_asignar pid (omega arith)) (λ p. refl) in
    let mas : (p : ℕ) → veces p (ks.cola_new ++ (pid ∷ [])) ≡ veces p ks.cola_new + uno p pid =
      λ p. veces-append p pid ks.cola_new in
    let ks' : Ks = record ks {
      pcb = con_pcb pid f ks.pcb;
      pid_para_asignar = pid + 1;
      cola_new = ks.cola_new ++ (pid ∷ []);
      enviados = ks.enviados ++ (creacion_de_proceso pid path ∷ []);
    } in
    (
      ks',
      rw (e, crear_proceso),
      (
        v.0,
        record {
          en_new = λ p. omega (arith, u.en_new p, cambio new p, mas p);
          en_ready = λ p. omega (arith, u.en_ready p, cambio ready p);
          en_ready_susp = λ p. omega (arith, u.en_ready_susp p, cambio ready_susp p);
          en_exec = λ p. omega (arith, u.en_exec p, cambio exec p);
          en_block = λ p. omega (arith, u.en_block p, cambio block p);
          en_block_susp = λ p. omega (arith, u.en_block_susp p, cambio block_susp p);
          en_exit = u.en_exit;
          sin_asignar = λ p l. ground (arith, u.sin_asignar p);
          colas = u.colas;
          en_rango = λ p l. ground (arith, u.en_rango p, r);
        },
      ),
      ground arith,
      λ p n. ground arith,
    )
