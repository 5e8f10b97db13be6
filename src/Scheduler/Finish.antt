-- ===== src/Scheduler/Finish.antt =====
-- kernel_scheduler/src/syscall.c, `finalizarProceso` and `eliminarProceso`, with planificador.c,
-- `retiraSegunPIDdeREADY`: the end of a process. The message to Kernel Memory is taken as sent.
pub mod Removal
pub mod Without
pub mod Ended
use tp_2026_1c_malloc_and_cr.Base.{ℕ, ◌+◌, Option, none, some, List, [], ◌∷◌, ◌++◌}
use tp_2026_1c_malloc_and_cr.Scheduler.Types.{
  fifo, rr, cmn, exit, Ks, Motivo, creacion_de_proceso_error, desconexion_cpu, seg_fault, exit_proc,
  desconexion_io, corrupcion_memoria, otro_motivo, finalizar_proceso as aviso_de_fin,
}
use tp_2026_1c_malloc_and_cr.Scheduler.Queues.{retira_segun_pid, retira_de_colas}
use tp_2026_1c_malloc_and_cr.Scheduler.Ready.{obtener_planificacion, con_pcb}
use tp_2026_1c_malloc_and_cr.Scheduler.Transitions.{enviar}

unfoldable pub retira_segun_pid_de_ready : ℕ → Ks → Option ℕ × List (List ℕ)
unfolding obtener_planificacion retira_de_colas
retira_segun_pid_de_ready pid ks = elim (obtener_planificacion ks.planification_algorithm) [
  | none ↦ (none, ks.colas_ready)
  | some fifo ↦ retira_de_colas 1 pid none ks.colas_ready
  | some rr ↦ retira_de_colas 1 pid none ks.colas_ready
  | some cmn ↦ retira_de_colas ks.cantidad_colas_multinivel pid none ks.colas_ready
]

-- `if (pcb == NULL) pcb = ...`
abbrev pub si_falta : (Ks → Option ℕ × Ks) → Option ℕ × Ks → Option ℕ × Ks
si_falta f (none, ks) = f ks
si_falta f (some p, ks) = (some p, ks)

-- The removals from one queue.
abbrev pub de_new : ℕ → Ks → Option ℕ × Ks
de_new pid ks =
    let (e, cola) = retira_segun_pid pid ks.cola_new in (e, record ks { cola_new = cola })

abbrev pub de_exec : ℕ → Ks → Option ℕ × Ks
de_exec pid ks =
    let (e, cola) = retira_segun_pid pid ks.cola_exec in (e, record ks { cola_exec = cola })

abbrev pub de_block : ℕ → Ks → Option ℕ × Ks
de_block pid ks =
    let (e, cola) = retira_segun_pid pid ks.cola_block in (e, record ks { cola_block = cola })

abbrev pub de_block_susp : ℕ → Ks → Option ℕ × Ks
de_block_susp pid ks =
    let (e, cola) = retira_segun_pid pid ks.cola_block_susp in
    (e, record ks { cola_block_susp = cola })

abbrev pub de_ready_susp : ℕ → Ks → Option ℕ × Ks
de_ready_susp pid ks =
    let (e, cola) = retira_segun_pid pid ks.cola_ready_susp in
    (e, record ks { cola_ready_susp = cola })

abbrev pub de_ready : ℕ → Ks → Option ℕ × Ks
de_ready pid ks =
    let (e, colas) = retira_segun_pid_de_ready pid ks in (e, record ks { colas_ready = colas })

-- The `switch` of `finalizarProceso`.
unfoldable pub retirar_segun_motivo : Motivo → ℕ → Ks → Option ℕ × Ks
retirar_segun_motivo creacion_de_proceso_error pid ks = de_new pid ks
retirar_segun_motivo desconexion_cpu pid ks = de_exec pid ks
retirar_segun_motivo seg_fault pid ks = de_exec pid ks
retirar_segun_motivo exit_proc pid ks = de_exec pid ks
retirar_segun_motivo desconexion_io pid ks = si_falta (de_block_susp pid) (de_block pid ks)
retirar_segun_motivo corrupcion_memoria pid ks = si_falta (de_ready pid) (
    si_falta (de_ready_susp pid) (
      si_falta (de_block_susp pid)
        (si_falta (de_block pid) (si_falta (de_exec pid) (de_new pid ks)))))
retirar_segun_motivo otro_motivo pid ks = (none, ks)

-- `eliminarProceso`: the PCB leaves the EXIT queue and is freed; NULL is read if it is not there.
unfoldable pub eliminar_proceso : ℕ → Ks → Option Ks
eliminar_proceso pid ks =
    let (e, cola) = retira_segun_pid pid ks.cola_exit in
    elim e [ none ↦ none | some _ ↦ some (record ks { cola_exit = cola }) ]

-- What follows once the PCB `p` is out of its queue.
unfoldable pub pasar_a_exit : ℕ → ℕ → Ks → Option Ks
unfolding eliminar_proceso
pasar_a_exit pid p ks =
    elim (eliminar_proceso pid (
      enviar (aviso_de_fin pid) (record ks {
        pcb = con_pcb p (λ q. record q { estado = exit }) ks.pcb;
        cola_exit = ks.cola_exit ++ (p ∷ []);
      }))) [
        | none ↦ none
        | some ks' ↦ some (record ks' { sem_proceso_finalizado = ks'.sem_proceso_finalizado + 1 })
      ]

-- `none`: the PCB was not found, and the program exits with a failure.
unfoldable pub finalizar_proceso : ℕ → Motivo → Ks → Option Ks
unfolding retirar_segun_motivo pasar_a_exit
finalizar_proceso pid motivo ks =
    let (e, ks') =
      retirar_segun_motivo motivo pid (record ks { pcb_finalizados = ks.pcb_finalizados + 1 }) in
    elim e [ none ↦ none | some p ↦ pasar_a_exit pid p ks' ]
