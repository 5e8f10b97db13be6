-- ===== src/Scheduler/Finish/Ended.antt =====
-- A process that is ended leaves the queue of its state, for every reason that looks there, and the
-- queues stay consistent.
use tp_2026_1c_malloc_and_cr.Base.{
  ℕ, ◌+◌, ◌<◌, ◌≡◌, refl, sym, ap, subst, Bool, true, false, Option, some, [], ◌∷◌, ◌++◌, arith,
}
use tp_2026_1c_malloc_and_cr.Scheduler.Types.{
  Planificador, Estado, nulo, new, ready, ready_susp, exec, block, block_susp, exit, Ks, Motivo,
  creacion_de_proceso_error, desconexion_cpu, seg_fault, exit_proc, desconexion_io,
  corrupcion_memoria, finalizar_proceso as aviso_de_fin,
}
use tp_2026_1c_malloc_and_cr.Scheduler.Queues.{uno, veces, borrar}
use tp_2026_1c_malloc_and_cr.Scheduler.Queues.Order.{veces-append}
use tp_2026_1c_malloc_and_cr.Scheduler.Ready.{con_pcb}
use tp_2026_1c_malloc_and_cr.Scheduler.Transitions.Invariant.{marca, IsValid, sacar-veces, PasaA}
use tp_2026_1c_malloc_and_cr.Scheduler.Finish.{
  retirar_segun_motivo, eliminar_proceso, pasar_a_exit, finalizar_proceso,
}
use tp_2026_1c_malloc_and_cr.Scheduler.Finish.Removal.{
  retira_segun_pid-ausente, retira_segun_pid-presente, retira_ready-Quitado,
}
use tp_2026_1c_malloc_and_cr.Scheduler.Finish.Without.{
  a_exit, sin_new, sin_exec, sin_block, sin_block_susp, sin_ready_susp, sin_ready,
}

-- The reasons, and the states in which each looks for the process.
abbrev pub corresponde : Motivo → Estado → Bool
corresponde creacion_de_proceso_error new = true
corresponde desconexion_cpu exec = true
corresponde seg_fault exec = true
corresponde exit_proc exec = true
corresponde desconexion_io block = true
corresponde desconexion_io block_susp = true
corresponde corrupcion_memoria nulo = false
corresponde corrupcion_memoria exit = false
corresponde corrupcion_memoria e = true
corresponde m e = false

-- The process was found, and without it the queues are consistent with its being in EXIT.
abbrev Retirado : Planificador → ℕ → Ks → Option ℕ × Ks → Type 0
Retirado a pid ks r =
    (ks' : Ks) × (r ≡ (some pid, ks'))
    × (ks'.pcb ≡ ks.pcb)
    × IsValid a (record ks' { pcb = con_pcb pid a_exit ks.pcb })

module _ (a : Planificador) (pid : ℕ) (ks : Ks) (v : IsValid a ks) where
  retirar-Retirado :
      (motivo : Motivo) (e : Estado)
      → (ks.pcb pid).estado ≡ e
      → corresponde motivo e ≡ true
      → Retirado a pid ks (retirar_segun_motivo motivo pid ks)
  unfolding retirar_segun_motivo
  retirar-Retirado creacion_de_proceso_error new en c = (
    record ks { cola_new = borrar pid ks.cola_new },
    rw (
      retirar_segun_motivo,
      retira_segun_pid-presente pid ks.cola_new (omega (arith, v.1.en_new pid, ap (marca new) en)),
    ),
    refl,
    sin_new a pid ks v en,
  )
  retirar-Retirado corrupcion_memoria new en c = (
    record ks { cola_new = borrar pid ks.cola_new },
    rw (
      retirar_segun_motivo,
      retira_segun_pid-presente pid ks.cola_new (omega (arith, v.1.en_new pid, ap (marca new) en)),
    ),
    refl,
    sin_new a pid ks v en,
  )
  retirar-Retirado desconexion_cpu exec en c = (
    record ks { cola_exec = borrar pid ks.cola_exec },
    rw (
      retirar_segun_motivo,
      retira_segun_pid-presente pid ks.cola_exec
          (omega (arith, v.1.en_exec pid, ap (marca exec) en)),
    ),
    refl,
    sin_exec a pid ks v en,
  )
  retirar-Retirado seg_fault exec en c = (
    record ks { cola_exec = borrar pid ks.cola_exec },
    rw (
      retirar_segun_motivo,
      retira_segun_pid-presente pid ks.cola_exec
          (omega (arith, v.1.en_exec pid, ap (marca exec) en)),
    ),
    refl,
    sin_exec a pid ks v en,
  )
  retirar-Retirado exit_proc exec en c = (
    record ks { cola_exec = borrar pid ks.cola_exec },
    rw (
      retirar_segun_motivo,
      retira_segun_pid-presente pid ks.cola_exec
          (omega (arith, v.1.en_exec pid, ap (marca exec) en)),
    ),
    refl,
    sin_exec a pid ks v en,
  )
  retirar-Retirado corrupcion_memoria exec en c = (
    record ks { cola_exec = borrar pid ks.cola_exec },
    rw (
      retirar_segun_motivo,
      retira_segun_pid-ausente pid ks.cola_new (omega (arith, v.1.en_new pid, ap (marca new) en)),
      retira_segun_pid-presente pid ks.cola_exec
          (omega (arith, v.1.en_exec pid, ap (marca exec) en)),
    ),
    refl,
    sin_exec a pid ks v en,
  )
  retirar-Retirado desconexion_io block en c = (
    record ks { cola_block = borrar pid ks.cola_block },
    rw (
      retirar_segun_motivo,
      retira_segun_pid-presente pid ks.cola_block
          (omega (arith, v.1.en_block pid, ap (marca block) en)),
    ),
    refl,
    sin_block a pid ks v en,
  )
  retirar-Retirado corrupcion_memoria block en c = (
    record ks { cola_block = borrar pid ks.cola_block },
    rw (
      retirar_segun_motivo,
      retira_segun_pid-ausente pid ks.cola_new (omega (arith, v.1.en_new pid, ap (marca new) en)),
      retira_segun_pid-ausente pid ks.cola_exec
          (omega (arith, v.1.en_exec pid, ap (marca exec) en)),
      retira_segun_pid-presente pid ks.cola_block
          (omega (arith, v.1.en_block pid, ap (marca block) en)),
    ),
    refl,
    sin_block a pid ks v en,
  )
  retirar-Retirado desconexion_io block_susp en c = (
    record ks { cola_block_susp = borrar pid ks.cola_block_susp },
    rw (
      retirar_segun_motivo,
      retira_segun_pid-ausente pid ks.cola_block
          (omega (arith, v.1.en_block pid, ap (marca block) en)),
      retira_segun_pid-presente pid ks.cola_block_susp
          (omega (arith, v.1.en_block_susp pid, ap (marca block_susp) en)),
    ),
    refl,
    sin_block_susp a pid ks v en,
  )
  retirar-Retirado corrupcion_memoria block_susp en c = (
    record ks { cola_block_susp = borrar pid ks.cola_block_susp },
    rw (
      retirar_segun_motivo,
      retira_segun_pid-ausente pid ks.cola_new (omega (arith, v.1.en_new pid, ap (marca new) en)),
      retira_segun_pid-ausente pid ks.cola_exec
          (omega (arith, v.1.en_exec pid, ap (marca exec) en)),
      retira_segun_pid-ausente pid ks.cola_block
          (omega (arith, v.1.en_block pid, ap (marca block) en)),
      retira_segun_pid-presente pid ks.cola_block_susp
          (omega (arith, v.1.en_block_susp pid, ap (marca block_susp) en)),
    ),
    refl,
    sin_block_susp a pid ks v en,
  )
  retirar-Retirado corrupcion_memoria ready_susp en c = (
    record ks { cola_ready_susp = borrar pid ks.cola_ready_susp },
    rw (
      retirar_segun_motivo,
      retira_segun_pid-ausente pid ks.cola_new (omega (arith, v.1.en_new pid, ap (marca new) en)),
      retira_segun_pid-ausente pid ks.cola_exec
          (omega (arith, v.1.en_exec pid, ap (marca exec) en)),
      retira_segun_pid-ausente pid ks.cola_block
          (omega (arith, v.1.en_block pid, ap (marca block) en)),
      retira_segun_pid-ausente pid ks.cola_block_susp
          (omega (arith, v.1.en_block_susp pid, ap (marca block_susp) en)),
      retira_segun_pid-presente pid ks.cola_ready_susp
          (omega (arith, v.1.en_ready_susp pid, ap (marca ready_susp) en)),
    ),
    refl,
    sin_ready_susp a pid ks v en,
  )
  retirar-Retirado corrupcion_memoria ready en c = (
    record ks { colas_ready = (retira_ready-Quitado a pid ks v en).0 },
    rw (
      retirar_segun_motivo,
      retira_segun_pid-ausente pid ks.cola_new (omega (arith, v.1.en_new pid, ap (marca new) en)),
      retira_segun_pid-ausente pid ks.cola_exec
          (omega (arith, v.1.en_exec pid, ap (marca exec) en)),
      retira_segun_pid-ausente pid ks.cola_block
          (omega (arith, v.1.en_block pid, ap (marca block) en)),
      retira_segun_pid-ausente pid ks.cola_block_susp
          (omega (arith, v.1.en_block_susp pid, ap (marca block_susp) en)),
      retira_segun_pid-ausente pid ks.cola_ready_susp
          (omega (arith, v.1.en_ready_susp pid, ap (marca ready_susp) en)),
      (retira_ready-Quitado a pid ks v en).1,
    ),
    refl,
    sin_ready a pid ks v en,
  )
  retirar-Retirado m e en c = absurd (cc)

-- The EXIT queue takes the process and loses it again.
pasar_a_exit-PasaA :
    (a : Planificador) (pid : ℕ) (ks ks' : Ks)
    → ks'.pcb ≡ ks.pcb
    → IsValid a (record ks' { pcb = con_pcb pid a_exit ks.pcb })
    → PasaA a pid exit ks (pasar_a_exit pid pid ks')
unfolding pasar_a_exit eliminar_proceso
pasar_a_exit-PasaA a pid ks ks' same v =
    let cola = ks'.cola_exit ++ (pid ∷ []) in
    let una : (p : ℕ) → veces p cola ≡ uno p pid =
      λ p. omega (arith, veces-append p pid ks'.cola_exit, v.1.en_exit p) in
    let una_vez : 0 < veces pid cola = ground (arith, una pid) in
    let counts = (sacar-veces pid cola una_vez).1 in
    let fuera = retira_segun_pid-presente pid cola una_vez in
    let final : Ks = record ks' {
      pcb = con_pcb pid a_exit ks'.pcb;
      cola_exit = borrar pid cola;
      enviados = ks'.enviados ++ (aviso_de_fin pid ∷ []);
      sem_proceso_finalizado = ks'.sem_proceso_finalizado + 1;
    } in
    let u = v.1 in
    let base : IsValid a (record final { pcb = con_pcb pid a_exit ks.pcb }) = (
      v.0,
      record {
        en_new = u.en_new;
        en_ready = u.en_ready;
        en_ready_susp = u.en_ready_susp;
        en_exec = u.en_exec;
        en_block = u.en_block;
        en_block_susp = u.en_block_susp;
        en_exit = λ p. omega (arith, counts p, una p);
        sin_asignar = u.sin_asignar;
        colas = u.colas;
        en_rango = u.en_rango;
      },
    ) in
    (
      final,
      rw (pasar_a_exit, eliminar_proceso, fuera, fuera),
      subst (λ g. IsValid a (record final { pcb = con_pcb pid a_exit g })) (sym same) base,
      rw same (ground arith),
      λ p n. rw same (ground arith),
    )

-- Ending a process for any reason, in a state in which that reason looks for it, does not fail: the
-- process is in EXIT and in no queue, the other queues stay consistent, and no other process changes.
pub finalizar_proceso-PasaA :
    (a : Planificador) (pid : ℕ) (motivo : Motivo) (ks : Ks)
    → IsValid a ks
    → corresponde motivo (ks.pcb pid).estado ≡ true
    → PasaA a pid exit ks (finalizar_proceso pid motivo ks)
unfolding finalizar_proceso
finalizar_proceso-PasaA a pid motivo ks v c =
    let ks' : Ks = record ks { pcb_finalizados = ks.pcb_finalizados + 1 } in
    let (quitado, eq, same, valid) =
      retirar-Retirado a pid ks' v motivo (ks.pcb pid).estado refl c in
    rw (eq, finalizar_proceso, eq) (pasar_a_exit-PasaA a pid ks quitado same valid)
