-- ===== src/Scheduler/Transitions/ToExec.antt =====
-- Creating, admitting and dispatching processes keeps the invariant.
use tp_2026_1c_malloc_and_cr.Base.{
  ℕ, zero, suc, ◌+◌, ◌<◌, ◌≡◌, refl, ap, subst, inl, inr, Bool-cases, Option, none, some, List, [],
  ◌∷◌, ◌++◌, arith, length,
}
use tp_2026_1c_malloc_and_cr.Scheduler.Types.{
  Planificador, fifo, rr, cmn, Estado, new, ready, ready_susp, exec, block, block_susp, codigo, Pcb,
  Ks, CpuConectada, proceso_a_procesar, quantum,
}
use tp_2026_1c_malloc_and_cr.Scheduler.Queues.{
  uno, veces, veces_colas, elegir_de_colas, buscar_pcb_por_pid,
}
use tp_2026_1c_malloc_and_cr.Scheduler.Queues.Order.{
  veces-append, buscar_pcb_por_pid_lem, hallado-veces,
}
use tp_2026_1c_malloc_and_cr.Scheduler.Ready.{
  obtener_planificacion, con_pcb, con_cpu, elegir, elegir_por_fifo, elegir_por_rr, elegir_por_cmn,
  elegir_cpu,
}
use tp_2026_1c_malloc_and_cr.Scheduler.Transitions.{
  pasar_proceso_new_a_ready, pasar_proceso_ready_a_exec, despachar,
}
use tp_2026_1c_malloc_and_cr.Scheduler.Transitions.Invariant.{
  marca, IsValid, asignado, marca-con_pcb, encolar_ready-Encolado, PasaA,
}

-- A state that is marked is that state.
es_new : (e : Estado) → 0 < marca new e → e ≡ new
es_new new l = refl
es_new e l = absurd (omega arith)

es_ready : (e : Estado) → 0 < marca ready e → e ≡ ready
es_ready ready l = refl
es_ready e l = absurd (omega arith)

-- The head of the NEW queue passes to READY: the call does not fail, the queues stay consistent, and
-- no other process changes.
pub pasar_proceso_new_a_ready-PasaA :
    (a : Planificador) (pid : ℕ) (cola : List ℕ) (ks : Ks)
    → IsValid a ks
    → ks.cola_new ≡ pid ∷ cola
    → PasaA a pid ready ks (pasar_proceso_new_a_ready ks)
unfolding pasar_proceso_new_a_ready
pasar_proceso_new_a_ready-PasaA a pid cola ks v q =
    let u = v.1 in
    let counts : (p : ℕ) → veces p cola + uno p pid ≡ veces p ks.cola_new =
      λ p. omega (arith, ap (veces p) q) in
    let en : (ks.pcb pid).estado ≡ new =
      es_new (ks.pcb pid).estado (ground (arith, u.en_new pid, counts pid)) in
    let dado =
      asignado ks.pid_para_asignar pid ks.pcb u.sin_asignar (omega (arith, ap codigo en)) in
    let f : Pcb → Pcb = λ p. record p { estado = ready } in
    let cambio = marca-con_pcb pid new ready ks.pcb f en (λ p. refl) in
    let medio : Ks = record ks { cola_new = cola; pcb = con_pcb pid f ks.pcb } in
    let (despues, sem, eq, (largo, mas)) =
      encolar_ready-Encolado a pid medio v.0 (ground (arith, u.en_rango pid dado)) in
    let ks' : Ks = record medio {
      colas_ready = despues;
      sem_ready_prioridad = sem;
      sem_hay_procesos_en_ready = ks.sem_hay_procesos_en_ready + 1;
    } in
    (
      ks',
      rw (q, pasar_proceso_new_a_ready, eq),
      (
        v.0,
        record {
          en_new = λ p. omega (arith, u.en_new p, cambio new p, counts p);
          en_ready = λ p. omega (arith, u.en_ready p, cambio ready p, mas p);
          en_ready_susp = λ p. omega (arith, u.en_ready_susp p, cambio ready_susp p);
          en_exec = λ p. omega (arith, u.en_exec p, cambio exec p);
          en_block = λ p. omega (arith, u.en_block p, cambio block p);
          en_block_susp = λ p. omega (arith, u.en_block_susp p, cambio block_susp p);
          en_exit = u.en_exit;
          sin_asignar = λ p l. ground (arith, dado, u.sin_asignar p);
          colas = omega (arith, largo, u.colas);
          en_rango = λ p l. ground (arith, u.en_rango p l, largo);
        },
      ),
      ground arith,
      λ p n. ground arith,
    )

-- What the choice of a process does to the ready queues.
abbrev pub Elegido : List (List ℕ) → Option ℕ × List (List ℕ) → Type 0
Elegido antes (none, despues) = (despues ≡ antes)
Elegido antes (some pid, despues) =
    (length despues ≡ length antes)
    × ((p : ℕ) → veces_colas p despues + uno p pid ≡ veces_colas p antes)

Elegido-next :
    (q : List ℕ) (antes : List (List ℕ)) (r : Option ℕ × List (List ℕ))
    → Elegido antes r
    → Elegido (q ∷ antes) (r.0, q ∷ r.1)
Elegido-next q antes (none, despues) e = ap (λ l. q ∷ l) e
Elegido-next q antes (some pid, despues) (largo, mas) =
    (omega (arith, largo), λ p. omega (arith, mas p))

elegir_de_colas-Elegido : (n : ℕ) (colas : List (List ℕ)) → Elegido colas (elegir_de_colas n colas)
unfolding elegir_de_colas
elegir_de_colas-Elegido zero colas = refl
elegir_de_colas-Elegido (suc n) [] = refl
elegir_de_colas-Elegido (suc n) ([] ∷ colas) =
    Elegido-next [] colas _ (elegir_de_colas-Elegido n colas)
elegir_de_colas-Elegido (suc n) ((p ∷ q) ∷ colas) = (refl, λ k. omega arith)

elegir_por_fifo-Elegido : (colas : List (List ℕ)) → Elegido colas (elegir_por_fifo colas)
unfolding elegir_por_fifo
elegir_por_fifo-Elegido [] = refl
elegir_por_fifo-Elegido ([] ∷ colas) = refl
elegir_por_fifo-Elegido ((p ∷ q) ∷ colas) = (refl, λ k. omega arith)

elegir_por_rr-Elegido : (colas : List (List ℕ)) → Elegido colas (elegir_por_rr colas)
unfolding elegir_por_rr
elegir_por_rr-Elegido [] = refl
elegir_por_rr-Elegido ([] ∷ colas) = refl
elegir_por_rr-Elegido ((p ∷ q) ∷ colas) = (refl, λ k. omega arith)

elegir-Elegido :
    (a : Planificador) (ks : Ks)
    → obtener_planificacion ks.planification_algorithm ≡ some a
    → Elegido ks.colas_ready (elegir ks)
unfolding elegir elegir_por_cmn
elegir-Elegido fifo ks e = rw (e, elegir) (elegir_por_fifo-Elegido ks.colas_ready)
elegir-Elegido rr ks e = rw (e, elegir) (elegir_por_rr-Elegido ks.colas_ready)
elegir-Elegido cmn ks e =
    rw (e, elegir, elegir_por_cmn)
      (elegir_de_colas-Elegido ks.cantidad_colas_multinivel ks.colas_ready)

-- A chosen process and a free CPU are put together.
despachar-PasaA :
    (a : Planificador) (pid : ℕ) (c : CpuConectada) (ks : Ks) (colas : List (List ℕ))
    (cpus : List CpuConectada)
    → IsValid a ks
    → Elegido ks.colas_ready (some pid, colas)
    → PasaA a pid exec ks (despachar pid c (record ks { colas_ready = colas; cola_cpus = cpus }))
unfolding despachar
despachar-PasaA a pid c ks despues cpus v (largo, counts) =
    let u = v.1 in
    let en : (ks.pcb pid).estado ≡ ready =
      es_ready (ks.pcb pid).estado (ground (arith, u.en_ready pid, counts pid)) in
    let dado =
      asignado ks.pid_para_asignar pid ks.pcb u.sin_asignar (omega (arith, ap codigo en)) in
    let f : Pcb → Pcb =
      λ p. record p { estado = exec; socket_cpu_ejecuta = some c.socket_cliente } in
    let cambio = marca-con_pcb pid ready exec ks.pcb f en (λ p. refl) in
    let mas : (p : ℕ) → veces p (ks.cola_exec ++ (pid ∷ [])) ≡ veces p ks.cola_exec + uno p pid =
      λ p. veces-append p pid ks.cola_exec in
    let fin : Ks = record ks {
      colas_ready = despues;
      cola_cpus =
          con_cpu c.socket_cliente
            (λ d. record d { pid_ejecutando = some pid; pcb_ejecutando = some pid }) cpus;
      pcb = con_pcb pid f ks.pcb;
      cola_exec = ks.cola_exec ++ (pid ∷ []);
      enviados = ks.enviados ++ (proceso_a_procesar c.socket_cliente pid ∷ []);
    } in
    let ok : IsValid a fin = (
      v.0,
      record {
        en_new = λ p. omega (arith, u.en_new p, cambio new p);
        en_ready = λ p. omega (arith, u.en_ready p, cambio ready p, counts p);
        en_ready_susp = λ p. omega (arith, u.en_ready_susp p, cambio ready_susp p);
        en_exec = λ p. omega (arith, u.en_exec p, cambio exec p, mas p);
        en_block = λ p. omega (arith, u.en_block p, cambio block p);
        en_block_susp = λ p. omega (arith, u.en_block_susp p, cambio block_susp p);
        en_exit = u.en_exit;
        sin_asignar = λ p l. ground (arith, dado, u.sin_asignar p);
        colas = omega (arith, largo, u.colas);
        en_rango = λ p l. ground (arith, u.en_rango p l, largo);
      },
    ) in
    let aqui : buscar_pcb_por_pid pid fin.cola_exec ≡ (some pid, fin.cola_exec) = rw (
      buscar_pcb_por_pid_lem pid fin.cola_exec,
      hallado-veces pid fin.cola_exec (ground (arith, mas pid)),
    ) in
    elim (Bool-cases (fin.pcb pid).ejecuta_por_rr) [
      | inl por_rr ↦ (
        record fin { temporizadores = ks.temporizadores ++ (quantum c.socket_cliente ∷ []) },
        rw (despachar, aqui, por_rr),
        ok,
        ground arith,
        λ p n. ground arith,
      )
      | inr sin ↦ (fin, rw (despachar, aqui, sin), ok, ground arith, λ p n. ground arith)
    ]

-- With a free CPU and a process that the algorithm chooses, that process passes to EXEC: the call
-- does not fail, the queues stay consistent, and no other process changes.
pub pasar_proceso_ready_a_exec-PasaA :
    (a : Planificador) (pid : ℕ) (c : CpuConectada) (ks : Ks)
    → IsValid a ks
    → (elegir ks).0 ≡ some pid
    → (elegir_cpu ks.cola_cpus).0 ≡ some c
    → PasaA a pid exec ks (pasar_proceso_ready_a_exec ks)
unfolding pasar_proceso_ready_a_exec
pasar_proceso_ready_a_exec-PasaA a pid c ks v el cpu =
    let e : Elegido ks.colas_ready (some pid, (elegir ks).1) =
      subst (λ o. Elegido ks.colas_ready (o, (elegir ks).1)) el (elegir-Elegido a ks v.0) in
    rw (cpu, pasar_proceso_ready_a_exec, el)
      (despachar-PasaA a pid c ks (elegir ks).1 (elegir_cpu ks.cola_cpus).1 v e)

-- With no free CPU the chosen process is lost: it was taken off its ready queue, its state is still
-- READY, and it is in no ready queue.
pub pasar_proceso_ready_a_exec_pierde :
    (a : Planificador) (pid : ℕ) (ks : Ks)
    → IsValid a ks
    → (elegir ks).0 ≡ some pid
    → (elegir_cpu ks.cola_cpus).0 ≡ none
    → (ks' : Ks) × (pasar_proceso_ready_a_exec ks ≡ some ks')
      × ((ks'.pcb pid).estado ≡ ready)
      × (veces_colas pid ks'.colas_ready ≡ 0)
unfolding pasar_proceso_ready_a_exec
pasar_proceso_ready_a_exec_pierde a pid ks v el cpu =
    let e : Elegido ks.colas_ready (some pid, (elegir ks).1) =
      subst (λ o. Elegido ks.colas_ready (o, (elegir ks).1)) el (elegir-Elegido a ks v.0) in
    let en : (ks.pcb pid).estado ≡ ready =
      es_ready (ks.pcb pid).estado (ground (arith, v.1.en_ready pid, e.1 pid)) in
    (
      record ks { colas_ready = (elegir ks).1; cola_cpus = (elegir_cpu ks.cola_cpus).1 },
      rw (cpu, pasar_proceso_ready_a_exec),
      en,
      ground (arith, v.1.en_ready pid, e.1 pid, ap (marca ready) en),
    )
