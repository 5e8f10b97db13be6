-- ===== src/Scheduler/Transitions.antt =====
-- kernel_scheduler/src/planificador.c and syscall.c: the transitions of a process between the queues.
-- Each is the whole function, with the PCB fields it writes, the messages it sends and the timers it
-- starts. `none`: undefined behaviour, which is where the PCB was not found and NULL is read.
pub mod Invariant
pub mod ToReady
pub mod ToBlock
pub mod ToExec
pub mod ToNew
use Prim.Native.String.{String}
use tp_2026_1c_malloc_and_cr.Base.{
  ℕ, zero, suc, ◌+◌, Bool, true, false, ◌&&◌, Option, none, some, List, [], ◌∷◌, ◌++◌, ltb, ◌==◌,
  if◌then◌else◌, ℤ, pos, negsuc,
}
use tp_2026_1c_malloc_and_cr.Scheduler.Types.{
  Planificador, fifo, rr, cmn, new, ready, ready_susp, exec, block, block_susp, Pcb, CpuConectada,
  Ks, Mensaje, proceso_a_procesar, creacion_de_proceso, suspension_de_proceso, quantum, suspension,
}
use tp_2026_1c_malloc_and_cr.Scheduler.Queues.{sacar, buscar_pcb_por_pid, girar}
use tp_2026_1c_malloc_and_cr.Scheduler.Ready.{
  obtener_planificacion, cola_de_proceso_ejecuta_rr, con_pcb, con_cpu, encolar_ready,
  encolar_al_inicio, elegir, elegir_cpu,
}

-- `sem_post(&sem_hayProcesosEnReady)`
abbrev pub avisar_ready : Option Ks → Option Ks
avisar_ready none = none
avisar_ready (some ks) =
    some (record ks { sem_hay_procesos_en_ready = ks.sem_hay_procesos_en_ready + 1 })

abbrev pub enviar : Mensaje → Ks → Ks
enviar m ks = record ks { enviados = ks.enviados ++ (m ∷ []) }

unfoldable pub pasar_proceso_new_a_ready : Ks → Option Ks
unfolding encolar_ready
pasar_proceso_new_a_ready ks = elim ks.cola_new [
  | [] ↦ some ks
  | pid ∷ cola ↦ avisar_ready (
      encolar_ready pid (record ks {
        cola_new = cola;
        pcb = con_pcb pid (λ p. record p { estado = ready }) ks.pcb;
      }))
]

-- The process `pid` and the CPU `c` that were chosen are put together.
unfoldable pub despachar : ℕ → CpuConectada → Ks → Option Ks
unfolding con_cpu
despachar pid c ks =
    let cpus =
      con_cpu c.socket_cliente
        (λ d. record d { pid_ejecutando = some pid; pcb_ejecutando = some pid }) ks.cola_cpus in
    let ks' : Ks = record ks {
      cola_cpus = cpus;
      pcb =
          con_pcb pid (λ p. record p { estado = exec; socket_cpu_ejecuta = some c.socket_cliente })
            ks.pcb;
      cola_exec = ks.cola_exec ++ (pid ∷ []);
      enviados = ks.enviados ++ (proceso_a_procesar c.socket_cliente pid ∷ []);
    } in
    elim (buscar_pcb_por_pid pid ks'.cola_exec).0 [
      | none ↦ none
      | some q ↦ some (
          if (ks'.pcb q).ejecuta_por_rr
          then record ks' { temporizadores = ks.temporizadores ++ (quantum c.socket_cliente ∷ []) }
          else ks')
    ]

unfoldable pub pasar_proceso_ready_a_exec : Ks → Option Ks
unfolding elegir elegir_cpu despachar
pasar_proceso_ready_a_exec ks =
    let (elegido, colas) = elegir ks in
    let (cpu, cpus) = elegir_cpu ks.cola_cpus in
    let ks' : Ks = record ks { colas_ready = colas; cola_cpus = cpus } in
    elim cpu [
      | none ↦ some ks'
      | some c ↦ elim elegido [ none ↦ some ks' | some pid ↦ despachar pid c ks' ]
    ]

unfoldable pub pasar_proceso_exec_a_ready : ℕ → Ks → Option Ks
unfolding sacar encolar_ready
pasar_proceso_exec_a_ready pid ks =
    let (e, cola) = sacar pid ks.cola_exec in
    elim e [
      | none ↦ none
      | some q ↦ avisar_ready (
          encolar_ready q (record ks {
            cola_exec = cola;
            pcb = con_pcb q (λ p. record p { estado = ready; socket_cpu_ejecuta = none }) ks.pcb;
          }))
    ]

unfoldable pub reencolar_al_inicio : ℕ → Ks → Option Ks
unfolding sacar encolar_al_inicio
reencolar_al_inicio pid ks =
    let (e, cola) = sacar pid ks.cola_exec in
    elim e [
      | none ↦ none
      | some q ↦ avisar_ready (
          encolar_al_inicio q (record ks {
            cola_exec = cola;
            pcb = con_pcb q (λ p. record p { estado = ready }) ks.pcb;
          }))
    ]

unfoldable pub pasar_proceso_exec_a_block : ℕ → Ks → Option Ks
unfolding sacar
pasar_proceso_exec_a_block pid ks =
    let (e, cola) = sacar pid ks.cola_exec in
    elim e [
      | none ↦ none
      | some q ↦ some (record ks {
        cola_exec = cola;
        pcb =
            con_pcb q
              (λ p. record p {
                estado = block;
                socket_cpu_ejecuta = none;
                id_bloqueo_actual = p.id_bloqueo_actual + 1;
              })
              ks.pcb;
        cola_block = ks.cola_block ++ (q ∷ []);
        temporizadores =
            ks.temporizadores ++ (suspension pid ((ks.pcb q).id_bloqueo_actual + 1) ∷ []);
      })
    ]

unfoldable pub pasar_proceso_blocka_ready : ℕ → Ks → Option Ks
unfolding sacar encolar_ready
pasar_proceso_blocka_ready pid ks =
    let (e, cola) = sacar pid ks.cola_block in
    elim e [
      | none ↦ none
      | some q ↦ avisar_ready (
          encolar_ready q (record ks {
            cola_block = cola;
            pcb = con_pcb q (λ p. record p { estado = ready }) ks.pcb;
          }))
    ]

-- `pasarProcesoBlockABlockSusp` up to `sem_wait(&sem_suspension_ok)`. An unknown pid ends it early;
-- the Boolean says whether the thread goes on to wait.
unfoldable pub pasar_proceso_block_a_block_susp : ℕ → Ks → Bool × Ks
unfolding sacar
pasar_proceso_block_a_block_susp pid ks =
    let (e, cola) = sacar pid ks.cola_block in
    elim e [
      | none ↦ (false, record ks { cola_block = cola })
      | some q ↦ (
        true,
        enviar (suspension_de_proceso pid) (record ks {
          cola_block = cola;
          pcb =
              con_pcb q (λ p. record p { estado = block_susp; suspension_en_curso = true }) ks.pcb;
          cola_block_susp = ks.cola_block_susp ++ (q ∷ []);
        }),
      )
    ]

unfoldable pub pasar_proceso_block_susp_a_ready_susp : ℕ → Ks → Option Ks
unfolding sacar
pasar_proceso_block_susp_a_ready_susp pid ks =
    let (e, cola) = sacar pid ks.cola_block_susp in
    elim e [
      | none ↦ none
      | some q ↦ some (record ks {
        cola_block_susp = cola;
        pcb = con_pcb q (λ p. record p { estado = ready_susp }) ks.pcb;
        cola_ready_susp = ks.cola_ready_susp ++ (q ∷ []);
      })
    ]

unfoldable pub pasar_proceso_ready_susp_a_ready : ℕ → Ks → Option Ks
unfolding sacar encolar_ready
pasar_proceso_ready_susp_a_ready pid ks =
    let (e, cola) = sacar pid ks.cola_ready_susp in
    elim e [
      | none ↦ none
      | some q ↦ avisar_ready (
          encolar_ready q (record ks {
            cola_ready_susp = cola;
            pcb = con_pcb q (λ p. record p { estado = ready }) ks.pcb;
          }))
    ]

-- The body of `iniciarTemporizadorSuspendido` once the time is over.
unfoldable pub vence_temporizador_suspendido : ℕ → ℕ → Ks → Bool × Ks
unfolding pasar_proceso_block_a_block_susp
vence_temporizador_suspendido pid id_bloqueo ks =
    let (e, cola) = buscar_pcb_por_pid pid ks.cola_block in
    elim e [
      | none ↦ (false, record ks { cola_block = cola })
      | some q ↦ elim ((ks.pcb q).id_bloqueo_actual == id_bloqueo) [
        | true ↦ pasar_proceso_block_a_block_susp pid (record ks { cola_block = cola })
        | false ↦ (false, record ks { cola_block = cola })
      ]
    ]

-- `crear_PCB`: the flag of round robin, where the priority has no queue and where the algorithm is
-- unknown, which leaves the flag unset.
unfoldable pub ejecuta_por_rr_de : ℕ → Ks → Option Bool
unfolding obtener_planificacion cola_de_proceso_ejecuta_rr
ejecuta_por_rr_de prioridad ks = elim (obtener_planificacion ks.planification_algorithm) [
  | none ↦ none
  | some fifo ↦ some false
  | some rr ↦ some true
  | some cmn ↦ elim (cola_de_proceso_ejecuta_rr prioridad ks) [
    | none ↦ none
    | some (pos n) ↦ some (ltb 0 n)
    | some (negsuc n) ↦ some true
  ]
]

abbrev pub pcb_nuevo : String → ℕ → Bool → Pcb
pcb_nuevo path prioridad por_rr = record {
  prioridad = prioridad;
  prioridad_base = prioridad;
  path = path;
  estado = new;
  socket_cpu_ejecuta = none;
  ejecuta_por_rr = por_rr;
  mutex_tomados = [];
  suspension_en_curso = false;
  io_completada_en_transito = false;
  id_bloqueo_actual = 0;
}

-- `crearProceso`, with `crear_PCB` and the message of `enviarPathYPidKM`.
unfoldable pub crear_proceso : String → ℕ → Ks → Option Ks
unfolding ejecuta_por_rr_de
crear_proceso path prioridad ks = elim (ejecuta_por_rr_de prioridad ks) [
  | none ↦ none
  | some por_rr ↦
      let pid = ks.pid_para_asignar in
      some (record ks {
        pcb = con_pcb pid (λ _. pcb_nuevo path prioridad por_rr) ks.pcb;
        pid_para_asignar = pid + 1;
        cola_new = ks.cola_new ++ (pid ∷ []);
        enviados = ks.enviados ++ (creacion_de_proceso pid path ∷ []);
      })
]
