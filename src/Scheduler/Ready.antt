-- ===== src/Scheduler/Ready.antt =====
-- kernel_scheduler/src/planificador.c: the planning algorithm, the ready queues it uses, and the choice
-- of a process and of a CPU. `none` as a result of an operation stands for undefined behaviour of the
-- source: a NULL pointer read, or an array read out of its bounds.
use Prim.Native.String.{String}
use text.Mathlib.Text.{◌==◌ as str_eq}
use tp_2026_1c_malloc_and_cr.Base.{
  ℕ, ◌+◌, true, false, Option, none, some, List, [], ◌∷◌, ◌++◌, ◌==◌, if◌then◌else◌, ℤ, pos, negsuc,
  get_elem?, set,
}
use tp_2026_1c_malloc_and_cr.Scheduler.Types.{Planificador, fifo, rr, cmn, Pcb, CpuConectada, Ks}
use tp_2026_1c_malloc_and_cr.Scheduler.Queues.{elegir_de_colas, separar_libre, volcar}

unfoldable pub obtener_planificacion : String → Option Planificador
obtener_planificacion s =
    if str_eq s "FIFO"
    then some fifo
    else (if str_eq s "RR" then some rr else (if str_eq s "CMN" then some cmn else none))

unfoldable pub cola_de_proceso_ejecuta_rr : ℕ → Ks → Option ℤ
unfolding obtener_planificacion
cola_de_proceso_ejecuta_rr prioridad ks = elim (get_elem? ks.queues_algorithms prioridad) [
  | none ↦ none
  | some algoritmo ↦ elim (obtener_planificacion algoritmo) [
    | some fifo ↦ some (pos 0)
    | some rr ↦ some (pos 1)
    | _ ↦ some (negsuc 0)
  ]
]

-- A write through a PCB pointer.
abbrev pub con_pcb : ℕ → (Pcb → Pcb) → (ℕ → Pcb) → ℕ → Pcb
con_pcb pid f pcb = λ p. if p == pid then f (pcb p) else pcb p

-- `queue_push(colasREADY[i], pcb)`
unfoldable pub empujar_ready : ℕ → ℕ → Ks → Option Ks
empujar_ready i pid ks = elim (get_elem? ks.colas_ready i) [
  | none ↦ none
  | some q ↦ some (record ks { colas_ready = set ks.colas_ready i (q ++ (pid ∷ [])) })
]

-- The `switch` that ends the transitions to READY; an unknown algorithm pushes nothing.
unfoldable pub encolar_ready : ℕ → Ks → Option Ks
unfolding obtener_planificacion empujar_ready
encolar_ready pid ks = elim (obtener_planificacion ks.planification_algorithm) [
  | none ↦ some ks
  | some fifo ↦ empujar_ready 0 pid ks
  | some rr ↦ empujar_ready 0 pid ks
  | some cmn ↦
      empujar_ready (ks.pcb pid).prioridad pid
        (record ks { sem_ready_prioridad = ks.sem_ready_prioridad + 1 })
]

-- The queue is emptied into `colaAux`, the PCB pushed, and the others pushed back.
unfoldable pub empujar_al_inicio : ℕ → ℕ → Ks → Option Ks
unfolding volcar
empujar_al_inicio i pid ks = elim (get_elem? ks.colas_ready i) [
  | none ↦ none
  | some q ↦
      some (record ks { colas_ready = set ks.colas_ready i (volcar (volcar q []) (pid ∷ [])) })
]

unfoldable pub encolar_al_inicio : ℕ → Ks → Option Ks
unfolding obtener_planificacion empujar_al_inicio
encolar_al_inicio pid ks = elim (obtener_planificacion ks.planification_algorithm) [
  | none ↦ some ks
  | some fifo ↦ empujar_al_inicio 0 pid ks
  | some rr ↦ empujar_al_inicio 0 pid ks
  | some cmn ↦ empujar_al_inicio (ks.pcb pid).prioridad pid ks
]

-- `elegirPorFIFO` on the array of queues.
unfoldable pub elegir_por_fifo : List (List ℕ) → Option ℕ × List (List ℕ)
elegir_por_fifo [] = (none, [])
elegir_por_fifo ([] ∷ colas) = (none, [] ∷ colas)
elegir_por_fifo ((p ∷ q) ∷ colas) = (some p, q ∷ colas)

unfoldable pub elegir_por_rr : List (List ℕ) → Option ℕ × List (List ℕ)
elegir_por_rr [] = (none, [])
elegir_por_rr ([] ∷ colas) = (none, [] ∷ colas)
elegir_por_rr ((p ∷ q) ∷ colas) = (some p, q ∷ colas)

unfoldable pub elegir_por_cmn : ℕ → List (List ℕ) → Option ℕ × List (List ℕ)
unfolding elegir_de_colas
elegir_por_cmn cantidad colas = elegir_de_colas cantidad colas

-- The `switch` of `pasarProcesoReadyAExec`.
unfoldable pub elegir : Ks → Option ℕ × List (List ℕ)
unfolding obtener_planificacion elegir_por_fifo elegir_por_rr elegir_por_cmn
elegir ks = elim (obtener_planificacion ks.planification_algorithm) [
  | none ↦ (none, ks.colas_ready)
  | some fifo ↦ elegir_por_fifo ks.colas_ready
  | some rr ↦ elegir_por_rr ks.colas_ready
  | some cmn ↦ elegir_por_cmn ks.cantidad_colas_multinivel ks.colas_ready
]

-- `buscarCPULibre`: the chosen CPU, and the queue, in which it now stands last.
unfoldable pub buscar_cpu_libre : List CpuConectada → Option CpuConectada × List CpuConectada
unfolding separar_libre
buscar_cpu_libre cpus = separar_libre cpus []

-- A write through a CPU pointer; a CPU is told apart by its connection's socket.
unfoldable pub con_cpu : ℕ → (CpuConectada → CpuConectada) → List CpuConectada → List CpuConectada
con_cpu socket f [] = []
con_cpu socket f (c ∷ cs) = if c.socket_cliente == socket then f c ∷ cs else c ∷ con_cpu socket f cs

unfoldable pub elegir_cpu : List CpuConectada → Option CpuConectada × List CpuConectada
unfolding buscar_cpu_libre con_cpu
elegir_cpu cpus =
    let (e, cpus') = buscar_cpu_libre cpus in
    elim e [
      | none ↦ (none, cpus')
      | some c ↦ (some c, con_cpu c.socket_cliente (λ d. record d { libre = false }) cpus')
    ]

-- `buscarCPUSegunPID` and `buscar_cpu_por_socket`: the first match; the queue is put back in order.
unfoldable pub buscar_cpu_segun_pid : ℕ → List CpuConectada → Option CpuConectada
buscar_cpu_segun_pid pid [] = none
buscar_cpu_segun_pid pid (c ∷ cs) = elim c.pid_ejecutando [
  | none ↦ buscar_cpu_segun_pid pid cs
  | some p ↦ if p == pid then some c else buscar_cpu_segun_pid pid cs
]

unfoldable pub buscar_cpu_por_socket : ℕ → List CpuConectada → Option CpuConectada
buscar_cpu_por_socket socket [] = none
buscar_cpu_por_socket socket (c ∷ cs) =
    if c.socket_cliente == socket then some c else buscar_cpu_por_socket socket cs

-- The case CPU_HANDSHAKE of the server, and the first lines of the thread that serves the new CPU. The
-- identifier is the one that the CPU sends.
unfoldable pub conectar_cpu : ℕ → ℕ → Ks → Ks
conectar_cpu id socket ks = record ks {
  cola_cpus =
      ks.cola_cpus
      ++ (record {
        socket_cliente = socket;
        id_cpu = id;
        libre = true;
        pid_ejecutando = none;
        pcb_ejecutando = none;
      }
          ∷ []);
  sem_hay_cpu_disponible = ks.sem_hay_cpu_disponible + 1;
}

-- The two loops of `quitarCPU`; the socket stands for the pointer.
unfoldable pub quitar_cpu : ℕ → List CpuConectada → List CpuConectada
quitar_cpu socket [] = []
quitar_cpu socket (c ∷ cs) =
    if c.socket_cliente == socket then quitar_cpu socket cs else c ∷ quitar_cpu socket cs

unfoldable pub liberar_cpu : ℕ → Ks → Ks
unfolding con_cpu
liberar_cpu socket ks = record ks {
  cola_cpus =
      con_cpu socket (λ c. record c { libre = true; pid_ejecutando = none; pcb_ejecutando = none })
        ks.cola_cpus;
  sem_hay_cpu_disponible = ks.sem_hay_cpu_disponible + 1;
}
