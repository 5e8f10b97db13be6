-- ===== src/Scheduler/Mutexes.antt =====
-- kernel_scheduler/src/syscall.c: the mutexes that processes take, and priority inheritance. The
-- dictionary is the list of its mutexes, told apart by name.
pub mod Ownership
pub mod Inheritance
pub mod Progress
pub mod Release
use Prim.Native.String.{String}
use text.Mathlib.Text.{◌==◌ as str_eq}
use tp_2026_1c_malloc_and_cr.Base.{
  ℕ, ◌+◌, Bool, true, false, ◌&&◌, Option, none, some, List, [], ◌∷◌, ◌++◌, ltb, ◌==◌,
  if◌then◌else◌,
}
use tp_2026_1c_malloc_and_cr.Scheduler.Types.{
  Estado, block_susp, exec, Pcb, Mutex, Ks, cmn, proceso_a_procesar, codigo,
}
use tp_2026_1c_malloc_and_cr.Scheduler.Queues.{buscar_pcb_por_pid}
use tp_2026_1c_malloc_and_cr.Scheduler.Ready.{obtener_planificacion, con_pcb, liberar_cpu}
use tp_2026_1c_malloc_and_cr.Scheduler.Transitions.{
  enviar, pasar_proceso_exec_a_block, pasar_proceso_block_susp_a_ready_susp,
  pasar_proceso_blocka_ready,
}

-- `dictionary_get`
unfoldable pub buscar_mutex : String → List Mutex → Option Mutex
buscar_mutex nombre [] = none
buscar_mutex nombre (m ∷ ms) =
    if str_eq m.nombre_mutex nombre then some m else buscar_mutex nombre ms

-- A write through a mutex pointer.
unfoldable pub con_mutex : String → (Mutex → Mutex) → List Mutex → List Mutex
con_mutex nombre f [] = []
con_mutex nombre f (m ∷ ms) =
    if str_eq m.nombre_mutex nombre then f m ∷ ms else m ∷ con_mutex nombre f ms

unfoldable pub crear_mutex : String → Ks → Ks
crear_mutex nombre ks = elim (buscar_mutex nombre ks.diccionario_mutex) [
  | some _ ↦ ks
  | none ↦ record ks {
    diccionario_mutex =
        ks.diccionario_mutex
        ++ (record {
          nombre_mutex = nombre;
          bloqueado = false;
          pid_asignado = none;
          cola_bloqueados = [];
        }
            ∷ []);
  }
]

-- The first of the ready queues, up to `n` of them, that has the pid.
unfoldable pub buscar_en_colas : ℕ → List (List ℕ) → Option ℕ
buscar_en_colas pid [] = none
buscar_en_colas pid (q ∷ colas) = elim (buscar_pcb_por_pid pid q).0 [
  | some p ↦ some p
  | none ↦ buscar_en_colas pid colas
]

abbrev pub o_si_no : Option ℕ → Option ℕ → Option ℕ
o_si_no (some p) o = some p
o_si_no none o = o

-- `buscarPCBEnCualquierEstado`: EXEC, BLOCK, BLOCK_SUSP, READY_SUSP and the ready queues; not NEW nor
-- EXIT. The searches leave the queues as they were.
unfoldable pub buscar_pcb_en_cualquier_estado : ℕ → Ks → Option ℕ
unfolding buscar_en_colas
buscar_pcb_en_cualquier_estado pid ks = o_si_no (buscar_pcb_por_pid pid ks.cola_exec).0 (
    o_si_no (buscar_pcb_por_pid pid ks.cola_block).0 (
      o_si_no (buscar_pcb_por_pid pid ks.cola_block_susp).0 (
        o_si_no (buscar_pcb_por_pid pid ks.cola_ready_susp).0
          (buscar_en_colas pid ks.colas_ready))))

-- The inheritance of `tomarMutex`: the owner gets a smaller priority number.
unfoldable pub heredar : ℕ → ℕ → Ks → Ks
unfolding buscar_pcb_en_cualquier_estado
heredar solicitante duenio ks = elim (buscar_pcb_por_pid solicitante ks.cola_exec).0 [
  | none ↦ ks
  | some s ↦ elim (buscar_pcb_en_cualquier_estado duenio ks) [
    | none ↦ ks
    | some d ↦
        if ltb (ks.pcb s).prioridad (ks.pcb d).prioridad
        then record ks {
          pcb = con_pcb d (λ p. record p { prioridad = (ks.pcb s).prioridad }) ks.pcb;
        }
        else ks
  ]
]

-- An owner of -1 is found nowhere.
abbrev pub heredar_de : ℕ → Option ℕ → Ks → Ks
heredar_de solicitante none ks = ks
heredar_de solicitante (some duenio) ks = heredar solicitante duenio ks

abbrev pub soltar_cpu : ℕ → Option Ks → Option Ks
soltar_cpu socket none = none
soltar_cpu socket (some ks) = some (liberar_cpu socket ks)

-- `socket` is that of the CPU which runs the process.
unfoldable pub tomar_mutex : ℕ → String → ℕ → Ks → Option Ks
unfolding buscar_mutex con_mutex heredar pasar_proceso_exec_a_block liberar_cpu
tomar_mutex pid nombre socket ks = elim (buscar_mutex nombre ks.diccionario_mutex) [
  | none ↦ some ks
  | some m ↦ elim m.bloqueado [
    | false ↦ some (
        enviar (proceso_a_procesar socket pid) (record ks {
          diccionario_mutex =
              con_mutex nombre (λ x. record x { bloqueado = true; pid_asignado = some pid })
                ks.diccionario_mutex;
        }))
    | true ↦ soltar_cpu socket (
        pasar_proceso_exec_a_block pid (
          heredar_de pid m.pid_asignado (record ks {
            diccionario_mutex =
                con_mutex nombre
                  (λ x. record x { cola_bloqueados = x.cola_bloqueados ++ (pid ∷ []) })
                  ks.diccionario_mutex;
          })))
  ]
]

-- `list_remove_element`: the first occurrence.
unfoldable pub quitar_nombre : String → List String → List String
quitar_nombre n [] = []
quitar_nombre n (x ∷ xs) = if str_eq x n then xs else x ∷ quitar_nombre n xs

-- The loops of `recalcularPrioridad`: the smallest priority number among the processes that wait.
unfoldable pub menor_esperando : Ks → ℕ → List ℕ → ℕ
menor_esperando ks m [] = m
menor_esperando ks m (pid ∷ cola) =
    menor_esperando ks
      (elim (buscar_pcb_en_cualquier_estado pid ks) [
        | none ↦ m
        | some p ↦ if ltb (ks.pcb p).prioridad m then (ks.pcb p).prioridad else m
      ])
      cola

-- A name whose mutex is gone cannot stand in the list, since mutexes are never destroyed.
unfoldable pub menor_de_mutexes : Ks → ℕ → List String → ℕ
menor_de_mutexes ks m [] = m
menor_de_mutexes ks m (n ∷ ns) = elim (buscar_mutex n ks.diccionario_mutex) [
  | none ↦ menor_de_mutexes ks m ns
  | some x ↦ menor_de_mutexes ks (menor_esperando ks m x.cola_bloqueados) ns
]

unfoldable pub recalcular_prioridad : ℕ → Ks → Ks
unfolding menor_esperando menor_de_mutexes
recalcular_prioridad pid ks = record ks {
  pcb =
      con_pcb pid
        (λ p. record p { prioridad = menor_de_mutexes ks p.prioridad_base p.mutex_tomados }) ks.pcb;
}

-- The waiting process that gets the mutex, in BLOCK or else in BLOCK_SUSP.
unfoldable pub buscar_bloqueado : ℕ → Ks → Option ℕ
buscar_bloqueado pid ks =
    o_si_no (buscar_pcb_por_pid pid ks.cola_block).0 (buscar_pcb_por_pid pid ks.cola_block_susp).0

-- The transition of the new owner.
unfoldable pub despertar : ℕ → Ks → Option Ks
despertar pid ks =
    if codigo (ks.pcb pid).estado == codigo block_susp
    then pasar_proceso_block_susp_a_ready_susp pid ks
    else pasar_proceso_blocka_ready pid ks

-- The end of `liberarMutex`.
abbrev pub terminar_liberacion : ℕ → ℕ → Option ℕ → Option Ks → Option Ks
terminar_liberacion pid socket duenio none = none
terminar_liberacion pid socket none (some ks) = some (enviar (proceso_a_procesar socket pid) ks)
terminar_liberacion pid socket (some d) (some ks) =
    some (enviar (proceso_a_procesar socket pid) (recalcular_prioridad d ks))

-- The mutex is handed to the head of its queue, or becomes free; then the new owner moves on.
unfoldable pub entregar_mutex : String → List ℕ → Ks → Option Ks
unfolding buscar_bloqueado despertar
entregar_mutex nombre [] ks = some (record ks {
  diccionario_mutex =
      con_mutex nombre (λ x. record x { bloqueado = false; pid_asignado = none })
        ks.diccionario_mutex;
})
entregar_mutex nombre (proximo ∷ cola) ks =
    let ks' : Ks = record ks {
      diccionario_mutex =
          con_mutex nombre (λ x. record x { pid_asignado = some proximo; cola_bloqueados = cola })
            ks.diccionario_mutex;
    } in
    elim (buscar_bloqueado proximo ks') [
      | none ↦ some ks'
      | some p ↦ despertar p (record ks' {
        pcb =
            con_pcb p (λ q. record q { mutex_tomados = q.mutex_tomados ++ (nombre ∷ []) }) ks'.pcb;
      })
    ]

-- `mutex->bloqueado && mutex->pidAsignado == pidLiberaMutex`
abbrev pub es_duenio : ℕ → Mutex → Bool
es_duenio pid m = m.bloqueado && elim m.pid_asignado [ none ↦ false | some d ↦ d == pid ]

abbrev pub sin_tomado : String → Option ℕ → (ℕ → Pcb) → ℕ → Pcb
sin_tomado nombre none pcb = pcb
sin_tomado nombre (some d) pcb =
    con_pcb d (λ p. record p { mutex_tomados = quitar_nombre nombre p.mutex_tomados }) pcb

unfoldable pub liberar_mutex : ℕ → String → ℕ → Ks → Option Ks
unfolding entregar_mutex recalcular_prioridad quitar_nombre
liberar_mutex pid nombre socket ks = elim (buscar_mutex nombre ks.diccionario_mutex) [
  | none ↦ some (enviar (proceso_a_procesar socket pid) ks)
  | some m ↦ elim (es_duenio pid m) [
    | false ↦ some (enviar (proceso_a_procesar socket pid) ks)
    | true ↦
        let duenio = buscar_pcb_en_cualquier_estado pid ks in
        terminar_liberacion pid socket duenio (
          entregar_mutex nombre m.cola_bloqueados
            (record ks { pcb = sin_tomado nombre duenio ks.pcb }))
  ]
]
