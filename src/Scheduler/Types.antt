-- ===== src/Scheduler/Types.antt =====
-- kernel_scheduler/src/kernel_scheduler.h: the structures of the Kernel Scheduler, and the globals of
-- planificador.c. A PCB is never moved and keeps its pid, so a pointer to one is its pid, and the heap
-- of PCBs is a function of the pid. `none` stands for the -1 of a pid or a socket and for NULL.
use Prim.Native.String.{String}
use tp_2026_1c_malloc_and_cr.Base.{ℕ, Bool, Option, List}

pub data Planificador : Type 0 where
  fifo : Planificador
  rr : Planificador
  cmn : Planificador

pub data Estado : Type 0 where
  nulo : Estado
  new : Estado
  ready : Estado
  ready_susp : Estado
  exec : Estado
  block : Estado
  block_susp : Estado
  exit : Estado

-- The enumerators' values.
abbrev pub codigo : Estado → ℕ
codigo nulo = 0
codigo new = 1
codigo ready = 2
codigo ready_susp = 3
codigo exec = 4
codigo block = 5
codigo block_susp = 6
codigo exit = 7

-- `t_pcb`; `mutex_tomados` holds the mutexes' names, which are their keys.
pub record Pcb : Type 0 where
  pub prioridad : ℕ
  pub prioridad_base : ℕ
  pub path : String
  pub estado : Estado
  pub socket_cpu_ejecuta : Option ℕ
  pub ejecuta_por_rr : Bool
  pub mutex_tomados : List String
  pub suspension_en_curso : Bool
  pub io_completada_en_transito : Bool
  pub id_bloqueo_actual : ℕ

-- `t_cpu_conectada`
pub record CpuConectada : Type 0 where
  pub socket_cliente : ℕ
  pub id_cpu : ℕ
  pub libre : Bool
  pub pid_ejecutando : Option ℕ
  pub pcb_ejecutando : Option ℕ

-- `t_mutex`
pub record Mutex : Type 0 where
  pub nombre_mutex : String
  pub bloqueado : Bool
  pub pid_asignado : Option ℕ
  pub cola_bloqueados : List ℕ

pub data TipoIo : Type 0 where
  io_sleep : TipoIo
  io_stdin : TipoIo
  io_stdout : TipoIo

-- `t_solicitud_io`
pub record SolicitudIo : Type 0 where
  pub pid_solicita_syscall : ℕ
  pub tipo : TipoIo
  pub tamanio : ℕ
  pub direccion : ℕ
  pub tiempo_sleep : ℕ

-- What the scheduler sends: to a CPU's socket, or to Kernel Memory.
pub data Mensaje : Type 0 where
  proceso_a_procesar : ℕ → ℕ → Mensaje
  creacion_de_proceso : ℕ → String → Mensaje
  suspension_de_proceso : ℕ → Mensaje
  desuspension_de_proceso : ℕ → Mensaje
  finalizar_proceso : ℕ → Mensaje

-- The timer threads that were started: of a quantum, with the CPU's socket; of a suspension, with the
-- blocking it was started for.
pub data Temporizador : Type 0 where
  quantum : ℕ → Temporizador
  suspension : ℕ → ℕ → Temporizador

-- Why a process ends.
pub data Motivo : Type 0 where
  creacion_de_proceso_error : Motivo
  desconexion_cpu : Motivo
  seg_fault : Motivo
  exit_proc : Motivo
  desconexion_io : Motivo
  corrupcion_memoria : Motivo
  otro_motivo : Motivo

-- The globals. A semaphore is the number of its units; `enviados` and `temporizadores` are what was
-- sent and started, oldest first; `solicitudes` are the three interfaces' queues.
pub record Ks : Type 0 where
  pub planification_algorithm : String
  pub queues_algorithms : List String
  pub cantidad_colas_multinivel : ℕ
  pub pid_para_asignar : ℕ
  pub pcb_finalizados : ℕ
  pub pcb : ℕ → Pcb
  pub cola_new : List ℕ
  pub colas_ready : List (List ℕ)
  pub cola_ready_susp : List ℕ
  pub cola_exec : List ℕ
  pub cola_block : List ℕ
  pub cola_block_susp : List ℕ
  pub cola_exit : List ℕ
  pub cola_cpus : List CpuConectada
  pub diccionario_mutex : List Mutex
  pub solicitudes : TipoIo → List SolicitudIo
  pub sem_hay_procesos_en_ready : ℕ
  pub sem_hay_cpu_disponible : ℕ
  pub sem_ready_prioridad : ℕ
  pub sem_proceso_finalizado : ℕ
  pub enviados : List Mensaje
  pub temporizadores : List Temporizador
