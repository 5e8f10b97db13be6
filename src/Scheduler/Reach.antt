-- ===== src/Scheduler/Reach.antt =====
-- kernel_scheduler/src: the scheduler as a state machine. It starts as `inicializarColas` of
-- planificador.c leaves it, and each step is one of the operations, called on a process in the state
-- for which its callers call it.
use Prim.Native.String.{String}
use text.Mathlib.Text.{◌==◌ as str_eq}
use text.Mathlib.TextEquality.{eq_iff}
use tp_2026_1c_malloc_and_cr.Base.{
  ℕ, zero, suc, ◌<◌, ◌≡◌, refl, sym, ◌∙◌, ap, subst, inl, inr, Bool-cases, Bool, true, false,
  Option, some, List, [], ◌∷◌, arith, if◌then◌else◌, length,
}
use tp_2026_1c_malloc_and_cr.Scheduler.Types.{
  Planificador, fifo, rr, cmn, Estado, nulo, new, exit, ready, ready_susp, exec, block, block_susp,
  CpuConectada, Ks, Motivo,
}
use tp_2026_1c_malloc_and_cr.Scheduler.Queues.{veces_colas}
use tp_2026_1c_malloc_and_cr.Scheduler.Ready.{
  obtener_planificacion, elegir, elegir_cpu, conectar_cpu, quitar_cpu, liberar_cpu,
}
use tp_2026_1c_malloc_and_cr.Scheduler.Transitions.{
  pasar_proceso_new_a_ready, pasar_proceso_ready_a_exec, pasar_proceso_exec_a_ready,
  reencolar_al_inicio, pasar_proceso_blocka_ready, pasar_proceso_ready_susp_a_ready,
  pasar_proceso_exec_a_block, pasar_proceso_block_a_block_susp,
  pasar_proceso_block_susp_a_ready_susp, crear_proceso, ejecuta_por_rr_de,
}
use tp_2026_1c_malloc_and_cr.Scheduler.Transitions.Invariant.{
  IsValid, marca, PasaA, cola_de, colas_de,
}
use tp_2026_1c_malloc_and_cr.Scheduler.Transitions.ToReady.{
  pasar_proceso_exec_a_ready-PasaA, reencolar_al_inicio-PasaA, pasar_proceso_blocka_ready-PasaA,
  pasar_proceso_ready_susp_a_ready-PasaA,
}
use tp_2026_1c_malloc_and_cr.Scheduler.Transitions.ToBlock.{
  pasar_proceso_exec_a_block-PasaA, pasar_proceso_block_a_block_susp-PasaA,
  pasar_proceso_block_susp_a_ready_susp-PasaA,
}
use tp_2026_1c_malloc_and_cr.Scheduler.Transitions.ToExec.{
  pasar_proceso_new_a_ready-PasaA, pasar_proceso_ready_a_exec-PasaA,
}
use tp_2026_1c_malloc_and_cr.Scheduler.Transitions.ToNew.{crear_proceso-PasaA}
use tp_2026_1c_malloc_and_cr.Scheduler.Finish.{finalizar_proceso}
use tp_2026_1c_malloc_and_cr.Scheduler.Finish.Ended.{corresponde, finalizar_proceso-PasaA}

-- `cantidad` empty ready queues.
abbrev pub colas_vacias : ℕ → List (List ℕ)
colas_vacias zero = []
colas_vacias (suc n) = [] ∷ colas_vacias n

-- The queues empty: `cantidad` ready queues under CMN, else one. The other globals are arguments.
unfoldable pub inicializar_colas : Ks → Ks
inicializar_colas ks = record ks {
  cola_new = [];
  colas_ready =
      if str_eq ks.planification_algorithm "CMN"
      then colas_vacias ks.cantidad_colas_multinivel
      else colas_vacias 1;
  cola_ready_susp = [];
  cola_exec = [];
  cola_block = [];
  cola_block_susp = [];
  cola_exit = [];
  cola_cpus = [];
}

-- One operation. A CPU connects, becomes free, or leaves, after the end of what it ran; `loopCortoPlazo`
-- dispatches after `sem_hayCPUdisponible` tells it of a free CPU.
pub data Paso (a : Planificador) : Ks → Ks → Type 0 where
  crea :
      {ks ks' : Ks} (path : String) (prioridad : ℕ) (por_rr : Bool)
      → ejecuta_por_rr_de prioridad ks ≡ some por_rr
      → cola_de a prioridad < length ks.colas_ready
      → crear_proceso path prioridad ks ≡ some ks'
      → Paso a ks ks'
  admite :
      {ks ks' : Ks} (pid : ℕ) (cola : List ℕ)
      → ks.cola_new ≡ pid ∷ cola
      → pasar_proceso_new_a_ready ks ≡ some ks'
      → Paso a ks ks'
  despacha :
      {ks ks' : Ks} (pid : ℕ) (c : CpuConectada)
      → (elegir ks).0 ≡ some pid
      → (elegir_cpu ks.cola_cpus).0 ≡ some c
      → pasar_proceso_ready_a_exec ks ≡ some ks'
      → Paso a ks ks'
  desaloja :
      {ks ks' : Ks} (pid : ℕ)
      → (ks.pcb pid).estado ≡ exec
      → pasar_proceso_exec_a_ready pid ks ≡ some ks'
      → Paso a ks ks'
  reencola :
      {ks ks' : Ks} (pid : ℕ)
      → (ks.pcb pid).estado ≡ exec
      → reencolar_al_inicio pid ks ≡ some ks'
      → Paso a ks ks'
  bloquea :
      {ks ks' : Ks} (pid : ℕ)
      → (ks.pcb pid).estado ≡ exec
      → pasar_proceso_exec_a_block pid ks ≡ some ks'
      → Paso a ks ks'
  desbloquea :
      {ks ks' : Ks} (pid : ℕ)
      → (ks.pcb pid).estado ≡ block
      → pasar_proceso_blocka_ready pid ks ≡ some ks'
      → Paso a ks ks'
  suspende :
      {ks ks' : Ks} (pid : ℕ)
      → (ks.pcb pid).estado ≡ block
      → (pasar_proceso_block_a_block_susp pid ks).1 ≡ ks'
      → Paso a ks ks'
  termina_io :
      {ks ks' : Ks} (pid : ℕ)
      → (ks.pcb pid).estado ≡ block_susp
      → pasar_proceso_block_susp_a_ready_susp pid ks ≡ some ks'
      → Paso a ks ks'
  vuelve :
      {ks ks' : Ks} (pid : ℕ)
      → (ks.pcb pid).estado ≡ ready_susp
      → pasar_proceso_ready_susp_a_ready pid ks ≡ some ks'
      → Paso a ks ks'
  finaliza :
      {ks ks' : Ks} (pid : ℕ) (motivo : Motivo)
      → corresponde motivo (ks.pcb pid).estado ≡ true
      → finalizar_proceso pid motivo ks ≡ some ks'
      → Paso a ks ks'
  conecta : {ks : Ks} (id socket : ℕ) → Paso a ks (conectar_cpu id socket ks)
  libera : {ks : Ks} (socket : ℕ) → Paso a ks (liberar_cpu socket ks)
  desconecta :
      {ks : Ks} (socket : ℕ) → Paso a ks (record ks { cola_cpus = quitar_cpu socket ks.cola_cpus })

-- The states after any number of operations.
pub data Alcanzable (a : Planificador) : Ks → Type 0 where
  inicio :
      (ks : Ks)
      → obtener_planificacion ks.planification_algorithm ≡ some a
      → ks.pid_para_asignar ≡ 0
      → ((p : ℕ) → (ks.pcb p).estado ≡ nulo)
      → Alcanzable a (inicializar_colas ks)
  sigue : {ks ks' : Ks} → Alcanzable a ks → Paso a ks ks' → Alcanzable a ks'

PasaA-IsValid :
    (a : Planificador) (pid : ℕ) (y : Estado) (ks ks' : Ks) (r : Option Ks)
    → PasaA a pid y ks r
    → r ≡ some ks'
    → IsValid a ks'
PasaA-IsValid a pid y ks ks' r (otro, eq, v, hecho, resto) e =
    let mismo : otro ≡ ks' = cc in subst (IsValid a) mismo v

-- The CPUs stand in no queue of processes.
conectar_cpu-IsValid :
    (a : Planificador) (id socket : ℕ) (ks : Ks)
    → IsValid a ks
    → IsValid a (conectar_cpu id socket ks)
unfolding conectar_cpu
conectar_cpu-IsValid a id socket ks v = v

liberar_cpu-IsValid :
    (a : Planificador) (socket : ℕ) (ks : Ks) → IsValid a ks → IsValid a (liberar_cpu socket ks)
unfolding liberar_cpu
liberar_cpu-IsValid a socket ks v = v

Paso-IsValid : (a : Planificador) (ks ks' : Ks) → Paso a ks ks' → IsValid a ks → IsValid a ks'
Paso-IsValid a ks ks' (crea path prioridad por_rr r l e) v =
    PasaA-IsValid a ks.pid_para_asignar new ks ks' (crear_proceso path prioridad ks)
      (crear_proceso-PasaA a path prioridad por_rr ks v r l) e
Paso-IsValid a ks ks' (admite pid cola q e) v =
    PasaA-IsValid a pid ready ks ks' (pasar_proceso_new_a_ready ks)
      (pasar_proceso_new_a_ready-PasaA a pid cola ks v q) e
Paso-IsValid a ks ks' (despacha pid c el cpu e) v =
    PasaA-IsValid a pid exec ks ks' (pasar_proceso_ready_a_exec ks)
      (pasar_proceso_ready_a_exec-PasaA a pid c ks v el cpu) e
Paso-IsValid a ks ks' (desaloja pid s e) v =
    PasaA-IsValid a pid ready ks ks' (pasar_proceso_exec_a_ready pid ks)
      (pasar_proceso_exec_a_ready-PasaA a pid ks v s) e
Paso-IsValid a ks ks' (reencola pid s e) v =
    PasaA-IsValid a pid ready ks ks' (reencolar_al_inicio pid ks)
      (reencolar_al_inicio-PasaA a pid ks v s) e
Paso-IsValid a ks ks' (bloquea pid s e) v =
    PasaA-IsValid a pid block ks ks' (pasar_proceso_exec_a_block pid ks)
      (pasar_proceso_exec_a_block-PasaA a pid ks v s) e
Paso-IsValid a ks ks' (desbloquea pid s e) v =
    PasaA-IsValid a pid ready ks ks' (pasar_proceso_blocka_ready pid ks)
      (pasar_proceso_blocka_ready-PasaA a pid ks v s) e
Paso-IsValid a ks ks' (termina_io pid s e) v =
    PasaA-IsValid a pid ready_susp ks ks' (pasar_proceso_block_susp_a_ready_susp pid ks)
      (pasar_proceso_block_susp_a_ready_susp-PasaA a pid ks v s) e
Paso-IsValid a ks ks' (vuelve pid s e) v =
    PasaA-IsValid a pid ready ks ks' (pasar_proceso_ready_susp_a_ready pid ks)
      (pasar_proceso_ready_susp_a_ready-PasaA a pid ks v s) e
Paso-IsValid a ks ks' (suspende pid s e) v =
    PasaA-IsValid a pid block_susp ks ks' (some (pasar_proceso_block_a_block_susp pid ks).1)
      (pasar_proceso_block_a_block_susp-PasaA a pid ks v s) (ap some e)
Paso-IsValid a ks ks' (finaliza pid motivo c e) v =
    PasaA-IsValid a pid exit ks ks' (finalizar_proceso pid motivo ks)
      (finalizar_proceso-PasaA a pid motivo ks v c) e
Paso-IsValid a ks ks' (conecta id socket) v = conectar_cpu-IsValid a id socket ks v
Paso-IsValid a ks ks' (libera socket) v = liberar_cpu-IsValid a socket ks v
Paso-IsValid a ks ks' (desconecta socket) v = v

veces-colas_vacias : (p n : ℕ) → veces_colas p (colas_vacias n) ≡ 0
veces-colas_vacias p zero = refl
veces-colas_vacias p (suc n) = omega (arith, veces-colas_vacias p n)

length-colas_vacias : (n : ℕ) → length (colas_vacias n) ≡ n
length-colas_vacias zero = refl
length-colas_vacias (suc n) = ap suc (length-colas_vacias n)

-- The ready queues that the algorithm has.
abbrev iniciales : String → ℕ → List (List ℕ)
iniciales algoritmo cantidad =
    if str_eq algoritmo "CMN" then colas_vacias cantidad else colas_vacias 1

iniciales-vacias :
    (algoritmo : String) (cantidad p : ℕ) → veces_colas p (iniciales algoritmo cantidad) ≡ 0
iniciales-vacias algoritmo cantidad p = elim (Bool-cases (str_eq algoritmo "CMN")) [
  | inl si ↦ rw si (veces-colas_vacias p cantidad)
  | inr otra ↦ rw otra
]

es_cmn :
    (a : Planificador) (n : ℕ) (x : String)
    → str_eq x "CMN" ≡ true
    → obtener_planificacion x ≡ some a
    → n ≡ colas_de a n
unfolding obtener_planificacion
es_cmn a n x si e =
    let igual : x ≡ "CMN" = (eq_iff x "CMN").0 si in
    let es : obtener_planificacion "CMN" ≡ some a =
      subst (λ t. obtener_planificacion t ≡ some a) igual e in
    let este : cmn ≡ a = cc in ap (λ b. colas_de b n) este

no_cmn :
    (a : Planificador) (n : ℕ) (x : String)
    → str_eq x "CMN" ≡ false
    → obtener_planificacion x ≡ some a
    → 1 ≡ colas_de a n
unfolding obtener_planificacion
no_cmn fifo n x otra e = refl
no_cmn rr n x otra e = refl
no_cmn cmn n x otra e = ground arith

length-iniciales :
    (a : Planificador) (algoritmo : String) (cantidad : ℕ)
    → obtener_planificacion algoritmo ≡ some a
    → length (iniciales algoritmo cantidad) ≡ colas_de a cantidad
unfolding obtener_planificacion
length-iniciales a algoritmo cantidad e = elim (Bool-cases (str_eq algoritmo "CMN")) [
  | inl si ↦ rw si (length-colas_vacias cantidad ∙ es_cmn a cantidad algoritmo si e)
  | inr otra ↦ rw otra (no_cmn a cantidad algoritmo otra e)
]

inicializar_colas-IsValid :
    (a : Planificador) (ks : Ks)
    → obtener_planificacion ks.planification_algorithm ≡ some a
    → ks.pid_para_asignar ≡ 0
    → ((p : ℕ) → (ks.pcb p).estado ≡ nulo)
    → IsValid a (inicializar_colas ks)
unfolding inicializar_colas
inicializar_colas-IsValid a ks e cero nulos = (
  e,
  record {
    en_new = λ p. sym (ap (marca new) (nulos p));
    en_ready = λ p.
        iniciales-vacias ks.planification_algorithm ks.cantidad_colas_multinivel p
        ∙ sym (ap (marca ready) (nulos p));
    en_ready_susp = λ p. sym (ap (marca ready_susp) (nulos p));
    en_exec = λ p. sym (ap (marca exec) (nulos p));
    en_block = λ p. sym (ap (marca block) (nulos p));
    en_block_susp = λ p. sym (ap (marca block_susp) (nulos p));
    en_exit = λ p. refl;
    sin_asignar = λ p l. nulos p;
    colas = length-iniciales a ks.planification_algorithm ks.cantidad_colas_multinivel e;
    en_rango = λ p l. absurd (omega (arith, cero, l));
  },
)

-- In every state that the scheduler can reach from its start by connecting, freeing and removing CPUs,
-- and by creating, admitting, dispatching (to a free CPU), preempting, blocking, suspending, waking and
-- ending processes, in any order, each process in a state stands in the queue of that state exactly
-- once and in no other, and an ended one in none.
pub Alcanzable-IsValid : (a : Planificador) (ks : Ks) → Alcanzable a ks → IsValid a ks
Alcanzable-IsValid a ks (inicio ks0 e cero nulos) = inicializar_colas-IsValid a ks0 e cero nulos
Alcanzable-IsValid a ks (sigue {ks = antes} h paso) =
    Paso-IsValid a antes ks paso (Alcanzable-IsValid a antes h)
