-- ===== src/Scheduler/Tests.antt =====
-- The Kernel Scheduler with two ready queues under CMN: process 0 is in NEW, 1 in READY, 2 in EXEC, 3
-- in BLOCK, 4 in BLOCK_SUSP and 5 in READY_SUSP, and a CPU is free.
use tp_2026_1c_malloc_and_cr.Base.{
  ℕ, zero, suc, ◌≡◌, ◌≤◌, refl, true, false, none, some, [], ◌∷◌, arith, length,
}
use tp_2026_1c_malloc_and_cr.Scheduler.Types.{
  Estado, nulo, new, ready, ready_susp, exec, block, block_susp, exit, cmn, Pcb, CpuConectada, Ks,
  corrupcion_memoria,
}
use tp_2026_1c_malloc_and_cr.Scheduler.Queues.{
  sacar, hallado, borrar, elegir_de_colas, veces, veces_colas, buscar_pcb_por_pid,
}
use tp_2026_1c_malloc_and_cr.Scheduler.Queues.Order.{
  sacar_lem, PrimeroDe, elegir_de_colas-PrimeroDe,
}
use tp_2026_1c_malloc_and_cr.Scheduler.Ready.{obtener_planificacion, elegir, elegir_cpu}
use tp_2026_1c_malloc_and_cr.Scheduler.Transitions.{
  pasar_proceso_new_a_ready, pasar_proceso_ready_a_exec, pasar_proceso_exec_a_block,
  pasar_proceso_block_a_block_susp, crear_proceso, ejecuta_por_rr_de,
}
use tp_2026_1c_malloc_and_cr.Scheduler.Transitions.Invariant.{IsValid, PasaA, marca}
use tp_2026_1c_malloc_and_cr.Scheduler.Transitions.ToExec.{
  pasar_proceso_ready_a_exec-PasaA, pasar_proceso_ready_a_exec_pierde,
}
use tp_2026_1c_malloc_and_cr.Scheduler.Transitions.ToNew.{crear_proceso-PasaA}
use tp_2026_1c_malloc_and_cr.Scheduler.Finish.{finalizar_proceso}
use tp_2026_1c_malloc_and_cr.Scheduler.Finish.Ended.{finalizar_proceso-PasaA}
use tp_2026_1c_malloc_and_cr.Scheduler.Priority.{ordenar_cola, de_prioridad}
use tp_2026_1c_malloc_and_cr.Scheduler.Priority.Order.{Ordenada, ordenar_cola-Ordenada}
use tp_2026_1c_malloc_and_cr.Scheduler.Types.{Mutex}
use tp_2026_1c_malloc_and_cr.Scheduler.Mutexes.{
  buscar_mutex, tomar_mutex, liberar_mutex, recalcular_prioridad,
}
use tp_2026_1c_malloc_and_cr.Scheduler.Mutexes.Inheritance.{EsMinimo, recalcular_prioridad-EsMinimo}
use tp_2026_1c_malloc_and_cr.Scheduler.Mutexes.Ownership.{Coherentes}
use tp_2026_1c_malloc_and_cr.Scheduler.Mutexes.Progress.{Efecto, tomar_mutex-Exito}
use tp_2026_1c_malloc_and_cr.Scheduler.Mutexes.Release.{liberar_mutex-Exito}
use tp_2026_1c_malloc_and_cr.Base.{subst, Option}
use tp_2026_1c_malloc_and_cr.Scheduler.Types.{creacion_de_proceso}
use tp_2026_1c_malloc_and_cr.Scheduler.Ready.{con_pcb, conectar_cpu}
use tp_2026_1c_malloc_and_cr.Scheduler.Transitions.{pcb_nuevo}
use tp_2026_1c_malloc_and_cr.Scheduler.Reach.{
  Alcanzable, inicializar_colas, inicio, sigue, conecta, crea, admite, despacha, bloquea, suspende,
  Alcanzable-IsValid,
}

abbrev pcb_en : Estado → Pcb
pcb_en e = record {
  prioridad = 1;
  prioridad_base = 1;
  path = "proceso";
  estado = e;
  socket_cpu_ejecuta = none;
  ejecuta_por_rr = true;
  mutex_tomados = [];
  suspension_en_curso = false;
  io_completada_en_transito = false;
  id_bloqueo_actual = 0;
}

abbrev estado_de : ℕ → Estado
estado_de zero = new
estado_de (suc zero) = ready
estado_de (suc (suc zero)) = exec
estado_de (suc (suc (suc zero))) = block
estado_de (suc (suc (suc (suc zero)))) = block_susp
estado_de (suc (suc (suc (suc (suc zero))))) = ready_susp
estado_de (suc (suc (suc (suc (suc (suc n)))))) = nulo

abbrev cpu_libre : CpuConectada
cpu_libre = record {
  socket_cliente = 9;
  id_cpu = 1;
  libre = true;
  pid_ejecutando = none;
  pcb_ejecutando = none;
}

abbrev ks : Ks
ks = record {
  planification_algorithm = "CMN";
  queues_algorithms = "RR" ∷ "FIFO" ∷ [];
  cantidad_colas_multinivel = 2;
  pid_para_asignar = 6;
  pcb_finalizados = 0;
  pcb = λ p. pcb_en (estado_de p);
  cola_new = 0 ∷ [];
  colas_ready = [] ∷ (1 ∷ []) ∷ [];
  cola_ready_susp = 5 ∷ [];
  cola_exec = 2 ∷ [];
  cola_block = 3 ∷ [];
  cola_block_susp = 4 ∷ [];
  cola_exit = [];
  cola_cpus = cpu_libre ∷ [];
  diccionario_mutex = [];
  solicitudes = λ t. [];
  sem_hay_procesos_en_ready = 1;
  sem_hay_cpu_disponible = 1;
  sem_ready_prioridad = 0;
  sem_proceso_finalizado = 0;
  enviados = [];
  temporizadores = [];
}

abbrev ks_sin_cpu : Ks
ks_sin_cpu = record ks { cola_cpus = [] }

es_cmn : obtener_planificacion "CMN" ≡ some cmn
unfolding obtener_planificacion
es_cmn = refl

casos_new : (p : ℕ) → veces p ks.cola_new ≡ marca new (estado_de p)
casos_new zero = refl
casos_new (suc zero) = refl
casos_new (suc (suc zero)) = refl
casos_new (suc (suc (suc zero))) = refl
casos_new (suc (suc (suc (suc zero)))) = refl
casos_new (suc (suc (suc (suc (suc zero))))) = refl
casos_new (suc (suc (suc (suc (suc (suc n)))))) = ground arith

casos_ready : (p : ℕ) → veces_colas p ks.colas_ready ≡ marca ready (estado_de p)
casos_ready zero = refl
casos_ready (suc zero) = refl
casos_ready (suc (suc zero)) = refl
casos_ready (suc (suc (suc zero))) = refl
casos_ready (suc (suc (suc (suc zero)))) = refl
casos_ready (suc (suc (suc (suc (suc zero))))) = refl
casos_ready (suc (suc (suc (suc (suc (suc n)))))) = ground arith

casos_ready_susp : (p : ℕ) → veces p ks.cola_ready_susp ≡ marca ready_susp (estado_de p)
casos_ready_susp zero = refl
casos_ready_susp (suc zero) = refl
casos_ready_susp (suc (suc zero)) = refl
casos_ready_susp (suc (suc (suc zero))) = refl
casos_ready_susp (suc (suc (suc (suc zero)))) = refl
casos_ready_susp (suc (suc (suc (suc (suc zero))))) = refl
casos_ready_susp (suc (suc (suc (suc (suc (suc n)))))) = ground arith

casos_exec : (p : ℕ) → veces p ks.cola_exec ≡ marca exec (estado_de p)
casos_exec zero = refl
casos_exec (suc zero) = refl
casos_exec (suc (suc zero)) = refl
casos_exec (suc (suc (suc zero))) = refl
casos_exec (suc (suc (suc (suc zero)))) = refl
casos_exec (suc (suc (suc (suc (suc zero))))) = refl
casos_exec (suc (suc (suc (suc (suc (suc n)))))) = ground arith

casos_block : (p : ℕ) → veces p ks.cola_block ≡ marca block (estado_de p)
casos_block zero = refl
casos_block (suc zero) = refl
casos_block (suc (suc zero)) = refl
casos_block (suc (suc (suc zero))) = refl
casos_block (suc (suc (suc (suc zero)))) = refl
casos_block (suc (suc (suc (suc (suc zero))))) = refl
casos_block (suc (suc (suc (suc (suc (suc n)))))) = ground arith

casos_block_susp : (p : ℕ) → veces p ks.cola_block_susp ≡ marca block_susp (estado_de p)
casos_block_susp zero = refl
casos_block_susp (suc zero) = refl
casos_block_susp (suc (suc zero)) = refl
casos_block_susp (suc (suc (suc zero))) = refl
casos_block_susp (suc (suc (suc (suc zero)))) = refl
casos_block_susp (suc (suc (suc (suc (suc zero))))) = refl
casos_block_susp (suc (suc (suc (suc (suc (suc n)))))) = ground arith

sin : (p : ℕ) → 6 ≤ p → estado_de p ≡ nulo
sin zero l = absurd (omega arith)
sin (suc zero) l = absurd (omega arith)
sin (suc (suc zero)) l = absurd (omega arith)
sin (suc (suc (suc zero))) l = absurd (omega arith)
sin (suc (suc (suc (suc zero)))) l = absurd (omega arith)
sin (suc (suc (suc (suc (suc zero))))) l = absurd (omega arith)
sin (suc (suc (suc (suc (suc (suc n)))))) l = refl

ks-IsValid : IsValid cmn ks
ks-IsValid = (
  es_cmn,
  record {
    en_new = λ p. casos_new p;
    en_ready = λ p. casos_ready p;
    en_ready_susp = λ p. casos_ready_susp p;
    en_exec = λ p. casos_exec p;
    en_block = λ p. casos_block p;
    en_block_susp = λ p. casos_block_susp p;
    en_exit = λ p. refl;
    sin_asignar = λ p l. sin p l;
    colas = refl;
    en_rango = λ p l. omega arith;
  },
)

elige_1 : (elegir ks).0 ≡ some 1
unfolding elegir
elige_1 = refl

elige_1_sin_cpu : (elegir ks_sin_cpu).0 ≡ some 1
unfolding elegir
elige_1_sin_cpu = refl

elige_cpu : (elegir_cpu ks.cola_cpus).0 ≡ some cpu_libre
unfolding elegir_cpu
elige_cpu = refl

sin_cpu : (elegir_cpu ks_sin_cpu.cola_cpus).0 ≡ none
unfolding elegir_cpu
sin_cpu = refl

por_rr_0 : ejecuta_por_rr_de 0 ks ≡ some true
unfolding ejecuta_por_rr_de
por_rr_0 = refl

pasar_proceso_ready_a_exec_example : PasaA cmn 1 exec ks (pasar_proceso_ready_a_exec ks)
pasar_proceso_ready_a_exec_example =
    pasar_proceso_ready_a_exec-PasaA cmn 1 cpu_libre ks ks-IsValid elige_1 elige_cpu

pasar_proceso_ready_a_exec_pierde_example :
    (ks' : Ks) × (pasar_proceso_ready_a_exec ks_sin_cpu ≡ some ks')
    × ((ks'.pcb 1).estado ≡ ready)
    × (veces_colas 1 ks'.colas_ready ≡ 0)
pasar_proceso_ready_a_exec_pierde_example =
    pasar_proceso_ready_a_exec_pierde cmn 1 ks_sin_cpu ks-IsValid elige_1_sin_cpu sin_cpu

crear_proceso_example : PasaA cmn 6 new ks (crear_proceso "otro" 0 ks)
crear_proceso_example = crear_proceso-PasaA cmn "otro" 0 true ks ks-IsValid por_rr_0 (omega arith)

finalizar_proceso_example : PasaA cmn 1 exit ks (finalizar_proceso 1 corrupcion_memoria ks)
finalizar_proceso_example = finalizar_proceso-PasaA cmn 1 corrupcion_memoria ks ks-IsValid refl

sacar_example : sacar 2 (1 ∷ 2 ∷ 3 ∷ []) ≡ (hallado 2 (1 ∷ 2 ∷ 3 ∷ []), borrar 2 (1 ∷ 2 ∷ 3 ∷ []))
sacar_example = sacar_lem 2 (1 ∷ 2 ∷ 3 ∷ [])

elegir_de_colas_example :
    PrimeroDe ks.colas_ready (elegir_de_colas (length ks.colas_ready) ks.colas_ready)
elegir_de_colas_example = elegir_de_colas-PrimeroDe ks.colas_ready

abbrev prioridad_de : ℕ → ℕ
prioridad_de (suc zero) = 3
prioridad_de n = 0

ordenar_cola_example :
    Ordenada prioridad_de (ordenar_cola prioridad_de (1 ∷ 2 ∷ 3 ∷ []))
    × ((j : ℕ)
        → de_prioridad prioridad_de j (ordenar_cola prioridad_de (1 ∷ 2 ∷ 3 ∷ []))
          ≡ de_prioridad prioridad_de j (1 ∷ 2 ∷ 3 ∷ []))
    × ((p : ℕ) → veces p (ordenar_cola prioridad_de (1 ∷ 2 ∷ 3 ∷ [])) ≡ veces p (1 ∷ 2 ∷ 3 ∷ []))
ordenar_cola_example = ordenar_cola-Ordenada prioridad_de (1 ∷ 2 ∷ 3 ∷ [])

abbrev mutex_tomado : Mutex
mutex_tomado = record {
  nombre_mutex = "M";
  bloqueado = true;
  pid_asignado = some 2;
  cola_bloqueados = 3 ∷ 4 ∷ [];
}

abbrev ks_con_mutex : Ks
ks_con_mutex = record ks {
  diccionario_mutex = mutex_tomado ∷ [];
  pcb = λ p. record (pcb_en (estado_de p)) { mutex_tomados = "M" ∷ [] };
}

ks_con_mutex-IsValid : IsValid cmn ks_con_mutex
ks_con_mutex-IsValid =
    let u = ks-IsValid.1 in
    (
      es_cmn,
      record {
        en_new = u.en_new;
        en_ready = u.en_ready;
        en_ready_susp = u.en_ready_susp;
        en_exec = u.en_exec;
        en_block = u.en_block;
        en_block_susp = u.en_block_susp;
        en_exit = u.en_exit;
        sin_asignar = u.sin_asignar;
        colas = refl;
        en_rango = λ p l. omega arith;
      },
    )

mutex_Coherente : Coherentes ks_con_mutex
mutex_Coherente = ((λ e. absurd (cc)), tt)

mutex_M : buscar_mutex "M" ks_con_mutex.diccionario_mutex ≡ some mutex_tomado
unfolding buscar_mutex
mutex_M = refl

recalcular_prioridad_example :
    EsMinimo ks_con_mutex 1 ("M" ∷ []) ((recalcular_prioridad 2 ks_con_mutex).pcb 2).prioridad
recalcular_prioridad_example = recalcular_prioridad-EsMinimo ks_con_mutex 2

tomar_mutex_example :
    (ks' : Ks) × (tomar_mutex 2 "M" 9 ks_con_mutex ≡ some ks')
    × IsValid cmn ks'
    × Coherentes ks'
    × Efecto 2 "M" 9 ks_con_mutex ks' (buscar_mutex "M" ks_con_mutex.diccionario_mutex)
tomar_mutex_example =
    tomar_mutex-Exito cmn 2 "M" 9 ks_con_mutex ks_con_mutex-IsValid mutex_Coherente refl

liberar_mutex_example :
    (ks' : Ks) × (liberar_mutex 2 "M" 9 ks_con_mutex ≡ some ks')
    × Coherentes ks'
    × (buscar_mutex "M" ks'.diccionario_mutex
        ≡ some (record mutex_tomado { pid_asignado = some 3; cola_bloqueados = 4 ∷ [] }))
liberar_mutex_example =
    liberar_mutex-Exito cmn 2 "M" 9 ks_con_mutex mutex_tomado 3 (4 ∷ []) ks_con_mutex-IsValid
      mutex_Coherente mutex_M refl refl

-- The scheduler before its first process, and after it has created one.
abbrev ks_apagado : Ks
ks_apagado = record ks { pid_para_asignar = 0; pcb = λ p. pcb_en nulo }

-- A CPU connects, a process is created, admitted, dispatched to the CPU, blocked and suspended.
abbrev ks_con_cpu : Ks
ks_con_cpu = record ks {
  pid_para_asignar = 0;
  pcb = λ p. pcb_en nulo;
  cola_new = [];
  colas_ready = [] ∷ [] ∷ [];
  cola_ready_susp = [];
  cola_exec = [];
  cola_block = [];
  cola_block_susp = [];
  cola_cpus = cpu_libre ∷ [];
  sem_hay_cpu_disponible = 2;
}

conecta_la_cpu : conectar_cpu 1 9 (inicializar_colas ks_apagado) ≡ ks_con_cpu
unfolding conectar_cpu inicializar_colas
conecta_la_cpu = refl

abbrev ks_con_un_proceso : Ks
ks_con_un_proceso = record ks_con_cpu {
  pid_para_asignar = 1;
  pcb = con_pcb 0 (λ p. pcb_nuevo "inicial" 0 true) (λ p. pcb_en nulo);
  cola_new = 0 ∷ [];
  enviados = creacion_de_proceso 0 "inicial" ∷ [];
}

por_rr_inicial : ejecuta_por_rr_de 0 ks_con_cpu ≡ some true
unfolding ejecuta_por_rr_de
por_rr_inicial = refl

crea_el_primero : crear_proceso "inicial" 0 ks_con_cpu ≡ some ks_con_un_proceso
unfolding crear_proceso
crea_el_primero = refl

-- The result of an operation that gives one.
abbrev o_si_no : Ks → Option Ks → Ks
o_si_no otro none = otro
o_si_no otro (some k) = k

abbrev ks_admitido : Ks
ks_admitido = o_si_no ks_con_un_proceso (pasar_proceso_new_a_ready ks_con_un_proceso)

abbrev ks_despachado : Ks
ks_despachado = o_si_no ks_admitido (pasar_proceso_ready_a_exec ks_admitido)

abbrev ks_bloqueado : Ks
ks_bloqueado = o_si_no ks_despachado (pasar_proceso_exec_a_block 0 ks_despachado)

abbrev ks_suspendido : Ks
ks_suspendido = (pasar_proceso_block_a_block_susp 0 ks_bloqueado).1

lo_admite : pasar_proceso_new_a_ready ks_con_un_proceso ≡ some ks_admitido
unfolding pasar_proceso_new_a_ready
lo_admite = refl

elige_el_primero : (elegir ks_admitido).0 ≡ some 0
unfolding pasar_proceso_new_a_ready elegir
elige_el_primero = refl

elige_la_cpu : (elegir_cpu ks_admitido.cola_cpus).0 ≡ some cpu_libre
unfolding pasar_proceso_new_a_ready elegir_cpu
elige_la_cpu = refl

lo_despacha : pasar_proceso_ready_a_exec ks_admitido ≡ some ks_despachado
unfolding pasar_proceso_new_a_ready pasar_proceso_ready_a_exec buscar_pcb_por_pid
lo_despacha = refl

ejecutando : (ks_despachado.pcb 0).estado ≡ exec
unfolding pasar_proceso_new_a_ready pasar_proceso_ready_a_exec buscar_pcb_por_pid
ejecutando = refl

lo_bloquea : pasar_proceso_exec_a_block 0 ks_despachado ≡ some ks_bloqueado
unfolding pasar_proceso_new_a_ready pasar_proceso_ready_a_exec pasar_proceso_exec_a_block
    buscar_pcb_por_pid
lo_bloquea = refl

esta_bloqueado : (ks_bloqueado.pcb 0).estado ≡ block
unfolding pasar_proceso_new_a_ready pasar_proceso_ready_a_exec pasar_proceso_exec_a_block
    buscar_pcb_por_pid
esta_bloqueado = refl

alcanzado : Alcanzable cmn ks_suspendido
alcanzado =
    let conectado : Alcanzable cmn ks_con_cpu =
      subst (Alcanzable cmn) conecta_la_cpu
        (sigue (inicio ks_apagado es_cmn refl (λ p. refl)) (conecta 1 9)) in
    let creado : Alcanzable cmn ks_con_un_proceso =
      sigue conectado (crea "inicial" 0 true por_rr_inicial (omega arith) crea_el_primero) in
    let admitido : Alcanzable cmn ks_admitido = sigue creado (admite 0 [] refl lo_admite) in
    let despachado : Alcanzable cmn ks_despachado =
      sigue admitido (despacha 0 cpu_libre elige_el_primero elige_la_cpu lo_despacha) in
    let bloqueado : Alcanzable cmn ks_bloqueado =
      sigue despachado (bloquea 0 ejecutando lo_bloquea) in
    sigue bloqueado (suspende 0 esta_bloqueado refl)

alcanzable_example : IsValid cmn ks_suspendido
alcanzable_example = Alcanzable-IsValid cmn ks_suspendido alcanzado
