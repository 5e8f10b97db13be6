-- ===== src/Scheduler/Mutexes/Progress.antt =====
-- Taking a mutex does not fail, keeps the scheduler's queues consistent, and has its effect.
use Prim.Native.String.{String}
use tp_2026_1c_malloc_and_cr.Base.{
  ℕ, ◌<◌, ◌≡◌, ◌≢◌, Bool, false, refl, sym, ap, ◌∙◌, subst, inl, inr, Bool-cases, Option-cases,
  true, Option, none, some, List, [], ◌∷◌, ◌++◌, arith, ltb, ◌==◌, length,
}
use tp_2026_1c_malloc_and_cr.Scheduler.Types.{
  Planificador, Mutex, new, ready, ready_susp, exec, block, block_susp, Pcb, Ks, proceso_a_procesar,
}
use tp_2026_1c_malloc_and_cr.Scheduler.Queues.{veces, hallado, buscar_pcb_por_pid}
use tp_2026_1c_malloc_and_cr.Scheduler.Queues.Order.{buscar_pcb_por_pid_lem}
use tp_2026_1c_malloc_and_cr.Scheduler.Ready.{con_pcb, liberar_cpu}
use tp_2026_1c_malloc_and_cr.Scheduler.Transitions.{enviar}
use tp_2026_1c_malloc_and_cr.Scheduler.Transitions.Invariant.{marca, cola_de, IsValid, asignado}
use tp_2026_1c_malloc_and_cr.Scheduler.Transitions.ToBlock.{pasar_proceso_exec_a_block-PasaA}
use tp_2026_1c_malloc_and_cr.Scheduler.Mutexes.{
  buscar_mutex, con_mutex, buscar_pcb_en_cualquier_estado, heredar, heredar_de, soltar_cpu,
  tomar_mutex,
}
use tp_2026_1c_malloc_and_cr.Scheduler.Mutexes.Ownership.{
  Coherentes, SiDa, tomar_mutex-Coherentes, heredar_de-diccionario, buscar-con_mutex,
  pasar_proceso_exec_a_block-SiDa,
}

pub mismo_estado :
    (d : ℕ) (f : Pcb → Pcb) (ks : Ks)
    → ((p : Pcb) → (f p).estado ≡ p.estado)
    → (p : ℕ) → (con_pcb d f ks.pcb p).estado ≡ (ks.pcb p).estado
mismo_estado d f ks igual p = elim (Bool-cases (p == d)) [
  | inl same ↦ rw same (igual (ks.pcb p))
  | inr other ↦ rw other
]

-- A write to a PCB that keeps its state, and gives it a priority that has a ready queue.
pub con_pcb-IsValid :
    (a : Planificador) (d : ℕ) (f : Pcb → Pcb) (ks : Ks)
    → IsValid a ks
    → ((p : Pcb) → (f p).estado ≡ p.estado)
    → (d < ks.pid_para_asignar → cola_de a (f (ks.pcb d)).prioridad < length ks.colas_ready)
    → IsValid a (record ks { pcb = con_pcb d f ks.pcb })
con_pcb-IsValid a d f ks v igual rango =
    let u = v.1 in
    let mismo : (p : ℕ) → (con_pcb d f ks.pcb p).estado ≡ (ks.pcb p).estado =
      λ p. mismo_estado d f ks igual p in
    (
      v.0,
      record {
        en_new = λ p. u.en_new p ∙ ap (marca new) (sym (mismo p));
        en_ready = λ p. u.en_ready p ∙ ap (marca ready) (sym (mismo p));
        en_ready_susp = λ p. u.en_ready_susp p ∙ ap (marca ready_susp) (sym (mismo p));
        en_exec = λ p. u.en_exec p ∙ ap (marca exec) (sym (mismo p));
        en_block = λ p. u.en_block p ∙ ap (marca block) (sym (mismo p));
        en_block_susp = λ p. u.en_block_susp p ∙ ap (marca block_susp) (sym (mismo p));
        en_exit = u.en_exit;
        sin_asignar = λ p l. mismo p ∙ u.sin_asignar p l;
        colas = u.colas;
        en_rango = λ p l. elim (Bool-cases (p == d)) [
          | inl same ↦
              let q : p ≡ d = ground arith in
              let r : d < ks.pid_para_asignar = omega (arith, q) in
              rw same (
                subst (λ k. cola_de a (f (ks.pcb k)).prioridad < length ks.colas_ready) (sym q)
                  (rango r))
          | inr other ↦ rw other (u.en_rango p l)
        ];
      },
    )

hallado-mismo :
    (pid s : ℕ) (cola : List ℕ) → hallado pid cola ≡ some s → (s ≡ pid) × (0 < veces pid cola)
hallado-mismo pid s [] e = absurd (cc)
hallado-mismo pid s (x ∷ cola) e = elim (Bool-cases (x == pid)) [
  | inl same ↦
      let x_s : x ≡ s = cc in let x_pid : x ≡ pid = ground arith in (sym x_s ∙ x_pid, ground arith)
  | inr other ↦
      let rest : hallado pid cola ≡ some s = cc in
      let (mismo, esta) = hallado-mismo pid s cola rest in (mismo, omega (arith, esta))
]

-- A PCB that a search finds has the pid, which stands in the queue.
pub encontrado :
    (pid s : ℕ) (cola : List ℕ)
    → (buscar_pcb_por_pid pid cola).0 ≡ some s
    → (s ≡ pid) × (0 < veces pid cola)
encontrado pid s cola e =
    hallado-mismo pid s cola (sym (ap (λ r. r.0) (buscar_pcb_por_pid_lem pid cola)) ∙ e)

heredar-IsValid :
    (a : Planificador) (solicitante duenio : ℕ) (ks : Ks)
    → IsValid a ks
    → IsValid a (heredar solicitante duenio ks)
      × ((p : ℕ) → ((heredar solicitante duenio ks).pcb p).estado ≡ (ks.pcb p).estado)
unfolding heredar
heredar-IsValid a solicitante duenio ks v =
    elim (Option-cases (buscar_pcb_por_pid solicitante ks.cola_exec).0) [
      | inl nadie ↦ rw (nadie, heredar) (v, λ p. refl)
      | inr (s, esta) ↦ elim (Option-cases (buscar_pcb_en_cualquier_estado duenio ks)) [
        | inl nadie ↦ rw (esta, heredar, nadie) (v, λ p. refl)
        | inr (d, hay) ↦ elim (Bool-cases (ltb (ks.pcb s).prioridad (ks.pcb d).prioridad)) [
          | inr igual ↦ rw (esta, heredar, hay, igual) (v, λ p. refl)
          | inl menor ↦
              let (mismo, esta_en) = encontrado solicitante s ks.cola_exec esta in
              let en : 0 < marca exec (ks.pcb solicitante).estado =
                omega (arith, v.1.en_exec solicitante, esta_en) in
              let asig : solicitante < ks.pid_para_asignar =
                asignado ks.pid_para_asignar solicitante ks.pcb v.1.sin_asignar (ground arith) in
              let dado : s < ks.pid_para_asignar = omega (arith, asig, mismo) in
              let f : Pcb → Pcb = λ p. record p { prioridad = (ks.pcb s).prioridad } in
              rw (esta, heredar, hay, menor)
                (
                  con_pcb-IsValid a d f ks v (λ p. refl) (λ l. v.1.en_rango s dado),
                  λ p. mismo_estado d f ks (λ q. refl) p,
                )
        ]
      ]
    ]

heredar_de-IsValid :
    (a : Planificador) (solicitante : ℕ) (duenio : Option ℕ) (ks : Ks)
    → IsValid a ks
    → IsValid a (heredar_de solicitante duenio ks)
      × ((p : ℕ) → ((heredar_de solicitante duenio ks).pcb p).estado ≡ (ks.pcb p).estado)
heredar_de-IsValid a solicitante none ks v = (v, λ p. refl)
heredar_de-IsValid a solicitante (some d) ks v = heredar-IsValid a solicitante d ks v

-- What a request for a mutex does, by what the dictionary has under its name: nothing where there is
-- none; a free one is the process's, which goes on; at a taken one the process waits, last in its queue.
abbrev pub EfectoEn : ℕ → String → ℕ → Ks → Ks → Mutex → Bool → Type 0
EfectoEn pid nombre socket ks ks' m false =
    (buscar_mutex nombre ks'.diccionario_mutex
      ≡ some (record m { bloqueado = true; pid_asignado = some pid }))
    × (ks'.enviados ≡ ks.enviados ++ (proceso_a_procesar socket pid ∷ []))
    × (ks'.pcb ≡ ks.pcb)
EfectoEn pid nombre socket ks ks' m true =
    (buscar_mutex nombre ks'.diccionario_mutex
      ≡ some (record m { cola_bloqueados = m.cola_bloqueados ++ (pid ∷ []) }))
    × ((ks'.pcb pid).estado ≡ block)
    × ((p : ℕ) → p ≢ pid → (ks'.pcb p).estado ≡ (ks.pcb p).estado)

abbrev pub Efecto : ℕ → String → ℕ → Ks → Ks → Option Mutex → Type 0
Efecto pid nombre socket ks ks' none = ks' ≡ ks
Efecto pid nombre socket ks ks' (some m) = EfectoEn pid nombre socket ks ks' m m.bloqueado

-- The operation has a result, with consistent queues.
abbrev pub Valida : Planificador → Option Ks → Type 0
Valida a r = (ks' : Ks) × (r ≡ some ks') × IsValid a ks'

abbrev Tomada : Planificador → ℕ → String → ℕ → Ks → Type 0
Tomada a pid nombre socket ks =
    (ks' : Ks) × (tomar_mutex pid nombre socket ks ≡ some ks')
    × IsValid a ks'
    × Efecto pid nombre socket ks ks' (buscar_mutex nombre ks.diccionario_mutex)

Efecto-segun :
    (pid : ℕ) (nombre : String) (socket : ℕ) (ks ks' : Ks) (m : Mutex) (b : Bool)
    → buscar_mutex nombre ks.diccionario_mutex ≡ some m
    → m.bloqueado ≡ b
    → EfectoEn pid nombre socket ks ks' m b
    → Efecto pid nombre socket ks ks' (buscar_mutex nombre ks.diccionario_mutex)
Efecto-segun pid nombre socket ks ks' m b esta e h =
    subst (Efecto pid nombre socket ks ks') (sym esta)
      (subst (EfectoEn pid nombre socket ks ks' m) (sym e) h)

tomar_mutex-Tomada :
    (a : Planificador) (pid : ℕ) (nombre : String) (socket : ℕ) (ks : Ks)
    → IsValid a ks
    → (ks.pcb pid).estado ≡ exec
    → Tomada a pid nombre socket ks
unfolding tomar_mutex liberar_cpu
tomar_mutex-Tomada a pid nombre socket ks v en =
    elim (Option-cases (buscar_mutex nombre ks.diccionario_mutex)) [
      | inl nada ↦ (ks, rw (nada, tomar_mutex), v, rw nada)
      | inr (m, esta) ↦ elim (Bool-cases m.bloqueado) [
        | inr libre ↦
            let toma : Mutex → Mutex =
              λ x. record x { bloqueado = true; pid_asignado = some pid } in
            (
              enviar (proceso_a_procesar socket pid)
                  (record ks { diccionario_mutex = con_mutex nombre toma ks.diccionario_mutex }),
              rw (esta, tomar_mutex, libre),
              v,
              Efecto-segun pid nombre socket ks _ m false esta libre (
                buscar-con_mutex nombre toma m ks.diccionario_mutex (λ x. refl) esta,
                refl,
                refl,
              ),
            )
        | inl tomado ↦
            let espera : Mutex → Mutex =
              λ x. record x { cola_bloqueados = x.cola_bloqueados ++ (pid ∷ []) } in
            let ks1 : Ks = record ks {
              diccionario_mutex = con_mutex nombre espera ks.diccionario_mutex;
            } in
            let ks2 = heredar_de pid m.pid_asignado ks1 in
            let (v2, iguales) = heredar_de-IsValid a pid m.pid_asignado ks1 v in
            let (ks3, eq, v3, hecho, otros) =
              pasar_proceso_exec_a_block-PasaA a pid ks2 v2 (iguales pid ∙ en) in
            let D : List Mutex → Type 0 = λ ds. buscar_mutex nombre ds ≡ some (espera m) in
            let antes : D ks2.diccionario_mutex =
              subst D (sym (heredar_de-diccionario pid m.pid_asignado ks1))
                (buscar-con_mutex nombre espera m ks.diccionario_mutex (λ x. refl) esta) in
            let dicc = pasar_proceso_exec_a_block-SiDa D pid socket ks2 antes in
            let despues : SiDa (λ k. D k.diccionario_mutex) (soltar_cpu socket (some ks3)) =
              subst (λ r. SiDa (λ k. D k.diccionario_mutex) (soltar_cpu socket r)) eq dicc in
            (
              liberar_cpu socket ks3,
              rw (esta, tomar_mutex, tomado, eq),
              v3,
              Efecto-segun pid nombre socket ks (liberar_cpu socket ks3) m true esta tomado
                  (despues, hecho, λ p otro. ap (λ q. q.estado) (otros p otro) ∙ iguales p),
            )
      ]
    ]

-- A process in EXEC asks for a mutex. A free mutex becomes its own and its CPU is told to go on with
-- it, at a taken one it goes to BLOCK as the last of the queue of the mutex and no other process
-- changes its state, and at an unknown one nothing changes at all, so the CPU gets no answer. In
-- each case the call does not fail, the queues stay consistent, and every mutex still has an owner
-- exactly when it is taken, and waiting processes only then.
pub tomar_mutex-Exito :
    (a : Planificador) (pid : ℕ) (nombre : String) (socket : ℕ) (ks : Ks)
    → IsValid a ks
    → Coherentes ks
    → (ks.pcb pid).estado ≡ exec
    → (ks' : Ks) × (tomar_mutex pid nombre socket ks ≡ some ks')
      × IsValid a ks'
      × Coherentes ks'
      × Efecto pid nombre socket ks ks' (buscar_mutex nombre ks.diccionario_mutex)
tomar_mutex-Exito a pid nombre socket ks v c en =
    let (ks', eq, v', efecto) = tomar_mutex-Tomada a pid nombre socket ks v en in
    let c' = tomar_mutex-Coherentes pid nombre socket ks c in
    (ks', eq, v', subst (SiDa Coherentes) eq c', efecto)
