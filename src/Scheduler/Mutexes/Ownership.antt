-- ===== src/Scheduler/Mutexes/Ownership.antt =====
-- Who owns a mutex: a free one has neither owner nor waiting processes, a taken one has an owner, and
-- a released one goes to the process that has waited longest.
use Prim.Native.String.{String}
use text.Mathlib.Text.{◌==◌ as str_eq}
use tp_2026_1c_malloc_and_cr.Base.{
  ℕ, ◌≡◌, ◌≢◌, refl, inl, inr, subst, ap, sym, Bool-cases, Option-cases, Bool, true, false, Option,
  none, some, List, [], ◌∷◌, ◌++◌, arith, ◌==◌, All, All-append,
}
use tp_2026_1c_malloc_and_cr.Scheduler.Types.{ready, Mutex, Ks, codigo, block_susp}
use tp_2026_1c_malloc_and_cr.Scheduler.Queues.{sacar}
use tp_2026_1c_malloc_and_cr.Scheduler.Ready.{con_pcb, empujar_ready, encolar_ready, liberar_cpu}
use tp_2026_1c_malloc_and_cr.Scheduler.Transitions.{
  avisar_ready, pasar_proceso_exec_a_block, pasar_proceso_block_susp_a_ready_susp,
  pasar_proceso_blocka_ready,
}
use tp_2026_1c_malloc_and_cr.Scheduler.Mutexes.{
  buscar_mutex, con_mutex, crear_mutex, buscar_pcb_en_cualquier_estado, heredar, heredar_de,
  soltar_cpu, tomar_mutex, recalcular_prioridad, buscar_bloqueado, despertar, terminar_liberacion,
  entregar_mutex, es_duenio, sin_tomado, liberar_mutex,
}

abbrev pub CoherenteSi : Bool → Mutex → Type 0
CoherenteSi false m = (m.pid_asignado ≡ none) × (m.cola_bloqueados ≡ [])
CoherenteSi true m = m.pid_asignado ≢ none

abbrev pub Coherente : Mutex → Type 0
Coherente m = CoherenteSi m.bloqueado m

-- A property of the result, if there is one.
abbrev pub SiDa : (Ks → Type 0) → Option Ks → Type 0
SiDa P none = Unit
SiDa P (some ks) = P ks

abbrev pub Coherentes : Ks → Type 0
Coherentes ks = All Coherente ks.diccionario_mutex

All-con_mutex :
    (P : Mutex → Type 0) (n : String) (f : Mutex → Mutex) (m : Mutex) (ms : List Mutex)
    → buscar_mutex n ms ≡ some m
    → All P ms
    → P (f m)
    → All P (con_mutex n f ms)
unfolding buscar_mutex con_mutex
All-con_mutex P n f m [] e h p = tt
All-con_mutex P n f m (x ∷ ms) e h p = elim (Bool-cases (str_eq x.nombre_mutex n)) [
  | inl same ↦
      let este : x ≡ m = cc in rw (same, con_mutex) (subst (λ y. P (f y)) (sym este) p, h.1)
  | inr other ↦
      let rest : buscar_mutex n ms ≡ some m = cc in
      rw (other, con_mutex) (h.0, All-con_mutex P n f m ms rest h.1 p)
]

All-buscar_mutex :
    (P : Mutex → Type 0) (n : String) (m : Mutex) (ms : List Mutex)
    → buscar_mutex n ms ≡ some m
    → All P ms
    → P m
unfolding buscar_mutex
All-buscar_mutex P n m [] e h = absurd (cc)
All-buscar_mutex P n m (x ∷ ms) e h = elim (Bool-cases (str_eq x.nombre_mutex n)) [
  | inl same ↦ let este : x ≡ m = cc in subst P este h.0
  | inr other ↦ let rest : buscar_mutex n ms ≡ some m = cc in All-buscar_mutex P n m ms rest h.1
]

-- What the transitions and the release do not change: the dictionary.
module _ (D : List Mutex → Type 0) where
  abbrev Con : Ks → Type 0
  Con ks = D ks.diccionario_mutex

  empujar_ready-SiDa :
      (i pid : ℕ) (ks : Ks) → Con ks → SiDa Con (avisar_ready (empujar_ready i pid ks))
  unfolding empujar_ready
  empujar_ready-SiDa i pid ks h = ground arith

  encolar_ready-SiDa : (pid : ℕ) (ks : Ks) → Con ks → SiDa Con (avisar_ready (encolar_ready pid ks))
  unfolding encolar_ready empujar_ready
  encolar_ready-SiDa pid ks h = ground arith

  pasar_proceso_blocka_ready-SiDa :
      (pid : ℕ) (ks : Ks) → Con ks → SiDa Con (pasar_proceso_blocka_ready pid ks)
  unfolding pasar_proceso_blocka_ready
  pasar_proceso_blocka_ready-SiDa pid ks h = elim (Option-cases (sacar pid ks.cola_block).0) [
    | inl nada ↦ rw (nada, pasar_proceso_blocka_ready) tt
    | inr (p, esta) ↦
        rw (esta, pasar_proceso_blocka_ready)
          (encolar_ready-SiDa p
            (record ks {
              cola_block = (sacar pid ks.cola_block).1;
              pcb = con_pcb p (λ q. record q { estado = ready }) ks.pcb;
            })
            h)
  ]

  pasar_proceso_block_susp_a_ready_susp-SiDa :
      (pid : ℕ) (ks : Ks) → Con ks → SiDa Con (pasar_proceso_block_susp_a_ready_susp pid ks)
  unfolding pasar_proceso_block_susp_a_ready_susp
  pasar_proceso_block_susp_a_ready_susp-SiDa pid ks h =
      elim (Option-cases (sacar pid ks.cola_block_susp).0) [
        | inl nada ↦ rw (nada, pasar_proceso_block_susp_a_ready_susp) tt
        | inr (p, esta) ↦ rw (esta, pasar_proceso_block_susp_a_ready_susp) h
      ]

  pub pasar_proceso_exec_a_block-SiDa :
      (pid socket : ℕ) (ks : Ks)
      → Con ks
      → SiDa Con (soltar_cpu socket (pasar_proceso_exec_a_block pid ks))
  unfolding pasar_proceso_exec_a_block liberar_cpu
  pasar_proceso_exec_a_block-SiDa pid socket ks h = elim (Option-cases (sacar pid ks.cola_exec).0) [
    | inl nada ↦ rw (nada, pasar_proceso_exec_a_block) tt
    | inr (p, esta) ↦ rw (esta, pasar_proceso_exec_a_block) h
  ]

  despertar-SiDa : (pid : ℕ) (ks : Ks) → Con ks → SiDa Con (despertar pid ks)
  unfolding despertar
  despertar-SiDa pid ks h = elim (Bool-cases (codigo (ks.pcb pid).estado == codigo block_susp)) [
    | inl susp ↦ rw susp (pasar_proceso_block_susp_a_ready_susp-SiDa pid ks h)
    | inr otro ↦ rw otro (pasar_proceso_blocka_ready-SiDa pid ks h)
  ]

  terminar-SiDa :
      (pid socket : ℕ) (duenio : Option ℕ) (r : Option Ks)
      → SiDa Con r
      → SiDa Con (terminar_liberacion pid socket duenio r)
  unfolding recalcular_prioridad
  terminar-SiDa pid socket duenio none h = tt
  terminar-SiDa pid socket none (some ks) h = h
  terminar-SiDa pid socket (some d) (some ks) h = h

  entregar-SiDa :
      (nombre : String) (q : ℕ) (cola : List ℕ) (ks : Ks)
      → D (
          con_mutex nombre
            (λ x. record x { pid_asignado = some q; cola_bloqueados = cola })
            ks.diccionario_mutex)
      → SiDa Con (entregar_mutex nombre (q ∷ cola) ks)
  unfolding entregar_mutex
  entregar-SiDa nombre q cola ks h =
      let ks' : Ks = record ks {
        diccionario_mutex =
            con_mutex nombre (λ x. record x { pid_asignado = some q; cola_bloqueados = cola })
              ks.diccionario_mutex;
      } in
      elim (Option-cases (buscar_bloqueado q ks')) [
        | inl nadie ↦ rw (nadie, entregar_mutex) h
        | inr (p, esta) ↦
            rw (esta, entregar_mutex)
              (despertar-SiDa p
                (record ks' {
                  pcb =
                      con_pcb p (λ r. record r { mutex_tomados = r.mutex_tomados ++ (nombre ∷ []) })
                        ks'.pcb;
                })
                h)
      ]

pub heredar_de-diccionario :
    (pid : ℕ) (duenio : Option ℕ) (ks : Ks)
    → (heredar_de pid duenio ks).diccionario_mutex ≡ ks.diccionario_mutex
unfolding heredar
heredar_de-diccionario pid none ks = refl
heredar_de-diccionario pid (some d) ks = ground arith

-- A new mutex is free: every mutex is still coherent.
pub crear_mutex-Coherentes :
    (nombre : String) (ks : Ks) → Coherentes ks → Coherentes (crear_mutex nombre ks)
unfolding crear_mutex
crear_mutex-Coherentes nombre ks h =
    elim (Option-cases (buscar_mutex nombre ks.diccionario_mutex)) [
      | inl nuevo ↦
          rw (nuevo, crear_mutex) (All-append Coherente ks.diccionario_mutex _ h ((refl, refl), tt))
      | inr (m, esta) ↦ rw (esta, crear_mutex) h
    ]

-- Taking a mutex keeps every mutex coherent, whether it was free, taken or unknown.
pub tomar_mutex-Coherentes :
    (pid : ℕ) (nombre : String) (socket : ℕ) (ks : Ks)
    → Coherentes ks
    → SiDa Coherentes (tomar_mutex pid nombre socket ks)
unfolding tomar_mutex
tomar_mutex-Coherentes pid nombre socket ks h =
    elim (Option-cases (buscar_mutex nombre ks.diccionario_mutex)) [
      | inl nada ↦ rw (nada, tomar_mutex) h
      | inr (m, esta) ↦ elim (Bool-cases m.bloqueado) [
        | inr libre ↦
            rw (esta, tomar_mutex, libre)
              (All-con_mutex Coherente nombre
                (λ x. record x { bloqueado = true; pid_asignado = some pid }) m ks.diccionario_mutex
                esta h (λ e. absurd (cc)))
        | inl tomado ↦
            let espera : Mutex → Mutex =
              λ x. record x { cola_bloqueados = x.cola_bloqueados ++ (pid ∷ []) } in
            let dueno : CoherenteSi true m =
              subst (λ b. CoherenteSi b m) tomado
                (All-buscar_mutex Coherente nombre m ks.diccionario_mutex esta h) in
            let ks' : Ks = record ks {
              diccionario_mutex = con_mutex nombre espera ks.diccionario_mutex;
            } in
            let ok : Coherentes ks' =
              All-con_mutex Coherente nombre espera m ks.diccionario_mutex esta h
                (subst (λ b. CoherenteSi b (espera m)) (sym tomado) dueno) in
            rw (esta, tomar_mutex, tomado)
              (pasar_proceso_exec_a_block-SiDa (All Coherente) pid socket
                (heredar_de pid m.pid_asignado ks')
                (subst (All Coherente) (sym (heredar_de-diccionario pid m.pid_asignado ks')) ok))
      ]
    ]

entregar-Coherentes :
    (nombre : String) (m : Mutex) (ks : Ks) (cola : List ℕ)
    → buscar_mutex nombre ks.diccionario_mutex ≡ some m
    → m.bloqueado ≡ true
    → m.cola_bloqueados ≡ cola
    → Coherentes ks
    → SiDa Coherentes (entregar_mutex nombre cola ks)
unfolding entregar_mutex
entregar-Coherentes nombre m ks [] esta tomado vacia h =
    All-con_mutex Coherente nombre (λ x. record x { bloqueado = false; pid_asignado = none }) m
      ks.diccionario_mutex esta h (refl, vacia)
entregar-Coherentes nombre m ks (q ∷ cola) esta tomado espera h =
    let f : Mutex → Mutex = λ x. record x { pid_asignado = some q; cola_bloqueados = cola } in
    let ok : CoherenteSi true (f m) = λ e. absurd (cc) in
    entregar-SiDa (All Coherente) nombre q cola ks (
      All-con_mutex Coherente nombre f m ks.diccionario_mutex esta h
        (subst (λ b. CoherenteSi b (f m)) (sym tomado) ok))

es_duenio-bloqueado : (pid : ℕ) (m : Mutex) → es_duenio pid m ≡ true → m.bloqueado ≡ true
es_duenio-bloqueado pid m e = ground arith

-- Releasing a mutex keeps every mutex coherent, whoever releases it and whether it exists or not.
pub liberar_mutex-Coherentes :
    (pid : ℕ) (nombre : String) (socket : ℕ) (ks : Ks)
    → Coherentes ks
    → SiDa Coherentes (liberar_mutex pid nombre socket ks)
unfolding liberar_mutex
liberar_mutex-Coherentes pid nombre socket ks h =
    elim (Option-cases (buscar_mutex nombre ks.diccionario_mutex)) [
      | inl nada ↦ rw (nada, liberar_mutex) h
      | inr (m, esta) ↦ elim (Bool-cases (es_duenio pid m)) [
        | inr ajeno ↦ rw (esta, liberar_mutex, ajeno) h
        | inl propio ↦
            let duenio = buscar_pcb_en_cualquier_estado pid ks in
            rw (esta, liberar_mutex, propio)
              (terminar-SiDa (All Coherente) pid socket duenio _ (
                entregar-Coherentes nombre m (record ks { pcb = sin_tomado nombre duenio ks.pcb })
                  m.cola_bloqueados esta (es_duenio-bloqueado pid m propio) refl h))
      ]
    ]

pub buscar-con_mutex :
    (n : String) (f : Mutex → Mutex) (m : Mutex) (ms : List Mutex)
    → ((x : Mutex) → str_eq (f x).nombre_mutex n ≡ str_eq x.nombre_mutex n)
    → buscar_mutex n ms ≡ some m
    → buscar_mutex n (con_mutex n f ms) ≡ some (f m)
unfolding buscar_mutex con_mutex
buscar-con_mutex n f m [] k e = absurd (cc)
buscar-con_mutex n f m (x ∷ ms) k e = elim (Bool-cases (str_eq x.nombre_mutex n)) [
  | inl same ↦ let este : x ≡ m = cc in rw (same, con_mutex, k x, same) (ap (λ y. some (f y)) este)
  | inr other ↦
      let rest : buscar_mutex n ms ≡ some m = cc in
      rw (other, con_mutex, other) (buscar-con_mutex n f m ms k rest)
]

-- A mutex that its owner releases goes to the process that has waited longest, which becomes its
-- owner and leaves its queue; the others wait on in their order.
pub liberar_mutex-entrega :
    (pid : ℕ) (nombre : String) (socket : ℕ) (ks : Ks) (m : Mutex) (q : ℕ) (cola : List ℕ)
    → buscar_mutex nombre ks.diccionario_mutex ≡ some m
    → es_duenio pid m ≡ true
    → m.cola_bloqueados ≡ q ∷ cola
    → SiDa
        (λ ks'.
          buscar_mutex nombre ks'.diccionario_mutex
          ≡ some (record m { pid_asignado = some q; cola_bloqueados = cola }))
        (liberar_mutex pid nombre socket ks)
unfolding liberar_mutex
liberar_mutex-entrega pid nombre socket ks m q cola esta propio espera =
    let D : List Mutex → Type 0 = λ d.
      buscar_mutex nombre d ≡ some (record m { pid_asignado = some q; cola_bloqueados = cola }) in
    let duenio = buscar_pcb_en_cualquier_estado pid ks in
    rw (esta, liberar_mutex, propio, espera)
      (terminar-SiDa D pid socket duenio _ (
        entregar-SiDa D nombre q cola (record ks { pcb = sin_tomado nombre duenio ks.pcb })
          (buscar-con_mutex nombre (λ x. record x { pid_asignado = some q; cola_bloqueados = cola })
            m ks.diccionario_mutex (λ x. refl) esta)))
