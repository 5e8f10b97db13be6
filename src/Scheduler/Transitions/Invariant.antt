-- ===== src/Scheduler/Transitions/Invariant.antt =====
-- The invariant of the scheduler's queues, and the facts that each transition's proof uses.
use tp_2026_1c_malloc_and_cr.Base.{
  ℕ, zero, suc, ◌+◌, ◌≤◌, ◌<◌, ◌≡◌, ◌≢◌, refl, ap, ◌∙◌, ◌*◌, inl, inr, Bool-cases, Option, some,
  List, [], ◌∷◌, ◌++◌, arith, ◌==◌, if◌then◌else◌, ltb, length, get_elem?, set, sum_by-set,
}
use tp_2026_1c_malloc_and_cr.Scheduler.Types.{
  Planificador, fifo, rr, cmn, Estado, nulo, new, ready, ready_susp, exec, block, block_susp,
  codigo, Pcb, Ks,
}
use tp_2026_1c_malloc_and_cr.Scheduler.Queues.{uno, veces, veces_colas, borrar, sacar}
use tp_2026_1c_malloc_and_cr.Scheduler.Queues.Order.{
  sacar_lem, volcar_lem, veces-append, hallado-veces, veces-borrar,
}
use tp_2026_1c_malloc_and_cr.Scheduler.Ready.{
  obtener_planificacion, con_pcb, empujar_ready, encolar_ready, empujar_al_inicio,
  encolar_al_inicio,
}

-- 1 if the states are the same, else 0.
abbrev pub marca : Estado → Estado → ℕ
marca a b = if codigo a == codigo b then 1 else 0

-- The ready queue of a process, and the number of ready queues.
abbrev pub cola_de : Planificador → ℕ → ℕ
cola_de fifo prioridad = 0
cola_de rr prioridad = 0
cola_de cmn prioridad = prioridad

abbrev pub colas_de : Planificador → ℕ → ℕ
colas_de fifo cantidad = 1
colas_de rr cantidad = 1
colas_de cmn cantidad = cantidad

-- A process in a state stands in that state's queue exactly once, and in no other queue; a process
-- that has ended is in none. Pids that were not given out have no process, and every process has a
-- ready queue to go to.
pub record Ubicados (planificador : Planificador) (cantidad proximo : ℕ) (pcb : ℕ → Pcb)
    (cola_new : List ℕ) (colas_ready : List (List ℕ))
    (cola_ready_susp cola_exec cola_block cola_block_susp cola_exit : List ℕ) : Type 0 where
  pub en_new : (p : ℕ) → veces p cola_new ≡ marca new (pcb p).estado
  pub en_ready : (p : ℕ) → veces_colas p colas_ready ≡ marca ready (pcb p).estado
  pub en_ready_susp : (p : ℕ) → veces p cola_ready_susp ≡ marca ready_susp (pcb p).estado
  pub en_exec : (p : ℕ) → veces p cola_exec ≡ marca exec (pcb p).estado
  pub en_block : (p : ℕ) → veces p cola_block ≡ marca block (pcb p).estado
  pub en_block_susp : (p : ℕ) → veces p cola_block_susp ≡ marca block_susp (pcb p).estado
  pub en_exit : (p : ℕ) → veces p cola_exit ≡ 0
  pub sin_asignar : (p : ℕ) → proximo ≤ p → (pcb p).estado ≡ nulo
  pub colas : length colas_ready ≡ colas_de planificador cantidad
  pub en_rango : (p : ℕ) → p < proximo → cola_de planificador (pcb p).prioridad < length colas_ready

-- The configured algorithm is a known one and the queues are as above.
abbrev pub IsValid : Planificador → Ks → Type 0
IsValid a ks =
    (obtener_planificacion ks.planification_algorithm ≡ some a)
    × Ubicados a ks.cantidad_colas_multinivel ks.pid_para_asignar ks.pcb ks.cola_new ks.colas_ready
        ks.cola_ready_susp ks.cola_exec ks.cola_block ks.cola_block_susp ks.cola_exit

-- A PCB whose state is not NULO has been given out.
pub asignado :
    (proximo p : ℕ) (pcb : ℕ → Pcb)
    → ((q : ℕ) → proximo ≤ q → (pcb q).estado ≡ nulo)
    → 0 < codigo (pcb p).estado
    → p < proximo
asignado proximo p pcb s c = elim (Bool-cases (ltb p proximo)) [
  | inl l ↦ ground arith
  | inr g ↦ absurd (omega (arith, c, ap codigo (s p (ground arith))))
]

pub sacar-veces :
    (pid : ℕ) (cola : List ℕ)
    → 0 < veces pid cola
    → (sacar pid cola ≡ (some pid, borrar pid cola))
      × ((p : ℕ) → veces p (borrar pid cola) + uno p pid ≡ veces p cola)
sacar-veces pid cola l =
    let h = hallado-veces pid cola l in (rw (sacar_lem pid cola, h), λ p. veces-borrar p pid cola h)

get_elem?-lt :
    {A : Type 0} (xs : List A) (i : ℕ) → i < length xs → (x : A) × (get_elem? xs i ≡ some x)
get_elem?-lt [] i l = absurd (omega arith)
get_elem?-lt (x ∷ xs) zero l = (x, refl)
get_elem?-lt (x ∷ xs) (suc i) l = get_elem?-lt xs i (omega arith)

length-set : {A : Type 0} (xs : List A) (i : ℕ) (x : A) → length (set xs i x) ≡ length xs
length-set [] i x = refl
length-set (y ∷ xs) zero x = refl
length-set (y ∷ xs) (suc i) x = ap suc (length-set xs i x)

-- A process changes from the state `x`, whose queue has it once less than before, to `y`.
module _ (pid : ℕ) (x y : Estado) (pcb : ℕ → Pcb) (f : Pcb → Pcb) (desde : (pcb pid).estado ≡ x)
    (hasta : (p : Pcb) → (f p).estado ≡ y) where
  pub marca-con_pcb :
      (e : Estado) (p : ℕ)
      → marca e (con_pcb pid f pcb p).estado + marca e x * uno p pid
        ≡ marca e (pcb p).estado + marca e y * uno p pid
  marca-con_pcb e p = elim (Bool-cases (p == pid)) [
    | inl same ↦
        let q : p ≡ pid = ground arith in
        let d : marca e (pcb p).estado ≡ marca e x =
          ap (λ k. marca e (pcb k).estado) q ∙ ap (marca e) desde in
        let h : marca e (f (pcb p)).estado ≡ marca e y = ap (marca e) (hasta (pcb p)) in
        rw (same, d, h) (omega arith)
    | inr other ↦ rw other (omega arith)
  ]

-- One more occurrence of `pid` in the ready queues, and nothing else.
abbrev pub Encolado : ℕ → List (List ℕ) → List (List ℕ) → Type 0
Encolado pid antes despues =
    (length despues ≡ length antes)
    × ((p : ℕ) → veces_colas p despues ≡ veces_colas p antes + uno p pid)

empujar_ready-Encolado :
    (i pid : ℕ) (ks : Ks)
    → i < length ks.colas_ready
    → (despues : List (List ℕ)) × (empujar_ready i pid ks
        ≡ some (record ks { colas_ready = despues }))
      × Encolado pid ks.colas_ready despues
unfolding empujar_ready
empujar_ready-Encolado i pid ks l =
    let (q, at) = get_elem?-lt ks.colas_ready i l in
    (
      set ks.colas_ready i (q ++ (pid ∷ [])),
      rw (at, empujar_ready),
      (
        length-set ks.colas_ready i (q ++ (pid ∷ [])),
        λ p. omega (
          arith,
          veces-append p pid q,
          sum_by-set (veces p) ks.colas_ready i q (q ++ (pid ∷ [])) at,
        ),
      ),
    )

empujar_al_inicio-Encolado :
    (i pid : ℕ) (ks : Ks)
    → i < length ks.colas_ready
    → (despues : List (List ℕ)) × (empujar_al_inicio i pid ks
        ≡ some (record ks { colas_ready = despues }))
      × Encolado pid ks.colas_ready despues
unfolding empujar_al_inicio
empujar_al_inicio-Encolado i pid ks l =
    let (q, at) = get_elem?-lt ks.colas_ready i l in
    (
      set ks.colas_ready i (pid ∷ q),
      rw (at, empujar_al_inicio, volcar_lem q [], volcar_lem q (pid ∷ [])),
      (
        length-set ks.colas_ready i (pid ∷ q),
        λ p. omega (arith, sum_by-set (veces p) ks.colas_ready i q (pid ∷ q) at),
      ),
    )

-- The push of the transitions succeeds and adds the process to the ready queues once.
pub encolar_ready-Encolado :
    (a : Planificador) (pid : ℕ) (ks : Ks)
    → obtener_planificacion ks.planification_algorithm ≡ some a
    → cola_de a (ks.pcb pid).prioridad < length ks.colas_ready
    → (despues : List (List ℕ)) × (sem : ℕ) × (encolar_ready pid ks
        ≡ some (record ks { colas_ready = despues; sem_ready_prioridad = sem }))
      × Encolado pid ks.colas_ready despues
unfolding encolar_ready
encolar_ready-Encolado fifo pid ks e l =
    let (despues, eq, enc) = empujar_ready-Encolado 0 pid ks l in
    (despues, ks.sem_ready_prioridad, rw (e, encolar_ready, eq), enc)
encolar_ready-Encolado rr pid ks e l =
    let (despues, eq, enc) = empujar_ready-Encolado 0 pid ks l in
    (despues, ks.sem_ready_prioridad, rw (e, encolar_ready, eq), enc)
encolar_ready-Encolado cmn pid ks e l =
    let (despues, eq, enc) =
      empujar_ready-Encolado (ks.pcb pid).prioridad pid
        (record ks { sem_ready_prioridad = ks.sem_ready_prioridad + 1 }) l in
    (despues, ks.sem_ready_prioridad + 1, rw (e, encolar_ready, eq), enc)

pub encolar_al_inicio-Encolado :
    (a : Planificador) (pid : ℕ) (ks : Ks)
    → obtener_planificacion ks.planification_algorithm ≡ some a
    → cola_de a (ks.pcb pid).prioridad < length ks.colas_ready
    → (despues : List (List ℕ)) × (encolar_al_inicio pid ks
        ≡ some (record ks { colas_ready = despues }))
      × Encolado pid ks.colas_ready despues
unfolding encolar_al_inicio
encolar_al_inicio-Encolado fifo pid ks e l =
    let (despues, eq, enc) = empujar_al_inicio-Encolado 0 pid ks l in
    (despues, rw (e, encolar_al_inicio, eq), enc)
encolar_al_inicio-Encolado rr pid ks e l =
    let (despues, eq, enc) = empujar_al_inicio-Encolado 0 pid ks l in
    (despues, rw (e, encolar_al_inicio, eq), enc)
encolar_al_inicio-Encolado cmn pid ks e l =
    let (despues, eq, enc) = empujar_al_inicio-Encolado (ks.pcb pid).prioridad pid ks l in
    (despues, rw (e, encolar_al_inicio, eq), enc)

-- The result of a transition of `pid` to the state `y`: it does not fail, keeps the invariant and
-- leaves every other process's state alone.
abbrev pub PasaA : Planificador → ℕ → Estado → Ks → Option Ks → Type 0
PasaA a pid y ks r =
    (ks' : Ks) × (r ≡ some ks')
    × IsValid a ks'
    × ((ks'.pcb pid).estado ≡ y)
    × ((p : ℕ) → p ≢ pid → ks'.pcb p ≡ ks.pcb p)
