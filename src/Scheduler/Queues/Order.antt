-- ===== src/Scheduler/Queues/Order.antt =====
-- The loops over a queue keep its order: each finds, or takes out, the first occurrence, and leaves
-- the others as they were.
use tp_2026_1c_malloc_and_cr.Base.{
  ℕ, zero, suc, ◌+◌, ◌<◌, ◌≡◌, refl, sym, ap, subst, inl, inr, Bool-cases, Option, none, some, List,
  [], ◌∷◌, ◌++◌, arith, ◌==◌, length, get_elem?, set, append_assoc, append_nil, sum_by-append,
}
use tp_2026_1c_malloc_and_cr.Scheduler.Queues.{
  girar, sacar, volcar, vaciar_buscando, buscar_pcb_por_pid, vaciar_retirando, retira_segun_pid,
  elegir_de_colas, uno, veces, hallado, borrar,
}

girar-resto :
    (pid x : ℕ) (cola r : List ℕ)
    → girar (length cola) pid (some x) (cola ++ r) ≡ (some x, r ++ cola)
unfolding girar
girar-resto pid x [] r = rw (append_nil r)
girar-resto pid x (p ∷ cola) r = rw (
  append_assoc cola r (p ∷ []),
  girar-resto pid x cola (r ++ (p ∷ [])),
  append_assoc r (p ∷ []) cola,
)

girar_lem :
    (pid : ℕ) (cola r : List ℕ)
    → girar (length cola) pid none (cola ++ r) ≡ (hallado pid cola, r ++ borrar pid cola)
unfolding girar
girar_lem pid [] r = rw (append_nil r)
girar_lem pid (p ∷ cola) r = elim (Bool-cases (p == pid)) [
  | inl same ↦ rw (same, girar, girar-resto pid p cola r)
  | inr other ↦ rw (
    other,
    girar,
    append_assoc cola r (p ∷ []),
    girar_lem pid cola (r ++ (p ∷ [])),
    append_assoc r (p ∷ []) (borrar pid cola),
  )
]

-- Turning a queue round to take a pid out gives the first PCB with that pid, and leaves the queue
-- without it, in its order; with no such PCB the queue is unchanged.
pub sacar_lem : (pid : ℕ) (cola : List ℕ) → sacar pid cola ≡ (hallado pid cola, borrar pid cola)
unfolding sacar
sacar_lem pid cola =
    subst (λ l. girar (length cola) pid none l ≡ (hallado pid cola, borrar pid cola))
      (append_nil cola) (girar_lem pid cola [])

pub volcar_lem : (aux cola : List ℕ) → volcar aux cola ≡ cola ++ aux
unfolding volcar
volcar_lem [] cola = sym (append_nil cola)
volcar_lem (p ∷ aux) cola = rw (volcar_lem aux (cola ++ (p ∷ [])), append_assoc cola (p ∷ []) aux)

vaciar_buscando-resto :
    (pid x : ℕ) (cola aux : List ℕ) → vaciar_buscando pid (some x) cola aux ≡ (some x, aux ++ cola)
unfolding vaciar_buscando
vaciar_buscando-resto pid x [] aux = rw (append_nil aux)
vaciar_buscando-resto pid x (p ∷ cola) aux =
    rw (vaciar_buscando-resto pid x cola (aux ++ (p ∷ [])), append_assoc aux (p ∷ []) cola)

vaciar_buscando_lem :
    (pid : ℕ) (cola aux : List ℕ)
    → vaciar_buscando pid none cola aux ≡ (hallado pid cola, aux ++ cola)
unfolding vaciar_buscando
vaciar_buscando_lem pid [] aux = rw (append_nil aux)
vaciar_buscando_lem pid (p ∷ cola) aux = elim (Bool-cases (p == pid)) [
  | inl same ↦ rw (
    same,
    vaciar_buscando,
    vaciar_buscando-resto pid p cola (aux ++ (p ∷ [])),
    append_assoc aux (p ∷ []) cola,
  )
  | inr other ↦ rw (
    other,
    vaciar_buscando,
    vaciar_buscando_lem pid cola (aux ++ (p ∷ [])),
    append_assoc aux (p ∷ []) cola,
  )
]

-- The search gives the first PCB with the pid, NULL if there is none, and puts the queue back.
pub buscar_pcb_por_pid_lem :
    (pid : ℕ) (cola : List ℕ) → buscar_pcb_por_pid pid cola ≡ (hallado pid cola, cola)
unfolding buscar_pcb_por_pid
buscar_pcb_por_pid_lem pid cola = rw (vaciar_buscando_lem pid cola [], volcar_lem cola [])

pub vaciar_retirando-resto :
    (pid x : ℕ) (cola aux : List ℕ) → vaciar_retirando pid (some x) cola aux ≡ (some x, aux ++ cola)
unfolding vaciar_retirando
vaciar_retirando-resto pid x [] aux = rw (append_nil aux)
vaciar_retirando-resto pid x (p ∷ cola) aux =
    rw (vaciar_retirando-resto pid x cola (aux ++ (p ∷ [])), append_assoc aux (p ∷ []) cola)

pub vaciar_retirando_lem :
    (pid : ℕ) (cola aux : List ℕ)
    → vaciar_retirando pid none cola aux ≡ (hallado pid cola, aux ++ borrar pid cola)
unfolding vaciar_retirando
vaciar_retirando_lem pid [] aux = rw (append_nil aux)
vaciar_retirando_lem pid (p ∷ cola) aux = elim (Bool-cases (p == pid)) [
  | inl same ↦ rw (same, vaciar_retirando, vaciar_retirando-resto pid p cola aux)
  | inr other ↦ rw (
    other,
    vaciar_retirando,
    vaciar_retirando_lem pid cola (aux ++ (p ∷ [])),
    append_assoc aux (p ∷ []) (borrar pid cola),
  )
]

-- Taking a pid out through `colaAux` does what turning the queue round does: it gives the first PCB
-- with the pid and leaves the others in their order.
pub retira_segun_pid-sacar : (pid : ℕ) (cola : List ℕ) → retira_segun_pid pid cola ≡ sacar pid cola
unfolding retira_segun_pid
retira_segun_pid-sacar pid cola =
    rw (sacar_lem pid cola, vaciar_retirando_lem pid cola [], volcar_lem (borrar pid cola) [])

pub veces-append :
    (p pid : ℕ) (cola : List ℕ) → veces p (cola ++ (pid ∷ [])) ≡ veces p cola + uno p pid
veces-append p pid cola = omega (arith, sum_by-append (uno p) cola (pid ∷ []))

pub hallado-veces : (pid : ℕ) (cola : List ℕ) → 0 < veces pid cola → hallado pid cola ≡ some pid
hallado-veces pid [] l = absurd (omega arith)
hallado-veces pid (p ∷ cola) l = ground (arith, hallado-veces pid cola)

pub veces-borrar :
    (p pid : ℕ) (cola : List ℕ)
    → hallado pid cola ≡ some pid
    → veces p (borrar pid cola) + uno p pid ≡ veces p cola
veces-borrar p pid [] h = absurd (cc)
veces-borrar p pid (q ∷ cola) h = ground (arith, veces-borrar p pid cola)

-- The multilevel choice is the head of the first queue that is not empty.
abbrev pub PrimeroDe : List (List ℕ) → Option ℕ × List (List ℕ) → Type 0
PrimeroDe colas (none, colas') =
    (colas' ≡ colas) × ((i : ℕ) → i < length colas → get_elem? colas i ≡ some [])
PrimeroDe colas (some p, colas') =
    (i : ℕ) × (q : List ℕ) × (get_elem? colas i ≡ some (p ∷ q))
    × (colas' ≡ set colas i q)
    × ((j : ℕ) → j < i → get_elem? colas j ≡ some [])

vacias-cons :
    (colas : List (List ℕ)) (n : ℕ)
    → ((i : ℕ) → i < n → get_elem? colas i ≡ some [])
    → (i : ℕ) → i < suc n
    → get_elem? ([] ∷ colas) i ≡ some []
vacias-cons colas n vacias zero l = refl
vacias-cons colas n vacias (suc i) l = vacias i (omega arith)

PrimeroDe-next :
    (colas : List (List ℕ)) (r : Option ℕ × List (List ℕ))
    → PrimeroDe colas r
    → PrimeroDe ([] ∷ colas) (r.0, [] ∷ r.1)
PrimeroDe-next colas (none, colas') (same, vacias) =
    (ap (λ l. [] ∷ l) same, vacias-cons colas (length colas) vacias)
PrimeroDe-next colas (some p, colas') (i, q, at, same, vacias) =
    (suc i, q, at, ap (λ l. [] ∷ l) same, vacias-cons colas i vacias)

-- CMN takes the head of the lowest-numbered queue that is not empty, and leaves every other queue as
-- it was; it takes nothing exactly when all are empty.
pub elegir_de_colas-PrimeroDe :
    (colas : List (List ℕ)) → PrimeroDe colas (elegir_de_colas (length colas) colas)
unfolding elegir_de_colas
elegir_de_colas-PrimeroDe [] = (refl, λ i l. absurd (omega arith))
elegir_de_colas-PrimeroDe ([] ∷ colas) = PrimeroDe-next colas _ (elegir_de_colas-PrimeroDe colas)
elegir_de_colas-PrimeroDe ((p ∷ q) ∷ colas) = (0, q, refl, refl, λ j l. absurd (omega arith))
