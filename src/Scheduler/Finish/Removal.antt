-- ===== src/Scheduler/Finish/Removal.antt =====
-- Taking a process out of the queue of its state: what `finalizarProceso` finds for each reason, and
-- that the queues stay consistent.
use tp_2026_1c_malloc_and_cr.Base.{
  ℕ, ◌+◌, ◌<◌, ◌≡◌, refl, sym, ap, inl, inr, Bool-cases, false, Option, none, some, List, [], ◌∷◌,
  arith, ◌==◌, length, ltb,
}
use tp_2026_1c_malloc_and_cr.Scheduler.Types.{Planificador, fifo, rr, cmn, ready, Ks}
use tp_2026_1c_malloc_and_cr.Scheduler.Queues.{
  uno, veces, veces_colas, hallado, borrar, retira_segun_pid, retira_de_colas,
}
use tp_2026_1c_malloc_and_cr.Scheduler.Queues.Order.{
  retira_segun_pid-sacar, sacar_lem, volcar_lem, vaciar_retirando-resto, vaciar_retirando_lem,
  hallado-veces, veces-borrar,
}
use tp_2026_1c_malloc_and_cr.Scheduler.Ready.{obtener_planificacion}
use tp_2026_1c_malloc_and_cr.Scheduler.Transitions.Invariant.{marca, colas_de, IsValid, sacar-veces}
use tp_2026_1c_malloc_and_cr.Scheduler.Finish.{retira_segun_pid_de_ready}

hallado-ausente :
    (pid : ℕ) (cola : List ℕ)
    → veces pid cola ≡ 0
    → (hallado pid cola ≡ none) × (borrar pid cola ≡ cola)
hallado-ausente pid [] n = (refl, refl)
hallado-ausente pid (p ∷ cola) n =
    let rest = hallado-ausente pid cola (omega arith) in
    let other : (p == pid) ≡ false = ground arith in (rw (other, rest.0), rw (other, rest.1))

-- A queue without the pid is left as it is.
pub retira_segun_pid-ausente :
    (pid : ℕ) (cola : List ℕ) → veces pid cola ≡ 0 → retira_segun_pid pid cola ≡ (none, cola)
retira_segun_pid-ausente pid cola n =
    let (h, b) = hallado-ausente pid cola n in
    rw (retira_segun_pid-sacar pid cola, sacar_lem pid cola, h, b)

pub retira_segun_pid-presente :
    (pid : ℕ) (cola : List ℕ)
    → 0 < veces pid cola
    → retira_segun_pid pid cola ≡ (some pid, borrar pid cola)
retira_segun_pid-presente pid cola l =
    rw (retira_segun_pid-sacar pid cola, (sacar-veces pid cola l).0)

retira_de_colas-resto :
    (pid x : ℕ) (colas : List (List ℕ))
    → retira_de_colas (length colas) pid (some x) colas ≡ (some x, colas)
unfolding retira_de_colas
retira_de_colas-resto pid x [] = refl
retira_de_colas-resto pid x (q ∷ colas) =
    rw (vaciar_retirando-resto pid x q [], volcar_lem q [], retira_de_colas-resto pid x colas)

-- The ready queues lose the pid once.
abbrev pub Quitado : ℕ → List (List ℕ) → Option ℕ × List (List ℕ) → Type 0
Quitado pid colas r =
    (despues : List (List ℕ)) × (r ≡ (some pid, despues))
    × (length despues ≡ length colas)
    × ((p : ℕ) → veces_colas p despues + uno p pid ≡ veces_colas p colas)

retira_de_colas-Quitado :
    (pid : ℕ) (colas : List (List ℕ))
    → 0 < veces_colas pid colas
    → Quitado pid colas (retira_de_colas (length colas) pid none colas)
unfolding retira_de_colas
retira_de_colas-Quitado pid [] l = absurd (omega arith)
retira_de_colas-Quitado pid (q ∷ colas) l = elim (Bool-cases (ltb 0 (veces pid q))) [
  | inl here ↦
      let h = hallado-veces pid q (ground arith) in
      (
        borrar pid q ∷ colas,
        rw (
          vaciar_retirando_lem pid q [],
          h,
          volcar_lem (borrar pid q) [],
          retira_de_colas-resto pid pid colas,
        ),
        refl,
        λ p. omega (arith, veces-borrar p pid q h),
      )
  | inr away ↦
      let (h, b) = hallado-ausente pid q (ground arith) in
      let (despues, eq, largo, mas) = retira_de_colas-Quitado pid colas (ground arith) in
      (
        q ∷ despues,
        rw (vaciar_retirando_lem pid q [], h, b, volcar_lem q [], eq),
        omega (arith, largo),
        λ p. omega (arith, mas p),
      )
]

retira_ready-eq :
    (a : Planificador) (pid : ℕ) (ks : Ks)
    → obtener_planificacion ks.planification_algorithm ≡ some a
    → length ks.colas_ready ≡ colas_de a ks.cantidad_colas_multinivel
    → retira_segun_pid_de_ready pid ks
      ≡ retira_de_colas (length ks.colas_ready) pid none ks.colas_ready
unfolding retira_segun_pid_de_ready
retira_ready-eq fifo pid ks e l =
    rw (e, retira_segun_pid_de_ready) (ap (λ n. retira_de_colas n pid none ks.colas_ready) (sym l))
retira_ready-eq rr pid ks e l =
    rw (e, retira_segun_pid_de_ready) (ap (λ n. retira_de_colas n pid none ks.colas_ready) (sym l))
retira_ready-eq cmn pid ks e l =
    rw (e, retira_segun_pid_de_ready) (ap (λ n. retira_de_colas n pid none ks.colas_ready) (sym l))

-- A READY process is found in the ready queues, whatever queue it is in, and taken out once.
pub retira_ready-Quitado :
    (a : Planificador) (pid : ℕ) (ks : Ks)
    → IsValid a ks
    → (ks.pcb pid).estado ≡ ready
    → Quitado pid ks.colas_ready (retira_segun_pid_de_ready pid ks)
retira_ready-Quitado a pid ks v en =
    let once : 0 < veces_colas pid ks.colas_ready =
      omega (arith, v.1.en_ready pid, ap (marca ready) en) in
    rw (retira_ready-eq a pid ks v.0 v.1.colas) (retira_de_colas-Quitado pid ks.colas_ready once)
