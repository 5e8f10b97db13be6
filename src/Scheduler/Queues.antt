-- ===== src/Scheduler/Queues.antt =====
-- kernel_scheduler/src/planificador.c: the loops that look for a PCB in a queue or take it out, as
-- they turn the queue round or empty it into `colaAux`.
pub mod Order
use tp_2026_1c_malloc_and_cr.Base.{
  ℕ, zero, suc, ◌+◌, Bool, true, false, Option, none, some, List, [], ◌∷◌, ◌++◌, ◌==◌,
  if◌then◌else◌, length, sum_by,
}
use tp_2026_1c_malloc_and_cr.Scheduler.Types.{CpuConectada}

-- `pcbEncontrada == NULL && pcb->pid == pid`
abbrev pub es_el_buscado : Option ℕ → ℕ → ℕ → Bool
es_el_buscado none p pid = p == pid
es_el_buscado (some _) p pid = false

-- `for (i = 0; i < cantidad; i++)`: each element is popped, and pushed back unless it is the one.
unfoldable pub girar : ℕ → ℕ → Option ℕ → List ℕ → Option ℕ × List ℕ
girar zero pid e cola = (e, cola)
girar (suc n) pid e [] = (e, [])
girar (suc n) pid e (p ∷ cola) = elim (es_el_buscado e p pid) [
  | true ↦ girar n pid (some p) cola
  | false ↦ girar n pid e (cola ++ (p ∷ []))
]

-- The block "SACO DE ..." of the transitions: `cantidad` is the size at the start.
unfoldable pub sacar : ℕ → List ℕ → Option ℕ × List ℕ
unfolding girar
sacar pid cola = girar (length cola) pid none cola

-- `while (!queue_is_empty(colaAux)) queue_push(cola, queue_pop(colaAux))`
unfoldable pub volcar : List ℕ → List ℕ → List ℕ
volcar [] cola = cola
volcar (p ∷ aux) cola = volcar aux (cola ++ (p ∷ []))

unfoldable pub vaciar_buscando : ℕ → Option ℕ → List ℕ → List ℕ → Option ℕ × List ℕ
vaciar_buscando pid e [] aux = (e, aux)
vaciar_buscando pid e (p ∷ cola) aux = elim (es_el_buscado e p pid) [
  | true ↦ vaciar_buscando pid (some p) cola (aux ++ (p ∷ []))
  | false ↦ vaciar_buscando pid e cola (aux ++ (p ∷ []))
]

-- `buscarPCBPorPID`: the PCB found and the queue as it is left.
unfoldable pub buscar_pcb_por_pid : ℕ → List ℕ → Option ℕ × List ℕ
unfolding volcar vaciar_buscando
buscar_pcb_por_pid pid cola = let (e, aux) = vaciar_buscando pid none cola [] in (e, volcar aux [])

unfoldable pub vaciar_retirando : ℕ → Option ℕ → List ℕ → List ℕ → Option ℕ × List ℕ
vaciar_retirando pid e [] aux = (e, aux)
vaciar_retirando pid e (p ∷ cola) aux = elim (es_el_buscado e p pid) [
  | true ↦ vaciar_retirando pid (some p) cola aux
  | false ↦ vaciar_retirando pid e cola (aux ++ (p ∷ []))
]

-- `retiraSegunPID`, and the same loop in `finalizarProceso` and `eliminarProceso`.
unfoldable pub retira_segun_pid : ℕ → List ℕ → Option ℕ × List ℕ
unfolding volcar vaciar_retirando
retira_segun_pid pid cola = let (e, aux) = vaciar_retirando pid none cola [] in (e, volcar aux [])

-- The rounds of `retiraSegunPIDdeREADY` over the queues from one on: `pcbEncontrada` is kept across
-- the queues, so only the first queue that holds the pid loses it.
unfoldable pub retira_de_colas : ℕ → ℕ → Option ℕ → List (List ℕ) → Option ℕ × List (List ℕ)
unfolding volcar vaciar_retirando
retira_de_colas zero pid e colas = (e, colas)
retira_de_colas (suc n) pid e [] = (e, [])
retira_de_colas (suc n) pid e (q ∷ colas) =
    let (e', aux) = vaciar_retirando pid e q [] in
    let (e'', colas') = retira_de_colas n pid e' colas in (e'', volcar aux [] ∷ colas')

-- `elegirPorCMN`: the first `n` queues are tried in order.
unfoldable pub elegir_de_colas : ℕ → List (List ℕ) → Option ℕ × List (List ℕ)
elegir_de_colas zero colas = (none, colas)
elegir_de_colas (suc n) [] = (none, [])
elegir_de_colas (suc n) ([] ∷ colas) = let (e, colas') = elegir_de_colas n colas in (e, [] ∷ colas')
elegir_de_colas (suc n) ((p ∷ q) ∷ colas) = (some p, q ∷ colas)

-- The loop of `buscarCPULibre`: the first free CPU is pushed back on the queue that is being emptied,
-- so it is popped again and ends last in `colaAux`.
unfoldable pub separar_libre :
    List CpuConectada → List CpuConectada → Option CpuConectada × List CpuConectada
separar_libre [] aux = (none, aux)
separar_libre (c ∷ cola) aux = elim c.libre [
  | true ↦ (some c, aux ++ (cola ++ (c ∷ [])))
  | false ↦ separar_libre cola (aux ++ (c ∷ []))
]

-- How often a pid stands in a queue, and in the ready queues.
abbrev pub uno : ℕ → ℕ → ℕ
uno p q = if p == q then 1 else 0

abbrev pub veces : ℕ → List ℕ → ℕ
veces p cola = sum_by (uno p) cola

abbrev pub veces_colas : ℕ → List (List ℕ) → ℕ
veces_colas p colas = sum_by (veces p) colas

-- The reference for the loops: the first occurrence is found, or taken out.
abbrev pub hallado : ℕ → List ℕ → Option ℕ
hallado pid [] = none
hallado pid (p ∷ cola) = if p == pid then some p else hallado pid cola

abbrev pub borrar : ℕ → List ℕ → List ℕ
borrar pid [] = []
borrar pid (p ∷ cola) = if p == pid then cola else p ∷ borrar pid cola
