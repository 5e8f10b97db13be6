-- ===== src/Scheduler/Priority.antt =====
-- kernel_scheduler/src/planificador.c: the priorities. The order of the suspended ready queue, the
-- executing process to preempt, and the ready queue to serve. `prioridad` is the field of each PCB.
pub mod Order
use tp_2026_1c_malloc_and_cr.Base.{
  ℕ, zero, suc, ◌+◌, Option, none, some, List, [], ◌∷◌, ◌++◌, ltb, ◌==◌, if◌then◌else◌,
}
use tp_2026_1c_malloc_and_cr.Scheduler.Types.{Pcb, Ks}

-- `maximaPrioridad` after the loop that empties the queue.
abbrev pub maxima_prioridad : (ℕ → ℕ) → ℕ → List ℕ → ℕ
maxima_prioridad prioridad m [] = m
maxima_prioridad prioridad m (p ∷ cola) =
    maxima_prioridad prioridad (if ltb m (prioridad p) then prioridad p else m) cola

-- The inner loop: the PCBs of priority `i`, in the list's order.
abbrev pub de_prioridad : (ℕ → ℕ) → ℕ → List ℕ → List ℕ
de_prioridad prioridad i [] = []
de_prioridad prioridad i (p ∷ lista) =
    if prioridad p == i then p ∷ de_prioridad prioridad i lista else de_prioridad prioridad i lista

-- The outer loop, `rondas` rounds from `i` on.
abbrev pub reencolar_desde : (ℕ → ℕ) → ℕ → ℕ → List ℕ → List ℕ
reencolar_desde prioridad zero i lista = []
reencolar_desde prioridad (suc rondas) i lista =
    de_prioridad prioridad i lista ++ reencolar_desde prioridad rondas (i + 1) lista

unfoldable pub ordenar_cola : (ℕ → ℕ) → List ℕ → List ℕ
ordenar_cola prioridad cola =
    reencolar_desde prioridad (suc (maxima_prioridad prioridad 0 cola)) 0 cola

unfoldable pub ordenar_susp_ready_segun_prioridad : Ks → Ks
unfolding ordenar_cola
ordenar_susp_ready_segun_prioridad ks = record ks {
  cola_ready_susp = ordenar_cola (λ p. (ks.pcb p).prioridad) ks.cola_ready_susp;
}

-- `buscarMenorPrioridad`: the loop over EXEC, with the choice so far and its priority.
abbrev pub buscar_menor : (ℕ → ℕ) → ℕ → Option ℕ → List ℕ → Option ℕ
buscar_menor prioridad m e [] = e
buscar_menor prioridad m e (p ∷ cola) =
    buscar_menor prioridad (if ltb m (prioridad p) then prioridad p else m)
      (if ltb m (prioridad p) then some p else e) cola

unfoldable pub buscar_menor_prioridad : Ks → Option ℕ
buscar_menor_prioridad ks = buscar_menor (λ p. (ks.pcb p).prioridad) 0 none ks.cola_exec

-- `procesoMasPrioritario`: the first of the ready queues `i`, `i + 1`, ... up to `n` of them that has
-- a process; `none` for -1.
abbrev pub mas_prioritario_desde : ℕ → ℕ → List (List ℕ) → Option ℕ
mas_prioritario_desde zero i colas = none
mas_prioritario_desde (suc n) i [] = none
mas_prioritario_desde (suc n) i ([] ∷ colas) = mas_prioritario_desde n (i + 1) colas
mas_prioritario_desde (suc n) i ((p ∷ q) ∷ colas) = some i

unfoldable pub proceso_mas_prioritario : ℕ → Ks → Option ℕ
proceso_mas_prioritario prioridad_actual ks =
    mas_prioritario_desde prioridad_actual 0 ks.colas_ready
