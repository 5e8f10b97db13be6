-- ===== src/Scheduler/Mutexes/Inheritance.antt =====
-- `recalcularPrioridad` gives the smallest priority number that the process is entitled to.
use tp_2026_1c_malloc_and_cr.Base.{
  ℕ, ◌≤◌, ◌≡◌, inl, inr, subst, ap, sym, Option-cases, some, List, [], ◌∷◌, arith, ltb,
  if◌then◌else◌, All, All-imp,
}
use Prim.Native.String.{String}
use tp_2026_1c_malloc_and_cr.Scheduler.Types.{Mutex, Ks}
use tp_2026_1c_malloc_and_cr.Scheduler.Mutexes.{
  buscar_mutex, buscar_pcb_en_cualquier_estado, menor_esperando, menor_de_mutexes,
  recalcular_prioridad,
}

-- `k` is at most the priority number of every process of the list that is in some queue.
abbrev pub Cota : Ks → ℕ → List ℕ → Type 0
Cota ks k cola =
    All (λ q. (p : ℕ) → buscar_pcb_en_cualquier_estado q ks ≡ some p → k ≤ (ks.pcb p).prioridad)
      cola

-- The same for every process that waits for one of the mutexes.
abbrev pub CotaMutexes : Ks → ℕ → List String → Type 0
CotaMutexes ks k nombres =
    All
      (λ n.
        (m : Mutex) → buscar_mutex n ks.diccionario_mutex ≡ some m → Cota ks k m.cola_bloqueados)
      nombres

-- The greatest number that is at most `base` and at most the priority of all that wait.
abbrev pub EsMinimo : Ks → ℕ → List String → ℕ → Type 0
EsMinimo ks base nombres m =
    (m ≤ base) × CotaMutexes ks m nombres × ((k : ℕ) → k ≤ base → CotaMutexes ks k nombres → k ≤ m)

abbrev EsMinimoCola : Ks → ℕ → List ℕ → ℕ → Type 0
EsMinimoCola ks base cola m =
    (m ≤ base) × Cota ks m cola × ((k : ℕ) → k ≤ base → Cota ks k cola → k ≤ m)

module _ (ks : Ks) where
  menor_esperando-EsMinimoCola :
      (base : ℕ) (cola : List ℕ) → EsMinimoCola ks base cola (menor_esperando ks base cola)
  unfolding menor_esperando
  menor_esperando-EsMinimoCola base [] = (omega arith, tt, λ k l c. l)
  menor_esperando-EsMinimoCola base (q ∷ cola) =
      elim (Option-cases (buscar_pcb_en_cualquier_estado q ks)) [
        | inl nadie ↦
            let (l, c, g) = menor_esperando-EsMinimoCola base cola in
            let eq : menor_esperando ks base (q ∷ cola) ≡ menor_esperando ks base cola =
              rw (nadie, menor_esperando) in
            subst (EsMinimoCola ks base (q ∷ cola)) (sym eq)
              (l, ((λ p e. absurd (cc)), c), λ k b h. g k b h.1)
        | inr (p, esta) ↦
            let base' : ℕ = if ltb (ks.pcb p).prioridad base then (ks.pcb p).prioridad else base in
            let cotas : (base' ≤ base) × (base' ≤ (ks.pcb p).prioridad) = ground arith in
            let (l, c, g) = menor_esperando-EsMinimoCola base' cola in
            let este : (o : ℕ)
                → buscar_pcb_en_cualquier_estado q ks ≡ some o
                → (ks.pcb p).prioridad ≡ (ks.pcb o).prioridad =
              λ o e. let same : p ≡ o = cc in ap (λ x. (ks.pcb x).prioridad) same in
            let eq : menor_esperando ks base (q ∷ cola) ≡ menor_esperando ks base' cola =
              rw (esta, menor_esperando) in
            subst (EsMinimoCola ks base (q ∷ cola)) (sym eq) (
              omega (arith, l, cotas.0),
              ((λ o e. omega (arith, este o e, l, cotas.1)), c),
              λ k b h. g k (ground (arith, h.0 p esta, b)) h.1,
            )
      ]

  menor_de_mutexes-EsMinimo :
      (base : ℕ) (nombres : List String)
      → EsMinimo ks base nombres (menor_de_mutexes ks base nombres)
  unfolding menor_de_mutexes
  menor_de_mutexes-EsMinimo base [] = (omega arith, tt, λ k l c. l)
  menor_de_mutexes-EsMinimo base (n ∷ nombres) =
      elim (Option-cases (buscar_mutex n ks.diccionario_mutex)) [
        | inl nada ↦
            let (l, c, g) = menor_de_mutexes-EsMinimo base nombres in
            let eq : menor_de_mutexes ks base (n ∷ nombres) ≡ menor_de_mutexes ks base nombres =
              rw (nada, menor_de_mutexes) in
            subst (EsMinimo ks base (n ∷ nombres)) (sym eq)
              (l, ((λ m e. absurd (cc)), c), λ k b h. g k b h.1)
        | inr (x, esta) ↦
            let (l0, c0, g0) = menor_esperando-EsMinimoCola base x.cola_bloqueados in
            let base' = menor_esperando ks base x.cola_bloqueados in
            let (l, c, g) = menor_de_mutexes-EsMinimo base' nombres in
            let fin = menor_de_mutexes ks base' nombres in
            let aqui : Cota ks fin x.cola_bloqueados =
              All-imp
                (λ q.
                  (p : ℕ)
                  → buscar_pcb_en_cualquier_estado q ks ≡ some p
                  → base' ≤ (ks.pcb p).prioridad)
                (λ q.
                  (p : ℕ)
                  → buscar_pcb_en_cualquier_estado q ks ≡ some p
                  → fin ≤ (ks.pcb p).prioridad)
                (λ q h p e. omega (arith, h p e, l)) x.cola_bloqueados c0 in
            let eq : menor_de_mutexes ks base (n ∷ nombres) ≡ fin = rw (esta, menor_de_mutexes) in
            subst (EsMinimo ks base (n ∷ nombres)) (sym eq) (
              omega (arith, l, l0),
              (
                (λ m e.
                    let same : x ≡ m = cc in subst (λ y. Cota ks fin y.cola_bloqueados) same aqui),
                c,
              ),
              λ k b h. g k (g0 k b (h.0 x esta)) h.1,
            )
      ]

  -- The recalculated priority number of a process is the greatest one that is at most its base
  -- priority and at most that of every process that waits for a mutex in its list of taken ones.
  pub recalcular_prioridad-EsMinimo :
      (pid : ℕ)
      → EsMinimo ks
          (ks.pcb pid).prioridad_base
          (ks.pcb pid).mutex_tomados
          ((recalcular_prioridad pid ks).pcb pid).prioridad
  unfolding recalcular_prioridad
  recalcular_prioridad-EsMinimo pid =
      let same : ((recalcular_prioridad pid ks).pcb pid).prioridad
          ≡ menor_de_mutexes ks (ks.pcb pid).prioridad_base (ks.pcb pid).mutex_tomados =
        ground arith in
      subst (EsMinimo ks (ks.pcb pid).prioridad_base (ks.pcb pid).mutex_tomados) (sym same)
        (menor_de_mutexes-EsMinimo (ks.pcb pid).prioridad_base (ks.pcb pid).mutex_tomados)
