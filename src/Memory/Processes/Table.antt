-- ===== src/Memory/Processes/Table.antt =====
-- The process dictionary under its updates: lookups, sums over the processes, and properties of all.
use tp_2026_1c_malloc_and_cr.Base.{
  ℕ, ◌+◌, ◌≡◌, subst, ◌≢◌, ◌⊎◌, inl, inr, Bool-cases, none, some, List, [], ◌∷◌, arith, ◌==◌, All,
  sum_by,
}
use tp_2026_1c_malloc_and_cr.Memory.Types.{Proceso}
use tp_2026_1c_malloc_and_cr.Memory.Processes.{
  buscar_proceso, poner_proceso, quitar_proceso, modificar_proceso,
}

buscar-here :
    (pid : ℕ) (p q : Proceso) (ps : List Proceso)
    → buscar_proceso pid (q ∷ ps) ≡ some p
    → ((q.pid ≡ pid) × (q ≡ p)) ⊎ ((q.pid ≢ pid) × (buscar_proceso pid ps ≡ some p))
unfolding buscar_proceso
buscar-here pid p q ps e = ground arith

module _ (f : Proceso → ℕ) (pid : ℕ) (p : Proceso) where
  pub sum_by-modificar_proceso :
      (g : Proceso → Proceso) (ps : List Proceso)
      → buscar_proceso pid ps ≡ some p
      → sum_by f (modificar_proceso pid g ps) + f p ≡ sum_by f ps + f (g p)
  unfolding buscar_proceso modificar_proceso
  sum_by-modificar_proceso g [] e = absurd (cc)
  sum_by-modificar_proceso g (q ∷ ps) e =
      ground (arith, buscar-here pid p q ps e, sum_by-modificar_proceso g ps)

  pub sum_by-quitar_proceso :
      (ps : List Proceso)
      → buscar_proceso pid ps ≡ some p
      → sum_by f (quitar_proceso pid ps) + f p ≡ sum_by f ps
  unfolding buscar_proceso quitar_proceso
  sum_by-quitar_proceso [] e = absurd (cc)
  sum_by-quitar_proceso (q ∷ ps) e =
      ground (arith, buscar-here pid p q ps e, sum_by-quitar_proceso ps)

pub sum_by-poner_proceso :
    (f : Proceso → ℕ) (p : Proceso) (ps : List Proceso)
    → buscar_proceso p.pid ps ≡ none
    → sum_by f (poner_proceso p ps) ≡ sum_by f ps + f p
unfolding buscar_proceso poner_proceso
sum_by-poner_proceso f p [] e = omega arith
sum_by-poner_proceso f p (q ∷ ps) e = ground (arith, sum_by-poner_proceso f p ps)

module _ {ℓ} (P : Proceso → Type ℓ) (pid : ℕ) where
  pub All-buscar_proceso :
      (p : Proceso) (ps : List Proceso) → All P ps → buscar_proceso pid ps ≡ some p → P p
  unfolding buscar_proceso
  All-buscar_proceso p [] h e = absurd (cc)
  All-buscar_proceso p (q ∷ ps) h e = elim (buscar-here pid p q ps e) [
    | inl (_, same) ↦ subst P same h.0
    | inr (_, later) ↦ All-buscar_proceso p ps h.1 later
  ]

  pub All-modificar_proceso :
      (g : Proceso → Proceso) (ps : List Proceso)
      → ((p : Proceso) → P p → P (g p))
      → All P ps
      → All P (modificar_proceso pid g ps)
  unfolding modificar_proceso
  All-modificar_proceso g [] k h = tt
  All-modificar_proceso g (q ∷ ps) k h = elim (Bool-cases (q.pid == pid)) [
    | inl here ↦ rw here (k q h.0, h.1)
    | inr later ↦ rw later (h.0, All-modificar_proceso g ps k h.1)
  ]

  pub All-quitar_proceso : (ps : List Proceso) → All P ps → All P (quitar_proceso pid ps)
  unfolding quitar_proceso
  All-quitar_proceso [] h = tt
  All-quitar_proceso (q ∷ ps) h = elim (Bool-cases (q.pid == pid)) [
    | inl here ↦ rw here h.1
    | inr later ↦ rw later (h.0, All-quitar_proceso ps h.1)
  ]

pub All-poner_proceso {ℓ} :
    (P : Proceso → Type ℓ) (p : Proceso) (ps : List Proceso)
    → P p
    → All P ps
    → All P (poner_proceso p ps)
unfolding poner_proceso
All-poner_proceso P p [] k h = (k, tt)
All-poner_proceso P p (q ∷ ps) k h = elim (Bool-cases (q.pid == p.pid)) [
  | inl here ↦ rw here (k, h.1)
  | inr later ↦ rw later (h.0, All-poner_proceso P p ps k h.1)
]
