-- ===== src/Scheduler/Priority/Order.antt =====
-- The suspended ready queue is sorted by priority and stays in arrival order within a priority; the
-- process to preempt has the largest priority number.
use tp_2026_1c_malloc_and_cr.Base.{
  ℕ, zero, suc, ◌+◌, ◌≤◌, ◌<◌, ◌≡◌, ◌≢◌, refl, sym, ap, subst, inl, inr, Bool-cases, true, false,
  List, [], ◌∷◌, ◌++◌, arith, ◌==◌, ltb, if◌then◌else◌, All, All-append, All-imp, append_nil,
}
use tp_2026_1c_malloc_and_cr.Scheduler.Queues.{veces}
use tp_2026_1c_malloc_and_cr.Scheduler.Priority.{
  maxima_prioridad, de_prioridad, reencolar_desde, ordenar_cola,
}

-- Sorted: no priority number is larger than a later one.
abbrev pub Ordenada : (ℕ → ℕ) → List ℕ → Type 0
Ordenada prioridad [] = Unit
Ordenada prioridad (p ∷ cola) = All (λ q. prioridad p ≤ prioridad q) cola × Ordenada prioridad cola

module _ (prioridad : ℕ → ℕ) where
  maxima-desde : (m : ℕ) (cola : List ℕ) → m ≤ maxima_prioridad prioridad m cola
  maxima-desde m [] = omega arith
  maxima-desde m (p ∷ cola) =
      ground (arith, maxima-desde (if ltb m (prioridad p) then prioridad p else m) cola)

  maxima-All :
      (m : ℕ) (cola : List ℕ) → All (λ p. prioridad p ≤ maxima_prioridad prioridad m cola) cola
  maxima-All m [] = tt
  maxima-All m (p ∷ cola) =
      let m' : ℕ = if ltb m (prioridad p) then prioridad p else m in
      let h : prioridad p ≤ m' = ground arith in
      (omega (arith, h, maxima-desde m' cola), maxima-All m' cola)

  de_prioridad-append :
      (i : ℕ) (xs ys : List ℕ)
      → de_prioridad prioridad i (xs ++ ys)
        ≡ de_prioridad prioridad i xs ++ de_prioridad prioridad i ys
  de_prioridad-append i [] ys = refl
  de_prioridad-append i (x ∷ xs) ys = elim (Bool-cases (prioridad x == i)) [
    | inl same ↦ rw same (ap (λ l. x ∷ l) (de_prioridad-append i xs ys))
    | inr other ↦ rw other (de_prioridad-append i xs ys)
  ]

  de_prioridad-All :
      (i : ℕ) (xs : List ℕ) → All (λ p. prioridad p ≡ i) (de_prioridad prioridad i xs)
  de_prioridad-All i [] = tt
  de_prioridad-All i (x ∷ xs) = elim (Bool-cases (prioridad x == i)) [
    | inl same ↦ rw same (ground arith, de_prioridad-All i xs)
    | inr other ↦ rw other (de_prioridad-All i xs)
  ]

  -- Selecting a priority from PCBs that all have it, or all have another.
  de_prioridad-todas :
      (i : ℕ) (xs : List ℕ) → All (λ p. prioridad p ≡ i) xs → de_prioridad prioridad i xs ≡ xs
  de_prioridad-todas i [] h = refl
  de_prioridad-todas i (x ∷ xs) h =
      let here : (prioridad x == i) ≡ true = ground (arith, h.0) in
      rw here (ap (λ l. x ∷ l) (de_prioridad-todas i xs h.1))

  de_prioridad-ninguna :
      (i j : ℕ) (xs : List ℕ)
      → i ≢ j
      → All (λ p. prioridad p ≡ j) xs
      → de_prioridad prioridad i xs ≡ []
  de_prioridad-ninguna i j [] n h = refl
  de_prioridad-ninguna i j (x ∷ xs) n h =
      let away : (prioridad x == i) ≡ false = ground (arith, h.0) in
      rw away (de_prioridad-ninguna i j xs n h.1)

  reencolar-antes :
      (rondas i j : ℕ) (lista : List ℕ)
      → j < i
      → de_prioridad prioridad j (reencolar_desde prioridad rondas i lista) ≡ []
  reencolar-antes zero i j lista l = refl
  reencolar-antes (suc rondas) i j lista l = rw (
    de_prioridad-append j (de_prioridad prioridad i lista)
        (reencolar_desde prioridad rondas (i + 1) lista),
    de_prioridad-ninguna j i (de_prioridad prioridad i lista) (ground arith)
        (de_prioridad-All i lista),
    reencolar-antes rondas (i + 1) j lista (omega arith),
  )

  reencolar-en :
      (rondas i j : ℕ) (lista : List ℕ)
      → i ≤ j
      → j < i + rondas
      → de_prioridad prioridad j (reencolar_desde prioridad rondas i lista)
        ≡ de_prioridad prioridad j lista
  reencolar-en zero i j lista l b = absurd (omega arith)
  reencolar-en (suc rondas) i j lista l b =
      rw
        (de_prioridad-append j (de_prioridad prioridad i lista)
          (reencolar_desde prioridad rondas (i + 1) lista))
        (elim (Bool-cases (i == j)) [
          | inl same ↦
              let e : i ≡ j = ground arith in
              subst
                (λ k.
                  de_prioridad prioridad j (de_prioridad prioridad k lista)
                    ++ de_prioridad prioridad j (reencolar_desde prioridad rondas (i + 1) lista)
                  ≡ de_prioridad prioridad j lista)
                (sym e)
                (rw (
                  de_prioridad-todas j (de_prioridad prioridad j lista) (de_prioridad-All j lista),
                  reencolar-antes rondas (i + 1) j lista (omega arith),
                  append_nil (de_prioridad prioridad j lista),
                ))
          | inr other ↦ rw (
            de_prioridad-ninguna j i (de_prioridad prioridad i lista) (ground arith)
                (de_prioridad-All i lista),
            reencolar-en rondas (i + 1) j lista (ground arith) (omega arith),
          )
        ])

  reencolar-arriba :
      (rondas i j : ℕ) (lista : List ℕ)
      → i + rondas ≤ j
      → de_prioridad prioridad j (reencolar_desde prioridad rondas i lista) ≡ []
  reencolar-arriba zero i j lista l = refl
  reencolar-arriba (suc rondas) i j lista l = rw (
    de_prioridad-append j (de_prioridad prioridad i lista)
        (reencolar_desde prioridad rondas (i + 1) lista),
    de_prioridad-ninguna j i (de_prioridad prioridad i lista) (ground arith)
        (de_prioridad-All i lista),
    reencolar-arriba rondas (i + 1) j lista (omega arith),
  )

  reencolar-All :
      (rondas i : ℕ) (lista : List ℕ)
      → All (λ p. i ≤ prioridad p) (reencolar_desde prioridad rondas i lista)
  reencolar-All zero i lista = tt
  reencolar-All (suc rondas) i lista =
      All-append (λ p. i ≤ prioridad p) (de_prioridad prioridad i lista)
        (reencolar_desde prioridad rondas (i + 1) lista)
        (All-imp (λ p. prioridad p ≡ i) (λ p. i ≤ prioridad p) (λ p e. omega arith)
          (de_prioridad prioridad i lista) (de_prioridad-All i lista))
        (All-imp (λ p. i + 1 ≤ prioridad p) (λ p. i ≤ prioridad p) (λ p e. omega arith)
          (reencolar_desde prioridad rondas (i + 1) lista) (reencolar-All rondas (i + 1) lista))

  Ordenada-append :
      (i : ℕ) (xs ys : List ℕ)
      → All (λ p. prioridad p ≡ i) xs
      → All (λ p. i ≤ prioridad p) ys
      → Ordenada prioridad ys
      → Ordenada prioridad (xs ++ ys)
  Ordenada-append i [] ys hx hy o = o
  Ordenada-append i (x ∷ xs) ys hx hy o = (
    All-append (λ q. prioridad x ≤ prioridad q) xs ys
        (All-imp (λ p. prioridad p ≡ i) (λ q. prioridad x ≤ prioridad q)
          (λ p e. omega (arith, hx.0)) xs hx.1)
        (All-imp (λ p. i ≤ prioridad p) (λ q. prioridad x ≤ prioridad q)
          (λ p e. omega (arith, hx.0)) ys hy),
    Ordenada-append i xs ys hx.1 hy o,
  )

  reencolar-Ordenada :
      (rondas i : ℕ) (lista : List ℕ)
      → Ordenada prioridad (reencolar_desde prioridad rondas i lista)
  reencolar-Ordenada zero i lista = tt
  reencolar-Ordenada (suc rondas) i lista =
      Ordenada-append i (de_prioridad prioridad i lista)
        (reencolar_desde prioridad rondas (i + 1) lista) (de_prioridad-All i lista)
        (All-imp (λ p. i + 1 ≤ prioridad p) (λ p. i ≤ prioridad p) (λ p e. omega arith)
          (reencolar_desde prioridad rondas (i + 1) lista) (reencolar-All rondas (i + 1) lista))
        (reencolar-Ordenada rondas (i + 1) lista)

  de_prioridad-mayor :
      (j m : ℕ) (xs : List ℕ)
      → m < j
      → All (λ p. prioridad p ≤ m) xs
      → de_prioridad prioridad j xs ≡ []
  de_prioridad-mayor j m [] l h = refl
  de_prioridad-mayor j m (x ∷ xs) l h =
      let away : (prioridad x == j) ≡ false = ground (arith, h.0) in
      rw away (de_prioridad-mayor j m xs l h.1)

  veces-de_prioridad :
      (p : ℕ) (xs : List ℕ) → veces p xs ≡ veces p (de_prioridad prioridad (prioridad p) xs)
  veces-de_prioridad p [] = refl
  veces-de_prioridad p (x ∷ xs) = elim (Bool-cases (p == x)) [
    | inl same ↦
        let e : x ≡ p = ground arith in
        let here : (prioridad x == prioridad p) ≡ true = ground (arith, ap prioridad e) in
        rw here (omega (arith, veces-de_prioridad p xs))
    | inr other ↦ elim (Bool-cases (prioridad x == prioridad p)) [
      | inl here ↦ rw here (omega (arith, veces-de_prioridad p xs))
      | inr away ↦ rw away (ground (arith, veces-de_prioridad p xs))
    ]
  ]

  ordenar-de_prioridad :
      (j : ℕ) (cola : List ℕ)
      → de_prioridad prioridad j (ordenar_cola prioridad cola) ≡ de_prioridad prioridad j cola
  unfolding ordenar_cola
  ordenar-de_prioridad j cola =
      let m = maxima_prioridad prioridad 0 cola in
      elim (Bool-cases (ltb m j)) [
        | inl arriba ↦ rw (
          reencolar-arriba (suc m) 0 j cola (ground arith),
          de_prioridad-mayor j m cola (ground arith) (maxima-All 0 cola),
        )
        | inr dentro ↦ reencolar-en (suc m) 0 j cola (omega arith) (ground arith)
      ]

  -- The suspended ready queue is sorted by priority: the same processes, as often as before, no
  -- priority number before a smaller one, and those of one priority in the order they had.
  pub ordenar_cola-Ordenada :
      (cola : List ℕ)
      → Ordenada prioridad (ordenar_cola prioridad cola)
        × ((j : ℕ)
            → de_prioridad prioridad j (ordenar_cola prioridad cola)
              ≡ de_prioridad prioridad j cola)
        × ((p : ℕ) → veces p (ordenar_cola prioridad cola) ≡ veces p cola)
  unfolding ordenar_cola
  ordenar_cola-Ordenada cola = (
    reencolar-Ordenada (suc (maxima_prioridad prioridad 0 cola)) 0 cola,
    (λ j. ordenar-de_prioridad j cola),
    λ p. omega (
      arith,
      veces-de_prioridad p cola,
      veces-de_prioridad p (ordenar_cola prioridad cola),
      ap (veces p) (ordenar-de_prioridad (prioridad p) cola),
    ),
  )
