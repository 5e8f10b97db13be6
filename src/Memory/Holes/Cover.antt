-- ===== src/Memory/Holes/Cover.antt =====
-- Which addresses a list of holes covers, and how often: the measure by which memory is accounted.
use native.Mathlib.Nat.{add_comm}
use tp_2026_1c_malloc_and_cr.Base.{
  ℕ, suc, ◌+◌, ◌-◌, ◌≤◌, ◌<◌, ◌≡◌, ◌≢◌, refl, sym, ap, subst, ◌∙◌, ◌⊎◌, inl, inr, Bool-cases,
  Option-cases, ◌&&◌, none, some, List, [], ◌∷◌, ◌++◌, arith, leb, ltb, ◌==◌, if◌then◌else◌,
  u32_mod, add32, sub32, erase_at, get_elem?, sum_by, sum_by-append, sum_by-erase_at, sum_by-set,
  All, All-append, All-set, All-erase_at, All-get_elem?,
}
use tp_2026_1c_malloc_and_cr.Memory.Types.{Hueco}
use tp_2026_1c_malloc_and_cr.Memory.Holes.{
  limite_de, nuevo_hueco, agregar_hueco_sinmtx, agregar_hueco_ms, buscar_limite, hueco_consumido,
  consumir_hueco,
}
use tp_2026_1c_malloc_and_cr.Memory.Holes.Fit.{suma_huecos}

-- 1 if `a` is one of the `t` addresses from `b`, else 0.
abbrev pub cubre : ℕ → ℕ → ℕ → ℕ
cubre b t a = if leb b a && ltb a (b + t) then 1 else 0

abbrev pub cubre_huecos : List Hueco → ℕ → ℕ
cubre_huecos hs a = sum_by (λ h. cubre h.base h.tamano a) hs

-- A hole inside the first `total` addresses, with the limit that its base and size give.
abbrev pub IsHueco : ℕ → Hueco → Type 0
IsHueco total h = (h.base + h.tamano ≤ total) × (h.limite ≡ limite_de h.base h.tamano)

pub cubre-split : (b s t a : ℕ) → cubre b (s + t) a ≡ cubre b s a + cubre (b + s) t a
cubre-split b s t a = ground arith

cubre-join : (b s t c a : ℕ) → b + s ≡ c → cubre b (s + t) a ≡ cubre b s a + cubre c t a
cubre-join b s t c a e = ground arith

-- How a hole counts, for the lemmas on sums.
abbrev pub cubre_hueco : ℕ → Hueco → ℕ
cubre_hueco a h = cubre h.base h.tamano a

abbrev pub tamano_hueco : Hueco → ℕ
tamano_hueco h = h.tamano

buscar_limite-here :
    (buscado i k : ℕ) (h x : Hueco) (hs : List Hueco)
    → (if x.limite == buscado then some (i, x) else buscar_limite buscado (i + 1) hs) ≡ some (k, h)
    → ((x.limite ≡ buscado) × (i ≡ k) × (x ≡ h)) ⊎ (buscar_limite buscado (i + 1) hs ≡ some (k, h))
buscar_limite-here buscado i k h x hs e = ground arith

-- The hole that the loop of `agregar_hueco_ms` finds.
buscar_limite-found :
    (buscado i k : ℕ) (h : Hueco) (hs : List Hueco)
    → buscar_limite buscado i hs ≡ some (k, h)
    → (j : ℕ) × (k ≡ i + j) × (get_elem? hs j ≡ some h) × (h.limite ≡ buscado)
unfolding buscar_limite
buscar_limite-found buscado i k h [] e = absurd (cc)
buscar_limite-found buscado i k h (x ∷ hs) e = elim (buscar_limite-here buscado i k h x hs e) [
  | inl (lim, at, same) ↦
      (0, omega arith, ap some same, ap (λ (g : Hueco). g.limite) (sym same) ∙ lim)
  | inr later ↦
      let (j, at, got, lim) = buscar_limite-found buscado (i + 1) k h hs later in
      (suc j, omega arith, got, lim)
]

module _ (total : ℕ) (small : total < u32_mod) where
  -- What `consumir_hueco` leaves of a hole: its base and size, with no wrap-around.
  consumido-fields :
      (t : ℕ) (h : Hueco)
      → IsHueco total h
      → t ≤ h.tamano
      → ((hueco_consumido t h).base ≡ h.base + t) × ((hueco_consumido t h).tamano ≡ h.tamano - t)
  consumido-fields t h v l = omega arith

  consumido-IsHueco :
      (t : ℕ) (h : Hueco) → IsHueco total h → t ≤ h.tamano → IsHueco total (hueco_consumido t h)
  consumido-IsHueco t h v l = (omega arith, refl)

  pub consumir_hueco-All :
      (i : ℕ) (h : Hueco) (t : ℕ) (hs : List Hueco)
      → All (IsHueco total) hs
      → get_elem? hs i ≡ some h
      → t ≤ h.tamano
      → All (IsHueco total) (consumir_hueco i h t hs)
  unfolding consumir_hueco
  consumir_hueco-All i h t hs v e l = elim (Bool-cases ((hueco_consumido t h).tamano == 0)) [
    | inl done ↦ rw done (All-erase_at (IsHueco total) hs i v)
    | inr more ↦ rw more (
        All-set (IsHueco total) hs i _ v
          (consumido-IsHueco t h (All-get_elem? (IsHueco total) hs i h v e) l))
  ]

  resto-cubre :
      (t : ℕ) (h : Hueco) (a : ℕ)
      → IsHueco total h
      → t ≤ h.tamano
      → cubre (hueco_consumido t h).base (hueco_consumido t h).tamano a + cubre h.base t a
        ≡ cubre h.base h.tamano a
  resto-cubre t h a v l =
      let f = consumido-fields t h v l in
      let split = cubre-split h.base t (h.tamano - t) a in
      let whole : t + (h.tamano - t) ≡ h.tamano = omega arith in
      rw (f.0, f.1) (sym (rw whole at split ∙ add_comm _ _))

  -- Consuming takes exactly the first `t` addresses of the hole out of the free memory.
  pub consumir_hueco-cubre :
      (i : ℕ) (h : Hueco) (t : ℕ) (hs : List Hueco) (a : ℕ)
      → All (IsHueco total) hs
      → get_elem? hs i ≡ some h
      → t ≤ h.tamano
      → cubre_huecos (consumir_hueco i h t hs) a + cubre h.base t a ≡ cubre_huecos hs a
  unfolding consumir_hueco
  consumir_hueco-cubre i h t hs a v e l =
      let ok : IsHueco total h = All-get_elem? (IsHueco total) hs i h v e in
      let rest = resto-cubre t h a ok l in
      let f = consumido-fields t h ok l in
      elim (Bool-cases ((hueco_consumido t h).tamano == 0)) [
        | inl done ↦
            let same : t ≡ h.tamano = ground arith in
            rw done (rw same (sum_by-erase_at (cubre_hueco a) hs i h e))
        | inr more ↦
            rw more (omega (arith, rest, sum_by-set (cubre_hueco a) hs i h (hueco_consumido t h) e))
      ]

  pub consumir_hueco-suma :
      (i : ℕ) (h : Hueco) (t : ℕ) (hs : List Hueco)
      → All (IsHueco total) hs
      → get_elem? hs i ≡ some h
      → t ≤ h.tamano
      → suma_huecos (consumir_hueco i h t hs) + t ≡ suma_huecos hs
  unfolding consumir_hueco
  consumir_hueco-suma i h t hs v e l = ground (
    arith,
    consumido-fields t h (All-get_elem? (IsHueco total) hs i h v e) l,
    sum_by-erase_at tamano_hueco hs i h e,
    sum_by-set tamano_hueco hs i h (hueco_consumido t h) e,
  )

  -- The hole that `agregar_hueco_ms` finds ends where the new bytes begin.
  vecino :
      (base tamano : ℕ) (h : Hueco)
      → base + tamano ≤ total
      → IsHueco total h
      → h.limite ≡ sub32 base 1
      → (h.base + h.tamano ≡ base) × (add32 h.tamano tamano ≡ h.tamano + tamano)
  vecino base tamano h l v e = omega arith

  abbrev pub Absorbe : ℕ → ℕ → List Hueco → List Hueco → Type 0
  Absorbe base tamano hs hs' =
      All (IsHueco total) hs'
      × ((a : ℕ) → cubre_huecos hs' a ≡ cubre_huecos hs a + cubre base tamano a)
      × (suma_huecos hs' ≡ suma_huecos hs + tamano)

  agregar-Absorbe :
      (base tamano : ℕ) (hs : List Hueco)
      → All (IsHueco total) hs
      → base + tamano ≤ total
      → Absorbe base tamano hs (hs ++ (nuevo_hueco base tamano ∷ []))
  agregar-Absorbe base tamano hs v l = (
    All-append (IsHueco total) hs _ v ((l, refl), tt),
    (λ a. omega (arith, sum_by-append (cubre_hueco a) hs (nuevo_hueco base tamano ∷ []))),
    omega (arith, sum_by-append tamano_hueco hs (nuevo_hueco base tamano ∷ [])),
  )

  extender-Absorbe :
      (base tamano i : ℕ) (h : Hueco) (hs : List Hueco)
      → All (IsHueco total) hs
      → base + tamano ≤ total
      → get_elem? hs i ≡ some h
      → h.limite ≡ sub32 base 1
      → Absorbe base tamano hs (erase_at hs i ++ (nuevo_hueco h.base (add32 h.tamano tamano) ∷ []))
  extender-Absorbe base tamano i h hs v l got lim =
      let n = vecino base tamano h l (All-get_elem? (IsHueco total) hs i h v got) lim in
      let (ok, covers, sums) =
        agregar-Absorbe h.base (h.tamano + tamano) (erase_at hs i)
          (All-erase_at (IsHueco total) hs i v) (omega arith) in
      rw (n.1) (
        ok,
        (λ a. omega (
          arith,
          covers a,
          sum_by-erase_at (cubre_hueco a) hs i h got,
          cubre-join h.base h.tamano tamano base a n.0,
        )),
        omega (arith, sums, sum_by-erase_at tamano_hueco hs i h got),
      )

  -- The hole that ends where the new bytes begin gave way to one that has them as well; where there is
  -- no such hole, the new bytes are a hole of their own.
  abbrev pub Unido : ℕ → ℕ → List Hueco → List Hueco → Type 0
  Unido base tamano hs hs' =
      ((i : ℕ) × (h : Hueco) × (get_elem? hs i ≡ some h)
        × (h.limite ≡ sub32 base 1)
        × (hs' ≡ erase_at hs i ++ (nuevo_hueco h.base (h.tamano + tamano) ∷ [])))
      ⊎ (All (λ h. h.limite ≢ sub32 base 1) hs × (hs' ≡ hs ++ (nuevo_hueco base tamano ∷ [])))

  buscar_limite-none :
      (buscado i : ℕ) (hs : List Hueco)
      → buscar_limite buscado i hs ≡ none
      → All (λ h. h.limite ≢ buscado) hs
  unfolding buscar_limite
  buscar_limite-none buscado i [] e = tt
  buscar_limite-none buscado i (h ∷ hs) e = elim (Bool-cases (h.limite == buscado)) [
    | inl este ↦ absurd (cc)
    | inr otro ↦ (ground (arith, otro), buscar_limite-none buscado (i + 1) hs (cc))
  ]

  -- A new Memory Stick's bytes become free memory: they are joined to a hole that ends where they
  -- begin, if there is one, and else are a new hole. The holes then cover what they covered and the new
  -- bytes, and their sizes add up to as much more.
  pub agregar_hueco_ms-Absorbe :
      (base tamano : ℕ) (hs : List Hueco)
      → All (IsHueco total) hs
      → base + tamano ≤ total
      → Absorbe base tamano hs (agregar_hueco_ms base tamano hs)
        × Unido base tamano hs (agregar_hueco_ms base tamano hs)
  unfolding agregar_hueco_ms agregar_hueco_sinmtx
  agregar_hueco_ms-Absorbe base tamano hs v l =
      elim (Option-cases (buscar_limite (sub32 base 1) 0 hs)) [
        | inl missing ↦
            rw (missing, agregar_hueco_ms)
              (
                agregar-Absorbe base tamano hs v l,
                inr (buscar_limite-none (sub32 base 1) 0 hs missing, refl),
              )
        | inr ((k, h), found) ↦
            let (j, at, got, lim) = buscar_limite-found (sub32 base 1) 0 k h hs found in
            let at' : j ≡ k = omega arith in
            let esta : get_elem? hs k ≡ some h = subst (λ n. get_elem? hs n ≡ some h) at' got in
            let n = vecino base tamano h l (All-get_elem? (IsHueco total) hs k h v esta) lim in
            rw (found, agregar_hueco_ms)
              (
                extender-Absorbe base tamano k h hs v l esta lim,
                inl (k, h, esta, lim, ap (λ t. erase_at hs k ++ (nuevo_hueco h.base t ∷ [])) n.1),
              )
      ]
