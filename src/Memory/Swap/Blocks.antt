-- ===== src/Memory/Swap/Blocks.antt =====
-- The search for free blocks of Swap gives the first run of free blocks, marks exactly those, and
-- fails only if there is no such run.
use tp_2026_1c_malloc_and_cr.Base.{
  ℕ, zero, suc, ◌+◌, ◌≤◌, ◌<◌, ◌≡◌, refl, sym, ap, ◌∙◌, subst, inl, inr, Bool-cases, Option-cases,
  Bool, true, false, Option, none, some, List, [], ◌∷◌, ◌==◌, ltb, leb, ◌&&◌, arith, get_elem?, set,
  length, ◌<◌,
}
use tp_2026_1c_malloc_and_cr.Memory.Swap.{
  probar_bit, hay_espacio, marcar_bloques, buscar_desde, rondas_de, buscar_bloques,
  buscar_bloques_libres_swap,
}

-- The blocks `bit`, ..., `bit + n - 1` are free.
abbrev pub Libres : List Bool → ℕ → ℕ → Type 0
Libres bitmap bit n = (i : ℕ) → bit ≤ i → i < bit + n → get_elem? bitmap i ≡ some false

probar_bit-libre :
    (bitmap : List Bool) (i : ℕ) → probar_bit bitmap i ≡ false → get_elem? bitmap i ≡ some false
probar_bit-libre bitmap i e = ground arith

hay_espacio-Libres :
    (bitmap : List Bool) (bit n : ℕ) → hay_espacio bitmap bit n ≡ true → Libres bitmap bit n
unfolding hay_espacio
hay_espacio-Libres bitmap bit zero e = λ i l m. absurd (omega arith)
hay_espacio-Libres bitmap bit (suc n) e = elim (Bool-cases (probar_bit bitmap bit)) [
  | inl ocupado ↦ absurd (cc)
  | inr libre ↦
      let rest : hay_espacio bitmap (bit + 1) n ≡ true = cc in
      λ i l m. elim (Bool-cases (i == bit)) [
        | inl same ↦
            let q : i ≡ bit = ground arith in
            subst (λ k. get_elem? bitmap k ≡ some false) (sym q) (probar_bit-libre bitmap bit libre)
        | inr otro ↦ hay_espacio-Libres bitmap (bit + 1) n rest i (ground arith) (omega arith)
      ]
]

Libres-hay_espacio :
    (bitmap : List Bool) (bit n : ℕ) → Libres bitmap bit n → hay_espacio bitmap bit n ≡ true
unfolding hay_espacio
Libres-hay_espacio bitmap bit zero h = refl
Libres-hay_espacio bitmap bit (suc n) h =
    let aqui : get_elem? bitmap bit ≡ some false = h bit (omega arith) (omega arith) in
    let libre : probar_bit bitmap bit ≡ false = rw (aqui, probar_bit) in
    rw (libre, hay_espacio)
      (Libres-hay_espacio bitmap (bit + 1) n (λ i l m. h i (omega arith) (omega arith)))

-- A search from `bit` on finds the first run, or there is none.
abbrev Primera : List Bool → ℕ → ℕ → ℕ → Option ℕ → Type 0
Primera bitmap n bit rondas none = (b : ℕ) → bit ≤ b → b < bit + rondas → ¬ Libres bitmap b n
Primera bitmap n bit rondas (some b) =
    (bit ≤ b)
    × (b < bit + rondas)
    × Libres bitmap b n
    × ((c : ℕ) → bit ≤ c → c < b → ¬ Libres bitmap c n)

ninguna :
    (bitmap : List Bool) (n bit : ℕ) → hay_espacio bitmap bit n ≡ false → ¬ Libres bitmap bit n
ninguna bitmap n bit e h = let si = Libres-hay_espacio bitmap bit n h in absurd (cc)

Primera-next :
    (bitmap : List Bool) (n bit rondas : ℕ) (r : Option ℕ)
    → ¬ Libres bitmap bit n
    → Primera bitmap n (bit + 1) rondas r
    → Primera bitmap n bit (suc rondas) r
Primera-next bitmap n bit rondas none no_aqui h = λ b l m. elim (Bool-cases (b == bit)) [
  | inl same ↦ let q : b ≡ bit = ground arith in subst (λ k. ¬ Libres bitmap k n) (sym q) no_aqui
  | inr otro ↦ h b (ground arith) (omega arith)
]
Primera-next bitmap n bit rondas (some b) no_aqui (l, m, libres, antes) = (
  omega (arith, l),
  omega (arith, m),
  libres,
  λ c p q. elim (Bool-cases (c == bit)) [
    | inl same ↦ let e : c ≡ bit = ground arith in subst (λ k. ¬ Libres bitmap k n) (sym e) no_aqui
    | inr otro ↦ antes c (ground arith) q
  ],
)

buscar_desde-Primera :
    (bitmap : List Bool) (n bit rondas : ℕ)
    → Primera bitmap n bit rondas (buscar_desde bitmap n bit rondas)
unfolding buscar_desde
buscar_desde-Primera bitmap n bit zero = λ b l m. absurd (omega arith)
buscar_desde-Primera bitmap n bit (suc rondas) = elim (Bool-cases (hay_espacio bitmap bit n)) [
  | inl hay ↦
      rw (hay, buscar_desde)
        (
          omega arith,
          omega arith,
          hay_espacio-Libres bitmap bit n hay,
          λ c l m. absurd (omega arith),
        )
  | inr lleno ↦
      rw (lleno, buscar_desde)
        (Primera-next bitmap n bit rondas _ (ninguna bitmap n bit lleno)
          (buscar_desde-Primera bitmap n (bit + 1) rondas))
]

pub get_elem?-set {ℓ} :
    {A : Type ℓ}
    → (xs : List A) (i : ℕ) (x v : A) → get_elem? xs i ≡ some x
    → get_elem? (set xs i v) i ≡ some v
get_elem?-set [] i x v e = absurd (cc)
get_elem?-set (y ∷ xs) zero x v e = refl
get_elem?-set (y ∷ xs) (suc i) x v e = get_elem?-set xs i x v e

get_elem?-set_ne :
    (xs : List Bool) (i j : ℕ) (v : Bool)
    → (j == i) ≡ false
    → get_elem? (set xs i v) j ≡ get_elem? xs j
get_elem?-set_ne [] i j v n = refl
get_elem?-set_ne (y ∷ xs) zero zero v n = absurd (cc)
get_elem?-set_ne (y ∷ xs) zero (suc j) v n = refl
get_elem?-set_ne (y ∷ xs) (suc i) zero v n = refl
get_elem?-set_ne (y ∷ xs) (suc i) (suc j) v n = get_elem?-set_ne xs i j v (ground arith)

-- Marking changes no bit outside the run.
marcar-fuera :
    (bitmap : List Bool) (bit n i : ℕ)
    → (leb bit i && ltb i (bit + n)) ≡ false
    → get_elem? (marcar_bloques bitmap bit n) i ≡ get_elem? bitmap i
unfolding marcar_bloques
marcar-fuera bitmap bit zero i f = refl
marcar-fuera bitmap bit (suc n) i f =
    marcar-fuera (set bitmap bit true) (bit + 1) n i (ground arith)
    ∙ get_elem?-set_ne bitmap bit i true (ground arith)

marcar-dentro :
    (bitmap : List Bool) (bit n : ℕ)
    → Libres bitmap bit n
    → (i : ℕ) → bit ≤ i
    → i < bit + n
    → get_elem? (marcar_bloques bitmap bit n) i ≡ some true
unfolding marcar_bloques
marcar-dentro bitmap bit zero h i l m = absurd (omega arith)
marcar-dentro bitmap bit (suc n) h i l m = elim (Bool-cases (i == bit)) [
  | inl same ↦
      let q : i ≡ bit = ground arith in
      marcar-fuera (set bitmap bit true) (bit + 1) n i (ground arith)
      ∙ subst (λ k. get_elem? (set bitmap bit true) k ≡ some true) (sym q)
          (get_elem?-set bitmap bit false true (h bit (omega arith) (omega arith)))
  | inr otro ↦
      marcar-dentro (set bitmap bit true) (bit + 1) n
        (λ j p r.
          get_elem?-set_ne bitmap bit j true (ground arith) ∙ h j (omega arith) (omega arith))
        i (ground arith) (omega arith)
]

-- What the search and its marks must be for `n` blocks.
abbrev pub Asignados : ℕ → List Bool → Option ℕ × List Bool → Type 0
Asignados n bitmap (none, bitmap') =
    (bitmap' ≡ bitmap) × ((b : ℕ) → b + n ≤ length bitmap → ¬ Libres bitmap b n)
Asignados n bitmap (some b, bitmap') =
    (b + n ≤ length bitmap)
    × Libres bitmap b n
    × ((c : ℕ) → c < b → ¬ Libres bitmap c n)
    × ((i : ℕ) → b ≤ i → i < b + n → get_elem? bitmap' i ≡ some true)
    × ((i : ℕ) → (leb b i && ltb i (b + n)) ≡ false → get_elem? bitmap' i ≡ get_elem? bitmap i)
    × (length bitmap' ≡ length bitmap)

pub Asignados-length :
    (n b : ℕ) (bitmap bitmap' : List Bool)
    → Asignados n bitmap (some b, bitmap')
    → length bitmap' ≡ length bitmap
Asignados-length n b bitmap bitmap' (dentro, libres, primera, marcados, otros, largo) = largo

length-set : (xs : List Bool) (i : ℕ) (v : Bool) → length (set xs i v) ≡ length xs
length-set [] i v = refl
length-set (x ∷ xs) zero v = refl
length-set (x ∷ xs) (suc i) v = ap suc (length-set xs i v)

length-marcar :
    (bitmap : List Bool) (bit n : ℕ) → length (marcar_bloques bitmap bit n) ≡ length bitmap
unfolding marcar_bloques
length-marcar bitmap bit zero = refl
length-marcar bitmap bit (suc n) =
    length-marcar (set bitmap bit true) (bit + 1) n ∙ length-set bitmap bit true

buscar_bloques-Asignados :
    (necesarios : ℕ) (bitmap : List Bool)
    → Asignados necesarios bitmap (buscar_bloques necesarios bitmap)
unfolding buscar_bloques
buscar_bloques-Asignados n bitmap =
    let rondas : ℕ = rondas_de (length bitmap) n in
    let primera = buscar_desde-Primera bitmap n 0 rondas in
    elim (Option-cases (buscar_desde bitmap n 0 rondas)) [
      | inl nada ↦
          let h = subst (Primera bitmap n 0 rondas) nada primera in
          rw (nada, buscar_bloques) (refl, λ b l. h b (omega arith) (omega arith))
      | inr (b, hay) ↦
          let (l, m, libres, antes) = subst (Primera bitmap n 0 rondas) hay primera in
          rw (hay, buscar_bloques)
            (
              omega (arith, m),
              libres,
              (λ c p. antes c (omega arith) p),
              marcar-dentro bitmap b n libres,
              (λ i f. marcar-fuera bitmap b n i f),
              length-marcar bitmap b n,
            )
    ]

-- The result of the search: where there is none, more blocks are needed than there are.
abbrev pub Buscados : ℕ → List Bool → Option (Option ℕ × List Bool) → Type 0
Buscados n bitmap none = length bitmap < n
Buscados n bitmap (some r) = (n ≤ length bitmap) × Asignados n bitmap r

-- The search for blocks of Swap gives the first run of as many free blocks as are asked for, inside
-- the bitmap, marks exactly these as taken, and fails, marking none, only if there is no such run. Only
-- where more blocks are asked for than the bitmap has does it read past its end.
pub buscar_bloques_libres_swap-Buscados :
    (necesarios : ℕ) (bitmap : List Bool)
    → Buscados necesarios bitmap (buscar_bloques_libres_swap necesarios bitmap)
unfolding buscar_bloques_libres_swap
buscar_bloques_libres_swap-Buscados n bitmap = elim (Bool-cases (ltb (length bitmap) n)) [
  | inl pasa ↦ rw (pasa, buscar_bloques_libres_swap) (ground (arith, pasa))
  | inr cabe ↦
      rw (cabe, buscar_bloques_libres_swap)
        (ground (arith, cabe), buscar_bloques-Asignados n bitmap)
]
