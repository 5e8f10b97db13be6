-- ===== src/Fragments/Total.antt =====
-- The cutting loop ends, and its fragments follow one another without a gap, each inside one stick.
use tp_2026_1c_malloc_and_cr.Base.{
  ℕ, zero, suc, ◌+◌, ◌-◌, ◌≤◌, ◌<◌, ◌≡◌, refl, subst, Option, none, some, List, [], ◌∷◌, arith,
  u32_mod, add32, sub32,
}
use tp_2026_1c_malloc_and_cr.Fragments.{buscar_ms, bytes_a_copiar, con_fragmento, fragmentar}

module _ {A F : Type 0} (base limite : A → ℕ) (hacer : A → ℕ → ℕ → ℕ → F) where
  -- Every address below the total is held by the entry that the search finds.
  pub record Mapeado (total : ℕ) (ms : List A) : Type 0 where
    pub acotado : total < u32_mod
    pub ms_de :
        (dir : ℕ)
        → dir < total
        → (m : A) × (buscar_ms base limite hacer dir ms ≡ some m)
          × (base m ≤ dir)
          × (dir ≤ limite m)
          × (limite m < total)

  -- The fragments of the `n` bytes from `dir`, at the offset `o`: each lies in the stick that holds
  -- its first address, none is empty, and together they are the `n` bytes in order.
  pub data Tramos (ms : List A) : ℕ → ℕ → ℕ → List F → Type 0 where
    fin : {dir n o : ℕ} → n ≡ 0 → Tramos ms dir n o []
    tramo :
        {dir n o : ℕ} {fs : List F} (m : A) (k resto : ℕ)
        → buscar_ms base limite hacer dir ms ≡ some m
        → base m ≤ dir
        → 0 < k
        → dir + k ≤ suc (limite m)
        → n ≡ k + resto
        → Tramos ms (dir + k) resto (o + k) fs
        → Tramos ms dir n o (hacer m (dir - base m) k o ∷ fs)

  abbrev pub Fragmentado : List A → ℕ → ℕ → ℕ → Option (Option (List F)) → Type 0
  Fragmentado ms dir n o none = ⊥
  Fragmentado ms dir n o (some none) = ⊥
  Fragmentado ms dir n o (some (some fs)) = Tramos ms dir n o fs

  module _ {total : ℕ} {ms : List A} (v : Mapeado total ms) where
    -- `dl` and `sig` are the local and the next address as the source computes them.
    con_fragmento-Fragmentado :
        (dir n o k resto dl sig : ℕ) (m : A) (r : Option (Option (List F)))
        → dl ≡ dir - base m
        → sig ≡ dir + k
        → buscar_ms base limite hacer dir ms ≡ some m
        → base m ≤ dir
        → 0 < k
        → dir + k ≤ suc (limite m)
        → n ≡ k + resto
        → Fragmentado ms sig resto (o + k) r
        → Fragmentado ms dir n o (con_fragmento base limite hacer (hacer m dl k o) r)
    con_fragmento-Fragmentado dir n o k resto dl sig m none d s e b p l q h = h
    con_fragmento-Fragmentado dir n o k resto dl sig m (some none) d s e b p l q h = h
    con_fragmento-Fragmentado dir n o k resto dl sig m (some (some fs)) d s e b p l q h =
        rw d (tramo m k resto e b p l q (subst (λ x. Tramos ms x resto (o + k) fs) s h))

    -- Below the total the loop ends, never meets an address without a stick, and gives the fragments
    -- of the whole access in order.
    pub fragmentar-Fragmentado :
        (fuel dir n o : ℕ)
        → n ≤ fuel
        → dir + n ≤ total
        → Fragmentado ms dir n o (fragmentar base limite hacer fuel dir n o ms)
    unfolding fragmentar
    fragmentar-Fragmentado fuel dir zero o f l = fin refl
    fragmentar-Fragmentado zero dir (suc n) o f l = absurd (omega arith)
    fragmentar-Fragmentado (suc fuel) dir (suc n) o f l =
        let (m, found, b, d, t) = v.ms_de dir (omega arith) in
        let small = v.acotado in
        let k : ℕ = bytes_a_copiar base limite hacer dir (suc n) m in
        let facts : (0 < k) × (dir + k ≤ suc (limite m)) × (k ≤ suc n) = ground arith in
        let sigue : add32 dir k ≡ dir + k = omega arith in
        rw (found, fragmentar)
          (con_fragmento-Fragmentado dir (suc n) o k (suc n - k) (sub32 dir (base m)) (add32 dir k)
            m _ (omega arith) sigue found b facts.0 facts.1 (omega arith)
            (fragmentar-Fragmentado fuel (add32 dir k) (suc n - k) (o + k) (omega arith)
              (omega arith)))
