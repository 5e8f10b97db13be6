-- ===== src/Cpu/Mmu/Translation.antt =====
-- The MMU lets through exactly the accesses that lie in their segment, and the cutting of an access
-- covers it.
use tp_2026_1c_malloc_and_cr.Base.{
  ℕ, ◌+◌, ◌/◌, ◌%◌, ◌≤◌, ◌<◌, ◌≡◌, ◌⊎◌, subst, inl, inr, Bool-cases, Option-cases, Option, none,
  some, List, [], ◌∷◌, arith, ltb, ◌==◌, add32, sub32, u32_mod, All,
}
use tp_2026_1c_malloc_and_cr.Fragments.{bytes_iniciales}
use tp_2026_1c_malloc_and_cr.Fragments.Total.{Mapeado, Fragmentado, fragmentar-Fragmentado}
use tp_2026_1c_malloc_and_cr.Cpu.Mmu.{
  SegmentoCpu, MsConectado, buscar_segmento_cpu, mmu_traducir_direccion, base_conectado,
  limite_conectado, fragmento_cpu, fragmentar_acceso_memoria,
}

-- A segment with its limit at or above its base, below the last address.
abbrev pub IsSegmentoCpu : SegmentoCpu → Type 0
IsSegmentoCpu s = (s.base ≤ s.limite) × (s.limite + 1 < u32_mod)

buscar_segmento_cpu-All :
    (id : ℕ) (s : SegmentoCpu) (ss : List SegmentoCpu)
    → buscar_segmento_cpu id ss ≡ some s
    → All IsSegmentoCpu ss
    → IsSegmentoCpu s
unfolding buscar_segmento_cpu
buscar_segmento_cpu-All id s [] e h = absurd (cc)
buscar_segmento_cpu-All id s (x ∷ ss) e h = elim (Bool-cases (x.id_segmento == id)) [
  | inl same ↦ let este : x ≡ s = cc in subst IsSegmentoCpu este h.0
  | inr other ↦
      let rest : buscar_segmento_cpu id ss ≡ some s = cc in buscar_segmento_cpu-All id s ss rest h.1
]

-- What the answer says of an access of `tamano` bytes at `dir` in segments of at most `max` bytes.
abbrev pub Traducida : ℕ → ℕ → ℕ → List SegmentoCpu → Option ℕ → Type 0
Traducida max dir tamano tabla none =
    (buscar_segmento_cpu (dir / max) tabla ≡ none)
    ⊎ ((s : SegmentoCpu) × (buscar_segmento_cpu (dir / max) tabla ≡ some s)
        × (s.limite + 1 < s.base + dir % max + tamano))
Traducida max dir tamano tabla (some fisica) =
    (s : SegmentoCpu) × (buscar_segmento_cpu (dir / max) tabla ≡ some s)
    × (fisica ≡ s.base + dir % max)
    × (fisica + tamano ≤ s.limite + 1)

-- A translated access lies inside the segment that its address names, at the displacement it names;
-- a refused one names a segment that is not in the table, or would leave the segment. The segment
-- size is positive, it and the access are below 2³¹, and the segments of the table have limits at or
-- above their bases and below 2³² - 1.
pub mmu_traducir_direccion-Traducida :
    (max dir tamano : ℕ) (tabla : List SegmentoCpu)
    → 0 < max
    → max < 2147483648
    → tamano < 2147483648
    → All IsSegmentoCpu tabla
    → Traducida max dir tamano tabla (mmu_traducir_direccion max dir tamano tabla)
unfolding mmu_traducir_direccion
mmu_traducir_direccion-Traducida max dir tamano tabla positivo m t ok =
    let d : ℕ = dir % max in
    let chico : d < max = omega arith in
    elim (Option-cases (buscar_segmento_cpu (dir / max) tabla)) [
      | inl nada ↦ rw (nada, mmu_traducir_direccion) (inl nada)
      | inr (s, esta) ↦
          let (orden, cabe) = buscar_segmento_cpu-All (dir / max) s tabla esta ok in
          let real : add32 (sub32 s.limite s.base) 1 + s.base ≡ s.limite + 1 = omega arith in
          let fin : add32 d tamano ≡ d + tamano = omega arith in
          elim (Bool-cases (ltb (add32 (sub32 s.limite s.base) 1) (add32 d tamano))) [
            | inl excede ↦
                let pasa : s.limite + 1 < s.base + d + tamano = ground arith in
                rw (esta, mmu_traducir_direccion, excede) (inr (s, esta, pasa))
            | inr entra ↦
                let dentro : s.base + d + tamano ≤ s.limite + 1 = ground arith in
                let fisica : add32 s.base d ≡ s.base + d = omega arith in
                rw (esta, mmu_traducir_direccion, entra)
                  (s, esta, fisica, omega (arith, fisica, dentro))
          ]
    ]

-- With the sticks' positions known to the CPU, an access of less than 2³¹ bytes inside the memory ends
-- with its fragments: none is empty, each lies in the stick that holds its first address, and in
-- order, at the offsets they carry, they are the bytes of the access.
pub fragmentar_acceso_memoria-Fragmentado :
    (dir tamano total : ℕ) (conectados : List MsConectado)
    → Mapeado base_conectado limite_conectado fragmento_cpu total conectados
    → tamano < 2147483648
    → dir + tamano ≤ total
    → Fragmentado base_conectado limite_conectado fragmento_cpu conectados dir tamano 0
        (fragmentar_acceso_memoria dir tamano conectados)
unfolding fragmentar_acceso_memoria
fragmentar_acceso_memoria-Fragmentado dir tamano total conectados v corto dentro =
    let todos : bytes_iniciales tamano ≡ tamano = ground arith in
    rw todos (
      fragmentar-Fragmentado base_conectado limite_conectado fragmento_cpu v tamano dir tamano 0
        (omega arith) dentro)
