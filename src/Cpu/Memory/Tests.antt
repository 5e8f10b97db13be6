-- ===== src/Cpu/Memory/Tests.antt =====
-- The memory instructions on two sticks of 60 and 40 bytes, over the border between them.
use tp_2026_1c_malloc_and_cr.Base.{
  ℕ, ◌+◌, ◌≤◌, ◌<◌, u32_mod, ◌≡◌, ◌∙◌, ◌⊎◌, refl, sym, ap, subst, inl, inr, true, false, ◌&&◌, leb,
  ltb, ◌==◌, if◌then◌else◌, Bool-cases, none, some, List, [], ◌∷◌, arith,
}
use tp_2026_1c_malloc_and_cr.Stick.{Stick, procesar_lectura, copiar_a}
use tp_2026_1c_malloc_and_cr.Fragments.{buscar_ms, fragmentar}
use tp_2026_1c_malloc_and_cr.Fragments.Store.{Sticks}
use tp_2026_1c_malloc_and_cr.Memory.Processes.{registros_en_cero}
use tp_2026_1c_malloc_and_cr.Cpu.Registers.{
  r_ebx, es_registro_8bits, obtener_registro, leer_valor_registro, escribir,
}
use tp_2026_1c_malloc_and_cr.Cpu.Mmu.{
  SegmentoCpu, MsConectado, mmu_traducir_direccion, base_conectado, limite_conectado, fragmento_cpu,
  fragmentar_acceso_memoria,
}
use tp_2026_1c_malloc_and_cr.Cpu.Contexts.{ContextoCpu}
use tp_2026_1c_malloc_and_cr.Cpu.Memory.{
  Cpu, tamanio_registro, ejecutar_mov_in, ejecutar_mov_out, ejecutar_copy_mem,
}
use tp_2026_1c_malloc_and_cr.Cpu.Memory.Transfer.{IsConectada, byte_global}
use tp_2026_1c_malloc_and_cr.Cpu.Memory.Moves.{ejecutar_mov_in-out, ejecutar_copy_mem_uno}

abbrev stick_1 : MsConectado
stick_1 = record { id = 1; socket = 5; base_global = 0; limite_global = 59 }

abbrev stick_2 : MsConectado
stick_2 = record { id = 2; socket = 6; base_global = 60; limite_global = 99 }

abbrev dos : List MsConectado
dos = stick_1 ∷ stick_2 ∷ []

abbrev conexiones : Sticks
conexiones s =
    if s == 5
    then some (record { tamano = 60; memoria = λ i. 7 })
    else (if s == 6 then some (record { tamano = 40; memoria = λ i. 9 }) else none)

cual :
    (a : ℕ) (m : MsConectado)
    → buscar_ms base_conectado limite_conectado fragmento_cpu a dos ≡ some m
    → ((stick_1 ≡ m) × (a ≤ 59)) ⊎ ((stick_2 ≡ m) × (60 ≤ a) × (a ≤ 99))
unfolding buscar_ms
cual a m e = elim (Bool-cases (leb a 59)) [
  | inl baja ↦ inl (ground arith, ground arith)
  | inr alta ↦ elim (Bool-cases (leb a 99)) [
    | inl dentro ↦ inr (ground arith, ground arith, ground arith)
    | inr fuera ↦ absurd (ground arith)
  ]
]

primero :
    (a : ℕ) → a ≤ 59 → buscar_ms base_conectado limite_conectado fragmento_cpu a dos ≡ some stick_1
unfolding buscar_ms
primero a h = ground arith

segundo :
    (a : ℕ)
    → 60 ≤ a
    → a ≤ 99
    → buscar_ms base_conectado limite_conectado fragmento_cpu a dos ≡ some stick_2
unfolding buscar_ms
segundo a h k = ground arith

conectado :
    (t b : ℕ) (x m : MsConectado)
    → x ≡ m
    → conexiones x.socket ≡ some (record { tamano = t; memoria = λ i. b })
    → t < u32_mod
    → x.limite_global < x.base_global + t
    → (st : Stick) × (conexiones m.socket ≡ some st)
      × (st.tamano < u32_mod)
      × (m.limite_global < m.base_global + st.tamano)
conectado t b x m e s chico cabe =
    subst
      (λ y.
        (st : Stick) × (conexiones y.socket ≡ some st)
        × (st.tamano < u32_mod)
        × (y.limite_global < y.base_global + st.tamano))
      e (record { tamano = t; memoria = λ i. b }, s, chico, cabe)

distintos :
    (x y m n : MsConectado) → x ≡ m → y ≡ n → m.socket ≡ n.socket → ¬ (x.socket ≡ y.socket) → ⊥
distintos x y m n e f s d = d (ap (λ z. z.socket) e ∙ s ∙ sym (ap (λ z. z.socket) f))

conexiones-IsConectada : IsConectada 100 dos conexiones
conexiones-IsConectada = record {
  mapeado = record {
    acotado = omega arith;
    ms_de = λ dir l. elim (Bool-cases (leb dir 59)) [
      | inl baja ↦ (stick_1, primero dir (ground arith), omega arith, ground arith, omega arith)
      | inr alta ↦ (
        stick_2,
        segundo dir (ground arith) (omega arith),
        ground arith,
        omega arith,
        omega arith,
      )
    ];
  };
  estable = λ a b m e lo hi. elim (cual a m e) [
    | inl (uno, baja) ↦ primero b (subst (λ x. b ≤ x.limite_global) (sym uno) hi) ∙ ap some uno
    | inr (otro, alta, techo) ↦
        segundo b (subst (λ x. x.base_global ≤ b) (sym otro) lo)
          (subst (λ x. b ≤ x.limite_global) (sym otro) hi)
        ∙ ap some otro
  ];
  presente = λ a m e. elim (cual a m e) [
    | inl (uno, baja) ↦ conectado 60 7 stick_1 m uno refl (omega arith) (omega arith)
    | inr (otro, alta, techo) ↦ conectado 40 9 stick_2 m otro refl (omega arith) (omega arith)
  ];
  propio = λ a b m n e f s. elim (cual a m e) [
    | inl (uno, baja) ↦ elim (cual b n f) [
      | inl (uno', baja') ↦ sym uno ∙ uno'
      | inr (otro', alta', techo') ↦
          absurd (distintos stick_1 stick_2 m n uno otro' s (λ h. omega arith))
    ]
    | inr (otro, alta, techo) ↦ elim (cual b n f) [
      | inl (uno', baja') ↦
          absurd (distintos stick_2 stick_1 m n otro uno' s (λ h. absurd (omega arith)))
      | inr (otro', alta', techo') ↦ sym otro ∙ otro'
    ]
  ];
}

abbrev tabla : List SegmentoCpu
tabla = record { id_segmento = 0; base = 50; limite = 79; memory_stick_id = 0 } ∷ []

abbrev contexto : ContextoCpu
contexto = record {
  pid = 7;
  registros = record registros_en_cero { eax = 1000000; ax = 1; si = 3; di = 8 };
  tabla_segmentos = tabla;
}

abbrev cpu : Cpu
cpu = record { segment_max_size = 64; sockets_memory_sticks = dos; sticks = conexiones }

ebx : obtener_registro "EBX" ≡ some r_ebx
unfolding obtener_registro
ebx = refl

anchos : es_registro_8bits "EBX" ≡ es_registro_8bits "EAX"
unfolding es_registro_8bits
anchos = refl

eax_corto :
    leer_valor_registro "EAX" contexto.registros
    < (if es_registro_8bits "EAX" then 256 else 4294967296)
unfolding leer_valor_registro obtener_registro es_registro_8bits
eax_corto = omega arith

traducida : mmu_traducir_direccion 64 8 (tamanio_registro "EAX") tabla ≡ some 58
unfolding mmu_traducir_direccion es_registro_8bits
traducida = refl

dentro : 58 + tamanio_registro "EAX" ≤ 100
unfolding es_registro_8bits
dentro = omega arith

ejecutar_mov_in-out_example :
    (sticks' : Sticks) × (ejecutar_mov_out "EAX" contexto cpu
      ≡ some (true, record cpu { sticks = sticks' }))
    × ((c' : ContextoCpu)
        → c'.registros.si ≡ contexto.registros.di
        → c'.tabla_segmentos ≡ contexto.tabla_segmentos
        → ejecutar_mov_in "EBX" c' (record cpu { sticks = sticks' })
          ≡ some (
            true,
            record c' {
              registros =
                  escribir r_ebx (leer_valor_registro "EAX" contexto.registros) c'.registros;
            },
          ))
    × ((a : ℕ)
        → (leb 58 a && ltb a (58 + tamanio_registro "EAX")) ≡ false
        → byte_global sticks' dos a ≡ byte_global conexiones dos a)
ejecutar_mov_in-out_example =
    ejecutar_mov_in-out "EAX" "EBX" r_ebx contexto 100 58 cpu conexiones-IsConectada ebx anchos
      eax_corto traducida dentro

un_byte : leer_valor_registro "AX" contexto.registros ≡ 1
unfolding leer_valor_registro obtener_registro
un_byte = refl

origen : mmu_traducir_direccion 64 3 1 tabla ≡ some 53
unfolding mmu_traducir_direccion
origen = refl

destino : mmu_traducir_direccion 64 8 1 tabla ≡ some 58
unfolding mmu_traducir_direccion
destino = refl

ejecutar_copy_mem_uno_example :
    (sticks' : Sticks) × (ejecutar_copy_mem (λ i. 0) (λ i. 0) "AX" contexto cpu
      ≡ some (true, record cpu { sticks = sticks' }))
    × (byte_global sticks' dos 58 ≡ 1)
    × ((a : ℕ) → (a ≡ 58) ⊎ (byte_global sticks' dos a ≡ byte_global conexiones dos a))
ejecutar_copy_mem_uno_example =
    ejecutar_copy_mem_uno (λ i. 0) (λ i. 0) "AX" contexto 100 53 58 cpu conexiones-IsConectada
      un_byte origen destino (omega arith) (omega arith)

lee_sobre_el_borde :
    ejecutar_mov_in "EBX" (record contexto { registros = record registros_en_cero { si = 8 } }) cpu
    ≡ some
        (true, record contexto { registros = record registros_en_cero { si = 8; ebx = 151586567 } })
unfolding ejecutar_mov_in obtener_registro es_registro_8bits mmu_traducir_direccion
    fragmentar_acceso_memoria buscar_ms fragmentar procesar_lectura copiar_a
lee_sobre_el_borde = refl
