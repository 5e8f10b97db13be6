-- ===== src/Memory/Transfer/Tests.antt =====
-- A write of 20 bytes and its read on two sticks of 60 and 40 bytes, over the border between them.
use tp_2026_1c_malloc_and_cr.Base.{
  ℕ, ◌+◌, ◌≤◌, ◌<◌, u32_mod, ◌≡◌, ◌∙◌, ◌⊎◌, refl, sym, ap, subst, inl, inr, false, ◌&&◌, leb, ltb,
  ◌==◌, if◌then◌else◌, Bool-cases, none, some, List, [], ◌∷◌, arith,
}
use tp_2026_1c_malloc_and_cr.Stick.{Stick, copiar_de}
use tp_2026_1c_malloc_and_cr.Fragments.{buscar_ms}
use tp_2026_1c_malloc_and_cr.Fragments.Total.{Mapeado}
use tp_2026_1c_malloc_and_cr.Fragments.Store.{Sticks, Conectados}
use tp_2026_1c_malloc_and_cr.Memory.Types.{MsInfo, MsPos}
use tp_2026_1c_malloc_and_cr.Memory.Sticks.{buscar_ms_por_id, base_de, limite_de_ms, fragmento_de}
use tp_2026_1c_malloc_and_cr.Memory.Transfer.{caso_escritura_de_datos, caso_lectura_de_datos}
use tp_2026_1c_malloc_and_cr.Memory.Transfer.Flat.{
  IsConectada, byte_global, socket_ms, caso_lectura-escritura,
}

abbrev posicion_1 : MsPos
posicion_1 = record { id = 1; base_global = 0; limite_global = 59 }

abbrev posicion_2 : MsPos
posicion_2 = record { id = 2; base_global = 60; limite_global = 99 }

abbrev pub posiciones : List MsPos
posiciones = posicion_1 ∷ posicion_2 ∷ []

abbrev info_1 : MsInfo
info_1 = record { id = 1; tamano = 60; socket = 5 }

abbrev info_2 : MsInfo
info_2 = record { id = 2; tamano = 40; socket = 6 }

abbrev pub registrados : List MsInfo
registrados = info_1 ∷ info_2 ∷ []

abbrev pub conexiones : Sticks
conexiones s =
    if s == 5
    then some (record { tamano = 60; memoria = λ i. 7 })
    else (if s == 6 then some (record { tamano = 40; memoria = λ i. 9 }) else none)

cual :
    (a : ℕ) (m : MsPos)
    → buscar_ms base_de limite_de_ms fragmento_de a posiciones ≡ some m
    → ((posicion_1 ≡ m) × (a ≤ 59)) ⊎ ((posicion_2 ≡ m) × (60 ≤ a) × (a ≤ 99))
unfolding buscar_ms
cual a m e = elim (Bool-cases (leb a 59)) [
  | inl baja ↦ inl (ground arith, ground arith)
  | inr alta ↦ elim (Bool-cases (leb a 99)) [
    | inl dentro ↦ inr (ground arith, ground arith, ground arith)
    | inr fuera ↦ absurd (ground arith)
  ]
]

primero :
    (a : ℕ) → a ≤ 59 → buscar_ms base_de limite_de_ms fragmento_de a posiciones ≡ some posicion_1
unfolding buscar_ms
primero a h = ground arith

segundo :
    (a : ℕ)
    → 60 ≤ a
    → a ≤ 99
    → buscar_ms base_de limite_de_ms fragmento_de a posiciones ≡ some posicion_2
unfolding buscar_ms
segundo a h k = ground arith

pub posiciones-Mapeado : Mapeado base_de limite_de_ms fragmento_de 100 posiciones
posiciones-Mapeado = record {
  acotado = omega arith;
  ms_de = λ dir l. elim (Bool-cases (leb dir 59)) [
    | inl baja ↦ (posicion_1, primero dir (ground arith), omega arith, ground arith, omega arith)
    | inr alta ↦ (
      posicion_2,
      segundo dir (ground arith) (omega arith),
      ground arith,
      omega arith,
      omega arith,
    )
  ];
}

socket_1 : socket_ms registrados posicion_1 ≡ 5
unfolding buscar_ms_por_id
socket_1 = refl

socket_2 : socket_ms registrados posicion_2 ≡ 6
unfolding buscar_ms_por_id
socket_2 = refl

abbrev Presente : MsPos → Type 0
Presente m =
    (st : Stick) × (conexiones (socket_ms registrados m) ≡ some st)
    × (st.tamano < u32_mod)
    × (m.limite_global < m.base_global + st.tamano)

uno_en_linea : Presente posicion_1
uno_en_linea =
    (record { tamano = 60; memoria = λ i. 7 }, ap conexiones socket_1, omega arith, omega arith)

dos_en_linea : Presente posicion_2
dos_en_linea =
    (record { tamano = 40; memoria = λ i. 9 }, ap conexiones socket_2, omega arith, omega arith)

distintos :
    (m n : MsPos)
    → posicion_1 ≡ m
    → posicion_2 ≡ n
    → socket_ms registrados m ≡ socket_ms registrados n
    → ⊥
distintos m n e f s =
    let q : 5 ≡ 6 =
      sym socket_1
      ∙ ap (socket_ms registrados) e
      ∙ s
      ∙ sym (ap (socket_ms registrados) f)
      ∙ socket_2 in
    absurd (omega (arith, q))

posiciones-Conectados :
    Conectados base_de limite_de_ms fragmento_de (socket_ms registrados) 100 posiciones conexiones
posiciones-Conectados = record {
  mapeado = posiciones-Mapeado;
  estable = λ a b m e lo hi. elim (cual a m e) [
    | inl (uno, baja) ↦ primero b (subst (λ x. b ≤ x.limite_global) (sym uno) hi) ∙ ap some uno
    | inr (otro, alta, techo) ↦
        segundo b (subst (λ x. x.base_global ≤ b) (sym otro) lo)
          (subst (λ x. b ≤ x.limite_global) (sym otro) hi)
        ∙ ap some otro
  ];
  presente = λ a m e. elim (cual a m e) [
    | inl (uno, baja) ↦ subst Presente uno uno_en_linea
    | inr (otro, alta, techo) ↦ subst Presente otro dos_en_linea
  ];
  propio = λ a b m n e f s. elim (cual a m e) [
    | inl (uno, baja) ↦ elim (cual b n f) [
      | inl (uno', baja') ↦ sym uno ∙ uno'
      | inr (otro', alta', techo') ↦ absurd (distintos m n uno otro' s)
    ]
    | inr (otro, alta, techo) ↦ elim (cual b n f) [
      | inl (uno', baja') ↦ absurd (distintos n m uno' otro (sym s))
      | inr (otro', alta', techo') ↦ sym otro ∙ otro'
    ]
  ];
}

abbrev Registrado : MsPos → Type 0
Registrado m = (ms : MsInfo) × (buscar_ms_por_id m.id registrados ≡ some ms)

uno_en_lista : Registrado posicion_1
unfolding buscar_ms_por_id
uno_en_lista = (info_1, refl)

dos_en_lista : Registrado posicion_2
unfolding buscar_ms_por_id
dos_en_lista = (info_2, refl)

pub conexiones-IsConectada : IsConectada 100 registrados posiciones conexiones
conexiones-IsConectada = record {
  conectados = posiciones-Conectados;
  registrado = λ a m e. elim (cual a m e) [
    | inl (uno, baja) ↦ subst Registrado uno uno_en_lista
    | inr (otro, alta, techo) ↦ subst Registrado otro dos_en_lista
  ];
}

caso_lectura-escritura_example :
    (sticks' : Sticks) × (caso_escritura_de_datos registrados posiciones 50 20
        (λ i. 100 + i)
        conexiones
      ≡ some sticks')
    × (caso_lectura_de_datos registrados posiciones 50 20 sticks'
        ≡ some (some (copiar_de (λ i. 100 + i) 0 20)))
    × ((a : ℕ)
        → (leb 50 a && ltb a (50 + 20)) ≡ false
        → byte_global registrados sticks' posiciones a
          ≡ byte_global registrados conexiones posiciones a)
caso_lectura-escritura_example =
    caso_lectura-escritura 100 50 20 registrados posiciones
      (posiciones-Mapeado, (omega arith, (omega arith, tt))) (omega arith) (omega arith)
      (λ i. 100 + i) conexiones conexiones-IsConectada
