-- ===== src/Fragments/Store.antt =====
-- The Memory Sticks behind an access: a fragment is read or written at its stick, and the bytes of all
-- sticks are one address space.
use tp_2026_1c_malloc_and_cr.Base.{
  ℕ, zero, suc, ◌+◌, ◌-◌, ◌≤◌, ◌<◌, ◌≡◌, ◌≢◌, ◌∙◌, refl, sym, ap, subst, true, false, ◌&&◌, inl,
  inr, Bool-cases, Option, none, some, List, [], ◌∷◌, ◌++◌, length, leb, ltb, ◌==◌, ==_iff,
  if◌then◌else◌, u32_mod, arith,
}
use tp_2026_1c_malloc_and_cr.Stick.{
  Stick, copiar_de, copiar_a, fuera_de_limites, procesar_lectura, procesar_escritura,
}
use tp_2026_1c_malloc_and_cr.Stick.Access.{copiar_a-fuera}
use tp_2026_1c_malloc_and_cr.Fragments.{buscar_ms}
use tp_2026_1c_malloc_and_cr.Fragments.Total.{Mapeado}

-- The stick at the other end of a socket, if the connection is open.
abbrev pub Sticks : Type 0
Sticks = ℕ → Option Stick

abbrev pub poner_stick : ℕ → Stick → Sticks → Sticks
poner_stick socket st sticks s = if s == socket then some st else sticks s

-- `memcpy` and a read of bytes, one after the other.
pub copiar_de-append :
    (f : ℕ → ℕ) (dir k r : ℕ)
    → copiar_de f dir (k + r) ≡ copiar_de f dir k ++ copiar_de f (dir + k) r
unfolding copiar_de
copiar_de-append f dir zero r =
    let izq : zero + r ≡ r = omega arith in
    let der : dir + zero ≡ dir = omega arith in rw (izq, der)
copiar_de-append f dir (suc k) r =
    let izq : suc k + r ≡ suc (k + r) = omega arith in
    let der : dir + suc k ≡ (dir + 1) + k = omega arith in
    rw (izq, der, copiar_de) (ap (λ l. f dir ∷ l) (copiar_de-append f (dir + 1) k r))

pub copiar_a-append :
    (f : ℕ → ℕ) (dir : ℕ) (xs ys : List ℕ)
    → copiar_a f dir (xs ++ ys) ≡ copiar_a (copiar_a f dir xs) (dir + length xs) ys
unfolding copiar_a
copiar_a-append f dir [] ys = let der : dir + zero ≡ dir = omega arith in rw der
copiar_a-append f dir (x ∷ xs) ys =
    let der : dir + suc (length xs) ≡ (dir + 1) + length xs = omega arith in
    rw der (copiar_a-append (λ i. if i == dir then x else f i) (dir + 1) xs ys)

pub length-copiar_de : (f : ℕ → ℕ) (dir n : ℕ) → length (copiar_de f dir n) ≡ n
unfolding copiar_de
length-copiar_de f dir zero = refl
length-copiar_de f dir (suc n) = ap suc (length-copiar_de f (dir + 1) n)

-- Only the bytes that are read or written matter, and their distance.
pub copiar_de_ext :
    (f g : ℕ → ℕ) (d e n : ℕ)
    → ((i : ℕ) → i < n → f (d + i) ≡ g (e + i))
    → copiar_de f d n ≡ copiar_de g e n
unfolding copiar_de
copiar_de_ext f g d e zero h = refl
copiar_de_ext f g d e (suc n) h =
    let primero : f d ≡ g e =
      subst (λ x. f x ≡ g e) (omega arith)
        (subst (λ y. f (d + 0) ≡ g y) (omega arith) (h 0 (omega arith))) in
    let resto : copiar_de f (d + 1) n ≡ copiar_de g (e + 1) n =
      copiar_de_ext f g (d + 1) (e + 1) n (λ i l.
        let izq : d + 1 + i ≡ d + suc i = omega arith in
        let der : e + 1 + i ≡ e + suc i = omega arith in rw (izq, der) (h (suc i) (omega arith))) in
    rw (primero, resto)

pub copiar_a_ext :
    (f g : ℕ → ℕ) (d e a b : ℕ) (datos : List ℕ)
    → d + b ≡ e + a
    → f a ≡ g b
    → copiar_a f d datos a ≡ copiar_a g e datos b
unfolding copiar_a
copiar_a_ext f g d e a b [] h q = q
copiar_a_ext f g d e a b (x ∷ xs) h q =
    copiar_a_ext (λ i. if i == d then x else f i) (λ i. if i == e then x else g i) (d + 1) (e + 1) a
      b xs (omega arith)
      (elim (Bool-cases (a == d)) [
        | inl si ↦ let otro : (b == e) ≡ true = ground arith in rw (si, otro)
        | inr lejos ↦ let otro : (b == e) ≡ false = ground arith in rw (lejos, otro) q
      ])

-- A byte that was copied.
pub copiar_a-copiar_de :
    (f g : ℕ → ℕ) (o dir n i : ℕ) → i < n → copiar_a f o (copiar_de g dir n) (o + i) ≡ g (dir + i)
unfolding copiar_a copiar_de
copiar_a-copiar_de f g o dir zero i l = absurd (omega arith)
copiar_a-copiar_de f g o dir (suc n) zero l =
    let aqui : o + 0 ≡ o = omega arith in
    let alli : dir + 0 ≡ dir = omega arith in
    let mismo : (o == o) ≡ true = ground arith in
    rw (
      aqui,
      alli,
      copiar_a-fuera (λ j. if j == o then g dir else f j) (o + 1) o (copiar_de g (dir + 1) n)
          (ground arith),
      mismo,
    )
copiar_a-copiar_de f g o dir (suc n) (suc i) l =
    let aqui : o + suc i ≡ o + 1 + i = omega arith in
    let alli : dir + suc i ≡ dir + 1 + i = omega arith in
    rw (aqui, alli)
      (copiar_a-copiar_de (λ j. if j == o then g dir else f j) g (o + 1) (dir + 1) n i
        (omega arith))

-- What was copied reads back.
pub copiar_ida_y_vuelta :
    (f g : ℕ → ℕ) (o dir n : ℕ)
    → copiar_de (copiar_a f o (copiar_de g dir n)) o n ≡ copiar_de g dir n
copiar_ida_y_vuelta f g o dir n =
    copiar_de_ext (copiar_a f o (copiar_de g dir n)) g o dir n
      (λ i l. copiar_a-copiar_de f g o dir n i l)

module _ {A F : Type 0} (base limite : A → ℕ) (hacer : A → ℕ → ℕ → ℕ → F) (socket_de : A → ℕ) where
  abbrev byte_local : ℕ → ℕ → Option Stick → ℕ
  byte_local b a none = 0
  byte_local b a (some st) = st.memoria (a - b)

  abbrev byte_en : Sticks → ℕ → Option A → ℕ
  byte_en sticks a none = 0
  byte_en sticks a (some m) = byte_local (base m) a (sticks (socket_de m))

  -- The byte at a global address.
  abbrev pub byte_de : Sticks → List A → ℕ → ℕ
  byte_de sticks ms a = byte_en sticks a (buscar_ms base limite hacer a ms)

  -- Every stick of the list is connected and has the bytes of its range, and no two share a socket or
  -- an address.
  pub record Conectados (total : ℕ) (ms : List A) (sticks : Sticks) : Type 0 where
    pub mapeado : Mapeado base limite hacer total ms
    pub estable :
        (a b : ℕ) (m : A)
        → buscar_ms base limite hacer a ms ≡ some m
        → base m ≤ b
        → b ≤ limite m
        → buscar_ms base limite hacer b ms ≡ some m
    pub presente :
        (a : ℕ) (m : A)
        → buscar_ms base limite hacer a ms ≡ some m
        → (st : Stick) × (sticks (socket_de m) ≡ some st)
          × (st.tamano < u32_mod)
          × (limite m < base m + st.tamano)
    pub propio :
        (a b : ℕ) (m n : A)
        → buscar_ms base limite hacer a ms ≡ some m
        → buscar_ms base limite hacer b ms ≡ some n
        → socket_de m ≡ socket_de n
        → m ≡ n

  buscar_ms-rango :
      (a : ℕ) (ms : List A) (m : A)
      → buscar_ms base limite hacer a ms ≡ some m
      → (base m ≤ a) × (a ≤ limite m)
  unfolding buscar_ms
  buscar_ms-rango a [] m e = absurd (cc)
  buscar_ms-rango a (x ∷ xs) m e = elim (Bool-cases (leb (base x) a && leb a (limite x))) [
    | inl si ↦
        let este : x ≡ m = cc in
        let rango : (base x ≤ a) × (a ≤ limite x) = ground arith in
        subst (λ y. (base y ≤ a) × (a ≤ limite y)) este rango
    | inr fuera ↦ buscar_ms-rango a xs m (cc)
  ]

  module _ {total : ℕ} {ms : List A} {sticks : Sticks} (v : Conectados total ms sticks) where
    byte_de_local :
        (dir a : ℕ) (m : A) (st : Stick)
        → buscar_ms base limite hacer dir ms ≡ some m
        → sticks (socket_de m) ≡ some st
        → base m ≤ a
        → a ≤ limite m
        → byte_de sticks ms a ≡ st.memoria (a - base m)
    byte_de_local dir a m st e s b l = rw (v.estable dir a m e b l, s)

    -- A fragment is read: its bytes are those of the address space.
    pub leer_tramo :
        (dir k : ℕ) (m : A)
        → buscar_ms base limite hacer dir ms ≡ some m
        → base m ≤ dir
        → dir + k ≤ suc (limite m)
        → (st : Stick) × (sticks (socket_de m) ≡ some st)
          × (procesar_lectura (dir - base m) k st ≡ some (copiar_de (byte_de sticks ms) dir k))
    unfolding procesar_lectura
    leer_tramo dir k m e b l =
        let (st, s, chico, cabe) = v.presente dir m e in
        let dentro : fuera_de_limites st (dir - base m) k ≡ false = ground arith in
        (
          st,
          s,
          rw dentro (
              ap some (
                copiar_de_ext st.memoria (byte_de sticks ms) (dir - base m) dir k (λ i c.
                  let local : dir - base m + i ≡ dir + i - base m = omega arith in
                  rw local
                    (sym (byte_de_local dir (dir + i) m st e s (omega arith) (omega arith)))))),
        )

    -- A fragment is written: the bytes of the address space change there and nowhere else.
    module _ (dir : ℕ) (m : A) (datos : List ℕ) (e : buscar_ms base limite hacer dir ms ≡ some m)
        (b : base m ≤ dir) (l : dir + length datos ≤ suc (limite m)) where
      abbrev stick : Stick
      stick = (v.presente dir m e).0

      abbrev stick_escrito : Stick
      stick_escrito = record stick { memoria = copiar_a stick.memoria (dir - base m) datos }

      abbrev pub escritos : Sticks
      escritos = poner_stick (socket_de m) stick_escrito sticks

      en_otro :
          (a : ℕ)
          → ((n : A) → buscar_ms base limite hacer a ms ≡ some n → socket_de n ≢ socket_de m)
          → byte_de sticks ms a ≡ copiar_a (byte_de sticks ms) dir datos a
      en_otro a otro = elim (Bool-cases (leb dir a && ltb a (dir + length datos))) [
        | inl dentro ↦
            let aqui : buscar_ms base limite hacer a ms ≡ some m =
              v.estable dir a m e (ground arith) (ground arith) in
            absurd (otro m aqui refl)
        | inr fuera ↦ sym (copiar_a-fuera (byte_de sticks ms) dir a datos fuera)
      ]

      byte_escrito :
          (a : ℕ) (o : Option A)
          → buscar_ms base limite hacer a ms ≡ o
          → byte_en escritos a o ≡ copiar_a (byte_de sticks ms) dir datos a
      byte_escrito a none q =
          let viejo : byte_de sticks ms a ≡ 0 = rw q in sym viejo ∙ en_otro a (λ n k s. cc)
      byte_escrito a (some n) q = elim (Bool-cases (socket_de n == socket_de m)) [
        | inl mismo ↦
            let igual : m ≡ n =
              v.propio dir a m n e q (sym ((==_iff (socket_de n) (socket_de m)).0 mismo)) in
            let aqui : buscar_ms base limite hacer a ms ≡ some m = q ∙ ap some (sym igual) in
            let (bajo, alto) = buscar_ms-rango a ms m aqui in
            let propio : (socket_de m == socket_de m) ≡ true = ground arith in
            subst
              (λ x.
                byte_local (base x) a (escritos (socket_de x))
                ≡ copiar_a (byte_de sticks ms) dir datos a)
              igual
              (rw propio (
                copiar_a_ext stick.memoria (byte_de sticks ms) (dir - base m) dir (a - base m) a
                  datos (omega arith)
                  (sym (byte_de_local dir a m stick e (v.presente dir m e).1 bajo alto))))
        | inr distinto ↦
            let viejo : byte_de sticks ms a ≡ byte_local (base n) a (sticks (socket_de n)) = rw q in
            rw distinto (
              sym viejo
              ∙ en_otro a (λ k w s.
                let igual : n ≡ k = cc in
                let socket : socket_de n ≡ socket_de m = ap socket_de igual ∙ s in
                absurd (ground arith)))
      ]

      presente_escrito :
          (a : ℕ) (n : A)
          → buscar_ms base limite hacer a ms ≡ some n
          → (st : Stick) × (escritos (socket_de n) ≡ some st)
            × (st.tamano < u32_mod)
            × (limite n < base n + st.tamano)
      presente_escrito a n q = elim (Bool-cases (socket_de n == socket_de m)) [
        | inl mismo ↦
            let igual : m ≡ n =
              v.propio dir a m n e q (sym ((==_iff (socket_de n) (socket_de m)).0 mismo)) in
            let (st, s, chico, cabe) = v.presente dir m e in
            (stick_escrito, rw mismo, chico, subst (λ x. limite x < base x + st.tamano) igual cabe)
        | inr distinto ↦
            let (st, s, chico, cabe) = v.presente a n q in (st, rw distinto s, chico, cabe)
      ]

      -- The stick accepts the fragment, and after it every byte of the address space is as a flat
      -- memory would have it.
      pub escribir_tramo :
          (sticks (socket_de m) ≡ some stick)
          × (procesar_escritura (dir - base m) datos stick ≡ some stick_escrito)
          × Conectados total ms escritos
          × ((a : ℕ) → byte_de escritos ms a ≡ copiar_a (byte_de sticks ms) dir datos a)
      unfolding procesar_escritura
      escribir_tramo =
          let (st, s, chico, cabe) = v.presente dir m e in
          let dentro : fuera_de_limites st (dir - base m) (length datos) ≡ false = ground arith in
          (
            s,
            rw dentro,
            record {
              mapeado = v.mapeado;
              estable = v.estable;
              presente = presente_escrito;
              propio = v.propio;
            },
            λ a. byte_escrito a (buscar_ms base limite hacer a ms) refl,
          )
