-- ===== src/Memory/Transfer/Flat.antt =====
-- Reads and writes over several Memory Sticks are reads and writes of one flat memory.
use mathlib.Core.Path.{fun_ext}
use tp_2026_1c_malloc_and_cr.Base.{
  ℕ, suc, ◌+◌, ◌-◌, ◌≤◌, ◌<◌, ◌≡◌, ◌∙◌, refl, sym, ap, subst, false, ◌&&◌, leb, ltb, Option, none,
  some, List, length, arith,
}
use tp_2026_1c_malloc_and_cr.Stick.{Stick, copiar_de, copiar_a}
use tp_2026_1c_malloc_and_cr.Stick.Access.{copiar_a-fuera}
use tp_2026_1c_malloc_and_cr.Fragments.{buscar_ms}
use tp_2026_1c_malloc_and_cr.Fragments.Total.{Tramos, fin, tramo, Fragmentado}
use tp_2026_1c_malloc_and_cr.Fragments.Store.{
  Sticks, poner_stick, Conectados, byte_de, copiar_de-append, copiar_a-append, length-copiar_de,
  copiar_ida_y_vuelta, leer_tramo, escribir_tramo,
}
use tp_2026_1c_malloc_and_cr.Memory.Types.{MsInfo, MsPos, Fragmento}
use tp_2026_1c_malloc_and_cr.Memory.Sticks.{
  buscar_ms_por_id, calcular_dir_local_ms, base_de, limite_de_ms, fragmento_de,
}
use tp_2026_1c_malloc_and_cr.Memory.Sticks.Connection.{Posiciones}
use tp_2026_1c_malloc_and_cr.Memory.Sticks.Translation.{calcular_dir_local_ms-Fragmentado}
use tp_2026_1c_malloc_and_cr.Memory.Transfer.{
  enviar_fragmentos_escritura, enviar_fragmentos_lectura, caso_escritura_de_datos,
  caso_lectura_de_datos,
}

abbrev socket_o : Option MsInfo → ℕ
socket_o none = 0
socket_o (some ms) = ms.socket

abbrev pub socket_ms : List MsInfo → MsPos → ℕ
socket_ms lista_ms m = socket_o (buscar_ms_por_id m.id lista_ms)

-- Every position has its stick in the list of sticks, connected.
pub record IsConectada (total : ℕ) (lista_ms : List MsInfo) (lista_dir : List MsPos)
    (sticks : Sticks) : Type 0 where
  pub conectados :
      Conectados base_de limite_de_ms fragmento_de (socket_ms lista_ms) total lista_dir sticks
  pub registrado :
      (a : ℕ) (m : MsPos)
      → buscar_ms base_de limite_de_ms fragmento_de a lista_dir ≡ some m
      → (ms : MsInfo) × (buscar_ms_por_id m.id lista_ms ≡ some ms)

abbrev pub byte_global : List MsInfo → Sticks → List MsPos → ℕ → ℕ
byte_global lista_ms = byte_de base_de limite_de_ms fragmento_de (socket_ms lista_ms)

module _ {total : ℕ} {lista_ms : List MsInfo} {ms : List MsPos} where
  pub leer-Tramos :
      {dir n o : ℕ} {fs : List Fragmento} (sticks : Sticks) (buffer : ℕ → ℕ)
      → IsConectada total lista_ms ms sticks
      → Tramos base_de limite_de_ms fragmento_de ms dir n o fs
      → enviar_fragmentos_lectura lista_ms fs buffer o sticks
        ≡ some (some (copiar_a buffer o (copiar_de (byte_global lista_ms sticks ms) dir n)))
  unfolding enviar_fragmentos_lectura copiar_de copiar_a
  leer-Tramos sticks buffer v (fin cero) = rw cero
  leer-Tramos {dir} {o = o} sticks buffer v (tramo m k resto e b p l n h) =
      let g = byte_global lista_ms sticks ms in
      let (info, esta) = v.registrado dir m e in
      let (st, s, leido) =
        leer_tramo base_de limite_de_ms fragmento_de (socket_ms lista_ms) v.conectados dir k m e b
          l in
      let s' : sticks info.socket ≡ some st = rw (ap socket_o (sym esta)) s in
      rw
        (
          esta,
          enviar_fragmentos_lectura,
          s',
          leido,
          n,
          copiar_de-append g dir k resto,
          copiar_a-append buffer o (copiar_de g dir k) (copiar_de g (dir + k) resto),
          length-copiar_de g dir k,
        )
        (leer-Tramos sticks (copiar_a buffer o (copiar_de g dir k)) v h)

  pub escribir-Tramos :
      {dir n o : ℕ} {fs : List Fragmento} (datos : ℕ → ℕ)
      → Tramos base_de limite_de_ms fragmento_de ms dir n o fs
      → (sticks : Sticks) → IsConectada total lista_ms ms sticks
      → (sticks' : Sticks) × (enviar_fragmentos_escritura lista_ms fs datos o sticks ≡ some sticks')
        × IsConectada total lista_ms ms sticks'
        × (byte_global lista_ms sticks' ms
            ≡ copiar_a (byte_global lista_ms sticks ms) dir (copiar_de datos o n))
  unfolding enviar_fragmentos_escritura copiar_de copiar_a
  escribir-Tramos datos (fin cero) sticks v = (sticks, refl, v, rw cero)
  escribir-Tramos {dir} {o = o} datos (tramo {fs = siguientes} m k resto e b p l n h) sticks v =
      let g = byte_global lista_ms sticks ms in
      let xs = copiar_de datos o k in
      let largo : length xs ≡ k = length-copiar_de datos o k in
      let cabe : dir + length xs ≤ suc m.limite_global = omega (arith, largo) in
      let (info, esta) = v.registrado dir m e in
      let socket : socket_ms lista_ms m ≡ info.socket = ap socket_o esta in
      let (s, escrito, v', bytes) =
        escribir_tramo base_de limite_de_ms fragmento_de (socket_ms lista_ms) v.conectados dir m xs
          e b cabe in
      let st = (v.conectados.presente dir m e).0 in
      let st' : Stick = record st { memoria = copiar_a st.memoria (dir - base_de m) xs } in
      let s' : sticks info.socket ≡ some st = rw (ap socket_o (sym esta)) s in
      let (sticks', sigue, fin', final) =
        escribir-Tramos datos h _ (record { conectados = v'; registrado = v.registrado }) in
      (
        sticks',
        rw (esta, enviar_fragmentos_escritura, s', escrito)
            (subst
              (λ q.
                enviar_fragmentos_escritura lista_ms siguientes datos (o + k)
                  (poner_stick q st' sticks)
                ≡ some sticks')
              socket sigue),
        fin',
        final
            ∙ rw (
              fun_ext bytes,
              n,
              copiar_de-append datos o k resto,
              copiar_a-append g dir xs (copiar_de datos (o + k) resto),
              largo,
            ),
      )

pub fragmentos_de :
    (dir n total : ℕ) (lista : List MsPos)
    → Posiciones total lista
    → n < 2147483648
    → dir + n ≤ total
    → (fs : List Fragmento) × (calcular_dir_local_ms dir n lista ≡ some (some fs))
      × Tramos base_de limite_de_ms fragmento_de lista dir n 0 fs
fragmentos_de dir n total lista v corto dentro =
    listo (calcular_dir_local_ms dir n lista)
      (calcular_dir_local_ms-Fragmentado dir n total lista v corto dentro)
  where
    listo :
        (r : Option (Option (List Fragmento)))
        → Fragmentado base_de limite_de_ms fragmento_de lista dir n 0 r
        → (fs : List Fragmento) × (r ≡ some (some fs))
          × Tramos base_de limite_de_ms fragmento_de lista dir n 0 fs
    listo none h = absurd h
    listo (some none) h = absurd h
    listo (some (some fs)) h = (fs, refl, h)

module _ (total dir n : ℕ) (lista_ms : List MsInfo) (lista_dir : List MsPos)
    (posiciones : Posiciones total lista_dir) (corto : n < 2147483648)
    (dentro : dir + n ≤ total) where
  -- A read inside the memory gives the bytes that stand there.
  pub caso_lectura-bytes :
      (sticks : Sticks)
      → IsConectada total lista_ms lista_dir sticks
      → caso_lectura_de_datos lista_ms lista_dir dir n sticks
        ≡ some (some (copiar_de (byte_global lista_ms sticks lista_dir) dir n))
  unfolding caso_lectura_de_datos
  caso_lectura-bytes sticks v =
      let g = byte_global lista_ms sticks lista_dir in
      let (fs, cortado, tramos) = fragmentos_de dir n total lista_dir posiciones corto dentro in
      rw (cortado, caso_lectura_de_datos, leer-Tramos sticks (λ _. 0) v tramos)
        (ap (λ l. some (some l)) (copiar_ida_y_vuelta (λ _. 0) g 0 dir n))

  -- A write inside the memory is answered, and changes the memory as a flat one.
  pub caso_escritura-bytes :
      (contenido : ℕ → ℕ) (sticks : Sticks)
      → IsConectada total lista_ms lista_dir sticks
      → (sticks' : Sticks) × (caso_escritura_de_datos lista_ms lista_dir dir n contenido sticks
          ≡ some sticks')
        × IsConectada total lista_ms lista_dir sticks'
        × (byte_global lista_ms sticks' lista_dir
            ≡ copiar_a (byte_global lista_ms sticks lista_dir) dir (copiar_de contenido 0 n))
  unfolding caso_escritura_de_datos
  caso_escritura-bytes contenido sticks v =
      let (fs, cortado, tramos) = fragmentos_de dir n total lista_dir posiciones corto dentro in
      let (sticks', escrito, v', bytes) = escribir-Tramos contenido tramos sticks v in
      (sticks', rw (cortado, caso_escritura_de_datos) escrito, v', bytes)

  -- A write inside the memory is answered; a read of the same range then answers with what was
  -- written, on however many sticks it lies, and every other byte of the memory is as it was. The
  -- access has less than 2³¹ bytes, and every position has its stick, connected.
  pub caso_lectura-escritura :
      (contenido : ℕ → ℕ) (sticks : Sticks)
      → IsConectada total lista_ms lista_dir sticks
      → (sticks' : Sticks) × (caso_escritura_de_datos lista_ms lista_dir dir n contenido sticks
          ≡ some sticks')
        × (caso_lectura_de_datos lista_ms lista_dir dir n sticks'
            ≡ some (some (copiar_de contenido 0 n)))
        × ((a : ℕ)
            → (leb dir a && ltb a (dir + n)) ≡ false
            → byte_global lista_ms sticks' lista_dir a ≡ byte_global lista_ms sticks lista_dir a)
  caso_lectura-escritura contenido sticks v =
      let g = byte_global lista_ms sticks lista_dir in
      let (sticks', escrito, v', bytes) = caso_escritura-bytes contenido sticks v in
      (
        sticks',
        escrito,
        caso_lectura-bytes sticks' v'
            ∙ ap (λ l. some (some l))
                (ap (λ h. copiar_de h dir n) bytes ∙ copiar_ida_y_vuelta g contenido dir 0 n),
        λ a f.
            ap (λ h. h a) bytes
            ∙ copiar_a-fuera g dir a (copiar_de contenido 0 n)
                (rw (length-copiar_de contenido 0 n) f),
      )
