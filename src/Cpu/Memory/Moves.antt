-- ===== src/Cpu/Memory/Moves.antt =====
-- MOV_IN and MOV_OUT against one flat memory, and what COPY_MEM copies.
use tp_2026_1c_malloc_and_cr.Base.{
  ℕ, ◌+◌, ◌≤◌, ◌<◌, ◌≡◌, ◌∙◌, ◌⊎◌, refl, sym, ap, subst, true, false, ◌&&◌, leb, ltb, Option, none,
  some, inl, inr, Bool-cases, List, [], ◌∷◌, arith, ◌==◌, if◌then◌else◌,
}
use Prim.Native.String.{String}
use tp_2026_1c_malloc_and_cr.Stick.{copiar_de, copiar_a}
use tp_2026_1c_malloc_and_cr.Stick.Access.{copiar_a-fuera}
use tp_2026_1c_malloc_and_cr.Messages.Roundtrip.{int_bytes_lem}
use tp_2026_1c_malloc_and_cr.Fragments.Total.{Tramos, fin, tramo, Fragmentado}
use tp_2026_1c_malloc_and_cr.Fragments.Store.{
  Sticks, copiar_a-copiar_de, leer_tramo, length-copiar_de,
}
use tp_2026_1c_malloc_and_cr.Cpu.Registers.{
  Registro, es_registro_8bits, obtener_registro, leer_valor_registro, escribir,
}
use tp_2026_1c_malloc_and_cr.Cpu.Mmu.{
  MsConectado, FragmentoCpu, base_conectado, limite_conectado, fragmento_cpu,
  mmu_traducir_direccion, fragmentar_acceso_memoria,
}
use tp_2026_1c_malloc_and_cr.Cpu.Mmu.Translation.{fragmentar_acceso_memoria-Fragmentado}
use tp_2026_1c_malloc_and_cr.Cpu.Contexts.{ContextoCpu}
use tp_2026_1c_malloc_and_cr.Cpu.Memory.{
  Cpu, tamanio_registro, valor_leido, asignar, bytes_de, ejecutar_mov_in, ejecutar_mov_out,
  leer_para_copiar, elemento_uno, copiar_memoria, ejecutar_copy_mem,
}
use tp_2026_1c_malloc_and_cr.Cpu.Memory.Transfer.{
  IsConectada, byte_global, socket_conectado, leer_fragmentos-Tramos, escribir_fragmentos-Tramos,
}

-- An access inside the memory has its fragments.
fragmentos_de :
    (dir n total : ℕ) (cpu : Cpu)
    → IsConectada total cpu.sockets_memory_sticks cpu.sticks
    → n < 2147483648
    → dir + n ≤ total
    → (fs : List FragmentoCpu) × (fragmentar_acceso_memoria dir n cpu.sockets_memory_sticks
        ≡ some (some fs))
      × Tramos base_conectado limite_conectado fragmento_cpu cpu.sockets_memory_sticks dir n 0 fs
fragmentos_de dir n total cpu v corto dentro =
    listo (fragmentar_acceso_memoria dir n cpu.sockets_memory_sticks) (
      fragmentar_acceso_memoria-Fragmentado dir n total cpu.sockets_memory_sticks v.mapeado corto
        dentro)
  where
    listo :
        (r : Option (Option (List FragmentoCpu)))
        → Fragmentado base_conectado limite_conectado fragmento_cpu cpu.sockets_memory_sticks dir n
            0 r
        → (fs : List FragmentoCpu) × (r ≡ some (some fs))
          × Tramos base_conectado limite_conectado fragmento_cpu cpu.sockets_memory_sticks dir n 0
              fs
    listo none h = absurd h
    listo (some none) h = absurd h
    listo (some (some fs)) h = (fs, refl, h)

valor_leido-copiado :
    (n : String) (f g : ℕ → ℕ) (dir : ℕ)
    → valor_leido n (copiar_a f 0 (copiar_de g dir (tamanio_registro n)))
      ≡ valor_leido n (λ i. g (dir + i))
valor_leido-copiado n f g dir = elim (Bool-cases (es_registro_8bits n)) [
  | inl corto ↦ rw corto (copiar_a-copiar_de f g 0 dir 1 0 (omega arith))
  | inr largo ↦ rw largo (
      rw (
        copiar_a-copiar_de f g 0 dir 4 0 (omega arith),
        copiar_a-copiar_de f g 0 dir 4 1 (omega arith),
        copiar_a-copiar_de f g 0 dir 4 2 (omega arith),
        copiar_a-copiar_de f g 0 dir 4 3 (omega arith),
      ))
]

module _ (total : ℕ) (cpu : Cpu) (v : IsConectada total cpu.sockets_memory_sticks cpu.sticks) where
  -- MOV_IN of a known register, at an address that translates into the memory: the register gets the
  -- bytes that stand there, and nothing else changes.
  pub ejecutar_mov_in-leer :
      (n : String) (r : Registro) (c : ContextoCpu) (fisica : ℕ)
      → obtener_registro n ≡ some r
      → mmu_traducir_direccion cpu.segment_max_size c.registros.si
          (tamanio_registro n)
          c.tabla_segmentos
        ≡ some fisica
      → fisica + tamanio_registro n ≤ total
      → ejecutar_mov_in n c cpu
        ≡ some (
          true,
          record c {
            registros =
                escribir r
                  (valor_leido n
                    (λ i. byte_global cpu.sticks cpu.sockets_memory_sticks (fisica + i)))
                  c.registros;
          },
        )
  unfolding ejecutar_mov_in
  ejecutar_mov_in-leer n r c fisica conocido traducida dentro =
      let t : tamanio_registro n < 2147483648 = ground arith in
      let (fs, cortado, tramos) = fragmentos_de fisica (tamanio_registro n) total cpu v t dentro in
      let g = byte_global cpu.sticks cpu.sockets_memory_sticks in
      let b : ℕ → ℕ = copiar_a (λ _. 0) 0 (copiar_de g fisica (tamanio_registro n)) in
      let asignado : asignar n c b
          ≡ some (true, record c { registros = escribir r (valor_leido n b) c.registros }) =
        rw (conocido, asignar) in
      rw (traducida, ejecutar_mov_in, cortado, leer_fragmentos-Tramos v (λ _. 0) tramos)
        (asignado
          ∙ ap (λ x. some (true, record c { registros = escribir r x c.registros }))
              (valor_leido-copiado n (λ _. 0) g fisica))

  -- MOV_OUT, at an address that translates into the memory: the bytes of the register's value are
  -- written there, in the memory that the sticks together are, and no other byte changes.
  pub ejecutar_mov_out-escribir :
      (n : String) (c : ContextoCpu) (fisica : ℕ)
      → mmu_traducir_direccion cpu.segment_max_size c.registros.di
          (tamanio_registro n)
          c.tabla_segmentos
        ≡ some fisica
      → fisica + tamanio_registro n ≤ total
      → (sticks' : Sticks) × (ejecutar_mov_out n c cpu
          ≡ some (true, record cpu { sticks = sticks' }))
        × IsConectada total cpu.sockets_memory_sticks sticks'
        × (byte_global sticks' cpu.sockets_memory_sticks
            ≡ copiar_a
                (byte_global cpu.sticks cpu.sockets_memory_sticks)
                fisica
                (copiar_de (bytes_de (leer_valor_registro n c.registros)) 0 (tamanio_registro n)))
  unfolding ejecutar_mov_out
  ejecutar_mov_out-escribir n c fisica traducida dentro =
      let t : tamanio_registro n < 2147483648 = ground arith in
      let (fs, cortado, tramos) = fragmentos_de fisica (tamanio_registro n) total cpu v t dentro in
      let (sticks', escrito, v', bytes) =
        escribir_fragmentos-Tramos (bytes_de (leer_valor_registro n c.registros)) tramos cpu.sticks
          v in
      (sticks', rw (traducida, ejecutar_mov_out, cortado, escrito), v', bytes)

-- The bytes of a value of the register's width, where they were written.
valor_de_vuelta :
    (n n' : String) (w fisica : ℕ) (g : ℕ → ℕ)
    → es_registro_8bits n' ≡ es_registro_8bits n
    → w < (if es_registro_8bits n then 256 else 4294967296)
    → valor_leido n'
        (λ i. copiar_a g fisica (copiar_de (bytes_de w) 0 (tamanio_registro n)) (fisica + i))
      ≡ w
valor_de_vuelta n n' w fisica g ancho cabe = elim (Bool-cases (es_registro_8bits n)) [
  | inl corto ↦
      let chico : w < 256 = ground arith in
      rw (ancho, corto, copiar_a-copiar_de g (bytes_de w) fisica 0 1 0 (omega arith)) (omega arith)
  | inr largo ↦
      let chico : w < 4294967296 = ground arith in
      rw
        (
          ancho,
          largo,
          copiar_a-copiar_de g (bytes_de w) fisica 0 4 0 (omega arith),
          copiar_a-copiar_de g (bytes_de w) fisica 0 4 1 (omega arith),
          copiar_a-copiar_de g (bytes_de w) fisica 0 4 2 (omega arith),
          copiar_a-copiar_de g (bytes_de w) fisica 0 4 3 (omega arith),
        )
        (int_bytes_lem w chico)
]

-- A value that MOV_OUT stored at an address, MOV_IN at the same address reads back, from and into
-- registers of one width, on however many sticks it lies; and no other byte of the memory changes.
-- The address translates into the memory, and the register holds a value of its width.
pub ejecutar_mov_in-out :
    (n n' : String) (r' : Registro) (c : ContextoCpu) (total fisica : ℕ) (cpu : Cpu)
    → IsConectada total cpu.sockets_memory_sticks cpu.sticks
    → obtener_registro n' ≡ some r'
    → es_registro_8bits n' ≡ es_registro_8bits n
    → leer_valor_registro n c.registros < (if es_registro_8bits n then 256 else 4294967296)
    → mmu_traducir_direccion cpu.segment_max_size c.registros.di
        (tamanio_registro n)
        c.tabla_segmentos
      ≡ some fisica
    → fisica + tamanio_registro n ≤ total
    → (sticks' : Sticks) × (ejecutar_mov_out n c cpu ≡ some (true, record cpu { sticks = sticks' }))
      × ((c' : ContextoCpu)
          → c'.registros.si ≡ c.registros.di
          → c'.tabla_segmentos ≡ c.tabla_segmentos
          → ejecutar_mov_in n' c' (record cpu { sticks = sticks' })
            ≡ some (
              true,
              record c' {
                registros = escribir r' (leer_valor_registro n c.registros) c'.registros;
              },
            ))
      × ((a : ℕ)
          → (leb fisica a && ltb a (fisica + tamanio_registro n)) ≡ false
          → byte_global sticks' cpu.sockets_memory_sticks a
            ≡ byte_global cpu.sticks cpu.sockets_memory_sticks a)
ejecutar_mov_in-out n n' r' c total fisica cpu v conocido ancho valor traducida dentro =
    let (sticks', hecho, v', bytes) =
      ejecutar_mov_out-escribir total cpu v n c fisica traducida dentro in
    let w = leer_valor_registro n c.registros in
    let g = byte_global cpu.sticks cpu.sockets_memory_sticks in
    let xs = copiar_de (bytes_de w) 0 (tamanio_registro n) in
    let igual : tamanio_registro n' ≡ tamanio_registro n = rw ancho in
    let vuelve : valor_leido n' (λ i. byte_global sticks' cpu.sockets_memory_sticks (fisica + i))
        ≡ w =
      subst (λ h. valor_leido n' (λ i. h (fisica + i)) ≡ w) (sym bytes)
        (valor_de_vuelta n n' w fisica g ancho valor) in
    (
      sticks',
      hecho,
      λ c' misma tabla.
          let traducida' : mmu_traducir_direccion cpu.segment_max_size c'.registros.si
                (tamanio_registro n') c'.tabla_segmentos
              ≡ some fisica =
            rw (misma, tabla, igual) traducida in
          ejecutar_mov_in-leer total (record cpu { sticks = sticks' }) v' n' r' c' fisica conocido
            traducida' (rw igual dentro)
          ∙ ap (λ x. some (true, record c' { registros = escribir r' x c'.registros })) vuelve,
      λ a fuera.
          ap (λ h. h a) bytes
          ∙ copiar_a-fuera g fisica a xs
              (rw (length-copiar_de (bytes_de w) 0 (tamanio_registro n)) fuera),
    )

-- With no byte left there is no fragment left.
leer_para_copiar_nada :
    {dir n o : ℕ} {ms : List MsConectado} {fs : List FragmentoCpu} (vecinos : ℕ → ℕ)
    (sticks : Sticks) (buffer : ℕ → ℕ)
    → n ≡ 0
    → Tramos base_conectado limite_conectado fragmento_cpu ms dir n o fs
    → leer_para_copiar vecinos sticks fs buffer ≡ some buffer
unfolding leer_para_copiar
leer_para_copiar_nada vecinos sticks buffer z (fin cero) = refl
leer_para_copiar_nada vecinos sticks buffer z (tramo m k resto e b p l q h) = absurd (omega arith)

-- The first loop of COPY_MEM, for one byte: its answer's element 1 is the size, 1.
leer_para_copiar_uno :
    {dir o n : ℕ} {ms : List MsConectado} {fs : List FragmentoCpu} (total : ℕ) (sticks : Sticks)
    (vecinos inicial : ℕ → ℕ)
    → IsConectada total ms sticks
    → n ≡ 1
    → Tramos base_conectado limite_conectado fragmento_cpu ms dir n o fs
    → leer_para_copiar vecinos sticks fs inicial ≡ some (copiar_a inicial o (1 ∷ []))
unfolding leer_para_copiar copiar_de
leer_para_copiar_uno total sticks vecinos inicial v uno (fin cero) = absurd (omega arith)
leer_para_copiar_uno {dir} {o} total sticks vecinos inicial v uno (tramo m k resto e b p l q h) =
    let k1 : k ≡ 1 = omega arith in
    let (st, s, leido) =
      leer_tramo base_conectado limite_conectado fragmento_cpu socket_conectado v dir k m e b l in
    let tamano : elemento_uno vecinos k ≡ 1 ∷ [] =
      subst (λ j. elemento_uno vecinos j ≡ 1 ∷ []) (sym k1) refl in
    rw (s, leer_para_copiar, leido, tamano) (leer_para_copiar_nada vecinos sticks _ (omega arith) h)

-- COPY_MEM of one byte, from and to addresses that translate into the memory, succeeds and writes at
-- the destination the number 1, the size of the copy, whatever byte stands at the source; every other
-- byte stays.
pub ejecutar_copy_mem_uno :
    (vecinos inicial : ℕ → ℕ) (n : String) (c : ContextoCpu) (total origen destino : ℕ) (cpu : Cpu)
    → IsConectada total cpu.sockets_memory_sticks cpu.sticks
    → leer_valor_registro n c.registros ≡ 1
    → mmu_traducir_direccion cpu.segment_max_size c.registros.si 1 c.tabla_segmentos ≡ some origen
    → mmu_traducir_direccion cpu.segment_max_size c.registros.di 1 c.tabla_segmentos ≡ some destino
    → origen < total
    → destino < total
    → (sticks' : Sticks) × (ejecutar_copy_mem vecinos inicial n c cpu
        ≡ some (true, record cpu { sticks = sticks' }))
      × (byte_global sticks' cpu.sockets_memory_sticks destino ≡ 1)
      × ((a : ℕ)
          → (a ≡ destino)
            ⊎ (byte_global sticks' cpu.sockets_memory_sticks a
                ≡ byte_global cpu.sticks cpu.sockets_memory_sticks a))
unfolding ejecutar_copy_mem copiar_memoria copiar_a copiar_de
ejecutar_copy_mem_uno vecinos inicial n c total origen destino cpu v uno de a lo ld =
    let g = byte_global cpu.sticks cpu.sockets_memory_sticks in
    let (fs, cortado, tramos) = fragmentos_de origen 1 total cpu v (omega arith) (omega arith) in
    let (fs', cortado', tramos') =
      fragmentos_de destino 1 total cpu v (omega arith) (omega arith) in
    let buffer : ℕ → ℕ = copiar_a inicial 0 (1 ∷ []) in
    let leido : leer_para_copiar vecinos cpu.sticks fs inicial ≡ some buffer =
      leer_para_copiar_uno total cpu.sticks vecinos inicial v refl tramos in
    let (sticks', escrito, v', bytes) = escribir_fragmentos-Tramos buffer tramos' cpu.sticks v in
    let copia : copiar_memoria vecinos inicial origen destino 1 cpu
        ≡ some (true, record cpu { sticks = sticks' }) =
      rw (cortado, copiar_memoria, leido, cortado', escrito) in
    let propio : (destino == destino) ≡ true = ground arith in
    let t = leer_valor_registro n c.registros in
    let desde : mmu_traducir_direccion cpu.segment_max_size c.registros.si t c.tabla_segmentos
        ≡ some origen =
      rw uno de in
    let hasta : mmu_traducir_direccion cpu.segment_max_size c.registros.di t c.tabla_segmentos
        ≡ some destino =
      rw uno a in
    (
      sticks',
      rw (desde, ejecutar_copy_mem, hasta, uno) copia,
      ap (λ h. h destino) bytes ∙ rw propio,
      λ x. elim (Bool-cases (x == destino)) [
        | inl mismo ↦ inl (ground arith)
        | inr otro ↦ inr (ap (λ h. h x) bytes ∙ rw otro)
      ],
    )
