-- ===== src/Cpu/Memory/Transfer.antt =====
-- The loops over the fragments of an access read and write one flat memory.
use mathlib.Core.Path.{fun_ext}
use tp_2026_1c_malloc_and_cr.Base.{
  ℕ, suc, ◌+◌, ◌≤◌, ◌≡◌, ◌∙◌, refl, true, some, List, length, arith,
}
use tp_2026_1c_malloc_and_cr.Stick.{copiar_de, copiar_a}
use tp_2026_1c_malloc_and_cr.Fragments.Total.{Tramos, fin, tramo}
use tp_2026_1c_malloc_and_cr.Fragments.Store.{
  Sticks, Conectados, byte_de, copiar_de-append, copiar_a-append, length-copiar_de, leer_tramo,
  escribir_tramo,
}
use tp_2026_1c_malloc_and_cr.Cpu.Mmu.{
  MsConectado, FragmentoCpu, base_conectado, limite_conectado, fragmento_cpu,
}
use tp_2026_1c_malloc_and_cr.Cpu.Memory.{leer_fragmentos, escribir_fragmentos}

abbrev pub socket_conectado : MsConectado → ℕ
socket_conectado m = m.socket

-- The sticks that the CPU knows are connected, as one address space.
abbrev pub IsConectada : ℕ → List MsConectado → Sticks → Type 0
IsConectada = Conectados base_conectado limite_conectado fragmento_cpu socket_conectado

abbrev pub byte_global : Sticks → List MsConectado → ℕ → ℕ
byte_global = byte_de base_conectado limite_conectado fragmento_cpu socket_conectado

module _ {total : ℕ} {ms : List MsConectado} where
  pub leer_fragmentos-Tramos :
      {sticks : Sticks} {dir n o : ℕ} {fs : List FragmentoCpu}
      → IsConectada total ms sticks
      → (buffer : ℕ → ℕ) → Tramos base_conectado limite_conectado fragmento_cpu ms dir n o fs
      → leer_fragmentos sticks fs buffer
        ≡ some (copiar_a buffer o (copiar_de (byte_global sticks ms) dir n))
  unfolding leer_fragmentos copiar_de copiar_a
  leer_fragmentos-Tramos v buffer (fin cero) = rw cero
  leer_fragmentos-Tramos {sticks} {dir = dir} {o = o} v buffer (tramo m k resto e b p l n h) =
      let g = byte_global sticks ms in
      let (st, s, leido) =
        leer_tramo base_conectado limite_conectado fragmento_cpu socket_conectado v dir k m e b l in
      rw
        (
          s,
          leer_fragmentos,
          leido,
          n,
          copiar_de-append g dir k resto,
          copiar_a-append buffer o (copiar_de g dir k) (copiar_de g (dir + k) resto),
          length-copiar_de g dir k,
        )
        (leer_fragmentos-Tramos v (copiar_a buffer o (copiar_de g dir k)) h)

  pub escribir_fragmentos-Tramos :
      {dir n o : ℕ} {fs : List FragmentoCpu} (datos : ℕ → ℕ)
      → Tramos base_conectado limite_conectado fragmento_cpu ms dir n o fs
      → (sticks : Sticks) → IsConectada total ms sticks
      → (sticks' : Sticks) × (escribir_fragmentos datos fs sticks ≡ (true, sticks'))
        × IsConectada total ms sticks'
        × (byte_global sticks' ms ≡ copiar_a (byte_global sticks ms) dir (copiar_de datos o n))
  unfolding escribir_fragmentos copiar_de copiar_a
  escribir_fragmentos-Tramos datos (fin cero) sticks v = (sticks, refl, v, rw cero)
  escribir_fragmentos-Tramos {dir} {o = o} datos (tramo m k resto e b p l n h) sticks v =
      let g = byte_global sticks ms in
      let xs = copiar_de datos o k in
      let largo : length xs ≡ k = length-copiar_de datos o k in
      let cabe : dir + length xs ≤ suc m.limite_global = omega (arith, largo) in
      let (s, escrito, v', bytes) =
        escribir_tramo base_conectado limite_conectado fragmento_cpu socket_conectado v dir m xs e b
          cabe in
      let (sticks', sigue, fin', final) = escribir_fragmentos-Tramos datos h _ v' in
      (
        sticks',
        rw (s, escribir_fragmentos, escrito) sigue,
        fin',
        final
            ∙ rw (
              fun_ext bytes,
              n,
              copiar_de-append datos o k resto,
              copiar_a-append g dir xs (copiar_de datos (o + k) resto),
              largo,
            ),
      )
