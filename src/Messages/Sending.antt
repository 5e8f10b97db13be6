-- ===== src/Messages/Sending.antt =====
-- `enviar_paquete` passes on every byte, however `send` cuts the packet, or says that it failed.
use tp_2026_1c_malloc_and_cr.Base.{
  ℕ, zero, suc, ◌+◌, ◌-◌, ◌≤◌, ◌<◌, ◌≡◌, ◌∙◌, refl, sym, ap, subst, Option, none, some, List, [],
  ◌∷◌, ◌++◌, ℤ, pos, negsuc, leb, false, length, take, drop, arith, append_assoc, All, sum_by,
}
use tp_2026_1c_malloc_and_cr.Messages.{
  int_bytes, int_negativo, Paquete, serializar_paquete, con_envio, enviar_desde, enviar_paquete,
  recibido, recibir_paquete,
}
use tp_2026_1c_malloc_and_cr.Messages.Roundtrip.{
  tamano_campos, empaquetar, length-campos, empaquetar-size, serializar-empaquetar,
  recibir-serializar,
}

-- The bytes that a call of `send` passed on.
abbrev pub avance : ℤ → ℕ
avance (pos n) = n
avance (negsuc n) = 0

abbrev pub IsPositivo : ℤ → Type 0
IsPositivo r = 0 < avance r

module _ {ℓ} {A : Type ℓ} where
  take-drop : (n : ℕ) (xs : List A) → take n xs ++ drop n xs ≡ xs
  take-drop zero xs = refl
  take-drop (suc n) [] = refl
  take-drop (suc n) (x ∷ xs) = ap (λ l. x ∷ l) (take-drop n xs)

  length-drop : (n : ℕ) (xs : List A) → length (drop n xs) ≡ length xs - n
  length-drop zero xs = omega arith
  length-drop (suc n) [] = omega arith
  length-drop (suc n) (x ∷ xs) = omega (arith, length-drop n xs)

-- 0 comes with all the bytes, -1 with a part of them, less at least the last; no answer yet means that
-- every call so far passed some bytes on, and that they are not enough.
abbrev pub Transmite : List ℤ → List ℕ → Option (ℤ × List ℕ) → Type 0
Transmite rs bytes none = All IsPositivo rs × (sum_by avance rs < length bytes)
Transmite rs bytes (some (pos zero, enviados)) = enviados ≡ bytes
Transmite rs bytes (some (pos (suc n), enviados)) = ⊥
Transmite rs bytes (some (negsuc zero, enviados)) =
    (faltan : List ℕ) × (enviados ++ faltan ≡ bytes) × (0 < length faltan)
Transmite rs bytes (some (negsuc (suc n), enviados)) = ⊥

con_envio-Transmite :
    (n : ℕ) (rs : List ℤ) (b : ℕ) (bs : List ℕ) (r : Option (ℤ × List ℕ))
    → Transmite rs (drop n bs) r
    → Transmite (pos (suc n) ∷ rs) (b ∷ bs) (con_envio (take (suc n) (b ∷ bs)) r)
con_envio-Transmite n rs b bs none (p, l) = ((omega arith, p), omega (arith, length-drop n bs))
con_envio-Transmite n rs b bs (some (pos zero, t)) h = rw h (take-drop (suc n) (b ∷ bs))
con_envio-Transmite n rs b bs (some (pos (suc k), t)) h = h
con_envio-Transmite n rs b bs (some (negsuc zero, t)) (faltan, e, l) =
    (faltan, append_assoc (take (suc n) (b ∷ bs)) t faltan ∙ rw e (take-drop (suc n) (b ∷ bs)), l)
con_envio-Transmite n rs b bs (some (negsuc (suc k), t)) h = h

enviar_desde-Transmite : (rs : List ℤ) (bytes : List ℕ) → Transmite rs bytes (enviar_desde rs bytes)
unfolding enviar_desde
enviar_desde-Transmite rs [] = refl
enviar_desde-Transmite [] (b ∷ bs) = (tt, omega arith)
enviar_desde-Transmite (negsuc n ∷ rs) (b ∷ bs) = (b ∷ bs, refl, omega arith)
enviar_desde-Transmite (pos zero ∷ rs) (b ∷ bs) = (b ∷ bs, refl, omega arith)
enviar_desde-Transmite (pos (suc n) ∷ rs) (b ∷ bs) =
    con_envio-Transmite n rs b bs (enviar_desde rs (drop n bs))
      (enviar_desde-Transmite rs (drop n bs))

-- A packet of less than 2³¹ bytes is sent by the loop.
enviar_paquete_entra :
    (rs : List ℤ) (p : Paquete)
    → p.buffer.size + 8 < int_negativo
    → enviar_paquete rs p ≡ enviar_desde rs (serializar_paquete p)
unfolding enviar_paquete
enviar_paquete_entra rs p chico =
    let size = p.buffer.size in
    let entra : leb int_negativo (size + 8) ≡ false = ground (arith, chico) in rw entra

-- Of a packet of less than 2³¹ bytes with its header, and however the calls of `send` cut it: 0 comes
-- with all its bytes passed on in order; -1 with a first part of them, the last byte not among them;
-- and while there is no answer, every call has passed some bytes on and together they are fewer than
-- the packet has.
pub enviar_paquete-Transmite :
    (rs : List ℤ) (p : Paquete)
    → p.buffer.size + 8 < int_negativo
    → Transmite rs (serializar_paquete p) (enviar_paquete rs p)
enviar_paquete-Transmite rs p chico =
    subst (Transmite rs (serializar_paquete p)) (sym (enviar_paquete_entra rs p chico))
      (enviar_desde-Transmite rs (serializar_paquete p))

enviar_desde_completo :
    (rs : List ℤ) (bytes : List ℕ)
    → All IsPositivo rs
    → length bytes ≤ sum_by avance rs
    → enviar_desde rs bytes ≡ some (pos 0, bytes)
unfolding enviar_desde
enviar_desde_completo rs [] p l = refl
enviar_desde_completo [] (b ∷ bs) p l = absurd (omega arith)
enviar_desde_completo (negsuc n ∷ rs) (b ∷ bs) p l = absurd (omega arith)
enviar_desde_completo (pos zero ∷ rs) (b ∷ bs) p l = absurd (omega arith)
enviar_desde_completo (pos (suc n) ∷ rs) (b ∷ bs) p l =
    rw (enviar_desde_completo rs (drop n bs) p.1 (omega (arith, length-drop n bs)))
      (ap (λ t. some (pos 0, t)) (take-drop (suc n) (b ∷ bs)))

-- A packet that is built from values, of less than 2³¹ bytes with its header, and sent by calls of `send` that each
-- pass on some bytes, together enough, is sent, and the other side receives its code and the values
-- in order, and leaves what follows.
pub recibir-enviar :
    (rs : List ℤ) (code : ℕ) (ds : List (List ℕ)) (resto : List ℕ)
    → All IsPositivo rs
    → tamano_campos ds + 8 ≤ sum_by avance rs
    → code < 4294967296
    → tamano_campos ds + 8 < int_negativo
    → (enviados : List ℕ) × (enviar_paquete rs (empaquetar code ds) ≡ some (pos 0, enviados))
      × (recibir_paquete (enviados ++ resto) ≡ recibido (int_bytes code ∷ ds) resto)
recibir-enviar rs code ds resto p l c t =
    let bytes = serializar_paquete (empaquetar code ds) in
    let mide : length bytes ≡ tamano_campos ds + 8 =
      rw (serializar-empaquetar code ds) (omega (arith, length-campos ds)) in
    let size = empaquetar-size code ds in
    (
      bytes,
      enviar_paquete_entra rs (empaquetar code ds) (omega (arith, size, t))
          ∙ enviar_desde_completo rs bytes p (omega (arith, mide)),
      recibir-serializar code ds resto c (omega (arith, t)),
    )
