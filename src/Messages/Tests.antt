-- ===== src/Messages/Tests.antt =====
-- A packet of two values, sent in two pieces.
use tp_2026_1c_malloc_and_cr.Base.{
  ℕ, ◌+◌, ◌<◌, ◌≡◌, refl, some, List, [], ◌∷◌, ◌++◌, pos, negsuc, arith,
}
use tp_2026_1c_malloc_and_cr.Messages.{
  int_bytes, int_negativo, crear_buffer, crear_paquete, agregar_a_paquete, enviar_paquete,
  recibir_paquete, recibido, indefinido, nulo, serializar_paquete,
}
use tp_2026_1c_malloc_and_cr.Messages.Roundtrip.{empaquetar}
use tp_2026_1c_malloc_and_cr.Messages.Sending.{Transmite, recibir-enviar, enviar_paquete-Transmite}

abbrev valores : List (List ℕ)
valores = (7 ∷ 8 ∷ 9 ∷ []) ∷ [] ∷ []

recibir-enviar_example :
    (enviados : List ℕ) × (enviar_paquete (pos 5 ∷ pos 20 ∷ []) (empaquetar 30 valores)
      ≡ some (pos 0, enviados))
    × (recibir_paquete (enviados ++ (1 ∷ [])) ≡ recibido (int_bytes 30 ∷ valores) (1 ∷ []))
recibir-enviar_example =
    recibir-enviar (pos 5 ∷ pos 20 ∷ []) 30 valores (1 ∷ []) (omega arith, (omega arith, tt))
      (omega arith) (omega arith) (omega arith)

chico : (empaquetar 30 valores).buffer.size + 8 < int_negativo
unfolding agregar_a_paquete crear_paquete crear_buffer
chico = omega arith

enviar_paquete-Transmite_example :
    Transmite
      (pos 5 ∷ negsuc 0 ∷ [])
      (serializar_paquete (empaquetar 30 valores))
      (enviar_paquete (pos 5 ∷ negsuc 0 ∷ []) (empaquetar 30 valores))
enviar_paquete-Transmite_example =
    enviar_paquete-Transmite (pos 5 ∷ negsuc 0 ∷ []) (empaquetar 30 valores) chico

-- A value that says that it is longer than the buffer.
largo_falso : recibir_paquete (1 ∷ 0 ∷ 0 ∷ 0 ∷ 5 ∷ 0 ∷ 0 ∷ 0 ∷ 9 ∷ 0 ∷ 0 ∷ 0 ∷ 1 ∷ []) ≡ indefinido
unfolding recibir_paquete
largo_falso = refl

-- A connection that closes inside a buffer.
cortada : recibir_paquete (1 ∷ 0 ∷ 0 ∷ 0 ∷ 5 ∷ 0 ∷ 0 ∷ 0 ∷ 9 ∷ []) ≡ nulo
unfolding recibir_paquete
cortada = refl
