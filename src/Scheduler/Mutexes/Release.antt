-- ===== src/Scheduler/Mutexes/Release.antt =====
-- Releasing a mutex does not fail, and hands it on in the order of arrival.
use Prim.Native.String.{String}
use tp_2026_1c_malloc_and_cr.Base.{
  ℕ, ◌<◌, ◌≡◌, refl, sym, ap, ◌∙◌, subst, ◌⊎◌, inl, inr, Option-cases, true, false, Option, none,
  some, List, [], ◌∷◌, ◌++◌, arith, ◌==◌,
}
use tp_2026_1c_malloc_and_cr.Scheduler.Types.{
  Planificador, Estado, block, block_susp, codigo, Pcb, Mutex, Ks,
}
use tp_2026_1c_malloc_and_cr.Scheduler.Queues.{veces, buscar_pcb_por_pid}
use tp_2026_1c_malloc_and_cr.Scheduler.Ready.{con_pcb}
use tp_2026_1c_malloc_and_cr.Scheduler.Transitions.Invariant.{marca, IsValid}
use tp_2026_1c_malloc_and_cr.Scheduler.Transitions.ToReady.{pasar_proceso_blocka_ready-PasaA}
use tp_2026_1c_malloc_and_cr.Scheduler.Transitions.ToBlock.{
  pasar_proceso_block_susp_a_ready_susp-PasaA,
}
use tp_2026_1c_malloc_and_cr.Scheduler.Mutexes.{
  buscar_mutex, con_mutex, buscar_pcb_en_cualquier_estado, buscar_bloqueado, despertar,
  terminar_liberacion, entregar_mutex, es_duenio, sin_tomado, quitar_nombre, liberar_mutex,
}
use tp_2026_1c_malloc_and_cr.Scheduler.Mutexes.Ownership.{
  Coherentes, SiDa, liberar_mutex-Coherentes, liberar_mutex-entrega,
}
use tp_2026_1c_malloc_and_cr.Scheduler.Mutexes.Progress.{
  con_pcb-IsValid, mismo_estado, encontrado, Valida,
}

es_block : (e : Estado) → 0 < marca block e → e ≡ block
es_block block l = refl
es_block e l = absurd (omega arith)

es_block_susp : (e : Estado) → 0 < marca block_susp e → e ≡ block_susp
es_block_susp block_susp l = refl
es_block_susp e l = absurd (omega arith)

despertar-Valida :
    (a : Planificador) (p : ℕ) (ks : Ks)
    → IsValid a ks
    → ((ks.pcb p).estado ≡ block) ⊎ ((ks.pcb p).estado ≡ block_susp)
    → Valida a (despertar p ks)
unfolding despertar
despertar-Valida a p ks v (inl en) =
    let no_susp : (codigo (ks.pcb p).estado == codigo block_susp) ≡ false =
      ap (λ e. codigo e == codigo block_susp) en in
    let (ks', eq, v', hecho, otros) = pasar_proceso_blocka_ready-PasaA a p ks v en in
    (ks', rw no_susp eq, v')
despertar-Valida a p ks v (inr en) =
    let susp : (codigo (ks.pcb p).estado == codigo block_susp) ≡ true =
      ap (λ e. codigo e == codigo block_susp) en in
    let (ks', eq, v', hecho, otros) = pasar_proceso_block_susp_a_ready_susp-PasaA a p ks v en in
    (ks', rw susp eq, v')

-- The waiting process that is found is in BLOCK or in BLOCK_SUSP.
bloqueado_en :
    (a : Planificador) (q p : ℕ) (ks : Ks)
    → IsValid a ks
    → buscar_bloqueado q ks ≡ some p
    → ((ks.pcb p).estado ≡ block) ⊎ ((ks.pcb p).estado ≡ block_susp)
unfolding buscar_bloqueado
bloqueado_en a q p ks v e = elim (Option-cases (buscar_pcb_por_pid q ks.cola_block).0) [
  | inr (s, esta) ↦
      let este : s ≡ p = cc in
      let (mismo, en) = encontrado q p ks.cola_block (esta ∙ ap some este) in
      inl (
        es_block (ks.pcb p).estado
          (omega (arith, v.1.en_block p, subst (λ k. 0 < veces k ks.cola_block) (sym mismo) en)))
  | inl nadie ↦
      let esta : (buscar_pcb_por_pid q ks.cola_block_susp).0 ≡ some p = cc in
      let (mismo, en) = encontrado q p ks.cola_block_susp esta in
      inr (
        es_block_susp (ks.pcb p).estado (
          omega (
            arith,
            v.1.en_block_susp p,
            subst (λ k. 0 < veces k ks.cola_block_susp) (sym mismo) en,
          )))
]

entregar-Valida :
    (a : Planificador) (nombre : String) (cola : List ℕ) (ks : Ks)
    → IsValid a ks
    → Valida a (entregar_mutex nombre cola ks)
unfolding entregar_mutex
entregar-Valida a nombre [] ks v = (_, refl, v)
entregar-Valida a nombre (q ∷ cola) ks v =
    let ks' : Ks = record ks {
      diccionario_mutex =
          con_mutex nombre (λ x. record x { pid_asignado = some q; cola_bloqueados = cola })
            ks.diccionario_mutex;
    } in
    elim (Option-cases (buscar_bloqueado q ks')) [
      | inl nadie ↦ (ks', rw (nadie, entregar_mutex), v)
      | inr (p, esta) ↦
          let f : Pcb → Pcb = λ r. record r { mutex_tomados = r.mutex_tomados ++ (nombre ∷ []) } in
          let en = bloqueado_en a q p ks' v esta in
          let ks2 : Ks = record ks' { pcb = con_pcb p f ks.pcb } in
          let v2 : IsValid a ks2 =
            con_pcb-IsValid a p f ks' v (λ r. refl) (λ l. v.1.en_rango p l) in
          let igual = mismo_estado p f ks' (λ r. refl) p in
          let en2 : ((ks2.pcb p).estado ≡ block) ⊎ ((ks2.pcb p).estado ≡ block_susp) = elim en [
            | inl b ↦ inl (igual ∙ b)
            | inr b ↦ inr (igual ∙ b)
          ] in
          let (ks3, eq, v3) = despertar-Valida a p ks2 v2 en2 in
          (ks3, rw (esta, entregar_mutex) eq, v3)
    ]

sin_tomado-IsValid :
    (a : Planificador) (nombre : String) (duenio : Option ℕ) (ks : Ks)
    → IsValid a ks
    → IsValid a (record ks { pcb = sin_tomado nombre duenio ks.pcb })
sin_tomado-IsValid a nombre none ks v = v
sin_tomado-IsValid a nombre (some d) ks v =
    con_pcb-IsValid a d (λ p. record p { mutex_tomados = quitar_nombre nombre p.mutex_tomados }) ks
      v (λ p. refl) (λ l. v.1.en_rango d l)

terminar-da :
    (pid socket : ℕ) (duenio : Option ℕ) (r : Option Ks) (ks : Ks)
    → r ≡ some ks
    → (ks' : Ks) × (terminar_liberacion pid socket duenio r ≡ some ks')
terminar-da pid socket none (some x) ks e = (_, refl)
terminar-da pid socket (some d) (some x) ks e = (_, refl)
terminar-da pid socket d none ks e = absurd (cc)

-- When its owner releases a mutex that processes wait for, the call does not fail: the mutex goes to
-- the process that has waited longest, which becomes its owner and leaves the mutex's queue, the
-- others wait on in their order, and every mutex is coherent.
pub liberar_mutex-Exito :
    (a : Planificador) (pid : ℕ) (nombre : String) (socket : ℕ) (ks : Ks) (m : Mutex) (q : ℕ)
    (cola : List ℕ)
    → IsValid a ks
    → Coherentes ks
    → buscar_mutex nombre ks.diccionario_mutex ≡ some m
    → es_duenio pid m ≡ true
    → m.cola_bloqueados ≡ q ∷ cola
    → (ks' : Ks) × (liberar_mutex pid nombre socket ks ≡ some ks')
      × Coherentes ks'
      × (buscar_mutex nombre ks'.diccionario_mutex
          ≡ some (record m { pid_asignado = some q; cola_bloqueados = cola }))
unfolding liberar_mutex
liberar_mutex-Exito a pid nombre socket ks m q cola v c esta propio espera =
    let duenio = buscar_pcb_en_cualquier_estado pid ks in
    let ks1 : Ks = record ks { pcb = sin_tomado nombre duenio ks.pcb } in
    let (ks2, eq, v2) =
      entregar-Valida a nombre m.cola_bloqueados ks1 (sin_tomado-IsValid a nombre duenio ks v) in
    let (ks3, fin) =
      terminar-da pid socket duenio (entregar_mutex nombre m.cola_bloqueados ks1) ks2 eq in
    let todo : liberar_mutex pid nombre socket ks ≡ some ks3 =
      rw (esta, liberar_mutex, propio) fin in
    (
      ks3,
      todo,
      subst (SiDa Coherentes) todo (liberar_mutex-Coherentes pid nombre socket ks c),
      subst
          (SiDa (λ k.
            buscar_mutex nombre k.diccionario_mutex
            ≡ some (record m { pid_asignado = some q; cola_bloqueados = cola })))
          todo (liberar_mutex-entrega pid nombre socket ks m q cola esta propio espera),
    )
