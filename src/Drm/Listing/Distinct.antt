-- ===== src/Drm/Listing/Distinct.antt =====
-- What `modeset_print_modes` (src/drm.c) prints does not hang on its uninitialised variables.
use pixel_pilot_rk.Common.{
  ℕ, ◌≡◌, ◌≢◌, ◌⊎◌, inl, inr, refl, ap, true, false, some, List, [], ◌∷◌, arith, All, Option-cases,
}
use pixel_pilot_rk.Drm.Modes.{ModeInfo, Request}
use pixel_pilot_rk.Drm.Kernel.{Kernel, World, Connector, connector, acquire, release}
use pixel_pilot_rk.Drm.Listing.{line, same_line, print_loop, print_connectors, print_modes}

-- The kernel's modes all have a rate.
pub record HasRates (k : Kernel) : Type 0 where
  pub rates :
      (w : World) (c : ℕ) (conn : Connector)
      → k.get_connector w c ≡ some conn
      → All (λ m. m.vrefresh ≢ 0) conn.modes

-- Two previous lines that no mode with a rate tells apart.
abbrev Alike : Request → Request → Type 0
Alike p q = (p ≡ q) ⊎ ((p.refresh ≡ 0) × (q.refresh ≡ 0))

fresh_line :
    (m : ModeInfo) (p : Request) → m.vrefresh ≢ 0 → p.refresh ≡ 0 → same_line (line m) p ≡ false
fresh_line m p h e = ground arith

print_new :
    (p : Request) (m : ModeInfo) (ms : List ModeInfo)
    → same_line (line m) p ≡ false
    → print_loop p (m ∷ ms) ≡ (line m ∷ (print_loop (line m) ms).0, (print_loop (line m) ms).1)
unfolding print_loop
print_new p m ms e =
    ap
      (λ b. elim b [
        | true ↦ print_loop p ms
        | false ↦ (line m ∷ (print_loop (line m) ms).0, (print_loop (line m) ms).1)
      ])
      e

print_loop-Alike :
    (p q : Request) (ms : List ModeInfo)
    → Alike p q
    → All (λ m. m.vrefresh ≢ 0) ms
    → ((print_loop p ms).0 ≡ (print_loop q ms).0) × Alike (print_loop p ms).1 (print_loop q ms).1
unfolding print_loop
print_loop-Alike p q ms (inl e) h = rw e (refl, inl refl)
print_loop-Alike p q [] (inr z) h = (refl, inr z)
print_loop-Alike p q (m ∷ ms) (inr (y, z)) h =
    rw (print_new p m ms (fresh_line m p h.0 y), print_new q m ms (fresh_line m q h.0 z))
      (refl, inl refl)

module _ (k : Kernel) (h : HasRates k) where
  print_connectors-Alike :
      (cs : List ℕ) (p q : Request) (w : World)
      → Alike p q
      → print_connectors k p cs w ≡ print_connectors k q cs w
  unfolding print_connectors
  print_connectors-Alike [] p q w a = refl
  print_connectors-Alike (c ∷ cs) p q w a = elim (Option-cases (k.get_connector w c)) [
    | inl e ↦ rw e (print_connectors-Alike cs p q w a)
    | inr (conn, e) ↦
        let (s, t) = print_loop-Alike p q conn.modes a (h.rates w c conn e) in
        rw
          (
            e,
            s,
            print_connectors-Alike cs (print_loop p conn.modes).1 (print_loop q conn.modes).1
                (release (connector conn.connector_id) ∷ acquire (connector conn.connector_id) ∷ w)
                t,
          )
          refl
  ]

-- If every mode has a rate, what `modeset_print_modes` prints and frees is the same whatever `prev_h`
-- and `prev_v` hold at first.
pub print_modes-uninitialised :
    (k : Kernel) (a b c d : ℕ) (w : World) → HasRates k → print_modes k a b w ≡ print_modes k c d w
unfolding print_modes
print_modes-uninitialised k a b c d w h = elim (Option-cases (k.get_resources w)) [
  | inl e ↦ rw e refl
  | inr (res, e) ↦
      rw
        (
          e,
          print_connectors-Alike k h res.connectors (record { width = a; height = b; refresh = 0 })
              (record { width = c; height = d; refresh = 0 }) _ (inr (refl, refl)),
        )
        refl
]
