-- ===== src/Drm/Pool/Cleaned.antt =====
-- What `cleanup_writeback` (src/main.cpp) leaves behind.
use pixel_pilot_rk.Common.{ℕ, ◌≡◌, inl, inr, refl, ◌∙◌, Bool, true, false, All, arith}
use pixel_pilot_rk.Drm.Kernel.{Kernel, World}
use pixel_pilot_rk.Drm.Kernel.Monad.{Returns, Returns-and_then, Returns-mono}
use pixel_pilot_rk.Drm.Kernel.Ledger.{Loses}
use pixel_pilot_rk.Drm.Properties.Balance.{Describes}
use pixel_pilot_rk.Drm.Buffers.Capture.{NumbersFromOne}
use pixel_pilot_rk.Drm.Fit.{Ratio}
use pixel_pilot_rk.Drm.Commit.Prepared.{IsRead}
use pixel_pilot_rk.Drm.Writeback.{enabled, detach_writeback}
use pixel_pilot_rk.Drm.Writeback.Found.{Tried}
use pixel_pilot_rk.Drm.Writeback.Detached.{detach_writeback-Detached}
use pixel_pilot_rk.Drm.Pool.{Pool, free_wb_bufs, setup_writeback, cleanup_writeback}
use pixel_pilot_rk.Drm.Pool.Held.{IsHeld, Unrouted-Same, freed-Tried}
use pixel_pilot_rk.Drm.Pool.Settled.{IsShown, setup_writeback-SetUp}
use pixel_pilot_rk.Drm.Pool.Freed.{IsMade, pool_owned, free-IsMade, free_wb_bufs-Loses}

-- A pool that is ready, in whatever way its slots are used.
pub record IsReady (p : Pool) : Type 0 where
  pub ready : p.ready ≡ true
  pub available : p.output.wb_available ≡ true
  pub known : IsRead p.output.wb_connector
  pub made : All IsMade p.slots

abbrev pub CleanedUp : Pool → World → Pool → World → Type 0
CleanedUp p w p' w' =
    (p'.ready ≡ false) × (p'.output ≡ enabled p.output false) × Loses w w' (pool_owned p.slots)

cleanup_writeback-CleanedUp :
    (p : Pool) (w : World) (k : Kernel)
    → IsReady p
    → Returns (cleanup_writeback k p w) (CleanedUp p w)
unfolding cleanup_writeback
cleanup_writeback-CleanedUp p w k h = rw h.ready (
    Returns-and_then (detach_writeback k p.output w) _ _ _
      (detach_writeback-Detached k p.output w h.known)
      λ o v q.
        Returns-and_then (free_wb_bufs p.slots v) _ _ _ (free_wb_bufs-Loses p.slots v h.made)
          λ ss u l. elim q [
            | inl (a, _, _) ↦ absurd (cc (h.available))
            | inr (_, f, g) ↦ (refl, f, λ r. omega (arith, l r, Unrouted-Same p.output w v g r))
          ])

cleanup_writeback-unready :
    (k : Kernel) (start : World) (q : Pool) (v : World)
    → q.ready ≡ false
    → Tried start q.output v
    → Returns (cleanup_writeback k q v) (λ p' u. (p'.ready ≡ false) × Tried start p'.output u)
unfolding cleanup_writeback
cleanup_writeback-unready k start q v y t = rw y (refl, t)

IsHeld-IsReady :
    (start : World) (n : ℕ) (q : Pool) (w : World)
    → q.ready ≡ true
    → IsHeld start n q.output q.slots w
    → IsReady q
IsHeld-IsReady start n q w y g = record {
  ready = y;
  available = g.available;
  known = g.known;
  made = free-IsMade q.slots g.free;
}

-- On a kernel that describes its properties and numbers from 1, with the properties of the connector,
-- the CRTC and the OSD's plane read, a pool that is not ready is set up, whether it works
-- or not, and cleaned up at once: then the pool is not ready, the connector is not enabled, and of all
-- that was taken the process holds at most the properties of a connector that was found.
pub setup_writeback-cleanup_writeback :
    (k : Kernel) (round : Ratio → Ratio) (stretch : Bool) (fence_ptr : ℕ) (p : Pool) (w : World)
    → Describes k
    → NumbersFromOne k
    → IsShown p.output
    → p.ready ≡ false
    → Returns (setup_writeback k round stretch fence_ptr p w) (λ (done, q) v.
      Returns (cleanup_writeback k q v) (λ p' u. (p'.ready ≡ false) × Tried w p'.output u))
setup_writeback-cleanup_writeback k round stretch fence_ptr p w d ids h e =
    Returns-mono (setup_writeback k round stretch fence_ptr p w) _ _
      (setup_writeback-SetUp k round stretch fence_ptr p w d ids h)
      λ (done, q) v o. elim o [
        | inl (_, y, g, _) ↦
            Returns-mono (cleanup_writeback k q v) _ _
              (cleanup_writeback-CleanedUp q v k (IsHeld-IsReady w _ q v y g))
              (λ p' u (n, f, l).
                (n, rw f (freed-Tried w _ q.output q.slots v g v u (λ r. omega arith) l)))
        | inr (_, y, t) ↦ cleanup_writeback-unready k w q v (y ∙ e) t
      ]
