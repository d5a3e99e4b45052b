-- ===== src/Drm/Pool/Held.antt =====
-- What the process holds while the pool (src/main.cpp) is there, and both ways to give it up.
use pixel_pilot_rk.Common.{ℕ, ◌≡◌, inl, inr, refl, true, false, List, ◌++◌, length, All, arith}
use pixel_pilot_rk.Drm.Kernel.{Kernel, World}
use pixel_pilot_rk.Drm.Kernel.Monad.{Returns, Returns-mono}
use pixel_pilot_rk.Drm.Kernel.Ledger.{Gains, Loses, Same, tally-append}
use pixel_pilot_rk.Drm.Properties.Balance.{object_resources}
use pixel_pilot_rk.Drm.State.{Output}
use pixel_pilot_rk.Drm.Commit.Prepared.{IsRead}
use pixel_pilot_rk.Drm.Writeback.{enabled, detach_writeback}
use pixel_pilot_rk.Drm.Writeback.Found.{Tried}
use pixel_pilot_rk.Drm.Writeback.Detached.{Unrouted, detach_writeback-Detached}
use pixel_pilot_rk.Drm.Pool.{Slot, free_wb_bufs}
use pixel_pilot_rk.Drm.Pool.Freed.{IsFree, pool_owned, free-IsMade, free_wb_bufs-Loses}

-- The connector is there and described, and the process holds it and `n` unused buffers.
pub record IsHeld (start : World) (n : ℕ) (out : Output) (ss : List Slot) (w : World) : Type 0 where
  pub available : out.wb_available ≡ true
  pub known : IsRead out.wb_connector
  pub free : All IsFree ss
  pub count : length ss ≡ n
  pub gains : Gains start w (object_resources out.wb_connector ++ pool_owned ss)

pub Unrouted-Same : (out : Output) (w w' : World) → Unrouted out w w' → Same w w'
Unrouted-Same out w w' (inl e) r = rw e (omega arith)
Unrouted-Same out w w' (inr (inl e)) r = rw e (omega arith)
Unrouted-Same out w w' (inr (inr (req, _, e))) r = rw e (omega arith)

pub IsHeld-Same :
    (start : World) (n : ℕ) (out : Output) (ss : List Slot) (w v : World)
    → IsHeld start n out ss w
    → Same w v
    → IsHeld start n out ss v
IsHeld-Same start n out ss w v h e = record {
  available = h.available;
  known = h.known;
  free = h.free;
  count = h.count;
  gains = λ r. omega (arith, h.gains r, e r);
}

-- Without its buffers the process holds the connector only.
module _ (start : World) (n : ℕ) (out : Output) (ss : List Slot) (w : World)
    (h : IsHeld start n out ss w) where
  pub freed-Tried :
      (v u : World) → Same w v → Loses v u (pool_owned ss) → Tried start (enabled out false) u
  freed-Tried v u e l = (
    refl,
    inl (
      h.available,
      h.known.0,
      λ r. omega (
        arith,
        h.gains r,
        e r,
        l r,
        tally-append r (object_resources out.wb_connector) (pool_owned ss),
      ),
    ),
  )

  pub free_wb_bufs-Tried :
      (v : World)
      → Same w v
      → Returns (free_wb_bufs ss v) (λ _ u. Tried start (enabled out false) u)
  free_wb_bufs-Tried v e =
      Returns-mono (free_wb_bufs ss v) _ _ (free_wb_bufs-Loses ss v (free-IsMade ss h.free))
        (λ _ u l. freed-Tried v u e l)

  -- Both paths on which an attached connector is given up.
  pub detach_free-Tried :
      (k : Kernel) (v : World)
      → Same w v
      → Returns (detach_writeback k out v) (λ o u.
        (o ≡ enabled out false)
        × Returns (free_wb_bufs ss u) (λ _ x. Tried start (enabled out false) x))
  detach_free-Tried k v e =
      Returns-mono (detach_writeback k out v) _ _ (detach_writeback-Detached k out v h.known)
        λ o u q. elim q [
          | inl (a, _, _) ↦ absurd (cc (h.available))
          | inr (_, f, g) ↦
              (f, free_wb_bufs-Tried u (λ r. omega (arith, e r, Unrouted-Same out v u g r)))
        ]
