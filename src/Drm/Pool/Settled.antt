-- ===== src/Drm/Pool/Settled.antt =====
-- What `setup_writeback` (src/main.cpp) leaves behind.
use pixel_pilot_rk.Common.{
  ℕ, ◌+◌, ◌≡◌, ◌≢◌, none, ◌⊎◌, inl, inr, refl, sym, subst, ℤ, pos, is_zero, Bool, true, false, List,
  [], length, arith, if◌then◌else◌,
}
use pixel_pilot_rk.Drm.Kernel.{Kernel, World}
use pixel_pilot_rk.Drm.Kernel.Monad.{Returns, Returns-and_then, pure, ◌>>=◌}
use pixel_pilot_rk.Drm.Kernel.Ensures.{Returns-Ensures}
use pixel_pilot_rk.Drm.Kernel.Ledger.{Gains, tally-append}
use pixel_pilot_rk.Drm.Properties.Balance.{Describes, object_resources}
use pixel_pilot_rk.Drm.Buffers.Capture.{NumbersFromOne}
use pixel_pilot_rk.Drm.State.{Output}
use pixel_pilot_rk.Drm.Fit.{Ratio}
use pixel_pilot_rk.Drm.Commit.Prepared.{IsRead}
use pixel_pilot_rk.Drm.Writeback.{
  enabled, find_writeback, attach_writeback, check_writeback, detach_writeback,
}
use pixel_pilot_rk.Drm.Writeback.Found.{Tried, find_writeback-FoundWriteback}
use pixel_pilot_rk.Drm.Writeback.Kept.{Kept, find_writeback-Kept}
use pixel_pilot_rk.Drm.Writeback.Attached.{
  Ready, Routed, AttachOutcome, attach_writeback-AttachOutcome,
}
use pixel_pilot_rk.Drm.Writeback.Checked.{Checked, check_writeback-Checked}
use pixel_pilot_rk.Drm.Pool.{
  Slot, Pool, first_fb, left_with, free_wb_bufs, create_bufs, check_pool, attach_pool, create_pool,
  setup_writeback,
}
use pixel_pilot_rk.Drm.Pool.Held.{IsHeld, IsHeld-Same, free_wb_bufs-Tried, detach_free-Tried}
use pixel_pilot_rk.Drm.Pool.Freed.{pool_owned, is_zero_neg, create_bufs-AllMade, AllMade}

zero_add : (n : ℕ) → 0 + n ≡ n
zero_add n = omega arith

-- The kernel accepted a modeset that routes the connector, and then, as tests, a state without a
-- capture and one with a capture into the first buffer.
abbrev pub Accepted : (Ratio → Ratio) → Bool → ℕ → Pool → World → Type 0
Accepted round stretch fence_ptr p w' =
    (out : Output) × (u : World) × Routed round out stretch u
    × (p.output ≡ enabled out true)
    × Checked p.output (first_fb p.slots) fence_ptr u (pos 0) w'

-- The pool is ready, or the process holds no more than the connector.
abbrev pub SetUp : (Ratio → Ratio) → Bool → ℕ → World → Pool → Bool × Pool → World → Type 0
SetUp round stretch fence_ptr start p0 (done, p) w' =
    ((done ≡ true)
      × (p.ready ≡ true)
      × IsHeld start (length p0.slots) p.output p.slots w'
      × Accepted round stretch fence_ptr p w')
    ⊎ ((done ≡ false) × (p.ready ≡ p0.ready) × Tried start p.output w')

module _ (k : Kernel) (round : Ratio → Ratio) (stretch : Bool) (fence_ptr : ℕ) (start : World)
    (p : Pool) where
  abbrev Ends : Bool × Pool → World → Type 0
  Ends = SetUp round stretch fence_ptr start p

  checked :
      (out : Output) (ss : List Slot) (u v : World) (c : ℤ)
      → Routed round out stretch u
      → IsHeld start (length p.slots) (enabled out true) ss u
      → Checked (enabled out true) (first_fb ss) fence_ptr u c v
      → Returns {A = Bool × Pool}
          ((if is_zero c
              then pure (true, record { slots = ss; ready = true; output = enabled out true })
              else (do
                out' ← detach_writeback k (enabled out true)
                freed ← free_wb_bufs ss
                pure (false, left_with out' freed p)))
            v)
          Ends
  checked out ss u v c t h (e, inl n) = rw (is_zero_neg c n) (
      Returns-and_then (detach_writeback k (enabled out true) v) _ _ _
        (detach_free-Tried start (length p.slots) (enabled out true) ss u h k v e)
        λ o x (f, g).
          rw f (Returns-and_then (free_wb_bufs ss x) _ _ _ g (λ _ y m. inr (refl, refl, m))))
  checked out ss u v c t h (e, inr (z, m)) = rw z (
      inl (
        refl,
        refl,
        IsHeld-Same start (length p.slots) (enabled out true) ss u v h e,
        (out, u, t, refl, (e, inr (refl, m))),
      ))

  attached_or_not :
      (out : Output) (ss : List Slot) (u v : World) (c : ℤ) (o : Output)
      → Ready out
      → out.wb_enabled ≡ false
      → IsHeld start (length p.slots) out ss u
      → AttachOutcome round out stretch u (c, o) v
      → Returns {A = Bool × Pool}
          ((if is_zero c
              then check_pool k round stretch fence_ptr o ss p
              else (do freed ← free_wb_bufs ss; pure (false, left_with o freed p)))
            v)
          Ends
  unfolding check_pool
  attached_or_not out ss u v c o y n h (inl (a, _, _)) = absurd (cc (h.available))
  attached_or_not out ss u v c o y n h (inr (inl (_, b, _, _))) = absurd (cc)
  attached_or_not out ss u v c o y n h (inr (inr (_, _, (e, inl (m, f))))) =
      rw (is_zero_neg c m, f)
        (Returns-and_then (free_wb_bufs ss v) _ _ _
          (free_wb_bufs-Tried start (length p.slots) out ss u h v e) (λ _ x g. inr (refl, refl, g)))
  attached_or_not out ss u v c o y n h (inr (inr (_, _, (e, inr (z, f, t))))) =
      rw (z, f)
        (Returns-and_then (check_writeback k (enabled out true) (first_fb ss) fence_ptr v) _ _ _
          (check_writeback-Checked k (enabled out true) (first_fb ss) fence_ptr v y.osd_plane
            y.wb_connector)
          (λ d x q.
            checked out ss v x d t (attaching (IsHeld-Same start (length p.slots) out ss u v h e))
              q))
    where
      attaching :
          IsHeld start (length p.slots) out ss v
          → IsHeld start (length p.slots) (enabled out true) ss v
      attaching g = record {
        available = g.available;
        known = g.known;
        free = g.free;
        count = g.count;
        gains = g.gains;
      }

  attach_pool-SetUp :
      (out : Output) (ss : List Slot) (u : World)
      → Describes k
      → Ready out
      → out.wb_enabled ≡ false
      → IsHeld start (length p.slots) out ss u
      → Returns (attach_pool k round stretch fence_ptr out ss p u) Ends
  unfolding attach_pool
  attach_pool-SetUp out ss u d y n h =
      Returns-and_then (attach_writeback k round out stretch u) _ _ _
        (attach_writeback-AttachOutcome k round out stretch u d y)
        (λ (c, o) v q. attached_or_not out ss u v c o y n h q)

  -- Behind the loop over the buffers.
  made_or_not :
      (out : Output) (ss : List Slot) (made : Bool) (u v : World)
      → Describes k
      → Ready out
      → out.wb_enabled ≡ false
      → out.wb_available ≡ true
      → Gains start u (object_resources out.wb_connector)
      → AllMade (length p.slots) u (made, ss) v
      → Returns
          ((if made
              then attach_pool k round stretch fence_ptr out ss p
              else pure (false, left_with out ss p))
            v)
          Ends
  made_or_not out ss made u v d y n a g (inl (e, f, c, l)) = rw e (
      attach_pool-SetUp out ss v d y n (record {
        available = a;
        known = y.wb_connector;
        free = f;
        count = c;
        gains = λ r.
            omega
              (arith, g r, l r, tally-append r (object_resources out.wb_connector) (pool_owned ss));
      }))
  made_or_not out ss made u v d y n a g (inr (e, l)) =
      rw e (inr (refl, refl, (n, inl (a, y.wb_connector.0, λ r. omega (arith, g r, l r)))))

  create_pool-SetUp :
      (out : Output) (u : World)
      → Describes k
      → NumbersFromOne k
      → Ready out
      → out.wb_enabled ≡ false
      → out.wb_available ≡ true
      → Gains start u (object_resources out.wb_connector)
      → Returns (create_pool k round stretch fence_ptr out p u) Ends
  unfolding create_pool
  create_pool-SetUp out u d ids y n a g =
      Returns-and_then (create_bufs k out.mode [] p.slots u) _ _ _
        (create_bufs-AllMade k ids out.mode u [] p.slots u tt (λ r. omega arith))
        (λ (made, ss) v m.
          made_or_not out ss made u v d y n a g
            (subst (λ x. AllMade x u (made, ss) v) (zero_add (length p.slots)) m))

-- The properties of the objects that show the picture were read.
pub record IsShown (out : Output) : Type 0 where
  pub connector : IsRead out.connector
  pub crtc : IsRead out.crtc
  pub osd_plane : IsRead out.osd_plane

Kept-Ready :
    (out o : Output)
    → IsShown out
    → Kept out o
    → o.wb_available ≡ true
    → o.wb_connector.props ≢ none
    → Ready o
Kept-Ready out o h (c, r, q, n) a p = record {
  connector = subst IsRead (sym c) h.connector;
  crtc = subst IsRead (sym r) h.crtc;
  osd_plane = subst IsRead (sym q) h.osd_plane;
  wb_connector = (p, n a);
}

-- On a kernel that describes its properties and numbers from 1, with the properties of the connector,
-- the CRTC and the OSD's plane read, `setup_writeback` runs to its end. It returns true with the pool
-- ready: all its buffers are made and unused, the connector is enabled, and the kernel has accepted the
-- route, a state without a capture and one with. Or it returns false, `wb_bufs_ready` is as it was, the
-- connector is not enabled, and of all that it took the process holds at most the properties of a
-- connector that was found.
pub setup_writeback-SetUp :
    (k : Kernel) (round : Ratio → Ratio) (stretch : Bool) (fence_ptr : ℕ) (p : Pool) (w : World)
    → Describes k
    → NumbersFromOne k
    → IsShown p.output
    → Returns (setup_writeback k round stretch fence_ptr p w) (SetUp round stretch fence_ptr w p)
unfolding setup_writeback
setup_writeback-SetUp k round stretch fence_ptr p w d ids h =
    Returns-and_then (find_writeback k p.output w) _ _ _
      (Returns-Ensures (find_writeback k p.output w) _ _
        (find_writeback-FoundWriteback k p.output w d) (find_writeback-Kept k p.output w d))
      λ (c, o) v ((n, f), q). elim f [
        | inl (z, a, y, g) ↦ rw z (
            create_pool-SetUp k round stretch fence_ptr w p o v d ids
              (Kept-Ready p.output o h q a y) n a g)
        | inr (z, a, g) ↦ rw z (inr (refl, refl, (n, inr (a, g))))
      ]
