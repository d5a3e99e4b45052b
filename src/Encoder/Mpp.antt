-- ===== src/Encoder/Mpp.antt =====
-- `MppEncoder` (src/encoder/mpp_encoder.cpp, mpp_encoder.h): MPP's context and configuration, what is
-- submitted to it, and the loops that take its packets. What the packets are handed to is a callback
-- on a state `S`, as the caller's captures are.
pub mod Held
use pixel_pilot_rk.Common.{
  ℕ, ◌+◌, ◌*◌, ◌/◌, ◌≡◌, ℤ, pos, negsuc, is_zero, Bool, true, false, not, ◌&&◌, ◌||◌, List, [], ◌∷◌,
  ◌==◌, if◌then◌else◌, length,
}
use pixel_pilot_rk.Encoder.Calls.{
  Calls, World, M, pure, ◌>>=◌, ◌>>◌, ask, note, acquire, release, context, config, configured,
  strides_synced, submitted, eos_submitted, idr_requested, Answer, timeout, failed, packet,
}

-- `ctx` and `cfg` are true where the pointers are not NULL; `mpi` is set with `ctx`.
pub record Mpp : Type 0 where
  pub ctx : Bool
  pub cfg : Bool
  pub cfg_hor_stride : ℕ
  pub cfg_ver_stride : ℕ

pub no_mpp : Mpp
no_mpp = record { ctx = false; cfg = false; cfg_hor_stride = 0; cfg_ver_stride = 0 }

-- `if (cfg) …`, `if (ctx) …`
release_config : Bool → M (Unit {0})
release_config true = note (release config)
release_config false = pure tt

release_context : Bool → M (Unit {0})
release_context true = note (release context)
release_context false = pure tt

pub cleanup : Mpp → M Mpp
cleanup mpp = do release_config mpp.cfg; release_context mpp.ctx; pure no_mpp

-- A failed step of `init`, `cleanup(); return false;`
init_failed : Mpp → M (Bool × Mpp)
init_failed mpp = do mpp' ← cleanup mpp; pure (false, mpp')

module _ (io : Calls) where
  -- The two last `control` calls.
  init_output : Mpp → M (Bool × Mpp)
  init_output mpp = do
    header ← ask io.set_header_mode
    (if not (is_zero header) then init_failed mpp else (do
      time ← ask io.set_output_timeout
      (if not (is_zero time) then init_failed mpp else pure (true, mpp))))

  -- The configuration that is read, set and published.
  init_config : ℕ → ℕ → ℕ → ℕ → ℕ → ℕ → Mpp → M (Bool × Mpp)
  init_config width height hor_stride ver_stride fps bitrate mpp = do
    got ← ask io.get_cfg
    (if not (is_zero got) then init_failed mpp else (do
      note (configured width height hor_stride ver_stride fps bitrate)
      put ← ask io.set_cfg
      (if not (is_zero put) then init_failed mpp else init_output mpp)))

  -- Behind `mpp_create`.
  init_created : ℕ → ℕ → ℕ → ℕ → ℕ → ℕ → Mpp → M (Bool × Mpp)
  init_created width height hor_stride ver_stride fps bitrate mpp = do
    started ← ask io.mpp_init
    (if not (is_zero started) then init_failed mpp else (do
      made ← ask io.mpp_enc_cfg_init
      (if not (is_zero made) then init_failed mpp else (do
        note (acquire config)
        init_config width height hor_stride ver_stride fps bitrate (record mpp { cfg = true })))))

  -- A context that `mpp_create` could not make is NULL.
  pub init : ℕ → ℕ → ℕ → ℕ → ℕ → ℕ → Mpp → M (Bool × Mpp)
  init width height hor_stride ver_stride fps bitrate mpp = do
    ret ← ask io.mpp_create
    (if not (is_zero ret)
        then pure (false, record mpp { cfg_hor_stride = hor_stride; cfg_ver_stride = ver_stride })
        else (do
          note (acquire context)
          init_created width height hor_stride ver_stride fps bitrate (record mpp {
            ctx = true;
            cfg_hor_stride = hor_stride;
            cfg_ver_stride = ver_stride;
          })))

  -- The answer of `MPP_ENC_SET_CFG` is not looked at.
  unfoldable pub sync_strides : ℕ → ℕ → Mpp → M Mpp
  sync_strides hor_stride ver_stride mpp = do
    note (strides_synced hor_stride ver_stride)
    pure (record mpp { cfg_hor_stride = hor_stride; cfg_ver_stride = ver_stride })

  unfoldable pub request_idr : Mpp → M (Unit {0})
  request_idr mpp = if not mpp.ctx then pure tt else note idr_requested

  -- The frame carries the `pts`; the log has it if MPP took it.
  unfoldable pub submit : ℕ → M ℤ
  submit pts = do
    ret ← ask (λ w. io.encode_put_frame w pts)
    (if is_zero ret then (do note (submitted pts); pure ret) else pure ret)

module _ {S : Type 0} where
  -- The loop ends at a timeout or at an error.
  unfoldable pub drain_loop : (S → List ℕ → M S) → List Answer → S → M S
  drain_loop on_nal [] s = pure s
  drain_loop on_nal (timeout ∷ rest) s = pure s
  drain_loop on_nal (failed ∷ rest) s = pure s
  drain_loop on_nal (packet bytes is_eos ∷ rest) s = do
    s' ← (if length bytes == 0 then pure s else on_nal s bytes)
    drain_loop on_nal rest s'

  -- The loop passes over timeouts, and ends at an error, behind the packet that ends the stream, or when
  -- the callback declines a packet; the answers end with the deadline.
  unfoldable pub flush_loop : (S → List ℕ → M (Bool × S)) → List Answer → S → M S
  flush_loop on_nal [] s = pure s
  flush_loop on_nal (timeout ∷ rest) s = flush_loop on_nal rest s
  flush_loop on_nal (failed ∷ rest) s = pure s
  flush_loop on_nal (packet bytes is_eos ∷ rest) s = do
    (go, s') ← (if length bytes == 0 then pure (true, s) else on_nal s bytes)
    (if is_eos || not go then pure s' else flush_loop on_nal rest s')

  unfoldable pub drain : Calls → (S → List ℕ → M S) → S → M S
  drain io on_nal s = do answers ← ask io.answers; drain_loop on_nal answers s

  unfoldable pub flush : Calls → (S → List ℕ → M (Bool × S)) → S → M S
  flush io on_nal s = do note eos_submitted; answers ← ask io.answers; flush_loop on_nal answers s
