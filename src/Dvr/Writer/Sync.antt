-- ===== src/Dvr/Writer/Sync.antt =====
-- What `sync_now` and `sync_if_due` (src/dvr/ts_writer.cpp) leave as it is.
use pixel_pilot_rk.Common.{
  ◌-◌, ◌≡◌, refl, inl, inr, Bool, true, false, ◌&&◌, ltb, if◌then◌else◌, Bool-cases,
}
use pixel_pilot_rk.Dvr.Files.{Files, World, contents}
use pixel_pilot_rk.Dvr.Writer.{
  Writer, sync_now, sync_if_due, flush_and_sync, sync_bytes, sync_interval_ms, failed_once,
}

-- What a sync does not change.
pub record Kept (s s' : Writer) (w w' : World) : Type 0 where
  pub is_open : s'.is_open ≡ s.is_open
  pub video_started : s'.video_started ≡ s.video_started
  pub media_ticks : s'.media_ticks ≡ s.media_ticks
  pub cc_video : s'.cc_video ≡ s.cc_video
  pub contents : contents w' ≡ contents w

Kept-all : (s : Writer) (w : World) → Kept s s w w
Kept-all s w = record {
  is_open = refl;
  video_started = refl;
  media_ticks = refl;
  cc_video = refl;
  contents = refl;
}

Kept-counted :
    (ok : Bool) (s s' : Writer) (w w' : World)
    → Kept s s' w w'
    → Kept s (if ok then s' else failed_once s') w w'
Kept-counted true s s' w w' h = h
Kept-counted false s s' w w' h = record {
  is_open = h.is_open;
  video_started = h.video_started;
  media_ticks = h.media_ticks;
  cc_video = h.cc_video;
  contents = h.contents;
}

module _ (k : Files) where
  pub contents-flush_and_sync : (w : World) → contents ((flush_and_sync k w).1) ≡ contents w
  unfolding flush_and_sync
  contents-flush_and_sync w = elim (Bool-cases (k.fflush w)) [
    | inl ok ↦ rw ok refl
    | inr failed ↦ rw failed refl
  ]

  pub sync_now-Kept : (s : Writer) (w : World) → Kept s (sync_now k s w).0.1 w (sync_now k s w).1
  unfolding sync_now
  sync_now-Kept s w = elim (Bool-cases s.is_open) [
    | inl there ↦ rw there (record {
      is_open = refl;
      video_started = refl;
      media_ticks = refl;
      cc_video = refl;
      contents = contents-flush_and_sync w;
    })
    | inr shut ↦ rw shut (Kept-all (record s { is_open = false }) w)
  ]

  pub sync_if_due-Kept :
      (s : Writer) (w : World) → Kept s (sync_if_due k s w).0 w (sync_if_due k s w).1
  unfolding sync_if_due
  sync_if_due-Kept s w =
      elim (Bool-cases (
        ltb s.bytes_since_sync sync_bytes
        && ltb (k.monotonic_ms w - s.last_sync_ms) sync_interval_ms)) [
          | inl early ↦ rw early (Kept-all s w)
          | inr due ↦
              let h = sync_now-Kept s w in
              rw due
                (Kept-counted (sync_now k s w).0.0 s (sync_now k s w).0.1 w (sync_now k s w).1 h)
        ]
