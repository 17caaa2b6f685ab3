-- ===== src/VideoStream/Updates.antt =====
-- The calls of src/VideoStream.cpp other than those that send: a new layout, acknowledgements.
use kheadless_krdp.Prelude.{
  ℕ, ◌+◌, ◌-◌, ◌%◌, ◌^◌, ◌<◌, ◌≡◌, refl, true, false, List, [], ◌∷◌, ◌++◌, ◌==◌, ==_iff,
  if◌then◌else◌, arith, Bool-cases, ◌⊎◌, inl, inr,
}
use kheadless_krdp.Prelude.Int.{ℤ, pos, negsuc}
use kheadless_krdp.Monitor.{DisplayMonitor, eq_layout, eq_layout→eq, eq_layout_refl}
use kheadless_krdp.VideoStream.{
  VideoStream, monitor_layout_changed, set_monitor_layout, is_pending, acknowledge,
  on_frame_acknowledge, to_int,
}

-- Setting a layout makes it the stream's. Unless it was the stream's before, which changes nothing, the
-- frames queued for the old layout are dropped, a reset becomes pending and the change is announced. Setting it
-- again changes nothing.
pub set_monitor_layout_lem :
    (ms : List DisplayMonitor) (s : VideoStream)
    → (set_monitor_layout ms s).monitor_layout ≡ ms
      × ((s.monitor_layout ≡ ms × set_monitor_layout ms s ≡ s)
          ⊎ ((set_monitor_layout ms s).frame_queue ≡ []
              × (set_monitor_layout ms s).pending_reset ≡ true
              × (set_monitor_layout ms s).signals ≡ s.signals ++ monitor_layout_changed ∷ []
              × (set_monitor_layout ms s).surfaces ≡ s.surfaces
              × (set_monitor_layout ms s).pending_frames ≡ s.pending_frames))
      × set_monitor_layout ms (set_monitor_layout ms s) ≡ set_monitor_layout ms s
unfolding set_monitor_layout
set_monitor_layout_lem ms s = elim (Bool-cases (eq_layout s.monitor_layout ms)) [
  | inl e ↦
      let same = eq_layout→eq s.monitor_layout ms e in rw (e, e) (same, inl (same, refl), refl)
  | inr e ↦ rw (e, eq_layout_refl ms) (refl, inr (refl, refl, refl, refl, refl), refl)
]

acknowledge-gone : (id : ℕ) (fs : List ℕ) → is_pending id (acknowledge id fs) ≡ false
unfolding is_pending acknowledge
acknowledge-gone id [] = refl
acknowledge-gone id (f ∷ fs) = ground (arith, acknowledge-gone id fs)

acknowledge-keeps :
    (id other : ℕ) (fs : List ℕ)
    → ¬ (other ≡ id)
    → is_pending other (acknowledge id fs) ≡ is_pending other fs
unfolding is_pending acknowledge
acknowledge-keeps id other [] ne = refl
acknowledge-keeps id other (f ∷ fs) ne =
    ground (arith, acknowledge-keeps id other fs ne, ==_iff f id, ==_iff f other)

acknowledge-unknown : (id : ℕ) (fs : List ℕ) → is_pending id fs ≡ false → acknowledge id fs ≡ fs
unfolding is_pending acknowledge
acknowledge-unknown id [] h = refl
acknowledge-unknown id (f ∷ fs) h = ground (arith, acknowledge-unknown id fs)

-- An acknowledged frame is in flight no more, the others are in flight as before, and to acknowledge it
-- once more, with whatever count, changes nothing.
pub on_frame_acknowledge-pending :
    (id total again other : ℕ) (s : VideoStream)
    → is_pending other (on_frame_acknowledge id total s).pending_frames
        ≡ (if other == id then false else is_pending other s.pending_frames)
      × on_frame_acknowledge id again (on_frame_acknowledge id total s)
        ≡ on_frame_acknowledge id total s
unfolding on_frame_acknowledge
on_frame_acknowledge-pending id total again other s =
    elim (Bool-cases (is_pending id s.pending_frames)) [
      | inl e ↦ rw (e, acknowledge-gone id s.pending_frames) (others, refl)
      | inr e ↦ rw (e, e) (ground (arith, acknowledge-unknown id s.pending_frames e, others), refl)
    ]
  where
    others :
        is_pending other (acknowledge id s.pending_frames)
        ≡ (if other == id then false else is_pending other s.pending_frames)
    others = ground (
      arith,
      ==_iff other id,
      acknowledge-gone id s.pending_frames,
      acknowledge-keeps id other s.pending_frames,
    )

-- The count `total`, moved on by the signed number `d`, in uint32_t.
abbrev pub moved_by : ℤ → ℕ → ℕ
moved_by (pos n) total = (total + n) % 2 ^ 32
moved_by (negsuc n) total = (total + (2 ^ 32 - n - 1)) % 2 ^ 32

abbrev pub IsInt32 : ℤ → Type 0
IsInt32 (pos n) = n < 2 ^ 31
IsInt32 (negsuc n) = n < 2 ^ 31

difference_lem :
    (d : ℤ) (total : ℕ)
    → IsInt32 d
    → total < 2 ^ 32
    → to_int ((moved_by d total + 2 ^ 32 - total) % 2 ^ 32) ≡ d
difference_lem (pos n) total h t = ground arith
difference_lem (negsuc n) total h t = ground arith

-- When the acknowledged frame is in flight and the number of encoded frames is the client's count moved on by
-- `d`, a signed number of 32 bits, the frame delay is `d`, also where the counters have wrapped around.
pub on_frame_acknowledge-delay :
    (id total : ℕ) (d : ℤ) (s : VideoStream)
    → is_pending id s.pending_frames ≡ true
    → total < 2 ^ 32
    → IsInt32 d
    → s.encoded_frames ≡ moved_by d total
    → (on_frame_acknowledge id total s).frame_delay ≡ d
unfolding on_frame_acknowledge
on_frame_acknowledge-delay id total d s pending t h e = rw (pending, e) (difference_lem d total h t)
