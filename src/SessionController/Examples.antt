-- ===== src/SessionController/Examples.antt =====
-- server/SessionController.cpp: a stream that is enabled, and the session that follows.
use kheadless_krdp.Prelude.{◌≡◌, refl, true, false, none, some}
use kheadless_krdp.SessionController.{created, portal, on_new_connection}
use kheadless_krdp.SessionController.Wrapper.{
  Joined, stream_set_enabled, on_video_stream_enabled_changed,
}
use kheadless_krdp.SessionController.Wrapper.InStep.{
  begin, begins, enables, delivers_enabled, Reach,
}
use kheadless_krdp.SessionController.Wrapper.Follows.{Follows, Reach-Follows}

no_quality_test : on_new_connection false 1 2 (created portal) ≡ none
unfolding on_new_connection
no_quality_test = refl

abbrev enabled : Joined
enabled = record (on_video_stream_enabled_changed (stream_set_enabled true (begin 7))) {
  enabled_queued = 0;
}

enabled-Reach : Reach enabled
unfolding stream_set_enabled
enabled-Reach = delivers_enabled 0 refl (enables true (begins 7))

rate_test : enabled.rate_queued ≡ 0
unfolding on_video_stream_enabled_changed stream_set_enabled
rate_test = refl

enabled_test : enabled.session.enabled ≡ true
unfolding on_video_stream_enabled_changed stream_set_enabled
enabled_test = refl

Reach-Follows_example :
    (enabled.session.enabled ≡ enabled.stream.enabled)
    × (enabled.session.frame_rate ≡ some enabled.rate.requested_frame_rate)
    × Follows enabled.stream.enabled enabled.session.started enabled.rate.requested_frame_rate
        enabled.session.encoded_stream
Reach-Follows_example = Reach-Follows enabled-Reach refl rate_test
