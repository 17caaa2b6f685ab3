-- ===== src/Clipboard/Examples.antt =====
-- src/Clipboard.cpp: a text that is copied on either side, and a client that asks while nothing is shared.
use kheadless_krdp.Prelude.{refl, true, some, List, [], ◌∷◌}
use kheadless_krdp.Clipboard.{Clipboard, initial}
use kheadless_krdp.Clipboard.Codec.Examples.{formats, codecs}
use kheadless_krdp.Clipboard.Events.{
  ClipboardEvent, initializes, enables, sets_text, runs_queued, lists_formats, requests_data,
  responds, run,
}
use kheadless_krdp.Clipboard.Requests.{AreRequested, run-AreRequested}
use kheadless_krdp.Clipboard.Silence.{StaysSilent, run-StaysSilent}

abbrev copied : List ClipboardEvent
copied =
    initializes true true
    ∷ enables true
    ∷ lists_formats (7 ∷ 13 ∷ [])
    ∷ responds true (some (104 ∷ 0 ∷ []))
    ∷ []

run-AreRequested_example : AreRequested (run formats codecs copied initial)
run-AreRequested_example = run-AreRequested formats codecs copied (refl, refl, refl)

abbrev unshared : List ClipboardEvent
unshared =
    initializes true true
    ∷ sets_text (104 ∷ [])
    ∷ runs_queued
    ∷ lists_formats (13 ∷ [])
    ∷ requests_data 13
    ∷ []

run-StaysSilent_example : StaysSilent initial (run formats codecs unshared initial)
run-StaysSilent_example =
    run-StaysSilent formats codecs unshared initial (refl, (refl, (refl, (refl, (refl, tt))))) refl

abbrev shared : Clipboard
shared = record initial { has_context = true; initialized = true; enabled = true }
