-- ===== src/Connection/Loop/Order.antt =====
-- src/RdpConnection.cpp: the states of a connection while its thread runs.
use kheadless_krdp.Prelude.{
  ℕ, ◌≡◌, ◌⊎◌, inl, inr, refl, Bool, true, false, List, [], ◌∷◌, if◌then◌else◌, arith,
}
use kheadless_krdp.Geometry.{Rect}
use kheadless_krdp.DisplayControl.{DispConstants}
use kheadless_krdp.Connection.{
  Connection, SetUp, created, initialize, starting, running, streaming, closed, set_state, on_close,
}
use kheadless_krdp.Connection.Loop.{Turn, turn, loop, run}
use kheadless_krdp.Connection.Loop.Passes.{
  IsAnnounced, IsUnderWay, turn-IsUnderWay, turn-IsAnnounced,
}

module _ (constants : DispConstants) (intersects : Rect → Rect → Bool)
    (same : List ℕ → List ℕ → Bool) where
  -- The states of a connection whose thread has ended.
  abbrev pub HasEnded : Connection → Type 0
  HasEnded c =
      (c.state ≡ closed)
      × ((c.announced ≡ starting ∷ running ∷ closed ∷ [])
          ⊎ (c.announced ≡ starting ∷ running ∷ streaming ∷ closed ∷ []))

  on_close-HasEnded : (c : Connection) → IsAnnounced c → HasEnded (on_close c)
  unfolding on_close set_state
  on_close-HasEnded c h = ground arith

  abbrev pub IsOrdered : Connection × Bool → Type 0
  IsOrdered r = (r.1 ≡ false) × IsUnderWay r.0 ⊎ (r.1 ≡ true) × HasEnded r.0

  either-IsOrdered :
      (test : Bool) (r s : Connection × Bool)
      → (test ≡ true → IsOrdered r)
      → (test ≡ false → IsOrdered s)
      → IsOrdered (if test then r else s)
  either-IsOrdered true r s f g = f refl
  either-IsOrdered false r s f g = g refl

  IsUnderWay-IsAnnounced : (c : Connection) → IsUnderWay c → IsAnnounced c
  IsUnderWay-IsAnnounced c h = ground arith

  loop-IsOrdered :
      (turns : List Turn) (c : Connection)
      → IsUnderWay c
      → IsOrdered (loop constants intersects same turns c)
  unfolding loop
  loop-IsOrdered [] c h = inl (refl, h)
  loop-IsOrdered (t ∷ turns) c h =
      let r = turn constants intersects same t c in
      let rest = loop constants intersects same turns r.0 in
      let announced = IsUnderWay-IsAnnounced c h in
      either-IsOrdered t.stop_requested (on_close c, true)
        (if r.1 then rest else (on_close r.0, true))
        (λ stopped. inr (refl, on_close-HasEnded c announced))
        (λ goes_on.
          either-IsOrdered r.1 rest (on_close r.0, true)
            (λ more.
              loop-IsOrdered turns r.0 (turn-IsUnderWay constants intersects same t c more h))
            (λ done. inr (
              refl,
              on_close-HasEnded r.0 (turn-IsAnnounced constants intersects same t c announced),
            )))

  initialize-running :
      (up : SetUp)
      → (initialize up created).has_thread ≡ true
      → IsUnderWay (set_state running (initialize up created))
  unfolding initialize set_state
  initialize-running up h = ground arith

  -- However a connection is set up and whatever its thread meets: if the thread starts, the connection announces the
  -- states starting, running, possibly streaming, and when the thread ends closed, each of them once and in this order,
  -- and is in the last. While it streams, the display control and the graphics channel exist, and a thread submits
  -- frames whenever the graphics channel exists.
  pub run-IsOrdered :
      (up : SetUp) (turns : List Turn)
      → (initialize up created).has_thread ≡ true
      → IsOrdered (run constants intersects same turns (initialize up created))
  unfolding run
  run-IsOrdered up turns h =
      loop-IsOrdered turns (set_state running (initialize up created)) (initialize-running up h)
