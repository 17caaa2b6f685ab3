-- ===== src/Screencasting/Examples.antt =====
-- src/screencasting.cpp: two screens side by side, with the rectangle around both.
use kheadless_krdp.Prelude.{ℕ, ◌≡◌, refl, true, some, [], ◌∷◌}
use kheadless_krdp.Prelude.Int.{
  ℤ, pos, ◌+ℤ◌, ◌-ℤ◌, ◌≤ℤ◌, ◌<ℤ◌, min_ℤ, max_ℤ, min_ℤ-≤, max_ℤ-≤, int_laws,
}
use kheadless_krdp.VideoStream.{RectOperations}
use kheadless_krdp.Screencasting.{
  OutputScreen, stream_region, unite_screens, create_workspace_stream,
}
use kheadless_krdp.Screencasting.Workspace.{IsUnion}

abbrev around : ℤ → ℤ → ℤ → ℤ → ℤ
around a w b v = max_ℤ (a +ℤ w) (b +ℤ v) -ℤ min_ℤ a b

abbrev pub rects : RectOperations
rects = record {
  null_rect = record {
    position = record { x = pos 0; y = pos 0 };
    size = record { width = pos 0; height = pos 0 };
  };
  united = λ r s. record {
    position = record { x = min_ℤ r.position.x s.position.x; y = min_ℤ r.position.y s.position.y };
    size = record {
      width = around r.position.x r.size.width s.position.x s.size.width;
      height = around r.position.y r.size.height s.position.y s.size.height;
    };
  };
}

around_left :
    (a w b v x : ℤ) → a ≤ℤ x → x <ℤ a +ℤ w → (min_ℤ a b ≤ℤ x) × (x <ℤ min_ℤ a b +ℤ around a w b v)
around_left a w b v x h k = omega (int_laws, min_ℤ-≤ a b, max_ℤ-≤ (a +ℤ w) (b +ℤ v))

around_right :
    (a w b v x : ℤ) → b ≤ℤ x → x <ℤ b +ℤ v → (min_ℤ a b ≤ℤ x) × (x <ℤ min_ℤ a b +ℤ around a w b v)
around_right a w b v x h k = omega (int_laws, min_ℤ-≤ a b, max_ℤ-≤ (a +ℤ w) (b +ℤ v))

rects-IsUnion : IsUnion rects
rects-IsUnion = record {
  has_left = λ r s p c.
      let x = around_left r.position.x r.size.width s.position.x s.size.width p.x c.0 c.1 in
      let y = around_left r.position.y r.size.height s.position.y s.size.height p.y c.2 c.3 in
      (x.0, x.1, y.0, y.1);
  has_right = λ r s p c.
      let x = around_right r.position.x r.size.width s.position.x s.size.width p.x c.0 c.1 in
      let y = around_right r.position.y r.size.height s.position.y s.size.height p.y c.2 c.3 in
      (x.0, x.1, y.0, y.1);
}

abbrev screen : ℕ → OutputScreen
screen left = record {
  name = left ∷ [];
  geometry = record {
    position = record { x = pos left; y = pos 0 };
    size = record { width = pos 100; height = pos 50 };
  };
  virtual_size = record { width = pos 200; height = pos 50 };
  has_output = true;
}

two_screens :
    create_workspace_stream true rects (screen 0 ∷ screen 100 ∷ [])
    ≡ some (record {
      object_name = [];
      node_id = 0;
      request =
          stream_region
            (record { x = pos 0; y = pos 0 })
            (record { width = pos 200; height = pos 50 })
            1;
      size = record { width = pos 200; height = pos 50 };
    })
unfolding create_workspace_stream unite_screens ◌-ℤ◌ min_ℤ max_ℤ ◌+ℤ◌
two_screens = refl
