-- ===== src/Engine/InputListenerSingleton.antt =====
-- apps/engine/include/engine/InputListenerSingleton.hpp and source/engine/InputListenerSingleton.cpp: what of
-- Irrlicht's events CEGUI is told. Coordinates are the bits of an `s32`.
use kge.Prelude.{ℕ, List, [], ◌∷◌, ◌++◌}

pub data MouseEvent : Type 0 where
  mouse_moved : ℕ → ℕ → MouseEvent
  left_pressed_down left_left_up other_mouse : MouseEvent

-- `irr::SEvent`
pub data InputEvent : Type 0 where
  mouse_input : MouseEvent → InputEvent
  other_input : InputEvent

-- The calls of CEGUI's context.
pub data Injection : Type 0 where
  mouse_position : ℕ → ℕ → Injection
  left_button_down left_button_up : Injection

unfoldable pub inject : List Injection → MouseEvent → List Injection
inject calls (mouse_moved x y) = calls ++ mouse_position x y ∷ []
inject calls left_pressed_down = calls ++ left_button_down ∷ []
inject calls left_left_up = calls ++ left_button_up ∷ []
inject calls other_mouse = calls

-- `OnEvent`, which returns no value.
unfoldable pub on_event : List Injection → InputEvent → List Injection
on_event calls (mouse_input event) = inject calls event
on_event calls other_input = calls
