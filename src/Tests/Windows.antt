-- ===== src/Tests/Windows.antt =====
-- The loop of the configuration tool over concrete messages.
use ntfw.Common.{refl, true, ◌≡◌, ◌↔◌, List, [], ◌∷◌, some, none}
use ntfw.Window.{Wait, Action, wm_quit, message_loop, last_message, drain, win_main}
use ntfw.Window.Quit.{Quits, win_main_iff}

-- A message of the mouse comes behind `WM_QUIT`.
abbrev overtaken : List Wait
overtaken = record { timer = true; fetched = wm_quit ∷ 512 ∷ [] } ∷ []

quit_lost : win_main true overtaken ≡ none
unfolding win_main message_loop last_message drain
quit_lost = refl

win_main_iff_example :
    ((actions : List Action) × (win_main true overtaken ≡ some actions)) ↔ Quits overtaken
win_main_iff_example = win_main_iff overtaken
